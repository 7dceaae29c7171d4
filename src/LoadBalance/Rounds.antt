-- ===== src/LoadBalance/Rounds.antt =====
-- naming/loadbalance/weightroundrobin: Pick and sequences of its calls.
use trpc_go.Common.{
  ℕ, zero, suc, ◌*◌, ◌==◌, ◌≤◌, ◌<◌, ◌≡◌, inl, inr, refl, sym, ◌∙◌, ltb, not, ◌||◌, List, [], ◌∷◌,
  none, some, length, get_elem?, arith, All, Bool-cases,
}
use trpc_go.Common.Int.{ℤ, pos, negsuc, pos_part, neg_part}
use trpc_go.LoadBalance.Weighted.{
  Node, Server, server_of, get_servers, raise, raise_all, total, selected, reduce, select_server,
  WrrPicker, update_state, pick, pick_from, pick_all,
}
use trpc_go.LoadBalance.Balanced.{
  up, down, IsSteady, IsAbove, IsAtMost, IsBalanced, up-raise_all, reduce-IsBalanced,
  total_positive,
}
use trpc_go.LoadBalance.Selected.{IsMaximal, selected-IsMaximal}

no_part : (c a : ℤ) → IsAtMost c a → pos_part c ≡ 0 → pos_part a ≡ 0
no_part (pos c) (pos a) h z = omega arith
no_part (pos c) (negsuc a) h z = refl
no_part (negsuc c) (pos a) h z = omega arith
no_part (negsuc c) (negsuc a) h z = refl

up-IsMaximal : (c : ℤ) (l : List Server) → IsMaximal c l → pos_part c ≡ 0 → up l ≡ 0
up-IsMaximal c [] h z = refl
up-IsMaximal c (s ∷ rest) (h, hs) z =
    omega (arith, up-IsMaximal c rest hs z, no_part c s.current_weight h z)

positive_max : (c : ℤ) (l : List Server) → IsMaximal c l → 0 < up l → 0 < pos_part c
positive_max (pos zero) l m h = absurd (omega (arith, up-IsMaximal (pos zero) l m refl))
positive_max (pos (suc n)) l m h = omega arith
positive_max (negsuc n) l m h = absurd (omega (arith, up-IsMaximal (negsuc n) l m refl))

-- What selectServer does to balanced servers, of which there are some.
abbrev pub IsSelection : List Server → Type 0
IsSelection l =
    (l' : List Server) × (k : ℕ) × (t : Server) × (select_server l ≡ some (l', k))
    × (get_elem? (raise_all l) k ≡ some t)
    × IsMaximal (t.current_weight) (raise_all l)
    × IsBalanced l'

select_at :
    (l : List Server) (k : ℕ)
    → selected (raise_all l) ≡ some k
    → select_server l ≡ some (reduce (total l) k (raise_all l), k)
unfolding select_server
select_at l k e = rw (select_server, e)

choose-IsSelection :
    (l : List Server) (k : ℕ) (t : Server)
    → IsBalanced l
    → 0 < length l
    → selected (raise_all l) ≡ some k
    → get_elem? (raise_all l) k ≡ some t
    → IsMaximal (t.current_weight) (raise_all l)
    → IsSelection l
choose-IsSelection l k t h n e g m =
    let grown : 0 < up (raise_all l) =
      omega (arith, up-raise_all l, h.even, total_positive l h.steady n) in
    let p : 0 < pos_part t.current_weight = positive_max t.current_weight (raise_all l) m grown in
    (reduce (total l) k (raise_all l), k, t, select_at l k e, g, m, reduce-IsBalanced l k t h g p)

-- On servers that have their configured weights, whose current weights add up to zero, with none
-- below the negated sum of the weights: selectServer returns a server whose weight, after the
-- weights have been raised, is the greatest of all, and leaves the servers in such a state again.
pub select_server-IsBalanced : (l : List Server) → 0 < length l → IsBalanced l → IsSelection l
unfolding raise_all
select_server-IsBalanced [] n h = absurd (omega arith)
select_server-IsBalanced (s ∷ rest) n h =
    let (k, t, e, g, m) = selected-IsMaximal (raise s) (raise_all rest) in
    choose-IsSelection (s ∷ rest) k t h n e g m

IsSteady-get_servers :
    (list : List Node)
    → All IsSteady (get_servers list) × (up (get_servers list) ≡ 0) × (down (get_servers list) ≡ 0)
unfolding get_servers server_of
IsSteady-get_servers [] = (tt, refl, refl)
IsSteady-get_servers (n ∷ ns) =
    let (a, b, c) = IsSteady-get_servers ns in
    (((refl, ground arith), a), omega (arith, b), omega (arith, c))

IsAbove-get_servers : (b : ℕ) (list : List Node) → All (IsAbove b) (get_servers list)
unfolding get_servers server_of
IsAbove-get_servers b [] = tt
IsAbove-get_servers b (n ∷ ns) = (omega arith, IsAbove-get_servers b ns)

pub get_servers-IsBalanced : (list : List Node) → IsBalanced (get_servers list)
get_servers-IsBalanced list =
    let (a, b, c) = IsSteady-get_servers list in
    record {
      steady = a;
      even = b ∙ sym c;
      above = IsAbove-get_servers (total (get_servers list)) list;
    }

length-get_servers : (list : List Node) → length (get_servers list) ≡ length list
unfolding get_servers
length-get_servers [] = refl
length-get_servers (n ∷ ns) = omega (arith, length-get_servers ns)

update_state-IsBalanced :
    (list : List Node) (p : WrrPicker)
    → IsBalanced p.list
    → IsBalanced (update_state list p).list × (length (update_state list p).list ≡ length list)
unfolding update_state
update_state-IsBalanced list p h =
    elim (Bool-cases
      ((length p.list == 0) || (not (length p.list == length list) || ltb p.interval p.age))) [
        | inl c ↦ rw (update_state, c) (get_servers-IsBalanced list, length-get_servers list)
        | inr c ↦ rw (update_state, c) (h, ground arith)
      ]

select_none : select_server [] ≡ none
unfolding select_server selected raise_all
select_none = refl

pick_from-IsBalanced :
    (l : List Server) (p : WrrPicker)
    → p.list ≡ l
    → IsBalanced l
    → IsBalanced ((pick_from p).0.list)
unfolding pick_from
pick_from-IsBalanced [] p e h = rw (pick_from, e, select_none) (rw (sym e) at h)
pick_from-IsBalanced (s ∷ rest) p e h =
    let (l', k, t, picked, _, _, balanced) = select_server-IsBalanced (s ∷ rest) (omega arith) h in
    rw (pick_from, e, picked) balanced

picks-IsBalanced :
    (calls : List (List Node × ℕ)) (p : WrrPicker)
    → IsBalanced p.list
    → IsBalanced ((pick_all calls p).list)
unfolding pick_all pick
picks-IsBalanced [] p h = h
picks-IsBalanced ((list, age) ∷ rest) p h = picks-IsBalanced rest _ (
    pick_from-IsBalanced _ (update_state list (record p { age = age })) refl
      (update_state-IsBalanced list (record p { age = age }) h).0)

down_le : (b : ℕ) (l : List Server) → All (IsAbove b) l → down l ≤ length l * b
down_le b [] h = omega arith
down_le b (s ∷ rest) (h, hs) = omega (arith, down_le b rest hs)

-- A server's current weight lies between these bounds.
abbrev pub IsBetween : ℕ → ℕ → Server → Type 0
IsBetween below above s = (neg_part s.current_weight ≤ below) × (pos_part s.current_weight ≤ above)

between :
    (below above : ℕ) (l : List Server)
    → All (IsAbove below) l
    → up l ≤ above
    → All (IsBetween below above) l
between below above [] h k = tt
between below above (s ∷ rest) (h, hs) k =
    ((h, omega arith), between below above rest hs (omega arith))

-- After any sequence of calls of Pick, with any lists of nodes and at any times, from a new picker
-- on: the current weights of the servers add up to zero, none is below the negated sum of their
-- effective weights, and none is above this sum times their number.
pub weights_bounded :
    (interval : ℕ) (calls : List (List Node × ℕ))
    → (let servers = (pick_all calls (record { list = []; age = 0; interval = interval })).list in
        (up servers ≡ down servers)
        × All (IsBetween (total servers) (length servers * total servers)) servers)
unfolding get_servers
weights_bounded interval calls =
    let new : WrrPicker = record { list = []; age = 0; interval = interval } in
    let h = picks-IsBalanced calls new (get_servers-IsBalanced []) in
    let servers = (pick_all calls new).list in
    (
      h.even,
      between _ _ servers h.above (omega (arith, h.even, down_le (total servers) servers h.above)),
    )
