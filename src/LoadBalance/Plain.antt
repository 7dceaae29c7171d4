-- ===== src/LoadBalance/Plain.antt =====
-- naming/loadbalance/roundrobin: the picker of the plain round robin. The time since the last update
-- is an argument.
use trpc_go.Common.{
  ℕ, zero, suc, ◌+◌, ◌%◌, ◌≤◌, ◌<◌, ◌≡◌, ◌≢◌, ◌⊎◌, inl, inr, refl, sym, ◌∙◌, ap, ◌==◌, ltb, true,
  false, not, ◌||◌, List, [], ◌∷◌, ◌++◌, none, some, length, length-append, map, get_elem?,
  if◌then◌else◌, arith, Bool-cases, All,
}
use mathlib.Core.List.{append_assoc, append-nil}
use native.Mathlib.Nat.{mod_self, mod-eq_of_lt, mod-lt}
use trpc_go.LoadBalance.Weighted.{Node}

-- rrPicker; `age` is the time since `updated`.
pub record RrPicker : Type 0 where
  pub list : List Node
  pub age : ℕ
  pub next : ℕ
  pub interval : ℕ

-- What Pick does: ErrNoServerAvailable, an index out of range, or a node.
pub data Picked : Type 0 where
  fails panics : Picked
  gives : Node → Picked

-- rrPicker.updateState
unfoldable pub update_state : List Node → RrPicker → RrPicker
update_state list p =
    if (length p.list == 0) || (not (length p.list == length list) || ltb p.interval p.age)
    then record p { list = list; age = 0; next = 0 }
    else p

-- p.list[p.next] and what follows it in Pick
unfoldable pub take_node : RrPicker → RrPicker × Picked
take_node p = elim (get_elem? p.list p.next) [
  | none ↦ (p, panics)
  | some node ↦ (record p { next = (p.next + 1) % length p.list }, gives node)
]

-- rrPicker.Pick
unfoldable pub pick : List Node → RrPicker → RrPicker × Picked
pick list p =
    let p' = update_state list p in if length p'.list == 0 then (p', fails) else take_node p'

-- Several calls of Pick with the same number of nodes, within the interval.
unfoldable pub pick_each : List (List Node) → RrPicker → RrPicker × List Picked
pick_each [] p = (p, [])
pick_each (list ∷ lists) p =
    let (p', one) = pick list p in let (p'', rest) = pick_each lists p' in (p'', one ∷ rest)

abbrev at : RrPicker → ℕ → RrPicker
at p n = record p { next = n }

get_elem?-append :
    (xs : List Node) (y : Node) (ys : List Node) → get_elem? (xs ++ (y ∷ ys)) (length xs) ≡ some y
get_elem?-append [] y ys = refl
get_elem?-append (x ∷ xs) y ys = get_elem?-append xs y ys

keeps :
    (list : List Node) (p : RrPicker)
    → length list ≡ length p.list
    → 0 < length p.list
    → p.age ≤ p.interval
    → update_state list p ≡ p
unfolding update_state
keeps list p e n a = ground arith

take_next :
    (p : RrPicker) (node : Node) (m : ℕ)
    → get_elem? p.list p.next ≡ some node
    → (p.next + 1) % length p.list ≡ m
    → take_node p ≡ (at p m, gives node)
unfolding take_node
take_next p node m e q = rw (take_node, e, q)

pick_next :
    (list : List Node) (p : RrPicker) (node : Node) (m : ℕ)
    → length list ≡ length p.list
    → 0 < length p.list
    → p.age ≤ p.interval
    → get_elem? p.list p.next ≡ some node
    → (p.next + 1) % length p.list ≡ m
    → pick list p ≡ (at p m, gives node)
unfolding pick
pick_next list p node m e n a g q =
    let same : (length p.list == 0) ≡ false = ground arith in
    rw (pick, keeps list p e n a, same) (take_next p node m g q)

-- From the index that is the length of `xs`, as many picks as `ys` has nodes give these nodes.
picks_rest :
    (lists : List (List Node)) (p : RrPicker) (xs ys : List Node)
    → All (λ list. length list ≡ length p.list) lists
    → length lists ≡ length ys
    → p.list ≡ xs ++ ys
    → p.next ≡ length xs % length p.list
    → 0 < length p.list
    → p.age ≤ p.interval
    → pick_each lists p ≡ (at p 0, map gives ys)
unfolding pick_each
picks_rest [] p xs [] k e q z n a =
    let size : length xs ≡ length p.list = sym (ap length (q ∙ append-nil xs)) in
    ap (λ i. (at p i, [])) (z ∙ ap (λ i. i % length p.list) size ∙ mod_self (length p.list))
picks_rest (list ∷ lists) p xs (y ∷ ys) (k, ks) e q z n a =
    let size : length p.list ≡ length xs + suc (length ys) =
      ap length q ∙ length-append xs (y ∷ ys) in
    let here : p.next ≡ length xs = z ∙ mod-eq_of_lt (omega arith) in
    let node : get_elem? p.list p.next ≡ some y =
      ap (λ l. get_elem? l p.next) q
      ∙ ap (get_elem? (xs ++ (y ∷ ys))) here
      ∙ get_elem?-append xs y ys in
    let m = (p.next + 1) % length p.list in
    let one : pick list p ≡ (at p m, gives y) = pick_next list p y m k n a node refl in
    let after : p.next + 1 ≡ length (xs ++ (y ∷ [])) =
      omega (arith, length-append xs (y ∷ []), here) in
    let rest =
      picks_rest lists (at p m) (xs ++ (y ∷ [])) ys ks (omega arith)
        (q ∙ sym (append_assoc xs (y ∷ []) ys)) (ap (λ i. i % length p.list) after) n a in
    rw one (ap (λ r. (r.0, gives y ∷ r.1)) rest)
picks_rest [] p xs (y ∷ ys) k e q z n a = absurd (omega arith)
picks_rest (list ∷ lists) p xs [] k e q z n a = absurd (omega arith)

-- From a picker at the start of its list, within the interval, as many calls of Pick as it has
-- nodes, each with that number of nodes, give every node of its list once, in their order, and
-- bring it back to the start.
pub every_node :
    (lists : List (List Node)) (p : RrPicker)
    → All (λ list. length list ≡ length p.list) lists
    → length lists ≡ length p.list
    → p.next ≡ 0
    → 0 < length p.list
    → p.age ≤ p.interval
    → pick_each lists p ≡ (p, map gives p.list)
every_node lists p k e z n a =
    picks_rest lists p [] p.list k e refl (z ∙ sym (mod-eq_of_lt n)) n a
    ∙ ap (λ i. (at p i, map gives p.list)) (sym z)

-- The next index is one of the list, unless that is empty.
abbrev pub IsInRange : RrPicker → Type 0
IsInRange p = (length p.list ≡ 0) ⊎ (p.next < length p.list)

empty_or_not : (list : List Node) → (length list ≡ 0) ⊎ (0 < length list)
empty_or_not list = omega arith

update_state-IsInRange :
    (list : List Node) (p : RrPicker) → IsInRange p → IsInRange (update_state list p)
unfolding update_state
update_state-IsInRange list p h =
    elim (Bool-cases
      ((length p.list == 0) || (not (length p.list == length list) || ltb p.interval p.age))) [
        | inl c ↦ rw (update_state, c) (empty_or_not list)
        | inr c ↦ rw (update_state, c) h
      ]

get_elem?-lt : (l : List Node) (i : ℕ) → i < length l → (node : Node) × (get_elem? l i ≡ some node)
get_elem?-lt [] i h = absurd (omega arith)
get_elem?-lt (x ∷ l) zero h = (x, refl)
get_elem?-lt (x ∷ l) (suc i) h = get_elem?-lt l i (omega arith)

pick_updated :
    (p : RrPicker)
    → IsInRange p
    → ((if length p.list == 0 then (p, fails) else take_node p).1 ≢ panics)
      × IsInRange ((if length p.list == 0 then (p, fails) else take_node p).0)
pick_updated p (inl z) =
    let e : (length p.list == 0) ≡ true = ground arith in rw e ((λ q. cc), inl z)
pick_updated p (inr h) =
    let e : (length p.list == 0) ≡ false = ground arith in
    let (node, g) = get_elem?-lt p.list p.next h in
    let t = take_next p node ((p.next + 1) % length p.list) g refl in
    rw e (rw t ((λ q. cc), inr (mod-lt (p.next + 1) (omega arith))))

-- A picker whose next index is one of its list, or whose list is empty, as a new one's is, never
-- indexes its list out of range in Pick, and is such a picker again afterwards, with any nodes and
-- at any time.
pub pick-IsInRange :
    (list : List Node) (p : RrPicker)
    → IsInRange p
    → ((pick list p).1 ≢ panics) × IsInRange ((pick list p).0)
unfolding pick
pick-IsInRange list p h = pick_updated (update_state list p) (update_state-IsInRange list p h)
