-- ===== src/LoadBalance/Selected.antt =====
-- naming/loadbalance/weightroundrobin: the server that is selected has the greatest weight.
use trpc_go.Common.{
  ℕ, suc, ◌≡◌, inl, inr, refl, true, false, List, [], ◌∷◌, Option, none, some, get_elem?, arith,
  All, Bool-cases,
}
use trpc_go.Common.Int.{ℤ, ◌-ℤ◌, is_positive}
use trpc_go.LoadBalance.Weighted.{Server, improved, selected}
use trpc_go.LoadBalance.Balanced.{IsAtMost}

abbrev pub IsMaximal : ℤ → List Server → Type 0
IsMaximal c l = All (λ s. IsAtMost c s.current_weight) l

not_better : (a c : ℤ) → is_positive (a -ℤ c) ≡ false → IsAtMost c a
unfolding is_positive ◌-ℤ◌
not_better a c h = ground arith

better : (a c : ℤ) → is_positive (a -ℤ c) ≡ true → IsAtMost a c
unfolding is_positive ◌-ℤ◌
better a c h = ground arith

-- What the rounds over `l` find, having selected a weight of `c` before.
abbrev Found : ℤ → List Server → Option ℕ → Type 0
Found c l none = IsMaximal c l
Found c l (some k) =
    (s : Server) × (get_elem? l k ≡ some s)
    × IsMaximal (s.current_weight) l
    × IsAtMost (s.current_weight) c

IsAtMost-trans : (a b c : ℤ) → IsAtMost a b → IsAtMost b c → IsAtMost a c
IsAtMost-trans a b c h k = omega arith

moved :
    (c : ℤ) (s : Server) (rest : List Server) (o : Option ℕ)
    → is_positive (s.current_weight -ℤ c) ≡ true
    → Found (s.current_weight) rest o
    → Found c (s ∷ rest) (elim o as (λ x. Option ℕ) [ none ↦ some 0 | some k ↦ some (suc k) ])
moved c s rest none p h = (s, refl, (omega arith, h), better s.current_weight c p)
moved c s rest (some k) p (t, e, m, a) = (
  t,
  e,
  (a, m),
  IsAtMost-trans t.current_weight s.current_weight c a (better s.current_weight c p),
)

kept :
    (c : ℤ) (s : Server) (rest : List Server) (o : Option ℕ)
    → is_positive (s.current_weight -ℤ c) ≡ false
    → Found c rest o
    → Found c (s ∷ rest) (elim o as (λ x. Option ℕ) [ none ↦ none | some k ↦ some (suc k) ])
kept c s rest none p h = (not_better s.current_weight c p, h)
kept c s rest (some k) p (t, e, m, a) = (
  t,
  e,
  (IsAtMost-trans t.current_weight c s.current_weight a (not_better s.current_weight c p), m),
  a,
)

improved-Found : (c : ℤ) (l : List Server) → Found c l (improved c l)
unfolding improved
improved-Found c [] = tt
improved-Found c (s ∷ rest) = elim (Bool-cases (is_positive (s.current_weight -ℤ c))) [
  | inl p ↦
      rw (improved, p)
        (moved c s rest (improved s.current_weight rest) p (improved-Found s.current_weight rest))
  | inr p ↦ rw (improved, p) (kept c s rest (improved c rest) p (improved-Found c rest))
]

first-Found :
    (s : Server) (rest : List Server) (o : Option ℕ)
    → Found (s.current_weight) rest o
    → (k : ℕ) × (t : Server) × ((elim o as (λ x. Option ℕ) [
      | none ↦ some 0
      | some k ↦ some (suc k)
    ])
        ≡ some k)
      × (get_elem? (s ∷ rest) k ≡ some t)
      × IsMaximal (t.current_weight) (s ∷ rest)
first-Found s rest none h = (0, s, refl, refl, (omega arith, h))
first-Found s rest (some k) (t, e, m, a) = (suc k, t, refl, e, (a, m))

pub selected-IsMaximal :
    (s : Server) (rest : List Server)
    → (k : ℕ) × (t : Server) × (selected (s ∷ rest) ≡ some k)
      × (get_elem? (s ∷ rest) k ≡ some t)
      × IsMaximal (t.current_weight) (s ∷ rest)
unfolding selected
selected-IsMaximal s rest =
    first-Found s rest (improved s.current_weight rest) (improved-Found s.current_weight rest)
