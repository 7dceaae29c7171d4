-- ===== src/LoadBalance/Balanced.antt =====
-- naming/loadbalance/weightroundrobin: the current weights stay balanced.
use trpc_go.Common.{
  ℕ, zero, suc, ◌+◌, ◌≤◌, ◌<◌, ◌≡◌, refl, ap, List, [], ◌∷◌, some, length, get_elem?, arith, All,
}
use trpc_go.Common.Int.{ℤ, pos, pos_part, neg_part, ◌+ℤ◌, ◌-ℤ◌, +ℤ_parts, -ℤ_parts}
use trpc_go.LoadBalance.Weighted.{Server, raise, raise_all, total, reduce}

-- The sums of the weights above and below zero.
abbrev pub up : List Server → ℕ
up [] = 0
up (s ∷ rest) = pos_part s.current_weight + up rest

abbrev pub down : List Server → ℕ
down [] = 0
down (s ∷ rest) = neg_part s.current_weight + down rest

abbrev pub IsSteady : Server → Type 0
IsSteady s = (s.effect_weight ≡ s.weight) × (0 < s.weight)

abbrev pub IsAbove : ℕ → Server → Type 0
IsAbove b s = neg_part s.current_weight ≤ b

-- a ≤ b
abbrev pub IsAtMost : ℤ → ℤ → Type 0
IsAtMost b a = pos_part a + neg_part b ≤ pos_part b + neg_part a

-- Every server has its configured weight, the current weights add up to zero, and none is below
-- the negated sum of the weights.
pub record IsBalanced (l : List Server) : Type 0 where
  pub steady : All IsSteady l
  pub even : up l ≡ down l
  pub above : All (IsAbove (total l)) l

pub up-raise_all :
    (l : List Server) → up (raise_all l) + down l ≡ down (raise_all l) + up l + total l
unfolding raise_all raise total
up-raise_all [] = omega arith
up-raise_all (s ∷ rest) =
    omega (arith, up-raise_all rest, +ℤ_parts s.current_weight (pos s.effect_weight))

raise-IsSteady :
    (s : Server) → IsSteady s → (IsSteady (raise s)) × ((raise s).effect_weight ≡ s.effect_weight)
unfolding raise
raise-IsSteady s (e, p) = ((ground arith, p), ground arith)

IsSteady-raise_all :
    (l : List Server)
    → All IsSteady l
    → All IsSteady (raise_all l) × (total (raise_all l) ≡ total l)
unfolding raise_all total
IsSteady-raise_all [] h = (tt, refl)
IsSteady-raise_all (s ∷ rest) (h, hs) =
    let (a, b) = raise-IsSteady s h in
    let (c, d) = IsSteady-raise_all rest hs in ((a, c), omega (arith, b, d))

grown_above : (a : ℤ) (n b : ℕ) → neg_part a ≤ b → neg_part (a +ℤ pos n) ≤ b
unfolding ◌+ℤ◌
grown_above a n b h = ground arith

IsAbove-raise_all : (b : ℕ) (l : List Server) → All (IsAbove b) l → All (IsAbove b) (raise_all l)
unfolding raise_all raise
IsAbove-raise_all b [] h = tt
IsAbove-raise_all b (s ∷ rest) (h, hs) =
    (grown_above s.current_weight s.effect_weight b h, IsAbove-raise_all b rest hs)

up-reduce :
    (t k : ℕ) (l : List Server) (s : Server)
    → get_elem? l k ≡ some s
    → up (reduce t k l) + down l + t ≡ down (reduce t k l) + up l
unfolding reduce
up-reduce t k [] s e = cc
up-reduce t zero (s' ∷ rest) s e = omega (arith, -ℤ_parts s'.current_weight (pos t))
up-reduce t (suc k) (s' ∷ rest) s e = omega (arith, up-reduce t k rest s e)

IsSteady-reduce :
    (t k : ℕ) (l : List Server)
    → All IsSteady l
    → All IsSteady (reduce t k l) × (total (reduce t k l) ≡ total l)
unfolding reduce total
IsSteady-reduce t k [] h = (tt, refl)
IsSteady-reduce t zero (s ∷ rest) (h, hs) = ((h, hs), refl)
IsSteady-reduce t (suc k) (s ∷ rest) (h, hs) =
    let (c, d) = IsSteady-reduce t k rest hs in ((h, c), ap (λ n. s.effect_weight + n) d)

reduced_above : (a : ℤ) (t b : ℕ) → 0 < pos_part a → t ≤ b → neg_part (a -ℤ pos t) ≤ b
unfolding ◌-ℤ◌
reduced_above a t b h k = ground arith

IsAbove-reduce :
    (t b k : ℕ) (l : List Server) (s : Server)
    → get_elem? l k ≡ some s
    → 0 < pos_part s.current_weight
    → t ≤ b
    → All (IsAbove b) l
    → All (IsAbove b) (reduce t k l)
unfolding reduce
IsAbove-reduce t b k [] s e p q h = tt
IsAbove-reduce t b zero (s' ∷ rest) s e p q (h, hs) =
    (reduced_above s'.current_weight t b (ground arith) q, hs)
IsAbove-reduce t b (suc k) (s' ∷ rest) s e p q (h, hs) = (h, IsAbove-reduce t b k rest s e p q hs)

-- Raising the weights and reducing a greatest of them keeps the balance.
pub reduce-IsBalanced :
    (l : List Server) (k : ℕ) (t : Server)
    → IsBalanced l
    → get_elem? (raise_all l) k ≡ some t
    → 0 < pos_part t.current_weight
    → IsBalanced (reduce (total l) k (raise_all l))
reduce-IsBalanced l k t h e p =
    let (steady, same) = IsSteady-raise_all l h.steady in
    let (steady', same') = IsSteady-reduce (total l) k (raise_all l) steady in
    record {
      steady = steady';
      even = omega (arith, h.even, up-raise_all l, up-reduce (total l) k (raise_all l) t e);
      above =
          rw (same', same)
            (IsAbove-reduce (total l) (total l) k (raise_all l) t e p (omega arith)
              (IsAbove-raise_all (total l) l h.above));
    }

pub total_positive : (l : List Server) → All IsSteady l → 0 < length l → 0 < total l
unfolding total
total_positive [] h n = absurd (omega arith)
total_positive (s ∷ rest) ((e, p), hs) n = omega arith
