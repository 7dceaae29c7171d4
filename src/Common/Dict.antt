-- ===== src/Common/Dict.antt =====
-- A Go map with string keys as an association list. The order of the entries is no part of a map;
-- the code never depends on the order in which it ranges over one.
use trpc_go.Common.{
  ℕ, ◌≡◌, refl, ◌∙◌, List, [], ◌∷◌, Option, none, some, arith, if◌then◌else◌, str_eq, str_eq_iff,
}

abbrev pub Key : Type 0
Key = List ℕ

abbrev pub Dict {ℓ} : Type ℓ → Type ℓ
Dict V = List (Key × V)

module _ {ℓ} {V : Type ℓ} where
  -- m[k]
  unfoldable pub lookup : Key → Dict V → Option V
  lookup k [] = none
  lookup k ((j, v) ∷ m) = if str_eq j k then some v else lookup k m

  -- m[k] = v
  unfoldable pub insert : Key → V → Dict V → Dict V
  insert k v [] = (k, v) ∷ []
  insert k v ((j, w) ∷ m) = if str_eq j k then (k, v) ∷ m else (j, w) ∷ insert k v m

  -- for k, v := range src { dst[k] = v }
  unfoldable pub merge : Dict V → Dict V → Dict V
  merge dst [] = dst
  merge dst ((k, v) ∷ src) = merge (insert k v dst) src

  pub lookup-insert :
      (k j : Key) (v : V) (m : Dict V)
      → lookup j (insert k v m) ≡ (if str_eq k j then some v else lookup j m)
  unfolding lookup insert
  lookup-insert k j v [] = refl
  lookup-insert k j v ((i, w) ∷ m) =
      ground (arith, str_eq_iff k j, str_eq_iff i k, str_eq_iff i j, lookup-insert k j v m)

  -- delete(m, k)
  unfoldable pub delete : Key → Dict V → Dict V
  delete k [] = []
  delete k ((j, v) ∷ m) = let rest = delete k m in if str_eq j k then rest else (j, v) ∷ rest

  pub lookup-delete :
      (k j : Key) (m : Dict V) → lookup j (delete k m) ≡ (if str_eq k j then none else lookup j m)
  unfolding lookup delete
  lookup-delete k j [] = ground arith
  lookup-delete k j ((i, w) ∷ m) =
      ground (arith, str_eq_iff k j, str_eq_iff i k, str_eq_iff i j, lookup-delete k j m)

  -- What a list of entries gives a key when they are written to a map one after the other.
  abbrev pub last_value : Key → Dict V → Option V
  last_value k [] = none
  last_value k ((j, v) ∷ m) = elim (last_value k m) [
    | some w ↦ some w
    | none ↦ if str_eq j k then some v else none
  ]

  abbrev pub or_else : Option V → Option V → Option V
  or_else none o = o
  or_else (some v) o = some v

  pub lookup-merge :
      (k : Key) (dst src : Dict V)
      → lookup k (merge dst src) ≡ or_else (last_value k src) (lookup k dst)
  unfolding merge
  lookup-merge k dst [] = refl
  lookup-merge k dst ((j, v) ∷ src) =
      ground (arith, lookup-merge k (insert j v dst) src, lookup-insert j k v dst)

  or_else-none : (o : Option V) → or_else o none ≡ o
  or_else-none none = refl
  or_else-none (some v) = refl

  pub lookup-merge_empty : (k : Key) (src : Dict V) → lookup k (merge [] src) ≡ last_value k src
  unfolding lookup
  lookup-merge_empty k src = lookup-merge k [] src ∙ or_else-none (last_value k src)
