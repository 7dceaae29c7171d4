-- ===== src/Common/Table.antt =====
-- Go maps of maps, with two keys, against a flat map: as the code writes them, an inner map is made
-- with its first entry, and goes with its last.
use trpc_go.Common.{
  ◌≡◌, refl, Bool, ◌&&◌, [], ◌∷◌, Option, none, some, length, ◌==◌, if◌then◌else◌, str_eq,
  str_eq_iff, arith, inl, inr, Option-cases,
}
use trpc_go.Common.Dict.{Key, Dict, lookup, insert, delete, lookup-insert, lookup-delete}

-- The same pair of keys.
abbrev pub same_keys : Key → Key → Key → Key → Bool
same_keys a k a' k' = str_eq a a' && str_eq k k'

module _ {ℓ} {V : Type ℓ} where
  unfoldable pub find_in : Key → Key → Dict (Dict V) → Option V
  find_in a k t = elim (lookup a t) [ none ↦ none | some inner ↦ lookup k inner ]

  unfoldable pub store_in : Key → Key → V → Dict (Dict V) → Dict (Dict V)
  store_in a k v t = elim (lookup a t) [
    | some inner ↦ insert a (insert k v inner) t
    | none ↦ insert a (insert k v []) t
  ]

  unfoldable pub delete_in : Key → Key → Dict (Dict V) → Dict (Dict V)
  delete_in a k t = elim (lookup a t) [
    | none ↦ delete a t
    | some inner ↦
        let rest = delete k inner in if length rest == 0 then delete a t else insert a rest t
  ]

  empty-lookup : (k : Key) → lookup {V = V} k [] ≡ none
  unfolding lookup
  empty-lookup k = refl

  lookup-length : (k : Key) (m : Dict V) → length m ≡ 0 → lookup k m ≡ none
  unfolding lookup
  lookup-length k [] h = refl
  lookup-length k (e ∷ m) h = absurd (omega arith)

  pub find-store_in :
      (a k : Key) (v : V) (t : Dict (Dict V)) (a' k' : Key)
      → find_in a' k' (store_in a k v t) ≡ (if same_keys a k a' k' then some v else find_in a' k' t)
  unfolding find_in store_in
  find-store_in a k v t a' k' = elim (Option-cases (lookup a t)) [
    | inl e ↦
        rw (store_in, e)
          (ground (
            arith,
            str_eq_iff a a',
            lookup-insert a a' (insert k v []) t,
            lookup-insert k k' v [],
            empty-lookup k',
          ))
    | inr (inner, e) ↦
        rw (store_in, e)
          (ground (
            arith,
            str_eq_iff a a',
            lookup-insert a a' (insert k v inner) t,
            lookup-insert k k' v inner,
          ))
  ]

  pub find-delete_in :
      (a k : Key) (t : Dict (Dict V)) (a' k' : Key)
      → find_in a' k' (delete_in a k t) ≡ (if same_keys a k a' k' then none else find_in a' k' t)
  unfolding find_in delete_in
  find-delete_in a k t a' k' = elim (Option-cases (lookup a t)) [
    | inl e ↦ rw (delete_in, e) (ground (arith, str_eq_iff a a', lookup-delete a a' t))
    | inr (inner, e) ↦
        rw (delete_in, e)
          (ground (
            arith,
            str_eq_iff a a',
            lookup-delete a a' t,
            lookup-insert a a' (delete k inner) t,
            lookup-delete k k' inner,
            lookup-length k' (delete k inner),
          ))
  ]

  pub find-delete_row :
      (a : Key) (t : Dict (Dict V)) (a' k' : Key)
      → find_in a' k' (delete a t) ≡ (if str_eq a a' then none else find_in a' k' t)
  unfolding find_in
  find-delete_row a t a' k' = ground (arith, lookup-delete a a' t)
