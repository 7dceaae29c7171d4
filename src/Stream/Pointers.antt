-- ===== src/Stream/Pointers.antt =====
-- stream/server.go: lemmas on the table of streams, and on writes through the pointers to them.
use trpc_go.Common.{
  ℕ, zero, suc, ◌≡◌, ◌≢◌, refl, ap, ◌∙◌, List, [], ◌∷◌, ◌++◌, Option, none, some, length,
  if◌then◌else◌, get_elem?, arith, Option-cases, inl, inr, str_eq_iff,
}
use trpc_go.Common.Dict.{Key, Dict, lookup}
use trpc_go.Common.Table.{find_in, store_in, delete_in, same_keys, find-delete_in}
use trpc_go.Stream.Dispatcher.{
  ServerStream, loaded, store_server_stream, delete_server_stream, load_server_stream, change, fail,
  fail_all,
}

pub store_server_stream-eq :
    (a : Key) (id h : ℕ) (t : Dict (Dict ℕ))
    → store_server_stream a id h t ≡ store_in a (id ∷ []) h t
unfolding store_server_stream store_in
store_server_stream-eq a id h t = refl

pub find-delete_server_stream :
    (a : Key) (id : ℕ) (t : Dict (Dict ℕ)) (a' k' : Key)
    → find_in a' k' (delete_server_stream a id t)
      ≡ (if same_keys a (id ∷ []) a' k' then none else find_in a' k' t)
unfolding find_in delete_server_stream delete_in
find-delete_server_stream a id t a' k' = elim (Option-cases (lookup a t)) [
  | inl e ↦ rw (delete_server_stream, e) (ground (arith, str_eq_iff a a', e))
  | inr (inner, e) ↦
      (let same : delete_server_stream a id t ≡ delete_in a (id ∷ []) t =
          rw (delete_server_stream, delete_in, e) refl in
        rw same (find-delete_in a (id ∷ []) t a' k'))
]

pub change-other :
    (f : ServerStream → ServerStream) (n : ℕ) (ss : List ServerStream) (m : ℕ)
    → n ≢ m
    → get_elem? (change f n ss) m ≡ get_elem? ss m
unfolding change
change-other f n [] m h = refl
change-other f zero (s ∷ ss) zero h = absurd (h refl)
change-other f zero (s ∷ ss) (suc m) h = refl
change-other f (suc n) (s ∷ ss) zero h = refl
change-other f (suc n) (s ∷ ss) (suc m) h = change-other f n ss m (λ e. h (ap suc e))

pub change-same :
    (f : ServerStream → ServerStream) (n : ℕ) (ss : List ServerStream) (s : ServerStream)
    → get_elem? ss n ≡ some s
    → get_elem? (change f n ss) n ≡ some (f s)
unfolding change
change-same f n [] s h = absurd (ground arith)
change-same f zero (s' ∷ ss) s h = cc
change-same f (suc n) (s' ∷ ss) s h = change-same f n ss s h

pub snoc-last :
    (ss : List ServerStream) (x : ServerStream) → get_elem? (ss ++ (x ∷ [])) (length ss) ≡ some x
snoc-last [] x = refl
snoc-last (s ∷ ss) x = snoc-last ss x

pub snoc-other :
    (ss : List ServerStream) (x s : ServerStream) (n : ℕ)
    → get_elem? ss n ≡ some s
    → get_elem? (ss ++ (x ∷ [])) n ≡ some s
snoc-other [] x s n h = absurd (ground arith)
snoc-other (s' ∷ ss) x s zero h = h
snoc-other (s' ∷ ss) x s (suc n) h = snoc-other ss x s n h

pub loaded-found :
    (a : Key) (id h : ℕ) (t : Dict (Dict ℕ))
    → load_server_stream a id t ≡ loaded h
    → find_in a (id ∷ []) t ≡ some h
unfolding load_server_stream find_in
loaded-found a id h t e = elim (Option-cases (lookup a t)) [
  | inl n ↦ absurd (ground arith)
  | inr (inner, n) ↦ elim (Option-cases (lookup (id ∷ []) inner)) [
    | inl n' ↦ absurd (ground arith)
    | inr (h', n') ↦ ground arith
  ]
]

-- The loop of handleError changes no stream but those of the map.
pub fail_all-other :
    (e : Option ℕ) (inner todo : Dict ℕ) (ss : List ServerStream) (h' : ℕ)
    → ((k : Key) (h : ℕ) → lookup k inner ≡ some h → h ≢ h')
    → get_elem? (fail_all e inner todo ss) h' ≡ get_elem? ss h'
unfolding fail_all
fail_all-other e inner [] ss h' n = refl
fail_all-other e inner ((k, v) ∷ todo) ss h' n = elim (Option-cases (lookup k inner)) [
  | inl none_there ↦ rw (fail_all, none_there) (fail_all-other e inner todo ss h' n)
  | inr (h, there) ↦
      rw (fail_all, there)
        (fail_all-other e inner todo (change (fail e) h ss) h' n
          ∙ change-other (fail e) h ss h' (n k h there))
]
