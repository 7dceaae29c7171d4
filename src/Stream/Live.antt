-- ===== src/Stream/Live.antt =====
-- stream/server.go: what is done to the table and its streams keeps those of the table live.
use trpc_go.Common.{
  ℕ, ◌≡◌, ◌≢◌, refl, sym, ap, ◌∙◌, false, List, [], ◌∷◌, ◌++◌, Option, some, length, ◌==◌,
  get_elem?, arith, Bool-cases, Option-cases, inl, inr, str_eq, str_eq_iff,
}
use trpc_go.Common.Dict.{Key, Dict, lookup}
use trpc_go.Common.Table.{find_in, same_keys, find-store_in, find-delete_row}
use trpc_go.Stream.Client.{Response}
use trpc_go.Stream.Handshake.{Controls}
use trpc_go.Stream.Dispatcher.{
  ServerStream, Dispatcher, change, receive, with_streams, with_increment, close_stream,
  handle_error, stored, end_handler, new_server_stream,
}
use trpc_go.Stream.Pointers.{
  store_server_stream-eq, find-delete_server_stream, change-other, change-same, snoc-last,
  snoc-other, fail_all-other,
}

-- The stream with this number is stored under these keys and not over.
abbrev pub IsOpen : List ServerStream → Key → Key → ℕ → Type 0
IsOpen ss a k h =
    (s : ServerStream) × (get_elem? ss h ≡ some s)
    × (s.addr ≡ a)
    × (s.stream_id ∷ [] ≡ k)
    × (s.done ≡ false)

abbrev pub IsLive : Dispatcher → Type 0
IsLive d = (a k : Key) (h : ℕ) → find_in a k d.table ≡ some h → IsOpen d.streams a k h

-- A write that leaves the keys of a stream and its done alone.
abbrev pub IsHarmless : (ServerStream → ServerStream) → Type 0
IsHarmless f =
    (s : ServerStream)
    → ((f s).addr ≡ s.addr) × ((f s).stream_id ≡ s.stream_id) × ((f s).done ≡ s.done)

pub with_increment-IsHarmless : (n : ℕ) → IsHarmless (with_increment n)
with_increment-IsHarmless n s = elim (Option-cases (s.controls.s_control)) [
  | inl e ↦ ground arith
  | inr (c, e) ↦ ground arith
]

pub change-IsLive :
    (f : ServerStream → ServerStream) (n : ℕ) (d : Dispatcher)
    → IsHarmless f
    → IsLive d
    → IsLive (with_streams d (change f n d.streams))
change-IsLive f n d p live a k h e =
    let (s, at, sa, sk, sd) = live a k h e in
    elim (Bool-cases (n == h)) [
      | inl same ↦
          (let eq : n ≡ h = ground arith in
            let (pa, pk, pd) = p s in
            (
              f s,
              rw eq (change-same f h d.streams s at),
              pa ∙ sa,
              ap (λ i. i ∷ []) pk ∙ sk,
              pd ∙ sd,
            ))
      | inr other ↦ (s, change-other f n d.streams h (ground arith) ∙ at, sa, sk, sd)
    ]

pub receive-IsHarmless : (r : Response) → IsHarmless (receive r)
receive-IsHarmless r s = (refl, refl, refl)

-- A stream with other keys has another number.
other-number :
    (ss : List ServerStream) (a k : Key) (h h' : ℕ) (s : ServerStream)
    → IsOpen ss a k h'
    → get_elem? ss h ≡ some s
    → same_keys s.addr (s.stream_id ∷ []) a k ≡ false
    → h ≢ h'
other-number ss a k h h' s (s', at', sa, sk, _) at n e =
    let eq : s ≡ s' = cc in
    let ga : s.addr ≡ a = ap (λ x. x.addr) eq ∙ sa in
    let gk : s.stream_id ∷ [] ≡ k = ap (λ x. x.stream_id ∷ []) eq ∙ sk in
    ground (arith, ga, gk, str_eq_iff s.addr a, str_eq_iff (s.stream_id ∷ []) k)

pub end_handler-IsLive :
    (h : ℕ) (s : ServerStream) (e : Option ℕ) (d : Dispatcher)
    → get_elem? d.streams h ≡ some s
    → IsLive d
    → IsLive (end_handler s.addr s.stream_id h e d)
unfolding end_handler
end_handler-IsLive h s e d at live a k h' f =
    let cut = find-delete_server_stream s.addr s.stream_id d.table a k in
    elim (Bool-cases (same_keys s.addr (s.stream_id ∷ []) a k)) [
      | inl same ↦ absurd (ground (arith, cut))
      | inr n ↦
          (let (s', at', sa, sk, sd) = live a k h' (ground (arith, cut)) in
            let n' = other-number d.streams a k h h' s (s', at', sa, sk, sd) at n in
            (s', change-other (close_stream e) h d.streams h' n' ∙ at', sa, sk, sd))
    ]

pub stored-IsLive :
    (addr : Key) (id : ℕ) (c : Controls) (d : Dispatcher) → IsLive d → IsLive (stored addr id c d)
stored-IsLive addr id c d live a k h f =
    let is_in = find-store_in addr (id ∷ []) (length d.streams) d.table a k in
    let table = store_server_stream-eq addr id (length d.streams) d.table in
    elim (Bool-cases (same_keys addr (id ∷ []) a k)) [
      | inl same ↦
          (let ga : addr ≡ a = ground (arith, same, str_eq_iff addr a) in
            let gk : id ∷ [] ≡ k = ground (arith, same, str_eq_iff (id ∷ []) k) in
            let gh : length d.streams ≡ h = ground (arith, same, is_in, table) in
            let x = new_server_stream addr id c in
            (
              x,
              ap (λ n. get_elem? (d.streams ++ (x ∷ [])) n) (sym gh) ∙ snoc-last d.streams x,
              ga,
              gk,
              refl,
            ))
      | inr n ↦
          (let (s', at', sa, sk, sd) = live a k h (ground (arith, is_in, table)) in
            (s', snoc-other d.streams (new_server_stream addr id c) s' h at', sa, sk, sd))
    ]

-- The streams of an address have other numbers than those of another one.
pub others-apart :
    (d : Dispatcher) (addr : Key) (inner : Dict ℕ) (a k : Key) (h' : ℕ)
    → lookup addr d.table ≡ some inner
    → IsLive d
    → IsOpen d.streams a k h'
    → str_eq addr a ≡ false
    → (k' : Key) (m : ℕ) → lookup k' inner ≡ some m
    → m ≢ h'
unfolding find_in
others-apart d addr inner a k h' n live is_open apart k' m there =
    let (s, at, ma, _, _) = live addr k' m (ground (arith, n, there)) in
    other-number d.streams a k m h' s is_open at (ground arith)

pub handle_error-IsLive :
    (addr : Key) (e : Option ℕ) (d : Dispatcher) → IsLive d → IsLive ((handle_error addr e d).0)
unfolding handle_error find_in
handle_error-IsLive addr e d live = elim (Option-cases (lookup addr d.table)) [
  | inl n ↦ rw (handle_error, n) live
  | inr (inner, n) ↦
      rw (handle_error, n)
        (λ a k h' f.
          (let cut = find-delete_row addr d.table a k in
            let apart : str_eq addr a ≡ false = ground (arith, cut) in
            let (s', at', sa, sk, sd) = live a k h' (ground (arith, cut)) in
            let others = others-apart d addr inner a k h' n live (s', at', sa, sk, sd) apart in
            (s', fail_all-other e inner inner d.streams h' others ∙ at', sa, sk, sd)))
]
