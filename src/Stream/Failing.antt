-- ===== src/Stream/Failing.antt =====
-- stream/server.go: a connection that fails ends its streams, and no other.
use trpc_go.Common.{
  sym, if◌then◌else◌, ℕ, ◌≡◌, refl, ap, ◌∙◌, true, List, [], ◌∷◌, Option, none, some, ◌==◌,
  get_elem?, arith, Bool-cases, Option-cases, inl, inr, ◌⊎◌, str_eq, str_eq_iff, str_eq_refl,
}
use trpc_go.Common.Dict.{Key, Dict, lookup, delete, lookup-delete}
use trpc_go.Common.Table.{find_in}
use trpc_go.Codec.Stream.{StreamProtocol}
use trpc_go.Stream.Dispatcher.{
  ServerStream, Dispatcher, no_such_addr, no_response, missing, loaded, load_server_stream, change,
  fail, fail_all, handle_error, Service, Serves,
}
use trpc_go.Stream.Pointers.{change-other, change-same, fail_all-other, loaded-found}
use trpc_go.Stream.Live.{IsLive}
use trpc_go.Stream.Served.{Serves-IsLive}

-- The stream with this number has failed with this error.
abbrev HasFailed : Option ℕ → List ServerStream → ℕ → Type 0
HasFailed e ss h =
    (s : ServerStream) × (get_elem? ss h ≡ some s) × (s.done ≡ true) × (s.failure ≡ e)

change-HasFailed :
    (e : Option ℕ) (n h : ℕ) (ss : List ServerStream)
    → HasFailed e ss h
    → HasFailed e (change (fail e) n ss) h
change-HasFailed e n h ss (s, at, d, f) = elim (Bool-cases (n == h)) [
  | inl same ↦
      (let eq : n ≡ h = ground arith in
        (fail e s, rw eq (change-same (fail e) h ss s at), refl, refl))
  | inr other ↦ (s, change-other (fail e) n ss h (ground arith) ∙ at, d, f)
]

fail_all-HasFailed :
    (e : Option ℕ) (inner todo : Dict ℕ) (ss : List ServerStream) (h : ℕ)
    → HasFailed e ss h
    → HasFailed e (fail_all e inner todo ss) h
unfolding fail_all
fail_all-HasFailed e inner [] ss h f = f
fail_all-HasFailed e inner ((k, _) ∷ todo) ss h f = elim (Option-cases (lookup k inner)) [
  | inl n ↦ rw (fail_all, n) (fail_all-HasFailed e inner todo ss h f)
  | inr (m, n) ↦
      rw (fail_all, n)
        (fail_all-HasFailed e inner todo (change (fail e) m ss) h (change-HasFailed e m h ss f))
]

-- A write keeps the streams that are there.
change-there :
    (e : Option ℕ) (n h : ℕ) (ss : List ServerStream) (s : ServerStream)
    → get_elem? ss h ≡ some s
    → (s' : ServerStream) × (get_elem? (change (fail e) n ss) h ≡ some s')
change-there e n h ss s at = elim (Bool-cases (n == h)) [
  | inl same ↦ (let eq : n ≡ h = ground arith in (fail e s, rw eq (change-same (fail e) h ss s at)))
  | inr other ↦ (s, change-other (fail e) n ss h (ground arith) ∙ at)
]

fail_all-entry :
    (e : Option ℕ) (inner todo : Dict ℕ) (ss : List ServerStream) (k : Key) (v h : ℕ)
    (s : ServerStream)
    → lookup k todo ≡ some v
    → lookup k inner ≡ some h
    → get_elem? ss h ≡ some s
    → HasFailed e (fail_all e inner todo ss) h
unfolding fail_all lookup
fail_all-entry e inner [] ss k v h s i n at = absurd (ground arith)
fail_all-entry e inner ((j, _) ∷ todo) ss k v h s i n at = elim (Bool-cases (str_eq j k)) [
  | inl same ↦
      (let eq : j ≡ k = ground (arith, same, str_eq_iff j k) in
        let there : lookup j inner ≡ some h = ap (λ x. lookup x inner) eq ∙ n in
        rw (fail_all, there)
          (fail_all-HasFailed e inner todo (change (fail e) h ss) h
            (fail e s, change-same (fail e) h ss s at, refl, refl)))
  | inr apart ↦ elim (Option-cases (lookup j inner)) [
    | inl m ↦ rw (fail_all, m) (fail_all-entry e inner todo ss k v h s (ground arith) n at)
    | inr (g, m) ↦
        (let (s', at') = change-there e g h ss s at in
          rw (fail_all, m)
            (fail_all-entry e inner todo (change (fail e) g ss) k v h s' (ground arith) n at'))
  ]
]

-- What handleError leaves if the address is known.
handle_error-known :
    (addr : Key) (e : Option ℕ) (d : Dispatcher) (inner : Dict ℕ)
    → lookup addr d.table ≡ some inner
    → ((handle_error addr e d).0
        ≡ record { table = delete addr d.table; streams = fail_all e inner inner d.streams })
      × ((handle_error addr e d).1 ≡ no_response)
unfolding handle_error
handle_error-known addr e d inner n = rw (handle_error, n) (refl, refl)

load-no_addr :
    (addr : Key) (id : ℕ) (t : Dict (Dict ℕ))
    → load_server_stream addr id (delete addr t) ≡ missing no_such_addr
unfolding load_server_stream
load-no_addr addr id t =
    let gone : lookup addr (delete addr t) ≡ none =
      ground (arith, lookup-delete addr addr t, str_eq_refl addr) in
    rw (load_server_stream, gone) refl

load-delete :
    (addr a : Key) (id : ℕ) (t : Dict (Dict ℕ))
    → load_server_stream a id (delete addr t)
      ≡ (if str_eq addr a then missing no_such_addr else load_server_stream a id t)
unfolding load_server_stream
load-delete addr a id t = elim (Bool-cases (str_eq addr a)) [
  | inl same ↦
      (let eq : addr ≡ a = ground (arith, same, str_eq_iff addr a) in
        let gone : lookup a (delete addr t) ≡ none = ground (arith, lookup-delete addr a t, same) in
        rw (same, load_server_stream, gone) refl)
  | inr n ↦
      (let kept : lookup a (delete addr t) ≡ lookup a t =
          ground (arith, lookup-delete addr a t, n) in
        rw (n, load_server_stream, kept) refl)
]

loaded-entry :
    (addr : Key) (id h : ℕ) (t : Dict (Dict ℕ))
    → load_server_stream addr id t ≡ loaded h
    → (inner : Dict ℕ) × (lookup addr t ≡ some inner) × (lookup (id ∷ []) inner ≡ some h)
unfolding find_in
loaded-entry addr id h t e =
    let found = loaded-found addr id h t e in
    elim (Option-cases (lookup addr t)) [
      | inl n ↦ absurd (ground (arith, found))
      | inr (inner, n) ↦ (inner, n, ground (arith, found))
    ]

-- The loop of handleError writes to streams of the address only.
fail_all-addr :
    (d : Dispatcher) (addr : Key) (e : Option ℕ) (inner : Dict ℕ) (n : ℕ)
    → lookup addr d.table ≡ some inner
    → IsLive d
    → (get_elem? (fail_all e inner inner d.streams) n ≡ get_elem? d.streams n)
      ⊎ ((x : ServerStream) × (get_elem? d.streams n ≡ some x) × (x.addr ≡ addr))
unfolding find_in
fail_all-addr d addr e inner n known live = elim (Option-cases (get_elem? d.streams n)) [
  | inl absent ↦ inl (
      fail_all-other e inner inner d.streams n (λ k m there eq.
        (let (s, at, _, _, _) = live addr k m (ground (arith, known, there)) in
          ground (arith, at, absent, eq))))
  | inr (x, at) ↦ elim (Bool-cases (str_eq x.addr addr)) [
    | inl same ↦ inr (x, at, ground (arith, same, str_eq_iff x.addr addr))
    | inr apart ↦ inl (
        fail_all-other e inner inner d.streams n (λ k m there eq.
          (let (s, at', ma, _, _) = live addr k m (ground (arith, known, there)) in
            let same : s ≡ x = cc in
            let ga : x.addr ≡ addr = ap (λ (y : ServerStream). y.addr) (sym same) ∙ ma in
            ground (arith, ga, apart, str_eq_iff x.addr addr))))
  ]
]

-- When a connection fails, the dispatcher ends the streams of its address and no other, in every
-- state that it comes to: a stream that it knew there is done and holds the error; nothing is found
-- for that address any more, and for every other one what was found before; and each of the streams
-- that were made is as it was or is one of that address.
pub connection_fails :
    (pb : StreamProtocol) (sv : Service) (d : Dispatcher) (e : ℕ) (addr : Key) (id h : ℕ)
    (any_addr : Key) (any_id any : ℕ)
    → Serves pb sv d
    → load_server_stream addr id d.table ≡ loaded h
    → ((handle_error addr (some e) d).1 ≡ no_response)
      × ((s : ServerStream) × (get_elem? ((handle_error addr (some e) d).0.streams) h ≡ some s)
          × (s.done ≡ true)
          × (s.failure ≡ some e))
      × (load_server_stream any_addr any_id ((handle_error addr (some e) d).0.table) ≡ (
          if str_eq addr any_addr
          then missing no_such_addr
          else load_server_stream any_addr any_id d.table))
      × ((get_elem? ((handle_error addr (some e) d).0.streams) any ≡ get_elem? d.streams any)
          ⊎ ((x : ServerStream) × (get_elem? d.streams any ≡ some x) × (x.addr ≡ addr)))
connection_fails pb sv d e addr id h any_addr any_id any r l =
    let (inner, n, entry) = loaded-entry addr id h d.table l in
    let (after, reply) = handle_error-known addr (some e) d inner n in
    let live = Serves-IsLive pb sv d r in
    let (s, at, _, _, _) = live addr (id ∷ []) h (loaded-found addr id h d.table l) in
    rw after (
      reply,
      fail_all-entry (some e) inner inner d.streams (id ∷ []) h h s entry entry at,
      load-delete addr any_addr any_id d.table,
      fail_all-addr d addr (some e) inner any n live,
    )
