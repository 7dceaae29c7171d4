-- ===== src/ConnPool/Places.antt =====
-- pool/connpool/connection_pool.go: every connection is in one place.
use trpc_go.Common.{
  ℕ, zero, suc, ◌+◌, ◌≡◌, ◌⊎◌, inl, inr, refl, sym, ap, Bool, List, [], ◌∷◌, ◌++◌, none, some,
  length, ◌==◌, ltb, if◌then◌else◌, arith, Bool-cases, Option-cases, ◌||◌,
}
use trpc_go.Common.Int.{pos, ◌-ℤ◌, is_positive}
use trpc_go.ConnPool.{
  Config, Pool, new_pool, pop_head, pop_tail, push, get_token, free_token, take_idle, close_conn,
  get_fails, dial, put_locked, release, close_locked, keep_min_idles, add_locked, put_back,
}
use trpc_go.ConnPool.Tasks.{
  Task, adding, checking, in_use, added, returning, releasing, closing, inspecting, next_check,
  copies, Local, takes_token, refused, counts, finds, finds_none, accepts, rejects, may_dial,
  is_closed, dials, dial_fails, gives_back, breaks, puts, releases, leaves, closes_all, stops,
  wakes, begins, is_healthy, is_ill, expires, closes_expired, goes_on, keeps, first_keeps,
  add_refused, may_add, add_dials, add_dial_fails, adds, Reachable, first, steps, gets, closes,
  weight, weight-copies, weight-step,
}

-- How often a connection is in a list.
abbrev pub count : ℕ → List ℕ → ℕ
count a [] = 0
count a (b ∷ l) = (if b == a then 1 else 0) + count a l

abbrev pub hit : ℕ → ℕ → ℕ
hit a b = if b == a then 1 else 0

-- How often a goroutine holds a connection.
abbrev pub held : ℕ → Task → ℕ
held a (checking pc) = hit a pc
held a (in_use pc) = hit a pc
held a (added pc) = hit a pc
held a (returning pc force_close) = hit a pc
held a (releasing (some pc)) = hit a pc
held a (closing pcs) = count a pcs
held a (inspecting pc rounds) = hit a pc
held a _ = 0

-- The places of a connection in the pool itself.
abbrev pub kept : ℕ → Pool → ℕ
kept a p = count a p.idle + count a p.shut

-- 1 for a connection that has been dialled.
abbrev pub born : ℕ → ℕ → ℕ
born a n = if ltb a n then 1 else 0

count-append : (a : ℕ) (l k : List ℕ) → count a (l ++ k) ≡ count a l + count a k
count-append a [] k = omega arith
count-append a (b ∷ l) k = omega (arith, count-append a l k)

count-push :
    (c : Config) (a pc : ℕ) (idle : List ℕ) → count a (push c pc idle) ≡ hit a pc + count a idle
unfolding push
count-push c a pc idle = ground (arith, count-append a idle (pc ∷ []))

count-none : (a : ℕ) (l : List ℕ) → pop_tail l ≡ none → count a l ≡ 0
unfolding pop_tail
count-none a [] e = omega arith
count-none a (b ∷ l) e = absurd (ground arith)

count-pop_tail :
    (a last : ℕ) (l rest : List ℕ)
    → pop_tail l ≡ some (last, rest)
    → count a l ≡ hit a last + count a rest
unfolding pop_tail
count-pop_tail a last [] rest e = cc
count-pop_tail a last (b ∷ l) rest e = elim (Option-cases (pop_tail l)) [
  | inl n ↦ ground (arith, count-none a l)
  | inr ((x, k), q) ↦ ground (arith, count-pop_tail a x l k)
]

idle-cases : (l : List ℕ) → (l ≡ []) ⊎ ((x : ℕ) × (rest : List ℕ) × (l ≡ x ∷ rest))
idle-cases [] = inl refl
idle-cases (x ∷ rest) = inr (x, rest, refl)

kept-take_idle :
    (a pc : ℕ) (p p' : Pool)
    → take_idle p ≡ some (pc, p')
    → (kept a p ≡ hit a pc + kept a p') × (p'.dialled ≡ p.dialled)
unfolding take_idle pop_head
kept-take_idle a pc p p' e = elim (idle-cases p.idle) [
  | inl n ↦ absurd (ground arith)
  | inr (x, rest, q) ↦ ground arith
]

held-next_check :
    (a rounds : ℕ) (p : Pool)
    → (kept a (next_check rounds p).0 + held a (next_check rounds p).1 ≡ kept a p)
      × ((next_check rounds p).0.dialled ≡ p.dialled)
unfolding next_check
held-next_check a zero p = (omega arith, refl)
held-next_check a (suc rounds) p = elim (Option-cases (take_idle p)) [
  | inl n ↦ rw (next_check, n) (omega arith, refl)
  | inr ((pc, p'), q) ↦
      let (k, d) = kept-take_idle a pc p p' q in rw (next_check, q) (omega arith, d)
]

kept-free_token :
    (a : ℕ) (c : Config) (p : Pool)
    → (kept a (free_token c p) ≡ kept a p) × ((free_token c p).dialled ≡ p.dialled)
unfolding free_token
kept-free_token a c p = elim (Bool-cases (c.max_active == 0)) [
  | inl n ↦ rw (free_token, n) (refl, refl)
  | inr n ↦ rw (free_token, n) (refl, refl)
]

kept-put_locked :
    (a : ℕ) (c : Config) (force : Bool) (pc : ℕ) (p : Pool)
    → (kept a (put_locked c force pc p).0 + held a (releasing (put_locked c force pc p).1)
        ≡ kept a p + hit a pc)
      × ((put_locked c force pc p).0.dialled ≡ p.dialled)
unfolding put_locked
kept-put_locked a c force pc p = elim (Bool-cases (p.closed || force)) [
  | inl n ↦ rw (put_locked, n) (refl, refl)
  | inr n ↦ elim (Bool-cases (is_positive (pos c.max_idle -ℤ p.idle_size))) [
    | inl m ↦ rw (put_locked, n, m) (omega (arith, count-push c a pc p.idle), refl)
    | inr m ↦ elim (Option-cases (pop_tail (push c pc p.idle))) [
      | inl k ↦ rw (put_locked, n, m, k) (omega (arith, count-push c a pc p.idle), refl)
      | inr ((x, rest), q) ↦
          rw (put_locked, n, m, q)
            (
              omega (arith, count-push c a pc p.idle, count-pop_tail a x (push c pc p.idle) rest q),
              refl,
            )
    ]
  ]
]

kept-get_token :
    (a : ℕ) (c : Config) (p p' : Pool)
    → get_token c p ≡ some p'
    → (kept a p' ≡ kept a p) × (p'.dialled ≡ p.dialled)
unfolding get_token
kept-get_token a c p p' e = elim (Bool-cases (c.max_active == 0)) [
  | inl n ↦
      let q : p ≡ p' = ground arith in (ap (kept a) (sym q), ap (λ (p : Pool). p.dialled) (sym q))
  | inr n ↦ ground arith
]

kept-close_locked :
    (a : ℕ) (p : Pool)
    → (kept a (close_locked p).0 + count a (close_locked p).1 ≡ kept a p)
      × ((close_locked p).0.dialled ≡ p.dialled)
unfolding close_locked
kept-close_locked a p = elim (Bool-cases p.closed) [
  | inl n ↦ rw (close_locked, n) (omega arith, refl)
  | inr n ↦ rw (close_locked, n) (omega arith, refl)
]

kept-add_locked :
    (a : ℕ) (c : Config) (pc : ℕ) (p : Pool)
    → (kept a (add_locked c pc p) ≡ kept a p + hit a pc) × ((add_locked c pc p).dialled ≡ p.dialled)
unfolding add_locked close_conn
kept-add_locked a c pc p = elim (Bool-cases p.closed) [
  | inl n ↦ rw (add_locked, n) (omega arith, refl)
  | inr n ↦ rw (add_locked, n) (omega (arith, count-push c a pc p.idle), refl)
]

held-none : (a n : ℕ) → weight (held a) (copies n adding) ≡ 0
held-none a n = weight-copies (held a) n adding refl

born-suc : (a n : ℕ) → born a (suc n) ≡ born a n + hit a n
born-suc a n = ground arith

-- What a step does to the places of a connection.
Local-Places :
    {c : Config} (a : ℕ) {p p' : Pool} {t : Task} {ts : List Task}
    → Local c p t p' ts
    → kept a p' + weight (held a) ts + born a p.dialled ≡ kept a p + held a t + born a p'.dialled
unfolding get_token take_idle get_fails dial release close_conn close_locked keep_min_idles
    add_locked put_back
Local-Places {c} a (takes_token p p' e) =
    let (k, d) = kept-get_token a c p p' e in omega (arith, ap (born a) d)
Local-Places a (refused p e) = omega arith
Local-Places a (counts p) = omega arith
Local-Places a (finds p p' pc e) =
    let (k, d) = kept-take_idle a pc p p' e in omega (arith, ap (born a) d)
Local-Places a (finds_none p e) = omega arith
Local-Places a (accepts p pc) = omega arith
Local-Places a (rejects p pc) = omega arith
Local-Places a (may_dial p e) = omega arith
Local-Places {c} a (is_closed p e) =
    let (k, d) = kept-free_token a c p in omega (arith, ap (born a) d)
Local-Places a (dials p) = omega (arith, born-suc a p.dialled)
Local-Places {c} a (dial_fails p) =
    let (k, d) = kept-free_token a c p in omega (arith, ap (born a) d)
Local-Places a (gives_back p pc) = omega arith
Local-Places a (breaks p pc) = omega arith
Local-Places {c} a (puts p pc force) =
    let (k, d) = kept-put_locked a c force pc p in omega (arith, ap (born a) d)
Local-Places {c} a (releases p none) =
    let (k, d) = kept-free_token a c p in omega (arith, ap (born a) d)
Local-Places {c} a (releases p (some pc)) =
    let (k, d) = kept-free_token a c (close_conn pc p) in omega (arith, ap (born a) d)
Local-Places a (leaves p) = omega arith
Local-Places a (closes_all p pcs) = omega (arith, count-append a pcs p.shut)
Local-Places a (stops p e) = omega arith
Local-Places a (wakes p e) = omega arith
Local-Places a (begins p) =
    let (k, d) = held-next_check a (length p.idle) p in omega (arith, ap (born a) d)
Local-Places a (is_healthy p pc rounds) =
    let (k, d) = held-next_check a rounds (put_back pc p) in
    omega (arith, ap (born a) d, count-append a p.idle (pc ∷ []))
Local-Places a (is_ill p pc rounds) =
    let (k, d) = held-next_check a rounds (close_conn pc p) in omega (arith, ap (born a) d)
Local-Places a (expires p e) = omega arith
Local-Places a (closes_expired p) =
    let (k, d) = kept-close_locked a p in omega (arith, ap (born a) d)
Local-Places a (goes_on p) = omega arith
Local-Places {c} a (keeps p) = omega (arith, held-none a (keep_min_idles c p).1)
Local-Places {c} a (first_keeps p) = omega (arith, held-none a (keep_min_idles c p).1)
Local-Places a (add_refused p e) = omega arith
Local-Places a (may_add p e) = omega arith
Local-Places a (add_dials p) = omega (arith, born-suc a p.dialled)
Local-Places a (add_dial_fails p) = omega arith
Local-Places {c} a (adds p pc) =
    let (k, d) = kept-add_locked a c pc p in omega (arith, ap (born a) d)

-- In every state that a pool can come to: a connection that has been dialled is in exactly one
-- place, once: in the list of idle connections, with one goroutine (a user, put, a check, or one
-- that adds or closes it), or among the closed ones. So no two users have the same connection, no
-- connection that Get returns has been closed, none is closed twice, and none is lost. Users are
-- taken to give a connection back at most once, as net.Conn asks of Close.
pub one_place :
    {c : Config} (a : ℕ) {p : Pool} {tasks : List Task}
    → Reachable c p tasks
    → count a p.idle + count a p.shut + weight (held a) tasks ≡ (if ltb a p.dialled then 1 else 0)
unfolding new_pool
one_place a first = ground arith
one_place a (steps {p} {p'} {t} {ts} before behind r l) =
    omega (arith, one_place a r, Local-Places a l, weight-step (held a) before t ts behind)
one_place a (gets r) = omega (arith, one_place a r)
one_place a (closes {p} r) =
    let (k, d) = kept-close_locked a p in omega (arith, one_place a r, ap (born a) d)
