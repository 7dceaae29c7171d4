-- ===== src/ConnPool/Size.antt =====
-- pool/connpool/connection_pool.go: the number of idle connections.
pub mod Steps
pub mod Bounds
use trpc_go.Common.{
  ℕ, zero, suc, ◌+◌, ◌-◌, ◌≤◌, ◌<◌, ◌≡◌, ◌⊎◌, inl, inr, refl, sym, ◌∙◌, ap, Bool, true, false, List,
  [], ◌∷◌, ◌++◌, Option, none, some, length, length-append, ◌==◌, ltb, if◌then◌else◌, arith,
  Bool-cases, Option-cases, not, ◌||◌,
}
use trpc_go.Common.Int.{
  ℤ, pos, negsuc, pos_part, neg_part, ◌+ℤ◌, ◌-ℤ◌, is_positive, +ℤ_parts, -ℤ_parts, eq_of_parts,
}
use trpc_go.ConnPool.{
  Config, Pool, new_pool, pop_head, pop_tail, push, get_token, free_token, take_idle, close_conn,
  get_fails, dial, put_locked, release, close_locked, keep_min_idles, add_locked, put_back,
}
use trpc_go.ConnPool.Counters.{rest_of, joined_of}
use trpc_go.ConnPool.Tasks.{
  Task, asking, counting, searching, starting, dialling, leaving, asleep, awake, deciding, expiring,
  keeping, first_keeping, adding, add_dialling, checking, in_use, added, returning, releasing,
  closing, inspecting, next_check, copies, Local, takes_token, refused, counts, finds, finds_none,
  accepts, rejects, may_dial, is_closed, dials, dial_fails, gives_back, breaks, puts, releases,
  leaves, closes_all, stops, wakes, begins, is_healthy, is_ill, expires, closes_expired, goes_on,
  keeps, first_keeps, add_refused, may_add, add_dials, add_dial_fails, adds, Reachable, first,
  steps, gets, closes, weight, weight-append, weight-copies, weight-step,
}

-- The goroutines that keepMinIdles has counted as idle connections in advance.
abbrev pub pending : Task → ℕ
pending adding = 1
pending add_dialling = 1
pending (added pc) = 1
pending _ = 0

-- The goroutine of checkRoutine, and that with a connection that it checks.
abbrev pub routine : Task → ℕ
routine asleep = 1
routine awake = 1
routine deciding = 1
routine expiring = 1
routine keeping = 1
routine (inspecting pc rounds) = 1
routine _ = 0

abbrev pub inspects : Task → ℕ
inspects (inspecting pc rounds) = 1
inspects _ = 0

-- The size is the number of idle connections with the pending ones, and exceeds `k` by one at
-- most, with the connections that are being checked; there is one goroutine that checks.
abbrev pub IsSized : ℕ → Pool → ℕ → ℕ → ℕ → Type 0
IsSized k p waiting checked routines =
    (neg_part p.idle_size ≡ 0)
    × (pos_part p.idle_size ≡ length p.idle + waiting)
    × (pos_part p.idle_size + checked ≤ k + 1)
    × (routines ≤ 1)

pub one_part : (x : ℤ) → (pos_part x ≡ 0) ⊎ (neg_part x ≡ 0)
one_part (pos n) = inr refl
one_part (negsuc n) = inl refl

pub plus_one :
    (x : ℤ)
    → neg_part x ≡ 0
    → (pos_part (x +ℤ pos 1) ≡ suc (pos_part x)) × (neg_part (x +ℤ pos 1) ≡ 0)
plus_one x h = omega (arith, +ℤ_parts x (pos 1), one_part (x +ℤ pos 1))

pub minus_one :
    (x : ℤ)
    → neg_part x ≡ 0
    → 0 < pos_part x
    → (suc (pos_part (x -ℤ pos 1)) ≡ pos_part x) × (neg_part (x -ℤ pos 1) ≡ 0)
minus_one x h k = omega (arith, -ℤ_parts x (pos 1), one_part (x -ℤ pos 1))

pub smaller : (x : ℤ) (n : ℕ) → neg_part x ≡ 0 → is_positive (pos n -ℤ x) ≡ true → pos_part x < n
unfolding is_positive ◌-ℤ◌
smaller x n h e = ground arith

pub length-push :
    (c : Config) (pc : ℕ) (idle : List ℕ) → length (push c pc idle) ≡ suc (length idle)
unfolding push
length-push c pc idle = ground (arith, length-append idle (pc ∷ []))

pub length-none : (l : List ℕ) → pop_tail l ≡ none → length l ≡ 0
unfolding pop_tail
length-none [] e = refl
length-none (b ∷ l) e = absurd (ground arith)

pub length-pop_tail :
    (last : ℕ) (l rest : List ℕ) → pop_tail l ≡ some (last, rest) → length l ≡ suc (length rest)
unfolding pop_tail
length-pop_tail last [] rest e = cc
length-pop_tail last (b ∷ l) rest e = elim (Option-cases (pop_tail l)) [
  | inl n ↦ ground (arith, length-none l)
  | inr ((x, k), q) ↦ ground (arith, length-pop_tail x l k)
]

pub take_idle_lem :
    (pc : ℕ) (p p' : Pool)
    → take_idle p ≡ some (pc, p')
    → (p'.closed ≡ p.closed)
      × (length p.idle ≡ suc (length p'.idle))
      × (p'.idle_size ≡ p.idle_size -ℤ pos 1)
unfolding take_idle pop_head
take_idle_lem pc p p' e = elim (Option-cases (pop_head p.idle)) [
  | inl n ↦ absurd (ground arith)
  | inr ((x, rest), q) ↦ ground arith
]

pub IsSized-take_idle :
    (k pc : ℕ) (p p' : Pool) (w i r : ℕ)
    → take_idle p ≡ some (pc, p')
    → IsSized k p w i r
    → IsSized k p' w (suc i) r
IsSized-take_idle k pc p p' w i r e (n, s, b, m) =
    let (_, l, z) = take_idle_lem pc p p' e in
    let (a, c) = minus_one p.idle_size n (omega arith) in
    let a' : suc (pos_part p'.idle_size) ≡ pos_part p.idle_size =
      ap (λ x. suc (pos_part x)) z ∙ a in
    (ap neg_part z ∙ c, omega arith, omega arith, m)

pub IsSized-next_check :
    (k rounds : ℕ) (p : Pool) (w i r : ℕ)
    → IsSized k p w i r
    → IsSized k
        (next_check rounds p).0
        (pending (next_check rounds p).1 + w)
        (inspects (next_check rounds p).1 + i)
        r
unfolding next_check
IsSized-next_check k zero p w i r (n, s, b, m) = (n, omega arith, omega arith, m)
IsSized-next_check k (suc rounds) p w i r (n, s, b, m) = elim (Option-cases (take_idle p)) [
  | inl e ↦ rw (next_check, e) (n, omega arith, omega arith, m)
  | inr ((pc, p'), e) ↦
      let (n', s', b', m') = IsSized-take_idle k pc p p' w i r e (n, s, b, m) in
      rw (next_check, e) (n', omega arith, omega arith, m')
]

pub closed-next_check : (rounds : ℕ) (p : Pool) → (next_check rounds p).0.closed ≡ p.closed
unfolding next_check
closed-next_check zero p = refl
closed-next_check (suc rounds) p = elim (Option-cases (take_idle p)) [
  | inl e ↦ rw (next_check, e)
  | inr ((pc, p'), e) ↦ rw (next_check, e) ((take_idle_lem pc p p' e).0)
]

pub routine-next_check : (rounds : ℕ) (p : Pool) → routine (next_check rounds p).1 ≡ 1
unfolding next_check
routine-next_check zero p = refl
routine-next_check (suc rounds) p = elim (Option-cases (take_idle p)) [
  | inl e ↦ rw (next_check, e)
  | inr ((pc, p'), e) ↦ rw (next_check, e)
]

pub closed-put_locked :
    (c : Config) (force : Bool) (pc : ℕ) (p : Pool) → (put_locked c force pc p).0.closed ≡ p.closed
unfolding put_locked
closed-put_locked c force pc p = elim (Bool-cases (p.closed || force)) [
  | inl n ↦ rw (put_locked, n)
  | inr n ↦ elim (Bool-cases (is_positive (pos c.max_idle -ℤ p.idle_size))) [
    | inl m ↦ rw (put_locked, n, m)
    | inr m ↦ elim (Option-cases (pop_tail (push c pc p.idle))) [
      | inl q ↦ rw (put_locked, n, m, q)
      | inr ((x, rest), q) ↦ rw (put_locked, n, m, q)
    ]
  ]
]

pub IsSized-put_locked :
    (k : ℕ) (c : Config) (force : Bool) (pc : ℕ) (p : Pool) (w i r : ℕ)
    → c.max_idle ≤ k
    → i ≤ r
    → IsSized k p w i r
    → IsSized k (put_locked c force pc p).0 w i r
unfolding put_locked
IsSized-put_locked k c force pc p w i r g j (z, s, b, o) = elim (Bool-cases (p.closed || force)) [
  | inl n ↦ rw (put_locked, n) (z, s, b, o)
  | inr n ↦ elim (Bool-cases (is_positive (pos c.max_idle -ℤ p.idle_size))) [
    | inl m ↦
        let (a, a') = plus_one p.idle_size z in
        rw (put_locked, n, m)
          (
            a',
            omega (arith, length-push c pc p.idle),
            omega (arith, smaller p.idle_size c.max_idle z m),
            o,
          )
    | inr m ↦ elim (Option-cases (pop_tail (push c pc p.idle))) [
      | inl q ↦ absurd (omega (arith, length-push c pc p.idle, length-none (push c pc p.idle) q))
      | inr ((x, rest), q) ↦
          rw (put_locked, n, m, q)
            (
              z,
              omega (arith, length-push c pc p.idle, length-pop_tail x (push c pc p.idle) rest q),
              b,
              o,
            )
    ]
  ]
]

pub keep_min_idles_lem :
    (k : ℕ) (c : Config) (p : Pool) (w i r : ℕ)
    → c.min_idle ≤ k
    → i ≤ r
    → IsSized k p w i r
    → IsSized k (keep_min_idles c p).0 ((keep_min_idles c p).1 + w) i r
unfolding keep_min_idles
keep_min_idles_lem k c p w i r g j (z, s, b, o) =
    let missing = pos c.min_idle -ℤ p.idle_size in
    let e = -ℤ_parts (pos c.min_idle) p.idle_size in
    let d = one_part missing in
    let f = +ℤ_parts p.idle_size (pos (pos_part missing)) in
    let x = one_part (p.idle_size +ℤ pos (pos_part missing)) in
    (omega arith, omega arith, omega arith, o)

pub weight-adding : (n : ℕ) → weight pending (copies n adding) ≡ n
weight-adding zero = omega arith
weight-adding (suc n) = omega (arith, weight-adding n)

pub closed-close_locked : (p : Pool) → (close_locked p).0.closed ≡ true
unfolding close_locked
closed-close_locked p = ground arith

pub closed-free_token :
    (c : Config) (p : Pool)
    → ((free_token c p).closed ≡ p.closed)
      × ((free_token c p).idle ≡ p.idle)
      × ((free_token c p).idle_size ≡ p.idle_size)
unfolding free_token
closed-free_token c p = elim (Bool-cases (c.max_active == 0)) [
  | inl n ↦ rw (free_token, n) (refl, refl, refl)
  | inr n ↦ rw (free_token, n) (refl, refl, refl)
]

pub closed-get_token :
    (c : Config) (p p' : Pool)
    → get_token c p ≡ some p'
    → (p'.closed ≡ p.closed) × (p'.idle ≡ p.idle) × (p'.idle_size ≡ p.idle_size)
unfolding get_token
closed-get_token c p p' e = elim (Bool-cases (c.max_active == 0)) [
  | inl n ↦
      let q : p' ≡ p = ground arith in
      (ap (λ (p : Pool). p.closed) q, ap (λ (p : Pool). p.idle) q, ap (λ (p : Pool). p.idle_size) q)
  | inr n ↦ (ground arith, ground arith, ground arith)
]

-- Being open and well sized.
abbrev pub IsOpenSized : ℕ → Pool → ℕ → ℕ → ℕ → Type 0
IsOpenSized k p w i r = p.closed ≡ false → IsSized k p w i r

-- A change of the parts that this does not look at.
pub IsOpenSized-same :
    (k w i r w' i' r' : ℕ) (p q : Pool)
    → q.closed ≡ p.closed
    → q.idle ≡ p.idle
    → q.idle_size ≡ p.idle_size
    → w ≡ w'
    → i' ≤ i
    → r' ≤ r
    → IsOpenSized k p w i r
    → IsOpenSized k q w' i' r'
IsOpenSized-same k w i r w' i' r' p q c l z e f g h = λ o.
    let (n, s, b, m) = h (sym c ∙ o) in
    (
      ap neg_part z ∙ n,
      omega (arith, ap pos_part z, ap length l),
      omega (arith, ap pos_part z),
      omega arith,
    )

pub IsSized-round :
    (k rounds : ℕ) (p : Pool) (w i r : ℕ)
    → IsSized k p w i (suc r)
    → IsSized k
        (next_check rounds p).0
        (pending (next_check rounds p).1 + 0 + w)
        (inspects (next_check rounds p).1 + 0 + i)
        (routine (next_check rounds p).1 + 0 + r)
IsSized-round k rounds p w i r h =
    let (z, s, b, x) = IsSized-next_check k rounds p w i (suc r) h in
    (z, omega arith, omega arith, omega (arith, routine-next_check rounds p))

pub IsSized-put_back :
    (k pc : ℕ) (p : Pool) (w i r : ℕ) → IsSized k p w (suc i) r → IsSized k (put_back pc p) w i r
unfolding put_back
IsSized-put_back k pc p w i r (z, s, b, x) =
    let (a, a') = plus_one p.idle_size z in
    (a', omega (arith, length-append p.idle (pc ∷ [])), omega arith, x)

pub open_before : (c : Config) (p : Pool) → (keep_min_idles c p).0.closed ≡ false → p.closed ≡ false
unfolding keep_min_idles
open_before c p o = o

pub closed-add_locked :
    (c : Config) (pc : ℕ) (p : Pool)
    → (add_locked c pc p).closed ≡ false
    → (p.closed ≡ false)
      × (length (add_locked c pc p).idle ≡ suc (length p.idle))
      × ((add_locked c pc p).idle_size ≡ p.idle_size)
unfolding add_locked close_conn
closed-add_locked c pc p o = elim (Bool-cases p.closed) [
  | inl n ↦ absurd (ground arith)
  | inr n ↦ (n, ground (arith, length-push c pc p.idle), ground arith)
]
