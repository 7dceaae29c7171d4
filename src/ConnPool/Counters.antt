-- ===== src/ConnPool/Counters.antt =====
-- pool/connpool/connection_pool.go: the tokens and the counter of used connections.
pub mod Token
pub mod Used
use trpc_go.Common.{
  ℕ, zero, suc, ◌+◌, ◌-◌, ◌≤◌, ◌<◌, ◌≡◌, ◌⊎◌, inl, inr, refl, sym, ◌∙◌, ap, Bool, true, false, List,
  [], ◌∷◌, ◌++◌, Option, none, some, length, ◌==◌, ltb, if◌then◌else◌, arith, Bool-cases,
  Option-cases, not, ◌||◌,
}
use trpc_go.Common.Int.{pos, ◌-ℤ◌, is_positive}
use trpc_go.ConnPool.{
  Config, Pool, new_pool, pop_head, pop_tail, push, get_token, free_token, take_idle, close_conn,
  get_fails, dial, put_locked, release, close_locked, keep_min_idles, add_locked, put_back,
}
use trpc_go.ConnPool.Tasks.{
  Task, asking, counting, searching, starting, dialling, leaving, asleep, awake, deciding, expiring,
  keeping, first_keeping, adding, add_dialling, checking, in_use, added, returning, releasing,
  closing, inspecting, next_check, copies, Local, takes_token, refused, counts, finds, finds_none,
  accepts, rejects, may_dial, is_closed, dials, dial_fails, gives_back, breaks, puts, releases,
  leaves, closes_all, stops, wakes, begins, is_healthy, is_ill, expires, closes_expired, goes_on,
  keeps, first_keeps, add_refused, may_add, add_dials, add_dial_fails, adds, Reachable, first,
  steps, gets, closes, weight, weight-append, weight-copies, weight-step,
}

-- The goroutines that hold a token.
abbrev pub token_of : Task → ℕ
token_of counting = 1
token_of searching = 1
token_of (checking pc) = 1
token_of starting = 1
token_of dialling = 1
token_of (in_use pc) = 1
token_of (returning pc force_close) = 1
token_of (releasing o) = 1
token_of _ = 0

-- The goroutines that stand in the counter of used connections.
abbrev pub use_of : Task → ℕ
use_of leaving = 1
use_of counting = 0
use_of t = token_of t

-- The counters of one pool are those of another.
abbrev pub SameCounters : Pool → Pool → Type 0
SameCounters p q = (p.token ≡ q.token) × (p.used ≡ q.used) × (p.failed ≡ q.failed)

pub SameCounters-take_idle :
    (pc : ℕ) (p p' : Pool) → take_idle p ≡ some (pc, p') → SameCounters p' p
unfolding take_idle pop_head
SameCounters-take_idle pc p p' e = elim (Option-cases (pop_head p.idle)) [
  | inl n ↦ absurd (ground arith)
  | inr ((x, rest), q) ↦ ground arith
]

pub SameCounters-next_check : (rounds : ℕ) (p : Pool) → SameCounters (next_check rounds p).0 p
unfolding next_check
SameCounters-next_check zero p = (refl, refl, refl)
SameCounters-next_check (suc rounds) p = elim (Option-cases (take_idle p)) [
  | inl n ↦ rw (next_check, n) (refl, refl, refl)
  | inr ((pc, p'), q) ↦ rw (next_check, q) (SameCounters-take_idle pc p p' q)
]

pub quiet-next_check :
    (rounds : ℕ) (p : Pool)
    → (token_of (next_check rounds p).1 ≡ 0) × (use_of (next_check rounds p).1 ≡ 0)
unfolding next_check
quiet-next_check zero p = (refl, refl)
quiet-next_check (suc rounds) p = elim (Option-cases (take_idle p)) [
  | inl n ↦ rw (next_check, n) (refl, refl)
  | inr ((pc, p'), q) ↦ rw (next_check, q) (refl, refl)
]

pub SameCounters-put_locked :
    (c : Config) (force : Bool) (pc : ℕ) (p : Pool) → SameCounters (put_locked c force pc p).0 p
unfolding put_locked
SameCounters-put_locked c force pc p = elim (Bool-cases (p.closed || force)) [
  | inl n ↦ rw (put_locked, n) (refl, refl, refl)
  | inr n ↦ elim (Bool-cases (is_positive (pos c.max_idle -ℤ p.idle_size))) [
    | inl m ↦ rw (put_locked, n, m) (refl, refl, refl)
    | inr m ↦ elim (Option-cases (pop_tail (push c pc p.idle))) [
      | inl k ↦ rw (put_locked, n, m, k) (refl, refl, refl)
      | inr ((x, rest), q) ↦ rw (put_locked, n, m, q) (refl, refl, refl)
    ]
  ]
]

pub SameCounters-close_locked : (p : Pool) → SameCounters (close_locked p).0 p
unfolding close_locked
SameCounters-close_locked p = elim (Bool-cases p.closed) [
  | inl n ↦ rw (close_locked, n) (refl, refl, refl)
  | inr n ↦ rw (close_locked, n) (refl, refl, refl)
]

pub SameCounters-add_locked : (c : Config) (pc : ℕ) (p : Pool) → SameCounters (add_locked c pc p) p
unfolding add_locked close_conn
SameCounters-add_locked c pc p = elim (Bool-cases p.closed) [
  | inl n ↦ rw (add_locked, n) (refl, refl, refl)
  | inr n ↦ rw (add_locked, n) (refl, refl, refl)
]

pub free_token_lem :
    (c : Config) (p : Pool)
    → ((free_token c p).used ≡ p.used)
      × ((free_token c p).failed ≡ p.failed)
      × (0 < c.max_active → (free_token c p).token ≡ p.token - 1)
unfolding free_token
free_token_lem c p = elim (Bool-cases (c.max_active == 0)) [
  | inl n ↦ rw (free_token, n) (refl, refl, λ h. absurd (ground arith))
  | inr n ↦ rw (free_token, n) (refl, refl, λ h. refl)
]

pub get_token_lem :
    (c : Config) (p p' : Pool)
    → get_token c p ≡ some p'
    → (p'.used ≡ p.used)
      × (p'.failed ≡ p.failed)
      × (0 < c.max_active → (p'.token ≡ suc p.token) × (p.token < c.max_active))
unfolding get_token
get_token_lem c p p' e = elim (Bool-cases (c.max_active == 0)) [
  | inl n ↦
      let q : p ≡ p' = ground arith in
      (
        ap (λ (p : Pool). p.used) (sym q),
        ap (λ (p : Pool). p.failed) (sym q),
        λ h. absurd (ground arith),
      )
  | inr n ↦ (ground arith, ground arith, λ h. ground arith)
]

-- The sums over the goroutines split at the one that takes the step.
pub rest_of :
    (f : Task → ℕ) (before : List Task) (t : Task) (behind : List Task)
    → weight f (before ++ (t ∷ behind)) ≡ f t + (weight f before + weight f behind)
rest_of f before t behind = omega (arith, weight-append f before (t ∷ behind))

pub joined_of :
    (f : Task → ℕ) (before ts behind : List Task)
    → weight f (before ++ (ts ++ behind)) ≡ weight f ts + (weight f before + weight f behind)
joined_of f before ts behind =
    omega (arith, weight-append f before (ts ++ behind), weight-append f ts behind)
