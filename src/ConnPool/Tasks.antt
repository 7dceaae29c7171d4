-- ===== src/ConnPool/Tasks.antt =====
-- pool/connpool/connection_pool.go: the goroutines at a pool. What each of them does between two
-- points where another can run is one step.
use trpc_go.Common.{
  ◌%◌, ◌^◌, ◌-◌, ◌+◌, ℕ, zero, suc, ◌+◌, ◌-◌, ◌≡◌, ◌⊎◌, Bool, true, false, List, [], ◌∷◌, ◌++◌,
  Option, none, some, length,
}
use trpc_go.Common.Int.{pos, ◌-ℤ◌}
use native.Mathlib.Omega.{arith}
use trpc_go.ConnPool.{
  Config, Pool, new_pool, get_token, take_idle, close_conn, get_fails, dial, put_locked, release,
  close_locked, keep_min_idles, add_locked, put_back,
}

-- Where a goroutine is. In Get: before the token, before the counter, before the lock of
-- getIdleConn, in the quick check of a connection, before getNewConn, and in the dial. With a
-- connection in use, in put before its lock, behind it, and before its counter. In Close, with the
-- connections to close. In checkRoutine: asleep, before checkHealthOnce, in the check of a
-- connection with a number of rounds left, before the test of the pool's idle time, before the Close
-- that follows it, before keepMinIdles. In the call of
-- keepMinIdles by pool.Get. In addIdleConn: before the first lock, in the dial, before the second.
pub data Task : Type 0 where
  asking counting searching starting dialling leaving asleep awake deciding expiring keeping
        first_keeping adding add_dialling :
      Task
  checking in_use added : ℕ → Task
  returning : ℕ → Bool → Task
  releasing : Option ℕ → Task
  closing : List ℕ → Task
  inspecting : ℕ → ℕ → Task

-- checkHealthOnce from the loop's test on, with its lock taken.
unfoldable pub next_check : ℕ → Pool → Pool × Task
next_check zero p = (p, deciding)
next_check (suc rounds) p = elim (take_idle p) [
  | none ↦ (p, deciding)
  | some (pc, p') ↦ (p', inspecting pc rounds)
]

abbrev pub copies : ℕ → Task → List Task
copies zero t = []
copies (suc n) t = t ∷ copies n t

-- The steps of one goroutine: the pool, where the goroutine is, and the pool and the goroutine
-- afterwards, with those that it has started. The checks and the dial may end either way. A user
-- gives a connection back once, or a read or write of it fails.
pub data Local (c : Config) : Pool → Task → Pool → List Task → Type 0 where
  takes_token : (p p' : Pool) → get_token c p ≡ some p' → Local c p asking p' (counting ∷ [])
  refused : (p : Pool) → (get_token c p ≡ none) ⊎ (c.wait ≡ true) → Local c p asking p []
  counts :
      (p : Pool) → Local c p counting (record p { used = (p.used + 1) % 2 ^ 32 }) (searching ∷ [])
  finds :
      (p p' : Pool) (pc : ℕ)
      → take_idle p ≡ some (pc, p')
      → Local c p searching p' (checking pc ∷ [])
  finds_none : (p : Pool) → take_idle p ≡ none → Local c p searching p (starting ∷ [])
  accepts : (p : Pool) (pc : ℕ) → Local c p (checking pc) p (in_use pc ∷ [])
  rejects : (p : Pool) (pc : ℕ) → Local c p (checking pc) (close_conn pc p) (searching ∷ [])
  may_dial : (p : Pool) → p.closed ≡ false → Local c p starting p (dialling ∷ [])
  is_closed : (p : Pool) → p.closed ≡ true → Local c p starting (get_fails c p) []
  dials : (p : Pool) → Local c p dialling (dial p) (in_use p.dialled ∷ [])
  dial_fails : (p : Pool) → Local c p dialling (get_fails c p) []
  gives_back : (p : Pool) (pc : ℕ) → Local c p (in_use pc) p (returning pc c.force_closed ∷ [])
  breaks : (p : Pool) (pc : ℕ) → Local c p (in_use pc) p (returning pc true ∷ [])
  puts :
      (p : Pool) (pc : ℕ) (force_close : Bool)
      → Local c p
          (returning pc force_close)
          (put_locked c force_close pc p).0
          (releasing (put_locked c force_close pc p).1 ∷ [])
  releases : (p : Pool) (o : Option ℕ) → Local c p (releasing o) (release c o p) (leaving ∷ [])
  leaves : (p : Pool) → Local c p leaving (record p { used = (p.used + (2 ^ 32 - 1)) % 2 ^ 32 }) []
  closes_all :
      (p : Pool) (pcs : List ℕ) → Local c p (closing pcs) (record p { shut = pcs ++ p.shut }) []
  stops : (p : Pool) → p.closed ≡ true → Local c p asleep p []
  wakes : (p : Pool) → p.closed ≡ false → Local c p asleep p (awake ∷ [])
  begins :
      (p : Pool)
      → Local c p awake (next_check (length p.idle) p).0 ((next_check (length p.idle) p).1 ∷ [])
  is_healthy :
      (p : Pool) (pc rounds : ℕ)
      → Local c p
          (inspecting pc rounds)
          (next_check rounds (put_back pc p)).0
          ((next_check rounds (put_back pc p)).1 ∷ [])
  is_ill :
      (p : Pool) (pc rounds : ℕ)
      → Local c p
          (inspecting pc rounds)
          (next_check rounds (close_conn pc p)).0
          ((next_check rounds (close_conn pc p)).1 ∷ [])
  expires : (p : Pool) → p.used ≡ 0 → Local c p deciding p (expiring ∷ [])
  closes_expired :
      (p : Pool) → Local c p expiring (close_locked p).0 (closing (close_locked p).1 ∷ [])
  goes_on : (p : Pool) → Local c p deciding p (keeping ∷ [])
  keeps :
      (p : Pool)
      → Local c p keeping (keep_min_idles c p).0 (asleep ∷ copies (keep_min_idles c p).1 adding)
  first_keeps :
      (p : Pool)
      → Local c p first_keeping (keep_min_idles c p).0 (copies (keep_min_idles c p).1 adding)
  add_refused :
      (p : Pool)
      → p.closed ≡ true
      → Local c p adding (record p { idle_size = p.idle_size -ℤ pos 1 }) []
  may_add : (p : Pool) → p.closed ≡ false → Local c p adding p (add_dialling ∷ [])
  add_dials : (p : Pool) → Local c p add_dialling (dial p) (added p.dialled ∷ [])
  add_dial_fails :
      (p : Pool) → Local c p add_dialling (record p { idle_size = p.idle_size -ℤ pos 1 }) []
  adds : (p : Pool) (pc : ℕ) → Local c p (added pc) (add_locked c pc p) []

-- The states of a pool with its goroutines: any of them takes a step, Get is called, or Close.
pub data Reachable (c : Config) : Pool → List Task → Type 0 where
  first : Reachable c new_pool (asleep ∷ first_keeping ∷ [])
  steps :
      {p p' : Pool} {t : Task} {ts : List Task} (before behind : List Task)
      → Reachable c p (before ++ (t ∷ behind))
      → Local c p t p' ts
      → Reachable c p' (before ++ (ts ++ behind))
  gets : {p : Pool} {tasks : List Task} → Reachable c p tasks → Reachable c p (asking ∷ tasks)
  closes :
      {p : Pool} {tasks : List Task}
      → Reachable c p tasks
      → Reachable c (close_locked p).0 (closing (close_locked p).1 ∷ tasks)

-- The sum of a weight over the goroutines.
abbrev pub weight : (Task → ℕ) → List Task → ℕ
weight f [] = 0
weight f (t ∷ ts) = f t + weight f ts

pub weight-append :
    (f : Task → ℕ) (ts us : List Task) → weight f (ts ++ us) ≡ weight f ts + weight f us
weight-append f [] us = omega arith
weight-append f (t ∷ ts) us = omega (arith, weight-append f ts us)

pub weight-copies : (f : Task → ℕ) (n : ℕ) (t : Task) → f t ≡ 0 → weight f (copies n t) ≡ 0
weight-copies f zero t h = omega arith
weight-copies f (suc n) t h = omega (arith, weight-copies f n t h)

-- A step changes a sum by what it changes at its own goroutine.
pub weight-step :
    (f : Task → ℕ) (before : List Task) (t : Task) (ts behind : List Task)
    → weight f (before ++ (ts ++ behind)) + f t ≡ weight f (before ++ (t ∷ behind)) + weight f ts
weight-step f before t ts behind = omega (
  arith,
  weight-append f before (ts ++ behind),
  weight-append f ts behind,
  weight-append f before (t ∷ behind),
)
