-- ===== src/ConnPool/Counters/Used.antt =====
-- pool/connpool/connection_pool.go: the counter of used connections.
use trpc_go.Common.{◌%◌, ◌^◌, ◌+◌, ℕ, ◌+◌, ◌≡◌, refl, List, none, some, length, arith}
use trpc_go.ConnPool.{
  Config, Pool, new_pool, close_conn, get_fails, dial, release, keep_min_idles, put_back,
}
use trpc_go.ConnPool.Tasks.{
  Task, adding, Local, takes_token, refused, counts, finds, finds_none, accepts, rejects, may_dial,
  is_closed, dials, dial_fails, gives_back, breaks, puts, releases, leaves, closes_all, stops,
  wakes, begins, is_healthy, is_ill, expires, closes_expired, goes_on, keeps, first_keeps,
  add_refused, may_add, add_dials, add_dial_fails, adds, Reachable, first, steps, gets, closes,
  weight, weight-copies,
}
use trpc_go.ConnPool.Counters.{
  use_of, SameCounters-take_idle, SameCounters-next_check, quiet-next_check,
  SameCounters-put_locked, SameCounters-close_locked, SameCounters-add_locked, free_token_lem,
  get_token_lem, rest_of, joined_of,
}

-- What a step does to the counter of used connections, beside the other goroutines' part of it.
Local-used :
    {c : Config} {p p' : Pool} {t : Task} {ts : List Task}
    → Local c p t p' ts
    → (r : ℕ) → p.used ≡ (use_of t + r + p.failed) % 2 ^ 32
    → p'.used ≡ (weight use_of ts + r + p'.failed) % 2 ^ 32
unfolding get_fails dial release close_conn keep_min_idles put_back
Local-used {c} (takes_token p p' e) r h = let (u, f, t) = get_token_lem c p p' e in omega arith
Local-used {c} (refused p e) r h = omega arith
Local-used {c} (counts p) r h = omega arith
Local-used {c} (finds p p' pc e) r h =
    let (t, u, f) = SameCounters-take_idle pc p p' e in omega arith
Local-used {c} (finds_none p e) r h = omega arith
Local-used {c} (accepts p pc) r h = omega arith
Local-used {c} (rejects p pc) r h = omega arith
Local-used {c} (may_dial p e) r h = omega arith
Local-used {c} (is_closed p e) r h = let (u, f, t) = free_token_lem c p in omega arith
Local-used {c} (dials p) r h = omega arith
Local-used {c} (dial_fails p) r h = let (u, f, t) = free_token_lem c p in omega arith
Local-used {c} (gives_back p pc) r h = omega arith
Local-used {c} (breaks p pc) r h = omega arith
Local-used {c} (puts p pc force) r h =
    let (t, u, f) = SameCounters-put_locked c force pc p in omega arith
Local-used {c} (releases p none) r h = let (u, f, t) = free_token_lem c p in omega arith
Local-used {c} (releases p (some pc)) r h =
    let (u, f, t) = free_token_lem c (close_conn pc p) in omega arith
Local-used {c} (leaves p) r h = omega arith
Local-used {c} (closes_all p pcs) r h = omega arith
Local-used {c} (stops p e) r h = omega arith
Local-used {c} (wakes p e) r h = omega arith
Local-used {c} (begins p) r h =
    let (t, u, f) = SameCounters-next_check (length p.idle) p in
    let (qt, qu) = quiet-next_check (length p.idle) p in omega arith
Local-used {c} (is_healthy p pc rounds) r h =
    let (t, u, f) = SameCounters-next_check rounds (put_back pc p) in
    let (qt, qu) = quiet-next_check rounds (put_back pc p) in omega arith
Local-used {c} (is_ill p pc rounds) r h =
    let (t, u, f) = SameCounters-next_check rounds (close_conn pc p) in
    let (qt, qu) = quiet-next_check rounds (close_conn pc p) in omega arith
Local-used {c} (expires p e) r h = omega arith
Local-used {c} (closes_expired p) r h = let (t, u, f) = SameCounters-close_locked p in omega arith
Local-used {c} (goes_on p) r h = omega arith
Local-used {c} (keeps p) r h =
    omega (arith, weight-copies use_of (keep_min_idles c p).1 adding refl)
Local-used {c} (first_keeps p) r h =
    omega (arith, weight-copies use_of (keep_min_idles c p).1 adding refl)
Local-used {c} (add_refused p e) r h = omega arith
Local-used {c} (may_add p e) r h = omega arith
Local-used {c} (add_dials p) r h = omega arith
Local-used {c} (add_dial_fails p) r h = omega arith
Local-used {c} (adds p pc) r h = let (t, u, f) = SameCounters-add_locked c pc p in omega arith

-- In every state that a pool can come to, `used` is, modulo 2^32 as an int32 is, the number of calls
-- of Get that have passed the token and of the connections in use that put has not discounted, and
-- besides of all calls of Get that have failed up to then, after a failed dial or on a closed pool.
-- So no call takes a failed Get back from the counter.
pub used_counts :
    {c : Config} {p : Pool} {tasks : List Task}
    → Reachable c p tasks
    → p.used ≡ (weight use_of tasks + p.failed) % 2 ^ 32
unfolding new_pool
used_counts first = refl
used_counts (steps {p} {p'} {t} {ts} before behind r l) =
    let n = weight use_of before + weight use_of behind in
    let h' = Local-used l n (omega (arith, used_counts r, rest_of use_of before t behind)) in
    omega (arith, h', joined_of use_of before ts behind)
used_counts (gets r) = omega (arith, used_counts r)
used_counts (closes {p} r) =
    let (_, u, f) = SameCounters-close_locked p in omega (arith, used_counts r)
