-- ===== src/ConnPool/Counters/Token.antt =====
-- pool/connpool/connection_pool.go: the tokens.
use trpc_go.Common.{ℕ, ◌+◌, ◌≤◌, ◌<◌, ◌≡◌, refl, sym, ◌∙◌, List, none, some, length, arith}
use trpc_go.ConnPool.{
  Config, Pool, new_pool, close_conn, get_fails, dial, release, keep_min_idles, put_back,
}
use trpc_go.ConnPool.Tasks.{
  Task, adding, Local, takes_token, refused, counts, finds, finds_none, accepts, rejects, may_dial,
  is_closed, dials, dial_fails, gives_back, breaks, puts, releases, leaves, closes_all, stops,
  wakes, begins, is_healthy, is_ill, expires, closes_expired, goes_on, keeps, first_keeps,
  add_refused, may_add, add_dials, add_dial_fails, adds, Reachable, first, steps, gets, closes,
  weight, weight-copies,
}
use trpc_go.ConnPool.Counters.{
  token_of, SameCounters-take_idle, SameCounters-next_check, quiet-next_check,
  SameCounters-put_locked, SameCounters-close_locked, SameCounters-add_locked, free_token_lem,
  get_token_lem, rest_of, joined_of,
}

-- What a step does to the tokens, beside those that other goroutines hold.
Local-token :
    {c : Config} {p p' : Pool} {t : Task} {ts : List Task}
    → Local c p t p' ts
    → (r : ℕ) → 0 < c.max_active
    → p.token ≡ token_of t + r
    → p.token ≤ c.max_active
    → (p'.token ≡ weight token_of ts + r) × (p'.token ≤ c.max_active)
unfolding get_fails dial release close_conn keep_min_idles put_back
Local-token {c} (takes_token p p' e) r m h b =
    let (u, f, t) = get_token_lem c p p' e in
    (omega (arith, (t m).0, (t m).1), omega (arith, (t m).0, (t m).1))
Local-token {c} (refused p e) r m h b = (omega arith, omega arith)
Local-token {c} (counts p) r m h b = (omega arith, omega arith)
Local-token {c} (finds p p' pc e) r m h b =
    let (t, u, f) = SameCounters-take_idle pc p p' e in (omega arith, omega arith)
Local-token {c} (finds_none p e) r m h b = (omega arith, omega arith)
Local-token {c} (accepts p pc) r m h b = (omega arith, omega arith)
Local-token {c} (rejects p pc) r m h b = (omega arith, omega arith)
Local-token {c} (may_dial p e) r m h b = (omega arith, omega arith)
Local-token {c} (is_closed p e) r m h b =
    let (u, f, t) = free_token_lem c p in (omega (arith, t m), omega (arith, t m))
Local-token {c} (dials p) r m h b = (omega arith, omega arith)
Local-token {c} (dial_fails p) r m h b =
    let (u, f, t) = free_token_lem c p in (omega (arith, t m), omega (arith, t m))
Local-token {c} (gives_back p pc) r m h b = (omega arith, omega arith)
Local-token {c} (breaks p pc) r m h b = (omega arith, omega arith)
Local-token {c} (puts p pc force) r m h b =
    let (t, u, f) = SameCounters-put_locked c force pc p in (omega arith, omega arith)
Local-token {c} (releases p none) r m h b =
    let (u, f, t) = free_token_lem c p in (omega (arith, t m), omega (arith, t m))
Local-token {c} (releases p (some pc)) r m h b =
    let (u, f, t) = free_token_lem c (close_conn pc p) in (omega (arith, t m), omega (arith, t m))
Local-token {c} (leaves p) r m h b = (omega arith, omega arith)
Local-token {c} (closes_all p pcs) r m h b = (omega arith, omega arith)
Local-token {c} (stops p e) r m h b = (omega arith, omega arith)
Local-token {c} (wakes p e) r m h b = (omega arith, omega arith)
Local-token {c} (begins p) r m h b =
    let (t, u, f) = SameCounters-next_check (length p.idle) p in
    let (qt, qu) = quiet-next_check (length p.idle) p in (omega arith, omega arith)
Local-token {c} (is_healthy p pc rounds) r m h b =
    let (t, u, f) = SameCounters-next_check rounds (put_back pc p) in
    let (qt, qu) = quiet-next_check rounds (put_back pc p) in (omega arith, omega arith)
Local-token {c} (is_ill p pc rounds) r m h b =
    let (t, u, f) = SameCounters-next_check rounds (close_conn pc p) in
    let (qt, qu) = quiet-next_check rounds (close_conn pc p) in (omega arith, omega arith)
Local-token {c} (expires p e) r m h b = (omega arith, omega arith)
Local-token {c} (closes_expired p) r m h b =
    let (t, u, f) = SameCounters-close_locked p in (omega arith, omega arith)
Local-token {c} (goes_on p) r m h b = (omega arith, omega arith)
Local-token {c} (keeps p) r m h b = (
  omega (arith, weight-copies token_of (keep_min_idles c p).1 adding refl),
  omega (arith, weight-copies token_of (keep_min_idles c p).1 adding refl),
)
Local-token {c} (first_keeps p) r m h b = (
  omega (arith, weight-copies token_of (keep_min_idles c p).1 adding refl),
  omega (arith, weight-copies token_of (keep_min_idles c p).1 adding refl),
)
Local-token {c} (add_refused p e) r m h b = (omega arith, omega arith)
Local-token {c} (may_add p e) r m h b = (omega arith, omega arith)
Local-token {c} (add_dials p) r m h b = (omega arith, omega arith)
Local-token {c} (add_dial_fails p) r m h b = (omega arith, omega arith)
Local-token {c} (adds p pc) r m h b =
    let (t, u, f) = SameCounters-add_locked c pc p in (omega arith, omega arith)

-- In every state that a pool with a limit can come to: the elements of the channel are as many as
-- the calls of Get that have passed the limit and the connections in use that put has not released,
-- and these are at most MaxActive. So the limit is kept, and freeToken never waits.
pub token_counts :
    {c : Config} {p : Pool} {tasks : List Task}
    → 0 < c.max_active
    → Reachable c p tasks
    → (p.token ≡ weight token_of tasks) × (p.token ≤ c.max_active)
unfolding new_pool
token_counts m first = (refl, omega arith)
token_counts m (steps {p} {p'} {t} {ts} before behind r l) =
    let (h, b) = token_counts m r in
    let (h', b') =
      Local-token l (weight token_of before + weight token_of behind) m
        (h ∙ rest_of token_of before t behind) b in
    (h' ∙ sym (joined_of token_of before ts behind), b')
token_counts m (gets r) = let (h, b) = token_counts m r in (omega arith, b)
token_counts m (closes {p} r) =
    let (h, b) = token_counts m r in
    let (t, _, _) = SameCounters-close_locked p in (omega arith, omega arith)
