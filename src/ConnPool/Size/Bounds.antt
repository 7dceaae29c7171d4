-- ===== src/ConnPool/Size/Bounds.antt =====
-- pool/connpool/connection_pool.go: the number of idle connections in every state.
use trpc_go.Common.{ℕ, ◌+◌, ◌≤◌, ◌≡◌, refl, sym, false, List, [], ◌∷◌, length, arith}
use trpc_go.Common.Int.{pos, eq_of_parts}
use trpc_go.ConnPool.{Config, Pool, new_pool}
use trpc_go.ConnPool.Counters.{rest_of, joined_of}
use trpc_go.ConnPool.Tasks.{
  Task, asking, counting, searching, starting, dialling, leaving, asleep, awake, deciding, expiring,
  keeping, first_keeping, adding, add_dialling, checking, in_use, added, returning, releasing,
  closing, inspecting, Reachable, first, steps, gets, closes, weight,
}
use trpc_go.ConnPool.Size.{
  pending, routine, inspects, IsOpenSized, closed-close_locked, IsOpenSized-same,
}
use trpc_go.ConnPool.Size.Steps.{Local-IsOpenSized}

one_routine : (t : Task) → inspects t ≤ routine t
one_routine asking = omega arith
one_routine counting = omega arith
one_routine searching = omega arith
one_routine starting = omega arith
one_routine dialling = omega arith
one_routine leaving = omega arith
one_routine asleep = omega arith
one_routine awake = omega arith
one_routine deciding = omega arith
one_routine expiring = omega arith
one_routine keeping = omega arith
one_routine first_keeping = omega arith
one_routine adding = omega arith
one_routine add_dialling = omega arith
one_routine (checking pc) = omega arith
one_routine (in_use pc) = omega arith
one_routine (added pc) = omega arith
one_routine (returning pc force_close) = omega arith
one_routine (releasing o) = omega arith
one_routine (closing pcs) = omega arith
one_routine (inspecting pc rounds) = omega arith

inspects-le-routine : (ts : List Task) → weight inspects ts ≤ weight routine ts
inspects-le-routine [] = omega arith
inspects-le-routine (t ∷ ts) = omega (arith, inspects-le-routine ts, one_routine t)

Reachable-IsOpenSized :
    {c : Config} (k : ℕ) {p : Pool} {tasks : List Task}
    → c.max_idle ≤ k
    → c.min_idle ≤ k
    → Reachable c p tasks
    → IsOpenSized k p (weight pending tasks) (weight inspects tasks) (weight routine tasks)
unfolding new_pool
Reachable-IsOpenSized k m n first = λ o. (refl, omega arith, omega arith, omega arith)
Reachable-IsOpenSized k m n (steps {p} {p'} {t} {ts} before behind r l) =
    let le : weight inspects before + weight inspects behind
        ≤ weight routine before + weight routine behind =
      omega (arith, inspects-le-routine before, inspects-le-routine behind) in
    let h =
      IsOpenSized-same k _ _ _ _ _ _ p p refl refl refl (rest_of pending before t behind)
        (omega (arith, rest_of inspects before t behind))
        (omega (arith, rest_of routine before t behind)) (Reachable-IsOpenSized k m n r) in
    let h' = Local-IsOpenSized k m n l _ _ _ le h in
    IsOpenSized-same k _ _ _ _ _ _ p' p' refl refl refl (sym (joined_of pending before ts behind))
      (omega (arith, joined_of inspects before ts behind))
      (omega (arith, joined_of routine before ts behind)) h'
Reachable-IsOpenSized k m n (gets {p} r) =
    IsOpenSized-same k _ _ _ _ _ _ p p refl refl refl (omega arith) (omega arith) (omega arith)
      (Reachable-IsOpenSized k m n r)
Reachable-IsOpenSized k m n (closes {p} r) = λ o. absurd (ground (arith, closed-close_locked p))

-- In every state that a pool can come to before it is closed: idleSize is the number of idle
-- connections and of those that keepMinIdles has yet to add; and it is at most one more than the
-- larger of MinIdle and MaxIdle (one, since the check of a connection takes it from the list for a
-- while). That is so for a MaxIdle of 0 too, which is no idle connection as the comment at the
-- option says, and not no limit, as the one at the pool's field does.
pub idle_size_bounds :
    {c : Config} (k : ℕ) {p : Pool} {tasks : List Task}
    → c.max_idle ≤ k
    → c.min_idle ≤ k
    → Reachable c p tasks
    → p.closed ≡ false
    → (p.idle_size ≡ pos (length p.idle + weight pending tasks))
      × (length p.idle + weight pending tasks ≤ k + 1)
idle_size_bounds k {p} m n r o =
    let (z, s, b, _) = Reachable-IsOpenSized k m n r o in
    (eq_of_parts p.idle_size _ (omega arith), omega arith)
