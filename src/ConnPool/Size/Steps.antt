-- ===== src/ConnPool/Size/Steps.antt =====
-- pool/connpool/connection_pool.go: what each step does to the number of idle connections.
use trpc_go.Common.{
  ◌%◌, ◌^◌, ◌-◌, ◌+◌, ℕ, suc, ◌+◌, ◌-◌, ◌≤◌, refl, sym, ◌∙◌, ap, List, ◌++◌, none, some, length,
  arith,
}
use trpc_go.Common.Int.{pos_part, neg_part}
use trpc_go.ConnPool.{
  Config, Pool, free_token, close_conn, get_fails, dial, release, keep_min_idles, put_back,
}
use trpc_go.ConnPool.Tasks.{
  Task, adding, Local, takes_token, refused, counts, finds, finds_none, accepts, rejects, may_dial,
  is_closed, dials, dial_fails, gives_back, breaks, puts, releases, leaves, closes_all, stops,
  wakes, begins, is_healthy, is_ill, expires, closes_expired, goes_on, keeps, first_keeps,
  add_refused, may_add, add_dials, add_dial_fails, adds, weight, weight-copies,
}
use trpc_go.ConnPool.Size.{
  pending, routine, inspects, IsOpenSized, minus_one, take_idle_lem, IsSized-take_idle,
  closed-next_check, closed-put_locked, IsSized-put_locked, keep_min_idles_lem, weight-adding,
  closed-close_locked, closed-free_token, closed-get_token, IsOpenSized-same, IsSized-round,
  IsSized-put_back, open_before, closed-add_locked,
}

-- What a step does to the size, beside what other goroutines have to do with it.
pub Local-IsOpenSized :
    {c : Config} (k : ℕ) {p p' : Pool} {t : Task} {ts : List Task}
    → c.max_idle ≤ k
    → c.min_idle ≤ k
    → Local c p t p' ts
    → (w i r : ℕ) → i ≤ r
    → IsOpenSized k p (pending t + w) (inspects t + i) (routine t + r)
    → IsOpenSized k p' (weight pending ts + w) (weight inspects ts + i) (weight routine ts + r)
unfolding get_fails dial release close_conn put_back
Local-IsOpenSized {c} k m n (takes_token p p' e) w i r j h =
    let (x, y, z) = closed-get_token c p p' e in
    IsOpenSized-same k _ _ _ _ _ _ p p' x y z (omega arith) (omega arith) (omega arith) h
Local-IsOpenSized {c} k m n (refused p e) w i r j h =
    IsOpenSized-same k _ _ _ _ _ _ p p refl refl refl (omega arith) (omega arith) (omega arith) h
Local-IsOpenSized {c} k m n (counts p) w i r j h =
    IsOpenSized-same k _ _ _ _ _ _ p (record p { used = (p.used + 1) % 2 ^ 32 }) refl refl refl
      (omega arith) (omega arith) (omega arith) h
Local-IsOpenSized {c} k m n (finds p p' pc e) w i r j h = λ o.
    let (q, _, _) = take_idle_lem pc p p' e in
    let (z, s, b, x) = IsSized-take_idle k pc p p' _ _ _ e (h (sym q ∙ o)) in (z, s, omega arith, x)
Local-IsOpenSized {c} k m n (finds_none p e) w i r j h =
    IsOpenSized-same k _ _ _ _ _ _ p p refl refl refl (omega arith) (omega arith) (omega arith) h
Local-IsOpenSized {c} k m n (accepts p pc) w i r j h =
    IsOpenSized-same k _ _ _ _ _ _ p p refl refl refl (omega arith) (omega arith) (omega arith) h
Local-IsOpenSized {c} k m n (rejects p pc) w i r j h =
    IsOpenSized-same k _ _ _ _ _ _ p (close_conn pc p) refl refl refl (omega arith) (omega arith)
      (omega arith) h
Local-IsOpenSized {c} k m n (may_dial p e) w i r j h =
    IsOpenSized-same k _ _ _ _ _ _ p p refl refl refl (omega arith) (omega arith) (omega arith) h
Local-IsOpenSized {c} k m n (is_closed p e) w i r j h =
    let (x, y, z) = closed-free_token c p in
    IsOpenSized-same k _ _ _ _ _ _ p (get_fails c p) x y z (omega arith) (omega arith) (omega arith)
      h
Local-IsOpenSized {c} k m n (dials p) w i r j h =
    IsOpenSized-same k _ _ _ _ _ _ p (dial p) refl refl refl (omega arith) (omega arith)
      (omega arith) h
Local-IsOpenSized {c} k m n (dial_fails p) w i r j h =
    let (x, y, z) = closed-free_token c p in
    IsOpenSized-same k _ _ _ _ _ _ p (get_fails c p) x y z (omega arith) (omega arith) (omega arith)
      h
Local-IsOpenSized {c} k m n (gives_back p pc) w i r j h =
    IsOpenSized-same k _ _ _ _ _ _ p p refl refl refl (omega arith) (omega arith) (omega arith) h
Local-IsOpenSized {c} k m n (breaks p pc) w i r j h =
    IsOpenSized-same k _ _ _ _ _ _ p p refl refl refl (omega arith) (omega arith) (omega arith) h
Local-IsOpenSized {c} k m n (puts p pc force) w i r j h = λ o.
    IsSized-put_locked k c force pc p _ _ _ m (omega arith)
      (h (sym (closed-put_locked c force pc p) ∙ o))
Local-IsOpenSized {c} k m n (releases p none) w i r j h =
    let (x, y, z) = closed-free_token c p in
    IsOpenSized-same k _ _ _ _ _ _ p (free_token c p) x y z (omega arith) (omega arith)
      (omega arith) h
Local-IsOpenSized {c} k m n (releases p (some pc)) w i r j h =
    let (x, y, z) = closed-free_token c (close_conn pc p) in
    IsOpenSized-same k _ _ _ _ _ _ p (free_token c (close_conn pc p)) x y z (omega arith)
      (omega arith) (omega arith) h
Local-IsOpenSized {c} k m n (leaves p) w i r j h =
    IsOpenSized-same k _ _ _ _ _ _ p (record p { used = (p.used + (2 ^ 32 - 1)) % 2 ^ 32 }) refl
      refl refl (omega arith) (omega arith) (omega arith) h
Local-IsOpenSized {c} k m n (closes_all p pcs) w i r j h =
    IsOpenSized-same k _ _ _ _ _ _ p (record p { shut = pcs ++ p.shut }) refl refl refl
      (omega arith) (omega arith) (omega arith) h
Local-IsOpenSized {c} k m n (stops p e) w i r j h =
    IsOpenSized-same k _ _ _ _ _ _ p p refl refl refl (omega arith) (omega arith) (omega arith) h
Local-IsOpenSized {c} k m n (wakes p e) w i r j h =
    IsOpenSized-same k _ _ _ _ _ _ p p refl refl refl (omega arith) (omega arith) (omega arith) h
Local-IsOpenSized {c} k m n (begins p) w i r j h = λ o.
    let (z, s, b, x) = h (sym (closed-next_check (length p.idle) p) ∙ o) in
    IsSized-round k (length p.idle) p w i r (z, omega arith, omega arith, omega arith)
Local-IsOpenSized {c} k m n (is_healthy p pc rounds) w i r j h = λ o.
    let (z, s, b, x) = h (sym (closed-next_check rounds (put_back pc p)) ∙ o) in
    IsSized-round k rounds (put_back pc p) w i r
      (IsSized-put_back k pc p w i (suc r) (z, omega arith, omega arith, omega arith))
Local-IsOpenSized {c} k m n (is_ill p pc rounds) w i r j h = λ o.
    let (z, s, b, x) = h (sym (closed-next_check rounds (close_conn pc p)) ∙ o) in
    IsSized-round k rounds (close_conn pc p) w i r (z, omega arith, omega arith, omega arith)
Local-IsOpenSized {c} k m n (expires p e) w i r j h =
    IsOpenSized-same k _ _ _ _ _ _ p p refl refl refl (omega arith) (omega arith) (omega arith) h
Local-IsOpenSized {c} k m n (closes_expired p) w i r j h =
    λ o. absurd (ground (arith, closed-close_locked p))
Local-IsOpenSized {c} k m n (goes_on p) w i r j h =
    IsOpenSized-same k _ _ _ _ _ _ p p refl refl refl (omega arith) (omega arith) (omega arith) h
Local-IsOpenSized {c} k m n (keeps p) w i r j h = λ o.
    let (z, s, b, x) = h (open_before c p o) in
    let (z', s', b', x') =
      keep_min_idles_lem k c p w i (suc r) n (omega arith)
        (z, omega arith, omega arith, omega arith) in
    let added = (keep_min_idles c p).1 in
    (
      z',
      omega (arith, weight-adding added),
      omega (arith, weight-copies inspects added adding refl),
      omega (arith, weight-copies routine added adding refl),
    )
Local-IsOpenSized {c} k m n (first_keeps p) w i r j h = λ o.
    let (z, s, b, x) = h (open_before c p o) in
    let (z', s', b', x') =
      keep_min_idles_lem k c p w i (r) n (omega arith) (z, omega arith, omega arith, omega arith) in
    let added = (keep_min_idles c p).1 in
    (
      z',
      omega (arith, weight-adding added),
      omega (arith, weight-copies inspects added adding refl),
      omega (arith, weight-copies routine added adding refl),
    )
Local-IsOpenSized {c} k m n (add_refused p e) w i r j h = λ o. absurd (ground arith)
Local-IsOpenSized {c} k m n (may_add p e) w i r j h =
    IsOpenSized-same k _ _ _ _ _ _ p p refl refl refl (omega arith) (omega arith) (omega arith) h
Local-IsOpenSized {c} k m n (add_dials p) w i r j h =
    IsOpenSized-same k _ _ _ _ _ _ p (dial p) refl refl refl (omega arith) (omega arith)
      (omega arith) h
Local-IsOpenSized {c} k m n (add_dial_fails p) w i r j h = λ o.
    let (z, s, b, x) = h o in
    let (a, a') = minus_one p.idle_size z (omega arith) in
    (a', omega arith, omega arith, omega arith)
Local-IsOpenSized {c} k m n (adds p pc) w i r j h = λ o.
    let q = closed-add_locked c pc p o in
    let (z, s, b, x) = h (q.0) in
    (
      ap neg_part (q.2) ∙ z,
      omega (arith, q.1, ap pos_part (q.2), s),
      omega (arith, ap pos_part (q.2)),
      x,
    )
