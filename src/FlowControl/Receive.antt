-- ===== src/FlowControl/Receive.antt =====
-- stream/flow_control.go: receiveControl.
use trpc_go.Common.{
  ℕ, ◌+◌, ◌/◌, ◌%◌, ◌^◌, ◌<◌, ◌≡◌, refl, Bool, true, false, List, [], ◌∷◌, Option, none, some, leb,
  if◌then◌else◌, arith, Bool-cases, inl, inr, ◌⊎◌,
}

-- The feedback function is the stream's own; of a call, it tells whether it returns no error.
pub record ReceiveControl : Type 0 where
  pub buffer : ℕ
  pub un_updated : ℕ
  pub fb : Option (ℕ → Bool)

-- What one call of OnRecv does: the state after it, the increment that was fed back, and whether
-- it returned no error.
pub record Received : Type 0 where
  pub control : ReceiveControl
  pub fed_back : Option ℕ
  pub succeeded : Bool

unfoldable pub with_un_updated : ℕ → ReceiveControl → ReceiveControl
with_un_updated n r = record { buffer = r.buffer; un_updated = n; fb = r.fb }

-- The call of the feedback function, if there is one.
unfoldable pub feed_back : ℕ → ReceiveControl → Received
feed_back increment r = elim (r.fb) [
  | none ↦ record { control = with_un_updated 0 r; fed_back = none; succeeded = true }
  | some f ↦ record {
    control = with_un_updated 0 r;
    fed_back = some increment;
    succeeded = f increment;
  }
]

-- OnRecv
unfoldable pub on_recv : ℕ → ReceiveControl → Received
on_recv n r =
    let un_updated = (r.un_updated + n) % 2 ^ 32 in
    if leb (r.buffer / 4) un_updated
    then feed_back un_updated r
    else record { control = with_un_updated un_updated r; fed_back = none; succeeded = true }

-- The increments that a sequence of calls feeds back, and the state after them.
unfoldable pub on_recv_all : List ℕ → ReceiveControl → List ℕ × ReceiveControl
on_recv_all [] r = ([], r)
on_recv_all (n ∷ ns) r =
    let one = on_recv n r in
    let (increments, last) = on_recv_all ns (one.control) in
    elim (one.fed_back) [
      | none ↦ (increments, last)
      | some increment ↦ (increment ∷ increments, last)
    ]

abbrev pub sum : List ℕ → ℕ
sum [] = 0
sum (n ∷ ns) = n + sum ns

-- What a single call has fed back.
abbrev pub amount : Option ℕ → ℕ
amount none = 0
amount (some n) = n

-- A control with a feedback function whose pending bytes are fewer than a quarter of the buffer.
pub record IsPending (r : ReceiveControl) : Type 0 where
  pub pending : (r.un_updated < r.buffer / 4) ⊎ (r.un_updated ≡ 0)
  pub connected : (f : ℕ → Bool) × (r.fb ≡ some f)

leb-false : (a b : ℕ) → leb a b ≡ false → b < a
leb-false a b h = ground arith

pub on_recv-conserves :
    (n : ℕ) (r : ReceiveControl)
    → IsPending r
    → r.un_updated + n < 2 ^ 32
    → (amount ((on_recv n r).fed_back) + (on_recv n r).control.un_updated ≡ r.un_updated + n)
      × IsPending ((on_recv n r).control)
      × ((on_recv n r).control.buffer ≡ r.buffer)
unfolding on_recv feed_back with_un_updated
on_recv-conserves n r p h =
    let (f, e) = p.connected in
    let small : (r.un_updated + n) % 2 ^ 32 ≡ r.un_updated + n = omega arith in
    elim (Bool-cases (leb (r.buffer / 4) (r.un_updated + n))) [
      | inl full ↦
          rw (small, full, e)
            (omega arith, record { pending = inr refl; connected = (f, refl) }, refl)
      | inr room ↦
          rw (small, room)
            (
              omega arith,
              record {
                pending = inl (leb-false (r.buffer / 4) (r.un_updated + n) room);
                connected = (f, e);
              },
              refl,
            )
    ]

sum-amount :
    (o : Option ℕ) (ns : List ℕ) (r : ReceiveControl)
    → sum ((elim o as (λ x. List ℕ × ReceiveControl) [ none ↦ (ns, r) | some i ↦ (i ∷ ns, r) ]).0)
      ≡ amount o + sum ns
sum-amount none ns r = omega arith
sum-amount (some i) ns r = refl

last-control :
    (o : Option ℕ) (ns : List ℕ) (r : ReceiveControl)
    → (elim o as (λ x. List ℕ × ReceiveControl) [ none ↦ (ns, r) | some i ↦ (i ∷ ns, r) ]).1 ≡ r
last-control none ns r = refl
last-control (some i) ns r = refl

-- Every byte that the application has read is fed back to the sender once, or is still pending: the
-- increments that a sequence of calls of OnRecv feeds back and the bytes that are pending behind
-- them are together the bytes received and those that were pending before; and the pending bytes
-- stay fewer than a quarter of the buffer. It holds when there is a feedback function and the bytes
-- are fewer than 2^32.
pub on_recv_all-conserves :
    (ns : List ℕ) (r : ReceiveControl)
    → IsPending r
    → r.un_updated + sum ns < 2 ^ 32
    → (sum ((on_recv_all ns r).0) + (on_recv_all ns r).1.un_updated ≡ r.un_updated + sum ns)
      × IsPending ((on_recv_all ns r).1)
unfolding on_recv_all
on_recv_all-conserves [] r p h = (omega arith, p)
on_recv_all-conserves (n ∷ ns) r p h =
    let one = on_recv n r in
    let (kept, p', same) = on_recv-conserves n r p (omega arith) in
    let (rest, p'') = on_recv_all-conserves ns (one.control) p' (omega arith) in
    let all = on_recv_all ns (one.control) in
    let total = sum-amount (one.fed_back) (all.0) (all.1) in
    let last = last-control (one.fed_back) (all.0) (all.1) in rw (total, last) (omega arith, p'')
