-- ===== src/FlowControl/Conserved.antt =====
-- stream/flow_control.go: the window and what is under way between the two ends.
use trpc_go.Common.{
  ℕ, ◌+◌, ◌≤◌, ◌<◌, ◌^◌, ◌≡◌, inl, inr, refl, ◌∙◌, ap, true, List, [], ◌∷◌, ◌++◌, Option, none,
  some, arith, All, Bool-cases,
}
use trpc_go.Common.Int.{
  ℤ, pos, negsuc, pos_part, neg_part, ◌+ℤ◌, ◌-ℤ◌, is_positive, +ℤ_parts, -ℤ_parts, eq_of_parts,
}
use trpc_go.FlowControl.Receive.{ReceiveControl, on_recv, sum, IsPending, amount, on_recv-conserves}
use trpc_go.FlowControl.Send.{
  SendControl, new_send_control, Sender, idle, failed, testing, admitted, blocked, test_window,
  take_window, add_window, signal, Flow, Inner, tests, takes, wakes, sees_done, receives, updates,
  signals, asks, ends, start, with_feedback, Reachable, first, goes_on,
}

-- The bytes that have been let through and not been given back to the window.
abbrev pub outstanding : Flow → ℕ
outstanding s = sum s.in_flight + s.control.un_updated + sum s.increments

abbrev IsSmallAsk : Sender → Type 0
IsSmallAsk (testing w) = w < 2 ^ 31
IsSmallAsk (admitted w) = w < 2 ^ 31
IsSmallAsk (blocked w) = w < 2 ^ 31
IsSmallAsk _ = Unit

-- A sender that has passed the test has a positive window, also when the window has changed since.
abbrev IsReady : Sender → ℤ → Type 0
IsReady (admitted w) window = 0 < pos_part window
IsReady _ window = Unit

pub record IsFlow (window buffer : ℕ) (s : Flow) : Type 0 where
  pub balance : pos_part s.sends.window + outstanding s ≡ window + neg_part s.sends.window
  pub pending : IsPending s.control
  pub buffer_is : s.control.buffer ≡ buffer
  pub small : All (λ n. n < 2 ^ 31) s.in_flight
  pub asked : IsSmallAsk s.sender
  pub ready : IsReady s.sender s.sends.window
  pub lower : neg_part s.sends.window < 2 ^ 31

sum-append : (ns ms : List ℕ) → sum (ns ++ ms) ≡ sum ns + sum ms
sum-append [] ms = omega arith
sum-append (n ∷ ns) ms = omega (arith, sum-append ns ms)

sum-with_feedback : (ns : List ℕ) (o : Option ℕ) → sum (with_feedback ns o) ≡ sum ns + amount o
sum-with_feedback ns none = omega arith
sum-with_feedback ns (some n) = omega (arith, sum-append ns (n ∷ []))

All-append {ℓ} :
    {A : Type 0} (P : A → Type ℓ) (xs ys : List A) → All P xs → All P ys → All P (xs ++ ys)
All-append P [] ys h k = k
All-append P (x ∷ xs) ys h k = (h.0, All-append P xs ys h.1 k)

test_window-IsSmallAsk : (w : ℕ) (s : SendControl) → w < 2 ^ 31 → IsSmallAsk (test_window w s)
unfolding test_window
test_window-IsSmallAsk w s h = elim (Bool-cases (is_positive s.window)) [
  | inl p ↦ rw (test_window, p) h
  | inr p ↦ rw (test_window, p) h
]

positive : (a : ℤ) → is_positive a ≡ true → 0 < pos_part a
unfolding is_positive
positive a h = ground arith

test_window-IsReady : (w : ℕ) (s : SendControl) → IsReady (test_window w s) s.window
unfolding test_window is_positive
test_window-IsReady w s = elim (Bool-cases (is_positive s.window)) [
  | inl p ↦ rw (test_window, p) (positive s.window p)
  | inr p ↦ rw (test_window, p) tt
]

taken_lower : (a : ℤ) (w : ℕ) → 0 < pos_part a → w < 2 ^ 31 → neg_part (a -ℤ pos w) < 2 ^ 31
unfolding ◌-ℤ◌
taken_lower a w h k = ground arith

grown_lower : (a : ℤ) (n : ℕ) → neg_part a < 2 ^ 31 → neg_part (a +ℤ pos n) < 2 ^ 31
unfolding ◌+ℤ◌
grown_lower a n h = ground arith

grown_positive : (a : ℤ) (n : ℕ) → 0 < pos_part a → 0 < pos_part (a +ℤ pos n)
unfolding ◌+ℤ◌
grown_positive a n h = ground arith

IsReady-grows : (g : Sender) (a : ℤ) (n : ℕ) → IsReady g a → IsReady g (a +ℤ pos n)
IsReady-grows (admitted w) a n h = grown_positive a n h
IsReady-grows idle a n h = tt
IsReady-grows failed a n h = tt
IsReady-grows (testing w) a n h = tt
IsReady-grows (blocked w) a n h = tt

small_pending :
    {buffer : ℕ} (n : ℕ) (r : ReceiveControl)
    → IsPending r
    → r.buffer ≡ buffer
    → buffer < 2 ^ 32
    → n < 2 ^ 31
    → r.un_updated + n < 2 ^ 32
small_pending n r p q b k = elim p.pending [ inl h ↦ omega arith | inr h ↦ omega arith ]

Inner-IsFlow :
    {window buffer : ℕ} {s s' : Flow}
    → buffer < 2 ^ 32
    → Inner s s'
    → IsFlow window buffer s
    → IsFlow window buffer s'
unfolding take_window add_window signal
Inner-IsFlow b (tests s w p) h = record {
  balance = h.balance;
  pending = h.pending;
  buffer_is = h.buffer_is;
  small = h.small;
  asked = test_window-IsSmallAsk w s.sends (rw p at h.asked);
  ready = test_window-IsReady w s.sends;
  lower = h.lower;
}
Inner-IsFlow b (takes s w p) h = record {
  balance =
      omega (arith, h.balance, -ℤ_parts s.sends.window (pos w), sum-append s.in_flight (w ∷ []));
  pending = h.pending;
  buffer_is = h.buffer_is;
  small = All-append _ s.in_flight (w ∷ []) h.small (rw p at h.asked, tt);
  asked = tt;
  ready = tt;
  lower = taken_lower s.sends.window w (rw p at h.ready) (rw p at h.asked);
}
Inner-IsFlow b (wakes s w p c) h = record {
  balance = h.balance;
  pending = h.pending;
  buffer_is = h.buffer_is;
  small = h.small;
  asked = rw p at h.asked;
  ready = tt;
  lower = h.lower;
}
Inner-IsFlow b (sees_done s w p c) h = record {
  balance = h.balance;
  pending = h.pending;
  buffer_is = h.buffer_is;
  small = h.small;
  asked = tt;
  ready = tt;
  lower = h.lower;
}
Inner-IsFlow b (receives s n rest p) h =
    let (k, ks) = rw p at h.small in
    let total : sum s.in_flight ≡ n + sum rest = ap sum p in
    let (same, pending, buffer) =
      on_recv-conserves n s.control h.pending
        (small_pending n s.control h.pending h.buffer_is b k) in
    record {
      balance =
          omega (arith, h.balance, sum-with_feedback s.increments (on_recv n s.control).fed_back);
      pending = pending;
      buffer_is = buffer ∙ h.buffer_is;
      small = ks;
      asked = h.asked;
      ready = h.ready;
      lower = h.lower;
    }
Inner-IsFlow b (updates s n rest p) h =
    let total : sum s.increments ≡ n + sum rest = ap sum p in
    record {
      balance = omega (arith, h.balance, +ℤ_parts s.sends.window (pos n));
      pending = h.pending;
      buffer_is = h.buffer_is;
      small = h.small;
      asked = h.asked;
      ready = IsReady-grows s.sender s.sends.window n h.ready;
      lower = grown_lower s.sends.window n h.lower;
    }
Inner-IsFlow b (signals s n p) h = record {
  balance = h.balance;
  pending = h.pending;
  buffer_is = h.buffer_is;
  small = h.small;
  asked = h.asked;
  ready = h.ready;
  lower = h.lower;
}

parts_le : (a : ℤ) (n m : ℕ) → pos_part a + n ≡ m + neg_part a → pos_part a ≤ m
parts_le (pos a) n m e = omega arith
parts_le (negsuc a) n m e = omega arith

start-IsFlow :
    (window : ℕ) (control : ReceiveControl)
    → IsPending control
    → control.un_updated ≡ 0
    → IsFlow window control.buffer (start window control)
unfolding new_send_control
start-IsFlow window control p z = record {
  balance = omega arith;
  pending = p;
  buffer_is = refl;
  small = tt;
  asked = tt;
  ready = tt;
  lower = omega arith;
}

pub Reachable-IsFlow :
    {window : ℕ} {control : ReceiveControl} {s : Flow}
    → IsPending control
    → control.un_updated ≡ 0
    → control.buffer < 2 ^ 32
    → Reachable window control s
    → IsFlow window control.buffer s
Reachable-IsFlow p z b first = start-IsFlow _ _ p z
Reachable-IsFlow p z b (goes_on r i) = Inner-IsFlow b i (Reachable-IsFlow p z b r)
Reachable-IsFlow p z b (asks s w r q k) =
    let h = Reachable-IsFlow p z b r in
    record {
      balance = h.balance;
      pending = h.pending;
      buffer_is = h.buffer_is;
      small = h.small;
      asked = k;
      ready = tt;
      lower = h.lower;
    }
Reachable-IsFlow p z b (ends s r) =
    let h = Reachable-IsFlow p z b r in
    record {
      balance = h.balance;
      pending = h.pending;
      buffer_is = h.buffer_is;
      small = h.small;
      asked = h.asked;
      ready = h.ready;
      lower = h.lower;
    }

-- In every state of a stream whose receiver has a feedback function and a buffer below 2^32, and
-- whose messages are smaller than 2^31 bytes: the sender's window is the window it began with,
-- less the bytes that are under way to the receiver, pending there, or on their way back as
-- feedback. So no message and no feedback is counted twice or forgotten.
pub window_conserved :
    (window : ℕ) (control : ReceiveControl) (s : Flow)
    → IsPending control
    → control.un_updated ≡ 0
    → control.buffer < 2 ^ 32
    → Reachable window control s
    → s.sends.window +ℤ pos (outstanding s) ≡ pos window
window_conserved window control s p z b r =
    let h = Reachable-IsFlow p z b r in
    eq_of_parts _ _ (omega (arith, h.balance, +ℤ_parts s.sends.window (pos (outstanding s))))

-- Under the same conditions the window lies above -2^31 and is at most the one it began with, so
-- that no addition to it leaves the range of an int64, although it is tested and reduced in two
-- steps.
pub window_bounds :
    (window : ℕ) (control : ReceiveControl) (s : Flow)
    → IsPending control
    → control.un_updated ≡ 0
    → control.buffer < 2 ^ 32
    → Reachable window control s
    → (pos_part s.sends.window ≤ window) × (neg_part s.sends.window < 2 ^ 31)
window_bounds window control s p z b r =
    let h = Reachable-IsFlow p z b r in (parts_le s.sends.window _ _ h.balance, h.lower)
