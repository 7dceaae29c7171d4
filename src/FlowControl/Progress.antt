-- ===== src/FlowControl/Progress.antt =====
-- stream/flow_control.go: a sender that waits for the window is let through.
use trpc_go.Common.{
  ℕ, zero, suc, ◌+◌, ◌*◌, ◌/◌, ◌≤◌, ◌<◌, ◌^◌, ◌≡◌, ◌⊎◌, inl, inr, refl, ap, Bool, true, false, List,
  [], ◌∷◌, Option, none, some, arith, if◌then◌else◌, length, Bool-cases, length-append,
}
use trpc_go.Common.Int.{ℤ, pos, negsuc, pos_part, ◌+ℤ◌, ◌-ℤ◌, is_positive}
use trpc_go.FlowControl.Receive.{ReceiveControl, on_recv, sum, IsPending}
use trpc_go.FlowControl.Send.{
  SendControl, Sender, idle, failed, testing, admitted, blocked, test_window, take_window,
  check_update, add_window, signal, Flow, Inner, tests, takes, wakes, sees_done, receives, updates,
  signals, asks, ends, with_feedback, Reachable, first, goes_on,
}
use trpc_go.FlowControl.Conserved.{IsFlow, Reachable-IsFlow}

-- A blocked sender has an exhausted window, or a signal is there or about to be sent.
abbrev IsHeard : Flow → Type 0
IsHeard s =
    (w : ℕ)
    → s.sender ≡ blocked w
    → (is_positive s.sends.window ≡ false) ⊎ ((s.sends.ch ≡ true) ⊎ (0 < s.wakers))

test_window-blocked :
    (w w' : ℕ) (s : SendControl) → test_window w s ≡ blocked w' → is_positive s.window ≡ false
unfolding test_window
test_window-blocked w w' s e = ground arith

-- An update of an exhausted window leaves it exhausted or goes on to signal.
add_window-wakes :
    (n : ℕ) (s : SendControl)
    → is_positive s.window ≡ false
    → (is_positive ((add_window n s).0.window) ≡ false) ⊎ ((add_window n s).1 ≡ true)
unfolding add_window check_update is_positive ◌+ℤ◌ ◌-ℤ◌
add_window-wakes n s h = ground arith

one_more : (c : Bool) (n : ℕ) → (c ≡ true) ⊎ (0 < n) → 0 < (if c then suc n else n)
one_more c n h = ground arith

Inner-IsHeard : {s s' : Flow} → Inner s s' → IsHeard s → IsHeard s'
unfolding take_window add_window signal
Inner-IsHeard (tests s w p) h = λ w' b. inl (test_window-blocked w w' s.sends b)
Inner-IsHeard (takes s w p) h = λ w' b. cc
Inner-IsHeard (wakes s w p c) h = λ w' b. cc
Inner-IsHeard (sees_done s w p c) h = λ w' b. cc
Inner-IsHeard (receives s n rest p) h = h
Inner-IsHeard (updates s n rest p) h = λ w' b. elim (h w' b) [
  | inl e ↦ elim (add_window-wakes n s.sends e) [
    | inl e' ↦ inl e'
    | inr c ↦ inr (inr (one_more (add_window n s.sends).1 s.wakers (inl c)))
  ]
  | inr (inl c) ↦ inr (inl c)
  | inr (inr k) ↦ inr (inr (one_more (add_window n s.sends).1 s.wakers (inr k)))
]
Inner-IsHeard (signals s n p) h = λ w' b. inr (inl refl)

Reachable-IsHeard :
    {window : ℕ} {control : ReceiveControl} {s : Flow} → Reachable window control s → IsHeard s
Reachable-IsHeard first = λ w b. cc
Reachable-IsHeard (goes_on r i) = Inner-IsHeard i (Reachable-IsHeard r)
Reachable-IsHeard (asks s w r q k) = λ w b. cc
Reachable-IsHeard (ends s r) = Reachable-IsHeard r

-- Whatever the scheduler does with the goroutines that are at work, the message comes to be let
-- through: it is, or a step can be taken and after each that can it will be.
pub data WillPass : Flow → Type 0 where
  passed : {s : Flow} → s.sender ≡ idle → WillPass s
  later :
      {s : Flow} → (s' : Flow) × Inner s s' → ((s' : Flow) → Inner s s' → WillPass s') → WillPass s

-- The sender is inside GetWindow.
abbrev pub IsWaiting : Sender → Type 0
IsWaiting (testing w) = Unit
IsWaiting (admitted w) = Unit
IsWaiting (blocked w) = Unit
IsWaiting _ = ⊥

abbrev tests_left : Sender → ℕ
tests_left (testing w) = 1
tests_left _ = 0

abbrev signals_left : Bool → ℕ
signals_left true = 2
signals_left false = 0

-- The steps that are left at most before the message is let through.
abbrev rank : Flow → ℕ
rank s =
    5 * length s.in_flight
    + 4 * length s.increments
    + 3 * s.wakers
    + signals_left s.sends.ch
    + tests_left s.sender

spent : (a : ℤ) → is_positive a ≡ false → pos_part a ≡ 0
unfolding is_positive
spent (pos a) e = ground arith
spent (negsuc a) e = refl

-- A window that is exhausted with nothing under way would be pending at the receiver, which keeps
-- less than that.
nothing_under_way :
    {window buffer : ℕ} (s : Flow)
    → IsFlow window buffer s
    → 0 < window
    → buffer / 4 ≤ window
    → s.in_flight ≡ []
    → s.increments ≡ []
    → is_positive s.sends.window ≡ false
    → ⊥
unfolding is_positive
nothing_under_way s h k l p q e = elim h.pending.pending [
  | inl small ↦ ground (arith, h.balance, h.buffer_is, spent s.sends.window e, ap sum p, ap sum q)
  | inr z ↦ ground (arith, h.balance, spent s.sends.window e, ap sum p, ap sum q)
]

can_move :
    {window buffer : ℕ} (s : Flow) (ns ms : List ℕ) (n : ℕ) (c : Bool) (w : ℕ)
    → s.in_flight ≡ ns
    → s.increments ≡ ms
    → s.wakers ≡ n
    → s.sends.ch ≡ c
    → s.sender ≡ blocked w
    → IsFlow window buffer s
    → IsHeard s
    → 0 < window
    → buffer / 4 ≤ window
    → (s' : Flow) × Inner s s'
can_move s (n ∷ rest) ms k c w p q r t b h heard l m = (_, receives s n rest p)
can_move s [] (n ∷ rest) k c w p q r t b h heard l m = (_, updates s n rest q)
can_move s [] [] (suc k) c w p q r t b h heard l m = (_, signals s k r)
can_move s [] [] zero true w p q r t b h heard l m = (_, wakes s w b t)
can_move s [] [] zero false w p q r t b h heard l m = elim (heard w b) [
  | inl e ↦ absurd (nothing_under_way s h l m p q e)
  | inr (inl e) ↦ absurd (ground arith)
  | inr (inr e) ↦ absurd (omega arith)
]

can_go_on :
    {window buffer : ℕ} (s : Flow) (g : Sender)
    → s.sender ≡ g
    → IsWaiting g
    → IsFlow window buffer s
    → IsHeard s
    → 0 < window
    → buffer / 4 ≤ window
    → (s' : Flow) × Inner s s'
can_go_on s (testing w) p i h heard l m = (_, tests s w p)
can_go_on s (admitted w) p i h heard l m = (_, takes s w p)
can_go_on s (blocked w) p i h heard l m =
    can_move s s.in_flight s.increments s.wakers s.sends.ch w refl refl refl refl p h heard l m
can_go_on s idle p i h heard l m = absurd i
can_go_on s failed p i h heard l m = absurd i

tests_left-test_window : (w : ℕ) (s : SendControl) → tests_left (test_window w s) ≡ 0
unfolding test_window
tests_left-test_window w s = ground arith

test_window-IsWaiting : (w : ℕ) (s : SendControl) → IsWaiting (test_window w s)
unfolding test_window
test_window-IsWaiting w s = elim (Bool-cases (is_positive s.window)) [
  | inl p ↦ rw (test_window, p) tt
  | inr p ↦ rw (test_window, p) tt
]

length-with_feedback : (ns : List ℕ) (o : Option ℕ) → length (with_feedback ns o) ≤ length ns + 1
length-with_feedback ns none = omega arith
length-with_feedback ns (some n) = omega (arith, length-append ns (n ∷ []))

waker_left : (c : Bool) (n : ℕ) → (if c then suc n else n) ≤ n + 1
waker_left c n = ground arith

signals_left-le : (c : Bool) → signals_left c ≤ 2
signals_left-le true = omega arith
signals_left-le false = omega arith

-- A step lets the message through, or leaves less to do.
Inner-IsNext :
    {s s' : Flow}
    → Inner s s'
    → s.sends.done ≡ false
    → IsWaiting s.sender
    → (s'.sender ≡ idle) ⊎ (IsWaiting s'.sender × (s'.sends.done ≡ false) × (rank s' < rank s))
unfolding take_window add_window signal
Inner-IsNext (tests s w p) d i = inr (
  test_window-IsWaiting w s.sends,
  d,
  omega (arith, tests_left-test_window w s.sends, ap tests_left p),
)
Inner-IsNext (takes s w p) d i = inl refl
Inner-IsNext (wakes s w p c) d i = inr (tt, d, omega (arith, ap tests_left p, ap signals_left c))
Inner-IsNext (sees_done s w p c) d i = absurd (ground arith)
Inner-IsNext (receives s n rest p) d i = inr (
  i,
  d,
  omega (arith, ap length p, length-with_feedback s.increments (on_recv n s.control).fed_back),
)
Inner-IsNext (updates s n rest p) d i =
    inr (i, d, omega (arith, ap length p, waker_left (add_window n s.sends).1 s.wakers))
Inner-IsNext (signals s n p) d i = inr (i, d, omega (arith, p, signals_left-le s.sends.ch))

will_pass :
    {window : ℕ} {control : ReceiveControl} (n : ℕ) (s : Flow)
    → IsPending control
    → control.un_updated ≡ 0
    → control.buffer < 2 ^ 32
    → 0 < window
    → control.buffer / 4 ≤ window
    → rank s < n
    → s.sends.done ≡ false
    → IsWaiting s.sender
    → Reachable window control s
    → WillPass s
will_pass zero s p z b l m k d i r = absurd (omega arith)
will_pass (suc n) s p z b l m k d i r =
    later (can_go_on s s.sender refl i (Reachable-IsFlow p z b r) (Reachable-IsHeard r) l m)
      (λ s' inner. elim (Inner-IsNext inner d i) [
        | inl q ↦ passed q
        | inr (i', d', k') ↦ will_pass n s' p z b l m (omega arith) d' i' (goes_on r inner)
      ])

-- Flow control does not deadlock: when the sender is inside GetWindow of a stream that has not
-- ended, its message comes to be let through, whatever the order of the steps of the receiver, the
-- feedback and the sender, provided that the first window is positive and at least a quarter of
-- the receiver's buffer, that the buffer is below 2^32, messages are smaller than 2^31 bytes, and
-- every message and every feedback arrives. At each point some step can be taken, and after
-- finitely many of them GetWindow has returned.
pub sender_passes :
    (window : ℕ) (control : ReceiveControl) (s : Flow)
    → IsPending control
    → control.un_updated ≡ 0
    → control.buffer < 2 ^ 32
    → 0 < window
    → control.buffer / 4 ≤ window
    → Reachable window control s
    → s.sends.done ≡ false
    → IsWaiting s.sender
    → WillPass s
sender_passes window control s p z b l m r d i =
    will_pass (suc (rank s)) s p z b l m (omega arith) d i r
