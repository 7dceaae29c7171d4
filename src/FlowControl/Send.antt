-- ===== src/FlowControl/Send.antt =====
-- stream/flow_control.go: sendControl, and the two ends of a stream with the messages and the
-- feedback between them.
use trpc_go.Common.{
  ℕ, suc, ◌<◌, ◌^◌, ◌≡◌, Bool, true, false, not, ◌&&◌, List, [], ◌∷◌, ◌++◌, Option, none, some,
  if◌then◌else◌,
}
use trpc_go.Common.Int.{ℤ, pos, ◌+ℤ◌, ◌-ℤ◌, is_positive}
use trpc_go.FlowControl.Receive.{ReceiveControl, Received, on_recv}

-- sendControl: the window, and whether its channel, which has room for one, is full. `done` tells
-- whether one of the other channels is closed. The window is an int64 in the code and an integer
-- here.
pub record SendControl : Type 0 where
  pub window : ℤ
  pub ch : Bool
  pub done : Bool

-- newSendControl
unfoldable pub new_send_control : ℕ → SendControl
new_send_control window = record { window = pos window; ch = false; done = false }

-- Where the goroutine that calls GetWindow is, with the size it asks for: outside, before the
-- test, between the test and the subtraction, in the select, or outside after an error.
pub data Sender : Type 0 where
  idle failed : Sender
  testing admitted blocked : ℕ → Sender

-- The test of GetWindow.
unfoldable pub test_window : ℕ → SendControl → Sender
test_window w s = if is_positive s.window then admitted w else blocked w

-- The subtraction of GetWindow.
unfoldable pub take_window : ℕ → SendControl → SendControl
take_window w s = record s { window = s.window -ℤ pos w }

-- checkUpdate
unfoldable pub check_update : ℤ → ℤ → Bool
check_update updated_window increment =
    not (is_positive (updated_window -ℤ increment)) && is_positive updated_window

-- UpdateWindow up to its test: the control, and whether it goes on to send.
unfoldable pub add_window : ℕ → SendControl → SendControl × Bool
add_window increment s =
    let updated = s.window +ℤ pos increment in
    (record s { window = updated }, check_update updated (pos increment))

-- UpdateWindow's send, which does not block.
unfoldable pub signal : SendControl → SendControl
signal s = record s { ch = true }

-- A direction of a stream. Only one goroutine sends at a time, as SendMsg asks. `in_flight` has
-- the sizes of the messages that were let through and that the receiver has not read, and
-- `increments` the feedback that the sender has not handled, each in their order; `wakers` counts
-- the calls of UpdateWindow before their send.
pub record Flow : Type 0 where
  pub sends : SendControl
  pub sender : Sender
  pub in_flight : List ℕ
  pub control : ReceiveControl
  pub increments : List ℕ
  pub wakers : ℕ

abbrev pub start : ℕ → ReceiveControl → Flow
start window control = record {
  sends = new_send_control window;
  sender = idle;
  in_flight = [];
  control = control;
  increments = [];
  wakers = 0;
}

-- What OnRecv feeds back is under way to the sender.
abbrev pub with_feedback : List ℕ → Option ℕ → List ℕ
with_feedback ns none = ns
with_feedback ns (some n) = ns ++ (n ∷ [])

abbrev pub received : Flow → List ℕ → Received → Flow
received s rest r = record s {
  in_flight = rest;
  control = r.control;
  increments = with_feedback s.increments r.fed_back;
}

abbrev pub updated : Flow → List ℕ → SendControl × Bool → Flow
updated s rest (control, wakes_up) = record s {
  sends = control;
  increments = rest;
  wakers = if wakes_up then suc s.wakers else s.wakers;
}

-- A step of the goroutines that are at work on the stream: of GetWindow, of the receiver, and of
-- UpdateWindow.
pub data Inner : Flow → Flow → Type 0 where
  tests :
      (s : Flow) (w : ℕ)
      → s.sender ≡ testing w
      → Inner s (record s { sender = test_window w s.sends })
  takes :
      (s : Flow) (w : ℕ)
      → s.sender ≡ admitted w
      → Inner s (record s {
        sends = take_window w s.sends;
        sender = idle;
        in_flight = s.in_flight ++ (w ∷ []);
      })
  wakes :
      (s : Flow) (w : ℕ)
      → s.sender ≡ blocked w
      → s.sends.ch ≡ true
      → Inner s (record s { sends = record (s.sends) { ch = false }; sender = testing w })
  sees_done :
      (s : Flow) (w : ℕ)
      → s.sender ≡ blocked w
      → s.sends.done ≡ true
      → Inner s (record s { sender = failed })
  receives :
      (s : Flow) (n : ℕ) (rest : List ℕ)
      → s.in_flight ≡ n ∷ rest
      → Inner s (received s rest (on_recv n s.control))
  updates :
      (s : Flow) (n : ℕ) (rest : List ℕ)
      → s.increments ≡ n ∷ rest
      → Inner s (updated s rest (add_window n s.sends))
  signals :
      (s : Flow) (n : ℕ)
      → s.wakers ≡ suc n
      → Inner s (record s { sends = signal s.sends; wakers = n })

-- The states of a stream whose messages are smaller than 2^31 bytes: besides the steps above, the
-- sender may call GetWindow, and the stream may end.
pub data Reachable (window : ℕ) (control : ReceiveControl) : Flow → Type 0 where
  first : Reachable window control (start window control)
  goes_on : {s s' : Flow} → Reachable window control s → Inner s s' → Reachable window control s'
  asks :
      (s : Flow) (w : ℕ)
      → Reachable window control s
      → s.sender ≡ idle
      → w < 2 ^ 31
      → Reachable window control (record s { sender = testing w })
  ends :
      (s : Flow)
      → Reachable window control s
      → Reachable window control (record s { sends = record (s.sends) { done = true } })
