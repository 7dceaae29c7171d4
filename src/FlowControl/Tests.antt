-- ===== src/FlowControl/Tests.antt =====
-- Runs of stream/flow_control.go.
use trpc_go.Common.{ℕ, ◌+◌, ◌≡◌, refl, true, List, [], ◌∷◌, some, arith, inr, false, ◌<◌, ◌≤◌, ◌^◌}
use trpc_go.Common.Int.{ℤ, pos, negsuc, pos_part, neg_part, ◌+ℤ◌}
use trpc_go.FlowControl.Send.{
  Flow, idle, testing, admitted, blocked, start, tests, takes, goes_on, first, asks, Reachable,
}
use trpc_go.FlowControl.Conserved.{outstanding, window_conserved, window_bounds}
use trpc_go.FlowControl.Progress.{WillPass, sender_passes}
use trpc_go.FlowControl.Receive.{
  ReceiveControl, with_un_updated, feed_back, on_recv, on_recv_all, sum, IsPending,
  on_recv_all-conserves,
}

-- newReceiveControl(400, fb)
abbrev control : ReceiveControl
control = record { buffer = 400; un_updated = 0; fb = some (λ n. true) }

abbrev sizes : List ℕ
sizes = 60 ∷ 50 ∷ 30 ∷ []

-- The first two messages are fed back together, the third waits.
sizes-on_recv_all : (on_recv_all sizes control).0 ≡ 110 ∷ []
unfolding on_recv_all on_recv feed_back with_un_updated
sizes-on_recv_all = refl

on_recv_all-conserves_example :
    (sum ((on_recv_all sizes control).0) + (on_recv_all sizes control).1.un_updated ≡ 140)
    × IsPending ((on_recv_all sizes control).1)
on_recv_all-conserves_example =
    on_recv_all-conserves sizes control
      (record { pending = inr refl; connected = (λ n. true, refl) }) (omega arith)

-- A message of 500 bytes has overdrawn a window of 400, and the next one waits.
abbrev overdrawn : Flow
overdrawn = record {
  sends = record { window = negsuc 99; ch = false; done = false };
  sender = blocked 30;
  in_flight = 500 ∷ [];
  control = control;
  increments = [];
  wakers = 0;
}

overdrawn-Reachable : Reachable 400 control overdrawn
unfolding trpc_go.FlowControl.Send.test_window trpc_go.Common.Int.is_positive
    trpc_go.FlowControl.Send.new_send_control trpc_go.FlowControl.Send.take_window
    trpc_go.Common.Int.◌-ℤ◌
overdrawn-Reachable =
    goes_on
      (asks _ 30
        (goes_on (goes_on (asks _ 500 first refl (omega arith)) (tests _ 500 refl))
          (takes _ 500 refl))
        refl (omega arith))
      (tests _ 30 refl)

control-IsPending : IsPending control
control-IsPending = record { pending = inr refl; connected = (λ n. true, refl) }

window_conserved_example : overdrawn.sends.window +ℤ pos (outstanding overdrawn) ≡ pos 400
window_conserved_example =
    window_conserved 400 control overdrawn control-IsPending refl (omega arith) overdrawn-Reachable

window_bounds_example :
    (pos_part overdrawn.sends.window ≤ 400) × (neg_part overdrawn.sends.window < 2 ^ 31)
window_bounds_example =
    window_bounds 400 control overdrawn control-IsPending refl (omega arith) overdrawn-Reachable

sender_passes_example : WillPass overdrawn
sender_passes_example =
    sender_passes 400 control overdrawn control-IsPending refl (omega arith) (omega arith)
      (omega arith) overdrawn-Reachable refl tt
