-- ===== src/Stream/Order.antt =====
-- stream/client.go: what RecvMsg gets is what has arrived, in its order.
use mathlib.Core.List.{append-nil}
use trpc_go.Common.{
  ◌≡◌, ◌≢◌, refl, sym, ap, ◌∙◌, true, false, not, List, [], ◌∷◌, ◌++◌, Option, none, some, ◌==◌,
  arith, Bool-cases, inl, inr,
}
use trpc_go.Codec.Stream.{StreamProtocol}
use trpc_go.FlowControl.Send.{SendControl}
use trpc_go.Queue.{
  System, Action, puts, notifies, calls, looks, wakes, sees_done, leaves, closes, step, start,
  Reachable, first, next,
}
use trpc_go.Queue.Fifo.{in_order}
use trpc_go.Stream.Client.{
  Response, Arrival, fails, headless, frame, dispatch_round, handle_frame, message_response,
}
use trpc_go.Stream.Receiving.{
  ClientStream, new_client_stream, goes_on, after_round, Step, dispatches_response,
  dispatches_nothing, ends, cancels, queue_moves, Occurs, opened, moved, responses, is_over,
}

abbrev with_response : Option Response → List Response → List Response
with_response none rs = rs
with_response (some r) rs = r ∷ rs

-- The response of a round is the one of what it handles, and it returns if the stream is over.
round-responses :
    (pb : StreamProtocol) (a : Arrival) (c : Option SendControl)
    → (responses pb (a ∷ []) ≡ with_response ((dispatch_round pb a c).puts_response) [])
      × (is_over pb (a ∷ []) ≡ not (goes_on ((dispatch_round pb a c).returns)))
unfolding responses is_over dispatch_round handle_frame
round-responses pb (fails e) c = (refl, refl)
round-responses pb headless c = (refl, refl)
round-responses pb (frame f) c = ground arith

-- What arrives behind a stream that is not over adds its own response.
responses-snoc :
    (pb : StreamProtocol) (rs : List Arrival) (a : Arrival)
    → is_over pb rs ≡ false
    → (responses pb (rs ++ (a ∷ [])) ≡ responses pb rs ++ responses pb (a ∷ []))
      × (is_over pb (rs ++ (a ∷ [])) ≡ is_over pb (a ∷ []))
unfolding responses is_over
responses-snoc pb [] a h = (refl, refl)
responses-snoc pb (fails e ∷ _) a h = absurd (ground arith)
responses-snoc pb (headless ∷ _) a h = absurd (ground arith)
responses-snoc pb (frame f ∷ rs) a h = elim (Bool-cases (f.frame_type == pb.data_type)) [
  | inl is_data ↦
      (let (same, over) = responses-snoc pb rs a (ground arith) in
        rw is_data (ap (λ l. message_response f.payload ∷ l) same, over))
  | inr n ↦ elim (Bool-cases (f.frame_type == pb.close_type)) [
    | inl is_close ↦ absurd (ground arith)
    | inr n' ↦ (let (same, over) = responses-snoc pb rs a (ground arith) in rw (n, n') (same, over))
  ]
]

-- The queue is one that occurs, and what has been put are the responses to what has arrived.
record IsDispatched (pb : StreamProtocol) (s : ClientStream) : Type 0 where
  reachable : Reachable s.recv_queue
  all_put : s.recv_queue.put ≡ responses pb s.arrived
  loops : s.dispatching ≡ not (is_over pb s.arrived)

put-puts :
    (r : Response) (q q' : System Response) → step (puts r) q ≡ some q' → q'.put ≡ q.put ++ (r ∷ [])
unfolding step
put-puts r q q' e = ground arith

put-else :
    (a : Action Response) (q q' : System Response)
    → ((r : Response) → a ≢ puts r)
    → step a q ≡ some q'
    → q'.put ≡ q.put
unfolding step
put-else (puts r) q q' n e = absurd (n r refl)
put-else notifies q q' n e = ground arith
put-else calls q q' n e = ground arith
put-else looks q q' n e = ground arith
put-else wakes q q' n e = ground arith
put-else sees_done q q' n e = ground arith
put-else leaves q q' n e = ground arith
put-else closes q q' n e = ground arith

-- A round of dispatch on a stream that is not over puts the responses of what has arrived.
round-IsDispatched :
    (pb : StreamProtocol) (s : ClientStream) (a : Arrival) (q : System Response)
    → IsDispatched pb s
    → s.dispatching ≡ true
    → Reachable q
    → q.put ≡ s.recv_queue.put ++ with_response ((dispatch_round pb a s.s_control).puts_response) []
    → IsDispatched pb (after_round s a (dispatch_round pb a s.s_control) q)
round-IsDispatched pb s a q i d r e =
    let (same, over) = responses-snoc pb s.arrived a (ground (arith, i.loops)) in
    let (here, stops) = round-responses pb a s.s_control in
    let put = with_response ((dispatch_round pb a s.s_control).puts_response) [] in
    record {
      reachable = r;
      all_put =
          e
          ∙ ap (λ l. l ++ put) i.all_put
          ∙ sym (same ∙ ap (λ l. responses pb s.arrived ++ l) here);
      loops = ground (arith, over, stops);
    }

Step-IsDispatched :
    (pb : StreamProtocol) (s s' : ClientStream)
    → IsDispatched pb s
    → Step pb s s'
    → IsDispatched pb s'
Step-IsDispatched pb s _ i (dispatches_response _ a r q d e t) =
    round-IsDispatched pb s a q i d (next (puts r) s.recv_queue q i.reachable t)
      (put-puts r s.recv_queue q t ∙ ap (λ o. s.recv_queue.put ++ with_response o []) (sym e))
Step-IsDispatched pb s _ i (dispatches_nothing _ a d e) =
    round-IsDispatched pb s a s.recv_queue i d i.reachable
      (sym (append-nil s.recv_queue.put) ∙ ap (λ o. s.recv_queue.put ++ with_response o []) (sym e))
Step-IsDispatched pb s _ i (ends _ d) = record {
  reachable = i.reachable;
  all_put = i.all_put;
  loops = i.loops;
}
Step-IsDispatched pb s _ i (cancels _ d) = record {
  reachable = i.reachable;
  all_put = i.all_put;
  loops = i.loops;
}
Step-IsDispatched pb s _ i (queue_moves _ a q n e) = record {
  reachable = next a s.recv_queue q i.reachable e;
  all_put = put-else a s.recv_queue q n e ∙ i.all_put;
  loops = i.loops;
}

Occurs-IsDispatched :
    (pb : StreamProtocol) (c : Option SendControl) (s : ClientStream)
    → Occurs pb c s
    → IsDispatched pb s
unfolding new_client_stream start responses is_over
Occurs-IsDispatched pb c _ opened = record { reachable = first; all_put = refl; loops = refl }
Occurs-IsDispatched pb c _ (moved {s} {s'} o t) =
    Step-IsDispatched pb s s' (Occurs-IsDispatched pb c s o) t

-- What the calls of Get have returned to RecvMsg, followed by what waits in the queue, are the
-- responses to what has arrived, whatever order the goroutines run in: the payloads of the Data
-- frames in their order, then the error of the first arrival that ends the stream, and nothing of
-- what comes behind it. dispatch is in its loop until that arrival, and no longer.
pub received_in_order :
    (pb : StreamProtocol) (c : Option SendControl) (s : ClientStream)
    → Occurs pb c s
    → (s.recv_queue.taken ++ s.recv_queue.queue.list ≡ responses pb s.arrived)
      × (s.dispatching ≡ not (is_over pb s.arrived))
received_in_order pb c s o =
    let i = Occurs-IsDispatched pb c s o in (sym (in_order i.reachable) ∙ i.all_put, i.loops)
