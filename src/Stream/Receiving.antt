-- ===== src/Stream/Receiving.antt =====
-- stream/client.go: the queue of received responses between dispatch and RecvMsg, as the steps of
-- the two goroutines, of the other calls of the queue and of the end of the context.
use trpc_go.Common.{
  ◌≡◌, ◌≢◌, Bool, true, false, List, [], ◌∷◌, ◌++◌, Option, none, some, ◌==◌, if◌then◌else◌,
}
use trpc_go.Codec.Stream.{StreamProtocol}
use trpc_go.FlowControl.Send.{SendControl}
use trpc_go.Queue.{System, Action, puts, step, start}
use trpc_go.Stream.Client.{
  StreamError, head_invalid, read_end, Response, Arrival, fails, headless, frame, Handled,
  dispatch_round, error_response, message_response, reset_or_eof,
}

-- clientStream: what has arrived, the queue with its goroutines, whether dispatch is in its loop,
-- the flag that close sets, and the control of the sender.
pub record ClientStream : Type 0 where
  pub arrived : List Arrival
  pub recv_queue : System Response
  pub dispatching : Bool
  pub closed : Bool
  pub s_control : Option SendControl

unfoldable pub new_client_stream : Option SendControl → ClientStream
new_client_stream s = record {
  arrived = [];
  recv_queue = start;
  dispatching = true;
  closed = false;
  s_control = s;
}

-- Whether dispatch goes on with its loop.
abbrev pub goes_on : Option StreamError → Bool
goes_on none = true
goes_on (some e) = false

-- The stream behind a round of dispatch, with the queue that the round leaves.
abbrev pub after_round : ClientStream → Arrival → Handled → System Response → ClientStream
after_round s a h q = record {
  arrived = s.arrived ++ (a ∷ []);
  recv_queue = q;
  dispatching = goes_on (h.returns);
  closed = s.closed;
  s_control = h.s_control;
}

-- A step: a round of dispatch that puts a response or none; the deferred call of close, behind
-- dispatch's loop or by the goroutine that waits for the end of the context; and a step of the
-- queue that puts nothing.
pub data Step (pb : StreamProtocol) : ClientStream → ClientStream → Type 0 where
  dispatches_response :
      (s : ClientStream) (a : Arrival) (r : Response) (q : System Response)
      → s.dispatching ≡ true
      → (dispatch_round pb a s.s_control).puts_response ≡ some r
      → step (puts r) s.recv_queue ≡ some q
      → Step pb s (after_round s a (dispatch_round pb a s.s_control) q)
  dispatches_nothing :
      (s : ClientStream) (a : Arrival)
      → s.dispatching ≡ true
      → (dispatch_round pb a s.s_control).puts_response ≡ none
      → Step pb s (after_round s a (dispatch_round pb a s.s_control) s.recv_queue)
  ends : (s : ClientStream) → s.dispatching ≡ false → Step pb s (record s { closed = true })
  cancels :
      (s : ClientStream) → s.recv_queue.queue.done ≡ true → Step pb s (record s { closed = true })
  queue_moves :
      (s : ClientStream) (a : Action Response) (q : System Response)
      → ((r : Response) → a ≢ puts r)
      → step a s.recv_queue ≡ some q
      → Step pb s (record s { recv_queue = q })

-- The states of a stream.
pub data Occurs (pb : StreamProtocol) (c : Option SendControl) : ClientStream → Type 0 where
  opened : Occurs pb c (new_client_stream c)
  moved : {s s' : ClientStream} → Occurs pb c s → Step pb s s' → Occurs pb c s'

-- What the caller is to be told of what arrives: the payloads of the Data frames in their order,
-- up to the first Close frame, error or message without a head, which is the last.
unfoldable pub responses : StreamProtocol → List Arrival → List Response
responses pb [] = []
responses pb (fails e ∷ _) = error_response (read_end e) ∷ []
responses pb (headless ∷ _) = error_response head_invalid ∷ []
responses pb (frame f ∷ later) =
    let rest = responses pb later in
    if f.frame_type == pb.data_type
    then message_response f.payload ∷ rest
    else if f.frame_type == pb.close_type
    then error_response (reset_or_eof f.rsp_err) ∷ []
    else rest

-- Whether one of these ends the stream.
unfoldable pub is_over : StreamProtocol → List Arrival → Bool
is_over pb [] = false
is_over pb (fails e ∷ _) = true
is_over pb (headless ∷ _) = true
is_over pb (frame f ∷ later) =
    let rest = is_over pb later in
    if f.frame_type == pb.data_type
    then rest
    else if f.frame_type == pb.close_type
    then true
    else rest
