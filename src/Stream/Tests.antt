-- ===== src/Stream/Tests.antt =====
-- Runs of the stream package, and witnesses for its theorems.
use trpc_go.Common.{
  ◌⊎◌, ℕ, ◌≡◌, ◌≢◌, ◌↔◌, refl, true, false, not, List, [], ◌∷◌, ◌++◌, Option, none, some, arith,
  get_elem?, str_eq, ◌≤◌, ◌<◌, ◌^◌,
}
use trpc_go.Wire.BigEndian.{Bytes}
use trpc_go.Codec.Stream.{StreamProtocol}
use trpc_go.Queue.{got, puts, calls, looks, step, start, new, put_locked, get_locked}
use trpc_go.Stream.Client.{
  Response, Frame, Arrival, frame, eof, error_response, message_response, dispatch_round,
  handle_frame, recv_msg, context_canceled,
}
use trpc_go.Stream.Receiving.{
  ClientStream, new_client_stream, dispatches_response, queue_moves, Occurs, opened, moved,
  responses, is_over,
}
use trpc_go.Stream.Order.{received_in_order}
use trpc_go.Stream.Carried.{Carries, carries_data, carries_close, IsDistinct}
use trpc_go.Stream.Recv.{seen}
use trpc_go.Stream.Messages.{recv_all, messages_arrive}
use trpc_go.Stream.Handshake.{
  accept_init, set_send_control, new_receive_control, get_window_size, controls, handshake,
  windows_agree,
}
use trpc_go.Stream.Failing.{connection_fails}
use trpc_go.Stream.Dispatcher.{
  Reply, no_response, handle_error, ServerStream, Dispatcher, Service, Request, Serves, starts,
  handles, new_stream_dispatcher, loaded, load_server_stream, stream_handle_func,
  handle_by_stream_frame_type, handle_init, store_server_stream,
}
use trpc_go.Common.Dict.{lookup, insert}
use trpc_go.Common.Int.{pos}
use trpc_go.FlowControl.Send.{new_send_control}
use trpc_go.Stream.Served.{loaded_is_live}
use trpc_go.Stream.Single.{one_message_iff}

abbrev types : StreamProtocol
types = record { init_type = 1; data_type = 2; feedback_type = 3; close_type = 4; reset = 1 }

abbrev data_frame : Bytes → Frame
data_frame p = record { frame_type = 2; payload = p; rsp_err = none; increment = none }

abbrev end_frame : Frame
end_frame = record { frame_type = 4; payload = []; rsp_err = none; increment = none }

types-IsDistinct : IsDistinct types
types-IsDistinct = record {
  data_close = ground arith;
  data_feedback = ground arith;
  close_feedback = ground arith;
}

abbrev all_arrived : List Arrival
all_arrived = frame (data_frame (7 ∷ [])) ∷ frame end_frame ∷ []

-- A message and a Close frame have come, and RecvMsg has got both.
abbrev finished : ClientStream
finished = record {
  arrived = all_arrived;
  recv_queue = record {
    queue = record { list = []; notify = false; waiting = false; done = false };
    wakers = 0;
    getter = got (error_response eof);
    put = message_response (7 ∷ []) ∷ error_response eof ∷ [];
    taken = message_response (7 ∷ []) ∷ error_response eof ∷ [];
  };
  dispatching = false;
  closed = false;
  s_control = none;
}

calls_puts_nothing : (r : Response) → calls ≢ puts r
calls_puts_nothing r e = ground arith

looks_puts_nothing : (r : Response) → looks ≢ puts r
looks_puts_nothing r e = ground arith

finished-Occurs : Occurs types none finished
unfolding new_client_stream dispatch_round handle_frame step start new put_locked get_locked
finished-Occurs =
    let one = moved opened (
      dispatches_response _ (frame (data_frame (7 ∷ []))) (message_response (7 ∷ [])) _ refl refl
        refl) in
    let two =
      moved one (dispatches_response _ (frame end_frame) (error_response eof) _ refl refl refl) in
    let three = moved two (queue_moves _ calls _ calls_puts_nothing refl) in
    let four = moved three (queue_moves _ looks _ looks_puts_nothing refl) in
    let five = moved four (queue_moves _ calls _ calls_puts_nothing refl) in
    moved five (queue_moves _ looks _ looks_puts_nothing refl)

all_arrived-Carries : Carries types all_arrived ((7 ∷ []) ∷ []) eof
all_arrived-Carries =
    carries_data (data_frame (7 ∷ [])) (frame end_frame ∷ []) [] eof refl
      (carries_close end_frame [] refl)

-- The serializer of one byte.
abbrev one_byte : Bytes → Option ℕ
one_byte (b ∷ []) = some b
one_byte _ = none

received_in_order_example :
    (finished.recv_queue.taken ++ finished.recv_queue.queue.list ≡ responses types finished.arrived)
    × (finished.dispatching ≡ not (is_over types finished.arrived))
received_in_order_example = received_in_order types none finished finished-Occurs

messages_arrive_example :
    recv_all one_byte context_canceled (λ _. (false, false)) 0 finished.recv_queue.taken none
    ≡ (none, some 7) ∷ (some eof, none) ∷ []
messages_arrive_example =
    messages_arrive one_byte context_canceled (λ _. (false, false)) types none finished
      ((7 ∷ [], 7) ∷ []) eof none types-IsDistinct finished-Occurs all_arrived-Carries refl
      (refl, tt) tt

one_message_iff_example :
    (recv_msg one_byte false
        (seen context_canceled (λ _. (false, false)) 0 (get_elem? (responses types all_arrived) 0))
        (seen context_canceled (λ _. (false, false)) 1 (get_elem? (responses types all_arrived) 1))
        none).err
      ≡ none
    ↔ (p : Bytes) × (m : ℕ) × ((7 ∷ []) ∷ [] ≡ p ∷ []) × (one_byte p ≡ some m) × (eof ≡ eof)
one_message_iff_example =
    one_message_iff one_byte context_canceled (λ _. (false, false)) types all_arrived
      ((7 ∷ []) ∷ []) eof none types-IsDistinct all_arrived-Carries tt

windows_agree_example :
    (handshake false 70000 (λ _. true) 0 (λ _. true) ≡ (
      controls (get_window_size 0) (get_window_size 70000) (λ _. true),
      controls (get_window_size 70000) (get_window_size 0) (λ _. true),
    ))
    × (65535 ≤ get_window_size 70000)
    × (get_window_size 70000 < 2 ^ 32)
    × (65535 ≤ get_window_size 0)
    × (get_window_size 0 < 2 ^ 32)
windows_agree_example = windows_agree false 70000 0 (λ _. true) (λ _. true)

abbrev service : Service
service = record { max_window_size = 0; feedback = λ _. true; sends_init = λ _. true }

-- The Init frame of stream 5 on the connection "a".
abbrev init_request : Request
init_request = record {
  addr = b'a' ∷ [];
  stream_id = 5;
  frame_type = some 1;
  payload = [];
  rsp_err = none;
  window = some 70000;
  increment = none;
}

abbrev server_stream : ServerStream
server_stream = record {
  addr = b'a' ∷ [];
  stream_id = 5;
  received = [];
  done = false;
  failure = none;
  controls = record {
    r_control = some (record { buffer = 65535; un_updated = 0; fb = some (λ _. true) });
    s_control = some (record { window = pos 70000; ch = false; done = false });
  };
}

abbrev served : Dispatcher
served = record { table = (b'a' ∷ [], (5 ∷ [], 0) ∷ []) ∷ []; streams = server_stream ∷ [] }

served-Serves : Serves types service served
unfolding new_stream_dispatcher stream_handle_func handle_by_stream_frame_type handle_init
    accept_init set_send_control new_receive_control store_server_stream lookup insert
    get_window_size new_send_control
served-Serves = handles new_stream_dispatcher init_request starts

served-loaded : load_server_stream (b'a' ∷ []) 5 served.table ≡ loaded 0
unfolding load_server_stream lookup str_eq
served-loaded = refl

loaded_is_live_example :
    (s : ServerStream) × (get_elem? served.streams 0 ≡ some s)
    × (s.addr ≡ b'a' ∷ [])
    × (s.stream_id ≡ 5)
    × (s.done ≡ false)
loaded_is_live_example =
    loaded_is_live types service served (b'a' ∷ []) 5 0 served-Serves served-loaded

-- The same stream id on the connection "b" as well.
abbrev both : Dispatcher
both = record {
  table = (b'a' ∷ [], (5 ∷ [], 0) ∷ []) ∷ (b'b' ∷ [], (5 ∷ [], 1) ∷ []) ∷ [];
  streams = server_stream ∷ record server_stream { addr = b'b' ∷ [] } ∷ [];
}

both-Serves : Serves types service both
unfolding stream_handle_func handle_by_stream_frame_type handle_init accept_init set_send_control
    new_receive_control store_server_stream lookup insert get_window_size new_send_control str_eq
both-Serves = handles served (record init_request { addr = b'b' ∷ [] }) served-Serves

found_a : load_server_stream (b'a' ∷ []) 5 both.table ≡ loaded 0
unfolding load_server_stream lookup str_eq
found_a = refl

abbrev failed : Dispatcher × Reply
failed = handle_error (b'a' ∷ []) (some 141) both

connection_fails_example :
    (failed.1 ≡ no_response)
    × ((s : ServerStream) × (get_elem? (failed.0.streams) 0 ≡ some s)
        × (s.done ≡ true)
        × (s.failure ≡ some 141))
    × (load_server_stream (b'b' ∷ []) 5 (failed.0.table) ≡ loaded 1)
    × ((get_elem? (failed.0.streams) 1 ≡ get_elem? both.streams 1)
        ⊎ ((x : ServerStream) × (get_elem? both.streams 1 ≡ some x) × (x.addr ≡ b'a' ∷ [])))
unfolding load_server_stream lookup str_eq
connection_fails_example =
    connection_fails types service both 141 (b'a' ∷ []) 5 0 (b'b' ∷ []) 5 1 both-Serves found_a
