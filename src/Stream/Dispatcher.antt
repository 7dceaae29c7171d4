-- ===== src/Stream/Dispatcher.antt =====
-- stream/server.go: the dispatcher of streams. A stream is a pointer, here its number in the list of
-- the streams that were made; the handler of the service holds it beside the table. The key of a
-- stream id in the table is the one-element text. The handling of a message is a step, and so is the
-- end of a handler.
use trpc_go.Common.{
  ℕ, zero, suc, ◌≡◌, Bool, true, false, List, [], ◌∷◌, ◌++◌, Option, none, some, length, ◌==◌,
  if◌then◌else◌, get_elem?,
}
use trpc_go.Common.Dict.{Key, Dict, lookup, insert, delete}
use trpc_go.Wire.BigEndian.{Bytes}
use trpc_go.Codec.Stream.{StreamProtocol}
use trpc_go.Stream.Client.{Response, error_response, message_response, reset_or_eof, update_window}
use trpc_go.Stream.Handshake.{Controls, accept_init, get_window_size, new_receive_control}

-- serverStream, with the address it is stored under; `received` has what was put in its queue, `done`
-- whether the channel is closed, and `failure` what err holds.
pub record ServerStream : Type 0 where
  pub addr : Key
  pub stream_id : ℕ
  pub received : List Response
  pub done : Bool
  pub failure : Option ℕ
  pub controls : Controls

-- streamDispatcher, and the streams that were made.
pub record Dispatcher : Type 0 where
  pub table : Dict (Dict ℕ)
  pub streams : List ServerStream

-- What a handler returns: ErrServerNoResponse or an error.
pub data Reply : Type 0 where
  no_response no_such_addr no_such_stream_id unknown_frame_type frame_invalid : Reply
  frame_head_not_in_msg init_fails : Reply

-- storeServerStream
unfoldable pub store_server_stream : Key → ℕ → ℕ → Dict (Dict ℕ) → Dict (Dict ℕ)
store_server_stream addr id h t = elim (lookup addr t) [
  | none ↦ insert addr (insert (id ∷ []) h []) t
  | some streams ↦ insert addr (insert (id ∷ []) h streams) t
]

-- deleteServerStream
unfoldable pub delete_server_stream : Key → ℕ → Dict (Dict ℕ) → Dict (Dict ℕ)
delete_server_stream addr id t = elim (lookup addr t) [
  | none ↦ t
  | some streams ↦
      let rest = delete (id ∷ []) streams in
      if length rest == 0 then delete addr t else insert addr rest t
]

-- What loadServerStream returns.
pub data Loaded : Type 0 where
  missing : Reply → Loaded
  loaded : ℕ → Loaded

-- loadServerStream
unfoldable pub load_server_stream : Key → ℕ → Dict (Dict ℕ) → Loaded
load_server_stream addr id t = elim (lookup addr t) [
  | none ↦ missing no_such_addr
  | some streams ↦ (elim (lookup (id ∷ []) streams) [
    | none ↦ missing no_such_stream_id
    | some h ↦ loaded h
  ])
]

-- A write through the pointer of a stream.
unfoldable pub change : (ServerStream → ServerStream) → ℕ → List ServerStream → List ServerStream
change f n [] = []
change f zero (s ∷ ss) = f s ∷ ss
change f (suc n) (s ∷ ss) = s ∷ change f n ss

abbrev pub with_streams : Dispatcher → List ServerStream → Dispatcher
with_streams d ss = record d { streams = ss }

-- recvQueue.Put
abbrev pub receive : Response → ServerStream → ServerStream
receive r s = record s { received = s.received ++ (r ∷ []) }

-- handleData
unfoldable pub handle_data : Key → ℕ → Bytes → Dispatcher → Dispatcher × Reply
handle_data addr id req d = elim (load_server_stream addr id d.table) [
  | missing e ↦ (d, e)
  | loaded h ↦ (with_streams d (change (receive (message_response req)) h d.streams), no_response)
]

-- handleClose, with ServerRspErr
unfoldable pub handle_close : Key → ℕ → Option ℕ → Dispatcher → Dispatcher × Reply
handle_close addr id rsp_err d = elim (load_server_stream addr id d.table) [
  | missing e ↦ (d, no_response)
  | loaded h ↦ (
    with_streams d (change (receive (error_response (reset_or_eof rsp_err))) h d.streams),
    no_response,
  )
]

-- sControl.UpdateWindow, if there is one
abbrev pub with_increment : ℕ → ServerStream → ServerStream
with_increment n s = elim (s.controls.s_control) [
  | none ↦ s
  | some c ↦ record s { controls = record (s.controls) { s_control = some (update_window n c) } }
]

-- handleFeedback, with the increment if the frame is a feedback frame
unfoldable pub handle_feedback_frame : Key → ℕ → Option ℕ → Dispatcher → Dispatcher × Reply
handle_feedback_frame addr id increment d = elim (load_server_stream addr id d.table) [
  | missing e ↦ (d, e)
  | loaded h ↦ (elim increment [
    | none ↦ (d, frame_invalid)
    | some n ↦ (with_streams d (change (with_increment n) h d.streams), no_response)
  ])
]

-- The two writes of handleError to a stream; closing done is guarded by once.
abbrev pub fail : Option ℕ → ServerStream → ServerStream
fail e s = record s { failure = e; done = true }

-- The loop of handleError, over the entries of the map; it deletes them too, and the map goes behind
-- the loop.
unfoldable pub fail_all : Option ℕ → Dict ℕ → Dict ℕ → List ServerStream → List ServerStream
fail_all e streams [] ss = ss
fail_all e streams ((k, _) ∷ rest) ss = elim (lookup k streams) [
  | none ↦ fail_all e streams rest ss
  | some h ↦ fail_all e streams rest (change (fail e) h ss)
]

-- handleError
unfoldable pub handle_error : Key → Option ℕ → Dispatcher → Dispatcher × Reply
handle_error addr rsp_err d = elim (lookup addr d.table) [
  | none ↦ (d, no_such_addr)
  | some streams ↦ (
    record d { streams = fail_all rsp_err streams streams d.streams; table = delete addr d.table },
    no_response,
  )
]

-- newServerStream
abbrev pub new_server_stream : Key → ℕ → Controls → ServerStream
new_server_stream addr id c = record {
  addr = addr;
  stream_id = id;
  received = [];
  done = false;
  failure = none;
  controls = c;
}

-- The options of the service, the feedback function of its streams, and whether the codec and the
-- transport take the Init frame of a stream with this window.
pub record Service : Type 0 where
  pub max_window_size : ℕ
  pub feedback : ℕ → Bool
  pub sends_init : ℕ → Bool

-- What handleInit leaves behind storeServerStream, for a stream with these controls.
abbrev pub stored : Key → ℕ → Controls → Dispatcher → Dispatcher
stored addr id c d = record {
  table = store_server_stream addr id (length d.streams) d.table;
  streams = d.streams ++ (new_server_stream addr id c ∷ []);
}

-- handleInit, with the window of the client's Init frame, if the frame is one
unfoldable pub handle_init : Service → Key → ℕ → Option ℕ → Dispatcher → Dispatcher × Reply
handle_init sv addr id none d =
    let w = get_window_size sv.max_window_size in
    (
      stored addr id
          (record { r_control = some (new_receive_control w sv.feedback); s_control = none }) d,
      frame_invalid,
    )
handle_init sv addr id (some cw) d =
    let (controls, w) = accept_init sv.max_window_size sv.feedback cw in
    (stored addr id controls d, if sv.sends_init w then no_response else init_fails)

-- What StreamHandleFunc finds in the message: the key of its two addresses, the stream id, the frame
-- type if there is a head, ServerRspErr, and what an Init or a Feedback frame holds.
pub record Request : Type 0 where
  pub addr : Key
  pub stream_id : ℕ
  pub frame_type : Option ℕ
  pub payload : Bytes
  pub rsp_err : Option ℕ
  pub window : Option ℕ
  pub increment : Option ℕ

-- handleByStreamFrameType
unfoldable pub handle_by_stream_frame_type :
    StreamProtocol → Service → ℕ → Request → Dispatcher → Dispatcher × Reply
handle_by_stream_frame_type pb sv t q d =
    if t == pb.init_type
    then handle_init sv q.addr q.stream_id q.window d
    else if t == pb.data_type
    then handle_data q.addr q.stream_id q.payload d
    else if t == pb.close_type
    then handle_close q.addr q.stream_id q.rsp_err d
    else if t == pb.feedback_type
    then handle_feedback_frame q.addr q.stream_id q.increment d
    else (d, unknown_frame_type)

-- StreamHandleFunc
unfoldable pub stream_handle_func :
    StreamProtocol → Service → Request → Dispatcher → Dispatcher × Reply
stream_handle_func pb sv q d = elim (q.frame_type) [
  | some t ↦ handle_by_stream_frame_type pb sv t q d
  | none ↦ (elim (q.rsp_err) [
    | some e ↦ handle_error q.addr (some e) d
    | none ↦ (d, frame_head_not_in_msg)
  ])
]

-- The end of startStreamHandler: done is closed, if it is not yet, and an error of CloseSend is kept.
abbrev pub close_stream : Option ℕ → ServerStream → ServerStream
close_stream none s = record s { done = true }
close_stream (some e) s = record s { failure = some e; done = true }

-- The end of the handler of the stream with this number, address and id.
unfoldable pub end_handler : Key → ℕ → ℕ → Option ℕ → Dispatcher → Dispatcher
end_handler addr id h e d = record {
  table = delete_server_stream addr id d.table;
  streams = change (close_stream e) h d.streams;
}

unfoldable pub new_stream_dispatcher : Dispatcher
new_stream_dispatcher = record { table = []; streams = [] }

-- The states of a dispatcher: a message is handled, or the handler of a stream ends, at any time.
pub data Serves (pb : StreamProtocol) (sv : Service) : Dispatcher → Type 0 where
  starts : Serves pb sv new_stream_dispatcher
  handles :
      (d : Dispatcher) (q : Request)
      → Serves pb sv d
      → Serves pb sv ((stream_handle_func pb sv q d).0)
  handler_ends :
      (d : Dispatcher) (h : ℕ) (s : ServerStream) (e : Option ℕ)
      → Serves pb sv d
      → get_elem? d.streams h ≡ some s
      → Serves pb sv (end_handler s.addr s.stream_id h e d)
