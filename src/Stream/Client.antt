-- ===== src/Stream/Client.antt =====
-- stream/client.go: what dispatch does with what arrives, and RecvMsg. A message is unmarshalled by
-- the serializer that the caller configured.
use trpc_go.Common.{ℕ, ◌%◌, ◌^◌, Bool, [], Option, none, some, length, ◌==◌, if◌then◌else◌}
use trpc_go.Wire.BigEndian.{Bytes}
use trpc_go.Codec.Stream.{StreamProtocol}
use trpc_go.FlowControl.Receive.{ReceiveControl, on_recv}
use trpc_go.FlowControl.Send.{SendControl, add_window, signal}

-- The errors that RecvMsg returns: io.EOF; that of a Reset; RetClientStreamReadEnd around an error
-- of the transport; frameHeadInvalid; RetClientDecodeFail; RetClientCanceled; RetClientTimeout;
-- that of the feedback function; and the violation of the protocol.
pub data StreamError : Type 0 where
  eof head_invalid decode_fail canceled timed_out feedback_fails violation : StreamError
  reset read_end : ℕ → StreamError

-- response
pub record Response : Type 0 where
  pub data_bytes : Bytes
  pub err : Option StreamError

-- What stream.Recv returns, with what it has left in the message: the frame type of the head, the
-- payload, ClientRspErr and the increment of a feedback frame.
pub record Frame : Type 0 where
  pub frame_type : ℕ
  pub payload : Bytes
  pub rsp_err : Option ℕ
  pub increment : Option ℕ

-- An error, a message without a trpc frame head, or a frame.
pub data Arrival : Type 0 where
  fails : ℕ → Arrival
  headless : Arrival
  frame : Frame → Arrival

-- What a round of dispatch does: the response it puts, the error on which it returns, and the
-- control of the sender.
pub record Handled : Type 0 where
  pub puts_response : Option Response
  pub returns : Option StreamError
  pub s_control : Option SendControl

-- UpdateWindow
unfoldable pub update_window : ℕ → SendControl → SendControl
update_window n s =
    let (added, wakes_up) = add_window n s in if wakes_up then signal added else added

-- handleFeedback
unfoldable pub handle_feedback : Option ℕ → Option SendControl → Option SendControl
handle_feedback (some n) (some s) = some (update_window n s)
handle_feedback (some n) none = none
handle_feedback none s = s

abbrev pub error_response : StreamError → Response
error_response e = record { data_bytes = []; err = some e }

abbrev pub message_response : Bytes → Response
message_response payload = record { data_bytes = payload; err = none }

-- The case of a Close frame: a Reset has an error.
abbrev pub reset_or_eof : Option ℕ → StreamError
reset_or_eof none = eof
reset_or_eof (some e) = reset e

-- handleFrame
unfoldable pub handle_frame : StreamProtocol → Frame → Option SendControl → Handled
handle_frame pb f s =
    if f.frame_type == pb.data_type
    then record { puts_response = some (message_response f.payload); returns = none; s_control = s }
    else if f.frame_type == pb.close_type
    then record {
      puts_response = some (error_response (reset_or_eof f.rsp_err));
      returns = some (reset_or_eof f.rsp_err);
      s_control = s;
    }
    else if f.frame_type == pb.feedback_type
    then record { puts_response = none; returns = none; s_control = handle_feedback f.increment s }
    else record { puts_response = none; returns = none; s_control = s }

-- A round of the loop of dispatch.
unfoldable pub dispatch_round : StreamProtocol → Arrival → Option SendControl → Handled
dispatch_round pb (fails e) s = record {
  puts_response = some (error_response (read_end e));
  returns = some (read_end e);
  s_control = s;
}
dispatch_round pb headless s = record {
  puts_response = some (error_response head_invalid);
  returns = some head_invalid;
  s_control = s;
}
dispatch_round pb (frame f) s = handle_frame pb f s

-- ctx.Err() behind Done
pub data ContextError : Type 0 where
  context_canceled deadline_exceeded other_error : ContextError

-- dealContextDone
unfoldable pub deal_context_done : ContextError → Option StreamError
deal_context_done context_canceled = some canceled
deal_context_done deadline_exceeded = some timed_out
deal_context_done other_error = none

-- recvFlowCtl; `closed` has what the two loads of the flag give.
unfoldable pub recv_flow_ctl :
    Bool × Bool → ℕ → Option ReceiveControl → Option ReceiveControl × Option StreamError
recv_flow_ctl closed n none = (none, none)
recv_flow_ctl (before, after) n (some r) =
    let received = on_recv (n % 2 ^ 32) r in
    if before
    then (some r, none)
    else if received.succeeded
    then (some (received.control), none)
    else if after
    then (some (received.control), none)
    else (some (received.control), some feedback_fails)

-- What recv finds outside of itself: what Get returns, ctx.Err() and the loads of closed.
pub record Seen : Type 0 where
  pub gets : Option Response
  pub ctx_err : ContextError
  pub closed : Bool × Bool

-- What recv leaves: the control, the error it returns, and what m holds now, if it was written.
pub record Result {ℓ} (M : Type ℓ) : Type ℓ where
  pub r_control : Option ReceiveControl
  pub err : Option StreamError
  pub message : Option M

-- What RecvMsg makes of the second recv where the server does not stream.
unfoldable pub expect_eof : Option StreamError → Option StreamError
expect_eof none = some violation
expect_eof (some eof) = none
expect_eof (some e) = some e

-- The second recv writes to the same m as the first.
abbrev pub last_written {ℓ} : {M : Type ℓ} → Option M → Option M → Option M
last_written m none = m
last_written _ (some m) = some m

module _ {ℓ} {M : Type ℓ} (unmarshal : Bytes → Option M) where
  -- recv from its call of codec.Unmarshal on
  unfoldable pub decode_message : Bytes → Option ReceiveControl → Result M
  decode_message payload r = elim (unmarshal payload) [
    | none ↦ record { r_control = r; err = some decode_fail; message = none }
    | some m ↦ record { r_control = r; err = none; message = some m }
  ]

  -- recv, with the response that it got
  unfoldable pub recv_response : Bool × Bool → Response → Option ReceiveControl → Result M
  recv_response closed resp r = elim (resp.err) [
    | some e ↦ record { r_control = r; err = some e; message = none }
    | none ↦
        (let (controlled, failed) = recv_flow_ctl closed (length (resp.data_bytes)) r in
          elim failed [
            | some e ↦ record { r_control = controlled; err = some e; message = none }
            | none ↦ decode_message resp.data_bytes controlled
          ])
  ]

  -- recv
  unfoldable pub recv : Seen → Option ReceiveControl → Result M
  recv seen r = elim (seen.gets) [
    | none ↦ record { r_control = r; err = deal_context_done (seen.ctx_err); message = none }
    | some resp ↦ recv_response seen.closed resp r
  ]

  -- RecvMsg, with ServerStreams of the description
  unfoldable pub recv_msg : Bool → Seen → Seen → Option ReceiveControl → Result M
  recv_msg server_streams first second r =
      let one = recv first r in
      let two = recv second (one.r_control) in
      elim (one.err) [
        | some e ↦ one
        | none ↦
            (if server_streams then one else record {
              r_control = two.r_control;
              err = expect_eof (two.err);
              message = last_written one.message two.message;
            })
      ]
