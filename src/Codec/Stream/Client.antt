-- ===== src/Codec/Stream/Client.antt =====
-- codec_stream.go: ClientStreamCodec.
use Prim.Native.Nat.{bit_or}
use trpc_go.Common.{ℕ, ◌%◌, ◌^◌, not, ◌||◌, [], Option, none, some, ◌==◌, if◌then◌else◌}
use trpc_go.Common.Dict.{merge}
use trpc_go.Wire.BigEndian.{Bytes}
use trpc_go.Codec.Outcome.{
  Outcome, ok, err, panic, unknown_frame_type, unmarshal_failed, marshal_failed, encode_close_frame,
  encode_feedback_frame,
}
use trpc_go.Codec.Frame.{Protocol, FrameHead, is_stream}
use trpc_go.Codec.Message.{Head, present, absent, other, business, callee_framework, RspError, Msg}
use trpc_go.Codec.Client.{set_client_trans_info, update_caller_service_name}
use trpc_go.Codec.Stream.{
  InitRequestMeta, InitResponseMeta, InitMeta, CloseMeta, StreamFrame, init_frame, close_frame,
  feedback_frame, StreamProtocol, StreamProto, StreamMsg, with_msg, with_frame, behind_head,
  frame_write,
}

abbrev pub Returned : Type 0
Returned = StreamMsg × Outcome Bytes

-- A switch over the frame type that the four methods of each codec share.
unfoldable pub by_type {ℓ} : {A : Type ℓ} → StreamProtocol → ℕ → A → A → A → A → A → A
by_type sp t init plain close feedback unknown =
    if t == sp.init_type
    then init
    else if t == sp.data_type
    then plain
    else if t == sp.close_type
    then close
    else if t == sp.feedback_type
    then feedback
    else unknown

-- msg.FrameHead().(*FrameHead) with its `ok`
abbrev pub on_head {ℓ} : {A : Type ℓ} → Head FrameHead → (FrameHead → A) → A → A
on_head (present h) with_head no_head = with_head h
on_head absent with_head no_head = no_head
on_head other with_head no_head = no_head

-- What a result of proto.Unmarshal of the bytes behind the head is handed to.
abbrev pub unmarshalled {ℓ} :
    {A : Type ℓ} → (Bytes → Option A) → StreamMsg → Bytes → (A → Returned) → Returned
unmarshalled unmarshal sm buf continue = elim (behind_head buf) [
  | panic ↦ (sm, panic)
  | err e ↦ (sm, err e)
  | ok part ↦ elim (unmarshal part) [
    | none ↦ (sm, err unmarshal_failed)
    | some meta ↦ continue meta
  ]
]

-- What a result of proto.Marshal is handed to.
abbrev pub marshalled : Protocol → ℕ → FrameHead → Option Bytes → Outcome Bytes
marshalled pb m h none = err marshal_failed
marshalled pb m h (some stream_buf) = frame_write pb m h stream_buf

unfoldable pub callee_error : ℕ → Bytes → RspError
callee_error code msg = record { kind = callee_framework; code = code; msg = msg; chained = none }

-- updateClientStreamCloseMeta
unfoldable pub update_client_stream_close_meta : Msg → CloseMeta → Msg
update_client_stream_close_meta msg close =
    let answered : Msg = elim (msg.client_rsp_head) [
      | present rsp ↦ record msg {
        client_rsp_head = present (record rsp {
          ret = close.ret;
          func_ret = close.func_ret;
          error_msg = close.msg;
          message_type = close.message_type;
          trans_info = close.trans_info;
        });
      }
      | _ ↦ msg
    ] in
    record answered { client_meta_data = merge answered.client_meta_data close.trans_info }

-- The error of a Close frame, if it carries one.
unfoldable pub close_error : StreamProtocol → CloseMeta → Option RspError → Option RspError
close_error sp close old =
    if (close.close_type == sp.reset) || not (close.ret == 0)
    then some (callee_error close.ret close.msg)
    else if not (close.func_ret == 0)
    then some (record { kind = business; code = close.func_ret; msg = close.msg; chained = none })
    else old

-- decodeCloseFrame once the frame is unmarshalled
unfoldable pub client_closed : StreamProtocol → StreamMsg → CloseMeta → StreamMsg
client_closed sp sm close =
    let updated = update_client_stream_close_meta sm.msg close in
    record sm {
      msg = record updated { client_rsp_err = close_error sp close updated.client_rsp_err };
      frame = close_frame close;
    }

-- initMeta.GetResponseMeta(): its getters return zero values on nil.
abbrev pub response_meta_of : InitMeta → InitResponseMeta
response_meta_of meta = elim (meta.response_meta) [
  | some r ↦ r
  | none ↦ record { ret = 0; error_msg = [] }
]

-- decodeInitFrame once the frame is unmarshalled
unfoldable pub client_initialised : StreamMsg → InitMeta → StreamMsg
client_initialised sm meta =
    let rsp = response_meta_of meta in
    record sm {
      msg = record (sm.msg) {
        compress_type = meta.content_encoding;
        serialization_type = meta.content_type;
        client_rsp_err =
            if not (rsp.ret == 0)
            then some (callee_error rsp.ret rsp.error_msg)
            else sm.msg.client_rsp_err;
      };
      frame = init_frame meta;
    }

abbrev pub empty_request : InitRequestMeta
empty_request = record { caller = []; callee = []; func = []; message_type = 0; trans_info = [] }

abbrev pub empty_init : InitMeta
empty_init = record {
  request_meta = none;
  response_meta = none;
  init_window_size = 0;
  content_type = 0;
  content_encoding = 0;
}

-- The init metadata to send, its request part, and how the message holds it afterwards: through
-- the pointer if it held one before. Init metadata without a request part makes encodeInitFrame
-- panic, which is `none`.
unfoldable pub init_to_send :
    StreamFrame → Option (InitMeta × InitRequestMeta × (InitMeta → StreamFrame))
init_to_send (init_frame meta) = elim (meta.request_meta) [
  | none ↦ none
  | some req ↦ some (meta, req, init_frame)
]
init_to_send frame = some (empty_init, empty_request, λ meta. frame)

module _ (pb : Protocol) (sp : StreamProtocol) (proto : StreamProto) where
  -- The bodies of the frames that carry only metadata are nil.
  unfoldable pub client_decode_frame : FrameHead → StreamMsg → Bytes → Returned
  client_decode_frame h sm buf =
      by_type sp (h.stream_frame_type)
        (unmarshalled proto.unmarshal_init sm buf (λ meta. (client_initialised sm meta, ok [])))
        (sm, behind_head buf)
        (unmarshalled proto.unmarshal_close sm buf (λ close. (client_closed sp sm close, ok [])))
        (unmarshalled proto.unmarshal_feedback sm buf
          (λ feedback. (with_frame sm (feedback_frame feedback), ok [])))
        (sm, err unknown_frame_type)

  -- ClientStreamCodec.Decode
  unfoldable pub client_stream_decode : StreamMsg → Bytes → Returned
  client_stream_decode sm buf =
      on_head sm.msg.frame_head
        (λ h.
          if not (is_stream pb h)
          then (sm, err unknown_frame_type)
          else client_decode_frame h (record sm { stream_id = h.stream_id }) buf)
        (sm, err unknown_frame_type)

  -- The request part that encodeInitFrame writes.
  unfoldable pub init_request : Msg → InitRequestMeta → InitRequestMeta
  init_request msg req = record {
    caller = msg.caller_service_name;
    callee = msg.callee_service_name;
    func = msg.client_rpc_name;
    message_type =
        if msg.dyeing then bit_or req.message_type pb.dyeing_message else req.message_type;
    trans_info = set_client_trans_info msg req.trans_info;
  }

  -- encodeInitFrame from the init metadata and its request part on; `store` puts the metadata back
  -- into a message that holds it. The default name is that of the process.
  unfoldable pub client_encode_init :
      ℕ
      → Bytes
      → FrameHead
      → StreamMsg
      → InitMeta
      → InitRequestMeta
      → (InitMeta → StreamFrame)
      → Returned
  client_encode_init m default_caller h sm meta req store =
      let named = update_caller_service_name sm.msg default_caller in
      let filled : InitMeta = record meta {
        request_meta = some (init_request named req);
        content_type = named.serialization_type % 2 ^ 32;
        content_encoding = named.compress_type % 2 ^ 32;
      } in
      (
        record sm { msg = named; frame = store filled },
        marshalled pb m h (proto.marshal_init filled),
      )

  -- encodeInitFrame
  unfoldable pub client_encode_init_frame : ℕ → Bytes → FrameHead → StreamMsg → Returned
  client_encode_init_frame m default_caller h sm = elim (init_to_send sm.frame) [
    | none ↦ (with_msg sm (update_caller_service_name sm.msg default_caller), panic)
    | some (meta, req, store) ↦ client_encode_init m default_caller h sm meta req store
  ]

  -- encodeCloseFrame
  unfoldable pub client_encode_close_frame : ℕ → FrameHead → StreamMsg → Returned
  client_encode_close_frame m h sm = elim (sm.frame) [
    | close_frame close ↦ (sm, marshalled pb m h (proto.marshal_close close))
    | _ ↦ (sm, err encode_close_frame)
  ]

  -- encodeFeedbackFrame, which the two codecs share
  unfoldable pub encode_feedback : ℕ → FrameHead → StreamMsg → Returned
  encode_feedback m h sm = elim (sm.frame) [
    | feedback_frame feedback ↦ (sm, marshalled pb m h (proto.marshal_feedback feedback))
    | _ ↦ (sm, err encode_feedback_frame)
  ]

  unfoldable pub client_encode_frame : ℕ → Bytes → FrameHead → StreamMsg → Bytes → Returned
  client_encode_frame m default_caller h sm req_buf =
      by_type sp (h.stream_frame_type) (client_encode_init_frame m default_caller h sm)
        (sm, frame_write pb m h req_buf) (client_encode_close_frame m h sm) (encode_feedback m h sm)
        (sm, err unknown_frame_type)

  -- ClientStreamCodec.Encode
  unfoldable pub client_stream_encode : ℕ → Bytes → StreamMsg → Bytes → Returned
  client_stream_encode m default_caller sm req_buf =
      on_head sm.msg.frame_head
        (λ h.
          if not (is_stream pb h)
          then (sm, err unknown_frame_type)
          else client_encode_frame m default_caller h sm req_buf)
        (sm, err unknown_frame_type)
