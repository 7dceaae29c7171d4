-- ===== src/Codec/Stream/Server.antt =====
-- codec_stream.go: ServerStreamCodec. Its table of initialised streams is passed along; the lock
-- makes each of its three operations one step.
use Prim.Native.Nat.{bit_and}
use trpc_go.Common.{ℕ, ◌%◌, ◌^◌, not, ◌||◌, [], Option, none, some, ◌==◌, if◌then◌else◌}
use trpc_go.Common.Dict.{merge}
use trpc_go.Wire.BigEndian.{Bytes}
use trpc_go.Codec.Outcome.{
  Outcome, ok, err, panic, unknown_frame_type, unmarshal_failed, encode_close_frame,
  uninitialized_meta,
}
use trpc_go.Codec.Frame.{Protocol, FrameHead, is_stream}
use trpc_go.Codec.Message.{msg_of, present, RspError, Msg}
use trpc_go.Codec.Server.{with_trans_info}
use trpc_go.Codec.Stream.{
  InitRequestMeta, InitResponseMeta, InitMeta, CloseMeta, StreamFrame, init_frame, close_frame,
  feedback_frame, StreamProtocol, StreamProto, StreamMsg, with_msg, with_frame, behind_head,
  frame_write, InitMetas, addr_to_key, find_init_meta, store_init_meta, delete_init_meta,
}
use trpc_go.Codec.Stream.Client.{
  Returned, by_type, on_head, unmarshalled, marshalled, callee_error, encode_feedback,
  empty_request,
}

abbrev pub Served : Type 0
Served = InitMetas × StreamMsg × Outcome Bytes

-- setInitMeta; `none` is its error.
unfoldable pub set_init_meta : InitMetas → StreamMsg → Option StreamMsg
set_init_meta metas sm = elim (find_init_meta (addr_to_key sm) sm.stream_id metas) [
  | none ↦ none
  | some req ↦ some (with_msg sm (record (sm.msg) { server_rpc_name = req.func }))
]

-- A step that does not touch the table.
abbrev pub unchanged : InitMetas → Returned → Served
unchanged metas (sm, result) = (metas, sm, result)

-- The decoding of the frames that want an initialised stream.
abbrev pub initialised : InitMetas → StreamMsg → (StreamMsg → Returned) → Served
initialised metas sm continue = elim (set_init_meta metas sm) [
  | none ↦ (metas, sm, err uninitialized_meta)
  | some sm' ↦ unchanged metas (continue sm')
]

-- updateMsg before it looks at the request's metadata
unfoldable pub read_request : Protocol → Msg → InitMeta → InitRequestMeta → Msg
read_request pb msg meta req = record msg {
  caller_service_name = req.caller;
  callee_service_name = req.callee;
  server_rpc_name = req.func;
  serialization_type = meta.content_type;
  compress_type = meta.content_encoding;
  dyeing = not (bit_and req.message_type pb.dyeing_message == 0);
}

-- updateMsg
unfoldable pub update_msg_by_init : Protocol → Msg → InitMeta → InitRequestMeta → Msg
update_msg_by_init pb msg meta req = with_trans_info (read_request pb msg meta req) req.trans_info

-- The message and the table after an Init frame.
unfoldable pub server_initialised :
    Protocol → InitMetas → StreamMsg → InitMeta → InitRequestMeta → InitMetas × StreamMsg
server_initialised pb metas sm meta req = (
  store_init_meta (addr_to_key sm) sm.stream_id req metas,
  record sm { msg = update_msg_by_init pb sm.msg meta req; frame = init_frame meta },
)

-- decodeInitFrame. updateMsg reads a field of the request part and panics if there is none; its
-- getters before that read nil as an empty request.
unfoldable pub server_decode_init : Protocol → StreamProto → InitMetas → StreamMsg → Bytes → Served
server_decode_init pb proto metas sm buf = elim (behind_head buf) [
  | panic ↦ (metas, sm, panic)
  | err e ↦ (metas, sm, err e)
  | ok part ↦ elim (proto.unmarshal_init part) [
    | none ↦ (metas, sm, err unmarshal_failed)
    | some meta ↦ elim (meta.request_meta) [
      | none ↦ (metas, with_msg sm (read_request pb sm.msg meta empty_request), panic)
      | some req ↦
          let (metas', sm') = server_initialised pb metas sm meta req in (metas', sm', ok [])
    ]
  ]
]

-- decodeCloseFrame once the frame is unmarshalled
unfoldable pub server_closed : StreamProtocol → StreamMsg → CloseMeta → StreamMsg
server_closed sp sm close = record sm {
  msg = record (sm.msg) {
    server_rsp_err =
        if (close.close_type == sp.reset) || not (close.ret == 0)
        then some (callee_error close.ret close.msg)
        else sm.msg.server_rsp_err;
  };
  frame = close_frame close;
}

-- setStreamCloseMetaData
unfoldable pub set_stream_close_meta_data : Msg → CloseMeta → CloseMeta
set_stream_close_meta_data msg close = record close {
  trans_info = merge close.trans_info msg.server_meta_data;
}

-- buildResetFrame; the frame head is a pointer that the message holds.
unfoldable pub build_reset_frame : StreamProtocol → StreamMsg → FrameHead → RspError → StreamMsg
build_reset_frame sp sm h e = record sm {
  msg = record (sm.msg) { frame_head = present (record h { stream_frame_type = sp.close_type }) };
  frame = close_frame (record {
    close_type = sp.reset;
    ret = e.code;
    msg = msg_of e;
    message_type = 0;
    trans_info = [];
    func_ret = 0;
  });
}

-- getStreamInitMeta with what encodeInitFrame writes into it
unfoldable pub init_response : Msg → StreamFrame → InitMeta
init_response msg frame =
    let rsp_meta : InitResponseMeta = elim (msg.server_rsp_err) [
      | some e ↦ record { ret = e.code; error_msg = e.msg }
      | none ↦ record { ret = 0; error_msg = [] }
    ] in
    elim frame [
      | init_frame meta ↦ record meta {
        content_type = msg.serialization_type % 2 ^ 32;
        content_encoding = msg.compress_type % 2 ^ 32;
        response_meta = some rsp_meta;
      }
      | _ ↦ record {
        request_meta = none;
        response_meta = some rsp_meta;
        init_window_size = 0;
        content_type = msg.serialization_type % 2 ^ 32;
        content_encoding = msg.compress_type % 2 ^ 32;
      }
    ]

-- The message holds the init metadata only if it did before.
unfoldable pub stored_init : StreamFrame → InitMeta → StreamFrame
stored_init (init_frame old) meta = init_frame meta
stored_init frame meta = frame

module _ (pb : Protocol) (sp : StreamProtocol) (proto : StreamProto) where
  unfoldable pub server_decode_frame : InitMetas → FrameHead → StreamMsg → Bytes → Served
  server_decode_frame metas h sm buf =
      by_type sp (h.stream_frame_type) (server_decode_init pb proto metas sm buf)
        (initialised metas sm (λ sm'. (sm', behind_head buf)))
        (initialised metas sm (λ sm'.
          unmarshalled proto.unmarshal_close sm' buf
            (λ close. (server_closed sp sm' close, ok []))))
        (initialised metas sm (λ sm'.
          unmarshalled proto.unmarshal_feedback sm' buf
            (λ feedback. (with_frame sm' (feedback_frame feedback), ok []))))
        (metas, sm, err unknown_frame_type)

  -- ServerStreamCodec.Decode
  unfoldable pub server_stream_decode : InitMetas → StreamMsg → Bytes → Served
  server_stream_decode metas sm buf =
      on_head sm.msg.frame_head
        (λ h.
          if not (is_stream pb h)
          then (metas, sm, err unknown_frame_type)
          else server_decode_frame metas h (record sm { stream_id = h.stream_id }) buf)
        (metas, sm, err unknown_frame_type)

  -- encodeCloseFrame; the deferred deleteInitMeta runs on the stream id that the message has then.
  unfoldable pub server_encode_close_frame : ℕ → InitMetas → FrameHead → StreamMsg → Served
  server_encode_close_frame m metas h sm = elim (sm.frame) [
    | close_frame close ↦
        let sent = set_stream_close_meta_data sm.msg close in
        (
          delete_init_meta (addr_to_key sm) h.stream_id metas,
          record sm { stream_id = h.stream_id; frame = close_frame sent },
          marshalled pb m h (proto.marshal_close sent),
        )
    | _ ↦ (delete_init_meta (addr_to_key sm) sm.stream_id metas, sm, err encode_close_frame)
  ]

  -- encodeDataFrame
  unfoldable pub server_encode_data_frame : ℕ → InitMetas → FrameHead → StreamMsg → Bytes → Served
  server_encode_data_frame m metas h sm buf = elim (sm.msg.server_rsp_err) [
    | none ↦ (metas, sm, frame_write pb m h buf)
    | some e ↦
        let reset : FrameHead = record h { stream_frame_type = sp.close_type } in
        server_encode_close_frame m metas reset (build_reset_frame sp sm h e)
  ]

  -- encodeInitFrame. If the table's entry points to the metadata of the message, it changes with them,
  -- but not its request part, which the model has of it.
  unfoldable pub server_encode_init_frame : ℕ → FrameHead → StreamMsg → Returned
  server_encode_init_frame m h sm =
      let rsp = init_response sm.msg sm.frame in
      (with_frame sm (stored_init sm.frame rsp), marshalled pb m h (proto.marshal_init rsp))

  unfoldable pub server_encode_frame : ℕ → InitMetas → FrameHead → StreamMsg → Bytes → Served
  server_encode_frame m metas h sm buf =
      by_type sp (h.stream_frame_type) (unchanged metas (server_encode_init_frame m h sm))
        (server_encode_data_frame m metas h sm buf) (server_encode_close_frame m metas h sm)
        (unchanged metas (encode_feedback pb sp proto m h sm)) (metas, sm, err unknown_frame_type)

  -- ServerStreamCodec.Encode
  unfoldable pub server_stream_encode : ℕ → InitMetas → StreamMsg → Bytes → Served
  server_stream_encode m metas sm buf =
      on_head sm.msg.frame_head
        (λ h.
          if not (is_stream pb h)
          then (metas, sm, err unknown_frame_type)
          else server_encode_frame m metas h sm buf)
        (metas, sm, err unknown_frame_type)
