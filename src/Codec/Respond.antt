-- ===== src/Codec/Respond.antt =====
-- codec.go: ServerCodec.Encode, with the answer that it falls back on when the frame cannot be built.
use trpc_go.Common.{ℕ, ◌%◌, ◌^◌, not, [], Option, none, some, if◌then◌else◌}
use trpc_go.Common.Dict.{merge}
use trpc_go.Wire.BigEndian.{Bytes}
use trpc_go.Codec.Outcome.{
  CodecError, Outcome, err, head_overflows_uint16, head_overflows_uint32, frame_too_large,
  unknown_frame_type, marshal_failed, read_attachment_failed,
}
use trpc_go.Codec.Frame.{
  Protocol, FrameHead, construct, is_stream, is_unary, new_default_unary_frame_head,
}
use trpc_go.Codec.Message.{
  ResponseProtocol, present, framework, RspError, Attachment, no_attachment, broken, readable, Msg,
}
use trpc_go.Codec.Server.{Proto, length_u32, new_response_protocol, zero_response}

unfoldable pub load_or_store_default_unary_frame_head : Protocol → Msg → FrameHead × Msg
load_or_store_default_unary_frame_head pb msg = elim msg.frame_head [
  | present h ↦ (h, msg)
  | _ ↦ let h = new_default_unary_frame_head pb in (h, record msg { frame_head = present h })
]

-- The error that the handler returned, as a return code.
unfoldable pub with_rsp_err : ResponseProtocol → Option RspError → ResponseProtocol
with_rsp_err rsp none = rsp
with_rsp_err rsp (some e) = elim e.kind [
  | framework ↦ record rsp { error_msg = e.msg; ret = e.code }
  | _ ↦ record rsp { error_msg = e.msg; func_ret = e.code }
]

-- The response head to start from: the stored one, one made for the stored request, or a new one.
unfoldable pub response_of : Protocol → Msg → ResponseProtocol
unfolding new_response_protocol
response_of pb msg = elim msg.server_rsp_head [
  | present rsp ↦ rsp
  | _ ↦ elim msg.server_req_head [ present req ↦ new_response_protocol pb req | _ ↦ zero_response ]
]

unfoldable pub get_and_init_response_protocol : Protocol → Msg → ResponseProtocol
get_and_init_response_protocol pb msg =
    let rsp = response_of pb msg in
    let typed : ResponseProtocol = record rsp {
      content_type = msg.serialization_type % 2 ^ 32;
      content_encoding = msg.compress_type % 2 ^ 32;
    } in
    let answered = with_rsp_err typed msg.server_rsp_err in
    record answered { trans_info = merge answered.trans_info msg.server_meta_data }

-- The response head is a pointer: if the message holds it, its fields change there too.
unfoldable pub store_rsp : Msg → ResponseProtocol → Msg
store_rsp msg rsp = elim msg.server_rsp_head [
  | present _ ↦ record msg { server_rsp_head = present rsp }
  | _ ↦ msg
]

abbrev pub read_all : Attachment → Option Bytes
read_all no_attachment = some []
read_all broken = none
read_all (readable b) = some b

-- handleEncodeErr: the response head after it, and the frame.
unfoldable pub handle_encode_err :
    Protocol
    → Proto
    → ℕ
    → ResponseProtocol
    → FrameHead
    → Bytes
    → CodecError
    → ResponseProtocol × Outcome Bytes
handle_encode_err pb proto max_frame_size rsp h rsp_body e =
    let failed : ResponseProtocol = record rsp {
      trans_info = [];
      ret = pb.server_encode_err;
      error_msg = proto.error_text e;
    } in
    elim (proto.marshal_rsp failed) [
      | none ↦ (failed, err marshal_failed)
      | some rsp_head ↦ (failed, construct pb max_frame_size h rsp_head rsp_body [])
    ]

-- What Encode does with the result of construct.
unfoldable pub after_construct :
    Protocol
    → Proto
    → ℕ
    → ResponseProtocol
    → FrameHead
    → Bytes
    → Outcome Bytes
    → ResponseProtocol × Outcome Bytes
unfolding handle_encode_err
after_construct pb proto m rsp h rsp_body (err head_overflows_uint16) =
    handle_encode_err pb proto m rsp h rsp_body head_overflows_uint16
after_construct pb proto m rsp h rsp_body (err (frame_too_large size)) =
    handle_encode_err pb proto m rsp h [] (frame_too_large size)
after_construct pb proto m rsp h rsp_body (err head_overflows_uint32) =
    handle_encode_err pb proto m rsp h [] head_overflows_uint32
after_construct pb proto m rsp h rsp_body result = (rsp, result)

-- From the moment the attachment is read.
unfoldable pub encode_response :
    Protocol
    → Proto
    → ℕ
    → ResponseProtocol
    → FrameHead
    → Bytes
    → Bytes
    → ResponseProtocol × Outcome Bytes
encode_response pb proto m rsp h rsp_body attm =
    let sized : ResponseProtocol = record rsp { attachment_size = length_u32 attm } in
    elim (proto.marshal_rsp sized) [
      | none ↦ (sized, err marshal_failed)
      | some rsp_head ↦
          after_construct pb proto m sized h rsp_body (construct pb m h rsp_head rsp_body attm)
    ]

unfoldable pub server_encode_unary :
    Protocol → Proto → ℕ → Msg → FrameHead → Bytes → Msg × Outcome Bytes
server_encode_unary pb proto m msg h rsp_body =
    let rsp = get_and_init_response_protocol pb msg in
    elim (read_all msg.server_response_attachment) [
      | none ↦ (store_rsp msg rsp, err read_attachment_failed)
      | some attm ↦
          let (rsp', result) = encode_response pb proto m rsp h rsp_body attm in
          (store_rsp msg rsp', result)
    ]

-- ServerCodec.Encode: the message after it, and the frame or the error.
unfoldable pub server_encode : Protocol → Proto → ℕ → Msg → Bytes → Msg × Outcome Bytes
server_encode pb proto m msg rsp_body =
    let (h, msg') = load_or_store_default_unary_frame_head pb msg in
    if is_stream pb h
    then proto.stream_encode msg' rsp_body
    else if not (is_unary pb h)
    then (msg', err unknown_frame_type)
    else server_encode_unary pb proto m msg' h rsp_body
