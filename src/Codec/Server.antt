-- ===== src/Codec/Server.antt =====
-- codec.go: ServerCodec.Decode. The protobuf library and the streaming codec are parameters.
pub mod Decode
use Prim.Native.Nat.{bit_and}
use trpc_go.Common.{
  ℕ, ◌+◌, ◌-◌, ◌*◌, ◌%◌, ◌^◌, Bool, true, false, not, List, [], ◌∷◌, Option, none, some, length,
  ltb, ◌==◌, if◌then◌else◌, codes,
}
use trpc_go.Common.Dict.{Dict, lookup, insert, merge}
use trpc_go.Wire.BigEndian.{Bytes}
use trpc_go.Wire.Slice.{slice}
use trpc_go.Codec.Outcome.{
  CodecError, Outcome, ok, err, panic, ◌>>=◌, checked, head_overflows_uint16, head_overflows_uint32,
  frame_too_large, buf_len_invalid, head_len_empty, head_len_invalid, unmarshal_failed,
  total_len_not_actual, attachment_len, stream_decode_failed, unknown_frame_type, marshal_failed,
  read_attachment_failed,
}
use trpc_go.Codec.Frame.{
  Protocol, FrameHead, frame_head_len, extract, construct, is_stream, is_unary,
  new_default_unary_frame_head,
}
use trpc_go.Codec.Message.{
  RequestProtocol, ResponseProtocol, Head, absent, other, present, ErrorType, framework, business,
  callee_framework, RspError, Attachment, no_attachment, broken, readable, Msg,
}

abbrev pub dyeing_key : Bytes
dyeing_key = codes "trpc-dyeing-key"

abbrev pub env_transfer : Bytes
env_transfer = codes "trpc-env"

-- What the unary codecs call and this development takes as given: proto.Marshal and
-- proto.Unmarshal for the two heads (with what a failed Unmarshal leaves), the text of an error (its Error method), and the streaming
-- codecs, which get every frame that is not unary.
pub record Proto : Type 0 where
  pub marshal_req : RequestProtocol → Option Bytes
  pub unmarshal_req : Bytes → Option RequestProtocol
  pub marshal_rsp : ResponseProtocol → Option Bytes
  pub unmarshal_rsp : Bytes → Option ResponseProtocol
  pub partial_rsp : Bytes → ResponseProtocol
  pub error_text : CodecError → Bytes
  pub stream_encode : Msg → Bytes → Msg × Outcome Bytes
  pub stream_decode : Msg → Bytes → Msg × Outcome Bytes
  pub build_reset_frame : Msg → FrameHead → CodecError → Msg

abbrev pub length_u32 : Bytes → ℕ
length_u32 b = length b % 2 ^ 32

-- uint32 subtraction wraps.
abbrev pub sub_u32 : ℕ → ℕ → ℕ
sub_u32 a b = (a + 2 ^ 32 - b) % 2 ^ 32

unfoldable pub new_response_protocol : Protocol → RequestProtocol → ResponseProtocol
new_response_protocol pb req = record {
  version = pb.proto_v1;
  call_type = req.call_type;
  request_id = req.request_id;
  ret = 0;
  func_ret = 0;
  error_msg = [];
  message_type = req.message_type;
  trans_info = [];
  content_type = req.content_type;
  content_encoding = req.content_encoding;
  attachment_size = 0;
}

abbrev pub zero_response : ResponseProtocol
zero_response = record {
  version = 0;
  call_type = 0;
  request_id = 0;
  ret = 0;
  func_ret = 0;
  error_msg = [];
  message_type = 0;
  trans_info = [];
  content_type = 0;
  content_encoding = 0;
  attachment_size = 0;
}

abbrev or_keep : Option Bytes → Bytes → Bytes
or_keep none old = old
or_keep (some new) old = new

-- The metadata of the request, with the two keys that the framework reads from it.
unfoldable pub with_trans_info : Msg → Dict Bytes → Msg
with_trans_info msg [] = msg
with_trans_info msg (e ∷ info) = record msg {
  server_meta_data = e ∷ info;
  dyeing_key = or_keep (lookup dyeing_key (e ∷ info)) msg.dyeing_key;
  env_transfer = or_keep (lookup env_transfer (e ∷ info)) msg.env_transfer;
}

unfoldable pub with_server_attachment : Msg → Bytes → Msg
with_server_attachment msg [] = msg
with_server_attachment msg (b ∷ attm) = record msg {
  server_request_attachment = readable (b ∷ attm);
  server_response_attachment = readable [];
}

unfoldable pub msg_with_request_protocol : Protocol → Msg → RequestProtocol → Bytes → Msg
unfolding new_response_protocol with_trans_info with_server_attachment
msg_with_request_protocol pb msg req attm =
    let filled : Msg = record msg {
      server_req_head = present req;
      server_rsp_head = present (new_response_protocol pb req);
      request_timeout = 1000000 * req.timeout;
      caller_service_name = req.caller;
      callee_service_name = req.callee;
      server_rpc_name = req.func;
      serialization_type = req.content_type;
      compress_type = req.content_encoding;
      dyeing = not (bit_and req.message_type pb.dyeing_message == 0);
    } in
    let informed = with_trans_info filled req.trans_info in
    with_server_attachment (record informed { call_type = req.call_type }) attm

-- From the attachment on; the head ends at `head_end`.
unfoldable pub server_decode_body :
    Protocol → Msg → FrameHead → RequestProtocol → ℕ → Bytes → Msg × Outcome Bytes
server_decode_body pb msg h req head_end req_buf =
    let attachment_begin = sub_u32 h.total_len req.attachment_size in
    let s = sub_u32 (length_u32 req_buf) attachment_begin in
    if not (s == req.attachment_size)
    then (msg, err (attachment_len s req.attachment_size))
    else elim (slice attachment_begin (length req_buf) req_buf) [
      | none ↦ (msg, panic)
      | some attm ↦ (
        msg_with_request_protocol pb msg req attm,
        checked (slice head_end attachment_begin req_buf),
      )
    ]

-- What the server makes of a frame that is not unary.
unfoldable pub server_decode_stream : Proto → Msg → FrameHead → Bytes → Msg × Outcome Bytes
server_decode_stream proto msg h req_buf =
    let (msg', result) = proto.stream_decode msg req_buf in
    elim result [
      | ok body ↦ (msg', ok body)
      | err e ↦ (proto.build_reset_frame msg' h e, err stream_decode_failed)
      | panic ↦ (msg', panic)
    ]

-- ServerCodec.Decode once the frame head is read and stored.
unfoldable pub server_decode_head : Protocol → Proto → Msg → FrameHead → Bytes → Msg × Outcome Bytes
server_decode_head pb proto msg h req_buf =
    let head_end = (frame_head_len + h.header_len) % 2 ^ 32 in
    if not (h.total_len == length_u32 req_buf)
    then (msg, err (total_len_not_actual h.total_len (length req_buf)))
    else if not (h.frame_type == pb.unary_frame)
    then server_decode_stream proto msg h req_buf
    else if h.header_len == 0
    then (msg, err head_len_empty)
    else if ltb (length_u32 req_buf) head_end
    then (msg, err head_len_invalid)
    else elim (slice frame_head_len head_end req_buf) [
      | none ↦ (msg, panic)
      | some part ↦ elim (proto.unmarshal_req part) [
        | none ↦ (msg, err unmarshal_failed)
        | some req ↦ server_decode_body pb msg h req head_end req_buf
      ]
    ]

-- ServerCodec.Decode: the message after it, and the body or the error.
unfoldable pub server_decode : Protocol → Proto → Msg → Bytes → Msg × Outcome Bytes
server_decode pb proto msg req_buf =
    if ltb (length req_buf) frame_head_len
    then (msg, err buf_len_invalid)
    else elim (extract req_buf) [
      | ok h ↦ server_decode_head pb proto (record msg { frame_head = present h }) h req_buf
      | err e ↦ (msg, err e)
      | panic ↦ (msg, panic)
    ]
