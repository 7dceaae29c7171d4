-- ===== src/Codec/Tests/Sample.antt =====
-- A protocol and a codec for its heads that meet what the theorems ask of protobuf: every number is
-- one element, every string has its length in front, and a head with metadata is refused.
use trpc_go.Common.{
  ◌≡◌, false, [], ◌∷◌, ◌++◌, Option, none, some, length, arith, codes, take, drop, take-length,
  drop-length,
}
use trpc_go.Wire.BigEndian.{Bytes}
use trpc_go.Codec.Outcome.{err, stream_encode_failed, stream_decode_failed}
use trpc_go.Codec.Frame.{Protocol}
use trpc_go.Codec.Message.{RequestProtocol, ResponseProtocol, absent, no_attachment, Msg}
use trpc_go.Codec.Server.{Proto, zero_response}
use trpc_go.Codec.Exchange.Request.{IsProtocol, IsProto}
use trpc_go.Codec.Exchange.Response.{IsRspProto}

abbrev pub pb : Protocol
pb = record {
  magic_value = 0x930;
  unary_frame = 0;
  stream_frame = 1;
  proto_v1 = 0;
  unary_call = 0;
  dyeing_message = 1;
  server_encode_err = 2;
}

pub pb-IsProtocol : IsProtocol pb
pb-IsProtocol = record { magic = omega arith; unary_byte = omega arith; kinds = omega arith }

abbrev pub text : Bytes → Bytes
text s = length s ∷ s

abbrev pub marshal_req : RequestProtocol → Option Bytes
marshal_req r = elim r.trans_info [
  | [] ↦ some (
      r.version
      ∷ r.call_type
      ∷ r.request_id
      ∷ r.timeout
      ∷ r.message_type
      ∷ r.content_type
      ∷ r.content_encoding
      ∷ r.attachment_size
      ∷ (text r.caller ++ (text r.callee ++ r.func)))
  | _ ∷ _ ↦ none
]

abbrev pub after_callee : (Bytes → Bytes → RequestProtocol) → Bytes → Option RequestProtocol
after_callee make [] = none
after_callee make (k ∷ t) = some (make (take k t) (drop k t))

abbrev pub unmarshal_req : Bytes → Option RequestProtocol
unmarshal_req (v ∷ c ∷ i ∷ t ∷ m ∷ ct ∷ ce ∷ a ∷ n ∷ s) =
    after_callee
      (λ callee func. record {
        version = v;
        call_type = c;
        request_id = i;
        timeout = t;
        caller = take n s;
        callee = callee;
        func = func;
        message_type = m;
        trans_info = [];
        content_type = ct;
        content_encoding = ce;
        attachment_size = a;
      })
      (drop n s)
unmarshal_req _ = none

req_round : (r : RequestProtocol) (b : Bytes) → marshal_req r ≡ some b → unmarshal_req b ≡ some r
req_round r b e = ground (
  arith,
  take-length r.caller (text r.callee ++ r.func),
  drop-length r.caller (text r.callee ++ r.func),
  take-length r.callee r.func,
  drop-length r.callee r.func,
)

abbrev pub marshal_rsp : ResponseProtocol → Option Bytes
marshal_rsp r = elim r.trans_info [
  | [] ↦ some (
      r.version ∷ r.call_type ∷ r.request_id ∷ r.ret ∷ r.func_ret ∷ r.message_type ∷ r.content_type
      ∷ r.content_encoding ∷ r.attachment_size ∷ r.error_msg)
  | _ ∷ _ ↦ none
]

abbrev pub unmarshal_rsp : Bytes → Option ResponseProtocol
unmarshal_rsp (v ∷ c ∷ i ∷ r ∷ f ∷ m ∷ ct ∷ ce ∷ a ∷ s) = some (record {
  version = v;
  call_type = c;
  request_id = i;
  ret = r;
  func_ret = f;
  error_msg = s;
  message_type = m;
  trans_info = [];
  content_type = ct;
  content_encoding = ce;
  attachment_size = a;
})
unmarshal_rsp _ = none

rsp_round : (r : ResponseProtocol) (b : Bytes) → marshal_rsp r ≡ some b → unmarshal_rsp b ≡ some r
rsp_round r b e = ground arith

abbrev pub proto : Proto
proto = record {
  marshal_req = marshal_req;
  unmarshal_req = unmarshal_req;
  marshal_rsp = marshal_rsp;
  unmarshal_rsp = unmarshal_rsp;
  partial_rsp = λ b. zero_response;
  error_text = λ e. codes "failed";
  stream_encode = λ msg b. (msg, err stream_encode_failed);
  stream_decode = λ msg b. (msg, err stream_decode_failed);
  build_reset_frame = λ msg h e. msg;
}

req_empty : (r : RequestProtocol) → marshal_req r ≡ some [] → r.request_id ≡ 0
req_empty r e = ground arith

rsp_empty : (r : ResponseProtocol) → marshal_rsp r ≡ some [] → r.request_id ≡ 0
rsp_empty r e = ground arith

pub proto-IsProto : IsProto proto
proto-IsProto = record { req_round = req_round; req_empty = req_empty }

pub proto-IsRspProto : IsRspProto proto
proto-IsRspProto = record { rsp_round = rsp_round; rsp_empty = rsp_empty }

abbrev pub blank : Msg
blank = record {
  frame_head = absent;
  request_id = 0;
  request_timeout = 0;
  serialization_type = 0;
  compress_type = 0;
  call_type = 0;
  dyeing = false;
  dyeing_key = [];
  env_transfer = [];
  caller_service_name = [];
  callee_service_name = [];
  server_rpc_name = [];
  client_rpc_name = [];
  server_meta_data = [];
  client_meta_data = [];
  server_req_head = absent;
  server_rsp_head = absent;
  client_req_head = absent;
  client_rsp_head = absent;
  server_rsp_err = none;
  client_rsp_err = none;
  client_request_attachment = no_attachment;
  client_response_attachment = no_attachment;
  server_request_attachment = no_attachment;
  server_response_attachment = no_attachment;
}
