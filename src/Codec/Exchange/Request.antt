-- ===== src/Codec/Exchange/Request.antt =====
-- codec.go: ClientCodec.Encode followed by ServerCodec.Decode.
use trpc_go.Common.{
  not, ◌==◌, codes, ℕ, ◌+◌, ◌*◌, ◌/◌, ◌%◌, ◌^◌, ◌<◌, ◌≡◌, ◌≢◌, refl, [], ◌∷◌, some, length, arith,
  if◌then◌else◌, sym, ◌∙◌, Option-cases, inl, inr, str_eq,
}
use Prim.Native.Nat.{bit_and, bit_or}
use trpc_go.Common.Dict.{Key, lookup}
use trpc_go.Codec.Metadata.{value_or, sent_value, lookup-named_trans_info}
use trpc_go.Wire.BigEndian.{Bytes}
use trpc_go.Codec.Outcome.{ok}
use trpc_go.Codec.Frame.{
  Protocol, FrameHead, construct, new_default_unary_frame_head, upgrade_protocol, is_stream,
  is_unary, cur_protocol_version,
}
use trpc_go.Codec.Frame.RoundTrip.{Fits, construct-eq-ok}
use trpc_go.Codec.Message.{
  RequestProtocol, ResponseProtocol, Head, absent, present, no_attachment, Msg,
}
use trpc_go.Codec.Server.{
  Proto, server_decode, msg_with_request_protocol, length_u32, new_response_protocol,
  with_trans_info, with_server_attachment,
}
use trpc_go.Codec.Server.Decode.{server_decode-construct}
use trpc_go.Codec.Respond.{load_or_store_default_unary_frame_head, read_all}
use trpc_go.Codec.Client.{
  ClientCodec, client_encode, encode_request, update_request_protocol, update_caller_service_name,
  load_or_store_default_request_protocol, new_default_unary_request_protocol,
}

-- The ranges of the protocol's constants, and two kinds of frame that differ.
pub record IsProtocol (pb : Protocol) : Type 0 where
  pub magic : pb.magic_value < 2 ^ 16
  pub unary_byte : pb.unary_frame < 2 ^ 8
  pub kinds : pb.unary_frame ≢ pb.stream_frame

-- What protobuf documents: Unmarshal inverts Marshal, and only a message whose fields all have
-- their default is marshalled to no bytes at all.
pub record IsProto (proto : Proto) : Type 0 where
  pub req_round :
      (r : RequestProtocol) (b : Bytes)
      → proto.marshal_req r ≡ some b
      → proto.unmarshal_req b ≡ some r
  pub req_empty : (r : RequestProtocol) → proto.marshal_req r ≡ some [] → r.request_id ≡ 0

-- The message once Encode has given it a frame head, a request head and the next request id.
abbrev pub numbered : Protocol → ClientCodec → Msg → Msg
numbered pb c msg = record msg {
  frame_head = present (new_default_unary_frame_head pb);
  client_req_head = present (new_default_unary_request_protocol pb);
  request_id = (c.request_id + 1) % 2 ^ 32;
}

-- The request head that Encode sends for a message without one of its own.
abbrev pub sent_request : Protocol → ClientCodec → Msg → Bytes → RequestProtocol
sent_request pb c msg attm =
    update_request_protocol pb
      (record (new_default_unary_request_protocol pb) { attachment_size = length_u32 attm })
      (update_caller_service_name (numbered pb c msg) c.default_caller)

-- A message as the server makes it for a new request.
pub record IsFresh (msg : Msg) : Type 0 where
  pub attachment : msg.server_request_attachment ≡ no_attachment
  pub meta_data : msg.server_meta_data ≡ []

-- The response head that a request gets before it is handled.
abbrev pub blank_response : Protocol → RequestProtocol → ResponseProtocol
blank_response pb req = record {
  version = pb.proto_v1;
  call_type = req.call_type;
  request_id = req.request_id;
  ret = 0;
  func_ret = 0;
  error_msg = [];
  message_type = req.message_type;
  trans_info = [];
  content_type = req.content_type;
  content_encoding = req.content_encoding;
  attachment_size = 0;
}

-- What the server's message holds after Decode, whatever the request: everything that Decode sets
-- but the frame head and the attachment of the response, which stays empty. `before` is the message that it is given.
pub record Received (pb : Protocol) (before msg : Msg) (req : RequestProtocol) (attm : Bytes)
    : Type 0 where
  pub head : msg.server_req_head ≡ present req
  pub response_head : msg.server_rsp_head ≡ present (blank_response pb req)
  pub dyeing : msg.dyeing ≡ not (bit_and req.message_type pb.dyeing_message == 0)
  pub dyeing_key :
      msg.dyeing_key ≡ value_or (lookup (codes "trpc-dyeing-key") req.trans_info) before.dyeing_key
  pub env_transfer :
      msg.env_transfer ≡ value_or (lookup (codes "trpc-env") req.trans_info) before.env_transfer
  pub caller : msg.caller_service_name ≡ req.caller
  pub callee : msg.callee_service_name ≡ req.callee
  pub func : msg.server_rpc_name ≡ req.func
  pub timeout : msg.request_timeout ≡ 1000000 * req.timeout
  pub serialization : msg.serialization_type ≡ req.content_type
  pub compression : msg.compress_type ≡ req.content_encoding
  pub meta_data : msg.server_meta_data ≡ req.trans_info
  pub call : msg.call_type ≡ req.call_type
  pub attachment : read_all msg.server_request_attachment ≡ some attm

msg_with_request_protocol-Received :
    (pb : Protocol) (msg : Msg) (h : Head FrameHead) (req : RequestProtocol) (attm : Bytes)
    → IsFresh msg
    → Received pb msg
        (msg_with_request_protocol pb (record msg { frame_head = h }) req attm)
        req
        attm
unfolding msg_with_request_protocol new_response_protocol with_trans_info with_server_attachment
    lookup
msg_with_request_protocol-Received pb msg h req attm fresh = record {
  head = ground arith;
  response_head = ground arith;
  dyeing = ground arith;
  dyeing_key = ground arith;
  env_transfer = ground arith;
  caller = ground arith;
  callee = ground arith;
  func = ground arith;
  timeout = ground arith;
  serialization = ground arith;
  compression = ground arith;
  meta_data = ground arith;
  call = ground arith;
  attachment = ground arith;
}

-- A call through a new message, as the client's stub makes it.
pub record IsCall (msg : Msg) (attm : Bytes) : Type 0 where
  pub no_head : msg.frame_head ≡ absent
  pub no_req : msg.client_req_head ≡ absent
  pub attachment : read_all msg.client_request_attachment ≡ some attm

abbrev sent_head : Protocol → ClientCodec → FrameHead
sent_head pb c =
    upgrade_protocol (new_default_unary_frame_head pb) cur_protocol_version
      ((c.request_id + 1) % 2 ^ 32)

-- What a request head says of the call that it was made for.
pub record Describes (pb : Protocol) (req : RequestProtocol) (c : ClientCodec) (msg : Msg)
    (attm : Bytes) : Type 0 where
  pub request_id : req.request_id ≡ (c.request_id + 1) % 2 ^ 32
  pub caller :
      req.caller
      ≡ (if str_eq msg.caller_service_name [] then c.default_caller else msg.caller_service_name)
  pub callee : req.callee ≡ msg.callee_service_name
  pub func : req.func ≡ msg.client_rpc_name
  pub timeout : req.timeout ≡ msg.request_timeout / 1000000 % 2 ^ 32
  pub content_type : req.content_type ≡ msg.serialization_type % 2 ^ 32
  pub content_encoding : req.content_encoding ≡ msg.compress_type % 2 ^ 32
  pub call_type : req.call_type ≡ msg.call_type % 2 ^ 32
  pub attachment_size : req.attachment_size ≡ length attm % 2 ^ 32
  pub message_type : req.message_type ≡ (if msg.dyeing then bit_or 0 pb.dyeing_message else 0)
  pub meta_data : (k : Key) → lookup k req.trans_info ≡ sent_value msg [] k

sent_request-Describes :
    (pb : Protocol) (c : ClientCodec) (msg : Msg) (attm : Bytes)
    → Describes pb (sent_request pb c msg attm) c msg attm
unfolding update_request_protocol update_caller_service_name str_eq
    new_default_unary_request_protocol
sent_request-Describes pb c msg attm = record {
  request_id = ground arith;
  caller = ground arith;
  callee = ground arith;
  func = ground arith;
  timeout = ground arith;
  content_type = ground arith;
  content_encoding = ground arith;
  call_type = ground arith;
  attachment_size = ground arith;
  message_type = ground arith;
  meta_data = λ k. lookup-named_trans_info (numbered pb c msg) c.default_caller [] k;
}

module _ (pb : Protocol) (proto : Proto) (m : ℕ) (c : ClientCodec) (msg : Msg)
    (body attm : Bytes) where
  abbrev next : ClientCodec
  next = record c { request_id = (c.request_id + 1) % 2 ^ 32 }

  -- What Encode does for a call.
  client_encode_call :
      IsProtocol pb
      → IsCall msg attm
      → client_encode pb proto m c msg body ≡ (
          let (sent, result) =
            encode_request pb proto m next
              (numbered pb c msg)
              (new_default_unary_request_protocol pb)
              body
              attm in
          (next, sent, result))
  unfolding client_encode load_or_store_default_unary_frame_head is_stream is_unary
      load_or_store_default_request_protocol new_default_unary_frame_head
  client_encode_call p i = ground (arith, p.kinds)

  client_encode-eq-ok :
      {buf : Bytes}
      → IsProtocol pb
      → IsCall msg attm
      → (client_encode pb proto m c msg body).2 ≡ ok buf
      → (head : Bytes) × (proto.marshal_req (sent_request pb c msg attm) ≡ some head)
        × (construct pb m (sent_head pb c) head body attm ≡ ok buf)
  unfolding encode_request
  client_encode-eq-ok p i e =
      let e' = rw (client_encode_call p i) at e in
      elim (Option-cases (proto.marshal_req (sent_request pb c msg attm))) [
        | inl none_sent ↦ ground (arith, e', none_sent)
        | inr (head, sent) ↦ (head, sent, rw sent at e')
      ]

  sent_head-Fits : IsProtocol pb → Fits pb (sent_head pb c)
  unfolding upgrade_protocol new_default_unary_frame_head
  sent_head-Fits p = record {
    magic = p.magic;
    frame_type = p.unary_byte;
    stream_frame_type = omega arith;
    stream_id = omega arith;
    protocol_version = omega arith;
    frame_reserved = omega arith;
  }

  sent_head-unary : (sent_head pb c).frame_type ≡ pb.unary_frame
  unfolding upgrade_protocol new_default_unary_frame_head
  sent_head-unary = refl

  head_not_empty :
      (head : Bytes)
      → IsProto proto
      → (c.request_id + 1) % 2 ^ 32 ≢ 0
      → proto.marshal_req (sent_request pb c msg attm) ≡ some head
      → 0 < length head
  head_not_empty [] q id sent =
      absurd (id (sym (sent_request-Describes pb c msg attm).request_id ∙ q.req_empty _ sent))
  head_not_empty (b ∷ head) q id sent = omega arith

  -- A call that Encode turns into a frame arrives: the server's Decode returns the body, its message
  -- holds the request head that was sent, the names, types, timeout and metadata in it, the dyeing
  -- flag, the dyeing key and the environment, a response head made for it, and the attachment; and
  -- that head describes the call, its metadata key by key. It holds when the request id did not come
  -- round to 0.
  pub request_arrives :
      (smsg : Msg) {buf : Bytes}
      → IsProtocol pb
      → IsProto proto
      → IsCall msg attm
      → IsFresh smsg
      → (c.request_id + 1) % 2 ^ 32 ≢ 0
      → (client_encode pb proto m c msg body).2 ≡ ok buf
      → let (smsg', result) = server_decode pb proto smsg buf in
        let req = sent_request pb c msg attm in
        (result ≡ ok body) × Received pb smsg smsg' req attm × Describes pb req c msg attm
  request_arrives smsg {buf} p q i fresh id e =
      let (head, sent, built) = client_encode-eq-ok p i e in
      let fits = sent_head-Fits p in
      let req = sent_request pb c msg attm in
      let d = sent_request-Describes pb c msg attm in
      let (_, _, small, _) = construct-eq-ok pb m (sent_head pb c) head body attm built in
      let decoded =
        server_decode-construct pb proto m smsg (sent_head pb c) req head body attm fits built
          sent_head-unary (head_not_empty head q id sent) (q.req_round req head sent)
          (omega (arith, d.attachment_size)) in
      rw decoded (refl, msg_with_request_protocol-Received pb smsg (present _) req attm fresh, d)
