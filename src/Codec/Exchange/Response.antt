-- ===== src/Codec/Exchange/Response.antt =====
-- codec.go: ServerCodec.Encode followed by ClientCodec.Decode.
use trpc_go.Common.{
  ap, ◌%◌, ℕ, ◌^◌, ◌<◌, ◌≤◌, ◌≡◌, ◌≢◌, [], ◌∷◌, Option, none, some, length, arith, sym, ◌∙◌,
  Option-cases, inl, inr,
}
use trpc_go.Common.Dict.{Key, lookup, merge, last_value, lookup-merge_empty}
use trpc_go.Codec.Client.{response_attachment}
use trpc_go.Wire.BigEndian.{Bytes}
use trpc_go.Codec.Outcome.{ok}
use trpc_go.Codec.Frame.{Protocol, FrameHead, is_stream, is_unary}
use trpc_go.Codec.Frame.RoundTrip.{Fits, construct_fits, frame_of, total_of}
use trpc_go.Codec.Message.{
  ResponseProtocol, RequestProtocol, present, Msg, RspError, Attachment, no_attachment, broken,
  readable, framework, business, callee_framework,
}
use trpc_go.Codec.Server.{Proto, length_u32, new_response_protocol}
use trpc_go.Codec.Respond.{
  load_or_store_default_unary_frame_head, read_all, with_rsp_err, response_of,
  get_and_init_response_protocol, after_construct, encode_response, server_encode_unary,
  server_encode,
}
use trpc_go.Codec.Client.{client_decode}
use trpc_go.Codec.Client.Decode.{Awaits, Answered, error_of, client_decode-construct}
use trpc_go.Codec.Exchange.Request.{IsProtocol}

-- What protobuf documents of the response head, as IsProto does of the request head.
pub record IsRspProto (proto : Proto) : Type 0 where
  pub rsp_round :
      (r : ResponseProtocol) (b : Bytes)
      → proto.marshal_rsp r ≡ some b
      → proto.unmarshal_rsp b ≡ some r
  pub rsp_empty : (r : ResponseProtocol) → proto.marshal_rsp r ≡ some [] → r.request_id ≡ 0

-- A message that the server decoded a unary request into, as its handler leaves it: an attachment,
-- and an error or none.
pub record IsAnswer (msg : Msg) (h : FrameHead) (req : RequestProtocol) (pb : Protocol)
    (attm : Bytes) : Type 0 where
  pub frame : msg.frame_head ≡ present h
  pub unary : h.frame_type ≡ pb.unary_frame
  pub rsp : msg.server_rsp_head ≡ present (new_response_protocol pb req)
  pub attachment : read_all msg.server_response_attachment ≡ some attm

-- The response head that Encode marshals first.
abbrev pub sized_response : Protocol → Msg → Bytes → ResponseProtocol
sized_response pb msg attm = record (get_and_init_response_protocol pb msg) {
  attachment_size = length_u32 attm;
}

module _ (pb : Protocol) (proto : Proto) (m : ℕ) (msg : Msg) (h : FrameHead) (req : RequestProtocol)
    (body attm : Bytes) where
  pub server_encode_answer :
      IsProtocol pb
      → IsAnswer msg h req pb attm
      → (server_encode pb proto m msg body).1
        ≡ (encode_response pb proto m (get_and_init_response_protocol pb msg) h body attm).1
  unfolding server_encode load_or_store_default_unary_frame_head is_stream is_unary
      server_encode_unary
  server_encode_answer p a = ground (arith, a.frame, p.kinds)

  pub sized_response_id :
      IsAnswer msg h req pb attm → (sized_response pb msg attm).request_id ≡ req.request_id
  unfolding get_and_init_response_protocol response_of new_response_protocol with_rsp_err
  sized_response_id a = ground (arith, a.rsp)

-- The return codes and the message of a response to a handler that returned this.
abbrev pub framework_code : Option RspError → ℕ
framework_code none = 0
framework_code (some e) = elim e.kind [ framework ↦ e.code | _ ↦ 0 ]

abbrev pub business_code : Option RspError → ℕ
business_code none = 0
business_code (some e) = elim e.kind [ framework ↦ 0 | _ ↦ e.code ]

abbrev pub error_message : Option RspError → Bytes
error_message none = []
error_message (some e) = e.msg

-- What a response head says of the request, and of what the handler has left in its message: the
-- types, the error, the metadata key by key, and the attachment.
pub record Answers (pb : Protocol) (rsp : ResponseProtocol) (req : RequestProtocol) (msg : Msg)
    (attm : Bytes) : Type 0 where
  pub version : rsp.version ≡ pb.proto_v1
  pub call_type : rsp.call_type ≡ req.call_type
  pub request_id : rsp.request_id ≡ req.request_id
  pub message_type : rsp.message_type ≡ req.message_type
  pub content_type : rsp.content_type ≡ msg.serialization_type % 2 ^ 32
  pub content_encoding : rsp.content_encoding ≡ msg.compress_type % 2 ^ 32
  pub ret : rsp.ret ≡ framework_code msg.server_rsp_err
  pub func_ret : rsp.func_ret ≡ business_code msg.server_rsp_err
  pub error_msg : rsp.error_msg ≡ error_message msg.server_rsp_err
  pub attachment_size : rsp.attachment_size ≡ length attm % 2 ^ 32
  pub meta_data : (k : Key) → lookup k rsp.trans_info ≡ last_value k msg.server_meta_data

sized_response-Answers :
    (pb : Protocol) (msg : Msg) (h : FrameHead) (req : RequestProtocol) (attm : Bytes)
    → IsAnswer msg h req pb attm
    → Answers pb (sized_response pb msg attm) req msg attm
unfolding get_and_init_response_protocol response_of new_response_protocol with_rsp_err
sized_response-Answers pb msg h req attm a =
    let sent : (sized_response pb msg attm).trans_info ≡ merge [] msg.server_meta_data =
      ground (arith, a.rsp) in
    record {
      version = ground (arith, a.rsp);
      call_type = ground (arith, a.rsp);
      request_id = ground (arith, a.rsp);
      message_type = ground (arith, a.rsp);
      content_type = ground (arith, a.rsp);
      content_encoding = ground (arith, a.rsp);
      ret = ground (arith, a.rsp);
      func_ret = ground (arith, a.rsp);
      error_msg = ground (arith, a.rsp);
      attachment_size = ground (arith, a.rsp);
      meta_data = λ k. ap (lookup k) sent ∙ lookup-merge_empty k msg.server_meta_data;
    }

-- The attachment that the caller has behind a response: what it had, unless it has attachments and
-- one has come that is not empty.
abbrev pub attachment_after : Attachment → Attachment → Bytes → Attachment
attachment_after no_attachment old attm = old
attachment_after asked old [] = old
attachment_after broken old (b ∷ attm) = readable (b ∷ attm)
attachment_after (readable s) old (b ∷ attm) = readable (b ∷ attm)

kept_attachment-eq :
    (asked old : Attachment) (attm : Bytes)
    → response_attachment asked old attm ≡ attachment_after asked old attm
unfolding response_attachment
kept_attachment-eq asked old attm = ground arith

-- The error that the caller sees for the one that the handler returned.
pub seen_by_client : Option RspError → Option RspError
seen_by_client none = none
seen_by_client (some e) = elim e.kind [
  | framework ↦ some (record e { kind = callee_framework; chained = none })
  | _ ↦ some (record e { kind = business; chained = none })
]

-- The handler returned no error, or one whose code is not 0.
pub record HasCode (msg : Msg) : Type 0 where
  pub code : (e : RspError) → msg.server_rsp_err ≡ some e → e.code ≢ 0

sized_response-error :
    (pb : Protocol) (msg : Msg) (h : FrameHead) (req : RequestProtocol) (attm : Bytes)
    → IsAnswer msg h req pb attm
    → HasCode msg
    → error_of (sized_response pb msg attm) ≡ seen_by_client msg.server_rsp_err
unfolding get_and_init_response_protocol response_of new_response_protocol with_rsp_err
    seen_by_client
sized_response-error pb msg h req attm a c = elim (Option-cases msg.server_rsp_err) [
  | inl clean ↦ ground (arith, a.rsp, clean)
  | inr (e, failed) ↦ ground (arith, a.rsp, failed, c.code e failed)
]

pub rsp_head_not_empty :
    (proto : Proto) (rsp : ResponseProtocol) (head : Bytes)
    → IsRspProto proto
    → rsp.request_id ≢ 0
    → proto.marshal_rsp rsp ≡ some head
    → 0 < length head
rsp_head_not_empty proto rsp [] q id sent = absurd (id (q.rsp_empty rsp sent))
rsp_head_not_empty proto rsp (b ∷ head) q id sent = omega arith

module _ (pb : Protocol) (proto : Proto) (m : ℕ) (msg cmsg : Msg) (h : FrameHead)
    (req sent : RequestProtocol) (body attm : Bytes) where
  encode_response_fits :
      (rsp : ResponseProtocol) (head : Bytes)
      → proto.marshal_rsp (record rsp { attachment_size = length_u32 attm }) ≡ some head
      → length head < 2 ^ 16
      → total_of head body attm ≤ m
      → m < 2 ^ 32
      → (encode_response pb proto m rsp h body attm).1 ≡ ok (frame_of pb h head body attm)
  unfolding encode_response after_construct
  encode_response_fits rsp head e a b c =
      ground (arith, e, construct_fits pb m h head body attm a b c)

  -- A response whose frame keeps within the limits arrives: the client's Decode returns the body,
  -- and its message holds the response head that was sent, the error that the handler returned (as
  -- the callee's framework error, or as a business error), and the attachment if it is not empty and
  -- the caller has one; and that head answers the request with what the handler has left: the types,
  -- the error, the metadata key by key, and the attachment's size.
  -- It holds for a request id that is not 0 and for errors with a code that is not 0.
  pub response_arrives :
      (head : Bytes)
      → IsProtocol pb
      → IsRspProto proto
      → Fits pb h
      → IsAnswer msg h req pb attm
      → HasCode msg
      → Awaits cmsg sent
      → sent.request_id ≡ req.request_id
      → req.request_id ≢ 0
      → m < 2 ^ 32
      → proto.marshal_rsp (sized_response pb msg attm) ≡ some head
      → length head < 2 ^ 16
      → total_of head body attm ≤ m
      → (buf : Bytes) × ((server_encode pb proto m msg body).1 ≡ ok buf)
        × ((client_decode pb proto cmsg buf).1 ≡ ok body)
        × Answered (client_decode pb proto cmsg buf).0 (sized_response pb msg attm)
        × ((client_decode pb proto cmsg buf).0.client_rsp_err ≡ seen_by_client msg.server_rsp_err)
        × ((client_decode pb proto cmsg buf).0.client_response_attachment
            ≡ attachment_after cmsg.client_request_attachment cmsg.client_response_attachment attm)
        × Answers pb (sized_response pb msg attm) req msg attm
  response_arrives head p q f a c w same id lim marshalled small fits =
      let rsp = sized_response pb msg attm in
      let rid = sized_response_id pb proto m msg h req body attm a in
      let buf = frame_of pb h head body attm in
      let built = construct_fits pb m h head body attm small fits lim in
      let sent' =
        server_encode_answer pb proto m msg h req body attm p a
        ∙ encode_response_fits (get_and_init_response_protocol pb msg) head marshalled small fits
            lim in
      let (got, answered, kept) =
        client_decode-construct pb proto m cmsg h rsp sent head body attm f built a.unary
          (rsp_head_not_empty proto rsp head q (λ z. id (sym rid ∙ z)) marshalled)
          (q.rsp_round rsp head marshalled) (omega arith) w (same ∙ sym rid) in
      (
        buf,
        sent',
        got,
        answered,
        answered.error ∙ sized_response-error pb msg h req attm a c,
        kept
            ∙ kept_attachment-eq cmsg.client_request_attachment cmsg.client_response_attachment
                attm,
        sized_response-Answers pb msg h req attm a,
      )
