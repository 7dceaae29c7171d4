-- ===== src/Codec/Exchange/Oversize.antt =====
-- codec.go: ServerCodec.Encode on a response that is too large, followed by ClientCodec.Decode.
use trpc_go.Common.{ℕ, ◌%◌, ◌^◌, ◌<◌, ◌≤◌, ◌≡◌, ◌≢◌, refl, [], some, length, arith, sym, ◌∙◌}
use trpc_go.Wire.BigEndian.{Bytes}
use trpc_go.Codec.Outcome.{ok, err, IsPanic, frame_too_large}
use trpc_go.Codec.Frame.{Protocol, FrameHead, construct}
use trpc_go.Codec.Frame.RoundTrip.{
  Fits, with_lengths, construct_fits, frame_of, total_of, extract-construct,
}
use trpc_go.Codec.Message.{ResponseProtocol, RequestProtocol, Msg}
use trpc_go.Codec.Server.{Proto}
use trpc_go.Codec.Server.Decode.{construct-IsFrame}
use trpc_go.Codec.Respond.{
  get_and_init_response_protocol, handle_encode_err, after_construct, encode_response,
  server_encode,
}
use trpc_go.Codec.Client.{client_decode}
use trpc_go.Codec.Client.Decode.{Awaits, error_of, client_decode-construct, client_decode-IsPanic}
use trpc_go.Codec.Exchange.Request.{IsProtocol}
use trpc_go.Codec.Exchange.Response.{
  IsRspProto, IsAnswer, sized_response, sized_response_id, server_encode_answer, rsp_head_not_empty,
}

-- construct refuses what is past the limit, when the header and the attachment keep theirs.
construct_too_large :
    (pb : Protocol) (m : ℕ) (h : FrameHead) (header body attachment : Bytes)
    → length header < 2 ^ 16
    → length attachment < 2 ^ 32
    → m < total_of header body attachment
    → construct pb m h header body attachment ≡ err (frame_too_large m)
unfolding construct
construct_too_large pb m h header body attachment a b c = ground arith

-- The response head that handleEncodeErr marshals in its place.
abbrev pub failed_response : Protocol → Proto → ℕ → Msg → Bytes → ResponseProtocol
failed_response pb proto m msg attm = record (sized_response pb msg attm) {
  trans_info = [];
  ret = pb.server_encode_err;
  error_msg = proto.error_text (frame_too_large m);
}

module _ (pb : Protocol) (proto : Proto) (m : ℕ) (msg cmsg : Msg) (h : FrameHead)
    (req sent : RequestProtocol) (body attm : Bytes) where
  encode_response_too_large :
      (head failed_head : Bytes)
      → proto.marshal_rsp (sized_response pb msg attm) ≡ some head
      → proto.marshal_rsp (failed_response pb proto m msg attm) ≡ some failed_head
      → length head < 2 ^ 16
      → length attm < 2 ^ 32
      → m < total_of head body attm
      → length failed_head < 2 ^ 16
      → total_of failed_head [] [] ≤ m
      → m < 2 ^ 32
      → (encode_response pb proto m (get_and_init_response_protocol pb msg) h body attm).1
        ≡ ok (frame_of pb h failed_head [] [])
  unfolding encode_response after_construct handle_encode_err
  encode_response_too_large head failed_head e f a b big c d l = ground (
    arith,
    e,
    f,
    construct_too_large pb m h head body attm a b big,
    construct_fits pb m h failed_head [] [] c d l,
  )

  -- The premises that the two outcomes share: a response that is too large, whose replacement is not.
  pub record IsOversize (head failed_head : Bytes) : Type 0 where
    pub marshalled : proto.marshal_rsp (sized_response pb msg attm) ≡ some head
    pub failed : proto.marshal_rsp (failed_response pb proto m msg attm) ≡ some failed_head
    pub head_small : length head < 2 ^ 16
    pub attachment_small : length attm < 2 ^ 32
    pub too_large : m < total_of head body attm
    pub failed_small : length failed_head < 2 ^ 16
    pub failed_fits : total_of failed_head [] [] ≤ m
    pub limit : m < 2 ^ 32

  -- A response without an attachment that is past the limit reaches the caller as the error that
  -- stands for a failed encoding, with an empty body.
  pub oversize_reported :
      (head failed_head : Bytes)
      → IsProtocol pb
      → IsRspProto proto
      → Fits pb h
      → IsAnswer msg h req pb attm
      → Awaits cmsg sent
      → sent.request_id ≡ req.request_id
      → req.request_id ≢ 0
      → IsOversize head failed_head
      → attm ≡ []
      → (buf : Bytes) × ((server_encode pb proto m msg body).1 ≡ ok buf)
        × ((client_decode pb proto cmsg buf).1 ≡ ok [])
        × ((client_decode pb proto cmsg buf).0.client_rsp_err
            ≡ error_of (failed_response pb proto m msg attm))
  oversize_reported head failed_head p q f a w same id o no_attm =
      let rsp = failed_response pb proto m msg attm in
      let rid = sized_response_id pb proto m msg h req body attm a in
      let built = construct_fits pb m h failed_head [] [] o.failed_small o.failed_fits o.limit in
      let sent' =
        server_encode_answer pb proto m msg h req body attm p a
        ∙ encode_response_too_large head failed_head o.marshalled o.failed o.head_small
            o.attachment_small o.too_large o.failed_small o.failed_fits o.limit in
      let (got, answered, _) =
        client_decode-construct pb proto m cmsg h rsp sent failed_head [] [] f built a.unary
          (rsp_head_not_empty proto rsp failed_head q (λ z. id (sym rid ∙ z)) o.failed)
          (q.rsp_round rsp failed_head o.failed) (rw no_attm) w (same ∙ sym rid) in
      (frame_of pb h failed_head [] [], sent', got, answered.error)

  -- With an attachment, the replacement still states the attachment's size and carries none of it:
  -- the caller's Decode panics on the frame that the server sends.
  pub oversize_attachment_panics :
      (head failed_head : Bytes)
      → IsProtocol pb
      → IsRspProto proto
      → Fits pb h
      → IsAnswer msg h req pb attm
      → Awaits cmsg sent
      → sent.request_id ≡ req.request_id
      → req.request_id ≢ 0
      → IsOversize head failed_head
      → 0 < length attm
      → (buf : Bytes) × ((server_encode pb proto m msg body).1 ≡ ok buf)
        × IsPanic (client_decode pb proto cmsg buf).1
  oversize_attachment_panics head failed_head p q f a w same id o some_attm =
      let rsp = failed_response pb proto m msg attm in
      let rid = sized_response_id pb proto m msg h req body attm a in
      let built = construct_fits pb m h failed_head [] [] o.failed_small o.failed_fits o.limit in
      let frame = construct-IsFrame pb m h failed_head [] [] built in
      let buf = frame_of pb h failed_head [] [] in
      let sent' =
        server_encode_answer pb proto m msg h req body attm p a
        ∙ encode_response_too_large head failed_head o.marshalled o.failed o.head_small
            o.attachment_small o.too_large o.failed_small o.failed_fits o.limit in
      let h' = with_lengths h (length buf) (length failed_head) in
      let n = rsp_head_not_empty proto rsp failed_head q (λ z. id (sym rid ∙ z)) o.failed in
      let att : length attm % 2 ^ 32 ≡ length attm = omega (arith, o.attachment_small) in
      (
        buf,
        sent',
        client_decode-IsPanic pb proto cmsg buf failed_head h' rsp sent
            (extract-construct pb m h failed_head [] [] f built) refl frame.small a.unary n
            (omega arith) frame.head_part (q.rsp_round rsp failed_head o.failed) w (same ∙ sym rid)
            (omega arith) (omega arith),
      )
