-- ===== src/Codec/Client/Decode.antt =====
-- codec.go: what ClientCodec.Decode makes of a frame that construct built.
use trpc_go.Common.{
  ℕ, ◌+◌, ◌-◌, ◌%◌, ◌^◌, ◌<◌, ◌≤◌, ◌≡◌, refl, not, Option, none, some, length, take, drop, arith,
  le→ltb, ◌==◌, ==_refl, if◌then◌else◌,
}
use trpc_go.Wire.BigEndian.{Bytes}
use trpc_go.Wire.Slice.{slice}
use trpc_go.Codec.Outcome.{ok, IsPanic}
use trpc_go.Codec.Frame.{Protocol, FrameHead, construct, extract}
use trpc_go.Codec.Frame.RoundTrip.{Fits, with_lengths, extract-construct}
use trpc_go.Codec.Message.{
  ResponseProtocol, RequestProtocol, absent, present, RspError, callee_framework, business,
  Attachment, Msg,
}
use trpc_go.Codec.Server.{Proto, sub_u32, length_u32}
use trpc_go.Codec.Server.Decode.{IsFrame, construct-IsFrame}
use trpc_go.Codec.Client.{
  client_decode, client_decode_head, client_decode_body, update_msg, with_client_rsp_err,
  response_attachment, accept_rsp, check_request_id, load_or_store_default_request_protocol,
}

-- The message holds the request head that was sent, and nothing yet of an answer.
pub record Awaits (msg : Msg) (req : RequestProtocol) : Type 0 where
  pub sent : msg.client_req_head ≡ present req
  pub no_error : msg.client_rsp_err ≡ none
  pub no_rsp : msg.client_rsp_head ≡ absent

-- The error that a response head stands for.
abbrev pub error_of : ResponseProtocol → Option RspError
error_of rsp =
    if not (rsp.ret == 0)
    then some
        (record { kind = callee_framework; code = rsp.ret; msg = rsp.error_msg; chained = none })
    else if not (rsp.func_ret == 0)
    then some (record { kind = business; code = rsp.func_ret; msg = rsp.error_msg; chained = none })
    else none

pub record Answered (msg : Msg) (rsp : ResponseProtocol) : Type 0 where
  pub head : msg.client_rsp_head ≡ present rsp
  pub request_id : msg.request_id ≡ rsp.request_id
  pub error : msg.client_rsp_err ≡ error_of rsp
  pub serialization : msg.serialization_type ≡ rsp.content_type
  pub compression : msg.compress_type ≡ rsp.content_encoding

abbrev pub kept_attachment : Msg → Bytes → Attachment
kept_attachment msg attm =
    response_attachment msg.client_request_attachment msg.client_response_attachment attm

module _ (pb : Protocol) where
  pub update_msg-Answered :
      (msg : Msg) (h : FrameHead) (rsp : ResponseProtocol) (attm : Bytes) (req : RequestProtocol)
      → msg.client_req_head ≡ present req
      → req.request_id ≡ rsp.request_id
      → msg.client_rsp_err ≡ none
      → msg.client_rsp_head ≡ present rsp
      → ((update_msg pb msg h rsp attm).1 ≡ none)
        × Answered (update_msg pb msg h rsp attm).0 rsp
        × ((update_msg pb msg h rsp attm).0.client_response_attachment ≡ kept_attachment msg attm)
  unfolding update_msg load_or_store_default_request_protocol with_client_rsp_err check_request_id
      accept_rsp response_attachment
  update_msg-Answered msg h rsp attm req sent same clear stored = ground arith

  client_decode_body-ok :
      (msg : Msg) (h : FrameHead) (rsp : ResponseProtocol) (buf head body attm : Bytes)
      → IsFrame buf head body attm
      → h.total_len ≡ length buf
      → rsp.attachment_size ≡ length attm
      → (update_msg pb msg h rsp attm).1 ≡ none
      → client_decode_body pb msg h rsp (16 + length head) buf
        ≡ ((update_msg pb msg h rsp attm).0, ok body)
  unfolding client_decode_body
  client_decode_body-ok msg h rsp buf head body attm f t a u =
      let b : sub_u32 h.total_len rsp.attachment_size ≡ 16 + length head + length body =
        omega arith in
      let s : sub_u32 (length_u32 buf) (16 + length head + length body) ≡ rsp.attachment_size =
        omega arith in
      rw (b, s, ==_refl, f.attachment_part, u, b, f.body_part)

  module _ (proto : Proto) where
    client_decode-found :
        (msg : Msg) (buf part : Bytes) (h : FrameHead) (rsp : ResponseProtocol)
        → msg.client_rsp_head ≡ absent
        → extract buf ≡ ok h
        → h.total_len ≡ length buf
        → length buf < 2 ^ 32
        → h.frame_type ≡ pb.unary_frame
        → 0 < h.header_len
        → 16 + h.header_len ≤ length buf
        → slice 16 (16 + h.header_len) buf ≡ some part
        → proto.unmarshal_rsp part ≡ some rsp
        → client_decode pb proto msg buf
          ≡ client_decode_body pb
              (record msg { frame_head = present h; client_rsp_head = present rsp })
              h
              rsp
              (16 + h.header_len)
              buf
    unfolding client_decode client_decode_head
    client_decode-found msg buf part h rsp none_yet x t l u n fits sl un =
        let i : (16 + h.header_len) % 2 ^ 32 ≡ 16 + h.header_len = omega arith in
        let total : length_u32 buf ≡ length buf = omega arith in
        rw (le→ltb (length buf) 16 (omega arith), x, i, total) (ground (arith, sl, un))

    -- The answer to the request that the message holds: Decode returns the body, and the message
    -- gets the response head, the error that it carries, and the attachment.
    pub client_decode-construct :
        (m : ℕ) (msg : Msg) (h : FrameHead) (rsp : ResponseProtocol) (req : RequestProtocol)
        (head body attm : Bytes) {buf : Bytes}
        → Fits pb h
        → construct pb m h head body attm ≡ ok buf
        → h.frame_type ≡ pb.unary_frame
        → 0 < length head
        → proto.unmarshal_rsp head ≡ some rsp
        → rsp.attachment_size ≡ length attm
        → Awaits msg req
        → req.request_id ≡ rsp.request_id
        → let (msg', result) = client_decode pb proto msg buf in
          (result ≡ ok body)
          × Answered msg' rsp
          × (msg'.client_response_attachment ≡ kept_attachment msg attm)
    client_decode-construct m msg h rsp req head body attm {buf} f e u n p a w same =
        let frame = construct-IsFrame pb m h head body attm e in
        let h' = with_lengths h (length buf) (length head) in
        let msg' : Msg = record msg { frame_head = present h'; client_rsp_head = present rsp } in
        let found =
          client_decode-found msg buf head h' rsp w.no_rsp
            (extract-construct pb m h head body attm f e) refl frame.small u n (omega arith)
            frame.head_part p in
        let (clean, answered, kept) =
          update_msg-Answered msg' h' rsp attm req w.sent same w.no_error refl in
        rw (found, client_decode_body-ok msg' h' rsp buf head body attm frame refl a clean)
          (refl, answered, kept)

    -- The answer to the request that the message holds makes Decode panic, whatever the bytes behind
    -- its header, when it states an attachment that is longer than them.
    pub client_decode-IsPanic :
        (msg : Msg) (buf part : Bytes) (h : FrameHead) (rsp : ResponseProtocol)
        (req : RequestProtocol)
        → extract buf ≡ ok h
        → h.total_len ≡ length buf
        → length buf < 2 ^ 32
        → h.frame_type ≡ pb.unary_frame
        → 0 < h.header_len
        → 16 + h.header_len ≤ length buf
        → slice 16 (16 + h.header_len) buf ≡ some part
        → proto.unmarshal_rsp part ≡ some rsp
        → Awaits msg req
        → req.request_id ≡ rsp.request_id
        → rsp.attachment_size < 2 ^ 32
        → length buf < 16 + h.header_len + rsp.attachment_size
        → IsPanic (client_decode pb proto msg buf).1
    unfolding client_decode_body slice
    client_decode-IsPanic msg buf part h rsp req x t l u n fits sl un w same a big =
        let found = client_decode-found msg buf part h rsp w.no_rsp x t l u n fits sl un in
        let msg' : Msg = record msg { frame_head = present h; client_rsp_head = present rsp } in
        let s : sub_u32 (length_u32 buf) (sub_u32 h.total_len rsp.attachment_size)
            ≡ rsp.attachment_size =
          ground arith in
        let begin = sub_u32 h.total_len rsp.attachment_size in
        let attm = take (length buf - begin) (drop begin buf) in
        let (clean, _, _) = update_msg-Answered msg' h rsp attm req w.sent same w.no_error refl in
        rw (found, s, ==_refl) (ground (arith, clean))
