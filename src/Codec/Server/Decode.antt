-- ===== src/Codec/Server/Decode.antt =====
-- codec.go: what ServerCodec.Decode makes of a frame that construct built.
use trpc_go.Common.{
  ℕ, ◌+◌, ◌%◌, ◌^◌, ◌<◌, ◌≤◌, ◌≡◌, refl, ◌++◌, some, length, arith, ◌↔◌, le→ltb, ==_refl,
  length-append, ◌∙◌,
}
use mathlib.Core.List.{append_assoc}
use trpc_go.Wire.BigEndian.{Bytes}
use trpc_go.Wire.Slice.{slice, slice_middle, slice_end}
use trpc_go.Codec.Outcome.{ok, IsPanic}
use trpc_go.Codec.Frame.{Protocol, FrameHead, head_bytes, construct, extract}
use trpc_go.Codec.Frame.RoundTrip.{
  Fits, with_lengths, total_of, construct-eq-ok, extract-construct, length-construct,
  length-head_bytes,
}
use trpc_go.Codec.Message.{RequestProtocol, present, Msg}
use trpc_go.Codec.Server.{
  Proto, server_decode, server_decode_head, server_decode_body, sub_u32, length_u32,
  msg_with_request_protocol,
}

-- The four parts of a frame, as slices of it.
pub record IsFrame (buf head body attm : Bytes) : Type 0 where
  pub size : length buf ≡ 16 + length head + length body + length attm
  pub small : length buf < 2 ^ 32
  pub head_small : length head < 2 ^ 16
  pub head_part : slice 16 (16 + length head) buf ≡ some head
  pub body_part : slice (16 + length head) (16 + length head + length body) buf ≡ some body
  pub attachment_part : slice (16 + length head + length body) (length buf) buf ≡ some attm

pub construct-IsFrame :
    (pb : Protocol) (m : ℕ) (h : FrameHead) (head body attm : Bytes) {buf : Bytes}
    → construct pb m h head body attm ≡ ok buf
    → IsFrame buf head body attm
construct-IsFrame pb m h head body attm {buf} e =
    let (hh, _, hs, eq) = construct-eq-ok pb m h head body attm e in
    let first = head_bytes pb h (total_of head body attm) (length head) in
    let l16 : length first ≡ 16 = length-head_bytes pb h _ _ in
    let sz : length buf ≡ total_of head body attm = length-construct pb m h head body attm e in
    let size_fh : length (first ++ head) ≡ 16 + length head =
      omega (arith, length-append first head) in
    let regroup : first ++ (head ++ (body ++ attm)) ≡ ((first ++ head) ++ body) ++ attm =
      cc (append_assoc first head (body ++ attm), append_assoc (first ++ head) body attm) in
    record {
      size = sz;
      small = omega arith;
      head_small = hh;
      head_part = rw eq (slice_middle _ _ first head (body ++ attm) (omega arith) (omega arith));
      body_part =
          rw (eq, ← append_assoc)
            (slice_middle _ _ (first ++ head) body attm (omega arith) (omega arith));
      attachment_part =
          rw (sz, eq, regroup)
            (slice_end _ _ ((first ++ head) ++ body) attm
              (omega (arith, length-append (first ++ head) body))
              (omega (arith, length-append (first ++ head) body)));
    }

module _ (pb : Protocol) (proto : Proto) where
  -- From a frame with its four parts, the request and an attachment size that is right.
  pub server_decode_body-IsFrame :
      (msg : Msg) (h : FrameHead) (req : RequestProtocol) (buf head body attm : Bytes)
      → IsFrame buf head body attm
      → h.total_len ≡ length buf
      → req.attachment_size ≡ length attm
      → server_decode_body pb msg h req (16 + length head) buf
        ≡ (msg_with_request_protocol pb msg req attm, ok body)
  unfolding server_decode_body
  server_decode_body-IsFrame msg h req buf head body attm f t a =
      let b : sub_u32 h.total_len req.attachment_size ≡ 16 + length head + length body =
        omega arith in
      let s : sub_u32 (length_u32 buf) (16 + length head + length body) ≡ req.attachment_size =
        omega arith in
      rw (b, s, ==_refl, f.attachment_part, b, f.body_part)

  pub server_decode_head-IsFrame :
      (msg : Msg) (h : FrameHead) (req : RequestProtocol) (buf head body attm : Bytes)
      → IsFrame buf head body attm
      → h.total_len ≡ length buf
      → h.header_len ≡ length head
      → h.frame_type ≡ pb.unary_frame
      → 0 < length head
      → proto.unmarshal_req head ≡ some req
      → server_decode_head pb proto msg h buf
        ≡ server_decode_body pb msg h req (16 + length head) buf
  unfolding server_decode_head
  server_decode_head-IsFrame msg h req buf head body attm f t l u n e =
      let i : (16 + h.header_len) % 2 ^ 32 ≡ 16 + length head = omega arith in
      let total : length_u32 buf ≡ length buf = omega arith in
      rw (i, total) (ground (arith, f.head_part))

  -- A unary frame that construct built is decoded to its body, and the message gets the request and
  -- the attachment, if the header unmarshals to a request that states the attachment's length.
  pub server_decode-construct :
      (m : ℕ) (msg : Msg) (h : FrameHead) (req : RequestProtocol) (head body attm : Bytes)
      {buf : Bytes}
      → Fits pb h
      → construct pb m h head body attm ≡ ok buf
      → h.frame_type ≡ pb.unary_frame
      → 0 < length head
      → proto.unmarshal_req head ≡ some req
      → req.attachment_size ≡ length attm
      → server_decode pb proto msg buf ≡ (
        msg_with_request_protocol pb
            (record msg { frame_head = present (with_lengths h (length buf) (length head)) })
            req
            attm,
        ok body,
      )
  unfolding server_decode
  server_decode-construct m msg h req head body attm {buf} f e u n p a =
      let frame = construct-IsFrame pb m h head body attm e in
      let read = extract-construct pb m h head body attm f e in
      let h' = with_lengths h (length buf) (length head) in
      let msg' : Msg = record msg { frame_head = present h' } in
      rw (le→ltb (length buf) 16 (omega arith), read)
        (server_decode_head-IsFrame msg' h' req buf head body attm frame refl refl u n p
          ∙ server_decode_body-IsFrame msg' h' req buf head body attm frame refl a)

  -- The length check on the attachment never fires: the outcome is the body or a panic.
  server_decode_body_exact :
      (msg : Msg) (h : FrameHead) (req : RequestProtocol) (head_end : ℕ) (buf : Bytes)
      → h.total_len ≡ length buf
      → length buf < 2 ^ 32
      → req.attachment_size < 2 ^ 32
      → head_end ≤ length buf
      → IsPanic (server_decode_body pb msg h req head_end buf).1
        ↔ (length buf < head_end + req.attachment_size)
  unfolding server_decode_body slice
  server_decode_body_exact msg h req head_end buf t l a e =
      let s : sub_u32 (length_u32 buf) (sub_u32 h.total_len req.attachment_size)
          ≡ req.attachment_size =
        ground arith in
      rw (s, ==_refl) (ground arith, ground arith)

  -- A unary frame whose length is the one in its head, and whose header unmarshals, makes Decode
  -- panic exactly when the attachment size that the header states is more than the bytes that follow
  -- the header.
  pub server_decode-IsPanic :
      (msg : Msg) (buf part : Bytes) (h : FrameHead) (req : RequestProtocol)
      → extract buf ≡ ok h
      → h.total_len ≡ length buf
      → length buf < 2 ^ 32
      → h.frame_type ≡ pb.unary_frame
      → 0 < h.header_len
      → 16 + h.header_len ≤ length buf
      → slice 16 (16 + h.header_len) buf ≡ some part
      → proto.unmarshal_req part ≡ some req
      → req.attachment_size < 2 ^ 32
      → IsPanic (server_decode pb proto msg buf).1
        ↔ (length buf < 16 + h.header_len + req.attachment_size)
  unfolding server_decode server_decode_head
  server_decode-IsPanic msg buf part h req x t l u n fits sl un a =
      let i : (16 + h.header_len) % 2 ^ 32 ≡ 16 + h.header_len = omega arith in
      let msg' : Msg = record msg { frame_head = present h } in
      let total : length_u32 buf ≡ length buf = omega arith in
      let found : server_decode pb proto msg buf
          ≡ server_decode_body pb msg' h req (16 + h.header_len) buf =
        rw (le→ltb (length buf) 16 (omega arith), x, i, total) (ground (arith, sl, un)) in
      rw found (server_decode_body_exact msg' h req (16 + h.header_len) buf t l a fits)
