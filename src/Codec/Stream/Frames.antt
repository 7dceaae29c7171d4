-- ===== src/Codec/Stream/Frames.antt =====
-- codec_stream.go: the steps of the two codecs on a frame of known type, and the frame between them.
use trpc_go.Common.{
  ℕ, ◌+◌, ◌^◌, ◌<◌, ◌≡◌, ◌≢◌, refl, sym, ◌∙◌, ap, not, true, [], Option, none, some, length, ◌++◌,
  length-append, ◌==◌, ==_iff, if◌then◌else◌, arith, Option-cases, inl, inr,
}
use mathlib.Core.List.{append-nil}
use trpc_go.Wire.BigEndian.{Bytes}
use trpc_go.Wire.Slice.{slice, slice_end}
use trpc_go.Codec.Outcome.{ok, err, panic, checked, uninitialized_meta}
use trpc_go.Codec.Frame.{Protocol, FrameHead, extract, is_stream, head_bytes}
use trpc_go.Codec.Frame.RoundTrip.{
  Fits, with_lengths, total_of, construct-eq-ok, extract-construct, length-head_bytes,
}
use trpc_go.Codec.Message.{Head, present}
use trpc_go.Codec.Stream.{
  InitRequestMeta, InitMeta, CloseMeta, StreamProtocol, StreamProto, StreamMsg, with_msg,
  behind_head, frame_write, InitMetas, addr_to_key, find_init_meta,
}
use trpc_go.Codec.Stream.Client.{
  by_type, on_head, client_encode_frame, marshalled, client_stream_encode, client_stream_decode,
  client_decode_frame, client_encode_init_frame,
}
use trpc_go.Codec.Stream.Server.{
  set_init_meta, initialised, server_stream_decode, server_decode_frame, server_stream_encode,
  server_encode_frame,
}

-- The four types of frame differ and are bytes.
pub record IsStreamProtocol (sp : StreamProtocol) : Type 0 where
  pub init_data : sp.init_type ≢ sp.data_type
  pub init_close : sp.init_type ≢ sp.close_type
  pub data_close : sp.data_type ≢ sp.close_type
  pub close_byte : sp.close_type < 2 ^ 8

-- What protobuf documents: Unmarshal inverts Marshal.
pub record IsStreamProto (proto : StreamProto) : Type 0 where
  pub init_round :
      (x : InitMeta) (b : Bytes) → proto.marshal_init x ≡ some b → proto.unmarshal_init b ≡ some x
  pub close_round :
      (x : CloseMeta) (b : Bytes)
      → proto.marshal_close x ≡ some b
      → proto.unmarshal_close b ≡ some x

-- The receiver's message: Decode of codec.go has stored the frame head, and the stream codec takes
-- the stream id from it.
abbrev pub read_by : StreamMsg → FrameHead → StreamMsg
read_by sm h = with_msg sm (record (sm.msg) { frame_head = present h })

abbrev pub streamed : StreamMsg → FrameHead → StreamMsg
streamed sm h = record (read_by sm h) { stream_id = h.stream_id }

-- The head that the receiver extracts from the frame.
abbrev pub head_read : FrameHead → Bytes → FrameHead
head_read h buf = with_lengths h (length buf) 0

module _ (pb : Protocol) (m : ℕ) (h : FrameHead) (body : Bytes) {buf : Bytes} where
  pub behind-frame_write : frame_write pb m h body ≡ ok buf → behind_head buf ≡ ok body
  unfolding frame_write behind_head
  behind-frame_write e =
      let (_, _, _, eq) = construct-eq-ok pb m h [] body [] e in
      let first = head_bytes pb h (total_of [] body []) 0 in
      let whole : buf ≡ first ++ body = eq ∙ ap (λ s. first ++ s) (append-nil body) in
      let l16 : length first ≡ 16 = length-head_bytes pb h _ _ in
      let size : length buf ≡ length first + length body = rw whole (length-append first body) in
      let part : slice 16 (length buf) buf ≡ some body =
        ap (slice 16 (length buf)) whole ∙ slice_end 16 (length buf) first body (sym l16) size in
      ap checked part

  pub extract-frame_write :
      Fits pb h → frame_write pb m h body ≡ ok buf → extract buf ≡ ok (head_read h buf)
  unfolding frame_write
  extract-frame_write f e = extract-construct pb m h [] body [] f e

module _ {ℓ} {A : Type ℓ} (sp : StreamProtocol) (i : IsStreamProtocol sp) (t : ℕ)
    (a b c d e : A) where
  pub by_type-init : t ≡ sp.init_type → by_type sp t a b c d e ≡ a
  unfolding by_type
  by_type-init q = ground arith

  pub by_type-data : t ≡ sp.data_type → by_type sp t a b c d e ≡ b
  unfolding by_type
  by_type-data q = ground (arith, i.init_data)

  pub by_type-close : t ≡ sp.close_type → by_type sp t a b c d e ≡ c
  unfolding by_type
  by_type-close q = ground (arith, i.init_close, i.data_close)

set-none :
    (metas : InitMetas) (sm : StreamMsg)
    → find_init_meta (addr_to_key sm) sm.stream_id metas ≡ none
    → set_init_meta metas sm ≡ none
unfolding set_init_meta
set-none metas sm a = rw (set_init_meta, a)

set-some :
    (metas : InitMetas) (sm : StreamMsg) {req : InitRequestMeta}
    → find_init_meta (addr_to_key sm) sm.stream_id metas ≡ some req
    → set_init_meta metas sm ≡ some (with_msg sm (record (sm.msg) { server_rpc_name = req.func }))
unfolding set_init_meta
set-some metas sm a = rw (set_init_meta, a)

-- A frame that one of the stream codecs may send.
pub record IsStreamHead (pb : Protocol) (h : FrameHead) (type : ℕ) : Type 0 where
  pub fits : Fits pb h
  pub stream : h.frame_type ≡ pb.stream_frame
  pub kind : h.stream_frame_type ≡ type

pub panic-ne-ok : {buf : Bytes} → panic ≢ ok buf
panic-ne-ok e = cc

pub marshalled-eq-ok :
    (pb : Protocol) (m : ℕ) (h : FrameHead) (o : Option Bytes) {buf : Bytes}
    → marshalled pb m h o ≡ ok buf
    → (part : Bytes) × (o ≡ some part) × (frame_write pb m h part ≡ ok buf)
marshalled-eq-ok pb m h none e = cc
marshalled-eq-ok pb m h (some part) e = (part, refl, e)

-- The two tests at the start of every method.
pub on_stream {ℓ} :
    {A : Type ℓ} (pb : Protocol) (h : FrameHead) {o : Head FrameHead} (f : FrameHead → A) (x d : A)
    → h.frame_type ≡ pb.stream_frame
    → o ≡ present h
    → on_head o (λ h'. if not (is_stream pb h') then x else f h') d ≡ f h
unfolding is_stream
on_stream pb h f x d stream q =
    let same : (h.frame_type == pb.stream_frame) ≡ true = (==_iff _ _).1 stream in rw (q, same)

module _ (pb : Protocol) (sp : StreamProtocol) (proto : StreamProto) where
  pub server_dispatch :
      (metas : InitMetas) (h : FrameHead) (sm : StreamMsg) (buf : Bytes)
      → h.frame_type ≡ pb.stream_frame
      → server_stream_decode pb sp proto metas (read_by sm h) buf
        ≡ server_decode_frame pb sp proto metas h (streamed sm h) buf
  unfolding server_stream_decode is_stream
  server_dispatch metas h sm buf q =
      let same : (h.frame_type == pb.stream_frame) ≡ true = (==_iff _ _).1 q in rw same

  pub client_dispatch :
      (h : FrameHead) (sm : StreamMsg) (buf : Bytes)
      → h.frame_type ≡ pb.stream_frame
      → client_stream_decode pb sp proto (read_by sm h) buf
        ≡ client_decode_frame pb sp proto h (streamed sm h) buf
  unfolding client_stream_decode is_stream
  client_dispatch h sm buf q =
      let same : (h.frame_type == pb.stream_frame) ≡ true = (==_iff _ _).1 q in rw same

module _ (pb : Protocol) (sp : StreamProtocol) (proto : StreamProto) (m : ℕ) (caller : Bytes) where
  pub client_encodes :
      (h : FrameHead) (client : StreamMsg) (body : Bytes)
      → h.frame_type ≡ pb.stream_frame
      → client.msg.frame_head ≡ present h
      → client_stream_encode pb sp proto m caller client body
        ≡ client_encode_frame pb sp proto m caller h client body
  unfolding client_stream_encode is_stream
  client_encodes h client body stream head_sent = on_stream pb h _ _ _ stream head_sent

  pub server_encodes :
      (metas : InitMetas) (h : FrameHead) (server : StreamMsg) (body : Bytes)
      → h.frame_type ≡ pb.stream_frame
      → server.msg.frame_head ≡ present h
      → server_stream_encode pb sp proto m metas server body
        ≡ server_encode_frame pb sp proto m metas h server body
  unfolding server_stream_encode is_stream
  server_encodes metas h server body stream head_sent = on_stream pb h _ _ _ stream head_sent

  pub client_sends_data :
      (h : FrameHead) (client : StreamMsg) (body : Bytes)
      → IsStreamProtocol sp
      → h.stream_frame_type ≡ sp.data_type
      → client_encode_frame pb sp proto m caller h client body ≡ (client, frame_write pb m h body)
  unfolding client_encode_frame
  client_sends_data h client body sp_ok kind =
      by_type-data sp sp_ok (h.stream_frame_type) _ _ _ _ _ kind

  pub client_sends_init :
      (h : FrameHead) (client : StreamMsg) (body : Bytes)
      → IsStreamProtocol sp
      → h.stream_frame_type ≡ sp.init_type
      → client_encode_frame pb sp proto m caller h client body
        ≡ client_encode_init_frame pb sp proto m caller h client
  unfolding client_encode_frame
  client_sends_init h client body sp_ok kind =
      by_type-init sp sp_ok (h.stream_frame_type) _ _ _ _ _ kind

  pub server_gets_data :
      (h : FrameHead) (sm : StreamMsg) (metas : InitMetas) (body buf : Bytes)
      → IsStreamProtocol sp
      → h.stream_frame_type ≡ sp.data_type
      → behind_head buf ≡ ok body
      → server_decode_frame pb sp proto metas h sm buf
        ≡ (elim (find_init_meta (addr_to_key sm) sm.stream_id metas) [
          | none ↦ (metas, sm, err uninitialized_meta)
          | some req ↦
              (metas, with_msg sm (record (sm.msg) { server_rpc_name = req.func }), ok body)
        ])
  unfolding server_decode_frame
  server_gets_data h sm metas body buf sp_ok kind part =
      rw (server_decode_frame, by_type-data sp sp_ok (h.stream_frame_type) _ _ _ _ _ kind, part)
        (elim (Option-cases (find_init_meta (addr_to_key sm) sm.stream_id metas)) [
          | inl a ↦ rw (initialised, set-none metas sm a, a)
          | inr (meta, a) ↦ rw (initialised, set-some metas sm a, a)
        ])
