-- ===== src/Codec/Frame.antt =====
-- codec.go: FrameHead with construct and extract, and the framer's ReadFrame.
pub mod RoundTrip
pub mod Reading
use trpc_go.Common.{
  ℕ, ◌+◌, ◌-◌, ◌%◌, ◌^◌, Bool, not, [], ◌∷◌, ◌++◌, length, ltb, ◌==◌, if◌then◌else◌, get_elem?,
}
use trpc_go.Wire.BigEndian.{Bytes, put_uint16, put_uint32, get_uint16, get_uint32}
use trpc_go.Wire.Slice.{slice, full, eof, unexpected_eof, read_full}
use trpc_go.Codec.Outcome.{
  panic, Outcome, ok, err, ◌>>=◌, checked, head_overflows_uint16, head_overflows_uint32,
  attachment_overflows_uint32, frame_too_large, read_eof, read_unexpected_eof, short_header,
  short_frame, magic_mismatch, total_len_too_small, total_len_too_large,
}

-- The constants of the generated trpc protocol package that codec.go reads.
pub record Protocol : Type 0 where
  pub magic_value : ℕ
  pub unary_frame : ℕ
  pub stream_frame : ℕ
  pub proto_v1 : ℕ
  pub unary_call : ℕ
  pub dyeing_message : ℕ
  pub server_encode_err : ℕ

pub record FrameHead : Type 0 where
  pub frame_type : ℕ
  pub stream_frame_type : ℕ
  pub total_len : ℕ
  pub header_len : ℕ
  pub stream_id : ℕ
  pub protocol_version : ℕ
  pub frame_reserved : ℕ

abbrev pub frame_head_len : ℕ
frame_head_len = 16

abbrev pub cur_protocol_version : ℕ
cur_protocol_version = 1

abbrev pub max_uint16 : ℕ
max_uint16 = 2 ^ 16 - 1

abbrev pub max_uint32 : ℕ
max_uint32 = 2 ^ 32 - 1

-- The zero value of the other fields is Go's.
unfoldable pub new_default_unary_frame_head : Protocol → FrameHead
new_default_unary_frame_head pb = record {
  frame_type = pb.unary_frame;
  stream_frame_type = 0;
  total_len = 0;
  header_len = 0;
  stream_id = 0;
  protocol_version = cur_protocol_version;
  frame_reserved = 0;
}

abbrev pub uint32_at : ℕ → ℕ → Bytes → Outcome ℕ
uint32_at lo hi buf = do part ← checked (slice lo hi buf); checked (get_uint32 part)

abbrev pub uint16_at : ℕ → ℕ → Bytes → Outcome ℕ
uint16_at lo hi buf = do part ← checked (slice lo hi buf); checked (get_uint16 part)

-- `h.extract(buf)`: it assigns every field, so the old head does not matter.
unfoldable pub extract : Bytes → Outcome FrameHead
unfolding slice get_uint16 get_uint32
extract buf = do
  frame_type ← checked (get_elem? buf 2)
  stream_frame_type ← checked (get_elem? buf 3)
  total_len ← uint32_at 4 8 buf
  header_len ← uint16_at 8 10 buf
  stream_id ← uint32_at 10 14 buf
  protocol_version ← checked (get_elem? buf 14)
  frame_reserved ← checked (get_elem? buf 15)
  ok (record {
    frame_type = frame_type;
    stream_frame_type = stream_frame_type;
    total_len = total_len;
    header_len = header_len;
    stream_id = stream_id;
    protocol_version = protocol_version;
    frame_reserved = frame_reserved;
  })

unfoldable pub is_stream : Protocol → FrameHead → Bool
is_stream pb h = h.frame_type == pb.stream_frame

unfoldable pub is_unary : Protocol → FrameHead → Bool
is_unary pb h = h.frame_type == pb.unary_frame

unfoldable pub upgrade_protocol : FrameHead → ℕ → ℕ → FrameHead
upgrade_protocol h version request_id = record h {
  protocol_version = version;
  stream_id = request_id;
}

-- The sixteen bytes that construct writes before the header, each at its place.
unfoldable pub head_bytes : Protocol → FrameHead → ℕ → ℕ → Bytes
unfolding put_uint16 put_uint32
head_bytes pb h total_len header_len =
    put_uint16 pb.magic_value
    ++ (h.frame_type
        ∷ h.stream_frame_type
        ∷ (put_uint32 total_len
            ++ (put_uint16 header_len
                ++ (put_uint32 h.stream_id ++ (h.protocol_version ∷ h.frame_reserved ∷ [])))))

-- `max_frame_size` is the variable DefaultMaxFrameSize. The copies into `buf` fill it from left to
-- right without a gap, so the buffer is their concatenation.
unfoldable pub construct : Protocol → ℕ → FrameHead → Bytes → Bytes → Bytes → Outcome Bytes
construct pb max_frame_size h header body attachment =
    let header_len = length header in
    let attachment_len = length attachment in
    let total_len = frame_head_len + header_len + length body + attachment_len in
    if ltb max_uint16 header_len
    then err head_overflows_uint16
    else if ltb max_uint32 attachment_len
    then err attachment_overflows_uint32
    else if ltb max_frame_size total_len
    then err (frame_too_large max_frame_size)
    else if ltb max_uint32 total_len
    then err head_overflows_uint32
    else ok (head_bytes pb h total_len header_len ++ (header ++ (body ++ attachment)))

-- The second half of ReadFrame: what follows the check of the magic number. The second test is that
-- of Go for the slice msg[frameHeadLen:totalLen] of total_len bytes, which panics out of order.
unfoldable pub read_rest : ℕ → Bytes → Bytes → ℕ → Outcome (Bytes × Bytes)
unfolding read_full
read_rest max_frame_size header stream total_len =
    if ltb total_len frame_head_len
    then err (total_len_too_small total_len)
    else if ltb (max_frame_size % 2 ^ 32) total_len
    then err (total_len_too_large total_len)
    else if ltb total_len frame_head_len
    then panic
    else elim (read_full (total_len - frame_head_len) stream) [
      | eof ↦ err read_eof
      | unexpected_eof ↦ err read_unexpected_eof
      | full msg rest ↦
          if not (length msg == total_len - frame_head_len)
          then err short_frame
          else ok (header ++ msg, rest)
    ]

-- ReadFrame on a reader whose bytes are `stream`: the frame and what is left to read.
unfoldable pub read_frame : Protocol → ℕ → Bytes → Outcome (Bytes × Bytes)
unfolding read_full read_rest slice get_uint16 get_uint32
read_frame pb max_frame_size stream = elim (read_full frame_head_len stream) [
  | eof ↦ err read_eof
  | unexpected_eof ↦ err read_unexpected_eof
  | full header rest ↦ if not (length header == frame_head_len) then err short_header else do
    magic ← uint16_at 0 2 header
    total_len ← uint32_at 4 8 header
    if not (magic == pb.magic_value)
        then err (magic_mismatch magic)
        else read_rest max_frame_size header rest total_len
]

-- FramerBuilder.Parse: the frame with the stream id that its head carries.
unfoldable pub parse : Protocol → ℕ → Bytes → Outcome (ℕ × Bytes × Bytes)
parse pb max_frame_size stream = do
  frame ← read_frame pb max_frame_size stream
  id ← uint32_at 10 14 (frame.0)
  ok (id, frame.0, frame.1)
