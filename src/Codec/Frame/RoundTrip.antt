-- ===== src/Codec/Frame/RoundTrip.antt =====
-- codec.go: what ReadFrame and extract make of a frame that construct built.
use trpc_go.Common.{
  ℕ, ◌+◌, ◌-◌, ◌^◌, ◌<◌, ◌≤◌, ◌≡◌, refl, ◌++◌, length, arith, length-append, take-length,
  drop-length,
}
use mathlib.Core.List.{append_assoc}
use trpc_go.Wire.BigEndian.{Bytes}
use trpc_go.Codec.Outcome.{ok}
use trpc_go.Codec.Frame.{
  Protocol, FrameHead, frame_head_len, head_bytes, construct, extract, read_frame, read_rest,
}

-- The fields that construct takes from the head fit their Go types, and so does the magic number.
pub record Fits (pb : Protocol) (h : FrameHead) : Type 0 where
  pub magic : pb.magic_value < 2 ^ 16
  pub frame_type : h.frame_type < 2 ^ 8
  pub stream_frame_type : h.stream_frame_type < 2 ^ 8
  pub stream_id : h.stream_id < 2 ^ 32
  pub protocol_version : h.protocol_version < 2 ^ 8
  pub frame_reserved : h.frame_reserved < 2 ^ 8

-- The head as extract reads it back: with the two lengths that construct computed.
abbrev pub with_lengths : FrameHead → ℕ → ℕ → FrameHead
with_lengths h total_len header_len = record h { total_len = total_len; header_len = header_len }

abbrev pub total_of : Bytes → Bytes → Bytes → ℕ
total_of header body attachment = frame_head_len + length header + length body + length attachment

pub length-head_bytes :
    (pb : Protocol) (h : FrameHead) (t l : ℕ) → length (head_bytes pb h t l) ≡ 16
unfolding head_bytes
length-head_bytes pb h t l = refl

-- The inversion of a successful construct: the bounds that it checked, and the bytes.
pub construct-eq-ok :
    (pb : Protocol) (m : ℕ) (h : FrameHead) (header body attachment : Bytes) {buf : Bytes}
    → construct pb m h header body attachment ≡ ok buf
    → (length header < 2 ^ 16)
      × (total_of header body attachment ≤ m)
      × (total_of header body attachment < 2 ^ 32)
      × (buf
          ≡ head_bytes pb h (total_of header body attachment) (length header)
            ++ (header ++ (body ++ attachment)))
unfolding construct
construct-eq-ok pb m h header body attachment e = ground arith

length-payload :
    (header body attachment : Bytes)
    → length (header ++ (body ++ attachment)) ≡ length header + length body + length attachment
length-payload header body attachment =
    omega (arith, length-append header (body ++ attachment), length-append body attachment)

extract-head_bytes :
    (pb : Protocol) (h : FrameHead) (t l : ℕ) (rest : Bytes)
    → Fits pb h
    → t < 2 ^ 32
    → l < 2 ^ 16
    → extract (head_bytes pb h t l ++ rest) ≡ ok (with_lengths h t l)
unfolding extract head_bytes
extract-head_bytes pb h t l rest f ht hl = ground arith

read_frame-head_bytes :
    (pb : Protocol) (m : ℕ) (h : FrameHead) (t l : ℕ) (s : Bytes)
    → pb.magic_value < 2 ^ 16
    → t < 2 ^ 32
    → read_frame pb m (head_bytes pb h t l ++ s) ≡ read_rest m (head_bytes pb h t l) s t
unfolding read_frame head_bytes
read_frame-head_bytes pb m h t l s hm ht = ground arith

read_rest-append :
    (m : ℕ) (header payload rest : Bytes) (t : ℕ)
    → t ≡ frame_head_len + length payload
    → t ≤ m
    → m < 2 ^ 32
    → read_rest m header (payload ++ rest) t ≡ ok (header ++ payload, rest)
unfolding read_rest
read_rest-append m header payload rest t e ht hm =
    let d : t - frame_head_len ≡ length payload = omega arith in
    rw d (
      ground
        (arith, take-length payload rest, drop-length payload rest, length-append payload rest))

-- A frame that construct built is read back whole, and what follows it in the stream is left for
-- the next call, when the sender's and the reader's limit is below 2^32.
pub read_frame-construct :
    (pb : Protocol) (m : ℕ) (h : FrameHead) (header body attachment rest : Bytes) {buf : Bytes}
    → Fits pb h
    → m < 2 ^ 32
    → construct pb m h header body attachment ≡ ok buf
    → read_frame pb m (buf ++ rest) ≡ ok (buf, rest)
read_frame-construct pb m h header body attachment rest {buf} f hm e =
    let (_, hle, hlt, eq) = construct-eq-ok pb m h header body attachment e in
    rw (eq, append_assoc, read_frame-head_bytes pb m h _ _ _ f.magic hlt)
      (read_rest-append m _ _ rest _ (omega (arith, length-payload header body attachment)) hle hm)

pub length-construct :
    (pb : Protocol) (m : ℕ) (h : FrameHead) (header body attachment : Bytes) {buf : Bytes}
    → construct pb m h header body attachment ≡ ok buf
    → length buf ≡ total_of header body attachment
length-construct pb m h header body attachment e =
    let (_, _, _, eq) = construct-eq-ok pb m h header body attachment e in
    rw (eq, length-append, length-head_bytes) (omega (arith, length-payload header body attachment))

-- extract reads back every field that construct wrote: those of the head, the total length and the
-- header's length.
pub extract-construct :
    (pb : Protocol) (m : ℕ) (h : FrameHead) (header body attachment : Bytes) {buf : Bytes}
    → Fits pb h
    → construct pb m h header body attachment ≡ ok buf
    → extract buf ≡ ok (with_lengths h (length buf) (length header))
extract-construct pb m h header body attachment {buf} f e =
    let (hl, hle, hlt, eq) = construct-eq-ok pb m h header body attachment e in
    let size : length buf ≡ total_of header body attachment =
      length-construct pb m h header body attachment e in
    rw (size, eq) (extract-head_bytes pb h _ _ _ f hlt hl)

abbrev pub frame_of : Protocol → FrameHead → Bytes → Bytes → Bytes → Bytes
frame_of pb h header body attachment =
    head_bytes pb h (total_of header body attachment) (length header)
    ++ (header ++ (body ++ attachment))

-- construct builds every frame that keeps within the limit and the fields' widths.
pub construct_fits :
    (pb : Protocol) (m : ℕ) (h : FrameHead) (header body attachment : Bytes)
    → length header < 2 ^ 16
    → total_of header body attachment ≤ m
    → m < 2 ^ 32
    → construct pb m h header body attachment ≡ ok (frame_of pb h header body attachment)
unfolding construct
construct_fits pb m h header body attachment a b c = ground arith
