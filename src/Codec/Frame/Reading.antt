-- ===== src/Codec/Frame/Reading.antt =====
-- codec.go: what ReadFrame accepts from an arbitrary stream.
use trpc_go.Common.{
  ℕ, ◌+◌, ◌-◌, ◌%◌, ◌^◌, ◌≤◌, ◌≡◌, refl, [], ◌∷◌, ◌++◌, some, length, arith, leb, length-append,
  take, drop, take-append-drop, length-take, length-drop, Bool-cases, inl, inr,
}
use mathlib.Core.List.{append_assoc}
use trpc_go.Wire.BigEndian.{Bytes, get_uint16, get_uint32}
use trpc_go.Wire.Slice.{slice, slice-append}
use trpc_go.Codec.Outcome.{Outcome, ok, IsPanic}
use trpc_go.Codec.Frame.{Protocol, read_frame, read_rest, uint16_at, uint32_at}

read_rest-eq-ok :
    (m : ℕ) (header s : Bytes) (t : ℕ) {buf rest : Bytes}
    → length header ≡ 16
    → read_rest m header s t ≡ ok (buf, rest)
    → (msg : Bytes) × (buf ≡ header ++ msg)
      × (s ≡ msg ++ rest)
      × (length buf ≡ t)
      × (16 ≤ t)
      × (t ≤ m % 2 ^ 32)
unfolding read_rest
read_rest-eq-ok m header s t e h =
    let msg = take (t - 16) s in
    (
      msg,
      ground arith,
      ground (arith, take-append-drop (t - 16) s),
      ground (arith, length-take (t - 16) s, length-append header msg),
      ground arith,
      ground arith,
    )

abbrev or_zero : Outcome ℕ → ℕ
or_zero (ok t) = t
or_zero _ = 0

-- The head of the stream decides: its magic number and its total length.
read_frame-split :
    (pb : Protocol) (m : ℕ) (s : Bytes) {buf rest : Bytes}
    → read_frame pb m s ≡ ok (buf, rest)
    → let header = take 16 s in
      let t = or_zero (uint32_at 4 8 header) in
      (16 ≤ length s)
      × (uint16_at 0 2 header ≡ ok pb.magic_value)
      × (uint32_at 4 8 header ≡ ok t)
      × (read_rest m header (drop 16 s) t ≡ ok (buf, rest))
unfolding read_frame
read_frame-split pb m s e = ground (arith)

uint32_at-append :
    (lo hi : ℕ) (a b : Bytes)
    → lo ≤ hi
    → hi ≤ length a
    → uint32_at lo hi (a ++ b) ≡ uint32_at lo hi a
uint32_at-append lo hi a b p q = rw (slice-append lo hi a b p q)

uint16_at-append :
    (lo hi : ℕ) (a b : Bytes)
    → lo ≤ hi
    → hi ≤ length a
    → uint16_at lo hi (a ++ b) ≡ uint16_at lo hi a
uint16_at-append lo hi a b p q = rw (slice-append lo hi a b p q)

-- A frame that ReadFrame returns is a prefix of the stream, and the stream goes on behind it. The
-- frame begins with the magic number, the total length written in its head is its own length, and
-- that length lies between the head's sixteen bytes and the limit.
pub read_frame-eq-ok :
    (pb : Protocol) (m : ℕ) (s : Bytes) {buf rest : Bytes}
    → read_frame pb m s ≡ ok (buf, rest)
    → (s ≡ buf ++ rest)
      × (16 ≤ length buf)
      × (length buf ≤ m)
      × (uint16_at 0 2 buf ≡ ok pb.magic_value)
      × (uint32_at 4 8 buf ≡ ok (length buf))
read_frame-eq-ok pb m s {rest} e =
    let (h16, hm, ht, hr) = read_frame-split pb m s e in
    let h : length (take 16 s) ≡ 16 = omega (arith, length-take 16 s) in
    let (msg, eb, es, el, lo, hi) = read_rest-eq-ok m _ _ _ h hr in
    (
      cc (take-append-drop 16 s, es, eb, append_assoc (take 16 s) msg rest),
      omega arith,
      omega arith,
      rw (eb, uint16_at-append 0 2 (take 16 s) msg (omega arith) (omega arith)) hm,
      rw (el, eb, uint32_at-append 4 8 (take 16 s) msg (omega arith) (omega arith)) ht,
    )

get_uint32_total : (b : Bytes) → 4 ≤ length b → (v : ℕ) × (get_uint32 b ≡ some v)
unfolding get_uint32
get_uint32_total (x ∷ y ∷ z ∷ w ∷ _) h = (_, refl)
get_uint32_total [] h = absurd (omega arith)
get_uint32_total (x ∷ []) h = absurd (omega arith)
get_uint32_total (x ∷ y ∷ []) h = absurd (omega arith)
get_uint32_total (x ∷ y ∷ z ∷ []) h = absurd (omega arith)

get_uint16_total : (b : Bytes) → 2 ≤ length b → (v : ℕ) × (get_uint16 b ≡ some v)
unfolding get_uint16
get_uint16_total (x ∷ y ∷ _) h = (_, refl)
get_uint16_total [] h = absurd (omega arith)
get_uint16_total (x ∷ []) h = absurd (omega arith)

pub uint32_at_total :
    (lo : ℕ) (b : Bytes) → lo + 4 ≤ length b → (v : ℕ) × (uint32_at lo (lo + 4) b ≡ ok v)
unfolding slice
uint32_at_total lo b h =
    let part = take (lo + 4 - lo) (drop lo b) in
    let (v, e) =
      get_uint32_total part
        (omega (arith, length-take (lo + 4 - lo) (drop lo b), length-drop lo b)) in
    (v, ground (arith, e))

pub uint16_at_total :
    (lo : ℕ) (b : Bytes) → lo + 2 ≤ length b → (v : ℕ) × (uint16_at lo (lo + 2) b ≡ ok v)
unfolding slice
uint16_at_total lo b h =
    let part = take (lo + 2 - lo) (drop lo b) in
    let (v, e) =
      get_uint16_total part
        (omega (arith, length-take (lo + 2 - lo) (drop lo b), length-drop lo b)) in
    (v, ground (arith, e))

read_rest_safe : (m : ℕ) (header s : Bytes) (t : ℕ) → ¬ IsPanic (read_rest m header s t)
unfolding read_rest
read_rest_safe m header s t p = ground arith

-- ReadFrame never panics, on any stream.
pub read_frame_safe : (pb : Protocol) (m : ℕ) (s : Bytes) → ¬ IsPanic (read_frame pb m s)
unfolding read_frame
read_frame_safe pb m s p = elim (Bool-cases (leb 16 (length s))) [
  | inl le ↦ ground (
    arith,
    length-take 16 s,
    (uint16_at_total 0 (take 16 s)),
    (uint32_at_total 4 (take 16 s)),
    read_rest_safe m (take 16 s) (drop 16 s) (or_zero (uint32_at 4 8 (take 16 s))),
  )
  | inr gt ↦ ground arith
]
