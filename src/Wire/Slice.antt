-- ===== src/Wire/Slice.antt =====
-- Go's slice expressions and io.ReadFull.
use trpc_go.Common.{
  ◌+◌, ◌<◌, drop-length, take-length, take-all, ℕ, ◌-◌, Option, none, some, length, ltb, leb, take,
  drop, if◌then◌else◌, ◌==◌, ◌++◌, ◌≡◌, ◌≤◌, arith, length-append, length-drop, length-take,
  drop-append, take-append, take-append-drop,
}
use trpc_go.Wire.BigEndian.{Bytes}

-- buf[lo:hi]; `none` is the run-time panic "slice bounds out of range".
unfoldable pub slice : ℕ → ℕ → Bytes → Option Bytes
slice lo hi buf =
    if ltb (length buf) hi
    then none
    else if ltb hi lo
    then none
    else some (take (hi - lo) (drop lo buf))

-- What io.ReadFull returns: the bytes and the stream behind them, io.EOF if the stream was at its
-- end, or io.ErrUnexpectedEOF if it ended early.
pub data Read : Type 0 where
  full : Bytes → Bytes → Read
  eof unexpected_eof : Read

-- io.ReadFull(reader, buf) with len(buf) = n, on a stream of the given bytes.
unfoldable pub read_full : ℕ → Bytes → Read
read_full n stream =
    if leb n (length stream)
    then full (take n stream) (drop n stream)
    else if length stream == 0
    then eof
    else unexpected_eof

-- A slice that lies in the first part is a slice of that part.
pub slice-append :
    (lo hi : ℕ) (a b : Bytes) → lo ≤ hi → hi ≤ length a → slice lo hi (a ++ b) ≡ slice lo hi a
unfolding slice
slice-append lo hi a b p q = ground (
  arith,
  length-append a b,
  drop-append lo a b (omega arith),
  take-append (hi - lo) (drop lo a) b (omega (arith, length-drop lo a)),
)

-- What io.ReadFull returns without an error is the first n bytes of the stream.
pub read_full-full :
    (n : ℕ) (s : Bytes) {a b : Bytes} → read_full n s ≡ full a b → (s ≡ a ++ b) × (length a ≡ n)
unfolding read_full
read_full-full n s e = ground (arith, take-append-drop n s, length-take n s)

-- The middle of three parts, found by the lengths of the first two.
pub slice_middle :
    (lo hi : ℕ) (a b c : Bytes)
    → lo ≡ length a
    → hi ≡ length a + length b
    → slice lo hi (a ++ (b ++ c)) ≡ some b
unfolding slice
slice_middle lo hi a b c p q =
    let d : hi - lo ≡ length b = omega arith in
    rw (d, p, drop-length)
      (ground (arith, length-append a (b ++ c), length-append b c, take-length b c))

-- The last part, up to the end.
pub slice_end :
    (lo hi : ℕ) (a b : Bytes)
    → lo ≡ length a
    → hi ≡ length a + length b
    → slice lo hi (a ++ b) ≡ some b
unfolding slice
slice_end lo hi a b p q =
    let d : hi - lo ≡ length b = omega arith in
    rw (d, p, drop-length) (ground (arith, length-append a b, take-all b))

-- Out of range is a panic.
pub slice_panic : (lo hi : ℕ) (b : Bytes) → hi < lo → slice lo hi b ≡ none
unfolding slice
slice_panic lo hi b h = ground arith
