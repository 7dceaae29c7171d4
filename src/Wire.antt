-- ===== src/Wire.antt =====
-- The byte level that codec.go takes from Go: encoding/binary's big-endian integers, slices and
-- io.ReadFull over a stream that ends.
pub mod BigEndian
pub mod Slice
