-- ===== src/Wire/BigEndian.antt =====
-- binary.BigEndian of Go's standard library, as codec.go uses it. A byte is a number below 256.
use trpc_go.Common.{
  ℕ, ◌+◌, ◌*◌, ◌/◌, ◌%◌, ◌^◌, ◌<◌, ◌≡◌, List, [], ◌∷◌, ◌++◌, Option, none, some, arith,
}

abbrev pub Bytes : Type 0
Bytes = List ℕ

-- binary.BigEndian.PutUint16
unfoldable pub put_uint16 : ℕ → Bytes
put_uint16 v = (v / 2 ^ 8 % 256) ∷ (v % 256) ∷ []

-- binary.BigEndian.PutUint32
unfoldable pub put_uint32 : ℕ → Bytes
put_uint32 v = (v / 2 ^ 24 % 256) ∷ (v / 2 ^ 16 % 256) ∷ (v / 2 ^ 8 % 256) ∷ (v % 256) ∷ []

-- binary.BigEndian.Uint16 of a slice; `none` is the panic on a slice that is too short.
unfoldable pub get_uint16 : Bytes → Option ℕ
get_uint16 (a ∷ b ∷ _) = some (a * 2 ^ 8 + b)
get_uint16 _ = none

-- binary.BigEndian.Uint32
unfoldable pub get_uint32 : Bytes → Option ℕ
get_uint32 (a ∷ b ∷ c ∷ d ∷ _) = some (a * 2 ^ 24 + b * 2 ^ 16 + c * 2 ^ 8 + d)
get_uint32 _ = none

-- Reading what was written gives the number back, if it fits the width.
pub get_uint16-put_uint16 :
    (v : ℕ) (rest : Bytes) → v < 2 ^ 16 → get_uint16 (put_uint16 v ++ rest) ≡ some v
unfolding put_uint16 get_uint16
get_uint16-put_uint16 v rest h = ground arith

pub get_uint32-put_uint32 :
    (v : ℕ) (rest : Bytes) → v < 2 ^ 32 → get_uint32 (put_uint32 v ++ rest) ≡ some v
unfolding put_uint32 get_uint32
get_uint32-put_uint32 v rest h = ground arith
