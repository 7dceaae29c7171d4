-- ===== src/HttpRule/Chars.antt =====
-- internal/httprule/parse.go: the classes of characters.
use trpc_go.Common.{ℕ, Bool, ◌&&◌, ◌||◌, leb, ◌==◌}

unfoldable pub is_alpha : ℕ → Bool
is_alpha r = (leb b'A' r && leb r b'Z') || (leb b'a' r && leb r b'z')

unfoldable pub is_digit : ℕ → Bool
is_digit r = leb b'0' r && leb r b'9'

unfoldable pub is_unreserved : ℕ → Bool
unfolding is_alpha is_digit
is_unreserved r = is_alpha r || is_digit r || r == b'-' || r == b'.' || r == b'_' || r == b'~'

unfoldable pub is_sub_delims : ℕ → Bool
is_sub_delims r =
    r == b'!'
    || r == b'$'
    || r == b'&'
    || r == 39
    || r == b'('
    || r == b')'
    || r == b'*'
    || r == b'+'
    || r == b','
    || r == b';'
    || r == b'='

unfoldable pub is_hex_digit : ℕ → Bool
is_hex_digit r =
    (leb b'0' r && leb r b'9') || (leb b'A' r && leb r b'F') || (leb b'a' r && leb r b'f')

unfoldable pub is_pct_encoded : ℕ → ℕ → ℕ → Bool
unfolding is_hex_digit
is_pct_encoded r1 r2 r3 = r1 == b'%' && is_hex_digit r2 && is_hex_digit r3

-- The first test of parseLiteral's loop.
unfoldable pub is_literal_char : ℕ → Bool
unfolding is_unreserved is_sub_delims
is_literal_char r = is_unreserved r || is_sub_delims r || r == b'@' || r == b':'
