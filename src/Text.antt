-- ===== src/Text.antt =====
-- main/src/utility.cpp: names that come from outside, cut to the size of their buffer, and the text
-- form of an address. A C string is the list of its bytes, without the terminating 0.
pub mod Utf8
pub mod MacHex
use plant_watering.Prelude.{
  ℕ, zero, suc, ◌+◌, ◌-◌, ◌*◌, ◌/◌, ◌%◌, Bool, true, false, not, ◌&&◌, ◌||◌, List, [], ◌∷◌, ◌++◌,
  Option, none, some, ltb, leb, ◌==◌, if◌then◌else◌, length, take, drop,
}
use plant_watering.Prelude.Bytes.{byte_at}
use plant_watering.Prelude.Maybe.{◌>>=◌, ◌>>◌, guard}

-- `lo <= c && c <= hi`.
abbrev pub between : ℕ → ℕ → ℕ → Bool
between lo hi c = leb lo c && leb c hi

-- `(c & 0xC0) == 0x80`.
abbrev pub is_utf8_continuation : ℕ → Bool
is_utf8_continuation c = c / 64 == 2

abbrev if_long : ℕ → ℕ → Bool → ℕ
if_long n remaining ok = if leb n remaining && ok then n else 0

-- 0 where no valid sequence starts.
unfoldable pub utf8_sequence_length : List ℕ → ℕ
utf8_sequence_length bytes =
    let c0 = byte_at bytes 0 in
    let c1 = byte_at bytes 1 in
    let c2 = byte_at bytes 2 in
    let c3 = byte_at bytes 3 in
    let n = length bytes in
    if n == 0
    then 0
    else if leb c0 0x7F
    then 1
    else if between 0xC2 0xDF c0
    then if_long 2 n (is_utf8_continuation c1)
    else if c0 == 0xE0
    then if_long 3 n (between 0xA0 0xBF c1 && is_utf8_continuation c2)
    else if between 0xE1 0xEC c0 || between 0xEE 0xEF c0
    then if_long 3 n (is_utf8_continuation c1 && is_utf8_continuation c2)
    else if c0 == 0xED
    then if_long 3 n (between 0x80 0x9F c1 && is_utf8_continuation c2)
    else if c0 == 0xF0
    then if_long 4 n (between 0x90 0xBF c1 && (is_utf8_continuation c2 && is_utf8_continuation c3))
    else if between 0xF1 0xF3 c0
    then if_long 4 n
        (is_utf8_continuation c1 && (is_utf8_continuation c2 && is_utf8_continuation c3))
    else if c0 == 0xF4
    then if_long 4 n (between 0x80 0x8F c1 && (is_utf8_continuation c2 && is_utf8_continuation c3))
    else 0

-- The loop of `copyUtf8Truncated`, with `max_bytes` left: what is written. Each round uses up a
-- byte at least, so the length of the source is enough fuel.
unfoldable pub copy_loop : ℕ → List ℕ → ℕ → List ℕ
copy_loop zero src max_bytes = []
copy_loop (suc fuel) src max_bytes =
    let seq_len = utf8_sequence_length src in
    let skipped = copy_loop fuel (drop 1 src) max_bytes in
    let rest = copy_loop fuel (drop seq_len src) (max_bytes - seq_len) in
    if length src == 0
    then []
    else if seq_len == 0
    then skipped
    else if ltb max_bytes seq_len
    then []
    else take seq_len src ++ rest

-- `copyUtf8Truncated` into a buffer of `dst_size` bytes.
unfoldable pub copy_utf8_truncated : List ℕ → ℕ → List ℕ
copy_utf8_truncated src dst_size =
    if dst_size == 0 then [] else copy_loop (length src) src (dst_size - 1)

unfoldable pub hexchar_to_nibble : ℕ → Option ℕ
hexchar_to_nibble c =
    if between b'0' b'9' c
    then some (c - b'0')
    else if between b'a' b'f' c
    then some (c - b'a' + 10)
    else if between b'A' b'F' c
    then some (c - b'A' + 10)
    else none

-- The loop of `macFromHexString`, over the bytes to go.
unfoldable pub hex_bytes : ℕ → List ℕ → Option (List ℕ)
hex_bytes zero text = some []
hex_bytes (suc n) text = do
  hi ← hexchar_to_nibble (byte_at text 0)
  lo ← hexchar_to_nibble (byte_at text 1)
  rest ← hex_bytes n (drop 2 text)
  some ((hi * 16 + lo) ∷ rest)

unfoldable pub mac_from_hex_string : List ℕ → Option (List ℕ)
unfolding hex_bytes
mac_from_hex_string text = if length text == 12 then hex_bytes 6 text else none

abbrev pub hex_digit : ℕ → ℕ
hex_digit n = if ltb n 10 then b'0' + n else b'a' + (n - 10)

-- `%02x` for each byte.
abbrev pub mac_to_hex_lower : List ℕ → List ℕ
mac_to_hex_lower [] = []
mac_to_hex_lower (b ∷ bs) = hex_digit (b / 16) ∷ hex_digit (b % 16) ∷ mac_to_hex_lower bs
