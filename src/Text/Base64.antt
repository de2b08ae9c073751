-- ===== src/Text/Base64.antt =====
-- include/mbedtls/base64.h: encoding and decoding between buffers of given sizes. Bytes are below 256; the parts
-- of a group share no bit, so `|` is a sum.
pub mod Coding
mod Tests
use esp32emu.Base.{
  ℕ, zero, suc, ◌+◌, ◌-◌, ◌*◌, ◌/◌, ◌%◌, ◌^◌, Bool, true, false, not, ◌&&◌, ◌||◌, Option, none,
  some, List, [], ◌∷◌, ◌++◌, ltb, leb, ◌==◌, if◌then◌else◌, length, take, get_or, add_size,
  sub_size,
}
use esp32emu.Base.Strings.{codes}

-- `*olen` and what was written to `dst`, with the code that was returned.
pub data Code : Type 0 where
  ok buffer_too_small invalid_character : Code

pub record Coded : Type 0 where
  pub code : Code
  pub olen : ℕ
  pub dst : List ℕ

unfoldable pub table : ℕ → ℕ
table i = get_or (codes "ABCDEFGHIJKLMNOPQRSTUVWXYZabcdefghijklmnopqrstuvwxyz0123456789+/") i 0

-- `none` for -1.
unfoldable pub decode_char : ℕ → Option ℕ
decode_char c =
    if leb b'A' c && leb c b'Z'
    then some (c - b'A')
    else if leb b'a' c && leb c b'z'
    then some (c - b'a' + 26)
    else if leb b'0' c && leb c b'9'
    then some (c - b'0' + 52)
    else if c == b'+'
    then some 62
    else if c == b'/'
    then some 63
    else none

-- The four characters of a group: `(v >> 18) & 0x3F` and so on.
unfoldable pub sextet : ℕ → ℕ → ℕ
unfolding table
sextet v k = table (v / 2 ^ k % 64)

-- The loop over the groups of three bytes.
unfoldable pub encode_groups : List ℕ → List ℕ
unfolding sextet
encode_groups [] = []
encode_groups (a ∷ []) = let v = a * 2 ^ 16 in sextet v 18 ∷ sextet v 12 ∷ b'=' ∷ b'=' ∷ []
encode_groups (a ∷ b ∷ []) =
    let v = a * 2 ^ 16 + b * 2 ^ 8 in sextet v 18 ∷ sextet v 12 ∷ sextet v 6 ∷ b'=' ∷ []
encode_groups (a ∷ b ∷ c ∷ src) =
    let v = a * 2 ^ 16 + b * 2 ^ 8 + c in
    sextet v 18 ∷ sextet v 12 ∷ sextet v 6 ∷ sextet v 0 ∷ encode_groups src

-- `((slen + 2) / 3) * 4` on a `size_t`.
unfoldable pub encoded_length : ℕ → ℕ
encoded_length slen = (add_size slen 2 / 3 * 4) % 2 ^ 64

-- A buffer that is too small is left alone; the terminating NUL stands behind `dst`.
unfoldable pub encode : ℕ → List ℕ → Coded
encode dlen src =
    let olen = encoded_length (length src) in
    if ltb dlen (add_size olen 1)
    then record { code = buffer_too_small; olen = olen; dst = [] }
    else record { code = ok; olen = olen; dst = encode_groups src }

-- `pad`: whether each of the last two characters is `=`.
unfoldable pub padding : List ℕ → ℕ
padding [] = 0
padding (c ∷ []) = if c == b'=' then 1 else 0
padding (c ∷ d ∷ []) = (if d == b'=' then 1 else 0) + (if c == b'=' then 1 else 0)
padding (c ∷ d ∷ e ∷ src) = padding (d ∷ e ∷ src)

-- `(slen / 4) * 3 - pad` on a `size_t`.
unfoldable pub decoded_length : List ℕ → ℕ
unfolding padding
decoded_length src = sub_size (length src / 4 * 3) (padding src)

-- A character that `=` may stand for.
unfoldable pub padded_char : ℕ → Option ℕ
unfolding decode_char
padded_char c = if c == b'=' then some 0 else decode_char c

-- The bytes of one group, of which only `room` are written.
unfoldable pub group_bytes : ℕ → ℕ → List ℕ
group_bytes room v = take room (v / 2 ^ 16 % 256 ∷ v / 2 ^ 8 % 256 ∷ v % 256 ∷ [])

-- The loop over the groups of four characters: what is written, and whether all characters were valid. A
-- character behind the end of the text counts as 0.
unfoldable pub group_value : Option ℕ → Option ℕ → Option ℕ → Option ℕ → Option ℕ
group_value (some a) (some b) (some c) (some d) = some (a * 2 ^ 18 + b * 2 ^ 12 + c * 2 ^ 6 + d)
group_value a b c d = none

abbrev pub write_group : ℕ → Option ℕ → List ℕ × Bool → List ℕ × Bool
write_group room none rest = ([], false)
write_group room (some v) (bytes, valid) = (group_bytes room v ++ bytes, valid)

unfoldable pub decode_groups : ℕ → List ℕ → List ℕ × Bool
unfolding decode_char padded_char group_value group_bytes
decode_groups room [] = ([], true)
decode_groups room (a ∷ []) =
    write_group room (group_value (decode_char a) (some 0) (some 0) (some 0)) ([], true)
decode_groups room (a ∷ b ∷ []) =
    write_group room (group_value (decode_char a) (decode_char b) (some 0) (some 0)) ([], true)
decode_groups room (a ∷ b ∷ c ∷ []) =
    write_group room (group_value (decode_char a) (decode_char b) (padded_char c) (some 0))
      ([], true)
decode_groups room (a ∷ b ∷ c ∷ d ∷ src) =
    write_group room (group_value (decode_char a) (decode_char b) (padded_char c) (padded_char d))
      (decode_groups (room - 3) src)

unfoldable pub decode : ℕ → List ℕ → Coded
unfolding decoded_length decode_groups
decode dlen src =
    let olen = decoded_length src in
    let (bytes, valid) = decode_groups olen src in
    if ltb dlen olen
    then record { code = buffer_too_small; olen = olen; dst = [] }
    else record { code = if valid then ok else invalid_character; olen = olen; dst = bytes }
