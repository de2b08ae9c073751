-- ===== src/Net/Url.antt =====
-- include/esp32emu_socket.h: `hex_value` and `url_decode`.
pub mod Escapes
mod Tests
use esp32emu.Base.{
  ℕ, ◌+◌, ◌-◌, ◌*◌, Bool, true, false, ◌&&◌, Option, none, some, List, [], ◌∷◌, ltb, leb, ◌==◌,
  if◌then◌else◌,
}

-- `none` for -1.
unfoldable pub hex_value : ℕ → Option ℕ
hex_value c =
    if leb b'0' c && leb c b'9'
    then some (c - b'0')
    else if leb b'a' c && leb c b'f'
    then some (c - b'a' + 10)
    else if leb b'A' c && leb c b'F'
    then some (c - b'A' + 10)
    else none

-- `(hi << 4) | lo`, whose parts share no bit, when both are digits.
unfoldable pub hex_pair : ℕ → ℕ → Option ℕ
unfolding hex_value
hex_pair h l = elim (hex_value h) [
  | none ↦ none
  | some hi ↦ elim (hex_value l) [ none ↦ none | some lo ↦ some (hi * 16 + lo) ]
]

-- A byte that starts no escape.
abbrev pub plain : ℕ → ℕ
plain c = if c == b'+' then b' ' else c

-- The branch for `%` with two bytes behind it: `kept` is the text decoded from behind the `%`, and `rest` that from behind the escape.
abbrev pub escape : Option ℕ → List ℕ → List ℕ → List ℕ
escape none kept rest = b'%' ∷ kept
escape (some v) kept rest = v ∷ rest

unfoldable pub url_decode : List ℕ → List ℕ
unfolding hex_pair
url_decode [] = []
url_decode (c ∷ []) = plain c ∷ []
url_decode (c ∷ h ∷ []) = plain c ∷ plain h ∷ []
url_decode (c ∷ h ∷ l ∷ s) =
    let kept = url_decode (h ∷ l ∷ s) in
    let rest = url_decode s in if c == b'%' then escape (hex_pair h l) kept rest else plain c ∷ kept
