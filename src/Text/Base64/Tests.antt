-- ===== src/Text/Base64/Tests.antt =====
-- Runs, and an instance of the round trip.
use esp32emu.Base.{ℕ, ◌+◌, ◌*◌, ◌/◌, ◌≤◌, ◌<◌, ◌≡◌, refl, List, [], arith, length}
use esp32emu.Base.Strings.{codes}
use esp32emu.Text.Base64.{
  ok, buffer_too_small, invalid_character, encode, encode_groups, decode, encoded_length,
}
use esp32emu.Text.Base64.Coding.{decode-encode}

abbrev text : List ℕ
text = codes "Hello"

encoded : (encode 9 text).dst ≡ codes "SGVsbG8="
unfolding encode encode_groups encoded_length
encoded = refl

refused : (decode 9 (codes "SG-s")).code ≡ invalid_character
unfolding decode
refused = refl

decode-encode_example :
    ((length text + 2) / 3 * 4 < 9
      → (t : List ℕ) × (encode 9 text
          ≡ record { code = ok; olen = (length text + 2) / 3 * 4; dst = t })
        × (length t ≡ (length text + 2) / 3 * 4)
        × ((room : ℕ)
            → length text ≤ room
            → decode room t ≡ record { code = ok; olen = length text; dst = text }))
    × (9 ≤ (length text + 2) / 3 * 4
        → encode 9 text
          ≡ record { code = buffer_too_small; olen = (length text + 2) / 3 * 4; dst = [] })
decode-encode_example = decode-encode text 9 (omega arith) (omega arith)
