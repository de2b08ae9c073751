-- ===== src/Text/Base64/Coding.antt =====
-- What is encoded is decoded.
use esp32emu.Base.{
  ℕ, zero, suc, ◌+◌, ◌-◌, ◌*◌, ◌/◌, ◌%◌, ◌^◌, ◌≤◌, ◌<◌, ◌≡◌, ◌≢◌, refl, ap, ap₂, ◌∙◌, Bool, true,
  false, ◌&&◌, Option, none, some, List, [], ◌∷◌, arith, ltb, ◌==◌, if◌then◌else◌, length, get_or,
  take_of_length-le, All, add_size,
}
use esp32emu.Base.Strings.{codes}
use esp32emu.Text.Base64.{
  ok, buffer_too_small, table, decode_char, sextet, encode_groups, encoded_length, encode, padding,
  decoded_length, padded_char, group_bytes, group_value, write_group, decode_groups, decode,
}

-- Whether a decoder gives consecutive numbers, from `i` on, for the characters of an alphabet.
counts : (ℕ → Option ℕ) → List ℕ → ℕ → Bool
counts decoder [] i = true
counts decoder (c ∷ alphabet) i =
    elim (decoder c) [ none ↦ false | some v ↦ v == i ] && counts decoder alphabet (i + 1)

counts_lem :
    (decoder : ℕ → Option ℕ) (alphabet : List ℕ) (i place : ℕ)
    → counts decoder alphabet i ≡ true
    → place < length alphabet
    → decoder (get_or alphabet place 0) ≡ some (i + place)
unfolding counts
counts_lem decoder [] i place h below = absurd (omega arith)
counts_lem decoder (c ∷ alphabet) i zero h below = ground arith
counts_lem decoder (c ∷ alphabet) i (suc place) h below =
    ground (arith, counts_lem decoder alphabet (i + 1) place)

abbrev characters : List ℕ
characters = codes "ABCDEFGHIJKLMNOPQRSTUVWXYZabcdefghijklmnopqrstuvwxyz0123456789+/"

characters_count :
    (counts decode_char characters 0 ≡ true) × (counts padded_char characters 0 ≡ true)
unfolding counts decode_char padded_char
characters_count = (refl, refl)

-- Every character of the table decodes to its place, also where padding may stand.
decode_char-table : (i : ℕ) → i < 64 → decode_char (table i) ≡ some i
unfolding table
decode_char-table i h =
    let e : 0 + i ≡ i = omega arith in
    counts_lem decode_char characters 0 i characters_count.0 h ∙ ap some e

padded_char-table : (i : ℕ) → i < 64 → padded_char (table i) ≡ some i
unfolding table
padded_char-table i h =
    let e : 0 + i ≡ i = omega arith in
    counts_lem padded_char characters 0 i characters_count.1 h ∙ ap some e

decode_char-sextet : (v k : ℕ) → decode_char (sextet v k) ≡ some (v / 2 ^ k % 64)
unfolding sextet
decode_char-sextet v k = decode_char-table (v / 2 ^ k % 64) (omega arith)

padded_char-sextet : (v k : ℕ) → padded_char (sextet v k) ≡ some (v / 2 ^ k % 64)
unfolding sextet
padded_char-sextet v k = padded_char-table (v / 2 ^ k % 64) (omega arith)

-- A group of four characters of a value gives the value again.
group_value-sextet :
    (v : ℕ)
    → v < 2 ^ 24
    → group_value
        (decode_char (sextet v 18))
        (decode_char (sextet v 12))
        (padded_char (sextet v 6))
        (padded_char (sextet v 0))
      ≡ some v
unfolding group_value
group_value-sextet v h =
    rw
      (
        decode_char-sextet v 18,
        decode_char-sextet v 12,
        padded_char-sextet v 6,
        padded_char-sextet v 0,
      )
      (ap some (omega arith))

sextet-ne : (v k : ℕ) → sextet v k ≢ b'='
unfolding decode_char
sextet-ne v k e =
    let none_there : decode_char b'=' ≡ none = refl in
    cc (ap decode_char e, decode_char-sextet v k, none_there)

abbrev IsByte : ℕ → Type 0
IsByte c = c < 256

three_bytes :
    (a b c n : ℕ) (src : List ℕ)
    → a < 256
    → b < 256
    → c < 256
    → write_group (suc (suc (suc n))) (some (a * 2 ^ 16 + b * 2 ^ 8 + c)) (src, true)
      ≡ (a ∷ b ∷ c ∷ src, true)
unfolding group_bytes
three_bytes a b c n src p q r =
    let nil : List ℕ = [] in ground (arith, take_of_length-le n nil (omega arith))

decode_groups-encode_groups :
    (src : List ℕ) → All IsByte src → decode_groups (length src) (encode_groups src) ≡ (src, true)
unfolding decode_groups encode_groups group_bytes
decode_groups-encode_groups [] h = refl
decode_groups-encode_groups (a ∷ []) h =
    let v = a * 2 ^ 16 in
    rw (decode_char-sextet v 18, decode_char-sextet v 12) (ground (arith, h.0))
decode_groups-encode_groups (a ∷ b ∷ []) h =
    let v = a * 2 ^ 16 + b * 2 ^ 8 in
    rw (decode_char-sextet v 18, decode_char-sextet v 12, padded_char-sextet v 6)
      (ground (arith, h.0, h.1.0))
decode_groups-encode_groups (a ∷ b ∷ c ∷ src) h =
    let v = a * 2 ^ 16 + b * 2 ^ 8 + c in
    let ih = decode_groups-encode_groups src h.1.1.1 in
    let n = length (a ∷ b ∷ c ∷ src) in
    let e : n - 3 ≡ length src = omega arith in
    ap₂ (λ (o : Option ℕ) (r : List ℕ × Bool). write_group n o r)
      (group_value-sextet v (omega (arith, h.0, h.1.0, h.1.1.0)))
      (ap (λ (m : ℕ). decode_groups m (encode_groups src)) e ∙ ih)
    ∙ three_bytes a b c (length src) src h.0 h.1.0 h.1.1.0

length-encode_groups : (src : List ℕ) → length (encode_groups src) ≡ (length src + 2) / 3 * 4
unfolding encode_groups
length-encode_groups [] = omega arith
length-encode_groups (a ∷ []) = omega arith
length-encode_groups (a ∷ b ∷ []) = omega arith
length-encode_groups (a ∷ b ∷ c ∷ src) = omega (arith, length-encode_groups src)

ends :
    (src : List ℕ)
    → 0 < length src
    → (x : ℕ) × (y : ℕ) × (r : List ℕ) × (encode_groups src ≡ x ∷ y ∷ r)
unfolding encode_groups
ends [] h = absurd (omega arith)
ends (a ∷ []) h = (_, _, _, refl)
ends (a ∷ b ∷ []) h = (_, _, _, refl)
ends (a ∷ b ∷ c ∷ src) h = (_, _, _, refl)

padding-append :
    (a b c d : ℕ) (s : List ℕ) {x y : ℕ} {r : List ℕ}
    → s ≡ x ∷ y ∷ r
    → padding (a ∷ b ∷ c ∷ d ∷ s) ≡ padding s
unfolding padding
padding-append a b c d s e = rw e

padding_one : (c : ℕ) → c ≢ b'=' → padding (c ∷ b'=' ∷ []) ≡ 1
unfolding padding
padding_one c h = ground arith

padding_none : (c d : ℕ) → c ≢ b'=' → d ≢ b'=' → padding (c ∷ d ∷ []) ≡ 0
unfolding padding
padding_none c d h k = ground arith

padding-encode_groups : (src : List ℕ) → padding (encode_groups src) ≡ (3 - length src % 3) % 3
unfolding encode_groups padding
padding-encode_groups [] = refl
padding-encode_groups (a ∷ []) = refl
padding-encode_groups (a ∷ b ∷ []) = padding_one _ (sextet-ne (a * 2 ^ 16 + b * 2 ^ 8) 6)
padding-encode_groups (a ∷ b ∷ c ∷ []) =
    let v = a * 2 ^ 16 + b * 2 ^ 8 + c in padding_none _ _ (sextet-ne v 6) (sextet-ne v 0)
padding-encode_groups (a ∷ b ∷ c ∷ d ∷ src) =
    let v = a * 2 ^ 16 + b * 2 ^ 8 + c in
    let (x, y, r, e) = ends (d ∷ src) (omega arith) in
    padding-append (sextet v 18) (sextet v 12) (sextet v 6) (sextet v 0) (encode_groups (d ∷ src)) e
    ∙ padding-encode_groups (d ∷ src)
    ∙ omega arith

decoded_length-encode_groups :
    (src : List ℕ) → length src < 2 ^ 62 → decoded_length (encode_groups src) ≡ length src
unfolding decoded_length
decoded_length-encode_groups src small =
    omega (arith, length-encode_groups src, padding-encode_groups src)

encoded_length_small : (n : ℕ) → n < 2 ^ 62 → encoded_length n ≡ (n + 2) / 3 * 4
unfolding encoded_length
encoded_length_small n h = omega arith

add_size_one : (n : ℕ) → n < 2 ^ 63 → add_size n 1 ≡ n + 1
add_size_one n h = omega arith

encode_lem :
    (src : List ℕ) (dlen : ℕ)
    → length src < 2 ^ 62
    → let olen = (length src + 2) / 3 * 4 in
      encode dlen src ≡ (
        if ltb dlen (olen + 1)
        then record { code = buffer_too_small; olen = olen; dst = [] }
        else record { code = ok; olen = olen; dst = encode_groups src })
unfolding encode
encode_lem src dlen small = rw (
  encode,
  encoded_length_small (length src) small,
  add_size_one ((length src + 2) / 3 * 4) (omega arith),
)

encode-ok :
    (src : List ℕ) (dlen : ℕ)
    → length src < 2 ^ 62
    → (length src + 2) / 3 * 4 < dlen
    → encode dlen src
      ≡ record { code = ok; olen = (length src + 2) / 3 * 4; dst = encode_groups src }
encode-ok src dlen small h =
    let room : ltb dlen ((length src + 2) / 3 * 4 + 1) ≡ false = ground arith in
    encode_lem src dlen small ∙ rw room

encode-small :
    (src : List ℕ) (dlen : ℕ)
    → length src < 2 ^ 62
    → dlen ≤ (length src + 2) / 3 * 4
    → encode dlen src
      ≡ record { code = buffer_too_small; olen = (length src + 2) / 3 * 4; dst = [] }
encode-small src dlen small h =
    let room : ltb dlen ((length src + 2) / 3 * 4 + 1) ≡ true = ground arith in
    encode_lem src dlen small ∙ rw room

decode-ok :
    (src text : List ℕ) (room : ℕ)
    → decoded_length text ≡ length src
    → decode_groups (length src) text ≡ (src, true)
    → length src ≤ room
    → decode room text ≡ record { code = ok; olen = length src; dst = src }
unfolding decode
decode-ok src text room e k h =
    let fits : ltb room (length src) ≡ false = ground arith in rw (decode, e, k, fits)

-- Fewer than 2^62 bytes are encoded when the buffer has room for four characters for each group of three bytes, the last
-- perhaps not full, and a NUL: the text has that length, and is decoded to the same bytes and their
-- number in any buffer that holds them. With less room the call says so and writes nothing.
pub decode-encode :
    (src : List ℕ) (dlen : ℕ)
    → All (λ c. c < 256) src
    → length src < 2 ^ 62
    → ((length src + 2) / 3 * 4 < dlen
        → (text : List ℕ) × (encode dlen src
            ≡ record { code = ok; olen = (length src + 2) / 3 * 4; dst = text })
          × (length text ≡ (length src + 2) / 3 * 4)
          × ((room : ℕ)
              → length src ≤ room
              → decode room text ≡ record { code = ok; olen = length src; dst = src }))
      × (dlen ≤ (length src + 2) / 3 * 4
          → encode dlen src
            ≡ record { code = buffer_too_small; olen = (length src + 2) / 3 * 4; dst = [] })
decode-encode src dlen bytes small = (
  λ h. (
    encode_groups src,
    encode-ok src dlen small h,
    length-encode_groups src,
    λ room k.
        decode-ok src (encode_groups src) room (decoded_length-encode_groups src small)
          (decode_groups-encode_groups src bytes) k,
  ),
  encode-small src dlen small,
)
