-- ===== src/Base/Strings.antt =====
-- `std::string` as its bytes, with the functions of the C and C++ libraries that the sources call on
-- strings: `find`, `getline`, `c_str`, `tolower`, `strcasecmp`, `strtol`, `strtoul` and `to_string`.
pub mod Search
pub mod Numerals
use Prim.Native.Char.{code}
use Prim.Native.String.{String}
use mathlib.Core.Path.{◌≡◌, refl}
use mathlib.Core.Bool.{Bool, true, false, ◌&&◌, ◌||◌}
use mathlib.Core.List.{List, [], ◌∷◌, ◌++◌, map}
use mathlib.Core.Option
use mathlib.Core.Option.{Option, none, some}
use Prim.Native.Nat.{ℕ, zero, suc, ◌+◌, ◌-◌, ◌*◌, ◌/◌, ◌%◌, ◌^◌, min}
use esp32emu.Base.Tests.{ltb, leb, ◌==◌, if◌then◌else◌}
use esp32emu.Base.Lists.{length}

-- The bytes of a text in ASCII.
abbrev pub codes : String → List ℕ
codes String.[] = []
codes (String.◌∷◌ c s) = code c ∷ codes s

-- `s.find(c)`
unfoldable pub find_byte : ℕ → List ℕ → Option ℕ
find_byte c [] = none
find_byte c (x ∷ s) = if x == c then some 0 else Option.map suc (find_byte c s)

unfoldable pub starts_with : List ℕ → List ℕ → Bool
starts_with [] s = true
starts_with (p ∷ ps) [] = false
starts_with (p ∷ ps) (x ∷ s) = x == p && starts_with ps s

-- `s.find(p)`
unfoldable pub find_str : List ℕ → List ℕ → Option ℕ
unfolding starts_with
find_str p [] = if starts_with p [] then some 0 else none
find_str p (x ∷ s) = if starts_with p (x ∷ s) then some 0 else Option.map suc (find_str p s)

abbrev pub is_some {ℓ} : {A : Type ℓ} → Option A → Bool
is_some none = false
is_some (some a) = true

-- The pieces that `getline` gives with a delimiter, until the stream ends.
abbrev pub prepend : ℕ → List (List ℕ) → List (List ℕ)
prepend c [] = (c ∷ []) ∷ []
prepend c (l ∷ ls) = (c ∷ l) ∷ ls

unfoldable pub get_lines : ℕ → List ℕ → List (List ℕ)
get_lines d [] = []
get_lines d (c ∷ s) = let rest = get_lines d s in if c == d then [] ∷ rest else prepend c rest

-- `if (!line.empty() && line.back() == '\r') line.pop_back();`
unfoldable pub drop_cr : List ℕ → List ℕ
drop_cr [] = []
drop_cr (c ∷ []) = if c == 13 then [] else c ∷ []
drop_cr (c ∷ d ∷ s) = c ∷ drop_cr (d ∷ s)

-- A string up to its first NUL, which is what a `const char*` shows of it.
unfoldable pub c_str : List ℕ → List ℕ
c_str [] = []
c_str (c ∷ s) = if c == 0 then [] else c ∷ c_str s

unfoldable pub to_lower : ℕ → ℕ
to_lower c = if leb b'A' c && leb c b'Z' then c + 32 else c

unfoldable pub to_upper : ℕ → ℕ
to_upper c = if leb b'a' c && leb c b'z' then c - 32 else c

-- `strcasecmp(s, t) == 0`
unfoldable pub same_letters : List ℕ → List ℕ → Bool
unfolding to_lower
same_letters [] [] = true
same_letters [] (b ∷ t) = false
same_letters (a ∷ s) [] = false
same_letters (a ∷ s) (b ∷ t) = to_lower a == to_lower b && same_letters s t

unfoldable pub is_space : ℕ → Bool
is_space c = c == 32 || leb 9 c && leb c 13

unfoldable pub skip_spaces : List ℕ → List ℕ
unfolding is_space
skip_spaces [] = []
skip_spaces (c ∷ s) = let rest = skip_spaces s in if is_space c then rest else c ∷ s

-- The value of a digit in a base of at most 36.
unfoldable pub digit : ℕ → ℕ → Option ℕ
digit base c =
    let v : ℕ =
      if leb b'0' c && leb c b'9'
      then c - 48
      else if leb b'a' c && leb c b'z'
      then c - 87
      else if leb b'A' c && leb c b'Z'
      then c - 55
      else 36 in
    if ltb v base then some v else none

-- The number that the leading digits stand for, begun with `acc`, and what follows them.
unfoldable pub read_digits : ℕ → ℕ → List ℕ → ℕ × List ℕ
unfolding digit
read_digits base acc [] = (acc, [])
read_digits base acc (c ∷ s) = elim (digit base c) [
  | none ↦ (acc, c ∷ s)
  | some d ↦ read_digits base (acc * base + d) s
]

-- A number as `strtol` reads it, before it is fitted to its type: its sign, its magnitude, and the
-- text behind it.
pub record Number : Type 0 where
  pub negative : Bool
  pub magnitude : ℕ
  pub rest : List ℕ

skip_0x : ℕ → List ℕ → List ℕ
unfolding digit
skip_0x base (z ∷ x ∷ d ∷ s) =
    if base == 16 && z == b'0' && (x == b'x' || x == b'X')
    then elim (digit 16 d) [ none ↦ z ∷ x ∷ d ∷ s | some v ↦ d ∷ s ]
    else z ∷ x ∷ d ∷ s
skip_0x base s = s

magnitude_of : ℕ → Bool → List ℕ → Option Number
unfolding digit read_digits
magnitude_of base neg [] = none
magnitude_of base neg (c ∷ s) = elim (digit base c) [
  | none ↦ none
  | some d ↦
      let (v, rest) = read_digits base d s in
      some (record { negative = neg; magnitude = v; rest = rest })
]

signed : ℕ → List ℕ → Option Number
unfolding skip_0x magnitude_of
signed base [] = none
signed base (c ∷ s) =
    if c == b'-'
    then magnitude_of base true (skip_0x base s)
    else if c == b'+'
    then magnitude_of base false (skip_0x base s)
    else magnitude_of base false (skip_0x base (c ∷ s))

-- `none` where no number is there and `end` is left at the start.
unfoldable pub read_number : ℕ → List ℕ → Option Number
unfolding skip_spaces signed
read_number base s = signed base (skip_spaces s)

-- `strtol`, for its callers that use results from 0 on: `none` for a number below 0 or none at all, else
-- the number, at most `LONG_MAX`, and what follows it.
unfoldable pub strtol : ℕ → List ℕ → Option (ℕ × List ℕ)
unfolding read_number
strtol base s = elim (read_number base s) [
  | none ↦ none
  | some n ↦
      if n.negative && ltb 0 n.magnitude then none else some (min n.magnitude (2 ^ 63 - 1), n.rest)
]

-- `strtoul`: a sign negates the value modulo 2^64; too large a number is `ULONG_MAX`.
unfoldable pub strtoul : ℕ → List ℕ → Option (ℕ × List ℕ)
unfolding read_number
strtoul base s = elim (read_number base s) [
  | none ↦ none
  | some n ↦ some (
    if leb (2 ^ 64) n.magnitude
        then 2 ^ 64 - 1
        else if n.negative
        then (2 ^ 64 - n.magnitude) % 2 ^ 64
        else n.magnitude,
    n.rest,
  )
]

-- `std::to_string` of a natural number: its digits go in front of those made so far.
unfoldable pub put_digits : ℕ → ℕ → List ℕ → List ℕ
put_digits zero n made = made
put_digits (suc f) n made =
    let more = put_digits f (n / 10) ((48 + n % 10) ∷ made) in
    if ltb n 10 then (48 + n % 10) ∷ made else more

unfoldable pub to_string : ℕ → List ℕ
unfolding put_digits
to_string n = put_digits (suc n) n []
