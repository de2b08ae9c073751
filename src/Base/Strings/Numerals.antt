-- ===== src/Base/Strings/Numerals.antt =====
-- A number that is printed is read back.
use esp32emu.Base.Tests.{ltb, Bool-cases}
use esp32emu.Base.Lists.{All}
use Prim.Native.Nat.{ℕ, zero, suc, ◌+◌, ◌*◌, ◌/◌, ◌%◌, ◌^◌, ◌≤◌, ◌<◌}
use mathlib.Core.Path.{◌≡◌, refl, ap, ◌∙◌, sym, subst}
use mathlib.Core.Logic.{◌≢◌, ◌⊎◌, inl, inr}
use mathlib.Core.Bool.{false}
use mathlib.Core.List.{List, [], ◌∷◌, ◌++◌}
use mathlib.Core.Option.{Option, none, some}
use native.Mathlib.Omega.{arith}
use esp32emu.Base.Strings.{
  digit, read_digits, put_digits, to_string, read_number, strtol, skip_spaces, is_space, signed,
  magnitude_of, skip_0x,
}

digit_lem : (d : ℕ) → d < 10 → digit 10 (48 + d) ≡ some d
unfolding digit
digit_lem d h = ground arith

read_digits-digit :
    (a d : ℕ) (s : List ℕ)
    → d < 10
    → read_digits 10 a ((48 + d) ∷ s) ≡ read_digits 10 (a * 10 + d) s
unfolding read_digits
read_digits-digit a d s h =
    ap
      (λ (o : Option ℕ). elim o as (λ _. ℕ × List ℕ) [
        | none ↦ (a, (48 + d) ∷ s)
        | some e ↦ read_digits 10 (a * 10 + e) s
      ])
      (digit_lem d h)

read_digits-put_digits :
    (f n : ℕ) (made : List ℕ)
    → n < f
    → read_digits 10 0 (put_digits f n made) ≡ read_digits 10 n made
unfolding put_digits
read_digits-put_digits zero n made h = absurd (omega arith)
read_digits-put_digits (suc f) n made h =
    let here = read_digits-digit 0 (n % 10) made (omega arith) in
    let last = read_digits-digit (n / 10) (n % 10) made (omega arith) in
    let e : n / 10 * 10 + n % 10 ≡ n = omega arith in
    elim (Bool-cases (ltb n 10)) [
      | inl one ↦ rw one (here ∙ ap (λ (t : ℕ). read_digits 10 t made) (ground arith))
      | inr more ↦ rw more (
          read_digits-put_digits f (n / 10) ((48 + n % 10) ∷ made) (ground arith)
          ∙ last
          ∙ ap (λ (t : ℕ). read_digits 10 t made) e)
    ]

put_digits-append :
    (f n : ℕ) (made rest : List ℕ) → put_digits f n made ++ rest ≡ put_digits f n (made ++ rest)
unfolding put_digits
put_digits-append zero n made rest = refl
put_digits-append (suc f) n made rest =
    ground (arith, put_digits-append f (n / 10) ((48 + n % 10) ∷ made) rest)

-- Printed digits begin with a digit.
put_digits-cons :
    (f n : ℕ) (made : List ℕ)
    → n < f
    → (d : ℕ) × (s : List ℕ) × (d < 10) × (put_digits f n made ≡ (48 + d) ∷ s)
unfolding put_digits
put_digits-cons zero n made h = absurd (omega arith)
put_digits-cons (suc f) n made h = elim (Bool-cases (ltb n 10)) [
  | inl one ↦ (n % 10, made, omega arith, rw one)
  | inr more ↦
      let (d, s, low, e) = put_digits-cons f (n / 10) ((48 + n % 10) ∷ made) (ground arith) in
      (d, s, low, rw more e)
]

-- A digit is neither a space, a sign nor any other byte below 48.
pub IsPrinted : ℕ → Type 0
IsPrinted c = (48 ≤ c) × (c < 58)

put_digits-IsPrinted :
    (f n : ℕ) (made : List ℕ) → All IsPrinted made → All IsPrinted (put_digits f n made)
unfolding put_digits IsPrinted
put_digits-IsPrinted zero n made h = h
put_digits-IsPrinted (suc f) n made h = elim (Bool-cases (ltb n 10)) [
  | inl one ↦ rw one ((omega arith, h))
  | inr more ↦ rw more (put_digits-IsPrinted f (n / 10) ((48 + n % 10) ∷ made) (omega arith, h))
]

-- Every byte of a number in decimal is a digit.
pub to_string-IsPrinted : (n : ℕ) → All IsPrinted (to_string n)
unfolding to_string
to_string-IsPrinted n = put_digits-IsPrinted (suc n) n [] tt

-- Digits stop where the text goes on with something else.
pub Stops : List ℕ → Type 0
Stops s = (a : ℕ) → read_digits 10 a s ≡ (a, s)

pub Stops-nil : Stops []
unfolding Stops read_digits
Stops-nil a = refl

pub Stops-below : (c : ℕ) (s : List ℕ) → c < 48 → Stops (c ∷ s)
unfolding Stops read_digits digit
Stops-below c s h a = ground arith

skip_0x-ten : (t : List ℕ) → skip_0x 10 t ≡ t
unfolding skip_0x
skip_0x-ten [] = refl
skip_0x-ten (z ∷ []) = refl
skip_0x-ten (z ∷ x ∷ []) = refl
skip_0x-ten (z ∷ x ∷ d ∷ s) = refl

magnitude_of-digit :
    (d : ℕ) (s : List ℕ)
    → d < 10
    → magnitude_of 10 false ((48 + d) ∷ s)
      ≡ some (record {
        negative = false;
        magnitude = (read_digits 10 d s).0;
        rest = (read_digits 10 d s).1;
      })
unfolding magnitude_of
magnitude_of-digit d s h = rw (magnitude_of, digit_lem d h)

signed-digit :
    (d : ℕ) (s : List ℕ) → signed 10 ((48 + d) ∷ s) ≡ magnitude_of 10 false ((48 + d) ∷ s)
unfolding signed
signed-digit d s = rw (skip_0x-ten ((48 + d) ∷ s)) (ground arith)

skip_spaces-digit : (d : ℕ) (s : List ℕ) → skip_spaces ((48 + d) ∷ s) ≡ (48 + d) ∷ s
unfolding skip_spaces is_space
skip_spaces-digit d s = ground arith

read_number-digit :
    (d : ℕ) (s : List ℕ)
    → d < 10
    → read_number 10 ((48 + d) ∷ s)
      ≡ some (record {
        negative = false;
        magnitude = (read_digits 10 d s).0;
        rest = (read_digits 10 d s).1;
      })
unfolding read_number
read_number-digit d s h =
    ap (signed 10) (skip_spaces-digit d s) ∙ signed-digit d s ∙ magnitude_of-digit d s h

strtol-digit :
    (d : ℕ) (s : List ℕ) (n : ℕ) (rest : List ℕ)
    → d < 10
    → n < 2 ^ 63
    → read_digits 10 0 ((48 + d) ∷ s) ≡ (n, rest)
    → strtol 10 ((48 + d) ∷ s) ≡ some (n, rest)
unfolding strtol
strtol-digit d s n rest low small e =
    ground (arith, read_number-digit d s low, read_digits-digit 0 d s low)

-- `strtol` reads back what `to_string` printed, up to the largest `long`.
pub strtol-to_string :
    (n : ℕ) (rest : List ℕ)
    → n < 2 ^ 63
    → Stops rest
    → strtol 10 (to_string n ++ rest) ≡ some (n, rest)
unfolding to_string Stops
strtol-to_string n rest small stop =
    let (d, s, low, e) = put_digits-cons (suc n) n rest (omega arith) in
    let read = read_digits-put_digits (suc n) n rest (omega arith) in
    ap (strtol 10) (put_digits-append (suc n) n [] rest ∙ e)
    ∙ strtol-digit d s n rest low small (sym (ap (read_digits 10 0) e) ∙ read ∙ stop n)

-- A space in front does not matter.
pub strtol-space : (s : List ℕ) → strtol 10 (32 ∷ s) ≡ strtol 10 s
unfolding strtol read_number skip_spaces is_space
strtol-space s = refl

printed_Lacks : (c : ℕ) (s : List ℕ) → ¬ IsPrinted c → All IsPrinted s → All (λ x. x ≢ c) s
printed_Lacks c [] h a = tt
printed_Lacks c (x ∷ s) h a = (λ e. h (subst IsPrinted e a.0), printed_Lacks c s h a.1)

-- A byte that is no digit does not stand in a number.
pub to_string-Lacks : (c n : ℕ) → (c < 48) ⊎ (57 < c) → All (λ x. x ≢ c) (to_string n)
unfolding IsPrinted
to_string-Lacks c n h =
    printed_Lacks c (to_string n) (λ p. omega (arith, h)) (to_string-IsPrinted n)

pub Stops-none : (c : ℕ) (s : List ℕ) → digit 10 c ≡ none → Stops (c ∷ s)
unfolding Stops read_digits
Stops-none c s h a = rw (read_digits, h)
