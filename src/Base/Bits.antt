-- ===== src/Base/Bits.antt =====
-- Laws of `&`, `|` and `~` on words at every width. The native operations stand for a recursion on
-- binary digits with fuel; the fuel is dropped first.
use Prim.Native.Nat.{
  ℕ, zero, suc, ◌+◌, ◌-◌, ◌*◌, ◌/◌, ◌%◌, ◌^◌, ◌≤◌, ◌<◌, min, max, bit_and, bit_or, digits,
  bit_and-bitwise, bit_or-bitwise,
}
use mathlib.Core.Path.{◌≡◌, refl, sym, ap, ◌∙◌}
use mathlib.Core.Logic.{◌≢◌}
use native.Mathlib.Nat.{pow-suc, one-le-pow}
use native.Mathlib.Decide.{ℕ_discrete}
use native.Mathlib.Omega.{arith}

-- Fuel beyond the number that is taken apart makes no difference.
spare_fuel :
    (low : ℕ → ℕ) (op : ℕ → ℕ → ℕ) (few many : ℕ)
    → few ≤ many
    → (x y : ℕ) → x ≤ few
    → digits low op many x y ≡ digits low op few x y
spare_fuel low op zero zero order zero y within = refl
spare_fuel low op zero (suc many) order zero y within = refl
spare_fuel low op zero many order (suc x) y within = absurd (omega arith)
spare_fuel low op (suc few) zero order x y within = absurd (omega arith)
spare_fuel low op (suc few) (suc many) order zero y within = refl
spare_fuel low op (suc few) (suc many) order (suc x) y within =
    ap (λ t. t * 2 + op (suc x % 2) (y % 2))
      (spare_fuel low op few many (omega arith) (suc x / 2) (y / 2) (omega arith))

pub bit_or_step : (x y : ℕ) → bit_or x y ≡ bit_or (x / 2) (y / 2) * 2 + max (x % 2) (y % 2)
bit_or_step zero y = omega (arith, bit_or-bitwise 0 y, bit_or-bitwise 0 (y / 2))
bit_or_step (suc x) y =
    bit_or-bitwise (suc x) y
    ∙ ap (λ t. t * 2 + max (suc x % 2) (y % 2))
        (spare_fuel (λ t. t) max (suc x / 2) x (omega arith) (suc x / 2) (y / 2) (omega arith)
          ∙ sym (bit_or-bitwise (suc x / 2) (y / 2)))

pub bit_and_step : (x y : ℕ) → bit_and x y ≡ bit_and (x / 2) (y / 2) * 2 + min (x % 2) (y % 2)
bit_and_step zero y = omega (arith, bit_and-bitwise 0 y, bit_and-bitwise 0 (y / 2))
bit_and_step (suc x) y =
    bit_and-bitwise (suc x) y
    ∙ ap (λ t. t * 2 + min (suc x % 2) (y % 2))
        (spare_fuel (λ t. 0) min (suc x / 2) x (omega arith) (suc x / 2) (y / 2) (omega arith)
          ∙ sym (bit_and-bitwise (suc x / 2) (y / 2)))

-- `~a` on a word of `w` bits.
abbrev pub bit_not : ℕ → ℕ → ℕ
bit_not w a = 2 ^ w - 1 - a

pub bit_and-zero_left : (b : ℕ) → bit_and 0 b ≡ 0
bit_and-zero_left b = bit_and-bitwise 0 b

-- The bit of `a` at place `i`: 0 or 1.
abbrev pub bit : ℕ → ℕ → ℕ
bit a zero = a % 2
bit a (suc i) = bit (a / 2) i

pub bit_le_one : (a i : ℕ) → bit a i ≤ 1
bit_le_one a zero = omega arith
bit_le_one a (suc i) = bit_le_one (a / 2) i

pub bit_zero : (i : ℕ) → bit 0 i ≡ 0
bit_zero zero = refl
bit_zero (suc i) = bit_zero i

pub bit-bit_and : (a b i : ℕ) → bit (bit_and a b) i ≡ min (bit a i) (bit b i)
bit-bit_and a b zero = omega (arith, bit_and_step a b)
bit-bit_and a b (suc i) =
    let half : bit_and a b / 2 ≡ bit_and (a / 2) (b / 2) = omega (arith, bit_and_step a b) in
    rw half (bit-bit_and (a / 2) (b / 2) i)

pub bit-bit_or : (a b i : ℕ) → bit (bit_or a b) i ≡ max (bit a i) (bit b i)
bit-bit_or a b zero = omega (arith, bit_or_step a b)
bit-bit_or a b (suc i) =
    let half : bit_or a b / 2 ≡ bit_or (a / 2) (b / 2) = omega (arith, bit_or_step a b) in
    rw half (bit-bit_or (a / 2) (b / 2) i)

pub bit-bit_not : (w a i : ℕ) → a < 2 ^ w → i < w → bit (bit_not w a) i ≡ 1 - bit a i
bit-bit_not zero a i h k = absurd (omega arith)
bit-bit_not (suc w) a zero h k = omega (arith, pow-suc 2 w, one-le-pow w 2)
bit-bit_not (suc w) a (suc i) h k =
    let half : bit_not (suc w) a / 2 ≡ bit_not w (a / 2) =
      omega (arith, pow-suc 2 w, one-le-pow w 2) in
    rw half (bit-bit_not w (a / 2) i (omega (arith, pow-suc 2 w)) (omega arith))

-- `1 << p` has the bit at `p` and no other.
pub bit-two_pow_self : (p : ℕ) → bit (2 ^ p) p ≡ 1
bit-two_pow_self zero = refl
bit-two_pow_self (suc p) =
    let half : 2 ^ suc p / 2 ≡ 2 ^ p = omega (arith, pow-suc 2 p) in rw half (bit-two_pow_self p)

pub bit-two_pow_ne : (p i : ℕ) → p ≢ i → bit (2 ^ p) i ≡ 0
bit-two_pow_ne zero zero h = absurd (h refl)
bit-two_pow_ne zero (suc i) h = bit_zero i
bit-two_pow_ne (suc p) zero h = omega (arith, pow-suc 2 p)
bit-two_pow_ne (suc p) (suc i) h =
    let half : 2 ^ suc p / 2 ≡ 2 ^ p = omega (arith, pow-suc 2 p) in
    rw half (bit-two_pow_ne p i (λ e. h (omega arith)))

bit_above : (w a i : ℕ) → a < 2 ^ w → w ≤ i → bit a i ≡ 0
bit_above zero a zero h k = omega arith
bit_above zero a (suc i) h k = bit_above zero (a / 2) i (omega arith) (omega arith)
bit_above (suc w) a zero h k = absurd (omega arith)
bit_above (suc w) a (suc i) h k = bit_above w (a / 2) i (omega (arith, pow-suc 2 w)) (omega arith)

-- Words of `w` bits with the same bits are the same word.
pub bit_ext : (w a b : ℕ) → a < 2 ^ w → b < 2 ^ w → ((i : ℕ) → i < w → bit a i ≡ bit b i) → a ≡ b
bit_ext zero a b h k e = omega arith
bit_ext (suc w) a b h k e =
    let high : a / 2 ≡ b / 2 =
      bit_ext w (a / 2) (b / 2) (omega (arith, pow-suc 2 w)) (omega (arith, pow-suc 2 w))
        (λ i l. e (suc i) (omega arith)) in
    omega (arith, high, e 0 (omega arith))

-- A word that is not 0 has a bit.
pub some_bit : (w a : ℕ) → a < 2 ^ w → a ≢ 0 → (i : ℕ) × (i < w) × (bit a i ≡ 1)
some_bit zero a h ne = absurd (ne (omega arith))
some_bit (suc w) a h ne = elim (ℕ_discrete (a % 2) 1) [
  | yes e ↦ (0, omega arith, e)
  | no e ↦
      let (i, below, set) = some_bit w (a / 2) (omega (arith, pow-suc 2 w)) (omega arith) in
      (suc i, omega arith, set)
]

pub bit_and-lt : (w a b : ℕ) → a < 2 ^ w → bit_and a b < 2 ^ w
bit_and-lt zero a b h = let e : a ≡ 0 = omega arith in rw (e, bit_and-zero_left b) (omega arith)
bit_and-lt (suc w) a b h = omega (
  arith,
  pow-suc 2 w,
  bit_and_step a b,
  bit_and-lt w (a / 2) (b / 2) (omega (arith, pow-suc 2 w)),
)

pub bit_or-lt : (w a b : ℕ) → a < 2 ^ w → b < 2 ^ w → bit_or a b < 2 ^ w
bit_or-lt zero a b h k =
    let e : a ≡ 0 = omega arith in let f : b ≡ 0 = omega arith in rw (e, f) (omega arith)
bit_or-lt (suc w) a b h k = omega (
  arith,
  pow-suc 2 w,
  bit_or_step a b,
  bit_or-lt w (a / 2) (b / 2) (omega (arith, pow-suc 2 w)) (omega (arith, pow-suc 2 w)),
)

-- A mask with every bit changes nothing.
pub bit_and_full : (w a : ℕ) → a < 2 ^ w → bit_and a (bit_not w 0) ≡ a
bit_and_full w a h =
    bit_ext w (bit_and a (bit_not w 0)) a (bit_and-lt w a (bit_not w 0) h) h (λ i k. omega (
      arith,
      bit-bit_and a (bit_not w 0) i,
      bit-bit_not w 0 i (omega (arith, one-le-pow w 2)) k,
      bit_zero i,
      bit_le_one a i,
    ))
