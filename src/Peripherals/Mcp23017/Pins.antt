-- ===== src/Peripherals/Mcp23017/Pins.antt =====
-- A pin's bit is changed by the calls on that pin, and by no call on another.
use esp32emu.Base.{
  ℕ, zero, suc, ◌/◌, ◌^◌, ◌≤◌, ◌<◌, ◌≡◌, ◌≢◌, refl, sym, ap, ◌∙◌, Bool, true, false, not, arith,
  ltb, ◌==◌, if◌then◌else◌, bit_and, Bool-cases, inl, inr,
}
use native.Mathlib.Nat.{pow-suc, one-le-pow, div-div-eq-div-mul}
use esp32emu.Base.Bits.{
  bit_not, bit, bit_le_one, bit-bit_and, bit-bit_or, bit-bit_not, bit-two_pow_self, bit-two_pow_ne,
  bit_and_step, bit_and-zero_left,
}
use esp32emu.Peripherals.Mcp23017.{Mcp23017, put_bit, digital_write, digital_read}

pow_mono : (p w : ℕ) → p < w → 2 ^ p < 2 ^ w
pow_mono p zero h = absurd (omega arith)
pow_mono zero (suc w) h = omega (arith, pow-suc 2 w, one-le-pow w 2)
pow_mono (suc p) (suc w) h = omega (arith, pow-suc 2 w, pow-suc 2 p, pow_mono p w (omega arith))

bit_and-zero_right : (n a : ℕ) → a ≤ n → bit_and a 0 ≡ 0
bit_and-zero_right zero a h =
    let none_left : a ≡ 0 = omega arith in rw (none_left, bit_and-zero_left 0)
bit_and-zero_right (suc n) a h =
    omega (arith, bit_and_step a 0, bit_and-zero_right n (a / 2) (omega arith))

-- `(a >> p) & 1` is the bit at `p`.
shifted_bit : (p a : ℕ) → bit_and (a / 2 ^ p) 1 ≡ bit a p
shifted_bit zero a =
    let same : a / 2 ^ 0 ≡ a = omega arith in
    ap (λ x. bit_and x 1) same ∙ omega (arith, bit_and_step a 1, bit_and-zero_right (a / 2) (a / 2))
shifted_bit (suc p) a =
    let halves : a / 2 ^ suc p ≡ a / 2 / 2 ^ p =
      ap (λ k. a / k) (pow-suc 2 p ∙ omega arith) ∙ sym (div-div-eq-div-mul a 2 (2 ^ p)) in
    ap (λ x. bit_and x 1) halves ∙ shifted_bit p (a / 2)

-- The bit of the pin is as asked for, and every other one is kept.
put_bit_lem :
    (r pin i : ℕ) (val : Bool)
    → pin < 16
    → i < 16
    → (bit (put_bit r pin val) pin ≡ (if val then 1 else 0))
      × (pin ≢ i → bit (put_bit r pin val) i ≡ bit r i)
unfolding put_bit
put_bit_lem r pin i true h k = (
  omega (arith, bit-bit_or r (2 ^ pin) pin, bit-two_pow_self pin, bit_le_one r pin),
  λ ne. omega (arith, bit-bit_or r (2 ^ pin) i, bit-two_pow_ne pin i ne),
)
put_bit_lem r pin i false h k =
    let small = pow_mono pin 16 h in
    (
      omega (
        arith,
        bit-bit_and r (bit_not 16 (2 ^ pin)) pin,
        bit-bit_not 16 (2 ^ pin) pin small h,
        bit-two_pow_self pin,
      ),
      λ ne. omega (
        arith,
        bit-bit_and r (bit_not 16 (2 ^ pin)) i,
        bit-bit_not 16 (2 ^ pin) i small k,
        bit-two_pow_ne pin i ne,
        bit_le_one r i,
      ),
    )

-- A write to a pin below 16 is what a read of that pin gives, 1 for any value but 0, and reads of the
-- other pins are as before; a write to a pin above changes nothing, and such a pin reads as 0.
pub write_read_pin :
    (c : Mcp23017) (pin val : ℕ)
    → (pin < 16
        → (digital_read (digital_write c pin val) pin ≡ (if val == 0 then 0 else 1))
          × ((i : ℕ) → pin ≢ i → digital_read (digital_write c pin val) i ≡ digital_read c i))
      × (16 ≤ pin → (digital_write c pin val ≡ c) × (digital_read c pin ≡ 0))
unfolding digital_write digital_read
write_read_pin c pin val = (
  λ h.
      let inside : ltb 15 pin ≡ false = ground arith in
      (
        rw inside (
            shifted_bit pin (put_bit c.gpio pin (not (val == 0)))
            ∙ (put_bit_lem c.gpio pin pin (not (val == 0)) h h).0
            ∙ ground arith),
        λ i ne. elim (Bool-cases (ltb 15 i)) [
          | inl e ↦ rw e refl
          | inr e ↦
              rw (inside, e)
                (shifted_bit i (put_bit c.gpio pin (not (val == 0)))
                  ∙ (put_bit_lem c.gpio pin i (not (val == 0)) h (ground arith)).1 ne
                  ∙ sym (shifted_bit i c.gpio))
        ],
      ),
  λ h. let outside : ltb 15 pin ≡ true = ground arith in (rw outside, rw outside),
)
