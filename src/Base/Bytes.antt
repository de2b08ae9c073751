-- ===== src/Base/Bytes.antt =====
-- A block of memory as a list of bytes: `memcpy` into it, out of it, and `memset`, within its range.
use Prim.Native.Nat.{ℕ, zero, suc, ◌+◌, ◌*◌, ◌/◌, ◌%◌, ◌^◌, ◌≤◌, ◌<◌}
use mathlib.Core.Path.{◌≡◌, refl, ap, subst}
use mathlib.Core.Logic.{◌⊎◌, inl, inr}
use mathlib.Core.List.{List, [], ◌∷◌}
use native.Mathlib.Nat.{pow-suc}
use native.Mathlib.Omega.{arith}
use esp32emu.Base.Lists.{length, take, drop, replicate, length-take, length-drop, length-replicate}

-- Copies `src` over `d` from `off` on; bytes that would fall behind the end are dropped.
pub write_at : List ℕ → ℕ → List ℕ → List ℕ
write_at [] off src = []
write_at (x ∷ d) zero [] = x ∷ d
write_at (x ∷ d) zero (s ∷ src) = s ∷ write_at d zero src
write_at (x ∷ d) (suc off) src = x ∷ write_at d off src

-- The `n` bytes from `off` on.
abbrev pub read_at : List ℕ → ℕ → ℕ → List ℕ
read_at d off n = take n (drop off d)

-- `memset(d + off, v, n)`
abbrev pub fill_at : List ℕ → ℕ → ℕ → ℕ → List ℕ
fill_at d off v n = write_at d off (replicate n v)

pub length-write_at : (d : List ℕ) (off : ℕ) (src : List ℕ) → length (write_at d off src) ≡ length d
unfolding write_at
length-write_at [] off src = refl
length-write_at (x ∷ d) zero [] = refl
length-write_at (x ∷ d) zero (s ∷ src) = ap suc (length-write_at d zero src)
length-write_at (x ∷ d) (suc off) src = ap suc (length-write_at d off src)

-- What was written is what is read there.
pub read_at-write_at :
    (d : List ℕ) (off : ℕ) (src : List ℕ)
    → off + length src ≤ length d
    → read_at (write_at d off src) off (length src) ≡ src
unfolding write_at
read_at-write_at [] zero [] h = refl
read_at-write_at [] zero (s ∷ src) h = absurd (omega arith)
read_at-write_at [] (suc off) src h = absurd (omega arith)
read_at-write_at (x ∷ d) zero [] h = refl
read_at-write_at (x ∷ d) zero (s ∷ src) h = ap (◌∷◌ s) (read_at-write_at d zero src (omega arith))
read_at-write_at (x ∷ d) (suc off) src h = read_at-write_at d off src (omega arith)

-- Bytes before the write keep their value.
pub read_at-write_at_before :
    (d : List ℕ) (off : ℕ) (src : List ℕ) (o n : ℕ)
    → o + n ≤ off
    → read_at (write_at d off src) o n ≡ read_at d o n
unfolding write_at
read_at-write_at_before [] off src o n h = refl
read_at-write_at_before (x ∷ d) zero src zero zero h = refl
read_at-write_at_before (x ∷ d) zero src zero (suc n) h = absurd (omega arith)
read_at-write_at_before (x ∷ d) zero src (suc o) n h = absurd (omega arith)
read_at-write_at_before (x ∷ d) (suc off) src zero zero h = refl
read_at-write_at_before (x ∷ d) (suc off) src zero (suc n) h =
    ap (◌∷◌ x) (read_at-write_at_before d off src zero n (omega arith))
read_at-write_at_before (x ∷ d) (suc off) src (suc o) n h =
    read_at-write_at_before d off src o n (omega arith)

drop-write_at :
    (d : List ℕ) (off : ℕ) (src : List ℕ) (o : ℕ)
    → off + length src ≤ o
    → drop o (write_at d off src) ≡ drop o d
unfolding write_at
drop-write_at [] off src o h = refl
drop-write_at (x ∷ d) zero [] o h = refl
drop-write_at (x ∷ d) zero (s ∷ src) zero h = absurd (omega arith)
drop-write_at (x ∷ d) zero (s ∷ src) (suc o) h = drop-write_at d zero src o (omega arith)
drop-write_at (x ∷ d) (suc off) src zero h = absurd (omega arith)
drop-write_at (x ∷ d) (suc off) src (suc o) h = drop-write_at d off src o (omega arith)

-- So do the bytes behind it.
pub read_at-write_at_after :
    (d : List ℕ) (off : ℕ) (src : List ℕ) (o n : ℕ)
    → off + length src ≤ o
    → read_at (write_at d off src) o n ≡ read_at d o n
read_at-write_at_after d off src o n h = ap (take n) (drop-write_at d off src o h)

-- Two ranges that share no byte.
abbrev pub Apart : ℕ → ℕ → ℕ → ℕ → Type 0
Apart off len o n = (o + n ≤ off) ⊎ (off + len ≤ o)

pub read_at-write_at-Apart :
    (d : List ℕ) (off : ℕ) (src : List ℕ) (o n : ℕ)
    → Apart off (length src) o n
    → read_at (write_at d off src) o n ≡ read_at d o n
read_at-write_at-Apart d off src o n (inl h) = read_at-write_at_before d off src o n h
read_at-write_at-Apart d off src o n (inr h) = read_at-write_at_after d off src o n h

pub length-read_at : (d : List ℕ) (off n : ℕ) → off + n ≤ length d → length (read_at d off n) ≡ n
length-read_at d off n h = omega (arith, length-take n (drop off d), length-drop off d)

-- After a `memset` the range reads as that byte.
pub read_at-fill_at :
    (d : List ℕ) (off v n : ℕ)
    → off + n ≤ length d
    → read_at (fill_at d off v n) off n ≡ replicate n v
read_at-fill_at d off v n h =
    let e : length (replicate n v) ≡ n = length-replicate n v in
    subst (λ (k : ℕ). read_at (fill_at d off v n) off k ≡ replicate n v) e
      (read_at-write_at d off (replicate n v) (omega arith))

-- The `n` bytes of a number, the lowest first, and the number that bytes stand for.
abbrev pub le_bytes : ℕ → ℕ → List ℕ
le_bytes zero v = []
le_bytes (suc n) v = v % 2 ^ 8 ∷ le_bytes n (v / 2 ^ 8)

abbrev pub le_value : List ℕ → ℕ
le_value [] = 0
le_value (b ∷ bs) = b + 2 ^ 8 * le_value bs

pub length-le_bytes : (n v : ℕ) → length (le_bytes n v) ≡ n
length-le_bytes zero v = refl
length-le_bytes (suc n) v = ap suc (length-le_bytes n (v / 2 ^ 8))

pub le_value-le_bytes : (n v : ℕ) → v < 256 ^ n → le_value (le_bytes n v) ≡ v
le_value-le_bytes zero v h = omega arith
le_value-le_bytes (suc n) v h =
    omega (arith, pow-suc 256 n, le_value-le_bytes n (v / 2 ^ 8) (omega (arith, pow-suc 256 n)))
