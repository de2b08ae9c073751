-- ===== src/FreeRtos/StreamBuffer/Ring.antt =====
-- The ring seen from an index that does not wrap: what a window of it holds, and how a write changes it.
use esp32emu.Base.{
  ℕ, zero, suc, ◌+◌, ◌-◌, ◌%◌, ◌≤◌, ◌<◌, ◌≡◌, ◌≢◌, refl, sym, ap, ap₂, ◌∙◌, List, [], ◌∷◌, ◌++◌,
  arith, length, get_or, set, get_or-set_self, get_or-set_ne,
}
use native.Mathlib.Nat.{
  mod-lt, mod-mod, mod-eq_of_lt, mod-add-mod, mod-eq-sub-mod, add_assoc, add-zero,
}
use native.Mathlib.Decide.{dec_lt}

module _ (buf : List ℕ) (cap : ℕ) where
  -- `n` bytes from place `h` on, each place taken round the ring.
  abbrev pub window : ℕ → ℕ → List ℕ
  window h zero = []
  window h (suc n) = get_or buf (h % cap) 0 ∷ window (h + 1) n

  pub length-window : (h n : ℕ) → length (window h n) ≡ n
  length-window h zero = refl
  length-window h (suc n) = ap suc (length-window (h + 1) n)

  pub window-add : (h m n : ℕ) → window h (m + n) ≡ window h m ++ window (h + m) n
  window-add h zero n = ap₂ window (omega arith) (omega arith)
  window-add h (suc m) n =
      let e : suc m + n ≡ suc (m + n) = omega arith in
      ap (window h) e
      ∙ ap (λ t. get_or buf (h % cap) 0 ∷ t)
          (window-add (h + 1) m n ∙ ap (λ k. window (h + 1) m ++ window k n) (omega arith))

  pub window_succ : (h n : ℕ) → window h (suc n) ≡ window h n ++ get_or buf ((h + n) % cap) 0 ∷ []
  window_succ h zero = ap (λ k. get_or buf (k % cap) 0 ∷ []) (omega arith)
  window_succ h (suc n) =
      ap (λ t. get_or buf (h % cap) 0 ∷ t)
        (window_succ (h + 1) n
          ∙ ap (λ k. window (h + 1) n ++ get_or buf (k % cap) 0 ∷ []) (omega arith))

  -- Only the place on the ring of the first byte counts.
  pub window-mod : (h n : ℕ) → window (h % cap) n ≡ window h n
  window-mod h zero = refl
  window-mod h (suc n) = ap₂ ◌∷◌ (ap (λ k. get_or buf k 0) (mod-mod h cap)) (
      sym (window-mod (h % cap + 1) n)
      ∙ ap (λ k. window k n) (mod-add-mod h cap 1)
      ∙ window-mod (h + 1) n)

-- Two places of one turn of the ring differ.
pub mod-ne : (cap h i j : ℕ) → i < j → j < i + cap → (h + i) % cap ≢ (h + j) % cap
mod-ne cap h i j p q e =
    let r = (h + i) % cap in
    let l : r < cap = mod-lt (h + i) (omega arith) in
    let shift : (r + (j - i)) % cap ≡ r =
      mod-add-mod (h + i) cap (j - i) ∙ ap (λ k. k % cap) (omega arith) ∙ sym e in
    elim (dec_lt (r + (j - i)) cap) [
      | yes a ↦ omega (arith, mod-eq_of_lt a, shift)
      | no b ↦ omega (
        arith,
        shift,
        mod-eq-sub-mod {n = r + (j - i)} {m = cap} (omega arith),
        mod-eq_of_lt {n = r + (j - i) - cap} {m = cap} (omega arith),
      )
    ]

module _ (cap h : ℕ) where
  -- A write outside a window leaves it as it is.
  window-set_ne :
      (buf : List ℕ) (x k n o : ℕ)
      → o + n ≤ k
      → k < o + cap
      → window (set buf ((h + k) % cap) x) cap (h + o) n ≡ window buf cap (h + o) n
  window-set_ne buf x k zero o p q = refl
  window-set_ne buf x k (suc n) o p q =
      ap₂ ◌∷◌
        (get_or-set_ne buf ((h + k) % cap) ((h + o) % cap) x 0
          (λ e. mod-ne cap h o k (omega arith) q (sym e)))
        (ap (λ t. window (set buf ((h + k) % cap) x) cap t n) (add_assoc h o 1)
          ∙ window-set_ne buf x k n (o + 1) (omega arith) (omega arith)
          ∙ ap (λ t. window buf cap t n) (sym (add_assoc h o 1)))

  -- A write just behind a window extends it.
  pub window-set :
      (buf : List ℕ) (x k : ℕ)
      → cap ≤ length buf
      → k < cap
      → window (set buf ((h + k) % cap) x) cap h (suc k) ≡ window buf cap h k ++ x ∷ []
  window-set buf x k size room =
      let buf' = set buf ((h + k) % cap) x in
      let keep : window buf' cap h k ≡ window buf cap h k =
        ap (λ t. window buf' cap t k) (sym (add-zero h))
        ∙ window-set_ne buf x k k 0 (omega arith) (omega arith)
        ∙ ap (λ t. window buf cap t k) (add-zero h) in
      let l : (h + k) % cap < cap = mod-lt (h + k) (omega arith) in
      window_succ buf' cap h k
      ∙ ap₂ (λ a b. a ++ b ∷ []) keep (get_or-set_self buf ((h + k) % cap) x 0 (omega arith))
