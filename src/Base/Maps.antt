-- ===== src/Base/Maps.antt =====
-- `std::map` as an association list, for keys whose equality test is given.
use mathlib.Core.Path.{◌≡◌, refl}
use mathlib.Core.Logic.{◌↔◌, ◌≢◌, inl, inr}
use mathlib.Core.Bool.{Bool, true, false, ◌&&◌}
use mathlib.Core.List.{List, [], ◌∷◌}
use mathlib.Core.Option.{Option, none, some}
use Prim.Native.Nat.{ℕ}
use native.Mathlib.Omega.{arith}
use esp32emu.Base.Tests.{if◌then◌else◌, ◌==◌, ==_iff, Bool-cases}

-- A type of keys: a test, and what it decides.
pub record Key {ℓ} (K : Type ℓ) : Type ℓ where
  pub beq : K → K → Bool
  pub beq_iff : (a b : K) → (beq a b ≡ true) ↔ (a ≡ b)

abbrev nat_beq : ℕ → ℕ → Bool
nat_beq a b = a == b

instance abbrev pub nat_key : Key ℕ
nat_key = record { beq = nat_beq; beq_iff = ==_iff }

-- `==` on strings, as their bytes.
unfoldable pub str_eq : List ℕ → List ℕ → Bool
str_eq [] [] = true
str_eq [] (b ∷ t) = false
str_eq (a ∷ s) [] = false
str_eq (a ∷ s) (b ∷ t) = a == b && str_eq s t

pub str_eq_iff : (s t : List ℕ) → (str_eq s t ≡ true) ↔ (s ≡ t)
unfolding str_eq
str_eq_iff [] [] = (λ e. refl, λ e. refl)
str_eq_iff [] (b ∷ t) = (λ e. absurd (ground arith), λ e. cc)
str_eq_iff (a ∷ s) [] = (λ e. absurd (ground arith), λ e. cc)
str_eq_iff (a ∷ s) (b ∷ t) = ground (arith, str_eq_iff s t)

instance abbrev pub str_key : Key (List ℕ)
str_key = record { beq = str_eq; beq_iff = str_eq_iff }

module _ {ℓ κ} {K : Type ℓ} {V : Type κ} ⦃k : Key K⦄ where
  -- `find`
  unfoldable pub lookup : K → List (K × V) → Option V
  lookup j [] = none
  lookup j ((i, v) ∷ m) = if k.beq i j then some v else lookup j m

  -- `m[j] = v`
  unfoldable pub insert : K → V → List (K × V) → List (K × V)
  insert j v [] = (j, v) ∷ []
  insert j v ((i, w) ∷ m) = if k.beq i j then (i, v) ∷ m else (i, w) ∷ insert j v m

  -- `erase`: every entry under the key goes.
  unfoldable pub erase : K → List (K × V) → List (K × V)
  erase j [] = []
  erase j ((i, w) ∷ m) = if k.beq i j then erase j m else (i, w) ∷ erase j m

  pub lookup-insert :
      (i j : K) (v : V) (m : List (K × V))
      → lookup j (insert i v m) ≡ (if k.beq i j then some v else lookup j m)
  unfolding lookup insert
  lookup-insert i j v [] = refl
  lookup-insert i j v ((h, w) ∷ m) =
      ground (arith, k.beq_iff i j, k.beq_iff h i, k.beq_iff h j, lookup-insert i j v m)

  pub lookup-erase :
      (i j : K) (m : List (K × V)) → lookup j (erase i m) ≡ (if k.beq i j then none else lookup j m)
  unfolding lookup erase
  lookup-erase i j [] = ground arith
  lookup-erase i j ((h, w) ∷ m) =
      ground (arith, k.beq_iff i j, k.beq_iff h i, k.beq_iff h j, lookup-erase i j m)

  pub lookup-insert_self : (j : K) (v : V) (m : List (K × V)) → lookup j (insert j v m) ≡ some v
  lookup-insert_self j v m = rw (lookup-insert j j v m, (k.beq_iff j j).1 refl)

  pub lookup-insert_ne :
      (i j : K) (v : V) (m : List (K × V)) → i ≢ j → lookup j (insert i v m) ≡ lookup j m
  lookup-insert_ne i j v m ne = elim (Bool-cases (k.beq i j)) [
    | inl e ↦ absurd (ne ((k.beq_iff i j).0 e))
    | inr e ↦ rw (lookup-insert i j v m, e)
  ]

  pub lookup-erase_self : (j : K) (m : List (K × V)) → lookup j (erase j m) ≡ none
  lookup-erase_self j m = rw (lookup-erase j j m, (k.beq_iff j j).1 refl)

  pub lookup-erase_ne : (i j : K) (m : List (K × V)) → i ≢ j → lookup j (erase i m) ≡ lookup j m
  lookup-erase_ne i j m ne = elim (Bool-cases (k.beq i j)) [
    | inl e ↦ absurd (ne ((k.beq_iff i j).0 e))
    | inr e ↦ rw (lookup-erase i j m, e)
  ]
