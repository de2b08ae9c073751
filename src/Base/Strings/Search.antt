-- ===== src/Base/Strings/Search.antt =====
-- What `find` and `getline` do on strings that are put together.
use esp32emu.Base.Tests.{Option-cases}
use esp32emu.Base.Lists.{length, All, drop}
use Prim.Native.Nat.{ℕ, suc, ◌+◌, ◌≤◌, ◌<◌}
use mathlib.Core.Path.{◌≡◌, refl, ap, ◌∙◌}
use mathlib.Core.Logic.{◌≢◌, inl, inr}
use mathlib.Core.Bool.{true, false}
use mathlib.Core.List.{List, [], ◌∷◌, ◌++◌}
use mathlib.Core.Option
use mathlib.Core.Option.{Option, none, some}
use native.Mathlib.Omega.{arith}
use esp32emu.Base.Strings.{find_byte, find_str, starts_with, get_lines, drop_cr}

-- No byte of a string is `c`.
abbrev pub Lacks : ℕ → List ℕ → Type 0
Lacks c s = All (λ x. x ≢ c) s

pub find_byte-append :
    (c : ℕ) (a b : List ℕ) → Lacks c a → find_byte c (a ++ c ∷ b) ≡ some (length a)
unfolding find_byte
find_byte-append c [] b h = ground arith
find_byte-append c (x ∷ a) b h = ground (arith, find_byte-append c a b h.1)

pub find_byte-Lacks : (c : ℕ) (a : List ℕ) → Lacks c a → find_byte c a ≡ none
unfolding find_byte
find_byte-Lacks c [] h = refl
find_byte-Lacks c (x ∷ a) h = ground (arith, find_byte-Lacks c a h.1)

-- A text that begins with `c` is not found before the end of a string without `c`.
pub find_str-append :
    (c : ℕ) (p a b : List ℕ)
    → Lacks c a
    → find_str (c ∷ p) (a ++ b) ≡ Option.map (λ n. length a + n) (find_str (c ∷ p) b)
unfolding find_str starts_with
find_str-append c p [] b h = elim (find_str (c ∷ p) b) as (λ o. o ≡ Option.map (λ n. 0 + n) o) [
  | none ↦ refl
  | some n ↦ ap some (omega arith)
]
find_str-append c p (x ∷ a) b h = ground (arith, find_str-append c p a b h.1)

pub get_lines-append :
    (d : ℕ) (a b : List ℕ) → Lacks d a → get_lines d (a ++ d ∷ b) ≡ a ∷ get_lines d b
unfolding get_lines
get_lines-append d [] b h = ground arith
get_lines-append d (x ∷ a) b h = ground (arith, get_lines-append d a b h.1)

pub get_lines-single :
    (d : ℕ) (x : ℕ) (a : List ℕ) → Lacks d (x ∷ a) → get_lines d (x ∷ a) ≡ (x ∷ a) ∷ []
unfolding get_lines
get_lines-single d x [] h = ground arith
get_lines-single d x (y ∷ a) h = ground (arith, get_lines-single d y a h.1)

pub get_lines-nonempty :
    (d : ℕ) (a : List ℕ) (x : ℕ) (b : List ℕ)
    → Lacks d (a ++ x ∷ b)
    → get_lines d (a ++ x ∷ b) ≡ (a ++ x ∷ b) ∷ []
get_lines-nonempty d [] x b h = get_lines-single d x b h
get_lines-nonempty d (y ∷ a) x b h = get_lines-single d y (a ++ x ∷ b) h

pub drop_cr-append : (a : List ℕ) → drop_cr (a ++ 13 ∷ []) ≡ a
unfolding drop_cr
drop_cr-append [] = refl
drop_cr-append (x ∷ []) = refl
drop_cr-append (x ∷ y ∷ a) = ap (◌∷◌ x) (drop_cr-append (y ∷ a))

pub drop_cr-Lacks : (a : List ℕ) → Lacks 13 a → drop_cr a ≡ a
unfolding drop_cr
drop_cr-Lacks [] h = refl
drop_cr-Lacks (x ∷ []) h = ground arith
drop_cr-Lacks (x ∷ y ∷ a) h = ap (◌∷◌ x) (drop_cr-Lacks (y ∷ a) h.1)

-- What is found in a string is found in any longer one, at the same place.
starts_with-append : (p a b : List ℕ) → starts_with p a ≡ true → starts_with p (a ++ b) ≡ true
unfolding starts_with
starts_with-append [] a b h = refl
starts_with-append (x ∷ p) [] b h = cc
starts_with-append (x ∷ p) (y ∷ a) b h = ground (arith, starts_with-append p a b)

starts_with_short :
    (p a b : List ℕ) → starts_with p (a ++ b) ≡ true → starts_with p a ≡ false → length a < length p
unfolding starts_with
starts_with_short [] a b h k = cc
starts_with_short (x ∷ p) [] b h k = omega arith
starts_with_short (x ∷ p) (y ∷ a) b h k = ground (arith, starts_with_short p a b)

starts_with_fits : (p a : List ℕ) → starts_with p a ≡ true → length p ≤ length a
unfolding starts_with
starts_with_fits [] a h = omega arith
starts_with_fits (x ∷ p) [] h = cc
starts_with_fits (x ∷ p) (y ∷ a) h = ground (arith, starts_with_fits p a)

pub find_str_fits : (p a : List ℕ) (e : ℕ) → find_str p a ≡ some e → e + length p ≤ length a
unfolding find_str
find_str_fits p [] e h = ground (arith, starts_with_fits p [])
find_str_fits p (x ∷ a) e h = elim (Option-cases (find_str p a)) [
  | inl missing ↦ ground (arith, missing, starts_with_fits p (x ∷ a))
  | inr (k, at) ↦ ground (arith, at, starts_with_fits p (x ∷ a), find_str_fits p a k at)
]

pub find_str_longer :
    (q : ℕ) (p a b : List ℕ) (e : ℕ)
    → find_str (q ∷ p) a ≡ some e
    → find_str (q ∷ p) (a ++ b) ≡ some e
unfolding find_str
find_str_longer q p [] b e h = ground arith
find_str_longer q p (x ∷ a) b e h = elim (Option-cases (find_str (q ∷ p) a)) [
  | inl missing ↦ ground (arith, missing, starts_with-append (q ∷ p) (x ∷ a) b)
  | inr (k, at) ↦ ground (
    arith,
    at,
    find_str_longer q p a b k at,
    starts_with-append (q ∷ p) (x ∷ a) b,
    starts_with_short (q ∷ p) (x ∷ a) b,
    find_str_fits (q ∷ p) a k at,
  )
]

-- What is not in a string, but in a longer one, ends behind it.
pub find_str_behind :
    (q : ℕ) (p a b : List ℕ) (h : ℕ)
    → find_str (q ∷ p) a ≡ none
    → find_str (q ∷ p) (a ++ b) ≡ some h
    → length a < h + length (q ∷ p)
unfolding find_str
find_str_behind q p [] b h k l = omega arith
find_str_behind q p (x ∷ a) b h k l = elim (Option-cases (find_str (q ∷ p) (a ++ b))) [
  | inl missing ↦ ground (arith, missing, starts_with_short (q ∷ p) (x ∷ a) b)
  | inr (m, at) ↦
      ground (
        arith,
        at,
        starts_with_short (q ∷ p) (x ∷ a) b,
        find_str_behind q p a b m (ground arith) at,
      )
]

-- The end of a line, and the empty line behind a header, found behind text without a carriage return.
pub find_str-crlf :
    (t r : List ℕ) → Lacks 13 t → find_str (13 ∷ 10 ∷ []) (t ++ 13 ∷ 10 ∷ r) ≡ some (length t)
unfolding find_str starts_with
find_str-crlf t r h =
    let e : length t + 0 ≡ length t = omega arith in
    find_str-append 13 (10 ∷ []) t (13 ∷ 10 ∷ r) h ∙ ap some e

pub drop-add_append {ℓ} :
    {A : Type ℓ} (a : List A) (k : ℕ) (b : List A) → drop (length a + k) (a ++ b) ≡ drop k b
drop-add_append [] k b = let e : 0 + k ≡ k = omega arith in ap (λ (n : ℕ). drop n b) e
drop-add_append (x ∷ a) k b =
    let e : suc (length a) + k ≡ suc (length a + k) = omega arith in
    ap (λ (n : ℕ). drop n (x ∷ (a ++ b))) e ∙ drop-add_append a k b
