-- ===== src/Net/Url/Escapes.antt =====
-- The escapes of a URL and of a form: every encoding of a text is decoded to it.
use esp32emu.Base.{
  ℕ, ◌+◌, ◌-◌, ◌*◌, ◌<◌, ◌≡◌, refl, ap, ap₂, ◌∙◌, some, List, [], ◌∷◌, arith, ltb, if◌then◌else◌,
  inl, inr, ◌⊎◌, ◌≢◌,
}
use esp32emu.Base.Strings.Search.{Lacks}
use esp32emu.Net.Url.{hex_value, hex_pair, plain, url_decode}

-- The hexadecimal digits of both letter cases, and their values.
abbrev pub upper_digit : ℕ → ℕ
upper_digit v = if ltb v 10 then b'0' + v else b'A' + (v - 10)

abbrev pub lower_digit : ℕ → ℕ
lower_digit v = if ltb v 10 then b'0' + v else b'a' + (v - 10)

abbrev pub IsDigit : ℕ → ℕ → Type 0
IsDigit h v = (v < 16) × ((h ≡ upper_digit v) ⊎ (h ≡ lower_digit v))

-- A byte that may stand for itself: not one that has a meaning in a form.
abbrev pub IsLiteral : ℕ → Type 0
IsLiteral c = (c ≢ b'%') × (c ≢ b'+') × (c ≢ b'&') × (c ≢ b'=')

-- `IsEncoding s t`: `t` is an encoding of `s` as `application/x-www-form-urlencoded` allows it. A space is
-- a `+` or `%20`, any other byte is `%` and its two digits, and literal bytes may stand for themselves.
pub data IsEncoding : List ℕ → List ℕ → Type 0 where
  done : IsEncoding [] []
  itself : {c : ℕ} {s t : List ℕ} → IsLiteral c → IsEncoding s t → IsEncoding (c ∷ s) (c ∷ t)
  plus : {s t : List ℕ} → IsEncoding s t → IsEncoding (b' ' ∷ s) (b'+' ∷ t)
  escaped :
      {h l a b : ℕ} {s t : List ℕ}
      → IsDigit h a
      → IsDigit l b
      → IsEncoding s t
      → IsEncoding ((a * 16 + b) ∷ s) (b'%' ∷ h ∷ l ∷ t)

hex_value-IsDigit : (h v : ℕ) → IsDigit h v → hex_value h ≡ some v
unfolding hex_value
hex_value-IsDigit h v (low, inl e) = ground arith
hex_value-IsDigit h v (low, inr e) = ground arith

hex_pair-some :
    (h l : ℕ) {a b : ℕ}
    → hex_value h ≡ some a
    → hex_value l ≡ some b
    → hex_pair h l ≡ some (a * 16 + b)
unfolding hex_pair
hex_pair-some h l p q = ground arith

-- A byte other than `%` is decoded by itself.
pub url_decode-cons : (c : ℕ) (s : List ℕ) → c ≢ b'%' → url_decode (c ∷ s) ≡ plain c ∷ url_decode s
unfolding url_decode
url_decode-cons c [] h = refl
url_decode-cons c (x ∷ []) h = refl
url_decode-cons c (x ∷ y ∷ s) h = ground arith

url_decode-escape :
    (h l v : ℕ) (s : List ℕ)
    → hex_pair h l ≡ some v
    → url_decode (b'%' ∷ h ∷ l ∷ s) ≡ v ∷ url_decode s
unfolding url_decode
url_decode-escape h l v s e = rw e

-- Every encoding of a text is decoded to the text.
pub url_decode-IsEncoding : {s t : List ℕ} → IsEncoding s t → url_decode t ≡ s
unfolding url_decode
url_decode-IsEncoding done = refl
url_decode-IsEncoding (itself {c} {s} {t} lit e) =
    let self : plain c ≡ c = ground arith in
    url_decode-cons c t lit.0 ∙ ap₂ (λ (x : ℕ) (r : List ℕ). x ∷ r) self (url_decode-IsEncoding e)
url_decode-IsEncoding (plus {s} {t} e) =
    url_decode-cons b'+' t (omega arith) ∙ ap (λ (r : List ℕ). b' ' ∷ r) (url_decode-IsEncoding e)
url_decode-IsEncoding (escaped {h} {l} {a} {b} {s} {t} p q e) =
    url_decode-escape h l (a * 16 + b) t
      (hex_pair-some h l (hex_value-IsDigit h a p) (hex_value-IsDigit l b q))
    ∙ ap (λ (r : List ℕ). (a * 16 + b) ∷ r) (url_decode-IsEncoding e)

digit_ne : (h v d : ℕ) → IsDigit h v → (d ≡ b'&') ⊎ (d ≡ b'=') → h ≢ d
digit_ne h v d (low, inl e) (inl k) f = ground arith
digit_ne h v d (low, inl e) (inr k) f = ground arith
digit_ne h v d (low, inr e) (inl k) f = ground arith
digit_ne h v d (low, inr e) (inr k) f = ground arith

literal_ne : (c d : ℕ) → IsLiteral c → (d ≡ b'&') ⊎ (d ≡ b'=') → c ≢ d
literal_ne c d lit (inl k) f = lit.2 (f ∙ k)
literal_ne c d lit (inr k) f = lit.3 (f ∙ k)

sign_ne : (c d : ℕ) → (c ≡ b'%') ⊎ (c ≡ b'+') → (d ≡ b'&') ⊎ (d ≡ b'=') → c ≢ d
sign_ne c d (inl e) (inl k) f = omega arith
sign_ne c d (inl e) (inr k) f = omega arith
sign_ne c d (inr e) (inl k) f = omega arith
sign_ne c d (inr e) (inr k) f = omega arith

-- The separators of a form do not stand in encoded text.
pub IsEncoding-Lacks : (d : ℕ) {s t : List ℕ} → IsEncoding s t → (d ≡ b'&') ⊎ (d ≡ b'=') → Lacks d t
IsEncoding-Lacks d done k = tt
IsEncoding-Lacks d (itself {c} {s} {t} lit e) k = (literal_ne c d lit k, IsEncoding-Lacks d e k)
IsEncoding-Lacks d (plus e) k = (sign_ne b'+' d (inr refl) k, IsEncoding-Lacks d e k)
IsEncoding-Lacks d (escaped {h} {l} {a} {b} {s} {t} p q e) k = (
  sign_ne b'%' d (inl refl) k,
  (digit_ne h a d p k, (digit_ne l b d q k, IsEncoding-Lacks d e k)),
)
