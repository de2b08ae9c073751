-- ===== src/Text/Json/Blanks.antt =====
-- The pieces of a printed text: white space, strings, and what may follow a value.
use esp32emu.Base.{
  ℕ, zero, suc, ◌*◌, ◌≡◌, ◌≢◌, refl, ◌⊎◌, inr, Bool, true, false, List, [], ◌∷◌, ◌++◌, arith, ◌==◌,
  replicate, All,
}
use esp32emu.Text.Json.{got, new_line, skip_ws, is_ws, parse_string, after_key}

skip_ws-spaces : (n : ℕ) (s : List ℕ) → skip_ws (replicate n 32 ++ s) ≡ skip_ws s
unfolding skip_ws
skip_ws-spaces zero s = refl
skip_ws-spaces (suc n) s = skip_ws-spaces n s

pub skip_ws-new_line : (fmt : Bool) (d : ℕ) (s : List ℕ) → skip_ws (new_line fmt d ++ s) ≡ skip_ws s
unfolding skip_ws new_line
skip_ws-new_line true d s = skip_ws-spaces (d * 2) s
skip_ws-new_line false d s = refl

pub skip_ws-after_key : (fmt : Bool) (s : List ℕ) → skip_ws (after_key fmt ++ s) ≡ skip_ws s
unfolding skip_ws
skip_ws-after_key true s = refl
skip_ws-after_key false s = refl

pub skip_ws-cons : (c : ℕ) (s : List ℕ) → is_ws c ≡ false → skip_ws (c ∷ s) ≡ c ∷ s
unfolding skip_ws
skip_ws-cons c s h = rw h

-- Neither a quotation mark nor a backslash, which the printer would have to escape.
abbrev pub IsPlain : List ℕ → Type 0
IsPlain s = All (λ c. (c ≢ b'"') × (c ≢ b'\\')) s

pub parse_string-append : (k r : List ℕ) → IsPlain k → parse_string (k ++ b'"' ∷ r) ≡ got k r
unfolding parse_string
parse_string-append [] [] h = refl
parse_string-append [] (x ∷ r) h = refl
parse_string-append (c ∷ []) r h =
    let quote : (c == b'"') ≡ false = ground arith in
    let slash : (c == b'\\') ≡ false = ground arith in
    rw (quote, slash, parse_string-append [] r tt)
parse_string-append (c ∷ e ∷ k) r h =
    let quote : (c == b'"') ≡ false = ground arith in
    let slash : (c == b'\\') ≡ false = ground arith in
    rw (quote, slash, parse_string-append (e ∷ k) r h.1)

-- What may follow a value in a printed text: its end, a comma, a bracket, a brace or a new line.
abbrev pub Ends : List ℕ → Type 0
Ends [] = Unit {0}
Ends (c ∷ s) = (c ≡ b',') ⊎ (c ≡ b']') ⊎ (c ≡ b'}') ⊎ (c ≡ 10)

pub new_line-Ends :
    (fmt : Bool) (d c : ℕ) (s : List ℕ) → Ends (c ∷ []) → Ends (new_line fmt d ++ c ∷ s)
unfolding new_line
new_line-Ends true d c s h = inr (inr (inr refl))
new_line-Ends false d c s h = h
