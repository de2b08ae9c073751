-- ===== src/Net/Web/Query.antt =====
-- The parameters of a query or a form.
use esp32emu.Base.{
  ℕ, suc, ◌+◌, ◌<◌, ◌≡◌, refl, ap, ap₂, ◌∙◌, ◌≢◌, inl, inr, List, [], ◌∷◌, ◌++◌, arith, length,
  length-append, drop, take-append, All-append,
}
use mathlib.Core.List.{map}
use esp32emu.Base.Strings.{get_lines}
use esp32emu.Base.Strings.Search.{Lacks, find_byte-append, get_lines-append, get_lines-nonempty}
use esp32emu.Net.Url.{url_decode}
use esp32emu.Net.Url.Escapes.{IsEncoding, url_decode-IsEncoding, IsEncoding-Lacks}
use esp32emu.Net.Web.{Param}
use esp32emu.Net.Web.Request.{param_of, parse_query_string}

-- A text for a name and a value, and one for several.
pub data IsPair : Param → List ℕ → Type 0 where
  pair :
      {name value n v : List ℕ}
      → IsEncoding name n
      → IsEncoding value v
      → IsPair (record { name = name; value = value }) (n ++ b'=' ∷ v)

pub data IsForm : List Param → List ℕ → Type 0 where
  nothing : IsForm [] []
  one : {p : Param} {t : List ℕ} → IsPair p t → IsForm (p ∷ []) t
  more :
      {p q : Param} {ps : List Param} {t u : List ℕ}
      → IsPair p t
      → IsForm (q ∷ ps) u
      → IsForm (p ∷ q ∷ ps) (t ++ b'&' ∷ u)

pub drop-append_suc {ℓ} :
    {A : Type ℓ} (a : List A) (x : A) (b : List A) → drop (length a + 1) (a ++ x ∷ b) ≡ b
drop-append_suc [] x b = refl
drop-append_suc (y ∷ a) x b =
    let e : suc (length a) + 1 ≡ suc (length a + 1) = omega arith in
    ap (λ (n : ℕ). drop n (y ∷ (a ++ x ∷ b))) e ∙ drop-append_suc a x b

param_of-append :
    (a b : List ℕ)
    → Lacks b'=' a
    → param_of (a ++ b'=' ∷ b) ≡ record { name = url_decode a; value = url_decode b }
unfolding param_of
param_of-append a b h =
    rw (param_of, find_byte-append b'=' a b h)
      (ap₂ (λ (x y : List ℕ). record { name = url_decode x; value = url_decode y })
        (take-append a (b'=' ∷ b)) (drop-append_suc a b'=' b))

param_of-IsPair : {p : Param} {t : List ℕ} → IsPair p t → param_of t ≡ p
param_of-IsPair (pair {name} {value} {n} {v} e f) =
    param_of-append n v (IsEncoding-Lacks b'=' e (inr refl))
    ∙ ap₂ (λ (x y : List ℕ). record { name = x; value = y }) (url_decode-IsEncoding e)
        (url_decode-IsEncoding f)

IsPair-Lacks : {p : Param} {t : List ℕ} → IsPair p t → Lacks b'&' t
IsPair-Lacks (pair {name} {value} {n} {v} e f) =
    All-append (λ x. x ≢ b'&') n (b'=' ∷ v) (IsEncoding-Lacks b'&' e (inl refl))
      (omega arith, IsEncoding-Lacks b'&' f (inl refl))

-- A pair is not the empty text.
get_lines-IsPair : {p : Param} {t : List ℕ} → IsPair p t → get_lines b'&' t ≡ t ∷ []
get_lines-IsPair (pair {name} {value} {n} {v} e f) =
    get_lines-nonempty b'&' n b'=' v (IsPair-Lacks (pair e f))

length-IsPair : {p : Param} {t : List ℕ} → IsPair p t → 0 < length t
length-IsPair (pair {name} {value} {n} {v} e f) = omega (arith, length-append n (b'=' ∷ v))

pub length-IsForm : {p : Param} {ps : List Param} {t : List ℕ} → IsForm (p ∷ ps) t → 0 < length t
length-IsForm (one h) = length-IsPair h
length-IsForm (more {p} {q} {ps} {t} {u} h k) =
    omega (arith, length-IsPair h, length-append t (b'&' ∷ u))

pub parse_query_string-IsForm :
    {ps : List Param} {t : List ℕ} → IsForm ps t → parse_query_string t ≡ ps
unfolding parse_query_string get_lines
parse_query_string-IsForm nothing = refl
parse_query_string-IsForm (one h) =
    ap (map param_of) (get_lines-IsPair h) ∙ ap (λ (p : Param). p ∷ []) (param_of-IsPair h)
parse_query_string-IsForm (more {p} {q} {ps} {t} {u} h k) =
    ap (map param_of) (get_lines-append b'&' t u (IsPair-Lacks h))
    ∙ ap₂ (λ (x : Param) (xs : List Param). x ∷ xs) (param_of-IsPair h)
        (parse_query_string-IsForm k)
