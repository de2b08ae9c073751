-- ===== src/Net/Exchange.antt =====
-- A client (src/httpclient.cpp) and a server (src/webserver.cpp) speak to one another: lines of a header
-- that end in `\r\n`, and the empty line behind them.
pub mod Headers
pub mod Requests
pub mod Answers
mod Tests
use esp32emu.Base.{
  ℕ, zero, suc, ◌+◌, ◌<◌, ◌≡◌, refl, sym, ap, ap₂, ◌∙◌, ◌≢◌, Bool, true, false, Option, none, some,
  List, [], ◌∷◌, ◌++◌, append_assoc, arith, length, length-append, take, take-append, All,
  All-append, if◌then◌else◌, ◌==◌,
}
use mathlib.Core.Path.{subst}
use mathlib.Core.Option
use mathlib.Core.List.{map}
use esp32emu.Base.Strings.{find_str, starts_with, get_lines, drop_cr}
use esp32emu.Base.Strings.Search.{
  Lacks, find_str-append, get_lines-append, get_lines-single, drop_cr-append, drop_cr-Lacks,
}

-- The lines of a header, each with its end; and without the last end.
abbrev pub block : List (List ℕ) → List ℕ
block [] = []
block (l ∷ ls) = l ++ 13 ∷ 10 ∷ block ls

abbrev pub joined : List (List ℕ) → List ℕ
joined [] = []
joined (l ∷ []) = l
joined (l ∷ m ∷ ls) = l ++ 13 ∷ 10 ∷ joined (m ∷ ls)

-- A line is not empty and holds no end of a line.
abbrev pub IsLine : List ℕ → Type 0
IsLine l = (0 < length l) × Lacks 13 l × Lacks 10 l

pub block-joined :
    (l : List ℕ) (ls : List (List ℕ)) (rest : List ℕ)
    → block (l ∷ ls) ++ rest ≡ joined (l ∷ ls) ++ 13 ∷ 10 ∷ rest
block-joined l [] rest = append_assoc l (13 ∷ 10 ∷ []) rest
block-joined l (m ∷ ls) rest =
    append_assoc l (13 ∷ 10 ∷ block (m ∷ ls)) rest
    ∙ ap (λ t. l ++ 13 ∷ 10 ∷ t) (block-joined m ls rest)
    ∙ sym (append_assoc l (13 ∷ 10 ∷ joined (m ∷ ls)) (13 ∷ 10 ∷ rest))

map-some : (k : ℕ) (o : Option ℕ) {n : ℕ} → o ≡ some n → Option.map (λ m. k + m) o ≡ some (k + n)
map-some k o h = ap (Option.map (λ m. k + m)) h

-- An end of a line with a further line behind it is not the end of the header.
find_str-next :
    (x : ℕ) (t : List ℕ) {n : ℕ}
    → x ≢ 13
    → find_str (13 ∷ 10 ∷ 13 ∷ 10 ∷ []) (x ∷ t) ≡ some n
    → find_str (13 ∷ 10 ∷ 13 ∷ 10 ∷ []) (13 ∷ 10 ∷ x ∷ t) ≡ some (2 + n)
unfolding find_str starts_with
find_str-next x t ne h = ground (arith, h)

pub joined-head :
    (m : List ℕ) (ls : List (List ℕ))
    → IsLine m
    → (x : ℕ) × (t : List ℕ) × (x ≢ 13) × (joined (m ∷ ls) ≡ x ∷ t)
joined-head [] ls h = absurd (omega (arith, h.0))
joined-head (x ∷ m) [] h = (x, m, h.1.0, refl)
joined-head (x ∷ m) (n ∷ ls) h = (x, m ++ 13 ∷ 10 ∷ joined (n ∷ ls), h.1.0, refl)

pub find_str-joined :
    (l : List ℕ) (ls : List (List ℕ)) (body : List ℕ)
    → All IsLine (l ∷ ls)
    → find_str (13 ∷ 10 ∷ 13 ∷ 10 ∷ []) (joined (l ∷ ls) ++ 13 ∷ 10 ∷ 13 ∷ 10 ∷ body)
      ≡ some (length (joined (l ∷ ls)))
unfolding find_str starts_with
find_str-joined l [] body h =
    let e : length l + 0 ≡ length l = omega arith in
    find_str-append 13 (10 ∷ 13 ∷ 10 ∷ []) l (13 ∷ 10 ∷ 13 ∷ 10 ∷ body) h.0.1 ∙ ap some e
find_str-joined l (m ∷ ls) body h =
    let ih = find_str-joined m ls body h.1 in
    let (x, t, ne, e) = joined-head m ls h.1.0 in
    let rest = 13 ∷ 10 ∷ 13 ∷ 10 ∷ body in
    let next = find_str-next x (t ++ rest) ne (
      subst (λ j. find_str (13 ∷ 10 ∷ 13 ∷ 10 ∷ []) (j ++ rest) ≡ some (length (joined (m ∷ ls)))) e
        ih) in
    let long : length l + (2 + length (joined (m ∷ ls))) ≡ length (joined (l ∷ m ∷ ls)) =
      omega (arith, length-append l (13 ∷ 10 ∷ joined (m ∷ ls))) in
    ap (find_str (13 ∷ 10 ∷ 13 ∷ 10 ∷ []))
      (append_assoc l (13 ∷ 10 ∷ joined (m ∷ ls)) rest ∙ ap (λ j. l ++ 13 ∷ 10 ∷ (j ++ rest)) e)
    ∙ find_str-append 13 (10 ∷ 13 ∷ 10 ∷ []) l (13 ∷ 10 ∷ x ∷ (t ++ rest)) h.0.1
    ∙ map-some (length l) _ next
    ∙ ap some long

-- The lines as the parsers of both sides read them.
pub lines_of-joined :
    (l : List ℕ) (ls : List (List ℕ))
    → All IsLine (l ∷ ls)
    → map drop_cr (get_lines 10 (joined (l ∷ ls))) ≡ l ∷ ls
lines_of-joined [] [] h = absurd (omega (arith, h.0.0))
lines_of-joined (x ∷ l) [] h =
    ap (map drop_cr) (get_lines-single 10 x l h.0.2)
    ∙ ap (λ t. t ∷ []) (drop_cr-Lacks (x ∷ l) h.0.1)
lines_of-joined l (m ∷ ls) h =
    let rest = 10 ∷ joined (m ∷ ls) in
    let lacks = All-append (λ x. x ≢ 10) l (13 ∷ []) h.0.2 (omega arith, tt) in
    ap (λ t. map drop_cr (get_lines 10 t)) (sym (append_assoc l (13 ∷ []) rest))
    ∙ ap (map drop_cr) (get_lines-append 10 (l ++ 13 ∷ []) (joined (m ∷ ls)) lacks)
    ∙ ap₂ ◌∷◌ (drop_cr-append l) (lines_of-joined m ls h.1)
