-- ===== src/Net/Exchange/Requests/Words.antt =====
-- The words of a request line, as src/webserver.cpp scans them.
use esp32emu.Base.{
  ℕ, zero, suc, ◌≤◌, ◌<◌, ◌≡◌, refl, ap, ◌∙◌, ◌≢◌, false, some, List, [], ◌∷◌, ◌++◌, arith, length,
  All, All-append,
}
use esp32emu.Base.Strings.{codes, c_str, is_space, skip_spaces}
use esp32emu.Base.Strings.Search.{Lacks}
use esp32emu.Net.Web.Request.{scan_chars, scan_word, scan_request_line}
use esp32emu.Net.Exchange.Requests.Lines.{start_line}

-- A byte of a word: neither a space nor NUL.
abbrev pub InWord : ℕ → Type 0
InWord c = (is_space c ≡ false) × (c ≢ 0)

abbrev pub IsWord : ℕ → List ℕ → Type 0
IsWord width w = All InWord w × (0 < length w) × (length w ≤ width)

c_str-Lacks : (s : List ℕ) → Lacks 0 s → c_str s ≡ s
unfolding c_str
c_str-Lacks [] h = refl
c_str-Lacks (c ∷ s) h = ground (arith, c_str-Lacks s h.1)

word-Lacks : (w : List ℕ) → All InWord w → Lacks 0 w
word-Lacks [] h = tt
word-Lacks (c ∷ w) h = (h.0.1, word-Lacks w h.1)

scan_chars-append :
    (width : ℕ) (w : List ℕ) (s : List ℕ)
    → All InWord w
    → length w ≤ width
    → scan_chars width (w ++ 32 ∷ s) ≡ (w, 32 ∷ s)
unfolding scan_chars is_space
scan_chars-append zero [] s h k = refl
scan_chars-append (suc width) [] s h k = refl
scan_chars-append zero (c ∷ w) s h k = absurd (omega arith)
scan_chars-append (suc width) (c ∷ w) s h k =
    ground (arith, h.0.0, scan_chars-append width w s h.1 (omega arith))

skip_spaces-word : (w s : List ℕ) → All InWord w → 0 < length w → skip_spaces (w ++ s) ≡ w ++ s
unfolding skip_spaces
skip_spaces-word [] s h k = absurd (omega arith)
skip_spaces-word (c ∷ w) s h k = rw h.0.0

scan_word-append :
    (width : ℕ) (w s : List ℕ) → IsWord width w → scan_word width (w ++ 32 ∷ s) ≡ some (w, 32 ∷ s)
unfolding scan_word
scan_word-append width w s h =
    let e =
      ap (scan_chars width) (skip_spaces-word w (32 ∷ s) h.0 h.1)
      ∙ scan_chars-append width w s h.0 h.2 in
    rw (scan_word, e) (ground arith)

scan_word-space : (width : ℕ) (s : List ℕ) → scan_word width (32 ∷ s) ≡ scan_word width s
unfolding scan_word skip_spaces is_space
scan_word-space width s = refl

-- The request line is read as its method and its path.
pub scan_request_line-start_line :
    (method path : List ℕ)
    → IsWord 15 method
    → IsWord 1023 path
    → scan_request_line (start_line method path) ≡ some (method, path)
unfolding scan_request_line
scan_request_line-start_line method path m p =
    let tail = path ++ codes " HTTP/1.1" in
    let lacks =
      All-append (λ c. c ≢ 0) method (32 ∷ tail) (word-Lacks method m.0)
        (
          omega arith,
          All-append (λ c. c ≢ 0) path (codes " HTTP/1.1") (word-Lacks path p.0) (omega arith),
        ) in
    let first =
      ap (scan_word 15) (c_str-Lacks (start_line method path) lacks)
      ∙ scan_word-append 15 method tail m in
    let second = scan_word-space 1023 tail ∙ scan_word-append 1023 path (codes "HTTP/1.1") p in
    rw (scan_request_line, first, second)
