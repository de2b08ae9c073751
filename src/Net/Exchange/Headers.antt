-- ===== src/Net/Exchange/Headers.antt =====
-- Headers that are written as lines are the headers that are read.
use esp32emu.Base.{
  ℕ, ◌<◌, ◌≡◌, refl, sym, ap, ap₂, ◌∙◌, Option, none, List, [], ◌∷◌, ◌++◌, append_assoc, arith,
  length, length-append, take-append, All,
}
use mathlib.Core.List.{map}
use esp32emu.Base.Strings.{get_lines, drop_cr}
use esp32emu.Base.Strings.Search.{Lacks, find_byte-append}
use esp32emu.Net.Web.{Header, header_lines}
use esp32emu.Net.Web.Request.{
  parse_headers, headers_of_lines, headers_of_line, parse_content_length, length_of_lines,
  length_of_line, later,
}
use esp32emu.Net.Web.Query.{drop-append_suc}
use esp32emu.Net.Exchange.{block, joined, IsLine, lines_of-joined}

abbrev pub line_of_header : Header → List ℕ
line_of_header h = h.name ++ 58 ∷ 32 ∷ h.value

-- A name without a colon, and no end of a line in either part.
abbrev pub IsHeader : Header → Type 0
IsHeader h = Lacks 58 h.name × Lacks 13 (line_of_header h) × Lacks 10 (line_of_header h)

length-line_of_header : (h : Header) → 0 < length (line_of_header h)
length-line_of_header h = omega (arith, length-append h.name (58 ∷ 32 ∷ h.value))

pub IsHeader-IsLine : (hs : List Header) → All IsHeader hs → All IsLine (map line_of_header hs)
IsHeader-IsLine [] a = tt
IsHeader-IsLine (h ∷ hs) a = ((length-line_of_header h, a.0.1, a.0.2), IsHeader-IsLine hs a.1)

pub header_lines-block : (hs : List Header) → header_lines hs ≡ block (map line_of_header hs)
unfolding header_lines
header_lines-block [] = refl
header_lines-block (h ∷ hs) =
    ap (λ t. h.name ++ 58 ∷ 32 ∷ (h.value ++ 13 ∷ 10 ∷ t)) (header_lines-block hs)
    ∙ sym (append_assoc h.name (58 ∷ 32 ∷ h.value) (13 ∷ 10 ∷ block (map line_of_header hs)))

-- The readers, on lines whose ends are gone.
pub plain_headers : List (List ℕ) → List Header
plain_headers [] = []
plain_headers (l ∷ ls) = headers_of_line l ++ plain_headers ls

headers_of_lines-map : (ls : List (List ℕ)) → headers_of_lines ls ≡ plain_headers (map drop_cr ls)
unfolding headers_of_lines plain_headers
headers_of_lines-map [] = refl
headers_of_lines-map (l ∷ ls) = ap (λ t. headers_of_line (drop_cr l) ++ t) (headers_of_lines-map ls)

unfoldable pub plain_length : List (List ℕ) → Option ℕ → Option ℕ
plain_length [] v = v
plain_length (l ∷ ls) v = plain_length ls (later (length_of_line l) v)

length_of_lines-map :
    (ls : List (List ℕ)) (v : Option ℕ) → length_of_lines ls v ≡ plain_length (map drop_cr ls) v
unfolding length_of_lines plain_length
length_of_lines-map [] v = refl
length_of_lines-map (l ∷ ls) v = length_of_lines-map ls (later (length_of_line (drop_cr l)) v)

headers_of_line_lem : (h : Header) → Lacks 58 h.name → headers_of_line (line_of_header h) ≡ h ∷ []
unfolding headers_of_line
headers_of_line_lem h lacks =
    rw
      (
        headers_of_line,
        find_byte-append 58 h.name (32 ∷ h.value) lacks,
        drop-append_suc h.name 58 (32 ∷ h.value),
      )
      (ap (λ n. record { name = n; value = h.value } ∷ []) (take-append h.name (58 ∷ 32 ∷ h.value)))

plain_headers-map :
    (hs : List Header) → All IsHeader hs → plain_headers (map line_of_header hs) ≡ hs
unfolding plain_headers
plain_headers-map [] a = refl
plain_headers-map (h ∷ hs) a =
    ap₂ (λ (x y : List Header). x ++ y) (headers_of_line_lem h a.0.0) (plain_headers-map hs a.1)

-- The headers that are read from lines of headers are these headers.
pub parse_headers-joined :
    (h : Header) (hs : List Header)
    → All IsHeader (h ∷ hs)
    → parse_headers (joined (map line_of_header (h ∷ hs))) ≡ h ∷ hs
unfolding parse_headers
parse_headers-joined h hs a =
    headers_of_lines-map (get_lines 10 (joined (map line_of_header (h ∷ hs))))
    ∙ ap plain_headers
        (lines_of-joined (line_of_header h) (map line_of_header hs) (IsHeader-IsLine (h ∷ hs) a))
    ∙ plain_headers-map (h ∷ hs) a

pub parse_content_length-joined :
    (l : List ℕ) (ls : List (List ℕ))
    → All IsLine (l ∷ ls)
    → parse_content_length (joined (l ∷ ls)) ≡ plain_length (l ∷ ls) none
unfolding parse_content_length
parse_content_length-joined l ls a =
    length_of_lines-map (get_lines 10 (joined (l ∷ ls))) none
    ∙ ap (λ t. plain_length t none) (lines_of-joined l ls a)
