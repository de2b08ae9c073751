-- ===== src/Net/Exchange/Requests/Announced.antt =====
-- The length that a request announces.
use esp32emu.Base.{
  ℕ, zero, suc, ◌<◌, ◌^◌, ◌≡◌, refl, sym, ap, ◌∙◌, ◌≢◌, inl, inr, Bool, true, false, Option, none,
  some, List, [], ◌∷◌, ◌++◌, append-nil, length, take, take-append, All, str_eq, str_eq_iff,
  Bool-cases, Option-cases,
}
use mathlib.Core.List.{map, map-append}
use esp32emu.Base.Strings.{codes, c_str, find_byte, strtol, to_lower, to_string}
use esp32emu.Base.Strings.Search.{Lacks, find_byte-append}
use esp32emu.Base.Strings.Numerals.{strtol-to_string, strtol-space, Stops-nil}
use esp32emu.Net.Web.{Header}
use esp32emu.Net.Web.Request.{length_of_line, later}
use esp32emu.Net.HttpClient.{payload_bytes}
use esp32emu.Net.Exchange.Headers.{line_of_header, plain_length}
use esp32emu.Net.Exchange.Requests.Lines.{named, payload_headers, content_type}

abbrev content_length : List ℕ
content_length = codes "content-length"

-- Not a header of the name Content-Length, in any letter case.
abbrev pub Unframed : Header → Type 0
Unframed h = Lacks 58 h.name × (map to_lower h.name ≢ content_length)

unframed_test :
    (n : List ℕ) → map to_lower n ≢ content_length → str_eq (map to_lower n) content_length ≡ false
unframed_test n h = elim (Bool-cases (str_eq (map to_lower n) content_length)) [
  | inl e ↦ absurd (h ((str_eq_iff (map to_lower n) content_length).0 e))
  | inr e ↦ e
]

length_of_line-Unframed : (h : Header) → Unframed h → length_of_line (line_of_header h) ≡ none
unfolding length_of_line
length_of_line-Unframed h u =
    let test =
      ap (λ t. str_eq (map to_lower t) content_length) (take-append h.name (58 ∷ 32 ∷ h.value))
      ∙ unframed_test h.name u.1 in
    rw (length_of_line, find_byte-append 58 h.name (32 ∷ h.value) u.0, test)

-- A line that begins with another letter announces no length.
pub length_of_line-cons : (x : ℕ) (s : List ℕ) → to_lower x ≢ 99 → length_of_line (x ∷ s) ≡ none
unfolding length_of_line str_eq
length_of_line-cons x s h = elim (Option-cases (find_byte 58 (x ∷ s))) [
  | inl missing ↦ rw (length_of_line, missing)
  | inr (zero, at) ↦ rw (length_of_line, at)
  | inr (suc k, at) ↦
      let other : map to_lower (take (suc k) (x ∷ s)) ≢ content_length = λ e. h (cc e) in
      rw (length_of_line, at, unframed_test (take (suc k) (x ∷ s)) other)
]

plain_length-append :
    (hs : List Header) (ls : List (List ℕ)) (v : Option ℕ)
    → All Unframed hs
    → plain_length (map line_of_header hs ++ ls) v ≡ plain_length ls v
unfolding plain_length
plain_length-append [] ls v a = refl
plain_length-append (h ∷ hs) ls v a =
    ap (λ o. plain_length (map line_of_header hs ++ ls) (later o v)) (length_of_line-Unframed h a.0)
    ∙ plain_length-append hs ls v a.1

abbrev pub announced : Option (List ℕ) → Option ℕ
announced none = none
announced (some payload) = some (length (c_str payload))

length_of_line-Content_Length :
    (n : ℕ)
    → n < 2 ^ 63
    → length_of_line (line_of_header (named (codes "Content-Length") (to_string n))) ≡ some n
unfolding length_of_line find_byte to_lower str_eq
length_of_line-Content_Length n small =
    let e =
      strtol-space (to_string n)
      ∙ ap (strtol 10) (sym (append-nil (to_string n)))
      ∙ strtol-to_string n [] small Stops-nil in
    ap
      (λ (o : Option (ℕ × List ℕ)). elim o as (λ _. Option ℕ) [
        | none ↦ none
        | some (v, r) ↦ some v
      ])
      e

connection_unframed : (v : Option ℕ) → plain_length (codes "Connection: close" ∷ []) v ≡ v
unfolding plain_length length_of_line find_byte to_lower str_eq
connection_unframed v = refl

content_type_unframed :
    (typed : Bool) (v : Option ℕ)
    → plain_length
        (map line_of_header (content_type typed ++ named (codes "Connection") (codes "close") ∷ []))
        v
      ≡ v
unfolding plain_length length_of_line find_byte to_lower str_eq
content_type_unframed true v = refl
content_type_unframed false v = refl

-- The lines behind a client's own headers announce the length of the payload.
pub plain_length-payload :
    (payload : Option (List ℕ)) (typed : Bool)
    → length (payload_bytes payload) < 2 ^ 63
    → plain_length
        (map line_of_header
          (payload_headers payload typed ++ named (codes "Connection") (codes "close") ∷ []))
        none
      ≡ announced payload
unfolding plain_length
plain_length-payload none typed small = content_type_unframed true none
plain_length-payload (some payload) typed small =
    ap
      (λ o.
        plain_length
          (map line_of_header
            (content_type typed ++ named (codes "Connection") (codes "close") ∷ []))
          (later o none))
      (length_of_line-Content_Length (length (c_str payload)) small)
    ∙ content_type_unframed typed (some (length (c_str payload)))

-- So do all lines of a request, when none of the client's own headers is Content-Length.
pub plain_length-request :
    (x : ℕ) (s : List ℕ) (hs : List Header) (payload : Option (List ℕ)) (typed : Bool)
    → to_lower x ≢ 99
    → All Unframed hs
    → length (payload_bytes payload) < 2 ^ 63
    → plain_length
        ((x ∷ s)
          ∷ map line_of_header (
              hs
              ++ (payload_headers payload typed
                  ++ named (codes "Connection") (codes "close") ∷ [])))
        none
      ≡ announced payload
unfolding plain_length
plain_length-request x s hs payload typed other a small =
    let tail = payload_headers payload typed ++ named (codes "Connection") (codes "close") ∷ [] in
    ap (λ o. plain_length (map line_of_header (hs ++ tail)) (later o none))
      (length_of_line-cons x s other)
    ∙ ap (λ ls. plain_length ls none) (map-append line_of_header hs tail)
    ∙ plain_length-append hs (map line_of_header tail) none a
    ∙ plain_length-payload payload typed small
