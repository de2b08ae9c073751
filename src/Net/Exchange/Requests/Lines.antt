-- ===== src/Net/Exchange/Requests/Lines.antt =====
-- The request of src/httpclient.cpp as lines: the request line, the headers, and the payload.
use esp32emu.Base.{
  ℕ, ◌≡◌, refl, ap, ◌∙◌, Bool, true, false, Option, none, some, List, [], ◌∷◌, ◌++◌, append_assoc,
  length, if◌then◌else◌,
}
use mathlib.Core.List.{map}
use esp32emu.Base.Strings.{codes, c_str, to_string}
use esp32emu.Net.Web.{Header, header_lines, crlf}
use esp32emu.Net.HttpClient.{HttpClient, request, payload_lines, payload_bytes, has_header}
use esp32emu.Net.Exchange.{block, joined, block-joined}
use esp32emu.Net.Exchange.Headers.{line_of_header}

abbrev pub start_line : List ℕ → List ℕ → List ℕ
start_line method path = method ++ (32 ∷ path ++ codes " HTTP/1.1")

abbrev pub named : List ℕ → List ℕ → Header
named n v = record { name = n; value = v }

abbrev pub content_type : Bool → List Header
content_type true = []
content_type false = named (codes "Content-Type") (codes "application/x-www-form-urlencoded") ∷ []

abbrev pub payload_headers : Option (List ℕ) → Bool → List Header
payload_headers none typed = []
payload_headers (some payload) typed =
    named (codes "Content-Length") (to_string (length (c_str payload))) ∷ content_type typed

abbrev connection : Header
connection = named (codes "Connection") (codes "close")

-- All headers that the client sends: the host, its own, those of the payload and of the connection.
abbrev pub further_headers : Option (List ℕ) → HttpClient → List Header
further_headers payload c =
    c.headers
    ++ (payload_headers payload (has_header (codes "Content-Type") c.headers) ++ connection ∷ [])

abbrev pub sent_headers : Option (List ℕ) → HttpClient → List Header
sent_headers payload c = named (codes "Host") c.host ∷ further_headers payload c

payload_block :
    (payload : Option (List ℕ)) (hs : List Header) (r : List ℕ)
    → payload_lines payload hs ++ (codes "Connection: close" ++ (crlf ++ r))
      ≡ block (
          map line_of_header
            (payload_headers payload (has_header (codes "Content-Type") hs) ++ connection ∷ []))
        ++ r
unfolding payload_lines
payload_block none hs r = refl
payload_block (some payload) hs r =
    content_block (to_string (length (c_str payload))) (has_header (codes "Content-Type") hs)
  where
    content_block :
        (n : List ℕ) (typed : Bool)
        → (codes "Content-Length: "
              ++ (n
                  ++ (crlf
                      ++ (if typed
                          then []
                          else codes "Content-Type: application/x-www-form-urlencoded" ++ crlf))))
            ++ (codes "Connection: close" ++ (crlf ++ r))
          ≡ block (
              map line_of_header
                ((named (codes "Content-Length") n ∷ content_type typed) ++ connection ∷ []))
            ++ r
    content_block n true = simp append_assoc
    content_block n false = simp append_assoc

headers_block :
    (gs : List Header) (payload : Option (List ℕ)) (hs : List Header) (r : List ℕ)
    → header_lines gs ++ (payload_lines payload hs ++ (codes "Connection: close" ++ (crlf ++ r)))
      ≡ block (
          map line_of_header (
            gs
            ++ (payload_headers payload (has_header (codes "Content-Type") hs) ++ connection ∷ [])))
        ++ r
unfolding header_lines
headers_block [] payload hs r = payload_block payload hs r
headers_block (g ∷ gs) payload hs r =
    simp append_assoc
      (ap (λ t. g.name ++ 58 ∷ 32 ∷ (g.value ++ 13 ∷ 10 ∷ t)) (headers_block gs payload hs r))

start_block :
    (method path host b r : List ℕ)
    → method
        ++ (32 ∷ path
            ++ (codes " HTTP/1.1" ++ (crlf ++ (codes "Host: " ++ (host ++ (crlf ++ (b ++ r)))))))
      ≡ (start_line method path ++ 13 ∷ 10 ∷ ((codes "Host" ++ 58 ∷ 32 ∷ host) ++ 13 ∷ 10 ∷ b)) ++ r
start_block method path host b r = simp append_assoc

pub request-joined :
    (method : List ℕ) (payload : Option (List ℕ)) (c : HttpClient)
    → request method payload c
      ≡ joined (start_line method c.path ∷ map line_of_header (sent_headers payload c))
        ++ 13 ∷ 10 ∷ 13 ∷ 10 ∷ payload_bytes payload
unfolding request
request-joined method payload c =
    let r = 13 ∷ 10 ∷ payload_bytes payload in
    let hs =
      c.headers
      ++ (payload_headers payload (has_header (codes "Content-Type") c.headers)
          ++ connection ∷ []) in
    ap
      (λ t.
        method
        ++ (32 ∷ c.path
            ++ (codes " HTTP/1.1" ++ (crlf ++ (codes "Host: " ++ (c.host ++ (crlf ++ t)))))))
      (headers_block c.headers payload c.headers r)
    ∙ start_block method c.path c.host (block (map line_of_header hs)) r
    ∙ block-joined (start_line method c.path) (map line_of_header (sent_headers payload c)) r
