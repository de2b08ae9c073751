-- ===== src/Net/Exchange/Answers/Lines.antt =====
-- The response of src/webserver.cpp as lines, and the status that src/httpclient.cpp reads in it.
use esp32emu.Base.{ℕ, ◌≤◌, ◌≡◌, ap, ◌∙◌, some, List, [], ◌∷◌, ◌++◌, append_assoc, arith, length}
use mathlib.Core.List.{map}
use esp32emu.Base.Strings.{codes, find_byte, to_string, starts_with}
use esp32emu.Base.Strings.Numerals.{strtol-to_string, Stops-below}
use esp32emu.Net.Web.{Header, header_lines, line_of_type, crlf, reason, response_text}
use esp32emu.Net.HttpClient.{parse_status}
use esp32emu.Net.Exchange.{block, joined, block-joined}
use esp32emu.Net.Exchange.Headers.{line_of_header}
use esp32emu.Net.Exchange.Requests.Lines.{named}

abbrev pub status_line : ℕ → List ℕ
status_line code = codes "HTTP/1.1 " ++ (to_string code ++ 32 ∷ reason code)

abbrev pub type_headers : List ℕ → List Header
type_headers [] = []
type_headers (c ∷ s) = named (codes "Content-Type") (c ∷ s) ∷ []

abbrev pub last_headers : List ℕ → List ℕ → List Header
last_headers content_type content =
    type_headers content_type
    ++ named (codes "Content-Length") (to_string (length content))
      ∷ named (codes "Connection") (codes "close")
      ∷ []

type_block :
    (content_type n r : List ℕ)
    → line_of_type content_type
        ++ (codes "Content-Length: " ++ (n ++ (crlf ++ (codes "Connection: close" ++ (crlf ++ r)))))
      ≡ block (
          map line_of_header (
            type_headers content_type
            ++ named (codes "Content-Length") n ∷ named (codes "Connection") (codes "close") ∷ []))
        ++ r
type_block [] n r = simp append_assoc
type_block (c ∷ s) n r = simp append_assoc

answer_block :
    (hs : List Header) (content_type content r : List ℕ)
    → header_lines hs
        ++ (line_of_type content_type
            ++ (codes "Content-Length: "
                ++ (to_string (length content)
                    ++ (crlf ++ (codes "Connection: close" ++ (crlf ++ r))))))
      ≡ block (map line_of_header (hs ++ last_headers content_type content)) ++ r
unfolding header_lines
answer_block [] content_type content r = type_block content_type (to_string (length content)) r
answer_block (h ∷ hs) content_type content r = simp append_assoc (
    ap (λ t. h.name ++ 58 ∷ 32 ∷ (h.value ++ 13 ∷ 10 ∷ t)) (answer_block hs content_type content r))

status_block :
    (n w b r : List ℕ)
    → codes "HTTP/1.1 " ++ (n ++ (32 ∷ w ++ (crlf ++ (b ++ r))))
      ≡ ((codes "HTTP/1.1 " ++ (n ++ 32 ∷ w)) ++ 13 ∷ 10 ∷ b) ++ r
status_block n w b r = simp append_assoc

pub response_text-joined :
    (code : ℕ) (hs : List Header) (content_type content : List ℕ)
    → response_text code hs content_type content
      ≡ joined (status_line code ∷ map line_of_header (hs ++ last_headers content_type content))
        ++ 13 ∷ 10 ∷ 13 ∷ 10 ∷ content
unfolding response_text
response_text-joined code hs content_type content =
    let b = block (map line_of_header (hs ++ last_headers content_type content)) in
    let r = 13 ∷ 10 ∷ content in
    ap (λ t. codes "HTTP/1.1 " ++ (to_string code ++ (32 ∷ reason code ++ (crlf ++ t))))
      (answer_block hs content_type content r)
    ∙ status_block (to_string code) (reason code) b r
    ∙ block-joined (status_line code) (map line_of_header (hs ++ last_headers content_type content))
        r

-- The status.
parse_status_lem :
    (code : ℕ) (r : List ℕ)
    → 100 ≤ code
    → code ≤ 599
    → parse_status (codes "HTTP/1.1 " ++ (to_string code ++ 32 ∷ r)) ≡ some code
unfolding parse_status starts_with find_byte
parse_status_lem code r low high =
    rw (parse_status, strtol-to_string code (32 ∷ r) (omega arith) (Stops-below 32 r (omega arith)))
      (ground arith)

pub parse_status-response_text :
    (code : ℕ) (hs : List Header) (content_type content : List ℕ)
    → 100 ≤ code
    → code ≤ 599
    → parse_status (response_text code hs content_type content) ≡ some code
unfolding response_text
parse_status-response_text code hs content_type content low high =
    parse_status_lem code
      (reason code
        ++ (crlf
            ++ (header_lines hs
                ++ (line_of_type content_type
                    ++ (codes "Content-Length: "
                        ++ (to_string (length content)
                            ++ (crlf
                                ++ (codes "Connection: close" ++ (crlf ++ (crlf ++ content))))))))))
      low high
