-- ===== src/Net/Exchange/Answers/Read.antt =====
-- A response of src/webserver.cpp as src/httpclient.cpp reads it.
use esp32emu.Base.{
  ℕ, zero, suc, ◌≤◌, ◌<◌, ◌≡◌, refl, ap, ap₂, ◌∙◌, ◌≢◌, inl, inr, Bool, true, false, some, List, [],
  ◌∷◌, ◌++◌, ◌||◌, arith, length, take, take-append, take_of_length-le, All, All-append,
  if◌then◌else◌, str_eq, str_eq_iff, Bool-cases, Option-cases,
}
use mathlib.Core.List.{map}
use esp32emu.Base.Strings.{codes, c_str, find_byte, get_lines, drop_cr, to_lower, to_string}
use esp32emu.Base.Strings.Search.{Lacks, find_byte-append, drop-add_append}
use esp32emu.Base.Strings.Numerals.{to_string-Lacks}
use esp32emu.Net.Socket.{capacity, send_all, send_all_lem}
use esp32emu.Net.Web.{WebServer, Header, reason, response, response_text, send}
use esp32emu.Net.HttpClient.{
  parse_status, parse_body, response_is_chunked, any_chunked, line_is_chunked, to_lower_copy,
}
use esp32emu.Net.Exchange.{joined, IsLine, find_str-joined, lines_of-joined}
use esp32emu.Net.Exchange.Headers.{line_of_header, IsHeader, IsHeader-IsLine}
use esp32emu.Net.Exchange.Requests.Lines.{named}
use esp32emu.Net.Exchange.Answers.Lines.{
  status_line, type_headers, last_headers, response_text-joined, parse_status-response_text,
}

abbrev transfer_encoding : List ℕ
transfer_encoding = codes "transfer-encoding"

-- Not a header of the name Transfer-Encoding, in any letter case.
abbrev pub Unchunked : Header → Type 0
Unchunked h = Lacks 58 h.name × (map to_lower h.name ≢ transfer_encoding)

not_encoding :
    (n : List ℕ)
    → map to_lower n ≢ transfer_encoding
    → str_eq (to_lower_copy n) transfer_encoding ≡ false
unfolding to_lower_copy
not_encoding n h = elim (Bool-cases (str_eq (map to_lower n) transfer_encoding)) [
  | inl e ↦ absurd (h ((str_eq_iff (map to_lower n) transfer_encoding).0 e))
  | inr e ↦ e
]

line_is_chunked-Unchunked : (h : Header) → Unchunked h → line_is_chunked (line_of_header h) ≡ false
unfolding line_is_chunked
line_is_chunked-Unchunked h u =
    let test =
      ap (λ t. str_eq (to_lower_copy t) transfer_encoding) (take-append h.name (58 ∷ 32 ∷ h.value))
      ∙ not_encoding h.name u.1 in
    rw (line_is_chunked, find_byte-append 58 h.name (32 ∷ h.value) u.0, test)

line_is_chunked-cons : (x : ℕ) (s : List ℕ) → to_lower x ≢ 116 → line_is_chunked (x ∷ s) ≡ false
unfolding line_is_chunked to_lower_copy str_eq
line_is_chunked-cons x s h = elim (Option-cases (find_byte 58 (x ∷ s))) [
  | inl missing ↦ rw (line_is_chunked, missing)
  | inr (zero, at) ↦ rw (line_is_chunked, at)
  | inr (suc k, at) ↦
      let other : map to_lower (take (suc k) (x ∷ s)) ≢ transfer_encoding = λ e. h (cc e) in
      rw (line_is_chunked, at, not_encoding (take (suc k) (x ∷ s)) other)
]

plain_chunked : List (List ℕ) → Bool
plain_chunked [] = false
plain_chunked (l ∷ ls) = line_is_chunked l || plain_chunked ls

any_chunked-map : (ls : List (List ℕ)) → any_chunked ls ≡ plain_chunked (map drop_cr ls)
unfolding any_chunked plain_chunked
any_chunked-map [] = refl
any_chunked-map (l ∷ ls) = ap (λ b. line_is_chunked (drop_cr l) || b) (any_chunked-map ls)

plain_chunked-map :
    (hs : List Header) → All Unchunked hs → plain_chunked (map line_of_header hs) ≡ false
unfolding plain_chunked
plain_chunked-map [] a = refl
plain_chunked-map (h ∷ hs) a =
    ap₂ (λ (x y : Bool). x || y) (line_is_chunked-Unchunked h a.0) (plain_chunked-map hs a.1)

response_is_chunked-joined :
    (x : ℕ) (s : List ℕ) (hs : List Header)
    → to_lower x ≢ 116
    → All Unchunked hs
    → All IsLine ((x ∷ s) ∷ map line_of_header hs)
    → response_is_chunked (joined ((x ∷ s) ∷ map line_of_header hs)) ≡ false
unfolding response_is_chunked plain_chunked
response_is_chunked-joined x s hs other a lines =
    any_chunked-map (get_lines 10 (joined ((x ∷ s) ∷ map line_of_header hs)))
    ∙ ap plain_chunked (lines_of-joined (x ∷ s) (map line_of_header hs) lines)
    ∙ ap₂ (λ (b c : Bool). b || c) (line_is_chunked-cons x s other) (plain_chunked-map hs a)

parse_body-joined :
    (x : ℕ) (s : List ℕ) (hs : List Header) (content : List ℕ)
    → to_lower x ≢ 116
    → All Unchunked hs
    → All IsLine ((x ∷ s) ∷ map line_of_header hs)
    → parse_body (joined ((x ∷ s) ∷ map line_of_header hs) ++ 13 ∷ 10 ∷ 13 ∷ 10 ∷ content) ≡ content
unfolding parse_body
parse_body-joined x s hs content other a lines =
    let head = joined ((x ∷ s) ∷ map line_of_header hs) in
    let rest = 13 ∷ 10 ∷ 13 ∷ 10 ∷ content in
    let plain =
      ap response_is_chunked (take-append head rest)
      ∙ response_is_chunked-joined x s hs other a lines in
    rw (parse_body, find_str-joined (x ∷ s) (map line_of_header hs) content lines, plain)
      (drop-add_append head 4 rest)

reason-Lacks : (c code : ℕ) → c < 32 → Lacks c (reason code)
unfolding reason
reason-Lacks c code h = ground arith

last_headers-IsHeader :
    (content_type content : List ℕ)
    → Lacks 13 content_type
    → Lacks 10 content_type
    → All IsHeader (last_headers content_type content)
last_headers-IsHeader content_type content r f =
    let n = length content in
    let number : IsHeader (named (codes "Content-Length") (to_string n)) = (
      omega arith,
      All-append (λ x. x ≢ 13) (codes "Content-Length: ") (to_string n) (omega arith)
          (to_string-Lacks 13 n (inl (omega arith))),
      All-append (λ x. x ≢ 10) (codes "Content-Length: ") (to_string n) (omega arith)
          (to_string-Lacks 10 n (inl (omega arith))),
    ) in
    All-append IsHeader (type_headers content_type) _ (typed content_type r f)
      (number, (omega arith, tt))
  where
    typed : (t : List ℕ) → Lacks 13 t → Lacks 10 t → All IsHeader (type_headers t)
    typed [] r f = tt
    typed (c ∷ s) r f = (
      (
        omega arith,
        All-append (λ x. x ≢ 13) (codes "Content-Type: ") (c ∷ s) (omega arith) r,
        All-append (λ x. x ≢ 10) (codes "Content-Type: ") (c ∷ s) (omega arith) f,
      ),
      tt,
    )

last_headers-Unchunked :
    (content_type content : List ℕ) → All Unchunked (last_headers content_type content)
unfolding to_lower
last_headers-Unchunked content_type content =
    All-append Unchunked (type_headers content_type) _ (typed content_type)
      ((omega arith, λ e. ground arith), ((omega arith, λ e. ground arith), tt))
  where
    typed : (t : List ℕ) → All Unchunked (type_headers t)
    typed [] = tt
    typed (c ∷ s) = ((omega arith, λ e. ground arith), tt)

status_line-IsLine : (code : ℕ) → IsLine (status_line code)
status_line-IsLine code = (
  omega arith,
  lacks 13 (omega arith) (omega arith) (omega arith),
  lacks 10 (omega arith) (omega arith) (omega arith),
)
  where
    lacks : (c : ℕ) → c < 32 → Lacks c (codes "HTTP/1.1 ") → 32 ≢ c → Lacks c (status_line code)
    lacks c h p q =
        All-append (λ x. x ≢ c) (codes "HTTP/1.1 ") (to_string code ++ 32 ∷ reason code) p
          (All-append (λ x. x ≢ c) (to_string code) (32 ∷ reason code)
            (to_string-Lacks c code (inl (omega arith))) (q, reason-Lacks c code h))

-- The response to a call of `send`.
response_read :
    (code : ℕ) (hs : List Header) (content_type content : List ℕ)
    → 100 ≤ code
    → code ≤ 599
    → All IsHeader hs
    → All Unchunked hs
    → Lacks 13 content_type
    → Lacks 10 content_type
    → (parse_status (response_text code hs content_type content) ≡ some code)
      × (parse_body (response_text code hs content_type content) ≡ content)
unfolding to_lower
response_read code hs content_type content low high a u r f =
    let sent = hs ++ last_headers content_type content in
    let e = response_text-joined code hs content_type content in
    let headers =
      All-append IsHeader hs (last_headers content_type content) a
        (last_headers-IsHeader content_type content r f) in
    let unchunked =
      All-append Unchunked hs (last_headers content_type content) u
        (last_headers-Unchunked content_type content) in
    (
      parse_status-response_text code hs content_type content low high,
      ap parse_body e
          ∙ parse_body-joined 72 (codes "TTP/1.1 " ++ (to_string code ++ 32 ∷ reason code)) sent
              content (omega arith) unchunked
              (status_line-IsLine code, IsHeader-IsLine sent headers),
    )

-- `send` puts its response on the wire when the calls of the system take all of it.
send-wire :
    (code : ℕ) (content_type content : List ℕ) (s : WebServer)
    → s.client ≡ true
    → length (response code s.response_headers content_type content) ≤ capacity s.socket
    → (send code content_type content s).wire
      ≡ s.wire ++ response code s.response_headers content_type content
unfolding send
send-wire code content_type content s connected room =
    let answer = response code s.response_headers content_type content in
    let sent = send_all_lem s.socket answer ∙ take_of_length-le (capacity s.socket) answer room in
    let after : WebServer = record s {
      wire = s.wire ++ (send_all s.socket answer).0;
      socket = (send_all s.socket answer).1;
      response_headers = [];
    } in
    ap (λ (b : Bool). (if◌then◌else◌ {A = WebServer} b after s).wire) connected
    ∙ ap (λ t. s.wire ++ t) sent

-- A client that reads what a server with a fresh connection sends has the server's status code, between 100 and
-- 599, and its content up to the first byte 0, where the C string that the server sends ends. The server's own
-- headers are lines, none of which is Transfer-Encoding, its type of content is a line or empty, and the calls of
-- the system take the whole response, in pieces of any size.
pub response_read_back :
    (code : ℕ) (content_type content : List ℕ) (s : WebServer)
    → 100 ≤ code
    → code ≤ 599
    → All IsHeader s.response_headers
    → All Unchunked s.response_headers
    → Lacks 13 (c_str content_type)
    → Lacks 10 (c_str content_type)
    → s.client ≡ true
    → s.wire ≡ []
    → length (response code s.response_headers content_type content) ≤ capacity s.socket
    → (parse_status (send code content_type content s).wire ≡ some code)
      × (parse_body (send code content_type content s).wire ≡ c_str content)
unfolding response
response_read_back code content_type content s low high a u r f connected fresh room =
    let (status, body) =
      response_read code s.response_headers (c_str content_type) (c_str content) low high a u r f in
    let wire =
      send-wire code content_type content s connected room
      ∙ ap (λ t. t ++ response code s.response_headers content_type content) fresh in
    (ap parse_status wire ∙ status, ap parse_body wire ∙ body)
