-- ===== src/Net/Exchange/Requests/Reading.antt =====
-- What the server of src/webserver.cpp makes of a request in lines.
use esp32emu.Base.{
  ℕ, ◌+◌, ◌-◌, ◌≤◌, ◌<◌, ◌≡◌, refl, ap, ap₂, ◌∙◌, ◌⊎◌, inl, inr, Bool, true, false, Option, none,
  some, List, [], ◌∷◌, ◌++◌, append_assoc, arith, length, length-append, take, drop, take-append,
  take_of_length-le, All, if◌then◌else◌, ltb, leb, min, Option-cases, lt→ltb,
}
use mathlib.Core.List.{map}
use esp32emu.Base.Strings.{find_byte, find_str}
use esp32emu.Base.Strings.Search.{Lacks, find_str-crlf, drop-add_append}
use esp32emu.Net.Web.{WebServer, Header, parse_method}
use esp32emu.Net.Web.Request.{
  Received, scan_request_line, set_uri, set_headers, body_of, set_form, set_request, dispatch,
  answer, answer_line, request_line_of, leave, parse_headers,
}
use esp32emu.Net.Exchange.{joined, joined-head}
use esp32emu.Net.Exchange.Headers.{line_of_header, IsHeader, IsHeader-IsLine, parse_headers-joined}
use esp32emu.Net.Exchange.Requests.Lines.{start_line}
use esp32emu.Net.Exchange.Requests.Words.{IsWord, scan_request_line-start_line}

abbrev pub ending : List ℕ → List ℕ
ending body = 13 ∷ 10 ∷ 13 ∷ 10 ∷ body

-- The announced length is that of the body, or there is none.
abbrev pub Framed : Option ℕ → List ℕ → Type 0
Framed o body = (o ≡ none) ⊎ (o ≡ some (length body))

avail_lem :
    (o : Option ℕ) (body : List ℕ) (remaining : ℕ)
    → Framed o body
    → remaining ≡ length body
    → length body ≤ 16777216
    → min (elim o as (λ _. ℕ) [ none ↦ remaining | some n ↦ min n remaining ]) 16777216
      ≡ length body
avail_lem none body remaining f e small = omega arith
avail_lem (some n) body remaining (inl f) e small = cc
avail_lem (some n) body remaining (inr f) e small = let m : n ≡ length body = cc in omega arith

body_cases :
    (body : List ℕ) (b : Bool)
    → (0 < length body → b ≡ true)
    → (if b then take (length body) body else []) ≡ body
body_cases [] true h = refl
body_cases [] false h = refl
body_cases (x ∷ body) b h =
    rw (h (omega arith)) (take_of_length-le (length (x ∷ body)) (x ∷ body) (omega arith))

module _ (start : List ℕ) (lacks : Lacks 13 start) (l : List ℕ) (ls : List (List ℕ))
    (body : List ℕ) where
  abbrev pub message : List ℕ
  message = joined (start ∷ l ∷ ls) ++ ending body

  abbrev pub received : Option ℕ → Received
  received n = record {
    req = message;
    header_end = some (length (joined (start ∷ l ∷ ls)));
    content_length = n;
  }

  message_assoc : message ≡ start ++ 13 ∷ 10 ∷ (joined (l ∷ ls) ++ ending body)
  message_assoc = append_assoc start (13 ∷ 10 ∷ joined (l ∷ ls)) (ending body)

  pub line_end : find_str (13 ∷ 10 ∷ []) message ≡ some (length start)
  line_end =
      ap (find_str (13 ∷ 10 ∷ [])) message_assoc
      ∙ find_str-crlf start (joined (l ∷ ls) ++ ending body) lacks

  pub take_line : take (length start) message ≡ start
  take_line =
      ap (take (length start)) message_assoc
      ∙ take-append start (13 ∷ 10 ∷ (joined (l ∷ ls) ++ ending body))

  follows : drop (length start + 2) message ≡ joined (l ∷ ls) ++ ending body
  follows =
      ap (drop (length start + 2)) message_assoc
      ∙ drop-add_append start 2 (13 ∷ 10 ∷ (joined (l ∷ ls) ++ ending body))

  long : length (joined (start ∷ l ∷ ls)) ≡ length start + 2 + length (joined (l ∷ ls))
  long = omega (arith, length-append start (13 ∷ 10 ∷ joined (l ∷ ls)))

  set_headers_lem :
      (n : Option ℕ) (s : WebServer)
      → 0 < length (joined (l ∷ ls))
      → set_headers (received n) s
        ≡ record s { current_headers = s.current_headers ++ parse_headers (joined (l ∷ ls)) }
  unfolding set_headers
  set_headers_lem n s pos =
      let k = length (joined (l ∷ ls)) in
      let within : ltb (length start + 2) (length (joined (start ∷ l ∷ ls))) ≡ true =
        lt→ltb _ _ (omega (arith, long)) in
      let between : length (joined (start ∷ l ∷ ls)) - (length start + 2) ≡ k =
        omega (arith, long) in
      let raw =
        ap₂ (λ (m : ℕ) (t : List ℕ). take m t) between follows
        ∙ take-append (joined (l ∷ ls)) (ending body) in
      rw (set_headers, line_end, within)
        (ap (λ t. record s { current_headers = s.current_headers ++ parse_headers t }) raw)

  body_of_lem :
      (n : Option ℕ) → Framed n body → length body ≤ 16777216 → body_of (received n) ≡ body
  unfolding body_of
  body_of_lem n f small =
      let e = length (joined (start ∷ l ∷ ls)) in
      let total = length-append (joined (start ∷ l ∷ ls)) (ending body) in
      let avail = avail_lem n body (length message - (e + 4)) f (omega (arith, total)) small in
      let rest = drop-add_append (joined (start ∷ l ∷ ls)) 4 (ending body) in
      ap₂ (λ (m : ℕ) (t : List ℕ). if ltb (e + 4) (length message) then take m t else []) avail rest
      ∙ body_cases body (ltb (e + 4) (length message)) (λ pos. lt→ltb _ _ (omega (arith, total)))

set_uri-headers :
    (path : List ℕ) (s : WebServer) → (set_uri path s).current_headers ≡ s.current_headers
unfolding set_uri
set_uri-headers path s = elim (Option-cases (find_byte b'?' path)) [
  | inl missing ↦ rw (set_uri, missing)
  | inr (q, at) ↦ rw (set_uri, at)
]

-- The server's state when a client is served: nothing is left of the request before.
abbrev pub opened : WebServer → WebServer
opened s = record s {
  client = true;
  current_params = [];
  current_headers = [];
  response_headers = [];
  current_body = [];
}

-- The state that a handler finds.
abbrev pub asked : List ℕ → List ℕ → List Header → List ℕ → WebServer → WebServer
asked method path hs body s =
    set_form (record (set_uri path (record (opened s) { current_method = parse_method method })) {
      current_headers = hs;
      current_body = body;
    })

answer_line_lem :
    (run : ℕ → WebServer → WebServer) (line method path : List ℕ) (r : Received) (s : WebServer)
    → length line < 2048
    → scan_request_line line ≡ some (method, path)
    → answer_line run line r s ≡ leave run (dispatch run (set_request method path r s))
unfolding answer_line
answer_line_lem run line method path r s h e =
    let b : leb 2048 (length line) ≡ false = ground arith in rw (answer_line, b, e)

-- The parsers of both sides agree about the announced length.
module _ (method path : List ℕ) (m : IsWord 15 method) (p : IsWord 1023 path) (h : Header)
    (hs : List Header) (hok : All IsHeader (h ∷ hs)) (body : List ℕ)
    (lacks : Lacks 13 (start_line method path)) where
  abbrev pub start : List ℕ
  start = start_line method path

  set_request_lem :
      (n : Option ℕ) (s : WebServer)
      → Framed n body
      → length body ≤ 16777216
      → set_request method path
          (received start lacks (line_of_header h) (map line_of_header hs) body n)
          (opened s)
        ≡ asked method path (h ∷ hs) body s
  unfolding set_request
  set_request_lem n s f small =
      let before : WebServer =
        set_uri path (record (opened s) { current_method = parse_method method }) in
      let lines = IsHeader-IsLine (h ∷ hs) hok in
      let (x, t, ne, nonempty) = joined-head (line_of_header h) (map line_of_header hs) lines.0 in
      let headers : before.current_headers ++ parse_headers (joined (map line_of_header (h ∷ hs)))
          ≡ h ∷ hs =
        ap₂ (λ (a b : List Header). a ++ b)
          (set_uri-headers path (record (opened s) { current_method = parse_method method }))
          (parse_headers-joined h hs hok) in
      ap₂ (λ (t : WebServer) (b : List ℕ). set_form (record t { current_body = b }))
        (set_headers_lem start lacks (line_of_header h) (map line_of_header hs) body n before
            (omega (arith, ap length nonempty))
          ∙ ap (λ a. record before { current_headers = a }) headers)
        (body_of_lem start lacks (line_of_header h) (map line_of_header hs) body n f small)

  request_line_lem :
      (n : Option ℕ)
      → request_line_of (received start lacks (line_of_header h) (map line_of_header hs) body n)
        ≡ start
  unfolding request_line_of
  request_line_lem n =
      rw (request_line_of, line_end start lacks (line_of_header h) (map line_of_header hs) body)
        (take_line start lacks (line_of_header h) (map line_of_header hs) body)

  pub answer_lem :
      (run : ℕ → WebServer → WebServer) (n : Option ℕ) (s : WebServer)
      → Framed n body
      → length body ≤ 16777216
      → length start < 2048
      → answer run
          (received start lacks (line_of_header h) (map line_of_header hs) body n)
          (opened s)
        ≡ leave run (dispatch run (asked method path (h ∷ hs) body s))
  unfolding answer
  answer_lem run n s f small short =
      let r = received start lacks (line_of_header h) (map line_of_header hs) body n in
      ap (λ t. answer_line run t r (opened s)) (request_line_lem n)
      ∙ answer_line_lem run start method path r (opened s) short
          (scan_request_line-start_line method path m p)
      ∙ ap (λ t. leave run (dispatch run t)) (set_request_lem n s f small)
