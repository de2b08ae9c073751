-- ===== src/Net/Web/Request.antt =====
-- src/webserver.cpp: the parsing of a request, `processClient`. The chunks are what the calls of `recv`
-- return, each of 1 to 8192 bytes; when they are used up the call fails or the peer has closed.
use esp32emu.Base.{
  ℕ, zero, suc, ◌+◌, ◌-◌, min, Bool, true, false, ◌&&◌, ◌||◌, Option, none, some, List, [], ◌∷◌,
  ◌++◌, ltb, leb, ◌==◌, if◌then◌else◌, length, take, drop, str_eq,
}
use mathlib.Core.List.{map}
use esp32emu.Base.Strings.{
  codes, find_byte, c_str, is_some, find_str, get_lines, drop_cr, to_lower, strtol, skip_spaces,
  is_space,
}
use esp32emu.Net.Url.{url_decode}
use esp32emu.Net.Web.{WebServer, Param, Header, Route, crlf, http_post, parse_method, header, send}

-- `parseQueryString`: one pair, and all of them.
unfoldable pub param_of : List ℕ → Param
param_of pair = elim (find_byte b'=' pair) [
  | none ↦ record { name = url_decode pair; value = [] }
  | some eq ↦ record { name = url_decode (take eq pair); value = url_decode (drop (eq + 1) pair) }
]

unfoldable pub parse_query_string : List ℕ → List Param
unfolding param_of
parse_query_string qs = map param_of (get_lines b'&' qs)

-- `parseHeaders`
abbrev pub skip_one_space : List ℕ → List ℕ
skip_one_space [] = []
skip_one_space (c ∷ s) = if c == 32 then s else c ∷ s

unfoldable pub headers_of_line : List ℕ → List Header
headers_of_line line = elim (find_byte b':' line) [
  | none ↦ []
  | some colon ↦
      record { name = take colon line; value = skip_one_space (drop (colon + 1) line) } ∷ []
]

unfoldable pub headers_of_lines : List (List ℕ) → List Header
unfolding headers_of_line
headers_of_lines [] = []
headers_of_lines (l ∷ ls) = headers_of_line (drop_cr l) ++ headers_of_lines ls

unfoldable pub parse_headers : List ℕ → List Header
unfolding headers_of_lines
parse_headers raw = headers_of_lines (get_lines 10 raw)

-- `parse_content_length`: what one line says, and the last line that says it. `none` is `(size_t)-1`.
unfoldable pub length_of_line : List ℕ → Option ℕ
length_of_line line = elim (find_byte b':' line) [
  | none ↦ none
  | some colon ↦
      if str_eq (map to_lower (take colon line)) (codes "content-length")
      then elim (strtol 10 (drop (colon + 1) line)) [ none ↦ none | some (v, rest) ↦ some v ]
      else none
]

abbrev pub later : Option ℕ → Option ℕ → Option ℕ
later none value = value
later (some v) value = some v

unfoldable pub length_of_lines : List (List ℕ) → Option ℕ → Option ℕ
unfolding length_of_line
length_of_lines [] value = value
length_of_lines (l ∷ ls) value = length_of_lines ls (later (length_of_line (drop_cr l)) value)

unfoldable pub parse_content_length : List ℕ → Option ℕ
unfolding length_of_lines
parse_content_length headers = length_of_lines (get_lines 10 headers) none

-- The loop that receives: what has arrived, where its header ends, and the length it announces.
pub record Received : Type 0 where
  pub req : List ℕ
  pub header_end : Option ℕ
  pub content_length : Option ℕ

abbrev pub blank_line : List ℕ
blank_line = 13 ∷ 10 ∷ 13 ∷ 10 ∷ []

abbrev pub max_header_bytes : ℕ
max_header_bytes = 65536

abbrev pub max_body_bytes : ℕ
max_body_bytes = 16777216

-- The tests before a `recv` that end the loop.
unfoldable pub is_complete : Received → Bool
is_complete r = elim r.header_end [
  | none ↦ ltb max_header_bytes (length r.req)
  | some e ↦ elim r.content_length [ none ↦ false | some n ↦ leb n (length r.req - (e + 4)) ]
]

unfoldable pub take_in : Received → List ℕ → Received
unfolding parse_content_length
take_in r chunk =
    let req = r.req ++ chunk in
    elim r.header_end [
      | some e ↦ record r { req = req }
      | none ↦ elim (find_str blank_line req) [
        | none ↦ record r { req = req }
        | some e ↦ record {
          req = req;
          header_end = some e;
          content_length = parse_content_length (take e req);
        }
      ]
    ]

unfoldable pub receive : List (List ℕ) → Received → Received
unfolding is_complete take_in
receive [] r = r
receive (chunk ∷ chunks) r = elim (is_complete r) [
  | true ↦ r
  | false ↦ receive chunks (take_in r chunk)
]

abbrev pub nothing_received : Received
nothing_received = record { req = []; header_end = none; content_length = none }

-- `%<width>s` of `sscanf`: the word behind the spaces, and what follows it; `none` if there is none.
unfoldable pub scan_chars : ℕ → List ℕ → List ℕ × List ℕ
scan_chars zero s = ([], s)
scan_chars (suc width) [] = ([], [])
scan_chars (suc width) (c ∷ s) =
    let (word, rest) = scan_chars width s in if is_space c then ([], c ∷ s) else (c ∷ word, rest)

unfoldable pub scan_word : ℕ → List ℕ → Option (List ℕ × List ℕ)
unfolding scan_chars
scan_word width s =
    let (word, rest) = scan_chars width (skip_spaces s) in
    if leb (length word) 0 then none else some (word, rest)

-- `sscanf(request_line, "%15s %1023s %15s", …) < 2`: the method and the path.
unfoldable pub scan_request_line : List ℕ → Option (List ℕ × List ℕ)
unfolding scan_word
scan_request_line line = elim (scan_word 15 (c_str line)) [
  | none ↦ none
  | some (method, rest) ↦ elim (scan_word 1023 rest) [
    | none ↦ none
    | some (path, r) ↦ some (method, path)
  ]
]

-- The path without its query, and the parameters in it.
unfoldable pub set_uri : List ℕ → WebServer → WebServer
unfolding parse_query_string
set_uri full_path s = elim (find_byte b'?' full_path) [
  | none ↦ record s { current_uri = url_decode full_path }
  | some qmark ↦ record s {
    current_uri = url_decode (take qmark full_path);
    current_params = s.current_params ++ parse_query_string (drop (qmark + 1) full_path);
  }
]

-- The headers: the text between the request line and the end of the header, or all that follows.
unfoldable pub set_headers : Received → WebServer → WebServer
unfolding parse_headers
set_headers r s = elim (find_str crlf r.req) [
  | none ↦ s
  | some line_end ↦
      let all_that_follows = drop (line_end + 2) r.req in
      let raw : List ℕ = elim r.header_end [
        | none ↦ all_that_follows
        | some e ↦
            if ltb (line_end + 2) e
            then take (e - (line_end + 2)) all_that_follows
            else all_that_follows
      ] in
      record s { current_headers = s.current_headers ++ parse_headers raw }
]

unfoldable pub body_of : Received → List ℕ
body_of r = elim r.header_end [
  | none ↦ []
  | some e ↦
      let remaining = length r.req - (e + 4) in
      let avail : ℕ = elim r.content_length [ none ↦ remaining | some n ↦ min n remaining ] in
      if ltb (e + 4) (length r.req)
      then take (min avail max_body_bytes) (drop (e + 4) r.req)
      else []
]

-- The parameters of a form that was posted.
unfoldable pub set_form : WebServer → WebServer
unfolding parse_query_string
set_form s =
    if s.current_method == http_post && ltb 0 (length s.current_body)
    then if is_some
        (find_str (codes "application/x-www-form-urlencoded") (header (codes "Content-Type") s))
      then record s { current_params = s.current_params ++ parse_query_string s.current_body }
      else s
    else s

unfoldable pub set_request : List ℕ → List ℕ → Received → WebServer → WebServer
unfolding set_uri set_headers body_of set_form
set_request method path r s =
    let s = set_headers r (set_uri path (record s { current_method = parse_method method })) in
    set_form (record s { current_body = body_of r })

-- The first route that fits, or the handler for none, or the answer 404.
unfoldable pub fits : WebServer → Route → Bool
fits s r = str_eq r.uri s.current_uri && (r.method == 0 || r.method == s.current_method)

unfoldable pub first_route : WebServer → List Route → Option ℕ
unfolding fits
first_route s [] = none
first_route s (r ∷ rs) = if fits s r then some r.handler else first_route s rs

unfoldable pub request_line_of : Received → List ℕ
request_line_of r = elim (find_str crlf r.req) [
  | none ↦ r.req
  | some line_end ↦ take line_end r.req
]

module _ (run : ℕ → WebServer → WebServer) where
  unfoldable pub dispatch : WebServer → WebServer
  unfolding first_route
  dispatch s = elim (first_route s s.routes) [
    | some handler ↦ run handler s
    | none ↦ elim s.not_found_handler [
      | some handler ↦ run handler s
      | none ↦ send 404 (codes "text/plain") (codes "Not Found") s
    ]
  ]

  -- `client_fd_ = -1`
  abbrev pub leave : WebServer → WebServer
  leave s = record s { client = false }

  unfoldable pub answer_line : List ℕ → Received → WebServer → WebServer
  answer_line request_line r s =
      if leb 2048 (length request_line) then leave s else elim (scan_request_line request_line) [
        | none ↦ leave s
        | some (method, path) ↦ leave (dispatch (set_request method path r s))
      ]

  unfoldable pub answer : Received → WebServer → WebServer
  answer r s = answer_line (request_line_of r) r s

  unfoldable pub process_received : Received → WebServer → WebServer
  process_received r s =
      if leb (length r.req) 0
      then s
      else answer r (record s {
        client = true;
        current_params = [];
        current_headers = [];
        response_headers = [];
        current_body = [];
      })

  unfoldable pub process_client : List (List ℕ) → WebServer → WebServer
  process_client chunks s = process_received (receive chunks nothing_received) s
