-- ===== src/Net/HttpClient.antt =====
-- src/httpclient.cpp and include/HTTPClient.h: the client's state, the request that it writes and the
-- response that it reads. What connecting and the calls of `send` and `recv` come to are arguments.
pub mod Chunked
pub mod Addresses
mod Tests
use esp32emu.Base.{
  ℕ, zero, suc, ◌+◌, ◌-◌, ◌^◌, Bool, true, false, not, ◌&&◌, ◌||◌, Option, none, some, List, [],
  ◌∷◌, ◌++◌, ltb, leb, ◌==◌, if◌then◌else◌, length, take, drop, str_eq,
}
use mathlib.Core.List.{map}
use esp32emu.Base.Strings.{
  codes, find_byte, c_str, is_some, find_str, starts_with, get_lines, drop_cr, to_lower, to_string,
  strtol, strtoul,
}
use esp32emu.Net.Socket.{Sent, send_all}
use esp32emu.Net.Web.{Header, crlf, header_lines}

-- `headers_` is a `std::map`, whose entries stand in the order of their names.
pub record HttpClient : Type 0 where
  pub host : List ℕ
  pub port : ℕ
  pub path : List ℕ
  pub headers : List Header
  pub response_body : List ℕ

unfoldable pub to_lower_copy : List ℕ → List ℕ
to_lower_copy s = map to_lower s

unfoldable pub line_is_chunked : List ℕ → Bool
unfolding to_lower_copy
line_is_chunked line = elim (find_byte b':' line) [
  | none ↦ false
  | some colon ↦
      str_eq (to_lower_copy (take colon line)) (codes "transfer-encoding")
      && is_some (find_str (codes "chunked") (to_lower_copy (drop (colon + 1) line)))
]

unfoldable pub any_chunked : List (List ℕ) → Bool
unfolding line_is_chunked
any_chunked [] = false
any_chunked (l ∷ ls) = line_is_chunked (drop_cr l) || any_chunked ls

unfoldable pub response_is_chunked : List ℕ → Bool
unfolding any_chunked
response_is_chunked head = any_chunked (get_lines 10 head)

-- The loop of `decode_chunked_body` on what is left of its input. Every round takes at least a byte, so
-- its length is enough fuel.
unfoldable pub decode_chunks : ℕ → List ℕ → List ℕ
decode_chunks zero s = []
decode_chunks (suc fuel) s = elim (find_str crlf s) [
  | none ↦ []
  | some eol ↦ elim (strtoul 16 s) [
    | none ↦ []
    | some (zero, e) ↦ []
    | some (suc n, e) ↦
        let r = drop (eol + 2) s in
        let rest = decode_chunks fuel (drop (suc n + 2) r) in
        if ltb (length r) (suc n) then r else take (suc n) r ++ rest
  ]
]

unfoldable pub decode_chunked_body : List ℕ → List ℕ
unfolding decode_chunks
decode_chunked_body s = decode_chunks (length s) s

-- `begin`. The first part is the scheme's: whether it is https, and the rest.
unfoldable pub parse_scheme : List ℕ → Option (Bool × List ℕ)
parse_scheme u =
    if starts_with (codes "https://") u
    then some (true, drop 8 u)
    else if starts_with (codes "http://") u
    then some (false, drop 7 u)
    else none

unfoldable pub split_host : List ℕ → List ℕ × List ℕ
split_host u = elim (find_byte b'/' u) [
  | none ↦ (u, codes "/")
  | some slash ↦ (take slash u, drop slash u)
]

-- The number behind the colon of a host, all of whose text it is.
unfoldable pub parse_port : List ℕ → Option ℕ
parse_port s = elim (strtol 10 s) [
  | none ↦ none
  | some (p, []) ↦ if ltb 0 p && leb p 65535 then some p else none
  | some (p, c ∷ rest) ↦ if c == 0 && (ltb 0 p && leb p 65535) then some p else none
]

-- A port in the host.
unfoldable pub parse_host : List ℕ → HttpClient → HttpClient × Bool
unfolding parse_port
parse_host host c = elim (find_byte b':' host) [
  | none ↦ (c, ltb 0 (length host))
  | some colon ↦ elim (parse_port (drop (colon + 1) host)) [
    | none ↦ (c, false)
    | some p ↦ (record c { port = p; host = take colon host }, ltb 0 (length (take colon host)))
  ]
]

unfoldable pub begin : List ℕ → HttpClient → HttpClient × Bool
unfolding parse_scheme split_host parse_host
begin url c =
    let c = record c { headers = []; response_body = [] } in
    elim (parse_scheme url) [
      | none ↦ (c, false)
      | some (is_https, u) ↦
          let (host, path) = split_host u in
          parse_host host
            (record c { port = if is_https then 443 else 80; host = host; path = path })
    ]

-- `end`
unfoldable pub close : HttpClient → HttpClient
close c = record c { headers = []; response_body = [] }

-- `headers_[name] = value`, in the order of the names' bytes.
unfoldable pub str_ltb : List ℕ → List ℕ → Bool
str_ltb [] [] = false
str_ltb [] (b ∷ t) = true
str_ltb (a ∷ s) [] = false
str_ltb (a ∷ s) (b ∷ t) = ltb a b || (a == b && str_ltb s t)

unfoldable pub put_header : Header → List Header → List Header
unfolding str_ltb
put_header h [] = h ∷ []
put_header h (g ∷ gs) =
    if str_eq g.name h.name
    then h ∷ gs
    else if str_ltb h.name g.name
    then h ∷ g ∷ gs
    else g ∷ put_header h gs

unfoldable pub add_header : List ℕ → List ℕ → HttpClient → HttpClient
unfolding put_header
add_header name value c = record c {
  headers = put_header (record { name = name; value = value }) c.headers;
}

unfoldable pub has_header : List ℕ → List Header → Bool
has_header name [] = false
has_header name (g ∷ gs) = str_eq g.name name || has_header name gs

-- `sendRequest`: the lines about the payload, and the request.
unfoldable pub payload_lines : Option (List ℕ) → List Header → List ℕ
unfolding has_header
payload_lines none hs = []
payload_lines (some payload) hs =
    codes "Content-Length: "
    ++ (to_string (length (c_str payload))
        ++ (crlf
            ++ (if has_header (codes "Content-Type") hs
                then []
                else codes "Content-Type: application/x-www-form-urlencoded" ++ crlf)))

-- The payload is a C string: what is sent of it ends before its first byte 0.
abbrev pub payload_bytes : Option (List ℕ) → List ℕ
payload_bytes none = []
payload_bytes (some payload) = c_str payload

unfoldable pub request : List ℕ → Option (List ℕ) → HttpClient → List ℕ
unfolding payload_lines
request method payload c =
    method
    ++ (32 ∷ c.path
        ++ (codes " HTTP/1.1"
            ++ (crlf
                ++ (codes "Host: "
                    ++ (c.host
                        ++ (crlf
                            ++ (header_lines c.headers
                                ++ (payload_lines payload c.headers
                                    ++ (codes "Connection: close"
                                        ++ (crlf ++ (crlf ++ payload_bytes payload)))))))))))

-- The status code, with `none` for -1.
unfoldable pub parse_status : List ℕ → Option ℕ
parse_status response =
    if starts_with (codes "HTTP/") response
    then elim (find_byte 32 response) [
      | none ↦ none
      | some space ↦ elim (strtol 10 (drop (space + 1) response)) [
        | none ↦ none
        | some (v, rest) ↦ if leb 100 v && leb v 599 then some v else none
      ]
    ]
    else none

unfoldable pub parse_body : List ℕ → List ℕ
unfolding response_is_chunked decode_chunked_body
parse_body response = elim (find_str (13 ∷ 10 ∷ 13 ∷ 10 ∷ []) response) [
  | none ↦ []
  | some body_start ↦
      let raw_body = drop (body_start + 4) response in
      if response_is_chunked (take body_start response)
      then decode_chunked_body raw_body
      else raw_body
]

-- What the network does in one request: whether it connects, what the calls of `send` take, and the
-- chunks that arrive until a call of `recv` gives none.
pub record Network : Type 0 where
  pub connects : Bool
  pub sends : List Sent
  pub receives : List (List ℕ)

abbrev pub gather : List (List ℕ) → List ℕ
gather [] = []
gather (c ∷ cs) = c ++ gather cs

-- The new state, the status, and what went to the server.
unfoldable pub send_request :
    List ℕ → Option (List ℕ) → Network → HttpClient → HttpClient × Option ℕ × List ℕ
unfolding request parse_status parse_body
send_request method payload net c =
    let req = request method payload c in
    let sent = (send_all net.sends req).0 in
    let response = gather net.receives in
    if not net.connects
    then (c, none, [])
    else if not (length sent == length req)
    then (c, none, sent)
    else (record c { response_body = parse_body response }, parse_status response, sent)

unfoldable pub get : Network → HttpClient → HttpClient × Option ℕ × List ℕ
unfolding send_request
get net c = send_request (codes "GET") none net c

unfoldable pub post : List ℕ → Network → HttpClient → HttpClient × Option ℕ × List ℕ
unfolding send_request
post payload net c = send_request (codes "POST") (some payload) net c

unfoldable pub put : List ℕ → Network → HttpClient → HttpClient × Option ℕ × List ℕ
unfolding send_request
put payload net c = send_request (codes "PUT") (some payload) net c

unfoldable pub get_string : HttpClient → List ℕ
get_string c = c_str c.response_body
