-- ===== src/Net/Web.antt =====
-- src/webserver.cpp and include/WebServer.h: the server's state, and what it does with one connection.
-- A handler is a number, and what it does to the server an argument.
pub mod Request
pub mod Query
pub mod Receiving
pub mod Routes
mod Tests
use esp32emu.Base.{
  ℕ, zero, suc, ◌+◌, ◌-◌, ◌*◌, ◌^◌, min, Bool, true, false, not, ◌&&◌, ◌||◌, Option, none, some,
  List, [], ◌∷◌, ◌++◌, ltb, leb, ◌==◌, if◌then◌else◌, length, take, drop, get_elem?, str_eq,
  append_assoc,
}
use esp32emu.Base.Strings.{codes, find_byte, c_str, same_letters, to_string, is_some, find_str}
use esp32emu.Net.Socket.{Sent, send_all}

pub record Route : Type 0 where
  pub uri : List ℕ
  pub method : ℕ
  pub handler : ℕ

pub record Param : Type 0 where
  pub name : List ℕ
  pub value : List ℕ

pub record Header : Type 0 where
  pub name : List ℕ
  pub value : List ℕ

-- `client` is whether there is a client's socket, `wire` what was sent on it, and `socket` what the system
-- will answer to the calls of `send`.
pub record WebServer : Type 0 where
  pub routes : List Route
  pub not_found_handler : Option ℕ
  pub current_uri : List ℕ
  pub current_method : ℕ
  pub current_params : List Param
  pub current_headers : List Header
  pub current_body : List ℕ
  pub client : Bool
  pub response_headers : List Header
  pub content_length : ℕ
  pub wire : List ℕ
  pub socket : List Sent

abbrev pub http_get : ℕ
http_get = 1

abbrev pub http_post : ℕ
http_post = 2

-- A route for every method has the method 0.
pub on : List ℕ → ℕ → ℕ → WebServer → WebServer
on uri method handler s = record s {
  routes = s.routes ++ record { uri = uri; method = method; handler = handler } ∷ [];
}

pub on_any : List ℕ → ℕ → WebServer → WebServer
on_any uri handler s = record s {
  routes = s.routes ++ record { uri = uri; method = 0; handler = handler } ∷ [];
}

pub on_not_found : ℕ → WebServer → WebServer
on_not_found handler s = record s { not_found_handler = some handler }

unfoldable pub parse_method : List ℕ → ℕ
parse_method m =
    if str_eq m (codes "GET")
    then http_get
    else if str_eq m (codes "POST")
    then http_post
    else if str_eq m (codes "PUT")
    then 3
    else if str_eq m (codes "DELETE")
    then 4
    else if str_eq m (codes "PATCH")
    then 5
    else if str_eq m (codes "OPTIONS")
    then 6
    else 0

-- The readings of the current request.
find_param : List ℕ → List Param → Option (List ℕ)
find_param name [] = none
find_param name (p ∷ ps) = if str_eq p.name name then some p.value else find_param name ps

pub arg : List ℕ → WebServer → List ℕ
unfolding find_param
arg name s = elim (find_param name s.current_params) [ none ↦ [] | some v ↦ c_str v ]

-- By position, of an `int`'s range of 0 on.
pub arg_at : ℕ → WebServer → List ℕ
arg_at i s = elim (get_elem? s.current_params i) [ none ↦ [] | some p ↦ c_str p.value ]

pub arg_name : ℕ → WebServer → List ℕ
arg_name i s = elim (get_elem? s.current_params i) [ none ↦ [] | some p ↦ c_str p.name ]

pub args : WebServer → ℕ
args s = length s.current_params

pub has_arg : List ℕ → WebServer → Bool
unfolding find_param
has_arg name s = is_some (find_param name s.current_params)

unfoldable pub find_header : List ℕ → List Header → List ℕ
find_header name [] = []
find_header name (h ∷ hs) =
    if same_letters (c_str h.name) name then c_str h.value else find_header name hs

unfoldable pub header : List ℕ → WebServer → List ℕ
unfolding find_header
header name s = find_header name s.current_headers

pub uri : WebServer → List ℕ
uri s = c_str s.current_uri

pub plain_body : WebServer → List ℕ
plain_body s = c_str s.current_body

-- `send`: the reason, the response, and the state afterwards. A code is from 0 on.
unfoldable pub reason : ℕ → List ℕ
reason code =
    if code == 200
    then codes "OK"
    else if code == 201
    then codes "Created"
    else if code == 204
    then codes "No Content"
    else if code == 301
    then codes "Moved Permanently"
    else if code == 302
    then codes "Found"
    else if code == 400
    then codes "Bad Request"
    else if code == 401
    then codes "Unauthorized"
    else if code == 403
    then codes "Forbidden"
    else if code == 404
    then codes "Not Found"
    else if code == 500
    then codes "Internal Server Error"
    else codes "OK"

abbrev pub crlf : List ℕ
crlf = 13 ∷ 10 ∷ []

unfoldable pub header_lines : List Header → List ℕ
header_lines [] = []
header_lines (h ∷ hs) = h.name ++ (58 ∷ 32 ∷ h.value ++ (crlf ++ header_lines hs))

abbrev pub line_of_type : List ℕ → List ℕ
line_of_type [] = []
line_of_type (c ∷ s) = codes "Content-Type: " ++ (c ∷ s ++ crlf)

-- The response with a type and a content of which every byte counts, and with those that C strings give.
unfoldable pub response_text : ℕ → List Header → List ℕ → List ℕ → List ℕ
unfolding reason header_lines
response_text code hs content_type content =
    codes "HTTP/1.1 "
    ++ (to_string code
        ++ (32 ∷ reason code
            ++ (crlf
                ++ (header_lines hs
                    ++ (line_of_type content_type
                        ++ (codes "Content-Length: "
                            ++ (to_string (length content)
                                ++ (crlf
                                    ++ (codes "Connection: close"
                                        ++ (crlf ++ (crlf ++ content)))))))))))

unfoldable pub response : ℕ → List Header → List ℕ → List ℕ → List ℕ
unfolding response_text
response code hs content_type content = response_text code hs (c_str content_type) (c_str content)

unfoldable pub send : ℕ → List ℕ → List ℕ → WebServer → WebServer
unfolding response
send code content_type content s =
    let (sent, left) = send_all s.socket (response code s.response_headers content_type content) in
    if s.client then record s { wire = s.wire ++ sent; socket = left; response_headers = [] } else s

pub send_header : List ℕ → List ℕ → Bool → WebServer → WebServer
send_header name value first s =
    let h : Header = record { name = name; value = value } in
    record s {
      response_headers = if first then h ∷ s.response_headers else s.response_headers ++ h ∷ [];
    }

pub set_content_length : ℕ → WebServer → WebServer
set_content_length len s = record s { content_length = len }
