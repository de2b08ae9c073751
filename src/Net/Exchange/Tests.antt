-- ===== src/Net/Exchange/Tests.antt =====
-- Instances for a form that is posted and for its answer.
use esp32emu.Base.{
  ℕ, ◌≤◌, ◌≡◌, refl, inl, inr, true, Option, none, some, List, [], ◌∷◌, append-nil, arith, length,
  str_eq,
}
use esp32emu.Base.Strings.{codes, c_str, is_space, to_lower, to_string}
use esp32emu.Net.Socket.{took, interrupted, capacity}
use esp32emu.Net.Web.{WebServer, send, response, header_lines}
use esp32emu.Net.Web.Request.{process_client, dispatch, leave}
use esp32emu.Net.HttpClient.{
  HttpClient, request, payload_bytes, has_header, parse_status, parse_body,
}
use esp32emu.Net.Exchange.Requests.Lines.{sent_headers}
use esp32emu.Net.Exchange.Requests.Reading.{asked}
use esp32emu.Net.Exchange.Requests.Found.{Found}
use esp32emu.Net.Exchange.Requests.Sendable.{IsSendable}
use esp32emu.Net.Exchange.Requests.Served.{request_served}
use esp32emu.Net.Exchange.Answers.Read.{response_read_back}

abbrev server : WebServer
server = record {
  routes = [];
  not_found_handler = none;
  current_uri = [];
  current_method = 0;
  current_params = [];
  current_headers = [];
  current_body = [];
  client = true;
  response_headers = record { name = codes "X-A"; value = codes "1" } ∷ [];
  content_length = 0;
  wire = [];
  socket = took 20 ∷ interrupted ∷ took 200 ∷ [];
}

abbrev handlers : ℕ → WebServer → WebServer
handlers k s = send 200 (codes "text/plain") (k ∷ []) s

abbrev client : HttpClient
client = record {
  host = codes "h";
  port = 80;
  path = codes "/x";
  headers = record { name = codes "A"; value = codes "b" } ∷ [];
  response_body = [];
}

abbrev form : Option (List ℕ)
form = some (codes "q=1")

sendable : IsSendable client
unfolding is_space to_lower
sendable = record {
  path = (((refl, omega arith), ((refl, omega arith), tt)), omega arith, omega arith);
  host = omega arith;
  headers = omega arith;
  unframed = ((omega arith, λ e. ground arith), tt);
}

-- The request arrives in one chunk.
abbrev posted : List ℕ
posted = request (codes "POST") form client

length-posted : length posted ≡ 125
unfolding request header_lines to_string has_header str_eq c_str
length-posted = refl

request_served_example :
    let found =
      asked (codes "POST") client.path (sent_headers form client) (payload_bytes form) server in
    (process_client handlers (posted ∷ []) server ≡ leave handlers (dispatch handlers found))
    × Found server 2 form client found
unfolding c_str
request_served_example =
    request_served (codes "POST") 2 form client (posted ∷ []) handlers server
      (inr (inl (refl, refl))) sendable (omega arith) (omega (arith, length-posted))
      (omega (arith, length-posted), tt) (append-nil posted)

room :
    length (response 404 server.response_headers (codes "text/plain") (codes "no"))
    ≤ capacity server.socket
unfolding response to_string capacity c_str
room = omega arith

response_read_back_example :
    (parse_status (send 404 (codes "text/plain") (codes "no") server).wire ≡ some 404)
    × (parse_body (send 404 (codes "text/plain") (codes "no") server).wire ≡ codes "no")
unfolding to_lower c_str
response_read_back_example =
    response_read_back 404 (codes "text/plain") (codes "no") server (omega arith) (omega arith)
      (omega arith) ((omega arith, λ e. ground arith), tt) (omega arith) (omega arith) refl refl
      room
