-- ===== src/Net/Web/Tests.antt =====
-- Instances for a server of two routes.
use esp32emu.Base.{ℕ, ◌≡◌, refl, inr, true, none, some, List, [], ◌∷◌, ◌++◌, arith, All, str_eq}
use esp32emu.Base.Strings.{codes, find_str, find_byte, get_lines, starts_with, drop_cr, to_lower}
use esp32emu.Net.Socket.{took}
use esp32emu.Net.Web.{WebServer, Route, Param, send}
use esp32emu.Net.Web.Request.{dispatch, process_client, parse_content_length}
use esp32emu.Net.Web.Routes.{Serves, dispatch_lem}
use esp32emu.Net.Web.Receiving.{flatten, IsWhole, process_client-flatten}

abbrev root : Route
root = record { uri = codes "/"; method = 0; handler = 7 }

abbrev page : Route
page = record { uri = codes "/x"; method = 1; handler = 8 }

abbrev server : WebServer
server = record {
  routes = root ∷ page ∷ [];
  not_found_handler = none;
  current_uri = codes "/x";
  current_method = 1;
  current_params = [];
  current_headers = [];
  current_body = [];
  client = true;
  response_headers = [];
  content_length = 0;
  wire = [];
  socket = took 1000 ∷ [];
}

abbrev handlers : ℕ → WebServer → WebServer
handlers k s = send 200 (codes "text/plain") (k ∷ []) s

dispatch_lem_example :
    ((before after : List Route) (r : Route)
      → server.routes ≡ before ++ r ∷ after
      → All (λ q. ¬ Serves server q) before
      → Serves server r
      → dispatch handlers server ≡ handlers r.handler server)
    × (All (λ q. ¬ Serves server q) server.routes
        → ((k : ℕ)
            → server.not_found_handler ≡ some k
            → dispatch handlers server ≡ handlers k server)
          × (server.not_found_handler ≡ none
              → dispatch handlers server
                ≡ send 404 (codes "text/plain") (codes "Not Found") server))
dispatch_lem_example = dispatch_lem handlers server

-- Its first part at the second route.
dispatched : dispatch handlers server ≡ handlers 8 server
dispatched =
    (dispatch_lem handlers server).0 (root ∷ []) [] page refl
      ((λ s. absurd (ground (arith, s.0))), tt) (refl, inr refl)

abbrev params : List Param
params =
    record { name = codes "a b"; value = codes "&" } ∷ record { name = []; value = codes "=" } ∷ []

abbrev chunks : List (List ℕ)
chunks =
    (codes "GET /x HT"
      ∷ (codes "TP/1.1" ++ 13 ∷ 10 ∷ codes "A: b" ++ 13 ∷ 10 ∷ 13 ∷ [])
      ∷ (10 ∷ [])
      ∷ [])

chunks-IsWhole : IsWhole (flatten chunks) 21
unfolding find_str starts_with parse_content_length get_lines find_byte drop_cr str_eq to_lower
chunks-IsWhole = record { header = refl; limit = omega arith; body = tt }

process_client-flatten_example :
    process_client handlers chunks server ≡ process_client handlers (flatten chunks ∷ []) server
process_client-flatten_example =
    process_client-flatten handlers chunks 21 server (omega arith) chunks-IsWhole
