-- ===== src/Net/Exchange/Requests/Served.antt =====
-- A request of src/httpclient.cpp as src/webserver.cpp serves it.
use esp32emu.Base.{
  inl, inr, ℕ, ◌+◌, ◌≤◌, ◌<◌, ◌≡◌, sym, ap, ap₂, ◌∙◌, false, Option, none, some, List, [], ◌∷◌,
  ◌++◌, arith, length, length-append, take, take-append, All, leb,
}
use mathlib.Core.Path.{subst}
use mathlib.Core.List.{map}
use esp32emu.Base.Strings.{codes, find_str}
use esp32emu.Base.Strings.Search.{Lacks}
use esp32emu.Net.Web.{WebServer}
use esp32emu.Net.Web.Request.{
  Received, parse_content_length, receive, nothing_received, process_client, process_received,
  answer, dispatch, leave,
}
use esp32emu.Net.Web.Receiving.{flatten, IsWhole, BodyFits, arrived, arrived-some, receive-flatten}
use esp32emu.Net.HttpClient.{HttpClient, request, payload_bytes, has_header}
use esp32emu.Net.Exchange.{joined, IsLine, find_str-joined}
use esp32emu.Net.Exchange.Headers.{
  line_of_header, IsHeader-IsLine, parse_content_length-joined, plain_length,
}
use esp32emu.Net.Exchange.Requests.Lines.{
  start_line, sent_headers, further_headers, named, request-joined,
}
use esp32emu.Net.Exchange.Requests.Reading.{ending, asked, opened, received, answer_lem}
use esp32emu.Net.Exchange.Requests.Found.{Numbered, Found, asked-Found}
use esp32emu.Net.Exchange.Requests.Announced.{announced, plain_length-request}
use esp32emu.Net.Exchange.Requests.Sendable.{
  IsMethod, IsSendable, begins, sent_headers-IsHeader, start_line-IsLine, host-Unframed,
  announced-Framed, start_line_short,
}

Numbered-IsMethod : (m : List ℕ) (n : ℕ) → Numbered m n → IsMethod m
Numbered-IsMethod m n (inl h) = inl h.0
Numbered-IsMethod m n (inr (inl h)) = inr (inl h.0)
Numbered-IsMethod m n (inr (inr h)) = inr (inr h.0)

process_client_received :
    (run : ℕ → WebServer → WebServer) (chunks : List (List ℕ)) (r : Received) (s : WebServer)
    → receive chunks nothing_received ≡ r
    → 0 < length r.req
    → process_client run chunks s ≡ answer run r (opened s)
unfolding process_client process_received
process_client_received run chunks r s e pos =
    let b : leb (length r.req) 0 ≡ false = ground arith in
    ap (λ q. process_received run q s) e ∙ rw (process_received, b)

announced_fits :
    (payload : Option (List ℕ)) (e : ℕ) {total : ℕ}
    → total ≡ e + length (ending (payload_bytes payload))
    → BodyFits total e (announced payload)
announced_fits none e h = tt
announced_fits (some p) e h = omega (arith, h)

module _ (method : List ℕ) (payload : Option (List ℕ)) (c : HttpClient) (im : IsMethod method)
    (ok : IsSendable c) (small : length (payload_bytes payload) ≤ 16777216) where
  abbrev header_text : List ℕ
  header_text = joined (start_line method c.path ∷ map line_of_header (sent_headers payload c))

  lines : All IsLine (start_line method c.path ∷ map line_of_header (sent_headers payload c))
  lines = (
    start_line-IsLine method c.path (begins method im).0 ok.path,
    IsHeader-IsLine (sent_headers payload c) (sent_headers-IsHeader payload c ok),
  )

  header_end :
      find_str (13 ∷ 10 ∷ 13 ∷ 10 ∷ []) (request method payload c) ≡ some (length header_text)
  header_end =
      ap (find_str (13 ∷ 10 ∷ 13 ∷ 10 ∷ [])) (request-joined method payload c)
      ∙ find_str-joined (start_line method c.path) (map line_of_header (sent_headers payload c))
          (payload_bytes payload) lines

  announced_length : parse_content_length header_text ≡ announced payload
  announced_length =
      let (w, x, t, e, other) = begins method im in
      let tail = t ++ (32 ∷ c.path ++ codes " HTTP/1.1") in
      parse_content_length-joined (start_line method c.path)
        (map line_of_header (sent_headers payload c)) lines
      ∙ ap
          (λ (m : List ℕ).
            plain_length (start_line m c.path ∷ map line_of_header (sent_headers payload c)) none)
          e
      ∙ plain_length-request x tail (named (codes "Host") c.host ∷ c.headers) payload
          (has_header (codes "Content-Type") c.headers) other (host-Unframed c.host, ok.unframed)
          (omega arith)

  prefix : take (length header_text) (request method payload c) ≡ header_text
  prefix =
      ap (take (length header_text)) (request-joined method payload c)
      ∙ take-append header_text (ending (payload_bytes payload))

  body_fits : BodyFits (length (request method payload c)) (length header_text) (announced payload)
  body_fits = announced_fits payload (length header_text) (
      ap length (request-joined method payload c)
      ∙ length-append header_text (ending (payload_bytes payload)))

  is_whole :
      length header_text + 3 ≤ 65536 → IsWhole (request method payload c) (length header_text)
  is_whole limit = record {
    header = header_end;
    limit = limit;
    body =
        subst (BodyFits (length (request method payload c)) (length header_text))
          (sym (ap parse_content_length prefix ∙ announced_length)) body_fits;
  }

  no_return : Lacks 13 (start_line method c.path)
  no_return = (start_line-IsLine method c.path (begins method im).0 ok.path).1

  arrived-request :
      arrived (request method payload c)
      ≡ received
          (start_line method c.path)
          no_return
          (line_of_header (named (codes "Host") c.host))
          (map line_of_header (further_headers payload c))
          (payload_bytes payload)
          (announced payload)
  arrived-request =
      arrived-some (request method payload c) (length header_text) header_end
      ∙ ap₂
          (λ (q : List ℕ) (n : Option ℕ). record {
            req = q;
            header_end = some (length header_text);
            content_length = n;
          })
          (request-joined method payload c) (ap parse_content_length prefix ∙ announced_length)

  answered :
      (run : ℕ → WebServer → WebServer) (s : WebServer)
      → answer run (arrived (request method payload c)) (opened s)
        ≡ leave run
            (dispatch run (asked method c.path (sent_headers payload c) (payload_bytes payload) s))
  answered run s =
      ap (λ r. answer run r (opened s)) arrived-request
      ∙ answer_lem method c.path (begins method im).0 ok.path (named (codes "Host") c.host)
          (further_headers payload c) (sent_headers-IsHeader payload c ok) (payload_bytes payload)
          no_return run (announced payload) s (announced-Framed payload) small
          (start_line_short method c.path (begins method im).0 ok.path)

-- A GET, POST or PUT that a client sends reaches the server's handler, however the network splits it into
-- chunks, none of them empty: the handler that the server's routes choose finds the method's number, the headers that were sent in
-- their order and the payload, up to its first byte 0, as the body; where the path has no query and is an
-- encoding of a text, the text as the URI; and where besides the method is POST, the payload is a form of some
-- parameters and no header of the client's own is Content-Type, in any letter case, exactly these parameters. The
-- path is of 1 to 1023 bytes without white space and bytes 0, the headers are lines, none of them
-- Content-Length, they take up at most 64 KiB, and the payload at most 16 MiB.
pub request_served :
    (method : List ℕ) (verb : ℕ) (payload : Option (List ℕ)) (c : HttpClient)
    (chunks : List (List ℕ)) (run : ℕ → WebServer → WebServer) (s : WebServer)
    → Numbered method verb
    → IsSendable c
    → length (payload_bytes payload) ≤ 16777216
    → length (request method payload c) ≤ 65533 + length (ending (payload_bytes payload))
    → All (λ a. 0 < length a) chunks
    → flatten chunks ≡ request method payload c
    → let found = asked method c.path (sent_headers payload c) (payload_bytes payload) s in
      (process_client run chunks s ≡ leave run (dispatch run found)) × Found s verb payload c found
request_served method verb payload c chunks run s number ok small limit full e =
    let im = Numbered-IsMethod method verb number in
    let text = header_text method payload c im ok small in
    let total =
      ap length (request-joined method payload c)
      ∙ length-append text (ending (payload_bytes payload)) in
    let whole = is_whole method payload c im ok small (omega (arith, limit, total)) in
    let here : receive chunks nothing_received ≡ arrived (request method payload c) =
      receive-flatten chunks (length text) full (subst (λ t. IsWhole t (length text)) (sym e) whole)
      ∙ ap arrived e in
    let pos : 0 < length (arrived (request method payload c)).req = omega (
      arith,
      ap (λ r. length r.req) (arrived-request method payload c im ok small),
      length-append text (ending (payload_bytes payload)),
    ) in
    (
      process_client_received run chunks (arrived (request method payload c)) s here pos
          ∙ answered method payload c im ok small run s,
      asked-Found method verb payload c s number,
    )
