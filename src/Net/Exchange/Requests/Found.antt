-- ===== src/Net/Exchange/Requests/Found.antt =====
-- What a handler of src/webserver.cpp finds of a request that src/httpclient.cpp sent.
use esp32emu.Base.{
  ℕ, ◌≡◌, refl, sym, ap, ◌∙◌, ◌⊎◌, inl, inr, Bool, true, false, Option, none, some, List, [], ◌∷◌,
  ◌++◌, arith, length, All, ltb, str_eq, str_eq_iff, Bool-cases, Option-cases,
}
use esp32emu.Base.Strings.{
  codes, c_str, find_byte, find_str, is_some, same_letters, to_lower, to_string, starts_with,
}
use esp32emu.Base.Strings.Search.{Lacks, find_byte-Lacks}
use esp32emu.Net.Url.{url_decode}
use esp32emu.Net.Url.Escapes.{IsEncoding, url_decode-IsEncoding}
use esp32emu.Net.Web.{WebServer, Header, Param, parse_method, header, find_header}
use esp32emu.Net.Web.Request.{set_uri, set_form}
use esp32emu.Net.Web.Query.{IsForm, length-IsForm, parse_query_string-IsForm}
use esp32emu.Net.HttpClient.{HttpClient, payload_bytes, has_header}
use esp32emu.Net.Exchange.Requests.Lines.{named, payload_headers, sent_headers}
use esp32emu.Net.Exchange.Requests.Reading.{asked, opened}

-- The methods that a client uses, and their numbers in include/WebServer.h.
abbrev pub Numbered : List ℕ → ℕ → Type 0
Numbered m n =
    ((m ≡ codes "GET") × (n ≡ 1)) ⊎ ((m ≡ codes "POST") × (n ≡ 2)) ⊎ ((m ≡ codes "PUT") × (n ≡ 3))

parse_method-Numbered : (m : List ℕ) (n : ℕ) → Numbered m n → parse_method m ≡ n
unfolding parse_method str_eq
parse_method-Numbered m n (inl (e, k)) = ap parse_method e ∙ sym k
parse_method-Numbered m n (inr (inl (e, k))) = ap parse_method e ∙ sym k
parse_method-Numbered m n (inr (inr (e, k))) = ap parse_method e ∙ sym k

abbrev form_type : List ℕ
form_type = codes "application/x-www-form-urlencoded"

-- Not a header of the name Content-Type, in any letter case.
abbrev pub Untyped : Header → Type 0
Untyped h = same_letters (c_str h.name) (codes "Content-Type") ≡ false

-- A state in which a handler of `s` finds the client's request.
pub record Found (s : WebServer) (verb : ℕ) (payload : Option (List ℕ)) (c : HttpClient)
    (found : WebServer) : Type 0 where
  pub same_routes : found.routes ≡ s.routes
  pub same_not_found : found.not_found_handler ≡ s.not_found_handler
  pub method : found.current_method ≡ verb
  pub headers : found.current_headers ≡ sent_headers payload c
  pub body : found.current_body ≡ payload_bytes payload
  pub uri : (u : List ℕ) → Lacks b'?' c.path → IsEncoding u c.path → found.current_uri ≡ u
  pub form :
      (p : Param) (ps : List Param)
      → verb ≡ 2
      → Lacks b'?' c.path
      → All Untyped c.headers
      → IsForm (p ∷ ps) (payload_bytes payload)
      → found.current_params ≡ p ∷ ps

set_uri-plain :
    (path : List ℕ) (s : WebServer)
    → Lacks b'?' path
    → set_uri path s ≡ record s { current_uri = url_decode path }
unfolding set_uri
set_uri-plain path s h = rw (set_uri, find_byte-Lacks b'?' path h) refl

find_header-Untyped :
    (hs gs : List Header)
    → All Untyped hs
    → find_header (codes "Content-Type") (hs ++ gs) ≡ find_header (codes "Content-Type") gs
unfolding find_header
find_header-Untyped [] gs h = refl
find_header-Untyped (x ∷ hs) gs h = rw h.0 (find_header-Untyped hs gs h.1)

same_type : same_letters (c_str (codes "Content-Type")) (codes "Content-Type") ≡ true
unfolding same_letters c_str to_lower
same_type = refl

has_header-Untyped :
    (hs : List Header) → All Untyped hs → has_header (codes "Content-Type") hs ≡ false
unfolding has_header
has_header-Untyped [] h = refl
has_header-Untyped (x ∷ hs) h = elim (Bool-cases (str_eq x.name (codes "Content-Type"))) [
  | inl e ↦ absurd (
      cc (
        ap (λ n. same_letters (c_str n) (codes "Content-Type"))
            ((str_eq_iff x.name (codes "Content-Type")).0 e),
        h.0,
        same_type,
      ))
  | inr e ↦ rw e (has_header-Untyped hs h.1)
]

host-Untyped : (host : List ℕ) → Untyped (named (codes "Host") host)
unfolding same_letters c_str to_lower
host-Untyped host = refl

last_type :
    (n : List ℕ)
    → find_header (codes "Content-Type") (
        named (codes "Content-Length") n
        ∷ named (codes "Content-Type") form_type
        ∷ named (codes "Connection") (codes "close")
        ∷ [])
      ≡ form_type
unfolding find_header same_letters c_str to_lower
last_type n = refl

typed_form :
    (payload : List ℕ) (c : HttpClient)
    → All Untyped c.headers
    → find_header (codes "Content-Type") (sent_headers (some payload) c) ≡ form_type
typed_form payload c h =
    let close = named (codes "Connection") (codes "close") in
    let behind : Bool → List Header = λ b. payload_headers (some payload) b ++ close ∷ [] in
    find_header-Untyped (named (codes "Host") c.host ∷ c.headers)
      (behind (has_header (codes "Content-Type") c.headers)) (host-Untyped c.host, h)
    ∙ ap (λ b. find_header (codes "Content-Type") (behind b)) (has_header-Untyped c.headers h)
    ∙ last_type (to_string (length (c_str payload)))

is_form : is_some (find_str form_type form_type) ≡ true
unfolding find_str starts_with
is_form = refl

-- The form's parameters, where the content type and the method are those of a form.
set_form-IsForm :
    (s : WebServer) (p : Param) (ps : List Param)
    → s.current_method ≡ 2
    → find_header (codes "Content-Type") s.current_headers ≡ form_type
    → IsForm (p ∷ ps) s.current_body
    → (set_form s).current_params ≡ s.current_params ++ p ∷ ps
unfolding set_form header
set_form-IsForm s p ps post typed form =
    let some_body : ltb 0 (length s.current_body) ≡ true = ground (arith, length-IsForm form) in
    rw (set_form, post, some_body, typed, is_form)
      (ap (λ q. s.current_params ++ q) (parse_query_string-IsForm form))

-- All else is as before.
set_form-same :
    (s : WebServer)
    → ((set_form s).routes ≡ s.routes)
      × ((set_form s).not_found_handler ≡ s.not_found_handler)
      × ((set_form s).current_method ≡ s.current_method)
      × ((set_form s).current_headers ≡ s.current_headers)
      × ((set_form s).current_body ≡ s.current_body)
      × ((set_form s).current_uri ≡ s.current_uri)
unfolding set_form
set_form-same s = ground arith

set_uri-same :
    (path : List ℕ) (s : WebServer)
    → ((set_uri path s).routes ≡ s.routes)
      × ((set_uri path s).not_found_handler ≡ s.not_found_handler)
      × ((set_uri path s).current_method ≡ s.current_method)
unfolding set_uri
set_uri-same path s = elim (Option-cases (find_byte b'?' path)) [
  | inl missing ↦ rw (set_uri, missing) (refl, refl, refl)
  | inr (q, at) ↦ rw (set_uri, at) (refl, refl, refl)
]

typed_payload :
    (payload : Option (List ℕ)) (c : HttpClient) (p : Param) (ps : List Param)
    → All Untyped c.headers
    → IsForm (p ∷ ps) (payload_bytes payload)
    → find_header (codes "Content-Type") (sent_headers payload c) ≡ form_type
typed_payload none c p ps h form = absurd (omega (arith, length-IsForm form))
typed_payload (some payload) c p ps h form = typed_form payload c h

pub asked-Found :
    (m : List ℕ) (verb : ℕ) (payload : Option (List ℕ)) (c : HttpClient) (s : WebServer)
    → Numbered m verb
    → Found s verb payload c (asked m c.path (sent_headers payload c) (payload_bytes payload) s)
asked-Found m verb payload c s number =
    let start : WebServer = record (opened s) { current_method = parse_method m } in
    let before = set_uri c.path start in
    let full : WebServer = record before {
      current_headers = sent_headers payload c;
      current_body = payload_bytes payload;
    } in
    let (routes, other, method, headers, body, uri) = set_form-same full in
    let (routes', other', method') = set_uri-same c.path start in
    let verb_is : full.current_method ≡ verb = method' ∙ parse_method-Numbered m verb number in
    let plain : Lacks b'?' c.path → before ≡ record start { current_uri = url_decode c.path } =
      set_uri-plain c.path start in
    record {
      same_routes = routes ∙ routes';
      same_not_found = other ∙ other';
      method = method ∙ verb_is;
      headers = headers;
      body = body;
      uri = λ u h e. uri ∙ ap (λ w. w.current_uri) (plain h) ∙ url_decode-IsEncoding e;
      form = λ p ps post h untyped form.
          set_form-IsForm full p ps (verb_is ∙ post) (typed_payload payload c p ps untyped form)
            form
          ∙ ap (λ w. w.current_params ++ p ∷ ps) (plain h);
    }
