-- ===== src/Net/HttpClient/Addresses.antt =====
-- `begin`: a URL taken apart.
use esp32emu.Base.{
  ℕ, ◌<◌, ◌≡◌, refl, sym, ap, ap₂, ◌∙◌, ◌≢◌, inl, Bool, true, false, Option, none, some, List, [],
  ◌∷◌, ◌++◌, arith, ltb, if◌then◌else◌, length, take-append, drop-append, All-append, append-nil,
}
use esp32emu.Base.Strings.{codes, strtol, to_string, starts_with}
use esp32emu.Base.Strings.Search.{Lacks, find_byte-append, find_byte-Lacks, drop-add_append}
use esp32emu.Base.Strings.Numerals.{strtol-to_string, Stops-nil, to_string-Lacks}
use esp32emu.Net.HttpClient.{HttpClient, begin, parse_host, parse_scheme, split_host, parse_port}

-- The text of a URL: `http://` or `https://`, a host, a port if one is given, and a path.
abbrev pub port_text : Option ℕ → List ℕ
port_text none = []
port_text (some p) = b':' ∷ to_string p

pub url_text : Bool → List ℕ → Option ℕ → List ℕ → List ℕ
url_text is_https host port path =
    (if is_https then codes "https://" else codes "http://") ++ ((host ++ port_text port) ++ path)

abbrev pub port_or : Bool → Option ℕ → ℕ
port_or is_https none = if is_https then 443 else 80
port_or is_https (some p) = p

abbrev pub IsPort : Option ℕ → Type 0
IsPort none = Unit {0}
IsPort (some p) = (0 < p) × (p < 65536)

parse_scheme_lem :
    (is_https : Bool) (u : List ℕ)
    → parse_scheme ((if is_https then codes "https://" else codes "http://") ++ u)
      ≡ some (is_https, u)
unfolding parse_scheme starts_with
parse_scheme_lem true u = refl
parse_scheme_lem false u = refl

split_host_lem : (h p : List ℕ) → Lacks b'/' h → split_host (h ++ b'/' ∷ p) ≡ (h, b'/' ∷ p)
unfolding split_host
split_host_lem h p lacks =
    rw (split_host, find_byte-append b'/' h p lacks)
      (ap₂ (λ (x y : List ℕ). (x, y)) (take-append h (b'/' ∷ p)) (drop-append h (b'/' ∷ p)))

parse_port-to_string : (p : ℕ) → 0 < p → p < 65536 → parse_port (to_string p) ≡ some p
unfolding parse_port
parse_port-to_string p pos small =
    let e =
      ap (strtol 10) (sym (append-nil (to_string p)))
      ∙ strtol-to_string p [] (omega arith) Stops-nil in
    rw (parse_port, e) (ground arith)

port_text-Lacks : (o : Option ℕ) → Lacks b'/' (port_text o)
port_text-Lacks none = tt
port_text-Lacks (some p) = (omega arith, to_string-Lacks b'/' p (inl (omega arith)))

lt-ltb-length : (h : List ℕ) → 0 < length h → ltb 0 (length h) ≡ true
lt-ltb-length h pos = ground arith

parse_host-plain :
    (host : List ℕ) (c : HttpClient)
    → Lacks b':' host
    → 0 < length host
    → parse_host host c ≡ (c, true)
unfolding parse_host
parse_host-plain host c lacks pos =
    rw (parse_host, find_byte-Lacks b':' host lacks, lt-ltb-length host pos)

parse_host-port :
    (host : List ℕ) (p : ℕ) (c : HttpClient)
    → Lacks b':' host
    → 0 < length host
    → (0 < p) × (p < 65536)
    → parse_host (host ++ b':' ∷ to_string p) c ≡ (record c { port = p; host = host }, true)
unfolding parse_host
parse_host-port host p c lacks pos h =
    let e =
      ap parse_port (drop-add_append host 1 (b':' ∷ to_string p))
      ∙ parse_port-to_string p h.0 h.1 in
    rw (
      parse_host,
      find_byte-append b':' host (to_string p) lacks,
      e,
      take-append host (b':' ∷ to_string p),
      lt-ltb-length host pos,
    )

parse_host_lem :
    (host : List ℕ) (o : Option ℕ) (c : HttpClient) (is_https : Bool)
    → Lacks b':' host
    → 0 < length host
    → IsPort o
    → parse_host
        (host ++ port_text o)
        (record c { port = port_or is_https none; host = host ++ port_text o })
      ≡ (record c { port = port_or is_https o; host = host }, true)
parse_host_lem host none c is_https lacks pos ok =
    let e = append-nil host in
    ap (λ t. parse_host t (record c { port = port_or is_https none; host = t })) e
    ∙ parse_host-plain host (record c { port = port_or is_https none; host = host }) lacks pos
parse_host_lem host (some p) c is_https lacks pos ok =
    parse_host-port host p
      (record c { port = port_or is_https none; host = host ++ port_text (some p) }) lacks pos ok

-- A URL of a scheme, a host that is not empty and holds no `/` and no `:`, a port between 1 and 65535 or none, and
-- a path that begins with a slash is taken apart into just these, with the port 443 or 80 by the scheme where none
-- is given; the headers and the body of an earlier request are gone.
pub begin-url_text :
    (is_https : Bool) (host : List ℕ) (port : Option ℕ) (path : List ℕ) (c : HttpClient)
    → Lacks b'/' host
    → Lacks b':' host
    → 0 < length host
    → IsPort port
    → begin (url_text is_https host port (b'/' ∷ path)) c ≡ (
      record {
        host = host;
        port = port_or is_https port;
        path = b'/' ∷ path;
        headers = [];
        response_body = [];
      },
      true,
    )
unfolding begin url_text
begin-url_text is_https host port path c slash colon nonempty ok =
    let lacks = All-append (λ x. x ≢ b'/') host (port_text port) slash (port_text-Lacks port) in
    rw
      (
        begin,
        parse_scheme_lem is_https ((host ++ port_text port) ++ b'/' ∷ path),
        split_host_lem (host ++ port_text port) path lacks,
      )
      (parse_host_lem host port (record c { path = b'/' ∷ path; headers = []; response_body = [] })
        is_https colon nonempty ok)
