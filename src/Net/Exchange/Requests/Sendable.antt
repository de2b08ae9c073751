-- ===== src/Net/Exchange/Requests/Sendable.antt =====
-- What a client of src/httpclient.cpp can send: its start line and its headers are lines.
use esp32emu.Base.{
  ℕ, ◌<◌, ◌≡◌, refl, sym, ap, ◌≢◌, ◌⊎◌, inl, inr, Bool, true, false, Option, none, some, List, [],
  ◌∷◌, ◌++◌, arith, length, length-append, All, All-append,
}
use mathlib.Core.Path.{subst}
use esp32emu.Base.Strings.{codes, c_str, is_space, to_lower, to_string}
use esp32emu.Base.Strings.Search.{Lacks}
use esp32emu.Base.Strings.Numerals.{to_string-Lacks}
use esp32emu.Net.HttpClient.{HttpClient, payload_bytes, has_header}
use esp32emu.Net.Exchange.{IsLine}
use esp32emu.Net.Exchange.Headers.{IsHeader}
use esp32emu.Net.Exchange.Requests.Lines.{
  start_line, sent_headers, named, payload_headers, content_type,
}
use esp32emu.Net.Exchange.Requests.Words.{InWord, IsWord}
use esp32emu.Net.Exchange.Requests.Reading.{Framed}
use esp32emu.Net.Exchange.Requests.Announced.{Unframed, announced}

-- The methods that a client uses.
abbrev pub IsMethod : List ℕ → Type 0
IsMethod m = (m ≡ codes "GET") ⊎ (m ≡ codes "POST") ⊎ (m ≡ codes "PUT")

abbrev pub Begins : List ℕ → Type 0
Begins m = IsWord 15 m × (x : ℕ) × (t : List ℕ) × (m ≡ x ∷ t) × (to_lower x ≢ 99)

pub begins : (m : List ℕ) → IsMethod m → Begins m
unfolding is_space to_lower
begins m (inl e) = subst Begins (sym e) (
  (
    ((refl, omega arith), ((refl, omega arith), ((refl, omega arith), tt))),
    omega arith,
    omega arith,
  ),
  71,
  codes "ET",
  refl,
  omega arith,
)
begins m (inr (inl e)) = subst Begins (sym e) (
  (
    ((refl, omega arith), ((refl, omega arith), ((refl, omega arith), ((refl, omega arith), tt)))),
    omega arith,
    omega arith,
  ),
  80,
  codes "OST",
  refl,
  omega arith,
)
begins m (inr (inr e)) = subst Begins (sym e) (
  (
    ((refl, omega arith), ((refl, omega arith), ((refl, omega arith), tt))),
    omega arith,
    omega arith,
  ),
  80,
  codes "UT",
  refl,
  omega arith,
)

word-Lacks : (c : ℕ) (w : List ℕ) → is_space c ≡ true → All InWord w → Lacks c w
word-Lacks c [] h a = tt
word-Lacks c (x ∷ w) h a = ((λ e. cc (ap is_space e, h, a.0.0)), word-Lacks c w h a.1)

-- What the client was given: a path without spaces, headers that are lines, none of which is
-- Content-Length.
pub record IsSendable (c : HttpClient) : Type 0 where
  pub path : IsWord 1023 c.path
  pub host : IsHeader (named (codes "Host") c.host)
  pub headers : All IsHeader c.headers
  pub unframed : All Unframed c.headers

typed-IsHeader :
    (typed : Bool)
    → All IsHeader (content_type typed ++ named (codes "Connection") (codes "close") ∷ [])
typed-IsHeader true = omega arith
typed-IsHeader false = omega arith

payload-IsHeader :
    (payload : Option (List ℕ)) (typed : Bool)
    → All IsHeader
        (payload_headers payload typed ++ named (codes "Connection") (codes "close") ∷ [])
payload-IsHeader none typed = omega arith
payload-IsHeader (some payload) typed =
    let n = length (c_str payload) in
    (
      (
        omega arith,
        All-append (λ x. x ≢ 13) (codes "Content-Length: ") (to_string n) (omega arith)
            (to_string-Lacks 13 n (inl (omega arith))),
        All-append (λ x. x ≢ 10) (codes "Content-Length: ") (to_string n) (omega arith)
            (to_string-Lacks 10 n (inl (omega arith))),
      ),
      typed-IsHeader typed,
    )

pub sent_headers-IsHeader :
    (payload : Option (List ℕ)) (c : HttpClient)
    → IsSendable c
    → All IsHeader (sent_headers payload c)
sent_headers-IsHeader payload c h = (
  h.host,
  All-append IsHeader c.headers _ h.headers
      (payload-IsHeader payload (has_header (codes "Content-Type") c.headers)),
)

pub start_line-IsLine :
    (method path : List ℕ) → IsWord 15 method → IsWord 1023 path → IsLine (start_line method path)
unfolding is_space
start_line-IsLine method path m p = (
  omega (arith, length-append method (32 ∷ path ++ codes " HTTP/1.1")),
  lacks 13 refl (omega arith) (omega arith),
  lacks 10 refl (omega arith) (omega arith),
)
  where
    lacks :
        (c : ℕ)
        → is_space c ≡ true
        → 32 ≢ c
        → Lacks c (codes " HTTP/1.1")
        → Lacks c (start_line method path)
    lacks c h ne v =
        All-append (λ x. x ≢ c) method (32 ∷ path ++ codes " HTTP/1.1") (word-Lacks c method h m.0)
          (ne, All-append (λ x. x ≢ c) path (codes " HTTP/1.1") (word-Lacks c path h p.0) v)

pub host-Unframed : (host : List ℕ) → Unframed (named (codes "Host") host)
unfolding to_lower
host-Unframed host = (omega arith, λ e. ground arith)

pub announced-Framed :
    (payload : Option (List ℕ)) → Framed (announced payload) (payload_bytes payload)
announced-Framed none = inl refl
announced-Framed (some p) = inr refl

pub start_line_short :
    (method path : List ℕ)
    → IsWord 15 method
    → IsWord 1023 path
    → length (start_line method path) < 2048
start_line_short method path m p = omega (
  arith,
  length-append method (32 ∷ path ++ codes " HTTP/1.1"),
  length-append path (codes " HTTP/1.1"),
  m.2,
  p.2,
)
