-- ===== src/Net/Web/Receiving.antt =====
-- The receiving loop of `processClient`: how the network splits a request does not matter.
use mathlib.Core.Path.{subst}
use esp32emu.Base.{
  ℕ, zero, suc, ◌+◌, ◌≤◌, ◌<◌, ◌≡◌, refl, sym, ap, ◌∙◌, inl, inr, Bool, true, false, Option, none,
  some, List, [], ◌∷◌, ◌++◌, append-nil, append_assoc, arith, length, take, length-append, All,
  Option-cases,
}
use esp32emu.Base.Strings.{find_str}
use esp32emu.Base.Strings.Search.{find_str_longer, find_str_behind, find_str_fits}
use esp32emu.Net.Web.{WebServer}
use esp32emu.Net.Web.Request.{
  Received, blank_line, is_complete, take_in, receive, nothing_received, parse_content_length,
  process_client, process_received,
}

abbrev pub flatten : List (List ℕ) → List ℕ
flatten [] = []
flatten (c ∷ cs) = c ++ flatten cs

-- What the loop knows of the bytes that have arrived.
pub arrived : List ℕ → Received
arrived a = elim (find_str blank_line a) [
  | none ↦ record { req = a; header_end = none; content_length = none }
  | some e ↦ record {
    req = a;
    header_end = some e;
    content_length = parse_content_length (take e a);
  }
]

arrived-none :
    (a : List ℕ)
    → find_str blank_line a ≡ none
    → arrived a ≡ record { req = a; header_end = none; content_length = none }
unfolding arrived
arrived-none a h = rw (arrived, h)

pub arrived-some :
    (a : List ℕ) (e : ℕ)
    → find_str blank_line a ≡ some e
    → arrived a
      ≡ record { req = a; header_end = some e; content_length = parse_content_length (take e a) }
unfolding arrived
arrived-some a e h = rw (arrived, h)

take_prefix {ℓ} : {A : Type ℓ} (e : ℕ) (a b : List A) → e ≤ length a → take e (a ++ b) ≡ take e a
take_prefix zero a b h = refl
take_prefix (suc e) [] b h = absurd (omega arith)
take_prefix (suc e) (x ∷ a) b h = ap (◌∷◌ x) (take_prefix e a b (omega arith))

take_in_missing :
    (a c : List ℕ)
    → take_in (record { req = a; header_end = none; content_length = none }) c ≡ arrived (a ++ c)
unfolding take_in arrived
take_in_missing a c = refl

take_in-arrived : (a c : List ℕ) → take_in (arrived a) c ≡ arrived (a ++ c)
unfolding take_in
take_in-arrived a c = elim (Option-cases (find_str blank_line a)) [
  | inl missing ↦ ap (λ r. take_in r c) (arrived-none a missing) ∙ take_in_missing a c
  | inr (e, at) ↦
      let longer = find_str_longer 13 (10 ∷ 13 ∷ 10 ∷ []) a c e at in
      let fits = find_str_fits blank_line a e at in
      ap (λ r. take_in r c) (arrived-some a e at)
      ∙ ap
          (λ t. record {
            req = a ++ c;
            header_end = some e;
            content_length = parse_content_length t;
          })
          (sym (take_prefix e a c (omega arith)))
      ∙ sym (arrived-some (a ++ c) e longer)
]

-- A body is no longer than announced; without an announced length it goes on until the client closes.
abbrev pub BodyFits : ℕ → ℕ → Option ℕ → Type 0
BodyFits total e none = Unit {0}
BodyFits total e (some n) = total ≤ e + 4 + n

-- A request whose header ends at `e`, within the limit, and whose body is no longer than announced.
pub record IsWhole (msg : List ℕ) (e : ℕ) : Type 0 where
  pub header : find_str blank_line msg ≡ some e
  pub limit : e + 3 ≤ 65536
  pub body : BodyFits (length msg) e (parse_content_length (take e msg))

is_complete_short :
    (a : List ℕ) (total e : ℕ) (o : Option ℕ)
    → BodyFits total e o
    → e + 4 ≤ length a
    → length a < total
    → is_complete (record { req = a; header_end = some e; content_length = o }) ≡ false
unfolding is_complete
is_complete_short a total e none b h k = refl
is_complete_short a total e (some n) b h k = ground arith

is_complete_missing :
    (a : List ℕ)
    → length a ≤ 65536
    → is_complete (record { req = a; header_end = none; content_length = none }) ≡ false
unfolding is_complete
is_complete_missing a h = ground arith

-- A part of it is not complete.
is_complete-arrived :
    (a b : List ℕ) (e : ℕ)
    → IsWhole (a ++ b) e
    → length a < length (a ++ b)
    → is_complete (arrived a) ≡ false
is_complete-arrived a b e w shorter = elim (Option-cases (find_str blank_line a)) [
  | inl missing ↦
      let behind = find_str_behind 13 (10 ∷ 13 ∷ 10 ∷ []) a b e missing w.header in
      let limit = w.limit in
      ap is_complete (arrived-none a missing) ∙ is_complete_missing a (omega arith)
  | inr (k, at) ↦
      let longer = find_str_longer 13 (10 ∷ 13 ∷ 10 ∷ []) a b k at in
      let fits = find_str_fits blank_line a k at in
      let same : e ≡ k = cc (w.header, longer) in
      let body =
        subst (λ t. BodyFits (length (a ++ b)) k (parse_content_length t))
          (take_prefix k a b (omega arith))
          (subst (λ t. BodyFits (length (a ++ b)) t (parse_content_length (take t (a ++ b)))) same
            w.body) in
      ap is_complete (arrived-some a k at)
      ∙ is_complete_short a (length (a ++ b)) k (parse_content_length (take k a)) body (omega arith)
          shorter
]

length-flatten_cons :
    (a c : List ℕ) (cs : List (List ℕ)) → 0 < length c → length a < length (a ++ (c ++ flatten cs))
length-flatten_cons a c cs h =
    omega (arith, length-append a (c ++ flatten cs), length-append c (flatten cs))

receive_from :
    (cs : List (List ℕ)) (a : List ℕ) (e : ℕ)
    → All (λ c. 0 < length c) cs
    → IsWhole (a ++ flatten cs) e
    → receive cs (arrived a) ≡ arrived (a ++ flatten cs)
unfolding receive
receive_from [] a e h w = ap arrived (sym (append-nil a))
receive_from (c ∷ cs) a e h w =
    let more = is_complete-arrived a (c ++ flatten cs) e w (length-flatten_cons a c cs h.0) in
    let assoc = append_assoc a c (flatten cs) in
    ap
      (λ (b : Bool). elim b as (λ _. Received) [
        | true ↦ arrived a
        | false ↦ receive cs (take_in (arrived a) c)
      ])
      more
    ∙ ap (receive cs) (take_in-arrived a c)
    ∙ receive_from cs (a ++ c) e h.1 (subst (λ t. IsWhole t e) (sym assoc) w)
    ∙ ap arrived assoc

arrived-nil : arrived [] ≡ nothing_received
unfolding arrived find_str
arrived-nil = refl

pub receive-flatten :
    (cs : List (List ℕ)) (e : ℕ)
    → All (λ c. 0 < length c) cs
    → IsWhole (flatten cs) e
    → receive cs nothing_received ≡ arrived (flatten cs)
receive-flatten cs e h w = ap (receive cs) (sym arrived-nil) ∙ receive_from cs [] e h w

process_client-receive :
    (run : ℕ → WebServer → WebServer) (cs ds : List (List ℕ)) (s : WebServer)
    → receive cs nothing_received ≡ receive ds nothing_received
    → process_client run cs s ≡ process_client run ds s
unfolding process_client
process_client-receive run cs ds s h = ap (λ r. process_received run r s) h

nonempty : (m : List ℕ) (e : ℕ) → find_str blank_line m ≡ some e → 0 < length m
nonempty m e f = omega (arith, find_str_fits blank_line m e f)

-- However the network splits a request into chunks, none of them empty, the server does with it what
-- it does with the request in one piece, when the request has a complete header of at most 64 KiB and
-- no more body than it announces: the same parameters, headers and body, the same handler, the same
-- response.
pub process_client-flatten :
    (run : ℕ → WebServer → WebServer) (chunks : List (List ℕ)) (e : ℕ) (s : WebServer)
    → All (λ c. 0 < length c) chunks
    → IsWhole (flatten chunks) e
    → process_client run chunks s ≡ process_client run (flatten chunks ∷ []) s
process_client-flatten run chunks e s h w =
    let whole = append-nil (flatten chunks) in
    process_client-receive run chunks (flatten chunks ∷ []) s (
      receive-flatten chunks e h w
      ∙ ap arrived (sym whole)
      ∙ sym (
          receive-flatten (flatten chunks ∷ []) e (nonempty (flatten chunks) e w.header, tt)
            (subst (λ t. IsWhole t e) (sym whole) w)))
