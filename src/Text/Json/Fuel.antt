-- ===== src/Text/Json/Fuel.antt =====
-- The parsers of include/cJSON.h never run out of fuel.
use esp32emu.Base.{
  ℕ, zero, suc, ◌+◌, ◌*◌, ◌≤◌, ◌<◌, ◌≡◌, ◌≢◌, inl, inr, Option, some, List, [], ◌∷◌, arith, ◌==◌,
  length, length-drop, if◌then◌else◌, Bool-cases, Option-cases,
}
use mathlib.Core.Path.{subst}
use esp32emu.Text.Json.{
  Item, Items, Members, Parse, got, fault, no_fuel, ◌>>=◌, put, skip_ws, skip_colon, is_ws,
  parse_string, unescape, parse_word, parse_number, value_by, more_by, items_by, members_by,
  array_by, object_by, parse_value, parse_items, parse_members, parse, nil, end, string, array,
  object, add_item, add_member,
}

-- An outcome that is not for want of fuel, with at most `n` characters left.
abbrev pub Fits {ℓ} : {A : Type ℓ} → ℕ → Parse A → Type 0
Fits n (got a s) = length s ≤ n
Fits n fault = Unit {0}
Fits n no_fuel = ⊥

Fits-le {ℓ} : {A : Type ℓ} (n m : ℕ) (r : Parse A) → n ≤ m → Fits n r → Fits m r
Fits-le n m (got a s) h f = omega arith
Fits-le n m fault h f = tt
Fits-le n m no_fuel h f = f

Fits-bind {ℓ κ} :
    {A : Type ℓ} {B : Type κ} (n m : ℕ) (r : Parse A) (k : A → List ℕ → Parse B)
    → Fits n r
    → ((a : A) (s : List ℕ) → length s ≤ n → Fits m (k a s))
    → Fits m (r >>= k)
Fits-bind n m (got a s) k f h = h a s f
Fits-bind n m fault k f h = tt
Fits-bind n m no_fuel k f h = f

skip_ws-le : (s : List ℕ) → length (skip_ws s) ≤ length s
unfolding skip_ws
skip_ws-le [] = omega arith
skip_ws-le (c ∷ s) = elim (Bool-cases (is_ws c)) [
  | inl e ↦ rw e (omega (arith, skip_ws-le s))
  | inr e ↦ rw e (omega arith)
]

skip_colon-le : (s : List ℕ) → length (skip_colon s) ≤ length s
skip_colon-le [] = omega arith
skip_colon-le (c ∷ s) = ground arith

put-Fits : (n c : ℕ) (r : Parse (List ℕ)) → Fits n r → Fits n (put c r)
put-Fits n c r f = Fits-bind n n r (λ val s. got (c ∷ val) s) f (λ a s h. h)

parse_string-Fits : (s : List ℕ) → Fits (length s) (parse_string s)
unfolding parse_string
parse_string-Fits [] = omega arith
parse_string-Fits (c ∷ []) = ground arith
parse_string-Fits (c ∷ e ∷ s) =
    let n = length (c ∷ e ∷ s) in
    let one =
      Fits-le (length (e ∷ s)) n (parse_string (e ∷ s)) (omega arith) (parse_string-Fits (e ∷ s)) in
    let two = Fits-le (length s) n (parse_string s) (omega arith) (parse_string-Fits s) in
    ground
      (arith, put-Fits n c (parse_string (e ∷ s)) one, put-Fits n (unescape e) (parse_string s) two)

-- A reader of numbers gives no longer text back.
abbrev pub Reads : {N : Type 0} → (List ℕ → Option (N × List ℕ)) → Type 0
Reads {N} strtod =
    (s : List ℕ) (n : N) (rest : List ℕ) → strtod s ≡ some (n, rest) → length rest ≤ length s

module _ {N : Type 0} (strtod : List ℕ → Option (N × List ℕ)) (reads : Reads strtod) where
  parse_number-Fits : (s : List ℕ) → Fits (length s) (parse_number strtod s)
  parse_number-Fits s = elim (Option-cases (strtod s)) [
    | inl e ↦ rw (parse_number, e) (omega arith)
    | inr (r, e) ↦ rw (parse_number, e) (reads s r.0 r.1 e)
  ]

  parse_word-Fits : (s : List ℕ) → Fits (length s) (parse_word strtod s)
  parse_word-Fits s = ground (arith, length-drop 4 s, length-drop 5 s)

  more_by-Fits {ℓ} :
      {A : Type ℓ} (close : ℕ) (left : A) (go : List ℕ → Parse A) (n : ℕ) (s : List ℕ)
      → length s ≤ n
      → ((t : List ℕ) → length t < length s → Fits n (go t))
      → Fits n (more_by strtod close left go s)
  unfolding more_by
  more_by-Fits close left go n [] h k = h
  more_by-Fits close left go n (c ∷ s) h k = let next = k s (omega arith) in ground (arith, next)

  -- The parsers behind a bracket and a brace are called with less text.
  value_by-Fits :
      (object_at array_at : List ℕ → Parse (Option (Item N))) (s : List ℕ)
      → ((t : List ℕ) → length t < length s → Fits (length t) (object_at t))
      → ((t : List ℕ) → length t < length s → Fits (length t) (array_at t))
      → Fits (length s) (value_by strtod object_at array_at s)
  unfolding value_by
  value_by-Fits object_at array_at [] o a = omega arith
  value_by-Fits object_at array_at (c ∷ s) o a =
      let n = length (c ∷ s) in
      let text =
        Fits-bind {B = Option (Item N)} (length s) n (parse_string s)
          (λ val rest. got (some (string val)) rest) (parse_string-Fits s) (λ v r h. omega arith) in
      let brace = Fits-le (length s) n (object_at s) (omega arith) (o s (omega arith)) in
      let bracket = Fits-le (length s) n (array_at s) (omega arith) (a s (omega arith)) in
      ground (arith, text, brace, bracket, parse_number-Fits (c ∷ s), parse_word-Fits (c ∷ s))

  items_by-Fits :
      (value_at : List ℕ → Parse (Option (Item N))) (items_at : List ℕ → Parse (Items N))
      (s : List ℕ)
      → ((t : List ℕ) → length t ≤ length s → Fits (length t) (value_at t))
      → ((t : List ℕ) → length t < length s → Fits (length t) (items_at t))
      → Fits (length s) (items_by strtod value_at items_at s)
  unfolding items_by
  items_by-Fits value_at items_at [] v i = omega arith
  items_by-Fits value_at items_at (c ∷ s) v i =
      let n = length (c ∷ s) in
      let start = skip_ws-le (c ∷ s) in
      Fits-bind n n (value_at (skip_ws (c ∷ s)))
        (λ x rest.
          more_by strtod b']' (add_item x nil) (λ t. items_at t >>= λ vs u. got (add_item x vs) u)
            (skip_ws rest))
        (Fits-le _ n (value_at (skip_ws (c ∷ s))) start (v (skip_ws (c ∷ s)) start))
        (λ x rest h.
          more_by-Fits b']' (add_item x nil) (λ t. items_at t >>= λ vs u. got (add_item x vs) u) n
            (skip_ws rest) (omega (arith, skip_ws-le rest, h))
            (λ t k.
              let less : length t < n = omega (arith, skip_ws-le rest, h, k) in
              Fits-bind (length t) n (items_at t) (λ vs u. got (add_item x vs) u) (i t less)
                (λ vs u m. omega arith)))

  members_by-Fits :
      (value_at : List ℕ → Parse (Option (Item N))) (members_at : List ℕ → Parse (Members N))
      (s : List ℕ)
      → ((t : List ℕ) → length t ≤ length s → Fits (length t) (value_at t))
      → ((t : List ℕ) → length t < length s → Fits (length t) (members_at t))
      → Fits (length s) (members_by strtod value_at members_at s)
  unfolding members_by
  members_by-Fits value_at members_at s v i = at_word (skip_ws s) (skip_ws-le s)
    where
      behind_key :
          (k rest : List ℕ)
          → length rest < length s
          → Fits (length s) (
              value_at (skip_ws (skip_colon (skip_ws rest))) >>= λ x rest.
              more_by strtod b'}'
                (add_member k x end)
                (λ u. members_at u >>= λ ms w. got (add_member k x ms) w)
                (skip_ws rest))
      behind_key k rest less =
          let t = skip_ws (skip_colon (skip_ws rest)) in
          let shorter : length t ≤ length s = omega (
            arith,
            skip_ws-le (skip_colon (skip_ws rest)),
            skip_colon-le (skip_ws rest),
            skip_ws-le rest,
            less,
          ) in
          Fits-bind (length s) (length s) (value_at t) _
            (Fits-le (length t) (length s) (value_at t) shorter (v t shorter))
            (λ x r h.
              more_by-Fits b'}' (add_member k x end)
                (λ u. members_at u >>= λ ms w. got (add_member k x ms) w) (length s) (skip_ws r)
                (omega (arith, skip_ws-le r, h))
                (λ u m.
                  let fewer : length u < length s = omega (arith, skip_ws-le r, h, m) in
                  Fits-bind (length u) (length s) (members_at u) (λ ms w. got (add_member k x ms) w)
                    (i u fewer) (λ ms w l. omega arith)))

      at_word :
          (w : List ℕ)
          → length w ≤ length s
          → Fits (length s) (elim w as (λ _. Parse (Members N)) [
            | [] ↦ got end []
            | c ∷ t ↦
                if c == b'"'
                then (parse_string t >>= λ k rest.
                    value_at (skip_ws (skip_colon (skip_ws rest))) >>= λ x rest.
                    more_by strtod b'}'
                      (add_member k x end)
                      (λ u. members_at u >>= λ ms w. got (add_member k x ms) w)
                      (skip_ws rest))
                else got end (c ∷ t)
          ])
      at_word [] h = omega arith
      at_word (c ∷ t) h = elim (Bool-cases (c == b'"')) [
        | inl e ↦ rw e (
            Fits-bind (length t) (length s) (parse_string t) _ (parse_string-Fits t)
              (λ k rest m. behind_key k rest (omega (arith, m, h))))
        | inr e ↦ rw e h
      ]

  array_by-Fits :
      (items_at : List ℕ → Parse (Items N)) (s : List ℕ)
      → Fits (length s) (items_at s)
      → Fits (length s) (array_by strtod items_at s)
  unfolding array_by
  array_by-Fits items_at [] f =
      Fits-bind 0 0 (items_at []) (λ vs u. got (some (array vs)) u) f (λ vs u h. h)
  array_by-Fits items_at (c ∷ s) f =
      let n = length (c ∷ s) in
      let all =
        Fits-bind {B = Option (Item N)} n n (items_at (c ∷ s)) (λ vs u. got (some (array vs)) u) f
          (λ vs u h. h) in
      ground (arith, all)

  object_by-Fits :
      (members_at : List ℕ → Parse (Members N)) (s : List ℕ)
      → Fits (length s) (members_at s)
      → Fits (length s) (object_by strtod members_at s)
  unfolding object_by
  object_by-Fits members_at [] f =
      Fits-bind 0 0 (members_at []) (λ ms u. got (some (object ms)) u) f (λ ms u h. h)
  object_by-Fits members_at (c ∷ s) f =
      let n = length (c ∷ s) in
      let all =
        Fits-bind {B = Option (Item N)} n n (members_at (c ∷ s)) (λ ms u. got (some (object ms)) u)
          f (λ ms u h. h) in
      ground (arith, all)

  mutual
    unfolding parse_value

    parse_value-Fits :
        (f : ℕ) (s : List ℕ) → 2 * length s + 1 ≤ f → Fits (length s) (parse_value strtod f s)
    parse_value-Fits zero s h = absurd (omega arith)
    parse_value-Fits (suc f) s h =
        let w = skip_ws s in
        let short = skip_ws-le s in
        Fits-le (length w) (length s) (parse_value strtod (suc f) s) short (
          value_by-Fits (λ t. object_by strtod (λ u. parse_members strtod f u) (skip_ws t))
            (λ t. array_by strtod (λ u. parse_items strtod f u) (skip_ws t)) w
            (λ t k. Fits-le (length (skip_ws t)) (length t) _ (skip_ws-le t) (
              object_by-Fits (λ u. parse_members strtod f u) (skip_ws t)
                (parse_members-Fits f (skip_ws t) (omega (arith, skip_ws-le t, k, short, h)))))
            (λ t k. Fits-le (length (skip_ws t)) (length t) _ (skip_ws-le t) (
              array_by-Fits (λ u. parse_items strtod f u) (skip_ws t)
                (parse_items-Fits f (skip_ws t) (omega (arith, skip_ws-le t, k, short, h))))))

    parse_items-Fits :
        (f : ℕ) (s : List ℕ) → 2 * length s + 2 ≤ f → Fits (length s) (parse_items strtod f s)
    parse_items-Fits zero s h = absurd (omega arith)
    parse_items-Fits (suc f) s h =
        items_by-Fits (λ u. parse_value strtod f u) (λ u. parse_items strtod f u) s
          (λ t k. parse_value-Fits f t (omega arith)) (λ t k. parse_items-Fits f t (omega arith))

    parse_members-Fits :
        (f : ℕ) (s : List ℕ) → 2 * length s + 2 ≤ f → Fits (length s) (parse_members strtod f s)
    parse_members-Fits zero s h = absurd (omega arith)
    parse_members-Fits (suc f) s h =
        members_by-Fits (λ u. parse_value strtod f u) (λ u. parse_members strtod f u) s
          (λ t k. parse_value-Fits f t (omega arith)) (λ t k. parse_members-Fits f t (omega arith))

  -- Parsing a text, any text, is never short of fuel, if a number is read from a text with no longer text
  -- behind it.
  pub parse_ends : (s : List ℕ) → parse strtod s ≢ no_fuel
  unfolding parse
  parse_ends s e = subst (Fits (length s)) e (parse_value-Fits (suc (2 * length s)) s (omega arith))
