-- ===== src/Text/Json/Steps.antt =====
-- The parsers one step at a time, on printed values.
use esp32emu.Base.{
  ℕ, suc, ◌+◌, ◌≤◌, ◌≡◌, ◌≢◌, refl, sym, ap, ◌∙◌, ◌⊎◌, inl, inr, Bool, true, false, ◌||◌, ◌&&◌,
  Option, none, some, List, [], ◌∷◌, ◌++◌, append_assoc, arith, leb, ◌==◌,
}
use esp32emu.Text.Json.{
  Item, Items, Members, nil, cons, end, member, null, boolean, number, string, array, object, Parse,
  got, ◌>>=◌, new_line, skip_ws, is_ws, parse_string, print_item, after_key, value_by, more_by,
  items_by, members_by, array_by, object_by, parse_value, parse_items, parse_members, add_item,
  add_member, skip_colon,
}
use esp32emu.Text.Json.Blanks.{
  skip_ws-new_line, skip_ws-after_key, skip_ws-cons, IsPlain, parse_string-append, Ends,
}

-- The characters that a number begins with.
abbrev pub IsNumeral : ℕ → Type 0
IsNumeral c = (c ≡ b'-') ⊎ ((48 ≤ c) × (c ≤ 57))

-- Numbers that are read back from what is printed for them, when the text ends there or goes on as a printed text may.
pub record IsExact {N : Type 0} (show : N → List ℕ) (strtod : List ℕ → Option (N × List ℕ)) (n : N)
    : Type 0 where
  pub first : ℕ
  pub others : List ℕ
  pub begins : show n ≡ first ∷ others
  pub numeral : IsNumeral first
  pub read : (r : List ℕ) → Ends r → strtod (show n ++ r) ≡ some (n, r)

module _ {N : Type 0} (show : N → List ℕ) (strtod : List ℕ → Option (N × List ℕ)) where
  -- A tree of exact numbers and of strings and keys that need no escape.
  abbrev mutual
    pub Printable : Item N → Type 0
    Printable null = Unit {0}
    Printable (boolean b) = Unit {0}
    Printable (number n) = IsExact show strtod n
    Printable (string s) = IsPlain s
    Printable (array vs) = PrintableItems vs
    Printable (object ms) = PrintableMembers ms

    pub PrintableItems : Items N → Type 0
    PrintableItems nil = Unit {0}
    PrintableItems (cons v vs) = Printable v × PrintableItems vs

    pub PrintableMembers : Members N → Type 0
    PrintableMembers end = Unit {0}
    PrintableMembers (member k v ms) = IsPlain k × Printable v × PrintableMembers ms

  abbrev mutual
    pub size : Item N → ℕ
    size null = 1
    size (boolean b) = 1
    size (number n) = 1
    size (string s) = 1
    size (array vs) = suc (sizes vs)
    size (object ms) = suc (member_sizes ms)

    pub sizes : Items N → ℕ
    sizes nil = 0
    sizes (cons v vs) = suc (size v + sizes vs)

    pub member_sizes : Members N → ℕ
    member_sizes end = 0
    member_sizes (member k v ms) = suc (size v + member_sizes ms)

  IsNumeral-tests :
      (c : ℕ)
      → IsNumeral c
      → (is_ws c ≡ false)
        × ((c == b'"') ≡ false)
        × ((c == b'{') ≡ false)
        × ((c == b'[') ≡ false)
        × ((c == b'-' || (leb b'0' c && leb c b'9')) ≡ true)
  IsNumeral-tests c h = ground arith

  -- A printed value begins with a character that is no white space.
  pub print_item-cons :
      (fmt : Bool) (d : ℕ) (v : Item N)
      → Printable v
      → (c : ℕ) × (t : List ℕ) × (is_ws c ≡ false) × (c ≢ b']') × (print_item show fmt d v ≡ c ∷ t)
  unfolding print_item
  print_item-cons fmt d null h = (_, _, refl, omega arith, refl)
  print_item-cons fmt d (boolean true) h = (_, _, refl, omega arith, refl)
  print_item-cons fmt d (boolean false) h = (_, _, refl, omega arith, refl)
  print_item-cons fmt d (number n) h = (
    h.first,
    h.others,
    (IsNumeral-tests h.first h.numeral).0,
    ground (arith, h.numeral),
    h.begins,
  )
  print_item-cons fmt d (string s) h = (_, _, refl, omega arith, refl)
  print_item-cons fmt d (array nil) h = (_, _, refl, omega arith, refl)
  print_item-cons fmt d (array (cons v vs)) h = (_, _, refl, omega arith, refl)
  print_item-cons fmt d (object end) h = (_, _, refl, omega arith, refl)
  print_item-cons fmt d (object (member k v ms)) h = (_, _, refl, omega arith, refl)

  -- White space in front of a printed value, and what follows it.
  pub skip_to :
      (fmt : Bool) (d e : ℕ) (v : Item N) (p z : List ℕ)
      → Printable v
      → skip_ws ((new_line fmt e ++ (print_item show fmt d v ++ p)) ++ z)
        ≡ print_item show fmt d v ++ (p ++ z)
  skip_to fmt d e v p z h =
      let (c, t, blank, ne, begins) = print_item-cons fmt d v h in
      ap skip_ws (
        append_assoc (new_line fmt e) (print_item show fmt d v ++ p) z
        ∙ ap (λ x. new_line fmt e ++ x) (append_assoc (print_item show fmt d v) p z))
      ∙ skip_ws-new_line fmt e (print_item show fmt d v ++ (p ++ z))
      ∙ ap (λ x. skip_ws (x ++ (p ++ z))) begins
      ∙ skip_ws-cons c (t ++ (p ++ z)) blank
      ∙ ap (λ x. x ++ (p ++ z)) (sym begins)

  items_by_step :
      (value_at : List ℕ → Parse (Option (Item N))) (items_at : List ℕ → Parse (Items N))
      (s : List ℕ) (c : ℕ) (t : List ℕ)
      → skip_ws s ≡ c ∷ t
      → items_by strtod value_at items_at s ≡ (
          value_at (c ∷ t) >>= λ v rest.
          more_by strtod b']'
            (add_item v nil)
            (λ u. items_at u >>= λ vs w. got (add_item v vs) w)
            (skip_ws rest))
  unfolding items_by skip_ws
  items_by_step value_at items_at [] c t h = cc
  items_by_step value_at items_at (x ∷ s) c t h =
      ap
        (λ u. value_at u >>= λ v rest.
          more_by strtod b']' (add_item v nil) (λ u. items_at u >>= λ vs w. got (add_item v vs) w)
            (skip_ws rest))
        h

  pub items_of :
      (f : ℕ) (s : List ℕ) (fmt : Bool) (d : ℕ) (v : Item N) (r : List ℕ)
      → Printable v
      → skip_ws s ≡ print_item show fmt d v ++ r
      → parse_value strtod f (print_item show fmt d v ++ r) ≡ got (some v) r
      → parse_items strtod (suc f) s
        ≡ more_by strtod b']'
            (cons v nil)
            (λ u. parse_items strtod f u >>= λ vs w. got (cons v vs) w)
            (skip_ws r)
  unfolding parse_items
  items_of f s fmt d v r h e read =
      let (c, t, blank, ne, begins) = print_item-cons fmt d v h in
      let whole = ap (λ x. x ++ r) begins in
      items_by_step (λ u. parse_value strtod f u) (λ u. parse_items strtod f u) s c (t ++ r)
        (e ∙ whole)
      ∙ ap
          (λ p. p >>= λ v rest.
            more_by strtod b']' (add_item v nil)
              (λ u. parse_items strtod f u >>= λ vs w. got (add_item v vs) w) (skip_ws rest))
          (ap (parse_value strtod f) (sym whole) ∙ read)

  members_by_step :
      (value_at : List ℕ → Parse (Option (Item N))) (members_at : List ℕ → Parse (Members N))
      (s : List ℕ) (k r : List ℕ)
      → IsPlain k
      → skip_ws s ≡ b'"' ∷ (k ++ b'"' ∷ b':' ∷ r)
      → members_by strtod value_at members_at s ≡ (
          value_at (skip_ws r) >>= λ v rest.
          more_by strtod b'}'
            (add_member k v end)
            (λ u. members_at u >>= λ ms w. got (add_member k v ms) w)
            (skip_ws rest))
  unfolding members_by
  members_by_step value_at members_at s k r h e =
      let colon = ap skip_colon (skip_ws-cons b':' r refl) in
      rw (members_by, e, parse_string-append k (b':' ∷ r) h)
        (ap
          (λ u. value_at (skip_ws u) >>= λ v rest.
            more_by strtod b'}' (add_member k v end)
              (λ u. members_at u >>= λ ms w. got (add_member k v ms) w) (skip_ws rest))
          colon)

  pub members_of :
      (f : ℕ) (s : List ℕ) (fmt : Bool) (d : ℕ) (k : List ℕ) (v : Item N) (r : List ℕ)
      → IsPlain k
      → Printable v
      → skip_ws s ≡ b'"' ∷ (k ++ b'"' ∷ b':' ∷ (after_key fmt ++ (print_item show fmt d v ++ r)))
      → parse_value strtod f (print_item show fmt d v ++ r) ≡ got (some v) r
      → parse_members strtod (suc f) s
        ≡ more_by strtod b'}'
            (member k v end)
            (λ u. parse_members strtod f u >>= λ ms w. got (member k v ms) w)
            (skip_ws r)
  unfolding parse_members
  members_of f s fmt d k v r plain h e read =
      let (c, t, blank, ne, begins) = print_item-cons fmt d v h in
      let whole = ap (λ x. x ++ r) begins in
      let skipped =
        skip_ws-after_key fmt (print_item show fmt d v ++ r)
        ∙ ap skip_ws whole
        ∙ skip_ws-cons c (t ++ r) blank
        ∙ sym whole in
      members_by_step (λ u. parse_value strtod f u) (λ u. parse_members strtod f u) s k
        (after_key fmt ++ (print_item show fmt d v ++ r)) plain e
      ∙ ap
          (λ p. p >>= λ v rest.
            more_by strtod b'}' (add_member k v end)
              (λ u. parse_members strtod f u >>= λ ms w. got (add_member k v ms) w) (skip_ws rest))
          (ap (parse_value strtod f) skipped ∙ read)

  -- The end of an array and of an object.
  pub more_by-close :
      (c : ℕ) {A : Type 0} (x : A) (go_on : List ℕ → Parse A) (fmt : Bool) (d : ℕ) (r : List ℕ)
      → (c ≡ b']') ⊎ (c ≡ b'}')
      → more_by strtod c x go_on (skip_ws (new_line fmt d ++ c ∷ r)) ≡ got x r
  unfolding more_by
  more_by-close c x go_on fmt d r (inl e) =
      let there = skip_ws-new_line fmt d (c ∷ r) ∙ skip_ws-cons c r (ground arith) in
      ap (more_by strtod c x go_on) there ∙ ground arith
  more_by-close c x go_on fmt d r (inr e) =
      let there = skip_ws-new_line fmt d (c ∷ r) ∙ skip_ws-cons c r (ground arith) in
      ap (more_by strtod c x go_on) there ∙ ground arith

  value_by-numeral :
      (object_at array_at : List ℕ → Parse (Option (Item N))) (c : ℕ) (t : List ℕ) (n : N)
      (r : List ℕ)
      → IsNumeral c
      → strtod (c ∷ t) ≡ some (n, r)
      → value_by strtod object_at array_at (c ∷ t) ≡ got (some (number n)) r
  unfolding value_by
  value_by-numeral object_at array_at c t n r h e =
      let (blank, quote, brace, bracket, numeral) = IsNumeral-tests c h in
      rw (value_by, quote, brace, bracket, numeral)
        (ap
          (λ (o : Option (N × List ℕ)). elim o as (λ _. Parse (Option (Item N))) [
            | none ↦ got none (c ∷ t)
            | some (m, rest) ↦ got (some (number m)) rest
          ])
          e)

  pub value_number :
      (f : ℕ) (n : N) (r : List ℕ)
      → IsExact show strtod n
      → Ends r
      → parse_value strtod (suc f) (show n ++ r) ≡ got (some (number n)) r
  unfolding parse_value
  value_number f n r h e =
      let whole = ap (λ x. x ++ r) h.begins in
      let blank = (IsNumeral-tests h.first h.numeral).0 in
      let object_at : List ℕ → Parse (Option (Item N)) =
        λ t. object_by strtod (λ u. parse_members strtod f u) (skip_ws t) in
      let array_at : List ℕ → Parse (Option (Item N)) =
        λ t. array_by strtod (λ u. parse_items strtod f u) (skip_ws t) in
      ap (value_by strtod object_at array_at)
        (ap skip_ws whole ∙ skip_ws-cons h.first (h.others ++ r) blank)
      ∙ value_by-numeral object_at array_at h.first (h.others ++ r) n r h.numeral
          (ap strtod (sym whole) ∙ h.read r e)

  pub value_string :
      (f : ℕ) (s r : List ℕ)
      → IsPlain s
      → parse_value strtod (suc f) ((b'"' ∷ s ++ b'"' ∷ []) ++ r) ≡ got (some (string s)) r
  unfolding parse_value value_by skip_ws
  value_string f s r h =
      ap (λ p. p >>= λ val rest. got (some (string val)) rest)
        (ap parse_string (append_assoc s (b'"' ∷ []) r) ∙ parse_string-append s r h)
