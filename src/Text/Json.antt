-- ===== src/Text/Json.antt =====
-- include/cJSON.h: the tree, printing and parsing. A `double` is of a type that is given, with what `snprintf`
-- prints for it and what `strtod` reads. Strings hold no NUL; the end of a text is its NUL.
pub mod Access
pub mod Blanks
pub mod Steps
pub mod RoundTrip
pub mod Printed
pub mod Fuel
mod Tests
use esp32emu.Base.{
  ◌*◌, ℕ, zero, suc, ◌+◌, ◌*◌, Bool, true, false, ◌&&◌, ◌||◌, Option, none, some, List, [], ◌∷◌,
  ◌++◌, leb, ◌==◌, if◌then◌else◌, length, drop, replicate,
}
use esp32emu.Base.Strings.{codes, starts_with}

-- An item, the items of an array, and those of an object with their keys, each in order.
mutual
  pub data Item (N : Type 0) : Type 0 where
    null : Item N
    boolean : Bool → Item N
    number : N → Item N
    string : List ℕ → Item N
    array : Items N → Item N
    object : Members N → Item N

  pub data Items (N : Type 0) : Type 0 where
    nil : Items N
    cons : Item N → Items N → Items N

  pub data Members (N : Type 0) : Type 0 where
    end : Members N
    member : List ℕ → Item N → Members N → Members N

-- What a parser comes to: a value and the text behind it; a read behind the end of the text; or too
-- little fuel.
pub data Parse {ℓ} (A : Type ℓ) : Type ℓ where
  got : A → List ℕ → Parse A
  fault no_fuel : Parse A

infixl 5 ◌>>=◌
abbrev pub ◌>>=◌ {ℓ κ} : {A : Type ℓ} {B : Type κ} → Parse A → (A → List ℕ → Parse B) → Parse B
got a s >>= f = f a s
fault >>= f = fault
no_fuel >>= f = no_fuel

-- `"\n" + indent`, when the text is formatted.
unfoldable pub new_line : Bool → ℕ → List ℕ
new_line fmt depth = if fmt then 10 ∷ replicate (depth * 2) 32 else []

abbrev pub comma : Bool → List ℕ
comma first = if first then [] else b',' ∷ []

abbrev pub after_key : Bool → List ℕ
after_key fmt = if fmt then b' ' ∷ [] else []

abbrev pub is_ws : ℕ → Bool
is_ws c = c == 32 || (c == 9 || (c == 10 || c == 13))

unfoldable pub skip_ws : List ℕ → List ℕ
skip_ws [] = []
skip_ws (c ∷ s) = let rest = skip_ws s in if is_ws c then rest else c ∷ s

-- The character behind a backslash.
unfoldable pub unescape : ℕ → ℕ
unescape c = if c == b'n' then 10 else if c == b't' then 9 else if c == b'r' then 13 else c

abbrev pub put : ℕ → Parse (List ℕ) → Parse (List ℕ)
put c r = r >>= λ val s. got (c ∷ val) s

-- `parse_string` behind the quotation mark. A backslash at the end of the text makes it read on behind the NUL.
unfoldable pub parse_string : List ℕ → Parse (List ℕ)
unfolding unescape
parse_string [] = got [] []
parse_string (c ∷ []) =
    if c == b'"' then got [] [] else if c == b'\\' then fault else got (c ∷ []) []
parse_string (c ∷ e ∷ s) =
    let plain = parse_string (e ∷ s) in
    let escaped = parse_string s in
    if c == b'"'
    then got [] (e ∷ s)
    else if c == b'\\'
    then put (unescape e) escaped
    else put c plain

abbrev pub skip_colon : List ℕ → List ℕ
skip_colon [] = []
skip_colon (c ∷ s) = if c == b':' then s else c ∷ s

module _ {N : Type 0} (show : N → List ℕ) where
  -- `print_item`
  unfoldable mutual
    unfolding new_line

    pub print_item : Bool → ℕ → Item N → List ℕ
    print_item fmt depth null = codes "null"
    print_item fmt depth (boolean true) = codes "true"
    print_item fmt depth (boolean false) = codes "false"
    print_item fmt depth (number n) = show n
    print_item fmt depth (string s) = b'"' ∷ s ++ b'"' ∷ []
    print_item fmt depth (array nil) = codes "[]"
    print_item fmt depth (array (cons v vs)) =
        b'[' ∷ print_items fmt depth true (cons v vs) ++ (new_line fmt depth ++ b']' ∷ [])
    print_item fmt depth (object end) = codes "{}"
    print_item fmt depth (object (member k v ms)) =
        b'{' ∷ print_members fmt depth true (member k v ms) ++ (new_line fmt depth ++ b'}' ∷ [])

    pub print_items : Bool → ℕ → Bool → Items N → List ℕ
    print_items fmt depth first nil = []
    print_items fmt depth first (cons v vs) =
        comma first
        ++ (new_line fmt (depth + 1)
            ++ (print_item fmt (depth + 1) v ++ print_items fmt depth false vs))

    pub print_members : Bool → ℕ → Bool → Members N → List ℕ
    print_members fmt depth first end = []
    print_members fmt depth first (member k v ms) =
        comma first
        ++ (new_line fmt (depth + 1)
            ++ (b'"' ∷ k
                ++ (b'"' ∷ b':' ∷ after_key fmt
                    ++ (print_item fmt (depth + 1) v ++ print_members fmt depth false ms))))

  -- `cJSON_Print` and `cJSON_PrintUnformatted`
  unfoldable pub print : Item N → List ℕ
  print v = print_item true 0 v

  unfoldable pub print_unformatted : Item N → List ℕ
  print_unformatted v = print_item false 0 v

abbrev pub add_item : {N : Type 0} → Option (Item N) → Items N → Items N
add_item none vs = vs
add_item (some v) vs = cons v vs

abbrev pub add_member : {N : Type 0} → List ℕ → Option (Item N) → Members N → Members N
add_member k none ms = ms
add_member k (some v) ms = member k v ms

module _ {N : Type 0} (strtod : List ℕ → Option (N × List ℕ)) where
  abbrev pub parse_number : List ℕ → Parse (Option (Item N))
  parse_number s = elim (strtod s) [
    | none ↦ got none s
    | some (n, rest) ↦ got (some (number n)) rest
  ]

  abbrev pub parse_word : List ℕ → Parse (Option (Item N))
  parse_word s =
      if starts_with (codes "true") s
      then got (some (boolean true)) (drop 4 s)
      else if starts_with (codes "false") s
      then got (some (boolean false)) (drop 5 s)
      else if starts_with (codes "null") s
      then got (some null) (drop 4 s)
      else got none s

  -- `parse_value` at its first character, with the parsers behind a brace and a bracket.
  unfoldable pub value_by :
      (List ℕ → Parse (Option (Item N)))
      → (List ℕ → Parse (Option (Item N)))
      → List ℕ
      → Parse (Option (Item N))
  unfolding parse_string
  value_by object_at array_at [] = got none []
  value_by object_at array_at (c ∷ s) =
      if c == b'"'
      then (parse_string s >>= λ val rest. got (some (string val)) rest)
      else if c == b'{'
      then object_at s
      else if c == b'['
      then array_at s
      else if c == b'-' || (leb b'0' c && leb c b'9')
      then parse_number (c ∷ s)
      else parse_word (c ∷ s)

  -- What follows an item: a comma, the end, or neither.
  unfoldable pub more_by {ℓ} : {A : Type ℓ} → ℕ → A → (List ℕ → Parse A) → List ℕ → Parse A
  more_by close none_left go_on [] = got none_left []
  more_by close none_left go_on (c ∷ s) =
      if c == b',' then go_on s else if c == close then got none_left s else got none_left (c ∷ s)

  -- A round of the loop of `parse_array`.
  unfoldable pub items_by :
      (List ℕ → Parse (Option (Item N))) → (List ℕ → Parse (Items N)) → List ℕ → Parse (Items N)
  unfolding more_by skip_ws
  items_by value_at items_at [] = got nil []
  items_by value_at items_at (c ∷ s) = value_at (skip_ws (c ∷ s)) >>= λ v rest.
      more_by b']' (add_item v nil) (λ t. items_at t >>= λ vs u. got (add_item v vs) u)
        (skip_ws rest)

  -- A round of the loop of `parse_object`.
  unfoldable pub members_by :
      (List ℕ → Parse (Option (Item N))) → (List ℕ → Parse (Members N)) → List ℕ → Parse (Members N)
  unfolding more_by skip_ws parse_string
  members_by value_at members_at s = elim (skip_ws s) [
    | [] ↦ got end []
    | c ∷ t ↦
        if c == b'"'
        then (parse_string t >>= λ k rest.
            value_at (skip_ws (skip_colon (skip_ws rest))) >>= λ v rest.
            more_by b'}' (add_member k v end)
              (λ u. members_at u >>= λ ms w. got (add_member k v ms) w) (skip_ws rest))
        else got end (c ∷ t)
  ]

  -- `parse_array` and `parse_object` behind the bracket and the brace.
  unfoldable pub array_by : (List ℕ → Parse (Items N)) → List ℕ → Parse (Option (Item N))
  array_by items_at [] = items_at [] >>= λ vs u. got (some (array vs)) u
  array_by items_at (c ∷ s) =
      if c == b']'
      then got (some (array nil)) s
      else items_at (c ∷ s) >>= λ vs u. got (some (array vs)) u

  unfoldable pub object_by : (List ℕ → Parse (Members N)) → List ℕ → Parse (Option (Item N))
  object_by members_at [] = members_at [] >>= λ ms u. got (some (object ms)) u
  object_by members_at (c ∷ s) =
      if c == b'}'
      then got (some (object end)) s
      else members_at (c ∷ s) >>= λ ms u. got (some (object ms)) u

  -- The parsers, on fuel.
  unfoldable mutual
    pub parse_value : ℕ → List ℕ → Parse (Option (Item N))
    parse_value zero s = no_fuel
    parse_value (suc f) s =
        value_by (λ t. object_by (λ u. parse_members f u) (skip_ws t))
          (λ t. array_by (λ u. parse_items f u) (skip_ws t)) (skip_ws s)

    pub parse_items : ℕ → List ℕ → Parse (Items N)
    parse_items zero s = no_fuel
    parse_items (suc f) s = items_by (λ u. parse_value f u) (λ u. parse_items f u) s

    pub parse_members : ℕ → List ℕ → Parse (Members N)
    parse_members zero s = no_fuel
    parse_members (suc f) s = members_by (λ u. parse_value f u) (λ u. parse_members f u) s

  -- `cJSON_Parse`. Of two calls of a parser, one within the other, the inner one begins behind a character
  -- of the text, so twice its length is enough fuel, and one more for the text as a whole.
  unfoldable pub parse : List ℕ → Parse (Option (Item N))
  unfolding parse_value
  parse s = parse_value (suc (2 * length s)) s

-- `cJSON_Duplicate` of a whole tree: it is printed and parsed.
unfoldable pub duplicate :
    {N : Type 0} → (N → List ℕ) → (List ℕ → Option (N × List ℕ)) → Item N → Parse (Option (Item N))
unfolding print_unformatted parse
duplicate show strtod v = parse strtod (print_unformatted show v)
