-- ===== src/Text/Json/RoundTrip.antt =====
-- What is printed, with or without formatting, is parsed to the same tree.
use esp32emu.Base.{
  ℕ, zero, suc, ◌+◌, ◌≤◌, ◌≡◌, ◌≢◌, refl, sym, ap, ◌∙◌, inl, inr, Bool, true, false, Option, some,
  List, [], ◌∷◌, ◌++◌, append_assoc, arith, ◌==◌,
}
use esp32emu.Base.Strings.{codes, starts_with}
use esp32emu.Text.Json.{
  Item, Items, Members, nil, cons, end, member, null, boolean, number, string, array, object, Parse,
  got, ◌>>=◌, new_line, skip_ws, print_item, print_items, print_members, after_key, value_by,
  more_by, array_by, object_by, parse_value, parse_items, parse_members,
}
use esp32emu.Text.Json.Blanks.{skip_ws-new_line, skip_ws-cons, Ends, new_line-Ends}
use esp32emu.Text.Json.Steps.{
  Printable, PrintableItems, PrintableMembers, size, sizes, member_sizes, print_item-cons, skip_to,
  items_of, members_of, more_by-close, value_number, value_string,
}

member_assoc :
    (a k b c d z : List ℕ)
    → (a ++ (b'"' ∷ k ++ (b'"' ∷ b':' ∷ b ++ (c ++ d)))) ++ z
      ≡ a ++ b'"' ∷ (k ++ b'"' ∷ b':' ∷ (b ++ (c ++ (d ++ z))))
member_assoc a k b c d z = simp append_assoc

module _ {N : Type 0} (show : N → List ℕ) (strtod : List ℕ → Option (N × List ℕ)) where
  no_size : (v : Item N) → ¬ (size show strtod v ≤ 0)
  no_size null h = omega arith
  no_size (boolean b) h = omega arith
  no_size (number n) h = omega arith
  no_size (string s) h = omega arith
  no_size (array vs) h = omega arith
  no_size (object ms) h = omega arith

  value_null :
      (f : ℕ) (r : List ℕ) → parse_value strtod (suc f) (codes "null" ++ r) ≡ got (some null) r
  unfolding parse_value value_by skip_ws starts_with
  value_null f r = refl

  value_boolean :
      (f : ℕ) (b : Bool) (fmt : Bool) (d : ℕ) (r : List ℕ)
      → parse_value strtod (suc f) (print_item show fmt d (boolean b) ++ r)
        ≡ got (some (boolean b)) r
  unfolding parse_value value_by skip_ws starts_with print_item
  value_boolean f true fmt d r = refl
  value_boolean f false fmt d r = refl

  value_nil :
      (f : ℕ) (r : List ℕ) → parse_value strtod (suc f) (codes "[]" ++ r) ≡ got (some (array nil)) r
  unfolding parse_value value_by skip_ws array_by
  value_nil f r = refl

  value_end :
      (f : ℕ) (r : List ℕ)
      → parse_value strtod (suc f) (codes "{}" ++ r) ≡ got (some (object end)) r
  unfolding parse_value value_by skip_ws object_by
  value_end f r = refl

  more_by-comma :
      (c : ℕ) {A : Type 0} (x : A) (go_on : List ℕ → Parse A) (s : List ℕ)
      → more_by strtod c x go_on (skip_ws (b',' ∷ s)) ≡ go_on s
  unfolding more_by skip_ws
  more_by-comma c x go_on s = refl

  array_by-cons :
      (items_at : List ℕ → Parse (Items N)) (s : List ℕ) (c : ℕ) (t : List ℕ) (vs : Items N)
      (r : List ℕ)
      → s ≡ c ∷ t
      → c ≢ b']'
      → items_at s ≡ got vs r
      → array_by strtod items_at s ≡ got (some (array vs)) r
  unfolding array_by
  array_by-cons items_at [] c t vs r e ne h = cc
  array_by-cons items_at (x ∷ s) c t vs r e ne h =
      let other : (x == b']') ≡ false = ground arith in rw (other, h)

  rest-Ends :
      (fmt : Bool) (d : ℕ) (vs : Items N) (r : List ℕ)
      → Ends (print_items show fmt d false vs ++ (new_line fmt d ++ b']' ∷ r))
  unfolding print_items
  rest-Ends fmt d nil r = new_line-Ends fmt d b']' r (inr (inl refl))
  rest-Ends fmt d (cons v vs) r = inl refl

  rest-Ends_members :
      (fmt : Bool) (d : ℕ) (ms : Members N) (r : List ℕ)
      → Ends (print_members show fmt d false ms ++ (new_line fmt d ++ b'}' ∷ r))
  unfolding print_members
  rest-Ends_members fmt d end r = new_line-Ends fmt d b'}' r (inr (inr (inl refl)))
  rest-Ends_members fmt d (member k v ms) r = inl refl

  object_by-cons :
      (members_at : List ℕ → Parse (Members N)) (s : List ℕ) (t : List ℕ) (ms : Members N)
      (r : List ℕ)
      → s ≡ b'"' ∷ t
      → members_at s ≡ got ms r
      → object_by strtod members_at s ≡ got (some (object ms)) r
  unfolding object_by
  object_by-cons members_at [] t ms r e h = cc
  object_by-cons members_at (x ∷ s) t ms r e h =
      let other : (x == b'}') ≡ false = ground arith in rw (other, h)

  value_bracket :
      (f : ℕ) (t : List ℕ)
      → parse_value strtod (suc f) (b'[' ∷ t)
        ≡ array_by strtod (λ u. parse_items strtod f u) (skip_ws t)
  unfolding parse_value value_by skip_ws
  value_bracket f t = refl

  value_brace :
      (f : ℕ) (t : List ℕ)
      → parse_value strtod (suc f) (b'{' ∷ t)
        ≡ object_by strtod (λ u. parse_members strtod f u) (skip_ws t)
  unfolding parse_value value_by skip_ws
  value_brace f t = refl

  closing :
      (p : List ℕ) (fmt : Bool) (d c : ℕ) (r : List ℕ)
      → (p ++ (new_line fmt d ++ c ∷ [])) ++ r ≡ p ++ (new_line fmt d ++ c ∷ r)
  closing p fmt d c r =
      append_assoc p (new_line fmt d ++ c ∷ []) r
      ∙ ap (λ x. p ++ x) (append_assoc (new_line fmt d) (c ∷ []) r)

  abbrev items_left : Bool → ℕ → Items N → List ℕ → List ℕ
  items_left fmt d vs r = print_items show fmt d false vs ++ (new_line fmt d ++ b']' ∷ r)

  value_array :
      (f : ℕ) (v : Item N) (vs : Items N) (fmt : Bool) (d : ℕ) (r : List ℕ)
      → Printable show strtod v
      → ((s : List ℕ)
          → skip_ws s ≡ print_item show fmt (d + 1) v ++ items_left fmt d vs r
          → parse_items strtod f s ≡ got (cons v vs) r)
      → parse_value strtod (suc f) (print_item show fmt d (array (cons v vs)) ++ r)
        ≡ got (some (array (cons v vs))) r
  unfolding print_item
  value_array f v vs fmt d r h items =
      let p = print_items show fmt d true (cons v vs) in
      let z = new_line fmt d ++ b']' ∷ r in
      let (c, t, blank, ne, begins) = print_item-cons show strtod fmt (d + 1) v h in
      let head = ap (λ x. x ++ items_left fmt d vs r) begins in
      let skipped =
        ap skip_ws (closing p fmt d b']' r)
        ∙ skip_to show strtod fmt (d + 1) (d + 1) v (print_items show fmt d false vs) z h in
      value_bracket f ((p ++ (new_line fmt d ++ b']' ∷ [])) ++ r)
      ∙ ap (array_by strtod (λ u. parse_items strtod f u)) skipped
      ∙ array_by-cons (λ u. parse_items strtod f u)
          (print_item show fmt (d + 1) v ++ items_left fmt d vs r) c (t ++ items_left fmt d vs r)
          (cons v vs) r head ne
          (items (print_item show fmt (d + 1) v ++ items_left fmt d vs r)
            (ap skip_ws head ∙ skip_ws-cons c (t ++ items_left fmt d vs r) blank ∙ sym head))

  -- The text of a member behind white space, and what follows it.
  abbrev member_text : Bool → ℕ → List ℕ → Item N → List ℕ → List ℕ
  member_text fmt d k v z =
      b'"' ∷ (k ++ b'"' ∷ b':' ∷ (after_key fmt ++ (print_item show fmt (d + 1) v ++ z)))

  abbrev members_left : Bool → ℕ → Members N → List ℕ → List ℕ
  members_left fmt d ms r = print_members show fmt d false ms ++ (new_line fmt d ++ b'}' ∷ r)

  skip_to-member :
      (fmt : Bool) (d : ℕ) (k : List ℕ) (v : Item N) (ms : Members N) (r : List ℕ)
      → skip_ws (print_members show fmt d true (member k v ms) ++ (new_line fmt d ++ b'}' ∷ r))
        ≡ member_text fmt d k v (members_left fmt d ms r)
  unfolding print_item
  skip_to-member fmt d k v ms r =
      ap skip_ws (
        member_assoc (new_line fmt (d + 1)) k (after_key fmt) (print_item show fmt (d + 1) v)
          (print_members show fmt d false ms) (new_line fmt d ++ b'}' ∷ r))
      ∙ skip_ws-new_line fmt (d + 1) (member_text fmt d k v (members_left fmt d ms r))
      ∙ skip_ws-cons b'"' _ refl

  value_object :
      (f : ℕ) (k : List ℕ) (v : Item N) (ms : Members N) (fmt : Bool) (d : ℕ) (r : List ℕ)
      → ((s : List ℕ)
          → skip_ws s ≡ member_text fmt d k v (members_left fmt d ms r)
          → parse_members strtod f s ≡ got (member k v ms) r)
      → parse_value strtod (suc f) (print_item show fmt d (object (member k v ms)) ++ r)
        ≡ got (some (object (member k v ms))) r
  unfolding print_item
  value_object f k v ms fmt d r members =
      let p = print_members show fmt d true (member k v ms) in
      let text = member_text fmt d k v (members_left fmt d ms r) in
      value_brace f ((p ++ (new_line fmt d ++ b'}' ∷ [])) ++ r)
      ∙ ap (object_by strtod (λ u. parse_members strtod f u))
          (ap skip_ws (closing p fmt d b'}' r) ∙ skip_to-member fmt d k v ms r)
      ∙ object_by-cons (λ u. parse_members strtod f u) text _ (member k v ms) r refl
          (members text (skip_ws-cons b'"' _ refl))

  -- The size of a tree is enough fuel.
  mutual
    unfolding print_item

    pub parse-print_item :
        (f : ℕ) (v : Item N) (fmt : Bool) (d : ℕ) (r : List ℕ)
        → Printable show strtod v
        → Ends r
        → size show strtod v ≤ f
        → parse_value strtod f (print_item show fmt d v ++ r) ≡ got (some v) r
    parse-print_item zero v fmt d r h e enough = absurd (no_size v enough)
    parse-print_item (suc f) null fmt d r h e enough = value_null f r
    parse-print_item (suc f) (boolean b) fmt d r h e enough = value_boolean f b fmt d r
    parse-print_item (suc f) (number n) fmt d r h e enough = value_number show strtod f n r h e
    parse-print_item (suc f) (string s) fmt d r h e enough = value_string show strtod f s r h
    parse-print_item (suc f) (array nil) fmt d r h e enough = value_nil f r
    parse-print_item (suc f) (array (cons v vs)) fmt d r h e enough =
        value_array f v vs fmt d r h.0 (λ s e. parse-print_items f v vs s fmt d r h e (omega arith))
    parse-print_item (suc f) (object end) fmt d r h e enough = value_end f r
    parse-print_item (suc f) (object (member k v ms)) fmt d r h e enough =
        value_object f k v ms fmt d r
          (λ s e. parse-print_members f k v ms s fmt d r h e (omega arith))

    parse-print_items :
        (f : ℕ) (v : Item N) (vs : Items N) (s : List ℕ) (fmt : Bool) (d : ℕ) (r : List ℕ)
        → PrintableItems show strtod (cons v vs)
        → skip_ws s
          ≡ print_item show fmt (d + 1) v
            ++ (print_items show fmt d false vs ++ (new_line fmt d ++ b']' ∷ r))
        → sizes show strtod (cons v vs) ≤ f
        → parse_items strtod f s ≡ got (cons v vs) r
    parse-print_items zero v vs s fmt d r h e enough = absurd (omega arith)
    parse-print_items (suc f) v nil s fmt d r h e enough =
        items_of show strtod f s fmt (d + 1) v (new_line fmt d ++ b']' ∷ r) h.0 e (
          parse-print_item f v fmt (d + 1) (new_line fmt d ++ b']' ∷ r) h.0 (rest-Ends fmt d nil r)
            (omega arith))
        ∙ more_by-close show strtod b']' (cons v nil) _ fmt d r (inl refl)
    parse-print_items (suc f) v (cons w ws) s fmt d r h e enough =
        let tail = print_items show fmt d false (cons w ws) ++ (new_line fmt d ++ b']' ∷ r) in
        let z = new_line fmt d ++ b']' ∷ r in
        let ih =
          parse-print_items f w ws (print_items show fmt d true (cons w ws) ++ z) fmt d r h.1
            (skip_to show strtod fmt (d + 1) (d + 1) w (print_items show fmt d false ws) z h.1.0)
            (omega arith) in
        items_of show strtod f s fmt (d + 1) v tail h.0 e
          (parse-print_item f v fmt (d + 1) tail h.0 (rest-Ends fmt d (cons w ws) r) (omega arith))
        ∙ more_by-comma b']' (cons v nil) _ _
        ∙ ap (λ p. p >>= λ vs u. got (cons v vs) u) ih

    parse-print_members :
        (f : ℕ) (k : List ℕ) (v : Item N) (ms : Members N) (s : List ℕ) (fmt : Bool) (d : ℕ)
        (r : List ℕ)
        → PrintableMembers show strtod (member k v ms)
        → skip_ws s ≡ member_text fmt d k v (members_left fmt d ms r)
        → member_sizes show strtod (member k v ms) ≤ f
        → parse_members strtod f s ≡ got (member k v ms) r
    parse-print_members zero k v ms s fmt d r h e enough = absurd (omega arith)
    parse-print_members (suc f) k v end s fmt d r h e enough =
        members_of show strtod f s fmt (d + 1) k v (new_line fmt d ++ b'}' ∷ r) h.0 h.1 e (
          parse-print_item f v fmt (d + 1) (new_line fmt d ++ b'}' ∷ r) h.1
            (rest-Ends_members fmt d end r) (omega arith))
        ∙ more_by-close show strtod b'}' (member k v end) _ fmt d r (inr refl)
    parse-print_members (suc f) k v (member j w ws) s fmt d r h e enough =
        let tail = members_left fmt d (member j w ws) r in
        let next = print_members show fmt d true (member j w ws) ++ (new_line fmt d ++ b'}' ∷ r) in
        members_of show strtod f s fmt (d + 1) k v tail h.0 h.1 e (
          parse-print_item f v fmt (d + 1) tail h.1 (rest-Ends_members fmt d (member j w ws) r)
            (omega arith))
        ∙ more_by-comma b'}' (member k v end) _ _
        ∙ ap (λ p. p >>= λ ms u. got (member k v ms) u)
            (parse-print_members f j w ws next fmt d r h.2 (skip_to-member fmt d j w ws r)
              (omega arith))
