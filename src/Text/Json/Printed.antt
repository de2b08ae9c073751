-- ===== src/Text/Json/Printed.antt =====
-- Printing and parsing whole texts.
use esp32emu.Base.{
  ◌*◌, ℕ, suc, ◌+◌, ◌≤◌, ◌≡◌, sym, ap, ◌∙◌, Bool, true, false, Option, some, List, [], ◌∷◌, ◌++◌,
  append-nil, arith, length, length-append,
}
use esp32emu.Text.Json.{
  Item, Items, Members, nil, cons, end, member, null, boolean, number, string, array, object, got,
  new_line, print_item, print_items, print_members, after_key, parse_value, parse,
  print_unformatted, print, duplicate,
}
use esp32emu.Text.Json.Steps.{
  Printable, PrintableItems, PrintableMembers, size, sizes, member_sizes, IsExact,
}
use esp32emu.Text.Json.RoundTrip.{parse-print_item}

module _ {N : Type 0} (show : N → List ℕ) (strtod : List ℕ → Option (N × List ℕ)) where
  number_length : (n : N) → IsExact show strtod n → 1 ≤ length (show n)
  number_length n h = omega (arith, ap length h.begins)

  member_length :
      (fmt : Bool) (d : ℕ) (k : List ℕ) (v : Item N) (ms : Members N)
      → suc (length (print_item show fmt (d + 1) v) + length (print_members show fmt d false ms))
        ≤ length (print_members show fmt d true (member k v ms))
  unfolding print_item
  member_length fmt d k v ms =
      let tail = print_item show fmt (d + 1) v ++ print_members show fmt d false ms in
      let behind = after_key fmt ++ tail in
      omega (
        arith,
        length-append (print_item show fmt (d + 1) v) (print_members show fmt d false ms),
        length-append (after_key fmt) tail,
        length-append k (b'"' ∷ b':' ∷ behind),
        length-append (new_line fmt (d + 1)) (b'"' ∷ k ++ (b'"' ∷ b':' ∷ behind)),
      )

  mutual
    unfolding print_item

    size-le :
        (v : Item N) (fmt : Bool) (d : ℕ)
        → Printable show strtod v
        → size show strtod v ≤ length (print_item show fmt d v)
    size-le null fmt d h = omega arith
    size-le (boolean true) fmt d h = omega arith
    size-le (boolean false) fmt d h = omega arith
    size-le (number n) fmt d h = number_length n h
    size-le (string s) fmt d h = omega arith
    size-le (array nil) fmt d h = omega arith
    size-le (array (cons v vs)) fmt d h =
        let tail = print_items show fmt d false vs in
        let p = print_items show fmt d true (cons v vs) in
        omega (
          arith,
          size-le v fmt (d + 1) h.0,
          sizes-le vs fmt d h.1,
          length-append (new_line fmt (d + 1)) (print_item show fmt (d + 1) v ++ tail),
          length-append (print_item show fmt (d + 1) v) tail,
          length-append p (new_line fmt d ++ b']' ∷ []),
          length-append (new_line fmt d) (b']' ∷ []),
        )
    size-le (object end) fmt d h = omega arith
    size-le (object (member k v ms)) fmt d h =
        let p = print_members show fmt d true (member k v ms) in
        omega (
          arith,
          member_length fmt d k v ms,
          size-le v fmt (d + 1) h.1,
          member_sizes-le ms fmt d h.2,
          length-append p (new_line fmt d ++ b'}' ∷ []),
          length-append (new_line fmt d) (b'}' ∷ []),
        )

    sizes-le :
        (vs : Items N) (fmt : Bool) (d : ℕ)
        → PrintableItems show strtod vs
        → sizes show strtod vs ≤ length (print_items show fmt d false vs)
    sizes-le nil fmt d h = omega arith
    sizes-le (cons v vs) fmt d h =
        let tail = print_items show fmt d false vs in
        omega (
          arith,
          size-le v fmt (d + 1) h.0,
          sizes-le vs fmt d h.1,
          length-append (new_line fmt (d + 1)) (print_item show fmt (d + 1) v ++ tail),
          length-append (print_item show fmt (d + 1) v) tail,
        )

    member_sizes-le :
        (ms : Members N) (fmt : Bool) (d : ℕ)
        → PrintableMembers show strtod ms
        → member_sizes show strtod ms ≤ length (print_members show fmt d false ms)
    member_sizes-le end fmt d h = omega arith
    member_sizes-le (member k v ms) fmt d h =
        omega (
          arith,
          member_length fmt d k v ms,
          size-le v fmt (d + 1) h.1,
          member_sizes-le ms fmt d h.2,
        )

  parse-print :
      (v : Item N) (fmt : Bool)
      → Printable show strtod v
      → parse strtod (print_item show fmt 0 v) ≡ got (some v) []
  unfolding parse
  parse-print v fmt h =
      let text = print_item show fmt 0 v in
      ap (parse_value strtod (suc (2 * length text))) (sym (append-nil text))
      ∙ parse-print_item show strtod (suc (2 * length text)) v fmt 0 [] h tt
          (omega (arith, size-le v fmt 0 h))

  -- A tree whose numbers are read back from what is printed for them and whose strings and keys hold no quotation mark and no
  -- backslash is parsed from its text, formatted or not, to the same tree with nothing left over, within the fuel that
  -- the text's length gives. So a duplicate of such a tree is the tree.
  pub duplicate_lem :
      (v : Item N)
      → Printable show strtod v
      → (parse strtod (print show v) ≡ got (some v) [])
        × (parse strtod (print_unformatted show v) ≡ got (some v) [])
        × (duplicate show strtod v ≡ got (some v) [])
  unfolding print duplicate
  duplicate_lem v h = (parse-print v true h, parse-print v false h, parse-print v false h)
