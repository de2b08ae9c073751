-- ===== src/Text/Json/Tests.antt =====
-- Runs, and instances for a tree whose numbers are natural ones.
use mathlib.Core.Path.{subst}
use esp32emu.Base.{ℕ, ◌≡◌, refl, sym, inl, inr, Option, none, some, List, [], ◌∷◌, arith}
use esp32emu.Base.Strings.{codes, to_string, strtol, digit}
use esp32emu.Base.Strings.Numerals.{strtol-to_string, Stops, Stops-nil, Stops-none}
use esp32emu.Text.Json.{
  Item, Members, nil, cons, end, member, null, number, string, array, object, got, parse, print,
  print_unformatted, duplicate, print_item, value_by, skip_ws, array_by, items_by,
}
use esp32emu.Text.Json.Blanks.{Ends}
use esp32emu.Text.Json.Steps.{IsExact}
use esp32emu.Text.Json.Printed.{duplicate_lem}

-- `long` integers in place of the `double`s.
abbrev read_number : List ℕ → Option (ℕ × List ℕ)
read_number s = strtol 10 s

abbrev tree : Item ℕ
tree = object (
    member (codes "a") (array (cons (number 7) (cons null nil)))
      (member (codes "b") (string (codes "x y")) end))

printed : print_unformatted to_string tree ≡ codes "{\"a\":[7,null],\"b\":\"x y\"}"
unfolding print_unformatted to_string print_item
printed = refl

-- Brackets that are not closed.
abbrev open_brackets : Item ℕ
open_brackets = array (cons (array (cons (array (cons (array nil) nil)) nil)) nil)

parsed_open : parse read_number (codes "[[[[") ≡ got (some open_brackets) []
unfolding parse value_by skip_ws array_by items_by
parsed_open = refl

stops : (r : List ℕ) → Ends r → Stops r
unfolding digit
stops [] e = Stops-nil
stops (c ∷ s) (inl e) = Stops-none c s (subst (λ x. digit 10 x ≡ none) (sym e) refl)
stops (c ∷ s) (inr (inl e)) = Stops-none c s (subst (λ x. digit 10 x ≡ none) (sym e) refl)
stops (c ∷ s) (inr (inr (inl e))) = Stops-none c s (subst (λ x. digit 10 x ≡ none) (sym e) refl)
stops (c ∷ s) (inr (inr (inr e))) = Stops-none c s (subst (λ x. digit 10 x ≡ none) (sym e) refl)

seven : IsExact to_string read_number 7
unfolding to_string
seven = record {
  first = b'7';
  others = [];
  begins = refl;
  numeral = inr (omega arith);
  read = λ r e. strtol-to_string 7 r (omega arith) (stops r e);
}

duplicate_lem_example :
    (parse read_number (print to_string tree) ≡ got (some tree) [])
    × (parse read_number (print_unformatted to_string tree) ≡ got (some tree) [])
    × (duplicate to_string read_number tree ≡ got (some tree) [])
duplicate_lem_example =
    duplicate_lem to_string read_number tree
      (omega arith, (seven, (tt, tt)), (omega arith, omega arith, tt))

abbrev members : Members ℕ
members = member (codes "a") (number 1) end
