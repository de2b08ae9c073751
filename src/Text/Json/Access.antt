-- ===== src/Text/Json/Access.antt =====
-- include/cJSON.h: an item of an array or an object, and adding one, on trees that the API built: the items of
-- an array have no keys. An index below 0 gives the first item, as 0 does.
use esp32emu.Base.{
  ℕ, zero, suc, ◌≡◌, refl, ap, Bool, Option, none, some, List, if◌then◌else◌, str_eq, Bool-cases,
  inl, inr,
}
use esp32emu.Base.Strings.{is_some}
use esp32emu.Text.Json.{Item, Items, Members, nil, cons, end, member, array, object}

module _ {N : Type 0} where
  items_size : Items N → ℕ
  items_size nil = 0
  items_size (cons v vs) = suc (items_size vs)

  members_size : Members N → ℕ
  members_size end = 0
  members_size (member k v ms) = suc (members_size ms)

  pub get_array_size : Item N → ℕ
  unfolding items_size members_size
  get_array_size (array vs) = items_size vs
  get_array_size (object ms) = members_size ms
  get_array_size v = 0

  items_at : Items N → ℕ → Option (Item N)
  items_at nil i = none
  items_at (cons v vs) zero = some v
  items_at (cons v vs) (suc i) = items_at vs i

  members_at : Members N → ℕ → Option (Item N)
  members_at end i = none
  members_at (member k v ms) zero = some v
  members_at (member k v ms) (suc i) = members_at ms i

  pub get_array_item : Item N → ℕ → Option (Item N)
  unfolding items_at members_at
  get_array_item (array vs) i = items_at vs i
  get_array_item (object ms) i = members_at ms i
  get_array_item v i = none

  pub find_member : List ℕ → Members N → Option (Item N)
  find_member key end = none
  find_member key (member k v ms) = if str_eq k key then some v else find_member key ms

  pub get_object_item : Item N → List ℕ → Option (Item N)
  unfolding find_member
  get_object_item (object ms) key = find_member key ms
  get_object_item v key = none

  pub has_object_item : Item N → List ℕ → Bool
  unfolding get_object_item
  has_object_item v key = is_some (get_object_item v key)

  append_item : Items N → Item N → Items N
  append_item nil w = cons w nil
  append_item (cons v vs) w = cons v (append_item vs w)

  append_member : Members N → List ℕ → Item N → Members N
  append_member end key w = member key w end
  append_member (member k v ms) key w = member k v (append_member ms key w)

  -- On items of other types the API's calls would give them children, which nothing shows.
  pub add_item_to_array : Item N → Item N → Item N
  unfolding append_item
  add_item_to_array (array vs) w = array (append_item vs w)
  add_item_to_array v w = v

  pub add_item_to_object : Item N → List ℕ → Item N → Item N
  unfolding append_member
  add_item_to_object (object ms) key w = object (append_member ms key w)
  add_item_to_object v key w = v

  find_member-append_member :
      (ms : Members N) (key j : List ℕ) (w : Item N)
      → find_member j (append_member ms key w) ≡ (elim (find_member j ms) [
        | some v ↦ some v
        | none ↦ if str_eq key j then some w else none
      ])
  unfolding find_member append_member
  find_member-append_member end key j w = refl
  find_member-append_member (member k v ms) key j w = elim (Bool-cases (str_eq k j)) [
    | inl here ↦ rw here
    | inr other ↦ rw other (find_member-append_member ms key j w)
  ]

  -- A member that is added is found under its key unless an older one of that key is, which hides it; what
  -- is found under other keys is as before. The object has one member more.
  pub get_object_item-add :
      (ms : Members N) (key j : List ℕ) (w : Item N)
      → (get_object_item (add_item_to_object (object ms) key w) j
          ≡ (elim (get_object_item (object ms) j) [
            | some v ↦ some v
            | none ↦ if str_eq key j then some w else none
          ]))
        × (get_array_size (add_item_to_object (object ms) key w) ≡ suc (get_array_size (object ms)))
  unfolding get_object_item get_array_size add_item_to_object
  get_object_item-add ms key j w = (find_member-append_member ms key j w, size ms)
    where
      size : (ms : Members N) → members_size (append_member ms key w) ≡ suc (members_size ms)
      size end = refl
      size (member k v ms) = ap suc (size ms)
