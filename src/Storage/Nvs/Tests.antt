-- ===== src/Storage/Nvs/Tests.antt =====
-- Runs and instances on a store with a handle for writing and one for reading.
use esp32emu.Base.{
  ℕ, ◌+◌, ◌≤◌, ◌≡◌, ◌≢◌, refl, true, List, [], ◌∷◌, ◌++◌, none, some, arith, length, if◌then◌else◌,
  lookup, nat_key, str_key, str_eq,
}
use esp32emu.Base.Esp.{esp_ok, esp_fail, esp_err_nvs_invalid_handle, done, failed}
use esp32emu.Storage.Nvs.{
  NvsOpenMode, nvs_readonly, nvs_readwrite, NvsStore, nvs_typed_set, nvs_typed_get, nvs_set_blob,
  nvs_set_str, nvs_get_str, nvs_erase_key, nvs_erase_all,
}
use esp32emu.Storage.Nvs.Entries.{entry, Updated, set_blob_lem, erase_lem}
use esp32emu.Storage.Nvs.Typed.{typed_round_trip, str_round_trip}

abbrev name : List ℕ
name = b'n' ∷ []

abbrev key : List ℕ
key = b'k' ∷ []

abbrev text : List ℕ
text = b'h' ∷ b'i' ∷ []

abbrev store : NvsStore
store = record {
  data_ = (name, (key, 1 ∷ []) ∷ []) ∷ [];
  next_handle = 3;
  handles = (1, (name, nvs_readwrite)) ∷ (2, (name, nvs_readonly)) ∷ [];
  initialized = true;
}

writer : lookup 1 store.handles ≡ some (name, nvs_readwrite)
unfolding lookup
writer = refl

reader : lookup 2 store.handles ≡ some (name, nvs_readonly)
unfolding lookup
reader = refl

set_blob_lem_example :
    ((ns : List ℕ)
      → lookup 1 store.handles ≡ some (ns, nvs_readwrite)
      → (t : NvsStore) × (nvs_set_blob store 1 key text ≡ (t, esp_ok))
        × Updated store t ns key (some text))
    × ((ns : List ℕ)
        → lookup 1 store.handles ≡ some (ns, nvs_readonly)
        → nvs_set_blob store 1 key text ≡ (store, esp_fail))
    × (lookup 1 store.handles ≡ none
        → nvs_set_blob store 1 key text ≡ (store, esp_err_nvs_invalid_handle))
set_blob_lem_example = set_blob_lem store 1 key text

erase_lem_example :
    ((ns : List ℕ) (mode : NvsOpenMode)
      → lookup 2 store.handles ≡ some (ns, mode)
      → Updated store (nvs_erase_key store 2 key).0 ns key none
        × ((ns' key' : List ℕ)
            → entry (nvs_erase_all store 2).0 ns' key'
              ≡ (if str_eq ns ns' then none else entry store ns' key')))
    × (lookup 2 store.handles ≡ none
        → (nvs_erase_key store 2 key ≡ (store, esp_err_nvs_invalid_handle))
          × (nvs_erase_all store 2 ≡ (store, esp_err_nvs_invalid_handle)))
erase_lem_example = erase_lem store 2 key

typed_round_trip_example :
    let t = (nvs_typed_set 4 store 1 key 0xFFFFFFFE).0 in
    ((nvs_typed_get 4 t 2 key).1 ≡ done 0xFFFFFFFE)
    × ((w' : ℕ) → ◌≢◌ {A = ℕ} 4 w' → (nvs_typed_get w' t 2 key).1 ≡ failed esp_fail)
typed_round_trip_example =
    typed_round_trip 4 store 1 2 name key nvs_readonly 0xFFFFFFFE writer reader (omega arith)

str_round_trip_example :
    let t = (nvs_set_str store 1 key text).0 in
    ((nvs_get_str t 2 key none).1 ≡ done (none, length text + 1))
    × ((len : ℕ)
        → length text + 1 ≤ len
        → (nvs_get_str t 2 key (some len)).1 ≡ done (some (text ++ 0 ∷ []), length text + 1))
    × ((len : ℕ) → len ≤ length text → (nvs_get_str t 2 key (some len)).1 ≡ failed esp_fail)
str_round_trip_example =
    str_round_trip store 1 2 name key text nvs_readonly writer reader (omega arith)
