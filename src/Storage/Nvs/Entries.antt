-- ===== src/Storage/Nvs/Entries.antt =====
-- The store as a map from namespaces and keys to blobs, and what the calls do to that map.
use esp32emu.Base.{
  ℕ, ◌≡◌, refl, ap, ◌∙◌, ◌&&◌, List, [], Option, none, some, if◌then◌else◌, lookup, insert, erase,
  lookup-insert, lookup-erase, str_key, nat_key, str_eq, str_eq_iff, Bool-cases, inl, inr,
}
use esp32emu.Base.Esp.{esp_ok, esp_fail, esp_err_nvs_invalid_handle}
use esp32emu.Storage.Nvs.{
  NvsOpenMode, nvs_readonly, nvs_readwrite, Entries, NsMode, NvsStore, entries, put_entries,
  set_under, get_under, found_key, erase_under, clear_under, nvs_set_blob, nvs_erase_key,
  nvs_erase_all, nvs_typed_get, nvs_get_str, nvs_get_blob,
}

-- The blob under a key of a namespace.
pub entry : NvsStore → List ℕ → List ℕ → Option (List ℕ)
entry s ns key = lookup key (entries s ns)

or_empty : Option Entries → Entries
or_empty o = elim o [ none ↦ [] | some m ↦ m ]

entries-put :
    (s : NvsStore) (ns ns' : List ℕ) (m : Entries)
    → entries (put_entries s ns m) ns' ≡ (if str_eq ns ns' then m else entries s ns')
unfolding entries put_entries or_empty
entries-put s ns ns' m = elim (Bool-cases (str_eq ns ns')) [
  | inl e ↦ ap or_empty (lookup-insert ns ns' m s.data_) ∙ rw e
  | inr e ↦ ap or_empty (lookup-insert ns ns' m s.data_) ∙ rw e
]

-- `m` is a map in which the key of the namespace has become `b`, and all else is as in `s`.
abbrev pub Updated : NvsStore → NvsStore → List ℕ → List ℕ → Option (List ℕ) → Type 0
Updated s t ns key b =
    (ns' key' : List ℕ)
    → entry t ns' key' ≡ (if str_eq ns ns' && str_eq key key' then b else entry s ns' key')

pub set_under-Updated :
    (s : NvsStore) (ns key blob : List ℕ)
    → Updated s (set_under s (some (ns, nvs_readwrite)) key blob).0 ns key (some blob)
unfolding entry set_under
set_under-Updated s ns key blob ns' key' = elim (Bool-cases (str_eq ns ns')) [
  | inl e ↦
      let same = (str_eq_iff ns ns').0 e in
      ap (lookup key') (entries-put s ns ns' (insert key blob (entries s ns)))
      ∙ rw e (
          lookup-insert key key' blob (entries s ns)
          ∙ ap (λ n. if str_eq key key' then some blob else lookup key' (entries s n)) same)
  | inr e ↦ ap (lookup key') (entries-put s ns ns' (insert key blob (entries s ns))) ∙ rw e
]

erase_under-Updated :
    (s : NvsStore) (ns key : List ℕ) (mode : NvsOpenMode)
    → Updated s (erase_under s (some (ns, mode)) key).0 ns key none
unfolding entry erase_under
erase_under-Updated s ns key mode ns' key' = elim (Bool-cases (str_eq ns ns')) [
  | inl e ↦
      let same = (str_eq_iff ns ns').0 e in
      ap (lookup key') (entries-put s ns ns' (erase key (entries s ns)))
      ∙ rw e (
          lookup-erase key key' (entries s ns)
          ∙ ap (λ n. if str_eq key key' then none else lookup key' (entries s n)) same)
  | inr e ↦ ap (lookup key') (entries-put s ns ns' (erase key (entries s ns))) ∙ rw e
]

pub get_under-entry :
    (s : NvsStore) (ns key : List ℕ) (mode : NvsOpenMode)
    → (get_under s (some (ns, mode)) key).1 ≡ found_key (entry s ns key)
unfolding get_under entry
get_under-entry s ns key mode = refl

get_under-keeps :
    (s : NvsStore) (ns key : List ℕ) (mode : NvsOpenMode) (ns' key' : List ℕ)
    → entry (get_under s (some (ns, mode)) key).0 ns' key' ≡ entry s ns' key'
unfolding entry get_under
get_under-keeps s ns key mode ns' key' = elim (Bool-cases (str_eq ns ns')) [
  | inl e ↦
      ap (lookup key') (entries-put s ns ns' (entries s ns))
      ∙ rw e (ap (λ n. lookup key' (entries s n)) ((str_eq_iff ns ns').0 e))
  | inr e ↦ ap (lookup key') (entries-put s ns ns' (entries s ns)) ∙ rw e
]

-- A set through a handle opened for writing puts the blob under that key of that namespace and changes
-- no other entry; through one opened for reading, or through no handle, it fails and changes nothing.
pub set_blob_lem :
    (s : NvsStore) (h : ℕ) (key blob : List ℕ)
    → ((ns : List ℕ)
        → lookup h s.handles ≡ some (ns, nvs_readwrite)
        → (t : NvsStore) × (nvs_set_blob s h key blob ≡ (t, esp_ok))
          × Updated s t ns key (some blob))
      × ((ns : List ℕ)
          → lookup h s.handles ≡ some (ns, nvs_readonly)
          → nvs_set_blob s h key blob ≡ (s, esp_fail))
      × (lookup h s.handles ≡ none → nvs_set_blob s h key blob ≡ (s, esp_err_nvs_invalid_handle))
unfolding nvs_set_blob set_under
set_blob_lem s h key blob = (
  λ ns e. (
    (set_under s (some (ns, nvs_readwrite)) key blob).0,
    ap (λ o. set_under s o key blob) e,
    set_under-Updated s ns key blob,
  ),
  λ ns e. ap (λ o. set_under s o key blob) e,
  λ e. ap (λ o. set_under s o key blob) e,
)

-- An erasure of a key takes its entry and no other, whichever mode the handle was opened with, and one
-- of all keys takes the namespace's entries and no others; without a handle nothing changes.
pub erase_lem :
    (s : NvsStore) (h : ℕ) (key : List ℕ)
    → ((ns : List ℕ) (mode : NvsOpenMode)
        → lookup h s.handles ≡ some (ns, mode)
        → Updated s (nvs_erase_key s h key).0 ns key none
          × ((ns' key' : List ℕ)
              → entry (nvs_erase_all s h).0 ns' key'
                ≡ (if str_eq ns ns' then none else entry s ns' key')))
      × (lookup h s.handles ≡ none
          → (nvs_erase_key s h key ≡ (s, esp_err_nvs_invalid_handle))
            × (nvs_erase_all s h ≡ (s, esp_err_nvs_invalid_handle)))
unfolding nvs_erase_key nvs_erase_all entry erase_under clear_under lookup
erase_lem s h key = (
  λ ns mode e. (
    λ ns' key'.
        ap (λ o. entry (erase_under s o key).0 ns' key') e
        ∙ erase_under-Updated s ns key mode ns' key',
    λ ns' key'. elim (Bool-cases (str_eq ns ns')) [
      | inl i ↦
          ap (λ o. entry (clear_under s o).0 ns' key') e
          ∙ ap (lookup key') (entries-put s ns ns' [])
          ∙ rw i
      | inr i ↦
          ap (λ o. entry (clear_under s o).0 ns' key') e
          ∙ ap (lookup key') (entries-put s ns ns' [])
          ∙ rw i
    ],
  ),
  λ e. (ap (λ o. erase_under s o key) e, ap (λ o. clear_under s o) e),
)

-- No get changes an entry, whether it finds its key, fails or has no handle.
pub get_keeps :
    (w : ℕ) (s : NvsStore) (h : ℕ) (key : List ℕ) (out : Option ℕ) (ns' key' : List ℕ)
    → (entry (nvs_typed_get w s h key).0 ns' key' ≡ entry s ns' key')
      × (entry (nvs_get_str s h key out).0 ns' key' ≡ entry s ns' key')
      × (entry (nvs_get_blob s h key out).0 ns' key' ≡ entry s ns' key')
unfolding nvs_typed_get nvs_get_str nvs_get_blob get_under
get_keeps w s h key out ns' key' = let same = under (lookup h s.handles) in (same, same, same)
  where
    under : (o : Option NsMode) → entry (get_under s o key).0 ns' key' ≡ entry s ns' key'
    under none = refl
    under (some (ns, mode)) = get_under-keeps s ns key mode ns' key'
