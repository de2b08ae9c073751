-- ===== src/Storage/Nvs/Typed.antt =====
-- Integers, strings and blobs that are read back from the store.
use esp32emu.Base.{
  ℕ, ◌+◌, ◌^◌, ◌≤◌, ◌<◌, ◌≡◌, ◌≢◌, refl, ap, ◌∙◌, true, false, List, [], ◌∷◌, ◌++◌, Option, none,
  some, arith, ltb, ◌==◌, add_size, length, lookup, str_key, nat_key, str_eq_iff,
}
use esp32emu.Base.Bytes.{le_bytes, length-le_bytes, le_value-le_bytes}
use esp32emu.Base.Esp.{esp_fail, done, failed}
use esp32emu.Storage.Nvs.{
  NvsOpenMode, nvs_readonly, nvs_readwrite, NsMode, NvsStore, put_entries, set_under, get_under,
  found_key, typed, blob_out, str_out, nvs_typed_set, nvs_typed_get, nvs_set_blob, nvs_set_str,
  nvs_get_blob, nvs_get_str,
}
use esp32emu.Storage.Nvs.Entries.{set_under-Updated, get_under-entry}

-- After a blob is set through a handle for writing, what the getters of any handle on that namespace
-- find under the key is the blob.
set-get :
    (s : NvsStore) (ns key blob : List ℕ) (mode : NvsOpenMode)
    → (get_under (set_under s (some (ns, nvs_readwrite)) key blob).0 (some (ns, mode)) key).1
      ≡ done blob
unfolding found_key
set-get s ns key blob mode =
    let same = (str_eq_iff ns ns).1 refl in
    let same' = (str_eq_iff key key).1 refl in
    get_under-entry (set_under s (some (ns, nvs_readwrite)) key blob).0 ns key mode
    ∙ ap found_key {y = some blob} (set_under-Updated s ns key blob ns key ∙ rw (same, same'))

set_under-handles :
    (s : NvsStore) (o : Option NsMode) (key blob : List ℕ)
    → (set_under s o key blob).0.handles ≡ s.handles
unfolding set_under put_entries
set_under-handles s none key blob = refl
set_under-handles s (some (ns, nvs_readonly)) key blob = refl
set_under-handles s (some (ns, nvs_readwrite)) key blob = refl

-- The same for handles of the store.
set_get_at :
    (s : NvsStore) (h k : ℕ) (ns key blob : List ℕ) (mode : NvsOpenMode)
    → lookup h s.handles ≡ some (ns, nvs_readwrite)
    → lookup k s.handles ≡ some (ns, mode)
    → let t = (set_under s (lookup h s.handles) key blob).0 in
      (get_under t (lookup k t.handles) key).1 ≡ done blob
set_get_at s h k ns key blob mode e f =
    let t = (set_under s (some (ns, nvs_readwrite)) key blob).0 in
    ap
      (λ o.
        (get_under (set_under s o key blob).0 (lookup k (set_under s o key blob).0.handles) key).1)
      e
    ∙ ap (λ o. (get_under t o key).1)
        (ap (lookup k) (set_under-handles s (some (ns, nvs_readwrite)) key blob) ∙ f)
    ∙ set-get s ns key blob mode

typed_same : (w value : ℕ) → value < 256 ^ w → typed w (done (le_bytes w value)) ≡ done value
unfolding typed
typed_same w value h =
    let fits : (length (le_bytes w value) == w) ≡ true = ground (arith, length-le_bytes w value) in
    rw fits (ap done (le_value-le_bytes w value h))

typed_other : (w w' value : ℕ) → w ≢ w' → typed w' (done (le_bytes w value)) ≡ failed esp_fail
unfolding typed
typed_other w w' value ne =
    let odd : (length (le_bytes w value) == w') ≡ false = ground (arith, length-le_bytes w value) in
    rw odd

-- An integer that fits `w` bytes and is set through a handle for writing is what a typed get of that width returns
-- through any handle on the same namespace; a typed get of another width fails.
pub typed_round_trip :
    (w : ℕ) (s : NvsStore) (h k : ℕ) (ns key : List ℕ) (mode : NvsOpenMode) (value : ℕ)
    → lookup h s.handles ≡ some (ns, nvs_readwrite)
    → lookup k s.handles ≡ some (ns, mode)
    → value < 256 ^ w
    → let t = (nvs_typed_set w s h key value).0 in
      ((nvs_typed_get w t k key).1 ≡ done value)
      × ((w' : ℕ) → w ≢ w' → (nvs_typed_get w' t k key).1 ≡ failed esp_fail)
unfolding nvs_typed_set nvs_typed_get
typed_round_trip w s h k ns key mode value e f bound =
    let got = set_get_at s h k ns key (le_bytes w value) mode e f in
    (
      ap (typed w) got ∙ typed_same w value bound,
      λ w' ne. ap (typed w') got ∙ typed_other w w' value ne,
    )

-- A string set through a handle for writing: a get without a buffer returns the room that the string
-- and its closing 0 need, a buffer with that room receives them, and a smaller one is refused.
pub str_round_trip :
    (s : NvsStore) (h k : ℕ) (ns key text : List ℕ) (mode : NvsOpenMode)
    → lookup h s.handles ≡ some (ns, nvs_readwrite)
    → lookup k s.handles ≡ some (ns, mode)
    → length text + 1 < 2 ^ 64
    → let t = (nvs_set_str s h key text).0 in
      ((nvs_get_str t k key none).1 ≡ done (none, length text + 1))
      × ((len : ℕ)
          → length text + 1 ≤ len
          → (nvs_get_str t k key (some len)).1 ≡ done (some (text ++ 0 ∷ []), length text + 1))
      × ((len : ℕ) → len ≤ length text → (nvs_get_str t k key (some len)).1 ≡ failed esp_fail)
unfolding nvs_set_str nvs_get_str str_out
str_round_trip s h k ns key text mode e f bound =
    let got = set_get_at s h k ns key text mode e f in
    let whole : add_size (length text) 1 ≡ length text + 1 = omega arith in
    (
      ap (str_out none) got ∙ rw whole,
      λ len room.
          let ok : ltb len (length text + 1) ≡ false = ground arith in
          ap (str_out (some len)) got ∙ rw (whole, ok),
      λ len tight.
          let bad : ltb len (length text + 1) ≡ true = ground arith in
          ap (str_out (some len)) got ∙ rw (whole, bad),
    )

-- The same for a blob, which has no closing 0.
pub blob_round_trip :
    (s : NvsStore) (h k : ℕ) (ns key blob : List ℕ) (mode : NvsOpenMode)
    → lookup h s.handles ≡ some (ns, nvs_readwrite)
    → lookup k s.handles ≡ some (ns, mode)
    → let t = (nvs_set_blob s h key blob).0 in
      ((nvs_get_blob t k key none).1 ≡ done (none, length blob))
      × ((len : ℕ)
          → length blob ≤ len
          → (nvs_get_blob t k key (some len)).1 ≡ done (some blob, length blob))
      × ((len : ℕ) → len < length blob → (nvs_get_blob t k key (some len)).1 ≡ failed esp_fail)
unfolding nvs_set_blob nvs_get_blob blob_out
blob_round_trip s h k ns key blob mode e f =
    let got = set_get_at s h k ns key blob mode e f in
    (
      ap (blob_out none) got,
      λ len room.
          let ok : ltb len (length blob) ≡ false = ground arith in
          ap (blob_out (some len)) got ∙ rw ok,
      λ len tight.
          let bad : ltb len (length blob) ≡ true = ground arith in
          ap (blob_out (some len)) got ∙ rw bad,
    )
