-- ===== src/Storage/Nvs.antt =====
-- include/nvs_flash.h: namespaces of keys and blobs, behind handles. Strings are their bytes, without
-- the closing 0; an integer goes in and out as the bytes of its word, the lowest first.
pub mod Entries
pub mod Typed
mod Tests
use esp32emu.Base.{
  ℕ, ◌+◌, Bool, true, false, not, List, [], ◌∷◌, ◌++◌, Option, none, some, ltb, ◌==◌, u32, add_size,
  if◌then◌else◌, length, lookup, insert, erase, nat_key, str_key,
}
use esp32emu.Base.Bytes.{le_bytes, le_value}
use esp32emu.Base.Esp.{
  EspErr, esp_ok, esp_fail, esp_err_nvs_not_found, esp_err_nvs_invalid_handle,
  esp_err_nvs_invalid_name, Outcome, done, failed, fault,
}

pub data NvsOpenMode : Type 0 where
  nvs_readonly nvs_readwrite : NvsOpenMode

abbrev pub Entries : Type 0
Entries = List (List ℕ × List ℕ)

abbrev pub NsMode : Type 0
NsMode = List ℕ × NvsOpenMode

pub record NvsStore : Type 0 where
  pub data_ : List (List ℕ × Entries)
  pub next_handle : ℕ
  pub handles : List (ℕ × NsMode)
  pub initialized : Bool

-- `NVSStore::clear`, and a new store.
pub clear : NvsStore
clear = record { data_ = []; next_handle = 1; handles = []; initialized = false }

pub nvs_flash_init : NvsStore → NvsStore
nvs_flash_init s = record s { initialized = true }

pub nvs_flash_erase : NvsStore → NvsStore
nvs_flash_erase s = record s { data_ = [] }

-- The handle goes to `*out`, which `has_out` says is no null pointer; `none` is a null name.
pub nvs_open : NvsStore → Option (List ℕ) → NvsOpenMode → Bool → Outcome (NvsStore × ℕ)
nvs_open s none mode has_out = failed esp_err_nvs_invalid_name
nvs_open s (some ns) mode false = failed esp_err_nvs_invalid_name
nvs_open s (some ns) mode true =
    let h = s.next_handle in
    done (record s { next_handle = u32 (h + 1); handles = insert h (ns, mode) s.handles }, h)

pub nvs_close : NvsStore → ℕ → NvsStore
nvs_close s h = record s { handles = erase h s.handles }

-- `s.data[ns]`: a missing namespace is an empty one.
pub entries : NvsStore → List ℕ → Entries
entries s ns = elim (lookup ns s.data_) [ none ↦ [] | some m ↦ m ]

put_entries : NvsStore → List ℕ → Entries → NvsStore
put_entries s ns m = record s { data_ = insert ns m s.data_ }

-- What the setters share: the handle, its mode, and the blob that is stored.
pub set_under : NvsStore → Option NsMode → List ℕ → List ℕ → NvsStore × EspErr
unfolding entries put_entries
set_under s none key blob = (s, esp_err_nvs_invalid_handle)
set_under s (some (ns, nvs_readonly)) key blob = (s, esp_fail)
set_under s (some (ns, nvs_readwrite)) key blob =
    (put_entries s ns (insert key blob (entries s ns)), esp_ok)

pub nvs_set_blob : NvsStore → ℕ → List ℕ → List ℕ → NvsStore × EspErr
unfolding set_under
nvs_set_blob s h key blob = set_under s (lookup h s.handles) key blob

-- `value` is the characters of the string before its closing 0.
pub nvs_set_str : NvsStore → ℕ → List ℕ → List ℕ → NvsStore × EspErr
unfolding set_under
nvs_set_str s h key value = set_under s (lookup h s.handles) key value

-- `NVS_TYPED_SET` for a type of `w` bytes.
pub nvs_typed_set : ℕ → NvsStore → ℕ → List ℕ → ℕ → NvsStore × EspErr
unfolding set_under
nvs_typed_set w s h key value = set_under s (lookup h s.handles) key (le_bytes w value)

pub nvs_set_i32 : NvsStore → ℕ → List ℕ → ℕ → NvsStore × EspErr
unfolding set_under
nvs_set_i32 s h key value = set_under s (lookup h s.handles) key (le_bytes 4 value)

pub nvs_set_u32 : NvsStore → ℕ → List ℕ → ℕ → NvsStore × EspErr
unfolding set_under
nvs_set_u32 s h key value = set_under s (lookup h s.handles) key (le_bytes 4 value)

pub found_key : Option (List ℕ) → Outcome (List ℕ)
found_key none = failed esp_err_nvs_not_found
found_key (some blob) = done blob

-- What the getters share: the handle, the namespace, which comes to be if it is missing, and the key.
pub get_under : NvsStore → Option NsMode → List ℕ → NvsStore × Outcome (List ℕ)
unfolding entries put_entries found_key
get_under s none key = (s, failed esp_err_nvs_invalid_handle)
get_under s (some (ns, mode)) key =
    let kv = entries s ns in (put_entries s ns kv, found_key (lookup key kv))

typed : ℕ → Outcome (List ℕ) → Outcome ℕ
typed w (done blob) = if not (length blob == w) then failed esp_fail else done (le_value blob)
typed w (failed e) = failed e
typed w fault = fault

-- `NVS_TYPED_GET` for a type of `w` bytes.
pub nvs_typed_get : ℕ → NvsStore → ℕ → List ℕ → NvsStore × Outcome ℕ
unfolding get_under typed
nvs_typed_get w s h key = let (s', r) = get_under s (lookup h s.handles) key in (s', typed w r)

pub nvs_get_i32 : NvsStore → ℕ → List ℕ → NvsStore × Outcome ℕ
unfolding get_under typed
nvs_get_i32 s h key = let (s', r) = get_under s (lookup h s.handles) key in (s', typed 4 r)

pub nvs_get_u32 : NvsStore → ℕ → List ℕ → NvsStore × Outcome ℕ
unfolding get_under typed
nvs_get_u32 s h key = let (s', r) = get_under s (lookup h s.handles) key in (s', typed 4 r)

-- `out` is null, or what `*len` says its size is: the bytes that go to `out`, and the new `*len`.
blob_out : Option ℕ → Outcome (List ℕ) → Outcome (Option (List ℕ) × ℕ)
blob_out none (done blob) = done (none, length blob)
blob_out (some len) (done blob) =
    if ltb len (length blob) then failed esp_fail else done (some blob, length blob)
blob_out out (failed e) = failed e
blob_out out fault = fault

pub nvs_get_blob : NvsStore → ℕ → List ℕ → Option ℕ → NvsStore × Outcome (Option (List ℕ) × ℕ)
unfolding get_under blob_out
nvs_get_blob s h key out =
    let (s', r) = get_under s (lookup h s.handles) key in (s', blob_out out r)

-- The same for a string, whose copy is closed by a 0.
str_out : Option ℕ → Outcome (List ℕ) → Outcome (Option (List ℕ) × ℕ)
str_out none (done blob) = done (none, add_size (length blob) 1)
str_out (some len) (done blob) =
    let needed = add_size (length blob) 1 in
    if ltb len needed then failed esp_fail else done (some (blob ++ 0 ∷ []), needed)
str_out out (failed e) = failed e
str_out out fault = fault

pub nvs_get_str : NvsStore → ℕ → List ℕ → Option ℕ → NvsStore × Outcome (Option (List ℕ) × ℕ)
unfolding get_under str_out
nvs_get_str s h key out = let (s', r) = get_under s (lookup h s.handles) key in (s', str_out out r)

erase_under : NvsStore → Option NsMode → List ℕ → NvsStore × EspErr
unfolding entries put_entries
erase_under s none key = (s, esp_err_nvs_invalid_handle)
erase_under s (some (ns, mode)) key = (put_entries s ns (erase key (entries s ns)), esp_ok)

pub nvs_erase_key : NvsStore → ℕ → List ℕ → NvsStore × EspErr
unfolding erase_under
nvs_erase_key s h key = erase_under s (lookup h s.handles) key

clear_under : NvsStore → Option NsMode → NvsStore × EspErr
unfolding put_entries
clear_under s none = (s, esp_err_nvs_invalid_handle)
clear_under s (some (ns, mode)) = (put_entries s ns [], esp_ok)

pub nvs_erase_all : NvsStore → ℕ → NvsStore × EspErr
unfolding clear_under
nvs_erase_all s h = clear_under s (lookup h s.handles)

pub nvs_commit : NvsStore → NvsStore × EspErr
nvs_commit s = (s, esp_ok)
