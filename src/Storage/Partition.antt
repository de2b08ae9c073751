-- ===== src/Storage/Partition.antt =====
-- include/esp_partition.h. A pointer to a partition is `none` (null) or an index; an index past the
-- table stands for a pointer that is not into it. A label is its bytes, at most 16 of them.
pub mod Access
pub mod Lookup
mod Tests
use esp32emu.Base.{
  ℕ, zero, suc, ◌+◌, ◌-◌, ◌≤◌, ◌<◌, Bool, true, false, not, ◌&&◌, ◌||◌, List, [], ◌∷◌, ◌++◌, Option,
  none, some, ltb, ◌==◌, add_size, if◌then◌else◌, length, get_elem?, set, take, replicate, str_eq,
}
use esp32emu.Base.Esp.{
  EspErr, esp_fail, esp_err_invalid_size, esp_err_not_found, Outcome, done, failed, fault, copy_out,
  copy_in,
}

-- `esp_partition_t`
pub record EspPartition : Type 0 where
  pub ptype : ℕ
  pub subtype : ℕ
  pub address : ℕ
  pub size : ℕ
  pub label : List ℕ
  pub encrypted : Bool

pub record PartitionStore : Type 0 where
  pub partitions : List EspPartition
  pub blocks : List (List ℕ)

abbrev pub type_app : ℕ
type_app = 0

abbrev pub type_data : ℕ
type_data = 1

abbrev pub subtype_any : ℕ
subtype_any = 0xFF

pub add : PartitionStore → List ℕ → ℕ → ℕ → ℕ → ℕ → PartitionStore
add st label t sub addr sz = record {
  partitions =
      st.partitions
      ++ record {
        ptype = t;
        subtype = sub;
        address = addr;
        size = sz;
        label = take 16 label;
        encrypted = false;
      }
        ∷ [];
  blocks = st.blocks ++ replicate sz 0xFF ∷ [];
}

-- The labels "factory", "ota_0", "ota_1", "nvs", "otadata", "spiffs".
abbrev factory : List ℕ
factory = b'f' ∷ b'a' ∷ b'c' ∷ b't' ∷ b'o' ∷ b'r' ∷ b'y' ∷ []

abbrev ota : ℕ → List ℕ
ota n = b'o' ∷ b't' ∷ b'a' ∷ b'_' ∷ (b'0' + n) ∷ []

abbrev nvs : List ℕ
nvs = b'n' ∷ b'v' ∷ b's' ∷ []

abbrev otadata : List ℕ
otadata = b'o' ∷ b't' ∷ b'a' ∷ b'd' ∷ b'a' ∷ b't' ∷ b'a' ∷ []

abbrev spiffs : List ℕ
spiffs = b's' ∷ b'p' ∷ b'i' ∷ b'f' ∷ b'f' ∷ b's' ∷ []

-- The default table.
pub reset : PartitionStore
reset =
    let s0 : PartitionStore = record { partitions = []; blocks = [] } in
    let s1 = add s0 factory type_app 0x00 0x10000 0x100000 in
    let s2 = add s1 (ota 0) type_app 0x10 0x110000 0x100000 in
    let s3 = add s2 (ota 1) type_app 0x11 0x210000 0x100000 in
    let s4 = add s3 nvs type_data 0x02 0x9000 0x5000 in
    let s5 = add s4 otadata type_data 0x00 0xE000 0x2000 in
    add s5 spiffs type_data 0x82 0x310000 0xF0000

label_fits : Option (List ℕ) → EspPartition → Bool
label_fits none p = true
label_fits (some label) p = str_eq p.label label

unfoldable pub fits : ℕ → ℕ → Option (List ℕ) → EspPartition → Bool
unfolding label_fits str_eq
fits t sub label p = p.ptype == t && (sub == subtype_any || p.subtype == sub) && label_fits label p

find_from : ℕ → ℕ → Option (List ℕ) → List EspPartition → ℕ → Option ℕ
find_from t sub label [] i = none
find_from t sub label (p ∷ ps) i =
    let rest = find_from t sub label ps (i + 1) in if fits t sub label p then some i else rest

unfoldable pub esp_partition_find_first : PartitionStore → ℕ → ℕ → Option (List ℕ) → Option ℕ
unfolding find_from
esp_partition_find_first st t sub label = find_from t sub label st.partitions 0

-- The loops over the table with `&partitions[i] == part`, as what they find: the partition and its
-- block. A table with fewer blocks than partitions is read out of range.
with_block : EspPartition → Option (List ℕ) → Outcome (EspPartition × List ℕ)
with_block p none = fault
with_block p (some b) = done (p, b)

found : List (List ℕ) → ℕ → Option EspPartition → Outcome (EspPartition × List ℕ)
found blocks i none = failed esp_err_not_found
found blocks i (some p) = with_block p (get_elem? blocks i)

locate : PartitionStore → ℕ → Outcome (EspPartition × List ℕ)
unfolding found with_block
locate st i = found st.blocks i (get_elem? st.partitions i)

infixl 5 ◌>>=◌
abbrev ◌>>=◌ {ℓ κ} : {A : Type ℓ} {B : Type κ} → Outcome A → (A → Outcome B) → Outcome B
done a >>= f = f a
failed e >>= f = failed e
fault >>= f = fault

-- The bytes that go to `dst`, which `has_dst` says is no null pointer.
pub esp_partition_read : PartitionStore → Option ℕ → ℕ → Bool → ℕ → Outcome (List ℕ)
unfolding locate
esp_partition_read st none offset has_dst size = failed esp_fail
esp_partition_read st (some i) offset has_dst size = if not has_dst then failed esp_fail else (do
  (p, b) ← locate st i
  if ltb p.size (add_size offset size) then failed esp_err_invalid_size else copy_out b offset size)

store_block : PartitionStore → ℕ → List ℕ → PartitionStore
store_block st i b = record st { blocks = set st.blocks i b }

write_to : PartitionStore → ℕ → ℕ → List ℕ → Outcome PartitionStore
unfolding locate store_block
write_to st i offset src = do
  (p, b) ← locate st i
  if ltb p.size (add_size offset (length src))
      then failed esp_err_invalid_size
      else (do b' ← copy_in b offset src; done (store_block st i b'))

-- `src` is the source's bytes, all `size` of them, or a null pointer.
pub esp_partition_write : PartitionStore → Option ℕ → ℕ → Option (List ℕ) → Outcome PartitionStore
unfolding write_to
esp_partition_write st none offset src = failed esp_fail
esp_partition_write st (some i) offset none = failed esp_fail
esp_partition_write st (some i) offset (some src) = write_to st i offset src

pub esp_partition_erase_range : PartitionStore → Option ℕ → ℕ → ℕ → Outcome PartitionStore
unfolding locate store_block
esp_partition_erase_range st none offset size = failed esp_fail
esp_partition_erase_range st (some i) offset size = do
  (p, b) ← locate st i
  if ltb p.size (add_size offset size)
      then failed esp_err_invalid_size
      else (do b' ← copy_in b offset (replicate size 0xFF); done (store_block st i b'))
