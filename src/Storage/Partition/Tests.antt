-- ===== src/Storage/Partition/Tests.antt =====
-- Runs and instances on a table of two small partitions, and on the default table.
use esp32emu.Base.{◌+◌, ◌-◌, ◌^◌, ◌≤◌, ◌<◌, ◌≡◌, refl, true, false, [], ◌∷◌, none, some, arith}
use esp32emu.Base.Esp.{esp_err_invalid_size, failed, fault}
use esp32emu.Storage.Partition.{
  EspPartition, PartitionStore, fits, esp_partition_find_first, esp_partition_read,
  esp_partition_write,
}
use esp32emu.Storage.Partition.Access.{IsValid, Wrote, partition_write_lem, partition_read_wraps}

abbrev left : EspPartition
left = record { ptype = 1; subtype = 2; address = 0; size = 3; label = []; encrypted = false }

abbrev right : EspPartition
right = record { ptype = 0; subtype = 16; address = 3; size = 2; label = []; encrypted = false }

abbrev store : PartitionStore
store = record { partitions = left ∷ right ∷ []; blocks = (1 ∷ 2 ∷ 3 ∷ []) ∷ (4 ∷ 5 ∷ []) ∷ [] }

store-IsValid : IsValid store
store-IsValid = record { matched = (refl, omega arith, (refl, omega arith, tt)) }

partition_write_lem_example :
    (1 + 2 ≤ 3
      → Wrote store 0 3 1 (8 ∷ 9 ∷ []) (esp_partition_write store (some 0) 1 (some (8 ∷ 9 ∷ []))))
    × (3 < 1 + 2
        → esp_partition_write store (some 0) 1 (some (8 ∷ 9 ∷ [])) ≡ failed esp_err_invalid_size)
partition_write_lem_example =
    partition_write_lem store 0 left 1 (8 ∷ 9 ∷ []) store-IsValid refl (omega arith)

partition_read_wraps_example : esp_partition_read store (some 0) 2 true (2 ^ 64 - 1) ≡ fault
partition_read_wraps_example =
    partition_read_wraps store 0 left 2 (2 ^ 64 - 1) store-IsValid refl (omega arith) (omega arith)
      (omega arith) (omega arith)

found_app : esp_partition_find_first store 0 0xFF none ≡ some 1
unfolding esp_partition_find_first fits
found_app = refl
