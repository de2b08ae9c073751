-- ===== src/Storage/Ota/Tests.antt =====
-- Runs and instances on a table with a factory partition and one OTA slot.
use esp32emu.Base.{ℕ, ◌≡◌, refl, true, false, List, [], ◌∷◌, none, some}
use esp32emu.Base.Esp.{esp_fail, done, failed}
use esp32emu.Storage.Partition.{
  EspPartition, PartitionStore, type_app, fits, esp_partition_find_first,
}
use esp32emu.Storage.Ota.{OtaState, esp_ota_begin, esp_ota_write, esp_ota_end}
use esp32emu.Storage.Ota.Session.{joined, writes, ota_session}

abbrev idle : OtaState
idle = record {
  in_progress = false;
  target = none;
  written_data = [];
  handle_counter = 1;
  boot_partition = none;
  running_partition = none;
  set_boot_called = false;
  app_desc = record { version = []; project_name = []; date = []; time = []; idf_ver = [] };
}

abbrev slot : ℕ → EspPartition
slot sub = record { ptype = 0; subtype = sub; address = 0; size = 1; label = []; encrypted = false }

abbrev table : PartitionStore
table = record { partitions = slot 0 ∷ slot 0x10 ∷ []; blocks = (0xFF ∷ []) ∷ (0xFF ∷ []) ∷ [] }

abbrev chunks : List (List ℕ)
chunks = (1 ∷ []) ∷ (2 ∷ 3 ∷ []) ∷ []

ota_session_example :
    (s1 : OtaState) × (s2 : OtaState) × (s3 : OtaState) × (esp_ota_begin idle (some 1) true
      ≡ done (s1, 1))
    × (writes s1 chunks ≡ done s2)
    × (s2.written_data ≡ joined chunks)
    × (s2.target ≡ some 1)
    × (esp_ota_end s2 ≡ done s3)
    × ((bytes : List ℕ) → esp_ota_write s3 bytes ≡ failed esp_fail)
    × (esp_ota_end s3 ≡ failed esp_fail)
ota_session_example = ota_session idle 1 chunks

second : esp_partition_find_first table type_app 0x10 none ≡ some 1
unfolding esp_partition_find_first fits
second = refl
