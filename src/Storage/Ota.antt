-- ===== src/Storage/Ota.antt =====
-- include/esp_ota_ops.h: an update over the air, on the partition table of include/esp_partition.h. A
-- pointer to a partition is `none` or its index. The messages to stderr are left out.
pub mod Session
mod Tests
use esp32emu.Base.{
  ℕ, ◌+◌, Bool, true, false, not, List, [], ◌++◌, Option, none, some, u32, if◌then◌else◌,
}
use esp32emu.Base.Esp.{EspErr, esp_ok, esp_fail, Outcome, done, failed}
use esp32emu.Storage.Partition.{PartitionStore, type_app, esp_partition_find_first}

-- `esp_app_desc_t`
pub record EspAppDesc : Type 0 where
  pub version : List ℕ
  pub project_name : List ℕ
  pub date : List ℕ
  pub time : List ℕ
  pub idf_ver : List ℕ

pub record OtaState : Type 0 where
  pub in_progress : Bool
  pub target : Option ℕ
  pub written_data : List ℕ
  pub handle_counter : ℕ
  pub boot_partition : Option ℕ
  pub running_partition : Option ℕ
  pub set_boot_called : Bool
  pub app_desc : EspAppDesc

-- A new state; the description of the application has the date and the time of the build.
pub reset : EspAppDesc → OtaState
reset desc = record {
  in_progress = false;
  target = none;
  written_data = [];
  handle_counter = 1;
  boot_partition = none;
  running_partition = none;
  set_boot_called = false;
  app_desc = desc;
}

-- The handle goes to `*out_handle`, which `has_out` says is no null pointer.
pub esp_ota_begin : OtaState → Option ℕ → Bool → Outcome (OtaState × ℕ)
esp_ota_begin s none has_out = failed esp_fail
esp_ota_begin s (some p) false = failed esp_fail
esp_ota_begin s (some p) true = done (
  record s {
    in_progress = true;
    target = some p;
    written_data = [];
    handle_counter = u32 (s.handle_counter + 1);
  },
  s.handle_counter,
)

pub esp_ota_write : OtaState → List ℕ → Outcome OtaState
esp_ota_write s bytes =
    if not s.in_progress
    then failed esp_fail
    else done (record s { written_data = s.written_data ++ bytes })

pub esp_ota_end : OtaState → Outcome OtaState
esp_ota_end s =
    if not s.in_progress then failed esp_fail else done (record s { in_progress = false })

pub esp_ota_set_boot_partition : OtaState → Option ℕ → Outcome OtaState
esp_ota_set_boot_partition s none = failed esp_fail
esp_ota_set_boot_partition s (some p) =
    done (record s { boot_partition = some p; set_boot_called = true })

or_factory : PartitionStore → Option ℕ → Option ℕ
or_factory table none = esp_partition_find_first table type_app 0x00 none
or_factory table (some p) = some p

pub esp_ota_get_boot_partition : PartitionStore → OtaState → Option ℕ
unfolding or_factory
esp_ota_get_boot_partition table s = or_factory table s.boot_partition

pub esp_ota_get_running_partition : PartitionStore → OtaState → Option ℕ
unfolding or_factory
esp_ota_get_running_partition table s = or_factory table s.running_partition

pub esp_ota_get_next_update_partition : PartitionStore → Option ℕ
esp_ota_get_next_update_partition table = elim (esp_partition_find_first table type_app 0x10 none) [
  | some p ↦ some p
  | none ↦ esp_partition_find_first table type_app 0x11 none
]

pub esp_ota_get_partition_description : OtaState → Bool → Outcome EspAppDesc
esp_ota_get_partition_description s false = failed esp_fail
esp_ota_get_partition_description s true = done s.app_desc
