-- ===== src/Storage/WearLevelling/Tests.antt =====
-- Runs and instances on one mounted partition of three bytes.
use esp32emu.Base.{ℕ, ◌+◌, ◌≤◌, ◌<◌, ◌≡◌, refl, List, [], ◌∷◌, arith, length, lookup, nat_key}
use esp32emu.Base.Esp.{esp_err_invalid_arg, failed}
use esp32emu.Storage.WearLevelling.{WlPartition, WlState, wl_write}
use esp32emu.Storage.WearLevelling.Handles.{Mounted, Kept, wl_write_lem}

abbrev three : WlPartition
three = record { block = 7 ∷ 8 ∷ 9 ∷ []; sector_size = 3; size = 3 }

abbrev one_mounted : WlState
one_mounted = record { partitions = (1, three) ∷ []; next_handle = 2 }

abbrev pair : List ℕ
pair = 5 ∷ 6 ∷ []

three-Mounted : Mounted one_mounted 1 three
unfolding lookup
three-Mounted = record { here = refl; sized = refl; small = omega arith }

wl_write_lem_example :
    (1 + length pair ≤ 3 → Kept one_mounted 1 three 1 pair (wl_write one_mounted 1 1 pair))
    × (3 < 1 + length pair → wl_write one_mounted 1 1 pair ≡ failed esp_err_invalid_arg)
wl_write_lem_example = wl_write_lem one_mounted 1 three 1 pair three-Mounted (omega arith)
