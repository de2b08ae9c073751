-- ===== src/Storage/Flash/Tests.antt =====
-- Runs and instances on a flash of four bytes.
use esp32emu.Base.{ℕ, ◌+◌, ◌≤◌, ◌<◌, ◌≡◌, refl, List, [], ◌∷◌, arith, length}
use esp32emu.Base.Esp.{esp_err_invalid_size, done, failed}
use esp32emu.Storage.Flash.{esp_flash_read, esp_flash_write, esp_flash_erase_region}
use esp32emu.Storage.Flash.Cells.{Masked, flash_write_lem, erase_write_read}

abbrev chip : List ℕ
chip = 0xFF ∷ 0x3C ∷ 0xFF ∷ 0xFF ∷ []

abbrev two : List ℕ
two = 0x0F ∷ 0x81 ∷ []

flash_write_lem_example :
    (1 + length two ≤ length chip → Masked chip 1 two (esp_flash_write chip 1 two))
    × (length chip < 1 + length two → esp_flash_write chip 1 two ≡ failed esp_err_invalid_size)
flash_write_lem_example = flash_write_lem chip 1 two (omega arith) (omega arith)

written_twice : esp_flash_write chip 1 two ≡ done (0xFF ∷ 0x0C ∷ 0x81 ∷ 0xFF ∷ [])
unfolding esp_flash_write
written_twice = refl

erase_write_read_example :
    (e : List ℕ) × (w : List ℕ) × (esp_flash_erase_region chip 1 2 ≡ done e)
    × (esp_flash_write e 1 two ≡ done w)
    × (esp_flash_read w 1 2 ≡ done two)
erase_write_read_example =
    erase_write_read chip 1 two (omega arith) (omega arith) (omega arith, (omega arith, tt))
