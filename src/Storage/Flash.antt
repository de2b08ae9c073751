-- ===== src/Storage/Flash.antt =====
-- include/esp_flash.h: one flash chip, as the list of its bytes. Addresses and lengths are words of 32
-- bits, and their sum wraps.
pub mod Cells
mod Tests
use esp32emu.Base.{
  ℕ, ◌+◌, List, [], ◌∷◌, ltb, u32, if◌then◌else◌, length, get_or, set, replicate, bit_and, true,
  false,
}
use esp32emu.Base.Esp.{
  EspErr, esp_err_invalid_size, Outcome, done, failed, fault, copy_out, copy_in,
}

pub esp_flash_get_size : List ℕ → ℕ
esp_flash_get_size storage = u32 (length storage)

pub esp_flash_read : List ℕ → ℕ → ℕ → Outcome (List ℕ)
esp_flash_read storage address len =
    if ltb (length storage) (u32 (address + len))
    then failed esp_err_invalid_size
    else copy_out storage address len

-- `storage[address + i] &= src[i]` for the rest of `src` from `i` on; past the end it is a fault.
pub and_loop : List ℕ → ℕ → List ℕ → ℕ → Outcome (List ℕ)
and_loop storage address [] i = done storage
and_loop storage address (s ∷ src) i =
    let k = u32 (address + i) in
    elim (ltb k (length storage)) [
      | true ↦ and_loop (set storage k (bit_and (get_or storage k 0) s)) address src (i + 1)
      | false ↦ fault
    ]

-- `src` is the buffer, all `length` bytes.
pub esp_flash_write : List ℕ → ℕ → List ℕ → Outcome (List ℕ)
unfolding and_loop
esp_flash_write storage address src =
    if ltb (length storage) (u32 (address + length src))
    then failed esp_err_invalid_size
    else and_loop storage address src 0

pub esp_flash_erase_region : List ℕ → ℕ → ℕ → Outcome (List ℕ)
esp_flash_erase_region storage start len =
    if ltb (length storage) (u32 (start + len))
    then failed esp_err_invalid_size
    else copy_in storage start (replicate len 0xFF)

pub esp_flash_erase_chip : List ℕ → List ℕ
esp_flash_erase_chip storage = replicate (length storage) 0xFF

-- The test helper `flash_reset`.
pub flash_reset : List ℕ → List ℕ
flash_reset storage = replicate (length storage) 0xFF
