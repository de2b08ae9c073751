-- ===== src/Storage/Eeprom.antt =====
-- include/EEPROM.h: a memory of bytes. An address is the word of its `int`, and a value of a type `T` is
-- its bytes. A sum of an address and a size that is no `int` is a fault.
pub mod Cells
use esp32emu.Base.{
  ℕ, ◌+◌, ◌-◌, ◌^◌, Bool, true, false, not, ◌&&◌, List, ◌++◌, ltb, leb, u32, if◌then◌else◌, length,
  get_or, set, take, replicate,
}
use esp32emu.Base.Bytes.{read_at, write_at}
use esp32emu.Base.Esp.{Outcome, done, failed, fault}

-- `data_.resize(size, 0)`
pub begin : List ℕ → ℕ → List ℕ
begin cells size = take size cells ++ replicate (size - length cells) 0

-- `addr >= 0`, and `a < b` for two words of 32 bits.
abbrev pub is_natural : ℕ → Bool
is_natural addr = ltb addr (2 ^ 31)

abbrev pub s32_ltb : ℕ → ℕ → Bool
s32_ltb a b = ltb (u32 (a + 2 ^ 31)) (u32 (b + 2 ^ 31))

pub read : List ℕ → ℕ → ℕ
read cells addr =
    if is_natural addr && s32_ltb addr (u32 (length cells)) then get_or cells addr 0 else 0

pub write : List ℕ → ℕ → ℕ → List ℕ
write cells addr val =
    if is_natural addr && s32_ltb addr (u32 (length cells)) then set cells addr val else cells

-- `addr >= 0 && addr + (int)sizeof(T) <= (int)data_.size()` for a type of `n` bytes.
pub fits : List ℕ → ℕ → ℕ → Outcome Bool
fits cells addr n =
    if not (is_natural addr)
    then done false
    else if leb (2 ^ 31) (addr + n)
    then fault
    else done (not (s32_ltb (u32 (length cells)) (addr + n)))

-- `t` is the variable's bytes before.
pub get : List ℕ → ℕ → List ℕ → Outcome (List ℕ)
unfolding fits
get cells addr t = elim (fits cells addr (length t)) [
  | done ok ↦ done (if ok then read_at cells addr (length t) else t)
  | failed e ↦ failed e
  | fault ↦ fault
]

pub put : List ℕ → ℕ → List ℕ → Outcome (List ℕ)
unfolding fits
put cells addr t = elim (fits cells addr (length t)) [
  | done ok ↦ done (if ok then write_at cells addr t else cells)
  | failed e ↦ failed e
  | fault ↦ fault
]

unfoldable pub size : List ℕ → ℕ
size cells = length cells
