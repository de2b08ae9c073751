-- ===== src/Peripherals/Modbus.antt =====
-- include/ModbusMaster.h: a master whose slave is a table of registers and coils. The callbacks before and after
-- a transmission toggle pins outside of it.
pub mod Registers
mod Tests
use esp32emu.Base.{
  ℕ, zero, suc, ◌+◌, ◌^◌, min, Bool, true, false, Option, none, some, List, [], ◌∷◌, if◌then◌else◌,
  ltb, get_or, set, replicate, u16, lookup, insert, nat_key,
}

pub record ModbusMaster : Type 0 where
  pub slave_id : ℕ
  pub registers : List (ℕ × ℕ)
  pub coils : List (ℕ × ℕ)
  pub tx_buffer : List ℕ
  pub response_addr : ℕ
  pub response_qty : ℕ
  pub fail_next : Bool

pub data Result : Type 0 where
  success response_timed_out : Result

pub begin : ℕ → ModbusMaster → ModbusMaster
begin slave_id m = record m { slave_id = slave_id }

-- The end of every transaction: one that is told to fail times out.
pub finish : ModbusMaster → ModbusMaster × Result
finish m =
    if m.fail_next then (record m { fail_next = false }, response_timed_out) else (m, success)

pub read_holding_registers : ℕ → ℕ → ModbusMaster → ModbusMaster × Result
read_holding_registers addr qty m = finish (record m { response_qty = qty; response_addr = addr })

pub read_input_registers : ℕ → ℕ → ModbusMaster → ModbusMaster × Result
read_input_registers addr qty m = finish (record m { response_qty = qty; response_addr = addr })

pub read_coils : ℕ → ℕ → ModbusMaster → ModbusMaster × Result
read_coils addr qty m = finish (record m { response_qty = qty; response_addr = addr })

pub write_single_register : ℕ → ℕ → ModbusMaster → ModbusMaster × Result
write_single_register addr val m = finish (record m { registers = insert addr val m.registers })

-- The loop `for (i = 0; i < qty && i < 64; i++)`, from `i` on for the rounds that are left.
pub write_loop : ℕ → List ℕ → ℕ → ℕ → List (ℕ × ℕ) → List (ℕ × ℕ)
write_loop addr tx i zero registers = registers
write_loop addr tx i (suc rounds) registers =
    write_loop addr tx (i + 1) rounds (insert (u16 (addr + i)) (get_or tx i 0) registers)

pub write_multiple_registers : ℕ → ℕ → ModbusMaster → ModbusMaster × Result
write_multiple_registers addr qty m =
    finish (record m { registers = write_loop addr m.tx_buffer 0 (min qty 64) m.registers })

pub write_single_coil : ℕ → ℕ → ModbusMaster → ModbusMaster × Result
write_single_coil addr val m = finish (record m { coils = insert addr val m.coils })

pub or_zero : Option ℕ → ℕ
or_zero none = 0
or_zero (some v) = v

pub get_response_buffer : ℕ → ModbusMaster → ℕ
unfolding or_zero
get_response_buffer index m = or_zero (lookup (u16 (m.response_addr + index)) m.registers)

pub set_transmit_buffer : ℕ → ℕ → ModbusMaster → ModbusMaster
set_transmit_buffer index value m =
    if ltb index 64 then record m { tx_buffer = set m.tx_buffer index value } else m

pub clear_transmit_buffer : ModbusMaster → ModbusMaster
clear_transmit_buffer m = record m { tx_buffer = replicate 64 0 }

-- The test helpers.
pub emu_set_register : ℕ → ℕ → ModbusMaster → ModbusMaster
emu_set_register addr val m = record m { registers = insert addr val m.registers }

pub emu_get_register : ℕ → ModbusMaster → ℕ
unfolding or_zero
emu_get_register addr m = or_zero (lookup addr m.registers)

pub emu_set_coil : ℕ → ℕ → ModbusMaster → ModbusMaster
emu_set_coil addr val m = record m { coils = insert addr val m.coils }

pub emu_get_coil : ℕ → ModbusMaster → ℕ
unfolding or_zero
emu_get_coil addr m = or_zero (lookup addr m.coils)

pub emu_set_fail_next : Bool → ModbusMaster → ModbusMaster
emu_set_fail_next f m = record m { fail_next = f }
