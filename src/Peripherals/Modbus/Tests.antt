-- ===== src/Peripherals/Modbus/Tests.antt =====
-- An instance where the addresses wrap.
use esp32emu.Base.{
  ℕ, ◌+◌, ◌<◌, ◌≡◌, ◌≢◌, refl, false, [], ◌∷◌, arith, get_or, min, u16, lookup, nat_key,
}
use esp32emu.Peripherals.Modbus.{
  ModbusMaster, success, write_multiple_registers, read_holding_registers, get_response_buffer,
}
use esp32emu.Peripherals.Modbus.Registers.{write_read_registers}

abbrev master : ModbusMaster
master = record {
  slave_id = 1;
  registers = (9, 5) ∷ [];
  coils = [];
  tx_buffer = 10 ∷ 20 ∷ 30 ∷ [];
  response_addr = 0;
  response_qty = 0;
  fail_next = false;
}

write_read_registers_example :
    let written = (write_multiple_registers 65535 2 master).0 in
    let reading = (read_holding_registers 65535 2 written).0 in
    ((write_multiple_registers 65535 2 master).1 ≡ success)
    × ((j : ℕ) → j < min 2 64 → get_response_buffer j reading ≡ get_or master.tx_buffer j 0)
    × ((key : ℕ)
        → ((j : ℕ) → j < min 2 64 → u16 (65535 + j) ≢ key)
        → lookup key reading.registers ≡ lookup key master.registers)
write_read_registers_example = write_read_registers master 65535 2 2 refl (omega arith)
