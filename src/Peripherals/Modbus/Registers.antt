-- ===== src/Peripherals/Modbus/Registers.antt =====
-- Registers that are written in one transaction and read in another.
use esp32emu.Base.{
  ℕ, zero, suc, ◌+◌, ◌^◌, ◌≤◌, ◌<◌, ◌≡◌, ◌≢◌, refl, sym, ap, ◌∙◌, inl, inr, Bool, false, some, List,
  arith, if◌then◌else◌, ltb, get_or, min, u16, lookup, insert, lookup-insert_self, lookup-insert_ne,
  nat_key, Bool-cases,
}
use esp32emu.Peripherals.Modbus.{
  ModbusMaster, Result, success, response_timed_out, write_loop, write_multiple_registers,
  read_holding_registers, get_response_buffer, finish, or_zero,
}

-- A register that no round of the loop writes keeps what is under it.
write_loop-ne :
    (addr : ℕ) (tx : List ℕ) (i rounds : ℕ) (m : List (ℕ × ℕ)) (key : ℕ)
    → ((j : ℕ) → i ≤ j → j < i + rounds → u16 (addr + j) ≢ key)
    → lookup key (write_loop addr tx i rounds m) ≡ lookup key m
unfolding write_loop
write_loop-ne addr tx i zero m key h = refl
write_loop-ne addr tx i (suc rounds) m key h =
    write_loop-ne addr tx (i + 1) rounds (insert (u16 (addr + i)) (get_or tx i 0) m) key
      (λ j low high. h j (omega arith) (omega arith))
    ∙ lookup-insert_ne (u16 (addr + i)) key (get_or tx i 0) m (h i (omega arith) (omega arith))

-- Two of at most 64 consecutive registers are not the same, also where the addresses wrap.
registers_ne : (addr i j : ℕ) → i < j → j < i + 64 → u16 (addr + j) ≢ u16 (addr + i)
registers_ne addr i j low high e = omega arith

write_loop_lem :
    (addr : ℕ) (tx : List ℕ) (i rounds j : ℕ) (m : List (ℕ × ℕ))
    → rounds ≤ 64
    → i ≤ j
    → j < i + rounds
    → lookup (u16 (addr + j)) (write_loop addr tx i rounds m) ≡ some (get_or tx j 0)
unfolding write_loop
write_loop_lem addr tx i zero j m few low high = absurd (omega arith)
write_loop_lem addr tx i (suc rounds) j m few low high =
    let next = insert (u16 (addr + i)) (get_or tx i 0) m in
    elim (Bool-cases (ltb i j)) [
      | inl later ↦
          write_loop_lem addr tx (i + 1) rounds j next (omega arith) (ground arith) (omega arith)
      | inr other ↦
          let same : i ≡ j = ground arith in
          ap (λ (n : ℕ). lookup (u16 (addr + n)) (write_loop addr tx (i + 1) rounds next))
            (sym same)
          ∙ write_loop-ne addr tx (i + 1) rounds next (u16 (addr + i))
              (λ k below above. registers_ne addr i k (omega arith) (omega arith))
          ∙ lookup-insert_self (u16 (addr + i)) (get_or tx i 0) m
          ∙ ap (λ (n : ℕ). some (get_or tx n 0)) same
    ]

finish-success : (m : ModbusMaster) → m.fail_next ≡ false → finish m ≡ (m, success)
unfolding finish
finish-success m h =
    ap
      (λ (b : Bool).
        if b then (record m { fail_next = false }, response_timed_out) else (m, success))
      h

-- What is written to registers from an address on, at most 64 of the transmit buffer, is what the response to a read from
-- there holds, where no transaction is told to fail; every register that is not among them is as before.
pub write_read_registers :
    (m : ModbusMaster) (addr qty read_qty : ℕ)
    → m.fail_next ≡ false
    → addr < 2 ^ 16
    → let written = (write_multiple_registers addr qty m).0 in
      let reading = (read_holding_registers addr read_qty written).0 in
      ((write_multiple_registers addr qty m).1 ≡ success)
      × ((j : ℕ) → j < min qty 64 → get_response_buffer j reading ≡ get_or m.tx_buffer j 0)
      × ((key : ℕ)
          → ((j : ℕ) → j < min qty 64 → u16 (addr + j) ≢ key)
          → lookup key reading.registers ≡ lookup key m.registers)
unfolding write_multiple_registers read_holding_registers get_response_buffer or_zero
write_read_registers m addr qty read_qty ok small =
    let loop = write_loop addr m.tx_buffer 0 (min qty 64) m.registers in
    let written = record m { registers = loop } in
    let reading = record written { response_qty = read_qty; response_addr = addr } in
    let wrote = finish-success written ok in
    let read = finish-success reading ok in
    (
      ap (λ (p : ModbusMaster × Result). p.1) wrote,
      λ j h.
          ap
            (λ (p : ModbusMaster × Result).
              get_response_buffer j (read_holding_registers addr read_qty p.0).0)
            wrote
          ∙ ap (λ (p : ModbusMaster × Result). get_response_buffer j p.0) read
          ∙ ap or_zero (
              write_loop_lem addr m.tx_buffer 0 (min qty 64) j m.registers (omega arith)
                (omega arith) (omega arith)),
      λ key h.
          ap
            (λ (p : ModbusMaster × Result).
              lookup key (read_holding_registers addr read_qty p.0).0.registers)
            wrote
          ∙ ap (λ (p : ModbusMaster × Result). lookup key p.0.registers) read
          ∙ write_loop-ne addr m.tx_buffer 0 (min qty 64) m.registers key
              (λ j low high. h j (omega arith)),
    )
