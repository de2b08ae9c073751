-- ===== src/FreeRtos/EventGroup/Tests.antt =====
-- Runs and instances on a group whose bits 0 and 2 are set.
use esp32emu.Base.{ℕ, zero, suc, ◌≤◌, ◌<◌, ◌≡◌, refl, true, ◌&&◌, some, arith}
use Prim.Native.Nat.{max}
use esp32emu.Base.Bits.{bit, bit_zero}
use esp32emu.FreeRtos.EventGroup.{
  EventGroup, predicate, x_event_group_set_bits, x_event_group_wait_bits, port_max_delay,
}
use esp32emu.FreeRtos.EventGroup.Waiting.{expected, wait_bits_lem}

abbrev five : EventGroup
five = record { bits = 5 }

-- Another task sets bit 1 during the wait.
abbrev setter : EventGroup → EventGroup
setter eg = (x_event_group_set_bits eg 2).0

waited : x_event_group_wait_bits setter five 3 true true 100 ≡ some (record { bits = 4 }, 7)
unfolding x_event_group_wait_bits x_event_group_set_bits
waited = refl

wait_bits_lem_example :
    (bit 4 1 ≡ expected 7 3 (predicate 7 3 true && true) 1)
    × (◌≡◌ {A = ℕ} 100 port_max_delay → predicate 7 3 true ≡ true)
    × (predicate 5 3 true ≡ true → ◌≡◌ {A = ℕ} 7 5)
wait_bits_lem_example =
    wait_bits_lem setter five (record { bits = 4 }) 3 100 7 1 true true waited (omega arith)
      (omega arith)

covered : (i : ℕ) → i < 32 → bit 3 i ≤ max (bit 5 i) (bit 2 i)
covered zero h = omega arith
covered (suc zero) h = omega arith
covered (suc (suc i)) h = omega (arith, bit_zero i)
