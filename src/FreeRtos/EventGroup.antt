-- ===== src/FreeRtos/EventGroup.antt =====
-- include/freertos/event_groups.h. A wait releases the mutex: what the other tasks make of the group
-- until it ends is the argument `others`.
pub mod Waiting
mod Tests
use esp32emu.Base.{
  ℕ, Bool, true, false, not, ◌&&◌, Option, none, some, ltb, ◌==◌, if◌then◌else◌, bit_and, bit_or,
}
use esp32emu.Base.Bits.{bit_not}

-- `EventGroup`; `bits` is an `EventBits_t` of 32 bits.
pub record EventGroup : Type 0 where
  pub bits : ℕ

abbrev pub port_max_delay : ℕ
port_max_delay = 0xFFFFFFFF

pub x_event_group_create : EventGroup
x_event_group_create = record { bits = 0 }

pub x_event_group_set_bits : EventGroup → ℕ → EventGroup × ℕ
x_event_group_set_bits eg bits_to_set =
    (record { bits = bit_or eg.bits bits_to_set }, bit_or eg.bits bits_to_set)

pub x_event_group_clear_bits : EventGroup → ℕ → EventGroup × ℕ
x_event_group_clear_bits eg bits_to_clear =
    (record { bits = bit_and eg.bits (bit_not 32 bits_to_clear) }, eg.bits)

pub x_event_group_get_bits : EventGroup → ℕ
x_event_group_get_bits eg = eg.bits

-- The lambda `predicate` of a wait.
pub predicate : ℕ → ℕ → Bool → Bool
predicate bits wait_for true = bit_and bits wait_for == wait_for
predicate bits wait_for false = not (bit_and bits wait_for == 0)

-- `none`: a wait with no limit that has not ended.
wait : (EventGroup → EventGroup) → EventGroup → ℕ → Bool → ℕ → Option EventGroup
unfolding predicate
wait others eg wait_for all ticks =
    let eg' = others eg in
    if ticks == port_max_delay
    then (if predicate eg.bits wait_for all
        then some eg
        else if predicate eg'.bits wait_for all
        then some eg'
        else none)
    else if ltb 0 ticks
    then (if predicate eg.bits wait_for all then some eg else some eg')
    else some eg

leave : EventGroup → ℕ → Bool → Bool → EventGroup × ℕ
unfolding predicate
leave eg wait_for clear_on_exit all = (
  if predicate eg.bits wait_for all && clear_on_exit
      then record { bits = bit_and eg.bits (bit_not 32 wait_for) }
      else eg,
  eg.bits,
)

-- The group afterwards and the bits returned.
pub x_event_group_wait_bits :
    (EventGroup → EventGroup) → EventGroup → ℕ → Bool → Bool → ℕ → Option (EventGroup × ℕ)
unfolding wait leave
x_event_group_wait_bits others eg wait_for clear_on_exit all ticks =
    elim (wait others eg wait_for all ticks) [
      | none ↦ none
      | some eg' ↦ some (leave eg' wait_for clear_on_exit all)
    ]

-- The set and the wait lock the mutex one after the other: what the other tasks do in between is
-- `between`.
pub x_event_group_sync :
    (EventGroup → EventGroup)
    → (EventGroup → EventGroup)
    → EventGroup
    → ℕ
    → ℕ
    → ℕ
    → Option (EventGroup × ℕ)
unfolding x_event_group_set_bits x_event_group_wait_bits
x_event_group_sync between others eg bits_to_set wait_for ticks =
    x_event_group_wait_bits others (between (x_event_group_set_bits eg bits_to_set).0) wait_for true
      true ticks
