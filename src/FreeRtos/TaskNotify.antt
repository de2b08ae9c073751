-- ===== src/FreeRtos/TaskNotify.antt =====
-- include/freertos/FreeRTOS.h: task notifications. A wait releases the mutex: what the other tasks
-- make of the notification until it ends is the argument `others`, a function of the milliseconds.
pub mod Counting
pub mod Values
mod Tests
use esp32emu.Base.{
  ℕ, ◌+◌, ◌-◌, ◌*◌, Bool, true, false, not, ◌&&◌, Option, none, some, ltb, u32, if◌then◌else◌,
  bit_and, bit_or,
}
use esp32emu.Base.Bits.{bit_not}

-- `eNotifyAction`
pub data NotifyAction : Type 0 where
  no_action set_bits increment set_value_with_overwrite set_value_without_overwrite : NotifyAction

-- `TaskNotification`; `value` is a `uint32_t`.
pub record TaskNotification : Type 0 where
  pub value : ℕ
  pub pending : Bool

abbrev pub Others : Type 0
Others = ℕ → TaskNotification → TaskNotification

pend : TaskNotification → ℕ → TaskNotification × Bool
pend n value = (record { value = value; pending = true }, true)

-- The `switch`, with the early return of its fifth case; true is pdPASS.
pub x_task_notify : TaskNotification → ℕ → NotifyAction → TaskNotification × Bool
unfolding pend
x_task_notify n value set_bits = pend n (bit_or n.value value)
x_task_notify n value increment = pend n (u32 (n.value + 1))
x_task_notify n value set_value_with_overwrite = pend n value
x_task_notify n value set_value_without_overwrite = if n.pending then (n, false) else pend n value
x_task_notify n value no_action = pend n n.value

pub x_task_notify_give : TaskNotification → TaskNotification × Bool
unfolding x_task_notify
x_task_notify_give n = x_task_notify n 0 increment

-- The `wait_for` on `pending`, at most `ticks` milliseconds.
await : Others → TaskNotification → ℕ → TaskNotification
await others n ticks = if not n.pending && ltb 0 ticks then others (u32 (ticks * 1)) n else n

take_value : TaskNotification → Bool → TaskNotification × ℕ
take_value n clear_count =
    let value = (if clear_count then 0 else if ltb 0 n.value then n.value - 1 else n.value) in
    (record { value = value; pending = ltb 0 value }, n.value)

take_pending : TaskNotification → Bool → TaskNotification × ℕ
unfolding take_value
take_pending n clear_count = if not n.pending then (n, 0) else take_value n clear_count

-- `none` for a thread that is no task.
pub ul_task_notify_take : Others → Option TaskNotification → Bool → ℕ → Option TaskNotification × ℕ
unfolding await take_pending
ul_task_notify_take others none clear_count ticks = (none, 0)
ul_task_notify_take others (some n) clear_count ticks =
    let (n', value) = take_pending (await others n ticks) clear_count in (some n', value)

clear_value : TaskNotification → ℕ → TaskNotification
clear_value n bits = record n { value = bit_and n.value (bit_not 32 bits) }

-- `some` is what goes to `*pulNotificationValue` (pdPASS), `none` is pdFAIL.
finish_wait : TaskNotification → ℕ → TaskNotification × Option ℕ
unfolding clear_value
finish_wait n clear_on_exit =
    if not n.pending
    then (n, none)
    else (record (clear_value n clear_on_exit) { pending = false }, some n.value)

pub x_task_notify_wait :
    Others → Option TaskNotification → ℕ → ℕ → ℕ → Option TaskNotification × Option ℕ
unfolding await finish_wait clear_value
x_task_notify_wait others none clear_on_entry clear_on_exit ticks = (none, none)
x_task_notify_wait others (some n) clear_on_entry clear_on_exit ticks =
    let (n', out) = finish_wait (await others (clear_value n clear_on_entry) ticks) clear_on_exit in
    (some n', out)
