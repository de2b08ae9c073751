-- ===== src/FreeRtos/TaskNotify/Tests.antt =====
-- Runs and instances of the notification theorems.
use esp32emu.Base.{inr, ◌+◌, ◌≡◌, refl, true, false, List, [], ◌∷◌, some, arith}
use esp32emu.Base.Bits.{bit}
use esp32emu.FreeRtos.TaskNotify.{
  TaskNotification, Others, set_value_without_overwrite, x_task_notify, x_task_notify_wait,
  x_task_notify_give, ul_task_notify_take,
}
use esp32emu.FreeRtos.TaskNotify.Counting.{IsCounting, Call, give, take, run, conserved}
use esp32emu.FreeRtos.TaskNotify.Values.{notify-wait}

abbrev fresh : TaskNotification
fresh = record { value = 0; pending = false }

abbrev script : List Call
script = give ∷ take false ∷ take true ∷ give ∷ give ∷ take true ∷ give ∷ []

run-script : run fresh script ≡ (record { value = 1; pending = true }, 3)
unfolding run
run-script = refl

-- Another task gives during the wait.
abbrev giver : Others
giver ms n = (x_task_notify_give n).0

waited : ul_task_notify_take giver (some fresh) true 50 ≡ (some fresh, 1)
unfolding ul_task_notify_take x_task_notify_give
waited = refl

fresh-IsCounting : IsCounting fresh
fresh-IsCounting = ground arith

conserved_example : let (n', got) = run fresh script in (n'.value + got ≡ 4) × IsCounting n'
conserved_example = conserved script fresh fresh-IsCounting (omega arith)

notify-wait_example :
    let (sent, passed) = x_task_notify fresh 0x1234 set_value_without_overwrite in
    (passed ≡ true)
    × (s : TaskNotification) × (x_task_notify_wait giver (some sent) 0 0xff 10
        ≡ (some s, some 0x1234))
    × (s.pending ≡ false)
    × (bit s.value 12 ≡ 1)
notify-wait_example =
    notify-wait giver fresh set_value_without_overwrite 0x1234 0xff 10 12 (inr (refl, refl))
      (omega arith) (omega arith) (omega arith)
