-- ===== src/FreeRtos/TaskNotify/Values.antt =====
-- Notifications as a mailbox of one word.
use esp32emu.Base.{
  ◌⊎◌, inl, inr, ℕ, ◌-◌, ◌^◌, ◌<◌, min, ◌≡◌, refl, ap, ◌∙◌, true, false, Option, some, arith,
  bit_and,
}
use esp32emu.Base.Bits.{bit, bit_not, bit-bit_and, bit-bit_not, bit_and_full}
use esp32emu.FreeRtos.TaskNotify.{
  TaskNotification, Others, NotifyAction, no_action, set_bits, increment, set_value_with_overwrite,
  set_value_without_overwrite, x_task_notify, x_task_notify_wait,
}

-- A notification fails only without overwriting and over a pending one, and then changes nothing;
-- otherwise it leaves the task notified.
pub notify_lem :
    (n : TaskNotification) (value : ℕ) (action : NotifyAction)
    → let (n', passed) = x_task_notify n value action in
      (passed ≡ false → (action ≡ set_value_without_overwrite) × (n.pending ≡ true) × (n' ≡ n))
      × (passed ≡ true → n'.pending ≡ true)
unfolding x_task_notify
notify_lem n value set_bits = ground arith
notify_lem n value increment = ground arith
notify_lem n value set_value_with_overwrite = ground arith
notify_lem n value set_value_without_overwrite = ground arith
notify_lem n value no_action = ground arith

sets_value :
    (n : TaskNotification) (value : ℕ) (a : NotifyAction)
    → (a ≡ set_value_with_overwrite) ⊎ ((a ≡ set_value_without_overwrite) × (n.pending ≡ false))
    → x_task_notify n value a ≡ (record { value = value; pending = true }, true)
unfolding x_task_notify
sets_value n value a (inl e) = ap (x_task_notify n value) e
sets_value n value a (inr (e, idle)) = ap (x_task_notify n value) e ∙ ground (arith, idle)

wait_pending :
    (others : Others) (value clear ticks i : ℕ)
    → value < 2 ^ 32
    → clear < 2 ^ 32
    → i < 32
    → let sent : TaskNotification = record { value = value; pending = true } in
      (s : TaskNotification) × (x_task_notify_wait others (some sent) 0 clear ticks
        ≡ (some s, some value))
      × (s.pending ≡ false)
      × (bit s.value i ≡ min (bit value i) (1 - bit clear i))
unfolding x_task_notify_wait
wait_pending others value clear ticks i hv hc k = (
  record { value = bit_and value (bit_not 32 clear); pending = false },
  ap
      (λ v.
        let s : TaskNotification = record {
          value = bit_and v (bit_not 32 clear);
          pending = false;
        } in
        let r : Option TaskNotification × Option ℕ = (some s, some v) in r)
      (bit_and_full 32 value hv),
  refl,
  bit-bit_and value (bit_not 32 clear) i ∙ ap (min (bit value i)) (bit-bit_not 32 clear i hc k),
)

-- A value that is set with overwriting, or without it where no notification is pending, is what the
-- next wait that clears nothing on entry returns, at once; it takes the notification, and clears the
-- bits asked for on exit, place by place.
pub notify-wait :
    (others : Others) (n : TaskNotification) (action : NotifyAction) (value clear ticks i : ℕ)
    → (action ≡ set_value_with_overwrite)
      ⊎ ((action ≡ set_value_without_overwrite) × (n.pending ≡ false))
    → value < 2 ^ 32
    → clear < 2 ^ 32
    → i < 32
    → let (sent, passed) = x_task_notify n value action in
      (passed ≡ true)
      × (s : TaskNotification) × (x_task_notify_wait others (some sent) 0 clear ticks
          ≡ (some s, some value))
      × (s.pending ≡ false)
      × (bit s.value i ≡ min (bit value i) (1 - bit clear i))
notify-wait others n action value clear ticks i sets hv hc k =
    let sent = sets_value n value action sets in
    let (s, w, p, b) = wait_pending others value clear ticks i hv hc k in
    (
      ap (λ x. x.1) sent,
      s,
      ap (λ x. x_task_notify_wait others (some x.0) 0 clear ticks) sent ∙ w,
      p,
      b,
    )
