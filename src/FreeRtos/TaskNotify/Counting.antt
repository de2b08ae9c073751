-- ===== src/FreeRtos/TaskNotify/Counting.antt =====
-- Gives and takes as a counting semaphore.
use esp32emu.Base.{
  ℕ, suc, ◌+◌, ◌^◌, ◌<◌, ◌≡◌, Bool, true, false, List, [], ◌∷◌, Option, none, some, arith, ltb,
  ◌==◌, if◌then◌else◌,
}
use esp32emu.FreeRtos.TaskNotify.{TaskNotification, Others, x_task_notify_give, ul_task_notify_take}

-- With gives and takes alone a notification is pending exactly while its count is not 0.
pub record IsCounting (n : TaskNotification) : Type 0 where
  pub fits : n.value < 2 ^ 32
  pub pends : n.pending ≡ ltb 0 n.value

-- A take says whether it clears the count on exit.
pub data Call : Type 0 where
  give : Call
  take : Bool → Call

abbrev or_state : TaskNotification → Option TaskNotification → TaskNotification
or_state n none = n
or_state n (some s) = s

alone : Others
alone ms n = n

-- What a take that returned `value` took away: all of it if it clears, otherwise one if there was one.
abbrev taken : Bool → ℕ → ℕ
taken true value = value
taken false value = if value == 0 then 0 else 1

-- The state after a call, and the counts that it took. No call waits.
pub step : TaskNotification → Call → TaskNotification × ℕ
unfolding alone x_task_notify_give ul_task_notify_take
step n give = ((x_task_notify_give n).0, 0)
step n (take clear) =
    let (n', value) = ul_task_notify_take alone (some n) clear 0 in
    (or_state n n', taken clear value)

unfoldable pub run : TaskNotification → List Call → TaskNotification × ℕ
unfolding step
run n [] = (n, 0)
run n (c ∷ cs) = let (n', got) = step n c in let (n'', more) = run n' cs in (n'', got + more)

abbrev pub gives : List Call → ℕ
gives [] = 0
gives (give ∷ cs) = suc (gives cs)
gives (take clear ∷ cs) = gives cs

give_step :
    (n : TaskNotification)
    → IsCounting n
    → n.value + 1 < 2 ^ 32
    → IsCounting (step n give).0 × ((step n give).0.value ≡ n.value + 1)
unfolding step
give_step n v h = ground arith

one_take :
    (n : TaskNotification) (clear : Bool)
    → IsCounting n
    → let (n', got) = step n (take clear) in IsCounting n' × (n'.value + got ≡ n.value)
unfolding step
one_take n true v = ground arith
one_take n false v = ground arith

-- Over any history of gives and of takes that do not wait, on a notification that counts, the count
-- left and the counts taken make up the count at the start and the gives, as long as these fit
-- 32 bits; and the notification still counts. A take that clears the count takes all that it returns, and
-- one that does not takes one if what it returns is not 0.
pub conserved :
    (cs : List Call) (n : TaskNotification)
    → IsCounting n
    → n.value + gives cs < 2 ^ 32
    → let (n', got) = run n cs in (n'.value + got ≡ n.value + gives cs) × IsCounting n'
unfolding run
conserved [] n v h = (omega arith, v)
conserved (give ∷ cs) n v h =
    let s = give_step n v (omega arith) in
    let r = conserved cs (step n give).0 s.0 (omega (arith, s.1)) in (omega (arith, r.0, s.1), r.1)
conserved (take clear ∷ cs) n v h =
    let s = one_take n clear v in
    let r = conserved cs (step n (take clear)).0 s.0 (omega (arith, s.1)) in
    (omega (arith, r.0, s.1), r.1)
