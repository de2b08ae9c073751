-- ===== src/Scheduling/TaskScheduler.antt =====
-- include/TaskScheduler.h: tasks with a number of iterations, and the loop that runs them. A `long` is
-- its word of 64 bits. A callback is its address, `none` the empty one; what the sketch's code behind it
-- does to its task is the parameter `call`. A pointer to a task is its index in a store.
pub mod Iterations
mod Tests
use esp32emu.Base.{
  ℕ, ◌+◌, ◌-◌, ◌^◌, Bool, true, false, not, ◌&&◌, ◌||◌, List, [], ◌∷◌, ◌++◌, Option, none, some,
  ltb, ◌==◌, u64, if◌then◌else◌, length, get_elem?, set,
}

pub record Task : Type 0 where
  pub interval : ℕ
  pub iterations : ℕ
  pub max_iterations : ℕ
  pub run_count : ℕ
  pub enabled : Bool
  pub callback : Option ℕ
  pub on_enable : Option ℕ
  pub on_disable : Option ℕ

pub set_task : Task → ℕ → ℕ → Option ℕ → Task
set_task t interval iterations cb = record t {
  interval = interval;
  iterations = iterations;
  max_iterations = iterations;
  callback = cb;
}

pub set_interval : Task → ℕ → Task
set_interval t ms = record t { interval = ms }

pub get_interval : Task → ℕ
get_interval t = t.interval

pub set_iterations : Task → ℕ → Task
set_iterations t n = record t { iterations = n; max_iterations = n }

pub get_iterations : Task → ℕ
get_iterations t = t.iterations

pub is_enabled : Task → Bool
is_enabled t = t.enabled

pub is_first_iteration : Task → Bool
is_first_iteration t = t.run_count == 1

pub is_last_iteration : Task → Bool
is_last_iteration t = t.iterations == 0

pub get_run_counter : Task → ℕ
get_run_counter t = t.run_count

-- `n > 0` for the word of a `long`.
positive : ℕ → Bool
positive n = ltb 0 n && ltb n (2 ^ 63)

module _ (call : ℕ → Task → Task) where
  pub call_if : Option ℕ → Task → Task
  call_if none t = t
  call_if (some f) t = call f t

  pub enable : Task → Task
  unfolding call_if
  enable t =
      call_if t.on_enable
        (record t { enabled = true; run_count = 0; iterations = t.max_iterations })

  pub disable : Task → Task
  unfolding call_if
  disable t = call_if t.on_disable (record t { enabled = false })

  pub restart : Task → Task
  unfolding enable
  restart t = enable t

  pub enable_delayed : Task → ℕ → Task
  unfolding enable
  enable_delayed t ms = enable t

  -- After the callback.
  pub count_down : Task → Task
  unfolding positive
  count_down t = if positive t.iterations then record t { iterations = t.iterations - 1 } else t

  pub finish : Task → Task × Bool
  unfolding disable
  finish t = if t.iterations == 0 then (disable t, false) else (t, true)

  run_callback : Option ℕ → Task → Task × Bool
  unfolding disable count_down finish
  run_callback none t = (t, false)
  run_callback (some f) t =
      if t.iterations == 0
      then (disable t, false)
      else finish (count_down (call f (record t { run_count = u64 (t.run_count + 1) })))

  -- `_execute`
  pub execute_task : Task → Task × Bool
  unfolding run_callback
  execute_task t = if not t.enabled then (t, false) else run_callback t.callback t

  execute_at : List Task → ℕ → Option Task → List Task × Bool
  unfolding execute_task
  execute_at tasks i none = (tasks, false)
  execute_at tasks i (some t) =
      if is_enabled t
      then (let (t', more) = execute_task t in (set tasks i t', more))
      else (tasks, false)

  -- `Scheduler::execute`, over the indices in its list.
  pub execute : List Task → List ℕ → List Task × Bool
  unfolding execute_at
  execute tasks [] = (tasks, false)
  execute tasks (i ∷ is) =
      let (tasks', one) = execute_at tasks i (get_elem? tasks i) in
      let (tasks'', more) = execute tasks' is in (tasks'', one || more)

pub add_task : List ℕ → ℕ → List ℕ
add_task is i = is ++ i ∷ []

-- `delete_task`: every pointer to the task goes.
pub delete_task : List ℕ → ℕ → List ℕ
delete_task [] i = []
delete_task (j ∷ js) i = let rest = delete_task js i in if j == i then rest else j ∷ rest

pub size : List ℕ → ℕ
size is = length is
