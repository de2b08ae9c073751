-- ===== src/Scheduling/TaskScheduler/Tests.antt =====
-- Runs and instances on a task of two iterations.
use esp32emu.Base.{ℕ, ◌-◌, ◌≤◌, ◌<◌, ◌≡◌, refl, true, false, none, some, arith}
use esp32emu.Scheduling.TaskScheduler.{Task, is_enabled, get_run_counter, get_iterations, enable}
use esp32emu.Scheduling.TaskScheduler.Iterations.{runs, runs_iterations}

abbrev nothing : ℕ → Task → Task
nothing f t = t

abbrev twice : Task
twice = record {
  interval = 10;
  iterations = 2;
  max_iterations = 2;
  run_count = 0;
  enabled = false;
  callback = some 1;
  on_enable = none;
  on_disable = some 2;
}

runs_iterations_example :
    let u = runs nothing 3 (enable nothing twice) in
    (3 < 2 → (is_enabled u ≡ true) × (get_run_counter u ≡ 3) × (get_iterations u ≡ 2 - 3))
    × (2 ≤ 3 → (is_enabled u ≡ false) × (get_run_counter u ≡ 2))
runs_iterations_example =
    runs_iterations nothing 1 2 3 twice (λ f t. refl) refl refl (omega arith) (omega arith)
