-- ===== src/Scheduling/TaskScheduler/Iterations.antt =====
-- How often a task with a number of iterations runs.
use esp32emu.Base.{
  ℕ, zero, suc, ◌+◌, ◌-◌, ◌^◌, ◌≤◌, ◌<◌, ◌≡◌, refl, sym, ap, ◌∙◌, Bool, true, false, not, ◌&&◌,
  Option, none, some, arith, ltb, ◌==◌, u64, if◌then◌else◌, Bool-cases, inl, inr,
}
use mathlib.Core.Path.{subst}
use esp32emu.Scheduling.TaskScheduler.{
  Task, is_enabled, get_run_counter, get_iterations, positive, call_if, enable, disable, count_down,
  finish, run_callback, execute_task,
}

module _ (call : ℕ → Task → Task) where
  -- Callbacks leave their task alone.
  abbrev pub Leaves : Type 0
  Leaves = (f : ℕ) (t : Task) → call f t ≡ t

  -- The scheduler executes the task `n` times.
  pub runs : ℕ → Task → Task
  runs zero t = t
  runs (suc n) t = runs n (execute_task call t).0

  -- An enabled task that has `j` iterations left and has run `c` times.
  record Due (f j c : ℕ) (t : Task) : Type 0 where
    on : t.enabled ≡ true
    calls : t.callback ≡ some f
    left : t.iterations ≡ j
    count : t.run_count ≡ c

  -- A run, with an iteration left.
  ran :
      (f j c : ℕ) (t : Task)
      → Leaves
      → Due f j c t
      → 0 < j
      → j < 2 ^ 63
      → c < 2 ^ 63
      → (execute_task call t).0
        ≡ (finish call (record t { iterations = t.iterations - 1; run_count = c + 1 })).0
  unfolding execute_task run_callback count_down positive
  ran f j c t leaves d pos small few =
      let t1 : Task = record t { run_count = u64 (t.run_count + 1) } in
      let again : (t.iterations == 0) ≡ false = ground (arith, d.left) in
      let up : u64 (t.run_count + 1) ≡ c + 1 = omega (arith, d.count) in
      let down : (ltb 0 t.iterations && ltb t.iterations (2 ^ 63)) ≡ true =
        ground (arith, d.left) in
      ap (λ b. (if not b then (t, false) else run_callback call t.callback t).0) d.on
      ∙ ap (λ o. (run_callback call o t).0) d.calls
      ∙ ap
          (λ b.
            (if b then (disable call t, false) else finish call (count_down call (call f t1))).0)
          again
      ∙ ap (λ u. (finish call (count_down call u)).0) (leaves f t1)
      ∙ ap (λ b. (finish call (if b then record t1 { iterations = t.iterations - 1 } else t1)).0)
          down
      ∙ ap (λ n. (finish call (record t { iterations = t.iterations - 1; run_count = n })).0) up

  on_it_goes :
      (f j c : ℕ) (t : Task)
      → Leaves
      → Due f j c t
      → 1 < j
      → j < 2 ^ 63
      → c < 2 ^ 63
      → Due f (j - 1) (c + 1) (execute_task call t).0
  unfolding finish
  on_it_goes f j c t leaves d pos small few =
      let t' : Task = record t { iterations = t.iterations - 1; run_count = c + 1 } in
      let more : (t.iterations - 1 == 0) ≡ false = ground (arith, d.left) in
      let same : (execute_task call t).0 ≡ t' =
        ran f j c t leaves d (omega arith) small few
        ∙ ap (λ b. (if◌then◌else◌ {A = Task × Bool} b (disable call t', false) (t', true)).0)
            more in
      record {
        on = ap (λ u. u.enabled) same ∙ d.on;
        calls = ap (λ u. u.callback) same ∙ d.calls;
        left = ap (λ u. u.iterations) same ∙ ap (λ n. n - 1) d.left;
        count = ap (λ u. u.run_count) same;
      }

  call_if-same : Leaves → (o : Option ℕ) (t : Task) → call_if call o t ≡ t
  unfolding call_if
  call_if-same leaves none t = refl
  call_if-same leaves (some f) t = leaves f t

  last_run :
      (f c : ℕ) (t : Task)
      → Leaves
      → Due f 1 c t
      → c < 2 ^ 63
      → ((execute_task call t).0.enabled ≡ false) × ((execute_task call t).0.run_count ≡ c + 1)
  unfolding finish disable
  last_run f c t leaves d few =
      let t' : Task = record t { iterations = t.iterations - 1; run_count = c + 1 } in
      let over : (t.iterations - 1 == 0) ≡ true = ground (arith, d.left) in
      let same : (execute_task call t).0 ≡ record t' { enabled = false } =
        ran f 1 c t leaves d (omega arith) (omega arith) few
        ∙ ap (λ b. (if◌then◌else◌ {A = Task × Bool} b (disable call t', false) (t', true)).0) over
        ∙ call_if-same leaves t'.on_disable (record t' { enabled = false }) in
      (ap (λ u. u.enabled) same, ap (λ u. u.run_count) same)

  rests : (n : ℕ) (t : Task) → t.enabled ≡ false → runs n t ≡ t
  unfolding runs execute_task
  rests zero t off = refl
  rests (suc n) t off =
      ap (λ b. runs n (if not b then (t, false) else run_callback call t.callback t).0) off
      ∙ rests n t off

  -- What the task shows after `n` executions.
  counts_runs :
      (f j c n : ℕ) (t : Task)
      → Leaves
      → Due f j c t
      → 0 < j
      → j + c < 2 ^ 63
      → (n < j
          → ((runs n t).enabled ≡ true)
            × ((runs n t).run_count ≡ c + n)
            × ((runs n t).iterations ≡ j - n))
        × (j ≤ n → ((runs n t).enabled ≡ false) × ((runs n t).run_count ≡ c + j))
  unfolding runs
  counts_runs f j c zero t leaves d pos small =
      (λ h. (d.on, omega (arith, d.count), omega (arith, d.left)), λ h. absurd (omega arith))
  counts_runs f j c (suc n) t leaves d pos small = elim (Bool-cases (ltb 1 j)) [
    | inl e ↦
        let many : 1 < j = ground arith in
        let rest =
          counts_runs f (j - 1) (c + 1) n (execute_task call t).0 leaves
            (on_it_goes f j c t leaves d many (omega arith) (omega arith)) (omega arith)
            (omega arith) in
        (
          λ h.
              let (on, count, left) = rest.0 (omega arith) in
              (on, omega (arith, count), omega (arith, left)),
          λ h. let (off, count) = rest.1 (omega arith) in (off, omega (arith, count)),
        )
    | inr e ↦
        let one : j ≡ 1 = ground arith in
        let (off, count) = last_run f c t leaves (subst (λ k. Due f k c t) one d) (omega arith) in
        let still = rests n (execute_task call t).0 off in
        (
          λ h. absurd (omega arith),
          λ h. (ap (λ u. u.enabled) still ∙ off, ap (λ u. u.run_count) still ∙ count ∙ omega arith),
        )
  ]

  -- A task of `k` iterations, where `k` is not 0 and below 2^63, enabled and then executed `n` times under callbacks that leave it alone,
  -- has run `n` times and stays enabled with the rest of its iterations while `n` is below `k`, and then
  -- has run `k` times and is disabled.
  pub runs_iterations :
      (f k n : ℕ) (t : Task)
      → Leaves
      → t.callback ≡ some f
      → t.max_iterations ≡ k
      → 0 < k
      → k < 2 ^ 63
      → let u = runs n (enable call t) in
        (n < k → (is_enabled u ≡ true) × (get_run_counter u ≡ n) × (get_iterations u ≡ k - n))
        × (k ≤ n → (is_enabled u ≡ false) × (get_run_counter u ≡ k))
  unfolding enable is_enabled get_run_counter get_iterations
  runs_iterations f k n t leaves cb most pos small =
      let t0 : Task = record t { enabled = true; run_count = 0; iterations = t.max_iterations } in
      let start : enable call t ≡ t0 = call_if-same leaves t.on_enable t0 in
      let d : Due f k 0 (enable call t) =
        subst (Due f k 0) (sym start) record { on = refl; calls = cb; left = most; count = refl } in
      let all = counts_runs f k 0 n (enable call t) leaves d pos (omega arith) in
      (
        λ h. let (on, count, left) = all.0 h in (on, omega (arith, count), left),
        λ h. let (off, count) = all.1 h in (off, omega (arith, count)),
      )
