-- ===== src/Peripherals/Gptimer/Alarms.antt =====
-- Ticks and alarms of a running timer.
use esp32emu.Base.{
  ℕ, zero, suc, ◌+◌, ◌-◌, ◌*◌, ◌^◌, ◌≤◌, ◌<◌, ◌≡◌, refl, sym, ap, ◌∙◌, true, false, not, ◌&&◌,
  Option, none, some, arith, ltb, leb, u64, if◌then◌else◌, Bool-cases, inl, inr,
}
use esp32emu.Peripherals.Gptimer.{
  Direction, count_up, count_down, AlarmEvent, Gptimer, notify, reload, fire, tick, simulate_ticks,
}

one_more : (k p : ℕ) → (k + 1) * p ≡ k * p + p
one_more k p = grind arith

-- The count after `n` ticks.
abbrev counts : Direction → ℕ → ℕ → ℕ
counts count_up c n = u64 (c + n)
counts count_down c n = if ltb c n then 0 else c - n

counts_add : (d : Direction) (c a b : ℕ) → counts d (counts d c a) b ≡ counts d c (a + b)
counts_add count_up c a b = omega arith
counts_add count_down c a b = ground arith

module _ (call : ℕ → Gptimer → AlarmEvent → ℕ → Gptimer) where
  -- Ticks that come one by one: the timer afterwards, and the number of alarms.
  pub each_tick : ℕ → Option Gptimer → Option Gptimer × ℕ
  each_tick zero t = (t, 0)
  each_tick (suc n) t =
      let (t', e) = simulate_ticks call t 1 in
      let (t'', k) = each_tick n t' in (t'', elim e [ none ↦ k | some a ↦ k + 1 ])

  resume : ℕ → Option Gptimer × Option AlarmEvent → Option Gptimer × ℕ
  resume n (t', e) = let (t'', k) = each_tick n t' in (t'', elim e [ none ↦ k | some a ↦ k + 1 ])

  -- A running timer that counts up from `r`, with an alarm `p` above that takes it back to `r`.
  pub record Periodic (cb p r : ℕ) (t : Gptimer) : Type 0 where
    pub runs : t.running ≡ true
    pub up : t.config.direction ≡ count_up
    pub armed : t.alarm_enabled ≡ true
    pub reloads : t.alarm_config.auto_reload_on_alarm ≡ true
    pub alarm_at : t.alarm_config.alarm_count ≡ r + p
    pub back_to : t.alarm_config.reload_count ≡ r
    pub heard : t.alarm_cb ≡ some cb
    pub low : r ≤ t.count
    pub high : t.count < r + p
    pub small : r + p < 2 ^ 64

  -- The callback leaves the timer alone.
  abbrev pub Leaves : ℕ → Type 0
  Leaves cb = (t : Gptimer) (e : AlarmEvent) (ctx : ℕ) → call cb t e ctx ≡ t

  -- A tick below the alarm.
  silent :
      (cb p r : ℕ) (t : Gptimer)
      → Periodic cb p r t
      → t.count + 1 < r + p
      → simulate_ticks call (some t) 1 ≡ (some (record t { count = t.count + 1 }), none)
  unfolding simulate_ticks tick
  silent cb p r t c h =
      let next : u64 (t.count + 1) ≡ t.count + 1 = omega (arith, c.small) in
      let early : leb (r + p) (t.count + 1) ≡ false = ground arith in
      rw (c.runs, c.up, c.armed, c.alarm_at, next, early)

  -- An alarm with a callback that leaves the timer alone, and a reload.
  fire-reload :
      (cb : ℕ) (t : Gptimer)
      → Leaves cb
      → t.alarm_cb ≡ some cb
      → t.alarm_config.auto_reload_on_alarm ≡ true
      → (e : AlarmEvent) × (fire call t
          ≡ (record t { count = t.alarm_config.reload_count }, some e))
  unfolding fire notify reload
  fire-reload cb t leaves heard reloads =
      let e : AlarmEvent = record {
        count_value = t.count;
        alarm_value = t.alarm_config.alarm_count;
      } in
      let over : Gptimer = record t { count = t.alarm_config.reload_count } in
      (
        e,
        ap (λ o. (reload call (notify call t o).0, (notify call t o).1)) heard
            ∙ ap (λ u. (reload call u, some e)) (leaves t e t.user_ctx)
            ∙ ap (λ b. ((if b then over else t), some e)) reloads,
      )

  -- The tick that reaches the alarm.
  loud :
      (cb p r : ℕ) (t : Gptimer)
      → Leaves cb
      → Periodic cb p r t
      → t.count + 1 ≡ r + p
      → (e : AlarmEvent) × (simulate_ticks call (some t) 1
          ≡ (some (record t { count = r }), some e))
  unfolding simulate_ticks tick
  loud cb p r t leaves c h =
      let t1 : Gptimer = record t { count = u64 (t.count + 1) } in
      let due : (t.alarm_enabled && leb t.alarm_config.alarm_count (u64 (t.count + 1))) ≡ true =
        ground (arith, c.armed, c.alarm_at, c.small) in
      let (e, f) = fire-reload cb t1 leaves c.heard c.reloads in
      (
        e,
        ap
              (λ b. if not b then (some t, none) else (
                some (tick call t t.config.direction 1).0,
                (tick call t t.config.direction 1).1,
              ))
              c.runs
            ∙ ap (λ d. (some (tick call t d 1).0, (tick call t d 1).1)) c.up
            ∙ ap
                (λ b. (
                  some (if b then fire call t1 else (t1, none)).0,
                  (if b then fire call t1 else (t1, none)).1,
                ))
                due
            ∙ ap (λ q. (some q.0, q.1)) f
            ∙ ap (λ n. (some (record t { count = n }), some e)) c.back_to,
      )

  moved :
      (cb p r : ℕ) (t : Gptimer) (n : ℕ)
      → Periodic cb p r t
      → r ≤ n
      → n < r + p
      → Periodic cb p r (record t { count = n })
  moved cb p r t n c l h = record {
    runs = c.runs;
    up = c.up;
    armed = c.armed;
    reloads = c.reloads;
    alarm_at = c.alarm_at;
    back_to = c.back_to;
    heard = c.heard;
    low = l;
    high = h;
    small = c.small;
  }

  counted :
      (cb p r n : ℕ) (t : Gptimer)
      → 0 < p
      → Leaves cb
      → Periodic cb p r t
      → (t' : Gptimer) × (k : ℕ) × (each_tick n (some t) ≡ (some t', k))
        × Periodic cb p r t'
        × (k * p + t'.count ≡ t.count + n)
  unfolding each_tick resume
  counted cb p r zero t pos leaves c = (t, 0, refl, c, omega arith)
  counted cb p r (suc n) t pos leaves c = elim (Bool-cases (ltb (t.count + 1) (r + p))) [
    | inl h ↦
        let below : t.count + 1 < r + p = ground arith in
        let c1 : Periodic cb p r (record t { count = t.count + 1 }) =
          moved cb p r t (t.count + 1) c (omega (arith, c.low)) below in
        let (t', k, e, c', sum) =
          counted cb p r n (record t { count = t.count + 1 }) pos leaves c1 in
        (t', k, ap (resume n) (silent cb p r t c below) ∙ e, c', omega (arith, sum))
    | inr h ↦
        let at : t.count + 1 ≡ r + p = ground (arith, c.high) in
        let c1 : Periodic cb p r (record t { count = r }) =
          moved cb p r t r c (omega arith) (omega arith) in
        let (t', k, e, c', sum) = counted cb p r n (record t { count = r }) pos leaves c1 in
        let (ev, f) = loud cb p r t leaves c at in
        (
          t',
          k + 1,
          ap (resume n) f ∙ ap (λ z. (z.0, z.1 + 1)) e,
          c',
          omega (arith, sum, one_more k p),
        )
  ]

  -- A running timer that counts up to a periodic alarm, under a
  -- callback that leaves it alone: after `n` single ticks from its reload
  -- value it has called the alarm once for each period in them, and is that far into the next period.
  pub periodic_alarms :
      (cb p r n : ℕ) (t : Gptimer)
      → 0 < p
      → Leaves cb
      → Periodic cb p r t
      → t.count ≡ r
      → (t' : Gptimer) × (k : ℕ) × (each_tick n (some t) ≡ (some t', k))
        × (k * p + (t'.count - r) ≡ n)
        × (t'.count - r < p)
  periodic_alarms cb p r n t pos leaves c start =
      let (t', k, e, c', sum) = counted cb p r n t pos leaves c in
      (t', k, e, omega (arith, sum, c'.low), omega (arith, c'.low, c'.high))

  tick_off :
      (t : Gptimer) (d : Direction) (n : ℕ)
      → t.alarm_enabled ≡ false
      → tick call t d n ≡ (record t { count = counts d t.count n }, none)
  unfolding tick
  tick_off t count_up n off = rw off
  tick_off t count_down n off = rw off

  simulate_off :
      (t : Gptimer) (n : ℕ)
      → t.running ≡ true
      → t.alarm_enabled ≡ false
      → simulate_ticks call (some t) n
        ≡ (some (record t { count = counts t.config.direction t.count n }), none)
  unfolding simulate_ticks
  simulate_off t n runs off =
      ap
        (λ b.
          if not b
          then (some t, none)
          else (some (tick call t t.config.direction n).0, (tick call t t.config.direction n).1))
        runs
      ∙ ap (λ q. (some q.0, q.1)) (tick_off t t.config.direction n off)

  stands :
      (t : Gptimer) (n : ℕ) → t.running ≡ false → simulate_ticks call (some t) n ≡ (some t, none)
  unfolding simulate_ticks
  stands t n e = rw e

  -- Without an alarm, ticks add up, counting up to the wrap of the 64 bits and down to 0: so many and
  -- then so many more are as many as their sum.
  pub ticks_add :
      (a b : ℕ) (t : Gptimer)
      → t.alarm_enabled ≡ false
      → simulate_ticks call (simulate_ticks call (some t) a).0 b
        ≡ simulate_ticks call (some t) (a + b)
  ticks_add a b t off = elim (Bool-cases t.running) [
    | inl e ↦
        let t1 : Gptimer = record t { count = counts t.config.direction t.count a } in
        ap (λ q. simulate_ticks call q.0 b) (simulate_off t a e off)
        ∙ simulate_off t1 b e off
        ∙ ap (λ n. (some (record t { count = n }), none))
            (counts_add t.config.direction t.count a b)
        ∙ sym (simulate_off t (a + b) e off)
    | inr e ↦
        ap (λ q. simulate_ticks call q.0 b) (stands t a e) ∙ stands t b e ∙ sym (stands t (a + b) e)
  ]
