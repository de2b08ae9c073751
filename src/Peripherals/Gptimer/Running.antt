-- ===== src/Peripherals/Gptimer/Running.antt =====
-- A timer that runs is enabled, over any sequence of calls.
use esp32emu.Base.{
  ℕ, ◌≡◌, refl, true, false, List, [], ◌∷◌, Option, none, some, arith, Bool-cases, inl, inr,
}
use esp32emu.Base.Esp.{esp_err_invalid_state, Outcome, done, failed, fault}
use esp32emu.Peripherals.Gptimer.{
  GptimerConfig, AlarmConfig, Gptimer, gptimer_new_timer, gptimer_set_alarm_action,
  gptimer_register_event_callbacks, gptimer_enable, gptimer_disable, gptimer_start, gptimer_stop,
  gptimer_set_raw_count, is_running, is_enabled,
}

pub data Call : Type 0 where
  set_alarm_action : Option AlarmConfig → Call
  register_event_callbacks : Option (Option ℕ) → ℕ → Call
  enable disable start stop : Call
  set_raw_count : ℕ → Call

pub perform : Gptimer → Call → Outcome Gptimer
perform t (set_alarm_action c) = gptimer_set_alarm_action (some t) c
perform t (register_event_callbacks f ctx) = gptimer_register_event_callbacks (some t) f ctx
perform t enable = gptimer_enable (some t)
perform t disable = gptimer_disable (some t)
perform t start = gptimer_start (some t)
perform t stop = gptimer_stop (some t)
perform t (set_raw_count n) = gptimer_set_raw_count (some t) n

-- A call that fails leaves the timer.
after : Gptimer → Outcome Gptimer → Gptimer
after t (done u) = u
after t (failed e) = t
after t fault = t

pub perform_all : Gptimer → List Call → Gptimer
unfolding perform after
perform_all t [] = t
perform_all t (c ∷ cs) = perform_all (after t (perform t c)) cs

abbrev pub RunsEnabled : Gptimer → Type 0
RunsEnabled t = is_running (some t) ≡ true → is_enabled (some t) ≡ true

perform-RunsEnabled : (t : Gptimer) (c : Call) → RunsEnabled t → RunsEnabled (after t (perform t c))
unfolding perform after gptimer_set_alarm_action gptimer_register_event_callbacks gptimer_enable
    gptimer_disable gptimer_start gptimer_stop gptimer_set_raw_count is_running is_enabled
perform-RunsEnabled t (set_alarm_action none) h = h
perform-RunsEnabled t (set_alarm_action (some c)) h = h
perform-RunsEnabled t (register_event_callbacks none ctx) h = h
perform-RunsEnabled t (register_event_callbacks (some f) ctx) h = h
perform-RunsEnabled t enable h = λ e. refl
perform-RunsEnabled t disable h = λ e. absurd (ground arith)
perform-RunsEnabled t start h = elim (Bool-cases t.enabled) [
  | inl e ↦ λ r. ground arith
  | inr e ↦ λ r. ground arith
]
perform-RunsEnabled t stop h = λ e. absurd (ground arith)
perform-RunsEnabled t (set_raw_count n) h = h

kept : (t : Gptimer) (cs : List Call) → RunsEnabled t → RunsEnabled (perform_all t cs)
unfolding perform_all
kept t [] h = h
kept t (c ∷ cs) h = kept (after t (perform t c)) cs (perform-RunsEnabled t c h)

-- After any calls on a new timer it runs only if it is enabled; when it is disabled, a start is refused
-- as of invalid state.
pub runs_enabled :
    (c : GptimerConfig) (t : Gptimer) (cs : List Call)
    → gptimer_new_timer (some c) true ≡ done t
    → RunsEnabled (perform_all t cs)
      × (is_enabled (some (perform_all t cs)) ≡ false
          → gptimer_start (some (perform_all t cs)) ≡ failed esp_err_invalid_state)
unfolding gptimer_new_timer is_running is_enabled gptimer_start
runs_enabled c t cs e = (kept t cs (λ r. absurd (ground arith)), λ off. rw off)
