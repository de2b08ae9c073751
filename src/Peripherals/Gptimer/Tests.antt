-- ===== src/Peripherals/Gptimer/Tests.antt =====
-- Runs and instances on a timer that calls its alarm every three ticks.
use esp32emu.Base.{ℕ, ◌+◌, ◌-◌, ◌*◌, ◌<◌, ◌≡◌, refl, true, false, List, [], ◌∷◌, none, some, arith}
use esp32emu.Base.Esp.{done}
use esp32emu.Peripherals.Gptimer.{
  GptimerConfig, AlarmEvent, Gptimer, clk_apb, count_up, gptimer_new_timer,
}
use esp32emu.Peripherals.Gptimer.Alarms.{each_tick, periodic_alarms}
use esp32emu.Peripherals.Gptimer.Running.{Call, enable, start, disable}

abbrev up_config : GptimerConfig
up_config = record {
  clk_src = clk_apb;
  direction = count_up;
  resolution_hz = 1000000;
  intr_priority = 0;
  intr_shared = false;
}

abbrev fresh : Gptimer
fresh = record {
  config = up_config;
  alarm_config = record { alarm_count = 0; reload_count = 0; auto_reload_on_alarm = false };
  alarm_enabled = false;
  running = false;
  enabled = false;
  count = 0;
  alarm_cb = none;
  user_ctx = 0;
}

abbrev beating : Gptimer
beating = record fresh {
  alarm_config = record { alarm_count = 5; reload_count = 2; auto_reload_on_alarm = true };
  alarm_enabled = true;
  running = true;
  enabled = true;
  count = 2;
  alarm_cb = some 9;
}

-- A callback that does nothing to the timer.
abbrev nothing : ℕ → Gptimer → AlarmEvent → ℕ → Gptimer
nothing cb t e ctx = t

periodic_alarms_example :
    (t' : Gptimer) × (k : ℕ) × (each_tick nothing 8 (some beating) ≡ (some t', k))
    × (k * 3 + (t'.count - 2) ≡ 8)
    × (t'.count - 2 < 3)
periodic_alarms_example =
    periodic_alarms nothing 9 3 2 8 beating (omega arith) (λ t e ctx. refl)
      record {
        runs = refl;
        up = refl;
        armed = refl;
        reloads = refl;
        alarm_at = refl;
        back_to = refl;
        heard = refl;
        low = omega arith;
        high = omega arith;
        small = omega arith;
      }
      refl

made : gptimer_new_timer (some up_config) true ≡ done fresh
unfolding gptimer_new_timer
made = refl

abbrev calls : List Call
calls = enable ∷ start ∷ disable ∷ []
