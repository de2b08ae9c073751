-- ===== src/Peripherals/Gptimer.antt =====
-- include/driver/gptimer.h: a timer that counts up or down and calls an alarm. A handle is `none` for
-- a null pointer, or the timer that it points at. A callback is its address: what the caller's code
-- behind it does to the timer is a parameter.
pub mod Alarms
pub mod Running
mod Tests
use esp32emu.Base.{
  ℕ, ◌+◌, ◌-◌, Bool, true, false, not, ◌&&◌, Option, none, some, ltb, leb, u64, if◌then◌else◌,
}
use esp32emu.Base.Esp.{
  EspErr, esp_ok, esp_err_invalid_arg, esp_err_invalid_state, Outcome, done, failed,
}

-- `gptimer_clock_source_t`
pub data ClockSource : Type 0 where
  clk_default clk_apb clk_xtal : ClockSource

-- `gptimer_count_direction_t`
pub data Direction : Type 0 where
  count_down count_up : Direction

-- `gptimer_config_t`
pub record GptimerConfig : Type 0 where
  pub clk_src : ClockSource
  pub direction : Direction
  pub resolution_hz : ℕ
  pub intr_priority : ℕ
  pub intr_shared : Bool

-- `gptimer_alarm_config_t`
pub record AlarmConfig : Type 0 where
  pub alarm_count : ℕ
  pub reload_count : ℕ
  pub auto_reload_on_alarm : Bool

-- `gptimer_alarm_event_data_t`
pub record AlarmEvent : Type 0 where
  pub count_value : ℕ
  pub alarm_value : ℕ

-- `gptimer_t`; callbacks and contexts are addresses, `none` the null one.
pub record Gptimer : Type 0 where
  pub config : GptimerConfig
  pub alarm_config : AlarmConfig
  pub alarm_enabled : Bool
  pub running : Bool
  pub enabled : Bool
  pub count : ℕ
  pub alarm_cb : Option ℕ
  pub user_ctx : ℕ

abbrev no_alarm : AlarmConfig
no_alarm = record { alarm_count = 0; reload_count = 0; auto_reload_on_alarm = false }

-- `config` is none for a null pointer, and so is `has_ret` false.
pub gptimer_new_timer : Option GptimerConfig → Bool → Outcome Gptimer
gptimer_new_timer none has_ret = failed esp_err_invalid_arg
gptimer_new_timer (some c) false = failed esp_err_invalid_arg
gptimer_new_timer (some c) true = done record {
  config = c;
  alarm_config = no_alarm;
  alarm_enabled = false;
  running = false;
  enabled = false;
  count = 0;
  alarm_cb = none;
  user_ctx = 0;
}

pub gptimer_set_alarm_action : Option Gptimer → Option AlarmConfig → Outcome Gptimer
gptimer_set_alarm_action none config = failed esp_err_invalid_arg
gptimer_set_alarm_action (some t) (some c) =
    done (record t { alarm_config = c; alarm_enabled = true })
gptimer_set_alarm_action (some t) none = done (record t { alarm_enabled = false })

-- `cbs` is the structure's one field, or a null pointer to it.
pub gptimer_register_event_callbacks : Option Gptimer → Option (Option ℕ) → ℕ → Outcome Gptimer
gptimer_register_event_callbacks none cbs ctx = failed esp_err_invalid_arg
gptimer_register_event_callbacks (some t) none ctx = failed esp_err_invalid_arg
gptimer_register_event_callbacks (some t) (some on_alarm) ctx =
    done (record t { alarm_cb = on_alarm; user_ctx = ctx })

pub gptimer_enable : Option Gptimer → Outcome Gptimer
gptimer_enable none = failed esp_err_invalid_arg
gptimer_enable (some t) = done (record t { enabled = true })

pub gptimer_disable : Option Gptimer → Outcome Gptimer
gptimer_disable none = failed esp_err_invalid_arg
gptimer_disable (some t) = done (record t { enabled = false; running = false })

pub gptimer_start : Option Gptimer → Outcome Gptimer
gptimer_start none = failed esp_err_invalid_arg
gptimer_start (some t) =
    if not t.enabled then failed esp_err_invalid_state else done (record t { running = true })

pub gptimer_stop : Option Gptimer → Outcome Gptimer
gptimer_stop none = failed esp_err_invalid_arg
gptimer_stop (some t) = done (record t { running = false })

pub gptimer_set_raw_count : Option Gptimer → ℕ → Outcome Gptimer
gptimer_set_raw_count none value = failed esp_err_invalid_arg
gptimer_set_raw_count (some t) value = done (record t { count = value })

-- The count goes to `*value`, which `has_value` says is no null pointer.
pub gptimer_get_raw_count : Option Gptimer → Bool → Outcome ℕ
gptimer_get_raw_count none has_value = failed esp_err_invalid_arg
gptimer_get_raw_count (some t) false = failed esp_err_invalid_arg
gptimer_get_raw_count (some t) true = done t.count

-- `simulate_ticks` for a caller whose callback at an address does `call` to the timer.
module _ (call : ℕ → Gptimer → AlarmEvent → ℕ → Gptimer) where
  -- The timer after the callback, and the event that it was called with.
  pub notify : Gptimer → Option ℕ → Gptimer × Option AlarmEvent
  notify t none = (t, none)
  notify t (some cb) =
      let e : AlarmEvent = record {
        count_value = t.count;
        alarm_value = t.alarm_config.alarm_count;
      } in
      (call cb t e t.user_ctx, some e)

  pub reload : Gptimer → Gptimer
  reload t =
      if t.alarm_config.auto_reload_on_alarm
      then record t { count = t.alarm_config.reload_count }
      else t

  fire : Gptimer → Gptimer × Option AlarmEvent
  unfolding notify reload
  fire t = let (t', e) = notify t t.alarm_cb in (reload t', e)

  pub tick : Gptimer → Direction → ℕ → Gptimer × Option AlarmEvent
  unfolding fire
  tick t count_up ticks =
      let t' : Gptimer = record t { count = u64 (t.count + ticks) } in
      if t'.alarm_enabled && leb t'.alarm_config.alarm_count t'.count then fire t' else (t', none)
  tick t count_down ticks =
      let t' : Gptimer = record t { count = if ltb t.count ticks then 0 else t.count - ticks } in
      if t'.alarm_enabled && leb t'.count t'.alarm_config.alarm_count then fire t' else (t', none)

  pub simulate_ticks : Option Gptimer → ℕ → Option Gptimer × Option AlarmEvent
  unfolding tick
  simulate_ticks none ticks = (none, none)
  simulate_ticks (some t) ticks =
      if not t.running
      then (some t, none)
      else (let (t', e) = tick t t.config.direction ticks in (some t', e))

pub is_running : Option Gptimer → Bool
is_running none = false
is_running (some t) = t.running

pub is_enabled : Option Gptimer → Bool
is_enabled none = false
is_enabled (some t) = t.enabled
