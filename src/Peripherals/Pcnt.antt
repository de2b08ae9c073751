-- ===== src/Peripherals/Pcnt.antt =====
-- include/driver/pcnt.h: the pulse counter's units. An `int16_t` is its word of 16 bits; a unit is a
-- number, and access to one behind the table is a fault.
pub mod Counting
mod Tests
use esp32emu.Base.{
  ℕ, zero, suc, ◌+◌, ◌-◌, ◌%◌, ◌^◌, Bool, true, false, not, ◌&&◌, List, [], ◌∷◌, Option, none, some,
  leb, ◌==◌, u16, if◌then◌else◌, get_elem?, set,
}
use esp32emu.Base.Esp.{EspErr, esp_fail, Outcome, done, failed, fault}

-- `pcnt_count_mode_t`
pub data CountMode : Type 0 where
  count_dis count_inc count_dec : CountMode

-- `pcnt_ctrl_mode_t`
pub data CtrlMode : Type 0 where
  mode_keep mode_reverse mode_disable : CtrlMode

-- `PCNT_UNIT_MAX`
abbrev pub unit_max : ℕ
unit_max = 4

-- `pcnt_config_t`; the pins and the channel are numbers.
pub record PcntConfig : Type 0 where
  pub pulse_gpio_num : ℕ
  pub ctrl_gpio_num : ℕ
  pub config_pos_mode : CountMode
  pub config_neg_mode : CountMode
  pub lctrl_mode : CtrlMode
  pub hctrl_mode : CtrlMode
  pub channel : ℕ
  pub unit : ℕ
  pub counter_h_lim : ℕ
  pub counter_l_lim : ℕ

pub record UnitState : Type 0 where
  pub configured : Bool
  pub filter_enabled : Bool
  pub filter_value : ℕ
  pub count : ℕ
  pub h_lim : ℕ
  pub l_lim : ℕ
  pub pos_mode : CountMode
  pub neg_mode : CountMode

-- `a <= b` of two words that stand for `int16_t`.
abbrev pub s16_leb : ℕ → ℕ → Bool
s16_leb a b = leb (u16 (a + 2 ^ 15)) (u16 (b + 2 ^ 15))

pub counted : CountMode → ℕ → ℕ
counted count_inc c = u16 (c + 1)
counted count_dec c = u16 (c + 2 ^ 16 - 1)
counted count_dis c = c

-- The two tests on the limits.
pub limited : ℕ → ℕ → ℕ → ℕ
limited h_lim l_lim c =
    let c' = if not (h_lim == 0) && s16_leb h_lim c then 0 else c in
    if not (l_lim == 0) && s16_leb c' l_lim then 0 else c'

-- The loop's body.
pub pulse : UnitState → UnitState
unfolding counted limited
pulse u = record u { count = limited u.h_lim u.l_lim (counted u.pos_mode u.count) }

pub pulses : ℕ → UnitState → UnitState
unfolding pulse
pulses zero u = u
pulses (suc n) u = pulses n (pulse u)

on_unit : List UnitState → ℕ → (UnitState → UnitState) → Option UnitState → Outcome (List UnitState)
on_unit units n f none = fault
on_unit units n f (some u) = done (set units n (f u))

-- `count` is not negative; for a negative one the loop does nothing, as for 0.
pub inject_pulses : List UnitState → ℕ → ℕ → Outcome (List UnitState)
unfolding on_unit pulses
inject_pulses units n count = on_unit units n (pulses count) (get_elem? units n)

configure : PcntConfig → UnitState → UnitState
configure c u = record u {
  configured = true;
  pos_mode = c.config_pos_mode;
  neg_mode = c.config_neg_mode;
  h_lim = c.counter_h_lim;
  l_lim = c.counter_l_lim;
  count = 0;
}

-- `none` is a null pointer.
pub pcnt_unit_config : List UnitState → Option PcntConfig → Outcome (List UnitState)
unfolding on_unit configure
pcnt_unit_config units none = failed esp_fail
pcnt_unit_config units (some c) = on_unit units c.unit (configure c) (get_elem? units c.unit)

count_of : Option UnitState → Outcome ℕ
count_of none = fault
count_of (some u) = done u.count

-- The count goes to `*count`, which `has_count` says is no null pointer.
pub pcnt_get_counter_value : List UnitState → ℕ → Bool → Outcome ℕ
unfolding count_of
pcnt_get_counter_value units n has_count =
    if not has_count
    then failed esp_fail
    else if leb unit_max n
    then failed esp_fail
    else count_of (get_elem? units n)

-- Pause, resume, and the calls on events do nothing to a unit.
pub pcnt_counter_pause : List UnitState → ℕ → Outcome (List UnitState)
pcnt_counter_pause units n = if leb unit_max n then failed esp_fail else done units

pub pcnt_counter_resume : List UnitState → ℕ → Outcome (List UnitState)
pcnt_counter_resume units n = if leb unit_max n then failed esp_fail else done units

pub pcnt_event_enable : List UnitState → ℕ → Outcome (List UnitState)
pcnt_event_enable units n = if leb unit_max n then failed esp_fail else done units

pub pcnt_event_disable : List UnitState → ℕ → Outcome (List UnitState)
pcnt_event_disable units n = if leb unit_max n then failed esp_fail else done units

pub pcnt_set_event_value : List UnitState → ℕ → ℕ → Outcome (List UnitState)
pcnt_set_event_value units n value = if leb unit_max n then failed esp_fail else done units

pub pcnt_counter_clear : List UnitState → ℕ → Outcome (List UnitState)
unfolding on_unit
pcnt_counter_clear units n =
    if leb unit_max n
    then failed esp_fail
    else on_unit units n (λ u. record u { count = 0 }) (get_elem? units n)

pub pcnt_set_filter_value : List UnitState → ℕ → ℕ → Outcome (List UnitState)
unfolding on_unit
pcnt_set_filter_value units n value =
    if leb unit_max n
    then failed esp_fail
    else on_unit units n (λ u. record u { filter_value = value }) (get_elem? units n)

pub pcnt_filter_enable : List UnitState → ℕ → Outcome (List UnitState)
unfolding on_unit
pcnt_filter_enable units n =
    if leb unit_max n
    then failed esp_fail
    else on_unit units n (λ u. record u { filter_enabled = true }) (get_elem? units n)

pub pcnt_filter_disable : List UnitState → ℕ → Outcome (List UnitState)
unfolding on_unit
pcnt_filter_disable units n =
    if leb unit_max n
    then failed esp_fail
    else on_unit units n (λ u. record u { filter_enabled = false }) (get_elem? units n)
