-- ===== src/Peripherals/Twai.antt =====
-- include/driver_twai.h: the CAN controller's states, its queues and counters.
pub mod Order
pub mod States
mod Tests
use esp32emu.Base.{ℕ, ◌+◌, Bool, true, false, not, List, [], ◌∷◌, ◌++◌, u32, if◌then◌else◌, length}
use esp32emu.Base.Esp.{
  EspErr, esp_ok, esp_err_invalid_state, esp_err_timeout, Outcome, done, failed,
}

-- `twai_state_t`
pub data TwaiState : Type 0 where
  stopped running bus_off recovering : TwaiState

-- `twai_mode_t`
pub data TwaiMode : Type 0 where
  mode_normal mode_no_ack mode_listen_only : TwaiMode

pub record TwaiGeneralConfig : Type 0 where
  pub mode : TwaiMode
  pub tx_gpio : ℕ
  pub rx_gpio : ℕ

pub record TwaiTimingConfig : Type 0 where
  pub brp : ℕ
  pub tseg_1 : ℕ
  pub tseg_2 : ℕ
  pub sjw : ℕ
  pub triple_sampling : Bool

pub record TwaiFilterConfig : Type 0 where
  pub acceptance_code : ℕ
  pub acceptance_mask : ℕ
  pub single_filter : Bool

-- `data_bytes` has the eight bytes of `data`, and the flags are bits.
pub record TwaiMessage : Type 0 where
  pub identifier : ℕ
  pub data_length_code : ℕ
  pub data_bytes : List ℕ
  pub extd : Bool
  pub rtr : Bool
  pub ss : Bool
  pub self_ : Bool
  pub dlc_non_comp : Bool

pub record TwaiStatusInfo : Type 0 where
  pub status : TwaiState
  pub msgs_to_tx : ℕ
  pub msgs_to_rx : ℕ
  pub tx_error_counter : ℕ
  pub rx_error_counter : ℕ
  pub tx_failed_count : ℕ
  pub rx_missed_count : ℕ
  pub arb_lost_count : ℕ
  pub bus_error_count : ℕ

pub record Twai : Type 0 where
  pub state : TwaiState
  pub g_config : TwaiGeneralConfig
  pub t_config : TwaiTimingConfig
  pub f_config : TwaiFilterConfig
  pub tx_queue : List TwaiMessage
  pub rx_queue : List TwaiMessage
  pub tx_count : ℕ
  pub rx_count : ℕ

pub is_running : TwaiState → Bool
is_running running = true
is_running stopped = false
is_running bus_off = false
is_running recovering = false

pub inject_rx_message : Twai → TwaiMessage → Twai
inject_rx_message b m = record b { rx_queue = b.rx_queue ++ m ∷ [] }

pub reset : Twai → Twai
reset b = record b { state = stopped; tx_queue = []; rx_queue = []; tx_count = 0; rx_count = 0 }

-- `_state != TWAI_STATE_STOPPED` on the controller's state.
is_stopped : TwaiState → Bool
is_stopped stopped = true
is_stopped running = false
is_stopped bus_off = false
is_stopped recovering = false

pub twai_driver_install :
    Twai → TwaiGeneralConfig → TwaiTimingConfig → TwaiFilterConfig → Twai × EspErr
unfolding is_stopped
twai_driver_install b g t f =
    if not (is_stopped b.state)
    then (b, esp_err_invalid_state)
    else (record b { g_config = g; t_config = t; f_config = f }, esp_ok)

pub twai_driver_uninstall : Twai → Twai × EspErr
unfolding is_running
twai_driver_uninstall b =
    if is_running b.state
    then (b, esp_err_invalid_state)
    else (record b { state = stopped }, esp_ok)

pub twai_start : Twai → Twai × EspErr
unfolding is_running
twai_start b =
    if is_running b.state
    then (b, esp_err_invalid_state)
    else (record b { state = running }, esp_ok)

pub twai_stop : Twai → Twai × EspErr
unfolding is_running
twai_stop b =
    if not (is_running b.state)
    then (b, esp_err_invalid_state)
    else (record b { state = stopped }, esp_ok)

pub twai_transmit : Twai → TwaiMessage → Twai × EspErr
unfolding is_running
twai_transmit b m =
    if not (is_running b.state)
    then (b, esp_err_invalid_state)
    else (record b { tx_queue = b.tx_queue ++ m ∷ []; tx_count = u32 (b.tx_count + 1) }, esp_ok)

take_rx : Twai → List TwaiMessage → Twai × Outcome TwaiMessage
take_rx b [] = (b, failed esp_err_timeout)
take_rx b (m ∷ rest) = (record b { rx_queue = rest; rx_count = u32 (b.rx_count + 1) }, done m)

-- The message goes to `*msg`.
pub twai_receive : Twai → Twai × Outcome TwaiMessage
unfolding is_running take_rx
twai_receive b =
    if not (is_running b.state) then (b, failed esp_err_invalid_state) else take_rx b b.rx_queue

pub twai_get_status_info : Twai → TwaiStatusInfo
twai_get_status_info b = record {
  status = b.state;
  msgs_to_tx = u32 (length b.tx_queue);
  msgs_to_rx = u32 (length b.rx_queue);
  tx_error_counter = 0;
  rx_error_counter = 0;
  tx_failed_count = 0;
  rx_missed_count = 0;
  arb_lost_count = 0;
  bus_error_count = 0;
}

is_bus_off : TwaiState → Bool
is_bus_off bus_off = true
is_bus_off stopped = false
is_bus_off running = false
is_bus_off recovering = false

pub twai_initiate_recovery : Twai → Twai × EspErr
unfolding is_bus_off
twai_initiate_recovery b =
    if not (is_bus_off b.state)
    then (b, esp_err_invalid_state)
    else (record b { state = recovering }, esp_ok)
