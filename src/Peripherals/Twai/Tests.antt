-- ===== src/Peripherals/Twai/Tests.antt =====
-- Runs and instances on a running controller with one waiting message.
use esp32emu.Base.{ℕ, ◌≡◌, refl, inr, false, true, List, [], ◌∷◌, ◌++◌}
use esp32emu.Base.Esp.{esp_err_invalid_state}
use esp32emu.Base.History.{run}
use esp32emu.Peripherals.Twai.{
  mode_normal, TwaiMessage, twai_receive, inject_rx_message, Twai, running, twai_stop, twai_start,
  twai_initiate_recovery,
}
use esp32emu.Peripherals.Twai.Order.{Call, arrive, receive, start, stop, rx_step, rx_order}
use esp32emu.Peripherals.Twai.States.{
  Steps, none_left, and_then, stops, starts, Ordinary, never_bus_off,
}

abbrev message : ℕ → TwaiMessage
message n = record {
  identifier = n;
  data_length_code = 0;
  data_bytes = [];
  extd = false;
  rtr = false;
  ss = false;
  self_ = false;
  dlc_non_comp = false;
}

abbrev bus : Twai
bus = record {
  state = running;
  g_config = record { mode = mode_normal; tx_gpio = 5; rx_gpio = 4 };
  t_config = record { brp = 8; tseg_1 = 15; tseg_2 = 4; sjw = 3; triple_sampling = false };
  f_config = record { acceptance_code = 0; acceptance_mask = 0xFFFFFFFF; single_filter = true };
  tx_queue = [];
  rx_queue = message 1 ∷ [];
  tx_count = 0;
  rx_count = 0;
}

abbrev calls : List Call
calls = arrive (message 2) ∷ receive ∷ stop ∷ receive ∷ start ∷ receive ∷ []

both_received :
    ((run rx_step bus calls).2 ≡ message 1 ∷ message 2 ∷ [])
    × ((run rx_step bus calls).0.rx_queue ≡ [])
unfolding rx_step twai_receive twai_stop twai_start inject_rx_message
both_received = (refl, refl)

rx_order_example :
    (run rx_step bus calls).2 ++ (run rx_step bus calls).0.rx_queue
    ≡ message 1 ∷ [] ++ (run rx_step bus calls).1
rx_order_example = rx_order bus calls

abbrev later : Twai
later = (twai_start (twai_stop bus).0).0

to_later : Steps bus later
to_later =
    and_then bus (twai_stop bus).0 later (stops bus)
      (and_then (twai_stop bus).0 later later (starts (twai_stop bus).0) (none_left later))

never_bus_off_example :
    Ordinary later × (twai_initiate_recovery later ≡ (later, esp_err_invalid_state))
never_bus_off_example = never_bus_off bus later (inr refl) to_later
