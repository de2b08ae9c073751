-- ===== src/Peripherals/Twai/Order.antt =====
-- The order of messages through the controller, over any history of calls.
use esp32emu.Base.{
  ◌≡◌, refl, sym, ◌∙◌, List, [], ◌∷◌, ◌++◌, append-nil, arith, All, Bool-cases, inl, inr,
}
use esp32emu.Base.Esp.{Outcome, done, failed, fault}
use esp32emu.Base.History.{run, run_order, IsOrderly}
use esp32emu.Peripherals.Twai.{
  TwaiGeneralConfig, TwaiTimingConfig, TwaiFilterConfig, TwaiMessage, Twai, is_running,
  inject_rx_message, twai_driver_install, twai_driver_uninstall, twai_start, twai_stop,
  twai_transmit, take_rx, twai_receive, twai_initiate_recovery,
}

-- The calls, and the arrival of a message from the bus.
pub data Call : Type 0 where
  arrive transmit : TwaiMessage → Call
  receive start stop uninstall recover : Call
  install : TwaiGeneralConfig → TwaiTimingConfig → TwaiFilterConfig → Call

got : Outcome TwaiMessage → List TwaiMessage
got (done m) = m ∷ []
got (failed e) = []
got fault = []

-- The state after a call, the messages that came in, and those that the caller received.
unfoldable pub rx_step : Twai → Call → Twai × List TwaiMessage × List TwaiMessage
unfolding got
rx_step b (arrive m) = (inject_rx_message b m, m ∷ [], [])
rx_step b (transmit m) = ((twai_transmit b m).0, [], [])
rx_step b receive = let (b', r) = twai_receive b in (b', [], got r)
rx_step b start = ((twai_start b).0, [], [])
rx_step b stop = ((twai_stop b).0, [], [])
rx_step b uninstall = ((twai_driver_uninstall b).0, [], [])
rx_step b recover = ((twai_initiate_recovery b).0, [], [])
rx_step b (install g t f) = ((twai_driver_install b g t f).0, [], [])

abbrev waiting : Twai → List TwaiMessage
waiting b = b.rx_queue

abbrev Any : Twai → Type 0
Any b = Unit {0}

abbrev AnyCall : Call → Type 0
AnyCall c = Unit {0}

take_rx-order :
    (b : Twai) (q : List TwaiMessage)
    → b.rx_queue ≡ q
    → got (take_rx b q).1 ++ (take_rx b q).0.rx_queue ≡ q
unfolding take_rx got
take_rx-order b [] e = e
take_rx-order b (m ∷ q) e = refl

-- A call that puts and takes nothing leaves what waits.
quiet : (q r : List TwaiMessage) → q ≡ r → [] ++ q ≡ r ++ []
quiet q r e = e ∙ sym (append-nil r)

rx_step-IsOrderly : IsOrderly rx_step waiting Any AnyCall
unfolding rx_step inject_rx_message twai_transmit twai_receive twai_start twai_stop
    twai_driver_uninstall twai_initiate_recovery twai_driver_install got
rx_step-IsOrderly b (arrive m) v h = (tt, refl)
rx_step-IsOrderly b (transmit m) v h = elim (Bool-cases (is_running b.state)) [
  | inl e ↦ (tt, rw e (quiet b.rx_queue b.rx_queue refl))
  | inr e ↦ (tt, rw e (quiet b.rx_queue b.rx_queue refl))
]
rx_step-IsOrderly b receive v h = elim (Bool-cases (is_running b.state)) [
  | inl e ↦ (tt, rw e (take_rx-order b b.rx_queue refl ∙ sym (append-nil b.rx_queue)))
  | inr e ↦ (tt, rw e (quiet b.rx_queue b.rx_queue refl))
]
rx_step-IsOrderly b start v h = elim (Bool-cases (is_running b.state)) [
  | inl e ↦ (tt, rw e (quiet b.rx_queue b.rx_queue refl))
  | inr e ↦ (tt, rw e (quiet b.rx_queue b.rx_queue refl))
]
rx_step-IsOrderly b stop v h = elim (Bool-cases (is_running b.state)) [
  | inl e ↦ (tt, rw e (quiet b.rx_queue b.rx_queue refl))
  | inr e ↦ (tt, rw e (quiet b.rx_queue b.rx_queue refl))
]
rx_step-IsOrderly b uninstall v h = elim (Bool-cases (is_running b.state)) [
  | inl e ↦ (tt, rw e (quiet b.rx_queue b.rx_queue refl))
  | inr e ↦ (tt, rw e (quiet b.rx_queue b.rx_queue refl))
]
rx_step-IsOrderly b recover v h =
    (tt, quiet (twai_initiate_recovery b).0.rx_queue b.rx_queue (ground arith))
rx_step-IsOrderly b (install g t f) v h =
    (tt, quiet (twai_driver_install b g t f).0.rx_queue b.rx_queue (ground arith))

-- Over any history of the driver's calls, messages reach the caller in the order in which they came, none lost and
-- none twice: what was received and then what waits is what waited and then what came in.
pub rx_order :
    (b : Twai) (cs : List Call)
    → let (b', came, received) = run rx_step b cs in received ++ b'.rx_queue ≡ b.rx_queue ++ came
rx_order b cs = run_order rx_step waiting Any AnyCall rx_step-IsOrderly cs b tt (every cs)
  where
    every : (cs : List Call) → All AnyCall cs
    every [] = tt
    every (c ∷ cs) = (tt, every cs)
