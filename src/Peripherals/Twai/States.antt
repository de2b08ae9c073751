-- ===== src/Peripherals/Twai/States.antt =====
-- The controller's states: which are reached, and which calls they allow.
use esp32emu.Base.{
  ◌≡◌, ◌⊎◌, refl, sym, ap, ◌∙◌, List, [], ◌∷◌, arith, length, length-append, u32, Bool-cases, inl,
  inr,
}
use esp32emu.Base.Esp.{esp_err_invalid_state}
use esp32emu.Peripherals.Twai.{
  TwaiGeneralConfig, TwaiTimingConfig, TwaiFilterConfig, TwaiMessage, Twai, stopped, running,
  is_running, is_stopped, is_bus_off, inject_rx_message, reset, twai_driver_install,
  twai_driver_uninstall, twai_start, twai_stop, twai_transmit, take_rx, twai_receive,
  twai_initiate_recovery,
}

-- One call takes the controller from one state to another.
pub data Step : Twai → Twai → Type 0 where
  arrives : (b : Twai) (m : TwaiMessage) → Step b (inject_rx_message b m)
  resets : (b : Twai) → Step b (reset b)
  installs :
      (b : Twai) (g : TwaiGeneralConfig) (t : TwaiTimingConfig) (f : TwaiFilterConfig)
      → Step b (twai_driver_install b g t f).0
  uninstalls : (b : Twai) → Step b (twai_driver_uninstall b).0
  starts : (b : Twai) → Step b (twai_start b).0
  stops : (b : Twai) → Step b (twai_stop b).0
  transmits : (b : Twai) (m : TwaiMessage) → Step b (twai_transmit b m).0
  receives : (b : Twai) → Step b (twai_receive b).0
  recovers : (b : Twai) → Step b (twai_initiate_recovery b).0

pub data Steps : Twai → Twai → Type 0 where
  none_left : (b : Twai) → Steps b b
  and_then : (a b c : Twai) → Step a b → Steps b c → Steps a c

-- The controller is stopped or running.
abbrev pub Ordinary : Twai → Type 0
Ordinary b = (b.state ≡ stopped) ⊎ (b.state ≡ running)

Step-Ordinary : {a b : Twai} → Step a b → Ordinary a → Ordinary b
unfolding inject_rx_message reset twai_driver_install twai_driver_uninstall twai_start twai_stop
    twai_transmit twai_receive twai_initiate_recovery is_running is_stopped is_bus_off take_rx
Step-Ordinary (arrives a m) o = o
Step-Ordinary (resets a) o = inl refl
Step-Ordinary (installs a g t f) (inl e) = inl (ground arith)
Step-Ordinary (installs a g t f) (inr e) = inr (ground arith)
Step-Ordinary (uninstalls a) (inl e) = inl (rw e)
Step-Ordinary (uninstalls a) (inr e) = inr (ground arith)
Step-Ordinary (starts a) (inl e) = inr (rw e)
Step-Ordinary (starts a) (inr e) = inr (ground arith)
Step-Ordinary (stops a) (inl e) = inl (ground arith)
Step-Ordinary (stops a) (inr e) = inl (rw e)
Step-Ordinary (transmits a m) (inl e) = inl (ground arith)
Step-Ordinary (transmits a m) (inr e) = inr (ground arith)
Step-Ordinary (receives a) (inl e) = inl (ground arith)
Step-Ordinary (receives a) (inr e) = inr (ground arith)
Step-Ordinary (recovers a) (inl e) = inl (ground arith)
Step-Ordinary (recovers a) (inr e) = inr (ground arith)

-- What each call keeps, every sequence of calls keeps.
kept_by_steps :
    (P : Twai → Type 0)
    → ((a b : Twai) → Step a b → P a → P b)
    → {a b : Twai} → Steps a b
    → P a
    → P b
kept_by_steps P one (none_left a) h = h
kept_by_steps P one (and_then a b c s rest) h = kept_by_steps P one rest (one a b s h)

-- From a controller that is stopped or running, no sequence of calls leads to another state, so a
-- recovery is always refused as of invalid state.
pub never_bus_off :
    (a b : Twai)
    → Ordinary a
    → Steps a b
    → Ordinary b × (twai_initiate_recovery b ≡ (b, esp_err_invalid_state))
unfolding twai_initiate_recovery is_bus_off
never_bus_off a b o s =
    let o' = kept_by_steps Ordinary (λ c d t. Step-Ordinary t) s o in (o', refused o')
  where
    refused : Ordinary b → twai_initiate_recovery b ≡ (b, esp_err_invalid_state)
    refused (inl e) = rw e
    refused (inr e) = rw e

-- The count of sent messages is the number in the transmit queue, as a word of 32 bits.
abbrev pub Counted : Twai → Type 0
Counted b = b.tx_count ≡ u32 (length b.tx_queue)

sent : (b : Twai) (m : TwaiMessage) → Counted b → Counted (twai_transmit b m).0
unfolding twai_transmit is_running
sent b m h = elim (Bool-cases (is_running b.state)) [
  | inl e ↦ rw e (omega (arith, length-append b.tx_queue (m ∷ [])))
  | inr e ↦ rw e h
]

unsent : (a b : Twai) → b.tx_count ≡ a.tx_count → b.tx_queue ≡ a.tx_queue → Counted a → Counted b
unsent a b e f h = e ∙ h ∙ sym (ap (λ q. u32 (length q)) f)

take_rx-tx :
    (b : Twai) (q : List TwaiMessage)
    → ((take_rx b q).0.tx_count ≡ b.tx_count) × ((take_rx b q).0.tx_queue ≡ b.tx_queue)
unfolding take_rx
take_rx-tx b [] = (refl, refl)
take_rx-tx b (m ∷ q) = (refl, refl)

Step-Counted : {a b : Twai} → Step a b → Counted a → Counted b
unfolding inject_rx_message reset twai_driver_install twai_driver_uninstall twai_start twai_stop
    twai_receive twai_initiate_recovery
Step-Counted (arrives a m) h = h
Step-Counted (resets a) h = omega arith
Step-Counted (installs a g t f) h =
    unsent a (twai_driver_install a g t f).0 (ground arith) (ground arith) h
Step-Counted (uninstalls a) h = unsent a (twai_driver_uninstall a).0 (ground arith) (ground arith) h
Step-Counted (starts a) h = unsent a (twai_start a).0 (ground arith) (ground arith) h
Step-Counted (stops a) h = unsent a (twai_stop a).0 (ground arith) (ground arith) h
Step-Counted (transmits a m) h = sent a m h
Step-Counted (receives a) h = elim (Bool-cases (is_running a.state)) [
  | inl e ↦
      rw e (
        unsent a (take_rx a a.rx_queue).0 (take_rx-tx a a.rx_queue).0 (take_rx-tx a a.rx_queue).1 h)
  | inr e ↦ rw e h
]
Step-Counted (recovers a) h = unsent a (twai_initiate_recovery a).0 (ground arith) (ground arith) h

-- Over any sequence of calls the count of sent messages stays the number in the transmit queue.
pub tx_counted : (a b : Twai) → Counted a → Steps a b → Counted b
tx_counted a b h s = kept_by_steps Counted (λ c d t. Step-Counted t) s h
