-- ===== src/Peripherals/Mcp23017.antt =====
-- include/MCP23017.h: a port expander of 16 pins, one bit of each register for each pin.
pub mod Pins
use esp32emu.Base.{
  ℕ, ◌+◌, ◌*◌, ◌/◌, ◌%◌, ◌^◌, Bool, true, false, not, ltb, ◌==◌, if◌then◌else◌, bit_and, bit_or,
}
use esp32emu.Base.Bits.{bit_not}

pub record Mcp23017 : Type 0 where
  pub addr : ℕ
  pub initialized : Bool
  pub iodir : ℕ
  pub gpio : ℕ
  pub pullup : ℕ
  pub gpinten : ℕ
  pub ipol : ℕ

abbrev pub mcp23017_address : ℕ
mcp23017_address = 0x20

pub reset : Mcp23017
reset = record {
  addr = mcp23017_address;
  initialized = false;
  iodir = 0xFFFF;
  gpio = 0x0000;
  pullup = 0x0000;
  gpinten = 0x0000;
  ipol = 0x0000;
}

pub begin : Mcp23017 → ℕ → Mcp23017
begin c addr = record c { addr = addr; initialized = true }

-- `r |= 1 << pin` and `r &= ~(1 << pin)` on a register.
pub put_bit : ℕ → ℕ → Bool → ℕ
put_bit r pin true = bit_or r (2 ^ pin)
put_bit r pin false = bit_and r (bit_not 16 (2 ^ pin))

pub pin_mode : Mcp23017 → ℕ → ℕ → Mcp23017
unfolding put_bit
pin_mode c pin mode = if ltb 15 pin then c else record c { iodir = put_bit c.iodir pin (mode == 1) }

pub digital_write : Mcp23017 → ℕ → ℕ → Mcp23017
unfolding put_bit
digital_write c pin val =
    if ltb 15 pin then c else record c { gpio = put_bit c.gpio pin (not (val == 0)) }

pub digital_read : Mcp23017 → ℕ → ℕ
digital_read c pin = if ltb 15 pin then 0 else bit_and (c.gpio / 2 ^ pin) 1

pub write_gpioab : Mcp23017 → ℕ → Mcp23017
write_gpioab c val = record c { gpio = val }

pub read_gpioab : Mcp23017 → ℕ
read_gpioab c = c.gpio

pub write_gpioa : Mcp23017 → ℕ → Mcp23017
write_gpioa c val = record c { gpio = bit_or (bit_and c.gpio 0xFF00) val }

pub write_gpiob : Mcp23017 → ℕ → Mcp23017
write_gpiob c val = record c { gpio = bit_or (bit_and c.gpio 0x00FF) (val * 2 ^ 8 % 2 ^ 16) }

pub read_gpioa : Mcp23017 → ℕ
read_gpioa c = bit_and c.gpio 0xFF

pub read_gpiob : Mcp23017 → ℕ
read_gpiob c = bit_and (c.gpio / 2 ^ 8) 0xFF

pub set_pullup : Mcp23017 → ℕ → Bool → Mcp23017
unfolding put_bit
set_pullup c pin enabled =
    if ltb 15 pin then c else record c { pullup = put_bit c.pullup pin enabled }

pub set_pullup_ab : Mcp23017 → ℕ → Mcp23017
set_pullup_ab c val = record c { pullup = val }

pub get_pullup_ab : Mcp23017 → ℕ
get_pullup_ab c = c.pullup

pub set_interrupt : Mcp23017 → ℕ → Bool → Mcp23017
unfolding put_bit
set_interrupt c pin enabled =
    if ltb 15 pin then c else record c { gpinten = put_bit c.gpinten pin enabled }

pub get_interrupt_enabled : Mcp23017 → ℕ
get_interrupt_enabled c = c.gpinten

pub set_polarity : Mcp23017 → ℕ → Bool → Mcp23017
unfolding put_bit
set_polarity c pin inverted =
    if ltb 15 pin then c else record c { ipol = put_bit c.ipol pin inverted }

pub get_iodir : Mcp23017 → ℕ
get_iodir c = c.iodir

pub get_gpio : Mcp23017 → ℕ
get_gpio c = c.gpio

pub is_initialized : Mcp23017 → Bool
is_initialized c = c.initialized

-- The test helper `test_setPin`.
pub test_set_pin : Mcp23017 → ℕ → Bool → Mcp23017
unfolding put_bit
test_set_pin c pin val = if ltb 15 pin then c else record c { gpio = put_bit c.gpio pin val }
