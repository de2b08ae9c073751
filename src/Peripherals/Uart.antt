-- ===== src/Peripherals/Uart.antt =====
-- include/driver/uart.h: three ports, each with a buffer of received and one of sent bytes. A port
-- number is the word of its `int`, so a negative one is above 2. Pins, buffer sizes and flags are not
-- looked at by the code.
pub mod Fifo
mod Tests
use esp32emu.Base.{
  ℕ, zero, suc, Bool, true, false, not, List, [], ◌∷◌, ◌++◌, Option, none, some, ltb, if◌then◌else◌,
  length, take, drop, min, u32, ◌^◌,
}
use esp32emu.Base.Esp.{EspErr, esp_ok, esp_err_invalid_arg, Outcome, done, failed, fault}

-- `uart_config_t`
pub record UartConfig : Type 0 where
  pub baud_rate : ℕ
  pub data_bits : ℕ
  pub parity : ℕ
  pub stop_bits : ℕ
  pub flow_ctrl : ℕ
  pub rx_flow_ctrl_thresh : ℕ
  pub source_clk : ℕ

pub record UartPort : Type 0 where
  pub config : UartConfig
  pub rx_buf : List ℕ
  pub tx_buf : List ℕ

pub configure : UartPort → UartConfig → UartPort
configure p cfg = record p { config = cfg }

pub inject_rx : UartPort → List ℕ → UartPort
inject_rx p bytes = record p { rx_buf = p.rx_buf ++ bytes }

-- The port, the bytes that go to `buf`, and what is returned, `(int)n`, as a word of 32 bits. The bytes
-- up to `begin() + (int)n` are erased: C++ leaves open what comes when that number is negative.
pub read : UartPort → ℕ → Outcome (UartPort × List ℕ × ℕ)
read p len =
    let n = min len (length p.rx_buf) in
    if ltb (u32 n) (2 ^ 31)
    then done (record p { rx_buf = drop (u32 n) p.rx_buf }, take n p.rx_buf, u32 n)
    else fault

pub write : UartPort → List ℕ → UartPort × ℕ
write p bytes = (record p { tx_buf = p.tx_buf ++ bytes }, u32 (length bytes))

pub get_tx_data : UartPort → UartPort × List ℕ
get_tx_data p = (record p { tx_buf = [] }, p.tx_buf)

pub rx_available : UartPort → ℕ
rx_available p = length p.rx_buf

pub flush : UartPort → UartPort
flush p = record p { tx_buf = [] }

pub reset : UartPort → UartPort
reset p = record p { rx_buf = []; tx_buf = [] }

pub record UartDriver : Type 0 where
  pub port0 : UartPort
  pub port1 : UartPort
  pub port2 : UartPort

-- `port(num)`, and what an operation puts there.
pub port_number : ℕ → ℕ
port_number num = if ltb 2 num then 0 else num

pub by_number : UartDriver → ℕ → UartPort
by_number d zero = d.port0
by_number d (suc zero) = d.port1
by_number d (suc (suc n)) = d.port2

pub put_number : UartDriver → ℕ → UartPort → UartDriver
put_number d zero p = record d { port0 = p }
put_number d (suc zero) p = record d { port1 = p }
put_number d (suc (suc n)) p = record d { port2 = p }

pub port : UartDriver → ℕ → UartPort
unfolding port_number by_number
port d num = by_number d (port_number num)

pub put_port : UartDriver → ℕ → UartPort → UartDriver
unfolding port_number put_number
put_port d num p = put_number d (port_number num) p

-- `none` is a null pointer.
pub uart_param_config : UartDriver → ℕ → Option UartConfig → Outcome UartDriver
unfolding port put_port configure
uart_param_config d num none = failed esp_err_invalid_arg
uart_param_config d num (some cfg) = done (put_port d num (configure (port d num) cfg))

pub uart_driver_delete : UartDriver → ℕ → UartDriver
unfolding port put_port reset
uart_driver_delete d num = put_port d num (reset (port d num))

pub uart_read_bytes : UartDriver → ℕ → ℕ → Outcome (UartDriver × List ℕ × ℕ)
unfolding port put_port read
uart_read_bytes d num len = elim (read (port d num) len) [
  | done (p, bytes, count) ↦ done (put_port d num p, bytes, count)
  | failed e ↦ failed e
  | fault ↦ fault
]

pub uart_write_bytes : UartDriver → ℕ → List ℕ → UartDriver × ℕ
unfolding port put_port write
uart_write_bytes d num bytes = let (p, n) = write (port d num) bytes in (put_port d num p, n)

pub uart_flush : UartDriver → ℕ → UartDriver
unfolding port put_port flush
uart_flush d num = put_port d num (flush (port d num))

-- The length goes to `*size`, which `has_size` says is no null pointer.
pub uart_get_buffered_data_len : UartDriver → ℕ → Bool → Outcome ℕ
unfolding port rx_available
uart_get_buffered_data_len d num false = failed esp_err_invalid_arg
uart_get_buffered_data_len d num true = done (rx_available (port d num))
