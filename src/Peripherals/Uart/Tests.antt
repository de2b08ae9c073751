-- ===== src/Peripherals/Uart/Tests.antt =====
-- Runs and instances on three ports, the second with two waiting bytes.
use esp32emu.Base.{arith, ◌≡◌, List, [], ◌∷◌, ◌++◌}
use esp32emu.Base.History.{run}
use esp32emu.Peripherals.Uart.{UartPort, UartDriver}
use esp32emu.Peripherals.Uart.Fifo.{Call, arrive, send, receive, flush_tx, rx_step, rx_bytes_order}

abbrev silent : UartPort
silent = record {
  config = record {
    baud_rate = 9600;
    data_bits = 3;
    parity = 0;
    stop_bits = 0;
    flow_ctrl = 0;
    rx_flow_ctrl_thresh = 0;
    source_clk = 0;
  };
  rx_buf = [];
  tx_buf = [];
}

abbrev waiting : UartPort
waiting = record silent { rx_buf = 1 ∷ 2 ∷ [] }

abbrev driver : UartDriver
driver = record { port0 = silent; port1 = waiting; port2 = silent }

abbrev calls : List Call
calls = receive 1 ∷ arrive (3 ∷ []) ∷ send (9 ∷ []) ∷ flush_tx ∷ receive 5 ∷ []

rx_bytes_order_example :
    (run rx_step waiting calls).2 ++ (run rx_step waiting calls).0.rx_buf
    ≡ 1 ∷ 2 ∷ [] ++ (run rx_step waiting calls).1
rx_bytes_order_example = rx_bytes_order waiting calls (omega arith)
