-- ===== src/Peripherals.antt =====
-- Peripheral drivers with state: the CAN controller, the general purpose timer, the pulse counter,
-- the serial ports, the port expander, the Modbus master.
pub mod Twai
pub mod Gptimer
pub mod Pcnt
pub mod Uart
pub mod Mcp23017
pub mod Modbus
