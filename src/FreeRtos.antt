-- ===== src/FreeRtos.antt =====
-- include/freertos: what tasks talk to one another by.
pub mod Queue
pub mod StreamBuffer
pub mod EventGroup
pub mod TaskNotify
pub mod Ringbuf
