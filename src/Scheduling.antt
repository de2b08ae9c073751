-- ===== src/Scheduling.antt =====
-- Cooperative tasks and the task watchdog.
pub mod TaskScheduler
pub mod TaskWdt
