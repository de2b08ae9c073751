-- ===== src/Storage.antt =====
-- Persistent storage: partitions, wear levelling, the flash chip, non-volatile keys, updates, EEPROM.
pub mod Partition
pub mod WearLevelling
pub mod Flash
pub mod Nvs
pub mod Update
pub mod Ota
pub mod Eeprom
