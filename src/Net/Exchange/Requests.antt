-- ===== src/Net/Exchange/Requests.antt =====
-- The request that a client writes is the request that the server reads.
pub mod Lines
pub mod Words
pub mod Reading
pub mod Announced
pub mod Sendable
pub mod Found
pub mod Served
