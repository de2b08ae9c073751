-- ===== src/Net/Exchange/Answers.antt =====
-- The response that the server sends is the response that the client reads.
pub mod Lines
pub mod Read
