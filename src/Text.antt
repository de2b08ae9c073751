-- ===== src/Text.antt =====
-- Texts and encodings: base64, JSON and sentences of a GPS receiver.
pub mod Base64
pub mod Json
