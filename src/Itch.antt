-- ===== src/Itch.antt =====
-- host/pymodel/itch_decode.py: the ITCH message layouts and the decoder of one message.
pub mod Layout
pub mod Decode
pub mod Total
mod Tests
