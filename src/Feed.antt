-- ===== src/Feed.antt =====
-- host/pymodel/itch_decode.py and itch_encode.py, the MoldUDP64 packets, and the symbol filter of
-- host/pymodel/book.py.
pub mod Bytes
pub mod Mold
pub mod Packets
pub mod Extent
mod Tests
