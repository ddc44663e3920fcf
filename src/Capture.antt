-- ===== src/Capture.antt =====
-- tools/pcap/itch_parse.py: a capture of the feed, from its frames to the packets of each line.
pub mod Link
pub mod Reader
pub mod Judged
pub mod Coverage
pub mod Explicit
pub mod Datagrams
pub mod Framed
mod Tests
