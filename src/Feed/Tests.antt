-- ===== src/Feed/Tests.antt =====
-- Packets of two short messages, whole and cut short.
use fpga_algotrading.Prelude.{
  ℕ, ◌+◌, ◌≡◌, ◌≤◌, refl, none, some, List, [], ◌∷◌, or_else, arith, length, take,
}
use fpga_algotrading.Feed.Bytes.{from_bytes_on, bytes_of, to_bytes}
use fpga_algotrading.Feed.Mold.{
  read_blocks, decode_mold_packet, raw_block, body_of, mold_packet, rstrip, expected_blocks,
}
use fpga_algotrading.Feed.Packets.{decode-mold_packet}
use fpga_algotrading.Feed.Extent.{framed_size, decode_fits, decode_exact}

-- "ANTT" and six blanks
abbrev session : List ℕ
session = 65 ∷ 78 ∷ 84 ∷ 84 ∷ 32 ∷ 32 ∷ 32 ∷ 32 ∷ 32 ∷ 32 ∷ []

abbrev messages : List (List ℕ)
messages = (1 ∷ 2 ∷ 3 ∷ []) ∷ (4 ∷ []) ∷ []

abbrev packet : List ℕ
packet = or_else (mold_packet messages 7 session none []) []

packet_frames : mold_packet messages 7 session none [] ≡ some packet
unfolding mold_packet to_bytes bytes_of body_of raw_block
packet_frames = refl

decode-mold_packet_example : decode_mold_packet packet ≡ record {
  session = rstrip session;
  sequence = 7;
  count = length messages;
  blocks = messages;
  malformed = none;
}
decode-mold_packet_example =
    decode-mold_packet messages 7 session packet (omega arith) packet_frames

decode_fits_example :
    (length (decode_mold_packet (take 27 packet)).blocks
      ≤ (decode_mold_packet (take 27 packet)).count)
    × (framed_size (decode_mold_packet (take 27 packet)).blocks ≤ length (take 27 packet))
decode_fits_example = decode_fits (take 27 packet)

-- A packet cut in its second message gives the first message and a fault.
cut_blocks : (decode_mold_packet (take 27 packet)).blocks ≡ (1 ∷ 2 ∷ 3 ∷ []) ∷ []
unfolding mold_packet to_bytes bytes_of body_of raw_block decode_mold_packet read_blocks
    from_bytes_on
cut_blocks = refl

packet_clean : (decode_mold_packet packet).malformed ≡ none
unfolding mold_packet to_bytes bytes_of body_of raw_block decode_mold_packet read_blocks
    from_bytes_on
packet_clean = refl

decode_exact_example :
    (20 + framed_size (decode_mold_packet packet).blocks ≡ length packet)
    × (length (decode_mold_packet packet).blocks
        ≡ expected_blocks (decode_mold_packet packet).count)
decode_exact_example = decode_exact packet packet_clean
