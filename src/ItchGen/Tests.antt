-- ===== src/ItchGen/Tests.antt =====
-- The builders, the framing and the generator at small inputs.
use fpga_algotrading.Prelude.{
  ℕ, ◌%◌, ◌≡◌, refl, false, none, some, List, [], ◌∷◌, ◌++◌, arith, replicate, take, ◌==◌, ◌||◌,
  not, or_else,
}
use fpga_algotrading.Feed.Bytes.{to_bytes, bytes_of}
use fpga_algotrading.GoldenBook.State.{GoldenBook, new_book}
use fpga_algotrading.ItchGen.{ljust}
use fpga_algotrading.ItchGen.Meaning.{Stimulus}
use fpga_algotrading.ItchGen.Framing.{
  blocks, mold64, word_sum, fold_carry, ip_checksum, ipv4_header, ipv4_packet, udp_datagram,
  eth_frame, eth_udp_frame,
}
use fpga_algotrading.ItchGen.Checksum.{ipv4_packet-checks}
use fpga_algotrading.ItchGen.Generator.{
  FeedGenerator, sent, emit, grow_pad, fillers, straddle, truncated,
}
use fpga_algotrading.ItchGen.Parse.{parse_mold64}
use fpga_algotrading.ItchGen.Recovered.{parse_mold64-mold64}
use fpga_algotrading.ItchGen.Places.{StandsAt}
use fpga_algotrading.ItchGen.Aligned.{straddle-aligned}
use fpga_algotrading.ItchGen.Sequenced.{Stream, IsSequenced, Stream-IsSequenced}

abbrev every_locate : GoldenBook
every_locate = new_book (record { book_levels = 2048; active_locates = none })

-- 100 shares of AAPL to buy at 1000.
abbrev buy : Stimulus
buy = Stimulus.added 1 b'B' 100 (b'A' ∷ b'A' ∷ b'P' ∷ b'L' ∷ []) 1000

abbrev buy_message : List ℕ
buy_message =
    b'A' ∷ 0 ∷ 7 ∷ replicate 14 0
    ++ (0 ∷ 1 ∷ b'B' ∷ 0 ∷ 0 ∷ 0 ∷ 100 ∷ b'A' ∷ b'A' ∷ b'P' ∷ b'L' ∷ 32 ∷ 32 ∷ 32 ∷ 32 ∷ 0 ∷ 0 ∷ 3
        ∷ 232 ∷ [])

abbrev session : List ℕ
session = b'T' ∷ b'E' ∷ b'S' ∷ b'T' ∷ []

abbrev two_messages : List (List ℕ)
two_messages = (b'x' ∷ b'y' ∷ []) ∷ (b'z' ∷ []) ∷ []

-- The packet of the two messages at the sequence number 5.
abbrev two_packet : List ℕ
two_packet =
    session
    ++ (replicate 6 32 ++ (replicate 7 0 ++ (5 ∷ 0 ∷ 2 ∷ 0 ∷ 2 ∷ b'x' ∷ b'y' ∷ 0 ∷ 1 ∷ b'z' ∷ [])))

packed : mold64 5 two_messages session none none ≡ some two_packet
unfolding mold64 blocks to_bytes bytes_of
packed = refl

parse_mold64-mold64_example :
    parse_mold64 two_packet
    ≡ some (record { session = ljust 10 session; seq = 5; count = 2; msgs = two_messages })
parse_mold64-mold64_example =
    parse_mold64-mold64 5 two_messages session two_packet (omega arith) packed

abbrev source : List ℕ
source = 10 ∷ 0 ∷ 0 ∷ 1 ∷ []

abbrev group : List ℕ
group = 233 ∷ 54 ∷ 12 ∷ 111 ∷ []

-- A header for a payload of one byte, before and after its checksum.
abbrev header_with : ℕ → ℕ → List ℕ
header_with hi lo = 69 ∷ 0 ∷ 0 ∷ 21 ∷ 0 ∷ 0 ∷ 0 ∷ 0 ∷ 8 ∷ 17 ∷ hi ∷ lo ∷ source ++ group

made : ipv4_header 21 source group 0 8 17 ≡ some (header_with 0 0)
unfolding ipv4_header to_bytes bytes_of
made = refl

wrapped : ipv4_packet (b'x' ∷ []) source group 0 8 17 false ≡ some (header_with 179 50 ++ b'x' ∷ [])
unfolding ipv4_packet ipv4_header ip_checksum word_sum fold_carry to_bytes bytes_of
wrapped = refl

ipv4_packet-checks_example :
    (ip_checksum (take 20 (header_with 179 50 ++ b'x' ∷ [])) == 0)
    ≡ (not false || ip_checksum (header_with 0 0) == 0)
ipv4_packet-checks_example =
    ipv4_packet-checks (b'x' ∷ []) source group 0 8 17 false (header_with 0 0)
      (header_with 179 50 ++ b'x' ∷ []) refl refl made wrapped

abbrev new_generator : FeedGenerator
new_generator = record {
  session = session;
  seq = 5;
  ts_ns = 34200000000000;
  ts_step_ns = 1000;
  packets = [];
}

-- The packet of the two messages, cut short by four bytes: it takes its two numbers all the same.
abbrev cut_short : FeedGenerator × List ℕ
cut_short = (sent new_generator two_packet 2, take 23 two_packet)

cut_is : truncated new_generator two_messages 4 ≡ some cut_short
unfolding truncated emit mold64 blocks to_bytes bytes_of
cut_is = refl

Stream-IsSequenced_example : IsSequenced new_generator (sent new_generator two_packet 2)
Stream-IsSequenced_example =
    Stream-IsSequenced new_generator (sent new_generator two_packet 2) refl
      (Stream.shortened Stream.start two_messages 4 cut_short cut_is)

-- The frame whose message is to stand at the offset 5.
abbrev at_five : FeedGenerator × List ℕ
at_five = or_else (straddle new_generator (b'm' ∷ b'n' ∷ []) 5 8) (new_generator, [])

at_five_is : straddle new_generator (b'm' ∷ b'n' ∷ []) 5 8 ≡ some at_five
unfolding straddle fillers grow_pad mold64 blocks eth_udp_frame udp_datagram ipv4_packet ipv4_header
    ip_checksum word_sum fold_carry eth_frame to_bytes bytes_of
at_five_is = refl

straddle-aligned_example : (n : ℕ) × StandsAt n (b'm' ∷ b'n' ∷ []) at_five.1 × (n % 8 ≡ 5)
straddle-aligned_example = straddle-aligned new_generator (b'm' ∷ b'n' ∷ []) 5 at_five at_five_is
