-- ===== src/Capture/Tests.antt =====
-- Two packets of one line, read from a capture without a link layer, and a tagged frame.
use fpga_algotrading.Prelude.{
  ℕ, ◌≤◌, ◌<◌, ◌≡◌, refl, false, none, some, List, [], ◌∷◌, ◌++◌, replicate, or_else,
}
use fpga_algotrading.Feed.Bytes.{from_bytes_on, to_bytes, bytes_of}
use fpga_algotrading.ItchGen.Framing.{
  word_sum, fold_carry, ip_checksum, udp_datagram, ipv4_header, ipv4_packet, eth_frame,
  FrameOptions, frame_defaults, eth_udp_frame,
}
use fpga_algotrading.Capture.Link.{CaptureRecord, ip_offset, ip_part, udp_part, extract_udp}
use fpga_algotrading.Capture.Reader.{
  Line, ItchReader, new_reader, judged, check_sequence, with_packet, with_datagram, record_to_mold,
  settle, read_record,
}
use fpga_algotrading.Capture.Datagrams.{read_as}
use fpga_algotrading.Capture.Framed.{extract-eth_udp_frame}
use fpga_algotrading.Capture.Judged.{has_gap, Span, Covers, first_of}
use fpga_algotrading.Capture.Coverage.{judged_packet, Capture, no_gap-Covers}

-- A packet of the session `T` with a sequence number and a count, in UDP and IPv4.
abbrev captured : ℕ → ℕ → CaptureRecord
captured seq count = record {
  data_ =
      69
        ∷ 0
        ∷ 0
        ∷ 48
        ∷ 0
        ∷ 0
        ∷ 0
        ∷ 0
        ∷ 8
        ∷ 17
        ∷ 0
        ∷ 0
        ∷ 10
        ∷ 0
        ∷ 0
        ∷ 1
        ∷ 10
        ∷ 0
        ∷ 0
        ∷ 2
        ∷ 0
        ∷ 9
        ∷ 0
        ∷ 8
        ∷ 0
        ∷ 28
        ∷ 0
        ∷ 0
        ∷ b'T'
        ∷ replicate 9 32
      ++ (replicate 7 0 ++ (seq ∷ 0 ∷ count ∷ []));
  linktype = 101;
  ts_ns = 1;
}

abbrev line : Line
line = record { dst = 10 ∷ 0 ∷ 0 ∷ 2 ∷ []; dst_port = 8; session = b'T' ∷ [] }

abbrev reader : ItchReader
reader = new_reader none none false

abbrev once : ItchReader
once = read_record reader (captured 5 2)

abbrev twice : ItchReader
twice = read_record once (captured 7 1)

abbrev history : List Span
history = judged_packet once (captured 7 1) ++ (judged_packet reader (captured 5 2) ++ [])

both_read : Capture reader history twice
both_read = Capture.read (Capture.read Capture.opened_at (captured 5 2)) (captured 7 1)

no_gap : has_gap twice.notes ≡ false
unfolding read_record settle check_sequence judged record_to_mold with_datagram with_packet
    extract_udp ip_offset ip_part udp_part from_bytes_on
no_gap = refl

next_is_eight : twice.seq_state line ≡ some 8
unfolding read_record settle check_sequence judged record_to_mold with_datagram with_packet
    extract_udp ip_offset ip_part udp_part from_bytes_on
next_is_eight = refl

no_gap-Covers_example :
    (f : ℕ) × (first_of history line ≡ some f) × ((s : ℕ) → f ≤ s → s < 8 → Covers history line s)
no_gap-Covers_example =
    no_gap-Covers none none false history twice line 8 both_read no_gap next_is_eight

-- A tagged frame with a computed checksum, and its two bytes.
abbrev tagged : FrameOptions
tagged = record frame_defaults { vlan = some 100; checksum = none }

abbrev tagged_frame : List ℕ
tagged_frame = or_else (eth_udp_frame (b'm' ∷ b'n' ∷ []) tagged) []

tagged_is : eth_udp_frame (b'm' ∷ b'n' ∷ []) tagged ≡ some tagged_frame
unfolding eth_udp_frame udp_datagram ipv4_packet ipv4_header ip_checksum word_sum fold_carry
    eth_frame to_bytes bytes_of
tagged_is = refl

extract-eth_udp_frame_example :
    extract_udp (record { data_ = tagged_frame; linktype = 1; ts_ns = 0 })
    ≡ read_as tagged (b'm' ∷ b'n' ∷ [])
extract-eth_udp_frame_example =
    extract-eth_udp_frame (b'm' ∷ b'n' ∷ []) tagged tagged_frame 0 refl refl refl refl tagged_is
