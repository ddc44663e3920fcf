-- ===== src/Model/Tests.antt =====
-- A packet after a gap, and one that comes twice.
use fpga_algotrading.Prelude.{ℕ, ◌≤◌, ◌≡◌, refl, true, none, some, List, [], ◌∷◌, or_else, arith}
use fpga_algotrading.Book.State.{add_reason, mark_stale}
use fpga_algotrading.Feed.Bytes.{from_bytes_on, to_bytes, bytes_of}
use fpga_algotrading.Feed.Mold.{
  read_blocks, decode_mold_packet, raw_block, body_of, mold_packet, next_expected,
}
use fpga_algotrading.Itch.Decode.{DecodeStatus, decode_typed, decode_message}
use fpga_algotrading.Model.State.{GoldenModel, new_golden}
use fpga_algotrading.Model.Step.{no_result, step_result, step_message}
use fpga_algotrading.Model.Packet.{
  stale_locates, stale_everything, bare, PacketResult, step_blocks, note_gap, sequenced,
  step_packet,
}
use fpga_algotrading.Model.Recovery.{is_stale}
use fpga_algotrading.Model.Outages.{IsData, IsIgnored, lost, lost_stales, duplicate-IsIgnored}

abbrev session : List ℕ
session = 65 ∷ 78 ∷ 84 ∷ 84 ∷ 32 ∷ 32 ∷ 32 ∷ 32 ∷ 32 ∷ 32 ∷ []

-- One message of a type that no layout has.
abbrev packet : ℕ → List ℕ
packet sequence = or_else (mold_packet ((b'z' ∷ []) ∷ []) sequence session none []) []

abbrev waiting : GoldenModel
waiting = record (new_golden ((77, 3) ∷ []) [] 0) { next_expected = some 5 }

abbrev after : ℕ → GoldenModel × PacketResult
after sequence =
    or_else (step_packet waiting (packet sequence) 1)
      (waiting, bare (decode_mold_packet (packet sequence)) none)

early_returns : step_packet waiting (packet 7) 1 ≡ some ((after 7).0, (after 7).1)
unfolding mold_packet to_bytes bytes_of body_of raw_block decode_mold_packet read_blocks
    from_bytes_on next_expected step_packet sequenced note_gap stale_everything stale_locates
    mark_stale add_reason step_blocks step_message decode_message decode_typed step_result
early_returns = refl

early_lost : lost (after 7).1 ≡ true
unfolding mold_packet to_bytes bytes_of body_of raw_block decode_mold_packet read_blocks
    from_bytes_on next_expected step_packet sequenced note_gap stale_everything stale_locates
    mark_stale add_reason step_blocks step_message decode_message decode_typed step_result
early_lost = refl

lost_stales_example : is_stale (after 7).0.book 3 ≡ true
lost_stales_example =
    lost_stales waiting (after 7).0 (packet 7) 1 77 3 (after 7).1 early_returns refl early_lost

late_again : (after 3).1.duplicate ≡ true
unfolding mold_packet to_bytes bytes_of body_of raw_block decode_mold_packet read_blocks
    from_bytes_on step_packet sequenced
late_again = refl

early-IsData : IsData (decode_mold_packet (packet 7))
unfolding mold_packet to_bytes bytes_of body_of raw_block decode_mold_packet read_blocks
    from_bytes_on
early-IsData = record { whole = refl; no_beat = refl; going = refl }

late-IsData : IsData (decode_mold_packet (packet 3))
unfolding mold_packet to_bytes bytes_of body_of raw_block decode_mold_packet read_blocks
    from_bytes_on
late-IsData = record { whole = refl; no_beat = refl; going = refl }

late_starts : (decode_mold_packet (packet 3)).sequence ≤ (decode_mold_packet (packet 7)).sequence
unfolding mold_packet to_bytes bytes_of body_of raw_block decode_mold_packet read_blocks
    from_bytes_on
late_starts = omega arith

duplicate-IsIgnored_example : IsIgnored (after 7).0 (packet 3) 2
duplicate-IsIgnored_example =
    duplicate-IsIgnored waiting (after 7).0 (packet 7) (packet 3) 1 2 (after 7).1 early_returns
      early-IsData late-IsData late_starts

abbrev unknown : GoldenModel
unknown =
    (or_else (step_message waiting (b'z' ∷ []) 1 (some 1))
      (waiting, no_result 0 [] DecodeStatus.ok)).0
