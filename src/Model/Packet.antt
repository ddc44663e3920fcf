-- ===== src/Model/Packet.antt =====
-- host/pymodel/model.py, `step_packet` and `_stale_everything`.
use fpga_algotrading.Prelude.{
  ℕ, ◌+◌, ◌-◌, Bool, true, false, Option, none, some, List, [], ◌∷◌, ◌&&◌, ltb, if◌then◌else◌,
  length, max, or_else, is_some,
}
use fpga_algotrading.Dict.{Dict}
use fpga_algotrading.Book.State.{OrderBookModel, Reason, sequence_gap, packet_abandoned, mark_stale}
use fpga_algotrading.Feed.Mold.{
  MoldPacket, Fault, is_heartbeat, is_end_of_session, next_expected, decode_mold_packet,
}
use fpga_algotrading.Itch.Decode.{is_error}
use fpga_algotrading.Model.Filter.{sym_for, subscribed_locates}
use fpga_algotrading.Model.State.{FeedCounters, note_error, ErrorKind, GoldenModel, StepResult}
use fpga_algotrading.Model.Step.{with_feed, step_message}

-- The loop of `_stale_everything` over locates.
unfoldable pub stale_locates : Dict ℕ → List ℕ → Reason → OrderBookModel → OrderBookModel
stale_locates filter [] reason m = m
stale_locates filter (locate ∷ locates) reason m =
    stale_locates filter locates reason
      (elim (sym_for filter locate) [ none ↦ m | some sym ↦ mark_stale m sym reason ])

unfoldable pub stale_everything : GoldenModel → Reason → GoldenModel
stale_everything m reason = record m {
  book = stale_locates m.symbols (subscribed_locates m.symbols) reason m.book;
}

-- Why the rest of a packet was not read: at a message index, or the fault of the framing.
pub data Abandon : Type 0 where
  at_message : ℕ → Abandon
  malformed : Fault → Abandon

pub record PacketResult : Type 0 where
  pub packet : MoldPacket
  pub results : List StepResult
  pub gap : ℕ
  pub duplicate : Bool
  pub abandoned : Option Abandon

abbrev pub bare : MoldPacket → Option Abandon → PacketResult
bare packet abandoned = record {
  packet = packet;
  results = [];
  gap = 0;
  duplicate = false;
  abandoned = abandoned;
}

abbrev pub of_fault : Option Fault → Option Abandon
of_fault none = none
of_fault (some f) = some (malformed f)

pub record BlockRun : Type 0 where
  pub model : GoldenModel
  pub results : List StepResult
  pub abandoned : Option ℕ

abbrev with_result : StepResult → Option BlockRun → Option BlockRun
with_result r none = none
with_result r (some run) = some (record run { results = r ∷ run.results })

-- The loop over the blocks, up to the first that is an error; it keeps the index of that message.
unfoldable pub step_blocks : GoldenModel → List (List ℕ) → ℕ → Option BlockRun
step_blocks m [] rx_cycle = some (record { model = m; results = []; abandoned = none })
step_blocks m (block ∷ blocks) rx_cycle =
    elim (step_message m block rx_cycle (some (length block))) [
      | none ↦ none
      | some (m', r) ↦
          let rest = step_blocks m' blocks rx_cycle in
          if is_error r.status
          then some (record { model = m'; results = r ∷ []; abandoned = some r.index })
          else with_result r rest
    ]

abbrev pub count_abandoned : ℕ → FeedCounters → FeedCounters
count_abandoned n k = record k { packet_blocks_abandoned = k.packet_blocks_abandoned + n }

abbrev pub count_gap : ℕ → ℕ → FeedCounters → FeedCounters
count_gap index gap k =
    note_error ErrorKind.sequence_gap index
      (record k { seq_gaps = k.seq_gaps + 1; gap_max_size = max k.gap_max_size gap })

-- The end of `step_packet`: what was not read is counted and stales every symbol.
abbrev pub finish : MoldPacket → ℕ → BlockRun → GoldenModel × PacketResult
finish packet gap run = elim run.abandoned [
  | none ↦ (
    run.model,
    record {
      packet = packet;
      results = run.results;
      gap = gap;
      duplicate = false;
      abandoned = of_fault packet.malformed;
    },
  )
  | some index ↦ (
    stale_everything
        (with_feed run.model (count_abandoned (length packet.blocks - length run.results)))
        (packet_abandoned index),
    record {
      packet = packet;
      results = run.results;
      gap = gap;
      duplicate = false;
      abandoned = some (at_message index);
    },
  )
]

-- A gap is counted and stales every symbol.
unfoldable pub note_gap : GoldenModel → MoldPacket → ℕ → GoldenModel
note_gap m packet gap =
    stale_everything (with_feed m (count_gap m.msg_index gap)) (sequence_gap gap packet.sequence)

-- `step_packet` from the sequence tracking on, with the sequence number that is expected.
unfoldable pub sequenced : GoldenModel → MoldPacket → ℕ → ℕ → Option (GoldenModel × PacketResult)
sequenced m packet expected rx_cycle =
    let gap = packet.sequence - expected in
    let m' = if ltb expected packet.sequence then note_gap m packet gap else m in
    if ltb packet.sequence expected
    then some (
      record (with_feed m (λ k. record k { dup_packets = k.dup_packets + 1 })) {
        next_expected = some expected;
      },
      record (bare packet none) { duplicate = true },
    )
    else elim (step_blocks (record m' { next_expected = some (next_expected packet) }) packet.blocks
        rx_cycle) [ none ↦ none | some run ↦ some (finish packet gap run) ]

abbrev pub is_nil : {A : Type 0} → List A → Bool
is_nil [] = true
is_nil (_ ∷ _) = false

-- The packet is counted, and its fault if it has one.
abbrev pub received : GoldenModel → MoldPacket → GoldenModel
received m packet = with_feed m (λ k.
    let k' = record k { rx_packets = k.rx_packets + 1 } in
    if is_some packet.malformed
    then note_error ErrorKind.malformed_packet m.msg_index
        (record k' { drop_malformed = k'.drop_malformed + 1 })
    else k')

-- `if not self.session: self.session = packet.session`
abbrev pub with_session : GoldenModel → MoldPacket → GoldenModel
with_session m packet = if is_nil m.session then record m { session = packet.session } else m

unfoldable pub step_packet : GoldenModel → List ℕ → ℕ → Option (GoldenModel × PacketResult)
step_packet m raw rx_cycle =
    let packet = decode_mold_packet raw in
    let m₁ = received m packet in
    let m₂ = with_session m₁ packet in
    if is_some packet.malformed && is_nil packet.blocks
    then some (m₁, bare packet (of_fault packet.malformed))
    else if is_heartbeat packet
    then some (with_feed m₂ (λ k. record k { heartbeats = k.heartbeats + 1 }), bare packet none)
    else if is_end_of_session packet
    then some
        (with_feed m₂ (λ k. record k { end_of_session = k.end_of_session + 1 }), bare packet none)
    else sequenced m₂ packet (or_else m₂.next_expected packet.sequence) rx_cycle
