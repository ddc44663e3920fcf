-- ===== src/Model/Outages.antt =====
-- What a whole packet does that comes late, early, or cannot be read.
use fpga_algotrading.Prelude.{
  ℕ, ◌+◌, ◌-◌, ◌<◌, ◌≤◌, ◌≡◌, ◌≢◌, refl, sym, ap, ◌∙◌, inl, inr, Bool, true, false, Option, none,
  some, List, [], ltb, ◌==◌, if◌then◌else◌, arith, Bool-cases, Option-cases, along_some, length,
  is_some, or_else, not, ◌||◌, ◌&&◌,
}
use fpga_algotrading.Book.State.{sequence_gap, packet_abandoned}
use fpga_algotrading.Feed.Mold.{
  Fault, MoldPacket, decode_mold_packet, is_heartbeat, is_end_of_session, next_expected,
}
use fpga_algotrading.Model.Filter.{sym_for}
use fpga_algotrading.Model.State.{GoldenModel}
use fpga_algotrading.Model.Step.{with_feed}
use fpga_algotrading.Model.Packet.{
  Abandon, at_message, PacketResult, BlockRun, step_blocks, count_abandoned, count_gap, finish,
  of_fault, note_gap, sequenced, received, with_session, is_nil, step_packet, bare,
}
use fpga_algotrading.Model.Recovery.{is_stale, Keeps}
use fpga_algotrading.Model.Gaps.{stale_everything_hits, stale_everything-Keeps, step_blocks-Keeps}

-- The symbol stands behind a locate of the filter.
abbrev pub Subscribed : GoldenModel → ℕ → ℕ → Type 0
Subscribed m locate place = sym_for m.symbols locate ≡ some place

-- Abandoned at a message.
abbrev pub broke_at : Option Abandon → Bool
broke_at (some (at_message i)) = true
broke_at _ = false

-- A reported gap, or a report of messages not read.
abbrev pub lost : PacketResult → Bool
lost r = not (r.gap == 0) || broke_at r.abandoned

finish-Keeps :
    (packet : MoldPacket) (gap : ℕ) (run : BlockRun) → Keeps run.model (finish packet gap run).0
finish-Keeps packet gap run = elim (Option-cases run.abandoned) [
  | inl whole ↦ rw (whole) (record { symbols = refl; expects = refl; sticky = λ s h. h })
  | inr (i, broke) ↦ rw (broke) (
      let k =
        stale_everything-Keeps
          (with_feed run.model (count_abandoned (length packet.blocks - length run.results)))
          (packet_abandoned i) in
      record { symbols = k.symbols; expects = k.expects; sticky = k.sticky })
]

finish_gap : (packet : MoldPacket) (gap : ℕ) (run : BlockRun) → (finish packet gap run).1.gap ≡ gap
finish_gap packet gap run = elim (Option-cases run.abandoned) [
  | inl whole ↦ rw (whole) refl
  | inr (i, broke) ↦ rw (broke) refl
]

-- Without an abandoned message the report has none.
no_fault : (f : Option Fault) → broke_at (of_fault f) ≡ false
no_fault none = refl
no_fault (some f) = refl

finish_broke :
    (packet : MoldPacket) (gap : ℕ) (run : BlockRun) (locate place : ℕ)
    → broke_at (finish packet gap run).1.abandoned ≡ true
    → Subscribed run.model locate place
    → is_stale (finish packet gap run).0.book place ≡ true
finish_broke packet gap run locate place h known = elim (Option-cases run.abandoned) [
  | inl whole ↦ absurd (ground (arith, whole, no_fault packet.malformed))
  | inr (i, broke) ↦ rw (broke) (
      stale_everything_hits
        (with_feed run.model (count_abandoned (length packet.blocks - length run.results)))
        (packet_abandoned i) locate place known)
]

note_gap_hits :
    (m : GoldenModel) (packet : MoldPacket) (gap locate place : ℕ)
    → Subscribed m locate place
    → is_stale (note_gap m packet gap).book place ≡ true
unfolding note_gap
note_gap_hits m packet gap locate place known =
    stale_everything_hits (with_feed m (count_gap m.msg_index gap))
      (sequence_gap gap packet.sequence) locate place known

note_gap-Keeps : (m : GoldenModel) (packet : MoldPacket) (gap : ℕ) → Keeps m (note_gap m packet gap)
unfolding note_gap
note_gap-Keeps m packet gap =
    let k =
      stale_everything-Keeps (with_feed m (count_gap m.msg_index gap))
        (sequence_gap gap packet.sequence) in
    record { symbols = k.symbols; expects = k.expects; sticky = k.sticky }

-- The blocks of a packet, from the model that the sequence tracking leaves.
blocks_lost :
    (m m₁ : GoldenModel) (packet : MoldPacket) (gap : ℕ) (run : BlockRun)
    (rx_cycle locate place : ℕ)
    → Keeps m m₁
    → (gap ≢ 0 → is_stale m₁.book place ≡ true)
    → step_blocks m₁ packet.blocks rx_cycle ≡ some run
    → Subscribed m locate place
    → lost (finish packet gap run).1 ≡ true
    → is_stale (finish packet gap run).0.book place ≡ true
blocks_lost m m₁ packet gap run rx_cycle locate place k early runs known h =
    let ran = step_blocks-Keeps packet.blocks m₁ rx_cycle run runs in
    let known' : Subscribed run.model locate place =
      ap (λ f. sym_for f locate) (ran.symbols ∙ k.symbols) ∙ known in
    elim (Bool-cases (broke_at (finish packet gap run).1.abandoned)) [
      | inl broke ↦ finish_broke packet gap run locate place broke known'
      | inr whole ↦
          (finish-Keeps packet gap run).sticky place
            (ran.sticky place (early (ground (arith, whole, finish_gap packet gap run))))
    ]

-- The model that the blocks are read from.
abbrev tracked : GoldenModel → MoldPacket → ℕ → Bool → GoldenModel
tracked m packet gap ahead = record (if ahead then note_gap m packet gap else m) {
  next_expected = some (next_expected packet);
}

-- The model before the packet, but for the sequence number that is expected next.
abbrev moved_on : GoldenModel → MoldPacket → GoldenModel
moved_on m packet = record m { next_expected = some (next_expected packet) }

tracked-Keeps :
    (m : GoldenModel) (packet : MoldPacket) (gap : ℕ) (ahead : Bool)
    → Keeps (moved_on m packet) (tracked m packet gap ahead)
tracked-Keeps m packet gap true =
    let k = note_gap-Keeps m packet gap in
    record { symbols = k.symbols; expects = refl; sticky = k.sticky }
tracked-Keeps m packet gap false = record { symbols = refl; expects = refl; sticky = λ s h. h }

tracked_hits :
    (m : GoldenModel) (packet : MoldPacket) (gap locate place : ℕ) (ahead : Bool)
    → Subscribed m locate place
    → ahead ≡ true
    → is_stale (tracked m packet gap ahead).book place ≡ true
tracked_hits m packet gap locate place true known h = note_gap_hits m packet gap locate place known
tracked_hits m packet gap locate place false known h = cc

sequenced-lost :
    (m m' : GoldenModel) (packet : MoldPacket) (expected rx_cycle locate place : ℕ)
    (r : PacketResult)
    → sequenced m packet expected rx_cycle ≡ some (m', r)
    → Subscribed m locate place
    → lost r ≡ true
    → is_stale m'.book place ≡ true
unfolding sequenced
sequenced-lost m m' packet expected rx_cycle locate place r h known l =
    let gap = packet.sequence - expected in
    let m₁ = tracked m packet gap (ltb expected packet.sequence) in
    elim (Bool-cases (ltb packet.sequence expected)) [
      | inl late ↦ absurd (ground arith)
      | inr timely ↦ elim (Option-cases (step_blocks m₁ packet.blocks rx_cycle)) [
        | inl fails ↦ absurd (ground arith)
        | inr (run, runs) ↦
            let f = finish packet gap run in
            let done : ◌≡◌ {A = Option (GoldenModel × PacketResult)} (some (f.0, f.1))
                (some (m', r)) =
              ground arith in
            along_some (λ x y. lost y ≡ true → is_stale x.book place ≡ true) done
              (blocks_lost (moved_on m packet) m₁ packet gap run rx_cycle locate place
                (tracked-Keeps m packet gap (ltb expected packet.sequence))
                (λ some_lost.
                  tracked_hits m packet gap locate place (ltb expected packet.sequence) known
                    (ground arith))
                runs known)
              l
      ]
    ]

same_symbols :
    (m : GoldenModel) (packet : MoldPacket)
    → (with_session (received m packet) packet).symbols ≡ m.symbols
same_symbols m packet = ground arith

-- If the result of a packet reports a gap, or that the packet was abandoned at a message, every
-- subscribed symbol is stale after the packet, whatever its messages did.
pub lost_stales :
    (m m' : GoldenModel) (raw : List ℕ) (rx_cycle locate place : ℕ) (r : PacketResult)
    → step_packet m raw rx_cycle ≡ some (m', r)
    → Subscribed m locate place
    → lost r ≡ true
    → is_stale m'.book place ≡ true
unfolding step_packet
lost_stales m m' raw rx_cycle locate place r h known l =
    let packet = decode_mold_packet raw in
    let m₂ = with_session (received m packet) packet in
    let expected = or_else m₂.next_expected packet.sequence in
    elim (Bool-cases (is_some packet.malformed && is_nil packet.blocks)) [
      | inl unread ↦ absurd (ground (arith, no_fault packet.malformed))
      | inr read ↦ elim (Bool-cases (is_heartbeat packet)) [
        | inl beat ↦ absurd (ground arith)
        | inr no_beat ↦ elim (Bool-cases (is_end_of_session packet)) [
          | inl over ↦ absurd (ground arith)
          | inr going ↦
              sequenced-lost m₂ m' packet expected rx_cycle locate place r (ground arith)
                (ap (λ f. sym_for f locate) (same_symbols m packet) ∙ known) l
        ]
      ]
    ]

-- The parts of the model that the book-keeping of a packet does not touch.
abbrev pub Untouched : GoldenModel → GoldenModel → PacketResult → Type 0
Untouched m m' r =
    (m'.book ≡ m.book)
    × (m'.venue ≡ m.venue)
    × (m'.strategy ≡ m.strategy)
    × (m'.next_expected ≡ m.next_expected)
    × (r.results ≡ [])

-- What is left of a packet that is behind.
abbrev again : GoldenModel → MoldPacket → ℕ → GoldenModel × PacketResult
again m packet expected = (
  record (with_feed m (λ k. record k { dup_packets = k.dup_packets + 1 })) {
    next_expected = some expected;
  },
  record (bare packet none) { duplicate = true },
)

sequenced-behind :
    (m : GoldenModel) (packet : MoldPacket) (expected rx_cycle : ℕ)
    → packet.sequence < expected
    → sequenced m packet expected rx_cycle ≡ some (again m packet expected)
unfolding sequenced
sequenced-behind m packet expected rx_cycle late =
    let behind : ltb packet.sequence expected ≡ true = ground arith in rw behind refl

same_parts :
    (m : GoldenModel) (packet : MoldPacket)
    → let m₂ = with_session (received m packet) packet in
      (m₂.book ≡ m.book)
      × (m₂.venue ≡ m.venue)
      × (m₂.strategy ≡ m.strategy)
      × (m₂.next_expected ≡ m.next_expected)
      × (m₂.counters.dup_packets ≡ m.counters.dup_packets)
same_parts m packet = (ground arith, ground arith, ground arith, ground arith, ground arith)

-- The packet holds messages: it is neither malformed without any block read, nor a heartbeat, nor
-- the end of the session.
pub record IsData (packet : MoldPacket) : Type 0 where
  pub whole : (is_some packet.malformed && is_nil packet.blocks) ≡ false
  pub no_beat : is_heartbeat packet ≡ false
  pub going : is_end_of_session packet ≡ false

-- A duplicate, counted as one, that does nothing else.
pub record IsIgnored (m : GoldenModel) (raw : List ℕ) (rx_cycle : ℕ) : Type 0 where
  pub model : GoldenModel
  pub result : PacketResult
  pub returns : step_packet m raw rx_cycle ≡ some (model, result)
  pub duplicate : result.duplicate ≡ true
  pub counted : model.counters.dup_packets ≡ m.counters.dup_packets + 1
  pub untouched : Untouched m model result

-- A packet that starts behind the sequence number expected next.
behind-IsIgnored :
    (m : GoldenModel) (raw : List ℕ) (rx_cycle expected : ℕ)
    → m.next_expected ≡ some expected
    → (decode_mold_packet raw).sequence < expected
    → IsData (decode_mold_packet raw)
    → IsIgnored m raw rx_cycle
unfolding step_packet
behind-IsIgnored m raw rx_cycle expected expects late holds =
    let packet = decode_mold_packet raw in
    let m₂ = with_session (received m packet) packet in
    let (b, v, s, n, d) = same_parts m packet in
    let known : or_else m₂.next_expected packet.sequence ≡ expected = rw (n, expects) refl in
    let done = again m₂ packet expected in
    record {
      model = done.0;
      result = done.1;
      returns =
          rw (holds.whole, holds.no_beat, holds.going, known)
            (sequenced-behind m₂ packet expected rx_cycle late);
      duplicate = refl;
      counted = ap (λ k. k + 1) d;
      untouched = (b, v, s, sym expects, refl);
    }

-- A number beyond the start of the packet is expected.
abbrev Ahead : MoldPacket → GoldenModel → PacketResult → Type 0
Ahead packet m r = (e : ℕ) × (m.next_expected ≡ some e) × (packet.sequence < e)

sequenced-Ahead :
    (m m' : GoldenModel) (packet : MoldPacket) (expected rx_cycle : ℕ) (r : PacketResult)
    → sequenced m packet expected rx_cycle ≡ some (m', r)
    → IsData packet
    → Ahead packet m' r
unfolding sequenced next_expected
sequenced-Ahead m m' packet expected rx_cycle r h holds =
    let gap = packet.sequence - expected in
    let m₁ = tracked m packet gap (ltb expected packet.sequence) in
    elim (Bool-cases (ltb packet.sequence expected)) [
      | inl late ↦
          let before : packet.sequence < expected = ground arith in
          along_some (Ahead packet) (sym (sequenced-behind m packet expected rx_cycle before) ∙ h)
            (expected, refl, before)
      | inr timely ↦ elim (Option-cases (step_blocks m₁ packet.blocks rx_cycle)) [
        | inl fails ↦ absurd (ground arith)
        | inr (run, runs) ↦
            let f = finish packet gap run in
            let done : ◌≡◌ {A = Option (GoldenModel × PacketResult)} (some (f.0, f.1))
                (some (m', r)) =
              ground arith in
            let ran = step_blocks-Keeps packet.blocks m₁ rx_cycle run runs in
            along_some (Ahead packet) done (
              packet.sequence + packet.count,
              (finish-Keeps packet gap run).expects ∙ ran.expects ∙ (rw (holds.going) refl),
              (let beat = holds.no_beat in ground arith),
            )
      ]
    ]

step_packet-Ahead :
    (m m' : GoldenModel) (raw : List ℕ) (rx_cycle : ℕ) (r : PacketResult)
    → step_packet m raw rx_cycle ≡ some (m', r)
    → IsData (decode_mold_packet raw)
    → Ahead (decode_mold_packet raw) m' r
unfolding step_packet
step_packet-Ahead m m' raw rx_cycle r h holds =
    let packet = decode_mold_packet raw in
    let m₂ = with_session (received m packet) packet in
    sequenced-Ahead m₂ m' packet (or_else m₂.next_expected packet.sequence) rx_cycle r
      (rw (holds.whole, holds.no_beat, holds.going) at h) holds

-- After a packet that holds messages, that packet and each other that holds messages and starts no
-- later, as the second of two redundant lines delivers them, is reported as a duplicate and counted
-- as one. It changes neither the book, the venue, the strategy nor the sequence number expected next,
-- and none of its messages is read, however far it reaches. A packet holds messages if it is neither
-- malformed without any block read, nor a heartbeat, nor the end of the session.
pub duplicate-IsIgnored :
    (m m' : GoldenModel) (first late : List ℕ) (rx_cycle late_cycle : ℕ) (r : PacketResult)
    → step_packet m first rx_cycle ≡ some (m', r)
    → IsData (decode_mold_packet first)
    → IsData (decode_mold_packet late)
    → (decode_mold_packet late).sequence ≤ (decode_mold_packet first).sequence
    → IsIgnored m' late late_cycle
duplicate-IsIgnored m m' first late rx_cycle late_cycle r h holds holds' le =
    let (e, expects, ahead) = step_packet-Ahead m m' first rx_cycle r h holds in
    behind-IsIgnored m' late late_cycle e expects (omega arith) holds'
