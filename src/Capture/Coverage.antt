-- ===== src/Capture/Coverage.antt =====
-- What the absence of a reported gap means.
use mathlib.Core.List.{append-nil}
use fpga_algotrading.Prelude.{
  length, ℕ, ◌+◌, ◌≤◌, ◌<◌, ◌≡◌, refl, sym, ap, ◌∙◌, inl, inr, Bool, false, Option, none, some,
  List, [], ◌∷◌, ◌++◌, ◌||◌, not, ltb, ◌==◌, if◌then◌else◌, Bool-cases, Option-cases,
}
use fpga_algotrading.Capture.Link.{Code, CaptureRecord, Datagram, extract_udp}
use fpga_algotrading.Capture.Reader.{
  MoldPacket, Line, ItchReader, new_reader, settle, read_record, record_to_mold, with_datagram,
  with_packet, noted, opened, wanted, is_empty,
}
use fpga_algotrading.Capture.Judged.{
  has_gap, has_gap-append, Span, Covers, first_of, IsCovered, span_of, check_sequence-IsCovered,
}

abbrev pub spans_of : ItchReader × Option MoldPacket → List Span
spans_of (r, none) = []
spans_of (r, some mp) =
    if mp.count == 0 || mp.count == 65535 then [] else span_of r mp mp.count ∷ []

abbrev pub judged_packet : ItchReader → CaptureRecord → List Span
judged_packet r rec = spans_of (record_to_mold r rec)

-- The captures read by a new reader, with the packets that were judged, the last one first.
pub data Capture (r₀ : ItchReader) : List Span → ItchReader → Type 0 where
  opened_at : Capture r₀ [] r₀
  read :
      {h : List Span} {r : ItchReader}
      → Capture r₀ h r
      → (rec : CaptureRecord) → Capture r₀ (judged_packet r rec ++ h) (read_record r rec)

-- What does not touch the lines and only adds notes keeps what is known.
quiet_step :
    (h : List Span) (r r' : ItchReader) (codes : List Code)
    → r'.seq_state ≡ r.seq_state
    → r'.notes ≡ r.notes ++ codes
    → IsCovered h r
    → IsCovered h r'
quiet_step h r r' codes lines notes i = record {
  known = λ k e at quiet.
      i.known k e (ap (λ l. l k) (sym lines) ∙ at)
        (has_gap-append r.notes codes (ap has_gap (sym notes) ∙ quiet)).0;
  fresh = λ k at. i.fresh k (ap (λ l. l k) (sym lines) ∙ at);
}

noted_step :
    (h : List Span) (r : ItchReader) (code : Code) → IsCovered h r → IsCovered h (noted r code)
noted_step h r code i = quiet_step h r (noted r code) (code ∷ []) refl refl i

counted_step :
    (h : List Span) (r r' : ItchReader)
    → r'.seq_state ≡ r.seq_state
    → r'.notes ≡ r.notes
    → IsCovered h r
    → IsCovered h r'
counted_step h r r' lines notes i = quiet_step h r r' [] lines (notes ∙ sym (append-nil r.notes)) i

with_datagram-IsCovered :
    (h : List Span) (r : ItchReader) (rec : CaptureRecord) (d : Datagram)
    → IsCovered h r
    → IsCovered h (with_datagram r rec d).0
unfolding with_datagram with_packet
with_datagram-IsCovered h r rec d i = elim (Bool-cases (not (wanted r d))) [
  | inl other ↦ rw (other, with_datagram) (counted_step h r _ refl refl i)
  | inr ours ↦
      let counted : ItchReader = record r { bytes_udp = r.bytes_udp + length d.payload } in
      let i' : IsCovered h counted = counted_step h r counted refl refl i in
      elim (Bool-cases (ltb (length d.payload) 20)) [
        | inl short ↦
            rw (ours, short, with_datagram) (noted_step h counted Code.mold_short_header i')
        | inr long ↦ rw (ours, long, with_datagram) (quiet_step h counted _ _ refl refl i')
      ]
]

record_to_mold-IsCovered :
    (h : List Span) (r : ItchReader) (rec : CaptureRecord)
    → IsCovered h r
    → IsCovered h (record_to_mold r rec).0
unfolding record_to_mold
record_to_mold-IsCovered h r rec i =
    let got = extract_udp rec in
    let i' : IsCovered h (opened r rec got.notes) =
      quiet_step h r (opened r rec got.notes) got.notes refl refl i in
    elim (Option-cases got.udp) [
      | inl none_there ↦ rw (none_there, record_to_mold) i'
      | inr (d, there) ↦
          rw (there, record_to_mold) (with_datagram-IsCovered h (opened r rec got.notes) rec d i')
    ]

settle-IsCovered :
    (h : List Span) (r : ItchReader) (mp : MoldPacket)
    → IsCovered h r
    → IsCovered
        ((if mp.count == 0 || mp.count == 65535 then [] else span_of r mp mp.count ∷ []) ++ h)
        (settle r mp)
unfolding settle
settle-IsCovered h r mp i = elim (Bool-cases (mp.count == 0)) [
  | inl beat ↦
      let beaten : ItchReader = record r { heartbeats = r.heartbeats + 1 } in
      let i' = noted_step h beaten Code.mold_heartbeat (counted_step h r beaten refl refl i) in
      elim (Bool-cases (is_empty mp.payload)) [
        | inl bare ↦ rw (beat, bare, settle) i'
        | inr more ↦
            rw (beat, more, settle)
              (noted_step h (noted beaten Code.mold_heartbeat) Code.mold_trailing_bytes i')
      ]
  | inr full ↦ elim (Bool-cases (mp.count == 65535)) [
    | inl ended ↦
        let over : ItchReader = record r { end_of_session = r.end_of_session + 1 } in
        rw (full, ended, settle)
          (noted_step h over Code.mold_end_of_session (counted_step h r over refl refl i))
    | inr going ↦ rw (full, going, settle) (check_sequence-IsCovered h r i mp mp.count full)
  ]
]

settled-IsCovered :
    (h : List Span) (got : ItchReader × Option MoldPacket)
    → IsCovered h got.0
    → IsCovered (spans_of got ++ h) (elim got.1 [ none ↦ got.0 | some mp ↦ settle got.0 mp ])
settled-IsCovered h (r, none) i = i
settled-IsCovered h (r, some mp) i = settle-IsCovered h r mp i

Capture-IsCovered :
    (ports : Option (List ℕ)) (groups : Option (List (List ℕ))) {merge_ab : Bool} {h : List Span}
    {r : ItchReader}
    → Capture (new_reader ports groups merge_ab) h r
    → IsCovered h r
unfolding read_record
Capture-IsCovered ports groups opened_at = record {
  known = λ k e at quiet. cc;
  fresh = λ k at. refl;
}
Capture-IsCovered ports groups (read {h} {r} c rec) =
    settled-IsCovered h (record_to_mold r rec)
      (record_to_mold-IsCovered h r rec (Capture-IsCovered ports groups c))

-- Where a capture was read without a gap being noted, nothing is missing: on every line, from the
-- first number of its first packet up to the number that is expected next, each sequence number is
-- held by a packet of that line that was read. Heartbeats and ends of a session count for nothing;
-- duplicates, packets that go back and the packets of other lines in between do no harm.
pub no_gap-Covers :
    (ports : Option (List ℕ)) (groups : Option (List (List ℕ))) (merge_ab : Bool) (h : List Span)
    (r : ItchReader) (k : Line) (e : ℕ)
    → Capture (new_reader ports groups merge_ab) h r
    → has_gap r.notes ≡ false
    → r.seq_state k ≡ some e
    → (f : ℕ) × (first_of h k ≡ some f) × ((s : ℕ) → f ≤ s → s < e → Covers h k s)
no_gap-Covers ports groups merge_ab h r k e c quiet at =
    (Capture-IsCovered ports groups c).known k e at quiet
