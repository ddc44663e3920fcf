-- ===== src/Capture/Reader.antt =====
-- tools/pcap/itch_parse.py, `ItchReader`: what it keeps, and a record of the capture.
use fpga_algotrading.Prelude.{
  ℕ, ◌+◌, ◌-◌, Bool, true, false, Option, none, some, List, [], ◌∷◌, ◌++◌, ◌&&◌, ◌||◌, not, max,
  ltb, leb, ◌==◌, if◌then◌else◌, length, drop, or_else,
}
use fpga_algotrading.Feed.Bytes.{from_bytes}
use fpga_algotrading.GoldenBook.Apply.{slice}
use fpga_algotrading.Capture.Link.{Code, CaptureRecord, Datagram, extract_udp}

pub record MoldPacket : Type 0 where
  pub session : List ℕ
  pub seq : ℕ
  pub count : ℕ
  pub payload : List ℕ
  pub ts_ns : ℕ
  pub src : List ℕ
  pub dst : List ℕ
  pub src_port : ℕ
  pub dst_port : ℕ

-- `stream_key`
pub record Line : Type 0 where
  pub dst : List ℕ
  pub dst_port : ℕ
  pub session : List ℕ

abbrev pub same_bytes : List ℕ → List ℕ → Bool
same_bytes [] [] = true
same_bytes [] (y ∷ ys) = false
same_bytes (x ∷ xs) [] = false
same_bytes (x ∷ xs) (y ∷ ys) = x == y && same_bytes xs ys

abbrev pub same_line : Line → Line → Bool
same_line a b = same_bytes a.dst b.dst && a.dst_port == b.dst_port && same_bytes a.session b.session

-- A dict by lines, and a write to it.
abbrev pub Lines : Type 0
Lines = Line → Option ℕ

abbrev pub put : Lines → Line → ℕ → Lines
put lines key v = λ k. if same_line k key then some v else lines k

pub record ItchReader : Type 0 where
  pub ports : Option (List ℕ)
  pub groups : Option (List (List ℕ))
  pub merge_ab : Bool
  pub notes : List Code
  pub packets_read : ℕ
  pub packets_filtered : ℕ
  pub packets_mold : ℕ
  pub heartbeats : ℕ
  pub end_of_session : ℕ
  pub bytes_capture : ℕ
  pub bytes_udp : ℕ
  pub first_pkt_ts_ns : Option ℕ
  pub last_pkt_ts_ns : Option ℕ
  pub sessions : List (List ℕ)
  pub seq_state : Lines
  pub seq_seen_max : Lines

-- A filter that is not given, or is empty, lets everything through.
abbrev pub filter_of : {A : Type 0} → Option (List A) → Option (List A)
filter_of none = none
filter_of (some []) = none
filter_of (some (x ∷ xs)) = some (x ∷ xs)

abbrev pub new_reader : Option (List ℕ) → Option (List (List ℕ)) → Bool → ItchReader
new_reader ports groups merge_ab = record {
  ports = filter_of ports;
  groups = filter_of groups;
  merge_ab = merge_ab;
  notes = [];
  packets_read = 0;
  packets_filtered = 0;
  packets_mold = 0;
  heartbeats = 0;
  end_of_session = 0;
  bytes_capture = 0;
  bytes_udp = 0;
  first_pkt_ts_ns = none;
  last_pkt_ts_ns = none;
  sessions = [];
  seq_state = λ k. none;
  seq_seen_max = λ k. none;
}

abbrev pub noted : ItchReader → Code → ItchReader
noted r code = record r { notes = r.notes ++ code ∷ [] }

abbrev pub key_of : ItchReader → MoldPacket → Line
key_of r mp =
    if r.merge_ab
    then record { dst = []; dst_port = 0; session = mp.session }
    else record { dst = mp.dst; dst_port = mp.dst_port; session = mp.session }

-- What a packet of a line that is known is noted as, if anything.
unfoldable pub judged : ℕ → ℕ → ℕ → ℕ → List Code
judged expect last_seen seq n_msgs =
    if seq == expect
    then []
    else if ltb expect seq
    then Code.seq_gap ∷ []
    else if leb (seq + n_msgs - 1) last_seen
    then Code.seq_duplicate ∷ []
    else Code.seq_regression ∷ []

-- `_check_sequence`
unfoldable pub check_sequence : ItchReader → MoldPacket → ℕ → ItchReader
check_sequence r mp n_msgs =
    let key = key_of r mp in
    if n_msgs == 0 then r else elim (r.seq_state key) [
      | none ↦ record r {
        seq_state = put r.seq_state key (mp.seq + n_msgs);
        seq_seen_max = put r.seq_seen_max key (mp.seq + n_msgs - 1);
      }
      | some expect ↦ record r {
        notes = r.notes ++ judged expect (or_else (r.seq_seen_max key) (expect - 1)) mp.seq n_msgs;
        seq_state = put r.seq_state key (max expect (mp.seq + n_msgs));
        seq_seen_max =
            put r.seq_seen_max key (max (or_else (r.seq_seen_max key) 0) (mp.seq + n_msgs - 1));
      }
    ]

abbrev pub mem_byte : ℕ → List ℕ → Bool
mem_byte a [] = false
mem_byte a (x ∷ xs) = a == x || mem_byte a xs

abbrev pub mem_bytes : List ℕ → List (List ℕ) → Bool
mem_bytes a [] = false
mem_bytes a (x ∷ xs) = same_bytes a x || mem_bytes a xs

abbrev pub is_empty {ℓ} : {A : Type ℓ} → List A → Bool
is_empty [] = true
is_empty (x ∷ xs) = false

-- `rstrip(" \x00")`
abbrev pub rstrip_zero : List ℕ → List ℕ
rstrip_zero [] = []
rstrip_zero (b ∷ bs) =
    let rest = rstrip_zero bs in if (b == 32 || b == 0) && is_empty rest then [] else b ∷ rest

-- The port and the group are among those that were asked for.
abbrev pub wanted : ItchReader → Datagram → Bool
wanted r d =
    elim r.ports [ none ↦ true | some ports ↦ mem_byte d.dport ports ]
    && elim r.groups [ none ↦ true | some groups ↦ mem_bytes d.dst groups ]

-- The counters that every record moves, and what `extract_udp` notes.
abbrev pub opened : ItchReader → CaptureRecord → List Code → ItchReader
opened r rec codes = record r {
  packets_read = r.packets_read + 1;
  bytes_capture = r.bytes_capture + length rec.data_;
  first_pkt_ts_ns = some (elim r.first_pkt_ts_ns [
    | none ↦ rec.ts_ns
    | some t ↦ if ltb rec.ts_ns t then rec.ts_ns else t
  ]);
  last_pkt_ts_ns = some (elim r.last_pkt_ts_ns [
    | none ↦ rec.ts_ns
    | some t ↦ if ltb t rec.ts_ns then rec.ts_ns else t
  ]);
  notes = r.notes ++ codes;
}

-- A payload that holds a header.
unfoldable pub with_packet : ItchReader → CaptureRecord → Datagram → ItchReader × Option MoldPacket
with_packet r rec d =
    let session = rstrip_zero (slice d.payload 0 10) in
    let changed = not (is_empty r.sessions) && not (mem_bytes session r.sessions) in
    (
      record r {
        packets_mold = r.packets_mold + 1;
        notes = r.notes ++ (if changed then Code.mold_session_change ∷ [] else []);
        sessions = r.sessions ++ session ∷ [];
      },
      some (record {
        session = session;
        seq = from_bytes (slice d.payload 10 18);
        count = from_bytes (slice d.payload 18 20);
        payload = drop 20 d.payload;
        ts_ns = rec.ts_ns;
        src = d.src;
        dst = d.dst;
        src_port = d.sport;
        dst_port = d.dport;
      }),
    )

unfoldable pub with_datagram :
    ItchReader → CaptureRecord → Datagram → ItchReader × Option MoldPacket
with_datagram r rec d =
    let counted = record r { bytes_udp = r.bytes_udp + length d.payload } in
    if not (wanted r d)
    then (record r { packets_filtered = r.packets_filtered + 1 }, none)
    else if ltb (length d.payload) 20
    then (noted counted Code.mold_short_header, none)
    else with_packet counted rec d

-- `_record_to_mold`
unfoldable pub record_to_mold : ItchReader → CaptureRecord → ItchReader × Option MoldPacket
record_to_mold r rec =
    let got = extract_udp rec in
    let r' = opened r rec got.notes in
    elim got.udp [ none ↦ (r', none) | some d ↦ with_datagram r' rec d ]

-- The loop body of `_iter_capture`, up to the blocks of the packet.
unfoldable pub settle : ItchReader → MoldPacket → ItchReader
settle r mp =
    if mp.count == 0
    then (let beat = noted (record r { heartbeats = r.heartbeats + 1 }) Code.mold_heartbeat in
        if is_empty mp.payload then beat else noted beat Code.mold_trailing_bytes)
    else if mp.count == 65535
    then noted (record r { end_of_session = r.end_of_session + 1 }) Code.mold_end_of_session
    else check_sequence r mp mp.count

unfoldable pub read_record : ItchReader → CaptureRecord → ItchReader
read_record r rec =
    let got = record_to_mold r rec in elim got.1 [ none ↦ got.0 | some mp ↦ settle got.0 mp ]
