-- ===== src/Capture/Link.antt =====
-- tools/pcap/itch_parse.py, `extract_udp`: from a captured frame to its UDP payload. What is noted
-- stands beside the result, by its code; an address is the list of its bytes.
use fpga_algotrading.Prelude.{
  ℕ, zero, suc, ◌+◌, ◌-◌, ◌*◌, ◌/◌, ◌%◌, Bool, Option, none, some, List, [], ◌∷◌, ◌++◌, ◌||◌, ◌&&◌,
  not, ltb, leb, ◌==◌, if◌then◌else◌, length, take, drop, or_else, get_elem?,
}
use fpga_algotrading.Feed.Bytes.{from_bytes}
use fpga_algotrading.GoldenBook.Apply.{slice}

-- The keys of `ANOMALY_CATALOG` that are noted here and in the reader.
pub data Code : Type 0 where
  linktype_unsupported : Code
  eth_short : Code
  eth_not_ipv4 : Code
  vlan_depth : Code
  ip_short : Code
  ip_bad_ihl : Code
  ip_fragment : Code
  ip_not_udp : Code
  ip_len_mismatch : Code
  udp_short : Code
  udp_len_mismatch : Code
  mold_short_header : Code
  mold_session_change : Code
  mold_heartbeat : Code
  mold_end_of_session : Code
  mold_trailing_bytes : Code
  seq_gap : Code
  seq_duplicate : Code
  seq_regression : Code

pub record CaptureRecord : Type 0 where
  pub data_ : List ℕ
  pub linktype : ℕ
  pub ts_ns : ℕ

pub record Datagram : Type 0 where
  pub src : List ℕ
  pub dst : List ℕ
  pub sport : ℕ
  pub dport : ℕ
  pub payload : List ℕ

-- What `extract_udp` returns and what it notes.
pub record Extracted : Type 0 where
  pub udp : Option Datagram
  pub notes : List Code

-- Where the IPv4 header starts, or why there is none.
pub data Link : Type 0 where
  stop : Code → Link
  at : ℕ → Link

-- `struct.unpack(">H", data[i:i + 2])`
abbrev pub word_at : List ℕ → ℕ → ℕ
word_at bytes i = from_bytes (slice bytes i (i + 2))

abbrev pub byte_at : List ℕ → ℕ → ℕ
byte_at bytes i = or_else (get_elem? bytes i) 0

abbrev pub is_vlan : ℕ → Bool
is_vlan etype = etype == 33024 || etype == 34984 || etype == 37120

abbrev pub dropped : Code → Extracted
dropped code = record { udp = none; notes = code ∷ [] }

-- The loop over the VLAN tags, with so many tags left to unwind.
unfoldable pub unwind : ℕ → List ℕ → ℕ → ℕ → Link
unwind zero bytes etype off =
    if is_vlan etype
    then Link.stop Code.vlan_depth
    else if etype == 2048
    then Link.at off
    else Link.stop Code.eth_not_ipv4
unwind (suc left) bytes etype off =
    let rest = unwind left bytes (word_at bytes (off + 2)) (off + 4) in
    if is_vlan etype
    then (if ltb (length bytes) (off + 4) then Link.stop Code.eth_short else rest)
    else if etype == 2048
    then Link.at off
    else Link.stop Code.eth_not_ipv4

-- A cooked header of so many bytes, with its protocol field at a place.
abbrev pub cooked : List ℕ → ℕ → ℕ → Link
cooked bytes size field =
    if ltb (length bytes) size
    then Link.stop Code.eth_short
    else if word_at bytes field == 2048
    then Link.at size
    else Link.stop Code.eth_not_ipv4

unfoldable pub ip_offset : List ℕ → ℕ → Link
ip_offset bytes linktype =
    if linktype == 1
    then (if ltb (length bytes) 14
        then Link.stop Code.eth_short
        else unwind 3 bytes (word_at bytes 12) 14)
    else if linktype == 113
    then cooked bytes 16 14
    else if linktype == 276
    then cooked bytes 20 0
    else if linktype == 101 || linktype == 228
    then Link.at 0
    else Link.stop Code.linktype_unsupported

-- The datagram, on the bytes from the IPv4 header on, once the header is accepted.
unfoldable pub udp_part : List ℕ → ℕ → Extracted
udp_part ip ihl =
    let total_len = word_at ip 2 in
    let clipped = if ltb (length ip) total_len then Code.ip_len_mismatch ∷ [] else [] in
    let rest = drop (ihl + 8) ip in
    let payload =
      if not (total_len == 0) && leb total_len (length ip)
      then take (total_len - ihl - 8) rest
      else rest in
    let uneven =
      if word_at ip (ihl + 4) - 8 == length payload then [] else Code.udp_len_mismatch ∷ [] in
    if ltb (length ip) (ihl + 8)
    then record { udp = none; notes = clipped ++ Code.udp_short ∷ [] }
    else record {
      udp = some (record {
        src = slice ip 12 16;
        dst = slice ip 16 20;
        sport = word_at ip ihl;
        dport = word_at ip (ihl + 2);
        payload = payload;
      });
      notes = clipped ++ uneven;
    }

unfoldable pub ip_part : List ℕ → Extracted
ip_part ip =
    let ihl = byte_at ip 0 % 16 * 4 in
    let frag = word_at ip 6 in
    if ltb (length ip) 20
    then dropped Code.ip_short
    else if not (byte_at ip 0 / 16 == 4) || ltb ihl 20
    then dropped Code.ip_bad_ihl
    else if frag / 8192 % 2 == 1 || not (frag % 8192 == 0)
    then dropped Code.ip_fragment
    else if byte_at ip 9 == 17
    then udp_part ip ihl
    else dropped Code.ip_not_udp

unfoldable pub extract_udp : CaptureRecord → Extracted
extract_udp rec = elim (ip_offset rec.data_ rec.linktype) [
  | stop code ↦ dropped code
  | at off ↦ ip_part (drop off rec.data_)
]
