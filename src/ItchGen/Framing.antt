-- ===== src/ItchGen/Framing.antt =====
-- tb/common/itch_gen.py: MoldUDP64 packets in UDP, IPv4 and Ethernet. An address is the list of the
-- numbers between its dots; `none` is a `ValueError` or a `struct.error`.
use fpga_algotrading.Prelude.{
  ℕ, zero, suc, ◌+◌, ◌-◌, ◌*◌, ◌/◌, ◌%◌, Bool, true, false, Option, none, some, List, [], ◌∷◌, ◌++◌,
  leb, ltb, ◌==◌, if◌then◌else◌, or_else, length, replicate, take, drop, ◌>>=◌,
}
use fpga_algotrading.Feed.Bytes.{to_bytes}
use fpga_algotrading.ItchGen.{ljust}

-- The blocks of a packet; without an override each length is the message's. An override that is
-- too short is an `IndexError`.
unfoldable pub blocks : List (List ℕ) → Option (List ℕ) → Option (List ℕ)
blocks [] lens = some []
blocks (m ∷ ms) none = do
  ln ← to_bytes 2 (length m)
  rest ← blocks ms none
  some ((ln ++ m) ++ rest)
blocks (m ∷ ms) (some []) = none
blocks (m ∷ ms) (some (n ∷ ns)) = do
  ln ← to_bytes 2 n
  rest ← blocks ms (some ns)
  some ((ln ++ m) ++ rest)

unfoldable pub mold64 : ℕ → List (List ℕ) → List ℕ → Option ℕ → Option (List ℕ) → Option (List ℕ)
mold64 seq msgs session count_override length_override =
    if ltb 10 (length session) then none else (do
      body ← blocks msgs length_override
      at ← to_bytes 8 seq
      count ← to_bytes 2 (or_else count_override (length msgs))
      some (ljust 10 session ++ (at ++ (count ++ body))))

unfoldable pub mold64_heartbeat : ℕ → List ℕ → Option (List ℕ)
mold64_heartbeat seq session = mold64 seq [] session (some 0) none

unfoldable pub mold64_end_of_session : ℕ → List ℕ → Option (List ℕ)
mold64_end_of_session seq session = mold64 seq [] session (some 65535) none

-- The sum of the 16-bit words of data of even length.
unfoldable pub word_sum : List ℕ → ℕ
word_sum [] = 0
word_sum (a ∷ []) = 0
word_sum (a ∷ b ∷ rest) = a * 256 + b + word_sum rest

-- The loop `while total >> 16`; each turn makes the total less, so that it is fuel enough.
unfoldable pub fold_carry : ℕ → ℕ → ℕ
fold_carry zero total = total
fold_carry (suc fuel) total = elim (leb 65536 total) [
  | true ↦ fold_carry fuel (total % 65536 + total / 65536)
  | false ↦ total
]

-- `_ip_checksum`
unfoldable pub ip_checksum : List ℕ → ℕ
ip_checksum bytes =
    let even = if length bytes % 2 == 0 then bytes else bytes ++ 0 ∷ [] in
    let total = word_sum even in 65535 - fold_carry total total % 65536

abbrev pub octets : List ℕ → Option (List ℕ)
octets [] = some []
octets (x ∷ xs) = let rest = octets xs in if ltb x 256 then rest >>= (λ bs. some (x ∷ bs)) else none

-- `struct.pack(">HHHH", ...)`
abbrev pub udp_header : ℕ → ℕ → ℕ → ℕ → Option (List ℕ)
udp_header src_port dst_port length_ checksum = do
  s ← to_bytes 2 src_port
  d ← to_bytes 2 dst_port
  l ← to_bytes 2 length_
  c ← to_bytes 2 checksum
  some (s ++ (d ++ (l ++ c)))

-- `checksum` of `none` is computed over the pseudo header.
unfoldable pub udp_datagram : List ℕ → ℕ → ℕ → List ℕ → List ℕ → Option ℕ → Option (List ℕ)
udp_datagram payload src_port dst_port src_ip dst_ip (some checksum) = do
  head ← udp_header src_port dst_port (8 + length payload) checksum
  some (head ++ payload)
udp_datagram payload src_port dst_port src_ip dst_ip none = do
  src ← octets src_ip
  dst ← octets dst_ip
  len ← to_bytes 2 (8 + length payload)
  hdr0 ← udp_header src_port dst_port (8 + length payload) 0
  (let sum = ip_checksum ((src ++ (dst ++ (0 ∷ 17 ∷ len))) ++ (hdr0 ++ payload)) in
      do
        head ← udp_header src_port dst_port (8 + length payload) (if sum == 0 then 65535 else sum)
        some (head ++ payload))

abbrev pub byte : ℕ → Option (List ℕ)
byte v = to_bytes 1 v

-- The header with a checksum of zero.
unfoldable pub ipv4_header : ℕ → List ℕ → List ℕ → ℕ → ℕ → ℕ → Option (List ℕ)
ipv4_header total_len src_ip dst_ip ident ttl proto = do
  len ← to_bytes 2 total_len
  id ← to_bytes 2 ident
  life ← byte ttl
  kind ← byte proto
  src ← octets src_ip
  dst ← octets dst_ip
  some (69 ∷ 0 ∷ len ++ (id ++ (0 ∷ 0 ∷ life ++ (kind ++ (0 ∷ 0 ∷ src ++ dst)))))

unfoldable pub ipv4_packet : List ℕ → List ℕ → List ℕ → ℕ → ℕ → ℕ → Bool → Option (List ℕ)
ipv4_packet payload src_ip dst_ip ident ttl proto bad_checksum = do
  hdr ← ipv4_header (20 + length payload) src_ip dst_ip ident ttl proto
  csum ← to_bytes 2 (if bad_checksum then 65535 - ip_checksum hdr else ip_checksum hdr)
  some (take 10 hdr ++ (csum ++ (drop 12 hdr ++ payload)))

unfoldable pub eth_frame : List ℕ → List ℕ → List ℕ → ℕ → Option ℕ → Bool → Option (List ℕ)
eth_frame payload dst_mac src_mac ethertype vlan pad_to_min = do
  tag ← elim vlan [ none ↦ some [] | some v ↦ to_bytes 2 (v % 4096) >>= (λ t. some (129 ∷ 0 ∷ t)) ]
  kind ← to_bytes 2 ethertype
  (let frame = dst_mac ++ (src_mac ++ (tag ++ (kind ++ payload))) in
      some (
        if pad_to_min
        then (if ltb (length frame) 60 then frame ++ replicate (60 - length frame) 0 else frame)
        else frame))

-- The keyword arguments of `eth_udp_frame`, with their defaults.
pub record FrameOptions : Type 0 where
  pub src_port : ℕ
  pub dst_port : ℕ
  pub src_ip : List ℕ
  pub dst_ip : List ℕ
  pub checksum : Option ℕ
  pub ident : ℕ
  pub ttl : ℕ
  pub bad_checksum : Bool
  pub dst_mac : List ℕ
  pub src_mac : List ℕ
  pub ethertype : ℕ
  pub vlan : Option ℕ
  pub pad_to_min : Bool

abbrev pub frame_defaults : FrameOptions
frame_defaults = record {
  src_port = 26400;
  dst_port = 26477;
  src_ip = 10 ∷ 0 ∷ 0 ∷ 1 ∷ [];
  dst_ip = 233 ∷ 54 ∷ 12 ∷ 111 ∷ [];
  checksum = some 0;
  ident = 0;
  ttl = 8;
  bad_checksum = false;
  dst_mac = 1 ∷ 0 ∷ 94 ∷ 54 ∷ 12 ∷ 111 ∷ [];
  src_mac = 2 ∷ 0 ∷ 0 ∷ 0 ∷ 0 ∷ 1 ∷ [];
  ethertype = 2048;
  vlan = none;
  pad_to_min = true;
}

unfoldable pub eth_udp_frame : List ℕ → FrameOptions → Option (List ℕ)
eth_udp_frame mold_payload o = do
  udp ← udp_datagram mold_payload o.src_port o.dst_port o.src_ip o.dst_ip o.checksum
  ip ← ipv4_packet udp o.src_ip o.dst_ip o.ident o.ttl 17 o.bad_checksum
  eth_frame ip o.dst_mac o.src_mac o.ethertype o.vlan o.pad_to_min
