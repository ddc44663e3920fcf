-- ===== src/Capture/Framed.antt =====
-- A frame that the stimulus generator builds, read by the capture reader.
use mathlib.Core.Path.{ap₂}
use mathlib.Core.List.{append-nil, append_assoc}
use fpga_algotrading.Prelude.{
  ℕ, ◌+◌, ◌-◌, ◌%◌, ◌≡◌, refl, sym, ap, ◌∙◌, true, false, Bool, none, some, Option, List, [], ◌∷◌,
  ◌++◌, arith, length, replicate, drop, drop-append, length-append, bind-some, inl, inr, Bool-cases,
  ltb, ◌==◌, if◌then◌else◌, ◌>>=◌,
}
use fpga_algotrading.Feed.Bytes.{to_bytes, bytes_of, from_bytes_on}
use fpga_algotrading.GoldenBook.Apply.{slice}
use fpga_algotrading.ItchGen.Slots.{to_bytes-Packed, slice_behind}
use fpga_algotrading.ItchGen.Checksum.{two}
use fpga_algotrading.ItchGen.Framing.{
  octets, udp_header, udp_datagram, ip_checksum, ipv4_packet, eth_frame, FrameOptions,
  eth_udp_frame,
}
use fpga_algotrading.Capture.Link.{CaptureRecord, Link, unwind, ip_offset, ip_part, extract_udp}
use fpga_algotrading.Capture.Datagrams.{of_some, ip_part-ipv4_packet, read_as}

udp_parts :
    (pkt : List ℕ) (s d : ℕ) (src dst : List ℕ) (checksum : Option ℕ) (out : List ℕ)
    → udp_datagram pkt s d src dst checksum ≡ some out
    → (head : List ℕ) × (sum : ℕ) × (udp_header s d (8 + length pkt) sum ≡ some head)
      × (head ++ pkt ≡ out)
unfolding udp_datagram
udp_parts pkt s d src dst (some checksum) out e =
    let (head, got, e₁) = bind-some (udp_header s d (8 + length pkt) checksum) _ e in
    (head, checksum, got, of_some _ out e₁)
udp_parts pkt s d src dst none out e =
    let (a, got_a, e₁) = bind-some (octets src) _ e in
    let (b, got_b, e₂) = bind-some (octets dst) _ e₁ in
    let (len, got_len, e₃) = bind-some (to_bytes 2 (8 + length pkt)) _ e₂ in
    let (hdr0, got_hdr, e₄) = bind-some (udp_header s d (8 + length pkt) 0) _ e₃ in
    let raw = ip_checksum ((a ++ (b ++ (0 ∷ 17 ∷ len))) ++ (hdr0 ++ pkt)) in
    let sum = if raw == 0 then 65535 else raw in
    let (head, got, e₅) = bind-some (udp_header s d (8 + length pkt) sum) _ e₄ in
    (head, sum, got, of_some _ out e₅)

-- The two addresses, and what stands behind them.
module _ (macs rest : List ℕ) (twelve : length macs ≡ 12) (ts : ℕ) where
  abbrev taken : List ℕ → CaptureRecord
  taken bytes = record { data_ = bytes; linktype = 1; ts_ns = ts }

  extract_plain : extract_udp (taken (macs ++ (8 ∷ 0 ∷ rest))) ≡ ip_part rest
  unfolding extract_udp ip_offset unwind from_bytes_on
  extract_plain =
      let frame = macs ++ (8 ∷ 0 ∷ rest) in
      let l = length-append macs (8 ∷ 0 ∷ rest) in
      let long : ltb (length frame) 14 ≡ false = ground (arith, l, twelve) in
      let kind : slice frame 12 14 ≡ 8 ∷ 0 ∷ [] = slice_behind macs (8 ∷ 0 ∷ rest) 12 0 2 twelve in
      let left : drop 14 frame ≡ rest =
        ap (drop 14) (sym (append_assoc macs (8 ∷ 0 ∷ []) rest))
        ∙ drop-append 14 (macs ++ 8 ∷ 0 ∷ []) rest
            (omega (arith, length-append macs (8 ∷ 0 ∷ []), twelve)) in
      let offset : ip_offset frame 1 ≡ Link.at 14 = rw (long, kind, ip_offset) refl in
      rw (offset, left, extract_udp) refl

  extract_tagged :
      (a b : ℕ) → extract_udp (taken (macs ++ (129 ∷ 0 ∷ a ∷ b ∷ 8 ∷ 0 ∷ rest))) ≡ ip_part rest
  unfolding extract_udp ip_offset unwind from_bytes_on
  extract_tagged a b =
      let tail = 129 ∷ 0 ∷ a ∷ b ∷ 8 ∷ 0 ∷ rest in
      let frame = macs ++ tail in
      let l = length-append macs tail in
      let long : ltb (length frame) 14 ≡ false = ground (arith, l, twelve) in
      let long' : ltb (length frame) 18 ≡ false = ground (arith, l, twelve) in
      let tag : slice frame 12 14 ≡ 129 ∷ 0 ∷ [] = slice_behind macs tail 12 0 2 twelve in
      let kind : slice frame 16 18 ≡ 8 ∷ 0 ∷ [] = slice_behind macs tail 12 4 6 twelve in
      let left : drop 18 frame ≡ rest =
        ap (drop 18) (sym (append_assoc macs (129 ∷ 0 ∷ a ∷ b ∷ 8 ∷ 0 ∷ []) rest))
        ∙ drop-append 18 (macs ++ 129 ∷ 0 ∷ a ∷ b ∷ 8 ∷ 0 ∷ []) rest
            (omega (arith, length-append macs (129 ∷ 0 ∷ a ∷ b ∷ 8 ∷ 0 ∷ []), twelve)) in
      let offset : ip_offset frame 1 ≡ Link.at 18 = rw (long, tag, long', kind, ip_offset) refl in
      rw (offset, left, extract_udp) refl

-- What padding puts behind.
padding_of :
    (pad : Bool) (frame : List ℕ)
    → (behind : List ℕ) × ((if pad
          then (if ltb (length frame) 60 then frame ++ replicate (60 - length frame) 0 else frame)
          else frame)
        ≡ frame ++ behind)
padding_of false frame = ([], sym (append-nil frame))
padding_of true frame = elim (Bool-cases (ltb (length frame) 60)) [
  | inl short ↦ (replicate (60 - length frame) 0, rw short refl)
  | inr full ↦ ([], (rw full (sym (append-nil frame))))
]

-- Regrouping a padded frame.
regroup : (a b c d e : List ℕ) → (a ++ (b ++ (c ++ d))) ++ e ≡ (a ++ b) ++ (c ++ (d ++ e))
regroup a b c d e =
    ap (λ l. l ++ e) (sym (append_assoc a b (c ++ d)))
    ∙ append_assoc (a ++ b) (c ++ d) e
    ∙ ap (λ l. (a ++ b) ++ l) (append_assoc c d e)

ipv4_kind : (kind : List ℕ) → to_bytes 2 2048 ≡ some kind → 8 ∷ 0 ∷ [] ≡ kind
unfolding to_bytes bytes_of
ipv4_kind kind h = cc

extract-eth_frame :
    (ip dst src : List ℕ) (vlan : Option ℕ) (pad : Bool) (frame : List ℕ) (ts : ℕ)
    → length (dst ++ src) ≡ 12
    → eth_frame ip dst src 2048 vlan pad ≡ some frame
    → (behind : List ℕ) × (extract_udp (record { data_ = frame; linktype = 1; ts_ns = ts })
        ≡ ip_part (ip ++ behind))
unfolding eth_frame
extract-eth_frame ip dst src none pad frame ts twelve e =
    let (kind, got, e₁) = bind-some (to_bytes 2 2048) _ e in
    let (behind, padded) = padding_of pad (dst ++ (src ++ (kind ++ ip))) in
    let whole : (dst ++ src) ++ (8 ∷ 0 ∷ (ip ++ behind)) ≡ frame =
      ap (λ k. (dst ++ src) ++ (k ++ (ip ++ behind))) (ipv4_kind kind got)
      ∙ sym (regroup dst src kind ip behind)
      ∙ sym padded
      ∙ of_some _ frame e₁ in
    (
      behind,
      ap (λ l. extract_udp (record { data_ = l; linktype = 1; ts_ns = ts })) (sym whole)
          ∙ extract_plain (dst ++ src) (ip ++ behind) twelve ts,
    )
extract-eth_frame ip dst src (some v) pad frame ts twelve e =
    let (tag, got_tag, e₁) = bind-some (to_bytes 2 (v % 4096) >>= (λ t. some (129 ∷ 0 ∷ t))) _ e in
    let (t, got_t, e₂) = bind-some (to_bytes 2 (v % 4096)) _ got_tag in
    let (kind, got, e₃) = bind-some (to_bytes 2 2048) _ e₁ in
    let (a, b, t_is) = two t (to_bytes-Packed 2 (v % 4096) t got_t).size in
    let tag_is : 129 ∷ 0 ∷ a ∷ b ∷ [] ≡ tag = ap (λ l. 129 ∷ 0 ∷ l) (sym t_is) ∙ of_some _ tag e₂ in
    let (behind, padded) = padding_of pad (dst ++ (src ++ (tag ++ (kind ++ ip)))) in
    let whole : (dst ++ src) ++ (129 ∷ 0 ∷ a ∷ b ∷ 8 ∷ 0 ∷ (ip ++ behind)) ≡ frame =
      ap₂ (λ g k. (dst ++ src) ++ (g ++ (k ++ (ip ++ behind)))) tag_is (ipv4_kind kind got)
      ∙ ap (λ l. (dst ++ src) ++ (tag ++ l)) (sym (append_assoc kind ip behind))
      ∙ sym (regroup dst src tag (kind ++ ip) behind)
      ∙ sym padded
      ∙ of_some _ frame e₃ in
    (
      behind,
      ap (λ l. extract_udp (record { data_ = l; linktype = 1; ts_ns = ts })) (sym whole)
          ∙ extract_tagged (dst ++ src) (ip ++ behind) twelve ts a b,
    )

-- The capture reader gives back the packet that the stimulus generator framed: from a frame of
-- `eth_udp_frame` for IPv4, with or without a VLAN tag and padding, with any checksums, right, wrong or
-- absent, it extracts the packet with the addresses and the ports that the frame was built with, and
-- it notes nothing. The Ethernet addresses have twelve bytes together, the others four each.
pub extract-eth_udp_frame :
    (pkt : List ℕ) (o : FrameOptions) (frame : List ℕ) (ts : ℕ)
    → length o.src_ip ≡ 4
    → length o.dst_ip ≡ 4
    → length (o.dst_mac ++ o.src_mac) ≡ 12
    → o.ethertype ≡ 2048
    → eth_udp_frame pkt o ≡ some frame
    → extract_udp (record { data_ = frame; linktype = 1; ts_ns = ts }) ≡ read_as o pkt
unfolding eth_udp_frame
extract-eth_udp_frame pkt o frame ts four_src four_dst twelve ipv4 e =
    let (udp, got_udp, e₁) =
      bind-some (udp_datagram pkt o.src_port o.dst_port o.src_ip o.dst_ip o.checksum) _ e in
    let (ip, got_ip, e₂) =
      bind-some (ipv4_packet udp o.src_ip o.dst_ip o.ident o.ttl 17 o.bad_checksum) _ e₁ in
    let (head, sum, got_head, udp_is) =
      udp_parts pkt o.src_port o.dst_port o.src_ip o.dst_ip o.checksum udp got_udp in
    let e₃ : eth_frame ip o.dst_mac o.src_mac 2048 o.vlan o.pad_to_min ≡ some frame =
      ap (λ k. eth_frame ip o.dst_mac o.src_mac k o.vlan o.pad_to_min) (sym ipv4) ∙ e₂ in
    let (behind, found) =
      extract-eth_frame ip o.dst_mac o.src_mac o.vlan o.pad_to_min frame ts twelve e₃ in
    let got_ip' : ipv4_packet (head ++ pkt) o.src_ip o.dst_ip o.ident o.ttl 17 o.bad_checksum
        ≡ some ip =
      ap (λ u. ipv4_packet u o.src_ip o.dst_ip o.ident o.ttl 17 o.bad_checksum) udp_is ∙ got_ip in
    found ∙ ip_part-ipv4_packet pkt behind head ip o sum four_src four_dst got_head got_ip'
