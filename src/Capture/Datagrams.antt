-- ===== src/Capture/Datagrams.antt =====
-- An IPv4 packet that the stimulus generator builds, read by the capture reader.
use mathlib.Core.Path.{ap₂}
use fpga_algotrading.Prelude.{
  ℕ, ◌+◌, ◌-◌, ◌≡◌, sym, ap, ◌∙◌, some, Option, List, [], ◌∷◌, ◌++◌, arith, length, take, drop,
  length-append, bind-some, if◌then◌else◌,
}
use fpga_algotrading.Feed.Bytes.{to_bytes, from_bytes}
use fpga_algotrading.ItchGen.Slots.{Packed, to_bytes-Packed}
use fpga_algotrading.ItchGen.Checksum.{one, two}
use fpga_algotrading.ItchGen.Framing.{
  octets, byte, udp_header, ip_checksum, ipv4_header, ipv4_packet, FrameOptions,
}
use fpga_algotrading.Capture.Link.{Extracted, ip_part}
use fpga_algotrading.Capture.Explicit.{
  ip_part_lem, four, octets_lem, seventeen, header_of, explicit,
}

module _ (len id life kind s d csum sp dp ul ck pkt pad : List ℕ) (sport dport : ℕ)
    (total : Packed 2 (28 + length pkt) len) (id_size : length id ≡ 2) (life_size : length life ≡ 1)
    (udp_kind : kind ≡ 17 ∷ []) (s_size : length s ≡ 4) (d_size : length d ≡ 4)
    (csum_size : length csum ≡ 2) (from : Packed 2 sport sp) (to : Packed 2 dport dp)
    (sized : Packed 2 (8 + length pkt) ul) (ck_size : length ck ≡ 2) where
  assembled :
      ip_part (
        (take 10 (header_of len id life kind s d)
          ++ (csum
              ++ (drop 12 (header_of len id life kind s d) ++ ((sp ++ (dp ++ (ul ++ ck))) ++ pkt))))
        ++ pad)
      ≡ record {
        udp = some (record { src = s; dst = d; sport = sport; dport = dport; payload = pkt });
        notes = [];
      }
  assembled =
      let (l₁, l₂, a) = two len total.size in
      let (i₁, i₂, b) = two id id_size in
      let (t, c) = one life life_size in
      let (s₁, s₂, s₃, s₄, f) = four s s_size in
      let (d₁, d₂, d₃, d₄, g) = four d d_size in
      let (c₁, c₂, h) = two csum csum_size in
      let (p₁, p₂, i) = two sp from.size in
      let (q₁, q₂, j) = two dp to.size in
      let (u₁, u₂, k) = two ul sized.size in
      let (v₁, v₂, l) = two ck ck_size in
      ap ip_part (
        explicit len id life kind s d csum sp dp ul ck pkt pad l₁ l₂ i₁ i₂ t c₁ c₂ s₁ s₂ s₃ s₄ d₁ d₂
          d₃ d₄ p₁ p₂ q₁ q₂ u₁ u₂ v₁ v₂ a b c udp_kind f g h i j k l)
      ∙ ip_part_lem l₁ l₂ i₁ i₂ t c₁ c₂ s₁ s₂ s₃ s₄ d₁ d₂ d₃ d₄ p₁ p₂ q₁ q₂ u₁ u₂ v₁ v₂ pkt pad
          sport dport (ap from_bytes (sym a) ∙ total.value) (ap from_bytes (sym i) ∙ from.value)
          (ap from_bytes (sym j) ∙ to.value) (ap from_bytes (sym k) ∙ sized.value)
      ∙ ap₂
          (λ x y. record {
            udp = some (record { src = x; dst = y; sport = sport; dport = dport; payload = pkt });
            notes = [];
          })
          (sym f) (sym g)

abbrev pub read_as : FrameOptions → List ℕ → Extracted
read_as o pkt = record {
  udp = some (record {
    src = o.src_ip;
    dst = o.dst_ip;
    sport = o.src_port;
    dport = o.dst_port;
    payload = pkt;
  });
  notes = [];
}

pub of_some : (a b : List ℕ) → ◌≡◌ {A = Option (List ℕ)} (some a) (some b) → a ≡ b
of_some a b h = cc

total_of :
    (pkt sp dp ul ck head len : List ℕ)
    → length sp ≡ 2
    → length dp ≡ 2
    → length ul ≡ 2
    → length ck ≡ 2
    → sp ++ (dp ++ (ul ++ ck)) ≡ head
    → Packed 2 (20 + length (head ++ pkt)) len
    → Packed 2 (28 + length pkt) len
total_of pkt sp dp ul ck head len a b c d e p = record {
  size = p.size;
  value =
      p.value
      ∙ omega (
        arith,
        length-append head pkt,
        ap length (sym e),
        length-append sp (dp ++ (ul ++ ck)),
        length-append dp (ul ++ ck),
        length-append ul ck,
        a,
        b,
        c,
        d,
      );
}

pub ip_part-ipv4_packet :
    (pkt pad head ip : List ℕ) (o : FrameOptions) (sum : ℕ)
    → length o.src_ip ≡ 4
    → length o.dst_ip ≡ 4
    → udp_header o.src_port o.dst_port (8 + length pkt) sum ≡ some head
    → ipv4_packet (head ++ pkt) o.src_ip o.dst_ip o.ident o.ttl 17 o.bad_checksum ≡ some ip
    → ip_part (ip ++ pad) ≡ read_as o pkt
unfolding ipv4_packet ipv4_header
ip_part-ipv4_packet pkt pad head ip o sum fs fd eu ei =
    let n = length (head ++ pkt) in
    let (sp, got_sp, a₁) = bind-some (to_bytes 2 o.src_port) _ eu in
    let (dp, got_dp, a₂) = bind-some (to_bytes 2 o.dst_port) _ a₁ in
    let (ul, got_ul, a₃) = bind-some (to_bytes 2 (8 + length pkt)) _ a₂ in
    let (ck, got_ck, a₄) = bind-some (to_bytes 2 sum) _ a₃ in
    let (hdr, got_hdr, b₁) =
      bind-some (ipv4_header (20 + n) o.src_ip o.dst_ip o.ident o.ttl 17) _ ei in
    let (csum, got_csum, b₂) =
      bind-some (to_bytes 2 (if o.bad_checksum then 65535 - ip_checksum hdr else ip_checksum hdr)) _
        b₁ in
    let (len, got_len, e₁) = bind-some (to_bytes 2 (20 + n)) _ got_hdr in
    let (id, got_id, e₂) = bind-some (to_bytes 2 o.ident) _ e₁ in
    let (life, got_life, e₃) = bind-some (byte o.ttl) _ e₂ in
    let (kind, got_kind, e₄) = bind-some (byte 17) _ e₃ in
    let (s, got_src, e₅) = bind-some (octets o.src_ip) _ e₄ in
    let (d, got_dst, e₆) = bind-some (octets o.dst_ip) _ e₅ in
    let head_is : sp ++ (dp ++ (ul ++ ck)) ≡ head = of_some _ head a₄ in
    let hdr_is : header_of len id life kind s d ≡ hdr = of_some _ hdr e₆ in
    let ip_is : take 10 hdr ++ (csum ++ (drop 12 hdr ++ (head ++ pkt))) ≡ ip = of_some _ ip b₂ in
    let total : Packed 2 (28 + length pkt) len =
      total_of pkt sp dp ul ck head len (to_bytes-Packed 2 o.src_port sp got_sp).size
        (to_bytes-Packed 2 o.dst_port dp got_dp).size
        (to_bytes-Packed 2 (8 + length pkt) ul got_ul).size (to_bytes-Packed 2 sum ck got_ck).size
        head_is (to_bytes-Packed 2 (20 + n) len got_len) in
    let s_is = octets_lem o.src_ip s got_src in
    let d_is = octets_lem o.dst_ip d got_dst in
    ap (λ l. ip_part (l ++ pad)) (sym ip_is)
    ∙ ap₂ (λ h u. ip_part ((take 10 h ++ (csum ++ (drop 12 h ++ (u ++ pkt)))) ++ pad)) (sym hdr_is)
        (sym head_is)
    ∙ assembled len id life kind s d csum sp dp ul ck pkt pad o.src_port o.dst_port total
        (to_bytes-Packed 2 o.ident id got_id).size (to_bytes-Packed 1 o.ttl life got_life).size
        (seventeen kind got_kind) (ap length (sym s_is) ∙ fs) (ap length (sym d_is) ∙ fd)
        (to_bytes-Packed 2 _ csum got_csum).size (to_bytes-Packed 2 o.src_port sp got_sp)
        (to_bytes-Packed 2 o.dst_port dp got_dp) (to_bytes-Packed 2 (8 + length pkt) ul got_ul)
        (to_bytes-Packed 2 sum ck got_ck).size
    ∙ ap₂
        (λ x y. record {
          udp =
              some (record {
                src = x;
                dst = y;
                sport = o.src_port;
                dport = o.dst_port;
                payload = pkt;
              });
          notes = [];
        })
        (sym s_is) (sym d_is)
