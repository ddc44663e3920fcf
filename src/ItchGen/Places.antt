-- ===== src/ItchGen/Places.antt =====
-- Where the parts of a built frame stand.
use mathlib.Core.List.{append-nil, append_assoc}
use fpga_algotrading.Prelude.{
  ℕ, ◌+◌, ◌-◌, ◌≡◌, refl, sym, ap, ◌∙◌, true, false, none, some, Option, Bool, List, [], ◌∷◌, ◌++◌,
  arith, length, replicate, take, drop, length-append, take-append, drop-append, bind-some, inl,
  inr, Bool-cases, ltb, if◌then◌else◌,
}
use fpga_algotrading.Feed.Bytes.{to_bytes}
use fpga_algotrading.ItchGen.{ljust}
use fpga_algotrading.ItchGen.Slots.{to_bytes-Packed}
use fpga_algotrading.ItchGen.Framing.{
  blocks, udp_header, udp_datagram, ipv4_header, ipv4_packet, ip_checksum, eth_frame,
}
use fpga_algotrading.ItchGen.Checksum.{IsHeader, ipv4_header-IsHeader}
use fpga_algotrading.ItchGen.Recovered.{IsPacket}

-- The bytes stand in the others, so many bytes from the front.
pub record StandsAt (n : ℕ) (part whole : List ℕ) : Type 0 where
  pub front : List ℕ
  pub back : List ℕ
  pub size : length front ≡ n
  pub shape : front ++ (part ++ back) ≡ whole

-- Places add up.
pub within : {m n : ℕ} {a b c : List ℕ} → StandsAt m a b → StandsAt n b c → StandsAt (n + m) a c
within {m} {n} {a} {b} {c} x y = record {
  front = y.front ++ x.front;
  back = x.back ++ y.back;
  size = length-append y.front x.front ∙ (rw (x.size, y.size) refl);
  shape =
      append_assoc y.front x.front (a ++ (x.back ++ y.back))
      ∙ ap (λ l. y.front ++ l)
          (ap (λ l. x.front ++ l) (sym (append_assoc a x.back y.back))
            ∙ sym (append_assoc x.front (a ++ x.back) y.back)
            ∙ ap (λ l. l ++ y.back) x.shape)
      ∙ y.shape;
}

-- What comes after a header.
after : (head part : List ℕ) (n : ℕ) → length head ≡ n → StandsAt n part (head ++ part)
after head part n h = record {
  front = head;
  back = [];
  size = h;
  shape = ap (λ l. head ++ l) (append-nil part);
}

-- The bytes that blocks take.
abbrev pub cost : List (List ℕ) → ℕ
cost [] = 0
cost (m ∷ ms) = 2 + length m + cost ms

pub last_block :
    (ahead : List (List ℕ)) (msg body : List ℕ)
    → blocks (ahead ++ msg ∷ []) none ≡ some body
    → StandsAt (cost ahead + 2) msg body
unfolding blocks
last_block [] msg body e =
    let (ln, got, e₁) = bind-some (to_bytes 2 (length msg)) _ e in
    let p = to_bytes-Packed 2 (length msg) ln got in
    let whole : (ln ++ msg) ++ [] ≡ body = cc in
    record { front = ln; back = []; size = p.size; shape = sym (append_assoc ln msg []) ∙ whole }
last_block (m ∷ ms) msg body e =
    let (ln, got, e₁) = bind-some (to_bytes 2 (length m)) _ e in
    let (rest, got_rest, e₂) = bind-some (blocks (ms ++ msg ∷ []) none) _ e₁ in
    let p = to_bytes-Packed 2 (length m) ln got in
    let whole : (ln ++ m) ++ rest ≡ body = cc in
    let inner = last_block ms msg rest got_rest in
    let outer = after (ln ++ m) rest (2 + length m) (length-append ln m ∙ (rw p.size refl)) in
    let both = within inner outer in
    record {
      front = both.front;
      back = both.back;
      size = both.size ∙ omega arith;
      shape = both.shape ∙ whole;
    }

pub packet-StandsAt :
    {seq count : ℕ} {session : List ℕ} {msgs : List (List ℕ)} {lens : Option (List ℕ)}
    {pkt : List ℕ} (p : IsPacket seq count session msgs lens pkt)
    → StandsAt 20 p.body pkt
packet-StandsAt {session = session} p =
    let x =
      within
        (within (after p.counted p.body 2 p.counted_is.size)
          (after p.at (p.counted ++ p.body) 8 p.at_is.size))
        (after (ljust 10 session) (p.at ++ (p.counted ++ p.body)) 10 p.ten) in
    record { front = x.front; back = x.back; size = x.size; shape = x.shape ∙ p.shape }

udp_header-size : (a b c d : ℕ) (head : List ℕ) → udp_header a b c d ≡ some head → length head ≡ 8
udp_header-size a b c d head e =
    let (s, got_s, e₁) = bind-some (to_bytes 2 a) _ e in
    let (t, got_t, e₂) = bind-some (to_bytes 2 b) _ e₁ in
    let (l, got_l, e₃) = bind-some (to_bytes 2 c) _ e₂ in
    let (k, got_k, e₄) = bind-some (to_bytes 2 d) _ e₃ in
    let whole : s ++ (t ++ (l ++ k)) ≡ head = cc in
    ap length (sym whole)
    ∙ omega (
      arith,
      length-append s (t ++ (l ++ k)),
      length-append t (l ++ k),
      length-append l k,
      (to_bytes-Packed 2 a s got_s).size,
      (to_bytes-Packed 2 b t got_t).size,
      (to_bytes-Packed 2 c l got_l).size,
      (to_bytes-Packed 2 d k got_k).size,
    )

pub udp_datagram-StandsAt :
    (pkt : List ℕ) (s d checksum : ℕ) (src dst out : List ℕ)
    → udp_datagram pkt s d src dst (some checksum) ≡ some out
    → StandsAt 8 pkt out
unfolding udp_datagram
udp_datagram-StandsAt pkt s d checksum src dst out e =
    let (head, got, e₁) = bind-some (udp_header s d (8 + length pkt) checksum) _ e in
    let whole : head ++ pkt ≡ out = cc in
    let x = after head pkt 8 (udp_header-size s d (8 + length pkt) checksum head got) in
    record { front = x.front; back = x.back; size = x.size; shape = x.shape ∙ whole }

halves : (hdr : List ℕ) → IsHeader hdr → (length (take 10 hdr) ≡ 10) × (length (drop 12 hdr) ≡ 8)
halves hdr h =
    let l = append_assoc h.front (0 ∷ 0 ∷ []) h.back in
    (
      ap (λ x. length (take 10 x)) (sym h.shape)
          ∙ ap length (take-append 10 h.front (0 ∷ 0 ∷ h.back) h.front_size)
          ∙ h.front_size,
      ap (λ x. length (drop 12 x)) (sym h.shape)
          ∙ ap (λ x. length (drop 12 x)) (sym l)
          ∙ ap length (
              drop-append 12 (h.front ++ 0 ∷ 0 ∷ []) h.back
                (omega (arith, length-append h.front (0 ∷ 0 ∷ []), h.front_size)))
          ∙ h.back_size,
    )

pub ipv4_packet-StandsAt :
    (udp src dst : List ℕ) (ident ttl proto : ℕ) (bad : Bool) (out : List ℕ)
    → length src ≡ 4
    → length dst ≡ 4
    → ipv4_packet udp src dst ident ttl proto bad ≡ some out
    → StandsAt 20 udp out
unfolding ipv4_packet
ipv4_packet-StandsAt udp src dst ident ttl proto bad out four four' e =
    let (hdr, got, e₁) = bind-some (ipv4_header (20 + length udp) src dst ident ttl proto) _ e in
    let sum = if bad then 65535 - ip_checksum hdr else ip_checksum hdr in
    let (csum, got_csum, e₂) = bind-some (to_bytes 2 sum) _ e₁ in
    let h = ipv4_header-IsHeader _ src dst ident ttl proto hdr four four' got in
    let whole : take 10 hdr ++ (csum ++ (drop 12 hdr ++ udp)) ≡ out = cc in
    let (ten, eight) = halves hdr h in
    let x =
      within
        (within (after (drop 12 hdr) udp 8 eight)
          (after csum (drop 12 hdr ++ udp) 2 (to_bytes-Packed 2 sum csum got_csum).size))
        (after (take 10 hdr) (csum ++ (drop 12 hdr ++ udp)) 10 ten) in
    record { front = x.front; back = x.back; size = x.size; shape = x.shape ∙ whole }

-- Padding goes behind.
padded_lem :
    (pad : Bool) (n : ℕ) (part frame : List ℕ)
    → StandsAt n part frame
    → StandsAt n part (
        if pad
        then (if ltb (length frame) 60 then frame ++ replicate (60 - length frame) 0 else frame)
        else frame)
padded_lem false n part frame x = x
padded_lem true n part frame x = elim (Bool-cases (ltb (length frame) 60)) [
  | inr full ↦ rw full x
  | inl short ↦ rw short (record {
    front = x.front;
    back = x.back ++ replicate (60 - length frame) 0;
    size = x.size;
    shape =
        ap (λ l. x.front ++ l) (sym (append_assoc part x.back (replicate (60 - length frame) 0)))
        ∙ sym (append_assoc x.front (part ++ x.back) (replicate (60 - length frame) 0))
        ∙ ap (λ l. l ++ replicate (60 - length frame) 0) x.shape;
  })
]

pub eth_frame-StandsAt :
    (ip dst_mac src_mac : List ℕ) (ethertype : ℕ) (pad : Bool) (out : List ℕ)
    → length dst_mac ≡ 6
    → length src_mac ≡ 6
    → eth_frame ip dst_mac src_mac ethertype none pad ≡ some out
    → StandsAt 14 ip out
unfolding eth_frame
eth_frame-StandsAt ip dst_mac src_mac ethertype pad out six six' e =
    let (kind, got, e₁) = bind-some (to_bytes 2 ethertype) _ e in
    let x =
      within
        (within (after kind ip 2 (to_bytes-Packed 2 ethertype kind got).size)
          (after src_mac (kind ++ ip) 6 six'))
        (after dst_mac (src_mac ++ (kind ++ ip)) 6 six) in
    let y = padded_lem pad 14 ip (dst_mac ++ (src_mac ++ (kind ++ ip))) x in
    record { front = y.front; back = y.back; size = y.size; shape = y.shape ∙ cc }
