-- ===== src/ItchGen/Checksum.antt =====
-- The header of a built IPv4 packet checks.
use mathlib.Core.List.{append_assoc}
use fpga_algotrading.Prelude.{
  ℕ, suc, ◌+◌, ◌-◌, ◌%◌, ◌<◌, ◌≡◌, refl, sym, ap, ◌∙◌, Bool, true, false, some, List, [], ◌∷◌, ◌++◌,
  arith, length, take, drop, ltb, ◌==◌, if◌then◌else◌, length-append, take-append, drop-append,
  bind-some, inl, inr, Bool-cases, not, ◌||◌,
}
use fpga_algotrading.Feed.Bytes.{to_bytes, bytes_of}
use fpga_algotrading.ItchGen.Slots.{to_bytes-Packed}
use fpga_algotrading.ItchGen.Framing.{
  word_sum, fold_carry, ip_checksum, octets, byte, ipv4_header, ipv4_packet,
}
use fpga_algotrading.ItchGen.Carries.{sum_to_zero, sum_to_other, sum_to_same, word_sum-append}

pub two : (bs : List ℕ) → length bs ≡ 2 → (a : ℕ) × (b : ℕ) × (bs ≡ a ∷ b ∷ [])
two [] h = absurd (omega (arith, h))
two (a ∷ []) h = absurd (omega (arith, h))
two (a ∷ b ∷ []) h = (a, b, refl)
two (a ∷ b ∷ c ∷ bs) h = absurd (omega (arith, h))

pub one : (bs : List ℕ) → length bs ≡ 1 → (a : ℕ) × (bs ≡ a ∷ [])
one [] h = absurd (omega (arith, h))
one (a ∷ []) h = (a, refl)
one (a ∷ b ∷ bs) h = absurd (omega (arith, h))

-- A header before its checksum is set: ten bytes, two zeros, and the two addresses.
pub record IsHeader (hdr : List ℕ) : Type 0 where
  pub front : List ℕ
  pub back : List ℕ
  pub shape : front ++ (0 ∷ 0 ∷ back) ≡ hdr
  pub front_size : length front ≡ 10
  pub back_size : length back ≡ 8
  pub above_zero : 0 < word_sum front

length-octets : (xs bs : List ℕ) → octets xs ≡ some bs → length bs ≡ length xs
length-octets [] bs h = let e : [] ≡ bs = cc in ap length (sym e)
length-octets (x ∷ xs) bs h = elim (Bool-cases (ltb x 256)) [
  | inr over ↦ let h' = rw over at h in cc
  | inl fits ↦
      let h' = rw fits at h in
      let (rest, got, e) = bind-some (octets xs) _ h' in
      let e' : x ∷ rest ≡ bs = cc in ap length (sym e') ∙ ap suc (length-octets xs rest got)
]

joined :
    (len id life kind s d : List ℕ) (l₁ l₂ i₁ i₂ t k : ℕ)
    → len ≡ l₁ ∷ l₂ ∷ []
    → id ≡ i₁ ∷ i₂ ∷ []
    → life ≡ t ∷ []
    → kind ≡ k ∷ []
    → (69 ∷ 0 ∷ l₁ ∷ l₂ ∷ i₁ ∷ i₂ ∷ 0 ∷ 0 ∷ t ∷ k ∷ []) ++ (0 ∷ 0 ∷ s ++ d)
      ≡ 69 ∷ 0 ∷ len ++ (id ++ (0 ∷ 0 ∷ life ++ (kind ++ (0 ∷ 0 ∷ s ++ d))))
joined len id life kind s d l₁ l₂ i₁ i₂ t k a b c e = rw (a, b, c, e) refl

pub ipv4_header-IsHeader :
    (total_len : ℕ) (src dst : List ℕ) (ident ttl proto : ℕ) (hdr : List ℕ)
    → length src ≡ 4
    → length dst ≡ 4
    → ipv4_header total_len src dst ident ttl proto ≡ some hdr
    → IsHeader hdr
unfolding ipv4_header word_sum
ipv4_header-IsHeader total_len src dst ident ttl proto hdr four four' e =
    let (len, got_len, e₁) = bind-some (to_bytes 2 total_len) _ e in
    let (id, got_id, e₂) = bind-some (to_bytes 2 ident) _ e₁ in
    let (life, got_life, e₃) = bind-some (byte ttl) _ e₂ in
    let (kind, got_kind, e₄) = bind-some (byte proto) _ e₃ in
    let (s, got_src, e₅) = bind-some (octets src) _ e₄ in
    let (d, got_dst, e₆) = bind-some (octets dst) _ e₅ in
    let (l₁, l₂, len_is) = two len (to_bytes-Packed 2 total_len len got_len).size in
    let (i₁, i₂, id_is) = two id (to_bytes-Packed 2 ident id got_id).size in
    let (t, life_is) = one life (to_bytes-Packed 1 ttl life got_life).size in
    let (k, kind_is) = one kind (to_bytes-Packed 1 proto kind got_kind).size in
    let is : 69 ∷ 0 ∷ len ++ (id ++ (0 ∷ 0 ∷ life ++ (kind ++ (0 ∷ 0 ∷ s ++ d)))) ≡ hdr = cc in
    record {
      front = 69 ∷ 0 ∷ l₁ ∷ l₂ ∷ i₁ ∷ i₂ ∷ 0 ∷ 0 ∷ t ∷ k ∷ [];
      back = s ++ d;
      shape = joined len id life kind s d l₁ l₂ i₁ i₂ t k len_is id_is life_is kind_is ∙ is;
      front_size = refl;
      back_size =
          length-append s d
          ∙ omega (arith, length-octets src s got_src, length-octets dst d got_dst, four, four');
      above_zero = omega arith;
    }

-- The checksum over ten bytes, a word and eight bytes.
checksum_of :
    (front mid back : List ℕ)
    → length front ≡ 10
    → length mid ≡ 2
    → length back ≡ 8
    → let sum = word_sum front + (word_sum mid + word_sum back) in
      ip_checksum (front ++ (mid ++ back)) ≡ 65535 - fold_carry sum sum % 65536
unfolding ip_checksum
checksum_of front mid back f m b =
    let even : (length (front ++ (mid ++ back)) % 2 == 0) ≡ true =
      (let l₁ = length-append front (mid ++ back) in
        let l₂ = length-append mid back in ground (arith, l₁, l₂, f, m, b)) in
    let sum : word_sum (front ++ (mid ++ back)) ≡ word_sum front + (word_sum mid + word_sum back) =
      word_sum-append front (mid ++ back) (omega (arith, f))
      ∙ ap (λ n. word_sum front + n) (word_sum-append mid back (omega (arith, m))) in
    rw (even, sum) refl

cut :
    (front mid csum back payload : List ℕ)
    → length front ≡ 10
    → length mid ≡ 2
    → length csum ≡ 2
    → length back ≡ 8
    → take 20 (
        take 10 (front ++ (mid ++ back)) ++ (csum ++ (drop 12 (front ++ (mid ++ back)) ++ payload)))
      ≡ front ++ (csum ++ back)
cut front mid csum back payload f m c b =
    let dropped : drop 12 (front ++ (mid ++ back)) ≡ back =
      ap (drop 12) (sym (append_assoc front mid back))
      ∙ drop-append 12 (front ++ mid) back (omega (arith, length-append front mid, f, m)) in
    rw (take-append 10 front (mid ++ back) f, dropped)
      (ap (take 20) (
          ap (λ l. front ++ l) (sym (append_assoc csum back payload))
          ∙ sym (append_assoc front (csum ++ back) payload))
        ∙ take-append 20 (front ++ (csum ++ back)) payload
            (omega (arith, length-append front (csum ++ back), length-append csum back, f, c, b)))

word_sum-to_bytes : (v : ℕ) (bs : List ℕ) → to_bytes 2 v ≡ some bs → word_sum bs ≡ v
unfolding to_bytes word_sum bytes_of
word_sum-to_bytes v bs h = elim (Bool-cases (ltb v 65536)) [
  | inl fits ↦ let e : bytes_of 2 v ≡ bs = (let h' = rw fits at h in cc) in rw (← e) (ground arith)
  | inr over ↦ let h' = rw over at h in cc
]

-- The checksum over the header that a packet carries, by the word that was put in.
packet_sum :
    (hdr csum payload : List ℕ) (v : ℕ) (h : IsHeader hdr)
    → to_bytes 2 v ≡ some csum
    → let sum = word_sum h.front + word_sum h.back + v in
      ip_checksum (take 20 (take 10 hdr ++ (csum ++ (drop 12 hdr ++ payload))))
      ≡ 65535 - fold_carry sum sum % 65536
packet_sum hdr csum payload v h e =
    let c = (to_bytes-Packed 2 v csum e).size in
    let order : word_sum h.front + (word_sum csum + word_sum h.back)
        ≡ word_sum h.front + word_sum h.back + v =
      omega (arith, word_sum-to_bytes v csum e) in
    rw (← h.shape) (
      ap ip_checksum (cut h.front (0 ∷ 0 ∷ []) csum h.back payload h.front_size refl c h.back_size)
      ∙ checksum_of h.front csum h.back h.front_size c h.back_size
      ∙ ap (λ n. 65535 - fold_carry n n % 65536) order)

header_sum :
    (hdr : List ℕ) (h : IsHeader hdr)
    → let sum = word_sum h.front + word_sum h.back in
      ip_checksum hdr ≡ 65535 - fold_carry sum sum % 65536
unfolding word_sum
header_sum hdr h =
    let zero_word : word_sum h.front + (0 + 0 + 0 + word_sum h.back)
        ≡ word_sum h.front + word_sum h.back =
      omega arith in
    rw (← h.shape) (
      checksum_of h.front (0 ∷ 0 ∷ []) h.back h.front_size refl h.back_size
      ∙ ap (λ n. 65535 - fold_carry n n % 65536) zero_word)

packet-checks :
    (hdr csum payload : List ℕ) (bad : Bool) (h : IsHeader hdr)
    → to_bytes 2 (if bad then 65535 - ip_checksum hdr else ip_checksum hdr) ≡ some csum
    → (ip_checksum (take 20 (take 10 hdr ++ (csum ++ (drop 12 hdr ++ payload)))) == 0)
      ≡ (not bad || ip_checksum hdr == 0)
packet-checks hdr csum payload false h e =
    let sum = word_sum h.front + word_sum h.back in
    let z : ip_checksum (take 20 (take 10 hdr ++ (csum ++ (drop 12 hdr ++ payload)))) ≡ 0 =
      packet_sum hdr csum payload (ip_checksum hdr) h e
      ∙ ap (λ c. 65535 - fold_carry (sum + c) (sum + c) % 65536) (header_sum hdr h)
      ∙ sum_to_zero sum (omega (arith, h.above_zero)) in
    rw z refl
packet-checks hdr csum payload true h e =
    let sum = word_sum h.front + word_sum h.back in
    let hs = header_sum hdr h in
    let ps = packet_sum hdr csum payload (65535 - ip_checksum hdr) h e in
    elim (Bool-cases (ip_checksum hdr == 0)) [
      | inl none_set ↦
          let zero_sum : ip_checksum hdr ≡ 0 = ground arith in
          let z : ip_checksum (take 20 (take 10 hdr ++ (csum ++ (drop 12 hdr ++ payload)))) ≡ 0 =
            ps
            ∙ ap (λ c. 65535 - fold_carry (sum + (65535 - c)) (sum + (65535 - c)) % 65536) zero_sum
            ∙ sum_to_same sum (omega (arith, h.above_zero)) (sym hs ∙ zero_sum) in
          rw (z, none_set) refl
      | inr set ↦
          let p : 0 < 65535 - fold_carry sum sum % 65536 =
            (let q : 0 < ip_checksum hdr = ground arith in omega (arith, q, hs)) in
          let z = sum_to_other sum (omega (arith, h.above_zero)) p in
          let z' : 0 < ip_checksum (take 20 (take 10 hdr ++ (csum ++ (drop 12 hdr ++ payload)))) =
            rw (ps, hs) z in
          rw set (ground arith)
    ]

-- The header of a packet that is built checks: the sum over it, its checksum included, comes out as
-- zero, unless a bad checksum was asked for; and then it does not, except where the right checksum
-- is zero itself, which its complement stands for as well.
pub ipv4_packet-checks :
    (payload src dst : List ℕ) (ident ttl proto : ℕ) (bad : Bool) (hdr pkt : List ℕ)
    → length src ≡ 4
    → length dst ≡ 4
    → ipv4_header (20 + length payload) src dst ident ttl proto ≡ some hdr
    → ipv4_packet payload src dst ident ttl proto bad ≡ some pkt
    → (ip_checksum (take 20 pkt) == 0) ≡ (not bad || ip_checksum hdr == 0)
unfolding ipv4_packet
ipv4_packet-checks payload src dst ident ttl proto bad hdr pkt four four' made e =
    let (hdr', made', e₁) =
      bind-some (ipv4_header (20 + length payload) src dst ident ttl proto) _ e in
    let same : hdr' ≡ hdr = cc in
    let (csum, got, e₂) =
      bind-some (to_bytes 2 (if bad then 65535 - ip_checksum hdr' else ip_checksum hdr')) _ e₁ in
    let h = ipv4_header-IsHeader _ src dst ident ttl proto hdr' four four' made' in
    let whole : take 10 hdr' ++ (csum ++ (drop 12 hdr' ++ payload)) ≡ pkt = cc in
    rw (← whole)
      (packet-checks hdr' csum payload bad h got ∙ ap (λ l. not bad || ip_checksum l == 0) same)
