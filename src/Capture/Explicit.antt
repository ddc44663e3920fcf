-- ===== src/Capture/Explicit.antt =====
-- An IPv4 packet with its header byte by byte, read by the capture reader.
use fpga_algotrading.Prelude.{
  ℕ, ◌+◌, ◌-◌, ◌≡◌, refl, ap, ◌∙◌, true, false, some, List, [], ◌∷◌, ◌++◌, arith, length, take,
  drop, take-append, length-append, bind-some, inl, inr, Bool-cases, ltb, leb, ◌==◌,
}
use fpga_algotrading.Feed.Bytes.{to_bytes, bytes_of, from_bytes, from_bytes_on}
use fpga_algotrading.ItchGen.Framing.{octets, byte}
use fpga_algotrading.Capture.Link.{ip_part, udp_part}

module _ (l₁ l₂ i₁ i₂ t c₁ c₂ s₁ s₂ s₃ s₄ d₁ d₂ d₃ d₄ p₁ p₂ q₁ q₂ u₁ u₂ v₁ v₂ : ℕ)
    (pkt pad : List ℕ) where
  -- A datagram in an IPv4 packet, byte by byte, and what is padded behind it.
  abbrev pub packet_bytes : List ℕ
  packet_bytes =
      69 ∷ 0 ∷ l₁ ∷ l₂ ∷ i₁ ∷ i₂ ∷ 0 ∷ 0 ∷ t ∷ 17 ∷ c₁ ∷ c₂ ∷ s₁ ∷ s₂ ∷ s₃ ∷ s₄ ∷ d₁ ∷ d₂ ∷ d₃ ∷ d₄
        ∷ p₁ ∷ p₂ ∷ q₁ ∷ q₂ ∷ u₁ ∷ u₂ ∷ v₁ ∷ v₂ ∷ pkt
      ++ pad

  pub ip_part_lem :
      (sport dport : ℕ)
      → from_bytes (l₁ ∷ l₂ ∷ []) ≡ 28 + length pkt
      → from_bytes (p₁ ∷ p₂ ∷ []) ≡ sport
      → from_bytes (q₁ ∷ q₂ ∷ []) ≡ dport
      → from_bytes (u₁ ∷ u₂ ∷ []) ≡ 8 + length pkt
      → ip_part packet_bytes ≡ record {
        udp = some (record {
          src = s₁ ∷ s₂ ∷ s₃ ∷ s₄ ∷ [];
          dst = d₁ ∷ d₂ ∷ d₃ ∷ d₄ ∷ [];
          sport = sport;
          dport = dport;
          payload = pkt;
        });
        notes = [];
      }
  unfolding ip_part udp_part from_bytes_on
  ip_part_lem sport dport total sp dp ulen =
      let n = length pkt in
      let whole : length packet_bytes ≡ 28 + (n + length pad) =
        omega (arith, length-append pkt pad) in
      let long : ltb (length packet_bytes) 20 ≡ false = ground (arith, whole) in
      let long' : ltb (length packet_bytes) 28 ≡ false = ground (arith, whole) in
      let clip : ltb (length packet_bytes) (28 + n) ≡ false = ground (arith, whole) in
      let fits : leb (28 + n) (length packet_bytes) ≡ true = ground (arith, whole) in
      let some_there : (28 + n == 0) ≡ false = ground arith in
      let size : 28 + n - 20 - 8 ≡ n = omega arith in
      let size' : 8 + n - 8 ≡ n = omega arith in
      let same : (n == n) ≡ true = ground arith in
      rw
        (
          long,
          total,
          sp,
          dp,
          ulen,
          long',
          clip,
          fits,
          some_there,
          size,
          take-append n pkt pad refl,
          size',
          same,
        )
        refl

pub four :
    (bs : List ℕ)
    → length bs ≡ 4
    → (a : ℕ) × (b : ℕ) × (c : ℕ) × (d : ℕ) × (bs ≡ a ∷ b ∷ c ∷ d ∷ [])
four [] h = absurd (omega (arith, h))
four (a ∷ []) h = absurd (omega (arith, h))
four (a ∷ b ∷ []) h = absurd (omega (arith, h))
four (a ∷ b ∷ c ∷ []) h = absurd (omega (arith, h))
four (a ∷ b ∷ c ∷ d ∷ []) h = (a, b, c, d, refl)
four (a ∷ b ∷ c ∷ d ∷ e ∷ bs) h = absurd (omega (arith, h))

pub octets_lem : (xs bs : List ℕ) → octets xs ≡ some bs → xs ≡ bs
octets_lem [] bs h = cc
octets_lem (x ∷ xs) bs h = elim (Bool-cases (ltb x 256)) [
  | inr over ↦ let h' = rw over at h in cc
  | inl fits ↦
      let h' = rw fits at h in
      let (rest, got, e) = bind-some (octets xs) _ h' in
      let e' : x ∷ rest ≡ bs = cc in ap (λ l. x ∷ l) (octets_lem xs rest got) ∙ e'
]

pub seventeen : (kind : List ℕ) → byte 17 ≡ some kind → kind ≡ 17 ∷ []
unfolding to_bytes bytes_of
seventeen kind h = cc

-- The header before its checksum, from its parts.
abbrev pub header_of : List ℕ → List ℕ → List ℕ → List ℕ → List ℕ → List ℕ → List ℕ
header_of len id life kind s d =
    69 ∷ 0 ∷ len ++ (id ++ (0 ∷ 0 ∷ life ++ (kind ++ (0 ∷ 0 ∷ s ++ d))))

pub explicit :
    (len id life kind s d csum sp dp ul ck pkt pad : List ℕ)
    (l₁ l₂ i₁ i₂ t c₁ c₂ s₁ s₂ s₃ s₄ d₁ d₂ d₃ d₄ p₁ p₂ q₁ q₂ u₁ u₂ v₁ v₂ : ℕ)
    → len ≡ l₁ ∷ l₂ ∷ []
    → id ≡ i₁ ∷ i₂ ∷ []
    → life ≡ t ∷ []
    → kind ≡ 17 ∷ []
    → s ≡ s₁ ∷ s₂ ∷ s₃ ∷ s₄ ∷ []
    → d ≡ d₁ ∷ d₂ ∷ d₃ ∷ d₄ ∷ []
    → csum ≡ c₁ ∷ c₂ ∷ []
    → sp ≡ p₁ ∷ p₂ ∷ []
    → dp ≡ q₁ ∷ q₂ ∷ []
    → ul ≡ u₁ ∷ u₂ ∷ []
    → ck ≡ v₁ ∷ v₂ ∷ []
    → (take 10 (header_of len id life kind s d)
          ++ (csum
              ++ (drop 12 (header_of len id life kind s d) ++ ((sp ++ (dp ++ (ul ++ ck))) ++ pkt))))
        ++ pad
      ≡ packet_bytes l₁ l₂ i₁ i₂ t c₁ c₂ s₁ s₂ s₃ s₄ d₁ d₂ d₃ d₄ p₁ p₂ q₁ q₂ u₁ u₂ v₁ v₂ pkt pad
explicit len id life kind s d csum sp dp ul ck pkt pad l₁ l₂ i₁ i₂ t c₁ c₂ s₁ s₂ s₃ s₄ d₁ d₂ d₃ d₄
      p₁ p₂ q₁ q₂ u₁ u₂ v₁ v₂ a b c e f g h i j k l =
    rw (a, b, c, e, f, g, h, i, j, k, l) refl
