-- ===== src/ItchGen/Aligned.antt =====
-- Where `straddle` puts its message.
use fpga_algotrading.Prelude.{
  ℕ, zero, suc, ap, ◌+◌, ◌%◌, ◌<◌, ◌≡◌, refl, ◌∙◌, none, some, List, [], ◌∷◌, ◌++◌, arith, length,
  bind-some, inl, inr, Bool-cases, ltb,
}
use fpga_algotrading.ItchGen.Framing.{
  mold64, udp_datagram, ipv4_packet, eth_udp_frame, frame_defaults,
}
use fpga_algotrading.ItchGen.Generator.{
  FeedGenerator, sent, grow_pad, fillers, filler_need, straddle,
}
use fpga_algotrading.ItchGen.Recovered.{mold64-IsPacket}
use fpga_algotrading.ItchGen.Places.{
  StandsAt, within, cost, last_block, packet-StandsAt, udp_datagram-StandsAt, ipv4_packet-StandsAt,
  eth_frame-StandsAt,
}

-- A packet stands behind 42 bytes of framing.
eth_udp_frame-StandsAt :
    (pkt out : List ℕ) → eth_udp_frame pkt frame_defaults ≡ some out → StandsAt 42 pkt out
unfolding eth_udp_frame
eth_udp_frame-StandsAt pkt out e =
    let o = frame_defaults in
    let (udp, got, e₁) =
      bind-some (udp_datagram pkt o.src_port o.dst_port o.src_ip o.dst_ip o.checksum) _ e in
    let (ip, got_ip, e₂) =
      bind-some (ipv4_packet udp o.src_ip o.dst_ip o.ident o.ttl 17 o.bad_checksum) _ e₁ in
    within
      (within (udp_datagram-StandsAt pkt o.src_port o.dst_port 0 o.src_ip o.dst_ip udp got) (
        ipv4_packet-StandsAt udp o.src_ip o.dst_ip o.ident o.ttl 17 o.bad_checksum ip refl refl
          got_ip))
      (eth_frame-StandsAt ip o.dst_mac o.src_mac o.ethertype o.pad_to_min out refl refl e₂)

-- The fillers bring the message from a multiple of eight to its offset.
cost-fillers : (offset : ℕ) → offset < 8 → cost (fillers (filler_need offset 8) 8) % 8 ≡ offset
unfolding fillers grow_pad
cost-fillers zero small = refl
cost-fillers (suc zero) small = refl
cost-fillers (suc (suc zero)) small = refl
cost-fillers (suc (suc (suc zero))) small = refl
cost-fillers (suc (suc (suc (suc zero)))) small = refl
cost-fillers (suc (suc (suc (suc (suc zero))))) small = refl
cost-fillers (suc (suc (suc (suc (suc (suc zero)))))) small = refl
cost-fillers (suc (suc (suc (suc (suc (suc (suc zero))))))) small = refl
cost-fillers (suc (suc (suc (suc (suc (suc (suc (suc n)))))))) small = absurd (omega (arith, small))

-- On a bus of eight bytes, the message of a frame that `straddle` returns stands in the frame whole,
-- and the number of bytes before it leaves the offset that was asked for as its remainder by eight.
pub straddle-aligned :
    (gen : FeedGenerator) (msg : List ℕ) (offset : ℕ) (r : FeedGenerator × List ℕ)
    → straddle gen msg offset 8 ≡ some r
    → (n : ℕ) × StandsAt n msg r.1 × (n % 8 ≡ offset)
unfolding straddle
straddle-aligned gen msg offset r e = elim (Bool-cases (ltb offset 8)) [
  | inr wide ↦ let e' = rw wide at e in cc
  | inl fits ↦
      let ahead = fillers (filler_need offset 8) 8 in
      let e₁ = rw fits at e in
      let (pkt, got, e₂) =
        bind-some (mold64 gen.seq (ahead ++ msg ∷ []) gen.session none none) _ e₁ in
      let (bytes, got_bytes, e₃) = bind-some (eth_udp_frame pkt frame_defaults) _ e₂ in
      let p = mold64-IsPacket gen.seq (ahead ++ msg ∷ []) gen.session none none pkt got in
      let x =
        within (within (last_block ahead msg p.body p.body_is) (packet-StandsAt p))
          (eth_udp_frame-StandsAt pkt bytes got_bytes) in
      let c = cost-fillers offset (ground arith) in
      let pair : ◌≡◌ {A = FeedGenerator × List ℕ} (sent gen pkt (length ahead + 1), bytes) r = cc in
      let same : bytes ≡ r.1 = ap (λ q. q.1) pair in
      (
        42 + (20 + (cost ahead + 2)),
        record { front = x.front; back = x.back; size = x.size; shape = x.shape ∙ same },
        omega (arith, c),
      )
]
