-- ===== src/ItchGen/Sequenced.antt =====
-- The sequence numbers of a generated stream.
use mathlib.Core.Path.{subst}
use fpga_algotrading.Prelude.{
  ℕ, ◌+◌, ◌≡◌, refl, sym, none, some, Option, List, [], ◌∷◌, ◌++◌, length, replicate, ◌-◌, ltb,
  length-append, bind-some, inl, inr, Bool-cases,
}
use fpga_algotrading.Prelude.Int.{ℤ, pos, ◌+ℤ◌}
use fpga_algotrading.ItchGen.{ljust}
use fpga_algotrading.ItchGen.Framing.{mold64, FrameOptions, frame_defaults, eth_udp_frame}
use fpga_algotrading.ItchGen.Generator.{
  FeedGenerator, tick, sent, emit, frame, to_length, bad_length, unknown_type, fillers, filler_need,
  straddle, truncated,
}
use fpga_algotrading.ItchGen.Recovered.{mold64-IsPacket, IsHeadOf, IsPacket-IsHeadOf}

-- Packets of one session, the first at a sequence number, each other where the one before it ends,
-- the last one ending at the second number.
pub data IsChain (session : List ℕ) (first : ℕ) : List (List ℕ) → ℕ → Type 0 where
  empty : IsChain session first [] first
  next :
      {packets : List (List ℕ)} {seq : ℕ}
      → IsChain session first packets seq
      → (count : ℕ) (pkt : List ℕ) → IsHeadOf seq count (ljust 10 session) pkt
      → IsChain session first (packets ++ pkt ∷ []) (seq + count)

-- Calls on a generator, from one on; the bytes that each returns stand beside the generator. What
-- skips numbers or repeats a packet (`sequence_gap`, `duplicate`), or gives a packet a count
-- that is not its own (`emit` with a `count_override`), is left out.
pub data Stream (gen : FeedGenerator) : FeedGenerator → Type 0 where
  start : Stream gen gen
  ticked : {g : FeedGenerator} → Stream gen g → Stream gen (tick g).0
  emitted :
      {g : FeedGenerator}
      → Stream gen g
      → (msgs : List (List ℕ)) (lens : Option (List ℕ)) (r : FeedGenerator × List ℕ)
      → emit g msgs none lens ≡ some r
      → Stream gen r.0
  framed :
      {g : FeedGenerator}
      → Stream gen g
      → (msgs : List (List ℕ)) (o : FrameOptions) (r : FeedGenerator × List ℕ)
      → frame g msgs o ≡ some r
      → Stream gen r.0
  misfit :
      {g : FeedGenerator}
      → Stream gen g
      → (msg : List ℕ) (delta : ℤ) (r : FeedGenerator × List ℕ) → bad_length g msg delta ≡ some r
      → Stream gen r.0
  unfamiliar :
      {g : FeedGenerator}
      → Stream gen g
      → (type_code : List ℕ) (size : ℕ) (r : FeedGenerator × List ℕ)
      → unknown_type g type_code size ≡ some r
      → Stream gen r.0
  straddled :
      {g : FeedGenerator}
      → Stream gen g
      → (msg : List ℕ) (offset beat_bytes : ℕ) (r : FeedGenerator × List ℕ)
      → straddle g msg offset beat_bytes ≡ some r
      → Stream gen r.0
  shortened :
      {g : FeedGenerator}
      → Stream gen g
      → (msgs : List (List ℕ)) (cut : ℕ) (r : FeedGenerator × List ℕ)
      → truncated g msgs cut ≡ some r
      → Stream gen r.0

-- What is kept along a stream.
pub record IsSequenced (gen g : FeedGenerator) : Type 0 where
  pub same_session : g.session ≡ gen.session
  pub chain : IsChain gen.session gen.seq g.packets g.seq

-- One more packet, built at the generator's number.
one_more :
    (gen g : FeedGenerator) (msgs : List (List ℕ)) (lens : Option (List ℕ)) (pkt : List ℕ) (n : ℕ)
    → IsSequenced gen g
    → mold64 g.seq msgs g.session none lens ≡ some pkt
    → length msgs ≡ n
    → IsSequenced gen (sent g pkt n)
one_more gen g msgs lens pkt n h e count =
    let head = IsPacket-IsHeadOf (mold64-IsPacket g.seq msgs g.session none lens pkt e) in
    let head' = subst (λ s. IsHeadOf g.seq (length msgs) (ljust 10 s) pkt) h.same_session head in
    record {
      same_session = h.same_session;
      chain =
          next h.chain n pkt (subst (λ k. IsHeadOf g.seq k (ljust 10 gen.session) pkt) count head');
    }

returned :
    (gen : FeedGenerator) (a r : FeedGenerator × List ℕ)
    → ◌≡◌ {A = Option (FeedGenerator × List ℕ)} (some a) (some r)
    → IsSequenced gen a.0
    → IsSequenced gen r.0
returned gen a r e h = let e' : a ≡ r = cc in subst (λ x. IsSequenced gen x.0) e' h

emit-IsSequenced :
    (gen g : FeedGenerator) (msgs : List (List ℕ)) (lens : Option (List ℕ))
    (r : FeedGenerator × List ℕ)
    → IsSequenced gen g
    → emit g msgs none lens ≡ some r
    → IsSequenced gen r.0
unfolding emit
emit-IsSequenced gen g msgs lens r h e =
    let (pkt, got, e₁) = bind-some (mold64 g.seq msgs g.session none lens) _ e in
    returned gen _ r e₁ (one_more gen g msgs lens pkt (length msgs) h got refl)

-- A generator that starts without packets keeps packets that follow each other without a gap, after
-- any calls of `tick`, `emit` (with any lengths, but no count in place of its own), `frame`, `bad_length`,
-- `unknown_type`, `straddle` and `truncated`, in any order. Each packet carries the session of the
-- generator and the sequence number at which the packet before it ended, that is its number and its
-- count, and the generator's number is where the last one ends. `sequence_gap`, `duplicate` and an
-- `emit` with another count are not among the calls.
pub Stream-IsSequenced :
    (gen g : FeedGenerator) → gen.packets ≡ [] → Stream gen g → IsSequenced gen g
unfolding frame bad_length unknown_type straddle truncated
Stream-IsSequenced gen _ none_yet start = record {
  same_session = refl;
  chain = subst (λ l. IsChain gen.session gen.seq l gen.seq) (sym none_yet) empty;
}
Stream-IsSequenced gen _ none_yet (ticked {g} s) =
    let h = Stream-IsSequenced gen g none_yet s in
    record { same_session = h.same_session; chain = h.chain }
Stream-IsSequenced gen _ none_yet (emitted {g} s msgs lens r e) =
    emit-IsSequenced gen g msgs lens r (Stream-IsSequenced gen g none_yet s) e
Stream-IsSequenced gen _ none_yet (framed {g} s msgs o r e) =
    let (a, got, e₁) = bind-some (emit g msgs none none) _ e in
    let (bytes, got_bytes, e₂) = bind-some (eth_udp_frame a.1 o) _ e₁ in
    returned gen _ r e₂
      (emit-IsSequenced gen g msgs none a (Stream-IsSequenced gen g none_yet s) got)
Stream-IsSequenced gen _ none_yet (misfit {g} s msg delta r e) =
    let (n, got_n, e₁) = bind-some (to_length (pos (length msg) +ℤ delta)) _ e in
    let (pkt, got, e₂) = bind-some (mold64 g.seq (msg ∷ []) g.session none (some (n ∷ []))) _ e₁ in
    returned gen _ r e₂ (
      one_more gen g (msg ∷ []) (some (n ∷ [])) pkt 1 (Stream-IsSequenced gen g none_yet s) got
        refl)
Stream-IsSequenced gen _ none_yet (unfamiliar {g} s type_code size r e) =
    let body = type_code ++ replicate (size - 1) 0 in
    let (pkt, got, e₁) = bind-some (mold64 g.seq (body ∷ []) g.session none none) _ e in
    returned gen _ r e₁
      (one_more gen g (body ∷ []) none pkt 1 (Stream-IsSequenced gen g none_yet s) got refl)
Stream-IsSequenced gen _ none_yet (straddled {g} s msg offset beat r e) =
    elim (Bool-cases (ltb offset beat)) [
      | inr wide ↦ let e' = rw wide at e in cc
      | inl fits ↦
          let ahead = fillers (filler_need offset beat) beat in
          let e₁ = rw fits at e in
          let (pkt, got, e₂) =
            bind-some (mold64 g.seq (ahead ++ msg ∷ []) g.session none none) _ e₁ in
          let (bytes, got_bytes, e₃) = bind-some (eth_udp_frame pkt frame_defaults) _ e₂ in
          returned gen _ r e₃ (
            one_more gen g (ahead ++ msg ∷ []) none pkt (length ahead + 1)
              (Stream-IsSequenced gen g none_yet s) got (length-append ahead (msg ∷ [])))
    ]
Stream-IsSequenced gen _ none_yet (shortened {g} s msgs cut r e) =
    let (a, got, e₁) = bind-some (emit g msgs none none) _ e in
    returned gen _ r e₁
      (emit-IsSequenced gen g msgs none a (Stream-IsSequenced gen g none_yet s) got)
