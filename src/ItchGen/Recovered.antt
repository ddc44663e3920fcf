-- ===== src/ItchGen/Recovered.antt =====
-- A packet that was built is read back.
use mathlib.Core.List.{append_assoc}
use fpga_algotrading.Prelude.{
  ℕ, suc, ◌-◌, ◌≡◌, ◌≢◌, refl, sym, ap, ◌∙◌, false, none, some, List, [], ◌∷◌, ◌++◌, ◌||◌, ltb,
  ◌==◌, arith, length, replicate, or_else, drop, take-append, drop-append, length-append,
  length-replicate, bind-some, inl, inr, Bool-cases, if◌then◌else◌, ◌>>=◌, Option,
}
use fpga_algotrading.Feed.Bytes.{to_bytes, from_bytes}
use fpga_algotrading.GoldenBook.Apply.{slice}
use fpga_algotrading.ItchGen.{ljust}
use fpga_algotrading.ItchGen.Slots.{Packed, to_bytes-Packed, slice_behind, slice_front}
use fpga_algotrading.ItchGen.Framing.{blocks, mold64}
use fpga_algotrading.ItchGen.Parse.{parse_blocks, parse_mold64}

parse_one :
    (n : ℕ) (ln m rest : List ℕ)
    → length ln ≡ 2
    → from_bytes ln ≡ length m
    → parse_blocks (suc n) ((ln ++ m) ++ rest) ≡ (parse_blocks n rest >>= (λ msgs. some (m ∷ msgs)))
unfolding parse_blocks
parse_one n ln m rest two value =
    let flat = append_assoc ln m rest in
    let l = length-append ln (m ++ rest) in
    let l' = length-append m rest in
    let long : ltb (length (ln ++ (m ++ rest))) 2 ≡ false = ground (arith, l, two) in
    let long' : ltb (length (m ++ rest)) (length m) ≡ false = ground (arith, l') in
    rw
      (
        flat,
        long,
        take-append 2 ln (m ++ rest) two,
        drop-append 2 ln (m ++ rest) two,
        value,
        long',
        take-append (length m) m rest refl,
        drop-append (length m) m rest refl,
      )
      refl

parse_blocks-blocks :
    (msgs : List (List ℕ)) (body : List ℕ)
    → blocks msgs none ≡ some body
    → parse_blocks (length msgs) body ≡ some msgs
unfolding blocks parse_blocks
parse_blocks-blocks [] body e = refl
parse_blocks-blocks (m ∷ ms) body e =
    let (ln, got, e₁) = bind-some (to_bytes 2 (length m)) _ e in
    let (rest, got_rest, e₂) = bind-some (blocks ms none) _ e₁ in
    let p = to_bytes-Packed 2 (length m) ln got in
    let whole : (ln ++ m) ++ rest ≡ body = cc in
    ap (parse_blocks (suc (length ms))) (sym whole)
    ∙ parse_one (length ms) ln m rest p.size p.value
    ∙ (rw (parse_blocks-blocks ms rest got_rest) refl)

-- The parts of a built packet.
pub record IsPacket (seq count : ℕ) (session : List ℕ) (msgs : List (List ℕ))
    (lens : Option (List ℕ)) (pkt : List ℕ) : Type 0 where
  pub at : List ℕ
  pub counted : List ℕ
  pub body : List ℕ
  pub at_is : Packed 8 seq at
  pub counted_is : Packed 2 count counted
  pub body_is : blocks msgs lens ≡ some body
  pub ten : length (ljust 10 session) ≡ 10
  pub shape : ljust 10 session ++ (at ++ (counted ++ body)) ≡ pkt

length-ljust : (bs : List ℕ) → ltb 10 (length bs) ≡ false → length (ljust 10 bs) ≡ 10
length-ljust bs h =
    let l = length-append bs (replicate (10 - length bs) 32) in
    let l' = length-replicate {A = ℕ} (10 - length bs) 32 in ground (arith, l, l')

pub mold64-IsPacket :
    (seq : ℕ) (msgs : List (List ℕ)) (session : List ℕ) (count : Option ℕ) (lens : Option (List ℕ))
    (pkt : List ℕ)
    → mold64 seq msgs session count lens ≡ some pkt
    → IsPacket seq (or_else count (length msgs)) session msgs lens pkt
unfolding mold64
mold64-IsPacket seq msgs session count lens pkt e = elim (Bool-cases (ltb 10 (length session))) [
  | inl long ↦ let e' = rw long at e in cc
  | inr fits ↦
      let e₁ = rw fits at e in
      let (body, got_body, e₂) = bind-some (blocks msgs lens) _ e₁ in
      let (at, got_at, e₃) = bind-some (to_bytes 8 seq) _ e₂ in
      let (counted, got_count, e₄) = bind-some (to_bytes 2 (or_else count (length msgs))) _ e₃ in
      record {
        at = at;
        counted = counted;
        body = body;
        at_is = to_bytes-Packed 8 seq at got_at;
        counted_is = to_bytes-Packed 2 (or_else count (length msgs)) counted got_count;
        body_is = got_body;
        ten = length-ljust session fits;
        shape = cc;
      }
]

-- The three fields of the header of a packet.
pub record IsHeadOf (seq count : ℕ) (session pkt : List ℕ) : Type 0 where
  pub session_is : slice pkt 0 10 ≡ session
  pub seq_is : from_bytes (slice pkt 10 18) ≡ seq
  pub count_is : from_bytes (slice pkt 18 20) ≡ count
  pub size : ltb (length pkt) 20 ≡ false

pub IsPacket-IsHeadOf :
    {seq count : ℕ} {session : List ℕ} {msgs : List (List ℕ)} {lens : Option (List ℕ)}
    {pkt : List ℕ}
    → IsPacket seq count session msgs lens pkt
    → IsHeadOf seq count (ljust 10 session) pkt
IsPacket-IsHeadOf {seq} {count} {session} {msgs} {lens} {pkt} p =
    let head = ljust 10 session in
    let l = length-append head (p.at ++ (p.counted ++ p.body)) in
    let l' = length-append p.at (p.counted ++ p.body) in
    let l'' = length-append p.counted p.body in
    rw (← p.shape) (record {
      session_is = slice_front head _ 10 p.ten;
      seq_is =
          ap from_bytes (slice_behind head _ 10 0 8 p.ten ∙ slice_front p.at _ 8 p.at_is.size)
          ∙ p.at_is.value;
      count_is =
          ap from_bytes (
            slice_behind head _ 10 8 10 p.ten
            ∙ slice_behind p.at _ 8 0 2 p.at_is.size
            ∙ slice_front p.counted _ 2 p.counted_is.size)
          ∙ p.counted_is.value;
      size =
          (let s = p.ten in
            let s' = p.at_is.size in
            let s'' = p.counted_is.size in ground (arith, l, l', l'', s, s', s''));
    })

pub drop-IsPacket :
    {seq count : ℕ} {session : List ℕ} {msgs : List (List ℕ)} {lens : Option (List ℕ)}
    {pkt : List ℕ} (p : IsPacket seq count session msgs lens pkt)
    → drop 20 pkt ≡ p.body
drop-IsPacket {session = session} p =
    let head = ljust 10 session in
    let flat : ((head ++ p.at) ++ p.counted) ++ p.body ≡ head ++ (p.at ++ (p.counted ++ p.body)) =
      append_assoc (head ++ p.at) p.counted p.body ∙ append_assoc head p.at (p.counted ++ p.body) in
    let s = p.ten in
    let s' = p.at_is.size in
    let s'' = p.counted_is.size in
    ap (drop 20) (sym p.shape)
    ∙ ap (drop 20) (sym flat)
    ∙ drop-append 20 ((head ++ p.at) ++ p.counted) p.body
        (omega (arith, length-append (head ++ p.at) p.counted, length-append head p.at, s, s', s''))

read_back :
    (msgs : List (List ℕ)) (body : List ℕ)
    → length msgs ≢ 65535
    → blocks msgs none ≡ some body
    → (if length msgs == 0 || length msgs == 65535
        then some []
        else parse_blocks (length msgs) body)
      ≡ some msgs
read_back [] body few e = refl
read_back (m ∷ ms) body few e =
    let n = length (m ∷ ms) in
    let full : (n == 0) ≡ false = ground arith in
    let few' : (n == 65535) ≡ false = ground (arith, few) in
    rw (full, few') (parse_blocks-blocks (m ∷ ms) body e)

-- A packet that `mold64` builds, with neither field overridden, is read back by `parse_mold64`: the
-- session, padded to ten bytes, the sequence number, the count, and every message in its order;
-- 65535 messages are the exception, which read as the end of a session.
pub parse_mold64-mold64 :
    (seq : ℕ) (msgs : List (List ℕ)) (session pkt : List ℕ)
    → length msgs ≢ 65535
    → mold64 seq msgs session none none ≡ some pkt
    → parse_mold64 pkt
      ≡ some (record { session = ljust 10 session; seq = seq; count = length msgs; msgs = msgs })
unfolding parse_mold64
parse_mold64-mold64 seq msgs session pkt few e =
    let p = mold64-IsPacket seq msgs session none none pkt e in
    let h = IsPacket-IsHeadOf p in
    rw
      (
        h.size,
        h.count_is,
        h.session_is,
        h.seq_is,
        drop-IsPacket p,
        read_back msgs p.body few p.body_is,
      )
      refl
