-- ===== src/Feed/Packets.antt =====
-- Deframing gives back what framing put in, and how much of a packet it reads.
use fpga_algotrading.Prelude.{
  ℕ, suc, ◌+◌, ◌≡◌, ◌≢◌, refl, ap, sym, ◌∙◌, inl, inr, true, false, Option, none, some, List, [],
  ◌∷◌, ◌++◌, map, ltb, ◌<◌, ◌^◌, ◌==◌, arith, length, take, drop, length-append, take-append,
  drop-append, Option-cases, Bool-cases,
}
use mathlib.Core.Path.{ap₂}
use mathlib.Core.List.{append_assoc}
use fpga_algotrading.Feed.Bytes.{
  from_bytes, to_bytes, bytes_of, length-bytes_of, from_bytes-bytes_of,
}
use fpga_algotrading.Feed.Mold.{
  Blocks, read_blocks, raw_block, body_of, appended, mold_packet, decode_mold_packet, rstrip, ascii,
  encode_ascii, all_ascii, expected_blocks, mold_hdr_len,
}

-- Both parts are there, one after the other.
record Parts (x y : Option (List ℕ)) (out : List ℕ) : Type 0 where
  front : List ℕ
  back : List ℕ
  front_is : x ≡ some front
  back_is : y ≡ some back
  joins : out ≡ front ++ back

appended-Parts : (x y : Option (List ℕ)) (out : List ℕ) → appended x y ≡ some out → Parts x y out
appended-Parts none y out h = absurd (ground arith)
appended-Parts (some xs) none out h = absurd (ground arith)
appended-Parts (some xs) (some ys) out h = record {
  front = xs;
  back = ys;
  front_is = refl;
  back_is = refl;
  joins = ground arith;
}

to_bytes_inv :
    (k v : ℕ) (out : List ℕ) → to_bytes k v ≡ some out → (v < 256 ^ k) × (out ≡ bytes_of k v)
unfolding to_bytes
to_bytes_inv k v out h = ground arith

raw_block_inv :
    (payload out : List ℕ)
    → raw_block payload none ≡ some out
    → (length payload < 65536) × (out ≡ bytes_of 2 (length payload) ++ payload)
unfolding raw_block
raw_block_inv payload out h = elim (Option-cases (to_bytes 2 (length payload))) [
  | inl fails ↦ absurd (ground arith)
  | inr (prefix, fits) ↦
      let (small, is) = to_bytes_inv 2 (length payload) prefix fits in
      (omega (arith, small), ground arith)
]

-- One turn of the loop on a well-formed block.
read_one :
    (n size index pos : ℕ) (payload rest : List ℕ)
    → length payload < 65536
    → pos + 2 + length payload + length rest ≡ size
    → read_blocks (suc n) size index pos ((bytes_of 2 (length payload) ++ payload) ++ rest) ≡ (
        let r = read_blocks n size (index + 1) (pos + 2 + length payload) rest in
        record r { blocks = payload ∷ r.blocks })
unfolding read_blocks
read_one n size index pos payload rest small fits =
    let l = length payload in
    let split : (bytes_of 2 l ++ payload) ++ rest ≡ bytes_of 2 l ++ (payload ++ rest) =
      append_assoc (bytes_of 2 l) payload rest in
    let taken : take 2 (bytes_of 2 l ++ (payload ++ rest)) ≡ bytes_of 2 l =
      take-append 2 (bytes_of 2 l) (payload ++ rest) (length-bytes_of 2 l) in
    let dropped : drop 2 (bytes_of 2 l ++ (payload ++ rest)) ≡ payload ++ rest =
      drop-append 2 (bytes_of 2 l) (payload ++ rest) (length-bytes_of 2 l) in
    let value : from_bytes (bytes_of 2 l) ≡ l = from_bytes-bytes_of 2 l (omega arith) in
    let fits₁ : ltb size (pos + 2) ≡ false = ground arith in
    let fits₂ : ltb size (pos + 2 + l) ≡ false = ground arith in
    rw
      (
        split,
        taken,
        dropped,
        value,
        fits₁,
        fits₂,
        take-append l payload rest refl,
        drop-append l payload rest refl,
      )
      refl

abbrev ended : List (List ℕ) → ℕ → Blocks
ended blocks pos = record { blocks = blocks; malformed = none; pos = pos }

read_none :
    (size index pos : ℕ) (left : List ℕ)
    → read_blocks 0 size index pos left ≡ record { blocks = []; malformed = none; pos = pos }
unfolding read_blocks
read_none size index pos left = refl

read_body :
    (messages : List (List ℕ)) (size index pos : ℕ) (body : List ℕ)
    → body_of messages [] ≡ some body
    → pos + length body ≡ size
    → read_blocks (length messages) size index pos body
      ≡ record { blocks = messages; malformed = none; pos = size }
unfolding body_of
read_body [] size index pos body h fits =
    let empty : [] ≡ body = ground arith in
    let at_end : pos ≡ size = omega (arith, fits, ap length empty) in
    read_none size index pos body ∙ ap (ended []) at_end
read_body (payload ∷ messages) size index pos body h fits =
    let p = appended-Parts (raw_block payload none) (body_of messages []) body h in
    let (small, is) = raw_block_inv payload p.front p.front_is in
    let l = length payload in
    let body_is : body ≡ (bytes_of 2 l ++ payload) ++ p.back = p.joins ∙ ap (λ x. x ++ p.back) is in
    let sizes : pos + 2 + l + length p.back ≡ size = omega (
      arith,
      fits,
      ap length body_is,
      length-append (bytes_of 2 l ++ payload) p.back,
      length-append (bytes_of 2 l) payload,
      length-bytes_of 2 l,
    ) in
    let rest = read_body messages size (index + 1) (pos + 2 + l) p.back p.back_is sizes in
    rw (body_is, read_one (length messages) size index pos payload p.back small sizes, rest) refl

-- The parts of a framed packet.
record Framed (messages : List (List ℕ)) (sequence : ℕ) (session raw : List ℕ) : Type 0 where
  ten : length session ≡ 10
  plain : all_ascii session ≡ true
  few : length messages < 65536
  bounded : sequence < 256 ^ 8
  body : List ℕ
  body_is : body_of messages [] ≡ some body
  raw_is : raw ≡ session ++ (bytes_of 8 sequence ++ (bytes_of 2 (length messages) ++ body))

encode_inv : (s out : List ℕ) → encode_ascii s ≡ some out → (all_ascii s ≡ true) × (out ≡ s)
encode_inv s out h = ground arith

mold_packet-Framed :
    (messages : List (List ℕ)) (sequence : ℕ) (session raw : List ℕ)
    → mold_packet messages sequence session none [] ≡ some raw
    → Framed messages sequence session raw
unfolding mold_packet
mold_packet-Framed messages sequence session raw h = elim (Bool-cases (length session == 10)) [
  | inr other ↦ absurd (ground arith)
  | inl ten ↦
      let p =
        appended-Parts (encode_ascii session)
          (appended (to_bytes 8 sequence)
            (appended (to_bytes 2 (length messages)) (body_of messages [])))
          raw (ground arith) in
      let q = appended-Parts (to_bytes 8 sequence) _ p.back p.back_is in
      let r = appended-Parts (to_bytes 2 (length messages)) _ q.back q.back_is in
      let (plain, session_is) = encode_inv session p.front p.front_is in
      let (bounded, sequence_is) = to_bytes_inv 8 sequence q.front q.front_is in
      let (few, count_is) = to_bytes_inv 2 (length messages) r.front r.front_is in
      record {
        ten = ground arith;
        plain = plain;
        few = omega (arith, few);
        bounded = bounded;
        body = r.back;
        body_is = r.back_is;
        raw_is =
            p.joins
            ∙ ap (λ x. x ++ p.back) session_is
            ∙ ap (λ x. session ++ x)
                (q.joins
                  ∙ ap (λ x. x ++ q.back) sequence_is
                  ∙ ap (λ x. bytes_of 8 sequence ++ x) (r.joins ∙ ap (λ x. x ++ r.back) count_is));
      }
]

-- ASCII characters come back as they went in.
ascii_plain : (s : List ℕ) → all_ascii s ≡ true → map ascii s ≡ s
ascii_plain [] h = refl
ascii_plain (b ∷ bs) h = ap₂ (λ x xs. x ∷ xs) (ground arith) (ascii_plain bs (ground arith))

record Header (raw session : List ℕ) (sequence count : ℕ) (body : List ℕ) : Type 0 where
  session_at : take 10 raw ≡ session
  sequence_at : from_bytes (take 8 (drop 10 raw)) ≡ sequence
  count_at : from_bytes (take 2 (drop 18 raw)) ≡ count
  body_at : drop 20 raw ≡ body
  size : length raw ≡ 20 + length body

Framed-Header :
    (messages : List (List ℕ)) (sequence : ℕ) (session raw : List ℕ)
    → (f : Framed messages sequence session raw)
    → Header raw session sequence (length messages) f.body
Framed-Header messages sequence session raw f =
    let s = bytes_of 8 sequence in
    let c = bytes_of 2 (length messages) in
    let eight = length-bytes_of 8 sequence in
    let two = length-bytes_of 2 (length messages) in
    let eighteen : length (session ++ s) ≡ 18 =
      omega (arith, length-append session s, eight, f.ten) in
    let twenty : length ((session ++ s) ++ c) ≡ 20 =
      omega (arith, length-append (session ++ s) c, eighteen, two) in
    let raw₂ : raw ≡ (session ++ s) ++ (c ++ f.body) =
      f.raw_is ∙ sym (append_assoc session s (c ++ f.body)) in
    let raw₃ : raw ≡ ((session ++ s) ++ c) ++ f.body =
      raw₂ ∙ sym (append_assoc (session ++ s) c f.body) in
    record {
      session_at = ap (take 10) f.raw_is ∙ take-append 10 session _ f.ten;
      sequence_at =
          ap (λ x. from_bytes (take 8 (drop 10 x))) f.raw_is
          ∙ ap (λ x. from_bytes (take 8 x)) (drop-append 10 session _ f.ten)
          ∙ ap from_bytes (take-append 8 s _ eight)
          ∙ from_bytes-bytes_of 8 sequence f.bounded;
      count_at =
          ap (λ x. from_bytes (take 2 (drop 18 x))) raw₂
          ∙ ap (λ x. from_bytes (take 2 x)) (drop-append 18 (session ++ s) _ eighteen)
          ∙ ap from_bytes (take-append 2 c _ two)
          ∙ from_bytes-bytes_of 2 (length messages) (omega (arith, f.few));
      body_at = ap (drop 20) raw₃ ∙ drop-append 20 ((session ++ s) ++ c) f.body twenty;
      size =
          ap length raw₃
          ∙ length-append ((session ++ s) ++ c) f.body
          ∙ ap (λ x. x + length f.body) twenty;
    }

expected_few : (n : ℕ) → n ≢ 65535 → expected_blocks n ≡ n
expected_few n h = ground arith

-- A packet that is framed around fewer than 65535 messages decodes to those messages, the sequence
-- number, their count and the session less its trailing blanks, with no fault.
pub decode-mold_packet :
    (messages : List (List ℕ)) (sequence : ℕ) (session raw : List ℕ)
    → length messages ≢ 65535
    → mold_packet messages sequence session none [] ≡ some raw
    → decode_mold_packet raw ≡ record {
      session = rstrip session;
      sequence = sequence;
      count = length messages;
      blocks = messages;
      malformed = none;
    }
unfolding decode_mold_packet
decode-mold_packet messages sequence session raw n h =
    let f = mold_packet-Framed messages sequence session raw h in
    let d = Framed-Header messages sequence session raw f in
    let long : ltb (length raw) mold_hdr_len ≡ false = ground (arith, d.size) in
    let reads = read_body messages (length raw) 0 20 f.body f.body_is (omega (arith, d.size)) in
    rw
      (
        d.session_at,
        d.sequence_at,
        d.count_at,
        d.body_at,
        long,
        expected_few (length messages) n,
        reads,
        ascii_plain session f.plain,
      )
      (ground arith)
