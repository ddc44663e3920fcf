-- ===== src/Feed/Extent.antt =====
-- How much of a packet the deframing reads, on any bytes.
use fpga_algotrading.Prelude.{
  ℕ, zero, suc, ◌+◌, ◌-◌, ◌≡◌, refl, inl, inr, false, none, List, [], ◌∷◌, ltb, ◌≤◌, arith, length,
  take, drop, length-take, length-drop, Bool-cases,
}
use fpga_algotrading.Feed.Bytes.{from_bytes}
use fpga_algotrading.Feed.Mold.{
  Blocks, read_blocks, decode_mold_packet, expected_blocks, final_fault, mold_hdr_len,
}

-- The bytes that blocks take with their length prefixes.
pub framed_size : List (List ℕ) → ℕ
framed_size [] = 0
framed_size (block ∷ blocks) = 2 + length block + framed_size blocks

-- The blocks stand between the position before and the one after; without a fault they fill it and
-- none is missing.
record Spans (n size pos : ℕ) (r : Blocks) : Type 0 where
  few : length r.blocks ≤ n
  within : pos + framed_size r.blocks ≤ size
  exact : r.malformed ≡ none → (length r.blocks ≡ n) × (r.pos ≡ pos + framed_size r.blocks)

block_length : (l : ℕ) (left : List ℕ) → 2 + l ≤ length left → length (take l (drop 2 left)) ≡ l
block_length l left h = ground (arith, length-take l (drop 2 left), length-drop 2 left)

rest_length : (l : ℕ) (left : List ℕ) → length (drop l (drop 2 left)) ≡ length left - 2 - l
rest_length l left = omega (arith, length-drop l (drop 2 left), length-drop 2 left)

read_blocks-Spans :
    (n size index pos : ℕ) (left : List ℕ)
    → pos + length left ≡ size
    → Spans n size pos (read_blocks n size index pos left)
unfolding read_blocks framed_size
read_blocks-Spans zero size index pos left h = record {
  few = omega arith;
  within = omega (arith, h);
  exact = λ e. (refl, omega arith);
}
read_blocks-Spans (suc n) size index pos left h =
    let l = from_bytes (take 2 left) in
    elim (Bool-cases (ltb size (pos + 2))) [
      | inl short ↦
          rw (short) (record { few = omega arith; within = omega (arith, h); exact = λ e. cc })
      | inr room ↦ elim (Bool-cases (ltb size (pos + 2 + l))) [
        | inl short ↦
            rw (room, short)
              (record { few = omega arith; within = omega (arith, h); exact = λ e. cc })
        | inr fits ↦
            let long : 2 + l ≤ length left = ground arith in
            let size_is = block_length l left long in
            let rest =
              read_blocks-Spans n size (index + 1) (pos + 2 + l) (drop l (drop 2 left))
                (omega (arith, h, long, rest_length l left)) in
            rw (room, fits)
              (record {
                few = omega (arith, rest.few);
                within = omega (arith, rest.within, size_is);
                exact = λ e.
                    let (all, at) = rest.exact e in
                    (omega (arith, all), omega (arith, at, size_is));
              })
      ]
    ]

expected_le : (n : ℕ) → expected_blocks n ≤ n
expected_le n = ground arith

final_fault_none :
    (size : ℕ) (r : Blocks) → final_fault size r ≡ none → (r.malformed ≡ none) × (r.pos ≡ size)
final_fault_none size r h = ground arith

body_Spans :
    (raw : List ℕ) (n : ℕ)
    → ltb (length raw) mold_hdr_len ≡ false
    → Spans n (length raw) 20 (read_blocks n (length raw) 0 20 (drop 20 raw))
body_Spans raw n long =
    read_blocks-Spans n (length raw) 0 20 (drop 20 raw) (ground (arith, length-drop 20 raw))

-- On any bytes the decoder hands out no more blocks than the packet counts, and no more bytes than
-- the packet holds.
pub decode_fits :
    (raw : List ℕ)
    → (length (decode_mold_packet raw).blocks ≤ (decode_mold_packet raw).count)
      × (framed_size (decode_mold_packet raw).blocks ≤ length raw)
unfolding decode_mold_packet framed_size
decode_fits raw =
    let count = from_bytes (take 2 (drop 18 raw)) in
    elim (Bool-cases (ltb (length raw) mold_hdr_len)) [
      | inl short ↦ rw (short) (omega arith, omega arith)
      | inr long ↦
          let s = body_Spans raw (expected_blocks count) long in
          rw (long) (omega (arith, s.few, expected_le count), omega (arith, s.within))
    ]

-- A packet without a fault is read whole: the header and the framed blocks are all its bytes, and
-- the blocks are as many as the packet counts, none for a heartbeat or an end of session.
pub decode_exact :
    (raw : List ℕ)
    → (decode_mold_packet raw).malformed ≡ none
    → (20 + framed_size (decode_mold_packet raw).blocks ≡ length raw)
      × (length (decode_mold_packet raw).blocks ≡ expected_blocks (decode_mold_packet raw).count)
unfolding decode_mold_packet framed_size
decode_exact raw h =
    let size = length raw in
    let count = from_bytes (take 2 (drop 18 raw)) in
    let r = read_blocks (expected_blocks count) size 0 20 (drop 20 raw) in
    elim (Bool-cases (ltb size mold_hdr_len)) [
      | inl short ↦ absurd (ground arith)
      | inr long ↦
          let s = body_Spans raw (expected_blocks count) long in
          let clean : final_fault size r ≡ none = ground arith in
          let (whole, at_end) = final_fault_none size r clean in
          let (all, at) = s.exact whole in rw (long) (omega (arith, at, at_end), all)
    ]
