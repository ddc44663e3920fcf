-- ===== src/ItchGen/Generator.antt =====
-- tb/common/itch_gen.py, `FeedGenerator`: the stream of packets, good and malformed. Each method
-- returns the generator after it and what it returns; `none` is an error.
use fpga_algotrading.Prelude.{
  ℕ, zero, suc, ◌+◌, ◌-◌, ◌%◌, Option, none, some, List, [], ◌∷◌, ◌++◌, ltb, ◌==◌, if◌then◌else◌,
  length, replicate, take, get_elem?, ◌>>=◌,
}
use fpga_algotrading.Prelude.Int.{ℤ, pos, negsuc, ◌+ℤ◌}
use fpga_algotrading.ItchGen.Framing.{mold64, FrameOptions, frame_defaults, eth_udp_frame}

pub record FeedGenerator : Type 0 where
  pub session : List ℕ
  pub seq : ℕ
  pub ts_ns : ℕ
  pub ts_step_ns : ℕ
  pub packets : List (List ℕ)

abbrev pub tick : FeedGenerator → FeedGenerator × ℕ
tick gen = let ts = gen.ts_ns + gen.ts_step_ns in (record gen { ts_ns = ts }, ts)

-- The sequence number moves on by so many messages, and the packet is kept.
abbrev pub sent : FeedGenerator → List ℕ → ℕ → FeedGenerator
sent gen pkt n = record gen { seq = gen.seq + n; packets = gen.packets ++ pkt ∷ [] }

unfoldable pub emit :
    FeedGenerator → List (List ℕ) → Option ℕ → Option (List ℕ) → Option (FeedGenerator × List ℕ)
emit gen msgs count_override length_override = do
  pkt ← mold64 gen.seq msgs gen.session count_override length_override
  some (sent gen pkt (length msgs), pkt)

unfoldable pub frame :
    FeedGenerator → List (List ℕ) → FrameOptions → Option (FeedGenerator × List ℕ)
frame gen msgs o = do r ← emit gen msgs none none; bytes ← eth_udp_frame r.1 o; some (r.0, bytes)

-- A length that is negative does not fit.
abbrev pub to_length : ℤ → Option ℕ
to_length (pos n) = some n
to_length (negsuc n) = none

unfoldable pub bad_length : FeedGenerator → List ℕ → ℤ → Option (FeedGenerator × List ℕ)
bad_length gen msg delta = do
  n ← to_length (pos (length msg) +ℤ delta)
  pkt ← mold64 gen.seq (msg ∷ []) gen.session none (some (n ∷ []))
  some (sent gen pkt 1, pkt)

-- A length of zero still leaves the type code.
unfoldable pub unknown_type : FeedGenerator → List ℕ → ℕ → Option (FeedGenerator × List ℕ)
unknown_type gen type_code length_ = do
  pkt ← mold64 gen.seq ((type_code ++ replicate (length_ - 1) 0) ∷ []) gen.session none none
  some (sent gen pkt 1, pkt)

unfoldable pub sequence_gap : FeedGenerator → List (List ℕ) → ℕ → Option (FeedGenerator × List ℕ)
sequence_gap gen msgs gap = emit (record gen { seq = gen.seq + gap }) msgs none none

-- A Python index into a list; `none` is the `IndexError`.
abbrev pub get_index : List (List ℕ) → ℤ → Option (List ℕ)
get_index xs (pos i) = get_elem? xs i
get_index xs (negsuc i) = if ltb i (length xs) then get_elem? xs (length xs - suc i) else none

unfoldable pub duplicate : FeedGenerator → ℤ → Option (FeedGenerator × List ℕ)
duplicate gen prev_index = do
  pkt ← get_index gen.packets prev_index
  some (record gen { packets = gen.packets ++ pkt ∷ [] }, pkt)

-- The loop `while pad_len < 1`, on two more than `pad_len`.
unfoldable pub grow_pad : ℕ → ℕ → ℕ → ℕ
grow_pad zero beat_bytes pad = pad
grow_pad (suc fuel) beat_bytes pad =
    let rest = grow_pad fuel beat_bytes (pad + beat_bytes) in if ltb pad 3 then rest else pad

-- The filler that makes up for `need` bytes; three turns of the loop are enough.
unfoldable pub fillers : ℕ → ℕ → List (List ℕ)
fillers need beat_bytes =
    if need == 0 then [] else (b'z' ∷ replicate (grow_pad 3 beat_bytes need - 3) 0) ∷ []

-- `FRAMING + MOLD_HDR_LEN + 2`
abbrev pub base : ℕ
base = 64

-- `(offset - base) % beat_bytes`, the remainder that is not negative.
abbrev pub filler_need : ℕ → ℕ → ℕ
filler_need offset beat_bytes = (offset + (beat_bytes - base % beat_bytes)) % beat_bytes

unfoldable pub straddle : FeedGenerator → List ℕ → ℕ → ℕ → Option (FeedGenerator × List ℕ)
straddle gen msg offset beat_bytes =
    if ltb offset beat_bytes
    then (let ahead = fillers (filler_need offset beat_bytes) beat_bytes in
        do
          pkt ← mold64 gen.seq (ahead ++ msg ∷ []) gen.session none none
          bytes ← eth_udp_frame pkt frame_defaults
          some (sent gen pkt (length ahead + 1), bytes))
    else none

-- `pkt[:-cut]`; cutting nothing leaves nothing, as `-0` is the front.
abbrev pub cut_off : List ℕ → ℕ → List ℕ
cut_off pkt zero = []
cut_off pkt (suc n) = take (length pkt - suc n) pkt

unfoldable pub truncated : FeedGenerator → List (List ℕ) → ℕ → Option (FeedGenerator × List ℕ)
truncated gen msgs cut = do
  r ← emit gen msgs none none
  some (r.0, if ltb cut (length r.1) then cut_off r.1 cut else take 20 r.1)
