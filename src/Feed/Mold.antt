-- ===== src/Feed/Mold.antt =====
-- host/pymodel/itch_decode.py, `MoldPacket` and `decode_mold_packet`, and host/pymodel/itch_encode.py,
-- `raw_block` and `mold_packet`. The bytes from the read position on are a list of their own.
use fpga_algotrading.Prelude.{
  ℕ, zero, suc, ◌+◌, ◌-◌, Bool, true, false, Option, none, some, List, [], ◌∷◌, ◌++◌, map, ◌&&◌,
  ◌||◌, not, ltb, ◌==◌, if◌then◌else◌, length, take, drop, or_else, is_some,
}
use fpga_algotrading.Feed.Bytes.{from_bytes, to_bytes}

abbrev pub mold_hdr_len : ℕ
mold_hdr_len = 20

abbrev pub mold_cnt_heartbeat : ℕ
mold_cnt_heartbeat = 0

abbrev pub mold_cnt_endsess : ℕ
mold_cnt_endsess = 65535

-- The text of `malformed`: one constructor for each format string, with the values it prints.
pub data Fault : Type 0 where
  short_header : ℕ → Fault
  truncated_prefix : ℕ → ℕ → ℕ → Fault
  overrun : ℕ → ℕ → ℕ → Fault
  trailing : ℕ → Fault

-- The empty text of `malformed` is `none`.
pub record MoldPacket : Type 0 where
  pub session : List ℕ
  pub sequence : ℕ
  pub count : ℕ
  pub blocks : List (List ℕ)
  pub malformed : Option Fault

abbrev pub is_heartbeat : MoldPacket → Bool
is_heartbeat p = p.count == mold_cnt_heartbeat

abbrev pub is_end_of_session : MoldPacket → Bool
is_end_of_session p = p.count == mold_cnt_endsess

unfoldable pub next_expected : MoldPacket → ℕ
next_expected p = if is_end_of_session p then p.sequence else p.sequence + p.count

-- `decode("ascii", errors="replace")` of one byte
abbrev pub ascii : ℕ → ℕ
ascii b = if ltb b 128 then b else 65533

abbrev is_nil : List ℕ → Bool
is_nil [] = true
is_nil (_ ∷ _) = false

-- `rstrip(" ")`
abbrev pub rstrip : List ℕ → List ℕ
rstrip [] = []
rstrip (b ∷ bs) = let rest = rstrip bs in if b == 32 && is_nil rest then [] else b ∷ rest

-- What the loop over the blocks leaves: the blocks, the fault if it broke off, and the position.
pub record Blocks : Type 0 where
  pub blocks : List (List ℕ)
  pub malformed : Option Fault
  pub pos : ℕ

abbrev with_block : List ℕ → Blocks → Blocks
with_block block r = record r { blocks = block ∷ r.blocks }

abbrev stop : Fault → ℕ → Blocks
stop fault pos = record { blocks = []; malformed = some fault; pos = pos }

-- The loop for a number of blocks to come: the size of the packet, the index of the block, the
-- position and the bytes from there on.
unfoldable pub read_blocks : ℕ → ℕ → ℕ → ℕ → List ℕ → Blocks
read_blocks zero size index pos left = record { blocks = []; malformed = none; pos = pos }
read_blocks (suc n) size index pos left =
    let block_len = from_bytes (take 2 left) in
    let body = drop 2 left in
    let rest = read_blocks n size (index + 1) (pos + 2 + block_len) (drop block_len body) in
    if ltb size (pos + 2)
    then stop (truncated_prefix index pos size) pos
    else if ltb size (pos + 2 + block_len)
    then stop (overrun index block_len size) (pos + 2)
    else with_block (take block_len body) rest

abbrev pub expected_blocks : ℕ → ℕ
expected_blocks count =
    if count == mold_cnt_heartbeat || count == mold_cnt_endsess then 0 else count

-- The fault of the loop, or of bytes that follow the last block.
abbrev pub final_fault : ℕ → Blocks → Option Fault
final_fault size r =
    if not (is_some r.malformed) && not (r.pos == size)
    then some (trailing (size - r.pos))
    else r.malformed

unfoldable pub decode_mold_packet : List ℕ → MoldPacket
decode_mold_packet raw =
    let size = length raw in
    let count = from_bytes (take 2 (drop 18 raw)) in
    let r = read_blocks (expected_blocks count) size 0 mold_hdr_len (drop mold_hdr_len raw) in
    if ltb size mold_hdr_len
    then record {
      session = [];
      sequence = 0;
      count = 0;
      blocks = [];
      malformed = some (short_header size);
    }
    else record {
      session = rstrip (map ascii (take 10 raw));
      sequence = from_bytes (take 8 (drop 10 raw));
      count = count;
      blocks = r.blocks;
      malformed = final_fault size r;
    }

-- `raw_block`; `none` where the length does not fit two bytes
unfoldable pub raw_block : List ℕ → Option ℕ → Option (List ℕ)
raw_block payload declared_len = elim (to_bytes 2 (or_else declared_len (length payload))) [
  | none ↦ none
  | some prefix ↦ some (prefix ++ payload)
]

abbrev head_len : List (Option ℕ) → Option ℕ
head_len [] = none
head_len (o ∷ os) = o

abbrev tail_lens : List (Option ℕ) → List (Option ℕ)
tail_lens [] = []
tail_lens (o ∷ os) = os

abbrev pub appended : Option (List ℕ) → Option (List ℕ) → Option (List ℕ)
appended none _ = none
appended (some xs) none = none
appended (some xs) (some ys) = some (xs ++ ys)

-- The loop of `mold_packet`; an index past the end of `declared_lens` is no override.
unfoldable pub body_of : List (List ℕ) → List (Option ℕ) → Option (List ℕ)
body_of [] lens = some []
body_of (payload ∷ payloads) lens =
    appended (raw_block payload (head_len lens)) (body_of payloads (tail_lens lens))

abbrev pub all_ascii : List ℕ → Bool
all_ascii [] = true
all_ascii (b ∷ bs) = ltb b 128 && all_ascii bs

-- `session.encode("ascii")`; `none` is the `UnicodeEncodeError`
abbrev pub encode_ascii : List ℕ → Option (List ℕ)
encode_ascii s = if all_ascii s then some s else none

-- `none` is the `ValueError` of the session or the error of an encoding.
unfoldable pub mold_packet :
    List (List ℕ) → ℕ → List ℕ → Option ℕ → List (Option ℕ) → Option (List ℕ)
mold_packet messages sequence session count declared_lens =
    if length session == 10
    then appended (encode_ascii session) (
        appended (to_bytes 8 sequence) (
          appended (to_bytes 2 (or_else count (length messages))) (body_of messages declared_lens)))
    else none
