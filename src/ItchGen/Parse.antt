-- ===== src/ItchGen/Parse.antt =====
-- tb/common/itch_gen.py: reading a packet and a message back. `none` is the `ValueError` or the
-- `struct.error` of a message that is short.
use fpga_algotrading.Prelude.{
  ℕ, zero, suc, Option, none, some, List, [], ◌∷◌, ◌||◌, ltb, ◌==◌, if◌then◌else◌, length, take,
  drop, ◌>>=◌,
}
use fpga_algotrading.Feed.Bytes.{from_bytes}
use fpga_algotrading.GoldenBook.Apply.{slice}

-- The loop over the blocks, on the bytes from the offset on.
unfoldable pub parse_blocks : ℕ → List ℕ → Option (List (List ℕ))
parse_blocks zero left = some []
parse_blocks (suc n) left =
    let ln = from_bytes (take 2 left) in
    let body = drop 2 left in
    let rest = parse_blocks n (drop ln body) in
    if ltb (length left) 2
    then none
    else if ltb (length body) ln
    then none
    else rest >>= (λ msgs. some (take ln body ∷ msgs))

-- What `parse_mold64` returns.
pub record MoldParts : Type 0 where
  pub session : List ℕ
  pub seq : ℕ
  pub count : ℕ
  pub msgs : List (List ℕ)

unfoldable pub parse_mold64 : List ℕ → Option MoldParts
parse_mold64 payload =
    if ltb (length payload) 20
    then none
    else (let count = from_bytes (slice payload 18 20) in
        do
          msgs ←
              (if count == 0 || count == 65535
                then some []
                else parse_blocks count (drop 20 payload))
          some (record {
            session = slice payload 0 10;
            seq = from_bytes (slice payload 10 18);
            count = count;
            msgs = msgs;
          }))
