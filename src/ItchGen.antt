-- ===== src/ItchGen.antt =====
-- tb/common/itch_gen.py: the stimulus of the test benches, as bytes. `none` is an error: the
-- `ValueError` of a range, the `struct.error` or the `AssertionError` of `_check_len`.
pub mod Slots
pub mod Heads
pub mod Changes
pub mod Adds
pub mod Status
pub mod Framing
pub mod Carries
pub mod Checksum
pub mod Generator
pub mod Parse
pub mod Recovered
pub mod Places
pub mod Aligned
pub mod Sequenced
pub mod Meaning
mod Tests
use fpga_algotrading.Prelude.{
  ℕ, ◌+◌, ◌-◌, ◌%◌, ◌^◌, Bool, true, false, Option, none, some, List, [], ◌∷◌, ◌++◌, ◌||◌, ltb,
  ◌==◌, if◌then◌else◌, length, replicate, take, ◌>>=◌,
}
use fpga_algotrading.Dict.{Dict, lookup}
use fpga_algotrading.Feed.Bytes.{to_bytes, bytes_of}
use fpga_algotrading.Feed.Mold.{encode_ascii}

-- `MSG_LEN`
abbrev pub msg_len : Dict ℕ
msg_len =
    (b'S', 12)
    ∷ (b'R', 39)
    ∷ (b'H', 25)
    ∷ (b'Y', 20)
    ∷ (b'L', 26)
    ∷ (b'V', 35)
    ∷ (b'W', 12)
    ∷ (b'K', 28)
    ∷ (b'J', 35)
    ∷ (b'h', 21)
    ∷ (b'A', 36)
    ∷ (b'F', 40)
    ∷ (b'E', 31)
    ∷ (b'C', 36)
    ∷ (b'X', 23)
    ∷ (b'D', 19)
    ∷ (b'U', 35)
    ∷ (b'P', 44)
    ∷ (b'Q', 40)
    ∷ (b'B', 19)
    ∷ (b'I', 50)
    ∷ (b'N', 20)
    ∷ []

-- `bs.ljust(n, b" ")`
abbrev pub ljust : ℕ → List ℕ → List ℕ
ljust n bs = bs ++ replicate (n - length bs) 32

unfoldable pub stock : List ℕ → Option (List ℕ)
stock sym = do b ← encode_ascii sym; if ltb 8 (length b) then none else some (ljust 8 b)

-- `_prefix`
unfoldable pub prefix : ℕ → ℕ → ℕ → ℕ → Option (List ℕ)
prefix mtype locate tracking ts_ns =
    if ltb 65535 locate
    then none
    else if ltb ts_ns (2 ^ 48)
    then some (mtype ∷ bytes_of 2 locate ++ (bytes_of 2 (tracking % 65536) ++ bytes_of 6 ts_ns))
    else none

-- `_check_len`
unfoldable pub check_len : List ℕ → Option (List ℕ)
check_len [] = some []
check_len (t ∷ msg) = elim (lookup t msg_len) [
  | none ↦ some (t ∷ msg)
  | some want ↦ if length (t ∷ msg) == want then some (t ∷ msg) else none
]

unfoldable pub system_event : List ℕ → ℕ → ℕ → ℕ → Option (List ℕ)
system_event code ts_ns locate tracking = do
  head ← prefix b'S' locate tracking ts_ns
  check_len (head ++ code)

unfoldable pub trading_action : ℕ → List ℕ → List ℕ → List ℕ → ℕ → ℕ → Option (List ℕ)
trading_action locate sym state reason ts_ns tracking = do
  head ← prefix b'H' locate tracking ts_ns
  name ← stock sym
  check_len (head ++ (name ++ (state ++ (32 ∷ take 4 (ljust 4 reason)))))

unfoldable pub reg_sho : ℕ → List ℕ → List ℕ → ℕ → ℕ → Option (List ℕ)
reg_sho locate sym action ts_ns tracking = do
  head ← prefix b'Y' locate tracking ts_ns
  name ← stock sym
  check_len (head ++ (name ++ action))

-- The body of an add order, from the order reference on.
unfoldable pub add_fields : ℕ → ℕ → ℕ → List ℕ → ℕ → Option (List ℕ)
add_fields order_ref side shares sym price = do
  ref ← to_bytes 8 order_ref
  qty ← to_bytes 4 shares
  name ← stock sym
  px ← to_bytes 4 price
  some (ref ++ (side ∷ qty ++ (name ++ px)))

unfoldable pub add_order : ℕ → ℕ → ℕ → ℕ → List ℕ → ℕ → ℕ → ℕ → Option (List ℕ)
add_order locate order_ref side shares sym price ts_ns tracking =
    if side == b'B' || side == b'S'
    then (do
      head ← prefix b'A' locate tracking ts_ns
      body ← add_fields order_ref side shares sym price
      check_len (head ++ body))
    else none

-- `bs.replace(a, b, 1)` for one byte
abbrev pub replace_first : ℕ → ℕ → List ℕ → List ℕ
replace_first a b [] = []
replace_first a b (x ∷ xs) = let rest = replace_first a b xs in if x == a then b ∷ xs else x ∷ rest

unfoldable pub add_order_mpid : ℕ → ℕ → ℕ → ℕ → List ℕ → ℕ → List ℕ → ℕ → ℕ → Option (List ℕ)
add_order_mpid locate order_ref side shares sym price mpid ts_ns tracking = do
  msg ← add_order locate order_ref side shares sym price ts_ns tracking
  check_len (replace_first b'A' b'F' msg ++ take 4 (ljust 4 mpid))

unfoldable pub order_executed : ℕ → ℕ → ℕ → ℕ → ℕ → ℕ → Option (List ℕ)
order_executed locate order_ref shares match_no ts_ns tracking = do
  head ← prefix b'E' locate tracking ts_ns
  ref ← to_bytes 8 order_ref
  qty ← to_bytes 4 shares
  match ← to_bytes 8 match_no
  check_len (head ++ (ref ++ (qty ++ match)))

unfoldable pub order_executed_with_price : ℕ → ℕ → ℕ → ℕ → List ℕ → ℕ → ℕ → ℕ → Option (List ℕ)
order_executed_with_price locate order_ref shares match_no printable price ts_ns tracking = do
  head ← prefix b'C' locate tracking ts_ns
  ref ← to_bytes 8 order_ref
  qty ← to_bytes 4 shares
  match ← to_bytes 8 match_no
  px ← to_bytes 4 price
  check_len (head ++ (ref ++ (qty ++ (match ++ (printable ++ px)))))

unfoldable pub order_cancel : ℕ → ℕ → ℕ → ℕ → ℕ → Option (List ℕ)
order_cancel locate order_ref shares ts_ns tracking = do
  head ← prefix b'X' locate tracking ts_ns
  ref ← to_bytes 8 order_ref
  qty ← to_bytes 4 shares
  check_len (head ++ (ref ++ qty))

unfoldable pub order_delete : ℕ → ℕ → ℕ → ℕ → Option (List ℕ)
order_delete locate order_ref ts_ns tracking = do
  head ← prefix b'D' locate tracking ts_ns
  ref ← to_bytes 8 order_ref
  check_len (head ++ ref)

unfoldable pub order_replace : ℕ → ℕ → ℕ → ℕ → ℕ → ℕ → ℕ → Option (List ℕ)
order_replace locate orig_ref new_ref shares price ts_ns tracking = do
  head ← prefix b'U' locate tracking ts_ns
  orig ← to_bytes 8 orig_ref
  new ← to_bytes 8 new_ref
  qty ← to_bytes 4 shares
  px ← to_bytes 4 price
  check_len (head ++ (orig ++ (new ++ (qty ++ px))))

unfoldable pub trade_non_cross : ℕ → ℕ → List ℕ → ℕ → List ℕ → ℕ → ℕ → ℕ → ℕ → Option (List ℕ)
trade_non_cross locate order_ref side shares sym price match_no ts_ns tracking = do
  head ← prefix b'P' locate tracking ts_ns
  ref ← to_bytes 8 order_ref
  qty ← to_bytes 4 shares
  name ← stock sym
  px ← to_bytes 4 price
  match ← to_bytes 8 match_no
  check_len (head ++ (ref ++ (side ++ (qty ++ (name ++ (px ++ match))))))

unfoldable pub luld_collar : ℕ → List ℕ → ℕ → ℕ → ℕ → ℕ → ℕ → ℕ → Option (List ℕ)
luld_collar locate sym ref_price upper lower extension ts_ns tracking = do
  head ← prefix b'J' locate tracking ts_ns
  name ← stock sym
  ref ← to_bytes 4 ref_price
  up ← to_bytes 4 upper
  low ← to_bytes 4 lower
  ext ← to_bytes 4 extension
  check_len (head ++ (name ++ (ref ++ (up ++ (low ++ ext)))))

unfoldable pub operational_halt : ℕ → List ℕ → List ℕ → List ℕ → ℕ → ℕ → Option (List ℕ)
operational_halt locate sym market_code action ts_ns tracking = do
  head ← prefix b'h' locate tracking ts_ns
  name ← stock sym
  check_len (head ++ (name ++ (market_code ++ action)))
