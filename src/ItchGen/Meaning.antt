-- ===== src/ItchGen/Meaning.antt =====
-- What the reference book makes of a message that a builder returns.
use fpga_algotrading.Prelude.{ℕ, ◌/◌, true, none, some, Option, List}
use fpga_algotrading.Dict.{insert}
use fpga_algotrading.GoldenBook.State.{GoldenBook, add, remove, reduce, execute}
use fpga_algotrading.GoldenBook.Apply.{is_byte, applied, replace}
use fpga_algotrading.ItchGen.{
  system_event, trading_action, reg_sho, add_order, add_order_mpid, order_executed,
  order_executed_with_price, order_cancel, order_delete, order_replace, trade_non_cross,
  luld_collar, operational_halt,
}
use fpga_algotrading.ItchGen.Adds.{built_order}
use fpga_algotrading.ItchGen.Status.{ignored}

-- A call of a builder, less the locate, the timestamp and the tracking number.
pub data Stimulus : Type 0 where
  event : (code : List ℕ) → Stimulus
  action : (symbol state reason : List ℕ) → Stimulus
  short_sale : (symbol state : List ℕ) → Stimulus
  added : (ref side shares : ℕ) (symbol : List ℕ) (price : ℕ) → Stimulus
  attributed : (ref side shares : ℕ) (symbol : List ℕ) (price : ℕ) (mpid : List ℕ) → Stimulus
  executed : (ref shares match_no : ℕ) → Stimulus
  executed_at : (ref shares match_no : ℕ) (printable : List ℕ) (price : ℕ) → Stimulus
  cancelled : (ref shares : ℕ) → Stimulus
  deleted : (ref : ℕ) → Stimulus
  replaced : (orig ref shares price : ℕ) → Stimulus
  traded : (ref : ℕ) (side : List ℕ) (shares : ℕ) (symbol : List ℕ) (price match_no : ℕ) → Stimulus
  collar : (symbol : List ℕ) (ref_price upper lower extension : ℕ) → Stimulus
  halt : (symbol market_code act : List ℕ) → Stimulus

abbrev pub build : ℕ → ℕ → ℕ → Stimulus → Option (List ℕ)
build locate ts tracking (event code) = system_event code ts locate tracking
build locate ts tracking (action symbol state reason) =
    trading_action locate symbol state reason ts tracking
build locate ts tracking (short_sale symbol state) = reg_sho locate symbol state ts tracking
build locate ts tracking (added ref side shares symbol price) =
    add_order locate ref side shares symbol price ts tracking
build locate ts tracking (attributed ref side shares symbol price mpid) =
    add_order_mpid locate ref side shares symbol price mpid ts tracking
build locate ts tracking (executed ref shares match_no) =
    order_executed locate ref shares match_no ts tracking
build locate ts tracking (executed_at ref shares match_no printable price) =
    order_executed_with_price locate ref shares match_no printable price ts tracking
build locate ts tracking (cancelled ref shares) = order_cancel locate ref shares ts tracking
build locate ts tracking (deleted ref) = order_delete locate ref ts tracking
build locate ts tracking (replaced orig ref shares price) =
    order_replace locate orig ref shares price ts tracking
build locate ts tracking (traded ref side shares symbol price match_no) =
    trade_non_cross locate ref side shares symbol price match_no ts tracking
build locate ts tracking (collar symbol ref_price upper lower extension) =
    luld_collar locate symbol ref_price upper lower extension ts tracking
build locate ts tracking (halt symbol market_code act) =
    operational_halt locate symbol market_code act ts tracking

-- What a message is to do to the book, the counts of messages included. The price of a trade is the
-- one that the book takes; a collar and an operational halt are of types that it ignores.
abbrev pub meaning : GoldenBook → ℕ → Stimulus → GoldenBook
meaning g locate (event code) = applied (record g { session_state = code })
meaning g locate (action symbol state reason) =
    applied (record g { trading_state = insert locate state g.trading_state })
meaning g locate (short_sale symbol state) = applied (record g { ssr = insert locate state g.ssr })
meaning g locate (added ref side shares symbol price) =
    applied (add g (built_order locate ref side shares symbol price))
meaning g locate (attributed ref side shares symbol price mpid) =
    applied (add g (built_order locate ref side shares symbol price))
meaning g locate (executed ref shares match_no) = applied (execute g locate ref shares true none)
meaning g locate (executed_at ref shares match_no printable price) =
    applied (execute g locate ref shares (is_byte printable 0 b'Y') (some price))
meaning g locate (cancelled ref shares) = applied (reduce g locate ref shares)
meaning g locate (deleted ref) = applied (remove g ref)
meaning g locate (replaced orig ref shares price) = applied (replace g orig ref shares price)
meaning g locate (traded ref side shares symbol price match_no) =
    applied (record g { last_px = insert locate (match_no / 4294967296) g.last_px })
meaning g locate (collar symbol ref_price upper lower extension) = ignored g
meaning g locate (halt symbol market_code act) = ignored g
