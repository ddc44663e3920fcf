-- ===== src/GoldenBook/Query.antt =====
-- tb/common/golden_book.py, `top_of_book` and `verify_consistency`: recomputed from scratch.
use fpga_algotrading.Prelude.{
  ℕ, ◌+◌, Bool, true, false, Option, none, some, [], ◌∷◌, ◌&&◌, leb, ◌==◌, or_else, is_some,
}
use fpga_algotrading.Dict.{Dict, lookup, insert, drop_where, highest, lowest}
use fpga_algotrading.Contract.{Side}
use fpga_algotrading.GoldenBook.State.{Order, Sides, GoldenBook, side_of, with_side, sides_at}

pub record TopOfBook : Type 0 where
  pub locate : ℕ
  pub bid_px : ℕ
  pub bid_qty : ℕ
  pub ask_px : ℕ
  pub ask_qty : ℕ
  pub last_px : ℕ
  pub bid_valid : Bool
  pub ask_valid : Bool
  pub crossed : Bool
  pub stale : Bool

-- `{p: q for p, q in side.items() if q > 0}`
abbrev pub positive : Dict ℕ → Dict ℕ
positive levels = drop_where (λ q. q == 0) levels

-- The best price of a side with its shares; `none` where the side is empty.
unfoldable pub best_of : Side → Dict ℕ → Option (ℕ × ℕ)
best_of side [] = none
best_of Side.buy (e ∷ d) = let px = highest e.0 d in some (px, or_else (lookup px (e ∷ d)) 0)
best_of Side.sell (e ∷ d) = let px = lowest e.0 d in some (px, or_else (lookup px (e ∷ d)) 0)

unfoldable pub top_of_book : GoldenBook → ℕ → TopOfBook
top_of_book g locate =
    let sides = sides_at g.levels locate in
    let bid = best_of Side.buy (positive sides.bids) in
    let ask = best_of Side.sell (positive sides.asks) in
    let (bid_px, bid_qty) = or_else bid (0, 0) in
    let (ask_px, ask_qty) = or_else ask (0, 0) in
    record {
      locate = locate;
      bid_px = bid_px;
      bid_qty = bid_qty;
      ask_px = ask_px;
      ask_qty = ask_qty;
      last_px = or_else (lookup locate g.last_px) 0;
      bid_valid = is_some bid;
      ask_valid = is_some ask;
      crossed = is_some bid && is_some ask && leb ask_px bid_px;
      stale = or_else (lookup locate g.stale) false;
    }

-- The order added to the levels of its locate.
abbrev pub add_level : Dict Sides → Order → Dict Sides
add_level levels o =
    let side_levels = side_of (sides_at levels o.locate) o.side in
    insert o.locate
      (with_side (sides_at levels o.locate) o.side
        (insert o.price (or_else (lookup o.price side_levels) 0 + o.shares) side_levels))
      levels

-- The levels that `verify_consistency` rebuilds from the orders.
abbrev pub rebuilt : Dict Sides → Dict Order → Dict Sides
rebuilt levels [] = levels
rebuilt levels (e ∷ d) = rebuilt (add_level levels e.1) d

-- The keys of the first dict have the same values in both.
abbrev pub covers : Dict ℕ → Dict ℕ → Dict ℕ → Bool
covers [] a b = true
covers (e ∷ d) a b =
    (elim (lookup e.0 a) [
      | none ↦ false
      | some v ↦ elim (lookup e.0 b) [ none ↦ false | some w ↦ v == w ]
    ])
    && covers d a b

-- `have == want`
abbrev pub same_dict : Dict ℕ → Dict ℕ → Bool
same_dict have want = covers have have want && covers want have want

unfoldable pub check_side : Dict Sides → Dict Sides → ℕ → Side → Bool
check_side levels want locate side =
    same_dict (positive (side_of (sides_at levels locate) side))
      (side_of (sides_at want locate) side)

-- The loop over the locates of `levels`.
unfoldable pub check_locates : Dict Sides → Dict Sides → Dict Sides → Bool
check_locates [] levels want = true
check_locates (e ∷ d) levels want =
    check_side levels want e.0 Side.buy
    && check_side levels want e.0 Side.sell
    && check_locates d levels want

-- `verify_consistency`; `false` is the `AssertionError`.
unfoldable pub verify_consistency : GoldenBook → Bool
verify_consistency g = check_locates g.levels g.levels (rebuilt [] g.orders)
