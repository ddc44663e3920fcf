-- ===== src/Book/Best/Orders.antt =====
-- The same over the live orders, for the book that `apply` publishes.
use fpga_algotrading.Prelude.{
  ℕ, ◌≤◌, ◌≡◌, refl, sym, ◌∙◌, Bool, true, false, Option, none, some, arith, is_some, or_else,
}
use mathlib.Core.Path.{subst, subst₂}
use fpga_algotrading.Prelude.Int.{ℤ, pos}
use fpga_algotrading.Dict.{Dict, lookup, sum_of}
use fpga_algotrading.Contract.{Side, BookEvt}
use fpga_algotrading.Book.State.{LiveOrder, Level, OrderBookModel, side_levels, book_of, book_for}
use fpga_algotrading.Book.Top.{best_bid, best_ask, publish, apply}
use fpga_algotrading.Book.Aggregate.{share, one, level_of, IsConsistent, counted_order}
use fpga_algotrading.Book.Consistency.{
  Addressed, apply_op-IsConsistent, book_for-IsConsistent, observe-IsConsistent,
}
use fpga_algotrading.Book.Best.Levels.{Ahead, BestIs, best_bid-BestIs, best_ask-BestIs}

-- The best quote of one side, as the live orders have it.
abbrev pub OrdersBest : Dict LiveOrder → ℕ → Side → Option (ℕ × ℕ) → Type 0
OrdersBest orders place side none =
    (ref : ℕ) (o : LiveOrder) → lookup ref orders ≡ some o → o.sym ≡ place → o.side ≡ side → ⊥
OrdersBest orders place side (some (px, qty)) =
    (qty ≡ sum_of (share place side px) orders)
    × (1 ≤ sum_of (one place side px) orders)
    × ((ref : ℕ) (o : LiveOrder)
        → lookup ref orders ≡ some o
        → o.sym ≡ place
        → o.side ≡ side
        → Ahead side px o.price)

-- A quote of the top of book; `none` where it is not valid.
abbrev pub quote : Bool → ℕ → ℕ → Option (ℕ × ℕ)
quote true px qty = some (px, qty)
quote false px qty = none

level_of-eq :
    (s n q : ℕ) (c : ℤ)
    → level_of s n ≡ some (record { qty = q; order_count = c })
    → (q ≡ s) × (1 ≤ n)
level_of-eq s n q c h = ground arith

module _ (m : OrderBookModel) (h : IsConsistent m) where
  live_level :
      (ref : ℕ) (o : LiveOrder)
      → lookup ref m.orders ≡ some o
      → (l : Level) × (lookup o.price (side_levels (book_of m o.sym) o.side) ≡ some l)
  live_level ref o live =
      let counted = counted_order m.orders ref o h.distinct live in
      (
        record {
          qty = sum_of (share o.sym o.side o.price) m.orders;
          order_count = pos (sum_of (one o.sym o.side o.price) m.orders);
        },
        h.agrees o.sym o.side o.price ∙ ground arith,
      )

  OrdersBest-levels :
      (place : ℕ) (side : Side) (best : Option (ℕ × ℕ))
      → BestIs (Ahead side) (side_levels (book_of m place) side) best
      → OrdersBest m.orders place side best
  OrdersBest-levels place side none empty = λ ref o live at on.
      let (l, found) = live_level ref o live in
      let there : lookup o.price (side_levels (book_of m place) side) ≡ some l =
        subst₂ (λ s sd. lookup o.price (side_levels (book_of m s) sd) ≡ some l) at on found in
      absurd (ground (arith, empty o.price))
  OrdersBest-levels place side (some (px, qty)) b =
      let (shares, members) =
        level_of-eq _ _ qty b.count (sym (h.agrees place side px) ∙ b.found) in
      (
        shares,
        members,
        λ ref o live at on.
            let (l, found) = live_level ref o live in
            let there : lookup o.price (side_levels (book_of m place) side) ≡ some l =
              subst₂ (λ s sd. lookup o.price (side_levels (book_of m s) sd) ≡ some l) at on found in
            b.first o.price l there,
      )

quote_of : Option (ℕ × ℕ) → Option (ℕ × ℕ)
quote_of best = quote (is_some best) (or_else best (0, 0)).0 (or_else best (0, 0)).1

quote_of_lem : (best : Option (ℕ × ℕ)) → best ≡ quote_of best
unfolding quote_of
quote_of_lem none = refl
quote_of_lem (some b) = refl

publish-OrdersBest :
    (m : OrderBookModel) (place : ℕ) (evt : BookEvt)
    → IsConsistent m
    → let (m', t) = publish m place evt in
      OrdersBest m'.orders place Side.buy (quote t.bid_valid t.bid_px t.bid_qty)
      × OrdersBest m'.orders place Side.sell (quote t.ask_valid t.ask_px t.ask_qty)
unfolding publish quote_of
publish-OrdersBest m place evt h =
    let book = book_of m place in
    (
      subst (OrdersBest m.orders place Side.buy) (quote_of_lem (best_bid book.bids))
          (OrdersBest-levels m h place Side.buy _ (best_bid-BestIs book.bids)),
      subst (OrdersBest m.orders place Side.sell) (quote_of_lem (best_ask book.asks))
          (OrdersBest-levels m h place Side.sell _ (best_ask-BestIs book.asks)),
    )

-- The top of book that an event publishes is the best of the live orders of its symbol after the
-- event. A valid bid has the highest price of a live buy order and the sum of the shares of the
-- buy orders at that price, of which there is one at least; with an invalid bid no buy order is
-- live. The ask is the same with the lowest price of the sell orders. The state before is to be
-- consistent and the event addressed.
pub apply-OrdersBest :
    (m : OrderBookModel) (evt : BookEvt)
    → Addressed m evt
    → IsConsistent m
    → let (m', t) = apply m evt in
      OrdersBest m'.orders evt.sym Side.buy (quote t.bid_valid t.bid_px t.bid_qty)
      × OrdersBest m'.orders evt.sym Side.sell (quote t.ask_valid t.ask_px t.ask_qty)
unfolding apply book_for
apply-OrdersBest m evt own h = publish-OrdersBest _ evt.sym evt (
    observe-IsConsistent _ evt.sym
      (apply_op-IsConsistent evt.op _ evt own (book_for-IsConsistent m evt.sym h)))
