-- ===== src/Book/Tests.antt =====
-- The book at concrete events.
use fpga_algotrading.Prelude.{ℕ, ◌+◌, ◌≡◌, refl, true, some, arith, if◌then◌else◌}
use fpga_algotrading.Prelude.Int.{◌+ℤ◌, ◌-ℤ◌}
use fpga_algotrading.Dict.{lookup}
use fpga_algotrading.Contract.{Side, BookOp, BookEvt}
use fpga_algotrading.Book.State.{LiveOrder, OrderBookModel, init, book_of, book_for, mark_stale}
use fpga_algotrading.Book.Levels.{
  level_add, settle_level, level_take, level_remove, update_last_price,
}
use fpga_algotrading.Book.Apply.{
  apply_add, take_shares, reduce_order, reduce_live, apply_reduce, apply_delete,
}
use fpga_algotrading.Book.Top.{best_bid, best_ask, publish, apply_op, observe, apply}
use fpga_algotrading.Book.Aggregate.{IsConsistent}
use fpga_algotrading.Book.Consistency.{
  Addressed, start, next, init-IsConsistent, apply-IsConsistent, Reach-IsConsistent,
}
use fpga_algotrading.Book.Best.{OrdersBest, quote, apply-OrdersBest}
use fpga_algotrading.Book.Isolation.{Touches, apply-Touches}
use fpga_algotrading.Book.Orders.{orders_after, orders-apply}
use fpga_algotrading.Book.Faults.{over_takes, attempts-apply}

-- An event for the symbol 3 at the price 100.0000.
abbrev event : BookOp → Side → ℕ → ℕ → BookEvt
event op side ref qty = record {
  op = op;
  sym = 3;
  locate = 77;
  side = side;
  price = 1000000;
  qty = qty;
  order_ref = ref;
  new_order_ref = 9;
  exch_ts = 0;
  rx_cycle = 5;
  printable = true;
}

abbrev add_bid : BookEvt
add_bid = event BookOp.add Side.buy 1 100

abbrev take_bid : BookEvt
take_bid = event BookOp.execute Side.buy 1 40

abbrev delete_unknown : BookEvt
delete_unknown = event BookOp.delete Side.buy 5 0

abbrev with_bid : OrderBookModel
with_bid = (apply init add_bid).0

abbrev bid_order : LiveOrder
bid_order = record {
  order_ref = 1;
  sym = 3;
  locate = 77;
  side = Side.buy;
  price = 1000000;
  qty = 100;
}

bid_stands : lookup 1 with_bid.orders ≡ some bid_order
unfolding apply observe publish book_for apply_op apply_add level_add
bid_stands = refl

-- A partial execution leaves 60 shares, publishes them and moves the last price.
take_bid_top :
    ((apply with_bid take_bid).1.bid_qty ≡ 60) × ((apply with_bid take_bid).1.last_px ≡ 1000000)
unfolding apply observe publish book_for apply_op apply_add apply_reduce level_add level_remove
    level_take settle_level reduce_live reduce_order take_shares update_last_price best_bid best_ask
    ◌+ℤ◌ ◌-ℤ◌
take_bid_top = (refl, refl)

-- The delete of an order that is not live makes the book stale.
delete_unknown_stale : (book_of (apply with_bid delete_unknown).0 3).stale ≡ true
unfolding apply observe publish book_for apply_op apply_add apply_delete mark_stale level_add ◌+ℤ◌
delete_unknown_stale = refl

add_bid-Addressed : Addressed init add_bid
add_bid-Addressed = λ r o found. cc

take_bid-Addressed : Addressed with_bid take_bid
take_bid-Addressed = λ r o found. ground (arith, bid_stands)

with_bid-IsConsistent : IsConsistent with_bid
with_bid-IsConsistent = apply-IsConsistent init add_bid add_bid-Addressed init-IsConsistent

apply-IsConsistent_example : IsConsistent (apply with_bid take_bid).0
apply-IsConsistent_example =
    apply-IsConsistent with_bid take_bid take_bid-Addressed with_bid-IsConsistent

Reach-IsConsistent_example : IsConsistent (apply with_bid take_bid).0
Reach-IsConsistent_example =
    Reach-IsConsistent (next (next start add_bid add_bid-Addressed) take_bid take_bid-Addressed)

apply-OrdersBest_example :
    let (m', t) = apply with_bid take_bid in
    OrdersBest m'.orders 3 Side.buy (quote t.bid_valid t.bid_px t.bid_qty)
    × OrdersBest m'.orders 3 Side.sell (quote t.ask_valid t.ask_px t.ask_qty)
apply-OrdersBest_example =
    apply-OrdersBest with_bid take_bid take_bid-Addressed with_bid-IsConsistent

apply-Touches_example : Touches 3 with_bid (apply with_bid delete_unknown).0
apply-Touches_example = apply-Touches with_bid delete_unknown

orders-apply_example :
    (apply with_bid take_bid).0.orders ≡ orders_after BookOp.execute with_bid.orders take_bid
orders-apply_example = orders-apply with_bid take_bid

attempts-apply_example :
    (apply with_bid take_bid).0.counters.negative_book_qty_attempts
    ≡ with_bid.counters.negative_book_qty_attempts + (if over_takes with_bid take_bid then 1 else 0)
attempts-apply_example = attempts-apply with_bid take_bid take_bid-Addressed with_bid-IsConsistent
