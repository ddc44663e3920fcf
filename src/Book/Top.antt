-- ===== src/Book/Top.antt =====
-- host/pymodel/book.py, `apply`, `_publish` and `top`: the top of book, recomputed each time.
use fpga_algotrading.Prelude.{
  ℕ, ◌+◌, Bool, true, false, Option, none, some, [], ◌∷◌, ◌&&◌, ◌||◌, not, ltb, leb, ◌==◌,
  if◌then◌else◌, or_else, is_some, max, length,
}
use fpga_algotrading.Dict.{Dict, lookup, highest, lowest}
use fpga_algotrading.Contract.{BookOp, BookEvt, BookTop, book_levels}
use fpga_algotrading.Book.State.{
  Level, Published, SymbolBook, OrderBookModel, book_of, put_book, book_for,
}
use fpga_algotrading.Book.Levels.{update_last_price}
use fpga_algotrading.Book.Apply.{
  with_counters, apply_clear, apply_add, apply_reduce, apply_delete, apply_replace,
}

-- (price, qty) at a price of the dict; `none` is the `KeyError`
abbrev pub quote_at : Dict Level → ℕ → Option (ℕ × ℕ)
quote_at levels px = elim (lookup px levels) [ none ↦ none | some level ↦ some (px, level.qty) ]

unfoldable pub best_bid : Dict Level → Option (ℕ × ℕ)
best_bid [] = none
best_bid (e ∷ d) = quote_at (e ∷ d) (highest e.0 d)

unfoldable pub best_ask : Dict Level → Option (ℕ × ℕ)
best_ask [] = none
best_ask (e ∷ d) = quote_at (e ∷ d) (lowest e.0 d)

abbrev pub published_of : Option (ℕ × ℕ) → Option (ℕ × ℕ) → Published
published_of bid ask = record {
  bid_valid = is_some bid;
  bid_px = (or_else bid (0, 0)).0;
  bid_qty = (or_else bid (0, 0)).1;
  ask_valid = is_some ask;
  ask_px = (or_else ask (0, 0)).0;
  ask_qty = (or_else ask (0, 0)).1;
}

abbrev same_bool : Bool → Bool → Bool
same_bool true b = b
same_bool false b = not b

-- `published != book._last_published`
unfoldable pub differs : Published → Option Published → Bool
differs p none = true
differs p (some q) = not (
    same_bool p.bid_valid q.bid_valid
    && p.bid_px == q.bid_px
    && p.bid_qty == q.bid_qty
    && same_bool p.ask_valid q.ask_valid
    && p.ask_px == q.ask_px
    && p.ask_qty == q.ask_qty)

-- The `BookTop` that `_publish` and `top` build.
abbrev pub top_of : SymbolBook → ℕ → Published → Bool → ℕ → BookTop
top_of book sym p changed cycle = record {
  sym = sym;
  bid_px = p.bid_px;
  bid_qty = p.bid_qty;
  ask_px = p.ask_px;
  ask_qty = p.ask_qty;
  last_px = book.last_px;
  bid_valid = p.bid_valid;
  ask_valid = p.ask_valid;
  crossed = p.bid_valid && p.ask_valid && leb p.ask_px p.bid_px;
  stale = book.stale;
  top_changed = changed;
  rx_cycle = cycle;
}

abbrev pub current : SymbolBook → Published
current book = published_of (best_bid book.bids) (best_ask book.asks)

unfoldable pub publish : OrderBookModel → ℕ → BookEvt → OrderBookModel × BookTop
publish m sym evt =
    let book = book_of m sym in
    let p = current book in
    (
      put_book m sym (record book { last_published = some p }),
      top_of book book.sym p (differs p book.last_published) evt.rx_cycle,
    )

-- `top(sym)`, which also makes the book on first touch
unfoldable pub top : OrderBookModel → ℕ → OrderBookModel × BookTop
top m sym = let book = book_of m sym in (book_for m sym, top_of book sym (current book) false 0)

-- the `if`/`elif` of `apply`
unfoldable pub apply_op : BookOp → OrderBookModel → BookEvt → OrderBookModel
apply_op BookOp.clear m evt = apply_clear m evt.sym
apply_op BookOp.add m evt = apply_add m evt
apply_op BookOp.execute m evt = apply_reduce m evt true
apply_op BookOp.cancel m evt = apply_reduce m evt false
apply_op BookOp.delete m evt = apply_delete m evt
apply_op BookOp.replace m evt = apply_replace m evt
apply_op BookOp.nop m evt =
    update_last_price (with_counters m (λ c. record c { nops = c.nops + 1 })) evt.sym evt none

abbrev is_deep : SymbolBook → Bool
is_deep book = ltb book_levels (length book.bids) || ltb book_levels (length book.asks)

-- `live_orders_max` and `levels_over_book_levels`
unfoldable pub observe : OrderBookModel → ℕ → OrderBookModel
observe m sym = with_counters m (λ c. record c {
  live_orders_max = max c.live_orders_max (length m.orders);
  levels_over_book_levels =
      if is_deep (book_of m sym) then c.levels_over_book_levels + 1 else c.levels_over_book_levels;
})

unfoldable pub apply : OrderBookModel → BookEvt → OrderBookModel × BookTop
apply m evt = publish (observe (apply_op evt.op (book_for m evt.sym) evt) evt.sym) evt.sym evt
