-- ===== src/Book/Levels.antt =====
-- host/pymodel/book.py, `_level_add`, `_level_remove` and `_update_last_price`. The `book` that the
-- source hands over is the one that stands in the dict under `sym`.
use fpga_algotrading.Prelude.{
  ℕ, ◌+◌, ◌-◌, Bool, Option, none, some, ◌||◌, not, ltb, ◌==◌, if◌then◌else◌, or_else,
}
use fpga_algotrading.Prelude.Int.{pos, ◌+ℤ◌, ◌-ℤ◌, leb_ℤ, ltb_ℤ}
use fpga_algotrading.Dict.{Dict, lookup, insert, erase}
use fpga_algotrading.Contract.{Side, BookEvt}
use fpga_algotrading.Book.State.{
  Level, empty_level, Reason, remove_from_empty, remove_over_level, level_emptied, side_levels,
  with_levels, OrderBookModel, book_of, put_book, mark_stale,
}

abbrev pub put_levels : OrderBookModel → ℕ → Side → Dict Level → OrderBookModel
put_levels m sym side levels = put_book m sym (with_levels (book_of m sym) side levels)

unfoldable pub level_add : OrderBookModel → ℕ → Side → ℕ → ℕ → OrderBookModel
level_add m sym side price qty =
    let levels = side_levels (book_of m sym) side in
    let level = or_else (lookup price levels) empty_level in
    put_levels m sym side (
      insert price
        (record level { qty = level.qty + qty; order_count = level.order_count +ℤ pos 1 }) levels)

-- `counters.negative_book_qty_attempts += 1` and `mark_stale`, which come together.
unfoldable pub negative_attempt : OrderBookModel → ℕ → Reason → OrderBookModel
negative_attempt m sym reason =
    let counters = m.counters in
    mark_stale
      (record m {
        counters = record counters {
          negative_book_qty_attempts = counters.negative_book_qty_attempts + 1;
        };
      })
      sym reason

-- The last part of `_level_remove`: a level with no order left is deleted.
unfoldable pub settle_level : OrderBookModel → ℕ → Side → ℕ → Level → OrderBookModel
settle_level m sym side price level =
    if leb_ℤ level.order_count (pos 0)
    then (let m' =
          if not (level.qty == 0) || ltb_ℤ level.order_count (pos 0)
          then negative_attempt m sym (level_emptied price side level.qty level.order_count)
          else m in
        put_levels m' sym side (erase price (side_levels (book_of m' sym) side)))
    else put_levels m sym side (insert price level (side_levels (book_of m sym) side))

-- `_level_remove` at a level that is there.
unfoldable pub level_take : OrderBookModel → ℕ → Side → ℕ → ℕ → Bool → Level → OrderBookModel
level_take m sym side price qty remove_order level =
    let over = ltb level.qty qty in
    let m' =
      if over then negative_attempt m sym (remove_over_level qty price side level.qty) else m in
    let taken = if over then level.qty else qty in
    settle_level m' sym side price (record {
      qty = level.qty - taken;
      order_count = if remove_order then level.order_count -ℤ pos 1 else level.order_count;
    })

unfoldable pub level_remove : OrderBookModel → ℕ → Side → ℕ → ℕ → Bool → OrderBookModel
level_remove m sym side price qty remove_order =
    elim (lookup price (side_levels (book_of m sym) side)) [
      | none ↦ negative_attempt m sym (remove_from_empty qty price side)
      | some level ↦ level_take m sym side price qty remove_order level
    ]

unfoldable pub update_last_price : OrderBookModel → ℕ → BookEvt → Option ℕ → OrderBookModel
update_last_price m sym evt fallback =
    let price = if evt.price == 0 then or_else fallback 0 else evt.price in
    if evt.printable
    then (if price == 0 then m else put_book m sym (record (book_of m sym) { last_px = price }))
    else m
