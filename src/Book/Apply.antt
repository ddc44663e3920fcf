-- ===== src/Book/Apply.antt =====
-- host/pymodel/book.py, `_apply_clear` to `_apply_replace`: one function per book operation.
use fpga_algotrading.Prelude.{ℕ, ◌+◌, ◌-◌, Bool, true, none, some, [], ltb, ◌==◌, if◌then◌else◌}
use fpga_algotrading.Dict.{lookup, contains, insert, erase, drop_where}
use fpga_algotrading.Contract.{BookEvt}
use fpga_algotrading.Book.State.{
  LiveOrder, duplicate_add, zero_add, unknown_execute, unknown_cancel, unknown_delete,
  unknown_replace, replace_into_live, over_reduce, SymbolBook, BookCounters, OrderBookModel,
  book_of, put_book, mark_stale,
}
use fpga_algotrading.Book.Levels.{level_add, negative_attempt, level_remove, update_last_price}

abbrev pub with_counters : OrderBookModel → (BookCounters → BookCounters) → OrderBookModel
with_counters m f = record m { counters = f m.counters }

abbrev count_unknown : BookCounters → BookCounters
count_unknown c = record c { unknown_order_ref = c.unknown_order_ref + 1 }

abbrev count_duplicate : BookCounters → BookCounters
count_duplicate c = record c { duplicate_order_ref = c.duplicate_order_ref + 1 }

abbrev pub cleared : SymbolBook → SymbolBook
cleared book = record book { bids = []; asks = [] }

unfoldable pub apply_clear : OrderBookModel → ℕ → OrderBookModel
apply_clear m sym =
    let m' = record m {
      orders = drop_where (λ o. o.sym == sym) m.orders;
      counters = record m.counters { clears = m.counters.clears + 1 };
    } in
    put_book m' sym (cleared (book_of m' sym))

unfoldable pub apply_add : OrderBookModel → BookEvt → OrderBookModel
apply_add m evt =
    let m₁ = with_counters m (λ c. record c { adds = c.adds + 1 }) in
    if contains evt.order_ref m₁.orders
    then mark_stale (with_counters m₁ count_duplicate) evt.sym (duplicate_add evt.order_ref)
    else if evt.qty == 0
    then mark_stale m₁ evt.sym (zero_add evt.order_ref)
    else level_add
        (record m₁ {
          orders =
              insert evt.order_ref
                (record {
                  order_ref = evt.order_ref;
                  sym = evt.sym;
                  locate = evt.locate;
                  side = evt.side;
                  price = evt.price;
                  qty = evt.qty;
                })
                m₁.orders;
        })
        evt.sym evt.side evt.price evt.qty

abbrev pub without_order : OrderBookModel → ℕ → OrderBookModel
without_order m ref = record m { orders = erase ref m.orders }

-- The quantity that `_apply_reduce` takes from an order: never more than it holds.
abbrev pub reduction : LiveOrder → ℕ → ℕ
reduction order qty = if ltb order.qty qty then order.qty else qty

-- `_apply_reduce` from `order.qty -= delta` to the removal of an order that holds nothing more.
unfoldable pub take_shares : OrderBookModel → BookEvt → LiveOrder → ℕ → OrderBookModel
take_shares m evt order delta =
    let left = order.qty - delta in
    let gone = left == 0 in
    let m₁ = record m { orders = insert evt.order_ref (record order { qty = left }) m.orders } in
    let m₂ = level_remove m₁ evt.sym order.side order.price delta gone in
    if gone
    then with_counters (without_order m₂ evt.order_ref)
        (λ c. record c { orders_removed_at_zero = c.orders_removed_at_zero + 1 })
    else m₂

unfoldable pub reduce_order : OrderBookModel → BookEvt → Bool → LiveOrder → ℕ → OrderBookModel
reduce_order m evt executed order delta =
    let m' = take_shares m evt order delta in
    if executed then update_last_price m' evt.sym evt (some order.price) else m'

abbrev count_reduce : Bool → BookCounters → BookCounters
count_reduce executed c = record c {
  executes = if executed then c.executes + 1 else c.executes;
  cancels = if executed then c.cancels else c.cancels + 1;
}

-- `_apply_reduce` at an order that is live.
unfoldable pub reduce_live : OrderBookModel → BookEvt → Bool → LiveOrder → OrderBookModel
reduce_live m evt executed order =
    let m' =
      if ltb order.qty evt.qty
      then negative_attempt m evt.sym (over_reduce evt.qty evt.order_ref order.qty)
      else m in
    reduce_order m' evt executed order (reduction order evt.qty)

unfoldable pub apply_reduce : OrderBookModel → BookEvt → Bool → OrderBookModel
apply_reduce m evt executed =
    let m₁ = with_counters m (count_reduce executed) in
    elim (lookup evt.order_ref m₁.orders) [
      | none ↦
          mark_stale (with_counters m₁ count_unknown) evt.sym
            (if executed then unknown_execute evt.order_ref else unknown_cancel evt.order_ref)
      | some order ↦ reduce_live m₁ evt executed order
    ]

unfoldable pub apply_delete : OrderBookModel → BookEvt → OrderBookModel
apply_delete m evt =
    let m₁ = with_counters m (λ c. record c { deletes = c.deletes + 1 }) in
    elim (lookup evt.order_ref m₁.orders) [
      | none ↦ mark_stale (with_counters m₁ count_unknown) evt.sym (unknown_delete evt.order_ref)
      | some order ↦
          level_remove (without_order m₁ evt.order_ref) evt.sym order.side order.price order.qty
            true
    ]

-- `_apply_replace` once the original order has left the map.
unfoldable pub replace_order : OrderBookModel → BookEvt → LiveOrder → OrderBookModel
replace_order m evt order =
    if contains evt.new_order_ref m.orders
    then (let m' =
          mark_stale (with_counters m count_duplicate) evt.sym
            (replace_into_live evt.new_order_ref) in
        record m' { orders = insert evt.order_ref order m'.orders })
    else (let m₁ = level_remove m evt.sym order.side order.price order.qty true in
        level_add
          (record m₁ {
            orders =
                insert evt.new_order_ref
                  (record {
                    order_ref = evt.new_order_ref;
                    sym = evt.sym;
                    locate = evt.locate;
                    side = order.side;
                    price = evt.price;
                    qty = evt.qty;
                  })
                  m₁.orders;
          })
          evt.sym order.side evt.price evt.qty)

unfoldable pub apply_replace : OrderBookModel → BookEvt → OrderBookModel
apply_replace m evt =
    let m₁ = with_counters m (λ c. record c { replaces = c.replaces + 1 }) in
    elim (lookup evt.order_ref m₁.orders) [
      | none ↦ mark_stale (with_counters m₁ count_unknown) evt.sym (unknown_replace evt.order_ref)
      | some order ↦ replace_order (without_order m₁ evt.order_ref) evt order
    ]
