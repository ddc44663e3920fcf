-- ===== src/Book/Orders.antt =====
-- The order map on its own: what each event makes of it, with the price levels left out.
use fpga_algotrading.Prelude.{
  ℕ, ◌-◌, ◌≡◌, refl, sym, ◌∙◌, ap, inl, inr, Bool, true, false, Option, none, some, ◌||◌, ◌==◌,
  arith, Bool-cases, Option-cases, if◌then◌else◌,
}
use fpga_algotrading.Dict.{
  Dict, lookup, contains, insert, erase, drop_where, erase-insert, erase_absent,
}
use fpga_algotrading.Contract.{Side, BookOp, BookEvt}
use fpga_algotrading.Book.State.{LiveOrder, OrderBookModel, mark_stale, book_for}
use fpga_algotrading.Book.Levels.{level_add, negative_attempt, update_last_price}
use fpga_algotrading.Book.Apply.{
  apply_clear, apply_add, take_shares, reduce_order, reduce_live, apply_reduce, apply_delete,
  replace_order, apply_replace, reduction,
}
use fpga_algotrading.Book.Top.{apply_op, observe, publish, apply}
use fpga_algotrading.Book.Frame.{orders-level_remove}

-- The order that an event names, on a side.
abbrev pub named : BookEvt → ℕ → Side → LiveOrder
named evt ref side = record {
  order_ref = ref;
  sym = evt.sym;
  locate = evt.locate;
  side = side;
  price = evt.price;
  qty = evt.qty;
}

abbrev pub reduced : Dict LiveOrder → BookEvt → Dict LiveOrder
reduced orders evt = elim (lookup evt.order_ref orders) [
  | none ↦ orders
  | some o ↦
      if o.qty - evt.qty == 0
      then erase evt.order_ref orders
      else insert evt.order_ref (record o { qty = o.qty - evt.qty }) orders
]

abbrev pub replaced : Dict LiveOrder → BookEvt → LiveOrder → Dict LiveOrder
replaced rest evt o =
    if contains evt.new_order_ref rest
    then insert evt.order_ref o rest
    else insert evt.new_order_ref (named evt evt.new_order_ref o.side) rest

-- The order map after an event, from the order map alone.
unfoldable pub orders_after : BookOp → Dict LiveOrder → BookEvt → Dict LiveOrder
orders_after BookOp.clear orders evt = drop_where (λ o. o.sym == evt.sym) orders
orders_after BookOp.add orders evt =
    if contains evt.order_ref orders || evt.qty == 0
    then orders
    else insert evt.order_ref (named evt evt.order_ref evt.side) orders
orders_after BookOp.execute orders evt = reduced orders evt
orders_after BookOp.cancel orders evt = reduced orders evt
orders_after BookOp.delete orders evt = erase evt.order_ref orders
orders_after BookOp.replace orders evt = elim (lookup evt.order_ref orders) [
  | none ↦ orders
  | some o ↦ replaced (erase evt.order_ref orders) evt o
]
orders_after BookOp.nop orders evt = orders

orders-apply_add :
    (m : OrderBookModel) (evt : BookEvt)
    → (apply_add m evt).orders ≡ orders_after BookOp.add m.orders evt
unfolding apply_add mark_stale level_add orders_after
orders-apply_add m evt = elim (Bool-cases (contains evt.order_ref m.orders)) [
  | inl live ↦ rw live refl
  | inr new ↦ elim (Bool-cases (evt.qty == 0)) [
    | inl none_left ↦ rw (new, none_left) refl
    | inr some_left ↦ rw (new, some_left) refl
  ]
]

orders-take_shares :
    (m : OrderBookModel) (evt : BookEvt) (o : LiveOrder) (delta : ℕ)
    → (take_shares m evt o delta).orders ≡ (
        if o.qty - delta == 0
        then erase evt.order_ref m.orders
        else insert evt.order_ref (record o { qty = o.qty - delta }) m.orders)
unfolding take_shares
orders-take_shares m evt o delta =
    let e =
      orders-level_remove
        (record m { orders = insert evt.order_ref (record o { qty = o.qty - delta }) m.orders })
        evt.sym o.side o.price delta in
    elim (Bool-cases (o.qty - delta == 0)) [
      | inl gone ↦
          rw gone (ap (erase evt.order_ref) (e true) ∙ erase-insert evt.order_ref _ m.orders)
      | inr kept ↦ rw kept (e false)
    ]

orders-update_last_price :
    (m : OrderBookModel) (place : ℕ) (evt : BookEvt) (fallback : Option ℕ)
    → (update_last_price m place evt fallback).orders ≡ m.orders
unfolding update_last_price
orders-update_last_price m place evt fallback = ground arith

orders-reduce_order :
    (m : OrderBookModel) (evt : BookEvt) (executed : Bool) (o : LiveOrder) (delta : ℕ)
    → (reduce_order m evt executed o delta).orders ≡ (take_shares m evt o delta).orders
unfolding reduce_order
orders-reduce_order m evt true o delta = orders-update_last_price _ evt.sym evt (some o.price)
orders-reduce_order m evt false o delta = refl

reduction_left : (o : LiveOrder) (qty : ℕ) → o.qty - reduction o qty ≡ o.qty - qty
reduction_left o qty = ground arith

orders-reduce_live :
    (m : OrderBookModel) (evt : BookEvt) (executed : Bool) (o : LiveOrder)
    → (reduce_live m evt executed o).orders ≡ (
        if o.qty - evt.qty == 0
        then erase evt.order_ref m.orders
        else insert evt.order_ref (record o { qty = o.qty - evt.qty }) m.orders)
unfolding reduce_live negative_attempt mark_stale
orders-reduce_live m evt executed o =
    orders-reduce_order _ evt executed o (reduction o evt.qty)
    ∙ orders-take_shares _ evt o (reduction o evt.qty)
    ∙ rw reduction_left (
        ap
          (λ d.
            if o.qty - evt.qty == 0
            then erase evt.order_ref d
            else insert evt.order_ref (record o { qty = o.qty - evt.qty }) d)
          (ground arith))

orders-apply_reduce :
    (m : OrderBookModel) (evt : BookEvt) (executed : Bool)
    → (apply_reduce m evt executed).orders ≡ reduced m.orders evt
unfolding apply_reduce mark_stale
orders-apply_reduce m evt executed = elim (Option-cases (lookup evt.order_ref m.orders)) [
  | inl unknown ↦ rw (unknown, apply_reduce, reduced) refl
  | inr (o, live) ↦ rw (live, apply_reduce, reduced) (orders-reduce_live _ evt executed o)
]

orders-apply_delete :
    (m : OrderBookModel) (evt : BookEvt)
    → (apply_delete m evt).orders ≡ orders_after BookOp.delete m.orders evt
unfolding apply_delete mark_stale orders_after
orders-apply_delete m evt = elim (Option-cases (lookup evt.order_ref m.orders)) [
  | inl unknown ↦ rw (unknown, apply_delete) (sym (erase_absent evt.order_ref m.orders unknown))
  | inr (o, live) ↦
      rw (live, apply_delete) (orders-level_remove _ evt.sym o.side o.price o.qty true)
]

orders-replace_order :
    (m : OrderBookModel) (evt : BookEvt) (o : LiveOrder)
    → (replace_order m evt o).orders ≡ replaced m.orders evt o
unfolding replace_order mark_stale level_add
orders-replace_order m evt o = elim (Bool-cases (contains evt.new_order_ref m.orders)) [
  | inl taken ↦ rw (taken, replace_order) refl
  | inr free ↦
      rw (free, replace_order)
        (ap (insert evt.new_order_ref _) (orders-level_remove m evt.sym o.side o.price o.qty true))
]

orders-apply_replace :
    (m : OrderBookModel) (evt : BookEvt)
    → (apply_replace m evt).orders ≡ orders_after BookOp.replace m.orders evt
unfolding apply_replace mark_stale orders_after
orders-apply_replace m evt = elim (Option-cases (lookup evt.order_ref m.orders)) [
  | inl unknown ↦ rw (unknown, apply_replace, orders_after) refl
  | inr (o, live) ↦ rw (live, apply_replace, orders_after) (orders-replace_order _ evt o)
]

orders-apply_op :
    (op : BookOp) (m : OrderBookModel) (evt : BookEvt)
    → (apply_op op m evt).orders ≡ orders_after op m.orders evt
unfolding apply_op apply_clear orders_after
orders-apply_op BookOp.clear m evt = refl
orders-apply_op BookOp.add m evt = orders-apply_add m evt
orders-apply_op BookOp.execute m evt = orders-apply_reduce m evt true
orders-apply_op BookOp.cancel m evt = orders-apply_reduce m evt false
orders-apply_op BookOp.delete m evt = orders-apply_delete m evt
orders-apply_op BookOp.replace m evt = orders-apply_replace m evt
orders-apply_op BookOp.nop m evt = orders-update_last_price _ evt.sym evt none

-- The order map after any event is `orders_after` of the order map before: the price levels, the
-- stale bits and the counters have no part in it. So an add enters unless its reference is live or
-- it has no shares; an execution or a cancel takes its shares, at most what is left, and an order
-- with nothing left goes; a delete drops the order; a replace moves a live order to its new
-- reference with the old side, and leaves the order as it was if the new reference is live.
pub orders-apply :
    (m : OrderBookModel) (evt : BookEvt) → (apply m evt).0.orders ≡ orders_after evt.op m.orders evt
unfolding apply observe publish book_for
orders-apply m evt = orders-apply_op evt.op (book_for m evt.sym) evt
