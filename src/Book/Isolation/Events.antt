-- ===== src/Book/Isolation/Events.antt =====
-- What a book event can touch.
use fpga_algotrading.Prelude.{
  ℕ, ◌-◌, ◌≡◌, refl, inl, inr, Bool, true, false, none, some, ◌==◌, List, [], ◌∷◌, arith,
  Bool-cases, Option-cases, if◌then◌else◌,
}
use fpga_algotrading.Dict.{Dict, lookup, contains, lookup-insert}
use fpga_algotrading.Contract.{BookOp, BookEvt}
use fpga_algotrading.Book.State.{
  LiveOrder, BookCounters, OrderBookModel, book_of, book_for, clear_stale,
}
use fpga_algotrading.Book.Apply.{
  apply_clear, apply_add, take_shares, reduce_order, reduce_live, apply_reduce, apply_delete,
  replace_order, apply_replace,
}
use fpga_algotrading.Book.Top.{apply_op, observe, publish, apply}
use fpga_algotrading.Book.Isolation.Writes.{
  Touches, same_books, trans, put_book-Touches, aside, if-Touches, mark_stale-Touches,
  level_add-Touches, negative_attempt-Touches, level_remove-Touches, update_last_price-Touches,
}

module _ (m : OrderBookModel) (evt : BookEvt) where
  -- A change of the order map or of the counters alone.
  quiet :
      (orders : Dict LiveOrder) (c : BookCounters)
      → Touches evt.sym m (record m { orders = orders; counters = c })
  quiet orders c = aside evt.sym orders c (same_books evt.sym m m refl)

  apply_clear-Touches : Touches evt.sym m (apply_clear m evt.sym)
  unfolding apply_clear
  apply_clear-Touches = trans evt.sym (quiet _ _) (put_book-Touches evt.sym _ _ (λ h. h) refl)

  apply_add-Touches : Touches evt.sym m (apply_add m evt)
  unfolding apply_add
  apply_add-Touches = elim (Bool-cases (contains evt.order_ref m.orders)) [
    | inl live ↦
        rw (live, apply_add) (trans evt.sym (quiet m.orders _) (mark_stale-Touches evt.sym _ _))
    | inr new ↦ elim (Bool-cases (evt.qty == 0)) [
      | inl none_left ↦
          rw (new, apply_add, none_left)
            (trans evt.sym (quiet m.orders _) (mark_stale-Touches evt.sym _ _))
      | inr some_left ↦
          rw (new, apply_add, some_left)
            (trans evt.sym (quiet _ _) (level_add-Touches evt.sym _ _ _ _))
    ]
  ]

  take_shares-Touches : (o : LiveOrder) (delta : ℕ) → Touches evt.sym m (take_shares m evt o delta)
  unfolding take_shares
  take_shares-Touches o delta = elim (Bool-cases (o.qty - delta == 0)) [
    | inl gone ↦
        rw (gone, take_shares)
          (aside evt.sym _ _ (
            trans evt.sym (quiet _ m.counters)
              (level_remove-Touches evt.sym _ o.side o.price delta _)))
    | inr kept ↦
        rw (kept, take_shares)
          (trans evt.sym (quiet _ m.counters)
            (level_remove-Touches evt.sym _ o.side o.price delta _))
  ]

  reduce_order-Touches :
      (executed : Bool) (o : LiveOrder) (delta : ℕ)
      → Touches evt.sym m (reduce_order m evt executed o delta)
  unfolding reduce_order
  reduce_order-Touches executed o delta =
      if-Touches evt.sym m _ _ _
        (trans evt.sym (take_shares-Touches o delta) (update_last_price-Touches evt.sym _ evt _))
        (take_shares-Touches o delta)

reduce_live-Touches :
    (m : OrderBookModel) (evt : BookEvt) (executed : Bool) (o : LiveOrder)
    → Touches evt.sym m (reduce_live m evt executed o)
unfolding reduce_live
reduce_live-Touches m evt executed o =
    trans evt.sym
      (if-Touches evt.sym m _ _ _ (negative_attempt-Touches evt.sym m _)
        (same_books evt.sym m m refl))
      (reduce_order-Touches _ evt executed o _)

apply_reduce-Touches :
    (m : OrderBookModel) (evt : BookEvt) (executed : Bool)
    → Touches evt.sym m (apply_reduce m evt executed)
unfolding apply_reduce
apply_reduce-Touches m evt executed = elim (Option-cases (lookup evt.order_ref m.orders)) [
  | inl unknown ↦
      rw (unknown, apply_reduce)
        (trans evt.sym (quiet m evt m.orders _) (mark_stale-Touches evt.sym _ _))
  | inr (o, live) ↦
      rw (live, apply_reduce)
        (trans evt.sym (quiet m evt m.orders _) (reduce_live-Touches _ evt executed o))
]

apply_delete-Touches : (m : OrderBookModel) (evt : BookEvt) → Touches evt.sym m (apply_delete m evt)
unfolding apply_delete
apply_delete-Touches m evt = elim (Option-cases (lookup evt.order_ref m.orders)) [
  | inl unknown ↦
      rw (unknown, apply_delete)
        (trans evt.sym (quiet m evt m.orders _) (mark_stale-Touches evt.sym _ _))
  | inr (o, live) ↦
      rw (live, apply_delete)
        (trans evt.sym (quiet m evt _ _) (level_remove-Touches evt.sym _ _ _ _ _))
]

replace_order-Touches :
    (m : OrderBookModel) (evt : BookEvt) (o : LiveOrder) → Touches evt.sym m (replace_order m evt o)
unfolding replace_order
replace_order-Touches m evt o = elim (Bool-cases (contains evt.new_order_ref m.orders)) [
  | inl taken ↦
      rw (taken, replace_order)
        (aside evt.sym _ _
          (trans evt.sym (quiet m evt m.orders _) (mark_stale-Touches evt.sym _ _)))
  | inr free ↦
      rw (free, replace_order)
        (trans evt.sym
          (aside evt.sym _ _ (level_remove-Touches evt.sym m o.side o.price o.qty true))
          (level_add-Touches evt.sym _ _ _ _))
]

apply_replace-Touches :
    (m : OrderBookModel) (evt : BookEvt) → Touches evt.sym m (apply_replace m evt)
unfolding apply_replace
apply_replace-Touches m evt = elim (Option-cases (lookup evt.order_ref m.orders)) [
  | inl unknown ↦
      rw (unknown, apply_replace)
        (trans evt.sym (quiet m evt m.orders _) (mark_stale-Touches evt.sym _ _))
  | inr (o, live) ↦
      rw (live, apply_replace) (trans evt.sym (quiet m evt _ _) (replace_order-Touches _ evt o))
]

apply_op-Touches :
    (op : BookOp) (m : OrderBookModel) (evt : BookEvt) → Touches evt.sym m (apply_op op m evt)
unfolding apply_op
apply_op-Touches BookOp.clear m evt = apply_clear-Touches m evt
apply_op-Touches BookOp.add m evt = apply_add-Touches m evt
apply_op-Touches BookOp.execute m evt = apply_reduce-Touches m evt true
apply_op-Touches BookOp.cancel m evt = apply_reduce-Touches m evt false
apply_op-Touches BookOp.delete m evt = apply_delete-Touches m evt
apply_op-Touches BookOp.replace m evt = apply_replace-Touches m evt
apply_op-Touches BookOp.nop m evt =
    trans evt.sym (quiet m evt m.orders _) (update_last_price-Touches evt.sym _ evt none)

-- An event of any kind changes no book but that of its own symbol, leaves that book stale if it
-- was stale, and keeps the symbol that the book is named by.
pub apply-Touches : (m : OrderBookModel) (evt : BookEvt) → Touches evt.sym m (apply m evt).0
unfolding apply book_for observe publish
apply-Touches m evt =
    trans evt.sym
      (trans evt.sym (put_book-Touches evt.sym m (book_of m evt.sym) (λ h. h) refl)
        (apply_op-Touches evt.op _ evt))
      (trans evt.sym (quiet _ evt _ _) (put_book-Touches evt.sym _ _ (λ h. h) refl))

-- `clear_stale` clears one symbol: its stale bit and its reasons go, no other book changes.
pub clear_stale_lem :
    (m : OrderBookModel) (place s : ℕ)
    → (lookup s (clear_stale m place).books ≡ (
        if s == place
        then some (record (book_of m place) { stale = false; stale_reasons = [] })
        else lookup s m.books))
unfolding clear_stale
clear_stale_lem m place s =
    lookup-insert s place (record (book_of m place) { stale = false; stale_reasons = [] }) m.books

-- Whatever run of events follows, a stale book stays stale.
unfoldable pub run : OrderBookModel → List BookEvt → OrderBookModel
run m [] = m
run m (evt ∷ evts) = run (apply m evt).0 evts

pub book_of-Touches :
    (m m' : OrderBookModel) (place s : ℕ)
    → Touches place m m'
    → (book_of m s).stale ≡ true
    → (book_of m' s).stale ≡ true
book_of-Touches m m' place s t h = elim (Bool-cases (s == place)) [
  | inl same ↦ ground (arith, t.sticky)
  | inr other ↦ ground (arith, t.others s)
]

-- A symbol that is stale before a run of events, of whatever symbols and kinds, is stale after it:
-- no event clears the bit.
pub run_sticky :
    (m : OrderBookModel) (evts : List BookEvt) (s : ℕ)
    → (book_of m s).stale ≡ true
    → (book_of (run m evts) s).stale ≡ true
unfolding run
run_sticky m [] s h = h
run_sticky m (evt ∷ evts) s h =
    run_sticky (apply m evt).0 evts s (book_of-Touches m _ evt.sym s (apply-Touches m evt) h)
