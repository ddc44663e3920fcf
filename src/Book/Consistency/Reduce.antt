-- ===== src/Book/Consistency/Reduce.antt =====
-- Executions, cancels, deletes and replaces.
use fpga_algotrading.Prelude.{
  ℕ, ◌+◌, ◌-◌, ◌≤◌, ◌≡◌, inl, inr, Bool, true, false, some, ltb, ◌==◌, arith, Bool-cases,
  Option-cases,
}
use mathlib.Core.Path.{ap₂, subst}
use native.Mathlib.Nat.{le_refl}
use fpga_algotrading.Dict.{
  Dict, lookup, insert, erase, IsDistinct, insert-IsDistinct, erase-IsDistinct, sum_of,
  sum-insert_old, sum-erase, lookup-insert_self,
}
use fpga_algotrading.Contract.{Side, BookEvt}
use fpga_algotrading.Book.State.{LiveOrder, OrderBookModel, Reason, mark_stale}
use fpga_algotrading.Book.Levels.{level_remove, negative_attempt}
use fpga_algotrading.Book.Apply.{
  reduction, take_shares, reduce_order, reduce_live, apply_reduce, apply_delete,
}
use fpga_algotrading.Book.Aggregate.{share, one, level_of, IsConsistent, Sound, counted_order}
use fpga_algotrading.Book.Frame.{share_self, one_self, share_away, without_order-level_remove}
use fpga_algotrading.Book.Consistency.Shrink.{level_remove-Sound}
use fpga_algotrading.Book.Consistency.Quiet.{
  recount-IsConsistent, mark_stale-IsConsistent, update_last_price-IsConsistent,
}
use fpga_algotrading.Book.Consistency.Steps.{remove_order-Sound}

abbrev pub shrunk : LiveOrder → ℕ → LiveOrder
shrunk o delta = record o { qty = o.qty - delta }

abbrev pub shrunk_in : OrderBookModel → ℕ → LiveOrder → ℕ → Dict LiveOrder
shrunk_in m ref o delta = insert ref (shrunk o delta) m.orders

module _ (m : OrderBookModel) (ref : ℕ) (o : LiveOrder) (delta : ℕ)
    (live : lookup ref m.orders ≡ some o) (fits : delta ≤ o.qty) (h : IsConsistent m) where
  abbrev pub shrunk_orders : Dict LiveOrder
  shrunk_orders = shrunk_in m ref o delta

  -- The sums after the order has shrunk, at any place.
  shrunk-share :
      (s : ℕ) (sd : Side) (p : ℕ)
      → sum_of (share s sd p) shrunk_orders + share s sd p o
        ≡ sum_of (share s sd p) m.orders + share s sd p (shrunk o delta)
  shrunk-share s sd p = sum-insert_old (share s sd p) ref (shrunk o delta) o m.orders live

  shrunk_one :
      (s : ℕ) (sd : Side) (p : ℕ) → sum_of (one s sd p) shrunk_orders ≡ sum_of (one s sd p) m.orders
  shrunk_one s sd p =
      omega (arith, sum-insert_old (one s sd p) ref (shrunk o delta) o m.orders live)

  -- An order that has shrunk and stays.
  pub partial-Sound :
      Sound m (level_remove (record m { orders = shrunk_orders }) o.sym o.side o.price delta false)
  partial-Sound =
      level_remove-Sound m shrunk_orders o.sym o.side o.price delta false
        (h.agrees o.sym o.side o.price)
        (omega
          (arith, shrunk-share o.sym o.side o.price, share_self o, share_self (shrunk o delta)))
        (omega (arith, shrunk_one o.sym o.side o.price))
        (counted_order m.orders ref o h.distinct live).0
        (insert-IsDistinct ref (shrunk o delta) m.orders h.distinct) h.agrees
        (λ s sd p away.
          ap₂ level_of
            (omega (
              arith,
              shrunk-share s sd p,
              (share_away s sd p o away).0,
              (share_away s sd p (shrunk o delta) away).0,
            ))
            (shrunk_one s sd p))

  IsDistinct-shrunk : IsDistinct shrunk_orders
  IsDistinct-shrunk = insert-IsDistinct ref (shrunk o delta) m.orders h.distinct

  gone_sum : (w : LiveOrder → ℕ) → sum_of w (erase ref shrunk_orders) + w o ≡ sum_of w m.orders
  gone_sum w = omega (
    arith,
    sum-insert_old w ref (shrunk o delta) o m.orders live,
    sum-erase w ref (shrunk o delta) shrunk_orders IsDistinct-shrunk
        (lookup-insert_self ref (shrunk o delta) m.orders),
  )

  -- An order that has shrunk to nothing leaves the map.
  pub full-Sound :
      o.qty - delta ≡ 0
      → Sound m (
          level_remove
            (record m { orders = erase ref shrunk_orders })
            o.sym
            o.side
            o.price
            delta
            true)
  full-Sound empty =
      level_remove-Sound m (erase ref shrunk_orders) o.sym o.side o.price delta true
        (h.agrees o.sym o.side o.price)
        (omega (arith, gone_sum (share o.sym o.side o.price), share_self o))
        (omega (arith, gone_sum (one o.sym o.side o.price), one_self o))
        (counted_order m.orders ref o h.distinct live).0
        (erase-IsDistinct ref shrunk_orders IsDistinct-shrunk) h.agrees
        (λ s sd p away.
          ap₂ level_of (omega (arith, gone_sum (share s sd p), (share_away s sd p o away).0))
            (omega (arith, gone_sum (one s sd p), (share_away s sd p o away).1)))

take_shares-IsConsistent :
    (m : OrderBookModel) (evt : BookEvt) (o : LiveOrder) (delta : ℕ)
    → lookup evt.order_ref m.orders ≡ some o
    → o.sym ≡ evt.sym
    → delta ≤ o.qty
    → IsConsistent m
    → IsConsistent (take_shares m evt o delta)
unfolding take_shares
take_shares-IsConsistent m evt o delta live own fits h = elim (Bool-cases (o.qty - delta == 0)) [
  | inl gone ↦
      rw (gone, ← own)
        (recount-IsConsistent _ _ (
          subst IsConsistent
            (without_order-level_remove (record m { orders = shrunk_in m evt.order_ref o delta })
              evt.order_ref o.sym o.side o.price delta true)
            (full-Sound m evt.order_ref o delta live fits h (ground arith)).0))
  | inr kept ↦ rw (kept, ← own) (partial-Sound m evt.order_ref o delta live fits h).0
]

reduce_order-IsConsistent :
    (m : OrderBookModel) (evt : BookEvt) (executed : Bool) (o : LiveOrder) (delta : ℕ)
    → lookup evt.order_ref m.orders ≡ some o
    → o.sym ≡ evt.sym
    → delta ≤ o.qty
    → IsConsistent m
    → IsConsistent (reduce_order m evt executed o delta)
unfolding reduce_order
reduce_order-IsConsistent m evt true o delta live own fits h =
    update_last_price-IsConsistent _ _ _ _ (take_shares-IsConsistent m evt o delta live own fits h)
reduce_order-IsConsistent m evt false o delta live own fits h =
    take_shares-IsConsistent m evt o delta live own fits h

pub negative_attempt-IsConsistent :
    (m : OrderBookModel) (place : ℕ) (reason : Reason)
    → IsConsistent m
    → IsConsistent (negative_attempt m place reason)
unfolding negative_attempt
negative_attempt-IsConsistent m place reason h =
    mark_stale-IsConsistent _ place reason (recount-IsConsistent m _ h)

pub reduction-le : (o : LiveOrder) (qty : ℕ) → reduction o qty ≤ o.qty
reduction-le o qty = ground arith

reduce_live-IsConsistent :
    (m : OrderBookModel) (evt : BookEvt) (executed : Bool) (o : LiveOrder)
    → lookup evt.order_ref m.orders ≡ some o
    → o.sym ≡ evt.sym
    → IsConsistent m
    → IsConsistent (reduce_live m evt executed o)
unfolding reduce_live negative_attempt mark_stale
reduce_live-IsConsistent m evt executed o live own h = elim (Bool-cases (ltb o.qty evt.qty)) [
  | inl over ↦ rw over (
      reduce_order-IsConsistent _ evt executed o _ live own (le_refl _)
        (negative_attempt-IsConsistent m evt.sym _ h))
  | inr fits ↦ rw fits (reduce_order-IsConsistent m evt executed o _ live own (ground arith) h)
]

pub apply_reduce-IsConsistent :
    (m : OrderBookModel) (evt : BookEvt) (executed : Bool)
    → ((o : LiveOrder) → lookup evt.order_ref m.orders ≡ some o → o.sym ≡ evt.sym)
    → IsConsistent m
    → IsConsistent (apply_reduce m evt executed)
unfolding apply_reduce
apply_reduce-IsConsistent m evt executed own h =
    elim (Option-cases (lookup evt.order_ref m.orders)) [
      | inl unknown ↦
          rw (unknown, apply_reduce) (mark_stale-IsConsistent _ _ _ (recount-IsConsistent m _ h))
      | inr (o, live) ↦
          rw (live, apply_reduce)
            (reduce_live-IsConsistent _ evt executed o live (own o live)
              (recount-IsConsistent m _ h))
    ]

pub apply_delete-IsConsistent :
    (m : OrderBookModel) (evt : BookEvt)
    → ((o : LiveOrder) → lookup evt.order_ref m.orders ≡ some o → o.sym ≡ evt.sym)
    → IsConsistent m
    → IsConsistent (apply_delete m evt)
unfolding apply_delete
apply_delete-IsConsistent m evt own h = elim (Option-cases (lookup evt.order_ref m.orders)) [
  | inl unknown ↦
      rw (unknown, apply_delete) (mark_stale-IsConsistent _ _ _ (recount-IsConsistent m _ h))
  | inr (o, live) ↦
      rw (live, apply_delete, ← own o live)
        (remove_order-Sound _ evt.order_ref o live (recount-IsConsistent m _ h)).0
]
