-- ===== src/Book/Consistency/Replace.antt =====
-- A replace takes the original out and puts the new order in, or puts the original back.
use fpga_algotrading.Prelude.{ℕ, ◌≡◌, sym, ◌∙◌, ap, inl, inr, some, arith, Option-cases}
use mathlib.Core.Path.{ap₂}
use fpga_algotrading.Dict.{
  lookup, insert, erase, sum_of, insert-IsDistinct, erase-IsDistinct, sum-insert_new, sum-erase,
  lookup-erase_self,
}
use fpga_algotrading.Contract.{BookEvt}
use fpga_algotrading.Book.State.{LiveOrder, OrderBookModel, mark_stale}
use fpga_algotrading.Book.Apply.{without_order, replace_order, apply_replace}
use fpga_algotrading.Book.Aggregate.{share, one, level_of, IsConsistent}
use fpga_algotrading.Book.Frame.{orders-level_remove}
use fpga_algotrading.Book.Consistency.Quiet.{recount-IsConsistent, mark_stale-IsConsistent}
use fpga_algotrading.Book.Consistency.Steps.{level_add-IsConsistent, remove_order-Sound}

-- An order that was popped and put back.
put_back-IsConsistent :
    (m : OrderBookModel) (ref : ℕ) (o : LiveOrder)
    → lookup ref m.orders ≡ some o
    → IsConsistent m
    → IsConsistent (record m { orders = insert ref o (erase ref m.orders) })
put_back-IsConsistent m ref o live h = record {
  distinct =
      insert-IsDistinct ref o (erase ref m.orders) (erase-IsDistinct ref m.orders h.distinct);
  agrees = λ s sd p.
      h.agrees s sd p ∙ sym (ap₂ level_of (same_sum (share s sd p)) (same_sum (one s sd p)));
}
  where
    same_sum :
        (w : LiveOrder → ℕ) → sum_of w (insert ref o (erase ref m.orders)) ≡ sum_of w m.orders
    same_sum w = omega (
      arith,
      sum-insert_new w ref o (erase ref m.orders) (lookup-erase_self ref m.orders),
      sum-erase w ref o m.orders h.distinct live,
    )

replace_order-IsConsistent :
    (m : OrderBookModel) (evt : BookEvt) (o : LiveOrder)
    → lookup evt.order_ref m.orders ≡ some o
    → o.sym ≡ evt.sym
    → IsConsistent m
    → IsConsistent (replace_order (without_order m evt.order_ref) evt o)
unfolding replace_order mark_stale
replace_order-IsConsistent m evt o live own h =
    elim (Option-cases (lookup evt.new_order_ref (erase evt.order_ref m.orders))) [
      | inl free ↦
          rw (free, ← own)
            (level_add-IsConsistent _ evt.new_order_ref _
              (ap (lookup evt.new_order_ref)
                  (orders-level_remove (without_order m evt.order_ref) o.sym o.side o.price o.qty _)
                ∙ free)
              (remove_order-Sound m evt.order_ref o live h).0)
      | inr (other, taken) ↦ rw taken (
          put_back-IsConsistent _ evt.order_ref o live
            (mark_stale-IsConsistent _ evt.sym _ (recount-IsConsistent m _ h)))
    ]

pub apply_replace-IsConsistent :
    (m : OrderBookModel) (evt : BookEvt)
    → ((o : LiveOrder) → lookup evt.order_ref m.orders ≡ some o → o.sym ≡ evt.sym)
    → IsConsistent m
    → IsConsistent (apply_replace m evt)
unfolding apply_replace
apply_replace-IsConsistent m evt own h = elim (Option-cases (lookup evt.order_ref m.orders)) [
  | inl unknown ↦
      rw (unknown, apply_replace) (mark_stale-IsConsistent _ _ _ (recount-IsConsistent m _ h))
  | inr (o, live) ↦
      rw (live, apply_replace)
        (replace_order-IsConsistent _ evt o live (own o live) (recount-IsConsistent m _ h))
]
