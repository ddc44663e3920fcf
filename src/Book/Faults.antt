-- ===== src/Book/Faults.antt =====
-- When the self-test counter `negative_book_qty_attempts` moves.
use fpga_algotrading.Prelude.{
  ℕ, ◌+◌, ◌-◌, ◌≤◌, ◌≡◌, refl, sym, ◌∙◌, ap, inl, inr, Bool, true, false, Option, none, some, ltb,
  ◌==◌, ◌&&◌, arith, Bool-cases, Option-cases, if◌then◌else◌,
}
use native.Mathlib.Nat.{le_refl}
use fpga_algotrading.Dict.{lookup, contains, erase}
use fpga_algotrading.Contract.{BookOp, BookEvt}
use fpga_algotrading.Book.State.{
  LiveOrder, Reason, over_reduce, OrderBookModel, mark_stale, book_for,
}
use fpga_algotrading.Book.Levels.{level_add, negative_attempt, update_last_price}
use fpga_algotrading.Book.Apply.{
  apply_clear, apply_add, take_shares, reduce_order, reduce_live, apply_reduce, apply_delete,
  replace_order, apply_replace, without_order,
}
use fpga_algotrading.Book.Top.{apply_op, observe, publish, apply}
use fpga_algotrading.Book.Aggregate.{IsConsistent}
use fpga_algotrading.Book.Frame.{without_order-level_remove}
use fpga_algotrading.Book.Consistency.{
  Addressed, refers, recount-IsConsistent, book_for-IsConsistent, remove_order-Sound, partial-Sound,
  full-Sound, shrunk_in, negative_attempt-IsConsistent,
}

-- The event takes more from a live order than the order holds.
abbrev pub takes : BookOp → Bool
takes BookOp.execute = true
takes BookOp.cancel = true
takes _ = false

abbrev pub over_takes : OrderBookModel → BookEvt → Bool
over_takes m evt = elim (lookup evt.order_ref m.orders) [
  | none ↦ false
  | some o ↦ takes evt.op && ltb o.qty evt.qty
]

abbrev attempts : OrderBookModel → ℕ
attempts m = m.counters.negative_book_qty_attempts

attempts-mark_stale :
    (m : OrderBookModel) (place : ℕ) (reason : Reason)
    → attempts (mark_stale m place reason) ≡ attempts m
unfolding mark_stale
attempts-mark_stale m place reason = ground arith

attempts-update_last_price :
    (m : OrderBookModel) (place : ℕ) (evt : BookEvt) (fallback : Option ℕ)
    → attempts (update_last_price m place evt fallback) ≡ attempts m
unfolding update_last_price
attempts-update_last_price m place evt fallback = ground arith

attempts-apply_add : (m : OrderBookModel) (evt : BookEvt) → attempts (apply_add m evt) ≡ attempts m
unfolding apply_add level_add
attempts-apply_add m evt = elim (Bool-cases (contains evt.order_ref m.orders)) [
  | inl live ↦ rw (live, apply_add) (attempts-mark_stale _ evt.sym _)
  | inr new ↦ elim (Bool-cases (evt.qty == 0)) [
    | inl none_left ↦ rw (new, apply_add, none_left) (attempts-mark_stale _ evt.sym _)
    | inr some_left ↦ rw (new, apply_add, some_left) refl
  ]
]

module _ (m : OrderBookModel) (evt : BookEvt) (o : LiveOrder)
    (live : lookup evt.order_ref m.orders ≡ some o) (own : o.sym ≡ evt.sym)
    (h : IsConsistent m) where
  attempts-take_shares :
      (delta : ℕ) → delta ≤ o.qty → attempts (take_shares m evt o delta) ≡ attempts m
  unfolding take_shares
  attempts-take_shares delta fits = elim (Bool-cases (o.qty - delta == 0)) [
    | inl gone ↦
        rw (gone, take_shares, ← own)
          (ap (λ x. attempts x)
              (sym (
                without_order-level_remove (record m { orders = shrunk_in m evt.order_ref o delta })
                  evt.order_ref o.sym o.side o.price delta true))
            ∙ ap (λ c. c.negative_book_qty_attempts)
                (full-Sound m evt.order_ref o delta live fits h (ground arith)).1)
    | inr kept ↦
        rw (kept, take_shares, ← own)
          (ap (λ c. c.negative_book_qty_attempts)
            (partial-Sound m evt.order_ref o delta live fits h).1)
  ]

  attempts-reduce_order :
      (executed : Bool) (delta : ℕ)
      → delta ≤ o.qty
      → attempts (reduce_order m evt executed o delta) ≡ attempts m
  unfolding reduce_order
  attempts-reduce_order true delta fits =
      attempts-update_last_price _ evt.sym evt _ ∙ attempts-take_shares delta fits
  attempts-reduce_order false delta fits = attempts-take_shares delta fits

attempts-negative_attempt :
    (m : OrderBookModel) (place : ℕ) (reason : Reason)
    → attempts (negative_attempt m place reason) ≡ attempts m + 1
unfolding negative_attempt
attempts-negative_attempt m place reason = attempts-mark_stale _ place reason

attempts-reduce_live :
    (m : OrderBookModel) (evt : BookEvt) (executed : Bool) (o : LiveOrder)
    → lookup evt.order_ref m.orders ≡ some o
    → o.sym ≡ evt.sym
    → IsConsistent m
    → attempts (reduce_live m evt executed o) ≡ attempts m + (if ltb o.qty evt.qty then 1 else 0)
unfolding reduce_live negative_attempt mark_stale
attempts-reduce_live m evt executed o live own h = elim (Bool-cases (ltb o.qty evt.qty)) [
  | inl over ↦
      rw (over, reduce_live)
        (attempts-reduce_order _ evt o live own (negative_attempt-IsConsistent m evt.sym _ h)
            executed _ (le_refl _)
          ∙ attempts-negative_attempt m evt.sym (over_reduce evt.qty evt.order_ref o.qty))
  | inr fits ↦
      rw (fits, reduce_live)
        (attempts-reduce_order m evt o live own h executed _ (ground arith) ∙ omega arith)
]

attempts-apply_reduce :
    (m : OrderBookModel) (evt : BookEvt) (executed : Bool)
    → ((o : LiveOrder) → lookup evt.order_ref m.orders ≡ some o → o.sym ≡ evt.sym)
    → IsConsistent m
    → attempts (apply_reduce m evt executed)
      ≡ attempts m
        + (if elim (lookup evt.order_ref m.orders) [ none ↦ false | some o ↦ ltb o.qty evt.qty ]
            then 1
            else 0)
unfolding apply_reduce
attempts-apply_reduce m evt executed own h = elim (Option-cases (lookup evt.order_ref m.orders)) [
  | inl unknown ↦ rw (unknown, apply_reduce) (attempts-mark_stale _ evt.sym _ ∙ omega arith)
  | inr (o, live) ↦
      rw (live, apply_reduce)
        (attempts-reduce_live _ evt executed o live (own o live) (recount-IsConsistent m _ h))
]

attempts-apply_delete :
    (m : OrderBookModel) (evt : BookEvt)
    → ((o : LiveOrder) → lookup evt.order_ref m.orders ≡ some o → o.sym ≡ evt.sym)
    → IsConsistent m
    → attempts (apply_delete m evt) ≡ attempts m
unfolding apply_delete
attempts-apply_delete m evt own h = elim (Option-cases (lookup evt.order_ref m.orders)) [
  | inl unknown ↦ rw (unknown, apply_delete) (attempts-mark_stale _ evt.sym _)
  | inr (o, live) ↦
      rw (live, apply_delete, ← own o live)
        (ap (λ c. c.negative_book_qty_attempts)
          (remove_order-Sound _ evt.order_ref o live (recount-IsConsistent m _ h)).1)
]

attempts-replace_order :
    (m : OrderBookModel) (evt : BookEvt) (o : LiveOrder)
    → lookup evt.order_ref m.orders ≡ some o
    → o.sym ≡ evt.sym
    → IsConsistent m
    → attempts (replace_order (without_order m evt.order_ref) evt o) ≡ attempts m
unfolding replace_order level_add
attempts-replace_order m evt o live own h =
    elim (Bool-cases (contains evt.new_order_ref (erase evt.order_ref m.orders))) [
      | inl taken ↦ rw (taken, replace_order) (attempts-mark_stale _ evt.sym _)
      | inr free ↦
          rw (free, replace_order, ← own)
            (ap (λ c. c.negative_book_qty_attempts) (remove_order-Sound m evt.order_ref o live h).1)
    ]

attempts-apply_replace :
    (m : OrderBookModel) (evt : BookEvt)
    → ((o : LiveOrder) → lookup evt.order_ref m.orders ≡ some o → o.sym ≡ evt.sym)
    → IsConsistent m
    → attempts (apply_replace m evt) ≡ attempts m
unfolding apply_replace
attempts-apply_replace m evt own h = elim (Option-cases (lookup evt.order_ref m.orders)) [
  | inl unknown ↦ rw (unknown, apply_replace) (attempts-mark_stale _ evt.sym _)
  | inr (o, live) ↦
      rw (live, apply_replace)
        (attempts-replace_order _ evt o live (own o live) (recount-IsConsistent m _ h))
]

abbrev over_by : BookOp → OrderBookModel → BookEvt → Bool
over_by op m evt = elim (lookup evt.order_ref m.orders) [
  | none ↦ false
  | some o ↦ takes op && ltb o.qty evt.qty
]

no_take :
    (op : BookOp) (m : OrderBookModel) (evt : BookEvt) (n : ℕ)
    → takes op ≡ false
    → n ≡ n + (if over_by op m evt then 1 else 0)
no_take op m evt n h = ground arith

attempts-apply_op :
    (op : BookOp) (m : OrderBookModel) (evt : BookEvt)
    → (refers op ≡ true
        → (o : LiveOrder) → lookup evt.order_ref m.orders ≡ some o
        → o.sym ≡ evt.sym)
    → IsConsistent m
    → attempts (apply_op op m evt) ≡ attempts m + (if over_by op m evt then 1 else 0)
unfolding apply_op apply_clear
attempts-apply_op BookOp.clear m evt own h = no_take BookOp.clear m evt _ refl
attempts-apply_op BookOp.add m evt own h =
    attempts-apply_add m evt ∙ no_take BookOp.add m evt _ refl
attempts-apply_op BookOp.execute m evt own h = attempts-apply_reduce m evt true (own refl) h
attempts-apply_op BookOp.cancel m evt own h = attempts-apply_reduce m evt false (own refl) h
attempts-apply_op BookOp.delete m evt own h =
    attempts-apply_delete m evt (own refl) h ∙ no_take BookOp.delete m evt _ refl
attempts-apply_op BookOp.replace m evt own h =
    attempts-apply_replace m evt (own refl) h ∙ no_take BookOp.replace m evt _ refl
attempts-apply_op BookOp.nop m evt own h =
    attempts-update_last_price _ evt.sym evt none ∙ no_take BookOp.nop m evt _ refl

-- In a consistent state an addressed event adds to `negative_book_qty_attempts` exactly when it
-- executes or cancels more shares of a live order than the order holds, and then it adds one. The
-- guards on the price levels never fire.
pub attempts-apply :
    (m : OrderBookModel) (evt : BookEvt)
    → Addressed m evt
    → IsConsistent m
    → (apply m evt).0.counters.negative_book_qty_attempts
      ≡ m.counters.negative_book_qty_attempts + (if over_takes m evt then 1 else 0)
unfolding apply observe publish book_for
attempts-apply m evt own h =
    attempts-apply_op evt.op (book_for m evt.sym) evt own (book_for-IsConsistent m evt.sym h)
