-- ===== src/Book/Consistency/Whole.antt =====
-- The agreement over `apply`, and over every run of events.
use fpga_algotrading.Prelude.{ℕ, ◌≡◌, refl, Bool, true, false, none, some}
use fpga_algotrading.Dict.{lookup}
use fpga_algotrading.Contract.{Side, BookOp, BookEvt}
use fpga_algotrading.Book.State.{LiveOrder, OrderBookModel, init, book_for}
use fpga_algotrading.Book.Top.{apply_op, apply}
use fpga_algotrading.Book.Aggregate.{aggregate, level_at, IsConsistent}
use fpga_algotrading.Book.Consistency.Quiet.{
  recount-IsConsistent, book_for-IsConsistent, update_last_price-IsConsistent, observe-IsConsistent,
  publish-IsConsistent,
}
use fpga_algotrading.Book.Consistency.Steps.{apply_add-IsConsistent, apply_clear-IsConsistent}
use fpga_algotrading.Book.Consistency.Reduce.{apply_reduce-IsConsistent, apply_delete-IsConsistent}
use fpga_algotrading.Book.Consistency.Replace.{apply_replace-IsConsistent}

-- The operations that look an order up by its reference.
abbrev pub refers : BookOp → Bool
refers BookOp.execute = true
refers BookOp.cancel = true
refers BookOp.delete = true
refers BookOp.replace = true
refers _ = false

-- An event that refers to a live order carries the symbol of that order.
abbrev pub Addressed : OrderBookModel → BookEvt → Type 0
Addressed m evt =
    refers evt.op ≡ true
    → (o : LiveOrder) → lookup evt.order_ref m.orders ≡ some o
    → o.sym ≡ evt.sym

pub apply_op-IsConsistent :
    (op : BookOp) (m : OrderBookModel) (evt : BookEvt)
    → (refers op ≡ true
        → (o : LiveOrder) → lookup evt.order_ref m.orders ≡ some o
        → o.sym ≡ evt.sym)
    → IsConsistent m
    → IsConsistent (apply_op op m evt)
unfolding apply_op
apply_op-IsConsistent BookOp.clear m evt own h = apply_clear-IsConsistent m evt.sym h
apply_op-IsConsistent BookOp.add m evt own h = apply_add-IsConsistent m evt h
apply_op-IsConsistent BookOp.execute m evt own h = apply_reduce-IsConsistent m evt true (own refl) h
apply_op-IsConsistent BookOp.cancel m evt own h = apply_reduce-IsConsistent m evt false (own refl) h
apply_op-IsConsistent BookOp.delete m evt own h = apply_delete-IsConsistent m evt (own refl) h
apply_op-IsConsistent BookOp.replace m evt own h = apply_replace-IsConsistent m evt (own refl) h
apply_op-IsConsistent BookOp.nop m evt own h =
    update_last_price-IsConsistent _ evt.sym evt none (recount-IsConsistent m _ h)

-- Every event, whichever branch it takes, keeps the order map and the price levels in agreement:
-- each level holds the sum and the number of the live orders that rest there, and no level is kept
-- without an order. An event that refers to a live order is to carry that order's symbol.
pub apply-IsConsistent :
    (m : OrderBookModel) (evt : BookEvt)
    → Addressed m evt
    → IsConsistent m
    → IsConsistent (apply m evt).0
unfolding apply book_for
apply-IsConsistent m evt own h = publish-IsConsistent _ evt.sym evt (
    observe-IsConsistent _ evt.sym
      (apply_op-IsConsistent evt.op _ evt own (book_for-IsConsistent m evt.sym h)))

-- The states that a run of addressed events reaches from the empty book.
pub data Reach : OrderBookModel → Type 0 where
  start : Reach init
  next : {m : OrderBookModel} → Reach m → (evt : BookEvt) → Addressed m evt → Reach (apply m evt).0

pub init-IsConsistent : IsConsistent init
init-IsConsistent = record { distinct = tt; agrees = init_agrees }
  where
    init_agrees : (s : ℕ) (sd : Side) (p : ℕ) → level_at init s sd p ≡ aggregate init.orders s sd p
    init_agrees s Side.buy p = refl
    init_agrees s Side.sell p = refl

-- In every state that a run of addressed events reaches from the empty book, each price level that
-- the book keeps is the sum and the number of the live orders resting there.
pub Reach-IsConsistent : {m : OrderBookModel} → Reach m → IsConsistent m
Reach-IsConsistent start = init-IsConsistent
Reach-IsConsistent (next {m} r evt own) = apply-IsConsistent m evt own (Reach-IsConsistent r)
