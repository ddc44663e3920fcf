-- ===== src/GoldenBook/Twin.antt =====
-- host/pymodel/book.py beside tb/common/golden_book.py: the two books, driven by the same events.
pub mod Orders
pub mod Sums
pub mod Tops
pub mod Agree
use fpga_algotrading.Prelude.{ℕ, ◌≡◌, ◌≢◌, Bool, true, false, Option, none, some, []}
use fpga_algotrading.Dict.{Dict, lookup, erase}
use fpga_algotrading.Contract.{Side, BookOp, BookEvt}
use fpga_algotrading.Book.State.{LiveOrder, OrderBookModel}
use fpga_algotrading.Book.Consistency.{Addressed}
use fpga_algotrading.GoldenBook.State.{Order, GoldenBook, add, remove, reduce, execute, clear}
use fpga_algotrading.GoldenBook.Apply.{replace}

-- The order that an addition names.
abbrev pub order_of : BookEvt → Order
order_of evt = record {
  ref = evt.order_ref;
  locate = evt.locate;
  side = evt.side;
  price = evt.price;
  shares = evt.qty;
  stock = [];
}

-- The operation of the reference book for an event of the golden model.
unfoldable pub golden_step : BookOp → GoldenBook → BookEvt → GoldenBook
golden_step BookOp.clear g evt = clear g (some evt.locate)
golden_step BookOp.add g evt = add g (order_of evt)
golden_step BookOp.execute g evt =
    execute g evt.locate evt.order_ref evt.qty evt.printable (some evt.price)
golden_step BookOp.cancel g evt = reduce g evt.locate evt.order_ref evt.qty
golden_step BookOp.delete g evt = remove g evt.order_ref
golden_step BookOp.replace g evt = replace g evt.order_ref evt.new_order_ref evt.qty evt.price
golden_step BookOp.nop g evt = g

-- Where an order rests, and with how many shares.
abbrev pub View : Type 0
View = ℕ × Side × ℕ × ℕ

abbrev pub view_live : LiveOrder → View
view_live o = (o.sym, o.side, o.price, o.qty)

-- The same for an order of the reference book, whose locate stands for a symbol.
abbrev pub view_order : (ℕ → ℕ) → Order → View
view_order sym_of o = (sym_of o.locate, o.side, o.price, o.shares)

abbrev pub viewed : {A : Type 0} → (A → View) → Option A → Option View
viewed f none = none
viewed f (some a) = some (f a)

-- The two order maps hold the same.
abbrev pub SameOrders : (ℕ → ℕ) → Dict LiveOrder → Dict Order → Type 0
SameOrders sym_of d d' =
    (ref : ℕ) → viewed view_live (lookup ref d) ≡ viewed (view_order sym_of) (lookup ref d')

-- What the feed promises of an event: new orders are of new references, a replacement holds shares,
-- an order that is named is of the event's symbol, and the symbol is that of the locate.
pub record IsProperEvt (sym_of : ℕ → ℕ) (m : OrderBookModel) (evt : BookEvt) : Type 0 where
  pub own : Addressed m evt
  pub place : evt.sym ≡ sym_of evt.locate
  pub new_add : evt.op ≡ BookOp.add → lookup evt.order_ref m.orders ≡ none
  pub new_replace :
      evt.op ≡ BookOp.replace → lookup evt.new_order_ref (erase evt.order_ref m.orders) ≡ none
  pub held : evt.op ≡ BookOp.replace → evt.qty ≢ 0

-- Different locates are of different symbols.
abbrev pub IsOneToOne : (ℕ → ℕ) → Type 0
IsOneToOne f = (a b : ℕ) → f a ≡ f b → a ≡ b
