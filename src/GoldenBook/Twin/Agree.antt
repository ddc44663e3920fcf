-- ===== src/GoldenBook/Twin/Agree.antt =====
-- The two books over every run of proper events.
use mathlib.Core.Path.{subst, ap₂}
use fpga_algotrading.Prelude.{
  ℕ, ◌≡◌, refl, sym, ap, ◌∙◌, Bool, true, false, Option, none, some, ◌&&◌, leb, or_else, is_some,
}
use fpga_algotrading.Dict.{Dict, lookup, erase}
use fpga_algotrading.Contract.{Side, BookOp, BookEvt, BookTop}
use fpga_algotrading.Book.State.{OrderBookModel, init}
use fpga_algotrading.Book.Top.{publish, apply}
use fpga_algotrading.Book.Aggregate.{IsConsistent}
use fpga_algotrading.Book.Consistency.{refers, apply-IsConsistent, init-IsConsistent}
use fpga_algotrading.Book.Orders.{orders-apply}
use fpga_algotrading.Book.Best.{quote, OrdersBest, apply-OrdersBest}
use fpga_algotrading.GoldenBook.State.{BookConfig, Order, GoldenBook, new_book}
use fpga_algotrading.GoldenBook.Query.{TopOfBook, positive, best_of, top_of_book}
use fpga_algotrading.GoldenBook.Laws.{side_levels}
use fpga_algotrading.GoldenBook.Agreement.{
  IsSound, add-IsSound, remove-IsSound, reduce-IsSound, execute-IsSound,
}
use fpga_algotrading.GoldenBook.Messages.{replace-IsSound, clear-IsSound, Reach, Reach-IsSound}
use fpga_algotrading.GoldenBook.Audit.{lookup-positive}
use fpga_algotrading.GoldenBook.Twin.{
  order_of, golden_step, view_live, view_order, viewed, SameOrders, IsProperEvt, IsOneToOne,
}
use fpga_algotrading.GoldenBook.Twin.Sums.{viewed-none, viewed-some}
use fpga_algotrading.GoldenBook.Twin.Orders.{step-SameOrders, SameOrders-erase}
use fpga_algotrading.GoldenBook.Twin.Tops.{IsBestOf, best_of-IsBestOf, best_same}

-- Both books are in agreement with themselves, and hold the same orders.
pub record AreTwins (sym_of : ℕ → ℕ) (m : OrderBookModel) (g : GoldenBook) : Type 0 where
  pub consistent : IsConsistent m
  pub sound : IsSound g
  pub same : SameOrders sym_of m.orders g.orders

module _ (sym_of : ℕ → ℕ) (one_to_one : IsOneToOne sym_of) (m : OrderBookModel) (g : GoldenBook)
    (evt : BookEvt) (proper : IsProperEvt sym_of m evt) (twins : AreTwins sym_of m g) where
  absent_too : (ref : ℕ) → lookup ref m.orders ≡ none → lookup ref g.orders ≡ none
  absent_too ref absent =
      viewed-none (view_order sym_of) _ (sym (twins.same ref) ∙ ap (viewed view_live) absent)

  own_too :
      refers evt.op ≡ true
      → (o' : Order) → lookup evt.order_ref g.orders ≡ some o'
      → o'.locate ≡ evt.locate
  own_too names o' found' =
      let (o, found, e) =
        viewed-some view_live (lookup evt.order_ref m.orders) (view_order sym_of o')
          (twins.same evt.order_ref ∙ ap (viewed (view_order sym_of)) found') in
      one_to_one o'.locate evt.locate
        (sym (ap (λ v. v.0) e) ∙ proper.own names o found ∙ proper.place)

  new_too : evt.op ≡ BookOp.replace → lookup evt.new_order_ref (erase evt.order_ref g.orders) ≡ none
  new_too e = viewed-none (view_order sym_of) _ (
      sym (
        SameOrders-erase sym_of one_to_one evt.order_ref m.orders g.orders twins.same
          evt.new_order_ref)
      ∙ ap (viewed view_live) (proper.new_replace e))

  step-IsSound : (op : BookOp) → evt.op ≡ op → IsSound (golden_step op g evt)
  unfolding golden_step
  step-IsSound BookOp.clear e = clear-IsSound g evt.locate twins.sound
  step-IsSound BookOp.add e =
      add-IsSound g (order_of evt) (λ _. absent_too evt.order_ref (proper.new_add e)) twins.sound
  step-IsSound BookOp.execute e =
      execute-IsSound g evt.locate evt.order_ref evt.qty evt.printable (some evt.price)
        (own_too (rw e refl)) twins.sound
  step-IsSound BookOp.cancel e =
      reduce-IsSound g evt.locate evt.order_ref evt.qty (own_too (rw e refl)) twins.sound
  step-IsSound BookOp.delete e = remove-IsSound g evt.order_ref twins.sound
  step-IsSound BookOp.replace e =
      replace-IsSound g evt.order_ref evt.new_order_ref evt.qty evt.price (new_too e) twins.sound
  step-IsSound BookOp.nop e = twins.sound

  step-AreTwins : AreTwins sym_of (apply m evt).0 (golden_step evt.op g evt)
  step-AreTwins = record {
    consistent = apply-IsConsistent m evt proper.own twins.consistent;
    sound = step-IsSound evt.op refl;
    same =
        subst (λ d. SameOrders sym_of d (golden_step evt.op g evt).orders)
          (sym (orders-apply m evt))
          (step-SameOrders sym_of one_to_one m g evt proper twins.consistent.distinct
            twins.sound.distinct twins.same evt.op refl);
  }

IsBestOf-same :
    (side : Side) (d d' : Dict ℕ) (b : Option (ℕ × ℕ))
    → ((p : ℕ) → lookup p d ≡ lookup p d')
    → IsBestOf side d b
    → IsBestOf side d' b
IsBestOf-same side d d' none same h = λ p. sym (same p) ∙ h p
IsBestOf-same side d d' (some (px, qty)) same h =
    (sym (same px) ∙ h.0, λ p q found. h.1 p q (same p ∙ found))

-- The best of the positive entries of a side is the best entry of the side.
best_of-positive :
    (g : GoldenBook) (locate : ℕ) (side : Side)
    → IsSound g
    → IsBestOf side
        (side_levels g.levels locate side)
        (best_of side (positive (side_levels g.levels locate side)))
best_of-positive g locate side h =
    IsBestOf-same side (positive (side_levels g.levels locate side))
      (side_levels g.levels locate side) _ (λ p. lookup-positive g.levels locate side p h.tidy)
      (best_of-IsBestOf side (positive (side_levels g.levels locate side)))

quote_of_best :
    (b : Option (ℕ × ℕ)) → quote (is_some b) (or_else b (0, 0)).0 (or_else b (0, 0)).1 ≡ b
quote_of_best none = refl
quote_of_best (some b) = refl

-- A book is crossed by its two quotes.
crossed_by : Option (ℕ × ℕ) → Option (ℕ × ℕ) → Bool
crossed_by none a = false
crossed_by (some b) none = false
crossed_by (some b) (some a) = leb a.0 b.0

crossed_by-quote :
    (bv av : Bool) (bp bq ap aq : ℕ)
    → (bv && av && leb ap bp) ≡ crossed_by (quote bv bp bq) (quote av ap aq)
unfolding crossed_by
crossed_by-quote true true bp bq ap aq = refl
crossed_by-quote true false bp bq ap aq = refl
crossed_by-quote false av bp bq ap aq = refl

-- The two tops agree: the same best bid and ask with the same shares, or none, and crossed alike.
pub record SameTop (t : BookTop) (u : TopOfBook) : Type 0 where
  pub bid : quote t.bid_valid t.bid_px t.bid_qty ≡ quote u.bid_valid u.bid_px u.bid_qty
  pub ask : quote t.ask_valid t.ask_px t.ask_qty ≡ quote u.ask_valid u.ask_px u.ask_qty
  pub crossed : t.crossed ≡ u.crossed

-- The states that a run of proper events reaches from two new books.
pub data Run (sym_of : ℕ → ℕ) (cfg : BookConfig) : OrderBookModel → GoldenBook → Type 0 where
  start : Run sym_of cfg init (new_book cfg)
  next :
      {m : OrderBookModel} {g : GoldenBook}
      → Run sym_of cfg m g
      → (evt : BookEvt) → IsProperEvt sym_of m evt
      → Run sym_of cfg (apply m evt).0 (golden_step evt.op g evt)

pub Run-AreTwins :
    {sym_of : ℕ → ℕ} {cfg : BookConfig} {m : OrderBookModel} {g : GoldenBook}
    → IsOneToOne sym_of
    → Run sym_of cfg m g
    → AreTwins sym_of m g
Run-AreTwins {cfg = cfg} one start = record {
  consistent = init-IsConsistent;
  sound = (let r : Reach cfg (new_book cfg) = Reach.start in Reach-IsSound r);
  same = λ ref. refl;
}
Run-AreTwins {sym_of} one (next {m} {g} r evt proper) =
    step-AreTwins sym_of one m g evt proper (Run-AreTwins one r)

tops_agree :
    (sym_of : ℕ → ℕ) (m : OrderBookModel) (g : GoldenBook) (evt : BookEvt)
    → IsOneToOne sym_of
    → IsProperEvt sym_of m evt
    → AreTwins sym_of m g
    → SameTop (apply m evt).1 (top_of_book (golden_step evt.op g evt) evt.locate)
unfolding top_of_book apply publish
tops_agree sym_of m g evt one proper twins =
    let g' = golden_step evt.op g evt in
    let t = (apply m evt).1 in
    let after = step-AreTwins sym_of one m g evt proper twins in
    let (bids, asks) = apply-OrdersBest m evt proper.own twins.consistent in
    let quoted : (side : Side) (b : Option (ℕ × ℕ))
        → OrdersBest (apply m evt).0.orders evt.sym side b
        → b ≡ best_of side (positive (side_levels g'.levels evt.locate side)) =
      λ side b best.
        best_same sym_of one (apply m evt).0 g' after.consistent.distinct after.sound after.same
          evt.locate side b _
          (subst (λ s. OrdersBest (apply m evt).0.orders s side b) proper.place best)
          (best_of-positive g' evt.locate side after.sound) in
    let bid = quoted Side.buy _ bids ∙ sym (quote_of_best _) in
    let ask = quoted Side.sell _ asks ∙ sym (quote_of_best _) in
    record {
      bid = bid;
      ask = ask;
      crossed =
          crossed_by-quote t.bid_valid t.ask_valid t.bid_px t.bid_qty t.ask_px t.ask_qty
          ∙ ap₂ crossed_by bid ask
          ∙ sym (crossed_by-quote _ _ _ _ _ _);
    }

-- The two books agree. From two new books, driven by the same proper events, in any order and of
-- any symbols, each event makes both publish the same best bid and ask with the same shares, or
-- none, and crossed alike; and their order maps hold the same orders.
pub books_agree :
    (sym_of : ℕ → ℕ) (cfg : BookConfig) (m : OrderBookModel) (g : GoldenBook) (evt : BookEvt)
    → IsOneToOne sym_of
    → Run sym_of cfg m g
    → IsProperEvt sym_of m evt
    → SameTop (apply m evt).1 (top_of_book (golden_step evt.op g evt) evt.locate)
      × SameOrders sym_of (apply m evt).0.orders (golden_step evt.op g evt).orders
books_agree sym_of cfg m g evt one run proper =
    let twins = Run-AreTwins one run in
    (
      tops_agree sym_of m g evt one proper twins,
      (step-AreTwins sym_of one m g evt proper twins).same,
    )
