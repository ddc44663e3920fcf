-- ===== src/Book/Consistency/Quiet.antt =====
-- What touches neither an order nor a level keeps the agreement.
use fpga_algotrading.Prelude.{
  ℕ, ◌≡◌, refl, ◌∙◌, ap, Bool, true, false, Option, ◌==◌, arith, if◌then◌else◌, or_else,
}
use fpga_algotrading.Dict.{lookup}
use fpga_algotrading.Contract.{Side, BookEvt}
use fpga_algotrading.Book.State.{
  SymbolBook, Reason, BookCounters, OrderBookModel, book_of, side_levels, put_book, book_for,
  mark_stale,
}
use fpga_algotrading.Book.Levels.{update_last_price}
use fpga_algotrading.Book.Top.{observe, publish}
use fpga_algotrading.Book.Aggregate.{level_at, IsConsistent}
use fpga_algotrading.Book.Frame.{level_at-put_book, level_at-mark_stale}

pub recount-IsConsistent :
    (m : OrderBookModel) (c : BookCounters)
    → IsConsistent m
    → IsConsistent (record m { counters = c })
recount-IsConsistent m c h = record { distinct = h.distinct; agrees = h.agrees }

pub mark_stale-IsConsistent :
    (m : OrderBookModel) (sym : ℕ) (reason : Reason)
    → IsConsistent m
    → IsConsistent (mark_stale m sym reason)
unfolding mark_stale
mark_stale-IsConsistent m sym reason h = record {
  distinct = h.distinct;
  agrees = λ s sd p. level_at-mark_stale m sym reason s sd p ∙ h.agrees s sd p;
}

same_levels :
    (b c : SymbolBook) (sd : Side) (p : ℕ)
    → b.bids ≡ c.bids
    → b.asks ≡ c.asks
    → lookup p (side_levels b sd) ≡ lookup p (side_levels c sd)
same_levels b c Side.buy p hb ha = ap (lookup p) hb
same_levels b c Side.sell p hb ha = ap (lookup p) ha

-- A write to a book that leaves its two dicts alone.
level_at-put_book_same :
    (m : OrderBookModel) (place : ℕ) (b : SymbolBook) (s : ℕ) (sd : Side) (p : ℕ)
    → b.bids ≡ (book_of m place).bids
    → b.asks ≡ (book_of m place).asks
    → level_at (put_book m place b) s sd p ≡ level_at m s sd p
level_at-put_book_same m place b s sd p hb ha =
    level_at-put_book m place b s sd p ∙ ground (arith, same_levels b (book_of m place) sd p hb ha)

pub put_book-IsConsistent :
    (m : OrderBookModel) (sym : ℕ) (b : SymbolBook)
    → b.bids ≡ (book_of m sym).bids
    → b.asks ≡ (book_of m sym).asks
    → IsConsistent m
    → IsConsistent (put_book m sym b)
put_book-IsConsistent m sym b hb ha h = record {
  distinct = h.distinct;
  agrees = λ s sd p. level_at-put_book_same m sym b s sd p hb ha ∙ h.agrees s sd p;
}

pub book_for-IsConsistent :
    (m : OrderBookModel) (sym : ℕ) → IsConsistent m → IsConsistent (book_for m sym)
unfolding book_for
book_for-IsConsistent m sym h = put_book-IsConsistent m sym (book_of m sym) refl refl h

pub update_last_price-IsConsistent :
    (m : OrderBookModel) (sym : ℕ) (evt : BookEvt) (fallback : Option ℕ)
    → IsConsistent m
    → IsConsistent (update_last_price m sym evt fallback)
unfolding update_last_price
update_last_price-IsConsistent m sym evt fallback h =
    let price : ℕ = if evt.price == 0 then or_else fallback 0 else evt.price in
    if_keeps evt.printable _ _
      (if_keeps (price == 0) _ _ h
        (put_book-IsConsistent m sym (record (book_of m sym) { last_px = price }) refl refl h))
      h
  where
    if_keeps :
        (b : Bool) (x y : OrderBookModel)
        → IsConsistent x
        → IsConsistent y
        → IsConsistent (if b then x else y)
    if_keeps true x y hx hy = hx
    if_keeps false x y hx hy = hy

pub observe-IsConsistent :
    (m : OrderBookModel) (sym : ℕ) → IsConsistent m → IsConsistent (observe m sym)
unfolding observe
observe-IsConsistent m sym h = recount-IsConsistent m _ h

pub publish-IsConsistent :
    (m : OrderBookModel) (sym : ℕ) (evt : BookEvt)
    → IsConsistent m
    → IsConsistent (publish m sym evt).0
unfolding publish
publish-IsConsistent m sym evt h = put_book-IsConsistent m sym _ refl refl h
