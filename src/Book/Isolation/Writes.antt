-- ===== src/Book/Isolation/Writes.antt =====
-- What the level arithmetic can touch: one book only, and never its stale bit back to false.
use fpga_algotrading.Prelude.{
  ℕ, ◌≡◌, ◌≢◌, refl, ◌∙◌, inl, inr, Bool, true, false, Option, arith, Option-cases, if◌then◌else◌,
}
use fpga_algotrading.Dict.{Dict, lookup, lookup-insert}
use fpga_algotrading.Contract.{Side, BookEvt}
use fpga_algotrading.Book.State.{
  LiveOrder, Level, SymbolBook, BookCounters, side_levels, staled, Reason, OrderBookModel, book_of,
  put_book, mark_stale,
}
use fpga_algotrading.Book.Levels.{
  put_levels, level_add, negative_attempt, settle_level, level_take, level_remove,
  update_last_price,
}

-- From `m` to `m'` only the book of `place` may change, and it stays stale if it was.
pub record Touches (place : ℕ) (m m' : OrderBookModel) : Type 0 where
  pub others : (s : ℕ) → s ≢ place → lookup s m'.books ≡ lookup s m.books
  pub sticky : (book_of m place).stale ≡ true → (book_of m' place).stale ≡ true
  pub named : (book_of m' place).sym ≡ (book_of m place).sym

module _ (place : ℕ) where
  pub same_books : (m m' : OrderBookModel) → m'.books ≡ m.books → Touches place m m'
  same_books m m' e = record {
    others = λ s ne. ground arith;
    sticky = λ h. ground arith;
    named = ground arith;
  }

  pub trans :
      {m m' m'' : OrderBookModel} → Touches place m m' → Touches place m' m'' → Touches place m m''
  trans a b = record {
    others = λ s ne. b.others s ne ∙ a.others s ne;
    sticky = λ h. b.sticky (a.sticky h);
    named = b.named ∙ a.named;
  }

  pub put_book-Touches :
      (m : OrderBookModel) (b : SymbolBook)
      → ((book_of m place).stale ≡ true → b.stale ≡ true)
      → b.sym ≡ (book_of m place).sym
      → Touches place m (put_book m place b)
  put_book-Touches m b stale named = record {
    others = λ s ne. ground (arith, lookup-insert s place b m.books);
    sticky = λ h. ground (arith, lookup-insert place place b m.books, stale h);
    named = ground (arith, lookup-insert place place b m.books);
  }

  pub aside :
      {m m' : OrderBookModel} (orders : Dict LiveOrder) (c : BookCounters)
      → Touches place m m'
      → Touches place m (record m' { orders = orders; counters = c })
  aside orders c t = record { others = t.others; sticky = t.sticky; named = t.named }

  pub mark_stale-Touches :
      (m : OrderBookModel) (reason : Reason) → Touches place m (mark_stale m place reason)
  unfolding mark_stale
  mark_stale-Touches m reason =
      aside m.orders _ (put_book-Touches m (staled reason (book_of m place)) (λ _. refl) refl)

  put_levels-Touches :
      (m : OrderBookModel) (side : Side) (levels : Dict Level)
      → Touches place m (put_levels m place side levels)
  put_levels-Touches m Side.buy levels = put_book-Touches m _ (λ h. h) refl
  put_levels-Touches m Side.sell levels = put_book-Touches m _ (λ h. h) refl

  pub level_add-Touches :
      (m : OrderBookModel) (side : Side) (price qty : ℕ)
      → Touches place m (level_add m place side price qty)
  unfolding level_add
  level_add-Touches m side price qty = put_levels-Touches m side _

  pub negative_attempt-Touches :
      (m : OrderBookModel) (reason : Reason) → Touches place m (negative_attempt m place reason)
  unfolding negative_attempt
  negative_attempt-Touches m reason =
      trans (aside m.orders _ (same_books m m refl)) (mark_stale-Touches _ reason)

  pub if-Touches :
      (m : OrderBookModel) (b : Bool) (x y : OrderBookModel)
      → Touches place m x
      → Touches place m y
      → Touches place m (if b then x else y)
  if-Touches m true x y tx ty = tx
  if-Touches m false x y tx ty = ty

  settle_level-Touches :
      (m : OrderBookModel) (side : Side) (price : ℕ) (l : Level)
      → Touches place m (settle_level m place side price l)
  unfolding settle_level
  settle_level-Touches m side price l =
      if-Touches m _ _ _
        (trans (if-Touches m _ _ _ (negative_attempt-Touches m _) (same_books m m refl))
          (put_levels-Touches _ side _))
        (put_levels-Touches m side _)

  level_take-Touches :
      (m : OrderBookModel) (side : Side) (price qty : ℕ) (gone : Bool) (l : Level)
      → Touches place m (level_take m place side price qty gone l)
  unfolding level_take
  level_take-Touches m side price qty gone l =
      trans (if-Touches m _ _ _ (negative_attempt-Touches m _) (same_books m m refl))
        (settle_level-Touches _ side price _)

  pub level_remove-Touches :
      (m : OrderBookModel) (side : Side) (price qty : ℕ) (gone : Bool)
      → Touches place m (level_remove m place side price qty gone)
  unfolding level_remove
  level_remove-Touches m side price qty gone =
      elim (Option-cases (lookup price (side_levels (book_of m place) side))) [
        | inl absent ↦ rw (absent, level_remove) (negative_attempt-Touches m _)
        | inr (l, found) ↦ rw (found, level_remove) (level_take-Touches m side price qty gone l)
      ]

  pub update_last_price-Touches :
      (m : OrderBookModel) (evt : BookEvt) (fallback : Option ℕ)
      → Touches place m (update_last_price m place evt fallback)
  unfolding update_last_price
  update_last_price-Touches m evt fallback =
      if-Touches m _ _ _
        (if-Touches m _ _ _ (same_books m m refl) (put_book-Touches m _ (λ h. h) refl))
        (same_books m m refl)
