-- ===== src/Book/Frame.antt =====
-- What the level arithmetic leaves alone, and what it writes where nothing is wrong.
use fpga_algotrading.Prelude.{
  ℕ, zero, suc, ◌+◌, ◌-◌, ◌≤◌, ◌≡◌, Bool, true, false, Option, some, ◌&&◌, ◌==◌, arith,
  if◌then◌else◌, or_else, refl, inl, inr, ltb, Bool-cases, Option-cases,
}
use mathlib.Core.Path.{ap, ◌∙◌, sym as symm}
use fpga_algotrading.Prelude.Int.{pos, ◌+ℤ◌, ◌-ℤ◌}
use fpga_algotrading.Dict.{Dict, lookup, insert, erase, lookup-insert}
use fpga_algotrading.Contract.{Side}
use fpga_algotrading.Book.State.{
  LiveOrder, SymbolBook, put_book, Level, empty_level, Reason, side_levels, with_levels,
  OrderBookModel, book_of, staled, mark_stale,
}
use fpga_algotrading.Book.Levels.{
  put_levels, level_add, negative_attempt, settle_level, level_take, level_remove,
}
use fpga_algotrading.Book.Apply.{without_order}
use fpga_algotrading.Book.Aggregate.{same_side, rests, share, one, level_at}

-- The same place in the book.
abbrev pub here : ℕ → Side → ℕ → ℕ → Side → ℕ → Bool
here sym side price s sd p = s == sym && same_side sd side && p == price

pub here_self : (sym : ℕ) (side : Side) (price : ℕ) → here sym side price sym side price ≡ true
here_self sym Side.buy price = ground arith
here_self sym Side.sell price = ground arith

place_self : (sym : ℕ) (side : Side) → (sym == sym && same_side side side) ≡ true
place_self sym Side.buy = ground arith
place_self sym Side.sell = ground arith

pub here-eq :
    (sym : ℕ) (side : Side) (price s : ℕ) (sd : Side) (p : ℕ)
    → here sym side price s sd p ≡ true
    → (sym ≡ s) × (side ≡ sd) × (price ≡ p)
here-eq sym Side.buy price s Side.buy p h = ground arith
here-eq sym Side.buy price s Side.sell p h = ground arith
here-eq sym Side.sell price s Side.buy p h = ground arith
here-eq sym Side.sell price s Side.sell p h = ground arith

-- Whether an order rests at a place, seen from the place or from the order.
pub here-rests :
    (s : ℕ) (sd : Side) (p : ℕ) (o : LiveOrder) → here o.sym o.side o.price s sd p ≡ rests s sd p o
here-rests s Side.buy p o = ground arith
here-rests s Side.sell p o = ground arith

pub share_self : (o : LiveOrder) → share o.sym o.side o.price o ≡ o.qty
share_self o = ground (arith, here_self o.sym o.side o.price)

pub one_self : (o : LiveOrder) → one o.sym o.side o.price o ≡ 1
one_self o = ground (arith, here_self o.sym o.side o.price)

pub share_away :
    (s : ℕ) (sd : Side) (p : ℕ) (o : LiveOrder)
    → here o.sym o.side o.price s sd p ≡ false
    → (share s sd p o ≡ 0) × (one s sd p o ≡ 0)
share_away s sd p o away = ground (arith, here-rests s sd p o)

pub level_at-put_book :
    (m : OrderBookModel) (sym : ℕ) (b : SymbolBook) (s : ℕ) (sd : Side) (p : ℕ)
    → level_at (put_book m sym b) s sd p
      ≡ (if s == sym then lookup p (side_levels b sd) else level_at m s sd p)
level_at-put_book m sym b s Side.buy p = ground (arith, lookup-insert s sym b m.books)
level_at-put_book m sym b s Side.sell p = ground (arith, lookup-insert s sym b m.books)

pub level_at-put_levels :
    (m : OrderBookModel) (sym : ℕ) (side : Side) (levels : Dict Level) (s : ℕ) (sd : Side) (p : ℕ)
    → level_at (put_levels m sym side levels) s sd p
      ≡ (if s == sym && same_side sd side then lookup p levels else level_at m s sd p)
level_at-put_levels m sym Side.buy levels s Side.buy p =
    ground (arith, lookup-insert s sym (with_levels (book_of m sym) Side.buy levels) m.books)
level_at-put_levels m sym Side.buy levels s Side.sell p =
    ground (arith, lookup-insert s sym (with_levels (book_of m sym) Side.buy levels) m.books)
level_at-put_levels m sym Side.sell levels s Side.buy p =
    ground (arith, lookup-insert s sym (with_levels (book_of m sym) Side.sell levels) m.books)
level_at-put_levels m sym Side.sell levels s Side.sell p =
    ground (arith, lookup-insert s sym (with_levels (book_of m sym) Side.sell levels) m.books)

pub level_at-put_levels_self :
    (m : OrderBookModel) (sym : ℕ) (side : Side) (levels : Dict Level) (p : ℕ)
    → level_at (put_levels m sym side levels) sym side p ≡ lookup p levels
level_at-put_levels_self m sym side levels p =
    let e = level_at-put_levels m sym side levels sym side p in rw (place_self sym side) at e

-- A write that changes the dict at one price only changes the level there only.
pub level_at-put_levels_away :
    (m : OrderBookModel) (sym : ℕ) (side : Side) (price : ℕ) (levels : Dict Level) (s : ℕ)
    (sd : Side) (p : ℕ)
    → here sym side price s sd p ≡ false
    → ((p == price) ≡ false → lookup p levels ≡ level_at m sym side p)
    → level_at (put_levels m sym side levels) s sd p ≡ level_at m s sd p
level_at-put_levels_away m sym Side.buy price levels s Side.buy p away same =
    ground (arith, level_at-put_levels m sym Side.buy levels s Side.buy p)
level_at-put_levels_away m sym Side.buy price levels s Side.sell p away same =
    ground (arith, level_at-put_levels m sym Side.buy levels s Side.sell p)
level_at-put_levels_away m sym Side.sell price levels s Side.buy p away same =
    ground (arith, level_at-put_levels m sym Side.sell levels s Side.buy p)
level_at-put_levels_away m sym Side.sell price levels s Side.sell p away same =
    ground (arith, level_at-put_levels m sym Side.sell levels s Side.sell p)

pub level_at-mark_stale :
    (m : OrderBookModel) (sym : ℕ) (reason : Reason) (s : ℕ) (sd : Side) (p : ℕ)
    → level_at (mark_stale m sym reason) s sd p ≡ level_at m s sd p
unfolding mark_stale
level_at-mark_stale m sym reason s Side.buy p =
    ground (arith, lookup-insert s sym (staled reason (book_of m sym)) m.books)
level_at-mark_stale m sym reason s Side.sell p =
    ground (arith, lookup-insert s sym (staled reason (book_of m sym)) m.books)

abbrev pub grown : ℕ → Option Level → Level
grown qty l = record {
  qty = (or_else l empty_level).qty + qty;
  order_count = (or_else l empty_level).order_count +ℤ pos 1;
}

pub level_at-level_add :
    (m : OrderBookModel) (sym : ℕ) (side : Side) (price qty : ℕ) (s : ℕ) (sd : Side) (p : ℕ)
    → level_at (level_add m sym side price qty) s sd p ≡ (
        if here sym side price s sd p
        then some (grown qty (level_at m sym side price))
        else level_at m s sd p)
unfolding level_add
level_at-level_add m sym side price qty s sd p =
    let levels = side_levels (book_of m sym) side in
    let level = grown qty (level_at m sym side price) in
    ground (
      arith,
      level_at-put_levels m sym side (insert price level levels) s sd p,
      lookup-insert p price level levels,
    )

pub level_at-level_add_self :
    (m : OrderBookModel) (sym : ℕ) (side : Side) (price qty : ℕ)
    → level_at (level_add m sym side price qty) sym side price
      ≡ some (grown qty (level_at m sym side price))
level_at-level_add_self m sym side price qty =
    let e = level_at-level_add m sym side price qty sym side price in
    rw (here_self sym side price) at e

pub level_at-level_add_away :
    (m : OrderBookModel) (sym : ℕ) (side : Side) (price qty : ℕ) (s : ℕ) (sd : Side) (p : ℕ)
    → here sym side price s sd p ≡ false
    → level_at (level_add m sym side price qty) s sd p ≡ level_at m s sd p
level_at-level_add_away m sym side price qty s sd p away =
    let e = level_at-level_add m sym side price qty s sd p in rw away at e

-- Where the level holds what is taken, and the last order takes all of it, no fault is counted.
pub level_remove_clean :
    (m : OrderBookModel) (sym : ℕ) (side : Side) (price qty : ℕ) (gone : Bool) (held n : ℕ)
    → level_at m sym side price ≡ some (record { qty = held; order_count = pos (suc n) })
    → qty ≤ held
    → (gone ≡ true → n ≡ 0 → held ≡ qty)
    → level_remove m sym side price qty gone
      ≡ put_levels m sym side (
          if gone && n == 0
          then erase price (side_levels (book_of m sym) side)
          else insert price
              (record { qty = held - qty; order_count = pos (if gone then n else suc n) })
              (side_levels (book_of m sym) side))
unfolding level_remove level_take settle_level ◌-ℤ◌
level_remove_clean m sym side price qty true held zero at fits last = ground arith
level_remove_clean m sym side price qty true held (suc n) at fits last = ground arith
level_remove_clean m sym side price qty false held n at fits last = ground arith

-- The level arithmetic neither reads nor writes the order map.
settle_level_orders :
    (m : OrderBookModel) (orders : Dict LiveOrder) (sym : ℕ) (side : Side) (price : ℕ) (l : Level)
    → settle_level (record m { orders = orders }) sym side price l
      ≡ record (settle_level m sym side price l) { orders = orders }
unfolding settle_level negative_attempt mark_stale
settle_level_orders m orders sym side price l = ground arith

level_take_orders :
    (m : OrderBookModel) (orders : Dict LiveOrder) (sym : ℕ) (side : Side) (price qty : ℕ)
    (gone : Bool) (l : Level)
    → level_take (record m { orders = orders }) sym side price qty gone l
      ≡ record (level_take m sym side price qty gone l) { orders = orders }
unfolding level_take negative_attempt mark_stale
level_take_orders m orders sym side price qty gone l = elim (Bool-cases (ltb l.qty qty)) [
  | inl over ↦ rw over (settle_level_orders _ orders sym side price _)
  | inr fits ↦ rw fits (settle_level_orders m orders sym side price _)
]

pub level_remove_orders :
    (m : OrderBookModel) (orders : Dict LiveOrder) (sym : ℕ) (side : Side) (price qty : ℕ)
    (gone : Bool)
    → level_remove (record m { orders = orders }) sym side price qty gone
      ≡ record (level_remove m sym side price qty gone) { orders = orders }
unfolding level_remove negative_attempt mark_stale
level_remove_orders m orders sym side price qty gone =
    elim (Option-cases (level_at m sym side price)) [
      | inl absent ↦ rw (absent, level_remove) refl
      | inr (l, found) ↦
          rw (found, level_remove) (level_take_orders m orders sym side price qty gone l)
    ]

pub orders-level_remove :
    (m : OrderBookModel) (sym : ℕ) (side : Side) (price qty : ℕ) (gone : Bool)
    → (level_remove m sym side price qty gone).orders ≡ m.orders
orders-level_remove m sym side price qty gone =
    ap (λ x. x.orders) (level_remove_orders m m.orders sym side price qty gone)

pub without_order-level_remove :
    (m : OrderBookModel) (ref sym : ℕ) (side : Side) (price qty : ℕ) (gone : Bool)
    → level_remove (without_order m ref) sym side price qty gone
      ≡ without_order (level_remove m sym side price qty gone) ref
without_order-level_remove m ref sym side price qty gone =
    level_remove_orders m (erase ref m.orders) sym side price qty gone
    ∙ ap (λ x. record (level_remove m sym side price qty gone) { orders = erase ref x })
        (symm (orders-level_remove m sym side price qty gone))
