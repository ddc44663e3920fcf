-- ===== src/Book/Aggregate.antt =====
-- The abstract view of the book: what the live orders say about a price level.
use fpga_algotrading.Prelude.{
  ℕ, ◌≤◌, ◌≡◌, refl, Bool, true, false, Option, none, some, [], ◌∷◌, ◌&&◌, ◌==◌, arith,
  if◌then◌else◌,
}
use fpga_algotrading.Prelude.Int.{pos}
use fpga_algotrading.Dict.{Dict, lookup, IsDistinct, sum_of, sum-erase}
use fpga_algotrading.Contract.{Side}
use fpga_algotrading.Book.State.{LiveOrder, Level, side_levels, OrderBookModel, book_of}

abbrev pub same_side : Side → Side → Bool
same_side Side.buy Side.buy = true
same_side Side.buy Side.sell = false
same_side Side.sell Side.buy = false
same_side Side.sell Side.sell = true

-- The order rests at this price on this side of this symbol.
abbrev pub rests : ℕ → Side → ℕ → LiveOrder → Bool
rests sym side price o = o.sym == sym && same_side o.side side && o.price == price

abbrev pub share : ℕ → Side → ℕ → LiveOrder → ℕ
share sym side price o = if rests sym side price o then o.qty else 0

abbrev pub one : ℕ → Side → ℕ → LiveOrder → ℕ
one sym side price o = if rests sym side price o then 1 else 0

-- The level that orders with so many shares and so many members make up.
abbrev pub level_of : ℕ → ℕ → Option Level
level_of qty count =
    if count == 0 then none else some (record { qty = qty; order_count = pos count })

abbrev pub aggregate : Dict LiveOrder → ℕ → Side → ℕ → Option Level
aggregate orders sym side price =
    level_of (sum_of (share sym side price) orders) (sum_of (one sym side price) orders)

-- The level that the book keeps.
abbrev pub level_at : OrderBookModel → ℕ → Side → ℕ → Option Level
level_at m sym side price = lookup price (side_levels (book_of m sym) side)

-- The book and the order map agree on one level.
abbrev pub Agrees : OrderBookModel → ℕ → Side → ℕ → Type 0
Agrees m sym side price = level_at m sym side price ≡ aggregate m.orders sym side price

-- The two structures of the book say the same everywhere, and no reference is live twice.
pub record IsConsistent (m : OrderBookModel) : Type 0 where
  pub distinct : IsDistinct m.orders
  pub agrees : (sym : ℕ) (side : Side) (price : ℕ) → Agrees m sym side price

-- From `m` a step reached a consistent model, and no counter moved.
abbrev pub Sound : OrderBookModel → OrderBookModel → Type 0
Sound m m' = IsConsistent m' × (m'.counters ≡ m.counters)

-- A live order is counted at its own level, with its shares.
pub counted_order :
    (orders : Dict LiveOrder) (ref : ℕ) (o : LiveOrder)
    → IsDistinct orders
    → lookup ref orders ≡ some o
    → (1 ≤ sum_of (one o.sym o.side o.price) orders)
      × (o.qty ≤ sum_of (share o.sym o.side o.price) orders)
counted_order orders ref o distinct found = ground (
  arith,
  sum-erase (one o.sym o.side o.price) ref o orders,
  sum-erase (share o.sym o.side o.price) ref o orders,
)

-- A level without orders holds no shares.
pub share_of_none :
    (s : ℕ) (sd : Side) (p : ℕ) (orders : Dict LiveOrder)
    → sum_of (one s sd p) orders ≡ 0
    → sum_of (share s sd p) orders ≡ 0
share_of_none s sd p [] h = refl
share_of_none s sd p (e ∷ d) h = ground (arith, share_of_none s sd p d)
