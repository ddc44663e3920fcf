-- ===== src/Book/State.antt =====
-- host/pymodel/book.py, the state: live orders, price levels, the per-symbol book and its sticky
-- stale bit. The objects that the source shares by reference stand in the dicts of the model, and
-- every write goes through them.
use fpga_algotrading.Prelude.{
  ℕ, ◌+◌, Bool, true, false, Option, none, List, [], ◌∷◌, ◌++◌, ◌||◌, ℕ_discrete, if◌then◌else◌,
  holds, or_else,
}
use fpga_algotrading.Prelude.Int.{ℤ, pos}
use fpga_algotrading.Dict.{Dict, lookup, insert}
use fpga_algotrading.Contract.{Side}

pub record LiveOrder : Type 0 where
  pub order_ref : ℕ
  pub sym : ℕ
  pub locate : ℕ
  pub side : Side
  pub price : ℕ
  pub qty : ℕ

pub record Level : Type 0 where
  pub qty : ℕ
  pub order_count : ℤ

abbrev pub empty_level : Level
empty_level = record { qty = 0; order_count = pos 0 }

-- The text of `mark_stale`: one constructor for each format string, with the values it prints.
-- `caller` is any other text, by a number.
pub data Reason : Type 0 where
  duplicate_add zero_add unknown_execute unknown_cancel unknown_delete : ℕ → Reason
  unknown_replace replace_into_live : ℕ → Reason
  over_reduce : ℕ → ℕ → ℕ → Reason
  remove_from_empty : ℕ → ℕ → Side → Reason
  remove_over_level : ℕ → ℕ → Side → ℕ → Reason
  level_emptied : ℕ → Side → ℕ → ℤ → Reason
  sequence_gap : ℕ → ℕ → Reason
  packet_abandoned : ℕ → Reason
  caller : ℕ → Reason

Side-discrete : Discrete Side
Side-discrete = hlevel

ℤ-discrete : Discrete ℤ
unfolding ℕ_discrete
ℤ-discrete = hlevel ℕ_discrete

Reason-discrete : Discrete Reason
unfolding ℕ_discrete
Reason-discrete = hlevel (ℕ_discrete, ℤ-discrete, Side-discrete)

-- The last published top of book: bid and ask, each with its valid bit.
pub record Published : Type 0 where
  pub bid_valid : Bool
  pub bid_px : ℕ
  pub bid_qty : ℕ
  pub ask_valid : Bool
  pub ask_px : ℕ
  pub ask_qty : ℕ

pub record SymbolBook : Type 0 where
  pub sym : ℕ
  pub bids : Dict Level
  pub asks : Dict Level
  pub last_px : ℕ
  pub stale : Bool
  pub stale_reasons : List Reason
  pub last_published : Option Published

-- `SymbolBook(sym=sym)`
abbrev pub fresh_book : ℕ → SymbolBook
fresh_book sym = record {
  sym = sym;
  bids = [];
  asks = [];
  last_px = 0;
  stale = false;
  stale_reasons = [];
  last_published = none;
}

abbrev pub side_levels : SymbolBook → Side → Dict Level
side_levels book Side.buy = book.bids
side_levels book Side.sell = book.asks

-- The book whose `side_levels(side)` is another dict.
abbrev pub with_levels : SymbolBook → Side → Dict Level → SymbolBook
with_levels book Side.buy levels = record book { bids = levels }
with_levels book Side.sell levels = record book { asks = levels }

pub record BookCounters : Type 0 where
  pub adds : ℕ
  pub executes : ℕ
  pub cancels : ℕ
  pub deletes : ℕ
  pub replaces : ℕ
  pub clears : ℕ
  pub nops : ℕ
  pub unknown_order_ref : ℕ
  pub duplicate_order_ref : ℕ
  pub negative_book_qty_attempts : ℕ
  pub book_stale_events : ℕ
  pub orders_removed_at_zero : ℕ
  pub levels_over_book_levels : ℕ
  pub live_orders_max : ℕ

pub record OrderBookModel : Type 0 where
  pub orders : Dict LiveOrder
  pub books : Dict SymbolBook
  pub counters : BookCounters

abbrev pub zero_counters : BookCounters
zero_counters = record {
  adds = 0;
  executes = 0;
  cancels = 0;
  deletes = 0;
  replaces = 0;
  clears = 0;
  nops = 0;
  unknown_order_ref = 0;
  duplicate_order_ref = 0;
  negative_book_qty_attempts = 0;
  book_stale_events = 0;
  orders_removed_at_zero = 0;
  levels_over_book_levels = 0;
  live_orders_max = 0;
}

-- `OrderBookModel()`
abbrev pub init : OrderBookModel
init = record { orders = []; books = []; counters = zero_counters }

-- The book that `book_for(sym)` returns, made on first touch.
abbrev pub book_of : OrderBookModel → ℕ → SymbolBook
book_of m sym = or_else (lookup sym m.books) (fresh_book sym)

abbrev pub put_book : OrderBookModel → ℕ → SymbolBook → OrderBookModel
put_book m sym book = record m { books = insert sym book m.books }

-- The effect of `book_for`: the book stands in the dict afterwards.
unfoldable pub book_for : OrderBookModel → ℕ → OrderBookModel
book_for m sym = put_book m sym (book_of m sym)

has_reason : Reason → List Reason → Bool
unfolding Reason-discrete Side-discrete ℤ-discrete
has_reason r [] = false
has_reason r (x ∷ xs) = holds (Reason-discrete r x) || has_reason r xs

unfoldable pub add_reason : Reason → List Reason → List Reason
unfolding has_reason
add_reason r rs = if has_reason r rs then rs else rs ++ r ∷ []

-- What `mark_stale` writes into the book.
abbrev pub staled : Reason → SymbolBook → SymbolBook
staled reason book = record book {
  stale = true;
  stale_reasons = add_reason reason book.stale_reasons;
}

unfoldable pub mark_stale : OrderBookModel → ℕ → Reason → OrderBookModel
mark_stale m sym reason =
    let book = book_of m sym in
    let counters = m.counters in
    record m {
      books = insert sym (staled reason book) m.books;
      counters =
          if book.stale
          then counters
          else record counters { book_stale_events = counters.book_stale_events + 1 };
    }

unfoldable pub clear_stale : OrderBookModel → ℕ → OrderBookModel
clear_stale m sym = put_book m sym (record (book_of m sym) { stale = false; stale_reasons = [] })
