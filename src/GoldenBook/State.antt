-- ===== src/GoldenBook/State.antt =====
-- tb/common/golden_book.py: the state of the reference book and its primitive operations.
use fpga_algotrading.Prelude.{
  ℕ, ◌+◌, ◌-◌, Bool, Option, none, some, List, [], ◌∷◌, ◌++◌, leb, ◌==◌, min, if◌then◌else◌,
  or_else,
}
use fpga_algotrading.Dict.{Dict, lookup, insert, erase, drop_where}
use fpga_algotrading.Contract.{Side}

-- `active_locates`: `none` tracks every locate.
pub record BookConfig : Type 0 where
  pub book_levels : ℕ
  pub active_locates : Option (List ℕ)

pub record Order : Type 0 where
  pub ref : ℕ
  pub locate : ℕ
  pub side : Side
  pub price : ℕ
  pub shares : ℕ
  pub stock : List ℕ

-- The two dicts from prices to shares of a locate.
pub record Sides : Type 0 where
  pub bids : Dict ℕ
  pub asks : Dict ℕ

pub record GoldenBook : Type 0 where
  pub cfg : BookConfig
  pub orders : Dict Order
  pub levels : Dict Sides
  pub last_px : Dict ℕ
  pub stale : Dict Bool
  pub trading_state : Dict (List ℕ)
  pub ssr : Dict (List ℕ)
  pub session_state : List ℕ
  pub n_applied : ℕ
  pub n_ignored_type : ℕ
  pub n_ignored_locate : ℕ
  pub n_unknown_ref : ℕ
  pub n_execute_overflow : ℕ
  pub n_bad_length : ℕ

-- `GoldenBook(cfg)`
abbrev pub new_book : BookConfig → GoldenBook
new_book cfg = record {
  cfg = cfg;
  orders = [];
  levels = [];
  last_px = [];
  stale = [];
  trading_state = [];
  ssr = [];
  session_state = [];
  n_applied = 0;
  n_ignored_type = 0;
  n_ignored_locate = 0;
  n_unknown_ref = 0;
  n_execute_overflow = 0;
  n_bad_length = 0;
}

abbrev pub no_sides : Sides
no_sides = record { bids = []; asks = [] }

abbrev pub side_of : Sides → Side → Dict ℕ
side_of s Side.buy = s.bids
side_of s Side.sell = s.asks

abbrev pub with_side : Sides → Side → Dict ℕ → Sides
with_side s Side.buy d = record s { bids = d }
with_side s Side.sell d = record s { asks = d }

-- `self.levels.get(locate, {BUY: {}, SELL: {}})`
abbrev pub sides_at : Dict Sides → ℕ → Sides
sides_at levels locate = or_else (lookup locate levels) no_sides

-- A write to one side of a locate, through `setdefault`.
abbrev pub put_side : GoldenBook → ℕ → Side → Dict ℕ → GoldenBook
put_side g locate side d = record g {
  levels = insert locate (with_side (sides_at g.levels locate) side d) g.levels;
}

unfoldable pub add : GoldenBook → Order → GoldenBook
add g o =
    let side_levels = side_of (sides_at g.levels o.locate) o.side in
    let shares = or_else (lookup o.price side_levels) 0 + o.shares in
    if o.shares == 0
    then g
    else put_side (record g { orders = insert o.ref o g.orders }) o.locate o.side
        (insert o.price shares side_levels)

unfoldable pub level_sub : GoldenBook → ℕ → Side → ℕ → ℕ → GoldenBook
level_sub g locate side price shares =
    let side_levels = side_of (sides_at g.levels locate) side in
    let held = or_else (lookup price side_levels) 0 in
    put_side g locate side (
      if leb held shares then erase price side_levels else insert price (held - shares) side_levels)

abbrev pub unknown : GoldenBook → GoldenBook
unknown g = record g { n_unknown_ref = g.n_unknown_ref + 1 }

-- `_remove` at an order that is live.
unfoldable pub remove_live : GoldenBook → ℕ → Order → GoldenBook
remove_live g ref o =
    level_sub (record g { orders = erase ref g.orders }) o.locate o.side o.price o.shares

unfoldable pub remove : GoldenBook → ℕ → GoldenBook
remove g ref = elim (lookup ref g.orders) [ none ↦ unknown g | some o ↦ remove_live g ref o ]

-- `_reduce` at an order that is live. What is left is written to the order, which goes when nothing
-- is.
unfoldable pub reduce_live : GoldenBook → ℕ → ℕ → ℕ → Order → GoldenBook
reduce_live g locate ref shares o =
    let taken = min shares o.shares in
    let left = o.shares - taken in
    let g' =
      level_sub
        (record g {
          orders = insert ref (record o { shares = left }) g.orders;
          n_execute_overflow =
              if taken == shares then g.n_execute_overflow else g.n_execute_overflow + 1;
        })
        locate o.side o.price taken in
    if left == 0 then record g' { orders = erase ref g'.orders } else g'

unfoldable pub reduce : GoldenBook → ℕ → ℕ → ℕ → GoldenBook
reduce g locate ref shares = elim (lookup ref g.orders) [
  | none ↦ unknown g
  | some o ↦ reduce_live g locate ref shares o
]

unfoldable pub execute : GoldenBook → ℕ → ℕ → ℕ → Bool → Option ℕ → GoldenBook
execute g locate ref shares printable exec_px = elim (lookup ref g.orders) [
  | none ↦ unknown g
  | some o ↦
      reduce
        (if printable
          then record g { last_px = insert locate (or_else exec_px o.price) g.last_px }
          else g)
        locate ref shares
]

-- The locates that `set_stale(None)` goes through; those that stand in both dicts are set once more,
-- to the same value.
abbrev mark_all : List ℕ → Bool → Dict Bool → Dict Bool
mark_all [] value stale = stale
mark_all (locate ∷ locates) value stale = mark_all locates value (insert locate value stale)

abbrev keys {ℓ} : {A : Type ℓ} → Dict A → List ℕ
keys [] = []
keys (e ∷ d) = e.0 ∷ keys d

unfoldable pub set_stale : GoldenBook → Option ℕ → Bool → GoldenBook
set_stale g none value = record g { stale = mark_all (keys g.levels ++ keys g.stale) value g.stale }
set_stale g (some locate) value = record g { stale = insert locate value g.stale }

unfoldable pub clear : GoldenBook → Option ℕ → GoldenBook
clear g none = record g { orders = []; levels = []; last_px = []; stale = [] }
clear g (some locate) = record g {
  orders = drop_where (λ o. o.locate == locate) g.orders;
  levels = erase locate g.levels;
  last_px = erase locate g.last_px;
  stale = erase locate g.stale;
}
