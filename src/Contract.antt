-- ===== src/Contract.antt =====
-- host/pymodel/trading_pkg_mirror.py: the scalar constants, the enumerations and the structs that
-- the components exchange. Unsigned wire values are naturals.
pub mod Pack
mod Tests
pub mod Unpack
pub mod Widths
use fpga_algotrading.Prelude.{ℕ, Bool, true, false}

abbrev pub n_symbols : ℕ
n_symbols = 8192

abbrev pub n_active : ℕ
n_active = 256

abbrev pub book_levels : ℕ
book_levels = 2048

abbrev pub tick_itch_units : ℕ
tick_itch_units = 100

pub data Side : Type 0 where
  buy sell : Side

-- `DISABLED` is the reset value.
pub data TradeState : Type 0 where
  closed preopen open_session halted paused auction stale disabled : TradeState

pub data BookOp : Type 0 where
  add execute cancel delete replace clear nop : BookOp

pub data Action : Type 0 where
  none send cancel : Action

pub record BookEvt : Type 0 where
  pub op : BookOp
  pub sym : ℕ
  pub locate : ℕ
  pub side : Side
  pub price : ℕ
  pub qty : ℕ
  pub order_ref : ℕ
  pub new_order_ref : ℕ
  pub exch_ts : ℕ
  pub rx_cycle : ℕ
  pub printable : Bool

pub record BookTop : Type 0 where
  pub sym : ℕ
  pub bid_px : ℕ
  pub bid_qty : ℕ
  pub ask_px : ℕ
  pub ask_qty : ℕ
  pub last_px : ℕ
  pub bid_valid : Bool
  pub ask_valid : Bool
  pub crossed : Bool
  pub stale : Bool
  pub top_changed : Bool
  pub rx_cycle : ℕ

pub record SymStrat : Type 0 where
  pub strat_enabled : Bool
  pub strat_select : ℕ
  pub quote_qty : ℕ
  pub edge_ticks : ℕ
  pub min_book_qty : ℕ
  pub fair_value : ℕ
  pub imbalance_thr : ℕ

-- `SymStrat()`: all zero, so disabled.
abbrev pub default_strat : SymStrat
default_strat = record {
  strat_enabled = false;
  strat_select = 0;
  quote_qty = 0;
  edge_ticks = 0;
  min_book_qty = 0;
  fair_value = 0;
  imbalance_thr = 0;
}

pub record OrderToken : Type 0 where
  pub magic : ℕ
  pub strat_id : ℕ
  pub sym : ℕ
  pub counter : ℕ
  pub rsvd : ℕ

abbrev pub is_buy : Side → Bool
is_buy Side.buy = true
is_buy Side.sell = false

abbrev pub is_open : TradeState → Bool
is_open TradeState.open_session = true
is_open _ = false

-- `a is b` on trading states, by their numbers.
abbrev pub state_code : TradeState → ℕ
state_code TradeState.closed = 0
state_code TradeState.preopen = 1
state_code TradeState.open_session = 2
state_code TradeState.halted = 3
state_code TradeState.paused = 4
state_code TradeState.auction = 5
state_code TradeState.stale = 6
state_code TradeState.disabled = 7

pub record OrderReq : Type 0 where
  pub action : Action
  pub sym : ℕ
  pub side : Side
  pub price : ℕ
  pub qty : ℕ
  pub post_only : Bool
  pub is_short : Bool
  pub strat_id : ℕ
  pub cancel_token : ℕ
  pub rx_cycle : ℕ
