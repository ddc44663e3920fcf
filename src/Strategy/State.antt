-- ===== src/Strategy/State.antt =====
-- host/pymodel/strategy.py, the state: our side of each symbol, the counters and the engine. The
-- text of a decision is left out, the gate that it names is kept.
use fpga_algotrading.Prelude.{ℕ, ◌+◌, Bool, false, Option, [], or_else}
use fpga_algotrading.Prelude.Int.{ℤ, pos}
use fpga_algotrading.Dict.{Dict, lookup, insert}
use fpga_algotrading.Contract.{Side, Action, OrderReq, SymStrat, default_strat}

-- `IMBALANCE_ONE`
abbrev pub imbalance_one : ℕ
imbalance_one = 256

-- `Primitive`
abbrev pub prim_null : ℕ
prim_null = 0

abbrev pub prim_quote_id : ℕ
prim_quote_id = 1

abbrev pub prim_take_id : ℕ
prim_take_id = 2

abbrev pub prim_fade_id : ℕ
prim_fade_id = 3

abbrev pub prim_join_id : ℕ
prim_join_id = 4

abbrev pub prim_imbal_id : ℕ
prim_imbal_id = 5

pub record StrategyState : Type 0 where
  pub position : ℤ
  pub pending : Bool
  pub resting_bid_token : ℕ
  pub resting_bid_px : ℕ
  pub resting_bid_qty : ℕ
  pub resting_ask_token : ℕ
  pub resting_ask_px : ℕ
  pub resting_ask_qty : ℕ
  pub last_action_cycle : ℕ

-- `StrategyState()`
abbrev pub fresh_state : StrategyState
fresh_state = record {
  position = pos 0;
  pending = false;
  resting_bid_token = 0;
  resting_bid_px = 0;
  resting_bid_qty = 0;
  resting_ask_token = 0;
  resting_ask_px = 0;
  resting_ask_qty = 0;
  last_action_cycle = 0;
}

-- The gate names: those of `evaluate`, then those of the primitives.
pub data Gate : Type 0 where
  strat_disabled book_stale book_crossed not_open pending zero_quote_qty : Gate
  null_primitive reserved_primitive no_signal : Gate
  one_sided thin_book zero_price already_resting no_fair_value no_edge : Gate
  no_fade no_join no_threshold balanced : Gate

-- The key of a gate in `gated_by`.
abbrev pub gate_code : Gate → ℕ
gate_code Gate.strat_disabled = 0
gate_code Gate.book_stale = 1
gate_code Gate.book_crossed = 2
gate_code Gate.not_open = 3
gate_code Gate.pending = 4
gate_code Gate.zero_quote_qty = 5
gate_code Gate.null_primitive = 6
gate_code Gate.reserved_primitive = 7
gate_code Gate.no_signal = 8
gate_code Gate.one_sided = 9
gate_code Gate.thin_book = 10
gate_code Gate.zero_price = 11
gate_code Gate.already_resting = 12
gate_code Gate.no_fair_value = 13
gate_code Gate.no_edge = 14
gate_code Gate.no_fade = 15
gate_code Gate.no_join = 16
gate_code Gate.no_threshold = 17
gate_code Gate.balanced = 18

pub record StrategyCounters : Type 0 where
  pub evaluations : ℕ
  pub fires : ℕ
  pub fires_by_primitive : Dict ℕ
  pub gated_by : Dict ℕ

unfoldable pub note_gate : StrategyCounters → Gate → StrategyCounters
note_gate c gate =
    let k = gate_code gate in
    record c { gated_by = insert k (or_else (lookup k c.gated_by) 0 + 1) c.gated_by }

unfoldable pub note_fire : StrategyCounters → ℕ → StrategyCounters
note_fire c primitive = record c {
  fires = c.fires + 1;
  fires_by_primitive =
      insert primitive (or_else (lookup primitive c.fires_by_primitive) 0 + 1) c.fires_by_primitive;
}

-- `StrategyDecision`; the empty gate is `none`.
pub record StrategyDecision : Type 0 where
  pub req : OrderReq
  pub gate : Option Gate

abbrev pub fired : StrategyDecision → Bool
fired d = elim d.req.action [ Action.none ↦ false | _ ↦ Bool.true ]

-- `_none_req`
abbrev pub none_req : ℕ → ℕ → OrderReq
none_req sym rx_cycle = record {
  action = Action.none;
  sym = sym;
  side = Side.buy;
  price = 0;
  qty = 0;
  post_only = false;
  is_short = false;
  strat_id = 0;
  cancel_token = 0;
  rx_cycle = rx_cycle;
}

pub record StrategyModel : Type 0 where
  pub params : Dict SymStrat
  pub state : Dict StrategyState
  pub counters : StrategyCounters
  pub token_magic : ℕ
  pub token_counter : ℕ

-- `StrategyModel(params, token_magic, token_counter_start)`
abbrev pub new_model : Dict SymStrat → ℕ → ℕ → StrategyModel
new_model params token_magic token_counter_start = record {
  params = params;
  state = [];
  counters = record { evaluations = 0; fires = 0; fires_by_primitive = []; gated_by = [] };
  token_magic = token_magic;
  token_counter = token_counter_start;
}

abbrev pub set_params : StrategyModel → ℕ → SymStrat → StrategyModel
set_params m sym params = record m { params = insert sym params m.params }

abbrev pub get_params : StrategyModel → ℕ → SymStrat
get_params m sym = or_else (lookup sym m.params) default_strat

-- The state that `sym_state(sym)` returns, made on first touch.
abbrev pub sym_state : StrategyModel → ℕ → StrategyState
sym_state m sym = or_else (lookup sym m.state) fresh_state

abbrev pub put_sym_state : StrategyModel → ℕ → StrategyState → StrategyModel
put_sym_state m sym st = record m { state = insert sym st m.state }
