-- ===== src/Strategy/Primitives.antt =====
-- host/pymodel/strategy.py, the primitives: one decision from the top of book, the parameters and
-- our state. Differences of prices are integers.
use fpga_algotrading.Prelude.{
  ℕ, ◌+◌, ◌*◌, Bool, true, false, none, some, ◌&&◌, ◌||◌, not, ltb, leb, ◌==◌, if◌then◌else◌,
}
use fpga_algotrading.Prelude.Int.{pos, ◌-ℤ◌, leb_ℤ, ltb_ℤ, pos_part}
use fpga_algotrading.Contract.{Side, Action, BookTop, SymStrat, is_buy, tick_itch_units}
use fpga_algotrading.Strategy.State.{
  imbalance_one, prim_quote_id, prim_take_id, prim_fade_id, prim_join_id, prim_imbal_id,
  StrategyState, Gate, StrategyDecision, none_req,
}

-- `_edge`
abbrev pub edge_of : SymStrat → ℕ
edge_of params = params.edge_ticks * tick_itch_units

-- A decision that sends nothing and names its gate.
abbrev pub hold : BookTop → Gate → StrategyDecision
hold top gate = record { req = none_req top.sym top.rx_cycle; gate = some gate }

-- A sell that takes the position below zero.
abbrev pub short_sale : StrategyState → Side → ℕ → Bool
short_sale st side qty = not (is_buy side) && ltb_ℤ (st.position -ℤ pos qty) (pos 0)

-- `_send`
unfoldable pub send : BookTop → StrategyState → Side → ℕ → ℕ → ℕ → Bool → StrategyDecision
send top st side price qty primitive post_only = record {
  req = record {
    action = Action.send;
    sym = top.sym;
    side = side;
    price = price;
    qty = qty;
    post_only = post_only;
    is_short = short_sale st side qty;
    strat_id = primitive;
    cancel_token = 0;
    rx_cycle = top.rx_cycle;
  };
  gate = none;
}

-- `_cancel`
unfoldable pub cancel : BookTop → ℕ → Side → ℕ → StrategyDecision
cancel top token side primitive = record {
  req = record {
    action = Action.cancel;
    sym = top.sym;
    side = side;
    price = 0;
    qty = 0;
    post_only = false;
    is_short = false;
    strat_id = primitive;
    cancel_token = token;
    rx_cycle = top.rx_cycle;
  };
  gate = none;
}

unfoldable pub prim_quote : BookTop → SymStrat → StrategyState → StrategyDecision
prim_quote top params st =
    if not (top.bid_valid && top.ask_valid)
    then hold top Gate.one_sided
    else if ltb top.bid_qty params.min_book_qty || ltb top.ask_qty params.min_book_qty
    then hold top Gate.thin_book
    else if st.resting_bid_token == 0
    then (let price = pos top.bid_px -ℤ pos (edge_of params) in
        if leb_ℤ price (pos 0)
        then hold top Gate.zero_price
        else send top st Side.buy (pos_part price) params.quote_qty prim_quote_id true)
    else if st.resting_ask_token == 0
    then send top st Side.sell (top.ask_px + edge_of params) params.quote_qty prim_quote_id true
    else hold top Gate.already_resting

unfoldable pub prim_take : BookTop → SymStrat → StrategyState → StrategyDecision
prim_take top params st =
    let edge = edge_of params in
    if params.fair_value == 0
    then hold top Gate.no_fair_value
    else if top.ask_valid
        && leb params.min_book_qty top.ask_qty
        && leb_ℤ (pos top.ask_px) (pos params.fair_value -ℤ pos edge)
    then send top st Side.buy top.ask_px params.quote_qty prim_take_id false
    else if top.bid_valid
        && leb params.min_book_qty top.bid_qty
        && leb (params.fair_value + edge) top.bid_px
    then send top st Side.sell top.bid_px params.quote_qty prim_take_id false
    else hold top Gate.no_edge

unfoldable pub prim_fade : BookTop → SymStrat → StrategyState → StrategyDecision
prim_fade top params st =
    let edge = edge_of params in
    if not (st.resting_bid_token == 0)
      && top.bid_valid
      && leb_ℤ (pos top.bid_px) (pos st.resting_bid_px -ℤ pos edge)
    then cancel top st.resting_bid_token Side.buy prim_fade_id
    else if not (st.resting_ask_token == 0)
        && top.ask_valid
        && leb (st.resting_ask_px + edge) top.ask_px
    then cancel top st.resting_ask_token Side.sell prim_fade_id
    else hold top Gate.no_fade

unfoldable pub prim_join : BookTop → SymStrat → StrategyState → StrategyDecision
prim_join top params st =
    if top.bid_valid && st.resting_bid_token == 0 && leb params.min_book_qty top.bid_qty
    then send top st Side.buy top.bid_px params.quote_qty prim_join_id true
    else if top.ask_valid && st.resting_ask_token == 0 && leb params.min_book_qty top.ask_qty
    then send top st Side.sell top.ask_px params.quote_qty prim_join_id true
    else hold top Gate.no_join

unfoldable pub prim_imbal : BookTop → SymStrat → StrategyState → StrategyDecision
prim_imbal top params st =
    if not (top.bid_valid && top.ask_valid)
    then hold top Gate.one_sided
    else if params.imbalance_thr == 0
    then hold top Gate.no_threshold
    else if ltb top.bid_qty params.min_book_qty && ltb top.ask_qty params.min_book_qty
    then hold top Gate.thin_book
    else if leb (top.ask_qty * params.imbalance_thr) (top.bid_qty * imbalance_one)
    then send top st Side.buy top.ask_px params.quote_qty prim_imbal_id false
    else if leb (top.bid_qty * params.imbalance_thr) (top.ask_qty * imbalance_one)
    then send top st Side.sell top.bid_px params.quote_qty prim_imbal_id false
    else hold top Gate.balanced
