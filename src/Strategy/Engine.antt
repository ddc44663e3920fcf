-- ===== src/Strategy/Engine.antt =====
-- host/pymodel/strategy.py: `evaluate` with its gates, the token and resting bookkeeping, and the
-- feedback of fills and acknowledgements.
use fpga_algotrading.Prelude.{
  ℕ, ◌+◌, ◌-◌, ◌%◌, true, false, Option, none, some, ◌⊎◌, inl, inr, ◌&&◌, not, ◌==◌, if◌then◌else◌,
  or_else,
}
use fpga_algotrading.Prelude.Int.{pos, ◌+ℤ◌, ◌-ℤ◌}
use fpga_algotrading.Contract.{Side, Action, BookTop, SymStrat, OrderReq, is_buy, is_open}
use fpga_algotrading.Contract.Pack.{pack_order_token}
use fpga_algotrading.Venue.Defs.{VenueState, effective_state, touch}
use fpga_algotrading.Strategy.State.{
  prim_null, prim_quote_id, prim_take_id, prim_fade_id, prim_join_id, prim_imbal_id, StrategyState,
  Gate, note_gate, note_fire, StrategyDecision, fired, StrategyModel, get_params, sym_state,
  put_sym_state,
}
use fpga_algotrading.Strategy.Primitives.{
  hold, prim_quote, prim_take, prim_fade, prim_join, prim_imbal,
}

-- `_next_token`: the counter moves on, and packing may raise (`none`).
unfoldable pub next_token : StrategyModel → ℕ → ℕ → Option (StrategyModel × ℕ)
next_token m sym strat_id =
    let m' = record m { token_counter = m.token_counter + 1 } in
    elim (pack_order_token (record {
      magic = m'.token_magic;
      strat_id = strat_id % 16;
      sym = sym % 4096;
      counter = m'.token_counter;
      rsvd = 0;
    })) [ none ↦ none | some token ↦ some (m', token) ]

abbrev pub rests : StrategyState → OrderReq → ℕ → StrategyState
rests st req token =
    if is_buy req.side
    then record st {
      resting_bid_token = token;
      resting_bid_px = req.price;
      resting_bid_qty = req.qty;
    }
    else record st {
      resting_ask_token = token;
      resting_ask_px = req.price;
      resting_ask_qty = req.qty;
    }

-- `_record_resting` on the state of the symbol of the request
unfoldable pub record_resting : StrategyModel → OrderReq → Option StrategyModel
record_resting m req = elim req.action [
  | Action.send ↦ elim (next_token m req.sym req.strat_id) [
    | none ↦ none
    | some (m', token) ↦ some (put_sym_state m' req.sym (rests (sym_state m' req.sym) req token))
  ]
  | _ ↦ some m
]

-- What an evaluation that returns hands on: both models and the decision.
pub record Evaluation : Type 0 where
  pub model : StrategyModel
  pub venue : VenueState
  pub decision : StrategyDecision

-- `blocked(gate)`
unfoldable pub blocked : StrategyModel → VenueState → BookTop → Gate → Evaluation
blocked m v top gate = record {
  model = record m { counters = note_gate m.counters gate };
  venue = v;
  decision = hold top gate;
}

-- The chain on `strat_select`: a gate where no primitive runs.
unfoldable pub select_primitive : BookTop → SymStrat → StrategyState → Gate ⊎ StrategyDecision
select_primitive top params st =
    let select = params.strat_select in
    if select == prim_null
    then inl Gate.null_primitive
    else if select == prim_quote_id
    then inr (prim_quote top params st)
    else if select == prim_take_id
    then inr (prim_take top params st)
    else if select == prim_fade_id
    then inr (prim_fade top params st)
    else if select == prim_join_id
    then inr (prim_join top params st)
    else if select == prim_imbal_id
    then inr (prim_imbal top params st)
    else inl Gate.reserved_primitive

abbrev pub acting : StrategyState → ℕ → StrategyState
acting st rx_cycle = record st { pending = true; last_action_cycle = rx_cycle }

-- The end of `evaluate`; `none` where the token does not pack.
unfoldable pub conclude :
    StrategyModel → VenueState → BookTop → ℕ → StrategyDecision → Option Evaluation
conclude m v top select decision =
    if fired decision
    then elim (record_resting
        (put_sym_state (record m { counters = note_fire m.counters select }) top.sym
          (acting (sym_state m top.sym) top.rx_cycle))
        decision.req) [
          | none ↦ none
          | some m' ↦ some (record { model = m'; venue = v; decision = decision })
        ]
    else some (record {
      model = record m { counters = note_gate m.counters (or_else decision.gate Gate.no_signal) };
      venue = v;
      decision = decision;
    })

-- The counted evaluation and the state that stands in the dict.
abbrev pub entered : StrategyModel → ℕ → StrategyModel
entered m sym =
    put_sym_state
      (record m { counters = record m.counters { evaluations = m.counters.evaluations + 1 } }) sym
      (sym_state m sym)

unfoldable pub evaluate : StrategyModel → BookTop → VenueState → Option Evaluation
evaluate m top v =
    let sym = top.sym in
    let m' = entered m sym in
    let v' = touch v sym in
    let params = get_params m sym in
    let st = sym_state m sym in
    if not params.strat_enabled
    then some (blocked m' v top Gate.strat_disabled)
    else if top.stale
    then some (blocked m' v top Gate.book_stale)
    else if top.crossed
    then some (blocked m' v top Gate.book_crossed)
    else if not (is_open (effective_state v sym))
    then some (blocked m' v' top Gate.not_open)
    else if st.pending
    then some (blocked m' v' top Gate.pending)
    else if params.quote_qty == 0
    then some (blocked m' v' top Gate.zero_quote_qty)
    else elim (select_primitive top params st) [
      | inl gate ↦ some (blocked m' v' top gate)
      | inr decision ↦ conclude m' v' top params.strat_select decision
    ]

abbrev pub filled_bid : StrategyState → ℕ → StrategyState
filled_bid st qty =
    let left = st.resting_bid_qty - qty in
    if st.resting_bid_token == 0
    then st
    else if left == 0
    then record st { resting_bid_qty = 0; resting_bid_token = 0; resting_bid_px = 0 }
    else record st { resting_bid_qty = left }

abbrev pub filled_ask : StrategyState → ℕ → StrategyState
filled_ask st qty =
    let left = st.resting_ask_qty - qty in
    if st.resting_ask_token == 0
    then st
    else if left == 0
    then record st { resting_ask_qty = 0; resting_ask_token = 0; resting_ask_px = 0 }
    else record st { resting_ask_qty = left }

-- `on_fill`
unfoldable pub on_fill : StrategyModel → ℕ → Side → ℕ → StrategyModel
on_fill m sym side qty =
    let st = sym_state m sym in
    put_sym_state m sym (elim side [
      | Side.buy ↦ filled_bid (record st { position = st.position +ℤ pos qty; pending = false }) qty
      | Side.sell ↦
          filled_ask (record st { position = st.position -ℤ pos qty; pending = false }) qty
    ])

-- `on_terminal_ack`
unfoldable pub on_terminal_ack : StrategyModel → ℕ → StrategyModel
on_terminal_ack m sym = put_sym_state m sym (record (sym_state m sym) { pending = false })

abbrev pub drop_bid : StrategyState → ℕ → StrategyState
drop_bid st token =
    if not (token == 0) && token == st.resting_bid_token
    then record st { resting_bid_token = 0; resting_bid_px = 0; resting_bid_qty = 0 }
    else st

abbrev pub drop_ask : StrategyState → ℕ → StrategyState
drop_ask st token =
    if not (token == 0) && token == st.resting_ask_token
    then record st { resting_ask_token = 0; resting_ask_px = 0; resting_ask_qty = 0 }
    else st

-- `on_cancel_ack`
unfoldable pub on_cancel_ack : StrategyModel → ℕ → ℕ → StrategyModel
on_cancel_ack m sym token =
    put_sym_state m sym
      (drop_ask (drop_bid (record (sym_state m sym) { pending = false }) token) token)
