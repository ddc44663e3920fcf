-- ===== src/Strategy/Tests.antt =====
-- The strategy at a concrete top of book, and a run of a take, its fill and a second take.
use fpga_algotrading.Prelude.{
  ℕ, ◌≤◌, ◌≡◌, refl, true, false, some, List, [], ◌∷◌, or_else, arith, is_some, length,
}
use fpga_algotrading.Prelude.Int.{negsuc, ◌+ℤ◌, ◌-ℤ◌}
use fpga_algotrading.Contract.{Side, TradeState, BookTop, SymStrat, OrderReq}
use fpga_algotrading.Contract.Pack.{pack_from, pack_bits, pack_order_token}
use fpga_algotrading.Venue.Defs.{VenueState, init, effective_state, touch}
use fpga_algotrading.Strategy.State.{
  Gate, StrategyModel, new_model, note_gate, note_fire, fired, get_params, sym_state,
}
use fpga_algotrading.Strategy.Primitives.{hold, send, prim_take}
use fpga_algotrading.Strategy.Engine.{
  Evaluation, blocked, next_token, record_resting, select_primitive, conclude, evaluate, on_fill,
}
use fpga_algotrading.Strategy.Gates.{Passes}
use fpga_algotrading.Strategy.Decisions.{Asked}
use fpga_algotrading.Strategy.Firing.{fires_gated, fires_proper}
use fpga_algotrading.Strategy.Runs.{Input, book_update, fill, run, step}
use fpga_algotrading.Strategy.Pacing.{count_for, one_at_a_time}
use fpga_algotrading.Strategy.Returns.{HasRoom, evaluate-returns, run-returns}
use fpga_algotrading.Strategy.Position.{position_of, net_fills, run-position}
use fpga_algotrading.Strategy.Totals.{Counted, evaluations_in, run-Counted}
use fpga_algotrading.Strategy.Resting.{AllTracked, run-AllTracked}

-- Take at ten cents through a fair value of 100.00.
abbrev take_params : SymStrat
take_params = record {
  strat_enabled = true;
  strat_select = 2;
  quote_qty = 200;
  edge_ticks = 10;
  min_book_qty = 100;
  fair_value = 1000000;
  imbalance_thr = 0;
}

abbrev cheap : BookTop
cheap = record {
  sym = 3;
  bid_px = 998000;
  bid_qty = 500;
  ask_px = 999000;
  ask_qty = 400;
  last_px = 0;
  bid_valid = true;
  ask_valid = true;
  crossed = false;
  stale = false;
  top_changed = true;
  rx_cycle = 11;
}

abbrev opened : VenueState
opened = record init { session_state = TradeState.open_session; last_system_event = some b'Q' }

abbrev engine : StrategyModel
engine = new_model ((3, take_params) ∷ []) 51966 0

abbrev taken : Evaluation
taken =
    or_else (evaluate engine cheap opened)
      (record { model = engine; venue = opened; decision = hold cheap Gate.no_signal })

taken_returns : evaluate engine cheap opened ≡ some taken
unfolding evaluate effective_state touch select_primitive prim_take send ◌-ℤ◌ conclude
    record_resting next_token pack_order_token pack_bits pack_from note_fire
taken_returns = refl

taken_fires : fired taken.decision ≡ true
unfolding evaluate effective_state touch select_primitive prim_take send ◌-ℤ◌ conclude
    record_resting next_token pack_order_token pack_bits pack_from note_fire
taken_fires = refl

fires_gated_example : Passes engine cheap opened × ((sym_state taken.model 3).pending ≡ true)
fires_gated_example = fires_gated engine cheap opened taken taken_returns taken_fires

fires_proper_example :
    Asked taken.decision.req.action cheap
      (get_params engine 3)
      (sym_state engine 3)
      taken.decision.req
fires_proper_example = fires_proper engine cheap opened taken taken_returns taken_fires

-- Two updates, of which the second finds the first order pending.
abbrev twice : List Input
twice = book_update cheap opened ∷ book_update cheap opened ∷ []

abbrev after_twice : StrategyModel × List OrderReq
after_twice = or_else (run engine twice) (engine, [])

twice_returns : run engine twice ≡ some (after_twice.0, after_twice.1)
unfolding run step evaluate effective_state touch select_primitive prim_take send ◌-ℤ◌ conclude
    record_resting next_token pack_order_token pack_bits pack_from note_fire note_gate blocked
twice_returns = refl

-- One request only.
twice_sends_one : length after_twice.1 ≡ 1
unfolding run step evaluate effective_state touch select_primitive prim_take send ◌-ℤ◌ conclude
    record_resting next_token pack_order_token pack_bits pack_from note_fire note_gate blocked
twice_sends_one = refl

one_at_a_time_example : count_for 3 after_twice.1 ≤ 1
one_at_a_time_example =
    one_at_a_time 3 twice engine after_twice.0 after_twice.1 (tt, (tt, tt)) twice_returns

-- The engine after the take, and a further update.
abbrev after_more : StrategyModel × List OrderReq
after_more = or_else (run taken.model (book_update cheap opened ∷ [])) (engine, [])

more_returns : run taken.model (book_update cheap opened ∷ []) ≡ some (after_more.0, after_more.1)
unfolding run step evaluate effective_state touch select_primitive prim_take send ◌-ℤ◌ conclude
    record_resting next_token pack_order_token pack_bits pack_from note_fire note_gate blocked
more_returns = refl

engine-HasRoom : (n : ℕ) → n ≤ 100 → HasRoom engine n
engine-HasRoom n h = record { magic = omega arith; counter = omega arith }

evaluate-returns_example : is_some (evaluate engine cheap opened) ≡ true
evaluate-returns_example = evaluate-returns engine cheap opened (engine-HasRoom 1 (omega arith))

run-returns_example : is_some (run engine twice) ≡ true
run-returns_example = run-returns twice engine (engine-HasRoom 2 (omega arith))

-- A take, its fill, and a sale of another origin.
abbrev filled : List Input
filled = book_update cheap opened ∷ fill 3 Side.buy 200 ∷ fill 3 Side.sell 500 ∷ []

abbrev after_fill : StrategyModel × List OrderReq
after_fill = or_else (run engine filled) (engine, [])

filled_returns : run engine filled ≡ some (after_fill.0, after_fill.1)
unfolding run step evaluate effective_state touch select_primitive prim_take send ◌-ℤ◌ conclude
    record_resting next_token pack_order_token pack_bits pack_from note_fire on_fill ◌+ℤ◌
filled_returns = refl

filled_short : position_of after_fill.0 3 ≡ negsuc 299
unfolding run step evaluate effective_state touch select_primitive prim_take send ◌-ℤ◌ conclude
    record_resting next_token pack_order_token pack_bits pack_from note_fire on_fill ◌+ℤ◌
filled_short = refl

run-position_example : position_of after_fill.0 3 ≡ position_of engine 3 +ℤ net_fills 3 filled
run-position_example = run-position 3 filled engine after_fill.0 after_fill.1 filled_returns

run-Counted_example :
    Counted engine.counters after_fill.0.counters (evaluations_in filled) (length after_fill.1)
run-Counted_example =
    run-Counted filled engine after_fill.0 after_fill.1
      (record { evaluations = omega arith; fires = omega arith }) filled_returns

run-AllTracked_example : AllTracked after_fill.0
run-AllTracked_example =
    run-AllTracked ((3, take_params) ∷ []) 51966 0 filled after_fill.0 after_fill.1 filled_returns
