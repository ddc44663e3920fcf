-- ===== src/System/Tests.antt =====
-- The chain at concrete events: an order on the book, then a take of it.
use fpga_algotrading.Prelude.{ℕ, ◌≤◌, ◌≡◌, refl, true, false, none, some, List, [], ◌∷◌, or_else}
use fpga_algotrading.Prelude.Int.{◌+ℤ◌, ◌-ℤ◌}
use fpga_algotrading.Dict.{sum_of}
use fpga_algotrading.Contract.{Side, Action, BookOp, BookEvt, BookTop, SymStrat}
use fpga_algotrading.Contract.Pack.{pack_from, pack_bits, pack_order_token}
use fpga_algotrading.Book.State.{
  OrderBookModel, Reason, caller, book_of, book_for, add_reason, mark_stale,
}
use fpga_algotrading.Book.State
use fpga_algotrading.Book.Levels.{level_add}
use fpga_algotrading.Book.Apply.{apply_add}
use fpga_algotrading.Book.Top.{best_bid, best_ask, differs, publish, apply_op, observe, apply}
use fpga_algotrading.Book.Aggregate.{one}
use fpga_algotrading.Book.Consistency.{Addressed, init-IsConsistent}
use fpga_algotrading.Book.Isolation
use fpga_algotrading.Venue.Defs.{
  VenueState, effective_state, state_of, touch, apply_system_event, apply_mwcb_status,
}
use fpga_algotrading.Venue.Defs
use fpga_algotrading.Venue.Gate.{Message, system_event, mwcb_status, handle}
use fpga_algotrading.Venue.Gate
use fpga_algotrading.Strategy.State.{Gate, StrategyModel, new_model, note_fire, fired}
use fpga_algotrading.Strategy.Primitives.{hold, send, prim_take, prim_join}
use fpga_algotrading.Strategy.Engine.{
  Evaluation, next_token, record_resting, select_primitive, conclude, evaluate,
}
use fpga_algotrading.System.Safety.{
  Behind, other_side, stale_never_fires, breach_never_fires, fires_in_session, post_only-Behind,
  taker_meets_order,
}

-- An offer of 400 shares at 99.90.
abbrev offer : BookEvt
offer = record {
  op = BookOp.add;
  sym = 3;
  locate = 77;
  side = Side.sell;
  price = 999000;
  qty = 400;
  order_ref = 1;
  new_order_ref = 0;
  exch_ts = 0;
  rx_cycle = 11;
  printable = true;
}

abbrev params : ℕ → SymStrat
params select = record {
  strat_enabled = true;
  strat_select = select;
  quote_qty = 200;
  edge_ticks = 10;
  min_book_qty = 100;
  fair_value = 1000000;
  imbalance_thr = 0;
}

abbrev engine : ℕ → StrategyModel
engine select = new_model ((3, params select) ∷ []) 51966 0

abbrev offered : BookTop
offered = (apply State.init offer).1

abbrev opening : List Message
opening = system_event b'O' ∷ system_event b'Q' ∷ []

abbrev opened : VenueState
opened = Gate.run Defs.init opening

abbrev decided : StrategyModel → BookTop → VenueState → Evaluation
decided m top v =
    or_else (evaluate m top v) (record { model = m; venue = v; decision = hold top Gate.no_signal })

abbrev taken : Evaluation
taken = decided (engine 2) offered opened

taken_returns : evaluate (engine 2) offered opened ≡ some taken
unfolding Gate.run handle apply_system_event apply observe publish book_for apply_op apply_add
    level_add best_bid best_ask differs ◌+ℤ◌ evaluate effective_state touch select_primitive
    prim_take send ◌-ℤ◌ conclude record_resting next_token pack_order_token pack_bits pack_from
    note_fire
taken_returns = refl

taken_fires : fired taken.decision ≡ true
unfolding Gate.run handle apply_system_event apply observe publish book_for apply_op apply_add
    level_add best_bid best_ask differs ◌+ℤ◌ evaluate effective_state touch select_primitive
    prim_take send ◌-ℤ◌ conclude record_resting next_token pack_order_token pack_bits pack_from
    note_fire
taken_fires = refl

taken_sends : taken.decision.req.action ≡ Action.send
unfolding Gate.run handle apply_system_event apply observe publish book_for apply_op apply_add
    level_add best_bid best_ask differs ◌+ℤ◌ evaluate effective_state touch select_primitive
    prim_take send ◌-ℤ◌ conclude record_resting next_token pack_order_token pack_bits pack_from
    note_fire
taken_sends = refl

taken_takes : taken.decision.req.post_only ≡ false
unfolding Gate.run handle apply_system_event apply observe publish book_for apply_op apply_add
    level_add best_bid best_ask differs ◌+ℤ◌ evaluate effective_state touch select_primitive
    prim_take send ◌-ℤ◌ conclude record_resting next_token pack_order_token pack_bits pack_from
    note_fire
taken_takes = refl

offer-Addressed : Addressed State.init offer
offer-Addressed = λ r o found. cc

taker_meets_order_example :
    1
    ≤ sum_of
        (one 3 (other_side taken.decision.req.side) taken.decision.req.price)
        (apply State.init offer).0.orders
taker_meets_order_example =
    taker_meets_order State.init offer (engine 2) opened taken offer-Addressed init-IsConsistent
      taken_returns taken_sends taken_takes

fires_in_session_example :
    ((Gate.run Defs.init opening).last_system_event ≡ some b'Q')
    × ((Gate.run Defs.init opening).mwcb_breached ≡ false)
    × ((state_of (Gate.run Defs.init opening) offered.sym).operational_halt ≡ false)
    × ((state_of (Gate.run Defs.init opening) offered.sym).trading_action ≡ none)
fires_in_session_example =
    fires_in_session opening (engine 2) offered taken taken_returns taken_fires

-- The strategy that joins the offer instead.
abbrev joined : Evaluation
joined = decided (engine 4) offered opened

joined_returns : evaluate (engine 4) offered opened ≡ some joined
unfolding Gate.run handle apply_system_event apply observe publish book_for apply_op apply_add
    level_add best_bid best_ask differs ◌+ℤ◌ evaluate effective_state touch select_primitive
    prim_join send ◌-ℤ◌ conclude record_resting next_token pack_order_token pack_bits pack_from
    note_fire
joined_returns = refl

joined_sends : joined.decision.req.action ≡ Action.send
unfolding Gate.run handle apply_system_event apply observe publish book_for apply_op apply_add
    level_add best_bid best_ask differs ◌+ℤ◌ evaluate effective_state touch select_primitive
    prim_join send ◌-ℤ◌ conclude record_resting next_token pack_order_token pack_bits pack_from
    note_fire
joined_sends = refl

joined_only : joined.decision.req.post_only ≡ true
unfolding Gate.run handle apply_system_event apply observe publish book_for apply_op apply_add
    level_add best_bid best_ask differs ◌+ℤ◌ evaluate effective_state touch select_primitive
    prim_join send ◌-ℤ◌ conclude record_resting next_token pack_order_token pack_bits pack_from
    note_fire
joined_only = refl

post_only-Behind_example : Behind offered joined.decision.req.side joined.decision.req.price
post_only-Behind_example =
    post_only-Behind State.init offer (engine 4) opened joined joined_returns joined_sends
      joined_only

-- The same offer on a book that is stale.
abbrev stale_book : OrderBookModel
stale_book = mark_stale State.init 3 (caller 0)

stale_book_stale : (book_of stale_book 3).stale ≡ true
unfolding mark_stale
stale_book_stale = refl

abbrev stale_offer : BookTop
stale_offer = (apply (Isolation.run stale_book []) offer).1

stale_returns :
    evaluate (engine 2) stale_offer opened ≡ some (decided (engine 2) stale_offer opened)
unfolding Isolation.run mark_stale add_reason apply observe publish book_for apply_op apply_add
    level_add best_bid best_ask differs ◌+ℤ◌ evaluate
stale_returns = refl

stale_never_fires_example : fired (decided (engine 2) stale_offer opened).decision ≡ false
stale_never_fires_example =
    stale_never_fires stale_book [] offer (engine 2) opened (decided (engine 2) stale_offer opened)
      stale_book_stale stale_returns

abbrev breached : VenueState
breached = Gate.run (handle opened (mwcb_status b'1')).0 []

breached_returns : evaluate (engine 2) offered breached ≡ some (decided (engine 2) offered breached)
unfolding Gate.run handle apply_system_event apply_mwcb_status apply observe publish book_for
    apply_op apply_add level_add best_bid best_ask differs ◌+ℤ◌ evaluate effective_state
breached_returns = refl

breach_never_fires_example : fired (decided (engine 2) offered breached).decision ≡ false
breach_never_fires_example =
    breach_never_fires opened b'1' [] (engine 2) offered (decided (engine 2) offered breached) tt
      breached_returns
