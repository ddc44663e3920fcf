-- ===== src/Strategy/Gates.antt =====
-- When an evaluation may fire: every gate is open.
use fpga_algotrading.Prelude.{
  ℕ, ◌≡◌, ◌≢◌, sym, ◌∙◌, inl, inr, true, false, Option, none, some, ◌==◌, arith, Option-cases,
  Sum-cases, if◌then◌else◌, not,
}
use fpga_algotrading.Contract.{SymStrat, TradeState, BookTop, is_open}
use fpga_algotrading.Venue.Defs.{touch, VenueState, effective_state}
use fpga_algotrading.Strategy.State.{
  StrategyState, Gate, StrategyDecision, StrategyModel, get_params, sym_state,
}
use fpga_algotrading.Strategy.Engine.{
  Evaluation, conclude, entered, select_primitive, blocked, evaluate,
}

-- The conditions that the gates of `evaluate` check.
pub record Passes (m : StrategyModel) (top : BookTop) (v : VenueState) : Type 0 where
  pub enabled : (get_params m top.sym).strat_enabled ≡ true
  pub fresh : top.stale ≡ false
  pub uncrossed : top.crossed ≡ false
  pub in_session : effective_state v top.sym ≡ TradeState.open_session
  pub idle : (sym_state m top.sym).pending ≡ false
  pub sized : (get_params m top.sym).quote_qty ≢ 0

-- The gates of `evaluate` before the venue is read, and those after it.
abbrev early_gate : SymStrat → BookTop → Option Gate
early_gate params top =
    if not params.strat_enabled
    then some Gate.strat_disabled
    else if top.stale
    then some Gate.book_stale
    else if top.crossed
    then some Gate.book_crossed
    else none

abbrev late_gate : SymStrat → StrategyState → TradeState → Option Gate
late_gate params st state =
    if not (is_open state)
    then some Gate.not_open
    else if st.pending
    then some Gate.pending
    else if params.quote_qty == 0
    then some Gate.zero_quote_qty
    else none

-- `evaluate` by its two rows of gates.
abbrev staged : StrategyModel → BookTop → VenueState → Option Evaluation
staged m top v =
    let params = get_params m top.sym in
    let st = sym_state m top.sym in
    let m' = entered m top.sym in
    let v' = touch v top.sym in
    elim (early_gate params top) [
      | some g ↦ some (blocked m' v top g)
      | none ↦ elim (late_gate params st (effective_state v top.sym)) [
        | some g ↦ some (blocked m' v' top g)
        | none ↦ elim (select_primitive top params st) [
          | inl g ↦ some (blocked m' v' top g)
          | inr d ↦ conclude m' v' top params.strat_select d
        ]
      ]
    ]

evaluate-staged :
    (m : StrategyModel) (top : BookTop) (v : VenueState) → evaluate m top v ≡ staged m top v
unfolding evaluate
evaluate-staged m top v = ground arith

early_open :
    (m : StrategyModel) (top : BookTop)
    → early_gate (get_params m top.sym) top ≡ none
    → ((get_params m top.sym).strat_enabled ≡ true) × (top.stale ≡ false) × (top.crossed ≡ false)
early_open m top h = ground arith

late_open :
    (m : StrategyModel) (sym : ℕ) (now : TradeState)
    → late_gate (get_params m sym) (sym_state m sym) now ≡ none
    → (now ≡ TradeState.open_session)
      × ((sym_state m sym).pending ≡ false)
      × ((get_params m sym).quote_qty ≢ 0)
late_open m sym now h = ground arith

-- Where an evaluation ends: at a gate of `evaluate`, or with every gate open in the decision of the
-- primitive.
pub data Ends (m : StrategyModel) (top : BookTop) (v : VenueState) (e : Evaluation) : Type 0 where
  at_gate : (v' : VenueState) (g : Gate) → e ≡ blocked (entered m top.sym) v' top g → Ends m top v e
  at_primitive :
      (d : StrategyDecision)
      → Passes m top v
      → select_primitive top (get_params m top.sym) (sym_state m top.sym) ≡ inr d
      → conclude (entered m top.sym) (touch v top.sym) top (get_params m top.sym).strat_select d
        ≡ some e
      → Ends m top v e

staged-Ends :
    (m : StrategyModel) (top : BookTop) (v : VenueState) (e : Evaluation)
    → staged m top v ≡ some e
    → Ends m top v e
staged-Ends m top v e run =
    let params = get_params m top.sym in
    let st = sym_state m top.sym in
    let now = effective_state v top.sym in
    elim (Option-cases (early_gate params top)) [
      | inr (g, early) ↦ at_gate v g (ground arith)
      | inl open₁ ↦ elim (Option-cases (late_gate params st now)) [
        | inr (g, late) ↦ at_gate (touch v top.sym) g (ground arith)
        | inl open₂ ↦ elim (Sum-cases (select_primitive top params st)) [
          | inl (g, none_runs) ↦ at_gate (touch v top.sym) g (ground arith)
          | inr (d, runs) ↦
              let (enabled, fresh, uncrossed) = early_open m top open₁ in
              let (in_session, idle, sized) = late_open m top.sym now open₂ in
              at_primitive d
                (record {
                  enabled = enabled;
                  fresh = fresh;
                  uncrossed = uncrossed;
                  in_session = in_session;
                  idle = idle;
                  sized = sized;
                })
                runs (ground arith)
        ]
      ]
    ]

pub evaluate-Ends :
    (m : StrategyModel) (top : BookTop) (v : VenueState) (e : Evaluation)
    → evaluate m top v ≡ some e
    → Ends m top v e
evaluate-Ends m top v e run = staged-Ends m top v e (sym (evaluate-staged m top v) ∙ run)
