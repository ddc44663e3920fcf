-- ===== src/Strategy/Resting.antt =====
-- What the engine believes to rest: no token, no order.
use fpga_algotrading.Prelude.{
  ℕ, ◌+◌, ◌≡◌, ◌≢◌, ap, sym, ◌∙◌, inl, inr, false, some, List, [], ◌∷◌, ◌==◌, arith, Option-cases,
  Bool-cases, along_some,
}
use mathlib.Core.Path.{subst}
use fpga_algotrading.Dict.{Dict}
use fpga_algotrading.Contract.{Side, Action, OrderReq, BookTop, SymStrat}
use fpga_algotrading.Venue.Defs.{VenueState}
use fpga_algotrading.Strategy.State.{
  note_fire, StrategyState, StrategyModel, sym_state, put_sym_state, new_model,
}
use fpga_algotrading.Strategy.Engine.{
  Evaluation, evaluate, on_fill, on_terminal_ack, on_cancel_ack, acting, entered, rests, filled_bid,
  filled_ask, drop_bid, drop_ask,
}
use fpga_algotrading.Strategy.Firing.{
  Recorded, skipped, rested, quiet, acted, evaluate-Outcome, armed, sym_state-put,
  sym_state-entered,
}
use fpga_algotrading.Strategy.Runs.{
  Input, book_update, fill, terminal_ack, cancel_ack, write_params, step, stepped, Run, done,
  continued, run, run-Run,
}

-- One side: without a token there is no price and no quantity, with one there is a quantity.
abbrev pub Tidy : ℕ → ℕ → ℕ → Type 0
Tidy token px qty = (token ≡ 0 → (px ≡ 0) × (qty ≡ 0)) × (token ≢ 0 → qty ≢ 0)

pub record IsTracked (st : StrategyState) : Type 0 where
  pub bid : Tidy st.resting_bid_token st.resting_bid_px st.resting_bid_qty
  pub ask : Tidy st.resting_ask_token st.resting_ask_px st.resting_ask_qty

abbrev pub AllTracked : StrategyModel → Type 0
AllTracked m = (s : ℕ) → IsTracked (sym_state m s)

put-AllTracked :
    (m : StrategyModel) (place : ℕ) (st : StrategyState)
    → IsTracked st
    → AllTracked m
    → AllTracked (put_sym_state m place st)
put-AllTracked m place st h all s = elim (Bool-cases (s == place)) [
  | inl same ↦ subst IsTracked (sym (ground (arith, sym_state-put m place s st))) h
  | inr other ↦ subst IsTracked (sym (ground (arith, sym_state-put m place s st))) (all s)
]

filled_bid-IsTracked : (st : StrategyState) (qty : ℕ) → IsTracked st → IsTracked (filled_bid st qty)
filled_bid-IsTracked st qty h = record { bid = ground (arith, h.bid); ask = ground (arith, h.ask) }

filled_ask-IsTracked : (st : StrategyState) (qty : ℕ) → IsTracked st → IsTracked (filled_ask st qty)
filled_ask-IsTracked st qty h = record { bid = ground (arith, h.bid); ask = ground (arith, h.ask) }

drop_bid-IsTracked : (st : StrategyState) (token : ℕ) → IsTracked st → IsTracked (drop_bid st token)
drop_bid-IsTracked st token h = record { bid = ground (arith, h.bid); ask = ground (arith, h.ask) }

drop_ask-IsTracked : (st : StrategyState) (token : ℕ) → IsTracked st → IsTracked (drop_ask st token)
drop_ask-IsTracked st token h = record { bid = ground (arith, h.bid); ask = ground (arith, h.ask) }

rests-IsTracked :
    (st : StrategyState) (req : OrderReq) (token : ℕ)
    → token ≢ 0
    → req.qty ≢ 0
    → IsTracked st
    → IsTracked (rests st req token)
rests-IsTracked st req token t q h = record {
  bid = ground (arith, h.bid);
  ask = ground (arith, h.ask);
}

-- The parts that neither the position, the pending bit nor the cycle touches.
idle-IsTracked : (st : StrategyState) → IsTracked st → IsTracked (record st { pending = false })
idle-IsTracked st h = record { bid = h.bid; ask = h.ask }

Recorded-AllTracked :
    (m : StrategyModel) (top : BookTop) (select : ℕ) (req : OrderReq) (m' : StrategyModel)
    → (req.action ≡ Action.send → req.qty ≢ 0)
    → Recorded (armed m top select) req m'
    → AllTracked m
    → AllTracked m'
Recorded-AllTracked m top select req m' sized r all =
    let m₁ = armed m top select in
    let ready : AllTracked m₁ =
      put-AllTracked (record m { counters = note_fire m.counters select }) top.sym
        (acting (sym_state m top.sym) top.rx_cycle)
        (record { bid = (all top.sym).bid; ask = (all top.sym).ask }) all in
    elim r [
      | skipped _ is ↦ subst AllTracked (sym is) ready
      | rested token sends nonzero is ↦ subst AllTracked (sym is) (
          put-AllTracked (record m₁ { token_counter = m₁.token_counter + 1 }) req.sym
            (rests (sym_state m₁ req.sym) req token)
            (rests-IsTracked (sym_state m₁ req.sym) req token nonzero (sized sends) (ready req.sym))
            ready)
    ]

entered-AllTracked : (m : StrategyModel) (place : ℕ) → AllTracked m → AllTracked (entered m place)
entered-AllTracked m place all s = subst IsTracked (sym (sym_state-entered m place s)) (all s)

evaluate-AllTracked :
    (m : StrategyModel) (top : BookTop) (v : VenueState) (e : Evaluation)
    → evaluate m top v ≡ some e
    → AllTracked m
    → AllTracked e.model
evaluate-AllTracked m top v e runs all = elim (evaluate-Outcome m top v e runs) [
  | quiet g _ is ↦ subst AllTracked (sym is) (entered-AllTracked m top.sym all)
  | acted passes _ _ proper records ↦
      Recorded-AllTracked (entered m top.sym) top _ _ e.model
        (λ sends zero. passes.sized (sym (proper.qty sends) ∙ zero)) records
        (entered-AllTracked m top.sym all)
]

abbrev Keeps : StrategyModel → List OrderReq → Type 0
Keeps m' out = AllTracked m'

fill-AllTracked :
    (m : StrategyModel) (place : ℕ) (side : Side) (qty : ℕ)
    → AllTracked m
    → AllTracked (on_fill m place side qty)
unfolding on_fill
fill-AllTracked m place Side.buy qty all =
    put-AllTracked m place _
      (filled_bid-IsTracked _ qty (record { bid = (all place).bid; ask = (all place).ask })) all
fill-AllTracked m place Side.sell qty all =
    put-AllTracked m place _
      (filled_ask-IsTracked _ qty (record { bid = (all place).bid; ask = (all place).ask })) all

step-AllTracked :
    (m m' : StrategyModel) (input : Input) (out : List OrderReq)
    → step m input ≡ some (m', out)
    → AllTracked m
    → AllTracked m'
unfolding step on_terminal_ack on_cancel_ack
step-AllTracked m m' (book_update top v) out is all = elim (Option-cases (evaluate m top v)) [
  | inl fails ↦ absurd (ground arith)
  | inr (e, runs) ↦
      along_some Keeps (ap stepped (sym runs) ∙ is) (evaluate-AllTracked m top v e runs all)
]
step-AllTracked m m' (fill place side qty) out is all =
    along_some Keeps is (fill-AllTracked m place side qty all)
step-AllTracked m m' (terminal_ack place) out is all =
    along_some Keeps is (put-AllTracked m place _ (idle-IsTracked _ (all place)) all)
step-AllTracked m m' (cancel_ack place token) out is all = along_some Keeps is (
    put-AllTracked m place _
      (drop_ask-IsTracked _ token (drop_bid-IsTracked _ token (idle-IsTracked _ (all place)))) all)
step-AllTracked m m' (write_params place params) out is all = along_some Keeps is all

Run-AllTracked :
    (inputs : List Input) (m m' : StrategyModel) (out : List OrderReq)
    → Run m inputs m' out
    → AllTracked m
    → AllTracked m'
Run-AllTracked [] m _ _ done all = all
Run-AllTracked (input ∷ inputs) m m' _ (continued {m₁ = m₁} {now = now} {later = later} steps runs)
      all =
    Run-AllTracked inputs m₁ m' later runs (step-AllTracked m m₁ input now steps all)

-- From a new engine, after any run, each side of each symbol is tidy: where the token is zero the
-- price and the quantity are zero, and where it is not the quantity is not.
pub run-AllTracked :
    (params : Dict SymStrat) (magic start : ℕ) (inputs : List Input) (m' : StrategyModel)
    (out : List OrderReq)
    → run (new_model params magic start) inputs ≡ some (m', out)
    → AllTracked m'
run-AllTracked params magic start inputs m' out runs =
    Run-AllTracked inputs (new_model params magic start) m' out
      (run-Run inputs (new_model params magic start) m' out runs)
      (λ s. record { bid = ground arith; ask = ground arith })
