-- ===== src/Strategy/Runs.antt =====
-- Runs of the engine: evaluations, feedback and parameter writes in any order.
use fpga_algotrading.Prelude.{
  ℕ, ◌≡◌, inl, inr, Option-cases, arith, Option, none, some, List, [], ◌∷◌, ◌++◌, if◌then◌else◌,
}
use mathlib.Core.Path.{subst₂}
use fpga_algotrading.Contract.{Side, BookTop, SymStrat, OrderReq}
use fpga_algotrading.Venue.Defs.{VenueState}
use fpga_algotrading.Strategy.State.{StrategyModel, fired, set_params}
use fpga_algotrading.Strategy.Engine.{Evaluation, evaluate, on_fill, on_terminal_ack, on_cancel_ack}

-- A call of the engine.
pub data Input : Type 0 where
  book_update : BookTop → VenueState → Input
  fill : ℕ → Side → ℕ → Input
  terminal_ack : ℕ → Input
  cancel_ack : ℕ → ℕ → Input
  write_params : ℕ → SymStrat → Input

-- The requests that an evaluation sends off.
abbrev pub requests : Evaluation → List OrderReq
requests e = if fired e.decision then e.decision.req ∷ [] else []

abbrev pub stepped : Option Evaluation → Option (StrategyModel × List OrderReq)
stepped none = none
stepped (some e) = some (e.model, requests e)

unfoldable pub step : StrategyModel → Input → Option (StrategyModel × List OrderReq)
step m (book_update top v) = stepped (evaluate m top v)
step m (fill sym side qty) = some (on_fill m sym side qty, [])
step m (terminal_ack sym) = some (on_terminal_ack m sym, [])
step m (cancel_ack sym token) = some (on_cancel_ack m sym token, [])
step m (write_params sym params) = some (set_params m sym params, [])

abbrev joined :
    List OrderReq → Option (StrategyModel × List OrderReq) → Option (StrategyModel × List OrderReq)
joined now none = none
joined now (some (m, later)) = some (m, now ++ later)

-- The engine after a list of inputs with the requests in their order; `none` where a call raises.
unfoldable pub run : StrategyModel → List Input → Option (StrategyModel × List OrderReq)
run m [] = some (m, [])
run m (input ∷ inputs) = elim (step m input) [
  | none ↦ none
  | some (m', now) ↦ joined now (run m' inputs)
]

-- The runs that return, step by step.
pub data Run : StrategyModel → List Input → StrategyModel → List OrderReq → Type 0 where
  done : {m : StrategyModel} → Run m [] m []
  continued :
      {m m₁ m₂ : StrategyModel} {input : Input} {inputs : List Input} {now later : List OrderReq}
      → step m input ≡ some (m₁, now)
      → Run m₁ inputs m₂ later
      → Run m (input ∷ inputs) m₂ (now ++ later)

pub run-Run :
    (inputs : List Input) (m m' : StrategyModel) (out : List OrderReq)
    → run m inputs ≡ some (m', out)
    → Run m inputs m' out
unfolding run
run-Run [] m m' out h = subst₂ (Run m []) (ground arith) (ground arith) done
run-Run (input ∷ inputs) m m' out h = elim (Option-cases (step m input)) [
  | inl fails ↦ absurd (ground arith)
  | inr ((m₁, now), steps) ↦ elim (Option-cases (run m₁ inputs)) [
    | inl fails ↦ absurd (ground arith)
    | inr ((m₂, later), runs) ↦
        subst₂ (Run m (input ∷ inputs)) (ground arith) (ground arith)
          (continued steps (run-Run inputs m₁ m₂ later runs))
  ]
]
