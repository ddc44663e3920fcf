-- ===== src/Strategy/Firing.antt =====
-- Firing evaluations: the gates are open, the request is proper, and the symbol is pending after.
use fpga_algotrading.Prelude.{
  ℕ, ◌≡◌, ◌≢◌, refl, ap, sym, ◌∙◌, ◌+◌, ◌%◌, ◌⊎◌, inl, inr, true, false, some, ◌==◌, arith,
  if◌then◌else◌, Option-cases, Bool-cases, or_else,
}
use mathlib.Core.Path.{subst}
use fpga_algotrading.Dict.{lookup-insert}
use fpga_algotrading.Contract.{OrderToken, BookTop, OrderReq, Action}
use fpga_algotrading.Contract.Pack.{pack_order_token}
use fpga_algotrading.Contract.Widths.{pack_order_token_nonzero}
use fpga_algotrading.Venue.Defs.{VenueState, touch}
use fpga_algotrading.Strategy.State.{
  Gate, note_gate, StrategyState, StrategyModel, StrategyDecision, fired, get_params, sym_state,
  put_sym_state, note_fire,
}
use fpga_algotrading.Strategy.Engine.{
  Evaluation, blocked, conclude, entered, evaluate, select_primitive, rests, record_resting,
  next_token, acting,
}
use fpga_algotrading.Strategy.Gates.{Passes, at_gate, at_primitive, evaluate-Ends}
use fpga_algotrading.Strategy.Decisions.{IsProper, Asked, Asked-of, select_primitive-IsProper}

Action-cases : (a : Action) → (a ≡ Action.send) ⊎ (a ≢ Action.send)
Action-cases Action.none = inr (λ e. cc)
Action-cases Action.send = inl refl
Action-cases Action.cancel = inr (λ e. cc)

-- What `record_resting` does where it returns.
pub data Recorded (m : StrategyModel) (req : OrderReq) (m' : StrategyModel) : Type 0 where
  skipped : req.action ≢ Action.send → m' ≡ m → Recorded m req m'
  rested :
      (token : ℕ)
      → req.action ≡ Action.send
      → token ≢ 0
      → m'
        ≡ put_sym_state
            (record m { token_counter = m.token_counter + 1 })
            req.sym
            (rests (sym_state m req.sym) req token)
      → Recorded m req m'

-- The token that `_next_token` asks for.
abbrev pub asked : StrategyModel → ℕ → ℕ → OrderToken
asked m sym strat_id = record {
  magic = m.token_magic;
  strat_id = strat_id % 16;
  sym = sym % 4096;
  counter = m.token_counter + 1;
  rsvd = 0;
}

pub record_resting-Recorded :
    (m m' : StrategyModel) (req : OrderReq) → record_resting m req ≡ some m' → Recorded m req m'
unfolding record_resting next_token
record_resting-Recorded m m' req run =
    elim (Option-cases (pack_order_token (asked m req.sym req.strat_id))) [
      | inl fails ↦ skipped (ground arith) (ground arith)
      | inr (token, packs) ↦ elim (Action-cases req.action) [
        | inl sends ↦
            rested token sends (pack_order_token_nonzero _ token packs (omega arith)) (ground arith)
        | inr other ↦ skipped other (ground arith)
      ]
    ]

-- The engine as it is handed to `record_resting` when a decision fires.
abbrev pub armed : StrategyModel → BookTop → ℕ → StrategyModel
armed m top select =
    put_sym_state (record m { counters = note_fire m.counters select }) top.sym
      (acting (sym_state m top.sym) top.rx_cycle)

-- What an evaluation does: nothing but count, or act on a proper request with every gate open.
pub data Outcome (m : StrategyModel) (top : BookTop) (v : VenueState) (e : Evaluation)
    : Type 0 where
  quiet :
      (g : Gate)
      → fired e.decision ≡ false
      → e.model ≡ record (entered m top.sym) { counters = note_gate (entered m top.sym).counters g }
      → Outcome m top v e
  acted :
      Passes m top v
      → fired e.decision ≡ true
      → select_primitive top (get_params m top.sym) (sym_state m top.sym) ≡ inr e.decision
      → IsProper top (get_params m top.sym) (sym_state m top.sym) e.decision.req
      → Recorded
          (armed (entered m top.sym) top (get_params m top.sym).strat_select)
          e.decision.req
          e.model
      → Outcome m top v e

conclude-Outcome :
    (m : StrategyModel) (top : BookTop) (v : VenueState) (d : StrategyDecision) (e : Evaluation)
    → Passes m top v
    → select_primitive top (get_params m top.sym) (sym_state m top.sym) ≡ inr d
    → conclude (entered m top.sym) (touch v top.sym) top (get_params m top.sym).strat_select d
      ≡ some e
    → Outcome m top v e
unfolding conclude
conclude-Outcome m top v d e passes runs ends =
    let select = (get_params m top.sym).strat_select in
    let m₁ = armed (entered m top.sym) top select in
    elim (Bool-cases (fired d)) [
      | inr holds ↦ quiet (or_else d.gate Gate.no_signal) (ground arith) (ground arith)
      | inl fires ↦ elim (Option-cases (record_resting m₁ d.req)) [
        | inl fails ↦ quiet Gate.no_signal (ground arith) (ground arith)
        | inr (m', records) ↦
            let same : d ≡ e.decision = ground arith in
            acted passes (ground arith) (runs ∙ ap inr same)
              (subst (λ x. IsProper top (get_params m top.sym) (sym_state m top.sym) x.req) same
                (select_primitive-IsProper top _ _ d runs))
              (record_resting-Recorded m₁ e.model e.decision.req (ground arith))
      ]
    ]

pub evaluate-Outcome :
    (m : StrategyModel) (top : BookTop) (v : VenueState) (e : Evaluation)
    → evaluate m top v ≡ some e
    → Outcome m top v e
unfolding blocked
evaluate-Outcome m top v e run = elim (evaluate-Ends m top v e run) [
  | at_gate v' g is ↦ quiet g (ground arith) (ground arith)
  | at_primitive d passes runs ends ↦ conclude-Outcome m top v d e passes runs ends
]

pub sym_state-put :
    (m : StrategyModel) (k s : ℕ) (st : StrategyState)
    → sym_state (put_sym_state m k st) s ≡ (if s == k then st else sym_state m s)
sym_state-put m k s st = ground (arith, lookup-insert s k st m.state)

-- Entering writes the state that is there.
pub sym_state-entered : (m : StrategyModel) (k s : ℕ) → sym_state (entered m k) s ≡ sym_state m s
sym_state-entered m k s = elim (Bool-cases (s == k)) [
  | inl same ↦
      let is : s ≡ k = ground arith in
      subst (λ j. sym_state (entered m k) j ≡ sym_state m j) (sym is)
        (ground (arith, sym_state-put m k k (sym_state m k)))
  | inr other ↦ ground (arith, sym_state-put m k s (sym_state m k))
]

-- What acting on a decision for a symbol leaves behind.
pub record Leaves (m : StrategyModel) (place : ℕ) (m' : StrategyModel) : Type 0 where
  pub pends : (sym_state m' place).pending ≡ true
  pub position : (sym_state m' place).position ≡ (sym_state m place).position
  pub others : (s : ℕ) → s ≢ place → sym_state m' s ≡ sym_state m s

put-Leaves :
    (m m₁ : StrategyModel) (place : ℕ) (st : StrategyState)
    → st.pending ≡ true
    → st.position ≡ (sym_state m place).position
    → ((s : ℕ) → s ≢ place → sym_state m₁ s ≡ sym_state m s)
    → Leaves m place (put_sym_state m₁ place st)
put-Leaves m m₁ place st pends position others = record {
  pends = ground (arith, sym_state-put m₁ place place st);
  position = ground (arith, sym_state-put m₁ place place st);
  others = λ s ne. ground (arith, sym_state-put m₁ place s st, others s);
}

armed-Leaves :
    (m : StrategyModel) (top : BookTop) (select : ℕ) → Leaves m top.sym (armed m top select)
armed-Leaves m top select = put-Leaves m _ top.sym _ refl refl (λ s ne. refl)

rests_keeps :
    (st : StrategyState) (req : OrderReq) (token : ℕ)
    → ((rests st req token).pending ≡ st.pending) × ((rests st req token).position ≡ st.position)
rests_keeps st req token = ground arith

rested-Leaves :
    (m m₁ : StrategyModel) (req : OrderReq) (token : ℕ)
    → Leaves m req.sym m₁
    → Leaves m req.sym (
        put_sym_state
          (record m₁ { token_counter = m₁.token_counter + 1 })
          req.sym
          (rests (sym_state m₁ req.sym) req token))
rested-Leaves m m₁ req token h =
    let (pends, position) = rests_keeps (sym_state m₁ req.sym) req token in
    put-Leaves m _ req.sym _ (pends ∙ h.pends) (position ∙ h.position) h.others

pub Recorded-Leaves :
    (m : StrategyModel) (top : BookTop) (select : ℕ) (req : OrderReq) (m' : StrategyModel)
    → req.sym ≡ top.sym
    → Recorded (armed m top select) req m'
    → Leaves m top.sym m'
Recorded-Leaves m top select req m' same r = elim r [
  | skipped other is ↦ subst (Leaves m top.sym) (sym is) (armed-Leaves m top select)
  | rested token sends nonzero is ↦
      subst (λ s. Leaves m s m') same
        (subst (Leaves m req.sym) (sym is) (
          rested-Leaves m (armed m top select) req token
            (subst (λ s. Leaves m s (armed m top select)) (sym same) (armed-Leaves m top select))))
]

-- An evaluation that fires had every gate open: the parameters enable the symbol, the book is
-- neither stale nor crossed, the symbol is in the open session, no order of the symbol is pending
-- and the size to quote is not zero. The symbol is pending afterwards.
pub fires_gated :
    (m : StrategyModel) (top : BookTop) (v : VenueState) (e : Evaluation)
    → evaluate m top v ≡ some e
    → fired e.decision ≡ true
    → Passes m top v × ((sym_state e.model top.sym).pending ≡ true)
fires_gated m top v e run f = elim (evaluate-Outcome m top v e run) [
  | quiet g holds _ ↦ cc
  | acted passes _ _ proper records ↦
      (passes, (Recorded-Leaves _ top _ _ e.model proper.sym records).pends)
]

pub fired-IsProper :
    (m : StrategyModel) (top : BookTop) (v : VenueState) (e : Evaluation)
    → evaluate m top v ≡ some e
    → fired e.decision ≡ true
    → IsProper top (get_params m top.sym) (sym_state m top.sym) e.decision.req
fired-IsProper m top v e run f = elim (evaluate-Outcome m top v e run) [
  | quiet g holds _ ↦ cc
  | acted _ _ _ proper _ ↦ proper
]

-- The request of an evaluation that fires is a send or a cancel for the symbol of the top. A send
-- asks for the size of the parameters, carries no token, and is marked short exactly when it sells
-- more than the position; a post-only order is priced at its own side of the book or further away,
-- any other at the best price of the other side. A cancel carries the token of our order on the
-- side it names, which is not zero.
pub fires_proper :
    (m : StrategyModel) (top : BookTop) (v : VenueState) (e : Evaluation)
    → evaluate m top v ≡ some e
    → fired e.decision ≡ true
    → Asked e.decision.req.action top (get_params m top.sym) (sym_state m top.sym) e.decision.req
fires_proper m top v e run f =
    Asked-of e.decision.req.action top _ _ e.decision.req refl (λ is. ground arith)
      (fired-IsProper m top v e run f)
