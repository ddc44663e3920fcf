-- ===== src/Strategy/Pacing.antt =====
-- One order at a time: no second request for a symbol before its feedback.
use fpga_algotrading.Prelude.{
  ℕ, ◌+◌, ◌≤◌, ◌≡◌, ◌≢◌, refl, ap, sym, ◌∙◌, inl, inr, Bool, true, false, some, List, [], ◌∷◌, ◌++◌,
  ◌==◌, arith, if◌then◌else◌, Option-cases, along_some, Bool-cases,
}
use mathlib.Core.Path.{subst}
use fpga_algotrading.Contract.{OrderReq, BookTop}
use fpga_algotrading.Venue.Defs.{VenueState}
use fpga_algotrading.Strategy.State.{
  set_params, StrategyCounters, StrategyModel, fired, sym_state, put_sym_state, StrategyState,
}
use fpga_algotrading.Strategy.Engine.{
  Evaluation, evaluate, on_fill, on_terminal_ack, on_cancel_ack, entered,
}
use fpga_algotrading.Strategy.Firing.{
  sym_state-entered, quiet, acted, evaluate-Outcome, sym_state-put, Recorded-Leaves,
}
use fpga_algotrading.Strategy.Runs.{
  Input, book_update, fill, terminal_ack, cancel_ack, write_params, step, stepped, requests, Run,
  done, continued, run, run-Run,
}

-- The requests for a symbol.
pub count_for : ℕ → List OrderReq → ℕ
count_for s [] = 0
count_for s (req ∷ reqs) = (if req.sym == s then 1 else 0) + count_for s reqs

count_for-append :
    (s : ℕ) (xs ys : List OrderReq) → count_for s (xs ++ ys) ≡ count_for s xs + count_for s ys
unfolding count_for
count_for-append s [] ys = omega arith
count_for-append s (x ∷ xs) ys = omega (arith, count_for-append s xs ys)

-- The input is no feedback for the symbol.
abbrev pub NoFeedback : ℕ → Input → Type 0
NoFeedback s (fill sym side qty) = sym ≢ s
NoFeedback s (terminal_ack sym) = sym ≢ s
NoFeedback s (cancel_ack sym token) = sym ≢ s
NoFeedback s _ = Unit

abbrev pub AllNoFeedback : ℕ → List Input → Type 0
AllNoFeedback s [] = Unit
AllNoFeedback s (input ∷ inputs) = NoFeedback s input × AllNoFeedback s inputs

abbrev pub is_pending : StrategyModel → ℕ → Bool
is_pending m s = (sym_state m s).pending

-- A symbol that is pending stays so and sends nothing; one that is not sends one request at most,
-- and is pending if it does.
abbrev Paced : ℕ → StrategyModel → StrategyModel → List OrderReq → Type 0
Paced s m m' reqs =
    (is_pending m s ≡ true → (is_pending m' s ≡ true) × (count_for s reqs ≡ 0))
    × (count_for s reqs ≤ 1)
    × (count_for s reqs ≡ 1 → is_pending m' s ≡ true)

still-Paced : (s : ℕ) (m m' : StrategyModel) → is_pending m' s ≡ is_pending m s → Paced s m m' []
unfolding count_for
still-Paced s m m' same = (λ h. (same ∙ h, refl), omega arith, λ h. cc)

put-Paced :
    (s : ℕ) (m : StrategyModel) (place : ℕ) (st : StrategyState)
    → place ≢ s
    → Paced s m (put_sym_state m place st) []
put-Paced s m place st ne =
    still-Paced s m (put_sym_state m place st) (ground (arith, sym_state-put m place s st))

requests_quiet : (e : Evaluation) → fired e.decision ≡ false → requests e ≡ []
requests_quiet e h = ground arith

requests_acted : (e : Evaluation) → fired e.decision ≡ true → requests e ≡ e.decision.req ∷ []
requests_acted e h = ground arith

quiet-Paced :
    (s : ℕ) (m : StrategyModel) (top : BookTop) (e : Evaluation) (c : StrategyCounters)
    → fired e.decision ≡ false
    → e.model ≡ record (entered m top.sym) { counters = c }
    → Paced s m e.model (requests e)
quiet-Paced s m top e c holds is =
    rw (requests_quiet e holds, is)
      (still-Paced s m (record (entered m top.sym) { counters = c })
        (ap (λ st. st.pending) (sym_state-entered m top.sym s)))

-- The request of a symbol that leaves it pending.
one-Paced :
    (s : ℕ) (m m' : StrategyModel) (req : OrderReq)
    → is_pending m req.sym ≡ false
    → is_pending m' req.sym ≡ true
    → (s ≢ req.sym → is_pending m' s ≡ is_pending m s)
    → Paced s m m' (req ∷ [])
unfolding count_for
one-Paced s m m' req idle pends others = elim (Bool-cases (req.sym == s)) [
  | inl same ↦
      let is : req.sym ≡ s = ground arith in
      let idle' = subst (λ k. is_pending m k ≡ false) is idle in
      let pends' = subst (λ k. is_pending m' k ≡ true) is pends in
      (λ h. cc, ground arith, λ _. pends')
  | inr other ↦
      let ne : s ≢ req.sym = ground arith in
      (λ h. (others ne ∙ h, ground arith), ground arith, λ h. ground arith)
]

evaluate-Paced :
    (s : ℕ) (m : StrategyModel) (top : BookTop) (v : VenueState) (e : Evaluation)
    → evaluate m top v ≡ some e
    → Paced s m e.model (requests e)
evaluate-Paced s m top v e run = elim (evaluate-Outcome m top v e run) [
  | quiet g holds is ↦ quiet-Paced s m top e _ holds is
  | acted passes fires _ proper records ↦
      let left = Recorded-Leaves (entered m top.sym) top _ _ e.model proper.sym records in
      rw (requests_acted e fires) (
        one-Paced s m e.model e.decision.req
          (subst (λ k. is_pending m k ≡ false) (sym proper.sym) passes.idle)
          (subst (λ k. is_pending e.model k ≡ true) (sym proper.sym) left.pends)
          (λ ne.
            ap (λ st. st.pending)
              (left.others s (λ q. ne (q ∙ sym proper.sym)) ∙ sym_state-entered m top.sym s)))
]

step-Paced :
    (s : ℕ) (m m' : StrategyModel) (input : Input) (out : List OrderReq)
    → NoFeedback s input
    → step m input ≡ some (m', out)
    → Paced s m m' out
unfolding step on_fill on_terminal_ack on_cancel_ack
step-Paced s m m' (book_update top v) out h is = elim (Option-cases (evaluate m top v)) [
  | inl fails ↦ absurd (ground arith)
  | inr (e, runs) ↦
      along_some (Paced s m) (ap stepped (sym runs) ∙ is) (evaluate-Paced s m top v e runs)
]
step-Paced s m m' (fill place side qty) out h is =
    along_some (Paced s m) is (put-Paced s m place _ h)
step-Paced s m m' (terminal_ack place) out h is =
    along_some (Paced s m) is (put-Paced s m place _ h)
step-Paced s m m' (cancel_ack place token) out h is =
    along_some (Paced s m) is (put-Paced s m place _ h)
step-Paced s m m' (write_params place params) out h is =
    along_some (Paced s m) is (still-Paced s m (set_params m place params) refl)

Run-Paced :
    (s : ℕ) (inputs : List Input) (m m' : StrategyModel) (out : List OrderReq)
    → AllNoFeedback s inputs
    → Run m inputs m' out
    → Paced s m m' out
unfolding count_for
Run-Paced s [] m _ _ h done = still-Paced s m m refl
Run-Paced s (input ∷ inputs) m m' _ h (continued {m₁ = m₁} {now = now} {later = later} steps runs) =
    let (keeps, few, pends) = step-Paced s m m₁ input now h.0 steps in
    let (keeps', few', pends') = Run-Paced s inputs m₁ m' later h.1 runs in
    rw (count_for-append s now later) (λ pend. ground arith, ground arith, λ one. ground arith)

-- Whatever inputs the engine gets, in any order and of any symbols, it sends one request at most
-- for a symbol until a fill or an acknowledgement of that symbol.
pub one_at_a_time :
    (s : ℕ) (inputs : List Input) (m m' : StrategyModel) (out : List OrderReq)
    → AllNoFeedback s inputs
    → run m inputs ≡ some (m', out)
    → count_for s out ≤ 1
one_at_a_time s inputs m m' out h runs =
    (Run-Paced s inputs m m' out h (run-Run inputs m m' out runs)).1

-- While an order of a symbol is pending the engine sends no request for the symbol, whatever inputs
-- it gets that are no fill or acknowledgement of that symbol, and the order stays pending.
pending_holds :
    (s : ℕ) (inputs : List Input) (m m' : StrategyModel) (out : List OrderReq)
    → AllNoFeedback s inputs
    → is_pending m s ≡ true
    → run m inputs ≡ some (m', out)
    → (count_for s out ≡ 0) × (is_pending m' s ≡ true)
pending_holds s inputs m m' out h pend runs =
    let (still, silent) = (Run-Paced s inputs m m' out h (run-Run inputs m m' out runs)).0 pend in
    (silent, still)
