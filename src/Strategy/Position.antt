-- ===== src/Strategy/Position.antt =====
-- The position of a symbol is what its fills add up to.
use fpga_algotrading.Prelude.{
  ℕ, ◌≡◌, refl, ap, sym, ◌∙◌, inl, inr, some, List, [], ◌∷◌, ◌==◌, arith, if◌then◌else◌,
  Option-cases, Bool-cases, along_some,
}
use mathlib.Core.Path.{subst}
use fpga_algotrading.Prelude.Int.{ℤ, pos, ◌+ℤ◌, ◌-ℤ◌, int_laws}
use fpga_algotrading.Contract.{Side, OrderReq, BookTop}
use fpga_algotrading.Venue.Defs.{VenueState}
use fpga_algotrading.Strategy.State.{
  StrategyModel, StrategyState, set_params, sym_state, put_sym_state,
}
use fpga_algotrading.Strategy.Engine.{
  Evaluation, evaluate, on_fill, on_terminal_ack, on_cancel_ack, entered, filled_bid, filled_ask,
  drop_bid, drop_ask,
}
use fpga_algotrading.Strategy.Firing.{
  quiet, acted, evaluate-Outcome, sym_state-put, sym_state-entered, Recorded-Leaves,
}
use fpga_algotrading.Strategy.Runs.{
  Input, book_update, fill, terminal_ack, cancel_ack, write_params, step, stepped, Run, done,
  continued, run, run-Run,
}

abbrev pub position_of : StrategyModel → ℕ → ℤ
position_of m s = (sym_state m s).position

-- The shares that an input adds to a symbol, bought or (negative) sold.
abbrev pub shares : ℕ → Input → ℤ
shares s (fill place side qty) =
    if s == place then elim side [ Side.buy ↦ pos qty | Side.sell ↦ pos 0 -ℤ pos qty ] else pos 0
shares s _ = pos 0

abbrev pub net_fills : ℕ → List Input → ℤ
net_fills s [] = pos 0
net_fills s (input ∷ inputs) = shares s input +ℤ net_fills s inputs

+ℤ_zero : (a : ℤ) → a +ℤ pos 0 ≡ a
+ℤ_zero a = grind int_laws

+ℤ_assoc : (a b c : ℤ) → (a +ℤ b) +ℤ c ≡ a +ℤ (b +ℤ c)
+ℤ_assoc a b c = grind int_laws

-ℤ_as_sum : (a b : ℤ) → a -ℤ b ≡ a +ℤ (pos 0 -ℤ b)
-ℤ_as_sum a b = grind int_laws

fill_keeps :
    (st : StrategyState) (qty : ℕ)
    → ((filled_bid st qty).position ≡ st.position) × ((filled_ask st qty).position ≡ st.position)
fill_keeps st qty = (ground arith, ground arith)

drop_keeps :
    (st : StrategyState) (token : ℕ)
    → ((drop_bid st token).position ≡ st.position) × ((drop_ask st token).position ≡ st.position)
drop_keeps st token = (ground arith, ground arith)

put-position :
    (m : StrategyModel) (place s : ℕ) (st : StrategyState)
    → position_of (put_sym_state m place st) s
      ≡ (if s == place then st.position else position_of m s)
put-position m place s st = ground (arith, sym_state-put m place s st)

still :
    (s : ℕ) (m m' : StrategyModel)
    → position_of m' s ≡ position_of m s
    → position_of m' s ≡ position_of m s +ℤ pos 0
still s m m' e = e ∙ sym (+ℤ_zero _)

-- The position after a state is put, where only the symbol's own moves by an amount.
put-moves :
    (m : StrategyModel) (place s : ℕ) (st : StrategyState) (d : ℤ)
    → st.position ≡ position_of m place +ℤ d
    → position_of (put_sym_state m place st) s
      ≡ position_of m s +ℤ (if s == place then d else pos 0)
put-moves m place s st d h = elim (Bool-cases (s == place)) [
  | inl same ↦
      let is : s ≡ place = ground arith in
      let at : position_of m s ≡ position_of m place = ap (position_of m) is in
      let moved : position_of m place +ℤ d ≡ position_of m s +ℤ d = ap (λ x. x +ℤ d) (sym at) in
      ground (arith, put-position m place s st)
  | inr other ↦ rw (other, put-position m place s st) (rw (other) (sym (+ℤ_zero _)))
]

put-still :
    (m : StrategyModel) (place s : ℕ) (st : StrategyState)
    → st.position ≡ position_of m place
    → position_of (put_sym_state m place st) s ≡ position_of m s +ℤ pos 0
put-still m place s st h = elim (Bool-cases (s == place)) [
  | inl same ↦
      let is : s ≡ place = ground arith in
      let at : position_of m s ≡ position_of m place = ap (position_of m) is in
      still s m (put_sym_state m place st) (ground (arith, put-position m place s st))
  | inr other ↦ still s m (put_sym_state m place st) (ground (arith, put-position m place s st))
]

evaluate-position :
    (s : ℕ) (m : StrategyModel) (top : BookTop) (v : VenueState) (e : Evaluation)
    → evaluate m top v ≡ some e
    → position_of e.model s ≡ position_of m s
evaluate-position s m top v e runs = elim (evaluate-Outcome m top v e runs) [
  | quiet g _ is ↦
      ap (λ m'. position_of m' s) is ∙ ap (λ st. st.position) (sym_state-entered m top.sym s)
  | acted _ _ _ proper records ↦
      let left = Recorded-Leaves (entered m top.sym) top _ _ e.model proper.sym records in
      elim (Bool-cases (s == top.sym)) [
        | inl same ↦
            let is : s ≡ top.sym = ground arith in
            subst (λ k. position_of e.model k ≡ position_of m k) (sym is)
              (left.position ∙ ap (λ st. st.position) (sym_state-entered m top.sym top.sym))
        | inr other ↦
            ap (λ st. st.position) (left.others s (ground arith) ∙ sym_state-entered m top.sym s)
      ]
]

abbrev Moved : ℕ → Input → StrategyModel → StrategyModel → List OrderReq → Type 0
Moved s input m m' out = position_of m' s ≡ position_of m s +ℤ shares s input

fill-Moved :
    (s : ℕ) (m : StrategyModel) (place : ℕ) (side : Side) (qty : ℕ)
    → Moved s (fill place side qty) m (on_fill m place side qty) []
unfolding on_fill
fill-Moved s m place Side.buy qty = put-moves m place s _ (pos qty) (fill_keeps _ qty).0
fill-Moved s m place Side.sell qty =
    put-moves m place s _ (pos 0 -ℤ pos qty)
      ((fill_keeps _ qty).1 ∙ -ℤ_as_sum (position_of m place) (pos qty))

step-Moved :
    (s : ℕ) (m m' : StrategyModel) (input : Input) (out : List OrderReq)
    → step m input ≡ some (m', out)
    → Moved s input m m' out
unfolding step on_terminal_ack on_cancel_ack
step-Moved s m m' (book_update top v) out is = elim (Option-cases (evaluate m top v)) [
  | inl fails ↦ absurd (ground arith)
  | inr (e, runs) ↦
      along_some (Moved s (book_update top v) m) (ap stepped (sym runs) ∙ is)
        (still s m e.model (evaluate-position s m top v e runs))
]
step-Moved s m m' (fill place side qty) out is =
    along_some (Moved s (fill place side qty) m) is (fill-Moved s m place side qty)
step-Moved s m m' (terminal_ack place) out is =
    along_some (Moved s (terminal_ack place) m) is (put-still m place s _ refl)
step-Moved s m m' (cancel_ack place token) out is =
    along_some (Moved s (cancel_ack place token) m) is
      (put-still m place s _ ((drop_keeps _ token).1 ∙ (drop_keeps _ token).0))
step-Moved s m m' (write_params place params) out is =
    along_some (Moved s (write_params place params) m) is
      (still s m (set_params m place params) refl)

Run-position :
    (s : ℕ) (inputs : List Input) (m m' : StrategyModel) (out : List OrderReq)
    → Run m inputs m' out
    → position_of m' s ≡ position_of m s +ℤ net_fills s inputs
Run-position s [] m _ _ done = sym (+ℤ_zero _)
Run-position s (input ∷ inputs) m m' _
      (continued {m₁ = m₁} {now = now} {later = later} steps runs) =
    Run-position s inputs m₁ m' later runs
    ∙ ap (λ x. x +ℤ net_fills s inputs) (step-Moved s m m₁ input now steps)
    ∙ +ℤ_assoc (position_of m s) (shares s input) (net_fills s inputs)

-- After any run the position of a symbol is the position before it and the net shares of the
-- symbol's fills in the run; evaluations, acknowledgements and parameter writes do not move it.
pub run-position :
    (s : ℕ) (inputs : List Input) (m m' : StrategyModel) (out : List OrderReq)
    → run m inputs ≡ some (m', out)
    → position_of m' s ≡ position_of m s +ℤ net_fills s inputs
run-position s inputs m m' out runs = Run-position s inputs m m' out (run-Run inputs m m' out runs)
