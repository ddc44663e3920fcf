-- ===== src/Strategy/Totals.antt =====
-- The counters of the engine add up.
use fpga_algotrading.Prelude.{
  ℕ, ◌+◌, ◌≡◌, refl, ap, sym, ◌∙◌, inl, inr, some, List, [], ◌∷◌, arith, Option-cases, along_some,
  or_else, length, length-append,
}
use fpga_algotrading.Dict.{Dict, lookup, insert, sum_of, sum-insert_old, sum-insert_new}
use fpga_algotrading.Contract.{OrderReq, BookTop}
use fpga_algotrading.Venue.Defs.{VenueState}
use fpga_algotrading.Strategy.State.{
  Gate, gate_code, StrategyCounters, note_gate, note_fire, StrategyModel, get_params,
}
use fpga_algotrading.Strategy.Engine.{Evaluation, evaluate, on_fill, on_terminal_ack, on_cancel_ack}
use fpga_algotrading.Strategy.Firing.{Recorded, skipped, rested, quiet, acted, evaluate-Outcome}
use fpga_algotrading.Strategy.Runs.{
  Input, book_update, fill, terminal_ack, cancel_ack, write_params, step, stepped, requests, Run,
  done, continued, run, run-Run,
}

abbrev pub total : Dict ℕ → ℕ
total d = sum_of (λ n. n) d

-- `d[k] = d.get(k, 0) + 1`
bump_total : (k : ℕ) (d : Dict ℕ) → total (insert k (or_else (lookup k d) 0 + 1) d) ≡ total d + 1
bump_total k d = elim (Option-cases (lookup k d)) [
  | inl absent ↦ rw (absent, sum-insert_new (λ n. n) k 1 d absent) refl
  | inr (n, found) ↦ rw (found) (omega (arith, sum-insert_old (λ n. n) k (n + 1) n d found))
]

-- Every evaluation is counted as a fire of one primitive or under one gate.
pub record AddsUp (c : StrategyCounters) : Type 0 where
  pub evaluations : c.evaluations ≡ c.fires + total c.gated_by
  pub fires : c.fires ≡ total c.fires_by_primitive

abbrev entered_counters : StrategyCounters → StrategyCounters
entered_counters c = record c { evaluations = c.evaluations + 1 }

-- What an input adds: the evaluations and the fires.
record Adds (c c' : StrategyCounters) (evaluated sent : ℕ) : Type 0 where
  evaluations : c'.evaluations ≡ c.evaluations + evaluated
  fires : c'.fires ≡ c.fires + sent
  adds_up : AddsUp c → AddsUp c'

gate-Counted : (c : StrategyCounters) (g : Gate) → Adds c (note_gate (entered_counters c) g) 1 0
unfolding note_gate
gate-Counted c g = record {
  evaluations = refl;
  fires = omega arith;
  adds_up = λ h. record {
    evaluations = omega (arith, bump_total (gate_code g) c.gated_by, h.evaluations);
    fires = h.fires;
  };
}

fire-Counted :
    (c : StrategyCounters) (primitive : ℕ) → Adds c (note_fire (entered_counters c) primitive) 1 1
unfolding note_fire
fire-Counted c primitive = record {
  evaluations = refl;
  fires = refl;
  adds_up = λ h. record {
    evaluations = omega (arith, h.evaluations);
    fires = omega (arith, bump_total primitive c.fires_by_primitive, h.fires);
  };
}

still-Counted : (c : StrategyCounters) → Adds c c 0 0
still-Counted c = record { evaluations = omega arith; fires = omega arith; adds_up = λ h. h }

Recorded-counters :
    (m m' : StrategyModel) (req : OrderReq) → Recorded m req m' → m'.counters ≡ m.counters
Recorded-counters m m' req r = elim r [
  | skipped _ is ↦ ap (λ x. x.counters) is
  | rested _ _ _ is ↦ ap (λ x. x.counters) is
]

-- What an input adds to the evaluations.
abbrev pub evaluates : Input → ℕ
evaluates (book_update top v) = 1
evaluates _ = 0

abbrev pub evaluations_in : List Input → ℕ
evaluations_in [] = 0
evaluations_in (input ∷ inputs) = evaluates input + evaluations_in inputs

abbrev CountedBy : StrategyModel → ℕ → StrategyModel → List OrderReq → Type 0
CountedBy m n m' out = Adds m.counters m'.counters n (length out)

evaluate-Counted :
    (m : StrategyModel) (top : BookTop) (v : VenueState) (e : Evaluation)
    → evaluate m top v ≡ some e
    → CountedBy m 1 e.model (requests e)
evaluate-Counted m top v e runs = elim (evaluate-Outcome m top v e runs) [
  | quiet g holds is ↦ rw (holds, is) (gate-Counted m.counters g)
  | acted _ fires _ _ records ↦
      rw (fires, Recorded-counters _ e.model _ records)
        (fire-Counted m.counters (get_params m top.sym).strat_select)
]

step-Counted :
    (m m' : StrategyModel) (input : Input) (out : List OrderReq)
    → step m input ≡ some (m', out)
    → CountedBy m (evaluates input) m' out
unfolding step on_fill on_terminal_ack on_cancel_ack
step-Counted m m' (book_update top v) out is = elim (Option-cases (evaluate m top v)) [
  | inl fails ↦ absurd (ground arith)
  | inr (e, runs) ↦
      along_some (CountedBy m 1) (ap stepped (sym runs) ∙ is) (evaluate-Counted m top v e runs)
]
step-Counted m m' (fill place side qty) out is =
    along_some (CountedBy m 0) is (still-Counted m.counters)
step-Counted m m' (terminal_ack place) out is =
    along_some (CountedBy m 0) is (still-Counted m.counters)
step-Counted m m' (cancel_ack place token) out is =
    along_some (CountedBy m 0) is (still-Counted m.counters)
step-Counted m m' (write_params place params) out is =
    along_some (CountedBy m 0) is (still-Counted m.counters)

Run-Counted :
    (inputs : List Input) (m m' : StrategyModel) (out : List OrderReq)
    → Run m inputs m' out
    → CountedBy m (evaluations_in inputs) m' out
Run-Counted [] m _ _ done = still-Counted m.counters
Run-Counted (input ∷ inputs) m m' _ (continued {m₁ = m₁} {now = now} {later = later} steps runs) =
    let first = step-Counted m m₁ input now steps in
    let rest = Run-Counted inputs m₁ m' later runs in
    record {
      evaluations = omega (arith, first.evaluations, rest.evaluations);
      fires = omega (arith, first.fires, rest.fires, length-append now later);
      adds_up = λ h. rest.adds_up (first.adds_up h);
    }

-- The counters after a run, with what the run added.
pub record Counted (c c' : StrategyCounters) (evaluated sent : ℕ) : Type 0 where
  pub evaluations : c'.evaluations ≡ c.evaluations + evaluated
  pub fires : c'.fires ≡ c.fires + sent
  pub adds_up : AddsUp c'

-- Over any run from counters that add up, the counter of evaluations moves by the number of book
-- updates and the counter of fires by the number of requests, and the counters add up again: each
-- evaluation is a fire or stands under one gate, and each fire under one primitive.
pub run-Counted :
    (inputs : List Input) (m m' : StrategyModel) (out : List OrderReq)
    → AddsUp m.counters
    → run m inputs ≡ some (m', out)
    → Counted m.counters m'.counters (evaluations_in inputs) (length out)
run-Counted inputs m m' out h runs =
    let r = Run-Counted inputs m m' out (run-Run inputs m m' out runs) in
    record { evaluations = r.evaluations; fires = r.fires; adds_up = r.adds_up h }
