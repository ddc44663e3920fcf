-- ===== src/Strategy/Returns.antt =====
-- The engine returns: no token fails to pack while the counter fits its field.
use fpga_algotrading.Prelude.{
  suc, ℕ, ◌+◌, ◌<◌, ◌≤◌, ◌≡◌, refl, ap, inl, inr, some, List, [], ◌∷◌, arith, Option, Option-cases,
  Sum-cases, length, true, is_some,
}
use fpga_algotrading.Contract.{OrderReq, BookTop}
use fpga_algotrading.Contract.Pack.{pack_order_token}
use fpga_algotrading.Contract.Widths.{packed, pack_order_token_lem}
use fpga_algotrading.Venue.Defs.{VenueState, touch}
use fpga_algotrading.Strategy.State.{
  set_params, StrategyModel, StrategyDecision, get_params, sym_state,
}
use fpga_algotrading.Strategy.Engine.{
  Evaluation, evaluate, next_token, record_resting, conclude, entered, select_primitive, on_fill,
  on_cancel_ack, on_terminal_ack,
}
use fpga_algotrading.Strategy.Firing.{
  asked, Recorded, skipped, rested, quiet, acted, evaluate-Outcome, armed,
}
use fpga_algotrading.Strategy.Runs.{
  Input, book_update, fill, terminal_ack, cancel_ack, write_params, step, stepped, run,
}

-- The token counter has room for a number of orders more, and the magic fits.
pub record HasRoom (m : StrategyModel) (n : ℕ) : Type 0 where
  pub magic : m.token_magic < 65536
  pub counter : m.token_counter + n < 281474976710656

next_token-returns :
    (m : StrategyModel) (place strat_id : ℕ)
    → HasRoom m 1
    → is_some (next_token m place strat_id) ≡ true
unfolding next_token
next_token-returns m place strat_id h =
    let t = asked m place strat_id in
    let fits : pack_order_token t ≡ some (packed t) = pack_order_token_lem t (record {
      magic = h.magic;
      strat_id = omega arith;
      sym = omega arith;
      counter = h.counter;
      rsvd = omega arith;
    }) in
    ground arith

record_resting-returns :
    (m : StrategyModel) (req : OrderReq) → HasRoom m 1 → is_some (record_resting m req) ≡ true
unfolding record_resting
record_resting-returns m req h = ground (arith, next_token-returns m req.sym req.strat_id h)

conclude-returns :
    (m : StrategyModel) (v : VenueState) (top : BookTop) (select : ℕ) (d : StrategyDecision)
    → HasRoom m 1
    → is_some (conclude m v top select d) ≡ true
unfolding conclude
conclude-returns m v top select d h = ground (
  arith,
  record_resting-returns (armed m top select) d.req
      (record { magic = h.magic; counter = h.counter }),
)

pub evaluate-returns :
    (m : StrategyModel) (top : BookTop) (v : VenueState)
    → HasRoom m 1
    → is_some (evaluate m top v) ≡ true
unfolding evaluate
evaluate-returns m top v h =
    let room : HasRoom (entered m top.sym) 1 = record { magic = h.magic; counter = h.counter } in
    let params = get_params m top.sym in
    elim (Sum-cases (select_primitive top params (sym_state m top.sym))) [
      | inl (g, none_runs) ↦ ground arith
      | inr (d, runs) ↦ ground (
        arith,
        conclude-returns (entered m top.sym) (touch v top.sym) top params.strat_select d room,
      )
    ]

-- An evaluation takes a token at most and keeps the magic.
abbrev Spends : StrategyModel → StrategyModel → Type 0
Spends m m' = (m'.token_magic ≡ m.token_magic) × (m'.token_counter ≤ m.token_counter + 1)

Recorded-Spends :
    (m : StrategyModel) (top : BookTop) (select : ℕ) (req : OrderReq) (m' : StrategyModel)
    → Recorded (armed m top select) req m'
    → Spends m m'
Recorded-Spends m top select req m' r = elim r [
  | skipped _ is ↦ rw (is) (refl, omega arith)
  | rested token _ _ is ↦ rw (is) (refl, omega arith)
]

evaluate-Spends :
    (m : StrategyModel) (top : BookTop) (v : VenueState) (e : Evaluation)
    → evaluate m top v ≡ some e
    → Spends m e.model
evaluate-Spends m top v e runs = elim (evaluate-Outcome m top v e runs) [
  | quiet g _ is ↦ rw (is) (refl, omega arith)
  | acted _ _ _ _ records ↦ Recorded-Spends (entered m top.sym) top _ _ e.model records
]

still-Spends :
    (m m' : StrategyModel)
    → m'.token_magic ≡ m.token_magic
    → m'.token_counter ≡ m.token_counter
    → Spends m m'
still-Spends m m' magic counter = (magic, omega arith)

-- A call that sends nothing and leaves the tokens alone.
still_step :
    (m m' : StrategyModel)
    → m'.token_magic ≡ m.token_magic
    → m'.token_counter ≡ m.token_counter
    → (r : StrategyModel × List OrderReq) × (◌≡◌ {A = Option (StrategyModel × List OrderReq)}
        (some (m', []))
        (some r))
      × Spends m r.0
still_step m m' magic counter = ((m', []), refl, still-Spends m m' magic counter)

step-returns :
    (m : StrategyModel) (input : Input)
    → HasRoom m 1
    → (r : StrategyModel × List OrderReq) × (step m input ≡ some r) × Spends m r.0
unfolding step on_fill on_terminal_ack on_cancel_ack
step-returns m (book_update top v) h = elim (Option-cases (evaluate m top v)) [
  | inl fails ↦ absurd (ground (arith, evaluate-returns m top v h))
  | inr (e, runs) ↦ (_, ap stepped runs, evaluate-Spends m top v e runs)
]
step-returns m (fill place side qty) h = still_step m (on_fill m place side qty) refl refl
step-returns m (terminal_ack place) h = still_step m (on_terminal_ack m place) refl refl
step-returns m (cancel_ack place token) h = still_step m (on_cancel_ack m place token) refl refl
step-returns m (write_params place params) h = still_step m (set_params m place params) refl refl

room_now : (a n : ℕ) → a + suc n < 281474976710656 → a + 1 < 281474976710656
room_now a n h = omega arith

-- A run of any inputs returns, if the magic fits its sixteen bits and the token counter, with as
-- many tokens more as there are inputs, fits its forty-eight.
pub run-returns :
    (inputs : List Input) (m : StrategyModel)
    → HasRoom m (length inputs)
    → is_some (run m inputs) ≡ true
unfolding run
run-returns [] m h = refl
run-returns (input ∷ inputs) m h =
    let ((m', out), steps, (magic, counter)) =
      step-returns m input (record {
        magic = h.magic;
        counter = room_now m.token_counter (length inputs) h.counter;
      }) in
    let rest =
      run-returns inputs m'
        (record { magic = omega (arith, h.magic); counter = omega (arith, h.counter) }) in
    ground arith
