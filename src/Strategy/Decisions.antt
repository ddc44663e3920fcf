-- ===== src/Strategy/Decisions.antt =====
-- The shape of a decision: what each primitive may ask for.
use fpga_algotrading.Prelude.{
  ℕ, ◌+◌, ◌≤◌, ◌<◌, ◌↔◌, sym, ◌≡◌, ◌≢◌, refl, inl, inr, Bool, true, false, ◌==◌, arith, Bool-cases,
}
use mathlib.Core.Path.{subst}
use fpga_algotrading.Prelude.Int.{pos, ◌-ℤ◌, pos_part, neg_part}
use fpga_algotrading.Contract.{Side, Action, BookTop, SymStrat, OrderReq}
use fpga_algotrading.Strategy.State.{
  prim_quote_id, prim_take_id, prim_fade_id, prim_join_id, StrategyState, StrategyDecision,
}
use fpga_algotrading.Strategy.Primitives.{
  edge_of, short_sale, send, cancel, prim_quote, prim_take, prim_fade, prim_join, prim_imbal,
}
use fpga_algotrading.Strategy.Engine.{select_primitive}

abbrev pub resting_token : StrategyState → Side → ℕ
resting_token st Side.buy = st.resting_bid_token
resting_token st Side.sell = st.resting_ask_token

-- A price that rests on its own side of the book.
abbrev pub Passive : BookTop → Side → ℕ → Type 0
Passive top Side.buy price = (top.bid_valid ≡ true) × (price ≤ top.bid_px)
Passive top Side.sell price = (top.ask_valid ≡ true) × (top.ask_px ≤ price)

-- The price of the best order on the other side.
abbrev pub Crossing : BookTop → Side → ℕ → Type 0
Crossing top Side.buy price = (top.ask_valid ≡ true) × (price ≡ top.ask_px)
Crossing top Side.sell price = (top.bid_valid ≡ true) × (price ≡ top.bid_px)

-- What the request of a decision carries.
pub record IsProper (top : BookTop) (params : SymStrat) (st : StrategyState) (req : OrderReq)
    : Type 0 where
  pub sym : req.sym ≡ top.sym
  pub rx_cycle : req.rx_cycle ≡ top.rx_cycle
  pub qty : req.action ≡ Action.send → req.qty ≡ params.quote_qty
  pub no_token : req.action ≡ Action.send → req.cancel_token ≡ 0
  pub short : req.action ≡ Action.send → req.is_short ≡ short_sale st req.side params.quote_qty
  pub passive : req.action ≡ Action.send → req.post_only ≡ true → Passive top req.side req.price
  pub crossing : req.action ≡ Action.send → req.post_only ≡ false → Crossing top req.side req.price
  pub own_token :
      req.action ≡ Action.cancel
      → (req.cancel_token ≡ resting_token st req.side) × (req.cancel_token ≢ 0)

-- Below a price by an edge is at most the price.
under : (a b : ℕ) → pos_part (pos a -ℤ pos b) ≤ a
unfolding ◌-ℤ◌
under a b = ground arith

prim_quote-IsProper :
    (top : BookTop) (params : SymStrat) (st : StrategyState)
    → IsProper top params st (prim_quote top params st).req
unfolding prim_quote send
prim_quote-IsProper top params st = record {
  sym = ground arith;
  rx_cycle = ground arith;
  qty = ground arith;
  no_token = ground arith;
  short = ground arith;
  passive = ground (arith, under top.bid_px (edge_of params));
  crossing = ground arith;
  own_token = ground arith;
}

prim_take-IsProper :
    (top : BookTop) (params : SymStrat) (st : StrategyState)
    → IsProper top params st (prim_take top params st).req
unfolding prim_take send
prim_take-IsProper top params st = record {
  sym = ground arith;
  rx_cycle = ground arith;
  qty = ground arith;
  no_token = ground arith;
  short = ground arith;
  passive = ground arith;
  crossing = ground arith;
  own_token = ground arith;
}

prim_fade-IsProper :
    (top : BookTop) (params : SymStrat) (st : StrategyState)
    → IsProper top params st (prim_fade top params st).req
unfolding prim_fade cancel
prim_fade-IsProper top params st = record {
  sym = ground arith;
  rx_cycle = ground arith;
  qty = ground arith;
  no_token = ground arith;
  short = ground arith;
  passive = ground arith;
  crossing = ground arith;
  own_token = ground arith;
}

prim_join-IsProper :
    (top : BookTop) (params : SymStrat) (st : StrategyState)
    → IsProper top params st (prim_join top params st).req
unfolding prim_join send
prim_join-IsProper top params st = record {
  sym = ground arith;
  rx_cycle = ground arith;
  qty = ground arith;
  no_token = ground arith;
  short = ground arith;
  passive = ground arith;
  crossing = ground arith;
  own_token = ground arith;
}

prim_imbal-IsProper :
    (top : BookTop) (params : SymStrat) (st : StrategyState)
    → IsProper top params st (prim_imbal top params st).req
unfolding prim_imbal send
prim_imbal-IsProper top params st = record {
  sym = ground arith;
  rx_cycle = ground arith;
  qty = ground arith;
  no_token = ground arith;
  short = ground arith;
  passive = ground arith;
  crossing = ground arith;
  own_token = ground arith;
}

along :
    {top : BookTop} {params : SymStrat} {st : StrategyState} (d d' : StrategyDecision)
    → d' ≡ d
    → IsProper top params st d'.req
    → IsProper top params st d.req
along {top} {params} {st} d d' e h = subst (λ x. IsProper top params st x.req) e h

-- Every decision of a primitive is proper.
pub select_primitive-IsProper :
    (top : BookTop) (params : SymStrat) (st : StrategyState) (d : StrategyDecision)
    → select_primitive top params st ≡ inr d
    → IsProper top params st d.req
unfolding select_primitive
select_primitive-IsProper top params st d runs =
    elim (Bool-cases (params.strat_select == prim_quote_id)) [
      | inl is ↦
          along d (prim_quote top params st) (ground arith) (prim_quote-IsProper top params st)
      | inr not_quote ↦ elim (Bool-cases (params.strat_select == prim_take_id)) [
        | inl is ↦
            along d (prim_take top params st) (ground arith) (prim_take-IsProper top params st)
        | inr not_take ↦ elim (Bool-cases (params.strat_select == prim_fade_id)) [
          | inl is ↦
              along d (prim_fade top params st) (ground arith) (prim_fade-IsProper top params st)
          | inr not_fade ↦ elim (Bool-cases (params.strat_select == prim_join_id)) [
            | inl is ↦
                along d (prim_join top params st) (ground arith) (prim_join-IsProper top params st)
            | inr not_join ↦
                along d (prim_imbal top params st) (ground arith)
                  (prim_imbal-IsProper top params st)
          ]
        ]
      ]
    ]

-- The price of an order: of one that may only add liquidity, and of any other.
abbrev pub Priced : Bool → BookTop → Side → ℕ → Type 0
Priced true top side price = Passive top side price
Priced false top side price = Crossing top side price

pub record Sends (top : BookTop) (params : SymStrat) (st : StrategyState) (req : OrderReq)
    : Type 0 where
  pub sym : req.sym ≡ top.sym
  pub qty : req.qty ≡ params.quote_qty
  pub no_token : req.cancel_token ≡ 0
  pub short :
      (req.is_short ≡ true)
      ↔ ((req.side ≡ Side.sell) × (pos_part st.position < params.quote_qty + neg_part st.position))
  pub priced : Priced req.post_only top req.side req.price

pub record Cancels (top : BookTop) (st : StrategyState) (req : OrderReq) : Type 0 where
  pub sym : req.sym ≡ top.sym
  pub own : req.cancel_token ≡ resting_token st req.side
  pub nonzero : req.cancel_token ≢ 0

-- What a request that is no `NONE` carries.
abbrev pub Asked : Action → BookTop → SymStrat → StrategyState → OrderReq → Type 0
Asked Action.none top params st req = ⊥
Asked Action.send top params st req = Sends top params st req
Asked Action.cancel top params st req = Cancels top st req

short_sale_iff :
    (st : StrategyState) (side : Side) (qty : ℕ)
    → (short_sale st side qty ≡ true)
      ↔ ((side ≡ Side.sell) × (pos_part st.position < qty + neg_part st.position))
unfolding ◌-ℤ◌
short_sale_iff st side qty = ground arith

Priced-of :
    (only : Bool) (top : BookTop) (side : Side) (price : ℕ)
    → (only ≡ true → Passive top side price)
    → (only ≡ false → Crossing top side price)
    → Priced only top side price
Priced-of true top side price a b = a refl
Priced-of false top side price a b = b refl

pub Asked-of :
    (a : Action) (top : BookTop) (params : SymStrat) (st : StrategyState) (req : OrderReq)
    → req.action ≡ a
    → a ≢ Action.none
    → IsProper top params st req
    → Asked a top params st req
Asked-of Action.none top params st req is acts h = acts refl
Asked-of Action.send top params st req is acts h = record {
  sym = h.sym;
  qty = h.qty is;
  no_token = h.no_token is;
  short =
      subst
        (λ x. (x ≡ true) ↔ (
          (req.side ≡ Side.sell)
          × (pos_part st.position < params.quote_qty + neg_part st.position)))
        (sym (h.short is)) (short_sale_iff st req.side params.quote_qty);
  priced = Priced-of req.post_only top req.side req.price (h.passive is) (h.crossing is);
}
Asked-of Action.cancel top params st req is acts h = record {
  sym = h.sym;
  own = (h.own_token is).0;
  nonzero = (h.own_token is).1;
}
