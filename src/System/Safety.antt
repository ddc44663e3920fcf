-- ===== src/System/Safety.antt =====
-- What the strategy does with the tops that the book publishes and the states of the venue.
use fpga_algotrading.Prelude.{
  ℕ, ◌<◌, ◌≤◌, ◌≡◌, ◌≢◌, refl, sym, ◌∙◌, inl, inr, Bool, true, false, none, some, List, arith,
  Bool-cases,
}
use mathlib.Core.Path.{subst}
use fpga_algotrading.Dict.{Dict, lookup-insert_self, sum_of}
use fpga_algotrading.Contract.{Side, Action, TradeState, BookEvt, BookTop}
use fpga_algotrading.Book.State.{LiveOrder, OrderBookModel, book_of}
use fpga_algotrading.Book.Top.{publish, apply}
use fpga_algotrading.Book.Isolation.{apply-Touches, run, run_sticky}
use fpga_algotrading.Book.Aggregate.{one, IsConsistent}
use fpga_algotrading.Book.Consistency.{Addressed}
use fpga_algotrading.Book.Best.{OrdersBest, quote, apply-OrdersBest}
use fpga_algotrading.Strategy.Decisions.{Passive, Crossing}
use fpga_algotrading.Venue.Defs
use fpga_algotrading.Venue.Gate
use fpga_algotrading.Venue.Defs.{VenueState, effective_state, state_of}
use fpga_algotrading.Venue.Gate.{
  Message, mwcb_status, handle, AllNotStart, breach_halts, open_needs,
}
use fpga_algotrading.Strategy.State.{StrategyModel, fired}
use fpga_algotrading.Strategy.Engine.{Evaluation, evaluate}
use fpga_algotrading.Strategy.Firing.{fires_gated, fired-IsProper}

publish_stale :
    (m : OrderBookModel) (place : ℕ) (evt : BookEvt)
    → (publish m place evt).1.stale ≡ (book_of (publish m place evt).0 place).stale
unfolding publish
publish_stale m place evt = rw (lookup-insert_self) refl

-- The stale bit of the published top is that of the book.
top_stale :
    (m : OrderBookModel) (evt : BookEvt)
    → (book_of m evt.sym).stale ≡ true
    → (apply m evt).1.stale ≡ true
unfolding apply
top_stale m evt h = publish_stale _ evt.sym evt ∙ (apply-Touches m evt).sticky h

contradicts : {a b : Bool} → (a ≡ true → b ≡ false) → b ≡ true → a ≡ false
contradicts {a} {b} f h = ground arith

-- Once the book of a symbol is stale, no event of that symbol makes the strategy fire, whatever
-- events of any symbols came in between and in whatever state the strategy and the venue are.
pub stale_never_fires :
    (mb : OrderBookModel) (evts : List BookEvt) (evt : BookEvt) (m : StrategyModel) (v : VenueState)
    (e : Evaluation)
    → (book_of mb evt.sym).stale ≡ true
    → evaluate m (apply (run mb evts) evt).1 v ≡ some e
    → fired e.decision ≡ false
stale_never_fires mb evts evt m v e h runs =
    contradicts (λ f. (fires_gated m _ v e runs f).0.fresh)
      (top_stale (run mb evts) evt (run_sticky mb evts evt.sym h))

-- After a market-wide breach the strategy does not fire for any top of book, whatever venue
-- messages follow, until a start of messages.
pub breach_never_fires :
    (v : VenueState) (level : ℕ) (msgs : List Message) (m : StrategyModel) (top : BookTop)
    (e : Evaluation)
    → AllNotStart msgs
    → evaluate m top (Gate.run (handle v (mwcb_status level)).0 msgs) ≡ some e
    → fired e.decision ≡ false
breach_never_fires v level msgs m top e quiet runs = elim (Bool-cases (fired e.decision)) [
  | inr holds ↦ holds
  | inl fires ↦ absurd (
      halted_closed (
        sym (breach_halts v level msgs top.sym quiet)
        ∙ (fires_gated m top _ e runs fires).0.in_session))
]
  where
    halted_closed : TradeState.halted ≢ TradeState.open_session
    halted_closed e = cc

-- From the reset state of the venue on, the strategy fires only when the last system event was the
-- start of market hours, no breach is in force, and neither an operational halt nor a trading
-- action holds the symbol.
pub fires_in_session :
    (msgs : List Message) (m : StrategyModel) (top : BookTop) (e : Evaluation)
    → evaluate m top (Gate.run Defs.init msgs) ≡ some e
    → fired e.decision ≡ true
    → ((Gate.run Defs.init msgs).last_system_event ≡ some b'Q')
      × ((Gate.run Defs.init msgs).mwcb_breached ≡ false)
      × ((state_of (Gate.run Defs.init msgs) top.sym).operational_halt ≡ false)
      × ((state_of (Gate.run Defs.init msgs) top.sym).trading_action ≡ none)
fires_in_session msgs m top e runs f =
    open_needs msgs top.sym (fires_gated m top _ e runs f).0.in_session

uncrossed_apart :
    (m : OrderBookModel) (evt : BookEvt)
    → let t = (apply m evt).1 in
      t.crossed ≡ false → t.bid_valid ≡ true → t.ask_valid ≡ true → t.bid_px < t.ask_px
unfolding apply publish
uncrossed_apart m evt c b a = ground arith

-- The order of two prices, where there is one on the other side.
abbrev pub Apart : Bool → ℕ → ℕ → Type 0
Apart true low high = low < high
Apart false low high = Unit

-- The price of an order that may only add liquidity, against the best price of the other side.
abbrev pub Behind : BookTop → Side → ℕ → Type 0
Behind top Side.buy price = Apart top.ask_valid price top.ask_px
Behind top Side.sell price = Apart top.bid_valid top.bid_px price

Apart-of : (valid : Bool) (low high : ℕ) → (valid ≡ true → low < high) → Apart valid low high
Apart-of true low high h = h refl
Apart-of false low high h = tt

Passive-Behind :
    (m : OrderBookModel) (evt : BookEvt) (side : Side) (price : ℕ)
    → (apply m evt).1.crossed ≡ false
    → Passive (apply m evt).1 side price
    → Behind (apply m evt).1 side price
Passive-Behind m evt Side.buy price c (valid, near) =
    Apart-of _ price _ (λ a. omega (arith, near, uncrossed_apart m evt c valid a))
Passive-Behind m evt Side.sell price c (valid, near) =
    Apart-of _ _ price (λ b. omega (arith, near, uncrossed_apart m evt c b valid))

-- A post-only order that the strategy sends on a top that the book published does not cross: a buy
-- is priced below the best ask and a sell above the best bid, where there is one.
pub post_only-Behind :
    (mb : OrderBookModel) (evt : BookEvt) (m : StrategyModel) (v : VenueState) (e : Evaluation)
    → evaluate m (apply mb evt).1 v ≡ some e
    → e.decision.req.action ≡ Action.send
    → e.decision.req.post_only ≡ true
    → Behind (apply mb evt).1 e.decision.req.side e.decision.req.price
post_only-Behind mb evt m v e runs sends only =
    let f : fired e.decision ≡ true = ground arith in
    Passive-Behind mb evt _ _ (fires_gated m _ v e runs f).0.uncrossed
      ((fired-IsProper m _ v e runs f).passive sends only)

abbrev pub other_side : Side → Side
other_side Side.buy = Side.sell
other_side Side.sell = Side.buy

-- At a valid best price there is a live order.
live_at :
    (orders : Dict LiveOrder) (place : ℕ) (side : Side) (valid : Bool) (px qty price : ℕ)
    → OrdersBest orders place side (quote valid px qty)
    → valid ≡ true
    → price ≡ px
    → 1 ≤ sum_of (one place side price) orders
live_at orders place side true px qty price best h at =
    subst (λ x. 1 ≤ sum_of (one place side x) orders) (sym at) best.1
live_at orders place side false px qty price best h at = cc

Crossing-live :
    (mb : OrderBookModel) (evt : BookEvt) (side : Side) (price : ℕ)
    → Addressed mb evt
    → IsConsistent mb
    → Crossing (apply mb evt).1 side price
    → 1 ≤ sum_of (one evt.sym (other_side side) price) (apply mb evt).0.orders
Crossing-live mb evt Side.buy price own h (valid, at) =
    live_at _ evt.sym Side.sell _ _ _ price (apply-OrdersBest mb evt own h).1 valid at
Crossing-live mb evt Side.sell price own h (valid, at) =
    live_at _ evt.sym Side.buy _ _ _ price (apply-OrdersBest mb evt own h).0 valid at

-- An order that the strategy sends to take liquidity is priced where an order of the other side is
-- live for the symbol of the event, if the book was consistent and the event addressed.
pub taker_meets_order :
    (mb : OrderBookModel) (evt : BookEvt) (m : StrategyModel) (v : VenueState) (e : Evaluation)
    → Addressed mb evt
    → IsConsistent mb
    → evaluate m (apply mb evt).1 v ≡ some e
    → e.decision.req.action ≡ Action.send
    → e.decision.req.post_only ≡ false
    → 1
      ≤ sum_of
          (one evt.sym (other_side e.decision.req.side) e.decision.req.price)
          (apply mb evt).0.orders
taker_meets_order mb evt m v e own h runs sends takes =
    let f : fired e.decision ≡ true = ground arith in
    Crossing-live mb evt _ _ own h ((fired-IsProper m _ v e runs f).crossing sends takes)
