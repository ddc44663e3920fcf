-- ===== src/Model/Recovery.antt =====
-- Sequence gaps and abandoned packets: every subscribed symbol is stale, and stays so.
use fpga_algotrading.Prelude.{
  ℕ, ◌+◌, ◌≡◌, refl, sym, inl, inr, Bool, true, false, Option, none, some, List, [], ◌∷◌, leb, ◌==◌,
  if◌then◌else◌, arith, Bool-cases, Option-cases, along_some, ◌>>=◌,
}
use mathlib.Core.Path.{subst}
use fpga_algotrading.Dict.{Dict, lookup-insert_self}
use fpga_algotrading.Contract.{BookEvt, n_symbols}
use fpga_algotrading.Book.State.{OrderBookModel, SymbolBook, Reason, staled, book_of, mark_stale}
use fpga_algotrading.Book.Top.{apply}
use fpga_algotrading.Book.Isolation.{mark_stale-Touches, apply-Touches, book_of-Touches}
use fpga_algotrading.Venue.Defs.{VenueState, StateChange}
use fpga_algotrading.Strategy.State.{StrategyModel}
use fpga_algotrading.Strategy.Engine.{Evaluation}
use fpga_algotrading.Itch.Decode.{DecodeStatus, ItchMessage, DecodeResult, decode_message}
use fpga_algotrading.Itch.Layout.{
  trading_state, reason, market_code, operational_halt_action, reg_sho_action, event_code,
  breached_level, auction_collar_reference_price, upper_auction_collar_price,
  lower_auction_collar_price, auction_collar_extension,
}
use fpga_algotrading.Model.Filter.{sym_for}
use fpga_algotrading.Model.State.{FeedCounters, GoldenModel, StepResult}
use fpga_algotrading.Model.Dispatch.{
  u, c, text, count_side, build_event, evaluates, clear_books, clear_all_books, clear_evt,
}
use fpga_algotrading.Model.Step.{
  trading_action_step, operational_halt_step, luld_collar_step, count_message, with_feed,
  plain_result, Stepped, venue_step, event_step, symbol_step, dispatch, step_result, step_message,
}

abbrev pub is_stale : OrderBookModel → ℕ → Bool
is_stale b s = (book_of b s).stale

-- No symbol that was stale is not.
abbrev pub Sticky : OrderBookModel → OrderBookModel → Type 0
Sticky b b' = (s : ℕ) → is_stale b s ≡ true → is_stale b' s ≡ true

apply-Sticky : (b : OrderBookModel) (evt : BookEvt) → Sticky b (apply b evt).0
apply-Sticky b evt s h = book_of-Touches b _ evt.sym s (apply-Touches b evt) h

clear_books-Sticky : (books : Dict SymbolBook) (b : OrderBookModel) → Sticky b (clear_books books b)
unfolding clear_books
clear_books-Sticky [] b s h = h
clear_books-Sticky (e ∷ books) b s h =
    clear_books-Sticky books (apply b (clear_evt e.0 0)).0 s (apply-Sticky b (clear_evt e.0 0) s h)

clear_all_books-Sticky : (b : OrderBookModel) → Sticky b (clear_all_books b)
unfolding clear_all_books
clear_all_books-Sticky b = clear_books-Sticky b.books b

pub mark_stale_self :
    (b : OrderBookModel) (s : ℕ) (r : Reason) → is_stale (mark_stale b s r) s ≡ true
unfolding mark_stale
mark_stale_self b s r = ground (arith, lookup-insert_self s (staled r (book_of b s)) b.books)

pub mark_stale-Sticky :
    (b : OrderBookModel) (place : ℕ) (r : Reason) → Sticky b (mark_stale b place r)
mark_stale-Sticky b place r s h = book_of-Touches b _ place s (mark_stale-Touches place b r) h

-- A step keeps the filter, the sequence number that is expected next, and what is stale.
pub record Keeps (m m' : GoldenModel) : Type 0 where
  pub symbols : m'.symbols ≡ m.symbols
  pub expects : m'.next_expected ≡ m.next_expected
  pub sticky : Sticky m.book m'.book

abbrev KeepsAll : GoldenModel → GoldenModel → StepResult → Type 0
KeepsAll m m' r = Keeps m m'

same_book :
    (m m' : GoldenModel)
    → m'.symbols ≡ m.symbols
    → m'.next_expected ≡ m.next_expected
    → m'.book ≡ m.book
    → Keeps m m'
same_book m m' symbols expects book = record {
  symbols = symbols;
  expects = expects;
  sticky = λ s h. subst (λ b. is_stale b s ≡ true) (sym book) h;
}

-- Whatever a step returns, it keeps.
record Keeping (m : GoldenModel) (o : Stepped) : Type 0 where
  kept : (m' : GoldenModel) (r : StepResult) → o ≡ some (m', r) → Keeps m m'

none-Keeping : (m : GoldenModel) → Keeping m none
none-Keeping m = record { kept = λ m' r h. absurd (ground arith) }

some-Keeping : (m m₁ : GoldenModel) (r₁ : StepResult) → Keeps m m₁ → Keeping m (some (m₁, r₁))
some-Keeping m m₁ r₁ k = record { kept = λ m' r h. along_some (KeepsAll m) h k }

bind-Keeping :
    (m : GoldenModel) (o : Option ℕ) (f : ℕ → Stepped)
    → ((n : ℕ) → Keeping m (f n))
    → Keeping m (o >>= f)
bind-Keeping m none f h = none-Keeping m
bind-Keeping m (some n) f h = h n

if-Keeping :
    (m : GoldenModel) (b : Bool) (x y : Stepped)
    → Keeping m x
    → Keeping m y
    → Keeping m (if b then x else y)
if-Keeping m true x y hx hy = hx
if-Keeping m false x y hx hy = hy

venue-Keeping :
    (m : GoldenModel) (index : ℕ) (raw : List ℕ) (message : ItchMessage)
    (r : VenueState × List StateChange)
    → Keeping m (venue_step m index raw message r)
venue-Keeping m index raw message r = some-Keeping m _ _ (same_book m _ refl refl refl)

map-Keeping :
    (m : GoldenModel) (o : Option Evaluation) (f : Evaluation → GoldenModel × StepResult)
    → ((e : Evaluation) → Keeps m (f e).0)
    → Keeping m (elim o [ none ↦ none | some e ↦ some (f e) ])
map-Keeping m none f h = none-Keeping m
map-Keeping m (some e) f h = some-Keeping m (f e).0 (f e).1 (h e)

applied-Keeps :
    (m : GoldenModel) (evt : BookEvt) (v : VenueState) (st : StrategyModel) (k : FeedCounters)
    → Keeps m (record m { book = (apply m.book evt).0; venue = v; strategy = st; counters = k })
applied-Keeps m evt v st k = record {
  symbols = refl;
  expects = refl;
  sticky = apply-Sticky m.book evt;
}

event-Keeping :
    (m : GoldenModel) (index : ℕ) (raw : List ℕ) (message : ItchMessage) (evt : BookEvt)
    → Keeping m (event_step m index raw message evt)
unfolding event_step
event-Keeping m index raw message evt =
    if-Keeping m (evaluates evt.op) _ _
      (map-Keeping m _ _ (λ e. applied-Keeps m evt e.venue e.model _))
      (some-Keeping m _ _ (applied-Keeps m evt _ _ _))

recounted-Keeping :
    (m : GoldenModel) (k : FeedCounters) (o : Stepped)
    → Keeping (record m { counters = k }) o
    → Keeping m o
recounted-Keeping m k o h = record {
  kept = λ m' r e.
      let k' = h.kept m' r e in
      record { symbols = k'.symbols; expects = k'.expects; sticky = k'.sticky };
}

built-Keeping :
    (m m₁ : GoldenModel) (index : ℕ) (raw : List ℕ) (message : ItchMessage)
    (o : Option (Option BookEvt)) (r : StepResult)
    → m₁.symbols ≡ m.symbols
    → m₁.next_expected ≡ m.next_expected
    → m₁.book ≡ m.book
    → ((evt : BookEvt) → Keeping m (event_step m₁ index raw message evt))
    → Keeping m (elim o [
      | none ↦ none
      | some none ↦ some (m₁, r)
      | some (some evt) ↦ event_step m₁ index raw message evt
    ])
built-Keeping m m₁ index raw message none r s n b h = none-Keeping m
built-Keeping m m₁ index raw message (some none) r s n b h =
    some-Keeping m m₁ r (same_book m m₁ s n b)
built-Keeping m m₁ index raw message (some (some evt)) r s n b h = h evt

trading_action-Keeping :
    (m : GoldenModel) (index : ℕ) (raw : List ℕ) (message : ItchMessage) (place : ℕ)
    → Keeping m (trading_action_step m index raw message place)
trading_action-Keeping m index raw message place = elim (Option-cases (c message trading_state)) [
  | inl fails ↦ rw (fails) (none-Keeping m)
  | inr (code, reads) ↦ elim (Option-cases (text message reason)) [
    | inl fails ↦ rw (reads, fails) (none-Keeping m)
    | inr (why, says) ↦ rw (reads, says) (venue-Keeping m index raw message _)
  ]
]

operational_halt-Keeping :
    (m : GoldenModel) (index : ℕ) (raw : List ℕ) (message : ItchMessage) (place : ℕ)
    → Keeping m (operational_halt_step m index raw message place)
operational_halt-Keeping m index raw message place = elim (Option-cases (c message market_code)) [
  | inl fails ↦ rw (fails) (none-Keeping m)
  | inr (market, reads) ↦ elim (Option-cases (c message operational_halt_action)) [
    | inl fails ↦ rw (reads, fails) (none-Keeping m)
    | inr (code, says) ↦ rw (reads, says) (venue-Keeping m index raw message _)
  ]
]

luld_collar-Keeping :
    (m : GoldenModel) (index : ℕ) (raw : List ℕ) (message : ItchMessage) (place : ℕ)
    → Keeping m (luld_collar_step m index raw message place)
luld_collar-Keeping m index raw message place =
    bind-Keeping m (u message auction_collar_reference_price) _ (λ reference.
      bind-Keeping m (u message upper_auction_collar_price) _ (λ upper.
        bind-Keeping m (u message lower_auction_collar_price) _ (λ lower.
          bind-Keeping m (u message auction_collar_extension) _
            (λ extension. venue-Keeping m index raw message _))))

symbol-Keeping :
    (m : GoldenModel) (index : ℕ) (raw : List ℕ) (message : ItchMessage) (place rx_cycle : ℕ)
    → Keeping m (symbol_step m index raw message place rx_cycle)
unfolding symbol_step
symbol-Keeping m index raw message place rx_cycle =
    let code = message.type_code in
    elim (Bool-cases (code == b'H')) [
      | inl t₁ ↦ rw (t₁) (trading_action-Keeping m index raw message place)
      | inr t₁ ↦ elim (Bool-cases (code == b'h')) [
        | inl t₂ ↦ rw (t₁, t₂) (operational_halt-Keeping m index raw message place)
        | inr t₂ ↦ elim (Bool-cases (code == b'Y')) [
          | inl t₃ ↦
              rw (t₁, t₂, t₃)
                (bind-Keeping m (c message reg_sho_action) _
                  (λ action. venue-Keeping m index raw message _))
          | inr t₃ ↦ elim (Bool-cases (code == b'J')) [
            | inl t₄ ↦ rw (t₁, t₂, t₃, t₄) (luld_collar-Keeping m index raw message place)
            | inr t₄ ↦
                rw (t₁, t₂, t₃, t₄)
                  (built-Keeping m (with_feed m (count_side message)) index raw message
                    (build_event message place message.locate rx_cycle)
                    (plain_result index raw message false []) refl refl refl
                    (λ evt.
                      recounted-Keeping m _ _
                        (event-Keeping (with_feed m (count_side message)) index raw message evt)))
          ]
        ]
      ]
    ]

start-Keeps :
    (m : GoldenModel) (b : Bool) (v : VenueState)
    → Keeps m (record m { venue = v; book = if b then clear_all_books m.book else m.book })
start-Keeps m true v = record {
  symbols = refl;
  expects = refl;
  sticky = clear_all_books-Sticky m.book;
}
start-Keeps m false v = same_book m _ refl refl refl

dispatch-Keeping :
    (m : GoldenModel) (index : ℕ) (raw : List ℕ) (message : ItchMessage) (rx_cycle : ℕ)
    → Keeping m (dispatch m index raw message rx_cycle)
unfolding dispatch
dispatch-Keeping m index raw message rx_cycle =
    let code = message.type_code in
    elim (Bool-cases (code == b'S')) [
      | inl t₁ ↦ rw (t₁) (
          bind-Keeping m (c message event_code) _
            (λ event. some-Keeping m _ _ (start-Keeps m (event == b'O') _)))
      | inr t₁ ↦ elim (Bool-cases (code == b'W')) [
        | inl t₂ ↦
            rw (t₁, t₂)
              (bind-Keeping m (c message breached_level) _
                (λ level. venue-Keeping m index raw message _))
        | inr t₂ ↦ elim (Bool-cases (leb n_symbols message.locate)) [
          | inl t₃ ↦ rw (t₁, t₂, t₃) (some-Keeping m _ _ (same_book m _ refl refl refl))
          | inr t₃ ↦ elim (Option-cases (sym_for m.symbols message.locate)) [
            | inl unknown ↦
                rw (t₁, t₂, t₃, unknown) (some-Keeping m _ _ (same_book m _ refl refl refl))
            | inr (place, known) ↦
                rw (t₁, t₂, t₃, known) (symbol-Keeping m index raw message place rx_cycle)
          ]
        ]
      ]
    ]

status-Keeping :
    (m : GoldenModel) (status : DecodeStatus) (x y : Stepped)
    → Keeping m x
    → Keeping m y
    → Keeping m (elim status [ DecodeStatus.ok ↦ x | _ ↦ y ])
status-Keeping m DecodeStatus.ok x y hx hy = hx
status-Keeping m DecodeStatus.unknown_type x y hx hy = hy
status-Keeping m DecodeStatus.length_mismatch x y hx hy = hy
status-Keeping m DecodeStatus.truncated x y hx hy = hy
status-Keeping m DecodeStatus.empty x y hx hy = hy

present-Keeping :
    {A : Type 0} (m : GoldenModel) (o : Option A) (f : A → Stepped)
    → ((a : A) → Keeping m (f a))
    → Keeping m (elim o [ none ↦ none | some a ↦ f a ])
present-Keeping m none f h = none-Keeping m
present-Keeping m (some a) f h = h a

result-Keeping :
    (m : GoldenModel) (index : ℕ) (raw : List ℕ) (r : DecodeResult) (rx_cycle : ℕ)
    → Keeping m (step_result m index raw r rx_cycle)
unfolding step_result
result-Keeping m index raw r rx_cycle =
    status-Keeping m r.status _ _
      (present-Keeping m r.message _ (λ message.
        recounted-Keeping m _ _
          (dispatch-Keeping (count_message m message) index raw message rx_cycle)))
      (some-Keeping m _ _ (same_book m _ refl refl refl))

pub step_message-Keeps :
    (m m' : GoldenModel) (raw : List ℕ) (rx_cycle : ℕ) (declared : Option ℕ) (r : StepResult)
    → step_message m raw rx_cycle declared ≡ some (m', r)
    → Keeps m m'
unfolding step_message
step_message-Keeps m m' raw rx_cycle declared r h =
    (present-Keeping m (decode_message raw declared) _ (λ d. record {
      kept = λ m₂ r₂ e.
          let k =
            (result-Keeping
                (record (with_feed m (λ k. record k { rx_msgs = k.rx_msgs + 1 })) {
                  msg_index = m.msg_index + 1;
                })
                m.msg_index raw d rx_cycle).kept
              m₂ r₂ e in
          record { symbols = k.symbols; expects = k.expects; sticky = k.sticky };
    })).kept
      m' r h
