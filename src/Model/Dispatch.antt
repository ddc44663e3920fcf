-- ===== src/Model/Dispatch.antt =====
-- host/pymodel/model.py, `_build_event`, `_dispatch` and `step_message`. `none` is an exception: of
-- a field that the message does not have, or of a token that does not pack.
use fpga_algotrading.Prelude.{
  ℕ, ◌+◌, Bool, true, false, Option, none, some, List, [], ◌∷◌, not, ◌||◌, ◌&&◌, ◌==◌,
  if◌then◌else◌, ◌>>=◌,
}
use fpga_algotrading.Dict.{Dict, lookup}
use fpga_algotrading.Contract.{Side, BookOp, BookEvt}
use fpga_algotrading.Book.State.{OrderBookModel, SymbolBook}
use fpga_algotrading.Book.Top.{apply}
use fpga_algotrading.Itch.Layout.{
  buy_sell_indicator, price, shares, order_reference_number, executed_shares, printable,
  execution_price, cancelled_shares, original_order_reference_number, new_order_reference_number,
  cross_price,
}
use fpga_algotrading.Itch.Decode.{character, alpha_text, ItchMessage, int_of}
use fpga_algotrading.Model.State.{FeedCounters}

-- `message.u(name)`
abbrev pub u : ItchMessage → ℕ → Option ℕ
u message name = int_of name message.values

-- `message.c(name)` at a character field
abbrev pub c : ItchMessage → ℕ → Option ℕ
c message name = elim (lookup name message.values) [ some (character b) ↦ some b | _ ↦ none ]

-- `message.c(name)` at a text field
abbrev pub text : ItchMessage → ℕ → Option (List ℕ)
text message name = elim (lookup name message.values) [ some (alpha_text t) ↦ some t | _ ↦ none ]

abbrev pub side_from_char : ℕ → Side
side_from_char ch = if ch == b'B' then Side.buy else Side.sell

-- `_evt` with every argument given
abbrev pub evt_of : BookOp → ItchMessage → ℕ → ℕ → ℕ → Side → ℕ → ℕ → ℕ → ℕ → Bool → BookEvt
evt_of op message sym locate rx_cycle side px qty order_ref new_order_ref prints = record {
  op = op;
  sym = sym;
  locate = locate;
  side = side;
  price = px;
  qty = qty;
  order_ref = order_ref;
  new_order_ref = new_order_ref;
  exch_ts = message.timestamp;
  rx_cycle = rx_cycle;
  printable = prints;
}

-- The branches of `_build_event`; the locate and the cycle are those of the call.
module _ (message : ItchMessage) (sym locate rx_cycle : ℕ) where
  abbrev pub event : BookOp → Side → ℕ → ℕ → ℕ → ℕ → Bool → BookEvt
  event op side px qty order_ref new_order_ref prints =
      evt_of op message sym locate rx_cycle side px qty order_ref new_order_ref prints

  abbrev pub add_event : Option BookEvt
  add_event = do
    side_char ← c message buy_sell_indicator
    px ← u message price
    qty ← u message shares
    ref ← u message order_reference_number
    some (event BookOp.add (side_from_char side_char) px qty ref 0 false)

  abbrev pub executed_event : Option BookEvt
  executed_event = do
    qty ← u message executed_shares
    ref ← u message order_reference_number
    some (event BookOp.execute Side.buy 0 qty ref 0 true)

  abbrev pub exec_price_event : Option BookEvt
  exec_price_event = do
    prints ← c message printable
    px ← u message execution_price
    qty ← u message executed_shares
    ref ← u message order_reference_number
    some (event BookOp.execute Side.buy px qty ref 0 (prints == b'Y'))

  abbrev pub cancel_event : Option BookEvt
  cancel_event = do
    qty ← u message cancelled_shares
    ref ← u message order_reference_number
    some (event BookOp.cancel Side.buy 0 qty ref 0 false)

  abbrev pub delete_event : Option BookEvt
  delete_event = do
    ref ← u message order_reference_number
    some (event BookOp.delete Side.buy 0 0 ref 0 false)

  abbrev pub replace_event : Option BookEvt
  replace_event = do
    px ← u message price
    qty ← u message shares
    ref ← u message original_order_reference_number
    new_ref ← u message new_order_reference_number
    some (event BookOp.replace Side.buy px qty ref new_ref false)

  abbrev pub trade_event : Option BookEvt
  trade_event = do
    side_char ← c message buy_sell_indicator
    px ← u message price
    qty ← u message shares
    ref ← u message order_reference_number
    some (event BookOp.nop (side_from_char side_char) px qty ref 0 true)

  abbrev pub cross_event : Option BookEvt
  cross_event = do
    px ← u message cross_price
    qty ← u message shares
    some (event BookOp.nop Side.buy px qty 0 0 true)

abbrev some_event : Option BookEvt → Option (Option BookEvt)
some_event none = none
some_event (some evt) = some (some evt)

-- `_build_event`, less the counter of bad side characters.
unfoldable pub build_event : ItchMessage → ℕ → ℕ → ℕ → Option (Option BookEvt)
build_event message sym locate rx_cycle =
    let code = message.type_code in
    if code == b'A' || code == b'F'
    then some_event (add_event message sym locate rx_cycle)
    else if code == b'E'
    then some_event (executed_event message sym locate rx_cycle)
    else if code == b'C'
    then some_event (exec_price_event message sym locate rx_cycle)
    else if code == b'X'
    then some_event (cancel_event message sym locate rx_cycle)
    else if code == b'D'
    then some_event (delete_event message sym locate rx_cycle)
    else if code == b'U'
    then some_event (replace_event message sym locate rx_cycle)
    else if code == b'P'
    then some_event (trade_event message sym locate rx_cycle)
    else if code == b'Q'
    then some_event (cross_event message sym locate rx_cycle)
    else some none

abbrev is_side_char : Option ℕ → Bool
is_side_char none = true
is_side_char (some ch) = ch == b'B' || ch == b'S'

-- What `_build_event` counts: an add with a side that is neither letter.
abbrev pub count_side : ItchMessage → FeedCounters → FeedCounters
count_side message k =
    if (message.type_code == b'A' || message.type_code == b'F')
      && not (is_side_char (c message buy_sell_indicator))
    then record k { bad_side_char = k.bad_side_char + 1 }
    else k

-- `STRATEGY_EVAL_OPS`
abbrev pub evaluates : BookOp → Bool
evaluates BookOp.clear = false
evaluates BookOp.nop = false
evaluates _ = true

-- `clear_book(sym)`, the book part
abbrev pub clear_evt : ℕ → ℕ → BookEvt
clear_evt sym rx_cycle = record {
  op = BookOp.clear;
  sym = sym;
  locate = 0;
  side = Side.buy;
  price = 0;
  qty = 0;
  order_ref = 0;
  new_order_ref = 0;
  exch_ts = 0;
  rx_cycle = rx_cycle;
  printable = false;
}

unfoldable pub clear_books : Dict SymbolBook → OrderBookModel → OrderBookModel
clear_books [] m = m
clear_books (e ∷ books) m = clear_books books (apply m (clear_evt e.0 0)).0

-- `_clear_all_books`, over the books that stand at the start
unfoldable pub clear_all_books : OrderBookModel → OrderBookModel
clear_all_books m = clear_books m.books m
