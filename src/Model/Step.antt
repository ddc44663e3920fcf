-- ===== src/Model/Step.antt =====
-- host/pymodel/model.py, `_dispatch` and `step_message`.
use fpga_algotrading.Prelude.{
  ℕ, ◌+◌, Bool, true, false, Option, none, some, List, [], leb, ◌==◌, if◌then◌else◌, ◌>>=◌,
}
use fpga_algotrading.Contract.{BookEvt, BookTop, n_symbols}
use fpga_algotrading.Book.Top.{apply}
use fpga_algotrading.Venue.Defs.{
  VenueState, StateChange, apply_system_event, apply_mwcb_status, apply_trading_action,
  apply_operational_halt, apply_reg_sho, apply_luld_collar,
}
use fpga_algotrading.Strategy.State.{StrategyDecision}
use fpga_algotrading.Strategy.Engine.{evaluate}
use fpga_algotrading.Itch.Layout.{
  event_code, breached_level, trading_state, reason, market_code, operational_halt_action,
  reg_sho_action, auction_collar_reference_price, upper_auction_collar_price,
  lower_auction_collar_price, auction_collar_extension,
}
use fpga_algotrading.Itch.Decode.{DecodeStatus, ItchMessage, DecodeResult, decode_message}
use fpga_algotrading.Model.Filter.{sym_for}
use fpga_algotrading.Model.State.{
  FeedCounters, note_type, note_error, ErrorKind, GoldenModel, StepResult,
}
use fpga_algotrading.Model.Dispatch.{
  u, c, text, build_event, count_side, evaluates, clear_all_books,
}

abbrev pub Stepped : Type 0
Stepped = Option (GoldenModel × StepResult)

abbrev pub with_feed : GoldenModel → (FeedCounters → FeedCounters) → GoldenModel
with_feed m f = record m { counters = f m.counters }

-- `_result` with nothing but the message and the changes
abbrev pub plain_result : ℕ → List ℕ → ItchMessage → Bool → List StateChange → StepResult
plain_result index raw message filtered changes = record {
  index = index;
  raw = raw;
  status = DecodeStatus.ok;
  message = some message;
  filtered = filtered;
  evt = none;
  top = none;
  decision = none;
  state_changes = changes;
}

-- The venue after a handler, and the changes that it reports.
abbrev pub venue_step :
    GoldenModel → ℕ → List ℕ → ItchMessage → VenueState × List StateChange → Stepped
venue_step m index raw message r =
    some (record m { venue = r.0 }, plain_result index raw message false r.1)

-- The branch of 'S': the start of messages also clears the books.
abbrev pub system_event_step : GoldenModel → ℕ → List ℕ → ItchMessage → Stepped
system_event_step m index raw message = do
  code ← c message event_code
  let r = apply_system_event m.venue code
  some (
    record m { venue = r.0; book = if code == b'O' then clear_all_books m.book else m.book },
    plain_result index raw message false r.1,
  )

abbrev pub trading_action_step : GoldenModel → ℕ → List ℕ → ItchMessage → ℕ → Stepped
trading_action_step m index raw message sym = do
  code ← c message trading_state
  why ← text message reason
  venue_step m index raw message (apply_trading_action m.venue sym code)

abbrev pub operational_halt_step : GoldenModel → ℕ → List ℕ → ItchMessage → ℕ → Stepped
operational_halt_step m index raw message sym = do
  market ← c message market_code
  code ← c message operational_halt_action
  venue_step m index raw message (apply_operational_halt m.venue sym code)

abbrev pub luld_collar_step : GoldenModel → ℕ → List ℕ → ItchMessage → ℕ → Stepped
luld_collar_step m index raw message sym = do
  reference ← u message auction_collar_reference_price
  upper ← u message upper_auction_collar_price
  lower ← u message lower_auction_collar_price
  extension ← u message auction_collar_extension
  venue_step m index raw message (apply_luld_collar m.venue sym reference upper lower extension)

abbrev event_result :
    ℕ → List ℕ → ItchMessage → BookEvt → BookTop → Option StrategyDecision → StepResult
event_result index raw message evt top decision = record {
  index = index;
  raw = raw;
  status = DecodeStatus.ok;
  message = some message;
  filtered = false;
  evt = some evt;
  top = some top;
  decision = decision;
  state_changes = [];
}

-- The book and, for an operation on orders, the strategy.
unfoldable pub event_step : GoldenModel → ℕ → List ℕ → ItchMessage → BookEvt → Stepped
event_step m index raw message evt =
    let (book, top) = apply m.book evt in
    let m' = record (with_feed m (λ k. record k { msgs_to_book = k.msgs_to_book + 1 })) {
      book = book;
    } in
    if evaluates evt.op
    then elim (evaluate m'.strategy top m'.venue) [
      | none ↦ none
      | some e ↦ some (
        record m' { strategy = e.model; venue = e.venue },
        event_result index raw message evt top (some e.decision),
      )
    ]
    else some (m', event_result index raw message evt top none)

-- The messages of one subscribed symbol.
unfoldable pub symbol_step : GoldenModel → ℕ → List ℕ → ItchMessage → ℕ → ℕ → Stepped
symbol_step m index raw message sym rx_cycle =
    let code = message.type_code in
    if code == b'H'
    then trading_action_step m index raw message sym
    else if code == b'h'
    then operational_halt_step m index raw message sym
    else if code == b'Y'
    then c message reg_sho_action
      >>= (λ action. venue_step m index raw message (apply_reg_sho m.venue sym action))
    else if code == b'J'
    then luld_collar_step m index raw message sym
    else (let m' = with_feed m (count_side message) in
        elim (build_event message sym message.locate rx_cycle) [
          | none ↦ none
          | some none ↦ some (m', plain_result index raw message false [])
          | some (some evt) ↦ event_step m' index raw message evt
        ])

unfoldable pub dispatch : GoldenModel → ℕ → List ℕ → ItchMessage → ℕ → Stepped
dispatch m index raw message rx_cycle =
    if message.type_code == b'S'
    then system_event_step m index raw message
    else if message.type_code == b'W'
    then c message breached_level
      >>= (λ level. venue_step m index raw message (apply_mwcb_status m.venue level))
    else if leb n_symbols message.locate
    then some (
      with_feed m (λ k.
          note_error ErrorKind.bad_locate index
            (record k { drop_bad_locate = k.drop_bad_locate + 1 })),
      plain_result index raw message false [],
    )
    else elim (sym_for m.symbols message.locate) [
      | none ↦ some (
        with_feed m (λ k. record k { msgs_filtered = k.msgs_filtered + 1 }),
        plain_result index raw message true [],
      )
      | some sym ↦ symbol_step m index raw message sym rx_cycle
    ]

-- The result of a message that does not decode.
abbrev pub no_result : ℕ → List ℕ → DecodeStatus → StepResult
no_result index raw status = record {
  index = index;
  raw = raw;
  status = status;
  message = none;
  filtered = false;
  evt = none;
  top = none;
  decision = none;
  state_changes = [];
}

-- What each status but `ok` counts; the type code of an empty block is not noted.
abbrev pub count_status : DecodeResult → ℕ → FeedCounters → FeedCounters
count_status r index k = elim r.status [
  | DecodeStatus.ok ↦ k
  | DecodeStatus.unknown_type ↦ elim r.type_code [
    | none ↦ record k { unknown_message_type = k.unknown_message_type + 1 }
    | some code ↦ note_type code (record k { unknown_message_type = k.unknown_message_type + 1 })
  ]
  | DecodeStatus.length_mismatch ↦
      note_error ErrorKind.length_mismatch index
        (record k { drop_len_mismatch = k.drop_len_mismatch + 1 })
  | DecodeStatus.truncated ↦
      note_error ErrorKind.truncated index (record k { drop_truncated = k.drop_truncated + 1 })
  | DecodeStatus.empty ↦
      note_error ErrorKind.empty_block index (record k { drop_malformed = k.drop_malformed + 1 })
]

-- A message that decodes: its type is noted, and whether the session had ended.
abbrev pub count_message : GoldenModel → ItchMessage → GoldenModel
count_message m message = with_feed m (λ k.
    let k' = note_type message.type_code k in
    if m.venue.messages_ended
    then record k' { msgs_after_end_of_messages = k'.msgs_after_end_of_messages + 1 }
    else k')

-- `step_message` from the decoded result on; the `AssertionError` of a result without a message is
-- `none`.
unfoldable pub step_result : GoldenModel → ℕ → List ℕ → DecodeResult → ℕ → Stepped
step_result m index raw r rx_cycle = elim r.status [
  | DecodeStatus.ok ↦ elim r.message [
    | none ↦ none
    | some message ↦ dispatch (count_message m message) index raw message rx_cycle
  ]
  | _ ↦ some (with_feed m (count_status r index), no_result index raw r.status)
]

unfoldable pub step_message : GoldenModel → List ℕ → ℕ → Option ℕ → Stepped
step_message m raw rx_cycle declared_len =
    let index = m.msg_index in
    let m' = record (with_feed m (λ k. record k { rx_msgs = k.rx_msgs + 1 })) {
      msg_index = index + 1;
    } in
    elim (decode_message raw declared_len) [
      | none ↦ none
      | some r ↦ step_result m' index raw r rx_cycle
    ]
