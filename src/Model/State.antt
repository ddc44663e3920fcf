-- ===== src/Model/State.antt =====
-- host/pymodel/model.py, the state: the counters of the feed, the model and what a step returns.
use fpga_algotrading.Prelude.{ℕ, ◌+◌, Bool, Option, none, some, List, [], or_else}
use fpga_algotrading.Dict.{Dict, lookup, insert}
use fpga_algotrading.Contract.{BookEvt, BookTop, SymStrat}
use fpga_algotrading.Book.State
use fpga_algotrading.Book.State.{OrderBookModel}
use fpga_algotrading.Venue.Defs
use fpga_algotrading.Venue.Defs.{VenueState, StateChange}
use fpga_algotrading.Strategy.State.{StrategyModel, StrategyDecision, new_model}
use fpga_algotrading.Itch.Decode.{DecodeStatus, ItchMessage}

-- The kinds of `note_error`; the text of its detail is left out.
pub data ErrorKind : Type 0 where
  malformed_packet length_mismatch truncated empty_block bad_locate sequence_gap : ErrorKind

pub record FeedCounters : Type 0 where
  pub rx_packets : ℕ
  pub rx_msgs : ℕ
  pub msgs_filtered : ℕ
  pub msgs_to_book : ℕ
  pub heartbeats : ℕ
  pub end_of_session : ℕ
  pub drop_malformed : ℕ
  pub drop_len_mismatch : ℕ
  pub drop_truncated : ℕ
  pub unknown_message_type : ℕ
  pub drop_bad_locate : ℕ
  pub bad_side_char : ℕ
  pub msgs_after_end_of_messages : ℕ
  pub packet_blocks_abandoned : ℕ
  pub seq_gaps : ℕ
  pub gap_max_size : ℕ
  pub dup_packets : ℕ
  pub messages_by_type : Dict ℕ
  pub first_error : Option (ErrorKind × ℕ)

abbrev pub zero_feed : FeedCounters
zero_feed = record {
  rx_packets = 0;
  rx_msgs = 0;
  msgs_filtered = 0;
  msgs_to_book = 0;
  heartbeats = 0;
  end_of_session = 0;
  drop_malformed = 0;
  drop_len_mismatch = 0;
  drop_truncated = 0;
  unknown_message_type = 0;
  drop_bad_locate = 0;
  bad_side_char = 0;
  msgs_after_end_of_messages = 0;
  packet_blocks_abandoned = 0;
  seq_gaps = 0;
  gap_max_size = 0;
  dup_packets = 0;
  messages_by_type = [];
  first_error = none;
}

abbrev pub note_type : ℕ → FeedCounters → FeedCounters
note_type code c = record c {
  messages_by_type =
      insert code (or_else (lookup code c.messages_by_type) 0 + 1) c.messages_by_type;
}

abbrev first_of : Option (ErrorKind × ℕ) → ErrorKind × ℕ → Option (ErrorKind × ℕ)
first_of none e = some e
first_of (some f) e = some f

abbrev pub note_error : ErrorKind → ℕ → FeedCounters → FeedCounters
note_error kind index c = record c { first_error = first_of c.first_error (kind, index) }

pub record GoldenModel : Type 0 where
  pub symbols : Dict ℕ
  pub book : OrderBookModel
  pub venue : VenueState
  pub strategy : StrategyModel
  pub counters : FeedCounters
  pub next_expected : Option ℕ
  pub session : List ℕ
  pub msg_index : ℕ

-- `GoldenModel(symbols, strat, token_magic)`
abbrev pub new_golden : Dict ℕ → Dict SymStrat → ℕ → GoldenModel
new_golden symbols strat token_magic = record {
  symbols = symbols;
  book = State.init;
  venue = Defs.init;
  strategy = new_model strat token_magic 0;
  counters = zero_feed;
  next_expected = none;
  session = [];
  msg_index = 0;
}

pub record StepResult : Type 0 where
  pub index : ℕ
  pub raw : List ℕ
  pub status : DecodeStatus
  pub message : Option ItchMessage
  pub filtered : Bool
  pub evt : Option BookEvt
  pub top : Option BookTop
  pub decision : Option StrategyDecision
  pub state_changes : List StateChange
