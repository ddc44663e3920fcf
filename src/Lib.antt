-- ===== src/Lib.antt =====
-- The golden model of an FPGA trading system (host/pymodel), the oracle that its hardware is
-- compared with: ITCH market data updates an order book per symbol, venue messages say when a symbol
-- may trade, and a strategy turns each published top of book into an order request or into nothing.
--
-- Which file models which part:
--   Prelude    Boolean tests, lists and signed integers over the native numbers
--   Dict       the dicts of the source, as association lists in insertion order
--   Contract   host/pymodel/trading_pkg_mirror.py: enumerations, structs and, in Pack, the packed
--              records (pack_bits, unpack_bits, pack_order_token)
--   Book       host/pymodel/book.py, OrderBookModel: State (orders, books, mark_stale, clear_stale),
--              Levels (_level_add, _level_remove, _update_last_price), Apply (_apply_clear to
--              _apply_replace), Top (_publish, top, apply)
--   Venue      host/pymodel/venue.py, VenueState: each apply_* handler and effective_state
--   Strategy   host/pymodel/strategy.py, StrategyModel: State, Primitives (_prim_quote to
--              _prim_imbal, _send, _cancel), Engine (evaluate, _record_resting, _next_token, on_fill,
--              on_terminal_ack, on_cancel_ack); Runs puts calls in any order
--   Feed       host/pymodel/itch_decode.py and itch_encode.py, the MoldUDP64 packets: Bytes, and
--              Mold (decode_mold_packet, raw_block, mold_packet)
--   Itch       host/pymodel/itch_decode.py and itch_pkg_mirror.py: Layout (MESSAGE_LAYOUT, MSG_LEN)
--              and Decode (decode_message)
--   Model      host/pymodel/model.py, GoldenModel: Filter (book.py, SymbolFilter), State, Dispatch
--              (_build_event), Step (_dispatch, step_message), Packet (step_packet,
--              _stale_everything)
--   GoldenBook tb/common/golden_book.py, GoldenBook: State (_add, _remove, _reduce, _execute,
--              _level_sub, set_stale, clear), Apply (apply on bytes), Query (top_of_book,
--              verify_consistency); Twin drives it and Book by the same events
--   ItchGen    tb/common/itch_gen.py: the builders of messages (system_event to operational_halt),
--              Framing (mold64, udp_datagram, ipv4_packet, eth_frame), Generator (FeedGenerator) and
--              Parse (parse_mold64); Slots, Heads, Changes, Adds, Status and Meaning say what the
--              reference book makes of a built message
--   Capture    tools/pcap/itch_parse.py: Link (extract_udp) and Reader (_record_to_mold,
--              _check_sequence, _iter_capture up to the blocks); what is noted is kept as codes,
--              without their texts and positions
--   Histogram  tools/analysis/histogram.py: the geometry (bucket_of, edges), percentile, and
--              Telemetry (decode_words)
--   System     book, venue and strategy together: the top of book that an event publishes goes to the strategy
--              with the venue state, as _dispatch chains them
--
-- How state and errors are modelled. The objects that the source changes in place are records that
-- each operation takes and returns. A book, a level and an order stand in their dict, and every
-- write goes through the dict, so what the source shares by reference is shared here too; a value
-- that a dict makes on first touch is written there. Symbols, references, prices and quantities are
-- naturals, as the wire has them unsigned; order counts, positions and differences of prices are
-- integers. An exception of the source is `none`. The recursion is on lists, and in the packet
-- decoders on the number of blocks to come. Two loops run on fuel: the carries of _ip_checksum on the
-- sum itself, which each turn makes less, and the padding of straddle on three turns, where one is
-- enough, since two bytes at most are missing and a beat that needs a filler has two or more.
--
-- A reason of staleness is a constructor with the values that its text prints, and a one-character
-- code is its code point. The text of decisions and of causes, the dumps and the fields that only
-- they read are left out. So are the encoder of ITCH messages and the comparison of the constants
-- with the RTL. A packet that is abandoned keeps the index of the message, not its text. A byte is a
-- number, and a field name of a message is one too. An address of the generator is the
-- list of its numbers. The other tools, the test benches and the build scripts of the repository are
-- outside the model.
--
-- An event is addressed (Book.Consistency.Whole) when the order it refers to, if live, is of the
-- symbol of the event; the source looks up the level in the book of the event's symbol and does not
-- check that. The agreement of orders and levels rests on it.
pub mod Prelude
pub mod Dict
pub mod Contract
pub mod Book
pub mod Capture
pub mod Venue
pub mod Strategy
pub mod Feed
pub mod GoldenBook
pub mod Histogram
pub mod Itch
pub mod ItchGen
pub mod Model
pub mod System
