-- ===== src/Venue/Defs.antt =====
-- host/pymodel/venue.py: the state and the handlers. A one-character code is its code point; the
-- empty string that `last_system_event` and `mwcb_level` start with is `none`.
use fpga_algotrading.Prelude.{
  ℕ, Bool, true, false, Option, none, some, List, [], ◌∷◌, ◌||◌, ◌&&◌, not, ◌==◌, if◌then◌else◌,
  or_else,
}
use fpga_algotrading.Dict.{Dict, lookup, insert}
use fpga_algotrading.Contract.{TradeState, state_code}

-- `what` of a `StateChange`, with its old and new value.
pub data Change : Type 0 where
  trade_state : TradeState → TradeState → Change
  ssr : Bool → Bool → Change
  luld : ℕ × ℕ → ℕ × ℕ → Change
  mwcb : Bool → Bool → Change

-- The scope is a symbol, or `none` for the session. The text of `cause` is left out.
pub record StateChange : Type 0 where
  pub sym : Option ℕ
  pub change : Change

pub record SymbolVenueState : Type 0 where
  pub trading_action : Option TradeState
  pub operational_halt : Bool
  pub ssr_active : Bool
  pub ssr_code : ℕ
  pub luld_lo : ℕ
  pub luld_hi : ℕ
  pub luld_reference : ℕ
  pub luld_extension : ℕ

-- `SymbolVenueState()`; the Reg SHO code is '0'
abbrev pub fresh_symbol : SymbolVenueState
fresh_symbol = record {
  trading_action = none;
  operational_halt = false;
  ssr_active = false;
  ssr_code = b'0';
  luld_lo = 0;
  luld_hi = 0;
  luld_reference = 0;
  luld_extension = 0;
}

pub record VenueState : Type 0 where
  pub session_state : TradeState
  pub last_system_event : Option ℕ
  pub mwcb_breached : Bool
  pub mwcb_level : Option ℕ
  pub symbols : Dict SymbolVenueState
  pub messages_ended : Bool

-- `VenueState()`
abbrev pub init : VenueState
init = record {
  session_state = TradeState.disabled;
  last_system_event = none;
  mwcb_breached = false;
  mwcb_level = none;
  symbols = [];
  messages_ended = false;
}

-- The state that `sym_state(sym)` returns, made on first touch.
abbrev pub state_of : VenueState → ℕ → SymbolVenueState
state_of v sym = or_else (lookup sym v.symbols) fresh_symbol

abbrev pub put_state : VenueState → ℕ → SymbolVenueState → VenueState
put_state v sym st = record v { symbols = insert sym st v.symbols }

-- `effective_state(sym)`, the value; the first touch of the symbol is `touch`.
unfoldable pub effective_state : VenueState → ℕ → TradeState
effective_state v sym =
    if v.mwcb_breached
    then TradeState.halted
    else if (state_of v sym).operational_halt
    then TradeState.halted
    else or_else (state_of v sym).trading_action v.session_state

unfoldable pub touch : VenueState → ℕ → VenueState
touch v sym = put_state v sym (state_of v sym)

abbrev pub same_state : TradeState → TradeState → Bool
same_state a b = state_code a == state_code b

-- `SYSTEM_EVENT_STATE.get(code)`
abbrev pub system_event_state : ℕ → Option TradeState
system_event_state code =
    if code == b'O'
    then some TradeState.closed
    else if code == b'S'
    then some TradeState.preopen
    else if code == b'Q'
    then some TradeState.open_session
    else if code == b'M' || code == b'E' || code == b'C'
    then some TradeState.closed
    else none

unfoldable pub apply_system_event : VenueState → ℕ → VenueState × List StateChange
apply_system_event v code =
    let new_state = or_else (system_event_state code) TradeState.disabled in
    let started = code == b'O' in
    (
      record v {
        session_state = new_state;
        last_system_event = some code;
        mwcb_breached = if started then false else v.mwcb_breached;
        mwcb_level = if started then none else v.mwcb_level;
        messages_ended = if code == b'C' then true else if started then false else v.messages_ended;
      },
      if same_state new_state v.session_state
          then []
          else record { sym = none; change = trade_state v.session_state new_state } ∷ [],
    )

-- The entry of the change list for one symbol, where its effective state moved.
abbrev pub state_moved : ℕ → TradeState → TradeState → List StateChange
state_moved sym before after =
    if same_state after before
    then []
    else record { sym = some sym; change = trade_state before after } ∷ []

-- `TRADING_ACTION_STATE`, with an unknown code halted
abbrev pub trading_action_state : ℕ → Option TradeState
trading_action_state code =
    if code == b'H'
    then some TradeState.halted
    else if code == b'P'
    then some TradeState.paused
    else if code == b'Q'
    then some TradeState.auction
    else if code == b'T'
    then none
    else some TradeState.halted

unfoldable pub apply_trading_action : VenueState → ℕ → ℕ → VenueState × List StateChange
apply_trading_action v sym code =
    let v' =
      put_state v sym (record (state_of v sym) { trading_action = trading_action_state code }) in
    (v', state_moved sym (effective_state v sym) (effective_state v' sym))

unfoldable pub apply_operational_halt : VenueState → ℕ → ℕ → VenueState × List StateChange
apply_operational_halt v sym code =
    let v' = put_state v sym (record (state_of v sym) { operational_halt = not (code == b'T') }) in
    (v', state_moved sym (effective_state v sym) (effective_state v' sym))

abbrev pub same_flag : Bool → Bool → Bool
same_flag true b = b
same_flag false b = not b

unfoldable pub apply_reg_sho : VenueState → ℕ → ℕ → VenueState × List StateChange
apply_reg_sho v sym code =
    let st = state_of v sym in
    let active = code == b'1' || code == b'2' in
    (
      put_state v sym (record st { ssr_code = code; ssr_active = active }),
      if same_flag active st.ssr_active
          then []
          else record { sym = some sym; change = ssr st.ssr_active active } ∷ [],
    )

unfoldable pub apply_luld_collar : VenueState → ℕ → ℕ → ℕ → ℕ → ℕ → VenueState × List StateChange
apply_luld_collar v sym reference upper lower extension =
    let st = state_of v sym in
    (
      put_state v sym (record st {
        luld_reference = reference;
        luld_hi = upper;
        luld_lo = lower;
        luld_extension = extension;
      }),
      if lower == st.luld_lo && upper == st.luld_hi
          then []
          else record { sym = some sym; change = luld (st.luld_lo, st.luld_hi) (lower, upper) }
            ∷ [],
    )

unfoldable pub apply_mwcb_status : VenueState → ℕ → VenueState × List StateChange
apply_mwcb_status v level = (
  record v { mwcb_breached = true; mwcb_level = some level },
  if v.mwcb_breached then [] else record { sym = none; change = mwcb false true } ∷ [],
)

-- `ssr_active(sym)`
unfoldable pub ssr_active : VenueState → ℕ → Bool
ssr_active v sym = (state_of v sym).ssr_active
