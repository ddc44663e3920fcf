-- ===== src/Venue/Gate.antt =====
-- When a symbol may trade, over every run of venue messages.
use fpga_algotrading.Prelude.{ℕ, ◌≡◌, ◌≢◌, refl, sym, true, false, none, some, List, [], ◌∷◌, arith}
use fpga_algotrading.Dict.{lookup-insert}
use fpga_algotrading.Contract.{TradeState}
use fpga_algotrading.Venue.Defs.{
  SymbolVenueState, VenueState, StateChange, init, state_of, put_state, effective_state,
  trading_action_state, apply_system_event, apply_trading_action, apply_operational_halt,
  apply_reg_sho, apply_luld_collar, apply_mwcb_status,
}

-- The venue messages, with the fields that their handlers take; the symbol comes first.
pub data Message : Type 0 where
  system_event : ℕ → Message
  mwcb_status : ℕ → Message
  trading_action : ℕ → ℕ → Message
  operational_halt : ℕ → ℕ → Message
  reg_sho : ℕ → ℕ → Message
  luld_collar : ℕ → ℕ → ℕ → ℕ → ℕ → Message

unfoldable pub handle : VenueState → Message → VenueState × List StateChange
handle v (system_event code) = apply_system_event v code
handle v (mwcb_status level) = apply_mwcb_status v level
handle v (trading_action sym code) = apply_trading_action v sym code
handle v (operational_halt sym code) = apply_operational_halt v sym code
handle v (reg_sho sym code) = apply_reg_sho v sym code
handle v (luld_collar sym reference upper lower extension) =
    apply_luld_collar v sym reference upper lower extension

unfoldable pub run : VenueState → List Message → VenueState
run v [] = v
run v (msg ∷ msgs) = run (handle v msg).0 msgs

-- What every run keeps: no override opens a symbol, and the session is open only after the event
-- that opens the market.
pub record IsGuarded (v : VenueState) : Type 0 where
  pub override : (s : ℕ) → (state_of v s).trading_action ≢ some TradeState.open_session
  pub session : v.session_state ≡ TradeState.open_session → v.last_system_event ≡ some b'Q'

init-IsGuarded : IsGuarded init
init-IsGuarded = record { override = λ s. cc; session = λ e. cc }

override_closed : (code : ℕ) → trading_action_state code ≢ some TradeState.open_session
override_closed code = ground arith

put_state-IsGuarded :
    (v : VenueState) (place : ℕ) (st : SymbolVenueState)
    → st.trading_action ≢ some TradeState.open_session
    → IsGuarded v
    → IsGuarded (put_state v place st)
put_state-IsGuarded v place st closed g = record {
  override = λ s. ground (arith, lookup-insert s place st v.symbols, g.override s);
  session = g.session;
}

-- Each handler keeps the guard.
handle-IsGuarded : (v : VenueState) (msg : Message) → IsGuarded v → IsGuarded (handle v msg).0
unfolding handle apply_system_event apply_mwcb_status apply_trading_action apply_operational_halt
    apply_reg_sho apply_luld_collar
handle-IsGuarded v (system_event code) g = record { override = g.override; session = ground arith }
handle-IsGuarded v (mwcb_status level) g = record { override = g.override; session = g.session }
handle-IsGuarded v (trading_action place code) g =
    put_state-IsGuarded v place _ (override_closed code) g
handle-IsGuarded v (operational_halt place code) g =
    put_state-IsGuarded v place _ (g.override place) g
handle-IsGuarded v (reg_sho place code) g = put_state-IsGuarded v place _ (g.override place) g
handle-IsGuarded v (luld_collar place r u l x) g =
    put_state-IsGuarded v place _ (g.override place) g

run-IsGuarded : (v : VenueState) (msgs : List Message) → IsGuarded v → IsGuarded (run v msgs)
unfolding run
run-IsGuarded v [] g = g
run-IsGuarded v (msg ∷ msgs) g = run-IsGuarded (handle v msg).0 msgs (handle-IsGuarded v msg g)

open_of :
    (v : VenueState) (s : ℕ)
    → IsGuarded v
    → effective_state v s ≡ TradeState.open_session
    → (v.last_system_event ≡ some b'Q')
      × (v.mwcb_breached ≡ false)
      × ((state_of v s).operational_halt ≡ false)
      × ((state_of v s).trading_action ≡ none)
unfolding effective_state
open_of v s g e = ground (arith, g.override s)

-- After any run of venue messages from the reset state, a symbol is open only if the last system
-- event was the start of the market, no market-wide breach is in force, and neither an operational
-- halt nor a trading action holds the symbol.
pub open_needs :
    (msgs : List Message) (s : ℕ)
    → effective_state (run init msgs) s ≡ TradeState.open_session
    → ((run init msgs).last_system_event ≡ some b'Q')
      × ((run init msgs).mwcb_breached ≡ false)
      × ((state_of (run init msgs) s).operational_halt ≡ false)
      × ((state_of (run init msgs) s).trading_action ≡ none)
open_needs msgs s e = open_of (run init msgs) s (run-IsGuarded init msgs init-IsGuarded) e

-- The message is not the start of a new session.
abbrev pub NotStart : Message → Type 0
NotStart (system_event code) = code ≢ b'O'
NotStart _ = Unit

abbrev pub AllNotStart : List Message → Type 0
AllNotStart [] = Unit
AllNotStart (msg ∷ msgs) = NotStart msg × AllNotStart msgs

handle_breached :
    (v : VenueState) (msg : Message)
    → NotStart msg
    → v.mwcb_breached ≡ true
    → (handle v msg).0.mwcb_breached ≡ true
unfolding handle apply_system_event apply_mwcb_status apply_trading_action apply_operational_halt
    apply_reg_sho apply_luld_collar
handle_breached v (system_event code) h b = ground arith
handle_breached v (mwcb_status level) h b = refl
handle_breached v (trading_action place code) h b = b
handle_breached v (operational_halt place code) h b = b
handle_breached v (reg_sho place code) h b = b
handle_breached v (luld_collar place r u l x) h b = b

breaches : (v : VenueState) (level : ℕ) → (handle v (mwcb_status level)).0.mwcb_breached ≡ true
unfolding handle apply_mwcb_status
breaches v level = refl

run_breached :
    (v : VenueState) (msgs : List Message)
    → AllNotStart msgs
    → v.mwcb_breached ≡ true
    → (run v msgs).mwcb_breached ≡ true
unfolding run
run_breached v [] h b = b
run_breached v (msg ∷ msgs) h b =
    run_breached (handle v msg).0 msgs h.1 (handle_breached v msg h.0 b)

-- After a market-wide breach every symbol is halted, whatever messages follow, until a start of
-- messages.
pub breach_halts :
    (v : VenueState) (level : ℕ) (msgs : List Message) (s : ℕ)
    → AllNotStart msgs
    → effective_state (run (handle v (mwcb_status level)).0 msgs) s ≡ TradeState.halted
unfolding effective_state
breach_halts v level msgs s h =
    rw (run_breached (handle v (mwcb_status level)).0 msgs h (breaches v level)) refl
