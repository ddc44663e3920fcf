-- ===== src/Venue/Tests.antt =====
-- The venue state at concrete messages.
use fpga_algotrading.Prelude.{◌≡◌, refl, false, none, some, List, [], ◌∷◌}
use fpga_algotrading.Contract.{TradeState}
use fpga_algotrading.Venue.Defs.{
  init, state_of, effective_state, apply_system_event, apply_trading_action,
}
use fpga_algotrading.Venue.Gate.{
  Message, system_event, trading_action, mwcb_status, handle, run, open_needs, breach_halts,
}

abbrev opening : List Message
opening = system_event b'O' ∷ system_event b'S' ∷ trading_action 4 b'H' ∷ system_event b'Q' ∷ []

opening_opens : effective_state (run init opening) 3 ≡ TradeState.open_session
unfolding run handle apply_system_event apply_trading_action effective_state
opening_opens = refl

opening_halts : effective_state (run init opening) 4 ≡ TradeState.halted
unfolding run handle apply_system_event apply_trading_action effective_state
opening_halts = refl

open_needs_example :
    ((run init opening).last_system_event ≡ some b'Q')
    × ((run init opening).mwcb_breached ≡ false)
    × ((state_of (run init opening) 3).operational_halt ≡ false)
    × ((state_of (run init opening) 3).trading_action ≡ none)
open_needs_example = open_needs opening 3 opening_opens

breach_halts_example :
    effective_state
      (run (handle (run init opening) (mwcb_status b'1')).0 (trading_action 3 b'T' ∷ []))
      3
    ≡ TradeState.halted
breach_halts_example = breach_halts (run init opening) b'1' (trading_action 3 b'T' ∷ []) 3 (tt, tt)
