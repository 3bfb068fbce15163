-- ===== src/Scenario/Events.antt =====
-- src/ecu_simulator/scenario/events.py: timed changes to the trouble codes of one ECU.
use ecu_simulator.Prelude.{String, true, false, Option, none, some, value_error, Result, ok, err}
use ecu_simulator.Dtc.Store.{Flags}
use ecu_simulator.Vehicle.Floats.{Floats}

pub data DtcAction : Type 0 where
  raise_pending raise_confirmed request_indicator clear_code clear_all : DtcAction

-- `CODE_ACTIONS`: the flags that an action on one code names
unfoldable pub code_actions : DtcAction → Option Flags
code_actions raise_pending =
    some (record { pending = some true; confirmed = none; indicator_requested = none })
code_actions raise_confirmed =
    some (record { pending = none; confirmed = some true; indicator_requested = none })
code_actions request_indicator =
    some (record { pending = none; confirmed = none; indicator_requested = some true })
code_actions clear_code =
    some (record { pending = some false; confirmed = some false; indicator_requested = some false })
code_actions clear_all = none

module _ ⦃F : Floats⦄ where
  open F use {Float}

  pub record DtcEvent : Type 0 where
    pub at : Float
    pub action : DtcAction
    pub code : Option String

-- `the_action_and_the_code_agree`
unfoldable pub action_and_code_agree : DtcAction → Option String → Result (Unit {0})
action_and_code_agree clear_all none = ok tt
action_and_code_agree clear_all (some code) = err value_error
action_and_code_agree raise_pending none = err value_error
action_and_code_agree raise_confirmed none = err value_error
action_and_code_agree request_indicator none = err value_error
action_and_code_agree clear_code none = err value_error
action_and_code_agree raise_pending (some code) = ok tt
action_and_code_agree raise_confirmed (some code) = ok tt
action_and_code_agree request_indicator (some code) = ok tt
action_and_code_agree clear_code (some code) = ok tt
