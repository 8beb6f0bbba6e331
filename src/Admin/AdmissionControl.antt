-- ===== src/Admin/AdmissionControl.antt =====
-- admin/ports/admission-control.port.ts and `MemoryAdmissionControl` of
-- admin/infrastructure/memory-admission-control.ts. Times are in milliseconds.
use exchanger.Prelude.{
  ℕ, String, Bool, true, false, ◌&&◌, ◌||◌, List, [], ◌∷◌, Option, none, some, concat, leb, str_eq,
  if◌then◌else◌,
}
use exchanger.Prelude.Dict.{Dict, get, put, values}
use exchanger.Prelude.Exec.{Result, ok, err}

pub data AdmissionControlType : Type 0 where
  global : AdmissionControlType
  user : AdmissionControlType
  account : AdmissionControlType
  instrument : AdmissionControlType

pub data AdmissionControlState : Type 0 where
  allow : AdmissionControlState
  frozen : AdmissionControlState
  paused : AdmissionControlState
  opened : AdmissionControlState

pub record AdmissionControlChange : Type 0 where
  pub command_id : String
  pub type : AdmissionControlType
  pub target_id : String
  pub state : AdmissionControlState
  pub effective_at : ℕ
  pub actor_id : String
  pub reason_code : String
  pub compensation_for : Option String

pub record AdmissionContext : Type 0 where
  pub user_id : String
  pub account_id : String
  pub instrument_id : String

-- `AdmissionRejectedError` by its `rejectionCode`.
pub data RejectionCode : Type 0 where
  circuit_breaker_open : RejectionCode
  user_frozen : RejectionCode
  account_frozen : RejectionCode
  instrument_paused : RejectionCode

abbrev pub Controls : Type 0
Controls = Dict AdmissionControlChange

abbrev pub type_text : AdmissionControlType → String
type_text global = "GLOBAL"
type_text user = "USER"
type_text account = "ACCOUNT"
type_text instrument = "INSTRUMENT"

-- `${type}:${targetId}`
unfoldable pub control_key : AdmissionControlType → String → String
control_key type target_id = concat (type_text type) (concat ":" target_id)

abbrev pub state_eq : AdmissionControlState → AdmissionControlState → Bool
state_eq allow allow = true
state_eq frozen frozen = true
state_eq paused paused = true
state_eq opened opened = true
state_eq _ _ = false

-- `[...this.controls.values()].some(({ commandId }) => commandId === change.commandId)`
unfoldable pub is_applied : String → List AdmissionControlChange → Bool
is_applied command_id [] = false
is_applied command_id (control ∷ controls) =
    str_eq control.command_id command_id || is_applied command_id controls

unfoldable pub apply : AdmissionControlChange → Controls → Controls
apply change controls =
    if is_applied change.command_id (values controls)
    then controls
    else put (control_key change.type change.target_id) change controls

-- `control?.state === blockedState && control.effectiveAt <= at`
abbrev pub is_blocking : AdmissionControlState → ℕ → Option AdmissionControlChange → Bool
is_blocking blocked at_time none = false
is_blocking blocked at_time (some control) =
    state_eq control.state blocked && leb control.effective_at at_time

unfoldable pub blocks : AdmissionControlType → String → AdmissionControlState → ℕ → Controls → Bool
blocks type target_id blocked at_time controls =
    is_blocking blocked at_time (get (control_key type target_id) controls)

-- Each `this.assert(…)` throws or goes on to the next.
unfoldable pub assert_allowed : AdmissionContext → ℕ → Controls → Result RejectionCode (Unit {0})
assert_allowed context at_time controls =
    if blocks global "*" opened at_time controls
    then err circuit_breaker_open
    else if blocks user context.user_id frozen at_time controls
    then err user_frozen
    else if blocks account context.account_id frozen at_time controls
    then err account_frozen
    else if blocks instrument context.instrument_id opened at_time controls
    then err circuit_breaker_open
    else if blocks instrument context.instrument_id paused at_time controls
    then err instrument_paused
    else ok tt
