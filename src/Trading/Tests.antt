-- ===== src/Trading/Tests.antt =====
-- The theorems of the trading runtime at concrete inputs.
use exchanger.Prelude.{ℕ, ◌+◌, ◌≡◌, refl, String, Bool, not, List, [], ◌∷◌, none, some, str_eq}
use exchanger.Prelude.Dict.{get}
use exchanger.Prelude.Exec.{Result, ok}
use exchanger.Trading.StateMachine.{
  StateMachineCommand, TradingStateMachine, new_machine, apply, restore_snapshot, create_snapshot,
}
use exchanger.Trading.Replay.{Step, applies, pauses, resumes, run, apply_once}
use exchanger.Trading.Snapshot.{restore_snapshot-create_snapshot}
use exchanger.Trading.Sequencer.{SequencedCommand, TradingSequencer, submit}
use exchanger.Trading.Partitions.{submit_all, only, submit_all-only, submit-owner}
use exchanger.Trading.EventLog.{LogEvent, EventLog, ArchiveBody, new_event_log}
use exchanger.Trading.Delivery.{LeavesLog}

-- A transition that always succeeds.
abbrev doubled : ℕ → Result String ℕ
doubled n = ok (n + n)

abbrev command : String → ℕ → ℕ → StateMachineCommand ℕ
command id sequence payload = record {
  command_id = id;
  instrument_id = "BTC-USD";
  sequence = sequence;
  payload = payload;
}

abbrev machine : TradingStateMachine ℕ
machine = new_machine "BTC-USD"

abbrev steps : List (Step ℕ)
steps = applies (command "c2" 2 7) ∷ pauses ∷ applies (command "c3" 3 9) ∷ resumes ∷ []

first_run : (apply doubled (command "c1" 1 5) machine).0 ≡ ok 10
unfolding apply get
first_run = refl

apply_once_example :
    let later = run doubled steps (apply doubled (command "c1" 1 5) machine).1 in
    apply doubled (command "c1" 8 6) later ≡ (ok 10, later)
apply_once_example =
    apply_once doubled (command "c1" 1 5) (command "c1" 8 6) steps machine first_run refl

restore_snapshot-create_snapshot_example :
    let m = run doubled steps (new_machine "BTC-USD") in
    restore_snapshot {F = String} (create_snapshot "now" m) (new_machine "BTC-USD") ≡ (ok tt, m)
restore_snapshot-create_snapshot_example =
    restore_snapshot-create_snapshot doubled "BTC-USD" "now" steps

abbrev sequencer : TradingSequencer ℕ
sequencer = record { owners = ("BTC-USD", "node-1") ∷ ("ETH-USD", "node-2") ∷ []; machines = [] }

abbrev sequenced : String → StateMachineCommand ℕ → SequencedCommand ℕ
sequenced owner_id c = record { owner_id = owner_id; command = c }

abbrev commands : List (SequencedCommand ℕ)
commands =
    sequenced "node-1" (command "c1" 1 5)
    ∷ sequenced "node-2"
        (record { command_id = "e1"; instrument_id = "ETH-USD"; sequence = 1; payload = 4 })
    ∷ sequenced "node-1" (command "c2" 2 6)
    ∷ []

submit_all-only_example :
    get "BTC-USD" (submit_all doubled new_machine commands sequencer).machines
    ≡ get "BTC-USD"
        (submit_all doubled new_machine
          (only doubled new_machine "BTC-USD" commands)
          sequencer).machines
submit_all-only_example = submit_all-only doubled new_machine commands sequencer "BTC-USD"

submit_run :
    (submit doubled new_machine (sequenced "node-1" (command "c1" 1 5)) sequencer).0 ≡ ok 10
unfolding submit get
submit_run = refl

submit-owner_example : get "BTC-USD" sequencer.owners ≡ some "node-1"
submit-owner_example =
    submit-owner doubled new_machine (sequenced "node-1" (command "c1" 1 5)) sequencer submit_run

abbrev event : String → LogEvent ℕ
event id = record {
  event_id = id;
  event_type = "TradeExecuted";
  payload = 1;
  correlation_id = none;
  causation_id = none;
}

abbrev log : EventLog ℕ
log = record new_event_log { events = event "a" ∷ event "b" ∷ event "c" ∷ []; offset = 1 }

abbrev a_checksum : ArchiveBody ℕ → String
a_checksum body = body.created_at

-- A handler that counts the events and refuses `b`.
abbrev counting : LogEvent ℕ → EventLog ℕ × ℕ → Bool × (EventLog ℕ × ℕ)
counting e (l, n) = (not (str_eq e.event_id "b"), (l, n + 1))

counting-LeavesLog : LeavesLog counting
counting-LeavesLog e s = refl
