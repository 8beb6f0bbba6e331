-- ===== src/Trading/EventLog.antt =====
-- trading/event-log/event-log.ts: the append-only log with a consumer offset, retries and dead letters.
-- Traces, logs and the logging context only observe; the checksum, SHA-256 of the JSON text of an
-- archive by node:crypto, is a parameter.
use exchanger.Prelude.{
  ℕ, zero, suc, ◌+◌, ◌-◌, String, Bool, true, false, not, ◌||◌, List, [], ◌∷◌, ◌++◌, Option, none,
  some, length, drop, get_elem?, ltb, ◌==◌, str_eq, if◌then◌else◌,
}
use exchanger.Prelude.Exec.{Result, ok, err, Exec}

pub record LogEvent (P : Type 0) : Type 0 where
  pub event_id : String
  pub event_type : String
  pub payload : P
  pub correlation_id : Option String
  pub causation_id : Option String

pub record EventLog (P : Type 0) : Type 0 where
  pub events : List (LogEvent P)
  pub dead_letters : List (LogEvent P)
  pub offset : ℕ
  pub failures_before_success : ℕ

abbrev pub new_event_log : {P : Type 0} → EventLog P
new_event_log = record { events = []; dead_letters = []; offset = 0; failures_before_success = 0 }

pub data EventLogError : Type 0 where
  event_log_timeout invalid_archive : EventLogError

-- What the checksum is computed from.
pub record ArchiveBody (P : Type 0) : Type 0 where
  pub format_version : ℕ
  pub created_at : String
  pub committed_offset : ℕ
  pub events : List (LogEvent P)

pub record EventLogArchive (P : Type 0) : Type 0 where
  pub body : ArchiveBody P
  pub checksum : String

module _ {P : Type 0} where
  unfoldable pub append : LogEvent P → Exec EventLogError (EventLog P) (Unit {0})
  append event log =
      if ltb 0 log.failures_before_success
      then (
        err event_log_timeout,
        record log { failures_before_success = log.failures_before_success - 1 },
      )
      else (ok tt, record log { events = log.events ++ event ∷ [] })

  unfoldable pub fail_next : ℕ → EventLog P → EventLog P
  fail_next count log = record log { failures_before_success = count }

  -- A limit is a non-negative integer by its type.
  unfoldable pub retain_latest : ℕ → EventLog P → EventLog P
  retain_latest max_events log =
      let remove_count = length log.events - max_events in
      if remove_count == 0
      then log
      else record log { events = drop remove_count log.events; offset = log.offset - remove_count }

  module _ (checksum : ArchiveBody P → String) where
    unfoldable pub create_archive : String → EventLog P → EventLogArchive P
    create_archive created_at log =
        let body : ArchiveBody P = record {
          format_version = 1;
          created_at = created_at;
          committed_offset = log.offset;
          events = log.events;
        } in
        record { body = body; checksum = checksum body }

    unfoldable pub restore : EventLogArchive P → Result EventLogError (EventLog P)
    restore archive =
        if not (archive.body.format_version == 1)
          || ltb (length archive.body.events) archive.body.committed_offset
          || not (str_eq archive.checksum (checksum archive.body))
        then err invalid_archive
        else ok (record new_event_log {
          events = archive.body.events;
          offset = archive.body.committed_offset;
        })

  abbrev pub dead_letter : {W : Type 0} → LogEvent P → EventLog P × W → EventLog P × W
  dead_letter event (log, w) = (record log { dead_letters = log.dead_letters ++ event ∷ [] }, w)

  abbrev pub advance : {W : Type 0} → EventLog P × W → EventLog P × W
  advance (log, w) = (record log { offset = log.offset + 1 }, w)

  -- The handler may change the log and a world around it; it returns whether it succeeded.
  module _ {W : Type 0} (handler : LogEvent P → EventLog P × W → Bool × (EventLog P × W)) where
    -- The attempts that are left at one event. With none at all the event is neither handled nor kept.
    unfoldable pub deliver : ℕ → LogEvent P → EventLog P × W → EventLog P × W
    deliver zero event s = s
    deliver (suc attempts) event s =
        let (handled, s') = handler event s in
        elim handled [
          | true ↦ s'
          | false ↦ elim (attempts == 0) [
            | true ↦ dead_letter event s'
            | false ↦ deliver attempts event s'
          ]
        ]

    -- The `while` loop, on fuel.
    unfoldable pub consume : ℕ → ℕ → EventLog P × W → EventLog P × W
    unfolding deliver
    consume max_retries zero s = s
    consume max_retries (suc fuel) s = elim (get_elem? s.0.events s.0.offset) [
      | none ↦ s
      | some event ↦ consume max_retries fuel (advance (deliver max_retries event s))
    ]
