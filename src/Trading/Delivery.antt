-- ===== src/Trading/Delivery.antt =====
-- `consume`, `retainLatest`, `createArchive` and `restore` of trading/event-log/event-log.ts: which events
-- are still to be read.
use exchanger.Prelude.{
  ℕ, zero, suc, ◌-◌, ◌≤◌, ◌≡◌, refl, ap, Bool, List, [], ◌∷◌, String, arith, length, drop,
  get_elem?, get_elem?-none, get_elem?-some, ◌==◌, Bool-cases, Option-cases, inl, inr, str_eq_iff,
}
use exchanger.Prelude.Exec.{ok}
use exchanger.Trading.EventLog.{
  LogEvent, EventLog, new_event_log, ArchiveBody, retain_latest, create_archive, restore, deliver,
  consume, advance,
}

drop-nil : {A : Type 0} (k : ℕ) → drop {A = A} k [] ≡ []
drop-nil zero = refl
drop-nil (suc k) = refl

drop-drop : {A : Type 0} (n k : ℕ) (xs : List A) → n ≤ k → drop (k - n) (drop n xs) ≡ drop k xs
drop-drop zero k xs h = ap (λ j. drop j xs) (omega arith)
drop-drop (suc n) zero xs h = absurd (omega (arith, h))
drop-drop (suc n) (suc k) [] h = drop-nil (suc k - suc n)
drop-drop (suc n) (suc k) (x ∷ xs) h = ground (arith, drop-drop n k xs)

module _ {P : Type 0} where
  -- The events after the offset.
  abbrev pub unread : EventLog P → List (LogEvent P)
  unread log = drop log.offset log.events

  -- Where the offset is within the events, pruning the log to at least as many events as are
  -- unread loses none of these.
  pub retain_latest-unread :
      (max_events : ℕ) (log : EventLog P)
      → log.offset ≤ length log.events
      → length log.events - log.offset ≤ max_events
      → unread (retain_latest max_events log) ≡ unread log
  unfolding retain_latest
  retain_latest-unread max_events log h k =
      ground (arith, drop-drop (length log.events - max_events) log.offset log.events)

  -- An archive restores the events and the offset of a log whose offset is within its events. The dead
  -- letters are not in it.
  pub restore-create_archive :
      (checksum : ArchiveBody P → String) (created_at : String) (log : EventLog P)
      → log.offset ≤ length log.events
      → restore checksum (create_archive checksum created_at log)
        ≡ ok (record new_event_log { events = log.events; offset = log.offset })
  unfolding restore create_archive
  restore-create_archive checksum created_at log h = ground (
    arith,
    str_eq_iff (create_archive checksum created_at log).checksum
        (checksum (create_archive checksum created_at log).body),
  )

  module _ {W : Type 0} (handler : LogEvent P → EventLog P × W → Bool × (EventLog P × W)) where
    -- The handler leaves the log alone.
    abbrev pub LeavesLog : Type 0
    LeavesLog = (event : LogEvent P) (s : EventLog P × W) → (handler event s).1.0 ≡ s.0

    deliver-log :
        LeavesLog
        → (attempts : ℕ) (event : LogEvent P) (s : EventLog P × W)
        → ((deliver handler attempts event s).0.events ≡ s.0.events)
          × ((deliver handler attempts event s).0.offset ≡ s.0.offset)
    unfolding deliver
    deliver-log leaves zero event s = (refl, refl)
    deliver-log leaves (suc attempts) event s =
        ground (arith, leaves event s, deliver-log leaves attempts event (handler event s).1)

    -- If the handler leaves the log alone and the offset is within the events, `consume` ends
    -- after a pass for each unread event, whatever the handler does with them: the offset comes to
    -- the end, and the events stay as they were.
    pub consume-offset :
        LeavesLog
        → (max_retries fuel : ℕ) (s : EventLog P × W) → s.0.offset ≤ length s.0.events
        → length s.0.events - s.0.offset ≤ fuel
        → ((consume handler max_retries fuel s).0.events ≡ s.0.events)
          × ((consume handler max_retries fuel s).0.offset ≡ length s.0.events)
    unfolding consume
    consume-offset leaves max_retries zero s h k = (refl, ground arith)
    consume-offset leaves max_retries (suc fuel) s h k =
        elim (Option-cases (get_elem? s.0.events s.0.offset)) [
          | inl past ↦ ground (arith, get_elem?-none s.0.events s.0.offset past)
          | inr (event, unread_event) ↦ ground (
            arith,
            deliver-log leaves max_retries event s,
            get_elem?-some s.0.events s.0.offset unread_event,
            consume-offset leaves max_retries fuel (advance (deliver handler max_retries event s)),
          )
        ]

    -- What the handler keeps, wherever the log's offset and dead letters stand, a run keeps.
    module _ (K : W → Type 0)
        (keep : (event : LogEvent P) (s : EventLog P × W) → K s.1 → K (handler event s).1.1) where
      deliver-keeps :
          (attempts : ℕ) (event : LogEvent P) (s : EventLog P × W)
          → K s.1
          → K (deliver handler attempts event s).1
      unfolding deliver
      deliver-keeps zero event s h = h
      deliver-keeps (suc attempts) event s h =
          let h' = keep event s h in
          let s' = (handler event s).1 in
          elim (Bool-cases (handler event s).0) [
            | inl done ↦ rw (done, deliver) h'
            | inr failed ↦ elim (Bool-cases (attempts == 0)) [
              | inl last ↦ rw (failed, last, deliver) h'
              | inr more ↦ rw (failed, more, deliver) (deliver-keeps attempts event s' h')
            ]
          ]

      pub consume-keeps :
          (max_retries fuel : ℕ) (s : EventLog P × W)
          → K s.1
          → K (consume handler max_retries fuel s).1
      unfolding consume
      consume-keeps max_retries zero s h = h
      consume-keeps max_retries (suc fuel) s h =
          elim (Option-cases (get_elem? s.0.events s.0.offset)) [
            | inl end ↦ rw (end, consume) h
            | inr (event, found) ↦
                rw (found, consume)
                  (consume-keeps max_retries fuel (advance (deliver handler max_retries event s))
                    (deliver-keeps max_retries event s h))
          ]
