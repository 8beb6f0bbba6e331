-- ===== src/Trading/Snapshot.antt =====
-- `createSnapshot` and `restoreSnapshot` of trading/state-machine/state-machine.ts, one after the other.
use exchanger.Prelude.{
  ◌≡◌, refl, sym, ◌∙◌, ap, String, List, [], ◌∷◌, ◌++◌, none, arith, str_eq_iff,
}
use exchanger.Prelude.Dict.{Dict, get, put, get-put, put-fresh}
use exchanger.Prelude.Dict.Each.{Each, Each-fresh, Each-map}
use exchanger.Prelude.Exec.{Result, ok}
use exchanger.Trading.StateMachine.{
  TradingStateMachine, new_machine, admit, apply, pause, resume, create_snapshot, restore_snapshot,
  set_all,
}
use exchanger.Trading.Replay.{Step, applies, pauses, resumes, step, run, run_new-IsCounted}
use mathlib.Core.List.{append_assoc, append-nil}

module _ {R : Type 0} where
  set_all-append :
      (m before : Dict R) → Each (λ k v. get k before ≡ none) m → set_all m before ≡ before ++ m
  unfolding set_all
  set_all-append [] before h = sym (append-nil before)
  set_all-append ((k, v) ∷ m) before h =
      set_all-append m (put k v before) (
        Each-fresh (λ j w. get j (put k v before) ≡ none) (λ j w. get j before ≡ none) k m h.1 h.2
          (λ j w other q. get-put k j v before ∙ rw other q))
      ∙ ap (λ d. d ++ m) (put-fresh k v before h.0)
      ∙ append_assoc before ((k, v) ∷ []) m

  set_all_self : (m : Dict R) → Each (λ k v. Unit {0}) m → set_all m [] ≡ m
  set_all_self m h =
      set_all-append m []
        (Each-map (λ k v. Unit {0}) (λ k v. get k [] ≡ none) m (λ k v _. unfold get in refl) h)

module _ {P R F : Type 0} (transition : P → Result F R) where
  step-instrument_id :
      (s : Step P) (m : TradingStateMachine R)
      → (step transition s m).instrument_id ≡ m.instrument_id
  unfolding step apply admit pause resume
  step-instrument_id (applies command) m = ground arith
  step-instrument_id pauses m = refl
  step-instrument_id resumes m = refl

  run-instrument_id :
      (steps : List (Step P)) (m : TradingStateMachine R)
      → (run transition steps m).instrument_id ≡ m.instrument_id
  unfolding run
  run-instrument_id [] m = refl
  run-instrument_id (s ∷ steps) m =
      run-instrument_id steps (step transition s m) ∙ step-instrument_id s m

  -- A machine that crashes after any commands, pauses and resumptions is restored by its snapshot: a
  -- new machine of the same instrument accepts it and is then equal to the old one.
  pub restore_snapshot-create_snapshot :
      (instrument_id now : String) (steps : List (Step P))
      → let m = run transition steps (new_machine instrument_id) in
        restore_snapshot {F = F} (create_snapshot now m) (new_machine instrument_id) ≡ (ok tt, m)
  unfolding restore_snapshot create_snapshot
  restore_snapshot-create_snapshot instrument_id now steps =
      let m : TradingStateMachine R = run transition steps (new_machine instrument_id) in
      ground (
        arith,
        run-instrument_id steps (new_machine instrument_id),
        str_eq_iff m.instrument_id instrument_id,
        set_all_self m.processed (run_new-IsCounted transition instrument_id steps).unique,
      )
