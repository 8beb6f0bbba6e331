-- ===== src/Trading/Replay.antt =====
-- Sequences of commands, pauses and resumptions of trading/state-machine/state-machine.ts.
use exchanger.Prelude.{
  ◌+◌, ◌≡◌, refl, sym, ◌∙◌, subst, ap, String, List, [], ◌∷◌, none, some, arith, length, inl, inr,
  ◌⊎◌, Option-cases, Bool-cases, ==_iff, ◌==◌, ltb, str_eq, str_eq_iff, not, ◌||◌,
}
use exchanger.Prelude.Dict.{Dict, get, put, get-put}
use exchanger.Prelude.Dict.Each.{Each, Each-put}
use exchanger.Prelude.Exec.{Result, ok, err, Result-cases}
use exchanger.Trading.StateMachine.{
  StateMachineCommand, MachineError, TradingStateMachine, new_machine, admit, apply, pause, resume,
  is_paused,
}

-- What may happen to a running machine.
pub data Step (P : Type 0) : Type 0 where
  applies : StateMachineCommand P → Step P
  pauses resumes : Step P

length-put_new :
    {V : Type 0} (k : String) (v : V) (m : Dict V)
    → get k m ≡ none
    → length (put k v m) ≡ length m + 1
unfolding get put
length-put_new k v [] h = ground arith
length-put_new k v ((j, w) ∷ m) h = ground (arith, length-put_new k v m)

module _ {P R F : Type 0} (transition : P → Result F R) where
  unfoldable pub step : Step P → TradingStateMachine R → TradingStateMachine R
  unfolding apply pause resume
  step (applies command) m = (apply transition command m).1
  step pauses m = pause m
  step resumes m = resume m

  unfoldable pub run : List (Step P) → TradingStateMachine R → TradingStateMachine R
  unfolding step
  run [] m = m
  run (s ∷ steps) m = run steps (step s m)

  -- A command that is admitted, and the machine after it.
  record Admitted (command : StateMachineCommand P) (m : TradingStateMachine R) : Type 0 where
    result : R
    fresh : get command.command_id m.processed ≡ none
    next : command.sequence ≡ m.sequence + 1
    outcome : apply transition command m ≡ (
      ok result,
      record m {
        sequence = command.sequence;
        processed = put command.command_id result m.processed;
      },
    )

  -- A command leaves the machine as it is, or is the next one and is recorded with its result.
  apply_cases :
      (command : StateMachineCommand P) (m : TradingStateMachine R)
      → ((apply transition command m).1 ≡ m) ⊎ Admitted command m
  unfolding apply admit
  apply_cases command m = elim (Option-cases (get command.command_id m.processed)) [
    | inr (previous, known) ↦ inl (ground arith)
    | inl fresh ↦ elim (Result-cases (transition command.payload)) [
      | inl (fault, threw) ↦ inl (ground arith)
      | inr (result, gave) ↦ elim (Bool-cases (is_paused m.status)) [
        | inl stopped ↦ inl (ground arith)
        | inr running ↦
            elim (Bool-cases
              (not (str_eq command.instrument_id m.instrument_id) || ltb command.sequence 1)) [
                | inl foreign ↦ inl (ground arith)
                | inr own ↦ elim (Bool-cases (command.sequence == m.sequence + 1)) [
                  | inr gap ↦ inl (ground arith)
                  | inl next ↦ inr (record {
                    result = result;
                    fresh = fresh;
                    next = (==_iff command.sequence (m.sequence + 1)).0 next;
                    outcome = ground arith;
                  })
                ]
              ]
      ]
    ]
  ]

  -- A command that throws leaves the machine as it was.
  pub apply_thrown :
      (command : StateMachineCommand P) (m : TradingStateMachine R) {e : MachineError F}
      → (apply transition command m).0 ≡ err e
      → (apply transition command m).1 ≡ m
  unfolding apply admit
  apply_thrown command m {e} h = ground arith

  -- The sequence is the number of commands that were recorded, one for each command id.
  pub record IsCounted (m : TradingStateMachine R) : Type 0 where
    pub counted : length m.processed ≡ m.sequence
    pub unique : Each (λ k r. Unit {0}) m.processed

  Admitted-IsCounted :
      (command : StateMachineCommand P) (m : TradingStateMachine R)
      → IsCounted m
      → Admitted command m
      → IsCounted (apply transition command m).1
  Admitted-IsCounted command m h a =
      subst (λ (t : Result (MachineError F) R × TradingStateMachine R). IsCounted t.1)
        (sym a.outcome)
        (record {
          counted =
              length-put_new command.command_id a.result m.processed a.fresh
              ∙ ap (λ n. n + 1) h.counted
              ∙ sym a.next;
          unique =
              Each-put (λ k r. Unit {0}) (λ k r. Unit {0}) command.command_id a.result m.processed
                h.unique tt (λ j w _ q. q);
        })

  step-IsCounted : (s : Step P) (m : TradingStateMachine R) → IsCounted m → IsCounted (step s m)
  unfolding step pause resume
  step-IsCounted (applies command) m h = elim (apply_cases command m) [
    | inl same ↦ subst IsCounted (sym same) h
    | inr admitted ↦ Admitted-IsCounted command m h admitted
  ]
  step-IsCounted pauses m h = record { counted = h.counted; unique = h.unique }
  step-IsCounted resumes m h = record { counted = h.counted; unique = h.unique }

  run-IsCounted :
      (steps : List (Step P)) (m : TradingStateMachine R) → IsCounted m → IsCounted (run steps m)
  unfolding run
  run-IsCounted [] m h = h
  run-IsCounted (s ∷ steps) m h = run-IsCounted steps (step s m) (step-IsCounted s m h)

  step-get_known :
      (s : Step P) (m : TradingStateMachine R) (id : String) {r : R}
      → get id m.processed ≡ some r
      → get id (step s m).processed ≡ some r
  unfolding step pause resume
  step-get_known (applies command) m id {r} h = elim (apply_cases command m) [
    | inl same ↦ ap (λ (t : TradingStateMachine R). get id t.processed) same ∙ h
    | inr a ↦
        ap (λ (t : Result (MachineError F) R × TradingStateMachine R). get id t.1.processed)
          a.outcome
        ∙ ground (
          arith,
          a.fresh,
          get-put command.command_id id a.result m.processed,
          str_eq_iff command.command_id id,
        )
  ]
  step-get_known pauses m id h = h
  step-get_known resumes m id h = h

  run-get_known :
      (steps : List (Step P)) (m : TradingStateMachine R) (id : String) {r : R}
      → get id m.processed ≡ some r
      → get id (run steps m).processed ≡ some r
  unfolding run
  run-get_known [] m id h = h
  run-get_known (s ∷ steps) m id h = run-get_known steps (step s m) id (step-get_known s m id h)

  apply-get_self :
      (command : StateMachineCommand P) (m : TradingStateMachine R) {r : R}
      → (apply transition command m).0 ≡ ok r
      → get command.command_id (apply transition command m).1.processed ≡ some r
  unfolding apply admit
  apply-get_self command m {r} h = ground (
    arith,
    get-put command.command_id command.command_id r m.processed,
    str_eq_iff command.command_id command.command_id,
  )

  apply-known :
      (command : StateMachineCommand P) (m : TradingStateMachine R) {r : R}
      → get command.command_id m.processed ≡ some r
      → apply transition command m ≡ (ok r, m)
  unfolding apply
  apply-known command m h = ground arith

  -- Once a command has returned a result, any command with its id returns the same result and
  -- changes nothing, whatever commands, pauses and resumptions came in between, also while the
  -- machine is paused.
  pub apply_once :
      (command again : StateMachineCommand P) (steps : List (Step P)) (m : TradingStateMachine R)
      {r : R}
      → (apply transition command m).0 ≡ ok r
      → again.command_id ≡ command.command_id
      → let later = run steps (apply transition command m).1 in
        apply transition again later ≡ (ok r, later)
  apply_once command again steps m h same =
      apply-known again (run steps (apply transition command m).1) (
        rw same (
          run-get_known steps (apply transition command m).1 command.command_id
            (apply-get_self command m h)))

  -- From a new machine, after any commands, pauses and resumptions, the sequence is the number of
  -- commands that were recorded, and no command id is recorded twice.
  pub run_new-IsCounted :
      (instrument_id : String) (steps : List (Step P))
      → IsCounted (run steps (new_machine instrument_id))
  run_new-IsCounted instrument_id steps =
      run-IsCounted steps (new_machine instrument_id) (record { counted = refl; unique = tt })
