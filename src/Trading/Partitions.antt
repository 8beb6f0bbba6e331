-- ===== src/Trading/Partitions.antt =====
-- Sequences of commands to the partitions of trading/sequencer/sequencer.ts.
use exchanger.Prelude.{
  ◌≡◌, refl, sym, ◌∙◌, ap, String, true, false, List, [], ◌∷◌, some, arith, inl, inr, Option-cases,
  Bool-cases, str_eq, str_eq_iff, if◌then◌else◌,
}
use exchanger.Prelude.Dict.{get, get-put}
use exchanger.Prelude.Exec.{Result, ok}
use exchanger.Trading.StateMachine
use exchanger.Trading.StateMachine.{TradingStateMachine}
use exchanger.Trading.Sequencer.{
  SequencedCommand, TradingSequencer, machine_of, apply_owned, submit,
}

module _ {P R F : Type 0} (transition : P → Result F R)
    (create_machine : String → TradingStateMachine R) where
  unfoldable pub submit_all : List (SequencedCommand P) → TradingSequencer R → TradingSequencer R
  submit_all [] s = s
  submit_all (c ∷ cs) s = submit_all cs (submit transition create_machine c s).1

  -- The commands of one instrument, in their order.
  unfoldable pub only : String → List (SequencedCommand P) → List (SequencedCommand P)
  only i [] = []
  only i (c ∷ cs) =
      let rest = only i cs in if str_eq c.command.instrument_id i then c ∷ rest else rest

  submit-owners :
      (c : SequencedCommand P) (s : TradingSequencer R)
      → (submit transition create_machine c s).1.owners ≡ s.owners
  unfolding submit apply_owned
  submit-owners c s = ground arith

  submit-other :
      (c : SequencedCommand P) (s : TradingSequencer R) (i : String)
      → str_eq c.command.instrument_id i ≡ false
      → get i (submit transition create_machine c s).1.machines ≡ get i s.machines
  unfolding submit apply_owned
  submit-other c s i other = ground (
    arith,
    get-put c.command.instrument_id i
        (StateMachine.apply transition c.command
          (machine_of transition create_machine c.command.instrument_id s)).1
        s.machines,
  )

  submit-own :
      (c : SequencedCommand P) (s t : TradingSequencer R) (i : String)
      → s.owners ≡ t.owners
      → get i s.machines ≡ get i t.machines
      → str_eq c.command.instrument_id i ≡ true
      → get i (submit transition create_machine c s).1.machines
        ≡ get i (submit transition create_machine c t).1.machines
  unfolding submit apply_owned machine_of
  submit-own c s t i owners machines own =
      let k : String = c.command.instrument_id in
      let e : k ≡ i = (str_eq_iff k i).0 own in
      let found : get k s.machines ≡ get k t.machines = rw e machines in
      let assigned : get k s.owners ≡ get k t.owners = ap (get k) owners in
      let m : TradingStateMachine R = machine_of transition create_machine k s in
      let n : TradingStateMachine R = machine_of transition create_machine k t in
      let alike : m ≡ n = ground (arith, found) in
      ground (
        arith,
        get-put k i (StateMachine.apply transition c.command m).1 s.machines,
        get-put k i (StateMachine.apply transition c.command n).1 t.machines,
      )

  submit_all-only_from :
      (cs : List (SequencedCommand P)) (s t : TradingSequencer R) (i : String)
      → s.owners ≡ t.owners
      → get i s.machines ≡ get i t.machines
      → get i (submit_all cs s).machines ≡ get i (submit_all (only i cs) t).machines
  unfolding submit_all only
  submit_all-only_from [] s t i owners machines = machines
  submit_all-only_from (c ∷ cs) s t i owners machines =
      elim (Bool-cases (str_eq c.command.instrument_id i)) [
        | inl own ↦ rw own (
            submit_all-only_from cs (submit transition create_machine c s).1
              (submit transition create_machine c t).1 i
              (submit-owners c s ∙ owners ∙ sym (submit-owners c t))
              (submit-own c s t i owners machines own))
        | inr other ↦ rw other (
            submit_all-only_from cs (submit transition create_machine c s).1 t i
              (submit-owners c s ∙ owners) (submit-other c s i other ∙ machines))
      ]

  -- However the commands of several instruments are interleaved, each instrument's machine is left as
  -- by its own commands alone.
  pub submit_all-only :
      (cs : List (SequencedCommand P)) (s : TradingSequencer R) (i : String)
      → get i (submit_all cs s).machines ≡ get i (submit_all (only i cs) s).machines
  submit_all-only cs s i = submit_all-only_from cs s s i refl refl

  -- A command that returns a result was sent by the owner of its partition.
  pub submit-owner :
      (c : SequencedCommand P) (s : TradingSequencer R) {r : R}
      → (submit transition create_machine c s).0 ≡ ok r
      → get c.command.instrument_id s.owners ≡ some c.owner_id
  unfolding submit
  submit-owner c s {r} h = elim (Option-cases (get c.command.instrument_id s.owners)) [
    | inl unassigned ↦ absurd (ground arith)
    | inr (owner, assigned) ↦ ground (arith, str_eq_iff owner c.owner_id)
  ]
