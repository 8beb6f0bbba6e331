-- ===== src/Ledger/SolvencyOfCalls.antt =====
-- The methods of ledger/domain/ledger.ts and balances without a negative part.
use exchanger.Prelude.{String, ◌≡◌, ◌⊎◌, sym, subst, List, [], ◌∷◌, arith, inl, inr}
use exchanger.Prelude.Dict.{put}
use exchanger.Prelude.Exec.{Result}
use exchanger.Decimal.{Decimal}
use exchanger.Ledger.Balance
use exchanger.Ledger.Balance.{LedgerError, Balance, not_positive, empty}
use exchanger.Ledger.Posting.{PostingDirection, debit_side, credit_side}
use exchanger.Ledger.State.{Ledger, OperationResult, key}
use exchanger.Ledger.Operations.{change_balance, move_funds, open_balance, compensate}
use exchanger.Ledger.Atomicity.{change_balance_cases, move_funds_cases}
use exchanger.Ledger.Solvency.{
  IsSafe, Solvents, put-Solvents, get-IsSolvent, credit-IsSafe, debit-IsSafe, reserve-IsSafe,
  release-IsSafe, debit_reserved-IsSafe, empty-IsSolvent,
}
use exchanger.Ledger.Compensation.{
  compensate_cases, compute_changes-IsSolvent, store_changes-Solvents, original,
}
use exchanger.Ledger.Calls.{
  Operation, execute, executes, Call, registers_asset, registers_account, opens_balance, credits,
  debits, transfers, settles, reserves, releases, compensates, perform, perform_all,
}

module _ (change : Balance → Decimal → Result LedgerError Balance) (safe : IsSafe change)
    (direction : PostingDirection) (o account asset : String) (amount : Decimal) (l : Ledger)
    (h : Solvents l.balances) where
  abbrev changed_ledger : Ledger
  changed_ledger = (change_balance change direction o account asset amount l).1

  change_balance-Solvents : Solvents changed_ledger.balances
  change_balance-Solvents = elim (change_balance_cases change direction o account asset amount l) [
    | inl same ↦ subst (λ (t : Ledger). Solvents t.balances) (sym same) h
    | inr c ↦
        subst (λ (t : Result LedgerError OperationResult × Ledger). Solvents t.1.balances)
          (sym c.outcome)
          (put-Solvents (key account asset) c.new l.balances h (
            safe c.old amount c.new (get-IsSolvent (key account asset) c.old l.balances h c.found)
              c.done))
  ]

module _ (take : Balance → Decimal → Result LedgerError Balance) (safe : IsSafe take)
    (o debtor creditor asset : String) (amount : Decimal) (l : Ledger)
    (h : Solvents l.balances) where
  abbrev moved_ledger : Ledger
  moved_ledger = (move_funds take o debtor creditor asset amount l).1

  move_funds-Solvents : Solvents moved_ledger.balances
  move_funds-Solvents = elim (move_funds_cases take o debtor creditor asset amount l) [
    | inl same ↦ subst (λ (t : Ledger). Solvents t.balances) (sym same) h
    | inr c ↦
        subst (λ (t : Result LedgerError OperationResult × Ledger). Solvents t.1.balances)
          (sym c.outcome)
          (put-Solvents (key creditor asset) c.credited
            (put (key debtor asset) c.debited l.balances)
            (put-Solvents (key debtor asset) c.debited l.balances h (
              safe c.old_debit amount c.debited
                (get-IsSolvent (key debtor asset) c.old_debit l.balances h c.found_debit) c.taken))
            (credit-IsSafe c.old_credit amount c.credited
              (get-IsSolvent (key creditor asset) c.old_credit l.balances h c.found_credit)
              c.given))
  ]

module _ (c o : String) (l : Ledger) (h : Solvents l.balances) where
  compensate-Solvents : Solvents (compensate c o l).1.balances
  compensate-Solvents = elim (compensate_cases c o l) [
    | inl same ↦ subst Solvents (sym same.balances) h
    | inr k ↦
        subst (λ (t : Result LedgerError OperationResult × Ledger). Solvents t.1.balances)
          (sym k.outcome)
          (store_changes-Solvents k.changes l.balances
            (compute_changes-IsSolvent l h (original c o l) k.changes k.computed) h)
  ]

open_balance-balances :
    (account asset : String) (l : Ledger)
    → ((open_balance account asset l).1.balances ≡ l.balances)
      ⊎ ((open_balance account asset l).1.balances ≡ put (key account asset) empty l.balances)
unfolding open_balance
open_balance-balances account asset l = ground arith

open_balance-Solvents :
    (account asset : String) (l : Ledger)
    → Solvents l.balances
    → Solvents (open_balance account asset l).1.balances
open_balance-Solvents account asset l h = elim (open_balance-balances account asset l) [
  | inl same ↦ subst Solvents (sym same) h
  | inr opened ↦
      subst Solvents (sym opened)
        (put-Solvents (key account asset) empty l.balances h empty-IsSolvent)
]

pub execute-Solvents :
    (operation : Operation) (l : Ledger)
    → Solvents l.balances
    → Solvents (execute operation l).1.balances
unfolding execute
execute-Solvents (credits o account asset amount) l h =
    change_balance-Solvents Balance.credit credit-IsSafe credit_side o account asset amount l h
execute-Solvents (debits o account asset amount) l h =
    change_balance-Solvents Balance.debit debit-IsSafe debit_side o account asset amount l h
execute-Solvents (reserves o account asset amount) l h =
    change_balance-Solvents Balance.reserve reserve-IsSafe debit_side o account asset amount l h
execute-Solvents (releases o account asset amount) l h =
    change_balance-Solvents Balance.release release-IsSafe credit_side o account asset amount l h
execute-Solvents (transfers o debtor creditor asset amount) l h =
    move_funds-Solvents Balance.debit debit-IsSafe o debtor creditor asset amount l h
execute-Solvents (settles o debtor creditor asset amount) l h =
    move_funds-Solvents Balance.debit_reserved debit_reserved-IsSafe o debtor creditor asset amount
      l h
execute-Solvents (compensates c o) l h = compensate-Solvents c o l h

-- Every method, whether it returns or throws, leaves no balance negative if none was.
pub perform-Solvents :
    (call : Call) (l : Ledger) → Solvents l.balances → Solvents (perform call l).balances
unfolding perform
perform-Solvents (registers_asset asset) l h = subst Solvents (ground arith) h
perform-Solvents (registers_account account) l h = subst Solvents (ground arith) h
perform-Solvents (opens_balance account asset) l h = open_balance-Solvents account asset l h
perform-Solvents (executes operation) l h = execute-Solvents operation l h

-- After any calls of the ledger's methods, whatever they returned or threw, every balance has
-- non-negative parts in normal form, if every balance had before, as in a new ledger.
pub perform_all-Solvents :
    (calls : List Call) (l : Ledger) → Solvents l.balances → Solvents (perform_all calls l).balances
unfolding perform_all
perform_all-Solvents [] l h = h
perform_all-Solvents (call ∷ calls) l h =
    perform_all-Solvents calls (perform call l) (perform-Solvents call l h)
