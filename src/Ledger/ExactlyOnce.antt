-- ===== src/Ledger/ExactlyOnce.antt =====
-- Operation ids and errors of the methods of ledger/domain/ledger.ts.
use text.Mathlib.TextPositions.{eq_refl}
use exchanger.Prelude.{String, ◌≡◌, List, [], ◌∷◌, some, arith, str_eq_iff}
use exchanger.Prelude.Dict.{get, get-put}
use exchanger.Prelude.Exec.{Result, ok, err}
use exchanger.Decimal.{Decimal}
use exchanger.Ledger.Balance
use exchanger.Ledger.Balance.{LedgerError, Balance, not_positive}
use exchanger.Ledger.Posting.{PostingDirection, debit_side, credit_side}
use exchanger.Ledger.State.{Ledger, OperationResult}
use exchanger.Ledger.Operations.{change_balance, move_funds, compensate}
use exchanger.Ledger.Atomicity.{change_balance_lem, move_funds_lem}
use exchanger.Ledger.Compensation.{SameFunds, compensate_lem}
use exchanger.Ledger.Calls.{
  Operation, credits, debits, reserves, releases, transfers, settles, compensates, operation_id,
  execute, Call, registers_asset, registers_account, opens_balance, executes, perform, perform_all,
}

-- A known operation id gives the stored result and changes nothing.
pub execute-known :
    (operation : Operation) (l : Ledger) {r : OperationResult}
    → get (operation_id operation) l.operations ≡ some r
    → execute operation l ≡ (ok r, l)
unfolding execute
execute-known (credits o account asset amount) l h =
    ground (arith, change_balance_lem Balance.credit credit_side o account asset amount l)
execute-known (debits o account asset amount) l h =
    ground (arith, change_balance_lem Balance.debit debit_side o account asset amount l)
execute-known (reserves o account asset amount) l h =
    ground (arith, change_balance_lem Balance.reserve debit_side o account asset amount l)
execute-known (releases o account asset amount) l h =
    ground (arith, change_balance_lem Balance.release credit_side o account asset amount l)
execute-known (transfers o debtor creditor asset amount) l h =
    ground (arith, move_funds_lem Balance.debit o debtor creditor asset amount l)
execute-known (settles o debtor creditor asset amount) l h =
    ground (arith, move_funds_lem Balance.debit_reserved o debtor creditor asset amount l)
execute-known (compensates c o) l h = ground (arith, compensate_lem c o l)

module _ (change : Balance → Decimal → Result LedgerError Balance) (direction : PostingDirection)
    (o account asset : String) (amount : Decimal) (l : Ledger) where
  abbrev change_outcome : Result LedgerError OperationResult × Ledger
  change_outcome = change_balance change direction o account asset amount l

  change-get_self :
      {r : OperationResult} → change_outcome.0 ≡ ok r → get o change_outcome.1.operations ≡ some r
  change-get_self {r} h = ground (
    arith,
    change_balance_lem change direction o account asset amount l,
    get-put o o r l.operations,
    eq_refl o,
  )

  change-get_known :
      (j : String) {q : OperationResult}
      → get j l.operations ≡ some q
      → get j change_outcome.1.operations ≡ some q
  change-get_known j h =
      grind (
        arith,
        change_balance_lem change direction o account asset amount l,
        get-put,
        str_eq_iff o j,
      )

  change_thrown : {e : LedgerError} → change_outcome.0 ≡ err e → SameFunds l change_outcome.1
  change_thrown h = ground (arith, change_balance_lem change direction o account asset amount l)

module _ (take : Balance → Decimal → Result LedgerError Balance) (o debtor creditor asset : String)
    (amount : Decimal) (l : Ledger) where
  abbrev move_outcome : Result LedgerError OperationResult × Ledger
  move_outcome = move_funds take o debtor creditor asset amount l

  move-get_self :
      {r : OperationResult} → move_outcome.0 ≡ ok r → get o move_outcome.1.operations ≡ some r
  move-get_self {r} h = ground (
    arith,
    move_funds_lem take o debtor creditor asset amount l,
    get-put o o r l.operations,
    eq_refl o,
  )

  move-get_known :
      (j : String) {q : OperationResult}
      → get j l.operations ≡ some q
      → get j move_outcome.1.operations ≡ some q
  move-get_known j h =
      grind (arith, move_funds_lem take o debtor creditor asset amount l, get-put, str_eq_iff o j)

  move_thrown : {e : LedgerError} → move_outcome.0 ≡ err e → SameFunds l move_outcome.1
  move_thrown h = ground (arith, move_funds_lem take o debtor creditor asset amount l)

module _ (o original_operation_id : String) (l : Ledger) where
  abbrev compensation_outcome : Result LedgerError OperationResult × Ledger
  compensation_outcome = compensate o original_operation_id l

  compensation-get_self :
      {r : OperationResult}
      → compensation_outcome.0 ≡ ok r
      → get o compensation_outcome.1.operations ≡ some r
  compensation-get_self {r} h =
      ground
        (arith, compensate_lem o original_operation_id l, get-put o o r l.operations, eq_refl o)

  compensation-get_known :
      (j : String) {q : OperationResult}
      → get j l.operations ≡ some q
      → get j compensation_outcome.1.operations ≡ some q
  compensation-get_known j h =
      grind (arith, compensate_lem o original_operation_id l, get-put, str_eq_iff o j)

  compensation_thrown :
      {e : LedgerError} → compensation_outcome.0 ≡ err e → SameFunds l compensation_outcome.1
  compensation_thrown h = ground (arith, compensate_lem o original_operation_id l)

execute-get_self :
    (operation : Operation) (l : Ledger) {r : OperationResult}
    → (execute operation l).0 ≡ ok r
    → get (operation_id operation) (execute operation l).1.operations ≡ some r
unfolding execute
execute-get_self (credits o account asset amount) l h =
    change-get_self Balance.credit credit_side o account asset amount l h
execute-get_self (debits o account asset amount) l h =
    change-get_self Balance.debit debit_side o account asset amount l h
execute-get_self (reserves o account asset amount) l h =
    change-get_self Balance.reserve debit_side o account asset amount l h
execute-get_self (releases o account asset amount) l h =
    change-get_self Balance.release credit_side o account asset amount l h
execute-get_self (transfers o debtor creditor asset amount) l h =
    move-get_self Balance.debit o debtor creditor asset amount l h
execute-get_self (settles o debtor creditor asset amount) l h =
    move-get_self Balance.debit_reserved o debtor creditor asset amount l h
execute-get_self (compensates o original_operation_id) l h =
    compensation-get_self o original_operation_id l h

execute-get_known :
    (operation : Operation) (l : Ledger) (j : String) {q : OperationResult}
    → get j l.operations ≡ some q
    → get j (execute operation l).1.operations ≡ some q
unfolding execute
execute-get_known (credits o account asset amount) l j h =
    change-get_known Balance.credit credit_side o account asset amount l j h
execute-get_known (debits o account asset amount) l j h =
    change-get_known Balance.debit debit_side o account asset amount l j h
execute-get_known (reserves o account asset amount) l j h =
    change-get_known Balance.reserve debit_side o account asset amount l j h
execute-get_known (releases o account asset amount) l j h =
    change-get_known Balance.release credit_side o account asset amount l j h
execute-get_known (transfers o debtor creditor asset amount) l j h =
    move-get_known Balance.debit o debtor creditor asset amount l j h
execute-get_known (settles o debtor creditor asset amount) l j h =
    move-get_known Balance.debit_reserved o debtor creditor asset amount l j h
execute-get_known (compensates o original_operation_id) l j h =
    compensation-get_known o original_operation_id l j h

-- A method that throws leaves the balances, the postings and the operations as they were.
pub execute_thrown :
    (operation : Operation) (l : Ledger) {e : LedgerError}
    → (execute operation l).0 ≡ err e
    → SameFunds l (execute operation l).1
unfolding execute
execute_thrown (credits o account asset amount) l h =
    change_thrown Balance.credit credit_side o account asset amount l h
execute_thrown (debits o account asset amount) l h =
    change_thrown Balance.debit debit_side o account asset amount l h
execute_thrown (reserves o account asset amount) l h =
    change_thrown Balance.reserve debit_side o account asset amount l h
execute_thrown (releases o account asset amount) l h =
    change_thrown Balance.release credit_side o account asset amount l h
execute_thrown (transfers o debtor creditor asset amount) l h =
    move_thrown Balance.debit o debtor creditor asset amount l h
execute_thrown (settles o debtor creditor asset amount) l h =
    move_thrown Balance.debit_reserved o debtor creditor asset amount l h
execute_thrown (compensates o original_operation_id) l h =
    compensation_thrown o original_operation_id l h

perform-get_known :
    (call : Call) (l : Ledger) (j : String) {q : OperationResult}
    → get j l.operations ≡ some q
    → get j (perform call l).operations ≡ some q
unfolding perform
perform-get_known (registers_asset asset) l j h = ground arith
perform-get_known (registers_account account) l j h = ground arith
perform-get_known (opens_balance account asset) l j h = ground arith
perform-get_known (executes operation) l j h = execute-get_known operation l j h

perform_all-get_known :
    (calls : List Call) (l : Ledger) (j : String) {q : OperationResult}
    → get j l.operations ≡ some q
    → get j (perform_all calls l).operations ≡ some q
unfolding perform_all
perform_all-get_known [] l j h = h
perform_all-get_known (call ∷ calls) l j h =
    perform_all-get_known calls (perform call l) j (perform-get_known call l j h)

-- Once a method has returned a result for an operation id, a later call of any method with that id
-- returns the same result and changes nothing, whatever was called in between.
pub execute_once :
    (operation again : Operation) (calls : List Call) (l : Ledger) {r : OperationResult}
    → (execute operation l).0 ≡ ok r
    → operation_id again ≡ operation_id operation
    → let later = perform_all calls (execute operation l).1 in execute again later ≡ (ok r, later)
execute_once operation again calls l h same =
    execute-known again (perform_all calls (execute operation l).1) (
      rw same (
        perform_all-get_known calls (execute operation l).1 (operation_id operation)
          (execute-get_self operation l h)))
