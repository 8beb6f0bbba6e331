-- ===== src/Ledger/Tests.antt =====
-- Runs of the ledger, and its theorems at concrete inputs.
use exchanger.Prelude.{
  ℕ, ◌≡◌, ◌≢◌, refl, sym, ◌∙◌, String, Bool, true, false, List, [], ◌∷◌, Option, none, some, arith,
  str_eq, str_eq_iff,
}
use exchanger.Prelude.Int.{pos}
use exchanger.Prelude.Exec.{ok, err}
use exchanger.Prelude.Dict.{Dict, get, put}
use exchanger.Prelude.Dict.Each.{Each}
use exchanger.Decimal.{Decimal, add, nought, is_negative, is_zero}
use exchanger.Ledger.Balance.{Balance, empty, insufficient_available}
use exchanger.Ledger.State.{Ledger, OperationResult, new_ledger, key}
use exchanger.Ledger.Operations.{transfer, reconcile, postings_of}
use exchanger.Ledger.Solvency.{Solvents}
use exchanger.Ledger.Journal.{IsJournal, side_total}
use exchanger.Ledger.Calls.{
  Operation, credits, debits, transfers, execute, Call, registers_account, registers_asset,
  opens_balance, executes, perform_all,
}
use exchanger.Ledger.SolvencyOfCalls.{perform_all-Solvents}
use exchanger.Ledger.Compensation.{SameFunds}
use exchanger.Ledger.ExactlyOnce.{execute_once, execute_thrown}
use exchanger.Ledger.Conservation.{Fits, supply, transfer-supply}
use exchanger.Ledger.SelfTransfer.{self_transfer_raises}
use exchanger.Ledger.JournalOfCalls.{perform_all-IsJournal}
use exchanger.Ledger.Reconcile.{reconcile-perform_all}

abbrev whole : ℕ → Decimal
whole n = record { coefficient = pos n; scale = 0 }

abbrev of_ann : Balance
of_ann = record { available = whole 8; reserved = whole 5 }

-- Two accounts with a balance in USD.
abbrev bank : Ledger
bank = record new_ledger { balances = (key "ann" "USD", of_ann) ∷ (key "bob" "USD", empty) ∷ [] }

abbrev calls : List Call
calls =
    registers_account (record { id = "ann"; owner_id = "u" })
    ∷ registers_asset (record { id = "USD"; code = "USD"; scale = 2 })
    ∷ opens_balance "ann" "USD"
    ∷ executes (credits "o1" "ann" "USD" (whole 5))
    ∷ executes (debits "o2" "ann" "USD" (whole 9))
    ∷ []

perform_all-Solvents_example : Solvents (perform_all calls new_ledger).balances
perform_all-Solvents_example = perform_all-Solvents calls new_ledger tt

reconcile-perform_all_example : let l = perform_all calls new_ledger in reconcile l ≡ (ok tt, l)
reconcile-perform_all_example = reconcile-perform_all calls

abbrev payment : Operation
payment = transfers "o3" "ann" "bob" "USD" (whole 3)

abbrev paid : OperationResult
paid = record { operation_id = "o3"; posting_ids = "posting-1" ∷ "posting-2" ∷ [] }

payment_run : (execute payment bank).0 ≡ ok paid
unfolding execute get is_negative is_zero exchanger.Decimal.subtract exchanger.Prelude.Int.◌+ℤ◌
    exchanger.Prelude.Int.◌*ℤ◌ exchanger.Prelude.Int.negate exchanger.Ledger.Posting.is_balanced
    exchanger.Prelude.Dict.values put exchanger.Decimal.compare exchanger.Prelude.show
payment_run = refl

execute_once_example :
    let later = perform_all calls (execute payment bank).1 in
    execute (debits "o3" "ann" "USD" (whole 1)) later ≡ (ok paid, later)
execute_once_example =
    execute_once payment (debits "o3" "ann" "USD" (whole 1)) calls bank payment_run refl

overdraft_run : (execute (debits "o4" "ann" "USD" (whole 9)) bank).0 ≡ err insufficient_available
unfolding execute get is_negative is_zero exchanger.Decimal.subtract exchanger.Prelude.Int.◌+ℤ◌
    exchanger.Prelude.Int.◌*ℤ◌ exchanger.Prelude.Int.negate
overdraft_run = refl

execute_thrown_example : SameFunds bank (execute (debits "o4" "ann" "USD" (whole 9)) bank).1
execute_thrown_example = execute_thrown (debits "o4" "ann" "USD" (whole 9)) bank overdraft_run

bank-Fits : Each (λ k b. Fits 2 b) bank.balances
unfolding get
bank-Fits = (
  record { available = omega arith; reserved = omega arith },
  refl,
  (record { available = omega arith; reserved = omega arith }, refl, tt),
)

ann_not_bob : key "ann" "USD" ≢ key "bob" "USD"
ann_not_bob same = ground (arith, (str_eq_iff (key "ann" "USD") (key "bob" "USD")).1 same)

transfer-supply_example :
    supply 2 (λ k. true) (transfer "o3" "ann" "bob" "USD" (whole 3) bank).1.balances
    ≡ supply 2 (λ k. true) bank.balances
transfer-supply_example =
    transfer-supply 2 (λ k. true) "o3" "ann" "bob" "USD" (whole 3) bank bank-Fits (omega arith) refl
      ann_not_bob

self_payment_run :
    (transfer "o5" "ann" "ann" "USD" (whole 3) bank).0
    ≡ ok (record { operation_id = "o5"; posting_ids = "posting-1" ∷ "posting-2" ∷ [] })
unfolding transfer get is_negative is_zero exchanger.Decimal.subtract exchanger.Prelude.Int.◌+ℤ◌
    exchanger.Prelude.Int.◌*ℤ◌ exchanger.Prelude.Int.negate exchanger.Ledger.Posting.is_balanced
    exchanger.Prelude.Dict.values put exchanger.Decimal.compare exchanger.Prelude.show
self_payment_run = refl

self_transfer_raises_example :
    get (key "ann" "USD") (transfer "o5" "ann" "ann" "USD" (whole 3) bank).1.balances
    ≡ some (record of_ann { available = add of_ann.available (whole 3) })
self_transfer_raises_example =
    self_transfer_raises "o5" "ann" "USD" (whole 3) bank {old = of_ann} (unfold get in refl)
      (unfold get in refl) self_payment_run

perform_all-IsJournal_example : IsJournal (perform_all calls bank).postings
perform_all-IsJournal_example =
    perform_all-IsJournal calls bank (λ o a. unfold postings_of side_total in refl)
