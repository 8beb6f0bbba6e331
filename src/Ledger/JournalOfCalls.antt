-- ===== src/Ledger/JournalOfCalls.antt =====
-- The methods of ledger/domain/ledger.ts and the double entry of each operation.
use exchanger.Prelude.{String, refl, sym, subst, List, [], ◌∷◌, arith, inl, inr}
use exchanger.Prelude.Exec.{Result}
use exchanger.Decimal.{Decimal}
use exchanger.Ledger.Balance
use exchanger.Ledger.Balance.{LedgerError, Balance}
use exchanger.Ledger.Posting.{Posting, PostingDirection, debit_side, credit_side}
use exchanger.Ledger.State.{Ledger, OperationResult}
use exchanger.Ledger.Operations.{change_balance, move_funds, compensate}
use exchanger.Ledger.Atomicity.{
  change_balance_cases, move_funds_cases, account_posting, system_posting, debit_posting,
  credit_posting,
}
use exchanger.Ledger.Compensation.{compensate_cases, original, reversed}
use exchanger.Ledger.Journal.{
  IsJournal, append-IsJournal, pair-IsDoubleEntry, postings_of-pair, reversed_from-IsDoubleEntry,
  postings_of-reversed_from,
}
use exchanger.Ledger.Calls.{
  Operation, credits, debits, reserves, releases, transfers, settles, compensates, execute, Call,
  registers_asset, registers_account, opens_balance, executes, perform, perform_all,
}

abbrev Outcome : Type 0
Outcome = Result LedgerError OperationResult × Ledger

module _ (change : Balance → Decimal → Result LedgerError Balance) (direction : PostingDirection)
    (o account asset : String) (amount : Decimal) (l : Ledger) (h : IsJournal l.postings) where
  abbrev changed_ledger : Ledger
  changed_ledger = (change_balance change direction o account asset amount l).1

  change_balance-IsJournal : IsJournal changed_ledger.postings
  change_balance-IsJournal = elim (change_balance_cases change direction o account asset amount l) [
    | inl same ↦ subst (λ (t : Ledger). IsJournal t.postings) (sym same) h
    | inr c ↦
        let p : Posting = account_posting change direction o account asset amount l in
        let q : Posting = system_posting change direction o account asset amount l in
        subst (λ (t : Outcome). IsJournal t.1.postings) (sym c.outcome)
          (append-IsJournal o l.postings (p ∷ q ∷ []) h (pair-IsDoubleEntry p q refl refl refl)
            (λ j. postings_of-pair o j p q refl refl))
  ]

module _ (take : Balance → Decimal → Result LedgerError Balance) (o debtor creditor asset : String)
    (amount : Decimal) (l : Ledger) (h : IsJournal l.postings) where
  abbrev moved_ledger : Ledger
  moved_ledger = (move_funds take o debtor creditor asset amount l).1

  move_funds-IsJournal : IsJournal moved_ledger.postings
  move_funds-IsJournal = elim (move_funds_cases take o debtor creditor asset amount l) [
    | inl same ↦ subst (λ (t : Ledger). IsJournal t.postings) (sym same) h
    | inr c ↦
        let p : Posting = debit_posting take o debtor creditor asset amount l in
        let q : Posting = credit_posting take o debtor creditor asset amount l in
        subst (λ (t : Outcome). IsJournal t.1.postings) (sym c.outcome)
          (append-IsJournal o l.postings (p ∷ q ∷ []) h (pair-IsDoubleEntry p q refl refl refl)
            (λ j. postings_of-pair o j p q refl refl))
  ]

module _ (c o : String) (l : Ledger) (h : IsJournal l.postings) where
  compensate-IsJournal : IsJournal (compensate c o l).1.postings
  compensate-IsJournal = elim (compensate_cases c o l) [
    | inl same ↦ subst IsJournal (sym same.postings) h
    | inr k ↦
        subst (λ (t : Outcome). IsJournal t.1.postings) (sym k.outcome)
          (append-IsJournal c l.postings (reversed c o l) h
            (reversed_from-IsDoubleEntry c l.next_posting_number (original c o l) (h o))
            (λ j. postings_of-reversed_from c j l.next_posting_number (original c o l)))
  ]

pub execute-IsJournal :
    (operation : Operation) (l : Ledger)
    → IsJournal l.postings
    → IsJournal (execute operation l).1.postings
unfolding execute
execute-IsJournal (credits o account asset amount) l h =
    change_balance-IsJournal Balance.credit credit_side o account asset amount l h
execute-IsJournal (debits o account asset amount) l h =
    change_balance-IsJournal Balance.debit debit_side o account asset amount l h
execute-IsJournal (reserves o account asset amount) l h =
    change_balance-IsJournal Balance.reserve debit_side o account asset amount l h
execute-IsJournal (releases o account asset amount) l h =
    change_balance-IsJournal Balance.release credit_side o account asset amount l h
execute-IsJournal (transfers o debtor creditor asset amount) l h =
    move_funds-IsJournal Balance.debit o debtor creditor asset amount l h
execute-IsJournal (settles o debtor creditor asset amount) l h =
    move_funds-IsJournal Balance.debit_reserved o debtor creditor asset amount l h
execute-IsJournal (compensates c o) l h = compensate-IsJournal c o l h

perform-IsJournal :
    (call : Call) (l : Ledger) → IsJournal l.postings → IsJournal (perform call l).postings
unfolding perform
perform-IsJournal (registers_asset asset) l h = subst IsJournal (ground arith) h
perform-IsJournal (registers_account account) l h = subst IsJournal (ground arith) h
perform-IsJournal (opens_balance account asset) l h = subst IsJournal (ground arith) h
perform-IsJournal (executes operation) l h = execute-IsJournal operation l h

-- After any calls of the ledger's methods, whatever they returned or threw, every operation debits in
-- each asset what it credits, if every operation did before, as in a new ledger.
pub perform_all-IsJournal :
    (calls : List Call) (l : Ledger)
    → IsJournal l.postings
    → IsJournal (perform_all calls l).postings
unfolding perform_all
perform_all-IsJournal [] l h = h
perform_all-IsJournal (call ∷ calls) l h =
    perform_all-IsJournal calls (perform call l) (perform-IsJournal call l h)
