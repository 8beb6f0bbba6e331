-- ===== src/Ledger/SelfTransfer.antt =====
-- `transfer` of ledger/domain/ledger.ts where both accounts are one.
use exchanger.Prelude.{String, ◌≡◌, none, some, arith, str_eq_iff}
use exchanger.Prelude.Dict.{get, put, get-put}
use exchanger.Prelude.Exec.{ok}
use exchanger.Decimal.{Decimal, add, subtract}
use exchanger.Ledger.Balance
use exchanger.Ledger.Balance.{Balance}
use exchanger.Ledger.State.{Ledger, OperationResult, key}
use exchanger.Ledger.Operations.{transfer}
use exchanger.Ledger.Atomicity.{move_funds_lem}

-- A transfer from a balance to itself under a new operation id, if it returns, leaves the balance
-- raised by the amount, and not as it was.
pub self_transfer_raises :
    (o account asset : String) (amount : Decimal) (l : Ledger) {old : Balance} {r : OperationResult}
    → get o l.operations ≡ none
    → get (key account asset) l.balances ≡ some old
    → (transfer o account account asset amount l).0 ≡ ok r
    → get (key account asset) (transfer o account account asset amount l).1.balances
      ≡ some (record old { available = add old.available amount })
unfolding transfer Balance.credit
self_transfer_raises o account asset amount l {old} new found done = ground (
  arith,
  move_funds_lem Balance.debit o account account asset amount l,
  get-put (key account asset) (key account asset)
      (record old { available = add old.available amount })
      (put (key account asset) (record old { available = subtract old.available amount })
        l.balances),
  str_eq_iff (key account asset) (key account asset),
)
