-- ===== src/Ledger/Balance.antt =====
-- ledger/domain/balance.ts: the available and reserved parts of a balance.
use exchanger.Prelude.{Bool, ◌||◌, if◌then◌else◌}
use exchanger.Prelude.Exec.{Result, ok, err}
use exchanger.Decimal.{Decimal, add, subtract, is_negative, is_zero, nought}

-- The messages of the errors that the ledger throws.
pub data LedgerError : Type 0 where
  available_negative reserved_negative amount_not_positive : LedgerError
  insufficient_available insufficient_reserved : LedgerError
  batch_not_balanced asset_exists account_exists balance_exists : LedgerError
  account_missing asset_missing balance_missing operation_missing : LedgerError
  invalid_asset empty_owner empty_id : LedgerError

pub record Balance : Type 0 where
  pub available : Decimal
  pub reserved : Decimal

abbrev pub empty : Balance
empty = record { available = nought; reserved = nought }

-- `isNegative() || isZero()`, the test of `requirePositive`
abbrev pub not_positive : Decimal → Bool
not_positive amount = is_negative amount || is_zero amount

unfoldable pub restore : Decimal → Decimal → Result LedgerError Balance
restore available reserved =
    if is_negative available
    then err available_negative
    else if is_negative reserved
    then err reserved_negative
    else ok (record { available = available; reserved = reserved })

unfoldable pub credit : Balance → Decimal → Result LedgerError Balance
credit b amount =
    if not_positive amount
    then err amount_not_positive
    else ok (record b { available = add b.available amount })

unfoldable pub debit : Balance → Decimal → Result LedgerError Balance
debit b amount =
    if not_positive amount
    then err amount_not_positive
    else let available = subtract b.available amount in
      if is_negative available
      then err insufficient_available
      else ok (record b { available = available })

unfoldable pub with_reserved : Decimal → Balance → Balance
with_reserved reserved b = record b { reserved = reserved }

unfoldable pub reserve : Balance → Decimal → Result LedgerError Balance
unfolding debit with_reserved
reserve b amount = if not_positive amount then err amount_not_positive else elim (debit b amount) [
  | ok debited ↦ ok (with_reserved (add b.reserved amount) debited)
  | err e ↦ err e
]

unfoldable pub release : Balance → Decimal → Result LedgerError Balance
release b amount =
    if not_positive amount
    then err amount_not_positive
    else let reserved = subtract b.reserved amount in
      if is_negative reserved
      then err insufficient_reserved
      else ok (record { available = add b.available amount; reserved = reserved })

unfoldable pub debit_reserved : Balance → Decimal → Result LedgerError Balance
debit_reserved b amount =
    if not_positive amount
    then err amount_not_positive
    else let reserved = subtract b.reserved amount in
      if is_negative reserved
      then err insufficient_reserved
      else ok (record b { reserved = reserved })
