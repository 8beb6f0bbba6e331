-- ===== src/Ledger/Operations.antt =====
-- The methods of `class Ledger` in ledger/domain/ledger.ts. The telemetry span around
-- `settleReservedTransfer` only runs its callback.
use exchanger.Prelude.{
  String, Bool, true, false, ◌&&◌, not, List, [], ◌∷◌, ◌++◌, Option, none, some, str_eq, ◌==◌,
  if◌then◌else◌,
}
use exchanger.Prelude.Dict.{Dict, get, has, put, values}
use exchanger.Prelude.Exec.{Result, ok, err, pure, lift, gets, modify, raise_if, ◌>>=◌, ◌>>◌}
use exchanger.Decimal.{Decimal}
use exchanger.Ledger.Balance
use exchanger.Ledger.Balance.{
  LedgerError, Balance, empty, not_positive, amount_not_positive, asset_exists, account_exists,
  balance_exists, operation_missing, batch_not_balanced,
}
use exchanger.Ledger.Posting.{
  Posting, PostingDirection, debit_side, credit_side, Asset, Account, is_balanced,
}
use exchanger.Ledger.State.{
  Ledger, OperationResult, Action, key, require_account, require_asset, get_balance, set_balance,
  create_posting, assert_balanced, opposite, record_operation, record_balanced_marker, once,
}

unfoldable pub register_asset : Asset → Action (Unit {0})
register_asset asset l = elim (get asset.id l.assets) [
  | some existing ↦
      if str_eq existing.code asset.code && existing.scale == asset.scale
      then (ok tt, l)
      else (err asset_exists, l)
  | none ↦ (ok tt, record l { assets = put asset.id asset l.assets })
]

unfoldable pub register_account : Account → Action (Unit {0})
register_account account l =
    if has account.id l.accounts
    then (err account_exists, l)
    else (ok tt, record l { accounts = put account.id account l.accounts })

unfoldable pub get_account_owner : String → Ledger → Option String
get_account_owner account_id l = elim (get account_id l.accounts) [
  | some account ↦ some account.owner_id
  | none ↦ none
]

unfoldable pub open_balance : String → String → Action (Unit {0})
unfolding require_account require_asset
open_balance account_id asset_id = do
  require_account account_id
  require_asset asset_id
  known ← gets (λ l. has (key account_id asset_id) l.balances)
  raise_if known balance_exists
  set_balance account_id asset_id empty

-- The shape of `credit`, `debit`, `reserve` and `release`: the new balance of one account by `change`,
-- and a posting in `direction` that the system account balances.
unfoldable pub change_balance :
    (Balance → Decimal → Result LedgerError Balance)
    → PostingDirection
    → String
    → String
    → String
    → Decimal
    → Action OperationResult
unfolding get_balance record_balanced_marker
change_balance change direction operation_id account_id asset_id amount = once operation_id do
  old ← get_balance account_id asset_id
  balance ← lift (change old amount)
  set_balance account_id asset_id balance
  record_balanced_marker operation_id account_id asset_id amount direction

unfoldable pub credit : String → String → String → Decimal → Action OperationResult
unfolding change_balance Balance.credit
credit = change_balance Balance.credit credit_side

unfoldable pub debit : String → String → String → Decimal → Action OperationResult
unfolding change_balance Balance.debit
debit = change_balance Balance.debit debit_side

unfoldable pub reserve : String → String → String → Decimal → Action OperationResult
unfolding change_balance Balance.reserve
reserve = change_balance Balance.reserve debit_side

unfoldable pub release : String → String → String → Decimal → Action OperationResult
unfolding change_balance Balance.release
release = change_balance Balance.release credit_side

-- The shape of `transfer` and `settleReservedTransfer`: `take` lowers the debited balance. Both new
-- balances are computed before either is stored.
unfoldable pub move_funds :
    (Balance → Decimal → Result LedgerError Balance)
    → String
    → String
    → String
    → String
    → Decimal
    → Action OperationResult
unfolding get_balance create_posting record_operation Balance.credit
move_funds take operation_id debit_account_id credit_account_id asset_id amount =
    once operation_id do
      raise_if (not_positive amount) amount_not_positive
      old_debit ← get_balance debit_account_id asset_id
      debited ← lift (take old_debit amount)
      old_credit ← get_balance credit_account_id asset_id
      credited ← lift (Balance.credit old_credit amount)
      debit_posting ← create_posting operation_id debit_account_id asset_id amount debit_side
      credit_posting ← create_posting operation_id credit_account_id asset_id amount credit_side
      assert_balanced (debit_posting ∷ credit_posting ∷ [])
      set_balance debit_account_id asset_id debited
      set_balance credit_account_id asset_id credited
      record_operation operation_id (debit_posting ∷ credit_posting ∷ [])

unfoldable pub transfer : String → String → String → String → Decimal → Action OperationResult
unfolding move_funds Balance.debit
transfer = move_funds Balance.debit

unfoldable pub transfer_available :
    String → String → String → String → Decimal → Action OperationResult
unfolding transfer
transfer_available = transfer

unfoldable pub settle_reserved_transfer :
    String → String → String → String → Decimal → Action OperationResult
unfolding move_funds Balance.debit_reserved
settle_reserved_transfer = move_funds Balance.debit_reserved

-- `this.postings.filter((posting) => posting.operationId === originalOperationId)`
unfoldable pub postings_of : String → List Posting → List Posting
postings_of operation_id [] = []
postings_of operation_id (p ∷ ps) =
    let rest = postings_of operation_id ps in
    if str_eq p.operation_id operation_id then p ∷ rest else rest

-- The balance that undoes one posting, computed from the balance before the compensation.
unfoldable pub reversed_balance : Posting → Action Balance
unfolding get_balance Balance.credit Balance.debit
reversed_balance p = do
  balance ← get_balance p.account_id p.asset_id
  lift (elim p.direction [
    | debit_side ↦ Balance.credit balance p.amount
    | credit_side ↦ Balance.debit balance p.amount
  ])

unfoldable pub compute_changes : List Posting → Action (List (Posting × Balance))
unfolding reversed_balance
compute_changes [] = pure []
compute_changes (p ∷ ps) = do
  balance ← reversed_balance p
  rest ← compute_changes ps
  pure ((p, balance) ∷ rest)

unfoldable pub reverse_postings : String → List Posting → Action (List Posting)
unfolding create_posting
reverse_postings compensation_id [] = pure []
reverse_postings compensation_id (p ∷ ps) = do
  reversed ← create_posting compensation_id p.account_id p.asset_id p.amount (opposite p.direction)
  rest ← reverse_postings compensation_id ps
  pure (reversed ∷ rest)

unfoldable pub store_changes : List (Posting × Balance) → Dict Balance → Dict Balance
store_changes [] balances = balances
store_changes ((p, balance) ∷ changes) balances =
    store_changes changes (put (key p.account_id p.asset_id) balance balances)

abbrev pub is_empty : List Posting → Bool
is_empty [] = true
is_empty (p ∷ ps) = false

unfoldable pub compensate : String → String → Action OperationResult
unfolding postings_of compute_changes reverse_postings store_changes record_operation
compensate compensation_id original_operation_id = once compensation_id do
  original ← gets (λ l. postings_of original_operation_id l.postings)
  raise_if (is_empty original) operation_missing
  changes ← compute_changes original
  reversed ← reverse_postings compensation_id original
  assert_balanced reversed
  modify (λ l. record l { balances = store_changes changes l.balances })
  record_operation compensation_id reversed

abbrev pub postings_or_none : Option (List Posting) → List Posting
postings_or_none none = []
postings_or_none (some ps) = ps

unfoldable pub group_by_operation : Dict (List Posting) → List Posting → Dict (List Posting)
group_by_operation groups [] = groups
group_by_operation groups (p ∷ ps) =
    group_by_operation
      (put p.operation_id (postings_or_none (get p.operation_id groups) ++ p ∷ []) groups) ps

unfoldable pub every_balanced : List (List Posting) → Bool
every_balanced [] = true
every_balanced (ps ∷ rest) = is_balanced ps && every_balanced rest

unfoldable pub reconcile : Action (Unit {0})
unfolding group_by_operation every_balanced
reconcile l =
    raise_if (not (every_balanced (values (group_by_operation [] l.postings)))) batch_not_balanced l
