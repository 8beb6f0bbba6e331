-- ===== src/Ledger/State.antt =====
-- The state of `class Ledger` in ledger/domain/ledger.ts and the helpers of its methods.
use exchanger.Prelude.{ℕ, ◌+◌, String, concat, List, [], ◌∷◌, ◌++◌, none, some, show, not}
use exchanger.Prelude.Dict.{Dict, get, has, put}
use exchanger.Prelude.Exec.{ok, Exec, or_raise, modify, raise_if, ◌>>=◌, ◌>>◌}
use exchanger.Decimal.{Decimal}
use exchanger.Ledger.Balance.{
  LedgerError, Balance, batch_not_balanced, account_missing, asset_missing, balance_missing,
}
use exchanger.Ledger.Posting.{
  Posting, PostingDirection, debit_side, credit_side, Asset, Account, is_balanced,
}

pub record OperationResult : Type 0 where
  pub operation_id : String
  pub posting_ids : List String

pub record Ledger : Type 0 where
  pub balances : Dict Balance
  pub postings : List Posting
  pub operations : Dict OperationResult
  pub next_posting_number : ℕ
  pub assets : Dict Asset
  pub accounts : Dict Account

abbrev pub new_ledger : Ledger
new_ledger = record {
  balances = [];
  postings = [];
  operations = [];
  next_posting_number = 1;
  assets = [];
  accounts = [];
}

abbrev pub Action : Type 0 → Type 0
Action A = Exec LedgerError Ledger A

-- `${accountId}:${assetId}`
abbrev pub key : String → String → String
key account_id asset_id = concat account_id (concat ":" asset_id)

abbrev pub system_account : String
system_account = "system"

unfoldable pub require_account : String → Action (Unit {0})
require_account account_id l = raise_if (not (has account_id l.accounts)) account_missing l

unfoldable pub require_asset : String → Action (Unit {0})
require_asset asset_id l = raise_if (not (has asset_id l.assets)) asset_missing l

unfoldable pub get_balance : String → String → Action Balance
get_balance account_id asset_id l =
    or_raise (get (key account_id asset_id) l.balances) balance_missing l

-- `this.balances.set(this.key(accountId, assetId), balance)`
abbrev pub set_balance : String → String → Balance → Action (Unit {0})
set_balance account_id asset_id balance =
    modify (λ l. record l { balances = put (key account_id asset_id) balance l.balances })

unfoldable pub create_posting :
    String → String → String → Decimal → PostingDirection → Action Posting
create_posting operation_id account_id asset_id amount direction l = (
  ok (record {
    id = concat "posting-" (show l.next_posting_number);
    operation_id = operation_id;
    account_id = account_id;
    asset_id = asset_id;
    amount = amount;
    direction = direction;
  }),
  record l { next_posting_number = l.next_posting_number + 1 },
)

-- `assertBalancedPostings(postings)`
abbrev pub assert_balanced : List Posting → Action (Unit {0})
assert_balanced postings = raise_if (not (is_balanced postings)) batch_not_balanced

abbrev pub opposite : PostingDirection → PostingDirection
opposite debit_side = credit_side
opposite credit_side = debit_side

-- `posting.id` of each
abbrev pub ids : List Posting → List String
ids [] = []
ids (p ∷ ps) = p.id ∷ ids ps

-- `this.postings.push(...postings)`, and the result kept under its operation.
unfoldable pub record_operation : String → List Posting → Action OperationResult
record_operation operation_id postings l =
    let result : OperationResult = record {
      operation_id = operation_id;
      posting_ids = ids postings;
    } in
    (
      ok result,
      record l {
        postings = l.postings ++ postings;
        operations = put operation_id result l.operations;
      },
    )

unfoldable pub record_balanced_marker :
    String → String → String → Decimal → PostingDirection → Action OperationResult
unfolding create_posting record_operation
record_balanced_marker operation_id account_id asset_id amount direction = do
  account_posting ← create_posting operation_id account_id asset_id amount direction
  system_posting ← create_posting operation_id system_account asset_id amount (opposite direction)
  assert_balanced (account_posting ∷ system_posting ∷ [])
  record_operation operation_id (account_posting ∷ system_posting ∷ [])

-- `const previous = this.operations.get(operationId); if (previous) return previous;`
abbrev pub once : String → Action OperationResult → Action OperationResult
once operation_id body l = elim (get operation_id l.operations) [
  | some previous ↦ (ok previous, l)
  | none ↦ body l
]
