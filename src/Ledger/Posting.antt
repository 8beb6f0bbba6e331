-- ===== src/Ledger/Posting.antt =====
-- ledger/domain/posting.ts and asset-account.ts: postings and the test that a batch of them is
-- balanced, assets and accounts.
use Prim.Native.Char.{code}
use exchanger.Prelude.{
  ℕ, String, Bool, true, ◌&&◌, ◌||◌, not, List, [], ◌∷◌, Option, none, some, leb, ◌==◌, str_eq,
  is_blank, if◌then◌else◌,
}
use exchanger.Prelude.Dict.{Dict, get, put, values}
use exchanger.Prelude.Exec.{Result, ok, err}
use exchanger.Decimal.{Decimal, add, equal, nought}
use exchanger.Ledger.Balance.{LedgerError, invalid_asset, empty_owner, empty_id}

pub data PostingDirection : Type 0 where
  debit_side credit_side : PostingDirection

pub record Posting : Type 0 where
  pub id : String
  pub operation_id : String
  pub account_id : String
  pub asset_id : String
  pub amount : Decimal
  pub direction : PostingDirection

pub record Total : Type 0 where
  pub debit : Decimal
  pub credit : Decimal

abbrev pub no_total : Total
no_total = record { debit = nought; credit = nought }

-- `totals.get(assetId) ?? { debit: 0, credit: 0 }`
abbrev pub total_or_none : Option Total → Total
total_or_none none = no_total
total_or_none (some t) = t

unfoldable pub add_to_total : Posting → Total → Total
add_to_total p t = elim p.direction [
  | debit_side ↦ record t { debit = add t.debit p.amount }
  | credit_side ↦ record t { credit = add t.credit p.amount }
]

unfoldable pub totals_from : Dict Total → List Posting → Dict Total
unfolding add_to_total
totals_from totals [] = totals
totals_from totals (p ∷ ps) =
    totals_from (put p.asset_id (add_to_total p (total_or_none (get p.asset_id totals))) totals) ps

unfoldable pub all_balanced : List Total → Bool
all_balanced [] = true
all_balanced (t ∷ ts) = equal t.debit t.credit && all_balanced ts

-- `assertBalancedPostings` throws exactly if this is false.
unfoldable pub is_balanced : List Posting → Bool
unfolding totals_from all_balanced
is_balanced postings = all_balanced (values (totals_from [] postings))

-- `createId`
unfoldable pub create_id : String → Result LedgerError String
create_id value = if is_blank value then err empty_id else ok value

pub record Asset : Type 0 where
  pub id : String
  pub code : String
  pub scale : ℕ

code_char : ℕ → Bool
code_char c = leb b'A' c && leb c b'Z' || leb b'0' c && leb c b'9' || c == b'-'

-- `/^[A-Z0-9-]*$/`
code_chars : String → Bool
unfolding code_char
code_chars String.[] = true
code_chars (String.◌∷◌ c s) = code_char (code c) && code_chars s

-- The scale is a number already: the guard that it is a non-negative integer is its type.
unfoldable pub make_asset : String → String → ℕ → Result LedgerError Asset
unfolding code_chars
make_asset id code scale =
    if not (str_eq code "") && code_chars code
    then ok (record { id = id; code = code; scale = scale })
    else err invalid_asset

pub record Account : Type 0 where
  pub id : String
  pub owner_id : String

unfoldable pub make_account : String → String → Result LedgerError Account
make_account id owner_id =
    if is_blank owner_id then err empty_owner else ok (record { id = id; owner_id = owner_id })
