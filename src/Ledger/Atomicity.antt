-- ===== src/Ledger/Atomicity.antt =====
-- The methods of ledger/domain/ledger.ts without their monad: each outcome and the state that it leaves.
use text.Mathlib.TextPositions.{eq_refl}
use exchanger.Prelude.{
  ℕ, ◌+◌, String, concat, show, ◌≡◌, ◌⊎◌, inl, inr, Option-cases, Bool-cases, refl, true, false, [],
  ◌∷◌, ◌++◌, none, some, arith, str_eq_iff, if◌then◌else◌,
}
use exchanger.Prelude.Dict.{Dict, get, put, values}
use exchanger.Prelude.Exec.{Result, ok, err, Result-cases}
use exchanger.Decimal.{Decimal, add, nought}
use exchanger.Decimal.Laws.{equal_refl}
use exchanger.Ledger.Balance
use exchanger.Ledger.Balance.{
  LedgerError, Balance, balance_missing, amount_not_positive, not_positive,
}
use exchanger.Ledger.Posting.{
  Posting, PostingDirection, debit_side, credit_side, is_balanced, add_to_total,
}
use exchanger.Ledger.State.{Ledger, OperationResult, key, system_account, opposite}
use exchanger.Ledger.Operations.{change_balance, move_funds}

-- Two postings of one asset and amount in opposite directions are balanced.
pub is_balanced-pair :
    (p q : Posting)
    → p.asset_id ≡ q.asset_id
    → p.amount ≡ q.amount
    → q.direction ≡ opposite p.direction
    → is_balanced (p ∷ q ∷ []) ≡ true
unfolding is_balanced add_to_total get put values
is_balanced-pair p q ea em ed =
    ground (
      arith,
      eq_refl p.asset_id,
      str_eq_iff p.asset_id q.asset_id,
      equal_refl (add nought p.amount),
    )

abbrev pub posting_at : String → String → String → Decimal → PostingDirection → ℕ → Posting
posting_at operation_id account_id asset_id amount direction number = record {
  id = concat "posting-" (show number);
  operation_id = operation_id;
  account_id = account_id;
  asset_id = asset_id;
  amount = amount;
  direction = direction;
}

-- The state after a pair of postings was recorded under an operation.
abbrev pub recorded : String → Posting → Posting → Dict Balance → Ledger → Ledger
recorded operation_id p q balances l = record l {
  balances = balances;
  postings = l.postings ++ p ∷ q ∷ [];
  operations =
      put operation_id (record { operation_id = operation_id; posting_ids = p.id ∷ q.id ∷ [] })
        l.operations;
  next_posting_number = l.next_posting_number + 1 + 1;
}

module _ (change : Balance → Decimal → Result LedgerError Balance) (direction : PostingDirection)
    (o account asset : String) (amount : Decimal) (l : Ledger) where
  abbrev pub account_posting : Posting
  account_posting = posting_at o account asset amount direction l.next_posting_number

  abbrev pub system_posting : Posting
  system_posting =
      posting_at o system_account asset amount (opposite direction) (l.next_posting_number + 1)

  abbrev pub changed : Balance → Result LedgerError OperationResult × Ledger
  changed balance = (
    ok (record { operation_id = o; posting_ids = account_posting.id ∷ system_posting.id ∷ [] }),
    recorded o account_posting system_posting (put (key account asset) balance l.balances) l,
  )

  -- The run in which the balance changes.
  pub record Changes : Type 0 where
    pub old : Balance
    pub new : Balance
    pub unknown : get o l.operations ≡ none
    pub found : get (key account asset) l.balances ≡ some old
    pub done : change old amount ≡ ok new
    pub outcome : change_balance change direction o account asset amount l ≡ changed new

  pub change_balance_lem :
      change_balance change direction o account asset amount l ≡ elim (get o l.operations) [
        | some previous ↦ (ok previous, l)
        | none ↦ elim (get (key account asset) l.balances) [
          | none ↦ (err balance_missing, l)
          | some old ↦ elim (change old amount) [
            | err e ↦ (err e, l)
            | ok balance ↦ changed balance
          ]
        ]
      ]
  unfolding change_balance
  change_balance_lem =
      ground (arith, is_balanced-pair account_posting system_posting refl refl refl)

  -- A call leaves the ledger as it was, or changes one balance.
  pub change_balance_cases :
      ((change_balance change direction o account asset amount l).1 ≡ l) ⊎ Changes
  change_balance_cases = elim (Option-cases (get o l.operations)) [
    | inr (previous, known) ↦ inl (ground (arith, change_balance_lem))
    | inl new ↦ elim (Option-cases (get (key account asset) l.balances)) [
      | inl missing ↦ inl (ground (arith, change_balance_lem))
      | inr (old, found) ↦ elim (Result-cases (change old amount)) [
        | inl (e, thrown) ↦ inl (ground (arith, change_balance_lem))
        | inr (b, done) ↦ inr (record {
          old = old;
          new = b;
          unknown = new;
          found = found;
          done = done;
          outcome = ground (arith, change_balance_lem);
        })
      ]
    ]
  ]

module _ (take : Balance → Decimal → Result LedgerError Balance) (o debtor creditor asset : String)
    (amount : Decimal) (l : Ledger) where
  abbrev pub debit_posting : Posting
  debit_posting = posting_at o debtor asset amount debit_side l.next_posting_number

  abbrev pub credit_posting : Posting
  credit_posting = posting_at o creditor asset amount credit_side (l.next_posting_number + 1)

  abbrev pub moved : Balance → Balance → Result LedgerError OperationResult × Ledger
  moved debited credited = (
    ok (record { operation_id = o; posting_ids = debit_posting.id ∷ credit_posting.id ∷ [] }),
    recorded o debit_posting credit_posting
        (put (key creditor asset) credited (put (key debtor asset) debited l.balances)) l,
  )

  pub move_funds_lem :
      move_funds take o debtor creditor asset amount l ≡ elim (get o l.operations) [
        | some previous ↦ (ok previous, l)
        | none ↦
            if not_positive amount
            then (err amount_not_positive, l)
            else elim (get (key debtor asset) l.balances) [
              | none ↦ (err balance_missing, l)
              | some old_debit ↦ elim (take old_debit amount) [
                | err e ↦ (err e, l)
                | ok debited ↦ elim (get (key creditor asset) l.balances) [
                  | none ↦ (err balance_missing, l)
                  | some old_credit ↦ elim (Balance.credit old_credit amount) [
                    | err e ↦ (err e, l)
                    | ok credited ↦ moved debited credited
                  ]
                ]
              ]
            ]
      ]
  unfolding move_funds
  move_funds_lem = ground (arith, is_balanced-pair debit_posting credit_posting refl refl refl)

  -- The run in which the funds move.
  pub record Moves : Type 0 where
    pub old_debit : Balance
    pub debited : Balance
    pub old_credit : Balance
    pub credited : Balance
    pub unknown : get o l.operations ≡ none
    pub positive : not_positive amount ≡ false
    pub found_debit : get (key debtor asset) l.balances ≡ some old_debit
    pub taken : take old_debit amount ≡ ok debited
    pub found_credit : get (key creditor asset) l.balances ≡ some old_credit
    pub given : Balance.credit old_credit amount ≡ ok credited
    pub outcome : move_funds take o debtor creditor asset amount l ≡ moved debited credited

  move_given :
      (old_debit debited : Balance)
      → get o l.operations ≡ none
      → not_positive amount ≡ false
      → get (key debtor asset) l.balances ≡ some old_debit
      → take old_debit amount ≡ ok debited
      → ((move_funds take o debtor creditor asset amount l).1 ≡ l) ⊎ Moves
  move_given old_debit debited new positive fd td =
      elim (Option-cases (get (key creditor asset) l.balances)) [
        | inl missing ↦ inl (ground (arith, move_funds_lem))
        | inr (old_credit, fc) ↦ elim (Result-cases (Balance.credit old_credit amount)) [
          | inl (e, thrown) ↦ inl (ground (arith, move_funds_lem))
          | inr (credited, tc) ↦ inr (record {
            old_debit = old_debit;
            debited = debited;
            old_credit = old_credit;
            credited = credited;
            unknown = new;
            positive = positive;
            found_debit = fd;
            taken = td;
            found_credit = fc;
            given = tc;
            outcome = ground (arith, move_funds_lem);
          })
        ]
      ]

  -- A call leaves the ledger as it was, or moves the funds.
  pub move_funds_cases : ((move_funds take o debtor creditor asset amount l).1 ≡ l) ⊎ Moves
  move_funds_cases = elim (Option-cases (get o l.operations)) [
    | inr (previous, known) ↦ inl (ground (arith, move_funds_lem))
    | inl new ↦ elim (Bool-cases (not_positive amount)) [
      | inl refused ↦ inl (ground (arith, move_funds_lem))
      | inr positive ↦ elim (Option-cases (get (key debtor asset) l.balances)) [
        | inl missing ↦ inl (ground (arith, move_funds_lem))
        | inr (old_debit, fd) ↦ elim (Result-cases (take old_debit amount)) [
          | inl (e, thrown) ↦ inl (ground (arith, move_funds_lem))
          | inr (debited, td) ↦ move_given old_debit debited new positive fd td
        ]
      ]
    ]
  ]
