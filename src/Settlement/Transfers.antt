-- ===== src/Settlement/Transfers.antt =====
-- `settleReservedTransfer` and the fees in the steps of trading/settlement/settlement.ts: the balances that
-- they move and those that they leave alone.
use exchanger.Prelude.{
  ◌≡◌, ◌∙◌, ap, String, false, [], ◌∷◌, none, some, arith, inl, inr, Option-cases, Bool-cases,
  str_eq, str_eq_iff,
}
use exchanger.Prelude.Dict.{get, put, get-put}
use exchanger.Prelude.Exec.{ok, Result-cases}
use exchanger.Decimal.{Decimal, add, subtract}
use exchanger.Ledger.Balance
use exchanger.Ledger.Balance.{LedgerError, Balance, not_positive}
use exchanger.Ledger.State.{Ledger, OperationResult, key}
use exchanger.Ledger.Operations.{move_funds, settle_reserved_transfer}
use exchanger.Ledger.Atomicity.{debit_posting, credit_posting, move_funds_lem}
use exchanger.Settlement.Service.{}

-- A transfer that is new and returns moves the amount from the one balance to the other.
module _ (o debtor creditor asset : String) (amount : Decimal) (l : Ledger)
    (apart : str_eq (key debtor asset) (key creditor asset) ≡ false) where
  pub record Transfers (after : Ledger) : Type 0 where
    pub giver : Balance
    pub taker : Balance
    pub had_giver : get (key debtor asset) l.balances ≡ some giver
    pub had_taker : get (key creditor asset) l.balances ≡ some taker
    pub has_giver :
        get (key debtor asset) after.balances
        ≡ some (record giver { reserved = subtract giver.reserved amount })
    pub has_taker :
        get (key creditor asset) after.balances
        ≡ some (record taker { available = add taker.available amount })
    pub others : (j : String) → str_eq o j ≡ false → get j after.operations ≡ get j l.operations

  -- Where the two balances are there and the debit does not throw
  move_given :
      (old_debit debited old_credit credited : Balance)
      → get o l.operations ≡ none
      → not_positive amount ≡ false
      → get (key debtor asset) l.balances ≡ some old_debit
      → Balance.debit_reserved old_debit amount ≡ ok debited
      → get (key creditor asset) l.balances ≡ some old_credit
      → Balance.credit old_credit amount ≡ ok credited
      → Transfers (settle_reserved_transfer o debtor creditor asset amount l).1
  unfolding settle_reserved_transfer
  move_given old_debit debited old_credit credited new positive fd td fc tc =
      let moves : (move_funds Balance.debit_reserved o debtor creditor asset amount l).1.balances
          ≡ put (key creditor asset) credited (put (key debtor asset) debited l.balances) =
        ground (arith, move_funds_lem Balance.debit_reserved o debtor creditor asset amount l) in
      let gave : debited ≡ record old_debit { reserved = subtract old_debit.reserved amount } =
        unfold Balance.debit_reserved in ground arith in
      let took : credited ≡ record old_credit { available = add old_credit.available amount } =
        unfold Balance.credit in ground arith in
      record {
        giver = old_debit;
        taker = old_credit;
        had_giver = fd;
        had_taker = fc;
        has_giver =
            ap (get (key debtor asset)) moves
            ∙ ground (
              arith,
              gave,
              apart,
              str_eq_iff (key debtor asset) (key debtor asset),
              str_eq_iff (key debtor asset) (key creditor asset),
              str_eq_iff (key creditor asset) (key debtor asset),
              get-put (key creditor asset) (key debtor asset) credited
                  (put (key debtor asset) debited l.balances),
              get-put (key debtor asset) (key debtor asset) debited l.balances,
            );
        has_taker =
            ap (get (key creditor asset)) moves
            ∙ ground (
              arith,
              took,
              str_eq_iff (key creditor asset) (key creditor asset),
              get-put (key creditor asset) (key creditor asset) credited
                  (put (key debtor asset) debited l.balances),
            );
        others = λ j other. ground (
          arith,
          move_funds_lem Balance.debit_reserved o debtor creditor asset amount l,
          get-put o j
              (record {
                operation_id = o;
                posting_ids =
                    (debit_posting Balance.debit_reserved o debtor creditor asset amount l).id
                    ∷ (credit_posting Balance.debit_reserved o debtor creditor asset amount l).id
                    ∷ [];
              })
              l.operations,
        );
      }

  settle_reserved_transfer-Transfers :
      {r : OperationResult}
      → get o l.operations ≡ none
      → (settle_reserved_transfer o debtor creditor asset amount l).0 ≡ ok r
      → Transfers (settle_reserved_transfer o debtor creditor asset amount l).1
  unfolding settle_reserved_transfer
  settle_reserved_transfer-Transfers {r} new done =
      let law = move_funds_lem Balance.debit_reserved o debtor creditor asset amount l in
      elim (Bool-cases (not_positive amount)) [
        | inl zero ↦ absurd (ground (arith, law))
        | inr positive ↦ elim (Option-cases (get (key debtor asset) l.balances)) [
          | inl missing ↦ absurd (ground (arith, law))
          | inr (old_debit, fd) ↦ elim (Result-cases (Balance.debit_reserved old_debit amount)) [
            | inl (e, thrown) ↦ absurd (ground (arith, law))
            | inr (debited, td) ↦ elim (Option-cases (get (key creditor asset) l.balances)) [
              | inl missing ↦ absurd (ground (arith, law))
              | inr (old_credit, fc) ↦ elim (Result-cases (Balance.credit old_credit amount)) [
                | inl (e, thrown) ↦ absurd (ground (arith, law))
                | inr (credited, tc) ↦
                    move_given old_debit debited old_credit credited new positive fd td fc tc
              ]
            ]
          ]
        ]
      ]

-- The same of accounts and an amount that are known by other names
pub leg-Transfers :
    (o d c d' c' asset : String) (amount amount' : Decimal) (l : Ledger)
    (apart : str_eq (key d' asset) (key c' asset) ≡ false) {r : OperationResult}
    → d ≡ d'
    → c ≡ c'
    → amount ≡ amount'
    → get o l.operations ≡ none
    → (settle_reserved_transfer o d c asset amount l).0 ≡ ok r
    → Transfers o d' c' asset amount' l apart (settle_reserved_transfer o d c asset amount l).1
leg-Transfers o d c d' c' asset amount amount' l apart {r} ed ec em new done =
    rw (ed, ec, em)
      (settle_reserved_transfer-Transfers o d' c' asset amount' l apart {r = r} new
        (rw (← ed, ← ec, ← em) done))
