-- ===== src/Settlement/Leaves.antt =====
-- The steps of trading/settlement/settlement.ts that leave a balance alone.
use exchanger.Prelude.{
  ◌≡◌, ◌⊎◌, ◌∙◌, refl, sym, subst, ap, String, concat, Bool, true, false, arith, inl, inr, str_eq,
  if◌then◌else◌,
}
use exchanger.Prelude.Dict.{get, put, get-put}
use exchanger.Prelude.Exec.{Result, ok, err, proceed, pure, ◌>>=◌, Result-cases}
use exchanger.Decimal.{Decimal, is_zero}
use exchanger.Ledger.Balance
use exchanger.Ledger.Balance.{LedgerError, Balance, not_positive}
use exchanger.Ledger.State.{Ledger, OperationResult, key}
use exchanger.Ledger.Operations.{settle_reserved_transfer}
use exchanger.Ledger.Atomicity.{move_funds_cases}
use exchanger.Trading.EventLog.{LogEvent}
use exchanger.Settlement.Service.{
  SettlementPayload, SettlementError, SettlementService, Settling, on_ledger, append_event,
  from_ledger,
}
use exchanger.Settlement.Operations.{fee_account, settle_fee}

-- Steps that leave a balance alone, whether they return or throw.
module _ (k : String) where
  pub record Leaves {A : Type 0} (m : Settling A) : Type 0 where
    pub leaves : (s : SettlementService) → get k (m s).1.ledger.balances ≡ get k s.ledger.balances

  module _ {A B : Type 0} where
    proceed-get :
        (x : Result SettlementError A) (f : A → Settling B) (s : SettlementService)
        → ((a : A) → Leaves (f a))
        → get k (proceed x f s).1.ledger.balances ≡ get k s.ledger.balances
    proceed-get (ok a) f s h = (h a).leaves s
    proceed-get (err e) f s h = refl

    pub >>=-Leaves :
        (m : Settling A) (f : A → Settling B)
        → Leaves m
        → ((a : A) → Leaves (f a))
        → Leaves (m >>= f)
    >>=-Leaves m f h g = record { leaves = λ s. proceed-get (m s).0 f (m s).1 g ∙ h.leaves s }

    -- Where the first step can only return one value
    proceed-get_at :
        (x : Result SettlementError A) (f : A → Settling B) (s : SettlementService) (value : A)
        → ((a : A) → x ≡ ok a → a ≡ value)
        → Leaves (f value)
        → get k (proceed x f s).1.ledger.balances ≡ get k s.ledger.balances
    proceed-get_at (ok a) f s value same h =
        subst (λ (b : A). get k (f b s).1.ledger.balances ≡ get k s.ledger.balances) {x = value}
          {y = a} (sym (same a refl)) (h.leaves s)
    proceed-get_at (err e) f s value same h = refl

    >>=-Leaves_at :
        (m : Settling A) (f : A → Settling B) (value : A)
        → Leaves m
        → ((s : SettlementService) (a : A) → (m s).0 ≡ ok a → a ≡ value)
        → Leaves (f value)
        → Leaves (m >>= f)
    >>=-Leaves_at m f value h same g = record {
      leaves = λ s. proceed-get_at (m s).0 f (m s).1 value (same s) g ∙ h.leaves s;
    }

  pub pure-Leaves : {A : Type 0} (a : A) → Leaves (pure a)
  pure-Leaves a = record { leaves = λ s. refl }

  pub append_event-Leaves : (event : LogEvent SettlementPayload) → Leaves (append_event event)
  unfolding append_event
  append_event-Leaves event = record { leaves = λ s. refl }

  pub transfer-Leaves :
      (o debtor creditor asset : String) (amount : Decimal)
      → str_eq (key debtor asset) k ≡ false
      → str_eq (key creditor asset) k ≡ false
      → Leaves (on_ledger (settle_reserved_transfer o debtor creditor asset amount))
  unfolding on_ledger settle_reserved_transfer
  transfer-Leaves o debtor creditor asset amount d c = record {
    leaves = λ s.
        elim (move_funds_cases Balance.debit_reserved o debtor creditor asset amount s.ledger) [
          | inl same ↦ ap (λ (t : Ledger). get k t.balances) same
          | inr m ↦
              ap (λ (t : Result LedgerError OperationResult × Ledger). get k t.1.balances) m.outcome
              ∙ ground (
                arith,
                get-put (key creditor asset) k m.credited
                    (put (key debtor asset) m.debited s.ledger.balances),
                get-put (key debtor asset) k m.debited s.ledger.balances,
              )
        ];
  }

  fee_account-get :
      (asset : String) (s : SettlementService)
      → get k (fee_account asset s).1.ledger.balances ≡ get k s.ledger.balances
  unfolding fee_account on_ledger exchanger.Ledger.State.get_balance
  fee_account-get asset s = ground arith

  fee_account-name :
      (asset : String) (s : SettlementService) (a : String)
      → (fee_account asset s).0 ≡ ok a
      → a ≡ concat "fees-" asset
  unfolding fee_account on_ledger exchanger.Ledger.State.get_balance
  fee_account-name asset s a h = ground arith

  if-Leaves :
      {A : Type 0} (b : Bool) (m n : Settling A) → Leaves m → Leaves n → Leaves (if b then m else n)
  if-Leaves true m n h g = h
  if-Leaves false m n h g = g

  pub settle_fee-Leaves :
      (o account asset : String) (fee : Decimal)
      → (is_zero fee ≡ true)
        ⊎ ((str_eq (key account asset) k ≡ false)
            × (str_eq (key (concat "fees-" asset) asset) k ≡ false))
      → Leaves (settle_fee o account asset fee)
  unfolding settle_fee
  settle_fee-Leaves o account asset fee (inl zero) = rw (zero, settle_fee) (pure-Leaves _)
  settle_fee-Leaves o account asset fee (inr (from, to)) =
      if-Leaves (is_zero fee) _ _ (pure-Leaves _) (
        >>=-Leaves_at (fee_account asset) _ (concat "fees-" asset)
          (record { leaves = fee_account-get asset }) (fee_account-name asset)
          (transfer-Leaves o account (concat "fees-" asset) asset fee from to))

-- A chain of steps that returns is its first step, which returns, and the others.
pub returned :
    {A B : Type 0} (m : Settling A) (f : A → Settling B) (s : SettlementService) {b : B}
    → ((m >>= f) s).0 ≡ ok b
    → (a : A) × ((m s).0 ≡ ok a) × ((m >>= f) s ≡ f a (m s).1)
returned m f s {b} h = elim (Result-cases (m s).0) [
  | inl (e, thrown) ↦ absurd (ground (arith, thrown, h))
  | inr (a, done) ↦ (a, done, ap (λ x. proceed x f (m s).1) done)
]

pub from_ledger_ok :
    {A : Type 0} (x : Result LedgerError A) {a : A} → from_ledger x ≡ ok a → x ≡ ok a
from_ledger_ok (ok b) h = ground arith
from_ledger_ok (err e) h = ground arith
