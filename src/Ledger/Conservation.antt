-- ===== src/Ledger/Conservation.antt =====
-- The funds of the ledger, counted in units of `10 ^ -s` for a scale `s` that every amount fits, and
-- what `transfer` and `settleReservedTransfer` do to them.
use exchanger.Prelude.{
  ℕ, String, ◌≡◌, ◌≢◌, ap, ◌∙◌, ◌≤◌, [], ◌∷◌, some, arith, str_eq, str_eq_iff, inl, inr, Bool,
  Bool-cases, true, false,
}
use exchanger.Prelude.Dict.{Dict, get, put, get-put}
use exchanger.Prelude.Dict.Each.{Each, Each-get}
use exchanger.Prelude.Exec.{Result, ok}
use exchanger.Prelude.Int.{ℤ, pos, parts, ◌+ℤ◌, ◌-ℤ◌, int_laws}
use exchanger.Decimal.{Decimal, units, add, subtract}
use exchanger.Decimal.Units.{units-add, units-subtract}
use exchanger.Ledger.Balance
use exchanger.Ledger.Balance.{LedgerError, Balance, not_positive}
use exchanger.Ledger.State.{Ledger, OperationResult, key}
use exchanger.Ledger.Operations.{move_funds, transfer, settle_reserved_transfer}
use exchanger.Ledger.Atomicity.{move_funds_cases}

-- Both parts of a balance.
unfoldable pub worth : ℕ → Balance → ℤ
worth s b = units s b.available +ℤ units s b.reserved

abbrev pub counted : Bool → ℤ → ℤ
counted true x = x
counted false x = pos 0

-- The worth of the balances whose key passes a test, such as those of one asset.
unfoldable pub supply : ℕ → (String → Bool) → Dict Balance → ℤ
supply s test [] = pos 0
supply s test ((k, b) ∷ m) = counted (test k) (worth s b) +ℤ supply s test m

add_under : (c x o y n : ℤ) → x +ℤ o ≡ y +ℤ n → c +ℤ x +ℤ o ≡ c +ℤ y +ℤ n
add_under c x o y n h = omega (int_laws, parts h)

pub supply-put :
    (s : ℕ) (test : String → Bool) (k : String) (old new : Balance) (m : Dict Balance)
    → get k m ≡ some old
    → supply s test (put k new m) +ℤ counted (test k) (worth s old)
      ≡ supply s test m +ℤ counted (test k) (worth s new)
unfolding supply get put
supply-put s test k old new [] h = ground arith
supply-put s test k old new ((j, b) ∷ m) h = elim (Bool-cases (str_eq j k)) [
  | inl same ↦
      let e : j ≡ k = (str_eq_iff j k).0 same in
      let found : b ≡ old = ground arith in
      let c : counted (test j) (worth s b) ≡ counted (test k) (worth s old) = cc in
      rw (same, c) (omega int_laws)
  | inr other ↦ rw other (
      add_under (counted (test j) (worth s b)) _ _ _ _
        (supply-put s test k old new m (ground arith)))
]

-- The scale `s` is fine enough for every amount.
pub record Fits (s : ℕ) (b : Balance) : Type 0 where
  pub available : b.available.scale ≤ s
  pub reserved : b.reserved.scale ≤ s

-- A change that lowers the worth of a balance by the amount whenever it succeeds.
abbrev pub IsTaking : (Balance → Decimal → Result LedgerError Balance) → Type 0
IsTaking take =
    (s : ℕ) (amount : Decimal) (b b' : Balance)
    → Fits s b
    → amount.scale ≤ s
    → take b amount ≡ ok b'
    → worth s b' +ℤ units s amount ≡ worth s b

pub debit-IsTaking : IsTaking Balance.debit
unfolding Balance.debit worth
debit-IsTaking s amount b b' f h e =
    let u : units s (subtract b.available amount) ≡ units s b.available -ℤ units s amount =
      units-subtract s b.available amount f.available h in
    let r : b' ≡ record b { available = subtract b.available amount } = ground arith in
    rw (r, u) (omega int_laws)

pub debit_reserved-IsTaking : IsTaking Balance.debit_reserved
unfolding Balance.debit_reserved worth
debit_reserved-IsTaking s amount b b' f h e =
    let u : units s (subtract b.reserved amount) ≡ units s b.reserved -ℤ units s amount =
      units-subtract s b.reserved amount f.reserved h in
    let r : b' ≡ record b { reserved = subtract b.reserved amount } = ground arith in
    rw (r, u) (omega int_laws)

pub worth-credit :
    (s : ℕ) (amount : Decimal) (b b' : Balance)
    → Fits s b
    → amount.scale ≤ s
    → Balance.credit b amount ≡ ok b'
    → worth s b' ≡ worth s b +ℤ units s amount
unfolding Balance.credit worth
worth-credit s amount b b' f h e =
    let u : units s (add b.available amount) ≡ units s b.available +ℤ units s amount =
      units-add s b.available amount f.available h in
    let r : b' ≡ record b { available = add b.available amount } = ground arith in
    rw (r, u) (omega int_laws)

-- What leaves one balance of the supply comes to another.
balance_moves :
    (t : Bool) (before between after taken left given gained amount : ℤ)
    → between +ℤ counted t taken ≡ before +ℤ counted t left
    → after +ℤ counted t given ≡ between +ℤ counted t gained
    → left +ℤ amount ≡ taken
    → gained ≡ given +ℤ amount
    → after ≡ before
balance_moves true before between after taken left given gained amount a b c d =
    omega (int_laws, parts a, parts b, parts c, parts d)
balance_moves false before between after taken left given gained amount a b c d =
    omega (int_laws, parts a, parts b)

module _ (take : Balance → Decimal → Result LedgerError Balance) (taking : IsTaking take) (s : ℕ)
    (test : String → Bool) (o debtor creditor asset : String) (amount : Decimal) (l : Ledger)
    (fits : Each (λ k b. Fits s b) l.balances) (small : amount.scale ≤ s)
    (alike : test (key debtor asset) ≡ test (key creditor asset))
    (apart : key debtor asset ≢ key creditor asset) where
  -- The two writes of a move leave the supply as it was.
  moved-supply :
      (old_debit debited old_credit credited : Balance)
      → get (key debtor asset) l.balances ≡ some old_debit
      → take old_debit amount ≡ ok debited
      → get (key creditor asset) l.balances ≡ some old_credit
      → Balance.credit old_credit amount ≡ ok credited
      → supply s test
          (put (key creditor asset) credited (put (key debtor asset) debited l.balances))
        ≡ supply s test l.balances
  moved-supply old_debit debited old_credit credited fd td fc tc =
      let kd : String = key debtor asset in
      let kc : String = key creditor asset in
      let first : Dict Balance = put kd debited l.balances in
      let found : get kc first ≡ some old_credit =
        ground (arith, get-put kd kc debited l.balances, str_eq_iff kd kc) in
      balance_moves (test kd) _ (supply s test first) _ (worth s old_debit) (worth s debited)
        (worth s old_credit) (worth s credited) (units s amount)
        (supply-put s test kd old_debit debited l.balances fd)
        (rw alike (supply-put s test kc old_credit credited first found))
        (taking s amount old_debit debited
          (Each-get (λ k b. Fits s b) kd old_debit l.balances fits fd) small td)
        (worth-credit s amount old_credit credited
          (Each-get (λ k b. Fits s b) kc old_credit l.balances fits fc) small tc)

  -- Between two accounts, a move of funds changes no supply that counts both or neither.
  pub move_funds-supply :
      supply s test (move_funds take o debtor creditor asset amount l).1.balances
      ≡ supply s test l.balances
  move_funds-supply = elim (move_funds_cases take o debtor creditor asset amount l) [
    | inl same ↦ ap (λ (t : Ledger). supply s test t.balances) same
    | inr c ↦
        ap (λ (t : Result LedgerError OperationResult × Ledger). supply s test t.1.balances)
          c.outcome
        ∙ moved-supply c.old_debit c.debited c.old_credit c.credited c.found_debit c.taken
            c.found_credit c.given
  ]

module _ (s : ℕ) (test : String → Bool) (o debtor creditor asset : String) (amount : Decimal)
    (l : Ledger) (fits : Each (λ k b. Fits s b) l.balances) (small : amount.scale ≤ s)
    (alike : test (key debtor asset) ≡ test (key creditor asset))
    (apart : key debtor asset ≢ key creditor asset) where
  -- Funds are conserved by `transfer`, whether it returns or throws: at a scale that fits every amount,
  -- no supply that counts both accounts' balances or neither changes, if these are two balances.
  pub transfer-supply :
      supply s test (transfer o debtor creditor asset amount l).1.balances
      ≡ supply s test l.balances
  unfolding transfer
  transfer-supply =
      move_funds-supply Balance.debit debit-IsTaking s test o debtor creditor asset amount l fits
        small alike apart

  -- Funds are conserved by `settleReservedTransfer`, whether it returns or throws: at a scale that fits
  -- every amount, no supply that counts both accounts' balances or neither changes, if these are two
  -- balances.
  pub settle_reserved_transfer-supply :
      supply s test (settle_reserved_transfer o debtor creditor asset amount l).1.balances
      ≡ supply s test l.balances
  unfolding settle_reserved_transfer
  settle_reserved_transfer-supply =
      move_funds-supply Balance.debit_reserved debit_reserved-IsTaking s test o debtor creditor
        asset amount l fits small alike apart
