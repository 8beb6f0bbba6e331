-- ===== src/Ledger/Solvency.antt =====
-- The operations of ledger/domain/balance.ts and balances without a negative part.
use exchanger.Prelude.{String, ◌≡◌, refl, some, arith}
use exchanger.Prelude.Dict.{Dict, get, put}
use exchanger.Prelude.Dict.Each.{Each, Each-get, Each-put}
use exchanger.Prelude.Exec.{Result, ok}
use exchanger.Decimal.{Decimal, is_negative}
use exchanger.Decimal.Laws.{IsNonNegative, add-IsNonNegative}
use exchanger.Decimal.Canonical.{is_canonical, IsCanonical, add-IsCanonical, subtract-IsCanonical}
use exchanger.Ledger.Balance
use exchanger.Ledger.Balance.{LedgerError, Balance, not_positive, empty}

-- Both parts are non-negative decimals in normal form.
pub record IsSolvent (b : Balance) : Type 0 where
  pub available : IsNonNegative b.available
  pub reserved : IsNonNegative b.reserved
  pub available_canonical : IsCanonical b.available
  pub reserved_canonical : IsCanonical b.reserved

-- A change of a balance that keeps it solvent whenever it succeeds.
abbrev pub IsSafe : (Balance → Decimal → Result LedgerError Balance) → Type 0
IsSafe change =
    (b : Balance) (amount : Decimal) (b' : Balance)
    → IsSolvent b
    → change b amount ≡ ok b'
    → IsSolvent b'

pub credit-IsSafe : IsSafe Balance.credit
unfolding Balance.credit
credit-IsSafe b amount b' h e =
    ground (arith, add-IsNonNegative b.available amount, add-IsCanonical b.available amount)

pub debit-IsSafe : IsSafe Balance.debit
unfolding Balance.debit
debit-IsSafe b amount b' h e = ground (arith, subtract-IsCanonical b.available amount)

pub reserve-IsSafe : IsSafe Balance.reserve
unfolding Balance.reserve
reserve-IsSafe b amount b' h e = ground (
  arith,
  subtract-IsCanonical b.available amount,
  add-IsNonNegative b.reserved amount,
  add-IsCanonical b.reserved amount,
)

pub release-IsSafe : IsSafe Balance.release
unfolding Balance.release
release-IsSafe b amount b' h e = ground (
  arith,
  subtract-IsCanonical b.reserved amount,
  add-IsNonNegative b.available amount,
  add-IsCanonical b.available amount,
)

pub debit_reserved-IsSafe : IsSafe Balance.debit_reserved
unfolding Balance.debit_reserved
debit_reserved-IsSafe b amount b' h e = ground (arith, subtract-IsCanonical b.reserved amount)

pub empty-IsSolvent : IsSolvent empty
unfolding is_negative is_canonical
empty-IsSolvent = record {
  available = refl;
  reserved = refl;
  available_canonical = refl;
  reserved_canonical = refl;
}

abbrev pub Solvents : Dict Balance → Type 0
Solvents = Each (λ k b. IsSolvent b)

pub put-Solvents :
    (k : String) (b : Balance) (m : Dict Balance) → Solvents m → IsSolvent b → Solvents (put k b m)
put-Solvents k b m h s = Each-put (λ k b. IsSolvent b) (λ k b. IsSolvent b) k b m h s (λ j w _ q. q)

pub get-IsSolvent :
    (k : String) (b : Balance) (m : Dict Balance) → Solvents m → get k m ≡ some b → IsSolvent b
get-IsSolvent k b m h e = Each-get (λ k b. IsSolvent b) k b m h e
