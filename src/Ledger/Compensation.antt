-- ===== src/Ledger/Compensation.antt =====
-- `Ledger.compensate` without its monad: the reversed postings, and the state that it leaves.
use exchanger.Prelude.{
  ℕ, suc, ◌+◌, String, ◌≡◌, refl, ap, List, [], ◌∷◌, ◌++◌, none, some, arith, if◌then◌else◌, length,
  ◌⊎◌, Option-cases, Bool-cases, inl, inr,
}
use exchanger.Prelude.Dict.{Dict, get, put}
use exchanger.Prelude.Dict.Each.{All}
use exchanger.Prelude.Exec.{Result, ok, err, Result-cases}
use exchanger.Ledger.Balance.{LedgerError, Balance, batch_not_balanced, operation_missing}
use exchanger.Ledger.Posting.{Posting, is_balanced}
use exchanger.Ledger.State.{Ledger, OperationResult, key, opposite, ids}
use exchanger.Ledger.Operations.{
  compensate, compute_changes, reversed_balance, reverse_postings, store_changes, postings_of,
  is_empty,
}
use exchanger.Ledger.Atomicity.{posting_at}
use exchanger.Ledger.Solvency.{
  IsSolvent, Solvents, put-Solvents, get-IsSolvent, credit-IsSafe, debit-IsSafe,
}

-- The same balances, postings and operations.
pub record SameFunds (l l' : Ledger) : Type 0 where
  pub balances : l'.balances ≡ l.balances
  pub postings : l'.postings ≡ l.postings
  pub operations : l'.operations ≡ l.operations

-- The postings that undo `ps`, numbered from `n`.
abbrev pub reversed_from : String → ℕ → List Posting → List Posting
reversed_from c n [] = []
reversed_from c n (p ∷ ps) =
    posting_at c p.account_id p.asset_id p.amount (opposite p.direction) n
    ∷ reversed_from c (n + 1) ps

abbrev pub advanced : ℕ → Ledger → Ledger
advanced n l = record l { next_posting_number = n }

pub reverse_postings_lem :
    (c : String) (ps : List Posting) (l : Ledger)
    → reverse_postings c ps l ≡ (
      ok (reversed_from c l.next_posting_number ps),
      advanced (l.next_posting_number + length ps) l,
    )
unfolding reverse_postings
reverse_postings_lem c [] l = ground arith
reverse_postings_lem c (p ∷ ps) l =
    rw (reverse_postings_lem c ps (advanced (l.next_posting_number + 1) l)) (ground arith)

reversed_balance-state : (p : Posting) (l : Ledger) → (reversed_balance p l).1 ≡ l
unfolding reversed_balance
reversed_balance-state p l = ground arith

pub compute_changes-state : (ps : List Posting) (l : Ledger) → (compute_changes ps l).1 ≡ l
unfolding compute_changes
compute_changes-state [] l = refl
compute_changes-state (p ∷ ps) l =
    ground (arith, reversed_balance-state p l, compute_changes-state ps l)

-- What `compensate` returns, and the state that it leaves.
abbrev pub compensated :
    String
    → List Posting
    → List (Posting × Balance)
    → Ledger
    → Result LedgerError OperationResult × Ledger
compensated c reversed changes l =
    let result : OperationResult = record { operation_id = c; posting_ids = ids reversed } in
    (
      ok result,
      record l {
        balances = store_changes changes l.balances;
        postings = l.postings ++ reversed;
        operations = put c result l.operations;
        next_posting_number = l.next_posting_number + length reversed;
      },
    )

length-reversed_from :
    (c : String) (n : ℕ) (ps : List Posting) → length (reversed_from c n ps) ≡ length ps
length-reversed_from c n [] = refl
length-reversed_from c n (p ∷ ps) = ap suc (length-reversed_from c (n + 1) ps)

module _ (c o : String) (l : Ledger) where
  abbrev pub original : List Posting
  original = postings_of o l.postings

  abbrev pub reversed : List Posting
  reversed = reversed_from c l.next_posting_number original

  pub compensate_lem : compensate c o l ≡ elim (get c l.operations) [
    | some previous ↦ (ok previous, l)
    | none ↦
        if is_empty original
        then (err operation_missing, l)
        else elim (compute_changes original l).0 [
          | err e ↦ (err e, l)
          | ok changes ↦
              if is_balanced reversed
              then compensated c reversed changes l
              else (err batch_not_balanced, advanced (l.next_posting_number + length original) l)
        ]
  ]
  unfolding compensate
  compensate_lem = ground (
    arith,
    compute_changes-state original l,
    reverse_postings_lem c original l,
    length-reversed_from c l.next_posting_number original,
  )

  -- The run in which an operation is undone.
  pub record Compensates : Type 0 where
    pub changes : List (Posting × Balance)
    pub unknown : get c l.operations ≡ none
    pub computed : (compute_changes original l).0 ≡ ok changes
    pub outcome : compensate c o l ≡ compensated c reversed changes l

  -- The balances, the postings and the operations stay, or the operation is undone.
  pub compensate_cases : SameFunds l (compensate c o l).1 ⊎ Compensates
  compensate_cases = elim (Option-cases (get c l.operations)) [
    | inr (previous, known) ↦ inl (ground (arith, compensate_lem))
    | inl new ↦ elim (Bool-cases (is_empty original)) [
      | inl nothing ↦ inl (ground (arith, compensate_lem))
      | inr found ↦ elim (Result-cases (compute_changes original l).0) [
        | inl (e, thrown) ↦ inl (ground (arith, compensate_lem))
        | inr (changes, done) ↦ elim (Bool-cases (is_balanced reversed)) [
          | inl balanced ↦ inr (record {
            changes = changes;
            unknown = new;
            computed = done;
            outcome = ground (arith, compensate_lem);
          })
          | inr unbalanced ↦ inl (ground (arith, compensate_lem))
        ]
      ]
    ]
  ]

module _ (l : Ledger) (h : Solvents l.balances) where
  reversed_balance-IsSolvent :
      (p : Posting) (b : Balance) → (reversed_balance p l).0 ≡ ok b → IsSolvent b
  unfolding reversed_balance
  reversed_balance-IsSolvent p b e =
      elim (Option-cases (get (key p.account_id p.asset_id) l.balances)) [
        | inl missing ↦ ground arith
        | inr (old, found) ↦
            let s : IsSolvent old =
              get-IsSolvent (key p.account_id p.asset_id) old l.balances h found in
            ground (arith, credit-IsSafe old p.amount b s, debit-IsSafe old p.amount b s)
      ]

  pub compute_changes-IsSolvent :
      (ps : List Posting) (changes : List (Posting × Balance))
      → (compute_changes ps l).0 ≡ ok changes
      → All (λ c. IsSolvent c.1) changes
  unfolding compute_changes
  compute_changes-IsSolvent [] changes e = ground arith
  compute_changes-IsSolvent (p ∷ ps) [] e = ground arith
  compute_changes-IsSolvent (p ∷ ps) ((q, b) ∷ changes) e =
      let state : (reversed_balance p l).1 ≡ l = reversed_balance-state p l in
      (
        ground (arith, reversed_balance-IsSolvent p b),
        ground (arith, compute_changes-IsSolvent ps changes),
      )

pub store_changes-Solvents :
    (changes : List (Posting × Balance)) (m : Dict Balance)
    → All (λ c. IsSolvent c.1) changes
    → Solvents m
    → Solvents (store_changes changes m)
unfolding store_changes
store_changes-Solvents [] m a h = h
store_changes-Solvents ((p, b) ∷ changes) m a h =
    store_changes-Solvents changes (put (key p.account_id p.asset_id) b m) a.1
      (put-Solvents (key p.account_id p.asset_id) b m h a.0)
