-- ===== src/Ledger/Journal.antt =====
-- Double entry: the debits and the credits of one operation in one asset.
use exchanger.Prelude.{
  ℕ, ◌+◌, String, ◌≡◌, refl, sym, Bool, true, false, ◌&&◌, List, [], ◌∷◌, ◌++◌, arith, str_eq,
  if◌then◌else◌,
}
use exchanger.Decimal.{Decimal, add, nought}
use exchanger.Decimal.Canonical.{IsCanonical, is_canonical, add-IsCanonical}
use exchanger.Decimal.Laws.{add_assoc, nought-add}
use exchanger.Ledger.Posting.{Posting, PostingDirection, debit_side, credit_side}
use exchanger.Ledger.State.{opposite}
use exchanger.Ledger.Operations.{postings_of}
use exchanger.Ledger.Compensation.{reversed_from}

abbrev pub is_side : PostingDirection → PostingDirection → Bool
is_side debit_side debit_side = true
is_side credit_side credit_side = true
is_side _ _ = false

-- The sum of the amounts posted to one asset in one direction.
unfoldable pub side_total : PostingDirection → String → List Posting → Decimal
side_total d a [] = nought
side_total d a (p ∷ ps) =
    let rest = side_total d a ps in
    if is_side d p.direction && str_eq p.asset_id a then add p.amount rest else rest

pub side_total-IsCanonical :
    (d : PostingDirection) (a : String) (ps : List Posting) → IsCanonical (side_total d a ps)
unfolding side_total
side_total-IsCanonical d a [] = unfold is_canonical in refl
side_total-IsCanonical d a (p ∷ ps) =
    ground (arith, side_total-IsCanonical d a ps, add-IsCanonical p.amount (side_total d a ps))

pub side_total-append :
    (d : PostingDirection) (a : String) (ps qs : List Posting)
    → side_total d a (ps ++ qs) ≡ add (side_total d a ps) (side_total d a qs)
unfolding side_total
side_total-append d a [] qs = sym (nought-add _ (side_total-IsCanonical d a qs))
side_total-append d a (p ∷ ps) qs =
    ground (
      arith,
      side_total-append d a ps qs,
      add_assoc p.amount (side_total d a ps) (side_total d a qs),
    )

-- In every asset as much is debited as is credited.
abbrev pub IsDoubleEntry : List Posting → Type 0
IsDoubleEntry ps = (a : String) → side_total debit_side a ps ≡ side_total credit_side a ps

pub append-IsDoubleEntry :
    (ps qs : List Posting) → IsDoubleEntry ps → IsDoubleEntry qs → IsDoubleEntry (ps ++ qs)
append-IsDoubleEntry ps qs h k a =
    rw (side_total-append debit_side a ps qs, side_total-append credit_side a ps qs, h a, k a)

pub pair-IsDoubleEntry :
    (p q : Posting)
    → p.asset_id ≡ q.asset_id
    → p.amount ≡ q.amount
    → q.direction ≡ opposite p.direction
    → IsDoubleEntry (p ∷ q ∷ [])
unfolding side_total
pair-IsDoubleEntry p q ea em ed a = ground arith

-- Reversing swaps the sides.
pub side_total-reversed_from :
    (d : PostingDirection) (a c : String) (n : ℕ) (ps : List Posting)
    → side_total d a (reversed_from c n ps) ≡ side_total (opposite d) a ps
unfolding side_total
side_total-reversed_from d a c n [] = refl
side_total-reversed_from d a c n (p ∷ ps) =
    ground (arith, side_total-reversed_from d a c (n + 1) ps)

-- So what undoes a double entry is one.
pub reversed_from-IsDoubleEntry :
    (c : String) (n : ℕ) (ps : List Posting)
    → IsDoubleEntry ps
    → IsDoubleEntry (reversed_from c n ps)
reversed_from-IsDoubleEntry c n ps h a =
    rw (side_total-reversed_from debit_side a c n ps, side_total-reversed_from credit_side a c n ps)
      (sym (h a))

pub postings_of-append :
    (o : String) (ps qs : List Posting)
    → postings_of o (ps ++ qs) ≡ postings_of o ps ++ postings_of o qs
unfolding postings_of
postings_of-append o [] qs = refl
postings_of-append o (p ∷ ps) qs = ground (arith, postings_of-append o ps qs)

-- The journal of a ledger: each operation is a double entry.
abbrev pub IsJournal : List Posting → Type 0
IsJournal ps = (o : String) → IsDoubleEntry (postings_of o ps)

-- Adding a double entry of one operation keeps the journal.
pub append-IsJournal :
    (o : String) (ps qs : List Posting)
    → IsJournal ps
    → IsDoubleEntry qs
    → ((j : String) → postings_of j qs ≡ (if str_eq o j then qs else []))
    → IsJournal (ps ++ qs)
append-IsJournal o ps qs h k own j = rw postings_of-append (
    append-IsDoubleEntry (postings_of j ps) (postings_of j qs) (h j)
      (rw (own j) (split (str_eq o j))))
  where
    split : (b : Bool) → IsDoubleEntry (if b then qs else [])
    split true = k
    split false = λ a. unfold side_total in refl

pub postings_of-pair :
    (o j : String) (p q : Posting)
    → p.operation_id ≡ o
    → q.operation_id ≡ o
    → postings_of j (p ∷ q ∷ []) ≡ (if str_eq o j then p ∷ q ∷ [] else [])
unfolding postings_of
postings_of-pair o j p q ep eq = ground arith

pub postings_of-reversed_from :
    (c j : String) (n : ℕ) (ps : List Posting)
    → postings_of j (reversed_from c n ps) ≡ (if str_eq c j then reversed_from c n ps else [])
unfolding postings_of
postings_of-reversed_from c j n [] = ground arith
postings_of-reversed_from c j n (p ∷ ps) = ground (arith, postings_of-reversed_from c j (n + 1) ps)
