-- ===== src/Ledger/Reconcile.antt =====
-- `assertBalancedPostings` of ledger/domain/posting.ts and `reconcile` of ledger.ts against double entry.
use text.Mathlib.TextPositions.{eq_refl}
use mathlib.Core.List.{append-nil, append_assoc}
use exchanger.Prelude.{
  String, ◌≡◌, refl, sym, subst, ◌∙◌, true, false, List, [], ◌∷◌, ◌++◌, none, arith, str_eq,
  Option-cases, inl, inr, if◌then◌else◌,
}
use exchanger.Prelude.Dict.{Dict, get, put, values, get-put}
use exchanger.Prelude.Dict.Each.{All, Each, Each-get, Each-put, Each-values}
use exchanger.Prelude.Exec.{ok}
use exchanger.Decimal.{Decimal, add, nought}
use exchanger.Decimal.Canonical.{add-IsCanonical}
use exchanger.Decimal.Laws.{equal_refl, add_assoc, add-nought}
use exchanger.Ledger.Posting.{
  Posting, Total, PostingDirection, debit_side, credit_side, is_balanced, totals_from, add_to_total,
  total_or_none, all_balanced,
}
use exchanger.Ledger.State.{Ledger, new_ledger}
use exchanger.Ledger.Operations.{
  reconcile, group_by_operation, every_balanced, postings_of, postings_or_none,
}
use exchanger.Ledger.Journal.{
  side_total, is_side, side_total-IsCanonical, IsDoubleEntry, IsJournal, postings_of-append,
  side_total-append,
}
use exchanger.Ledger.JournalOfCalls.{perform_all-IsJournal}
use exchanger.Ledger.Calls.{Call, perform_all}

-- A total holds both sums of the postings seen so far.
pub record Sums (seen : List Posting) (a : String) (t : Total) : Type 0 where
  pub debit : t.debit ≡ side_total debit_side a seen
  pub credit : t.credit ≡ side_total credit_side a seen

-- The totals of the assets seen so far; an asset without a total has no postings.
pub record Tallies (seen : List Posting) (m : Dict Total) : Type 0 where
  pub each : Each (Sums seen) m
  pub absent : (a : String) → get a m ≡ none → Sums seen a (total_or_none none)

-- One more posting of another asset, and one of this asset.
side_total-other :
    (d : PostingDirection) (a : String) (seen : List Posting) (p : Posting)
    → str_eq p.asset_id a ≡ false
    → side_total d a (seen ++ p ∷ []) ≡ side_total d a seen
unfolding side_total
side_total-other d a seen p other = ground (
  arith,
  side_total-append d a seen (p ∷ []),
  add-nought (side_total d a seen) (side_total-IsCanonical d a seen),
)

side_total-own :
    (d : PostingDirection) (seen : List Posting) (p : Posting)
    → side_total d p.asset_id (seen ++ p ∷ []) ≡ (
        if is_side d p.direction
        then add (side_total d p.asset_id seen) p.amount
        else side_total d p.asset_id seen)
unfolding side_total
side_total-own d seen p =
    let before : Decimal = side_total d p.asset_id seen in
    ground (
      arith,
      eq_refl p.asset_id,
      side_total-append d p.asset_id seen (p ∷ []),
      add-nought before (side_total-IsCanonical d p.asset_id seen),
      add_assoc before p.amount nought,
      add-nought (add before p.amount) (add-IsCanonical before p.amount),
    )

Sums-other :
    (seen : List Posting) (p : Posting) (a : String) (t : Total)
    → str_eq p.asset_id a ≡ false
    → Sums seen a t
    → Sums (seen ++ p ∷ []) a t
Sums-other seen p a t other h =
    ground (
      arith,
      side_total-other debit_side a seen p other,
      side_total-other credit_side a seen p other,
    )

Sums-self :
    (seen : List Posting) (p : Posting) (t : Total)
    → Sums seen p.asset_id t
    → Sums (seen ++ p ∷ []) p.asset_id (add_to_total p t)
unfolding add_to_total
Sums-self seen p t h =
    ground (arith, side_total-own debit_side seen p, side_total-own credit_side seen p)

-- The total under which a posting is added holds the sums seen so far, also where it is a new one.
Sums-found :
    (seen : List Posting) (m : Dict Total) (a : String)
    → Tallies seen m
    → Sums seen a (total_or_none (get a m))
Sums-found seen m a h = elim (Option-cases (get a m)) [
  | inl new ↦ rw new (h.absent a new)
  | inr (t, found) ↦ rw found (Each-get (Sums seen) a t m h.each found)
]

Tallies-put :
    (seen : List Posting) (m : Dict Total) (p : Posting)
    → Tallies seen m
    → Tallies
        (seen ++ p ∷ [])
        (put p.asset_id (add_to_total p (total_or_none (get p.asset_id m))) m)
Tallies-put seen m p h =
    let t : Total = total_or_none (get p.asset_id m) in
    record {
      each =
          Each-put (Sums (seen ++ p ∷ [])) (Sums seen) p.asset_id (add_to_total p t) m h.each
            (Sums-self seen p t (Sums-found seen m p.asset_id h))
            (λ a w other s. Sums-other seen p a w other s);
      absent = λ a none_found.
          let other : str_eq p.asset_id a ≡ false =
            ground (arith, get-put p.asset_id a (add_to_total p t) m) in
          Sums-other seen p a (total_or_none none) other
            (h.absent a (ground (arith, get-put p.asset_id a (add_to_total p t) m)));
    }

Tallies-totals_from :
    (ps seen : List Posting) (m : Dict Total)
    → Tallies seen m
    → Tallies (seen ++ ps) (totals_from m ps)
unfolding totals_from
Tallies-totals_from [] seen m h = rw append-nil h
Tallies-totals_from (p ∷ ps) seen m h = rw (← append_assoc seen (p ∷ []) ps) (
    Tallies-totals_from ps (seen ++ p ∷ [])
      (put p.asset_id (add_to_total p (total_or_none (get p.asset_id m))) m)
      (Tallies-put seen m p h))

all_balanced-All : (ts : List Total) → All (λ t. t.debit ≡ t.credit) ts → all_balanced ts ≡ true
unfolding all_balanced
all_balanced-All [] h = refl
all_balanced-All (t ∷ ts) h = ground (arith, all_balanced-All ts h.1, equal_refl t.credit)

Each-balanced :
    (ps : List Posting) (m : Dict Total)
    → IsDoubleEntry ps
    → Each (Sums ps) m
    → Each (λ a t. t.debit ≡ t.credit) m
Each-balanced ps [] d h = tt
Each-balanced ps ((a, t) ∷ m) d h = (ground (arith, d a, h.0), h.1, Each-balanced ps m d h.2)

-- `assertBalancedPostings` passes a double entry.
pub is_balanced-IsDoubleEntry : (ps : List Posting) → IsDoubleEntry ps → is_balanced ps ≡ true
unfolding is_balanced
is_balanced-IsDoubleEntry ps d =
    let none_seen : Tallies [] [] = record {
      each = tt;
      absent = λ a e. unfold side_total in record { debit = refl; credit = refl };
    } in
    all_balanced-All (values (totals_from [] ps)) (
      Each-values (λ t. t.debit ≡ t.credit) (totals_from [] ps)
        (Each-balanced ps (totals_from [] ps) d (Tallies-totals_from ps [] [] none_seen).each))

-- Each group holds the postings of its operation among those seen so far.
abbrev IsGroup : List Posting → String → List Posting → Type 0
IsGroup seen o group = group ≡ postings_of o seen

record Groups (seen : List Posting) (m : Dict (List Posting)) : Type 0 where
  each : Each (IsGroup seen) m
  absent : (o : String) → get o m ≡ none → postings_of o seen ≡ []

postings_of-other :
    (seen : List Posting) (p : Posting) (o : String)
    → str_eq p.operation_id o ≡ false
    → postings_of o (seen ++ p ∷ []) ≡ postings_of o seen
unfolding postings_of
postings_of-other seen p o other =
    rw (postings_of-append o seen (p ∷ []), other) (append-nil (postings_of o seen))

postings_of-own :
    (seen : List Posting) (p : Posting)
    → postings_of p.operation_id (seen ++ p ∷ []) ≡ postings_of p.operation_id seen ++ p ∷ []
unfolding postings_of
postings_of-own seen p =
    rw (postings_of-append p.operation_id seen (p ∷ []), eq_refl p.operation_id)

Groups-found :
    (seen : List Posting) (m : Dict (List Posting)) (o : String)
    → Groups seen m
    → postings_or_none (get o m) ≡ postings_of o seen
Groups-found seen m o h = elim (Option-cases (get o m)) [
  | inl new ↦ rw new (sym (h.absent o new))
  | inr (group, found) ↦ rw found (Each-get (IsGroup seen) o group m h.each found)
]

Groups-put :
    (seen : List Posting) (m : Dict (List Posting)) (p : Posting)
    → Groups seen m
    → Groups
        (seen ++ p ∷ [])
        (put p.operation_id (postings_or_none (get p.operation_id m) ++ p ∷ []) m)
Groups-put seen m p h =
    let group : List Posting = postings_or_none (get p.operation_id m) ++ p ∷ [] in
    record {
      each =
          Each-put (IsGroup (seen ++ p ∷ [])) (IsGroup seen) p.operation_id group m h.each
            (rw (postings_of-own seen p, Groups-found seen m p.operation_id h))
            (λ o w other s. s ∙ sym (postings_of-other seen p o other));
      absent = λ o none_found.
          let other : str_eq p.operation_id o ≡ false =
            ground (arith, get-put p.operation_id o group m) in
          postings_of-other seen p o other
          ∙ h.absent o (ground (arith, get-put p.operation_id o group m));
    }

Groups-group_by_operation :
    (ps seen : List Posting) (m : Dict (List Posting))
    → Groups seen m
    → Groups (seen ++ ps) (group_by_operation m ps)
unfolding group_by_operation
Groups-group_by_operation [] seen m h = rw append-nil h
Groups-group_by_operation (p ∷ ps) seen m h = rw (← append_assoc seen (p ∷ []) ps) (
    Groups-group_by_operation ps (seen ++ p ∷ [])
      (put p.operation_id (postings_or_none (get p.operation_id m) ++ p ∷ []) m)
      (Groups-put seen m p h))

every_balanced-All :
    (groups : List (List Posting)) → All IsDoubleEntry groups → every_balanced groups ≡ true
unfolding every_balanced
every_balanced-All [] h = refl
every_balanced-All (ps ∷ groups) h =
    rw (is_balanced-IsDoubleEntry ps h.0) (every_balanced-All groups h.1)

Each-IsDoubleEntry :
    (ps : List Posting) (m : Dict (List Posting))
    → IsJournal ps
    → Each (IsGroup ps) m
    → Each (λ o group. IsDoubleEntry group) m
Each-IsDoubleEntry ps [] j h = tt
Each-IsDoubleEntry ps ((o, group) ∷ m) j h =
    (subst IsDoubleEntry (sym h.0) (j o), h.1, Each-IsDoubleEntry ps m j h.2)

-- On a journal of double entries `reconcile` does not throw.
pub reconcile-IsJournal : (l : Ledger) → IsJournal l.postings → reconcile l ≡ (ok tt, l)
unfolding reconcile
reconcile-IsJournal l j =
    let none_seen : Groups [] [] = record {
      each = tt;
      absent = λ o e. unfold postings_of in refl;
    } in
    let groups : Dict (List Posting) = group_by_operation [] l.postings in
    let grouped : Groups l.postings groups = Groups-group_by_operation l.postings [] [] none_seen in
    rw (
      every_balanced-All (values groups)
        (Each-values IsDoubleEntry groups (Each-IsDoubleEntry l.postings groups j grouped.each)))

-- After any calls on a new ledger, whatever they returned or threw, `reconcile` does not throw.
pub reconcile-perform_all :
    (calls : List Call) → let l = perform_all calls new_ledger in reconcile l ≡ (ok tt, l)
reconcile-perform_all calls =
    reconcile-IsJournal (perform_all calls new_ledger)
      (perform_all-IsJournal calls new_ledger (λ o a. unfold postings_of side_total in refl))
