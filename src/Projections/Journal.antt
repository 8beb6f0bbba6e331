-- ===== src/Projections/Journal.antt =====
-- The parts of a journal of events for `ProjectionStore` (projections/application/projection.store.ts).
use exchanger.Prelude.{
  includes, ℕ, zero, suc, ◌+◌, ◌≡◌, ◌≤◌, ◌<◌, refl, ap, subst, inl, inr, true, false, List, [], ◌∷◌,
  ◌++◌, some, arith, length, take, get_elem?, str_eq, str_eq_iff,
}
use exchanger.Prelude.Dict.Each.{All}
use exchanger.Prelude.Exec.{ok, Result-cases}
use exchanger.Projections.Events.{ProjectionEvent}
use exchanger.Projections.Store.{ProjectionStore, apply, apply_each}
use exchanger.Projections.Applied.{ids, Numbered, Distinct}

-- The events are numbered from one and have distinct ids.
pub record IsJournal (journal : List ProjectionEvent) : Type 0 where
  pub numbered : Numbered 0 journal
  pub distinct : Distinct journal

pub apply_each-append :
    (xs ys : List ProjectionEvent) (store : ProjectionStore)
    → (apply_each xs store).0 ≡ ok tt
    → apply_each (xs ++ ys) store ≡ apply_each ys (apply_each xs store).1
unfolding apply_each
apply_each-append [] ys store h = refl
apply_each-append (x ∷ xs) ys store h = elim (Result-cases (apply x store).0) [
  | inl (e, failed) ↦ absurd (ground (arith, failed, h))
  | inr (a, done) ↦
      ground (arith, done, apply_each-append xs ys (apply x store).1 (ground (arith, done, h)))
]

-- A part of a run that succeeds succeeds.
pub apply_each-prefix :
    (xs ys : List ProjectionEvent) (store : ProjectionStore)
    → (apply_each (xs ++ ys) store).0 ≡ ok tt
    → (apply_each xs store).0 ≡ ok tt
unfolding apply_each
apply_each-prefix [] ys store h = refl
apply_each-prefix (x ∷ xs) ys store h = elim (Result-cases (apply x store).0) [
  | inl (e, failed) ↦ absurd (ground (arith, failed, h))
  | inr (a, done) ↦
      ground (arith, done, apply_each-prefix xs ys (apply x store).1 (ground (arith, done, h)))
]

pub Numbered-take : (n k : ℕ) (xs : List ProjectionEvent) → Numbered n xs → Numbered n (take k xs)
Numbered-take n zero xs h = tt
Numbered-take n (suc k) [] h = tt
Numbered-take n (suc k) (x ∷ xs) h = (h.0, Numbered-take (n + 1) k xs h.1)

pub All-take :
    (P : ProjectionEvent → Type 0) (k : ℕ) (xs : List ProjectionEvent)
    → All P xs
    → All P (take k xs)
All-take P zero xs h = tt
All-take P (suc k) [] h = tt
All-take P (suc k) (x ∷ xs) h = (h.0, All-take P k xs h.1)

pub Distinct-take : (k : ℕ) (xs : List ProjectionEvent) → Distinct xs → Distinct (take k xs)
Distinct-take zero xs h = tt
Distinct-take (suc k) [] h = tt
Distinct-take (suc k) (x ∷ xs) h =
    (All-take (λ e. str_eq x.event_id e.event_id ≡ false) k xs h.0, Distinct-take k xs h.1)

All-get_elem? :
    (P : ProjectionEvent → Type 0) (xs : List ProjectionEvent) (i : ℕ) (e : ProjectionEvent)
    → All P xs
    → get_elem? xs i ≡ some e
    → P e
All-get_elem? P [] i e h found = cc
All-get_elem? P (x ∷ xs) zero e h found = subst P {x = x} {y = e} (ground (arith, found)) h.0
All-get_elem? P (x ∷ xs) (suc i) e h found = All-get_elem? P xs i e h.1 found

pub sequence_at :
    (n i : ℕ) (xs : List ProjectionEvent) (e : ProjectionEvent)
    → Numbered n xs
    → get_elem? xs i ≡ some e
    → e.sequence ≡ n + i + 1
sequence_at n i [] e h found = cc
sequence_at n zero (x ∷ xs) e h found = ground (arith, found, h.0)
sequence_at n (suc i) (x ∷ xs) e h found = omega (arith, sequence_at (n + 1) i xs e h.1 found)

pub take-suc :
    (k : ℕ) (xs : List ProjectionEvent) (e : ProjectionEvent)
    → get_elem? xs k ≡ some e
    → take (suc k) xs ≡ take k xs ++ e ∷ []
take-suc k [] e found = cc
take-suc zero (x ∷ xs) e found = ground (arith, found)
take-suc (suc k) (x ∷ xs) e found = ap (λ t. x ∷ t) (take-suc k xs e found)

pub length-take_le : (k : ℕ) (xs : List ProjectionEvent) → k ≤ length xs → length (take k xs) ≡ k
length-take_le zero xs h = refl
length-take_le (suc k) [] h = absurd (omega (arith, h))
length-take_le (suc k) (x ∷ xs) h = ap suc (length-take_le k xs (omega (arith, h)))

pub known_at :
    (k i : ℕ) (xs : List ProjectionEvent) (e : ProjectionEvent)
    → get_elem? xs i ≡ some e
    → i < k
    → includes e.event_id (ids (take k xs)) ≡ true
unfolding includes
known_at zero i xs e found h = absurd (omega (arith, h))
known_at (suc k) i [] e found h = cc
known_at (suc k) zero (x ∷ xs) e found h = ground (arith, found, str_eq_iff x.event_id e.event_id)
known_at (suc k) (suc i) (x ∷ xs) e found h =
    ground (arith, known_at k i xs e found (omega (arith, h)))

pub unknown_at :
    (k i : ℕ) (xs : List ProjectionEvent) (e : ProjectionEvent)
    → Distinct xs
    → get_elem? xs i ≡ some e
    → k ≤ i
    → includes e.event_id (ids (take k xs)) ≡ false
unfolding includes
unknown_at zero i xs e d found h = refl
unknown_at (suc k) i [] e d found h = refl
unknown_at (suc k) zero (x ∷ xs) e d found h = absurd (omega (arith, h))
unknown_at (suc k) (suc i) (x ∷ xs) e d found h =
    let other = All-get_elem? (λ c. str_eq x.event_id c.event_id ≡ false) xs i e d.0 found in
    ground (arith, other, unknown_at k i xs e d.1 found (omega (arith, h)))
