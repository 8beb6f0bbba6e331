-- ===== src/Prelude/Exec.antt =====
-- A method that mutates an object and may throw. What was written before a throw stays written,
-- so the state comes back beside the error too.
use mathlib.Core.Path.{◌≡◌, refl}
use mathlib.Core.Logic.{◌⊎◌, inl, inr}
use mathlib.Core.Bool.{Bool, true, false}
use mathlib.Core.Option.{Option, none, some}

pub data Result (E A : Type 0) : Type 0 where
  ok : A → Result E A
  err : E → Result E A

-- To split on a result and keep the equation.
pub Result-cases :
    {E A : Type 0} (r : Result E A) → ((e : E) × (r ≡ err e)) ⊎ ((a : A) × (r ≡ ok a))
Result-cases (ok a) = inr (a, refl)
Result-cases (err e) = inl (e, refl)

abbrev pub Exec : Type 0 → Type 0 → Type 0 → Type 0
Exec E S A = S → Result E A × S

module _ {E S A : Type 0} where
  abbrev pub pure : A → Exec E S A
  pure a s = (ok a, s)

  abbrev pub raise : E → Exec E S A
  raise e s = (err e, s)

  abbrev pub lift : Result E A → Exec E S A
  lift r s = (r, s)

  abbrev pub gets : (S → A) → Exec E S A
  gets f s = (ok (f s), s)

  -- `if (!value) throw e`
  abbrev pub or_raise : Option A → E → Exec E S A
  or_raise none e = raise e
  or_raise (some a) e = pure a

module _ {E S : Type 0} where
  abbrev pub modify : (S → S) → Exec E S (Unit {0})
  modify f s = (ok tt, f s)

  -- `if (test) throw e`
  abbrev pub raise_if : Bool → E → Exec E S (Unit {0})
  raise_if true e = raise e
  raise_if false e = pure tt

module _ {E S A B : Type 0} where
  abbrev pub proceed : Result E A → (A → Exec E S B) → Exec E S B
  proceed (ok a) f s = f a s
  proceed (err e) f s = (err e, s)

  infixl 10 ◌>>=◌ ◌>>◌
  abbrev pub ◌>>=◌ : Exec E S A → (A → Exec E S B) → Exec E S B
  ◌>>=◌ m f s = let (r, s') = m s in proceed r f s'

  abbrev pub ◌>>◌ : Exec E S A → Exec E S B → Exec E S B
  m >> k = m >>= λ _. k

  -- What follows a computation with a value leaves its state.
  pub >>-pure : (m : Exec E S A) (b : B) (s : S) → ((m >> pure b) s).1 ≡ (m s).1
  >>-pure m b s = elim (Result-cases (m s).0) [
    | inl (e, failed) ↦ rw failed refl
    | inr (a, done) ↦ rw done refl
  ]

  -- A property of the state that a computation keeps, and what its value adds for the rest.
  pub >>=-keeps :
      (I : S → Type 0) (J : A → S → Type 0) (m : Exec E S A) (f : A → Exec E S B)
      → ((s : S) → I s → I (m s).1)
      → ((s : S) (a : A) → I s → (m s).0 ≡ ok a → J a (m s).1)
      → ((a : A) (s : S) → I s → J a s → I (f a s).1)
      → (s : S) → I s
      → I ((m >>= f) s).1
  >>=-keeps I J m f keeps adds next s h = elim (Result-cases (m s).0) [
    | inl (e, failed) ↦ rw failed (keeps s h)
    | inr (a, done) ↦ rw done (next a (m s).1 (keeps s h) (adds s a h done))
  ]

  pub >>-keeps :
      (I : S → Type 0) (m : Exec E S A) (k : Exec E S B)
      → ((s : S) → I s → I (m s).1)
      → ((s : S) → I s → I (k s).1)
      → (s : S) → I s
      → I ((m >> k) s).1
  >>-keeps I m k keeps next s h = elim (Result-cases (m s).0) [
    | inl (e, failed) ↦ rw failed (keeps s h)
    | inr (a, done) ↦ rw done (next (m s).1 (keeps s h))
  ]
