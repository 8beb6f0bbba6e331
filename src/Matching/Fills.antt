-- ===== src/Matching/Fills.antt =====
-- What the trades of one command add up to, and at which prices they are made.
use exchanger.Prelude.{
  ℕ, ◌≡◌, refl, sym, ◌∙◌, ap, true, List, [], ◌∷◌, ◌++◌, some, arith, Bool-cases, inl, inr,
}
use exchanger.Prelude.Dict.Each.{All}
use exchanger.Decimal.{Decimal, add, subtract, below, nought}
use exchanger.Decimal.Canonical.{IsCanonical, subtract-IsCanonical}
use exchanger.Decimal.Laws.{
  add_comm, add_assoc, nought-add, add-subtract, is_negative-subtract, IsNonNegative, below_irrefl,
}
use exchanger.Matching.Types.{ActiveOrder, MatchingEngine}
use exchanger.Matching.Book.{best_match, is_eligible}
use exchanger.Matching.Engine.{Fill, match_loop, traded, reduce}
use exchanger.Matching.Loop.{IsKept, Ends, match_loop-Ends}

-- The quantity of a list of trades.
unfoldable pub filled_quantity : List Fill → Decimal
filled_quantity [] = nought
filled_quantity (f ∷ fs) = add (filled_quantity fs) f.quantity

pub filled_quantity-snoc :
    (fs : List Fill) (f : Fill)
    → filled_quantity (fs ++ f ∷ []) ≡ add (filled_quantity fs) f.quantity
unfolding filled_quantity
filled_quantity-snoc [] f = refl
filled_quantity-snoc (g ∷ gs) f = ground (
  arith,
  filled_quantity-snoc gs f,
  add_assoc (filled_quantity gs) f.quantity g.quantity,
  add_assoc (filled_quantity gs) g.quantity f.quantity,
  add_comm f.quantity g.quantity,
)

-- What the taker's price allows: any price for a market order.
abbrev pub IsAllowed : ActiveOrder → Fill → Type 0
IsAllowed order f = is_eligible order f.maker ≡ true

pub All-snoc :
    {A : Type 0} (P : A → Type 0) (xs : List A) (x : A) → All P xs → P x → All P (xs ++ x ∷ [])
All-snoc P [] x h p = (p, tt)
All-snoc P (y ∷ ys) x h p = (h.0, All-snoc P ys x h.1 p)

pub All-map :
    {A : Type 0} (P Q : A → Type 0) (xs : List A) → ((x : A) → P x → Q x) → All P xs → All Q xs
All-map P Q [] f h = tt
All-map P Q (x ∷ xs) f h = (f x h.0, All-map P Q xs f h.1)

-- The taker's trades and its rest make up what it asked for; the rest is not negative; every trade is
-- at a price that the taker's allows; and the taker's terms do not change.
pub record IsAccounted (taker : ActiveOrder) (e : MatchingEngine) (order : ActiveOrder)
    (fills : List Fill) : Type 0 where
  pub canonical : IsCanonical order.remaining_quantity
  pub nonneg : IsNonNegative order.remaining_quantity
  pub total : add (filled_quantity fills) order.remaining_quantity ≡ taker.remaining_quantity
  pub allowed : All (IsAllowed taker) fills
  pub terms : (o : ActiveOrder) → is_eligible order o ≡ is_eligible taker o

traded_nonneg :
    (order maker : ActiveOrder)
    → IsNonNegative (subtract order.remaining_quantity (traded order maker))
unfolding traded
traded_nonneg order maker =
    elim (Bool-cases (below order.remaining_quantity maker.remaining_quantity)) [
      | inl less ↦ rw (less, is_negative-subtract) (below_irrefl order.remaining_quantity)
      | inr more ↦ rw (more, is_negative-subtract) more
    ]

best_match-IsAllowed :
    (e : MatchingEngine) (order maker : ActiveOrder)
    → best_match e order ≡ some maker
    → is_eligible order maker ≡ true
unfolding best_match
best_match-IsAllowed e order maker h = ground arith

is_eligible-reduce :
    (q : Decimal) (order o : ActiveOrder) → is_eligible (reduce q order) o ≡ is_eligible order o
unfolding is_eligible reduce
is_eligible-reduce q order o = refl

split_total :
    (before r q whole : Decimal)
    → IsCanonical r
    → add before r ≡ whole
    → add (add before q) (subtract r q) ≡ whole
split_total before r q whole c h =
    add_assoc before q (subtract r q)
    ∙ ap (add before) (add_comm q (subtract r q) ∙ add-subtract r q c)
    ∙ h

IsAccounted-kept : (taker : ActiveOrder) → IsKept (IsAccounted taker)
IsAccounted-kept taker e order fills maker h pass =
    let q : Decimal = traded order maker in
    let f : Fill = record { maker = maker; quantity = q } in
    record {
      canonical = unfold reduce in subtract-IsCanonical order.remaining_quantity q;
      nonneg = unfold reduce in traded_nonneg order maker;
      total =
          unfold reduce in
          rw (filled_quantity-snoc fills f) (
            split_total (filled_quantity fills) order.remaining_quantity q taker.remaining_quantity
              h.canonical h.total);
      allowed =
          All-snoc (IsAllowed taker) fills f h.allowed
            (sym (h.terms maker) ∙ best_match-IsAllowed e order maker pass.best);
      terms = λ o. is_eligible-reduce q order o ∙ h.terms o;
    }

-- However the loop ends, the trades are accounted for.
pub match_loop-IsAccounted :
    (fuel : ℕ) (e : MatchingEngine) (taker : ActiveOrder)
    → IsCanonical taker.remaining_quantity
    → IsNonNegative taker.remaining_quantity
    → Ends (IsAccounted taker) (match_loop fuel e taker [])
match_loop-IsAccounted fuel e taker c n =
    match_loop-Ends (IsAccounted taker) (IsAccounted-kept taker) fuel e taker [] (record {
      canonical = c;
      nonneg = n;
      total = unfold filled_quantity in nought-add taker.remaining_quantity c;
      allowed = tt;
      terms = λ o. refl;
    })
