-- ===== src/Matching/Loop.antt =====
-- The rule for the matching loop of `place`: what every pass keeps holds when the loop ends.
use exchanger.Prelude.{
  ℕ, zero, suc, ◌≡◌, ◌⊎◌, subst, true, false, List, [], ◌∷◌, ◌++◌, none, some, arith, str_eq,
  Option-cases, Bool-cases, inl, inr,
}
use exchanger.Decimal.{is_zero}
use exchanger.Matching.Types.{ActiveOrder, MatchingEngine}
use exchanger.Matching.Book.{best_match}
use exchanger.Matching.Engine.{
  Fill, Matched, finished, self_traded, out_of_fuel, match_loop, traded, reduce, settle_maker,
}

-- A state of the loop: the engine, the taker and the trades so far.
abbrev pub Invariant : Type 1
Invariant = MatchingEngine → ActiveOrder → List Fill → Type 0

-- A pass of the loop that makes a trade.
pub record Pass (e : MatchingEngine) (order maker : ActiveOrder) : Type 0 where
  pub remains : is_zero order.remaining_quantity ≡ false
  pub best : best_match e order ≡ some maker
  pub other_user : str_eq maker.user_id order.user_id ≡ false

-- The trades so far and one more.
abbrev pub with_fill : List Fill → ActiveOrder → ActiveOrder → List Fill
with_fill fills order maker = fills ++ record { maker = maker; quantity = traded order maker } ∷ []

-- The invariant where the loop ends, and why it ends.
abbrev pub Ends : Invariant → Matched → Type 0
Ends P (finished e order fills) =
    P e order fills × ((is_zero order.remaining_quantity ≡ true) ⊎ (best_match e order ≡ none))
Ends P (self_traded e fills) =
    (order : ActiveOrder) × P e order fills
    × (is_zero order.remaining_quantity ≡ false)
    × (maker : ActiveOrder) × (best_match e order ≡ some maker)
    × (str_eq maker.user_id order.user_id ≡ true)
Ends P out_of_fuel = Unit

-- Every pass keeps the invariant.
abbrev pub IsKept : Invariant → Type 0
IsKept P =
    (e : MatchingEngine) (order : ActiveOrder) (fills : List Fill) (maker : ActiveOrder)
    → P e order fills
    → Pass e order maker
    → P (settle_maker (traded order maker) maker e) (reduce (traded order maker) order)
        (with_fill fills order maker)

pub match_loop-Ends :
    (P : Invariant)
    → IsKept P
    → (fuel : ℕ) (e : MatchingEngine) (order : ActiveOrder) (fills : List Fill) → P e order fills
    → Ends P (match_loop fuel e order fills)
unfolding match_loop
match_loop-Ends P keep zero e order fills h = tt
match_loop-Ends P keep (suc fuel) e order fills h =
    elim (Bool-cases (is_zero order.remaining_quantity)) [
      | inl all_done ↦ subst (Ends P) {x = finished e order fills} (ground arith) (h, inl all_done)
      | inr remains ↦ elim (Option-cases (best_match e order)) [
        | inl nobody ↦ subst (Ends P) {x = finished e order fills} (ground arith) (h, inr nobody)
        | inr (maker, best) ↦ elim (Bool-cases (str_eq maker.user_id order.user_id)) [
          | inl self ↦
              subst (Ends P) {x = self_traded e fills} (ground arith)
                (order, h, remains, maker, best, self)
          | inr other ↦ subst (Ends P) (ground arith) (
              match_loop-Ends P keep fuel (settle_maker (traded order maker) maker e)
                (reduce (traded order maker) order) (with_fill fills order maker)
                (keep e order fills maker h
                  (record { remains = remains; best = best; other_user = other })))
        ]
      ]
    ]
