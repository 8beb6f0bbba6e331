-- ===== src/Matching/Fuel.antt =====
-- The fuel of the matching loop of `place`: what each pass takes off the active orders.
use exchanger.Prelude.{
  subst, sym, ◌⊎◌, ℕ, zero, suc, ◌+◌, ◌≤◌, ◌≡◌, ◌≢◌, refl, String, true, false, List, [], ◌∷◌, some,
  arith, Bool-cases, Option-cases, inl, inr, length, str_eq_iff, if◌then◌else◌,
}
use exchanger.Prelude.Dict.{Dict, get, put, remove as delete, get-put, values}
use exchanger.Prelude.Dict.Each.{All, Each, Each-get, Each-put, Each-remove}
use exchanger.Decimal.{Decimal, below, is_zero}
use exchanger.Decimal.Laws.{is_zero-subtract, equal_refl}
use exchanger.Matching.Types.{ActiveOrder, MatchingEngine}
use exchanger.Matching.Book.{
  deref, flat, best_match, is_eligible, opposite_book, remove, sort_orders,
}
use exchanger.Matching.Engine.{
  Fill, out_of_fuel, match_loop, traded, reduce, settle_maker, fuel_for,
}
use exchanger.Matching.Loop.{with_fill}
use exchanger.Matching.Priority.{
  resting, candidates, All-sort_orders, sorted_cases, filter_eligible-All, All-left,
}

-- Every active order is kept under its own id.
abbrev pub IsKeyed : Dict ActiveOrder → Type 0
IsKeyed = Each (λ k o. o.order_id ≡ k)

-- An order that is found under its id.
abbrev pub IsFound : Dict ActiveOrder → ActiveOrder → Type 0
IsFound orders o = get o.order_id orders ≡ some o

deref-IsFound :
    (orders : Dict ActiveOrder) (ids : List String)
    → IsKeyed orders
    → All (IsFound orders) (deref orders ids)
unfolding deref
deref-IsFound orders [] h = tt
deref-IsFound orders (id ∷ ids) h = elim (Option-cases (get id orders)) [
  | inl absent ↦ rw (absent, All) (deref-IsFound orders ids h)
  | inr (o, found) ↦
      let own : o.order_id ≡ id = Each-get (λ k o. o.order_id ≡ k) id o orders h found in
      let self : IsFound orders o = subst (λ (j : String). get j orders ≡ some o) (sym own) found in
      rw (found, All) (self, deref-IsFound orders ids h)
]

-- What holds of every resting order that faces the taker holds of the one that is picked.
pub best_match-All :
    (P : ActiveOrder → Type 0) (e : MatchingEngine) (order maker : ActiveOrder)
    → All P (resting e order.side)
    → best_match e order ≡ some maker
    → P maker
unfolding best_match
best_match-All P e order maker h best =
    let ps : All P (candidates e order) =
      All-left P (λ m. is_eligible order m ≡ true) (candidates e order)
        (filter_eligible-All P order (resting e order.side) h) in
    let sorted_all : All P (sort_orders order.side (candidates e order)) =
      All-sort_orders order.side P (candidates e order) ps in
    elim (sorted_cases (sort_orders order.side (candidates e order))) [
      | inl none_left ↦ absurd (ground arith)
      | inr (h, t, sorted) ↦
          let first : P h = (subst (All P) sorted sorted_all).0 in
          let same : h ≡ maker = ground arith in subst P same first
    ]

remove-length_le : (k : String) (m : Dict ActiveOrder) → length (delete k m) ≤ length m
unfolding delete
remove-length_le k [] = ground arith
remove-length_le k ((j, o) ∷ m) = ground (arith, remove-length_le k m)

remove-length :
    (k : String) (m : Dict ActiveOrder) {o : ActiveOrder}
    → get k m ≡ some o
    → length (delete k m) + 1 ≤ length m
unfolding delete get
remove-length k [] {o} h = ground arith
remove-length k ((j, w) ∷ m) {o} h = ground (arith, remove-length k m {o = o}, remove-length_le k m)

put-length :
    (k : String) (v : ActiveOrder) (m : Dict ActiveOrder) {o : ActiveOrder}
    → get k m ≡ some o
    → length (put k v m) ≡ length m
unfolding put get
put-length k v [] {o} h = ground arith
put-length k v ((j, w) ∷ m) {o} h = ground (arith, put-length k v m {o = o})

-- What is left of the smaller side of a trade is nothing.
nothing_left :
    (order maker : ActiveOrder)
    → (is_zero (reduce (traded order maker) order).remaining_quantity ≡ true)
      ⊎ (is_zero (reduce (traded order maker) maker).remaining_quantity ≡ true)
unfolding reduce traded
nothing_left order maker =
    elim (Bool-cases (below order.remaining_quantity maker.remaining_quantity)) [
      | inl less ↦ inl (
          rw (less, is_zero-subtract order.remaining_quantity order.remaining_quantity)
            (equal_refl order.remaining_quantity))
      | inr more ↦ inr (
          rw (more, is_zero-subtract maker.remaining_quantity maker.remaining_quantity)
            (equal_refl maker.remaining_quantity))
    ]

module _ (maker : ActiveOrder) (quantity : Decimal) (e : MatchingEngine) where
  abbrev settled : Dict ActiveOrder
  settled = (settle_maker quantity maker e).active_orders

  settle_maker-orders :
      let changed = put maker.order_id (reduce quantity maker) e.active_orders in
      settled ≡ (
        if is_zero (reduce quantity maker).remaining_quantity
        then delete maker.order_id changed
        else changed)
  unfolding settle_maker remove reduce
  settle_maker-orders = ground arith

  pub settle_maker-IsKeyed : IsKeyed e.active_orders → IsKeyed settled
  settle_maker-IsKeyed h =
      let changed : IsKeyed (put maker.order_id (reduce quantity maker) e.active_orders) =
        Each-put (λ k o. o.order_id ≡ k) (λ k o. o.order_id ≡ k) maker.order_id
          (reduce quantity maker) e.active_orders h (unfold reduce in refl) (λ j w _ q. q) in
      elim (Bool-cases (is_zero (reduce quantity maker).remaining_quantity)) [
        | inl gone ↦
            subst IsKeyed (sym (rw gone at settle_maker-orders))
              (Each-remove (λ k o. o.order_id ≡ k) maker.order_id _ changed)
        | inr left ↦ subst IsKeyed (sym (rw left at settle_maker-orders)) changed
      ]

  settle_maker-length_le : IsFound e.active_orders maker → length settled ≤ length e.active_orders
  settle_maker-length_le h = ground (
    arith,
    settle_maker-orders,
    put-length maker.order_id (reduce quantity maker) e.active_orders {o = maker},
    remove-length_le maker.order_id (put maker.order_id (reduce quantity maker) e.active_orders),
  )

  settle_maker-length :
      IsFound e.active_orders maker
      → is_zero (reduce quantity maker).remaining_quantity ≡ true
      → length settled + 1 ≤ length e.active_orders
  settle_maker-length h gone = ground (
    arith,
    settle_maker-orders,
    put-length maker.order_id (reduce quantity maker) e.active_orders {o = maker},
    remove-length maker.order_id (put maker.order_id (reduce quantity maker) e.active_orders)
        {o = reduce quantity maker},
    get-put maker.order_id maker.order_id (reduce quantity maker) e.active_orders,
    str_eq_iff maker.order_id maker.order_id,
  )

-- A taker that is filled needs one more pass; otherwise there are two more than active orders.
abbrev HasFuel : ℕ → MatchingEngine → ActiveOrder → Type 0
HasFuel n e order =
    ((is_zero order.remaining_quantity ≡ true) × (1 ≤ n)) ⊎ (length e.active_orders + 2 ≤ n)

pub best_match-IsFound :
    (e : MatchingEngine) (order maker : ActiveOrder)
    → IsKeyed e.active_orders
    → best_match e order ≡ some maker
    → IsFound e.active_orders maker
best_match-IsFound e order maker h best =
    best_match-All (IsFound e.active_orders) e order maker
      (deref-IsFound e.active_orders (flat (values (opposite_book order.side e))) h) best

HasFuel-pass :
    (n : ℕ) (e : MatchingEngine) (order maker : ActiveOrder)
    → IsKeyed e.active_orders
    → best_match e order ≡ some maker
    → is_zero order.remaining_quantity ≡ false
    → HasFuel (suc n) e order
    → let q = traded order maker in HasFuel n (settle_maker q maker e) (reduce q order)
HasFuel-pass n e order maker h best remains fuel =
    let found : IsFound e.active_orders maker = best_match-IsFound e order maker h best in
    elim (nothing_left order maker) [
      | inl filled ↦ inl (filled, ground arith)
      | inr gone ↦ inr (ground (arith, settle_maker-length maker (traded order maker) e found gone))
    ]

match_loop-fuel :
    (n : ℕ) (e : MatchingEngine) (order : ActiveOrder) (fills : List Fill)
    → IsKeyed e.active_orders
    → HasFuel n e order
    → match_loop n e order fills ≢ out_of_fuel
unfolding match_loop
match_loop-fuel zero e order fills h fuel = ground arith
match_loop-fuel (suc n) e order fills h fuel =
    elim (Bool-cases (is_zero order.remaining_quantity)) [
      | inl all_done ↦ ground arith
      | inr remains ↦ elim (Option-cases (best_match e order)) [
        | inl nobody ↦ ground arith
        | inr (maker, best) ↦
            let q : Decimal = traded order maker in
            let rest : match_loop n (settle_maker q maker e) (reduce q order)
                  (with_fill fills order maker)
                ≢ out_of_fuel =
              match_loop-fuel n (settle_maker q maker e) (reduce q order)
                (with_fill fills order maker) (settle_maker-IsKeyed maker q e h)
                (HasFuel-pass n e order maker h best remains fuel) in
            ground (arith, rest)
      ]
    ]

-- The matching loop ends within the fuel that `place` gives it, if every active order is kept under
-- its own id.
pub fuel_for-IsEnough :
    (e : MatchingEngine) (taker : ActiveOrder)
    → IsKeyed e.active_orders
    → match_loop (fuel_for e) e taker [] ≢ out_of_fuel
fuel_for-IsEnough e taker h = match_loop-fuel (fuel_for e) e taker [] h (inr (omega arith))
