-- ===== src/Matching/Priority.antt =====
-- Price-time priority: the sort and the pick of `bestMatch` of trading/matching-engine/matching-engine.ts.
use exchanger.Prelude.{
  ℕ, ◌+◌, ◌≤◌, ◌≡◌, ◌≢◌, ◌⊎◌, refl, sym, subst, ◌∙◌, Bool, true, false, List, [], ◌∷◌, some, arith,
  ltb, Bool-cases, inl, inr, if◌then◌else◌,
}
use exchanger.Prelude.Dict.{values}
use exchanger.Prelude.Dict.Each.{All}
use exchanger.Prelude.Int.{ℤ, ltb_ℤ}
use exchanger.Decimal.{Decimal, units}
use exchanger.Decimal.Order.{below-eq, above-eq}
use exchanger.Matching.Types.{MatchingSide, buy, sell, ActiveOrder, MatchingEngine}
use exchanger.Matching.Book.{
  deref, flat, opposite_book, filter_eligible, goes_before, insert_order, sort_orders, best_match,
  is_eligible,
}

-- The order of the sort, on prices in units of a common scale and on sequences.
abbrev pub goes_before_ℤ : MatchingSide → ℤ → ℕ → ℤ → ℕ → Bool
goes_before_ℤ buy x i y j = if ltb_ℤ x y then true else if ltb_ℤ y x then false else ltb i j
goes_before_ℤ sell x i y j = if ltb_ℤ y x then true else if ltb_ℤ x y then false else ltb i j

-- An order with a price, as every order in the book is.
pub record IsPriced (o : ActiveOrder) : Type 0 where
  pub amount : Decimal
  pub is_price : o.price ≡ some amount

pub goes_before-units :
    (side : MatchingSide) (s : ℕ) (l r : ActiveOrder) (p q : Decimal)
    → p.scale ≤ s
    → q.scale ≤ s
    → l.price ≡ some p
    → r.price ≡ some q
    → goes_before side l r ≡ goes_before_ℤ side (units s p) l.sequence (units s q) r.sequence
unfolding goes_before
goes_before-units buy s l r p q hp hq el er =
    ground (arith, below-eq s p q hp hq, above-eq s p q hp hq)
goes_before-units sell s l r p q hp hq el er =
    ground (arith, below-eq s q p hq hp, above-eq s q p hq hp)

trans_ℤ :
    (side : MatchingSide) (x y z : ℤ) (i j k : ℕ)
    → goes_before_ℤ side x i y j ≡ false
    → goes_before_ℤ side y j z k ≡ false
    → goes_before_ℤ side x i z k ≡ false
trans_ℤ buy x y z i j k h g = ground arith
trans_ℤ sell x y z i j k h g = ground arith

asym_ℤ :
    (side : MatchingSide) (x y : ℤ) (i j : ℕ)
    → goes_before_ℤ side x i y j ≡ true
    → goes_before_ℤ side y j x i ≡ false
asym_ℤ buy x y i j h = ground arith
asym_ℤ sell x y i j h = ground arith

irrefl_ℤ : (side : MatchingSide) (x : ℤ) (i : ℕ) → goes_before_ℤ side x i x i ≡ false
irrefl_ℤ buy x i = ground arith
irrefl_ℤ sell x i = ground arith

module _ (side : MatchingSide) where
  goes_before_irrefl : (a : ActiveOrder) → IsPriced a → goes_before side a a ≡ false
  goes_before_irrefl a p =
      let s : ℕ = p.amount.scale in
      rw
        (goes_before-units side s a a p.amount p.amount (omega arith) (omega arith) p.is_price
          p.is_price)
        (irrefl_ℤ side (units s p.amount) a.sequence)

  goes_before_asym :
      (a b : ActiveOrder)
      → IsPriced a
      → IsPriced b
      → goes_before side a b ≡ true
      → goes_before side b a ≡ false
  goes_before_asym a b p q h =
      let s : ℕ = p.amount.scale + q.amount.scale in
      let ab : goes_before side a b
          ≡ goes_before_ℤ side (units s p.amount) a.sequence (units s q.amount) b.sequence =
        goes_before-units side s a b p.amount q.amount (omega arith) (omega arith) p.is_price
          q.is_price in
      rw
        (goes_before-units side s b a q.amount p.amount (omega arith) (omega arith) q.is_price
          p.is_price)
        (asym_ℤ side (units s p.amount) (units s q.amount) a.sequence b.sequence (sym ab ∙ h))

  goes_before_trans :
      (a b c : ActiveOrder)
      → IsPriced a
      → IsPriced b
      → IsPriced c
      → goes_before side a b ≡ false
      → goes_before side b c ≡ false
      → goes_before side a c ≡ false
  goes_before_trans a b c p q r h g =
      let s : ℕ = p.amount.scale + q.amount.scale + r.amount.scale in
      let ab : goes_before side a b
          ≡ goes_before_ℤ side (units s p.amount) a.sequence (units s q.amount) b.sequence =
        goes_before-units side s a b p.amount q.amount (omega arith) (omega arith) p.is_price
          q.is_price in
      let bc : goes_before side b c
          ≡ goes_before_ℤ side (units s q.amount) b.sequence (units s r.amount) c.sequence =
        goes_before-units side s b c q.amount r.amount (omega arith) (omega arith) q.is_price
          r.is_price in
      rw
        (goes_before-units side s a c p.amount r.amount (omega arith) (omega arith) p.is_price
          r.is_price)
        (trans_ℤ side (units s p.amount) (units s q.amount) (units s r.amount) a.sequence b.sequence
          c.sequence (sym ab ∙ h) (sym bc ∙ g))

  -- No order of the list goes before `h`.
  abbrev pub IsFirst : ActiveOrder → List ActiveOrder → Type 0
  IsFirst h xs = All (λ m. goes_before side m h ≡ false) xs

  IsFirst-trans :
      (x h : ActiveOrder) (xs : List ActiveOrder)
      → IsPriced x
      → IsPriced h
      → All IsPriced xs
      → goes_before side h x ≡ false
      → IsFirst h xs
      → IsFirst x xs
  IsFirst-trans x h [] px ph ps g f = tt
  IsFirst-trans x h (y ∷ ys) px ph ps g f =
      (goes_before_trans y h x ps.0 ph px f.0 g, IsFirst-trans x h ys px ph ps.1 g f.1)

  -- The head of the sorted list, with what is known of it.
  abbrev Heads : List ActiveOrder → List ActiveOrder → Type 0
  Heads xs [] = ◌≡◌ {A = List ActiveOrder} xs []
  Heads xs (h ∷ t) = IsPriced h × IsFirst h xs

  Heads-insert :
      (x : ActiveOrder) (xs sorted : List ActiveOrder)
      → IsPriced x
      → All IsPriced xs
      → Heads xs sorted
      → Heads (x ∷ xs) (insert_order side x sorted)
  unfolding insert_order
  Heads-insert x xs [] px ps e = (px, (goes_before_irrefl x px, subst (IsFirst x) (sym e) tt))
  Heads-insert x xs (h ∷ t) px ps (ph, f) = elim (Bool-cases (goes_before side h x)) [
    | inl first ↦ rw first (ph, (goes_before_asym h x ph px first, f))
    | inr later ↦ rw later (px, (goes_before_irrefl x px, IsFirst-trans x h xs px ph ps later f))
  ]

  sort_orders-Heads : (xs : List ActiveOrder) → All IsPriced xs → Heads xs (sort_orders side xs)
  unfolding sort_orders
  sort_orders-Heads [] ps = refl
  sort_orders-Heads (x ∷ xs) ps =
      Heads-insert x xs (sort_orders side xs) ps.0 ps.1 (sort_orders-Heads xs ps.1)

  -- What holds of every order of a list holds of the sorted list's.
  All-insert_order :
      (P : ActiveOrder → Type 0) (x : ActiveOrder) (xs : List ActiveOrder)
      → P x
      → All P xs
      → All P (insert_order side x xs)
  unfolding insert_order
  All-insert_order P x [] p h = (p, tt)
  All-insert_order P x (y ∷ ys) p h = elim (Bool-cases (goes_before side y x)) [
    | inl first ↦ rw first (h.0, All-insert_order P x ys p h.1)
    | inr later ↦ rw later (p, (h.0, h.1))
  ]

  pub All-sort_orders :
      (P : ActiveOrder → Type 0) (xs : List ActiveOrder) → All P xs → All P (sort_orders side xs)
  unfolding sort_orders
  All-sort_orders P [] h = tt
  All-sort_orders P (x ∷ xs) h =
      All-insert_order P x (sort_orders side xs) h.0 (All-sort_orders P xs h.1)

  insert_order-ne-nil : (x : ActiveOrder) (xs : List ActiveOrder) → insert_order side x xs ≢ []
  unfolding insert_order
  insert_order-ne-nil x [] h = cc
  insert_order-ne-nil x (y ∷ ys) h = ground arith

  pub sort_orders-nil : (xs : List ActiveOrder) → sort_orders side xs ≡ [] → xs ≡ []
  unfolding sort_orders
  sort_orders-nil [] h = refl
  sort_orders-nil (x ∷ xs) h = absurd (insert_order-ne-nil x (sort_orders side xs) h)

-- The resting orders of the opposite side, and those that the taker reaches.
abbrev pub resting : MatchingEngine → MatchingSide → List ActiveOrder
resting e side = deref e.active_orders (flat (values (opposite_book side e)))

abbrev pub candidates : MatchingEngine → ActiveOrder → List ActiveOrder
candidates e order = filter_eligible order (resting e order.side)

pub filter_eligible-All :
    (P : ActiveOrder → Type 0) (order : ActiveOrder) (xs : List ActiveOrder)
    → All P xs
    → All (λ m. P m × (is_eligible order m ≡ true)) (filter_eligible order xs)
unfolding filter_eligible
filter_eligible-All P order [] h = tt
filter_eligible-All P order (x ∷ xs) h = elim (Bool-cases (is_eligible order x)) [
  | inl e ↦ rw e ((h.0, e), filter_eligible-All P order xs h.1)
  | inr e ↦ rw e (filter_eligible-All P order xs h.1)
]

pub All-left :
    (P Q : ActiveOrder → Type 0) (xs : List ActiveOrder) → All (λ m. P m × Q m) xs → All P xs
All-left P Q [] h = tt
All-left P Q (x ∷ xs) h = (h.0.0, All-left P Q xs h.1)

pub sorted_cases :
    (xs : List ActiveOrder)
    → (xs ≡ []) ⊎ ((h : ActiveOrder) × (t : List ActiveOrder) × (xs ≡ h ∷ t))
sorted_cases [] = inl refl
sorted_cases (h ∷ t) = inr (h, t, refl)

-- The maker that is picked is the first by the sort of the orders that the taker reaches.
pub best_match-IsFirst :
    (e : MatchingEngine) (order maker : ActiveOrder)
    → All IsPriced (resting e order.side)
    → best_match e order ≡ some maker
    → IsPriced maker × IsFirst order.side maker (candidates e order)
unfolding best_match
best_match-IsFirst e order maker priced best =
    let ps : All IsPriced (candidates e order) =
      All-left IsPriced (λ m. is_eligible order m ≡ true) (candidates e order)
        (filter_eligible-All IsPriced order (resting e order.side) priced) in
    elim (sorted_cases (sort_orders order.side (candidates e order))) [
      | inl none_left ↦ absurd (ground arith)
      | inr (h, t, sorted) ↦
          let first : Heads order.side (candidates e order) (h ∷ t) =
            subst (Heads order.side (candidates e order)) sorted
              (sort_orders-Heads order.side (candidates e order) ps) in
          let same : h ≡ maker = ground arith in
          subst (λ m. IsPriced m × IsFirst order.side m (candidates e order)) same first
    ]
