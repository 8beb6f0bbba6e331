-- ===== src/Matching/Shrinks.antt =====
-- What a trade or a cancellation leaves of the other orders: `remove` and the end of a pass of `place`.
use exchanger.Prelude.{
  ◌≡◌, ◌≢◌, ◌⊎◌, inl, inr, refl, sym, ◌∙◌, ap, subst, String, Bool, true, false, Option, none, some,
  arith, str_eq, str_eq_iff, Bool-cases, Option-cases, if◌then◌else◌,
}
use exchanger.Prelude.Dict.{Dict, get, put, remove as delete, get-put, get-remove}
use exchanger.Decimal.{Decimal, is_zero}
use exchanger.Decimal.Text.{to_string}
use exchanger.Matching.Types.{MatchingSide, buy, sell, ActiveOrder, MatchingEngine}
use exchanger.Matching.Book.{own_book, with_own_book, remove, remove_from_level}
use exchanger.Matching.Engine.{reduce, settle_maker}
use exchanger.Matching.Resting.{Listed, IsMap, remove_from_level-IsMap, Listed-remove_from_level}

-- An active order and its earlier form, which stands in the book where it does.
pub record IsRestOf (e e' : MatchingEngine) (id : String) (o : ActiveOrder) : Type 0 where
  pub before : ActiveOrder
  pub found : get id e.active_orders ≡ some before
  pub side : before.side ≡ o.side
  pub price : before.price ≡ o.price
  pub listed : (s : MatchingSide) → Listed id (own_book s e) → Listed id (own_book s e')

pub record Shrinks (e e' : MatchingEngine) : Type 0 where
  pub rest : (id : String) (o : ActiveOrder) → get id e'.active_orders ≡ some o → IsRestOf e e' id o
  pub maps :
      ((s : MatchingSide) → IsMap (own_book s e)) → (s : MatchingSide) → IsMap (own_book s e')

pub Shrinks-refl : (e : MatchingEngine) → Shrinks e e
Shrinks-refl e = record {
  rest = λ id o h. record { before = o; found = h; side = refl; price = refl; listed = λ s l. l };
  maps = λ m. m;
}

module _ (id : String) (e : MatchingEngine) where
  abbrev IsTakenFrom : MatchingSide → MatchingEngine → Type 0
  IsTakenFrom s e' =
      (own_book s e' ≡ own_book s e)
      ⊎ ((k : String) × (own_book s e' ≡ remove_from_level id k (own_book s e)))

  abbrev taken : Dict ActiveOrder → Option Decimal → MatchingSide → MatchingEngine
  taken orders none t = record e { active_orders = orders }
  taken orders (some p) t =
      with_own_book t (remove_from_level id (to_string p) (own_book t e))
        (record e { active_orders = orders })

  taken-IsTakenFrom :
      (orders : Dict ActiveOrder) (price : Option Decimal) (t s : MatchingSide)
      → IsTakenFrom s (taken orders price t)
  taken-IsTakenFrom orders none t buy = inl refl
  taken-IsTakenFrom orders none t sell = inl refl
  taken-IsTakenFrom orders (some p) buy buy = inr (to_string p, refl)
  taken-IsTakenFrom orders (some p) buy sell = inl refl
  taken-IsTakenFrom orders (some p) sell buy = inl refl
  taken-IsTakenFrom orders (some p) sell sell = inr (to_string p, refl)

module _ (order : ActiveOrder) (e : MatchingEngine) where
  remove-taken :
      remove order e
      ≡ taken order.order_id e (delete order.order_id e.active_orders) order.price order.side
  unfolding remove
  remove-taken = elim (Option-cases order.price) [
    | inl none_given ↦ ground arith
    | inr (p, given) ↦ ground arith
  ]

  remove-IsTakenFrom : (s : MatchingSide) → IsTakenFrom order.order_id e s (remove order e)
  remove-IsTakenFrom s = subst (IsTakenFrom order.order_id e s) (sym remove-taken) (
      taken-IsTakenFrom order.order_id e (delete order.order_id e.active_orders) order.price
        order.side s)

  pub remove-orders : (remove order e).active_orders ≡ delete order.order_id e.active_orders
  unfolding remove
  remove-orders = ground arith

  module _ (m : (s : MatchingSide) → IsMap (own_book s e)) where
    remove-Listed :
        (id : String) (s : MatchingSide)
        → id ≢ order.order_id
        → Listed id (own_book s e)
        → Listed id (own_book s (remove order e))
    remove-Listed id s ne h = elim (remove-IsTakenFrom s) [
      | inl same ↦ subst (Listed id) (sym same) h
      | inr (k, taken_from) ↦
          subst (Listed id) (sym taken_from)
            (Listed-remove_from_level order.order_id k (own_book s e) (m s) id ne h)
    ]

    remove-IsMap : (s : MatchingSide) → IsMap (own_book s (remove order e))
    remove-IsMap s = elim (remove-IsTakenFrom s) [
      | inl same ↦ subst IsMap (sym same) (m s)
      | inr (k, taken_from) ↦
          subst IsMap (sym taken_from)
            (remove_from_level-IsMap order.order_id k (own_book s e) (m s))
    ]

    pub remove-Shrinks : Shrinks e (remove order e)
    remove-Shrinks = record {
      rest = λ id o h.
          let left : get id (delete order.order_id e.active_orders) ≡ some o =
            ap (get id) (sym remove-orders) ∙ h in
          let kept : get id e.active_orders ≡ some o =
            ground (arith, get-remove order.order_id id e.active_orders) in
          let other : str_eq order.order_id id ≡ false =
            ground (arith, get-remove order.order_id id e.active_orders) in
          record {
            before = o;
            found = kept;
            side = refl;
            price = refl;
            listed =
                λ s l. remove-Listed id s (λ same. ground (arith, str_eq_iff order.order_id id)) l;
          };
      maps = λ m' s. remove-IsMap s;
    }

pub Shrinks-trans : (e f g : MatchingEngine) → Shrinks e f → Shrinks f g → Shrinks e g
Shrinks-trans e f g h k = record {
  rest = λ id o found.
      let late : IsRestOf f g id o = k.rest id o found in
      let early : IsRestOf e f id late.before = h.rest id late.before late.found in
      record {
        before = early.before;
        found = early.found;
        side = early.side ∙ late.side;
        price = early.price ∙ late.price;
        listed = λ s l. late.listed s (early.listed s l);
      };
  maps = λ m. k.maps (h.maps m);
}

if-Shrinks :
    (e : MatchingEngine) (b : Bool) (f g : MatchingEngine)
    → Shrinks e f
    → Shrinks e g
    → Shrinks e (if b then f else g)
if-Shrinks e true f g h k = h
if-Shrinks e false f g h k = k

pub own_book-orders :
    (s : MatchingSide) (orders : Dict ActiveOrder) (e : MatchingEngine)
    → own_book s (record e { active_orders = orders }) ≡ own_book s e
own_book-orders buy orders e = refl
own_book-orders sell orders e = refl

module _ (q : Decimal) (maker : ActiveOrder) (e : MatchingEngine) where
  abbrev reduced : MatchingEngine
  reduced = record e { active_orders = put maker.order_id (reduce q maker) e.active_orders }

  reduced-Shrinks : get maker.order_id e.active_orders ≡ some maker → Shrinks e reduced
  unfolding reduce
  reduced-Shrinks known = record {
    rest = λ id o h. elim (Bool-cases (str_eq maker.order_id id)) [
      | inl same ↦
          let own : o ≡ reduce q maker =
            ground (arith, get-put maker.order_id id (reduce q maker) e.active_orders) in
          record {
            before = maker;
            found = ground (arith, str_eq_iff maker.order_id id);
            side = ap (λ (t : ActiveOrder). t.side) (sym own);
            price = ap (λ (t : ActiveOrder). t.price) (sym own);
            listed = λ s l. subst (Listed id) (sym (own_book-orders s _ e)) l;
          }
      | inr other ↦ record {
        before = o;
        found = ground (arith, get-put maker.order_id id (reduce q maker) e.active_orders);
        side = refl;
        price = refl;
        listed = λ s l. subst (Listed id) (sym (own_book-orders s _ e)) l;
      }
    ];
    maps = λ m s. subst IsMap (sym (own_book-orders s _ e)) (m s);
  }

  settle_maker-if : settle_maker q maker e ≡ (
      if is_zero (reduce q maker).remaining_quantity
      then remove (reduce q maker) reduced
      else reduced)
  unfolding settle_maker
  settle_maker-if = refl

  pub settle_maker-Shrinks :
      ((s : MatchingSide) → IsMap (own_book s e))
      → get maker.order_id e.active_orders ≡ some maker
      → Shrinks e (settle_maker q maker e)
  settle_maker-Shrinks m known =
      let first : Shrinks e reduced = reduced-Shrinks known in
      subst (Shrinks e) (sym settle_maker-if) (
        if-Shrinks e (is_zero (reduce q maker).remaining_quantity) (remove (reduce q maker) reduced)
          reduced
          (Shrinks-trans e reduced (remove (reduce q maker) reduced) first
            (remove-Shrinks (reduce q maker) reduced (first.maps m)))
          first)
