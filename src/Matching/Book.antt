-- ===== src/Matching/Book.antt =====
-- The order book of trading/matching-engine/matching-engine.ts: which resting orders face a taker, in
-- which order, and how an order enters and leaves its price level.
use exchanger.Prelude.{
  String, Bool, true, false, not, List, [], ◌∷◌, ◌++◌, Option, none, some, Ordering, ltb, str_eq,
  if◌then◌else◌,
}
use exchanger.Prelude.Dict.{Dict, get, put, remove as delete, values}
use exchanger.Decimal.{Decimal, below, above, compare, subtract, is_zero, nought}
use exchanger.Decimal.Text.{to_string}
use exchanger.Matching.Types.{
  MatchingSide, buy, sell, limit, market, MatchingOrderType, ActiveOrder, MatchingEngine,
}

-- The orders that references stand for.
unfoldable pub deref : Dict ActiveOrder → List String → List ActiveOrder
deref orders [] = []
deref orders (id ∷ ids) =
    let rest = deref orders ids in elim (get id orders) [ some order ↦ order ∷ rest | none ↦ rest ]

unfoldable pub flat : List (List String) → List String
flat [] = []
flat (level ∷ levels) = level ++ flat levels

-- `this.asks` for a buyer, `this.bids` for a seller
abbrev pub opposite_book : MatchingSide → MatchingEngine → Dict (List String)
opposite_book buy e = e.asks
opposite_book sell e = e.bids

abbrev pub own_book : MatchingSide → MatchingEngine → Dict (List String)
own_book buy e = e.bids
own_book sell e = e.asks

abbrev pub with_own_book : MatchingSide → Dict (List String) → MatchingEngine → MatchingEngine
with_own_book buy book e = record e { bids = book }
with_own_book sell book e = record e { asks = book }

-- Whether the taker's price reaches the maker's: at least it for a buyer, at most it for a seller.
unfoldable pub reaches : MatchingSide → Decimal → Decimal → Bool
reaches buy price maker_price = not (below price maker_price)
reaches sell price maker_price = not (above price maker_price)

-- The filter of `sortedOpposite`: the taker's side, type and price, and the maker's price.
unfoldable pub faces : MatchingSide → MatchingOrderType → Option Decimal → Option Decimal → Bool
unfolding reaches
faces side market _ _ = true
faces side limit (some price) (some maker_price) = reaches side price maker_price
faces side limit _ _ = false

unfoldable pub is_eligible : ActiveOrder → ActiveOrder → Bool
unfolding faces
is_eligible order maker = faces order.side order.order_type order.price maker.price

unfoldable pub filter_eligible : ActiveOrder → List ActiveOrder → List ActiveOrder
unfolding is_eligible
filter_eligible order [] = []
filter_eligible order (maker ∷ makers) =
    let rest = filter_eligible order makers in
    if is_eligible order maker then maker ∷ rest else rest

-- The price comparison of the sort. Every order in the book has a price; without one the code throws.
unfoldable pub price_order : MatchingSide → Option Decimal → Option Decimal → Ordering
price_order buy (some left) (some right) = compare left right
price_order sell (some left) (some right) = compare right left
price_order _ _ _ = Ordering.eq

-- Whether the sort puts `left` strictly before `right`: a better price, or the same and earlier.
unfoldable pub goes_before : MatchingSide → ActiveOrder → ActiveOrder → Bool
unfolding price_order
goes_before side left right = elim (price_order side left.price right.price) [
  | Ordering.lt ↦ true
  | Ordering.gt ↦ false
  | Ordering.eq ↦ ltb left.sequence right.sequence
]

-- A stable insertion sort, as `Array.prototype.sort` is stable.
unfoldable pub insert_order : MatchingSide → ActiveOrder → List ActiveOrder → List ActiveOrder
unfolding goes_before
insert_order side x [] = x ∷ []
insert_order side x (y ∷ ys) =
    let rest = insert_order side x ys in if goes_before side y x then y ∷ rest else x ∷ y ∷ ys

unfoldable pub sort_orders : MatchingSide → List ActiveOrder → List ActiveOrder
unfolding insert_order
sort_orders side [] = []
sort_orders side (x ∷ xs) = insert_order side x (sort_orders side xs)

unfoldable pub sorted_opposite : MatchingEngine → ActiveOrder → List ActiveOrder
unfolding deref flat filter_eligible sort_orders
sorted_opposite e order =
    sort_orders order.side
      (filter_eligible order (deref e.active_orders (flat (values (opposite_book order.side e)))))

unfoldable pub best_match : MatchingEngine → ActiveOrder → Option ActiveOrder
unfolding sorted_opposite is_eligible
best_match e order = elim (sorted_opposite e order) [
  | [] ↦ none
  | maker ∷ rest ↦ if is_eligible order maker then some maker else none
]

-- The loop of `canFillFully` over the makers.
unfoldable pub fills_from : String → Decimal → List ActiveOrder → Bool
fills_from user_id remaining [] = is_zero remaining
fills_from user_id remaining (maker ∷ makers) =
    let left =
      if below remaining maker.remaining_quantity
      then nought
      else subtract remaining maker.remaining_quantity in
    let rest = fills_from user_id left makers in
    if str_eq maker.user_id user_id then false else if is_zero left then true else rest

unfoldable pub can_fill_fully : MatchingEngine → ActiveOrder → Bool
unfolding sorted_opposite fills_from
can_fill_fully e order = fills_from order.user_id order.remaining_quantity (sorted_opposite e order)

abbrev pub level_or_none : Option (List String) → List String
level_or_none none = []
level_or_none (some level) = level

-- `addToBook` of an order with a price
unfoldable pub add_to_book : ActiveOrder → Decimal → MatchingEngine → MatchingEngine
add_to_book order price e =
    let book = own_book order.side e in
    let key = to_string price in
    with_own_book order.side (put key (level_or_none (get key book) ++ order.order_id ∷ []) book) e

-- `level.filter(({ orderId }) => orderId !== order.orderId)`
unfoldable pub without : String → List String → List String
without id [] = []
without id (x ∷ xs) = let rest = without id xs in if str_eq x id then rest else x ∷ rest

unfoldable pub remove_from_level : String → String → Dict (List String) → Dict (List String)
unfolding without
remove_from_level id key book = elim (without id (level_or_none (get key book))) [
  | [] ↦ delete key book
  | x ∷ xs ↦ put key (x ∷ xs) book
]

unfoldable pub remove : ActiveOrder → MatchingEngine → MatchingEngine
unfolding remove_from_level
remove order e =
    let deleted : MatchingEngine = record e {
      active_orders = delete order.order_id e.active_orders;
    } in
    elim order.price [
      | none ↦ deleted
      | some price ↦
          with_own_book order.side
            (remove_from_level order.order_id (to_string price) (own_book order.side e)) deleted
    ]
