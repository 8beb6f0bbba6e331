-- ===== src/Projections/Pages.antt =====
-- The pages of `getOrders`, `getTrades` and `getBalances` in projections/application/projection.store.ts.
use exchanger.Prelude.{
  includes, ℕ, zero, suc, ◌+◌, ◌-◌, ◌/◌, ◌%◌, ◌≡◌, ◌≤◌, ◌<◌, refl, sym, ap, ◌∙◌, inl, inr, String,
  false, ◌||◌, List, [], ◌∷◌, ◌++◌, Option, none, some, arith, length, length-take, length-drop,
  take, drop, take-append-drop, show, ltb, min, Bool-cases, str_eq, if◌then◌else◌,
}
use mathlib.Core.List.{append-nil}
use exchanger.Prelude.Exec.{Result, ok, err}
use exchanger.Decimal.Parse.{span_digits, digits_value}
use exchanger.Decimal.Digits.{
  prepend, digits_from, show_from-prepend, digits_from-AreDigits, digits_value-digits_from,
  span_digits-prepend, digit_text-append, AreDigits,
}
use exchanger.Projections.Events.{OrderView, TradeView, BalanceView}
use exchanger.Projections.Store.{ProjectionStore}
use exchanger.Prelude.Dict.{values}

pub record ProjectionPage {ℓ} (A : Type ℓ) : Type ℓ where
  pub items : List A
  pub next_cursor : Option String

pub data PageError : Type 0 where
  pagination_invalid : PageError

-- `cursor ? Number(cursor) : 0` of a cursor that passes `/^\d+$/`; `none` where it does not.
abbrev pub digits_only : List ℕ × String → Option ℕ
digits_only ([], rest) = none
digits_only (d ∷ ds, String.[]) = some (digits_value 0 (d ∷ ds))
digits_only (d ∷ ds, String.◌∷◌ _ _) = none

unfoldable pub cursor_start : Option String → Option ℕ
unfolding span_digits
cursor_start none = some 0
cursor_start (some String.[]) = some 0
cursor_start (some (String.◌∷◌ c s)) = digits_only (span_digits (String.◌∷◌ c s))

module _ {A : Type 0} where
  abbrev pub page_from : List A → ℕ → Option ℕ → Result PageError (ProjectionPage A)
  page_from items limit none = err pagination_invalid
  page_from items limit (some start) =
      let page = take limit (drop start items) in
      ok (record {
        items = page;
        next_cursor =
            if ltb (start + length page) (length items)
            then some (show (start + length page))
            else none;
      })

  -- The limit is an integer by its type.
  unfoldable pub page : List A → ℕ → Option String → Result PageError (ProjectionPage A)
  unfolding cursor_start
  page items limit cursor =
      if ltb limit 1 || ltb 100 limit
      then err pagination_invalid
      else page_from items limit (cursor_start cursor)

  abbrev pub continued : Option String → (Option String → Option (List A)) → Option (List A)
  continued none next = some []
  continued (some cursor) next = next (some cursor)

  abbrev pub after_page : List A → Option (List A) → Option (List A)
  after_page items none = none
  after_page items (some rest) = some (items ++ rest)

  -- A client that follows the cursors to the end of the list. Where a page is refused, or the
  -- cursors go on for more pages than that, it has no list.
  unfoldable pub read_pages : List A → ℕ → ℕ → Option String → Option (List A)
  read_pages items limit zero cursor = none
  read_pages items limit (suc fuel) cursor = elim (page items limit cursor) [
    | err _ ↦ none
    | ok p ↦ after_page p.items (continued p.next_cursor (read_pages items limit fuel))
  ]

-- `[...this.orders.values()].filter((item) => item.userId === userId)`
unfoldable pub orders_of : String → List OrderView → List OrderView
orders_of user_id [] = []
orders_of user_id (item ∷ items) =
    let rest = orders_of user_id items in if str_eq item.user_id user_id then item ∷ rest else rest

unfoldable pub get_orders :
    String → ℕ → Option String → ProjectionStore → Result PageError (ProjectionPage OrderView)
unfolding orders_of
get_orders user_id limit cursor store = page (orders_of user_id (values store.orders)) limit cursor

unfoldable pub trades_of : String → List TradeView → List TradeView
unfolding includes
trades_of user_id [] = []
trades_of user_id (item ∷ items) =
    let rest = trades_of user_id items in
    if includes user_id item.user_ids then item ∷ rest else rest

unfoldable pub get_trades :
    String → ℕ → Option String → ProjectionStore → Result PageError (ProjectionPage TradeView)
unfolding trades_of
get_trades user_id limit cursor store = page (trades_of user_id (values store.trades)) limit cursor

unfoldable pub balances_of : String → List BalanceView → List BalanceView
balances_of user_id [] = []
balances_of user_id (item ∷ items) =
    let rest = balances_of user_id items in
    if str_eq item.account_id user_id then item ∷ rest else rest

unfoldable pub get_balances :
    String → ℕ → Option String → ProjectionStore → Result PageError (ProjectionPage BalanceView)
unfolding balances_of
get_balances user_id limit cursor store =
    page (balances_of user_id (values store.balances)) limit cursor

length-digits_from : (f n : ℕ) (acc : List ℕ) → 0 < f → 0 < length (digits_from f n acc)
unfolding digits_from
length-digits_from zero n acc h = absurd (omega (arith, h))
length-digits_from (suc zero) n acc h = ground arith
length-digits_from (suc (suc f)) n acc h =
    ground (arith, length-digits_from (suc f) (n / 10) (n % 10 ∷ acc))

digits_only-whole : (ds : List ℕ) → 0 < length ds → digits_only (ds, "") ≡ some (digits_value 0 ds)
digits_only-whole [] h = absurd (omega (arith, h))
digits_only-whole (d ∷ ds) h = refl

cursor_start-prepend :
    (ds : List ℕ)
    → 0 < length ds
    → AreDigits ds
    → cursor_start (some (prepend ds "")) ≡ some (digits_value 0 ds)
unfolding cursor_start
cursor_start-prepend [] h k = absurd (omega (arith, h))
cursor_start-prepend (d ∷ ds) h k =
    let e = digit_text-append d (prepend ds "") k.0 in
    rw e (
      ap digits_only (ap span_digits (sym e) ∙ span_digits-prepend (d ∷ ds) "" k tt)
      ∙ digits_only-whole (d ∷ ds) h)

-- A cursor is read as the number it was written from.
cursor_start-show : (n : ℕ) → cursor_start (some (show n)) ≡ some n
unfolding show
cursor_start-show n =
    let ds = digits_from (suc n) n [] in
    rw (show_from-prepend (suc n) n [] "") (
      cursor_start-prepend ds (length-digits_from (suc n) n [] (omega arith))
        (digits_from-AreDigits (suc n) n [] tt)
      ∙ ap some (digits_value-digits_from (suc n) n [] (omega arith)))

module _ {A : Type 0} where
  drop-nil : (k : ℕ) → drop {A = A} k [] ≡ []
  drop-nil zero = refl
  drop-nil (suc k) = refl

  drop-drop_add : (n k : ℕ) (xs : List A) → drop k (drop n xs) ≡ drop (n + k) xs
  drop-drop_add zero k xs = ap (λ j. drop j xs) (omega arith)
  drop-drop_add (suc n) k [] = let e : suc n + k ≡ suc (n + k) = omega arith in rw e (drop-nil k)
  drop-drop_add (suc n) k (x ∷ xs) =
      let e : suc n + k ≡ suc (n + k) = omega arith in rw e (drop-drop_add n k xs)

  take_long : (n : ℕ) (xs : List A) → length xs ≤ n → take n xs ≡ xs
  take_long zero [] h = refl
  take_long zero (x ∷ xs) h = absurd (omega (arith, h))
  take_long (suc n) [] h = refl
  take_long (suc n) (x ∷ xs) h = ap (λ t. x ∷ t) (take_long n xs (omega (arith, h)))

  read_pages-drop :
      (items : List A) (limit fuel : ℕ) (cursor : Option String) (start : ℕ)
      → 1 ≤ limit
      → limit ≤ 100
      → cursor_start cursor ≡ some start
      → length items - start < fuel
      → read_pages items limit fuel cursor ≡ some (drop start items)
  unfolding read_pages page
  read_pages-drop items limit zero cursor start low high c h = absurd (omega (arith, h))
  read_pages-drop items limit (suc fuel) cursor start low high c h =
      let n = length (take limit (drop start items)) in
      let long : n ≡ min limit (length items - start) =
        length-take limit (drop start items) ∙ ap (min limit) (length-drop start items) in
      let valid : (ltb limit 1 || ltb 100 limit) ≡ false = ground arith in
      elim (Bool-cases (ltb (start + n) (length items))) [
        | inl more ↦
            let rest =
              read_pages-drop items limit fuel (some (show (start + n))) (start + n) low high
                (cursor_start-show (start + n)) (ground (arith, long, more, h)) in
            let full : n ≡ limit = ground (arith, long, more) in
            rw (valid, c, more, read_pages, page)
              (ap (after_page (take limit (drop start items))) rest
                ∙ ap some (
                    ap (λ t. take limit (drop start items) ++ t)
                      (ap (λ k. drop (start + k) items) full
                        ∙ sym (drop-drop_add start limit items))
                    ∙ take-append-drop limit (drop start items)))
        | inr last ↦
            rw (valid, c, last, read_pages, page)
              (ap some (
                append-nil (take limit (drop start items))
                ∙ take_long limit (drop start items)
                    (ground (arith, long, last, length-drop start items))))
      ]

  -- A client that follows the cursors of any list, with any limit from 1 to 100, is refused no page
  -- and comes to the end within one page for each item and one more, with every item exactly once and
  -- in order.
  pub read_pages-all :
      (items : List A) (limit fuel : ℕ)
      → 1 ≤ limit
      → limit ≤ 100
      → length items < fuel
      → read_pages items limit fuel none ≡ some items
  read_pages-all items limit fuel low high h =
      read_pages-drop items limit fuel none 0 low high (unfold cursor_start in refl)
        (omega (arith, h))
