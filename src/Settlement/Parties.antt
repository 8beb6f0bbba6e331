-- ===== src/Settlement/Parties.antt =====
-- The buyer and the seller of a trade in trading/settlement/settlement.ts and in its
-- policies/settlement-posting.policy.ts, and the balances that they exchange.
use text.Mathlib.TextLemmas.{append_cancel_left}
use mathlib.Core.Bool.{true≢false}
use exchanger.Prelude.{
  ◌≡◌, ◌≢◌, ◌⊎◌, refl, sym, String, concat, true, false, [], ◌∷◌, some, inl, inr, Bool-cases,
  str_eq, str_eq_iff,
}
use exchanger.Prelude.Dict.{Dict, get}
use exchanger.Prelude.Dict.Each.{All}
use exchanger.Decimal.{Decimal, add, subtract, multiply, is_zero}
use exchanger.Ledger.Balance.{Balance}
use exchanger.Ledger.State.{key}
use exchanger.Matching.Types.{MatchingSide, buy, sell}
use exchanger.Settlement.Service.{TradeExecuted, build_plan}

-- The buyer and the seller of a trade, by the side of its maker.
abbrev pub by_side : {A : Type 0} → MatchingSide → A → A → A
by_side buy maker taker = maker
by_side sell maker taker = taker

module _ (trade : TradeExecuted) where
  abbrev pub buyer : String
  buyer = by_side trade.maker_side trade.maker_account_id trade.taker_account_id

  abbrev pub seller : String
  seller = by_side trade.maker_side trade.taker_account_id trade.maker_account_id

  abbrev pub seller_base : String
  seller_base = key seller trade.base_asset_id

  abbrev pub buyer_base : String
  buyer_base = key buyer trade.base_asset_id

  abbrev pub buyer_quote : String
  buyer_quote = key buyer trade.quote_asset_id

  abbrev pub seller_quote : String
  seller_quote = key seller trade.quote_asset_id

  -- No fee that is not zero is paid from or to this balance.
  abbrev pub ApartFromFee : String → Decimal → String → Type 0
  ApartFromFee account fee k =
      (is_zero fee ≡ true)
      ⊎ ((str_eq (key account trade.fee_asset_id) k ≡ false)
          × (str_eq (key (concat "fees-" trade.fee_asset_id) trade.fee_asset_id) k ≡ false))

  pub record IsFeeless (k : String) : Type 0 where
    pub of_buyer : ApartFromFee buyer (by_side trade.maker_side trade.maker_fee trade.taker_fee) k
    pub of_seller : ApartFromFee seller (by_side trade.maker_side trade.taker_fee trade.maker_fee) k

  -- The four balances of the exchange are distinct, and no fee touches them.
  pub record IsApart : Type 0 where
    pub bases : str_eq seller_base buyer_base ≡ false
    pub quotes : str_eq buyer_quote seller_quote ≡ false
    pub sellers : str_eq seller_base seller_quote ≡ false
    pub buyers : str_eq buyer_base buyer_quote ≡ false
    pub giving : str_eq seller_base buyer_quote ≡ false
    pub getting : str_eq buyer_base seller_quote ≡ false
    pub feeless : All IsFeeless (seller_base ∷ buyer_base ∷ buyer_quote ∷ seller_quote ∷ [])

  -- The quantity went from the seller's reserved base to the buyer's available base, and the price of it
  -- from the buyer's reserved quote to the seller's available quote.
  pub record Exchanged (before after : Dict Balance) : Type 0 where
    pub sold : Balance
    pub bought : Balance
    pub paid : Balance
    pub earned : Balance
    pub had_sold : get seller_base before ≡ some sold
    pub had_bought : get buyer_base before ≡ some bought
    pub had_paid : get buyer_quote before ≡ some paid
    pub had_earned : get seller_quote before ≡ some earned
    pub has_sold :
        get seller_base after
        ≡ some (record sold { reserved = subtract sold.reserved trade.quantity })
    pub has_bought :
        get buyer_base after
        ≡ some (record bought { available = add bought.available trade.quantity })
    pub has_paid :
        get buyer_quote after
        ≡ some (record paid {
          reserved = subtract paid.reserved (multiply trade.quantity trade.price);
        })
    pub has_earned :
        get seller_quote after
        ≡ some (record earned {
          available = add earned.available (multiply trade.quantity trade.price);
        })

side_cases : (side : MatchingSide) → (side ≡ buy) ⊎ (side ≡ sell)
side_cases buy = inl refl
side_cases sell = inr refl

-- The plan, by the buyer and the seller
pub record IsPlanned (trade : TradeExecuted) : Type 0 where
  pub of_buyer : (build_plan trade).buyer_account_id ≡ buyer trade
  pub of_seller : (build_plan trade).seller_account_id ≡ seller trade
  pub buyer_fee :
      (build_plan trade).buyer_fee ≡ by_side trade.maker_side trade.maker_fee trade.taker_fee
  pub seller_fee :
      (build_plan trade).seller_fee ≡ by_side trade.maker_side trade.taker_fee trade.maker_fee
  pub value : (build_plan trade).value ≡ multiply trade.quantity trade.price

pub planned : (trade : TradeExecuted) → IsPlanned trade
unfolding build_plan
planned trade = elim (side_cases trade.maker_side) [
  | inl h ↦ record {
    of_buyer = rw (h, build_plan) refl;
    of_seller = rw (h, build_plan) refl;
    buyer_fee = rw (h, build_plan) refl;
    seller_fee = rw (h, build_plan) refl;
    value = rw (h, build_plan) refl;
  }
  | inr h ↦ record {
    of_buyer = rw (h, build_plan) refl;
    of_seller = rw (h, build_plan) refl;
    buyer_fee = rw (h, build_plan) refl;
    seller_fee = rw (h, build_plan) refl;
    value = rw (h, build_plan) refl;
  }
]

-- The operations of the two legs
abbrev pub base_id : TradeExecuted → String
base_id trade = concat (concat "settle-" trade.trade_id) "-base"

abbrev pub quote_id : TradeExecuted → String
quote_id trade = concat (concat "settle-" trade.trade_id) "-quote"

different_tails : ◌≢◌ {A = String} "-base" "-quote"
different_tails h = true≢false (sym ((str_eq_iff "-base" "-quote").1 h))

pub base_id-quote_id : (trade : TradeExecuted) → str_eq (base_id trade) (quote_id trade) ≡ false
base_id-quote_id trade = elim (Bool-cases (str_eq (base_id trade) (quote_id trade))) [
  | inl same ↦
      let tails : "-base" ≡ "-quote" =
        append_cancel_left (concat "settle-" trade.trade_id) "-base" "-quote"
          ((str_eq_iff (base_id trade) (quote_id trade)).0 same) in
      absurd (different_tails tails)
  | inr other ↦ other
]
