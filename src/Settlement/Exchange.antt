-- ===== src/Settlement/Exchange.antt =====
-- What the settlement of a trade moves between the buyer and the seller
-- (trading/settlement/settlement.ts).
use exchanger.Prelude.{
  ◌≡◌, ◌∙◌, refl, sym, ap, String, concat, false, none, arith, inl, inr, str_eq, str_eq_iff,
}
use exchanger.Prelude.Dict.{get}
use exchanger.Prelude.Exec.{Result, ok, Result-cases}
use exchanger.Decimal.{multiply}
use exchanger.Ledger.State.{Ledger, OperationResult}
use exchanger.Ledger.Operations.{settle_reserved_transfer}
use exchanger.Settlement.Service.{
  TradeExecuted, SettlementApplied, SettlementError, SettlementService, on_ledger, build_plan,
}
use exchanger.Settlement.Operations.{settle_fee, settle_new, settle_trade_observed, settle_trade}
use exchanger.Settlement.Transfers.{Transfers, leg-Transfers}
use exchanger.Settlement.Leaves.{
  >>=-Leaves, pure-Leaves, append_event-Leaves, transfer-Leaves, settle_fee-Leaves, returned,
  from_ledger_ok,
}
use exchanger.Settlement.Parties.{
  buyer, seller, seller_base, buyer_base, buyer_quote, seller_quote, IsFeeless, IsApart, Exchanged,
  IsPlanned, planned, base_id, quote_id, base_id-quote_id,
}

other_way : (j k : String) → str_eq j k ≡ false → str_eq k j ≡ false
other_way j k h = ground (arith, str_eq_iff j k, str_eq_iff k j)

module _ (trade : TradeExecuted) (s : SettlementService) where
  abbrev after_base : Ledger
  after_base =
      (settle_reserved_transfer (base_id trade) (build_plan trade).seller_account_id
        (build_plan trade).buyer_account_id trade.base_asset_id trade.quantity s.ledger).1

  abbrev after_quote : Ledger
  after_quote =
      (settle_reserved_transfer (quote_id trade) (build_plan trade).buyer_account_id
        (build_plan trade).seller_account_id trade.quote_asset_id (build_plan trade).value
        after_base).1

  -- The two legs of a settlement that returns, and what comes after them
  record Legs : Type 0 where
    base : OperationResult
    quote : OperationResult
    base_done :
        (settle_reserved_transfer
          (base_id trade)
          (build_plan trade).seller_account_id
          (build_plan trade).buyer_account_id
          trade.base_asset_id
          trade.quantity
          s.ledger).0
        ≡ ok base
    quote_done :
        (settle_reserved_transfer
          (quote_id trade)
          (build_plan trade).buyer_account_id
          (build_plan trade).seller_account_id
          trade.quote_asset_id
          (build_plan trade).value
          after_base).0
        ≡ ok quote
    rest :
        (k : String)
        → IsFeeless trade k
        → get k (settle_new trade s).1.ledger.balances ≡ get k after_quote.balances

  settle_new-Legs : {r : SettlementApplied} → (settle_new trade s).0 ≡ ok r → Legs
  unfolding settle_new on_ledger
  settle_new-Legs {r} h =
      let plan = build_plan trade in
      let (base, d₁, e₁) =
        returned
          (on_ledger (
            settle_reserved_transfer (base_id trade) plan.seller_account_id plan.buyer_account_id
              trade.base_asset_id trade.quantity))
          _ s h in
      let h₁ =
        ap (λ (x : Result SettlementError SettlementApplied × SettlementService). x.0) (sym e₁)
        ∙ h in
      let (quote, d₂, e₂) =
        returned
          (on_ledger (
            settle_reserved_transfer (quote_id trade) plan.buyer_account_id plan.seller_account_id
              trade.quote_asset_id plan.value))
          _ (record s { ledger = after_base }) h₁ in
      let p = planned trade in
      let tail-Leaves = λ (k : String) (apart : IsFeeless trade k).
        >>=-Leaves k
          (settle_fee (concat (concat "settle-" trade.trade_id) "-buyer-fee") plan.buyer_account_id
            trade.fee_asset_id plan.buyer_fee)
          _ (settle_fee-Leaves k _ _ _ _ (rw (p.of_buyer, p.buyer_fee) apart.of_buyer))
          (λ buyer_fee.
            >>=-Leaves k
              (settle_fee (concat (concat "settle-" trade.trade_id) "-seller-fee")
                plan.seller_account_id trade.fee_asset_id plan.seller_fee)
              _ (settle_fee-Leaves k _ _ _ _ (rw (p.of_seller, p.seller_fee) apart.of_seller))
              (λ seller_fee.
                >>=-Leaves k _ _ (append_event-Leaves k _) (λ done. pure-Leaves k _))) in
      record {
        base = base;
        quote = quote;
        base_done = from_ledger_ok _ d₁;
        quote_done = from_ledger_ok _ d₂;
        rest = λ k apart.
            ap
              (λ (x : Result SettlementError SettlementApplied × SettlementService).
                get k x.1.ledger.balances)
              (e₁ ∙ e₂)
            ∙ (tail-Leaves k apart).leaves _;
      }

  module _ (apart : IsApart trade) (p : IsPlanned trade) where
    quote_leaves :
        (k : String)
        → str_eq (buyer_quote trade) k ≡ false
        → str_eq (seller_quote trade) k ≡ false
        → get k after_quote.balances ≡ get k after_base.balances
    unfolding on_ledger
    quote_leaves k giver taker =
        (transfer-Leaves k (quote_id trade) (build_plan trade).buyer_account_id
            (build_plan trade).seller_account_id trade.quote_asset_id (build_plan trade).value
            (rw p.of_buyer giver) (rw p.of_seller taker)).leaves
          (record s { ledger = after_base })

    base_leaves :
        (k : String)
        → str_eq (seller_base trade) k ≡ false
        → str_eq (buyer_base trade) k ≡ false
        → get k after_base.balances ≡ get k s.ledger.balances
    unfolding on_ledger
    base_leaves k giver taker =
        (transfer-Leaves k (base_id trade) (build_plan trade).seller_account_id
            (build_plan trade).buyer_account_id trade.base_asset_id trade.quantity
            (rw p.of_seller giver) (rw p.of_buyer taker)).leaves
          s

    exchanged :
        get (base_id trade) s.ledger.operations ≡ none
        → get (quote_id trade) s.ledger.operations ≡ none
        → Legs
        → Exchanged trade s.ledger.balances (settle_new trade s).1.ledger.balances
    exchanged new_base new_quote legs =
        let b : Transfers (base_id trade) (seller trade) (buyer trade) trade.base_asset_id
            trade.quantity s.ledger apart.bases after_base =
          leg-Transfers _ _ _ _ _ _ _ _ s.ledger apart.bases p.of_seller p.of_buyer refl new_base
            legs.base_done in
        let q : Transfers (quote_id trade) (buyer trade) (seller trade) trade.quote_asset_id
            (multiply trade.quantity trade.price) after_base apart.quotes after_quote =
          leg-Transfers _ _ _ _ _ _ _ _ after_base apart.quotes p.of_buyer p.of_seller p.value
            (b.others (quote_id trade) (base_id-quote_id trade) ∙ new_quote) legs.quote_done in
        record {
          sold = b.giver;
          bought = b.taker;
          paid = q.giver;
          earned = q.taker;
          had_sold = b.had_giver;
          had_bought = b.had_taker;
          had_paid = sym (base_leaves (buyer_quote trade) apart.giving apart.buyers) ∙ q.had_giver;
          had_earned =
              sym (base_leaves (seller_quote trade) apart.sellers apart.getting) ∙ q.had_taker;
          has_sold =
              legs.rest (seller_base trade) apart.feeless.0
              ∙ quote_leaves (seller_base trade) (other_way _ _ apart.giving)
                  (other_way _ _ apart.sellers)
              ∙ b.has_giver;
          has_bought =
              legs.rest (buyer_base trade) apart.feeless.1.0
              ∙ quote_leaves (buyer_base trade) (other_way _ _ apart.buyers)
                  (other_way _ _ apart.getting)
              ∙ b.has_taker;
          has_paid = legs.rest (buyer_quote trade) apart.feeless.1.1.0 ∙ q.has_giver;
          has_earned = legs.rest (seller_quote trade) apart.feeless.1.1.1.0 ∙ q.has_taker;
        }

settle_trade-new :
    (trade : TradeExecuted) (s : SettlementService) {r : SettlementApplied}
    → get trade.trade_id s.applied ≡ none
    → (settle_trade trade s).0 ≡ ok r
    → ((settle_new trade s).0 ≡ ok r)
      × ((settle_trade trade s).1.ledger ≡ (settle_new trade s).1.ledger)
unfolding settle_trade settle_trade_observed
settle_trade-new trade s {r} new h = elim (Result-cases (settle_new trade s).0) [
  | inl (e, thrown) ↦ absurd (ground (arith, thrown, h))
  | inr (a, done) ↦ ground (arith, done, h)
]

-- Where the settlement of a trade that is new to the service and to the ledger returns, the quantity has
-- gone from the seller's reserved base to the buyer's available base, and quantity times price from the
-- buyer's reserved quote to the seller's available quote, exactly; if the four balances are distinct, and
-- no fee that is not zero is paid from or to one of them. A buying maker is the buyer, a selling maker the
-- seller. New to the ledger means that the operations of these two legs are.
pub settle_trade-Exchanged :
    (trade : TradeExecuted) (s : SettlementService) {r : SettlementApplied}
    → get trade.trade_id s.applied ≡ none
    → get (base_id trade) s.ledger.operations ≡ none
    → get (quote_id trade) s.ledger.operations ≡ none
    → IsApart trade
    → (settle_trade trade s).0 ≡ ok r
    → Exchanged trade s.ledger.balances (settle_trade trade s).1.ledger.balances
settle_trade-Exchanged trade s new new_base new_quote apart h =
    let (done, same) = settle_trade-new trade s new h in
    rw same
      (exchanged trade s apart (planned trade) new_base new_quote (settle_new-Legs trade s done))
