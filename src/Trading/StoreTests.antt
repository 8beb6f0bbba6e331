-- ===== src/Trading/StoreTests.antt =====
-- The theorems of the instruments and of the leases at concrete inputs.
use exchanger.Prelude.{
  false, ◌≤◌, ℕ, ◌+◌, ◌≡◌, refl, String, Bool, not, List, [], ◌∷◌, none, some, arith, str_eq,
  length,
}
use exchanger.Prelude.Dict.{get}
use exchanger.Prelude.Int.{pos}
use exchanger.Decimal.{Decimal}
use exchanger.Trading.Instruments.{
  InstrumentRules, Instrument, InstrumentStatus, get_rules_at, add_rules, latest, applicable,
}
use exchanger.Trading.Rules.{IsHistory}
use exchanger.Trading.Leases.{PartitionLease, MemorySequencerStore}
use exchanger.Trading.Fencing.{LeaseCall, SamePartition, perform_all, perform_all-SamePartition}
use exchanger.Trading.StateMachine.{}
use exchanger.Trading.Replay.{}
use exchanger.Trading.Reachability.{}
use exchanger.Trading.EventLog.{}
use exchanger.Trading.Delivery.{}

abbrev hundredth : Decimal
hundredth = record { coefficient = pos 1; scale = 2 }

abbrev hundred : Decimal
hundred = record { coefficient = pos 100; scale = 0 }

abbrev rules : String → ℕ → InstrumentRules
rules version effective_at = record {
  version = version;
  effective_at = effective_at;
  tick_size = hundredth;
  lot_size = hundredth;
  min_quantity = hundredth;
  max_quantity = hundred;
  price_band = record { lowest = hundredth; highest = hundred };
  fee_policy_version = "fees-1";
  limits = record { max_order_quantity = hundred; max_open_orders = 5; max_notional = hundred };
}

abbrev instrument : Instrument
instrument = record {
  id = "BTC-USD";
  base_asset_id = "BTC";
  quote_asset_id = "USD";
  status = InstrumentStatus.active;
  rules = rules "v1" 10 ∷ rules "v2" 20 ∷ [];
}

instrument-IsHistory : IsHistory instrument.rules
unfolding exchanger.Trading.Instruments.are_valid exchanger.Decimal.is_negative
    exchanger.Decimal.is_zero exchanger.Decimal.compare exchanger.Prelude.Int.◌*ℤ◌
    exchanger.Prelude.is_blank
instrument-IsHistory = (refl, (omega arith, tt), (refl, tt, tt))

abbrev lease : String → PartitionLease
lease owner_id = record {
  instrument_id = "BTC-USD";
  owner_id = owner_id;
  fencing_epoch = 1;
  lease_until = 50;
  recovery_required = false;
}

abbrev store : MemorySequencerStore ℕ
store = record {
  leases = ("BTC-USD", lease "node-1") ∷ [];
  sequences = ("BTC-USD", 4) ∷ [];
  snapshots = [];
}

abbrev intrusions : List (LeaseCall ℕ)
intrusions =
    LeaseCall.acquires "BTC-USD" "node-2" 10 40
    ∷ LeaseCall.reserves (lease "node-2")
    ∷ LeaseCall.shuts_down (lease "node-2")
    ∷ []

perform_all-SamePartition_example : SamePartition "BTC-USD" store (perform_all intrusions store)
perform_all-SamePartition_example =
    perform_all-SamePartition intrusions "BTC-USD" store {held = lease "node-1"}
      (unfold get in refl)
      (
        record { other = refl; valid = omega arith },
        (record { other = refl; valid = tt }, (record { other = refl; valid = tt }, tt)),
      )
