-- ===== src/Tests/Apart.antt =====
-- A pool that pays the threshold, and a block that does not yet.
use on_demand.Prelude.{ℕ, ◌+◌, ◌*◌, ◌<◌, ◌≡◌, refl, true, none, some, List, [], ◌∷◌, arith}
use on_demand.Primitives.{OrderInherentData}
use on_demand.Inherent.{inherent_of}
use on_demand.Pallet.State.{State, Call, unsigned}
use on_demand.Pallet.Calls.{dispatch}
use on_demand.Pallet.Weights.{from_parts}
use on_demand.Template.Fees.{eval_weight, runtime_fees, polynomial}
use on_demand.Template.Constants.{extrinsic_base_weight}
use on_demand.Template.Node.{should_place_order}
use on_demand.Template.Rewarding.{Pallets, types, config}
use on_demand.Template.Placed.{Client, criteria_client}
use on_demand.Template.Apart.{pool_unpaid}
use on_demand.Tests.Fees.{fee_arithmetic, constants, max_block, base_fits}
use on_demand.Tests.Presets.{pallets}
use on_demand.Tests.Placed.{libraries}

abbrev costly : Pallets
costly = record pallets {
  fees = λ system.
      runtime_fees fee_arithmetic constants max_block (from_parts 250000000 0) (λ fee. fee)
        (some 40);
}

-- The state asks for half a milli unit.
abbrev asking : State (types costly)
asking = record {
  authorities = 41 ∷ 42 ∷ [];
  slot_width = 2;
  threshold_parameter = 500000000;
  bulk_mode = none;
  previous_slot = 1;
  events = [];
  system = 5;
}

abbrev client : Client {p = costly} libraries
client = record {
  state_at = λ hash. some asking;
  best_hash = 500;
  decode_head = λ raw. some 500;
  encoded_length = λ tx. 100;
  final_fee = λ details. details;
}

-- Each transaction's fee is its number.
abbrev ready : List ℕ
ready = 300000000 ∷ 300000000 ∷ []

abbrev inherent : OrderInherentData ℕ
inherent =
    inherent_of {StorageProof = ℕ} 77 (record { hash = 77; number = 13; state_root = 77 }) 2000

below :
    1000000 + eval_weight fee_arithmetic constants (from_parts 250000000 0) + 10000000 * 40
    < 500000000
unfolding eval_weight polynomial extrinsic_base_weight
below = omega arith

pool_unpaid_example :
    (should_place_order (criteria_client libraries client) ready ≡ true)
    × ((dispatch (config costly) unsigned (Call.create_order inherent) asking).0 ≡ asking)
pool_unpaid_example =
    pool_unpaid libraries client fee_arithmetic constants refl max_block base_fits ready ready
      asking asking (from_parts 250000000 0) (λ fee. fee) 40 inherent refl (omega arith)
      (omega arith) refl (omega arith) refl refl below
