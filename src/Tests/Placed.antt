-- ===== src/Tests/Placed.antt =====
-- An order of the template's node until its reward, and one that is signed by another key.
use on_demand.Prelude.{ℕ, ◌≡◌, refl, true, none, some, [], ◌∷◌, ok, arith, shr32, shl32}
use mathlib.Core.List.{Memᴰ}
use mathlib.Core.List.Memᴰ
use on_demand.Primitives.{OrderInherentData}
use on_demand.Relay.{Header}
use on_demand.Inherent.{inherent_of, provide_inherent_data, create_inherent, is_inherent}
use on_demand.Pallet.State.{Call, unsigned}
use on_demand.Pallet.Calls.{slot_at, dispatch, on_finalize, runtime_api}
use on_demand.Pallet.Criteria
use on_demand.Service.Config.{current_slot, order_placer}
use on_demand.Service.Chain.{
  find_pool, on_demand_cores_available, is_parathread, get_spot_price, CoreAssignment,
}
use on_demand.Service.Submit.{Order, submit_order, new, sign}
use on_demand.Service.Orders.{Node, Orders, place_order, place_in_slot}
use on_demand.Service.Tasks.{new_best_head, validation_data, run_on_demand_task}
use on_demand.Template.Node.{create_inherent_data_providers, should_place_order, sum_fees}
use on_demand.Template.Api.{ApiTypes, ApiLibraries}
use on_demand.Template.Rewarding.{Pallets, types, config}
use on_demand.Template.Runtime.{on_demand_order_placed}
use on_demand.Template.Flow.{IsSeen, started, paid_state}
use on_demand.Template.Placed.{Client, on_demand_config, IsServed}
use on_demand.Template.Served.{two_turns, run_on_demand_task_rewards}
use on_demand.Template.Signers.{IsOnly, other_key_unpaid}
use on_demand.Tests.Service.{node, head, the_order, first_record}
use on_demand.Tests.Pallet.{container}
use on_demand.Tests.Presets.{pallets, runtime_state, relay_events}

abbrev pub api_types : ApiTypes
api_types = record {
  Block = ℕ;
  Header = ℕ;
  Extrinsic = ℕ;
  RuntimeCall = ℕ;
  InherentMap = ℕ;
  CheckInherentsResult = ℕ;
  ExtrinsicInclusionMode = ℕ;
  ApplyExtrinsicResult = ℕ;
  TransactionSource = ℕ;
  TransactionValidity = ℕ;
  DispatchInfo = ℕ;
  FeeDetails = ℕ;
  CollationInfo = ℕ;
}

abbrev pub libraries : {p : Pallets} → ApiLibraries p api_types
libraries = record {
  can_build_upon = λ system hash slot. true;
  execute_block = λ block s. some (s, tt);
  initialize_block = λ header s. some (s, 0);
  apply_extrinsic = λ extrinsic s. some (s, 0);
  finalize_block = λ s. some (s, 0);
  validate_transaction = λ source tx hash s. some (s, 0);
  offchain_worker = λ header s. some (s, tt);
  metadata = [];
  metadata_at_version = λ version. none;
  metadata_versions = [];
  create_extrinsics = λ inherents s. [];
  check_extrinsics = λ inherents block s. 0;
  generate_session_keys = λ seed. [];
  decode_into_raw_public_keys = λ encoded. none;
  account_nonce = λ system account. 0;
  query_info = λ system tx len. 0;
  query_fee_details = λ system tx len. tx;
  query_call_info = λ system k len. 0;
  query_call_fee_details = λ system k len. k;
  weight_to_fee = λ weight. 0;
  length_to_fee = λ length. length;
  collect_collation_info = λ system header. 0;
  build_state = λ json s. some (s, tt);
  get_preset = λ id preset. none;
}

abbrev client : Client {p = pallets} libraries
client = record {
  state_at = λ hash. some (on_finalize (config pallets) runtime_state);
  best_hash = 500;
  decode_head = λ raw. some 500;
  encoded_length = λ tx. 100;
  final_fee = λ details. details;
}

abbrev a_node : Node ℕ ℕ
a_node = node CoreAssignment.other

placed :
    place_order (on_demand_config libraries client (7 ∷ 8 ∷ []) a_node) head first_record
    ≡ ok (some (3, the_order))
unfolding place_order place_in_slot is_parathread get_spot_price on_demand_cores_available find_pool
    order_placer submit_order new sign current_slot shr32 shl32 runtime_api on_finalize
    should_place_order sum_fees
placed = refl

abbrev header : Header
header = record { hash = 77; number = 13; state_root = 9 }

served :
    IsServed libraries container client (7 ∷ 8 ∷ []) a_node runtime_state 5 head header 3 the_order
unfolding slot_at shr32 Criteria.should_place_order
served = record {
  para_head = 500;
  decoded = refl;
  parent = refl;
  same_slot = refl;
  unpaid = omega arith;
  criteria_met = refl;
  own_keys = λ key held. ground arith;
}

abbrev seen : IsSeen pallets container a_node.relay_chain 2000 77 header 77 30 42
seen = record {
  known = refl;
  proved = refl;
  state_proof = 77;
  proof_valid = refl;
  relay_events = relay_events;
  read = refl;
  ordered = Memᴰ.tail (Memᴰ.head refl);
}

abbrev inherent : OrderInherentData ℕ
inherent = inherent_of {StorageProof = ℕ} 77 header 2000

put_in : provide_inherent_data (types pallets) container inherent none ≡ some (some inherent)
unfolding provide_inherent_data
put_in = refl

abbrev best : Header
best = record { hash = 77; number = 13; state_root = 9 }

abbrev orders : Orders
orders = record { order_record = first_record; placed = [] }

found : new_best_head (on_demand_config libraries client (7 ∷ 8 ∷ []) a_node) best ≡ some head
unfolding new_best_head validation_data
found = refl

run_on_demand_task_rewards_example :
    let turns = two_turns (on_demand_config libraries client (7 ∷ 8 ∷ []) a_node) best 77 30 in
    let order_record = (run_on_demand_task turns orders).order_record in
    let call = Call.create_order inherent in
    (create_inherent_data_providers a_node.relay_chain 2000 order_record ≡ ok inherent)
    × (create_inherent (types pallets) container (some inherent) ≡ ok (some call))
    × (is_inherent (types pallets) container call ≡ true)
    × (dispatch
          (config pallets)
          unsigned
          call
          (started pallets container a_node.relay_chain 2000 runtime_state 5)
        ≡ (
          paid_state pallets container a_node.relay_chain 2000 runtime_state header 42 1000000005,
          ok tt,
        ))
run_on_demand_task_rewards_example =
    run_on_demand_task_rewards libraries container client (7 ∷ 8 ∷ []) a_node runtime_state 5 best
      head orders 3 the_order none (some inherent) 77 header 77 30 1000000005 found placed served
      seen put_in refl

-- The same node with a second key before the one whose turn it is.
abbrev two_keys : Node ℕ ℕ
two_keys = record a_node {
  keystore = record a_node.keystore { sr25519_public_keys = 40 ∷ 42 ∷ [] };
}

abbrev other_order : Order
other_order = record the_order { signer = 40 }

abbrev other_pallets : Pallets
other_pallets = record pallets {
  reader = record { read_entry = λ proof key. some (on_demand_order_placed 2000 30 40 ∷ []) };
}

placed_by_other : place_order two_keys head first_record ≡ ok (some (3, other_order))
unfolding place_order place_in_slot is_parathread get_spot_price on_demand_cores_available find_pool
    order_placer submit_order new sign current_slot shr32 shl32
placed_by_other = refl

turn :
    order_placer
      (other_pallets.aura_authorities runtime_state.system)
      13
      (runtime_api (on_finalize (config other_pallets) runtime_state)).slot_width
    ≡ ok 42
unfolding order_placer current_slot shr32 runtime_api on_finalize
turn = refl

only_event :
    (price who : ℕ)
    → Memᴰ (on_demand_order_placed 2000 price who) (on_demand_order_placed 2000 30 40 ∷ [])
    → who ≡ 40
only_event price who (Memᴰ.head e) = cc
only_event price who (Memᴰ.tail m) = absurd (Memᴰ.not-nil m)

abbrev only : IsOnly other_pallets container two_keys header 77 40
only = record {
  state_proof = 77;
  proof_valid = refl;
  relay_events = on_demand_order_placed 2000 30 40 ∷ [];
  read = refl;
  only = only_event;
}

other_key_unpaid_example :
    (◌≡◌ {A = ℕ} 40 40)
    × ((dispatch
          (config other_pallets)
          unsigned
          (Call.create_order inherent)
          (started other_pallets container two_keys.relay_chain 2000 runtime_state 5)).0
        ≡ started other_pallets container two_keys.relay_chain 2000 runtime_state 5)
other_key_unpaid_example =
    other_key_unpaid other_pallets container two_keys runtime_state 5 head first_record 3
      other_order 40 42 (42 ∷ []) 42 header 77 placed_by_other refl turn refl (λ e. cc) only
