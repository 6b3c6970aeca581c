-- ===== src/Tests/Service.antt =====
-- Runs of the order service.
use Prim.Native.Nat.{max}
use on_demand.Prelude.{
  min, ℕ, ◌+◌, ◌*◌, ◌^◌, ◌≤◌, ◌<◌, ◌≡◌, ◌⊎◌, ◌↔◌, refl, true, false, none, some, List, [], ◌∷◌, map,
  ok, arith, shr32, shl32, count_slot, ◌==◌,
}
use on_demand.Primitives.{H256, OrderRecord}
use on_demand.Primitives.Keys.{active_config}
use on_demand.Relay.{RelayChainInterface, PersistedValidationData}
use on_demand.Pallet.Calls.{order_placer_at, on_finalize, runtime_api}
use on_demand.Service.Config.{current_slot, order_placer}
use on_demand.Service.Chain.{
  HostConfiguration, Codec, CoreAssignment, parathread, read, find_pool, on_demand_cores_available,
  is_parathread, get_spot_price,
}
use on_demand.Service.Submit.{Keystore, Rpc, Order, submit_order, new, sign}
use on_demand.Service.Orders.{Node, Head, place_order, place_in_slot, handle_relaychain_stream}
use on_demand.Service.Tasks.{
  RelayEvent, Turn, new_head, event, run_on_demand_task, ondemand_event_task,
}
use on_demand.Service.Cores.{IsFirstWork, AreIdle, on_demand_cores_available-cases}
use on_demand.Service.Slots.{order_placer-order_placer_at, submit_order_lem}
use on_demand.Service.Due.{IsDue, place_order_iff, handle_relaychain_stream-cases}
use on_demand.Service.Once.{run_on_demand_task_once, start}
use on_demand.Service.Reads.{IsPriced, get_spot_price_iff}
use on_demand.Service.Events.{
  ReadBlock, readable, order_blocks, last_or, set_hash, ondemand_event_task_lem,
}
use on_demand.Tests.Mocks.{hashing, config, state}

abbrev pub data_at_head : PersistedValidationData
data_at_head = record { parent_head = 5 ∷ []; max_pov_size = 100 }

-- Every key is stored, and every block is known.
abbrev pub relay_chain : RelayChainInterface ℕ
relay_chain = record {
  get_storage_by_key = λ hash key. some (some key);
  prove_read = λ hash keys. some hash;
  header = λ hash. some (some (record { hash = hash; number = 13; state_root = 9 }));
  persisted_validation_data = λ hash para_id assumption. some (some data_at_head);
  validation_code_hash = λ hash para_id assumption. some (some 3);
}

-- A relay chain of one core, with the given work.
abbrev pub codec : CoreAssignment → Codec
codec work = record {
  decode_traffic = λ raw. some 10;
  decode_host_configuration = λ raw. some (record { num_cores = 1; on_demand_base_fee = 3 });
  decode_core_descriptor = λ raw. some (record { current_work = some ((work, 57600) ∷ []) });
  decode_para_lifecycle = λ raw. some parathread;
}

abbrev pub keystore : Keystore ℕ
keystore = record {
  sr25519_public_keys = 42 ∷ [];
  has_keys = λ key. key == 42;
  into_account = λ key. key;
  sr25519_sign = λ key payload. some (some payload);
}

abbrev pub rpc : Rpc
rpc = record {
  connect = some tt;
  connect_rpc = some tt;
  chain_get_block_hash = λ height. some (some height);
  block_at = λ hash. some hash;
  mortal = λ blocks. max 4 (min 65536 blocks);
  mortal_lem = λ k. refl;
  payload = λ order. order.block ∷ [];
  submit = λ order signature. some tt;
}

abbrev pub node : CoreAssignment → Node ℕ ℕ
node work = record {
  hashing = hashing;
  codec = codec work;
  relay_chain = relay_chain;
  parachain = record {
    decode_head = λ raw. some 500;
    bulk_mode = λ head. some false;
    slot_width = λ head. some 2;
    authorities = λ head. some (41 ∷ 42 ∷ []);
  };
  keystore = keystore;
  criteria = λ height. true;
  rpc = rpc;
  para_id = 2000;
}

abbrev pub head : Head
head = record { height = 13; validation_data = data_at_head; r_hash = 77 }

abbrev pub first_record : OrderRecord
first_record = record { relay_block_hash = none; last_slot = 1 }

abbrev pub the_order : Order
the_order = record { max_amount = 30; para_id = 2000; signer = 42; block = 12; mortality = 4 }

submitted : submit_order rpc 2000 13 2 30 keystore ≡ ok the_order
unfolding submit_order new sign current_slot shr32 shl32
submitted = refl

pub placed : place_order (node CoreAssignment.other) head first_record ≡ ok (some (3, the_order))
unfolding place_order place_in_slot is_parathread get_spot_price on_demand_cores_available find_pool
    order_placer submit_order new sign current_slot shr32 shl32
placed = refl

place_order_iff_example : IsDue (node CoreAssignment.other) head 1 3 the_order
place_order_iff_example =
    (place_order_iff (node CoreAssignment.other) head first_record 3 the_order).0 placed

abbrev pub turns : List (Turn ℕ ℕ)
turns =
    new_head (node CoreAssignment.other) (record { hash = 77; number = 13; state_root = 9 })
    ∷ event 2000 78 (record { as_event = some (some (record { para_id = 2000; spot_price = 30 })) })
    ∷ new_head (node CoreAssignment.other) (record { hash = 79; number = 14; state_root = 9 })
    ∷ []

run_on_demand_task_once_example : count_slot 3 (run_on_demand_task turns start).placed ≤ 1
run_on_demand_task_once_example = run_on_demand_task_once turns 3

abbrev authorities : List ℕ
authorities = 41 ∷ 42 ∷ []

order_placer-order_placer_at_example :
    (order_placer authorities 13 (runtime_api (on_finalize config state)).slot_width ≡ ok 42)
    ↔ (order_placer_at (on_finalize config state) 13 ≡ ok (some 42))
order_placer-order_placer_at_example = order_placer-order_placer_at config state 13 42

submit_order_lem_example :
    let first = current_slot 13 2 * 2 ^ 2 in
    (hash : H256) × (rpc.chain_get_block_hash first ≡ some (some hash))
    × (rpc.block_at hash ≡ some the_order.block)
    × (first ≤ 13)
    × (13 < first + 2 ^ 2)
    × (the_order.mortality ≡ max 4 (min 65536 (2 ^ 2)))
    × ((the_order.mortality ≡ 2 ^ 2) ↔ (2 ≤ 2) × (2 ≤ 16))
    × (the_order.max_amount ≡ 30)
    × (the_order.para_id ≡ 2000)
submit_order_lem_example =
    submit_order_lem rpc 2000 13 2 30 keystore {order = the_order} (omega arith) (omega arith)
      submitted

answered : on_demand_cores_available hashing (codec CoreAssignment.pool) relay_chain 77 ≡ some true
unfolding on_demand_cores_available find_pool
answered = refl

on_demand_cores_available-cases_example :
    (config : HostConfiguration) × (read hashing
        (codec CoreAssignment.pool)
        relay_chain
        77
        (codec CoreAssignment.pool).decode_host_configuration
        active_config
      ≡ some (some config))
    × (IsFirstWork hashing (codec CoreAssignment.pool) relay_chain 77 0 config.num_cores true
        ⊎ AreIdle hashing (codec CoreAssignment.pool) relay_chain 77 0 config.num_cores true)
on_demand_cores_available-cases_example =
    on_demand_cores_available-cases hashing (codec CoreAssignment.pool) relay_chain 77 true answered

abbrev order_event : RelayEvent
order_event = record { as_event = some (some (record { para_id = 2000; spot_price = 30 })) }

abbrev blocks : List ReadBlock
blocks =
    record { hash = 80; events = order_event ∷ [] }
    ∷ record { hash = 81; events = record { as_event = some none } ∷ [] }
    ∷ []

ondemand_event_task_lem_example :
    ondemand_event_task 2000 (some (map readable blocks)) first_record
    ≡ (set_hash first_record (last_or (order_blocks 2000 blocks) none), ok tt)
ondemand_event_task_lem_example = ondemand_event_task_lem 2000 blocks first_record

handle_relaychain_stream-cases_example :
    ((handle_relaychain_stream (node CoreAssignment.other) head start).0 ≡ start)
    ⊎ ((slot : ℕ) × (order : Order) × IsDue (node CoreAssignment.other) head 0 slot order
        × (handle_relaychain_stream (node CoreAssignment.other) head start ≡ (
          record start {
            order_record = record { relay_block_hash = some 77; last_slot = slot };
            placed = (slot, order) ∷ [];
          },
          ok tt,
        )))
handle_relaychain_stream-cases_example =
    handle_relaychain_stream-cases (node CoreAssignment.other) head start

priced : get_spot_price hashing (codec CoreAssignment.pool) relay_chain 77 ≡ some 30
unfolding get_spot_price
priced = refl

get_spot_price_iff_example : IsPriced hashing (codec CoreAssignment.pool) relay_chain 77 30
get_spot_price_iff_example =
    (get_spot_price_iff hashing (codec CoreAssignment.pool) relay_chain 77 30).0 priced

para_lifecycle_read :
    is_parathread hashing (codec CoreAssignment.pool) relay_chain 77 2000 ≡ ok true
unfolding is_parathread
para_lifecycle_read = refl
