-- ===== src/Service/Tasks.antt =====
-- services/order/src/lib.rs: the task that watches the relay chain's events, the task that follows
-- its best heads, and the two side by side. A stream is the list of its items; each item of the
-- heads comes with the node's surroundings at that time.
use on_demand.Prelude.{ℕ, Option, none, some, List, [], ◌∷◌, ok, err, panicked, ◌==◌, if◌then◌else◌}
use on_demand.Primitives.{H256, ParaId, OrderRecord}
use on_demand.Relay.{Header, RelayChainInterface, PersistedValidationData, OccupiedCoreAssumption}
use on_demand.Inherent.{flatten}
use on_demand.Service.Config.{Result, rpc_error}
use on_demand.Service.Orders.{Node, Head, Orders, handle_relaychain_stream}

pub record OnDemandOrderPlaced : Type 0 where
  pub para_id : ParaId
  pub spot_price : ℕ

-- An event of a block: `as_event` fails, finds another event, or finds an order.
pub record RelayEvent : Type 0 where
  pub as_event : Option (Option OnDemandOrderPlaced)

-- `none` is what the code leaves by `?`: events, or one of them, that cannot be fetched.
pub record RelayBlock : Type 0 where
  pub hash : H256
  pub events : Option (List (Option RelayEvent))

-- The body of the loop over a block's events.
abbrev pub note_order :
    ParaId → H256 → Option (Option OnDemandOrderPlaced) → OrderRecord → OrderRecord
note_order exp_id hash (some (some e)) r =
    if e.para_id == exp_id then record r { relay_block_hash = some hash } else r
note_order exp_id hash _ r = r

unfoldable pub scan_events :
    ParaId → H256 → List (Option RelayEvent) → OrderRecord → OrderRecord × Result (Unit {0})
scan_events para_id hash [] r = (r, ok tt)
scan_events para_id hash (none ∷ _) r = (r, err rpc_error)
scan_events para_id hash (some event ∷ events) r =
    scan_events para_id hash events (note_order para_id hash event.as_event r)

abbrev pub scan_block : ParaId → RelayBlock → OrderRecord → OrderRecord × Result (Unit {0})
scan_block para_id block r = elim block.events [
  | none ↦ (r, err rpc_error)
  | some events ↦ scan_events para_id block.hash events r
]

unfoldable pub scan_blocks :
    ParaId → List (Option RelayBlock) → OrderRecord → OrderRecord × Result (Unit {0})
unfolding scan_events
scan_blocks para_id [] r = (r, ok tt)
scan_blocks para_id (none ∷ _) r = (r, err rpc_error)
scan_blocks para_id (some block ∷ blocks) r =
    let (r', result) = scan_block para_id block r in
    elim result [
      | ok _ ↦ scan_blocks para_id blocks r'
      | err e ↦ (r', err e)
      | panicked ↦ (r', panicked)
    ]

-- `none` is a subscription that cannot be made.
unfoldable pub ondemand_event_task :
    ParaId → Option (List (Option RelayBlock)) → OrderRecord → OrderRecord × Result (Unit {0})
unfolding scan_blocks
ondemand_event_task para_id none r = (r, err rpc_error)
ondemand_event_task para_id (some blocks) r = scan_blocks para_id blocks r

-- The endless loop of `event_notification`, as far as it has come: the subscriptions so far.
unfoldable pub event_notification :
    ParaId → List (Option (List (Option RelayBlock))) → OrderRecord → OrderRecord
unfolding ondemand_event_task
event_notification para_id [] r = r
event_notification para_id (blocks ∷ rest) r =
    event_notification para_id rest (ondemand_event_task para_id blocks r).0

unfoldable pub validation_data :
    {StorageProof : Type 0}
    → RelayChainInterface StorageProof
    → H256
    → ParaId
    → Option PersistedValidationData
validation_data relay_chain hash para_id =
    flatten (relay_chain.persisted_validation_data hash para_id OccupiedCoreAssumption.timed_out)

-- The two tasks side by side. The record's lock is held from the test of the last slot to the
-- writes, so the tasks take turns by whole heads and by single events.
pub data Turn (StorageProof PublicKey : Type 0) : Type 0 where
  new_head : Node StorageProof PublicKey → Header → Turn StorageProof PublicKey
  event : ParaId → H256 → RelayEvent → Turn StorageProof PublicKey

module _ {StorageProof PublicKey : Type 0} where
  -- The `filter_map` of `new_best_heads` on one notification.
  unfoldable pub new_best_head : Node StorageProof PublicKey → Header → Option Head
  unfolding validation_data
  new_best_head n header = elim (validation_data n.relay_chain header.hash n.para_id) [
    | none ↦ none
    | some found ↦
        some (record { height = header.number; validation_data = found; r_hash = header.hash })
  ]

  -- One round of the loop of `follow_relay_chain`; whether an order fails is not looked at.
  unfoldable pub follow_head :
      Node StorageProof PublicKey → Header → Orders → Orders × Result (Unit {0})
  unfolding new_best_head
  follow_head n header o = elim (new_best_head n header) [
    | none ↦ (o, ok tt)
    | some h ↦ handle_relaychain_stream n h o
  ]

  -- The loop of `follow_relay_chain`, which ends with the stream or by a panic.
  unfoldable pub follow_relay_chain :
      List (Node StorageProof PublicKey × Header) → Orders → Orders × Result (Unit {0})
  unfolding follow_head
  follow_relay_chain [] o = (o, ok tt)
  follow_relay_chain ((n, header) ∷ rest) o =
      let (o', result) = follow_head n header o in
      elim result [ panicked ↦ (o', panicked) | _ ↦ follow_relay_chain rest o' ]

  -- It ends with a panic, as the task does.
  unfoldable pub run_on_demand_task : List (Turn StorageProof PublicKey) → Orders → Orders
  unfolding follow_head
  run_on_demand_task [] o = o
  run_on_demand_task (new_head n header ∷ turns) o =
      let (o', result) = follow_head n header o in
      elim result [ panicked ↦ o' | _ ↦ run_on_demand_task turns o' ]
  run_on_demand_task (event para_id hash e ∷ turns) o =
      run_on_demand_task turns
        (record o { order_record = note_order para_id hash e.as_event o.order_record })
