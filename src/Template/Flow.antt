-- ===== src/Template/Flow.antt =====
-- template: the way of one order, from the node's record (node/src/service.rs) through the inherent
-- (primitives/order/src/inherent.rs) to the reward (pallets/on-demand/src/lib.rs).
use on_demand.Prelude.{ℕ, ◌<◌, ◌≡◌, ◌∙◌, refl, none, some, List, [], ◌∷◌, ok, arith, true, ap}
use mathlib.Core.List.{Memᴰ}
use on_demand.Primitives.{H256, ParaId, OrderRecord, InherentData}
use on_demand.Primitives.Keys.{events}
use on_demand.Relay.{Header, RelayChainInterface}
use on_demand.Inherent.{
  InherentContainer, inherent_of, provide_inherent_data, create_inherent, is_inherent,
  create_inherent-create_at,
}
use on_demand.Pallet.State.{AccountId, Balance, State, Call, unsigned, order_placer_rewarded}
use on_demand.Pallet.Calls.{slot_at, on_finalize, runtime_api, dispatch, reward, order_placer_at}
use on_demand.Pallet.Orders.{IsRewardable, create_order_rewards, rewarded}
use on_demand.Pallet.Criteria.{should_place_order, reward_size}
use on_demand.Service.Config.{order_placer}
use on_demand.Service.Slots.{order_placer-order_placer_at}
use on_demand.Template.Node.{create_inherent_data_providers}
use on_demand.Template.Runtime.{RelayRuntimeEvent, on_demand_order_placed, orders_placed_lem}
use on_demand.Template.Rewarding.{Pallets, types, config}

module _ (p : Pallets) (k : InherentContainer p.StorageProof)
    (relay_chain : RelayChainInterface p.StorageProof) (para_id : ParaId) where
  -- What the relay chain says of the block that the record names, and of the order in it.
  pub record IsSeen (hash : H256) (header : Header) (proof : p.StorageProof) (price : Balance)
      (who : AccountId) : Type 0 where
    pub known : relay_chain.header hash ≡ some (some header)
    pub proved : relay_chain.prove_read header.hash (events ∷ []) ≡ some proof
    pub state_proof : p.StateProof
    pub proof_valid : p.relay_chain_state_proof para_id header.state_root proof ≡ some state_proof
    pub relay_events : List RelayRuntimeEvent
    pub read : p.reader.read_entry state_proof events ≡ some relay_events
    pub ordered : Memᴰ (on_demand_order_placed para_id price who) relay_events

  -- The state that the inherent of the next block meets: that at the end of the parent block, with
  -- what the other pallets have made of their storage since.
  abbrev pub started : State (types p) → p.System → State (types p)
  started s now = record (on_finalize (config p) s) { system = now }

  -- What the state says: the slot is still unpaid, and by the node's own reckoning at the end of the
  -- parent block it is the turn of a key, which is now the account's session key.
  pub record IsTurnOf (s : State (types p)) (now : p.System) (header : Header) (who : AccountId)
      : Type 0 where
    pub not_bulk : s.bulk_mode ≡ none
    pub criteria_met : should_place_order (p.fees now) s.threshold_parameter ≡ true
    pub later_slot : s.previous_slot < slot_at s header.number
    pub placer : p.AuthorityId
    pub turn :
        order_placer
          (p.aura_authorities s.system)
          header.number
          (runtime_api (on_finalize (config p) s)).slot_width
        ≡ ok placer
    pub own_key : p.key_owner now placer ≡ some who

  -- The inherent's content.
  abbrev seen_order : Header → p.StorageProof → InherentData p.StorageProof
  seen_order header proof = record {
    relay_storage_proof = proof;
    relay_state_root = header.state_root;
    relay_height = header.number;
    para_id = para_id;
  }

  IsRewardable-flow :
      (s : State (types p)) (now : p.System) {hash : H256} {header : Header}
      {proof : p.StorageProof} {price : Balance} {who : AccountId}
      → IsSeen hash header proof price who
      → IsTurnOf s now header who
      → (r : IsRewardable (config p) (started s now) unsigned (seen_order header proof)) × (r.owner
          ≡ who)
  unfolding on_finalize slot_at order_placer_at
  IsRewardable-flow s now {header = header} {price = price} {who = who} seen t = (
    record {
      inherent_origin = refl;
      not_bulk = t.not_bulk;
      criteria_met = t.criteria_met;
      later_slot = t.later_slot;
      proof = seen.state_proof;
      proof_valid = seen.proof_valid;
      placer = t.placer;
      placer_turn =
          ground
            (arith, (order_placer-order_placer_at (config p) s header.number t.placer).0 t.turn);
      owner = who;
      owner_known = t.own_key;
      order = (price, who);
      order_placed =
          (orders_placed_lem p.reader seen.state_proof para_id seen.relay_events price who
              seen.read).1
            seen.ordered;
      order_by_owner = p.identity now who;
    },
    refl,
  )

  -- The state after the reward, written out.
  abbrev pub paid_state : State (types p) → Header → AccountId → p.System → State (types p)
  paid_state s header who system = record (on_finalize (config p) s) {
    system = system;
    previous_slot = slot_at s header.number;
    events = order_placer_rewarded who 1000000000 ∷ s.events;
  }

  rewarded-paid_state :
      (s : State (types p)) (now : p.System) (header : Header) (proof : p.StorageProof)
      (who : AccountId) (system : p.System)
      → p.mint_into now who 1000000000 ≡ some system
      → rewarded (config p) (started s now) (seen_order header proof) who
        ≡ paid_state s header who system
  unfolding on_finalize reward reward_size slot_at
  rewarded-paid_state s now header proof who system minted = ground arith

  -- An order ends in its reward. The record names a relay block that the relay chain knows, and whose
  -- events tell, with a proof that verifies, of an order of the account for the parachain; the slot of
  -- the block is unpaid, and by the reckoning of the node it is the turn of the account's session key.
  -- Then the node builds an inherent from the record, and once it is in the block's container the
  -- pallet makes a call of it, an inherent's call; on the state after the parent block, whatever the
  -- other pallets have since made of theirs, the call succeeds, the account's balance is minted one
  -- milli unit, the event says so, and the slot is paid.
  pub flow_rewards :
      (s : State (types p)) (now : p.System) (x y : k.Container) (hash : H256) (header : Header)
      (proof : p.StorageProof) (price : Balance) (who : AccountId) (last_slot : ℕ)
      (system : p.System)
      → IsSeen hash header proof price who
      → IsTurnOf s now header who
      → provide_inherent_data (types p) k (inherent_of proof header para_id) x ≡ some y
      → p.mint_into now who 1000000000 ≡ some system
      → let call = Call.create_order (inherent_of proof header para_id) in
        let order_record : OrderRecord = record {
          relay_block_hash = some hash;
          last_slot = last_slot;
        } in
        (create_inherent_data_providers relay_chain para_id order_record
          ≡ ok (inherent_of proof header para_id))
        × (create_inherent (types p) k y ≡ ok (some call))
        × (is_inherent (types p) k call ≡ true)
        × (dispatch (config p) unsigned call (started s now)
            ≡ (paid_state s header who system, ok tt))
  unfolding create_inherent_data_providers dispatch
  flow_rewards s now x y hash header proof price who last_slot system seen t put minted =
      let (built, out) =
        create_inherent-create_at (types p) k relay_chain hash header proof para_id x seen.known
          seen.proved in
      let (taken, inherent) = out y put in
      let (r, owner) = IsRewardable-flow s now seen t in
      let paid = create_order_rewards (config p) (started s now) unsigned _ r in
      let state =
        ap (rewarded (config p) (started s now) (seen_order header proof)) owner
        ∙ rewarded-paid_state s now header proof who system minted in
      (ground arith, taken, inherent, paid ∙ ap (λ s'. (s', ok tt)) state)
