-- ===== src/Template/Placed.antt =====
-- template/node/src/service.rs with the runtime's API (template/runtime/src/apis.rs): the order
-- service as the template configures it, and an order from its placement to its reward.
use on_demand.Prelude.{ℕ, ◌<◌, ◌≡◌, ◌∙◌, ap, true, Option, some, List, ok, arith}
use mathlib.Core.Option
use on_demand.Primitives.{H256, OrderRecord}
use on_demand.Relay.{Header}
use on_demand.Inherent.{
  InherentContainer, inherent_of, provide_inherent_data, create_inherent, is_inherent,
}
use on_demand.Pallet.State.{Balance, State, Call, unsigned}
use on_demand.Pallet.Calls.{slot_at, on_finalize, runtime_api, dispatch}
use on_demand.Pallet.Criteria
use on_demand.Service.Config.{order_placer, current_slot}
use on_demand.Service.Submit.{Order}
use on_demand.Service.Orders.{Node, Parachain, Head, place_order}
use on_demand.Service.Due.{IsDue, place_order_iff}
use on_demand.Service.Exclusive.{order_placer-slot}
use on_demand.Template.Node.{ParachainClient, should_place_order, create_inherent_data_providers}
use on_demand.Template.Api.{
  ApiTypes, ApiLibraries, on_demand_api, aura_api, transaction_payment_api,
}
use on_demand.Template.Rewarding.{Pallets, types, config}
use on_demand.Template.Flow.{IsSeen, IsTurnOf, started, paid_state, flow_rewards}

module _ {p : Pallets} {t : ApiTypes} (l : ApiLibraries p t) where
  -- The parachain's client: the state after each block that it knows, its best block, and what the
  -- node reads of heads and transactions.
  pub record Client : Type 0 where
    pub state_at : H256 → Option (State (types p))
    pub best_hash : H256
    pub decode_head : List ℕ → Option H256
    pub encoded_length : t.Extrinsic → ℕ
    pub final_fee : t.FeeDetails → Balance

  -- The runtime's answers at a block, to the order service and to the criterion.
  abbrev pub service_client : Client → Parachain p.AuthorityId
  service_client c = record {
    decode_head = c.decode_head;
    bulk_mode = λ hash. Option.map (λ s. (on_demand_api l s).bulk_mode) (c.state_at hash);
    slot_width = λ hash. Option.map (λ s. (on_demand_api l s).slot_width) (c.state_at hash);
    authorities = λ hash. Option.map (λ s. (aura_api l s).authorities) (c.state_at hash);
  }

  abbrev pub criteria_client : Client → ParachainClient t.Extrinsic
  criteria_client c = record {
    encoded_length = c.encoded_length;
    query_final_fee = λ tx len.
        Option.map (λ s. c.final_fee ((transaction_payment_api l s).query_fee_details tx len))
          (c.state_at c.best_hash);
    threshold_parameter =
        Option.map (λ s. (on_demand_api l s).threshold_parameter) (c.state_at c.best_hash);
  }

  -- `OnDemandConfig`: a node of the service over this client and a pool's ready transactions.
  abbrev pub on_demand_config :
      Client
      → List t.Extrinsic
      → Node p.StorageProof p.AuthorityId
      → Node p.StorageProof p.AuthorityId
  on_demand_config c ready n = record n {
    parachain = service_client c;
    criteria = λ height. should_place_order (criteria_client c) ready;
  }

  module _ (k : InherentContainer p.StorageProof) (c : Client) (ready : List t.Extrinsic)
      (n : Node p.StorageProof p.AuthorityId) where
    -- What an order needs after its placement at a head, to be rewarded in the block on top of that
    -- head: it comes into a relay block of its slot, the slot is still unpaid, the runtime's own
    -- criterion is met, and every key of the node is the session key of the order's signer.
    pub record IsServed (s : State (types p)) (now : p.System) (h : Head) (header : Header)
        (slot : ℕ) (o : Order) : Type 0 where
      pub para_head : H256
      pub decoded : c.decode_head h.validation_data.parent_head ≡ some para_head
      pub parent : c.state_at para_head ≡ some (on_finalize (config p) s)
      pub same_slot : slot_at s header.number ≡ slot
      pub unpaid : s.previous_slot < slot
      pub criteria_met : Criteria.should_place_order (p.fees now) s.threshold_parameter ≡ true
      pub own_keys :
          (key : p.AuthorityId)
          → n.keystore.has_keys key ≡ true
          → p.key_owner now key ≡ some o.signer

    IsDue-IsTurnOf :
        (s : State (types p)) (now : p.System) (h : Head) (header : Header) (last_slot slot : ℕ)
        (o : Order)
        → IsDue (on_demand_config c ready n) h last_slot slot o
        → IsServed s now h header slot o
        → IsTurnOf p k n.relay_chain n.para_id s now header o.signer
    unfolding on_finalize runtime_api slot_at current_slot
    IsDue-IsTurnOf s now h header last_slot slot o d e =
        let head : d.para_head ≡ e.para_head = ground (arith, d.decoded, e.decoded) in
        let parent : c.state_at d.para_head ≡ some (on_finalize (config p) s) = rw head e.parent in
        let width : d.width ≡ s.slot_width = ground (arith, d.width_known, parent) in
        let authorities : d.authorities ≡ p.aura_authorities s.system =
          ground (arith, d.authorities_known, parent) in
        let turn : order_placer (p.aura_authorities s.system) h.height s.slot_width ≡ ok d.placer =
          rw (width, authorities) at d.turn in
        record {
          not_bulk = ground (arith, d.not_bulk, parent);
          criteria_met = e.criteria_met;
          later_slot = rw e.same_slot e.unpaid;
          placer = d.placer;
          turn =
              order_placer-slot (p.aura_authorities s.system) header.number h.height s.slot_width
                (e.same_slot ∙ d.slot_of_height ∙ ap (current_slot h.height) width)
              ∙ turn;
          own_key = e.own_keys d.placer d.own_key;
        }

    -- An order that the template's node places is rewarded once it is served. The node places it at a
    -- head whose parachain block has the state, in the end, that the runtime's API answers from; later
    -- a relay block of the same slot, which the record names, has the order among its events; the slot
    -- is unpaid, the runtime's criterion is met, and every key of the node is the session key of the
    -- order's signer. Then the node's inherent is built, taken and an inherent's call, and in the next
    -- block, whatever the other pallets have made of their storage before it, the call pays the signer
    -- one milli unit and the slot.
    pub place_order_rewards :
        (s : State (types p)) (now : p.System) (h : Head) (r : OrderRecord) (slot : ℕ) (o : Order)
        (x y : k.Container) (hash : H256) (header : Header) (proof : p.StorageProof)
        (price : Balance) (system : p.System)
        → place_order (on_demand_config c ready n) h r ≡ ok (some (slot, o))
        → IsServed s now h header slot o
        → IsSeen p k n.relay_chain n.para_id hash header proof price o.signer
        → provide_inherent_data (types p) k (inherent_of proof header n.para_id) x ≡ some y
        → p.mint_into now o.signer 1000000000 ≡ some system
        → let call = Call.create_order (inherent_of proof header n.para_id) in
          let order_record : OrderRecord = record {
            relay_block_hash = some hash;
            last_slot = slot;
          } in
          (create_inherent_data_providers n.relay_chain n.para_id order_record
            ≡ ok (inherent_of proof header n.para_id))
          × (create_inherent (types p) k y ≡ ok (some call))
          × (is_inherent (types p) k call ≡ true)
          × (dispatch (config p) unsigned call (started p k n.relay_chain n.para_id s now)
              ≡ (paid_state p k n.relay_chain n.para_id s header o.signer system, ok tt))
    place_order_rewards s now h r slot o x y hash header proof price system placed served seen put
          minted =
        let due = (place_order_iff (on_demand_config c ready n) h r slot o).0 placed in
        flow_rewards p k n.relay_chain n.para_id s now x y hash header proof price o.signer slot
          system seen (IsDue-IsTurnOf s now h header r.last_slot slot o due served) put minted
