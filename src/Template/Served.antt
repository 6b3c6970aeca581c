-- ===== src/Template/Served.antt =====
-- services/order/src/lib.rs with the template's runtime: an order from the task that places it, over
-- the task that watches the relay chain's events, to its reward.
use on_demand.Prelude.{ℕ, ◌≡◌, true, some, List, [], ◌∷◌, ok, arith}
use on_demand.Primitives.{H256, ParaId}
use on_demand.Relay.{Header}
use on_demand.Inherent.{
  InherentContainer, inherent_of, provide_inherent_data, create_inherent, is_inherent,
}
use on_demand.Pallet.State.{Balance, State, Call, unsigned}
use on_demand.Pallet.Calls.{dispatch}
use on_demand.Service.Submit.{Order}
use on_demand.Service.Orders.{Node, Head, Orders, place_order, handle_relaychain_stream}
use on_demand.Service.Tasks.{
  RelayEvent, Turn, new_head, event, new_best_head, follow_head, run_on_demand_task,
}
use on_demand.Template.Node.{create_inherent_data_providers}
use on_demand.Template.Api.{ApiTypes, ApiLibraries}
use on_demand.Template.Rewarding.{Pallets, types, config}
use on_demand.Template.Flow.{IsSeen, started, paid_state}
use on_demand.Template.Placed.{Client, on_demand_config, IsServed, place_order_rewards}

-- The event of an order, as the event task decodes it.
abbrev pub order_event : ParaId → Balance → RelayEvent
order_event para_id price = record {
  as_event = some (some (record { para_id = para_id; spot_price = price }));
}

module _ {StorageProof PublicKey : Type 0} (n : Node StorageProof PublicKey) where
  -- The node meets a best head and then the event of an order in a relay block.
  abbrev pub two_turns : Header → H256 → Balance → List (Turn StorageProof PublicKey)
  two_turns best hash price =
      new_head n best ∷ event n.para_id hash (order_event n.para_id price) ∷ []

  -- The record comes to name that block, with the slot of the order that was placed at the head.
  two_turns-record :
      (best : Header) (h : Head) (o : Orders) (slot : ℕ) (order : Order) (hash : H256)
      (price : Balance)
      → new_best_head n best ≡ some h
      → place_order n h o.order_record ≡ ok (some (slot, order))
      → (run_on_demand_task (two_turns best hash price) o).order_record
        ≡ record { relay_block_hash = some hash; last_slot = slot }
  unfolding run_on_demand_task follow_head handle_relaychain_stream
  two_turns-record best h o slot order hash price found placed =
      rw (found, placed, follow_head, handle_relaychain_stream, run_on_demand_task) (ground arith)

module _ {p : Pallets} {t : ApiTypes} (l : ApiLibraries p t) (k : InherentContainer p.StorageProof)
    (c : Client l) (ready : List t.Extrinsic) (n : Node p.StorageProof p.AuthorityId) where
  -- The node's task meets a best head at which it places an order, and then the event of an order for
  -- its parachain in a relay block. If the order is served there, in the same slot and seen by the
  -- relay chain as its signer's, then from the record that the task has come to the node's inherent is
  -- built, taken and an inherent's call, and in the next block, whatever the other pallets have made
  -- of their storage before it, the call pays the signer one milli unit and the slot.
  pub run_on_demand_task_rewards :
      (s : State (types p)) (now : p.System) (best : Header) (h : Head) (o : Orders) (slot : ℕ)
      (order : Order) (x y : k.Container) (hash : H256) (header : Header) (proof : p.StorageProof)
      (price : Balance) (system : p.System)
      → new_best_head (on_demand_config l c ready n) best ≡ some h
      → place_order (on_demand_config l c ready n) h o.order_record ≡ ok (some (slot, order))
      → IsServed l k c ready n s now h header slot order
      → IsSeen p k n.relay_chain n.para_id hash header proof price order.signer
      → provide_inherent_data (types p) k (inherent_of proof header n.para_id) x ≡ some y
      → p.mint_into now order.signer 1000000000 ≡ some system
      → let turns = two_turns (on_demand_config l c ready n) best hash price in
        let order_record = (run_on_demand_task turns o).order_record in
        let call = Call.create_order (inherent_of proof header n.para_id) in
        (create_inherent_data_providers n.relay_chain n.para_id order_record
          ≡ ok (inherent_of proof header n.para_id))
        × (create_inherent (types p) k y ≡ ok (some call))
        × (is_inherent (types p) k call ≡ true)
        × (dispatch (config p) unsigned call (started p k n.relay_chain n.para_id s now)
            ≡ (paid_state p k n.relay_chain n.para_id s header order.signer system, ok tt))
  run_on_demand_task_rewards s now best h o slot order x y hash header proof price system found
        placed served seen put minted =
      let node = on_demand_config l c ready n in
      rw (two_turns-record node best h o slot order hash price found placed) (
        place_order_rewards l k c ready n s now h o.order_record slot order x y hash header proof
          price system placed served seen put minted)
