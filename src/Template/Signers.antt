-- ===== src/Template/Signers.antt =====
-- services/order/src/chain.rs with the template's runtime: a node with several keys, and who is paid
-- for its orders.
use on_demand.Prelude.{ℕ, ◌≡◌, ◌≢◌, ◌∙◌, sym, some, List, ◌∷◌, ok, arith, inl, inr}
use mathlib.Core.List.{Memᴰ}
use on_demand.Primitives.{ParaId, OrderRecord}
use on_demand.Primitives.Keys.{events}
use on_demand.Relay.{Header}
use on_demand.Inherent.{InherentContainer, inherent_of}
use on_demand.Pallet.State.{AccountId, Balance, State, Call, unsigned}
use on_demand.Pallet.Calls.{slot_at, on_finalize, dispatch, order_placer_at, runtime_api}
use on_demand.Service.Config.{order_placer}
use on_demand.Service.Submit.{Keystore, Rpc, Order, submit_order, new, sign}
use on_demand.Service.Slots.{order_placer-order_placer_at}
use on_demand.Service.Orders.{Node, Head, place_order}
use on_demand.Service.Due.{place_order_iff}
use on_demand.Template.Runtime.{RelayRuntimeEvent, on_demand_order_placed}
use on_demand.Template.Rewarding.{Pallets, types, config, IsEarned, create_order-IsEarned}
use on_demand.Template.Flow.{started}

-- Whatever the slot's turn, an order is signed by the account of the first key.
submit_order-signer :
    {PublicKey : Type 0} (rpc : Rpc) (para_id : ParaId) (height width amount : ℕ)
    (keystore : Keystore PublicKey) (o : Order) (key : PublicKey) (keys : List PublicKey)
    → keystore.sr25519_public_keys ≡ key ∷ keys
    → submit_order rpc para_id height width amount keystore ≡ ok o
    → o.signer ≡ keystore.into_account key
unfolding submit_order new sign
submit_order-signer rpc para_id height width amount keystore o key keys first e = ground arith

module _ (p : Pallets) (k : InherentContainer p.StorageProof)
    (n : Node p.StorageProof p.AuthorityId) where
  -- What the relay chain says in a block: nobody but the account has placed an order there.
  pub record IsOnly (header : Header) (proof : p.StorageProof) (account : AccountId) : Type 0 where
    pub state_proof : p.StateProof
    pub proof_valid : p.relay_chain_state_proof n.para_id header.state_root proof ≡ some state_proof
    pub relay_events : List RelayRuntimeEvent
    pub read : p.reader.read_entry state_proof events ≡ some relay_events
    pub only :
        (price : Balance) (who : AccountId)
        → Memᴰ (on_demand_order_placed n.para_id price who) relay_events
        → who ≡ account

  -- The rewarded account owns the key of the turn.
  IsEarned-owner :
      (s : State (types p)) (now : p.System) (header : Header) (proof : p.StorageProof)
      (placer : p.AuthorityId) (owner who : AccountId)
      → order_placer
          (p.aura_authorities s.system)
          header.number
          (runtime_api (on_finalize (config p) s)).slot_width
        ≡ ok placer
      → p.key_owner now placer ≡ some owner
      → IsEarned p
          (started p k n.relay_chain n.para_id s now)
          (record {
            relay_storage_proof = proof;
            relay_state_root = header.state_root;
            relay_height = header.number;
            para_id = n.para_id;
          })
          who
      → who ≡ owner
  unfolding on_finalize slot_at order_placer_at
  IsEarned-owner s now header proof placer owner who turn owned e =
      let there = (order_placer-order_placer_at (config p) s header.number placer).0 turn in
      let same : e.placer ≡ placer = ground (arith, e.placer_turn, there) in
      ground (arith, e.own_key, owned, same)

  -- A node that places an order signs it by the first of its keys, whichever key's turn the slot is.
  -- If at the relay block with the order it is, by the state at the end of the parent block, the turn
  -- of a key whose owner is not the first key's account, and the block tells of no other signer's
  -- order, then the inherent about it leaves the chain's state as it is: nobody is paid, and the slot
  -- is not.
  pub other_key_unpaid :
      (s : State (types p)) (now : p.System) (h : Head) (r : OrderRecord) (slot : ℕ) (o : Order)
      (key placer : p.AuthorityId) (keys : List p.AuthorityId) (owner : AccountId) (header : Header)
      (proof : p.StorageProof)
      → place_order n h r ≡ ok (some (slot, o))
      → n.keystore.sr25519_public_keys ≡ key ∷ keys
      → order_placer
          (p.aura_authorities s.system)
          header.number
          (runtime_api (on_finalize (config p) s)).slot_width
        ≡ ok placer
      → p.key_owner now placer ≡ some owner
      → owner ≢ n.keystore.into_account key
      → IsOnly header proof o.signer
      → (o.signer ≡ n.keystore.into_account key)
        × ((dispatch
              (config p)
              unsigned
              (Call.create_order (inherent_of proof header n.para_id))
              (started p k n.relay_chain n.para_id s now)).0
            ≡ started p k n.relay_chain n.para_id s now)
  unfolding dispatch
  other_key_unpaid s now h r slot o key placer keys owner header proof placed first turn owned other
        only =
      let due = (place_order_iff n h r slot o).0 placed in
      let signer =
        submit_order-signer n.rpc n.para_id h.height due.width due.price n.keystore o key keys first
          due.accepted in
      (
        signer,
        elim (create_order-IsEarned p (started p k n.relay_chain n.para_id s now) unsigned _) [
          | inl same ↦ same
          | inr (who, e, _) ↦
              let owns = IsEarned-owner s now header proof placer owner who turn owned e in
              let proofs : e.proof ≡ only.state_proof =
                ground (arith, e.proof_valid, only.proof_valid) in
              let all : e.relay_events ≡ only.relay_events =
                ground (arith, rw proofs at e.read, only.read) in
              let signed = only.only e.price who (rw all at e.ordered) in
              absurd (other (sym owns ∙ signed ∙ signer))
        ],
      )
