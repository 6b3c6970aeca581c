-- ===== src/Service/Orders.antt =====
-- services/order/src/lib.rs, `handle_relaychain_stream`: what a new best head of the relay chain
-- leads to.
use on_demand.Prelude.{
  ℕ, Bool, not, Option, none, some, List, ◌∷◌, ok, err, panicked, ◌>>=◌, leb, if◌then◌else◌,
}
use on_demand.Primitives.{H256, ParaId, OrderRecord}
use on_demand.Primitives.Keys.{Hashing}
use on_demand.Relay.{RelayChainInterface, PersistedValidationData}
use on_demand.Service.Config.{
  Result, or_err, current_slot, order_placer, codec_error, runtime_api_error, failed_to_check_cores,
  failed_to_get_spot_price,
}
use on_demand.Service.Chain.{Codec, get_spot_price, is_parathread, on_demand_cores_available}
use on_demand.Service.Submit.{Keystore, Rpc, Order, submit_order}

-- The parachain's client: the hash of an encoded head, and the runtime's answers at a head.
pub record Parachain (PublicKey : Type 0) : Type 0 where
  pub decode_head : List ℕ → Option H256
  pub bulk_mode : H256 → Option Bool
  pub slot_width : H256 → Option ℕ
  pub authorities : H256 → Option (List PublicKey)

-- What surrounds the task when it handles a head. `criteria` is the configured
-- `OrderPlacementCriteria` with the parachain and the transaction pool of that time.
pub record Node (StorageProof PublicKey : Type 0) : Type 0 where
  pub hashing : Hashing
  pub codec : Codec
  pub relay_chain : RelayChainInterface StorageProof
  pub parachain : Parachain PublicKey
  pub keystore : Keystore PublicKey
  pub criteria : ℕ → Bool
  pub rpc : Rpc
  pub para_id : ParaId

-- An item of the stream of best heads.
pub record Head : Type 0 where
  pub height : ℕ
  pub validation_data : PersistedValidationData
  pub r_hash : H256

-- The shared record, and the orders that were accepted with their slots (newest first).
pub record Orders : Type 0 where
  pub order_record : OrderRecord
  pub placed : List (ℕ × Order)

abbrev pub with_slot : ℕ → Option Order → Option (ℕ × Order)
with_slot slot none = none
with_slot slot (some order) = some (slot, order)

module _ {StorageProof PublicKey : Type 0} (n : Node StorageProof PublicKey) where
  open n use {hashing, codec, relay_chain, parachain, keystore, criteria, rpc, para_id}

  -- The order of the node whose turn the slot is, if the criteria are met.
  unfoldable pub place_in_slot : H256 → Head → ℕ → Result (Option Order)
  place_in_slot para_head h slot_width = do
    authorities ← or_err runtime_api_error (parachain.authorities para_head)
    placer ← order_placer authorities h.height slot_width
    if not (keystore.has_keys placer)
        then ok none
        else if not (criteria h.height)
        then ok none
        else do
          price ←
              or_err failed_to_get_spot_price (get_spot_price hashing codec relay_chain h.r_hash)
          order ← submit_order rpc para_id h.height slot_width price keystore
          ok (some order)

  -- Up to the writes: the order that was accepted, if one was placed, with its slot.
  unfoldable pub place_order : Head → OrderRecord → Result (Option (ℕ × Order))
  place_order h order_record = do
    parathread ← is_parathread hashing codec relay_chain h.r_hash para_id
    if not parathread then ok none else do
      para_head ← or_err codec_error (parachain.decode_head h.validation_data.parent_head)
      bulk_mode ← or_err runtime_api_error (parachain.bulk_mode para_head)
      if bulk_mode then ok none else do
        available ←
            or_err failed_to_check_cores
              (on_demand_cores_available hashing codec relay_chain h.r_hash)
        if available then ok none else do
          slot_width ← or_err runtime_api_error (parachain.slot_width para_head)
          if leb (current_slot h.height slot_width) order_record.last_slot then ok none else do
            placed ← place_in_slot para_head h slot_width
            ok (with_slot (current_slot h.height slot_width) placed)

  -- The record is written only after the order was accepted.
  unfoldable pub handle_relaychain_stream : Head → Orders → Orders × Result (Unit {0})
  handle_relaychain_stream h o = elim (place_order h o.order_record) [
    | ok none ↦ (o, ok tt)
    | ok (some (slot, order)) ↦ (
      record o {
        order_record = record { relay_block_hash = some h.r_hash; last_slot = slot };
        placed = (slot, order) ∷ o.placed;
      },
      ok tt,
    )
    | err e ↦ (o, err e)
    | panicked ↦ (o, panicked)
  ]
