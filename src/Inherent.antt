-- ===== src/Inherent.antt =====
-- primitives/order/src/inherent.rs, and `ProvideInherent` of pallets/on-demand/src/lib.rs: from the
-- node's order record to the call in the block.
use on_demand.Prelude.{
  ℕ, ◌≡◌, refl, Bool, true, false, Option, none, some, List, [], ◌∷◌, Outcome, ok, panicked, arith,
}
use on_demand.Primitives.{H256, ParaId, OrderInherentData}
use on_demand.Primitives.Keys.{events}
use on_demand.Relay.{Header, RelayChainInterface}
use on_demand.Pallet.State.{Types, Call}

-- `*b"orderiht"`.
abbrev pub on_demand_inherent_identifier : List ℕ
on_demand_inherent_identifier = b'o' ∷ b'r' ∷ b'd' ∷ b'e' ∷ b'r' ∷ b'i' ∷ b'h' ∷ b't' ∷ []

-- `.ok()??` and the like: the value inside two layers.
abbrev pub flatten {ℓ} : {A : Type ℓ} → Option (Option A) → Option A
flatten none = none
flatten (some x) = x

module _ {StorageProof : Type 0} where
  unfoldable pub collect_relay_storage_proof :
      RelayChainInterface StorageProof → H256 → Option StorageProof
  collect_relay_storage_proof relay_chain relay_parent =
      let relevant_keys = events ∷ [] in relay_chain.prove_read relay_parent relevant_keys

  unfoldable pub create_at :
      RelayChainInterface StorageProof
      → Option H256
      → ParaId
      → Option (OrderInherentData StorageProof)
  unfolding collect_relay_storage_proof
  create_at relay_chain none para_id = some (record { inherent = none })
  create_at relay_chain (some hash) para_id = elim (flatten (relay_chain.header hash)) [
    | none ↦ none
    | some header ↦ elim (collect_relay_storage_proof relay_chain header.hash) [
      | none ↦ none
      | some proof ↦ some (record {
        inherent = some (record {
          relay_storage_proof = proof;
          relay_state_root = header.state_root;
          relay_height = header.number;
          para_id = para_id;
        });
      })
    ]
  ]

-- The container `InherentData` of `sp_inherents`: `put_data` refuses an identifier that is taken,
-- and `get_data` gives back what was put, after its encoding and decoding.
pub record InherentContainer (StorageProof : Type 0) : Type 1 where
  pub Container : Type 0
  pub put_data : List ℕ → OrderInherentData StorageProof → Container → Option Container
  pub get_data : List ℕ → Container → Option (Option (OrderInherentData StorageProof))
  pub get-put :
      (i : List ℕ) (d : OrderInherentData StorageProof) (x : Container) {y : Container}
      → put_data i d x ≡ some y
      → get_data i y ≡ some (some d)

-- The inherent about one block of the relay chain.
abbrev pub inherent_of :
    {StorageProof : Type 0} → StorageProof → Header → ParaId → OrderInherentData StorageProof
inherent_of proof header para_id = record {
  inherent = some (record {
    relay_storage_proof = proof;
    relay_state_root = header.state_root;
    relay_height = header.number;
    para_id = para_id;
  });
}

module _ (T : Types) (k : InherentContainer T.StorageProof) where
  unfoldable pub provide_inherent_data :
      OrderInherentData T.StorageProof → k.Container → Option k.Container
  provide_inherent_data self inherent_data =
      k.put_data on_demand_inherent_identifier self inherent_data

  -- The pallet panics if there is nothing under its identifier.
  unfoldable pub create_inherent : k.Container → Outcome (Unit {0}) (Option (Call T))
  create_inherent inherent_data =
      elim (flatten (k.get_data on_demand_inherent_identifier inherent_data)) [
        | none ↦ panicked
        | some d ↦ ok (some (Call.create_order d))
      ]

  unfoldable pub is_inherent : Call T → Bool
  is_inherent (Call.create_order _) = true
  is_inherent _ = false

  -- The node and the pallet agree on the inherent: for a block known to the relay chain, what
  -- `create_at` builds and the provider puts into the container comes out of the pallet as the
  -- inherent call that carries this block's height, state root and proof of events.
  pub create_inherent-create_at :
      (relay_chain : RelayChainInterface T.StorageProof) (hash : H256) (header : Header)
      (proof : T.StorageProof) (para_id : ParaId) (x : k.Container)
      → relay_chain.header hash ≡ some (some header)
      → relay_chain.prove_read header.hash (events ∷ []) ≡ some proof
      → (create_at relay_chain (some hash) para_id ≡ some (inherent_of proof header para_id))
        × ((y : k.Container)
            → provide_inherent_data (inherent_of proof header para_id) x ≡ some y
            → (create_inherent y ≡ ok (some (Call.create_order (inherent_of proof header para_id))))
              × (is_inherent (Call.create_order (inherent_of proof header para_id)) ≡ true))
  unfolding create_at provide_inherent_data create_inherent is_inherent
  create_inherent-create_at relay_chain hash header proof para_id x known proved = (
    ground arith,
    λ y h. (rw (k.get-put on_demand_inherent_identifier _ x h, create_inherent), refl),
  )
