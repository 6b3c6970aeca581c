-- ===== src/Relay.antt =====
-- The interface to the relay chain (`RelayChainInterface` of cumulus), which the order service, the
-- inherent and the collator share. A call that fails is `none`: the code never looks at the error.
use on_demand.Prelude.{ℕ, List, Option}
use on_demand.Primitives.{H256, ParaId}

-- What the code reads of a header.
pub record Header : Type 0 where
  pub hash : H256
  pub number : ℕ
  pub state_root : H256

-- `parent_head` holds the bytes of the parachain's encoded head.
pub record PersistedValidationData : Type 0 where
  pub parent_head : List ℕ
  pub max_pov_size : ℕ

pub data OccupiedCoreAssumption : Type 0 where
  included timed_out free : OccupiedCoreAssumption

pub record RelayChainInterface (StorageProof : Type 0) : Type 0 where
  pub get_storage_by_key : H256 → List ℕ → Option (Option (List ℕ))
  pub prove_read : H256 → List (List ℕ) → Option StorageProof
  pub header : H256 → Option (Option Header)
  pub persisted_validation_data :
      H256 → ParaId → OccupiedCoreAssumption → Option (Option PersistedValidationData)
  pub validation_code_hash : H256 → ParaId → OccupiedCoreAssumption → Option (Option H256)
