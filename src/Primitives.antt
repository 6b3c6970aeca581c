-- ===== src/Primitives.antt =====
-- primitives/order/src/lib.rs: the data that the node, the inherent and the pallet share.
-- A hash (`H256`) is its 32 bytes read as a number, and a parachain's id its `u32`.
pub mod Keys
use on_demand.Prelude.{ℕ, Option, Bool}

abbrev pub H256 : Type 0
H256 = ℕ

abbrev pub ParaId : Type 0
ParaId = ℕ

-- The storage proof is a structure of `sp_trie`, so its type is a parameter.
pub record InherentData (StorageProof : Type 0) : Type 0 where
  pub relay_storage_proof : StorageProof
  pub relay_state_root : H256
  pub relay_height : ℕ
  pub para_id : ParaId

-- The source's field is `data`, which is a reserved word here.
pub record OrderInherentData (StorageProof : Type 0) : Type 0 where
  pub inherent : Option (InherentData StorageProof)

pub record OrderRecord : Type 0 where
  pub relay_block_hash : Option H256
  pub last_slot : ℕ

-- The runtime's answers to the node. A call may fail, which is `none` where a node makes it.
pub record OnDemandRuntimeApi (ThresholdParameter : Type 0) : Type 0 where
  pub slot_width : ℕ
  pub threshold_parameter : ThresholdParameter
  pub bulk_mode : Bool
