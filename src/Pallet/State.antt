-- ===== src/Pallet/State.antt =====
-- pallets/on-demand/src/lib.rs: storage, events, errors and configuration of the pallet.
use on_demand.Prelude.{ℕ, List, Option, Bool}
use on_demand.Primitives.{H256, ParaId, OrderInherentData}

-- The associated types of `Config`, and the storage of the other pallets (balances, session keys,
-- AuRa, block weight), which this pallet only reaches through their functions.
pub record Types : Type 1 where
  pub AuthorityId : Type 0
  pub ValidatorId : Type 0
  pub ThresholdParameter : Type 0
  pub StorageProof : Type 0
  pub StateProof : Type 0
  pub System : Type 0

-- `AccountId32`, its bytes read as a number.
abbrev pub AccountId : Type 0
AccountId = ℕ

abbrev pub Balance : Type 0
Balance = ℕ

-- The origins of a call; `custom` stands for those that other pallets define.
pub data Origin : Type 0 where
  root : Origin
  signed : AccountId → Origin
  unsigned : Origin
  custom : ℕ → Origin

pub data Event (T : Types) : Type 0 where
  slot_width_set : ℕ → Event T
  threshold_parameter_set : T.ThresholdParameter → Event T
  order_placer_rewarded : AccountId → Balance → Event T
  bulk_mode_set : Bool → Event T

pub data Error : Type 0 where
  invalid_proof : Error
  failed_proof_reading : Error
  failed_to_get_order_placer_account : Error
  failed_to_decode_inherent_data : Error

pub data DispatchError : Type 0 where
  bad_origin : DispatchError
  pallet_error : Error → DispatchError

pub data Call (T : Types) : Type 0 where
  create_order : OrderInherentData T.StorageProof → Call T
  set_slot_width : ℕ → Call T
  set_threshold_parameter : T.ThresholdParameter → Call T
  set_bulk_mode : Bool → Call T

pub record GenesisConfig (T : Types) : Type 0 where
  pub threshold_parameter : T.ThresholdParameter
  pub bulk_mode : Bool

-- The storage items, the events of the block (newest first), and the other pallets' storage.
pub record State (T : Types) : Type 0 where
  pub authorities : List T.AuthorityId
  pub slot_width : ℕ
  pub threshold_parameter : T.ThresholdParameter
  pub bulk_mode : Option (Unit {0})
  pub previous_slot : ℕ
  pub events : List (Event T)
  pub system : T.System

-- The functions of `Config` and of the pallets that it extends.
pub record Config (T : Types) : Type 0 where
  pub admin_origin : Origin → Bool
  pub should_place_order : State T → Bool
  pub orders_placed : T.StateProof → ParaId → List (Balance × AccountId)
  pub relay_chain_state_proof : ParaId → H256 → T.StorageProof → Option T.StateProof
  pub key_owner : T.System → T.AuthorityId → Option T.ValidatorId
  pub validator_id_of : T.System → AccountId → Option T.ValidatorId
  pub validator_discrete : Discrete T.ValidatorId
  pub to_account_id : T.ValidatorId → AccountId
  pub reward_size : Balance
  pub mint_into : T.System → AccountId → Balance → Option T.System
  pub aura_authorities : T.System → List T.AuthorityId
