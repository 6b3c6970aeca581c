-- ===== src/Template/Api.antt =====
-- template/runtime/src/apis.rs: what the runtime answers to a client, from the chain's state.
use on_demand.Prelude.{ℕ, Bool, Option, List}
use Prim.Native.String.{String}
use on_demand.Primitives.{H256, OnDemandRuntimeApi}
use on_demand.Pallet.State.{AccountId, Balance, State}
use on_demand.Pallet.Calls.{runtime_api}
use on_demand.Pallet.Weights.{Weight}
use on_demand.Template.Constants
use on_demand.Template.Genesis
use on_demand.Template.Genesis.{Development, RuntimeGenesisConfig}
use on_demand.Template.Rewarding.{Pallets, types}

-- `RuntimeVersion`, without the versions of the APIs.
pub record RuntimeVersion : Type 0 where
  pub spec_name : String
  pub impl_name : String
  pub authoring_version : ℕ
  pub spec_version : ℕ
  pub impl_version : ℕ
  pub transaction_version : ℕ
  pub system_version : ℕ

-- `VERSION`.
abbrev pub version : RuntimeVersion
version = record {
  spec_name = "parachain-template-runtime";
  impl_name = "parachain-template-runtime";
  authoring_version = 1;
  spec_version = 1;
  impl_version = 0;
  transaction_version = 1;
  system_version = 1;
}

-- The types of a block and of the answers, which the libraries define.
pub record ApiTypes : Type 1 where
  pub Block : Type 0
  pub Header : Type 0
  pub Extrinsic : Type 0
  pub RuntimeCall : Type 0
  pub InherentMap : Type 0
  pub CheckInherentsResult : Type 0
  pub ExtrinsicInclusionMode : Type 0
  pub ApplyExtrinsicResult : Type 0
  pub TransactionSource : Type 0
  pub TransactionValidity : Type 0
  pub DispatchInfo : Type 0
  pub FeeDetails : Type 0
  pub CollationInfo : Type 0

module _ (p : Pallets) (t : ApiTypes) where
  open t use {
    Block, Header, Extrinsic, RuntimeCall, InherentMap, CheckInherentsResult,
    ExtrinsicInclusionMode, ApplyExtrinsicResult, TransactionSource, TransactionValidity,
    DispatchInfo, FeeDetails, CollationInfo,
  }

  -- A call that writes takes the chain's state and gives the next one; one that panics is `none`.
  abbrev pub Writes : Type 0 → Type 0
  Writes A = State (types p) → Option (State (types p) × A)

  -- The functions of the other pallets, and of `Executive` over all pallets.
  pub record ApiLibraries : Type 0 where
    pub can_build_upon : p.System → H256 → ℕ → Bool
    pub execute_block : Block → Writes (Unit {0})
    pub initialize_block : Header → Writes ExtrinsicInclusionMode
    pub apply_extrinsic : Extrinsic → Writes ApplyExtrinsicResult
    pub finalize_block : Writes Header
    pub validate_transaction : TransactionSource → Extrinsic → H256 → Writes TransactionValidity
    pub offchain_worker : Header → Writes (Unit {0})
    pub metadata : List ℕ
    pub metadata_at_version : ℕ → Option (List ℕ)
    pub metadata_versions : List ℕ
    pub create_extrinsics : InherentMap → State (types p) → List Extrinsic
    pub check_extrinsics : InherentMap → Block → State (types p) → CheckInherentsResult
    pub generate_session_keys : Option (List ℕ) → List ℕ
    pub decode_into_raw_public_keys : List ℕ → Option (List (List ℕ × ℕ))
    pub account_nonce : p.System → AccountId → ℕ
    pub query_info : p.System → Extrinsic → ℕ → DispatchInfo
    pub query_fee_details : p.System → Extrinsic → ℕ → FeeDetails
    pub query_call_info : p.System → RuntimeCall → ℕ → DispatchInfo
    pub query_call_fee_details : p.System → RuntimeCall → ℕ → FeeDetails
    pub weight_to_fee : Weight → Balance
    pub length_to_fee : ℕ → Balance
    pub collect_collation_info : p.System → Header → CollationInfo
    pub build_state : List ℕ → Writes (Unit {0})
    pub get_preset : Option ℕ → (ℕ → Option (RuntimeGenesisConfig p.AuthorityId)) → Option (List ℕ)

  -- The traits of `impl_runtime_apis!`, each with the answers of one state.
  pub record AuraApi : Type 0 where
    pub slot_duration : ℕ
    pub authorities : List p.AuthorityId

  pub record Core : Type 0 where
    pub version : RuntimeVersion
    pub execute_block : Block → Option (State (types p) × Unit {0})
    pub initialize_block : Header → Option (State (types p) × ExtrinsicInclusionMode)

  pub record Metadata : Type 0 where
    pub metadata : List ℕ
    pub metadata_at_version : ℕ → Option (List ℕ)
    pub metadata_versions : List ℕ

  pub record BlockBuilder : Type 0 where
    pub apply_extrinsic : Extrinsic → Option (State (types p) × ApplyExtrinsicResult)
    pub finalize_block : Option (State (types p) × Header)
    pub inherent_extrinsics : InherentMap → List Extrinsic
    pub check_inherents : Block → InherentMap → CheckInherentsResult

  pub record TransactionPaymentApi (Call : Type 0) : Type 0 where
    pub query_info : Call → ℕ → DispatchInfo
    pub query_fee_details : Call → ℕ → FeeDetails
    pub query_weight_to_fee : Weight → Balance
    pub query_length_to_fee : ℕ → Balance

  pub record SessionKeys : Type 0 where
    pub generate_session_keys : Option (List ℕ) → List ℕ
    pub decode_session_keys : List ℕ → Option (List (List ℕ × ℕ))

  pub record GenesisBuilder : Type 0 where
    pub build_state : List ℕ → Option (State (types p) × Unit {0})
    pub get_preset : Option ℕ → Option (List ℕ)
    pub preset_names : List ℕ

module _ {p : Pallets} {t : ApiTypes} (l : ApiLibraries p t) (s : State (types p)) where
  -- The runtime's own functions, in milliseconds and over the consensus hook.
  abbrev pub impl_slot_duration : ℕ
  impl_slot_duration = Constants.slot_duration

  abbrev pub impl_can_build_upon : H256 → ℕ → Bool
  impl_can_build_upon included_hash slot = l.can_build_upon s.system included_hash slot

  abbrev pub aura_api : AuraApi p t
  aura_api = record {
    slot_duration = impl_slot_duration;
    authorities = p.aura_authorities s.system;
  }

  -- `AuraUnincludedSegmentApi`.
  abbrev pub can_build_upon : H256 → ℕ → Bool
  can_build_upon included_hash slot = impl_can_build_upon included_hash slot

  abbrev pub core : Core p t
  core = record {
    version = version;
    execute_block = λ block. l.execute_block block s;
    initialize_block = λ header. l.initialize_block header s;
  }

  abbrev pub metadata_api : Metadata p t
  metadata_api = record {
    metadata = l.metadata;
    metadata_at_version = l.metadata_at_version;
    metadata_versions = l.metadata_versions;
  }

  abbrev pub block_builder : BlockBuilder p t
  block_builder = record {
    apply_extrinsic = λ extrinsic. l.apply_extrinsic extrinsic s;
    finalize_block = l.finalize_block s;
    inherent_extrinsics = λ inherents. l.create_extrinsics inherents s;
    check_inherents = λ block inherents. l.check_extrinsics inherents block s;
  }

  -- `TaggedTransactionQueue`.
  abbrev pub validate_transaction :
      t.TransactionSource → t.Extrinsic → H256 → Option (State (types p) × t.TransactionValidity)
  validate_transaction source tx block_hash = l.validate_transaction source tx block_hash s

  -- `OffchainWorkerApi`.
  abbrev pub offchain_worker : t.Header → Option (State (types p) × Unit {0})
  offchain_worker header = l.offchain_worker header s

  abbrev pub session_keys : SessionKeys p t
  session_keys = record {
    generate_session_keys = l.generate_session_keys;
    decode_session_keys = l.decode_into_raw_public_keys;
  }

  -- `AccountNonceApi`.
  abbrev pub account_nonce : AccountId → ℕ
  account_nonce account = l.account_nonce s.system account

  abbrev pub transaction_payment_api : TransactionPaymentApi p t t.Extrinsic
  transaction_payment_api = record {
    query_info = l.query_info s.system;
    query_fee_details = l.query_fee_details s.system;
    query_weight_to_fee = l.weight_to_fee;
    query_length_to_fee = l.length_to_fee;
  }

  abbrev pub transaction_payment_call_api : TransactionPaymentApi p t t.RuntimeCall
  transaction_payment_call_api = record {
    query_info = l.query_call_info s.system;
    query_fee_details = l.query_call_fee_details s.system;
    query_weight_to_fee = l.weight_to_fee;
    query_length_to_fee = l.length_to_fee;
  }

  -- `CollectCollationInfo`.
  abbrev pub collect_collation_info : t.Header → t.CollationInfo
  collect_collation_info header = l.collect_collation_info s.system header

  abbrev pub genesis_builder : Development p.AuthorityId → GenesisBuilder p t
  genesis_builder d = record {
    build_state = λ config. l.build_state config s;
    get_preset = λ id. l.get_preset id (Genesis.get_preset d);
    preset_names = Genesis.preset_names d;
  }

  abbrev pub on_demand_api : OnDemandRuntimeApi Balance
  on_demand_api = runtime_api s
