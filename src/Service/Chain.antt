-- ===== src/Service/Chain.antt =====
-- services/order/src/chain.rs: what the service reads from the relay chain's storage.
use on_demand.Prelude.{
  ℕ, zero, suc, ◌+◌, Bool, true, false, Option, none, some, List, any, ok, saturating_mul, u128_max,
  ◌>>=◌,
}
use on_demand.Primitives.{H256, ParaId}
use on_demand.Primitives.Keys.{
  Hashing, queue_status, active_config, core_descriptor, para_lifecycle,
}
use on_demand.Relay.{RelayChainInterface}
use on_demand.Service.Config.{Result, or_err, relay_chain_error, codec_error}

-- What the code reads of the relay chain's types.
pub record HostConfiguration : Type 0 where
  pub num_cores : ℕ
  pub on_demand_base_fee : ℕ

pub data CoreAssignment : Type 0 where
  pool : CoreAssignment
  other : CoreAssignment

pub record CoreDescriptor : Type 0 where
  pub current_work : Option (List (CoreAssignment × ℕ))

pub data ParaLifecycle : Type 0 where
  parathread : ParaLifecycle
  other : ParaLifecycle

-- The SCALE decoders of those types (a queue's status is read for its traffic, a `FixedU128` by its
-- inner number, which counts parts of 10^18).
pub record Codec : Type 0 where
  pub decode_traffic : List ℕ → Option ℕ
  pub decode_host_configuration : List ℕ → Option HostConfiguration
  pub decode_core_descriptor : List ℕ → Option CoreDescriptor
  pub decode_para_lifecycle : List ℕ → Option ParaLifecycle

-- `.map(decode).transpose()`: nothing stored is no error, bytes that do not decode are one.
abbrev pub decode_stored {ℓ} :
    {A : Type ℓ} → (List ℕ → Option A) → Option (List ℕ) → Option (Option A)
decode_stored decode none = some none
decode_stored decode (some raw) = elim (decode raw) [ none ↦ none | some a ↦ some (some a) ]

abbrev pub is_pool : CoreAssignment × ℕ → Bool
is_pool (pool, _) = true
is_pool (CoreAssignment.other, _) = false

-- The work of a core, if it has a descriptor and that has work.
abbrev pub work_of : Option CoreDescriptor → Option (List (CoreAssignment × ℕ))
work_of none = none
work_of (some descriptor) = descriptor.current_work

abbrev pub is_parathread_lifecycle : Option ParaLifecycle → Bool
is_parathread_lifecycle (some parathread) = true
is_parathread_lifecycle (some ParaLifecycle.other) = false
is_parathread_lifecycle none = false

abbrev pub spot_price : Option ℕ → Option HostConfiguration → Option ℕ
spot_price (some traffic) (some config) =
    some (saturating_mul u128_max traffic config.on_demand_base_fee)
spot_price _ _ = none

module _ {StorageProof : Type 0} (h : Hashing) (k : Codec)
    (relay_chain : RelayChainInterface StorageProof) (hash : H256) where
  -- `get_storage_by_key` and its decoding, both errors dropped by `.ok()?`.
  abbrev pub read {ℓ} : {A : Type ℓ} → (List ℕ → Option A) → List ℕ → Option (Option A)
  read decode key = elim (relay_chain.get_storage_by_key hash key) [
    | none ↦ none
    | some stored ↦ decode_stored decode stored
  ]

  unfoldable pub get_spot_price : Option ℕ
  get_spot_price = elim (read k.decode_traffic queue_status) [
    | none ↦ none
    | some traffic ↦ elim (read k.decode_host_configuration active_config) [
      | none ↦ none
      | some config ↦ spot_price traffic config
    ]
  ]

  unfoldable pub is_parathread : ParaId → Result Bool
  is_parathread para_id = do
    stored ←
        or_err relay_chain_error (relay_chain.get_storage_by_key hash (para_lifecycle h para_id))
    lifecycle ← or_err codec_error (decode_stored k.decode_para_lifecycle stored)
    ok (is_parathread_lifecycle lifecycle)

  -- The loop over the cores from `core` on, `rounds` of them. It ends at the first core with work.
  unfoldable pub find_pool : ℕ → ℕ → Option Bool
  find_pool zero core = some false
  find_pool (suc rounds) core = elim (read k.decode_core_descriptor (core_descriptor h core)) [
    | none ↦ none
    | some descriptor ↦ elim (work_of descriptor) [
      | some assignments ↦ some (any is_pool assignments)
      | none ↦ find_pool rounds (core + 1)
    ]
  ]

  unfoldable pub on_demand_cores_available : Option Bool
  unfolding find_pool
  on_demand_cores_available = elim (read k.decode_host_configuration active_config) [
    | none ↦ none
    | some none ↦ none
    | some (some config) ↦ find_pool config.num_cores 0
  ]
