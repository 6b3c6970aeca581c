-- ===== src/Template/Startup/Libraries.antt =====
-- template/node/src/service.rs: the node's configuration, and what the start calls of the client
-- libraries.
use on_demand.Prelude.{ℕ, Bool, Option, List}
use on_demand.Primitives.{ParaId}
use on_demand.Template.Startup.Effects.{RecordRef}

-- The bytes of a text.
abbrev pub Text : Type 0
Text = List ℕ

-- `DARecoveryProfile`.
pub data RecoveryProfile : Type 0 where
  collator : RecoveryProfile
  full_node : RecoveryProfile

-- The parts of `Configuration` that the code looks at; `Settings` is all else, which it passes on.
pub record Configuration (Settings SocketAddr : Type 0) : Type 0 where
  pub role_is_authority : Bool
  pub offchain_worker_enabled : Bool
  pub telemetry_endpoints : Option (List ℕ)
  pub default_heap_pages : Option ℕ
  pub wasm_method : ℕ
  pub max_runtime_instances : ℕ
  pub runtime_cache_size : ℕ
  pub rpc_addr : Option (List SocketAddr)
  pub settings : Settings

-- `HeapAllocStrategy`, with the library's default apart.
pub data HeapAllocStrategy : Type 0 where
  default_heap_alloc_strategy : HeapAllocStrategy
  static_heap : ℕ → HeapAllocStrategy

-- The `WasmExecutor` as its builder is told to make it.
pub record ParachainExecutor : Type 0 where
  pub execution_method : ℕ
  pub onchain_heap_alloc_strategy : HeapAllocStrategy
  pub offchain_heap_alloc_strategy : HeapAllocStrategy
  pub max_runtime_instances : ℕ
  pub runtime_cache_size : ℕ

-- A call that may fail is an option. The task manager is the effects' list, and the clones of an
-- `Arc` are one value.
pub record Libraries : Type 1 where
  pub Settings : Type 0
  pub SocketAddr : Type 0
  pub Telemetry : Type 0
  pub Client : Type 0
  pub Backend : Type 0
  pub KeystoreContainer : Type 0
  pub TransactionPool : Type 0
  pub BlockImport : Type 0
  pub ImportQueue : Type 0
  pub CollatorOptions : Type 0
  pub HwBench : Type 0
  pub RelayChain : Type 0
  pub CollatorPair : Type 0
  pub Network : Type 0
  pub OverseerHandle : Type 0
  -- The text of an endpoint's `listen_addr`.
  pub listen_addr : SocketAddr → Text
  -- `TelemetryWorker::new` and its handle's `new_telemetry`.
  pub new_telemetry : List ℕ → Option Telemetry
  pub new_full_parts_record_import :
      Configuration Settings SocketAddr
      → Option Telemetry
      → ParachainExecutor
      → Option (Client × Backend × KeystoreContainer)
  pub build_pool : Client → Bool → Settings → TransactionPool
  pub block_import : Client → Backend → BlockImport
  pub fully_verifying_import_queue :
      Client → BlockImport → Settings → Option Telemetry → ImportQueue
  pub prepare_node_config : Configuration Settings SocketAddr → Configuration Settings SocketAddr
  -- With the relay chain's configuration and the parachain's, in this order.
  pub build_relay_chain_interface :
      Configuration Settings SocketAddr
      → Configuration Settings SocketAddr
      → Option Telemetry
      → CollatorOptions
      → Option HwBench
      → Option (RelayChain × Option CollatorPair)
  pub build_network :
      Configuration Settings SocketAddr
      → Client
      → TransactionPool
      → ParaId
      → RelayChain
      → ImportQueue
      → Option Network
  pub new_offchain_workers :
      Client → KeystoreContainer → Backend → TransactionPool → Network → Bool → Option (Unit {0})
  pub spawn_tasks :
      Client
      → TransactionPool
      → Configuration Settings SocketAddr
      → KeystoreContainer
      → Backend
      → Network
      → Option (Unit {0})
  pub overseer_handle : RelayChain → Option OverseerHandle
  -- Its slot duration is in seconds.
  pub start_relay_chain_tasks :
      Client → ParaId → RelayChain → ImportQueue → ℕ → OverseerHandle → Option (Unit {0})

module _ (l : Libraries) where
  open l use {
    Client, Backend, KeystoreContainer, TransactionPool, BlockImport, RelayChain, CollatorPair,
    OverseerHandle, Telemetry, HwBench,
  }

  -- The arguments of `run_on_demand_task`, in the order service.
  pub record OnDemandTask : Type 0 where
    pub para_id : ParaId
    pub parachain : Client
    pub relay_chain : RelayChain
    pub keystore : KeystoreContainer
    pub transaction_pool : TransactionPool
    pub relay_url : Text
    pub order_record : RecordRef

  -- `AuraParams`. Its inherent data comes from the record, its proposer from the pool; the durations
  -- are in milliseconds.
  pub record AuraParams : Type 0 where
    pub order_record : RecordRef
    pub block_import : BlockImport
    pub para_client : Client
    pub para_backend : Backend
    pub relay_client : RelayChain
    pub keystore : KeystoreContainer
    pub collator_key : CollatorPair
    pub para_id : ParaId
    pub overseer_handle : OverseerHandle
    pub relay_chain_slot_duration : ℕ
    pub proposer_pool : TransactionPool
    pub authoring_duration : ℕ
    pub reinitialize : Bool

  -- What has been spawned or started.
  pub data Task : Type 0 where
    telemetry_task : Telemetry → Task
    offchain_workers : Task
    service_tasks : Task
    telemetry_hwbench : Telemetry → HwBench → Task
    relay_chain_tasks : RecoveryProfile → Task
    on_demand_task : OnDemandTask → Task
    aura_task : AuraParams → Task
    network : Task
