-- ===== src/Template/Startup/Partial.antt =====
-- template/node/src/service.rs, `new_partial` and `build_import_queue`: the components that every
-- command of the node needs.
use on_demand.Prelude.{ℕ, Option, none, some, List, [], ◌∷◌}
use on_demand.Template.Startup.Effects.{
  M, pure, ◌>>=◌, ◌>>◌, call, spawn, telemetry_failed, parts_failed,
}
use on_demand.Template.Startup.Libraries.{
  Configuration, HeapAllocStrategy, default_heap_alloc_strategy, static_heap, ParachainExecutor,
  Libraries, Task, telemetry_task,
}

module _ (l : Libraries) where
  open l use {
    Settings, SocketAddr, Telemetry, Client, Backend, KeystoreContainer, TransactionPool,
    BlockImport, ImportQueue,
  }

  -- `PartialComponents`; `telemetry_worker_handle` is there exactly when the telemetry is.
  pub record Service : Type 0 where
    pub backend : Backend
    pub client : Client
    pub import_queue : ImportQueue
    pub keystore_container : KeystoreContainer
    pub transaction_pool : TransactionPool
    pub block_import : BlockImport
    pub telemetry_handle : Option Telemetry

  -- `filter(|x| !x.is_empty())`.
  abbrev pub nonempty : Option (List ℕ) → Option (List ℕ)
  nonempty none = none
  nonempty (some []) = none
  nonempty (some (x ∷ xs)) = some (x ∷ xs)

  -- `map(..).transpose()?`.
  unfoldable pub start_telemetry : Option (List ℕ) → M (Task l) (Option Telemetry)
  start_telemetry none = pure none
  start_telemetry (some endpoints) = do
    worker ← call telemetry_failed (l.new_telemetry endpoints)
    pure (some worker)

  abbrev pub heap_pages : Option ℕ → HeapAllocStrategy
  heap_pages none = default_heap_alloc_strategy
  heap_pages (some h) = static_heap h

  unfoldable pub executor : Configuration Settings SocketAddr → ParachainExecutor
  executor config = record {
    execution_method = config.wasm_method;
    onchain_heap_alloc_strategy = heap_pages config.default_heap_pages;
    offchain_heap_alloc_strategy = heap_pages config.default_heap_pages;
    max_runtime_instances = config.max_runtime_instances;
    runtime_cache_size = config.runtime_cache_size;
  }

  unfoldable pub spawn_telemetry : Option Telemetry → M (Task l) (Unit {0})
  spawn_telemetry none = pure tt
  spawn_telemetry (some t) = spawn (telemetry_task t)

  unfoldable pub build_import_queue :
      Client → BlockImport → Configuration Settings SocketAddr → Option Telemetry → ImportQueue
  build_import_queue client block_import config telemetry =
      l.fully_verifying_import_queue client block_import config.settings telemetry

  unfoldable pub new_partial : Configuration Settings SocketAddr → M (Task l) Service
  new_partial config = do
    telemetry_handle ← start_telemetry (nonempty config.telemetry_endpoints)
    (client, backend, keystore_container) ←
        call parts_failed (l.new_full_parts_record_import config telemetry_handle (executor config))
    spawn_telemetry telemetry_handle
    let block_import = l.block_import client backend
    pure (record {
      backend = backend;
      client = client;
      import_queue = build_import_queue client block_import config telemetry_handle;
      keystore_container = keystore_container;
      transaction_pool = l.build_pool client config.role_is_authority config.settings;
      block_import = block_import;
      telemetry_handle = telemetry_handle;
    })
