-- ===== src/Tests/Startup.antt =====
-- Runs of the node's start.
use on_demand.Prelude.{ℕ, ◌≡◌, refl, true, false, none, some, [], ◌∷◌, any, ok, inr}
use on_demand.Template.Startup.Libraries.{
  Configuration, Libraries, network, aura_task, on_demand_task, collator,
}
use on_demand.Template.Startup.Node.{start_parachain_node, relay_rpc}
use on_demand.Template.Startup.Keeps.{is_ok}
use on_demand.Template.Startup.Started.{
  is_network, is_collating, nothing, start_parachain_node-network,
}
use on_demand.Template.Startup.Startable.{
  IsStartable, aura, orders, common_tasks, started_validator,
}

-- Libraries that answer every call, with a number for each of their objects.
abbrev pub libraries : Libraries
libraries = record {
  Settings = ℕ;
  SocketAddr = ℕ;
  Telemetry = ℕ;
  Client = ℕ;
  Backend = ℕ;
  KeystoreContainer = ℕ;
  TransactionPool = ℕ;
  BlockImport = ℕ;
  ImportQueue = ℕ;
  CollatorOptions = ℕ;
  HwBench = ℕ;
  RelayChain = ℕ;
  CollatorPair = ℕ;
  Network = ℕ;
  OverseerHandle = ℕ;
  listen_addr = λ endpoint. endpoint ∷ [];
  new_telemetry = λ endpoints. some 1;
  new_full_parts_record_import = λ config telemetry executor. some (2, 3, 4);
  build_pool = λ client is_validator settings. 5;
  block_import = λ client backend. 6;
  fully_verifying_import_queue = λ client block_import settings telemetry. 7;
  prepare_node_config = λ config. config;
  build_relay_chain_interface = λ polkadot config telemetry options bench. some (8, some 9);
  build_network = λ config client pool para_id relay_chain queue. some 10;
  new_offchain_workers = λ client keystore backend pool net is_validator. some tt;
  spawn_tasks = λ client pool config keystore backend net. some tt;
  overseer_handle = λ relay_chain. some 11;
  start_relay_chain_tasks = λ client para_id relay_chain queue duration overseer. some tt;
}

abbrev pub parachain_config : Configuration ℕ ℕ
parachain_config = record {
  role_is_authority = true;
  offchain_worker_enabled = true;
  telemetry_endpoints = some (1 ∷ []);
  default_heap_pages = none;
  wasm_method = 0;
  max_runtime_instances = 8;
  runtime_cache_size = 2;
  rpc_addr = none;
  settings = 0;
}

abbrev pub relay_config : Configuration ℕ ℕ
relay_config = record parachain_config { rpc_addr = some (9944 ∷ []) }

start_parachain_node-network_example :
    let (w, result) =
      start_parachain_node libraries parachain_config relay_config 0 1000 none
        (nothing libraries) in
    (any (is_network libraries) w.tasks ≡ is_ok result)
    × (true ≡ false → any (is_collating libraries) w.tasks ≡ false)
    × (true ≡ true → relay_rpc libraries (some (9944 ∷ [])) ≡ none → is_ok result ≡ false)
start_parachain_node-network_example =
    start_parachain_node-network libraries parachain_config relay_config 0 1000 none

abbrev pub startable : IsStartable libraries parachain_config relay_config 0 1000 none
startable = record {
  telemetry = some 1;
  telemetry_made = refl;
  client = 2;
  backend = 3;
  keystore = 4;
  parts_made = refl;
  relay_chain = 8;
  collator_key = some 9;
  relay_chain_made = refl;
  net = 10;
  network_made = refl;
  offchain_workers_made = inr refl;
  tasks_spawned = refl;
  overseer = 11;
  overseer_known = refl;
  relay_chain_tasks_started = refl;
}

started_validator_example :
    start_parachain_node libraries parachain_config relay_config 0 1000 none (nothing libraries) ≡ (
      record {
        tasks =
            network
            ∷ aura_task (aura libraries parachain_config relay_config 0 1000 none startable 9)
            ∷ on_demand_task
                (orders libraries parachain_config relay_config 0 1000 none startable (9944 ∷ []))
            ∷ common_tasks libraries parachain_config relay_config 0 1000 none startable collator;
        records = record { relay_block_hash = none; last_slot = 0 } ∷ [];
      },
      ok 2,
    )
started_validator_example =
    started_validator libraries parachain_config relay_config 0 1000 none startable 9 (9944 ∷ [])
      refl refl refl
