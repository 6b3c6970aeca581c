-- ===== src/Tests/Command.antt =====
-- Runs of the node's command line.
use on_demand.Prelude.{ℕ, ◌≡◌, refl, true, false, Option, none, some, [], ◌∷◌, ok, err}
use Prim.Native.String.{String}
use on_demand.Template.Node.{initial_record}
use on_demand.Template.Startup.Effects.{Effects, ◌>>=◌, ◌>>◌, call, expect, spawn, pure, new_record}
use on_demand.Template.Startup.Libraries.{Task, network, aura_task, on_demand_task, collator}
use on_demand.Template.Startup.Partial.{
  build_import_queue, new_partial, start_telemetry, spawn_telemetry,
}
use on_demand.Template.Startup.Node.{
  start_parachain_node, start_common, start_validator, start_on_demand, start_consensus,
  start_offchain_workers, report_hwbench,
}
use on_demand.Template.Startup.Startable.{aura, orders, common_tasks}
use on_demand.Template.Command.Spec.{SpecSources, local_spec}
use on_demand.Template.Command.Relay.{CliTypes, CliConfiguration}
use on_demand.Template.Command.Cli.{Cli, CliLibraries, node_runs, Subcommand}
use on_demand.Template.Command.Run.{run}
use on_demand.Template.Command.Laws.{IsNodeRun, run_iff}
use on_demand.Tests.Presets.{development}
use on_demand.Tests.Startup.{libraries, parachain_config, relay_config, startable}

abbrev sources : SpecSources ℕ ℕ
sources = record {
  wasm_binary = some 1;
  keyring = development;
  from_json_file = λ path. err "no such file";
}

abbrev cli_types : CliTypes
cli_types = record {
  Wasm = ℕ;
  SharedParams = ℕ;
  ImportParams = ℕ;
  NetworkParams = ℕ;
  KeystoreParams = ℕ;
  RpcEndpoint = ℕ;
  PrometheusConfig = ℕ;
  Role = ℕ;
  TransactionPoolOptions = ℕ;
  RpcMethods = ℕ;
  TelemetryEndpoints = ℕ;
  shared_base_path = λ shared. ok none;
}

abbrev unnamed : String
unnamed = ""

-- The relay chain's command line without arguments.
abbrev base : CliConfiguration cli_types
base = record {
  shared_params = 0;
  import_params = none;
  network_params = none;
  keystore_params = none;
  base_path = ok none;
  rpc_addr = λ port. ok none;
  prometheus_config = λ port spec. ok none;
  init = ok tt;
  chain_id = λ is_dev. ok unnamed;
  role = λ is_dev. ok 0;
  transaction_pool = λ is_dev. ok 0;
  trie_cache_maximum_size = ok none;
  rpc_methods = ok 0;
  rpc_max_connections = ok 100;
  rpc_cors = λ is_dev. ok none;
  default_heap_pages = ok none;
  force_authoring = ok false;
  disable_grandpa = ok false;
  max_runtime_instances = ok none;
  announce_block = ok true;
  telemetry_endpoints = λ spec. ok none;
  node_name = ok "node";
}

abbrev cli_libraries : CliLibraries libraries cli_types
cli_libraries = record {
  Cmd = ℕ;
  AuraId = ℕ;
  Network = ℕ;
  Database = ℕ;
  runtime_benchmarks = false;
  executable_name = "node";
  sources = sources;
  chain_spec = λ settings. local_spec sources 1;
  base_path = λ settings. "data" ∷ [];
  network = λ settings. 0;
  database = λ settings. 0;
  database_path = λ settings. none;
  chain_of = λ cmd. none;
  create_runner = λ cmd. some parachain_config;
  parse_from = λ args. base;
  create_configuration = λ c. ok relay_config;
  gather_hwbench = λ path. 0;
}

abbrev cli : Option (Subcommand ℕ) → Cli ℕ ℕ
cli subcommand = record {
  subcommand = subcommand;
  run = 0;
  collator_options = 0;
  no_hardware_benchmarks = true;
  relay_chain_args = [];
}

abbrev authority_effects : Effects (Task libraries)
authority_effects = record {
  tasks =
      network
      ∷ aura_task (aura libraries parachain_config relay_config 0 1000 none startable 9)
      ∷ on_demand_task
          (orders libraries parachain_config relay_config 0 1000 none startable (9944 ∷ []))
      ∷ common_tasks libraries parachain_config relay_config 0 1000 none startable collator;
  records = record { relay_block_hash = none; last_slot = 0 } ∷ [];
}

ran : run libraries cli_types cli_libraries (cli none) ≡ ok (authority_effects, node_runs 2)
unfolding run start_parachain_node start_common start_validator start_on_demand start_consensus
    start_offchain_workers report_hwbench new_partial start_telemetry spawn_telemetry
    build_import_queue initial_record ◌>>=◌ ◌>>◌ call expect spawn pure new_record
ran = refl

run_iff_example : IsNodeRun libraries cli_types cli_libraries (cli none) authority_effects 2
run_iff_example = (run_iff libraries cli_types cli_libraries (cli none) authority_effects 2).0 ran
