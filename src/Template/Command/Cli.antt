-- ===== src/Template/Command/Cli.antt =====
-- template/node/src/cli.rs: the command line, and what its commands end in.
use on_demand.Prelude.{Bool, Option, List, Outcome}
use Prim.Native.String.{String}
use on_demand.Template.Startup.Effects.{StartError}
use on_demand.Template.Startup.Libraries.{Configuration, Libraries}
use on_demand.Template.Command.Spec.{ChainSpec, SpecSources}
use on_demand.Template.Command.Relay.{BasePath, CliTypes, CliConfiguration}

-- The parameters of a subcommand are of the libraries.
pub data BenchmarkCmd (Cmd : Type 0) : Type 0 where
  pallet : Cmd → BenchmarkCmd Cmd
  block : Cmd → BenchmarkCmd Cmd
  storage : Cmd → BenchmarkCmd Cmd
  machine : Cmd → BenchmarkCmd Cmd
  another : Cmd → BenchmarkCmd Cmd

pub data Subcommand (Cmd : Type 0) : Type 0 where
  build_spec : Cmd → Subcommand Cmd
  check_block : Cmd → Subcommand Cmd
  export_blocks : Cmd → Subcommand Cmd
  export_state : Cmd → Subcommand Cmd
  import_blocks : Cmd → Subcommand Cmd
  revert : Cmd → Subcommand Cmd
  purge_chain : Cmd → Subcommand Cmd
  export_genesis_head : Cmd → Subcommand Cmd
  export_genesis_wasm : Cmd → Subcommand Cmd
  benchmark : BenchmarkCmd Cmd → Subcommand Cmd

pub data CommandError : Type 0 where
  runner_failed : CommandError
  service_failed : StartError → CommandError
  relay_chain_argument_error : String → CommandError
  no_parachain_id : CommandError
  spec_failed : String → CommandError
  benchmarking_not_enabled : CommandError
  storage_benchmarks_not_enabled : CommandError
  benchmark_unsupported : CommandError

-- The command line, its parser's errors aside.
pub record Cli (Cmd CollatorOptions : Type 0) : Type 0 where
  pub subcommand : Option (Subcommand Cmd)
  pub run : Cmd
  pub collator_options : CollatorOptions
  pub no_hardware_benchmarks : Bool
  pub relay_chain_args : List String

abbrev pub Config : Libraries → Type 0
Config l = Configuration l.Settings l.SocketAddr

module _ (l : Libraries) (T : CliTypes) where
  open l use {Settings, SocketAddr, Client, Backend, ImportQueue, CollatorOptions, HwBench}
  open T use {Wasm}

  -- What `run` calls of the libraries. `create_runner` builds the configuration of a command from its
  -- parameters, `parse_from` the relay chain's command line, and `create_configuration` the relay
  -- chain's configuration. `runtime_benchmarks` is the build's feature.
  pub record CliLibraries : Type 1 where
    pub Cmd : Type 0
    pub AuraId : Type 0
    pub Network : Type 0
    pub Database : Type 0
    pub runtime_benchmarks : Bool
    pub executable_name : String
    pub sources : SpecSources Wasm AuraId
    pub chain_spec : Settings → ChainSpec Wasm
    pub base_path : Settings → BasePath
    pub network : Settings → Network
    pub database : Settings → Database
    pub database_path : Settings → Option BasePath
    pub chain_of : Cmd → Option String
    pub create_runner : Cmd → Option (Config l)
    pub parse_from : List String → CliConfiguration T
    pub create_configuration : CliConfiguration T → Outcome String (Config l)
    pub gather_hwbench : BasePath → HwBench

  module _ (c : CliLibraries) where
    open c use {Cmd, Network, Database, create_runner}

    -- The library's function that a command ends in, with what it is given.
    pub data Action : Type 0 where
      spec_is_built : Cmd → ChainSpec Wasm → Network → Action
      block_is_checked : Cmd → Client → ImportQueue → Action
      blocks_are_exported : Cmd → Client → Database → Action
      state_is_exported : Cmd → Client → ChainSpec Wasm → Action
      blocks_are_imported : Cmd → Client → ImportQueue → Action
      blocks_are_reverted : Cmd → Client → Backend → Action
      chain_is_purged : Cmd → Config l → Config l → Action
      genesis_head_is_exported : Cmd → Client → Action
      genesis_wasm_is_exported : Cmd → ChainSpec Wasm → Action
      pallet_is_benchmarked : Cmd → ChainSpec Wasm → Action
      block_is_benchmarked : Cmd → Client → Action
      storage_is_benchmarked : Cmd → Config l → Client → Backend → Action
      machine_is_benchmarked : Cmd → Config l → Action
      node_runs : Client → Action
