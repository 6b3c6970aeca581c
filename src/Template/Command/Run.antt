-- ===== src/Template/Command/Run.antt =====
-- template/node/src/command.rs, `run`: what each command comes to.
use on_demand.Prelude.{Option, none, some, ◌∷◌, Outcome, ok, err, panicked, ◌>>=◌, if◌then◌else◌}
use on_demand.Template.Startup.Effects.{Effects, StartError}
use on_demand.Template.Startup.Libraries.{Libraries, Task}
use on_demand.Template.Startup.Partial.{Service, new_partial}
use on_demand.Template.Startup.Node.{start_parachain_node}
use on_demand.Template.Startup.Started.{nothing}
use on_demand.Template.Command.Spec.{try_get, load_spec}
use on_demand.Template.Command.Relay.{CliTypes, new, cli_configuration, unwrap_or_default}
use on_demand.Template.Command.Cli.{
  BenchmarkCmd, pallet, block, storage, machine, another, Subcommand, build_spec, check_block,
  export_blocks, export_state, import_blocks, revert, purge_chain, export_genesis_head,
  export_genesis_wasm, benchmark, CommandError, runner_failed, service_failed,
  relay_chain_argument_error, no_parachain_id, spec_failed, benchmarking_not_enabled,
  storage_benchmarks_not_enabled, benchmark_unsupported, Cli, Config, CliLibraries, Action,
  spec_is_built, block_is_checked, blocks_are_exported, state_is_exported, blocks_are_imported,
  blocks_are_reverted, chain_is_purged, genesis_head_is_exported, genesis_wasm_is_exported,
  pallet_is_benchmarked, block_is_benchmarked, storage_is_benchmarked, machine_is_benchmarked,
  node_runs,
}

module _ (l : Libraries) (T : CliTypes) where
  open l use {CollatorOptions, HwBench}

  module _ (c : CliLibraries l T) where
    open c use {Cmd, create_runner}

    -- What was spawned on the way, and the action.
    abbrev pub CommandResult : Type 0
    CommandResult = Outcome CommandError (Effects (Task l) × Action l T c)

    abbrev pub simply : Action l T c → CommandResult
    simply a = ok (nothing l, a)

    abbrev pub runner : Cmd → Outcome CommandError (Config l)
    runner cmd = elim (create_runner cmd) [ none ↦ err runner_failed | some config ↦ ok config ]

    abbrev pub serviced {ℓ} :
        {A : Type ℓ}
        → Effects (Task l) × Outcome StartError A
        → Outcome CommandError (Effects (Task l) × A)
    serviced (w, ok a) = ok (w, a)
    serviced (w, err e) = err (service_failed e)
    serviced (w, panicked) = panicked

    -- `construct_async_run!`, and the same steps where they are written out.
    unfoldable pub with_partial : Cmd → (Config l → Service l → Action l T c) → CommandResult
    with_partial cmd action = do
      config ← runner cmd
      (w, components) ← serviced (new_partial l config (nothing l))
      ok (w, action config components)

    -- `RelayChainCli::new` and `SubstrateCli::create_configuration`.
    unfoldable pub polkadot_config :
        Cli Cmd CollatorOptions → Config l → Outcome CommandError (Config l)
    polkadot_config cli config =
        let polkadot_cli = cli_configuration T (
          new T (c.chain_spec config.settings) (c.base_path config.settings)
            (c.parse_from (c.executable_name ∷ cli.relay_chain_args))) in
        elim (c.create_configuration polkadot_cli) [
          | ok relay_config ↦ ok relay_config
          | err e ↦ err (relay_chain_argument_error e)
          | panicked ↦ panicked
        ]

    unfoldable pub run_benchmark : BenchmarkCmd Cmd → CommandResult
    run_benchmark (pallet cmd) = do
      config ← runner cmd
      if c.runtime_benchmarks
          then simply (pallet_is_benchmarked cmd (c.chain_spec config.settings))
          else err benchmarking_not_enabled
    run_benchmark (block cmd) =
        with_partial cmd (λ config components. block_is_benchmarked cmd components.client)
    run_benchmark (storage cmd) =
        if c.runtime_benchmarks
        then with_partial cmd (λ config components.
          storage_is_benchmarked cmd config components.client components.backend)
        else (do _ ← runner cmd; err storage_benchmarks_not_enabled)
    run_benchmark (machine cmd) = do config ← runner cmd; simply (machine_is_benchmarked cmd config)
    run_benchmark (another cmd) = do _ ← runner cmd; err benchmark_unsupported

    unfoldable pub run_subcommand : Cli Cmd CollatorOptions → Subcommand Cmd → CommandResult
    unfolding polkadot_config run_benchmark
    run_subcommand cli (build_spec cmd) = do
      config ← runner cmd
      simply (spec_is_built cmd (c.chain_spec config.settings) (c.network config.settings))
    run_subcommand cli (check_block cmd) =
        with_partial cmd
          (λ config components. block_is_checked cmd components.client components.import_queue)
    run_subcommand cli (export_blocks cmd) = with_partial cmd (λ config components.
        blocks_are_exported cmd components.client (c.database config.settings))
    run_subcommand cli (export_state cmd) = with_partial cmd (λ config components.
        state_is_exported cmd components.client (c.chain_spec config.settings))
    run_subcommand cli (import_blocks cmd) =
        with_partial cmd
          (λ config components. blocks_are_imported cmd components.client components.import_queue)
    run_subcommand cli (revert cmd) =
        with_partial cmd
          (λ config components. blocks_are_reverted cmd components.client components.backend)
    run_subcommand cli (purge_chain cmd) = do
      config ← runner cmd
      relay_config ← polkadot_config cli config
      simply (chain_is_purged cmd config relay_config)
    run_subcommand cli (export_genesis_head cmd) =
        with_partial cmd (λ config components. genesis_head_is_exported cmd components.client)
    run_subcommand cli (export_genesis_wasm cmd) = do
      _ ← runner cmd
      elim (load_spec c.sources (unwrap_or_default T (c.chain_of cmd))) [
        | ok spec ↦ simply (genesis_wasm_is_exported cmd spec)
        | err e ↦ err (spec_failed e)
        | panicked ↦ panicked
      ]
    run_subcommand cli (benchmark cmd) = run_benchmark cmd

    abbrev pub hwbench : Cli Cmd CollatorOptions → Config l → Option HwBench
    hwbench cli config =
        if cli.no_hardware_benchmarks then none else elim (c.database_path config.settings) [
          | none ↦ none
          | some database_path ↦ some (c.gather_hwbench database_path)
        ]

    -- The branch without a subcommand: the node itself.
    unfoldable pub run_node : Cli Cmd CollatorOptions → CommandResult
    unfolding polkadot_config try_get
    run_node cli = do
      config ← runner cli.run
      elim (try_get (c.chain_spec config.settings)) [
        | none ↦ err no_parachain_id
        | some e ↦ (do
          relay_config ← polkadot_config cli config
          (w, client) ← serviced (
              start_parachain_node l config relay_config cli.collator_options e.para_id
                (hwbench cli config) (nothing l))
          ok (w, node_runs client))
      ]

    unfoldable pub run : Cli Cmd CollatorOptions → CommandResult
    unfolding run_subcommand run_node
    run cli = elim cli.subcommand [
      | none ↦ run_node cli
      | some subcommand ↦ run_subcommand cli subcommand
    ]
