-- ===== src/Template/Command/Laws.antt =====
-- template/node/src/command.rs, `run`: when a node runs, and what the other commands leave off.
use on_demand.Prelude.{
  ◌≡◌, ◌↔◌, Bool, true, false, none, some, any, arith, ok, refl, Bool-cases, Option-cases,
  Outcome-cases, inl, inr,
}
use on_demand.Template.Startup.Effects.{Effects}
use on_demand.Template.Startup.Libraries.{Libraries, Task}
use on_demand.Template.Startup.Partial.{Service, new_partial}
use on_demand.Template.Startup.Node.{start_parachain_node}
use on_demand.Template.Startup.Started.{nothing, is_network, is_collating, new_partial-Keeps}
use on_demand.Template.Command.Spec.{Extensions, try_get}
use on_demand.Template.Command.Relay.{CliTypes}
use on_demand.Template.Command.Cli.{
  Subcommand, Cli, Config, CliLibraries, Action, node_runs, check_block, export_blocks,
  export_state, import_blocks, revert, export_genesis_head, benchmark, BenchmarkCmd, block, storage,
}
use on_demand.Template.Command.Run.{
  run, run_subcommand, run_benchmark, with_partial, polkadot_config, hwbench,
}

module _ (l : Libraries) (T : CliTypes) (c : CliLibraries l T)
    (cli : Cli c.Cmd l.CollatorOptions) where
  -- How a node comes to run, with what it has started.
  pub record IsNodeRun (w : Effects (Task l)) (client : l.Client) : Type 0 where
    pub alone : cli.subcommand ≡ none
    pub config : Config l
    pub configured : c.create_runner cli.run ≡ some config
    pub extensions : Extensions
    pub extended : try_get (c.chain_spec config.settings) ≡ some extensions
    pub relay_config : Config l
    pub relay_configured : polkadot_config l T c cli config ≡ ok relay_config
    pub started :
        start_parachain_node l config relay_config cli.collator_options extensions.para_id
          (hwbench l T c cli config)
          (nothing l)
        ≡ (w, ok client)

  IsNodeRun-run :
      (w : Effects (Task l)) (client : l.Client)
      → IsNodeRun w client
      → run l T c cli ≡ ok (w, node_runs client)
  unfolding run
  IsNodeRun-run w client r = ground arith

  abbrev is_node : Action l T c → Bool
  is_node (node_runs _) = true
  is_node _ = false

  -- What every command but the node's own start leaves off.
  abbrev pub IsQuiet : Effects (Task l) → Action l T c → Type 0
  IsQuiet w a =
      (any (is_network l) w.tasks ≡ false)
      × (any (is_collating l) w.tasks ≡ false)
      × (is_node a ≡ false)

  new_partial-quiet :
      (config : Config l)
      → let w = (new_partial l config (nothing l)).0 in
        (any (is_network l) w.tasks ≡ false) × (any (is_collating l) w.tasks ≡ false)
  new_partial-quiet config = (
    (new_partial-Keeps l (is_network l) (λ t. refl) config).keeps (nothing l) refl,
    (new_partial-Keeps l (is_collating l) (λ t. refl) config).keeps (nothing l) refl,
  )

  with_partial-IsQuiet :
      (cmd : c.Cmd) (action : Config l → Service l → Action l T c) {w : Effects (Task l)}
      {a : Action l T c}
      → ((config : Config l) (s : Service l) → is_node (action config s) ≡ false)
      → with_partial l T c cmd action ≡ ok (w, a)
      → IsQuiet w a
  unfolding with_partial
  with_partial-IsQuiet cmd action {w} {a} other e = elim (Option-cases (c.create_runner cmd)) [
    | inl failed ↦ absurd (ground arith)
    | inr (config, made) ↦ elim (Outcome-cases (new_partial l config (nothing l)).1) [
      | inl (components, done) ↦
          let (no_network, no_task) = new_partial-quiet config in
          ground (arith, other config components)
      | inr (inl (f, failed)) ↦ absurd (ground arith)
      | inr (inr crashed) ↦ absurd (ground arith)
    ]
  ]

  run_benchmark-IsQuiet :
      (b : BenchmarkCmd c.Cmd) {w : Effects (Task l)} {a : Action l T c}
      → run_benchmark l T c b ≡ ok (w, a)
      → IsQuiet w a
  unfolding run_benchmark
  run_benchmark-IsQuiet (block cmd) e = with_partial-IsQuiet cmd _ (λ config s. refl) e
  run_benchmark-IsQuiet (storage cmd) e = elim (Bool-cases c.runtime_benchmarks) [
    | inl enabled ↦ with_partial-IsQuiet cmd _ (λ config s. refl) (rw enabled at e)
    | inr disabled ↦ absurd (ground arith)
  ]
  run_benchmark-IsQuiet _ e = ground arith

  run_subcommand-IsQuiet :
      (s : Subcommand c.Cmd) {w : Effects (Task l)} {a : Action l T c}
      → run_subcommand l T c cli s ≡ ok (w, a)
      → IsQuiet w a
  unfolding run_subcommand
  run_subcommand-IsQuiet (check_block cmd) e = with_partial-IsQuiet cmd _ (λ config s. refl) e
  run_subcommand-IsQuiet (export_blocks cmd) e = with_partial-IsQuiet cmd _ (λ config s. refl) e
  run_subcommand-IsQuiet (export_state cmd) e = with_partial-IsQuiet cmd _ (λ config s. refl) e
  run_subcommand-IsQuiet (import_blocks cmd) e = with_partial-IsQuiet cmd _ (λ config s. refl) e
  run_subcommand-IsQuiet (revert cmd) e = with_partial-IsQuiet cmd _ (λ config s. refl) e
  run_subcommand-IsQuiet (export_genesis_head cmd) e =
      with_partial-IsQuiet cmd _ (λ config s. refl) e
  run_subcommand-IsQuiet (benchmark cmd) e = run_benchmark-IsQuiet cmd e
  run_subcommand-IsQuiet _ e = ground arith

  run-IsNodeRun :
      (w : Effects (Task l)) (client : l.Client)
      → run l T c cli ≡ ok (w, node_runs client)
      → IsNodeRun w client
  unfolding run
  run-IsNodeRun w client e = elim (Option-cases cli.subcommand) [
    | inr (s, given) ↦ absurd (cc ((run_subcommand-IsQuiet s (rw given at e)).2))
    | inl alone ↦ elim (Option-cases (c.create_runner cli.run)) [
      | inl failed ↦ absurd (ground arith)
      | inr (config, configured) ↦ elim (Option-cases (try_get (c.chain_spec config.settings))) [
        | inl missing ↦ absurd (ground arith)
        | inr (extensions, extended) ↦ elim (Outcome-cases (polkadot_config l T c cli config)) [
          | inr (inl (f, failed)) ↦ absurd (ground arith)
          | inr (inr crashed) ↦ absurd (ground arith)
          | inl (relay_config, relay_configured) ↦ record {
            alone = alone;
            config = config;
            configured = configured;
            extensions = extensions;
            extended = extended;
            relay_config = relay_config;
            relay_configured = relay_configured;
            started = ground arith;
          }
        ]
      ]
    ]
  ]

  -- The node runs exactly when no subcommand is given, its configuration can be built, its chain has
  -- extensions, the relay chain's configuration can be built, and the node starts with both and with
  -- the parachain's id of the extensions.
  pub run_iff :
      (w : Effects (Task l)) (client : l.Client)
      → (run l T c cli ≡ ok (w, node_runs client)) ↔ IsNodeRun w client
  run_iff w client = (run-IsNodeRun w client, IsNodeRun-run w client)

  -- A run with a subcommand that goes through has started no network, no collator's task and no order
  -- task, and ends in another function of the libraries than the node's.
  pub run-IsQuiet :
      (s : Subcommand c.Cmd) (w : Effects (Task l)) (a : Action l T c)
      → cli.subcommand ≡ some s
      → run l T c cli ≡ ok (w, a)
      → IsQuiet w a
  unfolding run
  run-IsQuiet s w a given e = run_subcommand-IsQuiet s (rw (run, given) at e)
