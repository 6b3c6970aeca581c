-- ===== src/Template/Startup/Started.antt =====
-- template/node/src/service.rs, `start_parachain_node`: what runs once it returns, and what does not.
use on_demand.Prelude.{
  ℕ, ◌≡◌, refl, Bool, true, false, Option, none, some, List, [], any, Bool-cases, inl, inr,
}
use on_demand.Primitives.{ParaId}
use on_demand.Template.Startup.Effects.{Effects}
use on_demand.Template.Startup.Libraries.{
  Text, Configuration, Libraries, Task, on_demand_task, aura_task, network, telemetry_task,
  offchain_workers, telemetry_hwbench, service_tasks, relay_chain_tasks, RecoveryProfile,
}
use on_demand.Template.Startup.Partial.{Service, new_partial, start_telemetry, spawn_telemetry}
use on_demand.Template.Startup.Node.{
  start_parachain_node, relay_rpc, start_offchain_workers, report_hwbench, start_validator,
  start_common, start_on_demand, start_consensus,
}
use on_demand.Template.Startup.Keeps.{
  is_ok, Keeps, Ends, Fails, Keeps-bind, Keeps-if, Keeps-then, Keeps-call, Keeps-expect, Keeps-pure,
  Keeps-spawn, Keeps-new_record, Ends-bind, Ends-then, Ends-spawn, Fails-expect, Fails-bind_first,
  Fails-bind, Fails-then_first,
}

module _ (l : Libraries) where
  open l use {
    Settings, SocketAddr, CollatorOptions, HwBench, Telemetry, Client, Backend, KeystoreContainer,
    RelayChain, CollatorPair, Network, OverseerHandle, TransactionPool, ImportQueue,
  }

  -- Before a node is started there is nothing.
  abbrev pub nothing : Effects (Task l)
  nothing = record { tasks = []; records = [] }

  abbrev pub is_network : Task l → Bool
  is_network network = true
  is_network _ = false

  abbrev pub is_collating : Task l → Bool
  is_collating (aura_task _) = true
  is_collating (on_demand_task _) = true
  is_collating _ = false

  module _ (p : Task l → Bool) (no_telemetry : (t : Telemetry) → p (telemetry_task t) ≡ false) where
    start_telemetry-Keeps : (endpoints : Option (List ℕ)) → Keeps p (start_telemetry l endpoints)
    unfolding start_telemetry
    start_telemetry-Keeps none = Keeps-pure p _
    start_telemetry-Keeps (some endpoints) =
        Keeps-bind p (Keeps-call p _ _) (λ telemetry. Keeps-pure p _)

    spawn_telemetry-Keeps : (t : Option Telemetry) → Keeps p (spawn_telemetry l t)
    unfolding spawn_telemetry
    spawn_telemetry-Keeps none = Keeps-pure p _
    spawn_telemetry-Keeps (some t) = Keeps-spawn p (no_telemetry t)

    pub new_partial-Keeps :
        (config : Configuration Settings SocketAddr) → Keeps p (new_partial l config)
    unfolding new_partial
    new_partial-Keeps config = Keeps-bind p (start_telemetry-Keeps _) (λ telemetry.
        Keeps-bind p (Keeps-call p _ _)
          (λ parts. Keeps-then p (spawn_telemetry-Keeps telemetry) (Keeps-pure p _)))

  -- A kind of tasks that none of those which run on any node is of.
  module _ (p : Task l → Bool) (no_services : p service_tasks ≡ false)
      (no_telemetry : (t : Telemetry) → p (telemetry_task t) ≡ false)
      (no_workers : p offchain_workers ≡ false)
      (no_hwbench : (t : Telemetry) (bench : HwBench) → p (telemetry_hwbench t bench) ≡ false)
      (no_relay : (profile : RecoveryProfile) → p (relay_chain_tasks profile) ≡ false) where
    start_offchain_workers-Keeps :
        (config : Configuration Settings SocketAddr) (params : Service l) (net : Network)
        → Keeps p (start_offchain_workers l config params net)
    unfolding start_offchain_workers
    start_offchain_workers-Keeps config params net =
        elim (Bool-cases config.offchain_worker_enabled) [
          | inl enabled ↦ rw enabled (Keeps-then p (Keeps-call p _ _) (Keeps-spawn p no_workers))
          | inr disabled ↦ rw disabled (Keeps-pure p _)
        ]

    report_hwbench-Keeps :
        (hwbench : Option HwBench) (telemetry : Option Telemetry)
        → Keeps p (report_hwbench l hwbench telemetry)
    unfolding report_hwbench
    report_hwbench-Keeps (some bench) (some t) = Keeps-spawn p (no_hwbench t bench)
    report_hwbench-Keeps none _ = Keeps-pure p _
    report_hwbench-Keeps (some bench) none = Keeps-pure p _

    start_common-Keeps :
        (config polkadot_config : Configuration Settings SocketAddr)
        (collator_options : CollatorOptions) (para_id : ParaId) (hwbench : Option HwBench)
        → Keeps p (start_common l config polkadot_config collator_options para_id hwbench)
    unfolding start_common
    start_common-Keeps config polkadot_config collator_options para_id hwbench =
        Keeps-bind p (new_partial-Keeps p no_telemetry config) (λ params.
          Keeps-bind p (Keeps-call p _ _) (λ relay. Keeps-bind p (Keeps-call p _ _) (λ net.
            Keeps-then p (start_offchain_workers-Keeps config params net) (
              Keeps-then p (Keeps-call p _ _) (
                Keeps-then p (Keeps-spawn p no_services) (
                  Keeps-then p (report_hwbench-Keeps hwbench _) (
                    Keeps-bind p (Keeps-call p _ _) (λ overseer.
                      Keeps-then p (Keeps-call p _ _)
                        (Keeps-then p (Keeps-spawn p (no_relay _)) (Keeps-pure p _))))))))))

  start_validator-Keeps :
      (params : Service l) (relay_chain : RelayChain) (para_id : ParaId) (rpc : Option Text)
      (collator_key : Option CollatorPair) (overseer : OverseerHandle)
      → Keeps is_network (start_validator l params relay_chain para_id rpc collator_key overseer)
  unfolding start_validator start_on_demand start_consensus
  start_validator-Keeps params relay_chain para_id rpc collator_key overseer =
      let p = is_network in
      Keeps-bind p (Keeps-new_record p _) (λ order_record.
        Keeps-then p (Keeps-bind p (Keeps-expect p _) (λ address. Keeps-spawn p refl))
          (Keeps-bind p (Keeps-expect p _) (λ key. Keeps-spawn p refl)))

  start_validator-Fails :
      (params : Service l) (relay_chain : RelayChain) (para_id : ParaId)
      (collator_key : Option CollatorPair) (overseer : OverseerHandle)
      → Fails (start_validator l params relay_chain para_id none collator_key overseer)
  unfolding start_validator start_on_demand
  start_validator-Fails params relay_chain para_id collator_key overseer =
      Fails-bind _ (λ order_record. Fails-then_first _ (Fails-bind_first _ Fails-expect))

  module _ (parachain_config polkadot_config : Configuration Settings SocketAddr)
      (collator_options : CollatorOptions) (para_id : ParaId) (hwbench : Option HwBench) where
    -- The configuration that the start goes on with.
    abbrev config : Configuration Settings SocketAddr
    config = l.prepare_node_config parachain_config

    started-Ends :
        Ends is_network
          (start_parachain_node l parachain_config polkadot_config collator_options para_id hwbench)
    unfolding start_parachain_node
    started-Ends =
        let p = is_network in
        Ends-bind p
          (start_common-Keeps p refl (λ t. refl) refl (λ t b. refl) (λ profile. refl) config _ _ _
            _)
          (λ parts.
            Ends-then p (Keeps-if p _ (start_validator-Keeps _ _ _ _ _ _) (Keeps-pure p tt))
              (Ends-spawn p _ refl))

    started-Keeps :
        config.role_is_authority ≡ false
        → Keeps is_collating (
            start_parachain_node l parachain_config polkadot_config collator_options para_id
              hwbench)
    unfolding start_parachain_node
    started-Keeps full =
        let p = is_collating in
        Keeps-bind p
          (start_common-Keeps p refl (λ t. refl) refl (λ t b. refl) (λ profile. refl) config _ _ _
            _)
          (λ parts.
            Keeps-then p (rw full (Keeps-pure p tt))
              (Keeps-then p (Keeps-spawn p refl) (Keeps-pure p _)))

    started-Fails :
        config.role_is_authority ≡ true
        → relay_rpc l polkadot_config.rpc_addr ≡ none
        → Fails (
            start_parachain_node l parachain_config polkadot_config collator_options para_id
              hwbench)
    unfolding start_parachain_node
    started-Fails authority missing =
        Fails-bind _
          (λ parts. Fails-then_first _ (rw (authority, missing) (start_validator-Fails _ _ _ _ _)))

    -- A start that fails or panics anywhere leaves the network off, and one that returns has started
    -- it; a node that is no authority runs neither the collator nor the order task, however far it
    -- comes; and an authority without an address of the relay chain's RPC never comes to the end.
    pub start_parachain_node-network :
        let (w, result) =
          start_parachain_node l parachain_config polkadot_config collator_options para_id hwbench
            nothing in
        let authority = (l.prepare_node_config parachain_config).role_is_authority in
        (any is_network w.tasks ≡ is_ok result)
        × (authority ≡ false → any is_collating w.tasks ≡ false)
        × (authority ≡ true → relay_rpc l polkadot_config.rpc_addr ≡ none → is_ok result ≡ false)
    start_parachain_node-network = (
      started-Ends.ends nothing refl,
      λ full. (started-Keeps full).keeps nothing refl,
      λ authority missing. (started-Fails authority missing).fails nothing,
    )
