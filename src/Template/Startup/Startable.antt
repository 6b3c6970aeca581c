-- ===== src/Template/Startup/Startable.antt =====
-- template/node/src/service.rs, `start_parachain_node`: when it goes through, and all that then runs.
use on_demand.Prelude.{
  ◌≡◌, ℕ, true, false, Option, none, some, List, [], ◌∷◌, ◌++◌, arith, ok, ◌⊎◌, if◌then◌else◌,
}
use on_demand.Primitives.{ParaId}
use on_demand.Template.Node.{initial_record}
use on_demand.Template.Startup.Libraries.{
  Configuration, Libraries, Text, Task, offchain_workers, service_tasks, telemetry_hwbench,
  relay_chain_tasks, on_demand_task, aura_task, network, telemetry_task, OnDemandTask, AuraParams,
  full_node, collator, RecoveryProfile,
}
use on_demand.Template.Startup.Effects.{◌>>=◌, ◌>>◌, call, expect, spawn, pure, new_record}
use on_demand.Template.Startup.Partial.{
  Service, executor, nonempty, build_import_queue, new_partial, start_telemetry, spawn_telemetry,
}
use on_demand.Template.Startup.Node.{
  start_parachain_node, scheme, relay_rpc, start_common, start_validator, start_on_demand,
  start_consensus, start_offchain_workers, report_hwbench,
}
use on_demand.Template.Startup.Started.{nothing}

module _ (l : Libraries) where
  open l use {
    Settings, SocketAddr, CollatorOptions, HwBench, Telemetry, Client, Backend, KeystoreContainer,
    RelayChain, CollatorPair, Network, OverseerHandle, TransactionPool, ImportQueue,
  }

  -- What the runtime's telemetry should be: none without endpoints.
  abbrev pub made_telemetry : Option (List ℕ) → Option (Option Telemetry)
  made_telemetry none = some none
  made_telemetry (some endpoints) = elim (l.new_telemetry endpoints) [
    | none ↦ none
    | some t ↦ some (some t)
  ]

  abbrev pub telemetry_tasks : Option Telemetry → List (Task l)
  telemetry_tasks none = []
  telemetry_tasks (some t) = telemetry_task t ∷ []

  abbrev pub hwbench_tasks : Option Telemetry → Option HwBench → List (Task l) → List (Task l)
  hwbench_tasks (some t) (some bench) rest = telemetry_hwbench t bench ∷ rest
  hwbench_tasks _ _ rest = rest

  module _ (parachain_config polkadot_config : Configuration Settings SocketAddr)
      (collator_options : CollatorOptions) (para_id : ParaId) (hwbench : Option HwBench) where
    -- The configuration that the start goes on with.
    abbrev pub config : Configuration Settings SocketAddr
    config = l.prepare_node_config parachain_config

    abbrev pub pool : Client → TransactionPool
    pool client = l.build_pool client config.role_is_authority config.settings

    abbrev pub queue : Client → Backend → Option Telemetry → ImportQueue
    queue client backend telemetry =
        build_import_queue l client (l.block_import client backend) config telemetry

    -- What the calls of the libraries have to give for a start to go through.
    pub record IsStartable : Type 0 where
      pub telemetry : Option Telemetry
      pub telemetry_made : made_telemetry (nonempty l config.telemetry_endpoints) ≡ some telemetry
      pub client : Client
      pub backend : Backend
      pub keystore : KeystoreContainer
      pub parts_made :
          l.new_full_parts_record_import config telemetry (executor l config)
          ≡ some (client, backend, keystore)
      pub relay_chain : RelayChain
      pub collator_key : Option CollatorPair
      pub relay_chain_made :
          l.build_relay_chain_interface polkadot_config config telemetry collator_options hwbench
          ≡ some (relay_chain, collator_key)
      pub net : Network
      pub network_made :
          l.build_network config client
            (pool client)
            para_id
            relay_chain
            (queue client backend telemetry)
          ≡ some net
      pub offchain_workers_made :
          (config.offchain_worker_enabled ≡ false)
          ⊎ (l.new_offchain_workers client keystore backend
                (pool client)
                net
                config.role_is_authority
              ≡ some tt)
      pub tasks_spawned : l.spawn_tasks client (pool client) config keystore backend net ≡ some tt
      pub overseer : OverseerHandle
      pub overseer_known : l.overseer_handle relay_chain ≡ some overseer
      pub relay_chain_tasks_started :
          l.start_relay_chain_tasks client para_id relay_chain
            (queue client backend telemetry)
            6
            overseer
          ≡ some tt

    module _ (s : IsStartable) where
      open s use {telemetry, client, backend, keystore, relay_chain, collator_key, net, overseer}

      -- What runs on any node, newest first.
      abbrev pub common_tasks : RecoveryProfile → List (Task l)
      common_tasks profile =
          relay_chain_tasks profile
          ∷ hwbench_tasks telemetry hwbench (
              service_tasks
              ∷ (if config.offchain_worker_enabled
                  then offchain_workers ∷ telemetry_tasks telemetry
                  else telemetry_tasks telemetry))

      abbrev params : Service l
      params = record {
        backend = backend;
        client = client;
        import_queue = queue client backend telemetry;
        keystore_container = keystore;
        transaction_pool = pool client;
        block_import = l.block_import client backend;
        telemetry_handle = telemetry;
      }

      start_common_lem :
          start_common l config polkadot_config collator_options para_id hwbench (nothing l) ≡ (
            record {
              tasks = common_tasks (if config.role_is_authority then collator else full_node);
              records = [];
            },
            ok (params, relay_chain, collator_key, overseer),
          )
      unfolding start_common start_offchain_workers report_hwbench new_partial start_telemetry
          spawn_telemetry ◌>>=◌ ◌>>◌ call spawn pure
      start_common_lem = ground (arith, s.telemetry_made)

      -- On a node that is no authority.
      started_full_node :
          config.role_is_authority ≡ false
          → start_parachain_node l parachain_config polkadot_config collator_options para_id hwbench
              (nothing l)
            ≡ (record { tasks = network ∷ common_tasks full_node; records = [] }, ok client)
      unfolding start_parachain_node ◌>>=◌ ◌>>◌ spawn pure
      started_full_node full = ground (arith, start_common_lem)

      -- The collator's task and the order task of an authority.
      abbrev pub aura : CollatorPair → AuraParams l
      aura key = record {
        order_record = 0;
        block_import = l.block_import client backend;
        para_client = client;
        para_backend = backend;
        relay_client = relay_chain;
        keystore = keystore;
        collator_key = key;
        para_id = para_id;
        overseer_handle = overseer;
        relay_chain_slot_duration = 6000;
        proposer_pool = pool client;
        authoring_duration = 2000;
        reinitialize = false;
      }

      abbrev pub orders : Text → OnDemandTask l
      orders address = record {
        para_id = para_id;
        parachain = client;
        relay_chain = relay_chain;
        keystore = keystore;
        transaction_pool = pool client;
        relay_url = scheme ++ address;
        order_record = 0;
      }

      -- Where the libraries' calls give what a start needs, an authority with a collator's key and an
      -- address of the relay chain's RPC comes to run, in this order, the common tasks, the order
      -- task, the collator's task and the network; the two tasks share the client, the relay chain,
      -- the pool, the keys, the parachain's id and the one record in memory, which starts without a
      -- block and at slot 0.
      pub started_validator :
          (key : CollatorPair) (address : Text)
          → config.role_is_authority ≡ true
          → collator_key ≡ some key
          → relay_rpc l polkadot_config.rpc_addr ≡ some address
          → start_parachain_node l parachain_config polkadot_config collator_options para_id hwbench
              (nothing l)
            ≡ (
              record {
                tasks =
                    network
                    ∷ aura_task (aura key)
                    ∷ on_demand_task (orders address)
                    ∷ common_tasks collator;
                records = record { relay_block_hash = none; last_slot = 0 } ∷ [];
              },
              ok client,
            )
      unfolding start_parachain_node start_validator start_on_demand start_consensus initial_record
          ◌>>=◌ ◌>>◌ expect spawn pure new_record
      started_validator key address authority held known = ground (arith, start_common_lem)
