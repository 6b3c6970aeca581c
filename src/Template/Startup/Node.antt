-- ===== src/Template/Startup/Node.antt =====
-- template/node/src/service.rs, `start_consensus` and `start_parachain_node`, and `start_on_demand`
-- of services/order/src/lib.rs: what a node starts, and in which order.
use on_demand.Prelude.{false, Option, none, some, List, [], ◌∷◌, ◌++◌, if◌then◌else◌}
use on_demand.Primitives.{ParaId}
use on_demand.Template.Node.{initial_record}
use on_demand.Template.Startup.Effects.{
  M, pure, ◌>>=◌, ◌>>◌, call, expect, spawn, new_record, RecordRef, relay_chain_interface_failed,
  network_failed, offchain_workers_failed, tasks_failed, overseer_failed, relay_chain_tasks_failed,
}
use on_demand.Template.Startup.Libraries.{
  Text, Configuration, Libraries, collator, full_node, Task, offchain_workers, service_tasks,
  telemetry_hwbench, relay_chain_tasks, on_demand_task, aura_task, network,
}
use on_demand.Template.Startup.Partial.{Service, new_partial}

-- "ws://".
abbrev pub scheme : Text
scheme = b'w' ∷ b's' ∷ b':' ∷ b'/' ∷ b'/' ∷ []

module _ (l : Libraries) where
  open l use {
    Settings, SocketAddr, Telemetry, Client, Backend, KeystoreContainer, TransactionPool,
    CollatorOptions, HwBench, RelayChain, CollatorPair, Network, BlockImport, OverseerHandle,
  }

  -- Without an address of the relay chain's RPC it panics.
  unfoldable pub start_on_demand :
      Client
      → ParaId
      → RelayChain
      → TransactionPool
      → KeystoreContainer
      → Option Text
      → RecordRef
      → M (Task l) (Unit {0})
  start_on_demand parachain para_id relay_chain transaction_pool keystore relay_rpc order_record =
      do
        address ← expect relay_rpc
        spawn (
            on_demand_task (record {
              para_id = para_id;
              parachain = parachain;
              relay_chain = relay_chain;
              keystore = keystore;
              transaction_pool = transaction_pool;
              relay_url = scheme ++ address;
              order_record = order_record;
            }))

  unfoldable pub start_consensus :
      Service l
      → RelayChain
      → ParaId
      → CollatorPair
      → OverseerHandle
      → RecordRef
      → M (Task l) (Unit {0})
  start_consensus params relay_chain para_id collator_key overseer_handle order_record = spawn (
      aura_task (record {
        order_record = order_record;
        block_import = params.block_import;
        para_client = params.client;
        para_backend = params.backend;
        relay_client = relay_chain;
        keystore = params.keystore_container;
        collator_key = collator_key;
        para_id = para_id;
        overseer_handle = overseer_handle;
        relay_chain_slot_duration = 6000;
        proposer_pool = params.transaction_pool;
        authoring_duration = 2000;
        reinitialize = false;
      }))

  -- `as_ref().and_then(|r| r.first()).map(|f| f.listen_addr)`, as the text that the URL is made of.
  abbrev pub relay_rpc : Option (List SocketAddr) → Option Text
  relay_rpc none = none
  relay_rpc (some []) = none
  relay_rpc (some (endpoint ∷ _)) = some (l.listen_addr endpoint)

  unfoldable pub start_offchain_workers :
      Configuration Settings SocketAddr → Service l → Network → M (Task l) (Unit {0})
  start_offchain_workers config params net =
      if config.offchain_worker_enabled
      then (do
        call offchain_workers_failed (
            l.new_offchain_workers params.client params.keystore_container params.backend
              params.transaction_pool net config.role_is_authority)
        spawn offchain_workers)
      else pure tt

  -- What `print_hwbench` and the warning about weak hardware write to the log is left out.
  unfoldable pub report_hwbench : Option HwBench → Option Telemetry → M (Task l) (Unit {0})
  report_hwbench (some bench) (some telemetry) = spawn (telemetry_hwbench telemetry bench)
  report_hwbench _ _ = pure tt

  -- The branch `if validator`.
  unfoldable pub start_validator :
      Service l
      → RelayChain
      → ParaId
      → Option Text
      → Option CollatorPair
      → OverseerHandle
      → M (Task l) (Unit {0})
  start_validator params relay_chain para_id rpc collator_key overseer_handle = do
    order_record ← new_record initial_record
    start_on_demand params.client para_id relay_chain params.transaction_pool
        params.keystore_container rpc order_record
    key ← expect collator_key
    start_consensus params relay_chain para_id key overseer_handle order_record

  -- `start_parachain_node` before `if validator`: what is started on any node.
  unfoldable pub start_common :
      Configuration Settings SocketAddr
      → Configuration Settings SocketAddr
      → CollatorOptions
      → ParaId
      → Option HwBench
      → M (Task l) (Service l × RelayChain × Option CollatorPair × OverseerHandle)
  start_common config polkadot_config collator_options para_id hwbench = do
    params ← new_partial l config
    (relay_chain, collator_key) ← call relay_chain_interface_failed (
        l.build_relay_chain_interface polkadot_config config params.telemetry_handle
          collator_options hwbench)
    net ← call network_failed (
        l.build_network config params.client params.transaction_pool para_id relay_chain
          params.import_queue)
    start_offchain_workers config params net
    call tasks_failed (
        l.spawn_tasks params.client params.transaction_pool config params.keystore_container
          params.backend net)
    spawn service_tasks
    report_hwbench hwbench params.telemetry_handle
    overseer_handle ← call overseer_failed (l.overseer_handle relay_chain)
    call relay_chain_tasks_failed (
        l.start_relay_chain_tasks params.client para_id relay_chain params.import_queue 6
          overseer_handle)
    spawn (relay_chain_tasks (if config.role_is_authority then collator else full_node))
    pure (params, relay_chain, collator_key, overseer_handle)

  unfoldable pub start_parachain_node :
      Configuration Settings SocketAddr
      → Configuration Settings SocketAddr
      → CollatorOptions
      → ParaId
      → Option HwBench
      → M (Task l) Client
  start_parachain_node parachain_config polkadot_config collator_options para_id hwbench = do
    let config = l.prepare_node_config parachain_config
    let rpc = relay_rpc polkadot_config.rpc_addr
    (params, relay_chain, collator_key, overseer_handle) ←
        start_common config polkadot_config collator_options para_id hwbench
    (if config.role_is_authority
        then start_validator params relay_chain para_id rpc collator_key overseer_handle
        else pure tt)
    spawn network
    pure params.client
