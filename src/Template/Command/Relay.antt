-- ===== src/Template/Command/Relay.antt =====
-- template/node/src: `RelayChainCli` of cli.rs, and its `CliConfiguration` in command.rs.
use on_demand.Prelude.{
  ℕ, ◌≡◌, Bool, Option, none, some, List, [], ◌∷◌, ◌++◌, arith, Outcome, ok, panicked, ◌>>=◌,
  if◌then◌else◌, ◌≢◌,
}
use Prim.Native.String.{String}
use text.Mathlib.Text.{◌==◌}
use text.Mathlib.TextEquality.{eq_iff}
use on_demand.Template.Command.Spec.{Extensions, ChainSpec, try_get}

-- A path as the list of its parts.
abbrev pub BasePath : Type 0
BasePath = List String

-- `Result` of the command line library, whose error is a text.
abbrev pub Result : Type 0 → Type 0
Result A = Outcome String A

-- The parameters and options of the client libraries, which the node only passes on.
pub record CliTypes : Type 1 where
  pub Wasm : Type 0
  pub SharedParams : Type 0
  pub ImportParams : Type 0
  pub NetworkParams : Type 0
  pub KeystoreParams : Type 0
  pub RpcEndpoint : Type 0
  pub PrometheusConfig : Type 0
  pub Role : Type 0
  pub TransactionPoolOptions : Type 0
  pub RpcMethods : Type 0
  pub TelemetryEndpoints : Type 0
  -- `base_path` of the shared parameters.
  pub shared_base_path : SharedParams → Result (Option BasePath)

module _ (T : CliTypes) where
  open T use {
    Wasm, SharedParams, ImportParams, NetworkParams, KeystoreParams, RpcEndpoint, PrometheusConfig,
    Role, TransactionPoolOptions, RpcMethods, TelemetryEndpoints, shared_base_path,
  }

  -- The methods of the trait that the node's code names.
  pub record CliConfiguration : Type 0 where
    pub shared_params : SharedParams
    pub import_params : Option ImportParams
    pub network_params : Option NetworkParams
    pub keystore_params : Option KeystoreParams
    pub base_path : Result (Option BasePath)
    pub rpc_addr : ℕ → Result (Option (List RpcEndpoint))
    pub prometheus_config : ℕ → ChainSpec Wasm → Result (Option PrometheusConfig)
    pub init : Result (Unit {0})
    pub chain_id : Bool → Result String
    pub role : Bool → Result Role
    pub transaction_pool : Bool → Result TransactionPoolOptions
    pub trie_cache_maximum_size : Result (Option ℕ)
    pub rpc_methods : Result RpcMethods
    pub rpc_max_connections : Result ℕ
    pub rpc_cors : Bool → Result (Option (List String))
    pub default_heap_pages : Result (Option ℕ)
    pub force_authoring : Result Bool
    pub disable_grandpa : Result Bool
    pub max_runtime_instances : Result (Option ℕ)
    pub announce_block : Result Bool
    pub telemetry_endpoints : ChainSpec Wasm → Result (Option TelemetryEndpoints)
    pub node_name : Result String

  -- `base` is the relay chain's own `RunCmd`, through its methods.
  pub record RelayChainCli : Type 0 where
    pub base : CliConfiguration
    pub chain_id : Option String
    pub base_path : Option BasePath

  abbrev pub or_else : Option BasePath → Option BasePath → Option BasePath
  or_else none other = other
  or_else (some path) other = some path

  abbrev pub relay_chain_of : Option Extensions → Option String
  relay_chain_of none = none
  relay_chain_of (some e) = some e.relay_chain

  -- `RelayChainCli::new`, with what the parser makes of the arguments, and of the parachain's
  -- configuration the chain and the base path.
  unfoldable pub new : ChainSpec Wasm → BasePath → CliConfiguration → RelayChainCli
  unfolding try_get
  new chain_spec para_base_path base = record {
    base = base;
    chain_id = relay_chain_of (try_get chain_spec);
    base_path = some (para_base_path ++ "polkadot" ∷ []);
  }

  abbrev pub unwrap_or_default : Option String → String
  unwrap_or_default none = ""
  unwrap_or_default (some text) = text

  unfoldable pub relay_base_path : RelayChainCli → Result (Option BasePath)
  relay_base_path self = do
    path ← shared_base_path self.base.shared_params
    ok (or_else path self.base_path)

  unfoldable pub relay_chain_id : RelayChainCli → Bool → Result String
  relay_chain_id self is_dev = do
    chain_id ← self.base.chain_id is_dev
    ok (if chain_id == "" then unwrap_or_default self.chain_id else chain_id)

  -- `CliConfiguration for RelayChainCli`: all but three methods are those of `base`.
  unfoldable pub cli_configuration : RelayChainCli → CliConfiguration
  unfolding relay_base_path relay_chain_id
  cli_configuration self = record {
    shared_params = self.base.shared_params;
    import_params = self.base.import_params;
    network_params = self.base.network_params;
    keystore_params = self.base.keystore_params;
    base_path = relay_base_path self;
    rpc_addr = self.base.rpc_addr;
    prometheus_config = self.base.prometheus_config;
    init = panicked;
    chain_id = relay_chain_id self;
    role = self.base.role;
    transaction_pool = self.base.transaction_pool;
    trie_cache_maximum_size = self.base.trie_cache_maximum_size;
    rpc_methods = self.base.rpc_methods;
    rpc_max_connections = self.base.rpc_max_connections;
    rpc_cors = self.base.rpc_cors;
    default_heap_pages = self.base.default_heap_pages;
    force_authoring = self.base.force_authoring;
    disable_grandpa = self.base.disable_grandpa;
    max_runtime_instances = self.base.max_runtime_instances;
    announce_block = self.base.announce_block;
    telemetry_endpoints = self.base.telemetry_endpoints;
    node_name = self.base.node_name;
  }

  -- Where the arguments name no chain, the relay chain's command line has the chain that the
  -- parachain's extensions name, and where they name no base path, the directory "polkadot" below
  -- that of the parachain; a chain or a path that they name goes first.
  pub cli_configuration-new :
      (chain_spec : ChainSpec Wasm) (para_base_path : BasePath) (base : CliConfiguration)
      (e : Extensions) (is_dev : Bool) (id : String)
      → try_get chain_spec ≡ some e
      → base.chain_id is_dev ≡ ok id
      → let c = cli_configuration (new chain_spec para_base_path base) in
        (id ≡ "" → c.chain_id is_dev ≡ ok e.relay_chain)
        × (id ≢ "" → c.chain_id is_dev ≡ ok id)
        × (shared_base_path base.shared_params ≡ ok none
            → c.base_path ≡ ok (some (para_base_path ++ "polkadot" ∷ [])))
        × ((path : BasePath)
            → shared_base_path base.shared_params ≡ ok (some path)
            → c.base_path ≡ ok (some path))
  unfolding cli_configuration new try_get
  cli_configuration-new chain_spec para_base_path base e is_dev id found given = (
    λ empty. ground (arith, eq_iff id ""),
    λ own. ground (arith, eq_iff id ""),
    λ unset. ground arith,
    λ path set. ground arith,
  )

-- The relay chain node's default ports, beside those of the parachain's own node.
abbrev pub p2p_listen_port : ℕ
p2p_listen_port = 30334

abbrev pub rpc_listen_port : ℕ
rpc_listen_port = 9945

abbrev pub prometheus_listen_port : ℕ
prometheus_listen_port = 9616
