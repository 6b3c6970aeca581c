-- ===== src/Client/Queue.antt =====
-- client/consensus/on-demand-aura/src: import_queue.rs, and the queue of equivocation_import_queue.rs
-- with the verifier that it runs on one block after another.
pub mod Limit
use on_demand.Prelude.{
  ℕ, ◌≡◌, Bool, true, false, ◌||◌, ◌&&◌, Option, none, some, List, [], ◌∷◌, ◌+◌, Outcome, ok, ◌==◌,
  if◌then◌else◌,
}
use on_demand.Client.Defender.{LruMap}
use on_demand.Client.Verifier.{
  Types, BlockImportParams, SealCheck, checked, deferred, invalid, Env, VerifyError, verify,
  slot_now,
}

-- The settings of `sc_consensus_aura`.
pub data CheckForEquivocation : Type 0 where
  check : CheckForEquivocation
  no_check : CheckForEquivocation

pub data CompatibilityMode : Type 0 where
  no_compatibility : CompatibilityMode
  use_initialize_block : ℕ → CompatibilityMode

-- What the queues are made of.
pub record QueueTypes : Type 1 where
  pub BlockImport : Type 0
  pub JustificationImport : Type 0
  pub Client : Type 0
  pub Providers : Type 0
  pub Spawner : Type 0
  pub Registry : Type 0
  pub Telemetry : Type 0
  pub AuraVerifier : Type 0
  pub DefaultImportQueue : Type 0
  pub BasicQueue : Type 0

module _ (Q : QueueTypes) where
  open Q use {
    BlockImport, JustificationImport, Client, Providers, Spawner, Registry, Telemetry, AuraVerifier,
    DefaultImportQueue, BasicQueue,
  }

  pub record ImportQueueParams : Type 0 where
    pub block_import : BlockImport
    pub client : Client
    pub create_inherent_data_providers : Providers
    pub spawner : Spawner
    pub registry : Option Registry
    pub telemetry : Option Telemetry

  pub record BuildVerifierParams : Type 0 where
    pub client : Client
    pub create_inherent_data_providers : Providers
    pub telemetry : Option Telemetry

  -- The library's parameters are those and its settings.
  pub record AuraSettings : Type 0 where
    pub justification_import : Option JustificationImport
    pub check_for_equivocation : CheckForEquivocation
    pub compatibility_mode : CompatibilityMode

  -- The private `Verifier` of the second queue, with the defender's map.
  pub record Verifier (l : LruMap) : Type 0 where
    pub client : Client
    pub create_inherent_data_providers : Providers
    pub defender : l.Map
    pub telemetry : Option Telemetry

  -- `sc_consensus_aura` and `BasicQueue::new`; a map that is new for so many slots counts none.
  pub record QueueLibraries (l : LruMap) : Type 0 where
    pub new : ℕ → l.Map
    pub peek-new : (slots k : ℕ) → l.peek k (new slots) ≡ none
    pub aura_import_queue : ImportQueueParams → AuraSettings → Option DefaultImportQueue
    pub aura_build_verifier :
        BuildVerifierParams → CheckForEquivocation → CompatibilityMode → AuraVerifier
    pub basic_queue :
        Verifier l
        → BlockImport
        → Option JustificationImport
        → Spawner
        → Option Registry
        → BasicQueue

  module _ {l : LruMap} (q : QueueLibraries l) where
    unfoldable pub import_queue : ImportQueueParams → Option DefaultImportQueue
    import_queue params = q.aura_import_queue params (record {
      justification_import = none;
      check_for_equivocation = no_check;
      compatibility_mode = no_compatibility;
    })

    unfoldable pub build_verifier : BuildVerifierParams → AuraVerifier
    build_verifier params = q.aura_build_verifier params no_check no_compatibility

    abbrev pub lru_window : ℕ
    lru_window = 256

    -- `NaiveEquivocationDefender::default`.
    unfoldable pub default : l.Map
    default = q.new lru_window

    -- The verifier of a new queue.
    unfoldable pub new_verifier : Client → Providers → Option Telemetry → Verifier l
    unfolding default
    new_verifier client create_inherent_data_providers telemetry = record {
      client = client;
      create_inherent_data_providers = create_inherent_data_providers;
      defender = default;
      telemetry = telemetry;
    }

    unfoldable pub fully_verifying_import_queue :
        Client → BlockImport → Providers → Spawner → Option Registry → Option Telemetry → BasicQueue
    unfolding new_verifier
    fully_verifying_import_queue client block_import create_inherent_data_providers spawner registry
          telemetry =
        q.basic_queue (new_verifier client create_inherent_data_providers telemetry) block_import
          none spawner registry

-- The queue runs its verifier on the blocks as they come, each with the surroundings of its time.
abbrev pub Block : Types → Type 0
Block T = Env T × BlockImportParams T

abbrev pub is_at : ℕ → Option ℕ → Bool
is_at slot none = false
is_at slot (some s) = s == slot

abbrev pub is_ok : {A : Type 0} → Outcome VerifyError A → Bool
is_ok (ok _) = true
is_ok _ = false

module _ (l : LruMap) {T : Types} where
  -- The slot of a block that is checked and whose seal holds.
  abbrev pub sealed_at : Env T → BlockImportParams T → Option ℕ
  sealed_at env p =
      if p.skip_execution_checks || p.with_state
      then none
      else elim (env.fetch_authorities (env.parent_hash p.header)) [
        | none ↦ none
        | some authorities ↦ elim (env.slot_duration (env.parent_hash p.header)) [
          | none ↦ none
          | some duration ↦
              elim (env.check_header_slot_and_seal (slot_now l env duration) p.header authorities) [
                | checked _ slot _ ↦ some slot
                | deferred _ _ ↦ none
                | invalid ↦ none
              ]
        ]
      ]

  -- How many blocks with a seal of the slot the verifier passes in full.
  unfoldable pub passed : ℕ → List (Block T) → l.Map → ℕ
  passed slot [] cache = 0
  passed slot ((env, p) ∷ blocks) cache =
      let (cache', result) = verify l env p cache in
      (if is_ok result && is_at slot (sealed_at env p) then 1 else 0) + passed slot blocks cache'
