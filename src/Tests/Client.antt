-- ===== src/Tests/Client.antt =====
-- Runs of the import queue.
use on_demand.Prelude.{
  ℕ, ◌+◌, ◌*◌, ◌/◌, ◌≤◌, refl, false, Option, none, some, List, [], ◌∷◌, length,
}
use on_demand.Client.Defender.{equivocation_limit}
use on_demand.Client.Verifier
use on_demand.Client.Verifier.{checked}
use on_demand.Client.Queue.{QueueTypes, QueueLibraries, Block, passed, new_verifier}
use on_demand.Client.Queue.Limit.{evictions, new_queue-limit}
use on_demand.Tests.Lru.{lru}

-- A header is its parent, the slot and the digests.
abbrev verifier_types : Verifier.Types
verifier_types = record {
  Header = ℕ × List ℕ;
  Body = ℕ;
  Digest = ℕ;
  Authorities = List ℕ;
  Providers = ℕ;
  InherentData = ℕ;
  InherentError = ℕ;
}

abbrev check_seal_of : ℕ → ℕ × List ℕ → List ℕ → Verifier.SealCheck verifier_types
check_seal_of now (parent, digests) authorities = elim digests [
  | [] ↦ Verifier.invalid
  | (digest ∷ _) ↦ checked (parent, []) 7 digest
]

abbrev env : Verifier.Env verifier_types
env = record {
  hash = λ (parent, digests). parent + length digests;
  parent_hash = λ (parent, digests). parent;
  fetch_authorities = λ hash. some (41 ∷ 42 ∷ []);
  slot_duration = λ hash. some 12;
  timestamp = 90;
  slot_from_timestamp = λ timestamp duration. timestamp / duration;
  check_header_slot_and_seal = check_seal_of;
  create_inherent_data_providers = λ hash. some 1;
  create_inherent_data = λ providers. some 2;
  check_inherents = λ hash header body inherents. some (record { is_ok = false; errors = 4 ∷ [] });
  try_handle_error = λ providers e. some (some tt);
}

abbrev imported : Verifier.BlockImportParams verifier_types
imported = record {
  header = (30, 5 ∷ []);
  body = some 3;
  post_digests = [];
  post_hash = none;
  fork_choice = none;
  skip_execution_checks = false;
  with_state = false;
}

abbrev nothing_seen : ℕ → Option ℕ
nothing_seen _ = none

abbrev queue_types : QueueTypes
queue_types = record {
  BlockImport = ℕ;
  JustificationImport = ℕ;
  Client = ℕ;
  Providers = ℕ;
  Spawner = ℕ;
  Registry = ℕ;
  Telemetry = ℕ;
  AuraVerifier = ℕ;
  DefaultImportQueue = ℕ;
  BasicQueue = ℕ;
}

abbrev queue_libraries : QueueLibraries queue_types lru
queue_libraries = record {
  new = λ slots k. none;
  peek-new = λ slots k. refl;
  aura_import_queue = λ params settings. some params.client;
  aura_build_verifier = λ params equivocation compatibility. params.client;
  basic_queue = λ verifier block_import justification_import spawner registry. verifier.client;
}

abbrev blocks : List (Block verifier_types)
blocks = (env, imported) ∷ (env, imported) ∷ []

new_queue-limit_example :
    let cache = (new_verifier queue_types queue_libraries 1 2 none).defender in
    passed lru 7 blocks cache
    ≤ equivocation_limit + equivocation_limit * evictions lru 7 blocks cache
new_queue-limit_example = new_queue-limit lru queue_libraries 1 2 none 7 blocks
