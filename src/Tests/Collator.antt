-- ===== src/Tests/Collator.antt =====
-- Runs of the collator, of its loop over requests, and of the consensus before it.
use on_demand.Prelude.{
  ℕ, ◌+◌, ◌/◌, ◌≤◌, ◌≡◌, refl, true, false, none, some, List, [], ◌∷◌, ◌++◌, length, ok, arith,
  count_slot,
}
use on_demand.Relay.{Header, RelayChainInterface, PersistedValidationData}
use on_demand.Client.Collator.{
  SlotClaim, Collator, Proposal, collate, claim_slot, build_block_and_import, seal, unchecked,
  create_inherent_data,
}
use on_demand.Client.Collator
use on_demand.Client.Collator.Blocks.{IsCollated, collate_iff}
use on_demand.Client.Basic.{
  CollationRequest, Node, LastProcessed, Turn, Loop, run, begin, process_request, handle_request,
  complete,
}
use on_demand.Client.Basic.Requests.{IsAnswered, process_request_iff}
use on_demand.Client.Basic.Forks.{IsForked, run_lem, run_once, slots}
use on_demand.Client.Consensus
use on_demand.Client.Consensus.{
  AuraConsensus, Request, Slots, SlotResult, ParachainCandidate, produce_candidate, IsProduced,
  produce_candidate_iff, produce_candidates, produce_candidates_once, build, inherent_data,
}

-- A header is its number and its digests.
abbrev types : Collator.Types
types = record {
  Header = ℕ × List ℕ;
  Body = ℕ;
  Digest = ℕ;
  Public = ℕ;
  Authorities = List ℕ;
  StorageChanges = ℕ;
  Proof = ℕ;
  ParachainInherentData = ℕ;
  InherentData = ℕ;
  Providers = ℕ;
  Collation = ℕ;
  BlockData = ℕ;
}

abbrev proposal : Proposal types
proposal = record { block = record { header = (31, []); body = 3 }; storage_changes = 0; proof = 6 }

abbrev collator : Collator types
collator = record {
  para_id = 2000;
  paras_inherent_data = λ relay_parent validation_data para_id. some 1;
  create_inherent_data_providers = λ parent. some 1;
  create_inherent_data_of = λ providers. some 2;
  replace_timestamp = λ inherents timestamp. timestamp;
  propose = λ parent paras other digest duration size. some (some proposal);
  hash = λ (number, digests). number + length digests;
  seal_digest = λ hash author. some author;
  post_header = λ (number, digests) more. (number, digests ++ more);
  import_block = λ block. some tt;
  build_collation = λ parent hash candidate. some (hash, 8);
  pre_digest_of = λ slot. slot;
  authorities = λ hash. some (41 ∷ 42 ∷ []);
  relay_slot_and_timestamp = λ header duration. some (5, 90);
  slot_from_timestamp = λ timestamp duration. timestamp / duration;
  claim = λ slot authorities. some 42;
}

abbrev slot_claim : SlotClaim types
slot_claim = record { author_pub = 42; pre_digest = 7; slot = 7; timestamp = 90 }

collated : collate collator (30, []) slot_claim none (1, 2) 2000 50 ≡ ok (some (32, 8, 32))
unfolding collate build_block_and_import seal
collated = refl

collate_iff_example : IsCollated collator (30, []) slot_claim none 1 2 2000 50 32 8 32
collate_iff_example = (collate_iff collator (30, []) slot_claim none 1 2 2000 50 32 8 32).0 collated

abbrev relay_parent : Header
relay_parent = record { hash = 77; number = 13; state_root = 9 }

claimed : claim_slot collator 30 relay_parent 12 6 ≡ ok (some slot_claim)
unfolding claim_slot unchecked
claimed = refl

abbrev validation_data : PersistedValidationData
validation_data = record { parent_head = 30 ∷ []; max_pov_size = 100 }

abbrev relay_chain : RelayChainInterface ℕ
relay_chain = record {
  get_storage_by_key = λ hash key. none;
  prove_read = λ hash keys. none;
  header = λ hash. some (some relay_parent);
  persisted_validation_data = λ hash para_id assumption. none;
  validation_code_hash = λ hash para_id assumption. some (some 3);
}

abbrev node : Node types ℕ
node = record {
  collator = collator;
  relay_client = relay_chain;
  decode_header = λ raw. some (30, []);
  check_block_status = λ hash header. true;
  validation_code = λ hash. some 3;
  slot_duration = λ hash. some 12;
  relay_chain_slot_duration = 6;
  authoring_duration = 2000;
  full_pov_size = false;
}

abbrev request : CollationRequest
request = record { relay_parent = 77; persisted_validation_data = validation_data }

abbrev last : LastProcessed
last = record { last_processed_slot = 6; last_relay_chain_block = 12 }

abbrev next : LastProcessed
next = record { last_processed_slot = 7; last_relay_chain_block = 13 }

processed : process_request node request last ≡ ok (next, some 32)
unfolding process_request collate build_block_and_import seal claim_slot unchecked
    create_inherent_data
processed = refl

process_request_iff_example : IsAnswered node request last next 32
process_request_iff_example = (process_request_iff node request last next 32).0 processed

abbrev turns : List (Turn types ℕ)
turns = record { node = node; request = request } ∷ record { node = node; request = request } ∷ []

run_lem_example :
    (after : Loop types) × (run turns begin ≡ ok after)
    × (length after.replies ≡ 2)
    × IsForked after.last after.processed
run_lem_example = run_lem turns

abbrev one_turn : List (Turn types ℕ)
one_turn = record { node = node; request = request } ∷ []

abbrev after_one : Loop types
after_one = record {
  last = next;
  replies = complete (some 32) ∷ [];
  processed = (next, some 32) ∷ [];
}

ran : run one_turn begin ≡ ok after_one
unfolding run handle_request process_request collate build_block_and_import seal claim_slot
    unchecked create_inherent_data
ran = refl

run_once_example : count_slot 7 (slots after_one.processed) ≤ 1
run_once_example = run_once one_turn after_one 14 7 ran (omega arith, tt)

abbrev consensus_types : Consensus.Types
consensus_types = record { Header = ℕ; Providers = ℕ; Block = ℕ; Proof = ℕ }

abbrev consensus : AuraConsensus consensus_types
consensus = record {
  hash = λ header. header;
  create_inherent_data_providers = λ parent relay. some parent;
  slot_of = λ providers. providers;
  slot_duration = 12;
  on_slot = λ info. some (record { block = info.slot; storage_proof = 6 });
}

abbrev candidate_request : Request consensus_types
candidate_request = record { parent = 7; relay_parent = 77; validation_data = validation_data }

abbrev candidate : ParachainCandidate consensus_types
candidate = record { block = 7; proof = 6 }

abbrev after_candidate : Slots consensus_types
after_candidate = record {
  last_slot_processed = 7;
  worked = (7, some (record { block = 7; storage_proof = 6 })) ∷ [];
}

produced : produce_candidate consensus candidate_request build ≡ (after_candidate, some candidate)
unfolding produce_candidate inherent_data
produced = refl

produce_candidate_iff_example :
    IsProduced consensus candidate_request build after_candidate candidate
produce_candidate_iff_example =
    (produce_candidate_iff consensus candidate_request build after_candidate candidate).0 produced

abbrev calls : List (AuraConsensus consensus_types × Request consensus_types)
calls = (consensus, candidate_request) ∷ (consensus, candidate_request) ∷ []

produce_candidates_once_example : count_slot 7 (produce_candidates calls build).worked ≤ 1
produce_candidates_once_example = produce_candidates_once calls 7
