-- ===== src/Client/Basic.antt =====
-- client/consensus/on-demand-aura/src/collators/basic.rs: the collator that answers the relay
-- chain's requests, and `check_validation_code_or_log` of collators/mod.rs.
pub mod Requests
pub mod Forks
use on_demand.Prelude.{
  ℕ, ◌/◌, Bool, not, ◌&&◌, Option, none, some, List, [], ◌∷◌, Outcome, ok, err, panicked, ◌>>=◌,
  ◌==◌, ltb, leb, if◌then◌else◌,
}
use on_demand.Primitives.{H256, ParaId}
use on_demand.Relay.{PersistedValidationData, RelayChainInterface, included}
use on_demand.Relay
use on_demand.Client.Collator.{
  Types, CollatorError, SlotClaim, Collator, create_inherent_data, collate, claim_slot,
}

-- What `check_validation_code_or_log` logs.
pub data CodeCheck : Type 0 where
  not_fetched : CodeCheck
  matching : CodeCheck
  mismatch : H256 → CodeCheck
  no_code : CodeCheck

unfoldable pub check_validation_code_or_log :
    {StorageProof : Type 0} → H256 → ParaId → RelayChainInterface StorageProof → H256 → CodeCheck
check_validation_code_or_log local_validation_code_hash para_id relay_client relay_parent =
    elim (relay_client.validation_code_hash relay_parent para_id included) [
      | none ↦ not_fetched
      | some none ↦ no_code
      | some (some state) ↦ if state == local_validation_code_hash then matching else mismatch state
    ]

pub record CollationRequest : Type 0 where
  pub relay_parent : H256
  pub persisted_validation_data : PersistedValidationData

-- `continue` in the loop: with the request completed by `None`, or dropped.
pub data Stop : Type 0 where
  reject skip : Stop

pub data Reply (T : Types) : Type 0 where
  complete : Option T.Collation → Reply T
  dropped : Reply T

-- The two variables of the loop.
pub record LastProcessed : Type 0 where
  pub last_processed_slot : ℕ
  pub last_relay_chain_block : ℕ

-- What the loop reaches while it answers one request. `validation_code` is the hash of the code in
-- the state of a block, where the state and the code can be read.
pub record Node (T : Types) (StorageProof : Type 0) : Type 0 where
  pub collator : Collator T
  pub relay_client : RelayChainInterface StorageProof
  pub decode_header : List ℕ → Option T.Header
  pub check_block_status : H256 → T.Header → Bool
  pub validation_code : H256 → Option H256
  pub slot_duration : H256 → Option ℕ
  pub relay_chain_slot_duration : ℕ
  pub authoring_duration : ℕ
  pub full_pov_size : Bool

abbrev pub try_request {ℓ} : {A : Type ℓ} → Option A → Outcome Stop A
try_request none = err reject
try_request (some a) = ok a

abbrev pub try_result {ℓ} : {A : Type ℓ} → Outcome CollatorError A → Outcome Stop A
try_result (ok a) = ok a
try_result (err _) = err reject
try_result panicked = panicked

abbrev pub or_skip {ℓ} : {A : Type ℓ} → Option A → Outcome Stop A
or_skip none = err skip
or_skip (some a) = ok a

abbrev pub continue_if : Bool → Outcome Stop (Unit {0})
continue_if b = if b then err skip else ok tt

module _ {T : Types} {StorageProof : Type 0} (n : Node T StorageProof) where
  open n use {collator, relay_client}

  unfoldable pub allowed_pov_size : PersistedValidationData → ℕ
  allowed_pov_size validation_data =
      if n.full_pov_size then validation_data.max_pov_size else validation_data.max_pov_size / 2

  -- The body of the loop up to the reply: the collation, where there is a proposal, and the new
  -- values of the variables.
  unfoldable pub process_request :
      CollationRequest → LastProcessed → Outcome Stop (LastProcessed × Option T.Collation)
  process_request request last = do
    let validation_data = request.persisted_validation_data
    parent_header ← try_request (n.decode_header validation_data.parent_head)
    let parent_hash = collator.hash parent_header
    known ← continue_if (not (n.check_block_status parent_hash parent_header))
    code ← or_skip (n.validation_code parent_hash)
    logged ←
        ok (check_validation_code_or_log code collator.para_id relay_client request.relay_parent)
    found ← try_request (relay_client.header request.relay_parent)
    relay_parent_header ← or_skip found
    slot_duration ← try_request (n.slot_duration parent_hash)
    claimed ← try_result (
        claim_slot collator parent_hash relay_parent_header slot_duration
          n.relay_chain_slot_duration)
    claim ← or_skip claimed
    fresh ← continue_if (
        leb claim.slot last.last_processed_slot
        && ltb last.last_relay_chain_block relay_parent_header.number)
    inherent_data ← try_result (
        create_inherent_data collator request.relay_parent validation_data parent_hash
          (some claim.timestamp))
    maybe_collation ← try_result (
        collate collator parent_header claim none inherent_data n.authoring_duration
          (allowed_pov_size validation_data))
    ok (
      record {
        last_processed_slot = claim.slot;
        last_relay_chain_block = relay_parent_header.number;
      },
      elim maybe_collation [ none ↦ none | some (collation, _, _) ↦ some collation ],
    )

-- One request of the stream, with the node as it is when the request is handled.
pub record Turn (T : Types) (StorageProof : Type 0) : Type 0 where
  pub node : Node T StorageProof
  pub request : CollationRequest

-- What the loop has done so far: the replies and, for each pass that reached its end, the values
-- that it left in the variables with the collation. Newest first.
pub record Loop (T : Types) : Type 0 where
  pub last : LastProcessed
  pub replies : List (Reply T)
  pub processed : List (LastProcessed × Option T.Collation)

module _ {T : Types} {StorageProof : Type 0} where
  unfoldable pub handle_request : Turn T StorageProof → Loop T → Outcome (Unit {0}) (Loop T)
  handle_request turn loop = elim (process_request turn.node turn.request loop.last) [
    | ok (last, collation) ↦ ok (record {
      last = last;
      replies = complete collation ∷ loop.replies;
      processed = (last, collation) ∷ loop.processed;
    })
    | err reject ↦ ok (record loop { replies = complete none ∷ loop.replies })
    | err skip ↦ ok (record loop { replies = dropped ∷ loop.replies })
    | panicked ↦ panicked
  ]

  -- The loop over the requests, until the stream ends.
  unfoldable pub run : List (Turn T StorageProof) → Loop T → Outcome (Unit {0}) (Loop T)
  run [] loop = ok loop
  run (turn ∷ turns) loop = handle_request turn loop >>= λ after. run turns after

-- The variables before the first request.
abbrev pub begin : {T : Types} → Loop T
begin = record {
  last = record { last_processed_slot = 0; last_relay_chain_block = 0 };
  replies = [];
  processed = [];
}
