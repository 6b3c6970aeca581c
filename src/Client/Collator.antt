-- ===== src/Client/Collator.antt =====
-- client/consensus/on-demand-aura/src/collator.rs: claiming a slot, and building, sealing and
-- importing a block.
pub mod Blocks
use on_demand.Prelude.{
  ℕ, Bool, Option, none, some, List, [], ◌∷◌, ◌++◌, Outcome, ok, err, panicked, ◌>>=◌,
}
use on_demand.Primitives.{H256, ParaId}
use on_demand.Relay.{PersistedValidationData}
use on_demand.Relay

-- The types of the node's block, of AuRa, of the proposer and of the collator service.
pub record Types : Type 1 where
  pub Header : Type 0
  pub Body : Type 0
  pub Digest : Type 0
  pub Public : Type 0
  pub Authorities : Type 0
  pub StorageChanges : Type 0
  pub Proof : Type 0
  pub ParachainInherentData : Type 0
  pub InherentData : Type 0
  pub Providers : Type 0
  pub Collation : Type 0
  pub BlockData : Type 0

pub data CollatorError : Type 0 where
  no_paras_inherent_data : CollatorError
  no_inherent_data : CollatorError
  proposal_failed : CollatorError
  seal_failed : CollatorError
  import_failed : CollatorError
  unable_to_produce_collation : CollatorError
  runtime_api_error : CollatorError

abbrev pub Result {ℓ} : Type ℓ → Type ℓ
Result A = Outcome CollatorError A

abbrev pub or_err {ℓ} : {A : Type ℓ} → CollatorError → Option A → Result A
or_err e none = err e
or_err e (some a) = ok a

pub record SlotClaim (T : Types) : Type 0 where
  pub author_pub : T.Public
  pub pre_digest : T.Digest
  pub slot : ℕ
  pub timestamp : ℕ

pub record Block (T : Types) : Type 0 where
  pub header : T.Header
  pub body : T.Body

pub record Proposal (T : Types) : Type 0 where
  pub block : Block T
  pub storage_changes : T.StorageChanges
  pub proof : T.Proof

-- `BlockImportParams` as `seal` fills it: a block of the node's own, with the longest chain as its
-- fork choice.
pub record BlockImportParams (T : Types) : Type 0 where
  pub header : T.Header
  pub post_digests : List T.Digest
  pub body : Option T.Body
  pub state_action : T.StorageChanges

pub record ParachainCandidate (T : Types) : Type 0 where
  pub block : Block T
  pub proof : T.Proof

-- What the collator is built from. The keystore is inside `claim` and `seal_digest`, and
-- `post_header` is the header with the digests appended.
pub record Collator (T : Types) : Type 0 where
  pub para_id : ParaId
  pub paras_inherent_data : H256 → PersistedValidationData → ParaId → Option T.ParachainInherentData
  pub create_inherent_data_providers : H256 → Option T.Providers
  pub create_inherent_data_of : T.Providers → Option T.InherentData
  pub replace_timestamp : T.InherentData → ℕ → T.InherentData
  pub propose :
      T.Header
      → T.ParachainInherentData
      → T.InherentData
      → List T.Digest
      → ℕ
      → ℕ
      → Option (Option (Proposal T))
  pub hash : T.Header → H256
  pub seal_digest : H256 → T.Public → Option T.Digest
  pub post_header : T.Header → List T.Digest → T.Header
  pub import_block : BlockImportParams T → Option (Unit {0})
  pub build_collation : T.Header → H256 → ParachainCandidate T → Option (T.Collation × T.BlockData)
  pub pre_digest_of : ℕ → T.Digest
  pub authorities : H256 → Option T.Authorities
  pub relay_slot_and_timestamp : Relay.Header → ℕ → Option (ℕ × ℕ)
  pub slot_from_timestamp : ℕ → ℕ → ℕ
  pub claim : ℕ → T.Authorities → Option T.Public

module _ {T : Types} (c : Collator T) where
  open c use {hash}

  unfoldable pub create_inherent_data :
      H256
      → PersistedValidationData
      → H256
      → Option ℕ
      → Result (T.ParachainInherentData × T.InherentData)
  create_inherent_data relay_parent validation_data parent_hash timestamp = do
    paras_inherent_data ←
        or_err no_paras_inherent_data (c.paras_inherent_data relay_parent validation_data c.para_id)
    providers ← or_err no_inherent_data (c.create_inherent_data_providers parent_hash)
    other_inherent_data ← or_err no_inherent_data (c.create_inherent_data_of providers)
    ok (
      paras_inherent_data,
      elim timestamp [
        | none ↦ other_inherent_data
        | some t ↦ c.replace_timestamp other_inherent_data t
      ],
    )

  unfoldable pub seal : Block T → T.StorageChanges → T.Public → Result (BlockImportParams T)
  seal pre_sealed storage_changes author_pub = do
    digest ← or_err seal_failed (c.seal_digest (hash pre_sealed.header) author_pub)
    ok (record {
      header = pre_sealed.header;
      post_digests = digest ∷ [];
      body = some pre_sealed.body;
      state_action = storage_changes;
    })

  abbrev pub or_empty : Option (List T.Digest) → List T.Digest
  or_empty none = []
  or_empty (some digests) = digests

  -- `expect` on the body panics.
  abbrev pub expect {ℓ} : {A : Type ℓ} → Option A → Result A
  expect none = panicked
  expect (some a) = ok a

  abbrev pub build_and_import : SlotClaim T → Proposal T → Result (ParachainCandidate T)
  build_and_import slot_claim proposal = do
    sealed_importable ← seal proposal.block proposal.storage_changes slot_claim.author_pub
    body ← expect sealed_importable.body
    let block : Block T = record {
      header = c.post_header sealed_importable.header sealed_importable.post_digests;
      body = body;
    }
    imported ← or_err import_failed (c.import_block sealed_importable)
    ok (record { block = block; proof = proposal.proof })

  unfoldable pub build_block_and_import :
      T.Header
      → SlotClaim T
      → Option (List T.Digest)
      → T.ParachainInherentData × T.InherentData
      → ℕ
      → ℕ
      → Result (Option (ParachainCandidate T))
  unfolding seal
  build_block_and_import parent_header slot_claim additional_pre_digest (paras, other) duration
        max_pov_size =
      do
        let digest = or_empty additional_pre_digest ++ slot_claim.pre_digest ∷ []
        maybe_proposal ←
            or_err proposal_failed
              (c.propose parent_header paras other digest duration max_pov_size)
        elim maybe_proposal [
          | none ↦ ok none
          | some proposal ↦
              build_and_import slot_claim proposal >>= λ candidate. ok (some candidate)
        ]

  unfoldable pub collate :
      T.Header
      → SlotClaim T
      → Option (List T.Digest)
      → T.ParachainInherentData × T.InherentData
      → ℕ
      → ℕ
      → Result (Option (T.Collation × T.BlockData × H256))
  unfolding build_block_and_import
  collate parent_header slot_claim additional_pre_digest inherent_data duration max_pov_size = do
    maybe_candidate ←
        build_block_and_import parent_header slot_claim additional_pre_digest inherent_data duration
          max_pov_size
    elim maybe_candidate [
      | none ↦ ok none
      | some candidate ↦
          let post_hash = hash candidate.block.header in
          elim (c.build_collation parent_header post_hash candidate) [
            | none ↦ err unable_to_produce_collation
            | some (collation, block_data) ↦ ok (some (collation, block_data, post_hash))
          ]
    ]

  unfoldable pub unchecked : T.Public → ℕ → ℕ → SlotClaim T
  unchecked author_pub slot timestamp = record {
    author_pub = author_pub;
    pre_digest = c.pre_digest_of slot;
    slot = slot;
    timestamp = timestamp;
  }

  unfoldable pub claim_slot : H256 → Relay.Header → ℕ → ℕ → Result (Option (SlotClaim T))
  unfolding unchecked
  claim_slot parent_hash relay_parent_header slot_duration relay_chain_slot_duration = do
    authorities ← or_err runtime_api_error (c.authorities parent_hash)
    elim (c.relay_slot_and_timestamp relay_parent_header relay_chain_slot_duration) [
      | none ↦ ok none
      | some (_, timestamp) ↦
          let slot_now = c.slot_from_timestamp timestamp slot_duration in
          elim (c.claim slot_now authorities) [
            | none ↦ ok none
            | some author_pub ↦ ok (some (unchecked author_pub slot_now timestamp))
          ]
    ]
