-- ===== src/Client/Collator/Blocks.antt =====
-- client/consensus/on-demand-aura/src/collator.rs: which blocks are collated, and which slots are
-- claimed.
use on_demand.Prelude.{
  ℕ, ◌≡◌, ◌≢◌, ◌↔◌, Option, none, some, List, [], ◌∷◌, ◌++◌, ok, panicked, arith, Option-cases, inl,
  inr,
}
use on_demand.Primitives.{H256}
use on_demand.Relay
use on_demand.Client.Collator.{
  Types, SlotClaim, Proposal, BlockImportParams, ParachainCandidate, Collator, or_empty, seal,
  build_block_and_import, collate, unchecked, claim_slot,
}

module _ {T : Types} (c : Collator T) where
  open c use {hash}

  -- The block as it is imported: the proposal's, with the seal beside it.
  abbrev pub importable : Proposal T → T.Digest → BlockImportParams T
  importable proposal digest = record {
    header = proposal.block.header;
    post_digests = digest ∷ [];
    body = some proposal.block.body;
    state_action = proposal.storage_changes;
  }

  -- The block as it is collated: the proposal's, with the seal in its header.
  abbrev pub sealed : Proposal T → T.Digest → ParachainCandidate T
  sealed proposal digest = record {
    block = record {
      header = c.post_header proposal.block.header (digest ∷ []);
      body = proposal.block.body;
    };
    proof = proposal.proof;
  }

  module _ (parent : T.Header) (claim : SlotClaim T) (additional : Option (List T.Digest))
      (paras : T.ParachainInherentData) (other : T.InherentData) (duration max_pov_size : ℕ) where
    -- What has to hold for a collation to be made.
    pub record IsCollated (collation : T.Collation) (block_data : T.BlockData) (post_hash : H256)
        : Type 0 where
      pub proposal : Proposal T
      pub proposed :
          c.propose parent paras other
            (or_empty c additional ++ claim.pre_digest ∷ [])
            duration
            max_pov_size
          ≡ some (some proposal)
      pub digest : T.Digest
      pub signed : c.seal_digest (hash proposal.block.header) claim.author_pub ≡ some digest
      pub imported : c.import_block (importable proposal digest) ≡ some tt
      pub hashed : post_hash ≡ hash (c.post_header proposal.block.header (digest ∷ []))
      pub collated :
          c.build_collation parent post_hash (sealed proposal digest) ≡ some (collation, block_data)

    collate_due :
        (collation : T.Collation) (block_data : T.BlockData) (post_hash : H256)
        → IsCollated collation block_data post_hash
        → collate c parent claim additional (paras, other) duration max_pov_size
          ≡ ok (some (collation, block_data, post_hash))
    unfolding collate build_block_and_import seal
    collate_due collation block_data post_hash v =
        ground (arith, v.proposed, v.signed, v.imported, v.hashed, v.collated)

    collate_only :
        (collation : T.Collation) (block_data : T.BlockData) (post_hash : H256)
        → collate c parent claim additional (paras, other) duration max_pov_size
          ≡ ok (some (collation, block_data, post_hash))
        → IsCollated collation block_data post_hash
    unfolding collate build_block_and_import seal
    collate_only collation block_data post_hash e =
        elim (Option-cases (
          c.propose parent paras other (or_empty c additional ++ claim.pre_digest ∷ []) duration
            max_pov_size)) [
              | inl failed ↦ absurd (ground arith)
              | inr (none, nothing) ↦ absurd (ground arith)
              | inr (some proposal, proposed) ↦
                  elim (Option-cases
                    (c.seal_digest (hash proposal.block.header) claim.author_pub)) [
                      | inl unsigned ↦ absurd (ground arith)
                      | inr (digest, signed) ↦ record {
                        proposal = proposal;
                        proposed = proposed;
                        digest = digest;
                        signed = signed;
                        imported = ground arith;
                        hashed = ground arith;
                        collated = ground arith;
                      }
                    ]
            ]

    -- A collation is made exactly when there is a proposal with the slot's digest, its block is
    -- signed by the slot's author and imported with that seal, and the collator service takes the
    -- sealed block; the hash beside the collation is that of the sealed header.
    pub collate_iff :
        (collation : T.Collation) (block_data : T.BlockData) (post_hash : H256)
        → (collate c parent claim additional (paras, other) duration max_pov_size
            ≡ ok (some (collation, block_data, post_hash)))
          ↔ IsCollated collation block_data post_hash
    collate_iff collation block_data post_hash =
        (collate_only collation block_data post_hash, collate_due collation block_data post_hash)

    -- `collate` never panics, although it expects the body of the block it sealed.
    pub collate_total :
        collate c parent claim additional (paras, other) duration max_pov_size ≢ panicked
    unfolding collate build_block_and_import seal
    collate_total e = ground arith

  -- What has to hold for a slot to be claimed.
  pub record IsClaimed (parent_hash : H256) (relay_parent : Relay.Header)
      (slot_duration relay_duration : ℕ) (claim : SlotClaim T) : Type 0 where
    pub authorities : T.Authorities
    pub fetched : c.authorities parent_hash ≡ some authorities
    pub relay_slot : ℕ
    pub timed :
        c.relay_slot_and_timestamp relay_parent relay_duration ≡ some (relay_slot, claim.timestamp)
    pub slot_of_time : claim.slot ≡ c.slot_from_timestamp claim.timestamp slot_duration
    pub author : c.claim claim.slot authorities ≡ some claim.author_pub
    pub digest_of_slot : claim.pre_digest ≡ c.pre_digest_of claim.slot

  -- A claimed slot is the one of the relay parent's time, its author is the one that AuRa gives for
  -- this slot and the parent's authorities, and its digest names the slot; and such a claim is made
  -- whenever these can be had.
  pub claim_slot_iff :
      (parent_hash : H256) (relay_parent : Relay.Header) (slot_duration relay_duration : ℕ)
      (claim : SlotClaim T)
      → (claim_slot c parent_hash relay_parent slot_duration relay_duration ≡ ok (some claim))
        ↔ IsClaimed parent_hash relay_parent slot_duration relay_duration claim
  unfolding claim_slot unchecked
  claim_slot_iff parent_hash relay_parent slot_duration relay_duration claim = (
    λ e. elim (Option-cases (c.authorities parent_hash)) [
      | inl unknown ↦ absurd (ground arith)
      | inr (authorities, fetched) ↦
          elim (Option-cases (c.relay_slot_and_timestamp relay_parent relay_duration)) [
            | inl unknown ↦ absurd (ground arith)
            | inr ((relay_slot, timestamp), timed) ↦ record {
              authorities = authorities;
              fetched = fetched;
              relay_slot = relay_slot;
              timed = ground arith;
              slot_of_time = ground arith;
              author = ground arith;
              digest_of_slot = ground arith;
            }
          ]
    ],
    λ v. ground (arith, v.fetched, v.timed, v.slot_of_time, v.author, v.digest_of_slot),
  )
