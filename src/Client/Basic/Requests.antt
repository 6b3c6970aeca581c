-- ===== src/Client/Basic/Requests.antt =====
-- client/consensus/on-demand-aura/src/collators/basic.rs: which requests are answered with a
-- collation.
use on_demand.Prelude.{
  ℕ, ◌≡◌, ◌↔◌, true, false, ◌&&◌, none, some, ok, ltb, leb, arith, Option-cases, inl, inr,
  Outcome-cases,
}
use on_demand.Primitives.{H256}
use on_demand.Relay.{PersistedValidationData}
use on_demand.Relay
use on_demand.Client.Collator.{Types, SlotClaim, create_inherent_data, collate, claim_slot}
use on_demand.Client.Collator.Blocks.{IsCollated, collate_iff}
use on_demand.Client.Basic.{
  CollationRequest, Node, LastProcessed, process_request, allowed_pov_size,
}

module _ {T : Types} {StorageProof : Type 0} (n : Node T StorageProof) where
  open n use {collator, relay_client}

  -- What has to hold for a request to be answered with a collation.
  pub record IsAnswered (request : CollationRequest) (last last' : LastProcessed)
      (collation : T.Collation) : Type 0 where
    pub parent : T.Header
    pub decoded : n.decode_header request.persisted_validation_data.parent_head ≡ some parent
    pub known : n.check_block_status (collator.hash parent) parent ≡ true
    pub code : H256
    pub has_code : n.validation_code (collator.hash parent) ≡ some code
    pub relay_parent : Relay.Header
    pub found : relay_client.header request.relay_parent ≡ some (some relay_parent)
    pub slot_duration : ℕ
    pub timed : n.slot_duration (collator.hash parent) ≡ some slot_duration
    pub claim : SlotClaim T
    pub claimed :
        claim_slot collator
          (collator.hash parent)
          relay_parent
          slot_duration
          n.relay_chain_slot_duration
        ≡ ok (some claim)
    pub fresh :
        (leb claim.slot last.last_processed_slot
          && ltb last.last_relay_chain_block relay_parent.number)
        ≡ false
    pub paras : T.ParachainInherentData
    pub other : T.InherentData
    pub inherents :
        create_inherent_data collator request.relay_parent request.persisted_validation_data
          (collator.hash parent)
          (some claim.timestamp)
        ≡ ok (paras, other)
    pub block_data : T.BlockData
    pub post_hash : H256
    pub built :
        IsCollated collator parent claim none paras other n.authoring_duration
          (allowed_pov_size n request.persisted_validation_data)
          collation
          block_data
          post_hash
    pub updated :
        last'
        ≡ record { last_processed_slot = claim.slot; last_relay_chain_block = relay_parent.number }

  process_due :
      (request : CollationRequest) (last last' : LastProcessed) (collation : T.Collation)
      → IsAnswered request last last' collation
      → process_request n request last ≡ ok (last', some collation)
  unfolding process_request
  process_due request last last' collation v =
      let made : collate collator v.parent v.claim none (v.paras, v.other) n.authoring_duration
            (allowed_pov_size n request.persisted_validation_data)
          ≡ ok (some (collation, v.block_data, v.post_hash)) =
        (collate_iff collator v.parent v.claim none v.paras v.other n.authoring_duration
            (allowed_pov_size n request.persisted_validation_data) collation v.block_data
            v.post_hash).1
          v.built in
      ground (
        arith, v.decoded, v.known, v.has_code, v.found, v.timed, v.claimed, v.fresh, v.inherents,
        v.updated, made,
      )

  claimed_only :
      (request : CollationRequest) (last last' : LastProcessed) (collation : T.Collation)
      (parent : T.Header)
      → n.decode_header request.persisted_validation_data.parent_head ≡ some parent
      → (code : H256) → n.validation_code (collator.hash parent) ≡ some code
      → (relay_parent : Relay.Header)
      → relay_client.header request.relay_parent ≡ some (some relay_parent)
      → (slot_duration : ℕ) → n.slot_duration (collator.hash parent) ≡ some slot_duration
      → process_request n request last ≡ ok (last', some collation)
      → IsAnswered request last last' collation
  unfolding process_request
  claimed_only request last last' collation parent decoded code has_code relay_parent found
        slot_duration timed e =
      let validation_data = request.persisted_validation_data in
      elim (Outcome-cases (
        claim_slot collator (collator.hash parent) relay_parent slot_duration
          n.relay_chain_slot_duration)) [
            | inr (inl (failed, claimed)) ↦ absurd (ground arith)
            | inr (inr claimed) ↦ absurd (ground arith)
            | inl (none, claimed) ↦ absurd (ground arith)
            | inl (some claim, claimed) ↦
                elim (Outcome-cases (
                  create_inherent_data collator request.relay_parent validation_data
                    (collator.hash parent) (some claim.timestamp))) [
                      | inr (inl (failed, inherents)) ↦ absurd (ground arith)
                      | inr (inr inherents) ↦ absurd (ground arith)
                      | inl ((paras, other), inherents) ↦
                          elim (Outcome-cases (
                            collate collator parent claim none (paras, other) n.authoring_duration
                              (allowed_pov_size n validation_data))) [
                                | inr (inl (failed, made)) ↦ absurd (ground arith)
                                | inr (inr made) ↦ absurd (ground arith)
                                | inl (none, made) ↦ absurd (ground arith)
                                | inl (some (collated, block_data, post_hash), made) ↦
                                    let same : collated ≡ collation = ground arith in
                                    record {
                                      parent = parent;
                                      decoded = decoded;
                                      known = ground arith;
                                      code = code;
                                      has_code = has_code;
                                      relay_parent = relay_parent;
                                      found = found;
                                      slot_duration = slot_duration;
                                      timed = timed;
                                      claim = claim;
                                      claimed = claimed;
                                      fresh = ground arith;
                                      paras = paras;
                                      other = other;
                                      inherents = inherents;
                                      block_data = block_data;
                                      post_hash = post_hash;
                                      built =
                                          (collate_iff collator parent claim none paras other
                                              n.authoring_duration
                                              (allowed_pov_size n validation_data) collation
                                              block_data post_hash).0
                                            (ground arith);
                                      updated = ground arith;
                                    }
                              ]
                    ]
          ]

  process_only :
      (request : CollationRequest) (last last' : LastProcessed) (collation : T.Collation)
      → process_request n request last ≡ ok (last', some collation)
      → IsAnswered request last last' collation
  unfolding process_request
  process_only request last last' collation e =
      let validation_data = request.persisted_validation_data in
      elim (Option-cases (n.decode_header validation_data.parent_head)) [
        | inl failed ↦ absurd (ground arith)
        | inr (parent, decoded) ↦ elim (Option-cases (n.validation_code (collator.hash parent))) [
          | inl failed ↦ absurd (ground arith)
          | inr (code, has_code) ↦ elim (Option-cases (relay_client.header request.relay_parent)) [
            | inl failed ↦ absurd (ground arith)
            | inr (none, missing) ↦ absurd (ground arith)
            | inr (some relay_parent, found) ↦
                elim (Option-cases (n.slot_duration (collator.hash parent))) [
                  | inl failed ↦ absurd (ground arith)
                  | inr (slot_duration, timed) ↦
                      claimed_only request last last' collation parent decoded code has_code
                        relay_parent found slot_duration timed e
                ]
          ]
        ]
      ]

  -- A request is answered with a collation exactly when its parent's head is decoded and known to the
  -- collator service, its state has the code, the relay parent's header and the slot's duration can
  -- be had, a slot is claimed that is later than the last one or on a relay parent that is not above
  -- the last one, the inherent data can be had, and the block is built with the allowed size; the
  -- variables are then those of this slot and relay parent.
  pub process_request_iff :
      (request : CollationRequest) (last last' : LastProcessed) (collation : T.Collation)
      → (process_request n request last ≡ ok (last', some collation))
        ↔ IsAnswered request last last' collation
  process_request_iff request last last' collation =
      (process_only request last last' collation, process_due request last last' collation)
