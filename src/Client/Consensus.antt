-- ===== src/Client/Consensus.antt =====
-- client/consensus/on-demand-aura/src/lib.rs: `AuraConsensus`, the collator's consensus before
-- `collators::basic`. The AuRa worker and the inherent data providers are parameters.
use on_demand.Prelude.{
  ℕ, suc, ◌/◌, ◌≤◌, ◌<◌, ◌≡◌, ◌↔◌, inl, inr, Option, none, some, List, [], ◌∷◌, leb, if◌then◌else◌,
  arith, Option-cases, Bool-cases, Below, Below-mono, Below-count, count_slot,
}
use on_demand.Primitives.{H256}
use on_demand.Relay.{PersistedValidationData}

pub record Types : Type 1 where
  pub Header : Type 0
  pub Providers : Type 0
  pub Block : Type 0
  pub Proof : Type 0

pub record SlotInfo (T : Types) : Type 0 where
  pub slot : ℕ
  pub create_inherent_data : T.Providers
  pub duration : ℕ
  pub chain_head : T.Header
  pub block_size_limit : Option ℕ

pub record SlotResult (T : Types) : Type 0 where
  pub block : T.Block
  pub storage_proof : T.Proof

pub record ParachainCandidate (T : Types) : Type 0 where
  pub block : T.Block
  pub proof : T.Proof

-- What does not change in an `AuraConsensus`, with what its calls answer at one time.
pub record AuraConsensus (T : Types) : Type 0 where
  pub hash : T.Header → H256
  pub create_inherent_data_providers : H256 → H256 × PersistedValidationData → Option T.Providers
  pub slot_of : T.Providers → ℕ
  pub slot_duration : ℕ
  pub on_slot : SlotInfo T → Option (SlotResult T)

-- `last_slot_processed`, and for each slot that the worker was called for what it gave, newest first.
pub record Slots (T : Types) : Type 0 where
  pub last_slot_processed : ℕ
  pub worked : List (ℕ × Option (SlotResult T))

pub record Request (T : Types) : Type 0 where
  pub parent : T.Header
  pub relay_parent : H256
  pub validation_data : PersistedValidationData

-- `fetch_max`: the larger value stays, and the old one is the answer.
abbrev pub fetch_max : ℕ → ℕ → ℕ × ℕ
fetch_max last slot = (if leb last slot then slot else last, last)

module _ {T : Types} where
  unfoldable pub inherent_data :
      AuraConsensus T → H256 → PersistedValidationData → H256 → Option T.Providers
  inherent_data c parent validation_data relay_parent =
      c.create_inherent_data_providers parent (relay_parent, validation_data)

  abbrev pub slot_info : AuraConsensus T → Request T → T.Providers → SlotInfo T
  slot_info c r providers = record {
    slot = c.slot_of providers;
    create_inherent_data = providers;
    duration = c.slot_duration;
    chain_head = r.parent;
    block_size_limit = some (r.validation_data.max_pov_size / 2);
  }

  abbrev pub candidate : Option (SlotResult T) → Option (ParachainCandidate T)
  candidate none = none
  candidate (some res) = some (record { block = res.block; proof = res.storage_proof })

  unfoldable pub produce_candidate :
      AuraConsensus T → Request T → Slots T → Slots T × Option (ParachainCandidate T)
  unfolding inherent_data
  produce_candidate c r s =
      elim (inherent_data c (c.hash r.parent) r.validation_data r.relay_parent) [
        | none ↦ (s, none)
        | some providers ↦
            let info = slot_info c r providers in
            let (processed, previous) = fetch_max s.last_slot_processed info.slot in
            if leb info.slot previous
            then (record s { last_slot_processed = processed }, none)
            else let res = c.on_slot info in
              (
                record { last_slot_processed = processed; worked = (info.slot, res) ∷ s.worked },
                candidate res,
              )
      ]

  -- A sequence of calls, each with what the outside answers at its time.
  unfoldable pub produce_candidates : List (AuraConsensus T × Request T) → Slots T → Slots T
  produce_candidates [] s = s
  produce_candidates ((c, r) ∷ calls) s = produce_candidates calls (produce_candidate c r s).0

  -- The consensus as it is built.
  abbrev pub build : Slots T
  build = record { last_slot_processed = 0; worked = [] }

  -- What a call does to the slots: the worker is called for a later slot than all before, or not.
  pub data IsStep (s s' : Slots T) : Type 0 where
    skipped : s' ≡ s → IsStep s s'
    worked_on :
        (res : Option (SlotResult T))
        → s.last_slot_processed < s'.last_slot_processed
        → s'.worked ≡ (s'.last_slot_processed, res) ∷ s.worked
        → IsStep s s'

  produce_candidate-IsStep :
      (c : AuraConsensus T) (r : Request T) (s : Slots T) → IsStep s (produce_candidate c r s).0
  unfolding produce_candidate inherent_data
  produce_candidate-IsStep c r s =
      elim (Option-cases
        (c.create_inherent_data_providers (c.hash r.parent) (r.relay_parent, r.validation_data))) [
          | inl failed ↦ skipped (ground arith)
          | inr (providers, created) ↦
              elim (Bool-cases (leb (c.slot_of providers) s.last_slot_processed)) [
                | inl old ↦ skipped (ground arith)
                | inr new ↦
                    worked_on (c.on_slot (slot_info c r providers)) (ground arith) (ground arith)
              ]
        ]

  -- What has to hold for a candidate to be produced.
  pub record IsProduced (c : AuraConsensus T) (r : Request T) (s s' : Slots T)
      (p : ParachainCandidate T) : Type 0 where
    pub providers : T.Providers
    pub created :
        inherent_data c (c.hash r.parent) r.validation_data r.relay_parent ≡ some providers
    pub later : s.last_slot_processed < c.slot_of providers
    pub res : SlotResult T
    pub authored :
        c.on_slot (record {
          slot = c.slot_of providers;
          create_inherent_data = providers;
          duration = c.slot_duration;
          chain_head = r.parent;
          block_size_limit = some (r.validation_data.max_pov_size / 2);
        })
        ≡ some res
    pub taken : p ≡ record { block = res.block; proof = res.storage_proof }
    pub recorded : s' ≡ record {
      last_slot_processed = c.slot_of providers;
      worked = (c.slot_of providers, some res) ∷ s.worked;
    }

  -- A candidate is produced exactly when there are inherent data providers, their slot is later than
  -- all that were processed, and the worker authors a block for that slot on the parent in half of
  -- the relay chain's size; it is that block with its storage proof, and the slot is then processed.
  pub produce_candidate_iff :
      (c : AuraConsensus T) (r : Request T) (s s' : Slots T) (p : ParachainCandidate T)
      → (produce_candidate c r s ≡ (s', some p)) ↔ IsProduced c r s s' p
  unfolding produce_candidate inherent_data
  produce_candidate_iff c r s s' p = (
    λ e.
        elim (Option-cases (
          c.create_inherent_data_providers (c.hash r.parent) (r.relay_parent, r.validation_data))) [
            | inl failed ↦ absurd (ground arith)
            | inr (providers, created) ↦ elim (Option-cases (c.on_slot (slot_info c r providers))) [
              | inl idle ↦ absurd (ground arith)
              | inr (res, authored) ↦ record {
                providers = providers;
                created = created;
                later = ground arith;
                res = res;
                authored = authored;
                taken = ground arith;
                recorded = ground arith;
              }
            ]
          ],
    λ v. ground (arith, v.created, v.later, v.authored, v.taken, v.recorded),
  )

  IsStep-Below :
      {s s' : Slots T}
      → IsStep s s'
      → Below (suc s.last_slot_processed) s.worked
      → Below (suc s'.last_slot_processed) s'.worked
  IsStep-Below (skipped same) b = rw same b
  IsStep-Below {s} {s'} (worked_on res later e) b =
      rw e (
        omega arith,
        Below-mono (suc s.last_slot_processed) s'.last_slot_processed s.worked later b,
      )

  calls-Below :
      (calls : List (AuraConsensus T × Request T)) (s : Slots T)
      → Below (suc s.last_slot_processed) s.worked
      → Below
          (suc (produce_candidates calls s).last_slot_processed)
          (produce_candidates calls s).worked
  unfolding produce_candidates
  calls-Below [] s b = b
  calls-Below ((c, r) ∷ calls) s b =
      calls-Below calls (produce_candidate c r s).0
        (IsStep-Below (produce_candidate-IsStep c r s) b)

  -- Whatever the calls and their answers are, the worker is called at most once for a slot.
  pub produce_candidates_once :
      (calls : List (AuraConsensus T × Request T)) (slot : ℕ)
      → count_slot slot (produce_candidates calls build).worked ≤ 1
  produce_candidates_once calls slot =
      let s : Slots T = produce_candidates calls build in
      Below-count (suc s.last_slot_processed) slot s.worked (calls-Below calls build tt)
