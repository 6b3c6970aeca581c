-- ===== src/Client/Basic/Forks.antt =====
-- client/consensus/on-demand-aura/src/collators/basic.rs: how often a slot is used.
use on_demand.Prelude.{
  ℕ, suc, ◌≤◌, ◌<◌, ◌≡◌, ◌≢◌, ◌⊎◌, refl, Option, none, List, [], ◌∷◌, map, ok, panicked, arith, inl,
  inr, length, Below, Below-count, count_slot, ◌+◌, Outcome-cases,
}
use on_demand.Client.Collator.{
  Types, create_inherent_data, collate, claim_slot, build_block_and_import, seal,
}
use on_demand.Client.Basic.{
  CollationRequest, Node, LastProcessed, process_request, Turn, Loop, run, handle_request, begin,
  complete, dropped, reject, skip,
}

-- One pass may use the slot of the pass before, or an earlier one, only on a relay parent that is
-- not above that pass's.
abbrev pub MayFollow : LastProcessed → LastProcessed → Type 0
MayFollow last new =
    (last.last_processed_slot < new.last_processed_slot)
    ⊎ (new.last_relay_chain_block ≤ last.last_relay_chain_block)

-- The passes of a loop, newest first, up to the present values of the variables.
pub data IsForked {A : Type 0} : LastProcessed → List (LastProcessed × A) → Type 0 where
  unused : IsForked (record { last_processed_slot = 0; last_relay_chain_block = 0 }) []
  follow :
      {last : LastProcessed} {done : List (LastProcessed × A)} (new : LastProcessed) (a : A)
      → IsForked last done
      → MayFollow last new
      → IsForked new ((new, a) ∷ done)

module _ {T : Types} {StorageProof : Type 0} where
  process_request_total :
      (n : Node T StorageProof) (request : CollationRequest) (last : LastProcessed)
      → process_request n request last ≢ panicked
  unfolding process_request claim_slot create_inherent_data collate build_block_and_import seal
  process_request_total n request last e = ground arith

  process_request_fresh :
      (n : Node T StorageProof) (request : CollationRequest) (last last' : LastProcessed)
      (collation : Option T.Collation)
      → process_request n request last ≡ ok (last', collation)
      → MayFollow last last'
  unfolding process_request
  process_request_fresh n request last last' collation e = ground arith

  handle_request_lem :
      (turn : Turn T StorageProof) (loop : Loop T)
      → IsForked loop.last loop.processed
      → (after : Loop T) × (handle_request turn loop ≡ ok after)
        × (length after.replies ≡ suc (length loop.replies))
        × IsForked after.last after.processed
  unfolding handle_request
  handle_request_lem turn loop h =
      elim (Outcome-cases (process_request turn.node turn.request loop.last)) [
        | inl ((last, collation), done) ↦ (
          record {
            last = last;
            replies = complete collation ∷ loop.replies;
            processed = (last, collation) ∷ loop.processed;
          },
          ground arith,
          refl,
          follow last collation h
              (process_request_fresh turn.node turn.request loop.last last collation done),
        )
        | inr (inl (reject, done)) ↦
            (record loop { replies = complete none ∷ loop.replies }, ground arith, refl, h)
        | inr (inl (skip, done)) ↦
            (record loop { replies = dropped ∷ loop.replies }, ground arith, refl, h)
        | inr (inr crashed) ↦
            absurd (process_request_total turn.node turn.request loop.last crashed)
      ]

  run_from :
      (turns : List (Turn T StorageProof)) (loop : Loop T)
      → IsForked loop.last loop.processed
      → (after : Loop T) × (run turns loop ≡ ok after)
        × (length after.replies ≡ length turns + length loop.replies)
        × IsForked after.last after.processed
  unfolding run
  run_from [] loop h = (loop, refl, omega arith, h)
  run_from (turn ∷ turns) loop h =
      let (next, handled, one, forked) = handle_request_lem turn loop h in
      let (after, done, more, ordered) = run_from turns next forked in
      (after, ground arith, omega arith, ordered)

  -- The loop handles every request, without a panic and with one reply each, and of its passes one
  -- uses the slot of the pass before, or an earlier slot, only on a relay parent that is not above
  -- that pass's.
  pub run_lem :
      (turns : List (Turn T StorageProof))
      → (after : Loop T) × (run turns begin ≡ ok after)
        × (length after.replies ≡ length turns)
        × IsForked after.last after.processed
  run_lem turns =
      let (after, done, count, forked) = run_from turns begin unused in
      (after, done, omega arith, forked)

-- The relay parents of the passes rise, as they do along one fork of the relay chain.
abbrev pub Rises : {A : Type 0} → ℕ → List (LastProcessed × A) → Type 0
Rises bound [] = Unit {0}
Rises bound ((new, _) ∷ done) =
    (new.last_relay_chain_block < bound) × Rises new.last_relay_chain_block done

abbrev pub slots : {A : Type 0} → List (LastProcessed × A) → List (ℕ × A)
slots = map λ (last, a). (last.last_processed_slot, a)

Rises-Below :
    {A : Type 0} {last : LastProcessed} {done : List (LastProcessed × A)} (bound : ℕ)
    → IsForked last done
    → Rises bound done
    → Below (suc last.last_processed_slot) (slots done)
Rises-Below bound unused r = tt
Rises-Below bound (follow new a unused later) r = (omega arith, tt)
Rises-Below bound (follow new a (follow old b before earlier) later) (_, r) = (
  omega arith,
  (ground arith, (Rises-Below new.last_relay_chain_block (follow old b before earlier) r).1),
)

-- While the relay parents of the passes rise, as on one fork of the relay chain, at most one pass
-- uses a slot.
pub run_once :
    {T : Types} {StorageProof : Type 0} (turns : List (Turn T StorageProof)) (after : Loop T)
    (bound slot : ℕ)
    → run turns begin ≡ ok after
    → Rises bound after.processed
    → count_slot slot (slots after.processed) ≤ 1
run_once turns after bound slot e rising =
    let (loop, done, _, forked) = run_lem turns in
    let same : loop ≡ after = ground arith in
    let ordered : IsForked after.last after.processed = rw same at forked in
    Below-count (suc after.last.last_processed_slot) slot (slots after.processed)
      (Rises-Below bound ordered rising)
