-- ===== src/Template/Node.antt =====
-- template/node/src/service.rs: the node's criterion for an order, and the inherent data that it
-- gives to the collator.
use on_demand.Prelude.{
  ℕ, ◌+◌, ◌%◌, ◌≤◌, ◌≡◌, ◌∙◌, ◌↔◌, inl, inr, Bool, true, false, Option, none, some, List, [], ◌∷◌,
  leb, u32_mod, min, arith, saturating_add, u128_max, Option-cases, Outcome, ok, err,
}
use on_demand.Primitives.{ParaId, OrderInherentData, OrderRecord}
use on_demand.Relay.{RelayChainInterface}
use on_demand.Inherent.{create_at}

-- The parachain's client at its best block: the final fee of a transaction with its length, and the
-- threshold, where the runtime answers.
pub record ParachainClient (Transaction : Type 0) : Type 0 where
  pub encoded_length : Transaction → ℕ
  pub query_final_fee : Transaction → ℕ → Option ℕ
  pub threshold_parameter : Option ℕ

module _ {Transaction : Type 0} (parachain : ParachainClient Transaction) where
  open parachain use {query_final_fee, encoded_length, threshold_parameter}

  abbrev pub add_fee : ℕ → Option ℕ → ℕ
  add_fee total_fees none = total_fees
  add_fee total_fees (some fee) = saturating_add u128_max total_fees fee

  -- The loop over the ready transactions. `as u32` takes the length modulo the word.
  unfoldable pub sum_fees : List Transaction → ℕ → ℕ
  sum_fees [] total_fees = total_fees
  sum_fees (tx ∷ pending) total_fees =
      sum_fees pending (add_fee total_fees (query_final_fee tx (encoded_length tx % u32_mod)))

  unfoldable pub should_place_order : List Transaction → Bool
  unfolding sum_fees
  should_place_order ready = elim threshold_parameter [
    | none ↦ false
    | some fee_threshold ↦ leb fee_threshold (sum_fees ready 0)
  ]

  -- The exact sum of the fees that the runtime answers.
  abbrev pub or_zero : Option ℕ → ℕ
  or_zero none = 0
  or_zero (some fee) = fee

  abbrev pub known_fees : List Transaction → ℕ
  known_fees [] = 0
  known_fees (tx ∷ pending) =
      or_zero (query_final_fee tx (encoded_length tx % u32_mod)) + known_fees pending

  pub sum_fees-known_fees :
      (ready : List Transaction) (total : ℕ)
      → total ≤ u128_max
      → sum_fees ready total ≡ min u128_max (total + known_fees ready)
  unfolding sum_fees
  sum_fees-known_fees [] total h = omega arith
  sum_fees-known_fees (tx ∷ ready) total h =
      elim (Option-cases (query_final_fee tx (encoded_length tx % u32_mod))) [
        | inl unknown ↦ rw unknown (sum_fees-known_fees ready total h ∙ omega arith)
        | inr (fee, known) ↦ rw known (
            sum_fees-known_fees ready (saturating_add u128_max total fee) (omega arith)
            ∙ omega arith)
      ]

  -- If the runtime answers a threshold that fits in `u128`, the criterion is met exactly when the
  -- exact sum of the fees that it answers for the ready transactions reaches the threshold: the
  -- saturation never decides.
  pub should_place_order-known_fees :
      (ready : List Transaction) (threshold : ℕ)
      → threshold ≤ u128_max
      → threshold_parameter ≡ some threshold
      → (should_place_order ready ≡ true) ↔ (threshold ≤ known_fees ready)
  unfolding should_place_order
  should_place_order-known_fees ready threshold h e =
      let sum : sum_fees ready 0 ≡ min u128_max (0 + known_fees ready) =
        sum_fees-known_fees ready 0 (omega arith) in
      (λ met. ground arith, λ reached. ground arith)

-- The closure `create_inherent_data_providers` of `start_consensus`: the inherent about the block of
-- the order record. Its error is a text.
unfoldable pub create_inherent_data_providers :
    {StorageProof : Type 0}
    → RelayChainInterface StorageProof
    → ParaId
    → OrderRecord
    → Outcome (Unit {0}) (OrderInherentData StorageProof)
unfolding create_at
create_inherent_data_providers relay_chain_interface para_id record_ =
    elim (create_at relay_chain_interface record_.relay_block_hash para_id) [
      | none ↦ err tt
      | some order_inherent ↦ ok order_inherent
    ]

-- The record of `start_parachain_node`.
unfoldable pub initial_record : OrderRecord
initial_record = record { relay_block_hash = none; last_slot = 0 }
