-- ===== src/Template/Constants.antt =====
-- template/runtime/src/lib.rs and template/runtime/src/weights: the runtime's constants.
use on_demand.Prelude.{ℕ, ◌*◌, ◌/◌, u64_max, saturating_mul}
use on_demand.Pallet.State.{Balance}
use on_demand.Pallet.Weights.{Weight, from_parts}

-- The weight constants of `frame_support` and the relay chain's limit on a proof of validity, in
-- bytes.
pub record WeightConstants : Type 0 where
  pub weight_ref_time_per_nanos : ℕ
  pub weight_ref_time_per_second : ℕ
  pub max_pov_size : ℕ

module _ (c : WeightConstants) where
  open c use {weight_ref_time_per_nanos, weight_ref_time_per_second}

  unfoldable pub block_execution_weight : Weight
  block_execution_weight = from_parts (saturating_mul u64_max weight_ref_time_per_nanos 5000000) 0

  unfoldable pub extrinsic_base_weight : Weight
  extrinsic_base_weight = from_parts (saturating_mul u64_max weight_ref_time_per_nanos 125000) 0

  unfoldable pub maximum_block_weight : Weight
  maximum_block_weight =
      from_parts (saturating_mul u64_max weight_ref_time_per_second 2) c.max_pov_size

-- Milliseconds.
abbrev pub milli_secs_per_block : ℕ
milli_secs_per_block = 12000

abbrev pub slot_duration : ℕ
slot_duration = milli_secs_per_block

-- Times in blocks.
abbrev pub minutes : ℕ
minutes = 60000 / milli_secs_per_block

abbrev pub hours : ℕ
hours = minutes * 60

abbrev pub days : ℕ
days = hours * 24

abbrev pub micro_unit : Balance
micro_unit = 1000000

abbrev pub unincluded_segment_capacity : ℕ
unincluded_segment_capacity = 1

abbrev pub block_processing_velocity : ℕ
block_processing_velocity = 1

abbrev pub relay_chain_slot_duration_millis : ℕ
relay_chain_slot_duration_millis = 6000
