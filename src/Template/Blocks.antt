-- ===== src/Template/Blocks.antt =====
-- template/runtime/src/configs/mod.rs and lib.rs: how much weight a block may take, and what of it is
-- set aside.
use on_demand.Prelude.{ℕ, ◌+◌, ◌-◌, ◌*◌, ◌/◌, ◌≤◌, ◌≡◌, Option, none, some, arith}
use on_demand.Pallet.Weights.{Weight, DispatchClass, normal, operational, mandatory}
use on_demand.Template.Constants.{
  WeightConstants, block_execution_weight, extrinsic_base_weight, maximum_block_weight,
}
use on_demand.Template.Fees.{FeeArithmetic}

-- What the builder of `BlockWeights` is told; what it leaves unsaid is `none`.
pub record BlockWeights (Perbill : Type 0) : Type 0 where
  pub base_block : Weight
  pub base_extrinsic : DispatchClass → Weight
  pub max_total : DispatchClass → Option Weight
  pub reserved : DispatchClass → Option Weight
  pub avg_block_initialization : Perbill

-- `Weight::saturating_div`, and the difference of two weights, by each part.
abbrev pub div_weight : Weight → ℕ → Weight
div_weight w n = record { ref_time = w.ref_time / n; proof_size = w.proof_size / n }

abbrev pub sub_weight : Weight → Weight → Weight
sub_weight a b = record {
  ref_time = a.ref_time - b.ref_time;
  proof_size = a.proof_size - b.proof_size;
}

module _ (a : FeeArithmetic) (c : WeightConstants) where
  open a use {Perbill, from_percent, mul}

  abbrev pub average_on_initialize_ratio : Perbill
  average_on_initialize_ratio = from_percent 5

  abbrev pub normal_dispatch_ratio : Perbill
  normal_dispatch_ratio = from_percent 75

  -- The product of a fraction and a weight, by each part.
  abbrev pub mul_weight : Perbill → Weight → Weight
  mul_weight f w = record { ref_time = mul f w.ref_time; proof_size = mul f w.proof_size }

  abbrev pub max_total : DispatchClass → Option Weight
  max_total normal = some (mul_weight normal_dispatch_ratio (maximum_block_weight c))
  max_total operational = some (maximum_block_weight c)
  max_total mandatory = none

  -- The difference that operational extrinsics have for themselves.
  abbrev pub reserved : DispatchClass → Option Weight
  reserved operational = some (
      sub_weight (maximum_block_weight c)
        (mul_weight normal_dispatch_ratio (maximum_block_weight c)))
  reserved _ = none

  -- `RuntimeBlockWeights`.
  unfoldable pub runtime_block_weights : BlockWeights Perbill
  runtime_block_weights = record {
    base_block = block_execution_weight c;
    base_extrinsic = λ class. extrinsic_base_weight c;
    max_total = max_total;
    reserved = reserved;
    avg_block_initialization = average_on_initialize_ratio;
  }

  unfoldable pub reserved_xcmp_weight : Weight
  reserved_xcmp_weight = div_weight (maximum_block_weight c) 4

  unfoldable pub reserved_dmp_weight : Weight
  reserved_dmp_weight = div_weight (maximum_block_weight c) 4

  -- A percentage of a number, up to rounding.
  pub mul-from_percent : (x n : ℕ) → x ≤ 100 → 100 * mul (from_percent x) n ≤ x * n + 50
  mul-from_percent x n small =
      let (upper, _) = a.mul_nearest (from_percent x) n in
      let up : 2000000000 * mul (from_percent x) n ≤ 2 * (x * 10000000) * n + 1000000000 =
        rw (a.from_percent_lem x small) at upper in
      omega arith

  three_quarters :
      (x : ℕ) → (4 * mul normal_dispatch_ratio x ≤ 3 * x + 2) × (mul normal_dispatch_ratio x ≤ x)
  three_quarters x =
      let up : 100 * mul normal_dispatch_ratio x ≤ 75 * x + 50 =
        mul-from_percent 75 x (omega arith) in
      (omega arith, omega arith)

  -- Normal extrinsics have at most three quarters of a block, up to rounding, and what operational
  -- ones have for themselves is exactly the rest, in time and in proof; the two queues together keep
  -- at most half of the block's time.
  pub runtime_block_weights_lem :
      (limit own : Weight)
      → runtime_block_weights.max_total normal ≡ some limit
      → runtime_block_weights.reserved operational ≡ some own
      → let max = maximum_block_weight c in
        (4 * limit.ref_time ≤ 3 * max.ref_time + 2)
        × (4 * limit.proof_size ≤ 3 * max.proof_size + 2)
        × (limit.ref_time + own.ref_time ≡ max.ref_time)
        × (limit.proof_size + own.proof_size ≡ max.proof_size)
        × (2 * (reserved_xcmp_weight.ref_time + reserved_dmp_weight.ref_time) ≤ max.ref_time)
  unfolding runtime_block_weights reserved_xcmp_weight reserved_dmp_weight
  runtime_block_weights_lem limit own l o =
      let time = three_quarters (maximum_block_weight c).ref_time in
      let size = three_quarters (maximum_block_weight c).proof_size in
      (ground arith, ground arith, ground arith, ground arith, ground arith)
