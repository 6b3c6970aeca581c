-- ===== src/Template/Fees.antt =====
-- template/runtime/src/lib.rs and configs/mod.rs: what a transaction's weight and length cost, and
-- with that the runtime's criterion for an order.
use on_demand.Prelude.{
  ℕ, ◌+◌, ◌*◌, ◌/◌, ◌%◌, ◌≤◌, ◌<◌, ◌≡◌, ◌↔◌, Bool, true, false, Option, some, List, [], ◌∷◌, arith,
  u32_mod, u64_max, u128_max, saturating_mul, saturating_add, refl, min,
}
use on_demand.Pallet.State.{Balance}
use on_demand.Pallet.Criteria.{
  Fees, should_place_order, should_place_order_iff, adjusted_weight_fee, len_fee,
}
use on_demand.Template.Rewarding.{milli_unit}
use on_demand.Pallet.Weights.{Weight}
use on_demand.Template.Constants.{WeightConstants, extrinsic_base_weight, micro_unit}

pub record WeightToFeeCoefficient (Perbill : Type 0) : Type 0 where
  pub degree : ℕ
  pub negative : Bool
  pub coeff_frac : Perbill
  pub coeff_integer : Balance

-- The arithmetic of `sp_arithmetic` and `frame_support`, as documented: a fraction in parts of a
-- billion is rounded down, its product with a number to the nearest; a polynomial of one positive
-- linear coefficient is its value, and the constant multiplier a product, both saturating.
pub record FeeArithmetic : Type 1 where
  pub Perbill : Type 0
  pub parts : Perbill → ℕ
  pub from_rational : ℕ → ℕ → Perbill
  pub from_percent : ℕ → Perbill
  pub from_percent_lem : (x : ℕ) → x ≤ 100 → parts (from_percent x) ≡ x * 10000000
  pub from_rational_lem : (p q : ℕ) → p ≤ q → 0 < q → parts (from_rational p q) ≡ p * 1000000000 / q
  pub mul : Perbill → ℕ → ℕ
  pub mul_nearest :
      (f : Perbill) (x : ℕ)
      → (2000000000 * mul f x ≤ 2 * parts f * x + 1000000000)
        × (2 * parts f * x ≤ 2000000000 * mul f x + 1000000000)
  pub eval : List (WeightToFeeCoefficient Perbill) → ℕ → Balance
  pub eval_linear :
      (c : WeightToFeeCoefficient Perbill) (w : ℕ)
      → c.degree ≡ 1
      → c.negative ≡ false
      → eval (c ∷ []) w
        ≡ saturating_add u128_max (mul c.coeff_frac w) (saturating_mul u128_max c.coeff_integer w)
  pub constant_multiplier : Balance → ℕ → Balance
  pub constant_multiplier_lem :
      (m : Balance) (n : ℕ) → constant_multiplier m n ≡ saturating_mul u128_max m n

-- `TransactionByteFee`.
abbrev pub transaction_byte_fee : Balance
transaction_byte_fee = 10 * micro_unit

module _ (a : FeeArithmetic) (c : WeightConstants) where
  open a use {Perbill, from_rational, eval}

  -- `WeightToFee::polynomial`.
  unfoldable pub polynomial : List (WeightToFeeCoefficient Perbill)
  unfolding extrinsic_base_weight
  polynomial =
      let p = milli_unit / 10 in
      let q = 100 * (extrinsic_base_weight c).ref_time in
      record {
        degree = 1;
        negative = false;
        coeff_frac = from_rational (p % q) q;
        coeff_integer = p / q;
      }
      ∷ []

  -- `WeightToFee`, by its polynomial.
  unfoldable pub eval_weight : Weight → Balance
  unfolding polynomial
  eval_weight weight = eval polynomial weight.ref_time

  -- `weight_to_fee` and `length_to_fee` of the transaction payment pallet, as configured. As
  -- documented the first caps the weight at `max_block` of the block's weights.
  unfoldable pub weight_to_fee : Weight → Weight → Balance
  unfolding eval_weight
  weight_to_fee max_block weight = eval_weight (record {
    ref_time = min weight.ref_time max_block.ref_time;
    proof_size = min weight.proof_size max_block.proof_size;
  })

  unfoldable pub length_to_fee : ℕ → Balance
  length_to_fee length = a.constant_multiplier transaction_byte_fee length

  -- The numbers that the criterion of the pallet reads, in this runtime.
  abbrev pub runtime_fees : Weight → Weight → (ℕ → ℕ) → Option ℕ → Fees
  runtime_fees max_block block_weight saturating_mul_int all_extrinsics_len = record {
    Weight = Weight;
    block_weight = block_weight;
    base_weight = extrinsic_base_weight c;
    weight_to_fee = weight_to_fee max_block;
    saturating_mul_int = saturating_mul_int;
    all_extrinsics_len = all_extrinsics_len;
    length_to_fee = length_to_fee;
  }

  module _ (nanos : c.weight_ref_time_per_nanos ≡ 1000) where
    abbrev fraction : Perbill
    fraction = from_rational 100000000 12500000000

    eval_weight-eval :
        (w : Weight)
        → eval_weight w
          ≡ saturating_add u128_max
              (a.mul fraction w.ref_time)
              (saturating_mul u128_max 0 w.ref_time)
    unfolding eval_weight
    eval_weight-eval w = rw nanos (a.eval_linear _ w.ref_time refl refl)

    fraction_parts : a.parts fraction ≡ 8000000
    fraction_parts = a.from_rational_lem 100000000 12500000000 (omega arith) (omega arith)

    -- With the library's thousand picoseconds to a nanosecond, a weight costs the 125th part of its
    -- reference time, rounded to the nearest.
    pub eval_weight_lem :
        (w : Weight)
        → w.ref_time ≤ u64_max
        → (250 * eval_weight w ≤ 2 * w.ref_time + 125)
          × (2 * w.ref_time ≤ 250 * eval_weight w + 125)
    eval_weight_lem w h =
        let (upper, lower) = a.mul_nearest fraction w.ref_time in
        let up : 2000000000 * a.mul fraction w.ref_time ≤ 2 * 8000000 * w.ref_time + 1000000000 =
          rw fraction_parts at upper in
        let low : 2 * 8000000 * w.ref_time ≤ 2000000000 * a.mul fraction w.ref_time + 1000000000 =
          rw fraction_parts at lower in
        (omega (arith, eval_weight-eval w), omega (arith, eval_weight-eval w))

    module _ (max_block : Weight)
        (fits : (extrinsic_base_weight c).ref_time ≤ max_block.ref_time) where
      base_fee : weight_to_fee max_block (extrinsic_base_weight c) ≡ 1000000
      unfolding extrinsic_base_weight weight_to_fee
      base_fee =
          let capped : Weight = record {
            ref_time = min (extrinsic_base_weight c).ref_time max_block.ref_time;
            proof_size = min (extrinsic_base_weight c).proof_size max_block.proof_size;
          } in
          ground (arith, fits, eval_weight_lem capped)

      -- In the template's runtime, for a threshold that fits in `u128` and transactions whose length
      -- fits in `u32`, the criterion for an order is met exactly when the threshold is reached by the
      -- sum of a thousandth of a milli unit, of the adjusted fee of the block's weight, capped at the
      -- largest weight of a block, and of ten micro units for each byte of the transactions. A
      -- nanosecond is the library's thousand picoseconds, and the largest weight of a block takes no
      -- less time than an extrinsic at least does.
      pub runtime_should_place_order :
          (block_weight : Weight) (mul_int : ℕ → ℕ) (len threshold : ℕ)
          → threshold ≤ u128_max
          → len < u32_mod
          → (should_place_order (runtime_fees max_block block_weight mul_int (some len)) threshold
              ≡ true)
            ↔ (threshold
                ≤ 1000000
                  + mul_int (
                      eval_weight (record {
                        ref_time = min block_weight.ref_time max_block.ref_time;
                        proof_size = min block_weight.proof_size max_block.proof_size;
                      }))
                  + 10000000 * len)
      unfolding adjusted_weight_fee len_fee length_to_fee weight_to_fee
      runtime_should_place_order block_weight mul_int len threshold t h =
          let (met, reached) =
            should_place_order_iff (runtime_fees max_block block_weight mul_int (some len))
              threshold t in
          let bytes = a.constant_multiplier_lem transaction_byte_fee len in
          (
            λ e. omega (arith, met e, base_fee, bytes),
            λ e. reached (omega (arith, base_fee, bytes)),
          )
