-- ===== src/Tests/Fees.antt =====
-- A run of the runtime's fees, with fractions in parts of a billion.
use on_demand.Prelude.{
  ℕ, ◌+◌, ◌*◌, ◌/◌, ◌≤◌, ◌≡◌, ◌↔◌, refl, true, some, List, [], ◌∷◌, arith, u128_max, saturating_add,
  saturating_mul,
}
use on_demand.Pallet.Weights.{Weight, from_parts}
use on_demand.Pallet.Criteria.{should_place_order}
use on_demand.Template.Constants.{WeightConstants, extrinsic_base_weight}
use on_demand.Template.Fees.{
  WeightToFeeCoefficient, FeeArithmetic, eval_weight, runtime_fees, runtime_should_place_order,
}

abbrev mul : ℕ → ℕ → ℕ
mul f x = (f * x + 500000000) / 1000000000

pub mul_nearest :
    (f x : ℕ)
    → (2000000000 * mul f x ≤ 2 * f * x + 1000000000)
      × (2 * f * x ≤ 2000000000 * mul f x + 1000000000)
mul_nearest f x = (grind arith, grind arith)

abbrev linear : WeightToFeeCoefficient ℕ → ℕ → ℕ
linear c w =
    saturating_add u128_max (mul c.coeff_frac w) (saturating_mul u128_max c.coeff_integer w)

-- Only the first coefficient is read: the runtime has no other.
abbrev eval : List (WeightToFeeCoefficient ℕ) → ℕ → ℕ
eval [] w = 0
eval (c ∷ _) w = linear c w

abbrev pub fee_arithmetic : FeeArithmetic
fee_arithmetic = record {
  Perbill = ℕ;
  parts = λ f. f;
  from_rational = λ p q. p * 1000000000 / q;
  from_rational_lem = λ p q h pos. refl;
  from_percent = λ x. x * 10000000;
  from_percent_lem = λ x h. refl;
  mul = mul;
  mul_nearest = mul_nearest;
  eval = eval;
  eval_linear = λ c w degree positive. refl;
  constant_multiplier = λ m n. saturating_mul u128_max m n;
  constant_multiplier_lem = λ m n. refl;
}

abbrev pub constants : WeightConstants
constants = record {
  weight_ref_time_per_nanos = 1000;
  weight_ref_time_per_second = 1000000000000;
  max_pov_size = 10485760;
}

-- Two seconds.
abbrev pub max_block : Weight
max_block = from_parts 2000000000000 10485760

pub base_fits : (extrinsic_base_weight constants).ref_time ≤ max_block.ref_time
unfolding extrinsic_base_weight
base_fits = omega arith

runtime_should_place_order_example :
    (should_place_order
        (runtime_fees fee_arithmetic constants max_block
          (from_parts 250000000 0)
          (λ fee. fee)
          (some 40))
        500000000
      ≡ true)
    ↔ (500000000
        ≤ 1000000 + eval_weight fee_arithmetic constants (from_parts 250000000 0) + 10000000 * 40)
runtime_should_place_order_example =
    runtime_should_place_order fee_arithmetic constants refl max_block base_fits
      (from_parts 250000000 0) (λ fee. fee) 40 500000000 (omega arith) (omega arith)
