-- ===== src/Pallet/Criteria.antt =====
-- pallets/on-demand/src/lib.rs: `FixedReward` and the runtime's `FeeBasedCriteria`, over `u128`
-- balances.
use on_demand.Prelude.{
  ℕ, ◌+◌, ◌≤◌, ◌≡◌, ◌↔◌, Bool, true, Option, none, some, arith, leb, saturating_add, u128_max,
  le→leb, tests,
}

-- The other pallets' numbers at the time of the call: `weight_to_fee` and `length_to_fee` of the
-- transaction payment pallet, its multiplier's `saturating_mul_int`, the block's weight and length.
pub record Fees : Type 1 where
  pub Weight : Type 0
  pub block_weight : Weight
  pub base_weight : Weight
  pub weight_to_fee : Weight → ℕ
  pub saturating_mul_int : ℕ → ℕ
  pub all_extrinsics_len : Option ℕ
  pub length_to_fee : ℕ → ℕ

-- `Balance::default()` is 0.
unfoldable pub reward_size : ℕ → ℕ
reward_size amount = saturating_add u128_max 0 amount

pub reward_size_lem : (amount : ℕ) → amount ≤ u128_max → reward_size amount ≡ amount
unfolding reward_size
reward_size_lem amount h = ground arith

module _ (f : Fees) where
  unfoldable pub adjusted_weight_fee : ℕ
  adjusted_weight_fee = f.saturating_mul_int (f.weight_to_fee f.block_weight)

  abbrev or_default : Option ℕ → ℕ
  or_default none = 0
  or_default (some n) = n

  unfoldable pub len_fee : ℕ
  len_fee = f.length_to_fee (or_default f.all_extrinsics_len)

  unfoldable pub should_place_order : ℕ → Bool
  unfolding adjusted_weight_fee len_fee
  should_place_order threshold =
      let base_weight = f.weight_to_fee f.base_weight in
      let total_fees =
        saturating_add u128_max (saturating_add u128_max base_weight adjusted_weight_fee) len_fee in
      leb threshold total_fees

  -- The saturation never decides: for a threshold that fits in `u128`, an order is due exactly when
  -- the exact sum of the three fees reaches the threshold.
  pub should_place_order_iff :
      (threshold : ℕ)
      → threshold ≤ u128_max
      → (should_place_order threshold ≡ true)
        ↔ (threshold ≤ f.weight_to_fee f.base_weight + adjusted_weight_fee + len_fee)
  unfolding should_place_order
  should_place_order_iff threshold h = (λ e. omega (tests, e), λ e. le→leb _ _ (omega arith))
