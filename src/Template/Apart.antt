-- ===== src/Template/Apart.antt =====
-- template/node/src/service.rs and pallets/on-demand/src/lib.rs: the node's criterion counts the fees of
-- its pool, and the runtime's the fees of the block so far.
use on_demand.Prelude.{
  ℕ, min, ◌+◌, ◌*◌, ◌≤◌, ◌<◌, ◌≡◌, ◌≢◌, ap, true, some, List, arith, u32_mod, u128_max,
}
use on_demand.Primitives.{OrderInherentData}
use on_demand.Pallet.State.{State, Call, unsigned}
use on_demand.Pallet.Calls.{dispatch, create_order, runtime_api}
use on_demand.Pallet.Criteria
use on_demand.Pallet.Weights.{Weight}
use on_demand.Template.Constants.{WeightConstants, extrinsic_base_weight}
use on_demand.Template.Fees.{FeeArithmetic, eval_weight, runtime_fees, runtime_should_place_order}
use on_demand.Template.Node.{should_place_order, known_fees}
use on_demand.Template.Pool.{of_list, should_place_order-pool_fees}
use on_demand.Template.Rewarding.{Pallets, types, config}
use on_demand.Template.Api.{ApiTypes, ApiLibraries, on_demand_api}
use mathlib.Core.Option
use on_demand.Template.Placed.{Client, criteria_client}

-- A criterion that is not met leaves the state as it is, whatever the inherent tells of.
unmet_unchanged :
    (p : Pallets) (s : State (types p)) (inherent_data : OrderInherentData p.StorageProof)
    → Criteria.should_place_order (p.fees s.system) s.threshold_parameter ≢ true
    → (dispatch (config p) unsigned (Call.create_order inherent_data) s).0 ≡ s
unfolding dispatch create_order
unmet_unchanged p s inherent_data unmet = ground arith

module _ {p : Pallets} {t : ApiTypes} (l : ApiLibraries p t) (c : Client l) (a : FeeArithmetic)
    (w : WeightConstants) (nanos : w.weight_ref_time_per_nanos ≡ 1000) (max_block : Weight)
    (fits : (extrinsic_base_weight w).ref_time ≤ max_block.ref_time) where
  -- The two criteria are apart. Where the runtime's threshold at the best block fits in `u128`, and
  -- the fees of the pool's ready transactions reach it, the node's criterion is met, in whatever
  -- order the pool hands them out. But if, with that threshold, a thousandth of a milli unit, the
  -- adjusted fee of the weight of the block so far, capped at the largest weight of a block, and
  -- ten micro units for each byte so far, their number in `u32`, stay below it when the inherent is
  -- dispatched, then the inherent changes nothing, whatever order it tells of. A nanosecond is the
  -- library's thousand picoseconds, and the largest weight of a block takes no less time than an
  -- extrinsic at least does.
  pub pool_unpaid :
      (ready handed_out : List t.Extrinsic) (s s' : State (types p)) (block_weight : Weight)
      (mul_int : ℕ → ℕ) (len : ℕ) (inherent_data : OrderInherentData p.StorageProof)
      → c.state_at c.best_hash ≡ some s
      → s.threshold_parameter ≤ u128_max
      → len < u32_mod
      → of_list handed_out ≡ of_list ready
      → s.threshold_parameter ≤ known_fees (criteria_client l c) ready
      → s'.threshold_parameter ≡ s.threshold_parameter
      → p.fees s'.system ≡ runtime_fees a w max_block block_weight mul_int (some len)
      → 1000000
          + mul_int (
              eval_weight a w (record {
                ref_time = min block_weight.ref_time max_block.ref_time;
                proof_size = min block_weight.proof_size max_block.proof_size;
              }))
          + 10000000 * len
        < s.threshold_parameter
      → (should_place_order (criteria_client l c) handed_out ≡ true)
        × ((dispatch (config p) unsigned (Call.create_order inherent_data) s').0 ≡ s')
  unfolding runtime_api
  pool_unpaid ready handed_out s s' block_weight mul_int len inherent_data best small short same
        reached kept fees below =
      let answered : (criteria_client l c).threshold_parameter ≡ some s.threshold_parameter =
        ap (Option.map (λ s. (on_demand_api l s).threshold_parameter)) best in
      let met =
        (should_place_order-pool_fees (criteria_client l c) ready handed_out s.threshold_parameter
            same small answered).1
          reached in
      let runtime =
        (runtime_should_place_order a w nanos max_block fits block_weight mul_int len
          s.threshold_parameter small short).0 in
      let unmet : Criteria.should_place_order (p.fees s'.system) s'.threshold_parameter ≢ true =
        λ h.
          let now : Criteria.should_place_order
                (runtime_fees a w max_block block_weight mul_int (some len)) s.threshold_parameter
              ≡ true =
            rw (fees, kept) at h in
          let paid = runtime now in omega (arith, paid, below) in
      (met, unmet_unchanged p s' inherent_data unmet)
