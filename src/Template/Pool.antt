-- ===== src/Template/Pool.antt =====
-- template/node/src/service.rs, the node's criterion over a pool of transactions that has no order.
use on_demand.Prelude.{ℕ, ◌≤◌, ◌≡◌, ◌∙◌, ap, refl, ◌↔◌, Bool, true, some, List, arith, u128_max}
use mathlib.Core.List.{Permᴰ}
use mathlib.Core.Quot
use mathlib.Core.Quot.{Quot, Quot-set}
use on_demand.Template.Node.{
  ParachainClient, should_place_order, sum_fees, known_fees, sum_fees-known_fees,
  should_place_order-known_fees,
}

-- Transactions, each as often as the pool holds it.
abbrev pub Pool : Type 0 → Type 0
Pool Transaction = Quot (λ (ready ready' : List Transaction). Permᴰ ready ready')

abbrev pub of_list : {Transaction : Type 0} → List Transaction → Pool Transaction
of_list = Quot.mk

module _ {Transaction : Type 0} (parachain : ParachainClient Transaction) where
  known_fees-perm :
      {ready ready' : List Transaction}
      → Permᴰ ready ready'
      → known_fees parachain ready ≡ known_fees parachain ready'
  known_fees-perm Permᴰ.nil = refl
  known_fees-perm (Permᴰ.cons same rest) = rw same (omega (arith, known_fees-perm rest))
  known_fees-perm (Permᴰ.swap first second) = rw (first, second) (omega arith)
  known_fees-perm (Permᴰ.trans before after) = known_fees-perm before ∙ known_fees-perm after

  should_place_order-perm :
      (ready ready' : List Transaction)
      → Permᴰ ready ready'
      → should_place_order parachain ready ≡ should_place_order parachain ready'
  unfolding should_place_order
  should_place_order-perm ready ready' same =
      let sums : sum_fees parachain ready 0 ≡ sum_fees parachain ready' 0 = omega (
        arith,
        sum_fees-known_fees parachain ready 0,
        sum_fees-known_fees parachain ready' 0,
        known_fees-perm same,
      ) in
      ground (arith, sums)

  -- The criterion is a function of the pool.
  criterion : Pool Transaction → Bool
  criterion = Quot.lift (hlevel) (should_place_order parachain) should_place_order-perm

  -- The node's criterion depends on what the pool holds, and not on the order in which the pool hands
  -- it out: if the runtime answers a threshold that fits in `u128`, the criterion is met exactly when
  -- the exact sum of the fees that it answers for the pool's ready transactions, in any order, reaches
  -- the threshold. The saturation never decides.
  pub should_place_order-pool_fees :
      (ready handed_out : List Transaction) (threshold : ℕ)
      → of_list handed_out ≡ of_list ready
      → threshold ≤ u128_max
      → parachain.threshold_parameter ≡ some threshold
      → (should_place_order parachain handed_out ≡ true) ↔ (threshold ≤ known_fees parachain ready)
  unfolding criterion
  should_place_order-pool_fees ready handed_out threshold same small known =
      let met = should_place_order-known_fees parachain ready threshold small known in
      rw (← ap criterion same) at met
