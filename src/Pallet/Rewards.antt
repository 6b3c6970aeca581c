-- ===== src/Pallet/Rewards.antt =====
-- pallets/on-demand/src/lib.rs over many blocks: what is paid in any sequence of calls, of ends of
-- blocks, and of writes by the other pallets.
use on_demand.Prelude.{ℕ, suc, ◌+◌, ◌≤◌, ◌≡◌, some, List, [], ◌∷◌, arith, inl, inr, Option-cases}
use on_demand.Primitives.{InherentData}
use on_demand.Pallet.State.{
  Types, AccountId, Origin, State, Config, Call, Event, order_placer_rewarded,
}
use on_demand.Pallet.Orders.{create_order-cases, create_order_rewards}
use on_demand.Pallet.Calls.{
  reward, create_order, dispatch, on_finalize, set_slot_width, set_threshold_parameter,
  set_bulk_mode,
}

-- One change of the chain's state. `elsewhere` stands for any write of another pallet.
pub data Change (T : Types) : Type 0 where
  call : Origin → Call T → Change T
  finalize : Change T
  elsewhere : T.System → Change T

module _ {T : Types} where
  -- The number of `OrderPlacerRewarded` events.
  abbrev pub count_rewards : List (Event T) → ℕ
  count_rewards [] = 0
  count_rewards (order_placer_rewarded _ _ ∷ es) = suc (count_rewards es)
  count_rewards (_ ∷ es) = count_rewards es

  module _ (c : Config T) where
    unfoldable pub apply : Change T → State T → State T
    apply (call origin k) s = (dispatch c origin k s).0
    apply finalize s = on_finalize c s
    apply (elsewhere system) s = record s { system = system }

    unfoldable pub apply_all : List (Change T) → State T → State T
    apply_all [] s = s
    apply_all (x ∷ xs) s = apply_all xs (apply x s)

    reward-count :
        (s : State T) (a : AccountId)
        → (count_rewards (reward c s a).events ≤ suc (count_rewards s.events))
    unfolding reward
    reward-count s a = ground arith

    create_order-count :
        (origin : Origin) (d : InherentData T.StorageProof) (s : State T)
        → let s' = (create_order c (reward c) origin (record { inherent = some d }) s).0 in
          count_rewards s'.events + s.previous_slot ≤ count_rewards s.events + s'.previous_slot
    create_order-count origin d s = elim (create_order-cases c s origin d) [
      | inl same ↦ rw same (omega arith)
      | inr r ↦
          rw (create_order_rewards c s origin d r)
            (omega (arith, reward-count s (c.to_account_id r.owner), r.later_slot))
    ]

    dispatch-count :
        (origin : Origin) (k : Call T) (s : State T)
        → count_rewards (dispatch c origin k s).0.events + s.previous_slot
          ≤ count_rewards s.events + (dispatch c origin k s).0.previous_slot
    unfolding dispatch
    dispatch-count origin (Call.create_order inherent_data) s =
        elim (Option-cases inherent_data.inherent) [
          | inl nothing ↦ unfold create_order in ground arith
          | inr (d, given) ↦
              let e : inherent_data ≡ record { inherent = some d } =
                λ i. record { inherent = given i } in
              rw e (create_order-count origin d s)
        ]
    dispatch-count origin k s =
        unfold set_slot_width set_threshold_parameter set_bulk_mode in ground arith

    apply-count :
        (x : Change T) (s : State T)
        → count_rewards (apply x s).events + s.previous_slot
          ≤ count_rewards s.events + (apply x s).previous_slot
    unfolding apply on_finalize
    apply-count (call origin k) s = dispatch-count origin k s
    apply-count _ s = omega arith

    -- However calls, ends of blocks and other pallets' writes follow one another, the number of
    -- rewards that they add is at most the distance by which the previous slot has advanced.
    pub apply_all-count :
        (xs : List (Change T)) (s : State T)
        → count_rewards (apply_all xs s).events + s.previous_slot
          ≤ count_rewards s.events + (apply_all xs s).previous_slot
    unfolding apply_all
    apply_all-count [] s = omega arith
    apply_all-count (x ∷ xs) s = omega (arith, apply-count x s, apply_all-count xs (apply x s))
