-- ===== src/Pallet/Calls.antt =====
-- pallets/on-demand/src/lib.rs: the hooks, the dispatchables and the helpers of the pallet.
-- A call returns the state that it leaves and its result, so that what was written before an error
-- would show.
use on_demand.Prelude.{
  ℕ, ◌%◌, Bool, true, false, not, ◌||◌, Option, none, some, ◌∷◌, length, get_elem?, any, ◌==◌, leb,
  if◌then◌else◌, test, is_some, Outcome, ok, err, panicked, shr32,
}
use on_demand.Primitives.{InherentData, OrderInherentData, OnDemandRuntimeApi}
use on_demand.Pallet.State.{
  Types, AccountId, Balance, Origin, root, unsigned, Event, slot_width_set, threshold_parameter_set,
  order_placer_rewarded, bulk_mode_set, failed_to_get_order_placer_account, DispatchError,
  bad_origin, pallet_error, Call, GenesisConfig, State, Config,
}

-- `ensure_none` of `frame_system`.
abbrev pub is_unsigned : Origin → Bool
is_unsigned unsigned = true
is_unsigned _ = false

abbrev pub is_root : Origin → Bool
is_root root = true
is_root _ = false

abbrev pub DispatchResult : Type 0
DispatchResult = Outcome DispatchError (Unit {0})

module _ {T : Types} where
  abbrev pub deposit_event : Event T → State T → State T
  deposit_event e s = record s { events = e ∷ s.events }

  -- `BuildGenesisConfig::build`.
  unfoldable pub build : GenesisConfig T → State T → State T
  build g s =
      let s' = record s { threshold_parameter = g.threshold_parameter } in
      if g.bulk_mode then record s' { bulk_mode = some tt } else s'

  -- The slot of a relay chain height. `saturated_into` takes a `u32` into `u128` unchanged.
  unfoldable pub slot_at : State T → ℕ → ℕ
  slot_at s relay_height = shr32 relay_height s.slot_width

  -- The remainder by the number of authorities panics if there are none.
  unfoldable pub order_placer_at : State T → ℕ → Outcome DispatchError (Option T.AuthorityId)
  unfolding slot_at
  order_placer_at s relay_height =
      if length s.authorities == 0
      then panicked
      else ok (get_elem? s.authorities (slot_at s relay_height % length s.authorities))

  module _ (c : Config T) where
    unfoldable pub on_finalize : State T → State T
    on_finalize s = record s { authorities = c.aura_authorities s.system }

    -- `OnReward::reward` of the pallet: a mint that fails is passed over.
    unfoldable pub reward : State T → AccountId → State T
    reward s rewardee = elim (c.mint_into s.system rewardee c.reward_size) [
      | none ↦ s
      | some system ↦
          deposit_event (order_placer_rewarded rewardee c.reward_size)
            (record s { system = system })
    ]

    -- The test of `any` in `create_order`: whether the order's account is the expected validator.
    abbrev pub is_order_of : State T → T.ValidatorId → Balance × AccountId → Bool
    is_order_of s order_placer_acc (_, ordered_by) = elim (c.validator_id_of s.system ordered_by) [
      | none ↦ false
      | some validator ↦ test (c.validator_discrete validator order_placer_acc)
    ]

    -- `create_order` behind the early returns: the relay proof is read, the order's author looked
    -- up, and the reward paid if an order of that author is found.
    unfoldable pub reward_order :
        (State T → AccountId → State T)
        → InherentData T.StorageProof
        → State T
        → State T × DispatchResult
    unfolding slot_at order_placer_at
    reward_order on_reward d s =
        elim (c.relay_chain_state_proof d.para_id d.relay_state_root d.relay_storage_proof) [
          | none ↦ (s, panicked)
          | some proof ↦ elim (order_placer_at s d.relay_height) [
            | ok none ↦ (s, ok tt)
            | ok (some order_placer) ↦ elim (c.key_owner s.system order_placer) [
              | none ↦ (s, err (pallet_error failed_to_get_order_placer_account))
              | some acc ↦
                  if not (any (is_order_of s acc) (c.orders_placed proof d.para_id))
                  then (s, ok tt)
                  else (
                    record (on_reward s (c.to_account_id acc)) {
                      previous_slot = slot_at s d.relay_height;
                    },
                    ok tt,
                  )
            ]
            | err e ↦ (s, err e)
            | panicked ↦ (s, panicked)
          ]
        ]

    unfoldable pub create_order :
        (State T → AccountId → State T)
        → Origin
        → OrderInherentData T.StorageProof
        → State T
        → State T × DispatchResult
    unfolding slot_at reward_order
    create_order on_reward origin inherent_data s =
        if not (is_unsigned origin) then (s, err bad_origin) else elim inherent_data.inherent [
          | none ↦ (s, ok tt)
          | some d ↦
              if is_some s.bulk_mode
              then (s, ok tt)
              else if length s.authorities == 0
              then (s, ok tt)
              else if not (c.should_place_order s)
              then (s, ok tt)
              else if leb (slot_at s d.relay_height) s.previous_slot
              then (s, ok tt)
              else reward_order on_reward d s
        ]

    -- `ensure_origin_or_root` of `EnsureOrigin`.
    abbrev pub is_admin : Origin → Bool
    is_admin origin = is_root origin || c.admin_origin origin

    unfoldable pub set_slot_width : Origin → ℕ → State T → State T × DispatchResult
    set_slot_width origin width s =
        if is_admin origin
        then (deposit_event (slot_width_set width) (record s { slot_width = width }), ok tt)
        else (s, err bad_origin)

    unfoldable pub set_threshold_parameter :
        Origin → T.ThresholdParameter → State T → State T × DispatchResult
    set_threshold_parameter origin parameter s =
        if is_admin origin
        then (
          deposit_event (threshold_parameter_set parameter)
              (record s { threshold_parameter = parameter }),
          ok tt,
        )
        else (s, err bad_origin)

    unfoldable pub set_bulk_mode : Origin → Bool → State T → State T × DispatchResult
    set_bulk_mode origin bulk_mode s =
        if is_admin origin
        then (
          deposit_event (bulk_mode_set bulk_mode)
              (record s { bulk_mode = if bulk_mode then some tt else none }),
          ok tt,
        )
        else (s, err bad_origin)

    -- A call dispatched with the pallet's own `OnReward`, as both runtimes configure it.
    unfoldable pub dispatch : Origin → Call T → State T → State T × DispatchResult
    unfolding create_order reward set_slot_width set_threshold_parameter set_bulk_mode
    dispatch origin (Call.create_order inherent_data) s = create_order reward origin inherent_data s
    dispatch origin (Call.set_slot_width width) s = set_slot_width origin width s
    dispatch origin (Call.set_threshold_parameter parameter) s =
        set_threshold_parameter origin parameter s
    dispatch origin (Call.set_bulk_mode bulk_mode) s = set_bulk_mode origin bulk_mode s

  -- The getters behind the runtime's `OnDemandRuntimeApi`.
  unfoldable pub runtime_api : State T → OnDemandRuntimeApi T.ThresholdParameter
  runtime_api s = record {
    slot_width = s.slot_width;
    threshold_parameter = s.threshold_parameter;
    bulk_mode = is_some s.bulk_mode;
  }
