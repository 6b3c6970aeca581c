-- ===== src/Pallet/Dispatch.antt =====
-- pallets/on-demand/src/lib.rs: who may call what, and what a call leaves unchanged.
use on_demand.Prelude.{
  ℕ, ◌+◌, ◌*◌, ◌^◌, ◌<◌, ◌≡◌, inl, inr, Bool, true, false, none, some, err, panicked, arith,
  Option-cases, shr32, shr32-lt, shr32-lt,
}
use on_demand.Primitives.{InherentData}
use on_demand.Pallet.State.{Types, Origin, unsigned, State, Config, Call, DispatchError}
use on_demand.Pallet.Calls.{
  slot_at, reward, reward_order, order_placer_at, dispatch, is_admin, runtime_api,
}

module _ {T : Types} (c : Config T) where
  reward_order_error_unchanged :
      (d : InherentData T.StorageProof) (s : State T) {e : DispatchError}
      → (reward_order c (reward c) d s).1 ≡ err e
      → (reward_order c (reward c) d s).0 ≡ s
  unfolding reward_order order_placer_at
  reward_order_error_unchanged d s h = ground arith

  -- A call that returns an error has changed nothing.
  pub dispatch_error_unchanged :
      (origin : Origin) (call : Call T) (s : State T) {e : DispatchError}
      → (dispatch c origin call s).1 ≡ err e
      → (dispatch c origin call s).0 ≡ s
  unfolding dispatch
  dispatch_error_unchanged origin (Call.create_order inherent_data) s h = ground arith
  dispatch_error_unchanged origin call s h = ground arith

  -- What root and the admin set is what the pallet then tells the node, and each call sets only its
  -- own value.
  pub dispatch_admin :
      (origin : Origin) (width : ℕ) (parameter : T.ThresholdParameter) (bulk_mode : Bool)
      (s : State T)
      → is_admin c origin ≡ true
      → (runtime_api (dispatch c origin (Call.set_slot_width width) s).0
          ≡ record (runtime_api s) { slot_width = width })
        × (runtime_api (dispatch c origin (Call.set_threshold_parameter parameter) s).0
            ≡ record (runtime_api s) { threshold_parameter = parameter })
        × (runtime_api (dispatch c origin (Call.set_bulk_mode bulk_mode) s).0
            ≡ record (runtime_api s) { bulk_mode = bulk_mode })
  unfolding dispatch runtime_api
  dispatch_admin origin width parameter bulk_mode s h = ground arith

  -- No call by anyone else, of any kind, changes what the pallet tells the node.
  pub dispatch_not_admin :
      (origin : Origin) (call : Call T) (s : State T)
      → is_admin c origin ≡ false
      → runtime_api (dispatch c origin call s).0 ≡ runtime_api s
  unfolding dispatch runtime_api reward_order order_placer_at
  dispatch_not_admin origin (Call.create_order inherent_data) s h = ground arith
  dispatch_not_admin origin call s h = ground arith

  -- The pallet panics in one case only: an inherent that passes every early return carries a relay
  -- proof that does not verify.
  pub dispatch_panics :
      (origin : Origin) (call : Call T) (s : State T)
      → (dispatch c origin call s).1 ≡ panicked
      → (d : InherentData T.StorageProof) × (call
          ≡ Call.create_order (record { inherent = some d }))
        × (origin ≡ unsigned)
        × (s.bulk_mode ≡ none)
        × (c.should_place_order s ≡ true)
        × (s.previous_slot < slot_at s d.relay_height)
        × (c.relay_chain_state_proof d.para_id d.relay_state_root d.relay_storage_proof ≡ none)
  unfolding dispatch reward_order order_placer_at
  dispatch_panics origin (Call.create_order inherent_data) s h =
      elim (Option-cases inherent_data.inherent) [
        | inl nothing ↦ absurd (ground arith)
        | inr (d, given) ↦ (
          d,
          λ i. Call.create_order (record { inherent = given i }),
          ground arith,
          ground arith,
          ground arith,
          ground arith,
          ground arith,
        )
      ]
  dispatch_panics origin call s h = absurd (ground arith)

  -- After root or the admin sets the slot width to a `width` below 32, an inherent changes nothing if
  -- its relay height is below the first one whose slot, in the new numbering, passes the previous
  -- slot, which is still one of the old numbering.
  pub widened_stalls :
      (origin origin' : Origin) (width : ℕ) (d : InherentData T.StorageProof) (s : State T)
      → width < 32
      → is_admin c origin ≡ true
      → d.relay_height < (s.previous_slot + 1) * 2 ^ width
      → let s' = (dispatch c origin (Call.set_slot_width width) s).0 in
        (dispatch c origin' (Call.create_order (record { inherent = some d })) s').0 ≡ s'
  unfolding dispatch
  widened_stalls origin origin' width d s w a h =
      let early : shr32 d.relay_height width < s.previous_slot + 1 =
        shr32-lt d.relay_height width (s.previous_slot + 1) w h in
      ground arith
