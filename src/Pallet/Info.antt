-- ===== src/Pallet/Info.antt =====
-- pallets/on-demand/src/lib.rs: by what number a call is encoded, and what it is declared to weigh.
use on_demand.Prelude.{ℕ, ◌≡◌, ◌↔◌, arith}
use on_demand.Pallet.State.{
  Types, Call, create_order, set_slot_width, set_threshold_parameter, set_bulk_mode,
}
use on_demand.Pallet.Weights.{
  Weight, from_parts, DispatchClass, normal, mandatory, WeightInfo, RuntimeDbWeight,
  substrate_weight,
}

module _ {T : Types} where
  -- `call_index`.
  unfoldable pub call_index : Call T → ℕ
  call_index (create_order inherent_data) = 0
  call_index (set_slot_width width) = 1
  call_index (set_threshold_parameter parameter) = 2
  call_index (set_bulk_mode bulk_mode) = 3

  -- `weight`, with the class; a call without one is normal.
  unfoldable pub dispatch_info : WeightInfo → Call T → Weight × DispatchClass
  dispatch_info w (create_order inherent_data) = (from_parts 0 0, mandatory)
  dispatch_info w (set_slot_width width) = (w.set_slot_width, normal)
  dispatch_info w (set_threshold_parameter parameter) = (w.set_threshold_parameter, normal)
  dispatch_info w (set_bulk_mode bulk_mode) = (w.set_bulk_mode, normal)

  -- The inherent, whatever it comes to do, is the one call that takes no time, and the one that a
  -- block's limits do not hold back.
  pub dispatch_info_lem :
      (db : RuntimeDbWeight) (call : Call T)
      → let info = dispatch_info (substrate_weight db) call in
        (info.0.ref_time ≡ 0 ↔ call_index call ≡ 0) × (info.1 ≡ mandatory ↔ call_index call ≡ 0)
  unfolding dispatch_info call_index substrate_weight
  dispatch_info_lem db call = ground arith
