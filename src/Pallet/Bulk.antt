-- ===== src/Pallet/Bulk.antt =====
-- pallets/on-demand/src/lib.rs: what bulk mode holds back.
use on_demand.Prelude.{◌≡◌, refl, ◌∙◌, ap, true, false, some, List, [], ◌∷◌, arith}
use on_demand.Pallet.State.{Types, State, Config, Call, GenesisConfig}
use on_demand.Pallet.Calls.{
  build, on_finalize, create_order, dispatch, set_slot_width, set_threshold_parameter,
  set_bulk_mode, is_admin,
}
use on_demand.Pallet.Rewards.{Change, call, finalize, elsewhere, apply, apply_all, count_rewards}

module _ {T : Types} where
  build-bulk_mode :
      (g : GenesisConfig T) (s : State T) → g.bulk_mode ≡ true → (build g s).bulk_mode ≡ some tt
  unfolding build
  build-bulk_mode g s b = ground arith

  build-events : (g : GenesisConfig T) (s : State T) → (build g s).events ≡ s.events
  unfolding build
  build-events g s = ground arith

  build-previous_slot :
      (g : GenesisConfig T) (s : State T) → (build g s).previous_slot ≡ s.previous_slot
  unfolding build
  build-previous_slot g s = ground arith

module _ {T : Types} (c : Config T) where
  -- Every change but the one that ends bulk mode.
  abbrev pub KeepsBulk : Change T → Type 0
  KeepsBulk (call origin (Call.set_bulk_mode false)) = is_admin c origin ≡ false
  KeepsBulk _ = Unit {0}

  abbrev pub AllKeepBulk : List (Change T) → Type 0
  AllKeepBulk [] = Unit {0}
  AllKeepBulk (x ∷ xs) = KeepsBulk x × AllKeepBulk xs

  -- Bulk mode, and what it leaves alone.
  abbrev pub IsHeld : State T → State T → Type 0
  IsHeld s s' =
      (s'.bulk_mode ≡ some tt)
      × (count_rewards s'.events ≡ count_rewards s.events)
      × (s'.previous_slot ≡ s.previous_slot)

  apply-IsHeld :
      (x : Change T) (s : State T) → s.bulk_mode ≡ some tt → KeepsBulk x → IsHeld s (apply c x s)
  unfolding apply on_finalize dispatch
  apply-IsHeld finalize s b k = ground arith
  apply-IsHeld (elsewhere system) s b k = ground arith
  apply-IsHeld (call origin (Call.create_order d)) s b k = unfold create_order in ground arith
  apply-IsHeld (call origin (Call.set_slot_width width)) s b k =
      unfold set_slot_width in ground arith
  apply-IsHeld (call origin (Call.set_threshold_parameter parameter)) s b k =
      unfold set_threshold_parameter in ground arith
  apply-IsHeld (call origin (Call.set_bulk_mode true)) s b k = unfold set_bulk_mode in ground arith
  apply-IsHeld (call origin (Call.set_bulk_mode false)) s b k = unfold set_bulk_mode in ground arith

  apply_all-IsHeld :
      (xs : List (Change T)) (s : State T)
      → s.bulk_mode ≡ some tt
      → AllKeepBulk xs
      → IsHeld s (apply_all c xs s)
  unfolding apply_all
  apply_all-IsHeld [] s b k = (b, refl, refl)
  apply_all-IsHeld (x ∷ xs) s b (k, ks) =
      let (bulk, count, slot) = apply-IsHeld x s b k in
      let (bulk', count', slot') = apply_all-IsHeld xs (apply c x s) bulk ks in
      (bulk', count' ∙ count, slot' ∙ slot)

  -- A chain whose genesis sets bulk mode stays in bulk mode, rewards nobody and keeps its previous
  -- slot, whatever calls, ends of blocks and writes of other pallets follow, until root or the admin
  -- ends bulk mode.
  pub apply_all-build :
      (g : GenesisConfig T) (xs : List (Change T)) (s : State T)
      → g.bulk_mode ≡ true
      → AllKeepBulk xs
      → IsHeld s (apply_all c xs (build g s))
  apply_all-build g xs s b k =
      let (bulk, count, slot) = apply_all-IsHeld xs (build g s) (build-bulk_mode g s b) k in
      (bulk, count ∙ ap count_rewards (build-events g s), slot ∙ build-previous_slot g s)
