-- ===== src/Pallet/Stalls.antt =====
-- pallets/on-demand/src/lib.rs, `set_slot_width`: what a new width does to the slots that are settled.
use on_demand.Prelude.{
  ℕ, ◌+◌, ◌*◌, ◌^◌, ◌<◌, ◌≡◌, ◌∙◌, refl, true, false, none, some, List, [], ◌∷◌, arith,
  Option-cases, inl, inr, shr32, shr32-lt, sym,
}
use mathlib.Core.Path.{subst}
use on_demand.Pallet.State.{Types, Origin, State, Config, Call, slot_width_set}
use on_demand.Pallet.Calls.{
  create_order, dispatch, slot_at, on_finalize, is_admin, set_slot_width, set_threshold_parameter,
  set_bulk_mode,
}
use on_demand.Pallet.Rewards.{Change, call, apply, apply_all}
use on_demand.Pallet.Payments.{IsQuiet, recipients}

module _ {T : Types} (c : Config T) (height : ℕ) where
  -- An inherent of a relay block below the height, or any other change that keeps the slot width.
  abbrev pub IsEarly : Change T → Type 0
  IsEarly (call origin (Call.create_order inherent_data)) = elim inherent_data.inherent [
    | none ↦ Unit {0}
    | some d ↦ d.relay_height < height
  ]
  IsEarly (call origin (Call.set_slot_width width)) = is_admin c origin ≡ false
  IsEarly _ = Unit {0}

  abbrev pub AreEarly : List (Change T) → Type 0
  AreEarly [] = Unit {0}
  AreEarly (x ∷ xs) = IsEarly x × AreEarly xs

  -- A change keeps the width, settles nothing and pays nobody.
  abbrev IsStalled : State T → State T → Type 0
  IsStalled s s' = (s'.slot_width ≡ s.slot_width) × IsQuiet s s'

  module _ (width : ℕ) (small : width < 32) where
    apply-IsStalled :
        (x : Change T) (s : State T)
        → s.slot_width ≡ width
        → height ≡ (s.previous_slot + 1) * 2 ^ width
        → IsEarly x
        → IsStalled s (apply c x s)
    unfolding apply dispatch on_finalize
    apply-IsStalled (call origin (Call.create_order inherent_data)) s w h early =
        elim (Option-cases inherent_data.inherent) [
          | inl nothing ↦ unfold create_order in ground arith
          | inr (d, given) ↦
              let before : d.relay_height < (s.previous_slot + 1) * 2 ^ width =
                rw h at (rw given at early) in
              let old : shr32 d.relay_height width < s.previous_slot + 1 =
                shr32-lt d.relay_height width (s.previous_slot + 1) small before in
              unfold create_order slot_at in ground arith
        ]
    apply-IsStalled (call origin (Call.set_slot_width w')) s w h early =
        unfold set_slot_width in ground arith
    apply-IsStalled (call origin (Call.set_threshold_parameter parameter)) s w h early =
        unfold set_threshold_parameter in ground arith
    apply-IsStalled (call origin (Call.set_bulk_mode bulk_mode)) s w h early =
        unfold set_bulk_mode in ground arith
    apply-IsStalled _ s w h early = (refl, (refl, refl))

    apply_all-IsStalled :
        (xs : List (Change T)) (s : State T)
        → s.slot_width ≡ width
        → height ≡ (s.previous_slot + 1) * 2 ^ width
        → AreEarly xs
        → IsStalled s (apply_all c xs s)
    unfolding apply_all
    apply_all-IsStalled [] s w h early = (refl, (refl, refl))
    apply_all-IsStalled (x ∷ xs) s w h (early, rest) =
        let (same, (slot, paid)) = apply-IsStalled x s w h early in
        let (same', (slot', paid')) =
          apply_all-IsStalled xs (apply c x s) (same ∙ w) (rw slot h) rest in
        (same' ∙ same, (slot' ∙ slot, paid' ∙ paid))

module _ {T : Types} (c : Config T) where
  -- The state after a new width is set.
  abbrev widened : ℕ → State T → State T
  widened width s = record s { slot_width = width; events = slot_width_set width ∷ s.events }

  dispatch-widened :
      (origin : Origin) (width : ℕ) (s : State T)
      → is_admin c origin ≡ true
      → (dispatch c origin (Call.set_slot_width width) s).0 ≡ widened width s
  unfolding dispatch set_slot_width
  dispatch-widened origin width s admin = ground arith

  -- After root or the admin sets the slot width to a `width` below 32, and however calls, ends of
  -- blocks and other pallets' writes follow, nobody is paid and the previous slot stays one of the old
  -- numbering, until a relay block whose slot in the new numbering, of `2 ^ width` heights each, passes
  -- the previous slot, or until root or the admin sets the width again.
  pub widened_run :
      (origin : Origin) (width : ℕ) (xs : List (Change T)) (s : State T)
      → width < 32
      → is_admin c origin ≡ true
      → AreEarly c ((s.previous_slot + 1) * 2 ^ width) xs
      → let s' = apply_all c (call origin (Call.set_slot_width width) ∷ xs) s in
        (s'.previous_slot ≡ s.previous_slot) × (recipients s'.events ≡ recipients s.events)
  unfolding apply_all apply
  widened_run origin width xs s small admin early =
      subst (λ m. IsQuiet s (apply_all c xs m)) (sym (dispatch-widened origin width s admin))
        (apply_all-IsStalled c _ width small xs (widened width s) refl refl early).1
