-- ===== src/Pallet/Failures.antt =====
-- pallets/on-demand/src/lib.rs: which calls fail, and how.
use on_demand.Prelude.{
  ◌≡◌, ◌≢◌, ◌↔◌, ◌⊎◌, inl, inr, false, ok, err, panicked, ap, ◌∙◌, arith, Bool-cases,
}
use on_demand.Primitives.{InherentData}
use on_demand.Pallet.State.{Types, Origin, State, Config, Call, DispatchError, bad_origin}
use on_demand.Pallet.Calls.{create_order, dispatch, is_admin}
use on_demand.Pallet.Stages.{
  may_call, IsPast, IsUnproved, IsUnowned, past-reward_order, create_order-stages, no_owner_error,
  IsUnproved-reward_order, IsUnowned-reward_order, reward_order-cases,
}

module _ {T : Types} (c : Config T) where
  abbrev pub HasBadProof : Origin → Call T → State T → Type 0
  HasBadProof origin call s =
      (d : InherentData T.StorageProof) × IsPast c origin call s d × IsUnproved c d

  abbrev pub HasNoOwner : Origin → Call T → State T → Type 0
  HasNoOwner origin call s =
      (d : InherentData T.StorageProof) × IsPast c origin call s d × IsUnowned c s d

  HasBadProof-dispatch :
      (origin : Origin) (call : Call T) (s : State T)
      → HasBadProof origin call s
      → dispatch c origin call s ≡ (s, panicked)
  HasBadProof-dispatch origin call s (d, past, unproved) =
      past-reward_order c origin call s d past ∙ IsUnproved-reward_order c d s unproved

  HasNoOwner-dispatch :
      (origin : Origin) (call : Call T) (s : State T)
      → HasNoOwner origin call s
      → dispatch c origin call s ≡ (s, err no_owner_error)
  HasNoOwner-dispatch origin call s (d, past, unowned) =
      past-reward_order c origin call s d past
      ∙ IsUnowned-reward_order c d s past.some_authority unowned

  refused :
      (origin : Origin) (call : Call T) (s : State T)
      → may_call c origin call ≡ false
      → dispatch c origin call s ≡ (s, err bad_origin)
  unfolding dispatch create_order
  refused origin (Call.create_order inherent_data) s h = ground arith
  refused origin call s h = ground arith

  dispatch-cases :
      (origin : Origin) (call : Call T) (s : State T)
      → (may_call c origin call ≡ false)
        ⊎ HasBadProof origin call s
        ⊎ HasNoOwner origin call s
        ⊎ ((dispatch c origin call s).1 ≡ ok tt)
  unfolding dispatch
  dispatch-cases origin (Call.create_order inherent_data) s =
      elim (create_order-stages c origin inherent_data s) [
        | inl (barred, _) ↦ inl barred
        | inr (inl stopped) ↦ inr (inr (inr (ap (λ r. r.1) stopped)))
        | inr (inr (d, past)) ↦ elim (reward_order-cases c d s past.some_authority) [
          | inl unproved ↦ inr (inl (d, past, unproved))
          | inr (inl unowned) ↦ inr (inr (inl (d, past, unowned)))
          | inr (inr fine) ↦ inr (
              inr (
                inr (
                  ap (λ r. r.1)
                    (past-reward_order c origin (Call.create_order inherent_data) s d past)
                  ∙ fine)))
        ]
      ]
  dispatch-cases origin call s = elim (Bool-cases (is_admin c origin)) [
    | inl admin ↦ inr (inr (inr (ground arith)))
    | inr other ↦ inl (ground arith)
  ]

  -- A call panics exactly when it is an inherent that passes every early return with a relay proof
  -- that does not verify. It fails in two ways only: with a bad origin, exactly for those who may not
  -- make the call, and for want of the account, exactly when it is an inherent that passes every
  -- early return with a proof that verifies, and the key whose turn the slot is has no owner. A call
  -- that does not succeed changes nothing.
  pub dispatch_failures :
      (origin : Origin) (call : Call T) (s : State T)
      → ((dispatch c origin call s).1 ≡ panicked ↔ HasBadProof origin call s)
        × ((e : DispatchError)
            → (dispatch c origin call s).1 ≡ err e
              ↔ ((e ≡ bad_origin) × (may_call c origin call ≡ false))
                ⊎ ((e ≡ no_owner_error) × HasNoOwner origin call s))
        × ((dispatch c origin call s).1 ≢ ok tt → (dispatch c origin call s).0 ≡ s)
  dispatch_failures origin call s =
      let cases = dispatch-cases origin call s in
      (
        (
          λ h. elim cases [
            | inl barred ↦ absurd (cc (h, refused origin call s barred))
            | inr (inl bad) ↦ bad
            | inr (inr (inl unowned)) ↦ absurd (cc (h, HasNoOwner-dispatch origin call s unowned))
            | inr (inr (inr fine)) ↦ absurd (cc)
          ],
          λ bad. ap (λ r. r.1) (HasBadProof-dispatch origin call s bad),
        ),
        λ e. (
          λ h. elim cases [
            | inl barred ↦ inl (cc (h, refused origin call s barred), barred)
            | inr (inl bad) ↦ absurd (cc (h, HasBadProof-dispatch origin call s bad))
            | inr (inr (inl unowned)) ↦
                inr (cc (h, HasNoOwner-dispatch origin call s unowned), unowned)
            | inr (inr (inr fine)) ↦ absurd (cc)
          ],
          λ h. elim h [
            | inl (named, barred) ↦ cc (named, refused origin call s barred)
            | inr (named, unowned) ↦ cc (named, HasNoOwner-dispatch origin call s unowned)
          ],
        ),
        λ h. elim cases [
          | inl barred ↦ ap (λ r. r.0) (refused origin call s barred)
          | inr (inl bad) ↦ ap (λ r. r.0) (HasBadProof-dispatch origin call s bad)
          | inr (inr (inl unowned)) ↦ ap (λ r. r.0) (HasNoOwner-dispatch origin call s unowned)
          | inr (inr (inr fine)) ↦ absurd (h fine)
        ],
      )
