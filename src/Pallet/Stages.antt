-- ===== src/Pallet/Stages.antt =====
-- pallets/on-demand/src/lib.rs: the ways that an inherent can take through `create_order`.
use on_demand.Prelude.{
  ◌%◌, ◌<◌, ◌≡◌, ◌⊎◌, inl, inr, Bool, true, false, none, some, length, get_elem?, ok, err, panicked,
  arith, Option-cases, Bool-cases,
}
use on_demand.Primitives.{InherentData, OrderInherentData}
use on_demand.Pallet.State.{
  Types, Origin, unsigned, State, Config, Call, DispatchError, bad_origin, pallet_error,
  failed_to_get_order_placer_account,
}
use on_demand.Pallet.Calls.{
  slot_at, reward, reward_order, create_order, order_placer_at, dispatch, is_admin, is_unsigned,
}
use on_demand.Pallet.Orders.{is_open}

abbrev pub no_owner_error : DispatchError
no_owner_error = pallet_error failed_to_get_order_placer_account

module _ {T : Types} (c : Config T) where
  -- The inherent alone is for no account, and all else for root and the admin.
  abbrev pub may_call : Origin → Call T → Bool
  may_call origin (Call.create_order inherent_data) = is_unsigned origin
  may_call origin _ = is_admin c origin

  -- An inherent that none of the early returns of `create_order` stops.
  pub record IsPast (origin : Origin) (call : Call T) (s : State T)
      (d : InherentData T.StorageProof) : Type 0 where
    pub inherent : call ≡ Call.create_order (record { inherent = some d })
    pub by_nobody : origin ≡ unsigned
    pub not_bulk : s.bulk_mode ≡ none
    pub some_authority : 0 < length s.authorities
    pub criteria_met : c.should_place_order s ≡ true
    pub later_slot : s.previous_slot < slot_at s d.relay_height

  -- Its relay proof does not verify.
  abbrev pub IsUnproved : InherentData T.StorageProof → Type 0
  IsUnproved d = c.relay_chain_state_proof d.para_id d.relay_state_root d.relay_storage_proof ≡ none

  -- Its relay proof verifies, and the key whose turn the slot is has no owner.
  pub record IsUnowned (s : State T) (d : InherentData T.StorageProof) : Type 0 where
    pub proof : T.StateProof
    pub proof_valid :
        c.relay_chain_state_proof d.para_id d.relay_state_root d.relay_storage_proof ≡ some proof
    pub placer : T.AuthorityId
    pub placer_turn :
        get_elem? s.authorities (slot_at s d.relay_height % length s.authorities) ≡ some placer
    pub no_owner : c.key_owner s.system placer ≡ none

  -- Without an early return it is the rest of `create_order` that is run.
  pub past-reward_order :
      (origin : Origin) (call : Call T) (s : State T) (d : InherentData T.StorageProof)
      → IsPast origin call s d
      → dispatch c origin call s ≡ reward_order c (reward c) d s
  unfolding dispatch create_order
  past-reward_order origin call s d past =
      let some_authority = past.some_authority in
      let later_slot = past.later_slot in
      let not_bulk = past.not_bulk in
      let criteria_met = past.criteria_met in rw (past.inherent, past.by_nobody) (ground arith)

  -- An inherent is refused, stopped by an early return, or not.
  pub create_order-stages :
      (origin : Origin) (inherent_data : OrderInherentData T.StorageProof) (s : State T)
      → let call = Call.create_order inherent_data in
        ((may_call origin call ≡ false) × (dispatch c origin call s ≡ (s, err bad_origin)))
        ⊎ (dispatch c origin call s ≡ (s, ok tt))
        ⊎ ((d : InherentData T.StorageProof) × IsPast origin call s d)
  unfolding dispatch create_order
  create_order-stages origin inherent_data s = elim (Option-cases inherent_data.inherent) [
    | inl nothing ↦ elim (Bool-cases (is_unsigned origin)) [
      | inl by_nobody ↦ inr (inl (ground arith))
      | inr by_some ↦ inl (by_some, ground arith)
    ]
    | inr (d, given) ↦ elim (Bool-cases (is_open c s origin d)) [
      | inl opened ↦ inr (
          inr (
            d,
            record {
              inherent = λ i. Call.create_order (record { inherent = given i });
              by_nobody = ground arith;
              not_bulk = ground arith;
              some_authority = ground arith;
              criteria_met = ground arith;
              later_slot = ground arith;
            },
          ))
      | inr shut ↦ elim (Bool-cases (is_unsigned origin)) [
        | inl by_nobody ↦ inr (inl (ground arith))
        | inr by_some ↦ inl (by_some, ground arith)
      ]
    ]
  ]

  pub IsUnproved-reward_order :
      (d : InherentData T.StorageProof) (s : State T)
      → IsUnproved d
      → reward_order c (reward c) d s ≡ (s, panicked)
  unfolding reward_order
  IsUnproved-reward_order d s h = ground (arith, h)

  pub IsUnowned-reward_order :
      (d : InherentData T.StorageProof) (s : State T)
      → 0 < length s.authorities
      → IsUnowned s d
      → reward_order c (reward c) d s ≡ (s, err no_owner_error)
  unfolding reward_order order_placer_at
  IsUnowned-reward_order d s some_authority h =
      ground (arith, h.proof_valid, h.placer_turn, h.no_owner)

  -- The rest panics, fails or succeeds.
  pub reward_order-cases :
      (d : InherentData T.StorageProof) (s : State T)
      → 0 < length s.authorities
      → IsUnproved d ⊎ IsUnowned s d ⊎ ((reward_order c (reward c) d s).1 ≡ ok tt)
  unfolding reward_order order_placer_at
  reward_order-cases d s some_authority =
      elim (Option-cases
        (c.relay_chain_state_proof d.para_id d.relay_state_root d.relay_storage_proof)) [
          | inl p ↦ inl p
          | inr (proof, p) ↦
              elim (Option-cases
                (get_elem? s.authorities (slot_at s d.relay_height % length s.authorities))) [
                  | inl a ↦ inr (inr (ground arith))
                  | inr (placer, a) ↦ elim (Option-cases (c.key_owner s.system placer)) [
                    | inl k ↦ inr (
                        inl (record {
                          proof = proof;
                          proof_valid = p;
                          placer = placer;
                          placer_turn = a;
                          no_owner = k;
                        }))
                    | inr (owner, k) ↦ inr (inr (ground arith))
                  ]
                ]
        ]
