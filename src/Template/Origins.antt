-- ===== src/Template/Origins.antt =====
-- template/runtime/src/configs/xcm_config.rs: as whom a message from another chain dispatches a call.
use on_demand.Prelude.{ℕ, ◌≡◌, ◌≢◌, ◌⊎◌, inl, inr, Option, none, some, [], ◌∷◌, err, arith}
use on_demand.Primitives.{ParaId}
use on_demand.Pallet.State.{
  AccountId, Origin, signed, custom, root, unsigned, State, Call, bad_origin,
}
use on_demand.Pallet.Calls.{
  dispatch, create_order, set_slot_width, set_threshold_parameter, set_bulk_mode,
}
use on_demand.Template.Rewarding.{Pallets, types, config}
use on_demand.Template.Xcm.{Location, parachain, account_id32, relay_location}

pub data OriginKind : Type 0 where
  native : OriginKind
  sovereign_account : OriginKind
  superuser : OriginKind
  xcm : OriginKind

-- `ConvertLocation` to an account, and `ConvertOrigin` to an origin of the runtime.
abbrev pub ConvertLocation : Type 0
ConvertLocation = Location → Option AccountId

abbrev pub ConvertOrigin : Type 0
ConvertOrigin = Location → OriginKind → Option Origin

-- A tuple of converters takes the answer of the first that has one.
abbrev pub or_else {ℓ} : {A : Type ℓ} → Option A → Option A → Option A
or_else (some a) _ = some a
or_else none other = other

pub or_else-cases {ℓ} :
    {A : Type ℓ} (x y : Option A) (a : A) → or_else x y ≡ some a → (x ≡ some a) ⊎ (y ≡ some a)
or_else-cases x y a e = ground arith

-- `RelayNetwork`.
abbrev pub relay_network : Option ℕ
relay_network = none

-- The converters of the XCM builder, with what an answer of each means as documented. `relay`,
-- `sibling_para` and `xcm_origin` number the origins of the two XCM pallets.
pub record Converters : Type 0 where
  pub relay : ℕ
  pub sibling_para : ParaId → ℕ
  pub xcm_origin : Location → ℕ
  pub parent_is_preset : ConvertLocation
  pub sibling_parachain_converts_via : ConvertLocation
  pub account_id32_aliases : Option ℕ → ConvertLocation
  pub sovereign_signed_via_location : ConvertLocation → ConvertOrigin
  pub relay_chain_as_native : Origin → ConvertOrigin
  pub sibling_parachain_as_native : ConvertOrigin
  pub signed_account_id32_as_native : Option ℕ → ConvertOrigin
  pub xcm_passthrough : ConvertOrigin
  pub sovereign :
      (convert : ConvertLocation) (l : Location) (k : OriginKind) (o : Origin)
      → sovereign_signed_via_location convert l k ≡ some o
      → (k ≡ sovereign_account)
        × ((account : AccountId) × (convert l ≡ some account) × (o ≡ signed account))
  pub relayed :
      (r : Origin) (l : Location) (k : OriginKind) (o : Origin)
      → relay_chain_as_native r l k ≡ some o
      → (k ≡ native) × (l ≡ relay_location) × (o ≡ r)
  pub sibling :
      (l : Location) (k : OriginKind) (o : Origin)
      → sibling_parachain_as_native l k ≡ some o
      → (k ≡ native)
        × ((id : ParaId) × (l ≡ record { parents = 1; interior = parachain id ∷ [] })
            × (o ≡ custom (sibling_para id)))
  pub local :
      (network : Option ℕ) (l : Location) (k : OriginKind) (o : Origin)
      → signed_account_id32_as_native network l k ≡ some o
      → (k ≡ native)
        × ((n : Option ℕ) × (account : AccountId) × (l
              ≡ record { parents = 0; interior = account_id32 n account ∷ [] })
            × (o ≡ signed account))
  pub passed :
      (l : Location) (k : OriginKind) (o : Origin)
      → xcm_passthrough l k ≡ some o
      → (k ≡ xcm) × (o ≡ custom (xcm_origin l))

module _ (c : Converters) where
  -- `LocationToAccountId`.
  unfoldable pub location_to_account_id : ConvertLocation
  location_to_account_id l =
      or_else (c.parent_is_preset l)
        (or_else (c.sibling_parachain_converts_via l) (c.account_id32_aliases relay_network l))

  -- `RelayChainOrigin`.
  abbrev pub relay_chain_origin : Origin
  relay_chain_origin = custom c.relay

  -- `XcmOriginToTransactDispatchOrigin`.
  unfoldable pub convert_origin : ConvertOrigin
  convert_origin l k = or_else (c.sovereign_signed_via_location location_to_account_id l k) (
      or_else (c.relay_chain_as_native relay_chain_origin l k) (
        or_else (c.sibling_parachain_as_native l k)
          (or_else (c.signed_account_id32_as_native relay_network l k) (c.xcm_passthrough l k))))

  -- As whom a message dispatches, by the kind that it asks for.
  abbrev pub IsConverted : Location → OriginKind → Origin → Type 0
  IsConverted l k o =
      ((k ≡ sovereign_account)
        × ((account : AccountId) × (location_to_account_id l ≡ some account)
            × (o ≡ signed account)))
      ⊎ ((k ≡ native) × (l ≡ relay_location) × (o ≡ custom c.relay))
      ⊎ ((k ≡ native)
          × ((id : ParaId) × (l ≡ record { parents = 1; interior = parachain id ∷ [] })
              × (o ≡ custom (c.sibling_para id))))
      ⊎ ((k ≡ native)
          × ((n : Option ℕ) × (account : AccountId) × (l
                ≡ record { parents = 0; interior = account_id32 n account ∷ [] })
              × (o ≡ signed account)))
      ⊎ ((k ≡ xcm) × (o ≡ custom (c.xcm_origin l)))

  pub convert_origin-cases :
      (l : Location) (k : OriginKind) (o : Origin) → convert_origin l k ≡ some o → IsConverted l k o
  unfolding convert_origin
  convert_origin-cases l k o e =
      let as_sovereign = c.sovereign_signed_via_location location_to_account_id l k in
      let as_relay = c.relay_chain_as_native relay_chain_origin l k in
      let as_sibling = c.sibling_parachain_as_native l k in
      let as_local = c.signed_account_id32_as_native relay_network l k in
      let as_xcm = c.xcm_passthrough l k in
      elim (or_else-cases as_sovereign
        (or_else as_relay (or_else as_sibling (or_else as_local as_xcm))) o e) [
          | inl a ↦ inl (c.sovereign location_to_account_id l k o a)
          | inr first ↦
              inr
                (elim (or_else-cases as_relay (or_else as_sibling (or_else as_local as_xcm)) o
                  first) [
                    | inl a ↦ inl (c.relayed relay_chain_origin l k o a)
                    | inr second ↦
                        inr (elim (or_else-cases as_sibling (or_else as_local as_xcm) o second) [
                          | inl a ↦ inl (c.sibling l k o a)
                          | inr third ↦ inr (elim (or_else-cases as_local as_xcm o third) [
                            | inl a ↦ inl (c.local relay_network l k o a)
                            | inr a ↦ inr (c.passed l k o a)
                          ])
                        ])
                  ])
        ]

  -- Neither root nor an inherent.
  abbrev IsForeign : Origin → Type 0
  IsForeign o = (o ≢ root) × (o ≢ unsigned)

  pub IsConverted-IsForeign :
      (l : Location) (k : OriginKind) (o : Origin) → IsConverted l k o → IsForeign o
  IsConverted-IsForeign l k o h = ground arith

  module _ (p : Pallets) where
    foreign_refused :
        (o : Origin) (call : Call (types p)) (s : State (types p))
        → IsForeign o
        → dispatch (config p) o call s ≡ (s, err bad_origin)
    unfolding dispatch create_order set_slot_width set_threshold_parameter set_bulk_mode
    foreign_refused o call s h = ground arith

    -- Whatever a message from another chain asks for, it dispatches with an account's signature or
    -- as an origin of the XCM pallets, by its kind and location; and no call of the on-demand pallet
    -- that it dispatches does anything but return bad_origin.
    pub transact_refused :
        (l : Location) (k : OriginKind) (o : Origin) (call : Call (types p)) (s : State (types p))
        → convert_origin l k ≡ some o
        → IsConverted l k o × (dispatch (config p) o call s ≡ (s, err bad_origin))
    transact_refused l k o call s e =
        let converted = convert_origin-cases l k o e in
        (converted, foreign_refused o call s (IsConverted-IsForeign l k o converted))
