-- ===== src/Template/Admins.antt =====
-- template/runtime/src/configs/mod.rs: who may change the selection of collators.
use on_demand.Prelude.{
  ℕ, ◌≡◌, ◌≢◌, ◌⊎◌, inl, inr, refl, sym, ap, ◌∙◌, Bool, true, ◌||◌, some, [], ◌∷◌, ◌++◌, arith,
}
use mathlib.Core.Path.{subst}
use on_demand.Primitives.{ParaId}
use on_demand.Pallet.State.{Origin, root, custom}
use on_demand.Pallet.Calls.{is_root}
use on_demand.Template.Xcm.{Location, BodyId, defense, plurality, relay_location}
use on_demand.Template.Origins.{
  Converters, OriginKind, xcm, IsConverted, convert_origin, convert_origin-cases,
  IsConverted-IsForeign,
}

-- `StakingAdminBodyId`.
abbrev pub staking_admin_body_id : BodyId
staking_admin_body_id = defense

-- The filters of the XCM pallet and builder, as documented: an origin of the XCM pallet stands for a
-- location that a filter contains, and the voice of a body is the last junction after a prefix.
-- `voice` is that part of a plurality.
pub record XcmFilters (c : Converters) : Type 0 where
  pub voice : ℕ
  pub ensure_xcm : (Location → Bool) → Origin → Bool
  pub is_voice_of_body : Location → BodyId → Location → Bool
  pub ensured :
      (filter : Location → Bool) (o : Origin)
      → ensure_xcm filter o ≡ true
      → (l : Location) × (filter l ≡ true) × (o ≡ custom (c.xcm_origin l))
  pub body_voice :
      (prefix : Location) (body : BodyId) (l : Location)
      → is_voice_of_body prefix body l ≡ true
      → l ≡ record prefix { interior = prefix.interior ++ (plurality body voice ∷ []) }

-- The origins of the two XCM pallets can be told apart, and so can the locations that one of them
-- stands for.
pub record AreDistinct (c : Converters) : Type 0 where
  pub other_relay : (l : Location) → c.relay ≢ c.xcm_origin l
  pub other_sibling : (id : ParaId) (l : Location) → c.sibling_para id ≢ c.xcm_origin l
  pub same_location : (l l' : Location) → c.xcm_origin l ≡ c.xcm_origin l' → l ≡ l'

module _ {c : Converters} (x : XcmFilters c) where
  abbrev pub is_staking_admin : Location → Bool
  is_staking_admin = x.is_voice_of_body relay_location staking_admin_body_id

  -- `CollatorSelectionUpdateOrigin`.
  unfoldable pub update_origin : Origin → Bool
  update_origin o = is_root o || x.ensure_xcm is_staking_admin o

  -- The voice of the staking admins, a body of the relay chain.
  abbrev pub staking_admin : Location
  staking_admin = record { parents = 1; interior = plurality staking_admin_body_id x.voice ∷ [] }

  update_origin-cases :
      (o : Origin) → update_origin o ≡ true → (o ≡ root) ⊎ (o ≡ custom (c.xcm_origin staking_admin))
  unfolding update_origin
  update_origin-cases root e = inl refl
  update_origin-cases o e =
      let (l, admin, as_xcm) = x.ensured is_staking_admin o (ground arith) in
      inr (
        as_xcm
        ∙ ap (λ l. custom (c.xcm_origin l))
            (x.body_voice relay_location staking_admin_body_id l admin))

  IsConverted-staking_admin :
      (l : Location) (k : OriginKind)
      → AreDistinct c
      → IsConverted c l k (custom (c.xcm_origin staking_admin))
      → (k ≡ xcm) × (l ≡ staking_admin)
  IsConverted-staking_admin l k distinct h = elim h [
    | inl (kind, (account, found, o)) ↦ ground arith
    | inr (inl (kind, there, o)) ↦ let no = distinct.other_relay staking_admin in ground arith
    | inr (inr (inl (kind, (id, there, o)))) ↦
        let no = distinct.other_sibling id staking_admin in ground arith
    | inr (inr (inr (inl (kind, (n, account, there, o))))) ↦ ground arith
    | inr (inr (inr (inr (kind, o)))) ↦
        (kind, sym (distinct.same_location staking_admin l (ground arith)))
  ]

  -- The only message from another chain that may change the selection of collators is one of the
  -- staking admins' voice on the relay chain, sent as such.
  pub convert_origin-update_origin :
      (l : Location) (k : OriginKind) (o : Origin)
      → AreDistinct c
      → convert_origin c l k ≡ some o
      → update_origin o ≡ true
      → (k ≡ xcm) × (l ≡ staking_admin)
  convert_origin-update_origin l k o distinct e allowed =
      let converted = convert_origin-cases c l k o e in
      elim (update_origin-cases o allowed) [
        | inl as_root ↦ absurd ((IsConverted-IsForeign c l k o converted).0 as_root)
        | inr as_admin ↦
            IsConverted-staking_admin l k distinct (subst (IsConverted c l k) as_admin converted)
      ]
