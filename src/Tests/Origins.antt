-- ===== src/Tests/Origins.antt =====
-- A message of the relay chain that asks to dispatch as its sovereign account.
use on_demand.Prelude.{
  ℕ, ◌≡◌, refl, Option, none, some, List, [], ◌∷◌, err, arith, ◌==◌, ◌&&◌, if◌then◌else◌,
}
use on_demand.Primitives.{ParaId}
use on_demand.Pallet.State.{AccountId, Origin, signed, custom, Call, bad_origin}
use on_demand.Pallet.Calls.{dispatch}
use on_demand.Template.Rewarding.{config}
use on_demand.Tests.Presets.{pallets, runtime_state}
use on_demand.Template.Xcm.{Location, Junction, parachain, account_id32, relay_location, is_empty}
use on_demand.Template.Origins.{
  OriginKind, native, sovereign_account, xcm, ConvertLocation, ConvertOrigin, Converters,
  location_to_account_id, convert_origin, IsConverted, transact_refused,
}

-- The parent's account is 1, and a sibling's its id.
abbrev relay_account : Location → Option AccountId
relay_account l = if l.parents == 1 && is_empty l.interior then some 1 else none

abbrev interior_id : List Junction → Option ParaId
interior_id (parachain id ∷ []) = some id
interior_id _ = none

abbrev sibling_id : Location → Option ParaId
sibling_id l = if l.parents == 1 then interior_id l.interior else none

abbrev interior_local : List Junction → Option AccountId
interior_local (account_id32 n account ∷ []) = some account
interior_local _ = none

abbrev local_account : Location → Option AccountId
local_account l = if l.parents == 0 then interior_local l.interior else none

abbrev sovereign_signed : ConvertLocation → ConvertOrigin
sovereign_signed convert l sovereign_account = elim (convert l) [
  | none ↦ none
  | some account ↦ some (signed account)
]
sovereign_signed convert l _ = none

-- An answer for the native kind only.
abbrev natively : {A : Type 0} → (A → Origin) → Option A → OriginKind → Option Origin
natively to (some a) native = some (to a)
natively _ _ _ = none

abbrev passthrough : ConvertOrigin
passthrough l xcm = some (custom l.parents)
passthrough l _ = none

is_empty-relay : (l : Location) (a : AccountId) → relay_account l ≡ some a → l ≡ relay_location
is_empty-relay l a e =
    let at_parent : l.parents ≡ 1 = ground arith in
    let nothing : l.interior ≡ [] = ground arith in
    λ i. record { parents = at_parent i; interior = nothing i }

interior_id-parachain :
    (interior : List Junction) (id : ParaId)
    → interior_id interior ≡ some id
    → interior ≡ parachain id ∷ []
interior_id-parachain interior id e = ground arith

sibling_id-parachain :
    (l : Location) (id : ParaId)
    → sibling_id l ≡ some id
    → l ≡ record { parents = 1; interior = parachain id ∷ [] }
sibling_id-parachain l id e =
    let at_parent : l.parents ≡ 1 = ground arith in
    let there : l.interior ≡ parachain id ∷ [] =
      interior_id-parachain l.interior id (ground arith) in
    λ i. record { parents = at_parent i; interior = there i }

interior_local-account_id32 :
    (interior : List Junction) (a : AccountId)
    → interior_local interior ≡ some a
    → (n : Option ℕ) × (interior ≡ account_id32 n a ∷ [])
interior_local-account_id32 interior a e = ground arith

local_account-account_id32 :
    (l : Location) (a : AccountId)
    → local_account l ≡ some a
    → (n : Option ℕ) × (l ≡ record { parents = 0; interior = account_id32 n a ∷ [] })
local_account-account_id32 l a e =
    let here : l.parents ≡ 0 = ground arith in
    let (n, there) = interior_local-account_id32 l.interior a (ground arith) in
    (n, λ i. record { parents = here i; interior = there i })

natively-native :
    {A : Type 0} (to : A → Origin) (x : Option A) (k : OriginKind) (o : Origin)
    → natively to x k ≡ some o
    → (k ≡ native) × ((a : A) × (x ≡ some a) × (o ≡ to a))
natively-native to x k o e = ground arith

sovereign_signed-sovereign :
    (convert : ConvertLocation) (l : Location) (k : OriginKind) (o : Origin)
    → sovereign_signed convert l k ≡ some o
    → (k ≡ sovereign_account)
      × ((account : AccountId) × (convert l ≡ some account) × (o ≡ signed account))
sovereign_signed-sovereign convert l k o e = ground arith

passthrough-xcm :
    (l : Location) (k : OriginKind) (o : Origin)
    → passthrough l k ≡ some o
    → (k ≡ xcm) × (o ≡ custom l.parents)
passthrough-xcm l k o e = ground arith

abbrev converters : Converters
converters = record {
  relay = 0;
  sibling_para = λ id. id;
  xcm_origin = λ l. l.parents;
  parent_is_preset = relay_account;
  sibling_parachain_converts_via = sibling_id;
  account_id32_aliases = λ network. local_account;
  sovereign_signed_via_location = sovereign_signed;
  relay_chain_as_native = λ r l k. natively (λ a. r) (relay_account l) k;
  sibling_parachain_as_native = λ l k. natively custom (sibling_id l) k;
  signed_account_id32_as_native = λ network l k. natively signed (local_account l) k;
  xcm_passthrough = passthrough;
  sovereign = sovereign_signed-sovereign;
  relayed = λ r l k o e.
      let (kind, (a, found, to)) = natively-native (λ a. r) (relay_account l) k o e in
      (kind, is_empty-relay l a found, to);
  sibling = λ l k o e.
      let (kind, (id, found, to)) = natively-native custom (sibling_id l) k o e in
      (kind, (id, sibling_id-parachain l id found, to));
  local = λ network l k o e.
      let (kind, (a, found, to)) = natively-native signed (local_account l) k o e in
      let (n, there) = local_account-account_id32 l a found in (kind, (n, a, there, to));
  passed = passthrough-xcm;
}

as_parent : convert_origin converters relay_location sovereign_account ≡ some (signed 1)
unfolding convert_origin location_to_account_id
as_parent = refl

transact_refused_example :
    IsConverted converters relay_location sovereign_account (signed 1)
    × (dispatch (config pallets) (signed 1) (Call.set_slot_width 4) runtime_state
        ≡ (runtime_state, err bad_origin))
transact_refused_example =
    transact_refused converters pallets relay_location sovereign_account (signed 1)
      (Call.set_slot_width 4) runtime_state as_parent
