-- ===== src/Template/Routes.antt =====
-- template/runtime/src/configs/xcm_config.rs: the XCM executor's configuration, where messages are
-- sent, and what the XCM pallet lets accounts do.
use on_demand.Prelude.{ℕ, ◌*◌, ◌≡◌, ◌⊎◌, inl, inr, Bool, true, false, Option, some, List, [], ◌∷◌}
use on_demand.Primitives.{ParaId}
use on_demand.Pallet.State.{Origin, Balance}
use on_demand.Pallet.Weights.{Weight, from_parts}
use on_demand.Template.Constants.{WeightConstants}
use on_demand.Template.Fees.{FeeArithmetic, eval_weight}
use on_demand.Template.Xcm.{
  Location, Junction, parachain, relay_location, universal_location, Barriers, ShouldExecute,
  barrier,
}
use on_demand.Template.Origins.{
  Converters, ConvertLocation, ConvertOrigin, location_to_account_id, convert_origin, relay_network,
  or_else, or_else-cases,
}

-- `UnitWeightCost`, `MaxInstructions` and `MaxAssetsIntoHolding`.
abbrev pub unit_weight_cost : Weight
unit_weight_cost = from_parts 1000000000 (64 * 1024)

abbrev pub max_instructions : ℕ
max_instructions = 100

abbrev pub max_assets_into_holding : ℕ
max_assets_into_holding = 64

-- What a delivery came to: `none` where the router does not know the destination, and no ticket where
-- it fails.
abbrev pub Delivery : Type 0 → Type 0
Delivery Ticket = Option (Option Ticket)

abbrev pub SendXcm : Type 0 → Type 0 → Type 0
SendXcm Instruction Ticket = Location → List Instruction → Delivery Ticket

-- The parts of the XCM builder and of the queues. The first router knows the parent only, and the
-- second only siblings, as documented; `with_topic` gives a message its unique topic.
pub record XcmParts (Instruction : Type 0) : Type 1 where
  pub Ticket : Type 0
  pub AssetTransactor : Type 0
  pub Weigher : Type 0
  pub Trader : Type 0
  pub with_topic : List Instruction → List Instruction
  pub parent_as_ump : SendXcm Instruction Ticket
  pub xcmp_queue : SendXcm Instruction Ticket
  pub ump_parent :
      (dest : Location) (m : List Instruction) (r : Option Ticket)
      → parent_as_ump dest m ≡ some r
      → dest ≡ relay_location
  pub xcmp_sibling :
      (dest : Location) (m : List Instruction) (r : Option Ticket)
      → xcmp_queue dest m ≡ some r
      → (id : ParaId) × (dest ≡ record { parents = 1; interior = parachain id ∷ [] })
  pub fungible_adapter : Location → ConvertLocation → AssetTransactor
  pub fixed_weight_bounds : Weight → ℕ → Weigher
  pub using_components : (Weight → Balance) → Location → Trader
  pub native_asset : Location → Location → Bool
  pub signed_to_account_id32 : Option ℕ → Origin → Option Location

-- `xcm_executor::Config`: what decides over a message. A filter of pairs looks at an asset's location
-- and an origin.
pub record ExecutorConfig {Instruction : Type 0} (x : XcmParts Instruction) : Type 0 where
  pub xcm_sender : SendXcm Instruction x.Ticket
  pub asset_transactor : x.AssetTransactor
  pub origin_converter : ConvertOrigin
  pub is_reserve : Location → Location → Bool
  pub is_teleporter : Location → Location → Bool
  pub universal_location : List Junction
  pub barrier : ShouldExecute Instruction
  pub weigher : x.Weigher
  pub trader : x.Trader
  pub max_assets_into_holding : ℕ
  pub safe_call_filter : Bool
  pub aliasers : Location → Location → Bool

-- `pallet_xcm::Config`: as which location an account sends, and whether its messages, teleports and
-- reserve transfers are let through.
pub record PalletXcmConfig {Instruction : Type 0} (x : XcmParts Instruction) : Type 0 where
  pub send_xcm_origin : Origin → Option Location
  pub execute_xcm_origin : Origin → Option Location
  pub xcm_router : SendXcm Instruction x.Ticket
  pub xcm_execute_filter : Location → List Instruction → Bool
  pub xcm_teleport_filter : Location → List Location → Bool
  pub xcm_reserve_transfer_filter : Location → List Location → Bool
  pub weigher : x.Weigher
  pub max_lockers : ℕ
  pub max_remote_lock_consumers : ℕ

module _ {Instruction : Type 0} (x : XcmParts Instruction) where
  open x use {Ticket}

  -- `XcmRouter`: the first that knows the destination.
  unfoldable pub xcm_router : SendXcm Instruction Ticket
  xcm_router dest m =
      or_else (x.parent_as_ump dest (x.with_topic m)) (x.xcmp_queue dest (x.with_topic m))

  -- `LocalOriginToLocation`.
  abbrev pub local_origin_to_location : Origin → Option Location
  local_origin_to_location = x.signed_to_account_id32 relay_network

  abbrev pub weigher : x.Weigher
  weigher = x.fixed_weight_bounds unit_weight_cost max_instructions

  -- A message that goes anywhere goes up to the relay chain, or across to a sibling, with its topic.
  pub xcm_router-cases :
      (dest : Location) (m : List Instruction) (r : Option Ticket)
      → xcm_router dest m ≡ some r
      → ((dest ≡ relay_location) × (x.parent_as_ump dest (x.with_topic m) ≡ some r))
        ⊎ ((id : ParaId) × (dest ≡ record { parents = 1; interior = parachain id ∷ [] })
            × (x.xcmp_queue dest (x.with_topic m) ≡ some r))
  unfolding xcm_router
  xcm_router-cases dest m r e = elim (or_else-cases (x.parent_as_ump dest (x.with_topic m)) _ r e) [
    | inl up ↦ inl (x.ump_parent dest (x.with_topic m) r up, up)
    | inr across ↦
        let (id, there) = x.xcmp_sibling dest (x.with_topic m) r across in inr (id, there, across)
  ]

  module _ (b : Barriers Instruction) (c : Converters) (para_id : ParaId) where
    -- `LocalAssetTransactor`: the relay chain's asset is the chain's own balance.
    abbrev pub local_asset_transactor : x.AssetTransactor
    local_asset_transactor = x.fungible_adapter relay_location (location_to_account_id c)

    abbrev pub xcm_config : FeeArithmetic → WeightConstants → ExecutorConfig x
    xcm_config a w = record {
      xcm_sender = xcm_router;
      asset_transactor = local_asset_transactor;
      origin_converter = convert_origin c;
      is_reserve = x.native_asset;
      is_teleporter = λ asset origin. false;
      universal_location = universal_location para_id;
      barrier = barrier b para_id;
      weigher = weigher;
      trader = x.using_components (eval_weight a w) relay_location;
      max_assets_into_holding = max_assets_into_holding;
      safe_call_filter = true;
      aliasers = λ origin target. false;
    }

  -- `impl pallet_xcm::Config for Runtime`.
  abbrev pub pallet_xcm : PalletXcmConfig x
  pallet_xcm = record {
    send_xcm_origin = local_origin_to_location;
    execute_xcm_origin = local_origin_to_location;
    xcm_router = xcm_router;
    xcm_execute_filter = λ origin m. false;
    xcm_teleport_filter = λ origin assets. true;
    xcm_reserve_transfer_filter = λ origin assets. false;
    weigher = weigher;
    max_lockers = 8;
    max_remote_lock_consumers = 0;
  }
