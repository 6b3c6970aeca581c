-- ===== src/Template/Runtime.antt =====
-- template/runtime/src/configs/mod.rs: what the runtime gives to the on-demand pallet, and its
-- genesis presets (template/runtime/src/genesis_config_presets.rs).
use on_demand.Prelude.{
  ℕ, ◌≡◌, ◌↔◌, Option, none, some, List, [], ◌==◌, if◌then◌else◌, arith, filter_map, mem-filter_map,
  mem_of_mem-filter_map, sym,
}
use mathlib.Core.List.{Memᴰ}
use mathlib.Core.List.Memᴰ
use on_demand.Primitives.{ParaId}
use on_demand.Primitives.Keys.{events}
use on_demand.Pallet.State.{AccountId, Balance}

-- The relay chain's events: those of its on-demand assignment provider that tell of an order, and
-- all others.
pub data RelayRuntimeEvent : Type 0 where
  on_demand_order_placed : ParaId → Balance → AccountId → RelayRuntimeEvent
  other : RelayRuntimeEvent

-- `RelayChainStateProof::read_entry` of the events, decoded; `none` where it fails.
pub record EventReader (StateProof : Type 0) : Type 0 where
  pub read_entry : StateProof → List ℕ → Option (List RelayRuntimeEvent)

abbrev pub unwrap_or_default : Option (List RelayRuntimeEvent) → List RelayRuntimeEvent
unwrap_or_default none = []
unwrap_or_default (some es) = es

-- The closure of `filter_map`.
abbrev pub order_of : ParaId → RelayRuntimeEvent → Option (Balance × AccountId)
order_of expected_para_id (on_demand_order_placed para_id spot_price ordered_by) =
    if para_id == expected_para_id then some (spot_price, ordered_by) else none
order_of expected_para_id other = none

unfoldable pub orders_placed :
    {StateProof : Type 0}
    → EventReader StateProof
    → StateProof
    → ParaId
    → List (Balance × AccountId)
orders_placed reader relay_state_proof expected_para_id =
    filter_map (order_of expected_para_id)
      (unwrap_or_default (reader.read_entry relay_state_proof events))

order_of-some :
    (para_id : ParaId) (event : RelayRuntimeEvent) (price : Balance) (who : AccountId)
    → order_of para_id event ≡ some (price, who)
    → event ≡ on_demand_order_placed para_id price who
order_of-some para_id (on_demand_order_placed p balance account) price who e = ground arith
order_of-some para_id other price who e = absurd (ground arith)

-- An order is counted exactly when the relay chain's events tell of it, for the expected parachain.
pub orders_placed_lem :
    {StateProof : Type 0} (reader : EventReader StateProof) (proof : StateProof) (para_id : ParaId)
    (es : List RelayRuntimeEvent) (price : Balance) (who : AccountId)
    → reader.read_entry proof events ≡ some es
    → Memᴰ (price, who) (orders_placed reader proof para_id)
      ↔ Memᴰ (on_demand_order_placed para_id price who) es
unfolding orders_placed
orders_placed_lem reader proof para_id es price who e = (
  λ m.
      let (event, found, counted) =
        mem_of_mem-filter_map (order_of para_id) es (price, who) (rw e at m) in
      Memᴰ.cast (sym (order_of-some para_id event price who counted)) found,
  λ m. rw e (mem-filter_map (order_of para_id) es _ (price, who) (ground arith) m),
)
