-- ===== src/Template/Rewarding.antt =====
-- template/runtime/src/configs/mod.rs: the runtime as an instance of the on-demand pallet's `Config`.
use on_demand.Prelude.{
  ◌%◌, ◌<◌, ◌≡◌, ◌⊎◌, inl, inr, Option, some, List, length, get_elem?, arith, ok, ℕ_discrete,
  Option-cases, ap,
}
use mathlib.Core.List.{Memᴰ}
use mathlib.Core.List.Memᴰ
use on_demand.Primitives.{H256, ParaId, InherentData}
use on_demand.Primitives.Keys.{events}
use on_demand.Pallet.State.{Types, AccountId, Balance, Origin, State, Config}
use on_demand.Pallet.Calls.{is_root, create_order, reward, slot_at}
use on_demand.Pallet.Criteria.{Fees, reward_size, should_place_order}
use on_demand.Pallet.Orders.{create_order-cases, create_order_rewards, rewarded}
use on_demand.Template.Runtime.{
  RelayRuntimeEvent, on_demand_order_placed, EventReader, orders_placed, orders_placed_lem,
}

abbrev pub milli_unit : Balance
milli_unit = 1000000000

-- `Reward`.
abbrev pub reward_amount : Balance
reward_amount = milli_unit

-- `ToAccountIdImpl`.
abbrev pub to_account_id : AccountId → AccountId
to_account_id v = v

-- The other pallets of the runtime, and the relay proof. `validator_id_of` is `IdentityCollator` of
-- the collator selection pallet, which gives every account as its own validator.
pub record Pallets : Type 1 where
  pub AuthorityId : Type 0
  pub StorageProof : Type 0
  pub StateProof : Type 0
  pub System : Type 0
  pub fees : System → Fees
  pub relay_chain_state_proof : ParaId → H256 → StorageProof → Option StateProof
  pub reader : EventReader StateProof
  pub key_owner : System → AuthorityId → Option AccountId
  pub validator_id_of : System → AccountId → Option AccountId
  pub identity :
      (system : System) (account : AccountId) → validator_id_of system account ≡ some account
  pub mint_into : System → AccountId → Balance → Option System
  pub aura_authorities : System → List AuthorityId

module _ (p : Pallets) where
  abbrev pub types : Types
  types = record {
    AuthorityId = p.AuthorityId;
    ValidatorId = AccountId;
    ThresholdParameter = Balance;
    StorageProof = p.StorageProof;
    StateProof = p.StateProof;
    System = p.System;
  }

  -- `impl pallet_on_demand::Config for Runtime`.
  abbrev pub config : Config types
  config = record {
    admin_origin = is_root;
    should_place_order = λ s. should_place_order (p.fees s.system) s.threshold_parameter;
    orders_placed = orders_placed p.reader;
    relay_chain_state_proof = p.relay_chain_state_proof;
    key_owner = p.key_owner;
    validator_id_of = p.validator_id_of;
    validator_discrete = ℕ_discrete;
    to_account_id = to_account_id;
    reward_size = reward_size reward_amount;
    mint_into = p.mint_into;
    aura_authorities = p.aura_authorities;
  }

  -- What the relay chain and the chain's own state say when `who` is rewarded.
  pub record IsEarned (s : State types) (d : InherentData p.StorageProof) (who : AccountId)
      : Type 0 where
    pub proof : p.StateProof
    pub proof_valid :
        p.relay_chain_state_proof d.para_id d.relay_state_root d.relay_storage_proof ≡ some proof
    pub relay_events : List RelayRuntimeEvent
    pub read : p.reader.read_entry proof events ≡ some relay_events
    pub price : Balance
    pub ordered : Memᴰ (on_demand_order_placed d.para_id price who) relay_events
    pub placer : p.AuthorityId
    pub placer_turn :
        get_elem? s.authorities (slot_at s d.relay_height % length s.authorities) ≡ some placer
    pub own_key : p.key_owner s.system placer ≡ some who
    pub later_slot : s.previous_slot < slot_at s d.relay_height

  -- In the template's runtime an inherent leaves the state as it is, or it rewards the account whose
  -- turn the slot is by its session key, and this account placed an order for the parachain by the
  -- relay chain's own events.
  pub create_order-IsEarned :
      (s : State types) (origin : Origin) (d : InherentData p.StorageProof)
      → let result = create_order config (reward config) origin (record { inherent = some d }) s in
        (result.0 ≡ s)
        ⊎ ((who : AccountId) × IsEarned s d who × (result ≡ (rewarded config s d who, ok tt)))
  unfolding orders_placed
  create_order-IsEarned s origin d = elim (create_order-cases config s origin d) [
    | inl same ↦ inl same
    | inr r ↦ elim (Option-cases (p.reader.read_entry r.proof events)) [
      | inl unread ↦ absurd (Memᴰ.not-nil (rw unread at r.order_placed))
      | inr (relay_events, read) ↦ inr (
        r.owner,
        record {
          proof = r.proof;
          proof_valid = r.proof_valid;
          relay_events = relay_events;
          read = read;
          price = r.order.0;
          ordered =
              let same : r.owner ≡ r.order.1 =
                ground (arith, p.identity s.system r.order.1, r.order_by_owner) in
              Memᴰ.cast (ap (λ who. on_demand_order_placed d.para_id r.order.0 who) same) (
                (orders_placed_lem p.reader r.proof d.para_id relay_events r.order.0 r.order.1
                    read).0
                  r.order_placed);
          placer = r.placer;
          placer_turn = r.placer_turn;
          own_key = r.owner_known;
          later_slot = r.later_slot;
        },
        create_order_rewards config s origin d r,
      )
    ]
  ]
