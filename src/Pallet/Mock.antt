-- ===== src/Pallet/Mock.antt =====
-- pallets/on-demand/src/mock.rs: the runtime of the pallet's tests, as an instance of its `Config`.
use on_demand.Prelude.{
  ℕ, ◌∙◌, refl, Bool, none, Option, List, [], leb, saturating_add, u64_max, ℕ_discrete,
}
use mathlib.Core.List.Memᴰ
use on_demand.Primitives.{H256, ParaId}
use on_demand.Pallet.State.{Types, AccountId, Balance, State, Config}
use on_demand.Pallet.Calls.{is_root}
use on_demand.Pallet.Rewards.{Change, apply_all}
use on_demand.Pallet.Payments.{IsQuiet, Settles, done, quiet, settles, apply_all-Settles}

-- `Reward` and the reference time of `BaseWeight`.
abbrev pub reward_amount : Balance
reward_amount = 1000000

abbrev pub base_weight : ℕ
base_weight = 125000

abbrev pub transaction_byte_fee : Balance
transaction_byte_fee = 0

-- `ToAccountIdImpl`.
abbrev pub to_account_id : AccountId → AccountId
to_account_id v = v

-- The other pallets: the block's weight with the fee multiplier's `saturating_mul_int`, the session
-- keys, balances and AuRa, and the relay proof. `validator_id_of` is `IdentityCollator`.
pub record MockPallets : Type 1 where
  pub AuthorityId : Type 0
  pub StorageProof : Type 0
  pub StateProof : Type 0
  pub System : Type 0
  pub block_ref_time : System → ℕ
  pub saturating_mul_int : System → ℕ → ℕ
  pub relay_chain_state_proof : ParaId → H256 → StorageProof → Option StateProof
  pub key_owner : System → AuthorityId → Option AccountId
  pub validator_id_of : System → AccountId → Option AccountId
  pub mint_into : System → AccountId → Balance → Option System
  pub aura_authorities : System → List AuthorityId

module _ (p : MockPallets) where
  abbrev pub types : Types
  types = record {
    AuthorityId = p.AuthorityId;
    ValidatorId = AccountId;
    ThresholdParameter = Balance;
    StorageProof = p.StorageProof;
    StateProof = p.StateProof;
    System = p.System;
  }

  -- `FeeBasedCriteria` over `u64` balances, with `IdentityFee` for weights and no fee for length.
  abbrev pub criteria : p.System → Balance → Bool
  criteria system threshold =
      let adjusted_weight_fee = p.saturating_mul_int system (p.block_ref_time system) in
      leb threshold (
        saturating_add u64_max (saturating_add u64_max base_weight adjusted_weight_fee)
          transaction_byte_fee)

  -- The dummy `OrderPlacementChecker`.
  abbrev pub orders_placed : p.StateProof → ParaId → List (Balance × AccountId)
  orders_placed relay_state_proof expected_para_id = []

  -- `impl crate::Config for Test`.
  abbrev pub config : Config types
  config = record {
    admin_origin = is_root;
    should_place_order = λ s. criteria s.system s.threshold_parameter;
    orders_placed = orders_placed;
    relay_chain_state_proof = p.relay_chain_state_proof;
    key_owner = p.key_owner;
    validator_id_of = p.validator_id_of;
    validator_discrete = ℕ_discrete;
    to_account_id = to_account_id;
    reward_size = reward_amount;
    mint_into = p.mint_into;
    aura_authorities = p.aura_authorities;
  }

  Settles-IsQuiet :
      {xs : List (Change types)} {s s' : State types} {l : List (ℕ × AccountId)}
      → Settles config xs s s' l
      → IsQuiet s s'
  Settles-IsQuiet done = (refl, refl)
  Settles-IsQuiet (quiet still rest) =
      let (slot, paid) = Settles-IsQuiet rest in (slot ∙ still.0, paid ∙ still.1)
  Settles-IsQuiet (settles origin d r called moved paid rest) = absurd (Memᴰ.not-nil r.order_placed)

  -- In the tests' runtime nobody is ever rewarded and no slot is paid, whatever the tests call: its
  -- order checker finds no orders.
  pub apply_all-IsQuiet :
      (xs : List (Change types)) (s : State types) → IsQuiet s (apply_all config xs s)
  apply_all-IsQuiet xs s =
      let (l, run, rises) = apply_all-Settles config xs s in Settles-IsQuiet run

  -- `new_test_ext`: the storage of the tests' first block, over the other pallets' default.
  abbrev pub new_test_ext : p.System → State types
  new_test_ext system = record {
    authorities = [];
    slot_width = 0;
    threshold_parameter = 0;
    bulk_mode = none;
    previous_slot = 0;
    events = [];
    system = system;
  }
