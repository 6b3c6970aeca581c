-- ===== src/Tests/Presets.antt =====
-- Runs of the pallet as the template's runtime configures it, and from its genesis presets.
use on_demand.Prelude.{ℕ, ◌+◌, ◌*◌, ◌≡◌, ◌⊎◌, refl, true, false, none, some, List, [], ◌∷◌, ok}
use mathlib.Core.List.{Memᴰ}
use on_demand.Pallet.State.{unsigned, signed, Call, State, GenesisConfig}
use on_demand.Pallet.Calls.{create_order, reward, build}
use on_demand.Pallet.Rewards.{Change, call, finalize, apply_all}
use on_demand.Pallet.Bulk.{IsHeld, apply_all-build}
use on_demand.Pallet.Orders.{rewarded}
use on_demand.Template.Runtime.{RelayRuntimeEvent, on_demand_order_placed}
use on_demand.Template.Rewarding.{Pallets, types, config, IsEarned, create_order-IsEarned}
use on_demand.Template.Genesis.{
  Development, RuntimeGenesisConfig, IsUsable, get_preset, preset_names, get_preset_lem,
  local_testnet_genesis,
}
use on_demand.Tests.Mocks
use on_demand.Tests.Mocks.{inherent}

abbrev genesis : GenesisConfig Mocks.types
genesis = record { threshold_parameter = 0; bulk_mode = true }

abbrev held : List (Change Mocks.types)
held =
    call unsigned (Call.create_order (record { inherent = some (inherent 9) }))
    ∷ call (signed 3) (Call.set_bulk_mode false)
    ∷ finalize
    ∷ []

apply_all-build_example :
    IsHeld Mocks.config Mocks.state (apply_all Mocks.config held (build genesis Mocks.state))
apply_all-build_example =
    apply_all-build Mocks.config genesis held Mocks.state refl (tt, (refl, (tt, tt)))

abbrev pub relay_events : List RelayRuntimeEvent
relay_events = RelayRuntimeEvent.other ∷ on_demand_order_placed 2000 30 42 ∷ []

abbrev pub pallets : Pallets
pallets = record {
  AuthorityId = ℕ;
  StorageProof = ℕ;
  StateProof = ℕ;
  System = ℕ;
  fees = λ system. record {
    Weight = ℕ;
    block_weight = 30;
    base_weight = 2;
    weight_to_fee = λ w. 3 * w;
    saturating_mul_int = λ fee. fee;
    all_extrinsics_len = some 40;
    length_to_fee = λ n. n;
  };
  relay_chain_state_proof = λ para_id root proof. some proof;
  reader = record { read_entry = λ proof key. some relay_events };
  key_owner = λ system authority. some authority;
  validator_id_of = λ system account. some account;
  identity = λ system account. refl;
  mint_into = λ system account amount. some (system + amount);
  aura_authorities = λ system. 41 ∷ 42 ∷ [];
}

abbrev pub runtime_state : State (types pallets)
runtime_state = record {
  authorities = 41 ∷ 42 ∷ [];
  slot_width = 2;
  threshold_parameter = 0;
  bulk_mode = none;
  previous_slot = 1;
  events = [];
  system = 0;
}

create_order-IsEarned_example :
    let result =
      create_order
        (config pallets)
        (reward (config pallets))
        unsigned
        (record { inherent = some (inherent 9) })
        runtime_state in
    (result.0 ≡ runtime_state)
    ⊎ ((who : ℕ) × IsEarned pallets runtime_state (inherent 9) who
        × (result ≡ (rewarded (config pallets) runtime_state (inherent 9) who, ok tt)))
create_order-IsEarned_example = create_order-IsEarned pallets runtime_state unsigned (inherent 9)

abbrev pub development : Development ℕ
development = record {
  alice = 1;
  alice_aura = 101;
  bob = 2;
  bob_aura = 102;
  well_known = 1 ∷ 2 ∷ 3 ∷ [];
  xcm_version = 5;
  dev_runtime_preset = 70;
  local_testnet_runtime_preset = 71;
}

get_preset_lem_example :
    (Memᴰ 71 (preset_names development)
      → (g : RuntimeGenesisConfig ℕ) × (get_preset development 71 ≡ some g)
        × IsUsable development g)
    × ((g : RuntimeGenesisConfig ℕ)
        → get_preset development 71 ≡ some g
        → Memᴰ 71 (preset_names development))
get_preset_lem_example = get_preset_lem development 71 (Memᴰ.head refl)

local_preset : get_preset development 71 ≡ some (local_testnet_genesis development)
unfolding get_preset
local_preset = refl
