-- ===== src/Template/Genesis.antt =====
-- template/runtime/src/genesis_config_presets.rs: the genesis presets of the template.
use on_demand.Prelude.{
  ℕ, ◌*◌, ◌^◌, ◌≡◌, refl, inl, inr, Bool, true, Option, none, some, List, [], ◌∷◌, map, ◌==◌,
  if◌then◌else◌, arith, Bool-cases, ap, length, ◌≤◌,
}
use mathlib.Core.List.{Memᴰ}
use mathlib.Core.List.Memᴰ
use on_demand.Primitives.{ParaId}
use on_demand.Pallet.State.{AccountId, Balance, GenesisConfig, State}
use on_demand.Pallet.Calls.{build}
use on_demand.Pallet.Rewards.{Change, apply_all}
use on_demand.Pallet.Bulk.{AllKeepBulk, IsHeld, apply_all-build}
use on_demand.Template.Collators.{collator_selection, balances}
use on_demand.Template.Rewarding.{milli_unit, Pallets, types, config}

-- The keyring of the development accounts, the XCM version, and the names of the two presets, which
-- are different texts, here by number.
pub record Development (AuraId : Type 0) : Type 0 where
  pub alice : AccountId
  pub alice_aura : AuraId
  pub bob : AccountId
  pub bob_aura : AuraId
  pub well_known : List AccountId
  pub xcm_version : ℕ
  pub dev_runtime_preset : ℕ
  pub local_testnet_runtime_preset : ℕ

-- The part of `RuntimeGenesisConfig` that the presets set; all else is the default.
pub record RuntimeGenesisConfig (AuraId : Type 0) : Type 0 where
  pub balances : List (AccountId × Balance)
  pub parachain_id : ParaId
  pub invulnerables : List AccountId
  pub candidacy_bond : Balance
  pub session_keys : List (AccountId × AccountId × AuraId)
  pub safe_xcm_version : Option ℕ
  pub sudo_key : Option AccountId
  pub on_demand_bulk_mode : Bool
  pub on_demand_threshold : Balance

abbrev pub parachain_id : ParaId
parachain_id = 1000

abbrev pub existential_deposit : Balance
existential_deposit = milli_unit

-- `1u128 << 60` for each endowed account.
abbrev pub endow : AccountId → AccountId × Balance
endow account = (account, 2 ^ 60)

module _ {AuraId : Type 0} (k : Development AuraId) where
  unfoldable pub testnet_genesis :
      List (AccountId × AuraId) → List AccountId → AccountId → ParaId → RuntimeGenesisConfig AuraId
  testnet_genesis invulnerables endowed_accounts root id = record {
    balances = map endow endowed_accounts;
    parachain_id = id;
    invulnerables = map (λ (acc, _). acc) invulnerables;
    candidacy_bond = existential_deposit * 16;
    session_keys = map (λ (acc, aura). (acc, acc, aura)) invulnerables;
    safe_xcm_version = some k.xcm_version;
    sudo_key = some root;
    on_demand_bulk_mode = true;
    on_demand_threshold = 0;
  }

  unfoldable pub local_testnet_genesis : RuntimeGenesisConfig AuraId
  unfolding testnet_genesis
  local_testnet_genesis =
      testnet_genesis ((k.alice, k.alice_aura) ∷ (k.bob, k.bob_aura) ∷ []) k.well_known k.alice
        parachain_id

  unfoldable pub development_config_genesis : RuntimeGenesisConfig AuraId
  unfolding testnet_genesis
  development_config_genesis =
      testnet_genesis ((k.alice, k.alice_aura) ∷ (k.bob, k.bob_aura) ∷ []) k.well_known k.alice
        parachain_id

  -- The preset before its translation to JSON.
  unfoldable pub get_preset : ℕ → Option (RuntimeGenesisConfig AuraId)
  unfolding local_testnet_genesis development_config_genesis
  get_preset id =
      if id == k.local_testnet_runtime_preset
      then some local_testnet_genesis
      else if id == k.dev_runtime_preset
      then some development_config_genesis
      else none

  unfoldable pub preset_names : List ℕ
  preset_names = k.dev_runtime_preset ∷ k.local_testnet_runtime_preset ∷ []

  -- The pallet's own part.
  abbrev pub on_demand_genesis :
      (p : Pallets) → RuntimeGenesisConfig AuraId → GenesisConfig (types p)
  on_demand_genesis p g = record {
    threshold_parameter = g.on_demand_threshold;
    bulk_mode = g.on_demand_bulk_mode;
  }

  -- A preset as the rest of the chain needs it.
  pub record IsUsable (g : RuntimeGenesisConfig AuraId) : Type 0 where
    pub starts_in_bulk : g.on_demand_bulk_mode ≡ true
    pub keys_of_collators : map (λ (acc, _, _). acc) g.session_keys ≡ g.invulnerables
    pub own_validators : map (λ (_, validator, _). validator) g.session_keys ≡ g.invulnerables
    pub root_endowed :
        (root : AccountId) × (g.sudo_key ≡ some root) × Memᴰ (root, 2 ^ 60) g.balances
    pub few_collators : length g.invulnerables ≤ collator_selection.max_invulnerables
    pub deposits :
        (account : AccountId) (balance : Balance)
        → Memᴰ (account, balance) g.balances
        → balances.existential_deposit ≤ balance

  endow-deposit :
      (accounts : List AccountId) (account : AccountId) (balance : Balance)
      → Memᴰ (account, balance) (map endow accounts)
      → balances.existential_deposit ≤ balance
  endow-deposit [] account balance m = absurd (Memᴰ.not-nil m)
  endow-deposit (a ∷ accounts) account balance (Memᴰ.head e) =
      let amount : balance ≡ 2 ^ 60 = ap (λ ((who, b) : AccountId × Balance). b) e in
      omega (arith, amount)
  endow-deposit (a ∷ accounts) account balance (Memᴰ.tail m) =
      endow-deposit accounts account balance m

  endowed :
      (a : AccountId) (accounts : List AccountId)
      → Memᴰ a accounts
      → Memᴰ (endow a) (map endow accounts)
  endowed a [] m = absurd (Memᴰ.not-nil m)
  endowed a (b ∷ accounts) (Memᴰ.head e) = Memᴰ.head (ap endow e)
  endowed a (b ∷ accounts) (Memᴰ.tail m) = Memᴰ.tail (endowed a accounts m)

  local-IsUsable : Memᴰ k.alice k.well_known → IsUsable local_testnet_genesis
  unfolding local_testnet_genesis
  local-IsUsable m = record {
    starts_in_bulk = refl;
    keys_of_collators = refl;
    own_validators = refl;
    root_endowed = (k.alice, refl, endowed k.alice k.well_known m);
    few_collators = omega arith;
    deposits = endow-deposit k.well_known;
  }

  development-IsUsable : Memᴰ k.alice k.well_known → IsUsable development_config_genesis
  unfolding development_config_genesis
  development-IsUsable m = record {
    starts_in_bulk = refl;
    keys_of_collators = refl;
    own_validators = refl;
    root_endowed = (k.alice, refl, endowed k.alice k.well_known m);
    few_collators = omega arith;
    deposits = endow-deposit k.well_known;
  }

  listed-preset :
      (id : ℕ)
      → Memᴰ k.alice k.well_known
      → Memᴰ id preset_names
      → (g : RuntimeGenesisConfig AuraId) × (get_preset id ≡ some g) × IsUsable g
  unfolding get_preset preset_names
  listed-preset id alice m = elim (Bool-cases (id == k.local_testnet_runtime_preset)) [
    | inl here ↦ (local_testnet_genesis, ground arith, local-IsUsable alice)
    | inr not_local ↦ (
      development_config_genesis,
      elim (Memᴰ.cases_cons m) [
        | inl dev ↦ ground arith
        | inr rest ↦ elim (Memᴰ.cases_cons rest) [
          | inl is_local ↦ absurd (ground arith)
          | inr left ↦ absurd (Memᴰ.not-nil left)
        ]
      ],
      development-IsUsable alice,
    )
  ]

  preset-listed :
      (id : ℕ) (g : RuntimeGenesisConfig AuraId) → get_preset id ≡ some g → Memᴰ id preset_names
  unfolding get_preset preset_names
  preset-listed id g e = elim (Bool-cases (id == k.local_testnet_runtime_preset)) [
    | inl here ↦ Memᴰ.tail (Memᴰ.head (ground arith))
    | inr not_local ↦ Memᴰ.head (ground arith)
  ]

  -- If Alice is among the well-known accounts, exactly the listed names have a preset, and in each
  -- the pallet starts in bulk mode, every collator has session keys as its own validator, the root
  -- account is endowed, and the limits that the runtime sets its other pallets hold: there are at most
  -- twenty invulnerable collators, and no balance is below the existential deposit.
  pub get_preset_lem :
      (id : ℕ)
      → Memᴰ k.alice k.well_known
      → (Memᴰ id preset_names
          → (g : RuntimeGenesisConfig AuraId) × (get_preset id ≡ some g) × IsUsable g)
        × ((g : RuntimeGenesisConfig AuraId) → get_preset id ≡ some g → Memᴰ id preset_names)
  get_preset_lem id alice = (listed-preset id alice, preset-listed id)

  preset-bulk :
      (id : ℕ) (g : RuntimeGenesisConfig AuraId)
      → get_preset id ≡ some g
      → g.on_demand_bulk_mode ≡ true
  unfolding get_preset local_testnet_genesis development_config_genesis testnet_genesis
  preset-bulk id g e = ground arith

  -- A chain of the template that starts from a preset stays in bulk mode, rewards nobody and keeps
  -- its previous slot, whatever calls, ends of blocks and writes of other pallets follow, until root
  -- ends bulk mode.
  pub preset-IsHeld :
      (p : Pallets) (id : ℕ) (g : RuntimeGenesisConfig AuraId) (xs : List (Change (types p)))
      (s : State (types p))
      → get_preset id ≡ some g
      → AllKeepBulk (config p) xs
      → IsHeld (config p) s (apply_all (config p) xs (build (on_demand_genesis p g) s))
  preset-IsHeld p id g xs s e k =
      apply_all-build (config p) (on_demand_genesis p g) xs s (preset-bulk id g e) k
