-- ===== src/Template/Command/Spec.antt =====
-- template/node/src/chain_spec.rs, and `load_spec` of command.rs: the chain that an id names.
use on_demand.Prelude.{
  ℕ, ◌≡◌, refl, ◌⊎◌, inl, inr, Bool, true, false, ◌||◌, Option, none, some, List, [], ◌∷◌, arith,
  Outcome, ok, panicked, ◌>>=◌, if◌then◌else◌, Bool-cases,
}
use Prim.Native.String.{String}
use on_demand.Prelude.{◌==◌ as nat_eq}
use text.Mathlib.Text.{◌==◌}
use on_demand.Primitives.{ParaId}
use on_demand.Template.Genesis.{
  Development, RuntimeGenesisConfig, get_preset, local_testnet_genesis, development_config_genesis,
}

pub record Extensions : Type 0 where
  pub relay_chain : String
  pub para_id : ParaId

pub data ChainType : Type 0 where
  development : ChainType
  local : ChainType

-- The value of a property, a text or a number.
pub data Value : Type 0 where
  string : String → Value
  number : ℕ → Value

abbrev pub Properties : Type 0
Properties = List (String × Value)

-- A `ChainSpec` as its builder is told to make it. `extensions` is `none` in a file without them.
pub record ChainSpec (Wasm : Type 0) : Type 0 where
  pub code : Wasm
  pub extensions : Option Extensions
  pub name : String
  pub id : String
  pub chain_type : ChainType
  pub preset : ℕ
  pub protocol_id : Option String
  pub properties : Option Properties

-- `Extensions::try_get`.
unfoldable pub try_get : {Wasm : Type 0} → ChainSpec Wasm → Option Extensions
try_get chain_spec = chain_spec.extensions

-- The properties that both functions insert, newest last.
abbrev pub token_properties : Properties
token_properties =
    ("tokenSymbol", string "UNIT") ∷ ("tokenDecimals", number 12) ∷ ("ss58Format", number 42) ∷ []

-- The runtime's binary, which is missing in some builds, the names of the presets, and the reading of
-- a file, whose error is a text.
pub record SpecSources (Wasm AuraId : Type 0) : Type 0 where
  pub wasm_binary : Option Wasm
  pub keyring : Development AuraId
  pub from_json_file : String → Outcome String (ChainSpec Wasm)

module _ {Wasm AuraId : Type 0} (c : SpecSources Wasm AuraId) where
  open c use {wasm_binary, keyring, from_json_file}

  abbrev expect : Option Wasm → Outcome String Wasm
  expect none = panicked
  expect (some wasm) = ok wasm

  -- The chain that is built; the properties are made too, and not handed to the builder.
  abbrev pub development_spec : Wasm → ChainSpec Wasm
  development_spec wasm = record {
    code = wasm;
    extensions = some (record { relay_chain = "rococo-local"; para_id = 1000 });
    name = "Development";
    id = "dev";
    chain_type = development;
    preset = keyring.dev_runtime_preset;
    protocol_id = none;
    properties = none;
  }

  unfoldable pub development_chain_spec : Outcome String (ChainSpec Wasm)
  development_chain_spec = do wasm ← expect wasm_binary; ok (development_spec wasm)

  -- The chain of a local network, with the properties.
  abbrev pub local_spec : Wasm → ChainSpec Wasm
  local_spec wasm = record {
    code = wasm;
    extensions = some (record { relay_chain = "rococo-local"; para_id = 1000 });
    name = "Local Testnet";
    id = "local_testnet";
    chain_type = local;
    preset = keyring.local_testnet_runtime_preset;
    protocol_id = some "template-local";
    properties = some token_properties;
  }

  unfoldable pub local_chain_spec : Outcome String (ChainSpec Wasm)
  local_chain_spec = do wasm ← expect wasm_binary; ok (local_spec wasm)

  unfoldable pub load_spec : String → Outcome String (ChainSpec Wasm)
  unfolding development_chain_spec local_chain_spec
  load_spec id =
      if id == "dev"
      then development_chain_spec
      else if id == "template-rococo"
      then local_chain_spec
      else if id == "" || id == "local"
      then local_chain_spec
      else from_json_file id

  -- The ids that the node knows without a file.
  abbrev pub is_built_in : String → Bool
  is_built_in id = id == "dev" || id == "template-rococo" || id == "" || id == "local"

  preset_found :
      (preset : ℕ)
      → (preset ≡ keyring.dev_runtime_preset) ⊎ (preset ≡ keyring.local_testnet_runtime_preset)
      → (g : RuntimeGenesisConfig AuraId) × (get_preset keyring preset ≡ some g)
        × (g.parachain_id ≡ 1000)
  unfolding get_preset
  preset_found preset known =
      elim (Bool-cases (nat_eq preset keyring.local_testnet_runtime_preset)) [
        | inl yes_local ↦ (local_testnet_genesis keyring, ground arith, refl)
        | inr other ↦ (development_config_genesis keyring, ground arith, refl)
      ]

  -- An id of the node's own gives, where the runtime's binary was built, a chain whose genesis is a
  -- preset of the runtime for the parachain that the chain's extensions name, and panics where it was
  -- not; any other id is the file of that name, its error included.
  pub load_spec_lem :
      (id : String)
      → (is_built_in id ≡ false → load_spec id ≡ from_json_file id)
        × (is_built_in id ≡ true → wasm_binary ≡ none → load_spec id ≡ panicked)
        × (is_built_in id ≡ true
            → (wasm : Wasm) → wasm_binary ≡ some wasm
            → (spec : ChainSpec Wasm) × (e : Extensions) × (g : RuntimeGenesisConfig AuraId)
              × (load_spec id ≡ ok spec)
              × (try_get spec ≡ some e)
              × (get_preset keyring spec.preset ≡ some g)
              × (g.parachain_id ≡ e.para_id))
  unfolding load_spec try_get get_preset
  load_spec_lem id = (
    λ file. ground arith,
    λ own missing. ground arith,
    λ own wasm built. elim (Bool-cases (id == "dev")) [
      | inl dev ↦
          let (g, found, para) = preset_found keyring.dev_runtime_preset (inl refl) in
          (development_spec wasm, _, g, ground arith, refl, found, para)
      | inr other ↦
          let (g, found, para) = preset_found keyring.local_testnet_runtime_preset (inr refl) in
          (local_spec wasm, _, g, ground arith, refl, found, para)
    ],
  )
