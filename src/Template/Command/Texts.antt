-- ===== src/Template/Command/Texts.antt =====
-- template/node/src/command.rs: `SubstrateCli` of both command lines, what they are called and which
-- chain an id names for them.
use on_demand.Prelude.{ℕ, List, [], ◌∷◌, Outcome}
use Prim.Native.String.{String, ◌++◌}
use on_demand.Template.Command.Spec.{ChainSpec, SpecSources, load_spec}

pub record SubstrateCli (Spec : Type 0) : Type 0 where
  pub impl_name : String
  pub impl_version : String
  pub description : String
  pub author : String
  pub support_url : String
  pub copyright_start_year : ℕ
  pub load_spec : String → Outcome String Spec

-- What the build and the relay chain's own command line give. `executable_name` is the program's.
pub record BuildTexts (RelaySpec : Type 0) : Type 0 where
  pub substrate_cli_impl_version : String
  pub cargo_pkg_authors : String
  pub executable_name : String
  pub polkadot_load_spec : List String → String → Outcome String RelaySpec

module _ {RelaySpec : Type 0} (b : BuildTexts RelaySpec) where
  -- `description` of both.
  abbrev pub description : String
  description =
      "Parachain Collator Template\n\nThe command-line arguments provided first will be "
      ++ "passed to the parachain node, while the arguments provided after -- will be passed "
      ++ "to the relay chain node.\n\n" ++ b.executable_name
      ++ " <parachain-args> -- <relay-chain-args>"

  module _ {Wasm AuraId : Type 0} (c : SpecSources Wasm AuraId) where
    -- `impl SubstrateCli for Cli`.
    abbrev pub cli : SubstrateCli (ChainSpec Wasm)
    cli = record {
      impl_name = "Parachain Collator Template";
      impl_version = b.substrate_cli_impl_version;
      description = description;
      author = b.cargo_pkg_authors;
      support_url = "https://github.com/paritytech/polkadot-sdk/issues/new";
      copyright_start_year = 2020;
      load_spec = load_spec c;
    }

  -- `impl SubstrateCli for RelayChainCli`.
  abbrev pub relay_chain_cli : SubstrateCli RelaySpec
  relay_chain_cli = record {
    impl_name = "Parachain Collator Template";
    impl_version = b.substrate_cli_impl_version;
    description = description;
    author = b.cargo_pkg_authors;
    support_url = "https://github.com/paritytech/polkadot-sdk/issues/new";
    copyright_start_year = 2020;
    load_spec = b.polkadot_load_spec (b.executable_name ∷ []);
  }
