-- ===== src/Template/Command.antt =====
-- template/node/src: command.rs, cli.rs and chain_spec.rs, the node's command line.
pub mod Spec
pub mod Relay
pub mod Cli
pub mod Run
pub mod Laws
pub mod Texts
