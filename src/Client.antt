-- ===== src/Client.antt =====
-- client/consensus/on-demand-aura/src: the collator's consensus.
pub mod Defender
pub mod Verifier
pub mod Queue
pub mod Collator
pub mod Basic
pub mod Consensus
