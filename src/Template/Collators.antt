-- ===== src/Template/Collators.antt =====
-- template/runtime/src/configs/mod.rs: the numbers of the runtime's session, AuRa, collator selection
-- and balances pallets.
use on_demand.Prelude.{ℕ, Bool, false, ◌*◌}
use on_demand.Pallet.State.{Balance}
use on_demand.Template.Constants.{hours, slot_duration}
use on_demand.Template.Rewarding.{milli_unit}

-- `PeriodicSessions`: a session ends whenever so many blocks have passed since the offset.
pub record SessionConfig : Type 0 where
  pub period : ℕ
  pub offset : ℕ

abbrev pub session : SessionConfig
session = record { period = 6 * hours; offset = 0 }

pub record AuraConfig : Type 0 where
  pub max_authorities : ℕ
  pub allow_multiple_blocks_per_slot : Bool
  pub slot_duration : ℕ

abbrev pub aura : AuraConfig
aura = record {
  max_authorities = 100000;
  allow_multiple_blocks_per_slot = false;
  slot_duration = slot_duration;
}

-- A collator is kicked after so many blocks without one of its own.
pub record CollatorSelectionConfig : Type 0 where
  pub max_candidates : ℕ
  pub min_eligible_collators : ℕ
  pub max_invulnerables : ℕ
  pub kick_threshold : ℕ

abbrev pub collator_selection : CollatorSelectionConfig
collator_selection = record {
  max_candidates = 100;
  min_eligible_collators = 4;
  max_invulnerables = 20;
  kick_threshold = session.period;
}

pub record BalancesConfig : Type 0 where
  pub max_locks : ℕ
  pub max_reserves : ℕ
  pub existential_deposit : Balance

abbrev pub balances : BalancesConfig
balances = record { max_locks = 50; max_reserves = 50; existential_deposit = milli_unit }
