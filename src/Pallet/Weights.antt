-- ===== src/Pallet/Weights.antt =====
-- pallets/on-demand/src/weights.rs, pallets/template/src/weights.rs of the template, and the weights
-- of the two databases in template/runtime/src/weights: what a call costs in reference time and proof.
use on_demand.Prelude.{ℕ, ◌*◌, ◌≤◌, ◌≡◌, refl, u64_max, saturating_add, saturating_mul, arith}

-- `Weight`: picoseconds of reference time, and bytes of proof.
pub record Weight : Type 0 where
  pub ref_time : ℕ
  pub proof_size : ℕ

abbrev pub from_parts : ℕ → ℕ → Weight
from_parts ref_time proof_size = record { ref_time = ref_time; proof_size = proof_size }

-- `Weight::saturating_add`.
abbrev pub add_weight : Weight → Weight → Weight
add_weight a b =
    from_parts (saturating_add u64_max a.ref_time b.ref_time)
      (saturating_add u64_max a.proof_size b.proof_size)

-- `DispatchClass`.
pub data DispatchClass : Type 0 where
  normal : DispatchClass
  operational : DispatchClass
  mandatory : DispatchClass

-- `RuntimeDbWeight`: picoseconds for one read and one write.
pub record RuntimeDbWeight : Type 0 where
  pub read : ℕ
  pub write : ℕ

-- Its `reads` and `writes`, of the library: so many of them, and no proof.
abbrev pub reads : RuntimeDbWeight → ℕ → Weight
reads db n = from_parts (saturating_mul u64_max db.read n) 0

abbrev pub writes : RuntimeDbWeight → ℕ → Weight
writes db n = from_parts (saturating_mul u64_max db.write n) 0

-- `weight_ref_time_per_nanos` is the library's constant.
abbrev pub rocks_db_weight : ℕ → RuntimeDbWeight
rocks_db_weight weight_ref_time_per_nanos = record {
  read = 25000 * weight_ref_time_per_nanos;
  write = 100000 * weight_ref_time_per_nanos;
}

abbrev pub parity_db_weight : ℕ → RuntimeDbWeight
parity_db_weight weight_ref_time_per_nanos = record {
  read = 8000 * weight_ref_time_per_nanos;
  write = 50000 * weight_ref_time_per_nanos;
}

-- `WeightInfo` of the on-demand pallet, and of the template's pallet.
pub record WeightInfo : Type 0 where
  pub set_slot_width : Weight
  pub set_threshold_parameter : Weight
  pub set_bulk_mode : Weight
  pub on_reward : Weight
  pub should_place_order : Weight

pub record ExampleWeightInfo : Type 0 where
  pub do_something : Weight
  pub cause_error : Weight

-- `SubstrateWeight<T>`, over the database's weights of the runtime `T`.
unfoldable pub substrate_weight : RuntimeDbWeight → WeightInfo
substrate_weight db = record {
  set_slot_width = add_weight (from_parts 3497000 0) (writes db 1);
  set_threshold_parameter = add_weight (from_parts 3487000 0) (writes db 1);
  set_bulk_mode = add_weight (from_parts 3487000 0) (writes db 1);
  on_reward = add_weight (from_parts 3487000 0) (writes db 1);
  should_place_order = add_weight (from_parts 3487000 0) (writes db 1);
}

unfoldable pub example_substrate_weight : RuntimeDbWeight → ExampleWeightInfo
example_substrate_weight db = record {
  do_something = add_weight (from_parts 9000000 0) (writes db 1);
  cause_error = add_weight (add_weight (from_parts 6000000 1489) (reads db 1)) (writes db 1);
}

module _ (weight_ref_time_per_nanos : ℕ) where
  abbrev rocks : RuntimeDbWeight
  rocks = rocks_db_weight weight_ref_time_per_nanos

  -- `WeightInfo for ()`.
  unfoldable pub unit_weight : WeightInfo
  unit_weight = record {
    set_slot_width = add_weight (from_parts 3497000 0) (writes rocks 1);
    set_threshold_parameter = add_weight (from_parts 3487000 0) (writes rocks 1);
    set_bulk_mode = add_weight (from_parts 3487000 0) (writes rocks 1);
    on_reward = add_weight (from_parts 3487000 0) (writes rocks 1);
    should_place_order = add_weight (from_parts 3487000 0) (writes rocks 1);
  }

  unfoldable pub example_unit_weight : ExampleWeightInfo
  example_unit_weight = record {
    do_something = add_weight (from_parts 9000000 0) (writes rocks 1);
    cause_error =
        add_weight (add_weight (from_parts 6000000 1489) (reads rocks 1)) (writes rocks 1);
  }

  -- The weights "for backwards compatibility and tests", which the template's runtime uses for the
  -- on-demand pallet, are those of a runtime over RocksDB.
  pub unit_weight-substrate_weight :
      (unit_weight ≡ substrate_weight rocks)
      × (example_unit_weight ≡ example_substrate_weight rocks)
  unfolding unit_weight substrate_weight example_unit_weight example_substrate_weight
  unit_weight-substrate_weight = (refl, refl)

-- With ParityDB no call weighs more than with RocksDB.
abbrev pub IsLighter : Weight → Weight → Type 0
IsLighter a b = (a.ref_time ≤ b.ref_time) × (a.proof_size ≤ b.proof_size)

pub parity-rocks :
    (nanos : ℕ)
    → let p = substrate_weight (parity_db_weight nanos) in
      let r = substrate_weight (rocks_db_weight nanos) in
      let q = example_substrate_weight (parity_db_weight nanos) in
      let s = example_substrate_weight (rocks_db_weight nanos) in
      IsLighter p.set_slot_width r.set_slot_width
      × IsLighter p.set_threshold_parameter r.set_threshold_parameter
      × IsLighter p.set_bulk_mode r.set_bulk_mode
      × IsLighter q.do_something s.do_something
      × IsLighter q.cause_error s.cause_error
unfolding substrate_weight example_substrate_weight
parity-rocks nanos = (omega arith, omega arith, omega arith, omega arith, omega arith)
