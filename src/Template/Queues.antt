-- ===== src/Template/Queues.antt =====
-- template/runtime/src/configs/mod.rs and lib.rs: the numbers of the system, timestamp, transaction
-- payment and parachain system pallets, and of the queues of messages from other chains.
use on_demand.Prelude.{ℕ, ◌+◌, ◌*◌, ◌^◌, ◌≤◌, Bool, Option, none, arith}
use on_demand.Primitives.{ParaId}
use on_demand.Pallet.State.{Origin, Balance}
use on_demand.Pallet.Calls.{is_root}
use on_demand.Pallet.Weights.{Weight, RuntimeDbWeight, rocks_db_weight}
use on_demand.Template.Constants.{
  WeightConstants, maximum_block_weight, block_processing_velocity, unincluded_segment_capacity,
  relay_chain_slot_duration_millis,
}
use on_demand.Template.Fees.{FeeArithmetic, eval_weight, length_to_fee}
use on_demand.Template.Blocks.{
  BlockWeights, mul_weight, mul-from_percent, normal_dispatch_ratio, runtime_block_weights,
  reserved_dmp_weight, reserved_xcmp_weight,
}
use on_demand.Template.Origins.{Converters, ConvertOrigin, convert_origin}

-- `AggregateMessageOrigin`: from which chain a message comes.
pub data AggregateMessageOrigin : Type 0 where
  here : AggregateMessageOrigin
  parent : AggregateMessageOrigin
  sibling : ParaId → AggregateMessageOrigin

pub record SystemConfig (Perbill : Type 0) : Type 0 where
  pub db_weight : RuntimeDbWeight
  pub block_weights : BlockWeights Perbill
  pub max_length : ℕ
  pub normal_ratio : Perbill
  pub ss58_prefix : ℕ
  pub max_consumers : ℕ

pub record TransactionPaymentConfig : Type 0 where
  pub weight_to_fee : Weight → Balance
  pub length_to_fee : ℕ → Balance
  pub operational_fee_multiplier : ℕ

-- `FixedVelocityConsensusHook` is a part of it.
pub record ParachainSystemConfig : Type 0 where
  pub dmp_queue : AggregateMessageOrigin
  pub reserved_dmp_weight : Weight
  pub reserved_xcmp_weight : Weight
  pub relay_slot_duration : ℕ
  pub velocity : ℕ
  pub capacity : ℕ

-- `none` is no weight at all.
pub record MessageQueueConfig : Type 0 where
  pub heap_size : ℕ
  pub max_stale : ℕ
  pub service_weight : Weight
  pub idle_max_service_weight : Option Weight

pub record XcmpQueueConfig : Type 0 where
  pub enqueue : ParaId → AggregateMessageOrigin
  pub max_inbound_suspended : ℕ
  pub max_active_outbound_channels : ℕ
  pub max_page_size : ℕ
  pub controller_origin : Origin → Bool
  pub controller_origin_converter : ConvertOrigin

-- `MinimumPeriod` of timestamps.
abbrev pub minimum_period : ℕ
minimum_period = 0

abbrev pub xcmp_queue : Converters → XcmpQueueConfig
xcmp_queue c = record {
  enqueue = AggregateMessageOrigin.sibling;
  max_inbound_suspended = 1000;
  max_active_outbound_channels = 128;
  max_page_size = 2 ^ 16;
  controller_origin = is_root;
  controller_origin_converter = convert_origin c;
}

module _ (a : FeeArithmetic) (c : WeightConstants) where
  open a use {Perbill, from_percent}

  abbrev pub system : SystemConfig Perbill
  system = record {
    db_weight = rocks_db_weight c.weight_ref_time_per_nanos;
    block_weights = runtime_block_weights a c;
    max_length = 5 * 1024 * 1024;
    normal_ratio = normal_dispatch_ratio a c;
    ss58_prefix = 42;
    max_consumers = 16;
  }

  abbrev pub transaction_payment : TransactionPaymentConfig
  transaction_payment = record {
    weight_to_fee = eval_weight a c;
    length_to_fee = length_to_fee a c;
    operational_fee_multiplier = 5;
  }

  abbrev pub parachain_system : ParachainSystemConfig
  parachain_system = record {
    dmp_queue = AggregateMessageOrigin.parent;
    reserved_dmp_weight = reserved_dmp_weight a c;
    reserved_xcmp_weight = reserved_xcmp_weight a c;
    relay_slot_duration = relay_chain_slot_duration_millis;
    velocity = block_processing_velocity;
    capacity = unincluded_segment_capacity;
  }

  -- `MessageQueueServiceWeight`. `max_block` is what the builder of the block's weights comes to.
  abbrev pub message_queue_service_weight : Weight → Weight
  message_queue_service_weight max_block = mul_weight a c (from_percent 35) max_block

  abbrev pub message_queue : Weight → MessageQueueConfig
  message_queue max_block = record {
    heap_size = 103 * 1024;
    max_stale = 8;
    service_weight = message_queue_service_weight max_block;
    idle_max_service_weight = none;
  }

  -- A page of messages to a sibling is no larger than the heap that the queue keeps pages in. With the
  -- runtime's maximum as the block's weight, the queue's service takes at most 35 hundredths of the
  -- block's time, up to rounding, and what is set aside for messages of the relay chain, and for those
  -- of siblings, at most a quarter each.
  pub message_queue_lem :
      (x : Converters)
      → let queue = message_queue (maximum_block_weight c) in
        let time = (maximum_block_weight c).ref_time in
        let reserved = parachain_system in
        ((xcmp_queue x).max_page_size ≤ queue.heap_size)
        × (100 * queue.service_weight.ref_time ≤ 35 * time + 50)
        × (4 * reserved.reserved_dmp_weight.ref_time ≤ time)
        × (4 * reserved.reserved_xcmp_weight.ref_time ≤ time)
  unfolding reserved_dmp_weight reserved_xcmp_weight
  message_queue_lem x =
      let service = mul-from_percent a c 35 (maximum_block_weight c).ref_time (omega arith) in
      (omega arith, service, omega arith, omega arith)
