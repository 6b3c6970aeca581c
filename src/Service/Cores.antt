-- ===== src/Service/Cores.antt =====
-- services/order/src/chain.rs, `on_demand_cores_available`, and what the service makes of it.
use on_demand.Prelude.{
  ℕ, zero, suc, ◌+◌, ◌≤◌, ◌<◌, ◌≡◌, Bool, true, false, Option, none, some, List, any, arith,
  Option-cases, inl, inr, ◌⊎◌, ℕ_discrete, ◌∙◌, ap,
}
use on_demand.Primitives.{H256}
use on_demand.Primitives.Keys.{Hashing, active_config, core_descriptor}
use on_demand.Relay.{RelayChainInterface}
use on_demand.Service.Chain.{
  Codec, CoreAssignment, CoreDescriptor, HostConfiguration, read, work_of, is_pool, find_pool,
  on_demand_cores_available,
}
use on_demand.Service.Orders.{Node, Head, Orders, place_order, handle_relaychain_stream}

module _ {StorageProof : Type 0} (h : Hashing) (k : Codec)
    (relay_chain : RelayChainInterface StorageProof) (hash : H256) where
  -- What the relay chain stores for a core.
  abbrev pub descriptor_at : ℕ → Option (Option CoreDescriptor)
  descriptor_at core = read h k relay_chain hash k.decode_core_descriptor (core_descriptor h core)

  -- A core whose descriptor can be read and that has no current work.
  abbrev pub IsIdle : ℕ → Type 0
  IsIdle core = (d : Option CoreDescriptor) × (descriptor_at core ≡ some d) × (work_of d ≡ none)

  -- The first core with work, among those from `from` up to `to`, and whether it is given to a pool.
  pub record IsFirstWork (from to : ℕ) (given : Bool) : Type 0 where
    pub core : ℕ
    pub not_before : from ≤ core
    pub in_range : core < to
    pub idle_before : (i : ℕ) → from ≤ i → i < core → IsIdle i
    pub descriptor : Option CoreDescriptor
    pub stored : descriptor_at core ≡ some descriptor
    pub assignments : List (CoreAssignment × ℕ)
    pub at_work : work_of descriptor ≡ some assignments
    pub to_pool : any is_pool assignments ≡ given

  pub record AreIdle (from to : ℕ) (given : Bool) : Type 0 where
    pub idle : (i : ℕ) → from ≤ i → i < to → IsIdle i
    pub not_given : given ≡ false

  idle_step :
      (P : ℕ → Type 0) (core to : ℕ)
      → P core
      → ((i : ℕ) → core + 1 ≤ i → i < to → P i)
      → (i : ℕ) → core ≤ i
      → i < to
      → P i
  idle_step P core to here later i lo hi = elim (ℕ_discrete core i) [
    | yes same ↦ rw same at here
    | no other ↦ later i (omega arith) hi
  ]

  find_pool-cases :
      (rounds core to : ℕ) (given : Bool)
      → core + rounds ≡ to
      → find_pool h k relay_chain hash rounds core ≡ some given
      → IsFirstWork core to given ⊎ AreIdle core to given
  unfolding find_pool
  find_pool-cases zero core to given n e =
      inr (record { idle = λ i lo hi. absurd (omega arith); not_given = ground arith })
  find_pool-cases (suc rounds) core to given n e = elim (Option-cases (descriptor_at core)) [
    | inl unread ↦ absurd (ground arith)
    | inr (d, found) ↦ elim (Option-cases (work_of d)) [
      | inr (work, busy) ↦ inl (record {
        core = core;
        not_before = omega arith;
        in_range = omega arith;
        idle_before = λ i lo hi. absurd (omega arith);
        descriptor = d;
        stored = found;
        assignments = work;
        at_work = busy;
        to_pool = ground arith;
      })
      | inl idle ↦
          let rest : IsFirstWork (core + 1) to given ⊎ AreIdle (core + 1) to given =
            find_pool-cases rounds (core + 1) to given (omega arith) (ground arith) in
          elim rest [
            | inl f ↦ inl (record {
              core = f.core;
              not_before = omega arith;
              in_range = f.in_range;
              idle_before = idle_step IsIdle core f.core (d, found, idle) f.idle_before;
              descriptor = f.descriptor;
              stored = f.stored;
              assignments = f.assignments;
              at_work = f.at_work;
              to_pool = f.to_pool;
            })
            | inr a ↦ inr (record {
              idle = idle_step IsIdle core to (d, found, idle) a.idle;
              not_given = a.not_given;
            })
          ]
    ]
  ]

  -- The answer is that of the first core with work, whatever the later cores do, and is `false` if
  -- no core has any.
  pub on_demand_cores_available-cases :
      (given : Bool)
      → on_demand_cores_available h k relay_chain hash ≡ some given
      → (config : HostConfiguration) × (read h k relay_chain hash k.decode_host_configuration
            active_config
          ≡ some (some config))
        × (IsFirstWork 0 config.num_cores given ⊎ AreIdle 0 config.num_cores given)
  unfolding on_demand_cores_available
  on_demand_cores_available-cases given e =
      elim (Option-cases (read h k relay_chain hash k.decode_host_configuration active_config)) [
        | inl unread ↦ absurd (ground arith)
        | inr (stored, r) ↦ elim (Option-cases stored) [
          | inl nothing ↦ absurd (ground arith)
          | inr (config, c) ↦ (
            config,
            r ∙ ap some c,
            find_pool-cases config.num_cores 0 config.num_cores given (omega arith) (ground arith),
          )
        ]
      ]

module _ {StorageProof PublicKey : Type 0} (n : Node StorageProof PublicKey) where
  -- If the check of the cores answers that on-demand cores are available, handling a head places no
  -- order and leaves the record.
  pub place_order-available :
      (head : Head) (o : Orders)
      → on_demand_cores_available n.hashing n.codec n.relay_chain head.r_hash ≡ some true
      → (handle_relaychain_stream n head o).0 ≡ o
  unfolding handle_relaychain_stream place_order
  place_order-available head o h = ground arith
