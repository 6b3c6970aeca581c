-- ===== src/Service/Reads.antt =====
-- services/order/src/chain.rs: what the service learns from the relay chain's storage.
use on_demand.Prelude.{
  ℕ, ◌*◌, min, ◌≡◌, ◌↔◌, true, Option, none, some, List, ok, arith, Option-cases, inl, inr,
  u128_max,
}
use on_demand.Primitives.{H256, ParaId}
use on_demand.Primitives.Keys.{Hashing, queue_status, active_config, para_lifecycle}
use on_demand.Relay.{RelayChainInterface}
use on_demand.Service.Chain.{
  Codec, HostConfiguration, ParaLifecycle, parathread, get_spot_price, is_parathread,
}

module _ {StorageProof : Type 0} (h : Hashing) (k : Codec)
    (relay_chain : RelayChainInterface StorageProof) (hash : H256) where
  -- What is stored under a key, decoded.
  pub record IsStored {A : Type 0} (decode : List ℕ → Option A) (key : List ℕ) (a : A)
      : Type 0 where
    pub raw : List ℕ
    pub stored : relay_chain.get_storage_by_key hash key ≡ some (some raw)
    pub decoded : decode raw ≡ some a

  pub record IsPriced (price : ℕ) : Type 0 where
    pub traffic_inner : ℕ
    pub traffic_stored : IsStored k.decode_traffic queue_status traffic_inner
    pub config : HostConfiguration
    pub config_stored : IsStored k.decode_host_configuration active_config config
    pub product : price ≡ min u128_max (traffic_inner * config.on_demand_base_fee)

  -- There is an answer exactly when the queue's status and the configuration are both stored and
  -- decode, and it is the number inside the traffic, a `FixedU128` that counts parts of 10^18, times
  -- the base fee, or the largest `u128` if that is less: 10^18 times the price in units of the fee.
  pub get_spot_price_iff :
      (price : ℕ) → (get_spot_price h k relay_chain hash ≡ some price) ↔ IsPriced price
  unfolding get_spot_price
  get_spot_price_iff price = (
    λ e. elim (Option-cases (relay_chain.get_storage_by_key hash queue_status)) [
      | inl unread ↦ absurd (ground arith)
      | inr (none, nothing) ↦ absurd (ground arith)
      | inr (some raw, stored) ↦ elim (Option-cases (k.decode_traffic raw)) [
        | inl undecoded ↦ absurd (ground arith)
        | inr (traffic, decoded) ↦
            elim (Option-cases (relay_chain.get_storage_by_key hash active_config)) [
              | inl unread ↦ absurd (ground arith)
              | inr (none, nothing) ↦ absurd (ground arith)
              | inr (some raw', stored') ↦ elim (Option-cases (k.decode_host_configuration raw')) [
                | inl undecoded ↦ absurd (ground arith)
                | inr (config, decoded') ↦ record {
                  traffic_inner = traffic;
                  traffic_stored = record { raw = raw; stored = stored; decoded = decoded };
                  config = config;
                  config_stored = record { raw = raw'; stored = stored'; decoded = decoded' };
                  product = ground arith;
                }
              ]
            ]
      ]
    ],
    λ v. ground (
      arith, v.traffic_stored.stored, v.traffic_stored.decoded, v.config_stored.stored,
      v.config_stored.decoded, v.product,
    ),
  )

  -- The parachain is a parathread exactly when its lifecycle is stored and decodes to that.
  pub is_parathread_iff :
      (para_id : ParaId)
      → (is_parathread h k relay_chain hash para_id ≡ ok true)
        ↔ IsStored k.decode_para_lifecycle (para_lifecycle h para_id) parathread
  unfolding is_parathread
  is_parathread_iff para_id = (
    λ e. elim (Option-cases (relay_chain.get_storage_by_key hash (para_lifecycle h para_id))) [
      | inl unread ↦ absurd (ground arith)
      | inr (none, nothing) ↦ absurd (ground arith)
      | inr (some raw, stored) ↦ elim (Option-cases (k.decode_para_lifecycle raw)) [
        | inl undecoded ↦ absurd (ground arith)
        | inr (parathread, decoded) ↦ record { raw = raw; stored = stored; decoded = decoded }
        | inr (ParaLifecycle.other, decoded) ↦ absurd (ground arith)
      ]
    ],
    λ v. ground (arith, v.stored, v.decoded),
  )
