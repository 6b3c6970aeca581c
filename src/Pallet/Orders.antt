-- ===== src/Pallet/Orders.antt =====
-- pallets/on-demand/src/lib.rs, `create_order`: when an order's author is rewarded.
use on_demand.Prelude.{
  ℕ, ◌%◌, ◌<◌, ◌≡◌, refl, ap, ◌↔◌, ◌⊎◌, inl, inr, Bool, true, not, none, some, List, [], ◌∷◌,
  length, get_elem?, any, ◌==◌, ◌&&◌, leb, is_some, ok, arith, Bool-cases, Option-cases,
}
use on_demand.Primitives.{InherentData}
use on_demand.Pallet.State.{Types, AccountId, Balance, Origin, unsigned, State, Config}
use on_demand.Pallet.Calls.{
  slot_at, reward, is_unsigned, reward_order, create_order, is_order_of, order_placer_at,
}
use mathlib.Core.List.{Memᴰ}

-- A test passed by some element of a list names that element, and the other way round.
any-Memᴰ {ℓ} :
    {A : Type ℓ} (p : A → Bool) (xs : List A) → any p xs ≡ true → (x : A) × Memᴰ x xs × (p x ≡ true)
any-Memᴰ p [] h = absurd (cc)
any-Memᴰ p (x ∷ xs) h = elim (Bool-cases (p x)) [
  | inl here ↦ (x, Memᴰ.head refl, here)
  | inr there ↦ let (y, m, e) = any-Memᴰ p xs (ground arith) in (y, Memᴰ.tail m, e)
]

any-true {ℓ} :
    {A : Type ℓ} (p : A → Bool) {x : A} {xs : List A} → Memᴰ x xs → p x ≡ true → any p xs ≡ true
any-true p (Memᴰ.head e) h = ground (arith, ap p e)
any-true p (Memᴰ.tail m) h = ground (arith, any-true p m h)

length-pos {ℓ} :
    {A : Type ℓ} (xs : List A) (i : ℕ) {a : A} → get_elem? xs i ≡ some a → 0 < length xs
length-pos [] i h = absurd (cc)
length-pos (x ∷ xs) i h = omega arith

module _ {T : Types} where
  -- What has to hold for an order's author to be rewarded, written without the code's order of
  -- tests: `placer` is the authority whose turn the slot is, and `owner` has its session key.
  pub record IsRewardable (c : Config T) (s : State T) (origin : Origin)
      (d : InherentData T.StorageProof) : Type 0 where
    pub inherent_origin : origin ≡ unsigned
    pub not_bulk : s.bulk_mode ≡ none
    pub criteria_met : c.should_place_order s ≡ true
    pub later_slot : s.previous_slot < slot_at s d.relay_height
    pub proof : T.StateProof
    pub proof_valid :
        c.relay_chain_state_proof d.para_id d.relay_state_root d.relay_storage_proof ≡ some proof
    pub placer : T.AuthorityId
    pub placer_turn :
        get_elem? s.authorities (slot_at s d.relay_height % length s.authorities) ≡ some placer
    pub owner : T.ValidatorId
    pub owner_known : c.key_owner s.system placer ≡ some owner
    pub order : Balance × AccountId
    pub order_placed : Memᴰ order (c.orders_placed proof d.para_id)
    pub order_by_owner : c.validator_id_of s.system order.1 ≡ some owner

  module _ (c : Config T) where
    is_order_of_iff :
        (s : State T) (owner : T.ValidatorId) (order : Balance × AccountId)
        → (is_order_of c s owner order ≡ true) ↔ (c.validator_id_of s.system order.1 ≡ some owner)
    is_order_of_iff s owner order = ground arith

    -- The early returns of `create_order` that look at the state alone.
    abbrev pub is_open : State T → Origin → InherentData T.StorageProof → Bool
    is_open s origin d =
        is_unsigned origin
        && not (is_some s.bulk_mode)
        && not (length s.authorities == 0)
        && c.should_place_order s
        && not (leb (slot_at s d.relay_height) s.previous_slot)

    abbrev pub rewarded : State T → InherentData T.StorageProof → T.ValidatorId → State T
    rewarded s d owner = record (reward c s (c.to_account_id owner)) {
      previous_slot = slot_at s d.relay_height;
    }

    -- When everything that a reward needs holds, `create_order` succeeds, pays the owner of the
    -- authority whose turn it is by `reward`, and moves the previous slot to that of the inherent.
    pub create_order_rewards :
        (s : State T) (origin : Origin) (d : InherentData T.StorageProof)
        → (r : IsRewardable c s origin d)
        → create_order c (reward c) origin (record { inherent = some d }) s
          ≡ (rewarded s d r.owner, ok tt)
    unfolding create_order reward_order order_placer_at slot_at
    create_order_rewards s origin d r =
        let found : any (is_order_of c s r.owner) (c.orders_placed r.proof d.para_id) ≡ true =
          any-true (is_order_of c s r.owner) r.order_placed
            ((is_order_of_iff s r.owner r.order).1 r.order_by_owner) in
        let some_authority : 0 < length s.authorities = length-pos s.authorities _ r.placer_turn in
        ground arith

    -- `create_order` on an inherent leaves the state as it is, or everything that a reward needs
    -- holds.
    pub create_order-cases :
        (s : State T) (origin : Origin) (d : InherentData T.StorageProof)
        → ((create_order c (reward c) origin (record { inherent = some d }) s).0 ≡ s)
          ⊎ IsRewardable c s origin d
    unfolding create_order reward_order order_placer_at slot_at
    create_order-cases s origin d =
        elim (Option-cases
          (c.relay_chain_state_proof d.para_id d.relay_state_root d.relay_storage_proof)) [
            | inl p ↦ inl (ground arith)
            | inr (proof, p) ↦
                elim (Option-cases
                  (get_elem? s.authorities (slot_at s d.relay_height % length s.authorities))) [
                    | inl a ↦ inl (ground arith)
                    | inr (placer, a) ↦ elim (Option-cases (c.key_owner s.system placer)) [
                      | inl k ↦ inl (ground arith)
                      | inr (owner, k) ↦
                          elim (Bool-cases
                            (any (is_order_of c s owner) (c.orders_placed proof d.para_id))) [
                              | inr n ↦ inl (ground arith)
                              | inl y ↦
                                  let (order, m, e) =
                                    any-Memᴰ (is_order_of c s owner)
                                      (c.orders_placed proof d.para_id) y in
                                  elim (Bool-cases (is_open s origin d)) [
                                    | inr shut ↦ inl (ground arith)
                                    | inl opened ↦ inr (record {
                                      inherent_origin = ground arith;
                                      not_bulk = ground arith;
                                      criteria_met = ground arith;
                                      later_slot = ground arith;
                                      proof = proof;
                                      proof_valid = p;
                                      placer = placer;
                                      placer_turn = a;
                                      owner = owner;
                                      owner_known = k;
                                      order = order;
                                      order_placed = m;
                                      order_by_owner = (is_order_of_iff s owner order).0 e;
                                    })
                                  ]
                            ]
                    ]
                  ]
          ]
