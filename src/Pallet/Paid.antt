-- ===== src/Pallet/Paid.antt =====
-- pallets/on-demand/src/lib.rs, `create_order`: what a reward leaves in the state.
use on_demand.Prelude.{ℕ, ◌≡◌, Option, none, some, ◌∷◌, ok, arith, Option-cases, inl, inr}
use on_demand.Primitives.{InherentData}
use on_demand.Pallet.State.{Types, AccountId, Balance, Origin, State, Config, order_placer_rewarded}
use on_demand.Pallet.Calls.{slot_at, reward, create_order}
use on_demand.Pallet.Orders.{IsRewardable, create_order_rewards, rewarded}

module _ {T : Types} where
  -- A settled slot: the storage of the other pallets after the mint and one more event, or, where
  -- nothing could be minted, the slot alone.
  abbrev pub settled : State T → ℕ → AccountId → Balance → Option T.System → State T
  settled s slot account amount none = record s { previous_slot = slot }
  settled s slot account amount (some system) = record s {
    previous_slot = slot;
    events = order_placer_rewarded account amount ∷ s.events;
    system = system;
  }

  module _ (c : Config T) where
    rewarded-settled :
        (s : State T) (d : InherentData T.StorageProof) (owner : T.ValidatorId)
        → let account = c.to_account_id owner in
          rewarded c s d owner
          ≡ settled s
              (slot_at s d.relay_height)
              account
              c.reward_size
              (c.mint_into s.system account c.reward_size)
    unfolding reward
    rewarded-settled s d owner =
        elim (Option-cases (c.mint_into s.system (c.to_account_id owner) c.reward_size)) [
          | inl failed ↦ ground arith
          | inr (system, minted) ↦ ground arith
        ]

    -- When everything that a reward needs holds, create_order succeeds and moves the previous slot
    -- to the slot of the inherent. If the reward can be minted into the account of the authority's
    -- owner, the other pallets' storage is that after the mint, and one event more tells of the
    -- account and the amount; if not, nothing else changes.
    pub create_order-settled :
        (s : State T) (origin : Origin) (d : InherentData T.StorageProof)
        → (r : IsRewardable c s origin d)
        → let account = c.to_account_id r.owner in
          create_order c (reward c) origin (record { inherent = some d }) s ≡ (
            settled s
                (slot_at s d.relay_height)
                account
                c.reward_size
                (c.mint_into s.system account c.reward_size),
            ok tt,
          )
    create_order-settled s origin d r =
        rw (rewarded-settled s d r.owner) at (create_order_rewards c s origin d r)
