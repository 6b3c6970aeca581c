-- ===== src/Pallet/Payments.antt =====
-- pallets/on-demand/src/lib.rs over many blocks: which slots are settled, for whom, and in which order.
use on_demand.Prelude.{
  ℕ, ◌<◌, ◌≡◌, refl, ◌⊎◌, inl, inr, none, some, List, [], ◌∷◌, arith, Option-cases,
}
use on_demand.Primitives.{InherentData}
use on_demand.Pallet.State.{
  Types, AccountId, Origin, State, Config, Call, Event, order_placer_rewarded,
}
use on_demand.Pallet.Orders.{IsRewardable, create_order-cases, create_order_rewards, rewarded}
use on_demand.Pallet.Calls.{
  slot_at, reward, create_order, dispatch, on_finalize, set_slot_width, set_threshold_parameter,
  set_bulk_mode,
}
use on_demand.Pallet.Rewards.{Change, call, apply, apply_all}

-- Each slot comes after the one before, from a first bound to the last slot.
pub Rises : ℕ → List (ℕ × AccountId) → ℕ → Type 0
Rises previous [] last = previous ≡ last
Rises previous ((slot, _) ∷ settled) last = (previous < slot) × Rises slot settled last

module _ {T : Types} where
  -- Who was paid, by the events, the last one first.
  abbrev pub recipients : List (Event T) → List AccountId
  recipients [] = []
  recipients (order_placer_rewarded rewardee _ ∷ es) = rewardee ∷ recipients es
  recipients (_ ∷ es) = recipients es

  -- Nothing is settled and nobody is paid.
  abbrev pub IsQuiet : State T → State T → Type 0
  IsQuiet s s' = (s'.previous_slot ≡ s.previous_slot) × (recipients s'.events ≡ recipients s.events)

  module _ (c : Config T) where
    -- An account is paid, unless the balance cannot be minted.
    abbrev pub IsPaid : State T → State T → AccountId → Type 0
    IsPaid s s' account =
        (recipients s'.events ≡ account ∷ recipients s.events)
        ⊎ ((c.mint_into s.system account c.reward_size ≡ none)
            × (recipients s'.events ≡ recipients s.events))

    -- A run of changes from a state to another as settlements of slots, the first one first. Each
    -- change leads to the state that the next one meets, and is quiet, or it is the call of an
    -- inherent that deserves a reward in the state that it meets, and pays the owner of the turn.
    pub data Settles : List (Change T) → State T → State T → List (ℕ × AccountId) → Type 0 where
      done : {s : State T} → Settles [] s s []
      quiet :
          {x : Change T} {xs : List (Change T)} {s s' : State T} {l : List (ℕ × AccountId)}
          → IsQuiet s (apply c x s)
          → Settles xs (apply c x s) s' l
          → Settles (x ∷ xs) s s' l
      settles :
          {x : Change T} {xs : List (Change T)} {s s' : State T} {l : List (ℕ × AccountId)}
          (origin : Origin) (d : InherentData T.StorageProof) (r : IsRewardable c s origin d)
          → x ≡ call origin (Call.create_order (record { inherent = some d }))
          → (apply c x s).previous_slot ≡ slot_at s d.relay_height
          → IsPaid s (apply c x s) (c.to_account_id r.owner)
          → Settles xs (apply c x s) s' l
          → Settles (x ∷ xs) s s' ((slot_at s d.relay_height, c.to_account_id r.owner) ∷ l)

    rewarded-IsPaid :
        (s : State T) (d : InherentData T.StorageProof) (owner : T.ValidatorId)
        → IsPaid s (rewarded c s d owner) (c.to_account_id owner)
    unfolding reward
    rewarded-IsPaid s d owner =
        elim (Option-cases (c.mint_into s.system (c.to_account_id owner) c.reward_size)) [
          | inl failed ↦ inr (failed, ground arith)
          | inr (system, minted) ↦ inl (ground arith)
        ]

    -- One change is quiet, or it is an inherent's call that settles a slot.
    abbrev IsStep : Change T → State T → State T → Type 0
    IsStep x s s' =
        IsQuiet s s'
        ⊎ ((origin : Origin) × (d : InherentData T.StorageProof) × (r : IsRewardable c s origin d)
            × (x ≡ call origin (Call.create_order (record { inherent = some d })))
            × (s'.previous_slot ≡ slot_at s d.relay_height)
            × IsPaid s s' (c.to_account_id r.owner))

    create_order-IsStep :
        (origin : Origin) (d : InherentData T.StorageProof) (s : State T)
        → IsStep
            (call origin (Call.create_order (record { inherent = some d })))
            s
            (create_order c (reward c) origin (record { inherent = some d }) s).0
    create_order-IsStep origin d s = elim (create_order-cases c s origin d) [
      | inl same ↦ inl (rw same (refl, refl))
      | inr r ↦
          rw (create_order_rewards c s origin d r)
            (inr (origin, d, r, refl, refl, rewarded-IsPaid s d r.owner))
    ]

    dispatch-IsStep :
        (origin : Origin) (k : Call T) (s : State T)
        → IsStep (call origin k) s (dispatch c origin k s).0
    unfolding dispatch
    dispatch-IsStep origin (Call.create_order inherent_data) s =
        elim (Option-cases inherent_data.inherent) [
          | inl nothing ↦ inl (unfold create_order in ground arith)
          | inr (d, given) ↦
              let e : inherent_data ≡ record { inherent = some d } =
                λ i. record { inherent = given i } in
              rw e (create_order-IsStep origin d s)
        ]
    dispatch-IsStep origin k s =
        inl (unfold set_slot_width set_threshold_parameter set_bulk_mode in ground arith)

    apply-IsStep : (x : Change T) (s : State T) → IsStep x s (apply c x s)
    unfolding apply on_finalize
    apply-IsStep (call origin k) s = dispatch-IsStep origin k s
    apply-IsStep _ s = inl (refl, refl)

    settlements_of :
        (xs : List (Change T)) (s : State T)
        → (l : List (ℕ × AccountId)) × Settles xs s (apply_all c xs s) l
    unfolding apply_all
    settlements_of [] s = ([], done)
    settlements_of (x ∷ xs) s =
        let (l, rest) = settlements_of xs (apply c x s) in
        elim (apply-IsStep x s) [
          | inl still ↦ (l, quiet still rest)
          | inr (origin, d, r, called, moved, paid) ↦ (_, settles origin d r called moved paid rest)
        ]

    Settles-Rises :
        {xs : List (Change T)} {s s' : State T} {l : List (ℕ × AccountId)}
        → Settles xs s s' l
        → Rises s.previous_slot l s'.previous_slot
    unfolding Rises
    Settles-Rises done = refl
    Settles-Rises (quiet still rest) = rw still.0 at (Settles-Rises rest)
    Settles-Rises (settles origin d r called moved paid rest) =
        (r.later_slot, rw moved at (Settles-Rises rest))

    -- However calls, ends of blocks and other pallets' writes follow one another, they come down to
    -- settlements of slots that rise from the previous slot of the start to that of the end. A change
    -- that settles one is itself the unsigned call of an inherent that deserves a reward in the state
    -- that the changes before it have led to, and it pays the owner of the slot's turn and nobody
    -- else, unless the mint fails; every other change pays nobody and leaves the previous slot.
    pub apply_all-Settles :
        (xs : List (Change T)) (s : State T)
        → (l : List (ℕ × AccountId)) × Settles xs s (apply_all c xs s) l
          × Rises s.previous_slot l (apply_all c xs s).previous_slot
    apply_all-Settles xs s = let (l, run) = settlements_of xs s in (l, run, Settles-Rises run)
