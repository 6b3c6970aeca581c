-- ===== src/Tests/Pallet.antt =====
-- Runs of the pallet, and of the inherent that it takes from the node.
use on_demand.Prelude.{
  ℕ, ◌+◌, ◌^◌, ◌*◌, ◌<◌, ◌≡◌, ◌≢◌, ◌⊎◌, ◌↔◌, refl, false, Option, none, some, List, [], ◌∷◌, ◌++◌,
  ok, err, panicked, arith, shr32, ◌%◌, get_elem?,
}
use mathlib.Core.List.{Memᴰ}
use on_demand.Primitives.{OrderInherentData}
use on_demand.Primitives.Keys.{
  paras_para_lifecycles, para_lifecycle, session_key_owner, session_key_owner_prefix,
  session_key_owner_misplaced,
}
use on_demand.Relay.{Header, RelayChainInterface}
use on_demand.Inherent.{InherentContainer}
use on_demand.Pallet.State.{
  AccountId, root, unsigned, Call, DispatchError, bad_origin, pallet_error,
  failed_to_get_order_placer_account,
}
use on_demand.Pallet.Calls.{slot_at, reward, create_order, dispatch, runtime_api, reward_order}
use on_demand.Pallet.Orders.{IsRewardable, create_order-cases}
use on_demand.Pallet.Paid.{settled, create_order-settled}
use on_demand.Pallet.Dispatch.{dispatch_not_admin}
use on_demand.Pallet.Stalls.{AreEarly, widened_run}
use on_demand.Pallet.Stages.{may_call}
use on_demand.Pallet.Failures.{HasBadProof, HasNoOwner, dispatch_failures}
use on_demand.Pallet.Rewards.{Change, call, finalize, elsewhere, apply_all}
use on_demand.Pallet.Payments.{Settles, Rises, recipients, apply_all-Settles}
use on_demand.Pallet.Criteria.{Fees}
use on_demand.Tests.Mocks.{hashing, types, config, state, inherent}

later : 1 < slot_at state 13
unfolding slot_at shr32
later = omega arith

turn : get_elem? state.authorities (slot_at state 13 % 2) ≡ some 42
unfolding slot_at shr32
turn = refl

abbrev rewardable : IsRewardable config state unsigned (inherent 9)
rewardable = record {
  inherent_origin = refl;
  not_bulk = refl;
  criteria_met = refl;
  later_slot = later;
  proof = (5, 42) ∷ [];
  proof_valid = refl;
  placer = 42;
  placer_turn = turn;
  owner = 42;
  owner_known = refl;
  order = (5, 42);
  order_placed = Memᴰ.head refl;
  order_by_owner = refl;
}

create_order-settled_example :
    create_order config (reward config) unsigned (record { inherent = some (inherent 9) }) state
    ≡ (settled state (slot_at state 13) 42 10 (config.mint_into state.system 42 10), ok tt)
create_order-settled_example = create_order-settled config state unsigned (inherent 9) rewardable

create_order-cases_example :
    ((create_order config
        (reward config)
        unsigned
        (record { inherent = some (inherent 9) })
        state).0
      ≡ state)
    ⊎ IsRewardable config state unsigned (inherent 9)
create_order-cases_example = create_order-cases config state unsigned (inherent 9)

abbrev changes : List (Change types)
changes =
    call unsigned (Call.create_order (record { inherent = some (inherent 9) }))
    ∷ finalize
    ∷ elsewhere 5
    ∷ call root (Call.set_slot_width 1)
    ∷ call unsigned (Call.create_order (record { inherent = some (inherent 9) }))
    ∷ []

apply_all-Settles_example :
    (l : List (ℕ × AccountId)) × Settles config changes state (apply_all config changes state) l
    × Rises 1 l (apply_all config changes state).previous_slot
apply_all-Settles_example = apply_all-Settles config changes state

dispatch_not_admin_example :
    runtime_api
      (dispatch config unsigned
        (Call.create_order (record { inherent = some (inherent 9) }))
        state).0
    ≡ runtime_api state
dispatch_not_admin_example =
    dispatch_not_admin config unsigned (Call.create_order (record { inherent = some (inherent 9) }))
      state refl

abbrev bad_proof : Call types
bad_proof = Call.create_order (record { inherent = some (inherent 8) })

crashed : (dispatch config unsigned bad_proof state).1 ≡ panicked
unfolding dispatch create_order reward_order slot_at shr32
crashed = refl

dispatch_failures_example :
    ((dispatch config unsigned bad_proof state).1 ≡ panicked
      ↔ HasBadProof config unsigned bad_proof state)
    × ((e : DispatchError)
        → (dispatch config unsigned bad_proof state).1 ≡ err e
          ↔ ((e ≡ bad_origin) × (may_call config unsigned bad_proof ≡ false))
            ⊎ ((e ≡ pallet_error failed_to_get_order_placer_account)
                × HasNoOwner config unsigned bad_proof state))
    × ((dispatch config unsigned bad_proof state).1 ≢ ok tt
        → (dispatch config unsigned bad_proof state).0 ≡ state)
dispatch_failures_example = dispatch_failures config unsigned bad_proof state

-- The slot of the relay height 13 is 0 by the new width, and the previous slot is 1.
abbrev later_changes : List (Change types)
later_changes =
    call unsigned (Call.create_order (record { inherent = some (inherent 9) }))
    ∷ finalize
    ∷ elsewhere 5
    ∷ call root (Call.set_bulk_mode false)
    ∷ call unsigned (Call.create_order (record { inherent = some (inherent 9) }))
    ∷ []

early : AreEarly config ((1 + 1) * 2 ^ 6) later_changes
early = (omega arith, (tt, (tt, (tt, (omega arith, tt)))))

widened_run_example :
    let s' = apply_all config (call root (Call.set_slot_width 6) ∷ later_changes) state in
    (s'.previous_slot ≡ 1) × (recipients s'.events ≡ recipients state.events)
widened_run_example = widened_run config root 6 later_changes state (omega arith) refl early

abbrev fees : Fees
fees = record {
  Weight = ℕ;
  block_weight = 30;
  base_weight = 2;
  weight_to_fee = λ w. 3 * w;
  saturating_mul_int = λ fee. 2 * fee;
  all_extrinsics_len = some 40;
  length_to_fee = λ n. n;
}

-- The key type of AuRa keys, and some bytes.
abbrev aura : List ℕ
aura = 0x61 ∷ 0x75 ∷ 0x72 ∷ 0x61 ∷ []

abbrev two : List ℕ
two = 1 ∷ 2 ∷ []

session_key_owner_misplaced_example :
    ((rest : List ℕ) × (session_key_owner hashing aura two ≡ paras_para_lifecycles ++ rest))
    × (session_key_owner hashing aura two ≢ para_lifecycle hashing 2000)
    × (session_key_owner hashing aura two ≢ session_key_owner_prefix ++ two)
session_key_owner_misplaced_example = session_key_owner_misplaced hashing aura two two 2000 refl

abbrev pub put :
    OrderInherentData ℕ → Option (OrderInherentData ℕ) → Option (Option (OrderInherentData ℕ))
put d none = some (some d)
put d (some _) = none

pub get-put :
    (d : OrderInherentData ℕ) (x : Option (OrderInherentData ℕ)) {y : Option (OrderInherentData ℕ)}
    → put d x ≡ some y
    → some y ≡ some (some d)
get-put d x e = ground arith

-- A container of one place, and a relay chain of one block.
abbrev pub container : InherentContainer ℕ
container = record {
  Container = Option (OrderInherentData ℕ);
  put_data = λ i. put;
  get_data = λ i x. some x;
  get-put = λ i. get-put;
}

abbrev pub header : Header
header = record { hash = 77; number = 13; state_root = 9 }

abbrev pub relay_chain : RelayChainInterface ℕ
relay_chain = record {
  get_storage_by_key = λ hash key. none;
  prove_read = λ hash keys. some hash;
  header = λ hash. some (some header);
  persisted_validation_data = λ hash para_id assumption. none;
  validation_code_hash = λ hash para_id assumption. none;
}
