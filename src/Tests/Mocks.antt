-- ===== src/Tests/Mocks.antt =====
-- Small instances of what the code takes from elsewhere: hash functions, a relay chain, a runtime.
use on_demand.Prelude.{
  ◌<◌, ◌≡◌, ◌++◌, length, arith, ℕ, zero, suc, ◌+◌, refl, Bool, true, false, none, some, List, [],
  ◌∷◌, ◌==◌, ℕ_discrete, if◌then◌else◌,
}
use on_demand.Primitives.{InherentData}
use on_demand.Primitives.Keys.{Hashing}
use on_demand.Pallet.State
use on_demand.Pallet.State.{Origin, custom}

abbrev pub zeros : ℕ → List ℕ
zeros zero = []
zeros (suc n) = 0 ∷ zeros n

length-append : (xs ys : List ℕ) → length (xs ++ ys) ≡ length xs + length ys
length-append [] ys = omega arith
length-append (x ∷ xs) ys = omega (arith, length-append xs ys)

pub length-encode_key :
    (key_type acc : List ℕ)
    → length key_type ≡ 4
    → 4 + length acc < length (key_type ++ (length acc ∷ acc))
length-encode_key key_type acc four = omega (arith, length-append key_type (length acc ∷ acc))

-- A number stands for its four bytes.
abbrev pub hashing : Hashing
hashing = record {
  blake2_128 = λ _. zeros 16;
  twox_64 = λ _. zeros 8;
  twox_256 = λ _. zeros 32;
  encode_u32 = λ n. n ∷ 0 ∷ 0 ∷ 0 ∷ [];
  encode_key = λ key_type acc. key_type ++ (length acc ∷ acc);
  length-encode_u32 = λ n. refl;
  encode_u32-injective = λ m n small small' e. ground arith;
  length-encode_key = length-encode_key;
  length-blake2_128 = λ _. refl;
  length-twox_64 = λ _. refl;
  length-twox_256 = λ _. refl;
}

-- A runtime whose authorities, validators and accounts are numbers, and whose relay proofs hold the
-- orders that were placed.
abbrev pub types : State.Types
types = record {
  AuthorityId = ℕ;
  ValidatorId = ℕ;
  ThresholdParameter = ℕ;
  StorageProof = ℕ;
  StateProof = List (ℕ × ℕ);
  System = ℕ;
}

abbrev is_custom : Origin → Bool
is_custom (custom n) = n == 7
is_custom _ = false

abbrev pub config : State.Config types
config = record {
  admin_origin = is_custom;
  should_place_order = λ s. true;
  orders_placed = λ proof para_id. proof;
  relay_chain_state_proof =
      λ para_id root proof. if proof == root then some ((5, 42) ∷ []) else none;
  key_owner = λ system authority. some authority;
  validator_id_of = λ system account. some account;
  validator_discrete = ℕ_discrete;
  to_account_id = λ validator. validator;
  reward_size = 10;
  mint_into = λ system account amount. some (system + amount);
  aura_authorities = λ system. 41 ∷ 42 ∷ [];
}

abbrev pub state : State.State types
state = record {
  authorities = 41 ∷ 42 ∷ [];
  slot_width = 2;
  threshold_parameter = 0;
  bulk_mode = none;
  previous_slot = 1;
  events = [];
  system = 0;
}

-- The order of account 42 in slot 3, with a proof that holds, and with one that does not.
abbrev pub inherent : ℕ → InherentData ℕ
inherent proof = record {
  relay_storage_proof = proof;
  relay_state_root = 9;
  relay_height = 13;
  para_id = 2000;
}
