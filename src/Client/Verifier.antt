-- ===== src/Client/Verifier.antt =====
-- client/consensus/on-demand-aura/src/equivocation_import_queue.rs: the verifier of imported blocks.
pub mod Accepts
use on_demand.Prelude.{
  ℕ, Bool, true, false, ◌||◌, Option, none, some, List, [], ◌∷◌, ◌++◌, Outcome, ok, err, panicked,
  ◌>>=◌, if◌then◌else◌,
}
use on_demand.Primitives.{H256}
use on_demand.Client.Defender.{LruMap, insert_and_check}

pub data VerifyError : Type 0 where
  could_not_fetch_authorities : VerifyError
  no_slot_duration : VerifyError
  excessive_equivocations : VerifyError
  future_slot : VerifyError
  invalid_seal : VerifyError
  could_not_create_inherent_data : VerifyError
  unable_to_check_inherents : VerifyError
  inherent_error : VerifyError
  unknown_inherent_error : VerifyError

pub data ForkChoiceStrategy : Type 0 where
  longest_chain : ForkChoiceStrategy
  custom : Bool → ForkChoiceStrategy

-- The types of the node's block, of AuRa's authorities and of `sp_inherents`.
pub record Types : Type 1 where
  pub Header : Type 0
  pub Body : Type 0
  pub Digest : Type 0
  pub Authorities : Type 0
  pub Providers : Type 0
  pub InherentData : Type 0
  pub InherentError : Type 0

-- `skip_execution_checks` and `with_state` are what those methods answer.
pub record BlockImportParams (T : Types) : Type 0 where
  pub header : T.Header
  pub body : Option T.Body
  pub post_digests : List T.Digest
  pub post_hash : Option H256
  pub fork_choice : Option ForkChoiceStrategy
  pub skip_execution_checks : Bool
  pub with_state : Bool

-- The answer of `check_header_slot_and_seal`.
pub data SealCheck (T : Types) : Type 0 where
  checked : T.Header → ℕ → T.Digest → SealCheck T
  deferred : T.Header → ℕ → SealCheck T
  invalid : SealCheck T

pub record CheckInherentsResult (T : Types) : Type 0 where
  pub is_ok : Bool
  pub errors : List T.InherentError

-- The client's runtime API, AuRa's standalone functions, the system's clock, and the providers of
-- inherent data. `try_handle_error` does not know an error, fails on it, or settles it.
pub record Env (T : Types) : Type 0 where
  pub hash : T.Header → H256
  pub parent_hash : T.Header → H256
  pub fetch_authorities : H256 → Option T.Authorities
  pub slot_duration : H256 → Option ℕ
  pub timestamp : ℕ
  pub slot_from_timestamp : ℕ → ℕ → ℕ
  pub check_header_slot_and_seal : ℕ → T.Header → T.Authorities → SealCheck T
  pub create_inherent_data_providers : H256 → Option T.Providers
  pub create_inherent_data : T.Providers → Option T.InherentData
  pub check_inherents : H256 → T.Header → T.Body → T.InherentData → Option (CheckInherentsResult T)
  pub try_handle_error : T.Providers → T.InherentError → Option (Option (Unit {0}))

abbrev pub or_err {ℓ} : {A : Type ℓ} → VerifyError → Option A → Outcome VerifyError A
or_err e none = err e
or_err e (some a) = ok a

module _ (l : LruMap) {T : Types} (env : Env T) where
  open env use {
    hash, parent_hash, fetch_authorities, slot_duration, timestamp, slot_from_timestamp,
    check_header_slot_and_seal, create_inherent_data_providers, create_inherent_data,
    check_inherents, try_handle_error,
  }

  unfoldable pub slot_now : ℕ → ℕ
  slot_now duration = slot_from_timestamp timestamp duration

  -- A block whose seal holds is counted for its slot, and refused if the slot has too many.
  unfoldable pub count_block :
      BlockImportParams T
      → T.Header
      → ℕ
      → T.Digest
      → l.Map
      → l.Map × Outcome VerifyError (BlockImportParams T)
  count_block block_params pre_header slot seal_digest cache =
      elim (insert_and_check l slot cache) [
        | ok (cache', true) ↦ (cache', err excessive_equivocations)
        | ok (cache', false) ↦ (
          cache',
          ok (record block_params {
            header = pre_header;
            post_digests = block_params.post_digests ++ seal_digest ∷ [];
            fork_choice = some longest_chain;
            post_hash = some (hash block_params.header);
          }),
        )
        | err _ ↦ (cache, panicked)
        | panicked ↦ (cache, panicked)
      ]

  -- The check of the seal, and the count of the blocks of its slot.
  unfoldable pub check_seal :
      BlockImportParams T → l.Map → l.Map × Outcome VerifyError (BlockImportParams T)
  unfolding slot_now count_block
  check_seal block_params cache =
      let parent = parent_hash block_params.header in
      elim (fetch_authorities parent) [
        | none ↦ (cache, err could_not_fetch_authorities)
        | some authorities ↦ elim (slot_duration parent) [
          | none ↦ (cache, err no_slot_duration)
          | some duration ↦
              elim (check_header_slot_and_seal (slot_now duration) block_params.header
                authorities) [
                  | checked pre_header slot seal_digest ↦
                      count_block block_params pre_header slot seal_digest cache
                  | deferred _ _ ↦ (cache, err future_slot)
                  | invalid ↦ (cache, err invalid_seal)
                ]
        ]
      ]

  unfoldable pub handle_errors : T.Providers → List T.InherentError → Outcome VerifyError (Unit {0})
  handle_errors providers [] = ok tt
  handle_errors providers (e ∷ errors) = elim (try_handle_error providers e) [
    | none ↦ err unknown_inherent_error
    | some none ↦ err inherent_error
    | some (some _) ↦ handle_errors providers errors
  ]

  -- The check of the inherents of a block that comes with its body.
  unfoldable pub check_body : H256 → T.Header → Option T.Body → Outcome VerifyError (Unit {0})
  unfolding handle_errors
  check_body parent header none = ok tt
  check_body parent header (some body) = do
    providers ← or_err could_not_create_inherent_data (create_inherent_data_providers parent)
    inherent_data ← or_err could_not_create_inherent_data (create_inherent_data providers)
    inherent_res ←
        or_err unable_to_check_inherents (check_inherents parent header body inherent_data)
    if inherent_res.is_ok then ok tt else handle_errors providers inherent_res.errors

  unfoldable pub verify :
      BlockImportParams T → l.Map → l.Map × Outcome VerifyError (BlockImportParams T)
  unfolding check_seal check_body
  verify block_params cache =
      if block_params.skip_execution_checks || block_params.with_state
      then (cache, ok (record block_params { fork_choice = some (custom block_params.with_state) }))
      else let (cache', sealed) = check_seal block_params cache in
        (
          cache',
          sealed >>= λ p.
              check_body (parent_hash block_params.header) p.header p.body >>= λ _. ok p,
        )
