-- ===== src/Template/Startup/Effects.antt =====
-- template/node/src/service.rs: what starting a node leaves behind, and the code that may fail on
-- the way.
use on_demand.Prelude.{
  ℕ, Option, none, some, List, [], ◌∷◌, ◌++◌, length, Outcome, ok, err, panicked,
}
use on_demand.Primitives.{OrderRecord}

-- `sc_service::Error`, by the call that it comes from.
pub data StartError : Type 0 where
  telemetry_failed : StartError
  parts_failed : StartError
  relay_chain_interface_failed : StartError
  network_failed : StartError
  offchain_workers_failed : StartError
  tasks_failed : StartError
  overseer_failed : StartError
  relay_chain_tasks_failed : StartError

-- A record in memory behind an `Arc<Mutex<_>>`: its number among those that were made.
abbrev pub RecordRef : Type 0
RecordRef = ℕ

-- The tasks, newest first, and the order records in memory.
pub record Effects (Task : Type 0) : Type 0 where
  pub tasks : List (Task)
  pub records : List OrderRecord

-- A step may add effects, and then return, fail or panic.
abbrev pub M : Type 0 → Type 0 → Type 0
M Task A = Effects Task → Effects Task × Outcome StartError A

module _ {Task : Type 0} where
  unfoldable pub pure : {A : Type 0} → A → M Task A
  pure a w = (w, ok a)

  infixl 5 ◌>>=◌ ◌>>◌
  unfoldable pub ◌>>=◌ : {A B : Type 0} → M Task A → (A → M Task B) → M Task B
  ◌>>=◌ m f w =
      let (w', result) = m w in
      elim result [ ok a ↦ f a w' | err e ↦ (w', err e) | panicked ↦ (w', panicked) ]

  unfoldable pub ◌>>◌ : {B : Type 0} → M Task (Unit {0}) → M Task B → M Task B
  unfolding ◌>>=◌
  m >> k = m >>= λ _. k

  -- A call of a library, whose error is passed on by `?`.
  unfoldable pub call : {A : Type 0} → StartError → Option A → M Task A
  call e none w = (w, err e)
  call e (some a) w = (w, ok a)

  -- `expect`.
  unfoldable pub expect : {A : Type 0} → Option A → M Task A
  expect none w = (w, panicked)
  expect (some a) w = (w, ok a)

  unfoldable pub spawn : Task → M Task (Unit {0})
  spawn t w = (record w { tasks = t ∷ w.tasks }, ok tt)

  -- `Arc::new(Mutex::new(r))`.
  unfoldable pub new_record : OrderRecord → M Task RecordRef
  new_record r w = (record w { records = w.records ++ r ∷ [] }, ok (length w.records))
