-- ===== src/Pallet/Benchmarks.antt =====
-- pallets/on-demand/src/benchmarking.rs: what the benchmarks run and check.
use on_demand.Prelude.{
  ◌≡◌, Bool, true, Option, none, some, [], ◌∷◌, Outcome, ok, err, panicked, ◌>>=◌, if◌then◌else◌,
  arith,
}
use on_demand.Pallet.State.{
  Types, AccountId, Balance, Origin, Event, slot_width_set, threshold_parameter_set, bulk_mode_set,
  DispatchError, Call, State, Config,
}
use on_demand.Pallet.Calls.{DispatchResult, dispatch, reward}

-- `stop` is a call that fails.
pub data BenchmarkError : Type 0 where
  weightless : BenchmarkError
  stop : DispatchError → BenchmarkError

-- `BenchmarkHelper`, with the values that both runtimes' helpers give.
abbrev pub mock_threshold_parameter : Balance
mock_threshold_parameter = 1000

-- What the benchmarks take from elsewhere: an origin that the admin's filter lets through, if there is
-- one, the account they reward, and the events' derived equality.
pub record Benchmarking {T : Types} (c : Config T) : Type 0 where
  pub try_successful_origin : Option Origin
  pub successful : (o : Origin) → try_successful_origin ≡ some o → c.admin_origin o ≡ true
  pub threshold_parameter : T.ThresholdParameter
  pub rewardee : AccountId
  pub same_event : Event T → Event T → Bool
  pub same_event_refl : (e : Event T) → same_event e e ≡ true

abbrev pub BenchmarkResult : Type 0
BenchmarkResult = Outcome BenchmarkError (Unit {0})

module _ {T : Types} {c : Config T} (b : Benchmarking c) where
  -- It panics unless the newest event is the given one.
  unfoldable pub assert_last_event : Event T → State T → BenchmarkResult
  assert_last_event e s = elim s.events [
    | [] ↦ panicked
    | last ∷ _ ↦ if b.same_event last e then ok tt else panicked
  ]

  abbrev stop_on : DispatchResult → BenchmarkResult
  stop_on (ok _) = ok tt
  stop_on (err e) = err (stop e)
  stop_on panicked = panicked

  -- The three benchmarks of calls: by the admin's origin, and then the event is checked.
  unfoldable pub benchmark_call : Call T → Event T → State T → State T × BenchmarkResult
  unfolding assert_last_event
  benchmark_call call event s = elim b.try_successful_origin [
    | none ↦ (s, err weightless)
    | some origin ↦
        let (s', result) = dispatch c origin call s in
        (s', do _ ← stop_on result; assert_last_event event s')
  ]

  abbrev pub set_slot_width : State T → State T × BenchmarkResult
  set_slot_width = benchmark_call (Call.set_slot_width 1) (slot_width_set 1)

  abbrev pub set_threshold_parameter : State T → State T × BenchmarkResult
  set_threshold_parameter =
      benchmark_call (Call.set_threshold_parameter b.threshold_parameter)
        (threshold_parameter_set b.threshold_parameter)

  abbrev pub set_bulk_mode : State T → State T × BenchmarkResult
  set_bulk_mode = benchmark_call (Call.set_bulk_mode true) (bulk_mode_set true)

  abbrev pub on_reward : State T → State T × BenchmarkResult
  on_reward s = (reward c s b.rewardee, ok tt)

  abbrev pub should_place_order : State T → State T × BenchmarkResult
  should_place_order s = let answer = c.should_place_order s in (s, ok tt)

  -- From any state the checks of the benchmarks of calls pass, if the admin has an origin.
  pub benchmark_call_lem :
      (s : State T) (o : Origin)
      → b.try_successful_origin ≡ some o
      → ((set_slot_width s).1 ≡ ok tt)
        × ((set_threshold_parameter s).1 ≡ ok tt)
        × ((set_bulk_mode s).1 ≡ ok tt)
  unfolding benchmark_call assert_last_event dispatch
  benchmark_call_lem s o found =
      let admin = b.successful o found in
      let width = b.same_event_refl (slot_width_set 1) in
      let parameter = b.same_event_refl (threshold_parameter_set b.threshold_parameter) in
      let mode = b.same_event_refl (bulk_mode_set true) in
      (ground arith, ground arith, ground arith)
