-- ===== src/Service/Ledger.antt =====
-- services/order/src/lib.rs, the task over time, against a specification: a ledger of slots in which
-- a slot is filled once and for good.
use on_demand.Prelude.{
  ℕ, suc, ◌≤◌, ◌≡◌, ◌≢◌, refl, inl, inr, Option, some, none, List, [], ◌∷◌, arith, ◌∙◌, leb, Below,
  Bool-cases, Outcome-cases, ◌==◌, if◌then◌else◌,
}
use mathlib.Core.Path.{subst}
use on_demand.Service.Submit.{Order}
use on_demand.Service.Orders.{Orders}
use on_demand.Service.Tasks.{Turn, new_head, event, follow_head, note_order, run_on_demand_task}
use on_demand.Service.Once.{
  IsOnce, Advance, idle, ordered, start, follow_head-Advance, note_order-last_slot, Advance-IsOnce,
  run-IsOnce,
}

-- The specification's state: the order of each slot, if there is one.
abbrev pub Ledger : Type 0
Ledger = ℕ → Option Order

abbrev pub vacant : Ledger
vacant slot = none

-- The specification's one step fills a vacant slot that comes after every filled one.
pub data Fill (l : Ledger) (l' : Ledger) : Type 0 where
  fill :
      (slot : ℕ) (order : Order)
      → ((later : ℕ) → slot ≤ later → l later ≡ none)
      → l' slot ≡ some order
      → ((other : ℕ) → other ≢ slot → l' other ≡ l other)
      → Fill l l'

-- Any number of steps; ledgers are compared slot by slot.
pub data Fills : Ledger → Ledger → Type 0 where
  same : {l l' : Ledger} → ((slot : ℕ) → l' slot ≡ l slot) → Fills l l'
  step : {l m r : Ledger} → Fill l m → Fills m r → Fills l r

-- What the task's orders say of each slot.
pub find_slot : ℕ → List (ℕ × Order) → Option Order
find_slot slot [] = none
find_slot slot ((s, order) ∷ placed) = if s == slot then some order else find_slot slot placed

abbrev pub ledger : Orders → Ledger
ledger o slot = find_slot slot o.placed

Below-find_slot :
    (bound slot : ℕ) (placed : List (ℕ × Order))
    → Below bound placed
    → bound ≤ slot
    → find_slot slot placed ≡ none
unfolding find_slot
Below-find_slot bound slot [] b h = refl
Below-find_slot bound slot ((s, order) ∷ placed) b h =
    ground (arith, Below-find_slot s slot placed b.1)

-- A turn that places an order is a step; one that does not leaves the ledger as it is.
Advance-Fills :
    {o o' : Orders} {l : Ledger}
    → IsOnce o
    → Advance o o'
    → Fills (ledger o') l
    → Fills (ledger o) l
unfolding find_slot
Advance-Fills {o} {o'} {l} once (idle kept alike) rest =
    subst (λ placed. Fills (λ slot. find_slot slot placed) l) alike rest
Advance-Fills {o} {o'} once (ordered order later placed) rest =
    let slot = o'.order_record.last_slot in
    step
      (fill slot order
        (λ s h. Below-find_slot (suc o.order_record.last_slot) s o.placed once (omega arith))
        (rw placed (ground arith)) (λ other ne. rw placed (ground arith)))
      rest

module _ {StorageProof PublicKey : Type 0} where
  run-Fills :
      (turns : List (Turn StorageProof PublicKey)) (o : Orders)
      → IsOnce o
      → Fills (ledger o) (ledger (run_on_demand_task turns o))
  unfolding run_on_demand_task
  run-Fills [] o once = same (λ slot. refl)
  run-Fills (new_head n header ∷ turns) o once =
      let (o', result) = follow_head n header o in
      let turn : Advance o o' = follow_head-Advance n header o in
      let rest : Fills (ledger o') (ledger (run_on_demand_task turns o')) =
        run-Fills turns o' (Advance-IsOnce turn once) in
      elim (Outcome-cases result) [
        | inl (done, e) ↦ rw (e, run_on_demand_task) (Advance-Fills once turn rest)
        | inr (inl (failure, e)) ↦ rw (e, run_on_demand_task) (Advance-Fills once turn rest)
        | inr (inr e) ↦ rw (e, run_on_demand_task) (Advance-Fills once turn (same (λ slot. refl)))
      ]
  run-Fills (event para_id hash e ∷ turns) o once =
      run-Fills turns
        (record o { order_record = note_order para_id hash e.as_event o.order_record })
        (rw (note_order-last_slot para_id hash e.as_event o.order_record) once)

  -- The task refines the ledger: from an empty record, whatever the turns are, its orders are those
  -- of a ledger in which each step fills one slot, after every slot filled so far, and that holds
  -- between any two times of its run.
  pub run_on_demand_task-Fills :
      (before after : List (Turn StorageProof PublicKey))
      → let o = run_on_demand_task before start in
        Fills vacant (ledger o) × Fills (ledger o) (ledger (run_on_demand_task after o))
  unfolding find_slot
  run_on_demand_task-Fills before after = (
    run-Fills before start tt,
    run-Fills after (run_on_demand_task before start) (run-IsOnce before start tt),
  )

-- On the ledger, a filled slot keeps its order.
Fills-keeps :
    {l l' : Ledger} (slot : ℕ) (order : Order)
    → Fills l l'
    → l slot ≡ some order
    → l' slot ≡ some order
Fills-keeps slot order (same alike) found = alike slot ∙ found
Fills-keeps slot order (step (fill s new vacant_from filled others) rest) found =
    elim (Bool-cases (leb s slot)) [
      | inl after ↦ absurd (ground (arith, vacant_from slot))
      | inr before ↦ Fills-keeps slot order rest (others slot (λ e. ground arith) ∙ found)
    ]

module _ {StorageProof PublicKey : Type 0} where
  -- The order of a slot is never replaced by another and never lost, however the task goes on.
  pub run_on_demand_task-keeps :
      (before after : List (Turn StorageProof PublicKey)) (slot : ℕ) (order : Order)
      → let o = run_on_demand_task before start in
        find_slot slot o.placed ≡ some order
        → find_slot slot (run_on_demand_task after o).placed ≡ some order
  run_on_demand_task-keeps before after slot order found =
      Fills-keeps slot order (run_on_demand_task-Fills before after).1 found
