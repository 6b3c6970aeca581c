-- ===== src/Service/Once.antt =====
-- services/order/src/lib.rs, the task over time: how often a node places an order.
use on_demand.Prelude.{
  ℕ, suc, ◌≤◌, ◌<◌, ◌≡◌, refl, inl, inr, Option, none, some, List, [], ◌∷◌, arith, Option-cases,
  Below, count_slot, Below-count, Below-mono, Outcome-cases,
}
use on_demand.Primitives.{H256, ParaId, OrderRecord}
use on_demand.Relay.{Header}
use on_demand.Service.Submit.{Order}
use on_demand.Service.Orders.{Node, Head, Orders, handle_relaychain_stream}
use on_demand.Service.Tasks.{
  follow_head, new_best_head, note_order, Turn, new_head, event, run_on_demand_task,
  OnDemandOrderPlaced,
}
use on_demand.Service.Due.{handle_relaychain_stream-cases}

-- The slots of the orders fall from one to the one before it, from the record's last slot on.
abbrev pub IsOnce : Orders → Type 0
IsOnce o = Below (suc o.order_record.last_slot) o.placed

-- What one turn does to the record: the last slot is kept or grows, with the one order of the turn.
pub data Advance (o : Orders) (o' : Orders) : Type 0 where
  idle : o'.order_record.last_slot ≡ o.order_record.last_slot → o'.placed ≡ o.placed → Advance o o'
  ordered :
      (order : Order)
      → o.order_record.last_slot < o'.order_record.last_slot
      → o'.placed ≡ (o'.order_record.last_slot, order) ∷ o.placed
      → Advance o o'

module _ {StorageProof PublicKey : Type 0} where
  handle-Advance :
      (n : Node StorageProof PublicKey) (h : Head) (o : Orders)
      → Advance o (handle_relaychain_stream n h o).0
  unfolding handle_relaychain_stream
  handle-Advance n h o = elim (handle_relaychain_stream-cases n h o) [
    | inl same ↦ idle (ground arith) (ground arith)
    | inr (slot, order, due, done) ↦ ordered order (ground (arith, due.later)) (ground arith)
  ]

  pub follow_head-Advance :
      (n : Node StorageProof PublicKey) (header : Header) (o : Orders)
      → Advance o (follow_head n header o).0
  unfolding follow_head
  follow_head-Advance n header o = elim (Option-cases (new_best_head n header)) [
    | inl nothing ↦ idle (ground arith) (ground arith)
    | inr (h, found) ↦ rw (found, follow_head) (handle-Advance n h o)
  ]

pub note_order-last_slot :
    (para_id : ParaId) (hash : H256) (e : Option (Option OnDemandOrderPlaced)) (r : OrderRecord)
    → (note_order para_id hash e r).last_slot ≡ r.last_slot
note_order-last_slot para_id hash (some (some e)) r = ground arith
note_order-last_slot para_id hash (some none) r = refl
note_order-last_slot para_id hash none r = refl

-- The record that the node keeps in memory from its start.
abbrev pub start : Orders
start = record { order_record = record { relay_block_hash = none; last_slot = 0 }; placed = [] }

pub Advance-IsOnce : {o o' : Orders} → Advance o o' → IsOnce o → IsOnce o'
Advance-IsOnce {o} {o'} (idle kept same) h =
    let e : suc o.order_record.last_slot ≡ suc o'.order_record.last_slot = omega arith in
    rw same (rw e at h)
Advance-IsOnce {o} {o'} (ordered order later placed) h = rw placed (
  omega arith,
  Below-mono (suc o.order_record.last_slot) o'.order_record.last_slot o.placed later h,
)

module _ {StorageProof PublicKey : Type 0} where
  pub run-IsOnce :
      (turns : List (Turn StorageProof PublicKey)) (o : Orders)
      → IsOnce o
      → IsOnce (run_on_demand_task turns o)
  unfolding run_on_demand_task
  run-IsOnce [] o h = h
  run-IsOnce (new_head n header ∷ turns) o h =
      let (o', result) = follow_head n header o in
      let kept : IsOnce o' = Advance-IsOnce (follow_head-Advance n header o) h in
      elim (Outcome-cases result) [
        | inl (done, e) ↦ rw (e, run_on_demand_task) (run-IsOnce turns o' kept)
        | inr (inl (failure, e)) ↦ rw (e, run_on_demand_task) (run-IsOnce turns o' kept)
        | inr (inr e) ↦ rw (e, run_on_demand_task) kept
      ]
  run-IsOnce (event para_id hash e ∷ turns) o h =
      run-IsOnce turns
        (record o { order_record = note_order para_id hash e.as_event o.order_record })
        (rw (note_order-last_slot para_id hash e.as_event o.order_record) h)

  -- However the heads and the events follow one another, and however the runtime, the criteria and
  -- the RPC node answer meanwhile, a node that starts with an empty record places at most one order
  -- for a slot.
  pub run_on_demand_task_once :
      (turns : List (Turn StorageProof PublicKey)) (slot : ℕ)
      → count_slot slot (run_on_demand_task turns start).placed ≤ 1
  run_on_demand_task_once turns slot =
      let o : Orders = run_on_demand_task turns start in
      Below-count (suc o.order_record.last_slot) slot o.placed (run-IsOnce turns start tt)
