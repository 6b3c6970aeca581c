-- ===== src/Service/Live.antt =====
-- services/order/src/lib.rs, the task over time: that a slot gets its order.
use on_demand.Prelude.{
  ℕ, suc, ◌≤◌, ◌<◌, ◌≡◌, inl, inr, true, false, some, List, [], ◌∷◌, arith, ok, count_slot,
  Below-count, Outcome-cases, ◌==◌, Bool-cases,
}
use on_demand.Primitives.{H256}
use on_demand.Relay.{Header}
use on_demand.Service.Config.{current_slot, order_placer}
use on_demand.Service.Chain.{get_spot_price, is_parathread, on_demand_cores_available}
use on_demand.Service.Submit.{Order, submit_order}
use on_demand.Service.Orders.{Node, Head, Orders, handle_relaychain_stream}
use on_demand.Service.Tasks.{
  Turn, new_head, event, follow_head, new_best_head, note_order, run_on_demand_task,
}
use on_demand.Service.Due.{IsDue, place_order_due}
use on_demand.Service.Once.{
  IsOnce, Advance, idle, ordered, start, follow_head-Advance, note_order-last_slot, run-IsOnce,
  Advance-IsOnce,
}

module _ {StorageProof PublicKey : Type 0} (n : Node StorageProof PublicKey) where
  open n use {hashing, codec, relay_chain, parachain, keystore, criteria, rpc, para_id}

  -- What a head asks of the node's surroundings for an order; the record plays no part.
  pub record IsReady (h : Head) (slot : ℕ) (order : Order) : Type 0 where
    pub parathread : is_parathread hashing codec relay_chain h.r_hash para_id ≡ ok true
    pub para_head : H256
    pub decoded : parachain.decode_head h.validation_data.parent_head ≡ some para_head
    pub not_bulk : parachain.bulk_mode para_head ≡ some false
    pub cores_unavailable :
        on_demand_cores_available hashing codec relay_chain h.r_hash ≡ some false
    pub width : ℕ
    pub width_known : parachain.slot_width para_head ≡ some width
    pub slot_of_height : slot ≡ current_slot h.height width
    pub authorities : List PublicKey
    pub authorities_known : parachain.authorities para_head ≡ some authorities
    pub placer : PublicKey
    pub turn : order_placer authorities h.height width ≡ ok placer
    pub own_key : keystore.has_keys placer ≡ true
    pub criteria_met : criteria h.height ≡ true
    pub price : ℕ
    pub price_known : get_spot_price hashing codec relay_chain h.r_hash ≡ some price
    pub accepted : submit_order rpc para_id h.height width price keystore ≡ ok order

  IsReady-IsDue :
      {h : Head} {last_slot slot : ℕ} {order : Order}
      → IsReady h slot order
      → last_slot < slot
      → IsDue n h last_slot slot order
  IsReady-IsDue r later = record {
    parathread = r.parathread;
    para_head = r.para_head;
    decoded = r.decoded;
    not_bulk = r.not_bulk;
    cores_unavailable = r.cores_unavailable;
    width = r.width;
    width_known = r.width_known;
    slot_of_height = r.slot_of_height;
    later = later;
    authorities = r.authorities;
    authorities_known = r.authorities_known;
    placer = r.placer;
    turn = r.turn;
    own_key = r.own_key;
    criteria_met = r.criteria_met;
    price = r.price;
    price_known = r.price_known;
    accepted = r.accepted;
  }

-- The record's last slot, once it names one, has an order.
abbrev pub IsBacked : Orders → Type 0
IsBacked o = 0 < o.order_record.last_slot → 1 ≤ count_slot o.order_record.last_slot o.placed

Advance-IsBacked : {o o' : Orders} → Advance o o' → IsBacked o → IsBacked o'
Advance-IsBacked (idle kept same) b = λ p. rw (kept, same) (b (rw kept at p))
Advance-IsBacked {o} {o'} (ordered order later placed) b = λ p. rw placed (ground arith)

-- No order is taken back.
Advance-count :
    {o o' : Orders} (slot : ℕ) → Advance o o' → count_slot slot o.placed ≤ count_slot slot o'.placed
Advance-count slot (idle kept same) = rw same (omega arith)
Advance-count {o} {o'} slot (ordered order later placed) = rw placed (ground arith)

module _ {StorageProof PublicKey : Type 0} where
  run-IsBacked :
      (turns : List (Turn StorageProof PublicKey)) (o : Orders)
      → IsBacked o
      → IsBacked (run_on_demand_task turns o)
  unfolding run_on_demand_task
  run-IsBacked [] o b = b
  run-IsBacked (new_head n header ∷ turns) o b =
      let (o', result) = follow_head n header o in
      let kept : IsBacked o' = Advance-IsBacked (follow_head-Advance n header o) b in
      elim (Outcome-cases result) [
        | inl (done, e) ↦ rw (e, run_on_demand_task) (run-IsBacked turns o' kept)
        | inr (inl (failure, e)) ↦ rw (e, run_on_demand_task) (run-IsBacked turns o' kept)
        | inr (inr e) ↦ rw (e, run_on_demand_task) kept
      ]
  run-IsBacked (event para_id hash e ∷ turns) o b =
      run-IsBacked turns
        (record o { order_record = note_order para_id hash e.as_event o.order_record })
        (rw (note_order-last_slot para_id hash e.as_event o.order_record) b)

  run-count :
      (turns : List (Turn StorageProof PublicKey)) (slot : ℕ) (o : Orders)
      → count_slot slot o.placed ≤ count_slot slot (run_on_demand_task turns o).placed
  unfolding run_on_demand_task
  run-count [] slot o = omega arith
  run-count (new_head n header ∷ turns) slot o =
      let (o', result) = follow_head n header o in
      let more = Advance-count slot (follow_head-Advance n header o) in
      elim (Outcome-cases result) [
        | inl (done, e) ↦ rw (e, run_on_demand_task) (omega (arith, more, run-count turns slot o'))
        | inr (inl (failure, e)) ↦
            rw (e, run_on_demand_task) (omega (arith, more, run-count turns slot o'))
        | inr (inr e) ↦ rw (e, run_on_demand_task) more
      ]
  run-count (event para_id hash e ∷ turns) slot o =
      run-count turns slot
        (record o { order_record = note_order para_id hash e.as_event o.order_record })

  -- At a ready head whose slot is not over, the slot has its order afterwards, now or from before.
  follow_head-ready :
      (n : Node StorageProof PublicKey) (header : Header) (h : Head) (slot : ℕ) (order : Order)
      (o : Orders)
      → new_best_head n header ≡ some h
      → IsReady n h slot order
      → 0 < slot
      → o.order_record.last_slot ≤ slot
      → IsBacked o
      → 1 ≤ count_slot slot (follow_head n header o).0.placed
  unfolding follow_head handle_relaychain_stream
  follow_head-ready n header h slot order o found ready pos not_over backed =
      elim (Bool-cases (o.order_record.last_slot == slot)) [
        | inl same ↦ ground (arith, backed, Advance-count slot (follow_head-Advance n header o))
        | inr earlier ↦ ground (
          arith,
          place_order_due n h o.order_record slot order (IsReady-IsDue n ready (ground arith)),
        )
      ]

  -- A node that starts with an empty record and at some time meets a best head at which all that
  -- the task asks of its surroundings is given, for a slot other than 0 and not before the record's
  -- last one, has exactly one order for that slot after it, and keeps it so however the task goes on.
  pub run_on_demand_task_live :
      (before after : List (Turn StorageProof PublicKey)) (n : Node StorageProof PublicKey)
      (header : Header) (h : Head) (slot : ℕ) (order : Order)
      → new_best_head n header ≡ some h
      → IsReady n h slot order
      → 0 < slot
      → (run_on_demand_task before start).order_record.last_slot ≤ slot
      → let met = (follow_head n header (run_on_demand_task before start)).0 in
        (count_slot slot met.placed ≡ 1)
        × (count_slot slot (run_on_demand_task after met).placed ≡ 1)
  run_on_demand_task_live before after n header h slot order found ready pos not_over =
      let o : Orders = run_on_demand_task before start in
      let met : Orders = (follow_head n header o).0 in
      let done : Orders = run_on_demand_task after met in
      let once : IsOnce met =
        Advance-IsOnce (follow_head-Advance n header o) (run-IsOnce before start tt) in
      let least =
        follow_head-ready n header h slot order o found ready pos not_over
          (run-IsBacked before start (λ p. absurd (omega arith))) in
      let most = Below-count (suc met.order_record.last_slot) slot met.placed once in
      let later =
        Below-count (suc done.order_record.last_slot) slot done.placed
          (run-IsOnce after met once) in
      (omega arith, omega (arith, run-count after slot met))
