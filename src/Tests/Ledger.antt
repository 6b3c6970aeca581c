-- ===== src/Tests/Ledger.antt =====
-- Runs of the order service over time.
use on_demand.Prelude.{
  ℕ, ◌≡◌, refl, true, ◌≤◌, none, some, List, [], ◌∷◌, ok, arith, shr32, shl32, count_slot,
}
use on_demand.Service.Config.{current_slot, order_placer}
use on_demand.Service.Chain.{
  find_pool, on_demand_cores_available, is_parathread, get_spot_price, CoreAssignment,
}
use on_demand.Service.Submit.{submit_order, new, sign}
use on_demand.Service.Tasks.{run_on_demand_task, follow_head, new_best_head, Turn, event}
use on_demand.Service.Once.{start}
use on_demand.Service.Orders.{Head, place_order, place_in_slot}
use on_demand.Service.Exclusive.{SeesAlike, place_order_exclusive}
use on_demand.Service.Live.{IsReady, run_on_demand_task_live}
use on_demand.Service.Ledger.{Fills, vacant, ledger, run_on_demand_task-Fills}
use on_demand.Tests.Service.{node, head, the_order, turns, placed, first_record}

-- At the head of height 13, in slot 3.
ready : IsReady (node CoreAssignment.other) head 3 the_order
unfolding is_parathread get_spot_price on_demand_cores_available find_pool order_placer submit_order
    new sign current_slot shr32 shl32
ready = record {
  parathread = refl;
  para_head = 500;
  decoded = refl;
  not_bulk = refl;
  cores_unavailable = refl;
  width = 2;
  width_known = refl;
  slot_of_height = refl;
  authorities = 41 ∷ 42 ∷ [];
  authorities_known = refl;
  placer = 42;
  turn = refl;
  own_key = refl;
  criteria_met = refl;
  price = 30;
  price_known = refl;
  accepted = refl;
}

best_head :
    new_best_head (node CoreAssignment.other) (record { hash = 77; number = 13; state_root = 9 })
    ≡ some head
unfolding new_best_head
best_head = refl

abbrev before : List (Turn ℕ ℕ)
before = event 2000 70 (record { as_event = some none }) ∷ []

nothing_yet : (run_on_demand_task before start).order_record.last_slot ≤ 3
unfolding run_on_demand_task
nothing_yet = omega arith

run_on_demand_task_live_example :
    let met =
      (follow_head
        (node CoreAssignment.other)
        (record { hash = 77; number = 13; state_root = 9 })
        (run_on_demand_task before start)).0 in
    (count_slot 3 met.placed ≡ 1) × (count_slot 3 (run_on_demand_task turns met).placed ≡ 1)
run_on_demand_task_live_example =
    run_on_demand_task_live before turns (node CoreAssignment.other)
      (record { hash = 77; number = 13; state_root = 9 }) head 3 the_order best_head ready
      (omega arith) nothing_yet

run_on_demand_task-Fills_example :
    let o = run_on_demand_task turns start in
    Fills vacant (ledger o) × Fills (ledger o) (ledger (run_on_demand_task turns o))
run_on_demand_task-Fills_example = run_on_demand_task-Fills turns turns

-- The same node at two heads of slot 3.
abbrev next_head : Head
next_head = record head { height = 14; r_hash = 79 }

placed_next :
    place_order (node CoreAssignment.other) next_head first_record ≡ ok (some (3, the_order))
unfolding place_order place_in_slot is_parathread get_spot_price on_demand_cores_available find_pool
    order_placer submit_order new sign current_slot shr32 shl32
placed_next = refl

abbrev alike : SeesAlike (node CoreAssignment.other) (node CoreAssignment.other)
alike = record {
  same_authorities = λ p q a b here there. ground arith;
  same_width = λ p q a b here there. ground arith;
}

place_order_exclusive_example :
    (key : ℕ) × (para_head : ℕ) × (authorities : List ℕ) × (width : ℕ) × ((node
          CoreAssignment.other).parachain.authorities
        para_head
      ≡ some authorities)
    × ((node CoreAssignment.other).parachain.slot_width para_head ≡ some width)
    × (order_placer authorities 13 width ≡ ok key)
    × (order_placer authorities 14 width ≡ ok key)
    × ((node CoreAssignment.other).keystore.has_keys key ≡ true)
    × ((node CoreAssignment.other).keystore.has_keys key ≡ true)
place_order_exclusive_example =
    place_order_exclusive (node CoreAssignment.other) (node CoreAssignment.other) head next_head
      first_record first_record 3 the_order the_order alike placed placed_next
