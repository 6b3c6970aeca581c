-- ===== src/Tests/Template.antt =====
-- Runs of the template's criterion over a pool.
use on_demand.Prelude.{ℕ, ◌+◌, ◌≤◌, ◌≡◌, ◌↔◌, refl, true, some, List, [], ◌∷◌, arith}
use mathlib.Core.List.{Permᴰ}
use mathlib.Core.Quot
use on_demand.Template.Node.{ParachainClient, should_place_order, known_fees}
use on_demand.Template.Pool.{of_list, should_place_order-pool_fees}

abbrev client : ParachainClient ℕ
client = record {
  encoded_length = λ tx. tx;
  query_final_fee = λ tx length. some (tx + length);
  threshold_parameter = some 10;
}

abbrev ready : List ℕ
ready = 2 ∷ 3 ∷ []

abbrev handed_out : List ℕ
handed_out = 3 ∷ 2 ∷ []

one_pool : of_list handed_out ≡ of_list ready
one_pool = Quot.sound (Permᴰ.swap refl refl)

should_place_order-pool_fees_example :
    (should_place_order client handed_out ≡ true) ↔ (10 ≤ known_fees client ready)
should_place_order-pool_fees_example =
    should_place_order-pool_fees client ready handed_out 10 one_pool (omega arith) refl
