-- ===== src/Service/Config.antt =====
-- services/order/src/config.rs: whose turn a slot is, and the errors of the service.
use on_demand.Prelude.{
  ℕ, ◌%◌, Option, none, some, List, length, get_elem?, ◌==◌, if◌then◌else◌, Outcome, ok, err,
  panicked, shr32,
}

-- What the `Box<dyn Error>` of the service holds.
pub data ServiceError : Type 0 where
  relay_chain_error : ServiceError
  codec_error : ServiceError
  runtime_api_error : ServiceError
  rpc_error : ServiceError
  failed_to_get_selected_collator : ServiceError
  failed_to_check_cores : ServiceError
  failed_to_get_spot_price : ServiceError
  failed_to_get_slot_block : ServiceError

abbrev pub Result {ℓ} : Type ℓ → Type ℓ
Result A = Outcome ServiceError A

-- `?` on a call whose error is turned into `e`, and `ok_or(e)?`.
abbrev pub or_err {ℓ} : {A : Type ℓ} → ServiceError → Option A → Result A
or_err e none = err e
or_err e (some a) = ok a

unfoldable pub current_slot : ℕ → ℕ → ℕ
current_slot relay_height slot_width = shr32 relay_height slot_width

-- The remainder by the number of authorities panics if there are none.
unfoldable pub order_placer {ℓ} : {A : Type ℓ} → List A → ℕ → ℕ → Result A
unfolding current_slot
order_placer authorities relay_height slot_width =
    if length authorities == 0
    then panicked
    else or_err failed_to_get_selected_collator
        (get_elem? authorities (current_slot relay_height slot_width % length authorities))
