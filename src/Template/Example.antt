-- ===== src/Template/Example.antt =====
-- template/pallets/template/src/lib.rs: the example pallet, over `u32` block numbers.
use on_demand.Prelude.{
  ℕ, zero, suc, ◌+◌, ◌<◌, ◌≡◌, refl, Option, none, some, List, ◌∷◌, ltb, arith, min, ◌-◌, ◌∙◌, ap,
  Bool-cases, inl, inr, Outcome, ok, err, if◌then◌else◌, u32_mod,
}
use on_demand.Pallet.State.{AccountId, Origin, signed}

pub data Event : Type 0 where
  something_stored : ℕ → AccountId → Event

pub data Error : Type 0 where
  bad_origin none_value storage_overflow : Error

pub record State : Type 0 where
  pub something : Option ℕ
  pub events : List Event

abbrev pub DispatchResult : Type 0
DispatchResult = Outcome Error (Unit {0})

abbrev pub ensure_signed : Origin → Option AccountId
ensure_signed (signed who) = some who
ensure_signed _ = none

unfoldable pub do_something : Origin → ℕ → State → State × DispatchResult
do_something origin bn s = elim (ensure_signed origin) [
  | none ↦ (s, err bad_origin)
  | some who ↦ (record { something = some bn; events = something_stored bn who ∷ s.events }, ok tt)
]

abbrev pub checked_add : ℕ → ℕ → Option ℕ
checked_add a b = if ltb (a + b) u32_mod then some (a + b) else none

unfoldable pub cause_error : Origin → State → State × DispatchResult
cause_error origin s = elim (ensure_signed origin) [
  | none ↦ (s, err bad_origin)
  | some _ ↦ elim s.something [
    | none ↦ (s, err none_value)
    | some old ↦ elim (checked_add old 1) [
      | none ↦ (s, err storage_overflow)
      | some block_number ↦ (record s { something = some block_number }, ok tt)
    ]
  ]
]

-- The calls of `cause_error` by one account, one after the other.
unfoldable pub cause_errors : ℕ → AccountId → State → State
cause_errors zero who s = s
cause_errors (suc n) who s = cause_errors n who (cause_error (signed who) s).0

cause_errors-from :
    (n : ℕ) (who : AccountId) (s : State) (bn : ℕ)
    → bn < u32_mod
    → s.something ≡ some bn
    → (cause_errors n who s).something ≡ some (min (bn + n) (u32_mod - 1))
unfolding cause_errors cause_error
cause_errors-from zero who s bn h e = ground arith
cause_errors-from (suc n) who s bn h e = elim (Bool-cases (ltb (bn + 1) u32_mod)) [
  | inl room ↦
      cause_errors-from n who (cause_error (signed who) s).0 (bn + 1) (ground arith) (ground arith)
      ∙ ap some (omega arith)
  | inr full ↦
      cause_errors-from n who (cause_error (signed who) s).0 bn h (ground arith)
      ∙ ap some (ground arith)
]

-- After a number is stored, each call of `cause_error` adds one to it, until it is the largest
-- `u32`, where it stays.
pub cause_errors_lem :
    (n : ℕ) (who by : AccountId) (s : State) (bn : ℕ)
    → bn < u32_mod
    → (cause_errors n by (do_something (signed who) bn s).0).something
      ≡ some (min (bn + n) (u32_mod - 1))
unfolding do_something
cause_errors_lem n who by s bn h =
    cause_errors-from n by (do_something (signed who) bn s).0 bn h refl
