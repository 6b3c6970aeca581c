-- ===== src/Prelude/Slots.antt =====
-- Things done for a slot, newest first.
use Prim.Native.Nat.{ℕ, suc, ◌≤◌, ◌<◌}
use mathlib.Core.Path.{◌≡◌, refl}
use mathlib.Core.List.{List, [], ◌∷◌}
use native.Mathlib.Omega.{arith}
use on_demand.Prelude.Tests.{◌==◌, if◌then◌else◌}

module _ {ℓ} {A : Type ℓ} where
  -- The slots fall from one to the one before it, all of them below the bound.
  abbrev pub Below : ℕ → List (ℕ × A) → Type 0
  Below bound [] = Unit {0}
  Below bound ((slot, _) ∷ done) = (slot < bound) × Below slot done

  -- How many were done for a slot.
  abbrev pub count_slot : ℕ → List (ℕ × A) → ℕ
  count_slot slot [] = 0
  count_slot slot ((s, _) ∷ done) =
      if s == slot then suc (count_slot slot done) else count_slot slot done

  Below-count_zero :
      (bound slot : ℕ) (done : List (ℕ × A))
      → Below bound done
      → bound ≤ slot
      → count_slot slot done ≡ 0
  Below-count_zero bound slot [] b h = refl
  Below-count_zero bound slot ((s, _) ∷ done) b h = ground (arith, Below-count_zero s slot done)

  -- At most one was done for any slot.
  pub Below-count :
      (bound slot : ℕ) (done : List (ℕ × A)) → Below bound done → count_slot slot done ≤ 1
  Below-count bound slot [] b = omega arith
  Below-count bound slot ((s, _) ∷ done) b =
      ground (arith, Below-count s slot done, Below-count_zero s slot done)

  pub Below-mono : (a b : ℕ) (done : List (ℕ × A)) → a ≤ b → Below a done → Below b done
  Below-mono a b [] h p = tt
  Below-mono a b ((s, _) ∷ done) h p = (omega arith, p.1)
