-- ===== src/Prelude/Lists.antt =====
-- Lists measured and indexed by native numbers, under the library's names.
use Prim.Native.Nat.{ℕ, zero, suc, ◌+◌, ◌<◌}
use mathlib.Core.Path.{◌≡◌, refl, sym, ◌∙◌, ap}
use mathlib.Core.Logic.{inl, inr}
use mathlib.Core.List.{Memᴰ}
use mathlib.Core.List.Memᴰ
use on_demand.Prelude.Tests.{Option-cases}
use mathlib.Core.Bool.{Bool, false, ◌||◌}
use mathlib.Core.List.{List, [], ◌∷◌, ◌++◌}
use mathlib.Core.Option.{Option, none, some}
use native.Mathlib.Omega.{arith}

module _ {ℓ} {A : Type ℓ} where
  abbrev pub length : List A → ℕ
  length [] = 0
  length (x ∷ xs) = suc (length xs)

  abbrev pub get_elem? : List A → ℕ → Option A
  get_elem? [] i = none
  get_elem? (x ∷ xs) zero = some x
  get_elem? (x ∷ xs) (suc i) = get_elem? xs i

  abbrev pub any : (A → Bool) → List A → Bool
  any p [] = false
  any p (x ∷ xs) = p x || any p xs

  pub length-append : (xs ys : List A) → length (xs ++ ys) ≡ length xs + length ys
  length-append [] ys = omega arith
  length-append (x ∷ xs) ys = omega (arith, length-append xs ys)

  -- Every index below the length has an element.
  pub get_elem?_total : (xs : List A) (i : ℕ) → i < length xs → (a : A) × (get_elem? xs i ≡ some a)
  get_elem?_total [] i h = absurd (omega arith)
  get_elem?_total (x ∷ xs) zero h = (x, refl)
  get_elem?_total (x ∷ xs) (suc i) h = get_elem?_total xs i (omega arith)

module _ {ℓ κ} {A : Type ℓ} {B : Type κ} (f : A → Option B) where
  abbrev pub filter_map : List A → List B
  filter_map [] = []
  filter_map (x ∷ xs) = elim (f x) [ none ↦ filter_map xs | some y ↦ y ∷ filter_map xs ]

  pub mem-filter_map :
      (xs : List A) (x : A) (y : B) → f x ≡ some y → Memᴰ x xs → Memᴰ y (filter_map xs)
  mem-filter_map [] x y e m = absurd (Memᴰ.not-nil m)
  mem-filter_map (z ∷ xs) x y e (Memᴰ.head same) =
      let here : f z ≡ some y = rw same at e in rw (here, filter_map) (Memᴰ.head refl)
  mem-filter_map (z ∷ xs) x y e (Memᴰ.tail m) = elim (Option-cases (f z)) [
    | inl skipped ↦ rw (skipped, filter_map) (mem-filter_map xs x y e m)
    | inr (w, kept) ↦ rw (kept, filter_map) (Memᴰ.tail (mem-filter_map xs x y e m))
  ]

  pub mem_of_mem-filter_map :
      (xs : List A) (y : B) → Memᴰ y (filter_map xs) → (x : A) × Memᴰ x xs × (f x ≡ some y)
  mem_of_mem-filter_map [] y m = absurd (Memᴰ.not-nil m)
  mem_of_mem-filter_map (z ∷ xs) y m = elim (Option-cases (f z)) [
    | inl skipped ↦
        let (x, m', e) = mem_of_mem-filter_map xs y (rw (skipped, filter_map) at m) in
        (x, Memᴰ.tail m', e)
    | inr (w, kept) ↦ elim (Memᴰ.cases_cons (rw (kept, filter_map) at m)) [
      | inl same ↦ (z, Memᴰ.head refl, kept ∙ ap some (sym same))
      | inr rest ↦ let (x, m', e) = mem_of_mem-filter_map xs y rest in (x, Memᴰ.tail m', e)
    ]
  ]
