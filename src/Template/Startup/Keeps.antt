-- ===== src/Template/Startup/Keeps.antt =====
-- Rules for code with effects: what a step leaves out, and when it cannot return.
use on_demand.Prelude.{
  ◌≡◌, refl, Bool, true, false, Option, none, any, arith, Outcome, ok, if◌then◌else◌, Outcome-cases,
  inl, inr,
}
use on_demand.Primitives.{OrderRecord}
use on_demand.Template.Startup.Effects.{
  Effects, M, pure, ◌>>=◌, ◌>>◌, call, expect, spawn, new_record, StartError,
}

-- Whether a step has returned.
abbrev pub is_ok {ℓ κ} : {E : Type ℓ} {A : Type κ} → Outcome E A → Bool
is_ok (ok _) = true
is_ok _ = false

module _ {Task : Type 0} (p : Task → Bool) where
  -- A step adds no task of the kind `p`, whatever its result is.
  pub record Keeps {A : Type 0} (m : M Task A) : Type 0 where
    pub keeps : (w : Effects Task) → any p w.tasks ≡ false → any p (m w).0.tasks ≡ false

  -- A step that returns has added one, and one that does not has not.
  pub record Ends {A : Type 0} (m : M Task A) : Type 0 where
    pub ends : (w : Effects Task) → any p w.tasks ≡ false → any p (m w).0.tasks ≡ is_ok (m w).1

  pub Keeps-bind :
      {A B : Type 0} {m : M Task A} {f : A → M Task B}
      → Keeps m
      → ((a : A) → Keeps (f a))
      → Keeps (m >>= f)
  unfolding ◌>>=◌
  Keeps-bind {m} {f} k ks = record {
    keeps = λ w h. elim (Outcome-cases (m w).1) [
      | inl (a, e) ↦ rw (e, ◌>>=◌) ((ks a).keeps (m w).0 (k.keeps w h))
      | inr (inl (f, e)) ↦ rw (e, ◌>>=◌) (k.keeps w h)
      | inr (inr e) ↦ rw (e, ◌>>=◌) (k.keeps w h)
    ];
  }

  pub Keeps-then :
      {B : Type 0} {m : M Task (Unit {0})} {k : M Task B} → Keeps m → Keeps k → Keeps (m >> k)
  unfolding ◌>>◌
  Keeps-then km kk = Keeps-bind km (λ done. kk)

  pub Keeps-call : {A : Type 0} (e : StartError) (r : Option A) → Keeps (call e r)
  unfolding call
  Keeps-call e r = record { keeps = λ w h. ground arith }

  pub Keeps-expect : {A : Type 0} (r : Option A) → Keeps (expect r)
  unfolding expect
  Keeps-expect r = record { keeps = λ w h. ground arith }

  pub Keeps-pure : {A : Type 0} (a : A) → Keeps (pure a)
  unfolding pure
  Keeps-pure a = record { keeps = λ w h. h }

  pub Keeps-spawn : {t : Task} → p t ≡ false → Keeps (spawn t)
  unfolding spawn
  Keeps-spawn other = record { keeps = λ w h. ground arith }

  pub Keeps-new_record : (r : OrderRecord) → Keeps (new_record r)
  unfolding new_record
  Keeps-new_record r = record { keeps = λ w h. h }

  pub Keeps-if :
      {A : Type 0} (b : Bool) {m k : M Task A} → Keeps m → Keeps k → Keeps (if b then m else k)
  Keeps-if true km kk = km
  Keeps-if false km kk = kk

  pub Ends-bind :
      {A B : Type 0} {m : M Task A} {f : A → M Task B}
      → Keeps m
      → ((a : A) → Ends (f a))
      → Ends (m >>= f)
  unfolding ◌>>=◌
  Ends-bind {m} {f} k es = record {
    ends = λ w h. elim (Outcome-cases (m w).1) [
      | inl (a, e) ↦ rw (e, ◌>>=◌) ((es a).ends (m w).0 (k.keeps w h))
      | inr (inl (f, e)) ↦ rw (e, ◌>>=◌) (k.keeps w h)
      | inr (inr e) ↦ rw (e, ◌>>=◌) (k.keeps w h)
    ];
  }

  pub Ends-then :
      {B : Type 0} {m : M Task (Unit {0})} {k : M Task B} → Keeps m → Ends k → Ends (m >> k)
  unfolding ◌>>◌
  Ends-then km ek = Ends-bind km (λ done. ek)

  pub Ends-spawn : {A : Type 0} {t : Task} (a : A) → p t ≡ true → Ends (spawn t >> pure a)
  unfolding spawn pure ◌>>◌
  Ends-spawn a own = record { ends = λ w h. ground arith }

module _ {Task : Type 0} where
  -- A step that does not return.
  pub record Fails {A : Type 0} (m : M Task A) : Type 0 where
    pub fails : (w : Effects Task) → is_ok (m w).1 ≡ false

  pub Fails-expect : {A : Type 0} → Fails (expect {A = A} none)
  unfolding expect
  Fails-expect = record { fails = λ w. refl }

  -- First or later.
  pub Fails-bind_first :
      {A B : Type 0} {m : M Task A} (f : A → M Task B) → Fails m → Fails (m >>= f)
  unfolding ◌>>=◌
  Fails-bind_first {m} f n = record { fails = λ w. ground (arith, n.fails w) }

  pub Fails-bind :
      {A B : Type 0} (m : M Task A) {f : A → M Task B} → ((a : A) → Fails (f a)) → Fails (m >>= f)
  unfolding ◌>>=◌
  Fails-bind m {f} ns = record {
    fails = λ w. elim (Outcome-cases (m w).1) [
      | inl (a, e) ↦ rw (e, ◌>>=◌) ((ns a).fails (m w).0)
      | inr (inl (f, e)) ↦ rw (e, ◌>>=◌) refl
      | inr (inr e) ↦ rw (e, ◌>>=◌) refl
    ];
  }

  pub Fails-then_first :
      {B : Type 0} {m : M Task (Unit {0})} (k : M Task B) → Fails m → Fails (m >> k)
  unfolding ◌>>◌
  Fails-then_first k n = Fails-bind_first (λ done. k) n

  pub Fails-then : {B : Type 0} (m : M Task (Unit {0})) {k : M Task B} → Fails k → Fails (m >> k)
  unfolding ◌>>◌
  Fails-then m n = Fails-bind m (λ done. n)
