-- ===== src/Tests/Lru.antt =====
-- A map in which a new key pushes out all others.
use on_demand.Prelude.{
  ◌∙◌, ℕ, ◌≡◌, ◌≢◌, inl, inr, ◌⊎◌, Option-cases, refl, Option, none, some, ◌==◌, if◌then◌else◌,
  arith, ap, sym,
}
use on_demand.Client.Defender.{LruMap}

abbrev or_default : ℕ → Option ℕ → ℕ
or_default d none = d
or_default d (some v) = v

abbrev pub put : ℕ → ℕ → (ℕ → Option ℕ) → ℕ → Option ℕ
put k v m j = if j == k then some v else m j

abbrev pub insert : ℕ → ℕ → (ℕ → Option ℕ) → Option (ℕ → Option ℕ)
insert k d m = elim (m k) [ none ↦ some (put k d (λ j. none)) | some v ↦ some (put k v m) ]

pub put_same : (k v : ℕ) (m : ℕ → Option ℕ) → put k v m k ≡ some v
put_same k v m = ground arith

pub put_other : (k j v : ℕ) (m : ℕ → Option ℕ) → j ≢ k → put k v m j ≡ m j
put_other k j v m h = ground arith

abbrev get_or : {A : Type 0} → A → Option A → A
get_or d none = d
get_or d (some a) = a

pub at : (j : ℕ) {m m' : ℕ → Option ℕ} → some m ≡ some m' → m' j ≡ m j
at j {m} e = sym (ap (λ o. get_or m o j) e)

pub insert_succeeds : (k d : ℕ) (m : ℕ → Option ℕ) → (m' : ℕ → Option ℕ) × (insert k d m ≡ some m')
insert_succeeds k d m = elim (Option-cases (m k)) [
  | inl new ↦ (put k d (λ j. none), rw (new, insert) refl)
  | inr (v, old) ↦ (put k v m, rw (old, insert) refl)
]

pub insert_same :
    (k d : ℕ) (m : ℕ → Option ℕ) {m' : ℕ → Option ℕ}
    → insert k d m ≡ some m'
    → m' k ≡ some (elim (m k) [ none ↦ d | some v ↦ v ])
insert_same k d m {m'} e = elim (Option-cases (m k)) [
  | inl new ↦ rw new (at k (rw (new, insert) at e) ∙ put_same k d (λ j. none))
  | inr (v, old) ↦ rw old (at k (rw (old, insert) at e) ∙ put_same k v m)
]

pub insert_other :
    (k j d : ℕ) (m : ℕ → Option ℕ) {m' : ℕ → Option ℕ}
    → insert k d m ≡ some m'
    → j ≢ k
    → (m' j ≡ m j) ⊎ (m' j ≡ none)
insert_other k j d m {m'} e h = elim (Option-cases (m k)) [
  | inl new ↦ inr (at j (rw (new, insert) at e) ∙ put_other k j d (λ j. none) h)
  | inr (v, old) ↦ inl (at j (rw (old, insert) at e) ∙ put_other k j v m h)
]

abbrev pub lru : LruMap
lru = record {
  Map = ℕ → Option ℕ;
  peek = λ k m. m k;
  get_or_insert = insert;
  set = put;
  insertion_succeeds = insert_succeeds;
  peek-get_or_insert = insert_same;
  peek-set = put_same;
  peek-get_or_insert_ne = insert_other;
  peek-set_ne = put_other;
}
