-- ===== src/Client/Defender.antt =====
-- client/consensus/on-demand-aura/src/equivocation_import_queue.rs: `NaiveEquivocationDefender`.
use on_demand.Prelude.{
  ℕ, suc, ◌+◌, ◌≡◌, ◌≢◌, refl, Bool, true, false, Option, none, some, Outcome, ok, panicked, ◌==◌,
  if◌then◌else◌, arith, inl, inr, ◌⊎◌, ap, ◌∙◌, Bool-cases,
}

abbrev pub equivocation_limit : ℕ
equivocation_limit = 16

-- `LruMap<u64, usize>` of schnellru with the `ByLength` limiter. `peek` is what the map holds, `set`
-- a write through the reference that `get_or_insert` returns. A key that is inserted may push out
-- another one, and no other value changes; with this limiter an insertion succeeds.
pub record LruMap : Type 1 where
  pub Map : Type 0
  pub peek : ℕ → Map → Option ℕ
  pub get_or_insert : ℕ → ℕ → Map → Option Map
  pub set : ℕ → ℕ → Map → Map
  pub insertion_succeeds : (k d : ℕ) (m : Map) → (m' : Map) × (get_or_insert k d m ≡ some m')
  pub peek-get_or_insert :
      (k d : ℕ) (m : Map) {m' : Map}
      → get_or_insert k d m ≡ some m'
      → peek k m' ≡ some (elim (peek k m) [ none ↦ d | some v ↦ v ])
  pub peek-set : (k v : ℕ) (m : Map) → peek k (set k v m) ≡ some v
  pub peek-get_or_insert_ne :
      (k j d : ℕ) (m : Map) {m' : Map}
      → get_or_insert k d m ≡ some m'
      → j ≢ k
      → (peek j m' ≡ peek j m) ⊎ (peek j m' ≡ none)
  pub peek-set_ne : (k j v : ℕ) (m : Map) → j ≢ k → peek j (set k v m) ≡ peek j m

abbrev pub or_zero : Option ℕ → ℕ
or_zero none = 0
or_zero (some v) = v

or_zero-default : (o : Option ℕ) → or_zero (some (elim o [ none ↦ 0 | some v ↦ v ])) ≡ or_zero o
or_zero-default none = refl
or_zero-default (some v) = refl

module _ (l : LruMap) where
  -- `true` if the equivocations of the slot are beyond the limit.
  unfoldable pub insert_and_check : ℕ → l.Map → Outcome (Unit {0}) (l.Map × Bool)
  insert_and_check slot cache = elim (l.get_or_insert slot 0 cache) [
    | none ↦ panicked
    | some cache' ↦
        let val = or_zero (l.peek slot cache') in
        if val == equivocation_limit
        then ok (cache', true)
        else ok (l.set slot (val + 1) cache', false)
  ]

  -- The blocks seen so far for a slot that the map still counts.
  abbrev pub count : ℕ → l.Map → ℕ
  count slot cache = or_zero (l.peek slot cache)

  -- The map and the answer of one check.
  pub record IsChecked (slot : ℕ) (cache cache' : l.Map) (beyond : Bool) : Type 0 where
    pub answer : beyond ≡ (count slot cache == equivocation_limit)
    pub counted : count slot cache' ≡ (if beyond then count slot cache else suc (count slot cache))
    pub others : (j : ℕ) → j ≢ slot → (l.peek j cache' ≡ l.peek j cache) ⊎ (l.peek j cache' ≡ none)

  stored-count :
      (slot : ℕ) (cache cache' : l.Map)
      → l.get_or_insert slot 0 cache ≡ some cache'
      → count slot cache' ≡ count slot cache
  stored-count slot cache cache' e =
      ap or_zero (l.peek-get_or_insert slot 0 cache e) ∙ or_zero-default (l.peek slot cache)

  -- The check never panics. It answers that the limit is reached, and leaves the count, exactly when
  -- sixteen blocks of the slot are counted, and counts one more otherwise; another slot's count
  -- stays, or is pushed out.
  pub insert_and_check_lem :
      (slot : ℕ) (cache : l.Map)
      → (cache' : l.Map) × (beyond : Bool) × (insert_and_check slot cache ≡ ok (cache', beyond))
        × IsChecked slot cache cache' beyond
  unfolding insert_and_check
  insert_and_check_lem slot cache =
      let (stored, e) = l.insertion_succeeds slot 0 cache in
      let same : count slot stored ≡ count slot cache = stored-count slot cache stored e in
      elim (Bool-cases (count slot stored == equivocation_limit)) [
        | inl full ↦ (
          stored,
          true,
          ground arith,
          record {
            answer = ground arith;
            counted = same;
            others = λ j h. l.peek-get_or_insert_ne slot j 0 cache e h;
          },
        )
        | inr room ↦ (
          l.set slot (count slot stored + 1) stored,
          false,
          ground arith,
          record {
            answer = ground arith;
            counted = ground (arith, l.peek-set slot (count slot stored + 1) stored);
            others = λ j h. elim (l.peek-get_or_insert_ne slot j 0 cache e h) [
              | inl kept ↦ inl (l.peek-set_ne slot j _ stored h ∙ kept)
              | inr gone ↦ inr (l.peek-set_ne slot j _ stored h ∙ gone)
            ];
          },
        )
      ]
