-- ===== src/Client/Queue/Limit.antt =====
-- client/consensus/on-demand-aura/src/equivocation_import_queue.rs: how many blocks of a slot a queue
-- lets through.
use on_demand.Prelude.{
  ℕ, suc, is_some, not, ◌&&◌, ◌*◌, if◌then◌else◌, ◌≡◌, ◌≢◌, ◌≤◌, ◌+◌, Bool, true, false, Option,
  ◌||◌, none, some, List, [], ◌∷◌, ok, ◌==◌, arith, Option-cases, Bool-cases, inl, inr, ◌⊎◌,
  ℕ_discrete, ap,
}
use on_demand.Client.Defender.{
  LruMap, insert_and_check, insert_and_check_lem, count, equivocation_limit,
}
use on_demand.Client.Verifier.{
  Types, BlockImportParams, Env, verify, slot_now, count_block, check_seal,
}
use on_demand.Client.Verifier.Accepts.{SealCheck-cases}
use on_demand.Client.Queue.{
  QueueTypes, QueueLibraries, Block, sealed_at, is_ok, passed, new_verifier,
}

counted_lem :
    (l : LruMap) (s : ℕ) (cache cache' : l.Map) (beyond : Bool)
    → insert_and_check l s cache ≡ ok (cache', beyond)
    → (beyond ≡ (count l s cache == equivocation_limit))
      × (count l s cache' ≡ (if beyond then count l s cache else suc (count l s cache)))
      × ((j : ℕ) → j ≢ s → (l.peek j cache' ≡ l.peek j cache) ⊎ (l.peek j cache' ≡ none))
counted_lem l s cache cache' beyond e =
    let (cache'', beyond', done, c) = insert_and_check_lem l s cache in
    let same : cache'' ≡ cache' = ground (arith, e, done) in
    let alike : beyond' ≡ beyond = ground (arith, e, done) in
    (rw alike at c.answer, rw (same, alike) at c.counted, rw same at c.others)

module _ (l : LruMap) {T : Types} where
  -- A verified block leaves the count and has no seal that holds, or it is counted for its slot, and
  -- refused if the count says so.
  abbrev IsCounted : Env T → BlockImportParams T → l.Map → Type 0
  IsCounted env p cache =
      let (cache', result) = verify l env p cache in
      ((cache' ≡ cache) × (sealed_at l env p ≡ none))
      ⊎ ((slot : ℕ) × (beyond : Bool) × (sealed_at l env p ≡ some slot)
          × (insert_and_check l slot cache ≡ ok (cache', beyond))
          × (beyond ≡ true → is_ok result ≡ false))

  verify-IsCounted : (env : Env T) (p : BlockImportParams T) (cache : l.Map) → IsCounted env p cache
  unfolding verify check_seal count_block
  verify-IsCounted env p cache = elim (Bool-cases (p.skip_execution_checks || p.with_state)) [
    | inl exempt ↦ inl (ground arith)
    | inr full ↦ elim (Option-cases (env.fetch_authorities (env.parent_hash p.header))) [
      | inl unknown ↦ inl (ground arith)
      | inr (authorities, fetched) ↦
          elim (Option-cases (env.slot_duration (env.parent_hash p.header))) [
            | inl unknown ↦ inl (ground arith)
            | inr (duration, timed) ↦
                elim (SealCheck-cases
                  (env.check_header_slot_and_seal (slot_now l env duration) p.header authorities)) [
                    | inr (inl (later, slot, d)) ↦ inl (ground arith)
                    | inr (inr bad) ↦ inl (ground arith)
                    | inl (pre_header, slot, seal_digest, holds) ↦
                        let (cache', beyond, done, c) = insert_and_check_lem l slot cache in
                        inr (slot, beyond, ground arith, ground arith, λ e. ground arith)
                  ]
          ]
    ]
  ]

  -- How often, over a run of the verifier, a block makes the map push out the count of the slot.
  unfoldable pub evictions : ℕ → List (Block T) → l.Map → ℕ
  evictions slot [] cache = 0
  evictions slot ((env, p) ∷ blocks) cache =
      let cache' = (verify l env p cache).0 in
      (if is_some (l.peek slot cache) && not (is_some (l.peek slot cache')) then 1 else 0)
      + evictions slot blocks cache'

  -- From a count of at most sixteen on, what is passed and counted for the slot.
  passed-evictions :
      (slot : ℕ) (blocks : List (Block T)) (cache : l.Map)
      → count l slot cache ≤ equivocation_limit
      → passed l slot blocks cache + count l slot cache
        ≤ equivocation_limit + equivocation_limit * evictions slot blocks cache
  unfolding passed evictions
  passed-evictions slot [] cache h = omega arith
  passed-evictions slot ((env, p) ∷ blocks) cache h = elim (verify-IsCounted env p cache) [
    | inl (same, unsealed) ↦ ground (arith, same, passed-evictions slot blocks cache)
    | inr (s, beyond, sealed, counted, refused) ↦
        let cache' = (verify l env p cache).0 in
        let rest = passed-evictions slot blocks cache' in
        elim (ℕ_discrete slot s) [
          | yes here ↦
              let before : count l slot cache ≡ count l s cache = ap (λ k. count l k cache) here in
              let after : count l slot cache' ≡ count l s cache' =
                ap (λ k. count l k cache') here in
              let (answer, grown, others) = counted_lem l s cache cache' beyond counted in
              elim (Bool-cases beyond) [
                | inl full ↦ ground (arith, refused full, rest)
                | inr room ↦ ground (arith, rest)
              ]
          | no other ↦
              let (answer, grown, others) = counted_lem l s cache cache' beyond counted in
              elim (others slot other) [
                | inl kept ↦ ground (arith, kept, rest)
                | inr gone ↦ elim (Option-cases (l.peek slot cache)) [
                  | inl absent ↦ ground (arith, gone, absent, rest)
                  | inr (v, present) ↦ ground (arith, gone, present, rest)
                ]
              ]
        ]
  ]

  -- From a new queue, and whatever blocks come with whatever surroundings, the verifier passes in full
  -- at most sixteen blocks whose seals hold for the slot, and sixteen more for each time that a block
  -- makes the map push out the slot's count.
  pub new_queue-limit :
      {Q : QueueTypes} (q : QueueLibraries Q l) (client : Q.Client) (providers : Q.Providers)
      (telemetry : Option Q.Telemetry) (slot : ℕ) (blocks : List (Block T))
      → let cache = (new_verifier Q q client providers telemetry).defender in
        passed l slot blocks cache
        ≤ equivocation_limit + equivocation_limit * evictions slot blocks cache
  unfolding new_verifier
  new_queue-limit q client providers telemetry slot blocks =
      let new = (new_verifier _ q client providers telemetry).defender in
      let none_yet : count l slot new ≡ 0 = ground (arith, q.peek-new 256 slot) in
      omega (arith, passed-evictions slot blocks new)
