-- ===== src/Client/Verifier/Accepts.antt =====
-- client/consensus/on-demand-aura/src/equivocation_import_queue.rs, `verify`: which blocks pass.
use on_demand.Prelude.{
  ℕ, ◌≡◌, ◌⊎◌, refl, true, false, ◌||◌, some, [], ◌∷◌, ◌++◌, ok, ◌==◌, arith, inl, inr,
}
use on_demand.Client.Defender.{LruMap, count, equivocation_limit}
use on_demand.Client.Verifier.{
  longest_chain, custom, Types, BlockImportParams, SealCheck, checked, deferred, invalid, Env,
  slot_now, check_body, verify,
}

pub SealCheck-cases :
    {T : Types} (c : SealCheck T)
    → ((h : T.Header) × (slot : ℕ) × (d : T.Digest) × (c ≡ checked h slot d))
      ⊎ ((((h : T.Header) × (slot : ℕ) × (c ≡ deferred h slot))) ⊎ (c ≡ invalid))
SealCheck-cases (checked h slot d) = inl (h, slot, d, refl)
SealCheck-cases (deferred h slot) = inr (inl (h, slot, refl))
SealCheck-cases invalid = inr (inr refl)

module _ (l : LruMap) {T : Types} (env : Env T) where
  open env use {hash, parent_hash, fetch_authorities, slot_duration, check_header_slot_and_seal}

  -- The block as it goes to the import: unsealed, with the seal among its digests and the hash that
  -- it had with the seal.
  abbrev pub unsealed : BlockImportParams T → T.Header → T.Digest → BlockImportParams T
  unsealed p pre_header seal_digest = record p {
    header = pre_header;
    post_digests = p.post_digests ++ seal_digest ∷ [];
    fork_choice = some longest_chain;
    post_hash = some (hash p.header);
  }

  -- What has to hold for a block to pass in full.
  pub record IsVerified (p p' : BlockImportParams T) (cache : l.Map) : Type 0 where
    pub authorities : T.Authorities
    pub fetched : fetch_authorities (parent_hash p.header) ≡ some authorities
    pub duration : ℕ
    pub timed : slot_duration (parent_hash p.header) ≡ some duration
    pub pre_header : T.Header
    pub slot : ℕ
    pub seal_digest : T.Digest
    pub seal_holds :
        check_header_slot_and_seal (slot_now l env duration) p.header authorities
        ≡ checked pre_header slot seal_digest
    pub below_limit : (count l slot cache == equivocation_limit) ≡ false
    pub imported : p' ≡ unsealed p pre_header seal_digest
    pub inherents_hold : check_body l env (parent_hash p.header) pre_header p.body ≡ ok tt

  -- A block that is exempt passes with the fork choice of its state, and is not counted.
  pub verify_exempt :
      (p : BlockImportParams T) (cache : l.Map)
      → (p.skip_execution_checks || p.with_state) ≡ true
      → verify l env p cache ≡ (cache, ok (record p { fork_choice = some (custom p.with_state) }))
  unfolding verify
  verify_exempt p cache h = ground arith
