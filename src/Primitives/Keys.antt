-- ===== src/Primitives/Keys.antt =====
-- primitives/order/src/well_known_keys.rs: the relay chain's storage keys, as lists of bytes. The
-- hash functions of `sp_io` and the SCALE encoding are parameters.
use on_demand.Prelude.{
  ℕ, ◌+◌, ◌<◌, ◌≡◌, ◌≢◌, refl, sym, ap, ◌∙◌, u32_mod, List, [], ◌∷◌, ◌++◌, arith, length,
}
use on_demand.Primitives.{ParaId}

abbrev pub queue_status : List ℕ
queue_status =
    0x8f ∷ 0x32 ∷ 0x43 ∷ 0x0b ∷ 0x49 ∷ 0x60 ∷ 0x7f ∷ 0x8d ∷ 0x60 ∷ 0xbf ∷ 0xd3 ∷ 0xa0 ∷ 0x03 ∷ 0xdd
    ∷ 0xf4 ∷ 0xb5 ∷ 0x8b ∷ 0xf2 ∷ 0x93 ∷ 0x30 ∷ 0x83 ∷ 0x3e ∷ 0xa7 ∷ 0x90 ∷ 0x4c ∷ 0x72 ∷ 0x09
    ∷ 0xf4 ∷ 0xce ∷ 0x9d ∷ 0x91 ∷ 0x7a ∷ []

abbrev pub active_config : List ℕ
active_config =
    0x06 ∷ 0xde ∷ 0x3d ∷ 0x8a ∷ 0x54 ∷ 0xd2 ∷ 0x7e ∷ 0x44 ∷ 0xa9 ∷ 0xd5 ∷ 0xce ∷ 0x18 ∷ 0x96 ∷ 0x18
    ∷ 0xf2 ∷ 0x2d ∷ 0xb4 ∷ 0xb4 ∷ 0x9d ∷ 0x95 ∷ 0x32 ∷ 0x0d ∷ 0x90 ∷ 0x21 ∷ 0x99 ∷ 0x4c ∷ 0x85
    ∷ 0x0f ∷ 0x25 ∷ 0xb8 ∷ 0xe3 ∷ 0x85 ∷ []

abbrev pub paras_para_lifecycles : List ℕ
paras_para_lifecycles =
    0xcd ∷ 0x71 ∷ 0x0b ∷ 0x30 ∷ 0xbd ∷ 0x2e ∷ 0xab ∷ 0x03 ∷ 0x52 ∷ 0xdd ∷ 0xcc ∷ 0x26 ∷ 0x41 ∷ 0x7a
    ∷ 0xa1 ∷ 0x94 ∷ 0x28 ∷ 0x1e ∷ 0x0b ∷ 0xfd ∷ 0xe1 ∷ 0x7b ∷ 0x36 ∷ 0x57 ∷ 0x32 ∷ 0x08 ∷ 0xa0
    ∷ 0x6c ∷ 0xb5 ∷ 0xcf ∷ 0xba ∷ 0x6b ∷ []

abbrev pub core_descriptors : List ℕ
core_descriptors =
    0x63 ∷ 0x85 ∷ 0x95 ∷ 0xee ∷ 0xba ∷ 0xa4 ∷ 0x45 ∷ 0xce ∷ 0x03 ∷ 0xa1 ∷ 0x35 ∷ 0x47 ∷ 0xbe ∷ 0xce
    ∷ 0x90 ∷ 0xe7 ∷ 0x04 ∷ 0xe6 ∷ 0xac ∷ 0x77 ∷ 0x5a ∷ 0x32 ∷ 0x45 ∷ 0x62 ∷ 0x31 ∷ 0x03 ∷ 0xff
    ∷ 0xec ∷ 0x2c ∷ 0xb2 ∷ 0xc9 ∷ 0x2f ∷ []

abbrev pub system_account : List ℕ
system_account =
    0x26 ∷ 0xaa ∷ 0x39 ∷ 0x4e ∷ 0xea ∷ 0x56 ∷ 0x30 ∷ 0xe0 ∷ 0x7c ∷ 0x48 ∷ 0xae ∷ 0x0c ∷ 0x95 ∷ 0x58
    ∷ 0xce ∷ 0xf7 ∷ 0xb9 ∷ 0x9d ∷ 0x88 ∷ 0x0e ∷ 0xc6 ∷ 0x81 ∷ 0x79 ∷ 0x9c ∷ 0x0c ∷ 0xf3 ∷ 0x0e
    ∷ 0x88 ∷ 0x86 ∷ 0x37 ∷ 0x1d ∷ 0xa9 ∷ []

abbrev pub events : List ℕ
events =
    0x26 ∷ 0xaa ∷ 0x39 ∷ 0x4e ∷ 0xea ∷ 0x56 ∷ 0x30 ∷ 0xe0 ∷ 0x7c ∷ 0x48 ∷ 0xae ∷ 0x0c ∷ 0x95 ∷ 0x58
    ∷ 0xce ∷ 0xf7 ∷ 0x80 ∷ 0xd4 ∷ 0x1e ∷ 0x5e ∷ 0x16 ∷ 0x05 ∷ 0x67 ∷ 0x65 ∷ 0xbc ∷ 0x84 ∷ 0x61
    ∷ 0x85 ∷ 0x10 ∷ 0x72 ∷ 0xc9 ∷ 0xd7 ∷ []

abbrev pub session_key_owner_prefix : List ℕ
session_key_owner_prefix =
    0xce ∷ 0xc5 ∷ 0x07 ∷ 0x0d ∷ 0x60 ∷ 0x9d ∷ 0xd3 ∷ 0x49 ∷ 0x7f ∷ 0x72 ∷ 0xbd ∷ 0xe0 ∷ 0x7f ∷ 0xc9
    ∷ 0x6b ∷ 0xa0 ∷ 0x72 ∷ 0x63 ∷ 0x80 ∷ 0x40 ∷ 0x46 ∷ 0x83 ∷ 0xfc ∷ 0x89 ∷ 0xe8 ∷ 0x23 ∷ 0x34
    ∷ 0x50 ∷ 0xc8 ∷ 0xaa ∷ 0x19 ∷ 0x50 ∷ []

-- `KeyTypeId`: four bytes.
abbrev pub KeyTypeId : Type 0
KeyTypeId = List ℕ

-- What the keys take from `sp_io::hashing` and of the SCALE encodings, with the documented lengths: the
-- digests, the four bytes of a `u32`, and the pair of a key type and a vector, which has the vector's
-- length between the four bytes and the vector's own.
pub record Hashing : Type 0 where
  pub blake2_128 : List ℕ → List ℕ
  pub twox_64 : List ℕ → List ℕ
  pub twox_256 : List ℕ → List ℕ
  pub encode_u32 : ℕ → List ℕ
  pub encode_key : KeyTypeId → List ℕ → List ℕ
  pub length-encode_u32 : (n : ℕ) → length (encode_u32 n) ≡ 4
  pub encode_u32-injective :
      (m n : ℕ) → m < u32_mod → n < u32_mod → encode_u32 m ≡ encode_u32 n → m ≡ n
  pub length-encode_key :
      (key_type : KeyTypeId) (acc : List ℕ)
      → length key_type ≡ 4
      → 4 + length acc < length (encode_key key_type acc)
  pub length-blake2_128 : (x : List ℕ) → length (blake2_128 x) ≡ 16
  pub length-twox_64 : (x : List ℕ) → length (twox_64 x) ≡ 8
  pub length-twox_256 : (x : List ℕ) → length (twox_256 x) ≡ 32

module _ (h : Hashing) where
  -- An account is encoded as its bytes.
  unfoldable pub account : List ℕ → List ℕ
  account acc = system_account ++ (h.blake2_128 acc ++ acc)

  unfoldable pub session_key_owner : KeyTypeId → List ℕ → List ℕ
  session_key_owner key_type acc =
      let encoded = h.encode_key key_type acc in
      paras_para_lifecycles ++ (h.twox_64 encoded ++ encoded)

  unfoldable pub core_descriptor : ℕ → List ℕ
  core_descriptor core_index = core_descriptors ++ h.twox_256 (h.encode_u32 core_index)

  unfoldable pub para_lifecycle : ParaId → List ℕ
  para_lifecycle para_id =
      let encoded = h.encode_u32 para_id in paras_para_lifecycles ++ (h.twox_64 encoded ++ encoded)

-- Lists with heads of one length are equal only part by part.
append-injective {ℓ} :
    {A : Type ℓ} (xs ys : List A) {us vs : List A}
    → length xs ≡ length ys
    → xs ++ us ≡ ys ++ vs
    → (xs ≡ ys) × (us ≡ vs)
append-injective [] [] n e = (refl, e)
append-injective [] (y ∷ ys) n e = absurd (omega arith)
append-injective (x ∷ xs) [] n e = absurd (omega arith)
append-injective (x ∷ xs) (y ∷ ys) {us} {vs} n e =
    let both : (xs ≡ ys) × (us ≡ vs) = append-injective xs ys (omega arith) (ground arith) in
    (ground arith, both.1)

module _ (h : Hashing) where
  open h use {blake2_128, twox_64, length-blake2_128, length-twox_64}

  -- Different parachains have different lifecycle keys, and different accounts different account
  -- keys, whatever the hash functions collide on.
  pub keys_injective :
      (m n : ParaId) (x y : List ℕ)
      → m < u32_mod
      → n < u32_mod
      → (para_lifecycle h m ≡ para_lifecycle h n → m ≡ n) × (account h x ≡ account h y → x ≡ y)
  unfolding para_lifecycle account
  keys_injective m n x y small small' = (
    λ e.
        h.encode_u32-injective m n small small'
          (append-injective (twox_64 (h.encode_u32 m)) (twox_64 (h.encode_u32 n))
            (length-twox_64 (h.encode_u32 m) ∙ sym (length-twox_64 (h.encode_u32 n)))
            (append-injective paras_para_lifecycles paras_para_lifecycles refl e).1).1,
    λ e.
        (append-injective (blake2_128 x) (blake2_128 y)
          (length-blake2_128 x ∙ sym (length-blake2_128 y))
          (append-injective system_account system_account refl e).1).1,
  )

  -- The key of a session key's owner, for a key type of four bytes, starts as the keys of the
  -- parachains' lifecycles do, but it is the key of no parachain's lifecycle, and it is never a key of
  -- the map of session key owners.
  pub session_key_owner_misplaced :
      (key_type : KeyTypeId) (acc y : List ℕ) (para_id : ParaId)
      → length key_type ≡ 4
      → ((rest : List ℕ) × (session_key_owner h key_type acc ≡ paras_para_lifecycles ++ rest))
        × (session_key_owner h key_type acc ≢ para_lifecycle h para_id)
        × (session_key_owner h key_type acc ≢ session_key_owner_prefix ++ y)
  unfolding session_key_owner para_lifecycle
  session_key_owner_misplaced key_type acc y para_id four =
      let key = h.encode_key key_type acc in
      let id = h.encode_u32 para_id in
      let longer = h.length-encode_key key_type acc four in
      let short = h.length-encode_u32 para_id in
      (
        (_, refl),
        λ e.
            let same : key ≡ id =
              (append-injective (twox_64 key) (twox_64 id)
                (length-twox_64 key ∙ sym (length-twox_64 id))
                (append-injective paras_para_lifecycles paras_para_lifecycles refl e).1).1 in
            let alike : length key ≡ length id = ap length same in
            omega (arith, longer, short, alike),
        λ e. ground arith,
      )
