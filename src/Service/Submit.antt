-- ===== src/Service/Submit.antt =====
-- services/order/src/chain.rs: the signer over the node's keystore, and the submission of an order.
use Prim.Native.Nat.{max}
use on_demand.Prelude.{
  ℕ, ◌^◌, ◌≡◌, min, Bool, Option, none, some, List, [], ◌∷◌, ok, panicked, ◌>>=◌, shl32,
}
use on_demand.Primitives.{H256, ParaId}
use on_demand.Service.Config.{Result, or_err, current_slot, rpc_error, failed_to_get_slot_block}

-- The node's keystore: its AuRa keys, whether it holds a key, and signing by a key.
pub record Keystore (PublicKey : Type 0) : Type 0 where
  pub sr25519_public_keys : List PublicKey
  pub has_keys : PublicKey → Bool
  pub into_account : PublicKey → ℕ
  pub sr25519_sign : PublicKey → List ℕ → Option (Option (List ℕ))

-- `SignerKeystore`: the account of the first key, and the keystore.
pub record SignerKeystore (PublicKey : Type 0) : Type 0 where
  pub account_id : ℕ
  pub keystore : Keystore PublicKey

-- `sr25519_public_keys(..)[0]` panics on an empty keystore.
abbrev pub first_key {ℓ} : {A : Type ℓ} → List A → Result A
first_key [] = panicked
first_key (key ∷ _) = ok key

-- Both `unwrap`s panic.
abbrev pub unwrap {ℓ} : {A : Type ℓ} → Option A → Result A
unwrap none = panicked
unwrap (some a) = ok a

module _ {PublicKey : Type 0} where
  unfoldable pub new : Keystore PublicKey → Result (SignerKeystore PublicKey)
  new keystore = do
    pub_key ← first_key keystore.sr25519_public_keys
    ok (record { account_id = keystore.into_account pub_key; keystore = keystore })

  abbrev pub address : SignerKeystore PublicKey → ℕ
  address self = self.account_id

  unfoldable pub sign : SignerKeystore PublicKey → List ℕ → Result (List ℕ)
  sign self signer_payload = do
    pub_key ← first_key self.keystore.sr25519_public_keys
    signed ← unwrap (self.keystore.sr25519_sign pub_key signer_payload)
    unwrap signed

-- A signed `place_order_allow_death`: what is paid at most, for which parachain, by whom, and the
-- block from which it is valid, for so many blocks.
pub record Order : Type 0 where
  pub max_amount : ℕ
  pub para_id : ParaId
  pub signer : ℕ
  pub block : H256
  pub mortality : ℕ

-- The RPC node and its client, which signs a payload by the signer that it is given.
-- `submit` tells whether the signed order was accepted. `mortal` is for how many blocks an order is
-- valid that asks for a number of blocks; as documented, a power of two is kept between 4 and 65536.
pub record Rpc : Type 0 where
  pub connect : Option (Unit {0})
  pub connect_rpc : Option (Unit {0})
  pub chain_get_block_hash : ℕ → Option (Option H256)
  pub block_at : H256 → Option H256
  pub mortal : ℕ → ℕ
  pub mortal_lem : (k : ℕ) → mortal (2 ^ k) ≡ max 4 (min 65536 (2 ^ k))
  pub payload : Order → List ℕ
  pub submit : Order → List ℕ → Option (Unit {0})

-- The order that was accepted. `mortal` takes the block's header, given here by its hash.
unfoldable pub submit_order :
    {PublicKey : Type 0} → Rpc → ParaId → ℕ → ℕ → ℕ → Keystore PublicKey → Result Order
submit_order rpc para_id relay_height slot_width max_amount keystore = do
  client ← or_err rpc_error rpc.connect
  rpc_client ← or_err rpc_error rpc.connect_rpc
  signer_keystore ← new keystore
  let first_block_in_slot = shl32 (current_slot relay_height slot_width) slot_width
  found ← or_err rpc_error (rpc.chain_get_block_hash first_block_in_slot)
  block_hash ← or_err failed_to_get_slot_block found
  block ← or_err rpc_error (rpc.block_at block_hash)
  let mortality = shl32 1 slot_width
  let place_order : Order = record {
    max_amount = max_amount;
    para_id = para_id;
    signer = address signer_keystore;
    block = block;
    mortality = rpc.mortal mortality;
  }
  signature ← sign signer_keystore (rpc.payload place_order)
  accepted ← or_err rpc_error (rpc.submit place_order signature)
  ok place_order
