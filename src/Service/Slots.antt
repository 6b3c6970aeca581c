-- ===== src/Service/Slots.antt =====
-- services/order/src/config.rs and chain.rs: slots as ranges of relay heights, whose turn they are
-- on the node and in the pallet, and for how long an order is valid.
use on_demand.Prelude.{
  ℕ, ◌+◌, ◌*◌, ◌%◌, ◌^◌, ◌≤◌, ◌<◌, ◌≡◌, ◌↔◌, ◌⊎◌, min, leb, tests, Bool-cases, ◌∙◌, some, List,
  length, get_elem?_total, ok, arith, u32_mod, shr32, shl32, shr32_bounds, shl32-shr32,
  Option-cases, inl, inr, shl32-one, ap,
}
use on_demand.Primitives.{H256, ParaId}
use on_demand.Pallet.State.{Types, State, Config}
use on_demand.Pallet.Calls.{order_placer_at, on_finalize, runtime_api}
use on_demand.Service.Config.{current_slot, order_placer}
use on_demand.Service.Submit.{Keystore, Rpc, Order, submit_order, new, sign}
use Prim.Native.Nat.{max}
use native.Mathlib.Nat.{mod-lt, mod-eq_of_lt, pow-le-pow_right}

-- With any authorities the turn is always someone's: the service neither fails nor panics.
pub order_placer_total {ℓ} :
    {A : Type ℓ} (authorities : List A) (relay_height slot_width : ℕ)
    → 0 < length authorities
    → (a : A) × (order_placer authorities relay_height slot_width ≡ ok a)
unfolding order_placer
order_placer_total authorities relay_height slot_width h =
    let i = current_slot relay_height slot_width % length authorities in
    let (a, found) = get_elem?_total authorities i (mod-lt _ h) in (a, ground arith)

module _ {T : Types} (c : Config T) where
  -- At every relay height the node expects the author whom the pallet rewards, given the width that
  -- the pallet reports and the authorities at the end of the parent block.
  pub order_placer-order_placer_at :
      (s : State T) (relay_height : ℕ) (placer : T.AuthorityId)
      → (order_placer
            (c.aura_authorities s.system)
            relay_height
            (runtime_api (on_finalize c s)).slot_width
          ≡ ok placer)
        ↔ (order_placer_at (on_finalize c s) relay_height ≡ ok (some placer))
  unfolding order_placer order_placer_at on_finalize runtime_api
  order_placer-order_placer_at s relay_height placer = (λ e. ground arith, λ e. ground arith)

below-or-above : (k n : ℕ) → (n < k) ⊎ (k ≤ n)
below-or-above k n = elim (Bool-cases (leb k n)) [
  | inl above ↦ inr (omega (tests, above))
  | inr below ↦ inl (ground arith)
]

-- The first relay height of the slot of `relay_height`.
abbrev pub first_block : ℕ → ℕ → ℕ
first_block relay_height slot_width = shl32 (current_slot relay_height slot_width) slot_width

module _ {PublicKey : Type 0} (rpc : Rpc) (para_id : ParaId)
    (relay_height slot_width max_amount : ℕ) (keystore : Keystore PublicKey) where
  submit_order-ok :
      {order : Order}
      → submit_order rpc para_id relay_height slot_width max_amount keystore ≡ ok order
      → (hash : H256) × (rpc.chain_get_block_hash (first_block relay_height slot_width)
          ≡ some (some hash))
        × (rpc.block_at hash ≡ some order.block)
        × (order.mortality ≡ rpc.mortal (shl32 1 slot_width))
        × (order.max_amount ≡ max_amount)
        × (order.para_id ≡ para_id)
  unfolding submit_order new sign
  submit_order-ok e =
      elim (Option-cases (rpc.chain_get_block_hash (first_block relay_height slot_width))) [
        | inl failed ↦ absurd (ground arith)
        | inr (stored, found) ↦ elim (Option-cases stored) [
          | inl nothing ↦ absurd (ground arith)
          | inr (hash, known) ↦
              (hash, ground arith, ground arith, ground arith, ground arith, ground arith)
        ]
      ]

  -- A power of two is kept as it is exactly between 4 and 65536.
  clamped-power : (w : ℕ) → (max 4 (min 65536 (2 ^ w)) ≡ 2 ^ w) ↔ (2 ≤ w) × (w ≤ 16)
  clamped-power w = (
    λ e. elim (below-or-above 2 w) [
      | inl small ↦ absurd (omega (arith, e, pow-le-pow_right {n = 2} (omega arith) small))
      | inr from ↦ elim (below-or-above 17 w) [
        | inl fits ↦ (from, omega arith)
        | inr large ↦ absurd (omega (arith, e, pow-le-pow_right {n = 2} (omega arith) large))
      ]
    ],
    λ (from, to). omega (
      arith,
      pow-le-pow_right {n = 2} (omega arith) from,
      pow-le-pow_right {n = 2} (omega arith) to,
    ),
  )

  -- For a relay height that fits in `u32` and a width below 32, an accepted order refers to the
  -- block of the first of its slot's `2 ^ slot_width` relay heights, among which is the one at
  -- which it was placed, and offers the given amount for the given parachain. From that block on it
  -- is valid for that number of blocks, kept between 4 and 65536, which is the slot's own number
  -- exactly if the width is from 2 to 16.
  pub submit_order_lem :
      {order : Order}
      → relay_height < u32_mod
      → slot_width < 32
      → submit_order rpc para_id relay_height slot_width max_amount keystore ≡ ok order
      → let first = current_slot relay_height slot_width * 2 ^ slot_width in
        (hash : H256) × (rpc.chain_get_block_hash first ≡ some (some hash))
        × (rpc.block_at hash ≡ some order.block)
        × (first ≤ relay_height)
        × (relay_height < first + 2 ^ slot_width)
        × (order.mortality ≡ max 4 (min 65536 (2 ^ slot_width)))
        × ((order.mortality ≡ 2 ^ slot_width) ↔ (2 ≤ slot_width) × (slot_width ≤ 16))
        × (order.max_amount ≡ max_amount)
        × (order.para_id ≡ para_id)
  unfolding current_slot
  submit_order_lem {order} h w e =
      let (hash, found, block, mortality, amount, para) = submit_order-ok e in
      let small : slot_width % 32 ≡ slot_width = mod-eq_of_lt w in
      let first : first_block relay_height slot_width
          ≡ shr32 relay_height slot_width * 2 ^ slot_width =
        shl32-shr32 relay_height slot_width h
        ∙ ap (λ k. shr32 relay_height slot_width * 2 ^ k) small in
      let period : order.mortality ≡ max 4 (min 65536 (2 ^ slot_width)) =
        mortality
        ∙ ap rpc.mortal (shl32-one slot_width ∙ ap (λ (k : ℕ). 2 ^ k) small)
        ∙ rpc.mortal_lem slot_width in
      let exact : (order.mortality ≡ 2 ^ slot_width) ↔ (2 ≤ slot_width) × (slot_width ≤ 16) =
        rw period (clamped-power slot_width) in
      let (lo, hi) = shr32_bounds relay_height slot_width in
      let upper : relay_height < shr32 relay_height slot_width * 2 ^ slot_width + 2 ^ slot_width =
        rw small at hi in
      (hash, rw first at found, block, rw small at lo, upper, period, exact, amount, para)
