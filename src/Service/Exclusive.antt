-- ===== src/Service/Exclusive.antt =====
-- services/order/src: two nodes side by side, and the slot that is the turn of one key.
use on_demand.Prelude.{ℕ, ◌≡◌, ◌∙◌, true, some, ok, List, sym}
use on_demand.Primitives.{H256, OrderRecord}
use on_demand.Service.Config.{current_slot, order_placer}
use on_demand.Service.Submit.{Order}
use on_demand.Service.Orders.{Node, Head, place_order}
use on_demand.Service.Due.{place_order_iff}

-- The turn depends on the slot alone, not on the relay height in it.
pub order_placer-slot {ℓ} :
    {A : Type ℓ} (authorities : List A) (height height' width : ℕ)
    → current_slot height width ≡ current_slot height' width
    → order_placer authorities height width ≡ order_placer authorities height' width
unfolding order_placer
order_placer-slot authorities height height' width same = rw same

module _ {StorageProof PublicKey : Type 0} (n m : Node StorageProof PublicKey) where
  -- Both are told the same authorities and the same width of a slot, whatever heads they look at.
  pub record SeesAlike : Type 0 where
    pub same_authorities :
        (p q : H256) (a b : List PublicKey)
        → n.parachain.authorities p ≡ some a
        → m.parachain.authorities q ≡ some b
        → a ≡ b
    pub same_width :
        (p q : H256) (a b : ℕ)
        → n.parachain.slot_width p ≡ some a
        → m.parachain.slot_width q ≡ some b
        → a ≡ b

  -- Two nodes that are told the same authorities and the same width place orders for one slot, at
  -- whatever heads and with whatever records, only if both hold one key, that of the slot's turn.
  pub place_order_exclusive :
      (h k : Head) (r s : OrderRecord) (slot : ℕ) (o o' : Order)
      → SeesAlike
      → place_order n h r ≡ ok (some (slot, o))
      → place_order m k s ≡ ok (some (slot, o'))
      → (key : PublicKey) × (para_head : H256) × (authorities : List PublicKey) × (width : ℕ)
        × (n.parachain.authorities para_head ≡ some authorities)
        × (n.parachain.slot_width para_head ≡ some width)
        × (order_placer authorities h.height width ≡ ok key)
        × (order_placer authorities k.height width ≡ ok key)
        × (n.keystore.has_keys key ≡ true)
        × (m.keystore.has_keys key ≡ true)
  place_order_exclusive h k r s slot o o' alike here there =
      let d = (place_order_iff n h r slot o).0 here in
      let e = (place_order_iff m k s slot o').0 there in
      let authorities =
        alike.same_authorities d.para_head e.para_head d.authorities e.authorities
          d.authorities_known e.authorities_known in
      let width =
        alike.same_width d.para_head e.para_head d.width e.width d.width_known e.width_known in
      let there_turn : order_placer d.authorities k.height d.width ≡ ok e.placer =
        rw (authorities, width) e.turn in
      let same_slot : current_slot h.height d.width ≡ current_slot k.height d.width =
        sym d.slot_of_height ∙ rw width e.slot_of_height in
      let same_turn = order_placer-slot d.authorities h.height k.height d.width same_slot in
      let here_turn : order_placer d.authorities k.height d.width ≡ ok d.placer =
        sym same_turn ∙ d.turn in
      let one_key : e.placer ≡ d.placer = cc in
      (
        d.placer,
        d.para_head,
        d.authorities,
        d.width,
        d.authorities_known,
        d.width_known,
        d.turn,
        here_turn,
        d.own_key,
        rw one_key at e.own_key,
      )
