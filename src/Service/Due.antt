-- ===== src/Service/Due.antt =====
-- services/order/src/lib.rs, `handle_relaychain_stream`: when a node places an order.
use on_demand.Prelude.{
  ℕ, ◌<◌, ◌≡◌, inl, inr, true, false, none, some, List, ◌∷◌, ok, arith, Option-cases, ◌↔◌,
  Outcome-cases, ◌⊎◌,
}
use on_demand.Primitives.{H256, OrderRecord}
use on_demand.Service.Config.{current_slot, order_placer}
use on_demand.Service.Chain.{get_spot_price, is_parathread, on_demand_cores_available}
use on_demand.Service.Submit.{Order, submit_order}
use on_demand.Service.Orders.{
  Node, Head, Orders, place_in_slot, place_order, handle_relaychain_stream,
}

module _ {StorageProof PublicKey : Type 0} (n : Node StorageProof PublicKey) where
  open n use {hashing, codec, relay_chain, parachain, keystore, criteria, rpc, para_id}

  -- What has to hold at a head for an order to be placed, and the order.
  pub record IsDue (h : Head) (last_slot slot : ℕ) (order : Order) : Type 0 where
    pub parathread : is_parathread hashing codec relay_chain h.r_hash para_id ≡ ok true
    pub para_head : H256
    pub decoded : parachain.decode_head h.validation_data.parent_head ≡ some para_head
    pub not_bulk : parachain.bulk_mode para_head ≡ some false
    pub cores_unavailable :
        on_demand_cores_available hashing codec relay_chain h.r_hash ≡ some false
    pub width : ℕ
    pub width_known : parachain.slot_width para_head ≡ some width
    pub slot_of_height : slot ≡ current_slot h.height width
    pub later : last_slot < slot
    pub authorities : List PublicKey
    pub authorities_known : parachain.authorities para_head ≡ some authorities
    pub placer : PublicKey
    pub turn : order_placer authorities h.height width ≡ ok placer
    pub own_key : keystore.has_keys placer ≡ true
    pub criteria_met : criteria h.height ≡ true
    pub price : ℕ
    pub price_known : get_spot_price hashing codec relay_chain h.r_hash ≡ some price
    pub accepted : submit_order rpc para_id h.height width price keystore ≡ ok order

  -- An order is placed whenever it is due.
  pub place_order_due :
      (h : Head) (r : OrderRecord) (slot : ℕ) (order : Order)
      → IsDue h r.last_slot slot order
      → place_order n h r ≡ ok (some (slot, order))
  unfolding place_order place_in_slot
  place_order_due h r slot order d = ground arith

  place_order_only :
      (h : Head) (r : OrderRecord) (slot : ℕ) (order : Order)
      → place_order n h r ≡ ok (some (slot, order))
      → IsDue h r.last_slot slot order
  unfolding place_order place_in_slot
  place_order_only h r slot order e =
      elim (Option-cases (parachain.decode_head h.validation_data.parent_head)) [
        | inl undecoded ↦ absurd (ground arith)
        | inr (para_head, decoded) ↦ elim (Option-cases (parachain.slot_width para_head)) [
          | inl unknown ↦ absurd (ground arith)
          | inr (width, width_known) ↦ elim (Option-cases (parachain.authorities para_head)) [
            | inl unknown ↦ absurd (ground arith)
            | inr (authorities, authorities_known) ↦
                elim (Outcome-cases (order_placer authorities h.height width)) [
                  | inr failed ↦ absurd (ground arith)
                  | inl (placer, turn) ↦
                      elim (Option-cases (get_spot_price hashing codec relay_chain h.r_hash)) [
                        | inl unknown ↦ absurd (ground arith)
                        | inr (price, price_known) ↦ record {
                          parathread = ground arith;
                          para_head = para_head;
                          decoded = decoded;
                          not_bulk = ground arith;
                          cores_unavailable = ground arith;
                          width = width;
                          width_known = width_known;
                          slot_of_height = ground arith;
                          later = ground arith;
                          authorities = authorities;
                          authorities_known = authorities_known;
                          placer = placer;
                          turn = turn;
                          own_key = ground arith;
                          criteria_met = ground arith;
                          price = price;
                          price_known = price_known;
                          accepted = ground arith;
                        }
                      ]
                ]
          ]
        ]
      ]

  -- A node places an order at a head exactly when it is due: on a parathread out of bulk mode, with
  -- no core of the on-demand pool seen at work, in a slot after the last one of its record, in which
  -- the turn is that of a key of its own, with its criteria met and the order accepted.
  pub place_order_iff :
      (h : Head) (r : OrderRecord) (slot : ℕ) (order : Order)
      → (place_order n h r ≡ ok (some (slot, order))) ↔ IsDue h r.last_slot slot order
  place_order_iff h r slot order = (place_order_only h r slot order, place_order_due h r slot order)

module _ {StorageProof PublicKey : Type 0} (n : Node StorageProof PublicKey) where
  -- A head leaves the record and the orders as they are, also where the handling fails or panics, or
  -- an order is due and accepted there, and the record then names this head and the order's slot.
  pub handle_relaychain_stream-cases :
      (h : Head) (o : Orders)
      → ((handle_relaychain_stream n h o).0 ≡ o)
        ⊎ ((slot : ℕ) × (order : Order) × IsDue n h o.order_record.last_slot slot order
            × (handle_relaychain_stream n h o ≡ (
              record o {
                order_record = record { relay_block_hash = some h.r_hash; last_slot = slot };
                placed = (slot, order) ∷ o.placed;
              },
              ok tt,
            )))
  unfolding handle_relaychain_stream
  handle_relaychain_stream-cases h o = elim (Outcome-cases (place_order n h o.order_record)) [
    | inr (inl (e, failed)) ↦ inl (ground arith)
    | inr (inr crashed) ↦ inl (ground arith)
    | inl (none, nothing) ↦ inl (ground arith)
    | inl (some (slot, order), placed) ↦
        inr (slot, order, place_order_only n h o.order_record slot order placed, ground arith)
  ]
