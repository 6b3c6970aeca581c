-- ===== src/Service/Events.antt =====
-- services/order/src/lib.rs, `ondemand_event_task`: which block the shared record names.
use on_demand.Prelude.{
  ◌≡◌, refl, Bool, false, Option, none, some, List, [], ◌∷◌, map, any, ok, arith, ◌==◌,
  if◌then◌else◌,
}
use on_demand.Primitives.{H256, ParaId, OrderRecord}
use on_demand.Service.Tasks.{
  RelayEvent, RelayBlock, note_order, scan_events, scan_blocks, ondemand_event_task,
}

-- A block whose events can all be fetched.
pub record ReadBlock : Type 0 where
  pub hash : H256
  pub events : List RelayEvent

abbrev pub readable : ReadBlock → Option RelayBlock
readable b = some (record { hash = b.hash; events = some (map some b.events) })

module _ (para_id : ParaId) where
  abbrev pub is_order : RelayEvent → Bool
  is_order e = elim e.as_event [
    | some (some placed) ↦ placed.para_id == para_id
    | some none ↦ false
    | none ↦ false
  ]

  -- The blocks with an order for the parachain, in their order.
  abbrev pub order_blocks : List ReadBlock → List H256
  order_blocks [] = []
  order_blocks (b ∷ bs) =
      if any is_order b.events then b.hash ∷ order_blocks bs else order_blocks bs

-- The last element, if there is one.
abbrev pub last_or : List H256 → Option H256 → Option H256
last_or [] d = d
last_or (x ∷ xs) d = last_or xs (some x)

abbrev pub set_hash : OrderRecord → Option H256 → OrderRecord
set_hash r hash = record r { relay_block_hash = hash }

module _ (para_id : ParaId) where
  note_order_lem :
      (hash : H256) (e : RelayEvent) (r : OrderRecord)
      → note_order para_id hash e.as_event r
        ≡ (if is_order para_id e then set_hash r (some hash) else r)
  note_order_lem hash e r = ground arith

  scan_events_lem :
      (hash : H256) (es : List RelayEvent) (r : OrderRecord)
      → scan_events para_id hash (map some es) r
        ≡ (if any (is_order para_id) es then set_hash r (some hash) else r, ok tt)
  unfolding scan_events
  scan_events_lem hash [] r = refl
  scan_events_lem hash (e ∷ es) r =
      rw (scan_events_lem hash es (note_order para_id hash e.as_event r), note_order_lem hash e r)
        (ground arith)

  scan_blocks_lem :
      (bs : List ReadBlock) (r : OrderRecord)
      → scan_blocks para_id (map readable bs) r
        ≡ (set_hash r (last_or (order_blocks para_id bs) r.relay_block_hash), ok tt)
  unfolding scan_blocks
  scan_blocks_lem [] r = refl
  scan_blocks_lem (b ∷ bs) r = ground (
    arith,
    scan_events_lem b.hash b.events r,
    scan_blocks_lem bs (set_hash r (some b.hash)),
    scan_blocks_lem bs r,
  )

  -- Over blocks whose events can be fetched, the record comes to name the last block with an order
  -- for the parachain, whoever placed it, or stays if there is none. The last slot stays.
  pub ondemand_event_task_lem :
      (bs : List ReadBlock) (r : OrderRecord)
      → ondemand_event_task para_id (some (map readable bs)) r
        ≡ (set_hash r (last_or (order_blocks para_id bs) r.relay_block_hash), ok tt)
  unfolding ondemand_event_task
  ondemand_event_task_lem bs r = scan_blocks_lem bs r
