-- ===== src/Template/Pallets.antt =====
-- template/runtime/src/lib.rs: the pallets that the runtime is composed of, with the indices
-- by which their calls are told apart.
use on_demand.Prelude.{ℕ, ◌≡◌, Option, none, some, List, [], ◌∷◌, ◌==◌, if◌then◌else◌, arith}

pub data RuntimePallet : Type 0 where
  system : RuntimePallet
  parachain_system : RuntimePallet
  timestamp : RuntimePallet
  parachain_info : RuntimePallet
  balances : RuntimePallet
  transaction_payment : RuntimePallet
  sudo : RuntimePallet
  authorship : RuntimePallet
  collator_selection : RuntimePallet
  session : RuntimePallet
  aura : RuntimePallet
  aura_ext : RuntimePallet
  xcmp_queue : RuntimePallet
  polkadot_xcm : RuntimePallet
  cumulus_xcm : RuntimePallet
  message_queue : RuntimePallet
  on_demand_pallet : RuntimePallet
  template_pallet : RuntimePallet

-- `pallet_index`.
unfoldable pub pallet_index : RuntimePallet → ℕ
pallet_index system = 0
pallet_index parachain_system = 1
pallet_index timestamp = 2
pallet_index parachain_info = 3
pallet_index balances = 10
pallet_index transaction_payment = 11
pallet_index sudo = 15
pallet_index authorship = 20
pallet_index collator_selection = 21
pallet_index session = 22
pallet_index aura = 23
pallet_index aura_ext = 24
pallet_index xcmp_queue = 30
pallet_index polkadot_xcm = 31
pallet_index cumulus_xcm = 32
pallet_index message_queue = 33
pallet_index on_demand_pallet = 40
pallet_index template_pallet = 50

-- `AllPalletsWithSystem`, in the order of their hooks.
abbrev pub all_pallets : List RuntimePallet
all_pallets =
    system ∷ parachain_system ∷ timestamp ∷ parachain_info ∷ balances ∷ transaction_payment ∷ sudo
    ∷ authorship ∷ collator_selection ∷ session ∷ aura ∷ aura_ext ∷ xcmp_queue ∷ polkadot_xcm
    ∷ cumulus_xcm ∷ message_queue ∷ on_demand_pallet ∷ template_pallet ∷ []

-- The first pallet of a list with an index.
abbrev find_index : ℕ → List RuntimePallet → Option RuntimePallet
find_index n [] = none
find_index n (p ∷ ps) = let rest = find_index n ps in if pallet_index p == n then some p else rest

pallet_index-find_index : (p : RuntimePallet) → find_index (pallet_index p) all_pallets ≡ some p
unfolding pallet_index
pallet_index-find_index p = ground arith

-- No two pallets have one index.
pub pallet_index_injective : (p q : RuntimePallet) → pallet_index p ≡ pallet_index q → p ≡ q
pallet_index_injective p q e =
    let found = pallet_index-find_index p in
    let other : find_index (pallet_index q) all_pallets ≡ some p = rw e at found in
    cc (other, pallet_index-find_index q)
