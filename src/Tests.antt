-- ===== src/Tests.antt =====
-- Concrete runs of the code, at which the theorems of the other modules apply.
mod Mocks
mod Lru
mod Pallet
mod Service
mod Client
mod Collator
mod Template
mod Presets
mod Ledger
mod Startup
mod Command
mod Fees
mod Origins
mod Placed
mod Apart
