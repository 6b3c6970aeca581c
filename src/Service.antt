-- ===== src/Service.antt =====
-- services/order/src: the task of a collator that places the orders.
pub mod Config
pub mod Chain
pub mod Submit
pub mod Orders
pub mod Tasks
pub mod Cores
pub mod Reads
pub mod Slots
pub mod Due
pub mod Exclusive
pub mod Once
pub mod Live
pub mod Ledger
pub mod Events
