-- ===== src/Pallet.antt =====
-- pallets/on-demand/src/lib.rs: the pallet that rewards the authors of on-demand orders.
pub mod State
pub mod Calls
pub mod Orders
pub mod Paid
pub mod Dispatch
pub mod Stages
pub mod Failures
pub mod Rewards
pub mod Payments
pub mod Stalls
pub mod Mock
pub mod Bulk
pub mod Weights
pub mod Criteria
pub mod Info
pub mod Benchmarks
