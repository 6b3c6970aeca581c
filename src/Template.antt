-- ===== src/Template.antt =====
-- template: the parachain of the repository, as far as it configures on-demand orders.
pub mod Runtime
pub mod Rewarding
pub mod Collators
pub mod Flow
pub mod Genesis
pub mod Node
pub mod Rpc
pub mod Pool
pub mod Apart
pub mod Api
pub mod Placed
pub mod Served
pub mod Signers
pub mod Startup
pub mod Command
pub mod Constants
pub mod Fees
pub mod Blocks
pub mod Xcm
pub mod Origins
pub mod Routes
pub mod Admins
pub mod Queues
pub mod Pallets
pub mod Example
