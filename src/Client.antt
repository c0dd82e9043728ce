-- ===== src/Client.antt =====
-- client: the wallet library, with the store and the chain that it is tested against.
pub mod Hash
pub mod Keys
pub mod Note
pub mod MerkleTree
pub mod Outcome
pub mod Requests
pub mod Proofs
pub mod Store
pub mod Chain
pub mod Wallet
pub mod Scanning
