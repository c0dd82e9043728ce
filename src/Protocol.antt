-- ===== src/Protocol.antt =====
-- masp-protocol: the types and constants that the program and the client share.
pub mod Domain
mod Data
pub use Domain.*
unfoldable pub use Data.*
