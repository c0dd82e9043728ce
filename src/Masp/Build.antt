-- ===== src/Masp/Build.antt =====
-- What one build of the program runs with: the features that choose its proof system, the runtime,
-- the hash, and the Borsh code that is derived for its types.
pub mod Laws
use solana_masp.Prelude.{ℕ, Bool, Bytes}
use solana_masp.Runtime.{Host, Borsh}
use solana_masp.Protocol.{ShieldData, TransferData, UnshieldData}
use solana_masp.Masp.State.{TreeState, NullifierAccount}
use solana_masp.Masp.Verify.{ProofSystem}

-- instructions.rs
pub record UpdateRootData : Type 0 where
  pub new_root : Bytes
  pub expected_leaf_count : ℕ

pub record Build : Type 0 where
  pub host : Host
  pub keccak : Bytes → Bytes
  pub proof_system : ProofSystem
  pub local_testing : Bool
  pub tree_codec : Borsh TreeState
  pub nullifier_codec : Borsh NullifierAccount
  pub shield_codec : Borsh ShieldData
  pub transfer_codec : Borsh TransferData
  pub unshield_codec : Borsh UnshieldData
  pub update_root_codec : Borsh UpdateRootData
