-- ===== src/Client/Keys.antt =====
-- client/src/keys.rs: what is derived from the spending key.
use solana_masp.Prelude.{◌%◌, ℕ, [], ◌∷◌, Bytes}
use solana_masp.Protocol.Domain.{
  authorization_secret, nullifier_secret, incoming_viewing_key, outgoing_viewing_key,
}
use solana_masp.Client.Hash.{
  Fr, modulus, grumpkin_modulus, Affine, Crypto, to_field, poseidon2_hash_noir, field_from_bytes,
}

unfoldable pub to_grumpkin_scalar : Fr → ℕ
to_grumpkin_scalar f = f % grumpkin_modulus

unfoldable pub from_grumpkin_base : ℕ → Fr
from_grumpkin_base fq = fq % modulus

pub record SpendingKey : Type 0 where
  pub sk : Fr

-- `SpendingKey::from_bytes`
unfoldable pub spending_key_from_bytes : Bytes → SpendingKey
unfolding field_from_bytes
spending_key_from_bytes bytes = record { sk = field_from_bytes bytes }

pub record FullViewingKey : Type 0 where
  pub ak : Affine
  pub nk : Affine

pub record DiversifiedAddress : Type 0 where
  pub diversifier_index : ℕ
  pub g_d : Affine
  pub pk_d : Affine

-- `DiversifiedAddress::to_field`
unfoldable pub address_field : DiversifiedAddress → Fr
unfolding from_grumpkin_base
address_field a = from_grumpkin_base a.pk_d.x

module _ (crypto : Crypto) where
  unfoldable pub ask : SpendingKey → Fr
  unfolding to_field
  ask k = poseidon2_hash_noir crypto (to_field authorization_secret ∷ k.sk ∷ []) 2

  unfoldable pub nsk : SpendingKey → Fr
  unfolding to_field
  nsk k = poseidon2_hash_noir crypto (to_field nullifier_secret ∷ k.sk ∷ []) 2

  unfoldable pub to_full_viewing_key : SpendingKey → FullViewingKey
  unfolding to_grumpkin_scalar
  to_full_viewing_key k = record {
    ak = crypto.mul crypto.generator (to_grumpkin_scalar (ask k));
    nk = crypto.mul crypto.generator (to_grumpkin_scalar (nsk k));
  }

  unfoldable pub nk_field : FullViewingKey → Fr
  unfolding from_grumpkin_base
  nk_field fvk = from_grumpkin_base fvk.nk.x

  unfoldable pub ivk : FullViewingKey → Fr
  unfolding to_field from_grumpkin_base
  ivk fvk =
      poseidon2_hash_noir crypto
        (to_field incoming_viewing_key
          ∷ from_grumpkin_base fvk.ak.x
          ∷ from_grumpkin_base fvk.nk.x
          ∷ [])
        3

  unfoldable pub ovk : FullViewingKey → Fr
  unfolding to_field from_grumpkin_base
  ovk fvk =
      poseidon2_hash_noir crypto
        (to_field outgoing_viewing_key
          ∷ from_grumpkin_base fvk.ak.x
          ∷ from_grumpkin_base fvk.nk.x
          ∷ [])
        3

  unfoldable pub diversified_address : FullViewingKey → ℕ → DiversifiedAddress
  unfolding to_grumpkin_scalar
  diversified_address fvk index =
      let g_d_scalar = poseidon2_hash_noir crypto (index ∷ []) 1 in
      let g_d = crypto.mul crypto.generator (to_grumpkin_scalar g_d_scalar) in
      record {
        diversifier_index = index;
        g_d = g_d;
        pk_d = crypto.mul g_d (to_grumpkin_scalar (ivk fvk));
      }
