-- ===== src/Tests/Client/Proving.antt =====
-- A transfer of 60 out of the note of 100, proved and accepted.
use solana_masp.Prelude.{◌≡◌, ◌↔◌, refl, true, [], ◌∷◌, arith}
use solana_masp.Client.Outcome.{done}
use solana_masp.Client.Hash.{poseidon2_hash_noir, merkle_hash}
use solana_masp.Client.Keys.{ask, nsk, ivk}
use solana_masp.Client.Note.{
  Note, commitment, compute_nullifier, tx_binding_transfer, derive_output_nonce_nm, to_plaintext,
  from_plaintext,
}
use solana_masp.Client.Note.RoundTrip.{from_plaintext-to_plaintext}
use solana_masp.Client.Requests.{
  TransferPublicInputs, TransferPrivateInputs, UnshieldPublicInputs, UnshieldPrivateInputs,
  witness_root, verify_local,
}
use solana_masp.Client.Proofs.{
  checked_add_u128, mock_check_spend_authorization, mock_check_transfer, mock_check_unshield,
}
use solana_masp.Client.Proofs.Inputs.{recipient_of, mock_check_spend_authorization_lem}
use solana_masp.Client.Proofs.Transfer.{
  IsTransfer, TransferStatement, mock_check_transfer-TransferStatement,
}
use solana_masp.Client.Proofs.Unshield.{UnshieldStatement, mock_check_unshield-UnshieldStatement}
use solana_masp.Client.Wallet.{transfer_data}
use solana_masp.Client.Wallet.Request.{spend_public, spend_private}
use solana_masp.Tests.Client.Sample.{toy, note, witness, wallet, friend}

-- What the wallet proves
unfoldable pub public : TransferPublicInputs
unfolding transfer_data spend_public wallet note witness friend
public =
    spend_public toy
      (transfer_data toy wallet (commitment toy note) note witness
        (compute_nullifier toy (nsk toy wallet.spending_key) note.nullifier_nonce) friend 60 5 6
        true)
      (11 ∷ 12 ∷ 0 ∷ [])

unfoldable pub private : TransferPrivateInputs
unfolding transfer_data spend_private wallet note witness friend
private =
    spend_private
      (transfer_data toy wallet (commitment toy note) note witness
        (compute_nullifier toy (nsk toy wallet.spending_key) note.nullifier_nonce) friend 60 5 6
        true)
      wallet.spending_key.sk

pub is_transfer : IsTransfer public private
unfolding public private
is_transfer = record {
  inputs = refl;
  nullifiers = refl;
  outputs = refl;
  commitments = refl;
  input_amounts = (omega arith, (omega arith, (omega arith, tt)));
  output_amounts = (omega arith, (omega arith, (omega arith, tt)));
}

accepted : mock_check_transfer toy public private ≡ done tt
unfolding mock_check_transfer public private tx_binding_transfer poseidon2_hash_noir witness_root
    ivk ask nsk merkle_hash compute_nullifier verify_local mock_check_spend_authorization
    checked_add_u128 derive_output_nonce_nm
accepted = refl

mock_check_transfer-TransferStatement_example :
    (mock_check_transfer toy public private ≡ done tt) ↔ TransferStatement toy public private
mock_check_transfer-TransferStatement_example =
    mock_check_transfer-TransferStatement toy public private is_transfer

pub stated : TransferStatement toy public private
stated = mock_check_transfer-TransferStatement_example.0 accepted

abbrev withdrawal : UnshieldPublicInputs
withdrawal = record {
  anchor = 1;
  nullifier = 2;
  tx_binding = 3;
  public_amount = 100;
  public_recipient_limbs = 1 ∷ 2 ∷ 3 ∷ 4 ∷ [];
  public_asset_id = 42;
}

unfoldable withdrawn : UnshieldPrivateInputs
unfolding note witness
withdrawn = record {
  spending_key = 1234;
  note_asset_id = note.asset_id;
  note_amount = note.amount;
  note_recipient = note.recipient;
  note_diversifier_index = note.diversifier_index;
  note_nullifier_nonce = note.nullifier_nonce;
  note_randomness = note.note_randomness;
  membership_witness = witness;
}

mock_check_unshield-UnshieldStatement_example :
    (mock_check_unshield toy withdrawal withdrawn ≡ done tt)
    ↔ UnshieldStatement toy withdrawal withdrawn
mock_check_unshield-UnshieldStatement_example =
    mock_check_unshield-UnshieldStatement toy withdrawal withdrawn

mock_check_spend_authorization_lem_example :
    (mock_check_spend_authorization toy 1234 note.recipient 0 ≡ done tt)
    ↔ (note.recipient ≡ recipient_of toy 1234 0)
mock_check_spend_authorization_lem_example =
    mock_check_spend_authorization_lem toy 1234 note.recipient 0

abbrev small_note : Note
small_note = record {
  asset_id = 42;
  amount = 100;
  recipient = 7;
  diversifier_index = 3;
  nullifier_nonce = 77;
  note_randomness = 88;
}

from_plaintext-to_plaintext_example : from_plaintext (to_plaintext small_note) ≡ small_note
from_plaintext-to_plaintext_example = from_plaintext-to_plaintext small_note (record {
  asset_id = omega arith;
  amount = omega arith;
  recipient = omega arith;
  diversifier_index = omega arith;
  nullifier_nonce = omega arith;
  note_randomness = omega arith;
})
