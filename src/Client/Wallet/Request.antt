-- ===== src/Client/Wallet/Request.antt =====
-- client/src/client.rs: what a built transfer gives the prover and the chain.
use solana_masp.Prelude.{
  ℕ, ◌+◌, true, none, some, List, [], ◌∷◌, Bytes, ◌==◌, if◌then◌else◌, get_elem?,
}
use solana_masp.Client.Hash.{Fr, Crypto}
use solana_masp.Client.Note.{commitment}
use solana_masp.Client.Requests.{
  TransferRequest, TransferOutput, TransferPublicInputs, TransferPrivateInputs, default_input,
  default_output,
}
use solana_masp.Client.Wallet.{TransferData}

module _ (crypto : Crypto) where
  -- `TransferData::spend_proof_inputs`
  unfoldable pub spend_public : TransferData → (ct_hashes : List Fr) → TransferPublicInputs
  spend_public t ct_hashes = record {
    anchor = t.anchor;
    nullifiers = t.nf ∷ 0 ∷ 0 ∷ [];
    output_commitments =
        commitment crypto t.output
        ∷ (elim t.change [ some n ↦ commitment crypto n | none ↦ 0 ])
        ∷ 0
        ∷ [];
    input_count = 1;
    output_count = elim t.change [ some n ↦ 2 | none ↦ 1 ];
    ct_hashes = ct_hashes;
    tx_binding = t.tx_binding;
  }

unfoldable pub spend_private : TransferData → (spending_key : Fr) → TransferPrivateInputs
spend_private t spending_key = record {
  inputs =
      record {
        enabled = true;
        note_asset_id = t.spend_note.asset_id;
        note_amount = t.spend_note.amount;
        note_recipient = t.spend_note.recipient;
        note_diversifier_index = t.spend_note.diversifier_index;
        note_nullifier_nonce = t.spend_note.nullifier_nonce;
        note_randomness = t.spend_note.note_randomness;
        spending_key = spending_key;
        membership_witness = t.membership_witness;
      }
      ∷ default_input
      ∷ default_input
      ∷ [];
  outputs =
      record { enabled = true; note = t.output }
      ∷ (elim t.change [ some n ↦ record { enabled = true; note = n } | none ↦ default_output ])
      ∷ default_output
      ∷ [];
}

-- `to_request_with_outputs`: missing outputs are dummies, and the enabled ones are counted.
abbrev pub dummy_output : TransferOutput
dummy_output = record { commitment = 0; ciphertext = none; ephemeral_key = none }

unfoldable pub slot : List TransferOutput → ℕ → TransferOutput
slot outputs i = elim (get_elem? outputs i) [ some o ↦ o | none ↦ dummy_output ]

unfoldable pub to_request_with_outputs :
    TransferData
    → (spend_proof : Bytes) (first : TransferOutput) (others : List TransferOutput)
    → (ct_hashes : List Fr) → TransferRequest
unfolding slot
to_request_with_outputs t spend_proof first others ct_hashes =
    let second = slot others 0 in
    let third = slot others 1 in
    let count : TransferOutput → ℕ = λ o. if o.commitment == 0 then 0 else 1 in
    record {
      anchor = t.anchor;
      nullifiers = t.nf ∷ 0 ∷ 0 ∷ [];
      input_count = 1;
      output_count = count first + count second + count third;
      ct_hashes = ct_hashes;
      tx_binding = t.tx_binding;
      spend_proof = spend_proof;
      outputs = first ∷ second ∷ third ∷ [];
    }
