-- ===== src/Client/Proofs/Submission.antt =====
-- A proof of the client, uploaded to the program: a Transfer in a mock build goes through.
use solana_masp.Prelude.{
  ℕ, ◌+◌, ◌*◌, ◌≤◌, ◌≡◌, refl, sym, ap, ◌∙◌, true, some, get_elem?, List, ◌∷◌, ◌++◌, Bytes, map,
  length, take, drop, slice, leb, length-append, drop-drop, drop-append_left, take_all, arith,
}
use solana_masp.Runtime.{
  bind_ok, require_ok, ok, ◌>>=◌, AccountInfo, Ledger, Pubkey, next_account_info, serialize,
}
use solana_masp.Protocol.{TransferData}
use solana_masp.Masp.State.{TreeState, CircuitType, is_valid_anchor, transfer}
use solana_masp.Masp.Inputs.{transfer_from_data}
use solana_masp.Masp.Verify.{mock, bytes, verify_proof, state_proof_size}
use solana_masp.Masp.Build.{Build}
use solana_masp.Masp.Instructions.{
  load_unpaused, check_circuit, transfer_extract, verify_step, verify_inline, mark_nullifiers,
  insert_outputs, process_transfer,
}
use solana_masp.Client.Outcome.{done}
use solana_masp.Client.Hash.{Crypto, field_to_bytes}
use solana_masp.Client.Requests.{
  TransferPublicInputs, TransferPrivateInputs, transfer_public, transfer_private,
}
use solana_masp.Client.Proofs.Prover.{
  mock_check, mock_prove, onchain_mock_prove, onchain_mock_proof_for_public_inputs,
}
use solana_masp.Client.Proofs.Transfer.{
  IsTransfer, TransferStatement, mock_check_transfer-TransferStatement,
}
use solana_masp.Client.Proofs.OnChain.{chain_inputs, onchain_accepted}

-- A proof buffer: the header of five bytes, whose last counts the fields, then these, then the proof
pub record Uploaded (circuit pi_count : ℕ) (proof held : Bytes) : Type 0 where
  pub status : ℕ
  pub low : ℕ
  pub high : ℕ
  pub fields : Bytes
  pub counted : length fields ≡ pi_count * 32
  pub laid_out : held ≡ status ∷ circuit ∷ low ∷ high ∷ pi_count ∷ (fields ++ proof)

cut_proof :
    (a b c d n : ℕ) (fields proof : Bytes)
    → length fields ≡ n * 32
    → length proof ≡ 32
    → slice (5 + n * 32) 32 (a ∷ b ∷ c ∷ d ∷ n ∷ (fields ++ proof)) ≡ proof
cut_proof a b c d n fields proof counted sized =
    let all = a ∷ b ∷ c ∷ d ∷ n ∷ (fields ++ proof) in
    let past : drop (5 + n * 32) all ≡ proof =
      sym (drop-drop (n * 32) 5 all)
      ∙ ap (λ k. drop k (fields ++ proof)) (sym counted)
      ∙ drop-append_left fields proof in
    ap (take 32) past ∙ ap (λ k. take k proof) (sym sized) ∙ take_all proof

module _ (build : Build) where
  -- The program cuts the proof out of the buffer, and goes on when it verifies.
  verify_step-Uploaded :
      (circuit : CircuitType) (pis : List Bytes) (payer buffer : AccountInfo)
      (accounts : List AccountInfo) (l : Ledger) (c n : ℕ) (proof : Bytes)
      → Uploaded c n proof (l buffer.key).bytes
      → length proof ≡ 32
      → verify_proof build.host build.keccak mock (bytes circuit pis proof) l ≡ ok l
      → verify_step build mock circuit pis payer buffer accounts l ≡ ok (l, accounts)
  unfolding verify_step verify_inline state_proof_size ◌>>=◌
  verify_step-Uploaded circuit pis payer buffer accounts l c n proof u sized verified =
      let room : 5 + n * 32 + 32 ≤ length (l buffer.key).bytes =
        omega (arith, ap length u.laid_out, length-append u.fields proof, u.counted, sized) in
      let fits : leb (5 + n * 32 + 32) (length (l buffer.key).bytes) ≡ true =
        ground (arith, room) in
      let at_four : get_elem? (l buffer.key).bytes 4 ≡ some n =
        ap (λ b. get_elem? b 4) u.laid_out in
      let cut : slice (5 + n * 32) 32 (l buffer.key).bytes ≡ proof =
        ap (slice (5 + n * 32) 32) u.laid_out
        ∙ cut_proof u.status c u.low u.high n u.fields proof u.counted sized in
      rw (verify_step, at_four, fits, cut, verified) refl

  abbrev pub client_inputs : TransferPublicInputs → TransferData
  client_inputs public = record {
    anchor = field_to_bytes public.anchor;
    nullifiers = map field_to_bytes public.nullifiers;
    output_commitments = map field_to_bytes public.output_commitments;
    input_count = public.input_count;
    output_count = public.output_count;
    ct_hashes = map field_to_bytes public.ct_hashes;
    tx_binding = field_to_bytes public.tx_binding;
  }

  -- A Transfer that carries the client's inputs and in whose buffer `proof` stands; but for the
  -- proof, nothing is against it: it is signed, the pool is open and has the anchor, the nullifiers
  -- are marked, and the outputs counted.
  pub record Submission (program_id : Pubkey) (public : TransferPublicInputs) (proof : Bytes)
      (accounts : List AccountInfo) (ix_data : Bytes) (l l' : Ledger) : Type 0 where
    pub authority : AccountInfo
    pub tree_state_account : AccountInfo
    pub proof_buffer : AccountInfo
    pub system_program : AccountInfo
    pub rest : List AccountInfo
    pub given : accounts ≡ authority ∷ tree_state_account ∷ proof_buffer ∷ system_program ∷ rest
    pub signed : authority.is_signer ≡ true
    pub carried : build.transfer_codec.try_from_slice ix_data ≡ ok (client_inputs public)
    pub state : TreeState
    pub loaded : load_unpaused build program_id tree_state_account l ≡ ok state
    pub anchored : is_valid_anchor state (field_to_bytes public.anchor) ≡ true
    pub pi_count : ℕ
    pub uploaded : Uploaded 1 pi_count proof (l proof_buffer.key).bytes
    pub marked : Ledger
    pub marks :
        mark_nullifiers build public.input_count
          (map field_to_bytes public.nullifiers)
          authority
          system_program
          program_id
          rest
          l
        ≡ ok marked
    pub counted : TreeState × Ledger
    pub counts :
        insert_outputs public.output_count
          (map field_to_bytes public.output_commitments)
          authority
          state
          marked
        ≡ ok counted
    pub written :
        serialize tree_state_account.key (build.tree_codec.to_vec counted.0) counted.1 ≡ ok l'

  check_transfer :
      (buffer : AccountInfo) (l : Ledger)
      → get_elem? (l buffer.key).bytes 1 ≡ some 1
      → check_circuit build transfer buffer l ≡ ok tt
  unfolding check_circuit ◌>>=◌
  check_transfer buffer l e = rw (e) refl

  submitted :
      (program_id : Pubkey) (public : TransferPublicInputs) (proof : Bytes)
      (accounts : List AccountInfo) (ix_data : Bytes) (l l' : Ledger)
      → build.proof_system ≡ mock
      → length proof ≡ 32
      → Submission program_id public proof accounts ix_data l l'
      → verify_proof build.host build.keccak mock
          (bytes transfer (chain_inputs (transfer_public public)) proof)
          l
        ≡ ok l
      → process_transfer build program_id accounts ix_data l ≡ ok l'
  unfolding process_transfer transfer_extract transfer_from_data chain_inputs next_account_info
      ◌>>=◌
  submitted program_id public proof accounts ix_data l l' chosen sized h verified =
      let step =
        verify_step-Uploaded transfer (chain_inputs (transfer_public public)) h.authority
          h.proof_buffer h.rest l 1 h.pi_count proof h.uploaded sized verified in
      let circuit : get_elem? (l h.proof_buffer.key).bytes 1 ≡ some 1 =
        ap (λ b. get_elem? b 1) h.uploaded.laid_out in
      let extracted : transfer_extract build.proof_system h.proof_buffer (client_inputs public) l
          ≡ transfer_from_data (client_inputs public) =
        ap (λ p. transfer_extract p h.proof_buffer (client_inputs public) l) chosen in
      let inline =
        ap
          (λ p.
            verify_step build p transfer (chain_inputs (transfer_public public)) h.authority
              h.proof_buffer h.rest l)
          chosen
        ∙ step in
      ap (λ a. process_transfer build program_id a ix_data l) h.given
      ∙ require_ok _ _ _ h.signed (
          bind_ok _ _ h.carried (
            bind_ok _ _ h.loaded (
              bind_ok _ _ (check_transfer h.proof_buffer l circuit) (
                bind_ok _ _ extracted (
                  require_ok _ _ _ h.anchored
                    (bind_ok _ _ inline (bind_ok _ _ h.marks (bind_ok _ _ h.counts h.written))))))))

  -- In a mock build, with hashes of 32 bytes: when the statement of a transfer holds, with three
  -- slots on each side and amounts of 64 bits, the prover for the chain gives a proof, and
  -- process_transfer accepts the Transfer that carries these public inputs and has that proof in its
  -- buffer, provided that it is signed, the pool is open and knows the anchor, its nullifiers can be
  -- marked and its outputs counted.
  pub transfer_accepted :
      (crypto : Crypto)
      → build.proof_system ≡ mock
      → ((message : Bytes) → length (build.keccak message) ≡ 32)
      → (public : TransferPublicInputs) (private : TransferPrivateInputs) (program_id : Pubkey)
        (accounts : List AccountInfo) (ix_data : Bytes) (l l' : Ledger)
      → IsTransfer public private
      → TransferStatement crypto public private
      → Submission program_id public
          (onchain_mock_proof_for_public_inputs build.keccak (transfer_public public))
          accounts
          ix_data
          l
          l'
      → (onchain_mock_prove crypto build.keccak (transfer_public public) (transfer_private private)
          ≡ done (onchain_mock_proof_for_public_inputs build.keccak (transfer_public public)))
        × (process_transfer build program_id accounts ix_data l ≡ ok l')
  unfolding onchain_mock_prove mock_prove mock_check onchain_mock_proof_for_public_inputs
  transfer_accepted crypto chosen hashed public private program_id accounts ix_data l l' t stated
        h =
      let checked = (mock_check_transfer-TransferStatement crypto public private t).1 stated in
      (
        rw (checked) refl,
        submitted program_id public
            (onchain_mock_proof_for_public_inputs build.keccak (transfer_public public)) accounts
            ix_data l l' chosen (hashed _) h
            (onchain_accepted crypto build.host build.keccak hashed (transfer_public public) l),
      )
