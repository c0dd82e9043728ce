-- ===== src/Tests/Insert.antt =====
-- The store's InsertNullifier on concrete data.
use solana_masp.Prelude.{
  ◌≡◌, ◌≢◌, refl, List, [], ◌∷◌, ◌++◌, replicate, bytes_eq, to_le_bytes, from_le_bytes,
}
use solana_masp.Runtime.{ok, ◌>>=◌, AccountInfo, Ledger, next_account_info, serialize, set_data}
use solana_masp.Masp.Inputs.Fields.{concat}
use solana_masp.Masp.Stores.{is_empty, system_program_id}
use solana_masp.Store.{
  StoreBuild, NullifierAccount, new_nullifier_account, create_account_instruction,
  process_insert_nullifier, process_instruction,
}
use solana_masp.Store.Nullifiers.{submit_all, insert_nullifier_once}
use solana_masp.Tests.Runtime.{key, toy_host, toy_creates, create, system}
use solana_masp.Tests.World.{refuses}
use solana_masp.Tests.Scenario.{program, ledger, user, at, spent_at, after}

-- The data of an instruction is the array itself.
abbrev toy_store : StoreBuild
toy_store = record {
  host = toy_host;
  store_codec = refuses (λ s. s.current_root);
  nullifier_codec = refuses (λ (n : NullifierAccount). n.version ∷ (n.nullifier ++ replicate 8 0));
  commitment_codec = record { try_from_slice = λ b. ok b; to_vec = λ b. b };
  insert_nullifier_codec = record { try_from_slice = λ b. ok b; to_vec = λ b. b };
}

abbrev accounts : List AccountInfo
accounts = user ∷ at (spent_at (key 25)) ∷ at system_program_id ∷ []

unfoldable spent : Ledger
spent = after (process_instruction toy_store program accounts (2 ∷ key 25) ledger) ledger

inserted : process_instruction toy_store program accounts (2 ∷ key 25) ledger ≡ ok spent
unfolding spent process_instruction process_insert_nullifier new_nullifier_account toy_host concat
    create_account_instruction system create is_empty serialize set_data next_account_info bytes_eq
    ledger to_le_bytes from_le_bytes ◌>>=◌
inserted = refl

insert_nullifier_once_example :
    process_instruction toy_store program accounts (2 ∷ key 25) (
      submit_all toy_store program
        (record { accounts = accounts; payload = 1 ∷ key 30 } ∷ [])
        spent)
    ≢ ok ledger
insert_nullifier_once_example =
    insert_nullifier_once toy_store toy_creates program accounts accounts (key 25) (key 25) (key 25)
      (record { accounts = accounts; payload = 1 ∷ key 30 } ∷ []) ledger ledger refl refl inserted
