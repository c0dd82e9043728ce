-- ===== src/Lib.antt =====
-- A model of the on-chain programs and of the client of this repository, and theorems about them.
--
-- The programs and their files
--   Protocol (masp-protocol): domain tags in Protocol/Domain, instruction data in Protocol/Data.
--   Masp (programs/solana-masp): the shielded pool. Masp/State is state.rs (the tree state with its
--     ring of anchors, the nullifier marker, the proof buffer's header), Masp/Error is error.rs,
--     Masp/Inputs is inputs.rs, Masp/Verify is verify.rs, Masp/Stores is stores/nullifier_store.rs and
--     stores/commitment_store.rs, Masp/Instructions is instructions.rs and Masp/Entry is lib.rs. A
--     handler has the name of the Rust function: process_transfer of Masp/Instructions/Value is
--     process_transfer of instructions.rs, with load_unpaused, check_circuit, verify_step,
--     mark_nullifiers and insert_outputs for the parts that are loops or that three handlers repeat.
--   Verifier (programs/masp-verifier): buffers, chunks, process_verify and the dispatch.
--   Store (programs/mock-commitment-store): the store of commitments and nullifiers for testing, with
--     proofs on its root in Store/Roots and on its nullifiers in Store/Nullifiers.
--   Client (client): the wallet and the mock backends that it is tested with. Client/Hash is hash.rs
--     and domain.rs, Client/Keys is keys.rs, Client/Note is note.rs, nullifier.rs and tx_binding.rs,
--     Client/Requests and Client/Outcome are the types of traits.rs with the witness of proofs.rs,
--     Client/Proofs and Client/Proofs/Prover are the mock checks, provers and verifiers of proofs.rs,
--     Client/MerkleTree and Client/Store are MockStore of mock.rs, Client/Chain is MockChain of
--     mock.rs, and Client/Wallet with Wallet/Request, Build, Submit and Operations is MaspClient of
--     client.rs; Client/Scanning has the default methods of traits.rs that page through a scan.
--     The wallet calls the chain, which verifies a proof and then writes to its nullifier set and its
--     store, and it reads the store as its indexer; the provers check the statement that the wallet
--     put together, and onchain_mock_prove gives the proof that a mock build of Masp accepts.
--   Prelude has what all share on numbers, lists and bytes; Runtime has the results, the accounts and
--   the interfaces of the Solana runtime and of Borsh; Tests has concrete runs.
--   The other files of Masp are proofs: State/Anchors and State/Window on the ring of anchors,
--   Inputs/Layout and Inputs/RoundTrip on the layout of public inputs, Runs on what a handler that
--   succeeds went through, Growth and Setup on accounts that keep their data, Nullifiers and Outputs on
--   the two loops of Transfer, Transfer, Unshield and Shield on the effect of these handlers,
--   Transactions and Spent on sequences of transactions, Proofs on the proof systems, Upload on
--   chunks, and Guards on Initialize, UpdateRoot and the paused flag. Of Client, MerkleTree/Reference,
--   Update and Paths relate the stored nodes to a reference tree, Store/Insertion, Witnesses and
--   Anchors are on insertions, Chain/Effects, DoubleSpend, Accepted, Ledger and Signatures on sequences
--   of actions, Proofs/Inputs, InputLoop, OutputLoop, Transfer and Unshield on the statements, Proofs/OnChain and
--   Submission on proofs of the client that the program gets, Wallet/Sync, Balance, Spending, Sending
--   and Shielding on the wallet, and Note/RoundTrip on plaintexts.
--
-- How the code is modelled
--   A handler takes the accounts it is given, its data and the ledger, and returns the ledger or an
--   error. A ledger maps keys to an account's owner and data, so that two account infos with one key
--   share their data. An error leaves the ledger as it was, as the runtime does (submit of
--   Masp/Transactions). A Rust panic is the error `panicked`. Bytes are natural numbers; the widths of
--   integers are written out where the code depends on them (leaf counts below 2 ^ 64, the u16 in a
--   buffer's header). The on-chain models have no fuel: every loop runs over a list or a count.
--   Rust features: Build holds what they choose (proof_system, local_testing). The features
--   simple-onchain-store and light-protocol are off, as in the default build.
--   The client's shared objects (Arc<RwLock<..>>) are passed as state, and an async call is a function
--   of the state; a call that fails keeps the writes it made. Field elements are numbers, hash maps
--   are functions, arrays are lists, and random values are arguments. The error client_panicked or
--   chain_panicked is a Rust panic. Balances wrap at 2 ^ 64; the chain's count of its transactions,
--   a u64, is a number without bound. Two functions of the client have fuel, the
--   digits of a counter (digits of Chain, fuel above the number) and the chunks of a ciphertext
--   (chunk_fields, fuel of its length).
--
-- Parameters
--   Host: find_program_address, minimum_balance and invoke_signed. CreatesAccounts, KeepsReadonly and
--   ReadsTreeState (Masp/Build/Laws) state what is relied on: CreateAccount fails on an account with
--   data and gives zero bytes, a call with read-only accounts changes nothing, and Borsh reads a tree
--   state neither from no bytes nor with a leaf count beyond u64. RunsVerifier (Masp/Proofs) says that
--   a call of the verifier's id runs the verifier. keccak, Borsh (a codec per type), ultraplonk_core
--   (UltraplonkCore) and the verification keys that the build embeds (EmbeddedVks) have no laws.
--   Crypto has the Poseidon2 permutation and the Grumpkin group, NoteEncryption the ciphers,
--   ProofVerifier the verifier of a chain and Backend the store, the chain and the prover of a wallet.
--   Tests/Runtime and Tests/World have a concrete instance with all of these laws.
--
-- Not modelled
--   Logging (msg!); the runtime's own checks of ownership, writability and balances; failed borrows;
--   stores/mock.rs and stores/light_nullifier.rs; the circuits. Of the client: backends
--   (RPC, files and external provers), encryption.rs (calls of third-party ciphers), oob.rs, and in
--   client.rs current_anchor and the waiting for an indexer.
pub mod Prelude
pub mod Runtime
pub mod Protocol
pub mod Masp
pub mod Verifier
pub mod Store
pub mod Client
pub mod Tests
