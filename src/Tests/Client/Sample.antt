-- ===== src/Tests/Client/Sample.antt =====
-- A wallet with one note in a tree of depth 2.
use solana_masp.Prelude.{◌+◌, ◌*◌, ◌%◌, ℕ, false, [], ◌∷◌, Bytes}
use solana_masp.Client.Outcome.{raised, done}
use solana_masp.Client.Hash.{Crypto, Affine, SpongeState, modulus}
use solana_masp.Client.Keys.{
  SpendingKey, DiversifiedAddress, diversified_address, to_full_viewing_key,
}
use solana_masp.Client.Note.{Note, commitment}
use solana_masp.Client.Requests.{MembershipWitness, merkle_path}
use solana_masp.Client.Store.{MockStore, new_store, insert_internal, get_witness}
use solana_masp.Client.Wallet.{OwnedNote, Wallet, new_wallet, add_note}
use solana_masp.Client.Proofs.Inputs.{recipient_of}

abbrev pub toy_permutation : SpongeState → SpongeState
toy_permutation s = record {
  s0 = (s.s0 + 2 * s.s1 + 3 * s.s2 + s.s3 + 7) % modulus;
  s1 = (s.s1 + s.s0 + 11) % modulus;
  s2 = (s.s2 + s.s1 + 13) % modulus;
  s3 = (s.s3 + s.s0) % modulus;
}

abbrev pub toy_mul : Affine → ℕ → Affine
toy_mul p n = record { x = (p.x * n + 1) % modulus; y = p.y }

abbrev pub toy_generator : Affine
toy_generator = record { x = 3; y = 5 }

unfoldable pub toy : Crypto
toy = record { permutation = toy_permutation; generator = toy_generator; mul = toy_mul }

abbrev pub key : SpendingKey
key = record { sk = 1234 }

-- The note's amount is 100.
unfoldable pub note : Note
unfolding toy recipient_of
note = record {
  asset_id = 42;
  amount = 100;
  recipient = recipient_of toy 1234 0;
  diversifier_index = 0;
  nullifier_nonce = 77;
  note_randomness = 88;
}

abbrev pub sig : Bytes
sig = 1 ∷ 2 ∷ []

unfoldable pub store : MockStore
unfolding insert_internal new_store commitment note
store = (insert_internal toy (new_store toy 2) (commitment toy note) sig).0

unfoldable pub witness : MembershipWitness
unfolding store get_witness
witness = elim (get_witness store (commitment toy note)) [
  | raised e ↦ merkle_path [] [] 0
  | done w ↦ w
]

unfoldable pub wallet : Wallet
unfolding new_wallet add_note note
wallet = add_note toy (new_wallet toy key) note sig

unfoldable pub owned : OwnedNote
owned = record { note = note; cm = commitment toy note; tx_sig = sig; spent = false }

unfoldable pub friend : DiversifiedAddress
unfolding diversified_address to_full_viewing_key
friend = diversified_address toy (to_full_viewing_key toy (record { sk = 99 })) 5
