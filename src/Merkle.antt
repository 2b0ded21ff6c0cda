-- ===== src/Merkle.antt =====
-- KZG commitment inclusion proofs (crates/types/src/ethereum_compat/merkle.rs and
-- beacon_block_body.rs). The hash function and the tree, hasher and root of the crates
-- ethereum_hashing, merkle_proof and tree_hash are a parameter. Hashes are byte strings.
pub mod Tree
pub mod Branch
pub mod Inclusion
use ultramarine.Common.{
  ℕ, zero, suc, ◌+◌, ◌-◌, ◌*◌, ◌/◌, ◌%◌, ◌^◌, ◌≤◌, ◌<◌, ◌≡◌, Bool, true, false, ◌&&◌, ◌||◌, not,
  Option, none, some, List, [], ◌∷◌, ◌++◌, map, length, take, drop, replicate, get_elem?, leb, ltb,
  ◌==◌, if◌then◌else◌,
}
use ultramarine.Common.Ord.{bytes_ord}
use ultramarine.Common.Result.{Result, ok, err, ◌>>=◌}
use ultramarine.Types.Metadata.{ExecutionPayloadHeader}
use ultramarine.Proposal.{chunks}
use Tree.{zero_leaf, pad, tree_root, siblings, leaf_at, to_le}

-- `hash32_concat`, `MerkleTree`, `MerkleHasher`, `mix_in_length` and `TreeHash::tree_hash_root` of
-- a commitment. A tree of depth `d` is the complete binary tree over `2 ^ d` leaves, and a proof is
-- the path of siblings from the leaf up; the hasher pads its leaves with zeros to the same tree; the
-- length of a list is its right sibling.
pub record MerkleApi : Type 1 where
  pub hash32_concat : List ℕ → List ℕ → List ℕ
  pub commitment_root : List ℕ → List ℕ
  pub MerkleTree : Type 0
  pub create : List (List ℕ) → ℕ → MerkleTree
  pub tree_hash : MerkleTree → List ℕ
  pub generate_proof : MerkleTree → ℕ → ℕ → Result (Unit {0}) (List ℕ × List (List ℕ))
  pub merkle_hasher : ℕ → List (List ℕ) → List ℕ
  pub mix_in_length : List ℕ → ℕ → List ℕ
  pub tree_hash-create :
      (d : ℕ) (leaves : List (List ℕ))
      → length leaves ≡ 2 ^ d
      → tree_hash (create leaves d) ≡ tree_root hash32_concat d leaves
  pub generate_proof-create :
      (d i : ℕ) (leaves : List (List ℕ))
      → length leaves ≡ 2 ^ d
      → i < 2 ^ d
      → generate_proof (create leaves d) i d
        ≡ ok (leaf_at leaves i, siblings hash32_concat d leaves i)
  pub merkle_hasher_root :
      (d : ℕ) (leaves : List (List ℕ))
      → length leaves ≤ 2 ^ d
      → merkle_hasher (2 ^ d) leaves ≡ tree_root hash32_concat d (pad (2 ^ d) leaves)
  pub mix_in_length_root :
      (root : List ℕ) (n : ℕ)
      → mix_in_length root n ≡ hash32_concat root (to_le 8 n ++ replicate 24 0)

abbrev pub max_blob_commitments_per_block : ℕ
max_blob_commitments_per_block = 4096

-- `MAX_BLOB_COMMITMENTS_PER_BLOCK.next_power_of_two().ilog2()`.
abbrev pub commitments_depth : ℕ
commitments_depth = 12

abbrev pub body_leaves : ℕ
body_leaves = 16

abbrev pub body_depth : ℕ
body_depth = 4

abbrev pub blob_kzg_commitments_index : ℕ
blob_kzg_commitments_index = 11

abbrev pub kzg_commitment_inclusion_proof_depth : ℕ
kzg_commitment_inclusion_proof_depth = 17

pub record Eth1Data : Type 0 where
  pub deposit_root : List ℕ
  pub deposit_count : ℕ
  pub block_hash : List ℕ

pub record SyncAggregate : Type 0 where
  pub sync_committee_bits : List ℕ
  pub sync_committee_signature : List ℕ

pub record BeaconBlockBodyMinimal : Type 0 where
  pub randao_reveal : List ℕ
  pub eth1_data : Eth1Data
  pub graffiti : List ℕ
  pub proposer_slashings : List ℕ
  pub attester_slashings : List ℕ
  pub attestations : List ℕ
  pub deposits : List ℕ
  pub voluntary_exits : List ℕ
  pub sync_aggregate : SyncAggregate
  pub execution_payload_root : List ℕ
  pub bls_to_execution_changes : List ℕ
  pub blob_kzg_commitments : List (List ℕ)

pub data MerkleError : Type 0 where
  too_many_commitments tree_error empty_commitments : MerkleError
  index_out_of_bounds : ℕ → MerkleError

-- `[a..b]` of a byte string.
abbrev pub slice : ℕ → ℕ → List ℕ → List ℕ
slice a b l = take (b - a) (drop a l)

abbrev pub all_zero : ℕ → List ℕ
all_zero n = replicate n 0

abbrev pub u64_to_bytes32 : ℕ → List ℕ
u64_to_bytes32 n = to_le 8 n ++ replicate 24 0

-- A chunk of at most 32 bytes, filled with zeros.
abbrev pub pad_chunk : List ℕ → List ℕ
pad_chunk c = c ++ replicate (32 - length c) 0

-- `from_ultramarine_data`, with the root of the execution payload header.
unfoldable pub from_ultramarine_data : List (List ℕ) → List ℕ → BeaconBlockBodyMinimal
from_ultramarine_data commitments payload_root = record {
  randao_reveal = all_zero 96;
  eth1_data = record { deposit_root = all_zero 32; deposit_count = 0; block_hash = all_zero 32 };
  graffiti = all_zero 32;
  proposer_slashings = [];
  attester_slashings = [];
  attestations = [];
  deposits = [];
  voluntary_exits = [];
  sync_aggregate = record {
    sync_committee_bits = all_zero 64;
    sync_committee_signature = all_zero 96;
  };
  execution_payload_root = payload_root;
  bls_to_execution_changes = [];
  blob_kzg_commitments = commitments;
}

module _ (api : MerkleApi) where
  unfoldable pub merkle_root_from_branch : List ℕ → List (List ℕ) → ℕ → List ℕ
  merkle_root_from_branch value [] index = value
  merkle_root_from_branch value (s ∷ branch) index =
      merkle_root_from_branch
        (if index % 2 == 1 then api.hash32_concat s value else api.hash32_concat value s) branch
        (index / 2)

  pub eth1_root : Eth1Data → List ℕ
  eth1_root e =
      api.merkle_hasher 4
        (e.deposit_root ∷ (to_le 8 e.deposit_count ++ all_zero 24) ∷ e.block_hash ∷ [])

  -- The root of 96 bytes: three chunks.
  pub root96 : List ℕ → List ℕ
  root96 b = api.merkle_hasher 4 (slice 0 32 b ∷ slice 32 64 b ∷ slice 64 96 b ∷ [])

  pub sync_root : SyncAggregate → List ℕ
  unfolding root96
  sync_root s = api.merkle_hasher 2 (
      api.merkle_hasher 2
        (slice 0 32 s.sync_committee_bits ∷ slice 32 64 s.sync_committee_bits ∷ [])
      ∷ root96 s.sync_committee_signature
      ∷ [])

  -- `mix_in_length` of beacon_block_body.rs, which does not use the one of the tree_hash crate.
  unfoldable pub mix_length : List ℕ → ℕ → List ℕ
  mix_length root n = api.hash32_concat root (u64_to_bytes32 n)

  unfoldable pub tree_hash_empty_list : List ℕ
  unfolding mix_length
  tree_hash_empty_list = mix_length zero_leaf 0

  -- `tree_hash_fixed_vector` of bytes whose number is a multiple of 32.
  pub tree_hash_fixed_vector : List ℕ → List ℕ
  tree_hash_fixed_vector [] = zero_leaf
  tree_hash_fixed_vector (x ∷ xs) = api.merkle_hasher (length (x ∷ xs) / 32) (chunks 32 (x ∷ xs))

  pub tree_hash_variable_bytes_ssz : List ℕ → List ℕ
  unfolding tree_hash_empty_list mix_length
  tree_hash_variable_bytes_ssz [] = tree_hash_empty_list
  tree_hash_variable_bytes_ssz (x ∷ xs) =
      mix_length
        (api.merkle_hasher ((length (x ∷ xs) + 31) / 32) (map pad_chunk (chunks 32 (x ∷ xs))))
        (length (x ∷ xs))

  -- `compute_execution_payload_header_root`. It gives 17 leaves to a hasher of 16: what the hasher
  -- makes of the last one is its own.
  pub compute_execution_payload_header_root : ExecutionPayloadHeader → List ℕ
  unfolding tree_hash_fixed_vector tree_hash_variable_bytes_ssz
  compute_execution_payload_header_root h = api.merkle_hasher 16 (
      h.parent_hash
      ∷ pad_chunk h.fee_recipient
      ∷ h.state_root
      ∷ h.receipts_root
      ∷ tree_hash_fixed_vector h.logs_bloom
      ∷ h.prev_randao
      ∷ u64_to_bytes32 h.block_number
      ∷ u64_to_bytes32 h.gas_limit
      ∷ u64_to_bytes32 h.gas_used
      ∷ u64_to_bytes32 h.timestamp
      ∷ tree_hash_variable_bytes_ssz h.extra_data
      ∷ to_le 32 h.base_fee_per_gas
      ∷ h.block_hash
      ∷ h.transactions_root
      ∷ h.withdrawals_root
      ∷ u64_to_bytes32 h.blob_gas_used
      ∷ u64_to_bytes32 h.excess_blob_gas
      ∷ [])

  abbrev pub commitment_leaves : List (List ℕ) → List (List ℕ)
  commitment_leaves cs = pad (2 ^ commitments_depth) (map (λ c. api.commitment_root c) cs)

  -- `tree_hash_kzg_commitments`. `resize` truncates a list that is too long.
  pub tree_hash_kzg_commitments : List (List ℕ) → List ℕ
  unfolding mix_length tree_hash_empty_list
  tree_hash_kzg_commitments [] = tree_hash_empty_list
  tree_hash_kzg_commitments (c ∷ cs) =
      mix_length
        (api.tree_hash (
          api.create (take (2 ^ commitments_depth) (commitment_leaves (c ∷ cs))) commitments_depth))
        (length (c ∷ cs))

  -- The leaves of a body before the root of its commitments, with the root of an empty list.
  pub first_leaves : List ℕ → BeaconBlockBodyMinimal → List (List ℕ)
  unfolding eth1_root root96 sync_root
  first_leaves empty b =
      root96 b.randao_reveal
      ∷ eth1_root b.eth1_data
      ∷ b.graffiti
      ∷ empty
      ∷ empty
      ∷ empty
      ∷ empty
      ∷ empty
      ∷ sync_root b.sync_aggregate
      ∷ b.execution_payload_root
      ∷ empty
      ∷ []

  -- `compute_body_root`: the twelve fields go through the hasher.
  pub compute_body_root : BeaconBlockBodyMinimal → List ℕ
  unfolding first_leaves tree_hash_kzg_commitments
  compute_body_root b =
      api.merkle_hasher body_leaves (
        first_leaves tree_hash_empty_list b
        ++ tree_hash_kzg_commitments b.blob_kzg_commitments ∷ [])

  -- `body_merkle_leaves`: the same fields, padded with zeros.
  pub body_merkle_leaves : BeaconBlockBodyMinimal → List ℕ → List (List ℕ)
  unfolding first_leaves
  body_merkle_leaves b commitments_root =
      pad body_leaves (first_leaves (api.mix_in_length zero_leaf 0) b ++ commitments_root ∷ [])

  pub commitments_subtree_proof : List (List ℕ) → ℕ → Result MerkleError (List (List ℕ) × List ℕ)
  commitments_subtree_proof commitments index =
      if ltb (2 ^ commitments_depth) (length commitments)
      then err too_many_commitments
      else (let tree = api.create (commitment_leaves commitments) commitments_depth in
          elim (api.generate_proof tree index commitments_depth) [
            | err e ↦ err tree_error
            | ok (leaf, proof) ↦ ok (
              proof ++ u64_to_bytes32 (length commitments) ∷ [],
              api.mix_in_length (api.tree_hash tree) (length commitments),
            )
          ])

  pub body_subtree_proof_with_body :
      List ℕ → BeaconBlockBodyMinimal → Result MerkleError (List (List ℕ))
  body_subtree_proof_with_body list_root body =
      elim (api.generate_proof (api.create (body_merkle_leaves body list_root) body_depth)
        blob_kzg_commitments_index body_depth) [
          | err e ↦ err tree_error
          | ok (leaf, proof) ↦ ok proof
        ]

  pub generate_kzg_commitment_inclusion_proof :
      List (List ℕ) → ℕ → BeaconBlockBodyMinimal → Result MerkleError (List (List ℕ))
  generate_kzg_commitment_inclusion_proof [] index body = err empty_commitments
  generate_kzg_commitment_inclusion_proof (c ∷ cs) index body =
      if leb (length (c ∷ cs)) index
      then err (index_out_of_bounds index)
      else (commitments_subtree_proof (c ∷ cs) index >>= λ r.
          body_subtree_proof_with_body r.1 body >>= λ body_proof. ok (r.0 ++ body_proof))

  -- The roots that `verify_kzg_commitment_inclusion_proof` computes from a proof of the right form
  -- (also `reconstruct_roots_from_proof` of crates/consensus/src/state.rs).
  unfoldable pub reconstruct_roots_from_proof :
      List ℕ → List (List ℕ) → ℕ → Option (List ℕ × List ℕ)
  unfolding merkle_root_from_branch
  reconstruct_roots_from_proof commitment proof index =
      if length proof == kzg_commitment_inclusion_proof_depth
        && ltb index max_blob_commitments_per_block
      then (let commitments_root =
            merkle_root_from_branch (api.commitment_root commitment)
              (take (commitments_depth + 1) proof) index in
          some (
            commitments_root,
            merkle_root_from_branch commitments_root (drop (commitments_depth + 1) proof)
                blob_kzg_commitments_index,
          ))
      else none

  unfoldable pub verify_kzg_commitment_inclusion_proof : List ℕ → List (List ℕ) → ℕ → List ℕ → Bool
  verify_kzg_commitment_inclusion_proof commitment proof index body_root =
      elim (reconstruct_roots_from_proof commitment proof index) [
        | none ↦ false
        | some (list_root, root) ↦ bytes_ord.eq root body_root
      ]
