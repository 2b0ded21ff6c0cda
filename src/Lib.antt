-- ===== src/Lib.antt =====
-- Verification of the node's handling of proposals and blobs.
--
-- The program is a consensus node whose blocks carry blobs. A proposer cuts a block's payload, its
-- execution requests and its blob sidecars into signed parts and streams them; every node collects
-- the messages of a stream, checks the signature, extracts the payload, verifies the KZG proofs of
-- the sidecars and stores them as undecided; when the block is decided its blobs are promoted, and
-- later archived and pruned.
--
-- Common: the shared helpers: Boolean tests, lists, integers, byte strings (big-endian numbers),
-- orders, results, and Kv, the interface of an ordered key-value table, with a table that is a
-- list.
--
-- Types: rounds, proposal parts with the records they carry (crates/types/src/proposal_part.rs,
-- archive.rs, ethereum_compat/beacon_header.rs) and validator sets (validator_set.rs). Byte
-- strings are lists of numbers below 256; u16, u32, u64 and i64 values are numbers or integers
-- with their range as a hypothesis where it matters.
--
-- Streaming: crates/consensus/src/streaming.rs. A stream's heap is the list of its messages by
-- rising sequence number, push and drain are its operations, insert is StreamState::insert and
-- insert_part is PartStreamsMap::insert, by explicit state passing. The two tests of the consensus
-- engine's StreamMessage are the parameter StreamApi.
--
-- Proposal: the parts of a proposal in crates/consensus/src/state.rs: make_proposal_parts (a Draft
-- holds the parts pushed and the bytes hashed), stream_id, stream_proposal,
-- verify_proposal_signature. Message is the message that the parts spell. Payload: the extraction
-- at the start of assemble_and_store_blobs, validate_execution_requests and
-- validate_proposed_timestamp. Keccak and the signature scheme are the parameter Signing, with one
-- hypothesis: what the node signs verifies under its key. The fuel of chunks is the number of
-- bytes, which suffices since every chunk takes at least one.
--
-- Blob: crates/blob_engine/src. Key is store/mod.rs (the byte layout of keys) with the prefixes of
-- store/rocksdb.rs; Store is store/rocksdb.rs over two tables of the interface Kv, with the
-- protobuf form of a sidecar as the parameter BlobCodec; Verifier is verifier.rs with c-kzg as the
-- parameter Kzg; Metrics is metrics.rs; Engine is engine.rs, over the store, the verifier and the
-- counters.
--
-- Metastore: the blob metadata and archive records of crates/consensus/src/store.rs, over tables
-- of the interface Kv, with the protobuf encodings as the parameter Codec; the records are in
-- Types/Metadata (crates/types/src/blob_metadata.rs).
--
-- Merkle: crates/types/src/ethereum_compat/merkle.rs and beacon_block_body.rs. The hash function,
-- the tree, the hasher and the root of a commitment, which other crates define, are the parameter
-- MerkleApi, with laws that say that they compute the complete binary tree of Merkle.Tree. Branch
-- is the loop over a proof, Inclusion the generation and the verification of a proof. Trees have
-- depth 12 (4096 commitments) and 4 (16 fields of a body).
--
-- Sidecar: the sidecars of a proposal in crates/consensus/src/state.rs:
-- prepare_blob_sidecar_parts, verify_blob_sidecars, resolve_parent_root_for_height and, in
-- Restream, rebuild_blob_sidecars_for_restream, over Merkle, Metastore and the keys of Proposal.
-- The root of a header (TreeHash of another crate) is a parameter.
--
-- Chain: the decided values, certificates, undecided proposals, block data and consensus metadata
-- of crates/consensus/src/store.rs, with prune, over tables of the interface Kv. ProposedValue and
-- CommitCertificate belong to the consensus engine; the records have the fields that the store and
-- the commit read.
--
-- Commit: commit of crates/consensus/src/state.rs on a NodeState, the fields of State that it
-- reads and writes, over Chain, Metastore, Blob.Engine and Archive: persist is the first commit of
-- a proposal, replay the repetition for a value that is already decided, advance the end of both.
-- Stale is cleanup_stale_round_blobs; Cleanup is what it removes; Restart is
-- cleanup_stale_blob_metadata and hydrate_blob_parent_root, and Rehydrate is
-- rehydrate_pending_prunes on a NodeState. The merkle root over validator addresses is a
-- parameter; errors that the source only logs are dropped.
--
-- Archiver: build_archive_job of crates/consensus/src/state.rs and, of
-- crates/node/src/archiver.rs, process_job, process_with_retry and the loop over due retries in
-- run. The fuel of run_due bounds the jobs that the loop runs; more than the number of due entries
-- is enough. The outcome of an upload, the time and the signature are parameters, and the channel
-- of notices is a list.
--
-- Archive: handle_archive_notice, prune_archived_height and flush_pending_prunes of
-- crates/consensus/src/state.rs on a Node, the fields of State that they read and write, over
-- Metastore and Blob.Engine. The check of a notice's signature and the proposer that the consensus
-- metadata names are the parameter NoticeApi. Rehydrate is the part of rehydrate_pending_prunes on
-- a Node.
--
-- Tests: the theorems at concrete inputs.
--
-- Not modelled: input and output of the databases and the network, protobuf encodings,
-- recover_pending_archive_jobs and sync packages in state.rs and the rest of
-- received_proposal_part, the node's event loop, the channels and the HTTP request of the
-- archiver, the execution client, the command line and the tools. Counters do not wrap, and
-- database operations succeed; of the encodings that can fail, those of a certificate and of
-- consensus metadata do where the source's fail for the round, and the others are total.
pub mod Common
pub mod Types
pub mod Blob
pub mod Streaming
pub mod Proposal
pub mod Metastore
pub mod Archive
pub mod Merkle
pub mod Sidecar
pub mod Chain
pub mod Commit
pub mod Archiver
pub mod Tests
