-- ===== src/Chain.antt =====
-- The values, certificates and block data of crates/consensus/src/store.rs: redb tables, which are
-- tables of the interface `Kv`, and protobuf encodings, which are parameters. Transactions of the
-- database succeed. A round is its i64 in the keys.
pub mod Prune
pub mod Reads
pub mod Greatest
use ultramarine.Common.{
  ℕ, ◌^◌, ◌≡◌, Bool, true, false, ◌||◌, ◌&&◌, Option, none, some, List, [], ◌∷◌, ltb, ◌==◌, is_some,
  if◌then◌else◌,
}
use ultramarine.Common.Int.{ℤ, negsuc, ltℤ}
use ultramarine.Common.Ord.{Ord, nat_ord, int_ord, pair_ord, bytes_ord, pair_lt}
use ultramarine.Common.Kv.{Kv}
use ultramarine.Common.Result.{Result, ok, err, ◌>>=◌}
use ultramarine.Types.Round.{Round, nil, num, as_i64}
use ultramarine.Metastore.{StoreError, protobuf, Codec}
use ultramarine.Sidecar.{ValueMetadata}

-- crates/types/src/value.rs: the hash that is voted on, and the metadata.
pub record Value : Type 0 where
  pub value : ℕ
  pub metadata : ValueMetadata

-- `ProposedValue` and `CommitCertificate` of the consensus engine, as far as the store reads them; the
-- votes of a certificate are its bytes.
pub record ProposedValue : Type 0 where
  pub height : ℕ
  pub round : Round
  pub proposer : List ℕ
  pub value : Value

pub record CommitCertificate : Type 0 where
  pub height : ℕ
  pub round : Round
  pub votes : List ℕ

pub record DecidedValue : Type 0 where
  pub value : Value
  pub certificate : CommitCertificate

pub record BlockPayloadRecord : Type 0 where
  pub execution_payload_ssz : List ℕ
  pub execution_requests : List (List ℕ)

-- crates/types/src/consensus_block_metadata.rs
pub record ConsensusBlockMetadata : Type 0 where
  pub height : ℕ
  pub round : Round
  pub proposer : List ℕ
  pub timestamp : ℕ
  pub validator_set_hash : List ℕ
  pub execution_block_hash : List ℕ
  pub gas_limit : ℕ
  pub gas_used : ℕ

-- The protobuf form of a payload record: what is encoded is decoded. A stored value also counts as
-- plain bytes.
pub record PayloadProto : Type 1 where
  pub Stored : Type 0
  pub bytes : Stored → List ℕ
  pub encode : BlockPayloadRecord → Stored
  pub decode_proto : Stored → Option BlockPayloadRecord
  pub decode_proto-encode : (r : BlockPayloadRecord) → decode_proto (encode r) ≡ some r

pub record ChainTables : Type 1 where
  pub values : Codec Value
  pub certificates : Codec CommitCertificate
  pub proposals : Codec ProposedValue
  pub consensus : Codec ConsensusBlockMetadata
  pub payloads : PayloadProto
  pub eq_consensus : consensus.Stored → consensus.Stored → Bool
  pub eq_consensus_iff : (a b : consensus.Stored) → eq_consensus a b ≡ true → a ≡ b
  pub values_table : Kv ℕ values.Stored
  pub certificates_table : Kv ℕ certificates.Stored
  pub proposals_table : Kv (ℕ × ℤ) proposals.Stored
  pub decided_data_table : Kv ℕ payloads.Stored
  pub undecided_data_table : Kv (ℕ × ℤ) payloads.Stored
  pub consensus_table : Kv ℕ consensus.Stored

pub record ChainDb (t : ChainTables) : Type 0 where
  pub decided_values : t.values_table.Map
  pub certificates : t.certificates_table.Map
  pub undecided_proposals : t.proposals_table.Map
  pub decided_block_data : t.decided_data_table.Map
  pub undecided_block_data : t.undecided_data_table.Map
  pub consensus_metadata : t.consensus_table.Map

-- `.ok()`.
abbrev pub ok_value {ℓ} : {E A : Type ℓ} → Result E A → Option A
ok_value (ok a) = some a
ok_value (err e) = none

-- The loop of `prune` over the keys of a range.
unfoldable pub remove_all : {K V : Type 0} ⦃o : Ord K⦄ (kv : Kv K V) → List K → kv.Map → kv.Map
remove_all ⦃o⦄ kv [] m = m
remove_all ⦃o⦄ kv (k ∷ l) m = remove_all kv l (kv.remove k m)

-- `table.range(..bound)` of an ascending table.
unfoldable pub keys_below_bound : {K V : Type 0} ⦃o : Ord K⦄ → K → List (K × V) → List K
keys_below_bound ⦃o⦄ bound [] = []
keys_below_bound ⦃o⦄ bound ((k, v) ∷ l) =
    let rest = keys_below_bound bound l in if o.lt k bound then k ∷ rest else []

abbrev pub is_nil : Round → Bool
is_nil nil = true
is_nil (num r) = false

-- `i32::try_from(round.as_i64())` succeeds.
abbrev pub fits_i32 : Round → Bool
fits_i32 nil = true
fits_i32 (num r) = ltb r (2 ^ 31)

module _ (t : ChainTables) where
  -- A record that is not a protobuf message is the payload alone.
  pub decode_payload : t.payloads.Stored → BlockPayloadRecord
  decode_payload b = elim (t.payloads.decode_proto b) [
    | some r ↦ r
    | none ↦ record { execution_payload_ssz = t.payloads.bytes b; execution_requests = [] }
  ]

  -- `Option::zip`.
  unfoldable pub zip_decided : Option Value → Option CommitCertificate → Option DecidedValue
  zip_decided none o = none
  zip_decided (some v) none = none
  zip_decided (some v) (some c) = some (record { value = v; certificate = c })

  abbrev pub read_stored : {A : Type 0} (codec : Codec A) → Option codec.Stored → Option A
  read_stored codec none = none
  read_stored codec (some b) = ok_value (codec.decode b)

  -- A value or a certificate that cannot be decoded counts as missing.
  unfoldable pub get_decided_value : ChainDb t → ℕ → Option DecidedValue
  get_decided_value db height =
      zip_decided (read_stored t.values (t.values_table.get height db.decided_values))
        (read_stored t.certificates (t.certificates_table.get height db.certificates))

  -- The certificate of the round `Nil` has no encoding.
  unfoldable pub insert_decided_value : ChainDb t → DecidedValue → Result StoreError (ChainDb t)
  insert_decided_value db d =
      if is_nil d.certificate.round
      then err protobuf
      else ok (record db {
        decided_values =
            t.values_table.insert d.certificate.height (t.values.encode d.value) db.decided_values;
        certificates =
            t.certificates_table.insert d.certificate.height (t.certificates.encode d.certificate)
              db.certificates;
      })

  unfoldable pub get_undecided_proposal :
      ChainDb t → ℕ → Round → Result StoreError (Option ProposedValue)
  get_undecided_proposal db height round =
      elim (t.proposals_table.get (height, as_i64 round) db.undecided_proposals) [
        | none ↦ ok none
        | some b ↦ do p ← t.proposals.decode b; ok (some p)
      ]

  -- The first proposal of a round is kept.
  unfoldable pub insert_undecided_proposal : ChainDb t → ProposedValue → ChainDb t
  insert_undecided_proposal db p =
      if is_some (t.proposals_table.get (p.height, as_i64 p.round) db.undecided_proposals)
      then db
      else record db {
        undecided_proposals =
            t.proposals_table.insert (p.height, as_i64 p.round) (t.proposals.encode p)
              db.undecided_proposals;
      }

  unfoldable pub delete_undecided_proposal : ChainDb t → ℕ → Round → ChainDb t
  delete_undecided_proposal db height round = record db {
    undecided_proposals = t.proposals_table.remove (height, as_i64 round) db.undecided_proposals;
  }

  -- The bound of the range is `(retain_height, Round::Nil)`, which is excluded.
  unfoldable pub prune : ChainDb t → ℕ → ChainDb t
  unfolding remove_all keys_below_bound
  prune db retain_height = record db {
    undecided_proposals =
        remove_all t.proposals_table
          (keys_below_bound (retain_height, negsuc 0)
            (t.proposals_table.entries db.undecided_proposals))
          db.undecided_proposals;
    undecided_block_data =
        remove_all t.undecided_data_table
          (keys_below_bound (retain_height, negsuc 0)
            (t.undecided_data_table.entries db.undecided_block_data))
          db.undecided_block_data;
  }

  -- `first` and `last` of a table.
  pub min_decided_value_height : ChainDb t → Option ℕ
  min_decided_value_height db = elim (t.values_table.entries db.decided_values) [
    | [] ↦ none
    | e ∷ l ↦ some e.0
  ]

  unfoldable pub last_height : Option ℕ → List (ℕ × t.values.Stored) → Option ℕ
  last_height h [] = h
  last_height h ((k, v) ∷ l) = last_height (some k) l

  unfoldable pub max_decided_value_height : ChainDb t → Option ℕ
  unfolding last_height
  max_decided_value_height db = last_height none (t.values_table.entries db.decided_values)

  -- The data of an undecided round are tried first, then those of the decided height.
  unfoldable pub load_block_payload_record : ChainDb t → ℕ → Round → Option BlockPayloadRecord
  unfolding decode_payload
  load_block_payload_record db height round =
      elim (t.undecided_data_table.get (height, as_i64 round) db.undecided_block_data) [
        | some b ↦ some (decode_payload b)
        | none ↦ elim (t.decided_data_table.get height db.decided_block_data) [
          | some b ↦ some (decode_payload b)
          | none ↦ none
        ]
      ]

  pub get_block_data : ChainDb t → ℕ → Round → Option (List ℕ)
  unfolding load_block_payload_record
  get_block_data db height round = elim (load_block_payload_record db height round) [
    | none ↦ none
    | some r ↦ some r.execution_payload_ssz
  ]

  pub get_execution_requests : ChainDb t → ℕ → Round → Option (List (List ℕ))
  unfolding load_block_payload_record
  get_execution_requests db height round = elim (load_block_payload_record db height round) [
    | none ↦ none
    | some r ↦ some r.execution_requests
  ]

  unfoldable pub insert_undecided_block_data :
      ChainDb t → ℕ → Round → BlockPayloadRecord → ChainDb t
  insert_undecided_block_data db height round r =
      if is_some (t.undecided_data_table.get (height, as_i64 round) db.undecided_block_data)
      then db
      else record db {
        undecided_block_data =
            t.undecided_data_table.insert (height, as_i64 round) (t.payloads.encode r)
              db.undecided_block_data;
      }

  unfoldable pub delete_undecided_block_data : ChainDb t → ℕ → Round → ChainDb t
  delete_undecided_block_data db height round = record db {
    undecided_block_data =
        t.undecided_data_table.remove (height, as_i64 round) db.undecided_block_data;
  }

  -- The first data of a height are kept.
  unfoldable pub insert_decided_block_data : ChainDb t → ℕ → BlockPayloadRecord → ChainDb t
  insert_decided_block_data db height r =
      if is_some (t.decided_data_table.get height db.decided_block_data) then db else record db {
        decided_block_data =
            t.decided_data_table.insert height (t.payloads.encode r) db.decided_block_data;
      }

  abbrev pub same_metadata : Option t.consensus.Stored → t.consensus.Stored → Bool
  same_metadata none bytes = false
  same_metadata (some old) bytes = t.eq_consensus old bytes

  -- A round above `i32::MAX` has no encoding, and an equal record is not written again.
  unfoldable pub insert_consensus_block_metadata :
      ChainDb t → ℕ → ConsensusBlockMetadata → Result StoreError (ChainDb t)
  insert_consensus_block_metadata db height m =
      let bytes = t.consensus.encode m in
      if fits_i32 m.round
      then (if same_metadata (t.consensus_table.get height db.consensus_metadata) bytes
          then ok db
          else ok (record db {
            consensus_metadata = t.consensus_table.insert height bytes db.consensus_metadata;
          }))
      else err protobuf

  pub get_consensus_block_metadata :
      ChainDb t → ℕ → Result StoreError (Option ConsensusBlockMetadata)
  get_consensus_block_metadata db height =
      elim (t.consensus_table.get height db.consensus_metadata) [
        | none ↦ ok none
        | some b ↦ do m ← t.consensus.decode b; ok (some m)
      ]
