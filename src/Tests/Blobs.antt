-- ===== src/Tests/Blobs.antt =====
-- Tests of the blob store and the blob engine (crates/blob_engine/src).
use ultramarine.Common.{ℕ, ◌≡◌, ◌≢◌, ◌<◌, ◌^◌, ◌+◌, refl, none, some, List, [], ◌∷◌, length, arith}
use ultramarine.Common.Int.{pos, add_ℕ, eqℤ_iff}
use ultramarine.Common.Bytes.{IsI64}
use ultramarine.Common.Ord.{bytes_ord}
use ultramarine.Common.Result.{ok, err}
use ultramarine.Types.Part.{BlobSidecar}
use ultramarine.Blob.Key.{BlobKey, IsKey, to_undecided_key}
use ultramarine.Blob.Store.{
  BlobDb, put_blobs, put_undecided_blobs, mark_decided, drop_round, prune_before,
}
use ultramarine.Common.{ap}
use ultramarine.Blob.Store.View.{IsPromoted, IsStore, undecided_at, decided_at, round_entries}
use ultramarine.Blob.Store.Moves.{or_else}
use ultramarine.Blob.Store.Promote.{mark_decided_round, mark_decided_other_round, drop_round_lem}
use ultramarine.Blob.Store.Writes.{AllIndices, latest, put_undecided_blobs_lem, put_blobs-IsStore}
use ultramarine.Blob.Store.Removal.{moves-IsStore, prune_before_lem}
use ultramarine.Blob.Metrics.{zeros}
use ultramarine.Blob.Verifier.{AllVerified, BlobVerificationError, verify_blob_sidecars_batch}
use ultramarine.Blob.Engine.{
  Engine, verify_and_store, after_verification, stored, verification_failed, failing_index,
}
use ultramarine.Blob.Engine.Gate.{verify_and_store_gate, verify_and_store_twice}
use ultramarine.Tests.Data.{tables, test_codec, test_kzg, plain}

abbrev blobs : List BlobSidecar
blobs = plain 0 (7 ∷ []) ∷ plain 1 (8 ∷ []) ∷ []

abbrev key : BlobKey
key = record { height = 5; round = pos 0; index = 1 }

height_range : 5 < 2 ^ 64
height_range = omega arith

round_range : IsI64 (pos 0)
round_range = omega arith

other_range : IsI64 (pos 1)
other_range = omega arith

key-IsKey : IsKey key
key-IsKey = record {
  height_range = height_range;
  round_range = round_range;
  index_range = omega arith;
}

indices : AllIndices blobs
indices = (omega arith, (omega arith, tt))

abbrev empty_db : BlobDb tables
empty_db = record { undecided = tables.empty; decided = tables.empty }

empty_db-IsStore : IsStore tables empty_db
empty_db-IsStore = record { keyed = λ j v e. absurd (ground (arith, tables.get-empty j, e)) }

abbrev pub db : BlobDb tables
db = (put_undecided_blobs tables test_codec empty_db 5 (pos 0) blobs).1

stored_two : (put_undecided_blobs tables test_codec empty_db 5 (pos 0) blobs).0 ≡ ok 2
unfolding put_undecided_blobs put_blobs
stored_two = refl

put_undecided_blobs_example :
    (2 ≡ length blobs)
    × (undecided_at tables db 5 (pos 0) 1
        ≡ or_else (latest test_codec 1 blobs) (undecided_at tables empty_db 5 (pos 0) 1))
    × (db.decided ≡ empty_db.decided)
put_undecided_blobs_example =
    put_undecided_blobs_lem tables test_codec 5 (pos 0) height_range round_range empty_db blobs 2
      key indices key-IsKey stored_two

pub db-IsStore : IsStore tables db
unfolding put_undecided_blobs
db-IsStore =
    put_blobs-IsStore tables test_codec 5 (pos 0) height_range round_range empty_db blobs indices
      empty_db-IsStore

second : undecided_at tables db 5 (pos 0) 1 ≡ some (1 ∷ 8 ∷ [])
second =
    (put_undecided_blobs_lem tables test_codec 5 (pos 0) height_range round_range empty_db blobs 2
      key indices key-IsKey stored_two).1

only_round :
    (k : BlobKey) (v : List ℕ)
    → IsKey k
    → k.height ≡ 5
    → tables.get (to_undecided_key k) db.undecided ≡ some v
    → k.round ≡ pos 0
only_round k v valid p e = ground (
  arith,
  (put_undecided_blobs_lem tables test_codec 5 (pos 0) height_range round_range empty_db blobs 2 k
      indices valid stored_two).1,
  tables.get-empty (to_undecided_key k),
  eqℤ_iff k.round (pos 0),
  e,
)

mark_decided_round_example :
    ((mark_decided tables test_codec db 5 (pos 0)).0
      ≡ length (round_entries tables db db-IsStore 5 (pos 0) height_range round_range))
    × (undecided_at tables (mark_decided tables test_codec db 5 (pos 0)).2 5 (pos 0) 1 ≡ none)
    × (decided_at tables (mark_decided tables test_codec db 5 (pos 0)).2 5 1
        ≡ or_else (undecided_at tables db 5 (pos 0) 1) (decided_at tables db 5 1))
mark_decided_round_example =
    mark_decided_round tables test_codec db db-IsStore 5 (pos 0) height_range round_range 1
      (1 ∷ 8 ∷ []) (omega arith) second key key-IsKey

drop_round_example :
    ((drop_round tables test_codec db 5 (pos 0)).0
      ≡ length (round_entries tables db db-IsStore 5 (pos 0) height_range round_range))
    × (undecided_at tables (drop_round tables test_codec db 5 (pos 0)).2 5 (pos 0) 1 ≡ none)
    × ((drop_round tables test_codec db 5 (pos 0)).2.decided ≡ db.decided)
drop_round_example =
    drop_round_lem tables test_codec 5 (pos 0) db db-IsStore height_range round_range key key-IsKey

no_blob : (i : ℕ) → i < 2 ^ 16 → undecided_at tables db 5 (pos 1) i ≡ none
no_blob i hi =
    let k : BlobKey = record { height = 5; round = pos 1; index = i } in
    let valid : IsKey k = record {
      height_range = height_range;
      round_range = other_range;
      index_range = hi;
    } in
    ground (
      arith,
      (put_undecided_blobs_lem tables test_codec 5 (pos 0) height_range round_range empty_db blobs 2
          k indices valid stored_two).1,
      tables.get-empty (to_undecided_key k),
    )

mark_decided_other_round_example :
    mark_decided tables test_codec db 5 (pos 1) ≡ mark_decided tables test_codec db 5 (pos 0)
mark_decided_other_round_example =
    mark_decided_other_round tables test_codec db db-IsStore 5 (pos 1) (pos 0) height_range
      other_range round_range no_blob only_round 1 (1 ∷ 8 ∷ []) (omega arith) second

same_decided : db.decided ≡ empty_db.decided
same_decided =
    (put_undecided_blobs_lem tables test_codec 5 (pos 0) height_range round_range empty_db blobs 2
      key indices key-IsKey stored_two).2

db-IsPromoted : IsPromoted tables db
db-IsPromoted = record {
  promoted =
      λ j v e. absurd (ground (arith, tables.get-empty j, ap (tables.get j) same_decided, e));
}

moves-IsStore_example :
    (IsStore tables (mark_decided tables test_codec db 5 (pos 0)).2
      × IsPromoted tables (mark_decided tables test_codec db 5 (pos 0)).2)
    × (IsStore tables (drop_round tables test_codec db 5 (pos 0)).2
        × IsPromoted tables (drop_round tables test_codec db 5 (pos 0)).2)
moves-IsStore_example = moves-IsStore tables test_codec db 5 (pos 0) db-IsStore db-IsPromoted

prune_before_example :
    (decided_at tables (prune_before tables db 6).1 5 1 ≡ none)
    × ((prune_before tables db 6).1.undecided ≡ db.undecided)
prune_before_example = prune_before_lem tables db 6 5 1 height_range

passes : verify_blob_sidecars_batch test_kzg blobs ≡ ok tt
unfolding verify_blob_sidecars_batch
passes = refl

abbrev engine : Engine tables
engine = record { store = empty_db; metrics = zeros }

verify_and_store_gate_example :
    ((verify_and_store tables test_codec test_kzg engine 5 (pos 0) blobs).0 ≡ ok tt
      → AllVerified test_kzg blobs)
    × ((x : BlobVerificationError)
        → blobs ≢ []
        → verify_blob_sidecars_batch test_kzg blobs ≡ err x
        → ((verify_and_store tables test_codec test_kzg engine 5 (pos 0) blobs).1.store ≡ empty_db)
          × ((verify_and_store tables test_codec test_kzg engine 5 (pos 0) blobs).0
              ≡ err (verification_failed 5 (failing_index blobs x) x)))
verify_and_store_gate_example =
    verify_and_store_gate tables test_codec test_kzg engine 5 (pos 0) blobs

accepted : (verify_and_store tables test_codec test_kzg engine 5 (pos 0) blobs).0 ≡ ok tt
unfolding verify_and_store after_verification stored put_undecided_blobs put_blobs
    verify_blob_sidecars_batch
accepted = refl

abbrev once : Engine tables
once = (verify_and_store tables test_codec test_kzg engine 5 (pos 0) blobs).1

abbrev twice : Engine tables
twice = (verify_and_store tables test_codec test_kzg once 5 (pos 0) blobs).1

verify_and_store_twice_example :
    ((verify_and_store tables test_codec test_kzg once 5 (pos 0) blobs).0 ≡ ok tt)
    × (undecided_at tables twice.store 5 (pos 0) 1 ≡ undecided_at tables once.store 5 (pos 0) 1)
    × (twice.metrics.undecided_blob_count ≡ add_ℕ (pos 0) (2 + 2))
verify_and_store_twice_example =
    verify_and_store_twice tables test_codec test_kzg 5 (pos 0) height_range round_range engine
      (plain 0 (7 ∷ [])) (plain 1 (8 ∷ []) ∷ []) key indices key-IsKey accepted
