-- ===== src/Blob/Store/Writes.antt =====
-- Writes, archival and pruning of crates/blob_engine/src/store/rocksdb.rs on the two maps of the
-- store, and the form of the keys that every operation keeps.
use ultramarine.Common.{
  ℕ, ◌≡◌, ◌<◌, ◌^◌, refl, ap, sym, ◌∙◌, Option, none, some, List, [], ◌∷◌, arith, ◌==◌, ◌&&◌,
  if◌then◌else◌, length, Bool-cases, inl, inr,
}
use ultramarine.Common.Int.{ℤ, eqℤ_iff}
use ultramarine.Common.Bytes.{IsI64}
use ultramarine.Common.Ord.{bytes_ord}
use ultramarine.Common.Result.{ok, err, Result-cases}
use ultramarine.Types.Part.{BlobSidecar}
use ultramarine.Blob.Key.{BlobKey, IsKey, to_undecided_key}
use ultramarine.Blob.Store.{
  BlobDb, ByteTable, BlobCodec, BlobStoreError, put_blobs, put_undecided_blobs,
}
use ultramarine.Blob.Store.View.{uk, to_undecided_key-injective, undecided_at, IsStore}
use ultramarine.Blob.Store.Moves.{or_else}
use ultramarine.Blob.Store.Promote.{in_round}

-- The indices of sidecars are `u16`.
abbrev pub AllIndices : List BlobSidecar → Type 0
AllIndices [] = Unit
AllIndices (b ∷ bs) = (b.index < 2 ^ 16) × AllIndices bs

-- The serialized form of the last sidecar with an index.
abbrev pub latest : BlobCodec → ℕ → List BlobSidecar → Option (List ℕ)
latest codec i [] = none
latest codec i (b ∷ bs) =
    or_else (latest codec i bs)
      (if b.index == i then elim (codec.serialize b) [ ok v ↦ some v | err e ↦ none ] else none)

module _ (kv : ByteTable) (codec : BlobCodec) (h : ℕ) (r : ℤ) (hh : h < 2 ^ 64) (hr : IsI64 r) where
  key_of : ℕ → BlobKey
  key_of i = record { height = h; round = r; index = i }

  put_eq :
      (i : ℕ) (k : BlobKey)
      → i < 2 ^ 16
      → IsKey k
      → bytes_ord.eq (uk h r i) (to_undecided_key k) ≡ (in_round h r k && i == k.index)
  put_eq i k hi v = ground (
    arith,
    bytes_ord.eq_iff (uk h r i) (to_undecided_key k),
    to_undecided_key-injective (record { height = h; round = r; index = i }) k
        (record { height_range = hh; round_range = hr; index_range = hi }) v,
    eqℤ_iff k.round r,
  )

  written : BlobDb kv → ℕ → List ℕ → BlobDb kv
  written db i x = record db { undecided = kv.insert (uk h r i) x db.undecided }

  put_step :
      (db : BlobDb kv) (b : BlobSidecar) (bs : List BlobSidecar) (x : List ℕ)
      → codec.serialize b ≡ ok x
      → put_blobs kv codec db h r (b ∷ bs) ≡ put_blobs kv codec (written db b.index x) h r bs
  unfolding put_blobs written
  put_step db b bs x s = rw (s, put_blobs)

  put_stop :
      (db : BlobDb kv) (b : BlobSidecar) (bs : List BlobSidecar) (x : BlobStoreError)
      → codec.serialize b ≡ err x
      → put_blobs kv codec db h r (b ∷ bs) ≡ (err x, db)
  unfolding put_blobs
  put_stop db b bs x s = rw (s, put_blobs)

  put_blobs-get :
      (db : BlobDb kv) (blobs : List BlobSidecar) (k : BlobKey)
      → AllIndices blobs
      → IsKey k
      → (put_blobs kv codec db h r blobs).0 ≡ ok tt
      → kv.get (to_undecided_key k) (put_blobs kv codec db h r blobs).1.undecided ≡ (
          if in_round h r k
          then or_else (latest codec k.index blobs) (kv.get (to_undecided_key k) db.undecided)
          else kv.get (to_undecided_key k) db.undecided)
  unfolding written
  put_blobs-get db [] k a v e = unfold put_blobs in ground arith
  put_blobs-get db (b ∷ bs) k a v e = elim (Result-cases (codec.serialize b)) [
    | inl (x, s) ↦ ground (
      arith,
      put_step db b bs x s,
      s,
      put_blobs-get (written db b.index x) bs k a.1 v
          (ap (λ p. p.0) (sym (put_step db b bs x s)) ∙ e),
      kv.get-insert (uk h r b.index) (to_undecided_key k) x db.undecided,
      put_eq b.index k a.0 v,
    )
    | inr (x, s) ↦ cc (e, put_stop db b bs x s)
  ]

  -- Whether a store succeeds does not depend on what is stored.
  put_blobs-result :
      (db db' : BlobDb kv) (blobs : List BlobSidecar)
      → (put_blobs kv codec db h r blobs).0 ≡ (put_blobs kv codec db' h r blobs).0
  put_blobs-result db db' [] = unfold put_blobs in refl
  put_blobs-result db db' (b ∷ bs) = elim (Result-cases (codec.serialize b)) [
    | inl (x, s) ↦
        ap (λ p. p.0) (put_step db b bs x s)
        ∙ put_blobs-result (written db b.index x) (written db' b.index x) bs
        ∙ sym (ap (λ p. p.0) (put_step db' b bs x s))
    | inr (x, s) ↦ cc (put_stop db b bs x s, put_stop db' b bs x s)
  ]

  pub put_undecided_blobs-result :
      (db db' : BlobDb kv) (blobs : List BlobSidecar)
      → (put_undecided_blobs kv codec db h r blobs).0
        ≡ (put_undecided_blobs kv codec db' h r blobs).0
  unfolding put_undecided_blobs
  put_undecided_blobs-result db db' blobs = ground (arith, put_blobs-result db db' blobs)

  put_blobs-decided :
      (db : BlobDb kv) (blobs : List BlobSidecar)
      → (put_blobs kv codec db h r blobs).1.decided ≡ db.decided
  unfolding written
  put_blobs-decided db [] = unfold put_blobs in refl
  put_blobs-decided db (b ∷ bs) = elim (Result-cases (codec.serialize b)) [
    | inl (x, s) ↦
        ap (λ p. p.1.decided) (put_step db b bs x s) ∙ put_blobs-decided (written db b.index x) bs
    | inr (x, s) ↦ ap (λ p. p.1.decided) (put_stop db b bs x s)
  ]

  -- A store that succeeds puts each blob under its index of the round, the last one where an index
  -- comes twice; it counts the blobs and leaves all else as it was.
  pub put_undecided_blobs_lem :
      (db : BlobDb kv) (blobs : List BlobSidecar) (n : ℕ) (k : BlobKey)
      → AllIndices blobs
      → IsKey k
      → (put_undecided_blobs kv codec db h r blobs).0 ≡ ok n
      → (n ≡ length blobs)
        × (undecided_at kv (put_undecided_blobs kv codec db h r blobs).1 k.height k.round k.index
            ≡ (if in_round h r k
                then or_else
                    (latest codec k.index blobs)
                    (undecided_at kv db k.height k.round k.index)
                else undecided_at kv db k.height k.round k.index))
        × ((put_undecided_blobs kv codec db h r blobs).1.decided ≡ db.decided)
  unfolding put_undecided_blobs
  put_undecided_blobs_lem db blobs n k a v e =
      elim (Result-cases (put_blobs kv codec db h r blobs).0) [
        | inl (tt, s) ↦ (ground arith, put_blobs-get db blobs k a v s, put_blobs-decided db blobs)
        | inr (x, s) ↦ ground arith
      ]

  written-IsStore :
      (db : BlobDb kv) (i : ℕ) (x : List ℕ)
      → i < 2 ^ 16
      → IsStore kv db
      → IsStore kv (written db i x)
  unfolding written
  written-IsStore db i x hi w = record {
    keyed = λ j v e. elim (Bool-cases (bytes_ord.eq (uk h r i) j)) [
      | inl q ↦ (
        record { height = h; round = r; index = i },
        record { height_range = hh; round_range = hr; index_range = hi },
        sym ((bytes_ord.eq_iff (uk h r i) j).0 q),
      )
      | inr q ↦ w.keyed j v (ground (arith, kv.get-insert (uk h r i) j x db.undecided))
    ];
  }

  -- A store keeps the form of the keys, whether it succeeds or fails on the way.
  pub put_blobs-IsStore :
      (db : BlobDb kv) (blobs : List BlobSidecar)
      → AllIndices blobs
      → IsStore kv db
      → IsStore kv (put_blobs kv codec db h r blobs).1
  put_blobs-IsStore db [] a w = unfold put_blobs in w
  put_blobs-IsStore db (b ∷ bs) a w = elim (Result-cases (codec.serialize b)) [
    | inl (x, s) ↦
        rw (put_step db b bs x s)
          (put_blobs-IsStore (written db b.index x) bs a.1 (written-IsStore db b.index x a.0 w))
    | inr (x, s) ↦ rw (put_stop db b bs x s) w
  ]
