-- ===== src/Blob/Engine/Gate.antt =====
-- What the blob engine (crates/blob_engine/src/engine.rs) lets into the store, and its counters.
use ultramarine.Common.{
  ℕ, ◌+◌, ◌≡◌, ◌<◌, ◌^◌, ◌≢◌, refl, ap, sym, ◌∙◌, List, [], ◌∷◌, arith, length, inl, inr,
}
use ultramarine.Common.Int.{ℤ, add_ℕ, add_ℕ-add}
use ultramarine.Common.Bytes.{IsI64}
use ultramarine.Common.Ord.{bytes_ord}
use ultramarine.Common.Result.{ok, err, Result-cases}
use ultramarine.Types.Part.{BlobSidecar}
use ultramarine.Blob.Key.{BlobKey, IsKey}
use ultramarine.Blob.Metrics.{add_undecided_storage, record_verifications_success}
use ultramarine.Blob.Verifier.{
  Kzg, AllVerified, BlobVerificationError, verify_blob_sidecars_batch,
  verify_blob_sidecars_batch-AllVerified,
}
use ultramarine.Blob.Store.{BlobDb, ByteTable, BlobCodec, BlobStoreError}
use ultramarine.Blob.Store
use ultramarine.Blob.Store.View.{undecided_at}
use ultramarine.Blob.Store.Writes.{AllIndices, put_undecided_blobs_lem, put_undecided_blobs-result}
use ultramarine.Blob.Engine.{
  Engine, verification_failed, verify_and_store, after_verification, stored, failing_index,
}

module _ (kv : ByteTable) (codec : BlobCodec) (kzg : Kzg) where
  -- Sidecars that the engine accepts have valid KZG proofs, one by one; if the verification of a list
  -- that is not empty fails, the store is as it was and the error reports that failure.
  pub verify_and_store_gate :
      (e : Engine kv) (h : ℕ) (r : ℤ) (l : List BlobSidecar)
      → ((verify_and_store kv codec kzg e h r l).0 ≡ ok tt → AllVerified kzg l)
        × ((x : BlobVerificationError)
            → l ≢ []
            → verify_blob_sidecars_batch kzg l ≡ err x
            → ((verify_and_store kv codec kzg e h r l).1.store ≡ e.store)
              × ((verify_and_store kv codec kzg e h r l).0
                  ≡ err (verification_failed h (failing_index l x) x)))
  unfolding verify_and_store
  verify_and_store_gate e h r [] = (λ p. tt, λ x n p. absurd (n refl))
  verify_and_store_gate e h r (s ∷ l) =
      elim (Result-cases (verify_blob_sidecars_batch kzg (s ∷ l))) [
        | inl (tt, p) ↦
            (λ q. verify_blob_sidecars_batch-AllVerified kzg (s ∷ l) p, λ x n q. cc (p, q))
        | inr (y, p) ↦ (λ q. ground (arith, p, q), λ x n q. (ground (arith, q), ground (arith, q)))
      ]

module _ (kv : ByteTable) (codec : BlobCodec) (kzg : Kzg) (h : ℕ) (r : ℤ) (hh : h < 2 ^ 64)
    (hr : IsI64 r) where
  -- What an accepted list of sidecars does.
  accepted :
      (e : Engine kv) (s : BlobSidecar) (l : List BlobSidecar)
      → (verify_and_store kv codec kzg e h r (s ∷ l)).0 ≡ ok tt
      → (verify_blob_sidecars_batch kzg (s ∷ l) ≡ ok tt)
        × (n : ℕ) × ((Store.put_undecided_blobs kv codec e.store h r (s ∷ l)).0 ≡ ok n)
  unfolding verify_and_store after_verification stored
  accepted e s l p = elim (Result-cases (verify_blob_sidecars_batch kzg (s ∷ l))) [
    | inl (tt, q) ↦ elim (Result-cases (Store.put_undecided_blobs kv codec e.store h r (s ∷ l)).0) [
      | inl (n, t) ↦ (q, n, t)
      | inr (y, t) ↦ ground (arith, p, q, t)
    ]
    | inr (y, q) ↦ ground (arith, p, q)
  ]

  accepted-engine :
      (e : Engine kv) (s : BlobSidecar) (l : List BlobSidecar) (n : ℕ)
      → verify_blob_sidecars_batch kzg (s ∷ l) ≡ ok tt
      → (Store.put_undecided_blobs kv codec e.store h r (s ∷ l)).0 ≡ ok n
      → ((verify_and_store kv codec kzg e h r (s ∷ l)).0 ≡ ok tt)
        × ((verify_and_store kv codec kzg e h r (s ∷ l)).1.store
            ≡ (Store.put_undecided_blobs kv codec e.store h r (s ∷ l)).1)
        × ((verify_and_store kv codec kzg e h r (s ∷ l)).1.metrics.undecided_blob_count
            ≡ add_ℕ e.metrics.undecided_blob_count n)
  unfolding verify_and_store after_verification stored add_undecided_storage
      record_verifications_success
  accepted-engine e s l n q t = (ground (arith, q, t), ground (arith, q, t), ground (arith, q, t))

  put_twice :
      (db : BlobDb kv) (l : List BlobSidecar) (n : ℕ) (k : BlobKey)
      → AllIndices l
      → IsKey k
      → (Store.put_undecided_blobs kv codec db h r l).0 ≡ ok n
      → (let db' = (Store.put_undecided_blobs kv codec db h r l).1 in
          undecided_at kv (Store.put_undecided_blobs kv codec db' h r l).1 k.height k.round k.index
          ≡ undecided_at kv db' k.height k.round k.index)
  put_twice db l n k a v t =
      let db' = (Store.put_undecided_blobs kv codec db h r l).1 in
      let first = put_undecided_blobs_lem kv codec h r hh hr db l n k a v t in
      let second =
        put_undecided_blobs_lem kv codec h r hh hr db' l n k a v
          (put_undecided_blobs-result kv codec h r hh hr db' db l ∙ t) in
      ground (arith, first.1, second.1)

  -- A proposal's sidecars that arrive a second time are accepted again and change no stored blob, but
  -- the gauge of undecided blobs counts them twice.
  pub verify_and_store_twice :
      (e : Engine kv) (s : BlobSidecar) (l : List BlobSidecar) (k : BlobKey)
      → AllIndices (s ∷ l)
      → IsKey k
      → (verify_and_store kv codec kzg e h r (s ∷ l)).0 ≡ ok tt
      → (let e1 = (verify_and_store kv codec kzg e h r (s ∷ l)).1 in
          let e2 = (verify_and_store kv codec kzg e1 h r (s ∷ l)).1 in
          ((verify_and_store kv codec kzg e1 h r (s ∷ l)).0 ≡ ok tt)
          × (undecided_at kv e2.store k.height k.round k.index
              ≡ undecided_at kv e1.store k.height k.round k.index)
          × (e2.metrics.undecided_blob_count
              ≡ add_ℕ e.metrics.undecided_blob_count (length (s ∷ l) + length (s ∷ l))))
  verify_and_store_twice e s l k a v p =
      let e1 = (verify_and_store kv codec kzg e h r (s ∷ l)).1 in
      let (q, n, t) = accepted e s l p in
      let one = accepted-engine e s l n q t in
      let t' = put_undecided_blobs-result kv codec h r hh hr e1.store e.store (s ∷ l) ∙ t in
      let two = accepted-engine e1 s l n q t' in
      let size = (put_undecided_blobs_lem kv codec h r hh hr e.store (s ∷ l) n k a v t).0 in
      (
        two.0,
        ap (λ d. undecided_at kv d k.height k.round k.index) two.1
            ∙ ap
                (λ d.
                  undecided_at kv (Store.put_undecided_blobs kv codec d h r (s ∷ l)).1 k.height
                    k.round k.index)
                one.1
            ∙ put_twice e.store (s ∷ l) n k a v t
            ∙ ap (λ d. undecided_at kv d k.height k.round k.index) (sym one.1),
        two.2
            ∙ ap (λ c. add_ℕ c n) one.2
            ∙ add_ℕ-add e.metrics.undecided_blob_count n n
            ∙ ap (λ c. add_ℕ e.metrics.undecided_blob_count (c + c)) size,
      )
