-- ===== src/Blob/Engine/Idle.antt =====
-- Repeated promotion in the blob engine (crates/blob_engine/src/engine.rs).
use ultramarine.Common.{ℕ, ◌≡◌, refl, ◌<◌, ◌^◌, subst, sym, some, List, arith}
use ultramarine.Common.Int.{ℤ}
use ultramarine.Common.Bytes.{IsI64}
use ultramarine.Blob.Key.{BlobKey, IsKey, to_undecided_key}
use ultramarine.Blob.Store.{ByteTable, BlobCodec}
use ultramarine.Blob.Store
use ultramarine.Blob.Store.View.{IsStore, undecided_at}
use ultramarine.Blob.Store.Idle.{NoneAt, mark_decided_idle, moved-NoneAt}
use ultramarine.Blob.Store.Removal.{mark_decided-IsStore}
use ultramarine.Blob.Engine.{Engine, mark_decided, drop_round, after_moves, nothing_moved}

module _ (kv : ByteTable) (codec : BlobCodec) (h : ℕ) (r : ℤ) (hh : h < 2 ^ 64) (hr : IsI64 r) where
  engine-store :
      (e : Engine kv)
      → (mark_decided kv codec e h r).1.store ≡ (Store.mark_decided kv codec e.store h r).2
  unfolding mark_decided after_moves nothing_moved
  engine-store e = ground arith

  idle_engine :
      (e : Engine kv)
      → IsStore kv e.store
      → NoneAt kv e.store h
      → mark_decided kv codec e h r
        ≡ nothing_moved kv codec e.metrics e.store (Store.get_decided_blobs kv codec e.store h)
  unfolding mark_decided after_moves
  idle_engine e w n = ground (arith, mark_decided_idle kv codec h r hh hr e.store w n)

module _ (kv : ByteTable) (codec : BlobCodec) (h : ℕ) (r : ℤ) (hh : h < 2 ^ 64) (hr : IsI64 r) where
  -- Where only the decided round has blobs, a second promotion of the height, of whatever round, moves
  -- nothing: the store stays as the first one left it, and so do all counters but the gauge of blobs
  -- in the block, which is set to the number of decided blobs if they can be read.
  mark_decided_twice :
      (again : ℤ)
      → IsI64 again
      → (e : Engine kv) (i : ℕ) (v : List ℕ) → IsStore kv e.store
      → i < 2 ^ 16
      → undecided_at kv e.store h r i ≡ some v
      → ((k : BlobKey) (u : List ℕ)
          → IsKey k
          → k.height ≡ h
          → kv.get (to_undecided_key k) e.store.undecided ≡ some u
          → k.round ≡ r)
      → (let e1 = (mark_decided kv codec e h r).1 in
          mark_decided kv codec e1 h again
          ≡ nothing_moved kv codec e1.metrics e1.store
              (Store.get_decided_blobs kv codec e1.store h))
  mark_decided_twice again ha e i v w hi p only =
      let e1 = (mark_decided kv codec e h r).1 in
      let s = sym (engine-store kv codec h r hh hr e) in
      idle_engine kv codec h again hh ha e1
        (subst (IsStore kv) s (mark_decided-IsStore kv codec e.store h r w))
        (subst (λ d. NoneAt kv d h) s (moved-NoneAt kv codec h r hh hr e.store w i v hi p only))

module _ (kv : ByteTable) (codec : BlobCodec) where
  pub drop_round-store :
      (e : Engine kv) (h : ℕ) (r : ℤ)
      → (drop_round kv codec e h r).store ≡ (Store.drop_round kv codec e.store h r).2
  unfolding drop_round
  drop_round-store e h r = refl
