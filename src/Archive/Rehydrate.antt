-- ===== src/Archive/Rehydrate.antt =====
-- The sets of pending heights that a node builds again when it starts
-- (`rehydrate_pending_prunes` of crates/consensus/src/state.rs).
use ultramarine.Common.{
  ℕ, ◌≡◌, ◌∙◌, refl, inl, inr, Bool, false, ◌||◌, Option, none, some, List, [], ◌∷◌, ltb, ◌==◌,
  if◌then◌else◌, Bool-cases,
}
use ultramarine.Common.Ord.{bytes_ord}
use ultramarine.Common.Result.{Result, ok, err, Result-cases}
use ultramarine.Types.Metadata.{BlobMetadata, all_archived}
use ultramarine.Metastore.{Tables, get_blob_metadata, decided_heights}
use ultramarine.Blob.Store.{ByteTable, BlobCodec}
use ultramarine.Archive.{
  Node, NoticeApi, NoticeError, store_error, is_height_finalized, prune_archived_height, add_height,
  remove_height, proposer_address_for_height,
}
use ultramarine.Archive.Heights.{SameHeights, prune_archived_height-SameHeights}

-- The greatest decided height, where there is one, or the height so far.
abbrev pub latest_or : Option ℕ → ℕ → ℕ
latest_or none h = h
latest_or (some h') h = h'

module _ (t : Tables) (kv : ByteTable) (codec : BlobCodec) where
  -- No height of a list is final.
  pub NoneFinal : Node t kv → List ℕ → Type 0
  NoneFinal s [] = Unit
  NoneFinal s (h ∷ l) = (is_height_finalized t kv codec s h ≡ false) × NoneFinal s l

  NoneFinal-SameHeights :
      (s s' : Node t kv) (l : List ℕ) → SameHeights t kv codec s s' → NoneFinal s l → NoneFinal s' l
  unfolding NoneFinal is_height_finalized
  NoneFinal-SameHeights s s' [] e n = tt
  NoneFinal-SameHeights s s' (h ∷ l) e n = (rw (e.0, e.1) n.0, NoneFinal-SameHeights s s' l e n.1)

  NoneFinal-add_height :
      (s : Node t kv) (h : ℕ) (l : List ℕ)
      → is_height_finalized t kv codec s h ≡ false
      → NoneFinal s l
      → NoneFinal s (add_height h l)
  unfolding NoneFinal add_height
  NoneFinal-add_height s h [] p n = (p, tt)
  NoneFinal-add_height s h (x ∷ l) p n = elim (Bool-cases (ltb h x)) [
    | inl e ↦ rw (e, add_height) (p, n)
    | inr e ↦ elim (Bool-cases (h == x)) [
      | inl f ↦ rw (e, f, add_height) n
      | inr f ↦ rw (e, f, add_height) (n.0, NoneFinal-add_height s h l p n.1)
    ]
  ]

  NoneFinal-remove_height :
      (s : Node t kv) (h : ℕ) (l : List ℕ) → NoneFinal s l → NoneFinal s (remove_height h l)
  unfolding NoneFinal remove_height
  NoneFinal-remove_height s h [] n = tt
  NoneFinal-remove_height s h (x ∷ l) n = elim (Bool-cases (h == x)) [
    | inl f ↦ rw (f, remove_height) (NoneFinal-remove_height s h l n.1)
    | inr f ↦ rw (f, remove_height) (n.0, NoneFinal-remove_height s h l n.1)
  ]

  -- The heights of the node stay, and no pending prune is final.
  abbrev pub Waits : Node t kv → Node t kv → Type 0
  Waits s s' = SameHeights t kv codec s s' × NoneFinal s' s'.pending_prune_heights

  pub prune_archived_height-Waits :
      (s : Node t kv) (h : ℕ) (m : BlobMetadata)
      → NoneFinal s s.pending_prune_heights
      → Waits s (prune_archived_height t kv codec s h m)
  unfolding prune_archived_height
  prune_archived_height-Waits s h m n =
      let same = prune_archived_height-SameHeights t kv codec s h m in
      (
        same,
        elim (Bool-cases (m.pruned || m.blob_count == 0)) [
          | inl e ↦ rw (e, prune_archived_height) n
          | inr e ↦
              NoneFinal-SameHeights s (prune_archived_height t kv codec s h m)
                (prune_archived_height t kv codec s h m).pending_prune_heights same
                (rw (e, prune_archived_height)
                  (NoneFinal-remove_height s h s.pending_prune_heights n))
        ],
      )

module _ (t : Tables) (kv : ByteTable) (codec : BlobCodec) (api : NoticeApi)
    (archiver_enabled : Bool) (address : List ℕ) where
  abbrev is_address : Option (List ℕ) → Bool
  is_address none = false
  is_address (some a) = bytes_ord.eq a address

  -- A height that has blobs to archive is tracked by its proposer.
  track_archive : Node t kv → ℕ → BlobMetadata → Result NoticeError (Node t kv)
  unfolding add_height
  track_archive s h m =
      if archiver_enabled
      then elim (proposer_address_for_height t kv codec api s h m.proposer_index_hint) [
        | err e ↦ err e
        | ok a ↦ ok (
            if is_address a
            then record s { pending_archive_heights = add_height h s.pending_archive_heights }
            else s)
      ]
      else ok s

  -- The body of the loop for a height that has metadata.
  rehydrate_one : Node t kv → ℕ → BlobMetadata → Result NoticeError (Node t kv)
  unfolding track_archive is_height_finalized prune_archived_height add_height
  rehydrate_one s h m =
      if m.blob_count == 0 || m.pruned
      then ok s
      else (if all_archived m
          then (if is_height_finalized t kv codec s h
              then ok (prune_archived_height t kv codec s h m)
              else ok (record s { pending_prune_heights = add_height h s.pending_prune_heights }))
          else track_archive s h m)

  rehydrate_each : Node t kv → List ℕ → Result NoticeError (Unit {0}) × Node t kv
  unfolding rehydrate_one
  rehydrate_each s [] = (ok tt, s)
  rehydrate_each s (h ∷ l) = elim (get_blob_metadata t s.db h) [
    | err e ↦ (err (store_error e), s)
    | ok none ↦ rehydrate_each s l
    | ok (some m) ↦ elim (rehydrate_one s h m) [ err e ↦ (err e, s) | ok s' ↦ rehydrate_each s' l ]
  ]

  -- `rehydrate_pending_prunes` on the node's own fields, with the greatest height of a decided value.
  unfoldable pub rehydrate_node : Node t kv → Option ℕ → Result NoticeError (Unit {0}) × Node t kv
  unfolding rehydrate_each
  rehydrate_node s latest =
      rehydrate_each
        (record s {
          latest_finalized_height = latest_or latest s.latest_finalized_height;
          pending_prune_heights = [];
          pending_archive_heights = [];
        })
        (decided_heights t s.db)

  abbrev WaitsOk : Node t kv → Result NoticeError (Node t kv) → Type 0
  WaitsOk s (err e) = Unit
  WaitsOk s (ok s') = Waits t kv codec s s'

  track_archive-WaitsOk :
      (s : Node t kv) (h : ℕ) (m : BlobMetadata)
      → NoneFinal t kv codec s s.pending_prune_heights
      → WaitsOk s (track_archive s h m)
  unfolding track_archive
  track_archive-WaitsOk s h m n = elim (Bool-cases archiver_enabled) [
    | inr p ↦ rw (p, track_archive) ((refl, refl), n)
    | inl p ↦
        elim (Result-cases (proposer_address_for_height t kv codec api s h m.proposer_index_hint)) [
          | inr (e, q) ↦ rw (p, q, track_archive) tt
          | inl (a, q) ↦ elim (Bool-cases (is_address a)) [
            | inr z ↦ rw (p, q, z, track_archive) ((refl, refl), n)
            | inl z ↦
                rw (p, q, z, track_archive)
                  (
                    (refl, refl),
                    NoneFinal-SameHeights t kv codec s
                        (record s {
                          pending_archive_heights = add_height h s.pending_archive_heights;
                        })
                        s.pending_prune_heights (refl, refl) n,
                  )
          ]
        ]
  ]

  rehydrate_one-WaitsOk :
      (s : Node t kv) (h : ℕ) (m : BlobMetadata)
      → NoneFinal t kv codec s s.pending_prune_heights
      → WaitsOk s (rehydrate_one s h m)
  unfolding rehydrate_one
  rehydrate_one-WaitsOk s h m n = elim (Bool-cases (m.blob_count == 0 || m.pruned)) [
    | inl a ↦ rw (a, rehydrate_one) ((refl, refl), n)
    | inr a ↦ elim (Bool-cases (all_archived m)) [
      | inr b ↦ rw (a, b, rehydrate_one) (track_archive-WaitsOk s h m n)
      | inl b ↦ elim (Bool-cases (is_height_finalized t kv codec s h)) [
        | inl f ↦ rw (a, b, f, rehydrate_one) (prune_archived_height-Waits t kv codec s h m n)
        | inr f ↦
            rw (a, b, f, rehydrate_one)
              (
                (refl, refl),
                NoneFinal-SameHeights t kv codec s
                    (record s { pending_prune_heights = add_height h s.pending_prune_heights })
                    (add_height h s.pending_prune_heights) (refl, refl)
                    (NoneFinal-add_height t kv codec s h s.pending_prune_heights f n),
              )
      ]
    ]
  ]

  rehydrate_each-Waits :
      (s : Node t kv) (l : List ℕ)
      → NoneFinal t kv codec s s.pending_prune_heights
      → Waits t kv codec s (rehydrate_each s l).1
  unfolding rehydrate_each
  rehydrate_each-Waits s [] n = ((refl, refl), n)
  rehydrate_each-Waits s (h ∷ l) n = elim (Result-cases (get_blob_metadata t s.db h)) [
    | inr (e, p) ↦ rw (p, rehydrate_each) ((refl, refl), n)
    | inl (none, p) ↦ rw (p, rehydrate_each) (rehydrate_each-Waits s l n)
    | inl (some m, p) ↦ elim (Result-cases (rehydrate_one s h m)) [
      | inr (e, q) ↦ rw (p, q, rehydrate_each) ((refl, refl), n)
      | inl (s', q) ↦
          let o = rehydrate_one-WaitsOk s h m n in
          let w : Waits t kv codec s s' = rw q at o in
          let r = rehydrate_each-Waits s' l w.1 in
          rw (p, q, rehydrate_each) ((r.0.0 ∙ w.0.0, r.0.1 ∙ w.0.1), r.1)
    ]
  ]

  pub rehydrate_node_lem :
      (s : Node t kv) (latest : Option ℕ)
      → ((rehydrate_node s latest).1.latest_finalized_height
          ≡ latest_or latest s.latest_finalized_height)
        × ((rehydrate_node s latest).1.current_height ≡ s.current_height)
        × NoneFinal t kv codec
            (rehydrate_node s latest).1
            (rehydrate_node s latest).1.pending_prune_heights
  unfolding rehydrate_node NoneFinal
  rehydrate_node_lem s latest =
      let r =
        rehydrate_each-Waits
          (record s {
            latest_finalized_height = latest_or latest s.latest_finalized_height;
            pending_prune_heights = [];
            pending_archive_heights = [];
          })
          (decided_heights t s.db) tt in
      (r.0.1, r.0.0, r.1)
