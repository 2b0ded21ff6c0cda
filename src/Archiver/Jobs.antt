-- ===== src/Archiver/Jobs.antt =====
-- The jobs that a node builds for its archiver, and what the worker makes of them
-- (crates/consensus/src/state.rs and crates/node/src/archiver.rs).
use ultramarine.Common.{
  ℕ, suc, ◌+◌, ◌≡◌, refl, ap, subst, inl, inr, Bool, not, none, some, List, [], ◌∷◌, ◌==◌, ==_iff,
  arith, length, get_elem?, drop, if◌then◌else◌, Bool-cases,
}
use ultramarine.Common.Result.{ok, bind_intro, demand-some, require-true, Result-cases}
use ultramarine.Types.Round.{Round}
use ultramarine.Types.Part.{BlobSidecar, ArchiveNoticeBody, ArchiveNotice}
use ultramarine.Metastore.{Tables, MetaDb, get_blob_metadata, archival_range}
use ultramarine.Blob.Store.{ByteTable, BlobCodec}
use ultramarine.Blob.Engine.{Engine, get_for_import}
use ultramarine.Archiver.{
  ArchiveJob, ArchiverApi, UploadBlobParams, archive_blob, archive_blobs, process_job,
  build_archive_job, job_of, unarchived, checked_job, find_sidecar, indices_of, commitments_of,
  keccaks_of, versioned_of, second_of, contains_index,
}
use ultramarine.Sidecar.Prepared.{drop-get_elem?}

-- The elements that pass a test.
abbrev pub keep : (BlobSidecar → Bool) → List BlobSidecar → List BlobSidecar
keep p [] = []
keep p (s ∷ l) = if p s then s ∷ keep p l else keep p l

unarchived-keep :
    (archived : List ℕ) (l : List BlobSidecar)
    → unarchived archived l ≡ keep (λ s. not (contains_index s.index archived)) l
unfolding unarchived
unarchived-keep archived [] = refl
unarchived-keep archived (s ∷ l) = ground (arith, unarchived-keep archived l)

module _ (api : ArchiverApi) where
  -- The notice of a sidecar, with the locator that the provider gave.
  abbrev pub notice_of : ℕ → Round → ℕ → List ℕ → BlobSidecar → ArchiveNotice
  notice_of height round archived_at locator s =
      let body : ArchiveNoticeBody = record {
        height = height;
        round = round;
        blob_index = s.index;
        kzg_commitment = s.kzg_commitment;
        blob_keccak = api.keccak s.blob;
        provider_id = api.provider_id;
        locator = locator;
        archived_by = api.validator_address;
        archived_at = archived_at;
      } in
      record { body = body; signature = api.sign body }

  -- One notice for each sidecar, in order.
  abbrev pub Notices : ℕ → Round → ℕ → List BlobSidecar → List ArchiveNotice → Type 0
  Notices height round archived_at [] [] = Unit
  Notices height round archived_at [] (n ∷ ns) = ⊥
  Notices height round archived_at (s ∷ l) [] = ⊥
  Notices height round archived_at (s ∷ l) (n ∷ ns) =
      ((locator : List ℕ) × (n ≡ notice_of height round archived_at locator s))
      × Notices height round archived_at l ns

  -- The sidecars of a part of a list are found in it.
  abbrev pub Found : List BlobSidecar → List BlobSidecar → Type 0
  Found all [] = Unit
  Found all (s ∷ l) = ((x : BlobSidecar) × (find_sidecar s.index all ≡ some x)) × Found all l

  Found-cons : (y : BlobSidecar) (all l : List BlobSidecar) → Found all l → Found (y ∷ all) l
  unfolding find_sidecar
  Found-cons y all [] f = tt
  Found-cons y all (s ∷ l) ((x, e), f) = (
    elim (Bool-cases (y.index == s.index)) [ inl p ↦ (y, rw p refl) | inr p ↦ (x, rw p e) ],
    Found-cons y all l f,
  )

  unarchived-Found :
      (archived : List ℕ) (all : List BlobSidecar) → Found all (unarchived archived all)
  unfolding unarchived find_sidecar
  unarchived-Found archived [] = tt
  unarchived-Found archived (s ∷ l) =
      let rest = Found-cons s l (unarchived archived l) (unarchived-Found archived l) in
      elim (Bool-cases (contains_index s.index archived)) [
        | inl p ↦ rw p rest
        | inr p ↦ rw p ((s, let z = (==_iff s.index s.index).1 refl in rw z refl), rest)
      ]

  archive_blob_lem :
      (job : ArchiveJob) (all : List BlobSidecar) (archived_at i : ℕ) (s x : BlobSidecar)
      (locator : List ℕ)
      → get_elem? job.commitments i ≡ some s.kzg_commitment
      → get_elem? job.blob_keccaks i ≡ some (api.keccak s.blob)
      → get_elem? job.versioned_hashes i ≡ some (api.kzg_to_versioned_hash s.kzg_commitment)
      → find_sidecar s.index all ≡ some x
      → api.upload_blob (record {
        height = job.height;
        round = job.round;
        blob_idx = s.index;
        blob_data = x.blob;
        commitment = s.kzg_commitment;
        versioned_hash = api.kzg_to_versioned_hash s.kzg_commitment;
        blob_keccak = api.keccak s.blob;
      })
        ≡ some locator
      → archive_blob api job all archived_at i s.index
        ≡ ok (notice_of job.height job.round archived_at locator s)
  unfolding archive_blob
  archive_blob_lem job all archived_at i s x locator c k v f u =
      bind_intro _ _ s.kzg_commitment _ (demand-some _ c) (
        bind_intro _ _ (api.keccak s.blob) _ (demand-some _ k) (
          bind_intro _ _ (api.kzg_to_versioned_hash s.kzg_commitment) _ (demand-some _ v) (
            bind_intro _ _ x _ (demand-some _ f)
              (bind_intro _ _ locator _ (demand-some _ u) refl))))

  archive_blobs_lem :
      (job : ArchiveJob) (all : List BlobSidecar) (archived_at i : ℕ) (l : List BlobSidecar)
      → ((p : UploadBlobParams) → (locator : List ℕ) × (api.upload_blob p ≡ some locator))
      → Found all l
      → drop i job.commitments ≡ commitments_of api l
      → drop i job.blob_keccaks ≡ keccaks_of api l
      → drop i job.versioned_hashes ≡ versioned_of api l
      → ((archive_blobs api job all archived_at i (indices_of api l)).0 ≡ ok tt)
        × Notices job.height job.round archived_at l
            (archive_blobs api job all archived_at i (indices_of api l)).1
  unfolding archive_blobs
  archive_blobs_lem job all archived_at i [] up f c k v = (refl, tt)
  archive_blobs_lem job all archived_at i (s ∷ l) up ((x, e), f) c k v =
      let (c1, c2) = drop-get_elem? i job.commitments s.kzg_commitment (commitments_of api l) c in
      let (k1, k2) = drop-get_elem? i job.blob_keccaks (api.keccak s.blob) (keccaks_of api l) k in
      let (v1, v2) =
        drop-get_elem? i job.versioned_hashes (api.kzg_to_versioned_hash s.kzg_commitment)
          (versioned_of api l) v in
      let next : i + 1 ≡ suc i = omega arith in
      let ih =
        archive_blobs_lem job all archived_at (i + 1) l up f (rw next c2) (rw next k2)
          (rw next v2) in
      let (locator, answer) = up (record {
        height = job.height;
        round = job.round;
        blob_idx = s.index;
        blob_data = x.blob;
        commitment = s.kzg_commitment;
        versioned_hash = api.kzg_to_versioned_hash s.kzg_commitment;
        blob_keccak = api.keccak s.blob;
      }) in
      let made : archive_blob api job all archived_at i s.index
          ≡ ok (notice_of job.height job.round archived_at locator s) =
        archive_blob_lem job all archived_at i s x locator c1 k1 v1 e answer in
      rw (made, archive_blobs) (ih.0, ((locator, refl), ih.1))

  lengths_of :
      (l : List BlobSidecar)
      → (length (commitments_of api l) ≡ length (indices_of api l))
        × (length (keccaks_of api l) ≡ length (indices_of api l))
        × (length (versioned_of api l) ≡ length (indices_of api l))
  lengths_of [] = (refl, refl, refl)
  lengths_of (s ∷ l) = let ih = lengths_of l in (ap suc ih.0, ap suc ih.1, ap suc ih.2)

  abbrev job_for : ℕ → Round → List BlobSidecar → ArchiveJob
  job_for height round l = record {
    height = height;
    round = round;
    blob_indices = indices_of api l;
    commitments = commitments_of api l;
    blob_keccaks = keccaks_of api l;
    versioned_hashes = versioned_of api l;
  }

  job_for-checked :
      (height : ℕ) (round : Round) (l : List BlobSidecar)
      → checked_job api (job_for height round l) ≡ ok tt
  job_for-checked height round l =
      let n = lengths_of l in
      let i = length (indices_of api l) in
      bind_intro _ _ tt tt (require-true _ ((==_iff (length (commitments_of api l)) i).1 n.0)) (
        bind_intro _ _ tt tt (require-true _ ((==_iff (length (keccaks_of api l)) i).1 n.1))
          (require-true _ ((==_iff (length (versioned_of api l)) i).1 n.2)))

  process_job_for :
      (height : ℕ) (round : Round) (archived_at : ℕ) (y : BlobSidecar) (ys l : List BlobSidecar)
      → ((p : UploadBlobParams) → (locator : List ℕ) × (api.upload_blob p ≡ some locator))
      → Found (y ∷ ys) l
      → ((process_job api (ok (y ∷ ys)) archived_at (job_for height round l)).0 ≡ ok tt)
        × Notices height round archived_at l
            (process_job api (ok (y ∷ ys)) archived_at (job_for height round l)).1
  unfolding process_job
  process_job_for height round archived_at y ys l up f =
      rw (job_for-checked height round l, process_job)
        (archive_blobs_lem (job_for height round l) (y ∷ ys) archived_at 0 l up f refl refl refl)

  job_of-some :
      (height : ℕ) (round : Round) (l : List BlobSidecar) (job : ArchiveJob)
      → job_of api height round l ≡ some job
      → job_for height round l ≡ job
  unfolding job_of
  job_of-some height round [] job e = absurd (ground (arith, e))
  job_of-some height round (s ∷ l) job e = ground (arith, e)

  -- What the worker makes of a job over stored sidecars.
  process_job_lem :
      (height : ℕ) (round : Round) (archived_at : ℕ) (archived : List ℕ) (blobs : List BlobSidecar)
      (job : ArchiveJob)
      → job_of api height round (unarchived archived blobs) ≡ some job
      → ((p : UploadBlobParams) → (locator : List ℕ) × (api.upload_blob p ≡ some locator))
      → ((process_job api (ok blobs) archived_at job).0 ≡ ok tt)
        × Notices height round archived_at
            (unarchived archived blobs)
            (process_job api (ok blobs) archived_at job).1
  unfolding unarchived job_of
  process_job_lem height round archived_at archived [] job e up = absurd (ground (arith, e))
  process_job_lem height round archived_at archived (y ∷ ys) job e up =
      let l = unarchived archived (y ∷ ys) in
      subst
        (λ (j : ArchiveJob).
          ((process_job api (ok (y ∷ ys)) archived_at j).0 ≡ ok tt)
          × Notices height round archived_at l (process_job api (ok (y ∷ ys)) archived_at j).1)
        (job_of-some height round l job e)
        (process_job_for height round archived_at y ys l up (unarchived-Found archived (y ∷ ys)))

  module _ (t : Tables) (kv : ByteTable) (codec : BlobCodec) where
    -- The sidecars that have no archive record.
    abbrev pub wanted : MetaDb t → ℕ → List BlobSidecar → List BlobSidecar
    wanted db height blobs =
        keep (λ s. not (contains_index s.index (second_of (archival_range t db height)))) blobs

    build_archive_job-some :
        (db : MetaDb t) (engine : Engine kv) (height : ℕ) (round : Round) (job : ArchiveJob)
        → build_archive_job api t kv codec db engine height round ≡ ok (some job)
        → (blobs : List BlobSidecar) × (get_for_import kv codec engine height ≡ ok blobs)
          × (job_of api height round (unarchived (second_of (archival_range t db height)) blobs)
              ≡ some job)
    unfolding build_archive_job
    build_archive_job-some db engine height round job e =
        elim (Result-cases (get_blob_metadata t db height)) [
          | inr (x, p) ↦ absurd (let q = rw (p, build_archive_job) at e in ground (arith, q))
          | inl (none, p) ↦ absurd (let q = rw (p, build_archive_job) at e in ground (arith, q))
          | inl (some m, p) ↦ elim (Bool-cases (m.blob_count == 0)) [
            | inl z ↦ absurd (let q = rw (p, z, build_archive_job) at e in ground (arith, q))
            | inr z ↦ elim (Result-cases (get_for_import kv codec engine height)) [
              | inr (x, f) ↦
                  absurd (let q = rw (p, z, f, build_archive_job) at e in ground (arith, q))
              | inl (blobs, f) ↦
                  let q = rw (p, z, f, build_archive_job) at e in (blobs, f, ground (arith, q))
            ]
          ]
        ]

    -- A job that the node builds passes the worker's checks: if the provider takes every upload, the
    -- worker finishes the job and sends one notice for each stored blob that is not yet archived, in
    -- order, with the blob's index, commitment and hash and the node's signature.
    pub process_job-build_archive_job :
        (db : MetaDb t) (engine : Engine kv) (height : ℕ) (round : Round) (job : ArchiveJob)
        (archived_at : ℕ)
        → build_archive_job api t kv codec db engine height round ≡ ok (some job)
        → ((p : UploadBlobParams) → (locator : List ℕ) × (api.upload_blob p ≡ some locator))
        → (blobs : List BlobSidecar) × (get_for_import kv codec engine height ≡ ok blobs)
          × ((process_job api (get_for_import kv codec engine height) archived_at job).0 ≡ ok tt)
          × Notices height round archived_at
              (wanted db height blobs)
              (process_job api (get_for_import kv codec engine height) archived_at job).1
    process_job-build_archive_job db engine height round job archived_at e up =
        let (blobs, f, g) = build_archive_job-some db engine height round job e in
        let p =
          process_job_lem height round archived_at (second_of (archival_range t db height)) blobs
            job g up in
        (
          blobs,
          f,
          rw f p.0,
          rw f (
              subst
                (λ l.
                  Notices height round archived_at l (process_job api (ok blobs) archived_at job).1)
                (unarchived-keep (second_of (archival_range t db height)) blobs) p.1),
        )
