-- ===== src/Blob/Store/Removal.antt =====
-- What promotion, dropping, archival and pruning remove (crates/blob_engine/src/store/rocksdb.rs).
use ultramarine.Common.{
  ℕ, ◌≡◌, ◌<◌, ◌^◌, refl, ap, ◌∙◌, Bool, false, none, some, List, [], ◌∷◌, arith, ◌==◌, ◌&&◌, ◌||◌,
  if◌then◌else◌, ltb, take, is_some,
}
use ultramarine.Common.Int.{ℤ, pos}
use ultramarine.Common.Bytes.{from_be, from_be-to_be, length-to_be, to_be, take-append}
use ultramarine.Common.Ord.{bytes_ord}
use ultramarine.Common.Kv.Sorted.{find}
use ultramarine.Common.Kv.Scan.{scan}
use ultramarine.Blob.Key.{to_decided_key, undecided_prefix, length-to_decided_key}
use ultramarine.Blob.Store.{
  BlobDb, ByteTable, BlobCodec, Entries, move_entries, mark_decided, items_to_move, drop_entries,
  drop_round, remove_keys, archived_keys, delete_archived, keys_before, prune_before,
}
use ultramarine.Common.{sym, inl, inr, Bool-cases, ◌+◌, ◌⊎◌}
use ultramarine.Common.Bytes.{is_prefix}
use ultramarine.Common.Kv.Scan.{scan-select}
use ultramarine.Common.Kv.Members.{Every, Every-map, select-Every}
use ultramarine.Blob.Key.{
  BlobKey, IsKey, to_undecided_key, from_undecided_key, from_undecided_key-to_undecided_key,
}
use ultramarine.Blob.Store.{collect_undecided_entries, entry_size}
use ultramarine.Blob.Store.View.{
  IsPromoted, entries-found, dk, to_decided_key-injective, decided_at, IsStore,
}

List-cases : {A : Type 0} (l : List A) → (l ≡ []) ⊎ ((x : A) × (r : List A) × (l ≡ x ∷ r))
List-cases [] = inl refl
List-cases (x ∷ l) = inr (x, l, refl)

module _ (kv : ByteTable) (codec : BlobCodec) where
  -- Nothing comes into the undecided family by a move.
  move-keeps :
      (l : Entries) (acc : ℕ × ℕ × BlobDb kv) (j v : List ℕ)
      → kv.get j (move_entries kv codec l acc).2.undecided ≡ some v
      → kv.get j acc.2.undecided ≡ some v
  unfolding move_entries
  move-keeps [] acc j v e = e
  move-keeps ((k, u) ∷ l) (count, bytes, db) j v e =
      ground (arith, move-keeps l _ j v e, kv.get-remove k j db.undecided)

  drop-keeps :
      (l : Entries) (acc : ℕ × kv.Map) (j v : List ℕ)
      → kv.get j (drop_entries kv codec l acc).1 ≡ some v
      → kv.get j acc.1 ≡ some v
  unfolding drop_entries
  drop-keeps [] acc j v e = e
  drop-keeps ((k, u) ∷ l) (bytes, m) j v e =
      ground (arith, drop-keeps l _ j v e, kv.get-remove k j m)

  pub mark_decided-IsStore :
      (db : BlobDb kv) (h : ℕ) (r : ℤ) → IsStore kv db → IsStore kv (mark_decided kv codec db h r).2
  unfolding mark_decided
  mark_decided-IsStore db h r w = record {
    keyed = λ j v e. w.keyed j v (move-keeps (items_to_move kv codec db h r) (0, 0, db) j v e);
  }

  pub drop_round-IsStore :
      (db : BlobDb kv) (h : ℕ) (r : ℤ) → IsStore kv db → IsStore kv (drop_round kv codec db h r).2
  unfolding drop_round
  drop_round-IsStore db h r w = record {
    keyed = λ j v e. w.keyed j v (
        drop-keeps (scan (undecided_prefix h r) (kv.entries db.undecided)) (0, db.undecided) j v e);
  }

  abbrev Keyed : List ℕ → List ℕ → Type 0
  Keyed k v = (key : BlobKey) × IsKey key × (k ≡ to_undecided_key key)

  move-IsPromoted :
      (l : Entries) (acc : ℕ × ℕ × BlobDb kv)
      → Every Keyed l
      → IsPromoted kv acc.2
      → IsPromoted kv (move_entries kv codec l acc).2
  unfolding move_entries
  move-IsPromoted [] acc a w = w
  move-IsPromoted ((k, v) ∷ l) (count, bytes, db) a w =
      let (key, valid, e) = a.0 in
      let parsed : from_undecided_key k ≡ some key =
        ap from_undecided_key e ∙ from_undecided_key-to_undecided_key key valid in
      rw (parsed, move_entries)
        (move-IsPromoted l
          (
            count + 1,
            bytes + entry_size codec v,
            record {
              undecided = kv.remove k db.undecided;
              decided = kv.insert (to_decided_key key) v db.decided;
            },
          )
          a.1
          (record {
            promoted = λ j u f. elim (Bool-cases (bytes_ord.eq (to_decided_key key) j)) [
              | inl p ↦ (key, valid, sym ((bytes_ord.eq_iff (to_decided_key key) j).0 p))
              | inr p ↦
                  w.promoted j u
                    (sym (rw p at (kv.get-insert (to_decided_key key) j v db.decided)) ∙ f)
            ];
          }))

  -- Every entry that a scan finds has the key of a blob.
  scan-Keyed :
      (db : BlobDb kv) (prefix : List ℕ)
      → IsStore kv db
      → Every Keyed (scan prefix (kv.entries db.undecided))
  scan-Keyed db prefix w =
      rw (scan-select prefix (kv.entries db.undecided) (kv.entries_ascending db.undecided)) (
        Every-map _ (λ k v q. w.keyed k v q.1)
          (select-Every (is_prefix prefix) _ (kv.entries db.undecided)
            (entries-found kv db.undecided)))

  items-Keyed :
      (db : BlobDb kv) (h : ℕ) (r : ℤ) → IsStore kv db → Every Keyed (items_to_move kv codec db h r)
  unfolding items_to_move collect_undecided_entries
  items-Keyed db h r w = elim (List-cases (scan (undecided_prefix h r) (kv.entries db.undecided))) [
    | inl e ↦ rw (e, items_to_move) (scan-Keyed db _ w)
    | inr (x, l, e) ↦ rw (e, items_to_move) (rw e at (scan-Keyed db (undecided_prefix h r) w))
  ]

  -- Where the undecided family holds undecided keys of blobs alone and the decided family decided
  -- ones, so it is after a promotion and after the dropping of a round.
  pub moves-IsStore :
      (db : BlobDb kv) (h : ℕ) (r : ℤ)
      → IsStore kv db
      → IsPromoted kv db
      → (IsStore kv (mark_decided kv codec db h r).2
          × IsPromoted kv (mark_decided kv codec db h r).2)
        × (IsStore kv (drop_round kv codec db h r).2 × IsPromoted kv (drop_round kv codec db h r).2)
  unfolding mark_decided drop_round
  moves-IsStore db h r w d = (
    (
      mark_decided-IsStore db h r w,
      move-IsPromoted (items_to_move kv codec db h r) (0, 0, db) (items-Keyed db h r w) d,
    ),
    (drop_round-IsStore db h r w, record { promoted = d.promoted }),
  )

module _ (kv : ByteTable) where
  -- Whether a key is in a list of keys.
  abbrev pub has_key : List ℕ → List (List ℕ) → Bool
  has_key j [] = false
  has_key j (k ∷ l) = bytes_ord.eq k j || has_key j l

  remove_keys-get :
      (l : List (List ℕ)) (m : kv.Map) (j : List ℕ)
      → kv.get j (remove_keys kv l m) ≡ (if has_key j l then none else kv.get j m)
  unfolding remove_keys
  remove_keys-get [] m j = refl
  remove_keys-get (k ∷ l) m j =
      ground (arith, remove_keys-get l (kv.remove k m) j, kv.get-remove k j m)

  abbrev pub has_index : ℕ → List ℕ → Bool
  has_index i [] = false
  has_index i (x ∷ l) = x == i || has_index i l

  abbrev pub AllU16 : List ℕ → Type 0
  AllU16 [] = Unit
  AllU16 (x ∷ l) = (x < 2 ^ 16) × AllU16 l

  archived_eq :
      (h x n i : ℕ)
      → h < 2 ^ 64
      → x < 2 ^ 16
      → n < 2 ^ 64
      → i < 2 ^ 16
      → bytes_ord.eq (dk h x) (dk n i) ≡ (n == h && x == i)
  archived_eq h x n i hh hx hn hi = ground (
    arith,
    bytes_ord.eq_iff (dk h x) (dk n i),
    to_decided_key-injective (record { height = h; round = pos 0; index = x })
        (record { height = n; round = pos 0; index = i })
        (record { height_range = hh; round_range = omega arith; index_range = hx })
        (record { height_range = hn; round_range = omega arith; index_range = hi }),
  )

  archived_has :
      (h : ℕ) (indices : List ℕ) (n i : ℕ)
      → h < 2 ^ 64
      → n < 2 ^ 64
      → i < 2 ^ 16
      → AllU16 indices
      → has_key (dk n i) (archived_keys kv h indices) ≡ (n == h && has_index i indices)
  unfolding archived_keys
  archived_has h [] n i hh hn hi a = ground arith
  archived_has h (x ∷ l) n i hh hn hi a =
      ground (arith, archived_eq h x n i hh a.0 hn hi, archived_has h l n i hh hn hi a.1)

  -- Deleting archived blobs removes exactly the decided blobs of the height with the given indices.
  pub delete_archived_lem :
      (db : BlobDb kv) (h : ℕ) (indices : List ℕ) (n i : ℕ)
      → h < 2 ^ 64
      → AllU16 indices
      → n < 2 ^ 64
      → i < 2 ^ 16
      → (decided_at kv (delete_archived kv db h indices) n i
          ≡ (if n == h && has_index i indices then none else decided_at kv db n i))
        × ((delete_archived kv db h indices).undecided ≡ db.undecided)
  unfolding delete_archived
  delete_archived_lem db h indices n i hh a hn hi = (
    remove_keys-get (archived_keys kv h indices) db.decided (dk n i)
        ∙ ap (λ (b : Bool). if b then none else decided_at kv db n i)
            (archived_has h indices n i hh hn hi a),
    refl,
  )

  dk_height : (n i : ℕ) → n < 2 ^ 64 → from_be (take 8 (dk n i)) ≡ n
  unfolding to_decided_key
  dk_height n i hn =
      ap from_be (take-append 8 (to_be 8 n) (to_be 2 i) (length-to_be 8 n)) ∙ from_be-to_be 8 n hn

  before_has :
      (h n i : ℕ) (l : Entries)
      → n < 2 ^ 64
      → has_key (dk n i) (keys_before kv h l) ≡ (ltb n h && is_some (find (dk n i) l))
  unfolding keys_before find
  before_has h n i [] hn = ground arith
  before_has h n i ((k, v) ∷ l) hn = ground (
    arith,
    before_has h n i l hn,
    bytes_ord.eq_iff k (dk n i),
    dk_height n i hn,
    length-to_decided_key (record { height = n; round = pos 0; index = i }),
  )

  -- Pruning removes exactly the decided blobs of the heights below the bound, archived or not.
  pub prune_before_lem :
      (db : BlobDb kv) (h n i : ℕ)
      → n < 2 ^ 64
      → (decided_at kv (prune_before kv db h).1 n i
          ≡ (if ltb n h then none else decided_at kv db n i))
        × ((prune_before kv db h).1.undecided ≡ db.undecided)
  unfolding prune_before
  prune_before_lem db h n i hn = (
    ground (
      arith,
      remove_keys-get (keys_before kv h (kv.entries db.decided)) db.decided (dk n i),
      before_has h n i (kv.entries db.decided) hn,
      kv.find-entries (dk n i) db.decided,
    ),
    refl,
  )
