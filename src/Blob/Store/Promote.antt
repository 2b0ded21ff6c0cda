-- ===== src/Blob/Store/Promote.antt =====
-- `mark_decided` and `drop_round` of crates/blob_engine/src/store/rocksdb.rs on the two maps of the
-- store.
use ultramarine.Common.{
  ℕ, ◌+◌, ◌≡◌, ◌≢◌, ◌<◌, ◌^◌, refl, ap, ap₂, sym, ◌∙◌, Bool, none, some, List, [], ◌∷◌, arith, ◌==◌,
  ◌&&◌, if◌then◌else◌, length, Bool-cases, inl, inr,
}
use ultramarine.Common.Int.{ℤ, pos, eqℤ, eqℤ_iff}
use ultramarine.Common.Bytes.{IsI64, is_prefix, to_be}
use ultramarine.Common.Ord.{bytes_ord}
use ultramarine.Common.Kv.Sorted.{find}
use ultramarine.Common.Kv.Scan.{scan, scan-select}
use ultramarine.Common.Kv.Members.{Every, Every-map, select-agree}
use ultramarine.Blob.Key.{
  BlobKey, IsKey, to_undecided_key, undecided_prefix, undecided_prefix_iff, decided_prefix,
  decided_prefix_iff,
}
use ultramarine.Blob.Store.{
  BlobDb, ByteTable, BlobCodec, Entries, move_entries, mark_decided, items_to_move,
  collect_undecided_entries, drop_entries, drop_round, entry_size,
}
use ultramarine.Blob.Store.View.{
  uk, dk, to_decided_key-injective, undecided_at, decided_at, IsStore, Of, round_entries,
  round_entries-IsAscending, round_entries-Of, find-round_entries, entries-found,
  round_entries-found,
}
use ultramarine.Blob.Store.Moves.{
  or_else, cleared, move-undecided, move-decided_other, move-decided, move-count,
}

-- Whether a key is of the round `(h, r)`.
abbrev pub in_round : ℕ → ℤ → BlobKey → Bool
in_round h r k = k.height == h && eqℤ k.round r

pub in_round-prefix :
    (k : BlobKey) (h : ℕ) (r : ℤ)
    → IsKey k
    → h < 2 ^ 64
    → IsI64 r
    → is_prefix (undecided_prefix h r) (to_undecided_key k) ≡ in_round h r k
in_round-prefix k h r v hh hr =
    ground (arith, undecided_prefix_iff k h r v hh hr, eqℤ_iff k.round r)

module _ (kv : ByteTable) (codec : BlobCodec) (db : BlobDb kv) (w : IsStore kv db) (h : ℕ) (r : ℤ)
    (hh : h < 2 ^ 64) (hr : IsI64 r) where
  find-round :
      (k : BlobKey)
      → IsKey k
      → find (to_undecided_key k) (round_entries kv db w h r hh hr)
        ≡ (if in_round h r k then kv.get (to_undecided_key k) db.undecided else none)
  find-round k v =
      find-round_entries kv db w h r hh hr (to_undecided_key k)
      ∙ ap (λ (b : Bool). if b then kv.get (to_undecided_key k) db.undecided else none)
          (in_round-prefix k h r v hh hr)

  items_of_round :
      (i : ℕ) (v : List ℕ)
      → i < 2 ^ 16
      → undecided_at kv db h r i ≡ some v
      → items_to_move kv codec db h r ≡ round_entries kv db w h r hh hr
  unfolding items_to_move collect_undecided_entries find
  items_of_round i v hi e = ground (
    arith,
    find-round (record { height = h; round = r; index = i })
        (record { height_range = hh; round_range = hr; index_range = hi }),
    eqℤ_iff r r,
  )

  decided_other_height :
      (k : BlobKey) → IsKey k → k.height ≢ h → (x : ℕ) → x < 2 ^ 16 → dk h x ≢ dk k.height k.index
  decided_other_height k v n x hx e = n (
      sym
        (to_decided_key-injective (record { height = h; round = pos 0; index = x })
          (record k { round = pos 0 })
          (record { height_range = hh; round_range = omega arith; index_range = hx })
          (record {
            height_range = v.height_range;
            round_range = omega arith;
            index_range = v.index_range;
          })
          e).0)

  find-own :
      (i : ℕ)
      → i < 2 ^ 16
      → find (uk h r i) (round_entries kv db w h r hh hr) ≡ undecided_at kv db h r i
  find-own i hi = ground (
    arith,
    find-round (record { height = h; round = r; index = i })
        (record { height_range = hh; round_range = hr; index_range = hi }),
    eqℤ_iff r r,
  )

  decided_after :
      (k : BlobKey)
      → IsKey k
      → kv.get
          (dk k.height k.index)
          (move_entries kv codec (round_entries kv db w h r hh hr) (0, 0, db)).2.decided
        ≡ (if k.height == h
            then or_else (undecided_at kv db h r k.index) (decided_at kv db k.height k.index)
            else decided_at kv db k.height k.index)
  decided_after k vk =
      let l = round_entries kv db w h r hh hr in
      let o = round_entries-Of kv db w h r hh hr in
      elim (Bool-cases (k.height == h)) [
        | inl p ↦
            (let s : k.height ≡ h = ground arith in
              rw p (
                ap (λ n. kv.get (dk n k.index) (move_entries kv codec l (0, 0, db)).2.decided) s
                ∙ move-decided kv codec h r hh hr l k.index (0, 0, db) vk.index_range o
                    (round_entries-IsAscending kv db w h r hh hr)
                ∙ ap₂ or_else (find-own k.index vk.index_range)
                    (ap (λ n. decided_at kv db n k.index) (sym s))))
        | inr p ↦ rw p (
            move-decided_other kv codec h r hh hr l (dk k.height k.index) (0, 0, db) o
              (decided_other_height k vk (ground arith)))
      ]

  -- Deciding a round that has a blob moves the round's blobs, and nothing else: the round becomes
  -- empty, each of its blobs becomes the decided blob with its index, and the count is the number of
  -- entries of the round.
  pub mark_decided_round :
      (i : ℕ) (v : List ℕ)
      → i < 2 ^ 16
      → undecided_at kv db h r i ≡ some v
      → (k : BlobKey) → IsKey k
      → ((mark_decided kv codec db h r).0 ≡ length (round_entries kv db w h r hh hr))
        × (undecided_at kv (mark_decided kv codec db h r).2 k.height k.round k.index
            ≡ (if in_round h r k then none else undecided_at kv db k.height k.round k.index))
        × (decided_at kv (mark_decided kv codec db h r).2 k.height k.index ≡ (
            if k.height == h
            then or_else (undecided_at kv db h r k.index) (decided_at kv db k.height k.index)
            else decided_at kv db k.height k.index))
  unfolding mark_decided
  mark_decided_round i v hi e k vk =
      let l = round_entries kv db w h r hh hr in
      let o = round_entries-Of kv db w h r hh hr in
      rw (items_of_round i v hi e) (
        move-count kv codec h r hh hr l (0, 0, db) o ∙ omega arith,
        move-undecided kv codec h r hh hr l (to_undecided_key k) (0, 0, db) o
            ∙ ground (arith, find-round k vk),
        decided_after k vk,
      )

  nothing-Of :
      (l : Entries)
      → Of h r l
      → Every (λ k v. kv.get k db.undecided ≡ some v) l
      → ((i : ℕ) → i < 2 ^ 16 → undecided_at kv db h r i ≡ none)
      → l ≡ []
  nothing-Of [] o f empty = refl
  nothing-Of ((k, v) ∷ l) o f empty =
      let (x, hx, e) = o.0 in cc (f.0, empty x hx, ap (λ j. kv.get j db.undecided) e)

  -- A round without blobs has the entries of the whole height moved.
  items_of_height :
      ((i : ℕ) → i < 2 ^ 16 → undecided_at kv db h r i ≡ none)
      → items_to_move kv codec db h r ≡ scan (to_be 8 h) (kv.entries db.undecided)
  unfolding items_to_move collect_undecided_entries
  items_of_height empty = ground (
    arith,
    nothing-Of (round_entries kv db w h r hh hr) (round_entries-Of kv db w h r hh hr)
        (round_entries-found kv db w h r hh hr) empty,
  )

module _ (kv : ByteTable) (codec : BlobCodec) (db : BlobDb kv) (w : IsStore kv db) (h : ℕ)
    (r other : ℤ) (hh : h < 2 ^ 64) (hr : IsI64 r) (ho : IsI64 other) where
  -- The keys of the height are the keys of the other round, where that round alone has blobs.
  height_as_round :
      ((k : BlobKey) (v : List ℕ)
        → IsKey k
        → k.height ≡ h
        → kv.get (to_undecided_key k) db.undecided ≡ some v
        → k.round ≡ other)
      → scan (to_be 8 h) (kv.entries db.undecided) ≡ round_entries kv db w h other hh ho
  unfolding decided_prefix
  height_as_round only =
      scan-select (to_be 8 h) (kv.entries db.undecided) (kv.entries_ascending db.undecided)
      ∙ select-agree (is_prefix (to_be 8 h)) (is_prefix (undecided_prefix h other))
          (kv.entries db.undecided) (Every-map _ agree (entries-found kv db.undecided))
      ∙ sym (
          scan-select (undecided_prefix h other) (kv.entries db.undecided)
            (kv.entries_ascending db.undecided))
    where
      agree :
          (k v : List ℕ)
          → kv.get k db.undecided ≡ some v
          → is_prefix (to_be 8 h) k ≡ is_prefix (undecided_prefix h other) k
      agree k v e =
          let (key, valid, s) = w.keyed k v e in
          ground (
            arith,
            s,
            ap (is_prefix (to_be 8 h)) s,
            ap (is_prefix (undecided_prefix h other)) s,
            (decided_prefix_iff key h valid hh).1,
            undecided_prefix_iff key h other valid hh ho,
            λ (p : key.height ≡ h).
                only key v valid p (ap (λ j. kv.get j db.undecided) (sym s) ∙ e),
          )

  -- Deciding a round that has no blobs promotes the blobs of another round, if all the undecided
  -- blobs of the height are of that round: it does what deciding the other round does.
  pub mark_decided_other_round :
      ((i : ℕ) → i < 2 ^ 16 → undecided_at kv db h r i ≡ none)
      → ((k : BlobKey) (v : List ℕ)
          → IsKey k
          → k.height ≡ h
          → kv.get (to_undecided_key k) db.undecided ≡ some v
          → k.round ≡ other)
      → (j : ℕ) (u : List ℕ) → j < 2 ^ 16
      → undecided_at kv db h other j ≡ some u
      → mark_decided kv codec db h r ≡ mark_decided kv codec db h other
  unfolding mark_decided
  mark_decided_other_round empty only j u hj e =
      ap (λ l. move_entries kv codec l (0, 0, db))
        (items_of_height kv codec db w h r hh hr empty
          ∙ height_as_round only
          ∙ sym (items_of_round kv codec db w h other hh ho j u hj e))

module _ (kv : ByteTable) (codec : BlobCodec) (h : ℕ) (r : ℤ) where
  drop-get :
      (l : Entries) (j : List ℕ) (acc : ℕ × kv.Map)
      → kv.get j (drop_entries kv codec l acc).1 ≡ cleared (find j l) (kv.get j acc.1)
  unfolding drop_entries find
  drop-get [] j acc = refl
  drop-get ((k, v) ∷ l) j (bytes, m) =
      ground (arith, kv.get-remove k j m, drop-get l j (bytes + entry_size codec v, kv.remove k m))

  -- Dropping a round removes its blobs and nothing else, and counts its entries.
  pub drop_round_lem :
      (db : BlobDb kv) (w : IsStore kv db) (hh : h < 2 ^ 64) (hr : IsI64 r) (k : BlobKey)
      → IsKey k
      → ((drop_round kv codec db h r).0 ≡ length (round_entries kv db w h r hh hr))
        × (undecided_at kv (drop_round kv codec db h r).2 k.height k.round k.index
            ≡ (if in_round h r k then none else undecided_at kv db k.height k.round k.index))
        × ((drop_round kv codec db h r).2.decided ≡ db.decided)
  unfolding drop_round
  drop_round_lem db w hh hr k v = (
    refl,
    drop-get (round_entries kv db w h r hh hr) (to_undecided_key k) (0, db.undecided)
        ∙ ground (arith, find-round kv codec db w h r hh hr k v),
    refl,
  )
