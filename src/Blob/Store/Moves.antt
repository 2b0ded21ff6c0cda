-- ===== src/Blob/Store/Moves.antt =====
-- Promotion, dropping and pruning of blobs (crates/blob_engine/src/store/rocksdb.rs) on the two maps
-- of the store.
use ultramarine.Common.{
  ℕ, ◌+◌, ◌≡◌, ◌≢◌, ◌<◌, ◌^◌, refl, ap, ◌∙◌, Option, none, some, List, [], ◌∷◌, arith, ◌==◌, length,
}
use ultramarine.Common.Int.{ℤ, pos}
use ultramarine.Common.Bytes.{IsI64}
use ultramarine.Common.Ord.{bytes_ord}
use ultramarine.Common.Kv.Sorted.{find, IsAscending, find-Above}
use ultramarine.Blob.Key.{
  BlobKey, IsKey, to_decided_key, from_undecided_key, from_undecided_key-to_undecided_key,
}
use ultramarine.Blob.Store.{BlobDb, ByteTable, BlobCodec, Entries, move_entries, entry_size}
use ultramarine.Blob.Store.View.{uk, dk, to_undecided_key-injective, to_decided_key-injective, Of}

abbrev key_of : ℕ → ℤ → ℕ → BlobKey
key_of h r i = record { height = h; round = r; index = i }

-- `some` of the first if there is one, else the second.
abbrev pub or_else {ℓ} : {A : Type ℓ} → Option A → Option A → Option A
or_else none o = o
or_else (some a) o = some a

abbrev pub cleared {ℓ} : {A B : Type ℓ} → Option A → Option B → Option B
cleared none o = o
cleared (some a) o = none

module _ (kv : ByteTable) (codec : BlobCodec) (h : ℕ) (r : ℤ) (hh : h < 2 ^ 64) (hr : IsI64 r) where
  valid : (i : ℕ) → i < 2 ^ 16 → IsKey (key_of h r i)
  valid i hi = record { height_range = hh; round_range = hr; index_range = hi }

  parse :
      (k : List ℕ) (x : ℕ) → x < 2 ^ 16 → k ≡ uk h r x → from_undecided_key k ≡ some (key_of h r x)
  parse k x hx e =
      ap from_undecided_key e ∙ from_undecided_key-to_undecided_key (key_of h r x) (valid x hx)

  moved : List ℕ → List ℕ → ℕ → ℕ × ℕ × BlobDb kv → ℕ × ℕ × BlobDb kv
  unfolding entry_size
  moved k v x acc = (
    acc.0 + 1,
    acc.1 + entry_size codec v,
    record {
      undecided = kv.remove k acc.2.undecided;
      decided = kv.insert (dk h x) v acc.2.decided;
    },
  )

  dk_round : (x : ℕ) → to_decided_key (key_of h r x) ≡ dk h x
  unfolding to_decided_key
  dk_round x = refl

  move_step :
      (k v : List ℕ) (x : ℕ) (l : Entries) (acc : ℕ × ℕ × BlobDb kv)
      → x < 2 ^ 16
      → k ≡ uk h r x
      → move_entries kv codec ((k, v) ∷ l) acc ≡ move_entries kv codec l (moved k v x acc)
  unfolding move_entries moved
  move_step k v x l (count, bytes, db) hx e = rw (parse k x hx e) (rw (dk_round x))

  pub move-undecided :
      (l : Entries) (j : List ℕ) (acc : ℕ × ℕ × BlobDb kv)
      → Of h r l
      → kv.get j (move_entries kv codec l acc).2.undecided
        ≡ cleared (find j l) (kv.get j acc.2.undecided)
  unfolding find moved
  move-undecided [] j acc o = unfold move_entries in refl
  move-undecided ((k, v) ∷ l) j acc o =
      let (x, hx, e) = o.0 in
      rw (move_step k v x l acc hx e) (
        rw (move-undecided l j (moved k v x acc) o.1)
          (ground (arith, kv.get-remove k j acc.2.undecided)))

  -- A key of another height keeps its decided blob.
  pub move-decided_other :
      (l : Entries) (j : List ℕ) (acc : ℕ × ℕ × BlobDb kv)
      → Of h r l
      → ((x : ℕ) → x < 2 ^ 16 → dk h x ≢ j)
      → kv.get j (move_entries kv codec l acc).2.decided ≡ kv.get j acc.2.decided
  unfolding moved
  move-decided_other [] j acc o n = unfold move_entries in refl
  move-decided_other ((k, v) ∷ l) j acc o n =
      let (x, hx, e) = o.0 in
      rw (move_step k v x l acc hx e) (
        rw (move-decided_other l j (moved k v x acc) o.1 n) (
          ground
            (arith, kv.get-insert (dk h x) j v acc.2.decided, bytes_ord.eq_iff (dk h x) j, n x hx)))

  same_index : (x i : ℕ) → x < 2 ^ 16 → i < 2 ^ 16 → dk h x ≡ dk h i → x ≡ i
  same_index x i hx hi e =
      (to_decided_key-injective (key_of h (pos 0) x) (key_of h (pos 0) i)
        (record { height_range = hh; round_range = omega arith; index_range = hx })
        (record { height_range = hh; round_range = omega arith; index_range = hi }) e).1

  same_key : (x i : ℕ) → x < 2 ^ 16 → i < 2 ^ 16 → uk h r x ≡ uk h r i → x ≡ i
  same_key x i hx hi e =
      ap (λ k. k.index)
        (to_undecided_key-injective (key_of h r x) (key_of h r i) (valid x hx) (valid i hi) e)

  eq_dk : (x i : ℕ) → x < 2 ^ 16 → i < 2 ^ 16 → bytes_ord.eq (dk h x) (dk h i) ≡ (x == i)
  eq_dk x i hx hi = ground (arith, bytes_ord.eq_iff (dk h x) (dk h i), same_index x i hx hi)

  eq_uk : (x i : ℕ) → x < 2 ^ 16 → i < 2 ^ 16 → bytes_ord.eq (uk h r x) (uk h r i) ≡ (x == i)
  eq_uk x i hx hi = ground (arith, bytes_ord.eq_iff (uk h r x) (uk h r i), same_key x i hx hi)

  -- A blob of the round becomes the decided blob with its index.
  pub move-decided :
      (l : Entries) (i : ℕ) (acc : ℕ × ℕ × BlobDb kv)
      → i < 2 ^ 16
      → Of h r l
      → IsAscending l
      → kv.get (dk h i) (move_entries kv codec l acc).2.decided
        ≡ or_else (find (uk h r i) l) (kv.get (dk h i) acc.2.decided)
  unfolding find moved
  move-decided [] i acc hi o a = unfold move_entries in refl
  move-decided ((k, v) ∷ l) i acc hi o a =
      let (x, hx, e) = o.0 in
      rw (move_step k v x l acc hx e) (
        rw (move-decided l i (moved k v x acc) hi o.1 a.1) (
          ground (
            arith,
            kv.get-insert (dk h x) (dk h i) v acc.2.decided,
            eq_dk x i hx hi,
            ap (λ j. bytes_ord.eq j (uk h r i)) e ∙ eq_uk x i hx hi,
            ap (λ j. find j l) e ∙ refl,
            find-Above k l a.0,
            λ (s : x ≡ i). ap (λ n. find (uk h r n) l) s,
          )))

  pub move-count :
      (l : Entries) (acc : ℕ × ℕ × BlobDb kv)
      → Of h r l
      → (move_entries kv codec l acc).0 ≡ acc.0 + length l
  unfolding moved
  move-count [] acc o = unfold move_entries in omega arith
  move-count ((k, v) ∷ l) acc o =
      let (x, hx, e) = o.0 in
      rw (move_step k v x l acc hx e) (omega (arith, move-count l (moved k v x acc) o.1))
