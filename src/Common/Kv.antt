-- ===== src/Common/Kv.antt =====
-- An ordered key-value table of a database outside the repository: a redb table, or a column family
-- of RocksDB. The development takes its operations as a parameter, with the laws that both document:
-- a read returns the last write, and an iteration meets every entry once, in the order of the keys.
pub mod Sorted
pub mod Scan
pub mod Members
use ultramarine.Common.{◌≡◌, refl, Option, none, some, List, [], ◌∷◌, if◌then◌else◌}
use ultramarine.Common.Ord.{Ord}
use Sorted.{
  find, IsAscending, insert_sorted, remove_sorted, insert_sorted-IsAscending,
  remove_sorted-IsAscending, find-insert_sorted, find-remove_sorted,
}

pub record Kv (K V : Type 0) ⦃o : Ord K⦄ : Type 1 where
  pub Map : Type 0
  pub empty : Map
  pub get : K → Map → Option V
  pub insert : K → V → Map → Map
  pub remove : K → Map → Map
  pub entries : Map → List (K × V)
  pub get-empty : (k : K) → get k empty ≡ none
  pub get-insert :
      (k j : K) (v : V) (m : Map) → get j (insert k v m) ≡ (if o.eq k j then some v else get j m)
  pub get-remove : (k j : K) (m : Map) → get j (remove k m) ≡ (if o.eq k j then none else get j m)
  pub find-entries : (k : K) (m : Map) → find k (entries m) ≡ get k m
  pub entries_ascending : (m : Map) → IsAscending (entries m)

pub find-nil : {K V : Type 0} ⦃o : Ord K⦄ (k : K) → find {V = V} k [] ≡ none
unfolding find
find-nil k = refl

-- A table that is its ascending list of entries.
abbrev pub list_kv : (K V : Type 0) ⦃o : Ord K⦄ → Kv K V
list_kv K V ⦃o⦄ = record {
  Map = (l : List (K × V)) × IsAscending l;
  empty = ([], tt);
  get = λ k m. find k m.0;
  insert = λ k v m. (insert_sorted k v m.0, insert_sorted-IsAscending k v m.0 m.1);
  remove = λ k m. (remove_sorted k m.0, remove_sorted-IsAscending k m.0 m.1);
  entries = λ m. m.0;
  get-empty = find-nil;
  get-insert = λ k j v m. find-insert_sorted k j v m.0;
  get-remove = λ k j m. find-remove_sorted k j m.0;
  find-entries = λ k m. refl;
  entries_ascending = λ m. m.1;
}
