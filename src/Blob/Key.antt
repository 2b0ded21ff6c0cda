-- ===== src/Blob/Key.antt =====
-- Keys of the blob store (crates/blob_engine/src/store/mod.rs) and the prefixes by which it is
-- scanned (crates/blob_engine/src/store/rocksdb.rs).
use ultramarine.Common.{
  ℕ, ◌≡◌, ◌<◌, ◌^◌, ap, ap₂, sym, ◌∙◌, ◌↔◌, true, Option, none, some, List, ◌++◌, [], arith, length,
  length-append, take, drop, ◌==◌, if◌then◌else◌,
}
use mathlib.Core.List.{append-nil, append_assoc}
use ultramarine.Common.Int.{ℤ}
use ultramarine.Common.Bytes.{
  to_be, from_be, to_bits64, of_bits64, IsI64, is_prefix, length-to_be, from_be-to_be,
  of_bits64-to_bits64, to_bits64-lt, take-append, drop-append, is_prefix-append, to_be-injective,
  to_bits64-injective,
}

pub record BlobKey : Type 0 where
  pub height : ℕ
  pub round : ℤ
  pub index : ℕ

-- The ranges of `u64`, `i64` and `u16`.
pub record IsKey (k : BlobKey) : Type 0 where
  pub height_range : k.height < 2 ^ 64
  pub round_range : IsI64 k.round
  pub index_range : k.index < 2 ^ 16

unfoldable pub to_undecided_key : BlobKey → List ℕ
to_undecided_key k = to_be 8 k.height ++ (to_be 8 (to_bits64 k.round) ++ to_be 2 k.index)

unfoldable pub to_decided_key : BlobKey → List ℕ
to_decided_key k = to_be 8 k.height ++ to_be 2 k.index

unfoldable pub from_undecided_key : List ℕ → Option BlobKey
from_undecided_key bytes =
    if length bytes == 18
    then some (record {
      height = from_be (take 8 bytes);
      round = of_bits64 (from_be (take 8 (drop 8 bytes)));
      index = from_be (take 2 (drop 16 bytes));
    })
    else none

unfoldable pub from_decided_key : List ℕ → ℤ → Option BlobKey
from_decided_key bytes round =
    if length bytes == 10
    then some (record {
      height = from_be (take 8 bytes);
      round = round;
      index = from_be (take 2 (drop 8 bytes));
    })
    else none

unfoldable pub undecided_prefix : ℕ → ℤ → List ℕ
undecided_prefix height round = to_be 8 height ++ to_be 8 (to_bits64 round)

unfoldable pub decided_prefix : ℕ → List ℕ
decided_prefix height = to_be 8 height

pub length-to_undecided_key : (k : BlobKey) → length (to_undecided_key k) ≡ 18
unfolding to_undecided_key
length-to_undecided_key k = omega (
  arith,
  length-append (to_be 8 k.height) (to_be 8 (to_bits64 k.round) ++ to_be 2 k.index),
  length-append (to_be 8 (to_bits64 k.round)) (to_be 2 k.index),
  length-to_be 8 k.height,
  length-to_be 8 (to_bits64 k.round),
  length-to_be 2 k.index,
)

pub length-to_decided_key : (k : BlobKey) → length (to_decided_key k) ≡ 10
unfolding to_decided_key
length-to_decided_key k = omega (
  arith,
  length-append (to_be 8 k.height) (to_be 2 k.index),
  length-to_be 8 k.height,
  length-to_be 2 k.index,
)

take-all : (n : ℕ) (xs : List ℕ) → length xs ≡ n → take n xs ≡ xs
take-all n xs h = ap (take n) (sym (append-nil xs)) ∙ take-append n xs [] h

-- The three fields of an undecided key, cut out.
cut_fields :
    (a b c : List ℕ)
    → length a ≡ 8
    → length b ≡ 8
    → length c ≡ 2
    → (take 8 (a ++ (b ++ c)) ≡ a)
      × (take 8 (drop 8 (a ++ (b ++ c))) ≡ b)
      × (take 2 (drop 16 (a ++ (b ++ c))) ≡ c)
cut_fields a b c ha hb hc = (
  take-append 8 a (b ++ c) ha,
  ap (take 8) (drop-append 8 a (b ++ c) ha) ∙ take-append 8 b c hb,
  ap (take 2) (
        ap (drop 16) (sym (append_assoc a b c))
        ∙ drop-append 16 (a ++ b) c (omega (arith, length-append a b)))
      ∙ take-all 2 c hc,
)

from_undecided_key_parts :
    (a b c : List ℕ)
    → length a ≡ 8
    → length b ≡ 8
    → length c ≡ 2
    → from_undecided_key (a ++ (b ++ c))
      ≡ some (record { height = from_be a; round = of_bits64 (from_be b); index = from_be c })
unfolding from_undecided_key
from_undecided_key_parts a b c ha hb hc =
    let f = cut_fields a b c ha hb hc in
    ground (arith, f.0, f.1, f.2, length-append a (b ++ c), length-append b c)

from_decided_key_parts :
    (a c : List ℕ) (round : ℤ)
    → length a ≡ 8
    → length c ≡ 2
    → from_decided_key (a ++ c) round
      ≡ some (record { height = from_be a; round = round; index = from_be c })
unfolding from_decided_key
from_decided_key_parts a c round ha hc = ground (
  arith,
  take-append 8 a c ha,
  ap (take 2) (drop-append 8 a c ha),
  take-all 2 c hc,
  length-append a c,
)

-- A key of the undecided column family is read back.
pub from_undecided_key-to_undecided_key :
    (k : BlobKey) → IsKey k → from_undecided_key (to_undecided_key k) ≡ some k
unfolding to_undecided_key
from_undecided_key-to_undecided_key k v =
    from_undecided_key_parts (to_be 8 k.height) (to_be 8 (to_bits64 k.round)) (to_be 2 k.index)
      (length-to_be 8 k.height) (length-to_be 8 (to_bits64 k.round)) (length-to_be 2 k.index)
    ∙ ground (
      arith,
      from_be-to_be 8 k.height v.height_range,
      from_be-to_be 8 (to_bits64 k.round) (to_bits64-lt k.round v.round_range),
      of_bits64-to_bits64 k.round v.round_range,
      from_be-to_be 2 k.index v.index_range,
    )

-- A key of the decided column family is read back, with the round that the caller supplies.
pub from_decided_key-to_decided_key :
    (k : BlobKey) (round : ℤ)
    → IsKey k
    → from_decided_key (to_decided_key k) round ≡ some (record k { round = round })
unfolding to_decided_key
from_decided_key-to_decided_key k round v =
    from_decided_key_parts (to_be 8 k.height) (to_be 2 k.index) round (length-to_be 8 k.height)
      (length-to_be 2 k.index)
    ∙ ground (arith, from_be-to_be 8 k.height v.height_range, from_be-to_be 2 k.index v.index_range)

-- Two pairs of strings with equal parts on the left are equal part by part.
split_append :
    (n : ℕ) (a b c d : List ℕ) → length a ≡ n → length c ≡ n → a ++ b ≡ c ++ d → (a ≡ c) × (b ≡ d)
split_append n a b c d ha hc e = (
  sym (take-append n a b ha) ∙ ap (take n) e ∙ take-append n c d hc,
  sym (drop-append n a b ha) ∙ ap (drop n) e ∙ drop-append n c d hc,
)

-- A scan by the prefix of a height and a round meets exactly the keys of that height and round.
pub undecided_prefix_iff :
    (k : BlobKey) (height : ℕ) (round : ℤ)
    → IsKey k
    → height < 2 ^ 64
    → IsI64 round
    → (is_prefix (undecided_prefix height round) (to_undecided_key k) ≡ true)
      ↔ ((k.height ≡ height) × (k.round ≡ round))
unfolding undecided_prefix to_undecided_key
undecided_prefix_iff k height round v hh hr = (
  λ p.
      let q =
        split_append 8 (to_be 8 height) (to_be 8 (to_bits64 round)) (to_be 8 k.height)
          (to_be 8 (to_bits64 k.round)) (length-to_be 8 height) (length-to_be 8 k.height)
          (e.0 (regroup p)) in
      (
        to_be-injective 8 k.height height v.height_range hh (sym q.0),
        to_bits64-injective k.round round v.round_range hr (
            to_be-injective 8 (to_bits64 k.round) (to_bits64 round)
              (to_bits64-lt k.round v.round_range) (to_bits64-lt round hr) (sym q.1)),
      ),
  λ p. ungroup (e.1 (ap₂ (λ x y. to_be 8 x ++ to_be 8 (to_bits64 y)) (sym p.0) (sym p.1))),
)
  where
    pre : List ℕ
    pre = to_be 8 height ++ to_be 8 (to_bits64 round)

    own : List ℕ
    own = to_be 8 k.height ++ to_be 8 (to_bits64 k.round)

    whole :
        own ++ to_be 2 k.index
        ≡ to_be 8 k.height ++ (to_be 8 (to_bits64 k.round) ++ to_be 2 k.index)
    whole = append_assoc (to_be 8 k.height) (to_be 8 (to_bits64 k.round)) (to_be 2 k.index)

    e : (is_prefix pre (own ++ to_be 2 k.index) ≡ true) ↔ (pre ≡ own)
    e = is_prefix-append pre own (to_be 2 k.index) (
        omega (
          arith,
          length-append (to_be 8 height) (to_be 8 (to_bits64 round)),
          length-append (to_be 8 k.height) (to_be 8 (to_bits64 k.round)),
          length-to_be 8 height,
          length-to_be 8 (to_bits64 round),
          length-to_be 8 k.height,
          length-to_be 8 (to_bits64 k.round),
        ))

    regroup :
        is_prefix pre (to_be 8 k.height ++ (to_be 8 (to_bits64 k.round) ++ to_be 2 k.index)) ≡ true
        → is_prefix pre (own ++ to_be 2 k.index) ≡ true
    regroup p = ap (is_prefix pre) whole ∙ p

    ungroup :
        is_prefix pre (own ++ to_be 2 k.index) ≡ true
        → is_prefix pre (to_be 8 k.height ++ (to_be 8 (to_bits64 k.round) ++ to_be 2 k.index))
          ≡ true
    ungroup p = ap (is_prefix pre) (sym whole) ∙ p

-- A scan by the prefix of a height meets exactly the keys of that height, in either family.
pub decided_prefix_iff :
    (k : BlobKey) (height : ℕ)
    → IsKey k
    → height < 2 ^ 64
    → ((is_prefix (decided_prefix height) (to_decided_key k) ≡ true) ↔ (k.height ≡ height))
      × ((is_prefix (decided_prefix height) (to_undecided_key k) ≡ true) ↔ (k.height ≡ height))
unfolding decided_prefix to_undecided_key to_decided_key
decided_prefix_iff k height v hh =
    let e =
      is_prefix-append (to_be 8 height) (to_be 8 k.height) (to_be 2 k.index)
        (length-to_be 8 height ∙ sym (length-to_be 8 k.height)) in
    let f =
      is_prefix-append (to_be 8 height) (to_be 8 k.height)
        (to_be 8 (to_bits64 k.round) ++ to_be 2 k.index)
        (length-to_be 8 height ∙ sym (length-to_be 8 k.height)) in
    (
      (
        λ p. to_be-injective 8 k.height height v.height_range hh (sym (e.0 p)),
        λ p. e.1 (ap (to_be 8) (sym p)),
      ),
      (
        λ p. to_be-injective 8 k.height height v.height_range hh (sym (f.0 p)),
        λ p. f.1 (ap (to_be 8) (sym p)),
      ),
    )
