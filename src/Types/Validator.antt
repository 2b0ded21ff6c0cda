-- ===== src/Types/Validator.antt =====
-- Validator sets (crates/types/src/validator_set.rs), with `Vec::dedup` written out: it drops an
-- element that equals the one kept before it.
use ultramarine.Common.{
  ℕ, zero, suc, ◌+◌, ◌-◌, ◌%◌, ◌<◌, ◌≤◌, ◌^◌, ◌≡◌, refl, ap, sym, ◌∙◌, Bool, ◌&&◌, Option, none,
  some, List, [], ◌∷◌, ◌==◌, ltb, length, get_elem?, arith, if◌then◌else◌,
}
use native.Mathlib.Nat.{mod-lt, mod-add-mod, add-mod-mod, add-mod_right, mod-eq_of_lt}
use ultramarine.Types.Round.{Round, nil, num}
use ultramarine.Common.Ord.{bytes_ord}

pub record Validator : Type 0 where
  pub address : List ℕ
  pub public_key : List ℕ
  pub voting_power : ℕ

unfoldable pub same_validator : Validator → Validator → Bool
same_validator a b =
    bytes_ord.eq a.address b.address
    && bytes_ord.eq a.public_key b.public_key
    && a.voting_power == b.voting_power

unfoldable pub dedup_from : Validator → List Validator → List Validator
unfolding same_validator
dedup_from v [] = []
dedup_from v (w ∷ l) =
    let skip = dedup_from v l in
    let keep = dedup_from w l in if same_validator v w then skip else w ∷ keep

unfoldable pub sort_validators : List Validator → List Validator
unfolding dedup_from
sort_validators [] = []
sort_validators (v ∷ l) = v ∷ dedup_from v l

-- `ValidatorSet::new`, which fails its assertion on an empty list.
unfoldable pub new : List Validator → Option (List Validator)
unfolding sort_validators
new l = elim (sort_validators l) [ [] ↦ none | v ∷ r ↦ some (v ∷ r) ]

pub total_voting_power : List Validator → ℕ
total_voting_power [] = 0
total_voting_power (v ∷ l) = v.voting_power + total_voting_power l

unfoldable pub get_by_address : List ℕ → List Validator → Option Validator
get_by_address a [] = none
get_by_address a (v ∷ l) =
    let rest = get_by_address a l in if bytes_ord.eq v.address a then some v else rest

-- `select_proposer` (crates/types/src/context.rs), which fails an assertion on an empty set and on
-- the round `Nil`, and subtracts one from the height: no height of a proposal is 0. The sum is a
-- usize of 64 bits, which wraps in a release build.
unfoldable pub select_proposer : List Validator → ℕ → Round → Option Validator
select_proposer validators height nil = none
select_proposer validators zero (num round) = none
select_proposer validators (suc h) (num round) =
    if ltb 0 (length validators)
    then get_elem? validators ((h + round) % 2 ^ 64 % length validators)
    else none

get_elem?-some :
    (l : List Validator) (i : ℕ) → i < length l → (v : Validator) × (get_elem? l i ≡ some v)
get_elem?-some [] i h = absurd (omega arith)
get_elem?-some (v ∷ l) zero h = (v, refl)
get_elem?-some (v ∷ l) (suc i) h = get_elem?-some l i (omega arith)

select_proposer-some :
    (v : Validator) (l : List Validator) (h round : ℕ)
    → select_proposer (v ∷ l) (suc h) (num round)
      ≡ get_elem? (v ∷ l) ((h + round) % 2 ^ 64 % length (v ∷ l))
unfolding select_proposer
select_proposer-some v l h round = ground arith

-- The proposer of a height and a round whose sum does not wrap is at the index
-- `(height - 1 + round) % count`.
select_proposer-index :
    (v : Validator) (l : List Validator) (h round : ℕ)
    → h + round < 2 ^ 64
    → select_proposer (v ∷ l) (suc h) (num round) ≡ get_elem? (v ∷ l) ((h + round) % length (v ∷ l))
select_proposer-index v l h round b =
    select_proposer-some v l h round
    ∙ ap (λ j. get_elem? (v ∷ l) (j % length (v ∷ l))) (mod-eq_of_lt b)

add_assoc' : (a b c : ℕ) → a + (b + c) ≡ a + b + c
add_assoc' a b c = omega arith

-- The number of rounds after which the index is `i`.
abbrev turns : ℕ → ℕ → ℕ → ℕ
turns a n i = (n - a % n + i) % n

turns_reach : (a n i : ℕ) → 0 < n → i < n → (a + turns a n i) % n ≡ i
turns_reach a n i h b =
    let x = n - a % n + i in
    let whole : a % n + x ≡ i + n = omega (arith, mod-lt a h) in
    add-mod-mod a x n
    ∙ sym (mod-add-mod a n x)
    ∙ ap (λ y. y % n) whole
    ∙ add-mod_right i n
    ∙ mod-eq_of_lt b

-- Every validator has its turn: at every height from 1 on, from every round on, each validator of
-- the set proposes in one of the next rounds, before as many rounds have passed as there are
-- validators, if the height less one, the round and the number of validators sum up to at most
-- 2 ^ 64.
pub select_proposer_turn :
    (validators : List Validator) (h round i : ℕ)
    → i < length validators
    → h + round + length validators ≤ 2 ^ 64
    → (v : Validator) × (get_elem? validators i ≡ some v)
      × (k : ℕ) × (k < length validators)
      × (select_proposer validators (suc h) (num (round + k)) ≡ some v)
select_proposer_turn [] h round i b m = absurd (omega arith)
select_proposer_turn (v ∷ l) h round i b m =
    let n = length (v ∷ l) in
    let (w, e) = get_elem?-some (v ∷ l) i b in
    let k = turns (h + round) n i in
    let turn_lt : k < n = mod-lt (n - (h + round) % n + i) (omega arith) in
    (
      w,
      e,
      k,
      turn_lt,
      select_proposer-index v l h (round + k) (omega (arith, turn_lt, m))
          ∙ ap (λ j. get_elem? (v ∷ l) (j % n)) (add_assoc' h round k)
          ∙ ap (get_elem? (v ∷ l)) (turns_reach (h + round) n i (omega arith) b)
          ∙ e,
    )
