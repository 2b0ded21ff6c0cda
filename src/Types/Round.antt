-- ===== src/Types/Round.antt =====
-- Consensus rounds: `Nil` or a number, as crates/types/src/proposal_part.rs and archive.rs mirror
-- the type of the consensus engine.
use ultramarine.Common.{ℕ, ◌<◌, ◌^◌, ◌%◌, ◌-◌, ◌≡◌, refl, arith, ltb, if◌then◌else◌}
use ultramarine.Common.Int.{ℤ, pos, negsuc}
use ultramarine.Common.Bytes.{IsI64}

pub data Round : Type 0 where
  nil : Round
  num : ℕ → Round

-- The `i64` that stands for a round; `Nil` is -1.
abbrev pub as_i64 : Round → ℤ
as_i64 nil = negsuc 0
as_i64 (num n) = pos n

-- A round's number is a `u32`.
abbrev pub IsRound : Round → Type 0
IsRound nil = Unit
IsRound (num n) = n < 2 ^ 32

pub as_i64-IsI64 : (r : Round) → IsRound r → IsI64 (as_i64 r)
as_i64-IsI64 nil h = omega arith
as_i64-IsI64 (num n) h = omega arith

-- `n as i32` for an `i64` that is not negative.
abbrev pub as_i32 : ℕ → ℤ
as_i32 n = let w = n % 2 ^ 32 in if ltb w (2 ^ 31) then pos w else negsuc (2 ^ 32 - 1 - w)

-- `round_to_proto` and `round_from_proto`.
unfoldable pub round_to_proto : Round → ℤ
round_to_proto nil = negsuc 0
round_to_proto (num n) = as_i32 n

unfoldable pub round_from_proto : ℤ → Round
round_from_proto (negsuc n) = nil
round_from_proto (pos n) = num n

abbrev pub read_back : Round → Round
read_back nil = nil
read_back (num n) = if ltb n (2 ^ 31) then num n else nil

-- A round is read back from the protobuf form of an archive notice if its number is below 2 ^ 31;
-- any greater number, as a `u32`, is read back as `Nil`.
pub round_from_proto-round_to_proto :
    (r : Round) → IsRound r → round_from_proto (round_to_proto r) ≡ read_back r
unfolding round_to_proto round_from_proto
round_from_proto-round_to_proto nil h = refl
round_from_proto-round_to_proto (num n) h = ground arith
