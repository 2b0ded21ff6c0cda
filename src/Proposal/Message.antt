-- ===== src/Proposal/Message.antt =====
-- The message that the parts of a proposal spell for the signature (`make_proposal_parts` and
-- `verify_proposal_signature` of crates/consensus/src/state.rs).
use ultramarine.Common.{
  ℕ, ◌≡◌, refl, ap, length, Bool, true, false, ◌||◌, Option, some, List, [], ◌∷◌, ◌++◌,
  if◌then◌else◌,
}
use mathlib.Core.List.{append_assoc, append-nil}
use ultramarine.Common.Result.{ok, err}
use ultramarine.Common.Bytes.{to_be, to_bits64}
use ultramarine.Types.Round.{as_i64}
use ultramarine.Types.Part.{ProposalPart, init, data_part, blob_sidecar, archive_notice, fin}
use ultramarine.Proposal.{
  invalid_signature, request_bytes, hash_parts, init_bytes, data_bytes, sidecar_bytes,
  hash_execution_requests,
}

-- The bytes of one part that the signature covers.
abbrev pub part_bytes : ProposalPart → List ℕ
part_bytes (init i) = init_bytes i.height i.round
part_bytes (data_part d) = data_bytes d
part_bytes (blob_sidecar s) = sidecar_bytes s
part_bytes (archive_notice n) = []
part_bytes (fin s) = []

unfoldable pub preimage : List ProposalPart → List ℕ
preimage [] = []
preimage (p ∷ ps) = part_bytes p ++ preimage ps

-- The last signature among the parts, or an earlier one.
unfoldable pub last_signature : List ProposalPart → Option (List ℕ) → Option (List ℕ)
last_signature [] s = s
last_signature (fin s ∷ ps) _ = last_signature ps (some s)
last_signature (init i ∷ ps) s = last_signature ps s
last_signature (data_part d ∷ ps) s = last_signature ps s
last_signature (blob_sidecar b ∷ ps) s = last_signature ps s
last_signature (archive_notice n ∷ ps) s = last_signature ps s

unfoldable pub has_notice : List ProposalPart → Bool
has_notice [] = false
has_notice (archive_notice n ∷ ps) = true
has_notice (init i ∷ ps) = has_notice ps
has_notice (data_part d ∷ ps) = has_notice ps
has_notice (blob_sidecar b ∷ ps) = has_notice ps
has_notice (fin s ∷ ps) = has_notice ps

pub hash_parts_lem :
    (ps : List ProposalPart) (bytes : List ℕ) (sig : Option (List ℕ))
    → hash_parts ps (bytes, sig) ≡ (
        if has_notice ps
        then err invalid_signature
        else ok (bytes ++ preimage ps, last_signature ps sig))
unfolding hash_parts preimage last_signature has_notice
hash_parts_lem [] bytes sig = rw (append-nil bytes)
hash_parts_lem (init i ∷ ps) bytes sig = rw (
  hash_parts_lem ps (bytes ++ init_bytes i.height i.round) sig,
  append_assoc bytes (init_bytes i.height i.round) (preimage ps),
)
hash_parts_lem (data_part d ∷ ps) bytes sig =
    rw (
      hash_parts_lem ps (bytes ++ data_bytes d) sig,
      append_assoc bytes (data_bytes d) (preimage ps),
    )
hash_parts_lem (blob_sidecar s ∷ ps) bytes sig = rw (
  hash_parts_lem ps (bytes ++ sidecar_bytes s) sig,
  append_assoc bytes (sidecar_bytes s) (preimage ps),
)
hash_parts_lem (archive_notice n ∷ ps) bytes sig = refl
hash_parts_lem (fin s ∷ ps) bytes sig = hash_parts_lem ps bytes (some s)

pub preimage-append : (xs ys : List ProposalPart) → preimage (xs ++ ys) ≡ preimage xs ++ preimage ys
unfolding preimage
preimage-append [] ys = refl
preimage-append (x ∷ xs) ys =
    rw (preimage-append xs ys, append_assoc (part_bytes x) (preimage xs) (preimage ys))

pub has_notice-append :
    (xs ys : List ProposalPart) → has_notice (xs ++ ys) ≡ (has_notice xs || has_notice ys)
unfolding has_notice
has_notice-append [] ys = refl
has_notice-append (init i ∷ xs) ys = has_notice-append xs ys
has_notice-append (data_part d ∷ xs) ys = has_notice-append xs ys
has_notice-append (blob_sidecar s ∷ xs) ys = has_notice-append xs ys
has_notice-append (archive_notice n ∷ xs) ys = refl
has_notice-append (fin s ∷ xs) ys = has_notice-append xs ys

pub last_signature-append :
    (xs ys : List ProposalPart) (s : Option (List ℕ))
    → last_signature (xs ++ ys) s ≡ last_signature ys (last_signature xs s)
unfolding last_signature
last_signature-append [] ys s = refl
last_signature-append (init i ∷ xs) ys s = last_signature-append xs ys s
last_signature-append (data_part d ∷ xs) ys s = last_signature-append xs ys s
last_signature-append (blob_sidecar b ∷ xs) ys s = last_signature-append xs ys s
last_signature-append (archive_notice n ∷ xs) ys s = last_signature-append xs ys s
last_signature-append (fin f ∷ xs) ys s = last_signature-append xs ys (some f)

-- The signed message, written out: the height and the round of the start, each with eight bytes, the
-- execution requests of a data part, framed by their number and lengths, with its bytes, and the
-- index, the blob, the commitment and the proof of a sidecar.
pub framed_requests : List (List ℕ) → List ℕ
framed_requests [] = []
framed_requests (r ∷ rs) = to_be 4 (length r) ++ r ++ framed_requests rs

pub counted_requests : List (List ℕ) → List ℕ
unfolding framed_requests
counted_requests [] = []
counted_requests (r ∷ rs) = to_be 4 (length (r ∷ rs)) ++ framed_requests (r ∷ rs)

pub signed_message : List ProposalPart → List ℕ
unfolding counted_requests
signed_message [] = []
signed_message (init i ∷ ps) =
    (to_be 8 i.height ++ to_be 8 (to_bits64 (as_i64 i.round))) ++ signed_message ps
signed_message (data_part d ∷ ps) =
    (counted_requests d.execution_requests ++ d.bytes) ++ signed_message ps
signed_message (blob_sidecar s ∷ ps) =
    (to_be 2 s.index ++ s.blob ++ s.kzg_commitment ++ s.kzg_proof) ++ signed_message ps
signed_message (archive_notice n ∷ ps) = signed_message ps
signed_message (fin s ∷ ps) = signed_message ps

pub request_bytes_lem : (rs : List (List ℕ)) → request_bytes rs ≡ framed_requests rs
unfolding request_bytes framed_requests
request_bytes_lem [] = refl
request_bytes_lem (r ∷ rs) = ap (λ x. to_be 4 (length r) ++ r ++ x) (request_bytes_lem rs)

pub hash_execution_requests_lem :
    (rs : List (List ℕ)) → hash_execution_requests rs ≡ counted_requests rs
unfolding hash_execution_requests counted_requests
hash_execution_requests_lem [] = refl
hash_execution_requests_lem (r ∷ rs) =
    ap (λ x. to_be 4 (length (r ∷ rs)) ++ x) (request_bytes_lem (r ∷ rs))

pub preimage-signed_message : (ps : List ProposalPart) → preimage ps ≡ signed_message ps
unfolding preimage signed_message init_bytes data_bytes sidecar_bytes
preimage-signed_message [] = refl
preimage-signed_message (init i ∷ ps) = rw (preimage-signed_message ps) refl
preimage-signed_message (data_part d ∷ ps) =
    rw (preimage-signed_message ps, hash_execution_requests_lem d.execution_requests) refl
preimage-signed_message (blob_sidecar s ∷ ps) = rw (preimage-signed_message ps) refl
preimage-signed_message (archive_notice n ∷ ps) = preimage-signed_message ps
preimage-signed_message (fin s ∷ ps) = preimage-signed_message ps
