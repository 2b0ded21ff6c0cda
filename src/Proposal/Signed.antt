-- ===== src/Proposal/Signed.antt =====
-- The signature of a proposal (`make_proposal_parts` and `verify_proposal_signature` of
-- crates/consensus/src/state.rs).
use ultramarine.Common.{
  ℕ, ◌≡◌, refl, ◌∙◌, inl, inr, Option-cases, Bool, true, false, Option, none, some, List, [], ◌∷◌,
  ◌++◌, arith, if◌then◌else◌,
}
use mathlib.Core.List.{append-nil}
use ultramarine.Common.Result.{ok, err}
use ultramarine.Types.Part.{
  ProposalInit, ProposalData, BlobSidecar, ProposalPart, init, data_part, blob_sidecar, fin,
}
use ultramarine.Types.Validator.{Validator, get_by_address}
use ultramarine.Streaming.{ProposalParts}
use ultramarine.Proposal.Message.{
  has_notice, has_notice-append, hash_parts_lem, last_signature, last_signature-append, part_bytes,
  preimage, preimage-append, preimage-signed_message, signed_message,
}
use ultramarine.Proposal.{
  Signing, Draft, invalid_signature, missing_fin_part, proposer_not_found, check_signature,
  verify_proposal_signature, make_proposal_parts, draft, data_bytes, hash_execution_requests,
  push_part, push_chunks, push_sidecars, is_empty, all_sidecars, chunks, chunk_size,
}

-- The hasher of a draft has read the bytes of its parts, and no part is an archive notice.
pub record IsHonest (d : Draft) : Type 0 where
  pub hashed_eq : d.hashed ≡ preimage d.parts
  pub no_notice : has_notice d.parts ≡ false

preimage_one : (p : ProposalPart) → preimage (p ∷ []) ≡ part_bytes p
unfolding preimage
preimage_one p = append-nil (part_bytes p)

push_part-IsHonest :
    (p : ProposalPart) (d : Draft)
    → IsHonest d
    → has_notice (p ∷ []) ≡ false
    → IsHonest (push_part p (part_bytes p) d)
unfolding push_part
push_part-IsHonest p d w n = record {
  hashed_eq = rw (preimage-append d.parts (p ∷ []), w.hashed_eq, preimage_one p);
  no_notice = rw (has_notice-append d.parts (p ∷ []), w.no_notice, n);
}

push_chunks-IsHonest :
    (requests : List (List ℕ)) (attached : Bool) (cs : List (List ℕ)) (d : Draft)
    → IsHonest d
    → IsHonest (push_chunks requests attached cs d)
unfolding push_chunks has_notice
push_chunks-IsHonest requests true [] d w = w
push_chunks-IsHonest requests false [] d w = push_part-IsHonest (data_part _) d w refl
push_chunks-IsHonest requests true (c ∷ cs) d w =
    let chunk : ProposalData = record { bytes = c; execution_requests = [] } in
    push_chunks-IsHonest requests true cs _ (push_part-IsHonest (data_part chunk) d w refl)
push_chunks-IsHonest requests false (c ∷ cs) d w =
    let chunk : ProposalData = record { bytes = c; execution_requests = requests } in
    push_chunks-IsHonest requests true cs _ (push_part-IsHonest (data_part chunk) d w refl)

push_sidecars-IsHonest :
    (l : List BlobSidecar) (d : Draft) → IsHonest d → IsHonest (push_sidecars l d)
unfolding push_sidecars has_notice
push_sidecars-IsHonest [] d w = w
push_sidecars-IsHonest (s ∷ l) d w =
    push_sidecars-IsHonest l _ (push_part-IsHonest (blob_sidecar s) d w refl)

draft-IsHonest :
    (i : ProposalInit) (payload : List ℕ) (sidecars : Option (List BlobSidecar))
    (requests : List (List ℕ))
    → IsHonest (draft i payload sidecars requests)
unfolding draft preimage has_notice
draft-IsHonest i payload sidecars requests = push_sidecars-IsHonest (all_sidecars sidecars) _ (
    push_chunks-IsHonest requests (is_empty requests) (chunks chunk_size payload) _ (
      push_part-IsHonest (init i) (record { hashed = []; parts = [] })
        (record { hashed_eq = refl; no_notice = refl }) refl))

-- The execution requests of a data part, in front of its bytes as they are hashed.
pub fold_requests : ProposalData → ProposalData
fold_requests d = record {
  bytes = hash_execution_requests d.execution_requests ++ d.bytes;
  execution_requests = [];
}

same_bytes :
    (d : ProposalData) (ys : List ProposalPart)
    → preimage (data_part (fold_requests d) ∷ ys) ≡ preimage (data_part d ∷ ys)
unfolding preimage data_bytes hash_execution_requests fold_requests
same_bytes d ys = refl

same_notice :
    (d : ProposalData) (ys : List ProposalPart)
    → has_notice (data_part (fold_requests d) ∷ ys) ≡ has_notice (data_part d ∷ ys)
unfolding has_notice
same_notice d ys = refl

same_signature :
    (d : ProposalData) (ys : List ProposalPart) (s : Option (List ℕ))
    → last_signature (data_part (fold_requests d) ∷ ys) s ≡ last_signature (data_part d ∷ ys) s
unfolding last_signature
same_signature d ys s = refl

module _ (signing : Signing) (validators : List Validator) where
  verify_proposal_signature_parts :
      (p : ProposalParts)
      → verify_proposal_signature signing validators p ≡ (
          if has_notice p.parts
          then err invalid_signature
          else check_signature signing validators p.proposer
              (preimage p.parts, last_signature p.parts none))
  unfolding verify_proposal_signature
  verify_proposal_signature_parts p = ground (arith, hash_parts_lem p.parts [] none)

  -- Verification refuses a proposal with an archive notice among its parts, then one without a
  -- signature, then one of an unknown proposer; any other it accepts exactly if its last signature
  -- verifies, under the proposer's key, for the hash of the message that its parts spell in order.
  pub verify_proposal_signature_lem :
      (p : ProposalParts)
      → verify_proposal_signature signing validators p ≡ (
          if has_notice p.parts then err invalid_signature else elim (last_signature p.parts none) [
            | none ↦ err missing_fin_part
            | some sig ↦ elim (get_by_address p.proposer validators) [
              | none ↦ err proposer_not_found
              | some v ↦
                  if signing.verify (signing.keccak (signed_message p.parts)) sig v.public_key
                  then ok tt
                  else err invalid_signature
            ]
          ])
  unfolding check_signature
  verify_proposal_signature_lem p = elim (Option-cases (last_signature p.parts none)) [
    | inl e ↦ rw (verify_proposal_signature_parts p, e) refl
    | inr (sig, e) ↦ rw (verify_proposal_signature_parts p, e, preimage-signed_message p.parts) refl
  ]

  fin_last : (xs : List ProposalPart) (s : List ℕ) → last_signature (xs ++ fin s ∷ []) none ≡ some s
  unfolding last_signature
  fin_last xs s = last_signature-append xs (fin s ∷ []) none

  no_fin_bytes : (xs : List ProposalPart) (s : List ℕ) → preimage (xs ++ fin s ∷ []) ≡ preimage xs
  unfolding preimage
  no_fin_bytes xs s = preimage-append xs (fin s ∷ []) ∙ append-nil (preimage xs)

  no_fin_notice :
      (xs : List ProposalPart) (s : List ℕ)
      → has_notice xs ≡ false
      → has_notice (xs ++ fin s ∷ []) ≡ false
  unfolding has_notice
  no_fin_notice xs s e = rw (has_notice-append xs (fin s ∷ []), e)

  -- The parts that a validator makes verify, under its own key, as a proposal of that validator.
  pub verify-make_proposal_parts :
      (i : ProposalInit) (payload : List ℕ) (sidecars : Option (List BlobSidecar))
      (requests : List (List ℕ)) (v : Validator)
      → get_by_address i.proposer validators ≡ some v
      → v.public_key ≡ signing.public_key
      → verify_proposal_signature signing validators (record {
        height = i.height;
        round = i.round;
        proposer = i.proposer;
        parts = make_proposal_parts signing i payload sidecars requests;
      })
        ≡ ok tt
  unfolding make_proposal_parts check_signature
  verify-make_proposal_parts i payload sidecars requests v known own =
      let d = draft i payload sidecars requests in
      let w = draft-IsHonest i payload sidecars requests in
      let s = signing.sign (signing.keccak d.hashed) in
      ground (
        arith,
        verify_proposal_signature_parts (record {
          height = i.height;
          round = i.round;
          proposer = i.proposer;
          parts = d.parts ++ fin s ∷ [];
        }),
        fin_last d.parts s,
        no_fin_bytes d.parts s,
        no_fin_notice d.parts s w.no_notice,
        w.hashed_eq,
        known,
        own,
        signing.verify-sign (signing.keccak d.hashed),
      )

  -- The signature does not tell the execution requests of a part from the bytes that follow them: a
  -- part whose requests have been moved, as they are hashed, in front of its bytes verifies as the
  -- part itself does.
  pub verify_proposal_signature_unframed :
      (p : ProposalParts) (xs ys : List ProposalPart) (d : ProposalData)
      → verify_proposal_signature signing validators
          (record p { parts = xs ++ data_part (fold_requests d) ∷ ys })
        ≡ verify_proposal_signature signing validators (record p { parts = xs ++ data_part d ∷ ys })
  unfolding check_signature
  verify_proposal_signature_unframed p xs ys d =
      let folded = fold_requests d in
      rw (
        verify_proposal_signature_parts (record p { parts = xs ++ data_part folded ∷ ys }),
        verify_proposal_signature_parts (record p { parts = xs ++ data_part d ∷ ys }),
        has_notice-append xs (data_part folded ∷ ys),
        has_notice-append xs (data_part d ∷ ys),
        preimage-append xs (data_part folded ∷ ys),
        preimage-append xs (data_part d ∷ ys),
        last_signature-append xs (data_part folded ∷ ys) none,
        last_signature-append xs (data_part d ∷ ys) none,
        same_bytes d ys,
        same_notice d ys,
        same_signature d ys (last_signature xs none),
      )
