-- ===== src/Proposal/Payload/Recovered.antt =====
-- A proposal is recovered from its parts and from its stream (`make_proposal_parts`,
-- `stream_proposal` and `assemble_and_store_blobs` of crates/consensus/src/state.rs, with
-- crates/consensus/src/streaming.rs).
use ultramarine.Common.{
  ℕ, zero, suc, ◌<◌, ◌≤◌, ◌≡◌, refl, ap, subst, ◌∙◌, true, inl, inr, Option, List, [], ◌∷◌, ◌++◌,
  arith, length, take, drop, length-drop, take-append-drop,
}
use mathlib.Core.List.{append_assoc, append-nil}
use ultramarine.Common.Result.{ok, ◌>>=◌, Result-cases}
use ultramarine.Types.Part.{
  ProposalInit, ProposalData, BlobSidecar, ProposalPart, init, data_part, blob_sidecar,
  archive_notice, fin,
}
use ultramarine.Proposal.{
  Signing, Draft, make_proposal_parts, draft, data_bytes, push_part, push_chunks, push_sidecars,
  is_empty, init_bytes, all_sidecars, chunks, chunks_of, chunk_size,
}
use ultramarine.Proposal.Payload.{
  Payload, extract, collect_requests, merge_requests, concat_data, sidecars_of,
  validate_execution_requests,
}

-- The chunks of a byte string, one after the other.
abbrev pub joined : List (List ℕ) → List ℕ
joined [] = []
joined (c ∷ cs) = c ++ joined cs

joined-chunks_of :
    (fuel n : ℕ) (xs : List ℕ) → 0 < n → length xs ≤ fuel → joined (chunks_of fuel n xs) ≡ xs
unfolding chunks_of
joined-chunks_of zero n [] h e = refl
joined-chunks_of zero n (x ∷ xs) h e = absurd (omega arith)
joined-chunks_of (suc fuel) n [] h e = refl
joined-chunks_of (suc fuel) n (x ∷ xs) h e =
    ap (λ l. take n (x ∷ xs) ++ l)
      (joined-chunks_of fuel n (drop n (x ∷ xs)) h (omega (arith, length-drop n (x ∷ xs))))
    ∙ take-append-drop n (x ∷ xs)

joined-chunks : (n : ℕ) (xs : List ℕ) → 0 < n → joined (chunks n xs) ≡ xs
unfolding chunks
joined-chunks n xs h = joined-chunks_of (length xs) n xs h (omega arith)

concat_data-append :
    (xs ys : List ProposalPart) → concat_data (xs ++ ys) ≡ concat_data xs ++ concat_data ys
unfolding concat_data
concat_data-append [] ys = refl
concat_data-append (data_part d ∷ xs) ys =
    rw (concat_data-append xs ys, append_assoc d.bytes (concat_data xs) (concat_data ys))
concat_data-append (init i ∷ xs) ys = concat_data-append xs ys
concat_data-append (blob_sidecar s ∷ xs) ys = concat_data-append xs ys
concat_data-append (archive_notice n ∷ xs) ys = concat_data-append xs ys
concat_data-append (fin s ∷ xs) ys = concat_data-append xs ys

sidecars_of-append :
    (xs ys : List ProposalPart) → sidecars_of (xs ++ ys) ≡ sidecars_of xs ++ sidecars_of ys
unfolding sidecars_of
sidecars_of-append [] ys = refl
sidecars_of-append (data_part d ∷ xs) ys = sidecars_of-append xs ys
sidecars_of-append (init i ∷ xs) ys = sidecars_of-append xs ys
sidecars_of-append (blob_sidecar s ∷ xs) ys = ap (λ l. s ∷ l) (sidecars_of-append xs ys)
sidecars_of-append (archive_notice n ∷ xs) ys = sidecars_of-append xs ys
sidecars_of-append (fin s ∷ xs) ys = sidecars_of-append xs ys

collect_requests-append :
    (found : List (List ℕ)) (xs ys : List ProposalPart)
    → collect_requests found (xs ++ ys) ≡ (collect_requests found xs >>= λ f. collect_requests f ys)
unfolding collect_requests
collect_requests-append found [] ys = refl
collect_requests-append found (data_part d ∷ xs) ys =
    elim (Result-cases (merge_requests found d.execution_requests)) [
      | inl (f, e) ↦ rw e (collect_requests-append f xs ys)
      | inr (x, e) ↦ rw e
    ]
collect_requests-append found (init i ∷ xs) ys = collect_requests-append found xs ys
collect_requests-append found (blob_sidecar s ∷ xs) ys = collect_requests-append found xs ys
collect_requests-append found (archive_notice n ∷ xs) ys = collect_requests-append found xs ys
collect_requests-append found (fin s ∷ xs) ys = collect_requests-append found xs ys

-- What the parts hold.
pub record Holds (ps : List ProposalPart) (p : Payload) : Type 0 where
  pub requests_eq : collect_requests [] ps ≡ ok p.execution_requests
  pub bytes_eq : concat_data ps ≡ p.bytes
  pub sidecars_eq : sidecars_of ps ≡ p.sidecars

snoc-Holds :
    (ps : List ProposalPart) (x : ProposalPart) (p q : Payload)
    → Holds ps p
    → collect_requests p.execution_requests (x ∷ []) ≡ ok q.execution_requests
    → p.bytes ++ concat_data (x ∷ []) ≡ q.bytes
    → p.sidecars ++ sidecars_of (x ∷ []) ≡ q.sidecars
    → Holds (ps ++ x ∷ []) q
snoc-Holds ps x p q w c b s = record {
  requests_eq = rw (collect_requests-append [] ps (x ∷ []), w.requests_eq, c);
  bytes_eq = rw (concat_data-append ps (x ∷ []), w.bytes_eq, b);
  sidecars_eq = rw (sidecars_of-append ps (x ∷ []), w.sidecars_eq, s);
}

merge_none : (found : List (List ℕ)) → merge_requests found [] ≡ ok found
unfolding merge_requests
merge_none found = refl

merge_first : (rs : List (List ℕ)) → merge_requests [] rs ≡ ok rs
unfolding merge_requests
merge_first [] = refl
merge_first (r ∷ rs) = refl

-- A data part whose requests have been attached before, or are the first.
data-Holds :
    (d : Draft) (p : Payload) (c : List ℕ) (rs found : List (List ℕ))
    → Holds d.parts p
    → merge_requests p.execution_requests rs ≡ ok found
    → (let chunk : ProposalData = record { bytes = c; execution_requests = rs } in
        Holds
          (push_part (data_part chunk) (data_bytes chunk) d).parts
          (record p { execution_requests = found; bytes = p.bytes ++ c }))
unfolding push_part collect_requests concat_data sidecars_of
data-Holds d p c rs found w m =
    let chunk : ProposalData = record { bytes = c; execution_requests = rs } in
    snoc-Holds d.parts (data_part chunk) p
      (record p { execution_requests = found; bytes = p.bytes ++ c }) w (rw m)
      (ap (λ l. p.bytes ++ l) (append-nil c)) (append-nil p.sidecars)

chunks-Holds :
    (rs : List (List ℕ)) (cs : List (List ℕ)) (d : Draft) (p : Payload)
    → Holds d.parts p
    → Holds (push_chunks rs true cs d).parts (record p { bytes = p.bytes ++ joined cs })
unfolding push_chunks
chunks-Holds rs [] d p w = rw (append-nil p.bytes) w
chunks-Holds rs (c ∷ cs) d p w =
    let w' = data-Holds d p c [] p.execution_requests w (merge_none p.execution_requests) in
    rw (← append_assoc p.bytes c (joined cs))
      (chunks-Holds rs cs _ (record p { bytes = p.bytes ++ c }) w')

first_chunks-Holds :
    (rs : List (List ℕ)) (cs : List (List ℕ)) (d : Draft) (p : Payload)
    → Holds d.parts p
    → p.execution_requests ≡ []
    → Holds
        (push_chunks rs (is_empty rs) cs d).parts
        (record p { execution_requests = rs; bytes = p.bytes ++ joined cs })
unfolding push_chunks
first_chunks-Holds [] cs d p w e =
    subst
      (λ f.
        Holds (push_chunks [] true cs d).parts
          (record p { execution_requests = f; bytes = p.bytes ++ joined cs }))
      e (chunks-Holds [] cs d p w)
first_chunks-Holds (r ∷ rs) [] d p w e =
    data-Holds d p [] (r ∷ rs) (r ∷ rs) w (rw e (merge_first (r ∷ rs)))
first_chunks-Holds (r ∷ rs) (c ∷ cs) d p w e =
    let w' = data-Holds d p c (r ∷ rs) (r ∷ rs) w (rw e (merge_first (r ∷ rs))) in
    rw (← append_assoc p.bytes c (joined cs)) (
      chunks-Holds (r ∷ rs) cs _ (record p { execution_requests = r ∷ rs; bytes = p.bytes ++ c })
        w')

sidecars-Holds :
    (l : List BlobSidecar) (d : Draft) (p : Payload)
    → Holds d.parts p
    → Holds (push_sidecars l d).parts (record p { sidecars = p.sidecars ++ l })
unfolding push_sidecars push_part collect_requests concat_data sidecars_of
sidecars-Holds [] d p w = rw (append-nil p.sidecars) w
sidecars-Holds (s ∷ l) d p w = rw (← append_assoc p.sidecars (s ∷ []) l) (
    sidecars-Holds l _ (record p { sidecars = p.sidecars ++ s ∷ [] })
      (snoc-Holds d.parts (blob_sidecar s) p (record p { sidecars = p.sidecars ++ s ∷ [] }) w refl
        (append-nil p.bytes) refl))

init-Holds :
    (i : ProposalInit) (bytes : List ℕ)
    → (let start : Draft = record { hashed = []; parts = [] } in
        Holds
          (push_part (init i) bytes start).parts
          (record { execution_requests = []; bytes = []; sidecars = [] }))
unfolding push_part collect_requests concat_data sidecars_of
init-Holds i bytes = record { requests_eq = refl; bytes_eq = refl; sidecars_eq = refl }

module _ (signing : Signing) (i : ProposalInit) (payload : List ℕ)
    (sidecars : Option (List BlobSidecar)) (requests : List (List ℕ)) where
  abbrev pub given : Payload
  given = record {
    execution_requests = requests;
    bytes = payload;
    sidecars = all_sidecars sidecars;
  }

  parts-Holds : Holds (make_proposal_parts signing i payload sidecars requests) given
  unfolding make_proposal_parts draft collect_requests concat_data sidecars_of
  parts-Holds =
      let d = draft i payload sidecars requests in
      let w = sidecars-Holds (all_sidecars sidecars) _ _ (
        first_chunks-Holds requests (chunks chunk_size payload) _ _
          (init-Holds i (init_bytes i.height i.round)) refl) in
      snoc-Holds d.parts (fin (signing.sign (signing.keccak d.hashed))) _ given w refl
        (append-nil (joined (chunks chunk_size payload))
          ∙ joined-chunks chunk_size payload (omega arith))
        (append-nil (all_sidecars sidecars))

  -- The parts of a proposal hold what it was made of: its payload, its execution requests and its
  -- sidecars are extracted again, if the requests are valid.
  pub extract-make_proposal_parts :
      validate_execution_requests requests ≡ ok tt
      → extract (make_proposal_parts signing i payload sidecars requests) ≡ ok given
  unfolding extract
  extract-make_proposal_parts valid =
      let w = parts-Holds in rw (w.requests_eq, valid, w.bytes_eq, w.sidecars_eq)
