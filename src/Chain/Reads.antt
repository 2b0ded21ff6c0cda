-- ===== src/Chain/Reads.antt =====
-- Reads after writes of the tables of crates/consensus/src/store.rs.
use ultramarine.Common.{
  ℕ, ◌≡◌, refl, ap, sym, subst, inl, inr, true, false, some, ◌==◌, is_some, if◌then◌else◌,
  Bool-cases, arith,
}
use ultramarine.Common.Result.{Result, ok, Result-cases}
use ultramarine.Metastore.{StoreError}
use ultramarine.Common.Ord.{nat_ord}
use ultramarine.Chain.{
  ChainTables, ChainDb, DecidedValue, BlockPayloadRecord, ConsensusBlockMetadata, get_decided_value,
  insert_decided_value, zip_decided, same_metadata, insert_decided_block_data,
  insert_consensus_block_metadata, prune, is_nil, fits_i32,
}

ok-injective : {A : Type 0} {a b : A} → ◌≡◌ {A = Result StoreError A} (ok a) (ok b) → a ≡ b
ok-injective e = ground (arith, e)

module _ (t : ChainTables) where
  same_values :
      {db db' : ChainDb t}
      → ◌≡◌ {A = Result StoreError (ChainDb t)} (ok db) (ok db')
      → (height : ℕ) → get_decided_value t db' height ≡ get_decided_value t db height
  same_values e height = ap (λ (y : ChainDb t). get_decided_value t y height) (sym (ok-injective e))

  zip_decided-some : (d : DecidedValue) → zip_decided t (some d.value) (some d.certificate) ≡ some d
  unfolding zip_decided
  zip_decided-some d = refl

  -- A value that is stored is read back under its height, and the values of all other heights are
  -- read as before.
  pub get_decided_value-insert_decided_value :
      (db db' : ChainDb t) (d : DecidedValue)
      → insert_decided_value t db d ≡ ok db'
      → (height : ℕ)
      → get_decided_value t db' height
        ≡ (if d.certificate.height == height then some d else get_decided_value t db height)
  unfolding get_decided_value insert_decided_value
  get_decided_value-insert_decided_value db db' d e height =
      elim (Bool-cases (is_nil d.certificate.round)) [
        | inl n ↦ absurd (let q = rw (n, insert_decided_value) at e in ground (arith, q))
        | inr n ↦
            let f = rw (n, insert_decided_value) at e in
            let a =
              t.values_table.get-insert d.certificate.height height (t.values.encode d.value)
                db.decided_values in
            let b =
              t.certificates_table.get-insert d.certificate.height height
                (t.certificates.encode d.certificate) db.certificates in
            let new = ok-injective f in
            subst
              (λ (y : ChainDb t). get_decided_value t y height ≡ (
                if d.certificate.height == height then some d else get_decided_value t db height))
              new
              (elim (Bool-cases (d.certificate.height == height)) [
                | inl p ↦
                    let v = (rw p at a) in
                    let c = (rw p at b) in
                    rw
                      (
                        p,
                        v,
                        c,
                        t.values.decode-encode d.value,
                        t.certificates.decode-encode d.certificate,
                      )
                      (zip_decided-some d)
                | inr p ↦ let v = (rw p at a) in let c = (rw p at b) in rw (p, v, c) refl
              ])
      ]

  pub insert_decided_value_fine :
      (db : ChainDb t) (d : DecidedValue)
      → is_nil d.certificate.round ≡ false
      → (db' : ChainDb t) × (insert_decided_value t db d ≡ ok db')
  unfolding insert_decided_value
  insert_decided_value_fine db d n = elim (Result-cases (insert_decided_value t db d)) [
    | inl p ↦ p
    | inr (x, p) ↦ absurd (let q = rw (n, insert_decided_value) at p in ground (arith, q))
  ]

  -- Neither metadata nor block data of a height change the decided values.
  pub get_decided_value-insert_consensus_block_metadata :
      (db db' : ChainDb t) (k : ℕ) (m : ConsensusBlockMetadata)
      → insert_consensus_block_metadata t db k m ≡ ok db'
      → (height : ℕ) → get_decided_value t db' height ≡ get_decided_value t db height
  unfolding get_decided_value insert_consensus_block_metadata
  get_decided_value-insert_consensus_block_metadata db db' k m e height =
      elim (Bool-cases (fits_i32 m.round)) [
        | inr n ↦ absurd (let q = rw (n, insert_consensus_block_metadata) at e in ground (arith, q))
        | inl n ↦
            elim (Bool-cases (
              same_metadata t (t.consensus_table.get k db.consensus_metadata)
                (t.consensus.encode m))) [
                  | inl p ↦ same_values (rw (n, p, insert_consensus_block_metadata) at e) height
                  | inr p ↦ same_values (rw (n, p, insert_consensus_block_metadata) at e) height
                ]
      ]

  pub insert_consensus_block_metadata_fine :
      (db : ChainDb t) (k : ℕ) (m : ConsensusBlockMetadata)
      → fits_i32 m.round ≡ true
      → (db' : ChainDb t) × (insert_consensus_block_metadata t db k m ≡ ok db')
  unfolding insert_consensus_block_metadata
  insert_consensus_block_metadata_fine db k m n =
      elim (Bool-cases
        (same_metadata t (t.consensus_table.get k db.consensus_metadata) (t.consensus.encode m))) [
          | inl p ↦ (db, rw (n, p, insert_consensus_block_metadata) refl)
          | inr p ↦ elim (Result-cases (insert_consensus_block_metadata t db k m)) [
            | inl q ↦ q
            | inr (x, q) ↦
                absurd
                  (let f = rw (n, p, insert_consensus_block_metadata) at q in ground (arith, f))
          ]
        ]

  pub get_decided_value-insert_decided_block_data :
      (db : ChainDb t) (k : ℕ) (r : BlockPayloadRecord) (height : ℕ)
      → get_decided_value t (insert_decided_block_data t db k r) height
        ≡ get_decided_value t db height
  unfolding get_decided_value insert_decided_block_data
  get_decided_value-insert_decided_block_data db k r height =
      elim (Bool-cases (is_some (t.decided_data_table.get k db.decided_block_data))) [
        | inl p ↦ rw p refl
        | inr p ↦ rw p refl
      ]

  pub get_decided_value-prune :
      (db : ChainDb t) (retain height : ℕ)
      → get_decided_value t (prune t db retain) height ≡ get_decided_value t db height
  unfolding get_decided_value prune
  get_decided_value-prune db retain height = refl
