-- ===== src/Chain/Greatest.antt =====
-- The greatest height of a decided value (`max_decided_value_height` of crates/consensus/src/store.rs).
use ultramarine.Common.{
  ℕ, ◌≤◌, ◌≡◌, ◌⊎◌, refl, ap, inl, inr, sym, ◌∙◌, true, Option, none, some, List, [], ◌∷◌, arith,
  is_some, ◌==◌, Bool-cases,
}
use ultramarine.Common.Ord.{nat_ord}
use ultramarine.Common.Kv.Sorted.{find, IsAscending}
use ultramarine.Chain.{ChainTables, ChainDb, last_height, max_decided_value_height}

module _ (t : ChainTables) where
  -- A height that has an entry, above which there is none.
  abbrev pub IsGreatest : (ℕ → Option t.values.Stored) → ℕ → Type 0
  IsGreatest at x =
      (is_some (at x) ≡ true) × ((k : ℕ) (v : t.values.Stored) → at k ≡ some v → k ≤ x)

  last_height_lem :
      (h : ℕ) (v : t.values.Stored) (l : List (ℕ × t.values.Stored))
      → IsAscending ((h, v) ∷ l)
      → (x : ℕ) × (last_height t (some h) l ≡ some x) × IsGreatest (λ k. find k ((h, v) ∷ l)) x
  unfolding last_height find
  last_height_lem h v [] a = (h, refl, (ground arith, λ k w e. ground (arith, e)))
  last_height_lem h v ((j, u) ∷ l) a =
      let (x, e, (found, above)) = last_height_lem j u l a.1 in
      let low : j ≤ x = above j u (ground arith) in
      (
        x,
        e,
        (
          ground (arith, found),
          λ k w f. elim (Bool-cases (h == k)) [
            | inl p ↦ ground (arith, p, low, a.0.0)
            | inr p ↦ above k w (rw p at f)
          ],
        ),
      )

  entries-IsGreatest :
      (l : List (ℕ × t.values.Stored))
      → IsAscending l
      → ((x : ℕ) × (last_height t none l ≡ some x) × IsGreatest (λ k. find k l) x)
        ⊎ ((last_height t none l ≡ none) × ((k : ℕ) → find k l ≡ none))
  unfolding last_height find
  entries-IsGreatest [] a = inr (refl, λ k. refl)
  entries-IsGreatest ((h, v) ∷ l) a = inl (last_height_lem h v l a)

  -- It is the greatest height that has a decided value, and none where no height has one.
  pub max_decided_value_height_lem :
      (db : ChainDb t)
      → ((x : ℕ) × (max_decided_value_height t db ≡ some x)
          × IsGreatest (λ k. t.values_table.get k db.decided_values) x)
        ⊎ ((max_decided_value_height t db ≡ none)
            × ((k : ℕ) → t.values_table.get k db.decided_values ≡ none))
  unfolding max_decided_value_height
  max_decided_value_height_lem db =
      let found : (k : ℕ)
          → find k (t.values_table.entries db.decided_values)
            ≡ t.values_table.get k db.decided_values =
        λ k. t.values_table.find-entries k db.decided_values in
      elim (entries-IsGreatest (t.values_table.entries db.decided_values)
        (t.values_table.entries_ascending db.decided_values)) [
          | inr (e, f) ↦ inr (e, λ k. sym (found k) ∙ f k)
          | inl (x, e, g) ↦
              inl (x, e, (ap is_some (sym (found x)) ∙ g.0, λ k v q. g.1 k v (found k ∙ q)))
        ]
