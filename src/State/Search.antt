-- ===== src/State/Search.antt =====
-- The index that `binary_search_by_key` answers, and what the side maps do at it
-- (mediadecode-webcodecs/src/state.rs). The search is the standard library's: any answer that it
-- documents for a sorted vector will do.
use mediadecode.Base.{
  ℕ, zero, suc, Ordering, ◌≡◌, refl, sym, ap, ◌∙◌, subst, ◌≢◌, inl, inr, List, [], ◌∷◌,
}
use mediadecode.State.SortedVec.{
  Ordering-cases, Key, insert, remove, insert_lt, insert_eq, insert_gt, remove_eq, remove_ne,
  IsBefore, IsSorted,
}

-- `Ok` with the index of the key, or `Err` with the index at which it belongs.
pub data Search : Type 0 where
  found absent : ℕ → Search

module _ {ℓ κ} {K : Type ℓ} {V : Type κ} where
  -- `entries[index].1 = value`.
  unfoldable pub set_value : ℕ → V → List (K × V) → List (K × V)
  set_value i v [] = []
  set_value zero v ((j, w) ∷ m) = (j, v) ∷ m
  set_value (suc i) v (entry ∷ m) = entry ∷ set_value i v m

  -- `Vec::insert`.
  unfoldable pub insert_at : ℕ → K × V → List (K × V) → List (K × V)
  insert_at zero entry m = entry ∷ m
  insert_at (suc i) entry [] = []
  insert_at (suc i) entry (e ∷ m) = e ∷ insert_at i entry m

  -- `Vec::remove`.
  unfoldable pub remove_at : ℕ → List (K × V) → List (K × V)
  remove_at i [] = []
  remove_at zero (e ∷ m) = m
  remove_at (suc i) (e ∷ m) = e ∷ remove_at i m

  unfoldable pub insert_by : Search → K → V → List (K × V) → List (K × V)
  unfolding set_value insert_at
  insert_by (found i) k v m = set_value i v m
  insert_by (absent i) k v m = insert_at i (k, v) m

  unfoldable pub remove_by : Search → List (K × V) → List (K × V)
  unfolding remove_at
  remove_by (found i) m = remove_at i m
  remove_by (absent i) m = m

module _ {ℓ} {K : Type ℓ} ⦃o : Key K⦄ where
  lt_irrefl : (k : K) → o.cmp k k ≡ Ordering.lt → ⊥
  lt_irrefl k h = cc (o.cmp_refl k)

  gt_of_lt : (j k : K) → o.cmp j k ≡ Ordering.lt → o.cmp k j ≡ Ordering.gt
  gt_of_lt j k h = elim (Ordering-cases (o.cmp k j)) [
    | inl lt ↦ absurd (lt_irrefl j (o.cmp_trans j k j h lt))
    | inr (inl eq) ↦ absurd (lt_irrefl j (subst (λ x. o.cmp j x ≡ Ordering.lt) (o.cmp_eq k j eq) h))
    | inr (inr gt) ↦ gt
  ]

  not_eq_of_lt : (j k : K) → o.cmp j k ≡ Ordering.lt → o.cmp k j ≢ Ordering.eq
  not_eq_of_lt j k h e = cc (gt_of_lt j k h)

  not_eq_of_before : (j k : K) → o.cmp k j ≡ Ordering.lt → o.cmp k j ≢ Ordering.eq
  not_eq_of_before j k h e = cc

module _ {ℓ κ} {K : Type ℓ} {V : Type κ} ⦃o : Key K⦄ where
  -- The key stands at an index.
  abbrev pub IsAt : K → ℕ → List (K × V) → Type 0
  IsAt k i [] = ⊥
  IsAt k zero ((j, w) ∷ m) = o.cmp k j ≡ Ordering.eq
  IsAt k (suc i) ((j, w) ∷ m) = IsAt k i m

  -- All keys before an index are less than the key, and all from there on are greater.
  abbrev pub IsGap : K → ℕ → List (K × V) → Type 0
  IsGap k zero m = IsBefore k m
  IsGap k (suc i) [] = ⊥
  IsGap k (suc i) ((j, w) ∷ m) = (o.cmp j k ≡ Ordering.lt) × IsGap k i m

  -- What `binary_search_by_key` may answer.
  abbrev pub Finds : K → List (K × V) → Search → Type 0
  Finds k m (found i) = IsAt k i m
  Finds k m (absent i) = IsGap k i m

  -- A key that stands behind another is greater.
  IsBefore-IsAt :
      (j k : K) (i : ℕ) (m : List (K × V)) → IsBefore j m → IsAt k i m → o.cmp j k ≡ Ordering.lt
  IsBefore-IsAt j k i [] h at = absurd at
  IsBefore-IsAt j k zero ((x, w) ∷ m) h at =
      subst (λ y. o.cmp j y ≡ Ordering.lt) (sym (o.cmp_eq k x at)) h.0
  IsBefore-IsAt j k (suc i) ((x, w) ∷ m) h at = IsBefore-IsAt j k i m h.1 at

  set_value-insert :
      (i : ℕ) (k : K) (v : V) (m : List (K × V))
      → IsSorted m
      → IsAt k i m
      → set_value i v m ≡ insert k v m
  unfolding set_value
  set_value-insert i k v [] h at = absurd at
  set_value-insert zero k v ((j, w) ∷ m) h at = sym (insert_eq k j v w m at)
  set_value-insert (suc i) k v ((j, w) ∷ m) h at =
      ap (λ l. (j, w) ∷ l) (set_value-insert i k v m h.1 at)
      ∙ sym (insert_gt k j v w m (gt_of_lt j k (IsBefore-IsAt j k i m h.0 at)))

  insert_at-insert :
      (i : ℕ) (k : K) (v : V) (m : List (K × V)) → IsGap k i m → insert_at i (k, v) m ≡ insert k v m
  unfolding insert_at insert
  insert_at-insert zero k v [] gap = refl
  insert_at-insert zero k v ((j, w) ∷ m) gap = sym (insert_lt k j v w m gap.0)
  insert_at-insert (suc i) k v [] gap = absurd gap
  insert_at-insert (suc i) k v ((j, w) ∷ m) gap =
      ap (λ l. (j, w) ∷ l) (insert_at-insert i k v m gap.1)
      ∙ sym (insert_gt k j v w m (gt_of_lt j k gap.0))

  remove_at-remove :
      (i : ℕ) (k : K) (m : List (K × V)) → IsSorted m → IsAt k i m → remove_at i m ≡ remove k m
  unfolding remove_at
  remove_at-remove i k [] h at = absurd at
  remove_at-remove zero k ((j, w) ∷ m) h at = sym (remove_eq k j w m at)
  remove_at-remove (suc i) k ((j, w) ∷ m) h at =
      ap (λ l. (j, w) ∷ l) (remove_at-remove i k m h.1 at)
      ∙ sym (remove_ne k j w m (not_eq_of_lt j k (IsBefore-IsAt j k i m h.0 at)))

  remove_absent : (i : ℕ) (k : K) (m : List (K × V)) → IsGap k i m → m ≡ remove k m
  unfolding remove
  remove_absent zero k [] gap = refl
  remove_absent zero k ((j, w) ∷ m) gap =
      ap (λ l. (j, w) ∷ l) (remove_absent zero k m gap.1)
      ∙ sym (remove_ne k j w m (not_eq_of_before j k gap.0))
  remove_absent (suc i) k [] gap = absurd gap
  remove_absent (suc i) k ((j, w) ∷ m) gap =
      ap (λ l. (j, w) ∷ l) (remove_absent i k m gap.1)
      ∙ sym (remove_ne k j w m (not_eq_of_lt j k gap.0))

  -- On a vector sorted by distinct keys, an overwrite or an insertion at the index that a binary
  -- search may answer is the insertion by a scan, and a removal there is the removal by a scan.
  pub insert_by-insert :
      (answer : Search) (k : K) (v : V) (m : List (K × V))
      → IsSorted m
      → Finds k m answer
      → (insert_by answer k v m ≡ insert k v m) × (remove_by answer m ≡ remove k m)
  unfolding insert_by remove_by
  insert_by-insert (found i) k v m h at =
      (set_value-insert i k v m h at, remove_at-remove i k m h at)
  insert_by-insert (absent i) k v m h gap = (insert_at-insert i k v m gap, remove_absent i k m gap)
