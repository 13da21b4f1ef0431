-- ===== src/State/SortedVec.antt =====
-- The sorted vector that backs both side maps: `binary_search_by_key`, then an insertion at the
-- index found (mediadecode-webcodecs/src/state.rs). On a vector sorted by distinct keys, the search
-- finds an entry exactly when a scan does.
use mediadecode.Base.{
  ℤ, compare_ℤ, ℕ, suc, ◌+◌, ◌≤◌, compare, Ordering, ◌≡◌, refl, sym, subst, ◌≢◌, ◌⊎◌, inl, inr,
  Option, none, some, List, [], ◌∷◌, arith, length,
}

pub Ordering-cases : (c : Ordering) → (c ≡ Ordering.lt) ⊎ ((c ≡ Ordering.eq) ⊎ (c ≡ Ordering.gt))
Ordering-cases Ordering.lt = inl refl
Ordering-cases Ordering.eq = inr (inl refl)
Ordering-cases Ordering.gt = inr (inr refl)

-- The `Ord` of a key.
pub record Key {ℓ} (K : Type ℓ) : Type ℓ where
  pub cmp : K → K → Ordering
  pub cmp_eq : (a b : K) → cmp a b ≡ Ordering.eq → a ≡ b
  pub cmp_refl : (a : K) → cmp a a ≡ Ordering.eq
  pub cmp_gt : (a b : K) → cmp a b ≡ Ordering.gt → cmp b a ≡ Ordering.lt
  pub cmp_trans :
      (a b c : K) → cmp a b ≡ Ordering.lt → cmp b c ≡ Ordering.lt → cmp a c ≡ Ordering.lt

pub nat_cmp_eq : (a b : ℕ) → compare a b ≡ Ordering.eq → a ≡ b
nat_cmp_eq a b h = ground arith

pub nat_cmp_refl : (a : ℕ) → compare a a ≡ Ordering.eq
nat_cmp_refl a = ground arith

pub nat_cmp_gt : (a b : ℕ) → compare a b ≡ Ordering.gt → compare b a ≡ Ordering.lt
nat_cmp_gt a b h = ground arith

pub nat_cmp_trans :
    (a b c : ℕ) → compare a b ≡ Ordering.lt → compare b c ≡ Ordering.lt → compare a c ≡ Ordering.lt
nat_cmp_trans a b c h k = ground arith

pub int_cmp_eq : (a b : ℤ) → compare_ℤ a b ≡ Ordering.eq → a ≡ b
int_cmp_eq a b h = ground arith

pub int_cmp_refl : (a : ℤ) → compare_ℤ a a ≡ Ordering.eq
int_cmp_refl a = ground arith

pub int_cmp_gt : (a b : ℤ) → compare_ℤ a b ≡ Ordering.gt → compare_ℤ b a ≡ Ordering.lt
int_cmp_gt a b h = ground arith

pub int_cmp_trans :
    (a b c : ℤ)
    → compare_ℤ a b ≡ Ordering.lt
    → compare_ℤ b c ≡ Ordering.lt
    → compare_ℤ a c ≡ Ordering.lt
int_cmp_trans a b c h k = ground arith

-- `u32` sequence numbers.
instance abbrev pub nat_key : Key ℕ
nat_key = record {
  cmp = compare;
  cmp_eq = nat_cmp_eq;
  cmp_refl = nat_cmp_refl;
  cmp_gt = nat_cmp_gt;
  cmp_trans = nat_cmp_trans;
}

-- `i64` submission ids.
instance abbrev pub int_key : Key ℤ
int_key = record {
  cmp = compare_ℤ;
  cmp_eq = int_cmp_eq;
  cmp_refl = int_cmp_refl;
  cmp_gt = int_cmp_gt;
  cmp_trans = int_cmp_trans;
}

pub Ordering-eq_or_ne {ℓ} :
    {K : Type ℓ} ⦃o : Key K⦄ (k j : K) → (o.cmp k j ≡ Ordering.eq) ⊎ (o.cmp k j ≢ Ordering.eq)
Ordering-eq_or_ne ⦃o⦄ k j = elim (Ordering-cases (o.cmp k j)) [
  | inl lt ↦ inr (λ e. cc)
  | inr (inl eq) ↦ inl eq
  | inr (inr gt) ↦ inr (λ e. cc)
]

module _ {ℓ κ} {K : Type ℓ} {V : Type κ} ⦃o : Key K⦄ where
  unfoldable pub find : K → List (K × V) → Option V
  find k [] = none
  find k ((j, w) ∷ m) = let rest = find k m in elim (o.cmp k j) [ Ordering.eq ↦ some w | _ ↦ rest ]

  unfoldable pub insert : K → V → List (K × V) → List (K × V)
  insert k v [] = (k, v) ∷ []
  insert k v ((j, w) ∷ m) =
      let rest = insert k v m in
      elim (o.cmp k j) [
        | Ordering.lt ↦ (k, v) ∷ (j, w) ∷ m
        | Ordering.eq ↦ (j, v) ∷ m
        | Ordering.gt ↦ (j, w) ∷ rest
      ]

  unfoldable pub remove : K → List (K × V) → List (K × V)
  remove k [] = []
  remove k ((j, w) ∷ m) =
      let rest = remove k m in elim (o.cmp k j) [ Ordering.eq ↦ m | _ ↦ (j, w) ∷ rest ]

  pub insert_lt :
      (k j : K) (v w : V) (m : List (K × V))
      → o.cmp k j ≡ Ordering.lt
      → insert k v ((j, w) ∷ m) ≡ (k, v) ∷ (j, w) ∷ m
  unfolding insert
  insert_lt k j v w m h = ground arith

  pub insert_eq :
      (k j : K) (v w : V) (m : List (K × V))
      → o.cmp k j ≡ Ordering.eq
      → insert k v ((j, w) ∷ m) ≡ (j, v) ∷ m
  unfolding insert
  insert_eq k j v w m h = ground arith

  pub insert_gt :
      (k j : K) (v w : V) (m : List (K × V))
      → o.cmp k j ≡ Ordering.gt
      → insert k v ((j, w) ∷ m) ≡ (j, w) ∷ insert k v m
  unfolding insert
  insert_gt k j v w m h = ground arith

  pub remove_eq :
      (k j : K) (w : V) (m : List (K × V)) → o.cmp k j ≡ Ordering.eq → remove k ((j, w) ∷ m) ≡ m
  unfolding remove
  remove_eq k j w m h = ground arith

  pub remove_ne :
      (k j : K) (w : V) (m : List (K × V))
      → o.cmp k j ≢ Ordering.eq
      → remove k ((j, w) ∷ m) ≡ (j, w) ∷ remove k m
  unfolding remove
  remove_ne k j w m h = ground arith

  pub find-insert_self : (k : K) (v : V) (m : List (K × V)) → find k (insert k v m) ≡ some v
  unfolding find insert
  find-insert_self k v [] = rw (o.cmp_refl k)
  find-insert_self k v ((j, w) ∷ m) = ground (arith, o.cmp_refl k, find-insert_self k v m)

  pub find-insert_ne :
      (k j : K) (v : V) (m : List (K × V))
      → o.cmp j k ≢ Ordering.eq
      → find j (insert k v m) ≡ find j m
  unfolding find insert
  find-insert_ne k j v [] h = ground arith
  find-insert_ne k j v ((i, w) ∷ m) h = ground (arith, find-insert_ne k j v m h, o.cmp_eq k i)

  pub find-remove_ne :
      (k j : K) (m : List (K × V)) → o.cmp j k ≢ Ordering.eq → find j (remove k m) ≡ find j m
  unfolding find remove
  find-remove_ne k j [] h = refl
  find-remove_ne k j ((i, w) ∷ m) h = ground (arith, find-remove_ne k j m h, o.cmp_eq k i)

  pub length-insert_new :
      (k : K) (v : V) (m : List (K × V)) → find k m ≡ none → length (insert k v m) ≡ suc (length m)
  unfolding find insert
  length-insert_new k v [] h = refl
  length-insert_new k v ((j, w) ∷ m) h = ground (arith, length-insert_new k v m)

  pub length-insert_old :
      (k : K) (v w : V) (m : List (K × V))
      → find k m ≡ some w
      → length (insert k v m) ≤ suc (length m)
  unfolding find insert
  length-insert_old k v u [] h = cc
  length-insert_old k v u ((j, w) ∷ m) h = ground (arith, length-insert_old k v u m)

  pub length-remove :
      (k : K) (v : V) (m : List (K × V)) → find k m ≡ some v → suc (length (remove k m)) ≡ length m
  unfolding find remove
  length-remove k v [] h = cc
  length-remove k v ((j, w) ∷ m) h = ground (arith, length-remove k v m)

  -- The sum of a measure over the records held.
  abbrev pub total : (V → ℕ) → List (K × V) → ℕ
  total f [] = 0
  total f ((k, v) ∷ m) = f v + total f m

  pub total-insert_new :
      (f : V → ℕ) (k : K) (v : V) (m : List (K × V))
      → find k m ≡ none
      → total f (insert k v m) ≡ f v + total f m
  unfolding find insert
  total-insert_new f k v [] h = refl
  total-insert_new f k v ((j, w) ∷ m) h = ground (arith, total-insert_new f k v m)

  pub total-remove :
      (f : V → ℕ) (k : K) (v : V) (m : List (K × V))
      → find k m ≡ some v
      → total f m ≡ f v + total f (remove k m)
  unfolding find remove
  total-remove f k v [] h = cc
  total-remove f k v ((j, w) ∷ m) h = ground (arith, total-remove f k v m)

  -- Every entry satisfies the predicate.
  abbrev pub AllEntries {μ} : (K → V → Type μ) → List (K × V) → Type μ
  AllEntries P [] = Unit
  AllEntries P ((k, v) ∷ m) = P k v × AllEntries P m

  pub AllEntries-insert {μ} :
      (P : K → V → Type μ) (k : K) (v : V) (m : List (K × V))
      → P k v
      → AllEntries P m
      → AllEntries P (insert k v m)
  unfolding insert
  AllEntries-insert P k v [] p h = (p, tt)
  AllEntries-insert P k v ((j, w) ∷ m) p h = elim (Ordering-cases (o.cmp k j)) [
    | inl lt ↦ rw (insert_lt k j v w m lt) (p, h)
    | inr (inl eq) ↦ rw (insert_eq k j v w m eq) (subst (λ x. P x v) (o.cmp_eq k j eq) p, h.1)
    | inr (inr gt) ↦ rw (insert_gt k j v w m gt) (h.0, AllEntries-insert P k v m p h.1)
  ]

  pub AllEntries-remove {μ} :
      (P : K → V → Type μ) (k : K) (m : List (K × V)) → AllEntries P m → AllEntries P (remove k m)
  unfolding remove
  AllEntries-remove P k [] h = tt
  AllEntries-remove P k ((j, w) ∷ m) h = elim (Ordering-eq_or_ne k j) [
    | inl eq ↦ rw (remove_eq k j w m eq) h.1
    | inr ne ↦ rw (remove_ne k j w m ne) (h.0, AllEntries-remove P k m h.1)
  ]

  pub find-AllEntries {μ} :
      (P : K → V → Type μ) (k : K) (v : V) (m : List (K × V))
      → AllEntries P m
      → find k m ≡ some v
      → P k v
  unfolding find
  find-AllEntries P k v [] h e = cc
  find-AllEntries P k v ((j, w) ∷ m) h e = elim (Ordering-eq_or_ne k j) [
    | inl eq ↦
        let same : w ≡ v = ground arith in
        subst (λ x. P x v) (sym (o.cmp_eq k j eq)) (subst (P j) same h.0)
    | inr ne ↦ find-AllEntries P k v m h.1 (ground arith)
  ]

  -- A key stands before all the keys of a list.
  abbrev pub IsBefore : K → List (K × V) → Type 0
  IsBefore k m = AllEntries (λ j w. o.cmp k j ≡ Ordering.lt) m

  -- Keys stand in strictly ascending order.
  abbrev pub IsSorted : List (K × V) → Type 0
  IsSorted [] = Unit
  IsSorted ((k, v) ∷ m) = IsBefore k m × IsSorted m

  IsBefore-trans :
      (k j : K) (m : List (K × V)) → o.cmp k j ≡ Ordering.lt → IsBefore j m → IsBefore k m
  IsBefore-trans k j [] lt h = tt
  IsBefore-trans k j ((i, w) ∷ m) lt h = (o.cmp_trans k j i lt h.0, IsBefore-trans k j m lt h.1)

  -- An insertion keeps the vector sorted by distinct keys.
  pub insert-IsSorted : (k : K) (v : V) (m : List (K × V)) → IsSorted m → IsSorted (insert k v m)
  unfolding insert
  insert-IsSorted k v [] h = (tt, tt)
  insert-IsSorted k v ((j, w) ∷ m) h = elim (Ordering-cases (o.cmp k j)) [
    | inl lt ↦ rw (insert_lt k j v w m lt) ((lt, IsBefore-trans k j m lt h.0), h)
    | inr (inl eq) ↦ rw (insert_eq k j v w m eq) h
    | inr (inr gt) ↦ rw (insert_gt k j v w m gt) (
      AllEntries-insert (λ i u. o.cmp j i ≡ Ordering.lt) k v m (o.cmp_gt k j gt) h.0,
      insert-IsSorted k v m h.1,
    )
  ]

  remove-IsSorted : (k : K) (m : List (K × V)) → IsSorted m → IsSorted (remove k m)
  unfolding remove
  remove-IsSorted k [] h = tt
  remove-IsSorted k ((j, w) ∷ m) h = elim (Ordering-eq_or_ne k j) [
    | inl eq ↦ rw (remove_eq k j w m eq) h.1
    | inr ne ↦
        rw (remove_ne k j w m ne)
          (AllEntries-remove (λ i u. o.cmp j i ≡ Ordering.lt) k m h.0, remove-IsSorted k m h.1)
  ]

  -- A key before all the keys of a vector is not found there.
  find-IsBefore : (k : K) (m : List (K × V)) → IsBefore k m → find k m ≡ none
  unfolding find
  find-IsBefore k [] h = refl
  find-IsBefore k ((j, w) ∷ m) h = ground (arith, find-IsBefore k m h.1)

  find-remove_self : (k : K) (m : List (K × V)) → IsSorted m → find k (remove k m) ≡ none
  unfolding find remove
  find-remove_self k [] h = refl
  find-remove_self k ((j, w) ∷ m) h = elim (Ordering-eq_or_ne k j) [
    | inl eq ↦
        rw (remove_eq k j w m eq)
          (subst (λ i. find i m ≡ none) (sym (o.cmp_eq k j eq)) (find-IsBefore j m h.0))
    | inr ne ↦ rw (remove_ne k j w m ne) (ground (arith, find-remove_self k m h.1))
  ]

  -- What a vector without the entry of a key finds, of what it found before.
  abbrev pub found_without : K → K → Option V → Option V
  found_without k j found = elim (o.cmp j k) [ Ordering.eq ↦ none | _ ↦ found ]

  -- A removal from a vector sorted by distinct keys leaves it so sorted, and then finds nothing under
  -- the key that was removed, and under every other key what was found under it before.
  pub find-remove :
      (k j : K) (m : List (K × V))
      → IsSorted m
      → IsSorted (remove k m) × (find j (remove k m) ≡ found_without k j (find j m))
  find-remove k j m h = (remove-IsSorted k m h, on (o.cmp j k) refl)
    where
      on :
          (c : Ordering)
          → o.cmp j k ≡ c
          → find j (remove k m) ≡ elim c [ Ordering.eq ↦ none | _ ↦ find j m ]
      on Ordering.lt e = find-remove_ne k j m (λ q. cc)
      on Ordering.eq e = rw (o.cmp_eq j k e) (find-remove_self k m h)
      on Ordering.gt e = find-remove_ne k j m (λ q. cc)
