-- ===== src/Timeline/Reference.antt =====
-- Where clips of an id stand: what the maps and the marks of the diff hold (mediaio-timeline/src/diff/mod.rs).
use mediadecode.Base.{
  ℕ, suc, ◌+◌, ◌≡◌, refl, sym, ap, ◌∙◌, subst, ◌≢◌, inl, inr, Bool, true, false, ◌||◌, Option, none,
  some, List, [], ◌∷◌, map, arith, Bool-cases, Option-cases, set,
}
use mediadecode.State.SortedVec.{find, insert, find-insert_self, find-insert_ne}
use mediadecode.Timeline.Time.{MediaTime}
use mediadecode.Timeline.Data.{Clip}
use mediadecode.Timeline.Checks.{position}
use mediadecode.Timeline.Identity.{NotIn, id_of}
use mediadecode.Timeline.Unchanged.{Distinct, collect-find, ne_cmp, Waiting}
use mediadecode.Timeline.Diff.{same_text, collect}

module _ (M : MediaTime) where
  -- Where a clip of an id stands.
  abbrev pub place_of : M.Utf8Bytes → List (Clip M) → Option ℕ
  place_of k cs = position (λ c. same_text M k (id_of M c)) cs

  abbrev pub has_id : M.Utf8Bytes → List (Clip M) → Bool
  has_id k [] = false
  has_id k (c ∷ cs) = same_text M k (id_of M c) || has_id k cs

  same_text-eq : (k j : M.Utf8Bytes) → same_text M k j ≡ true → k ≡ j
  same_text-eq k j h = M.text_key.cmp_eq k j (ground arith)

  same_text-ne : (k j : M.Utf8Bytes) → k ≢ j → same_text M k j ≡ false
  same_text-ne k j ne = elim (Bool-cases (same_text M k j)) [
    | inl yes_ ↦ absurd (ne (same_text-eq k j yes_))
    | inr no_ ↦ no_
  ]

  same_text-sym : (k j : M.Utf8Bytes) → same_text M k j ≡ true → same_text M j k ≡ true
  same_text-sym k j h = rw (same_text-eq k j h, M.text_key.cmp_refl j) refl

  differ : (k j : M.Utf8Bytes) → same_text M k j ≡ false → k ≢ j
  differ k j h e = cc (h, e, M.text_key.cmp_refl k)

  add_zero : (i : ℕ) → i ≡ i + 0
  add_zero i = omega arith

  abbrev pub shift : ℕ → Option ℕ → Option ℕ → Option ℕ
  shift i none other = other
  shift i (some j) other = some (i + j)

  next : Option ℕ → Option ℕ
  next o = elim o [ none ↦ none | some j ↦ some (suc j) ]

  shift_next : (i : ℕ) (o other : Option ℕ) → shift (suc i) o other ≡ shift i (next o) other
  unfolding next
  shift_next i none other = refl
  shift_next i (some j) other = ap some (omega arith)

  -- The map that is collected answers where a clip of an id stands.
  pub collect-place :
      (m : Waiting M) (i : ℕ) (cs : List (Clip M)) (k : M.Utf8Bytes)
      → Distinct (map (id_of M) cs)
      → find ⦃o = M.text_key⦄ k (collect M m i cs)
        ≡ shift i (place_of k cs) (find ⦃o = M.text_key⦄ k m)
  unfolding collect next
  collect-place m i [] k d = refl
  collect-place m i (c ∷ cs) k d = elim (Bool-cases (same_text M k (id_of M c))) [
    | inl yes_ ↦
        let e = same_text-eq k (id_of M c) yes_ in
        let new : NotIn k (map (id_of M) cs) =
          subst (λ j. NotIn j (map (id_of M) cs)) (sym e) d.0 in
        let held : find ⦃o = M.text_key⦄ k (insert ⦃o = M.text_key⦄ (id_of M c) i m) ≡ some i =
          subst (λ j. find ⦃o = M.text_key⦄ j (insert ⦃o = M.text_key⦄ (id_of M c) i m) ≡ some i)
            (sym e) (find-insert_self ⦃o = M.text_key⦄ (id_of M c) i m) in
        rw yes_ (
          collect-find M (insert ⦃o = M.text_key⦄ (id_of M c) i m) (suc i) cs k new
          ∙ held
          ∙ ap some (add_zero i))
    | inr no_ ↦
        let same =
          find-insert_ne ⦃o = M.text_key⦄ (id_of M c) k i m
            (ne_cmp M k (id_of M c) (differ k (id_of M c) no_)) in
        rw no_ (
          collect-place (insert ⦃o = M.text_key⦄ (id_of M c) i m) (suc i) cs k d.1
          ∙ ap (shift (suc i) (place_of k cs)) same
          ∙ shift_next i (place_of k cs) (find ⦃o = M.text_key⦄ k m))
  ]

  same_text-commutes : (k j : M.Utf8Bytes) (b : Bool) → same_text M k j ≡ b → same_text M j k ≡ b
  same_text-commutes k j true h = same_text-sym k j h
  same_text-commutes k j false h = same_text-ne j k (λ e. differ k j h (sym e))

  -- What a search finds, from its first clip on.
  place_of-absent :
      (k : M.Utf8Bytes) (c : Clip M) (cs : List (Clip M))
      → place_of k (c ∷ cs) ≡ none
      → (same_text M k (id_of M c) ≡ false) × (place_of k cs ≡ none)
  place_of-absent k c cs h = (ground arith, ground arith)

  place_of-first :
      (k : M.Utf8Bytes) (c : Clip M) (cs : List (Clip M)) (j : ℕ)
      → same_text M k (id_of M c) ≡ true
      → place_of k (c ∷ cs) ≡ some j
      → 0 ≡ j
  place_of-first k c cs j e h = ground arith

  place_of-later :
      (k : M.Utf8Bytes) (c : Clip M) (cs : List (Clip M)) (j : ℕ)
      → same_text M k (id_of M c) ≡ false
      → place_of k (c ∷ cs) ≡ some j
      → (i : ℕ) × (place_of k cs ≡ some i) × (suc i ≡ j)
  place_of-later k c cs j e h = elim (Option-cases (place_of k cs)) [
    | inl absent ↦ absurd (ground arith)
    | inr (i, found) ↦ (i, found, ground arith)
  ]

  place_of-NotIn :
      (k : M.Utf8Bytes) (cs : List (Clip M)) → NotIn k (map (id_of M) cs) → place_of k cs ≡ none
  place_of-NotIn k [] h = refl
  place_of-NotIn k (c ∷ cs) h = rw (same_text-ne k (id_of M c) h.0, place_of-NotIn k cs h.1) refl

  or_true : (b : Bool) → true ≡ (b || true)
  or_true true = refl
  or_true false = refl

  -- Marks taken together.
  abbrev pub either : List Bool → List Bool → List Bool
  either [] bs = []
  either (a ∷ xs) [] = a ∷ xs
  either (a ∷ xs) (b ∷ bs) = (a || b) ∷ either xs bs

  -- The marks of the clips whose ids some clip of a list has.
  abbrev pub marked_by : List (Clip M) → List (Clip M) → List Bool
  marked_by cs list = map (λ a. has_id (id_of M a) cs) list

  -- No clip of the list has the id of `c`, or just the one at its place.
  pub marked-absent :
      (c : Clip M) (cs list : List (Clip M)) (mk : List Bool)
      → place_of (id_of M c) list ≡ none
      → either mk (marked_by cs list) ≡ either mk (marked_by (c ∷ cs) list)
  marked-absent c cs [] mk h = refl
  marked-absent c cs (a ∷ list) [] h = refl
  marked-absent c cs (a ∷ list) (b ∷ mk) h =
      let (ne, rest) = place_of-absent (id_of M c) a list h in
      rw (same_text-commutes (id_of M c) (id_of M a) false ne)
        (ap (λ l. (b || has_id (id_of M a) cs) ∷ l) (marked-absent c cs list mk rest))

  pub marked-found :
      (c : Clip M) (cs list : List (Clip M)) (mk : List Bool) (j : ℕ)
      → Distinct (map (id_of M) list)
      → place_of (id_of M c) list ≡ some j
      → either (set mk j true) (marked_by cs list) ≡ either mk (marked_by (c ∷ cs) list)
  marked-found c cs [] mk j d h = cc
  marked-found c cs (a ∷ list) [] j d h = refl
  marked-found c cs (a ∷ list) (b ∷ mk) j d h =
      elim (Bool-cases (same_text M (id_of M c) (id_of M a))) [
        | inl yes_ ↦
            let none_later = place_of-NotIn (id_of M c) list (
              subst (λ k. NotIn k (map (id_of M) list))
                (sym (same_text-eq (id_of M c) (id_of M a) yes_)) d.0) in
            subst
              (λ n.
                either (set (b ∷ mk) n true) (marked_by cs (a ∷ list))
                ≡ either (b ∷ mk) (marked_by (c ∷ cs) (a ∷ list)))
              (place_of-first (id_of M c) a list j yes_ h)
              (rw (same_text-commutes (id_of M c) (id_of M a) true yes_) (
                ap (λ x. x ∷ either mk (marked_by cs list)) (or_true b)
                ∙ ap (λ l. (b || true) ∷ l) (marked-absent c cs list mk none_later)))
        | inr no_ ↦
            let (i, found, same) = place_of-later (id_of M c) a list j no_ h in
            subst
              (λ n.
                either (set (b ∷ mk) n true) (marked_by cs (a ∷ list))
                ≡ either (b ∷ mk) (marked_by (c ∷ cs) (a ∷ list)))
              same
              (rw (same_text-commutes (id_of M c) (id_of M a) false no_) (
                ap (λ l. (b || has_id (id_of M a) cs) ∷ l) (marked-found c cs list mk i d.1 found)))
      ]
