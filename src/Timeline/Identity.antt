-- ===== src/Timeline/Identity.antt =====
-- The ids of an accepted timeline's clips (mediaio-timeline/src/validate/mod.rs).
use mediadecode.Base.{
  ℕ, suc, ◌≡◌, sym, ◌∙◌, subst, ◌≢◌, inl, inr, false, Option, none, some, List, [], ◌∷◌, ◌++◌, map,
  arith,
}
use mediadecode.State.SortedVec.{
  Key, find, insert, find-insert_self, find-insert_ne, Ordering-eq_or_ne,
}
use mediadecode.Timeline.Time.{MediaTime}
use mediadecode.Timeline.Data.{Clip}
use mediadecode.Timeline.Refusal.{ClipAt}
use mediadecode.Timeline.Checks.{reach_on}
use mediadecode.Timeline.Validate.{Ids, judge_id, judge_clips}
use mediadecode.Timeline.Placed.{judge_clips-passed}

module _ {U : Type 0} where
  -- A key is none of a list.
  abbrev pub NotIn : U → List U → Type 0
  NotIn k [] = Unit
  NotIn k (j ∷ js) = (k ≢ j) × NotIn k js

  -- Every key is new when it comes, after those seen, and passes the test.
  abbrev pub AllNew : (U → Type 0) → List U → List U → Type 0
  AllNew P seen [] = Unit
  AllNew P seen (k ∷ ks) = P k × NotIn k seen × AllNew P (k ∷ seen) ks

  abbrev pub seen_after : List U → List U → List U
  seen_after seen [] = seen
  seen_after seen (k ∷ ks) = seen_after (k ∷ seen) ks

  pub AllNew-append :
      (P : U → Type 0) (seen ks js : List U)
      → AllNew P seen ks
      → AllNew P (seen_after seen ks) js
      → AllNew P seen (ks ++ js)
  AllNew-append P seen [] js a b = b
  AllNew-append P seen (k ∷ ks) js a b = (a.0, a.1, AllNew-append P (k ∷ seen) ks js a.2 b)

  -- A key that a map does not hold was not seen.
  abbrev pub Covers : ⦃o : Key U⦄ → List (U × ClipAt) → List U → Type 0
  Covers m seen = (k : U) → find k m ≡ none → NotIn k seen

  pub insert-Covers :
      ⦃o : Key U⦄ (m : List (U × ClipAt)) (seen : List U) (k : U) (at : ClipAt)
      → Covers m seen
      → Covers (insert k at m) (k ∷ seen)
  insert-Covers ⦃o⦄ m seen k at c j absent = elim (Ordering-eq_or_ne j k) [
    | inl eq ↦ absurd (ne (o.cmp_eq j k eq))
    | inr not_eq ↦ (ne, c j (sym (find-insert_ne k j at m not_eq) ∙ absent))
  ]
    where
      ne : j ≢ k
      ne q = cc (absent, find-insert_self k at m, q)

module _ (M : MediaTime) where
  abbrev pub id_of : Clip M → M.Utf8Bytes
  id_of c = c.id.as_str

  -- An id that is not empty.
  abbrev pub IsStated : M.Utf8Bytes → Type 0
  IsStated k = M.is_empty k ≡ false

  abbrev pub CoversIds : Ids M → List M.Utf8Bytes → Type 0
  CoversIds ids seen = Covers ⦃o = M.text_key⦄ ids seen

  judge_id-new :
      (at : ClipAt) (k : M.Utf8Bytes) (ids : Ids M)
      → (judge_id M at k ids).0 ≡ []
      → IsStated k
        × (find ⦃o = M.text_key⦄ k ids ≡ none)
        × ((judge_id M at k ids).1 ≡ insert ⦃o = M.text_key⦄ k at ids)
  judge_id-new at k ids h = ground arith

  pub judge_clips-AllNew :
      (edit : Option M.Timebase) (track index : ℕ) (previous : Option (Clip M))
      (furthest : Option (ℕ × M.Timestamp)) (ids : Ids M) (seen : List M.Utf8Bytes)
      (cs : List (Clip M))
      → CoversIds ids seen
      → (judge_clips M edit track index previous furthest ids cs).0 ≡ []
      → AllNew IsStated seen (map id_of cs)
        × CoversIds
            (judge_clips M edit track index previous furthest ids cs).1
            (seen_after seen (map id_of cs))
  unfolding judge_clips
  judge_clips-AllNew edit track index previous furthest ids seen [] c h = (tt, c)
  judge_clips-AllNew edit track index previous furthest ids seen (clip ∷ cs) c h =
      let at : ClipAt = record { track = track; clip = index } in
      let k = id_of clip in
      let (_, _, of_id, _, rest) =
        judge_clips-passed M edit track index previous furthest ids clip cs h in
      let (stated, absent, after) = judge_id-new at k ids of_id in
      let c' =
        subst (λ m. CoversIds m (k ∷ seen)) (sym after)
          (insert-Covers ⦃o = M.text_key⦄ ids seen k at c) in
      let (new, c'') =
        judge_clips-AllNew edit track (suc index) (some clip) (reach_on M index clip furthest)
          (judge_id M at k ids).1 (k ∷ seen) cs c' rest in
      ((stated, c k absent, new), c'')
