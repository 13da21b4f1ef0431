-- ===== src/Timeline/Clash.antt =====
-- When no id clashes (mediaio-timeline/src/diff/mod.rs).
use mediadecode.Base.{
  ℕ, suc, ◌≡◌, refl, sym, ◌∙◌, subst, ◌↔◌, inl, inr, none, some, List, [], ◌∷◌, ◌++◌, map, arith,
  Option-cases,
}
use mediadecode.State.SortedVec.{find, insert, find-insert_ne}
use mediadecode.State.Inner.{ok, err}
use mediadecode.State.Rounds.{Result-cases}
use mediadecode.Timeline.Time.{MediaTime, Laws}
use mediadecode.Timeline.Data.{Clip, Track, Timeline}
use mediadecode.Timeline.Refusal.{ClipAt, IdClash}
use mediadecode.Timeline.Validate.{Ids, validate}
use mediadecode.Timeline.Identity.{
  NotIn, AllNew, AllNew-append, seen_after, id_of, CoversIds, insert-Covers, IsStated,
}
use mediadecode.Timeline.Valid.{all_ids, validate-IsValid}
use mediadecode.Timeline.Diff.{
  Delta, clash_in, clash_among, first_clash, diff, sort_by, change_cmp, diff_tracks,
}

-- No condition on an id.
abbrev pub Any : {U : Type 0} → U → Type 0
Any k = Unit {0}

AllNew-Any :
    {U : Type 0} (P : U → Type 0) (seen ks : List U) → AllNew P seen ks → AllNew Any seen ks
AllNew-Any P seen [] h = tt
AllNew-Any P seen (k ∷ ks) h = (tt, h.1, AllNew-Any P (k ∷ seen) ks h.2)

pub AllNew-split :
    {U : Type 0} (P : U → Type 0) (seen ks js : List U)
    → AllNew P seen (ks ++ js)
    → AllNew P seen ks × AllNew P (seen_after seen ks) js
AllNew-split P seen [] js h = (tt, h)
AllNew-split P seen (k ∷ ks) js h =
    let (a, b) = AllNew-split P (k ∷ seen) ks js h.2 in ((h.0, h.1, a), b)

module _ (M : MediaTime) where
  -- A map holds no id that was not seen.
  abbrev HoldsOnly : Ids M → List M.Utf8Bytes → Type 0
  HoldsOnly ids seen = (k : M.Utf8Bytes) → NotIn k seen → find ⦃o = M.text_key⦄ k ids ≡ none

  insert-HoldsOnly :
      (ids : Ids M) (seen : List M.Utf8Bytes) (k : M.Utf8Bytes) (at : ClipAt)
      → HoldsOnly ids seen
      → HoldsOnly (insert ⦃o = M.text_key⦄ k at ids) (k ∷ seen)
  insert-HoldsOnly ids seen k at h j (ne, rest) =
      find-insert_ne ⦃o = M.text_key⦄ k j at ids (λ e. ne (M.text_key.cmp_eq j k e)) ∙ h j rest

  clash_in-cons :
      (ids : Ids M) (track index : ℕ) (c : Clip M) (cs : List (Clip M))
      → find ⦃o = M.text_key⦄ (id_of M c) ids ≡ none
      → clash_in M ids track index (c ∷ cs)
        ≡ clash_in M
            (insert ⦃o = M.text_key⦄ (id_of M c) (record { track = track; clip = index }) ids)
            track
            (suc index)
            cs
  unfolding clash_in
  clash_in-cons ids track index c cs e = ground arith

  clash_in-clash :
      (ids : Ids M) (track index : ℕ) (c : Clip M) (cs : List (Clip M)) (first : ClipAt)
      → find ⦃o = M.text_key⦄ (id_of M c) ids ≡ some first
      → clash_in M ids track index (c ∷ cs)
        ≡ err (record { first = first; later = record { track = track; clip = index } })
  unfolding clash_in
  clash_in-clash ids track index c cs first e = ground arith

  -- A track whose ids are new has no clash.
  clash_in-none :
      (ids : Ids M) (seen : List M.Utf8Bytes) (track index : ℕ) (cs : List (Clip M))
      → HoldsOnly ids seen
      → AllNew Any seen (map (id_of M) cs)
      → (ids' : Ids M) × (clash_in M ids track index cs ≡ ok ids')
        × HoldsOnly ids' (seen_after seen (map (id_of M) cs))
  unfolding clash_in
  clash_in-none ids seen track index [] h a = (ids, refl, h)
  clash_in-none ids seen track index (c ∷ cs) h a =
      let at : ClipAt = record { track = track; clip = index } in
      let (ids', e, h') =
        clash_in-none (insert ⦃o = M.text_key⦄ (id_of M c) at ids) (id_of M c ∷ seen) track
          (suc index) cs (insert-HoldsOnly ids seen (id_of M c) at h) a.2 in
      (ids', clash_in-cons ids track index c cs (h (id_of M c) a.1) ∙ e, h')

  -- A track without a clash has new ids.
  clash_in-AllNew :
      (ids ids' : Ids M) (seen : List M.Utf8Bytes) (track index : ℕ) (cs : List (Clip M))
      → CoversIds M ids seen
      → clash_in M ids track index cs ≡ ok ids'
      → AllNew Any seen (map (id_of M) cs) × CoversIds M ids' (seen_after seen (map (id_of M) cs))
  unfolding clash_in
  clash_in-AllNew ids ids' seen track index [] c h =
      let same : ids ≡ ids' = ground arith in (tt, subst (λ m. CoversIds M m seen) same c)
  clash_in-AllNew ids ids' seen track index (clip ∷ cs) c h =
      let at : ClipAt = record { track = track; clip = index } in
      elim (Option-cases (find ⦃o = M.text_key⦄ (id_of M clip) ids)) [
        | inr (first, found) ↦ cc (clash_in-clash ids track index clip cs first found)
        | inl absent ↦
            let (new, c') =
              clash_in-AllNew (insert ⦃o = M.text_key⦄ (id_of M clip) at ids) ids'
                (id_of M clip ∷ seen) track (suc index) cs
                (insert-Covers ⦃o = M.text_key⦄ ids seen (id_of M clip) at c)
                (sym (clash_in-cons ids track index clip cs absent) ∙ h) in
            ((tt, c (id_of M clip) absent, new), c')
      ]

  clash_among-ok :
      (ids ids' : Ids M) (index : ℕ) (t : Track M) (ts : List (Track M))
      → clash_in M ids index 0 t.clips ≡ ok ids'
      → clash_among M ids index (t ∷ ts) ≡ clash_among M ids' (suc index) ts
  unfolding clash_among
  clash_among-ok ids ids' index t ts e = ground arith

  clash_among-err :
      (ids : Ids M) (index : ℕ) (t : Track M) (ts : List (Track M)) (clash : IdClash)
      → clash_in M ids index 0 t.clips ≡ err clash
      → clash_among M ids index (t ∷ ts) ≡ some clash
  unfolding clash_among
  clash_among-err ids index t ts clash e = ground arith

  clash_among-none :
      (ids : Ids M) (seen : List M.Utf8Bytes) (index : ℕ) (ts : List (Track M))
      → HoldsOnly ids seen
      → AllNew Any seen (all_ids M ts)
      → clash_among M ids index ts ≡ none
  unfolding clash_among
  clash_among-none ids seen index [] h a = refl
  clash_among-none ids seen index (t ∷ ts) h a =
      let (these, others) = AllNew-split Any seen (map (id_of M) t.clips) (all_ids M ts) a in
      let (ids', e, h') = clash_in-none ids seen index 0 t.clips h these in
      clash_among-ok ids ids' index t ts e
      ∙ clash_among-none ids' (seen_after seen (map (id_of M) t.clips)) (suc index) ts h' others

  clash_among-AllNew :
      (ids : Ids M) (seen : List M.Utf8Bytes) (index : ℕ) (ts : List (Track M))
      → CoversIds M ids seen
      → clash_among M ids index ts ≡ none
      → AllNew Any seen (all_ids M ts)
  clash_among-AllNew ids seen index [] c h = tt
  clash_among-AllNew ids seen index (t ∷ ts) c h =
      elim (Result-cases (clash_in M ids index 0 t.clips)) [
        | inr (clash, e) ↦ cc (clash_among-err ids index t ts clash e)
        | inl (ids', e) ↦
            let (new, c') = clash_in-AllNew ids ids' seen index 0 t.clips c e in
            AllNew-append Any seen (map (id_of M) t.clips) (all_ids M ts) new (
              clash_among-AllNew ids' (seen_after seen (map (id_of M) t.clips)) (suc index) ts c'
                (sym (clash_among-ok ids ids' index t ts e) ∙ h))
      ]

  -- A timeline has no clash exactly when every clip's id differs from those of all clips before it, track by
  -- track.
  pub first_clash-none_iff :
      (t : Timeline M) → (first_clash M t ≡ none) ↔ AllNew Any [] (all_ids M t.tracks)
  unfolding find
  first_clash-none_iff t = (
    clash_among-AllNew [] [] 0 t.tracks (λ k _. tt),
    clash_among-none [] [] 0 t.tracks (λ k _. refl),
  )

  diff-ok :
      (a b : Timeline M)
      → first_clash M a ≡ none
      → first_clash M b ≡ none
      → (d : Delta) × (diff M a b ≡ ok d)
  unfolding diff
  diff-ok a b p q = (
    record { changes = sort_by (change_cmp M a b) (diff_tracks M 0 a.tracks b.tracks) },
    ground arith,
  )

  -- Under the laws of instants, two timelines that `validate` accepts always have a diff: neither is refused as ambiguous.
  pub validate-diff :
      (laws : Laws M) (a b : Timeline M)
      → validate M a ≡ ok tt
      → validate M b ≡ ok tt
      → (d : Delta) × (diff M a b ≡ ok d)
  validate-diff laws a b p q =
      let unique : (t : Timeline M) → validate M t ≡ ok tt → first_clash M t ≡ none = λ t h.
        (first_clash-none_iff t).1
          (AllNew-Any (IsStated M) [] (all_ids M t.tracks) (validate-IsValid M laws t h).ids) in
      diff-ok a b (unique a p) (unique b q)
