-- ===== src/Timeline/Matched.antt =====
-- The diff without its maps and marks (mediaio-timeline/src/diff/mod.rs).
use mediadecode.Base.{
  ℕ, suc, ◌≡◌, refl, sym, ap, ◌∙◌, subst, inl, inr, Bool, true, false, not, Option, none, some,
  List, [], ◌∷◌, ◌++◌, map, arith, Option-cases, length, get_elem?, set, replicate,
}
use mediadecode.State.SortedVec.{find, remove, find-remove_ne}
use mediadecode.State.Inner.{ok}
use mediadecode.Timeline.Time.{MediaTime}
use mediadecode.Timeline.Data.{Clip, Track, Timeline}
use mediadecode.Timeline.Identity.{NotIn, AllNew, seen_after, id_of}
use mediadecode.Timeline.Valid.{all_ids}
use mediadecode.Timeline.Clash.{Any, AllNew-split, first_clash-none_iff}
use mediadecode.Timeline.Unchanged.{Distinct, AllNew-Distinct, ne_cmp, Waiting}
use mediadecode.Timeline.Reference.{
  place_of, has_id, either, marked_by, shift, marked-absent, marked-found, collect-place,
}
use mediadecode.Timeline.Diff.{
  Change, Delta, first_clash, collect, compare_clips, removed, added, match_clips, added_from,
  diff_track, diff_tracks, diff, change_cmp, sort_by, change_if,
}

module _ (M : MediaTime) where
  -- A clip of the side before: removed if no clip after has its id, and else compared with that clip.
  abbrev pub judged_before : ℕ → List (Clip M) → ℕ → Clip M → List Change
  judged_before track list index c = elim (place_of M (id_of M c) list) [
    | none ↦ record { track = track; kind = removed; before = some index; after = none } ∷ []
    | some partner ↦ elim (get_elem? list partner) [
      | none ↦ []
      | some now ↦ compare_clips M track index partner c now
    ]
  ]

  abbrev pub all_before : ℕ → List (Clip M) → ℕ → List (Clip M) → List Change
  all_before track list index [] = []
  all_before track list index (c ∷ cs) =
      judged_before track list index c ++ all_before track list (suc index) cs

  -- A clip of the side after: added if no clip before has its id.
  abbrev pub all_added : ℕ → List (Clip M) → ℕ → List (Clip M) → List Change
  all_added track clips_before index [] = []
  all_added track clips_before index (c ∷ cs) =
      change_if (not (has_id M (id_of M c) clips_before))
        (record { track = track; kind = added; before = none; after = some index })
      ++ all_added track clips_before (suc index) cs

  -- Each clip of a list waits where a clip of its id stands.
  abbrev AllPlaced : Waiting M → List (Clip M) → List (Clip M) → Type 0
  AllPlaced m list [] = Unit
  AllPlaced m list (c ∷ cs) =
      (find ⦃o = M.text_key⦄ (id_of M c) m ≡ place_of M (id_of M c) list) × AllPlaced m list cs

  remove-AllPlaced :
      (k : M.Utf8Bytes) (m : Waiting M) (list cs : List (Clip M))
      → NotIn k (map (id_of M) cs)
      → AllPlaced m list cs
      → AllPlaced (remove ⦃o = M.text_key⦄ k m) list cs
  remove-AllPlaced k m list [] h w = tt
  remove-AllPlaced k m list (c ∷ cs) h w = (
    find-remove_ne ⦃o = M.text_key⦄ k (id_of M c) m (ne_cmp M (id_of M c) k (λ e. h.0 (sym e)))
        ∙ w.0,
    remove-AllPlaced k m list cs h.1 w.1,
  )

  collect-AllPlaced :
      (list cs : List (Clip M))
      → Distinct (map (id_of M) list)
      → AllPlaced (collect M [] 0 list) list cs
  unfolding find
  collect-AllPlaced list [] d = tt
  collect-AllPlaced list (c ∷ cs) d = (
    collect-place M [] 0 list (id_of M c) d ∙ unshifted (place_of M (id_of M c) list),
    collect-AllPlaced list cs d,
  )
    where
      unshifted : (o : Option ℕ) → shift M 0 o none ≡ o
      unshifted none = refl
      unshifted (some j) = ap some (omega arith)

  match_clips-absent :
      (track : ℕ) (list : List (Clip M)) (i : ℕ) (c : Clip M) (cs : List (Clip M)) (m : Waiting M)
      (mk : List Bool)
      → find ⦃o = M.text_key⦄ (id_of M c) m ≡ none
      → match_clips M track list i (c ∷ cs) m mk ≡ (
          let rest = match_clips M track list (suc i) cs m mk in
          (
            record { track = track; kind = removed; before = some i; after = none } ∷ rest.0,
            rest.1,
          ))
  unfolding match_clips
  match_clips-absent track list i c cs m mk e = ground arith

  abbrev compared : ℕ → List (Clip M) → ℕ → Clip M → ℕ → List Change
  compared track list i c partner = elim (get_elem? list partner) [
    | none ↦ []
    | some now ↦ compare_clips M track i partner c now
  ]

  match_clips-partner :
      (track : ℕ) (list : List (Clip M)) (i : ℕ) (c : Clip M) (cs : List (Clip M)) (m : Waiting M)
      (mk : List Bool) (partner : ℕ)
      → find ⦃o = M.text_key⦄ (id_of M c) m ≡ some partner
      → match_clips M track list i (c ∷ cs) m mk ≡ (
          let rest =
            match_clips M track list
              (suc i)
              cs
              (remove ⦃o = M.text_key⦄ (id_of M c) m)
              (set mk partner true) in
          (compared track list i c partner ++ rest.0, rest.1))
  unfolding match_clips
  match_clips-partner track list i c cs m mk partner e = ground arith

  either-none : (mk : List Bool) (list : List (Clip M)) → mk ≡ either M mk (marked_by M [] list)
  either-none [] list = refl
  either-none (b ∷ mk) [] = refl
  either-none (true ∷ mk) (a ∷ list) = ap (λ l. true ∷ l) (either-none mk list)
  either-none (false ∷ mk) (a ∷ list) = ap (λ l. false ∷ l) (either-none mk list)

  -- The loop over the clips before, with its map and its marks.
  match_clips_lem :
      (track : ℕ) (list : List (Clip M)) (i : ℕ) (cs : List (Clip M)) (m : Waiting M)
      (mk : List Bool)
      → Distinct (map (id_of M) list)
      → Distinct (map (id_of M) cs)
      → AllPlaced m list cs
      → match_clips M track list i cs m mk
        ≡ (all_before track list i cs, either M mk (marked_by M cs list))
  unfolding match_clips
  match_clips_lem track list i [] m mk dl d w = ap (λ l. ([], l)) (either-none mk list)
  match_clips_lem track list i (c ∷ cs) m mk dl d w =
      elim (Option-cases (place_of M (id_of M c) list)) [
        | inl absent ↦
            let ih = match_clips_lem track list (suc i) cs m mk dl d.1 w.1 in
            let gone : List Change =
              record { track = track; kind = removed; before = some i; after = none } ∷ [] in
            let judged : judged_before track list i c ≡ gone = ground arith in
            match_clips-absent track list i c cs m mk (w.0 ∙ absent)
            ∙ ap (λ r. (gone ++ r.0, r.1)) ih
            ∙ ap (λ l. (gone ++ all_before track list (suc i) cs, l))
                (marked-absent M c cs list mk absent)
            ∙ ap
                (λ l.
                  (l ++ all_before track list (suc i) cs, either M mk (marked_by M (c ∷ cs) list)))
                (sym judged)
        | inr (j, found) ↦
            let ih =
              match_clips_lem track list (suc i) cs (remove ⦃o = M.text_key⦄ (id_of M c) m)
                (set mk j true) dl d.1 (remove-AllPlaced (id_of M c) m list cs d.0 w.1) in
            let judged : judged_before track list i c ≡ compared track list i c j = ground arith in
            match_clips-partner track list i c cs m mk j (w.0 ∙ found)
            ∙ ap (λ r. (compared track list i c j ++ r.0, r.1)) ih
            ∙ ap (λ l. (compared track list i c j ++ all_before track list (suc i) cs, l))
                (marked-found M c cs list mk j dl found)
            ∙ ap
                (λ l.
                  (l ++ all_before track list (suc i) cs, either M mk (marked_by M (c ∷ cs) list)))
                (sym judged)
      ]

  either-false : (mk : List Bool) → either M (replicate (length mk) false) mk ≡ mk
  either-false [] = refl
  either-false (b ∷ mk) = ap (λ l. b ∷ l) (either-false mk)

  length-marked : (cs list : List (Clip M)) → length (marked_by M cs list) ≡ length list
  length-marked cs [] = refl
  length-marked cs (a ∷ list) = ap suc (length-marked cs list)

  added_from-marked :
      (track i : ℕ) (cs list : List (Clip M))
      → added_from M track i (marked_by M cs list) ≡ all_added track cs i list
  unfolding added_from
  added_from-marked track i cs [] = refl
  added_from-marked track i cs (a ∷ list) =
      ap
        (λ l.
          change_if (not (has_id M (id_of M a) cs))
            (record { track = track; kind = added; before = none; after = some i })
          ++ l)
        (added_from-marked track (suc i) cs list)

  -- What `diff_track` reports: each clip before, removed or compared with the clip after of its id, then each
  -- clip after that no clip before has the id of.
  abbrev pub reference_track : ℕ → List (Clip M) → List (Clip M) → List Change
  reference_track track clips_before clips_after =
      all_before track clips_after 0 clips_before ++ all_added track clips_before 0 clips_after

  diff_track-reference :
      (track : ℕ) (xs ys : List (Clip M))
      → Distinct (map (id_of M) xs)
      → Distinct (map (id_of M) ys)
      → diff_track M track xs ys ≡ reference_track track xs ys
  unfolding diff_track
  diff_track-reference track xs ys dx dy =
      let start_marks = replicate (length ys) false in
      let all =
        match_clips_lem track ys 0 xs (collect M [] 0 ys) start_marks dy dx
          (collect-AllPlaced ys xs dy) in
      let marks_are : either M start_marks (marked_by M xs ys) ≡ marked_by M xs ys =
        subst (λ n. either M (replicate n false) (marked_by M xs ys) ≡ marked_by M xs ys)
          (length-marked xs ys) (either-false (marked_by M xs ys)) in
      ap (λ r. r.0 ++ added_from M track 0 r.1) all
      ∙ ap (λ l. all_before track ys 0 xs ++ l)
          (ap (added_from M track 0) marks_are ∙ added_from-marked track 0 xs ys)

  -- Track by track, a side with no such track has no clips there.
  abbrev pub reference_tracks : ℕ → List (Track M) → List (Track M) → List Change
  reference_tracks track [] [] = []
  reference_tracks track [] (b ∷ bs) =
      reference_track track [] b.clips ++ reference_tracks (suc track) [] bs
  reference_tracks track (a ∷ xs) [] =
      reference_track track a.clips [] ++ reference_tracks (suc track) xs []
  reference_tracks track (a ∷ xs) (b ∷ bs) =
      reference_track track a.clips b.clips ++ reference_tracks (suc track) xs bs

  abbrev AllDistinct : List (Track M) → Type 0
  AllDistinct [] = Unit
  AllDistinct (t ∷ ts) = Distinct (map (id_of M) t.clips) × AllDistinct ts

  tracks-AllDistinct :
      (seen : List M.Utf8Bytes) (ts : List (Track M))
      → AllNew Any seen (all_ids M ts)
      → AllDistinct ts
  tracks-AllDistinct seen [] a = tt
  tracks-AllDistinct seen (t ∷ ts) a =
      let (these, others) = AllNew-split Any seen (map (id_of M) t.clips) (all_ids M ts) a in
      (
        AllNew-Distinct seen (map (id_of M) t.clips) these,
        tracks-AllDistinct (seen_after seen (map (id_of M) t.clips)) ts others,
      )

  diff_tracks-reference :
      (track : ℕ) (xs ys : List (Track M))
      → AllDistinct xs
      → AllDistinct ys
      → diff_tracks M track xs ys ≡ reference_tracks track xs ys
  unfolding diff_tracks
  diff_tracks-reference track [] [] dx dy = refl
  diff_tracks-reference track [] (b ∷ bs) dx dy =
      rw
        (
          diff_track-reference track [] b.clips tt dy.0,
          diff_tracks-reference (suc track) [] bs tt dy.1,
        )
        refl
  diff_tracks-reference track (a ∷ xs) [] dx dy =
      rw
        (
          diff_track-reference track a.clips [] dx.0 tt,
          diff_tracks-reference (suc track) xs [] dx.1 tt,
        )
        refl
  diff_tracks-reference track (a ∷ xs) (b ∷ bs) dx dy =
      rw
        (
          diff_track-reference track a.clips b.clips dx.0 dy.0,
          diff_tracks-reference (suc track) xs bs dx.1 dy.1,
        )
        refl

  answered :
      (a b : Timeline M) (d : Delta)
      → diff M a b ≡ ok d
      → (first_clash M a ≡ none)
        × (first_clash M b ≡ none)
        × (d.changes ≡ sort_by (change_cmp M a b) (diff_tracks M 0 a.tracks b.tracks))
  unfolding diff
  answered a b d h = (ground arith, ground arith, ground arith)

  -- Whenever `diff` answers, its changes are, in its order, those of the plain account: per track, each clip
  -- before is removed when no clip after has its id, and else compared with that clip; and each clip after is
  -- added when no clip before has its id.
  pub diff-reference :
      (a b : Timeline M) (d : Delta)
      → diff M a b ≡ ok d
      → d.changes ≡ sort_by (change_cmp M a b) (reference_tracks 0 a.tracks b.tracks)
  diff-reference a b d h =
      let (p, q, is_) = answered a b d h in
      is_
      ∙ ap (sort_by (change_cmp M a b)) (
          diff_tracks-reference 0 a.tracks b.tracks
            (tracks-AllDistinct [] a.tracks ((first_clash-none_iff M a).0 p))
            (tracks-AllDistinct [] b.tracks ((first_clash-none_iff M b).0 q)))
