-- ===== src/Timeline/Unchanged.antt =====
-- Nothing changed between a timeline and itself (mediaio-timeline/src/diff/mod.rs).
use mediadecode.Base.{
  ℕ, zero, suc, ◌+◌, Ordering, ◌≡◌, refl, sym, ap, ◌∙◌, ◌≢◌, Bool, true, false, Option, none, some,
  List, [], ◌∷◌, ◌++◌, map, arith, length, get_elem?, set, replicate,
}
use mediadecode.State.SortedVec.{
  find, insert, remove, find-insert_self, find-insert_ne, find-remove_ne,
}
use mediadecode.State.Inner.{ok}
use mediadecode.Timeline.Time.{MediaTime, Laws}
use mediadecode.Timeline.Data.{Clip, Track, Timeline, Fade, FadeShape, linear, equal_power, Gain}
use mediadecode.Timeline.Identity.{NotIn, AllNew, seen_after, id_of}
use mediadecode.Timeline.Valid.{all_ids}
use mediadecode.Timeline.Clash.{Any, AllNew-split, first_clash-none_iff}
use mediadecode.Timeline.Diff.{
  Change, Delta, same_bool, same_shape, same_gain, same_text, same_span, same_fade, first_clash,
  collect, compare_clips, match_clips, added_from, diff_track, diff_tracks, diff, change_cmp,
  sort_by,
}

-- The keys of a list differ from each other.
abbrev pub Distinct : {U : Type 0} → List U → Type 0
Distinct [] = Unit
Distinct (k ∷ ks) = NotIn k ks × Distinct ks

AllNew-NotIn :
    {U : Type 0} (seen : List U) (j : U) (ks : List U)
    → ((k : U) → NotIn k seen → k ≢ j)
    → AllNew Any seen ks
    → NotIn j ks
AllNew-NotIn seen j [] apart a = tt
AllNew-NotIn seen j (k ∷ ks) apart a =
    (λ e. apart k a.1 (sym e), AllNew-NotIn (k ∷ seen) j ks (λ i h. apart i h.1) a.2)

pub AllNew-Distinct : {U : Type 0} (seen ks : List U) → AllNew Any seen ks → Distinct ks
AllNew-Distinct seen [] a = tt
AllNew-Distinct seen (k ∷ ks) a =
    (AllNew-NotIn (k ∷ seen) k ks (λ i h. h.0) a.2, AllNew-Distinct (k ∷ seen) ks a.2)

-- The marks when the first `i` of the clips are matched.
abbrev marks : ℕ → ℕ → List Bool
marks i left = replicate i true ++ replicate left false

set-marks : (i left : ℕ) → set (marks i (suc left)) i true ≡ marks (suc i) left
set-marks zero left = refl
set-marks (suc i) left = ap (λ l. true ∷ l) (set-marks i left)

marked_all : (i j : ℕ) → i ≡ j → Path (List Change × List Bool) ([], marks i 0) ([], marks j 0)
marked_all i j e = ap (λ n. ([], marks n 0)) e

module _ (M : MediaTime) where
  added_from-none : (track index i : ℕ) → added_from M track index (marks i 0) ≡ []
  unfolding added_from
  added_from-none track index zero = refl
  added_from-none track index (suc i) = added_from-none track (suc index) i

  same_gain_refl : (g : Option Gain) → same_gain g g ≡ true
  same_gain_refl none = refl
  same_gain_refl (some g) = ground arith

  same_fade_refl : (laws : Laws M) (f : Option (Fade M)) → same_fade M f f ≡ true
  same_fade_refl laws none = refl
  same_fade_refl laws (some f) = rw (shape f.shape, laws.same_length f.duration) refl
    where
      shape : (s : FadeShape) → same_shape s s ≡ true
      shape linear = refl
      shape equal_power = refl

  same_span_refl : (laws : Laws M) (r : M.TimeRange) → same_span M r r ≡ true
  same_span_refl laws r = rw (laws.same_instant (M.start r), laws.same_instant (M.end r)) refl

  same_text_refl : (a : M.Utf8Bytes) → same_text M a a ≡ true
  same_text_refl a = rw (M.text_key.cmp_refl a) refl

  same_bool_refl : (b : Bool) → same_bool b b ≡ true
  same_bool_refl true = refl
  same_bool_refl false = refl

  compare_clips-same :
      (laws : Laws M) (track index partner : ℕ) (c : Clip M)
      → compare_clips M track index partner c c ≡ []
  compare_clips-same laws track index partner c =
      rw
        (
          same_span_refl laws c.placed,
          same_span_refl laws c.source_range,
          same_gain_refl c.gain,
          same_fade_refl laws c.fades.fade_in,
          same_fade_refl laws c.fades.fade_out,
          same_bool_refl c.enabled,
          same_text_refl c.name,
          same_text_refl c.media.locator,
        )
        refl

  abbrev pub Waiting : Type 0
  Waiting = List (M.Utf8Bytes × ℕ)

  -- The clips from an index on wait under their ids, and stand at their places in a list.
  abbrev AllWait : Waiting → ℕ → List (Clip M) → Type 0
  AllWait m i [] = Unit
  AllWait m i (c ∷ cs) = (find ⦃o = M.text_key⦄ (id_of M c) m ≡ some i) × AllWait m (suc i) cs

  abbrev AllStand : List (Clip M) → ℕ → List (Clip M) → Type 0
  AllStand list i [] = Unit
  AllStand list i (c ∷ cs) = (get_elem? list i ≡ some c) × AllStand list (suc i) cs

  stand-later :
      (x : Clip M) (list : List (Clip M)) (i : ℕ) (cs : List (Clip M))
      → AllStand list i cs
      → AllStand (x ∷ list) (suc i) cs
  stand-later x list i [] h = tt
  stand-later x list i (c ∷ cs) h = (h.0, stand-later x list (suc i) cs h.1)

  stand_self : (cs : List (Clip M)) → AllStand cs 0 cs
  stand_self [] = tt
  stand_self (c ∷ cs) = (refl, stand-later c cs 0 cs (stand_self cs))

  pub ne_cmp : (k j : M.Utf8Bytes) → k ≢ j → M.text_key.cmp k j ≢ Ordering.eq
  ne_cmp k j ne e = ne (M.text_key.cmp_eq k j e)

  pub collect-find :
      (m : Waiting) (i : ℕ) (cs : List (Clip M)) (k : M.Utf8Bytes)
      → NotIn k (map (id_of M) cs)
      → find ⦃o = M.text_key⦄ k (collect M m i cs) ≡ find ⦃o = M.text_key⦄ k m
  unfolding collect
  collect-find m i [] k h = refl
  collect-find m i (c ∷ cs) k h =
      collect-find (insert ⦃o = M.text_key⦄ (id_of M c) i m) (suc i) cs k h.1
      ∙ find-insert_ne ⦃o = M.text_key⦄ (id_of M c) k i m (ne_cmp k (id_of M c) h.0)

  collect-AllWait :
      (m : Waiting) (i : ℕ) (cs : List (Clip M))
      → Distinct (map (id_of M) cs)
      → AllWait (collect M m i cs) i cs
  unfolding collect
  collect-AllWait m i [] d = tt
  collect-AllWait m i (c ∷ cs) d = (
    collect-find (insert ⦃o = M.text_key⦄ (id_of M c) i m) (suc i) cs (id_of M c) d.0
        ∙ find-insert_self ⦃o = M.text_key⦄ (id_of M c) i m,
    collect-AllWait (insert ⦃o = M.text_key⦄ (id_of M c) i m) (suc i) cs d.1,
  )

  remove-AllWait :
      (k : M.Utf8Bytes) (m : Waiting) (i : ℕ) (cs : List (Clip M))
      → NotIn k (map (id_of M) cs)
      → AllWait m i cs
      → AllWait (remove ⦃o = M.text_key⦄ k m) i cs
  remove-AllWait k m i [] h w = tt
  remove-AllWait k m i (c ∷ cs) h w = (
    find-remove_ne ⦃o = M.text_key⦄ k (id_of M c) m (ne_cmp (id_of M c) k (λ e. h.0 (sym e))) ∙ w.0,
    remove-AllWait k m (suc i) cs h.1 w.1,
  )

  match_clips-found :
      (track : ℕ) (list : List (Clip M)) (i : ℕ) (c now : Clip M) (cs : List (Clip M)) (m : Waiting)
      (marked : List Bool) (partner : ℕ)
      → find ⦃o = M.text_key⦄ (id_of M c) m ≡ some partner
      → get_elem? list partner ≡ some now
      → match_clips M track list i (c ∷ cs) m marked ≡ (
          let rest =
            match_clips M track list
              (suc i)
              cs
              (remove ⦃o = M.text_key⦄ (id_of M c) m)
              (set marked partner true) in
          (compare_clips M track i partner c now ++ rest.0, rest.1))
  unfolding match_clips
  match_clips-found track list i c now cs m marked partner e f = ground arith

  -- Every clip meets itself.
  match_clips_self :
      (laws : Laws M) (track : ℕ) (list : List (Clip M)) (i : ℕ) (cs : List (Clip M)) (m : Waiting)
      → Distinct (map (id_of M) cs)
      → AllWait m i cs
      → AllStand list i cs
      → match_clips M track list i cs m (marks i (length cs)) ≡ ([], marks (i + length cs) 0)
  unfolding match_clips
  match_clips_self laws track list i [] m d w s = marked_all i (i + 0) (omega arith)
  match_clips_self laws track list i (c ∷ cs) m d w s =
      let m' = remove ⦃o = M.text_key⦄ (id_of M c) m in
      let rest_is =
        ap (match_clips M track list (suc i) cs m') (set-marks i (length cs))
        ∙ match_clips_self laws track list (suc i) cs m' d.1
            (remove-AllWait (id_of M c) m (suc i) cs d.0 w.1) s.1 in
      match_clips-found track list i c c cs m (marks i (suc (length cs))) i w.0 s.0
      ∙ ap (λ r. (compare_clips M track i i c c ++ r.0, r.1)) rest_is
      ∙ ap (λ l. (l ++ [], marks (suc i + length cs) 0)) (compare_clips-same laws track i i c)
      ∙ marked_all (suc i + length cs) (i + suc (length cs)) (omega arith)

  diff_track_self :
      (laws : Laws M) (track : ℕ) (cs : List (Clip M))
      → Distinct (map (id_of M) cs)
      → diff_track M track cs cs ≡ []
  unfolding diff_track
  diff_track_self laws track cs d =
      let all =
        match_clips_self laws track cs 0 cs (collect M [] 0 cs) d (collect-AllWait [] 0 cs d)
          (stand_self cs) in
      ap (λ r. r.0 ++ added_from M track 0 r.1) all ∙ added_from-none track 0 (0 + length cs)

  diff_tracks_self :
      (laws : Laws M) (track : ℕ) (seen : List M.Utf8Bytes) (ts : List (Track M))
      → AllNew Any seen (all_ids M ts)
      → diff_tracks M track ts ts ≡ []
  unfolding diff_tracks
  diff_tracks_self laws track seen [] a = refl
  diff_tracks_self laws track seen (t ∷ ts) a =
      let (these, others) = AllNew-split Any seen (map (id_of M) t.clips) (all_ids M ts) a in
      rw
        (
          diff_track_self laws track t.clips (AllNew-Distinct seen (map (id_of M) t.clips) these),
          diff_tracks_self laws (suc track) (seen_after seen (map (id_of M) t.clips)) ts others,
        )
        refl

  self_diff :
      (t : Timeline M) (d : Delta)
      → diff M t t ≡ ok d
      → (first_clash M t ≡ none)
        × (d.changes ≡ sort_by (change_cmp M t t) (diff_tracks M 0 t.tracks t.tracks))
  unfolding diff
  self_diff t d h = (ground arith, ground arith)

  -- Under the laws of instants and lengths, whenever `diff` answers for a timeline and itself, it reports no change.
  pub diff_self : (laws : Laws M) (t : Timeline M) (d : Delta) → diff M t t ≡ ok d → d.changes ≡ []
  diff_self laws t d h =
      let (unique, is_) = self_diff t d h in
      is_
      ∙ ap (sort_by (change_cmp M t t))
          (diff_tracks_self laws 0 [] t.tracks ((first_clash-none_iff M t).0 unique))
