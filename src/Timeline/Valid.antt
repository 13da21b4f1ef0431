-- ===== src/Timeline/Valid.antt =====
-- What an accepted timeline is (mediaio-timeline/src/validate/mod.rs).
use mediadecode.Base.{
  ℕ, suc, ◌≡◌, subst, inl, inr, true, Option, none, some, List, [], ◌∷◌, ◌++◌, map, arith,
  Option-cases,
}
use mediadecode.State.Inner.{ok}
use mediadecode.Timeline.Time.{MediaTime, Laws}
use mediadecode.Timeline.Data.{Track, Timeline, edit_timebase}
use mediadecode.Timeline.Validate.{
  Ids, judge_clips, judge_track, judge_tracks, judge_transitions, judge_all_blends, judge_rate,
  refusals, validate,
}
use mediadecode.Timeline.Placed.{append-empty, AllFine, NoOverlap, judge_clips-placed}
use mediadecode.Timeline.Identity.{
  AllNew, AllNew-append, seen_after, IsStated, id_of, CoversIds, judge_clips-AllNew,
}
use mediadecode.Timeline.Accepted.{
  AllLengths, AllOnCut, judge_clips-AllLengths, judge_transitions-AllOnCut,
}

module _ (M : MediaTime) where
  -- A track in order at an edit rate.
  pub record TrackValid (edit : M.Timebase) (t : Track M) : Type 0 where
    pub fine : AllFine M edit t.clips
    pub lengths : AllLengths M edit t.clips
    pub apart : NoOverlap M t.clips
    pub cuts : AllOnCut M t.clips [] t.transitions

  abbrev pub AllTracks : M.Timebase → List (Track M) → Type 0
  AllTracks edit [] = Unit
  AllTracks edit (t ∷ ts) = TrackValid edit t × AllTracks edit ts

  -- The ids of all clips, track by track.
  abbrev pub all_ids : List (Track M) → List M.Utf8Bytes
  all_ids [] = []
  all_ids (t ∷ ts) = map (id_of M) t.clips ++ all_ids ts

  -- The edit rate is real, each track is in order, and no id is empty or carried twice.
  pub record IsValid (t : Timeline M) : Type 0 where
    pub edit : M.Timebase
    pub stated : edit_timebase M t ≡ some edit
    pub from_start : M.timebase_eq (M.timestamp_timebase t.start) edit ≡ true
    pub tracks : AllTracks edit t.tracks
    pub ids : AllNew (IsStated M) [] (all_ids t.tracks)

  track_passed :
      (edit : Option M.Timebase) (index : ℕ) (t : Track M) (ids : Ids M)
      → (judge_track M index t edit ids).0 ≡ []
      → ((judge_clips M edit index 0 none none ids t.clips).0 ≡ [])
        × (judge_transitions M edit index t.clips 0 [] t.transitions ≡ [])
  unfolding judge_track
  track_passed edit index t ids h =
      let (h1, blends) =
        append-empty
          ((judge_clips M edit index 0 none none ids t.clips).0
            ++ judge_transitions M edit index t.clips 0 [] t.transitions)
          (judge_all_blends M t.transitions index 0 t.clips) h in
      append-empty ((judge_clips M edit index 0 none none ids t.clips).0)
        (judge_transitions M edit index t.clips 0 [] t.transitions) h1

  rate_passed :
      (t : Timeline M)
      → judge_rate M t ≡ []
      → (edit : M.Timebase) × (edit_timebase M t ≡ some edit)
        × (M.timebase_eq (M.timestamp_timebase t.start) edit ≡ true)
  rate_passed t h = elim (Option-cases (edit_timebase M t)) [
    | inl absent ↦ absurd (ground arith)
    | inr (edit, e) ↦ (edit, e, ground arith)
  ]

  module _ (laws : Laws M) where
    track-TrackValid :
        (edit : M.Timebase) (index : ℕ) (t : Track M) (ids : Ids M) (seen : List M.Utf8Bytes)
        → CoversIds M ids seen
        → (judge_track M index t (some edit) ids).0 ≡ []
        → TrackValid edit t
          × AllNew (IsStated M) seen (map (id_of M) t.clips)
          × CoversIds M
              (judge_track M index t (some edit) ids).1
              (seen_after seen (map (id_of M) t.clips))
    unfolding judge_track
    track-TrackValid edit index t ids seen c h =
        let (of_clips, of_cuts) = track_passed (some edit) index t ids h in
        let (fine, apart) = judge_clips-placed M laws edit index ids t.clips of_clips in
        let (new, c') =
          judge_clips-AllNew M (some edit) index 0 none none ids seen t.clips c of_clips in
        (
          record {
            fine = fine;
            lengths = judge_clips-AllLengths M edit index 0 none none ids t.clips of_clips;
            apart = apart;
            cuts =
                judge_transitions-AllOnCut M (some edit) index t.clips 0 [] t.transitions of_cuts;
          },
          new,
          c',
        )

    tracks-valid :
        (edit : M.Timebase) (index : ℕ) (ts : List (Track M)) (ids : Ids M)
        (seen : List M.Utf8Bytes)
        → CoversIds M ids seen
        → judge_tracks M index ts (some edit) ids ≡ []
        → AllTracks edit ts × AllNew (IsStated M) seen (all_ids ts)
    unfolding judge_tracks
    tracks-valid edit index [] ids seen c h = (tt, tt)
    tracks-valid edit index (t ∷ ts) ids seen c h =
        let ids' = (judge_track M index t (some edit) ids).1 in
        let (this, others) =
          append-empty ((judge_track M index t (some edit) ids).0)
            (judge_tracks M (suc index) ts (some edit) ids') h in
        let (valid, new, c') = track-TrackValid edit index t ids seen c this in
        let (all, rest) =
          tracks-valid edit (suc index) ts ids' (seen_after seen (map (id_of M) t.clips)) c'
            others in
        (
          (valid, all),
          AllNew-append (IsStated M) seen (map (id_of M) t.clips) (all_ids ts) new rest,
        )

    refusals_none : (t : Timeline M) → validate M t ≡ ok tt → refusals M t ≡ []
    unfolding validate
    refusals_none t h = ground arith

    -- Under the laws of instants, a timeline that `validate` accepts states a real edit rate; its start and every record are counted at
    -- that rate; every record starts at or after zero, covers some time, runs exactly as long as its source
    -- range and ends no later than any later record of its track starts; every transition is alone on a cut that two
    -- of its track's records share; and no clip's id is empty or carried by another clip.
    pub validate-IsValid : (t : Timeline M) → validate M t ≡ ok tt → IsValid t
    unfolding refusals
    validate-IsValid t h =
        let none_left = refusals_none t h in
        let (of_rate, of_tracks) =
          append-empty (judge_rate M t) (judge_tracks M 0 t.tracks (edit_timebase M t) [])
            none_left in
        let (edit, stated, from_start) = rate_passed t of_rate in
        let (all, new) =
          tracks-valid edit 0 t.tracks [] [] (λ k _. tt)
            (subst (λ e. judge_tracks M 0 t.tracks e [] ≡ []) stated of_tracks) in
        record { edit = edit; stated = stated; from_start = from_start; tracks = all; ids = new }
