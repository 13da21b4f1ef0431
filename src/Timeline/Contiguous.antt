-- ===== src/Timeline/Contiguous.antt =====
-- A layout covers each track from zero without a hole (mediaio-timeline/src/layout/mod.rs).
use mediadecode.Base.{
  ℤ, pos, ◌≤ℤ◌, ltb_ℤ, compare_ℤ, eq_of_parts, ◌≡◌, refl, sym, ap, inl, inr, true, some, List, [],
  ◌∷◌, ◌++◌, map, arith, if◌then◌else◌, Bool-cases,
}
use mediadecode.State.Inner.{ok}
use mediadecode.Timeline.Time.{MediaTime, Laws, NotAfter}
use mediadecode.Timeline.Data.{Clip, Track, Timeline}
use mediadecode.Timeline.Validate.{validate}
use mediadecode.Timeline.Placed.{ClipFine, AllFine, AllFrom, NoOverlap}
use mediadecode.Timeline.Valid.{TrackValid, AllTracks, validate-IsValid}
use mediadecode.Timeline.Layout.{
  Item, clip, gap, TrackLayout, Layout, item_record, lay_clips, lay_track, edit_or_default,
  layout_valid, layout,
}

module _ (M : MediaTime) where
  -- Each item starts where the one before it ends, the first at `covered_to`, and covers some time.
  abbrev pub Contiguous : ℤ → List (Item M) → Type 0
  Contiguous covered_to [] = Unit
  Contiguous covered_to (i ∷ is) =
      (M.start_pts (item_record M i) ≡ covered_to)
      × (ltb_ℤ (M.start_pts (item_record M i)) (M.end_pts (item_record M i)) ≡ true)
      × Contiguous (M.end_pts (item_record M i)) is

  -- The clips among the items.
  abbrev pub clips_of : List (Item M) → List (Clip M)
  clips_of [] = []
  clips_of (clip c ∷ is) = c ∷ clips_of is
  clips_of (gap r ∷ is) = clips_of is

  -- Track by track, the items are those of the track: contiguous from zero, its clips all there in
  -- order.
  abbrev pub Covers : List (Track M) → List (TrackLayout M) → Type 0
  Covers [] [] = Unit
  Covers (t ∷ ts) (l ∷ ls) =
      (l.track ≡ t) × Contiguous (pos 0) l.items × (clips_of l.items ≡ t.clips) × Covers ts ls
  Covers _ _ = ⊥

  module _ (laws : Laws M) (rate : M.Rate) (edit : M.Timebase)
      (stated : M.checked_to_timebase rate ≡ some edit) where
    -- Two instants that are counts in timebases equal to the edit rate compare as the counts.
    compares :
        (a b : M.Timestamp) (x y : ℤ) (s t : M.Timebase)
        → a ≡ M.timestamp x s
        → b ≡ M.timestamp y t
        → M.timebase_eq s edit ≡ true
        → M.timebase_eq t edit ≡ true
        → M.timestamp_cmp a b ≡ compare_ℤ x y
    compares a b x y s t p q e f = rw (p, q) (laws.same_ruler rate edit s t x y stated e f)

    covers_time :
        (c : Clip M) → ClipFine M edit c → ltb_ℤ (M.start_pts c.placed) (M.end_pts c.placed) ≡ true
    covers_time c f =
        let same =
          compares (M.start c.placed) (M.end c.placed) (M.start_pts c.placed) (M.end_pts c.placed)
            (M.range_timebase c.placed) (M.range_timebase c.placed) (laws.start_is c.placed)
            (laws.end_is c.placed) f.rated f.rated in
        ground (arith, same, f.covers, laws.start_end c.placed)

    starts_late :
        (c d : Clip M)
        → ClipFine M edit c
        → ClipFine M edit d
        → NotAfter M (M.end c.placed) (M.start d.placed)
        → M.end_pts c.placed ≤ℤ M.start_pts d.placed
    starts_late c d f g h =
        let same =
          compares (M.end c.placed) (M.start d.placed) (M.end_pts c.placed) (M.start_pts d.placed)
            (M.range_timebase c.placed) (M.range_timebase d.placed) (laws.end_is c.placed)
            (laws.start_is d.placed) f.rated g.rated in
        ground (arith, same, h)

    from_zero_on : (c : Clip M) → ClipFine M edit c → pos 0 ≤ℤ M.start_pts c.placed
    from_zero_on c f =
        let same =
          compares (M.start c.placed) (M.timestamp (pos 0) (M.range_timebase c.placed))
            (M.start_pts c.placed) (pos 0) (M.range_timebase c.placed) (M.range_timebase c.placed)
            (laws.start_is c.placed) refl f.rated f.rated in
        ground (arith, same, f.from_zero)

    -- One clip laid before items that start where it ends.
    Laid : ℤ → List (Item M) → List (Clip M) → Type 0
    Laid covered_to items clips = Contiguous covered_to items × (clips_of items ≡ clips)

    abbrev gap_before : ℤ → Clip M → M.TimeRange
    gap_before covered_to c = M.time_range covered_to (M.start_pts c.placed) edit

    abbrev place : ℤ → Clip M → List (Item M) → List (Item M)
    place covered_to c rest =
        (if ltb_ℤ covered_to (M.start_pts c.placed) then gap (gap_before covered_to c) ∷ [] else [])
        ++ clip c ∷ rest

    place-Laid :
        (covered_to : ℤ) (c : Clip M) (rest : List (Item M)) (cs : List (Clip M))
        → covered_to ≤ℤ M.start_pts c.placed
        → ClipFine M edit c
        → Laid (M.end_pts c.placed) rest cs
        → Laid covered_to (place covered_to c rest) (c ∷ cs)
    unfolding Laid
    place-Laid covered_to c rest cs le f (contiguous, same) =
        elim (Bool-cases (ltb_ℤ covered_to (M.start_pts c.placed))) [
          | inl lt ↦
              let (starts, stops) = laws.range_counts covered_to (M.start_pts c.placed) edit le in
              rw lt (
                (
                  starts,
                  ground (arith, starts, stops, lt),
                  (sym stops, covers_time c f, contiguous),
                ),
                ap (λ l. c ∷ l) same,
              )
          | inr not_lt ↦ rw not_lt (
            (
              eq_of_parts (M.start_pts c.placed) covered_to (ground (arith, le, not_lt)),
              covers_time c f,
              contiguous,
            ),
            ap (λ l. c ∷ l) same,
          )
        ]

    lay_clips-Laid :
        (covered_to : ℤ) (c : Clip M) (cs : List (Clip M))
        → covered_to ≤ℤ M.start_pts c.placed
        → ClipFine M edit c
        → AllFine M edit cs
        → AllFrom M (M.end c.placed) cs
        → NoOverlap M cs
        → Laid covered_to (lay_clips M edit covered_to (c ∷ cs)) (c ∷ cs)
    unfolding lay_clips Laid
    lay_clips-Laid covered_to c [] le f all late apart = place-Laid covered_to c [] [] le f nothing
      where
        nothing : Laid (M.end_pts c.placed) [] []
        nothing = (tt, refl)
    lay_clips-Laid covered_to c (d ∷ cs) le f all late apart =
        place-Laid covered_to c (lay_clips M edit (M.end_pts c.placed) (d ∷ cs)) (d ∷ cs) le f (
          lay_clips-Laid (M.end_pts c.placed) d cs (starts_late c d f all.0 late.0) all.0 all.1
            apart.0 apart.1)

    track-Laid :
        (t : Track M)
        → TrackValid M edit t
        → Laid (pos 0) (lay_clips M edit (pos 0) t.clips) t.clips
    unfolding Laid lay_clips
    track-Laid t v = go t.clips v.fine v.apart
      where
        go :
            (cs : List (Clip M))
            → AllFine M edit cs
            → NoOverlap M cs
            → Laid (pos 0) (lay_clips M edit (pos 0) cs) cs
        go [] fine apart = (tt, refl)
        go (c ∷ cs) fine apart =
            lay_clips-Laid (pos 0) c cs (from_zero_on c fine.0) fine.0 fine.1 apart.0 apart.1

    tracks-Covers :
        (ts : List (Track M)) → AllTracks M edit ts → Covers ts (map (lay_track M edit) ts)
    unfolding Laid
    tracks-Covers [] all = tt
    tracks-Covers (t ∷ ts) (v, all) =
        let (contiguous, same) = track-Laid t v in (refl, contiguous, same, tracks-Covers ts all)

  layout_ok :
      (t : Timeline M) (l : Layout M)
      → layout M t ≡ ok l
      → (validate M t ≡ ok tt) × (l ≡ layout_valid M t)
  unfolding layout
  layout_ok t l h = (ground arith, ground arith)

  -- Under the laws of instants, the layout of a timeline has each of its tracks, in order, and covers each from zero without a hole: an
  -- item starts where the one before it ends and covers some time, and the clips among the items are the
  -- track's clips in order, none lost and none added.
  pub layout-Covers :
      (laws : Laws M) (t : Timeline M) (l : Layout M) → layout M t ≡ ok l → Covers t.tracks l.tracks
  unfolding layout_valid
  layout-Covers laws t l h =
      let (accepted, is) = layout_ok t l h in
      let v = validate-IsValid M laws t accepted in
      let rate_is : edit_or_default M t ≡ v.edit = ground (arith, v.stated) in
      rw (is, rate_is) (tracks-Covers laws t.rate v.edit v.stated t.tracks v.tracks)
