-- ===== src/Timeline/Layout.antt =====
-- A valid timeline laid out: clips, and the gaps between them (mediaio-timeline/src/layout/mod.rs).
use mediadecode.Base.{ℤ, pos, ltb_ℤ, none, some, List, [], ◌∷◌, ◌++◌, map, if◌then◌else◌}
use mediadecode.State.Inner.{Result, ok, err}
use mediadecode.Timeline.Time.{MediaTime}
use mediadecode.Timeline.Data.{Clip, Track, Timeline, edit_timebase}
use mediadecode.Timeline.Refusal.{Refusal}
use mediadecode.Timeline.Validate.{validate}

pub data Item (M : MediaTime) : Type 0 where
  clip : Clip M → Item M
  gap : M.TimeRange → Item M

pub record TrackLayout (M : MediaTime) : Type 0 where
  pub track : Track M
  pub items : List (Item M)

pub record Layout (M : MediaTime) : Type 0 where
  pub tracks : List (TrackLayout M)

module _ (M : MediaTime) where
  -- `Item::record`.
  abbrev pub item_record : Item M → M.TimeRange
  item_record (clip c) = c.placed
  item_record (gap r) = r

  -- The loop over a track's clips: `covered_to` is where the items laid so far end.
  unfoldable pub lay_clips : M.Timebase → ℤ → List (Clip M) → List (Item M)
  lay_clips edit covered_to [] = []
  lay_clips edit covered_to (c ∷ cs) =
      (if ltb_ℤ covered_to (M.start_pts c.placed)
        then gap (M.time_range covered_to (M.start_pts c.placed) edit) ∷ []
        else [])
      ++ clip c ∷ lay_clips edit (M.end_pts c.placed) cs

  abbrev pub lay_track : M.Timebase → Track M → TrackLayout M
  lay_track edit track = record { track = track; items = lay_clips edit (pos 0) track.clips }

  abbrev pub edit_or_default : Timeline M → M.Timebase
  edit_or_default t = elim (edit_timebase M t) [ none ↦ M.timebase_default | some edit ↦ edit ]

  unfoldable pub layout_valid : Timeline M → Layout M
  layout_valid t = record { tracks = map (lay_track (edit_or_default t)) t.tracks }

  unfoldable pub layout : Timeline M → Result (List (Refusal M)) (Layout M)
  unfolding layout_valid
  layout t = elim (validate M t) [ err refusals ↦ err refusals | ok _ ↦ ok (layout_valid t) ]
