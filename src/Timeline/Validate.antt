-- ===== src/Timeline/Validate.antt =====
-- `validate`: every refusal of a timeline, in order (mediaio-timeline/src/validate/mod.rs). The map
-- of the ids seen is the list of its entries.
use mediadecode.Base.{
  ℕ, suc, Bool, true, false, not, ◌||◌, Option, none, some, List, [], ◌∷◌, ◌++◌, if◌then◌else◌,
  get_elem?,
}
use mediadecode.State.SortedVec.{find, insert}
use mediadecode.State.Inner.{Result, ok, err}
use mediadecode.Timeline.Time.{MediaTime}
use mediadecode.Timeline.Data.{Clip, Track, Timeline, Transition, edit_timebase}
use mediadecode.Timeline.Refusal.{
  ClipAt, edge_in, edge_out, at_start, at_transition, TransitionAt, Refusal, rate_unstated,
  off_edit_rate, empty_clip_id, duplicate_clip_id, off_boundary, duplicate_transition,
  handle_missing,
}
use mediadecode.Timeline.Checks.{
  refuse_if, at_once, judge_ranges, judge_order, reach_on, judge_media, judge_blends, outgoing_at,
  incoming_at, tail_handle_held, head_handle_held,
}

-- Whether some element passes the test.
abbrev pub any_of : {A : Type 0} → (A → Bool) → List A → Bool
any_of p [] = false
any_of p (x ∷ xs) = p x || any_of p xs

module _ (M : MediaTime) where
  -- What the loop over a track's clips carries: the first clip of each id, over the whole timeline, and
  -- the record that reaches furthest.
  abbrev pub Ids : Type 0
  Ids = List (M.Utf8Bytes × ClipAt)

  -- The check of a clip's id, and the ids seen after it.
  abbrev pub judge_id : ClipAt → M.Utf8Bytes → Ids → List (Refusal M) × Ids
  judge_id at id ids =
      if M.is_empty id then (empty_clip_id at ∷ [], ids) else elim (find ⦃o = M.text_key⦄ id ids) [
        | none ↦ ([], insert ⦃o = M.text_key⦄ id at ids)
        | some first ↦ (duplicate_clip_id (record { first = first; later = at }) ∷ [], ids)
      ]

  -- The first loop of `judge_track`, from the clip of an index on.
  unfoldable pub judge_clips :
      Option M.Timebase
      → ℕ
      → ℕ
      → Option (Clip M)
      → Option (ℕ × M.Timestamp)
      → Ids
      → List (Clip M)
      → List (Refusal M) × Ids
  judge_clips edit track index previous furthest ids [] = ([], ids)
  judge_clips edit track index previous furthest ids (clip ∷ clips) =
      let at : ClipAt = record { track = track; clip = index } in
      let (of_id, ids') = judge_id at clip.id.as_str ids in
      let (rest, ids'') =
        judge_clips edit track (suc index) (some clip) (reach_on M index clip furthest) ids'
          clips in
      (
        judge_ranges M edit at clip
            ++ judge_order M track index clip previous furthest
            ++ of_id
            ++ judge_media M edit at clip
            ++ rest,
        ids'',
      )

  -- One transition, after the earlier ones of its track.
  abbrev pub judge_transition :
      Option M.Timebase
      → ℕ
      → List (Clip M)
      → ℕ
      → List (Transition M)
      → Transition M
      → List (Refusal M)
  judge_transition edit track clips index earlier t =
      let at : TransitionAt = record { track = track; transition = index } in
      elim edit [
        | none ↦ []
        | some e ↦
            refuse_if
              (not (M.timebase_eq (M.timestamp_timebase t.at) e)
                || not (M.timebase_eq (M.duration_timebase t.in_offset) e)
                || not (M.timebase_eq (M.duration_timebase t.out_offset) e))
              (off_edit_rate (at_transition at))
      ]
      ++ refuse_if (any_of (λ u. at_once M u.at t.at) earlier) (duplicate_transition at)
      ++ elim (outgoing_at M clips t.at) [
        | none ↦ off_boundary at ∷ []
        | some outgoing ↦ elim (incoming_at M clips t.at) [
          | none ↦ off_boundary at ∷ []
          | some incoming ↦
              refuse_if
                (not (elim (get_elem? clips outgoing) [
                  | none ↦ true
                  | some c ↦ tail_handle_held M c t.out_offset
                ]))
                (handle_missing
                  (record { clip = record { track = track; clip = outgoing }; edge = edge_out }))
              ++ refuse_if
                  (not (elim (get_elem? clips incoming) [
                    | none ↦ true
                    | some c ↦ head_handle_held M c t.in_offset
                  ]))
                  (handle_missing
                    (record { clip = record { track = track; clip = incoming }; edge = edge_in }))
        ]
      ]

  unfoldable pub judge_transitions :
      Option M.Timebase
      → ℕ
      → List (Clip M)
      → ℕ
      → List (Transition M)
      → List (Transition M)
      → List (Refusal M)
  judge_transitions edit track clips index earlier [] = []
  judge_transitions edit track clips index earlier (t ∷ ts) =
      judge_transition edit track clips index earlier t
      ++ judge_transitions edit track clips (suc index) (earlier ++ t ∷ []) ts

  unfoldable pub judge_all_blends : List (Transition M) → ℕ → ℕ → List (Clip M) → List (Refusal M)
  judge_all_blends transitions track index [] = []
  judge_all_blends transitions track index (clip ∷ clips) =
      judge_blends M transitions (record { track = track; clip = index }) clip
      ++ judge_all_blends transitions track (suc index) clips

  unfoldable pub judge_track : ℕ → Track M → Option M.Timebase → Ids → List (Refusal M) × Ids
  judge_track index track edit ids =
      let (of_clips, ids') = judge_clips edit index 0 none none ids track.clips in
      (
        of_clips
            ++ judge_transitions edit index track.clips 0 [] track.transitions
            ++ judge_all_blends track.transitions index 0 track.clips,
        ids',
      )

  unfoldable pub judge_tracks : ℕ → List (Track M) → Option M.Timebase → Ids → List (Refusal M)
  judge_tracks index [] edit ids = []
  judge_tracks index (track ∷ tracks) edit ids =
      let (of_track, ids') = judge_track index track edit ids in
      of_track ++ judge_tracks (suc index) tracks edit ids'

  -- The timeline's own refusals.
  abbrev pub judge_rate : Timeline M → List (Refusal M)
  judge_rate t = elim (edit_timebase M t) [
    | none ↦ rate_unstated ∷ []
    | some edit ↦
        refuse_if (not (M.timebase_eq (M.timestamp_timebase t.start) edit)) (off_edit_rate at_start)
  ]

  unfoldable pub refusals : Timeline M → List (Refusal M)
  refusals t = judge_rate t ++ judge_tracks 0 t.tracks (edit_timebase M t) []

  unfoldable pub validate : Timeline M → Result (List (Refusal M)) (Unit {0})
  validate t = elim (refusals t) [ [] ↦ ok tt | r ∷ rs ↦ err (r ∷ rs) ]
