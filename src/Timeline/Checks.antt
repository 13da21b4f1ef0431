-- ===== src/Timeline/Checks.antt =====
-- The checks on one clip and on one transition (mediaio-timeline/src/validate/mod.rs). Each
-- answers the refusals it pushes, in the order in which it pushes them.
use mediadecode.Base.{
  pos, ℕ, suc, ◌-◌, Bool, true, false, not, ◌&&◌, Option, none, some, List, [], ◌∷◌, ◌++◌, ◌==◌,
  if◌then◌else◌,
}
use mathlib.Core.Option.{map as map_option}
use mediadecode.Timeline.Time.{MediaTime, is_lt, is_eq, is_gt, span}
use mediadecode.Timeline.Data.{Clip, Fade, Transition}
use mediadecode.Timeline.Refusal.{
  ClipAt, EdgeAt, edge_in, edge_out, range_record, range_source, range_available, at_record,
  at_fade, Refusal, off_edit_rate, media_rate_unstated, range_too_long, record_before_zero,
  empty_record, out_of_order, overlap, source_off_edit_rate, duration_mismatch, outside_available,
  fade_meets_transition, blends_overrun_clip,
}

abbrev pub refuse_if : {M : MediaTime} → Bool → Refusal M → List (Refusal M)
refuse_if true r = r ∷ []
refuse_if false r = []

abbrev pub is_some : {A : Type 0} → Option A → Bool
is_some o = elim o [ none ↦ false | some _ ↦ true ]

-- `Option::is_none_or`.
abbrev pub is_none_or : {A : Type 0} → (A → Bool) → Option A → Bool
is_none_or p o = elim o [ none ↦ true | some a ↦ p a ]

-- The index of the first element that passes the test.
abbrev pub position : {A : Type 0} → (A → Bool) → List A → Option ℕ
position p [] = none
position p (x ∷ xs) =
    if p x then some 0 else elim (position p xs) [ none ↦ none | some i ↦ some (suc i) ]

module _ (M : MediaTime) where
  abbrev pub before : M.Timestamp → M.Timestamp → Bool
  before a b = is_lt (M.timestamp_cmp a b)

  abbrev pub at_once : M.Timestamp → M.Timestamp → Bool
  at_once a b = is_eq (M.timestamp_cmp a b)

  abbrev pub media_stated : Clip M → Bool
  media_stated clip =
      is_none_or (λ rate. not (M.rate_num rate == 0)) clip.media.rate
      && not (M.timebase_num (M.range_timebase clip.source_range) == 0)
      && is_none_or (λ r. not (M.timebase_num (M.range_timebase r) == 0)) clip.media.available_range

  abbrev pub on_rate : Option M.Timebase → Clip M → Bool
  on_rate edit clip = is_none_or (λ e. M.timebase_eq (M.range_timebase clip.placed) e) edit

  -- The checks of a clip's record, rulers and lengths.
  abbrev pub judge_ranges : Option M.Timebase → ClipAt → Clip M → List (Refusal M)
  judge_ranges edit at clip =
      refuse_if (not (on_rate edit clip)) (off_edit_rate (at_record at))
      ++ refuse_if (not (media_stated clip)) (media_rate_unstated at)
      ++ refuse_if (not (is_some (span M clip.placed)))
          (range_too_long (record { clip = at; range = range_record }))
      ++ refuse_if (not (is_some (span M clip.source_range)))
          (range_too_long (record { clip = at; range = range_source }))
      ++ refuse_if (not (is_none_or (λ r. is_some (span M r)) clip.media.available_range))
          (range_too_long (record { clip = at; range = range_available }))
      ++ refuse_if
          (before (M.start clip.placed) (M.timestamp (pos 0) (M.range_timebase clip.placed)))
          (record_before_zero at)
      ++ refuse_if (at_once (M.start clip.placed) (M.end clip.placed)) (empty_record at)

  -- The order and the overlap of a clip with those before it: the previous clip, and the index and
  -- end of the record that reaches furthest.
  abbrev pub judge_order :
      ℕ → ℕ → Clip M → Option (Clip M) → Option (ℕ × M.Timestamp) → List (Refusal M)
  judge_order track index clip none furthest = []
  judge_order track index clip (some earlier) furthest =
      if before (M.start clip.placed) (M.start earlier.placed)
      then out_of_order (record { track = track; earlier = index - 1; later = index }) ∷ []
      else elim furthest [
        | none ↦ []
        | some (reach, end) ↦
            refuse_if
              (before (M.start clip.placed) end && before (M.start clip.placed) (M.end clip.placed))
              (overlap (record { track = track; earlier = reach; later = index }))
      ]

  abbrev pub reach_on : ℕ → Clip M → Option (ℕ × M.Timestamp) → Option (ℕ × M.Timestamp)
  reach_on index clip furthest =
      if is_none_or (λ f. is_gt (M.timestamp_cmp (M.end clip.placed) f.1)) furthest
      then some (index, M.end clip.placed)
      else furthest

  -- The source's length against the record's, once both can be measured.
  abbrev pub judge_length :
      M.Timebase → Bool → ClipAt → M.Duration → Option M.Duration → List (Refusal M)
  judge_length edit on_rate at source_span found =
      let expected = M.checked_rescale_exact source_span edit in
      if not (is_some expected) && is_some (M.checked_rescale_to source_span edit)
      then source_off_edit_rate at ∷ []
      else if on_rate
      then elim found [
        | none ↦ []
        | some f ↦
            refuse_if (is_none_or (λ e. not (M.ticks e == M.ticks f)) expected)
              (duration_mismatch (record { clip = at; expected = expected; found = f }))
      ]
      else []

  abbrev pub judge_fade : M.Timebase → EdgeAt → Option (Fade M) → List (Refusal M)
  judge_fade edit at fade = elim fade [
    | none ↦ []
    | some f ↦
        refuse_if (not (M.timebase_eq (M.duration_timebase f.duration) edit))
          (off_edit_rate (at_fade at))
  ]

  -- The checks of a clip's media and fades.
  abbrev pub judge_media : Option M.Timebase → ClipAt → Clip M → List (Refusal M)
  judge_media edit at clip =
      elim edit [
        | none ↦ []
        | some e ↦
            if media_stated clip
            then elim (span M clip.source_range) [
              | none ↦ []
              | some source_span ↦
                  judge_length e (on_rate (some e) clip) at source_span (span M clip.placed)
            ]
            else []
      ]
      ++ elim clip.media.available_range [
        | none ↦ []
        | some available ↦
            refuse_if (media_stated clip && not (M.contains available clip.source_range))
              (outside_available at)
      ]
      ++ elim edit [
        | none ↦ []
        | some e ↦
            judge_fade e (record { clip = at; edge = edge_in }) clip.fades.fade_in
            ++ judge_fade e (record { clip = at; edge = edge_out }) clip.fades.fade_out
      ]

  abbrev pub outgoing_at : List (Clip M) → M.Timestamp → Option ℕ
  outgoing_at clips at =
      position (λ c. at_once (M.end c.placed) at && before (M.start c.placed) (M.end c.placed))
        clips

  abbrev pub incoming_at : List (Clip M) → M.Timestamp → Option ℕ
  incoming_at clips at =
      position (λ c. at_once (M.start c.placed) at && before (M.start c.placed) (M.end c.placed))
        clips

  -- The first transition whose cut is at `at`.
  abbrev pub transition_at : List (Transition M) → M.Timestamp → Option (Transition M)
  transition_at [] at = none
  transition_at (t ∷ ts) at = if at_once t.at at then some t else transition_at ts at

  abbrev pub tail_handle_held : Clip M → M.Duration → Bool
  tail_handle_held clip out_offset =
      if media_stated clip
      then elim clip.media.available_range [
        | none ↦ true
        | some available ↦
            elim (M.checked_add (M.from_timestamp (M.end clip.source_range))
              (M.from_duration out_offset)) [
                | none ↦ false
                | some needed ↦
                    not (is_gt (M.seconds_cmp needed (M.from_timestamp (M.end available))))
              ]
      ]
      else true

  abbrev pub head_handle_held : Clip M → M.Duration → Bool
  head_handle_held clip in_offset =
      if media_stated clip
      then elim clip.media.available_range [
        | none ↦ true
        | some available ↦
            elim (M.checked_sub (M.from_timestamp (M.start clip.source_range))
              (M.from_duration in_offset)) [
                | none ↦ false
                | some needed ↦
                    not (is_gt (M.seconds_cmp (M.from_timestamp (M.start available)) needed))
              ]
      ]
      else true

  abbrev pub longest : Option M.Duration → Option M.Duration → M.Duration
  longest (some a) (some b) = if is_lt (M.duration_cmp a b) then b else a
  longest (some one) none = one
  longest none (some one) = one
  longest none none = M.duration 0 M.timebase_default

  -- The last checks of a clip: its fades and transitions.
  abbrev pub judge_blends : List (Transition M) → ClipAt → Clip M → List (Refusal M)
  judge_blends transitions at clip =
      let entering = transition_at transitions (M.start clip.placed) in
      let leaving = transition_at transitions (M.end clip.placed) in
      let head =
        longest (map_option (λ f. f.duration) clip.fades.fade_in)
          (map_option (λ t. t.out_offset) entering) in
      let tail =
        longest (map_option (λ f. f.duration) clip.fades.fade_out)
          (map_option (λ t. t.in_offset) leaving) in
      let blends = M.checked_add (M.from_duration head) (M.from_duration tail) in
      refuse_if (is_some clip.fades.fade_in && is_some entering)
        (fade_meets_transition (record { clip = at; edge = edge_in }))
      ++ refuse_if (is_some clip.fades.fade_out && is_some leaving)
          (fade_meets_transition (record { clip = at; edge = edge_out }))
      ++ elim (span M clip.placed) [
        | none ↦ []
        | some room ↦
            refuse_if (is_none_or (λ b. is_gt (M.seconds_cmp b (M.from_duration room))) blends)
              (blends_overrun_clip at)
      ]
