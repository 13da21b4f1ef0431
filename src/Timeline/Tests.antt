-- ===== src/Timeline/Tests.antt =====
-- A concrete ruler and a concrete timeline (mediaio-timeline/src/timeline.rs).
use mediadecode.Base.{
  ℤ, pos, pos_part, ltb_ℤ, compare_ℤ, ◌+ℤ◌, ◌-ℤ◌, ℕ, compare, ◌≡◌, refl, ◌↔◌, true, not, ◌&&◌, none,
  some, [], ◌∷◌, arith, ◌==◌, if◌then◌else◌,
}
use mediadecode.State.SortedVec.{nat_key, find, insert, remove}
use mediadecode.State.Inner.{ok}
use mediadecode.Timeline.Time.{MediaTime, Laws, span}
use mediadecode.Timeline.Data.{v1, number, from_number, Clip, Timeline, video, dissolve}
use mediadecode.Timeline.Validate.{
  validate, refusals, judge_tracks, judge_track, judge_clips, judge_transitions, judge_all_blends,
}
use mediadecode.Timeline.Valid.{IsValid, validate-IsValid}
use mediadecode.Timeline.Valid.{all_ids}
use mediadecode.Timeline.Identity.{AllNew}
use mediadecode.Timeline.Diff.{
  Delta, first_clash, diff, clash_among, clash_in, diff_tracks, diff_track, match_clips, added_from,
  collect,
}
use mediadecode.Timeline.Clash.{Any, first_clash-none_iff, validate-diff}
use mediadecode.Timeline.Diff.{added, removed, sort_by, change_cmp}
use mediadecode.Timeline.Matched.{diff-reference, reference_tracks}
use mediadecode.Timeline.Unchanged.{diff_self}
use mediadecode.Timeline.Layout.{Layout, clip, gap, layout, layout_valid, lay_clips}
use mediadecode.Timeline.Contiguous.{Covers, layout-Covers}

-- A range by its first tick and its length.
record Range : Type 0 where
  first : ℤ
  len : ℕ

-- One ruler, of 25 ticks a second; a rate of zero has none.
abbrev film : MediaTime
film = record {
  Timebase = Unit {0};
  Timestamp = ℤ;
  Duration = ℕ;
  TimeRange = Range;
  Rate = ℕ;
  ExactSeconds = ℤ;
  Utf8Bytes = ℕ;
  timebase_eq = λ a b. true;
  timebase_num = λ t. 1;
  timebase_default = tt;
  timestamp = λ x t. x;
  timestamp_timebase = λ x. tt;
  timestamp_cmp = compare_ℤ;
  duration = λ n t. n;
  ticks = λ d. d;
  duration_timebase = λ d. tt;
  duration_cmp = compare;
  checked_rescale_exact = λ d t. some d;
  checked_rescale_to = λ d t. some d;
  time_range = λ a b t. record { first = a; len = pos_part (b -ℤ a) };
  range_timebase = λ r. tt;
  start = λ r. r.first;
  end = λ r. r.first +ℤ pos r.len;
  start_pts = λ r. r.first;
  end_pts = λ r. r.first +ℤ pos r.len;
  contains = λ a b.
      not (ltb_ℤ b.first a.first) && not (ltb_ℤ (a.first +ℤ pos a.len) (b.first +ℤ pos b.len));
  range_span = λ r. r.len;
  rate_num = λ r. r;
  checked_to_timebase = λ r. if r == 0 then none else some tt;
  from_timestamp = λ x. x;
  from_duration = λ d. pos d;
  checked_add = λ a b. some (a +ℤ b);
  checked_sub = λ a b. some (a -ℤ b);
  seconds_cmp = compare_ℤ;
  text_key = nat_key;
  is_empty = λ s. s == 0;
}

film_laws : Laws film
unfolding ◌+ℤ◌ ◌-ℤ◌
film_laws = record {
  not_after_refl = λ a. ground arith;
  not_after_trans = λ a b c h k. ground arith;
  not_lt = λ a b h. ground arith;
  lt_gt = λ a b h. ground arith;
  same_instant = λ a. ground arith;
  same_length = λ d. ground arith;
  start_end = λ r. ground arith;
  start_is = λ r. refl;
  end_is = λ r. refl;
  same_ruler = λ rate edit a b x y h e f. refl;
  range_counts = λ a b t h. (refl, ground arith);
}

-- A clip of an id, placed where its source range starts.
abbrev placed_at : ℕ → ℕ → ℕ → Clip film
placed_at id first len = record {
  id = record { as_str = id };
  name = id;
  media = record { locator = id; available_range = none; rate = some 25; reel = none };
  source_range = record { first = pos 100; len = len };
  placed = record { first = pos first; len = len };
  enabled = true;
  gain = none;
  fades = record { fade_in = none; fade_out = none };
  metadata = record { entries = [] };
}

-- Two clips that share a cut, where they dissolve, and one before them; then a track of sound.
abbrev sample : Timeline film
sample = record {
  schema = v1;
  name = 1;
  rate = 25;
  start = pos 0;
  metadata = record { entries = [] };
  tracks =
      record {
        kind = video;
        name = 2;
        enabled = true;
        clips = placed_at 3 10 10 ∷ placed_at 4 30 10 ∷ placed_at 5 40 15 ∷ [];
        transitions = record { kind = dissolve; at = pos 40; in_offset = 2; out_offset = 3 } ∷ [];
      }
      ∷ record {
        kind = video;
        name = 6;
        enabled = true;
        clips = placed_at 7 0 55 ∷ [];
        transitions = [];
      }
      ∷ [];
}

sample_valid : validate film sample ≡ ok tt
unfolding validate refusals judge_tracks judge_track judge_clips judge_transitions judge_all_blends
    span ◌+ℤ◌ ◌-ℤ◌ find insert
sample_valid = refl

validate-IsValid_example : IsValid film sample
validate-IsValid_example = validate-IsValid film film_laws sample sample_valid

abbrev sample_layout : Layout film
sample_layout = record {
  tracks =
      record {
        track = record {
          kind = video;
          name = 2;
          enabled = true;
          clips = placed_at 3 10 10 ∷ placed_at 4 30 10 ∷ placed_at 5 40 15 ∷ [];
          transitions = record { kind = dissolve; at = pos 40; in_offset = 2; out_offset = 3 } ∷ [];
        };
        items =
            gap (record { first = pos 0; len = 10 })
            ∷ clip (placed_at 3 10 10)
            ∷ gap (record { first = pos 20; len = 10 })
            ∷ clip (placed_at 4 30 10)
            ∷ clip (placed_at 5 40 15)
            ∷ [];
      }
      ∷ record {
        track = record {
          kind = video;
          name = 6;
          enabled = true;
          clips = placed_at 7 0 55 ∷ [];
          transitions = [];
        };
        items = clip (placed_at 7 0 55) ∷ [];
      }
      ∷ [];
}

sample_laid : layout film sample ≡ ok sample_layout
unfolding layout layout_valid lay_clips validate refusals judge_tracks judge_track judge_clips
    judge_transitions judge_all_blends span ◌+ℤ◌ ◌-ℤ◌ find insert
sample_laid = refl

layout-Covers_example : Covers film sample.tracks sample_layout.tracks
layout-Covers_example = layout-Covers film film_laws sample sample_layout sample_laid

-- The first schema is read back.
first_schema : from_number (number v1) ≡ some v1
unfolding from_number number
first_schema = refl

abbrev unchanged : Delta
unchanged = record { changes = [] }

sample-diff : diff film sample sample ≡ ok unchanged
unfolding diff clash_among clash_in diff_tracks diff_track match_clips added_from collect ◌+ℤ◌ find
    insert remove
sample-diff = refl

diff_self_example : unchanged.changes ≡ []
diff_self_example = diff_self film film_laws sample unchanged sample-diff

validate-diff_example : (d : Delta) × (diff film sample sample ≡ ok d)
validate-diff_example = validate-diff film film_laws sample sample sample_valid sample_valid

first_clash-none_iff_example :
    (first_clash film sample ≡ none) ↔ AllNew Any [] (all_ids film sample.tracks)
first_clash-none_iff_example = first_clash-none_iff film sample

-- The sample with its track of sound replaced.
abbrev edited : Timeline film
edited = record sample {
  tracks =
      record {
        kind = video;
        name = 2;
        enabled = true;
        clips = placed_at 3 10 10 ∷ placed_at 4 30 10 ∷ placed_at 5 40 15 ∷ [];
        transitions = [];
      }
      ∷ record {
        kind = video;
        name = 6;
        enabled = true;
        clips = placed_at 8 0 50 ∷ [];
        transitions = [];
      }
      ∷ [];
}

abbrev edits : Delta
edits = record {
  changes =
      record { track = 1; kind = added; before = none; after = some 0 }
      ∷ record { track = 1; kind = removed; before = some 0; after = none }
      ∷ [];
}

edited-diff : diff film sample edited ≡ ok edits
unfolding diff clash_among clash_in diff_tracks diff_track match_clips added_from collect ◌+ℤ◌ find
    insert remove
edited-diff = refl

diff-reference_example :
    edits.changes
    ≡ sort_by (change_cmp film sample edited) (reference_tracks film 0 sample.tracks edited.tracks)
diff-reference_example = diff-reference film sample edited edits edited-diff
