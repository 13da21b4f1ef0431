-- ===== src/Timeline/Diff.antt =====
-- What changed between two timelines, clip by clip (mediaio-timeline/src/diff/mod.rs). The maps keyed
-- by ids are the lists of their entries, and the stable sort is an insertion sort.
use mediadecode.Base.{
  ℕ, suc, ◌%◌, ◌^◌, compare, Ordering, Bool, true, false, not, ◌&&◌, ◌||◌, Option, none, some, List,
  [], ◌∷◌, ◌++◌, ◌==◌, length, get_elem?, set, replicate,
}
use mediadecode.State.SortedVec.{find, insert, remove}
use mediadecode.State.Inner.{Result, ok, err}
use mediadecode.Timeline.Time.{MediaTime, is_eq}
use mediadecode.Timeline.Data.{
  Clip, Track, Timeline, Fade, Fades, FadeShape, linear, equal_power, Gain,
}
use mediadecode.Timeline.Refusal.{ClipAt, IdClash}
use mediadecode.Timeline.Checks.{at_once}
use mediadecode.Timeline.Validate.{Ids}

pub data Side : Type 0 where
  side_before : Side
  side_after : Side

pub record Ambiguous : Type 0 where
  pub side : Side
  pub clips : IdClash

pub data ChangeKind : Type 0 where
  added : ChangeKind
  removed : ChangeKind
  moved : ChangeKind
  retimed : ChangeKind
  regained : ChangeKind
  enabled_flipped : ChangeKind
  renamed : ChangeKind
  relinked : ChangeKind

pub record Change : Type 0 where
  pub track : ℕ
  pub kind : ChangeKind
  pub before : Option ℕ
  pub after : Option ℕ

pub record Delta : Type 0 where
  pub changes : List Change

abbrev pub rank : ChangeKind → ℕ
rank added = 0
rank removed = 1
rank moved = 2
rank retimed = 3
rank regained = 4
rank enabled_flipped = 5
rank renamed = 6
rank relinked = 7

abbrev pub same_bool : Bool → Bool → Bool
same_bool true b = b
same_bool false b = not b

abbrev pub same_shape : FadeShape → FadeShape → Bool
same_shape linear linear = true
same_shape linear equal_power = false
same_shape equal_power linear = false
same_shape equal_power equal_power = true

-- `==` of two finite floats: the two zeros are equal.
abbrev pub same_gain : Option Gain → Option Gain → Bool
same_gain none none = true
same_gain none (some b) = false
same_gain (some a) none = false
same_gain (some a) (some b) = a.bits == b.bits || (a.bits % 2 ^ 31 == 0 && b.bits % 2 ^ 31 == 0)

abbrev pub then_cmp : Ordering → Ordering → Ordering
then_cmp a b = elim a [ Ordering.lt ↦ Ordering.lt | Ordering.gt ↦ Ordering.gt | Ordering.eq ↦ b ]

-- The order of an option: none first.
abbrev pub option_cmp : {A : Type 0} → (A → A → Ordering) → Option A → Option A → Ordering
option_cmp cmp none none = Ordering.eq
option_cmp cmp none (some b) = Ordering.lt
option_cmp cmp (some a) none = Ordering.gt
option_cmp cmp (some a) (some b) = cmp a b

-- A stable sort by a comparison.
abbrev pub insert_sorted : {A : Type 0} → (A → A → Ordering) → A → List A → List A
insert_sorted cmp x [] = x ∷ []
insert_sorted cmp x (y ∷ ys) =
    let rest = insert_sorted cmp x ys in elim (cmp x y) [ Ordering.gt ↦ y ∷ rest | _ ↦ x ∷ y ∷ ys ]

abbrev pub sort_by : {A : Type 0} → (A → A → Ordering) → List A → List A
sort_by cmp [] = []
sort_by cmp (x ∷ xs) = insert_sorted cmp x (sort_by cmp xs)

abbrev pub change_if : Bool → Change → List Change
change_if true c = c ∷ []
change_if false c = []

module _ (M : MediaTime) where
  abbrev pub same_text : M.Utf8Bytes → M.Utf8Bytes → Bool
  same_text a b = is_eq (M.text_key.cmp a b)

  abbrev pub same_span : M.TimeRange → M.TimeRange → Bool
  same_span a b = at_once M (M.start a) (M.start b) && at_once M (M.end a) (M.end b)

  abbrev pub same_fade : Option (Fade M) → Option (Fade M) → Bool
  same_fade none none = true
  same_fade none (some b) = false
  same_fade (some a) none = false
  same_fade (some a) (some b) =
      same_shape a.shape b.shape && is_eq (M.duration_cmp a.duration b.duration)

  abbrev pub same_fades : Fades M → Fades M → Bool
  same_fades a b = same_fade a.fade_in b.fade_in && same_fade a.fade_out b.fade_out

  -- The first clip of a list whose id a clip before it carries, or the map after it.
  unfoldable pub clash_in : Ids M → ℕ → ℕ → List (Clip M) → Result IdClash (Ids M)
  clash_in ids track index [] = ok ids
  clash_in ids track index (clip ∷ clips) =
      let at : ClipAt = record { track = track; clip = index } in
      let rest = clash_in (insert ⦃o = M.text_key⦄ clip.id.as_str at ids) track (suc index) clips in
      elim (find ⦃o = M.text_key⦄ clip.id.as_str ids) [
        | none ↦ rest
        | some first ↦ err (record { first = first; later = at })
      ]

  unfoldable pub clash_among : Ids M → ℕ → List (Track M) → Option IdClash
  clash_among ids index [] = none
  clash_among ids index (track ∷ tracks) = elim (clash_in ids index 0 track.clips) [
    | err clash ↦ some clash
    | ok ids' ↦ clash_among ids' (suc index) tracks
  ]

  abbrev pub first_clash : Timeline M → Option IdClash
  first_clash t = clash_among [] 0 t.tracks

  -- Each id's clip, waiting to be matched.
  unfoldable pub collect : List (M.Utf8Bytes × ℕ) → ℕ → List (Clip M) → List (M.Utf8Bytes × ℕ)
  collect m index [] = m
  collect m index (clip ∷ clips) =
      collect (insert ⦃o = M.text_key⦄ clip.id.as_str index m) (suc index) clips

  -- The ways in which a clip changed that is on both sides.
  abbrev pub compare_clips : ℕ → ℕ → ℕ → Clip M → Clip M → List Change
  compare_clips track index partner was now =
      let pair : ChangeKind → Change =
        λ kind. record { track = track; kind = kind; before = some index; after = some partner } in
      change_if (not (same_span was.placed now.placed)) (pair moved)
      ++ change_if (not (same_span was.source_range now.source_range)) (pair retimed)
      ++ change_if (not (same_gain was.gain now.gain) || not (same_fades was.fades now.fades))
          (pair regained)
      ++ change_if (not (same_bool was.enabled now.enabled)) (pair enabled_flipped)
      ++ change_if (not (same_text was.name now.name)) (pair renamed)
      ++ change_if (not (same_text was.media.locator now.media.locator)) (pair relinked)

  -- The loop over the clips before, with the map of those still waiting and the marks of those matched.
  unfoldable pub match_clips :
      ℕ
      → List (Clip M)
      → ℕ
      → List (Clip M)
      → List (M.Utf8Bytes × ℕ)
      → List Bool
      → List Change × List Bool
  match_clips track clips_after index [] waiting matched = ([], matched)
  match_clips track clips_after index (clip ∷ clips) waiting matched =
      elim (find ⦃o = M.text_key⦄ clip.id.as_str waiting) [
        | none ↦
            let (rest, matched') =
              match_clips track clips_after (suc index) clips waiting matched in
            (
              record { track = track; kind = removed; before = some index; after = none } ∷ rest,
              matched',
            )
        | some partner ↦
            let (rest, matched') =
              match_clips track clips_after (suc index) clips
                (remove ⦃o = M.text_key⦄ clip.id.as_str waiting) (set matched partner true) in
            (
              elim (get_elem? clips_after partner) [
                | none ↦ []
                | some now ↦ compare_clips track index partner clip now
              ]
                  ++ rest,
              matched',
            )
      ]

  unfoldable pub added_from : ℕ → ℕ → List Bool → List Change
  added_from track index [] = []
  added_from track index (matched ∷ rest) =
      change_if (not matched)
        (record { track = track; kind = added; before = none; after = some index })
      ++ added_from track (suc index) rest

  unfoldable pub diff_track : ℕ → List (Clip M) → List (Clip M) → List Change
  diff_track track clips_before clips_after =
      let (changes, matched) =
        match_clips track clips_after 0 clips_before (collect [] 0 clips_after)
          (replicate (length clips_after) false) in
      changes ++ added_from track 0 matched

  -- The loop over the tracks of both sides.
  unfoldable pub diff_tracks : ℕ → List (Track M) → List (Track M) → List Change
  diff_tracks track [] [] = []
  diff_tracks track [] (b ∷ bs) = diff_track track [] b.clips ++ diff_tracks (suc track) [] bs
  diff_tracks track (a ∷ xs) [] = diff_track track a.clips [] ++ diff_tracks (suc track) xs []
  diff_tracks track (a ∷ xs) (b ∷ bs) =
      diff_track track a.clips b.clips ++ diff_tracks (suc track) xs bs

  abbrev pub clip_start : Timeline M → ℕ → ℕ → Option M.Timestamp
  clip_start t track index = elim (get_elem? t.tracks track) [
    | none ↦ none
    | some on ↦ elim (get_elem? on.clips index) [ none ↦ none | some c ↦ some (M.start c.placed) ]
  ]

  abbrev pub starts_at : Timeline M → Timeline M → Change → Option M.Timestamp
  starts_at was now c = elim c.after [
    | some index ↦ clip_start now c.track index
    | none ↦ elim c.before [ none ↦ none | some index ↦ clip_start was c.track index ]
  ]

  abbrev pub change_cmp : Timeline M → Timeline M → Change → Change → Ordering
  change_cmp was now a b = then_cmp (compare a.track b.track) (
      then_cmp (option_cmp M.timestamp_cmp (starts_at was now a) (starts_at was now b)) (
        then_cmp (compare (rank a.kind) (rank b.kind))
          (then_cmp (option_cmp compare a.before b.before) (option_cmp compare a.after b.after))))

  unfoldable pub diff : Timeline M → Timeline M → Result Ambiguous Delta
  diff was now = elim (first_clash was) [
    | some clash ↦ err (record { side = side_before; clips = clash })
    | none ↦ elim (first_clash now) [
      | some clash ↦ err (record { side = side_after; clips = clash })
      | none ↦
          ok (record {
            changes = sort_by (change_cmp was now) (diff_tracks 0 was.tracks now.tracks);
          })
    ]
  ]
