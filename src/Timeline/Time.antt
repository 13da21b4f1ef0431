-- ===== src/Timeline/Time.antt =====
-- What the timeline takes from other crates: the instants, lengths, ranges and rates of
-- `mediatime`, which compares them exactly across timebases, and the strings of `smol_bytes`. The
-- operations are those that mediaio-timeline/src/time/mod.rs lists; `span` is its own.
use mediadecode.Base.{
  ℤ, ◌≤ℤ◌, compare_ℤ, ℕ, ◌^◌, Ordering, ◌≡◌, Bool, true, false, Option, none, some, ltb,
  if◌then◌else◌,
}
use mediadecode.State.SortedVec.{Key}

pub record MediaTime : Type 1 where
  pub Timebase : Type 0
  pub Timestamp : Type 0
  pub Duration : Type 0
  pub TimeRange : Type 0
  pub Rate : Type 0
  pub ExactSeconds : Type 0
  pub Utf8Bytes : Type 0
  -- `Timebase`: `==`, `num`, `default`.
  pub timebase_eq : Timebase → Timebase → Bool
  pub timebase_num : Timebase → ℕ
  pub timebase_default : Timebase
  -- `Timestamp`: `new`, `timebase`, `cmp`.
  pub timestamp : ℤ → Timebase → Timestamp
  pub timestamp_timebase : Timestamp → Timebase
  pub timestamp_cmp : Timestamp → Timestamp → Ordering
  -- `Duration`: `new`, `ticks`, `timebase`, `cmp_semantic`, and the two recounts.
  pub duration : ℕ → Timebase → Duration
  pub ticks : Duration → ℕ
  pub duration_timebase : Duration → Timebase
  pub duration_cmp : Duration → Duration → Ordering
  pub checked_rescale_exact : Duration → Timebase → Option Duration
  pub checked_rescale_to : Duration → Timebase → Option Duration
  -- `TimeRange`: `new`, `timebase`, `start`, `end`, `start_pts`, `end_pts`, `contains`, `span`.
  pub time_range : ℤ → ℤ → Timebase → TimeRange
  pub range_timebase : TimeRange → Timebase
  pub start : TimeRange → Timestamp
  pub end : TimeRange → Timestamp
  pub start_pts : TimeRange → ℤ
  pub end_pts : TimeRange → ℤ
  pub contains : TimeRange → TimeRange → Bool
  pub range_span : TimeRange → Duration
  -- `Rate`: `num`, `checked_to_timebase`.
  pub rate_num : Rate → ℕ
  pub checked_to_timebase : Rate → Option Timebase
  -- `ExactSeconds`.
  pub from_timestamp : Timestamp → ExactSeconds
  pub from_duration : Duration → ExactSeconds
  pub checked_add : ExactSeconds → ExactSeconds → Option ExactSeconds
  pub checked_sub : ExactSeconds → ExactSeconds → Option ExactSeconds
  pub seconds_cmp : ExactSeconds → ExactSeconds → Ordering
  -- A string's order, and whether it is empty.
  pub text_key : Key Utf8Bytes
  pub is_empty : Utf8Bytes → Bool

abbrev pub is_lt : Ordering → Bool
is_lt c = elim c [ Ordering.lt ↦ true | _ ↦ false ]

abbrev pub is_eq : Ordering → Bool
is_eq c = elim c [ Ordering.eq ↦ true | _ ↦ false ]

abbrev pub is_gt : Ordering → Bool
is_gt c = elim c [ Ordering.gt ↦ true | _ ↦ false ]

module _ (M : MediaTime) where
  -- An instant is not after another.
  abbrev pub NotAfter : M.Timestamp → M.Timestamp → Type 0
  NotAfter a b = is_gt (M.timestamp_cmp a b) ≡ false

  -- What `mediatime` promises: instants and lengths are ordered, a range does not end before it starts, its two
  -- instants are its counts in its timebase, and counts in timebases equal to a real ruler compare as
  -- integers.
  pub record Laws : Type 0 where
    pub not_after_refl : (a : M.Timestamp) → NotAfter a a
    pub not_after_trans : (a b c : M.Timestamp) → NotAfter a b → NotAfter b c → NotAfter a c
    pub not_lt : (a b : M.Timestamp) → is_lt (M.timestamp_cmp a b) ≡ false → NotAfter b a
    pub lt_gt :
        (a b : M.Timestamp)
        → is_lt (M.timestamp_cmp a b) ≡ true
        → is_gt (M.timestamp_cmp b a) ≡ true
    pub same_instant : (a : M.Timestamp) → is_eq (M.timestamp_cmp a a) ≡ true
    pub same_length : (d : M.Duration) → is_eq (M.duration_cmp d d) ≡ true
    pub start_end : (r : M.TimeRange) → NotAfter (M.start r) (M.end r)
    pub start_is : (r : M.TimeRange) → M.start r ≡ M.timestamp (M.start_pts r) (M.range_timebase r)
    pub end_is : (r : M.TimeRange) → M.end r ≡ M.timestamp (M.end_pts r) (M.range_timebase r)
    pub same_ruler :
        (rate : M.Rate) (edit a b : M.Timebase) (x y : ℤ)
        → M.checked_to_timebase rate ≡ some edit
        → M.timebase_eq a edit ≡ true
        → M.timebase_eq b edit ≡ true
        → M.timestamp_cmp (M.timestamp x a) (M.timestamp y b) ≡ compare_ℤ x y
    pub range_counts :
        (a b : ℤ) (t : M.Timebase)
        → a ≤ℤ b
        → (M.start_pts (M.time_range a b t) ≡ a) × (M.end_pts (M.time_range a b t) ≡ b)

  -- A range's length, or none past `i64::MAX` ticks.
  unfoldable pub span : M.TimeRange → Option M.Duration
  span range =
      if ltb (M.ticks (M.range_span range)) (2 ^ 63) then some (M.range_span range) else none
