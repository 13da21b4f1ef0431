-- ===== src/Timeline/Data.antt =====
-- The document (mediaio-timeline/src/timeline.rs, clip.rs, transition.rs, metadata.rs, schema.rs).
use mediadecode.Base.{
  pos, ℕ, ◌/◌, ◌%◌, ◌^◌, Bool, true, Option, none, some, List, [], ◌∷◌, ◌++◌, ◌==◌, if◌then◌else◌,
}
use mediadecode.Timeline.Time.{MediaTime}

-- `Schema`, its number, and the schema that a number names.
pub data Schema : Type 0 where
  v1 : Schema

unfoldable pub number : Schema → ℕ
number v1 = 1

unfoldable pub from_number : ℕ → Option Schema
from_number n = if n == 1 then some v1 else none

pub record Metadata (M : MediaTime) : Type 0 where
  pub entries : List (M.Utf8Bytes × M.Utf8Bytes)

pub data TrackKind : Type 0 where
  video : TrackKind
  audio : TrackKind

pub data TransitionKind : Type 0 where
  dissolve : TransitionKind

pub data FadeShape : Type 0 where
  linear : FadeShape
  equal_power : FadeShape

-- A finite `f32`, by its bits.
pub record Gain : Type 0 where
  pub bits : ℕ

pub record ClipId (M : MediaTime) : Type 0 where
  pub as_str : M.Utf8Bytes

pub record MediaRef (M : MediaTime) : Type 0 where
  pub locator : M.Utf8Bytes
  pub available_range : Option M.TimeRange
  pub rate : Option M.Rate
  pub reel : Option M.Utf8Bytes

pub record Fade (M : MediaTime) : Type 0 where
  pub duration : M.Duration
  pub shape : FadeShape

pub record Fades (M : MediaTime) : Type 0 where
  pub fade_in : Option (Fade M)
  pub fade_out : Option (Fade M)

pub record Clip (M : MediaTime) : Type 0 where
  pub id : ClipId M
  pub name : M.Utf8Bytes
  pub media : MediaRef M
  pub source_range : M.TimeRange
  pub placed : M.TimeRange
  pub enabled : Bool
  pub gain : Option Gain
  pub fades : Fades M
  pub metadata : Metadata M

pub record Transition (M : MediaTime) : Type 0 where
  pub kind : TransitionKind
  pub at : M.Timestamp
  pub in_offset : M.Duration
  pub out_offset : M.Duration

pub record Track (M : MediaTime) : Type 0 where
  pub kind : TrackKind
  pub name : M.Utf8Bytes
  pub enabled : Bool
  pub clips : List (Clip M)
  pub transitions : List (Transition M)

pub record Timeline (M : MediaTime) : Type 0 where
  pub schema : Schema
  pub name : M.Utf8Bytes
  pub rate : M.Rate
  pub start : M.Timestamp
  pub metadata : Metadata M
  pub tracks : List (Track M)

module _ (M : MediaTime) where
  -- `Timeline::edit_timebase`.
  abbrev pub edit_timebase : Timeline M → Option M.Timebase
  edit_timebase t = M.checked_to_timebase t.rate

  -- `Timeline::new`.
  unfoldable pub new_timeline : M.Utf8Bytes → M.Rate → Timeline M
  new_timeline name rate = record {
    schema = v1;
    name = name;
    rate = rate;
    start =
        M.timestamp (pos 0)
          (elim (M.checked_to_timebase rate) [ none ↦ M.timebase_default | some t ↦ t ]);
    metadata = record { entries = [] };
    tracks = [];
  }

  -- `Track::new`.
  unfoldable pub new_track : TrackKind → M.Utf8Bytes → Track M
  new_track kind name = record {
    kind = kind;
    name = name;
    enabled = true;
    clips = [];
    transitions = [];
  }

  -- `Clip::new`.
  unfoldable pub new_clip : ClipId M → M.Utf8Bytes → MediaRef M → M.TimeRange → M.TimeRange → Clip M
  new_clip id name media source_range placed = record {
    id = id;
    name = name;
    media = media;
    source_range = source_range;
    placed = placed;
    enabled = true;
    gain = none;
    fades = record { fade_in = none; fade_out = none };
    metadata = record { entries = [] };
  }

  -- `Timeline::with_track`, `Track::with_clip` and `Track::with_transition`.
  unfoldable pub with_track : Timeline M → Track M → Timeline M
  with_track t track = record t { tracks = t.tracks ++ track ∷ [] }

  unfoldable pub with_clip : Track M → Clip M → Track M
  with_clip t clip = record t { clips = t.clips ++ clip ∷ [] }

  unfoldable pub with_transition : Track M → Transition M → Track M
  with_transition t transition = record t { transitions = t.transitions ++ transition ∷ [] }

-- `Gain::from_db`: a float whose exponent bits are all ones is an infinity or no number.
unfoldable pub from_db : ℕ → Option Gain
from_db bits = if bits / 2 ^ 23 % 256 == 255 then none else some (record { bits = bits })
