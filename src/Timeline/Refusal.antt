-- ===== src/Timeline/Refusal.antt =====
-- What a timeline is refused for, and where (mediaio-timeline/src/validate/mod.rs).
use mediadecode.Base.{ℕ, Option}
use mediadecode.Timeline.Time.{MediaTime}

pub record ClipAt : Type 0 where
  pub track : ℕ
  pub clip : ℕ

pub record ClipPair : Type 0 where
  pub track : ℕ
  pub earlier : ℕ
  pub later : ℕ

pub record IdClash : Type 0 where
  pub first : ClipAt
  pub later : ClipAt

pub record TransitionAt : Type 0 where
  pub track : ℕ
  pub transition : ℕ

pub data Edge : Type 0 where
  edge_in : Edge
  edge_out : Edge

pub record EdgeAt : Type 0 where
  pub clip : ClipAt
  pub edge : Edge

pub data ClipRange : Type 0 where
  range_record : ClipRange
  range_source : ClipRange
  range_available : ClipRange

pub record RangeAt : Type 0 where
  pub clip : ClipAt
  pub range : ClipRange

pub data Place : Type 0 where
  at_start : Place
  at_record : ClipAt → Place
  at_fade : EdgeAt → Place
  at_transition : TransitionAt → Place

pub record Mismatch (M : MediaTime) : Type 0 where
  pub clip : ClipAt
  pub expected : Option M.Duration
  pub found : M.Duration

pub data Refusal (M : MediaTime) : Type 0 where
  rate_unstated : Refusal M
  off_edit_rate : Place → Refusal M
  media_rate_unstated : ClipAt → Refusal M
  range_too_long : RangeAt → Refusal M
  record_before_zero : ClipAt → Refusal M
  empty_record : ClipAt → Refusal M
  out_of_order : ClipPair → Refusal M
  overlap : ClipPair → Refusal M
  empty_clip_id : ClipAt → Refusal M
  duplicate_clip_id : IdClash → Refusal M
  source_off_edit_rate : ClipAt → Refusal M
  duration_mismatch : Mismatch M → Refusal M
  outside_available : ClipAt → Refusal M
  off_boundary : TransitionAt → Refusal M
  duplicate_transition : TransitionAt → Refusal M
  handle_missing : EdgeAt → Refusal M
  fade_meets_transition : EdgeAt → Refusal M
  blends_overrun_clip : ClipAt → Refusal M
