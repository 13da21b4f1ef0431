-- ===== src/Measured.antt =====
-- The running measurement of a demux walk (mediaio-ffmpeg/src/measured.rs).
pub mod Walk
pub mod Completion
mod Tests
use mediadecode.Base.{
  ℕ, Bool, true, false, Option, none, some, List, ℤ, pos, ltb_ℤ, max_ℤ, i64_checked_add, get_elem?,
  set, replicate, if◌then◌else◌,
}

-- One track's running figure.
pub data Figure : Type 0 where
  unseen : Figure
  end : ℤ → Figure
  unrepresentable : Figure

pub record Slot : Type 0 where
  pub figure : Figure
  pub exact : Bool

pub record Measured : Type 0 where
  pub ends : List Slot
  pub unbroken : Bool
  pub walk_complete : Bool

abbrev pub fresh_slot : Slot
fresh_slot = record { figure = unseen; exact = true }

-- `Measured::new`. The allocator's answer to `try_reserve_exact` is an input.
unfoldable pub new : Bool → ℕ → Option Measured
new false tracks = none
new true tracks =
    some (record { ends = replicate tracks fresh_slot; unbroken = true; walk_complete = false })

-- The last `match` of `observe`: a figure that takes in one more packet end.
abbrev pub fold_end : Figure → ℤ → Figure
fold_end unseen e = end e
fold_end (end seen) e = end (max_ℤ seen e)
fold_end unrepresentable e = unrepresentable

-- Writes a slot back, and the flag that an end which does not fit clears.
abbrev pub write_slot : Measured → ℕ → Slot → Bool → Measured
write_slot m track slot broke = record m {
  ends = set m.ends track slot;
  unbroken = if broke then false else m.unbroken;
}

-- What `observe` does to the slot of its track: the new slot, and whether the walk breaks.
unfoldable pub observe_slot : Slot → Option ℤ → ℤ → Slot × Bool
observe_slot slot none duration = (record slot { exact = false }, false)
observe_slot slot (some pts) duration =
    if ltb_ℤ (pos 0) duration
    then elim (i64_checked_add pts duration) [
      | some e ↦ (record slot { figure = fold_end slot.figure e }, false)
      | none ↦ (record slot { figure = unrepresentable }, true)
    ]
    else (record { figure = fold_end slot.figure pts; exact = false }, false)

unfoldable pub observe : Measured → ℕ → Option ℤ → ℤ → Measured
observe m track pts duration = if m.walk_complete then m else elim (get_elem? m.ends track) [
  | none ↦ m
  | some slot ↦
      let (slot', broke) = observe_slot slot pts duration in write_slot m track slot' broke
]

unfoldable pub end_of_file : Measured → Measured
end_of_file m = if m.unbroken then record m { walk_complete = true } else m

unfoldable pub break_walk : Measured → Measured
break_walk m = if m.walk_complete then m else record m { unbroken = false }

-- `mediaspine`'s `MeasuredEnd`: the instant, and what is known of it.
pub record MeasuredEnd (Timestamp : Type 0) : Type 0 where
  pub end : Timestamp
  pub complete : Bool
  pub exact : Bool

-- `Timestamp::new` of `mediatime` is the parameter `timestamp`.
unfoldable pub get :
    {Timebase Timestamp : Type 0}
    → (ℤ → Timebase → Timestamp)
    → Measured
    → ℕ
    → Timebase
    → Option (MeasuredEnd Timestamp)
get timestamp m track timebase = elim (get_elem? m.ends track) [
  | none ↦ none
  | some slot ↦ elim slot.figure [
    | end ticks ↦
        some (record {
          end = timestamp ticks timebase;
          complete = m.walk_complete;
          exact = slot.exact;
        })
    | unseen ↦ none
    | unrepresentable ↦ none
  ]
]
