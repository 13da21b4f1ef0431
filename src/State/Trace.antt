-- ===== src/State/Trace.antt =====
-- Whole runs of the shared state: copies that end in any order, frames that are taken, flushes and
-- fatal errors (mediadecode-webcodecs/src/state.rs, mediadecode-webcodecs/src/video.rs).
use mediadecode.Base.{
  ℕ, ◌+◌, ◌^◌, ◌<◌, Bool, true, false, none, some, List, [], ◌∷◌, ◌++◌, ◌==◌, if◌then◌else◌,
}
use mediadecode.State.SortedVec.{nat_key}
use mediadecode.State.Inner.{Error, DecodedFrame, PendingPush, ready, Inner, ok, err, pop_queue}
use mediadecode.State.Shared.{SharedState}
use mediadecode.State.Copy.{finish_copy, flush, fatal_close}

-- What can happen to the shared state of a video decoder once it is built.
pub data Event : Type 0 where
  -- The copy of a generation's frame ends; the bytes are those charged at admission.
  copied : ℕ → ℕ → ℕ → Event
  failed : ℕ → ℕ → ℕ → Error → Event
  -- `receive_frame` takes a frame, of the given size.
  taken : ℕ → Event
  -- `flush` succeeds, or its `reset` or `configure` fails.
  flushed : Event
  flush_failed : Event
  -- Any other fatal close.
  closed : Error → Event

-- The handle, and what the run has done in the current generation: the frames taken by the
-- consumer, and the sequence numbers whose copies have ended.
pub record World (F T W D : Type 0) : Type 0 where
  pub handle : SharedState F T W D
  pub received : List (DecodedFrame F)
  pub finished : List ℕ

-- The outcome of the copy of each sequence number of a generation.
abbrev pub outcome : {F : Type 0} → (F → ℕ) → (ℕ → ℕ → F) → ℕ → ℕ → PendingPush F
outcome byte_size decoded epoch sequence =
    ready (record { frame = decoded epoch sequence }) (byte_size (decoded epoch sequence))

-- A copy's sequence number is not the last `u32`.
abbrev pub IsSmall : Event → Type 0
IsSmall (copied epoch sequence estimate) = sequence + 1 < 2 ^ 32
IsSmall _ = Unit

abbrev pub AllSmall : List Event → Type 0
AllSmall [] = Unit
AllSmall (e ∷ es) = IsSmall e × AllSmall es

module _ {F T W D : Type 0} where
  abbrev pub with_inner : World F T W D → Inner F T W → World F T W D
  with_inner w s = record w { handle = record w.handle { inner = s } }

  abbrev pub next_generation : World F T W D → Bool → World F T W D
  next_generation w js = record { handle = (flush w.handle js).0; received = []; finished = [] }

module _ {F T W D : Type 0} (byte_size : F → ℕ) (decoded : ℕ → ℕ → F) where
  unfoldable pub step : World F T W D → Event → World F T W D
  step w (copied epoch sequence estimate) = record w {
    handle =
        (finish_copy byte_size w.handle epoch estimate sequence (ok (decoded epoch sequence))).0;
    finished = if w.handle.inner.epoch == epoch then sequence ∷ w.finished else w.finished;
  }
  step w (failed epoch sequence estimate e) = record w {
    handle = (finish_copy byte_size w.handle epoch estimate sequence (err e)).0;
  }
  step w (taken size) =
      let (frame, s) = pop_queue w.handle.inner size in
      elim frame [ none ↦ w | some f ↦ record (with_inner w s) { received = w.received ++ f ∷ [] } ]
  step w flushed = next_generation w true
  step w flush_failed = next_generation w false
  step w (closed e) = record w { handle = (fatal_close w.handle e).0 }

  abbrev pub run : World F T W D → List Event → World F T W D
  run w [] = w
  run w (e ∷ es) = run (step w e) es
