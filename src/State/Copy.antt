-- ===== src/State/Copy.antt =====
-- The life of a decoded frame's copy (mediadecode-webcodecs/src/video.rs): the output callback
-- admits it, and `handle_video_frame` ends it. What the browser answers is an argument: the
-- measured allocation of the frame, and the copy's result. The size of a decoded body is the
-- parameter `byte_size`.
use mediadecode.Base.{
  ℤ, ltb_ℤ, ℕ, ◌*◌, min, Bool, true, false, Option, none, some, List, [], ◌++◌, ltb, leb, ◌==◌,
  if◌then◌else◌, u64_max, saturating_add,
}
use mediadecode.State.SortedVec.{int_key}
use mediadecode.State.Inner.{
  Error, PendingOutput, ready, skipped, Inner, Result, ok, err, record_close, is_closed,
  sub_pending_copy, add_pending_copy, remove_pending_output, allocate_output_sequence, bump_epoch,
  clear_last_error,
}
use mediadecode.State.Shared.{
  SharedState, Effect, fire, wake_all, wake_dequeue, deliver_pending_push, close_out, inflight_full,
}

abbrev pub max_pending_decode : ℕ
max_pending_decode = 32

abbrev pub max_frame_allocation_bytes : ℕ
max_frame_allocation_bytes = 256 * 1024 * 1024

abbrev pub max_inflight_bytes : ℕ
max_inflight_bytes = 256 * 1024 * 1024

abbrev pub missing_record : Error
missing_record = record {
  message =
      "WebCodecs video output: current-generation submission_id has no side-map entry; refusing to fabricate a record (would corrupt PTS for reordered codecs)";
}

abbrev pub not_measured : Error
not_measured = record {
  message =
      "WebCodecs VideoFrame.allocation_size_with_options failed; cannot enforce per-frame byte cap, refusing admission";
}

abbrev pub burst_exceeded : Error
burst_exceeded = record {
  message = "WebCodecs output burst exceeded MAX_PENDING_DECODE; video frames would be lost";
}

abbrev pub frame_too_large : Error
frame_too_large = record {
  message = "WebCodecs decoded frame allocation_size exceeded MAX_FRAME_ALLOCATION_BYTES";
}

abbrev pub flush_incomplete : Error
flush_incomplete = record {
  message = "video flush did not complete (reset/configure failed); decoder is closed";
}

abbrev pub burst_bytes : Error
burst_bytes = record {
  message = "WebCodecs output burst would exceed MAX_INFLIGHT_BYTES; video frames would be lost";
}

-- A copy that was admitted: the submission's record, the generation, the bytes charged, and the
-- place in the output order.
pub record Admission (T : Type 0) : Type 0 where
  pub submission : PendingOutput T
  pub epoch : ℕ
  pub bytes : ℕ
  pub sequence : ℕ

-- The outcome of the budget block of the output callback: an admitted record with its bytes, or
-- whether this callback closed the decoder.
abbrev pub Budget : Type 0 → Type 0 → Type 0 → Type 0
Budget F T W = Result Bool (PendingOutput T × ℕ) × Inner F T W

-- The bytes that a finished copy of `bytes` would leave pinned.
abbrev pub projected_bytes : {F T W : Type 0} → Inner F T W → ℕ → ℕ
projected_bytes s bytes =
    saturating_add u64_max (saturating_add u64_max s.queue_bytes s.pending_push_bytes) bytes

module _ {F T W : Type 0} where
  abbrev pub refuse : Inner F T W → Error → Budget F T W
  refuse s e = let (just_closed, s') = record_close s e in (err just_closed, s')

  -- The budget checks, once the submission's record has been taken from the side map.
  unfoldable pub budget_record : Inner F T W → PendingOutput T → Option ℕ → Budget F T W
  budget_record s r none = refuse s not_measured
  budget_record s r (some n) =
      let bytes = min (n * 2) u64_max in
      let projected =
        saturating_add u64_max
          (saturating_add u64_max (saturating_add u64_max s.queue_bytes s.pending_copy_bytes)
            s.pending_push_bytes)
          bytes in
      if leb max_pending_decode s.pending_copies
      then refuse s burst_exceeded
      else if ltb max_frame_allocation_bytes bytes
      then refuse s frame_too_large
      else if ltb max_inflight_bytes projected
      then refuse s burst_bytes
      else (ok (r, bytes), add_pending_copy s bytes)

  -- The block labelled `budget`.
  unfoldable pub budget : Inner F T W → ℤ → Option ℕ → Budget F T W
  unfolding is_closed
  budget s id measured =
      if is_closed s
      then (err false, s)
      else let (found, s') = remove_pending_output s id in
        elim found [
          | some r ↦ if r.epoch == s.epoch then budget_record s' r measured else (err false, s')
          | none ↦ if ltb_ℤ id s.epoch_id_floor then (err false, s') else refuse s' missing_record
        ]

module _ {F T W D : Type 0} where
  -- The output callback: the admission of a copy task, if one is spawned.
  unfoldable pub output_callback :
      SharedState F T W D
      → ℤ
      → Option ℕ
      → Option (Admission T) × SharedState F T W D × List (Effect W D)
  output_callback h id measured =
      let (answer, s) = budget h.inner id measured in
      elim answer [
        | err just_closed ↦ let (h', effects) = close_out h s just_closed in (none, h', effects)
        | ok (r, bytes) ↦
            let (sequence, s') = allocate_output_sequence s in
            (
              some (record { submission = r; epoch = s.epoch; bytes = bytes; sequence = sequence }),
              record h { inner = s' },
              [],
            )
      ]

module _ {F T W D : Type 0} where
  -- `Outcome::Errored`: the sequence is skipped, and the close is announced.
  abbrev pub errored :
      SharedState F T W D → ℕ → Bool × Inner F T W → SharedState F T W D × List (Effect W D)
  errored h sequence (just_closed, s) =
      let (h', delivered) = deliver_pending_push (record h { inner = s }) sequence skipped in
      let (h'', woken) = wake_all h' in
      (h'', delivered ++ (if just_closed then fire h.close_hook else []) ++ woken)

module _ {F T W D : Type 0} (byte_size : F → ℕ) where
  -- The end of `handle_video_frame`, when the copy has settled.
  unfoldable pub finish_copy :
      SharedState F T W D → ℕ → ℕ → ℕ → Result Error F → SharedState F T W D × List (Effect W D)
  unfolding sub_pending_copy is_closed record_close wake_all wake_dequeue
  finish_copy h epoch byte_estimate sequence result =
      let s = sub_pending_copy h.inner byte_estimate in
      let h' = record h { inner = s } in
      if s.epoch == epoch
      then if is_closed s then wake_all h' else elim result [
        | err e ↦ errored h' sequence (record_close s e)
        | ok decoded ↦
            if ltb max_inflight_bytes (projected_bytes s (byte_size decoded))
            then errored h' sequence (record_close s inflight_full)
            else let (h'', delivered) =
                deliver_pending_push h' sequence
                  (ready (record { frame = decoded }) (byte_size decoded)) in
              let (h''', woken) = wake_dequeue h'' in (h''', delivered ++ woken)
      ]
      else wake_all h'

module _ {F T W D : Type 0} where
  -- How a fatal error closes the decoder: recorded, then announced.
  unfoldable pub fatal_close : SharedState F T W D → Error → SharedState F T W D × List (Effect W D)
  unfolding record_close close_out
  fatal_close h e = let (just_closed, s) = record_close h.inner e in close_out h s just_closed

  -- `flush`: a new generation, before the browser's `reset` and `configure`, whose success is an
  -- argument; a failure of either closes the decoder as the guard is dropped.
  unfoldable pub flush : SharedState F T W D → Bool → SharedState F T W D × List (Effect W D)
  unfolding bump_epoch clear_last_error fatal_close wake_dequeue
  flush h true = wake_dequeue (record h { inner = clear_last_error (bump_epoch h.inner).1 })
  flush h false = fatal_close (record h { inner = (bump_epoch h.inner).1 }) flush_incomplete
