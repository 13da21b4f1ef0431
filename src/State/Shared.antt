-- ===== src/State/Shared.antt =====
-- `SharedState`: the handle's operations, which also reset the browser's decoder and wake tasks
-- (mediadecode-webcodecs/src/state.rs), and the end of a copy task (`handle_video_frame` of
-- mediadecode-webcodecs/src/video.rs). What they do outside the state is a list of effects, in the
-- order in which they happen.
use mediadecode.Base.{
  ℕ, zero, suc, ◌+◌, ◌-◌, Bool, true, false, Option, none, some, List, [], ◌∷◌, ◌++◌, if◌then◌else◌,
  u64_max, saturating_add, length,
}
use mediadecode.State.SortedVec.{nat_key, find}
use mediadecode.State.Inner.{
  Error, PendingPush, ready, skipped, Inner, ok, err, wrap_u32, try_insert, remove_push, push_queue,
  record_close, is_closed,
}

-- `CloseHookTarget`, over the browser's decoder handles.
pub data CloseHookTarget (D : Type 0) : Type 0 where
  no_hook : CloseHookTarget D
  video : D → CloseHookTarget D
  audio : D → CloseHookTarget D

pub data Effect (W D : Type 0) : Type 0 where
  reset : D → Effect W D
  wake : W → Effect W D

pub record SharedState (F T W D : Type 0) : Type 0 where
  pub inner : Inner F T W
  pub close_hook : CloseHookTarget D

abbrev pub pushes_full : Error
pushes_full = record {
  message =
      "WebCodecs pending_pushes reached capacity; admission gate failed to bound reorder buffer";
}

abbrev pub queue_full : Error
queue_full = record {
  message =
      "WebCodecs decoded-frame queue reached capacity; admission gate failed to bound the output queue";
}

abbrev pub inflight_full : Error
inflight_full = record {
  message = "video output queue exceeded MAX_INFLIGHT_BYTES at copy completion";
}

-- `CloseHookTarget::fire`.
abbrev pub fire : {W D : Type 0} → CloseHookTarget D → List (Effect W D)
fire no_hook = []
fire (video d) = reset d ∷ []
fire (audio d) = reset d ∷ []

abbrev pub wake_some : {W D : Type 0} → Option W → List (Effect W D)
wake_some none = []
wake_some (some w) = wake w ∷ []

-- The bytes that a push pins while it is parked.
abbrev pub push_bytes : {F : Type 0} → PendingPush F → ℕ
push_bytes (ready frame byte_size) = byte_size
push_bytes skipped = 0

module _ {F T W : Type 0} where
  -- Moves the cursor past the sequence just taken.
  abbrev pub advance : Inner F T W → Inner F T W
  advance s = record s { next_push_sequence = wrap_u32 (s.next_push_sequence + 1) }

  -- The entry at the cursor taken out of the buffer, its bytes no longer counted there.
  abbrev pub take_push : Inner F T W → PendingPush F → Inner F T W
  take_push s push = record s {
    pending_pushes = (remove_push s.pending_pushes s.next_push_sequence).1;
    pending_push_bytes = s.pending_push_bytes - push_bytes push;
  }

  -- The `loop` of `deliver_pending_push`: the state, whether a frame was pushed, and, if the queue
  -- overflowed, whether that closed the decoder. Each round takes an entry out of the buffer.
  unfoldable pub drain : ℕ → Inner F T W → Bool → Inner F T W × Bool × Option Bool
  unfolding remove_push
  drain zero s pushed = (s, pushed, none)
  drain (suc fuel) s pushed = elim (find s.next_push_sequence s.pending_pushes.entries) [
    | none ↦ (s, pushed, none)
    | some skipped ↦ drain fuel (advance (take_push s skipped)) pushed
    | some (ready frame byte_size) ↦
        elim (push_queue (take_push s (ready frame byte_size)) frame byte_size) [
          | ok s' ↦ drain fuel (advance s') true
          | err _ ↦
              let (just_closed, s') =
                record_close (take_push s (ready frame byte_size)) queue_full in
              (s', pushed, some just_closed)
        ]
  ]

module _ {F T W D : Type 0} where
  unfoldable pub wake_receiver : SharedState F T W D → SharedState F T W D × List (Effect W D)
  wake_receiver h = (
    record h { inner = record h.inner { receiver_waker = none } },
    wake_some h.inner.receiver_waker,
  )

  unfoldable pub wake_dequeue : SharedState F T W D → SharedState F T W D × List (Effect W D)
  wake_dequeue h = (
    record h { inner = record h.inner { dequeue_waker = none } },
    wake_some h.inner.dequeue_waker,
  )

  unfoldable pub wake_all : SharedState F T W D → SharedState F T W D × List (Effect W D)
  wake_all h = (
    record h { inner = record h.inner { receiver_waker = none; dequeue_waker = none } },
    wake_some h.inner.receiver_waker ++ wake_some h.inner.dequeue_waker,
  )

  -- How every fatal close ends: the hook if this call closed the decoder, then both wakers.
  unfoldable pub close_out :
      SharedState F T W D → Inner F T W → Bool → SharedState F T W D × List (Effect W D)
  unfolding wake_all
  close_out h s just_closed =
      let (h', woken) = wake_all (record h { inner = s }) in
      (h', (if just_closed then fire h.close_hook else []) ++ woken)

  -- The second half of `deliver_pending_push`, after the drain.
  abbrev pub settle :
      SharedState F T W D
      → Inner F T W × Bool × Option Bool
      → SharedState F T W D × List (Effect W D)
  settle h (s, pushed, some just_closed) = close_out h s just_closed
  settle h (s, true, none) = wake_receiver (record h { inner = s })
  settle h (s, false, none) = (record h { inner = s }, [])

  unfoldable pub deliver_pending_push :
      SharedState F T W D → ℕ → PendingPush F → SharedState F T W D × List (Effect W D)
  unfolding is_closed try_insert record_close drain close_out wake_receiver
  deliver_pending_push h sequence push =
      if is_closed h.inner
      then (h, [])
      else let counted = saturating_add u64_max h.inner.pending_push_bytes (push_bytes push) in
        elim (try_insert h.inner.pending_pushes sequence push) [
          | err _ ↦
              let (just_closed, s) =
                record_close (record h.inner { pending_push_bytes = counted - push_bytes push })
                  pushes_full in
              close_out h s just_closed
          | ok pushes ↦ settle h (
              drain (suc (length pushes.entries))
                (record h.inner { pending_push_bytes = counted; pending_pushes = pushes }) false)
        ]

  -- `SharedState::set_close_hook_video` and the others.
  unfoldable pub set_close_hook : SharedState F T W D → CloseHookTarget D → SharedState F T W D
  set_close_hook h hook = record h { close_hook = hook }

  -- `invoke_close_hook`.
  unfoldable pub invoke_close_hook : SharedState F T W D → List (Effect W D)
  invoke_close_hook h = fire h.close_hook
