-- ===== src/State/Closing.antt =====
-- What a fatal close does outside the state (mediadecode-webcodecs/src/state.rs,
-- mediadecode-webcodecs/src/video.rs).
use mediadecode.Base.{
  ℕ, zero, suc, ◌-◌, ◌≡◌, refl, ap, ◌∙◌, ◌⊎◌, inl, inr, Bool, true, false, Option, none, some, List,
  ◌++◌, append-nil, arith, ltb, ◌==◌, Bool-cases, length,
}
use mediadecode.State.SortedVec.{nat_key, find}
use mediadecode.State.Inner.{
  Error, DecodedFrame, PendingPush, ready, skipped, Inner, Result, ok, push_queue, record_close,
  is_closed, try_insert, sub_pending_copy,
}
use mediadecode.State.Shared.{
  SharedState, Effect, fire, wake_some, drain, take_push, advance, queue_full, pushes_full,
  push_bytes, settle, deliver_pending_push, close_out, inflight_full, wake_all, wake_dequeue,
  wake_receiver,
}
use mediadecode.State.Copy.{finish_copy, errored, projected_bytes, max_inflight_bytes}
use mediadecode.State.CopyCases.{
  uncharged, finish_copy_stale, finish_copy_failed, finish_copy_over, finish_copy_delivered,
}
use mediadecode.State.Rounds.{
  Result-cases, find-cases, drain-none, drain_skipped, drain_ready, drain_overflow, deliver_closed,
  deliver_full, deliver_parked, counted,
}
use mediadecode.State.Arrival.{record_close-closed}

module _ {F T W : Type 0} where
  -- The drain ended with the decoder open, or it is the one that closed it.
  Drained : Inner F T W × Bool × Option Bool → Type 0
  Drained x =
      ((x.2 ≡ none) × (is_closed x.0 ≡ false)) ⊎ ((x.2 ≡ some true) × (is_closed x.0 ≡ true))

  -- The tasks that wait are the same.
  SameWakers : Inner F T W → Inner F T W → Type 0
  SameWakers s s' = (s'.receiver_waker ≡ s.receiver_waker) × (s'.dequeue_waker ≡ s.dequeue_waker)

  push_fine :
      (s s' : Inner F T W) (frame : DecodedFrame F) (b : ℕ)
      → push_queue s frame b ≡ ok s'
      → (is_closed s' ≡ is_closed s)
        × (s'.receiver_waker ≡ s.receiver_waker)
        × (s'.dequeue_waker ≡ s.dequeue_waker)
  unfolding push_queue is_closed
  push_fine s s' frame b h = ground arith

  closes : (s : Inner F T W) (e : Error) → is_closed s ≡ false → (record_close s e).0 ≡ true
  unfolding record_close
  closes s e fine = rw fine

  drain-Drained :
      (fuel : ℕ) (s : Inner F T W) (pushed : Bool)
      → is_closed s ≡ false
      → Drained (drain fuel s pushed) × SameWakers s (drain fuel s pushed).0
  unfolding drain record_close is_closed Drained SameWakers
  drain-Drained zero s pushed fine = (inl (refl, fine), (refl, refl))
  drain-Drained (suc fuel) s pushed fine =
      elim (find-cases (find s.next_push_sequence s.pending_pushes.entries)) [
        | inl absent ↦ rw (drain-none fuel s pushed absent) (inl (refl, fine), (refl, refl))
        | inr (inl skip) ↦
            rw (drain_skipped fuel s pushed skip)
              (drain-Drained fuel (advance (take_push s skipped)) pushed fine)
        | inr (inr (frame, b, found)) ↦
            elim (Result-cases (push_queue (take_push s (ready frame b)) frame b)) [
              | inl (s', e) ↦
                  let (same, receiver, dequeue) =
                    push_fine (take_push s (ready frame b)) s' frame b e in
                  let (done, (r, d)) = drain-Drained fuel (advance s') true (same ∙ fine) in
                  rw (drain_ready fuel s pushed found e) (done, (r ∙ receiver, d ∙ dequeue))
              | inr (back, e) ↦ rw (drain_overflow fuel s pushed found e) (
                inr (
                  ap some (closes (take_push s (ready frame b)) queue_full fine),
                  record_close-closed (take_push s (ready frame b)) queue_full,
                ),
                (refl, refl),
              )
            ]
      ]

module _ {F T W D : Type 0} where
  -- The effects of a fatal close: the browser's decoder is reset, and only then are the tasks woken
  -- that wait for a frame and for room.
  abbrev pub closing_effects : SharedState F T W D → List (Effect W D)
  closing_effects h =
      fire h.close_hook ++ (wake_some h.inner.receiver_waker ++ wake_some h.inner.dequeue_waker)

  -- The call closed an open decoder, with the effects of a close, and no task is left waiting; or
  -- the decoder is as open as it was.
  abbrev pub ClosesOr : SharedState F T W D → SharedState F T W D × List (Effect W D) → Type 0
  ClosesOr h x =
      ((is_closed x.0.inner ≡ true)
        × (x.1 ≡ closing_effects h)
        × (x.0.inner.receiver_waker ≡ none)
        × (x.0.inner.dequeue_waker ≡ none))
      ⊎ (is_closed x.0.inner ≡ false)

  close_out_now :
      (h : SharedState F T W D) (s : Inner F T W)
      → is_closed s ≡ true
      → SameWakers h.inner s
      → ClosesOr h (close_out h s true)
  unfolding close_out is_closed SameWakers
  close_out_now h s c same = inl (c, effects, refl, refl)
    where
      effects :
          fire h.close_hook ++ (wake_some s.receiver_waker ++ wake_some s.dequeue_waker)
          ≡ closing_effects h
      effects = rw (same.0, same.1)

  settle-ClosesOr :
      (h : SharedState F T W D) (x : Inner F T W × Bool × Option Bool)
      → Drained x
      → SameWakers h.inner x.0
      → ClosesOr h (settle h x)
  unfolding close_out wake_receiver is_closed Drained
  settle-ClosesOr h (s, pushed, some true) d same = elim d [
    | inl (absent, fine) ↦ cc
    | inr (now, c) ↦ close_out_now h s c same
  ]
  settle-ClosesOr h (s, pushed, some false) d same = elim d [
    | inl (absent, fine) ↦ cc
    | inr (now, c) ↦ cc
  ]
  settle-ClosesOr h (s, true, none) d same = elim d [
    | inl (absent, fine) ↦ inr fine
    | inr (now, c) ↦ cc
  ]
  settle-ClosesOr h (s, false, none) d same = elim d [
    | inl (absent, fine) ↦ inr fine
    | inr (now, c) ↦ cc
  ]

  deliver-ClosesOr :
      (h : SharedState F T W D) (k : ℕ) (p : PendingPush F)
      → is_closed h.inner ≡ false
      → ClosesOr h (deliver_pending_push h k p)
  unfolding is_closed SameWakers record_close
  deliver-ClosesOr h k p fine = elim (Result-cases (try_insert h.inner.pending_pushes k p)) [
    | inl (m, e) ↦
        let s = record h.inner { pending_push_bytes = counted h k p; pending_pushes = m } in
        let (d, same) = drain-Drained (suc (length m.entries)) s false fine in
        rw (deliver_parked h k p fine e)
          (settle-ClosesOr h (drain (suc (length m.entries)) s false) d same)
    | inr (back, e) ↦
        let s = record h.inner { pending_push_bytes = counted h k p - push_bytes p } in
        rw (deliver_full h k p fine e, closes s pushes_full fine)
          (close_out_now h (record_close s pushes_full).1 (record_close-closed s pushes_full)
            (refl, refl))
  ]

  wake_all-open :
      (h : SharedState F T W D) → is_closed h.inner ≡ false → is_closed (wake_all h).0.inner ≡ false
  unfolding wake_all is_closed
  wake_all-open h fine = fine

  uncharged-open :
      (h : SharedState F T W D) (n : ℕ)
      → is_closed h.inner ≡ false
      → is_closed (sub_pending_copy h.inner n) ≡ false
  unfolding sub_pending_copy is_closed
  uncharged-open h n fine = fine

  -- What a task woken for room adds: nothing, when no task waits for it.
  with_room : SharedState F T W D × List (Effect W D) → SharedState F T W D × List (Effect W D)
  with_room (h, effects) = let (h', woken) = wake_dequeue h in (h', effects ++ woken)

  with_room-ClosesOr :
      (h : SharedState F T W D) (x : SharedState F T W D × List (Effect W D))
      → ClosesOr h x
      → ClosesOr h (with_room x)
  unfolding with_room wake_dequeue is_closed
  with_room-ClosesOr h x (inl (c, e, receiver, dequeue)) =
      inl (c, rw (dequeue, append-nil x.1) e, receiver, refl)
  with_room-ClosesOr h x (inr fine) = inr fine

  errored-ClosesOr :
      (h : SharedState F T W D) (sequence : ℕ) (e : Error)
      → is_closed h.inner ≡ false
      → ClosesOr h (errored h sequence (record_close h.inner e))
  unfolding wake_all record_close is_closed
  errored-ClosesOr h sequence e fine =
      rw
        (
          deliver_closed (record h { inner = (record_close h.inner e).1 }) sequence skipped
              (record_close-closed h.inner e),
          closes h.inner e fine,
        )
        (inl (record_close-closed h.inner e, refl, refl, refl))

module _ {F T W D : Type 0} (byte_size : F → ℕ) where
  finish_delivered-ClosesOr :
      (h : SharedState F T W D) (sequence : ℕ) (body : F)
      → is_closed h.inner ≡ false
      → ClosesOr h (
          with_room
            (deliver_pending_push h sequence (ready (record { frame = body }) (byte_size body))))
  finish_delivered-ClosesOr h sequence body fine =
      with_room-ClosesOr h _
        (deliver-ClosesOr h sequence (ready (record { frame = body }) (byte_size body)) fine)

  -- The end of a copy whose decoder was open, whatever its generation and its result: either the
  -- decoder is still open, or it is closed, with exactly these effects in this order: the browser's
  -- decoder is reset, then the task that waits for a frame is woken, then the one that waits for
  -- room; and neither is left waiting.
  pub finish_copy-ClosesOr :
      (h : SharedState F T W D) (epoch estimate sequence : ℕ) (result : Result Error F)
      → is_closed h.inner ≡ false
      → ClosesOr h (finish_copy byte_size h epoch estimate sequence result)
  unfolding sub_pending_copy wake_dequeue with_room deliver_pending_push
  finish_copy-ClosesOr h epoch estimate sequence result fine =
      elim (Bool-cases (h.inner.epoch == epoch)) [
        | inr stale ↦
            rw (finish_copy_stale byte_size h epoch estimate sequence result stale)
              (inr (wake_all-open (uncharged byte_size h epoch estimate sequence) same_open))
        | inl same ↦ elim (Result-cases result) [
          | inr (e, failed) ↦
              rw (failed, finish_copy_failed byte_size h epoch estimate sequence same fine e)
                (errored-ClosesOr (uncharged byte_size h epoch estimate sequence) sequence e
                  same_open)
          | inl (body, copied) ↦
              elim (Bool-cases (
                ltb max_inflight_bytes
                  (projected_bytes (sub_pending_copy h.inner estimate) (byte_size body)))) [
                    | inl over ↦
                        rw
                          (
                            copied,
                            finish_copy_over byte_size h epoch estimate sequence same fine body
                                over,
                          )
                          (errored-ClosesOr (uncharged byte_size h epoch estimate sequence) sequence
                            inflight_full same_open)
                    | inr fits ↦
                        rw
                          (
                            copied,
                            finish_copy_delivered byte_size h epoch estimate sequence same fine body
                                fits,
                          )
                          (finish_delivered-ClosesOr (uncharged byte_size h epoch estimate sequence)
                            sequence body same_open)
                  ]
        ]
      ]
    where
      same_open : is_closed (sub_pending_copy h.inner estimate) ≡ false
      same_open = uncharged-open h estimate fine
