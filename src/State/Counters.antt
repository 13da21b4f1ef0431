-- ===== src/State/Counters.antt =====
-- What leaves the counters of copies alone (mediadecode-webcodecs/src/state.rs,
-- mediadecode-webcodecs/src/video.rs).
use mediadecode.Base.{
  ℤ, ℕ, zero, suc, ◌-◌, ◌≡◌, refl, ◌∙◌, inl, inr, Bool, true, false, Option, none, some, arith, ltb,
  ◌==◌, Bool-cases, length,
}
use mediadecode.State.SortedVec.{nat_key, find}
use mediadecode.State.Inner.{
  Error, DecodedFrame, PendingOutput, PendingPush, ready, skipped, Inner, Result, ok, err,
  push_queue, pop_queue, record_close, is_closed, try_insert, sub_pending_copy, bump_epoch,
  clear_last_error, insert_pending_output, remove_pending_output,
}
use mediadecode.State.Shared.{
  SharedState, drain, take_push, advance, pushes_full, push_bytes, settle, deliver_pending_push,
  close_out, inflight_full, wake_all, wake_dequeue, wake_receiver,
}
use mediadecode.State.Copy.{
  finish_copy, errored, projected_bytes, max_inflight_bytes, flush, fatal_close, budget,
  budget_record,
}
use mediadecode.State.CopyCases.{
  uncharged, finish_copy_stale, finish_copy_closed, finish_copy_failed, finish_copy_over,
  finish_copy_delivered,
}
use mediadecode.State.Rounds.{
  Result-cases, find-cases, drain-none, drain_skipped, drain_ready, drain_overflow, deliver_closed,
  deliver_full, deliver_parked, counted,
}

module _ {F T W : Type 0} where
  -- The two counters of copies are the same.
  abbrev pub SameCopies : Inner F T W → Inner F T W → Type 0
  SameCopies s s' =
      (s'.pending_copies ≡ s.pending_copies) × (s'.pending_copy_bytes ≡ s.pending_copy_bytes)

  pub record_close-SameCopies : (s : Inner F T W) (e : Error) → SameCopies s (record_close s e).1
  unfolding record_close
  record_close-SameCopies s e = (refl, refl)

  push-SameCopies :
      (s s' : Inner F T W) (frame : DecodedFrame F) (b : ℕ)
      → push_queue s frame b ≡ ok s'
      → SameCopies s s'
  unfolding push_queue
  push-SameCopies s s' frame b h = ground arith

  drain-SameCopies :
      (fuel : ℕ) (s : Inner F T W) (pushed : Bool) → SameCopies s (drain fuel s pushed).0
  unfolding drain record_close
  drain-SameCopies zero s pushed = (refl, refl)
  drain-SameCopies (suc fuel) s pushed =
      elim (find-cases (find s.next_push_sequence s.pending_pushes.entries)) [
        | inl absent ↦ rw (drain-none fuel s pushed absent) (refl, refl)
        | inr (inl skip) ↦
            rw (drain_skipped fuel s pushed skip)
              (drain-SameCopies fuel (advance (take_push s skipped)) pushed)
        | inr (inr (frame, b, found)) ↦
            elim (Result-cases (push_queue (take_push s (ready frame b)) frame b)) [
              | inl (s', e) ↦
                  let (n, m) = push-SameCopies (take_push s (ready frame b)) s' frame b e in
                  let (n', m') = drain-SameCopies fuel (advance s') true in
                  rw (drain_ready fuel s pushed found e) (n' ∙ n, m' ∙ m)
              | inr (back, e) ↦ rw (drain_overflow fuel s pushed found e) (refl, refl)
            ]
      ]

module _ {F T W D : Type 0} where
  settle-SameCopies :
      (h : SharedState F T W D) (x : Inner F T W × Bool × Option Bool)
      → SameCopies x.0 (settle h x).0.inner
  unfolding close_out wake_receiver
  settle-SameCopies h (s, pushed, some now) = (refl, refl)
  settle-SameCopies h (s, true, none) = (refl, refl)
  settle-SameCopies h (s, false, none) = (refl, refl)

  deliver-SameCopies :
      (h : SharedState F T W D) (k : ℕ) (p : PendingPush F)
      → SameCopies h.inner (deliver_pending_push h k p).0.inner
  unfolding close_out record_close
  deliver-SameCopies h k p = elim (Bool-cases (is_closed h.inner)) [
    | inl c ↦ rw (deliver_closed h k p c) (refl, refl)
    | inr fine ↦ elim (Result-cases (try_insert h.inner.pending_pushes k p)) [
      | inl (m, e) ↦
          let s = record h.inner { pending_push_bytes = counted h k p; pending_pushes = m } in
          let (n, b) = drain-SameCopies (suc (length m.entries)) s false in
          let (n', b') = settle-SameCopies h (drain (suc (length m.entries)) s false) in
          rw (deliver_parked h k p fine e) (n' ∙ n, b' ∙ b)
      | inr (back, e) ↦ rw (deliver_full h k p fine e) (
          close_out-SameCopies h
            (record h.inner { pending_push_bytes = counted h k p - push_bytes p }))
    ]
  ]
    where
      close_out-SameCopies :
          (h : SharedState F T W D) (s : Inner F T W)
          → SameCopies s
              (close_out h (record_close s pushes_full).1 (record_close s pushes_full).0).0.inner
      close_out-SameCopies h s = (refl, refl)

  woken-SameCopies :
      (h : SharedState F T W D)
      → SameCopies h.inner (wake_all h).0.inner × SameCopies h.inner (wake_dequeue h).0.inner
  unfolding wake_all wake_dequeue
  woken-SameCopies h = ((refl, refl), (refl, refl))

  errored-SameCopies :
      (h : SharedState F T W D) (k : ℕ) (e : Error)
      → SameCopies h.inner (errored h k (record_close h.inner e)).0.inner
  errored-SameCopies h k e =
      let h' = record h { inner = (record_close h.inner e).1 } in
      let (n, b) = record_close-SameCopies h.inner e in
      let (n', b') = deliver-SameCopies h' k skipped in
      let (n'', b'') = (woken-SameCopies (deliver_pending_push h' k skipped).0).0 in
      (n'' ∙ (n' ∙ n), b'' ∙ (b' ∙ b))

  pub fatal_close-SameCopies :
      (h : SharedState F T W D) (e : Error) → SameCopies h.inner (fatal_close h e).0.inner
  unfolding fatal_close close_out record_close wake_all
  fatal_close-SameCopies h e = (refl, refl)

  -- A flush leaves them alone: the copies of the past generation are still under way.
  pub flush-SameCopies :
      (h : SharedState F T W D) (js : Bool) → SameCopies h.inner (flush h js).0.inner
  unfolding flush fatal_close close_out record_close wake_all wake_dequeue bump_epoch
      clear_last_error
  flush-SameCopies h true = (refl, refl)
  flush-SameCopies h false = (refl, refl)

  -- The end of a copy takes it off the counters, whatever became of it.
  pub finish_copy-SameCopies :
      (byte_size : F → ℕ) (h : SharedState F T W D) (epoch estimate sequence : ℕ)
      (result : Result Error F)
      → SameCopies
          (sub_pending_copy h.inner estimate)
          (finish_copy byte_size h epoch estimate sequence result).0.inner
  finish_copy-SameCopies byte_size h epoch estimate sequence result =
      elim (Bool-cases (h.inner.epoch == epoch)) [
        | inr stale ↦
            rw (finish_copy_stale byte_size h epoch estimate sequence result stale)
              (woken-SameCopies h').0
        | inl same ↦ elim (Bool-cases (is_closed h.inner)) [
          | inl c ↦
              rw (finish_copy_closed byte_size h epoch estimate sequence result c)
                (woken-SameCopies h').0
          | inr fine ↦ elim (Result-cases result) [
            | inr (e, failed) ↦
                rw (failed, finish_copy_failed byte_size h epoch estimate sequence same fine e)
                  (errored-SameCopies h' sequence e)
            | inl (body, copied) ↦
                elim (Bool-cases
                  (ltb max_inflight_bytes (projected_bytes h'.inner (byte_size body)))) [
                    | inl over ↦
                        rw
                          (
                            copied,
                            finish_copy_over byte_size h epoch estimate sequence same fine body
                                over,
                          )
                          (errored-SameCopies h' sequence inflight_full)
                    | inr fits ↦
                        let p = ready (record { frame = body }) (byte_size body) in
                        let (n, b) = deliver-SameCopies h' sequence p in
                        let (n', b') =
                          (woken-SameCopies (deliver_pending_push h' sequence p).0).1 in
                        rw
                          (
                            copied,
                            finish_copy_delivered byte_size h epoch estimate sequence same fine body
                                fits,
                          )
                          (n' ∙ n, b' ∙ b)
                  ]
          ]
        ]
      ]
    where
      h' : SharedState F T W D
      h' = uncharged byte_size h epoch estimate sequence

module _ {F T W : Type 0} where
  pub submitted-SameCopies :
      (s : Inner F T W) (id : ℤ) (r : PendingOutput T)
      → SameCopies s (insert_pending_output s id r).1
  unfolding insert_pending_output record_close
  submitted-SameCopies s id r = (ground arith, ground arith)

  pub popped-SameCopies : (s : Inner F T W) (size : ℕ) → SameCopies s (pop_queue s size).1
  unfolding pop_queue
  popped-SameCopies s size = (ground arith, ground arith)

  removed-SameCopies : (s : Inner F T W) (id : ℤ) → SameCopies s (remove_pending_output s id).1
  unfolding remove_pending_output
  removed-SameCopies s id = (ground arith, ground arith)

  -- An output that is refused, whether or not that closes the decoder, charges nothing.
  pub refused-SameCopies :
      (s : Inner F T W) (id : ℤ) (n : Option ℕ) (b : Bool) (s' : Inner F T W)
      → budget s id n ≡ (err b, s')
      → SameCopies s s'
  unfolding budget budget_record remove_pending_output record_close
  refused-SameCopies s id n b s' h = (ground arith, ground arith)
