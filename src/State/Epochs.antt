-- ===== src/State/Epochs.antt =====
-- A delivery stays in its generation (mediadecode-webcodecs/src/state.rs).
use mediadecode.Base.{
  ℕ, zero, suc, ◌≡◌, refl, ◌∙◌, inl, inr, Bool, true, false, Option, none, some, arith, Bool-cases,
  length,
}
use mediadecode.State.SortedVec.{nat_key, find}
use mediadecode.State.Inner.{
  DecodedFrame, PendingPush, ready, skipped, Inner, ok, try_insert, push_queue, record_close,
  is_closed,
}
use mediadecode.State.Rounds.{
  Result-cases, find-cases, drain-none, drain_skipped, drain_ready, drain_overflow, deliver_closed,
  deliver_full, deliver_parked, counted,
}
use mediadecode.State.Shared.{
  SharedState, drain, take_push, advance, deliver_pending_push, settle, close_out, wake_receiver,
}

module _ {F T W : Type 0} where
  push_epoch :
      (s s' : Inner F T W) (frame : DecodedFrame F) (b : ℕ)
      → push_queue s frame b ≡ ok s'
      → s'.epoch ≡ s.epoch
  unfolding push_queue
  push_epoch s s' frame b h = ground arith

  drain-epoch :
      (fuel : ℕ) (s : Inner F T W) (pushed : Bool) → (drain fuel s pushed).0.epoch ≡ s.epoch
  unfolding drain record_close
  drain-epoch zero s pushed = refl
  drain-epoch (suc fuel) s pushed =
      elim (find-cases (find s.next_push_sequence s.pending_pushes.entries)) [
        | inl absent ↦ rw (drain-none fuel s pushed absent)
        | inr (inl skip) ↦
            rw (drain_skipped fuel s pushed skip)
              (drain-epoch fuel (advance (take_push s skipped)) pushed)
        | inr (inr (frame, b, found)) ↦
            elim (Result-cases (push_queue (take_push s (ready frame b)) frame b)) [
              | inl (s', e) ↦ rw (drain_ready fuel s pushed found e) (
                  drain-epoch fuel (advance s') true
                  ∙ push_epoch (take_push s (ready frame b)) s' frame b e)
              | inr (back, e) ↦ rw (drain_overflow fuel s pushed found e)
            ]
      ]

  settle-epoch :
      {D : Type 0} (h : SharedState F T W D) (x : Inner F T W × Bool × Option Bool)
      → (settle h x).0.inner.epoch ≡ x.0.epoch
  unfolding close_out wake_receiver
  settle-epoch h (s, pushed, some just_closed) = refl
  settle-epoch h (s, true, none) = refl
  settle-epoch h (s, false, none) = refl

  pub deliver-epoch :
      {D : Type 0} (h : SharedState F T W D) (k : ℕ) (p : PendingPush F)
      → (deliver_pending_push h k p).0.inner.epoch ≡ h.inner.epoch
  unfolding close_out record_close
  deliver-epoch h k p = elim (Bool-cases (is_closed h.inner)) [
    | inl c ↦ rw (deliver_closed h k p c)
    | inr c ↦ elim (Result-cases (try_insert h.inner.pending_pushes k p)) [
      | inl (m, e) ↦ rw (deliver_parked h k p c e) (
          settle-epoch h (
            drain (suc (length m.entries))
              (record h.inner { pending_push_bytes = counted h k p; pending_pushes = m }) false)
          ∙ drain-epoch (suc (length m.entries))
              (record h.inner { pending_push_bytes = counted h k p; pending_pushes = m }) false)
      | inr (back, e) ↦ rw (deliver_full h k p c e)
    ]
  ]
