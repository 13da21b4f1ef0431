-- ===== src/State/CopyCases.antt =====
-- The end of a copy task, by case (`handle_video_frame` of mediadecode-webcodecs/src/video.rs).
use mediadecode.Base.{ℕ, ◌≡◌, inl, inr, true, false, ◌++◌, arith, ltb, ◌==◌, Bool-cases}
use mediadecode.State.Inner.{
  Error, ready, Result, ok, err, record_close, is_closed, sub_pending_copy,
}
use mediadecode.State.Shared.{
  SharedState, deliver_pending_push, inflight_full, wake_all, wake_dequeue,
}
use mediadecode.State.Copy.{finish_copy, errored, projected_bytes, max_inflight_bytes}

module _ {F T W D : Type 0} (byte_size : F → ℕ) (h : SharedState F T W D)
    (epoch estimate sequence : ℕ) where
  -- The handle once the copy is no longer charged.
  abbrev pub uncharged : SharedState F T W D
  uncharged = record h { inner = sub_pending_copy h.inner estimate }

  pub uncharged-epoch : (h.inner.epoch == epoch) ≡ true → uncharged.inner.epoch ≡ epoch
  unfolding sub_pending_copy
  uncharged-epoch same = ground arith

  pub finish_copy_stale :
      (result : Result Error F)
      → (h.inner.epoch == epoch) ≡ false
      → finish_copy byte_size h epoch estimate sequence result ≡ wake_all uncharged
  unfolding finish_copy
  finish_copy_stale result stale = rw stale

  pub finish_copy_closed :
      (result : Result Error F)
      → is_closed h.inner ≡ true
      → finish_copy byte_size h epoch estimate sequence result ≡ wake_all uncharged
  unfolding finish_copy
  finish_copy_closed result c = elim (Bool-cases (h.inner.epoch == epoch)) [
    | inl same ↦ rw (same, c)
    | inr stale ↦ rw stale
  ]

  module _ (same : (h.inner.epoch == epoch) ≡ true) (fine : is_closed h.inner ≡ false) where
    pub finish_copy_failed :
        (e : Error)
        → finish_copy byte_size h epoch estimate sequence (err e)
          ≡ errored uncharged sequence (record_close uncharged.inner e)
    unfolding finish_copy
    finish_copy_failed e = rw (same, fine)

    pub finish_copy_over :
        (body : F)
        → ltb max_inflight_bytes (projected_bytes uncharged.inner (byte_size body)) ≡ true
        → finish_copy byte_size h epoch estimate sequence (ok body)
          ≡ errored uncharged sequence (record_close uncharged.inner inflight_full)
    unfolding finish_copy
    finish_copy_over body over = rw (same, fine, over)

    pub finish_copy_delivered :
        (body : F)
        → ltb max_inflight_bytes (projected_bytes uncharged.inner (byte_size body)) ≡ false
        → finish_copy byte_size h epoch estimate sequence (ok body) ≡ (
            let (h', delivered) =
              deliver_pending_push uncharged sequence
                (ready (record { frame = body }) (byte_size body)) in
            let (h'', woken) = wake_dequeue h' in (h'', delivered ++ woken))
    unfolding finish_copy
    finish_copy_delivered body fits = rw (same, fine, fits)
