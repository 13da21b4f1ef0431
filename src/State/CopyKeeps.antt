-- ===== src/State/CopyKeeps.antt =====
-- The invariant of a run when a copy ends (mediadecode-webcodecs/src/state.rs,
-- mediadecode-webcodecs/src/video.rs).
use mediadecode.Base.{
  ℕ, ◌+◌, ◌^◌, ◌<◌, ◌≡◌, subst, inl, inr, true, List, ◌∷◌, ltb, ◌==◌, if◌then◌else◌, Bool-cases,
}
use mediadecode.State.SortedVec.{nat_key}
use mediadecode.State.Inner.{Error, DecodedFrame, PendingPush, ready, ok, err, is_closed}
use mediadecode.State.Shared.{SharedState, deliver_pending_push, inflight_full}
use mediadecode.State.Copy.{finish_copy, projected_bytes, max_inflight_bytes}
use mediadecode.State.CopyCases.{
  uncharged, uncharged-epoch, finish_copy_stale, finish_copy_closed, finish_copy_failed,
  finish_copy_over, finish_copy_delivered,
}
use mediadecode.State.Trace.{outcome}
use mediadecode.State.Good.{
  Good, sub_pending_copy-Good, wake-Good, deliver-Good, errored-Good, extend_closed,
}

module _ {F T W D : Type 0} (byte_size : F → ℕ) (decoded : ℕ → ℕ → F)
    (received : List (DecodedFrame F)) where
  -- The sequence numbers whose copies have ended, after one more.
  abbrev pub ended_with : SharedState F T W D → ℕ → ℕ → List ℕ → List ℕ
  ended_with h epoch sequence ks = if h.inner.epoch == epoch then sequence ∷ ks else ks

  pub finish_copy-Good :
      (h : SharedState F T W D) (ks : List ℕ) (epoch estimate sequence : ℕ)
      → sequence + 1 < 2 ^ 32
      → Good (outcome byte_size decoded) received ks h.inner
      → Good
          (outcome byte_size decoded)
          received
          (ended_with h epoch sequence ks)
          (finish_copy byte_size h epoch estimate sequence (ok (decoded epoch sequence))).0.inner
  finish_copy-Good h ks epoch estimate sequence small g =
      elim (Bool-cases (h.inner.epoch == epoch)) [
        | inr stale ↦
            rw
              (
                finish_copy_stale byte_size h epoch estimate sequence (ok (decoded epoch sequence))
                    stale,
                stale,
              )
              (wake-Good out received ks h' g').0
        | inl same ↦ elim (Bool-cases (is_closed h.inner)) [
          | inl c ↦
              rw
                (
                  finish_copy_closed byte_size h epoch estimate sequence
                      (ok (decoded epoch sequence)) c,
                  same,
                )
                (wake-Good out received (sequence ∷ ks) h' (
                  sub_pending_copy-Good out received (sequence ∷ ks) h.inner estimate
                    (closed-Good c))).0
          | inr fine ↦
              elim (Bool-cases (
                ltb max_inflight_bytes
                  (projected_bytes h'.inner (byte_size (decoded epoch sequence))))) [
                    | inl over ↦
                        rw
                          (finish_copy_over byte_size h epoch estimate sequence same fine
                            (decoded epoch sequence) over)
                          (errored-Good out received ks (ended_with h epoch sequence ks) h' sequence
                            h'.inner inflight_full g')
                    | inr fits ↦
                        rw
                          (
                            finish_copy_delivered byte_size h epoch estimate sequence same fine
                                (decoded epoch sequence) fits,
                            same,
                          )
                          (wake-Good out received (sequence ∷ ks)
                            (deliver_pending_push h' sequence (
                              ready (record { frame = decoded epoch sequence })
                                (byte_size (decoded epoch sequence)))).0
                            (subst
                              (λ n.
                                Good out received (sequence ∷ ks)
                                  (deliver_pending_push h' sequence (out n sequence)).0.inner)
                              (uncharged-epoch byte_size h epoch estimate sequence same)
                              (deliver-Good out received ks h' sequence small g'))).1
                  ]
        ]
      ]
    where
      out : ℕ → ℕ → PendingPush F
      out = outcome byte_size decoded

      h' : SharedState F T W D
      h' = uncharged byte_size h epoch estimate sequence

      g' : Good out received ks h'.inner
      g' = sub_pending_copy-Good out received ks h.inner estimate g

      closed-Good : is_closed h.inner ≡ true → Good out received (sequence ∷ ks) h.inner
      closed-Good c = extend_closed out received ks (sequence ∷ ks) h.inner c g

  pub failed-Good :
      (h : SharedState F T W D) (ks : List ℕ) (epoch estimate sequence : ℕ) (e : Error)
      → Good (outcome byte_size decoded) received ks h.inner
      → Good
          (outcome byte_size decoded)
          received
          ks
          (finish_copy byte_size h epoch estimate sequence (err e)).0.inner
  failed-Good h ks epoch estimate sequence e g = elim (Bool-cases (h.inner.epoch == epoch)) [
    | inr stale ↦
        rw (finish_copy_stale byte_size h epoch estimate sequence (err e) stale)
          (wake-Good out received ks h' g').0
    | inl same ↦ elim (Bool-cases (is_closed h.inner)) [
      | inl c ↦
          rw (finish_copy_closed byte_size h epoch estimate sequence (err e) c)
            (wake-Good out received ks h' g').0
      | inr fine ↦
          rw (finish_copy_failed byte_size h epoch estimate sequence same fine e)
            (errored-Good out received ks ks h' sequence h'.inner e g')
    ]
  ]
    where
      out : ℕ → ℕ → PendingPush F
      out = outcome byte_size decoded

      h' : SharedState F T W D
      h' = uncharged byte_size h epoch estimate sequence

      g' : Good out received ks h'.inner
      g' = sub_pending_copy-Good out received ks h.inner estimate g
