-- ===== src/Decoder/Rounds.antt =====
-- The loop of a call ends (mediadecode-ffmpeg/src/decoder/mod.rs).
use mediadecode.Base.{
  ℕ, zero, suc, ◌-◌, ◌≤◌, ◌<◌, ◌≡◌, Option, none, some, arith, length, Returns, Result, ok, err,
}
use mediadecode.Decoder.Libav.{Libav}
use mediadecode.Decoder.Phase.{HwRoute, Failure}
use mediadecode.Decoder.Session.{ProbeState, VideoDecoder}
use mediadecode.Decoder.Calls.{call_loop, follow, loop_rounds}
use mediadecode.Decoder.Promises.{Told, Promises}
use mediadecode.Decoder.Rescue.{Rescues, left_of, left, InStep, Routed, follow-Returns}

module _ (F : Libav) (L : Promises F) where
  -- A round of a call, or what it resumes with: an answer that `Q` holds of, or the history kept
  -- and no backend lost.
  abbrev pub Once :
      {A : Type 0}
      → (VideoDecoder F × Result (Failure F) A → Type 0)
      → Told F.Packet
      → VideoDecoder F
      → VideoDecoder F × Result (HwRoute (Failure F)) A
      → Type 0
  Once Q sent s (t, ok a) = Q (t, ok a)
  Once Q sent s (t, err to) = InStep F L sent t × Routed F L sent t to × (left F t ≤ left F s)

  abbrev pub Resumes :
      {A : Type 0}
      → (VideoDecoder F × Result (Failure F) A → Type 0)
      → Told F.Packet
      → VideoDecoder F
      → VideoDecoder F × Option A
      → Type 0
  Resumes Q sent s (t, some a) = Q (t, ok a)
  Resumes Q sent s (t, none) = InStep F L sent t × (left F t ≤ left F s)

  -- A loop whose rounds keep the history ends.
  module _ {A : Type 0} (Q : VideoDecoder F × Result (Failure F) A → Type 0) (sent : Told F.Packet)
      (once : VideoDecoder F → VideoDecoder F × Result (HwRoute (Failure F)) A)
      (resume : VideoDecoder F → VideoDecoder F × Option A)
      (goes : (s : VideoDecoder F) → InStep F L sent s → Once Q sent s (once s))
      (resumes : (s : VideoDecoder F) → InStep F L sent s → Resumes Q sent s (resume s))
      (fails : (e : Failure F) (t : VideoDecoder F)
        → InStep F L sent t
        → Rescues F (sent.0) e
        → Q (t, err e)) where
    -- What the loop asks of its next rounds.
    abbrev NextReturns : (fuel rounds : ℕ) → Type 0
    NextReturns fuel rounds =
        (u : VideoDecoder F)
        → InStep F L sent u
        → left F u < fuel
        → Returns Q (call_loop F once resume fuel (suc (suc rounds)) u)

    resumed-Returns :
        (fuel rounds : ℕ) (t : VideoDecoder F) (r : VideoDecoder F × Option A)
        → NextReturns fuel rounds
        → left F t < fuel
        → Resumes Q sent t r
        → Returns Q (elim (r.1) [
          | some a ↦ some (r.0, ok a)
          | none ↦ call_loop F once resume fuel (suc (suc rounds)) (r.0)
        ])
    resumed-Returns fuel rounds t (u, some a) next less h = h
    resumed-Returns fuel rounds t (u, none) next less h = next u h.0 (omega (arith, h.1, less))

    round-Returns :
        (fuel rounds : ℕ) (s : VideoDecoder F) (r : VideoDecoder F × Result (HwRoute (Failure F)) A)
        → NextReturns fuel rounds
        → left F s < suc fuel
        → Once Q sent s r
        → Returns Q (elim (r.1) [
          | ok a ↦ some (r.0, ok a)
          | err to ↦ follow F (suc (suc rounds)) to (r.0) λ s2.
              let (s3, answered) = resume s2 in
              elim answered [
                | some a ↦ some (s3, ok a)
                | none ↦ call_loop F once resume fuel (suc (suc rounds)) s3
              ]
        ])
    round-Returns fuel rounds s (t, ok a) next enough h = h
    round-Returns fuel rounds s (t, err to) next enough h =
        follow-Returns F L Q rounds to t sent _ h.0 h.1 fails (λ u inv less.
          resumed-Returns fuel rounds u (resume u) next (omega (arith, less, enough, h.2))
            (resumes u inv))

    pub call_loop-Returns : (fuel rounds : ℕ) → NextReturns fuel rounds
    unfolding call_loop
    call_loop-Returns zero rounds s inv enough = absurd (omega (arith, enough))
    call_loop-Returns (suc fuel) rounds s inv enough =
        round-Returns fuel rounds s (once s) (call_loop-Returns fuel rounds) enough (goes s inv)

  pub left_of-loop_rounds : (s : VideoDecoder F) → left F s < loop_rounds F s
  left_of-loop_rounds s = on s.probe
    where
      on :
          (probe : Option (ProbeState F))
          → left_of F probe < elim probe [ none ↦ 1 | some p ↦ suc (length p.remaining_backends) ]
      on none = omega arith
      on (some p) = omega arith

  pub two_more : (n : ℕ) → 2 ≤ n → (k : ℕ) × (n ≡ suc (suc k))
  two_more n h = (n - 2, omega (arith, h))
