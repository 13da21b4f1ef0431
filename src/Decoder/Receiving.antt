-- ===== src/Decoder/Receiving.antt =====
-- The rounds of `receive_frame` keep the history (mediadecode-ffmpeg/src/decoder/mod.rs).
use mediadecode.Base.{
  ℕ, ◌≤◌, ◌≡◌, refl, sym, ap, ◌∙◌, subst, false, Option, none, some, List, [], ◌∷◌, arith, Result,
  ok, err,
}
use mathlib.Core.Option
use mediadecode.Decoder.Libav.{AvError, ffmpeg, hw_transfer_too_large, Libav}
use mediadecode.Decoder.Phase.{
  Received, candidate_failure, report, Failure, receive_status, produced, needs_input, ended,
}
use mediadecode.Decoder.Footprint.{judge_hw_transfer}
use mediadecode.Decoder.Session.{
  ProbeState, VideoDecoder, is_some, phase, hw_exit, with_inner, hw_receive, route, hw_failure,
}
use mediadecode.Decoder.Calls.{
  pop_first, transfer_hw_frame, try_pop_pending, scaled_transfer, deliver_surface, receive_once,
}
use mediadecode.Decoder.Promises.{Told, Promises}
use mediadecode.Decoder.Rescue.{
  Rescues, Buffers, left_of, left, InStep, told-hw_exit, hw_exit-Rescues, route-Routed,
}
use mediadecode.Decoder.Verdict.{Either, IsStatus, receive_status-Either}
use mediadecode.Decoder.Rounds.{Once, Resumes}

module _ (F : Libav) (L : Promises F) where
  -- A frame commits its backend; input is asked for only before the end; and an end is told only by
  -- a backend that is not on trial.
  abbrev pub IsAnswer : VideoDecoder F → Received F.CpuFrame → Type 0
  IsAnswer t (produced frame) = t.probe ≡ none
  IsAnswer t needs_input = t.eof_sent ≡ false
  IsAnswer t ended = t.probe ≡ none

  -- What a receive leaves: the history as it was.
  abbrev pub ReceiveKeeps :
      Told F.Packet → VideoDecoder F × Result (Failure F) (Received F.CpuFrame) → Type 0
  ReceiveKeeps sent (t, ok received) = InStep F L sent t × IsAnswer t received
  ReceiveKeeps sent (t, err e) = InStep F L sent t × Rescues F (sent.0) e

  -- A step that leaves the context, the probe and the end as they were.
  abbrev Alike : VideoDecoder F → VideoDecoder F → Type 0
  Alike s u = (u.inner ≡ s.inner) × (u.probe ≡ s.probe) × (u.eof_sent ≡ s.eof_sent)

  Alike-InStep :
      (sent : Told F.Packet) (s u : VideoDecoder F)
      → Alike s u
      → InStep F L sent s
      → InStep F L sent u × (left F u ≤ left F s)
  Alike-InStep sent s u alike inv = (
    (
      ap L.told alike.0 ∙ inv.0 ∙ ap (λ b. (sent.0, b)) (sym alike.2),
      subst (Buffers F (sent.0)) (sym alike.1) inv.1,
      alike.2 ∙ inv.2,
    ),
    omega (arith, ap (left_of F) alike.1),
  )

  scaled_transfer-Alike :
      (surface : F.Surface) (s : VideoDecoder F) → Alike s (scaled_transfer F surface s).0
  unfolding scaled_transfer
  scaled_transfer-Alike surface s = ground arith

  hw_failure-Once :
      {A : Type 0} (Q : VideoDecoder F × Result (Failure F) A → Type 0) (sent : Told F.Packet)
      (e : AvError) (s u : VideoDecoder F)
      → InStep F L sent u × (left F u ≤ left F s)
      → let (t, to) = hw_failure F e candidate_failure u in Once F L Q sent s (t, err to)
  unfolding hw_failure
  hw_failure-Once Q sent e s u inv =
      let (c, verdict) = hw_exit F u.inner (ffmpeg e) in
      (
        (told-hw_exit F L u.inner (ffmpeg e) ∙ inv.0.0, inv.0.1, inv.0.2),
        route-Routed F L sent (with_inner F u c) verdict candidate_failure
            (hw_exit-Rescues F L (sent.0) u.inner (ffmpeg e) tt),
        inv.1,
      )

  downloaded-Once :
      (sent : Told F.Packet) (s u : VideoDecoder F) (moved : Result AvError F.CpuFrame)
      → InStep F L sent u × (left F u ≤ left F s)
      → Once F L (ReceiveKeeps sent) sent s (elim moved [
        | ok cpu ↦ (record u { probe = none }, ok (produced cpu))
        | err e ↦ let (t, to) = hw_failure F e candidate_failure u in (t, err to)
      ])
  downloaded-Once sent s u (ok cpu) inv = ((inv.0.0, tt, inv.0.2), refl)
  downloaded-Once sent s u (err e) inv = hw_failure-Once (ReceiveKeeps sent) sent e s u inv

  scaled-Once :
      (sent : Told F.Packet) (surface : F.Surface) (s u : VideoDecoder F)
      (scaled : Option F.CpuFrame)
      → InStep F L sent u × (left F u ≤ left F s)
      → Once F L (ReceiveKeeps sent) sent s (elim scaled [
        | some cpu ↦ (record u { probe = none }, ok (produced cpu))
        | none ↦
            let (w, moved) = transfer_hw_frame F surface u.world in
            let u' : VideoDecoder F = record u { world = w } in
            elim moved [
              | ok cpu ↦ (record u' { probe = none }, ok (produced cpu))
              | err e ↦ let (t, to) = hw_failure F e candidate_failure u' in (t, err to)
            ]
      ])
  scaled-Once sent surface s u (some cpu) inv = ((inv.0.0, tt, inv.0.2), refl)
  scaled-Once sent surface s u none inv =
      let (w, moved) = transfer_hw_frame F surface u.world in
      downloaded-Once sent s (record u { world = w }) moved inv

  deliver_surface-Once :
      (sent : Told F.Packet) (surface : F.Surface) (s u : VideoDecoder F)
      → InStep F L sent u × (left F u ≤ left F s)
      → Once F L (ReceiveKeeps sent) sent s (deliver_surface F surface u)
  unfolding deliver_surface
  deliver_surface-Once sent surface s u inv =
      judged (judge_hw_transfer F surface u.caps.max_frame_bytes) (scaled_transfer F surface u)
        (scaled_transfer-Alike surface u)
    where
      judged :
          (refused : Option (ℕ × ℕ)) (r : VideoDecoder F × Option F.CpuFrame)
          → Alike u r.0
          → Once F L (ReceiveKeeps sent) sent s (elim refused [
            | some (bytes, limit) ↦ (u, err (report (hw_transfer_too_large bytes limit)))
            | none ↦ elim (r.1) [
              | some cpu ↦ (record (r.0) { probe = none }, ok (produced cpu))
              | none ↦
                  let (w, moved) = transfer_hw_frame F surface (r.0).world in
                  let u' : VideoDecoder F = record (r.0) { world = w } in
                  elim moved [
                    | ok cpu ↦ (record u' { probe = none }, ok (produced cpu))
                    | err e ↦ let (t, to) = hw_failure F e candidate_failure u' in (t, err to)
                  ]
            ]
          ])
      judged (some (bytes, limit)) r alike = (inv.0, tt, inv.1)
      judged none (v, scaled) alike =
          let kept = Alike-InStep sent u v alike inv.0 in
          scaled-Once sent surface s v scaled (kept.0, omega (arith, kept.1, inv.1))

  gone_of : (probe : Option (ProbeState F)) → is_some F probe ≡ false → probe ≡ none
  gone_of none h = refl
  gone_of (some p) h = ground arith

  received-Once :
      (sent : Told F.Packet) (s u : VideoDecoder F) (r : Result (Failure F) (Received F.CpuFrame))
      → InStep F L sent u
      → left F u ≤ left F s
      → Either (Rescues F (sent.0)) (IsStatus (is_some F u.probe) u.eof_sent) r
      → Once F L (ReceiveKeeps sent) sent s (elim r [
        | ok received ↦ (u, ok received)
        | err reason ↦ (u, err (route F u reason candidate_failure))
      ])
  received-Once sent s u (ok (produced frame)) inv fewer h = absurd h
  received-Once sent s u (ok needs_input) inv fewer h = (inv, h)
  received-Once sent s u (ok ended) inv fewer h = (inv, gone_of u.probe h)
  received-Once sent s u (err reason) inv fewer h =
      (inv, route-Routed F L sent u reason candidate_failure h, fewer)

  answered-Once :
      (sent : Told F.Packet) (s u : VideoDecoder F) (answer : Result AvError F.Surface)
      → InStep F L sent u × (left F u ≤ left F s)
      → Once F L (ReceiveKeeps sent) sent s (elim answer [
        | ok surface ↦ deliver_surface F surface u
        | err e ↦
            let (c, verdict) = hw_exit F u.inner (ffmpeg e) in
            elim (receive_status F {A = F.CpuFrame} verdict (phase F u)) [
              | ok received ↦ (with_inner F u c, ok received)
              | err reason ↦
                  (with_inner F u c, err (route F (with_inner F u c) reason candidate_failure))
            ]
      ])
  unfolding phase
  answered-Once sent s u (ok surface) inv = deliver_surface-Once sent surface s u inv
  answered-Once sent s u (err e) inv =
      let (c, verdict) = hw_exit F u.inner (ffmpeg e) in
      received-Once sent s (with_inner F u c) (receive_status F verdict (phase F u))
        (told-hw_exit F L u.inner (ffmpeg e) ∙ inv.0.0, inv.0.1, inv.0.2) inv.1
        (receive_status-Either F F.CpuFrame (Rescues F (sent.0)) verdict (is_some F u.probe)
          u.eof_sent (hw_exit-Rescues F L (sent.0) u.inner (ffmpeg e) tt))

  pub receive_once-Once :
      (sent : Told F.Packet) (s : VideoDecoder F)
      → InStep F L sent s
      → Once F L (ReceiveKeeps sent) sent s (receive_once F s)
  unfolding receive_once hw_receive phase
  receive_once-Once sent s inv =
      let (c, answer) = F.receive_frame s.inner in
      answered-Once sent s (with_inner F s c) answer
        ((L.told_receive s.inner ∙ inv.0, inv.1, inv.2), omega arith)

  abbrev Pops : Told F.Packet → VideoDecoder F → VideoDecoder F × Option F.CpuFrame → Type 0
  Pops sent s (t, none) = InStep F L sent t × (left F t ≤ left F s)
  Pops sent s (t, some frame) = InStep F L sent t × (t.probe ≡ none)

  try_pop_pending-Pops :
      (sent : Told F.Packet) (s : VideoDecoder F)
      → InStep F L sent s
      → Pops sent s (try_pop_pending F s)
  unfolding try_pop_pending
  try_pop_pending-Pops sent s inv = popped s.pending_frames
    where
      popped :
          (frames : List F.CpuFrame)
          → Pops sent s (elim frames [
            | [] ↦ (s, none)
            | (frame ∷ rest) ↦ (record s { pending_frames = rest; probe = none }, some frame)
          ])
      popped [] = (inv, omega arith)
      popped (frame ∷ rest) = ((inv.0, tt, inv.2), refl)

  pub pop_first-Resumes :
      (sent : Told F.Packet) (s : VideoDecoder F)
      → InStep F L sent s
      → Resumes F L (ReceiveKeeps sent) sent s (pop_first F s)
  unfolding pop_first
  pop_first-Resumes sent s inv = popped (try_pop_pending F s) (try_pop_pending-Pops sent s inv)
    where
      popped :
          (r : VideoDecoder F × Option F.CpuFrame)
          → Pops sent s r
          → Resumes F L (ReceiveKeeps sent) sent s (r.0, Option.map produced r.1)
      popped (t, some frame) h = h
      popped (t, none) h = h
