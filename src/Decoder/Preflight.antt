-- ===== src/Decoder/Preflight.antt =====
-- A failed submission, and the pre-flight of a packet (mediadecode-ffmpeg/src/decoder/mod.rs).
use mediadecode.Base.{
  ℕ, ◌≤◌, ◌≡◌, refl, sym, ◌∙◌, subst, Bool, true, false, Option, none, some, arith, ltb, Result, ok,
  err,
}
use mediadecode.Decoder.Libav.{AvError, ffmpeg, Libav}
use mediadecode.Decoder.Phase.{
  Sent, reported, candidate_failure, HwRoute, Failure, is_transient, send_status,
}
use mediadecode.Decoder.Footprint.{packet_side_data_count}
use mediadecode.Decoder.Session.{
  ProbeState, VideoDecoder, is_some, phase, hw_exit, with_inner, hw_send, route, hw_failure,
}
use mediadecode.Decoder.Calls.{
  max_probe_packet_side_data_entries, give_up, stage_copy, preflight, failed_send,
}
use mediadecode.Decoder.Promises.{Told, OnOk, Promises}
use mediadecode.Decoder.Rescue.{
  Rescues, Buffers, left, InStep, told-hw_exit, hw_exit-Rescues, Routed, route-Routed,
}
use mediadecode.Decoder.Verdict.{Either, IsDrain, send_status-Either}

module _ (F : Libav) (L : Promises F) where
  -- A failed submission: the history stands, and the caller is told to drain, or a verdict goes
  -- where it should.
  abbrev pub FailsSend :
      Told F.Packet → VideoDecoder F → VideoDecoder F × Result (HwRoute (Failure F)) Sent → Type 0
  FailsSend sent s (t, ok answer) = InStep F L sent t × IsDrain t.eof_sent answer
  FailsSend sent s (t, err to) = InStep F L sent t × Routed F L sent t to × (left F t ≡ left F s)

  FailsSend-status :
      (s t : VideoDecoder F) (sent : Told F.Packet) (r : Result (Failure F) Sent)
      → InStep F L sent t
      → left F t ≡ left F s
      → Either (Rescues F (sent.0)) (IsDrain t.eof_sent) r
      → FailsSend sent s (elim r [
        | ok answer ↦ (t, ok answer)
        | err reason ↦ (t, err (route F t reason reported))
      ])
  FailsSend-status s t sent (ok answer) inv same h = (inv, h)
  FailsSend-status s t sent (err reason) inv same h =
      (inv, route-Routed F L sent t reason reported h, same)

  FailsSend-on :
      (lasting : Bool) (s t : VideoDecoder F) (sent : Told F.Packet) (verdict : Failure F)
      → InStep F L sent t
      → left F t ≡ left F s
      → Rescues F (sent.0) verdict
      → FailsSend sent s (elim lasting [
        | true ↦ elim (send_status F verdict (phase F t)) [
          | ok answer ↦ (t, ok answer)
          | err reason ↦ (t, err (route F t reason reported))
        ]
        | false ↦ (t, err (route F t verdict candidate_failure))
      ])
  unfolding phase
  FailsSend-on true s t sent verdict inv same rescue =
      FailsSend-status s t sent (send_status F verdict (phase F t)) inv same
        (send_status-Either F (Rescues F (sent.0)) verdict (is_some F t.probe) t.eof_sent rescue)
  FailsSend-on false s t sent verdict inv same rescue =
      (inv, route-Routed F L sent t verdict candidate_failure rescue, same)

  pub failed_send-FailsSend :
      (e : AvError) (s : VideoDecoder F) (sent : Told F.Packet)
      → InStep F L sent s
      → FailsSend sent s (failed_send F e s)
  unfolding failed_send hw_send hw_failure phase
  failed_send-FailsSend e s sent inv =
      let (c, verdict) = hw_exit F s.inner (ffmpeg e) in
      FailsSend-on (is_transient F e) s (with_inner F s c) sent verdict
        (told-hw_exit F L s.inner (ffmpeg e) ∙ inv.0, inv.1, inv.2) refl
        (hw_exit-Rescues F L (sent.0) s.inner (ffmpeg e) tt)

  -- What the pre-flight leaves: the decoder as it was, and a copy that is the packet's while a
  -- backend is on trial.
  abbrev pub Preflighted :
      Told F.Packet
      → F.Packet
      → VideoDecoder F
      → VideoDecoder F × Result (Failure F) (Option (F.Packet × ℕ))
      → Type 0
  Preflighted sent packet s (t, ok none) =
      InStep F L sent t × (t.probe ≡ none) × (left F t ≡ left F s)
  Preflighted sent packet s (t, ok (some (cloned, bytes))) =
      InStep F L sent t × (cloned ≡ packet) × (left F t ≡ left F s)
  Preflighted sent packet s (t, err e) =
      InStep F L sent t × Rescues F (sent.0) e × (left F t ≤ left F s)

  module _ (packet : F.Packet) (s : VideoDecoder F) (sent : Told F.Packet)
      (inv : InStep F L sent s) where
    give_up-Preflighted :
        (p : ProbeState F) (w : F.World)
        → some p ≡ s.probe
        → Preflighted sent packet s (give_up F p (record s { world = w }))
    give_up-Preflighted p w there =
        ((inv.0, tt, inv.2), subst (Buffers F (sent.0)) (sym there) inv.1, omega arith)

    copied-Preflighted :
        (p : ProbeState F) (w : F.World) (bytes : ℕ) (r : Result AvError F.Packet)
        → some p ≡ s.probe
        → OnOk F (λ q. q ≡ packet) r
        → Preflighted sent packet s (elim r [
          | err e ↦ give_up F p (record s { world = w })
          | ok cloned ↦ (record s { world = w }, ok (some (cloned, bytes)))
        ])
    copied-Preflighted p w bytes (ok cloned) there same = (inv, same, refl)
    copied-Preflighted p w bytes (err e) there same = give_up-Preflighted p w there

    capped-Preflighted :
        (p : ProbeState F) (over : Bool)
        (r : VideoDecoder F × Result (Failure F) (Option (F.Packet × ℕ)))
        → some p ≡ s.probe
        → Preflighted sent packet s r
        → Preflighted sent packet s (elim over [ true ↦ give_up F p s | false ↦ r ])
    capped-Preflighted p true r there h = give_up-Preflighted p s.world there
    capped-Preflighted p false r there h = h

    stage_copy-Preflighted :
        (p : ProbeState F) → some p ≡ s.probe → Preflighted sent packet s (stage_copy F p packet s)
    unfolding stage_copy
    stage_copy-Preflighted p there =
        let (w, copy) = F.try_clone_packet packet s.world in
        capped-Preflighted p _ _ there
          (copied-Preflighted p w _ copy there (L.same_packet packet s.world))

    pub preflight-Preflighted : Preflighted sent packet s (preflight F packet s)
    unfolding preflight
    preflight-Preflighted = Preflighted-on s.probe refl
      where
        Preflighted-on :
            (probe : Option (ProbeState F))
            → probe ≡ s.probe
            → Preflighted sent packet s (elim probe [
              | none ↦ (s, ok none)
              | some p ↦
                  elim (ltb max_probe_packet_side_data_entries (packet_side_data_count F packet)) [
                    | true ↦ give_up F p s
                    | false ↦ stage_copy F p packet s
                  ]
            ])
        Preflighted-on none gone = (inv, sym gone, refl)
        Preflighted-on (some p) there =
            capped-Preflighted p _ _ there (stage_copy-Preflighted p there)
