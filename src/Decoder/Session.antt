-- ===== src/Decoder/Session.antt =====
-- The state of `VideoDecoder` and its probe, the funnels that read an error, and the advance of the
-- probe (mediadecode-ffmpeg/src/decoder/mod.rs). `hw_frame` is a scratch buffer that no call reads
-- from another, and has no field here.
use mediadecode.Base.{
  ℕ, Bool, true, false, Option, none, some, List, [], ◌∷◌, ◌++◌, Result, ok, err, ◌>>=◌,
}
use mediadecode.Decoder.Libav.{
  AvError, ffmpeg, hw_surface_too_large, frame_budget_exceeded, all_backends_failed, Attempts,
  attempt, Libav,
}
use mediadecode.Decoder.Phase.{
  SessionPhase, phase_of, Received, Sent, BareVerdict, HwRoute, hw_route, Failure, receive_status,
  send_status,
}
use mediadecode.Decoder.Replay.{Caps, Candidate, replay}

-- `ProbeState`, but for the parameters and the codec that every candidate is built from.
pub record ProbeState (F : Libav) : Type 0 where
  pub remaining_backends : List F.Backend
  pub buffered_packets : List F.Packet
  pub buffered_bytes : ℕ
  pub attempts : Attempts F.Backend F.Packet F.Detail

pub record VideoDecoder (F : Libav) : Type 0 where
  pub inner : F.Context
  pub backend : F.Backend
  pub probe : Option (ProbeState F)
  pub pending_frames : List F.CpuFrame
  pub caps : Caps F
  pub eof_sent : Bool
  pub scaled_output : F.ScaledOutput
  pub world : F.World

module _ (F : Libav) where
  abbrev pub is_some : {A : Type 0} → Option A → Bool
  is_some none = false
  is_some (some a) = true

  unfoldable pub phase : VideoDecoder F → SessionPhase
  unfolding phase_of
  phase s = phase_of (is_some s.probe) s.eof_sent

  unfoldable pub ceiling_declination_of : F.Context → F.Context × Option (Failure F)
  ceiling_declination_of c =
      let (c', taken) = F.take_ceiling_declination c in
      elim taken [
        | none ↦ (c', none)
        | some (pixels, limit) ↦ (c', some (hw_surface_too_large pixels limit))
      ]

  unfoldable pub frame_budget_declination_of : F.Context → F.Context × Option (Failure F)
  frame_budget_declination_of c =
      let (c', taken) = F.take_frame_budget_declination c in
      elim taken [
        | none ↦ (c', none)
        | some refusal ↦ (c', some (frame_budget_exceeded (refusal.0) (refusal.1) (refusal.2)))
      ]

  -- The funnel: what the callbacks left behind, or else the error that there is.
  unfoldable pub hw_exit : F.Context → Failure F → F.Context × Failure F
  unfolding ceiling_declination_of frame_budget_declination_of
  hw_exit c fallback =
      let (c1, ceiling) = ceiling_declination_of c in
      elim ceiling [
        | some e ↦ (c1, e)
        | none ↦
            let (c2, budget) = frame_budget_declination_of c1 in
            elim budget [ some e ↦ (c2, e) | none ↦ (c2, fallback) ]
      ]

  abbrev pub with_inner : VideoDecoder F → F.Context → VideoDecoder F
  with_inner s c = record s { inner = c }

  unfoldable pub hw_receive :
      {A : Type 0} → AvError → VideoDecoder F → VideoDecoder F × Result (Failure F) (Received A)
  unfolding hw_exit phase receive_status
  hw_receive e s =
      let (c, verdict) = hw_exit s.inner (ffmpeg e) in
      (with_inner s c, receive_status F verdict (phase s))

  unfoldable pub hw_send : AvError → VideoDecoder F → VideoDecoder F × Result (Failure F) Sent
  unfolding hw_exit phase send_status
  hw_send e s =
      let (c, verdict) = hw_exit s.inner (ffmpeg e) in
      (with_inner s c, send_status F verdict (phase s))

  unfoldable pub route : VideoDecoder F → Failure F → BareVerdict → HwRoute (Failure F)
  unfolding hw_route
  route s reason bare = hw_route (is_some s.probe) reason bare

  unfoldable pub hw_failure :
      AvError → BareVerdict → VideoDecoder F → VideoDecoder F × HwRoute (Failure F)
  unfolding hw_exit route
  hw_failure e bare s =
      let (c, verdict) = hw_exit s.inner (ffmpeg e) in (with_inner s c, route s verdict bare)

  -- The first of the remaining backends leaves them, with its error on the log.
  abbrev pub drop_candidate : ProbeState F → F.Backend → List F.Backend → Failure F → ProbeState F
  drop_candidate p b bs e = record p { remaining_backends = bs; attempts = attempt p.attempts b e }

  -- The commit of a candidate whose replay ended well.
  unfoldable pub commit :
      F.Backend → List F.Backend → ProbeState F → Candidate F → VideoDecoder F → VideoDecoder F
  commit b bs p c s = record s {
    inner = c.inner;
    backend = b;
    scaled_output = F.retire s.scaled_output;
    pending_frames = s.pending_frames ++ c.pending;
    probe = some (record p { remaining_backends = bs });
    world = c.world;
  }

  -- The loop of `advance_probe_with` over `remaining_backends`, which is its first argument: none is
  -- a candidate installed, and an error is what the caller is told.
  unfoldable pub try_candidates :
      ℕ
      → List F.Backend
      → ProbeState F
      → VideoDecoder F
      → Option (VideoDecoder F × Option (Failure F))
  unfolding replay commit ceiling_declination_of
  try_candidates rounds [] p s =
      some (record s { probe = none }, some (all_backends_failed p.attempts p.buffered_packets))
  try_candidates rounds (b ∷ bs) p s =
      let (w1, cloned) = F.try_clone_parameters s.world in
      elim cloned [
        | err e ↦ try_candidates rounds bs (drop_candidate p b bs e) (record s { world = w1 })
        | ok parameters ↦
            let (w2, built) = F.build_state b w1 in
            elim built [
              | err e ↦ try_candidates rounds bs (drop_candidate p b bs e) (record s { world = w2 })
              | ok candidate ↦
                  let (w3, allocated) = F.alloc_av_frame w2 in
                  elim allocated [
                    | some e ↦ some (record s { probe = some p; world = w3 }, some (ffmpeg e))
                    | none ↦
                        replay F s.caps rounds s.eof_sent p.buffered_packets (record {
                          inner = candidate;
                          pending = [];
                          pending_bytes = 0;
                          world = w3;
                        })
                        >>= λ (c, failed). elim failed [
                          | none ↦ some (commit b bs p c s, none)
                          | some e ↦
                              let (_, declined) = ceiling_declination_of c.inner in
                              try_candidates rounds bs
                                (drop_candidate p b bs
                                  (elim declined [ some reason ↦ reason | none ↦ ffmpeg e ]))
                                (record s { world = c.world })
                        ]
                  ]
            ]
      ]

  -- `advance_probe`: the failure of the active backend goes on the log first.
  unfoldable pub advance_probe :
      ℕ → Failure F → VideoDecoder F → Option (VideoDecoder F × Option (Failure F))
  unfolding hw_exit try_candidates
  advance_probe rounds last_error s =
      let (c, e) = hw_exit s.inner last_error in
      let s1 = with_inner s c in
      elim s.probe [
        | none ↦ some (s1, some e)
        | some p ↦
            let p1 : ProbeState F = record p { attempts = attempt p.attempts s.backend e } in
            try_candidates rounds p.remaining_backends p1
              (record s1 { probe = some p1; pending_frames = [] })
      ]
