-- ===== src/Decoder/Rescue.antt =====
-- The probe keeps what the active backend has been told, and hands it to the next one
-- (mediadecode-ffmpeg/src/decoder/mod.rs).
use mediadecode.Base.{
  ℕ, suc, ◌≤◌, ◌<◌, ◌≡◌, refl, sym, ap, ◌∙◌, subst, inl, inr, Bool, true, false, ◌&&◌, Option, none,
  some, List, [], ◌∷◌, arith, if◌then◌else◌, Option-cases, length, Returns, Returns-bind, Result,
  err,
}
use mediadecode.Decoder.Libav.{AvError, ffmpeg, all_backends_failed, Libav}
use mediadecode.Decoder.Phase.{
  BareVerdict, HwRoute, report, advance, fails_candidate, verdict_routing, hw_route, Failure,
}
use mediadecode.Decoder.Calls.{Answer, follow}
use mediadecode.Decoder.Replay.{Candidate, replay}
use mediadecode.Decoder.Session.{
  ProbeState, VideoDecoder, is_some, ceiling_declination_of, frame_budget_declination_of, hw_exit,
  drop_candidate, commit, try_candidates, advance_probe, route,
}
use mediadecode.Decoder.Promises.{Told, hear_history, hear_history-fresh, OnOk, Promises}
use mediadecode.Decoder.Feeding.{Result-split, Heard, replay-Heard}

module _ (F : Libav) where
  -- The packets that an error hands back are the ones accepted.
  abbrev pub Rescues : List F.Packet → Failure F → Type 0
  Rescues sent (all_backends_failed log unconsumed) = unconsumed ≡ sent
  Rescues sent e = Unit

  abbrev pub Buffers : List F.Packet → Option (ProbeState F) → Type 0
  Buffers sent none = Unit
  Buffers sent (some p) = p.buffered_packets ≡ sent

  -- The backends that are left to try.
  abbrev pub left_of : Option (ProbeState F) → ℕ
  left_of none = 0
  left_of (some p) = length p.remaining_backends

  abbrev pub left : VideoDecoder F → ℕ
  left s = left_of s.probe

  module _ (L : Promises F) where
    -- The active backend has been told what the caller was told is accepted, and so has the probe.
    abbrev pub InStep : Told F.Packet → VideoDecoder F → Type 0
    InStep sent s =
        (L.told s.inner ≡ (sent.0, s.eof_sent)) × Buffers (sent.0) s.probe × (s.eof_sent ≡ sent.1)

    -- What a step of an advance leaves alone.
    abbrev Knows : Told F.Packet → VideoDecoder F → Type 0
    Knows sent s = (L.told s.inner ≡ (sent.0, s.eof_sent)) × (s.eof_sent ≡ sent.1)

    told-ceiling_declination_of : (c : F.Context) → L.told (ceiling_declination_of F c).0 ≡ L.told c
    unfolding ceiling_declination_of
    told-ceiling_declination_of c = ground (arith, L.told_ceiling c)

    told-frame_budget_declination_of :
        (c : F.Context) → L.told (frame_budget_declination_of F c).0 ≡ L.told c
    unfolding frame_budget_declination_of
    told-frame_budget_declination_of c = ground (arith, L.told_budget c)

    pub told-hw_exit : (c : F.Context) (e : Failure F) → L.told (hw_exit F c e).0 ≡ L.told c
    unfolding hw_exit
    told-hw_exit c e = ground (
      arith,
      told-ceiling_declination_of c,
      told-frame_budget_declination_of (ceiling_declination_of F c).0,
    )

    pub hw_exit-Rescues :
        (sent : List F.Packet) (c : F.Context) (e : Failure F)
        → Rescues sent e
        → Rescues sent (hw_exit F c e).1
    unfolding hw_exit ceiling_declination_of frame_budget_declination_of
    hw_exit-Rescues sent c e h = ground arith

    -- An advance that fails hands the history back; one that succeeds leaves fewer backends.
    abbrev pub Advanced : Told F.Packet → ℕ → VideoDecoder F × Option (Failure F) → Type 0
    Advanced sent most (s, none) = InStep sent s × (left s < most)
    Advanced sent most (s, some e) = InStep sent s × Rescues (sent.0) e

    -- A candidate whose replay ended well is installed as told; another is dropped.
    after_replay-Advanced :
        (rounds : ℕ) (b : F.Backend) (bs : List F.Backend) (p : ProbeState F) (s : VideoDecoder F)
        (sent : Told F.Packet) (most : ℕ) (c : Candidate F) (r : Candidate F × Option AvError)
        → p.buffered_packets ≡ sent.0
        → Knows sent s
        → length bs < most
        → L.told c.inner ≡ ([], false)
        → ((q : ProbeState F) (t : VideoDecoder F)
            → q.buffered_packets ≡ sent.0
            → Knows sent t
            → Returns (Advanced sent most) (try_candidates F rounds bs q t))
        → Heard F s.caps L (hear_history s.eof_sent p.buffered_packets) c r
        → Returns (Advanced sent most) (elim (r.1) [
          | none ↦ some (commit F b bs p (r.0) s, none)
          | some e ↦
              try_candidates F rounds bs
                (drop_candidate F p b bs (elim ((ceiling_declination_of F (r.0).inner).1) [
                  | none ↦ ffmpeg e
                  | some reason ↦ reason
                ]))
                (record s { world = (r.0).world })
        ])
    unfolding commit
    after_replay-Advanced rounds b bs p s sent most c (d, none) buffered told fewer fresh rest h = (
      (
        h.0
            ∙ ap (hear_history s.eof_sent p.buffered_packets) fresh
            ∙ hear_history-fresh s.eof_sent p.buffered_packets
            ∙ ap (λ l. (l, s.eof_sent)) buffered,
        buffered,
        told.1,
      ),
      fewer,
    )
    after_replay-Advanced rounds b bs p s sent most c (d, some e) buffered told fewer fresh rest h =
        rest _ _ buffered told

    try_candidates-Advanced :
        (rounds : ℕ) (bs : List F.Backend) (p : ProbeState F) (s : VideoDecoder F)
        (sent : Told F.Packet) (most : ℕ)
        → p.buffered_packets ≡ sent.0
        → Knows sent s
        → length bs ≤ most
        → Returns (Advanced sent most) (try_candidates F (suc (suc rounds)) bs p s)
    unfolding try_candidates
    try_candidates-Advanced rounds [] p s sent most buffered told fewer =
        ((told.0, tt, told.1), buffered)
    try_candidates-Advanced rounds (b ∷ bs) p s sent most buffered told fewer =
        let w1 = (F.try_clone_parameters s.world).0 in
        let w2 = (F.build_state b w1).0 in
        let w3 = (F.alloc_av_frame w2).0 in
        elim (Result-split (F.try_clone_parameters s.world).1) [
          | inr (e, cloned) ↦
              rw (cloned, Returns)
                (try_candidates-Advanced rounds bs (drop_candidate F p b bs e)
                  (record s { world = w1 }) sent most buffered told (omega (arith, fewer)))
          | inl (parameters, cloned) ↦ elim (Result-split (F.build_state b w1).1) [
            | inr (e, built) ↦
                rw (cloned, built, Returns)
                  (try_candidates-Advanced rounds bs (drop_candidate F p b bs e)
                    (record s { world = w2 }) sent most buffered told (omega (arith, fewer)))
            | inl (candidate, built) ↦ elim (Option-cases (F.alloc_av_frame w2).1) [
              | inr (e, allocated) ↦
                  rw (cloned, built, allocated, Returns) ((told.0, buffered, told.1), tt)
              | inl allocated ↦
                  let c : Candidate F = record {
                    inner = candidate;
                    pending = [];
                    pending_bytes = 0;
                    world = w3;
                  } in
                  rw (cloned, built, allocated, Returns)
                    (Returns-bind (Heard F s.caps L (hear_history s.eof_sent p.buffered_packets) c)
                      (Advanced sent most)
                      (replay F s.caps (suc (suc rounds)) s.eof_sent p.buffered_packets c) _
                      (replay-Heard F s.caps L rounds s.eof_sent p.buffered_packets c (omega arith))
                      (λ r.
                        after_replay-Advanced (suc (suc rounds)) b bs p s sent most c r buffered
                          told (omega (arith, fewer))
                          (subst (OnOk F (λ d. L.told d ≡ ([], false))) built (L.told_build b w1))
                          (λ q t same known.
                            try_candidates-Advanced rounds bs q t sent most same known
                              (omega (arith, fewer)))))
            ]
          ]
        ]

    advance_probe-Advanced :
        (rounds : ℕ) (e : Failure F) (s : VideoDecoder F) (sent : Told F.Packet) (p : ProbeState F)
        → InStep sent s
        → s.probe ≡ some p
        → Returns
            (Advanced sent (length p.remaining_backends))
            (advance_probe F (suc (suc rounds)) e s)
    unfolding advance_probe
    advance_probe-Advanced rounds e s sent p inv there =
        rw (there, Returns)
          (try_candidates-Advanced rounds p.remaining_backends _ _ sent
            (length p.remaining_backends) (subst (Buffers (sent.0)) there inv.1)
            (told-hw_exit s.inner e ∙ inv.0, inv.2) (omega arith))

    -- A verdict that goes to the caller hands the history back; one goes to the probe only while a
    -- backend is on trial.
    abbrev pub Routed : Told F.Packet → VideoDecoder F → HwRoute (Failure F) → Type 0
    Routed sent s (report e) = Rescues (sent.0) e
    Routed sent s (advance e) = (p : ProbeState F) × (s.probe ≡ some p)

    pub route-Routed :
        (sent : Told F.Packet) (s : VideoDecoder F) (e : Failure F) (bare : BareVerdict)
        → Rescues (sent.0) e
        → Routed sent s (route F s e bare)
    unfolding route hw_route
    route-Routed sent s e bare rescue =
        Routed-if (fails_candidate (verdict_routing e) bare) s.probe refl
      where
        Routed-if :
            (b : Bool) (q : Option (ProbeState F))
            → q ≡ s.probe
            → Routed sent s (if b && is_some F q then advance e else report e)
        Routed-if true (some p) same = (p, sym same)
        Routed-if true none same = rescue
        Routed-if false (some p) same = rescue
        Routed-if false none same = rescue

    -- The calls end with what `Q` says of them when what follows an advance does.
    pub follow-Returns :
        {A : Type 0} (Q : VideoDecoder F × Result (Failure F) A → Type 0) (rounds : ℕ)
        (to : HwRoute (Failure F)) (s : VideoDecoder F) (sent : Told F.Packet)
        (retry : VideoDecoder F → Answer F A)
        → InStep sent s
        → Routed sent s to
        → ((e : Failure F) (t : VideoDecoder F) → InStep sent t → Rescues (sent.0) e → Q (t, err e))
        → ((t : VideoDecoder F) → InStep sent t → left t < left s → Returns Q (retry t))
        → Returns Q (follow F (suc (suc rounds)) to s retry)
    unfolding follow
    follow-Returns Q rounds (report e) s sent retry inv routed failed goes = failed e s inv routed
    follow-Returns Q rounds (advance e) s sent retry inv (p, there) failed goes =
        Returns-bind (Advanced sent (length p.remaining_backends)) Q
          (advance_probe F (suc (suc rounds)) e s) _
          (advance_probe-Advanced rounds e s sent p inv there) (λ r. followed r)
      where
        followed :
            (r : VideoDecoder F × Option (Failure F))
            → Advanced sent (length p.remaining_backends) r
            → Returns Q (elim (r.1) [ some fault ↦ some (r.0, err fault) | none ↦ retry (r.0) ])
        followed (t, none) h = goes t h.0 (subst (λ n. left t < n) (sym (ap left_of there)) h.1)
        followed (t, some fault) h = failed fault t h.0 h.1
