-- ===== src/Decoder/Queue.antt =====
-- The frames queued in a replay stay within the caps on their number and bytes
-- (mediadecode-ffmpeg/src/decoder/mod.rs, `drain_into_pending`).
use mediadecode.Base.{
  ℕ, zero, suc, ◌+◌, ◌≤◌, ◌<◌, ◌≡◌, refl, inl, inr, Bool, true, false, ◌||◌, Option, none, some,
  List, [], ◌∷◌, ◌++◌, arith, ltb, leb, Bool-cases, Option-cases, u64_max, saturating_add, length,
  length-append, Returns, OnSome, OnSome-bind, Result, ok, err,
}
use mediadecode.Decoder.Libav.{AvError, other, Libav}
use mediadecode.Decoder.Footprint.{
  judge_hw_transfer, estimate_transfer_bytes, cpu_frame_bytes, sum_side_data_bytes,
}
use mediadecode.Decoder.Replay.{
  max_probe_pending_frames, Caps, Candidate, queue_download, admit_frame, queue_sized,
  size_download, drain_into_pending, offer, replay_packets, replay,
}
use mediadecode.Decoder.Promises.{OnOk, Promises}
use mediadecode.Decoder.Phase.{is_eagain}
use mediadecode.Decoder.Feeding.{Result-split, replay-Heard}

module _ (F : Libav) (caps : Caps F) where
  -- A frame whose size cannot be told counts as more than any `usize`.
  abbrev cost : Option ℕ → ℕ
  cost none = suc u64_max
  cost (some bytes) = bytes

  abbrev pub total : List F.CpuFrame → ℕ
  total [] = 0
  total (frame ∷ frames) = cost (cpu_frame_bytes F frame) + total frames

  total-snoc :
      (frames : List F.CpuFrame) (frame : F.CpuFrame)
      → total (frames ++ (frame ∷ [])) ≡ total frames + cost (cpu_frame_bytes F frame)
  total-snoc [] frame = omega arith
  total-snoc (f ∷ fs) frame = omega (arith, total-snoc fs frame)

  abbrev pub Fits : Candidate F → Type 0
  Fits c =
      (length c.pending ≤ max_probe_pending_frames)
      × (total c.pending ≤ c.pending_bytes)
      × (c.pending_bytes ≤ caps.max_bytes)

  abbrev pub FitsAfter : Candidate F × Option AvError → Type 0
  FitsAfter r = Fits r.0

  -- A refusal or what follows where there is none.
  unless-Fits :
      (refused : Bool) (r r' : Candidate F × Option AvError)
      → FitsAfter r
      → (refused ≡ false → FitsAfter r')
      → FitsAfter (elim refused [ true ↦ r | false ↦ r' ])
  unless-Fits true r r' h h' = h
  unless-Fits false r r' h h' = h' refl

  when-Fits :
      (allowed : Bool) (r r' : Candidate F × Option AvError)
      → FitsAfter r
      → (allowed ≡ true → FitsAfter r')
      → FitsAfter (elim allowed [ false ↦ r | true ↦ r' ])
  when-Fits false r r' h h' = h
  when-Fits true r r' h h' = h' refl

  module _ (L : Promises F) (narrow : caps.max_bytes < u64_max) where
    copied-Fits :
        (cpu : F.CpuFrame) (pixel_bytes new_total : ℕ) (c : Candidate F)
        (r : F.World × Result AvError F.CpuFrame)
        → length c.pending < max_probe_pending_frames
        → Fits c
        → cpu_frame_bytes F cpu ≡ some pixel_bytes
        → c.pending_bytes + pixel_bytes ≤ new_total
        → new_total ≤ caps.max_bytes
        → OnOk F (λ cpu'. cpu_frame_bytes F cpu' ≡ cpu_frame_bytes F cpu) r.1
        → FitsAfter (elim (r.1) [
          | err e ↦ (record c { world = r.0 }, some e)
          | ok cpu' ↦ (
            record c { pending = c.pending ++ (cpu' ∷ []); pending_bytes = new_total; world = r.0 },
            none,
          )
        ])
    copied-Fits cpu pixel_bytes new_total c (w, ok cpu') below fits sized covers under same = (
      omega (arith, length-append c.pending (cpu' ∷ []), below),
      rw (total-snoc c.pending cpu', same, sized) (omega (arith, fits.1, covers)),
      under,
    )
    copied-Fits cpu pixel_bytes new_total c (w, err e) below fits sized covers under same = fits

    queue_sized-Fits :
        (surface : F.Surface) (cpu : F.CpuFrame) (pixel_bytes : ℕ) (c : Candidate F)
        → length c.pending < max_probe_pending_frames
        → Fits c
        → cpu_frame_bytes F cpu ≡ some pixel_bytes
        → FitsAfter (queue_sized F caps surface cpu pixel_bytes c)
    unfolding queue_sized
    queue_sized-Fits surface cpu pixel_bytes c below fits sized =
        let side = sum_side_data_bytes F surface in
        let covered = saturating_add u64_max c.pending_bytes pixel_bytes in
        let new_total = saturating_add u64_max covered side in
        unless-Fits (ltb caps.max_bytes new_total) (c, some (other F.enomem)) _ fits
          (λ under.
            copied-Fits cpu pixel_bytes new_total c (F.copy_frame_props cpu surface c.world) below
              fits sized (ground (arith, narrow, under)) (ground (arith, under))
              (L.same_buffers cpu surface c.world))

    size_download-Fits :
        (surface : F.Surface) (cpu : F.CpuFrame) (c : Candidate F)
        → length c.pending < max_probe_pending_frames
        → Fits c
        → FitsAfter (size_download F caps surface cpu c)
    unfolding size_download
    size_download-Fits surface cpu c below fits =
        when-Fits (F.is_supported_cpu_pix_fmt cpu) (c, some (other F.einval)) _ fits
          (λ _. sized (cpu_frame_bytes F cpu) refl)
      where
        sized :
            (bytes : Option ℕ)
            → cpu_frame_bytes F cpu ≡ bytes
            → FitsAfter (elim bytes [
              | none ↦ (c, some (other F.enomem))
              | some pixel_bytes ↦ queue_sized F caps surface cpu pixel_bytes c
            ])
        sized none known = fits
        sized (some pixel_bytes) known = queue_sized-Fits surface cpu pixel_bytes c below fits known

    queue_download-Fits :
        (surface : F.Surface) (c : Candidate F)
        → length c.pending < max_probe_pending_frames
        → Fits c
        → FitsAfter (queue_download F caps surface c)
    unfolding queue_download
    queue_download-Fits surface c below fits =
        let (w1, allocated) = F.alloc_av_frame c.world in
        let (w2, downloaded) = F.transfer_data surface w1 in on w1 allocated w2 downloaded
      where
        on :
            (w1 : F.World) (allocated : Option AvError) (w2 : F.World)
            (downloaded : Result AvError F.CpuFrame)
            → FitsAfter (elim allocated [
              | some e ↦ (record c { world = w1 }, some e)
              | none ↦ elim downloaded [
                | err e ↦ (record c { world = w2 }, some e)
                | ok cpu ↦ size_download F caps surface cpu (record c { world = w2 })
              ]
            ])
        on w1 (some e) w2 downloaded = fits
        on w1 none w2 (err e) = fits
        on w1 none w2 (ok cpu) = size_download-Fits surface cpu (record c { world = w2 }) below fits

    admit_frame-Fits :
        (surface : F.Surface) (c : Candidate F) → Fits c → FitsAfter (admit_frame F caps surface c)
    unfolding admit_frame
    admit_frame-Fits surface c fits =
        unless-Fits
          (leb max_probe_pending_frames (length c.pending) || leb caps.max_bytes c.pending_bytes)
          (c, some (other F.enomem)) _ fits
          (λ below. estimated (estimate_transfer_bytes F surface) (ground (arith, below)))
      where
        judged :
            (refused : Option (ℕ × ℕ))
            → length c.pending < max_probe_pending_frames
            → FitsAfter (elim refused [
              | some refusal ↦ (c, some (other F.einval))
              | none ↦ queue_download F caps surface c
            ])
        judged (some refusal) below = fits
        judged none below = queue_download-Fits surface c below fits

        estimated :
            (bytes : Option ℕ)
            → length c.pending < max_probe_pending_frames
            → FitsAfter (elim bytes [
              | none ↦ (c, some (other F.enomem))
              | some estimated_bytes ↦
                  elim (ltb caps.max_bytes
                    (saturating_add u64_max c.pending_bytes estimated_bytes)) [
                      | true ↦ (c, some (other F.enomem))
                      | false ↦ elim (judge_hw_transfer F surface caps.max_frame_bytes) [
                        | some refusal ↦ (c, some (other F.einval))
                        | none ↦ queue_download F caps surface c
                      ]
                    ]
            ])
        estimated none below = fits
        estimated (some bytes) below =
            unless-Fits (ltb caps.max_bytes (saturating_add u64_max c.pending_bytes bytes))
              (c, some (other F.enomem)) _ fits
              (λ _. judged (judge_hw_transfer F surface caps.max_frame_bytes) below)

    -- A step that goes on unless it failed.
    proceed-Fits :
        (r : Candidate F × Option AvError)
        (next : Candidate F → Option (Candidate F × Option AvError))
        → FitsAfter r
        → ((c : Candidate F) → Fits c → OnSome FitsAfter (next c))
        → OnSome FitsAfter (elim (r.1) [ some e ↦ some (r.0, some e) | none ↦ next (r.0) ])
    proceed-Fits (c, some e) next h g = h
    proceed-Fits (c, none) next h g = g c h

    drain_into_pending-Fits :
        (fuel : ℕ) (c : Candidate F) → Fits c → OnSome FitsAfter (drain_into_pending F caps fuel c)
    unfolding drain_into_pending
    drain_into_pending-Fits zero c fits = tt
    drain_into_pending-Fits (suc fuel) c fits =
        let c1 : Candidate F = record c { inner = (F.receive_frame c.inner).0 } in
        elim (Result-split (F.receive_frame c.inner).1) [
          | inr (e, answered) ↦ rw (answered, OnSome) fits
          | inl (surface, answered) ↦
              rw (answered, OnSome)
                (proceed-Fits (admit_frame F caps surface c1) (drain_into_pending F caps fuel)
                  (admit_frame-Fits surface c1 fits) (drain_into_pending-Fits fuel))
        ]

    offer-Fits :
        (send : F.Context → F.Context × Option AvError) (rounds : ℕ) (c : Candidate F)
        → Fits c
        → OnSome FitsAfter (offer F caps send rounds c)
    unfolding offer
    offer-Fits send zero c fits = tt
    offer-Fits send (suc rounds) c fits =
        let c1 : Candidate F = record c { inner = (send c.inner).0 } in
        elim (Option-cases (send c.inner).1) [
          | inl answered ↦ rw (answered, OnSome) fits
          | inr (e, answered) ↦ elim (Bool-cases (is_eagain F e)) [
            | inr lasting ↦ rw (answered, lasting, OnSome) fits
            | inl again ↦
                rw (answered, again, OnSome)
                  (OnSome-bind FitsAfter FitsAfter
                    (drain_into_pending F caps (suc max_probe_pending_frames) c1) _
                    (drain_into_pending-Fits (suc max_probe_pending_frames) c1 fits)
                    (λ r h. proceed-Fits r (offer F caps send rounds) h (offer-Fits send rounds)))
          ]
        ]

    replay_packets-Fits :
        (rounds : ℕ) (packets : List F.Packet) (c : Candidate F)
        → Fits c
        → OnSome FitsAfter (replay_packets F caps rounds packets c)
    unfolding replay_packets
    replay_packets-Fits rounds [] c fits = fits
    replay_packets-Fits rounds (kept ∷ packets) c fits =
        let c1 : Candidate F = record c { world = (F.try_clone_packet kept c.world).0 } in
        elim (Result-split (F.try_clone_packet kept c.world).1) [
          | inr (e, copied) ↦ rw (copied, OnSome) fits
          | inl (pkt, copied) ↦
              rw (copied, OnSome)
                (OnSome-bind FitsAfter FitsAfter (offer F caps (F.send_packet pkt) rounds c1) _
                  (offer-Fits (F.send_packet pkt) rounds c1 fits)
                  (λ r h.
                    proceed-Fits r (replay_packets F caps rounds packets) h
                      (replay_packets-Fits rounds packets)))
        ]

    -- A replay, if it ends.
    replayed-Fits :
        (rounds : ℕ) (eof_sent : Bool) (packets : List F.Packet) (c : Candidate F)
        → Fits c
        → OnSome FitsAfter (replay F caps rounds eof_sent packets c)
    unfolding replay
    replayed-Fits rounds eof_sent packets c fits =
        OnSome-bind FitsAfter FitsAfter (replay_packets F caps rounds packets c) _
          (replay_packets-Fits rounds packets c fits)
          (λ r h.
            proceed-Fits r
              (λ d. elim eof_sent [
                | true ↦ offer F caps F.send_eof rounds d
                | false ↦ some (d, none)
              ])
              h (λ d fits'. end eof_sent d fits'))
      where
        end :
            (eof_sent : Bool) (d : Candidate F)
            → Fits d
            → OnSome FitsAfter
                (elim eof_sent [ true ↦ offer F caps F.send_eof rounds d | false ↦ some (d, none) ])
        end true d fits' = offer-Fits F.send_eof rounds d fits'
        end false d fits' = fits'

    ended-Fits :
        (P : Candidate F × Option AvError → Type 0) (m : Option (Candidate F × Option AvError))
        → Returns P m
        → OnSome FitsAfter m
        → Returns FitsAfter m
    ended-Fits P none ends h = ends
    ended-Fits P (some r) ends h = h

    -- A replay that starts with a queue within its caps ends, for two rounds or more, though the
    -- candidate may answer that it must be drained first, and it ends with a queue within its caps,
    -- whatever the candidate answers and whether or not the replay fails: at most 16 frames, whose
    -- buffers take at most the bytes charged, which are at most the decoder's cap, if that is below
    -- the last `usize`.
    pub replay-Fits :
        (rounds : ℕ) (eof_sent : Bool) (packets : List F.Packet) (c : Candidate F)
        → Fits c
        → Returns FitsAfter (replay F caps (suc (suc rounds)) eof_sent packets c)
    replay-Fits rounds eof_sent packets c fits =
        ended-Fits _ (replay F caps (suc (suc rounds)) eof_sent packets c)
          (replay-Heard F caps L rounds eof_sent packets c fits.0)
          (replayed-Fits (suc (suc rounds)) eof_sent packets c fits)
