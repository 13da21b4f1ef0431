-- ===== src/Decoder/Feeding.antt =====
-- A candidate's replay ends, and then the candidate has been told the whole history
-- (mediadecode-ffmpeg/src/decoder/mod.rs).
use mediadecode.Base.{
  ℕ, zero, suc, ◌+◌, ◌≤◌, ◌<◌, ◌≡◌, refl, ap, ◌∙◌, subst, ◌⊎◌, inl, inr, Bool, true, false, Option,
  none, some, List, [], ◌∷◌, arith, Bool-cases, Option-cases, length, length-append, Returns,
  Returns-bind, Returns-map, Result, ok, err,
}
use mediadecode.Decoder.Libav.{AvError, Libav}
use mediadecode.Decoder.Phase.{is_eagain, is_transient}
use mediadecode.Decoder.Replay.{
  max_probe_pending_frames, Caps, Candidate, queue_download, admit_frame, drain_into_pending, offer,
  replay_packets, replay,
}
use mediadecode.Decoder.Promises.{
  Told, hear, hear_end, hear_all, hear_history, if_accepted, IsNoAgain, OnOk, Promises,
}

-- Splits that keep the equation.
pub Result-split :
    {E A : Type 0} (r : Result E A) → ((a : A) × (r ≡ ok a)) ⊎ ((e : E) × (r ≡ err e))
Result-split (ok a) = inl (a, refl)
Result-split (err e) = inr (e, refl)

module _ (F : Libav) (caps : Caps F) where
  -- A frame that is queued is one more, and the context is left alone.
  abbrev QueuesOne : Candidate F → Candidate F × Option AvError → Type 0
  QueuesOne c (c', none) = (c'.inner ≡ c.inner) × (length c'.pending ≡ length c.pending + 1)
  QueuesOne c (c', some e) = c'.inner ≡ c.inner

  queue_download-one :
      (surface : F.Surface) (c : Candidate F) → QueuesOne c (queue_download F caps surface c)
  unfolding queue_download
  queue_download-one surface c = grind (arith, length-append)

  -- Within the cap on frames.
  abbrev AdmitsOne : Candidate F → Candidate F × Option AvError → Type 0
  AdmitsOne c (c', none) =
      (c'.inner ≡ c.inner)
      × (length c'.pending ≡ length c.pending + 1)
      × (length c'.pending ≤ max_probe_pending_frames)
  AdmitsOne c (c', some e) = c'.inner ≡ c.inner

  AdmitsOne-of :
      (c : Candidate F) (r : Candidate F × Option AvError)
      → length c.pending < max_probe_pending_frames
      → QueuesOne c r
      → AdmitsOne c r
  AdmitsOne-of c (c', none) below h = (h.0, h.1, omega (arith, h.1))
  AdmitsOne-of c (c', some e) below h = h

  admit_frame-one :
      (surface : F.Surface) (c : Candidate F) → AdmitsOne c (admit_frame F caps surface c)
  unfolding admit_frame
  admit_frame-one surface c = ground (arith, AdmitsOne-of c, queue_download-one surface c)

  module _ (L : Promises F) where
    -- A context that takes whatever it is sent next.
    abbrev IsReady : F.Context → Type 0
    IsReady d = ((p : F.Packet) → IsNoAgain F (F.send_packet p d).1) × IsNoAgain F (F.send_eof d).1

    abbrev pub IsWithin : Candidate F → Type 0
    IsWithin c = length c.pending ≤ max_probe_pending_frames

    -- A drain that ends well leaves the context as told as it was, and ready.
    abbrev Drained : Candidate F → Candidate F × Option AvError → Type 0
    Drained c (c', none) = (L.told c'.inner ≡ L.told c.inner) × IsReady c'.inner × IsWithin c'
    Drained c (c', some e) = Unit

    -- A drain from a candidate told as much goes for this one.
    Drained-from :
        (c d : Candidate F) (r : Candidate F × Option AvError)
        → L.told d.inner ≡ L.told c.inner
        → Drained d r
        → Drained c r
    Drained-from c d (c', none) same h = (h.0 ∙ same, h.1, h.2)
    Drained-from c d (c', some e) same h = tt

    drain_rest-Drained :
        (fuel : ℕ) (c : Candidate F) (r : Candidate F × Option AvError)
        → AdmitsOne c r
        → ((d : Candidate F)
            → IsWithin d
            → max_probe_pending_frames < fuel + length d.pending
            → Returns (Drained d) (drain_into_pending F caps fuel d))
        → max_probe_pending_frames < suc fuel + length c.pending
        → Returns (Drained c) (elim (r.1) [
          | some e ↦ some (r.0, some e)
          | none ↦ drain_into_pending F caps fuel (r.0)
        ])
    drain_rest-Drained fuel c (d, none) one rest enough =
        Returns-map (Drained d) (Drained c) (drain_into_pending F caps fuel d)
          (rest d one.2 (omega (arith, one.1, enough)))
          (λ r h. Drained-from c d r (ap L.told one.0) h)
    drain_rest-Drained fuel c (d, some e) one rest enough = tt

    drain_into_pending-Drained :
        (fuel : ℕ) (c : Candidate F)
        → IsWithin c
        → max_probe_pending_frames < fuel + length c.pending
        → Returns (Drained c) (drain_into_pending F caps fuel c)
    unfolding drain_into_pending
    drain_into_pending-Drained zero c within enough = absurd (omega (arith, within, enough))
    drain_into_pending-Drained (suc fuel) c within enough =
        elim (Result-split (F.receive_frame c.inner).1) [
          | inr (e, answered) ↦ elim (Bool-cases (is_transient F e)) [
            | inl t ↦
                rw (answered, t, Returns)
                  (
                    L.told_receive c.inner,
                    ((λ p. L.send_ready c.inner e answered t p), L.eof_ready c.inner e answered t),
                    within,
                  )
            | inr t ↦ rw (answered, t, Returns) tt
          ]
          | inl (surface, answered) ↦
              rw (answered, Returns)
                (let c1 : Candidate F = record c { inner = (F.receive_frame c.inner).0 } in
                  Returns-map (Drained c1) (Drained c) _
                    (drain_rest-Drained fuel c1 (admit_frame F caps surface c1)
                      (admit_frame-one surface c1) (drain_into_pending-Drained fuel) enough)
                    (λ r h. Drained-from c c1 r (L.told_receive c.inner) h))
        ]

    -- What is asked of a kind of submission: what the context hears when it is accepted, and that a
    -- drained context takes it.
    abbrev IsHeard :
        (F.Context → F.Context × Option AvError) → (Told F.Packet → Told F.Packet) → Type 0
    IsHeard send heard =
        ((c : F.Context) → L.told (send c).0 ≡ if_accepted heard (send c).1 (L.told c))
        × ((c : F.Context) → IsReady c → IsNoAgain F (send c).1)

    send_packet-IsHeard : (p : F.Packet) → IsHeard (F.send_packet p) (hear p)
    send_packet-IsHeard p = (L.told_send p, λ c ready. ready.0 p)

    send_eof-IsHeard : IsHeard F.send_eof hear_end
    send_eof-IsHeard = (L.told_eof, λ c ready. ready.1)

    -- An offer that ends well has been heard.
    abbrev pub Heard :
        (Told F.Packet → Told F.Packet) → Candidate F → Candidate F × Option AvError → Type 0
    Heard heard c (c', none) = (L.told c'.inner ≡ heard (L.told c.inner)) × IsWithin c'
    Heard heard c (c', some e) = Unit

    -- What is heard after something else was.
    Heard-after :
        (before heard : Told F.Packet → Told F.Packet) (c d : Candidate F)
        (r : Candidate F × Option AvError)
        → L.told d.inner ≡ before (L.told c.inner)
        → Heard heard d r
        → Heard (λ t. heard (before t)) c r
    Heard-after before heard c d (c', none) same h = (h.0 ∙ ap heard same, h.1)
    Heard-after before heard c d (c', some e) same h = tt

    module _ (send : F.Context → F.Context × Option AvError) (heard : Told F.Packet → Told F.Packet)
        (promise : IsHeard send heard) where
      -- A ready context takes the submission, or fails it for good.
      offer_ready-Heard :
          (rounds : ℕ) (c : Candidate F)
          → IsWithin c
          → IsReady c.inner
          → Returns (Heard heard c) (offer F caps send (suc rounds) c)
      unfolding offer
      offer_ready-Heard rounds c within ready = elim (Option-cases (send c.inner).1) [
        | inl answered ↦
            rw (answered, Returns)
              (promise.0 c.inner ∙ ap (λ a. if_accepted heard a (L.told c.inner)) answered, within)
        | inr (e, answered) ↦
            rw (answered, subst (IsNoAgain F) answered (promise.1 c.inner ready), Returns) tt
      ]

      offer_rest-Heard :
          (rounds : ℕ) (c d : Candidate F) (r : Candidate F × Option AvError)
          → L.told d.inner ≡ L.told c.inner
          → Drained d r
          → Returns (Heard heard c) (elim (r.1) [
            | some e ↦ some (r.0, some e)
            | none ↦ offer F caps send (suc rounds) (r.0)
          ])
      offer_rest-Heard rounds c d (c', none) same h =
          Returns-map (Heard heard c') (Heard heard c) (offer F caps send (suc rounds) c')
            (offer_ready-Heard rounds c' h.2 h.1)
            (λ r. Heard-after (λ t. t) heard c c' r (h.0 ∙ same))
      offer_rest-Heard rounds c d (c', some e) same h = tt

      offer-Heard :
          (rounds : ℕ) (c : Candidate F)
          → IsWithin c
          → Returns (Heard heard c) (offer F caps send (suc (suc rounds)) c)
      unfolding offer
      offer-Heard rounds c within = elim (Option-cases (send c.inner).1) [
        | inl answered ↦
            rw (answered, Returns)
              (promise.0 c.inner ∙ ap (λ a. if_accepted heard a (L.told c.inner)) answered, within)
        | inr (e, answered) ↦ elim (Bool-cases (is_eagain F e)) [
          | inr other ↦ rw (answered, other, Returns) tt
          | inl again ↦
              let c1 : Candidate F = record c { inner = (send c.inner).0 } in
              let same : L.told c1.inner ≡ L.told c.inner =
                promise.0 c.inner ∙ ap (λ a. if_accepted heard a (L.told c.inner)) answered in
              rw (answered, again, Returns)
                (Returns-bind (Drained c1) (Heard heard c)
                  (drain_into_pending F caps (suc max_probe_pending_frames) c1) _
                  (drain_into_pending-Drained (suc max_probe_pending_frames) c1 within
                    (omega arith))
                  (λ r h. offer_rest-Heard rounds c c1 r same h))
        ]
      ]

    replay_rest-Heard :
        (rounds : ℕ) (kept : F.Packet) (packets : List F.Packet) (c : Candidate F)
        (r : Candidate F × Option AvError)
        → ((d : Candidate F)
            → IsWithin d
            → Returns
                (Heard (hear_all packets) d)
                (replay_packets F caps (suc (suc rounds)) packets d))
        → Heard (hear kept) c r
        → Returns (Heard (hear_all (kept ∷ packets)) c) (elim (r.1) [
          | some e ↦ some (r.0, some e)
          | none ↦ replay_packets F caps (suc (suc rounds)) packets (r.0)
        ])
    replay_rest-Heard rounds kept packets c (d, none) rest h =
        Returns-map (Heard (hear_all packets) d) (Heard (hear_all (kept ∷ packets)) c)
          (replay_packets F caps (suc (suc rounds)) packets d) (rest d h.1)
          (λ r. Heard-after (hear kept) (hear_all packets) c d r h.0)
    replay_rest-Heard rounds kept packets c (d, some e) rest h = tt

    replay_packets-Heard :
        (rounds : ℕ) (packets : List F.Packet) (c : Candidate F)
        → IsWithin c
        → Returns (Heard (hear_all packets) c) (replay_packets F caps (suc (suc rounds)) packets c)
    unfolding replay_packets
    replay_packets-Heard rounds [] c within = (refl, within)
    replay_packets-Heard rounds (kept ∷ packets) c within =
        elim (Result-split (F.try_clone_packet kept c.world).1) [
          | inr (e, copied) ↦ rw (copied, Returns) tt
          | inl (pkt, copied) ↦
              let c1 : Candidate F = record c { world = (F.try_clone_packet kept c.world).0 } in
              let same : pkt ≡ kept =
                subst (OnOk F (λ q. q ≡ kept)) copied (L.same_packet kept c.world) in
              rw (copied, Returns)
                (Returns-bind (Heard (hear pkt) c1) (Heard (hear_all (kept ∷ packets)) c)
                  (offer F caps (F.send_packet pkt) (suc (suc rounds)) c1) _
                  (offer-Heard (F.send_packet pkt) (hear pkt) (send_packet-IsHeard pkt) rounds c1
                    within)
                  (λ r h.
                    replay_rest-Heard rounds kept packets c r (replay_packets-Heard rounds packets)
                      (subst (λ p. Heard (hear p) c r) same h)))
        ]

    -- A replay through a candidate whose queue is within its cap ends, for two rounds or more, though
    -- the candidate may answer that it must be drained first. If it does not fail, the candidate has
    -- been told the packets, in order, and the end if it had been told.
    pub replay-Heard :
        (rounds : ℕ) (eof_sent : Bool) (packets : List F.Packet) (c : Candidate F)
        → IsWithin c
        → Returns
            (Heard (hear_history eof_sent packets) c)
            (replay F caps (suc (suc rounds)) eof_sent packets c)
    unfolding replay
    replay-Heard rounds eof_sent packets c within =
        Returns-bind (Heard (hear_all packets) c) (Heard (hear_history eof_sent packets) c)
          (replay_packets F caps (suc (suc rounds)) packets c) _
          (replay_packets-Heard rounds packets c within) (λ r h. end_heard eof_sent r h)
      where
        end_heard :
            (eof_sent : Bool) (r : Candidate F × Option AvError)
            → Heard (hear_all packets) c r
            → Returns (Heard (hear_history eof_sent packets) c) (elim (r.1) [
              | some e ↦ some (r.0, some e)
              | none ↦ elim eof_sent [
                | true ↦ offer F caps F.send_eof (suc (suc rounds)) (r.0)
                | false ↦ some (r.0, none)
              ]
            ])
        end_heard true (d, none) h =
            Returns-map (Heard hear_end d) (Heard (hear_history true packets) c)
              (offer F caps F.send_eof (suc (suc rounds)) d)
              (offer-Heard F.send_eof hear_end send_eof-IsHeard rounds d h.1)
              (λ r. Heard-after (hear_all packets) hear_end c d r h.0)
        end_heard false (d, none) h = h
        end_heard b (d, some e) h = tt
