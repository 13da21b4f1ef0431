-- ===== src/Decoder/Sending.antt =====
-- The rounds of `send_av_packet` and `send_eof` keep the history (mediadecode-ffmpeg/src/decoder/mod.rs).
use mediadecode.Base.{
  ℕ, ◌≤◌, ◌≡◌, refl, sym, ap, ◌∙◌, subst, true, false, Option, none, some, [], ◌∷◌, ◌++◌, arith,
  Result, ok, err,
}
use mediadecode.Decoder.Libav.{AvError, Libav}
use mediadecode.Decoder.Phase.{Sent, accepted, must_drain, HwRoute, report, Failure}
use mediadecode.Decoder.Session.{ProbeState, VideoDecoder, with_inner}
use mediadecode.Decoder.Calls.{submit, send_once, eof_once, preflight, record_sent, failed_send}
use mediadecode.Decoder.Promises.{Told, hear, hear_end, if_accepted, Promises}
use mediadecode.Decoder.Rescue.{Rescues, Buffers, left, InStep}
use mediadecode.Decoder.Preflight.{
  FailsSend, failed_send-FailsSend, Preflighted, preflight-Preflighted,
}
use mediadecode.Decoder.Rounds.{Once}

module _ (F : Libav) (L : Promises F) where
  -- What a submission of a packet leaves: accepted, it is in the history; put off or failed, the
  -- history is as it was, and an error of all backends hands it back.
  abbrev pub SendKeeps :
      Told F.Packet → F.Packet → VideoDecoder F × Result (Failure F) Sent → Type 0
  SendKeeps sent packet (t, ok accepted) = InStep F L (hear packet sent) t
  SendKeeps sent packet (t, ok must_drain) = InStep F L sent t × (t.eof_sent ≡ false)
  SendKeeps sent packet (t, err e) = InStep F L sent t × Rescues F (sent.0) e

  FailsSend-Once :
      (sent : Told F.Packet) (packet : F.Packet) (s u : VideoDecoder F)
      (r : VideoDecoder F × Result (HwRoute (Failure F)) Sent)
      → left F u ≤ left F s
      → FailsSend F L sent u r
      → Once F L (SendKeeps sent packet) sent s r
  FailsSend-Once sent packet s u (t, ok accepted) fewer h = absurd h.1
  FailsSend-Once sent packet s u (t, ok must_drain) fewer h = h
  FailsSend-Once sent packet s u (t, err to) fewer h = (h.0, h.1, omega (arith, h.2, fewer))

  Preflighted-step :
      (sent : Told F.Packet) (packet : F.Packet) (staged : Option (F.Packet × ℕ))
      (s t : VideoDecoder F)
      → Preflighted F L sent packet s (t, ok staged)
      → InStep F L sent t × (left F t ≡ left F s)
  Preflighted-step sent packet none s t h = (h.0, h.2)
  Preflighted-step sent packet (some (cloned, bytes)) s t h = (h.0, h.2)

  -- An accepted submission is heard by the active backend and kept by the probe.
  record_sent-Keeps :
      (sent : Told F.Packet) (packet : F.Packet) (staged : Option (F.Packet × ℕ))
      (s t : VideoDecoder F) (c : F.Context)
      → Preflighted F L sent packet s (t, ok staged)
      → L.told c ≡ (sent.0 ++ (packet ∷ []), t.eof_sent)
      → InStep F L (hear packet sent) (record_sent F staged (with_inner F t c))
  unfolding record_sent
  record_sent-Keeps sent packet none s t c h told =
      (told, subst (Buffers F (sent.0 ++ (packet ∷ []))) (sym h.1) tt, h.0.2)
  record_sent-Keeps sent packet (some (cloned, bytes)) s t c h told = kept t.probe refl
    where
      kept :
          (probe : Option (ProbeState F))
          → probe ≡ t.probe
          → InStep F L (hear packet sent) (elim probe [
            | none ↦ with_inner F t c
            | some p ↦ record t {
              inner = c;
              probe = some (record p {
                buffered_packets = p.buffered_packets ++ (cloned ∷ []);
                buffered_bytes = bytes;
              });
            }
          ])
      kept none gone = (told, subst (Buffers F (sent.0 ++ (packet ∷ []))) gone tt, h.0.2)
      kept (some p) there =
          (told, rw ((subst (Buffers F (sent.0)) (sym there) (h.0.1)), h.1) refl, h.0.2)

  submit-Once :
      (sent : Told F.Packet) (packet : F.Packet) (staged : Option (F.Packet × ℕ))
      (s t : VideoDecoder F)
      → Preflighted F L sent packet s (t, ok staged)
      → Once F L (SendKeeps sent packet) sent s (submit F packet staged t)
  unfolding submit
  submit-Once sent packet staged s t h =
      on (F.send_packet packet t.inner).1 (L.told_send packet t.inner)
    where
      step : InStep F L sent t × (left F t ≡ left F s)
      step = Preflighted-step sent packet staged s t h

      on :
          (answer : Option AvError)
          → L.told (F.send_packet packet t.inner).0
            ≡ if_accepted (hear packet) answer (L.told t.inner)
          → Once F L (SendKeeps sent packet) sent s (elim answer [
            | none ↦ (
              record_sent F staged (with_inner F t (F.send_packet packet t.inner).0),
              ok accepted,
            )
            | some e ↦ failed_send F e (with_inner F t (F.send_packet packet t.inner).0)
          ])
      on none told = record_sent-Keeps sent packet staged s t _ h (told ∙ ap (hear packet) step.0.0)
      on (some e) told =
          FailsSend-Once sent packet s (with_inner F t (F.send_packet packet t.inner).0)
            (failed_send F e (with_inner F t (F.send_packet packet t.inner).0))
            (omega (arith, step.1))
            (failed_send-FailsSend F L e (with_inner F t (F.send_packet packet t.inner).0) sent
              (told ∙ step.0.0, step.0.1, step.0.2))

  pub send_once-Once :
      (sent : Told F.Packet) (packet : F.Packet) (s : VideoDecoder F)
      → InStep F L sent s
      → Once F L (SendKeeps sent packet) sent s (send_once F packet s)
  unfolding send_once
  send_once-Once sent packet s inv =
      on (preflight F packet s) (preflight-Preflighted F L packet s sent inv)
    where
      on :
          (r : VideoDecoder F × Result (Failure F) (Option (F.Packet × ℕ)))
          → Preflighted F L sent packet s r
          → Once F L
              (SendKeeps sent packet)
              sent
              s
              (elim (r.1) [ err e ↦ (r.0, err (report e)) | ok copy ↦ submit F packet copy (r.0) ])
      on (t, ok staged) h = submit-Once sent packet staged s t h
      on (t, err e) h = h

  -- What the signal of the end leaves.
  abbrev pub EndKeeps : Told F.Packet → VideoDecoder F × Result (Failure F) Sent → Type 0
  EndKeeps sent (t, ok accepted) = InStep F L (hear_end sent) t
  EndKeeps sent (t, ok must_drain) = InStep F L sent t × (t.eof_sent ≡ false)
  EndKeeps sent (t, err e) = InStep F L sent t × Rescues F (sent.0) e

  pub eof_once-Once :
      (sent : Told F.Packet) (s : VideoDecoder F)
      → InStep F L sent s
      → Once F L (EndKeeps sent) sent s (eof_once F s)
  unfolding eof_once
  eof_once-Once sent s inv = on (F.send_eof s.inner).1 (L.told_eof s.inner)
    where
      failed :
          (u : VideoDecoder F) (r : VideoDecoder F × Result (HwRoute (Failure F)) Sent)
          → left F u ≤ left F s
          → FailsSend F L sent u r
          → Once F L (EndKeeps sent) sent s r
      failed u (t, ok accepted) fewer h = absurd h.1
      failed u (t, ok must_drain) fewer h = h
      failed u (t, err to) fewer h = (h.0, h.1, omega (arith, h.2, fewer))

      on :
          (answer : Option AvError)
          → L.told (F.send_eof s.inner).0 ≡ if_accepted hear_end answer (L.told s.inner)
          → Once F L (EndKeeps sent) sent s (elim answer [
            | none ↦ (record s { inner = (F.send_eof s.inner).0; eof_sent = true }, ok accepted)
            | some e ↦ failed_send F e (with_inner F s (F.send_eof s.inner).0)
          ])
      on none told = (told ∙ ap hear_end inv.0, inv.1, refl)
      on (some e) told =
          failed (with_inner F s (F.send_eof s.inner).0)
            (failed_send F e (with_inner F s (F.send_eof s.inner).0)) (omega arith)
            (failed_send-FailsSend F L e (with_inner F s (F.send_eof s.inner).0) sent
              (told ∙ inv.0, inv.1, inv.2))
