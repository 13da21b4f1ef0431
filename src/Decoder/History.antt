-- ===== src/Decoder/History.antt =====
-- Every call of the decoder ends and keeps the history (mediadecode-ffmpeg/src/decoder/mod.rs).
use mediadecode.Base.{
  ℕ, ◌≤◌, refl, sym, subst, false, Option, none, some, [], arith, Returns, Result, ok, err,
}
use mathlib.Core.Option
use mediadecode.Decoder.Libav.{Libav}
use mediadecode.Decoder.Phase.{Received, HwRoute, Failure}
use mediadecode.Decoder.Session.{ProbeState, VideoDecoder}
use mediadecode.Decoder.Calls.{
  call_loop, send_once, eof_once, no_answer, pop_first, cleared, receive_once, loop_rounds,
  send_av_packet, send_eof, receive_frame, flush,
}
use mediadecode.Decoder.Promises.{Told, Promises}
use mediadecode.Decoder.Rescue.{Rescues, Buffers, InStep}
use mediadecode.Decoder.Rounds.{Once, Resumes, call_loop-Returns, left_of-loop_rounds, two_more}
use mediadecode.Decoder.Sending.{SendKeeps, EndKeeps, send_once-Once, eof_once-Once}
use mediadecode.Decoder.Receiving.{ReceiveKeeps, receive_once-Once, pop_first-Resumes}

module _ (F : Libav) (L : Promises F) where
  module _ (rounds : ℕ) (enough : 2 ≤ rounds) (sent : Told F.Packet) where
    -- A call's loop, with the rounds that a replay needs.
    loop-Returns :
        {A : Type 0} (Q : VideoDecoder F × Result (Failure F) A → Type 0)
        (once : VideoDecoder F → VideoDecoder F × Result (HwRoute (Failure F)) A)
        (resume : VideoDecoder F → VideoDecoder F × Option A)
        → ((s : VideoDecoder F) → InStep F L sent s → Once F L Q sent s (once s))
        → ((s : VideoDecoder F) → InStep F L sent s → Resumes F L Q sent s (resume s))
        → ((e : Failure F) (t : VideoDecoder F)
            → InStep F L sent t
            → Rescues F (sent.0) e
            → Q (t, err e))
        → (s : VideoDecoder F) → InStep F L sent s
        → Returns Q (call_loop F once resume (loop_rounds F s) rounds s)
    loop-Returns Q once resume goes resumes fails s inv =
        subst (λ n. Returns Q (call_loop F once resume (loop_rounds F s) n s))
          (sym (two_more F L rounds enough).1)
          (call_loop-Returns F L Q sent once resume goes resumes fails (loop_rounds F s)
            (two_more F L rounds enough).0 s inv (left_of-loop_rounds F L s))

    -- The submission of a packet to a decoder in step with a history ends, for enough rounds of a
    -- replay. Accepted, the packet is the last of the history; put off or failed, the history is as
    -- it was. It is put off only before the end, and if all backends failed, the packets handed back
    -- are the history's.
    pub send_av_packet-SendKeeps :
        (packet : F.Packet) (s : VideoDecoder F)
        → InStep F L sent s
        → Returns (SendKeeps F L sent packet) (send_av_packet F rounds packet s)
    unfolding send_av_packet
    send_av_packet-SendKeeps packet s inv =
        loop-Returns (SendKeeps F L sent packet) (send_once F packet) (no_answer F)
          (send_once-Once F L sent packet) (λ u step. (step, omega arith))
          (λ e t step rescue. (step, rescue)) s inv

    pub send_eof-EndKeeps :
        (s : VideoDecoder F) → InStep F L sent s → Returns (EndKeeps F L sent) (send_eof F rounds s)
    unfolding send_eof
    send_eof-EndKeeps s inv =
        loop-Returns (EndKeeps F L sent) (eof_once F) (no_answer F) (eof_once-Once F L sent)
          (λ u step. (step, omega arith)) (λ e t step rescue. (step, rescue)) s inv

    -- A receive from a decoder in step with a history ends, for enough rounds of a replay, and keeps
    -- the history. A frame leaves no backend on trial, input is asked for only before the end, an end
    -- is told only by a backend that is not on trial, and if all backends failed, the packets handed
    -- back are the history's.
    pub receive_frame-ReceiveKeeps :
        (s : VideoDecoder F)
        → InStep F L sent s
        → Returns (ReceiveKeeps F L sent) (receive_frame F rounds s)
    unfolding receive_frame
    receive_frame-ReceiveKeeps s inv = first (pop_first F s) (pop_first-Resumes F L sent s inv)
      where
        first :
            (r : VideoDecoder F × Option (Received F.CpuFrame))
            → Resumes F L (ReceiveKeeps F L sent) sent s r
            → Returns (ReceiveKeeps F L sent) (elim (r.1) [
              | some received ↦ some (r.0, ok received)
              | none ↦ call_loop F (receive_once F) (pop_first F) (loop_rounds F (r.0)) rounds (r.0)
            ])
        first (t, some received) h = h
        first (t, none) h =
            loop-Returns (ReceiveKeeps F L sent) (receive_once F) (pop_first F)
              (receive_once-Once F L sent) (pop_first-Resumes F L sent)
              (λ e u step rescue. (step, rescue)) t h.0

  -- A flush leaves a history of no packets.
  pub flush-InStep : (s : VideoDecoder F) → InStep F L ([], false) (flush F s)
  unfolding flush
  flush-InStep s = (L.told_flush s.inner, buffers s.probe, refl)
    where
      buffers : (probe : Option (ProbeState F)) → Buffers F [] (Option.map (cleared F) probe)
      buffers none = tt
      buffers (some p) = refl
