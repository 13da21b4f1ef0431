-- ===== src/Decoder/Run.antt =====
-- Runs of calls on a decoder (mediadecode-ffmpeg/src/decoder/mod.rs), and what a decoder promises of
-- them: an account of what it accepted, which no change of backend disturbs.
use mediadecode.Base.{
  ℕ, ◌≤◌, false, Option, some, List, [], ◌∷◌, ◌>>=◌, Returns, Returns-bind, Result, ok, err,
}
use mediadecode.Decoder.Libav.{Libav}
use mediadecode.Decoder.Phase.{Received, Sent, accepted, must_drain, Failure}
use mediadecode.Decoder.Session.{VideoDecoder}
use mediadecode.Decoder.Calls.{send_av_packet, send_eof, receive_frame, flush}
use mediadecode.Decoder.Promises.{Told, hear, hear_end, Promises}
use mediadecode.Decoder.Rescue.{Rescues, InStep}
use mediadecode.Decoder.Sending.{SendKeeps, EndKeeps}
use mediadecode.Decoder.Receiving.{ReceiveKeeps}
use mediadecode.Decoder.History.{
  send_av_packet-SendKeeps, send_eof-EndKeeps, receive_frame-ReceiveKeeps, flush-InStep,
}

-- A call of the decoder.
pub data Call (P : Type 0) : Type 0 where
  packet : P → Call P
  end_of_stream frame flushing : Call P

module _ (F : Libav) where
  -- What the caller is told.
  pub data Reply : Type 0 where
    sent : Result (Failure F) Sent → Reply
    received : Result (Failure F) (Received F.CpuFrame) → Reply
    flushed : Reply

  -- A call, and its reply with the decoder after it.
  unfoldable pub serve : ℕ → Call F.Packet → VideoDecoder F → Option (VideoDecoder F × Reply)
  unfolding send_av_packet send_eof receive_frame flush
  serve rounds (packet p) s = send_av_packet F rounds p s >>= λ (t, r). some (t, sent r)
  serve rounds end_of_stream s = send_eof F rounds s >>= λ (t, r). some (t, sent r)
  serve rounds frame s = receive_frame F rounds s >>= λ (t, r). some (t, received r)
  serve rounds flushing s = some (flush F s, flushed)

  -- The calls one after another, with their replies.
  unfoldable pub run :
      ℕ
      → List (Call F.Packet)
      → VideoDecoder F
      → Option (VideoDecoder F × List (Call F.Packet × Reply))
  unfolding serve
  run rounds [] s = some (s, [])
  run rounds (call ∷ calls) s = serve rounds call s >>= λ (t, reply).
      run rounds calls t >>= λ (u, rest). some (u, (call, reply) ∷ rest)

  -- The account that a caller can keep from the replies alone: what was accepted since the last
  -- flush.
  abbrev pub account : Call F.Packet × Reply → Told F.Packet → Told F.Packet
  account (packet p, sent (ok accepted)) t = hear p t
  account (end_of_stream, sent (ok accepted)) t = hear_end t
  account (call, flushed) t = ([], false)
  account (call, reply) t = t

  abbrev pub account_all : List (Call F.Packet × Reply) → Told F.Packet → Told F.Packet
  account_all [] t = t
  account_all (entry ∷ entries) t = account_all entries (account entry t)

  -- A reply that all backends failed hands back the packets of the account.
  abbrev pub HandsBack : Told F.Packet → Reply → Type 0
  HandsBack t (sent (err e)) = Rescues F (t.0) e
  HandsBack t (received (err e)) = Rescues F (t.0) e
  HandsBack t reply = Unit

  abbrev pub AllHandBack : List (Call F.Packet × Reply) → Told F.Packet → Type 0
  AllHandBack [] t = Unit
  AllHandBack ((call, reply) ∷ entries) t =
      HandsBack t reply × AllHandBack entries (account (call, reply) t)

  module _ (L : Promises F) where
    abbrev pub Serves : Call F.Packet → Told F.Packet → VideoDecoder F × Reply → Type 0
    Serves call t (s, reply) = InStep F L (account (call, reply) t) s × HandsBack t reply

    packet-Serves :
        (p : F.Packet) (t : Told F.Packet) (r : VideoDecoder F × Result (Failure F) Sent)
        → SendKeeps F L t p r
        → Serves (packet p) t (r.0, sent r.1)
    packet-Serves p t (s, ok accepted) h = (h, tt)
    packet-Serves p t (s, ok must_drain) h = (h.0, tt)
    packet-Serves p t (s, err e) h = h

    end-Serves :
        (t : Told F.Packet) (r : VideoDecoder F × Result (Failure F) Sent)
        → EndKeeps F L t r
        → Serves end_of_stream t (r.0, sent r.1)
    end-Serves t (s, ok accepted) h = (h, tt)
    end-Serves t (s, ok must_drain) h = (h.0, tt)
    end-Serves t (s, err e) h = h

    frame-Serves :
        (t : Told F.Packet) (r : VideoDecoder F × Result (Failure F) (Received F.CpuFrame))
        → ReceiveKeeps F L t r
        → Serves frame t (r.0, received r.1)
    frame-Serves t (s, ok answer) h = (h.0, tt)
    frame-Serves t (s, err e) h = h

    -- A call on a decoder whose active backend has been told exactly the account ends, for enough
    -- rounds of a replay: the account that its reply makes is again exactly what the backend that is
    -- then active has been told, and what the probe keeps; and if all backends failed, the packets
    -- handed back are those of the account.
    pub serve-Serves :
        (rounds : ℕ) (call : Call F.Packet) (s : VideoDecoder F) (t : Told F.Packet)
        → 2 ≤ rounds
        → InStep F L t s
        → Returns (Serves call t) (serve rounds call s)
    unfolding serve
    serve-Serves rounds (packet p) s t enough inv =
        Returns-bind (SendKeeps F L t p) (Serves (packet p) t) (send_av_packet F rounds p s) _
          (send_av_packet-SendKeeps F L rounds enough t p s inv) (packet-Serves p t)
    serve-Serves rounds end_of_stream s t enough inv =
        Returns-bind (EndKeeps F L t) (Serves end_of_stream t) (send_eof F rounds s) _
          (send_eof-EndKeeps F L rounds enough t s inv) (end-Serves t)
    serve-Serves rounds frame s t enough inv =
        Returns-bind (ReceiveKeeps F L t) (Serves frame t) (receive_frame F rounds s) _
          (receive_frame-ReceiveKeeps F L rounds enough t s inv) (frame-Serves t)
    serve-Serves rounds flushing s t enough inv = (flush-InStep F L s, tt)

    abbrev pub Runs : Told F.Packet → VideoDecoder F × List (Call F.Packet × Reply) → Type 0
    Runs t (s, entries) = InStep F L (account_all entries t) s × AllHandBack entries t

    -- A run of calls ends, for enough rounds of a replay, whatever backends fail in it: the active
    -- backend has then been told exactly what the replies say was accepted since the last flush, in
    -- order, with the end if it was, and each reply that all backends failed handed back the packets
    -- accepted until then.
    pub run-Runs :
        (rounds : ℕ) (calls : List (Call F.Packet)) (s : VideoDecoder F) (t : Told F.Packet)
        → 2 ≤ rounds
        → InStep F L t s
        → Returns (Runs t) (run rounds calls s)
    unfolding run
    run-Runs rounds [] s t enough inv = (inv, tt)
    run-Runs rounds (call ∷ calls) s t enough inv =
        Returns-bind (Serves call t) (Runs t) (serve rounds call s) _
          (serve-Serves rounds call s t enough inv)
          (λ r h.
            Returns-bind (Runs (account (call, r.1) t)) (Runs t) (run rounds calls r.0) _
              (run-Runs rounds calls r.0 (account (call, r.1) t) enough h.0)
              (λ u g. (g.0, (h.1, g.1))))
