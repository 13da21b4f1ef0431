-- ===== src/Decoder/Promises.antt =====
-- What the decoder's theorems rely on from FFmpeg: what a context has been told, and that a context
-- whose output has been read takes its input.
use mediadecode.Base.{
  ◌≡◌, sym, ap, ◌∙◌, Bool, true, false, Option, none, some, List, [], ◌∷◌, ◌++◌, append-nil,
  append_assoc, if◌then◌else◌, Result, ok, err,
}
use mediadecode.Decoder.Libav.{AvError, Libav}
use mediadecode.Decoder.Phase.{is_eagain, is_transient}
use mediadecode.Decoder.Footprint.{cpu_frame_bytes}

-- The packets that a context has accepted since it was opened or flushed, and whether it has
-- accepted the end.
abbrev pub Told : Type 0 → Type 0
Told P = List P × Bool

module _ {P : Type 0} where
  abbrev pub hear : P → Told P → Told P
  hear packet (packets, ended) = (packets ++ (packet ∷ []), ended)

  abbrev pub hear_end : Told P → Told P
  hear_end (packets, ended) = (packets, true)

  -- Only an accepted submission is heard.
  abbrev pub if_accepted : (Told P → Told P) → Option AvError → Told P → Told P
  if_accepted heard none t = heard t
  if_accepted heard (some e) t = t

  -- The packets heard one after another, and what a whole replay tells a context.
  abbrev pub hear_all : List P → Told P → Told P
  hear_all [] t = t
  hear_all (p ∷ ps) t = hear_all ps (hear p t)

  abbrev pub hear_history : Bool → List P → Told P → Told P
  hear_history eof_sent packets t =
      if eof_sent then hear_end (hear_all packets t) else hear_all packets t

  hear_all-eq :
      (packets sent : List P) (b : Bool) → hear_all packets (sent, b) ≡ (sent ++ packets, b)
  hear_all-eq [] sent b = ap (λ l. (l, b)) (sym (append-nil sent))
  hear_all-eq (p ∷ ps) sent b =
      hear_all-eq ps (sent ++ (p ∷ [])) b ∙ ap (λ l. (l, b)) (append_assoc sent (p ∷ []) ps)

  -- A replay into a context told nothing tells it the history.
  pub hear_history-fresh :
      (eof_sent : Bool) (packets : List P)
      → hear_history eof_sent packets ([], false) ≡ (packets, eof_sent)
  hear_history-fresh true packets = ap hear_end (hear_all-eq packets [] false)
  hear_history-fresh false packets = hear_all-eq packets [] false

module _ (F : Libav) where
  -- An answer other than that the output must be read first.
  abbrev pub IsNoAgain : Option AvError → Type 0
  IsNoAgain none = Unit
  IsNoAgain (some e) = is_eagain F e ≡ false

  -- A value, if there is one, satisfies `P`.
  abbrev pub OnOk : {E A : Type 0} → (A → Type 0) → Result E A → Type 0
  OnOk P (ok a) = P a
  OnOk P (err e) = Unit

  pub record Promises : Type 0 where
    -- A context's own account.
    pub told : F.Context → Told F.Packet
    pub told_build :
        (b : F.Backend) (w : F.World) → OnOk (λ c. told c ≡ ([], false)) (F.build_state b w).1
    pub told_send :
        (p : F.Packet) (c : F.Context)
        → told (F.send_packet p c).0 ≡ if_accepted (hear p) (F.send_packet p c).1 (told c)
    pub told_eof :
        (c : F.Context) → told (F.send_eof c).0 ≡ if_accepted hear_end (F.send_eof c).1 (told c)
    pub told_receive : (c : F.Context) → told (F.receive_frame c).0 ≡ told c
    pub told_flush : (c : F.Context) → told (F.flush c) ≡ ([], false)
    pub told_ceiling : (c : F.Context) → told (F.take_ceiling_declination c).0 ≡ told c
    pub told_budget : (c : F.Context) → told (F.take_frame_budget_declination c).0 ≡ told c
    -- `avcodec_send_packet`: once all output is read, the packet is resent, and the call does not
    -- answer `EAGAIN`.
    pub send_ready :
        (c : F.Context) (e : AvError)
        → (F.receive_frame c).1 ≡ err e
        → is_transient F e ≡ true
        → (p : F.Packet) → IsNoAgain (F.send_packet p (F.receive_frame c).0).1
    pub eof_ready :
        (c : F.Context) (e : AvError)
        → (F.receive_frame c).1 ≡ err e
        → is_transient F e ≡ true
        → IsNoAgain (F.send_eof (F.receive_frame c).0).1
    -- A copy is equal to its packet, and properties are copied without a change to the buffers.
    pub same_packet : (p : F.Packet) (w : F.World) → OnOk (λ q. q ≡ p) (F.try_clone_packet p w).1
    pub same_buffers :
        (cpu : F.CpuFrame) (surface : F.Surface) (w : F.World)
        → OnOk
            (λ cpu'. cpu_frame_bytes F cpu' ≡ cpu_frame_bytes F cpu)
            (F.copy_frame_props cpu surface w).1
