-- ===== src/Demuxer/Seek.antt =====
-- Walks that were sought through (mediadecode-ffmpeg/src/demuxer.rs).
use mediadecode.Base.{
  ℤ, ◌≡◌, refl, sym, ap, ◌∙◌, Bool, true, false, Option, none, some, List, [], ◌∷◌, if◌then◌else◌,
}
use mediadecode.Measured.{break_walk}
use mediadecode.Demuxer.Session.{
  Format, Input, CarrierDemuxer, DemuxError, reader_panic, ffmpeg, latch, break_session, seek,
  next_packet, Answer, is_end,
}
use mediadecode.Demuxer.Turns.{Carriers, break_complete, break_broken, false-ne-true}
use mediadecode.Demuxer.Run.{Pulls, next_packet-Pulls}

module _ (F : Format) where
  -- A session that a seek has left, whatever came of the seek.
  abbrev Sought : CarrierDemuxer F → CarrierDemuxer F × Option (DemuxError F) → Type 0
  Sought s (t, failed) =
      (t.tracks ≡ s.tracks)
      × (t.measured ≡ break_walk s.measured)
      × (t.pending ≡ s.pending)
      × (t.eof ≡ false)

  seek-Sought : (ts : ℤ) (s : CarrierDemuxer F) → Sought s (seek F ts s)
  unfolding seek
  seek-Sought ts s =
      on (F.seek ts (if s.eof then F.clear_eof s.input else s.input))
        (latch F s.latched (F.seek ts (if s.eof then F.clear_eof s.input else s.input)).1)
    where
      on :
          (r : Input F × Option F.Message × Option F.Fault) (latched : Option F.Message)
          → Sought s (
              let s2 : CarrierDemuxer F = record (break_session F s) {
                eof = false;
                input = r.0;
                latched = latched;
              } in
              elim latched [
                | some message ↦ (s2, some (reader_panic message))
                | none ↦ elim (r.2) [
                  | some e ↦ (s2, some (ffmpeg e))
                  | none ↦ (record s2 { unconverted = none }, none)
                ]
              ])
      on (i, p, f) (some m) = (refl, refl, refl, refl)
      on (i, p, some e) none = (refl, refl, refl, refl)
      on (i, p, none) none = (refl, refl, refl, refl)

  -- What a caller asks of a session.
  pub data Request : Type 0 where
    next : Request
    seek_to : ℤ → Request

  -- A session after requests, which go on past the end of the file and past any error.
  unfoldable pub after : List Request → CarrierDemuxer F → CarrierDemuxer F
  after [] s = s
  after (next ∷ rest) s = after rest (next_packet F s).0
  after (seek_to ts ∷ rest) s = after rest (seek F ts s).0

  -- A walk that was broken off.
  abbrev pub IsPartial : CarrierDemuxer F → Type 0
  IsPartial s = (s.measured.walk_complete ≡ false) × (s.measured.unbroken ≡ false)

  not_true : (b : Bool) → (b ≡ true → ⊥) → b ≡ false
  not_true true h = absurd (h refl)
  not_true false h = refl

  seek-IsPartial :
      (ts : ℤ) (s : CarrierDemuxer F) → s.measured.walk_complete ≡ false → IsPartial (seek F ts s).0
  seek-IsPartial ts s going =
      let sought = seek-Sought ts s in
      (
        ap (λ m. m.walk_complete) sought.1 ∙ break_complete s.measured going,
        ap (λ m. m.unbroken) sought.1 ∙ break_broken s.measured going,
      )

  module _ (C : Carriers F) where
    next_packet-IsPartial : (s : CarrierDemuxer F) → IsPartial s → IsPartial (next_packet F s).0
    next_packet-IsPartial s partial =
        let pulled = next_packet-Pulls F C s.tracks s (refl, partial.0) in
        let broken = not_true _ (λ e. false-ne-true (sym partial.1 ∙ pulled.1 e)) in
        (on (next_packet F s) pulled broken, broken)
      where
        on :
            (r : CarrierDemuxer F × Answer F)
            → Pulls F C s.tracks s r
            → (r.0).measured.unbroken ≡ false
            → (r.0).measured.walk_complete ≡ false
        on (t, a) pulled broken = ends (is_end F a) refl
          where
            ends : (b : Bool) → is_end F a ≡ b → t.measured.walk_complete ≡ false
            ends false lasting = pulled.3 lasting
            ends true over = not_true _ (λ c. false-ne-true (sym broken ∙ (pulled.5 over).0.2 c))

    after-IsPartial :
        (requests : List Request) (s : CarrierDemuxer F)
        → IsPartial s
        → IsPartial (after requests s)
    unfolding after
    after-IsPartial [] s partial = partial
    after-IsPartial (next ∷ rest) s partial =
        after-IsPartial rest (next_packet F s).0 (next_packet-IsPartial s partial)
    after-IsPartial (seek_to ts ∷ rest) s partial =
        after-IsPartial rest (seek F ts s).0 (seek-IsPartial ts s partial.0)

    -- A session that is sought through before its walk is over never reports the walk complete, nor
    -- unbroken, whatever came of the seek, and whatever pulls and seeks are asked for after it, past
    -- ends of the file and errors.
    pub seek-Partial :
        (ts : ℤ) (requests : List Request) (s : CarrierDemuxer F)
        → s.measured.walk_complete ≡ false
        → IsPartial (after requests (seek F ts s).0)
    seek-Partial ts requests s going =
        after-IsPartial requests (seek F ts s).0 (seek-IsPartial ts s going)
