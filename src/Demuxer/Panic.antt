-- ===== src/Demuxer/Panic.antt =====
-- A session whose reader has panicked (mediadecode-ffmpeg/src/demuxer.rs).
use mediadecode.Base.{
  ℕ, zero, suc, ◌≡◌, refl, ap, ◌∙◌, subst, true, false, Option, none, some, List, [], ◌∷◌,
  get_elem?, replicate, Result, ok, err,
}
use mediadecode.Demuxer.Session.{
  TrackKind, video, audio, subtitle, data_track, attachment, unknown, PacketBufferError,
  PayloadProvenance, Outcome, got, read_eof, invalid_data, read_fault, Format, Input,
  attachment_packet, ffmpeg, packet_buffer, reader_panic, CarrierDemuxer, Answer, is_end, latch,
  break_session, deliver, Turn, answer, again, refuse, provenance_of, convert, on_track, place,
  at_end, read_loop, pull, next_packet,
}
use mediadecode.Demuxer.Run.{pulls}

module _ (F : Format) where
  -- The panic that an answer reports is the one that is kept.
  abbrev Names : CarrierDemuxer F × Answer F → Type 0
  Names (s, ok delivered) = Unit {0}
  Names (s, err (ffmpeg e)) = Unit {0}
  Names (s, err (packet_buffer track e)) = Unit {0}
  Names (s, err (reader_panic message)) = s.latched ≡ some message

  -- A turn that reports no panic.
  abbrev IsCalm : CarrierDemuxer F × Turn F → Type 0
  IsCalm (s, again) = Unit {0}
  IsCalm (s, answer (ok delivered)) = Unit {0}
  IsCalm (s, answer (err (ffmpeg e))) = Unit {0}
  IsCalm (s, answer (err (packet_buffer track e))) = Unit {0}
  IsCalm (s, answer (err (reader_panic message))) = ⊥

  convert-IsCalm :
      (k : TrackKind) (p : F.Packet) (v : PayloadProvenance) (s : CarrierDemuxer F)
      → IsCalm (convert F k p v s)
  unfolding convert
  convert-IsCalm k p v s = on (F.packet_from_borrowed k p v s.world)
    where
      on :
          (r : F.World × Result PacketBufferError (Option F.Carrier))
          → IsCalm (
              let s1 : CarrierDemuxer F = record s { world = r.0 } in
              elim (r.1) [
                | err e ↦ (refuse F p v e s1, answer (err (packet_buffer (F.stream p) e)))
                | ok built ↦ elim built [
                  | none ↦ (s1, again)
                  | some carrier ↦ (s1, answer (ok (deliver F k (F.stream p) carrier)))
                ]
              ])
      on (w, err e) = tt
      on (w, ok none) = tt
      on (w, ok (some c)) = tt

  on_track-IsCalm :
      (k : TrackKind) (p : F.Packet) (v : Option PayloadProvenance) (s : CarrierDemuxer F)
      → IsCalm (on_track F k p v s)
  unfolding on_track
  on_track-IsCalm video p v s = convert-IsCalm video p (provenance_of F p v) _
  on_track-IsCalm audio p v s = convert-IsCalm audio p (provenance_of F p v) _
  on_track-IsCalm subtitle p v s = convert-IsCalm subtitle p (provenance_of F p v) _
  on_track-IsCalm data_track p v s = convert-IsCalm data_track p (provenance_of F p v) _
  on_track-IsCalm attachment p v s = tt
  on_track-IsCalm unknown p v s = tt

  place-IsCalm :
      (p : F.Packet) (v : Option PayloadProvenance) (s : CarrierDemuxer F) → IsCalm (place F p v s)
  unfolding place
  place-IsCalm p v s = on (get_elem? s.tracks (F.stream p))
    where
      on :
          (k : Option TrackKind)
          → IsCalm (elim k [
            | none ↦ (record (break_session F s) { unplaceable_reported = true }, again)
            | some kind ↦ on_track F kind p v s
          ])
      on none = tt
      on (some k) = on_track-IsCalm k p v s

  -- A turn, and the reads that follow it.
  turned-Names :
      (r : CarrierDemuxer F × Turn F) (next : CarrierDemuxer F → CarrierDemuxer F × Answer F)
      → IsCalm r
      → ((t : CarrierDemuxer F) → Names (next t))
      → Names (elim (r.1) [ answer a ↦ (r.0, a) | again ↦ next (r.0) ])
  turned-Names (s, again) next h k = k s
  turned-Names (s, answer (ok d)) next h k = tt
  turned-Names (s, answer (err (ffmpeg e))) next h k = tt
  turned-Names (s, answer (err (packet_buffer i e))) next h k = tt
  turned-Names (s, answer (err (reader_panic m))) next h k = absurd h

  read_loop-Names : (input : Input F) (s : CarrierDemuxer F) → Names (read_loop F input s)
  unfolding read_loop
  read_loop-Names [] s = tt
  read_loop-Names (r ∷ rs) s = on (latch F s.latched r.panic) (r.outcome) refl (read_loop-Names rs)
    where
      on :
          (latched : Option F.Message) (o : Outcome F.Packet F.Fault)
          → latch F s.latched r.panic ≡ latched
          → ((t : CarrierDemuxer F) → Names (read_loop F rs t))
          → Names (
              let s1 : CarrierDemuxer F = record s {
                input = rs;
                latched = latch F s.latched r.panic;
              } in
              elim latched [
                | some message ↦ (s1, err (reader_panic message))
                | none ↦ elim o [
                  | read_eof ↦ (at_end F s1, ok none)
                  | invalid_data ↦ read_loop F rs (break_session F s1)
                  | read_fault e ↦ (s1, err (ffmpeg e))
                  | got packet ↦
                      let (s2, turn) = place F packet none s1 in
                      elim turn [ answer a ↦ (s2, a) | again ↦ read_loop F rs s2 ]
                ]
              ])
      on (some m) o h rest = h
      on none read_eof h rest = tt
      on none invalid_data h rest = rest _
      on none (read_fault e) h rest = tt
      on none (got p) h rest =
          turned-Names
            (place F p none (record s { input = rs; latched = latch F s.latched r.panic }))
            (read_loop F rs) (place-IsCalm p none _) rest

  next_packet-Names : (s : CarrierDemuxer F) → Names (next_packet F s)
  unfolding next_packet pull
  next_packet-Names s = on s.latched s.pending s.unconverted refl
    where
      on :
          (latched : Option F.Message) (pending : List (ℕ × F.Attachment))
          (parked : Option (F.Packet × PayloadProvenance))
          → s.latched ≡ latched
          → Names (elim latched [
            | some message ↦ (s, err (reader_panic message))
            | none ↦ elim pending [
              | ((track, body) ∷ rest) ↦
                  (record s { pending = rest }, ok (some (attachment_packet track body)))
              | [] ↦ elim parked [
                | none ↦ read_loop F s.input s
                | some (packet, provenance) ↦
                    let (s1, turn) =
                      place F packet (some provenance) (record s { unconverted = none }) in
                    elim turn [ answer a ↦ (s1, a) | again ↦ read_loop F s1.input s1 ]
              ]
            ]
          ])
      on (some m) pending parked h = h
      on none ((track, body) ∷ rest) parked h = tt
      on none [] none h = read_loop-Names s.input s
      on none [] (some (p, v)) h =
          turned-Names (place F p (some v) (record s { unconverted = none }))
            (λ t. read_loop F t.input t) (place-IsCalm p (some v) _)
            (λ t. read_loop-Names t.input t)

  next_packet-latched :
      (s : CarrierDemuxer F) (m : F.Message)
      → s.latched ≡ some m
      → next_packet F s ≡ (s, err (reader_panic m))
  unfolding next_packet
  next_packet-latched s m h = rw h

  pulls-latched :
      (n : ℕ) (s : CarrierDemuxer F) (m : F.Message)
      → s.latched ≡ some m
      → pulls F n s ≡ (s, replicate n (err (reader_panic m)))
  unfolding pulls
  pulls-latched zero s m h = refl
  pulls-latched (suc n) s m h =
      ap
        (λ r. elim (is_end F (r.1)) [
          | true ↦ (r.0, r.1 ∷ [])
          | false ↦ let (u, rest) = pulls F n (r.0) in (u, r.1 ∷ rest)
        ])
        (next_packet-latched s m h)
      ∙ ap (λ r. (r.0, err (reader_panic m) ∷ r.1)) (pulls-latched n s m h)

  -- Once a pull has reported a panic of the caller's reader, the session changes no more, and every
  -- later pull, however many, reports the same panic.
  pub pulls-Terminal :
      (n : ℕ) (s : CarrierDemuxer F) (m : F.Message)
      → (next_packet F s).1 ≡ err (reader_panic m)
      → pulls F n (next_packet F s).0 ≡ ((next_packet F s).0, replicate n (err (reader_panic m)))
  pulls-Terminal n s m h =
      pulls-latched n (next_packet F s).0 m (named (next_packet F s) (next_packet-Names s) h)
    where
      named :
          (r : CarrierDemuxer F × Answer F)
          → Names r
          → r.1 ≡ err (reader_panic m)
          → (r.0).latched ≡ some m
      named (t, a) h e = subst (λ a. Names (t, a)) e h
