-- ===== src/Demuxer/Lossless.antt =====
-- What the loop over the reads delivers of them (mediadecode-ffmpeg/src/demuxer.rs).
use mediadecode.Base.{
  ◌≡◌, refl, sym, ap, ◌∙◌, true, false, Option, none, some, List, [], ◌∷◌, ◌++◌, append-nil, arith,
  ok, err,
}
use mediadecode.Measured.{Measured, end_of_file}
use mediadecode.Demuxer.Session.{
  TrackKind, Outcome, got, read_eof, invalid_data, read_fault, Read, Format, Input, ffmpeg,
  reader_panic, CarrierDemuxer, Answer, is_end, latch, break_session, Turn, answer, again, place,
  at_end, read_loop,
}
use mediadecode.Demuxer.Turns.{
  Carriers, never_unbroken, false-ne-true, there_is, break_complete, item_of, expected, out,
  waiting_in, IsOpen, Turns, place-Turns,
}

module _ (F : Format) (C : Carriers F) (T : List TrackKind) where
  -- A session at the end of its file: nothing is parked, no reader has panicked, and a complete walk
  -- is an unbroken one.
  abbrev pub Ends : CarrierDemuxer F → Type 0
  Ends t =
      (t.unconverted ≡ none)
      × (t.latched ≡ none)
      × (t.measured.walk_complete ≡ true → t.measured.unbroken ≡ true)

  -- What a loop over reads has consumed, and what it delivers of it: all that was expected F C T, if the
  -- walk is still unbroken and no reader has panicked.
  abbrev pub Reads : Input F → CarrierDemuxer F → CarrierDemuxer F × Answer F → Type 0
  Reads input s (t, a) =
      (t.tracks ≡ T)
      × (t.pending ≡ s.pending)
      × (t.measured.unbroken ≡ true → s.measured.unbroken ≡ true)
      × (is_end F a ≡ false → t.measured.walk_complete ≡ false)
      × (t.latched ≡ none → s.latched ≡ none)
      × ((consumed : Input F) × (input ≡ consumed ++ t.input)
          × (t.measured.unbroken ≡ true
              → t.latched ≡ none
              → out F C T a ++ waiting_in F C T t.unconverted ≡ expected F C T consumed))
      × (is_end F a ≡ true → Ends t)

  -- What a step before the loop's next reads keeps.
  abbrev pub Leads : CarrierDemuxer F → CarrierDemuxer F → Type 0
  Leads s t =
      (t.pending ≡ s.pending)
      × (t.measured.unbroken ≡ true → s.measured.unbroken ≡ true)
      × (t.latched ≡ none → s.latched ≡ none)

  -- A read that was no item F C T, and the reads after it.
  Reads-again :
      (o : Outcome F.Packet F.Fault) (panic : Option F.Message) (rs : Input F)
      (s t : CarrierDemuxer F) (res : CarrierDemuxer F × Answer F)
      → Leads s t
      → (t.measured.unbroken ≡ true → item_of F C T o ≡ [])
      → Reads rs t res
      → Reads (record { panic = panic; outcome = o } ∷ rs) s res
  Reads-again o panic rs s t (u, a) leads empty h =
      let (consumed, split, delivered) = h.5 in
      (
        h.0,
        h.1 ∙ leads.0,
        (λ x. leads.1 (h.2 x)),
        h.3,
        (λ x. leads.2 (h.4 x)),
        (
          record { panic = panic; outcome = o } ∷ consumed,
          ap (λ l. record { panic = panic; outcome = o } ∷ l) split,
          λ x y. delivered x y ∙ ap (λ l. l ++ expected F C T consumed) (sym (empty (h.2 x))),
        ),
        h.6,
      )

  -- A read that is answered.
  Reads-answer :
      (o : Outcome F.Packet F.Fault) (panic : Option F.Message) (rs : Input F)
      (s t : CarrierDemuxer F) (a : Answer F)
      → t.tracks ≡ T
      → t.measured.walk_complete ≡ false
      → Leads s t
      → is_end F a ≡ false
      → t.input ≡ rs
      → (t.measured.unbroken ≡ true
          → t.latched ≡ none
          → out F C T a ++ waiting_in F C T t.unconverted ≡ item_of F C T o)
      → Reads (record { panic = panic; outcome = o } ∷ rs) s (t, a)
  Reads-answer o panic rs s t a tracks going leads lasting rest delivered = (
    tracks,
    leads.0,
    leads.1,
    (λ _. going),
    leads.2,
    (
      record { panic = panic; outcome = o } ∷ [],
      ap (λ l. record { panic = panic; outcome = o } ∷ l) (sym rest),
      λ x y. delivered x y ∙ sym (append-nil (item_of F C T o)),
    ),
    λ e. absurd (false-ne-true (sym lasting ∙ e)),
  )

  end_unbroken : (m : Measured) → (end_of_file m).unbroken ≡ true → m.unbroken ≡ true
  unfolding end_of_file
  end_unbroken m u = ground arith

  end_complete :
      (m : Measured)
      → m.walk_complete ≡ false
      → (end_of_file m).walk_complete ≡ true
      → (end_of_file m).unbroken ≡ true
  unfolding end_of_file
  end_complete m going c = ground arith

  -- The end of the file, of which nothing is expected F C T.
  Reads-end :
      (consumed : Input F) (input : Input F) (s t : CarrierDemuxer F)
      → IsOpen F C T t
      → Leads s t
      → input ≡ consumed ++ t.input
      → expected F C T consumed ≡ []
      → Reads input s (at_end F t, ok none)
  unfolding at_end
  Reads-end consumed input s t ready leads split empty = (
    ready.0,
    leads.0,
    (λ u. leads.1 (end_unbroken t.measured u)),
    (λ e. absurd (false-ne-true (sym e))),
    leads.2,
    (consumed, split, λ x y. ap (waiting_in F C T) ready.2 ∙ sym empty),
    λ _. (ready.2, ready.3, end_complete t.measured ready.1),
  )

  latch-none : (a b : Option F.Message) → latch F a b ≡ none → a ≡ none
  latch-none none b h = refl
  latch-none (some m) b h = h

  -- What the loop does with a read, its next reads given.
  module _ (rs : Input F)
      (rest : (t : CarrierDemuxer F) → IsOpen F C T t → Reads rs t (read_loop F rs t)) where
    turned-Reads :
        (p : F.Packet) (panic : Option F.Message) (s t : CarrierDemuxer F)
        (r : CarrierDemuxer F × Turn F)
        → IsOpen F C T t
        → Leads s t
        → t.input ≡ rs
        → Turns F C T p t r
        → Reads
            (record { panic = panic; outcome = got p } ∷ rs)
            s
            (elim (r.1) [ answer a ↦ (r.0, a) | again ↦ read_loop F rs (r.0) ])
    turned-Reads p panic s t (u, answer a) ready leads input h =
        Reads-answer (got p) panic rs s u a (h.0.0 ∙ ready.0) h.0.1
          (h.0.2 ∙ leads.0, (λ x. leads.1 (h.0.5 x)), (λ x. leads.2 (sym h.0.4 ∙ x))) h.1.0
          (h.0.3 ∙ input) (λ x y. h.1.1 x)
    turned-Reads p panic s t (u, again) ready leads input h =
        Reads-again (got p) panic rs s u (read_loop F rs u)
          (h.0.2 ∙ leads.0, (λ x. leads.1 (h.0.5 x)), (λ x. leads.2 (sym h.0.4 ∙ x))) h.1.1
          (rest u (h.0.0 ∙ ready.0, h.0.1, h.1.0, h.0.4 ∙ ready.3))

    outcome-Reads :
        (o : Outcome F.Packet F.Fault) (panic : Option F.Message) (s t : CarrierDemuxer F)
        → IsOpen F C T t
        → Leads s t
        → t.input ≡ rs
        → Reads (record { panic = panic; outcome = o } ∷ rs) s (elim o [
          | read_eof ↦ (at_end F t, ok none)
          | invalid_data ↦ read_loop F rs (break_session F t)
          | read_fault e ↦ (t, err (ffmpeg e))
          | got packet ↦
              let (s2, turn) = place F packet none t in
              elim turn [ answer a ↦ (s2, a) | again ↦ read_loop F rs s2 ]
        ])
    outcome-Reads read_eof panic s t ready leads input =
        Reads-end (record { panic = panic; outcome = read_eof } ∷ []) _ s t ready leads
          (ap (λ l. record { panic = panic; outcome = read_eof } ∷ l) (sym input)) refl
    outcome-Reads invalid_data panic s t ready leads input =
        Reads-again invalid_data panic rs s (break_session F t) (read_loop F rs (break_session F t))
          (leads.0, (λ x. absurd (never_unbroken t.measured ready.1 x)), leads.2) (λ x. refl)
          (rest (break_session F t) (ready.0, break_complete t.measured ready.1, ready.2, ready.3))
    outcome-Reads (read_fault e) panic s t ready leads input =
        Reads-answer (read_fault e) panic rs s t (err (ffmpeg e)) ready.0 ready.1 leads refl input
          (λ x y. ap (waiting_in F C T) ready.2)
    outcome-Reads (got p) panic s t ready leads input =
        turned-Reads p panic s t (place F p none t) ready leads input
          (place-Turns F C T p none t ready)

    read-Reads :
        (r : Read F.Packet F.Fault F.Message) (s : CarrierDemuxer F) (k l : Option F.Message)
        → k ≡ l
        → IsOpen F C T s
        → (k ≡ none → s.latched ≡ none)
        → Reads (r ∷ rs) s (elim l [
          | some message ↦ (record s { input = rs; latched = k }, err (reader_panic message))
          | none ↦
              let s1 : CarrierDemuxer F = record s { input = rs; latched = k } in
              elim (r.outcome) [
                | read_eof ↦ (at_end F s1, ok none)
                | invalid_data ↦ read_loop F rs (break_session F s1)
                | read_fault e ↦ (s1, err (ffmpeg e))
                | got packet ↦
                    let (s2, turn) = place F packet none s1 in
                    elim turn [ answer a ↦ (s2, a) | again ↦ read_loop F rs s2 ]
              ]
        ])
    read-Reads r s k (some m) same ready quiet =
        Reads-answer (r.outcome) (r.panic) rs s (record s { input = rs; latched = k })
          (err (reader_panic m)) ready.0 ready.1 (refl, (λ x. x), quiet) refl refl
          (λ x h. absurd (false-ne-true (ap there_is (sym h ∙ same))))
    read-Reads r s k none same ready quiet =
        outcome-Reads (r.outcome) (r.panic) s (record s { input = rs; latched = k })
          (ready.0, ready.1, ready.2, same) (refl, (λ x. x), quiet) refl

  pub read_loop-Reads :
      (input : Input F) (s : CarrierDemuxer F)
      → IsOpen F C T s
      → Reads input s (read_loop F input s)
  unfolding read_loop
  read_loop-Reads [] s ready =
      Reads-end [] [] s (record s { input = [] }) ready (refl, (λ x. x), (λ x. x)) refl refl
  read_loop-Reads (r ∷ rs) s ready =
      read-Reads rs (read_loop-Reads rs) r s (latch F s.latched r.panic) (latch F s.latched r.panic)
        refl ready (latch-none s.latched r.panic)
