-- ===== src/Demuxer/Run.antt =====
-- Pulls one after another, up to the end of the file (mediadecode-ffmpeg/src/demuxer.rs).
use mediadecode.Base.{
  ℕ, zero, suc, ◌≡◌, refl, sym, ap, ◌∙◌, Bool, true, false, Option, none, some, List, [], ◌∷◌, ◌++◌,
  append-nil, append_assoc, ok, err,
}
use mediadecode.Demuxer.Session.{
  TrackKind, PayloadProvenance, Format, Input, DemuxedPacket, attachment_packet, reader_panic,
  CarrierDemuxer, Answer, is_end, answer, again, place, read_loop, pull, next_packet, Turn,
}
use mediadecode.Demuxer.Turns.{
  Carriers, false-ne-true, item_of, expected, out, waiting_in, Turns, place-Turns,
}
use mediadecode.Demuxer.Lossless.{Ends, Reads, read_loop-Reads}

module _ (F : Format) where
  -- Pulls until one answers that the file is over, at most `n` of them, and their answers.
  unfoldable pub pulls : ℕ → CarrierDemuxer F → CarrierDemuxer F × List (Answer F)
  unfolding next_packet
  pulls zero s = (s, [])
  pulls (suc n) s =
      let (t, a) = next_packet F s in
      elim (is_end F a) [ true ↦ (t, a ∷ []) | false ↦ let (u, rest) = pulls n t in (u, a ∷ rest) ]

module _ (F : Format) (C : Carriers F) (T : List TrackKind) where
  abbrev pub attachments : List (ℕ × F.Attachment) → List (DemuxedPacket F)
  attachments [] = []
  attachments ((track, body) ∷ rest) = attachment_packet track body ∷ attachments rest

  -- What a session still owes from what it has read: the attachments, then the parked packet.
  abbrev pub owed : CarrierDemuxer F → List (DemuxedPacket F)
  owed s = attachments s.pending ++ waiting_in F C T s.unconverted

  -- A session whose walk is not over.
  abbrev pub IsGoing : CarrierDemuxer F → Type 0
  IsGoing s = (s.tracks ≡ T) × (s.measured.walk_complete ≡ false)

  -- What a pull delivers of what it consumes, which is all that was expected if the walk is still
  -- unbroken and no reader has panicked.
  abbrev pub Pulls : CarrierDemuxer F → CarrierDemuxer F × Answer F → Type 0
  Pulls s (t, a) =
      (t.tracks ≡ T)
      × (t.measured.unbroken ≡ true → s.measured.unbroken ≡ true)
      × (t.latched ≡ none → s.latched ≡ none)
      × (is_end F a ≡ false → t.measured.walk_complete ≡ false)
      × ((consumed : Input F) × (s.input ≡ consumed ++ t.input)
          × (t.measured.unbroken ≡ true
              → t.latched ≡ none
              → out F C T a ++ owed t ≡ owed s ++ expected F C T consumed))
      × (is_end F a ≡ true → Ends F C T t × (t.pending ≡ []))

  owed-unqueued : (s : CarrierDemuxer F) → s.pending ≡ [] → owed s ≡ waiting_in F C T s.unconverted
  owed-unqueued s h = ap (λ l. attachments l ++ waiting_in F C T s.unconverted) h

  -- A pull that has come to its reads.
  Reads-Pulls :
      (s u : CarrierDemuxer F) (r : CarrierDemuxer F × Answer F)
      → s.pending ≡ []
      → u.pending ≡ s.pending
      → u.input ≡ s.input
      → u.latched ≡ s.latched
      → (u.measured.unbroken ≡ true → s.measured.unbroken ≡ true)
      → (u.measured.unbroken ≡ true → waiting_in F C T s.unconverted ≡ [])
      → Reads F C T u.input u r
      → Pulls s r
  Reads-Pulls s u (t, a) unqueued pending input latched unbroken free h =
      let (consumed, split, delivered) = h.5 in
      (
        h.0,
        (λ x. unbroken (h.2 x)),
        (λ x. sym latched ∙ h.4 x),
        h.3,
        (
          consumed,
          sym input ∙ split,
          λ x y.
              ap (λ l. out F C T a ++ l) (owed-unqueued t (h.1 ∙ pending ∙ unqueued))
              ∙ delivered x y
              ∙ ap (λ l. l ++ expected F C T consumed)
                  (sym (owed-unqueued s unqueued ∙ free (h.2 x))),
        ),
        λ e. (h.6 e, h.1 ∙ pending ∙ unqueued),
      )

  pull-Pulls :
      (s : CarrierDemuxer F) → IsGoing s → s.latched ≡ none → s.pending ≡ [] → Pulls s (pull F s)
  unfolding pull
  pull-Pulls s going quiet unqueued = on s.unconverted refl
    where
      turned :
          (p : F.Packet) (v : PayloadProvenance) (r : CarrierDemuxer F × Turn F)
          → s.unconverted ≡ some (p, v)
          → Turns F C T p (record s { unconverted = none }) r
          → Pulls s (elim (r.1) [ answer a ↦ (r.0, a) | again ↦ read_loop F (r.0).input (r.0) ])
      turned p v (t, answer a) parked h = (
        h.0.0 ∙ going.0,
        h.0.5,
        (λ x. quiet),
        (λ _. h.0.1),
        (
          [],
          sym h.0.3,
          λ x y.
              ap (λ l. out F C T a ++ l) (owed-unqueued t (h.0.2 ∙ unqueued))
              ∙ h.1.1 x
              ∙ sym (ap (waiting_in F C T) parked)
              ∙ sym (owed-unqueued s unqueued)
              ∙ sym (append-nil (owed s)),
        ),
        λ e. absurd (false-ne-true (sym h.1.0 ∙ e)),
      )
      turned p v (t, again) parked h =
          Reads-Pulls s t (read_loop F t.input t) unqueued h.0.2 h.0.3 h.0.4 h.0.5
            (λ x. ap (waiting_in F C T) parked ∙ h.1.1 x)
            (read_loop-Reads F C T t.input t (h.0.0 ∙ going.0, h.0.1, h.1.0, h.0.4 ∙ quiet))

      on :
          (parked : Option (F.Packet × PayloadProvenance))
          → s.unconverted ≡ parked
          → Pulls s (elim parked [
            | none ↦ read_loop F s.input s
            | some (packet, provenance) ↦
                let (s1, turn) =
                  place F packet (some provenance) (record s { unconverted = none }) in
                elim turn [ answer a ↦ (s1, a) | again ↦ read_loop F s1.input s1 ]
          ])
      on none free =
          Reads-Pulls s s (read_loop F s.input s) unqueued refl refl refl (λ x. x)
            (λ x. ap (waiting_in F C T) free)
            (read_loop-Reads F C T s.input s (going.0, going.1, free, quiet))
      on (some (p, v)) parked =
          turned p v (place F p (some v) (record s { unconverted = none })) parked (
            place-Turns F C T p (some v) (record s { unconverted = none })
              (going.0, going.1, refl, quiet))

  pub next_packet-Pulls : (s : CarrierDemuxer F) → IsGoing s → Pulls s (next_packet F s)
  unfolding next_packet
  next_packet-Pulls s going = on s.latched s.pending refl refl
    where
      on :
          (latched : Option F.Message) (pending : List (ℕ × F.Attachment))
          → s.latched ≡ latched
          → s.pending ≡ pending
          → Pulls s (elim latched [
            | some message ↦ (s, err (reader_panic message))
            | none ↦ elim pending [
              | ((track, body) ∷ rest) ↦
                  (record s { pending = rest }, ok (some (attachment_packet track body)))
              | [] ↦ pull F s
            ]
          ])
      on (some m) pending loud queued = (
        going.0,
        (λ x. x),
        (λ x. x),
        (λ _. going.1),
        ([], refl, λ x y. sym (append-nil (owed s))),
        λ e. absurd (false-ne-true e),
      )
      on none ((track, body) ∷ rest) quiet queued = (
        going.0,
        (λ x. x),
        (λ x. x),
        (λ _. going.1),
        (
          [],
          refl,
          λ x y.
              ap (λ l. attachments l ++ waiting_in F C T s.unconverted) (sym queued)
              ∙ sym (append-nil (owed s)),
        ),
        λ e. absurd (false-ne-true e),
      )
      on none [] quiet unqueued = pull-Pulls s going quiet unqueued

  -- What the answers of a run deliver.
  abbrev pub deliveries : List (Answer F) → List (DemuxedPacket F)
  deliveries [] = []
  deliveries (a ∷ l) = out F C T a ++ deliveries l

  -- A run delivers what the session owed and what was expected of the reads it consumed, in their
  -- order, but for what it owes still: at any moment of an unbroken walk, and with nothing left once
  -- the walk is complete.
  abbrev pub Lossless : CarrierDemuxer F → CarrierDemuxer F × List (Answer F) → Type 0
  Lossless s (t, l) =
      (consumed : Input F) × (s.input ≡ consumed ++ t.input)
      × (t.measured.unbroken ≡ true
          → t.latched ≡ none
          → deliveries l ++ owed t ≡ owed s ++ expected F C T consumed)
      × (t.measured.walk_complete ≡ true
          → (t.measured.unbroken ≡ true) × (deliveries l ≡ owed s ++ expected F C T consumed))

  -- What a run leaves as it was, if it is so at its end.
  abbrev Quiet : CarrierDemuxer F → CarrierDemuxer F × List (Answer F) → Type 0
  Quiet s (t, l) =
      (t.measured.unbroken ≡ true → s.measured.unbroken ≡ true)
      × (t.latched ≡ none → s.latched ≡ none)
      × (t.measured.walk_complete ≡ true → t.latched ≡ none)

  expected-append :
      (xs ys : Input F) → expected F C T (xs ++ ys) ≡ expected F C T xs ++ expected F C T ys
  expected-append [] ys = refl
  expected-append (x ∷ xs) ys =
      ap (λ l. item_of F C T x.outcome ++ l) (expected-append xs ys)
      ∙ sym (append_assoc (item_of F C T x.outcome) (expected F C T xs) (expected F C T ys))

  joined :
      (o d kept owing first next : List (DemuxedPacket F))
      → o ++ kept ≡ owing ++ first
      → d ≡ kept ++ next
      → o ++ d ≡ owing ++ (first ++ next)
  joined o d kept owing first next h k =
      ap (λ l. o ++ l) k
      ∙ sym (append_assoc o kept next)
      ∙ ap (λ l. l ++ next) h
      ∙ append_assoc owing first next

  append-Lossless :
      (s t : CarrierDemuxer F) (a : Answer F) (r : CarrierDemuxer F × List (Answer F))
      → Pulls s (t, a)
      → Lossless t r
      → Quiet t r
      → Lossless s (r.0, a ∷ r.1)
  append-Lossless s t a (u, l) h k q =
      let (first, here, pulled) = h.4 in
      let (next, there, ran, whole) = k in
      (
        first ++ next,
        here ∙ ap (λ i. first ++ i) there ∙ sym (append_assoc first next u.input),
        (λ x y.
            append_assoc (out F C T a) (deliveries l) (owed u)
            ∙ joined _ _ _ _ _ _ (pulled (q.0 x) (q.1 y)) (ran x y)
            ∙ ap (λ e. owed s ++ e) (sym (expected-append first next))),
        λ c. (
          (whole c).0,
          joined _ _ _ _ _ _ (pulled (q.0 (whole c).0) (q.1 (q.2 c))) (whole c).1
              ∙ ap (λ e. owed s ++ e) (sym (expected-append first next)),
        ),
      )

  -- A pull at the end of the file.
  last-Lossless :
      (s t : CarrierDemuxer F) (a : Answer F)
      → Pulls s (t, a)
      → is_end F a ≡ true
      → Lossless s (t, a ∷ [])
  last-Lossless s t a h over =
      let (consumed, split, pulled) = h.4 in
      let (ends, unqueued) = h.5 over in
      let paid = owed-unqueued t unqueued ∙ ap (waiting_in F C T) ends.0 in
      (
        consumed,
        split,
        (λ x y. ap (λ l. l ++ owed t) (append-nil (out F C T a)) ∙ pulled x y),
        λ c. (ends.2 c, ap (λ l. out F C T a ++ l) (sym paid) ∙ pulled (ends.2 c) ends.1),
      )

  last-Quiet :
      (s t : CarrierDemuxer F) (a : Answer F)
      → Pulls s (t, a)
      → is_end F a ≡ true
      → Quiet s (t, a ∷ [])
  last-Quiet s t a h over = (h.1, h.2, λ _. (h.5 over).0.1)

  none-Lossless : (s : CarrierDemuxer F) → IsGoing s → Lossless s (s, [])
  none-Lossless s going =
      ([], refl, (λ _ _. sym (append-nil (owed s))), λ c. absurd (false-ne-true (sym going.1 ∙ c)))

  abbrev Runs : CarrierDemuxer F → CarrierDemuxer F × List (Answer F) → Type 0
  Runs s r = Lossless s r × Quiet s r

  pulls-Runs : (n : ℕ) (s : CarrierDemuxer F) → IsGoing s → Runs s (pulls F n s)
  unfolding pulls
  pulls-Runs zero s going =
      (none-Lossless s going, ((λ x. x), (λ x. x), λ c. absurd (false-ne-true (sym going.1 ∙ c))))
  pulls-Runs (suc n) s going = after (next_packet F s) (next_packet-Pulls s going) (pulls-Runs n)
    where
      after :
          (r : CarrierDemuxer F × Answer F)
          → Pulls s r
          → ((t : CarrierDemuxer F) → IsGoing t → Runs t (pulls F n t))
          → Runs s (elim (is_end F (r.1)) [
            | true ↦ (r.0, r.1 ∷ [])
            | false ↦ let (u, rest) = pulls F n (r.0) in (u, r.1 ∷ rest)
          ])
      after (t, a) h more = on (is_end F a) refl
        where
          on :
              (b : Bool)
              → is_end F a ≡ b
              → Runs s (elim b [
                | true ↦ (t, a ∷ [])
                | false ↦ let (u, rest) = pulls F n t in (u, a ∷ rest)
              ])
          on true over = (last-Lossless s t a h over, last-Quiet s t a h over)
          on false lasting =
              let ran = more t (h.0, h.3 lasting) in
              (
                append-Lossless s t a (pulls F n t) h ran.0 ran.1,
                ((λ x. h.1 (ran.1.0 x)), (λ x. h.2 (ran.1.1 x)), ran.1.2),
              )

  -- However many packets are asked of a session whose walk is not over, what it has delivered, up to
  -- the end of the file or short of it, is what its attachments and its reads so far come to: each
  -- attachment and then each packet read with a payload on a timed track, once and in order, but for
  -- the attachments and the parked packet it has still to deliver, if nothing has broken its walk
  -- and no reader has panicked. If it reports its walk complete, the walk is unbroken and nothing
  -- is left to deliver.
  pub pulls-Lossless : (n : ℕ) (s : CarrierDemuxer F) → IsGoing s → Lossless s (pulls F n s)
  pulls-Lossless n s going = (pulls-Runs n s going).0
