-- ===== src/Demuxer/Turns.antt =====
-- What one packet becomes in a session, and what it is to the caller (mediadecode-ffmpeg/src/demuxer.rs).
use mediadecode.Base.{
  ℤ, ℕ, ◌≡◌, refl, sym, ap, ◌∙◌, Bool, true, false, Option, none, some, List, [], ◌∷◌, ◌++◌,
  append-nil, arith, if◌then◌else◌, get_elem?, Result, ok, err,
}
use mediadecode.Measured.{Measured, observe, break_walk}
use mediadecode.Demuxer.Session.{
  is_timed, TrackKind, video, audio, subtitle, data_track, attachment, unknown, PacketBufferError,
  parks_in_demux, PayloadProvenance, Outcome, got, read_eof, invalid_data, read_fault, Format,
  Input, DemuxedPacket, packet_buffer, CarrierDemuxer, Answer, is_end, break_session, deliver, Turn,
  answer, again, refuse, provenance_of, convert, on_track, place,
}

-- What is relied on from the carriers: a packet that can be carried is carried by its content, or
-- not at all if it has no payload.
pub record Carriers (F : Format) : Type 0 where
  pub has_payload : F.Packet → Bool
  pub content : TrackKind → F.Packet → F.Carrier
  pub carried :
      (k : TrackKind) (p : F.Packet) (v : PayloadProvenance) (w : F.World)
      (built : Option F.Carrier)
      → (F.packet_from_borrowed k p v w).1 ≡ ok built
      → built ≡ (if has_payload p then some (content k p) else none)

observe_complete :
    (m : Measured) (i : ℕ) (pts : Option ℤ) (d : ℤ)
    → (observe m i pts d).walk_complete ≡ m.walk_complete
unfolding observe
observe_complete m i pts d = ground arith

observe_unbroken :
    (m : Measured) (i : ℕ) (pts : Option ℤ) (d : ℤ)
    → (observe m i pts d).unbroken ≡ true
    → m.unbroken ≡ true
unfolding observe
observe_unbroken m i pts d h = ground arith

pub break_complete : (m : Measured) → m.walk_complete ≡ false → (break_walk m).walk_complete ≡ false
unfolding break_walk
break_complete m h = ground arith

pub break_broken : (m : Measured) → m.walk_complete ≡ false → (break_walk m).unbroken ≡ false
unfolding break_walk
break_broken m h = ground arith

pub false-ne-true : false ≡ true → ⊥
false-ne-true h = ground (arith, h)

pub never_unbroken : (m : Measured) → m.walk_complete ≡ false → (break_walk m).unbroken ≡ true → ⊥
never_unbroken m h u = false-ne-true (sym (break_broken m h) ∙ u)

abbrev value_or : {A : Type 0} → A → Option A → A
value_or a none = a
value_or a (some b) = b

abbrev pub there_is : {A : Type 0} → Option A → Bool
there_is none = false
there_is (some a) = true

module _ (F : Format) (C : Carriers F) (T : List TrackKind) where
  abbrev list_of : {A : Type 0} → Option A → List A
  list_of none = []
  list_of (some a) = a ∷ []

  -- What a packet is to the caller: a packet of its track, unless it has no payload, or its track is
  -- not timed or not there.
  abbrev item_on : F.Packet → Option TrackKind → List (DemuxedPacket F)
  item_on p none = []
  item_on p (some kind) =
      if C.has_payload p then list_of (deliver F kind (F.stream p) (C.content kind p)) else []

  abbrev pub item : F.Packet → List (DemuxedPacket F)
  item p = item_on p (get_elem? T (F.stream p))

  abbrev pub item_of : Outcome F.Packet F.Fault → List (DemuxedPacket F)
  item_of (got p) = item p
  item_of read_eof = []
  item_of invalid_data = []
  item_of (read_fault e) = []

  abbrev pub expected : Input F → List (DemuxedPacket F)
  expected [] = []
  expected (r ∷ rs) = item_of r.outcome ++ expected rs

  -- What an answer delivers, and what is parked.
  abbrev pub out : Answer F → List (DemuxedPacket F)
  out (ok (some d)) = d ∷ []
  out (ok none) = []
  out (err e) = []

  abbrev pub waiting_in : Option (F.Packet × PayloadProvenance) → List (DemuxedPacket F)
  waiting_in none = []
  waiting_in (some (p, v)) = item p

  -- What a turn makes of a packet.
  abbrev pub Settles : F.Packet → CarrierDemuxer F × Turn F → Type 0
  Settles p (s, answer a) =
      (is_end F a ≡ false)
      × (s.measured.unbroken ≡ true → out a ++ waiting_in s.unconverted ≡ item p)
  Settles p (s, again) = (s.unconverted ≡ none) × (s.measured.unbroken ≡ true → item p ≡ [])

  -- What a turn leaves alone.
  abbrev pub Keeps : CarrierDemuxer F → CarrierDemuxer F → Type 0
  Keeps s t =
      (t.tracks ≡ s.tracks)
      × (t.measured.walk_complete ≡ false)
      × (t.pending ≡ s.pending)
      × (t.input ≡ s.input)
      × (t.latched ≡ s.latched)
      × (t.measured.unbroken ≡ true → s.measured.unbroken ≡ true)

  abbrev pub Turns : F.Packet → CarrierDemuxer F → CarrierDemuxer F × Turn F → Type 0
  Turns p s (t, turn) = Keeps s t × Settles p (t, turn)

  -- A session whose walk is not over, with nothing parked.
  abbrev pub IsOpen : CarrierDemuxer F → Type 0
  IsOpen s =
      (s.tracks ≡ T)
      × (s.measured.walk_complete ≡ false)
      × (s.unconverted ≡ none)
      × (s.latched ≡ none)

  -- A packet's item, once its track and its payload are known.
  item-eq :
      (p : F.Packet) (kind : TrackKind) (full : Bool)
      → get_elem? T (F.stream p) ≡ some kind
      → C.has_payload p ≡ full
      → item p ≡ (if full then list_of (deliver F kind (F.stream p) (C.content kind p)) else [])
  item-eq p kind full there has =
      ap (item_on p) there
      ∙ ap (λ b. if b then list_of (deliver F kind (F.stream p) (C.content kind p)) else []) has

  deliver-timed :
      (kind : TrackKind) (i : ℕ) (c : F.Carrier)
      → is_timed kind ≡ true
      → (d : DemuxedPacket F) × (deliver F kind i c ≡ some d)
  deliver-timed video i c h = (_, refl)
  deliver-timed audio i c h = (_, refl)
  deliver-timed subtitle i c h = (_, refl)
  deliver-timed data_track i c h = (_, refl)
  deliver-timed attachment i c h = absurd (ground (arith, h))
  deliver-timed unknown i c h = absurd (ground (arith, h))

  Keeps-broken : (s t : CarrierDemuxer F) → Keeps s t → Keeps s (break_session F t)
  Keeps-broken s t keeps = (
    keeps.0,
    break_complete t.measured keeps.1,
    keeps.2,
    keeps.3,
    keeps.4,
    λ u. absurd (never_unbroken t.measured keeps.1 u),
  )

  refuse-Turns :
      (p : F.Packet) (v : PayloadProvenance) (e : PacketBufferError) (i : ℕ)
      (s t : CarrierDemuxer F)
      → Keeps s t
      → t.unconverted ≡ none
      → Turns p s (refuse F p v e t, answer (err (packet_buffer i e)))
  unfolding refuse
  refuse-Turns p v e i s t keeps free = on (parks_in_demux e)
    where
      on :
          (parks : Bool)
          → Turns p s (
            (if parks then record t { unconverted = some (p, v) } else break_session F t),
            answer (err (packet_buffer i e)),
          )
      on true = (keeps, (refl, λ u. refl))
      on false = (Keeps-broken s t keeps, (refl, λ u. absurd (never_unbroken t.measured keeps.1 u)))

  out-ok : (o : Option (DemuxedPacket F)) → out (ok o) ≡ list_of o
  out-ok none = refl
  out-ok (some d) = refl

  -- A carried packet is the packet's item.
  carried-Settles :
      (kind : TrackKind) (p : F.Packet) (c : F.Carrier) (s : CarrierDemuxer F)
      → is_timed kind ≡ true
      → get_elem? T (F.stream p) ≡ some kind
      → s.unconverted ≡ none
      → some c ≡ (if C.has_payload p then some (C.content kind p) else none)
      → Settles p (s, answer (ok (deliver F kind (F.stream p) c)))
  carried-Settles kind p c s timed there free same = on (C.has_payload p) refl same
    where
      i : ℕ
      i = F.stream p

      on :
          (full : Bool)
          → C.has_payload p ≡ full
          → some c ≡ (if full then some (C.content kind p) else none)
          → Settles p (s, answer (ok (deliver F kind i c)))
      on true has same =
          let (d, known) = deliver-timed kind i c timed in
          (
            ap (λ o. is_end F (ok o)) known,
            λ u.
                ap (λ w. out (ok (deliver F kind i c)) ++ waiting_in w) free
                ∙ append-nil (out (ok (deliver F kind i c)))
                ∙ out-ok (deliver F kind i c)
                ∙ ap (λ x. list_of (deliver F kind i x)) (ap (value_or c) same)
                ∙ sym (item-eq p kind true there has),
          )
      on false has same = absurd (false-ne-true (sym (ap there_is same)))

  empty-Settles :
      (kind : TrackKind) (p : F.Packet) (s : CarrierDemuxer F)
      → get_elem? T (F.stream p) ≡ some kind
      → s.unconverted ≡ none
      → none ≡ (if C.has_payload p then some (C.content kind p) else none)
      → Settles p (s, again)
  empty-Settles kind p s there free same = on (C.has_payload p) refl same
    where
      on :
          (full : Bool)
          → C.has_payload p ≡ full
          → none ≡ (if full then some (C.content kind p) else none)
          → Settles p (s, again)
      on true has same = absurd (false-ne-true (ap there_is same))
      on false has same = (free, λ u. item-eq p kind false there has)

  convert-Turns :
      (kind : TrackKind) (p : F.Packet) (v : PayloadProvenance) (s t : CarrierDemuxer F)
      → Keeps s t
      → t.unconverted ≡ none
      → is_timed kind ≡ true
      → get_elem? T (F.stream p) ≡ some kind
      → Turns p s (convert F kind p v t)
  unfolding convert
  convert-Turns kind p v s t keeps free timed there =
      on (F.packet_from_borrowed kind p v t.world).1 refl
    where
      t1 : CarrierDemuxer F
      t1 = record t { world = (F.packet_from_borrowed kind p v t.world).0 }

      on :
          (converted : Result PacketBufferError (Option F.Carrier))
          → (F.packet_from_borrowed kind p v t.world).1 ≡ converted
          → Turns p s (elim converted [
            | err e ↦ (refuse F p v e t1, answer (err (packet_buffer (F.stream p) e)))
            | ok built ↦ elim built [
              | none ↦ (t1, again)
              | some carrier ↦ (t1, answer (ok (deliver F kind (F.stream p) carrier)))
            ]
          ])
      on (err e) known = refuse-Turns p v e (F.stream p) s t1 keeps free
      on (ok none) known =
          (keeps, empty-Settles kind p t1 there free (C.carried kind p v t.world none known))
      on (ok (some c)) known = (
        keeps,
        carried-Settles kind p c t1 timed there free (C.carried kind p v t.world (some c) known),
      )

  same-if : {A : Type 0} (b : Bool) (a : A) → (if b then a else a) ≡ a
  same-if true a = refl
  same-if false a = refl

  -- A packet on a track that is not timed is no item.
  item-untimed :
      (p : F.Packet) (kind : TrackKind)
      → get_elem? T (F.stream p) ≡ some kind
      → deliver F kind (F.stream p) (C.content kind p) ≡ none
      → item p ≡ []
  item-untimed p kind there none_of =
      ap (item_on p) there
      ∙ ap (λ o. if C.has_payload p then list_of o else []) none_of
      ∙ same-if (C.has_payload p) []

  Keeps-same : (s : CarrierDemuxer F) → IsOpen s → Keeps s s
  Keeps-same s ready = (refl, ready.1, refl, refl, refl, λ u. u)

  on_track-Turns :
      (kind : TrackKind) (p : F.Packet) (parked : Option PayloadProvenance) (s : CarrierDemuxer F)
      → IsOpen s
      → get_elem? T (F.stream p) ≡ some kind
      → Turns p s (on_track F kind p parked s)
  unfolding on_track
  on_track-Turns attachment p parked s ready there =
      (Keeps-same s ready, (ready.2, λ u. item-untimed p attachment there refl))
  on_track-Turns unknown p parked s ready there =
      (Keeps-broken s s (Keeps-same s ready), (ready.2, λ u. item-untimed p unknown there refl))
  on_track-Turns kind p parked s ready there =
      convert-Turns kind p (provenance_of F p parked) s
        (record s { measured = observe s.measured (F.stream p) (F.pts p) (F.duration p) })
        (
          refl,
          observe_complete s.measured (F.stream p) (F.pts p) (F.duration p) ∙ ready.1,
          refl,
          refl,
          refl,
          observe_unbroken s.measured (F.stream p) (F.pts p) (F.duration p),
        )
        ready.2 refl there

  pub place-Turns :
      (p : F.Packet) (parked : Option PayloadProvenance) (s : CarrierDemuxer F)
      → IsOpen s
      → Turns p s (place F p parked s)
  unfolding place
  place-Turns p parked s ready =
      on (get_elem? s.tracks (F.stream p)) (ap (λ l. get_elem? l (F.stream p)) (sym ready.0))
    where
      on :
          (row : Option TrackKind)
          → get_elem? T (F.stream p) ≡ row
          → Turns p s (elim row [
            | none ↦ (record (break_session F s) { unplaceable_reported = true }, again)
            | some kind ↦ on_track F kind p parked s
          ])
      on none there = (Keeps-broken s s (Keeps-same s ready), (ready.2, λ u. ap (item_on p) there))
      on (some kind) there = on_track-Turns kind p parked s ready there
