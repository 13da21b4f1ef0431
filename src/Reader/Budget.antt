-- ===== src/Reader/Budget.antt =====
-- What a guarded reader hands over within its budget (mediaio-ffmpeg/src/reader_guard.rs).
use mediadecode.Base.{
  ℕ, ◌≤◌, min, ◌≡◌, refl, sym, ap, ◌∙◌, subst, Bool, true, false, ◌&&◌, Option, none, some, List,
  [], ◌∷◌, ◌++◌, arith, ltb, ◌==◌, if◌then◌else◌, u64_max, length, length-append, Result, ok, err,
}
use mediadecode.Reader.Meter.{
  IsMetered, Counts, Counts-none, Counts-trip, Counts-charge, Counts-then,
}
use mediadecode.Reader.Guard.{
  describe, Payload, Call, panicked, failed, gave, Source, remaining, trip, IoError,
  budget_exhausted, GuardedReader, keep_first, caught, guard, hand_over, read_guarded, seek_guarded,
}

-- What libavformat asks of its reader.
pub data Request (P : Type 0) : Type 0 where
  want : ℕ → Request P
  move : P → Request P

-- How many bytes a call gave.
abbrev pub given : {M E B : Type 0} → Call M E (List B) → ℕ
given (panicked payload) = 0
given (failed e) = 0
given (gave bytes) = length bytes

-- The contract of `Read`: no more than was asked for.
pub record Contract (S : Source) : Type 0 where
  pub within : (len : ℕ) (r : S.Reader) → given (S.read_bytes len r).1 ≤ len

module _ (S : Source) where
  abbrev pub handed_over : Result (IoError S) (List S.Byte) → List S.Byte
  handed_over (ok bytes) = bytes
  handed_over (err e) = []

  -- Requests in order, and the bytes that they were answered with.
  unfoldable pub serve : List (Request S.SeekFrom) → GuardedReader S → GuardedReader S × List S.Byte
  unfolding read_guarded seek_guarded
  serve [] g = (g, [])
  serve (want len ∷ rest) g =
      let (g1, answered) = read_guarded S len g in
      let (g2, bytes) = serve rest g1 in (g2, handed_over answered ++ bytes)
  serve (move target ∷ rest) g = serve rest (seek_guarded S target g).0

module _ (S : Source) where
  -- What calls of the reader showed: the panics that they raised, and the bytes that they gave.
  abbrev pub Seen : Type 0
  Seen = List (Payload S.Message) × List S.Byte

  abbrev panics : {A : Type 0} → Call S.Message S.Fault A → List (Payload S.Message)
  panics (panicked payload) = payload ∷ []
  panics (failed e) = []
  panics (gave a) = []

  abbrev bytes_of : Call S.Message S.Fault (List S.Byte) → List S.Byte
  bytes_of (panicked payload) = []
  bytes_of (failed e) = []
  bytes_of (gave bytes) = bytes

  abbrev seen_unless : Bool → Call S.Message S.Fault (List S.Byte) → Seen
  seen_unless true call = ([], [])
  seen_unless false call = (panics call, bytes_of call)

  -- A read of anything is refused once the budget is spent, and else asks the reader for no more
  -- than is left of it. A seek always asks the reader.
  abbrev pub seen_in : Request S.SeekFrom → GuardedReader S → Seen
  seen_in (want len) g =
      seen_unless (ltb 0 len && remaining g.meter == 0)
        (S.read_bytes (min (remaining g.meter) len) g.inner).1
  seen_in (move target) g = (panics (S.seek_to target g.inner).1, [])

  -- What the calls of the reader show while requests are served.
  unfoldable pub seen : List (Request S.SeekFrom) → GuardedReader S → Seen
  seen [] g = ([], [])
  seen (request ∷ rest) g =
      let (raised, bytes) = seen_in request g in
      let (raised', bytes') = seen rest (serve S (request ∷ []) g).0 in
      (raised ++ raised', bytes ++ bytes')

  -- The message to report after panics: the one kept before, and else that of the first.
  abbrev pub first_panic : Option S.Message → List (Payload S.Message) → Option S.Message
  first_panic (some message) raised = some message
  first_panic none [] = none
  first_panic none (payload ∷ raised) = some (describe S payload)

  abbrev pub Serves : GuardedReader S → Seen → GuardedReader S × List S.Byte → Type 0
  Serves g (raised, given_bytes) (g', bytes) =
      Counts g.meter (length bytes) g'.meter
      × (g'.message ≡ first_panic g.message raised)
      × (bytes ≡ given_bytes)

  first_panic-none : (m : Option S.Message) → m ≡ first_panic m []
  first_panic-none none = refl
  first_panic-none (some m) = refl

  first_panic-keep_first :
      (m : Option S.Message) (p : Payload S.Message) → keep_first S m p ≡ first_panic m (p ∷ [])
  first_panic-keep_first none p = refl
  first_panic-keep_first (some m) p = refl

  first_panic-append :
      (m : Option S.Message) (a b : List (Payload S.Message))
      → first_panic (first_panic m a) b ≡ first_panic m (a ++ b)
  first_panic-append (some m) a b = refl
  first_panic-append none [] b = refl
  first_panic-append none (p ∷ a) b = refl

  abbrev Reads :
      GuardedReader S → Seen → GuardedReader S × Result (IoError S) (List S.Byte) → Type 0
  Reads g shown (g', answered) = Serves g shown (g', handed_over S answered)

  -- A call of the reader, in a buffer of the length that is left.
  hand_over-Reads :
      (g : GuardedReader S) (r : S.Reader × Call S.Message S.Fault (List S.Byte))
      → IsMetered g.meter
      → given r.1 ≤ remaining g.meter
      → Reads g (panics r.1, bytes_of r.1) (hand_over S (caught S g r))
  hand_over-Reads g (r, panicked p) h fits =
      (Counts-none g.meter h, first_panic-keep_first g.message p, refl)
  hand_over-Reads g (r, failed e) h fits = (Counts-none g.meter h, first_panic-none g.message, refl)
  hand_over-Reads g (r, gave bytes) h fits =
      (Counts-charge g.meter (length bytes) h fits, first_panic-none g.message, refl)

  -- A read of nothing.
  empty-Reads :
      (g : GuardedReader S) (r : S.Reader × Call S.Message S.Fault (List S.Byte))
      → IsMetered g.meter
      → given r.1 ≤ 0
      → Reads g (panics r.1, bytes_of r.1) (caught S g r)
  empty-Reads g (r, panicked p) h fits =
      (Counts-none g.meter h, first_panic-keep_first g.message p, refl)
  empty-Reads g (r, failed e) h fits = (Counts-none g.meter h, first_panic-none g.message, refl)
  empty-Reads g (r, gave bytes) h fits = (
    subst (λ n. Counts g.meter n g.meter) (omega arith) (Counts-none g.meter h),
    first_panic-none g.message,
    refl,
  )

  module _ (C : Contract S) where
    read-Reads :
        (len : ℕ) (g : GuardedReader S)
        → IsMetered g.meter
        → Reads g (seen_in (want len) g) (read_guarded S len g)
    unfolding read_guarded
    read-Reads len g h =
        on (len == 0) (remaining g.meter == 0) (ltb 0 len && remaining g.meter == 0) refl refl refl
      where
        on :
            (empty spent refused : Bool)
            → (len == 0) ≡ empty
            → (remaining g.meter == 0) ≡ spent
            → (ltb 0 len && remaining g.meter == 0) ≡ refused
            → Reads g (seen_unless refused (S.read_bytes (min (remaining g.meter) len) g.inner).1) (
                if empty
                then guard S (S.read_bytes len) g
                else if spent
                then (record g { meter = trip g.meter }, err budget_exhausted)
                else hand_over S (guard S (S.read_bytes (min (remaining g.meter) len)) g))
        on true spent true is_empty is_spent is_refused = absurd (ground arith)
        on true spent false is_empty is_spent is_refused =
            subst
              (λ n.
                Reads g (panics (S.read_bytes n g.inner).1, bytes_of (S.read_bytes n g.inner).1)
                  (caught S g (S.read_bytes len g.inner)))
              (asked len (remaining g.meter) is_empty)
              (empty-Reads g (S.read_bytes len g.inner) h
                (nothing len is_empty (C.within len g.inner)))
          where
            asked : (len left : ℕ) → (len == 0) ≡ true → len ≡ min left len
            asked len left e = ground arith

            nothing : {n : ℕ} (len : ℕ) → (len == 0) ≡ true → n ≤ len → n ≤ 0
            nothing len e h = ground arith
        on false true false is_empty is_spent is_refused = absurd (ground arith)
        on false true true is_empty is_spent is_refused =
            (Counts-trip g.meter h (ground arith), first_panic-none g.message, refl)
        on false false true is_empty is_spent is_refused = absurd (ground arith)
        on false false false is_empty is_spent is_refused =
            hand_over-Reads g (S.read_bytes (min (remaining g.meter) len) g.inner) h
              (omega (arith, C.within (min (remaining g.meter) len) g.inner))

    move-Serves :
        (g : GuardedReader S) (r : S.Reader × Call S.Message S.Fault ℕ)
        → IsMetered g.meter
        → Serves g (panics r.1, []) ((caught S g r).0, [])
    move-Serves g (r, panicked p) h =
        (Counts-none g.meter h, first_panic-keep_first g.message p, refl)
    move-Serves g (r, failed e) h = (Counts-none g.meter h, first_panic-none g.message, refl)
    move-Serves g (r, gave at) h = (Counts-none g.meter h, first_panic-none g.message, refl)

    Serves-then :
        (g : GuardedReader S) (shown shown' : Seen) (r r' : GuardedReader S × List S.Byte)
        → Serves g shown r
        → Serves r.0 shown' r'
        → Serves g (shown.0 ++ shown'.0, shown.1 ++ shown'.1) (r'.0, r.1 ++ r'.1)
    Serves-then g (p, a') (p', b') (g1, a) (g2, b) h k = (
      subst (λ n. Counts g.meter n g2.meter) (sym (length-append a b))
          (Counts-then g.meter g1.meter g2.meter (length a) (length b) h.0 k.0),
      k.1 ∙ ap (λ m. first_panic m p') h.1 ∙ first_panic-append g.message p p',
      ap (λ l. l ++ b) h.2 ∙ ap (λ l. a' ++ l) k.2,
    )

    Serves-IsMetered :
        (g : GuardedReader S) (shown : Seen) (r : GuardedReader S × List S.Byte)
        → IsMetered g.meter
        → Serves g shown r
        → IsMetered (r.0).meter
    Serves-IsMetered g shown (g1, a) h k = (k.0.2, subst (λ b. b ≤ u64_max) (sym k.0.1) h.1)

    -- Whatever is asked of a guarded reader whose meter is within a budget of 64 bits, by reads of
    -- any length and seeks in any order: the bytes that it hands over are exactly those that the
    -- caller's reader gave, in order, its meter counts exactly them, they stay within the budget,
    -- and the meter is tripped by no request that came before the whole budget was handed over. The
    -- message that it keeps is the one kept before, if there was one, and else that of the first
    -- panic that the caller's reader raised, if it raised any. The caller's reader gives no more
    -- bytes than it is asked for.
    pub serve-Serves :
        (requests : List (Request S.SeekFrom)) (g : GuardedReader S)
        → IsMetered g.meter
        → Serves g (seen requests g) (serve S requests g)
    unfolding serve seek_guarded seen
    serve-Serves [] g h = (Counts-none g.meter h, first_panic-none g.message, refl)
    serve-Serves (want len ∷ rest) g h =
        let r = read_guarded S len g in
        let here : Serves g (seen_in (want len) g) (r.0, handed_over S r.1) = read-Reads len g h in
        Serves-then g (seen_in (want len) g) (seen rest r.0) (r.0, handed_over S r.1)
          (serve S rest r.0) here
          (serve-Serves rest r.0
            (Serves-IsMetered g (seen_in (want len) g) (r.0, handed_over S r.1) h here))
    serve-Serves (move target ∷ rest) g h =
        let r = seek_guarded S target g in
        let here : Serves g (seen_in (move target) g) (r.0, []) =
          move-Serves g (S.seek_to target g.inner) h in
        Serves-then g (seen_in (move target) g) (seen rest r.0) (r.0, []) (serve S rest r.0) here
          (serve-Serves rest r.0 (Serves-IsMetered g (seen_in (move target) g) (r.0, []) h here))
