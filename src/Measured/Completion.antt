-- ===== src/Measured/Completion.antt =====
-- When a walk completes (mediaio-ffmpeg/src/measured.rs).
use mediadecode.Base.{
  pos, ltb_ℤ, i64_checked_add, ℕ, zero, suc, ◌≤◌, ◌<◌, ◌≡◌, refl, sym, ap, ◌∙◌, ◌↔◌, ◌⊎◌, inl, inr,
  Bool, true, false, ◌&&◌, none, some, List, [], ◌∷◌, ◌++◌, arith, ltb, if◌then◌else◌, length,
  get_elem?, all_of, length-set, length-replicate,
}
use mediadecode.Measured.{fresh_slot, Measured, new, observe_slot, observe, end_of_file, break_walk}
use mediadecode.Measured.Walk.{Packet}

-- What a session tells its measurement.
pub data Event : Type 0 where
  packet : Packet → Event
  eof : Event
  broken : Event

abbrev pub step : Measured → Event → Measured
step m (packet p) = observe m p.track p.pts p.duration
step m eof = end_of_file m
step m broken = break_walk m

abbrev pub run : Measured → List Event → Measured
run m [] = m
run m (e ∷ es) = run (step m e) es

-- An event that skips nothing: no break, and no packet on a known track whose end does not fit.
abbrev pub skips_nothing : ℕ → Event → Bool
skips_nothing n (packet p) = elim p.pts [
  | none ↦ true
  | some x ↦
      if ltb p.track n && ltb_ℤ (pos 0) p.duration
      then elim (i64_checked_add x p.duration) [ some _ ↦ true | none ↦ false ]
      else true
]
skips_nothing n eof = true
skips_nothing n broken = false

get_elem?-bounds {ℓ} :
    {A : Type ℓ} (xs : List A) (i : ℕ)
    → ((x : A) × (get_elem? xs i ≡ some x) × (i < length xs))
      ⊎ ((get_elem? xs i ≡ none) × (length xs ≤ i))
get_elem?-bounds [] i = inr (refl, omega arith)
get_elem?-bounds (x ∷ xs) zero = inl (x, refl, omega arith)
get_elem?-bounds (x ∷ xs) (suc i) = elim (get_elem?-bounds xs i) [
  | inl (y, e, h) ↦ inl (y, e, omega arith)
  | inr (e, h) ↦ inr (e, omega arith)
]

step_frozen : (m : Measured) (e : Event) → m.walk_complete ≡ true → step m e ≡ m
unfolding observe end_of_file break_walk
step_frozen m (packet p) h = ground arith
step_frozen m eof h = ground arith
step_frozen m broken h = ground arith

-- A completed walk is frozen: no packet, end of file or break changes anything of it.
run_frozen : (m : Measured) (es : List Event) → m.walk_complete ≡ true → run m es ≡ m
run_frozen m [] h = refl
run_frozen m (e ∷ es) h = rw (step_frozen m e h) (run_frozen m es h)

-- A walk of `n` tracks that is not complete, and whether it is still unbroken.
record IsOpen (n : ℕ) (u : Bool) (m : Measured) : Type 0 where
  tracks : length m.ends ≡ n
  still : m.unbroken ≡ u
  not_done : m.walk_complete ≡ false

packet-IsOpen :
    (n : ℕ) (u : Bool) (m : Measured) (p : Packet)
    → IsOpen n u m
    → IsOpen n (u && skips_nothing n (packet p)) (step m (packet p))
unfolding observe observe_slot
packet-IsOpen n u m p o = elim (get_elem?-bounds m.ends p.track) [
  | inl (s, e, h) ↦ ground (arith, length-set m.ends p.track (observe_slot s p.pts p.duration).0)
  | inr (e, h) ↦ ground arith
]

broken-IsOpen :
    (n : ℕ) (u : Bool) (m : Measured) → IsOpen n u m → IsOpen n (u && false) (step m broken)
unfolding break_walk
broken-IsOpen n u m o = ground arith

eof_done : (n : ℕ) (m : Measured) → IsOpen n true m → (step m eof).walk_complete ≡ true
unfolding end_of_file
eof_done n m o = ground arith

eof_broken : (n : ℕ) (m : Measured) → IsOpen n false m → step m eof ≡ m
unfolding end_of_file
eof_broken n m o = ground arith

-- The events up to the first end of file skip nothing, and there is an end of file.
abbrev covers_file : ℕ → Bool → List Event → Bool
covers_file n u [] = false
covers_file n u (packet p ∷ es) = covers_file n (u && skips_nothing n (packet p)) es
covers_file n u (eof ∷ es) = u
covers_file n u (broken ∷ es) = covers_file n false es

covers_file-false : (n : ℕ) (es : List Event) → covers_file n false es ≡ false
covers_file-false n [] = refl
covers_file-false n (packet p ∷ es) = covers_file-false n es
covers_file-false n (eof ∷ es) = refl
covers_file-false n (broken ∷ es) = covers_file-false n es

run-covers_file :
    (n : ℕ) (u : Bool) (m : Measured) (es : List Event)
    → IsOpen n u m
    → (run m es).walk_complete ≡ covers_file n u es
run-covers_file n u m [] o = o.not_done
run-covers_file n u m (packet p ∷ es) o =
    run-covers_file n (u && skips_nothing n (packet p)) (step m (packet p)) es
      (packet-IsOpen n u m p o)
run-covers_file n true m (eof ∷ es) o =
    ap (λ (x : Measured). x.walk_complete) (run_frozen (step m eof) es (eof_done n m o))
    ∙ eof_done n m o
run-covers_file n false m (eof ∷ es) o =
    ap (λ (x : Measured). (run x es).walk_complete) (eof_broken n m o)
    ∙ run-covers_file n false m es o
    ∙ covers_file-false n es
run-covers_file n true m (broken ∷ es) o =
    run-covers_file n false (step m broken) es (broken-IsOpen n true m o)
run-covers_file n false m (broken ∷ es) o =
    run-covers_file n false (step m broken) es (broken-IsOpen n false m o)

abbrev Split : ℕ → Bool → List Event → Type 0
Split n u es =
    (pre : List Event) × (post : List Event) × (es ≡ pre ++ eof ∷ post)
    × ((u && all_of (skips_nothing n) pre) ≡ true)

cons-Split :
    (n : ℕ) (u : Bool) (e : Event) (es : List Event)
    → Split n (u && skips_nothing n e) es
    → Split n u (e ∷ es)
cons-Split n u e es (pre, post, q, h) = (e ∷ pre, post, ap (λ l. e ∷ l) q, ground arith)

to-Split : (n : ℕ) (u : Bool) (es : List Event) → covers_file n u es ≡ true → Split n u es
to-Split n u [] h = cc
to-Split n u (packet p ∷ es) h =
    cons-Split n u (packet p) es (to-Split n (u && skips_nothing n (packet p)) es h)
to-Split n u (eof ∷ es) h = ([], es, refl, ground arith)
to-Split n u (broken ∷ es) h = cc (covers_file-false n es)

of-Split :
    (n : ℕ) (u : Bool) (pre post : List Event)
    → (u && all_of (skips_nothing n) pre) ≡ true
    → covers_file n u (pre ++ eof ∷ post) ≡ true
of-Split n u [] post h = ground arith
of-Split n u (packet p ∷ pre) post h =
    of-Split n (u && skips_nothing n (packet p)) pre post (ground arith)
of-Split n u (eof ∷ pre) post h = ground arith
of-Split n u (broken ∷ pre) post h = ground arith

new-IsOpen : (n : ℕ) (m : Measured) → new true n ≡ some m → IsOpen n true m
unfolding new
new-IsOpen n m made = ground (arith, length-replicate n fresh_slot)

-- A walk over a fresh measurement of `n` tracks is complete exactly when the session answered an
-- end of file before which nothing was skipped: no break, and no end that does not fit in `i64`.
pub run-complete_iff :
    (n : ℕ) (m : Measured) (es : List Event)
    → new true n ≡ some m
    → ((run m es).walk_complete ≡ true) ↔ (
        (pre : List Event) × (post : List Event) × (es ≡ pre ++ eof ∷ post)
        × (all_of (skips_nothing n) pre ≡ true))
run-complete_iff n m es made = (
  λ h. let (pre, post, q, w) = to-Split n true es (sym done ∙ h) in (pre, post, q, ground arith),
  λ s. done ∙ (ap (covers_file n true) s.2 ∙ of-Split n true s.0 s.1 s.3),
)
  where
    done : (run m es).walk_complete ≡ covers_file n true es
    done = run-covers_file n true m es (new-IsOpen n m made)
