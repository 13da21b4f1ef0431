-- ===== src/Measured/Walk.antt =====
-- What a walk has measured, told from the packets read (mediaio-ffmpeg/src/measured.rs).
use mediadecode.Base.{
  ℤ, pos, ◌≤ℤ◌, ltb_ℤ, max_ℤ_parts, max_ℤ, i64_checked_add, ℕ, ◌<◌, ◌≡◌, refl, sym, ap, ◌∙◌, subst,
  ◌≢◌, ◌⊎◌, inl, inr, Bool, true, false, ◌&&◌, Option, none, some, List, [], ◌∷◌, arith, ◌==◌,
  if◌then◌else◌, Bool-cases, Option-cases, get_elem?, replicate, get_elem?-set_self,
  get_elem?-set_ne, get_elem?-replicate,
}
use mathlib.Core.Option.{some-injective}
use mediadecode.Measured.{
  Figure, unseen, end, unrepresentable, Slot, Measured, fresh_slot, new, get, MeasuredEnd, fold_end,
  observe_slot, observe,
}

-- A timed packet: its track, its timestamp if it has one, and its duration.
pub record Packet : Type 0 where
  pub track : ℕ
  pub pts : Option ℤ
  pub duration : ℤ

-- Feeds the packets to the measurement, in the order read.
abbrev pub observe_all : Measured → List Packet → Measured
observe_all m [] = m
observe_all m (p ∷ ps) = observe_all (observe m p.track p.pts p.duration) ps

-- The packet can place an end of its own: it has a timestamp and a positive duration.
abbrev pub is_timed : Packet → Bool
is_timed p = elim p.pts [ none ↦ false | some _ ↦ ltb_ℤ (pos 0) p.duration ]

-- The instant at which a packet ends, as far as it can be told; `none` does not fit in `i64`.
abbrev pub packet_end : ℤ → ℤ → Option ℤ
packet_end pts duration = if ltb_ℤ (pos 0) duration then i64_checked_add pts duration else some pts

-- Every packet on `t` passes the test.
abbrev pub all_on : (Packet → Bool) → ℕ → List Packet → Bool
all_on test t [] = true
all_on test t (p ∷ ps) = (if p.track == t then test p else true) && all_on test t ps

-- The packet's end, if it has a timestamp, is representable and at most `e`.
abbrev pub EndBy : ℤ → Option ℤ → ℤ → Type 0
EndBy e none d = Unit {0}
EndBy e (some x) d = (y : ℤ) × (packet_end x d ≡ some y) × (y ≤ℤ e)

-- Each packet on `t` with a timestamp ends at or before `e`.
abbrev pub EndsBy : ℤ → ℕ → List Packet → Type 0
EndsBy e t [] = Unit {0}
EndsBy e t (p ∷ ps) = (p.track ≡ t → EndBy e p.pts p.duration) × EndsBy e t ps

-- Some packet on `t` ends at `e`.
pub data Attains (e : ℤ) (t : ℕ) : List Packet → Type 0 where
  at_head :
      {p : Packet} {ps : List Packet} (x : ℤ)
      → p.track ≡ t
      → p.pts ≡ some x
      → packet_end x p.duration ≡ some e
      → Attains e t (p ∷ ps)
  later : {p : Packet} {ps : List Packet} → Attains e t ps → Attains e t (p ∷ ps)

-- One slot fed with the packets of its track alone.
slot_after : Slot → ℕ → List Packet → Slot
slot_after s t [] = s
slot_after s t (p ∷ ps) =
    slot_after (if p.track == t then (observe_slot s p.pts p.duration).0 else s) t ps

observe-slot :
    (m : Measured) (t : ℕ) (s : Slot) (p : Packet)
    → m.walk_complete ≡ false
    → get_elem? m.ends t ≡ some s
    → get_elem? (observe m p.track p.pts p.duration).ends t
      ≡ some (if p.track == t then (observe_slot s p.pts p.duration).0 else s)
unfolding observe
observe-slot m t s p open_walk here = elim (Option-cases (get_elem? m.ends p.track)) [
  | inl no_track ↦ ground arith
  | inr (s', found) ↦ ground (
    arith,
    get_elem?-set_self m.ends t (observe_slot s' p.pts p.duration).0 s,
    get_elem?-set_ne m.ends p.track t (observe_slot s' p.pts p.duration).0,
  )
]

observe-walk_complete :
    (m : Measured) (t : ℕ) (pts : Option ℤ) (d : ℤ)
    → (observe m t pts d).walk_complete ≡ m.walk_complete
unfolding observe
observe-walk_complete m t pts d = ground arith

observe_all-slot :
    (m : Measured) (t : ℕ) (s : Slot) (ps : List Packet)
    → m.walk_complete ≡ false
    → get_elem? m.ends t ≡ some s
    → get_elem? (observe_all m ps).ends t ≡ some (slot_after s t ps)
unfolding slot_after
observe_all-slot m t s [] c h = h
observe_all-slot m t s (p ∷ ps) c h =
    observe_all-slot (observe m p.track p.pts p.duration) t
      (if p.track == t then (observe_slot s p.pts p.duration).0 else s) ps
      (observe-walk_complete m p.track p.pts p.duration ∙ c) (observe-slot m t s p c h)

-- What a figure says of the packets that it has taken in, beside what it said before them.
record Covers (e : ℤ) (t : ℕ) (before : Figure) (ps : List Packet) : Type 0 where
  bounds_all : EndsBy e t ps
  attained : (before ≡ end e) ⊎ Attains e t ps
  bounds_before : (e₀ : ℤ) → before ≡ end e₀ → e₀ ≤ℤ e
  was_named : before ≢ unrepresentable

-- The greatest packet end that a figure names so far takes in one more end.
fold_end-Covers :
    (f : Figure) (y e : ℤ) (t : ℕ) (p : Packet) (ps : List Packet) (x : ℤ)
    → p.track ≡ t
    → p.pts ≡ some x
    → packet_end x p.duration ≡ some y
    → Covers e t (fold_end f y) ps
    → Covers e t f (p ∷ ps)
fold_end-Covers unseen y e t p ps x ht hp hy c = record {
  bounds_all = (
    λ _. subst (λ o. EndBy e o p.duration) (sym hp) (y, hy, c.bounds_before y refl),
    c.bounds_all,
  );
  attained = elim c.attained [
    | inl q ↦ inr (at_head x ht hp (hy ∙ ground arith))
    | inr a ↦ inr (later a)
  ];
  bounds_before = λ e₀ q. cc;
  was_named = λ q. cc;
}
fold_end-Covers (end z) y e t p ps x ht hp hy c = record {
  bounds_all = (
    λ _.
        subst (λ o. EndBy e o p.duration) (sym hp)
          (y, hy, omega (arith, max_ℤ_parts z y, c.bounds_before (max_ℤ z y) refl)),
    c.bounds_all,
  );
  attained = elim c.attained [
    | inl q ↦ elim (max_ℤ_parts z y).2 [
      | inl l ↦ inl (rw l at q)
      | inr r ↦ inr (at_head x ht hp (hy ∙ ground arith))
    ]
    | inr a ↦ inr (later a)
  ];
  bounds_before = λ e₀ q. ground (arith, max_ℤ_parts z y, c.bounds_before (max_ℤ z y) refl);
  was_named = λ q. cc;
}
fold_end-Covers unrepresentable y e t p ps x ht hp hy c = absurd (c.was_named refl)

observe_slot-figure :
    (s : Slot) (x d : ℤ)
    → (observe_slot s (some x) d).0.figure
      ≡ elim (packet_end x d) [ some y ↦ fold_end s.figure y | none ↦ unrepresentable ]
unfolding observe_slot
observe_slot-figure s x d = ground arith

timed-Covers :
    (s : Slot) (t : ℕ) (p : Packet) (ps : List Packet) (e x : ℤ)
    → p.track ≡ t
    → p.pts ≡ some x
    → Covers e t (observe_slot s (some x) p.duration).0.figure ps
    → Covers e t s.figure (p ∷ ps)
timed-Covers s t p ps e x ht hp c = elim (Option-cases (packet_end x p.duration)) [
  | inl lost ↦ absurd (c.was_named (ground (arith, observe_slot-figure s x p.duration)))
  | inr (y, hy) ↦ fold_end-Covers s.figure y e t p ps x ht hp hy (rw (← ground_figure y hy) c)
]
  where
    ground_figure :
        (y : ℤ)
        → packet_end x p.duration ≡ some y
        → (observe_slot s (some x) p.duration).0.figure ≡ fold_end s.figure y
    ground_figure y hy = ground (arith, observe_slot-figure s x p.duration)

-- A packet that moves no figure leaves what is known as it was.
skip-Covers :
    (f : Figure) (t : ℕ) (p : Packet) (ps : List Packet) (e : ℤ)
    → (p.track ≡ t → EndBy e p.pts p.duration)
    → Covers e t f ps
    → Covers e t f (p ∷ ps)
skip-Covers f t p ps e free c = record {
  bounds_all = (free, c.bounds_all);
  attained = elim c.attained [ inl q ↦ inl q | inr a ↦ inr (later a) ];
  bounds_before = c.bounds_before;
  was_named = c.was_named;
}

step-Covers :
    (s : Slot) (t : ℕ) (p : Packet) (ps : List Packet) (e : ℤ)
    → Covers e t (if p.track == t then (observe_slot s p.pts p.duration).0 else s).figure ps
    → Covers e t s.figure (p ∷ ps)
unfolding observe_slot
step-Covers s t p ps e c = elim (Bool-cases (p.track == t)) [
  | inl on ↦ elim (Option-cases p.pts) [
    | inl no_pts ↦ skip-Covers s.figure t p ps e (λ _. rw no_pts tt) (rw (on, no_pts) at c)
    | inr (x, hp) ↦ timed-Covers s t p ps e x (ground arith) hp (rw (on, hp) at c)
  ]
  | inr off ↦ skip-Covers s.figure t p ps e (λ h. absurd (ground arith)) (rw off at c)
]

slot_after-Covers :
    (s : Slot) (t : ℕ) (ps : List Packet) (e : ℤ)
    → (slot_after s t ps).figure ≡ end e
    → Covers e t s.figure ps
unfolding slot_after
slot_after-Covers s t [] e h = record {
  bounds_all = tt;
  attained = inl h;
  bounds_before = λ e₀ q. ground arith;
  was_named = λ q. cc;
}
slot_after-Covers s t (p ∷ ps) e h =
    step-Covers s t p ps e
      (slot_after-Covers (if p.track == t then (observe_slot s p.pts p.duration).0 else s) t ps e h)

new_slot :
    (n t : ℕ) (ps : List Packet) (m : Measured)
    → new true n ≡ some m
    → t < n
    → get_elem? (observe_all m ps).ends t ≡ some (slot_after fresh_slot t ps)
unfolding new
new_slot n t ps m made lt =
    let e : record { ends = replicate n fresh_slot; unbroken = true; walk_complete = false } ≡ m =
      some-injective _ _ made in
    observe_all-slot m t fresh_slot ps (ap (λ (x : Measured). x.walk_complete) (sym e))
      (ap (λ (x : Measured). get_elem? x.ends t) (sym e) ∙ get_elem?-replicate n t fresh_slot lt)

observe_slot-exact :
    (s : Slot) (p : Packet)
    → (observe_slot s p.pts p.duration).0.figure ≢ unrepresentable
    → (observe_slot s p.pts p.duration).0.exact ≡ (is_timed p && s.exact)
unfolding observe_slot
observe_slot-exact s p h = ground arith

slot_after-named :
    (s : Slot) (t : ℕ) (ps : List Packet) (e : ℤ)
    → (slot_after s t ps).figure ≡ end e
    → s.figure ≢ unrepresentable
slot_after-named s t ps e h = (slot_after-Covers s t ps e h).was_named

slot_after-exact :
    (s : Slot) (t : ℕ) (ps : List Packet) (e : ℤ)
    → (slot_after s t ps).figure ≡ end e
    → (slot_after s t ps).exact ≡ (s.exact && all_on is_timed t ps)
unfolding slot_after
slot_after-exact s t [] e h = ground arith
slot_after-exact s t (p ∷ ps) e h =
    let s' = if p.track == t then (observe_slot s p.pts p.duration).0 else s in
    ground
      (arith, slot_after-exact s' t ps e h, slot_after-named s' t ps e h, observe_slot-exact s p)

slot_after-greatest :
    (t : ℕ) (ps : List Packet) (e : ℤ)
    → (slot_after fresh_slot t ps).figure ≡ end e
    → EndsBy e t ps × Attains e t ps × ((slot_after fresh_slot t ps).exact ≡ all_on is_timed t ps)
slot_after-greatest t ps e h = elim c.attained [
  | inl q ↦ cc
  | inr a ↦ (c.bounds_all, a, slot_after-exact fresh_slot t ps e h)
]
  where
    c : Covers e t unseen ps
    c = slot_after-Covers fresh_slot t ps e h

-- What `get` answers on a slot.
slot_end :
    {Timebase Timestamp : Type 0} (timestamp : ℤ → Timebase → Timestamp) (m : Measured) (t : ℕ)
    (tb : Timebase) (s : Slot) (r : MeasuredEnd Timestamp)
    → get_elem? m.ends t ≡ some s
    → get timestamp m t tb ≡ some r
    → (e : ℤ) × (s.figure ≡ end e) × (r.end ≡ timestamp e tb) × (r.exact ≡ s.exact)
unfolding get
slot_end timestamp m t tb s r found h = elim (Figure-cases s.figure) [
  | inl (e, q) ↦ (e, q, ground arith, ground arith)
  | inr q ↦ ground arith
]
  where
    Figure-cases : (f : Figure) → ((e : ℤ) × (f ≡ end e)) ⊎ ((f ≡ unseen) ⊎ (f ≡ unrepresentable))
    Figure-cases unseen = inr (inl refl)
    Figure-cases (end e) = inl (e, refl)
    Figure-cases unrepresentable = inr (inr refl)

-- Over a fresh measurement of `n` tracks, the figure that `get` answers for a track is the greatest
-- packet end read on it: every packet of the track with a timestamp has a representable end, at
-- most that one, and some packet of the track attains it. It is marked exact when every packet of
-- the track had a timestamp and a positive duration, and only then.
pub get-greatest :
    {Timebase Timestamp : Type 0} (timestamp : ℤ → Timebase → Timestamp) (n t : ℕ) (tb : Timebase)
    (ps : List Packet) (m : Measured) (r : MeasuredEnd Timestamp)
    → new true n ≡ some m
    → t < n
    → get timestamp (observe_all m ps) t tb ≡ some r
    → (e : ℤ) × (r.end ≡ timestamp e tb)
      × EndsBy e t ps
      × Attains e t ps
      × (r.exact ≡ all_on is_timed t ps)
get-greatest timestamp n t tb ps m r made lt h =
    let (e, q, ends_at, marked) =
      slot_end timestamp (observe_all m ps) t tb (slot_after fresh_slot t ps) r
        (new_slot n t ps m made lt) h in
    let (all, some_one, exact) = slot_after-greatest t ps e q in
    (e, ends_at, all, some_one, marked ∙ exact)
