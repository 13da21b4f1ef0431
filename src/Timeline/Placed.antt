-- ===== src/Timeline/Placed.antt =====
-- The clips of an accepted track do not overlap (mediaio-timeline/src/validate/mod.rs).
use mediadecode.Base.{
  pos, ℕ, suc, ◌≡◌, refl, subst, inl, inr, Bool, true, false, Option, none, some, List, [], ◌∷◌,
  ◌++◌, arith, Bool-cases,
}
use mediadecode.Timeline.Time.{MediaTime, Laws, NotAfter, is_gt, span}
use mediadecode.Timeline.Data.{Clip}
use mediadecode.Timeline.Refusal.{ClipAt, Refusal}
use mediadecode.Timeline.Checks.{
  refuse_if, is_some, before, at_once, judge_ranges, judge_order, reach_on, judge_media,
}
use mediadecode.Timeline.Validate.{Ids, judge_id, judge_clips}

pub append-empty : {A : Type 0} (xs ys : List A) → xs ++ ys ≡ [] → (xs ≡ []) × (ys ≡ [])
append-empty [] ys h = (refl, h)
append-empty (x ∷ xs) ys h = cc

parts-empty :
    {A : Type 0} {a b c d e : List A}
    → a ++ b ++ c ++ d ++ e ≡ []
    → (a ≡ []) × (b ≡ []) × (c ≡ []) × (d ≡ []) × (e ≡ [])
parts-empty {A} {a} {b} {c} {d} {e} h =
    let (h1, u) = append-empty (a ++ b ++ c ++ d) e h in
    let (h2, t) = append-empty (a ++ b ++ c) d h1 in
    let (h3, r) = append-empty (a ++ b) c h2 in let (p, q) = append-empty a b h3 in (p, q, r, t, u)

pub refuse_if-empty : {M : MediaTime} (b : Bool) (r : Refusal M) → refuse_if b r ≡ [] → b ≡ false
refuse_if-empty true r h = cc
refuse_if-empty false r h = refl

module _ (M : MediaTime) where
  -- What the checks on the clip alone establish, at an edit rate.
  pub record ClipFine (edit : M.Timebase) (c : Clip M) : Type 0 where
    pub rated : M.timebase_eq (M.range_timebase c.placed) edit ≡ true
    pub measured : is_some (span M c.placed) ≡ true
    pub from_zero :
        before M (M.start c.placed) (M.timestamp (pos 0) (M.range_timebase c.placed)) ≡ false
    pub covers : at_once M (M.start c.placed) (M.end c.placed) ≡ false

  judge_ranges-ClipFine :
      (edit : M.Timebase) (at : ClipAt) (c : Clip M)
      → judge_ranges M (some edit) at c ≡ []
      → ClipFine edit c
  judge_ranges-ClipFine edit at c h = record {
    rated = ground arith;
    measured = ground arith;
    from_zero = ground arith;
    covers = ground arith;
  }

  -- Every clip starts no earlier than an instant.
  abbrev pub AllFrom : M.Timestamp → List (Clip M) → Type 0
  AllFrom a [] = Unit
  AllFrom a (c ∷ cs) = NotAfter M a (M.start c.placed) × AllFrom a cs

  -- Each clip ends before any later one starts.
  abbrev pub NoOverlap : List (Clip M) → Type 0
  NoOverlap [] = Unit
  NoOverlap (c ∷ cs) = AllFrom (M.end c.placed) cs × NoOverlap cs

  abbrev pub AllFine : M.Timebase → List (Clip M) → Type 0
  AllFine edit [] = Unit
  AllFine edit (c ∷ cs) = ClipFine edit c × AllFine edit cs

  module _ (laws : Laws M) where
    AllFrom-earlier :
        (a b : M.Timestamp) (cs : List (Clip M)) → NotAfter M a b → AllFrom b cs → AllFrom a cs
    AllFrom-earlier a b [] h f = tt
    AllFrom-earlier a b (c ∷ cs) h f =
        (laws.not_after_trans a b (M.start c.placed) h f.0, AllFrom-earlier a b cs h f.1)

    fine-before :
        (edit : M.Timebase) (c : Clip M)
        → ClipFine edit c
        → before M (M.start c.placed) (M.end c.placed) ≡ true
    fine-before edit c f = ground (arith, f.covers, laws.start_end c.placed)

  -- What a clip that earns no refusal has passed, and that the rest of the loop earns none.
  pub judge_clips-passed :
      (edit : Option M.Timebase) (track index : ℕ) (previous : Option (Clip M))
      (furthest : Option (ℕ × M.Timestamp)) (ids : Ids M) (c : Clip M) (cs : List (Clip M))
      → (judge_clips M edit track index previous furthest ids (c ∷ cs)).0 ≡ []
      → (judge_ranges M edit (record { track = track; clip = index }) c ≡ [])
        × (judge_order M track index c previous furthest ≡ [])
        × ((judge_id M (record { track = track; clip = index }) c.id.as_str ids).0 ≡ [])
        × (judge_media M edit (record { track = track; clip = index }) c ≡ [])
        × ((judge_clips M edit track
              (suc index)
              (some c)
              (reach_on M index c furthest)
              (judge_id M (record { track = track; clip = index }) c.id.as_str ids).1
              cs).0
            ≡ [])
  unfolding judge_clips
  judge_clips-passed edit track index previous furthest ids c cs h = parts-empty h

  module _ (laws : Laws M) where
    -- A clip that is in order starts where the one before it ends, or later, and reaches furthest.
    in_order :
        (edit : M.Timebase) (track index reach : ℕ) (p c : Clip M)
        → ClipFine edit c
        → judge_order M track index c (some p) (some (reach, M.end p.placed)) ≡ []
        → NotAfter M (M.end p.placed) (M.start c.placed)
    in_order edit track index reach p c f h =
        laws.not_lt (M.start c.placed) (M.end p.placed) (ground (arith, fine-before laws edit c f))

    reaches :
        (edit : M.Timebase) (index reach : ℕ) (p c : Clip M)
        → ClipFine edit c
        → NotAfter M (M.end p.placed) (M.start c.placed)
        → reach_on M index c (some (reach, M.end p.placed)) ≡ some (index, M.end c.placed)
    reaches edit index reach p c f le =
        elim (Bool-cases (is_gt (M.timestamp_cmp (M.end c.placed) (M.end p.placed)))) [
          | inl gt ↦ rw gt refl
          | inr not_gt ↦
              let back =
                laws.not_after_trans (M.end c.placed) (M.end p.placed) (M.start c.placed) not_gt
                  le in
              cc (back, laws.lt_gt (M.start c.placed) (M.end c.placed) (fine-before laws edit c f))
        ]

    -- The rest of a track, after the clip `p`.
    later_clips :
        (edit : M.Timebase) (track index reach : ℕ) (p : Clip M) (ids : Ids M) (cs : List (Clip M))
        → (judge_clips M (some edit) track index (some p) (some (reach, M.end p.placed)) ids cs).0
          ≡ []
        → AllFine edit cs × AllFrom (M.end p.placed) cs × NoOverlap cs
    later_clips edit track index reach p ids [] h = (tt, tt, tt)
    later_clips edit track index reach p ids (c ∷ cs) h =
        let (ranges, order, of_id, media, rest) =
          judge_clips-passed (some edit) track index (some p) (some (reach, M.end p.placed)) ids c
            cs h in
        let fine = judge_ranges-ClipFine edit (record { track = track; clip = index }) c ranges in
        let le = in_order edit track index reach p c fine order in
        let ids' = (judge_id M (record { track = track; clip = index }) c.id.as_str ids).1 in
        let (all, from_end, apart) = later_clips edit track (suc index) index c ids' cs (
          subst (λ f. (judge_clips M (some edit) track (suc index) (some c) f ids' cs).0 ≡ [])
            (reaches edit index reach p c fine le) rest) in
        let start_le =
          laws.not_after_trans (M.end p.placed) (M.start c.placed) (M.end c.placed) le
            (laws.start_end c.placed) in
        (
          (fine, all),
          (le, AllFrom-earlier laws (M.end p.placed) (M.end c.placed) cs start_le from_end),
          (from_end, apart),
        )

    -- A track's clips.
    pub judge_clips-placed :
        (edit : M.Timebase) (track : ℕ) (ids : Ids M) (cs : List (Clip M))
        → (judge_clips M (some edit) track 0 none none ids cs).0 ≡ []
        → AllFine edit cs × NoOverlap cs
    judge_clips-placed edit track ids [] h = (tt, tt)
    judge_clips-placed edit track ids (c ∷ cs) h =
        let (ranges, order, of_id, media, rest) =
          judge_clips-passed (some edit) track 0 none none ids c cs h in
        let fine = judge_ranges-ClipFine edit (record { track = track; clip = 0 }) c ranges in
        let ids' = (judge_id M (record { track = track; clip = 0 }) c.id.as_str ids).1 in
        let (all, from_end, apart) = later_clips edit track 1 0 c ids' cs rest in
        ((fine, all), (from_end, apart))
