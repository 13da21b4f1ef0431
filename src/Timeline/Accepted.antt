-- ===== src/Timeline/Accepted.antt =====
-- What an accepted clip and an accepted transition have passed (mediaio-timeline/src/validate/mod.rs).
use mediadecode.Base.{
  ℕ, suc, ◌≡◌, refl, subst, inl, inr, Bool, true, false, Option, none, some, List, [], ◌∷◌, ◌++◌,
  arith, Bool-cases, Option-cases, get_elem?,
}
use mediadecode.Timeline.Time.{MediaTime, span}
use mediadecode.Timeline.Data.{Clip, Transition}
use mediadecode.Timeline.Refusal.{ClipAt}
use mediadecode.Timeline.Checks.{
  is_some, at_once, on_rate, media_stated, judge_ranges, reach_on, judge_media, position,
  outgoing_at, incoming_at, judge_length,
}
use mediadecode.Timeline.Validate.{
  Ids, judge_id, judge_clips, judge_transition, judge_transitions, any_of,
}
use mediadecode.Timeline.Placed.{append-empty, judge_clips-passed}

position-at :
    {A : Type 0} (p : A → Bool) (xs : List A) (i : ℕ)
    → position p xs ≡ some i
    → (x : A) × (get_elem? xs i ≡ some x) × (p x ≡ true)
position-at p [] i h = cc
position-at p (x ∷ xs) i h = elim (Bool-cases (p x)) [
  | inl yes_ ↦
      let same : 0 ≡ i = ground arith in
      (x, subst (λ n. get_elem? (x ∷ xs) n ≡ some x) same refl, yes_)
  | inr no_ ↦ elim (Option-cases (position p xs)) [
    | inl absent ↦ ground arith
    | inr (j, found) ↦
        let (y, at, passes) = position-at p xs j found in
        let same : suc j ≡ i = ground arith in
        (y, subst (λ n. get_elem? (x ∷ xs) n ≡ some y) same at, passes)
  ]
]

module _ (M : MediaTime) where
  -- The source's length is a whole number of ticks of the edit rate, and the record runs as many.
  pub record LengthAgrees (edit : M.Timebase) (c : Clip M) : Type 0 where
    pub source : M.Duration
    pub recorded : M.Duration
    pub counted : M.Duration
    pub source_is : span M c.source_range ≡ some source
    pub recorded_is : span M c.placed ≡ some recorded
    pub counted_is : M.checked_rescale_exact source edit ≡ some counted
    pub agrees : M.ticks counted ≡ M.ticks recorded

  source_measured :
      (edit : M.Timebase) (at : ClipAt) (c : Clip M)
      → judge_ranges M (some edit) at c ≡ []
      → (media_stated M c ≡ true)
        × (on_rate M (some edit) c ≡ true)
        × (is_some (span M c.source_range) ≡ true)
        × (is_some (span M c.placed) ≡ true)
  source_measured edit at c h = (ground arith, ground arith, ground arith, ground arith)

  length_judged :
      (edit : M.Timebase) (at : ClipAt) (c : Clip M) (source : M.Duration)
      → media_stated M c ≡ true
      → span M c.source_range ≡ some source
      → judge_media M (some edit) at c ≡ []
      → judge_length M edit (on_rate M (some edit) c) at source (span M c.placed) ≡ []
  length_judged edit at c source stated e h = ground arith

  length_counted :
      (edit : M.Timebase) (at : ClipAt) (source recorded : M.Duration)
      → judge_length M edit true at source (some recorded) ≡ []
      → (counted : M.Duration) × (M.checked_rescale_exact source edit ≡ some counted)
        × (M.ticks counted ≡ M.ticks recorded)
  length_counted edit at source recorded h =
      elim (Option-cases (M.checked_rescale_exact source edit)) [
        | inl absent ↦ absurd (ground arith)
        | inr (counted, e) ↦ (counted, e, ground arith)
      ]

  some_of : {A : Type 0} (o : Option A) → is_some o ≡ true → (a : A) × (o ≡ some a)
  some_of none h = cc
  some_of (some a) h = (a, refl)

  clip-LengthAgrees :
      (edit : M.Timebase) (at : ClipAt) (c : Clip M)
      → judge_ranges M (some edit) at c ≡ []
      → judge_media M (some edit) at c ≡ []
      → LengthAgrees edit c
  clip-LengthAgrees edit at c h k =
      let (stated, rated, s, r) = source_measured edit at c h in
      let (source, source_is) = some_of (span M c.source_range) s in
      let (recorded, recorded_is) = some_of (span M c.placed) r in
      let judged = length_judged edit at c source stated source_is k in
      let judged' =
        subst (λ b. judge_length M edit b at source (span M c.placed) ≡ []) rated judged in
      let judged'' = subst (λ o. judge_length M edit true at source o ≡ []) recorded_is judged' in
      let (counted, counted_is, agrees) = length_counted edit at source recorded judged'' in
      record {
        source = source;
        recorded = recorded;
        counted = counted;
        source_is = source_is;
        recorded_is = recorded_is;
        counted_is = counted_is;
        agrees = agrees;
      }

  abbrev pub AllLengths : M.Timebase → List (Clip M) → Type 0
  AllLengths edit [] = Unit
  AllLengths edit (c ∷ cs) = LengthAgrees edit c × AllLengths edit cs

  pub judge_clips-AllLengths :
      (edit : M.Timebase) (track index : ℕ) (previous : Option (Clip M))
      (furthest : Option (ℕ × M.Timestamp)) (ids : Ids M) (cs : List (Clip M))
      → (judge_clips M (some edit) track index previous furthest ids cs).0 ≡ []
      → AllLengths edit cs
  judge_clips-AllLengths edit track index previous furthest ids [] h = tt
  judge_clips-AllLengths edit track index previous furthest ids (c ∷ cs) h =
      let at : ClipAt = record { track = track; clip = index } in
      let (ranges, _, _, media, rest) =
        judge_clips-passed M (some edit) track index previous furthest ids c cs h in
      (
        clip-LengthAgrees edit at c ranges media,
        judge_clips-AllLengths edit track (suc index) (some c) (reach_on M index c furthest)
            (judge_id M at c.id.as_str ids).1 cs rest,
      )

  -- A transition's cut is the end of one record and the start of another, and no earlier transition
  -- of the track is there.
  pub record OnCut (clips : List (Clip M)) (earlier : List (Transition M)) (t : Transition M)
      : Type 0 where
    pub outgoing : ℕ
    pub incoming : ℕ
    pub left : Clip M
    pub right : Clip M
    pub left_at : get_elem? clips outgoing ≡ some left
    pub right_at : get_elem? clips incoming ≡ some right
    pub ends : at_once M (M.end left.placed) t.at ≡ true
    pub begins : at_once M (M.start right.placed) t.at ≡ true
    pub alone : any_of (λ u. at_once M u.at t.at) earlier ≡ false

  abbrev pub AllOnCut : List (Clip M) → List (Transition M) → List (Transition M) → Type 0
  AllOnCut clips earlier [] = Unit
  AllOnCut clips earlier (t ∷ ts) = OnCut clips earlier t × AllOnCut clips (earlier ++ t ∷ []) ts

  cut_held :
      (edit : Option M.Timebase) (track : ℕ) (clips : List (Clip M)) (index : ℕ)
      (earlier : List (Transition M)) (t : Transition M)
      → judge_transition M edit track clips index earlier t ≡ []
      → (is_some (outgoing_at M clips t.at) ≡ true)
        × (is_some (incoming_at M clips t.at) ≡ true)
        × (any_of (λ u. at_once M u.at t.at) earlier ≡ false)
  cut_held edit track clips index earlier t h = (ground arith, ground arith, ground arith)

  judge_transition-OnCut :
      (edit : Option M.Timebase) (track : ℕ) (clips : List (Clip M)) (index : ℕ)
      (earlier : List (Transition M)) (t : Transition M)
      → judge_transition M edit track clips index earlier t ≡ []
      → OnCut clips earlier t
  judge_transition-OnCut edit track clips index earlier t h =
      let (some_left, some_right, alone) = cut_held edit track clips index earlier t h in
      let (outgoing, e) = some_of (outgoing_at M clips t.at) some_left in
      let (incoming, f) = some_of (incoming_at M clips t.at) some_right in
      let (left, left_at, p) = position-at _ clips outgoing e in
      let (right, right_at, q) = position-at _ clips incoming f in
      record {
        outgoing = outgoing;
        incoming = incoming;
        left = left;
        right = right;
        left_at = left_at;
        right_at = right_at;
        ends = ground arith;
        begins = ground arith;
        alone = alone;
      }

  pub judge_transitions-AllOnCut :
      (edit : Option M.Timebase) (track : ℕ) (clips : List (Clip M)) (index : ℕ)
      (earlier ts : List (Transition M))
      → judge_transitions M edit track clips index earlier ts ≡ []
      → AllOnCut clips earlier ts
  unfolding judge_transitions
  judge_transitions-AllOnCut edit track clips index earlier [] h = tt
  judge_transitions-AllOnCut edit track clips index earlier (t ∷ ts) h =
      let (this, rest) =
        append-empty (judge_transition M edit track clips index earlier t)
          (judge_transitions M edit track clips (suc index) (earlier ++ t ∷ []) ts) h in
      (
        judge_transition-OnCut edit track clips index earlier t this,
        judge_transitions-AllOnCut edit track clips (suc index) (earlier ++ t ∷ []) ts rest,
      )
