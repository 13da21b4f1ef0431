-- ===== src/State/Copies.antt =====
-- The copies under way, counted over whole runs (mediadecode-webcodecs/src/state.rs,
-- mediadecode-webcodecs/src/video.rs).
use mediadecode.Base.{
  ℤ, ℕ, zero, suc, ◌+◌, ◌≤◌, ◌≡◌, ap, ◌∙◌, inl, inr, Bool, Option, none, some, List, [], ◌∷◌, arith,
  Option-cases, length, get_elem?,
}
use mediadecode.State.Inner.{
  Error, PendingOutput, Inner, Result, ok, err, pop_queue, try_new, sub_pending_copy,
  insert_pending_output, take_submission_id, allocate_output_sequence,
}
use mediadecode.State.Shared.{SharedState, CloseHookTarget, close_out, wake_all}
use mediadecode.State.Copy.{
  finish_copy, flush, fatal_close, output_callback, budget, Admission, max_pending_decode,
}
use mediadecode.State.Rounds.{Result-cases}
use mediadecode.State.Admission.{budget-IsAdmitted}
use mediadecode.State.Counters.{
  SameCopies, finish_copy-SameCopies, flush-SameCopies, fatal_close-SameCopies,
  submitted-SameCopies, popped-SameCopies, refused-SameCopies,
}

-- What happens to a decoder whose submissions and copies are followed.
pub data Event (F T : Type 0) : Type 0 where
  submitted : PendingOutput T → Event F T
  -- The output callback, with the id it echoes and the allocation measured.
  output : ℤ → Option ℕ → Event F T
  -- The copy at this place among those under way ends.
  ended : ℕ → Result Error F → Event F T
  taken : ℕ → Event F T
  flushed : Bool → Event F T
  closed : Error → Event F T

-- The handle, and the admitted copies that have not ended, of every generation.
pub record Copying (F T W D : Type 0) : Type 0 where
  pub handle : SharedState F T W D
  pub live : List (Admission T)

abbrev pub drop_at : {A : Type 0} → ℕ → List A → List A
drop_at i [] = []
drop_at zero (x ∷ xs) = xs
drop_at (suc i) (x ∷ xs) = x ∷ drop_at i xs

-- The bytes charged for the copies.
abbrev pub charged : {T : Type 0} → List (Admission T) → ℕ
charged [] = 0
charged (a ∷ live) = a.bytes + charged live

module _ {F T W D : Type 0} where
  abbrev pub with_state : Copying F T W D → Inner F T W → Copying F T W D
  with_state w s = record w { handle = record w.handle { inner = s } }

module _ {F T W D : Type 0} (byte_size : F → ℕ) where
  unfoldable pub step : Copying F T W D → Event F T → Copying F T W D
  unfolding output_callback
  step w (submitted r) =
      let (id, s) = take_submission_id w.handle.inner in
      with_state w (insert_pending_output s id r).1
  step w (output id measured) =
      let (admission, h, effects) = output_callback w.handle id measured in
      record { handle = h; live = elim admission [ none ↦ w.live | some a ↦ a ∷ w.live ] }
  step w (ended i result) = elim (get_elem? w.live i) [
    | none ↦ w
    | some a ↦ record {
      handle = (finish_copy byte_size w.handle a.epoch a.bytes a.sequence result).0;
      live = drop_at i w.live;
    }
  ]
  step w (taken size) = with_state w (pop_queue w.handle.inner size).1
  step w (flushed js) = record w { handle = (flush w.handle js).0 }
  step w (closed e) = record w { handle = (fatal_close w.handle e).0 }

  abbrev pub run : Copying F T W D → List (Event F T) → Copying F T W D
  run w [] = w
  run w (e ∷ es) = run (step w e) es

-- A decoder that was just built.
abbrev pub begin : {F T W D : Type 0} → Inner F T W → CloseHookTarget D → Copying F T W D
begin s hook = record { handle = record { inner = s; close_hook = hook }; live = [] }

drop_at-charged :
    {T : Type 0} (i : ℕ) (live : List (Admission T)) (a : Admission T)
    → get_elem? live i ≡ some a
    → (charged (drop_at i live) + a.bytes ≡ charged live)
      × (length (drop_at i live) + 1 ≡ length live)
drop_at-charged i [] a h = cc
drop_at-charged zero (x ∷ live) a h = (ground arith, omega arith)
drop_at-charged (suc i) (x ∷ live) a h =
    let (b, n) = drop_at-charged i live a h in (omega (arith, b), omega (arith, n))

-- The counters are those of the copies under way, of which there are at most 32.
record Charged {F T W D : Type 0} (w : Copying F T W D) : Type 0 where
  number : w.handle.inner.pending_copies ≡ length w.live
  bytes : w.handle.inner.pending_copy_bytes ≡ charged w.live
  few : length w.live ≤ 32

module _ {F T W D : Type 0} where
  same-Charged :
      (h : SharedState F T W D) (w : Copying F T W D)
      → SameCopies w.handle.inner h.inner
      → Charged w
      → Charged (record w { handle = h })
  same-Charged h w (n, b) c = record { number = n ∙ c.number; bytes = b ∙ c.bytes; few = c.few }

module _ {F T W D : Type 0} where
  callback_refused :
      (h : SharedState F T W D) (id : ℤ) (n : Option ℕ) (b : Bool)
      → (budget h.inner id n).0 ≡ err b
      → output_callback h id n ≡ (
        none,
        (close_out h (budget h.inner id n).1 b).0,
        (close_out h (budget h.inner id n).1 b).1,
      )
  unfolding output_callback
  callback_refused h id n b e = ground arith

  abbrev admission : SharedState F T W D → ℤ → Option ℕ → PendingOutput T → ℕ → Admission T
  admission h id n r bytes = record {
    submission = r;
    epoch = (budget h.inner id n).1.epoch;
    bytes = bytes;
    sequence = (allocate_output_sequence (budget h.inner id n).1).0;
  }

  callback_admitted :
      (h : SharedState F T W D) (id : ℤ) (n : Option ℕ) (r : PendingOutput T) (bytes : ℕ)
      → (budget h.inner id n).0 ≡ ok (r, bytes)
      → output_callback h id n ≡ (
        some (admission h id n r bytes),
        record h { inner = (allocate_output_sequence (budget h.inner id n).1).1 },
        [],
      )
  unfolding output_callback
  callback_admitted h id n r bytes e = ground arith

  output-Charged :
      (byte_size : F → ℕ) (w : Copying F T W D) (id : ℤ) (n : Option ℕ)
      → Charged w
      → Charged (step byte_size w (output id n))
  unfolding step close_out wake_all allocate_output_sequence
  output-Charged byte_size w id n c = elim (Result-cases (budget w.handle.inner id n).0) [
    | inr (b, refused) ↦
        let whole : budget w.handle.inner id n ≡ (err b, (budget w.handle.inner id n).1) =
          ap (λ x. (x, (budget w.handle.inner id n).1)) refused in
        let (m, k) =
          refused-SameCopies w.handle.inner id n b (budget w.handle.inner id n).1 whole in
        rw (callback_refused w.handle id n b refused)
          (record { number = m ∙ c.number; bytes = k ∙ c.bytes; few = c.few })
    | inl ((r, bytes), admitted) ↦
        let whole : budget w.handle.inner id n ≡ (ok (r, bytes), (budget w.handle.inner id n).1) =
          ap (λ x. (x, (budget w.handle.inner id n).1)) admitted in
        let a =
          budget-IsAdmitted w.handle.inner id n r bytes (budget w.handle.inner id n).1 whole in
        rw (callback_admitted w.handle id n r bytes admitted) (record {
          number = omega (arith, a.counted, c.number);
          bytes = omega (arith, a.added, c.bytes);
          few = omega (arith, a.counted, a.few, c.number);
        })
  ]

  step_ended_none :
      (byte_size : F → ℕ) (w : Copying F T W D) (i : ℕ) (result : Result Error F)
      → get_elem? w.live i ≡ none
      → step byte_size w (ended i result) ≡ w
  unfolding step
  step_ended_none byte_size w i result e = ground arith

  step_ended_some :
      (byte_size : F → ℕ) (w : Copying F T W D) (i : ℕ) (result : Result Error F) (a : Admission T)
      → get_elem? w.live i ≡ some a
      → step byte_size w (ended i result) ≡ record {
        handle = (finish_copy byte_size w.handle a.epoch a.bytes a.sequence result).0;
        live = drop_at i w.live;
      }
  unfolding step
  step_ended_some byte_size w i result a e = ground arith

  ended-Charged :
      (byte_size : F → ℕ) (w : Copying F T W D) (i : ℕ) (result : Result Error F)
      → Charged w
      → Charged (step byte_size w (ended i result))
  unfolding sub_pending_copy
  ended-Charged byte_size w i result c = elim (Option-cases (get_elem? w.live i)) [
    | inl absent ↦ rw (step_ended_none byte_size w i result absent) c
    | inr (a, found) ↦
        let (m, k) = finish_copy-SameCopies byte_size w.handle a.epoch a.bytes a.sequence result in
        let (sum, count) = drop_at-charged i w.live a found in
        rw (step_ended_some byte_size w i result a found) (record {
          number = omega (arith, m, count, c.number);
          bytes = omega (arith, k, sum, c.bytes);
          few = omega (arith, count, c.few);
        })
  ]

  step-Charged :
      (byte_size : F → ℕ) (w : Copying F T W D) (e : Event F T)
      → Charged w
      → Charged (step byte_size w e)
  unfolding step take_submission_id
  step-Charged byte_size w (submitted r) c =
      let (id, s) = take_submission_id w.handle.inner in
      same-Charged (record w.handle { inner = (insert_pending_output s id r).1 }) w
        (submitted-SameCopies s id r) c
  step-Charged byte_size w (output id n) c = output-Charged byte_size w id n c
  step-Charged byte_size w (ended i result) c = ended-Charged byte_size w i result c
  step-Charged byte_size w (taken size) c =
      same-Charged (record w.handle { inner = (pop_queue w.handle.inner size).1 }) w
        (popped-SameCopies w.handle.inner size) c
  step-Charged byte_size w (flushed js) c =
      same-Charged (flush w.handle js).0 w (flush-SameCopies w.handle js) c
  step-Charged byte_size w (closed e) c =
      same-Charged (fatal_close w.handle e).0 w (fatal_close-SameCopies w.handle e) c

  runs-Charged :
      (byte_size : F → ℕ) (w : Copying F T W D) (es : List (Event F T))
      → Charged w
      → Charged (run byte_size w es)
  runs-Charged byte_size w [] c = c
  runs-Charged byte_size w (e ∷ es) c =
      runs-Charged byte_size (step byte_size w e) es (step-Charged byte_size w e c)

  begin-Charged :
      (q o p : Option ℕ) (hook : CloseHookTarget D) (s : Inner F T W)
      → try_new q o p ≡ ok s
      → Charged (begin s hook)
  unfolding try_new
  begin-Charged none o p hook s e = cc
  begin-Charged (some q) none p hook s e = cc
  begin-Charged (some q) (some o) none hook s e = cc
  begin-Charged (some q) (some o) (some p) hook s e = record {
    number = ground arith;
    bytes = ground arith;
    few = omega arith;
  }

  -- From a new state, after any run of submissions, output callbacks, copies that end in any order,
  -- frames taken, flushes and fatal errors: the counters of pending copies and of their bytes are exactly
  -- the number and the bytes of the admitted copies that have not ended, those of past generations and of a
  -- closed decoder included, so neither drifts, saturates or stops at zero; and at most 32 are under way.
  pub run-charged :
      (byte_size : F → ℕ) (q o p : Option ℕ) (hook : CloseHookTarget D) (s : Inner F T W)
      (es : List (Event F T))
      → try_new q o p ≡ ok s
      → let w = run byte_size (begin s hook) es in
        (w.handle.inner.pending_copies ≡ length w.live)
        × (w.handle.inner.pending_copy_bytes ≡ charged w.live)
        × (length w.live ≤ max_pending_decode)
  run-charged byte_size q o p hook s es made =
      let c = runs-Charged byte_size (begin s hook) es (begin-Charged q o p hook s made) in
      (c.number, c.bytes, c.few)
