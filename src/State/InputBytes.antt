-- ===== src/State/InputBytes.antt =====
-- The bytes of the submissions whose output has not come (mediadecode-webcodecs/src/state.rs).
use mediadecode.Base.{
  ℤ, pos, ◌≤ℤ◌, ◌+ℤ◌, i64_wrapping_add, ℕ, ◌+◌, ◌-◌, ◌*◌, ◌^◌, ◌≤◌, ◌<◌, ◌≡◌, refl, sym, ap, ◌∙◌,
  subst, ◌≢◌, inl, inr, true, false, Option, none, some, List, [], ◌∷◌, arith, leb, leb_false→lt,
  Bool-cases, Option-cases, u64_max, saturating_add, length, List-cases,
}
use mediadecode.State.SortedVec.{
  int_key, find, insert, remove, total, total-insert_new, total-remove, length-insert_new,
  length-remove, AllEntries, AllEntries-insert, AllEntries-remove,
}
use mediadecode.State.Inner.{
  Error, PendingOutput, Inner, ok, max_pending_outputs, try_new, take_submission_id, record_close,
  bump_epoch, insert_pending_output, remove_pending_output, pop_oldest_pending_output,
  clear_pending_outputs, outputs_full,
}

-- What happens to the side map of submissions.
pub data Event (T : Type 0) : Type 0 where
  -- `send_packet` takes an id and records the submission.
  submitted : PendingOutput T → Event T
  -- An output callback, or a rejected submission, takes the record of an id.
  matched : ℤ → Event T
  -- An audio output whose id matches nothing takes the oldest record.
  oldest : Event T
  -- `send_eof`, a fatal close, and `flush`.
  ended : Event T
  closed : Error → Event T
  flushed : Event T

module _ {F T W : Type 0} where
  unfoldable pub step : Inner F T W → Event T → Inner F T W
  step s (submitted r) = let (id, s') = take_submission_id s in (insert_pending_output s' id r).1
  step s (matched id) = (remove_pending_output s id).1
  step s oldest = (pop_oldest_pending_output s).1
  step s ended = clear_pending_outputs s
  step s (closed e) = (record_close s e).1
  step s flushed = (bump_epoch s).1

  abbrev pub run : Inner F T W → List (Event T) → Inner F T W
  run s [] = s
  run s (e ∷ es) = run (step s e) es

-- A record's bytes are a `u32`.
abbrev pub IsWord : {T : Type 0} → Event T → Type 0
IsWord (submitted r) = r.input_bytes < 2 ^ 32
IsWord _ = Unit

abbrev pub AllWords : {T : Type 0} → List (Event T) → Type 0
AllWords [] = Unit
AllWords (e ∷ es) = IsWord e × AllWords es

abbrev pub input_bytes_of : {T : Type 0} → PendingOutput T → ℕ
input_bytes_of r = r.input_bytes

-- An entry has an id that was given out, and the bytes of a `u32`.
abbrev IsIssued : {T : Type 0} → ℕ → ℤ → PendingOutput T → Type 0
IsIssued n id r = (id ≤ℤ pos n) × (id ≢ pos n) × (r.input_bytes < 2 ^ 32)

total-le :
    {T : Type 0} (n : ℕ) (m : List (ℤ × PendingOutput T))
    → AllEntries (IsIssued n) m
    → total input_bytes_of m ≤ length m * 2 ^ 32
total-le n [] h = omega arith
total-le n ((k, r) ∷ m) h = omega (arith, total-le n m h.1)

fresh :
    {T : Type 0} (n : ℕ) (m : List (ℤ × PendingOutput T))
    → AllEntries (IsIssued n) m
    → find (pos n) m ≡ none
unfolding find
fresh n [] h = refl
fresh n ((k, r) ∷ m) h = ground (arith, fresh n m h.1)

later_ids :
    {T : Type 0} (n : ℕ) (m : List (ℤ × PendingOutput T))
    → AllEntries (IsIssued n) m
    → AllEntries (IsIssued (n + 1)) m
later_ids n [] h = tt
later_ids n ((k, r) ∷ m) h = ((omega arith, λ e. ground arith, h.0.2), later_ids n m h.1)

next_id : (n : ℕ) → n + 1 < 2 ^ 63 → i64_wrapping_add (pos n) (pos 1) ≡ pos (n + 1)
unfolding i64_wrapping_add ◌+ℤ◌
next_id n small = ground arith

module _ {F T W : Type 0} where
  -- The invariant: the counter is the sum, there are at most 256 entries, and their ids are below
  -- the next one, `n`.
  record Accounted (n : ℕ) (s : Inner F T W) : Type 0 where
    exact : s.pending_input_bytes ≡ total input_bytes_of s.pending_outputs.entries
    few : length s.pending_outputs.entries ≤ 256
    issued : AllEntries (IsIssued n) s.pending_outputs.entries
    next : s.next_submission_id ≡ pos n

  submitted_full :
      (s : Inner F T W) (r : PendingOutput T)
      → leb max_pending_outputs (length s.pending_outputs.entries) ≡ true
      → step s (submitted r) ≡ (record_close (take_submission_id s).1 outputs_full).1
  unfolding step take_submission_id insert_pending_output record_close
  submitted_full s r full = ground arith

  submitted_room :
      (s : Inner F T W) (r : PendingOutput T)
      → leb max_pending_outputs (length s.pending_outputs.entries) ≡ false
      → step s (submitted r) ≡ record (take_submission_id s).1 {
        pending_input_bytes = saturating_add u64_max s.pending_input_bytes r.input_bytes;
        pending_outputs = record {
          entries = insert s.next_submission_id r s.pending_outputs.entries;
        };
      }
  unfolding step take_submission_id insert_pending_output
  submitted_room s r room = ground arith

  next_is :
      (n : ℕ) (s : Inner F T W)
      → s.next_submission_id ≡ pos n
      → n + 1 < 2 ^ 63
      → (take_submission_id s).1.next_submission_id ≡ pos (n + 1)
  unfolding take_submission_id
  next_is n s e small = ap (λ i. i64_wrapping_add i (pos 1)) e ∙ next_id n small

  submitted-Accounted :
      (n : ℕ) (s : Inner F T W) (r : PendingOutput T)
      → n + 1 < 2 ^ 63
      → r.input_bytes < 2 ^ 32
      → Accounted n s
      → Accounted (n + 1) (step s (submitted r))
  unfolding record_close
  submitted-Accounted n s r small word a =
      elim (Bool-cases (leb max_pending_outputs (length s.pending_outputs.entries))) [
        | inl full ↦ rw (submitted_full s r full) (record {
          exact = refl;
          few = omega arith;
          issued = tt;
          next = next_is n s a.next small;
        })
        | inr room ↦
            let e : s.next_submission_id ≡ pos n = a.next in
            let new =
              subst (λ i. find i s.pending_outputs.entries ≡ none) (sym e)
                (fresh n s.pending_outputs.entries a.issued) in
            rw (submitted_room s r room) (record {
              exact = omega (
                arith,
                a.exact,
                a.few,
                total-insert_new input_bytes_of s.next_submission_id r s.pending_outputs.entries
                    new,
                total-le n s.pending_outputs.entries a.issued,
                leb_false→lt max_pending_outputs (length s.pending_outputs.entries) room,
              );
              few = omega (
                arith,
                length-insert_new s.next_submission_id r s.pending_outputs.entries new,
                leb_false→lt max_pending_outputs (length s.pending_outputs.entries) room,
              );
              issued =
                  AllEntries-insert (IsIssued (n + 1)) s.next_submission_id r
                    s.pending_outputs.entries
                    (subst (λ i. IsIssued (n + 1) i r) (sym e)
                      (omega arith, λ q. ground arith, word))
                    (later_ids n s.pending_outputs.entries a.issued);
              next = next_is n s a.next small;
            })
      ]

  matched_none :
      (s : Inner F T W) (id : ℤ)
      → find id s.pending_outputs.entries ≡ none
      → step s (matched id) ≡ s
  unfolding step remove_pending_output
  matched_none s id e = ground arith

  matched_some :
      (s : Inner F T W) (id : ℤ) (r : PendingOutput T)
      → find id s.pending_outputs.entries ≡ some r
      → step s (matched id) ≡ record s {
        pending_input_bytes = s.pending_input_bytes - r.input_bytes;
        pending_outputs = record { entries = remove id s.pending_outputs.entries };
      }
  unfolding step remove_pending_output
  matched_some s id r e = ground arith

  oldest_none : (s : Inner F T W) → s.pending_outputs.entries ≡ [] → step s oldest ≡ s
  unfolding step pop_oldest_pending_output
  oldest_none s e = ground arith

  oldest_some :
      (s : Inner F T W) (id : ℤ) (r : PendingOutput T) (rest : List (ℤ × PendingOutput T))
      → s.pending_outputs.entries ≡ (id, r) ∷ rest
      → step s oldest ≡ record s {
        pending_input_bytes = s.pending_input_bytes - r.input_bytes;
        pending_outputs = record { entries = rest };
      }
  unfolding step pop_oldest_pending_output
  oldest_some s id r rest e = ground arith

  matched-Accounted :
      (n : ℕ) (s : Inner F T W) (id : ℤ) → Accounted n s → Accounted n (step s (matched id))
  matched-Accounted n s id a = elim (Option-cases (find id s.pending_outputs.entries)) [
    | inl absent ↦ rw (matched_none s id absent) a
    | inr (r, found) ↦ rw (matched_some s id r found) (record {
      exact =
          omega (arith, a.exact, total-remove input_bytes_of id r s.pending_outputs.entries found);
      few = omega (arith, a.few, length-remove id r s.pending_outputs.entries found);
      issued = AllEntries-remove (IsIssued n) id s.pending_outputs.entries a.issued;
      next = a.next;
    })
  ]

  oldest-Accounted : (n : ℕ) (s : Inner F T W) → Accounted n s → Accounted n (step s oldest)
  oldest-Accounted n s a = elim (List-cases s.pending_outputs.entries) [
    | inl empty ↦ rw (oldest_none s empty) a
    | inr ((id, r), rest, full) ↦ rw (oldest_some s id r rest full) (record {
      exact = omega (arith, a.exact, ap (total input_bytes_of) full);
      few = omega (arith, a.few, ap length full);
      issued = (subst (AllEntries (IsIssued n)) full a.issued).1;
      next = a.next;
    })
  ]

  emptied-Accounted :
      (n : ℕ) (s : Inner F T W) (e : Error)
      → Accounted n s
      → Accounted n (step s ended) × Accounted n (step s (closed e)) × Accounted n (step s flushed)
  unfolding step clear_pending_outputs record_close bump_epoch
  emptied-Accounted n s e a = (
    record { exact = refl; few = omega arith; issued = tt; next = a.next },
    record { exact = refl; few = omega arith; issued = tt; next = a.next },
    record { exact = refl; few = omega arith; issued = tt; next = a.next },
  )

  -- One event, which gives out one id at most.
  step-Accounted :
      (n : ℕ) (s : Inner F T W) (e : Event T)
      → n + 1 < 2 ^ 63
      → IsWord e
      → Accounted n s
      → (m : ℕ) × (m ≤ n + 1) × Accounted m (step s e)
  step-Accounted n s (submitted r) small word a =
      (n + 1, omega arith, submitted-Accounted n s r small word a)
  step-Accounted n s (matched id) small word a = (n, omega arith, matched-Accounted n s id a)
  step-Accounted n s oldest small word a = (n, omega arith, oldest-Accounted n s a)
  step-Accounted n s ended small word a = (n, omega arith, (emptied-Accounted n s outputs_full a).0)
  step-Accounted n s (closed e) small word a = (n, omega arith, (emptied-Accounted n s e a).1)
  step-Accounted n s flushed small word a =
      (n, omega arith, (emptied-Accounted n s outputs_full a).2)

  run-Accounted :
      (n : ℕ) (s : Inner F T W) (es : List (Event T))
      → n + length es < 2 ^ 63
      → AllWords es
      → Accounted n s
      → (m : ℕ) × Accounted m (run s es)
  run-Accounted n s [] small words a = (n, a)
  run-Accounted n s (e ∷ es) small words a =
      let (m, le, a') = step-Accounted n s e (omega arith) words.0 a in
      run-Accounted m (step s e) es (omega arith) words.1 a'

new-Accounted :
    {F T W : Type 0} (q o p : Option ℕ) (s : Inner F T W)
    → try_new q o p ≡ ok s
    → Accounted (2 ^ 50) s
unfolding try_new
new-Accounted none o p s e = cc
new-Accounted (some q) none p s e = cc
new-Accounted (some q) (some o) none s e = cc
new-Accounted {F} {T} {W} (some q) (some o) (some p) s e =
    let empty : s.pending_outputs.entries ≡ [] = ground arith in
    record {
      exact = ground arith;
      few = ground arith;
      issued = subst (AllEntries (IsIssued (2 ^ 50))) (sym empty) tt;
      next = ground arith;
    }

-- From a new state, after any run of fewer than 2^62 submissions, matches and resets, each submission
-- of fewer than 2^32 bytes: the counter of pending input bytes is exactly the sum over the records still held, so it never saturated and
-- never drifted, and at most 256 records are held.
pub run-input_bytes :
    {F T W : Type 0} (q o p : Option ℕ) (s : Inner F T W) (es : List (Event T))
    → try_new q o p ≡ ok s
    → length es < 2 ^ 62
    → AllWords es
    → ((run s es).pending_input_bytes ≡ total input_bytes_of (run s es).pending_outputs.entries)
      × (length (run s es).pending_outputs.entries ≤ max_pending_outputs)
run-input_bytes q o p s es made few words =
    let (m, a) = run-Accounted (2 ^ 50) s es (omega arith) words (new-Accounted q o p s made) in
    (a.exact, a.few)
