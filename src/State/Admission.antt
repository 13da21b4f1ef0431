-- ===== src/State/Admission.antt =====
-- What the output callback admits (mediadecode-webcodecs/src/video.rs).
use mediadecode.Base.{
  ℤ, ℕ, ◌+◌, ◌-◌, ◌*◌, ◌≤◌, ◌<◌, min, ◌≡◌, refl, subst, ◌≢◌, inl, inr, false, Option, none, some,
  arith, Option-cases, u64_max, saturating_add,
}
use mediadecode.State.SortedVec.{int_key, find, remove}
use mediadecode.State.Inner.{
  PendingOutput, Inner, ok, is_closed, remove_pending_output, add_pending_copy,
}
use mediadecode.State.Copy.{
  budget, budget_record, max_pending_decode, max_frame_allocation_bytes, max_inflight_bytes,
}

-- An admission: what the checks have established of it.
pub record IsAdmitted {F T W : Type 0} (s : Inner F T W) (id : ℤ) (n : Option ℕ)
    (r : PendingOutput T) (bytes : ℕ) (s' : Inner F T W) : Type 0 where
  pub was_open : is_closed s ≡ false
  -- The record is the one that the id was submitted with, of the current generation, and is taken.
  pub submitted : find id s.pending_outputs.entries ≡ some r
  pub current : r.epoch ≡ s.epoch
  pub taken : s'.pending_outputs.entries ≡ remove id s.pending_outputs.entries
  -- The allocation was measured, and is charged twice over.
  pub charged : (size : ℕ) × (n ≡ some size) × (bytes ≡ min (size * 2) u64_max)
  pub counted : s'.pending_copies ≡ s.pending_copies + 1
  pub added : s'.pending_copy_bytes ≡ s.pending_copy_bytes + bytes
  -- The caps hold with the copy counted.
  pub few : s'.pending_copies ≤ max_pending_decode
  pub small : bytes ≤ max_frame_allocation_bytes
  pub in_flight :
      s'.queue_bytes + s'.pending_copy_bytes + s'.pending_push_bytes ≤ max_inflight_bytes

module _ {F T W : Type 0} where
  -- What the checks on a record have established when they let it through.
  abbrev Passed : Inner F T W → PendingOutput T → PendingOutput T → ℕ → ℕ → Inner F T W → Type 0
  Passed s r r' size bytes s' =
      (r' ≡ r)
      × (s' ≡ add_pending_copy s bytes)
      × (bytes ≡ min (size * 2) u64_max)
      × (s.pending_copies < max_pending_decode)
      × (bytes ≤ max_frame_allocation_bytes)
      × (saturating_add u64_max
            (saturating_add u64_max (saturating_add u64_max s.queue_bytes s.pending_copy_bytes)
              s.pending_push_bytes)
            bytes
          ≤ max_inflight_bytes)

  budget_record-none :
      (s : Inner F T W) (r r' : PendingOutput T) (bytes : ℕ) (s' : Inner F T W)
      → budget_record s r none ≢ (ok (r', bytes), s')
  unfolding budget_record
  budget_record-none s r r' bytes s' h = cc

  budget_record-Passed :
      (s : Inner F T W) (r r' : PendingOutput T) (size bytes : ℕ) (s' : Inner F T W)
      → budget_record s r (some size) ≡ (ok (r', bytes), s')
      → Passed s r r' size bytes s'
  unfolding budget_record
  budget_record-Passed s r r' size bytes s' h = ground arith

  taken_record :
      (s : Inner F T W) (id : ℤ) (r : PendingOutput T)
      → find id s.pending_outputs.entries ≡ some r
      → remove_pending_output s id ≡ (
        some r,
        record s {
          pending_input_bytes = s.pending_input_bytes - r.input_bytes;
          pending_outputs = record { entries = remove id s.pending_outputs.entries };
        },
      )
  unfolding remove_pending_output
  taken_record s id r e = ground arith

  abbrev without : Inner F T W → ℤ → PendingOutput T → Inner F T W
  without s id r = record s {
    pending_input_bytes = s.pending_input_bytes - r.input_bytes;
    pending_outputs = record { entries = remove id s.pending_outputs.entries };
  }

  budget_open :
      (s : Inner F T W) (id : ℤ) (n : Option ℕ) (r : PendingOutput T) (bytes : ℕ) (s' : Inner F T W)
      → budget s id n ≡ (ok (r, bytes), s')
      → is_closed s ≡ false
  unfolding budget
  budget_open s id n r bytes s' h = ground arith

  budget-none :
      (s : Inner F T W) (id : ℤ) (n : Option ℕ) (r : PendingOutput T) (bytes : ℕ) (s' : Inner F T W)
      → find id s.pending_outputs.entries ≡ none
      → budget s id n ≢ (ok (r, bytes), s')
  unfolding budget remove_pending_output
  budget-none s id n r bytes s' e h = ground arith

  budget-some :
      (s : Inner F T W) (id : ℤ) (n : Option ℕ) (r r' : PendingOutput T) (bytes : ℕ)
      (s' : Inner F T W)
      → find id s.pending_outputs.entries ≡ some r
      → budget s id n ≡ (ok (r', bytes), s')
      → (r.epoch ≡ s.epoch) × (budget_record (without s id r) r n ≡ (ok (r', bytes), s'))
  unfolding budget remove_pending_output
  budget-some s id n r r' bytes s' e h = ground arith

  Passed-IsAdmitted :
      (s : Inner F T W) (id : ℤ) (r r' : PendingOutput T) (size bytes : ℕ) (s' : Inner F T W)
      → is_closed s ≡ false
      → find id s.pending_outputs.entries ≡ some r
      → r.epoch ≡ s.epoch
      → Passed (without s id r) r r' size bytes s'
      → IsAdmitted s id (some size) r' bytes s'
  unfolding add_pending_copy
  Passed-IsAdmitted s id r r' size bytes s' fine found current
        (same, after, charged, few, small, fits) =
      record {
        was_open = fine;
        submitted = rw same found;
        current = rw same current;
        taken = rw after refl;
        charged = (size, refl, charged);
        counted = rw after (omega (arith, few));
        added = rw after (omega (arith, fits));
        few = rw after (omega (arith, few));
        small = small;
        in_flight = rw after (omega (arith, fits));
      }

  -- An output is admitted for copying only when the decoder was open, the submission's record is of the
  -- current generation, its allocation was measured, and with the copy charged at most 32 copies are
  -- pending, the copy has at most 256 MiB, and the bytes queued, parked and being copied are at most 256
  -- MiB together.
  pub budget-IsAdmitted :
      (s : Inner F T W) (id : ℤ) (n : Option ℕ) (r : PendingOutput T) (bytes : ℕ) (s' : Inner F T W)
      → budget s id n ≡ (ok (r, bytes), s')
      → IsAdmitted s id n r bytes s'
  budget-IsAdmitted s id n r bytes s' h = elim (Option-cases (find id s.pending_outputs.entries)) [
    | inl absent ↦ absurd (budget-none s id n r bytes s' absent h)
    | inr (r0, found) ↦
        let (current, passed) = budget-some s id n r0 r bytes s' found h in
        elim (Option-cases n) [
          | inl unmeasured ↦ absurd (
              budget_record-none (without s id r0) r0 r bytes s' (
                subst (λ k. budget_record (without s id r0) r0 k ≡ (ok (r, bytes), s')) unmeasured
                  passed))
          | inr (size, measured) ↦ rw measured (
              Passed-IsAdmitted s id r0 r size bytes s' (budget_open s id n r bytes s' h) found
                current
                (budget_record-Passed (without s id r0) r0 r size bytes s' (
                  subst (λ k. budget_record (without s id r0) r0 k ≡ (ok (r, bytes), s')) measured
                    passed)))
        ]
  ]
