-- ===== src/State/Rounds.antt =====
-- One round of the drain loop and one delivery, by what stands at the cursor
-- (mediadecode-webcodecs/src/state.rs).
use mediadecode.Base.{
  ℕ, suc, ◌-◌, ◌≡◌, refl, ◌⊎◌, inl, inr, Bool, true, false, Option, none, some, [], arith, u64_max,
  saturating_add, length,
}
use mediadecode.State.SortedVec.{nat_key, find, insert}
use mediadecode.State.Inner.{
  DecodedFrame, PendingPush, ready, skipped, PendingPushMap, Inner, Result, ok, err, try_insert,
  push_queue, record_close, is_closed,
}
use mediadecode.State.Shared.{
  SharedState, drain, take_push, advance, queue_full, pushes_full, deliver_pending_push, push_bytes,
  settle, close_out,
}

pub Result-cases :
    {E A : Type 0} (r : Result E A) → ((a : A) × (r ≡ ok a)) ⊎ ((e : E) × (r ≡ err e))
Result-cases (ok a) = inl (a, refl)
Result-cases (err e) = inr (e, refl)

pub find-cases :
    {F : Type 0} (o : Option (PendingPush F))
    → (o ≡ none)
      ⊎ ((o ≡ some skipped) ⊎ ((frame : DecodedFrame F) × (b : ℕ) × (o ≡ some (ready frame b))))
find-cases none = inl refl
find-cases (some skipped) = inr (inl refl)
find-cases (some (ready frame b)) = inr (inr (frame, b, refl))

pub try_insert_ok :
    {F : Type 0} (m m' : PendingPushMap F) (k : ℕ) (p : PendingPush F)
    → try_insert m k p ≡ ok m'
    → (m'.entries ≡ insert k p m.entries) × (m'.capacity ≡ m.capacity)
unfolding try_insert
try_insert_ok m m' k p e = ground arith

-- One round of the loop, by what stands at the cursor.
module _ {F T W : Type 0} (fuel : ℕ) (s : Inner F T W) (pushed : Bool) where
  pub drain-none :
      find s.next_push_sequence s.pending_pushes.entries ≡ none
      → drain (suc fuel) s pushed ≡ (s, pushed, none)
  unfolding drain
  drain-none h = ground arith

  pub drain_skipped :
      find s.next_push_sequence s.pending_pushes.entries ≡ some skipped
      → drain (suc fuel) s pushed ≡ drain fuel (advance (take_push s skipped)) pushed
  unfolding drain
  drain_skipped h = ground arith

  pub drain_ready :
      {frame : DecodedFrame F} {b : ℕ} {s' : Inner F T W}
      → find s.next_push_sequence s.pending_pushes.entries ≡ some (ready frame b)
      → push_queue (take_push s (ready frame b)) frame b ≡ ok s'
      → drain (suc fuel) s pushed ≡ drain fuel (advance s') true
  unfolding drain
  drain_ready h e = ground arith

  pub drain_overflow :
      {frame back : DecodedFrame F} {b : ℕ}
      → find s.next_push_sequence s.pending_pushes.entries ≡ some (ready frame b)
      → push_queue (take_push s (ready frame b)) frame b ≡ err back
      → drain (suc fuel) s pushed ≡ (
        (record_close (take_push s (ready frame b)) queue_full).1,
        pushed,
        some (record_close (take_push s (ready frame b)) queue_full).0,
      )
  unfolding drain
  drain_overflow h e = ground arith

-- One delivery, by whether the decoder is closed and whether the buffer takes the push.
module _ {F T W D : Type 0} (h : SharedState F T W D) (k : ℕ) (p : PendingPush F) where
  pub deliver_closed : is_closed h.inner ≡ true → deliver_pending_push h k p ≡ (h, [])
  unfolding deliver_pending_push
  deliver_closed c = rw c

  -- The bytes that the buffer pins once the push is counted.
  abbrev pub counted : ℕ
  counted = saturating_add u64_max h.inner.pending_push_bytes (push_bytes p)

  pub deliver_full :
      {back : PendingPush F}
      → is_closed h.inner ≡ false
      → try_insert h.inner.pending_pushes k p ≡ err back
      → deliver_pending_push h k p ≡ (
          let (just_closed, s) =
            record_close
              (record h.inner { pending_push_bytes = counted - push_bytes p })
              pushes_full in
          close_out h s just_closed)
  unfolding deliver_pending_push
  deliver_full c e = ground arith

  pub deliver_parked :
      {m : PendingPushMap F}
      → is_closed h.inner ≡ false
      → try_insert h.inner.pending_pushes k p ≡ ok m
      → deliver_pending_push h k p
        ≡ settle h (
            drain
              (suc (length m.entries))
              (record h.inner { pending_push_bytes = counted; pending_pushes = m })
              false)
  unfolding deliver_pending_push
  deliver_parked c e = rw (c, e)
