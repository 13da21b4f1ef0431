-- ===== src/State/Arrival.antt =====
-- A delivered outcome is behind the cursor or parked, and the drain leaves no outcome parked at the
-- cursor (mediadecode-webcodecs/src/state.rs).
use mediadecode.Base.{
  ℕ, zero, suc, ◌+◌, ◌-◌, ◌^◌, ◌<◌, ◌≡◌, sym, ap, ◌∙◌, subst, ◌⊎◌, inl, inr, Bool, true, false,
  Option, none, some, List, arith, ℕ_discrete, length,
}
use mediadecode.State.SortedVec.{
  nat_key, find, insert, remove, find-insert_self, find-insert_ne, find-remove_ne, length-remove,
  find-AllEntries,
}
use mediadecode.State.Inner.{
  Error, wrap_u32, DecodedFrame, PendingPush, ready, skipped, PendingPushMap, Inner, ok, try_insert,
  remove_push, push_queue, record_close, is_closed,
}
use mediadecode.State.Rounds.{
  Result-cases, find-cases, try_insert_ok, drain-none, drain_skipped, drain_ready, drain_overflow,
  deliver_full, deliver_parked, counted,
}
use mediadecode.State.Shared.{
  SharedState, drain, take_push, advance, queue_full, pushes_full, deliver_pending_push, push_bytes,
  settle, close_out, wake_receiver,
}
use mediadecode.State.Order.{
  IsParked, Ordered, parked-Ordered, skip-Ordered, ready-Ordered, push_ok, open-not_closed,
}

-- Taking out the entry at the cursor `n` and moving past it loses no other arrival.
arrived_past :
    {F : Type 0} (k n : ℕ) (m : List (ℕ × PendingPush F))
    → n + 1 < 2 ^ 32
    → (k < n) ⊎ ((p : PendingPush F) × (find k m ≡ some p))
    → (k < wrap_u32 (n + 1)) ⊎ ((p : PendingPush F) × (find k (remove n m) ≡ some p))
arrived_past k n m small (inl lt) = inl (omega arith)
arrived_past k n m small (inr (p, e)) = elim (ℕ_discrete k n) [
  | yes same ↦ inl (omega arith)
  | no other ↦ inr (p, find-remove_ne n k m (λ q. other (ground arith)) ∙ e)
]

module _ {F T W : Type 0} where
  -- The outcome at `k` has been published or waits in the buffer.
  abbrev pub Arrived : ℕ → Inner F T W → Type 0
  Arrived k s =
      (k < s.next_push_sequence)
      ⊎ ((p : PendingPush F) × (find k s.pending_pushes.entries ≡ some p))

  -- As long as the decoder is open, the outcome at `k` has arrived.
  abbrev pub ArrivedIfOpen : ℕ → Inner F T W → Type 0
  ArrivedIfOpen k s = is_closed s ≡ false → Arrived k s

  -- As long as the decoder is open, nothing is parked at the cursor.
  abbrev pub DrainedIfOpen : Inner F T W → Type 0
  DrainedIfOpen s = is_closed s ≡ false → find s.next_push_sequence s.pending_pushes.entries ≡ none

  pub record_close-closed : (s : Inner F T W) (e : Error) → is_closed (record_close s e).1 ≡ true
  unfolding record_close is_closed
  record_close-closed s e = ground arith

  skip-Arrived :
      (k : ℕ) (s : Inner F T W)
      → s.next_push_sequence + 1 < 2 ^ 32
      → Arrived k s
      → Arrived k (advance (take_push s skipped))
  unfolding remove_push
  skip-Arrived k s small a = arrived_past k s.next_push_sequence s.pending_pushes.entries small a

  module _ (out : ℕ → PendingPush F) (taken : List (DecodedFrame F)) where
    ready-Arrived :
        (k : ℕ) (s s' : Inner F T W) (frame : DecodedFrame F) (b : ℕ)
        → s.next_push_sequence + 1 < 2 ^ 32
        → push_queue (take_push s (ready frame b)) frame b ≡ ok s'
        → Arrived k s
        → Arrived k (advance s')
    unfolding remove_push
    ready-Arrived k s s' frame b small e a =
        let (queued, same, cursor, fine) =
          push_ok out taken (take_push s (ready frame b)) s' frame b e in
        subst
          (λ n.
            (k < wrap_u32 (n + 1))
            ⊎ ((p : PendingPush F) × (find k s'.pending_pushes.entries ≡ some p)))
          (sym cursor)
          (subst
            (λ (m : PendingPushMap F).
              (k < wrap_u32 (s.next_push_sequence + 1))
              ⊎ ((p : PendingPush F) × (find k m.entries ≡ some p)))
            (sym same) (arrived_past k s.next_push_sequence s.pending_pushes.entries small a))

    drain-Arrived :
        (fuel : ℕ) (s : Inner F T W) (pushed : Bool) (k : ℕ)
        → Ordered out taken s
        → Arrived k s
        → ArrivedIfOpen k (drain fuel s pushed).0
    unfolding drain
    drain-Arrived zero s pushed k o a = λ _. a
    drain-Arrived (suc fuel) s pushed k o a =
        elim (find-cases (find s.next_push_sequence s.pending_pushes.entries)) [
          | inl absent ↦ rw (drain-none fuel s pushed absent) (λ _. a)
          | inr (inl skip) ↦ rw (drain_skipped fuel s pushed skip) (
              drain-Arrived fuel (advance (take_push s skipped)) pushed k
                (skip-Ordered out taken s o skip) (skip-Arrived k s (at_cursor skip) a))
          | inr (inr (frame, b, found)) ↦
              elim (Result-cases (push_queue (take_push s (ready frame b)) frame b)) [
                | inl (s', e) ↦ rw (drain_ready fuel s pushed found e) (
                    drain-Arrived fuel (advance s') true k
                      (ready-Ordered out taken s s' frame b o found e)
                      (ready-Arrived k s s' frame b (at_cursor found) e a))
                | inr (back, e) ↦
                    rw (drain_overflow fuel s pushed found e)
                      (λ c. cc (record_close-closed (take_push s (ready frame b)) queue_full))
              ]
        ]
      where
        at_cursor :
            {p : PendingPush F}
            → find s.next_push_sequence s.pending_pushes.entries ≡ some p
            → s.next_push_sequence + 1 < 2 ^ 32
        at_cursor {p} e =
            (find-AllEntries (IsParked out) s.next_push_sequence p s.pending_pushes.entries o.parked
              e).1

    drain-Drained :
        (fuel : ℕ) (s : Inner F T W) (pushed : Bool)
        → Ordered out taken s
        → length s.pending_pushes.entries < fuel
        → DrainedIfOpen (drain fuel s pushed).0
    drain-Drained zero s pushed o lt = absurd (omega arith)
    drain-Drained (suc fuel) s pushed o lt =
        elim (find-cases (find s.next_push_sequence s.pending_pushes.entries)) [
          | inl absent ↦ rw (drain-none fuel s pushed absent) (λ _. absent)
          | inr (inl skip) ↦ rw (drain_skipped fuel s pushed skip) (
              drain-Drained fuel (advance (take_push s skipped)) pushed
                (skip-Ordered out taken s o skip) (skip_shorter skip))
          | inr (inr (frame, b, found)) ↦
              elim (Result-cases (push_queue (take_push s (ready frame b)) frame b)) [
                | inl (s', e) ↦ rw (drain_ready fuel s pushed found e) (
                    drain-Drained fuel (advance s') true
                      (ready-Ordered out taken s s' frame b o found e)
                      (subst (λ (m : PendingPushMap F). length m.entries < fuel)
                        (sym (push_ok out taken (take_push s (ready frame b)) s' frame b e).1)
                        (skip_shorter found)))
                | inr (back, e) ↦
                    rw (drain_overflow fuel s pushed found e)
                      (λ c. cc (record_close-closed (take_push s (ready frame b)) queue_full))
              ]
        ]
      where
        skip_shorter :
            {p : PendingPush F}
            → find s.next_push_sequence s.pending_pushes.entries ≡ some p
            → length (remove_push s.pending_pushes s.next_push_sequence).1.entries < fuel
        skip_shorter {p} e =
            unfold remove_push in
            omega (arith, length-remove s.next_push_sequence p s.pending_pushes.entries e)

    settle-IfOpen :
        {D : Type 0} (h : SharedState F T W D) (k : ℕ) (x : Inner F T W × Bool × Option Bool)
        → (ArrivedIfOpen k x.0 → ArrivedIfOpen k (settle h x).0.inner)
          × (DrainedIfOpen x.0 → DrainedIfOpen (settle h x).0.inner)
    unfolding close_out wake_receiver is_closed
    settle-IfOpen h k (s, pushed, some just_closed) = (λ a. a, λ d. d)
    settle-IfOpen h k (s, true, none) = (λ a. a, λ d. d)
    settle-IfOpen h k (s, false, none) = (λ a. a, λ d. d)

    close_out-closed :
        {D : Type 0} (h : SharedState F T W D) (s : Inner F T W) (b : Bool)
        → is_closed s ≡ true
        → is_closed (close_out h s b).0.inner ≡ true
    unfolding close_out is_closed
    close_out-closed h s b c = c

    parked-Arrived :
        {D : Type 0} (h : SharedState F T W D) (k j : ℕ) (m : PendingPushMap F)
        → try_insert h.inner.pending_pushes k (out k) ≡ ok m
        → (j ≡ k) ⊎ Arrived j h.inner
        → (j < h.inner.next_push_sequence) ⊎ ((p : PendingPush F) × (find j m.entries ≡ some p))
    parked-Arrived h k j m e a = elim (ℕ_discrete j k) [
      | yes same ↦ inr (
        out k,
        entries_at j
            ∙ ap (λ i. find i (insert k (out k) h.inner.pending_pushes.entries)) same
            ∙ find-insert_self k (out k) h.inner.pending_pushes.entries,
      )
      | no other ↦ elim a [
        | inl same ↦ absurd (other same)
        | inr (inl before) ↦ inl before
        | inr (inr (p, found)) ↦ inr (
          p,
          entries_at j
              ∙ find-insert_ne k j (out k) h.inner.pending_pushes.entries
                  (λ q. other (ground arith))
              ∙ found,
        )
      ]
    ]
      where
        entries_at :
            (i : ℕ) → find i m.entries ≡ find i (insert k (out k) h.inner.pending_pushes.entries)
        entries_at i = ap (find i) (try_insert_ok h.inner.pending_pushes m k (out k) e).0

    -- What the delivery of the outcome at `k` makes of an arrival at `j`.
    pub deliver-Arrived :
        {D : Type 0} (h : SharedState F T W D) (k j : ℕ)
        → k + 1 < 2 ^ 32
        → Ordered out taken h.inner
        → (j ≡ k) ⊎ Arrived j h.inner
        → ArrivedIfOpen j (deliver_pending_push h k (out k)).0.inner
          × DrainedIfOpen (deliver_pending_push h k (out k)).0.inner
    deliver-Arrived h k j small o a =
        elim (Result-cases (try_insert h.inner.pending_pushes k (out k))) [
          | inl (m, e) ↦
              let s = record h.inner {
                pending_push_bytes = counted h k (out k);
                pending_pushes = m;
              } in
              let o' = parked-Ordered out taken h k m small o e in
              rw (deliver_parked h k (out k) (open-not_closed out taken h.inner o.is_open) e) (
                (settle-IfOpen h j (drain (suc (length m.entries)) s false)).0 (
                    drain-Arrived (suc (length m.entries)) s false j o'
                      (parked-Arrived h k j m e a)),
                (settle-IfOpen h j (drain (suc (length m.entries)) s false)).1
                    (drain-Drained (suc (length m.entries)) s false o' (omega arith)),
              )
          | inr (back, e) ↦
              rw (deliver_full h k (out k) (open-not_closed out taken h.inner o.is_open) e) (
                λ c. cc (
                    close_out-closed h _ _ (
                      record_close-closed
                        (record h.inner {
                          pending_push_bytes = counted h k (out k) - push_bytes (out k);
                        })
                        pushes_full)),
                λ c. cc (
                    close_out-closed h _ _ (
                      record_close-closed
                        (record h.inner {
                          pending_push_bytes = counted h k (out k) - push_bytes (out k);
                        })
                        pushes_full)),
              )
        ]
