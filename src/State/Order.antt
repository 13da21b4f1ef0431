-- ===== src/State/Order.antt =====
-- The order in which decoded frames reach the consumer, whatever the order in which their copies
-- complete (mediadecode-webcodecs/src/state.rs).
use mediadecode.Base.{
  ℕ, zero, suc, ◌+◌, ◌-◌, ◌^◌, ◌<◌, ◌≡◌, refl, sym, ap, ◌∙◌, subst, ◌⊎◌, inl, inr, Bool, true,
  false, Option, none, some, List, [], ◌∷◌, ◌++◌, append-nil, append_assoc, arith, length,
}
use mediadecode.State.SortedVec.{
  nat_key, find, AllEntries, AllEntries-insert, AllEntries-remove, find-AllEntries,
}
use mediadecode.State.Inner.{
  Error, DecodedFrame, PendingPush, ready, skipped, PendingPushMap, Inner, ok, wrap_u32, try_insert,
  remove_push, push_queue, record_close, is_closed,
}
use mediadecode.State.Rounds.{
  Result-cases, find-cases, try_insert_ok, drain-none, drain_skipped, drain_ready, drain_overflow,
  deliver_full, deliver_parked, counted,
}
use mediadecode.State.Shared.{
  SharedState, drain, take_push, advance, queue_full, pushes_full, deliver_pending_push, push_bytes,
  settle, close_out, wake_receiver,
}

-- The frames that an outcome gives the consumer.
abbrev pub frames_of : {F : Type 0} → PendingPush F → List (DecodedFrame F)
frames_of (ready frame byte_size) = frame ∷ []
frames_of skipped = []

-- The frames of the first outcomes, in the order of their sequence numbers.
abbrev pub published : {F : Type 0} → (ℕ → PendingPush F) → ℕ → List (DecodedFrame F)
published out zero = []
published out (suc m) = published out m ++ frames_of (out m)

-- An outcome parked under its own sequence number, below the last `u32`.
abbrev pub IsParked : {F : Type 0} → (ℕ → PendingPush F) → ℕ → PendingPush F → Type 0
IsParked out k p = (p ≡ out k) × (k + 1 < 2 ^ 32)

published-next :
    {F : Type 0} (out : ℕ → PendingPush F) (n : ℕ) (p : PendingPush F)
    → IsParked out n p
    → published out (wrap_u32 (n + 1)) ≡ published out n ++ frames_of p
published-next out n p h =
    ap (published out) n+1 ∙ ap (λ q. published out n ++ frames_of q) (sym h.0)
  where
    n+1 : wrap_u32 (n + 1) ≡ suc n
    n+1 = omega arith

module _ {F T W : Type 0} (out : ℕ → PendingPush F) (taken : List (DecodedFrame F)) where
  -- The state of an open decoder: what was taken and what is queued are the outcomes before the
  -- cursor.
  pub record Ordered (s : Inner F T W) : Type 0 where
    pub parked : AllEntries (IsParked out) s.pending_pushes.entries
    pub stream : taken ++ s.queue ≡ published out s.next_push_sequence
    pub is_open : s.last_error ≡ none

  -- A closed decoder has nothing queued, and what was taken begins the stream.
  pub record Ended (s : Inner F T W) : Type 0 where
    pub closed : is_closed s ≡ true
    pub emptied : s.queue ≡ []
    pub count : ℕ
    pub rest : List (DecodedFrame F)
    pub begins : taken ++ rest ≡ published out count

  pub push_ok :
      (s s' : Inner F T W) (frame : DecodedFrame F) (b : ℕ)
      → push_queue s frame b ≡ ok s'
      → (s'.queue ≡ s.queue ++ frame ∷ [])
        × (s'.pending_pushes ≡ s.pending_pushes)
        × (s'.next_push_sequence ≡ s.next_push_sequence)
        × (s'.last_error ≡ s.last_error)
  unfolding push_queue
  push_ok s s' frame b h = ground arith

  pub open-not_closed : (s : Inner F T W) → s.last_error ≡ none → is_closed s ≡ false
  unfolding is_closed
  open-not_closed s h = ground arith

  pub skip-Ordered :
      (s : Inner F T W)
      → Ordered s
      → find s.next_push_sequence s.pending_pushes.entries ≡ some skipped
      → Ordered (advance (take_push s skipped))
  unfolding remove_push
  skip-Ordered s o found =
      let at_cursor =
        find-AllEntries (IsParked out) s.next_push_sequence skipped s.pending_pushes.entries
          o.parked found in
      record {
        parked =
            AllEntries-remove (IsParked out) s.next_push_sequence s.pending_pushes.entries o.parked;
        stream =
            o.stream
            ∙ sym (published-next out s.next_push_sequence skipped at_cursor ∙ append-nil _);
        is_open = o.is_open;
      }

  pub ready-Ordered :
      (s s' : Inner F T W) (frame : DecodedFrame F) (b : ℕ)
      → Ordered s
      → find s.next_push_sequence s.pending_pushes.entries ≡ some (ready frame b)
      → push_queue (take_push s (ready frame b)) frame b ≡ ok s'
      → Ordered (advance s')
  unfolding remove_push
  ready-Ordered s s' frame b o found pushed =
      let at_cursor =
        find-AllEntries (IsParked out) s.next_push_sequence (ready frame b) s.pending_pushes.entries
          o.parked found in
      let (queued, same, cursor, fine) = push_ok (take_push s (ready frame b)) s' frame b pushed in
      record {
        parked =
            subst (λ (m : PendingPushMap F). AllEntries (IsParked out) m.entries) (sym same)
              (AllEntries-remove (IsParked out) s.next_push_sequence s.pending_pushes.entries
                o.parked);
        stream =
            ap (λ q. taken ++ q) queued
            ∙ sym (append_assoc taken s.queue (frame ∷ []))
            ∙ ap (λ q. q ++ frame ∷ []) o.stream
            ∙ sym (
                ap (λ n. published out (wrap_u32 (n + 1))) cursor
                ∙ published-next out s.next_push_sequence (ready frame b) at_cursor);
        is_open = fine ∙ o.is_open;
      }

  pub record_close-Ended :
      (s : Inner F T W) (e : Error)
      → taken ++ s.queue ≡ published out s.next_push_sequence
      → Ended (record_close s e).1
  unfolding record_close is_closed
  record_close-Ended s e stream = record {
    closed = ground arith;
    emptied = refl;
    count = s.next_push_sequence;
    rest = s.queue;
    begins = stream;
  }

  pub drain-Ordered :
      (fuel : ℕ) (s : Inner F T W) (pushed : Bool)
      → Ordered s
      → Ordered (drain fuel s pushed).0 ⊎ Ended (drain fuel s pushed).0
  unfolding drain
  drain-Ordered zero s pushed o = inl o
  drain-Ordered (suc fuel) s pushed o =
      elim (find-cases (find s.next_push_sequence s.pending_pushes.entries)) [
        | inl absent ↦ rw (drain-none fuel s pushed absent) (inl o)
        | inr (inl skip) ↦
            rw (drain_skipped fuel s pushed skip)
              (drain-Ordered fuel (advance (take_push s skipped)) pushed (skip-Ordered s o skip))
        | inr (inr (frame, b, found)) ↦
            elim (Result-cases (push_queue (take_push s (ready frame b)) frame b)) [
              | inl (s', e) ↦
                  rw (drain_ready fuel s pushed found e)
                    (drain-Ordered fuel (advance s') true (ready-Ordered s s' frame b o found e))
              | inr (back, e) ↦
                  rw (drain_overflow fuel s pushed found e)
                    (inr (record_close-Ended (take_push s (ready frame b)) queue_full o.stream))
            ]
      ]

  settle-Ordered :
      {D : Type 0} (h : SharedState F T W D) (x : Inner F T W × Bool × Option Bool)
      → Ordered x.0
      → Ordered (settle h x).0.inner
  unfolding close_out wake_receiver
  settle-Ordered h (s, pushed, some just_closed) o = record {
    parked = o.parked;
    stream = o.stream;
    is_open = o.is_open;
  }
  settle-Ordered h (s, true, none) o = record {
    parked = o.parked;
    stream = o.stream;
    is_open = o.is_open;
  }
  settle-Ordered h (s, false, none) o = o

  settle-Ended :
      {D : Type 0} (h : SharedState F T W D) (x : Inner F T W × Bool × Option Bool)
      → Ended x.0
      → Ended (settle h x).0.inner
  unfolding close_out wake_receiver is_closed
  settle-Ended h (s, pushed, some just_closed) o = record {
    closed = o.closed;
    emptied = o.emptied;
    count = o.count;
    rest = o.rest;
    begins = o.begins;
  }
  settle-Ended h (s, true, none) o = record {
    closed = o.closed;
    emptied = o.emptied;
    count = o.count;
    rest = o.rest;
    begins = o.begins;
  }
  settle-Ended h (s, false, none) o = o

  settled :
      {D : Type 0} (h : SharedState F T W D) (x : Inner F T W × Bool × Option Bool)
      → Ordered x.0 ⊎ Ended x.0
      → Ordered (settle h x).0.inner ⊎ Ended (settle h x).0.inner
  settled h x (inl o) = inl (settle-Ordered h x o)
  settled h x (inr e) = inr (settle-Ended h x e)

  close_out-Ended :
      {D : Type 0} (h : SharedState F T W D) (s : Inner F T W) (b : Bool)
      → Ended s
      → Ended (close_out h s b).0.inner
  unfolding close_out is_closed
  close_out-Ended h s b o = record {
    closed = o.closed;
    emptied = o.emptied;
    count = o.count;
    rest = o.rest;
    begins = o.begins;
  }

  pub parked-Ordered :
      {D : Type 0} (h : SharedState F T W D) (k : ℕ) (m : PendingPushMap F)
      → k + 1 < 2 ^ 32
      → Ordered h.inner
      → try_insert h.inner.pending_pushes k (out k) ≡ ok m
      → Ordered (record h.inner { pending_push_bytes = counted h k (out k); pending_pushes = m })
  parked-Ordered h k m small o e = record {
    parked = rw (try_insert_ok h.inner.pending_pushes m k (out k) e).0 (
        AllEntries-insert (IsParked out) k (out k) h.inner.pending_pushes.entries (refl, small)
          o.parked);
    stream = o.stream;
    is_open = o.is_open;
  }

  -- The delivery of an outcome under its own sequence number keeps the order, or closes.
  pub deliver-Ordered :
      {D : Type 0} (h : SharedState F T W D) (k : ℕ)
      → k + 1 < 2 ^ 32
      → Ordered h.inner
      → Ordered (deliver_pending_push h k (out k)).0.inner
        ⊎ Ended (deliver_pending_push h k (out k)).0.inner
  deliver-Ordered h k small o = elim (Result-cases (try_insert h.inner.pending_pushes k (out k))) [
    | inl (m, e) ↦
        let s = record h.inner { pending_push_bytes = counted h k (out k); pending_pushes = m } in
        let o' = parked-Ordered h k m small o e in
        rw (deliver_parked h k (out k) (open-not_closed h.inner o.is_open) e) (
          settled h (drain (suc (length m.entries)) s false)
            (drain-Ordered (suc (length m.entries)) s false o'))
    | inr (back, e) ↦ rw (deliver_full h k (out k) (open-not_closed h.inner o.is_open) e) (
        inr (
          close_out-Ended h _ _ (
            record_close-Ended
              (record h.inner { pending_push_bytes = counted h k (out k) - push_bytes (out k) })
              pushes_full o.stream)))
  ]

-- The generation is the same after a delivery.
