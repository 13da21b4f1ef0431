-- ===== src/State/Delivery.antt =====
-- Frames are delivered in output order over every run (mediadecode-webcodecs/src/state.rs,
-- mediadecode-webcodecs/src/video.rs).
use mediadecode.Base.{
  ℕ, ◌-◌, ◌≤◌, ◌<◌, ◌≡◌, sym, subst, ◌⊎◌, inl, inr, true, false, Option, List, [], ◌∷◌, ◌++◌, arith,
  List-cases,
}
use mediadecode.State.SortedVec.{nat_key}
use mediadecode.State.Inner.{DecodedFrame, Inner, ok, try_new, pop_queue, is_closed}
use mediadecode.State.Shared.{CloseHookTarget}
use mediadecode.State.Order.{published, open-not_closed}
use mediadecode.State.Arrival.{ArrivedIfOpen}
use mediadecode.State.Trace.{
  Event, copied, failed, taken, flushed, flush_failed, closed, World, with_inner, outcome, IsSmall,
  AllSmall, step, run,
}
use mediadecode.State.Good.{Good, AllArrived}
use mediadecode.State.CopyKeeps.{finish_copy-Good, failed-Good}
use mediadecode.State.EventsKeep.{fatal_close-Good, flush-Good, pop_queue-Good, try_new-Good}
use mathlib.Core.List.{Memᴰ}
use native.Mathlib.Decide.{dec_le}

module _ {F T W D : Type 0} (byte_size : F → ℕ) (decoded : ℕ → ℕ → F) (w : World F T W D)
    (size : ℕ) where
  step_taken_none : w.handle.inner.queue ≡ [] → step byte_size decoded w (taken size) ≡ w
  unfolding step pop_queue
  step_taken_none e = rw e

  step_taken_some :
      (f : DecodedFrame F) (rest : List (DecodedFrame F))
      → w.handle.inner.queue ≡ f ∷ rest
      → step byte_size decoded w (taken size)
        ≡ record (with_inner w (record w.handle.inner {
          queue = rest;
          queue_bytes = w.handle.inner.queue_bytes - size;
        })) { received = w.received ++ f ∷ [] }
  unfolding step pop_queue
  step_taken_some f rest e = rw e

module _ {F T W D : Type 0} (byte_size : F → ℕ) (decoded : ℕ → ℕ → F) where
  -- The invariant of a run.
  abbrev GoodWorld : World F T W D → Type 0
  GoodWorld w = Good (outcome byte_size decoded) w.received w.finished w.handle.inner

  step-Good :
      (w : World F T W D) (e : Event)
      → IsSmall e
      → GoodWorld w
      → GoodWorld (step byte_size decoded w e)
  unfolding step
  step-Good w (copied epoch sequence estimate) small g =
      finish_copy-Good byte_size decoded w.received w.handle w.finished epoch estimate sequence
        small g
  step-Good w (failed epoch sequence estimate e) small g =
      failed-Good byte_size decoded w.received w.handle w.finished epoch estimate sequence e g
  step-Good w (taken size) small g = elim (List-cases w.handle.inner.queue) [
    | inl empty ↦ rw (step_taken_none byte_size decoded w size empty) g
    | inr (f, rest, full) ↦ rw (step_taken_some byte_size decoded w size f rest full) (
        pop_queue-Good (outcome byte_size decoded) w.received w.finished w.handle.inner f rest size
          full g)
  ]
  step-Good w flushed small g = flush-Good (outcome byte_size decoded) w.handle true
  step-Good w flush_failed small g = flush-Good (outcome byte_size decoded) w.handle false
  step-Good w (closed e) small g =
      fatal_close-Good (outcome byte_size decoded) w.received w.finished w.finished w.handle e g

  run-Good :
      (w : World F T W D) (es : List Event)
      → AllSmall es
      → GoodWorld w
      → GoodWorld (run byte_size decoded w es)
  run-Good w [] small g = g
  run-Good w (e ∷ es) small g =
      run-Good (step byte_size decoded w e) es small.1 (step-Good w e small.0 g)

arrived_at :
    {F T W : Type 0} (ks : List ℕ) (s : Inner F T W) (k : ℕ)
    → AllArrived ks s
    → Memᴰ k ks
    → ArrivedIfOpen k s
arrived_at [] s k a m = elim m [ ]
arrived_at (x ∷ ks) s k a (Memᴰ.head e) = subst (λ j. ArrivedIfOpen j s) (sym e) a.0
arrived_at (x ∷ ks) s k a (Memᴰ.tail m) = arrived_at ks s k a.1 m

-- A decoder that was just built, with nothing received.
abbrev pub start : {F T W D : Type 0} → Inner F T W → CloseHookTarget D → World F T W D
start s hook = record {
  handle = record { inner = s; close_hook = hook };
  received = [];
  finished = [];
}

-- What was received in this generation, then what is queued.
abbrev pub stream : {F T W D : Type 0} → World F T W D → List (DecodedFrame F)
stream w = w.received ++ w.handle.inner.queue

module _ {F T W D : Type 0} (byte_size : F → ℕ) (decoded : ℕ → ℕ → F) (w : World F T W D)
    (g : GoodWorld byte_size decoded w) where
  in_order :
      let frames = published (outcome byte_size decoded w.handle.inner.epoch) in
      ((is_closed w.handle.inner ≡ false) × (stream w ≡ frames w.handle.inner.next_push_sequence))
      ⊎ ((is_closed w.handle.inner ≡ true)
          × (w.handle.inner.queue ≡ [])
          × ((n : ℕ) × (rest : List (DecodedFrame F)) × (w.received ++ rest ≡ frames n)))
  in_order = elim g.order [
    | inl good ↦ inl (
      open-not_closed (outcome byte_size decoded w.handle.inner.epoch) w.received w.handle.inner
          good.is_open,
      good.stream,
    )
    | inr e ↦ inr (e.closed, e.emptied, (e.count, e.rest, e.begins))
  ]

  not_stuck :
      (n : ℕ)
      → is_closed w.handle.inner ≡ false
      → ((k : ℕ) → k < n → Memᴰ k w.finished)
      → n ≤ w.handle.inner.next_push_sequence
  not_stuck n fine all = elim (dec_le n w.handle.inner.next_push_sequence) [
    | yes le ↦ le
    | no gt ↦
        elim (arrived_at w.finished w.handle.inner w.handle.inner.next_push_sequence g.arrived
          (all w.handle.inner.next_push_sequence (omega arith)) fine) [
            | inl lt ↦ absurd (omega arith)
            | inr (p, found) ↦ cc (g.drained fine)
          ]
  ]

module _ {F T W D : Type 0} (byte_size : F → ℕ) (decoded : ℕ → ℕ → F) (q o p : Option ℕ)
    (hook : CloseHookTarget D) (s : Inner F T W) (es : List Event) (made : try_new q o p ≡ ok s)
    (small : AllSmall es) where
  final_Good : GoodWorld byte_size decoded (run byte_size decoded (start s hook) es)
  final_Good =
      run-Good byte_size decoded (start s hook) es small
        (try_new-Good (outcome byte_size decoded) [] q o p s made)

  -- From a new state, after any run of copies that end in any order and in any generation, none at the
  -- last `u32` sequence number, of frames taken, flushes and fatal errors: either the decoder is open, and the frames received in this
  -- generation followed by those queued are exactly the generation's frames in output order up to
  -- the cursor, none lost and none twice; or it is closed, nothing is queued, and those received
  -- begin that sequence.
  pub run_in_order :
      let w = run byte_size decoded (start s hook) es in
      let frames = published (outcome byte_size decoded w.handle.inner.epoch) in
      ((is_closed w.handle.inner ≡ false) × (stream w ≡ frames w.handle.inner.next_push_sequence))
      ⊎ ((is_closed w.handle.inner ≡ true)
          × (w.handle.inner.queue ≡ [])
          × ((n : ℕ) × (rest : List (DecodedFrame F)) × (w.received ++ rest ≡ frames n)))
  run_in_order = in_order byte_size decoded (run byte_size decoded (start s hook) es) final_Good

  -- No frame is held back: after such a run, in an open decoder, the cursor has passed the first `n`
  -- frames of the generation once the copies of all of them have ended well, in whatever order.
  pub run_not_stuck :
      (n : ℕ)
      → is_closed (run byte_size decoded (start s hook) es).handle.inner ≡ false
      → ((k : ℕ) → k < n → Memᴰ k (run byte_size decoded (start s hook) es).finished)
      → n ≤ (run byte_size decoded (start s hook) es).handle.inner.next_push_sequence
  run_not_stuck n fine all =
      not_stuck byte_size decoded (run byte_size decoded (start s hook) es) final_Good n fine all
