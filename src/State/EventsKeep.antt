-- ===== src/State/EventsKeep.antt =====
-- The invariant of a run over the other events (mediadecode-webcodecs/src/state.rs,
-- mediadecode-webcodecs/src/video.rs).
use mediadecode.Base.{
  ℕ, ◌-◌, ◌≡◌, refl, sym, ap, ◌∙◌, subst, ◌⊎◌, inl, inr, Bool, true, false, Option, none, some,
  List, [], ◌∷◌, ◌++◌, append_assoc, arith, Option-cases,
}
use mediadecode.State.SortedVec.{nat_key, find, AllEntries}
use mediadecode.State.Inner.{
  Error, DecodedFrame, PendingPush, Inner, ok, try_new, record_close, is_closed, clear_last_error,
  bump_epoch,
}
use mediadecode.State.Shared.{SharedState, close_out}
use mediadecode.State.Copy.{flush, fatal_close, flush_incomplete}
use mediadecode.State.Order.{published, IsParked}
use mediadecode.State.Good.{Good, AllArrived-map, wake-Good, record_close-Good}

module _ {F T W : Type 0} (out : ℕ → ℕ → PendingPush F) (received : List (DecodedFrame F)) where
  open_or_closed : (s : Inner F T W) → (s.last_error ≡ none) ⊎ (is_closed s ≡ true)
  unfolding is_closed
  open_or_closed s = elim (Option-cases s.last_error) [
    | inl o ↦ inl o
    | inr (e, c) ↦ inr (ground arith)
  ]

  -- The frame at the head of the queue moves to those received.
  pub pop_queue-Good :
      (ks : List ℕ) (s : Inner F T W) (f : DecodedFrame F) (rest : List (DecodedFrame F)) (n : ℕ)
      → s.queue ≡ f ∷ rest
      → Good out received ks s
      → Good out
          (received ++ f ∷ [])
          ks
          (record s { queue = rest; queue_bytes = s.queue_bytes - n })
  unfolding is_closed
  pop_queue-Good ks s f rest n q g = record {
    order = elim g.order [
      | inl o ↦ inl (record {
        parked = o.parked;
        stream = append_assoc received (f ∷ []) rest ∙ ap (λ l. received ++ l) (sym q) ∙ o.stream;
        is_open = o.is_open;
      })
      | inr e ↦ cc (e.emptied)
    ];
    arrived = AllArrived-map out received _ _ (λ k x. x) ks g.arrived;
    drained = g.drained;
  }

  fresh-Good :
      (s : Inner F T W)
      → s.queue ≡ []
      → s.pending_pushes.entries ≡ []
      → s.next_push_sequence ≡ 0
      → (s.last_error ≡ none) ⊎ (is_closed s ≡ true)
      → Good out [] [] s
  unfolding find
  fresh-Good s q p n c = record {
    order = elim c [
      | inl o ↦ inl (record {
        parked = subst (AllEntries (IsParked (out s.epoch))) (sym p) tt;
        stream = q ∙ ap (published (out s.epoch)) (sym n);
        is_open = o;
      })
      | inr e ↦ inr (record { closed = e; emptied = q; count = 0; rest = []; begins = refl })
    ];
    arrived = tt;
    drained = λ _. subst (λ m. find s.next_push_sequence m ≡ none) (sym p) refl;
  }

  pub fatal_close-Good :
      {D : Type 0} (ks ls : List ℕ) (h : SharedState F T W D) (e : Error)
      → Good out received ks h.inner
      → Good out received ls (fatal_close h e).0.inner
  unfolding fatal_close close_out
  fatal_close-Good ks ls h e g =
      (wake-Good out received ls (record h { inner = (record_close h.inner e).1 })
        (record_close-Good out received ks ls h.inner e g)).0

  pub try_new-Good : (q o p : Option ℕ) (s : Inner F T W) → try_new q o p ≡ ok s → Good out [] [] s
  unfolding try_new
  try_new-Good none o p s e = cc
  try_new-Good (some q) none p s e = cc
  try_new-Good (some q) (some o) none s e = cc
  try_new-Good (some q) (some o) (some p) s e =
      fresh-Good s (ground arith) (ground arith) (ground arith) (inl (ground arith))

module _ {F T W : Type 0} (out : ℕ → ℕ → PendingPush F) where
  bump-Good : (s : Inner F T W) → Good out [] [] (bump_epoch s).1
  unfolding bump_epoch
  bump-Good s =
      fresh-Good out [] (bump_epoch s).1 refl refl refl (open_or_closed out [] (bump_epoch s).1)

  reopen-Good : (s : Inner F T W) → Good out [] [] (clear_last_error (bump_epoch s).1)
  unfolding bump_epoch clear_last_error
  reopen-Good s = fresh-Good out [] (clear_last_error (bump_epoch s).1) refl refl refl (inl refl)

  -- A generation begins empty, whether or not the flush succeeds.
  pub flush-Good :
      {D : Type 0} (h : SharedState F T W D) (js : Bool) → Good out [] [] (flush h js).0.inner
  unfolding flush
  flush-Good h true =
      (wake-Good out [] [] (record h { inner = clear_last_error (bump_epoch h.inner).1 })
        (reopen-Good h.inner)).1
  flush-Good h false =
      fatal_close-Good out [] [] [] (record h { inner = (bump_epoch h.inner).1 }) flush_incomplete
        (bump-Good h.inner)
