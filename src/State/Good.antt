-- ===== src/State/Good.antt =====
-- What holds of the shared state between two events of a run (mediadecode-webcodecs/src/state.rs,
-- mediadecode-webcodecs/src/video.rs).
use mediadecode.Base.{ℕ, ◌+◌, ◌^◌, ◌<◌, ◌≡◌, refl, sym, subst, ◌⊎◌, inl, inr, true, List, [], ◌∷◌}
use mediadecode.State.SortedVec.{nat_key}
use mediadecode.State.Inner.{
  Error, DecodedFrame, PendingPush, skipped, Inner, record_close, is_closed, sub_pending_copy,
}
use mediadecode.State.Shared.{SharedState, deliver_pending_push, wake_all, wake_dequeue}
use mediadecode.State.Copy.{errored}
use mediadecode.State.Epochs.{deliver-epoch}
use mediadecode.State.Order.{Ordered, Ended, deliver-Ordered, record_close-Ended, open-not_closed}
use mediadecode.State.Rounds.{deliver_closed}
use mediadecode.State.Arrival.{ArrivedIfOpen, DrainedIfOpen, deliver-Arrived, record_close-closed}

module _ {F T W : Type 0} where
  abbrev pub AllArrived : List ℕ → Inner F T W → Type 0
  AllArrived [] s = Unit
  AllArrived (k ∷ ks) s = ArrivedIfOpen k s × AllArrived ks s

-- The invariant of a run.
pub record Good {F T W : Type 0} (out : ℕ → ℕ → PendingPush F) (received : List (DecodedFrame F))
    (finished : List ℕ) (s : Inner F T W) : Type 0 where
  pub order : Ordered (out s.epoch) received s ⊎ Ended (out s.epoch) received s
  pub arrived : AllArrived finished s
  pub drained : DrainedIfOpen s

module _ {F T W : Type 0} (out : ℕ → ℕ → PendingPush F) (received : List (DecodedFrame F)) where
  pub AllArrived-map :
      (s s' : Inner F T W)
      → ((k : ℕ) → ArrivedIfOpen k s → ArrivedIfOpen k s')
      → (ks : List ℕ) → AllArrived ks s
      → AllArrived ks s'
  AllArrived-map s s' f [] a = tt
  AllArrived-map s s' f (k ∷ ks) a = (f k a.0, AllArrived-map s s' f ks a.1)

  pub closed-AllArrived : (ks : List ℕ) (s : Inner F T W) → is_closed s ≡ true → AllArrived ks s
  closed-AllArrived [] s c = tt
  closed-AllArrived (k ∷ ks) s c = (λ o. cc, closed-AllArrived ks s c)

  pub Ended-Good :
      (ks : List ℕ) (s : Inner F T W) → Ended (out s.epoch) received s → Good out received ks s
  Ended-Good ks s e = record {
    order = inr e;
    arrived = closed-AllArrived ks s e.closed;
    drained = λ o. cc (e.closed);
  }

  pub sub_pending_copy-Good :
      (ks : List ℕ) (s : Inner F T W) (n : ℕ)
      → Good out received ks s
      → Good out received ks (sub_pending_copy s n)
  unfolding sub_pending_copy is_closed
  sub_pending_copy-Good ks s n g = record {
    order = elim g.order [
      | inl o ↦ inl (record { parked = o.parked; stream = o.stream; is_open = o.is_open })
      | inr e ↦ inr (record {
        closed = e.closed;
        emptied = e.emptied;
        count = e.count;
        rest = e.rest;
        begins = e.begins;
      })
    ];
    arrived = AllArrived-map _ _ (λ k x. x) ks g.arrived;
    drained = g.drained;
  }

  pub wake-Good :
      {D : Type 0} (ks : List ℕ) (h : SharedState F T W D)
      → Good out received ks h.inner
      → Good out received ks (wake_all h).0.inner × Good out received ks (wake_dequeue h).0.inner
  unfolding wake_all wake_dequeue is_closed
  wake-Good ks h g = (
    record {
      order = elim g.order [
        | inl o ↦ inl (record { parked = o.parked; stream = o.stream; is_open = o.is_open })
        | inr e ↦ inr (record {
          closed = e.closed;
          emptied = e.emptied;
          count = e.count;
          rest = e.rest;
          begins = e.begins;
        })
      ];
      arrived = AllArrived-map _ _ (λ k x. x) ks g.arrived;
      drained = g.drained;
    },
    record {
      order = elim g.order [
        | inl o ↦ inl (record { parked = o.parked; stream = o.stream; is_open = o.is_open })
        | inr e ↦ inr (record {
          closed = e.closed;
          emptied = e.emptied;
          count = e.count;
          rest = e.rest;
          begins = e.begins;
        })
      ];
      arrived = AllArrived-map _ _ (λ k x. x) ks g.arrived;
      drained = g.drained;
    },
  )

  pub deliver-Good :
      {D : Type 0} (ks : List ℕ) (h : SharedState F T W D) (k : ℕ)
      → k + 1 < 2 ^ 32
      → Good out received ks h.inner
      → Good out received (k ∷ ks) (deliver_pending_push h k (out h.inner.epoch k)).0.inner
  deliver-Good ks h k small g = elim g.order [
    | inr e ↦ rw (deliver_closed h k (out h.inner.epoch k) e.closed) (Ended-Good (k ∷ ks) h.inner e)
    | inl o ↦ record {
      order =
          subst
            (λ n.
              Ordered (out n) received (deliver_pending_push h k (out h.inner.epoch k)).0.inner
              ⊎ Ended (out n) received (deliver_pending_push h k (out h.inner.epoch k)).0.inner)
            (sym (deliver-epoch h k (out h.inner.epoch k)))
            (deliver-Ordered (out h.inner.epoch) received h k small o);
      arrived = (
        (deliver-Arrived (out h.inner.epoch) received h k k small o (inl refl)).0,
        AllArrived-map _ _
            (λ j a.
              (deliver-Arrived (out h.inner.epoch) received h k j small o
                (inr (a (open-not_closed (out h.inner.epoch) received h.inner o.is_open)))).0)
            ks g.arrived,
      );
      drained = (deliver-Arrived (out h.inner.epoch) received h k k small o (inl refl)).1;
    }
  ]

  pub record_close-Good :
      (ks ls : List ℕ) (s : Inner F T W) (e : Error)
      → Good out received ks s
      → Good out received ls (record_close s e).1
  unfolding record_close
  record_close-Good ks ls s e g = Ended-Good ls (record_close s e).1 (elim g.order [
    | inl o ↦ record_close-Ended (out s.epoch) received s e o.stream
    | inr x ↦ record {
      closed = record_close-closed s e;
      emptied = refl;
      count = x.count;
      rest = x.rest;
      begins = x.begins;
    }
  ])

  pub errored-Good :
      {D : Type 0} (ks ls : List ℕ) (h : SharedState F T W D) (k : ℕ) (s : Inner F T W) (e : Error)
      → Good out received ks s
      → Good out received ls (errored h k (record_close s e)).0.inner
  errored-Good ks ls h k s e g =
      let h' = record h { inner = (record_close s e).1 } in
      (wake-Good ls (deliver_pending_push h' k skipped).0 (
        rw (deliver_closed h' k skipped (record_close-closed s e))
          (record_close-Good ks ls s e g))).0

  pub extend_closed :
      (ks ls : List ℕ) (s : Inner F T W)
      → is_closed s ≡ true
      → Good out received ks s
      → Good out received ls s
  extend_closed ks ls s c g = elim g.order [
    | inl o ↦ cc (open-not_closed (out s.epoch) received s o.is_open)
    | inr e ↦ Ended-Good ls s e
  ]

  weaken-Good :
      (k : ℕ) (ks : List ℕ) (s : Inner F T W)
      → Good out received (k ∷ ks) s
      → Good out received ks s
  weaken-Good k ks s g = record { order = g.order; arrived = g.arrived.1; drained = g.drained }
