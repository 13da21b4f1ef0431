-- ===== src/Decoder/Open.antt =====
-- What a decoder opened over an order of backends has told its backend, and what it has tried
-- (mediadecode-ffmpeg/src/decoder/mod.rs, `open_probing`).
use mediadecode.Base.{
  ℕ, ◌≡◌, refl, subst, inl, inr, false, Option, none, some, List, [], ◌∷◌, ◌++◌, append_assoc,
  Option-cases,
}
use mediadecode.Decoder.Libav.{Attempts, attempt, tried, Libav}
use mediadecode.Decoder.Phase.{Failure}
use mediadecode.Decoder.Session.{ProbeState, VideoDecoder}
use mediadecode.Decoder.Calls.{finish_open, open_probing}
use mediadecode.Decoder.Promises.{OnOk, Promises}
use mediadecode.Decoder.Feeding.{Result-split}
use mediadecode.Decoder.Rescue.{InStep}

module _ (F : Libav) (L : Promises F) where
  -- A backend on trial, the ones before it on the log and the ones after it left to try.
  abbrev OnTrial : List F.Backend → F.Backend → Option (ProbeState F) → Type 0
  OnTrial order active none = ⊥
  OnTrial order active (some p) = tried p.attempts ++ (active ∷ p.remaining_backends) ≡ order

  abbrev pub Opens : List F.Backend → VideoDecoder F → Type 0
  Opens order s = InStep F L ([], false) s × OnTrial order s.backend s.probe

  finish_open-Opens :
      (max_frame_bytes : ℕ) (out : F.ScaledOutput) (b : F.Backend) (bs : List F.Backend)
      (log : Attempts F.Backend F.Packet F.Detail) (context : F.Context) (w : F.World)
      → L.told context ≡ ([], false)
      → OnOk F
          (Opens (tried log ++ (b ∷ bs)))
          (finish_open F max_frame_bytes out b bs log context w).1
  unfolding finish_open
  finish_open-Opens max_frame_bytes out b bs log context w fresh =
      let (w1, kept) = F.try_clone_parameters w in
      elim (Result-split kept) [
        | inr (e, failed) ↦ rw (failed, OnOk) tt
        | inl (parameters, cloned) ↦ elim (Option-cases (F.alloc_av_frame w1).1) [
          | inr (e, failed) ↦ rw (cloned, failed, OnOk) tt
          | inl allocated ↦ rw (cloned, allocated, OnOk) ((fresh, refl, refl), refl)
        ]
      ]

  -- A decoder opened over an order of backends, of which the log holds the ones tried before, has
  -- told its backend nothing, and keeps the order: first the backends on its log, then its own, then
  -- the ones left to try.
  pub open_probing-Opens :
      (max_frame_bytes : ℕ) (out : F.ScaledOutput) (order : List F.Backend)
      (log : Attempts F.Backend F.Packet F.Detail) (w : F.World)
      → OnOk F (Opens (tried log ++ order)) (open_probing F max_frame_bytes out order log w).1
  unfolding open_probing
  open_probing-Opens max_frame_bytes out [] log w = tt
  open_probing-Opens max_frame_bytes out (b ∷ bs) log w =
      let (w1, cloned) = F.try_clone_parameters w in
      let (w2, built) = F.build_state b w1 in
      let later : (e : Failure F) (v : F.World)
          → OnOk F (Opens (tried log ++ (b ∷ bs)))
              (open_probing F max_frame_bytes out bs (attempt log b e) v).1 =
        λ e v.
          subst
            (λ l. OnOk F (Opens l) (open_probing F max_frame_bytes out bs (attempt log b e) v).1)
            (append_assoc (tried log) (b ∷ []) bs)
            (open_probing-Opens max_frame_bytes out bs (attempt log b e) v) in
      elim (Result-split cloned) [
        | inr (e, failed) ↦ rw (failed, OnOk) (later e w1)
        | inl (parameters, copied) ↦ elim (Result-split built) [
          | inr (e, failed) ↦ rw (copied, failed, OnOk) (later e w2)
          | inl (context, opened) ↦
              rw (copied, opened, OnOk)
                (finish_open-Opens max_frame_bytes out b bs log context w2
                  (subst (OnOk F (λ d. L.told d ≡ ([], false))) opened (L.told_build b w1)))
        ]
      ]
