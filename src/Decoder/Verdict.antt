-- ===== src/Decoder/Verdict.antt =====
-- What an error of libavcodec is read as, and where it goes: the funnels of
-- mediadecode-ffmpeg/src/decoder/mod.rs.
use mediadecode.Base.{
  ◌≡◌, refl, sym, Bool, true, false, ◌&&◌, arith, if◌then◌else◌, Result, ok, err,
}
use mediadecode.Decoder.Libav.{av_eof, other, ffmpeg, Libav}
use mediadecode.Decoder.Phase.{
  phase_of, Received, Sent, accepted, must_drain, Failure, is_eagain, accepts_input, is_committed,
  receive_status, send_status, produced, needs_input, ended,
}

-- An error satisfies `P`, an answer `Q`.
abbrev pub Either : {E A : Type 0} → (E → Type 0) → (A → Type 0) → Result E A → Type 0
Either P Q (ok a) = Q a
Either P Q (err e) = P e

-- A test's branches, each under what it tells.
Either-test :
    {E A : Type 0} (P : E → Type 0) (Q : A → Type 0) (b : Bool) (r r' : Result E A)
    → (b ≡ true → Either P Q r)
    → Either P Q r'
    → Either P Q (if b then r else r')
Either-test P Q true r r' h h' = h refl
Either-test P Q false r r' h h' = h'

accepts_input-phase_of : (b : Bool) (c : Bool) → accepts_input (phase_of b c) ≡ true → c ≡ false
unfolding accepts_input phase_of
accepts_input-phase_of true true h = sym h
accepts_input-phase_of true false h = refl
accepts_input-phase_of false true h = sym h
accepts_input-phase_of false false h = refl

is_committed-phase_of : (b : Bool) (c : Bool) → is_committed (phase_of b c) ≡ true → b ≡ false
unfolding is_committed phase_of
is_committed-phase_of true true h = sym h
is_committed-phase_of true false h = sym h
is_committed-phase_of false c h = refl

and_right : (a b : Bool) → (a && b) ≡ true → b ≡ true
and_right a b h = ground arith

-- A submission is put off only before the end.
abbrev pub IsDrain : Bool → Sent → Type 0
IsDrain over accepted = ⊥
IsDrain over must_drain = over ≡ false

-- Input is asked for only before the end, and an end is told only by a backend that is not on trial.
abbrev pub IsStatus : {A : Type 0} → Bool → Bool → Received A → Type 0
IsStatus on_trial over (produced a) = ⊥
IsStatus on_trial over needs_input = over ≡ false
IsStatus on_trial over ended = on_trial ≡ false

module _ (F : Libav) where
  pub send_status-Either :
      (P : Failure F → Type 0) (e : Failure F) (on_trial over : Bool)
      → P e
      → Either P (IsDrain over) (send_status F e (phase_of on_trial over))
  unfolding send_status
  send_status-Either P (ffmpeg (other n)) on_trial over h =
      Either-test P (IsDrain over) (is_eagain F (other n) && accepts_input (phase_of on_trial over))
        _ _ (λ t. accepts_input-phase_of on_trial over (and_right (is_eagain F (other n)) _ t)) h
  send_status-Either P e on_trial over h = h

  pub receive_status-Either :
      (A : Type 0) (P : Failure F → Type 0) (e : Failure F) (on_trial over : Bool)
      → P e
      → Either P
          (IsStatus {A = A} on_trial over)
          (receive_status F {A = A} e (phase_of on_trial over))
  unfolding receive_status
  receive_status-Either A P (ffmpeg av_eof) on_trial over h =
      Either-test P (IsStatus on_trial over) (is_committed (phase_of on_trial over)) _ _
        (is_committed-phase_of on_trial over) h
  receive_status-Either A P (ffmpeg (other n)) on_trial over h =
      Either-test P (IsStatus on_trial over) (is_eagain F (other n)) _ _
        (λ _.
          Either-test P (IsStatus on_trial over) (accepts_input (phase_of on_trial over)) _ _
            (accepts_input-phase_of on_trial over)
            (Either-test P (IsStatus on_trial over) (is_committed (phase_of on_trial over)) _ _
              (is_committed-phase_of on_trial over) h))
        h
  receive_status-Either A P e on_trial over h = h
