-- ===== src/Decoder/Tests.antt =====
-- A library with two backends: the first fails its first frame, the second holds two packets and
-- must be drained of each frame. Packets, surfaces and frames are numbers.
use mediadecode.Base.{
  pos, negsuc, ℕ, zero, suc, ◌*◌, ◌≡◌, refl, ap, ◌∙◌, Bool, true, false, ◌&&◌, Option, none, some,
  List, [], ◌∷◌, arith, leb, if◌then◌else◌, Returns, Result, ok, err,
}
use mediadecode.Decoder.Libav.{AvError, av_eof, other, fault, Libav, no_attempts}
use mediadecode.Decoder.Phase.{is_eagain, is_transient}
use mediadecode.Decoder.Replay.{Candidate, replay}
use mediadecode.Decoder.Session.{VideoDecoder}
use mediadecode.Decoder.Calls.{send_av_packet, receive_frame, open_probing}
use mediadecode.Decoder.Run.{Call, packet, end_of_stream, frame, Reply, run, Runs, run-Runs}
use mediadecode.Decoder.Sending.{SendKeeps}
use mediadecode.Decoder.Receiving.{ReceiveKeeps}
use mediadecode.Decoder.History.{send_av_packet-SendKeeps, receive_frame-ReceiveKeeps}
use mediadecode.Decoder.Open.{Opens, open_probing-Opens}
use mediadecode.Decoder.Feeding.{Heard, replay-Heard}
use mediadecode.Decoder.Queue.{FitsAfter, replay-Fits}
use mediadecode.Decoder.Promises.{
  Told, hear, hear_end, hear_history, if_accepted, IsNoAgain, OnOk, Promises,
}

record Ctx : Type 0 where
  good : Bool
  heard : Told ℕ
  held : ℕ

abbrev took : Ctx → ℕ → Ctx × Option AvError
took c p =
    if c.good && leb 2 c.held
    then (c, some (other 11))
    else (record c { heard = hear p c.heard; held = suc c.held }, none)

abbrev gave : Ctx → Ctx × Result AvError ℕ
gave c = elim c.good [
  | false ↦ (c, err (fault (negsuc 0)))
  | true ↦ elim c.held [
    | zero ↦ (c, err (if c.heard.1 then av_eof else other 11))
    | suc n ↦ (record c { held = n }, ok n)
  ]
]

abbrev toy : Libav
toy = record {
  Backend = Bool;
  Packet = ℕ;
  Detail = Unit {0};
  Context = Ctx;
  Surface = ℕ;
  CpuFrame = ℕ;
  ScaledOutput = Unit {0};
  World = Unit {0};
  eagain = 11;
  einval = 22;
  enomem = 12;
  send_packet = λ p c. took c p;
  send_eof = λ c. (record c { heard = hear_end c.heard }, none);
  receive_frame = gave;
  flush = λ c. record c { heard = ([], false); held = 0 };
  take_ceiling_declination = λ c. (c, none);
  take_frame_budget_declination = λ c. (c, none);
  try_clone_parameters = λ w. (w, ok tt);
  build_state = λ b w. (w, ok (record { good = b; heard = ([], false); held = 0 }));
  try_clone_packet = λ p w. (w, ok p);
  alloc_av_frame = λ w. (w, none);
  transfer_data = λ s w. (w, ok s);
  copy_frame_props = λ f s w. (w, ok f);
  size = λ p. 100;
  side_data_elems = λ p. pos 0;
  side_data = λ p. none;
  hw_frames_ctx = λ s. some (some (pos 4, pos 2));
  nb_side_data = λ s. pos 0;
  frame_side_data = λ s. none;
  download_formats = λ s. ok (pos 1 ∷ []);
  linesize = λ f. pos 4;
  buf = λ f. some 8 ∷ [];
  is_supported_cpu_pix_fmt = λ f. true;
  av_image_get_buffer_size = λ f w h a. pos (w * h);
  worst_bytes_per_probe = 16 * 65536;
  stage = λ s o. (o, none);
  latch_failure = λ o. o;
  retire = λ o. o;
}

took-told : (p : ℕ) (c : Ctx) → (took c p).0.heard ≡ if_accepted (hear p) (took c p).1 c.heard
took-told p c = ground arith

gave-told : (c : Ctx) → (gave c).0.heard ≡ c.heard
gave-told c = ground arith

transient_of : Result AvError ℕ → Bool
transient_of (ok a) = false
transient_of (err e) = is_transient toy e

ready_by :
    (good : Bool) (heard : Told ℕ) (held : ℕ) (e : AvError)
    → let c : Ctx = record { good = good; heard = heard; held = held } in
      (gave c).1 ≡ err e → is_transient toy e ≡ true → (p : ℕ) → IsNoAgain toy (took (gave c).0 p).1
unfolding transient_of is_transient is_eagain
ready_by false heard held e h t p =
    let never : false ≡ true = ap transient_of h ∙ t in absurd (ground (arith, never))
ready_by true heard zero e h t p = tt
ready_by true heard (suc n) e h t p = absurd (ground (arith, ap transient_of h ∙ t))

gave-ready :
    (c : Ctx) (e : AvError)
    → (gave c).1 ≡ err e
    → is_transient toy e ≡ true
    → (p : ℕ) → IsNoAgain toy (took (gave c).0 p).1
gave-ready c = ready_by c.good c.heard c.held

abbrev toy_promises : Promises toy
toy_promises = record {
  told = λ c. c.heard;
  told_build = λ b w. refl;
  told_send = took-told;
  told_eof = λ c. refl;
  told_receive = gave-told;
  told_flush = λ c. refl;
  told_ceiling = λ c. refl;
  told_budget = λ c. refl;
  send_ready = gave-ready;
  eof_ready = λ c e h t. tt;
  same_packet = λ p w. refl;
  same_buffers = λ f s w. refl;
}

abbrev opened : VideoDecoder toy
opened = record {
  inner = record { good = false; heard = ([], false); held = 0 };
  backend = false;
  probe = some (record {
    remaining_backends = true ∷ [];
    buffered_packets = [];
    buffered_bytes = 0;
    attempts = no_attempts;
  });
  pending_frames = [];
  caps = record { max_bytes = 1000; max_frame_bytes = 100000 };
  eof_sent = false;
  scaled_output = tt;
  world = tt;
}

-- Three packets, the end, and three frames: the first backend fails the first frame, and the second
-- is told all that was accepted.
abbrev calls : List (Call ℕ)
calls = packet 1 ∷ packet 2 ∷ packet 3 ∷ end_of_stream ∷ frame ∷ frame ∷ frame ∷ frame ∷ []

told_after : Option (VideoDecoder toy × List (Call ℕ × Reply toy)) → Told ℕ
told_after none = ([], false)
told_after (some (s, entries)) = s.inner.heard

run_backends : told_after (run toy 2 calls opened) ≡ (1 ∷ 2 ∷ 3 ∷ [], true)
unfolding told_after run
run_backends = refl

run-Runs_example : Returns (Runs toy toy_promises ([], false)) (run toy 2 calls opened)
run-Runs_example =
    run-Runs toy toy_promises 2 calls opened ([], false) (omega arith) (refl, refl, refl)

send_av_packet-SendKeeps_example :
    Returns (SendKeeps toy toy_promises ([], false) 7) (send_av_packet toy 2 7 opened)
send_av_packet-SendKeeps_example =
    send_av_packet-SendKeeps toy toy_promises 2 (omega arith) ([], false) 7 opened
      (refl, refl, refl)

receive_frame-ReceiveKeeps_example :
    Returns (ReceiveKeeps toy toy_promises ([], false)) (receive_frame toy 2 opened)
receive_frame-ReceiveKeeps_example =
    receive_frame-ReceiveKeeps toy toy_promises 2 (omega arith) ([], false) opened
      (refl, refl, refl)

open_probing-Opens_example :
    OnOk toy
      (Opens toy toy_promises (false ∷ true ∷ []))
      (open_probing toy 100000 tt (false ∷ true ∷ []) no_attempts tt).1
open_probing-Opens_example =
    open_probing-Opens toy toy_promises 100000 tt (false ∷ true ∷ []) no_attempts tt

abbrev fresh : Candidate toy
fresh = record {
  inner = record { good = true; heard = ([], false); held = 0 };
  pending = [];
  pending_bytes = 0;
  world = tt;
}

replay-Heard_example :
    Returns
      (Heard toy opened.caps toy_promises (hear_history true (4 ∷ 5 ∷ 6 ∷ [])) fresh)
      (replay toy opened.caps 2 true (4 ∷ 5 ∷ 6 ∷ []) fresh)
replay-Heard_example =
    replay-Heard toy opened.caps toy_promises 0 true (4 ∷ 5 ∷ 6 ∷ []) fresh (omega arith)

replay-Fits_example :
    Returns (FitsAfter toy opened.caps) (replay toy opened.caps 2 true (4 ∷ 5 ∷ 6 ∷ []) fresh)
replay-Fits_example =
    replay-Fits toy opened.caps toy_promises (omega arith) 0 true (4 ∷ 5 ∷ 6 ∷ []) fresh
      (omega arith, omega arith, omega arith)
