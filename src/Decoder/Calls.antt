-- ===== src/Decoder/Calls.antt =====
-- The calls of `VideoDecoder` (mediadecode-ffmpeg/src/decoder/mod.rs): `open_probing`,
-- `send_av_packet`, `send_eof`, `receive_frame` and `flush`. A run out of fuel is none: `rounds`
-- bounds the submissions that a candidate may put off, and a loop has a round for each backend that
-- is left and one more.
use mediadecode.Base.{
  ℕ, zero, suc, ◌+◌, ◌*◌, true, false, Option, none, some, List, [], ◌∷◌, ◌++◌, ltb, ◌||◌, u64_max,
  saturating_add, length, Result, ok, err, ◌>>=◌,
}
use mathlib.Core.Option
use mediadecode.Decoder.Libav.{
  AvError, other, Error, hw_transfer_too_large, all_backends_failed, Attempts, attempt, Libav,
}
use mediadecode.Decoder.Phase.{
  Received, produced, Sent, accepted, reported, candidate_failure, HwRoute, report, advance,
  Failure, is_transient,
}
use mediadecode.Decoder.Footprint.{
  judge_hw_transfer, packet_side_data_count, packet_side_data_bytes,
}
use mediadecode.Decoder.Session.{
  ProbeState, VideoDecoder, with_inner, hw_receive, hw_send, route, hw_failure, advance_probe,
}

abbrev pub max_probe_packets : ℕ
max_probe_packets = 256

abbrev pub max_probe_packet_bytes : ℕ
max_probe_packet_bytes = 64 * 1024 * 1024

abbrev pub max_probe_packet_side_data_entries : ℕ
max_probe_packet_side_data_entries = 64

abbrev pub default_max_probe_pending_bytes : ℕ
default_max_probe_pending_bytes = 256 * 1024 * 1024

module _ (F : Libav) where
  -- What a call answers, with the decoder after it.
  abbrev pub Answer : Type 0 → Type 0
  Answer A = Option (VideoDecoder F × Result (Failure F) A)

  -- The size that the probe charges for a packet.
  unfoldable pub pkt_size : F.Packet → ℕ
  unfolding packet_side_data_bytes
  pkt_size packet =
      saturating_add u64_max (F.size packet)
        (packet_side_data_bytes F packet max_probe_packet_side_data_entries)

  -- The probe gives up its safety net before a packet is sent: nothing is on trial any more.
  abbrev pub give_up :
      {A : Type 0} → ProbeState F → VideoDecoder F → VideoDecoder F × Result (Failure F) A
  give_up p s = (record s { probe = none }, err (all_backends_failed p.attempts p.buffered_packets))

  -- The copy of a packet that is within the caps, made before the packet is consumed.
  unfoldable pub stage_copy :
      ProbeState F
      → F.Packet
      → VideoDecoder F
      → VideoDecoder F × Result (Failure F) (Option (F.Packet × ℕ))
  unfolding pkt_size
  stage_copy p packet s =
      let new_bytes = saturating_add u64_max p.buffered_bytes (pkt_size packet) in
      elim (ltb max_probe_packets (length p.buffered_packets + 1)
        || ltb max_probe_packet_bytes new_bytes) [
          | true ↦ give_up p s
          | false ↦
              let (w, copy) = F.try_clone_packet packet s.world in
              let s1 : VideoDecoder F = record s { world = w } in
              elim copy [ err e ↦ give_up p s1 | ok cloned ↦ (s1, ok (some (cloned, new_bytes))) ]
        ]

  -- The pre-flight of a packet: the copy staged for the probe, and its new bytes.
  unfoldable pub preflight :
      F.Packet → VideoDecoder F → VideoDecoder F × Result (Failure F) (Option (F.Packet × ℕ))
  unfolding packet_side_data_count stage_copy
  preflight packet s = elim s.probe [
    | none ↦ (s, ok none)
    | some p ↦ elim (ltb max_probe_packet_side_data_entries (packet_side_data_count F packet)) [
      | true ↦ give_up p s
      | false ↦ stage_copy p packet s
    ]
  ]

  -- An accepted packet's copy enters the history.
  unfoldable pub record_sent : Option (F.Packet × ℕ) → VideoDecoder F → VideoDecoder F
  record_sent none s = s
  record_sent (some (cloned, new_bytes)) s = elim s.probe [
    | none ↦ s
    | some p ↦ record s {
      probe = some (record p {
        buffered_packets = p.buffered_packets ++ (cloned ∷ []);
        buffered_bytes = new_bytes;
      });
    }
  ]

  -- What a failed submission means: an answer, or where its verdict goes.
  unfoldable pub failed_send :
      AvError → VideoDecoder F → VideoDecoder F × Result (HwRoute (Failure F)) Sent
  unfolding is_transient hw_send route hw_failure
  failed_send e s = elim (is_transient F e) [
    | true ↦
        let (s1, status) = hw_send F e s in
        elim status [
          | ok answer ↦ (s1, ok answer)
          | err reason ↦ (s1, err (route F s1 reason reported))
        ]
    | false ↦ let (s1, to) = hw_failure F e candidate_failure s in (s1, err to)
  ]

  -- Where a verdict goes: to the caller, or to the probe, after whose advance the call goes on.
  unfoldable pub follow :
      {A : Type 0}
      → ℕ
      → HwRoute (Failure F)
      → VideoDecoder F
      → (VideoDecoder F → Answer A)
      → Answer A
  unfolding advance_probe
  follow rounds (report e) s retry = some (s, err e)
  follow rounds (advance e) s retry = advance_probe F rounds e s >>= λ (s1, fatal). elim fatal [
    | some fault ↦ some (s1, err fault)
    | none ↦ retry s1
  ]

  -- The loop of a call: a round of it, and after an advance of the probe what may be answered at
  -- once, or the next round.
  unfoldable pub call_loop :
      {A : Type 0}
      → (once : VideoDecoder F → VideoDecoder F × Result (HwRoute (Failure F)) A)
      → (resume : VideoDecoder F → VideoDecoder F × Option A) → (fuel rounds : ℕ) → VideoDecoder F
      → Answer A
  unfolding follow
  call_loop once resume zero rounds s = none
  call_loop once resume (suc fuel) rounds s =
      let (s1, status) = once s in
      elim status [
        | ok a ↦ some (s1, ok a)
        | err to ↦ follow rounds to s1 λ s2.
            let (s3, answered) = resume s2 in
            elim answered [ some a ↦ some (s3, ok a) | none ↦ call_loop once resume fuel rounds s3 ]
      ]

  -- The rounds of a loop: one for each backend that is left, and one more.
  abbrev pub loop_rounds : VideoDecoder F → ℕ
  loop_rounds s = elim s.probe [ none ↦ 1 | some p ↦ suc (length p.remaining_backends) ]

  -- A submission loop has nothing to answer after an advance but the next round.
  abbrev pub no_answer : {A : Type 0} → VideoDecoder F → VideoDecoder F × Option A
  no_answer s = (s, none)

  -- The submission of a packet whose copy is staged.
  unfoldable pub submit :
      F.Packet
      → Option (F.Packet × ℕ)
      → VideoDecoder F
      → VideoDecoder F × Result (HwRoute (Failure F)) Sent
  unfolding record_sent failed_send
  submit packet staged s =
      let (c, answer) = F.send_packet packet s.inner in
      let s1 = with_inner F s c in
      elim answer [ none ↦ (record_sent staged s1, ok accepted) | some e ↦ failed_send e s1 ]

  -- One round of `send_av_packet`.
  unfoldable pub send_once :
      F.Packet → VideoDecoder F → VideoDecoder F × Result (HwRoute (Failure F)) Sent
  unfolding preflight submit
  send_once packet s =
      let (s1, staged) = preflight packet s in
      elim staged [ err e ↦ (s1, err (report e)) | ok copy ↦ submit packet copy s1 ]

  unfoldable pub send_av_packet : ℕ → F.Packet → VideoDecoder F → Answer Sent
  unfolding send_once call_loop
  send_av_packet rounds packet s = call_loop (send_once packet) no_answer (loop_rounds s) rounds s

  -- One round of `send_eof`.
  unfoldable pub eof_once : VideoDecoder F → VideoDecoder F × Result (HwRoute (Failure F)) Sent
  unfolding failed_send
  eof_once s =
      let (c, answer) = F.send_eof s.inner in
      let s1 = with_inner F s c in
      elim answer [
        | none ↦ (record s1 { eof_sent = true }, ok accepted)
        | some e ↦ failed_send e s1
      ]

  unfoldable pub send_eof : ℕ → VideoDecoder F → Answer Sent
  unfolding eof_once call_loop
  send_eof rounds s = call_loop eof_once no_answer (loop_rounds s) rounds s

  -- `transfer_hw_frame`, into the caller's frame.
  unfoldable pub transfer_hw_frame : F.Surface → F.World → F.World × Result AvError F.CpuFrame
  transfer_hw_frame src w =
      let (w1, downloaded) = F.transfer_data src w in
      elim downloaded [
        | err e ↦ (w1, err e)
        | ok cpu ↦ elim (F.is_supported_cpu_pix_fmt cpu) [
          | false ↦ (w1, err (other F.einval))
          | true ↦ F.copy_frame_props cpu src w1
        ]
      ]

  -- `try_pop_pending`: a delivered frame ends the probe.
  unfoldable pub try_pop_pending : VideoDecoder F → VideoDecoder F × Option F.CpuFrame
  try_pop_pending s = elim s.pending_frames [
    | [] ↦ (s, none)
    | (frame ∷ frames) ↦ (record s { pending_frames = frames; probe = none }, some frame)
  ]

  -- The scaled-output stage's picture, downloaded, if it has one.
  unfoldable pub scaled_transfer : F.Surface → VideoDecoder F → VideoDecoder F × Option F.CpuFrame
  unfolding transfer_hw_frame
  scaled_transfer surface s =
      let (out, fitted) = F.stage surface s.scaled_output in
      let s1 : VideoDecoder F = record s { scaled_output = out } in
      elim fitted [
        | none ↦ (s1, none)
        | some fit ↦
            let (w, moved) = transfer_hw_frame fit s1.world in
            elim moved [
              | ok cpu ↦ (record s1 { world = w }, some cpu)
              | err e ↦ (record s1 { world = w; scaled_output = F.latch_failure out }, none)
            ]
      ]

  -- What becomes of a decoded surface: a frame, a refusal that is final, or a verdict.
  unfoldable pub deliver_surface :
      F.Surface
      → VideoDecoder F
      → VideoDecoder F × Result (HwRoute (Failure F)) (Received F.CpuFrame)
  unfolding judge_hw_transfer scaled_transfer transfer_hw_frame hw_failure
  deliver_surface surface s = elim (judge_hw_transfer F surface s.caps.max_frame_bytes) [
    | some (bytes, limit) ↦ (s, err (report (hw_transfer_too_large bytes limit)))
    | none ↦
        let (s1, scaled) = scaled_transfer surface s in
        elim scaled [
          | some cpu ↦ (record s1 { probe = none }, ok (produced cpu))
          | none ↦
              let (w, moved) = transfer_hw_frame surface s1.world in
              let s2 : VideoDecoder F = record s1 { world = w } in
              elim moved [
                | ok cpu ↦ (record s2 { probe = none }, ok (produced cpu))
                | err e ↦ let (s3, to) = hw_failure F e candidate_failure s2 in (s3, err to)
              ]
        ]
  ]

  -- One round of `receive_frame`, up to where its verdict goes.
  unfoldable pub receive_once :
      VideoDecoder F → VideoDecoder F × Result (HwRoute (Failure F)) (Received F.CpuFrame)
  unfolding hw_receive route deliver_surface
  receive_once s =
      let (c, answer) = F.receive_frame s.inner in
      let s1 = with_inner F s c in
      elim answer [
        | ok surface ↦ deliver_surface surface s1
        | err e ↦
            let (s2, status) = hw_receive F e s1 in
            elim status [
              | ok received ↦ (s2, ok received)
              | err reason ↦ (s2, err (route F s2 reason candidate_failure))
            ]
      ]

  -- After an advance, a frame of the replay is delivered first.
  unfoldable pub pop_first : VideoDecoder F → VideoDecoder F × Option (Received F.CpuFrame)
  unfolding try_pop_pending
  pop_first s = let (s1, popped) = try_pop_pending s in (s1, Option.map produced popped)

  unfoldable pub receive_frame : ℕ → VideoDecoder F → Answer (Received F.CpuFrame)
  unfolding pop_first receive_once call_loop
  receive_frame rounds s =
      let (s1, answered) = pop_first s in
      elim answered [
        | some received ↦ some (s1, ok received)
        | none ↦ call_loop receive_once pop_first (loop_rounds s1) rounds s1
      ]

  abbrev pub cleared : ProbeState F → ProbeState F
  cleared p = record p { buffered_packets = []; buffered_bytes = 0 }

  unfoldable pub flush : VideoDecoder F → VideoDecoder F
  flush s = record s {
    inner = F.flush s.inner;
    pending_frames = [];
    eof_sent = false;
    probe = Option.map cleared s.probe;
  }

  -- The decoder over the first backend that could be built.
  unfoldable pub finish_open :
      (max_frame_bytes : ℕ)
      → F.ScaledOutput
      → F.Backend
      → List F.Backend
      → Attempts F.Backend F.Packet F.Detail
      → F.Context
      → F.World
      → F.World × Result (Failure F) (VideoDecoder F)
  finish_open max_frame_bytes out b bs log context w =
      let (w1, kept) = F.try_clone_parameters w in
      elim kept [
        | err e ↦ (w1, err e)
        | ok parameters ↦
            let (w2, allocated) = F.alloc_av_frame w1 in
            let probe : ProbeState F = record {
              remaining_backends = bs;
              buffered_packets = [];
              buffered_bytes = 0;
              attempts = log;
            } in
            let opened : VideoDecoder F = record {
              inner = context;
              backend = b;
              probe = some probe;
              pending_frames = [];
              caps = record {
                max_bytes = default_max_probe_pending_bytes;
                max_frame_bytes = max_frame_bytes;
              };
              eof_sent = false;
              scaled_output = out;
              world = w2;
            } in
            elim allocated [ some e ↦ (w2, err (Error.ffmpeg e)) | none ↦ (w2, ok opened) ]
      ]

  -- The loop of `open_probing` over the order of backends, once a codec is found, with the log so far.
  unfoldable pub open_probing :
      (max_frame_bytes : ℕ)
      → F.ScaledOutput
      → List F.Backend
      → Attempts F.Backend F.Packet F.Detail
      → F.World
      → F.World × Result (Failure F) (VideoDecoder F)
  unfolding finish_open
  open_probing max_frame_bytes out [] log w = (w, err (all_backends_failed log []))
  open_probing max_frame_bytes out (b ∷ bs) log w =
      let (w1, cloned) = F.try_clone_parameters w in
      elim cloned [
        | err e ↦ open_probing max_frame_bytes out bs (attempt log b e) w1
        | ok parameters ↦
            let (w2, built) = F.build_state b w1 in
            elim built [
              | err e ↦ open_probing max_frame_bytes out bs (attempt log b e) w2
              | ok context ↦ finish_open max_frame_bytes out b bs log context w2
            ]
      ]
