-- ===== src/Decoder/Replay.antt =====
-- The replay of a history through a candidate (mediadecode-ffmpeg/src/decoder/mod.rs): the loops of
-- `advance_probe_with` that send it, and `drain_into_pending`.
use mediadecode.Base.{
  ℕ, zero, suc, Bool, true, false, Option, none, some, List, [], ◌∷◌, ◌++◌, ltb, leb, ◌||◌,
  if◌then◌else◌, u64_max, saturating_add, length, ok, err, ◌>>=◌,
}
use mediadecode.Decoder.Libav.{AvError, other, Libav}
use mediadecode.Decoder.Phase.{is_eagain, is_transient}
use mediadecode.Decoder.Footprint.{
  judge_hw_transfer, estimate_transfer_bytes, cpu_frame_bytes, sum_side_data_bytes,
}

abbrev pub max_probe_pending_frames : ℕ
max_probe_pending_frames = 16

-- The candidate, and the frames drained from it: `local_pending` and its bytes.
pub record Candidate (F : Libav) : Type 0 where
  pub inner : F.Context
  pub pending : List F.CpuFrame
  pub pending_bytes : ℕ
  pub world : F.World

module _ (F : Libav) where
  -- The caps on the frames that a decoder keeps: `max_probe_pending_bytes`, `max_frame_bytes`.
  pub record Caps : Type 0 where
    pub max_bytes : ℕ
    pub max_frame_bytes : ℕ

module _ (F : Libav) (caps : Caps F) where
  -- A downloaded frame that fits is queued with its properties.
  unfoldable pub queue_sized :
      F.Surface → F.CpuFrame → (pixel_bytes : ℕ) → Candidate F → Candidate F × Option AvError
  unfolding sum_side_data_bytes
  queue_sized surface cpu pixel_bytes c =
      let new_total =
        saturating_add u64_max (saturating_add u64_max c.pending_bytes pixel_bytes)
          (sum_side_data_bytes F surface) in
      elim (ltb caps.max_bytes new_total) [
        | true ↦ (c, some (other F.enomem))
        | false ↦
            let (w, copied) = F.copy_frame_props cpu surface c.world in
            elim copied [
              | err e ↦ (record c { world = w }, some e)
              | ok cpu' ↦ (
                record c {
                  pending = c.pending ++ (cpu' ∷ []);
                  pending_bytes = new_total;
                  world = w;
                },
                none,
              )
            ]
      ]

  -- A downloaded frame that can be read and sized.
  unfoldable pub size_download : F.Surface → F.CpuFrame → Candidate F → Candidate F × Option AvError
  unfolding cpu_frame_bytes queue_sized
  size_download surface cpu c = elim (F.is_supported_cpu_pix_fmt cpu) [
    | false ↦ (c, some (other F.einval))
    | true ↦ elim (cpu_frame_bytes F cpu) [
      | none ↦ (c, some (other F.enomem))
      | some pixel_bytes ↦ queue_sized surface cpu pixel_bytes c
    ]
  ]

  -- A frame downloaded, sized and queued, or the error that fails the candidate.
  unfoldable pub queue_download : F.Surface → Candidate F → Candidate F × Option AvError
  unfolding size_download
  queue_download surface c =
      let (w1, allocated) = F.alloc_av_frame c.world in
      elim allocated [
        | some e ↦ (record c { world = w1 }, some e)
        | none ↦
            let (w2, downloaded) = F.transfer_data surface w1 in
            elim downloaded [
              | err e ↦ (record c { world = w2 }, some e)
              | ok cpu ↦ size_download surface cpu (record c { world = w2 })
            ]
      ]

  -- What `drain_into_pending` does with a frame that it received.
  unfoldable pub admit_frame : F.Surface → Candidate F → Candidate F × Option AvError
  unfolding queue_download estimate_transfer_bytes judge_hw_transfer
  admit_frame surface c =
      elim (leb max_probe_pending_frames (length c.pending) || leb caps.max_bytes c.pending_bytes) [
        | true ↦ (c, some (other F.enomem))
        | false ↦ elim (estimate_transfer_bytes F surface) [
          | none ↦ (c, some (other F.enomem))
          | some estimated_bytes ↦
              elim (ltb caps.max_bytes (saturating_add u64_max c.pending_bytes estimated_bytes)) [
                | true ↦ (c, some (other F.enomem))
                | false ↦ elim (judge_hw_transfer F surface caps.max_frame_bytes) [
                  | some refusal ↦ (c, some (other F.einval))
                  | none ↦ queue_download surface c
                ]
              ]
        ]
      ]

  -- `drain_into_pending`: every round but the last queues a frame.
  unfoldable pub drain_into_pending : ℕ → Candidate F → Option (Candidate F × Option AvError)
  unfolding admit_frame is_transient
  drain_into_pending zero c = none
  drain_into_pending (suc fuel) c =
      let (inner', answer) = F.receive_frame c.inner in
      let c1 : Candidate F = record c { inner = inner' } in
      elim answer [
        | err e ↦ some (c1, (if is_transient F e then none else some e))
        | ok surface ↦
            let (c2, refused) = admit_frame surface c1 in
            elim refused [ some e ↦ some (c2, some e) | none ↦ drain_into_pending fuel c2 ]
      ]

  -- A submission to the candidate, a packet or the end, made again after a drain as long as the
  -- candidate answers that it must be drained first.
  unfoldable pub offer :
      (F.Context → F.Context × Option AvError)
      → ℕ
      → Candidate F
      → Option (Candidate F × Option AvError)
  unfolding drain_into_pending is_eagain
  offer send zero c = none
  offer send (suc rounds) c =
      let (inner', answer) = send c.inner in
      let c1 : Candidate F = record c { inner = inner' } in
      elim answer [
        | none ↦ some (c1, none)
        | some e ↦ elim (is_eagain F e) [
          | false ↦ some (c1, some e)
          | true ↦ drain_into_pending (suc max_probe_pending_frames) c1 >>= λ (c2, refused).
              elim refused [ some e' ↦ some (c2, some e') | none ↦ offer send rounds c2 ]
        ]
      ]

  -- The replay of the buffered packets, each by a copy.
  unfoldable pub replay_packets :
      ℕ → List F.Packet → Candidate F → Option (Candidate F × Option AvError)
  unfolding offer
  replay_packets rounds [] c = some (c, none)
  replay_packets rounds (kept ∷ packets) c =
      let (w, copy) = F.try_clone_packet kept c.world in
      let c1 : Candidate F = record c { world = w } in
      elim copy [
        | err e ↦ some (c1, some e)
        | ok pkt ↦ offer (F.send_packet pkt) rounds c1 >>= λ (c2, failed). elim failed [
          | some e ↦ some (c2, some e)
          | none ↦ replay_packets rounds packets c2
        ]
      ]

  -- The whole replay: the packets, then the end if the decoder was told of it.
  unfoldable pub replay :
      ℕ → (eof_sent : Bool) → List F.Packet → Candidate F → Option (Candidate F × Option AvError)
  unfolding replay_packets offer
  replay rounds eof_sent packets c = replay_packets rounds packets c >>= λ (c1, failed).
      elim failed [
        | some e ↦ some (c1, some e)
        | none ↦ elim eof_sent [ true ↦ offer F.send_eof rounds c1 | false ↦ some (c1, none) ]
      ]
