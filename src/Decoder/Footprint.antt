-- ===== src/Decoder/Footprint.antt =====
-- What frames and packets cost in bytes: the prices of mediaio-ffmpeg/src/footprint.rs, and the
-- sizes that mediadecode-ffmpeg/src/decoder/mod.rs reads. A `usize` has 64 bits, a `c_int` 32.
use mediadecode.Base.{
  ℤ, pos, pos_part, ltb_ℤ, ℕ, zero, suc, ◌+◌, ◌-◌, ◌*◌, ◌/◌, ◌^◌, min, max, Bool, true, false,
  Option, none, some, List, [], ◌∷◌, ltb, leb, ◌&&◌, if◌then◌else◌, u64_max, saturating_add, ok,
  err, ◌>>=◌,
}
use mediadecode.Decoder.Libav.{Libav}

abbrev pub align : ℕ
align = 64

abbrev pub plane_slack : ℕ
plane_slack = 512

abbrev pub probe_pixels : ℕ
probe_pixels = 256 * 256

abbrev pub c_int_max : ℕ
c_int_max = 2 ^ 31 - 1

abbrev pub saturating_mul : ℕ → ℕ → ℕ
saturating_mul a b = min (a * b) u64_max

abbrev pub checked_usize : ℕ → Option ℕ
checked_usize n = if leb n u64_max then some n else none

abbrev pub is_positive : ℤ → Bool
is_positive n = ltb_ℤ (pos 0) n

-- `value` up to a multiple of `to`; `div_ceil` first.
unfoldable pub align_up : (value to : ℕ) → ℕ
align_up value to = saturating_mul ((value + (to - 1)) / to) to

module _ (F : Libav) where
  unfoldable pub video_frame_bytes : (format_raw width height : ℤ) → Option ℕ
  unfolding align_up
  video_frame_bytes format_raw width height =
      if is_positive width && is_positive height
      then (let aligned_w = min (align_up (pos_part width) align) c_int_max in
          let aligned_h = min (align_up (pos_part height) align) c_int_max in
          let size = F.av_image_get_buffer_size format_raw aligned_w aligned_h align in
          if is_positive size
          then some (saturating_add u64_max (pos_part size) (saturating_mul plane_slack 4))
          else none)
      else none

  unfoldable pub video_frame_bytes_upper_bound : (width height : ℤ) → Option ℕ
  unfolding align_up
  video_frame_bytes_upper_bound width height =
      if is_positive width && is_positive height
      then (do
        area ← checked_usize (align_up (pos_part width) align * align_up (pos_part height) align)
        cost ← checked_usize (area * F.worst_bytes_per_probe)
        checked_usize (cost / probe_pixels + saturating_mul plane_slack 4))
      else none

  -- `hw_frames_ctx_dimensions` and its raw form.
  unfoldable pub hw_frames_ctx_dimensions : F.Surface → Option (ℤ × ℤ)
  hw_frames_ctx_dimensions surface = elim (F.hw_frames_ctx surface) [
    | none ↦ none
    | some ctx ↦ elim ctx [
      | none ↦ none
      | some (w, h) ↦ if is_positive w && is_positive h then some (w, h) else none
    ]
  ]

  -- The dearest of the formats, or none when one cannot be priced.
  unfoldable pub dearest : (width height : ℤ) → ℕ → List ℤ → Option ℕ
  unfolding video_frame_bytes video_frame_bytes_upper_bound
  dearest width height worst [] = some worst
  dearest width height worst (format ∷ formats) = elim (video_frame_bytes format width height) [
    | some size ↦ dearest width height (max worst size) formats
    | none ↦ elim (video_frame_bytes_upper_bound width height) [
      | some size ↦ dearest width height (max worst size) formats
      | none ↦ none
    ]
  ]

  -- What the judge prices a download at: the dearest format, or the upper bound where no format was
  -- judged. None is a price that cannot be told.
  unfoldable pub transfer_price : F.Surface → (width height : ℤ) → Option ℕ
  unfolding dearest video_frame_bytes_upper_bound
  transfer_price surface width height = elim (F.download_formats surface) [
    | ok formats ↦ elim formats [
      | [] ↦ video_frame_bytes_upper_bound width height
      | (format ∷ rest) ↦ dearest width height 0 (format ∷ rest)
    ]
    | err code ↦ video_frame_bytes_upper_bound width height
  ]

  -- `judge_hw_transfer`: the bytes and the limit of a refusal, or none. A surface with no frames
  -- context is a frame of the processor, with no download to price.
  unfoldable pub judge_hw_transfer : F.Surface → (max_frame_bytes : ℕ) → Option (ℕ × ℕ)
  unfolding hw_frames_ctx_dimensions transfer_price
  judge_hw_transfer surface max_frame_bytes = elim (F.hw_frames_ctx surface) [
    | none ↦ none
    | some ctx ↦ elim (hw_frames_ctx_dimensions surface) [
      | none ↦ some (u64_max, max_frame_bytes)
      | some (w, h) ↦ elim (transfer_price surface w h) [
        | none ↦ some (u64_max, max_frame_bytes)
        | some worst ↦ if ltb max_frame_bytes worst then some (worst, max_frame_bytes) else none
      ]
    ]
  ]

  abbrev pub worst_case_bytes_per_pixel : ℕ
  worst_case_bytes_per_pixel = 8

  unfoldable pub estimate_transfer_bytes : F.Surface → Option ℕ
  unfolding hw_frames_ctx_dimensions
  estimate_transfer_bytes surface = hw_frames_ctx_dimensions surface >>= λ (w, h).
      some (saturating_mul (saturating_mul (pos_part w) (pos_part h)) worst_case_bytes_per_pixel)

  -- The sizes of the buffers there are.
  unfoldable pub buffer_bytes : ℕ → List (Option ℕ) → ℕ
  buffer_bytes total [] = total
  buffer_bytes total (none ∷ bufs) = buffer_bytes total bufs
  buffer_bytes total (some size ∷ bufs) = buffer_bytes (saturating_add u64_max total size) bufs

  unfoldable pub cpu_frame_bytes : F.CpuFrame → Option ℕ
  unfolding buffer_bytes
  cpu_frame_bytes frame =
      if ltb_ℤ (F.linesize frame) (pos 0) then none else some (buffer_bytes 0 (F.buf frame))

  abbrev pub hw_copy_side_data_max_entries : ℕ
  hw_copy_side_data_max_entries = 64

  abbrev pub hw_copy_side_data_max_total_bytes : ℕ
  hw_copy_side_data_max_total_bytes = 256 * 1024

  -- The walk of `sum_side_data_bytes` from the entry `i` on, which ends at the cap.
  unfoldable pub walk_side_data : (ℕ → Option ℕ) → (left i total : ℕ) → ℕ
  walk_side_data entry zero i total = total
  walk_side_data entry (suc left) i total = elim (entry i) [
    | none ↦ walk_side_data entry left (suc i) total
    | some size ↦
        let total' = saturating_add u64_max total size in
        elim (leb hw_copy_side_data_max_total_bytes total') [
          | true ↦ hw_copy_side_data_max_total_bytes
          | false ↦ walk_side_data entry left (suc i) total'
        ]
  ]

  unfoldable pub sum_side_data_bytes : F.Surface → ℕ
  unfolding walk_side_data
  sum_side_data_bytes surface = elim (F.frame_side_data surface) [
    | none ↦ 0
    | some entry ↦
        if is_positive (F.nb_side_data surface)
        then walk_side_data entry
            (min (pos_part (F.nb_side_data surface)) hw_copy_side_data_max_entries) 0 0
        else 0
  ]

  abbrev pub side_data_entry_overhead : ℕ
  side_data_entry_overhead = 80

  -- The sizes of the entries from `i` on.
  unfoldable pub entry_bytes : (ℕ → ℕ) → (left i total : ℕ) → ℕ
  entry_bytes size zero i total = total
  entry_bytes size (suc left) i total =
      entry_bytes size left (suc i) (saturating_add u64_max total (size i))

  unfoldable pub packet_side_data_bytes : F.Packet → (max_entries : ℕ) → ℕ
  unfolding entry_bytes
  packet_side_data_bytes packet max_entries = elim (F.side_data packet) [
    | none ↦ 0
    | some size ↦
        if is_positive (F.side_data_elems packet) && ltb 0 max_entries
        then (let count = min (pos_part (F.side_data_elems packet)) max_entries in
            entry_bytes size count 0 (saturating_mul count side_data_entry_overhead))
        else 0
  ]

  unfoldable pub packet_side_data_count : F.Packet → ℕ
  packet_side_data_count packet =
      if is_positive (F.side_data_elems packet) then pos_part (F.side_data_elems packet) else 0
