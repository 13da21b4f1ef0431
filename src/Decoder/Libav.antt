-- ===== src/Decoder/Libav.antt =====
-- What the decoder takes from FFmpeg, and the errors it gives (mediadecode-ffmpeg/src/error.rs). A
-- codec context, a surface of the hardware, a frame and a packet are opaque: the decoder reads the
-- fields below and makes the calls below. Allocators and drivers may answer the same call
-- differently each time, so those calls take the state of the world and give it back.
use mediadecode.Base.{ℤ, ℕ, Bool, Option, List, [], ◌∷◌, ◌++◌, Result}

-- `ffmpeg_next::Error`: the end of a stream, an `errno`, or one of libav's own codes.
pub data AvError : Type 0 where
  av_eof : AvError
  other : ℕ → AvError
  fault : ℤ → AvError

-- `Error` over the backends, the packets, and the details that the decoder only hands on; and the
-- log of `AllBackendsFailed`, to which an attempt is added at the end.
mutual
  pub data Error (B P D : Type 0) : Type 0 where
    ffmpeg : AvError → Error B P D
    packet_build : D → Error B P D
    parameters_too_large : D → Error B P D
    malformed_channel_layout : D → Error B P D
    channel_map_missing : D → Error B P D
    no_codec : ℕ → Error B P D
    hw_transfer_too_large : (bytes limit : ℕ) → Error B P D
    frame_budget_exceeded : (bytes limit : ℕ) (audio : Bool) → Error B P D
    hw_surface_too_large : (pixels limit : ℕ) → Error B P D
    backend_unsupported_by_codec : B → Error B P D
    hw_device_init_failed : D → Error B P D
    all_backends_failed : (attempts : Attempts B P D) (unconsumed_packets : List P) → Error B P D
    fallback_failed : D → Error B P D

  pub data Attempts (B P D : Type 0) : Type 0 where
    no_attempts : Attempts B P D
    attempt : Attempts B P D → B → Error B P D → Attempts B P D

-- The backends of the log, in its order.
abbrev pub tried : {B P D : Type 0} → Attempts B P D → List B
tried no_attempts = []
tried (attempt log backend e) = tried log ++ (backend ∷ [])

pub record Libav : Type 1 where
  pub Backend : Type 0
  pub Packet : Type 0
  pub Detail : Type 0
  -- An open `AVCodecContext` with its callback state, a decoded hardware frame, a downloaded frame.
  pub Context : Type 0
  pub Surface : Type 0
  pub CpuFrame : Type 0
  -- The GPU-side scaled-output stage.
  pub ScaledOutput : Type 0
  pub World : Type 0
  -- `libc`'s numbers.
  pub eagain : ℕ
  pub einval : ℕ
  pub enomem : ℕ
  -- `avcodec_send_packet` with a packet and without one, `avcodec_receive_frame`,
  -- `avcodec_flush_buffers`. No error is success.
  pub send_packet : Packet → Context → Context × Option AvError
  pub send_eof : Context → Context × Option AvError
  pub receive_frame : Context → Context × Result AvError Surface
  pub flush : Context → Context
  -- What the `get_format` callback and the allocator's judge left in the callback state: taken once.
  pub take_ceiling_declination : Context → Context × Option (ℕ × ℕ)
  pub take_frame_budget_declination : Context → Context × Option (ℕ × ℕ × Bool)
  -- `build_state`, with a copy of the parameters that `try_clone_parameters` made or could not make.
  pub try_clone_parameters : World → World × Result (Error Backend Packet Detail) (Unit {0})
  pub build_state : Backend → World → World × Result (Error Backend Packet Detail) Context
  -- `try_clone_packet`, `alloc_av_frame`, `av_hwframe_transfer_data`, `copy_frame_props_minimal`.
  pub try_clone_packet : Packet → World → World × Result AvError Packet
  pub alloc_av_frame : World → World × Option AvError
  pub transfer_data : Surface → World → World × Result AvError CpuFrame
  pub copy_frame_props : CpuFrame → Surface → World → World × Result AvError CpuFrame
  -- A packet's size, the number of its side-data entries, and their sizes, if there is an array.
  pub size : Packet → ℕ
  pub side_data_elems : Packet → ℤ
  pub side_data : Packet → Option (ℕ → ℕ)
  -- A surface's frames context, if it has one, and the width and height of its data, if any; its
  -- side data: the entries' number, and the size of each that is not null, if there is an array.
  pub hw_frames_ctx : Surface → Option (Option (ℤ × ℤ))
  pub nb_side_data : Surface → ℤ
  pub frame_side_data : Surface → Option (ℕ → Option ℕ)
  -- The formats a surface can be downloaded to.
  pub download_formats : Surface → Result ℤ (List ℤ)
  -- A frame's first line size, the sizes of its buffers, and whether its format can be read.
  pub linesize : CpuFrame → ℤ
  pub buf : CpuFrame → List (Option ℕ)
  pub is_supported_cpu_pix_fmt : CpuFrame → Bool
  -- `av_image_get_buffer_size` of a format, and the census of `worst_bytes_per_probe`.
  pub av_image_get_buffer_size : (format : ℤ) (width height align : ℕ) → ℤ
  pub worst_bytes_per_probe : ℕ
  -- The stage's picture of a surface, its failure, and its retirement.
  pub stage : Surface → ScaledOutput → ScaledOutput × Option Surface
  pub latch_failure : ScaledOutput → ScaledOutput
  pub retire : ScaledOutput → ScaledOutput
