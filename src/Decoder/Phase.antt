-- ===== src/Decoder/Phase.antt =====
-- What an answer of libavcodec means, and where it goes (mediadecode-ffmpeg/src/decoder/mod.rs;
-- `Received` and `Sent` are of mediaspine/src/rhythm.rs).
use mediadecode.Base.{Bool, true, false, ◌==◌, ◌&&◌, if◌then◌else◌, Result, ok, err}
use mediadecode.Decoder.Libav.{
  AvError, av_eof, other, fault, Libav, Error, ffmpeg, packet_build, parameters_too_large,
  malformed_channel_layout, channel_map_missing, no_codec, hw_transfer_too_large,
  frame_budget_exceeded, hw_surface_too_large, backend_unsupported_by_codec, hw_device_init_failed,
  all_backends_failed, fallback_failed,
}

pub data SessionPhase : Type 0 where
  streaming draining auditioning auditioning_past_end : SessionPhase

unfoldable pub accepts_input : SessionPhase → Bool
accepts_input streaming = true
accepts_input auditioning = true
accepts_input draining = false
accepts_input auditioning_past_end = false

unfoldable pub is_committed : SessionPhase → Bool
is_committed streaming = true
is_committed draining = true
is_committed auditioning = false
is_committed auditioning_past_end = false

-- `phase`, of whether a backend is on trial and whether an end has been recorded.
unfoldable pub phase_of : (on_trial eof_sent : Bool) → SessionPhase
phase_of false false = streaming
phase_of false true = draining
phase_of true false = auditioning
phase_of true true = auditioning_past_end

-- A produced frame is the one written into the caller's.
pub data Received (A : Type 0) : Type 0 where
  produced : A → Received A
  needs_input : Received A
  ended : Received A

pub data Sent : Type 0 where
  accepted must_drain : Sent

pub data VerdictRouting : Type 0 where
  candidate_failed direct unnamed : VerdictRouting

pub data BareVerdict : Type 0 where
  reported candidate_failure : BareVerdict

pub data HwRoute (E : Type 0) : Type 0 where
  report : E → HwRoute E
  advance : E → HwRoute E

unfoldable pub verdict_routing : {B P D : Type 0} → Error B P D → VerdictRouting
verdict_routing (hw_surface_too_large pixels limit) = candidate_failed
verdict_routing (frame_budget_exceeded bytes limit audio) = direct
verdict_routing (ffmpeg e) = unnamed
verdict_routing (packet_build d) = direct
verdict_routing (parameters_too_large d) = direct
verdict_routing (malformed_channel_layout d) = direct
verdict_routing (channel_map_missing d) = direct
verdict_routing (no_codec id) = direct
verdict_routing (hw_transfer_too_large bytes limit) = direct
verdict_routing (backend_unsupported_by_codec b) = direct
verdict_routing (hw_device_init_failed d) = direct
verdict_routing (all_backends_failed log packets) = direct
verdict_routing (fallback_failed d) = direct

abbrev pub fails_candidate : VerdictRouting → BareVerdict → Bool
fails_candidate candidate_failed bare = true
fails_candidate direct bare = false
fails_candidate unnamed reported = false
fails_candidate unnamed candidate_failure = true

-- `hw_route`: only a running probe acts on what a verdict says.
unfoldable pub hw_route :
    {B P D : Type 0} → (on_trial : Bool) → Error B P D → BareVerdict → HwRoute (Error B P D)
unfolding verdict_routing
hw_route on_trial reason bare =
    if fails_candidate (verdict_routing reason) bare && on_trial
    then advance reason
    else report reason

module _ (F : Libav) where
  abbrev pub Failure : Type 0
  Failure = Error F.Backend F.Packet F.Detail

  unfoldable pub is_eagain : AvError → Bool
  is_eagain (other errno) = errno == F.eagain
  is_eagain av_eof = false
  is_eagain (fault code) = false

  unfoldable pub is_transient : AvError → Bool
  unfolding is_eagain
  is_transient av_eof = true
  is_transient (other errno) = is_eagain (other errno)
  is_transient (fault code) = is_eagain (fault code)

  -- `receive_status`, of an answer that is no frame.
  unfoldable pub receive_status :
      {A : Type 0} → Failure → SessionPhase → Result Failure (Received A)
  unfolding is_eagain accepts_input is_committed
  receive_status (ffmpeg av_eof) phase =
      if is_committed phase then ok ended else err (ffmpeg av_eof)
  receive_status (ffmpeg (other errno)) phase =
      if is_eagain (other errno)
      then if accepts_input phase
        then ok needs_input
        else if is_committed phase
        then ok ended
        else err (ffmpeg (other errno))
      else err (ffmpeg (other errno))
  receive_status e phase = err e

  unfoldable pub send_status : Failure → SessionPhase → Result Failure Sent
  unfolding is_eagain accepts_input
  send_status (ffmpeg (other errno)) phase =
      if is_eagain (other errno) && accepts_input phase
      then ok must_drain
      else err (ffmpeg (other errno))
  send_status e phase = err e
