-- ===== src/Demuxer/Session.antt =====
-- `CarrierDemuxer`, its pulls and its seeks (mediadecode-ffmpeg/src/demuxer.rs), with the latch of
-- mediaio-ffmpeg/src/reader_guard.rs. What libavformat answers to one read after another is a list;
-- where it ends, so does the file.
use mediadecode.Base.{
  ℤ, ℕ, Bool, true, false, Option, none, some, List, [], ◌∷◌, get_elem?, if◌then◌else◌, Result, ok,
  err,
}
use mediadecode.Measured.{Measured, observe, end_of_file, break_walk}

pub data TrackKind : Type 0 where
  video audio subtitle data_track attachment unknown : TrackKind

abbrev pub is_timed : TrackKind → Bool
is_timed video = true
is_timed audio = true
is_timed subtitle = true
is_timed data_track = true
is_timed attachment = false
is_timed unknown = false

-- Why a packet's payload cannot be carried.
pub data PacketBufferError : Type 0 where
  packet_too_large bounds side_data_entries side_data_array side_data_payload : PacketBufferError
  side_data_bytes unrepresentable_flags trusted_payload capture_failed : PacketBufferError
  shared_payload side_data_alloc : PacketBufferError

-- Whether another attempt could survive: only an allocation's failure.
abbrev pub parks_in_demux : PacketBufferError → Bool
parks_in_demux capture_failed = true
parks_in_demux side_data_alloc = true
parks_in_demux packet_too_large = false
parks_in_demux bounds = false
parks_in_demux side_data_entries = false
parks_in_demux side_data_array = false
parks_in_demux side_data_payload = false
parks_in_demux side_data_bytes = false
parks_in_demux unrepresentable_flags = false
parks_in_demux trusted_payload = false
parks_in_demux shared_payload = false

pub data PayloadProvenance : Type 0 where
  attached_picture demux_delivered : PayloadProvenance

-- How one `av_read_frame` ended.
pub data Outcome (P E : Type 0) : Type 0 where
  got : P → Outcome P E
  read_eof invalid_data : Outcome P E
  read_fault : E → Outcome P E

-- One read, with the message of a panic of the caller's reader in it, if it panicked.
pub record Read (P E M : Type 0) : Type 0 where
  pub panic : Option M
  pub outcome : Outcome P E

-- What the session takes from libavformat and the carriers.
pub record Format : Type 1 where
  pub Packet : Type 0
  pub Carrier : Type 0
  pub Attachment : Type 0
  pub Message : Type 0
  pub Fault : Type 0
  pub World : Type 0
  pub stream : Packet → ℕ
  pub pts : Packet → Option ℤ
  pub duration : Packet → ℤ
  pub is_streams_attached_pic : ℕ → Packet → Bool
  -- The four `*_packet_from_borrowed`: none is a packet with no payload.
  pub packet_from_borrowed :
      TrackKind
      → Packet
      → PayloadProvenance
      → World
      → World × Result PacketBufferError (Option Carrier)
  -- `avformat_seek_file`: the reads from then on, a panic of the reader, and an error.
  pub seek :
      ℤ
      → List (Read Packet Fault Message)
      → List (Read Packet Fault Message) × Option Message × Option Fault
  -- The reads once the end's latch is cleared.
  pub clear_eof : List (Read Packet Fault Message) → List (Read Packet Fault Message)

module _ (F : Format) where
  abbrev pub Input : Type 0
  Input = List (Read F.Packet F.Fault F.Message)

  pub data DemuxedPacket : Type 0 where
    video_packet : ℕ → F.Carrier → DemuxedPacket
    audio_packet : ℕ → F.Carrier → DemuxedPacket
    subtitle_packet : ℕ → F.Carrier → DemuxedPacket
    data_packet : ℕ → F.Carrier → DemuxedPacket
    attachment_packet : ℕ → F.Attachment → DemuxedPacket

  -- The errors of a pull and a seek; the others of `DemuxError` are about opening.
  pub data DemuxError : Type 0 where
    ffmpeg : F.Fault → DemuxError
    packet_buffer : ℕ → PacketBufferError → DemuxError
    reader_panic : F.Message → DemuxError

  pub record CarrierDemuxer : Type 0 where
    pub input : Input
    pub tracks : List TrackKind
    pub measured : Measured
    pub pending : List (ℕ × F.Attachment)
    pub eof : Bool
    pub unplaceable_reported : Bool
    pub latched : Option F.Message
    pub unconverted : Option (F.Packet × PayloadProvenance)
    pub world : F.World

  abbrev pub Answer : Type 0
  Answer = Result DemuxError (Option DemuxedPacket)

  -- The answer at the end of the file.
  abbrev pub is_end : Answer → Bool
  is_end (ok none) = true
  is_end (ok (some d)) = false
  is_end (err e) = false

  -- `PanicLatch::latch`, of a read's panic if there was one: the first one wins.
  abbrev pub latch : Option F.Message → Option F.Message → Option F.Message
  latch (some first) panic = some first
  latch none panic = panic

  abbrev pub break_session : CarrierDemuxer → CarrierDemuxer
  break_session s = record s { measured = break_walk s.measured }

  -- A packet of each of the four timed kinds.
  abbrev pub deliver : TrackKind → ℕ → F.Carrier → Option DemuxedPacket
  deliver video track c = some (video_packet track c)
  deliver audio track c = some (audio_packet track c)
  deliver subtitle track c = some (subtitle_packet track c)
  deliver data_track track c = some (data_packet track c)
  deliver attachment track c = none
  deliver unknown track c = none

  -- What a round of the loop leads to: an answer, or the next read.
  pub data Turn : Type 0 where
    answer : Answer → Turn
    again : Turn

  -- A refused conversion: parked if another attempt could survive, and else dropped.
  unfoldable pub refuse :
      F.Packet → PayloadProvenance → PacketBufferError → CarrierDemuxer → CarrierDemuxer
  refuse packet provenance e s =
      if parks_in_demux e
      then record s { unconverted = some (packet, provenance) }
      else break_session s

  abbrev pub provenance_of : F.Packet → Option PayloadProvenance → PayloadProvenance
  provenance_of packet (some provenance) = provenance
  provenance_of packet none =
      if F.is_streams_attached_pic (F.stream packet) packet
      then attached_picture
      else demux_delivered

  -- The conversion of a packet on a timed track.
  unfoldable pub convert :
      TrackKind → F.Packet → PayloadProvenance → CarrierDemuxer → CarrierDemuxer × Turn
  unfolding refuse
  convert kind packet provenance s =
      let (w, converted) = F.packet_from_borrowed kind packet provenance s.world in
      let s1 : CarrierDemuxer = record s { world = w } in
      elim converted [
        | err e ↦ (refuse packet provenance e s1, answer (err (packet_buffer (F.stream packet) e)))
        | ok built ↦ elim built [
          | none ↦ (s1, again)
          | some carrier ↦ (s1, answer (ok (deliver kind (F.stream packet) carrier)))
        ]
      ]

  -- A packet on a track: its timing is observed, and it is converted, dropped or passed by.
  unfoldable pub on_track :
      TrackKind → F.Packet → Option PayloadProvenance → CarrierDemuxer → CarrierDemuxer × Turn
  unfolding convert
  on_track attachment packet parked s = (s, again)
  on_track unknown packet parked s = (break_session s, again)
  on_track kind packet parked s =
      let s1 : CarrierDemuxer = record s {
        measured = observe s.measured (F.stream packet) (F.pts packet) (F.duration packet);
      } in
      convert kind packet (provenance_of packet parked) s1

  -- A packet that is read or was parked: one on no track is passed by.
  unfoldable pub place :
      F.Packet → Option PayloadProvenance → CarrierDemuxer → CarrierDemuxer × Turn
  unfolding on_track
  place packet parked s = elim (get_elem? s.tracks (F.stream packet)) [
    | none ↦ (record (break_session s) { unplaceable_reported = true }, again)
    | some kind ↦ on_track kind packet parked s
  ]

  unfoldable pub at_end : CarrierDemuxer → CarrierDemuxer
  at_end s = record s { eof = true; measured = end_of_file s.measured }

  -- The loop over the reads that are left.
  unfoldable pub read_loop : Input → CarrierDemuxer → CarrierDemuxer × Answer
  unfolding place at_end
  read_loop [] s = (at_end (record s { input = [] }), ok none)
  read_loop (r ∷ rs) s =
      let latched' = latch s.latched r.panic in
      let s1 : CarrierDemuxer = record s { input = rs; latched = latched' } in
      elim latched' [
        | some message ↦ (s1, err (reader_panic message))
        | none ↦ elim r.outcome [
          | read_eof ↦ (at_end s1, ok none)
          | invalid_data ↦ read_loop rs (break_session s1)
          | read_fault e ↦ (s1, err (ffmpeg e))
          | got packet ↦
              let (s2, turn) = place packet none s1 in
              elim turn [ answer a ↦ (s2, a) | again ↦ read_loop rs s2 ]
        ]
      ]

  -- The loop of `next_packet`, which starts with a parked packet.
  unfoldable pub pull : CarrierDemuxer → CarrierDemuxer × Answer
  unfolding place read_loop
  pull s = elim s.unconverted [
    | none ↦ read_loop s.input s
    | some (packet, provenance) ↦
        let (s1, turn) = place packet (some provenance) (record s { unconverted = none }) in
        elim turn [ answer a ↦ (s1, a) | again ↦ read_loop s1.input s1 ]
  ]

  unfoldable pub next_packet : CarrierDemuxer → CarrierDemuxer × Answer
  unfolding pull
  next_packet s = elim s.latched [
    | some message ↦ (s, err (reader_panic message))
    | none ↦ elim s.pending [
      | ((track, body) ∷ rest) ↦
          (record s { pending = rest }, ok (some (attachment_packet track body)))
      | [] ↦ pull s
    ]
  ]

  -- `seek`, to a time that is rescaled to `av_time_base_q`.
  unfoldable pub seek : ℤ → CarrierDemuxer → CarrierDemuxer × Option DemuxError
  seek ts s =
      let s1 = break_session s in
      let cleared = if s1.eof then F.clear_eof s1.input else s1.input in
      let (input', panic, fault) = F.seek ts cleared in
      let s2 : CarrierDemuxer = record s1 {
        eof = false;
        input = input';
        latched = latch s1.latched panic;
      } in
      elim s2.latched [
        | some message ↦ (s2, some (reader_panic message))
        | none ↦ elim fault [
          | some e ↦ (s2, some (ffmpeg e))
          | none ↦ (record s2 { unconverted = none }, none)
        ]
      ]
