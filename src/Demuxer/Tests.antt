-- ===== src/Demuxer/Tests.antt =====
-- A container of a video track, a subtitle track and an attachment. A packet is its stream and its
-- length; the carriers run out of memory as often as the world says.
use mediadecode.Base.{
  pos, ◌+ℤ◌, i64_checked_add, ℕ, zero, suc, ◌≡◌, refl, sym, ap, Bool, true, false, Option, none,
  some, List, [], ◌∷◌, ◌==◌, if◌then◌else◌, length, Result, ok, err,
}
use mediadecode.Measured.{fresh_slot, end_of_file, observe, observe_slot}
use mediadecode.Demuxer.Session.{
  video, subtitle, attachment, PacketBufferError, capture_failed, got, read_eof, Format, Input,
  video_packet, subtitle_packet, attachment_packet, packet_buffer, CarrierDemuxer, seek,
  next_packet, reader_panic,
}
use mediadecode.Demuxer.Turns.{Carriers, false-ne-true}
use mediadecode.Demuxer.Run.{pulls, Lossless, pulls-Lossless}
use mediadecode.Demuxer.Panic.{pulls-Terminal}
use mediadecode.Demuxer.Seek.{Request, next, seek_to, after, IsPartial, seek-Partial}

abbrev has_length : ℕ → Bool
has_length length = if length == 0 then false else true

abbrev carried_as : ℕ → Option ℕ
carried_as length = if has_length length then some length else none

abbrev carry : ℕ × ℕ → ℕ → ℕ × Result PacketBufferError (Option ℕ)
carry (stream, length) zero = (zero, ok (carried_as length))
carry (stream, length) (suc shortages) = (shortages, err capture_failed)

abbrev format : Format
format = record {
  Packet = ℕ × ℕ;
  Carrier = ℕ;
  Attachment = ℕ;
  Message = ℕ;
  Fault = ℕ;
  World = ℕ;
  stream = λ p. p.0;
  pts = λ p. some (pos 0);
  duration = λ p. pos 1;
  is_streams_attached_pic = λ track p. false;
  packet_from_borrowed = λ kind p provenance w. carry p w;
  seek = λ ts input. (input, none, none);
  clear_eof = λ input. input;
}

abbrev success : Option ℕ → Result PacketBufferError (Option ℕ) → Option ℕ
success before (ok built) = built
success before (err e) = before

abbrev succeeds : Result PacketBufferError (Option ℕ) → Bool
succeeds (ok built) = true
succeeds (err e) = false

carry-content :
    (p : ℕ × ℕ) (w : ℕ) (built : Option ℕ) → (carry p w).1 ≡ ok built → built ≡ carried_as p.1
carry-content (track, length) zero built h = sym (ap (success none) h)
carry-content (track, length) (suc w) built h = absurd (false-ne-true (ap succeeds h))

abbrev carriers : Carriers format
carriers = record {
  has_payload = λ p. has_length p.1;
  content = λ kind p. p.1;
  carried = λ kind p provenance w built h. carry-content p w built h;
}

abbrev reads : Input format
reads =
    record { panic = none; outcome = got (0, 7) }
    ∷ record { panic = none; outcome = got (1, 0) }
    ∷ record { panic = none; outcome = got (2, 5) }
    ∷ record { panic = none; outcome = got (1, 9) }
    ∷ record { panic = none; outcome = read_eof }
    ∷ []

abbrev session : CarrierDemuxer format
session = record {
  input = reads;
  tracks = video ∷ subtitle ∷ attachment ∷ [];
  measured = record {
    ends = fresh_slot ∷ fresh_slot ∷ fresh_slot ∷ [];
    unbroken = true;
    walk_complete = false;
  };
  pending = (2, 3) ∷ [];
  eof = false;
  unplaceable_reported = false;
  latched = none;
  unconverted = none;
  world = 1;
}

-- The first packet is parked and delivered by the next pull.
session_answers :
    (pulls format 9 session).1
    ≡ ok (some (attachment_packet 2 3))
      ∷ err (packet_buffer 0 capture_failed)
      ∷ ok (some (video_packet 0 7))
      ∷ ok (some (subtitle_packet 1 9))
      ∷ ok none
      ∷ []
unfolding pulls
session_answers = refl

session_complete : (pulls format 9 session).0.measured.walk_complete ≡ true
unfolding pulls end_of_file observe observe_slot i64_checked_add ◌+ℤ◌
session_complete = refl

pulls-Lossless_example : Lossless format carriers session.tracks session (pulls format 9 session)
pulls-Lossless_example = pulls-Lossless format carriers session.tracks 9 session (refl, refl)

-- Five pulls come to the end of the file, and the others ask past it.
abbrev past_end : List (Request format)
past_end = next ∷ next ∷ next ∷ next ∷ next ∷ next ∷ seek_to (pos 0) ∷ next ∷ []

seek-Partial_example : IsPartial format (after format past_end (seek format (pos 40) session).0)
seek-Partial_example = seek-Partial format carriers (pos 40) past_end session refl

-- The reader panics in the first read, behind an answer that looks like the end of the file.
abbrev panicking : CarrierDemuxer format
panicking = record session {
  input = record { panic = some 4; outcome = read_eof } ∷ [];
  pending = [];
}

panicking_read : (next_packet format panicking).1 ≡ err (reader_panic 4)
unfolding next_packet
panicking_read = refl

pulls-Terminal_example : pulls format 3 (next_packet format panicking).0 ≡ (
  (next_packet format panicking).0,
  err (reader_panic 4) ∷ err (reader_panic 4) ∷ err (reader_panic 4) ∷ [],
)
pulls-Terminal_example = pulls-Terminal format 3 panicking 4 panicking_read
