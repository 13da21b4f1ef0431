-- ===== src/Lib.antt =====
-- Six parts of the mediadecode workspace, with what makes each of them correct.
--
-- * The measurement of a demux walk (mediaio-ffmpeg/src/measured.rs), which a demux session feeds with
--   every timed packet, the end of the file and every break, and which answers for each track the
--   `MeasuredEnd` of mediaspine/src/demuxer.rs. Measured models `Measured` and its methods `new`,
--   `observe`, `end_of_file`, `break_walk` and `get`; Measured/Walk tells what a figure is, and
--   Measured/Completion when a walk is complete.
--
-- * The demux session of mediadecode-ffmpeg/src/demuxer.rs, which feeds that measurement: a pull
--   answers the attachments queued at open, then retries a packet whose conversion ran out of memory,
--   and then reads on to the next packet with a payload on a timed track. Demuxer/Session models
--   `CarrierDemuxer` with `next_packet` and `seek` (`next_packet_impl`, `seek_impl`) and its reader's
--   latch; Demuxer/Turns is about one packet, with what is relied on from the conversions (`Carriers`),
--   Demuxer/Lossless about the loop over the reads, Demuxer/Run about runs of pulls, Demuxer/Seek about
--   seeks and Demuxer/Panic about a reader's panic.
--
-- * The guard of mediaio-ffmpeg/src/reader_guard.rs around a caller's reader, by which a demux session
--   is opened: it turns a panic into an error and keeps its message, and stops answering once a budget
--   of bytes is spent. Reader/Guard models `GuardedReader`, `PanicLatch` and `ReadMeter`,
--   Reader/Meter what a meter counts, and Reader/Budget what a guarded reader hands over.
--
-- * The state that the browser's callbacks share with the decoders of
--   mediadecode-webcodecs/src/state.rs, and what the video decoder of
--   mediadecode-webcodecs/src/video.rs does to it. A submission is recorded under an id; the output
--   callback takes the record, checks the budget, takes the next place in the output order and spawns a
--   copy; the copies end in any order, and a reorder buffer delivers them in the order of the outputs.
--   State/SortedVec models the sorted vectors behind both side maps by scans, and State/Search the
--   same at the index that a binary search answers; State/Inner models `Inner` and the
--   methods that change it; State/Shared models `SharedState`: `deliver_pending_push`, the close hook
--   and the wakers; State/Copy models the output callback (`budget`, `output_callback`), the end of
--   `handle_video_frame` (`finish_copy`) and `flush`. A run is a list of events: State/Trace for copies
--   that end in any order, State/Copies for outputs admitted and copies under way, State/InputBytes for
--   submissions. State/Rounds, State/CopyCases and State/Counters are lemmas by case; State/Order,
--   State/Epochs, State/Arrival, State/Good, State/CopyKeeps and State/EventsKeep keep the invariant
--   of a run, which State/Delivery reads. State/Admission and State/Closing are about one step.
--
-- * The hardware video decoder of mediadecode-ffmpeg/src/decoder/mod.rs, `VideoDecoder`, which opens
--   one backend after another until one delivers a frame. While a backend is on trial the packets it
--   accepted are kept; when it fails, they are replayed through the next one, the frames that come out
--   meanwhile are queued, and when none is left the packets go back to the caller. Decoder/Libav is
--   what it takes from FFmpeg, with the errors of mediadecode-ffmpeg/src/error.rs; Decoder/Phase what
--   an errno means (`receive_status`, `send_status`, `hw_route`); Decoder/Footprint the prices of
--   mediaio-ffmpeg/src/footprint.rs and the sizes read; Decoder/Replay the replay and
--   `drain_into_pending`; Decoder/Session the state, the funnels and `advance_probe`; Decoder/Calls the
--   public calls. Decoder/Promises lists what is relied on from libavcodec; Decoder/Feeding and
--   Decoder/Queue are about a replay, Decoder/Verdict, Decoder/Rescue, Decoder/Rounds,
--   Decoder/Preflight, Decoder/Sending and Decoder/Receiving about the parts of a call,
--   Decoder/History about the calls, Decoder/Open about `open_probing` and Decoder/Run about runs.
--
-- * The timeline document of the crate mediaio-timeline: Timeline/Data models the document
--   (mediaio-timeline/src/timeline.rs, clip.rs, transition.rs, metadata.rs and schema.rs beside it),
--   Timeline/Refusal what a timeline is refused for, Timeline/Checks and Timeline/Validate the judge of
--   mediaio-timeline/src/validate/mod.rs (`validate`, `judge_track`), check by check in the order in
--   which it pushes refusals, Timeline/Layout the layout of mediaio-timeline/src/layout/mod.rs, and
--   Timeline/Diff the diff of mediaio-timeline/src/diff/mod.rs.
--   Timeline/Placed, Timeline/Identity, Timeline/Accepted and Timeline/Valid read what an accepted
--   timeline is; Timeline/Contiguous is about its layout, Timeline/Clash, Timeline/Unchanged,
--   Timeline/Reference and Timeline/Matched about its diff. Timeline/Time is what the crate takes from
--   `mediatime` and `smol_bytes`: a record of operations, with the promises relied on in `Laws`.
--
-- Base holds the shared names: integers over the native numbers, their checked and wrapping sums, lists
-- and tests. The modules named Tests hold concrete data and the theorems at that data.
--
-- Machine integers keep their width: `u32` counters wrap or stop at 2^32, `u64` at 2^64, `i64` ids and
-- sums at 2^63, where the source does so. A run has no bound on its length, except that a copy's
-- sequence number is not the last `u32`, that a record's bytes are a `u32`, and that fewer than 2^62
-- submissions are made. The loop of `deliver_pending_push` takes an entry out of the buffer in each
-- round, so `drain` is given one round more than the buffer has entries, and its fuel does not run out.
--
-- The loops of the hardware decoder's calls have a round for each backend left and one more, which is
-- all that they use; a drain has one round more than the queue holds. A submission that a candidate puts
-- off is made again after a drain, so two rounds are enough, as libavcodec's contract says that a context
-- whose output has been read takes its input.
--
-- What libavformat answers to a demux session's reads is a finite list, after which the file is over, so
-- the loop of a pull recurs on it; a run is as many pulls as are asked for. A packet is a parameter of
-- which the stream, the time and the duration are read.
--
-- An allocator's answer, the allocation measured of a frame, the result of a copy, and whether the
-- browser's `reset` and `configure` succeed are arguments. What leaves the state, a reset of the
-- browser's decoder or a woken task, is a list of effects in order; that a frame of the browser is
-- closed is not modelled. A reference-counted handle is its state, passed along: the source borrows it
-- for one step at a time, and the steps are the events of a run. Errors are their messages.
--
-- Not modelled: the async side of the decoders (`send_packet`, `wait_for_frame`, the waker guards),
-- the audio decoder, the pixel copies, the choice of a codec (`find_decoder`) and the building of
-- codec contexts, the opening of a demux session with its track table, chapters and budgets, the
-- conversions and the other decoders over the FFmpeg libraries, the traits of the decoder, demuxer,
-- encoder and muxer faces, and of the timeline the wire format and the OpenTimelineIO export.
pub mod Base
pub mod Decoder
pub mod Demuxer
pub mod Reader
pub mod Measured
pub mod State
pub mod Timeline
