-- ===== src/Measured/Tests.antt =====
-- Walks on concrete packets (mediaio-ffmpeg/src/measured.rs).
use mediadecode.Base.{
  ℤ, pos, ◌+ℤ◌, max_ℤ, i64_checked_add, ℕ, ◌≡◌, refl, ◌↔◌, true, false, none, some, List, [], ◌∷◌,
  ◌++◌, arith, all_of,
}
use mediadecode.Measured.{Measured, new, get, MeasuredEnd, fresh_slot, observe, observe_slot}
use mediadecode.Measured.Walk.{Packet, observe_all, EndsBy, Attains, all_on, is_timed, get-greatest}
use mediadecode.Measured.Completion.{
  Event, packet, eof, broken, run, skips_nothing, run-complete_iff,
}

-- A measurement of two tracks.
abbrev two_tracks : Measured
two_tracks = record { ends = fresh_slot ∷ fresh_slot ∷ []; unbroken = true; walk_complete = false }

-- The packets of an audio track and a video track, the video's out of order.
abbrev packets : List Packet
packets =
    record { track = 0; pts = some (pos 0); duration = pos 1024 }
    ∷ record { track = 1; pts = some (pos 40); duration = pos 20 }
    ∷ record { track = 1; pts = some (pos 0); duration = pos 20 }
    ∷ record { track = 0; pts = some (pos 1024); duration = pos 1024 }
    ∷ []

two_tracks-new : new true 2 ≡ some two_tracks
unfolding new
two_tracks-new = refl

-- An instant is its ticks and its ruler.
abbrev instant : ℤ → ℕ → ℤ × ℕ
instant ticks ruler = (ticks, ruler)

abbrev video_end : MeasuredEnd (ℤ × ℕ)
video_end = record { end = (pos 60, 25); complete = false; exact = true }

video_end_got : get instant (observe_all two_tracks packets) 1 25 ≡ some video_end
unfolding get observe observe_slot i64_checked_add max_ℤ ◌+ℤ◌
video_end_got = refl

get-greatest_example :
    (e : ℤ) × (video_end.end ≡ instant e 25)
    × EndsBy e 1 packets
    × Attains e 1 packets
    × (video_end.exact ≡ all_on is_timed 1 packets)
get-greatest_example =
    get-greatest instant 2 1 25 packets two_tracks video_end two_tracks-new (omega arith)
      video_end_got

-- A walk that reads two packets and the end of the file, then is asked for more.
abbrev events : List Event
events =
    packet (record { track = 0; pts = some (pos 0); duration = pos 1024 })
    ∷ packet (record { track = 1; pts = none; duration = pos 20 })
    ∷ eof
    ∷ broken
    ∷ []

run-complete_iff_example : ((run two_tracks events).walk_complete ≡ true) ↔ (
    (pre : List Event) × (post : List Event) × (events ≡ pre ++ eof ∷ post)
    × (all_of (skips_nothing 2) pre ≡ true))
run-complete_iff_example = run-complete_iff 2 two_tracks events two_tracks-new
