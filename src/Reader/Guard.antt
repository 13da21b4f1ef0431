-- ===== src/Reader/Guard.antt =====
-- `GuardedReader` with its latch and its byte meter (mediaio-ffmpeg/src/reader_guard.rs). The
-- caller's reader is a parameter: a call of it changes its state, and panics, fails or answers.
use mediadecode.Base.{
  ℕ, ◌+◌, ◌-◌, ◌%◌, ◌^◌, min, Bool, true, false, Option, none, some, List, ◌==◌, if◌then◌else◌,
  u64_max, length, Result, ok, err,
}

-- What a panic is raised with: `&'static str`, `String` or anything else.
pub data Payload (M : Type 0) : Type 0 where
  static_str : M → Payload M
  string : M → Payload M
  any : Payload M

pub data Call (M E A : Type 0) : Type 0 where
  panicked : Payload M → Call M E A
  failed : E → Call M E A
  gave : A → Call M E A

-- A caller's `Read + Seek`, and the message that stands in for a payload that says nothing.
pub record Source : Type 1 where
  pub Reader : Type 0
  pub Byte : Type 0
  pub SeekFrom : Type 0
  pub Message : Type 0
  pub Fault : Type 0
  pub unnamed : Message
  pub read_bytes : ℕ → Reader → Reader × Call Message Fault (List Byte)
  pub seek_to : SeekFrom → Reader → Reader × Call Message Fault ℕ

pub record ReadMeter : Type 0 where
  pub read : ℕ
  pub budget : ℕ
  pub tripped : Bool

abbrev pub new_meter : ℕ → ReadMeter
new_meter budget = record { read = 0; budget = budget; tripped = false }

-- `release`, once a container is open.
abbrev pub release : ReadMeter → ReadMeter
release m = record m { budget = u64_max }

-- `remaining` is a saturating difference, as that of ℕ is.
abbrev pub remaining : ReadMeter → ℕ
remaining m = m.budget - m.read

-- `charge`, with the wrap of `fetch_add`.
abbrev pub charge : ℕ → ReadMeter → ReadMeter
charge bytes m = record m { read = (m.read + bytes) % 2 ^ 64 }

abbrev pub trip : ReadMeter → ReadMeter
trip m = record m { tripped = true }

module _ (S : Source) where
  -- The two errors that the guard makes, and those of the reader.
  pub data IoError : Type 0 where
    reader_panicked budget_exhausted : IoError
    io : S.Fault → IoError

  pub record GuardedReader : Type 0 where
    pub inner : S.Reader
    pub message : Option S.Message
    pub meter : ReadMeter

  -- `GuardedReader::new`.
  abbrev pub new_reader : S.Reader → ℕ → GuardedReader
  new_reader inner budget = record { inner = inner; message = none; meter = new_meter budget }

  abbrev pub describe : Payload S.Message → S.Message
  describe (static_str s) = s
  describe (string s) = s
  describe any = S.unnamed

  -- `PanicLatch::latch`.
  abbrev pub keep_first : Option S.Message → Payload S.Message → Option S.Message
  keep_first (some first) payload = some first
  keep_first none payload = some (describe payload)

  -- What `guard` makes of a call's end.
  abbrev pub caught :
      {A : Type 0}
      → GuardedReader
      → S.Reader × Call S.Message S.Fault A
      → GuardedReader × Result IoError A
  caught g (r, panicked payload) =
      (record g { inner = r; message = keep_first g.message payload }, err reader_panicked)
  caught g (r, failed e) = (record g { inner = r }, err (io e))
  caught g (r, gave a) = (record g { inner = r }, ok a)

  abbrev pub guard :
      {A : Type 0}
      → (S.Reader → S.Reader × Call S.Message S.Fault A)
      → GuardedReader
      → GuardedReader × Result IoError A
  guard call g = caught g (call g.inner)

  -- The end of a capped read, which charges what it handed over.
  abbrev pub hand_over :
      GuardedReader × Result IoError (List S.Byte) → GuardedReader × Result IoError (List S.Byte)
  hand_over (g, err e) = (g, err e)
  hand_over (g, ok bytes) = (record g { meter = charge (length bytes) g.meter }, ok bytes)

  -- `read`, of a buffer's length. `usize` is 64 bits wide.
  unfoldable pub read_guarded : ℕ → GuardedReader → GuardedReader × Result IoError (List S.Byte)
  read_guarded len g =
      if len == 0
      then guard (S.read_bytes len) g
      else if remaining g.meter == 0
      then (record g { meter = trip g.meter }, err budget_exhausted)
      else hand_over (guard (S.read_bytes (min (remaining g.meter) len)) g)

  unfoldable pub seek_guarded : S.SeekFrom → GuardedReader → GuardedReader × Result IoError ℕ
  seek_guarded target g = guard (S.seek_to target) g
