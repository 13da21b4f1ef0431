-- ===== src/State/Inner.antt =====
-- `Inner`, the state that the callbacks and the decoder share, with its methods
-- (mediadecode-webcodecs/src/state.rs). Frames, timestamps, wakers and errors are opaque here:
-- the state stores them and hands them back. A fallible allocation is an argument: the capacity
-- that the allocator gave, or none.
pub use mediadecode.Base.{Result, ok, err}
use mediadecode.Base.{
  ℤ, pos, i64_wrapping_add, ℕ, ◌+◌, ◌-◌, ◌%◌, ◌^◌, Bool, true, false, not, Option, none, some, List,
  [], ◌∷◌, ◌++◌, leb, if◌then◌else◌, u64_max, u32_max, saturating_add, length,
}
use mediadecode.State.SortedVec.{nat_key, int_key, find, insert, remove}
use Prim.Native.String.{String}

-- `Error`, by its message.
pub record Error : Type 0 where
  pub message : String

pub record DecodedFrame (F : Type 0) : Type 0 where
  pub frame : F

-- The record kept of a submission until its output arrives.
pub record PendingOutput (T : Type 0) : Type 0 where
  pub epoch : ℕ  -- u64
  pub user_pts : Option T
  pub key : Bool
  pub input_bytes : ℕ  -- u32
  pub expected_samples : ℕ  -- u32

pub record PendingOutputMap (T : Type 0) : Type 0 where
  pub entries : List (ℤ × PendingOutput T)

pub data PendingPush (F : Type 0) : Type 0 where
  ready : DecodedFrame F → ℕ → PendingPush F
  skipped : PendingPush F

pub record PendingPushMap (F : Type 0) : Type 0 where
  pub entries : List (ℕ × PendingPush F)
  pub capacity : ℕ

pub record Inner (F T W : Type 0) : Type 0 where
  pub queue : List (DecodedFrame F)
  pub queue_capacity : ℕ
  pub queue_bytes : ℕ  -- u64
  pub last_error : Option Error
  pub pending_outputs : PendingOutputMap T
  pub next_submission_id : ℤ  -- i64
  pub epoch_id_floor : ℤ  -- i64
  pub pending_input_bytes : ℕ  -- u64
  pub pending_copies : ℕ  -- u32
  pub pending_copy_bytes : ℕ  -- u64
  pub last_measured_frame_bytes : ℕ  -- u64
  pub epoch : ℕ  -- u64
  pub next_output_sequence : ℕ  -- u32
  pub next_push_sequence : ℕ  -- u32
  pub pending_pushes : PendingPushMap F
  pub pending_push_bytes : ℕ  -- u64
  pub receiver_waker : Option W
  pub dequeue_waker : Option W

abbrev pub max_pending_outputs : ℕ
max_pending_outputs = 256

abbrev pub max_pending_pushes : ℕ
max_pending_pushes = 32

abbrev pub base_submission_id : ℤ
base_submission_id = pos (2 ^ 50)

abbrev pub out_of_memory_queue : Error
out_of_memory_queue = record { message = "out of memory: decoded-frame queue" }

abbrev pub out_of_memory_outputs : Error
out_of_memory_outputs = record { message = "out of memory: pending_outputs" }

abbrev pub out_of_memory_pushes : Error
out_of_memory_pushes = record { message = "out of memory: pending_pushes" }

abbrev pub outputs_full : Error
outputs_full = record {
  message =
      "WebCodecs pending_outputs reached MAX_PENDING_OUTPUTS; decoder is producing far fewer outputs than inputs";
}

abbrev pub wrap_u32 : ℕ → ℕ
wrap_u32 n = n % 2 ^ 32

abbrev pub wrap_u64 : ℕ → ℕ
wrap_u64 n = n % 2 ^ 64

-- `PendingPushMap::try_insert`: an overwrite never grows the buffer.
unfoldable pub try_insert :
    {F : Type 0} → PendingPushMap F → ℕ → PendingPush F → Result (PendingPush F) (PendingPushMap F)
try_insert m sequence push = elim (find sequence m.entries) [
  | some _ ↦ ok (record m { entries = insert sequence push m.entries })
  | none ↦
      if leb m.capacity (length m.entries)
      then err push
      else ok (record m { entries = insert sequence push m.entries })
]

-- `PendingPushMap::remove`, also the way to the record at a sequence.
unfoldable pub remove_push :
    {F : Type 0} → PendingPushMap F → ℕ → Option (PendingPush F) × PendingPushMap F
remove_push m sequence = (find sequence m.entries, record m { entries = remove sequence m.entries })

module _ {F T W : Type 0} where
  -- `Inner::try_new`: the three capacities that the allocator gave, or none.
  unfoldable pub try_new : Option ℕ → Option ℕ → Option ℕ → Result Error (Inner F T W)
  try_new none outputs pushes = err out_of_memory_queue
  try_new (some q) none pushes = err out_of_memory_outputs
  try_new (some q) (some o) none = err out_of_memory_pushes
  try_new (some q) (some o) (some p) = ok (record {
    queue = [];
    queue_capacity = q;
    queue_bytes = 0;
    last_error = none;
    pending_outputs = record { entries = [] };
    next_submission_id = base_submission_id;
    epoch_id_floor = base_submission_id;
    pending_input_bytes = 0;
    pending_copies = 0;
    pending_copy_bytes = 0;
    last_measured_frame_bytes = 0;
    epoch = 0;
    next_output_sequence = 0;
    next_push_sequence = 0;
    pending_pushes = record { entries = []; capacity = p };
    pending_push_bytes = 0;
    receiver_waker = none;
    dequeue_waker = none;
  })

  -- `push_queue`: at capacity the frame is handed back.
  unfoldable pub push_queue :
      Inner F T W → DecodedFrame F → ℕ → Result (DecodedFrame F) (Inner F T W)
  push_queue s frame byte_size =
      if leb s.queue_capacity (length s.queue)
      then err frame
      else ok (record s {
        queue_bytes = saturating_add u64_max s.queue_bytes byte_size;
        queue = s.queue ++ frame ∷ [];
      })

  unfoldable pub pop_queue : Inner F T W → ℕ → Option (DecodedFrame F) × Inner F T W
  pop_queue s byte_size = elim s.queue [
    | [] ↦ (none, s)
    | frame ∷ rest ↦
        (some frame, record s { queue = rest; queue_bytes = s.queue_bytes - byte_size })
  ]

  unfoldable pub is_closed : Inner F T W → Bool
  is_closed s = elim s.last_error [ none ↦ false | some _ ↦ true ]

  unfoldable pub clear_last_error : Inner F T W → Inner F T W
  clear_last_error s = record s { last_error = none }

  -- Hands out the id; the counter wraps.
  unfoldable pub take_submission_id : Inner F T W → ℤ × Inner F T W
  take_submission_id s = (
    s.next_submission_id,
    record s { next_submission_id = i64_wrapping_add s.next_submission_id (pos 1) },
  )

  -- What closing and a new generation both drop.
  abbrev pub drop_generation : Inner F T W → Inner F T W
  drop_generation s = record s {
    queue = [];
    queue_bytes = 0;
    pending_outputs = record { entries = [] };
    pending_input_bytes = 0;
    pending_pushes = record { entries = []; capacity = s.pending_pushes.capacity };
    pending_push_bytes = 0;
    next_output_sequence = 0;
    next_push_sequence = 0;
  }

  -- `record_close`: whether this call is the one that closed, and the closed state.
  unfoldable pub record_close : Inner F T W → Error → Bool × Inner F T W
  unfolding is_closed
  record_close s e = (
    not (is_closed s),
    record (drop_generation s) {
      last_error = elim s.last_error [ none ↦ some e | some first ↦ some first ];
    },
  )

  unfoldable pub insert_pending_output :
      Inner F T W → ℤ → PendingOutput T → Result Error (Unit {0}) × Inner F T W
  unfolding record_close
  insert_pending_output s id r =
      if leb max_pending_outputs (length s.pending_outputs.entries)
      then (err outputs_full, (record_close s outputs_full).1)
      else (
        ok tt,
        record s {
          pending_input_bytes = saturating_add u64_max s.pending_input_bytes r.input_bytes;
          pending_outputs = record { entries = insert id r s.pending_outputs.entries };
        },
      )

  unfoldable pub remove_pending_output : Inner F T W → ℤ → Option (PendingOutput T) × Inner F T W
  remove_pending_output s id = elim (find id s.pending_outputs.entries) [
    | none ↦ (none, s)
    | some r ↦ (
      some r,
      record s {
        pending_input_bytes = s.pending_input_bytes - r.input_bytes;
        pending_outputs = record { entries = remove id s.pending_outputs.entries };
      },
    )
  ]

  unfoldable pub pop_oldest_pending_output :
      Inner F T W → Option (ℤ × PendingOutput T) × Inner F T W
  pop_oldest_pending_output s = elim s.pending_outputs.entries [
    | [] ↦ (none, s)
    | (id, r) ∷ rest ↦ (
      some (id, r),
      record s {
        pending_input_bytes = s.pending_input_bytes - r.input_bytes;
        pending_outputs = record { entries = rest };
      },
    )
  ]

  unfoldable pub add_pending_copy : Inner F T W → ℕ → Inner F T W
  add_pending_copy s byte_estimate = record s {
    pending_copies = saturating_add u32_max s.pending_copies 1;
    pending_copy_bytes = saturating_add u64_max s.pending_copy_bytes byte_estimate;
    last_measured_frame_bytes = byte_estimate;
  }

  unfoldable pub sub_pending_copy : Inner F T W → ℕ → Inner F T W
  sub_pending_copy s byte_estimate = record s {
    pending_copies = s.pending_copies - 1;
    pending_copy_bytes = s.pending_copy_bytes - byte_estimate;
  }

  unfoldable pub clear_pending_outputs : Inner F T W → Inner F T W
  clear_pending_outputs s = record s {
    pending_outputs = record { entries = [] };
    pending_input_bytes = 0;
  }

  -- `SharedState::bump_epoch`, on the state behind the handle.
  unfoldable pub bump_epoch : Inner F T W → ℕ × Inner F T W
  bump_epoch s =
      let epoch' = wrap_u64 (s.epoch + 1) in
      (epoch', record (drop_generation s) { epoch = epoch'; epoch_id_floor = s.next_submission_id })

  -- `SharedState::allocate_output_sequence`.
  unfoldable pub allocate_output_sequence : Inner F T W → ℕ × Inner F T W
  allocate_output_sequence s = (
    s.next_output_sequence,
    record s { next_output_sequence = wrap_u32 (s.next_output_sequence + 1) },
  )
