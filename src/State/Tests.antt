-- ===== src/State/Tests.antt =====
-- Runs of the shared state on concrete events (mediadecode-webcodecs/src/state.rs,
-- mediadecode-webcodecs/src/video.rs).
use mediadecode.Base.{
  ℕ, zero, suc, ◌+◌, ◌*◌, ◌≤◌, ◌<◌, ◌≡◌, refl, ◌⊎◌, true, false, none, some, List, [], ◌∷◌, ◌++◌,
  arith, length,
}
use mathlib.Core.List.{Memᴰ}
use mediadecode.State.Search.{absent, insert_by, remove_by, insert_by-insert}
use mediadecode.State.SortedVec.{
  int_key, nat_key, find, insert, remove, total, IsSorted, insert-IsSorted, find-remove,
}
use mediadecode.State.Inner.{
  Error, PendingOutput, DecodedFrame, Inner, ok, err, try_new, base_submission_id,
  max_pending_outputs, is_closed, record_close, push_queue, pop_queue, sub_pending_copy,
  add_pending_copy, try_insert, remove_push, remove_pending_output,
}
use mediadecode.State.Shared.{
  SharedState, CloseHookTarget, video, deliver_pending_push, drain, close_out, wake_all,
  wake_dequeue, wake_receiver,
}
use mediadecode.State.Copy.{finish_copy, budget, budget_record, max_pending_decode}
use mediadecode.State.Trace.{Event, World, outcome, copied, taken, step, run}
use mediadecode.State.Order.{published}
use mediadecode.State.Delivery.{start, stream, run_in_order, run_not_stuck}
use mediadecode.State.Closing.{ClosesOr, finish_copy-ClosesOr}
use mediadecode.State.InputBytes.{run-input_bytes}
use mediadecode.State.InputBytes as Bytes
use mediadecode.State.Copies.{run-charged}
use mediadecode.State.Copies as Copies
use mediadecode.State.Admission.{IsAdmitted, budget-IsAdmitted}

-- A decoder of numbered frames, of ten bytes each.
abbrev fresh_inner : Inner ℕ ℕ ℕ
fresh_inner = record {
  queue = [];
  queue_capacity = 4;
  queue_bytes = 0;
  last_error = none;
  pending_outputs = record { entries = [] };
  next_submission_id = base_submission_id;
  epoch_id_floor = base_submission_id;
  pending_input_bytes = 0;
  pending_copies = 0;
  pending_copy_bytes = 0;
  last_measured_frame_bytes = 0;
  epoch = 0;
  next_output_sequence = 0;
  next_push_sequence = 0;
  pending_pushes = record { entries = []; capacity = 4 };
  pending_push_bytes = 0;
  receiver_waker = none;
  dequeue_waker = none;
}

abbrev byte_size : ℕ → ℕ
byte_size f = 10

abbrev decoded : ℕ → ℕ → ℕ
decoded epoch sequence = epoch * 100 + sequence

abbrev hook : CloseHookTarget ℕ
hook = video 0

made : try_new (some 4) (some 8) (some 4) ≡ ok fresh_inner
unfolding try_new
made = refl

-- The second frame's copy ends first; a frame is taken, and the third copy is late.
abbrev events : List Event
events = copied 0 1 10 ∷ copied 0 0 10 ∷ taken 10 ∷ copied 1 0 10 ∷ []

run_in_order_example :
    let w : World ℕ ℕ ℕ ℕ = run byte_size decoded (start fresh_inner hook) events in
    let frames = published (outcome byte_size decoded w.handle.inner.epoch) in
    ((is_closed w.handle.inner ≡ false) × (stream w ≡ frames w.handle.inner.next_push_sequence))
    ⊎ ((is_closed w.handle.inner ≡ true)
        × (w.handle.inner.queue ≡ [])
        × ((n : ℕ) × (rest : List (DecodedFrame ℕ)) × (w.received ++ rest ≡ frames n)))
run_in_order_example =
    run_in_order byte_size decoded (some 4) (some 8) (some 4) hook fresh_inner events made
      (omega arith, (omega arith, (tt, (omega arith, tt))))

still_open : is_closed (run byte_size decoded (start fresh_inner hook) events).handle.inner ≡ false
unfolding step finish_copy is_closed sub_pending_copy deliver_pending_push try_insert drain
    push_queue pop_queue wake_all wake_dequeue wake_receiver close_out record_close find insert
    remove remove_push
still_open = refl

both_ended :
    (k : ℕ) → k < 2 → Memᴰ k (run byte_size decoded (start fresh_inner hook) events).finished
unfolding step finish_copy is_closed sub_pending_copy deliver_pending_push try_insert drain
    push_queue pop_queue wake_all wake_dequeue wake_receiver close_out record_close find insert
    remove remove_push
both_ended zero h = Memᴰ.head refl
both_ended (suc zero) h = Memᴰ.tail (Memᴰ.head refl)
both_ended (suc (suc k)) h = absurd (omega arith)

run_not_stuck_example :
    2 ≤ (run byte_size decoded (start fresh_inner hook) events).handle.inner.next_push_sequence
run_not_stuck_example =
    run_not_stuck byte_size decoded (some 4) (some 8) (some 4) hook fresh_inner events made
      (omega arith, (omega arith, (tt, (omega arith, tt)))) 2 still_open both_ended

-- A handle with a task that waits for a frame.
abbrev waiting : SharedState ℕ ℕ ℕ ℕ
waiting = record {
  inner = record fresh_inner { receiver_waker = some 7; pending_copies = 1 };
  close_hook = hook;
}

abbrev copy_error : Error
copy_error = record { message = "copyTo failed" }

waiting_open : is_closed waiting.inner ≡ false
unfolding is_closed
waiting_open = refl

finish_copy-ClosesOr_example :
    ClosesOr waiting (finish_copy byte_size waiting 0 10 0 (err copy_error))
finish_copy-ClosesOr_example =
    finish_copy-ClosesOr byte_size waiting 0 10 0 (err copy_error) waiting_open

-- A submission of a hundred bytes in generation 0.
abbrev submission : PendingOutput ℕ
submission = record {
  epoch = 0;
  user_pts = some 3;
  key = true;
  input_bytes = 100;
  expected_samples = 0;
}

abbrev submissions : List (Bytes.Event ℕ)
submissions =
    Bytes.submitted submission ∷ Bytes.submitted submission ∷ Bytes.matched base_submission_id ∷ []

run-input_bytes_example :
    ((Bytes.run fresh_inner submissions).pending_input_bytes
      ≡ total Bytes.input_bytes_of (Bytes.run fresh_inner submissions).pending_outputs.entries)
    × (length (Bytes.run fresh_inner submissions).pending_outputs.entries ≤ max_pending_outputs)
run-input_bytes_example =
    run-input_bytes (some 4) (some 8) (some 4) fresh_inner submissions made (omega arith)
      (omega arith, (omega arith, (tt, tt)))

-- A decoder that waits for the output of one submission, and what it is once that output is admitted.
abbrev submitted_inner : Inner ℕ ℕ ℕ
submitted_inner = record fresh_inner {
  pending_outputs = record { entries = (base_submission_id, submission) ∷ [] };
  pending_input_bytes = 100;
}

abbrev admitted_inner : Inner ℕ ℕ ℕ
admitted_inner = record fresh_inner {
  pending_copies = 1;
  pending_copy_bytes = 80;
  last_measured_frame_bytes = 80;
}

admitted :
    budget submitted_inner base_submission_id (some 40) ≡ (ok (submission, 80), admitted_inner)
unfolding budget budget_record is_closed remove_pending_output add_pending_copy find remove
admitted = refl

budget-IsAdmitted_example :
    IsAdmitted submitted_inner base_submission_id (some 40) submission 80 admitted_inner
budget-IsAdmitted_example =
    budget-IsAdmitted submitted_inner base_submission_id (some 40) submission 80 admitted_inner
      admitted

-- Three parked sequence numbers, and a fourth between them.
abbrev parked : List (ℕ × ℕ)
parked = (1, 10) ∷ (3, 30) ∷ (7, 70) ∷ []

insert-IsSorted_example : IsSorted (insert 5 50 parked)
insert-IsSorted_example = insert-IsSorted 5 50 parked ((refl, (refl, tt)), ((refl, tt), (tt, tt)))

find-remove_example : IsSorted (remove 3 parked) × (find 3 (remove 3 parked) ≡ none)
find-remove_example = find-remove 3 3 parked ((refl, (refl, tt)), ((refl, tt), (tt, tt)))

-- The search for a key that is not there answers the index of the gap.
insert_by-insert_example :
    (insert_by (absent 2) 5 50 parked ≡ insert 5 50 parked)
    × (remove_by (absent 2) parked ≡ remove 5 parked)
insert_by-insert_example =
    insert_by-insert (absent 2) 5 50 parked ((refl, (refl, tt)), ((refl, tt), (tt, tt)))
      (refl, (refl, (refl, tt)))

-- A copy that is admitted, outlives a flush, and ends in the next generation.
abbrev copies : List (Copies.Event ℕ ℕ)
copies =
    Copies.submitted submission
    ∷ Copies.output base_submission_id (some 40)
    ∷ Copies.flushed true
    ∷ Copies.ended 0 (ok 5)
    ∷ []

run-charged_example :
    let w = Copies.run byte_size (Copies.begin fresh_inner hook) copies in
    (w.handle.inner.pending_copies ≡ length w.live)
    × (w.handle.inner.pending_copy_bytes ≡ Copies.charged w.live)
    × (length w.live ≤ max_pending_decode)
run-charged_example = run-charged byte_size (some 4) (some 8) (some 4) hook fresh_inner copies made
