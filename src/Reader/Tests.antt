-- ===== src/Reader/Tests.antt =====
-- A reader of three bytes in memory, which panics past its end.
use mediadecode.Base.{ℕ, zero, suc, ◌≤◌, ◌≡◌, refl, true, some, List, [], ◌∷◌, arith, length}
use mediadecode.Reader.Guard.{static_str, Call, panicked, gave, Source, GuardedReader, new_reader}
use mediadecode.Reader.Budget.{
  Request, want, move, given, Contract, serve, seen, Serves, serve-Serves,
}

-- The first bytes of a list and the others.
unfoldable split : ℕ → List ℕ → List ℕ × List ℕ
split zero bytes = ([], bytes)
split (suc n) [] = ([], [])
split (suc n) (b ∷ bytes) = let (first, rest) = split n bytes in (b ∷ first, rest)

split-within : (n : ℕ) (bytes : List ℕ) → length (split n bytes).0 ≤ n
unfolding split
split-within zero bytes = omega arith
split-within (suc n) [] = omega arith
split-within (suc n) (b ∷ bytes) = omega (arith, split-within n bytes)

abbrev read_memory : ℕ → List ℕ → List ℕ × Call ℕ ℕ (List ℕ)
read_memory len [] = ([], panicked (static_str 7))
read_memory len (b ∷ bytes) = ((split len (b ∷ bytes)).1, gave (split len (b ∷ bytes)).0)

read_memory-within : (len : ℕ) (bytes : List ℕ) → given (read_memory len bytes).1 ≤ len
read_memory-within len [] = omega arith
read_memory-within len (b ∷ bytes) = split-within len (b ∷ bytes)

abbrev memory : Source
memory = record {
  Reader = List ℕ;
  Byte = ℕ;
  SeekFrom = ℕ;
  Message = ℕ;
  Fault = ℕ;
  unnamed = 0;
  read_bytes = read_memory;
  seek_to = λ target bytes. (bytes, gave target);
}

abbrev memory-Contract : Contract memory
memory-Contract = record { within = read_memory-within }

abbrev three_bytes : ℕ → GuardedReader memory
three_bytes budget = new_reader memory (4 ∷ 5 ∷ 6 ∷ []) budget

-- Of a budget of four bytes, a read takes three, two more find the reader past its end, where it
-- panics, and nothing of the last byte is spent.
abbrev requests : List (Request ℕ)
requests = want 0 ∷ want 64 ∷ move 1 ∷ want 1 ∷ want 1 ∷ []

-- A budget of two bytes refuses the third.
bytes_served : (serve memory requests (three_bytes 2)).1 ≡ 4 ∷ 5 ∷ []
unfolding serve split
bytes_served = refl

budget_tripped : (serve memory requests (three_bytes 2)).0.meter.tripped ≡ true
unfolding serve split
budget_tripped = refl

panic_kept : (serve memory requests (three_bytes 4)).0.message ≡ some 7
unfolding serve split
panic_kept = refl

serve-Serves_example :
    Serves memory
      (three_bytes 4)
      (seen memory requests (three_bytes 4))
      (serve memory requests (three_bytes 4))
serve-Serves_example =
    serve-Serves memory memory-Contract requests (three_bytes 4) (omega arith, omega arith)
