-- ===== src/Reader/Meter.antt =====
-- What a byte meter counts (mediaio-ffmpeg/src/reader_guard.rs).
use mediadecode.Base.{
  ℕ, ◌+◌, ◌%◌, ◌^◌, ◌≤◌, ◌≡◌, refl, sym, ◌∙◌, subst, ◌⊎◌, inl, inr, true, arith, u64_max,
}
use mediadecode.Reader.Guard.{ReadMeter, remaining, release, charge, trip}

abbrev pub IsMetered : ReadMeter → Type 0
IsMetered m = (m.read ≤ m.budget) × (m.budget ≤ u64_max)

-- A meter that has counted `n` bytes more, within the same budget, and that is only tripped anew
-- with the budget spent.
abbrev pub Counts : ReadMeter → ℕ → ReadMeter → Type 0
Counts m n m' =
    (m'.read ≡ m.read + n)
    × (m'.budget ≡ m.budget)
    × (m'.read ≤ m'.budget)
    × (m'.tripped ≡ true → (m.tripped ≡ true) ⊎ (m'.read ≡ m'.budget))

-- A meter stays within its budget when the budget is lifted.
release-IsMetered : (m : ReadMeter) → IsMetered m → IsMetered (release m)
release-IsMetered m h = (omega (arith, h), omega arith)

pub Counts-none : (m : ReadMeter) → IsMetered m → Counts m 0 m
Counts-none m h = (omega arith, refl, h.0, λ t. inl t)

pub Counts-trip : (m : ReadMeter) → IsMetered m → remaining m ≡ 0 → Counts m 0 (trip m)
Counts-trip m h none_left = (omega arith, refl, h.0, λ t. inr (omega arith))

no_wrap :
    (m : ReadMeter) (n : ℕ) → IsMetered m → n ≤ remaining m → (m.read + n) % 2 ^ 64 ≡ m.read + n
no_wrap m n h fits = omega arith

fits_budget : (m : ReadMeter) (n : ℕ) → IsMetered m → n ≤ remaining m → m.read + n ≤ m.budget
fits_budget m n h fits = omega arith

pub Counts-charge :
    (m : ReadMeter) (n : ℕ) → IsMetered m → n ≤ remaining m → Counts m n (charge n m)
Counts-charge m n h fits =
    let exact : (m.read + n) % 2 ^ 64 ≡ m.read + n = no_wrap m n h fits in
    (exact, refl, subst (λ x. x ≤ m.budget) (sym exact) (fits_budget m n h fits), λ t. inl t)

pub Counts-then :
    (m m' m'' : ReadMeter) (a b : ℕ) → Counts m a m' → Counts m' b m'' → Counts m (a + b) m''
Counts-then m m' m'' a b h k = (count, k.1 ∙ h.1, k.2, λ t. earlier (k.3 t))
  where
    count : m''.read ≡ m.read + (a + b)
    count = omega arith

    earlier :
        (m'.tripped ≡ true) ⊎ (m''.read ≡ m''.budget) → (m.tripped ≡ true) ⊎ (m''.read ≡ m''.budget)
    earlier (inr spent) = inr spent
    earlier (inl t) = sooner (h.3 t)
      where
        sooner :
            (m.tripped ≡ true) ⊎ (m'.read ≡ m'.budget)
            → (m.tripped ≡ true) ⊎ (m''.read ≡ m''.budget)
        sooner (inl t) = inl t
        sooner (inr spent) = inr (omega arith)
