-- ===== src/MemoryBenchmark/Counts.antt =====
-- The children counts of a sweep, compute_children_sequence of memoryBenchmarkScript/memory_benchmark.py
-- without a second repeat.
use native.Mathlib.Nat.{div-add-mod, div_self, mod_self, suc-mul}
use fun_with_dragonfly_db.Prelude.{
  ℕ, zero, suc, ◌+◌, ◌-◌, ◌*◌, ◌/◌, ◌%◌, ◌<◌, ◌≤◌, ◌≡◌, refl, ap, sym, ◌∙◌, inl, inr, Bool,
  Bool-cases, true, false, ◌||◌, List, [], ◌∷◌, ◌++◌, ltb, ◌==◌, eq→==, if◌then◌else◌, arith, All,
  All-append, ok,
}
use fun_with_dragonfly_db.MemoryBenchmark.Sweep.{
  round_ratio, count_down, mem_count, sequence_loop, compute_children_sequence,
}

-- `round(m / (d + 1))`
abbrev rounded : ℕ → ℕ → ℕ
rounded m d =
    let q = m / suc d in
    let r = m % suc d in
    if ltb (2 * r) (suc d) then q else (if 2 * r == suc d then q + q % 2 else q + 1)

rounding-le :
    (m q r t d : ℕ)
    → (t + q) + r ≡ m
    → (if ltb (2 * r) (suc d) then q else (if 2 * r == suc d then q + q % 2 else q + 1)) ≤ m
rounding-le m q r t d h = ground arith

rounded-le : (m d : ℕ) → rounded m d ≤ m
rounded-le m d =
    rounding-le m (m / suc d) (m % suc d) (d * (m / suc d)) d
      (ap (λ n. n + m % suc d) (sym (suc-mul d (m / suc d))) ∙ div-add-mod m (suc d))

-- `max(1, round(m / (d + 1)))`
abbrev count_for : ℕ → ℕ → ℕ
count_for m d = if ltb (rounded m d) 1 then 1 else rounded m d

count_for-range : (m d : ℕ) → 0 < m → (0 < count_for m d) × (count_for m d ≤ m)
count_for-range m d h = let le = rounded-le m d in count_range (rounded m d) m h le
  where
    count_range :
        (n m : ℕ)
        → 0 < m
        → n ≤ m
        → (0 < (if ltb n 1 then 1 else n)) × ((if ltb n 1 then 1 else n) ≤ m)
    count_range n m h le = (ground arith, ground arith)

-- No count twice.
abbrev pub IsDistinct : List ℕ → Type 0
IsDistinct [] = Unit
IsDistinct (x ∷ xs) = (mem_count x xs ≡ false) × IsDistinct xs

mem_count-append :
    (x : ℕ) (xs ys : List ℕ) → mem_count x (xs ++ ys) ≡ (mem_count x xs || mem_count x ys)
unfolding mem_count
mem_count-append x [] ys = refl
mem_count-append x (y ∷ xs) ys = ground (arith, mem_count-append x xs ys)

mem_count-front :
    (x y : ℕ) (xs : List ℕ) → mem_count x xs ≡ true → mem_count x (xs ++ (y ∷ [])) ≡ true
mem_count-front x y xs h = rw (mem_count-append x xs (y ∷ []), h) refl

mem_count_last : (y : ℕ) (xs : List ℕ) → mem_count y (xs ++ (y ∷ [])) ≡ true
unfolding mem_count
mem_count_last y [] = rw (eq→== y y refl) refl
mem_count_last y (x ∷ xs) = ground (arith, mem_count_last y xs)

other_way : (x y : ℕ) (b : Bool) → (x == y || b) ≡ false → (y == x || false) ≡ false
other_way x y b h = ground arith

IsDistinct-snoc :
    (xs : List ℕ) (y : ℕ) → IsDistinct xs → mem_count y xs ≡ false → IsDistinct (xs ++ (y ∷ []))
unfolding mem_count
IsDistinct-snoc [] y h new = (refl, tt)
IsDistinct-snoc (x ∷ xs) y (hx, h) new = (
  rw (mem_count-append x xs (y ∷ []), hx) (other_way x y (mem_count y xs) new),
  IsDistinct-snoc xs y h (ground arith),
)

-- A range of counts.
abbrev pub InRange : ℕ → ℕ → Type 0
InRange m x = (0 < x) × (x ≤ m)

-- The count of a denominator.
abbrev count_at : ℕ → ℕ → ℕ
count_at m zero = 0
count_at m (suc d) = count_for m d

-- What the loop has found.
record IsFound (m : ℕ) (ds sequence out : List ℕ) : Type 0 where
  distinct : IsDistinct out
  ranged : All (InRange m) out
  kept : (x : ℕ) → mem_count x sequence ≡ true → mem_count x out ≡ true
  counted : All (λ d. mem_count (count_at m d) out ≡ true) ds

sequence_loop-IsFound :
    (m : ℕ) (ds sequence : List ℕ)
    → 0 < m
    → All (λ d. 0 < d) ds
    → IsDistinct sequence
    → All (InRange m) sequence
    → (out : List ℕ) × (sequence_loop m ds sequence ≡ ok out) × IsFound m ds sequence out
unfolding sequence_loop round_ratio
sequence_loop-IsFound m [] sequence h positive distinct ranged =
    (sequence, refl, record { distinct = distinct; ranged = ranged; kept = λ x e. e; counted = tt })
sequence_loop-IsFound m (zero ∷ ds) sequence h (positive, hs) distinct ranged = absurd (omega arith)
sequence_loop-IsFound m (suc d ∷ ds) sequence h (positive, hs) distinct ranged =
    elim (Bool-cases (mem_count (count_for m d) sequence)) [
      | inl e ↦
          let (out, r, found) = sequence_loop-IsFound m ds sequence h hs distinct ranged in
          (
            out,
            rw e r,
            record {
              distinct = found.distinct;
              ranged = found.ranged;
              kept = found.kept;
              counted = (found.kept (count_for m d) e, found.counted);
            },
          )
      | inr e ↦
          let longer = sequence ++ (count_for m d ∷ []) in
          let (out, r, found) =
            sequence_loop-IsFound m ds longer h hs
              (IsDistinct-snoc sequence (count_for m d) distinct e)
              (All-append (InRange m) sequence (count_for m d ∷ []) ranged
                (count_for-range m d h, tt)) in
          (
            out,
            rw e r,
            record {
              distinct = found.distinct;
              ranged = found.ranged;
              kept = λ x e'. found.kept x (mem_count-front x (count_for m d) sequence e');
              counted = (
                found.kept (count_for m d) (mem_count_last (count_for m d) sequence),
                found.counted,
              );
            },
          )
    ]

count_down-positive : (n : ℕ) → All (λ d. 0 < d) (count_down n)
unfolding count_down
count_down-positive zero = tt
count_down-positive (suc n) = (omega arith, count_down-positive n)

-- A list of denominators down to 1.
count_down-last : (P : ℕ → Type 0) (n : ℕ) → All P (count_down (suc n)) → P 1
unfolding count_down
count_down-last P zero (h, hs) = h
count_down-last P (suc n) (h, hs) = count_down-last P n hs

count_for-one : (m : ℕ) → 0 < m → count_for m 0 ≡ m
count_for-one m h = ground arith

count_for-all : (m : ℕ) → count_for (suc m) m ≡ 1
count_for-all m =
    let q : suc m / suc m ≡ 1 = div_self (omega arith) in
    let r : suc m % suc m ≡ 0 = mod_self (suc m) in rw (q, r) (ground arith)

-- The counts of a sweep, by what is said of them.
abbrev pub IsSweep : ℕ → List ℕ → Type 0
IsSweep m out = IsDistinct out × All (InRange m) out × (mem_count 1 out ≡ true)

sequence-IsSweep :
    (m k : ℕ)
    → (out : List ℕ) × (sequence_loop (suc m) (suc m ∷ count_down k) [] ≡ ok out)
      × IsSweep (suc m) out
      × (0 < k → mem_count (suc m) out ≡ true)
sequence-IsSweep m k =
    let (out, r, found) =
      sequence_loop-IsFound (suc m) (suc m ∷ count_down k) [] (omega arith)
        (omega arith, count_down-positive k) tt tt in
    let (first, others) = found.counted in
    (out, r, (found.distinct, found.ranged, rw (count_for-all m) at first), last_found k out others)
  where
    last_found :
        (k : ℕ) (out : List ℕ)
        → All (λ d. mem_count (count_at (suc m) d) out ≡ true) (count_down k)
        → 0 < k
        → mem_count (suc m) out ≡ true
    last_found zero out others h = absurd (omega arith)
    last_found (suc k) out others h =
        rw (count_for-one (suc m) (omega arith)) at
          (count_down-last (λ d. mem_count (count_at (suc m) d) out ≡ true) k others)

-- The denominators after the first.
abbrev steps : ℕ → ℕ → ℕ
steps m num_repeats =
    let capped = if ltb (suc m) num_repeats then suc m else num_repeats in
    (if ltb capped 1 then 1 else capped) - 1

several : (m num_repeats : ℕ) → 1 < num_repeats → 0 < steps (suc m) num_repeats
several m num_repeats h = ground arith

-- A sweep with at least one child runs: it counts from 1 to `max_children` and no count twice, one
-- child is among its counts, and so is `max_children` itself if the sweep has more than one step.
pub compute_children_sequence-IsSweep :
    (m num_repeats : ℕ)
    → (out : List ℕ) × (compute_children_sequence (suc m) num_repeats ≡ ok out)
      × IsSweep (suc m) out
      × (1 < num_repeats → mem_count (suc m) out ≡ true)
unfolding compute_children_sequence
compute_children_sequence-IsSweep m num_repeats =
    let (out, r, sweep, last) = sequence-IsSweep m (steps m num_repeats) in
    (out, r, sweep, last_count m num_repeats out sweep.2 last)
  where
    last_count :
        (m num_repeats : ℕ) (out : List ℕ)
        → mem_count 1 out ≡ true
        → (0 < steps m num_repeats → mem_count (suc m) out ≡ true)
        → 1 < num_repeats
        → mem_count (suc m) out ≡ true
    last_count zero num_repeats out one last many = one
    last_count (suc m) num_repeats out one last many = last (several m num_repeats many)
