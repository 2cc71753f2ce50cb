-- ===== src/MemoryBenchmark/Report/Steps.antt =====
-- What the rows of a sweep compare.
use fun_with_dragonfly_db.Prelude.{
  ℕ, zero, suc, ◌≡◌, refl, ap, Option, none, some, List, [], ◌∷◌, lt→ltb, or_else, arith,
}
use fun_with_dragonfly_db.MemoryBenchmark.Sweep.{pos, negsuc, TypeResult, skipped, measured}
use fun_with_dragonfly_db.MemoryBenchmark.Report.{
  usable_bytes, SweepRow, dashes, memory_row, divisor, min_with, compared, sweep_rows,
}

-- The first step that has a memory.
unfoldable pub first_memory : (ℕ → Option ℕ) → List ℕ → Option ℕ
first_memory memory_at [] = none
first_memory memory_at (children ∷ sequence) =
    or_else (memory_at children) (first_memory memory_at sequence)

-- A row by itself: its memory is compared with that of the step right before it, and with that of
-- the first step that has one.
unfoldable pub row_for : Option ℕ → Option ℕ → ℕ → Option ℕ → SweepRow
row_for before first children none = dashes children
row_for before first children (some mem) =
    memory_row children mem before (compared mem (min_with first mem))

unfoldable pub rows_for : (ℕ → Option ℕ) → Option ℕ → Option ℕ → List ℕ → List SweepRow
rows_for memory_at before first [] = []
rows_for memory_at before first (children ∷ sequence) =
    row_for before first children (memory_at children)
    ∷ rows_for memory_at (memory_at children) first sequence

-- A memory that is there is above 0.
divisor-usable_bytes :
    (result : Option TypeResult) → divisor (usable_bytes result) ≡ usable_bytes result
unfolding divisor usable_bytes
divisor-usable_bytes none = refl
divisor-usable_bytes (some (skipped t reason)) = refl
divisor-usable_bytes (some (measured t keys elements (pos zero))) = refl
divisor-usable_bytes (some (measured t keys elements (pos (suc n)))) =
    rw (lt→ltb 0 (suc n) (omega arith)) refl
divisor-usable_bytes (some (measured t keys elements (negsuc n))) = refl

module _ (results : ℕ → Option TypeResult) where
  abbrev memory_at : ℕ → Option ℕ
  memory_at c = usable_bytes (results c)

  -- What the loop does from a step on.
  abbrev IsRest : List ℕ → Type 0
  IsRest sequence =
      (prev_mem min_mem : Option ℕ)
      → divisor prev_mem ≡ prev_mem
      → sweep_rows results sequence prev_mem min_mem
        ≡ rows_for memory_at prev_mem (or_else min_mem (first_memory memory_at sequence)) sequence

  stepped :
      (children : ℕ) (sequence : List ℕ) (found prev_mem min_mem : Option ℕ)
      → IsRest sequence
      → divisor found ≡ found
      → divisor prev_mem ≡ prev_mem
      → (elim found as (λ _. List SweepRow) [
        | none ↦ dashes children ∷ sweep_rows results sequence none min_mem
        | some mem ↦
            memory_row children mem (divisor prev_mem) (compared mem (min_with min_mem mem))
            ∷ sweep_rows results sequence (some mem) (some (min_with min_mem mem))
      ])
        ≡ row_for prev_mem
            (or_else min_mem (or_else found (first_memory memory_at sequence)))
            children
            found
          ∷ rows_for memory_at found
              (or_else min_mem (or_else found (first_memory memory_at sequence)))
              sequence
  unfolding row_for
  stepped children sequence none prev_mem min_mem rest e h =
      ap (λ rows. dashes children ∷ rows) (rest none min_mem e)
  stepped children sequence (some mem) prev_mem none rest e h = rw h (
      ap (λ rows. memory_row children mem prev_mem (compared mem mem) ∷ rows)
        (rest (some mem) (some mem) e))
  stepped children sequence (some mem) prev_mem (some n) rest e h = rw h (
      ap (λ rows. memory_row children mem prev_mem (compared mem n) ∷ rows)
        (rest (some mem) (some n) e))

  sweep_rows-rows_for : (sequence : List ℕ) → IsRest sequence
  unfolding sweep_rows rows_for first_memory
  sweep_rows-rows_for [] prev_mem min_mem h = refl
  sweep_rows-rows_for (children ∷ sequence) prev_mem min_mem h =
      stepped children sequence (usable_bytes (results children)) prev_mem min_mem
        (λ prev first e. sweep_rows-rows_for sequence prev first e)
        (divisor-usable_bytes (results children)) h

-- The rows of a sweep do not depend on what the loop carries along: each compares its memory with
-- that of the step right before it, if this has one, and with that of the first step of the whole
-- sequence that has one; a step without a memory has dashes, and so has the comparison after it.
pub sweep_rows-reference :
    (results : ℕ → Option TypeResult) (sequence : List ℕ)
    → sweep_rows results sequence none none
      ≡ rows_for
          (λ c. usable_bytes (results c))
          none
          (first_memory (λ c. usable_bytes (results c)) sequence)
          sequence
sweep_rows-reference results sequence =
    sweep_rows-rows_for results sequence none none (unfold divisor in refl)
