-- ===== src/MemoryBenchmark/Report.antt =====
-- The rows of print_sweep_report of memoryBenchmarkScript/memory_benchmark.py. A ratio is kept as the
-- pair that it divides; the printing and the bytes for each key are left out.
pub mod Steps
use fun_with_dragonfly_db.Prelude.{
  ℕ, zero, suc, Bool, ◌&&◌, not, Option, none, some, List, [], ◌∷◌, ltb, ◌==◌, if◌then◌else◌,
}
use fun_with_dragonfly_db.MemoryBenchmark.Sweep.{ℤ, pos, negsuc, TypeResult, skipped, measured}

-- The bytes of a result that is there, is not skipped and is above 0.
unfoldable pub usable_bytes : Option TypeResult → Option ℕ
usable_bytes none = none
usable_bytes (some (skipped t reason)) = none
usable_bytes (some (measured t keys elements (pos zero))) = none
usable_bytes (some (measured t keys elements (pos (suc n)))) = some (suc n)
usable_bytes (some (measured t keys elements (negsuc n))) = none

-- `vs_min`: the ratio to another memory, "1.00x", or a dash.
pub data VsMin : Type 0 where
  ratio_to : (min_mem : ℕ) → VsMin
  same_memory no_ratio : VsMin

-- A row: dashes, or the memory and what it is compared with. `vs_prev` is none for a dash.
pub data SweepRow : Type 0 where
  dashes : (children : ℕ) → SweepRow
  memory_row : (children memory_bytes : ℕ) (vs_prev : Option ℕ) (vs_min : VsMin) → SweepRow

-- `prev_mem is not None and prev_mem > 0`
unfoldable pub divisor : Option ℕ → Option ℕ
divisor none = none
divisor (some n) = if ltb 0 n then some n else none

-- `min_mem`, once the row has a memory.
abbrev pub min_with : Option ℕ → ℕ → ℕ
min_with none mem = mem
min_with (some n) mem = n

-- The text of `vs_min`.
unfoldable pub compared : ℕ → ℕ → VsMin
compared mem min_mem =
    if ltb 0 min_mem && not (mem == min_mem)
    then ratio_to min_mem
    else (if mem == min_mem then same_memory else no_ratio)

-- The loop over the sequence, from `prev_mem` and `min_mem` on.
unfoldable pub sweep_rows : (ℕ → Option TypeResult) → List ℕ → Option ℕ → Option ℕ → List SweepRow
unfolding usable_bytes divisor compared
sweep_rows results [] prev_mem min_mem = []
sweep_rows results (children ∷ sequence) prev_mem min_mem = elim (usable_bytes (results children)) [
  | none ↦ dashes children ∷ sweep_rows results sequence none min_mem
  | some mem ↦
      memory_row children mem (divisor prev_mem) (compared mem (min_with min_mem mem))
      ∷ sweep_rows results sequence (some mem) (some (min_with min_mem mem))
]
