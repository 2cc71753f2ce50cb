-- ===== src/MemoryBenchmark/Sweep.antt =====
-- memoryBenchmarkScript/memory_benchmark.py: the children counts of a sweep with one repeat, and
-- the loop of benchmark_instance. The server is a parameter: its memory, and what populating does.
use fun_with_dragonfly_db.Prelude.{
  ℕ, zero, suc, ◌+◌, ◌-◌, ◌*◌, ◌/◌, ◌%◌, Bool, false, not, ◌&&◌, ◌||◌, List, [], ◌∷◌, ◌++◌, ltb,
  leb, ◌==◌, if◌then◌else◌, Result, ok, err, zero_division_error, ◌>>=◌,
}
use fun_with_dragonfly_db.MemoryBenchmark.{TypeConfig}
use fun_with_dragonfly_db.MemoryBenchmark.Config.{TypeName, Configs, same_type}

-- `round(m / d)`: half to even.
unfoldable pub round_ratio : ℕ → ℕ → Result ℕ
round_ratio m zero = err zero_division_error
round_ratio m (suc d) =
    let q = m / suc d in
    let r = m % suc d in
    ok (if ltb (2 * r) (suc d) then q else (if 2 * r == suc d then q + q % 2 else q + 1))

-- `list(range(n, 0, -1))`
unfoldable pub count_down : ℕ → List ℕ
count_down zero = []
count_down (suc n) = suc n ∷ count_down n

unfoldable pub mem_count : ℕ → List ℕ → Bool
mem_count x [] = false
mem_count x (y ∷ ys) = y == x || mem_count x ys

-- The loop over the denominators: `sequence` is what was found before, and its items are `seen`.
unfoldable pub sequence_loop : ℕ → List ℕ → List ℕ → Result (List ℕ)
unfolding round_ratio mem_count
sequence_loop max_children [] sequence = ok sequence
sequence_loop max_children (d ∷ ds) sequence = do
  rounded ← round_ratio max_children d
  (let count = if ltb rounded 1 then 1 else rounded in
      if mem_count count sequence
      then sequence_loop max_children ds sequence
      else sequence_loop max_children ds (sequence ++ (count ∷ [])))

-- `compute_children_sequence`, without a second repeat.
unfoldable pub compute_children_sequence : ℕ → ℕ → Result (List ℕ)
unfolding sequence_loop count_down
compute_children_sequence max_children num_repeats =
    let capped = if ltb max_children num_repeats then max_children else num_repeats in
    let n = if ltb capped 1 then 1 else capped in
    sequence_loop max_children (max_children ∷ count_down (n - 1)) []

-- Python's whole numbers, for a difference of two memory readings.
pub data ℤ : Type 0 where
  pos : ℕ → ℤ
  negsuc : ℕ → ℤ

abbrev pub minus : ℕ → ℕ → ℤ
minus a b = if leb b a then pos (a - b) else negsuc (b - a - 1)

pub data SkipReason : Type 0 where
  disabled no_module : SkipReason

-- `TypeResult`, but the time.
pub data TypeResult : Type 0 where
  skipped : (type_name : TypeName) (reason : SkipReason) → TypeResult
  measured : (type_name : TypeName) (num_keys total_elements : ℕ) (memory_bytes : ℤ) → TypeResult

-- The server: its memory, and what the populate function of a type does and returns.
module _ (Server : Type 0) (used_memory : Server → ℕ)
    (populate : TypeName → TypeConfig → Server → Result (ℕ × Server)) where
  -- The loop of `benchmark_instance` over the types, from the last reading on. The types are taken
  -- to be listed once each: `results`, here a list in their order, is a dict by the type's name.
  unfoldable pub instance_loop :
      Configs → Bool → List TypeName → ℕ → Server → Result (List TypeResult × Server)
  instance_loop configs has_json [] prev_mem server = ok ([], server)
  instance_loop configs has_json (t ∷ ts) prev_mem server =
      if not (configs t).enabled
      then (do
        (rest, after) ← instance_loop configs has_json ts prev_mem server
        ok (skipped t SkipReason.disabled ∷ rest, after))
      else (if same_type t TypeName.json && not has_json
          then (do
            (rest, after) ← instance_loop configs has_json ts prev_mem server
            ok (skipped t SkipReason.no_module ∷ rest, after))
          else (do
            (num_keys, filled) ← populate t (configs t) server
            let final_mem = used_memory filled
            let total_elements =
                if same_type t TypeName.strings then num_keys else num_keys * (configs t).num_fields
            (rest, after) ← instance_loop configs has_json ts final_mem filled
            ok (measured t num_keys total_elements (minus final_mem prev_mem) ∷ rest, after)))
