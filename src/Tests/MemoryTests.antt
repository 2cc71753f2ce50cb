-- ===== src/Tests/MemoryTests.antt =====
-- Examples for memoryBenchmarkScript/memory_benchmark.py.
use fun_with_dragonfly_db.Prelude.{
  Option, ◌==◌, ℕ, ◌+◌, ◌*◌, ◌<◌, false, Result, ◌/◌, ◌≡◌, refl, true, if◌then◌else◌, List, [], ◌∷◌,
  ◌++◌, none, some, arith, Text, codes, ok, err, zero_division_error,
}
use fun_with_dragonfly_db.MemoryBenchmark.{
  TypeConfig, JsonDepth, Command, populate_loop, populate_streams, set_commands,
}
use fun_with_dragonfly_db.MemoryBenchmark.Config.{default_configs, TypeName, Args, same_type}
use fun_with_dragonfly_db.MemoryBenchmark.Flushes.{
  commands_from, concat, populate_loop-concat, populate_streams_zero,
}
use fun_with_dragonfly_db.MemoryBenchmark.Sweep.{
  pos, SkipReason, skipped, measured, TypeResult, mem_count, compute_children_sequence,
  instance_loop,
}
use fun_with_dragonfly_db.MemoryBenchmark.Counts.{IsSweep, compute_children_sequence-IsSweep}
use fun_with_dragonfly_db.MemoryBenchmark.Deltas.{IsAccount, instance_loop-IsAccount}
use fun_with_dragonfly_db.MemoryBenchmark.Report.{usable_bytes, sweep_rows}
use fun_with_dragonfly_db.MemoryBenchmark.Report.Steps.{
  first_memory, rows_for, sweep_rows-reference,
}

abbrev sets_of_k : ℕ → List Command
sets_of_k = set_commands (codes "k") (codes "v") 60

populate_loop-concat_example :
    (sent : List (List Command)) × (populate_loop sets_of_k 2 0 5 [] ≡ ok sent)
    × (concat sent ≡ [] ++ commands_from sets_of_k 0 5)
populate_loop-concat_example = populate_loop-concat sets_of_k 2 0 5 [] (omega arith)

abbrev long_streams : TypeConfig
long_streams = record {
  enabled = true;
  num_keys = 10;
  value_size = 32;
  num_fields = 6000;
  pipeline_batch = 5000;
  json_depth = JsonDepth.flat;
}

abbrev blanks : ℕ → ℕ → List Text
blanks n size = codes "x" ∷ codes "y" ∷ []

populate_streams_zero_example :
    populate_streams blanks long_streams (codes "stream") 3600 ≡ err zero_division_error
populate_streams_zero_example =
    populate_streams_zero blanks long_streams (codes "stream") 3600 (omega arith) (omega arith)

abbrev few_strings : Args
few_strings = record {
  scaled = some (λ n. n / 10);
  container_children_count = some 7;
  enable_json = true;
  key_override = λ t. if same_type t TypeName.strings then some 100 else none;
  all_depths = true;
  depth = JsonDepth.flat;
  value_size = some 9;
  field_override = λ t. none;
  pipeline_batch = none;
  types = [];
}

-- The first example of the docstring of compute_children_sequence, and the run of the third, whose
-- docstring has a 3 as well: `round` takes 2.5 to 2.
sequence_200_4 : compute_children_sequence 200 4 ≡ ok (1 ∷ 67 ∷ 100 ∷ 200 ∷ [])
unfolding compute_children_sequence
sequence_200_4 = refl

sequence_5_4 : compute_children_sequence 5 4 ≡ ok (1 ∷ 2 ∷ 5 ∷ [])
unfolding compute_children_sequence
sequence_5_4 = refl

compute_children_sequence-IsSweep_example :
    (out : List ℕ) × (compute_children_sequence 1000 10 ≡ ok out)
    × IsSweep 1000 out
    × (1 < 10 → mem_count 1000 out ≡ true)
compute_children_sequence-IsSweep_example = compute_children_sequence-IsSweep 999 10

-- A server that is the sum of what was written to it.
abbrev fill : TypeName → TypeConfig → ℕ → Result (ℕ × ℕ)
fill t config server = ok (config.num_keys, server + 64 * config.num_keys)

instance_loop-IsAccount_example :
    (results : List TypeResult) × (after : ℕ) × (instance_loop ℕ
        (λ server. server)
        fill
        default_configs
        false
        (TypeName.strings ∷ TypeName.json ∷ [])
        5000
        5000
      ≡ ok (results, after))
    × IsAccount ℕ (λ server. server) fill (TypeName.strings ∷ TypeName.json ∷ []) results 5000 after
instance_loop-IsAccount_example =
    instance_loop-IsAccount ℕ (λ server. server) fill default_configs false
      (TypeName.strings ∷ TypeName.json ∷ []) 5000
      (λ t config server. (config.num_keys, server + 64 * config.num_keys, refl))

-- Three steps, of which the second was skipped.
abbrev three_steps : ℕ → Option TypeResult
three_steps children =
    if children == 50
    then some (skipped TypeName.hashes SkipReason.disabled)
    else some (measured TypeName.hashes 10 (10 * children) (pos (320 * children)))

sweep_rows-reference_example :
    sweep_rows three_steps (1 ∷ 50 ∷ 100 ∷ []) none none
    ≡ rows_for
        (λ c. usable_bytes (three_steps c))
        none
        (first_memory (λ c. usable_bytes (three_steps c)) (1 ∷ 50 ∷ 100 ∷ []))
        (1 ∷ 50 ∷ 100 ∷ [])
sweep_rows-reference_example = sweep_rows-reference three_steps (1 ∷ 50 ∷ 100 ∷ [])
