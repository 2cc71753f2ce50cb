-- ===== src/MemoryBenchmark/Flushes.antt =====
-- Pipelining in memoryBenchmarkScript/memory_benchmark.py: no command is lost or sent twice, and a
-- pipeline stays small.
use native.Mathlib.Nat.{div-eq_of_lt}
use fun_with_dragonfly_db.Prelude.{
  ℕ, zero, suc, ◌+◌, ◌/◌, ◌%◌, ◌<◌, ◌≡◌, refl, ap, ◌∙◌, inl, inr, List, [], ◌∷◌, ◌++◌, append_assoc,
  arith, le→ltb-false, ◌==◌, Bool-cases, Text, codes, ok, err, zero_division_error,
}
use fun_with_dragonfly_db.MemoryBenchmark.{
  TypeConfig, Command, populate_loop, populate_streams, stream_commands, at_least_one, numbered,
}

-- The commands for the keys `i` to `i + rounds - 1`, one key after the other.
unfoldable pub commands_from : (ℕ → List Command) → ℕ → ℕ → List Command
commands_from commands i zero = []
commands_from commands i (suc rounds) = commands i ++ commands_from commands (suc i) rounds

unfoldable pub concat : List (List Command) → List Command
concat [] = []
concat (b ∷ bs) = b ++ concat bs

module _ (commands : ℕ → List Command) where
  -- With a period that is not zero, the loop sends every queued command, and the commands of every
  -- key, exactly once and in order, whatever the flushes.
  pub populate_loop-concat :
      (every i rounds : ℕ) (queued : List Command)
      → 0 < every
      → (sent : List (List Command)) × (populate_loop commands every i rounds queued ≡ ok sent)
        × (concat sent ≡ queued ++ commands_from commands i rounds)
  unfolding populate_loop concat commands_from
  populate_loop-concat zero i rounds queued p = absurd (omega arith)
  populate_loop-concat (suc e) i zero queued p = (queued ∷ [], refl, refl)
  populate_loop-concat (suc e) i (suc rounds) queued p = elim (Bool-cases ((i + 1) % suc e == 0)) [
    | inl t ↦
        let (sent, found, all) = populate_loop-concat (suc e) (suc i) rounds [] p in
        (
          (queued ++ commands i) ∷ sent,
          rw (t, found),
          ap (λ s. (queued ++ commands i) ++ s) all
              ∙ append_assoc queued (commands i) (commands_from commands (suc i) rounds),
        )
    | inr t ↦
        let (sent, found, all) =
          populate_loop-concat (suc e) (suc i) rounds (queued ++ commands i) p in
        (
          sent,
          rw (t, found),
          all ∙ append_assoc queued (commands i) (commands_from commands (suc i) rounds),
        )
  ]

-- A benchmark of streams with more entries in each than a pipeline holds, and with a key to write,
-- raises a ZeroDivisionError.
pub populate_streams_zero :
    (draws : ℕ → ℕ → List Text) (cfg : TypeConfig) (key_prefix : Text) (ttl : ℕ)
    → 0 < cfg.num_keys
    → cfg.pipeline_batch < cfg.num_fields
    → populate_streams draws cfg key_prefix ttl ≡ err zero_division_error
unfolding populate_streams populate_loop
populate_streams_zero draws cfg key_prefix ttl some_key large =
    go cfg.num_keys some_key (cfg.pipeline_batch / at_least_one cfg.num_fields) zero_period
  where
    zero_period : cfg.pipeline_batch / at_least_one cfg.num_fields ≡ 0
    zero_period = rw (le→ltb-false cfg.num_fields 1 (omega arith)) (div-eq_of_lt large)

    go :
        (n : ℕ)
        → 0 < n
        → (every : ℕ) → every ≡ 0
        → populate_loop
            (stream_commands key_prefix ttl cfg.num_fields
              (numbered (codes "field") 1 (draws 2 cfg.value_size)))
            every
            0
            n
            []
          ≡ err zero_division_error
    go zero p every e = absurd (omega arith)
    go (suc n) p every e = rw e refl
