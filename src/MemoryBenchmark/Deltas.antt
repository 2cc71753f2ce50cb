-- ===== src/MemoryBenchmark/Deltas.antt =====
-- The memory that benchmark_instance of memoryBenchmarkScript/memory_benchmark.py ascribes to the types.
use fun_with_dragonfly_db.Prelude.{
  ℕ, suc, ◌+◌, ◌*◌, ◌≡◌, refl, ap, inl, inr, Bool, Bool-cases, not, ◌&&◌, List, [], ◌∷◌, map,
  if◌then◌else◌, arith, Result, ok,
}
use fun_with_dragonfly_db.MemoryBenchmark.{TypeConfig}
use fun_with_dragonfly_db.MemoryBenchmark.Config.{TypeName, Configs, same_type}
use fun_with_dragonfly_db.MemoryBenchmark.Sweep.{
  ℤ, pos, negsuc, minus, SkipReason, TypeResult, skipped, measured, instance_loop,
}

-- What a difference adds, and what it takes away.
abbrev pub gain : ℤ → ℕ
gain (pos n) = n
gain (negsuc n) = 0

abbrev pub loss : ℤ → ℕ
loss (pos n) = 0
loss (negsuc n) = suc n

minus-balance : (a b : ℕ) → b + gain (minus a b) ≡ a + loss (minus a b)
minus-balance a b = ground arith

-- The growth and the shrinking that the results report.
unfoldable pub gains : List TypeResult → ℕ
gains [] = 0
gains (skipped t reason ∷ results) = gains results
gains (measured t keys elements bytes ∷ results) = gain bytes + gains results

unfoldable pub losses : List TypeResult → ℕ
losses [] = 0
losses (skipped t reason ∷ results) = losses results
losses (measured t keys elements bytes ∷ results) = loss bytes + losses results

abbrev pub type_of : TypeResult → TypeName
type_of (skipped t reason) = t
type_of (measured t keys elements bytes) = t

module _ (Server : Type 0) (used_memory : Server → ℕ)
    (populate : TypeName → TypeConfig → Server → Result (ℕ × Server)) where
  -- What a run of the loop tells.
  abbrev pub IsAccount : List TypeName → List TypeResult → Server → Server → Type 0
  IsAccount ts results server after =
      (map type_of results ≡ ts)
      × (used_memory server + gains results ≡ used_memory after + losses results)

  -- Every populate function returns.
  abbrev pub IsPopulating : Type 0
  IsPopulating =
      (t : TypeName) (config : TypeConfig) (server : Server)
      → (num_keys : ℕ) × (filled : Server) × (populate t config server ≡ ok (num_keys, filled))

  -- The memory is accounted for in full. With populate functions that return, the loop returns one
  -- result for each type, in their order, and the differences that it reports add up to the
  -- difference between the last and the first reading of the server's memory: what a type that is
  -- skipped leaves in place is ascribed to no type, and nothing is counted twice.
  pub instance_loop-IsAccount :
      (configs : Configs) (has_json : Bool) (ts : List TypeName) (server : Server)
      → IsPopulating
      → (results : List TypeResult) × (after : Server) × (instance_loop Server used_memory populate
            configs has_json ts
            (used_memory server)
            server
          ≡ ok (results, after))
        × IsAccount ts results server after
  unfolding instance_loop gains losses
  instance_loop-IsAccount configs has_json [] server populates = ([], server, refl, (refl, refl))
  instance_loop-IsAccount configs has_json (t ∷ ts) server populates =
      elim (Bool-cases (not (configs t).enabled)) [
        | inl e ↦
            let (rest, after, r, (same, balance)) =
              instance_loop-IsAccount configs has_json ts server populates in
            (
              skipped t SkipReason.disabled ∷ rest,
              after,
              rw (e, r) refl,
              (ap (λ names. t ∷ names) same, balance),
            )
        | inr e ↦ elim (Bool-cases (same_type t TypeName.json && not has_json)) [
          | inl f ↦
              let (rest, after, r, (same, balance)) =
                instance_loop-IsAccount configs has_json ts server populates in
              (
                skipped t SkipReason.no_module ∷ rest,
                after,
                rw (e, f, r) refl,
                (ap (λ names. t ∷ names) same, balance),
              )
          | inr f ↦
              let (num_keys, filled, p) = populates t (configs t) server in
              let (rest, after, r, (same, balance)) =
                instance_loop-IsAccount configs has_json ts filled populates in
              let elements =
                if same_type t TypeName.strings
                then num_keys
                else num_keys * (configs t).num_fields in
              let step = minus-balance (used_memory filled) (used_memory server) in
              (
                measured t num_keys elements (minus (used_memory filled) (used_memory server))
                    ∷ rest,
                after,
                rw (e, f, p, r) refl,
                (ap (λ names. t ∷ names) same, omega arith),
              )
        ]
      ]
