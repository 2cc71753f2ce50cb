-- ===== src/Histogram.antt =====
-- memoryBenchmarkScript/keyspace_size_histogram.py: the sizes of a keyspace's keys in bins.
pub mod Intervals
use fun_with_dragonfly_db.Prelude.{
  ℕ, ◌+◌, Bool, true, false, Option, none, some, List, [], ◌∷◌, ◌++◌, map, leb, ltb, ◌==◌,
  if◌then◌else◌, Result, ok, err,
}

-- `BUCKETS`
abbrev pub buckets : List ℕ
buckets = 1024 ∷ 10240 ∷ 102400 ∷ 1048576 ∷ 10485760 ∷ 104857600 ∷ []

-- A key of `histogram`: a bound, or `'Large'`.
pub data Bin : Type 0 where
  up_to : (bound : ℕ) → Bin
  large : Bin

abbrev pub same_bin : Bin → Bin → Bool
same_bin (up_to a) (up_to b) = a == b
same_bin large large = true
same_bin a b = false

-- `defaultdict(int)`
abbrev pub Histogram : Type 0
Histogram = Bin → ℕ

abbrev pub empty_histogram : Histogram
empty_histogram bin = 0

unfoldable pub bump : Bin → Histogram → Histogram
bump bin histogram bin' = let n = histogram bin' in if same_bin bin bin' then n + 1 else n

-- The loop over the bounds: the first that the size does not exceed.
unfoldable pub place : List ℕ → ℕ → Bin
place [] size = large
place (b ∷ bs) size = let rest = place bs size in if leb size b then up_to b else rest

-- The loop over the keys, on what `memory_usage` answers for each: a size, None for a key that is
-- gone, or an exception.
unfoldable pub tally_keys : List (Result (Option ℕ)) → Histogram → Histogram
unfolding place bump
tally_keys [] histogram = histogram
tally_keys (err raised ∷ usages) histogram = tally_keys usages histogram
tally_keys (ok none ∷ usages) histogram = tally_keys usages histogram
tally_keys (ok (some size) ∷ usages) histogram =
    tally_keys usages (bump (place buckets size) histogram)

-- The counts that are printed.
unfoldable pub printed_counts : Histogram → List ℕ
printed_counts histogram = map (λ b. histogram (up_to b)) buckets ++ (histogram large ∷ [])

-- `"█" * min(count, 40)`
unfoldable pub bar_length : ℕ → ℕ
bar_length count = if leb count 40 then count else 40
