-- ===== src/Histogram/Intervals.antt =====
-- What the counts of memoryBenchmarkScript/keyspace_size_histogram.py count.
use fun_with_dragonfly_db.Prelude.{
  ℕ, ◌+◌, ◌≡◌, refl, ◌∙◌, Bool, true, false, ◌&&◌, Option, none, some, List, [], ◌∷◌, leb, ltb,
  if◌then◌else◌, arith, Result, ok, err,
}
use fun_with_dragonfly_db.Histogram.{
  Bin, up_to, large, same_bin, Histogram, buckets, bump, place, tally_keys, printed_counts,
  empty_histogram,
}

-- The sizes of the keys that were measured.
unfoldable pub measured : List (Result (Option ℕ)) → List ℕ
measured [] = []
measured (err raised ∷ usages) = measured usages
measured (ok none ∷ usages) = measured usages
measured (ok (some size) ∷ usages) = size ∷ measured usages

-- How many of them pass a test.
unfoldable pub number_of : (ℕ → Bool) → List ℕ → ℕ
number_of test [] = 0
number_of test (size ∷ sizes) = let n = number_of test sizes in if test size then n + 1 else n

bump-bin :
    (bin at : Bin) (histogram : Histogram)
    → bump at histogram bin ≡ (if same_bin at bin then histogram bin + 1 else histogram bin)
unfolding bump
bump-bin bin at histogram = refl

one_more :
    (n m bumped : ℕ) (b : Bool)
    → bumped ≡ (if b then n + 1 else n)
    → bumped + m ≡ n + (if b then m + 1 else m)
one_more n m bumped true h = omega arith
one_more n m bumped false h = omega arith

-- A bin has what it had and the sizes whose place it is.
tally_keys-number_of :
    (bin : Bin) (test : ℕ → Bool) (usages : List (Result (Option ℕ))) (histogram : Histogram)
    → ((size : ℕ) → same_bin (place buckets size) bin ≡ test size)
    → tally_keys usages histogram bin ≡ histogram bin + number_of test (measured usages)
unfolding tally_keys measured number_of
tally_keys-number_of bin test [] histogram same = omega arith
tally_keys-number_of bin test (err raised ∷ usages) histogram same =
    tally_keys-number_of bin test usages histogram same
tally_keys-number_of bin test (ok none ∷ usages) histogram same =
    tally_keys-number_of bin test usages histogram same
tally_keys-number_of bin test (ok (some size) ∷ usages) histogram same =
    tally_keys-number_of bin test usages (bump (place buckets size) histogram) same
    ∙ one_more (histogram bin) (number_of test (measured usages)) _ (test size)
        (bump-bin bin (place buckets size) histogram ∙ rw (same size) refl)

-- Above one bound, and not above the next.
abbrev pub between : ℕ → ℕ → ℕ → Bool
between low high size = ltb low size && leb size high

-- A bin of the whole scan.
counted :
    (usages : List (Result (Option ℕ))) (bin : Bin) (test : ℕ → Bool)
    → ((size : ℕ) → same_bin (place buckets size) bin ≡ test size)
    → tally_keys usages empty_histogram bin ≡ number_of test (measured usages)
counted usages bin test same =
    tally_keys-number_of bin test usages empty_histogram same ∙ omega arith

placed :
    (size : ℕ)
    → (same_bin (place buckets size) (up_to 1024) ≡ leb size 1024)
      × (same_bin (place buckets size) (up_to 10240) ≡ between 1024 10240 size)
      × (same_bin (place buckets size) (up_to 102400) ≡ between 10240 102400 size)
      × (same_bin (place buckets size) (up_to 1048576) ≡ between 102400 1048576 size)
      × (same_bin (place buckets size) (up_to 10485760) ≡ between 1048576 10485760 size)
      × (same_bin (place buckets size) (up_to 104857600) ≡ between 10485760 104857600 size)
      × (same_bin (place buckets size) large ≡ ltb 104857600 size)
unfolding place
placed size = (
  ground arith,
  ground arith,
  ground arith,
  ground arith,
  ground arith,
  ground arith,
  ground arith,
)

-- The counts that are printed are the numbers of measured keys of each range: up to 1 KB, from there
-- to 10 KB, 100 KB, 1 MB, 10 MB and 100 MB, and above. Every measured key is in exactly one range,
-- and keys that are gone or raise are in none.
pub printed_counts-tally_keys :
    (usages : List (Result (Option ℕ)))
    → printed_counts (tally_keys usages empty_histogram)
      ≡ number_of (λ size. leb size 1024) (measured usages)
        ∷ number_of (between 1024 10240) (measured usages)
        ∷ number_of (between 10240 102400) (measured usages)
        ∷ number_of (between 102400 1048576) (measured usages)
        ∷ number_of (between 1048576 10485760) (measured usages)
        ∷ number_of (between 10485760 104857600) (measured usages)
        ∷ number_of (ltb 104857600) (measured usages)
        ∷ []
unfolding printed_counts
printed_counts-tally_keys usages =
    rw
      (
        counted usages (up_to 1024) (λ size. leb size 1024) (λ size. (placed size).0),
        counted usages (up_to 10240) (between 1024 10240) (λ size. (placed size).1),
        counted usages (up_to 102400) (between 10240 102400) (λ size. (placed size).2),
        counted usages (up_to 1048576) (between 102400 1048576) (λ size. (placed size).3),
        counted usages (up_to 10485760) (between 1048576 10485760) (λ size. (placed size).4),
        counted usages (up_to 104857600) (between 10485760 104857600) (λ size. (placed size).5),
        counted usages large (ltb 104857600) (λ size. (placed size).6),
      )
      refl
