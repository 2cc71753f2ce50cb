-- ===== src/Tests/BenchmarkTests.antt =====
-- Examples for fqdnrules/benchmark.py.
use fun_with_dragonfly_db.Prelude.{ℕ, ◌+◌, ◌≡◌, refl, some, List, [], ◌∷◌, arith, codes, ok}
use fun_with_dragonfly_db.Benchmark.{
  DepthTier, Random, build_key_sizes, rule_layout, accumulate, key_for_rule, Query,
  write_queries_to_file, read_queries_from_file,
}
use fun_with_dragonfly_db.Benchmark.Layout.{
  sum, IsPlace, key_for_rule-IsPlace, IsRandom, AreRanges, IsPartition, build_key_sizes-IsPartition,
}
use fun_with_dragonfly_db.Slots.{bisect_right}
use fun_with_dragonfly_db.Benchmark.QueryFile.{read-write_queries}

abbrev sizes : List ℕ
sizes = 3 ∷ 1 ∷ 4 ∷ []

key_for_rule-IsPlace_example :
    IsPlace sizes 4 (key_for_rule (rule_layout sizes) 4).0 (key_for_rule (rule_layout sizes) 4).1
key_for_rule-IsPlace_example = key_for_rule-IsPlace sizes 4 (unfold sum in omega arith)

-- The fifth rule is the first of the third key.
place_of_rule_4 : key_for_rule (rule_layout sizes) 4 ≡ (2, 0)
unfolding key_for_rule rule_layout accumulate bisect_right
place_of_rule_4 = refl

-- A generator that counts, always picks one tier, and draws its lower bound.
abbrev tier : DepthTier ℕ
tier = record { weight = 50; min_size = 3; max_size = 7 }

abbrev counter : Random ℕ
counter = record {
  Rng = ℕ;
  choice = λ tiers ws rng. (tier, rng + 1);
  randint = λ lo hi rng. (lo, rng + 1);
}

counter-IsRandom : IsRandom counter (tier ∷ [])
counter-IsRandom = record { chosen = λ rng. (0, refl); between = λ lo hi rng h. (omega arith, h) }

one_tier-AreRanges : AreRanges (tier ∷ [])
one_tier-AreRanges = ((omega arith, omega arith), tt)

build_key_sizes-IsPartition_example :
    (ss : List ℕ) × (build_key_sizes counter (tier ∷ []) 10 0 ≡ some ss) × IsPartition counter 10 ss
build_key_sizes-IsPartition_example =
    build_key_sizes-IsPartition counter (tier ∷ []) counter-IsRandom one_tier-AreRanges 10 0

abbrev queries : List Query
queries = (codes "a.com", 443, codes "b.org") ∷ (codes "c.com", 80, codes "d.org") ∷ []

read-write_queries_example : read_queries_from_file (write_queries_to_file queries 1) 1 ≡ ok queries
read-write_queries_example = read-write_queries queries 1 1 (omega arith) (
  record {
    no_tab1 = omega arith;
    no_newline1 = omega arith;
    no_return1 = omega arith;
    no_tab2 = omega arith;
    no_newline2 = omega arith;
    no_return2 = omega arith;
  },
  (
    record {
      no_tab1 = omega arith;
      no_newline1 = omega arith;
      no_return1 = omega arith;
      no_tab2 = omega arith;
      no_newline2 = omega arith;
      no_return2 = omega arith;
    },
    tt,
  ),
)
