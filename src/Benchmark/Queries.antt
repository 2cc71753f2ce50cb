-- ===== src/Benchmark/Queries.antt =====
-- The query phase of fqdnrules/benchmark.py: the mix of hits and misses, and the serial run with its
-- ten samples. Latencies are left out; the random generator and the rounded count of hits are
-- parameters.
use fun_with_dragonfly_db.Prelude.{
  ℕ, zero, suc, ◌+◌, ◌-◌, ◌*◌, ◌/◌, ◌^◌, Bool, false, ◌||◌, List, [], ◌∷◌, ◌++◌, ◌==◌,
  if◌then◌else◌, length, Option, none, some, Text, codes, Result, ok, ◌>>=◌,
}
use fun_with_dragonfly_db.Pattern.{MatchMode}
use fun_with_dragonfly_db.Redis.{Redis}
use fun_with_dragonfly_db.Router.{RuleStore, Match, lookup}
use fun_with_dragonfly_db.Benchmark.{RuleLayout, Query, matching_query_for_index, miss_query}

-- The generator: `rng.randrange(n)`, `rng.randint(0, 2**31 - 1)` and `rng.shuffle`.
pub record QueryRandom : Type 1 where
  pub Rng : Type 0
  pub randrange : ℕ → Rng → ℕ × Rng
  pub randint : ℕ → ℕ → Rng → ℕ × Rng
  pub shuffle : List Query → Rng → List Query × Rng

module _ (random : QueryRandom) (layout : RuleLayout) where
  open random use {Rng, randrange, randint, shuffle}

  unfoldable pub draw_hits : ℕ → ℕ → Rng → List Query × Rng
  draw_hits num_rules zero rng = ([], rng)
  draw_hits num_rules (suc n) rng =
      let (i, rng1) = randrange num_rules rng in
      let (qs, rng2) = draw_hits num_rules n rng1 in (matching_query_for_index i layout ∷ qs, rng2)

  unfoldable pub draw_misses : ℕ → Rng → List Query × Rng
  draw_misses zero rng = ([], rng)
  draw_misses (suc n) rng =
      let (name, rng1) = randint 0 (2 ^ 31 - 1) rng in
      let (junk_apex, rng2) = randint 0 (2 ^ 31 - 1) rng1 in
      let (qs, rng3) = draw_misses n rng2 in (miss_query name junk_apex ∷ qs, rng3)

  -- `build_queries`, where `num_hits` is `round(num_queries * (1 - miss_rate))`.
  unfoldable pub build_queries : ℕ → ℕ → ℕ → Rng → List Query × Rng
  unfolding draw_hits draw_misses
  build_queries num_rules num_queries num_hits rng =
      let (hits, rng1) = draw_hits num_rules num_hits rng in
      let (misses, rng2) = draw_misses (num_queries - num_hits) rng1 in
      shuffle (hits ++ misses) rng2

-- `round(i * (num_queries - 1) / 9)`: nine is odd, so there is no tie.
unfoldable pub sample_index : ℕ → ℕ → ℕ
sample_index num_queries i = (2 * (i * (num_queries - 1)) + 9) / 18

-- `idx in sample_indices`, of those for `i` below the first argument.
unfoldable pub is_sampled : ℕ → ℕ → ℕ → Bool
unfolding sample_index
is_sampled zero num_queries idx = false
is_sampled (suc i) num_queries idx =
    sample_index num_queries i == idx || is_sampled i num_queries idx

-- `SampleResult`, but the latency.
pub record SampleResult : Type 0 where
  pub index : ℕ
  pub fqdn1 : Text
  pub port : ℕ
  pub fqdn2 : Text
  pub result : Text

-- `match.rule_id if match is not None else "MISS"`
abbrev pub result_text : Option Match → Text
result_text none = codes "MISS"
result_text (some m) = m.rule_id

module _ (redis : Redis) (store : RuleStore) (mode : MatchMode) (db : redis.Db) where
  -- The loop of `run_query_phase` with one worker, from the query `idx` on.
  unfoldable pub query_loop : ℕ → ℕ → List Query → Result (List SampleResult)
  unfolding is_sampled
  query_loop num_queries idx [] = ok []
  query_loop num_queries idx ((fqdn1, port, fqdn2) ∷ queries) = do
    answer ← lookup redis store fqdn1 port fqdn2 mode db
    samples ← query_loop num_queries (suc idx) queries
    ok (
        if is_sampled 10 num_queries idx
        then record {
          index = idx;
          fqdn1 = fqdn1;
          port = port;
          fqdn2 = fqdn2;
          result = result_text answer;
        }
          ∷ samples
        else samples)

  -- `run_query_phase` with a concurrency of 1.
  unfoldable pub run_query_phase : List Query → Result (List SampleResult)
  unfolding query_loop
  run_query_phase queries = query_loop (length queries) 0 queries
