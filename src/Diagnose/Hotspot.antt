-- ===== src/Diagnose/Hotspot.antt =====
-- The load of fqdnrules/diagnose_router_hotspot.py: the rules that it writes, and the lookups of its
-- workers. The clock that ends a worker's loop is a number of rounds.
pub mod Hits
use fun_with_dragonfly_db.Prelude.{
  ℕ, zero, suc, ◌+◌, ◌*◌, ◌%◌, ◌==◌, List, [], ◌∷◌, ◌++◌, Option, if◌then◌else◌, Text, codes,
  decimal, Result, ok, err, zero_division_error, ◌>>=◌, ◌>>◌, raise_if,
}
use fun_with_dragonfly_db.Pattern.{WildcardScope, MatchMode}
use fun_with_dragonfly_db.Redis.{Redis}
use fun_with_dragonfly_db.Router.{Rule, RuleStore, Match, put_many, lookup}

-- f".svc.hotspotdiag{i}.com"
unfoldable pub zone_of : ℕ → Text
zone_of i = codes ".svc.hotspotdiag" ++ (decimal i ++ codes ".com")

abbrev pub dest_zone : Text
dest_zone = codes ".dest.example.com"

unfoldable pub domain_rule : ℕ → ℕ → Rule
domain_rule port i = record {
  fqdn1 = codes "*" ++ zone_of i;
  port = port;
  fqdn2 = codes "*" ++ dest_zone;
  rule_id = codes "rule:" ++ decimal i;
  scope = WildcardScope.both;
}

-- The comprehension over `range(num_domains)`, from `i` on.
unfoldable pub domain_rules : ℕ → ℕ → ℕ → List Rule
domain_rules port i zero = []
domain_rules port i (suc rounds) = domain_rule port i ∷ domain_rules port (suc i) rounds

abbrev pub global_rule : ℕ → Rule
global_rule port = record {
  fqdn1 = codes "*";
  port = port;
  fqdn2 = codes "*";
  rule_id = codes "rule:global";
  scope = WildcardScope.both;
}

module _ (redis : Redis) (store : RuleStore) where
  unfoldable pub setup_rules : ℕ → ℕ → redis.Db → Result redis.Db
  unfolding domain_rules
  setup_rules num_domains port db =
      put_many redis store (domain_rules port 0 num_domains ++ (global_rule port ∷ [])) db

  -- One round of `worker`: `%` raises for a count of 0.
  unfoldable pub worker_lookup : ℕ → ℕ → MatchMode → ℕ → ℕ → redis.Db → Result (Option Match)
  worker_lookup num_domains port mode idx n db = do
    raise_if (num_domains == 0) zero_division_error
    let i = (idx * 7919 + n) % num_domains
    lookup redis store (codes "probe" ++ zone_of i) port (codes "probe" ++ dest_zone) mode db

  -- The rounds of a worker from `n` on: the count that it returns.
  unfoldable pub worker : ℕ → ℕ → MatchMode → ℕ → ℕ → ℕ → redis.Db → Result ℕ
  unfolding worker_lookup
  worker num_domains port mode idx n zero db = ok n
  worker num_domains port mode idx n (suc rounds) db = do
    answer ← worker_lookup num_domains port mode idx n db
    worker num_domains port mode idx (suc n) rounds db
