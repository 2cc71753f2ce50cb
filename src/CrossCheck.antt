-- ===== src/CrossCheck.antt =====
-- fqdnrules/go-benchmark/crosscheck_python.py: a fixed set of rules, a fixed set of queries, and the
-- answers that both implementations of the store have to give. The keys of the two namespaces are
-- taken as deleted: that is the flushed server of the theorem.
pub mod Golden
use Prim.Native.String.{String}
use fun_with_dragonfly_db.Prelude.{
  ℕ, Bool, true, false, ◌&&◌, not, Option, none, some, List, [], ◌∷◌, ◌++◌, map, ltb, if◌then◌else◌,
  Text, codes, contains, Result, ok, ◌>>=◌, is_ok,
}
use fun_with_dragonfly_db.Pattern.{
  WildcardScope, single, multi, both, MatchMode, single_level, multi_level, normalize_fqdn,
}
use fun_with_dragonfly_db.Redis.{Redis}
use fun_with_dragonfly_db.Router.{Rule, Match, RuleStore, open_store, put_many, lookup}

abbrev pub check_namespace : Text
check_namespace = codes "xpy"

-- `Rule(f1, port, f2, rid, WildcardScope(scope))`
abbrev pub make_rule : String → ℕ → String → String → WildcardScope → Rule
make_rule f1 port f2 rid scope = record {
  fqdn1 = codes f1;
  port = port;
  fqdn2 = codes f2;
  rule_id = codes rid;
  scope = scope;
}

-- `RULES`
abbrev pub rules : List Rule
rules =
    make_rule "api.foo.com" 443 "backend-api.foo.com" "r-exact" both
    ∷ make_rule "api.foo.com" 443 "*" "r-exact-any" both
    ∷ make_rule "*.corp.dragonfly.com" 443 "retailer.com" "r-corp-exact" both
    ∷ make_rule "*.corp.dragonfly.com" 443 "*.com" "r-corp-wild" both
    ∷ make_rule "*.dragonfly.com" 443 "retailer.com" "r-broad" both
    ∷ make_rule "*.dragonfly.com" 443 "*" "r-tls-strict" single
    ∷ make_rule "*.deep.example.org" 443 "*" "r-deep-only" multi
    ∷ make_rule "*.com" 8443 "*.net" "r-tld" both
    ∷ make_rule "*" 443 "catch-all.example.com" "r-global" both
    ∷ make_rule "*" 80 "*" "r-global-any" both
    ∷ make_rule "host1.beta.co" 8443 "*.beta.co" "r-beta" both
    ∷ make_rule "host9.gamma.io" 8443 "backend9.gamma.io" "r-exact-multi-scope" multi
    ∷ []

pub record CheckQuery : Type 0 where
  pub fqdn1 : Text
  pub port : ℕ
  pub fqdn2 : Text
  pub mode : MatchMode

abbrev pub make_query : String → ℕ → String → MatchMode → CheckQuery
make_query f1 port f2 mode = record { fqdn1 = codes f1; port = port; fqdn2 = codes f2; mode = mode }

-- `BUCKET_PROBES`
abbrev pub bucket_probes : List String
bucket_probes =
    "shop.omega.com" ∷ "api.omega.net" ∷ "www.kappa.org" ∷ "portal.sigma.dev" ∷ "mail.lambda.io"
    ∷ []

-- `QUERIES`
abbrev pub check_queries : List CheckQuery
check_queries =
    (make_query "api.foo.com" 443 "backend-api.foo.com" single_level
      ∷ make_query "api.foo.com" 443 "backend-api.foo.com" multi_level
      ∷ make_query "api.foo.com" 443 "whatever.xyz" multi_level
      ∷ make_query "api.foo.com" 8080 "backend-api.foo.com" multi_level
      ∷ make_query "console.corp.dragonfly.com" 443 "retailer.com" single_level
      ∷ make_query "console.corp.dragonfly.com" 443 "shop.com" single_level
      ∷ make_query "console.corp.dragonfly.com" 443 "retailer.com" multi_level
      ∷ make_query "a.console.corp.dragonfly.com" 443 "retailer.com" single_level
      ∷ make_query "a.console.corp.dragonfly.com" 443 "retailer.com" multi_level
      ∷ make_query "host1.dragonfly.com" 443 "anything.net" multi_level
      ∷ make_query "host1.dragonfly.com" 443 "anything.net" single_level
      ∷ make_query "a.b.dragonfly.com" 443 "anything.net" multi_level
      ∷ make_query "x.deep.example.org" 443 "zzz.net" multi_level
      ∷ make_query "a.x.deep.example.org" 443 "zzz.net" multi_level
      ∷ make_query "a.x.deep.example.org" 443 "zzz.net" single_level
      ∷ make_query "shop.omega.com" 8443 "mail.gamma.net" multi_level
      ∷ make_query "shop.omega.com" 8443 "mail.gamma.net" single_level
      ∷ make_query "anything.invalid" 443 "catch-all.example.com" multi_level
      ∷ make_query "localhost" 443 "catch-all.example.com" multi_level
      ∷ make_query "host1.beta.co" 8443 "www.beta.co" multi_level
      ∷ make_query "host1.beta.co" 8443 "host1.beta.co" multi_level
      ∷ make_query "nomatch1.unknown.invalid" 8080 "nomatch1.invalid" multi_level
      ∷ make_query "API.FOO.COM." 443 "Backend-Api.Foo.Com" multi_level
      ∷ make_query "host9.gamma.io" 8443 "backend9.gamma.io" multi_level
      ∷ [])
    ++ map (λ probe. make_query probe 80 "anything.at.all" multi_level) bucket_probes

module _ (redis : Redis) where
  -- The loop over the queries.
  unfoldable pub run_queries : RuleStore → List CheckQuery → redis.Db → Result (List (Option Match))
  run_queries store [] db = ok []
  run_queries store (q ∷ qs) db = do
    answer ← lookup redis store q.fqdn1 q.port q.fqdn2 q.mode db
    answers ← run_queries store qs db
    ok (answer ∷ answers)

  -- `main`, from the new store on: the results that it writes to the file.
  unfoldable pub crosscheck : ℕ → redis.Db → Result (List (Option Match))
  unfolding run_queries
  crosscheck num_buckets db = do
    store ← open_store redis check_namespace num_buckets db
    db' ← put_many redis store rules db
    run_queries store check_queries db'
