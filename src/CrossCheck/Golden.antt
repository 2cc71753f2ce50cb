-- ===== src/CrossCheck/Golden.antt =====
-- The answers of fqdnrules/go-benchmark/crosscheck_python.py, for every bucket count.
use Prim.Native.String.{String}
use fun_with_dragonfly_db.Prelude.{
  ℕ, ◌<◌, ◌≡◌, refl, ◌∙◌, Bool, true, false, ◌&&◌, not, Option, none, some, List, [], ◌∷◌, ltb,
  ltb→lt, arith, All, Text, Lacks, codes, contains, contains→Lacks, split, Result, ok, err, ◌>>=◌,
  is_ok, is_ok→value,
}
use fun_with_dragonfly_db.Pattern.{
  parent_fields, deep_fields, normalize_fqdn, clean_up, strip_end, strip_front, field_candidates,
}
use fun_with_dragonfly_db.Redis.{Redis}
use fun_with_dragonfly_db.Router.{Match, RuleStore, colon, open_store, put_many, to_match}
use fun_with_dragonfly_db.Router.Keys.{IsUsable}
use fun_with_dragonfly_db.Router.History.{IsLegalRule, IsFlushed, flushed-Agrees, put_many-Agrees}
use fun_with_dragonfly_db.Router.Refines.{Agrees, lookup-table_match}
use fun_with_dragonfly_db.Router.Table.{RuleTable, no_rules, register_all, change, table_match}
use fun_with_dragonfly_db.CrossCheck.{
  check_namespace, rules, CheckQuery, check_queries, run_queries, crosscheck,
}

abbrev hit : String → String → ℕ → String → ℕ → ℕ → Option Match
hit id p1 port p2 rank1 rank2 = some (record {
  rule_id = codes id;
  fqdn1_pattern = codes p1;
  port = port;
  fqdn2_pattern = codes p2;
  specificity = (rank1, rank2);
})

-- What each query has to answer.
abbrev pub golden : List (Option Match)
golden =
    hit "r-exact" "api.foo.com" 443 "backend-api.foo.com" 0 0
    ∷ hit "r-exact" "api.foo.com" 443 "backend-api.foo.com" 0 0
    ∷ hit "r-exact-any" "api.foo.com" 443 "*" 0 255
    ∷ none
    ∷ hit "r-corp-exact" "*.corp.dragonfly.com" 443 "retailer.com" 1 0
    ∷ hit "r-corp-wild" "*.corp.dragonfly.com" 443 "*.com" 1 1
    ∷ hit "r-corp-exact" "*.corp.dragonfly.com" 443 "retailer.com" 1 0
    ∷ none
    ∷ hit "r-corp-exact" "*.corp.dragonfly.com" 443 "retailer.com" 2 0
    ∷ hit "r-tls-strict" "*.dragonfly.com" 443 "*" 1 255
    ∷ hit "r-tls-strict" "*.dragonfly.com" 443 "*" 1 255
    ∷ none
    ∷ none
    ∷ hit "r-deep-only" "*.deep.example.org" 443 "*" 2 255
    ∷ none
    ∷ hit "r-tld" "*.com" 8443 "*.net" 2 2
    ∷ none
    ∷ hit "r-global" "*" 443 "catch-all.example.com" 255 0
    ∷ hit "r-global" "*" 443 "catch-all.example.com" 255 0
    ∷ hit "r-beta" "host1.beta.co" 8443 "*.beta.co" 0 1
    ∷ hit "r-beta" "host1.beta.co" 8443 "*.beta.co" 0 1
    ∷ none
    ∷ hit "r-exact" "api.foo.com" 443 "backend-api.foo.com" 0 0
    ∷ hit "r-exact-multi-scope" "host9.gamma.io" 8443 "backend9.gamma.io" 0 0
    ∷ hit "r-global-any" "*" 80 "*" 255 255
    ∷ hit "r-global-any" "*" 80 "*" 255 255
    ∷ hit "r-global-any" "*" 80 "*" 255 255
    ∷ hit "r-global-any" "*" 80 "*" 255 255
    ∷ hit "r-global-any" "*" 80 "*" 255 255
    ∷ []

-- A query's normalized names.
pub record IsNamed (q : CheckQuery) : Type 0 where
  pub name1 : Text
  pub name2 : Text
  pub normal1 : normalize_fqdn q.fqdn1 ≡ ok name1
  pub normal2 : normalize_fqdn q.fqdn2 ≡ ok name2
  pub clean : Lacks colon name1
  pub positive : 0 < q.port
  pub below : q.port < 65536

-- What a table answers to a query.
unfoldable answer_of : RuleTable → CheckQuery → Result (Option Match)
answer_of table q = do
  name1 ← normalize_fqdn q.fqdn1
  name2 ← normalize_fqdn q.fqdn2
  ok (to_match q.port (table_match table q.port name1 name2 q.mode))

unfoldable answers_of : RuleTable → List CheckQuery → Result (List (Option Match))
unfolding answer_of
answers_of table [] = ok []
answers_of table (q ∷ qs) = do
  answer ← answer_of table q
  answers ← answers_of table qs
  ok (answer ∷ answers)

unfoldable has_name : Text → Bool
has_name f = is_ok (normalize_fqdn f)

no_colon : Result Text → Bool
no_colon r = elim r [ ok name ↦ not (contains name colon) | err e ↦ false ]

unfoldable is_named : CheckQuery → Bool
unfolding no_colon has_name
is_named q =
    (no_colon (normalize_fqdn q.fqdn1) && has_name q.fqdn2) && (ltb 0 q.port && ltb q.port 65536)

all_named : List CheckQuery → Bool
unfolding is_named
all_named [] = true
all_named (q ∷ qs) = is_named q && all_named qs

clean_name :
    (r : Result Text) → no_colon r ≡ true → (name : Text) × (r ≡ ok name) × Lacks colon name
unfolding no_colon
clean_name (ok name) h = (name, refl, contains→Lacks name colon (ground arith))
clean_name (err e) h = absurd (cc)

both_true : (a b : Bool) → (a && b) ≡ true → (a ≡ true) × (b ≡ true)
both_true true b h = (refl, h)
both_true false b h = absurd (cc)

is_named-IsNamed : (q : CheckQuery) → is_named q ≡ true → IsNamed q
unfolding is_named has_name
is_named-IsNamed q h =
    let (names, ports) = both_true _ _ h in
    let (h1, h2) = both_true _ _ names in
    let (above, below) = both_true _ _ ports in
    let (n1, e1, c) = clean_name (normalize_fqdn q.fqdn1) h1 in
    let (n2, e2) = is_ok→value (normalize_fqdn q.fqdn2) h2 in
    record {
      name1 = n1;
      name2 = n2;
      normal1 = e1;
      normal2 = e2;
      clean = c;
      positive = ltb→lt 0 q.port above;
      below = ltb→lt q.port 65536 below;
    }

module _ (redis : Redis) (store : RuleStore) (usable : IsUsable store) (table : RuleTable)
    (db : redis.Db) (agrees : Agrees redis store usable db table) where
  run_queries-answers_of :
      (qs : List CheckQuery)
      → all_named qs ≡ true
      → run_queries redis store qs db ≡ answers_of table qs
  unfolding run_queries answers_of all_named answer_of
  run_queries-answers_of [] h = refl
  run_queries-answers_of (q ∷ qs) h =
      let v = is_named-IsNamed q (ground arith) in
      rw
        (
          lookup-table_match redis store usable table db q.fqdn1 q.fqdn2 v.name1 v.name2 q.port
              q.mode agrees v.normal1 v.normal2 v.clean v.positive v.below,
          v.normal1,
          v.normal2,
          run_queries-answers_of qs (ground arith),
        )
        refl

queries_named : all_named check_queries ≡ true
unfolding all_named normalize_fqdn split clean_up strip_end strip_front
queries_named = refl

golden_answers : answers_of (register_all rules no_rules) check_queries ≡ ok golden
unfolding answers_of normalize_fqdn split clean_up strip_end strip_front table_match change
    field_candidates parent_fields deep_fields
golden_answers = refl

rules_legal : All IsLegalRule rules
rules_legal = omega arith

open_flushed :
    (redis : Redis) (num_buckets : ℕ) (db : redis.Db)
    → IsFlushed redis db
    → open_store redis check_namespace num_buckets db
      ≡ ok (record { namespace = check_namespace; num_buckets = num_buckets })
unfolding open_store
open_flushed redis num_buckets db flushed = rw (flushed _ _) refl

-- The run of `main` after the writes.
written_golden :
    (redis : Redis) (store : RuleStore) (usable : IsUsable store) (db : redis.Db)
    → (db' : redis.Db) × (put_many redis store rules db ≡ ok db')
      × Agrees redis store usable db' (register_all rules no_rules)
    → (put_many redis store rules db >>= λ db'. run_queries redis store check_queries db')
      ≡ ok golden
written_golden redis store usable db (db', e, agrees) = rw (e) (
    run_queries-answers_of redis store usable (register_all rules no_rules) db' agrees check_queries
      queries_named
    ∙ golden_answers)

-- On a flushed server, and with any bucket count that has a token table, the cross check writes
-- exactly the golden answers: each of its rules and queries behaves as intended, and the bucket
-- count is not seen.
pub crosscheck-golden :
    (redis : Redis) (num_buckets : ℕ) (db : redis.Db)
    → IsUsable (record { namespace = check_namespace; num_buckets = num_buckets })
    → IsFlushed redis db
    → crosscheck redis num_buckets db ≡ ok golden
unfolding crosscheck
crosscheck-golden redis num_buckets db usable flushed =
    let store : RuleStore = record { namespace = check_namespace; num_buckets = num_buckets } in
    rw (open_flushed redis num_buckets db flushed) (
      written_golden redis store usable db (
        put_many-Agrees redis store usable no_rules rules db rules_legal
          (flushed-Agrees redis store usable db flushed)))
