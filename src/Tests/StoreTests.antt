-- ===== src/Tests/StoreTests.antt =====
-- Examples for the histories of fqdnrules/fqdn_router.py and the tools that use the store, on the
-- server in memory.
use fun_with_dragonfly_db.Prelude.{
  ℕ, ◌≡◌, refl, inl, inr, true, none, some, List, [], ◌∷◌, ◌++◌, decimal, arith, codes, split,
  length, ok, err, value_error,
}
use fun_with_dragonfly_db.Pattern.{
  hash_tag, is_bucketed_tag, WildcardScope, MatchMode, normalize_fqdn, clean_up, strip_end,
  strip_front,
}
use fun_with_dragonfly_db.Slots.Table.{compute_bucket_table_small}
use fun_with_dragonfly_db.Redis.Memory.{Hashes, memory, empty_hashes}
use fun_with_dragonfly_db.Router.{is_bucketed, RuleStore, Rule, to_match, put, lookup, open_store}
use fun_with_dragonfly_db.Router.Claim.{open_store-put}
use fun_with_dragonfly_db.Router.History.{
  Write, put_one, put_all, delete_one, apply_writes, run_writes, lookup-run_writes, lookup-buckets,
}
use fun_with_dragonfly_db.Router.Keys.{IsUsable}
use fun_with_dragonfly_db.Router.Table.{no_rules, table_match}
use fun_with_dragonfly_db.CrossCheck.{check_namespace, crosscheck}
use fun_with_dragonfly_db.CrossCheck.Golden.{golden, crosscheck-golden}
use fun_with_dragonfly_db.Benchmark.{
  rule_layout, rule_for_index, matching_query_for_index, miss_query, run_write_phase,
}
use fun_with_dragonfly_db.Benchmark.Found.{lookup-run_write_phase}
use fun_with_dragonfly_db.Benchmark.Missed.{lookup-miss_query}
use fun_with_dragonfly_db.Diagnose.Hotspot.{zone_of, dest_zone, setup_rules, worker_lookup}
use fun_with_dragonfly_db.Diagnose.Hotspot.Hits.{worker_lookup-setup_rules}

abbrev store_of : ℕ → RuleStore
store_of num_buckets = record { namespace = codes "store"; num_buckets = num_buckets }

four-IsUsable : IsUsable (store_of 4)
four-IsUsable =
    let (t, e, _) = compute_bucket_table_small 4 (omega arith) (omega arith) in inr (t, e)

one-IsUsable : IsUsable (store_of 1)
one-IsUsable = inl (omega arith)

abbrev exact_rule : Rule
exact_rule = record {
  fqdn1 = codes "host.example.com";
  port = 443;
  fqdn2 = codes "dest.org";
  rule_id = codes "rule:exact";
  scope = WildcardScope.both;
}

abbrev any_rule : Rule
any_rule = record {
  fqdn1 = codes "*";
  port = 443;
  fqdn2 = codes "*";
  rule_id = codes "rule:any";
  scope = WildcardScope.both;
}

abbrev history : List Write
history =
    put_all (exact_rule ∷ any_rule ∷ [])
    ∷ put_one exact_rule
    ∷ delete_one (codes "host.example.com") 443 (codes "dest.org")
    ∷ []

host_normal : normalize_fqdn (codes "Host.Example.com.") ≡ ok (codes "host.example.com")
unfolding normalize_fqdn split clean_up strip_end strip_front
host_normal = refl

dest_normal : normalize_fqdn (codes "dest.org") ≡ ok (codes "dest.org")
unfolding normalize_fqdn split clean_up strip_end strip_front
dest_normal = refl

lookup-run_writes_example :
    (db' : Hashes) × (run_writes memory (store_of 4) history empty_hashes ≡ ok db')
    × (lookup memory
          (store_of 4)
          (codes "Host.Example.com.")
          443
          (codes "dest.org")
          MatchMode.multi_level
          db'
        ≡ ok (
            to_match 443 (
              table_match
                (apply_writes history no_rules)
                443
                (codes "host.example.com")
                (codes "dest.org")
                MatchMode.multi_level)))
lookup-run_writes_example =
    lookup-run_writes memory (store_of 4) four-IsUsable history empty_hashes
      (codes "Host.Example.com.") (codes "dest.org") (codes "host.example.com") (codes "dest.org")
      443 MatchMode.multi_level (λ k f. refl) (omega arith) host_normal dest_normal (omega arith)
      (omega arith) (omega arith)

lookup-buckets_example :
    (db1 : Hashes) × (db2 : Hashes) × (run_writes memory (store_of 4) history empty_hashes ≡ ok db1)
    × (run_writes memory (store_of 1) history empty_hashes ≡ ok db2)
    × (lookup memory
          (store_of 4)
          (codes "Host.Example.com.")
          443
          (codes "dest.org")
          MatchMode.multi_level
          db1
        ≡ lookup memory
            (store_of 1)
            (codes "Host.Example.com.")
            443
            (codes "dest.org")
            MatchMode.multi_level
            db2)
lookup-buckets_example =
    lookup-buckets memory (store_of 4) (store_of 1) history empty_hashes (codes "Host.Example.com.")
      (codes "dest.org") (codes "host.example.com") (codes "dest.org") 443 MatchMode.multi_level
      four-IsUsable one-IsUsable (λ k f. refl) (omega arith) host_normal dest_normal (omega arith)
      (omega arith) (omega arith)

any_rule_bucketed : is_bucketed (store_of 4) (hash_tag any_rule.fqdn1) ≡ true
unfolding hash_tag is_bucketed is_bucketed_tag
any_rule_bucketed = refl

open_store-put_example :
    (db' : Hashes) × (put memory (store_of 4) any_rule empty_hashes ≡ ok db')
    × (open_store memory (codes "store") 8 db' ≡ err value_error)
open_store-put_example =
    open_store-put memory (store_of 4) any_rule 8 empty_hashes four-IsUsable any_rule_bucketed
      (omega arith) (omega arith)

check-IsUsable : IsUsable (record { namespace = check_namespace; num_buckets = 4 })
check-IsUsable = four-IsUsable

crosscheck-golden_example : crosscheck memory 4 empty_hashes ≡ ok golden
crosscheck-golden_example = crosscheck-golden memory 4 empty_hashes check-IsUsable (λ k f. refl)

abbrev sizes : List ℕ
sizes = 3 ∷ 1 ∷ 4 ∷ []

lookup-run_write_phase_example :
    (written : ℕ × ℕ × Hashes) × (run_write_phase memory
        (store_of 4)
        length
        (rule_layout sizes)
        8
        3
        empty_hashes
      ≡ ok written)
    × (lookup memory
          (store_of 4)
          (matching_query_for_index 5 (rule_layout sizes)).0
          (matching_query_for_index 5 (rule_layout sizes)).1
          (matching_query_for_index 5 (rule_layout sizes)).2
          MatchMode.single_level
          written.2
        ≡ ok (
            some (record {
              rule_id = (rule_for_index 5 (rule_layout sizes)).rule_id;
              fqdn1_pattern = (rule_for_index 5 (rule_layout sizes)).fqdn1;
              port = (rule_for_index 5 (rule_layout sizes)).port;
              fqdn2_pattern = (rule_for_index 5 (rule_layout sizes)).fqdn2;
              specificity = (1, 1);
            })))
lookup-run_write_phase_example =
    lookup-run_write_phase memory (store_of 4) four-IsUsable length (rule_layout sizes) 8 3 5
      MatchMode.single_level empty_hashes (λ k f. refl) (omega arith) (omega arith)

lookup-miss_query_example :
    (written : ℕ × ℕ × Hashes) × (run_write_phase memory
        (store_of 4)
        length
        (rule_layout sizes)
        8
        3
        empty_hashes
      ≡ ok written)
    × (lookup memory
          (store_of 4)
          (miss_query 7 11).0
          (miss_query 7 11).1
          (miss_query 7 11).2
          MatchMode.multi_level
          written.2
        ≡ ok none)
lookup-miss_query_example =
    lookup-miss_query memory (store_of 4) four-IsUsable length (rule_layout sizes) 8 3 7 11
      MatchMode.multi_level empty_hashes (λ k f. refl) (omega arith)

worker_lookup-setup_rules_example :
    (db' : Hashes) × (setup_rules memory (store_of 4) 2000 443 empty_hashes ≡ ok db')
    × (worker_lookup memory (store_of 4) 2000 443 MatchMode.multi_level 3 10 db'
        ≡ ok (
            some (record {
              rule_id = codes "rule:" ++ decimal 1767;
              fqdn1_pattern = codes "*" ++ zone_of 1767;
              port = 443;
              fqdn2_pattern = codes "*" ++ dest_zone;
              specificity = (1, 1);
            })))
worker_lookup-setup_rules_example =
    worker_lookup-setup_rules memory (store_of 4) 2000 443 3 10 MatchMode.multi_level empty_hashes
      four-IsUsable (λ k f. refl) (omega arith) (omega arith) (omega arith)
