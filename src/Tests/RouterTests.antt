-- ===== src/Tests/RouterTests.antt =====
-- Examples for fqdnrules/fqdn_router.py, on the server in memory.
use fun_with_dragonfly_db.Prelude.{
  ℕ, ◌≤◌, ◌<◌, ◌≡◌, ◌⊎◌, refl, inl, inr, false, some, List, [], ◌∷◌, arith, get_elem?, Text, codes,
  split, decimal, ok,
}
use fun_with_dragonfly_db.Pattern.{
  is_bucketed_tag, tag_of_labels, bucket_for, WildcardScope, MatchMode, Candidate, FieldCandidate,
  candidates, field_candidates, candidate, field, normalize_fqdn, clean_up, strip_end, strip_front,
  hash_tag, without_wildcard, global_tag,
}
use fun_with_dragonfly_db.Slots.{key_slot}
use fun_with_dragonfly_db.Slots.Table.{compute_bucket_table_small}
use fun_with_dragonfly_db.Redis.Memory.{Hashes, memory, empty_hashes}
use fun_with_dragonfly_db.Router.{
  RuleStore, Rule, Match, Best, key, keys_for_pattern, bucketing_meta_key, to_match, put, put_many,
  lookup,
}
use fun_with_dragonfly_db.Router.Exact.{lookup-put_exact}
use fun_with_dragonfly_db.Router.Keys.{IsUsable, key_total}
use fun_with_dragonfly_db.Router.Lookup.{lookup-first_match}
use fun_with_dragonfly_db.Router.Many.{put_each}
use fun_with_dragonfly_db.Router.Optimal.{IsAdmissible, lookup_best, lookup-IsAdmissible}
use fun_with_dragonfly_db.Router.Placement.{key_slot_together}
use fun_with_dragonfly_db.Router.Reads.{IsReader, IsPuttable}
use fun_with_dragonfly_db.Router.Reference.{best_of, first_match, value_at}
use fun_with_dragonfly_db.Router.Replicas.{keys_for_pattern-total}
use fun_with_dragonfly_db.Router.Script.{is_blocked}
use fun_with_dragonfly_db.Router.Writes.{put_many-hget}

abbrev shop : RuleStore
shop = record { namespace = codes "shop"; num_buckets = 4 }

shop-IsUsable : IsUsable shop
shop-IsUsable =
    let (t, e, _) = compute_bucket_table_small 4 (omega arith) (omega arith) in inr (t, e)

-- Every cell holds a rule of scope "both".
abbrev full : Hashes
full k f = some (codes "Brule:1")

abbrev one : Text
one = codes "host.example.com"

abbrev two : Text
two = codes "dest.org"

one_normal : normalize_fqdn (codes "Host.Example.com.") ≡ ok one
unfolding normalize_fqdn split clean_up strip_end strip_front
one_normal = refl

two_normal : normalize_fqdn (codes "dest.org") ≡ ok two
unfolding normalize_fqdn split clean_up strip_end strip_front
two_normal = refl

lookup-first_match_example :
    lookup memory shop (codes "Host.Example.com.") 443 (codes "dest.org") MatchMode.multi_level full
    ≡ ok (
        to_match 443 (
          first_match
            (value_at memory shop full 443)
            (candidates one MatchMode.multi_level 4)
            (field_candidates two MatchMode.multi_level)))
lookup-first_match_example =
    lookup-first_match memory shop shop-IsUsable 443 full (codes "Host.Example.com.")
      (codes "dest.org") one two MatchMode.multi_level one_normal two_normal (omega arith)
      (omega arith)

-- The exact pair of candidates, first in both lists.
abbrev first_one : Candidate
first_one = candidate one 0 false 3

abbrev first_two : FieldCandidate
first_two = field two 0 false

first_one_at :
    get_elem? (candidates one MatchMode.multi_level 4) 0
    ≡ some (candidate one 0 false (bucket_for one 4))
unfolding candidates
first_one_at = refl

first_two_at : get_elem? (field_candidates two MatchMode.multi_level) 0 ≡ some first_two
unfolding field_candidates
first_two_at = refl

exact-IsAdmissible :
    IsAdmissible
      (value_at memory shop full 443)
      (candidate one 0 false (bucket_for one 4))
      first_two
      (codes "Brule:1")
unfolding is_bucketed_tag tag_of_labels without_wildcard is_blocked
exact-IsAdmissible = record {
  holds = unfold value_at key candidate hash_tag split in refl;
  in_scope = inl (unfold candidate in (refl, refl));
}

lookup_best_example :
    (x : Best) × (lookup memory shop
        (codes "Host.Example.com.")
        443
        (codes "dest.org")
        MatchMode.multi_level
        full
      ≡ ok (to_match 443 (some x)))
    × ((x.rank1 < (candidate one 0 false (bucket_for one 4)).rank)
        ⊎ ((x.rank1 ≡ (candidate one 0 false (bucket_for one 4)).rank)
            × (x.rank2 ≤ first_two.rank)))
lookup_best_example =
    lookup_best memory shop shop-IsUsable 443 full (codes "Host.Example.com.") (codes "dest.org")
      one two MatchMode.multi_level 0 0 (candidate one 0 false (bucket_for one 4)) first_two
      (codes "Brule:1") one_normal two_normal (omega arith) (omega arith) first_one_at first_two_at
      exact-IsAdmissible

-- A rule for these names, and the store after it.
abbrev rule : Rule
rule = record {
  fqdn1 = one;
  port = 443;
  fqdn2 = two;
  rule_id = codes "rule:7";
  scope = WildcardScope.single;
}

rule-IsPuttable : IsPuttable memory shop shop-IsUsable rule
rule-IsPuttable = record { positive = omega arith; below = omega arith; clean = omega arith }

abbrev answer : Match
answer = record {
  rule_id = codes "rule:7";
  fqdn1_pattern = one;
  port = 443;
  fqdn2_pattern = two;
  specificity = (0, 0);
}

lookup-put_exact_example :
    (db' : Hashes) × (put memory shop rule empty_hashes ≡ ok db')
    × (lookup memory shop
          (codes "Host.Example.com.")
          443
          (codes "dest.org")
          MatchMode.single_level
          db'
        ≡ ok (some answer))
lookup-put_exact_example =
    lookup-put_exact memory shop shop-IsUsable rule empty_hashes (codes "Host.Example.com.")
      (codes "dest.org") MatchMode.single_level rule-IsPuttable one_normal two_normal

-- The store after the `put`, and what a lookup answers there.
after_put :
    (db' : Hashes) × (put memory shop rule empty_hashes ≡ ok db')
    × (lookup memory shop
          (codes "Host.Example.com.")
          443
          (codes "dest.org")
          MatchMode.single_level
          db'
        ≡ ok (some answer))
after_put =
    lookup-put_exact memory shop shop-IsUsable rule empty_hashes (codes "Host.Example.com.")
      (codes "dest.org") MatchMode.single_level rule-IsPuttable one_normal two_normal

abbrev stored : Hashes
stored = after_put.0

lookup-IsAdmissible_example :
    (i j : ℕ) × (a : Candidate) × (b : FieldCandidate) × (v : Text) × (get_elem?
        (candidates one MatchMode.single_level 4)
        i
      ≡ some a)
    × (get_elem? (field_candidates two MatchMode.single_level) j ≡ some b)
    × IsAdmissible (value_at memory shop stored 443) a b v
    × (some answer ≡ to_match 443 (some (best_of a b v)))
lookup-IsAdmissible_example =
    lookup-IsAdmissible memory shop shop-IsUsable 443 stored (codes "Host.Example.com.")
      (codes "dest.org") one two MatchMode.single_level answer one_normal two_normal (omega arith)
      (omega arith) after_put.2

-- A reader of the global tier.
abbrev star_reader : Candidate
star_reader = candidate (codes "*") 2 false 3

star_reader-IsReader : IsReader memory shop shop-IsUsable star_reader
star_reader-IsReader = record {
  tagged = unfold candidate in refl;
  legal = λ h. unfold candidate in omega arith;
  clean = unfold candidate in omega arith;
}

abbrev star_rule : Rule
star_rule = record {
  fqdn1 = codes "*";
  port = 443;
  fqdn2 = two;
  rule_id = codes "rule:8";
  scope = WildcardScope.multi;
}

star_rule-IsPuttable : IsPuttable memory shop shop-IsUsable star_rule
star_rule-IsPuttable = record { positive = omega arith; below = omega arith; clean = omega arith }

-- Of the replicas in a store full of values, a reader finds one.
star_value : (v : Text) × (value_at memory shop full 443 star_reader two ≡ some v)
unfolding value_at
star_value =
    let (k, e) =
      key_total shop (hash_tag (codes "*")) 3 (codes "*") 443 shop-IsUsable (λ h. omega arith) in
    (codes "Brule:1", unfold candidate in rw e refl)

put_many-hget_example :
    (db1 : Hashes) × (db2 : Hashes) × (put_many memory shop (rule ∷ star_rule ∷ []) empty_hashes
      ≡ ok db1)
    × (put_each memory shop (rule ∷ star_rule ∷ []) empty_hashes ≡ ok db2)
    × (db1 (codes "k") two ≡ db2 (codes "k") two)
put_many-hget_example =
    put_many-hget memory shop shop-IsUsable (rule ∷ star_rule ∷ []) empty_hashes (codes "k") two
      (rule-IsPuttable, (star_rule-IsPuttable, tt)) (unfold bucketing_meta_key in cc)

abbrev tag_of_one : Text
tag_of_one = codes "example.com"

key_of_one : key shop tag_of_one 3 one 443 ≡ ok (codes "r:{shop:example.com}:host.example.com:443")
unfolding key is_bucketed_tag decimal
key_of_one = refl

key_of_wildcard :
    key shop tag_of_one 3 (codes "*.example.com") 80
    ≡ ok (codes "r:{shop:example.com}:*.example.com:80")
unfolding key is_bucketed_tag decimal
key_of_wildcard = refl

key_slot_together_example :
    key_slot (codes "r:{shop:example.com}:host.example.com:443")
    ≡ key_slot (codes "r:{shop:example.com}:*.example.com:80")
key_slot_together_example =
    key_slot_together shop shop-IsUsable 3 (λ h. omega arith) tag_of_one one (codes "*.example.com")
      443 80 _ _ (omega arith) (omega arith) (omega arith) key_of_one key_of_wildcard

-- The key of "*" in the last bucket.
star_key : (k : Text) × (key shop global_tag 3 (codes "*") 443 ≡ ok k)
star_key = key_total shop global_tag 3 (codes "*") 443 shop-IsUsable (λ h. omega arith)

-- All the replicas of a rule of the global tier.
star_replicas : (ks : List Text) × (keys_for_pattern shop (codes "*") 443 ≡ ok ks)
star_replicas =
    let (ks, e, _, _) = keys_for_pattern-total shop shop-IsUsable (codes "*") 443 in (ks, e)

star_key_of_pattern : (k : Text) × (key shop (hash_tag (codes "*")) 3 (codes "*") 443 ≡ ok k)
star_key_of_pattern =
    key_total shop (hash_tag (codes "*")) 3 (codes "*") 443 shop-IsUsable (λ h. omega arith)
