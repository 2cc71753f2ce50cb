-- ===== src/Benchmark/Found.antt =====
-- The two phases of fqdnrules/benchmark.py together: what its write phase leaves in the store, and
-- what its matching queries find there.
use fun_with_dragonfly_db.Prelude.{
  ℕ, zero, suc, ◌+◌, ◌-◌, ◌*◌, ◌%◌, ◌<◌, ◌≡◌, ◌≢◌, refl, ap, sym, ◌∙◌, inl, inr, true, some, List,
  [], ◌∷◌, ◌++◌, arith, All, Text, Lacks, codes, split, split-cons, drop, decimal,
  decimal_injective, decimal-Lacks, append-sep_injective, ok, length,
}
use fun_with_dragonfly_db.Pattern.{WildcardScope, dot, MatchMode, normalize_fqdn}
use fun_with_dragonfly_db.Pattern.Plain.{
  name_chars, name_chars-append, name_chars-decimal, name_chars-Lacks, plain_name-normalize,
}
use fun_with_dragonfly_db.Redis.{Redis}
use fun_with_dragonfly_db.Router.{RuleStore, lookup, to_match}
use fun_with_dragonfly_db.Router.Keys.{IsUsable}
use fun_with_dragonfly_db.Router.Table.{RuleTable, no_rules, register_all, table_match}
use fun_with_dragonfly_db.Router.Refines.{Agrees, lookup-table_match}
use fun_with_dragonfly_db.Router.History.{IsLegalRule, IsFlushed, flushed-Agrees, put_many-Agrees}
use fun_with_dragonfly_db.Router.Probe.{
  below, wild, IsOther, table_match-below, register_all-other, register_all-hit,
  register_all-append,
}
use fun_with_dragonfly_db.Benchmark.{
  RuleLayout, key_for_rule, ports, num_domains, zone_of_key, dest_of_rule, rule_for_index,
  matching_query_for_index, rules_from, batch_at, num_batches, bytes_of, write_loop,
  run_write_phase,
}
use fun_with_dragonfly_db.Benchmark.Phases.{batches_from, batches-rules_from, append-rules_from}

-- The name that the patterns and the probes of a key share, without the dot before it.
abbrev parent_of_key : ℕ → Text
parent_of_key key_id = drop 1 (zone_of_key key_id)

abbrev parent_of_rule : ℕ → Text
parent_of_rule i = drop 1 (dest_of_rule i)

abbrev labels_of_key : ℕ → List Text
labels_of_key key_id =
    (codes "host" ++ decimal key_id)
    ∷ (codes "corp" ++ decimal (key_id % 1000))
    ∷ (codes "dragonfly" ++ decimal (key_id % num_domains))
    ∷ codes "com"
    ∷ []

abbrev labels_of_rule : ℕ → List Text
labels_of_rule i = (codes "dest" ++ decimal i) ∷ codes "example" ∷ codes "com" ∷ []

no_dot : (n : ℕ) → Lacks dot (decimal n)
no_dot n = decimal-Lacks n dot (λ d. omega arith)

-- A number inside of a name.
pub split-decimal :
    (n : ℕ) (t : Text) → split dot (decimal n ++ (dot ∷ t)) ≡ decimal n ∷ split dot t
split-decimal n t = split-cons dot (decimal n) t (no_dot n)

pub chars_of_decimal : (n : ℕ) (t : Text) → name_chars (decimal n ++ t) ≡ name_chars t
chars_of_decimal n t = name_chars-append (decimal n) t (name_chars-decimal n)

split-probe_of_key :
    (key_id : ℕ)
    → split dot (codes "probe" ++ zone_of_key key_id) ≡ codes "probe" ∷ labels_of_key key_id
unfolding zone_of_key split
split-probe_of_key key_id =
    rw (split-decimal key_id, split-decimal (key_id % 1000), split-decimal (key_id % num_domains))
      refl

split-probe_of_rule :
    (i : ℕ) → split dot (codes "probe" ++ dest_of_rule i) ≡ codes "probe" ∷ labels_of_rule i
unfolding dest_of_rule split
split-probe_of_rule i = rw (split-decimal i) refl

zone-chars : (key_id : ℕ) → name_chars (zone_of_key key_id) ≡ true
unfolding zone_of_key
zone-chars key_id =
    rw
      (
        chars_of_decimal key_id,
        chars_of_decimal (key_id % 1000),
        chars_of_decimal (key_id % num_domains),
      )
      refl

dest-chars : (i : ℕ) → name_chars (dest_of_rule i) ≡ true
unfolding dest_of_rule
dest-chars i = rw (chars_of_decimal i) refl

dest_injective : (i j : ℕ) → codes "*" ++ dest_of_rule i ≡ codes "*" ++ dest_of_rule j → i ≡ j
unfolding dest_of_rule
dest_injective i j e =
    decimal_injective i j
      (append-sep_injective dot (decimal i) (decimal j) (codes "example.com") (codes "example.com")
        (no_dot i) (no_dot j) (ap (drop 6) e)).0

-- The probes of both names are normalized already.
zone-normal :
    (key_id : ℕ)
    → normalize_fqdn (codes "probe" ++ zone_of_key key_id)
      ≡ ok (codes "probe" ++ zone_of_key key_id)
zone-normal key_id =
    plain_name-normalize (codes "probe" ++ zone_of_key key_id)
      (codes "probe" ∷ labels_of_key key_id) (zone-chars key_id) (split-probe_of_key key_id)
      (cc, (cc, (cc, (cc, (cc, tt))))) (omega arith)

dest-normal :
    (i : ℕ)
    → normalize_fqdn (codes "probe" ++ dest_of_rule i) ≡ ok (codes "probe" ++ dest_of_rule i)
dest-normal i =
    plain_name-normalize (codes "probe" ++ dest_of_rule i) (codes "probe" ∷ labels_of_rule i)
      (dest-chars i) (split-probe_of_rule i) (cc, (cc, (cc, (cc, tt)))) (omega arith)

ports-legal : (i : ℕ) → (0 < ports i) × (ports i < 65536)
ports-legal i = (ground arith, ground arith)

rule_for_index-legal : (i : ℕ) (layout : RuleLayout) → IsLegalRule (rule_for_index i layout)
unfolding rule_for_index
rule_for_index-legal i layout =
    let key_id = (key_for_rule layout i).0 in
    let (positive, small) = ports-legal (key_id % 3) in
    record {
      positive = positive;
      below = small;
      clean = (omega arith, name_chars-Lacks (zone_of_key key_id) (zone-chars key_id));
    }

module _ (layout : RuleLayout) where
  rules_from-legal : (lo rounds : ℕ) → All IsLegalRule (rules_from layout lo rounds)
  unfolding rules_from
  rules_from-legal lo zero = tt
  rules_from-legal lo (suc rounds) =
      (rule_for_index-legal lo layout, rules_from-legal (suc lo) rounds)

  -- Rules of a higher index are rules for other destinations.
  rules_from-IsOther :
      (i lo rounds : ℕ) (p : Text)
      → i < lo
      → All (IsOther p (codes "*" ++ dest_of_rule i)) (rules_from layout lo rounds)
  unfolding rules_from rule_for_index
  rules_from-IsOther i lo zero p h = tt
  rules_from-IsOther i lo (suc rounds) p h = (
    inr (λ e. let same = dest_injective lo i e in omega arith),
    rules_from-IsOther i (suc lo) rounds p (omega arith),
  )

  -- No rule is for a name that is not a wildcard.
  not_star : (s t : Text) → codes "*" ++ s ≢ codes "probe" ++ t
  not_star s t e = ground arith

  literal1-IsOther :
      (lo rounds : ℕ) (p g : Text)
      → All (IsOther (codes "probe" ++ p) g) (rules_from layout lo rounds)
  unfolding rules_from rule_for_index
  literal1-IsOther lo zero p g = tt
  literal1-IsOther lo (suc rounds) p g = (
    inl (not_star (zone_of_key (key_for_rule layout lo).0) p),
    literal1-IsOther (suc lo) rounds p g,
  )

  literal2-IsOther :
      (lo rounds : ℕ) (p g : Text)
      → All (IsOther p (codes "probe" ++ g)) (rules_from layout lo rounds)
  unfolding rules_from rule_for_index
  literal2-IsOther lo zero p g = tt
  literal2-IsOther lo (suc rounds) p g =
      (inr (not_star (dest_of_rule lo) g), literal2-IsOther (suc lo) rounds p g)

  -- The table after all rules, as far as the query of one of them asks it.
  abbrev pub all_rules : ℕ → RuleTable
  all_rules num_rules = register_all (rules_from layout 0 num_rules) no_rules

  abbrev key_of : ℕ → ℕ
  key_of i = (key_for_rule layout i).0

  abbrev port_of : ℕ → ℕ
  port_of i = ports (key_of i % 3)

  rules_around :
      (i rest : ℕ)
      → rules_from layout 0 (i + suc rest)
        ≡ rules_from layout 0 i ++ (rule_for_index i layout ∷ rules_from layout (suc i) rest)
  unfolding rules_from
  rules_around i rest =
      let from : 0 + i ≡ i = omega arith in
      sym (append-rules_from layout 0 i (suc rest))
      ∙ ap (λ n. rules_from layout 0 i ++ rules_from layout n (suc rest)) from

  rule-hit :
      (i num_rules : ℕ)
      → i < num_rules
      → all_rules num_rules
          (codes "*" ++ zone_of_key (key_of i))
          (port_of i)
          (codes "*" ++ dest_of_rule i)
        ≡ some (record { scope = WildcardScope.both; rule_id = codes "rule:" ++ decimal i })
  unfolding rule_for_index
  rule-hit i num_rules h =
      let whole : num_rules ≡ i + suc (num_rules - suc i) = omega arith in
      let around = rules_around i (num_rules - suc i) in
      ap
        (λ rules.
          register_all rules no_rules (codes "*" ++ zone_of_key (key_of i)) (port_of i)
            (codes "*" ++ dest_of_rule i))
        (ap (rules_from layout 0) whole ∙ around)
      ∙ register_all-hit (rules_from layout 0 i) (rules_from layout (suc i) (num_rules - suc i))
          (rule_for_index i layout) no_rules
          (rules_from-IsOther i (suc i) (num_rules - suc i) _ (omega arith))

  rules-answer :
      (i num_rules : ℕ) (mode : MatchMode)
      → i < num_rules
      → table_match
          (all_rules num_rules)
          (port_of i)
          (codes "probe" ++ zone_of_key (key_of i))
          (codes "probe" ++ dest_of_rule i)
          mode
        ≡ some (record {
          rank1 = 1;
          rank2 = 1;
          pattern1 = codes "*" ++ zone_of_key (key_of i);
          pattern2 = codes "*" ++ dest_of_rule i;
          rule_id = codes "rule:" ++ decimal i;
        })
  unfolding zone_of_key dest_of_rule
  rules-answer i num_rules mode h =
      table_match-below (all_rules num_rules) (codes "probe") (parent_of_key (key_of i))
        (codes "probe") (parent_of_rule i) (codes "rule:" ++ decimal i) (port_of i) mode
        (omega arith) (omega arith)
        (λ g.
          register_all-other (rules_from layout 0 num_rules) no_rules _ (port_of i) g
            (literal1-IsOther 0 num_rules (zone_of_key (key_of i)) g))
        (register_all-other (rules_from layout 0 num_rules) no_rules _ (port_of i) _
          (literal2-IsOther 0 num_rules (wild (parent_of_key (key_of i))) (dest_of_rule i)))
        (rule-hit i num_rules h)

module _ (redis : Redis) (store : RuleStore) (usable : IsUsable store) (num_bytes : Text → ℕ)
    (layout : RuleLayout) (num_rules batch_size : ℕ) where
  batch_at-legal : (k : ℕ) → All IsLegalRule (batch_at layout num_rules batch_size k)
  unfolding batch_at
  batch_at-legal k = rules_from-legal layout (k * batch_size) _

  -- What the loop of the write phase leaves in the store.
  pub write_loop-Agrees :
      (k rounds total_rules total_bytes : ℕ) (table : RuleTable) (db : redis.Db)
      → Agrees redis store usable db table
      → (written : ℕ × ℕ × redis.Db) × (write_loop redis store num_bytes layout num_rules batch_size
            k rounds total_rules total_bytes db
          ≡ ok written)
        × Agrees redis store usable written.2
            (register_all (batches_from layout num_rules batch_size k rounds) table)
  unfolding write_loop batches_from
  write_loop-Agrees k zero total_rules total_bytes table db agrees =
      ((total_rules, total_bytes, db), refl, agrees)
  write_loop-Agrees k (suc rounds) total_rules total_bytes table db agrees =
      let batch = batch_at layout num_rules batch_size k in
      let (db', e, agrees') =
        put_many-Agrees redis store usable table batch db (batch_at-legal k) agrees in
      let (written, e', agrees'') =
        write_loop-Agrees (suc k) rounds (total_rules + length batch)
          (total_bytes + bytes_of num_bytes batch) (register_all batch table) db' agrees' in
      (
        written,
        rw e e',
        rw
            (register_all-append batch (batches_from layout num_rules batch_size (suc k) rounds)
              table)
            agrees'',
      )

  -- The benchmark finds what it wrote: after `run_write_phase` on a flushed server, with a batch
  -- size that is not 0, the matching query of every rule is answered with exactly this rule, by its
  -- two wildcards at rank 1, in both modes and with every bucket count that has a token table.
  pub lookup-run_write_phase :
      (i : ℕ) (mode : MatchMode) (db : redis.Db)
      → IsFlushed redis db
      → 0 < batch_size
      → i < num_rules
      → (written : ℕ × ℕ × redis.Db) × (run_write_phase redis store num_bytes layout num_rules
            batch_size db
          ≡ ok written)
        × (lookup redis store
              (matching_query_for_index i layout).0
              (matching_query_for_index i layout).1
              (matching_query_for_index i layout).2
              mode
              written.2
            ≡ ok (
                some (record {
                  rule_id = (rule_for_index i layout).rule_id;
                  fqdn1_pattern = (rule_for_index i layout).fqdn1;
                  port = (rule_for_index i layout).port;
                  fqdn2_pattern = (rule_for_index i layout).fqdn2;
                  specificity = (1, 1);
                })))
  unfolding run_write_phase matching_query_for_index rule_for_index
  lookup-run_write_phase i mode db flushed sized small =
      let (written, e, agrees) =
        write_loop-Agrees 0 (num_batches num_rules batch_size) 0 0 no_rules db
          (flushed-Agrees redis store usable db flushed) in
      let all : Agrees redis store usable written.2 (all_rules layout num_rules) =
        rw (batches-rules_from layout num_rules batch_size sized) at agrees in
      let (positive, below) = ports-legal (key_of layout i % 3) in
      (
        written,
        e,
        lookup-table_match redis store usable (all_rules layout num_rules) written.2 _ _ _ _
              (port_of layout i) mode all (zone-normal (key_of layout i)) (dest-normal i)
              (name_chars-Lacks (codes "probe" ++ zone_of_key (key_of layout i))
                (zone-chars (key_of layout i)))
              positive below
            ∙ ap (λ o. ok (to_match (port_of layout i) o))
                (rules-answer layout i num_rules mode small),
      )
