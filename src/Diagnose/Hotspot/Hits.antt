-- ===== src/Diagnose/Hotspot/Hits.antt =====
-- The lookups of fqdnrules/diagnose_router_hotspot.py find the rules that it wrote.
use native.Mathlib.Nat.{mod-lt}
use fun_with_dragonfly_db.Prelude.{
  ℕ, zero, suc, ◌+◌, ◌-◌, ◌*◌, ◌%◌, ◌<◌, ◌≡◌, refl, ap, ◌∙◌, inl, inr, true, some, [], ◌∷◌, ◌++◌,
  append_assoc, arith, ne→==, All, All-append, Text, codes, split, drop, decimal, decimal_injective,
  decimal-Lacks, append-sep_injective, ok,
}
use fun_with_dragonfly_db.Pattern.{WildcardScope, dot, MatchMode, normalize_fqdn}
use fun_with_dragonfly_db.Pattern.Plain.{name_chars, name_chars-Lacks, plain_name-normalize}
use fun_with_dragonfly_db.Redis.{Redis}
use fun_with_dragonfly_db.Router.{RuleStore, to_match}
use fun_with_dragonfly_db.Router.Keys.{IsUsable}
use fun_with_dragonfly_db.Router.Table.{RuleTable, no_rules, register_all, table_match}
use fun_with_dragonfly_db.Router.Refines.{lookup-table_match}
use fun_with_dragonfly_db.Router.History.{IsLegalRule, IsFlushed, flushed-Agrees, put_many-Agrees}
use fun_with_dragonfly_db.Router.Probe.{
  wild, IsOther, table_match-below, register_all-other, register_all-hit,
}
use fun_with_dragonfly_db.Benchmark.Found.{split-decimal, chars_of_decimal}
use fun_with_dragonfly_db.Diagnose.Hotspot.{
  zone_of, dest_zone, domain_rule, domain_rules, global_rule, setup_rules, worker_lookup,
}

zone-chars : (i : ℕ) → name_chars (zone_of i) ≡ true
unfolding zone_of
zone-chars i = rw (chars_of_decimal i) refl

probe-normal :
    (i : ℕ) → normalize_fqdn (codes "probe" ++ zone_of i) ≡ ok (codes "probe" ++ zone_of i)
probe-normal i =
    plain_name-normalize (codes "probe" ++ zone_of i)
      (codes "probe" ∷ codes "svc" ∷ (codes "hotspotdiag" ++ decimal i) ∷ codes "com" ∷ [])
      (zone-chars i) (unfold zone_of in unfold split in rw (split-decimal i) refl)
      (cc, (cc, (cc, (cc, tt)))) (omega arith)

dest-normal : normalize_fqdn (codes "probe" ++ dest_zone) ≡ ok (codes "probe" ++ dest_zone)
unfolding split
dest-normal =
    plain_name-normalize (codes "probe" ++ dest_zone)
      (codes "probe" ∷ codes "dest" ∷ codes "example" ∷ codes "com" ∷ []) refl refl
      (cc, (cc, (cc, (cc, tt)))) (omega arith)

zone_injective : (i j : ℕ) → codes "*" ++ zone_of i ≡ codes "*" ++ zone_of j → i ≡ j
unfolding zone_of
zone_injective i j e =
    decimal_injective i j
      (append-sep_injective dot (decimal i) (decimal j) (codes "com") (codes "com")
        (decimal-Lacks i dot (λ d. omega arith)) (decimal-Lacks j dot (λ d. omega arith))
        (ap (drop 17) e)).0

module _ (port : ℕ) where
  domain_rules-legal :
      (i rounds : ℕ) → 0 < port → port < 65536 → All IsLegalRule (domain_rules port i rounds)
  unfolding domain_rules domain_rule
  domain_rules-legal i zero h1 h2 = tt
  domain_rules-legal i (suc rounds) h1 h2 = (
    record {
      positive = h1;
      below = h2;
      clean = (omega arith, name_chars-Lacks (zone_of i) (zone-chars i));
    },
    domain_rules-legal (suc i) rounds h1 h2,
  )

  -- The rules of other domains.
  domain_rules-IsOther :
      (i lo rounds : ℕ) (g : Text)
      → i < lo
      → All (IsOther (codes "*" ++ zone_of i) g) (domain_rules port lo rounds)
  unfolding domain_rules domain_rule
  domain_rules-IsOther i lo zero g h = tt
  domain_rules-IsOther i lo (suc rounds) g h = (
    inl (λ e. let same = zone_injective lo i e in omega arith),
    domain_rules-IsOther i (suc lo) rounds g (omega arith),
  )

  -- No rule is for a literal name, of either side.
  literal1-IsOther :
      (lo rounds : ℕ) (p g : Text)
      → All (IsOther (codes "probe" ++ p) g) (domain_rules port lo rounds)
  unfolding domain_rules domain_rule
  literal1-IsOther lo zero p g = tt
  literal1-IsOther lo (suc rounds) p g =
      (inl (λ e. ground arith), literal1-IsOther (suc lo) rounds p g)

  literal2-IsOther :
      (lo rounds : ℕ) (p g : Text)
      → All (IsOther p (codes "probe" ++ g)) (domain_rules port lo rounds)
  unfolding domain_rules domain_rule
  literal2-IsOther lo zero p g = tt
  literal2-IsOther lo (suc rounds) p g =
      (inr (λ e. ground arith), literal2-IsOther (suc lo) rounds p g)

  append-domain_rules :
      (lo i rest : ℕ)
      → domain_rules port lo (i + suc rest)
        ≡ domain_rules port lo i
          ++ (domain_rule port (lo + i) ∷ domain_rules port (suc (lo + i)) rest)
  unfolding domain_rules
  append-domain_rules lo zero rest =
      let from : lo + 0 ≡ lo = omega arith in
      let many : 0 + suc rest ≡ suc rest = omega arith in rw (from, many) refl
  append-domain_rules lo (suc i) rest =
      let from : lo + suc i ≡ suc lo + i = omega arith in
      let many : suc i + suc rest ≡ suc (i + suc rest) = omega arith in
      rw (from, many)
        (ap (λ rules. domain_rule port lo ∷ rules) (append-domain_rules (suc lo) i rest))

  -- The table of all rules.
  abbrev whole : ℕ → RuleTable
  whole num_domains =
      register_all (domain_rules port 0 num_domains ++ (global_rule port ∷ [])) no_rules

  All-IsOther :
      (p g : Text) (lo rounds : ℕ)
      → All (IsOther p g) (domain_rules port lo rounds)
      → IsOther p g (global_rule port)
      → All (IsOther p g) (domain_rules port lo rounds ++ (global_rule port ∷ []))
  All-IsOther p g lo rounds hs h =
      All-append (IsOther p g) (domain_rules port lo rounds) (global_rule port ∷ []) hs (h, tt)

  global-IsOther : (i : ℕ) (g : Text) → IsOther (codes "*" ++ zone_of i) g (global_rule port)
  unfolding zone_of
  global-IsOther i g = inl (λ e. ground arith)

  rules_around :
      (i rest : ℕ)
      → domain_rules port 0 (i + suc rest) ++ (global_rule port ∷ [])
        ≡ domain_rules port 0 i
          ++ (domain_rule port i ∷ (domain_rules port (suc i) rest ++ (global_rule port ∷ [])))
  rules_around i rest =
      let from : 0 + i ≡ i = omega arith in
      ap (λ rules. rules ++ (global_rule port ∷ []))
        (append-domain_rules 0 i rest
          ∙ ap (λ n. domain_rules port 0 i ++ (domain_rule port n ∷ domain_rules port (suc n) rest))
              from)
      ∙ append_assoc (domain_rules port 0 i) (domain_rule port i ∷ domain_rules port (suc i) rest)
          (global_rule port ∷ [])

  domain-hit :
      (i num_domains : ℕ)
      → i < num_domains
      → whole num_domains (codes "*" ++ zone_of i) port (codes "*" ++ dest_zone)
        ≡ some (record { scope = WildcardScope.both; rule_id = codes "rule:" ++ decimal i })
  unfolding domain_rule
  domain-hit i num_domains h =
      let rest = num_domains - suc i in
      let many : num_domains ≡ i + suc rest = omega arith in
      ap
        (λ rules.
          register_all rules no_rules (codes "*" ++ zone_of i) port (codes "*" ++ dest_zone))
        (ap (λ n. domain_rules port 0 n ++ (global_rule port ∷ [])) many ∙ rules_around i rest)
      ∙ register_all-hit (domain_rules port 0 i)
          (domain_rules port (suc i) rest ++ (global_rule port ∷ [])) (domain_rule port i) no_rules
          (All-IsOther (codes "*" ++ zone_of i) (codes "*" ++ dest_zone) (suc i) rest
            (domain_rules-IsOther i (suc i) rest (codes "*" ++ dest_zone) (omega arith))
            (global-IsOther i (codes "*" ++ dest_zone)))

  domain-answer :
      (i num_domains : ℕ) (mode : MatchMode)
      → i < num_domains
      → table_match
          (whole num_domains)
          port
          (codes "probe" ++ zone_of i)
          (codes "probe" ++ dest_zone)
          mode
        ≡ some (record {
          rank1 = 1;
          rank2 = 1;
          pattern1 = codes "*" ++ zone_of i;
          pattern2 = codes "*" ++ dest_zone;
          rule_id = codes "rule:" ++ decimal i;
        })
  unfolding zone_of
  domain-answer i num_domains mode h =
      table_match-below (whole num_domains) (codes "probe") (drop 1 (zone_of i)) (codes "probe")
        (drop 1 dest_zone) (codes "rule:" ++ decimal i) port mode (omega arith) (omega arith)
        (λ g.
          register_all-other (domain_rules port 0 num_domains ++ (global_rule port ∷ [])) no_rules _
            port g
            (All-IsOther _ g 0 num_domains (literal1-IsOther 0 num_domains (zone_of i) g)
              (inl (λ e. ground arith))))
        (register_all-other (domain_rules port 0 num_domains ++ (global_rule port ∷ [])) no_rules _
          port _
          (All-IsOther _ _ 0 num_domains
            (literal2-IsOther 0 num_domains (wild (drop 1 (zone_of i))) dest_zone)
            (inr (λ e. ground arith))))
        (domain-hit i num_domains h)

-- The load that is measured is a load of hits: after `setup_rules` on a flushed server, with at least
-- one domain and a port in range, every round of every worker is answered with the rule of the domain
-- that it asks for, by its two wildcards at rank 1, never with the global rule and never with an
-- exception, in both modes and with every bucket count that has a token table.
pub worker_lookup-setup_rules :
    (redis : Redis) (store : RuleStore) (num_domains port idx n : ℕ) (mode : MatchMode)
    (db : redis.Db)
    → IsUsable store
    → IsFlushed redis db
    → 0 < num_domains
    → 0 < port
    → port < 65536
    → (db' : redis.Db) × (setup_rules redis store num_domains port db ≡ ok db')
      × (worker_lookup redis store num_domains port mode idx n db'
          ≡ ok (
              some (record {
                rule_id = codes "rule:" ++ decimal ((idx * 7919 + n) % num_domains);
                fqdn1_pattern = codes "*" ++ zone_of ((idx * 7919 + n) % num_domains);
                port = port;
                fqdn2_pattern = codes "*" ++ dest_zone;
                specificity = (1, 1);
              })))
unfolding setup_rules worker_lookup
worker_lookup-setup_rules redis store num_domains port idx n mode db usable flushed some_domains h1
      h2 =
    let i = (idx * 7919 + n) % num_domains in
    let (db', e, agrees) =
      put_many-Agrees redis store usable no_rules
        (domain_rules port 0 num_domains ++ (global_rule port ∷ [])) db
        (All-append IsLegalRule (domain_rules port 0 num_domains) (global_rule port ∷ [])
          (domain_rules-legal port 0 num_domains h1 h2)
          (record { positive = h1; below = h2; clean = omega arith }, tt))
        (flushed-Agrees redis store usable db flushed) in
    (
      db',
      e,
      rw (ne→== num_domains 0 (omega arith)) (
          lookup-table_match redis store usable (whole port num_domains) db' _ _ _ _ port mode
            agrees (probe-normal i) dest-normal
            (name_chars-Lacks (codes "probe" ++ zone_of i) (zone-chars i)) h1 h2
          ∙ ap (λ o. ok (to_match port o))
              (domain-answer port i num_domains mode (mod-lt (idx * 7919 + n) some_domains))),
    )
