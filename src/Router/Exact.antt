-- ===== src/Router/Exact.antt =====
-- A rule under two literal names is found by the query of those names, in fqdnrules/fqdn_router.py.
use fun_with_dragonfly_db.Prelude.{
  ◌≡◌, refl, ap, ◌∙◌, true, false, ◌&&◌, some, arith, Text, Lacks, text_eq, text_eq_refl, ok, drop,
  ◌==◌, eq→==, Option, Result, List, ◌∷◌, or_else, ◌++◌, if◌then◌else◌,
}
use fun_with_dragonfly_db.Pattern.{
  WildcardScope, single, multi, both, scope_value, MatchMode, Candidate, FieldCandidate, field,
  candidate, candidates, field_candidates, normalize_fqdn, bucket_for,
}
use fun_with_dragonfly_db.Redis.{Redis}
use fun_with_dragonfly_db.Router.{RuleStore, Rule, Match, put, lookup, rule_value, colon, to_match}
use fun_with_dragonfly_db.Router.Script.{is_blocked}
use fun_with_dragonfly_db.Router.Keys.{IsUsable, bucket_for-IsBucket}
use fun_with_dragonfly_db.Router.Reads.{IsReader, IsPuttable, is_cell, put_lem}
use fun_with_dragonfly_db.Router.Lookup.{lookup-first_match}
use fun_with_dragonfly_db.Router.Reference.{first_field, first_match, value_at, admit, best_of}

drop-scope : (s : WildcardScope) (id : Text) → drop 1 (scope_value s ++ id) ≡ id
unfolding scope_value
drop-scope single id = refl
drop-scope multi id = refl
drop-scope both id = refl

-- The exact pair comes first, and is never out of scope.
exact-first_match :
    (read : Candidate → Text → Option Text) (a : Candidate) (b : FieldCandidate)
    (cs : List Candidate) (bs : List FieldCandidate) (v : Text)
    → a.rank ≡ 0
    → b.rank ≡ 0
    → read a b.pattern_text ≡ some v
    → first_match read (a ∷ cs) (b ∷ bs) ≡ some (best_of a b v)
unfolding first_match is_blocked
exact-first_match read a b cs bs v ha hb e =
    let both_exact : (a.rank == 0 && b.rank == 0) ≡ true = ground arith in
    ap
      (λ o.
        or_else (or_else (admit a b o) (first_field (read a) a bs)) (first_match read cs (b ∷ bs)))
      e
    ∙ rw both_exact refl

module _ (redis : Redis) (store : RuleStore) (usable : IsUsable store) where
  exact_candidate : Text → Candidate
  exact_candidate fqdn = candidate fqdn 0 false (bucket_for fqdn store.num_buckets)

  exact-IsReader :
      (fqdn : Text) → Lacks colon fqdn → IsReader redis store usable (exact_candidate fqdn)
  unfolding exact_candidate candidate
  exact-IsReader fqdn h = record {
    tagged = refl;
    legal = bucket_for-IsBucket fqdn store;
    clean = h;
  }

  exact_value :
      (rule : Rule) (o : Option Text)
      → (if is_cell redis store usable rule.fqdn1 rule.port (exact_candidate rule.fqdn1) rule.port
            && text_eq rule.fqdn2 rule.fqdn2
          then some (rule_value rule)
          else o)
        ≡ some (rule_value rule)
  unfolding exact_candidate candidate
  exact_value rule o =
      rw (text_eq_refl rule.fqdn1, text_eq_refl rule.fqdn2, eq→== rule.port rule.port refl)

  -- For a store whose bucket count is at most 1 or has a token table: a `put` of a rule with a port
  -- from 1 to 65535, whose fqdn1 has no colon, succeeds; and if two names normalize to the rule's
  -- own fqdn1 and fqdn2, the query of these names and the rule's port answers this rule, with
  -- specificity (0, 0), whatever its scope, the mode and the other rules of the store.
  pub lookup-put_exact :
      (rule : Rule) (db : redis.Db) (f1 f2 : Text) (mode : MatchMode)
      → IsPuttable redis store usable rule
      → normalize_fqdn f1 ≡ ok rule.fqdn1
      → normalize_fqdn f2 ≡ ok rule.fqdn2
      → (db' : redis.Db) × (put redis store rule db ≡ ok db')
        × (lookup redis store f1 rule.port f2 mode db'
            ≡ ok (
                some (record {
                  rule_id = rule.rule_id;
                  fqdn1_pattern = rule.fqdn1;
                  port = rule.port;
                  fqdn2_pattern = rule.fqdn2;
                  specificity = (0, 0);
                })))
  lookup-put_exact rule db f1 f2 mode h e1 e2 =
      let (db', e, reads) = put_lem redis store usable rule db h in
      let found =
        reads (exact_candidate rule.fqdn1) rule.port rule.fqdn2
          (exact-IsReader rule.fqdn1 h.clean) in
      (
        db',
        e,
        lookup-first_match redis store usable rule.port db' f1 f2 rule.fqdn1 rule.fqdn2 mode e1 e2
              h.positive h.below
            ∙ ap (λ b. ok (to_match rule.port b)) (first db' (found ∙ exact_value rule _))
            ∙ ap answer (drop-scope rule.scope rule.rule_id),
      )
    where
      answer : Text → Result (Option Match)
      answer id = ok (
          some (record {
            rule_id = id;
            fqdn1_pattern = rule.fqdn1;
            port = rule.port;
            fqdn2_pattern = rule.fqdn2;
            specificity = (0, 0);
          }))

      first :
          (db' : redis.Db)
          → value_at redis store db' rule.port (exact_candidate rule.fqdn1) rule.fqdn2
            ≡ some (rule_value rule)
          → first_match
              (value_at redis store db' rule.port)
              (candidates rule.fqdn1 mode store.num_buckets)
              (field_candidates rule.fqdn2 mode)
            ≡ some (record {
              rank1 = 0;
              rank2 = 0;
              pattern1 = rule.fqdn1;
              pattern2 = rule.fqdn2;
              rule_id = drop 1 (rule_value rule);
            })
      first db' r =
          unfold candidates field_candidates candidate exact_candidate in
          exact-first_match (value_at redis store db' rule.port)
            (candidate rule.fqdn1 0 false (bucket_for rule.fqdn1 store.num_buckets))
            (field rule.fqdn2 0 false) _ _ (rule_value rule) refl refl r
