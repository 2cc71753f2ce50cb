-- ===== src/Router/Many.antt =====
-- `put_many` of fqdnrules/fqdn_router.py: one pipeline, with the effect of the rules one by one.
use fun_with_dragonfly_db.Prelude.{
  ◌≡◌, ◌≢◌, refl, ap, sym, ◌∙◌, Bool, true, false, ◌&&◌, ◌||◌, List, [], ◌∷◌, ◌++◌, ltb, lt→ltb,
  if◌then◌else◌, All, Text, length, Result, ok, ◌>>=◌, arith, some, text_eq, err, invalid_fqdn, ◌≤◌,
}
use fun_with_dragonfly_db.Redis.{Redis}
use fun_with_dragonfly_db.Router.{
  RuleStore, Rule, HsetCommand, rule_value, rule_commands, put_commands, claim_command, run_pipe,
  put, put_many, many_commands, validate_port, bucketing_meta_key,
}
use fun_with_dragonfly_db.Router.Keys.{IsUsable}
use fun_with_dragonfly_db.Router.Replicas.{mem_text, keys_for_pattern-total}
use fun_with_dragonfly_db.Router.Reads.{
  run_pipe-append, hget-rule_commands, hget-put_commands, hget-claim, IsPuttable,
}

module _ (redis : Redis) (store : RuleStore) where
  open redis use {Db, hget}

  -- A loop of `put`s.
  unfoldable pub put_each : List Rule → Db → Result Db
  put_each [] db = ok db
  put_each (rule ∷ rules) db = do db' ← put redis store rule db; put_each rules db'

  -- The same values under all keys, but for the record of the bucket count.
  abbrev pub SameRules : Db → Db → Type 0
  SameRules db db' = (k f : Text) → k ≢ bucketing_meta_key store → hget db k f ≡ hget db' k f

  module _ (usable : IsUsable store) where
    step-SameRules :
        (rule : Rule) (ks : List Text) (db db' : Db)
        → SameRules db db'
        → SameRules
            (run_pipe redis (rule_commands ks rule) db)
            (run_pipe redis (put_commands store ks rule) db')
    step-SameRules rule ks db db' same k f h =
        hget-rule_commands redis rule ks db k f
        ∙ ap (λ o. if mem_text ks k && text_eq rule.fqdn2 f then some (rule_value rule) else o)
            (same k f h)
        ∙ sym (hget-put_commands redis store rule ks db' k f h)

    many-put_each :
        (rules : List Rule) (pipe : List HsetCommand) (bucketed : Bool) (db db' : Db)
        → All (IsPuttable redis store usable) rules
        → SameRules (run_pipe redis pipe db) db'
        → (pipe' : List HsetCommand) × (bucketed' : Bool) × (after : Db) × (many_commands store
              rules pipe bucketed
            ≡ ok (pipe', bucketed'))
          × (put_each rules db' ≡ ok after)
          × SameRules (run_pipe redis pipe' db) after
    unfolding many_commands put_each validate_port put
    many-put_each [] pipe bucketed db db' h same = (pipe, bucketed, db', refl, refl, same)
    many-put_each (rule ∷ rules) pipe bucketed db db' (h, hs) same =
        let (ks, es, _, _) = keys_for_pattern-total store usable rule.fqdn1 rule.port in
        let (pipe', bucketed', after, e, e', same') =
          many-put_each rules (pipe ++ rule_commands ks rule) (bucketed || ltb 1 (length ks)) db
            (run_pipe redis (put_commands store ks rule) db') hs
            (rw (run_pipe-append redis pipe (rule_commands ks rule) db)
              (step-SameRules rule ks (run_pipe redis pipe db) db' same)) in
        (
          pipe',
          bucketed',
          after,
          rw (lt→ltb 0 rule.port h.positive, lt→ltb rule.port 65536 h.below, es) e,
          rw (lt→ltb 0 rule.port h.positive, lt→ltb rule.port 65536 h.below, es) e',
          same',
        )

    -- A bulk load of rules with ports in range succeeds, and so does a `put` of each in turn; both
    -- leave the same values under every key but the record of the bucket count.
    pub put_many-put_each :
        (rules : List Rule) (db : Db)
        → All (IsPuttable redis store usable) rules
        → (db1 : Db) × (db2 : Db) × (put_many redis store rules db ≡ ok db1)
          × (put_each rules db ≡ ok db2)
          × SameRules db1 db2
    unfolding put_many
    put_many-put_each rules db h =
        let (pipe, bucketed, after, e, e', same) =
          many-put_each rules [] false db db h (unfold run_pipe in λ k f n. refl) in
        (
          run_pipe redis (if bucketed then pipe ++ (claim_command store ∷ []) else pipe) db,
          after,
          rw e,
          e',
          finish pipe bucketed after same,
        )
      where
        finish :
            (pipe : List HsetCommand) (bucketed : Bool) (after : Db)
            → SameRules (run_pipe redis pipe db) after
            → SameRules
                (run_pipe redis (if bucketed then pipe ++ (claim_command store ∷ []) else pipe) db)
                after
        finish pipe false after same = same
        finish pipe true after same = λ k f n.
            rw (run_pipe-append redis pipe (claim_command store ∷ []) db)
              (hget-claim redis store (run_pipe redis pipe db) k f n ∙ same k f n)

-- A load with a port out of range raises before anything is sent, whatever stands before it.
pub put_many_bad_port :
    (redis : Redis) (store : RuleStore) (rule : Rule) (rules : List Rule) (db : redis.Db)
    → 65536 ≤ rule.port
    → put_many redis store (rule ∷ rules) db ≡ err invalid_fqdn
unfolding put_many many_commands validate_port
put_many_bad_port redis store rule rules db h = ground arith
