-- ===== src/Router/Writes.antt =====
-- The writes of fqdnrules/fqdn_router.py as a reader sees them: `put`, `put_many` and `delete`.
use fun_with_dragonfly_db.Prelude.{
  ℕ, ◌≡◌, ◌≢◌, refl, Bool, true, false, ◌&&◌, none, some, List, All, if◌then◌else◌, Text, Lacks,
  text_eq, ok,
}
use fun_with_dragonfly_db.Pattern.{Candidate}
use fun_with_dragonfly_db.Redis.{Redis}
use fun_with_dragonfly_db.Router.{
  RuleStore, Rule, rule_value, colon, put, put_many, delete, bucketing_meta_key,
}
use fun_with_dragonfly_db.Router.Keys.{IsUsable}
use fun_with_dragonfly_db.Router.Many.{put_each, put_many-put_each}
use fun_with_dragonfly_db.Router.Reads.{IsReader, IsPuttable, is_cell, put_lem, delete_lem}
use fun_with_dragonfly_db.Router.Reference.{value_at}

module _ (redis : Redis) (store : RuleStore) (usable : IsUsable store) where
  open redis use {Db, hget}

  -- `put` of a rule with a port in range succeeds. Afterwards a reader, whatever bucket it falls
  -- into, finds the rule's value under the rule's patterns and port, and under all others what it
  -- found before.
  pub put-value_at :
      (rule : Rule) (db : Db) (c : Candidate) (port' : ℕ) (f : Text)
      → IsPuttable redis store usable rule
      → IsReader redis store usable c
      → (db' : Db) × (put redis store rule db ≡ ok db')
        × (value_at redis store db' port' c f ≡ (
            if is_cell redis store usable rule.fqdn1 rule.port c port' && text_eq rule.fqdn2 f
            then some (rule_value rule)
            else value_at redis store db port' c f))
  put-value_at rule db c port' f h r =
      let (db', e, reads) = put_lem redis store usable rule db h in (db', e, reads c port' f r)

  -- `delete` succeeds. Afterwards no reader finds a value under the triple, and under all others it
  -- finds what it found before.
  pub delete-value_at :
      (p : Text) (port : ℕ) (g : Text) (db : Db) (c : Candidate) (port' : ℕ) (f : Text)
      → Lacks colon p
      → IsReader redis store usable c
      → (found : Bool) × (db' : Db) × (delete redis store p port g db ≡ ok (found, db'))
        × (value_at redis store db' port' c f ≡ (
            if is_cell redis store usable p port c port' && text_eq g f
            then none
            else value_at redis store db port' c f))
  delete-value_at p port g db c port' f lp r =
      let (found, db', e, reads, _, _) = delete_lem redis store usable p port g db lp in
      (found, db', e, reads c port' f r)

  -- `delete` of a triple under which some reader finds a value answers true, and a second `delete`
  -- of it answers false.
  pub delete_twice :
      (g v : Text) (port : ℕ) (db : Db) (c : Candidate)
      → IsReader redis store usable c
      → value_at redis store db port c g ≡ some v
      → (db' : Db) × (db'' : Db) × (delete redis store c.pattern_text port g db ≡ ok (true, db'))
        × (delete redis store c.pattern_text port g db' ≡ ok (false, db''))
  delete_twice g v port db c r h =
      let (found, db', e, _, answered, (db'', e')) =
        delete_lem redis store usable c.pattern_text port g db r.clean in
      (db', db'', rw (← answered c v r refl h) e, e')

  -- For a store whose bucket count is at most 1 or has a token table, and rules with ports from 1 to
  -- 65535 and no colon in their fqdn1 patterns: a bulk load of the rules succeeds, and so does a
  -- `put` of each in turn; both leave the same value in every field of every key other than the
  -- key that records the bucket count.
  pub put_many-hget :
      (rules : List Rule) (db : Db) (k f : Text)
      → All (IsPuttable redis store usable) rules
      → k ≢ bucketing_meta_key store
      → (db1 : Db) × (db2 : Db) × (put_many redis store rules db ≡ ok db1)
        × (put_each redis store rules db ≡ ok db2)
        × (hget db1 k f ≡ hget db2 k f)
  put_many-hget rules db k f h other =
      let (db1, db2, e1, e2, same) = put_many-put_each redis store usable rules db h in
      (db1, db2, e1, e2, same k f other)
