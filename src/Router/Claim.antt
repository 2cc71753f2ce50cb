-- ===== src/Router/Claim.antt =====
-- The record of the bucket count of fqdnrules/fqdn_router.py: `put` writes it with a rule of a
-- bucketed tier, and `RuleStore.__init__` holds a later store to it.
use fun_with_dragonfly_db.Prelude.{
  ℕ, ◌<◌, ◌≡◌, refl, ◌∙◌, Bool-cases, true, false, some, List, [], ◌∷◌, ◌==◌, lt→ltb, ne→==, length,
  text_eq_refl, parse_nat-decimal, inl, inr, if◌then◌else◌, arith, Text, ok, err, value_error,
  decimal,
}
use fun_with_dragonfly_db.Pattern.{hash_tag}
use fun_with_dragonfly_db.Redis.{Redis}
use fun_with_dragonfly_db.Router.{
  Rule, RuleStore, is_bucketed, rule_commands, put_commands, claim_command, run_pipe, put,
  open_store, check_claim, validate_port, bucketing_meta_key, num_buckets_field,
}
use fun_with_dragonfly_db.Router.Keys.{IsUsable, is_bucketed-lt}
use fun_with_dragonfly_db.Router.Replicas.{keys_for_pattern-replicas}
use fun_with_dragonfly_db.Router.Reads.{run_pipe-append}

module _ (redis : Redis) (store : RuleStore) where
  open redis use {Db, hget, hset, hget-hset}

  -- What is on record after the commands of a `put` under several keys.
  claimed_by_put :
      (ks : List Text) (rule : Rule) (db : Db)
      → (length ks == 1) ≡ false
      → hget
          (run_pipe redis (put_commands store ks rule) db)
          (bucketing_meta_key store)
          num_buckets_field
        ≡ some (decimal store.num_buckets)
  unfolding put_commands run_pipe
  claimed_by_put ks rule db e =
      rw (e, run_pipe-append redis (rule_commands ks rule) (claim_command store ∷ []) db)
        (hget-hset (run_pipe redis (rule_commands ks rule) db) (bucketing_meta_key store)
            num_buckets_field (decimal store.num_buckets) (bucketing_meta_key store)
            num_buckets_field
          ∙ rw (text_eq_refl (bucketing_meta_key store)) refl)

  open_claimed :
      (asked : ℕ) (db : Db)
      → hget db (bucketing_meta_key store) num_buckets_field ≡ some (decimal store.num_buckets)
      → open_store redis store.namespace asked db ≡ (
          if store.num_buckets == asked
          then ok (record { namespace = store.namespace; num_buckets = asked })
          else err value_error)
  unfolding open_store check_claim bucketing_meta_key
  open_claimed asked db h =
      rw (h, parse_nat-decimal store.num_buckets)
        (elim (Bool-cases (store.num_buckets == asked)) [ inl e ↦ rw e refl | inr e ↦ rw e refl ])

  -- For a store whose bucket count is above 1 and has a token table: a `put` of a rule whose fqdn1
  -- pattern is of a bucketed tier, with a port from 1 to 65535, succeeds and claims the store's
  -- bucket count. After it a store of the same namespace opens exactly if it asks for that count,
  -- and raises ValueError for every other count, 1 included.
  pub open_store-put :
      (rule : Rule) (asked : ℕ) (db : Db)
      → IsUsable store
      → is_bucketed store (hash_tag rule.fqdn1) ≡ true
      → 0 < rule.port
      → rule.port < 65536
      → (db' : Db) × (put redis store rule db ≡ ok db')
        × (open_store redis store.namespace asked db' ≡ (
            if store.num_buckets == asked
            then ok (record { namespace = store.namespace; num_buckets = asked })
            else err value_error))
  unfolding put validate_port
  open_store-put rule asked db usable bucketed above below =
      let (ks, e, n) = keys_for_pattern-replicas store usable rule.fqdn1 rule.port bucketed in
      let many = is_bucketed-lt store (hash_tag rule.fqdn1) bucketed in
      let several : (length ks == 1) ≡ false = ne→== (length ks) 1 (λ one. omega arith) in
      (
        run_pipe redis (put_commands store ks rule) db,
        rw (lt→ltb 0 rule.port above, lt→ltb rule.port 65536 below, e) refl,
        open_claimed asked _ (claimed_by_put ks rule db several),
      )
