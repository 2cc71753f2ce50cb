-- ===== src/Router/History.antt =====
-- Any sequence of writes to a rule store of fqdnrules/fqdn_router.py, against the abstract table.
use fun_with_dragonfly_db.Prelude.{
  ℕ, ◌<◌, ◌≡◌, refl, ap, sym, ◌∙◌, inl, inr, Bool, ◌&&◌, Option, none, some, List, [], ◌∷◌, ◌==◌,
  if◌then◌else◌, Bool-cases, All, Text, Lacks, text_eq, Result, ok, ◌>>=◌,
}
use fun_with_dragonfly_db.Pattern.{MatchMode, normalize_fqdn}
use fun_with_dragonfly_db.Redis.{Redis}
use fun_with_dragonfly_db.Router.{
  RuleStore, Rule, colon, put, put_many, delete, lookup, to_match, rule_value,
}
use fun_with_dragonfly_db.Router.Keys.{IsUsable}
use fun_with_dragonfly_db.Router.Many.{put_each, put_many-put_each}
use fun_with_dragonfly_db.Router.Reads.{IsPuttable, is_cell, put_lem, delete_lem, reader_key}
use fun_with_dragonfly_db.Router.Reference.{value_at}
use fun_with_dragonfly_db.Router.Refines.{option_text, Agrees, lookup-table_match}
use fun_with_dragonfly_db.Router.Table.{
  Entry, RuleTable, no_rules, entry_of, change, register, register_all, table_match,
}

-- A write to a store.
pub data Write : Type 0 where
  put_one : Rule → Write
  put_all : List Rule → Write
  delete_one : (fqdn1 : Text) (port : ℕ) (fqdn2 : Text) → Write

-- What it does to a table.
unfoldable pub apply_write : Write → RuleTable → RuleTable
apply_write (put_one rule) table = register rule table
apply_write (put_all rules) table = register_all rules table
apply_write (delete_one p port g) table = change p port g none table

unfoldable pub apply_writes : List Write → RuleTable → RuleTable
unfolding apply_write
apply_writes [] table = table
apply_writes (w ∷ ws) table = apply_writes ws (apply_write w table)

-- The port is in range, and the fqdn1 pattern has no colon.
pub record IsLegalRule (rule : Rule) : Type 0 where
  pub positive : 0 < rule.port
  pub below : rule.port < 65536
  pub clean : Lacks colon rule.fqdn1

abbrev pub IsLegalWrite : Write → Type 0
IsLegalWrite (put_one rule) = IsLegalRule rule
IsLegalWrite (put_all rules) = All IsLegalRule rules
IsLegalWrite (delete_one p port g) = Lacks colon p

-- A server with no values.
abbrev pub IsFlushed : (redis : Redis) → redis.Db → Type 0
IsFlushed redis db = (k f : Text) → redis.hget db k f ≡ none

module _ (redis : Redis) (store : RuleStore) where
  -- What it does to the server.
  unfoldable pub run_write : Write → redis.Db → Result redis.Db
  run_write (put_one rule) db = put redis store rule db
  run_write (put_all rules) db = put_many redis store rules db
  run_write (delete_one p port g) db = do (found, db') ← delete redis store p port g db; ok db'

  unfoldable pub run_writes : List Write → redis.Db → Result redis.Db
  unfolding run_write
  run_writes [] db = ok db
  run_writes (w ∷ ws) db = do db' ← run_write w db; run_writes ws db'

  module _ (usable : IsUsable store) where
    legal-IsPuttable : (rule : Rule) → IsLegalRule rule → IsPuttable redis store usable rule
    legal-IsPuttable rule h = record { positive = h.positive; below = h.below; clean = h.clean }

    option_text-change :
        (table : RuleTable) (p : Text) (port : ℕ) (g : Text) (entry : Option Entry) (p' : Text)
        (port' : ℕ) (f : Text)
        → option_text (change p port g entry table p' port' f) ≡ (
            if (text_eq p p' && port == port') && text_eq g f
            then option_text entry
            else option_text (table p' port' f))
    unfolding change
    option_text-change table p port g entry p' port' f =
        elim (Bool-cases ((text_eq p p' && port == port') && text_eq g f)) [
          | inl e ↦ rw e refl
          | inr e ↦ rw e refl
        ]

    put-Agrees :
        (table : RuleTable) (rule : Rule) (db : redis.Db)
        → IsLegalRule rule
        → Agrees redis store usable db table
        → (db' : redis.Db) × (put redis store rule db ≡ ok db')
          × Agrees redis store usable db' (register rule table)
    put-Agrees table rule db h agrees =
        let (db', e, reads) = put_lem redis store usable rule db (legal-IsPuttable rule h) in
        (
          db',
          e,
          λ c port' f r.
              reads c port' f r
              ∙ ap
                  (λ o.
                    if is_cell redis store usable rule.fqdn1 rule.port c port'
                      && text_eq rule.fqdn2 f
                    then some (rule_value rule)
                    else o)
                  (agrees c port' f r)
              ∙ sym (
                  option_text-change table rule.fqdn1 rule.port rule.fqdn2 (some (entry_of rule))
                    c.pattern_text port' f),
        )

    put_each-Agrees :
        (table : RuleTable) (rules : List Rule) (db : redis.Db)
        → All IsLegalRule rules
        → Agrees redis store usable db table
        → (db' : redis.Db) × (put_each redis store rules db ≡ ok db')
          × Agrees redis store usable db' (register_all rules table)
    unfolding put_each
    put_each-Agrees table [] db h agrees = (db, refl, agrees)
    put_each-Agrees table (rule ∷ rules) db (h, hs) agrees =
        let (db', e, agrees') = put-Agrees table rule db h agrees in
        let (db'', e', agrees'') = put_each-Agrees (register rule table) rules db' hs agrees' in
        (db'', rw (e, e'), agrees'')

    puttables :
        (rules : List Rule) → All IsLegalRule rules → All (IsPuttable redis store usable) rules
    puttables [] h = tt
    puttables (rule ∷ rules) (h, hs) = (legal-IsPuttable rule h, puttables rules hs)

    pub put_many-Agrees :
        (table : RuleTable) (rules : List Rule) (db : redis.Db)
        → All IsLegalRule rules
        → Agrees redis store usable db table
        → (db' : redis.Db) × (put_many redis store rules db ≡ ok db')
          × Agrees redis store usable db' (register_all rules table)
    put_many-Agrees table rules db h agrees =
        let (db1, db2, e1, e2, same) =
          put_many-put_each redis store usable rules db (puttables rules h) in
        let (db3, e3, agrees') = put_each-Agrees table rules db h agrees in
        let eq : db3 ≡ db2 = cc in
        (
          db1,
          e1,
          λ c port f r.
              let (k, _, reads, other) = reader_key redis store usable c port r in
              reads db1 f
              ∙ same k f other
              ∙ sym (reads db2 f)
              ∙ ap (λ db. value_at redis store db port c f) (sym eq)
              ∙ agrees' c port f r,
        )

    delete-Agrees :
        (table : RuleTable) (p : Text) (port : ℕ) (g : Text) (db : redis.Db)
        → Lacks colon p
        → Agrees redis store usable db table
        → (found : Bool) × (db' : redis.Db) × (delete redis store p port g db ≡ ok (found, db'))
          × Agrees redis store usable db' (change p port g none table)
    delete-Agrees table p port g db h agrees =
        let (found, db', e, reads, _, _) = delete_lem redis store usable p port g db h in
        (
          found,
          db',
          e,
          λ c port' f r.
              reads c port' f r
              ∙ ap
                  (λ o.
                    if is_cell redis store usable p port c port' && text_eq g f then none else o)
                  (agrees c port' f r)
              ∙ sym (option_text-change table p port g none c.pattern_text port' f),
        )

    -- One write keeps the agreement.
    write-Agrees :
        (table : RuleTable) (w : Write) (db : redis.Db)
        → IsLegalWrite w
        → Agrees redis store usable db table
        → (db' : redis.Db) × (run_write w db ≡ ok db')
          × Agrees redis store usable db' (apply_write w table)
    unfolding run_write apply_write
    write-Agrees table (put_one rule) db h agrees = put-Agrees table rule db h agrees
    write-Agrees table (put_all rules) db h agrees = put_many-Agrees table rules db h agrees
    write-Agrees table (delete_one p port g) db h agrees =
        let (found, db', e, agrees') = delete-Agrees table p port g db h agrees in
        (db', rw e, agrees')

    writes-Agrees :
        (table : RuleTable) (ws : List Write) (db : redis.Db)
        → All IsLegalWrite ws
        → Agrees redis store usable db table
        → (db' : redis.Db) × (run_writes ws db ≡ ok db')
          × Agrees redis store usable db' (apply_writes ws table)
    unfolding run_writes apply_writes
    writes-Agrees table [] db h agrees = (db, refl, agrees)
    writes-Agrees table (w ∷ ws) db (h, hs) agrees =
        let (db', e, agrees') = write-Agrees table w db h agrees in
        let (db'', e', agrees'') = writes-Agrees (apply_write w table) ws db' hs agrees' in
        (db'', rw (e, e'), agrees'')

    pub flushed-Agrees :
        (db : redis.Db) → IsFlushed redis db → Agrees redis store usable db no_rules
    flushed-Agrees db h = λ c port f r.
        let (k, _, reads, _) = reader_key redis store usable c port r in reads db f ∙ h k f

    -- The store refines the abstract table, for every bucket count of at most 1 or with a token
    -- table. After any sequence of writes to a flushed server, with ports in range and no colon in
    -- an fqdn1 pattern, all of them succeed, and `lookup` answers as the table does after the same
    -- writes: every query of two names that normalize, the first without a colon, and of a port in
    -- range.
    pub lookup-run_writes :
        (ws : List Write) (db : redis.Db) (f1 f2 q1 q2 : Text) (port : ℕ) (mode : MatchMode)
        → IsFlushed redis db
        → All IsLegalWrite ws
        → normalize_fqdn f1 ≡ ok q1
        → normalize_fqdn f2 ≡ ok q2
        → Lacks colon q1
        → 0 < port
        → port < 65536
        → (db' : redis.Db) × (run_writes ws db ≡ ok db')
          × (lookup redis store f1 port f2 mode db'
              ≡ ok (to_match port (table_match (apply_writes ws no_rules) port q1 q2 mode)))
    lookup-run_writes ws db f1 f2 q1 q2 port mode flushed legal e1 e2 clean low high =
        let (db', e, agrees) = writes-Agrees no_rules ws db legal (flushed-Agrees db flushed) in
        (
          db',
          e,
          lookup-table_match redis store usable (apply_writes ws no_rules) db' f1 f2 q1 q2 port mode
              agrees e1 e2 clean low high,
        )

-- The bucket count makes no difference: two stores that get the same writes on a flushed server,
-- each under a usable count and a namespace of its own, the writes with ports in range and no colon
-- in an fqdn1 pattern, answer alike every query of two names that normalize, the first without a
-- colon, and of a port in range.
pub lookup-buckets :
    (redis : Redis) (store store' : RuleStore) (ws : List Write) (db : redis.Db)
    (f1 f2 q1 q2 : Text) (port : ℕ) (mode : MatchMode)
    → IsUsable store
    → IsUsable store'
    → IsFlushed redis db
    → All IsLegalWrite ws
    → normalize_fqdn f1 ≡ ok q1
    → normalize_fqdn f2 ≡ ok q2
    → Lacks colon q1
    → 0 < port
    → port < 65536
    → (db1 : redis.Db) × (db2 : redis.Db) × (run_writes redis store ws db ≡ ok db1)
      × (run_writes redis store' ws db ≡ ok db2)
      × (lookup redis store f1 port f2 mode db1 ≡ lookup redis store' f1 port f2 mode db2)
lookup-buckets redis store store' ws db f1 f2 q1 q2 port mode u u' flushed legal e1 e2 clean low
      high =
    let (db1, r1, l1) =
      lookup-run_writes redis store u ws db f1 f2 q1 q2 port mode flushed legal e1 e2 clean low
        high in
    let (db2, r2, l2) =
      lookup-run_writes redis store' u' ws db f1 f2 q1 q2 port mode flushed legal e1 e2 clean low
        high in
    (db1, db2, r1, r2, l1 ∙ sym l2)
