-- ===== src/Router/Reads.antt =====
-- What `put`, `put_many` and `delete` of fqdnrules/fqdn_router.py change for a reader: the one rule
-- that they name, in every bucket, and nothing else.
use fun_with_dragonfly_db.Prelude.{
  ℕ, ◌<◌, ◌≡◌, ◌≢◌, refl, ap, sym, ◌∙◌, inl, inr, Bool, true, false, ◌&&◌, none, some, List, [],
  ◌∷◌, ◌++◌, arith, ltb, lt→ltb, ◌==◌, if◌then◌else◌, Bool-cases, All, Text, Lacks, text_eq,
  text_eq_refl, text_eq→eq, ne→text_eq, length, ok,
}
use fun_with_dragonfly_db.Pattern.{hash_tag, Candidate}
use fun_with_dragonfly_db.Redis.{Redis}
use fun_with_dragonfly_db.Router.{
  RuleStore, Rule, HsetCommand, rule_value, rule_commands, put_commands, claim_command, run_pipe,
  put, validate_port, key, keys_for_pattern, colon, delete, delete_keys, bucketing_meta_key,
  num_buckets_field,
}
use fun_with_dragonfly_db.Router.Keys.{IsUsable, IsBucket, key_form, key_total}
use fun_with_dragonfly_db.Router.KeyText.{EndsIn, EndsIn-meta, key-EndsIn}
use fun_with_dragonfly_db.Router.Replicas.{
  mem_text, keys_for_pattern-total, keys_for_pattern-mem, keys-not_mem,
}
use fun_with_dragonfly_db.Router.Reference.{read_key, value_at}

module _ (redis : Redis) where
  open redis use {Db, hget, hset, hdel, hget-hset, hget-hdel, hdel_count}

  pub run_pipe-append :
      (cs ds : List HsetCommand) (db : Db)
      → run_pipe redis (cs ++ ds) db ≡ run_pipe redis ds (run_pipe redis cs db)
  unfolding run_pipe
  run_pipe-append [] ds db = refl
  run_pipe-append (c ∷ cs) ds db = run_pipe-append cs ds _

  -- The HSETs of one rule, as a reader of any key and field sees them.
  pub hget-rule_commands :
      (rule : Rule) (ks : List Text) (db : Db) (k f : Text)
      → hget (run_pipe redis (rule_commands ks rule) db) k f
        ≡ (if mem_text ks k && text_eq rule.fqdn2 f then some (rule_value rule) else hget db k f)
  unfolding run_pipe rule_commands
  hget-rule_commands rule [] db k f = refl
  hget-rule_commands rule (j ∷ ks) db k f = ground (
    arith,
    hget-rule_commands rule ks (hset j rule.fqdn2 (rule_value rule) db) k f,
    hget-hset db j rule.fqdn2 (rule_value rule) k f,
  )

  -- The claim of the bucket count is seen under its own key only.
  pub hget-claim :
      (store : RuleStore) (db : Db) (k f : Text)
      → k ≢ bucketing_meta_key store
      → hget (run_pipe redis (claim_command store ∷ []) db) k f ≡ hget db k f
  unfolding run_pipe
  hget-claim store db k f h =
      hget-hset db (bucketing_meta_key store) num_buckets_field _ k f
      ∙ rw (ne→text_eq (bucketing_meta_key store) k (λ e. h (sym e)))

  pub hget-put_commands :
      (store : RuleStore) (rule : Rule) (ks : List Text) (db : Db) (k f : Text)
      → k ≢ bucketing_meta_key store
      → hget (run_pipe redis (put_commands store ks rule) db) k f
        ≡ (if mem_text ks k && text_eq rule.fqdn2 f then some (rule_value rule) else hget db k f)
  unfolding put_commands
  hget-put_commands store rule ks db k f h = elim (Bool-cases (length ks == 1)) [
    | inl e ↦ rw e (hget-rule_commands rule ks db k f)
    | inr e ↦
        rw (e, run_pipe-append (rule_commands ks rule) (claim_command store ∷ []) db)
          (hget-claim store _ k f h ∙ hget-rule_commands rule ks db k f)
  ]

  hget-delete_keys :
      (ks : List Text) (g : Text) (db : Db) (k f : Text)
      → hget (delete_keys redis ks g db).1 k f
        ≡ (if mem_text ks k && text_eq g f then none else hget db k f)
  unfolding delete_keys
  hget-delete_keys [] g db k f = refl
  hget-delete_keys (j ∷ ks) g db k f =
      ground (arith, hget-delete_keys ks g (hdel j g db).1 k f, hget-hdel db j g k f)

  -- A key with a value, of those that are cleared, is counted.
  delete_keys-found :
      (ks : List Text) (g : Text) (db : Db) (k v : Text)
      → mem_text ks k ≡ true
      → hget db k g ≡ some v
      → (delete_keys redis ks g db).0 ≡ true
  unfolding delete_keys
  delete_keys-found [] g db k v m h = absurd (cc)
  delete_keys-found (j ∷ ks) g db k v m h = elim (Bool-cases (text_eq j k)) [
    | inl t ↦
        let same : j ≡ k = text_eq→eq j k t in
        let there : hget db j g ≡ some v = ap (λ q. hget db q g) same ∙ h in
        rw (hdel_count db j g, there) refl
    | inr t ↦
        let kept : hget (hdel j g db).1 k g ≡ some v = hget-hdel db j g k g ∙ (rw t h) in
        let found = delete_keys-found ks g (hdel j g db).1 k v (rw t at m) kept in
        rw found (ground (arith, Bool-cases (ltb 0 (hdel j g db).0)))
  ]

  delete_keys-none :
      (ks : List Text) (g : Text) (db : Db)
      → ((k : Text) → mem_text ks k ≡ true → hget db k g ≡ none)
      → (delete_keys redis ks g db).0 ≡ false
  unfolding delete_keys
  delete_keys-none [] g db h = refl
  delete_keys-none (j ∷ ks) g db h =
      rw (hdel_count db j g, h j (rw (text_eq_refl j) refl))
        (delete_keys-none ks g (hdel j g db).1 later)
    where
      later : (k : Text) → mem_text ks k ≡ true → hget (hdel j g db).1 k g ≡ none
      later k m = hget-hdel db j g k g ∙ ground (arith, h k)

  module _ (store : RuleStore) (usable : IsUsable store) where
    -- A reader's candidate: some bucket of the store, and a pattern with no colon.
    pub record IsReader (c : Candidate) : Type 0 where
      pub tagged : c.tag ≡ hash_tag c.pattern_text
      pub legal : IsBucket store c.bucket_index
      pub clean : Lacks colon c.pattern_text

    -- Are these the pattern and the port of the rule?
    abbrev pub is_cell : Text → ℕ → Candidate → ℕ → Bool
    is_cell p port c port' = text_eq p c.pattern_text && port == port'

    mem-is_cell :
        (p : Text) (port : ℕ) (c : Candidate) (port' : ℕ) (ks : List Text) (k : Text)
        → IsReader c
        → Lacks colon p
        → keys_for_pattern store p port ≡ ok ks
        → All (λ j. EndsIn j p port) ks
        → key store (hash_tag c.pattern_text) c.bucket_index c.pattern_text port' ≡ ok k
        → mem_text ks k ≡ is_cell p port c port'
    mem-is_cell p port c port' ks k r lp es all e = elim (Bool-cases (is_cell p port c port')) [
      | inl t ↦
          let same : p ≡ c.pattern_text = text_eq→eq p c.pattern_text (ground arith) in
          let ports : port ≡ port' = ground arith in
          let e' : key store (hash_tag p) c.bucket_index p port ≡ ok k =
            ap (λ q. key store (hash_tag q) c.bucket_index q port) same
            ∙ ap (λ n. key store (hash_tag c.pattern_text) c.bucket_index c.pattern_text n) ports
            ∙ e in
          keys_for_pattern-mem store usable p port c.bucket_index ks k r.legal es e' ∙ sym t
      | inr t ↦
          keys-not_mem p c.pattern_text port port' ks k lp r.clean all (ending port' k e)
            (λ (same, ports). cc (ne_of_cell same ports))
          ∙ sym t
    ]
      where
        ending :
            (n : ℕ) (j : Text)
            → key store (hash_tag c.pattern_text) c.bucket_index c.pattern_text n ≡ ok j
            → EndsIn j c.pattern_text n
        ending n j q =
            key-EndsIn store (hash_tag c.pattern_text) c.bucket_index c.pattern_text n j
              (key_form store (hash_tag c.pattern_text) c.bucket_index c.pattern_text n usable
                r.legal)
              q

        ne_of_cell : p ≡ c.pattern_text → port ≡ port' → is_cell p port c port' ≡ true
        ne_of_cell same ports =
            let a : text_eq p c.pattern_text ≡ true = rw (← same) (text_eq_refl p) in ground arith

    -- What a reader sees at a key that agrees with the one that it builds.
    pub reader_key :
        (c : Candidate) (port' : ℕ)
        → IsReader c
        → (k : Text) × (key store (hash_tag c.pattern_text) c.bucket_index c.pattern_text port'
            ≡ ok k)
          × ((db : Db) (f : Text) → value_at redis store db port' c f ≡ hget db k f)
          × (k ≢ bucketing_meta_key store)
    unfolding value_at
    reader_key c port' r =
        let (k, e) =
          key_total store (hash_tag c.pattern_text) c.bucket_index c.pattern_text port' usable
            r.legal in
        let built : key store c.tag c.bucket_index c.pattern_text port' ≡ ok k =
          ap (λ t. key store t c.bucket_index c.pattern_text port') r.tagged ∙ e in
        (
          k,
          e,
          λ db f. ap (λ q. read_key redis db q f) built,
          EndsIn-meta store k c.pattern_text port' (
              key-EndsIn store (hash_tag c.pattern_text) c.bucket_index c.pattern_text port' k
                (key_form store (hash_tag c.pattern_text) c.bucket_index c.pattern_text port' usable
                  r.legal)
                e),
        )

    -- A rule that the store can take: its port is in range, and its pattern has no colon.
    pub record IsPuttable (rule : Rule) : Type 0 where
      pub positive : 0 < rule.port
      pub below : rule.port < 65536
      pub clean : Lacks colon rule.fqdn1

    -- `put` of a rule with a port in range succeeds. Afterwards every reader, whatever bucket it
    -- falls into, finds the rule's value under the rule's patterns and port, and under all others
    -- what it found before.
    pub put_lem :
        (rule : Rule) (db : Db)
        → IsPuttable rule
        → (db' : Db) × (put redis store rule db ≡ ok db')
          × ((c : Candidate) (port' : ℕ) (f : Text)
              → IsReader c
              → value_at redis store db' port' c f ≡ (
                  if is_cell rule.fqdn1 rule.port c port' && text_eq rule.fqdn2 f
                  then some (rule_value rule)
                  else value_at redis store db port' c f))
    unfolding put validate_port
    put_lem rule db ok_rule =
        let (ks, es, _, all) = keys_for_pattern-total store usable rule.fqdn1 rule.port in
        (
          run_pipe redis (put_commands store ks rule) db,
          rw (lt→ltb 0 rule.port ok_rule.positive, lt→ltb rule.port 65536 ok_rule.below, es),
          λ c port' f r.
              let (k, e, reads, other) = reader_key c port' r in
              reads _ f
              ∙ hget-put_commands store rule ks db k f other
              ∙ rw (
                mem-is_cell rule.fqdn1 rule.port c port' ks k r ok_rule.clean es all e,
                reads db f,
              ),
        )

    -- `delete` succeeds. Afterwards no reader finds a value under the triple, and all others find
    -- what they found before; the answer is true if a reader of the triple found a value, and a
    -- second `delete` answers false.
    pub delete_lem :
        (p : Text) (port : ℕ) (g : Text) (db : Db)
        → Lacks colon p
        → (found : Bool) × (db' : Db) × (delete redis store p port g db ≡ ok (found, db'))
          × ((c : Candidate) (port' : ℕ) (f : Text)
              → IsReader c
              → value_at redis store db' port' c f ≡ (
                  if is_cell p port c port' && text_eq g f
                  then none
                  else value_at redis store db port' c f))
          × ((c : Candidate) (v : Text)
              → IsReader c
              → p ≡ c.pattern_text
              → value_at redis store db port c g ≡ some v
              → found ≡ true)
          × ((db'' : Db) × (delete redis store p port g db' ≡ ok (false, db'')))
    unfolding delete
    delete_lem p port g db lp =
        let (ks, es, _, all) = keys_for_pattern-total store usable p port in
        let after : Db = (delete_keys redis ks g db).1 in
        (
          (delete_keys redis ks g db).0,
          after,
          rw es,
          λ c port' f r.
              let (k, e, reads, other) = reader_key c port' r in
              reads _ f
              ∙ hget-delete_keys ks g db k f
              ∙ rw (mem-is_cell p port c port' ks k r lp es all e, reads db f),
          λ c v r same there.
              let (k, e, reads, other) = reader_key c port r in
              delete_keys-found ks g db k v
                (mem-is_cell p port c port ks k r lp es all e ∙ here c same)
                (sym (reads db g) ∙ there),
          (
            (delete_keys redis ks g after).1,
            rw es (
                ap (λ n. ok (n, (delete_keys redis ks g after).1))
                  (delete_keys-none ks g after
                    (λ k m. hget-delete_keys ks g db k g ∙ rw (m, text_eq_refl g)))),
          ),
        )
      where
        here : (c : Candidate) → p ≡ c.pattern_text → is_cell p port c port ≡ true
        here c same =
            let a : text_eq p c.pattern_text ≡ true = rw (← same) (text_eq_refl p) in ground arith
