-- ===== src/Router/Placement.antt =====
-- Where the keys of fqdnrules/fqdn_router.py land: the slot of a key of `_key`.
use fun_with_dragonfly_db.Prelude.{
  ℕ, ◌≤◌, ◌<◌, ◌≡◌, ◌≢◌, refl, ap, sym, ◌∙◌, true, [], ◌∷◌, ◌++◌, arith, All-append, Text, Lacks,
  codes, encode, decimal, decimal-Lacks, ok, Result, ◌>>=◌, err, Bool, Bool-cases, inl, inr,
  decimal-ne-nil,
}
use fun_with_dragonfly_db.Slots.{
  BucketTable, compute_bucket_table, token, slot, key_slot, range_lo, range_hi,
}
use fun_with_dragonfly_db.Slots.KeySlot.{key_slot_tagged}
use fun_with_dragonfly_db.Slots.Table.{IsToken, compute_bucket_table-IsTable}
use fun_with_dragonfly_db.Router.{RuleStore, colon, is_bucketed, bucketed_key, plain_key, key}
use fun_with_dragonfly_db.Router.Keys.{IsUsable, IsBucket, is_bucketed-lt}

abbrev tail_of : Text → ℕ → Text
tail_of p port = colon ∷ (p ++ (colon ∷ decimal port))

module _ (store : RuleStore) (b : ℕ) (tag p : Text) (port : ℕ) where
  plain_slot :
      Lacks b'}' store.namespace
      → Lacks b'}' tag
      → key_slot (plain_key store.namespace tag p port)
        ≡ slot (encode (store.namespace ++ (colon ∷ tag)))
  plain_slot hn ht =
      key_slot_tagged (codes "r:") (store.namespace ++ (colon ∷ tag)) (tail_of p port)
        (ground arith)
        (All-append (λ c. c ≢ b'}') store.namespace (colon ∷ tag) hn (omega arith, ht))
        (ne store.namespace)
    where
      ne : (s : Text) → s ++ (colon ∷ tag) ≢ []
      ne [] e = absurd (cc)
      ne (c ∷ s) e = absurd (cc)

  bucketed_slot :
      (tok : Text)
      → Lacks b'{' store.namespace
      → Lacks b'}' tok
      → tok ≢ []
      → key_slot (bucketed_key store.namespace tok tag b p port) ≡ slot (encode tok)
  bucketed_slot tok hn ht ne =
      key_slot_tagged (codes "r:" ++ (store.namespace ++ (colon ∷ []))) tok
        (colon ∷ (tag ++ (colon ∷ (decimal b ++ tail_of p port))))
        (
          omega arith,
          (
            omega arith,
            All-append (λ c. c ≢ b'{') store.namespace (colon ∷ []) hn (omega arith, tt),
          ),
        )
        ht ne

-- The token that a bucketed key carries.
bucket_token : RuleStore → ℕ → Result Text
bucket_token store b = do table ← compute_bucket_table store.num_buckets; token table b

token_of_result :
    (r : Result Text) (make : Text → Text) (k : Text)
    → (do tok ← r; ok (make tok)) ≡ ok k
    → (tok : Text) × (r ≡ ok tok) × (k ≡ make tok)
token_of_result (ok tok) make k e = (tok, refl, cc)
token_of_result (err x) make k e = absurd (cc)

token_of_table :
    (m : Result BucketTable) (b : ℕ) (make : Text → Text) (k : Text)
    → (do table ← m; tok ← token table b; ok (make tok)) ≡ ok k
    → (tok : Text) × ((do table ← m; token table b) ≡ ok tok) × (k ≡ make tok)
token_of_table (ok t) b make k e = token_of_result (token t b) make k e
token_of_table (err x) b make k e = absurd (cc)

token_of_key :
    (store : RuleStore) (tag : Text) (b : ℕ) (p : Text) (port : ℕ) (k : Text)
    → is_bucketed store tag ≡ true
    → key store tag b p port ≡ ok k
    → (tok : Text) × (bucket_token store b ≡ ok tok)
      × (k ≡ bucketed_key store.namespace tok tag b p port)
unfolding key bucket_token
token_of_key store tag b p port k h e =
    token_of_table (compute_bucket_table store.num_buckets) b
      (λ tok. bucketed_key store.namespace tok tag b p port) k (rw h at e)

module _ (store : RuleStore) (usable : IsUsable store) (b : ℕ) (legal : IsBucket store b) where
  IsToken-of_bucket :
      (tag : Text)
      → is_bucketed store tag ≡ true
      → (tok : Text) × (safe : Bool) × (bucket_token store b ≡ ok tok)
        × IsToken store.num_buckets safe b tok
  unfolding bucket_token
  IsToken-of_bucket tag h = elim usable [
    | inl few ↦ absurd (omega (arith, is_bucketed-lt store tag h))
    | inr (t, e) ↦
        let (tok, there, good, _) =
          (compute_bucket_table-IsTable store.num_buckets t e).each b
            (legal (is_bucketed-lt store tag h)) in
        (tok, t.modulo_safe, (rw e there), good)
  ]

  -- The slot of a key of a bucketed tier is the slot of its bucket's token.
  slot_of_key :
      (tag p : Text) (port : ℕ) (k : Text)
      → Lacks b'{' store.namespace
      → is_bucketed store tag ≡ true
      → key store tag b p port ≡ ok k
      → (tok : Text) × (safe : Bool) × (bucket_token store b ≡ ok tok)
        × IsToken store.num_buckets safe b tok
        × (key_slot k ≡ slot (encode tok))
  slot_of_key tag p port k hn h e =
      let (tok, safe, there, good) = IsToken-of_bucket tag h in
      let (tok', there', same) = token_of_key store tag b p port k h e in
      let eq : tok' ≡ tok = cc in
      (
        tok,
        safe,
        there,
        good,
        rw (same, eq)
            (bucketed_slot store b tag p port tok hn
              (rw good.numeral (decimal-Lacks good.counter b'}' (λ d. omega (arith, d.0, d.1))))
              (rw good.numeral (decimal-ne-nil good.counter))),
      )

  -- The key of a rule of a bucketed tier lands in the slot share of its bucket, so the replicas of
  -- the rule are spread over the slot space.
  pub key_slot_bucketed :
      (tag p : Text) (port : ℕ) (k : Text)
      → Lacks b'{' store.namespace
      → is_bucketed store tag ≡ true
      → key store tag b p port ≡ ok k
      → (range_lo b store.num_buckets ≤ key_slot k) × (key_slot k < range_hi b store.num_buckets)
  key_slot_bucketed tag p port k hn h e =
      let (tok, safe, there, good, eq) = slot_of_key tag p port k hn h e in
      (rw eq good.above, rw eq good.below)

  -- For a store whose bucket count is at most 1 or has a token table, whose namespace has neither
  -- `{` nor `}`, a bucket index of the store, and a tag without `}`: two keys of this tag and this
  -- bucket, if both are built without an error, land in one slot, whatever their patterns and
  -- ports.
  pub key_slot_together :
      (tag p p' : Text) (port port' : ℕ) (k k' : Text)
      → Lacks b'{' store.namespace
      → Lacks b'}' store.namespace
      → Lacks b'}' tag
      → key store tag b p port ≡ ok k
      → key store tag b p' port' ≡ ok k'
      → key_slot k ≡ key_slot k'
  key_slot_together tag p p' port port' k k' ho hc ht e e' =
      elim (Bool-cases (is_bucketed store tag)) [
        | inl h ↦
            let (tok, safe, there, good, eq) = slot_of_key tag p port k ho h e in
            let (tok', safe', there', good', eq') = slot_of_key tag p' port' k' ho h e' in
            let same : tok ≡ tok' = cc in eq ∙ ap (λ t. slot (encode t)) same ∙ sym eq'
        | inr h ↦
            let q : plain_key store.namespace tag p port ≡ k = unfold key in cc (rw h at e) in
            let q' : plain_key store.namespace tag p' port' ≡ k' = unfold key in cc (rw h at e') in
            ap key_slot (sym q)
            ∙ plain_slot store b tag p port hc ht
            ∙ sym (plain_slot store b tag p' port' hc ht)
            ∙ ap key_slot q'
      ]
