-- ===== src/Router/Replicas.antt =====
-- The replica keys that `_keys_for_pattern` of fqdnrules/fqdn_router.py lists: they are the keys
-- that a lookup of any bucket may use, and no others.
use fun_with_dragonfly_db.Prelude.{
  ℕ, zero, suc, ◌+◌, ◌≤◌, ◌<◌, ◌≡◌, ◌≢◌, refl, ap, ◌⊎◌, inl, inr, Bool, true, false, List, [], ◌∷◌,
  arith, ltb, if◌then◌else◌, Bool-cases, All, Text, Lacks, text_eq, text_eq_refl, ne→text_eq, ok,
  ◌>>=◌, bind-eq-ok, length,
}
use fun_with_dragonfly_db.Pattern.{hash_tag}
use fun_with_dragonfly_db.Router.{
  RuleStore, is_bucketed, colon, key, replica_keys, keys_for_pattern,
}
use fun_with_dragonfly_db.Router.Keys.{IsUsable, IsBucket, key_form, key_total, is_bucketed-lt}
use fun_with_dragonfly_db.Router.KeyText.{EndsIn, EndsIn-injective, key-EndsIn}

abbrev pub mem_text : List Text → Text → Bool
mem_text [] k = false
mem_text (j ∷ js) k = if text_eq j k then true else mem_text js k

mem_text-false : (js : List Text) (k : Text) → All (λ j. j ≢ k) js → mem_text js k ≡ false
mem_text-false [] k h = refl
mem_text-false (j ∷ js) k (hj, hjs) = rw (ne→text_eq j k hj, mem_text-false js k hjs)

module _ (store : RuleStore) (usable : IsUsable store) (p : Text) (port : ℕ) where
  abbrev tag : Text
  tag = hash_tag p

  replicas_total :
      (i rounds : ℕ)
      → i + rounds ≤ store.num_buckets
      → (ks : List Text) × (replica_keys store tag p port i rounds ≡ ok ks)
        × (length ks ≡ rounds)
        × All (λ k. EndsIn k p port) ks
  unfolding replica_keys
  replicas_total i zero h = ([], refl, refl, tt)
  replicas_total i (suc rounds) h =
      let legal : IsBucket store i = λ _. omega arith in
      let (k, e) = key_total store tag i p port usable legal in
      let (ks, es, n, all) = replicas_total (suc i) rounds (omega arith) in
      (
        k ∷ ks,
        rw (e, es),
        ap suc n,
        (key-EndsIn store tag i p port k (key_form store tag i p port usable legal) e, all),
      )

  replicas-mem :
      (i rounds b : ℕ) (ks : List Text) (k : Text)
      → replica_keys store tag p port i rounds ≡ ok ks
      → key store tag b p port ≡ ok k
      → i ≤ b
      → b < i + rounds
      → mem_text ks k ≡ true
  unfolding replica_keys
  replicas-mem i zero b ks k es e lo hi = absurd (omega arith)
  replicas-mem i (suc rounds) b ks k es e lo hi =
      let (j, ej, r) =
        bind-eq-ok (key store tag i p port)
          (λ k. replica_keys store tag p port (suc i) rounds >>= λ ks. ok (k ∷ ks)) es in
      let (js, ejs, q) =
        bind-eq-ok (replica_keys store tag p port (suc i) rounds) (λ ks. ok (j ∷ ks)) r in
      let whole : j ∷ js ≡ ks = ground arith in
      rw (← whole) (elim (Bool-cases (ltb i b)) [
        | inl l ↦
            ground (arith, replicas-mem (suc i) rounds b js k ejs e (ground arith) (omega arith))
        | inr l ↦
            let same : i ≡ b = ground arith in
            let keys : j ≡ k = cc (ap (λ n. key store tag n p port) same) in
            rw (keys, text_eq_refl k)
      ])

  -- The keys of a pattern can be listed, and all of them end in the pattern and the port.
  pub keys_for_pattern-total :
      (ks : List Text) × (keys_for_pattern store p port ≡ ok ks)
      × ((length ks ≡ 1) ⊎ ((is_bucketed store tag ≡ true) × (length ks ≡ store.num_buckets)))
      × All (λ k. EndsIn k p port) ks
  unfolding keys_for_pattern
  keys_for_pattern-total = elim (Bool-cases (is_bucketed store tag)) [
    | inl h ↦
        let (ks, e, n, all) = replicas_total 0 store.num_buckets (omega arith) in
        (ks, rw (h, e), inr (h, n), all)
    | inr h ↦
        let legal : IsBucket store 0 = λ l. omega arith in
        let (k, e) = key_total store tag 0 p port usable legal in
        (
          k ∷ [],
          rw (h, e),
          inl refl,
          (key-EndsIn store tag 0 p port k (key_form store tag 0 p port usable legal) e, tt),
        )
  ]

  -- A bucketed pattern has a key for each bucket.
  pub keys_for_pattern-replicas :
      is_bucketed store tag ≡ true
      → (ks : List Text) × (keys_for_pattern store p port ≡ ok ks) × (length ks ≡ store.num_buckets)
  unfolding keys_for_pattern
  keys_for_pattern-replicas h =
      let (ks, e, n, all) = replicas_total 0 store.num_buckets (omega arith) in (ks, rw (h, e), n)

  unbucketed_same :
      (b : ℕ) → is_bucketed store tag ≡ false → key store tag b p port ≡ key store tag 0 p port
  unfolding key
  unbucketed_same b h = rw h

  -- Whatever bucket a query falls into, the key that it reads is among them.
  pub keys_for_pattern-mem :
      (b : ℕ) (ks : List Text) (k : Text)
      → IsBucket store b
      → keys_for_pattern store p port ≡ ok ks
      → key store tag b p port ≡ ok k
      → mem_text ks k ≡ true
  unfolding keys_for_pattern
  keys_for_pattern-mem b ks k legal es e = elim (Bool-cases (is_bucketed store tag)) [
    | inl h ↦
        let many = is_bucketed-lt store tag h in
        replicas-mem 0 store.num_buckets b ks k (rw h at es) e (omega arith)
          (let l = legal many in omega arith)
    | inr h ↦
        let (j, ej, q) = bind-eq-ok (key store tag 0 p port) (λ k. ok (k ∷ [])) (rw h at es) in
        let whole : j ∷ [] ≡ ks = ground arith in
        let keys : j ≡ k = cc (unbucketed_same b h) in rw (← whole, keys, text_eq_refl k)
  ]

-- A key that ends in another pattern or port is not among them.
pub keys-not_mem :
    (p q : Text) (port port' : ℕ) (ks : List Text) (k : Text)
    → Lacks colon p
    → Lacks colon q
    → All (λ j. EndsIn j p port) ks
    → EndsIn k q port'
    → ((p ≡ q) × (port ≡ port') → ⊥)
    → mem_text ks k ≡ false
keys-not_mem p q port port' ks k lp lq all x h = mem_text-false ks k (others ks all)
  where
    others : (js : List Text) → All (λ j. EndsIn j p port) js → All (λ j. j ≢ k) js
    others [] a = tt
    others (j ∷ js) (aj, ajs) = (
      λ e.
          let (same, ports, _) = EndsIn-injective k p q port port' (rw e at aj) x lp lq in
          h (same, ports),
      others js ajs,
    )
