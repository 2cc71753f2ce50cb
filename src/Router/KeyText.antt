-- ===== src/Router/KeyText.antt =====
-- The texts of the keys of fqdnrules/fqdn_router.py: different rules never share a key.
use fun_with_dragonfly_db.Prelude.{
  ℕ, ◌≡◌, ◌≢◌, refl, sym, ◌∙◌, [], ◌∷◌, ◌++◌, append_assoc, arith, Text, Lacks, codes, decimal,
  decimal-Lacks, decimal_injective, ok,
}
use fun_with_dragonfly_db.Router.{
  RuleStore, colon, bucketed_key, plain_key, key, bucketing_meta_key,
}
use fun_with_dragonfly_db.Router.Keys.{KeyForm, in_bucket, unbucketed}

not_inside : (sep : ℕ) (u v w : Text) → w ≡ u ++ (sep ∷ v) → Lacks sep w → ⊥
not_inside sep [] v [] q l = cc
not_inside sep [] v (c ∷ w) q (lc, lw) = lc (ground arith)
not_inside sep (c ∷ u) v [] q l = cc
not_inside sep (c ∷ u) v (d ∷ w) q (ld, lw) = not_inside sep u v w (ground arith) lw

-- The decomposition at the last separator is unique.
last_sep_injective :
    (sep : ℕ) (x y s t : Text)
    → Lacks sep s
    → Lacks sep t
    → x ++ (sep ∷ s) ≡ y ++ (sep ∷ t)
    → (x ≡ y) × (s ≡ t)
last_sep_injective sep [] [] s t hs ht e = ground arith
last_sep_injective sep [] (d ∷ y) s t hs ht e = absurd (not_inside sep y t s (ground arith) hs)
last_sep_injective sep (c ∷ x) [] s t hs ht e = absurd (not_inside sep x s t (ground arith) ht)
last_sep_injective sep (c ∷ x) (d ∷ y) s t hs ht e =
    ground (arith, last_sep_injective sep x y s t hs ht)

decimal-colon : (n : ℕ) → Lacks colon (decimal n)
decimal-colon n = decimal-Lacks n colon (λ (lo, hi). omega arith)

-- What stands before the bucket, the pattern and the port.
bucketed_front : Text → Text → Text → Text
bucketed_front ns tok tag =
    (codes "r:" ++ (ns ++ (colon ∷ []))) ++ (b'{' ∷ (tok ++ (b'}' ∷ (colon ∷ tag))))

plain_front : Text → Text → Text
plain_front ns tag = codes "r:" ++ (b'{' ∷ ((ns ++ (colon ∷ tag)) ++ (b'}' ∷ [])))

bucketed_key-split :
    (ns tok tag : Text) (b : ℕ) (p : Text) (port : ℕ)
    → bucketed_key ns tok tag b p port
      ≡ ((bucketed_front ns tok tag ++ (colon ∷ decimal b)) ++ (colon ∷ p))
        ++ (colon ∷ decimal port)
unfolding bucketed_front
bucketed_key-split ns tok tag b p port = simp append_assoc

plain_key-split :
    (ns tag p : Text) (port : ℕ)
    → plain_key ns tag p port ≡ (plain_front ns tag ++ (colon ∷ p)) ++ (colon ∷ decimal port)
unfolding plain_front
plain_key-split ns tag p port = simp append_assoc

-- A key that ends in a pattern and a port.
pub record EndsIn (k p : Text) (port : ℕ) : Type 0 where
  pub front : Text
  pub whole : k ≡ (front ++ (colon ∷ p)) ++ (colon ∷ decimal port)

pub EndsIn-injective :
    (k p1 p2 : Text) (port1 port2 : ℕ) (x : EndsIn k p1 port1) (y : EndsIn k p2 port2)
    → Lacks colon p1
    → Lacks colon p2
    → (p1 ≡ p2) × (port1 ≡ port2) × (x.front ≡ y.front)
EndsIn-injective k p1 p2 port1 port2 x y l1 l2 =
    let (same_front, same_port) =
      last_sep_injective colon (x.front ++ (colon ∷ p1)) (y.front ++ (colon ∷ p2)) (decimal port1)
        (decimal port2) (decimal-colon port1) (decimal-colon port2) (sym x.whole ∙ y.whole) in
    let (fronts, same_pattern) = last_sep_injective colon x.front y.front p1 p2 l1 l2 same_front in
    (same_pattern, decimal_injective port1 port2 same_port, fronts)

-- No key of a rule is the key of the namespace's bucketing record.
pub EndsIn-meta :
    (store : RuleStore) (k p : Text) (port : ℕ) → EndsIn k p port → k ≢ bucketing_meta_key store
unfolding bucketing_meta_key
EndsIn-meta store k p port x e =
    let ends =
      last_sep_injective colon (x.front ++ (colon ∷ p))
        (codes "r:" ++ (b'{' ∷ (store.namespace ++ codes ":__meta__}"))) (decimal port)
        (codes "bucketing") (decimal-colon port) (omega arith)
        (sym x.whole ∙ e ∙ (simp append_assoc)) in
    (rw ends.1 at (decimal-Lacks port b'b' (λ (lo, hi). omega arith))).0 refl

module _ (store : RuleStore) where
  pub key-EndsIn :
      (tag : Text) (b : ℕ) (p : Text) (port : ℕ) (k : Text)
      → KeyForm store tag b p port
      → key store tag b p port ≡ ok k
      → EndsIn k p port
  key-EndsIn tag b p port k (in_bucket tok safe h good e) q = record {
    front = bucketed_front store.namespace tok tag ++ (colon ∷ decimal b);
    whole =
        let same : bucketed_key store.namespace tok tag b p port ≡ k = ground arith in
        sym same ∙ bucketed_key-split store.namespace tok tag b p port;
  }
  key-EndsIn tag b p port k (unbucketed h e) q = record {
    front = plain_front store.namespace tag;
    whole =
        let same : plain_key store.namespace tag p port ≡ k = ground arith in
        sym same ∙ plain_key-split store.namespace tag p port;
  }
