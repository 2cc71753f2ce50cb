-- ===== src/Router/Keys.antt =====
-- The keys of fqdnrules/fqdn_router.py: when they can be built, and of what form they are.
use native.Mathlib.Nat.{mod-lt}
use fun_with_dragonfly_db.Prelude.{
  ℕ, suc, ◌≤◌, ◌<◌, ◌≡◌, refl, ◌⊎◌, inl, inr, Bool, true, false, List, [], ◌∷◌, arith, lt→ltb,
  Bool-cases, All, All-append, Text, split, ok,
}
use fun_with_dragonfly_db.Pattern.{
  dot, MatchMode, single_level, multi_level, Candidate, candidate, candidates, bucket_for, hash_tag,
  is_bucketed_tag, parent_candidates, deep_from, deep_candidates,
}
use fun_with_dragonfly_db.Slots.{BucketTable, compute_bucket_table}
use fun_with_dragonfly_db.Slots.Table.{IsToken, compute_bucket_table-IsTable}
use fun_with_dragonfly_db.Router.{RuleStore, is_bucketed, bucketed_key, plain_key, key}

-- A store whose keys can be built: it does not bucket, or its token table exists.
abbrev pub IsUsable : RuleStore → Type 0
IsUsable store =
    (store.num_buckets ≤ 1) ⊎ ((t : BucketTable) × (compute_bucket_table store.num_buckets ≡ ok t))

-- A bucket index that the store may use.
abbrev pub IsBucket : RuleStore → ℕ → Type 0
IsBucket store b = (1 < store.num_buckets → b < store.num_buckets)

pub is_bucketed-lt :
    (store : RuleStore) (tag : Text) → is_bucketed store tag ≡ true → 1 < store.num_buckets
is_bucketed-lt store tag h = ground (arith, Bool-cases (is_bucketed_tag tag))

-- The two forms of a key.
pub data KeyForm (store : RuleStore) (tag : Text) (b : ℕ) (p : Text) (port : ℕ) : Type 0 where
  in_bucket :
      (tok : Text) (safe : Bool)
      → is_bucketed store tag ≡ true
      → IsToken store.num_buckets safe b tok
      → key store tag b p port ≡ ok (bucketed_key store.namespace tok tag b p port)
      → KeyForm store tag b p port
  unbucketed :
      is_bucketed store tag ≡ false
      → key store tag b p port ≡ ok (plain_key store.namespace tag p port)
      → KeyForm store tag b p port

bucketed_form :
    (store : RuleStore) (tag : Text) (b : ℕ) (p : Text) (port : ℕ) (t : BucketTable)
    → compute_bucket_table store.num_buckets ≡ ok t
    → b < store.num_buckets
    → is_bucketed store tag ≡ true
    → KeyForm store tag b p port
bucketed_form store tag b p port t e l h =
    let (tok, there, good, _) = (compute_bucket_table-IsTable store.num_buckets t e).each b l in
    in_bucket tok t.modulo_safe h good (unfold key in rw (h, e, there))

pub key_form :
    (store : RuleStore) (tag : Text) (b : ℕ) (p : Text) (port : ℕ)
    → IsUsable store
    → IsBucket store b
    → KeyForm store tag b p port
key_form store tag b p port usable legal = elim (Bool-cases (is_bucketed store tag)) [
  | inr h ↦ unbucketed h (unfold key in rw h)
  | inl h ↦
      let many = is_bucketed-lt store tag h in
      elim usable [
        | inl few ↦ absurd (omega arith)
        | inr (t, e) ↦ bucketed_form store tag b p port t e (legal many) h
      ]
]

pub key_total :
    (store : RuleStore) (tag : Text) (b : ℕ) (p : Text) (port : ℕ)
    → IsUsable store
    → IsBucket store b
    → (k : Text) × (key store tag b p port ≡ ok k)
key_total store tag b p port usable legal = elim (key_form store tag b p port usable legal) [
  | in_bucket tok safe h good e ↦ (bucketed_key store.namespace tok tag b p port, e)
  | unbucketed h e ↦ (plain_key store.namespace tag p port, e)
]

pub bucket_for-IsBucket :
    (fqdn : Text) (store : RuleStore) → IsBucket store (bucket_for fqdn store.num_buckets)
unfolding bucket_for
bucket_for-IsBucket fqdn store h = rw (lt→ltb 1 store.num_buckets h) (mod-lt _ (omega arith))

-- All candidates of a query carry the query's bucket, and the tag of their pattern.
abbrev pub IsOf : ℕ → Candidate → Type 0
IsOf b c = (c.bucket_index ≡ b) × (c.tag ≡ hash_tag c.pattern_text)

module _ (b : ℕ) where
  deep_from-IsOf : (k : ℕ) (ls : List Text) → All (IsOf b) (deep_from k b ls)
  unfolding deep_from candidate
  deep_from-IsOf k [] = tt
  deep_from-IsOf k (l ∷ ls) = ((refl, refl), deep_from-IsOf (suc k) ls)

  deep-IsOf : (mode : MatchMode) (ls : List Text) → All (IsOf b) (deep_candidates mode b ls)
  unfolding deep_candidates
  deep-IsOf single_level ls = tt
  deep-IsOf multi_level ls = deep_from-IsOf 2 _

  parent-IsOf : (ls : List Text) → All (IsOf b) (parent_candidates b ls)
  unfolding parent_candidates candidate
  parent-IsOf [] = tt
  parent-IsOf (l ∷ []) = tt
  parent-IsOf (l ∷ m ∷ ls) = ((refl, refl), tt)

pub candidates-IsOf :
    (fqdn : Text) (mode : MatchMode) (num_buckets : ℕ)
    → All (IsOf (bucket_for fqdn num_buckets)) (candidates fqdn mode num_buckets)
unfolding candidates candidate
candidates-IsOf fqdn mode num_buckets = (
  (refl, refl),
  All-append (IsOf b) (parent_candidates b labels) _ (parent-IsOf b labels) (
      All-append (IsOf b) (deep_candidates mode b labels) _ (deep-IsOf b mode labels)
        ((refl, refl), tt)),
)
  where
    b : ℕ
    b = bucket_for fqdn num_buckets

    labels : List Text
    labels = split dot fqdn
