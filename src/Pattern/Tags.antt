-- ===== src/Pattern/Tags.antt =====
-- Hash tags of fqdnrules/fqdn_pattern.py: the three tiers, and which of them are bucketed.
use fun_with_dragonfly_db.Prelude.{
  ℕ, suc, ◌≡◌, ◌≢◌, ◌⊎◌, inl, inr, refl, ap, Bool, true, false, List, [], ◌∷◌, ◌++◌, arith, split,
  split-ne-nil, split-join, split-Lacks, All, All-append, Text, Lacks, text_eq, ◌||◌, starts_with,
  ◌∙◌, ne→text_eq, codes, contains, All-split, All-map, All-drop, Bool-cases,
}
use fun_with_dragonfly_db.Pattern.{
  dot, star, MatchMode, single_level, multi_level, Candidate, candidate, wildcard,
  parent_candidates, deep_from, deep_candidates, candidates, bucket_for, hash_tag, tag_of_labels,
  without_wildcard, global_tag, tld_prefix, is_bucketed_tag,
}

abbrev pub last_label : List Text → Text
last_label [] = []
last_label (l ∷ []) = l
last_label (l ∷ m ∷ ls) = last_label (m ∷ ls)

-- The three groups of one query.
abbrev pub InTier : List Text → Text → Type 0
InTier labels tag =
    (tag ≡ tag_of_labels labels) ⊎ ((tag ≡ tld_prefix ++ last_label labels) ⊎ (tag ≡ global_tag))

pub hash_tag-wildcard :
    (ls : List Text) → ls ≢ [] → All (Lacks dot) ls → hash_tag (wildcard ls) ≡ tag_of_labels ls
unfolding hash_tag without_wildcard
hash_tag-wildcard ls h l = ap tag_of_labels (split-join dot ls h l)

pub hash_tag-literal :
    (fqdn : Text) → Lacks b'*' fqdn → hash_tag fqdn ≡ tag_of_labels (split dot fqdn)
unfolding hash_tag without_wildcard
hash_tag-literal [] h = refl
hash_tag-literal (c ∷ s) (hc, hs) = ground arith

hash_tag-star : hash_tag star ≡ global_tag
unfolding hash_tag
hash_tag-star = refl

-- A suffix of the labels is in the tier of all of them, or is the last label.
suffix-InTier :
    (l : Text) (ls : List Text)
    → ls ≢ []
    → (tag_of_labels ls ≡ tag_of_labels (l ∷ ls))
      ⊎ (tag_of_labels ls ≡ tld_prefix ++ last_label (l ∷ ls))
unfolding tag_of_labels
suffix-InTier l [] h = absurd (h refl)
suffix-InTier l (m ∷ []) h = inr refl
suffix-InTier l (m ∷ n ∷ ls) h = inl refl

tail-InTier :
    (l m : Text) (ls : List Text) (tag : Text) → InTier (m ∷ ls) tag → InTier (l ∷ m ∷ ls) tag
tail-InTier l m ls tag (inl e) = elim (suffix-InTier l (m ∷ ls) (cc)) [
  | inl q ↦ inl (e ∙ q)
  | inr q ↦ inr (inl (e ∙ q))
]
tail-InTier l m ls tag (inr t) = inr t

module _ (b : ℕ) where
  wildcard-InTier :
      (rank : ℕ) (needs : Bool) (l : Text) (ls : List Text)
      → All (Lacks dot) (l ∷ ls)
      → InTier (l ∷ ls) (candidate (wildcard (l ∷ ls)) rank needs b).tag
  unfolding candidate
  wildcard-InTier rank needs l ls h = inl (hash_tag-wildcard (l ∷ ls) (cc) h)

  -- Tiers of a list of candidates.
  abbrev AllTiers : List Text → List Candidate → Type 0
  AllTiers labels = All (λ c. InTier labels c.tag)

  AllTiers-tail :
      (l m : Text) (ls : List Text) (cs : List Candidate)
      → AllTiers (m ∷ ls) cs
      → AllTiers (l ∷ m ∷ ls) cs
  AllTiers-tail l m ls [] h = tt
  AllTiers-tail l m ls (c ∷ cs) (hc, hcs) =
      (tail-InTier l m ls c.tag hc, AllTiers-tail l m ls cs hcs)

  deep_from-AllTiers :
      (k : ℕ) (l : Text) (ls : List Text)
      → All (Lacks dot) (l ∷ ls)
      → AllTiers (l ∷ ls) (deep_from k b (l ∷ ls))
  unfolding deep_from
  deep_from-AllTiers k l [] h = (wildcard-InTier k true l [] h, tt)
  deep_from-AllTiers k l (m ∷ ls) h = (
    wildcard-InTier k true l (m ∷ ls) h,
    AllTiers-tail l m ls (deep_from (suc k) b (m ∷ ls)) (deep_from-AllTiers (suc k) m ls h.1),
  )

  deep-AllTiers :
      (mode : MatchMode) (ls : List Text)
      → All (Lacks dot) ls
      → AllTiers ls (deep_candidates mode b ls)
  unfolding deep_candidates deep_from
  deep-AllTiers single_level ls h = tt
  deep-AllTiers multi_level [] h = tt
  deep-AllTiers multi_level (l ∷ []) h = tt
  deep-AllTiers multi_level (l ∷ m ∷ []) h = tt
  deep-AllTiers multi_level (l ∷ m ∷ n ∷ ls) h =
      AllTiers-tail l m (n ∷ ls) (deep_from 2 b (n ∷ ls))
        (AllTiers-tail m n ls (deep_from 2 b (n ∷ ls)) (deep_from-AllTiers 2 n ls h.1.1))

  parent-AllTiers : (ls : List Text) → All (Lacks dot) ls → AllTiers ls (parent_candidates b ls)
  unfolding parent_candidates
  parent-AllTiers [] h = tt
  parent-AllTiers (l ∷ []) h = tt
  parent-AllTiers (l ∷ m ∷ ls) h = (tail-InTier l m ls _ (wildcard-InTier 1 false m ls h.1), tt)

-- Every candidate of a concrete fqdn is in one of three groups: its registrable domain, its bare
-- TLD, or the global tier.
pub candidates-InTier :
    (fqdn : Text) (mode : MatchMode) (num_buckets : ℕ)
    → Lacks b'*' fqdn
    → All (λ c. InTier (split dot fqdn) c.tag) (candidates fqdn mode num_buckets)
unfolding candidates candidate
candidates-InTier fqdn mode num_buckets h = (
  inl (hash_tag-literal fqdn h),
  All-append _ (parent_candidates b labels) _ (parent-AllTiers b labels pieces) (
      All-append _ (deep_candidates mode b labels) _ (deep-AllTiers b mode labels pieces)
        (inr (inr hash_tag-star), tt)),
)
  where
    b : ℕ
    b = bucket_for fqdn num_buckets

    labels : List Text
    labels = split dot fqdn

    pieces : All (Lacks dot) labels
    pieces = split-Lacks dot fqdn

abbrev pub is_single : List Text → Bool
is_single (l ∷ []) = true
is_single ls = false

starts_with-prefix : (p s : Text) → starts_with (p ++ s) p ≡ true
starts_with-prefix [] s = refl
starts_with-prefix (c ∷ p) s = ground (arith, starts_with-prefix p s)

-- A prefix with a character that the text lacks.
not_starts_with : (c : ℕ) (s p q : Text) → Lacks c s → starts_with s (p ++ (c ∷ q)) ≡ false
not_starts_with c [] [] q h = refl
not_starts_with c [] (d ∷ p) q h = refl
not_starts_with c (e ∷ s) [] q (he, hs) = ground arith
not_starts_with c (e ∷ s) (d ∷ p) q (he, hs) = ground (arith, not_starts_with c s p q hs)

tld-IsBucketed : (l : Text) → is_bucketed_tag (tld_prefix ++ l) ≡ true
unfolding is_bucketed_tag
tld-IsBucketed l = refl

contains-middle : (b : ℕ) (s t : Text) → contains (s ++ (b ∷ t)) b ≡ true
contains-middle b [] t = ground arith
contains-middle b (c ∷ s) t = ground (arith, contains-middle b s t)

-- A tag of two labels has a dot, and no colon if the labels have none.
apex_not_bucketed :
    (l m : Text) → Lacks b':' l → Lacks b':' m → is_bucketed_tag (l ++ (dot ∷ m)) ≡ false
unfolding is_bucketed_tag
apex_not_bucketed l m hl hm = rw (
  ne→text_eq (l ++ (dot ∷ m)) global_tag dotted,
  not_starts_with b':' (l ++ (dot ∷ m)) (codes "__tld__") [] colons,
)
  where
    dotted : l ++ (dot ∷ m) ≢ global_tag
    dotted e = let c = ap (λ s. contains s dot) e in cc (contains-middle dot l m)

    colons : Lacks b':' (l ++ (dot ∷ m))
    colons = All-append (λ c. c ≢ b':') l (dot ∷ m) hl (omega arith, hm)

tag_of_labels-IsBucketed :
    (ls : List Text)
    → ls ≢ []
    → All (Lacks b':') ls
    → is_bucketed_tag (tag_of_labels ls) ≡ is_single ls
unfolding tag_of_labels
tag_of_labels-IsBucketed [] h l = absurd (h refl)
tag_of_labels-IsBucketed (l ∷ []) h hl = tld-IsBucketed l
tag_of_labels-IsBucketed (l ∷ m ∷ []) h (hl, (hm, _)) = apex_not_bucketed l m hl hm
tag_of_labels-IsBucketed (k ∷ l ∷ m ∷ ls) h (hk, hls) =
    tag_of_labels-IsBucketed (l ∷ m ∷ ls) (cc) hls

labels-Lacks : (b : ℕ) (s : Text) → Lacks b s → All (Lacks b) (split dot s)
labels-Lacks b s h =
    All-split dot (λ c. c ≢ b) s (All-map (λ c. c ≢ b) (λ c. c ≢ dot → c ≢ b) (λ c n d. n) s h)

without_wildcard-Lacks : (b : ℕ) (s : Text) → Lacks b s → Lacks b (without_wildcard s)
unfolding without_wildcard
without_wildcard-Lacks b s h = elim (Bool-cases (starts_with s (codes "*."))) [
  | inl e ↦ rw e (All-drop (λ c. c ≢ b) 2 s h)
  | inr e ↦ rw e h
]

-- Of the patterns without a colon, exactly the bare "*" and those over a single label are in a
-- bucketed tier; a pattern over two labels or more never is.
pub is_bucketed_tag-hash_tag :
    (p : Text)
    → Lacks b':' p
    → is_bucketed_tag (hash_tag p) ≡ (text_eq p star || is_single (split dot (without_wildcard p)))
unfolding hash_tag
is_bucketed_tag-hash_tag p h = elim (Bool-cases (text_eq p star)) [
  | inl e ↦ rw e (unfold is_bucketed_tag in refl)
  | inr e ↦ rw e (
      tag_of_labels-IsBucketed (split dot (without_wildcard p))
        (split-ne-nil dot (without_wildcard p))
        (labels-Lacks b':' (without_wildcard p) (without_wildcard-Lacks b':' p h)))
]
