-- ===== src/Pattern/Covers.antt =====
-- Which patterns `candidates` of fqdnrules/fqdn_pattern.py generates, against the description of
-- the two matching semantics in the head of that file.
use fun_with_dragonfly_db.Prelude.{
  ℕ, suc, ◌≤◌, ◌≡◌, ◌≢◌, ◌↔◌, ◌⊎◌, inl, inr, refl, List, [], ◌∷◌, ◌++◌, arith, length, split, Text,
  sym, ◌∙◌, false, append_assoc, length-append,
}
use fun_with_dragonfly_db.Pattern.{
  dot, star, MatchMode, single_level, multi_level, Candidate, candidate, wildcard, global_rank,
  parent_candidates, deep_from, deep_candidates, candidates, bucket_for,
}

-- A text among the patterns of a list of candidates.
abbrev pub IsAmong : Text → List Candidate → Type 0
IsAmong p [] = ⊥
IsAmong p (c ∷ cs) = (p ≡ c.pattern_text) ⊎ IsAmong p cs

IsAmong-left : (p : Text) (cs ds : List Candidate) → IsAmong p cs → IsAmong p (cs ++ ds)
IsAmong-left p (c ∷ cs) ds (inl e) = inl e
IsAmong-left p (c ∷ cs) ds (inr m) = inr (IsAmong-left p cs ds m)
IsAmong-left p [] ds m = absurd m

IsAmong-right : (p : Text) (cs ds : List Candidate) → IsAmong p ds → IsAmong p (cs ++ ds)
IsAmong-right p [] ds m = m
IsAmong-right p (c ∷ cs) ds m = inr (IsAmong-right p cs ds m)

IsAmong-split :
    (p : Text) (cs ds : List Candidate) → IsAmong p (cs ++ ds) → IsAmong p cs ⊎ IsAmong p ds
IsAmong-split p [] ds m = inr m
IsAmong-split p (c ∷ cs) ds (inl e) = inl (inl e)
IsAmong-split p (c ∷ cs) ds (inr m) = elim (IsAmong-split p cs ds m) [
  | inl a ↦ inl (inr a)
  | inr a ↦ inr a
]

-- How many labels of the fqdn a wildcard may stand for.
abbrev pub MayReplace : MatchMode → List Text → Type 0
MayReplace single_level front = length front ≡ 1
MayReplace multi_level front = 1 ≤ length front

-- `pattern` is a wildcard over a proper, not empty suffix `rest` of the labels.
pub record Suffix (mode : MatchMode) (labels : List Text) (p : Text) : Type 0 where
  pub front : List Text
  pub rest : List Text
  pub whole : labels ≡ front ++ rest
  pub replaced : MayReplace mode front
  pub anchored : rest ≢ []
  pub text : p ≡ wildcard rest

-- A pattern covers an fqdn: it is the fqdn, or "*", or a wildcard over one of its ancestors.
abbrev pub Covers : MatchMode → Text → Text → Type 0
Covers mode fqdn p = (p ≡ fqdn) ⊎ ((p ≡ star) ⊎ Suffix mode (split dot fqdn) p)

deep_from-Suffix :
    (k b : ℕ) (fs ls : List Text) (p : Text)
    → 1 ≤ length fs
    → IsAmong p (deep_from k b ls)
    → Suffix multi_level (fs ++ ls) p
unfolding deep_from candidate
deep_from-Suffix k b fs [] p h m = absurd m
deep_from-Suffix k b fs (l ∷ ls) p h (inl e) = record {
  front = fs;
  rest = l ∷ ls;
  whole = refl;
  replaced = h;
  anchored = cc;
  text = e;
}
deep_from-Suffix k b fs (l ∷ ls) p h (inr m) =
    let s = deep_from-Suffix (suc k) b (fs ++ (l ∷ [])) ls p longer m in
    record {
      front = s.front;
      rest = s.rest;
      whole = sym (append_assoc fs (l ∷ []) ls) ∙ s.whole;
      replaced = s.replaced;
      anchored = s.anchored;
      text = s.text;
    }
  where
    longer : 1 ≤ length (fs ++ (l ∷ []))
    longer = omega (arith, length-append {0} fs (l ∷ []))

-- Every suffix of the loop's labels is generated.
Suffix-deep_from :
    (k b : ℕ) (fs rest : List Text)
    → rest ≢ []
    → IsAmong (wildcard rest) (deep_from k b (fs ++ rest))
unfolding deep_from candidate
Suffix-deep_from k b [] [] h = absurd (h refl)
Suffix-deep_from k b [] (r ∷ rest) h = inl refl
Suffix-deep_from k b (f ∷ fs) rest h = inr (Suffix-deep_from (suc k) b fs rest h)

parent-Suffix :
    (mode : MatchMode) (b : ℕ) (ls : List Text) (p : Text)
    → IsAmong p (parent_candidates b ls)
    → Suffix mode ls p
unfolding parent_candidates candidate
parent-Suffix mode b [] p m = absurd m
parent-Suffix mode b (l ∷ []) p m = absurd m
parent-Suffix single_level b (l ∷ m ∷ ls) p (inl e) = record {
  front = l ∷ [];
  rest = m ∷ ls;
  whole = refl;
  replaced = refl;
  anchored = cc;
  text = e;
}
parent-Suffix multi_level b (l ∷ m ∷ ls) p (inl e) = record {
  front = l ∷ [];
  rest = m ∷ ls;
  whole = refl;
  replaced = omega arith;
  anchored = cc;
  text = e;
}
parent-Suffix mode b (l ∷ m ∷ ls) p (inr n) = absurd n

deep-Suffix :
    (mode : MatchMode) (b : ℕ) (ls : List Text) (p : Text)
    → IsAmong p (deep_candidates mode b ls)
    → Suffix mode ls p
unfolding deep_candidates
deep-Suffix single_level b ls p m = absurd m
deep-Suffix multi_level b [] p m = absurd m
deep-Suffix multi_level b (l ∷ []) p m = absurd m
deep-Suffix multi_level b (l ∷ n ∷ ls) p m = deep_from-Suffix 2 b (l ∷ n ∷ []) ls p (omega arith) m

-- The wildcards that the two loops generate, for a split of the labels in two parts.
Suffix-wildcards :
    (mode : MatchMode) (b : ℕ) (front rest : List Text)
    → MayReplace mode front
    → rest ≢ []
    → IsAmong (wildcard rest) (parent_candidates b (front ++ rest))
      ⊎ IsAmong (wildcard rest) (deep_candidates mode b (front ++ rest))
unfolding parent_candidates deep_candidates candidate
Suffix-wildcards mode b front [] h a = absurd (a refl)
Suffix-wildcards mode b (f ∷ []) (r ∷ rest) h a = inl (inl refl)
Suffix-wildcards multi_level b (f ∷ g ∷ front) (r ∷ rest) h a =
    inr (Suffix-deep_from 2 b front (r ∷ rest) a)
Suffix-wildcards single_level b (f ∷ g ∷ front) (r ∷ rest) h a = absurd (omega arith)
Suffix-wildcards single_level b [] (r ∷ rest) h a = absurd (omega arith)
Suffix-wildcards multi_level b [] (r ∷ rest) h a = absurd (omega arith)

module _ (mode : MatchMode) (b : ℕ) (ls : List Text) (p : Text) where
  wildcards : List Candidate
  wildcards =
      parent_candidates b ls
      ++ (deep_candidates mode b ls ++ (candidate star global_rank false b ∷ []))

  wildcards_sound : IsAmong p wildcards → (p ≡ star) ⊎ Suffix mode ls p
  unfolding wildcards
  wildcards_sound m = elim (IsAmong-split p (parent_candidates b ls) _ m) [
    | inl a ↦ inr (parent-Suffix mode b ls p a)
    | inr n ↦ elim (IsAmong-split p (deep_candidates mode b ls) _ n) [
      | inl a ↦ inr (deep-Suffix mode b ls p a)
      | inr a ↦ last a
    ]
  ]
    where
      last : IsAmong p (candidate star global_rank false b ∷ []) → (p ≡ star) ⊎ Suffix mode ls p
      last (inl e) = inl (unfold candidate in e)
      last (inr n) = absurd n

  star-IsAmong : p ≡ star → IsAmong p wildcards
  unfolding wildcards candidate
  star-IsAmong e =
      IsAmong-right p (parent_candidates b ls) _
        (IsAmong-right p (deep_candidates mode b ls) _ (inl e))

  Suffix-IsAmong : Suffix mode ls p → IsAmong p wildcards
  unfolding wildcards
  Suffix-IsAmong s =
      rw (s.text, s.whole)
        (elim (Suffix-wildcards mode b s.front s.rest s.replaced s.anchored) [
          | inl a ↦ IsAmong-left _ (parent_candidates b (s.front ++ s.rest)) _ a
          | inr a ↦
              IsAmong-right _ (parent_candidates b (s.front ++ s.rest)) _
                (IsAmong-left _ (deep_candidates mode b (s.front ++ s.rest)) _ a)
        ])

-- The candidates of an fqdn have exactly the patterns that cover it in the mode: the fqdn itself,
-- "*", and the wildcards over its ancestors (over its parent only, in the single-level mode).
pub candidates-Covers_iff :
    (fqdn : Text) (mode : MatchMode) (num_buckets : ℕ) (p : Text)
    → IsAmong p (candidates fqdn mode num_buckets) ↔ Covers mode fqdn p
unfolding candidates candidate
candidates-Covers_iff fqdn mode num_buckets p = (sound, complete)
  where
    b : ℕ
    b = bucket_for fqdn num_buckets

    sound : IsAmong p (candidates fqdn mode num_buckets) → Covers mode fqdn p
    sound (inl e) = inl e
    sound (inr m) =
        inr (wildcards_sound mode b (split dot fqdn) p (unfold wildcards candidate in m))

    complete : Covers mode fqdn p → IsAmong p (candidates fqdn mode num_buckets)
    complete (inl e) = inl e
    complete (inr (inl e)) =
        inr (unfold wildcards candidate in star-IsAmong mode b (split dot fqdn) p e)
    complete (inr (inr s)) =
        inr (unfold wildcards candidate in Suffix-IsAmong mode b (split dot fqdn) p s)
