-- ===== src/Pattern/Ranks.antt =====
-- The order and the number of the candidates of fqdnrules/fqdn_pattern.py, and how the two modes
-- and the two sides of a lookup compare.
use Prim.Native.Nat.{min}
use mathlib.Core.List.{Sublist, map-append}
use mathlib.Core.List.Sublist
use fun_with_dragonfly_db.Prelude.{
  ℕ, suc, ◌+◌, ◌≤◌, ◌<◌, ◌≡◌, ◌↔◌, refl, ap, List, [], ◌∷◌, ◌++◌, map, arith, length, length-append,
  split, split-ne-nil, Text, ◌≢◌, false, true, sym, ◌∙◌,
}
use fun_with_dragonfly_db.Pattern.{
  max_labels, global_rank, dot, star, MatchMode, single_level, multi_level, Candidate, candidate,
  parent_candidates, deep_from, deep_candidates, candidates, bucket_for, FieldCandidate, field,
  parent_fields, deep_fields_from, deep_fields, field_candidates, wildcard,
}

-- Strictly increasing, from `lo` on.
abbrev pub IncreasingFrom : ℕ → List ℕ → Type 0
IncreasingFrom lo [] = Unit
IncreasingFrom lo (r ∷ rs) = (lo ≤ r) × IncreasingFrom (suc r) rs

abbrev pub ranks : List Candidate → List ℕ
ranks = map (λ c. c.rank)

-- The end of every candidate list.
last_candidate : ℕ → List Candidate
last_candidate b = candidate star global_rank false b ∷ []

deep_from-IncreasingFrom :
    (k b : ℕ) (ls : List Text)
    → k + length ls ≤ global_rank
    → IncreasingFrom k (ranks (deep_from k b ls ++ last_candidate b))
unfolding deep_from last_candidate candidate
deep_from-IncreasingFrom k b [] h = (omega arith, tt)
deep_from-IncreasingFrom k b (l ∷ ls) h =
    (omega arith, deep_from-IncreasingFrom (suc k) b ls (omega arith))

wildcards-IncreasingFrom :
    (mode : MatchMode) (b : ℕ) (ls : List Text)
    → length ls ≤ max_labels
    → IncreasingFrom 1
        (ranks (parent_candidates b ls ++ (deep_candidates mode b ls ++ last_candidate b)))
unfolding parent_candidates deep_candidates candidate
wildcards-IncreasingFrom single_level b [] h = unfold last_candidate in omega arith
wildcards-IncreasingFrom single_level b (l ∷ []) h = unfold last_candidate in omega arith
wildcards-IncreasingFrom single_level b (l ∷ m ∷ ls) h = unfold last_candidate in omega arith
wildcards-IncreasingFrom multi_level b [] h = unfold last_candidate in omega arith
wildcards-IncreasingFrom multi_level b (l ∷ []) h = unfold last_candidate in omega arith
wildcards-IncreasingFrom multi_level b (l ∷ m ∷ ls) h =
    (omega arith, deep_from-IncreasingFrom 2 b ls (omega arith))

-- The ranks of a clean fqdn's candidates, in the order of the list, are strictly increasing: index
-- order is precedence order, in both modes and for any number of buckets.
pub candidates-IncreasingFrom :
    (fqdn : Text) (mode : MatchMode) (num_buckets : ℕ)
    → length (split dot fqdn) ≤ max_labels
    → IncreasingFrom 0 (ranks (candidates fqdn mode num_buckets))
unfolding candidates candidate
candidates-IncreasingFrom fqdn mode num_buckets h = (
  omega arith,
  unfold last_candidate in
      wildcards-IncreasingFrom mode (bucket_for fqdn num_buckets) (split dot fqdn) h,
)

length-deep_from : (k b : ℕ) (ls : List Text) → length (deep_from k b ls) ≡ length ls
unfolding deep_from
length-deep_from k b [] = refl
length-deep_from k b (l ∷ ls) = ap suc (length-deep_from (suc k) b ls)

length-wildcards_multi :
    (b : ℕ) (ls : List Text)
    → ls ≢ []
    → length (parent_candidates b ls ++ (deep_candidates multi_level b ls ++ last_candidate b))
      ≡ length ls
unfolding parent_candidates deep_candidates last_candidate
length-wildcards_multi b [] h = absurd (h refl)
length-wildcards_multi b (l ∷ []) h = refl
length-wildcards_multi b (l ∷ m ∷ ls) h =
    omega (arith, length-append {0} (deep_from 2 b ls) (last_candidate b), length-deep_from 2 b ls)

-- A multi-level lookup has one candidate more than the fqdn has labels.
pub length-candidates_multi :
    (fqdn : Text) (num_buckets : ℕ)
    → length (candidates fqdn multi_level num_buckets) ≡ suc (length (split dot fqdn))
unfolding candidates
length-candidates_multi fqdn num_buckets = ap suc (
    unfold last_candidate in
    length-wildcards_multi (bucket_for fqdn num_buckets) (split dot fqdn) (split-ne-nil dot fqdn))

length-wildcards_single :
    (b : ℕ) (ls : List Text)
    → ls ≢ []
    → length (parent_candidates b ls ++ (deep_candidates single_level b ls ++ last_candidate b))
      ≡ min (length ls) 2
unfolding parent_candidates deep_candidates last_candidate
length-wildcards_single b [] h = absurd (h refl)
length-wildcards_single b (l ∷ []) h = omega arith
length-wildcards_single b (l ∷ m ∷ ls) h = omega arith

-- A single-level lookup has at most three candidates: two for one label, three for more.
pub length-candidates_single :
    (fqdn : Text) (num_buckets : ℕ)
    → length (candidates fqdn single_level num_buckets) ≡ suc (min (length (split dot fqdn)) 2)
unfolding candidates
length-candidates_single fqdn num_buckets = ap suc (
    unfold last_candidate in
    length-wildcards_single (bucket_for fqdn num_buckets) (split dot fqdn) (split-ne-nil dot fqdn))

skip_deep : (ds gs : List Candidate) → Sublist gs (ds ++ gs)
skip_deep [] gs = Sublist.refl gs
skip_deep (d ∷ ds) gs = Sublist.cons d (skip_deep ds gs)

under : (ps gs hs : List Candidate) → Sublist gs hs → Sublist (ps ++ gs) (ps ++ hs)
under [] gs hs s = s
under (p ∷ ps) gs hs s = Sublist.cons-cons p (under ps gs hs s)

-- The candidates of the single-level mode are a subsequence of those of the multi-level mode, and a
-- strict one exactly when the fqdn has three labels or more.
pub candidates-single-sublist-multi :
    (fqdn : Text) (num_buckets : ℕ)
    → Sublist (candidates fqdn single_level num_buckets) (candidates fqdn multi_level num_buckets)
      × ((length (candidates fqdn single_level num_buckets)
            < length (candidates fqdn multi_level num_buckets))
          ↔ (3 ≤ length (split dot fqdn)))
candidates-single-sublist-multi fqdn num_buckets =
    (sublist, (λ h. omega (arith, lengths), λ h. omega (arith, lengths)))
  where
    sublist :
        Sublist (candidates fqdn single_level num_buckets) (candidates fqdn multi_level num_buckets)
    sublist =
        unfold candidates deep_candidates in
        Sublist.cons-cons _ (
          under (parent_candidates (bucket_for fqdn num_buckets) (split dot fqdn)) _ _ (
            skip_deep (deep_candidates multi_level (bucket_for fqdn num_buckets) (split dot fqdn))
              _))

    lengths :
        (length (candidates fqdn single_level num_buckets) ≡ suc (min (length (split dot fqdn)) 2))
        × (length (candidates fqdn multi_level num_buckets) ≡ suc (length (split dot fqdn)))
    lengths = (length-candidates_single fqdn num_buckets, length-candidates_multi fqdn num_buckets)

abbrev pub to_field : Candidate → FieldCandidate
to_field c = field c.pattern_text c.rank c.needs_multi

deep_fields_from-map :
    (k b : ℕ) (ls : List Text) → deep_fields_from k ls ≡ map to_field (deep_from k b ls)
unfolding deep_fields_from deep_from candidate
deep_fields_from-map k b [] = refl
deep_fields_from-map k b (l ∷ ls) =
    ap (◌∷◌ (field (wildcard (l ∷ ls)) k true)) (deep_fields_from-map (suc k) b ls)

fields-map :
    (mode : MatchMode) (b : ℕ) (ls : List Text)
    → parent_fields ls ++ (deep_fields mode ls ++ (field star global_rank false ∷ []))
      ≡ map to_field (parent_candidates b ls ++ (deep_candidates mode b ls ++ last_candidate b))
unfolding parent_fields deep_fields parent_candidates deep_candidates last_candidate candidate
fields-map single_level b [] = refl
fields-map single_level b (l ∷ []) = refl
fields-map single_level b (l ∷ m ∷ ls) = refl
fields-map multi_level b [] = refl
fields-map multi_level b (l ∷ []) = refl
fields-map multi_level b (l ∷ m ∷ ls) =
    ap (λ fs. field (wildcard (m ∷ ls)) 1 false ∷ (fs ++ (field star global_rank false ∷ [])))
      (deep_fields_from-map 2 b ls)
    ∙ ap (◌∷◌ (field (wildcard (m ∷ ls)) 1 false)) (sym (map-append to_field (deep_from 2 b ls) _))

-- The field side's candidates are the key side's, without tag and bucket, whatever the bucketing.
pub field_candidates-eq-map :
    (fqdn : Text) (mode : MatchMode) (num_buckets : ℕ)
    → field_candidates fqdn mode ≡ map to_field (candidates fqdn mode num_buckets)
unfolding field_candidates candidates candidate
field_candidates-eq-map fqdn mode num_buckets =
    ap (◌∷◌ (field fqdn 0 false))
      (unfold last_candidate in fields-map mode (bucket_for fqdn num_buckets) (split dot fqdn))
