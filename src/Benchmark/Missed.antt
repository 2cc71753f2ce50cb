-- ===== src/Benchmark/Missed.antt =====
-- The queries of fqdnrules/benchmark.py that are meant to find nothing, after its write phase.
use fun_with_dragonfly_db.Prelude.{
  ℕ, zero, suc, ◌<◌, ◌≡◌, ◌≢◌, refl, ap, ◌∙◌, inr, true, false, none, Option, List, [], ◌∷◌, ◌++◌,
  arith, All, Text, codes, split, decimal, ok,
}
use fun_with_dragonfly_db.Pattern.{
  star, MatchMode, single_level, multi_level, normalize_fqdn, FieldCandidate, field, wildcard,
  parent_fields, deep_fields, field_candidates, global_rank,
}
use fun_with_dragonfly_db.Pattern.Plain.{name_chars, name_chars-Lacks, plain_name-normalize}
use fun_with_dragonfly_db.Redis.{Redis}
use fun_with_dragonfly_db.Router.{RuleStore, lookup, to_match}
use fun_with_dragonfly_db.Router.Keys.{IsUsable}
use fun_with_dragonfly_db.Router.Table.{
  Entry, no_rules, offer, first_offer, first_of_table, table_match,
}
use fun_with_dragonfly_db.Router.Refines.{Agrees, lookup-table_match}
use fun_with_dragonfly_db.Router.History.{IsFlushed, flushed-Agrees}
use fun_with_dragonfly_db.Router.Probe.{IsOther, register_all-other}
use fun_with_dragonfly_db.Benchmark.{
  RuleLayout, dest_of_rule, rule_for_index, miss_query, rules_from, num_batches, run_write_phase,
}
use fun_with_dragonfly_db.Benchmark.Phases.{batches-rules_from}
use fun_with_dragonfly_db.Benchmark.Found.{
  write_loop-Agrees, split-decimal, chars_of_decimal, all_rules,
}

-- A destination that no rule of the benchmark has: the third character is not the d of `*.dest`.
abbrev IsForeign : Text → Type 0
IsForeign g = (i : ℕ) → codes "*" ++ dest_of_rule i ≢ g

rules_from-foreign :
    (layout : RuleLayout) (lo rounds : ℕ) (p g : Text)
    → IsForeign g
    → All (IsOther p g) (rules_from layout lo rounds)
unfolding rules_from rule_for_index
rules_from-foreign layout lo zero p g h = tt
rules_from-foreign layout lo (suc rounds) p g h =
    (inr (h lo), rules_from-foreign layout (suc lo) rounds p g h)

first_offer-foreign :
    (entries : Text → Option Entry) (a : FieldCandidate) (bs : List FieldCandidate)
    → All (λ b. entries b.pattern_text ≡ none) bs
    → first_offer entries a bs ≡ none
unfolding first_offer offer
first_offer-foreign entries a [] h = refl
first_offer-foreign entries a (b ∷ bs) (h, hs) = rw (h, first_offer-foreign entries a bs hs) refl

first_of_table-foreign :
    (entries : Text → Text → Option Entry) (as' bs : List FieldCandidate)
    → ((p : Text) → All (λ b. entries p b.pattern_text ≡ none) bs)
    → first_of_table entries as' bs ≡ none
unfolding first_of_table
first_of_table-foreign entries [] bs h = refl
first_of_table-foreign entries (a ∷ as') bs h =
    rw
      (
        first_offer-foreign (entries a.pattern_text) a bs (h a.pattern_text),
        first_of_table-foreign entries as' bs h,
      )
      refl

-- The destination of a miss, and its candidates in both modes.
abbrev missed : ℕ → Text
missed n = codes "nomatch" ++ (decimal n ++ codes ".invalid")

abbrev missed_apex : ℕ → ℕ → Text
missed_apex n apex =
    codes "nomatch" ++ (decimal n ++ (codes ".junk" ++ (decimal apex ++ codes ".invalid")))

abbrev missed_fields : ℕ → List FieldCandidate
missed_fields n =
    field (missed n) 0 false ∷ field (codes "*.invalid") 1 false ∷ field star global_rank false ∷ []

field_candidates-missed :
    (n : ℕ) (mode : MatchMode) → field_candidates (missed n) mode ≡ missed_fields n
unfolding field_candidates split parent_fields deep_fields wildcard
field_candidates-missed n single_level = rw (split-decimal n) refl
field_candidates-missed n multi_level = rw (split-decimal n) refl

missed-IsForeign : (n : ℕ) → IsForeign (missed n)
missed-IsForeign n i e = ground arith

invalid-IsForeign : IsForeign (codes "*.invalid")
unfolding dest_of_rule
invalid-IsForeign i e = ground arith

star-IsForeign : IsForeign star
unfolding dest_of_rule
star-IsForeign i e = ground arith

missed-normal : (n : ℕ) → normalize_fqdn (missed n) ≡ ok (missed n)
unfolding split
missed-normal n =
    plain_name-normalize (missed n) ((codes "nomatch" ++ decimal n) ∷ codes "invalid" ∷ [])
      (rw (chars_of_decimal n) refl) (rw (split-decimal n) refl) (cc, (cc, tt)) (omega arith)

missed_apex-chars : (n apex : ℕ) → name_chars (missed_apex n apex) ≡ true
missed_apex-chars n apex = rw (chars_of_decimal n, chars_of_decimal apex) refl

missed_apex-normal : (n apex : ℕ) → normalize_fqdn (missed_apex n apex) ≡ ok (missed_apex n apex)
unfolding split
missed_apex-normal n apex =
    plain_name-normalize (missed_apex n apex)
      ((codes "nomatch" ++ decimal n) ∷ (codes "junk" ++ decimal apex) ∷ codes "invalid" ∷ [])
      (missed_apex-chars n apex) (rw (split-decimal n, split-decimal apex) refl)
      (cc, (cc, (cc, tt))) (omega arith)

module _ (redis : Redis) (store : RuleStore) (usable : IsUsable store) (num_bytes : Text → ℕ)
    (layout : RuleLayout) (num_rules batch_size : ℕ) where
  missed-none :
      (n : ℕ) (p : Text)
      → All (λ b. all_rules layout num_rules p 443 b.pattern_text ≡ none) (missed_fields n)
  missed-none n p = (
    other (missed n) (missed-IsForeign n),
    (other (codes "*.invalid") invalid-IsForeign, (other star star-IsForeign, tt)),
  )
    where
      other : (g : Text) → IsForeign g → all_rules layout num_rules p 443 g ≡ none
      other g h =
          register_all-other (rules_from layout 0 num_rules) no_rules p 443 g
            (rules_from-foreign layout 0 num_rules p g h)

  missed-answer :
      (n apex : ℕ) (mode : MatchMode)
      → table_match (all_rules layout num_rules) 443 (missed_apex n apex) (missed n) mode ≡ none
  unfolding table_match
  missed-answer n apex mode = rw (field_candidates-missed n mode) (
      first_of_table-foreign (λ p f. all_rules layout num_rules p 443 f)
        (field_candidates (missed_apex n apex) mode) (missed_fields n) (missed-none n))

  -- The benchmark's misses miss: after `run_write_phase` on a flushed server, with a batch size that
  -- is not 0, every query of `miss_query` is answered with None, in both modes and with every bucket
  -- count that has a token table.
  pub lookup-miss_query :
      (n apex : ℕ) (mode : MatchMode) (db : redis.Db)
      → IsFlushed redis db
      → 0 < batch_size
      → (written : ℕ × ℕ × redis.Db) × (run_write_phase redis store num_bytes layout num_rules
            batch_size db
          ≡ ok written)
        × (lookup redis store
              (miss_query n apex).0
              (miss_query n apex).1
              (miss_query n apex).2
              mode
              written.2
            ≡ ok none)
  unfolding run_write_phase miss_query
  lookup-miss_query n apex mode db flushed sized =
      let (written, e, agrees) =
        write_loop-Agrees redis store usable num_bytes layout num_rules batch_size 0
          (num_batches num_rules batch_size) 0 0 no_rules db
          (flushed-Agrees redis store usable db flushed) in
      let all : Agrees redis store usable written.2 (all_rules layout num_rules) =
        rw (batches-rules_from layout num_rules batch_size sized) at agrees in
      (
        written,
        e,
        lookup-table_match redis store usable (all_rules layout num_rules) written.2 _ _ _ _ 443
              mode all (missed_apex-normal n apex) (missed-normal n)
              (name_chars-Lacks (missed_apex n apex) (missed_apex-chars n apex)) (omega arith)
              (omega arith)
            ∙ ap (λ o. ok (to_match 443 o)) (missed-answer n apex mode),
      )
