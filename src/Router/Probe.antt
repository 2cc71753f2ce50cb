-- ===== src/Router/Probe.antt =====
-- A query one label below a pair of wildcard rules of fqdnrules/fqdn_router.py, as the tools of
-- fqdnrules make it.
use fun_with_dragonfly_db.Prelude.{
  ℕ, ◌≡◌, ◌≢◌, refl, ap, ◌∙◌, Bool-cases, false, Option, none, some, List, [], ◌∷◌, ◌++◌, All, ◌⊎◌,
  inl, inr, ◌==◌, ◌&&◌, eq→==, text_eq, text_eq_refl, ne→text_eq, Text, Lacks, codes, split,
  split-cons, split-ne-nil, join-split,
}
use fun_with_dragonfly_db.Pattern.{
  both, MatchMode, FieldCandidate, dot, star, field, wildcard, parent_fields, deep_fields,
  field_candidates, global_rank,
}
use fun_with_dragonfly_db.Router.{Rule}
use fun_with_dragonfly_db.Router.Table.{
  RuleTable, Entry, entry_of, change, register, register_all, offer, first_offer, first_of_table,
  table_match,
}

-- A name and its parent.
abbrev pub below : Text → Text → Text
below label parent = label ++ (dot ∷ parent)

-- The wildcard over a name.
abbrev pub wild : Text → Text
wild parent = codes "*." ++ parent

parent_fields-cons :
    (l : Text) (ls : List Text)
    → ls ≢ []
    → parent_fields (l ∷ ls) ≡ field (wildcard ls) 1 false ∷ []
unfolding parent_fields
parent_fields-cons l [] h = absurd (h refl)
parent_fields-cons l (m ∷ ls) h = refl

wildcard-split : (parent : Text) → wildcard (split dot parent) ≡ wild parent
unfolding wildcard
wildcard-split parent = ap wild (join-split dot parent)

-- What follows the first two candidates.
abbrev further : Text → Text → MatchMode → List FieldCandidate
further label parent mode =
    deep_fields mode (label ∷ split dot parent) ++ (field star global_rank false ∷ [])

field_candidates-below :
    (label parent : Text) (mode : MatchMode)
    → Lacks dot label
    → field_candidates (below label parent) mode
      ≡ field (below label parent) 0 false ∷ field (wild parent) 1 false ∷ further label parent mode
unfolding field_candidates
field_candidates-below label parent mode h =
    rw
      (
        split-cons dot label parent h,
        parent_fields-cons label (split dot parent) (split-ne-nil dot parent),
        wildcard-split parent,
      )
      refl

first_offer-none :
    (entries : Text → Option Entry) (a : FieldCandidate) (bs : List FieldCandidate)
    → ((g : Text) → entries g ≡ none)
    → first_offer entries a bs ≡ none
unfolding first_offer offer
first_offer-none entries a [] h = refl
first_offer-none entries a (b ∷ bs) h = rw (h b.pattern_text, first_offer-none entries a bs h) refl

-- With no rule for the literal name, and none under its parent's wildcard for the literal
-- destination, the rule for both wildcards is the answer.
pub table_match-below :
    (table : RuleTable) (label1 parent1 label2 parent2 rule_id : Text) (port : ℕ) (mode : MatchMode)
    → Lacks dot label1
    → Lacks dot label2
    → ((g : Text) → table (below label1 parent1) port g ≡ none)
    → table (wild parent1) port (below label2 parent2) ≡ none
    → table (wild parent1) port (wild parent2) ≡ some (record { scope = both; rule_id = rule_id })
    → table_match table port (below label1 parent1) (below label2 parent2) mode
      ≡ some (record {
        rank1 = 1;
        rank2 = 1;
        pattern1 = wild parent1;
        pattern2 = wild parent2;
        rule_id = rule_id;
      })
unfolding table_match first_of_table first_offer offer
table_match-below table label1 parent1 label2 parent2 rule_id port mode h1 h2 none1 none2 hit =
    rw
      (field_candidates-below label1 parent1 mode h1, field_candidates-below label2 parent2 mode h2)
      (rw
        (
          none1 (below label2 parent2),
          none1 (wild parent2),
          first_offer-none (table (below label1 parent1) port)
              (field (below label1 parent1) 0 false) (further label2 parent2 mode) none1,
          none2,
          hit,
        )
        refl)

-- A rule for another pair of patterns.
abbrev pub IsOther : Text → Text → Rule → Type 0
IsOther p g rule = (rule.fqdn1 ≢ p) ⊎ (rule.fqdn2 ≢ g)

register-other :
    (rule : Rule) (table : RuleTable) (p : Text) (port : ℕ) (g : Text)
    → IsOther p g rule
    → register rule table p port g ≡ table p port g
unfolding change
register-other rule table p port g (inl h) = rw (ne→text_eq rule.fqdn1 p h) refl
register-other rule table p port g (inr h) =
    elim (Bool-cases (text_eq rule.fqdn1 p && rule.port == port)) [
      | inl e ↦ rw (e, ne→text_eq rule.fqdn2 g h) refl
      | inr e ↦ rw e refl
    ]

pub register_all-other :
    (rules : List Rule) (table : RuleTable) (p : Text) (port : ℕ) (g : Text)
    → All (IsOther p g) rules
    → register_all rules table p port g ≡ table p port g
register_all-other [] table p port g h = refl
register_all-other (rule ∷ rules) table p port g (h, hs) =
    register_all-other rules (register rule table) p port g hs
    ∙ register-other rule table p port g h

register-same :
    (rule : Rule) (table : RuleTable)
    → register rule table rule.fqdn1 rule.port rule.fqdn2 ≡ some (entry_of rule)
unfolding change
register-same rule table =
    rw (text_eq_refl rule.fqdn1, eq→== rule.port rule.port refl, text_eq_refl rule.fqdn2) refl

-- The last rule of a triple is what the table has.
pub register_all-hit :
    (front back : List Rule) (rule : Rule) (table : RuleTable)
    → All (IsOther rule.fqdn1 rule.fqdn2) back
    → register_all (front ++ (rule ∷ back)) table rule.fqdn1 rule.port rule.fqdn2
      ≡ some (entry_of rule)
register_all-hit [] back rule table h =
    register_all-other back (register rule table) rule.fqdn1 rule.port rule.fqdn2 h
    ∙ register-same rule table
register_all-hit (first ∷ front) back rule table h =
    register_all-hit front back rule (register first table) h

pub register_all-append :
    (front back : List Rule) (table : RuleTable)
    → register_all (front ++ back) table ≡ register_all back (register_all front table)
register_all-append [] back table = refl
register_all-append (rule ∷ front) back table = register_all-append front back (register rule table)
