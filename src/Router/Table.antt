-- ===== src/Router/Table.antt =====
-- An abstract rule store, which fqdnrules/fqdn_router.py implements: a table of entries, with no
-- keys, tags, replicas, scripts or texts of values.
use fun_with_dragonfly_db.Prelude.{
  ℕ, Bool, true, not, ◌&&◌, ◌||◌, Option, none, some, List, [], ◌∷◌, ◌==◌, if◌then◌else◌, or_else,
  Text, text_eq,
}
use fun_with_dragonfly_db.Pattern.{
  WildcardScope, single, multi, both, MatchMode, FieldCandidate, field_candidates,
}
use fun_with_dragonfly_db.Router.{Rule, Best}

-- What a store knows of a triple: the rule's scope and its id.
pub record Entry : Type 0 where
  pub scope : WildcardScope
  pub rule_id : Text

-- The entries by fqdn1 pattern, port and fqdn2 pattern.
abbrev pub RuleTable : Type 0
RuleTable = Text → ℕ → Text → Option Entry

abbrev pub no_rules : RuleTable
no_rules p port f = none

abbrev pub entry_of : Rule → Entry
entry_of rule = record { scope = rule.scope; rule_id = rule.rule_id }

-- One triple is given another entry, or none.
unfoldable pub change : Text → ℕ → Text → Option Entry → RuleTable → RuleTable
change p port g entry table p' port' f =
    if (text_eq p p' && port == port') && text_eq g f then entry else table p' port' f

-- A rule's write.
abbrev pub register : Rule → RuleTable → RuleTable
register rule = change rule.fqdn1 rule.port rule.fqdn2 (some (entry_of rule))

abbrev pub register_all : List Rule → RuleTable → RuleTable
register_all [] table = table
register_all (rule ∷ rules) table = register_all rules (register rule table)

-- A scope's reach: to a pair of literal names always, and by a wildcard as far as it says.
unfoldable pub reaches : WildcardScope → Bool → Bool → Bool
reaches single exact deep = exact || not deep
reaches multi exact deep = exact || deep
reaches both exact deep = true

-- The best match that an entry makes under a pair of patterns.
unfoldable pub offer : FieldCandidate → FieldCandidate → Option Entry → Option Best
unfolding reaches
offer a b none = none
offer a b (some entry) =
    if reaches entry.scope (a.rank == 0 && b.rank == 0) (a.needs_multi || b.needs_multi)
    then some (record {
      rank1 = a.rank;
      rank2 = b.rank;
      pattern1 = a.pattern_text;
      pattern2 = b.pattern_text;
      rule_id = entry.rule_id;
    })
    else none

-- The first offer for one pattern of fqdn1.
unfoldable pub first_offer :
    (Text → Option Entry) → FieldCandidate → List FieldCandidate → Option Best
unfolding offer
first_offer entries a [] = none
first_offer entries a (b ∷ bs) =
    or_else (offer a b (entries b.pattern_text)) (first_offer entries a bs)

-- The first offer over the patterns of both names, fqdn1 first.
unfoldable pub first_of_table :
    (Text → Text → Option Entry) → List FieldCandidate → List FieldCandidate → Option Best
unfolding first_offer
first_of_table entries [] bs = none
first_of_table entries (a ∷ as') bs =
    or_else (first_offer (entries a.pattern_text) a bs) (first_of_table entries as' bs)

-- The answer to a query of two normalized names: no bucket count has a part in it.
unfoldable pub table_match : RuleTable → ℕ → Text → Text → MatchMode → Option Best
unfolding first_of_table
table_match table port fqdn1 fqdn2 mode =
    first_of_table (λ p f. table p port f) (field_candidates fqdn1 mode)
      (field_candidates fqdn2 mode)
