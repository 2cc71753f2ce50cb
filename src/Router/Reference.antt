-- ===== src/Router/Reference.antt =====
-- A reference for the lookup of fqdnrules/fqdn_router.py: no groups, no script, no bit lists. The
-- candidates are scanned in order of precedence, and the first admissible value wins.
use fun_with_dragonfly_db.Prelude.{
  ℕ, Bool, ◌&&◌, ◌||◌, Option, none, some, List, [], ◌∷◌, ◌==◌, if◌then◌else◌, or_else, drop, Text,
  Result, ok, err,
}
use fun_with_dragonfly_db.Pattern.{Candidate, FieldCandidate}
use fun_with_dragonfly_db.Router.{RuleStore, key, Best}
use fun_with_dragonfly_db.Router.Script.{is_blocked}
use fun_with_dragonfly_db.Redis.{Redis}

-- Is a value under this pair of candidates out of its scope's reach?
abbrev pub out_of_scope : Candidate → FieldCandidate → Text → Bool
out_of_scope a b v = is_blocked (a.rank == 0 && b.rank == 0) (a.needs_multi || b.needs_multi) v

abbrev pub best_of : Candidate → FieldCandidate → Text → Best
best_of a b v = record {
  rank1 = a.rank;
  rank2 = b.rank;
  pattern1 = a.pattern_text;
  pattern2 = b.pattern_text;
  rule_id = drop 1 v;
}

-- What a field's value counts for.
abbrev pub admit : Candidate → FieldCandidate → Option Text → Option Best
admit a b none = none
admit a b (some v) = if out_of_scope a b v then none else some (best_of a b v)

-- The first field with an admissible value, where `read` is what a field holds.
unfoldable pub first_field : (Text → Option Text) → Candidate → List FieldCandidate → Option Best
first_field read a [] = none
first_field read a (b ∷ bs) = or_else (admit a b (read b.pattern_text)) (first_field read a bs)

-- The first candidate with such a field, where `read` is what a candidate's key holds.
unfoldable pub first_match :
    (Candidate → Text → Option Text) → List Candidate → List FieldCandidate → Option Best
unfolding first_field
first_match read [] bs = none
first_match read (a ∷ cs) bs = or_else (first_field (read a) a bs) (first_match read cs bs)

-- What a key holds; one that cannot be built holds nothing.
abbrev pub read_key : (redis : Redis) → redis.Db → Result Text → Text → Option Text
read_key redis db (ok k) f = redis.hget db k f
read_key redis db (err e) f = none

-- What a candidate's key holds.
unfoldable pub value_at :
    (redis : Redis) → RuleStore → redis.Db → ℕ → Candidate → Text → Option Text
value_at redis store db port c f =
    read_key redis db (key store c.tag c.bucket_index c.pattern_text port) f
