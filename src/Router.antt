-- ===== src/Router.antt =====
-- fqdnrules/fqdn_router.py: the rule store and its lookup script.
-- A port is a natural number. Replies are texts: `_decode` turns the bytes that the server sends
-- into them.
pub mod Bits
pub mod Exact
pub mod Keys
pub mod KeyText
pub mod Lookup
pub mod Many
pub mod Reads
pub mod Optimal
pub mod Placement
pub mod Reference
pub mod Replicas
pub mod Groups
pub mod Scan
pub mod History
pub mod Claim
pub mod Table
pub mod Probe
pub mod Refines
pub mod Writes
pub mod Script
use fun_with_dragonfly_db.Prelude.{
  ℕ, zero, suc, ◌-◌, Bool, true, false, not, ◌&&◌, ◌||◌, Option, none, some, List, [], ◌∷◌, ◌++◌,
  map, ltb, ◌==◌, if◌then◌else◌, length, get_elem?, Text, codes, text_eq, join, decimal, parse_nat,
  Result, ok, err, invalid_fqdn, value_error, index_error, ◌>>=◌, ◌>>◌, raise_if,
}
use fun_with_dragonfly_db.Pattern.{
  WildcardScope, scope_value, MatchMode, Candidate, FieldCandidate, normalize_fqdn, hash_tag,
  is_bucketed_tag, candidates, field_candidates,
}
use fun_with_dragonfly_db.Slots.{compute_bucket_table, token}
use fun_with_dragonfly_db.Redis.{Redis}
use fun_with_dragonfly_db.Router.Script.{Reply, Hit, lua_lookup}

pub record Rule : Type 0 where
  pub fqdn1 : Text
  pub port : ℕ
  pub fqdn2 : Text
  pub rule_id : Text
  pub scope : WildcardScope

pub record Match : Type 0 where
  pub rule_id : Text
  pub fqdn1_pattern : Text
  pub port : ℕ
  pub fqdn2_pattern : Text
  pub specificity : ℕ × ℕ

unfoldable pub validate_port : ℕ → Result (Unit {0})
validate_port port = raise_if (not (ltb 0 port && ltb port 65536)) invalid_fqdn

-- What a `RuleStore` keeps beside its connection.
pub record RuleStore : Type 0 where
  pub namespace : Text
  pub num_buckets : ℕ

abbrev pub is_bucketed : RuleStore → Text → Bool
is_bucketed store tag = is_bucketed_tag tag && ltb 1 store.num_buckets

abbrev pub colon : ℕ
colon = b':'

-- f"r:{namespace}:{{{token}}}:{tag}:{bucket_index}:{pattern}:{port}"
abbrev pub bucketed_key : Text → Text → Text → ℕ → Text → ℕ → Text
bucketed_key namespace tok tag bucket_index fqdn1_pattern port =
    (codes "r:" ++ (namespace ++ (colon ∷ [])))
    ++ (b'{'
        ∷ (tok
            ++ (b'}'
                ∷ (colon
                    ∷ (tag
                        ++ (colon
                            ∷ (decimal bucket_index
                                ++ (colon ∷ (fqdn1_pattern ++ (colon ∷ decimal port))))))))))

-- f"r:{{{namespace}:{tag}}}:{pattern}:{port}"
abbrev pub plain_key : Text → Text → Text → ℕ → Text
plain_key namespace tag fqdn1_pattern port =
    codes "r:"
    ++ (b'{'
        ∷ ((namespace ++ (colon ∷ tag))
            ++ (b'}' ∷ (colon ∷ (fqdn1_pattern ++ (colon ∷ decimal port))))))

-- `_key`
unfoldable pub key : RuleStore → Text → ℕ → Text → ℕ → Result Text
key store tag bucket_index fqdn1_pattern port =
    if is_bucketed store tag
    then (do
      table ← compute_bucket_table store.num_buckets
      tok ← token table bucket_index
      ok (bucketed_key store.namespace tok tag bucket_index fqdn1_pattern port))
    else ok (plain_key store.namespace tag fqdn1_pattern port)

-- `_bucketing_meta_key`
unfoldable pub bucketing_meta_key : RuleStore → Text
bucketing_meta_key store = codes "r:" ++ (b'{' ∷ (store.namespace ++ codes ":__meta__}:bucketing"))

abbrev pub num_buckets_field : Text
num_buckets_field = codes "num_buckets"

-- `[self._key(tag, i, pattern, port) for i in range(n)]`: `rounds` keys from `i` on.
unfoldable pub replica_keys : RuleStore → Text → Text → ℕ → ℕ → ℕ → Result (List Text)
replica_keys store tag pattern_text port i zero = ok []
replica_keys store tag pattern_text port i (suc rounds) = do
  k ← key store tag i pattern_text port
  ks ← replica_keys store tag pattern_text port (suc i) rounds
  ok (k ∷ ks)

-- `_keys_for_pattern`
unfoldable pub keys_for_pattern : RuleStore → Text → ℕ → Result (List Text)
keys_for_pattern store pattern_text port =
    if is_bucketed store (hash_tag pattern_text)
    then replica_keys store (hash_tag pattern_text) pattern_text port 0 store.num_buckets
    else (do k ← key store (hash_tag pattern_text) 0 pattern_text port; ok (k ∷ []))

-- One HSET of a pipeline.
pub record HsetCommand : Type 0 where
  pub hash_key : Text
  pub hash_field : Text
  pub hash_value : Text

abbrev pub hset_command : Text → Text → Text → HsetCommand
hset_command k f v = record { hash_key = k; hash_field = f; hash_value = v }

abbrev pub rule_value : Rule → Text
rule_value rule = scope_value rule.scope ++ rule.rule_id

-- `for key in keys: pipe.hset(key, rule.fqdn2, ...)`
unfoldable pub rule_commands : List Text → Rule → List HsetCommand
rule_commands [] rule = []
rule_commands (k ∷ ks) rule = hset_command k rule.fqdn2 (rule_value rule) ∷ rule_commands ks rule

abbrev pub claim_command : RuleStore → HsetCommand
claim_command store =
    hset_command (bucketing_meta_key store) num_buckets_field (decimal store.num_buckets)

-- The commands of `put`: one HSET, or one for each replica and the claim of the count.
unfoldable pub put_commands : RuleStore → List Text → Rule → List HsetCommand
unfolding rule_commands
put_commands store ks rule =
    if length ks == 1
    then rule_commands ks rule
    else rule_commands ks rule ++ (claim_command store ∷ [])

-- The loop of `put_many`: the pipeline and the flag so far.
unfoldable pub many_commands :
    RuleStore → List Rule → List HsetCommand → Bool → Result (List HsetCommand × Bool)
unfolding rule_commands
many_commands store [] pipe bucketed = ok (pipe, bucketed)
many_commands store (rule ∷ rules) pipe bucketed = do
  validate_port rule.port
  ks ← keys_for_pattern store rule.fqdn1 rule.port
  many_commands store rules (pipe ++ rule_commands ks rule) (bucketed || ltb 1 (length ks))

-- The groups of a lookup, `groups.setdefault(c.tag, []).append(c)`.
pub record Group : Type 0 where
  pub tag : Text
  pub members : List Candidate

unfoldable pub add_to_group : List Group → Candidate → List Group
add_to_group [] c = record { tag = c.tag; members = c ∷ [] } ∷ []
add_to_group (g ∷ gs) c =
    let rest = add_to_group gs c in
    if text_eq g.tag c.tag then record g { members = g.members ++ (c ∷ []) } ∷ gs else g ∷ rest

unfoldable pub group_all : List Group → List Candidate → List Group
unfolding add_to_group
group_all gs [] = gs
group_all gs (c ∷ cs) = group_all (add_to_group gs c) cs

-- `",".join("1" if b else "0" for b in flags)`
abbrev pub flag_text : Bool → Text
flag_text true = codes "1"
flag_text false = codes "0"

unfoldable pub flags : List Bool → Text
flags bs = join b',' (map flag_text bs)

-- `[self._key(tag, c.bucket_index, c.pattern, port) for c in group]`
unfoldable pub group_keys : RuleStore → ℕ → Text → List Candidate → Result (List Text)
group_keys store port tag [] = ok []
group_keys store port tag (c ∷ cs) = do
  k ← key store tag c.bucket_index c.pattern_text port
  ks ← group_keys store port tag cs
  ok (k ∷ ks)

-- `candidate_best`
pub record Best : Type 0 where
  pub rank1 : ℕ
  pub rank2 : ℕ
  pub pattern1 : Text
  pub pattern2 : Text
  pub rule_id : Text

-- `candidate_best[:2] < best[:2]`
abbrev pub is_better : Best → Best → Bool
is_better x y = ltb x.rank1 y.rank1 || (x.rank1 == y.rank1 && ltb x.rank2 y.rank2)

abbrev pub keep_better : Option Best → Best → Best
keep_better none x = x
keep_better (some y) x = if is_better x y then x else y

abbrev pub or_index_error {ℓ} : {A : Type ℓ} → Option A → Result A
or_index_error none = err index_error
or_index_error (some x) = ok x

abbrev pub at_index {ℓ} : {A : Type ℓ} → List A → ℕ → Result A
at_index xs i = or_index_error (get_elem? xs i)

-- `groups[tag][i - 1]`, `b_candidates[j - 1]` and the tuple that is compared.
unfoldable pub read_hit : List Candidate → List FieldCandidate → Hit → Result Best
read_hit group bs hit = do
  a ← at_index group (hit.key_index - 1)
  b ← at_index bs (hit.field_index - 1)
  ok (record {
    rank1 = a.rank;
    rank2 = b.rank;
    pattern1 = a.pattern_text;
    pattern2 = b.pattern_text;
    rule_id = hit.rule_id;
  })

-- The loop over `zip(tags, raw_results)`.
unfoldable pub pick_best :
    List FieldCandidate → List Group → List (Option Hit) → Option Best → Result (Option Best)
unfolding read_hit
pick_best bs (g ∷ gs) (none ∷ raws) best = pick_best bs gs raws best
pick_best bs (g ∷ gs) (some hit ∷ raws) best = do
  x ← read_hit g.members bs hit
  pick_best bs gs raws (some (keep_better best x))
pick_best bs gs raws best = ok best

abbrev pub to_match : ℕ → Option Best → Option Match
to_match port none = none
to_match port (some b) = some (record {
  rule_id = b.rule_id;
  fqdn1_pattern = b.pattern1;
  port = port;
  fqdn2_pattern = b.pattern2;
  specificity = (b.rank1, b.rank2);
})

module _ (redis : Redis) where
  open redis use {Db, hget, hmget, hset, hdel}

  -- `pipe.execute()` of HSETs, in order.
  unfoldable pub run_pipe : List HsetCommand → Db → Db
  run_pipe [] db = db
  run_pipe (c ∷ cs) db = run_pipe cs (hset c.hash_key c.hash_field c.hash_value db)

  -- `RuleStore.__init__`: the count on record, if there is one, must be the one asked for.
  unfoldable pub check_claim : ℕ → Option Text → Result (Unit {0})
  check_claim num_buckets none = ok tt
  check_claim num_buckets (some raw) = do
    claimed ← parse_nat raw
    raise_if (not (claimed == num_buckets)) value_error

  unfoldable pub open_store : Text → ℕ → Db → Result RuleStore
  unfolding check_claim
  open_store namespace num_buckets db = do
    let store : RuleStore = record { namespace = namespace; num_buckets = num_buckets }
    check_claim num_buckets (hget db (bucketing_meta_key store) num_buckets_field)
    ok store

  unfoldable pub put : RuleStore → Rule → Db → Result Db
  unfolding put_commands run_pipe
  put store rule db = do
    validate_port rule.port
    ks ← keys_for_pattern store rule.fqdn1 rule.port
    ok (run_pipe (put_commands store ks rule) db)

  unfoldable pub put_many : RuleStore → List Rule → Db → Result Db
  unfolding many_commands run_pipe
  put_many store rules db = do
    (pipe, bucketed) ← many_commands store rules [] false
    ok (run_pipe (if bucketed then pipe ++ (claim_command store ∷ []) else pipe) db)

  -- HDEL of each key, and whether any of them removed something.
  unfoldable pub delete_keys : List Text → Text → Db → Bool × Db
  delete_keys [] f db = (false, db)
  delete_keys (k ∷ ks) f db =
      let (n, db') = hdel k f db in let (any, db'') = delete_keys ks f db' in (ltb 0 n || any, db'')

  unfoldable pub delete : RuleStore → Text → ℕ → Text → Db → Result (Bool × Db)
  unfolding delete_keys
  delete store fqdn1 port fqdn2 db = do
    ks ← keys_for_pattern store fqdn1 port
    ok (delete_keys ks fqdn2 db)

  -- One EVALSHA for each group.
  unfoldable pub dispatch :
      RuleStore → ℕ → List FieldCandidate → Db → List Group → Result (List (Option Hit))
  unfolding group_keys flags
  dispatch store port bs db [] = ok []
  dispatch store port bs db (g ∷ gs) = do
    ks ← group_keys store port g.tag g.members
    raw ← lua_lookup (hmget db) ks (
        flags (map (λ c. c.needs_multi) g.members)
        ∷ flags (map (λ c. c.rank == 0) g.members)
        ∷ flags (map (λ b. b.needs_multi) bs)
        ∷ map (λ b. b.pattern_text) bs)
    raws ← dispatch store port bs db gs
    ok (raw ∷ raws)

  unfoldable pub lookup : RuleStore → Text → ℕ → Text → MatchMode → Db → Result (Option Match)
  unfolding dispatch pick_best group_all
  lookup store f1 port f2 mode db = do
    fqdn1 ← normalize_fqdn f1
    fqdn2 ← normalize_fqdn f2
    validate_port port
    let bs = field_candidates fqdn2 mode
    let groups = group_all [] (candidates fqdn1 mode store.num_buckets)
    raws ← dispatch store port bs db groups
    best ← pick_best bs groups raws none
    ok (to_match port best)
