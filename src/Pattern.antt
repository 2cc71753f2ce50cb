-- ===== src/Pattern.antt =====
-- fqdnrules/fqdn_pattern.py: validation of a concrete fqdn, hash tags and candidate patterns.
-- A text is a list of code points. Names are taken to have no cased letters but those of ASCII:
-- Python's `lower` also changes the others, which `lower` leaves as they are.
pub mod Normalize
pub mod Plain
pub mod Ranks
pub mod Tags
pub mod Covers
use fun_with_dragonfly_db.Prelude.{
  ℕ, zero, suc, ◌+◌, ◌%◌, Bool, true, false, ◌&&◌, ◌||◌, List, [], ◌∷◌, ◌++◌, map, ltb, leb, ◌==◌,
  if◌then◌else◌, length, drop, Text, codes, text_eq, starts_with, contains, split, join, encode,
  Result, ok, invalid_fqdn, ◌>>=◌, ◌>>◌, raise_if,
}
use fun_with_dragonfly_db.Zlib.{crc32}

abbrev pub max_labels : ℕ
max_labels = 20

abbrev pub global_rank : ℕ
global_rank = 255

abbrev pub dot : ℕ
dot = b'.'

abbrev pub star : Text
star = codes "*"

pub data MatchMode : Type 0 where
  single_level multi_level : MatchMode

pub data WildcardScope : Type 0 where
  single multi both : WildcardScope

-- The `.value` of a scope.
unfoldable pub scope_value : WildcardScope → Text
scope_value single = codes "S"
scope_value multi = codes "M"
scope_value both = codes "B"

pub record Candidate : Type 0 where
  pub pattern_text : Text
  pub rank : ℕ
  pub needs_multi : Bool
  pub tag : Text
  pub bucket_index : ℕ

-- What `str.strip()` takes for white space.
abbrev pub is_space : ℕ → Bool
is_space c =
    (leb 9 c && leb c 13)
    || (leb 28 c && leb c 32)
    || c == 0x85
    || c == 0xA0
    || c == 0x1680
    || (leb 0x2000 c && leb c 0x200A)
    || c == 0x2028
    || c == 0x2029
    || c == 0x202F
    || c == 0x205F
    || c == 0x3000

abbrev pub is_dot : ℕ → Bool
is_dot c = c == dot

abbrev pub lower : ℕ → ℕ
lower c = if leb b'A' c && leb c b'Z' then c + 32 else c

unfoldable pub strip_front : (ℕ → Bool) → Text → Text
strip_front p [] = []
strip_front p (c ∷ s) = let rest = strip_front p s in if p c then rest else c ∷ s

-- A character goes if it is stripped and nothing is left behind it.
abbrev pub keep_front : Bool → ℕ → Text → Text
keep_front true c [] = []
keep_front true c (d ∷ s) = c ∷ d ∷ s
keep_front false c s = c ∷ s

unfoldable pub strip_end : (ℕ → Bool) → Text → Text
strip_end p [] = []
strip_end p (c ∷ s) = keep_front (p c) c (strip_end p s)

abbrev pub is_empty : Text → Bool
is_empty [] = true
is_empty (c ∷ s) = false

abbrev pub any_empty : List Text → Bool
any_empty [] = false
any_empty (l ∷ ls) = is_empty l || any_empty ls

-- `fqdn.strip().rstrip(".").lower()`
unfoldable pub clean_up : Text → Text
clean_up fqdn = map lower (strip_end is_dot (strip_end is_space (strip_front is_space fqdn)))

unfoldable pub normalize_fqdn : Text → Result Text
normalize_fqdn fqdn = do
  raise_if (is_empty fqdn) invalid_fqdn
  raise_if (text_eq fqdn star) invalid_fqdn
  let normalized = clean_up fqdn
  raise_if (contains normalized b'*') invalid_fqdn
  let labels = split dot normalized
  raise_if (any_empty labels) invalid_fqdn
  raise_if (ltb max_labels (length labels)) invalid_fqdn
  ok normalized

abbrev pub global_tag : Text
global_tag = codes "__global__"

abbrev pub tld_prefix : Text
tld_prefix = codes "__tld__:"

-- One label: its bare-TLD tier. More: the last two. (`split` gives at least one.)
unfoldable pub tag_of_labels : List Text → Text
tag_of_labels [] = []
tag_of_labels (l ∷ []) = tld_prefix ++ l
tag_of_labels (l ∷ m ∷ []) = l ++ (dot ∷ m)
tag_of_labels (k ∷ l ∷ m ∷ ls) = tag_of_labels (l ∷ m ∷ ls)

-- `pattern[2:] if pattern.startswith("*.") else pattern`
unfoldable pub without_wildcard : Text → Text
without_wildcard pattern_text =
    if starts_with pattern_text (codes "*.") then drop 2 pattern_text else pattern_text

unfoldable pub hash_tag : Text → Text
hash_tag pattern_text =
    if text_eq pattern_text star
    then global_tag
    else tag_of_labels (split dot (without_wildcard pattern_text))

unfoldable pub is_bucketed_tag : Text → Bool
is_bucketed_tag tag = text_eq tag global_tag || starts_with tag tld_prefix

unfoldable pub candidate : Text → ℕ → Bool → ℕ → Candidate
candidate pattern_text rank needs_multi bucket_index = record {
  pattern_text = pattern_text;
  rank = rank;
  needs_multi = needs_multi;
  tag = hash_tag pattern_text;
  bucket_index = bucket_index;
}

unfoldable pub bucket_for : Text → ℕ → ℕ
bucket_for fqdn num_buckets = if ltb 1 num_buckets then crc32 (encode fqdn) % num_buckets else 0

-- `"*." + ".".join(labels)`
abbrev pub wildcard : List Text → Text
wildcard labels = codes "*." ++ join dot labels

-- The candidate of `if n >= 2`.
unfoldable pub parent_candidates : ℕ → List Text → List Candidate
parent_candidates b (l ∷ m ∷ ls) = candidate (wildcard (m ∷ ls)) 1 false b ∷ []
parent_candidates b ls = []

-- The loop from `k` on, over `remaining = labels[k:]` until it is empty.
unfoldable pub deep_from : ℕ → ℕ → List Text → List Candidate
deep_from k b [] = []
deep_from k b (l ∷ ls) = candidate (wildcard (l ∷ ls)) k true b ∷ deep_from (suc k) b ls

unfoldable pub deep_candidates : MatchMode → ℕ → List Text → List Candidate
unfolding deep_from
deep_candidates single_level b labels = []
deep_candidates multi_level b labels = deep_from 2 b (drop 2 labels)

unfoldable pub candidates : Text → MatchMode → ℕ → List Candidate
candidates fqdn mode num_buckets =
    let labels = split dot fqdn in
    let b = bucket_for fqdn num_buckets in
    candidate fqdn 0 false b
    ∷ (parent_candidates b labels
        ++ (deep_candidates mode b labels ++ (candidate star global_rank false b ∷ [])))

pub record FieldCandidate : Type 0 where
  pub pattern_text : Text
  pub rank : ℕ
  pub needs_multi : Bool

abbrev pub field : Text → ℕ → Bool → FieldCandidate
field pattern_text rank needs_multi = record {
  pattern_text = pattern_text;
  rank = rank;
  needs_multi = needs_multi;
}

unfoldable pub parent_fields : List Text → List FieldCandidate
parent_fields (l ∷ m ∷ ls) = field (wildcard (m ∷ ls)) 1 false ∷ []
parent_fields ls = []

unfoldable pub deep_fields_from : ℕ → List Text → List FieldCandidate
deep_fields_from k [] = []
deep_fields_from k (l ∷ ls) = field (wildcard (l ∷ ls)) k true ∷ deep_fields_from (suc k) ls

unfoldable pub deep_fields : MatchMode → List Text → List FieldCandidate
unfolding deep_fields_from
deep_fields single_level labels = []
deep_fields multi_level labels = deep_fields_from 2 (drop 2 labels)

unfoldable pub field_candidates : Text → MatchMode → List FieldCandidate
field_candidates fqdn mode =
    let labels = split dot fqdn in
    field fqdn 0 false
    ∷ (parent_fields labels ++ (deep_fields mode labels ++ (field star global_rank false ∷ [])))
