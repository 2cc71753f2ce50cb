-- ===== src/Benchmark.antt =====
-- fqdnrules/benchmark.py: how the benchmark lays its rules out in keys, writes them, and makes its
-- queries. Times, floats and the reports are left out; the random generator is a parameter.
pub mod Layout
pub mod Phases
pub mod Found
pub mod Missed
pub mod Queries
pub mod QueryFile
use fun_with_dragonfly_db.Prelude.{
  ℕ, zero, suc, ◌+◌, ◌-◌, ◌*◌, ◌/◌, ◌%◌, Bool, true, false, ◌||◌, ◌&&◌, not, List, [], ◌∷◌, ◌++◌,
  map, ltb, leb, ◌==◌, if◌then◌else◌, length, get_elem?, drop, take, Option, none, some, Text,
  codes, split, decimal, parse_nat, Result, ok, err, value_error, ◌>>=◌,
}
use fun_with_dragonfly_db.Pattern.{WildcardScope}
use fun_with_dragonfly_db.Slots.{bisect_right}
use fun_with_dragonfly_db.Redis.{Redis}
use fun_with_dragonfly_db.Router.{RuleStore, Rule, put_many}

abbrev pub num_domains : ℕ
num_domains = 10000

-- `Query`: fqdn1, port, fqdn2.
abbrev pub Query : Type 0
Query = Text × ℕ × Text

-- `DepthTier`, over the type of its float weight.
pub record DepthTier (Weight : Type 0) : Type 0 where
  pub weight : Weight
  pub min_size : ℕ
  pub max_size : ℕ

abbrev pub min : ℕ → ℕ → ℕ
min a b = if ltb b a then b else a

abbrev pub push_size : ℕ → Option (List ℕ) → Option (List ℕ)
push_size size none = none
push_size size (some sizes) = some (size ∷ sizes)

-- The generator that is used: `rng.choices(tiers, weights, k=1)[0]` and `rng.randint`.
pub record Random (Weight : Type 0) : Type 1 where
  pub Rng : Type 0
  pub choice : List (DepthTier Weight) → List Weight → Rng → DepthTier Weight × Rng
  pub randint : ℕ → ℕ → Rng → ℕ × Rng

module _ {Weight : Type 0} (random : Random Weight) (tiers : List (DepthTier Weight)) where
  -- The loop of `build_key_sizes`: at most `fuel` rounds, `none` when they do not suffice.
  unfoldable pub key_sizes_loop : ℕ → ℕ → random.Rng → ℕ → Option (List ℕ)
  key_sizes_loop zero num_rules rng total = if ltb total num_rules then none else some []
  key_sizes_loop (suc fuel) num_rules rng total =
      let chosen = random.choice tiers (map (λ t. t.weight) tiers) rng in
      let drawn = random.randint chosen.0.min_size chosen.0.max_size chosen.1 in
      let size = min drawn.0 (num_rules - total) in
      let rest = key_sizes_loop fuel num_rules drawn.1 (total + size) in
      if ltb total num_rules then push_size size rest else some []

  -- `build_key_sizes`
  unfoldable pub build_key_sizes : ℕ → random.Rng → Option (List ℕ)
  build_key_sizes num_rules rng = key_sizes_loop num_rules num_rules rng 0

-- `itertools.accumulate`, from a running total on.
unfoldable pub accumulate : ℕ → List ℕ → List ℕ
accumulate total [] = []
accumulate total (x ∷ xs) = (total + x) ∷ accumulate (total + x) xs

pub record RuleLayout : Type 0 where
  pub key_sizes : List ℕ
  pub prefix : List ℕ

-- `RuleLayout.__init__`
unfoldable pub rule_layout : List ℕ → RuleLayout
rule_layout key_sizes = record { key_sizes = key_sizes; prefix = accumulate 0 key_sizes }

-- `num_keys`
abbrev pub num_keys : RuleLayout → ℕ
num_keys layout = length layout.key_sizes

-- `self._prefix[i]`, where the code is sure of `i`.
abbrev pub or_zero : Option ℕ → ℕ
or_zero none = 0
or_zero (some x) = x

-- `key_for_rule`
unfoldable pub key_for_rule : RuleLayout → ℕ → ℕ × ℕ
key_for_rule layout i =
    let key_id = bisect_right layout.prefix i in
    let offset = if ltb 0 key_id then or_zero (get_elem? layout.prefix (key_id - 1)) else 0 in
    (key_id, i - offset)

-- `_PORTS[i]`, for i below 3.
abbrev pub ports : ℕ → ℕ
ports i = if i == 0 then 443 else if i == 1 then 8443 else 80

unfoldable pub domain_for_key : ℕ → Text
domain_for_key key_id = codes "dragonfly" ++ (decimal (key_id % num_domains) ++ codes ".com")

-- `key_fields`: bucket, domain, port.
abbrev pub key_fields : ℕ → ℕ × Text × ℕ
key_fields key_id = (key_id % 1000, domain_for_key key_id, ports (key_id % 3))

-- f".host{key_id}.corp{bucket}.{domain}"
unfoldable pub zone_of_key : ℕ → Text
unfolding domain_for_key
zone_of_key key_id =
    let (bucket, domain, port) = key_fields key_id in
    codes ".host"
    ++ (decimal key_id ++ (codes ".corp" ++ (decimal bucket ++ (codes "." ++ domain))))

-- f".dest{i}.example.com"
unfoldable pub dest_of_rule : ℕ → Text
dest_of_rule i = codes ".dest" ++ (decimal i ++ codes ".example.com")

unfoldable pub rule_for_index : ℕ → RuleLayout → Rule
rule_for_index i layout =
    let key_id = (key_for_rule layout i).0 in
    let (bucket, domain, port) = key_fields key_id in
    record {
      fqdn1 = codes "*" ++ zone_of_key key_id;
      port = port;
      fqdn2 = codes "*" ++ dest_of_rule i;
      rule_id = codes "rule:" ++ decimal i;
      scope = WildcardScope.both;
    }

unfoldable pub matching_query_for_index : ℕ → RuleLayout → Query
matching_query_for_index i layout =
    let key_id = (key_for_rule layout i).0 in
    let (bucket, domain, port) = key_fields key_id in
    (codes "probe" ++ zone_of_key key_id, port, codes "probe" ++ dest_of_rule i)

-- `miss_query`, for the two numbers drawn.
unfoldable pub miss_query : ℕ → ℕ → Query
miss_query n junk_apex = (
  codes "nomatch" ++ (decimal n ++ (codes ".junk" ++ (decimal junk_apex ++ codes ".invalid"))),
  443,
  codes "nomatch" ++ (decimal n ++ codes ".invalid"),
)

-- `[rule_for_index(i, layout) for i in range(lo, lo + rounds)]`
unfoldable pub rules_from : RuleLayout → ℕ → ℕ → List Rule
rules_from layout lo zero = []
rules_from layout lo (suc rounds) = rule_for_index lo layout ∷ rules_from layout (suc lo) rounds

-- The batch of one round of `run_write_phase`.
unfoldable pub batch_at : RuleLayout → ℕ → ℕ → ℕ → List Rule
batch_at layout num_rules batch_size batch_idx =
    let lo = batch_idx * batch_size in
    let hi = min (lo + batch_size) num_rules in rules_from layout lo (hi - lo)

-- `math.ceil(num_rules / batch_size)`
unfoldable pub num_batches : ℕ → ℕ → ℕ
num_batches num_rules batch_size = (num_rules + batch_size - 1) / batch_size

-- The bytes that a batch counts for: `num_bytes` of a text is the length of its encoding.
unfoldable pub bytes_of : (Text → ℕ) → List Rule → ℕ
bytes_of num_bytes [] = 0
bytes_of num_bytes (r ∷ rs) = num_bytes r.fqdn2 + num_bytes r.rule_id + 1 + bytes_of num_bytes rs

module _ (redis : Redis) (store : RuleStore) (num_bytes : Text → ℕ) (layout : RuleLayout)
    (num_rules batch_size : ℕ) where
  -- The loop of `run_write_phase` from a batch on: the rules and bytes written, and the store.
  unfoldable pub write_loop : ℕ → ℕ → ℕ → ℕ → redis.Db → Result (ℕ × ℕ × redis.Db)
  write_loop batch_idx zero total_rules total_bytes db = ok (total_rules, total_bytes, db)
  write_loop batch_idx (suc rounds) total_rules total_bytes db =
      let batch = batch_at layout num_rules batch_size batch_idx in
      put_many redis store batch db >>= (λ db'.
        write_loop (suc batch_idx) rounds (total_rules + length batch)
          (total_bytes + bytes_of num_bytes batch) db')

  -- `run_write_phase`
  unfoldable pub run_write_phase : redis.Db → Result (ℕ × ℕ × redis.Db)
  run_write_phase db = write_loop 0 (num_batches num_rules batch_size) 0 0 db

abbrev pub tab : ℕ
tab = 9

abbrev pub newline : ℕ
newline = 10

-- f"{fqdn1}\t{port}\t{fqdn2}\n"
unfoldable pub query_line : Query → Text
query_line (fqdn1, port, fqdn2) =
    fqdn1 ++ (tab ∷ (decimal port ++ (tab ∷ (fqdn2 ++ (newline ∷ [])))))

-- `f.writelines(...)` of a batch.
unfoldable pub write_lines : List Query → Text
write_lines [] = []
write_lines (q ∷ qs) = query_line q ++ write_lines qs

-- The loop of `write_queries_to_file`: the batches `queries[start : start + batch_size]`, at most
-- `fuel` of them.
unfoldable pub write_batches : ℕ → List Query → ℕ → Text
write_batches zero queries batch_size = []
write_batches (suc fuel) queries batch_size =
    write_lines (take batch_size queries) ++ write_batches fuel (drop batch_size queries) batch_size

-- `write_queries_to_file`: what the file holds afterwards.
unfoldable pub write_queries_to_file : List Query → ℕ → Text
write_queries_to_file queries batch_size = write_batches (length queries) queries batch_size

-- `int(port_str)` and the three parts of a line.
abbrev pub parse_parts : List Text → Result Query
parse_parts (fqdn1 ∷ port_str ∷ fqdn2 ∷ []) = do port ← parse_nat port_str; ok (fqdn1, port, fqdn2)
parse_parts [] = err value_error
parse_parts (a ∷ []) = err value_error
parse_parts (a ∷ b ∷ []) = err value_error
parse_parts (a ∷ b ∷ c ∷ d ∷ rest) = err value_error

-- The loop of `read_queries_from_file` over the lines, each without its newline: `queries` and
-- `batch` are what was read before.
unfoldable pub read_loop : ℕ → List Text → List Query → List Query → Result (List Query)
read_loop batch_size [] queries batch = ok (queries ++ batch)
read_loop batch_size (line ∷ lines) queries batch = do
  q ← parse_parts (split tab line)
  (if leb batch_size (length (batch ++ (q ∷ [])))
      then read_loop batch_size lines (queries ++ (batch ++ (q ∷ []))) []
      else read_loop batch_size lines queries (batch ++ (q ∷ [])))

-- The lines of a file, each without its newline; what follows the last newline is a line unless it
-- is empty.
unfoldable pub drop_last_empty : List Text → List Text
drop_last_empty [] = []
drop_last_empty ([] ∷ []) = []
drop_last_empty ((c ∷ cs) ∷ []) = (c ∷ cs) ∷ []
drop_last_empty (l ∷ m ∷ ls) = l ∷ drop_last_empty (m ∷ ls)

abbrev pub carriage_return : ℕ
carriage_return = 13

-- What a file in text mode is read as: `\r\n` and `\r` are newlines too.
unfoldable pub universal_newlines : Text → Text
universal_newlines [] = []
universal_newlines (c ∷ []) = (if c == carriage_return then newline else c) ∷ []
universal_newlines (c ∷ d ∷ s) =
    let rest = universal_newlines (d ∷ s) in
    if c == carriage_return then (if d == newline then rest else newline ∷ rest) else c ∷ rest

-- `read_queries_from_file`
unfoldable pub read_queries_from_file : Text → ℕ → Result (List Query)
unfolding universal_newlines
read_queries_from_file file batch_size =
    read_loop batch_size (drop_last_empty (split newline (universal_newlines file))) [] []
