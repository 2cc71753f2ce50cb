-- ===== src/MemoryBenchmark.antt =====
-- memoryBenchmarkScript/memory_benchmark.py: the configurations and the commands that the populate
-- functions send. Times, progress output and memory measurements are left out; the random values
-- and the JSON texts are parameters.
pub mod Config
pub mod Documents
pub mod Flushes
pub mod Sweep
pub mod Deltas
pub mod Counts
pub mod Report
use fun_with_dragonfly_db.Prelude.{
  ℕ, zero, suc, ◌+◌, ◌-◌, ◌*◌, ◌/◌, ◌%◌, Bool, true, false, ◌||◌, ◌&&◌, not, List, [], ◌∷◌, ◌++◌,
  map, ltb, leb, ◌==◌, if◌then◌else◌, length, get_elem?, replicate, drop, text_eq, Option, none,
  some, Text, codes, decimal, Result, ok, err, runtime_error, zero_division_error, ◌>>=◌, ◌>>◌,
  raise_if,
}
use fun_with_dragonfly_db.MemoryBenchmark.Documents.{
  Json, text, object, make_medium_doc, make_deep_doc,
}

pub data JsonDepth : Type 0 where
  flat medium deep : JsonDepth

-- `TypeConfig`
pub record TypeConfig : Type 0 where
  pub enabled : Bool
  pub num_keys : ℕ
  pub value_size : ℕ
  pub num_fields : ℕ
  pub pipeline_batch : ℕ
  pub json_depth : JsonDepth

-- The commands that the populate functions queue in a pipeline, or send at once.
pub data Command : Type 0 where
  debug_populate : (count : ℕ) (prefix : Text) (value_size : ℕ) → Command
  set : (key value : Text) (ex : Option ℕ) → Command
  hset : (key : Text) (fields : List (Text × Text)) → Command
  rpush sadd pfadd : (key : Text) (elements : List Text) → Command
  zadd : (key : Text) (members : List (Text × ℕ)) → Command
  xadd : (key : Text) (fields : List (Text × Text)) → Command
  json_set : (key path doc : Text) → Command
  expire : (key : Text) (seconds : ℕ) → Command

-- f"{key_prefix}:{i}"
unfoldable pub key_at : Text → ℕ → Text
key_at key_prefix i = key_prefix ++ (codes ":" ++ decimal i)

-- `if ttl > 0: pipe.expire(key, ttl)`
abbrev pub expire_if : ℕ → Text → List Command
expire_if ttl key = if ltb 0 ttl then expire key ttl ∷ [] else []

-- `x % y`, which raises when y is 0.
abbrev pub mod_py : ℕ → ℕ → Result ℕ
mod_py x zero = err zero_division_error
mod_py x (suc y) = ok (x % suc y)

-- The loop that the populate functions share, from the key `i` on: `queued` is what the pipeline
-- holds, and the result is what each `execute()` sends.
unfoldable pub populate_loop :
    (ℕ → List Command) → ℕ → ℕ → ℕ → List Command → Result (List (List Command))
populate_loop commands every i zero queued = ok (queued ∷ [])
populate_loop commands every i (suc rounds) queued = do
  r ← mod_py (i + 1) every
  (let pipe = queued ++ commands i in
      if r == 0
      then (do sent ← populate_loop commands every (suc i) rounds []; ok (pipe ∷ sent))
      else populate_loop commands every (suc i) rounds pipe)

-- `{f"f{j}": ... for j in range(n)}`, over the drawn values.
unfoldable pub numbered : Text → ℕ → List Text → List (Text × Text)
numbered name j [] = []
numbered name j (v ∷ vs) = (name ++ decimal j, v) ∷ numbered name (suc j) vs

-- `{value: float(j) for j in range(n)}`: a value drawn twice keeps its place and gets the later
-- score.
unfoldable pub put_score : Text → ℕ → List (Text × ℕ) → List (Text × ℕ)
put_score v j [] = (v, j) ∷ []
put_score v j ((w, k) ∷ ms) =
    let rest = put_score v j ms in if text_eq w v then (w, j) ∷ ms else (w, k) ∷ rest

unfoldable pub scored : ℕ → List Text → List (Text × ℕ) → List (Text × ℕ)
scored j [] members = members
scored j (v ∷ vs) members = scored (suc j) vs (put_score v j members)

-- What `DEBUG POPULATE` answers: it works, its error names "unknown" or "debug", or another one.
pub data Debugged : Type 0 where
  worked unavailable failed : Debugged

unfoldable pub set_commands : Text → Text → ℕ → ℕ → List Command
set_commands key_prefix value ttl i =
    set (key_at key_prefix i) value (if ltb 0 ttl then some ttl else none) ∷ []

unfoldable pub pipelined_set : TypeConfig → Text → ℕ → Text → Result (List (List Command))
unfolding set_commands populate_loop
pipelined_set cfg key_prefix ttl value =
    populate_loop (set_commands key_prefix value ttl) cfg.pipeline_batch 0 cfg.num_keys []

unfoldable pub first_of : List Text → Text
first_of [] = []
first_of (v ∷ vs) = v

abbrev pub at_least_one : ℕ → ℕ
at_least_one n = if ltb n 1 then 1 else n

-- The XADDs of one stream, and its time to live.
unfoldable pub stream_commands : Text → ℕ → ℕ → List (Text × Text) → ℕ → List Command
stream_commands key_prefix ttl entries_per entry i =
    replicate entries_per (xadd (key_at key_prefix i) entry) ++ expire_if ttl (key_at key_prefix i)

-- `round(n / 10)`: half to even.
unfoldable pub round_tenth : ℕ → ℕ
round_tenth n =
    if ltb (n % 10) 5 then n / 10 else (if n % 10 == 5 then n / 10 + (n / 10) % 2 else n / 10 + 1)

abbrev pub depth_name : JsonDepth → Text
depth_name flat = codes "json_flat"
depth_name medium = codes "json_medium"
depth_name deep = codes "json_deep"

-- `key_prefix or f"json_{depth}"`
abbrev pub prefix_or_depth : Text → JsonDepth → Text
prefix_or_depth [] depth = depth_name depth
prefix_or_depth (c ∷ cs) depth = c ∷ cs

-- `docs[i % pool_size]`; there is at least one document.
unfoldable pub document_at : List Text → ℕ → Text
document_at docs i = first_of (drop (i % length docs) docs)

-- `draws n size` are the n values of that size that `random_value` draws.
module _ (draws : ℕ → ℕ → List Text) where
  -- `populate_strings`: what is sent, `DEBUG POPULATE` first when there is no time to live.
  unfoldable pub populate_strings : Debugged → TypeConfig → Text → ℕ → Result (List (List Command))
  unfolding pipelined_set first_of
  populate_strings debugged cfg key_prefix ttl =
      let value = first_of (draws 1 cfg.value_size) in
      let tried = debug_populate cfg.num_keys key_prefix cfg.value_size ∷ [] in
      if ltb 0 ttl then pipelined_set cfg key_prefix ttl value else (elim debugged [
        | worked ↦ ok (tried ∷ [])
        | unavailable ↦ do sent ← pipelined_set cfg key_prefix ttl value; ok (tried ∷ sent)
        | failed ↦ err runtime_error
      ])

  unfoldable pub populate_hashes : TypeConfig → Text → ℕ → Result (List (List Command))
  unfolding populate_loop numbered
  populate_hashes cfg key_prefix ttl =
      let fields = numbered (codes "f") 0 (draws cfg.num_fields cfg.value_size) in
      populate_loop (λ i. hset (key_at key_prefix i) fields ∷ expire_if ttl (key_at key_prefix i))
        cfg.pipeline_batch 0 cfg.num_keys []

  unfoldable pub populate_lists : TypeConfig → Text → ℕ → Result (List (List Command))
  unfolding populate_loop
  populate_lists cfg key_prefix ttl =
      let elements = draws cfg.num_fields cfg.value_size in
      populate_loop
        (λ i. rpush (key_at key_prefix i) elements ∷ expire_if ttl (key_at key_prefix i))
        cfg.pipeline_batch 0 cfg.num_keys []

  unfoldable pub populate_sets : TypeConfig → Text → ℕ → Result (List (List Command))
  unfolding populate_loop
  populate_sets cfg key_prefix ttl =
      let members = draws cfg.num_fields cfg.value_size in
      populate_loop (λ i. sadd (key_at key_prefix i) members ∷ expire_if ttl (key_at key_prefix i))
        cfg.pipeline_batch 0 cfg.num_keys []

  unfoldable pub populate_sorted_sets : TypeConfig → Text → ℕ → Result (List (List Command))
  unfolding populate_loop scored put_score
  populate_sorted_sets cfg key_prefix ttl =
      let members = scored 0 (draws cfg.num_fields cfg.value_size) [] in
      populate_loop (λ i. zadd (key_at key_prefix i) members ∷ expire_if ttl (key_at key_prefix i))
        cfg.pipeline_batch 0 cfg.num_keys []

  unfoldable pub populate_streams : TypeConfig → Text → ℕ → Result (List (List Command))
  unfolding populate_loop stream_commands numbered
  populate_streams cfg key_prefix ttl =
      let entry = numbered (codes "field") 1 (draws 2 cfg.value_size) in
      populate_loop (stream_commands key_prefix ttl cfg.num_fields entry)
        (cfg.pipeline_batch / at_least_one cfg.num_fields) 0 cfg.num_keys []

  unfoldable pub populate_hyperloglog : TypeConfig → Text → ℕ → Result (List (List Command))
  unfolding populate_loop round_tenth
  populate_hyperloglog cfg key_prefix ttl =
      let elements = draws (round_tenth cfg.num_fields) 16 in
      populate_loop
        (λ i. pfadd (key_at key_prefix i) elements ∷ expire_if ttl (key_at key_prefix i))
        cfg.pipeline_batch 0 cfg.num_keys []

  module _ (dumps : Json → Text) where
    -- The documents that `populate_json` cycles through.
    unfoldable pub documents : TypeConfig → List Text
    unfolding numbered
    documents cfg = elim cfg.json_depth [
      | medium ↦ dumps (make_medium_doc 0) ∷ []
      | deep ↦ map (λ idx. dumps (make_deep_doc idx)) (0 ∷ 1 ∷ 2 ∷ 3 ∷ 4 ∷ [])
      | flat ↦
          dumps (
            object (
              map (λ f. (f.0, text f.1))
                (numbered (codes "field") 0 (draws cfg.num_fields cfg.value_size))))
          ∷ []
    ]

    unfoldable pub populate_json : TypeConfig → Text → ℕ → Result (List (List Command))
    unfolding populate_loop documents document_at
    populate_json cfg key_prefix ttl =
        let prefix = prefix_or_depth key_prefix cfg.json_depth in
        let docs = documents cfg in
        populate_loop
          (λ i.
            json_set (key_at prefix i) (codes "$") (document_at docs i)
            ∷ expire_if ttl (key_at prefix i))
          cfg.pipeline_batch 0 cfg.num_keys []
