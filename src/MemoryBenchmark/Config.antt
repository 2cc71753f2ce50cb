-- ===== src/MemoryBenchmark/Config.antt =====
-- DEFAULT_CONFIGS and build_configs of memoryBenchmarkScript/memory_benchmark.py. A command line is
-- a record; the product of a count and the float scale, cut to a whole number, is a parameter.
pub mod Overrides
use fun_with_dragonfly_db.Prelude.{
  ℕ, Bool, true, false, ◌||◌, ◌&&◌, List, [], ◌∷◌, Option, none, some, ltb, ◌==◌, if◌then◌else◌,
}
use fun_with_dragonfly_db.MemoryBenchmark.{TypeConfig, JsonDepth}

-- The keys of DEFAULT_CONFIGS, in order.
pub data TypeName : Type 0 where
  strings hashes lists sets sorted_sets streams hyperloglog json json_flat json_medium json_deep :
      TypeName

abbrev pub type_order : List TypeName
type_order =
    strings ∷ hashes ∷ lists ∷ sets ∷ sorted_sets ∷ streams ∷ hyperloglog ∷ json ∷ json_flat
    ∷ json_medium ∷ json_deep ∷ []

abbrev pub type_index : TypeName → ℕ
type_index strings = 0
type_index hashes = 1
type_index lists = 2
type_index sets = 3
type_index sorted_sets = 4
type_index streams = 5
type_index hyperloglog = 6
type_index json = 7
type_index json_flat = 8
type_index json_medium = 9
type_index json_deep = 10

abbrev pub same_type : TypeName → TypeName → Bool
same_type t u = type_index t == type_index u

-- `dict[str, TypeConfig]`, with all of the keys.
abbrev pub Configs : Type 0
Configs = TypeName → TypeConfig

-- `TypeConfig(num_keys=..., num_fields=..., value_size=...)`
abbrev pub type_config : ℕ → ℕ → ℕ → TypeConfig
type_config num_keys num_fields value_size = record {
  enabled = true;
  num_keys = num_keys;
  value_size = value_size;
  num_fields = num_fields;
  pipeline_batch = 5000;
  json_depth = JsonDepth.flat;
}

abbrev pub json_config : JsonDepth → TypeConfig
json_config depth = record {
  enabled = false;
  num_keys = 500000;
  value_size = 32;
  num_fields = 8;
  pipeline_batch = 5000;
  json_depth = depth;
}

-- `DEFAULT_CONFIGS`
unfoldable pub default_configs : Configs
default_configs strings = type_config 10000000 10 64
default_configs hashes = type_config 500000 10 32
default_configs lists = type_config 500000 10 32
default_configs sets = type_config 500000 15 24
default_configs sorted_sets = type_config 500000 15 24
default_configs streams = type_config 500000 5 32
default_configs hyperloglog = type_config 200000 100 64
default_configs json = json_config JsonDepth.flat
default_configs json_flat = json_config JsonDepth.flat
default_configs json_medium = json_config JsonDepth.medium
default_configs json_deep = json_config JsonDepth.deep

-- The command line, as far as `build_configs` reads it. `scaled` is `int(n * args.scale)`, and
-- `none` for a scale of 1.
pub record Args : Type 0 where
  pub scaled : Option (ℕ → ℕ)
  pub container_children_count : Option ℕ
  pub enable_json : Bool
  pub key_override : TypeName → Option ℕ
  pub all_depths : Bool
  pub depth : JsonDepth
  pub value_size : Option ℕ
  pub field_override : TypeName → Option ℕ
  pub pipeline_batch : Option ℕ
  pub types : List TypeName

-- An override that may be absent.
abbrev pub override {ℓ κ} : {A : Type ℓ} {B : Type κ} → Option A → (A → B → B) → B → B
override none f x = x
override (some a) f x = f a x

abbrev pub set_keys : ℕ → TypeConfig → TypeConfig
set_keys n cfg = record cfg { num_keys = n }

abbrev pub set_fields : ℕ → TypeConfig → TypeConfig
set_fields n cfg = record cfg { num_fields = n }

abbrev pub set_enabled : Bool → TypeConfig → TypeConfig
set_enabled b cfg = record cfg { enabled = b }

abbrev pub at_least_1000 : ℕ → ℕ
at_least_1000 n = if ltb 1000 n then n else 1000

-- `if args.scale != 1.0: ...`
unfoldable pub apply_scale : Args → Configs → Configs
apply_scale args configs t =
    override args.scaled (λ f cfg. set_keys (at_least_1000 (f cfg.num_keys)) cfg) (configs t)

-- The five container types.
abbrev pub is_container : TypeName → Bool
is_container strings = false
is_container hashes = true
is_container lists = true
is_container sets = true
is_container sorted_sets = true
is_container streams = true
is_container hyperloglog = false
is_container json = false
is_container json_flat = false
is_container json_medium = false
is_container json_deep = false

unfoldable pub apply_children : Args → Configs → Configs
apply_children args configs t =
    if is_container t
    then override args.container_children_count set_fields (configs t)
    else configs t

unfoldable pub apply_json : Args → Configs → Configs
apply_json args configs t =
    if same_type t json
    then (if args.enable_json then set_enabled true (configs t) else configs t)
    else configs t

-- `key_overrides`, which has no entry for the three JSON depths.
abbrev pub has_key_override : TypeName → Bool
has_key_override t = ltb (type_index t) 8

unfoldable pub apply_keys : Args → Configs → Configs
apply_keys args configs t =
    if has_key_override t
    then override (args.key_override t) (λ n cfg. set_enabled true (set_keys n cfg)) (configs t)
    else configs t

-- The HLL count follows the strings, unless it was given.
abbrev pub follow : Option ℕ → ℕ → TypeConfig → TypeConfig
follow none n cfg = set_keys n cfg
follow (some m) n cfg = cfg

unfoldable pub apply_hll : Args → Configs → Configs
apply_hll args configs t =
    if same_type t hyperloglog
    then follow (args.key_override hyperloglog) (configs strings).num_keys (configs t)
    else configs t

abbrev pub is_depth : TypeName → Bool
is_depth t = ltb 7 (type_index t)

-- The JSON depth modes, when "json" is enabled.
unfoldable pub apply_depths : Args → Configs → Configs
apply_depths args configs t =
    if (configs json).enabled
    then (if args.all_depths
        then (if same_type t json
            then set_enabled false (configs t)
            else (if is_depth t
                then set_enabled true (set_keys (configs json).num_keys (configs t))
                else configs t))
        else (if same_type t json
            then record (configs t) { json_depth = args.depth }
            else configs t))
    else configs t

unfoldable pub apply_value_size : Args → Configs → Configs
apply_value_size args configs t =
    override args.value_size (λ n cfg. record cfg { value_size = n }) (configs t)

-- The four types with an override for their fields, elements or members.
abbrev pub has_field_override : TypeName → Bool
has_field_override t = ltb 0 (type_index t) && ltb (type_index t) 5

unfoldable pub apply_fields : Args → Configs → Configs
apply_fields args configs t =
    if has_field_override t
    then override (args.field_override t) set_fields (configs t)
    else configs t

unfoldable pub apply_batch : Args → Configs → Configs
apply_batch args configs t =
    override args.pipeline_batch (λ n cfg. record cfg { pipeline_batch = n }) (configs t)

unfoldable pub mem_type : TypeName → List TypeName → Bool
mem_type t [] = false
mem_type t (u ∷ us) = same_type u t || mem_type t us

-- `if args.types: ...`
unfoldable pub apply_types : Args → Configs → Configs
unfolding mem_type
apply_types args configs t = elim args.types [
  | [] ↦ configs t
  | u ∷ us ↦ set_enabled (mem_type t (u ∷ us)) (configs t)
]

-- `build_configs`
unfoldable pub build_configs : Args → Configs
build_configs args = apply_types args (
    apply_batch args (
      apply_fields args (
        apply_value_size args (
          apply_depths args (
            apply_hll args (
              apply_keys args
                (apply_json args (apply_children args (apply_scale args default_configs)))))))))
