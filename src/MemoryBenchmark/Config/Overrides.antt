-- ===== src/MemoryBenchmark/Config/Overrides.antt =====
-- What the command line of memoryBenchmarkScript/memory_benchmark.py decides.
use fun_with_dragonfly_db.Prelude.{
  ◌≡◌, refl, sym, ◌∙◌, inl, inr, Bool, true, false, List, [], ◌∷◌, Option, none, some, Bool-cases,
  if◌then◌else◌,
}
use fun_with_dragonfly_db.MemoryBenchmark.{TypeConfig}
use fun_with_dragonfly_db.MemoryBenchmark.Config.{
  TypeName, Configs, Args, strings, hyperloglog, json, same_type, is_depth, override, set_enabled,
  set_fields, has_field_override, build_configs, apply_types, apply_batch, apply_fields,
  apply_value_size, apply_depths, apply_hll, apply_keys, apply_json, apply_children, apply_scale,
  default_configs, mem_type,
}

-- An override keeps what its function keeps.
override-keeps :
    {A C : Type 0} (o : Option A) (f : A → TypeConfig → TypeConfig) (get : TypeConfig → C)
    (cfg : TypeConfig)
    → ((a : A) → get (f a cfg) ≡ get cfg)
    → get (override o f cfg) ≡ get cfg
override-keeps none f get cfg h = refl
override-keeps (some a) f get cfg h = h a

if-keeps :
    {C : Type 0} (b : Bool) (get : TypeConfig → C) (x cfg : TypeConfig)
    → get x ≡ get cfg
    → get (if b then x else cfg) ≡ get cfg
if-keeps true get x cfg h = h
if-keeps false get x cfg h = refl

types-keeps :
    {C : Type 0} (args : Args) (configs : Configs) (t : TypeName) (get : TypeConfig → C)
    → ((b : Bool) → get (set_enabled b (configs t)) ≡ get (configs t))
    → get (apply_types args configs t) ≡ get (configs t)
unfolding apply_types
types-keeps args configs t get h = go args.types
  where
    go :
        (us : List TypeName)
        → get (elim us [ [] ↦ configs t | u ∷ us ↦ set_enabled (mem_type t (u ∷ us)) (configs t) ])
          ≡ get (configs t)
    go [] = refl
    go (u ∷ us) = h (mem_type t (u ∷ us))

batch-num_keys :
    (args : Args) (configs : Configs) (t : TypeName)
    → (apply_batch args configs t).num_keys ≡ (configs t).num_keys
unfolding apply_batch
batch-num_keys args configs t =
    override-keeps args.pipeline_batch _ (λ c. c.num_keys) (configs t) (λ n. refl)

fields-num_keys :
    (args : Args) (configs : Configs) (t : TypeName)
    → (apply_fields args configs t).num_keys ≡ (configs t).num_keys
unfolding apply_fields
fields-num_keys args configs t =
    if-keeps (has_field_override t) (λ c. c.num_keys) _ (configs t)
      (override-keeps (args.field_override t) set_fields (λ c. c.num_keys) (configs t) (λ n. refl))

value_size-num_keys :
    (args : Args) (configs : Configs) (t : TypeName)
    → (apply_value_size args configs t).num_keys ≡ (configs t).num_keys
unfolding apply_value_size
value_size-num_keys args configs t =
    override-keeps args.value_size _ (λ c. c.num_keys) (configs t) (λ n. refl)

depths-num_keys :
    (args : Args) (configs : Configs) (t : TypeName)
    → same_type t json ≡ false
    → is_depth t ≡ false
    → (apply_depths args configs t).num_keys ≡ (configs t).num_keys
unfolding apply_depths
depths-num_keys args configs t h k =
    if-keeps (configs json).enabled (λ c. c.num_keys) _ (configs t)
      (elim (Bool-cases args.all_depths) [ inl e ↦ rw (e, h, k) refl | inr e ↦ rw (e, h) refl ])

-- The steps behind the one that fixes the number of HLL keys do not change the number of keys of
-- the types outside of the JSON ones.
late_steps :
    (args : Args) (configs : Configs) (t : TypeName)
    → same_type t json ≡ false
    → is_depth t ≡ false
    → (apply_types args
        (apply_batch args (apply_fields args (apply_value_size args (apply_depths args configs))))
        t).num_keys
      ≡ (configs t).num_keys
late_steps args configs t h k =
    types-keeps args _ t (λ c. c.num_keys) (λ b. refl)
    ∙ batch-num_keys args _ t
    ∙ fields-num_keys args _ t
    ∙ value_size-num_keys args _ t
    ∙ depths-num_keys args configs t h k

hll_follows :
    (args : Args) (configs : Configs)
    → args.key_override hyperloglog ≡ none
    → (apply_hll args configs hyperloglog).num_keys ≡ (apply_hll args configs strings).num_keys
unfolding apply_hll
hll_follows args configs e = rw e refl

-- Without a count of its own, the HyperLogLog benchmark writes as many keys as that of the strings,
-- whatever else the command line changes.
pub build_configs-hll :
    (args : Args)
    → args.key_override hyperloglog ≡ none
    → (build_configs args hyperloglog).num_keys ≡ (build_configs args strings).num_keys
unfolding build_configs
build_configs-hll args e =
    late_steps args (apply_hll args before) hyperloglog refl refl
    ∙ hll_follows args before e
    ∙ sym (late_steps args (apply_hll args before) strings refl refl)
  where
    before : Configs
    before =
        apply_keys args (apply_json args (apply_children args (apply_scale args default_configs)))

-- With a list of types, exactly the types on it are enabled, whatever the defaults and the other
-- options say.
pub build_configs-types :
    (args : Args) (u : TypeName) (us : List TypeName) (t : TypeName)
    → args.types ≡ u ∷ us
    → (build_configs args t).enabled ≡ mem_type t args.types
unfolding build_configs apply_types
build_configs-types args u us t e = rw e refl
