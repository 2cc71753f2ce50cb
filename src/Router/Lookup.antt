-- ===== src/Router/Lookup.antt =====
-- `lookup` of fqdnrules/fqdn_router.py against the reference scan.
use mathlib.Core.Path.{fun_ext}
use fun_with_dragonfly_db.Prelude.{
  ℕ, suc, ◌≤◌, ◌<◌, ◌≡◌, refl, ap, sym, ◌∙◌, inl, inr, Option, none, List, [], ◌∷◌, map, arith,
  lt→ltb, Bool-cases, All, All-append, Text, text_eq, text_eq→eq, split, length, ok,
}
use fun_with_dragonfly_db.Pattern.{
  dot, max_labels, MatchMode, Candidate, candidate, FieldCandidate, normalize_fqdn, candidates,
  field_candidates, bucket_for,
}
use fun_with_dragonfly_db.Pattern.Normalize.{normalize_fqdn-IsNormal}
use fun_with_dragonfly_db.Pattern.Ranks.{
  IncreasingFrom, ranks, to_field, candidates-IncreasingFrom, field_candidates-eq-map,
}
use fun_with_dragonfly_db.Redis.{Redis}
use fun_with_dragonfly_db.Router.{
  RuleStore, Group, add_to_group, group_all, key, group_keys, dispatch, lookup, to_match,
  validate_port,
}
use fun_with_dragonfly_db.Router.Script.{Reply}
use fun_with_dragonfly_db.Router.Scan.{ExactFrom, Reads, script-first_match}
use fun_with_dragonfly_db.Router.Groups.{
  best_of_groups-first_match, Answers, pick_best-best_of_groups,
}
use fun_with_dragonfly_db.Router.Keys.{
  IsUsable, IsBucket, IsOf, key_total, bucket_for-IsBucket, candidates-IsOf,
}
use fun_with_dragonfly_db.Router.Reference.{first_match, read_key, value_at}

-- A member of a group: it is one of the query's candidates, and has the group's tag.
abbrev IsMember : ℕ → Text → Candidate → Type 0
IsMember b tag c = (c.bucket_index ≡ b) × (c.tag ≡ tag)

abbrev AreGroups : ℕ → List Group → Type 0
AreGroups b = All (λ g. All (IsMember b g.tag) g.members)

add_to_group-AreGroups :
    (b : ℕ) (gs : List Group) (c : Candidate)
    → c.bucket_index ≡ b
    → AreGroups b gs
    → AreGroups b (add_to_group gs c)
unfolding add_to_group
add_to_group-AreGroups b [] c h hg = (((h, refl), tt), tt)
add_to_group-AreGroups b (g ∷ gs) c h (hg, hgs) = elim (Bool-cases (text_eq g.tag c.tag)) [
  | inl t ↦ rw t (
    All-append (IsMember b g.tag) g.members (c ∷ []) hg ((h, sym (text_eq→eq g.tag c.tag t)), tt),
    hgs,
  )
  | inr t ↦ rw t (hg, add_to_group-AreGroups b gs c h hgs)
]

group_all-AreGroups :
    (b : ℕ) (cs : List Candidate) (gs : List Group)
    → All (IsOf b) cs
    → AreGroups b gs
    → AreGroups b (group_all gs cs)
unfolding group_all
group_all-AreGroups b [] gs hc hg = hg
group_all-AreGroups b (c ∷ cs) gs ((hb, _), hcs) hg =
    group_all-AreGroups b cs (add_to_group gs c) hcs (add_to_group-AreGroups b gs c hb hg)

later-ExactFrom :
    (cs : List Candidate) (lo j : ℕ)
    → IncreasingFrom (suc lo) (ranks cs)
    → ExactFrom (suc j) (map to_field cs)
later-ExactFrom [] lo j h = tt
later-ExactFrom (c ∷ cs) lo j (hc, hcs) = (ground arith, later-ExactFrom cs c.rank (suc j) hcs)

pub field_candidates-ExactFrom :
    (fqdn : Text) (mode : MatchMode)
    → length (split dot fqdn) ≤ max_labels
    → ExactFrom 0 (field_candidates fqdn mode)
field_candidates-ExactFrom fqdn mode h =
    rw (field_candidates-eq-map fqdn mode 0) (exact (candidates-IncreasingFrom fqdn mode 0 h))
  where
    exact :
        IncreasingFrom 0 (ranks (candidates fqdn mode 0))
        → ExactFrom 0 (map to_field (candidates fqdn mode 0))
    exact h = unfold candidates candidate in (refl, later-ExactFrom _ 0 0 h.1)

module _ (redis : Redis) (store : RuleStore) (usable : IsUsable store) (port : ℕ)
    (db : redis.Db) where
  read : Candidate → Text → Option Text
  read = value_at redis store db port

  reads-hget :
      (c : Candidate) (tag k : Text)
      → c.tag ≡ tag
      → key store tag c.bucket_index c.pattern_text port ≡ ok k
      → (fs : List Text) → redis.hmget db k fs ≡ map (read c) fs
  reads-hget c tag k ht e fs = redis.hmget_law db k fs ∙ ap (λ f. map f fs) (fun_ext same)
    where
      built : key store c.tag c.bucket_index c.pattern_text port ≡ ok k
      built = ap (λ t. key store t c.bucket_index c.pattern_text port) ht ∙ e

      same : (f : Text) → redis.hget db k f ≡ read c f
      same f = unfold read value_at in sym (ap (λ r. read_key redis db r f) built)

  group_keys-Reads :
      (b : ℕ) (tag : Text) (cs : List Candidate)
      → IsBucket store b
      → All (IsMember b tag) cs
      → (ks : List Text) × (group_keys store port tag cs ≡ ok ks)
        × Reads (redis.hmget db) read cs ks
  unfolding group_keys
  group_keys-Reads b tag [] l h = ([], refl, tt)
  group_keys-Reads b tag (c ∷ cs) l ((hb, ht), hcs) =
      let (k, e) = key_total store tag c.bucket_index c.pattern_text port usable (rw hb l) in
      let (ks, es, rs) = group_keys-Reads b tag cs l hcs in
      (k ∷ ks, rw (e, es), (reads-hget c tag k ht e, rs))

  dispatch-Answers :
      (b : ℕ) (bs : List FieldCandidate) (gs : List Group)
      → IsBucket store b
      → ExactFrom 0 bs
      → AreGroups b gs
      → (raws : List Reply) × (dispatch redis store port bs db gs ≡ ok raws)
        × Answers read bs gs raws
  unfolding dispatch
  dispatch-Answers b bs [] l x h = ([], refl, tt)
  dispatch-Answers b bs (g ∷ gs) l x (hg, hgs) =
      let (ks, e, r) = group_keys-Reads b g.tag g.members l hg in
      let (raw, e', a) = script-first_match g.members bs (redis.hmget db) read x ks r in
      let (raws, es, as') = dispatch-Answers b bs gs l x hgs in
      (raw ∷ raws, rw (e, e', es), (a, as'))

  -- For a store whose bucket count is at most 1 or has a token table, names that normalize, and a
  -- port from 1 to 65535, `lookup` answers what the reference scan finds among the flat candidates,
  -- in order of precedence: grouping by tag, the script, its bit lists and its indices, and the
  -- minimum over the groups change nothing, and under these conditions no step of it raises.
  pub lookup-first_match :
      (f1 f2 q1 q2 : Text) (mode : MatchMode)
      → normalize_fqdn f1 ≡ ok q1
      → normalize_fqdn f2 ≡ ok q2
      → 0 < port
      → port < 65536
      → lookup redis store f1 port f2 mode db
        ≡ ok (
            to_match port (
              first_match
                (value_at redis store db port)
                (candidates q1 mode store.num_buckets)
                (field_candidates q2 mode)))
  unfolding lookup validate_port
  lookup-first_match f1 f2 q1 q2 mode e1 e2 low high =
      let b = bucket_for q1 store.num_buckets in
      let bs = field_candidates q2 mode in
      let cs = candidates q1 mode store.num_buckets in
      let n1 = normalize_fqdn-IsNormal f1 q1 e1 in
      let n2 = normalize_fqdn-IsNormal f2 q2 e2 in
      let (raws, dispatched, answers) =
        dispatch-Answers b bs (group_all [] cs) (bucket_for-IsBucket q1 store)
          (field_candidates-ExactFrom q2 mode n2.few)
          (group_all-AreGroups b cs [] (candidates-IsOf q1 mode store.num_buckets) tt) in
      rw
        (
          e1,
          e2,
          lt→ltb 0 port low,
          lt→ltb port 65536 high,
          dispatched,
          pick_best-best_of_groups read bs (group_all [] cs) raws none answers,
          best_of_groups-first_match read bs 0 cs
              (candidates-IncreasingFrom q1 mode store.num_buckets n1.few),
        )
        (unfold read in refl)
