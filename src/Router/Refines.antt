-- ===== src/Router/Refines.antt =====
-- `lookup` of fqdnrules/fqdn_router.py on a store that agrees with an abstract table.
use fun_with_dragonfly_db.Prelude.{
  ℕ, suc, ◌<◌, ◌≡◌, ◌≢◌, refl, ap, sym, ◌∙◌, inl, inr, Bool, true, false, not, ◌&&◌, ◌||◌, Option,
  none, some, List, [], ◌∷◌, ◌++◌, map, ◌==◌, Bool-cases, drop, arith, All, All-append, All-map,
  All-split, Text, Lacks, split, join, ok,
}
use fun_with_dragonfly_db.Pattern.{
  dot, WildcardScope, single, multi, both, scope_value, MatchMode, single_level, multi_level,
  Candidate, candidate, FieldCandidate, candidates, field_candidates, normalize_fqdn, bucket_for,
  wildcard, parent_candidates, deep_candidates, deep_from,
}
use fun_with_dragonfly_db.Pattern.Ranks.{to_field, field_candidates-eq-map}
use fun_with_dragonfly_db.Redis.{Redis}
use fun_with_dragonfly_db.Router.{RuleStore, colon, lookup, to_match}
use fun_with_dragonfly_db.Router.Script.{is_blocked}
use fun_with_dragonfly_db.Router.Keys.{
  IsUsable, IsBucket, IsOf, candidates-IsOf, bucket_for-IsBucket,
}
use fun_with_dragonfly_db.Router.Lookup.{lookup-first_match}
use fun_with_dragonfly_db.Router.Reads.{IsReader}
use fun_with_dragonfly_db.Router.Reference.{admit, first_field, first_match, value_at}
use fun_with_dragonfly_db.Router.Table.{
  Entry, RuleTable, reaches, offer, first_offer, first_of_table, table_match,
}

-- How an entry is written in a hash field.
abbrev pub entry_text : Entry → Text
entry_text entry = scope_value entry.scope ++ entry.rule_id

abbrev pub option_text : Option Entry → Option Text
option_text none = none
option_text (some entry) = some (entry_text entry)

-- The script's test of the scope character is the table's reach.
blocked-reaches :
    (scope : WildcardScope) (exact deep : Bool) (id : Text)
    → is_blocked exact deep (scope_value scope ++ id) ≡ not (reaches scope exact deep)
unfolding is_blocked reaches scope_value
blocked-reaches single true deep id = refl
blocked-reaches single false true id = refl
blocked-reaches single false false id = refl
blocked-reaches multi true deep id = refl
blocked-reaches multi false true id = refl
blocked-reaches multi false false id = refl
blocked-reaches both true deep id = refl
blocked-reaches both false true id = refl
blocked-reaches both false false id = refl

drop-scope_value : (scope : WildcardScope) (id : Text) → drop 1 (scope_value scope ++ id) ≡ id
unfolding scope_value
drop-scope_value single id = refl
drop-scope_value multi id = refl
drop-scope_value both id = refl

admit-offer :
    (a : Candidate) (b : FieldCandidate) (o : Option Entry)
    → admit a b (option_text o) ≡ offer (to_field a) b o
unfolding offer
admit-offer a b none = refl
admit-offer a b (some entry) =
    let exact = a.rank == 0 && b.rank == 0 in
    let deep = a.needs_multi || b.needs_multi in
    let e = blocked-reaches entry.scope exact deep entry.rule_id in
    elim (Bool-cases (reaches entry.scope exact deep)) [
      | inl t ↦ rw (e, t, drop-scope_value entry.scope entry.rule_id) refl
      | inr t ↦ rw (e, t) refl
    ]

module _ (read : Candidate → Text → Option Text) (entries : Text → Text → Option Entry) where
  -- What is read of a candidate's patterns is what the table has.
  abbrev IsRead : Candidate → Type 0
  IsRead a = (f : Text) → read a f ≡ option_text (entries a.pattern_text f)

  first_field-first_offer :
      (a : Candidate) (bs : List FieldCandidate)
      → IsRead a
      → first_field (read a) a bs ≡ first_offer (entries a.pattern_text) (to_field a) bs
  unfolding first_field first_offer
  first_field-first_offer a [] h = refl
  first_field-first_offer a (b ∷ bs) h =
      rw
        (
          h b.pattern_text,
          admit-offer a b (entries a.pattern_text b.pattern_text),
          first_field-first_offer a bs h,
        )
        refl

  first_match-first_of_table :
      (cs : List Candidate) (bs : List FieldCandidate)
      → All IsRead cs
      → first_match read cs bs ≡ first_of_table entries (map to_field cs) bs
  unfolding first_match first_of_table
  first_match-first_of_table [] bs h = refl
  first_match-first_of_table (c ∷ cs) bs (hc, hcs) =
      rw (first_field-first_offer c bs hc, first_match-first_of_table cs bs hcs) refl

-- The candidates' patterns have no colon, if the name has none.
abbrev IsClean : Candidate → Type 0
IsClean c = Lacks colon c.pattern_text

join-Lacks : (ls : List Text) → All (Lacks colon) ls → Lacks colon (join dot ls)
join-Lacks [] h = tt
join-Lacks (l ∷ []) (hl, _) = hl
join-Lacks (l ∷ m ∷ ls) (hl, hls) =
    All-append (λ c. c ≢ colon) l (dot ∷ join dot (m ∷ ls)) hl
      (omega arith, join-Lacks (m ∷ ls) hls)

wildcard-Lacks : (ls : List Text) → All (Lacks colon) ls → Lacks colon (wildcard ls)
wildcard-Lacks ls h = (omega arith, (omega arith, join-Lacks ls h))

module _ (b : ℕ) where
  deep_from-IsClean :
      (k : ℕ) (ls : List Text) → All (Lacks colon) ls → All IsClean (deep_from k b ls)
  unfolding deep_from candidate
  deep_from-IsClean k [] h = tt
  deep_from-IsClean k (l ∷ ls) (hl, hls) =
      (wildcard-Lacks (l ∷ ls) (hl, hls), deep_from-IsClean (suc k) ls hls)

  deep-IsClean :
      (mode : MatchMode) (ls : List Text)
      → All (Lacks colon) ls
      → All IsClean (deep_candidates mode b ls)
  unfolding deep_candidates
  deep-IsClean single_level ls h = tt
  deep-IsClean multi_level [] h = deep_from-IsClean 2 [] tt
  deep-IsClean multi_level (l ∷ []) h = deep_from-IsClean 2 [] tt
  deep-IsClean multi_level (l ∷ m ∷ ls) (_, (_, h)) = deep_from-IsClean 2 ls h

  parent-IsClean : (ls : List Text) → All (Lacks colon) ls → All IsClean (parent_candidates b ls)
  unfolding parent_candidates candidate
  parent-IsClean [] h = tt
  parent-IsClean (l ∷ []) h = tt
  parent-IsClean (l ∷ m ∷ ls) (hl, hls) = (wildcard-Lacks (m ∷ ls) hls, tt)

split-clean : (fqdn : Text) → Lacks colon fqdn → All (Lacks colon) (split dot fqdn)
split-clean fqdn h = All-split dot (λ c. c ≢ colon) fqdn (All-map _ _ (λ c n d. n) fqdn h)

candidates-IsClean :
    (fqdn : Text) (mode : MatchMode) (num_buckets : ℕ)
    → Lacks colon fqdn
    → All IsClean (candidates fqdn mode num_buckets)
unfolding candidates candidate
candidates-IsClean fqdn mode num_buckets h =
    let b = bucket_for fqdn num_buckets in
    let ls = split dot fqdn in
    let hs = split-clean fqdn h in
    (
      h,
      All-append IsClean (parent_candidates b ls) _ (parent-IsClean b ls hs) (
          All-append IsClean (deep_candidates mode b ls) _ (deep-IsClean b mode ls hs)
            ((omega arith, tt), tt)),
    )

module _ (redis : Redis) (store : RuleStore) (usable : IsUsable store) where
  -- Every reader, in every bucket, finds what the table has.
  abbrev pub Agrees : redis.Db → RuleTable → Type 0
  Agrees db table =
      (c : Candidate) (port : ℕ) (f : Text)
      → IsReader redis store usable c
      → value_at redis store db port c f ≡ option_text (table c.pattern_text port f)

  readers :
      (b : ℕ) (cs : List Candidate)
      → IsBucket store b
      → All (IsOf b) cs
      → All IsClean cs
      → All (IsReader redis store usable) cs
  readers b [] l h k = tt
  readers b (c ∷ cs) l ((hb, ht), h) (kc, k) =
      (record { tagged = ht; legal = rw hb l; clean = kc }, readers b cs l h k)

  -- On a store that agrees with a table, `lookup` answers as the table does.
  pub lookup-table_match :
      (table : RuleTable) (db : redis.Db) (f1 f2 q1 q2 : Text) (port : ℕ) (mode : MatchMode)
      → Agrees db table
      → normalize_fqdn f1 ≡ ok q1
      → normalize_fqdn f2 ≡ ok q2
      → Lacks colon q1
      → 0 < port
      → port < 65536
      → lookup redis store f1 port f2 mode db
        ≡ ok (to_match port (table_match table port q1 q2 mode))
  lookup-table_match table db f1 f2 q1 q2 port mode agrees e1 e2 clean low high =
      lookup-first_match redis store usable port db f1 f2 q1 q2 mode e1 e2 low high
      ∙ ap (λ o. ok (to_match port o)) answer
    where
      all_read :
          All
            (IsRead (value_at redis store db port) (λ p f. table p port f))
            (candidates q1 mode store.num_buckets)
      all_read =
          All-map (IsReader redis store usable) _ (λ c r f. agrees c port f r)
            (candidates q1 mode store.num_buckets)
            (readers (bucket_for q1 store.num_buckets) (candidates q1 mode store.num_buckets)
              (bucket_for-IsBucket q1 store) (candidates-IsOf q1 mode store.num_buckets)
              (candidates-IsClean q1 mode store.num_buckets clean))

      answer :
          first_match
            (value_at redis store db port)
            (candidates q1 mode store.num_buckets)
            (field_candidates q2 mode)
          ≡ table_match table port q1 q2 mode
      answer =
          first_match-first_of_table (value_at redis store db port) (λ p f. table p port f)
            (candidates q1 mode store.num_buckets) (field_candidates q2 mode) all_read
          ∙ (unfold table_match in
              ap (λ as'. first_of_table (λ p f. table p port f) as' (field_candidates q2 mode))
                (sym (field_candidates-eq-map q1 mode store.num_buckets)))
