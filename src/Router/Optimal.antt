-- ===== src/Router/Optimal.antt =====
-- The reference scan finds the most specific admissible pair: so does `lookup` of
-- fqdnrules/fqdn_router.py.
use fun_with_dragonfly_db.Prelude.{
  ℕ, zero, suc, ◌≤◌, ◌<◌, ◌≡◌, refl, ap, sym, ◌∙◌, ◌⊎◌, inl, inr, Bool, true, false, ◌&&◌, ◌||◌,
  ◌==◌, Option, none, some, List, [], ◌∷◌, map, arith, Bool-cases, or_else, get_elem?, length,
  split, Text, ok,
}
use fun_with_dragonfly_db.Pattern.{
  dot, max_labels, MatchMode, Candidate, FieldCandidate, candidates, field_candidates,
  normalize_fqdn,
}
use fun_with_dragonfly_db.Pattern.Normalize.{normalize_fqdn-IsNormal}
use fun_with_dragonfly_db.Pattern.Ranks.{
  IncreasingFrom, ranks, to_field, candidates-IncreasingFrom, field_candidates-eq-map,
}
use fun_with_dragonfly_db.Redis.{Redis}
use fun_with_dragonfly_db.Router.{RuleStore, Best, Match, lookup, to_match}
use fun_with_dragonfly_db.Router.Keys.{IsUsable}
use fun_with_dragonfly_db.Router.Script.{is_blocked}
use fun_with_dragonfly_db.Router.Lookup.{lookup-first_match}
use fun_with_dragonfly_db.Router.Reference.{
  out_of_scope, admit, best_of, first_field, first_match, value_at,
}

abbrev field_ranks : List FieldCandidate → List ℕ
field_ranks = map (λ b. b.rank)

field_ranks-map : (cs : List Candidate) → field_ranks (map to_field cs) ≡ ranks cs
field_ranks-map [] = refl
field_ranks-map (c ∷ cs) = ap (◌∷◌ c.rank) (field_ranks-map cs)

field-above :
    (lo j : ℕ) (bs : List FieldCandidate) (b : FieldCandidate)
    → IncreasingFrom lo (field_ranks bs)
    → get_elem? bs j ≡ some b
    → lo ≤ b.rank
field-above lo j [] b h e = absurd (cc)
field-above lo zero (c ∷ bs) b (hc, hs) e = let same : c ≡ b = ground arith in rw (← same) hc
field-above lo (suc j) (c ∷ bs) b (hc, hs) e = omega (arith, field-above (suc c.rank) j bs b hs e)

candidate-above :
    (lo i : ℕ) (cs : List Candidate) (a : Candidate)
    → IncreasingFrom lo (ranks cs)
    → get_elem? cs i ≡ some a
    → lo ≤ a.rank
candidate-above lo i [] a h e = absurd (cc)
candidate-above lo zero (c ∷ cs) a (hc, hs) e = let same : c ≡ a = ground arith in rw (← same) hc
candidate-above lo (suc i) (c ∷ cs) a (hc, hs) e =
    omega (arith, candidate-above (suc c.rank) i cs a hs e)

-- What a value's scope character asks of a wildcard match: an `S` that no wildcard reaches deeper
-- than a label, an `M` that one does.
abbrev pub ScopeFits : Bool → Text → Type 0
ScopeFits deep [] = Unit
ScopeFits deep (c ∷ v) = (c ≡ b'S' → deep ≡ false) × (c ≡ b'M' → deep ≡ true)

-- The scope lets a value match under a pair: two literal names always.
abbrev pub IsInScope : Candidate → FieldCandidate → Text → Type 0
IsInScope a b v = ((a.rank ≡ 0) × (b.rank ≡ 0)) ⊎ ScopeFits (a.needs_multi || b.needs_multi) v

-- The script's test of a value under no exact pair.
fits_unblocked : (deep : Bool) (v : Text) → is_blocked false deep v ≡ false → ScopeFits deep v
unfolding is_blocked
fits_unblocked deep [] h = tt
fits_unblocked true (c ∷ v) h = (λ e. absurd (ground arith), λ e. refl)
fits_unblocked false (c ∷ v) h = (λ e. refl, λ e. absurd (ground arith))

blocked_unfit : (deep : Bool) (v : Text) → is_blocked false deep v ≡ true → ScopeFits deep v → ⊥
unfolding is_blocked
blocked_unfit true [] h f = absurd (cc)
blocked_unfit false [] h f = absurd (cc)
blocked_unfit true (c ∷ v) h (s, m) = ground arith
blocked_unfit false (c ∷ v) h (s, m) = ground arith

unblocked_matches :
    (a : Candidate) (b : FieldCandidate) (v : Text) → out_of_scope a b v ≡ false → IsInScope a b v
unblocked_matches a b v h = elim (Bool-cases (a.rank == 0 && b.rank == 0)) [
  | inl e ↦ inl (ground arith)
  | inr e ↦ inr (fits_unblocked (a.needs_multi || b.needs_multi) v (rw e at h))
]

blocked_misses :
    (a : Candidate) (b : FieldCandidate) (v : Text)
    → out_of_scope a b v ≡ true
    → IsInScope a b v
    → ⊥
unfolding is_blocked
blocked_misses a b v h (inl (e1, e2)) = let h' = rw (e1, e2) at h in (cc)
blocked_misses a b v h (inr f) = elim (Bool-cases (a.rank == 0 && b.rank == 0)) [
  | inl e ↦ let h' = rw e at h in (cc)
  | inr e ↦ blocked_unfit (a.needs_multi || b.needs_multi) v (rw e at h) f
]

module _ (read : Candidate → Text → Option Text) where
  -- The pair holds a value, and its scope lets it match.
  pub record IsAdmissible (a : Candidate) (b : FieldCandidate) (v : Text) : Type 0 where
    pub holds : read a b.pattern_text ≡ some v
    pub in_scope : IsInScope a b v

  admit-cases :
      (a : Candidate) (b : FieldCandidate)
      → ((admit a b (read a b.pattern_text) ≡ none) × ((v : Text) → IsAdmissible a b v → ⊥))
        ⊎ ((v : Text) × (admit a b (read a b.pattern_text) ≡ some (best_of a b v))
            × IsAdmissible a b v)
  admit-cases a b = go (read a b.pattern_text) refl
    where
      go :
          (o : Option Text)
          → read a b.pattern_text ≡ o
          → ((admit a b (read a b.pattern_text) ≡ none) × ((v : Text) → IsAdmissible a b v → ⊥))
            ⊎ ((v : Text) × (admit a b (read a b.pattern_text) ≡ some (best_of a b v))
                × IsAdmissible a b v)
      go none e = inl (ap (admit a b) e, λ v h. (cc h.holds))
      go (some v) e = elim (Bool-cases (out_of_scope a b v)) [
        | inl t ↦ inl (
          ap (admit a b) e ∙ rw t,
          λ w h.
              let same : v ≡ w = ground (arith, h.holds) in
              blocked_misses a b w (rw same at t) h.in_scope,
        )
        | inr t ↦
            inr (
              v,
              ap (admit a b) e ∙ rw t,
              record { holds = e; in_scope = unblocked_matches a b v t },
            )
      ]

  -- One candidate: the result is the admissible field of the least rank, and `none` only if there
  -- is none.
  abbrev FieldResult : Candidate → List FieldCandidate → Option Best → Type 0
  FieldResult a bs none =
      (j : ℕ) (b : FieldCandidate) (v : Text) → get_elem? bs j ≡ some b → IsAdmissible a b v → ⊥
  FieldResult a bs (some x) =
      (j : ℕ) × (b : FieldCandidate) × (v : Text) × (get_elem? bs j ≡ some b)
      × IsAdmissible a b v
      × (x ≡ best_of a b v)
      × ((j' : ℕ) (b' : FieldCandidate) (v' : Text)
          → get_elem? bs j' ≡ some b'
          → IsAdmissible a b' v'
          → b.rank ≤ b'.rank)

  skip_field :
      (a : Candidate) (b : FieldCandidate) (bs : List FieldCandidate) (o : Option Best)
      → ((v : Text) → IsAdmissible a b v → ⊥)
      → FieldResult a bs o
      → FieldResult a (b ∷ bs) o
  skip_field a b bs none h r = λ j b' v e adm. at j b' v e adm
    where
      at :
          (j : ℕ) (b' : FieldCandidate) (v : Text)
          → get_elem? (b ∷ bs) j ≡ some b'
          → IsAdmissible a b' v
          → ⊥
      at zero b' v e adm = let same : b ≡ b' = ground arith in h v (rw same adm)
      at (suc j) b' v e adm = r j b' v e adm
  skip_field a b bs (some x) h (j, c, v, e, adm, q, least) = (suc j, c, v, e, adm, q, at)
    where
      at :
          (j' : ℕ) (b' : FieldCandidate) (v' : Text)
          → get_elem? (b ∷ bs) j' ≡ some b'
          → IsAdmissible a b' v'
          → c.rank ≤ b'.rank
      at zero b' v' e' adm' = let same : b ≡ b' = ground arith in absurd (h v' (rw same adm'))
      at (suc j') b' v' e' adm' = least j' b' v' e' adm'

  first_field-FieldResult :
      (a : Candidate) (lo : ℕ) (bs : List FieldCandidate)
      → IncreasingFrom lo (field_ranks bs)
      → FieldResult a bs (first_field (read a) a bs)
  unfolding first_field
  first_field-FieldResult a lo [] h = λ j b v e adm. cc e
  first_field-FieldResult a lo (b ∷ bs) h = elim (admit-cases a b) [
    | inl (e, missing) ↦ rw e (
        skip_field a b bs (first_field (read a) a bs) missing
          (first_field-FieldResult a (suc b.rank) bs h.1))
    | inr (v, e, adm) ↦ rw e (
      0,
      b,
      v,
      refl,
      adm,
      refl,
      λ j' b' v' e' adm'. field-above b.rank j' (b ∷ bs) b' (omega arith, h.1) e',
    )
  ]

  -- The same over the candidates of `fqdn1`: the ranks compare as in `_is_better`.
  abbrev IsLess : Candidate → FieldCandidate → Candidate → FieldCandidate → Type 0
  IsLess a b a' b' = (a.rank < a'.rank) ⊎ ((a.rank ≡ a'.rank) × (b.rank ≤ b'.rank))

  abbrev MatchResult : List Candidate → List FieldCandidate → Option Best → Type 0
  MatchResult cs bs none =
      (i j : ℕ) (a : Candidate) (b : FieldCandidate) (v : Text)
      → get_elem? cs i ≡ some a
      → get_elem? bs j ≡ some b
      → IsAdmissible a b v
      → ⊥
  MatchResult cs bs (some x) =
      (i j : ℕ) × (a : Candidate) × (b : FieldCandidate) × (v : Text) × (get_elem? cs i ≡ some a)
      × (get_elem? bs j ≡ some b)
      × IsAdmissible a b v
      × (x ≡ best_of a b v)
      × ((i' j' : ℕ) (a' : Candidate) (b' : FieldCandidate) (v' : Text)
          → get_elem? cs i' ≡ some a'
          → get_elem? bs j' ≡ some b'
          → IsAdmissible a' b' v'
          → IsLess a b a' b')

  skip_candidate :
      (a : Candidate) (cs : List Candidate) (bs : List FieldCandidate) (o : Option Best)
      → FieldResult a bs none
      → MatchResult cs bs o
      → MatchResult (a ∷ cs) bs o
  skip_candidate a cs bs none h r = at
    where
      at :
          (i j : ℕ) (a' : Candidate) (b : FieldCandidate) (v : Text)
          → get_elem? (a ∷ cs) i ≡ some a'
          → get_elem? bs j ≡ some b
          → IsAdmissible a' b v
          → ⊥
      at zero j a' b v e f adm = let same : a ≡ a' = ground arith in h j b v f (rw same adm)
      at (suc i) j a' b v e f adm = r i j a' b v e f adm
  skip_candidate a cs bs (some x) h (i, j, c, d, v, e, f, adm, q, least) =
      (suc i, j, c, d, v, e, f, adm, q, at)
    where
      at :
          (i' j' : ℕ) (a' : Candidate) (b' : FieldCandidate) (v' : Text)
          → get_elem? (a ∷ cs) i' ≡ some a'
          → get_elem? bs j' ≡ some b'
          → IsAdmissible a' b' v'
          → IsLess c d a' b'
      at zero j' a' b' v' e' f' adm' =
          let same : a ≡ a' = ground arith in absurd (h j' b' v' f' (rw same adm'))
      at (suc i') j' a' b' v' e' f' adm' = least i' j' a' b' v' e' f' adm'

  take_candidate :
      (a : Candidate) (cs : List Candidate) (bs : List FieldCandidate) (x : Best)
      → IncreasingFrom (suc a.rank) (ranks cs)
      → FieldResult a bs (some x)
      → MatchResult (a ∷ cs) bs (some x)
  take_candidate a cs bs x up (j, b, v, f, adm, q, least) = (0, j, a, b, v, refl, f, adm, q, at)
    where
      at :
          (i' j' : ℕ) (a' : Candidate) (b' : FieldCandidate) (v' : Text)
          → get_elem? (a ∷ cs) i' ≡ some a'
          → get_elem? bs j' ≡ some b'
          → IsAdmissible a' b' v'
          → IsLess a b a' b'
      at zero j' a' b' v' e' f' adm' =
          let same : a ≡ a' = ground arith in
          inr (ap (λ c. c.rank) same, least j' b' v' f' (rw same adm'))
      at (suc i') j' a' b' v' e' f' adm' = inl (candidate-above (suc a.rank) i' cs a' up e')

  add_candidate :
      (a : Candidate) (cs : List Candidate) (bs : List FieldCandidate) (o p : Option Best)
      → IncreasingFrom (suc a.rank) (ranks cs)
      → FieldResult a bs o
      → MatchResult cs bs p
      → MatchResult (a ∷ cs) bs (or_else o p)
  add_candidate a cs bs none p up r rs = skip_candidate a cs bs p r rs
  add_candidate a cs bs (some x) p up r rs = take_candidate a cs bs x up r

  first_match-MatchResult :
      (lo lo' : ℕ) (cs : List Candidate) (bs : List FieldCandidate)
      → IncreasingFrom lo (ranks cs)
      → IncreasingFrom lo' (field_ranks bs)
      → MatchResult cs bs (first_match read cs bs)
  unfolding first_match
  first_match-MatchResult lo lo' [] bs h h' = λ i j a b v e f adm. (cc e)
  first_match-MatchResult lo lo' (a ∷ cs) bs (h, hs) h' =
      add_candidate a cs bs (first_field (read a) a bs) (first_match read cs bs) hs
        (first_field-FieldResult a lo' bs h') (first_match-MatchResult (suc a.rank) lo' cs bs hs h')

  -- An admissible pair makes a result, one that no admissible pair precedes.
  least_result :
      (cs : List Candidate) (bs : List FieldCandidate) (o : Option Best)
      → MatchResult cs bs o
      → (i j : ℕ) (a : Candidate) (b : FieldCandidate) (v : Text) → get_elem? cs i ≡ some a
      → get_elem? bs j ≡ some b
      → IsAdmissible a b v
      → (x : Best) × (o ≡ some x) × ((x.rank1 < a.rank) ⊎ ((x.rank1 ≡ a.rank) × (x.rank2 ≤ b.rank)))
  least_result cs bs none r i j a b v e f adm = absurd (r i j a b v e f adm)
  least_result cs bs (some x) (i', j', c, d, w, _, _, _, q, least) i j a b v e f adm =
      (x, refl, rw q (least i j a b v e f adm))

field_candidates-IncreasingFrom :
    (fqdn : Text) (mode : MatchMode)
    → length (split dot fqdn) ≤ max_labels
    → IncreasingFrom 0 (field_ranks (field_candidates fqdn mode))
field_candidates-IncreasingFrom fqdn mode few =
    rw (field_candidates-eq-map fqdn mode 1, field_ranks-map (candidates fqdn mode 1))
      (candidates-IncreasingFrom fqdn mode 1 few)

module _ (redis : Redis) (store : RuleStore) (usable : IsUsable store) (port : ℕ)
    (db : redis.Db) where
  lookup_result :
      (f1 f2 q1 q2 : Text) (mode : MatchMode)
      → normalize_fqdn f1 ≡ ok q1
      → normalize_fqdn f2 ≡ ok q2
      → MatchResult
          (value_at redis store db port)
          (candidates q1 mode store.num_buckets)
          (field_candidates q2 mode)
          (first_match
            (value_at redis store db port)
            (candidates q1 mode store.num_buckets)
            (field_candidates q2 mode))
  lookup_result f1 f2 q1 q2 mode e1 e2 =
      let n1 = normalize_fqdn-IsNormal f1 q1 e1 in
      let n2 = normalize_fqdn-IsNormal f2 q2 e2 in
      first_match-MatchResult (value_at redis store db port) 0 0
        (candidates q1 mode store.num_buckets) (field_candidates q2 mode)
        (candidates-IncreasingFrom q1 mode store.num_buckets n1.few)
        (field_candidates-IncreasingFrom q2 mode n2.few)

  -- For a store whose bucket count is at most 1 or has a token table, names that normalize, and a
  -- port from 1 to 65535: if a pair of the query's candidates holds a value, and both of its ranks
  -- are 0 or the value's scope character fits (`S` only where neither candidate needs the
  -- multi-level mode, `M` only where one does), then `lookup` returns a match, and the match's
  -- specificity is at or before the pair's in the lexicographic order.
  pub lookup_best :
      (f1 f2 q1 q2 : Text) (mode : MatchMode) (i j : ℕ) (a : Candidate) (b : FieldCandidate)
      (v : Text)
      → normalize_fqdn f1 ≡ ok q1
      → normalize_fqdn f2 ≡ ok q2
      → 0 < port
      → port < 65536
      → get_elem? (candidates q1 mode store.num_buckets) i ≡ some a
      → get_elem? (field_candidates q2 mode) j ≡ some b
      → IsAdmissible (value_at redis store db port) a b v
      → (x : Best) × (lookup redis store f1 port f2 mode db ≡ ok (to_match port (some x)))
        × ((x.rank1 < a.rank) ⊎ ((x.rank1 ≡ a.rank) × (x.rank2 ≤ b.rank)))
  lookup_best f1 f2 q1 q2 mode i j a b v e1 e2 low high at1 at2 adm =
      let (x, found, least) =
        least_result (value_at redis store db port) (candidates q1 mode store.num_buckets)
          (field_candidates q2 mode) _ (lookup_result f1 f2 q1 q2 mode e1 e2) i j a b v at1 at2
          adm in
      (
        x,
        lookup-first_match redis store usable port db f1 f2 q1 q2 mode e1 e2 low high
            ∙ ap (λ o. ok (to_match port o)) found,
        least,
      )

  -- For a store whose bucket count is at most 1 or has a token table, names that normalize, and a
  -- port from 1 to 65535: a match that `lookup` returns comes from the store. It is the value of
  -- one pair of the query's candidates, of which both ranks are 0 or the value's scope character
  -- fits: `S` only where neither candidate needs the multi-level mode, `M` only where one does.
  pub lookup-IsAdmissible :
      (f1 f2 q1 q2 : Text) (mode : MatchMode) (m : Match)
      → normalize_fqdn f1 ≡ ok q1
      → normalize_fqdn f2 ≡ ok q2
      → 0 < port
      → port < 65536
      → lookup redis store f1 port f2 mode db ≡ ok (some m)
      → (i j : ℕ) × (a : Candidate) × (b : FieldCandidate) × (v : Text) × (get_elem?
            (candidates q1 mode store.num_buckets)
            i
          ≡ some a)
        × (get_elem? (field_candidates q2 mode) j ≡ some b)
        × IsAdmissible (value_at redis store db port) a b v
        × (some m ≡ to_match port (some (best_of a b v)))
  lookup-IsAdmissible f1 f2 q1 q2 mode m e1 e2 low high found =
      go
        (first_match (value_at redis store db port) (candidates q1 mode store.num_buckets)
          (field_candidates q2 mode))
        (lookup_result f1 f2 q1 q2 mode e1 e2)
        (sym (lookup-first_match redis store usable port db f1 f2 q1 q2 mode e1 e2 low high)
          ∙ found)
    where
      go :
          (o : Option Best)
          → MatchResult
              (value_at redis store db port)
              (candidates q1 mode store.num_buckets)
              (field_candidates q2 mode)
              o
          → ok (to_match port o) ≡ ok (some m)
          → (i j : ℕ) × (a : Candidate) × (b : FieldCandidate) × (v : Text) × (get_elem?
                (candidates q1 mode store.num_buckets)
                i
              ≡ some a)
            × (get_elem? (field_candidates q2 mode) j ≡ some b)
            × IsAdmissible (value_at redis store db port) a b v
            × (some m ≡ to_match port (some (best_of a b v)))
      go none r e = let q : none ≡ some m = cc e in absurd (cc)
      go (some x) (i, j, a, b, v, at1, at2, adm, q, least) e =
          let e' : to_match port (some x) ≡ some m = cc e in
          (i, j, a, b, v, at1, at2, adm, sym e' ∙ ap (λ y. to_match port (some y)) q)
