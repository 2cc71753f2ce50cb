-- ===== src/Router/Groups.antt =====
-- Grouping by hash tag in fqdnrules/fqdn_router.py: the minimum over the groups' first hits is the
-- first hit of all the candidates in order.
use fun_with_dragonfly_db.Prelude.{
  ℕ, suc, ◌≤◌, ◌<◌, ◌≡◌, refl, ap, sym, ◌∙◌, inl, inr, Option, none, some, List, [], ◌∷◌, ◌++◌,
  arith, Bool-cases, or_else, All, All-append, All-map, Text, text_eq, ok, bind-eq-ok,
}
use fun_with_dragonfly_db.Pattern.{Candidate, FieldCandidate}
use fun_with_dragonfly_db.Pattern.Ranks.{IncreasingFrom, ranks}
use fun_with_dragonfly_db.Router.{
  Best, Group, keep_better, add_to_group, group_all, pick_best, read_hit,
}
use fun_with_dragonfly_db.Router.Script.{Reply}
use fun_with_dragonfly_db.Router.Scan.{resolve}
use fun_with_dragonfly_db.Router.Reference.{out_of_scope, admit, first_field, first_match}

abbrev keep : Option Best → Option Best → Option Best
keep acc none = acc
keep acc (some x) = some (keep_better acc x)

-- A best match with a first rank below `r`, or of rank `r`.
abbrev Below : ℕ → Option Best → Type 0
Below r none = Unit
Below r (some x) = x.rank1 < r

abbrev OfRank : ℕ → Option Best → Type 0
OfRank r none = Unit
OfRank r (some x) = x.rank1 ≡ r

or_else_assoc {ℓ} :
    {A : Type ℓ} (x y z : Option A) → or_else (or_else x y) z ≡ or_else x (or_else y z)
or_else_assoc none y z = refl
or_else_assoc (some x) y z = refl

or_else-none {ℓ} : {A : Type ℓ} (x : Option A) → or_else x none ≡ x
or_else-none none = refl
or_else-none (some x) = refl

keep-Below : (r : ℕ) (acc f : Option Best) → Below r acc → Below r f → Below r (keep acc f)
keep-Below r acc none ha hf = ha
keep-Below r none (some x) ha hf = hf
keep-Below r (some a) (some x) ha hf = ground arith

-- A hit of a later rank changes nothing that is there.
keep-later : (r : ℕ) (acc h : Option Best) → Below r acc → OfRank r h → keep acc h ≡ or_else acc h
keep-later r none none ha hh = refl
keep-later r (some a) none ha hh = refl
keep-later r none (some x) ha hh = refl
keep-later r (some a) (some x) ha hh = ground arith

keep-or_else :
    (r : ℕ) (acc f h : Option Best)
    → Below r acc
    → Below r f
    → OfRank r h
    → keep (or_else acc h) f ≡ or_else (keep acc f) h
keep-or_else r (some a) none h ha hf hh = refl
keep-or_else r (some a) (some y) h ha hf hh = refl
keep-or_else r none none h ha hf hh = refl
keep-or_else r none (some y) none ha hf hh = refl
keep-or_else r none (some y) (some x) ha hf hh = ground arith

keep-snoc :
    (r : ℕ) (acc f h : Option Best)
    → Below r acc
    → OfRank r h
    → keep acc (or_else f h) ≡ or_else (keep acc f) h
keep-snoc r acc (some y) h ha hh = refl
keep-snoc r acc none h ha hh = keep-later r acc h ha hh

admit-OfRank : (a : Candidate) (b : FieldCandidate) (o : Option Text) → OfRank a.rank (admit a b o)
admit-OfRank a b none = tt
admit-OfRank a b (some v) = elim (Bool-cases (out_of_scope a b v)) [
  | inl t ↦ rw t tt
  | inr t ↦ rw t refl
]

or_else-OfRank : (r : ℕ) (x y : Option Best) → OfRank r x → OfRank r y → OfRank r (or_else x y)
or_else-OfRank r none y hx hy = hy
or_else-OfRank r (some b) y hx hy = hx

or_else-Below : (r : ℕ) (x y : Option Best) → Below r x → Below r y → Below r (or_else x y)
or_else-Below r none y hx hy = hy
or_else-Below r (some b) y hx hy = hx

OfRank-Below : (q r : ℕ) (x : Option Best) → q < r → OfRank q x → Below r x
OfRank-Below q r none l h = tt
OfRank-Below q r (some b) l h = omega arith

abbrev RanksBelow : ℕ → List Candidate → Type 0
RanksBelow r = All (λ c. c.rank < r)

abbrev GroupsBelow : ℕ → List Group → Type 0
GroupsBelow r = All (λ g. RanksBelow r g.members)

add_to_group-Below :
    (lo : ℕ) (gs : List Group) (c : Candidate)
    → lo ≤ c.rank
    → GroupsBelow lo gs
    → GroupsBelow (suc c.rank) (add_to_group gs c)
unfolding add_to_group
add_to_group-Below lo [] c l h = ((omega arith, tt), tt)
add_to_group-Below lo (g ∷ gs) c l (hg, hgs) = elim (Bool-cases (text_eq g.tag c.tag)) [
  | inl t ↦ rw t (
    All-append (λ d. d.rank < suc c.rank) g.members (c ∷ []) raised (omega arith, tt),
    All-map (λ d. RanksBelow lo d.members) (λ d. RanksBelow (suc c.rank) d.members) raise gs hgs,
  )
  | inr t ↦ rw t (raised, add_to_group-Below lo gs c l hgs)
]
  where
    raise : (d : Group) → RanksBelow lo d.members → RanksBelow (suc c.rank) d.members
    raise d k =
        All-map (λ e. e.rank < lo) (λ e. e.rank < suc c.rank) (λ e q. omega arith) d.members k

    raised : RanksBelow (suc c.rank) g.members
    raised = raise g hg

module _ (read : Candidate → Text → Option Text) (bs : List FieldCandidate) where
  first_field-OfRank :
      (a : Candidate) (cs : List FieldCandidate) → OfRank a.rank (first_field (read a) a cs)
  unfolding first_field
  first_field-OfRank a [] = tt
  first_field-OfRank a (b ∷ cs) =
      or_else-OfRank a.rank (admit a b (read a b.pattern_text)) (first_field (read a) a cs)
        (admit-OfRank a b (read a b.pattern_text)) (first_field-OfRank a cs)

  first_match-Below :
      (r : ℕ) (cs : List Candidate) → RanksBelow r cs → Below r (first_match read cs bs)
  unfolding first_match
  first_match-Below r [] h = tt
  first_match-Below r (c ∷ cs) (hc, hcs) =
      or_else-Below r (first_field (read c) c bs) (first_match read cs bs)
        (OfRank-Below c.rank r _ hc (first_field-OfRank c bs)) (first_match-Below r cs hcs)

  first_match-one : (c : Candidate) → first_match read (c ∷ []) bs ≡ first_field (read c) c bs
  unfolding first_match
  first_match-one c = or_else-none (first_field (read c) c bs)

  first_match-snoc :
      (cs : List Candidate) (c : Candidate)
      → first_match read (cs ++ (c ∷ [])) bs
        ≡ or_else (first_match read cs bs) (first_field (read c) c bs)
  unfolding first_match
  first_match-snoc [] c = or_else-none (first_field (read c) c bs)
  first_match-snoc (d ∷ cs) c =
      ap (or_else (first_field (read d) d bs)) (first_match-snoc cs c)
      ∙ sym (
          or_else_assoc (first_field (read d) d bs) (first_match read cs bs)
            (first_field (read c) c bs))

  -- The best of the groups' first matches, from `acc` on.
  pub best_of_groups : List Group → Option Best → Option Best
  best_of_groups [] acc = acc
  best_of_groups (g ∷ gs) acc = best_of_groups gs (keep acc (first_match read g.members bs))

  best_of_groups-later :
      (r : ℕ) (gs : List Group) (acc h : Option Best)
      → GroupsBelow r gs
      → Below r acc
      → OfRank r h
      → best_of_groups gs (or_else acc h) ≡ or_else (best_of_groups gs acc) h
  unfolding best_of_groups
  best_of_groups-later r [] acc h hg ha hh = refl
  best_of_groups-later r (g ∷ gs) acc h (hg, hgs) ha hh =
      let f = first_match read g.members bs in
      let hf = first_match-Below r g.members hg in
      ap (best_of_groups gs) (keep-or_else r acc f h ha hf hh)
      ∙ best_of_groups-later r gs (keep acc f) h hgs (keep-Below r acc f ha hf) hh

  best_of_groups-add :
      (gs : List Group) (c : Candidate) (acc : Option Best)
      → GroupsBelow c.rank gs
      → Below c.rank acc
      → best_of_groups (add_to_group gs c) acc
        ≡ or_else (best_of_groups gs acc) (first_field (read c) c bs)
  unfolding best_of_groups add_to_group
  best_of_groups-add [] c acc hg ha =
      ap (keep acc) (first_match-one c)
      ∙ keep-later c.rank acc (first_field (read c) c bs) ha (first_field-OfRank c bs)
  best_of_groups-add (g ∷ gs) c acc (hg, hgs) ha =
      let f = first_match read g.members bs in
      let h = first_field (read c) c bs in
      let hf = first_match-Below c.rank g.members hg in
      elim (Bool-cases (text_eq g.tag c.tag)) [
        | inl t ↦ rw t (
            ap (λ x. best_of_groups gs (keep acc x)) (first_match-snoc g.members c)
            ∙ ap (best_of_groups gs) (keep-snoc c.rank acc f h ha (first_field-OfRank c bs))
            ∙ best_of_groups-later c.rank gs (keep acc f) h hgs (keep-Below c.rank acc f ha hf)
                (first_field-OfRank c bs))
        | inr t ↦ rw t (best_of_groups-add gs c (keep acc f) hgs (keep-Below c.rank acc f ha hf))
      ]

  best_of_groups-all :
      (lo : ℕ) (cs : List Candidate) (gs : List Group)
      → IncreasingFrom lo (ranks cs)
      → GroupsBelow lo gs
      → best_of_groups (group_all gs cs) none
        ≡ or_else (best_of_groups gs none) (first_match read cs bs)
  unfolding group_all first_match
  best_of_groups-all lo [] gs hc hg = sym (or_else-none (best_of_groups gs none))
  best_of_groups-all lo (c ∷ cs) gs (hc, hcs) hg =
      best_of_groups-all (suc c.rank) cs (add_to_group gs c) hcs (add_to_group-Below lo gs c hc hg)
      ∙ ap (λ x. or_else x (first_match read cs bs))
          (best_of_groups-add gs c none
            (All-map (λ g. RanksBelow lo g.members) (λ g. RanksBelow c.rank g.members) raise gs hg)
            tt)
      ∙ or_else_assoc (best_of_groups gs none) (first_field (read c) c bs) (first_match read cs bs)
    where
      raise : (g : Group) → RanksBelow lo g.members → RanksBelow c.rank g.members
      raise g h = All-map (λ e. e.rank < lo) (λ e. e.rank < c.rank) (λ e q. omega arith) g.members h

  -- Over candidates of increasing rank, the best of the groups is the first match of the list.
  pub best_of_groups-first_match :
      (lo : ℕ) (cs : List Candidate)
      → IncreasingFrom lo (ranks cs)
      → best_of_groups (group_all [] cs) none ≡ first_match read cs bs
  best_of_groups-first_match lo cs h =
      best_of_groups-all lo cs [] h tt ∙ (unfold best_of_groups in refl)

  -- Replies that resolve to the groups' first matches.
  abbrev pub Answers : List Group → List Reply → Type 0
  Answers [] [] = Unit
  Answers [] (raw ∷ raws) = ⊥
  Answers (g ∷ gs) [] = ⊥
  Answers (g ∷ gs) (raw ∷ raws) =
      (resolve g.members bs raw ≡ ok (first_match read g.members bs)) × Answers gs raws

  pub pick_best-best_of_groups :
      (gs : List Group) (raws : List Reply) (acc : Option Best)
      → Answers gs raws
      → pick_best bs gs raws acc ≡ ok (best_of_groups gs acc)
  unfolding pick_best best_of_groups
  pick_best-best_of_groups [] [] acc h = refl
  pick_best-best_of_groups [] (raw ∷ raws) acc h = absurd h
  pick_best-best_of_groups (g ∷ gs) [] acc h = absurd h
  pick_best-best_of_groups (g ∷ gs) (none ∷ raws) acc (e, hs) =
      let q : none ≡ first_match read g.members bs = ground arith in
      rw (← q) (pick_best-best_of_groups gs raws acc hs)
  pick_best-best_of_groups (g ∷ gs) (some hit ∷ raws) acc (e, hs) =
      let (x, found, last) = bind-eq-ok (read_hit g.members bs hit) (λ x. ok (some x)) e in
      let q : some x ≡ first_match read g.members bs = ground arith in
      rw (← q, found) (pick_best-best_of_groups gs raws (some (keep_better acc x)) hs)
