-- ===== src/Router/Scan.antt =====
-- The lookup script of fqdnrules/fqdn_router.py, run on one group and read back through its indices,
-- against the reference scan.
use fun_with_dragonfly_db.Prelude.{
  ℕ, zero, suc, ◌-◌, ◌≡◌, refl, ap, ◌∙◌, inl, inr, Bool, Option, none, some, List, [], ◌∷◌, map,
  arith, ◌==◌, Bool-cases, or_else, get_elem?-drop, drop, drop-suc, Text, Result, ok, ◌>>=◌,
}
use fun_with_dragonfly_db.Pattern.{Candidate, FieldCandidate}
use fun_with_dragonfly_db.Router.{Best, read_hit, at_index, flags}
use fun_with_dragonfly_db.Router.Bits.{bits-flags}
use fun_with_dragonfly_db.Router.Script.{Reply, bit_at, scan_vals, scan_keys, lua_lookup}
use fun_with_dragonfly_db.Router.Reference.{out_of_scope, best_of, first_field, first_match}

drop-map {ℓ κ} :
    {A : Type ℓ} {B : Type κ} (f : A → B) (n : ℕ) (xs : List A)
    → drop n (map f xs) ≡ map f (drop n xs)
drop-map f zero xs = refl
drop-map f (suc n) [] = refl
drop-map f (suc n) (x ∷ xs) = drop-map f n xs

-- The bit of the item that stands at 0-based `n`.
bit_at-map {ℓ} :
    {A : Type ℓ} (f : A → Bool) (n : ℕ) (xs : List A) (x : A) (r : List A)
    → drop n xs ≡ x ∷ r
    → bit_at (map f xs) (suc n) ≡ f x
bit_at-map f n xs x r h =
    let e : suc n - 1 ≡ n = omega arith in
    rw (e, get_elem?-drop n (map f xs) (f x) (map f r) (drop-map f n xs ∙ ap (map f) h))

at_index-suc {ℓ} :
    {A : Type ℓ} (n : ℕ) (xs : List A) (x : A) (r : List A)
    → drop n xs ≡ x ∷ r
    → at_index xs (suc n - 1) ≡ ok x
at_index-suc n xs x r h = let e : suc n - 1 ≡ n = omega arith in rw (e, get_elem?-drop n xs x r h)

-- Only the first field candidate is an exact one.
abbrev pub ExactFrom : ℕ → List FieldCandidate → Type 0
ExactFrom j [] = Unit
ExactFrom j (b ∷ bs) = ((suc j == 1) ≡ (b.rank == 0)) × ExactFrom (suc j) bs

-- What Python makes of a reply.
abbrev pub resolve : List Candidate → List FieldCandidate → Reply → Result (Option Best)
resolve group bs none = ok none
resolve group bs (some hit) = do x ← read_hit group bs hit; ok (some x)

resolve-or_else :
    (group : List Candidate) (bs : List FieldCandidate) (x y : Reply) (u w : Option Best)
    → resolve group bs x ≡ ok u
    → resolve group bs y ≡ ok w
    → resolve group bs (or_else x y) ≡ ok (or_else u w)
resolve-or_else group bs none y none w hx hy = hy
resolve-or_else group bs none y (some u) w hx hy = absurd (ground arith)
resolve-or_else group bs (some x) y (some u) w hx hy = hx
resolve-or_else group bs (some x) y none w hx hy = absurd (ground arith)

-- Keys that hold what the candidates read.
abbrev pub Reads :
    (Text → List Text → List (Option Text))
    → (Candidate → Text → Option Text)
    → List Candidate
    → List Text
    → Type 0
Reads hmget read [] [] = Unit
Reads hmget read [] (k ∷ ks) = ⊥
Reads hmget read (c ∷ cs) [] = ⊥
Reads hmget read (c ∷ cs) (k ∷ ks) =
    ((fs : List Text) → hmget k fs ≡ map (read c) fs) × Reads hmget read cs ks

module _ (group : List Candidate) (bs : List FieldCandidate) where
  module _ (i : ℕ) (a : Candidate) (later : List Candidate) (here : drop i group ≡ a ∷ later) where
    hit_lem :
        (j : ℕ) (b : FieldCandidate) (rest : List FieldCandidate) (v : Text)
        → drop j bs ≡ b ∷ rest
        → resolve group bs
            (some (record { key_index = suc i; field_index = suc j; rule_id = drop 1 v }))
          ≡ ok (some (best_of a b v))
    unfolding read_hit
    hit_lem j b rest v h = rw (at_index-suc i group a later here, at_index-suc j bs b rest h)

    abbrev bits_of : List Bool
    bits_of = map (λ b. b.needs_multi) bs

    abbrev scan : (Text → Option Text) → ℕ → List FieldCandidate → Reply
    scan read j cs =
        scan_vals (a.rank == 0) a.needs_multi bits_of (suc i) (suc j)
          (map read (map (λ b. b.pattern_text) cs))

    value_lem :
        (read : Text → Option Text) (j : ℕ) (b : FieldCandidate) (rest : List FieldCandidate)
        → drop j bs ≡ b ∷ rest
        → (suc j == 1) ≡ (b.rank == 0)
        → resolve group bs (scan read (suc j) rest) ≡ ok (first_field read a rest)
        → (o : Option Text) → read b.pattern_text ≡ o
        → resolve group bs (scan read j (b ∷ rest)) ≡ ok (first_field read a (b ∷ rest))
    unfolding scan_vals first_field
    value_lem read j b rest h x ih none e = rw (e, scan_vals, first_field) ih
    value_lem read j b rest h x ih (some v) e =
        rw (e, scan_vals, first_field, bit_at-map (λ b. b.needs_multi) j bs b rest h, x)
          (elim (Bool-cases (out_of_scope a b v)) [
            | inl t ↦ rw t ih
            | inr t ↦ rw t (hit_lem j b rest v h)
          ])

    -- The inner loop finds the first admissible field.
    scan-first_field :
        (read : Text → Option Text) (j : ℕ) (cs : List FieldCandidate)
        → drop j bs ≡ cs
        → ExactFrom j cs
        → resolve group bs (scan read j cs) ≡ ok (first_field read a cs)
    scan-first_field read j [] h x = unfold scan_vals first_field in refl
    scan-first_field read j (b ∷ cs) h (x, xs) =
        value_lem read j b cs h x (scan-first_field read (suc j) cs (drop-suc j bs b cs h) xs)
          (read b.pattern_text) refl

  module _ (hmget : Text → List Text → List (Option Text)) (read : Candidate → Text → Option Text)
      (exact : ExactFrom 0 bs) where
    -- The outer loop finds the first candidate with an admissible field.
    scan-first_match :
        (i : ℕ) (cs : List Candidate) (ks : List Text)
        → drop i group ≡ cs
        → Reads hmget read cs ks
        → resolve group bs (
            scan_keys hmget
              (map (λ c. c.rank == 0) group)
              (map (λ c. c.needs_multi) group)
              (map (λ b. b.needs_multi) bs)
              (map (λ b. b.pattern_text) bs)
              (suc i)
              ks)
          ≡ ok (first_match read cs bs)
    unfolding scan_keys first_match
    scan-first_match i [] [] h r = refl
    scan-first_match i [] (k ∷ ks) h r = absurd r
    scan-first_match i (c ∷ cs) [] h r = absurd r
    scan-first_match i (c ∷ cs) (k ∷ ks) h (r, rs) =
        resolve-or_else group bs _ _ (first_field (read c) c bs) (first_match read cs bs)
          (rw
            (
              bit_at-map (λ c. c.rank == 0) i group c cs h,
              bit_at-map (λ c. c.needs_multi) i group c cs h,
              r (map (λ b. b.pattern_text) bs),
            )
            (scan-first_field i c cs h (read c) 0 bs refl exact))
          (scan-first_match (suc i) cs ks (drop-suc i group c cs h) rs)

    -- The script, called as `lookup` calls it, answers with indices that Python turns into the
    -- first match of the group: no index is out of range.
    pub script-first_match :
        (ks : List Text)
        → Reads hmget read group ks
        → (raw : Reply) × (lua_lookup hmget ks (
              flags (map (λ c. c.needs_multi) group)
              ∷ flags (map (λ c. c.rank == 0) group)
              ∷ flags (map (λ b. b.needs_multi) bs)
              ∷ map (λ b. b.pattern_text) bs)
            ≡ ok raw)
          × (resolve group bs raw ≡ ok (first_match read group bs))
    unfolding lua_lookup
    script-first_match ks r = (
      scan_keys hmget (map (λ c. c.rank == 0) group) (map (λ c. c.needs_multi) group)
          (map (λ b. b.needs_multi) bs) (map (λ b. b.pattern_text) bs) 1 ks,
      rw (
        bits-flags (map (λ c. c.needs_multi) group),
        bits-flags (map (λ c. c.rank == 0) group),
        bits-flags (map (λ b. b.needs_multi) bs),
      ),
      scan-first_match 0 group ks refl r,
    )
