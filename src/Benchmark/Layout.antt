-- ===== src/Benchmark/Layout.antt =====
-- The layout of fqdnrules/benchmark.py: every rule has its place in one key.
use fun_with_dragonfly_db.Prelude.{
  ℕ, zero, suc, ◌+◌, ◌-◌, ◌≤◌, ◌<◌, ◌≡◌, refl, inl, inr, some, List, [], ◌∷◌, arith, ltb, lt→ltb,
  ltb→lt, ltb-false→le, le→ltb-false, Bool-cases, if◌then◌else◌, get_elem?, take, map, All,
}
use fun_with_dragonfly_db.Slots.{bisect_right}
use fun_with_dragonfly_db.Benchmark.{
  DepthTier, Random, min, key_sizes_loop, build_key_sizes, accumulate, rule_layout, or_zero,
  key_for_rule,
}

unfoldable pub sum : List ℕ → ℕ
sum [] = 0
sum (x ∷ xs) = x + sum xs

-- The key and the place in it, counted from a running total on.
abbrev place_from : ℕ → List ℕ → ℕ → ℕ × ℕ
place_from total sizes i =
    let key_id = bisect_right (accumulate total sizes) i in
    (
      key_id,
      i
          - (if ltb 0 key_id
              then or_zero (get_elem? (accumulate total sizes) (key_id - 1))
              else total),
    )

-- A rule's place is right: the key is one of the layout's, the position is below its size, and
-- the sizes before it and the position add up to the index.
pub record IsPlace (sizes : List ℕ) (i key_id pos : ℕ) : Type 0 where
  pub size : ℕ
  pub in_layout : get_elem? sizes key_id ≡ some size
  pub in_key : pos < size
  pub adds_up : sum (take key_id sizes) + pos ≡ i

record IsPlaceFrom (total : ℕ) (sizes : List ℕ) (i key_id pos : ℕ) : Type 0 where
  size : ℕ
  in_layout : get_elem? sizes key_id ≡ some size
  in_key : pos < size
  adds_up : total + sum (take key_id sizes) + pos ≡ i

-- The offset of a key behind the first one does not see the first one.
offset_suc :
    (total x : ℕ) (xs : List ℕ) (r : ℕ)
    → (if ltb 0 (suc r)
        then or_zero (get_elem? ((total + x) ∷ accumulate (total + x) xs) (suc r - 1))
        else total)
      ≡ (if ltb 0 r then or_zero (get_elem? (accumulate (total + x) xs) (r - 1)) else total + x)
offset_suc total x xs zero = refl
offset_suc total x xs (suc r) =
    let q : suc (suc r) - 1 ≡ suc (suc r - 1) = omega arith in
    rw (lt→ltb 0 (suc (suc r)) (omega arith), lt→ltb 0 (suc r) (omega arith), q) refl

place_from-IsPlaceFrom :
    (total : ℕ) (sizes : List ℕ) (i : ℕ)
    → total ≤ i
    → i < total + sum sizes
    → IsPlaceFrom total sizes i (place_from total sizes i).0 (place_from total sizes i).1
unfolding sum accumulate bisect_right
place_from-IsPlaceFrom total [] i low high = absurd (omega arith)
place_from-IsPlaceFrom total (x ∷ xs) i low high = elim (Bool-cases (ltb i (total + x))) [
  | inl e ↦
      rw e (record { size = x; in_layout = refl; in_key = ground arith; adds_up = omega arith })
  | inr e ↦
      let rest =
        place_from-IsPlaceFrom (total + x) xs i (ltb-false→le i (total + x) e) (omega arith) in
      let r = bisect_right (accumulate (total + x) xs) i in
      rw e (record {
        size = rest.size;
        in_layout = rest.in_layout;
        in_key = rw (offset_suc total x xs r) rest.in_key;
        adds_up = rw (offset_suc total x xs r) (let a = rest.adds_up in omega arith);
      })
]

-- Every rule index below the sum of the sizes has a place: a key of the layout, and a position
-- below that key's size, such that the sizes of the keys before and the position make the index.
pub key_for_rule-IsPlace :
    (sizes : List ℕ) (i : ℕ)
    → i < sum sizes
    → IsPlace sizes i (key_for_rule (rule_layout sizes) i).0 (key_for_rule (rule_layout sizes) i).1
unfolding key_for_rule rule_layout
key_for_rule-IsPlace sizes i h =
    let r = place_from-IsPlaceFrom 0 sizes i (omega arith) (omega arith) in
    record {
      size = r.size;
      in_layout = r.in_layout;
      in_key = r.in_key;
      adds_up = let a = r.adds_up in omega arith;
    }

-- What `parse_depth_tiers` checks of every tier: `1 <= lo <= hi`.
abbrev pub AreRanges : {Weight : Type 0} → List (DepthTier Weight) → Type 0
AreRanges tiers = All (λ tier. (1 ≤ tier.min_size) × (tier.min_size ≤ tier.max_size)) tiers

All-get_elem? :
    {A : Type 0} (P : A → Type 0) (xs : List A) (i : ℕ) (x : A)
    → All P xs
    → get_elem? xs i ≡ some x
    → P x
All-get_elem? P [] i x h e = absurd (cc)
All-get_elem? P (y ∷ xs) zero x (h, hs) e = let same : y ≡ x = ground arith in rw (← same) h
All-get_elem? P (y ∷ xs) (suc i) x (h, hs) e = All-get_elem? P xs i x hs e

module _ {Weight : Type 0} (random : Random Weight) where
  -- The documented behaviour of the generator: a choice by the tiers' weights is one of the tiers,
  -- and a number lies between its bounds.
  pub record IsRandom (tiers : List (DepthTier Weight)) : Type 0 where
    pub chosen :
        (rng : random.Rng)
        → (i : ℕ) × (get_elem? tiers i
            ≡ some (random.choice tiers (map (λ t. t.weight) tiers) rng).0)
    pub between :
        (lo hi : ℕ) (rng : random.Rng)
        → lo ≤ hi
        → (lo ≤ (random.randint lo hi rng).0) × ((random.randint lo hi rng).0 ≤ hi)

  -- Sizes that sum to `num_rules`, none of them zero.
  abbrev pub IsPartition : ℕ → List ℕ → Type 0
  IsPartition num_rules sizes = (sum sizes ≡ num_rules) × All (λ s. 1 ≤ s) sizes

  module _ (tiers : List (DepthTier Weight)) (lawful : IsRandom tiers)
      (ranges : AreRanges tiers) where
    loop-IsPartition :
        (fuel num_rules : ℕ) (rng : random.Rng) (total : ℕ)
        → total ≤ num_rules
        → num_rules ≤ fuel + total
        → (sizes : List ℕ) × (key_sizes_loop random tiers fuel num_rules rng total ≡ some sizes)
          × (sum sizes + total ≡ num_rules)
          × All (λ s. 1 ≤ s) sizes
    unfolding key_sizes_loop sum
    loop-IsPartition zero num_rules rng total le enough =
        ([], rw (le→ltb-false total num_rules (omega arith)), omega arith, tt)
    loop-IsPartition (suc fuel) num_rules rng total le enough =
        elim (Bool-cases (ltb total num_rules)) [
          | inr e ↦ ([], rw e, ground arith, tt)
          | inl e ↦
              let chosen = random.choice tiers (map (λ t. t.weight) tiers) rng in
              let drawn = random.randint chosen.0.min_size chosen.0.max_size chosen.1 in
              let (i, member) = lawful.chosen rng in
              let (one, ordered) = All-get_elem? _ tiers i chosen.0 ranges member in
              let (low, high) =
                lawful.between chosen.0.min_size chosen.0.max_size chosen.1 ordered in
              let size = min drawn.0 (num_rules - total) in
              let lt = ltb→lt total num_rules e in
              let positive : 1 ≤ size = ground (arith, one, low, lt) in
              let fits : size ≤ num_rules - total = ground arith in
              let (sizes, found, adds, all) =
                loop-IsPartition fuel num_rules drawn.1 (total + size) (omega arith)
                  (omega arith) in
              (size ∷ sizes, rw (e, found), omega arith, (positive, all))
        ]

    -- For tiers whose bounds satisfy `1 <= lo <= hi`, and a generator that chooses one of the tiers
    -- and draws numbers between their bounds: `build_key_sizes` ends, within as many rounds as there
    -- are rules, with key sizes that are positive and add up to exactly the number of rules.
    pub build_key_sizes-IsPartition :
        (num_rules : ℕ) (rng : random.Rng)
        → (sizes : List ℕ) × (build_key_sizes random tiers num_rules rng ≡ some sizes)
          × IsPartition num_rules sizes
    unfolding build_key_sizes
    build_key_sizes-IsPartition num_rules rng =
        let (sizes, found, adds, all) =
          loop-IsPartition num_rules num_rules rng 0 (omega arith) (omega arith) in
        (sizes, found, (omega arith, all))
