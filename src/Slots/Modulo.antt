-- ===== src/Slots/Modulo.antt =====
-- The interleaved policy of fqdnrules/fqdn_slots.py: which shares hold a slot of their own residue.
use native.Mathlib.Nat.{add-mul-mod_self_left, mod-eq_of_lt, add-mod-mod, mod-le, div-add-mod}
use fun_with_dragonfly_db.Prelude.{
  ℕ, zero, suc, ◌+◌, ◌-◌, ◌*◌, ◌/◌, ◌%◌, ◌≤◌, ◌<◌, ◌≡◌, ◌↔◌, refl, ap, sym, ◌∙◌, true, Bool, ◌&&◌,
  arith, ltb, ltb→lt, lt→ltb, leb, inl, inr, Bool-cases,
}
use fun_with_dragonfly_db.Slots.{
  range_lo, range_hi, bucket_has_modulo_match, modulo_safe_below, is_modulo_safe,
}

-- The smallest number from `lo` on with the residue of `i`.
smallest : ℕ → ℕ → ℕ → ℕ
smallest lo n i = lo + (i + lo * n - lo) % n

smallest-mod : (lo n i : ℕ) → i < n → smallest lo n i % n ≡ i
unfolding smallest
smallest-mod lo n i h =
    add-mod-mod lo (i + lo * n - lo) n
    ∙ ap (λ (m : ℕ). m % n) whole
    ∙ add-mul-mod_self_left i n lo
    ∙ mod-eq_of_lt h
  where
    positive : lo ≤ lo * n
    positive = grind arith

    whole : lo + (i + lo * n - lo) ≡ i + n * lo
    whole = omega (arith, positive)

-- No number between `lo` and `smallest` has the residue.
smallest-le : (lo n i s : ℕ) → i < n → lo ≤ s → s % n ≡ i → smallest lo n i ≤ s
unfolding smallest
smallest-le lo n i s h l e =
    let m = mod-le (s - lo) n in let q : (i + lo * n - lo) % n ≡ (s - lo) % n = same in omega arith
  where
    positive : lo ≤ lo * n
    positive = grind arith

    division : n * (s / n) + s % n ≡ s
    division = div-add-mod s n

    shifted : (i + lo * n - lo) + n * (s / n) ≡ (s - lo) + n * lo
    shifted = omega (arith, positive, division)

    same : (i + lo * n - lo) % n ≡ (s - lo) % n
    same =
        sym (add-mul-mod_self_left (i + lo * n - lo) n (s / n))
        ∙ ap (λ (m : ℕ). m % n) shifted
        ∙ add-mul-mod_self_left (s - lo) n lo

-- The arithmetic test passes exactly when the range holds a slot of the bucket's residue.
pub bucket_has_modulo_match_iff :
    (lo hi num_buckets i : ℕ)
    → i < num_buckets
    → (bucket_has_modulo_match lo hi num_buckets i ≡ true)
      ↔ ((s : ℕ) × (lo ≤ s) × (s < hi) × (s % num_buckets ≡ i))
unfolding bucket_has_modulo_match
bucket_has_modulo_match_iff lo hi n i h = (
  λ t. (
    smallest lo n i,
    unfold smallest in omega arith,
    unfold smallest in ltb→lt _ hi t,
    smallest-mod lo n i h,
  ),
  λ (s, l, u, e).
      let m = smallest-le lo n i s h l e in
      lt→ltb _ hi (let g : smallest lo n i < hi = omega arith in unfold smallest in g),
)

modulo_safe_below-at :
    (k n i : ℕ)
    → modulo_safe_below k n ≡ true
    → i < k
    → bucket_has_modulo_match (range_lo i n) (range_hi i n) n i ≡ true
unfolding modulo_safe_below
modulo_safe_below-at zero n i h l = absurd (omega arith)
modulo_safe_below-at (suc k) n i h l = elim (Bool-cases (ltb i k)) [
  | inl e ↦ modulo_safe_below-at k n i (ground arith) (ltb→lt i k e)
  | inr e ↦ let q : k ≡ i = ground arith in rw (← q) (ground arith)
]

-- In a safe table every bucket's share holds a slot of the bucket's residue.
pub is_modulo_safe-slot :
    (num_buckets i : ℕ)
    → is_modulo_safe num_buckets ≡ true
    → i < num_buckets
    → (s : ℕ) × (range_lo i num_buckets ≤ s) × (s < range_hi i num_buckets) × (s % num_buckets ≡ i)
unfolding is_modulo_safe
is_modulo_safe-slot n i h l =
    (bucket_has_modulo_match_iff (range_lo i n) (range_hi i n) n i l).0
      (modulo_safe_below-at n n i h l)

-- Every bucket count up to `k` is safe.
all_safe : ℕ → Bool
unfolding is_modulo_safe
all_safe zero = true
all_safe (suc k) = all_safe k && is_modulo_safe (suc k)

all_safe-at : (k n : ℕ) → all_safe k ≡ true → 0 < n → n ≤ k → is_modulo_safe n ≡ true
unfolding all_safe
all_safe-at zero n h p l = absurd (omega arith)
all_safe-at (suc k) n h p l = elim (Bool-cases (leb n k)) [
  | inl e ↦ all_safe-at k n (ground arith) p (ground arith)
  | inr e ↦ let q : suc k ≡ n = ground arith in rw (← q) (ground arith)
]

all_safe_129 : all_safe 129 ≡ true
unfolding all_safe
all_safe_129 = refl

-- Every number of buckets from 1 to 129 is modulo safe.
pub is_modulo_safe_small :
    (num_buckets : ℕ) → 0 < num_buckets → num_buckets ≤ 129 → is_modulo_safe num_buckets ≡ true
is_modulo_safe_small n p l = all_safe-at 129 n all_safe_129 p l
