-- ===== src/Slots/Ranges.antt =====
-- The buckets' shares of the slot space of fqdnrules/fqdn_slots.py: a partition, of shares that
-- differ by one slot at most, and the arithmetic of the interleaved policy.
use native.Mathlib.Nat.{
  div-eq_of_lt-le, div-add-mod, mod-lt, mul-div_cancel_left, le-div_iff_mul-le, zero-div,
  div-mul-le_self,
}
use fun_with_dragonfly_db.Prelude.{
  ℕ, zero, suc, ◌+◌, ◌-◌, ◌*◌, ◌/◌, ◌%◌, ◌≤◌, ◌<◌, ◌≡◌, ◌⊎◌, inl, inr, arith, ltb, ltb→lt,
  Bool-cases, ltb-false→le,
}
use fun_with_dragonfly_db.Slots.{num_slots, range_lo, range_hi, starts_from, bisect_right}

div-add : (n a s : ℕ) → 0 < n → ((a + s) / n ≡ a / n + s / n) ⊎ ((a + s) / n ≡ a / n + s / n + 1)
div-add n a s h =
    let da = div-add-mod a n in
    let ds = div-add-mod s n in
    let ra = mod-lt a h in
    let rs = mod-lt s h in
    elim (Bool-cases (ltb (a % n + s % n) n)) [
      | inl e ↦ let lt = ltb→lt _ _ e in inl (div-eq_of_lt-le n (omega arith) (omega arith))
      | inr e ↦ let ge = ltb-false→le _ _ e in inr (div-eq_of_lt-le n (omega arith) (omega arith))
    ]

-- The shares of any two buckets have widths that differ by one slot at most: each is the quotient
-- of the number of slots by the number of buckets, or that and one.
pub range_width :
    (num_buckets i : ℕ)
    → 0 < num_buckets
    → (range_hi i num_buckets ≡ range_lo i num_buckets + num_slots / num_buckets)
      ⊎ (range_hi i num_buckets ≡ range_lo i num_buckets + num_slots / num_buckets + 1)
range_width n i h =
    let e : (i + 1) * num_slots ≡ i * num_slots + num_slots = omega arith in
    rw e (div-add n (i * num_slots) num_slots h)

quotient_pos : (n : ℕ) → 0 < n → n ≤ num_slots → 0 < num_slots / n
quotient_pos n h k = (le-div_iff_mul-le {x = 1} h).1 (omega arith)

-- A legal bucket's share is not empty.
pub range_nonempty :
    (num_buckets i : ℕ)
    → 0 < num_buckets
    → num_buckets ≤ num_slots
    → range_lo i num_buckets < range_hi i num_buckets
range_nonempty n i h k = elim (range_width n i h) [
  | inl e ↦ let q = quotient_pos n h k in omega arith
  | inr e ↦ omega arith
]

range_lo-zero : (n : ℕ) → range_lo 0 n ≡ 0
range_lo-zero n = zero-div n

range_lo_all : (n : ℕ) → 0 < n → range_lo n n ≡ num_slots
range_lo_all n h = mul-div_cancel_left num_slots h

-- `r` counts the buckets, of `rounds` from `i` on, whose lower ends are at most `x`.
record IsCount (n i rounds x r : ℕ) : Type 0 where
  bounded : r ≤ rounds
  reached : 0 < r → range_lo (i + r - 1) n ≤ x
  short : r < rounds → x < range_lo (i + r) n

module _ (n x : ℕ) where
  move_reached : (a b : ℕ) → a ≡ b → range_lo a n ≤ x → range_lo b n ≤ x
  move_reached a b e h = rw e at h

  move_short : (a b : ℕ) → a ≡ b → x < range_lo a n → x < range_lo b n
  move_short a b e h = rw e at h

  IsCount-suc :
      (i rounds r : ℕ)
      → range_lo i n ≤ x
      → IsCount n (suc i) rounds x r
      → IsCount n i (suc rounds) x (suc r)
  IsCount-suc i rounds zero h c = record {
    bounded = omega arith;
    reached = λ p. move_reached i (i + 1 - 1) (omega arith) h;
    short = λ p. move_short (suc i + 0) (i + 1) (omega arith) (c.short (omega arith));
  }
  IsCount-suc i rounds (suc r) h c = record {
    bounded = let b = c.bounded in omega arith;
    reached = λ p.
        move_reached (suc i + suc r - 1) (i + suc (suc r) - 1) (omega arith)
          (c.reached (omega arith));
    short = λ p. move_short (suc i + suc r) (i + suc (suc r)) (omega arith) (c.short (omega arith));
  }

  bisect-IsCount : (i rounds : ℕ) → IsCount n i rounds x (bisect_right (starts_from n i rounds) x)
  unfolding bisect_right starts_from
  bisect-IsCount i zero = record {
    bounded = omega arith;
    reached = λ h. absurd (omega arith);
    short = λ h. absurd (omega arith);
  }
  bisect-IsCount i (suc rounds) = elim (Bool-cases (ltb x (range_lo i n))) [
    | inl e ↦ rw e (record {
      bounded = omega arith;
      reached = λ h. absurd (omega arith);
      short = λ h. move_short i (i + 0) (omega arith) (ltb→lt x (range_lo i n) e);
    })
    | inr e ↦
        rw e
          (IsCount-suc i rounds _ (ltb-false→le x (range_lo i n) e) (bisect-IsCount (suc i) rounds))
  ]

-- The bucket that the search finds for a slot.
unfoldable pub bucket_of : ℕ → ℕ → ℕ
bucket_of n x = bisect_right (starts_from n 0 n) x - 1

IsCount-bucket :
    (n x r : ℕ)
    → 0 < n
    → x < num_slots
    → IsCount n 0 n x r
    → (r - 1 < n) × (range_lo (r - 1) n ≤ x) × (x < range_hi (r - 1) n)
IsCount-bucket n x zero h k c = absurd (let z = c.short h in omega (arith, range_lo-zero n))
IsCount-bucket n x (suc r) h k c = (
  let b = c.bounded in omega arith,
  move_reached n x (0 + suc r - 1) (suc r - 1) (omega arith) (c.reached (omega arith)),
  elim (Bool-cases (ltb (suc r) n)) [
    | inl e ↦
        move_short n x (0 + suc r) (suc r - 1 + 1) (omega arith) (c.short (ltb→lt (suc r) n e))
    | inr e ↦
        let all : suc r ≡ n =
          let b = c.bounded in let g = ltb-false→le (suc r) n e in omega arith in
        let top : x < range_lo n n = rw (range_lo_all n h) k in
        move_short n x n (suc r - 1 + 1) (omega arith) top
  ],
)

-- The search finds, for every slot, a legal bucket whose share holds it.
pub bucket_of-holds :
    (num_buckets x : ℕ)
    → 0 < num_buckets
    → x < num_slots
    → (bucket_of num_buckets x < num_buckets)
      × (range_lo (bucket_of num_buckets x) num_buckets ≤ x)
      × (x < range_hi (bucket_of num_buckets x) num_buckets)
unfolding bucket_of
bucket_of-holds n x h k = IsCount-bucket n x _ h k (bisect-IsCount n x 0 n)

range_lo_mono : (n i j : ℕ) → 0 < n → i ≤ j → range_lo i n ≤ range_lo j n
range_lo_mono n i j h l =
    (le-div_iff_mul-le h).1 (let a = div-mul-le_self (i * num_slots) n in omega arith)

-- The shares are a partition: a slot lies in the share of exactly one bucket, the one found.
pub bucket_of_unique :
    (num_buckets x i : ℕ)
    → 0 < num_buckets
    → x < num_slots
    → range_lo i num_buckets ≤ x
    → x < range_hi i num_buckets
    → i ≡ bucket_of num_buckets x
bucket_of_unique n x i h k lo hi =
    let f = bucket_of-holds n x h k in
    elim (Bool-cases (ltb i (bucket_of n x))) [
      | inl e ↦ absurd (
          let m = range_lo_mono n (i + 1) (bucket_of n x) h (let l = ltb→lt i _ e in omega arith) in
          omega arith)
      | inr e ↦ elim (Bool-cases (ltb (bucket_of n x) i)) [
        | inl e' ↦ absurd (
            let m =
              range_lo_mono n (bucket_of n x + 1) i h (let l = ltb→lt _ i e' in omega arith) in
            omega arith)
        | inr e' ↦ let a = ltb-false→le _ _ e in let b = ltb-false→le _ _ e' in omega arith
      ]
    ]
