-- ===== src/Slots/Table.antt =====
-- The token table of fqdnrules/fqdn_slots.py: what every table that the search returns guarantees.
use native.Mathlib.Decide.{ℕ_discrete}
use fun_with_dragonfly_db.Prelude.{
  ℕ, zero, suc, ◌+◌, ◌-◌, ◌%◌, ◌≤◌, ◌<◌, ◌≡◌, refl, ap, sym, ◌∙◌, Bool, true, not, ◌&&◌, ◌||◌,
  Option, none, some, List, [], ◌∷◌, inl, inr, ◌⊎◌, arith, ltb, lt→ltb, leb, ◌==◌, Bool-cases,
  length, length-set, length-replicate, get_elem?, get_elem?-set, set, replicate, Text, encode,
  decimal, ok, err, index_error, value_error, bind-eq-ok, is_ok, is_ok→value, ltb-false→le,
  le→ltb-false,
}
use fun_with_dragonfly_db.Slots.{
  num_slots, range_lo, range_hi, slot, bisect_right, starts_from, Search, is_unfilled, draw,
  search_loop, compact, start_search, iteration_cap, is_modulo_safe, BucketTable, token, to_table,
  compute_bucket_table,
}
use fun_with_dragonfly_db.Slots.Crc.{crc16-slot_range}
use fun_with_dragonfly_db.Slots.Ranges.{bucket_of, bucket_of-holds}

module _ {ℓ} {A : Type ℓ} where
  -- How many items are there.
  count_some : List (Option A) → ℕ
  count_some [] = 0
  count_some (none ∷ xs) = count_some xs
  count_some (some x ∷ xs) = suc (count_some xs)

  count_some-le : (xs : List (Option A)) → count_some xs ≤ length xs
  unfolding count_some
  count_some-le [] = omega arith
  count_some-le (none ∷ xs) = omega (arith, count_some-le xs)
  count_some-le (some x ∷ xs) = omega (arith, count_some-le xs)

  count_some-set :
      (xs : List (Option A)) (i : ℕ) (v : A)
      → get_elem? xs i ≡ some none
      → count_some (set xs i (some v)) ≡ suc (count_some xs)
  unfolding count_some
  count_some-set [] i v h = absurd (cc)
  count_some-set (none ∷ xs) zero v h = refl
  count_some-set (some x ∷ xs) zero v h = absurd (ground arith)
  count_some-set (none ∷ xs) (suc i) v h = count_some-set xs i v h
  count_some-set (some x ∷ xs) (suc i) v h = ap suc (count_some-set xs i v h)

  -- If every item is there, `compact` keeps each at its place.
  compact-full :
      (xs : List (Option A)) (i : ℕ)
      → length xs ≤ count_some xs
      → i < length xs
      → (x : A) × (get_elem? xs i ≡ some (some x)) × (get_elem? (compact xs) i ≡ some x)
  unfolding count_some compact
  compact-full [] i h l = absurd (omega arith)
  compact-full (none ∷ xs) i h l = absurd (omega (arith, count_some-le xs))
  compact-full (some x ∷ xs) zero h l = (x, refl, refl)
  compact-full (some x ∷ xs) (suc i) h l = compact-full xs i (omega arith) (omega arith)

  length-compact : (xs : List (Option A)) → length (compact xs) ≡ count_some xs
  unfolding count_some compact
  length-compact [] = refl
  length-compact (none ∷ xs) = length-compact xs
  length-compact (some x ∷ xs) = ap suc (length-compact xs)

count_some-replicate {ℓ} : (A : Type ℓ) (n : ℕ) → count_some (replicate {A = Option A} n none) ≡ 0
unfolding count_some
count_some-replicate A zero = refl
count_some-replicate A (suc n) = count_some-replicate A n

get_elem?-replicate {ℓ} :
    {A : Type ℓ} (n i : ℕ) (v w : A) → get_elem? (replicate n v) i ≡ some w → w ≡ v
get_elem?-replicate zero i v w h = absurd (cc)
get_elem?-replicate (suc n) zero v w h = ground arith
get_elem?-replicate (suc n) (suc i) v w h = get_elem?-replicate n i v w h

get_elem?-none_replicate {ℓ} :
    {A : Type ℓ} (B : Type ℓ) (n i : ℕ) (v : A) (w : B)
    → get_elem? (replicate n v) i ≡ some v
    → get_elem? (replicate n w) i ≡ some w
get_elem?-none_replicate B zero i v w h = absurd (cc)
get_elem?-none_replicate B (suc n) zero v w h = refl
get_elem?-none_replicate B (suc n) (suc i) v w h = get_elem?-none_replicate B n i v w h

-- What a filled token is: the numeral of a counter, with its slot in the bucket's share and, if the
-- table is to be safe, of the bucket's residue.
pub record IsToken (n : ℕ) (safe : Bool) (i : ℕ) (t : Text) : Type 0 where
  pub counter : ℕ
  pub numeral : t ≡ decimal counter
  pub above : range_lo i n ≤ slot (encode t)
  pub below : slot (encode t) < range_hi i n
  pub residue : safe ≡ true → slot (encode t) % n ≡ i

-- The loop's invariant.
record IsSound (n : ℕ) (safe : Bool) (s : Search) : Type 0 where
  tokens_length : length s.tokens ≡ n
  slots_length : length s.slots ≡ n
  counted : count_some s.tokens ≡ s.filled
  slots_counted : count_some s.slots ≡ s.filled
  each : (i : ℕ) (t : Text) → get_elem? s.tokens i ≡ some (some t) → IsToken n safe i t
  same :
      (i : ℕ) (t : Text)
      → get_elem? s.tokens i ≡ some (some t)
      → get_elem? s.slots i ≡ some (some (slot (encode t)))
  both_empty : (i : ℕ) → get_elem? s.tokens i ≡ some none → get_elem? s.slots i ≡ some none

start-IsSound : (n : ℕ) (safe : Bool) → IsSound n safe (start_search n)
unfolding start_search
start-IsSound n safe = record {
  tokens_length = length-replicate n none;
  slots_length = length-replicate n none;
  counted = count_some-replicate Text n;
  slots_counted = count_some-replicate ℕ n;
  each = λ i t h. absurd (cc (get_elem?-replicate n i none (some t) h));
  same = λ i t h. absurd (cc (get_elem?-replicate n i none (some t) h));
  both_empty = λ i h. get_elem?-none_replicate (Option ℕ) n i none none h;
}

is_unfilled-eq : (o : Option (Option Text)) → is_unfilled o ≡ true → o ≡ some none
is_unfilled-eq (some none) h = refl
is_unfilled-eq (some (some t)) h = absurd (cc)
is_unfilled-eq none h = absurd (cc)

get-lt {ℓ} : {A : Type ℓ} (xs : List A) (i : ℕ) (x : A) → get_elem? xs i ≡ some x → i < length xs
get-lt [] i x h = absurd (cc)
get-lt (y ∷ xs) zero x h = omega arith
get-lt (y ∷ xs) (suc i) x h = omega (arith, get-lt xs i x h)

module _ (n : ℕ) (safe : Bool) (s : Search) (v : IsSound n safe s) (b k : ℕ) where
  accept : Search
  accept = record {
    tokens = set s.tokens b (some (decimal k));
    slots = set s.slots b (some (slot (encode (decimal k))));
    filled = s.filled + 1;
  }

  module _ (empty : get_elem? s.tokens b ≡ some none) (good : IsToken n safe b (decimal k)) where
    at_token :
        (i : ℕ)
        → ((b ≡ i)
            × (get_elem? accept.tokens i ≡ some (some (decimal k)))
            × (get_elem? accept.slots i ≡ some (some (slot (encode (decimal k))))))
          ⊎ ((get_elem? accept.tokens i ≡ get_elem? s.tokens i)
              × (get_elem? accept.slots i ≡ get_elem? s.slots i))
    unfolding accept
    at_token i =
        let in_tokens =
          get_elem?-set s.tokens b i (some (decimal k)) (get-lt s.tokens b none empty) in
        let in_slots =
          get_elem?-set s.slots b i (some (slot (encode (decimal k))))
            (get-lt s.slots b none (v.both_empty b empty)) in
        elim (ℕ_discrete b i) [
          | yes e ↦ inl (e, in_tokens.0 e, in_slots.0 e)
          | no e ↦ inr (in_tokens.1 e, in_slots.1 e)
        ]

    accept-each :
        (i : ℕ) (t : Text) → get_elem? accept.tokens i ≡ some (some t) → IsToken n safe i t
    accept-each i t h = elim (at_token i) [
      | inl (e, q, _) ↦ let same_text : decimal k ≡ t = cc in rw (← same_text, ← e) good
      | inr (q, _) ↦ v.each i t (sym q ∙ h)
    ]

    accept-same :
        (i : ℕ) (t : Text)
        → get_elem? accept.tokens i ≡ some (some t)
        → get_elem? accept.slots i ≡ some (some (slot (encode t)))
    accept-same i t h = elim (at_token i) [
      | inl (e, q, r) ↦ let same_text : decimal k ≡ t = cc in rw (← same_text) r
      | inr (q, r) ↦ r ∙ v.same i t (sym q ∙ h)
    ]

    accept-both_empty :
        (i : ℕ) → get_elem? accept.tokens i ≡ some none → get_elem? accept.slots i ≡ some none
    accept-both_empty i h = elim (at_token i) [
      | inl (e, q, r) ↦ absurd (cc)
      | inr (q, r) ↦ r ∙ v.both_empty i (sym q ∙ h)
    ]

    accept-IsSound : IsSound n safe accept
    accept-IsSound = record {
      tokens_length = unfold accept in length-set s.tokens b _ ∙ v.tokens_length;
      slots_length = unfold accept in length-set s.slots b _ ∙ v.slots_length;
      counted =
          unfold accept in count_some-set s.tokens b (decimal k) empty ∙ omega (arith, v.counted);
      slots_counted =
          unfold accept in
          count_some-set s.slots b (slot (encode (decimal k))) (v.both_empty b empty)
          ∙ omega (arith, v.slots_counted);
      each = accept-each;
      same = accept-same;
      both_empty = accept-both_empty;
    }

draw-IsSound :
    (n k : ℕ) (safe : Bool) (s : Search)
    → 0 < n
    → IsSound n safe s
    → IsSound n safe (draw n (starts_from n 0 n) safe k s)
unfolding draw accept bucket_of
draw-IsSound n k safe s h v =
    elim (Bool-cases (is_unfilled (get_elem? s.tokens b) && (not safe || sl % n == b))) [
      | inl e ↦ rw e (
          accept-IsSound n safe s v b k (is_unfilled-eq (get_elem? s.tokens b) (ground arith))
            (good e))
      | inr e ↦ rw e v
    ]
  where
    sl : ℕ
    sl = slot (encode (decimal k))

    b : ℕ
    b = bisect_right (starts_from n 0 n) sl - 1

    good :
        (is_unfilled (get_elem? s.tokens b) && (not safe || sl % n == b)) ≡ true
        → IsToken n safe b (decimal k)
    good e =
        let held = bucket_of-holds n sl h (crc16-slot_range (encode (decimal k))).1 in
        record {
          counter = k;
          numeral = refl;
          above = held.1;
          below = held.2;
          residue = λ q. ground arith;
        }

search_loop-IsSound :
    (n : ℕ) (safe : Bool) (draws k : ℕ) (s s' : Search)
    → 0 < n
    → IsSound n safe s
    → search_loop n (starts_from n 0 n) safe draws k s ≡ ok s'
    → IsSound n safe s' × (n ≤ s'.filled)
unfolding search_loop
search_loop-IsSound n safe zero k s s' h v e = elim (Bool-cases (ltb s.filled n)) [
  | inl t ↦ absurd (ground arith)
  | inr t ↦ let q : s ≡ s' = ground arith in rw (← q) (v, ltb-false→le s.filled n t)
]
search_loop-IsSound n safe (suc draws) k s s' h v e = elim (Bool-cases (ltb s.filled n)) [
  | inl t ↦
      search_loop-IsSound n safe draws (suc k) (draw n (starts_from n 0 n) safe k s) s' h
        (draw-IsSound n k safe s h v) (rw t at e)
  | inr t ↦ let q : s ≡ s' = ground arith in rw (← q) (v, ltb-false→le s.filled n t)
]

-- What a caller may rely on of a table for `n` buckets.
pub record IsTable (n : ℕ) (table : BucketTable) : Type 0 where
  pub legal : (1 ≤ n) × (n ≤ num_slots)
  pub size : length table.tokens ≡ n
  pub flag : table.modulo_safe ≡ is_modulo_safe n
  pub each :
      (i : ℕ)
      → i < n
      → (t : Text) × (token table i ≡ ok t)
        × IsToken n table.modulo_safe i t
        × (get_elem? table.slots i ≡ some (slot (encode t)))
  pub beyond : (i : ℕ) → n ≤ i → token table i ≡ err index_error

module _ (n : ℕ) (safe : Bool) (s : Search) (v : IsSound n safe s) (full : n ≤ s.filled) where
  abbrev table : BucketTable
  table = to_table safe s

  table_size : length table.tokens ≡ n
  table_size =
      length-compact s.tokens
      ∙ omega (arith, v.counted, v.tokens_length, count_some-le s.tokens, full)

  token_at :
      (i : ℕ)
      → i < n
      → (t : Text) × (token table i ≡ ok t)
        × IsToken n safe i t
        × (get_elem? table.slots i ≡ some (slot (encode t)))
  token_at i l =
      let (t, there, kept) =
        compact-full s.tokens i (omega (arith, v.counted, v.tokens_length, full))
          (omega (arith, v.tokens_length)) in
      let (x, there', kept') =
        compact-full s.slots i (omega (arith, v.slots_counted, v.slots_length, full))
          (omega (arith, v.slots_length)) in
      let q : x ≡ slot (encode t) = cc (v.same i t there) in
      (
        t,
        unfold token in rw (lt→ltb i (length table.tokens) (omega (arith, table_size)), kept),
        v.each i t there,
        rw (← q) kept',
      )

  token_beyond : (i : ℕ) → n ≤ i → token table i ≡ err index_error
  unfolding token
  token_beyond i l = rw (le→ltb-false i (length table.tokens) (omega (arith, table_size)))

-- Every table that is computed has one token for each bucket: the numeral of a counter, with its
-- slot in that bucket's share and, when the table is modulo safe, of that bucket's residue. The
-- recorded slots are the tokens' slots, and a bucket out of range is an IndexError.
pub compute_bucket_table-IsTable :
    (n : ℕ) (t : BucketTable) → compute_bucket_table n ≡ ok t → IsTable n t
unfolding compute_bucket_table
compute_bucket_table-IsTable n t e = elim (Bool-cases (leb 1 n && leb n 16384)) [
  | inl legal ↦
      let found =
        bind-eq-ok
          (search_loop n (starts_from n 0 n) (is_modulo_safe n) (iteration_cap n + 1) 0
            (start_search n))
          (λ s. ok (to_table (is_modulo_safe n) s)) (rw legal at e) in
      computed (ground arith) (ground arith) found.0 found.1 found.2
  | inr illegal ↦ absurd (cc (rw illegal at e))
]
  where
    computed :
        1 ≤ n
        → n ≤ num_slots
        → (s : Search)
        → search_loop n
            (starts_from n 0 n)
            (is_modulo_safe n)
            (iteration_cap n + 1)
            0
            (start_search n)
          ≡ ok s
        → ok (to_table (is_modulo_safe n) s) ≡ ok t
        → IsTable n t
    computed low high s loop last =
        let (v, full) =
          search_loop-IsSound n (is_modulo_safe n) (iteration_cap n + 1) 0 (start_search n) s low
            (start-IsSound n (is_modulo_safe n)) loop in
        let q : to_table (is_modulo_safe n) s ≡ t = ground arith in
        rw (← q) (record {
          legal = (low, high);
          size = table_size n (is_modulo_safe n) s v full;
          flag = refl;
          each = token_at n (is_modulo_safe n) s v full;
          beyond = token_beyond n (is_modulo_safe n) s v full;
        })

-- A count outside of 1..16384 is a ValueError.
pub compute_bucket_table-illegal :
    (n : ℕ) → (n ≡ 0) ⊎ (num_slots < n) → compute_bucket_table n ≡ err value_error
unfolding compute_bucket_table
compute_bucket_table-illegal n h = ground arith

-- The search succeeds for every number of buckets up to `k`.
all_computed : ℕ → Bool
unfolding compute_bucket_table
all_computed zero = true
all_computed (suc k) = all_computed k && is_ok (compute_bucket_table (suc k))

all_computed-at :
    (k n : ℕ) → all_computed k ≡ true → 0 < n → n ≤ k → is_ok (compute_bucket_table n) ≡ true
unfolding all_computed
all_computed-at zero n h p l = absurd (omega arith)
all_computed-at (suc k) n h p l = elim (Bool-cases (leb n k)) [
  | inl e ↦ all_computed-at k n (ground arith) p (ground arith)
  | inr e ↦ let q : suc k ≡ n = ground arith in rw (← q) (ground arith)
]

all_computed_16 : all_computed 16 ≡ true
unfolding all_computed slot encode decimal
all_computed_16 = refl

-- For up to 16 buckets (the default of the benchmark) the search ends within its cap, with a table.
pub compute_bucket_table_small :
    (n : ℕ) → 0 < n → n ≤ 16 → (t : BucketTable) × (compute_bucket_table n ≡ ok t) × IsTable n t
compute_bucket_table_small n p l =
    let (t, e) = is_ok→value (compute_bucket_table n) (all_computed-at 16 n all_computed_16 p l) in
    (t, e, compute_bucket_table-IsTable n t e)
