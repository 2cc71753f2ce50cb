-- ===== src/Correlate/Closest.antt =====
-- The sample that fqdnrules/correlate_iowait.py takes for a moment.
use fun_with_dragonfly_db.Prelude.{
  ℕ, zero, suc, ◌+◌, ◌-◌, ◌≢◌, ◌≤◌, ◌≡◌, refl, ◌⊎◌, inl, inr, Bool, true, false, Bool-cases, some,
  List, get_elem?, [], ◌∷◌, arith, ltb, leb, ltb→lt, ltb-false→le, if◌then◌else◌, All, ok, err,
  type_error,
}
use fun_with_dragonfly_db.Correlate.{
  Formats, Time, IostatSample, same_kind, abs_difference, closest_from, closest_sample,
}

-- Two datetimes lie at most `d` microseconds apart.
abbrev pub IsWithin : ℕ → Time → Time → Type 0
IsWithin d a b = (a.micros ≤ b.micros + d) × (b.micros ≤ a.micros + d)

abbrev apart : Time → Time → ℕ
apart a b = if leb b.micros a.micros then a.micros - b.micros else b.micros - a.micros

apart-IsWithin : (d : ℕ) (a b t : Time) → apart a t ≤ apart b t → IsWithin d b t → IsWithin d a t
apart-IsWithin d a b t h (h1, h2) = (ground arith, ground arith)

-- Both have a time zone, or neither has.
same_kind-cases :
    (a b : Bool) → ((a ≡ b) × (same_kind a b ≡ true)) ⊎ ((a ≢ b) × (same_kind a b ≡ false))
same_kind-cases true true = inl (refl, refl)
same_kind-cases false false = inl (refl, refl)
same_kind-cases true false = inr (cc, refl)
same_kind-cases false true = inr (cc, refl)

module _ (formats : Formats) (time : Time) where
  abbrev distance : IostatSample formats → ℕ
  distance sample = apart sample.timestamp time

  -- A sample of those that it is chosen from, and as close as each of them.
  record IsNearest (samples : List (IostatSample formats)) (best : IostatSample formats)
      : Type 0 where
    index : ℕ
    there : get_elem? samples index ≡ some best
    nearest : All (λ sample. distance best ≤ distance sample) samples

  IsNearest-skip :
      (first second best : IostatSample formats) (samples : List (IostatSample formats))
      → distance first ≤ distance second
      → IsNearest (first ∷ samples) best
      → IsNearest (first ∷ second ∷ samples) best
  IsNearest-skip first second best samples h n = go n.index n.there n.nearest
    where
      go :
          (i : ℕ)
          → get_elem? (first ∷ samples) i ≡ some best
          → All (λ sample. distance best ≤ distance sample) (first ∷ samples)
          → IsNearest (first ∷ second ∷ samples) best
      go zero e (h1, all) = record { index = zero; there = e; nearest = (h1, (omega arith, all)) }
      go (suc i) e (h1, all) = record {
        index = suc (suc i);
        there = e;
        nearest = (h1, (omega arith, all));
      }

  IsNearest-cons :
      (first second best : IostatSample formats) (samples : List (IostatSample formats))
      → distance second ≤ distance first
      → IsNearest (second ∷ samples) best
      → IsNearest (first ∷ second ∷ samples) best
  IsNearest-cons first second best samples h n = record {
    index = suc n.index;
    there = n.there;
    nearest = (let l = n.nearest.0 in omega arith, n.nearest);
  }

  abbrev pub IsComparable : IostatSample formats → Type 0
  IsComparable sample = sample.timestamp.aware ≡ time.aware

  -- A sample that cannot be subtracted from the moment.
  abbrev pub HasStranger : List (IostatSample formats) → Type 0
  HasStranger samples =
      (i : ℕ) × (sample : IostatSample formats) × (get_elem? samples i ≡ some sample)
      × (sample.timestamp.aware ≢ time.aware)

  abbrev Outcome : IostatSample formats → List (IostatSample formats) → Type 0
  Outcome first samples =
      (All IsComparable samples
        × (best : IostatSample formats) × (closest_from formats time first (distance first) samples
            ≡ ok best)
        × IsNearest (first ∷ samples) best)
      ⊎ (HasStranger samples
          × (closest_from formats time first (distance first) samples ≡ err type_error))

  closest_from-Outcome :
      (first : IostatSample formats) (samples : List (IostatSample formats)) → Outcome first samples
  unfolding closest_from abs_difference
  closest_from-Outcome first [] =
      inl (tt, first, refl, record { index = 0; there = refl; nearest = (omega arith, tt) })
  closest_from-Outcome first (sample ∷ samples) =
      elim (same_kind-cases sample.timestamp.aware time.aware) [
        | inr (other, e) ↦ inr ((0, sample, refl, other), rw e refl)
        | inl (same, e) ↦ elim (Bool-cases (ltb (distance sample) (distance first))) [
          | inl less ↦
              let l = ltb→lt (distance sample) (distance first) less in
              elim (closest_from-Outcome sample samples) [
                | inl (all, best, found, n) ↦ inl (
                  (same, all),
                  best,
                  rw (e, less) found,
                  IsNearest-cons first sample best samples (omega arith) n,
                )
                | inr ((i, s, at, other), found) ↦ inr ((suc i, s, at, other), rw (e, less) found)
              ]
          | inr more ↦
              let l = ltb-false→le (distance sample) (distance first) more in
              elim (closest_from-Outcome first samples) [
                | inl (all, best, found, n) ↦ inl (
                  (same, all),
                  best,
                  rw (e, more) found,
                  IsNearest-skip first sample best samples l n,
                )
                | inr ((i, s, at, other), found) ↦ inr ((suc i, s, at, other), rw (e, more) found)
              ]
        ]
      ]

  -- A sample of the list; and however few microseconds from the moment another sample of the list
  -- lies, this one lies within them too.
  pub record IsClosest (samples : List (IostatSample formats)) (best : IostatSample formats)
      : Type 0 where
    pub index : ℕ
    pub listed : get_elem? samples index ≡ some best
    pub closest :
        (i d : ℕ) (sample : IostatSample formats)
        → get_elem? samples i ≡ some sample
        → IsWithin d sample.timestamp time
        → IsWithin d best.timestamp time

  nearest_at :
      (best sample : IostatSample formats) (samples : List (IostatSample formats)) (i : ℕ)
      → All (λ s. distance best ≤ distance s) samples
      → get_elem? samples i ≡ some sample
      → distance best ≤ distance sample
  nearest_at best sample [] i h e = absurd (cc)
  nearest_at best sample (s ∷ samples) zero (h, hs) e =
      let same : s ≡ sample = ground arith in rw (← same) h
  nearest_at best sample (s ∷ samples) (suc i) (h, hs) e = nearest_at best sample samples i hs e

  IsNearest-IsClosest :
      (samples : List (IostatSample formats)) (best : IostatSample formats)
      → IsNearest samples best
      → IsClosest samples best
  IsNearest-IsClosest samples best n = record {
    index = n.index;
    listed = n.there;
    closest = λ i d sample e h.
        apart-IsWithin d best.timestamp sample.timestamp time
          (nearest_at best sample samples i n.nearest e) h;
  }

  -- With at least one sample there are two outcomes. If all samples have a time zone like the
  -- moment, or none like it, then a sample of the list is returned, and none of the list is closer
  -- to the moment in time, before it or after it. If some sample differs in this from the moment,
  -- the result is a TypeError.
  pub closest_sample-IsClosest :
      (samples : List (IostatSample formats))
      → samples ≢ []
      → (All IsComparable samples
          × (best : IostatSample formats) × (closest_sample formats samples time ≡ ok (some best))
          × IsClosest samples best)
        ⊎ (HasStranger samples × (closest_sample formats samples time ≡ err type_error))
  unfolding closest_sample abs_difference
  closest_sample-IsClosest [] h = absurd (h refl)
  closest_sample-IsClosest (sample ∷ samples) h =
      elim (same_kind-cases sample.timestamp.aware time.aware) [
        | inr (other, e) ↦ inr ((0, sample, refl, other), rw e refl)
        | inl (same, e) ↦ elim (closest_from-Outcome sample samples) [
          | inl (all, best, found, n) ↦
              inl (
                (same, all),
                best,
                rw (e, found) refl,
                IsNearest-IsClosest (sample ∷ samples) best n,
              )
          | inr ((i, s, at, other), found) ↦ inr ((suc i, s, at, other), rw (e, found) refl)
        ]
      ]
