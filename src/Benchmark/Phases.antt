-- ===== src/Benchmark/Phases.antt =====
-- The write phase of fqdnrules/benchmark.py: batching loses no rule, repeats none, and keeps their
-- order.
use native.Mathlib.Nat.{div-add-mod, mod-lt, suc-mul}
use fun_with_dragonfly_db.Prelude.{
  ℕ, zero, suc, ◌+◌, ◌-◌, ◌*◌, ◌/◌, ◌≤◌, ◌<◌, ◌≡◌, refl, ap, ◌∙◌, inl, inr, List, [], ◌∷◌, ◌++◌,
  arith, ltb, ltb-false→le, Bool-cases,
}
use fun_with_dragonfly_db.Router.{Rule}
use fun_with_dragonfly_db.Benchmark.{
  RuleLayout, min, rules_from, batch_at, num_batches, rule_for_index,
}

-- All batches of a write phase, one after the other, from a batch on.
unfoldable pub batches_from : RuleLayout → ℕ → ℕ → ℕ → ℕ → List Rule
batches_from layout num_rules batch_size batch_idx zero = []
batches_from layout num_rules batch_size batch_idx (suc rounds) =
    batch_at layout num_rules batch_size batch_idx
    ++ batches_from layout num_rules batch_size (suc batch_idx) rounds

rules_from_same :
    (layout : RuleLayout) {lo lo' m m' : ℕ}
    → lo ≡ lo'
    → m ≡ m'
    → rules_from layout lo m ≡ rules_from layout lo' m'
rules_from_same layout e f = rw (e, f)

pub append-rules_from :
    (layout : RuleLayout) (lo m n : ℕ)
    → rules_from layout lo m ++ rules_from layout (lo + m) n ≡ rules_from layout lo (m + n)
unfolding rules_from
append-rules_from layout lo zero n = rules_from_same layout (omega arith) (omega arith)
append-rules_from layout lo (suc m) n =
    ap (λ z. rule_for_index lo layout ∷ (rules_from layout (suc lo) m ++ z))
      (rules_from_same layout (omega arith) refl)
    ∙ ap (◌∷◌ (rule_for_index lo layout)) (append-rules_from layout (suc lo) m n)
    ∙ count (suc (m + n)) (suc m + n) (omega arith)
  where
    count : (x y : ℕ) → x ≡ y → rules_from layout lo x ≡ rules_from layout lo y
    count x y e = rules_from_same layout refl e

no_rules : (layout : RuleLayout) (lo lo' : ℕ) → rules_from layout lo 0 ≡ rules_from layout lo' 0
unfolding rules_from
no_rules layout lo lo' = refl

module _ (layout : RuleLayout) (num_rules batch_size : ℕ) where
  batch-append :
      (lo lo' : ℕ)
      → lo' ≡ lo + batch_size
      → rules_from layout lo (min (lo + batch_size) num_rules - lo)
          ++ rules_from layout lo' (num_rules - lo')
        ≡ rules_from layout lo (num_rules - lo)
  batch-append lo lo' e = elim (Bool-cases (ltb num_rules (lo + batch_size))) [
    | inl t ↦
        let none_left : num_rules - lo' ≡ 0 = ground arith in
        rw (t, none_left)
          (ap (λ z. rules_from layout lo (num_rules - lo) ++ z) (no_rules layout lo' _)
            ∙ append-rules_from layout lo (num_rules - lo) 0
            ∙ rules_from_same layout refl (omega arith))
    | inr t ↦
        let full : lo + batch_size - lo ≡ batch_size = omega arith in
        let le = ltb-false→le num_rules (lo + batch_size) t in
        rw (t, full, e)
          (append-rules_from layout lo batch_size (num_rules - (lo + batch_size))
            ∙ rules_from_same layout refl (omega arith))
  ]

  batches_from-rules_from :
      (k rounds : ℕ)
      → num_rules ≤ k * batch_size + rounds * batch_size
      → batches_from layout num_rules batch_size k rounds
        ≡ rules_from layout (k * batch_size) (num_rules - k * batch_size)
  unfolding batches_from batch_at
  batches_from-rules_from k zero h =
      let z : num_rules - k * batch_size ≡ 0 = omega arith in rw z (unfold rules_from in refl)
  batches_from-rules_from k (suc rounds) h =
      let next = suc-mul k batch_size in
      let more = suc-mul rounds batch_size in
      rw (batches_from-rules_from (suc k) rounds (omega arith))
        (batch-append (k * batch_size) (suc k * batch_size) (omega arith))

  -- The batches of a write phase, in order, are exactly the rules 0 to `num_rules` - 1: no rule is
  -- left out, and none is written twice.
  pub batches-rules_from :
      0 < batch_size
      → batches_from layout num_rules batch_size 0 (num_batches num_rules batch_size)
        ≡ rules_from layout 0 num_rules
  unfolding num_batches
  batches-rules_from h =
      let d = div-add-mod (num_rules + batch_size - 1) batch_size in
      let m = mod-lt (num_rules + batch_size - 1) h in
      batches_from-rules_from 0 ((num_rules + batch_size - 1) / batch_size) (omega arith)
      ∙ rules_from_same layout (omega arith) (omega arith)
