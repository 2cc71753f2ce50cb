-- ===== src/Diagnose/Shares.antt =====
-- What a verdict on the threads of fqdnrules/diagnose_router_hotspot.py tells.
use fun_with_dragonfly_db.Prelude.{
  ℕ, zero, suc, ◌+◌, ◌*◌, ◌<◌, ◌≤◌, ◌≡◌, refl, sym, ◌∙◌, Bool-cases, some, List, [], ◌∷◌, ltb, inl,
  inr, arith, All, length, insert_desc, sort_desc, sum_of, IsDescending, sort_desc-IsDescending,
  sum_of-sort_desc, length-sort_desc, sum_of_bounded, ltb-false→le, ltb→lt, ◌-◌, if◌then◌else◌,
}
use fun_with_dragonfly_db.Diagnose.{
  ticks_of, busy_threads, Verdict, concentrated, partially_concentrated, spread, verdict_of, Report,
  ticks, report_on, print_thread_report,
}

-- The bound on the number of threads that a verdict gives.
unfoldable pub at_least : Verdict → ℕ
at_least concentrated = 1
at_least partially_concentrated = 2
at_least spread = 4

-- The most ticks that a thread gained.
unfoldable pub highest : List (ℕ × ℕ) → ℕ
highest [] = 0
highest (thread ∷ threads) =
    let rest = highest threads in if ltb rest (ticks thread) then ticks thread else rest

-- What a verdict says of the ticks of the busiest thread and of all threads.
abbrev pub IsShare : Verdict → ℕ → ℕ → Type 0
IsShare concentrated top total = 60 * total < 100 * top
IsShare partially_concentrated top total = (30 * total < 100 * top) × (100 * top ≤ 60 * total)
IsShare spread top total = 100 * top ≤ 30 * total

verdict_of-IsShare : (top total : ℕ) → IsShare (verdict_of top total) top total
unfolding verdict_of
verdict_of-IsShare top total = elim (Bool-cases (ltb (60 * total) (100 * top))) [
  | inl e ↦ rw e (ltb→lt (60 * total) (100 * top) e)
  | inr e ↦
      let part = ltb-false→le (60 * total) (100 * top) e in
      elim (Bool-cases (ltb (30 * total) (100 * top))) [
        | inl f ↦ rw (e, f) (ltb→lt (30 * total) (100 * top) f, part)
        | inr f ↦ rw (e, f) (ltb-false→le (30 * total) (100 * top) f)
      ]
]

highest-insert_desc :
    (x : ℕ × ℕ) (ys : List (ℕ × ℕ)) → highest (insert_desc ticks x ys) ≡ highest (x ∷ ys)
unfolding highest insert_desc
highest-insert_desc x [] = refl
highest-insert_desc x (y ∷ ys) = ground (arith, highest-insert_desc x ys)

highest-sort_desc : (xs : List (ℕ × ℕ)) → highest (sort_desc ticks xs) ≡ highest xs
unfolding highest sort_desc
highest-sort_desc [] = refl
highest-sort_desc (x ∷ xs) =
    highest-insert_desc x (sort_desc ticks xs) ∙ rw (highest-sort_desc xs) refl

highest-bounded :
    (bound : ℕ) (xs : List (ℕ × ℕ)) → All (λ y. ticks y ≤ bound) xs → highest xs ≤ bound
unfolding highest
highest-bounded bound [] h = omega arith
highest-bounded bound (x ∷ xs) (h, hs) = ground (arith, highest-bounded bound xs hs)

highest-IsDescending :
    (x : ℕ × ℕ) (xs : List (ℕ × ℕ)) → IsDescending ticks (x ∷ xs) → highest (x ∷ xs) ≡ ticks x
unfolding highest
highest-IsDescending x xs (h, hs) = ground (arith, highest-bounded (ticks x) xs h)

report_on-IsShare :
    (ranked : List (ℕ × ℕ)) (total : ℕ) (report : Report)
    → IsDescending ticks ranked
    → report_on total ranked ≡ some report
    → IsShare report.verdict (highest ranked) total
unfolding report_on
report_on-IsShare [] total report h e = absurd (cc)
report_on-IsShare (top ∷ ranked) total report h e =
    let first : verdict_of (ticks top) total ≡ report.verdict = cc in
    rw (sym first, highest-IsDescending top ranked h) (verdict_of-IsShare (ticks top) total)

-- A share of a thread, at most 30 or 60 in a hundred, bounds their number from below.
share-lt : (top total n : ℕ) → 0 < top → total ≤ n * top → 100 * top ≤ 60 * total → 1 < n
share-lt top total zero positive bounded h = absurd (omega arith)
share-lt top total (suc zero) positive bounded h = absurd (omega arith)
share-lt top total (suc (suc n)) positive bounded h = omega arith

third-lt : (top total n : ℕ) → 0 < top → total ≤ n * top → 100 * top ≤ 30 * total → 3 < n
third-lt top total zero positive bounded h = absurd (omega arith)
third-lt top total (suc zero) positive bounded h = absurd (omega arith)
third-lt top total (suc (suc zero)) positive bounded h = absurd (omega arith)
third-lt top total (suc (suc (suc zero))) positive bounded h = absurd (omega arith)
third-lt top total (suc (suc (suc (suc n)))) positive bounded h = omega arith

one-le : (top total n : ℕ) → 0 < top → top ≤ total → total ≤ n * top → 0 < n
one-le top total zero positive h bounded = absurd (omega arith)
one-le top total (suc n) positive h bounded = omega arith

at_least-le :
    (top total n : ℕ)
    → 0 < top
    → top ≤ total
    → total ≤ n * top
    → at_least (verdict_of top total) ≤ n
unfolding at_least verdict_of
at_least-le top total n positive part bounded = elim (Bool-cases (ltb (60 * total) (100 * top))) [
  | inl e ↦ rw e (one-le top total n positive part bounded)
  | inr e ↦
      let many = share-lt top total n positive bounded (ltb-false→le (60 * total) (100 * top) e) in
      elim (Bool-cases (ltb (30 * total) (100 * top))) [
        | inl f ↦ rw (e, f) many
        | inr f ↦
            rw (e, f)
              (third-lt top total n positive bounded (ltb-false→le (30 * total) (100 * top) f))
      ]
]

-- Every delta is above 0.
busy_threads-positive :
    (before after : List (ℕ × ℕ)) → All (λ thread. 0 < ticks thread) (busy_threads before after)
unfolding busy_threads
busy_threads-positive before [] = tt
busy_threads-positive before ((tid, n) ∷ after) =
    elim (Bool-cases (ltb 0 (n - ticks_of before tid))) [
      | inl e ↦ rw e (ltb→lt 0 (n - ticks_of before tid) e, busy_threads-positive before after)
      | inr e ↦ rw e (busy_threads-positive before after)
    ]

-- As many as they are, they weigh.
length-le-sum_of :
    (threads : List (ℕ × ℕ))
    → All (λ thread. 0 < ticks thread) threads
    → length threads ≤ sum_of ticks threads
length-le-sum_of [] h = omega arith
length-le-sum_of (thread ∷ threads) (h, hs) = let rest = length-le-sum_of threads hs in omega arith

-- A sum is positive only if the highest of a sorted list is.
top-positive : (top rest n : ℕ) → 0 < top + rest → rest ≤ n * top → 0 < top
top-positive zero rest n h bounded = absurd (omega arith)
top-positive (suc top) rest n h bounded = omega arith

report_on-at_least :
    (ranked : List (ℕ × ℕ)) (total : ℕ) (report : Report)
    → IsDescending ticks ranked
    → sum_of ticks ranked ≡ total
    → length ranked ≤ total
    → report_on total ranked ≡ some report
    → (report.total ≡ total) × (at_least report.verdict ≤ length ranked)
unfolding report_on
report_on-at_least [] total report h sum large e = absurd (cc)
report_on-at_least (top ∷ ranked) total report (h, hs) sum large e =
    let bounded = sum_of_bounded ticks (ticks top) ranked h in
    let positive =
      top-positive (ticks top) (sum_of ticks ranked) (length ranked) (omega arith) bounded in
    let spent : total ≤ suc (length ranked) * ticks top = grind arith in
    let first : verdict_of (ticks top) total ≡ report.verdict = cc in
    let whole : total ≡ report.total = cc in
    (
      sym whole,
      rw (sym first)
          (at_least-le (ticks top) total (suc (length ranked)) positive (omega arith) spent),
    )

-- The number of threads that were busy.
abbrev pub num_busy : List (ℕ × ℕ) → List (ℕ × ℕ) → ℕ
num_busy before after = length (busy_threads before after)

-- A report's total is the ticks that the busy threads gained. Its verdict is CONCENTRATED exactly
-- if the most ticks that one of them gained are above 60 percent of the total, PARTIALLY
-- CONCENTRATED exactly if they are above 30 and at most 60 percent, and SPREAD exactly if they are
-- at most 30 percent. So PARTIALLY CONCENTRATED is said only if at least two threads were busy, and
-- SPREAD only if at least four were.
pub print_thread_report-at_least :
    (before after : List (ℕ × ℕ)) (report : Report)
    → print_thread_report before after ≡ some report
    → (report.total ≡ sum_of ticks (busy_threads before after))
      × IsShare report.verdict (highest (busy_threads before after)) report.total
      × (at_least report.verdict ≤ num_busy before after)
unfolding print_thread_report
print_thread_report-at_least before after report h =
    let busy = busy_threads before after in
    let same = length-sort_desc ticks busy in
    let (total, least) =
      report_on-at_least (sort_desc ticks busy) (sum_of ticks busy) report
        (sort_desc-IsDescending ticks busy) (sum_of-sort_desc ticks busy)
        (rw same (length-le-sum_of busy (busy_threads-positive before after))) h in
    let share =
      report_on-IsShare (sort_desc ticks busy) (sum_of ticks busy) report
        (sort_desc-IsDescending ticks busy) h in
    (total, rw (total, ← highest-sort_desc busy) share, rw (← same) least)
