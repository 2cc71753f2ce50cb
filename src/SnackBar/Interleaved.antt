-- ===== src/SnackBar/Interleaved.antt =====
-- The requests of fast_api_snack_bar/app/main.py interleaved: a handler gives way between the hit
-- of the limiter and the ZINCRBY, so that other requests, the reads of the leaderboard and the
-- clock come in between. A handler may be cancelled or fail at either await: `unanswered` is one
-- whose hit counted without an answer, `cancelled` one that never reaches its ZINCRBY.
use fun_with_dragonfly_db.Prelude.{
  ℕ, suc, ◌+◌, ◌≤◌, ◌≡◌, refl, ap, sym, Bool, Bool-cases, true, false, none, some, List, [], ◌∷◌,
  ◌++◌, inl, inr, if◌then◌else◌, arith, Text, text_eq, text_eq_refl, ◌&&◌,
}
use fun_with_dragonfly_db.SnackBar.{
  SortedSets, Limiter, HitResult, Bar, leaderboard_key, get, snack_rates, record_sale, hit_for,
  sell_at, sell,
}
use fun_with_dragonfly_db.SnackBar.Ranking.{sold}
use fun_with_dragonfly_db.SnackBar.Sales.{sold-record_sale}

-- How often a snack stands in a list.
unfoldable pub occurrences : Text → List Text → ℕ
occurrences snack [] = 0
occurrences snack (other ∷ rest) =
    let n = occurrences snack rest in if text_eq other snack then suc n else n

occurrences-append :
    (snack : Text) (front back : List Text)
    → occurrences snack (front ++ back) ≡ occurrences snack front + occurrences snack back
unfolding occurrences
occurrences-append snack [] back = omega arith
occurrences-append snack (other ∷ front) back = ground (arith, occurrences-append snack front back)

-- How often the limiter allowed a snack, by the answers it gave.
unfoldable pub granted : Text → List (Text × HitResult) → ℕ
granted snack [] = 0
granted snack ((other, result) ∷ rest) =
    let n = granted snack rest in if text_eq other snack && result.allowed then suc n else n

-- A pending sale becomes a recorded one.
settled :
    (sales after front back joined whole lost total : ℕ) (same : Bool)
    → joined ≡ front + back
    → whole ≡ front + (if same then suc back else back)
    → after ≡ sales + (if same then 1 else 0)
    → sales + whole + lost ≡ total
    → after + joined + lost ≡ total
settled _ _ _ _ _ _ _ _ true h1 h2 h3 h4 = omega arith
settled _ _ _ _ _ _ _ _ false h1 h2 h3 h4 = omega arith

-- A pending sale is lost.
given_up :
    (sales front back joined whole lost total : ℕ) (same : Bool)
    → joined ≡ front + back
    → whole ≡ front + (if same then suc back else back)
    → sales + whole + lost ≡ total
    → sales + joined + (if same then suc lost else lost) ≡ total
given_up _ _ _ _ _ _ _ true h1 h2 h3 = omega arith
given_up _ _ _ _ _ _ _ false h1 h2 h3 = omega arith

module _ (zsets : SortedSets) (limiter : Limiter) where
  -- What the requests share, and the handlers that stand before their ZINCRBY. The other two are
  -- a record for the theorems: the answers that the limiter gave, the last one first, and the
  -- sales of handlers that were cancelled or failed before their ZINCRBY.
  pub record Floor : Type 0 where
    pub limits : limiter.Limits
    pub db : zsets.Db
    pub pending : List Text
    pub answers : List (Text × HitResult)
    pub dropped : List Text

  -- A handler's part up to the answer of the limiter.
  unfoldable pub attempt : Text → limiter.Rate → Floor → Floor
  attempt snack rate floor =
      let (result, limits) = hit_for zsets limiter snack rate floor.limits in
      if result.allowed
      then record floor { limits = limits; pending = snack ∷ floor.pending }
      else record floor { limits = limits }

  pub data Step : Floor → Floor → Type 0 where
    attempted :
        (snack : Text) (rate : limiter.Rate) (floor : Floor)
        → get (snack_rates zsets limiter) snack ≡ some rate
        → Step floor (record (attempt snack rate floor) {
          answers = (snack, (hit_for zsets limiter snack rate floor.limits).0) ∷ floor.answers;
        })
    unanswered :
        (snack : Text) (rate : limiter.Rate) (floor : Floor)
        → Step floor (record floor { limits = (hit_for zsets limiter snack rate floor.limits).1 })
    recorded :
        (snack : Text) (front back : List Text) (floor : Floor)
        → floor.pending ≡ front ++ (snack ∷ back)
        → Step floor (record floor {
          db = record_sale zsets limiter snack floor.db;
          pending = front ++ back;
        })
    cancelled :
        (snack : Text) (front back : List Text) (floor : Floor)
        → floor.pending ≡ front ++ (snack ∷ back)
        → Step floor (record floor { pending = front ++ back; dropped = snack ∷ floor.dropped })
    waited : (floor : Floor) → Step floor (record floor { limits = limiter.elapse floor.limits })

  pub data Run (start : Floor) : Floor → Type 0 where
    started : Run start start
    then_step : {floor next : Floor} → Run start floor → Step floor next → Run start next

  -- Every sale that the limiter allowed is counted, pending or dropped, and no other.
  abbrev pub IsBalanced : Floor → Type 0
  IsBalanced floor =
      (snack : Text)
      → sold zsets limiter floor.db snack
          + occurrences snack floor.pending
          + occurrences snack floor.dropped
        ≡ granted snack floor.answers

  Step-IsBalanced : {floor next : Floor} → Step floor next → IsBalanced floor → IsBalanced next
  unfolding attempt occurrences granted
  Step-IsBalanced (attempted snack rate floor h) balanced other =
      elim (Bool-cases (hit_for zsets limiter snack rate floor.limits).0.allowed) [
        | inl e ↦ rw e (elim (Bool-cases (text_eq snack other)) [
          | inl same ↦ rw same (let h' = balanced other in omega arith)
          | inr same ↦ rw same (balanced other)
        ])
        | inr e ↦ rw e (elim (Bool-cases (text_eq snack other)) [
          | inl same ↦ rw same (balanced other)
          | inr same ↦ rw same (balanced other)
        ])
      ]
  Step-IsBalanced (unanswered snack rate floor) balanced other = balanced other
  Step-IsBalanced (cancelled snack front back floor h) balanced other =
      let before : sold zsets limiter floor.db other
            + occurrences other (front ++ (snack ∷ back))
            + occurrences other floor.dropped
          ≡ granted other floor.answers =
        rw (sym h) (balanced other) in
      let apart = occurrences-append other front back in
      let whole = occurrences-append other front (snack ∷ back) in
      given_up _ _ _ _ _ _ _ (text_eq snack other) apart whole before
  Step-IsBalanced (recorded snack front back floor h) balanced other =
      let before : sold zsets limiter floor.db other
            + occurrences other (front ++ (snack ∷ back))
            + occurrences other floor.dropped
          ≡ granted other floor.answers =
        rw (sym h) (balanced other) in
      let apart = occurrences-append other front back in
      let whole = occurrences-append other front (snack ∷ back) in
      let more = sold-record_sale zsets limiter snack other floor.db in
      settled _ _ _ _ _ _ _ _ (text_eq snack other) apart whole more before
  Step-IsBalanced (waited floor) balanced other = balanced other

  Run-IsBalanced : {start floor : Floor} → Run start floor → IsBalanced start → IsBalanced floor
  Run-IsBalanced started balanced = balanced
  Run-IsBalanced (then_step run step) balanced = Step-IsBalanced step (Run-IsBalanced run balanced)

  -- The floor of a server with these scores, before any request.
  abbrev pub opened : Bar zsets limiter → Floor
  opened bar = record { limits = bar.limits; db = bar.db; pending = []; answers = []; dropped = [] }

  -- However the requests interleave, and whichever handlers are cancelled or fail before their
  -- ZINCRBY, from an empty leaderboard on: a snack's count, its handlers that stand between their
  -- hit and their ZINCRBY, and those that were cancelled or failed there are together exactly as
  -- many as the answers with which the limiter allowed it. So the count is never above the number
  -- of these answers, and equals it when no handler stands there and none was cancelled or failed.
  pub Run-counts :
      (bar : Bar zsets limiter) (floor : Floor) (snack : Text)
      → ((other : Text) → zsets.zscore bar.db leaderboard_key other ≡ none)
      → Run (opened bar) floor
      → (sold zsets limiter floor.db snack
            + occurrences snack floor.pending
            + occurrences snack floor.dropped
          ≡ granted snack floor.answers)
        × (sold zsets limiter floor.db snack ≤ granted snack floor.answers)
        × (floor.pending ≡ []
            → floor.dropped ≡ []
            → sold zsets limiter floor.db snack ≡ granted snack floor.answers)
  unfolding occurrences granted
  Run-counts bar floor snack empty run =
      let start : IsBalanced (opened bar) = λ other. rw (empty other) refl in
      let all = Run-IsBalanced run start snack in
      (
        all,
        omega arith,
        λ e f.
            let none_pending : occurrences snack floor.pending ≡ 0 = rw e refl in
            let none_dropped : occurrences snack floor.dropped ≡ 0 = rw f refl in omega arith,
      )

  sell_known :
      (snack : Text) (rate : limiter.Rate) (bar : Bar zsets limiter)
      → get (snack_rates zsets limiter) snack ≡ some rate
      → sell_at zsets limiter snack (some rate) bar ≡ sell zsets limiter snack bar
  unfolding sell
  sell_known snack rate bar known = ap (λ r. sell_at zsets limiter snack r bar) (sym known)

  -- The floor on which a request came to its end.
  abbrev pub IsServed : Text → limiter.Rate → Bar zsets limiter → Bar zsets limiter → Floor → Type 0
  IsServed snack rate bar after floor =
      (floor.limits ≡ after.limits)
      × (floor.db ≡ after.db)
      × (floor.pending ≡ [])
      × (floor.dropped ≡ [])
      × (floor.answers ≡ (snack, (hit_for zsets limiter snack rate bar.limits).0) ∷ [])
      × (granted snack floor.answers
          ≡ (if (hit_for zsets limiter snack rate bar.limits).0.allowed then 1 else 0))

  sell_at-Run :
      (snack : Text) (rate : limiter.Rate) (bar : Bar zsets limiter)
      → get (snack_rates zsets limiter) snack ≡ some rate
      → (floor : Floor) × Run (opened bar) floor
        × IsServed snack rate bar (sell_at zsets limiter snack (some rate) bar).1 floor
  unfolding sell_at attempt granted
  sell_at-Run snack rate bar known =
      let answer = (hit_for zsets limiter snack rate bar.limits).0 in
      let tried = record (attempt snack rate (opened bar)) { answers = (snack, answer) ∷ [] } in
      let run : Run (opened bar) tried =
        then_step started (attempted snack rate (opened bar) known) in
      elim (Bool-cases answer.allowed) [
        | inl e ↦
            let waiting : tried.pending ≡ [] ++ (snack ∷ []) = rw e refl in
            (
              record tried { db = record_sale zsets limiter snack tried.db; pending = [] },
              then_step run (recorded snack [] [] tried waiting),
              (rw e refl, rw e refl, refl, rw e refl, refl, rw (e, text_eq_refl snack) refl),
            )
        | inr e ↦ (
          tried,
          run,
          (rw e refl, rw e refl, rw e refl, rw e refl, refl, rw (e, text_eq_refl snack) refl),
        )
      ]

  -- A request of a known snack that no other request interrupts is a run of those steps: what the
  -- handler `sell` leaves behind is what they do, nothing stays pending or is dropped, the limiter
  -- answered once, and the sale is granted exactly if the limiter allows it.
  pub sell-Run :
      (snack : Text) (rate : limiter.Rate) (bar : Bar zsets limiter)
      → get (snack_rates zsets limiter) snack ≡ some rate
      → (floor : Floor) × Run (opened bar) floor
        × IsServed snack rate bar (sell zsets limiter snack bar).1 floor
  sell-Run snack rate bar known =
      rw (← sell_known snack rate bar known) (sell_at-Run snack rate bar known)
