-- ===== src/SnackBar/Sales.antt =====
-- What the sale route and the worker of fast_api_snack_bar/app do to the leaderboard, request by
-- request and with the requests interleaved at their `await`s.
use fun_with_dragonfly_db.Prelude.{
  ℕ, zero, suc, ◌+◌, ◌≡◌, refl, Bool-cases, ◌&&◌, Option, none, some, List, [], ◌∷◌, ◌++◌, inl, inr,
  if◌then◌else◌, arith, Text, text_eq, text_eq→eq,
}
use fun_with_dragonfly_db.SnackBar.{
  SortedSets, Limiter, Bar, Response, unknown_snack, sale, leaderboard_key, get, snack_rates,
  snacks, record_sale, hit_for, sell_at, sell, sell_each, run_worker,
}
use fun_with_dragonfly_db.SnackBar.Ranking.{sold}

-- The sales among the responses that were let through, for one snack.
unfoldable pub sales_of : Text → List Response → ℕ
sales_of snack [] = 0
sales_of snack (unknown_snack ∷ rest) = sales_of snack rest
sales_of snack (sale other ok remaining ∷ rest) =
    let n = sales_of snack rest in if ok && text_eq other snack then suc n else n

sales_of-append :
    (snack : Text) (front back : List Response)
    → sales_of snack (front ++ back) ≡ sales_of snack front + sales_of snack back
unfolding sales_of
sales_of-append snack [] back = omega arith
sales_of-append snack (unknown_snack ∷ front) back = sales_of-append snack front back
sales_of-append snack (sale other ok remaining ∷ front) back =
    ground (arith, sales_of-append snack front back)

module _ (zsets : SortedSets) (limiter : Limiter) where
  pub sold-record_sale :
      (name snack : Text) (db : zsets.Db)
      → sold zsets limiter (record_sale zsets limiter name db) snack
        ≡ sold zsets limiter db snack + (if text_eq name snack then 1 else 0)
  unfolding record_sale
  sold-record_sale name snack db = elim (Bool-cases (text_eq name snack)) [
    | inl e ↦
        rw
          (
            zsets.zscore-zincrby db leaderboard_key name 1 leaderboard_key snack,
            e,
            text_eq→eq name snack e,
          )
          refl
    | inr e ↦
        rw (zsets.zscore-zincrby db leaderboard_key name 1 leaderboard_key snack, e) (omega arith)
  ]

  -- One request adds its sale to the count, if it was let through, and nothing else.
  sold-sell_at :
      (name snack : Text) (rate : Option limiter.Rate) (bar : Bar zsets limiter)
      → sold zsets limiter ((sell_at zsets limiter name rate bar).1).db snack
        ≡ sold zsets limiter bar.db snack
          + sales_of snack ((sell_at zsets limiter name rate bar).0 ∷ [])
  unfolding sell_at sales_of
  sold-sell_at name snack none bar = omega arith
  sold-sell_at name snack (some rate) bar =
      elim (Bool-cases (hit_for zsets limiter name rate bar.limits).0.allowed) [
        | inl e ↦ rw e (sold-record_sale name snack bar.db)
        | inr e ↦ rw e (omega arith)
      ]

  sold-sell_each :
      (names : List Text) (snack : Text) (bar : Bar zsets limiter)
      → sold zsets limiter ((sell_each zsets limiter names bar).1).db snack
        ≡ sold zsets limiter bar.db snack + sales_of snack (sell_each zsets limiter names bar).0
  unfolding sell_each sell sales_of
  sold-sell_each [] snack bar = omega arith
  sold-sell_each (name ∷ names) snack bar =
      let first = sold-sell_at name snack (get (snack_rates zsets limiter) name) bar in
      let rest = sold-sell_each names snack (sell zsets limiter name bar).1 in
      let joined =
        sales_of-append snack ((sell zsets limiter name bar).0 ∷ [])
          (sell_each zsets limiter names (sell zsets limiter name bar).1).0 in
      omega (arith, first, rest, joined)

  -- However long the worker runs, the count of every snack has grown by exactly the number of its
  -- attempts that were answered with `sold`: a refused attempt, or one for another snack, adds
  -- nothing.
  pub sold-run_worker :
      (ticks : ℕ) (snack : Text) (bar : Bar zsets limiter)
      → sold zsets limiter ((run_worker zsets limiter ticks bar).1).db snack
        ≡ sold zsets limiter bar.db snack + sales_of snack (run_worker zsets limiter ticks bar).0
  unfolding run_worker sales_of
  sold-run_worker zero snack bar = omega arith
  sold-run_worker (suc ticks) snack bar =
      let after = (sell_each zsets limiter (snacks zsets limiter) bar).1 in
      let next : Bar zsets limiter = record after { limits = limiter.elapse after.limits } in
      let tick = sold-sell_each (snacks zsets limiter) snack bar in
      let rest = sold-run_worker ticks snack next in
      let joined =
        sales_of-append snack (sell_each zsets limiter (snacks zsets limiter) bar).0
          (run_worker zsets limiter ticks next).0 in
      omega (arith, tick, rest, joined)
