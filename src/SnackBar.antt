-- ===== src/SnackBar.antt =====
-- fast_api_snack_bar/app: the snacks_sold leaderboard (leaderboard.py), the sale route (main.py) and
-- the simulator that calls it (worker.py). The sorted sets of the server and the rate limiter of
-- redis_fastapi are interfaces.
pub mod Ranking
pub mod Sales
pub mod Interleaved
use fun_with_dragonfly_db.Prelude.{
  ℕ, zero, suc, ◌+◌, ◌≡◌, Bool, true, false, ◌&&◌, Option, none, some, List, [], ◌∷◌, ◌++◌, map,
  sort_desc, if◌then◌else◌, Text, codes, text_eq,
}

-- `score or 0`
abbrev pub score_or_zero : Option ℕ → ℕ
score_or_zero none = 0
score_or_zero (some score) = score

-- The sorted sets, with the documented effect of ZINCRBY on what ZSCORE reads. The scores that
-- the program makes are whole numbers.
pub record SortedSets : Type 1 where
  pub Db : Type 0
  pub zscore : Db → Text → Text → Option ℕ
  pub zmscore : Db → Text → List Text → List (Option ℕ)
  pub zincrby : Text → ℕ → Text → Db → Db
  -- ZMSCORE answers as a ZSCORE of each member.
  pub zmscore_law : (db : Db) (k : Text) (ms : List Text) → zmscore db k ms ≡ map (zscore db k) ms
  -- ZINCRBY adds to one member of one key; a member that is missing counts as 0.
  pub zscore-zincrby :
      (db : Db) (k m : Text) (n : ℕ) (k' m' : Text)
      → zscore (zincrby k n m db) k' m' ≡ (
          if text_eq k k' && text_eq m m'
          then some (score_or_zero (zscore db k m) + n)
          else zscore db k' m')

-- What a limiter answers to a hit.
pub record HitResult : Type 0 where
  pub allowed : Bool
  pub remaining : ℕ

-- `Rate` and the rate limit backend of redis_fastapi. `elapse` is what time does to its windows.
pub record Limiter : Type 1 where
  pub Rate : Type 0
  pub per_second : ℕ → Rate
  pub limit : Rate → ℕ
  pub window : Rate → ℕ
  pub Limits : Type 0
  pub hit : Text → ℕ → ℕ → Text → Limits → HitResult × Limits
  pub elapse : Limits → Limits

-- `{"snack": ..., "count": ...}`
pub record Row : Type 0 where
  pub snack : Text
  pub count : ℕ

-- `rows.sort(key=lambda row: row["count"], reverse=True)`
unfoldable pub sort_rows : List Row → List Row
unfolding sort_desc
sort_rows rows = sort_desc (λ row. row.count) rows

-- The comprehension over `zip(snacks, scores)`.
unfoldable pub rows_from : List Text → List (Option ℕ) → List Row
rows_from (snack ∷ snacks) (score ∷ scores) =
    record { snack = snack; count = score_or_zero score } ∷ rows_from snacks scores
rows_from snacks scores = []

-- What the sale route answers: HTTP 404, or the fields of its dictionary.
pub data Response : Type 0 where
  unknown_snack : Response
  sale : (snack : Text) (sold : Bool) (remaining : ℕ) → Response

abbrev pub leaderboard_key : Text
leaderboard_key = codes "snacks_sold"

-- `dict.get`
unfoldable pub get {ℓ} : {Value : Type ℓ} → List (Text × Value) → Text → Option Value
get [] key = none
get ((key', value) ∷ items) key =
    let rest = get items key in if text_eq key' key then some value else rest

module _ (zsets : SortedSets) (limiter : Limiter) where
  -- `SNACK_RATES`
  abbrev pub snack_rates : List (Text × limiter.Rate)
  snack_rates =
      (codes "Apples", limiter.per_second 1)
      ∷ (codes "Bananas", limiter.per_second 2)
      ∷ (codes "Ice-Cream", limiter.per_second 10)
      ∷ []

  -- `list(SNACK_RATES)`
  abbrev pub snacks : List Text
  snacks = map (λ item. item.0) snack_rates

  unfoldable pub record_sale : Text → zsets.Db → zsets.Db
  record_sale snack db = zsets.zincrby leaderboard_key 1 snack db

  unfoldable pub read_leaderboard : zsets.Db → List Row
  unfolding sort_rows rows_from
  read_leaderboard db = sort_rows (rows_from snacks (zsets.zmscore db leaderboard_key snacks))

  -- What the requests share.
  pub record Bar : Type 0 where
    pub limits : limiter.Limits
    pub db : zsets.Db

  -- `limiter.hit` of the sale route.
  abbrev pub hit_for : Text → limiter.Rate → limiter.Limits → HitResult × limiter.Limits
  hit_for snack rate limits =
      limiter.hit (codes "worker") (limiter.limit rate) (limiter.window rate)
        (codes "sell:" ++ snack) limits

  unfoldable pub sell_at : Text → Option limiter.Rate → Bar → Response × Bar
  unfolding record_sale
  sell_at snack none bar = (unknown_snack, bar)
  sell_at snack (some rate) bar =
      let (result, limits) = hit_for snack rate bar.limits in
      let db = if result.allowed then record_sale snack bar.db else bar.db in
      (sale snack result.allowed result.remaining, record { limits = limits; db = db })

  unfoldable pub sell : Text → Bar → Response × Bar
  unfolding sell_at get
  sell snack bar = sell_at snack (get snack_rates snack) bar

  -- Requests that come one after another, and what they are answered.
  unfoldable pub sell_each : List Text → Bar → List Response × Bar
  unfolding sell
  sell_each [] bar = ([], bar)
  sell_each (snack ∷ rest) bar =
      let (response, bar') = sell snack bar in
      let (responses, bar'') = sell_each rest bar' in (response ∷ responses, bar'')

  -- Ticks of `run_worker`: an attempt for every snack, then the sleep.
  unfoldable pub run_worker : ℕ → Bar → List Response × Bar
  unfolding sell_each
  run_worker zero bar = ([], bar)
  run_worker (suc ticks) bar =
      let (responses, bar') = sell_each snacks bar in
      let (more, bar'') = run_worker ticks (record bar' { limits = limiter.elapse bar'.limits }) in
      (responses ++ more, bar'')
