-- ===== src/SnackBar/Ranking.antt =====
-- The order of the leaderboard of fast_api_snack_bar/app/leaderboard.py.
use fun_with_dragonfly_db.Prelude.{
  ℕ, ◌≡◌, refl, ap, ◌∙◌, List, [], ◌∷◌, map, IsDescending, with_key, sort_desc-IsDescending,
  with_key-sort_desc, Text,
}
use fun_with_dragonfly_db.SnackBar.{
  SortedSets, Limiter, Row, sort_rows, rows_from, score_or_zero, snacks, read_leaderboard,
  leaderboard_key,
}

-- The key of the sort.
abbrev pub count_of_row : Row → ℕ
count_of_row row = row.count

module _ (zsets : SortedSets) (limiter : Limiter) where
  -- What was sold of a snack: its score, 0 without one.
  abbrev pub sold : zsets.Db → Text → ℕ
  sold db snack = score_or_zero (zsets.zscore db leaderboard_key snack)

  -- The row of a snack.
  abbrev pub row_of : zsets.Db → Text → Row
  row_of db snack = record { snack = snack; count = sold db snack }

  rows_from-row_of :
      (db : zsets.Db) (names : List Text)
      → rows_from names (map (zsets.zscore db leaderboard_key) names) ≡ map (row_of db) names
  unfolding rows_from
  rows_from-row_of db [] = refl
  rows_from-row_of db (name ∷ names) =
      ap (λ rows. row_of db name ∷ rows) (rows_from-row_of db names)

  abbrev listed : zsets.Db → List Row
  listed db =
      rows_from (snacks zsets limiter) (zsets.zmscore db leaderboard_key (snacks zsets limiter))

  -- The leaderboard lists the rows of the known snacks, those without a sale too, each once with
  -- its score: no row has a higher count than one before it, and the rows of any one count stand
  -- in the order of `SNACK_RATES`.
  pub read_leaderboard-IsDescending :
      (db : zsets.Db)
      → IsDescending count_of_row (read_leaderboard zsets limiter db)
        × ((n : ℕ)
            → with_key count_of_row n (read_leaderboard zsets limiter db)
              ≡ with_key count_of_row n (map (row_of db) (snacks zsets limiter)))
  unfolding read_leaderboard sort_rows
  read_leaderboard-IsDescending db = (
    sort_desc-IsDescending count_of_row (listed db),
    λ n.
        with_key-sort_desc count_of_row n (listed db)
        ∙ ap (with_key count_of_row n) (
            rw (zsets.zmscore_law db leaderboard_key (snacks zsets limiter))
              (rows_from-row_of db (snacks zsets limiter))),
  )
