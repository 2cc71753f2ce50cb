-- ===== src/Correlate/Sections.antt =====
-- The section of the slowest queries in the benchmark's log, as fqdnrules/correlate_iowait.py reads it.
use fun_with_dragonfly_db.Prelude.{
  ◌≡◌, Bool, true, false, Option, none, some, List, [], ◌∷◌, ◌++◌, Text, Result, ok, ◌>>=◌,
}
use fun_with_dragonfly_db.Correlate.{Formats, SlowQuery, to_query}
use fun_with_dragonfly_db.Correlate.Rows.{Groups, is_header, is_end, is_skipped, match_row}

module _ (formats : Formats) where
  open formats use {is_decimal}

  -- A line of the section: neither its header again, nor its end.
  abbrev pub IsInside : Text → Type 0
  IsInside line = (is_header is_decimal line ≡ false) × (is_end is_decimal line ≡ false)

  -- What a line is read as: no row, a row, or an error.
  abbrev pub row_of_line : Bool → Option Groups → Result (List (SlowQuery formats))
  row_of_line true found = ok []
  row_of_line false none = ok []
  row_of_line false (some m) = to_query formats m >>= λ row. ok (row ∷ [])

  -- The rows of lines, each read by itself; the first error is the result.
  abbrev pub rows_of : List Text → Result (List (SlowQuery formats))
  rows_of [] = ok []
  rows_of (line ∷ lines) = row_of_line (is_skipped line) (match_row is_decimal line) >>= λ front.
      rows_of lines >>= λ back. ok (front ++ back)
