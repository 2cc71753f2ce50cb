-- ===== src/Correlate/Rows.antt =====
-- The lines that fqdnrules/correlate_iowait.py looks for in the benchmark's log, and its two
-- regular expressions. What `\d` stands for, the decimal digits of Unicode, is a parameter: neither
-- a space, nor a point, nor a letter is one. `\s` stands for the white space that `strip` removes.
use fun_with_dragonfly_db.Prelude.{
  ℕ, ◌||◌, ◌&&◌, ◌==◌, not, Bool, false, Option, none, some, [], ◌∷◌, if◌then◌else◌, Text, codes,
  text_eq, starts_with, drop, or_else,
}
use fun_with_dragonfly_db.Pattern.{is_space, strip_front, strip_end}

-- `line.strip()`
abbrev pub strip : Text → Text
strip line = strip_end is_space (strip_front is_space line)

-- A line of the section that is passed over before the row is matched.
unfoldable pub is_skipped : Text → Bool
is_skipped line =
    let stripped = strip line in
    text_eq stripped [] || starts_with stripped (codes "keys:") || starts_with stripped (codes "(")

-- The first character is one that `p` accepts.
abbrev pub starts_in : (ℕ → Bool) → Text → Bool
starts_in p [] = false
starts_in p (c ∷ s) = p c

-- As many characters as `p` accepts, where `strip_front p` is what follows them.
unfoldable pub front_of : (ℕ → Bool) → Text → Text
front_of p [] = []
front_of p (c ∷ s) = let rest = front_of p s in if p c then c ∷ rest else []

-- The groups of TOP_SLOW_ROW_RE.
pub record Groups : Type 0 where
  pub rank : Text
  pub ts : Text
  pub lat : Text
  pub op : Text
  pub detail : Text

-- `\s+(?P<detail>fqdn1=.*)$`
unfoldable pub detail_of : Text → Option Text
detail_of s =
    let rest = strip_front is_space s in
    if starts_in is_space s && starts_with rest (codes "fqdn1=") then some rest else none

abbrev pub add_to_op : ℕ → Option (Text × Text) → Option (Text × Text)
add_to_op c none = none
add_to_op c (some (op, detail)) = some (c ∷ op, detail)

-- `(?P<op>.+?)` and what follows: the shortest that is followed by a detail.
unfoldable pub op_and_detail : Text → Option (Text × Text)
unfolding detail_of
op_and_detail [] = none
op_and_detail (c ∷ s) =
    let longer = add_to_op c (op_and_detail s) in
    elim (detail_of s) [ some detail ↦ some (c ∷ [], detail) | none ↦ longer ]

-- `\s+` and what follows: as many blanks as there are, or fewer if this does not match.
unfoldable pub after_blanks : Text → Option (Text × Text)
unfolding op_and_detail
after_blanks [] = none
after_blanks (c ∷ s) =
    let more = after_blanks s in if is_space c then or_else more (op_and_detail s) else none

abbrev pub to_groups : Text → Text → Text → Option (Text × Text) → Option Groups
to_groups rank ts lat none = none
to_groups rank ts lat (some (op, detail)) =
    some (record { rank = rank; ts = ts; lat = lat; op = op; detail = detail })

module _ (is_decimal : ℕ → Bool) where
  -- `TOP_SLOW_HEADER_RE.match`
  unfoldable pub is_header : Text → Bool
  is_header line =
      let number = drop 8 line in
      starts_with line (codes "=== Top ")
      && starts_in is_decimal number
      && starts_with (strip_front is_decimal number) (codes " slowest queries")

  -- The line that ends the section.
  unfoldable pub is_end : Text → Bool
  unfolding is_header
  is_end line = starts_with line (codes "===") && not (is_header line)

  -- `TOP_SLOW_ROW_RE.match`
  unfoldable pub match_row : Text → Option Groups
  unfolding front_of after_blanks
  match_row line =
      let is_visible = (λ (c : ℕ). not (is_space c)) in
      let is_latency = (λ (c : ℕ). is_decimal c || c == b'.') in
      let number = strip_front is_space line in
      let point = strip_front is_decimal number in
      let blank = drop 1 point in
      let time = strip_front is_space blank in
      let blank' = strip_front is_visible time in
      let latency = strip_front is_space blank' in
      let unit = strip_front is_latency latency in
      if starts_in is_decimal number
        && starts_with point (codes ".")
        && starts_in is_space blank
        && starts_in is_visible time
        && starts_in is_space blank'
        && starts_in is_latency latency
        && starts_with unit (codes "ms")
      then to_groups (front_of is_decimal number) (front_of is_visible time)
          (front_of is_latency latency) (after_blanks (drop 2 unit))
      else none
