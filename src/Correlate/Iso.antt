-- ===== src/Correlate/Iso.antt =====
-- ISO_RE of fqdnrules/correlate_iowait.py: a date, a time and an offset such as `-05:00` or `+0000`.
use fun_with_dragonfly_db.Prelude.{
  ℕ, ◌||◌, ◌&&◌, ◌==◌, Bool, true, false, Option, none, some, List, [], ◌∷◌, ◌++◌, if◌then◌else◌,
  Text, drop, text_eq, take,
}
use fun_with_dragonfly_db.Pattern.{strip_front}
use fun_with_dragonfly_db.Correlate.Rows.{starts_in, front_of}

pub record IsoGroups : Type 0 where
  pub base : Text
  pub sign : ℕ
  pub oh : Text
  pub om : Text

-- The text begins with characters of these classes.
unfoldable pub fits : List (ℕ → Bool) → Text → Bool
fits [] s = true
fits (p ∷ ps) [] = false
fits (p ∷ ps) (c ∷ s) = p c && fits ps s

abbrev pub char : ℕ → ℕ → Bool
char c d = d == c

abbrev pub without_colon : Text → Text
without_colon [] = []
without_colon (c ∷ s) = if c == b':' then s else c ∷ s

module _ (is_decimal : ℕ → Bool) where
  -- `\d{2}`
  abbrev pub digit_pair : List (ℕ → Bool)
  digit_pair = is_decimal ∷ is_decimal ∷ []

  -- `\d{4}-\d{2}-\d{2}T\d{2}:\d{2}:\d{2}`
  abbrev pub base_classes : List (ℕ → Bool)
  base_classes =
      digit_pair
      ++ (digit_pair
          ++ (char b'-'
              ∷ (digit_pair
                  ++ (char b'-'
                      ∷ (digit_pair
                          ++ (char b'T'
                              ∷ (digit_pair
                                  ++ (char b':' ∷ (digit_pair ++ (char b':' ∷ digit_pair))))))))))

  -- `(?:\.\d+)?`
  unfoldable pub fraction : Text → Text
  unfolding front_of
  fraction [] = []
  fraction (c ∷ s) = if c == b'.' && starts_in is_decimal s then c ∷ front_of is_decimal s else []

  unfoldable pub after_fraction : Text → Text
  after_fraction [] = []
  after_fraction (c ∷ s) =
      if c == b'.' && starts_in is_decimal s then strip_front is_decimal s else c ∷ s

  -- `(?P<sign>[+-])(?P<oh>\d{2}):?(?P<om>\d{2})$`
  unfoldable pub offset_of : Text → Text → Option IsoGroups
  unfolding fits
  offset_of base [] = none
  offset_of base (c ∷ s) =
      let minutes = without_colon (drop 2 s) in
      if (c == b'+' || c == b'-')
        && fits digit_pair s
        && fits digit_pair minutes
        && text_eq (drop 2 minutes) []
      then some (record { base = base; sign = c; oh = take 2 s; om = take 2 minutes })
      else none

  -- `ISO_RE.match`
  unfoldable pub iso_match : Text → Option IsoGroups
  unfolding fraction after_fraction offset_of
  iso_match s =
      let rest = drop 19 s in
      if fits base_classes s
      then offset_of (take 19 s ++ fraction rest) (after_fraction rest)
      else none
