-- ===== src/Correlate.antt =====
-- fqdnrules/correlate_iowait.py: the parsers of the benchmark's and of iostat's log, and the choice of
-- the sample that is closest in time. A log is its list of lines. Floats, `int`, `float` and
-- `datetime.fromisoformat` are parameters.
pub mod Rows
pub mod Iso
pub mod Sections
pub mod Samples
pub mod Closest
use fun_with_dragonfly_db.Prelude.{
  ℕ, ◌+◌, ◌*◌, ◌-◌, ◌==◌, Bool, true, false, not, Option, none, some, List, [], ◌∷◌, ◌++◌, ltb, leb,
  if◌then◌else◌, Text, codes, text_eq, starts_with, drop, get_elem?, or_else, length, Result, ok,
  err, value_error, type_error, ◌>>=◌,
}
use fun_with_dragonfly_db.Pattern.{is_space, strip_end}
use fun_with_dragonfly_db.Diagnose.{words_of}
use fun_with_dragonfly_db.Correlate.Iso.{iso_match}
use fun_with_dragonfly_db.Correlate.Rows.{Groups, strip, is_skipped, is_header, is_end, match_row}

-- `mode` of `parse_iostat`
pub data Mode : Type 0 where
  no_mode cpu_header dev_rows : Mode

-- A datetime: with a time zone or without, and its microseconds from an origin two days before all of them,
-- in UTC if it has a zone.
pub record Time : Type 0 where
  pub aware : Bool
  pub micros : ℕ

abbrev pub same_kind : Bool → Bool → Bool
same_kind true b = b
same_kind false b = not b

-- `abs((a - b).total_seconds())`, in microseconds: the difference of a datetime with a zone and one
-- without is a TypeError.
unfoldable pub abs_difference : Time → Time → Result ℕ
abs_difference a b =
    if same_kind a.aware b.aware
    then ok (if leb b.micros a.micros then a.micros - b.micros else b.micros - a.micros)
    else err type_error

-- The floats and the conversions are parameters: `parse_int`, `fromisoformat` and `parse_float` are
-- None where `int`, `datetime.fromisoformat` and `float` raise ValueError.
pub record Formats : Type 1 where
  pub Number : Type 0
  pub no_number : Number
  pub is_decimal : ℕ → Bool
  pub parse_int : Text → Option ℕ
  pub fromisoformat : Text → Option Time
  pub parse_float : Text → Option Number

abbrev pub or_raise {ℓ} : {A : Type ℓ} → Option A → Result A
or_raise none = err value_error
or_raise (some x) = ok x

abbrev pub or_default {ℓ} : {A : Type ℓ} → A → Option A → A
or_default x none = x
or_default x (some y) = y

-- `devices[name] = value`
unfoldable pub set_item {ℓ} :
    {Value : Type ℓ} → Text → Value → List (Text × Value) → List (Text × Value)
set_item name value [] = (name, value) ∷ []
set_item name value ((name', value') ∷ items) =
    let rest = set_item name value items in
    if text_eq name' name then (name', value) ∷ items else (name', value') ∷ rest

-- `dict(zip(dev_fields, parts)).get(name)`: of two fields of one name the last counts.
unfoldable pub field_of : Text → List Text → List Text → Option Text
field_of name (f ∷ fs) (part ∷ parts) =
    or_else (field_of name fs parts) (if text_eq f name then some part else none)
field_of name fs parts = none

-- `base.replace(tzinfo=timezone(delta))`, of a delta in minutes: one of a day or more is a
-- ValueError.
unfoldable pub with_zone : Option Time → ℕ → Option ℕ → Option ℕ → Option Time
with_zone (some base) sign (some hours) (some minutes) =
    let offset = hours * 60 + minutes in
    let delta = offset * 60000000 in
    if ltb offset 1440
    then some (record {
      aware = true;
      micros = if sign == b'-' then base.micros + delta else base.micros - delta;
    })
    else none
with_zone base sign hours minutes = none

module _ (formats : Formats) where
  open formats use {Number, no_number, is_decimal, parse_int, fromisoformat, parse_float}

  -- `parse_iso`: None where it raises ValueError.
  unfoldable pub parse_iso : Text → Option Time
  unfolding iso_match with_zone
  parse_iso ts = elim (iso_match is_decimal (strip ts)) [
    | none ↦ fromisoformat (strip ts)
    | some m ↦ with_zone (fromisoformat m.base) m.sign (parse_int m.oh) (parse_int m.om)
  ]

  pub record SlowQuery : Type 0 where
    pub rank : ℕ
    pub timestamp : Time
    pub latency_ms : Number
    pub op : Text
    pub detail : Text

  -- `SlowQuery(...)` of a row that matches: a rank, a time or a latency that cannot be converted is
  -- a ValueError.
  unfoldable pub to_query : Groups → Result SlowQuery
  to_query m = do
    rank ← or_raise (parse_int m.rank)
    timestamp ← or_raise (parse_iso m.ts)
    latency_ms ← or_raise (parse_float m.lat)
    ok (record {
      rank = rank;
      timestamp = timestamp;
      latency_ms = latency_ms;
      op = m.op;
      detail = strip m.detail;
    })

  -- `parse_top_slow` inside of the section.
  unfoldable pub section_rows : List Text → Result (List SlowQuery)
  unfolding to_query match_row
  section_rows [] = ok []
  section_rows (line ∷ lines) =
      let rest = section_rows lines in
      if is_header is_decimal line
      then rest
      else (if is_end is_decimal line
          then ok []
          else (if is_skipped line then rest else elim (match_row is_decimal line) [
            | none ↦ rest
            | some m ↦ do row ← to_query m; rows ← rest; ok (row ∷ rows)
          ]))

  -- `parse_top_slow`: nothing is taken before the header.
  unfoldable pub parse_top_slow : List Text → Result (List SlowQuery)
  unfolding section_rows
  parse_top_slow [] = ok []
  parse_top_slow (line ∷ lines) =
      let rest = parse_top_slow lines in
      if is_header is_decimal line then section_rows lines else rest

  pub record IostatSample : Type 0 where
    pub timestamp : Time
    pub iowait_pct : Number
    pub devices : List (Text × (Number × Number))

  -- The locals of `parse_iostat`: `current` is the last of the samples.
  pub record Parsing : Type 0 where
    pub earlier : List IostatSample
    pub current : Option IostatSample
    pub mode : Mode
    pub dev_fields : List Text

  abbrev pub no_samples : Parsing
  no_samples = record { earlier = []; current = none; mode = no_mode; dev_fields = [] }

  -- `samples`
  abbrev pub samples_of : List IostatSample → Option IostatSample → List IostatSample
  samples_of earlier none = earlier
  samples_of earlier (some sample) = earlier ++ (sample ∷ [])

  -- A timestamp begins a sample.
  unfoldable pub begin_sample : Time → Parsing → Parsing
  begin_sample time parsing = record parsing {
    earlier = samples_of parsing.earlier parsing.current;
    current = some (record { timestamp = time; iowait_pct = no_number; devices = [] });
    mode = no_mode;
  }

  -- `float(parts[3])`, if there is one.
  unfoldable pub read_cpu : List Text → IostatSample → IostatSample
  read_cpu parts sample = elim (get_elem? parts 3) [
    | none ↦ sample
    | some part ↦ record sample { iowait_pct = or_default sample.iowait_pct (parse_float part) }
  ]

  -- The float of a field, 0.0 without one.
  abbrev pub float_of : Option Text → Number
  float_of none = no_number
  float_of (some part) = or_default no_number (parse_float part)

  -- A row of a device.
  unfoldable pub read_device : List Text → List Text → IostatSample → IostatSample
  unfolding field_of set_item
  read_device dev_fields [] sample = sample
  read_device dev_fields (name ∷ []) sample = sample
  read_device dev_fields (name ∷ part ∷ parts) sample =
      let row = name ∷ part ∷ parts in
      let util = field_of (codes "%util") dev_fields row in
      let await_ =
        or_else (field_of (codes "await") dev_fields row)
          (field_of (codes "r_await") dev_fields row) in
      record sample { devices = set_item name (float_of util, float_of await_) sample.devices }

  -- What a line that is neither a timestamp nor a header does to the current sample.
  unfoldable pub read_values : Mode → List Text → List Text → IostatSample → IostatSample
  unfolding read_cpu read_device
  read_values no_mode dev_fields parts sample = sample
  read_values cpu_header dev_fields parts sample = read_cpu parts sample
  read_values dev_rows dev_fields parts sample = read_device dev_fields parts sample

  -- `mode` after such a line.
  abbrev pub next_mode : Mode → Mode
  next_mode no_mode = no_mode
  next_mode cpu_header = no_mode
  next_mode dev_rows = dev_rows

  -- A line of the current sample: in `cpu-header` mode the values come before the `Device` test.
  unfoldable pub read_line : Text → Mode → IostatSample → Parsing → Parsing
  unfolding read_values
  read_line line cpu_header sample parsing =
      if starts_with line (codes "avg-cpu:")
      then record parsing { mode = cpu_header }
      else record parsing {
        current = some (read_values cpu_header parsing.dev_fields (words_of line) sample);
        mode = no_mode;
      }
  read_line line mode sample parsing =
      if starts_with line (codes "avg-cpu:")
      then record parsing { mode = cpu_header }
      else (if starts_with line (codes "Device")
          then record parsing { dev_fields = words_of line; mode = dev_rows }
          else record parsing {
            current = some (read_values mode parsing.dev_fields (words_of line) sample);
          })

  -- A line that is no timestamp.
  unfoldable pub other_line : Text → Option IostatSample → Parsing → Parsing
  unfolding read_line
  other_line line none parsing = parsing
  other_line line (some sample) parsing = read_line line parsing.mode sample parsing

  -- One round of the loop.
  unfoldable pub step_line : Text → Parsing → Parsing
  unfolding begin_sample other_line
  step_line raw parsing =
      let line = strip_end is_space raw in
      if text_eq line [] then parsing else elim (parse_iso line) [
        | some time ↦ begin_sample time parsing
        | none ↦ other_line line parsing.current parsing
      ]

  unfoldable pub all_samples : List Text → Parsing → List IostatSample
  unfolding step_line
  all_samples [] parsing = samples_of parsing.earlier parsing.current
  all_samples (line ∷ lines) parsing = all_samples lines (step_line line parsing)

  -- `samples[1:] if len(samples) > 1 else samples`
  unfoldable pub drop_first : List IostatSample → List IostatSample
  drop_first samples = if ltb 1 (length samples) then drop 1 samples else samples

  unfoldable pub parse_iostat : List Text → List IostatSample
  unfolding all_samples drop_first
  parse_iostat lines = drop_first (all_samples lines no_samples)

  -- `min(samples, key=...)`: the first of the lowest, from the best so far and its key on.
  unfoldable pub closest_from : Time → IostatSample → ℕ → List IostatSample → Result IostatSample
  unfolding abs_difference
  closest_from time best lowest [] = ok best
  closest_from time best lowest (sample ∷ samples) = do
    d ← abs_difference sample.timestamp time
    closest_from time (if ltb d lowest then sample else best) (if ltb d lowest then d else lowest)
        samples

  unfoldable pub closest_sample : List IostatSample → Time → Result (Option IostatSample)
  unfolding closest_from
  closest_sample [] time = ok none
  closest_sample (sample ∷ samples) time = do
    d ← abs_difference sample.timestamp time
    best ← closest_from time sample d samples
    ok (some best)
