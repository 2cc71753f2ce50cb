-- ===== src/Correlate/Samples.antt =====
-- The samples that fqdnrules/correlate_iowait.py reads from the log of iostat.
use fun_with_dragonfly_db.Prelude.{
  ◌≡◌, refl, ap, sym, ◌∙◌, inl, inr, Bool-cases, Option, none, some, List, get_elem?, [], ◌∷◌, ◌++◌,
  map, append-nil, append_assoc, ltb, if◌then◌else◌, Text, length, drop, starts_with, codes,
  text_eq, length-map,
}
use fun_with_dragonfly_db.Pattern.{is_space, strip_end}
use fun_with_dragonfly_db.Diagnose.{words_of}
use fun_with_dragonfly_db.Correlate.{
  Formats, Time, parse_iso, IostatSample, Parsing, Mode, no_mode, cpu_header, dev_rows, no_samples,
  samples_of, begin_sample, read_cpu, read_device, read_values, read_line, other_line, step_line,
  all_samples, drop_first, parse_iostat, or_default,
}

module _ (formats : Formats) where
  -- The times of samples, in order.
  abbrev pub times_of : List (IostatSample formats) → List Time
  times_of samples = map (λ sample. sample.timestamp) samples

  abbrev times_so_far : Parsing formats → List Time
  times_so_far parsing = times_of (samples_of formats parsing.earlier parsing.current)

  read_values-timestamp :
      (mode : Mode) (dev_fields parts : List Text) (sample : IostatSample formats)
      → (read_values formats mode dev_fields parts sample).timestamp ≡ sample.timestamp
  unfolding read_values read_cpu read_device
  read_values-timestamp no_mode dev_fields parts sample = refl
  read_values-timestamp cpu_header dev_fields parts sample =
      elim (get_elem? parts 3)
        as (λ found.
          (elim found as (λ _. IostatSample formats) [
            | none ↦ sample
            | some part ↦ record sample {
              iowait_pct = or_default sample.iowait_pct (formats.parse_float part);
            }
          ]).timestamp
          ≡ sample.timestamp) [ none ↦ refl | some part ↦ refl ]
  read_values-timestamp dev_rows dev_fields [] sample = refl
  read_values-timestamp dev_rows dev_fields (name ∷ []) sample = refl
  read_values-timestamp dev_rows dev_fields (name ∷ part ∷ parts) sample = refl

  -- The last of the samples is replaced by one of the same time.
  same_times :
      (earlier : List (IostatSample formats)) (a b : IostatSample formats)
      → a.timestamp ≡ b.timestamp
      → times_of (earlier ++ (a ∷ [])) ≡ times_of (earlier ++ (b ∷ []))
  same_times [] a b h = ap (λ t. t ∷ []) h
  same_times (first ∷ earlier) a b h = ap (λ ts. first.timestamp ∷ ts) (same_times earlier a b h)

  other_line-times :
      (line : Text) (earlier : List (IostatSample formats))
      (current : Option (IostatSample formats)) (mode : Mode) (dev_fields : List Text)
      → times_so_far (
          other_line formats line current
            (record { earlier = earlier; current = current; mode = mode; dev_fields = dev_fields }))
        ≡ times_of (samples_of formats earlier current)
  unfolding other_line read_line
  other_line-times line earlier none mode dev_fields = refl
  other_line-times line earlier (some sample) no_mode dev_fields =
      elim (Bool-cases (starts_with line (codes "avg-cpu:"))) [
        | inl e ↦ rw e refl
        | inr e ↦ elim (Bool-cases (starts_with line (codes "Device"))) [
          | inl f ↦ rw (e, f) refl
          | inr f ↦
              rw (e, f)
                (same_times earlier (read_values formats no_mode dev_fields (words_of line) sample)
                  sample (read_values-timestamp no_mode dev_fields (words_of line) sample))
        ]
      ]
  other_line-times line earlier (some sample) dev_rows dev_fields =
      elim (Bool-cases (starts_with line (codes "avg-cpu:"))) [
        | inl e ↦ rw e refl
        | inr e ↦ elim (Bool-cases (starts_with line (codes "Device"))) [
          | inl f ↦ rw (e, f) refl
          | inr f ↦
              rw (e, f)
                (same_times earlier (read_values formats dev_rows dev_fields (words_of line) sample)
                  sample (read_values-timestamp dev_rows dev_fields (words_of line) sample))
        ]
      ]
  other_line-times line earlier (some sample) cpu_header dev_fields =
      elim (Bool-cases (starts_with line (codes "avg-cpu:"))) [
        | inl e ↦ rw e refl
        | inr e ↦ rw e (
            same_times earlier (read_values formats cpu_header dev_fields (words_of line) sample)
              sample (read_values-timestamp cpu_header dev_fields (words_of line) sample))
      ]

  -- What a line is a timestamp of.
  abbrev stamp : Text → Option Time
  stamp raw =
      let line = strip_end is_space raw in if text_eq line [] then none else parse_iso formats line

  times_of-append :
      (front back : List (IostatSample formats))
      → times_of (front ++ back) ≡ times_of front ++ times_of back
  times_of-append [] back = refl
  times_of-append (sample ∷ front) back =
      ap (λ ts. sample.timestamp ∷ ts) (times_of-append front back)

  abbrev stamp_list : Option Time → List Time
  stamp_list none = []
  stamp_list (some time) = time ∷ []

  step_line-times :
      (raw : Text) (parsing : Parsing formats)
      → times_so_far (step_line formats raw parsing)
        ≡ times_so_far parsing ++ stamp_list (stamp raw)
  unfolding step_line begin_sample
  step_line-times raw parsing = elim (Bool-cases (text_eq (strip_end is_space raw) [])) [
    | inl e ↦ rw e (sym (append-nil (times_so_far parsing)))
    | inr e ↦ rw e (stepped (parse_iso formats (strip_end is_space raw)))
  ]
    where
      stepped :
          (found : Option Time)
          → times_so_far (elim found as (λ _. Parsing formats) [
            | some time ↦ begin_sample formats time parsing
            | none ↦ other_line formats (strip_end is_space raw) parsing.current parsing
          ])
            ≡ times_so_far parsing ++ stamp_list found
      stepped none =
          other_line-times (strip_end is_space raw) parsing.earlier parsing.current parsing.mode
            parsing.dev_fields
          ∙ sym (append-nil (times_so_far parsing))
      stepped (some time) =
          times_of-append (samples_of formats parsing.earlier parsing.current)
            (record { timestamp = time; iowait_pct = formats.no_number; devices = [] } ∷ [])

  -- The timestamp lines of a log, in order.
  abbrev pub stamps : List Text → List Time
  stamps [] = []
  stamps (raw ∷ lines) = stamp_list (stamp raw) ++ stamps lines

  all_samples-times :
      (lines : List Text) (parsing : Parsing formats)
      → times_of (all_samples formats lines parsing) ≡ times_so_far parsing ++ stamps lines
  unfolding all_samples
  all_samples-times [] parsing = sym (append-nil (times_so_far parsing))
  all_samples-times (raw ∷ lines) parsing =
      all_samples-times lines (step_line formats raw parsing)
      ∙ ap (λ ts. ts ++ stamps lines) (step_line-times raw parsing)
      ∙ append_assoc (times_so_far parsing) (stamp_list (stamp raw)) (stamps lines)

  times_of-drop :
      (samples : List (IostatSample formats))
      → times_of (drop 1 samples) ≡ drop 1 (times_of samples)
  times_of-drop [] = refl
  times_of-drop (sample ∷ samples) = refl

  times_of-drop_first :
      (samples : List (IostatSample formats)) (times : List Time)
      → times_of samples ≡ times
      → times_of (drop_first formats samples)
        ≡ (if ltb 1 (length times) then drop 1 times else times)
  unfolding drop_first
  times_of-drop_first samples times h =
      let same : length samples ≡ length times =
        sym (length-map (λ sample. sample.timestamp) samples) ∙ ap length h in
      rw same (elim (Bool-cases (ltb 1 (length times))) [
        | inl e ↦ rw e (times_of-drop samples ∙ ap (drop 1) h)
        | inr e ↦ rw e h
      ])

  -- The samples of a log are those of its timestamp lines, each once and in their order, whatever
  -- stands between them; the first, which counts from the boot, is left out unless it is the only
  -- one.
  pub parse_iostat-times :
      (lines : List Text)
      → times_of (parse_iostat formats lines)
        ≡ (if ltb 1 (length (stamps lines)) then drop 1 (stamps lines) else stamps lines)
  unfolding parse_iostat
  parse_iostat-times lines =
      times_of-drop_first (all_samples formats lines (no_samples formats)) (stamps lines)
        (all_samples-times lines (no_samples formats))
