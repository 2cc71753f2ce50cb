-- ===== src/Tests/ToolTests.antt =====
-- Examples for the web application of fast_api_snack_bar, for the scripts that diagnose a server, and for
-- the histogram of a keyspace.
use fun_with_dragonfly_db.Prelude.{
  ℕ, ◌+◌, ◌-◌, ◌≤◌, ◌≡◌, refl, true, false, ◌&&◌, Option, none, some, List, [], ◌∷◌, map, arith,
  ltb, leb, if◌then◌else◌, Text, codes, text_eq, All, length, drop, decimal, IsDescending, with_key,
  sum_of, Result, starts_with, Lacks, ok, err, value_error, type_error, join, ◌⊎◌,
}
use fun_with_dragonfly_db.SnackBar.{
  SortedSets, Limiter, Bar, score_or_zero, snacks, read_leaderboard, run_worker, sell, snack_rates,
  get,
}
use fun_with_dragonfly_db.SnackBar.Ranking.{
  sold, row_of, count_of_row, read_leaderboard-IsDescending,
}
use fun_with_dragonfly_db.SnackBar.Sales.{sales_of, sold-run_worker}
use fun_with_dragonfly_db.SnackBar.Interleaved.{
  Floor, Run, started, then_step, attempted, cancelled, attempt, opened, occurrences, granted,
  IsServed, Run-counts, sell-Run,
}
use fun_with_dragonfly_db.Histogram.{tally_keys, printed_counts, empty_histogram}
use fun_with_dragonfly_db.Histogram.Intervals.{
  measured, number_of, between, printed_counts-tally_keys,
}
use fun_with_dragonfly_db.Diagnose.{
  Report, Verdict, busy_threads, print_thread_report, ticks, thread_ticks,
}
use fun_with_dragonfly_db.Diagnose.Shares.{
  at_least, highest, num_busy, IsShare, print_thread_report-at_least,
}
use fun_with_dragonfly_db.Diagnose.Stat.{IsWord, stat_line, thread_ticks-stat_line}
use fun_with_dragonfly_db.Pattern.{strip_front, strip_end}
use fun_with_dragonfly_db.Correlate.{
  Time, Formats, parse_iso, IostatSample, parse_iostat, section_rows, parse_top_slow,
  closest_sample, closest_from, abs_difference,
}
use fun_with_dragonfly_db.Correlate.Rows.{is_header, is_end, is_skipped, match_row}
use fun_with_dragonfly_db.Correlate.Iso.{iso_match}
use fun_with_dragonfly_db.Correlate.Samples.{times_of, stamps, parse_iostat-times}
use fun_with_dragonfly_db.Correlate.Closest.{
  IsComparable, HasStranger, IsClosest, closest_sample-IsClosest,
}
use fun_with_dragonfly_db.Pinning.{ClientRow, pinned, case_result, verdict_for}
use fun_with_dragonfly_db.Pinning.OneThread.{IsOn, clients_between, verdict_for-pinned}

-- Sorted sets in memory.
abbrev Scores : Type 0
Scores = Text → Text → Option ℕ

abbrev zsets : SortedSets
zsets = record {
  Db = Scores;
  zscore = λ db k m. db k m;
  zmscore = λ db k ms. map (db k) ms;
  zincrby = λ k n m db k' m'.
      if text_eq k k' && text_eq m m' then some (score_or_zero (db k m) + n) else db k' m';
  zmscore_law = λ db k ms. refl;
  zscore-zincrby = λ db k m n k' m'. refl;
}

abbrev no_scores : Scores
no_scores k m = none

-- A limiter that has a number of hits left for all scopes together, and gets them back in time.
abbrev hits_left : Limiter
hits_left = record {
  Rate = ℕ;
  per_second = λ n. n;
  limit = λ rate. rate;
  window = λ rate. 1;
  Limits = ℕ;
  hit = λ name limit window scope left.
      (record { allowed = ltb 0 left; remaining = left - 1 }, left - 1);
  elapse = λ left. 2;
}

abbrev bar : Bar zsets hits_left
bar = record { limits = 2; db = no_scores }

abbrev apples : Text
apples = codes "Apples"

read_leaderboard-IsDescending_example :
    IsDescending count_of_row (read_leaderboard zsets hits_left no_scores)
    × ((n : ℕ)
        → with_key count_of_row n (read_leaderboard zsets hits_left no_scores)
          ≡ with_key count_of_row n
              (map (row_of zsets hits_left no_scores) (snacks zsets hits_left)))
read_leaderboard-IsDescending_example = read_leaderboard-IsDescending zsets hits_left no_scores

sold-run_worker_example :
    sold zsets hits_left ((run_worker zsets hits_left 3 bar).1).db apples
    ≡ sold zsets hits_left no_scores apples + sales_of apples (run_worker zsets hits_left 3 bar).0
sold-run_worker_example = sold-run_worker zsets hits_left 3 apples bar

apples_known : get (snack_rates zsets hits_left) apples ≡ some 1
unfolding get
apples_known = refl

-- One request of two that the limiter allows is cancelled.
abbrev asked_once : Floor zsets hits_left
asked_once = record (attempt zsets hits_left apples 1 (opened zsets hits_left bar)) {
  answers = (apples, record { allowed = true; remaining = 1 }) ∷ [];
}

abbrev asked_twice : Floor zsets hits_left
asked_twice = record (attempt zsets hits_left apples 1 asked_once) {
  answers =
      (apples, record { allowed = true; remaining = 0 })
      ∷ (apples, record { allowed = true; remaining = 1 })
      ∷ [];
}

abbrev one_dropped : Floor zsets hits_left
one_dropped = record asked_twice { pending = apples ∷ []; dropped = apples ∷ [] }

one_dropped-Run : Run zsets hits_left (opened zsets hits_left bar) one_dropped
unfolding attempt
one_dropped-Run =
    then_step
      (then_step (then_step started (attempted apples 1 (opened zsets hits_left bar) apples_known))
        (attempted apples 1 asked_once apples_known))
      (cancelled apples [] (apples ∷ []) asked_twice refl)

Run-counts_example :
    (sold zsets hits_left one_dropped.db apples
        + occurrences apples one_dropped.pending
        + occurrences apples one_dropped.dropped
      ≡ granted apples one_dropped.answers)
    × (sold zsets hits_left one_dropped.db apples ≤ granted apples one_dropped.answers)
    × (one_dropped.pending ≡ []
        → one_dropped.dropped ≡ []
        → sold zsets hits_left one_dropped.db apples ≡ granted apples one_dropped.answers)
Run-counts_example =
    Run-counts zsets hits_left bar one_dropped apples (λ other. refl) one_dropped-Run

sell-Run_example :
    (floor : Floor zsets hits_left) × Run zsets hits_left (opened zsets hits_left bar) floor
    × IsServed zsets hits_left apples 1 bar (sell zsets hits_left apples bar).1 floor
sell-Run_example = sell-Run zsets hits_left apples 1 bar apples_known

abbrev usages : List (Result (Option ℕ))
usages = ok (some 72) ∷ err value_error ∷ ok none ∷ ok (some 10240) ∷ ok (some 200000000) ∷ []

printed_counts-tally_keys_example :
    printed_counts (tally_keys usages empty_histogram)
    ≡ number_of (λ size. leb size 1024) (measured usages)
      ∷ number_of (between 1024 10240) (measured usages)
      ∷ number_of (between 10240 102400) (measured usages)
      ∷ number_of (between 102400 1048576) (measured usages)
      ∷ number_of (between 1048576 10485760) (measured usages)
      ∷ number_of (between 10485760 104857600) (measured usages)
      ∷ number_of (ltb 104857600) (measured usages)
      ∷ []
printed_counts-tally_keys_example = printed_counts-tally_keys usages

abbrev before : List (ℕ × ℕ)
before = (7, 100) ∷ (8, 50) ∷ []

abbrev after : List (ℕ × ℕ)
after = (7, 130) ∷ (8, 50) ∷ (9, 20) ∷ []

abbrev report : Report
report = record {
  total = 50;
  listed = (7, 30) ∷ (9, 20) ∷ [];
  verdict = Verdict.partially_concentrated;
}

report_is_printed : print_thread_report before after ≡ some report
unfolding print_thread_report
report_is_printed = refl

print_thread_report-at_least_example :
    (report.total ≡ sum_of ticks (busy_threads before after))
    × IsShare report.verdict (highest (busy_threads before after)) report.total
    × (at_least report.verdict ≤ num_busy before after)
print_thread_report-at_least_example =
    print_thread_report-at_least before after report report_is_printed

abbrev stat_fields : List Text
stat_fields =
    codes "1"
    ∷ codes "2"
    ∷ codes "3"
    ∷ codes "4"
    ∷ codes "5"
    ∷ codes "6"
    ∷ codes "7"
    ∷ codes "8"
    ∷ codes "9"
    ∷ codes "10"
    ∷ decimal 250
    ∷ decimal 75
    ∷ codes "0"
    ∷ []

stat_fields-IsWord : All IsWord stat_fields
unfolding decimal
stat_fields-IsWord = (
  (cc, (refl, tt)),
  (
    (cc, (refl, tt)),
    (
      (cc, (refl, tt)),
      (
        (cc, (refl, tt)),
        (
          (cc, (refl, tt)),
          (
            (cc, (refl, tt)),
            (
              (cc, (refl, tt)),
              (
                (cc, (refl, tt)),
                (
                  (cc, (refl, tt)),
                  (
                    (cc, (refl, (refl, tt))),
                    (
                      (cc, (refl, (refl, (refl, tt)))),
                      ((cc, (refl, (refl, tt))), ((cc, (refl, tt)), tt)),
                    ),
                  ),
                ),
              ),
            ),
          ),
        ),
      ),
    ),
  ),
)

stat_fields-Lacks : Lacks 41 (join 32 (codes "S" ∷ stat_fields))
unfolding decimal
stat_fields-Lacks = omega arith

thread_ticks-stat_line_example :
    thread_ticks (stat_line (codes "4821") (codes "Proactor) 0 (") (codes "S" ∷ stat_fields))
    ≡ ok 325
thread_ticks-stat_line_example =
    thread_ticks-stat_line (codes "4821") (codes "Proactor) 0 (") (codes "S") stat_fields 250 75
      (cc, (refl, tt)) stat_fields-IsWord stat_fields-Lacks refl refl

abbrev at_micros : ℕ → Time
at_micros n = record { aware = true; micros = n }

-- A time is a text's length, and a number its field's, but a text that begins with an `x` is no
-- number.
abbrev lengths : Formats
lengths = record {
  Number = ℕ;
  no_number = 0;
  is_decimal = λ c. leb b'0' c && leb c b'9';
  parse_int = λ part. some (length part);
  fromisoformat =
      λ line. if starts_with line (codes "2026") then some (at_micros (length line)) else none;
  parse_float = λ part. if starts_with part (codes "x") then none else some (length part);
}

-- Noon at five hours behind UTC, with a fraction of a second.
abbrev iso_line : Text
iso_line = codes "2026-07-01T12:00:00.25-05:00"

iso_line_groups :
    iso_match lengths.is_decimal iso_line
    ≡ some (record {
      base = codes "2026-07-01T12:00:00.25";
      sign = b'-';
      oh = codes "05";
      om = codes "00";
    })
unfolding iso_match strip_front
iso_line_groups = refl

abbrev iostat_log : List Text
iostat_log =
    codes "Linux"
    ∷ codes "2026-07-01"
    ∷ codes "avg-cpu: %user %nice %system %iowait"
    ∷ codes " 1.00 2.00 3.00 44.00"
    ∷ codes "2026-07-01T00"
    ∷ codes "Device r_await %util"
    ∷ codes "sda 1.5 99.90"
    ∷ []

parse_iostat-times_example : times_of lengths (parse_iostat lengths iostat_log) ≡ (
    if ltb 1 (length (stamps lengths iostat_log))
    then drop 1 (stamps lengths iostat_log)
    else stamps lengths iostat_log)
parse_iostat-times_example = parse_iostat-times lengths iostat_log

abbrev sample_at : ℕ → IostatSample lengths
sample_at time = record { timestamp = at_micros time; iowait_pct = 4; devices = [] }

abbrev two_samples : List (IostatSample lengths)
two_samples = sample_at 3 ∷ sample_at 9 ∷ []

closest_sample-IsClosest_example :
    (All (IsComparable lengths (at_micros 7)) two_samples
      × (best : IostatSample lengths) × (closest_sample lengths two_samples (at_micros 7)
          ≡ ok (some best))
      × IsClosest lengths (at_micros 7) two_samples best)
    ⊎ (HasStranger lengths (at_micros 7) two_samples
        × (closest_sample lengths two_samples (at_micros 7) ≡ err type_error))
closest_sample-IsClosest_example = closest_sample-IsClosest lengths (at_micros 7) two_samples (cc)

second_is_closest : closest_sample lengths two_samples (at_micros 7) ≡ ok (some (sample_at 9))
unfolding closest_sample closest_from abs_difference
second_is_closest = refl

naive_raises :
    closest_sample lengths two_samples (record { aware = false; micros = 7 }) ≡ err type_error
unfolding closest_sample closest_from abs_difference
naive_raises = refl

abbrev header_line : Text
header_line = codes "=== Top 10 slowest queries ==="

abbrev row_line : Text
row_line = codes "  1.  2026-07  9.1ms  hget all  fqdn1=a port=1 "

abbrev bad_row : Text
bad_row = codes "  2.  2025-07  9.1ms  hget  fqdn1=a"

abbrev end_line : Text
end_line = codes "=== Summary ==="

row_line_groups :
    match_row (λ c. leb b'0' c && leb c b'9') row_line
    ≡ some (record {
      rank = codes "1";
      ts = codes "2026-07";
      lat = codes "9.1";
      op = codes "hget all";
      detail = codes "fqdn1=a port=1 ";
    })
unfolding match_row strip_front
row_line_groups = refl

bad_row_raises : parse_top_slow lengths (header_line ∷ bad_row ∷ []) ≡ err value_error
unfolding parse_top_slow section_rows is_header is_end is_skipped parse_iso strip_front strip_end
bad_row_raises = refl

abbrev clients_before : List ClientRow
clients_before = record { id = codes "1"; tid = some (codes "0") } ∷ []

abbrev clients_after : List ClientRow
clients_after =
    record { id = codes "1"; tid = some (codes "0") }
    ∷ record { id = codes "2"; tid = some (codes "3") }
    ∷ record { id = codes "3"; tid = some (codes "3") }
    ∷ []

clients_pinned : verdict_for (case_result clients_before clients_after) 20 ≡ pinned 2
unfolding verdict_for case_result
clients_pinned = refl

verdict_for-pinned_example :
    (2 ≡ length (clients_between clients_before clients_after))
    × (thread : Text) × All (IsOn thread) (clients_between clients_before clients_after)
verdict_for-pinned_example = verdict_for-pinned clients_before clients_after 20 2 clients_pinned
