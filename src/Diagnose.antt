-- ===== src/Diagnose.antt =====
-- What fqdnrules/diagnose_hot_tag_routing.py and fqdnrules/diagnose_router_hotspot.py measure, with the
-- same two functions: the CPU ticks of a process's threads, and the report on their increase.
pub mod Stat
pub mod Hotspot
pub mod Shares
use fun_with_dragonfly_db.Prelude.{
  ℕ, zero, suc, ◌+◌, ◌*◌, ◌-◌, Bool, true, false, ◌||◌, ◌&&◌, Option, none, some, List, [], ◌∷◌,
  leb, ltb, ◌==◌, if◌then◌else◌, Text, drop, take, sort_desc, sum_of, Result, ok, ◌>>=◌, parse_nat,
}
use fun_with_dragonfly_db.Pattern.{is_space}
use fun_with_dragonfly_db.Router.{at_index}

-- `stat.rfind(")")` from `i` on.
unfoldable pub last_index : ℕ → ℕ → Text → Option ℕ
last_index c i [] = none
last_index c i (d ∷ s) = elim (last_index c (suc i) s) [
  | some j ↦ some j
  | none ↦ if d == c then some i else none
]

-- `stat.rfind(")") + 2`, where `rfind` answers -1 for none.
abbrev pub after_comm : Option ℕ → ℕ
after_comm none = 1
after_comm (some i) = i + 2

-- The word that a character belongs to, put before the words behind it.
abbrev pub close_word : Text → List Text → List Text
close_word [] words = words
close_word (c ∷ word) words = (c ∷ word) ∷ words

-- `str.split()`: the word before the first space, and the words behind it.
unfoldable pub split_words : Text → Text × List Text
split_words [] = ([], [])
split_words (c ∷ s) =
    let (word, words) = split_words s in
    if is_space c then ([], close_word word words) else (c ∷ word, words)

unfoldable pub words_of : Text → List Text
unfolding split_words
words_of s = close_word (split_words s).0 (split_words s).1

-- A line of `/proc/<pid>/task/<tid>/stat`: `int(rest[11]) + int(rest[12])`.
unfoldable pub thread_ticks : Text → Result ℕ
unfolding last_index words_of
thread_ticks stat = do
  let rest = words_of (drop (after_comm (last_index 41 0 stat)) stat)
  user_text ← at_index rest 11
  user ← parse_nat user_text
  system_text ← at_index rest 12
  system ← parse_nat system_text
  ok (user + system)

-- `read_thread_cpu_ticks`, on the contents of the files that can be read, by thread id.
unfoldable pub read_thread_cpu_ticks : List (ℕ × Option Text) → Result (List (ℕ × ℕ))
unfolding thread_ticks
read_thread_cpu_ticks [] = ok []
read_thread_cpu_ticks ((tid, none) ∷ files) = read_thread_cpu_ticks files
read_thread_cpu_ticks ((tid, some stat) ∷ files) = do
  ticks ← thread_ticks stat
  others ← read_thread_cpu_ticks files
  ok ((tid, ticks) ∷ others)

-- `before.get(tid, 0)`
unfoldable pub ticks_of : List (ℕ × ℕ) → ℕ → ℕ
ticks_of [] tid = 0
ticks_of ((tid', n) ∷ items) tid = let rest = ticks_of items tid in if tid' == tid then n else rest

-- `deltas`, those above 0: a subtraction that stops at 0 loses none of them.
unfoldable pub busy_threads : List (ℕ × ℕ) → List (ℕ × ℕ) → List (ℕ × ℕ)
unfolding ticks_of
busy_threads before [] = []
busy_threads before ((tid, n) ∷ after) =
    let rest = busy_threads before after in
    let d = n - ticks_of before tid in if ltb 0 d then (tid, d) ∷ rest else rest

pub data Verdict : Type 0 where
  concentrated partially_concentrated spread : Verdict

-- `100 * top / total > 60`, `> 30`.
unfoldable pub verdict_of : ℕ → ℕ → Verdict
verdict_of top total =
    if ltb (60 * total) (100 * top)
    then concentrated
    else (if ltb (30 * total) (100 * top) then partially_concentrated else spread)

-- What is printed: the threads that are listed, and the verdict.
pub record Report : Type 0 where
  pub total : ℕ
  pub listed : List (ℕ × ℕ)
  pub verdict : Verdict

abbrev pub ticks : ℕ × ℕ → ℕ
ticks thread = thread.1

unfoldable pub report_on : ℕ → List (ℕ × ℕ) → Option Report
unfolding verdict_of
report_on total [] = none
report_on total (top ∷ ranked) = some (record {
  total = total;
  listed = take 6 (top ∷ ranked);
  verdict = verdict_of (ticks top) total;
})

unfoldable pub print_thread_report : List (ℕ × ℕ) → List (ℕ × ℕ) → Option Report
unfolding report_on busy_threads sort_desc
print_thread_report before after =
    let deltas = busy_threads before after in
    report_on (sum_of ticks deltas) (sort_desc ticks deltas)
