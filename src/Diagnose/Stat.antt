-- ===== src/Diagnose/Stat.antt =====
-- The line of /proc/<pid>/task/<tid>/stat that fqdnrules/diagnose_hot_tag_routing.py reads.
use fun_with_dragonfly_db.Prelude.{
  ℕ, suc, ◌+◌, ◌≡◌, ◌≢◌, refl, ap, false, some, none, List, [], ◌∷◌, ◌++◌, ne→==, eq→==, arith, All,
  All-append, Text, Lacks, length, drop, join, append-nil, append_assoc, get_elem?, decimal,
  parse_nat-decimal, ok,
}
use fun_with_dragonfly_db.Pattern.{is_space}
use fun_with_dragonfly_db.Diagnose.{last_index, close_word, split_words, words_of, thread_ticks}

-- A field of the line.
abbrev pub IsWord : Text → Type 0
IsWord word = (word ≢ []) × All (λ c. is_space c ≡ false) word

last_index-Lacks : (c i : ℕ) (s : Text) → Lacks c s → last_index c i s ≡ none
unfolding last_index
last_index-Lacks c i [] h = refl
last_index-Lacks c i (d ∷ s) (h, hs) = rw (last_index-Lacks c (suc i) s hs, ne→== d c h) refl

-- The last of a character, with none of it behind.
last_index-append :
    (c i : ℕ) (front back : Text)
    → Lacks c back
    → last_index c i (front ++ (c ∷ back)) ≡ some (i + length front)
unfolding last_index
last_index-append c i [] back h =
    rw (last_index-Lacks c (suc i) back h, eq→== c c refl) (ap some (omega arith))
last_index-append c i (d ∷ front) back h =
    rw (last_index-append c (suc i) front back h) (ap some (omega arith))

drop-append :
    (front : Text) (c d : ℕ) (back : Text)
    → drop (suc (suc (length front))) (front ++ (c ∷ d ∷ back)) ≡ back
drop-append [] c d back = refl
drop-append (b ∷ front) c d back = drop-append front c d back

drop-after_comm :
    (front : Text) (c d : ℕ) (back : Text)
    → drop (0 + length front + 2) (front ++ (c ∷ d ∷ back)) ≡ back
drop-after_comm front c d back =
    let same : 0 + length front + 2 ≡ suc (suc (length front)) = omega arith in
    rw same (drop-append front c d back)

-- A word before anything.
split_words-append :
    (word s : Text)
    → All (λ c. is_space c ≡ false) word
    → split_words (word ++ s) ≡ (word ++ (split_words s).0, (split_words s).1)
unfolding split_words
split_words-append [] s h = refl
split_words-append (c ∷ word) s (h, hs) = rw (h, split_words-append word s hs) refl

close_word-ne : (word : Text) (words : List Text) → word ≢ [] → close_word word words ≡ word ∷ words
close_word-ne [] words h = absurd (h refl)
close_word-ne (c ∷ word) words h = refl

-- The line's end after the fields.
abbrev pub line_of : List Text → Text
line_of fields = join 32 fields ++ (10 ∷ [])

split_words-line_of :
    (field : Text) (fields : List Text)
    → IsWord field
    → All IsWord fields
    → split_words (line_of (field ∷ fields)) ≡ (field, fields)
unfolding split_words
split_words-line_of field [] (h, plain) hs =
    rw (split_words-append field (10 ∷ []) plain) (ap (λ word. (word, [])) (append-nil field))
split_words-line_of field (next ∷ fields) (h, plain) ((ne, hn), hs) =
    rw
      (
        append_assoc field (32 ∷ join 32 (next ∷ fields)) (10 ∷ []),
        split_words-append field (32 ∷ line_of (next ∷ fields)) plain,
        split_words-line_of next fields (ne, hn) hs,
        close_word-ne next fields ne,
      )
      (ap (λ word. (word, next ∷ fields)) (append-nil field))

words_of-line_of :
    (field : Text) (fields : List Text)
    → IsWord field
    → All IsWord fields
    → words_of (line_of (field ∷ fields)) ≡ field ∷ fields
unfolding words_of
words_of-line_of field fields h hs =
    rw (split_words-line_of field fields h hs) (close_word-ne field fields h.0)

-- The line of a thread: `pid (comm) `, the fields, and the line's end.
abbrev pub stat_line : Text → Text → List Text → Text
stat_line pid comm fields = (pid ++ (32 ∷ 40 ∷ comm)) ++ (41 ∷ 32 ∷ line_of fields)

-- Whatever the name of a thread is, with spaces and with any parentheses: of a line whose further
-- fields are words without a closing parenthesis, the ticks that are read are the sum of the
-- numbers in the twelfth and the thirteenth field, user and system time.
pub thread_ticks-stat_line :
    (pid comm field : Text) (fields : List Text) (user system : ℕ)
    → IsWord field
    → All IsWord fields
    → Lacks 41 (join 32 (field ∷ fields))
    → get_elem? (field ∷ fields) 11 ≡ some (decimal user)
    → get_elem? (field ∷ fields) 12 ≡ some (decimal system)
    → thread_ticks (stat_line pid comm (field ∷ fields)) ≡ ok (user + system)
unfolding thread_ticks
thread_ticks-stat_line pid comm field fields user system h hs plain e11 e12 =
    let front = pid ++ (32 ∷ 40 ∷ comm) in
    let back = line_of (field ∷ fields) in
    let clean : Lacks 41 (32 ∷ back) =
      ((omega arith), All-append _ (join 32 (field ∷ fields)) (10 ∷ []) plain (omega arith, tt)) in
    rw
      (
        last_index-append 41 0 front (32 ∷ back) clean,
        drop-after_comm front 41 32 back,
        words_of-line_of field fields h hs,
        e11,
        e12,
        parse_nat-decimal user,
        parse_nat-decimal system,
      )
      refl
