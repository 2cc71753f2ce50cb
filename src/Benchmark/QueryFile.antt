-- ===== src/Benchmark/QueryFile.antt =====
-- The query file of fqdnrules/benchmark.py: what was written is read back.
use fun_with_dragonfly_db.Prelude.{
  ℕ, zero, suc, ◌≤◌, ◌<◌, ◌≡◌, ◌≢◌, append_assoc, append-nil, refl, ap, sym, ◌∙◌, inl, inr, List,
  [], ◌∷◌, ◌++◌, map, arith, leb, Bool-cases, length, drop, take, All, All-append, Text, Lacks,
  split, join, split-join, split-cons, decimal, decimal-Lacks, parse_nat-decimal, ok,
}
use fun_with_dragonfly_db.Benchmark.{
  Query, tab, newline, carriage_return, universal_newlines, query_line, write_lines, write_batches,
  write_queries_to_file, parse_parts, read_loop, drop_last_empty, read_queries_from_file,
}

-- The names have no tab, no newline and no carriage return.
pub record IsPlain (q : Query) : Type 0 where
  pub no_tab1 : Lacks tab q.0
  pub no_newline1 : Lacks newline q.0
  pub no_return1 : Lacks carriage_return q.0
  pub no_tab2 : Lacks tab q.2
  pub no_newline2 : Lacks newline q.2
  pub no_return2 : Lacks carriage_return q.2

-- A line without its newline.
abbrev body : Query → Text
body q = join tab (q.0 ∷ decimal q.1 ∷ q.2 ∷ [])

parse-body : (q : Query) → IsPlain q → parse_parts (split tab (body q)) ≡ ok q
parse-body q h =
    rw
      (
        split-join tab (q.0 ∷ decimal q.1 ∷ q.2 ∷ []) (cc)
            (h.no_tab1, (decimal-Lacks q.1 tab (λ d. omega (arith, d.0, d.1)), (h.no_tab2, tt))),
        parse_nat-decimal q.1,
      )
      refl

body-Lacks : (q : Query) → IsPlain q → Lacks newline (body q)
body-Lacks q h =
    All-append (λ c. c ≢ newline) q.0 _ h.no_newline1
      (
        omega arith,
        All-append (λ c. c ≢ newline) (decimal q.1) _
            (decimal-Lacks q.1 newline (λ d. omega (arith, d.0, d.1))) (omega arith, h.no_newline2),
      )

line-body : (q : Query) (rest : Text) → query_line q ++ rest ≡ body q ++ (newline ∷ rest)
unfolding query_line
line-body (f, p, g) rest =
    append_assoc f (tab ∷ (decimal p ++ (tab ∷ (g ++ (newline ∷ []))))) rest
    ∙ ap (λ s. f ++ (tab ∷ s))
        (append_assoc (decimal p) (tab ∷ (g ++ (newline ∷ []))) rest
          ∙ ap (λ s. decimal p ++ (tab ∷ s)) (append_assoc g (newline ∷ []) rest))
    ∙ sym (
        append_assoc f (tab ∷ (decimal p ++ (tab ∷ g))) (newline ∷ rest)
        ∙ ap (λ s. f ++ (tab ∷ s)) (append_assoc (decimal p) (tab ∷ g) (newline ∷ rest)))

split-write_lines :
    (qs : List Query) → All IsPlain qs → split newline (write_lines qs) ≡ map body qs ++ ([] ∷ [])
unfolding write_lines
split-write_lines [] h = unfold split in refl
split-write_lines (q ∷ qs) (hq, hqs) =
    ap (split newline) (line-body q (write_lines qs))
    ∙ split-cons newline (body q) (write_lines qs) (body-Lacks q hq)
    ∙ ap (◌∷◌ (body q)) (split-write_lines qs hqs)

universal_newlines_fixed : (s : Text) → Lacks carriage_return s → universal_newlines s ≡ s
unfolding universal_newlines
universal_newlines_fixed [] h = refl
universal_newlines_fixed (c ∷ []) (h, hs) = ground arith
universal_newlines_fixed (c ∷ d ∷ s) (h, hs) = ground (arith, universal_newlines_fixed (d ∷ s) hs)

query_line-Lacks : (q : Query) → IsPlain q → Lacks carriage_return (query_line q)
unfolding query_line
query_line-Lacks (f, p, g) h =
    All-append (λ c. c ≢ carriage_return) f _ h.no_return1
      (
        omega arith,
        All-append (λ c. c ≢ carriage_return) (decimal p) _
            (decimal-Lacks p carriage_return (λ d. omega (arith, d.0, d.1)))
            (omega arith, All-append (λ c. c ≢ carriage_return) g _ h.no_return2 (omega arith, tt)),
      )

write_lines-Lacks : (qs : List Query) → All IsPlain qs → Lacks carriage_return (write_lines qs)
unfolding write_lines
write_lines-Lacks [] h = tt
write_lines-Lacks (q ∷ qs) (hq, hqs) =
    All-append (λ c. c ≢ carriage_return) (query_line q) _ (query_line-Lacks q hq)
      (write_lines-Lacks qs hqs)

drop_last_empty-lines : (ls : List Text) → drop_last_empty (ls ++ ([] ∷ [])) ≡ ls
unfolding drop_last_empty
drop_last_empty-lines [] = refl
drop_last_empty-lines (l ∷ []) = refl
drop_last_empty-lines (l ∷ m ∷ ls) = ap (◌∷◌ l) (drop_last_empty-lines (m ∷ ls))

append-write_lines :
    (xs ys : List Query) → write_lines xs ++ write_lines ys ≡ write_lines (xs ++ ys)
unfolding write_lines
append-write_lines [] ys = refl
append-write_lines (x ∷ xs) ys =
    append_assoc (query_line x) (write_lines xs) (write_lines ys)
    ∙ ap (λ s. query_line x ++ s) (append-write_lines xs ys)

take-append-drop : (n : ℕ) (xs : List Query) → take n xs ++ drop n xs ≡ xs
take-append-drop zero xs = refl
take-append-drop (suc n) [] = refl
take-append-drop (suc n) (x ∷ xs) = ap (◌∷◌ x) (take-append-drop n xs)

length-drop-le : (n : ℕ) (xs : List Query) → length (drop n xs) ≤ length xs
length-drop-le zero xs = omega arith
length-drop-le (suc n) [] = omega arith
length-drop-le (suc n) (x ∷ xs) = let r = length-drop-le n xs in omega arith

length-drop-lt :
    (n : ℕ) (q : Query) (qs : List Query) → 0 < n → length (drop n (q ∷ qs)) ≤ length qs
length-drop-lt zero q qs h = absurd (omega arith)
length-drop-lt (suc n) q qs h = length-drop-le n qs

write_batches-write_lines :
    (fuel : ℕ) (qs : List Query) (batch_size : ℕ)
    → 0 < batch_size
    → length qs ≤ fuel
    → write_batches fuel qs batch_size ≡ write_lines qs
unfolding write_batches
write_batches-write_lines zero [] bs p h = unfold write_lines in refl
write_batches-write_lines zero (q ∷ qs) bs p h = absurd (omega arith)
write_batches-write_lines (suc fuel) [] bs p h =
    ap (λ s. write_lines (take bs []) ++ s)
      (write_batches-write_lines fuel (drop bs []) bs p
        (let l = length-drop-le bs [] in omega arith))
    ∙ append-write_lines (take bs []) (drop bs [])
    ∙ ap write_lines (take-append-drop bs [])
write_batches-write_lines (suc fuel) (q ∷ qs) bs p h =
    ap (λ s. write_lines (take bs (q ∷ qs)) ++ s)
      (write_batches-write_lines fuel (drop bs (q ∷ qs)) bs p
        (let l = length-drop-lt bs q qs p in omega arith))
    ∙ append-write_lines (take bs (q ∷ qs)) (drop bs (q ∷ qs))
    ∙ ap write_lines (take-append-drop bs (q ∷ qs))

read_loop-bodies :
    (batch_size : ℕ) (qs queries batch : List Query)
    → All IsPlain qs
    → read_loop batch_size (map body qs) queries batch ≡ ok (queries ++ (batch ++ qs))
unfolding read_loop
read_loop-bodies bs [] queries batch h = ap (λ b. ok (queries ++ b)) (sym (append-nil batch))
read_loop-bodies bs (q ∷ qs) queries batch (hq, hqs) =
    elim (Bool-cases (leb bs (length (batch ++ (q ∷ []))))) [
      | inl e ↦
          rw (parse-body q hq, e)
            (read_loop-bodies bs qs (queries ++ (batch ++ (q ∷ []))) [] hqs
              ∙ ap ok (
                  append_assoc queries (batch ++ (q ∷ [])) qs
                  ∙ ap (λ b. queries ++ b) (append_assoc batch (q ∷ []) qs)))
      | inr e ↦
          rw (parse-body q hq, e)
            (read_loop-bodies bs qs queries (batch ++ (q ∷ [])) hqs
              ∙ ap (λ b. ok (queries ++ b)) (append_assoc batch (q ∷ []) qs))
    ]

-- Queries whose names have no tab, no newline and no carriage return are read back as they were
-- written, whatever the batch sizes of the writer, from one on, and of the reader.
pub read-write_queries :
    (queries : List Query) (write_size read_size : ℕ)
    → 0 < write_size
    → All IsPlain queries
    → read_queries_from_file (write_queries_to_file queries write_size) read_size ≡ ok queries
unfolding read_queries_from_file write_queries_to_file
read-write_queries qs ws rs p h =
    ap (λ f. read_loop rs (drop_last_empty (split newline (universal_newlines f))) [] [])
      (write_batches-write_lines (length qs) qs ws p (omega arith))
    ∙ ap (λ f. read_loop rs (drop_last_empty (split newline f)) [] [])
        (universal_newlines_fixed (write_lines qs) (write_lines-Lacks qs h))
    ∙ ap (λ ls. read_loop rs (drop_last_empty ls) [] []) (split-write_lines qs h)
    ∙ ap (λ ls. read_loop rs ls [] []) (drop_last_empty-lines (map body qs))
    ∙ read_loop-bodies rs qs [] [] h
