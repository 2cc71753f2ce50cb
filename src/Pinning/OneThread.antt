-- ===== src/Pinning/OneThread.antt =====
-- What the verdict PINNED of fqdnrules/diagnose_thread_pinning.py tells of the connections.
use fun_with_dragonfly_db.Prelude.{
  ℕ, ◌≤◌, ◌≡◌, refl, sym, inl, inr, Bool, Bool-cases, true, false, Option, none, some, List, [],
  ◌∷◌, leb, leb→le, ltb, ◌==◌, if◌then◌else◌, arith, All, All-map, Text, text_eq, text_eq_refl,
  text_eq→eq, length,
}
use fun_with_dragonfly_db.Pinning.{
  ClientRow, CaseResult, pinned, snapshot_by_id, new_clients, bump_count, count_tids, case_result,
  unique_threads, is_no_counts, at_most_four, verdict_for,
}

has_count : Text → List (Text × ℕ) → Bool
has_count tid [] = false
has_count tid ((key, n) ∷ counts) =
    let rest = has_count tid counts in if text_eq key tid then true else rest

bump_count_self :
    (tid : Text) (counts : List (Text × ℕ)) → has_count tid (bump_count tid counts) ≡ true
unfolding bump_count has_count
bump_count_self tid [] = rw (text_eq_refl tid) refl
bump_count_self tid ((key, n) ∷ counts) = elim (Bool-cases (text_eq key tid)) [
  | inl e ↦ rw (e, e) refl
  | inr e ↦ rw (e, e) (bump_count_self tid counts)
]

bump_count-keeps :
    (tid other : Text) (counts : List (Text × ℕ))
    → has_count tid counts ≡ true
    → has_count tid (bump_count other counts) ≡ true
unfolding bump_count has_count
bump_count-keeps tid other [] h = absurd (cc)
bump_count-keeps tid other ((key, n) ∷ counts) h =
    ground (arith, bump_count-keeps tid other counts, text_eq→eq key other, text_eq→eq key tid)

count_tids-keeps :
    (tid : Text) (clients : List (Text × Option Text)) (counts : List (Text × ℕ))
    → has_count tid counts ≡ true
    → has_count tid (count_tids clients counts) ≡ true
unfolding count_tids
count_tids-keeps tid [] counts h = h
count_tids-keeps tid ((i, none) ∷ clients) counts h = count_tids-keeps tid clients counts h
count_tids-keeps tid ((i, some other) ∷ clients) counts h =
    count_tids-keeps tid clients (bump_count other counts) (bump_count-keeps tid other counts h)

-- A client without a thread id, or with one that is counted.
abbrev IsCounted : List (Text × ℕ) → Text × Option Text → Type 0
IsCounted counts client = (tid : Text) → client.1 ≡ some tid → has_count tid counts ≡ true

count_tids-IsCounted :
    (clients : List (Text × Option Text)) (counts : List (Text × ℕ))
    → All (IsCounted (count_tids clients counts)) clients
unfolding count_tids
count_tids-IsCounted [] counts = tt
count_tids-IsCounted ((i, none) ∷ clients) counts =
    ((λ tid e. absurd (cc)), count_tids-IsCounted clients counts)
count_tids-IsCounted ((i, some tid) ∷ clients) counts = (
  (λ other e.
      count_tids-keeps other clients (bump_count tid counts)
        (let same : tid ≡ other = cc in rw (← same) (bump_count_self tid counts))),
  count_tids-IsCounted clients (bump_count tid counts),
)

-- On the thread, or on none that is known.
abbrev pub IsOn : Text → Text × Option Text → Type 0
IsOn thread client = (tid : Text) → client.1 ≡ some tid → tid ≡ thread

one_count :
    (counts : List (Text × ℕ))
    → is_no_counts counts ≡ false
    → length counts ≤ 1
    → (thread : Text) × ((tid : Text) → has_count tid counts ≡ true → tid ≡ thread)
unfolding has_count
one_count [] h few = absurd (cc)
one_count ((thread, n) ∷ []) h few = (
  thread,
  λ tid e. elim (Bool-cases (text_eq thread tid)) [
    | inl q ↦ sym (text_eq→eq thread tid q)
    | inr q ↦ let no : false ≡ true = rw q at e in absurd (cc)
  ],
)
one_count (a ∷ b ∷ counts) h few = absurd (omega arith)

-- The clients that are new in the second list.
abbrev pub clients_between : List ClientRow → List ClientRow → List (Text × Option Text)
clients_between rows_before rows_after =
    new_clients (snapshot_by_id rows_before []) (snapshot_by_id rows_after [])

pinned_only :
    (result : CaseResult) (expected_n connections : ℕ)
    → verdict_for result expected_n ≡ pinned connections
    → (connections ≡ result.new_connection_count)
      × (is_no_counts result.tid_counts ≡ false)
      × (unique_threads result ≤ 1)
unfolding verdict_for
pinned_only result expected_n connections h = elim (Bool-cases (result.new_connection_count == 0)) [
  | inl e ↦ let no = rw e at h in absurd (cc)
  | inr e ↦ elim (Bool-cases (is_no_counts result.tid_counts)) [
    | inl f ↦ let no = rw (e, f) at h in absurd (cc)
    | inr f ↦ elim (Bool-cases (leb (unique_threads result) 1)) [
      | inl g ↦
          let yes : pinned result.new_connection_count ≡ pinned connections = rw (e, f, g) at h in
          (cc, f, leb→le (unique_threads result) 1 g)
      | inr g ↦ elim (Bool-cases (ltb (unique_threads result) (at_most_four expected_n))) [
        | inl i ↦ let no = rw (e, f, g, i) at h in absurd (cc)
        | inr i ↦ let no = rw (e, f, g, i) at h in absurd (cc)
      ]
    ]
  ]
]

-- PINNED is said only if it is so: there is one thread such that every new connection whose thread
-- the server reports is on it, and the number that is named is that of the new connections.
pub verdict_for-pinned :
    (rows_before rows_after : List ClientRow) (expected_n connections : ℕ)
    → verdict_for (case_result rows_before rows_after) expected_n ≡ pinned connections
    → (connections ≡ length (clients_between rows_before rows_after))
      × (thread : Text) × All (IsOn thread) (clients_between rows_before rows_after)
unfolding case_result
verdict_for-pinned rows_before rows_after expected_n connections h =
    let clients = clients_between rows_before rows_after in
    let (number, some_counts, few) =
      pinned_only (case_result rows_before rows_after) expected_n connections h in
    let (thread, same) = one_count (count_tids clients []) some_counts few in
    (
      number,
      thread,
      All-map (IsCounted (count_tids clients [])) (IsOn thread)
          (λ client counted tid e. same tid (counted tid e)) clients
          (count_tids-IsCounted clients []),
    )
