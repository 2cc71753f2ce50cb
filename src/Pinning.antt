-- ===== src/Pinning.antt =====
-- fqdnrules/diagnose_thread_pinning.py: which server threads the new connections of a case landed on,
-- from two lists of clients. Opening the connections is left out.
pub mod OneThread
use fun_with_dragonfly_db.Prelude.{
  ℕ, zero, suc, ◌+◌, Bool, true, false, ◌&&◌, Option, none, some, List, [], ◌∷◌, ltb, leb, ◌==◌,
  if◌then◌else◌, Text, text_eq, length,
}
use fun_with_dragonfly_db.Correlate.{set_item}

-- A row of CLIENT LIST: `row["id"]`, and `row["tid"]` if there is one.
pub record ClientRow : Type 0 where
  pub id : Text
  pub tid : Option Text

-- `snapshot_by_id`, as the items of the dictionary.
unfoldable pub snapshot_by_id :
    List ClientRow → List (Text × Option Text) → List (Text × Option Text)
unfolding set_item
snapshot_by_id [] items = items
snapshot_by_id (row ∷ rows) items = snapshot_by_id rows (set_item row.id row.tid items)

-- `i in before`
unfoldable pub has_id : Text → List (Text × Option Text) → Bool
has_id i [] = false
has_id i ((j, tid) ∷ items) = let rest = has_id i items in if text_eq j i then true else rest

-- `new_ids`, with what `after` has for them.
unfoldable pub new_clients :
    List (Text × Option Text) → List (Text × Option Text) → List (Text × Option Text)
unfolding has_id
new_clients before [] = []
new_clients before ((i, tid) ∷ after) =
    let rest = new_clients before after in if has_id i before then rest else (i, tid) ∷ rest

-- One more of a key of a `Counter`.
unfoldable pub bump_count : Text → List (Text × ℕ) → List (Text × ℕ)
bump_count tid [] = (tid, 1) ∷ []
bump_count tid ((key, n) ∷ counts) =
    let rest = bump_count tid counts in
    if text_eq key tid then (key, n + 1) ∷ counts else (key, n) ∷ rest

-- `Counter(after[i]["tid"] for i in new_ids if "tid" in after[i])`
unfoldable pub count_tids : List (Text × Option Text) → List (Text × ℕ) → List (Text × ℕ)
unfolding bump_count
count_tids [] counts = counts
count_tids ((i, none) ∷ clients) counts = count_tids clients counts
count_tids ((i, some tid) ∷ clients) counts = count_tids clients (bump_count tid counts)

pub record CaseResult : Type 0 where
  pub new_connection_count : ℕ
  pub tid_counts : List (Text × ℕ)

-- `unique_threads`
abbrev pub unique_threads : CaseResult → ℕ
unique_threads result = length result.tid_counts

-- The counts of `run_case`, from the two lists of clients.
unfoldable pub case_result : List ClientRow → List ClientRow → CaseResult
unfolding snapshot_by_id new_clients count_tids
case_result rows_before rows_after =
    let clients = new_clients (snapshot_by_id rows_before []) (snapshot_by_id rows_after []) in
    record { new_connection_count = length clients; tid_counts = count_tids clients [] }

pub data PinVerdict : Type 0 where
  no_new_connections no_tid_field : PinVerdict
  pinned : (connections : ℕ) → PinVerdict
  partially_spread spread_out : (threads : ℕ) → PinVerdict

abbrev pub is_no_counts : List (Text × ℕ) → Bool
is_no_counts [] = true
is_no_counts (item ∷ counts) = false

-- `min(expected_n, 4)`
abbrev pub at_most_four : ℕ → ℕ
at_most_four n = if ltb 4 n then 4 else n

-- `verdict_for`: its second test holds exactly for an empty counter, whose keys join to "".
unfoldable pub verdict_for : CaseResult → ℕ → PinVerdict
verdict_for result expected_n =
    if result.new_connection_count == 0
    then no_new_connections
    else (if is_no_counts result.tid_counts
        then no_tid_field
        else (if leb (unique_threads result) 1
            then pinned result.new_connection_count
            else (if ltb (unique_threads result) (at_most_four expected_n)
                then partially_spread (unique_threads result)
                else spread_out (unique_threads result))))
